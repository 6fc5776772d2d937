-- ===== src/Web/Maintenance/Counted.antt =====
-- How many elements of a list satisfy a predicate, which the rules of internal/web/maintenance.go
-- compare with the length of a list.
use wgroster.Prelude.{
  ℕ, suc, ◌≡◌, refl, inl, inr, ◌⊎◌, ◌↔◌, Bool, true, false, List, [], ◌∷◌, select, length, ap, ◌∙◌,
  sym, arith, Bool-cases,
}

module _ {A : Type 0} (P : A → Type 0) where
  abbrev pub Counted : List A → ℕ → Type 0
  Counted [] n = n ≡ 0
  Counted (x ∷ xs) n = (P x × (m : ℕ) × (n ≡ suc m) × Counted xs m) ⊎ ((¬ P x) × Counted xs n)

  module _ (q : A → Bool) (decides : (x : A) → (q x ≡ true) ↔ P x) where
    no : (x : A) → q x ≡ false → ¬ P x
    no x e p = ground (arith, e, (decides x).1 p)

    pub select-Counted : (xs : List A) → Counted xs (length (select q xs))
    select-Counted [] = refl
    select-Counted (x ∷ xs) = elim (Bool-cases (q x)) [
      | inl e ↦ rw e (inl ((decides x).0 e, length (select q xs), refl, select-Counted xs))
      | inr e ↦ rw e (inr (no x e, select-Counted xs))
    ]

    pub Counted-select : (xs : List A) (n : ℕ) → Counted xs n → length (select q xs) ≡ n
    Counted-select [] n c = sym c
    Counted-select (x ∷ xs) n (inl (p, m, e, c)) =
        rw ((decides x).1 p) (ap suc (Counted-select xs m c) ∙ sym e)
    Counted-select (x ∷ xs) n (inr (k, c)) = elim (Bool-cases (q x)) [
      | inl e ↦ absurd (k ((decides x).0 e))
      | inr e ↦ rw e (Counted-select xs n c)
    ]
