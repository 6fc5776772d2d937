-- ===== src/Prelude/Rows.antt =====
-- The rows that a query returns, as members of a list.
use mathlib.Core.Path.{◌≡◌, refl, ap}
use mathlib.Core.Logic.{inl, inr, ◌↔◌}
use mathlib.Core.Bool.{Bool, true, false, not}
use mathlib.Core.List.{List, [], ◌∷◌, ◌++◌}
use native.Mathlib.Omega.{arith}
use wgroster.Prelude.Tests.{if◌then◌else◌, Bool-cases, ◌==◌}
use wgroster.Prelude.Lists.{In, select, update, length, any}

-- A row that a query returned is a row of the table, and satisfies its condition.
pub In-select :
    {A : Type 0} (p : A → Bool) (xs : List A) (a : A) → In a (select p xs) ↔ In a xs × (p a ≡ true)
In-select p [] a = ground arith
In-select p (x ∷ xs) a = elim (Bool-cases (p x)) [
  | inl e ↦ rw e (ground (arith, e, In-select p xs a))
  | inr e ↦ rw e (ground (arith, e, In-select p xs a))
]

-- A query that counts a row returns one.
pub select-inhabited :
    {A : Type 0} (p : A → Bool) (xs : List A)
    → not (length (select p xs) == 0) ≡ true
    → (a : A) × In a xs × (p a ≡ true)
select-inhabited p [] h = absurd (ground arith)
select-inhabited p (x ∷ xs) h = elim (Bool-cases (p x)) [
  | inl e ↦ (x, inl refl, e)
  | inr e ↦ let (a, i, q) = select-inhabited p xs (rw e at h) in (a, inr i, q)
]

pub select-counted :
    {A : Type 0} (p : A → Bool) (xs : List A) (a : A)
    → In a xs × (p a ≡ true)
    → not (length (select p xs) == 0) ≡ true
select-counted p [] a (i, e) = absurd i
select-counted p (x ∷ xs) a (i, e) = elim (Bool-cases (p x)) [
  | inl f ↦ rw f (ground arith)
  | inr f ↦ elim i [
    | inl g ↦ absurd (ground (arith, ap p g))
    | inr j ↦ rw f (select-counted p xs a (j, e))
  ]
]

-- A row after an update is a row before it, changed if the update selects it.
pub In-update :
    {A : Type 0} (p : A → Bool) (g : A → A) (xs : List A) (b : A)
    → In b (update p g xs)
    → (a : A) × In a xs × ((if p a then g a else a) ≡ b)
In-update p g [] b i = absurd i
In-update p g (x ∷ xs) b (inl e) = (x, inl refl, e)
In-update p g (x ∷ xs) b (inr i) = let (a, j, e) = In-update p g xs b i in (a, inr j, e)

-- A row at the end of a table.
pub any-last :
    {A : Type 0} (q : A → Bool) (xs : List A) (a : A) → q a ≡ true → any q (xs ++ a ∷ []) ≡ true
any-last q [] a h = rw h refl
any-last q (x ∷ xs) a h = ground (arith, any-last q xs a)

pub none-last :
    {A : Type 0} (q : A → Bool) (xs : List A) (a : A)
    → any q xs ≡ false
    → q a ≡ false
    → any q (xs ++ a ∷ []) ≡ false
none-last q [] a h k = rw k refl
none-last q (x ∷ xs) a h k = ground (arith, none-last q xs a)

pub update-last :
    {A : Type 0} (p : A → Bool) (g : A → A) (xs : List A) (a : A)
    → any p xs ≡ false
    → p a ≡ true
    → update p g (xs ++ a ∷ []) ≡ xs ++ g a ∷ []
update-last p g [] a n h = rw h refl
update-last p g (x ∷ xs) a n h = ground (arith, update-last p g xs a)
