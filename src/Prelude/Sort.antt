-- ===== src/Prelude/Sort.antt =====
-- ORDER BY: a stable insertion sort by a test, and the order of texts.
use Prim.Native.Nat.{suc}
use mathlib.Core.Path.{◌≡◌, refl}
use mathlib.Core.Logic.{inl, inr, ◌↔◌, ◌⊎◌}
use mathlib.Core.Bool.{Bool, true, false}
use mathlib.Core.List.{List, [], ◌∷◌}
use native.Mathlib.Omega.{arith}
use wgroster.Prelude.Tests.{Bool-cases, ltb, ◌==◌, if◌then◌else◌}
use wgroster.Prelude.Lists.{In, All, length}
use wgroster.Prelude.Texts.{Text}

module _ {A : Type 0} where
  -- Before the first row that need not come before x.
  unfoldable pub insert_by : (A → A → Bool) → A → List A → List A
  insert_by before x [] = x ∷ []
  insert_by before x (y ∷ ys) = if before y x then y ∷ insert_by before x ys else x ∷ y ∷ ys

  unfoldable pub sort_by : (A → A → Bool) → List A → List A
  unfolding insert_by
  sort_by before [] = []
  sort_by before (x ∷ xs) = insert_by before x (sort_by before xs)

  In-insert :
      (before : A → A → Bool) (x a : A) (ys : List A)
      → In a (insert_by before x ys) ↔ ((x ≡ a) ⊎ In a ys)
  unfolding insert_by
  In-insert before x a [] = (λ i. i, λ i. i)
  In-insert before x a (y ∷ ys) = ground (arith, In-insert before x a ys)

  -- Sorting keeps the rows.
  pub In-sort : (before : A → A → Bool) (a : A) (xs : List A) → In a (sort_by before xs) ↔ In a xs
  unfolding sort_by
  In-sort before a [] = (λ i. i, λ i. i)
  In-sort before a (x ∷ xs) =
      ground (arith, In-sort before a xs, In-insert before x a (sort_by before xs))

  insert-All :
      (P : A → Type 0) (before : A → A → Bool) (x : A) (ys : List A)
      → P x
      → All P ys
      → All P (insert_by before x ys)
  unfolding insert_by
  insert-All P before x [] h k = (h, tt)
  insert-All P before x (y ∷ ys) h k = elim (Bool-cases (before y x)) [
    | inl e ↦ rw e (k.0, insert-All P before x ys h k.1)
    | inr e ↦ rw e (h, k)
  ]

  pub All-sort :
      (P : A → Type 0) (before : A → A → Bool) (xs : List A) → All P xs → All P (sort_by before xs)
  unfolding sort_by
  All-sort P before [] h = tt
  All-sort P before (x ∷ xs) h =
      insert-All P before x (sort_by before xs) h.0 (All-sort P before xs h.1)

  length-insert :
      (before : A → A → Bool) (x : A) (ys : List A)
      → length (insert_by before x ys) ≡ suc (length ys)
  unfolding insert_by
  length-insert before x [] = refl
  length-insert before x (y ∷ ys) = ground (arith, length-insert before x ys)

  pub length-sort : (before : A → A → Bool) (xs : List A) → length (sort_by before xs) ≡ length xs
  unfolding sort_by
  length-sort before [] = refl
  length-sort before (x ∷ xs) =
      ground (arith, length-sort before xs, length-insert before x (sort_by before xs))

-- The binary collation of SQLite, which orders UTF-8 as code points.
unfoldable pub text_lt : Text → Text → Bool
text_lt [] [] = false
text_lt [] (b ∷ bs) = true
text_lt (a ∷ as') [] = false
text_lt (a ∷ as') (b ∷ bs) = if ltb a b then true else if a == b then text_lt as' bs else false
