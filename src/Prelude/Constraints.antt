-- ===== src/Prelude/Constraints.antt =====
-- No two rows of a table clash: UNIQUE constraints and primary keys, and what keeps them.
use mathlib.Core.Path.{◌≡◌, refl}
use mathlib.Core.Logic.{inl, inr}
use mathlib.Core.Bool.{Bool, true, false, not, ◌&&◌}
use mathlib.Core.List.{List, [], ◌∷◌, ◌++◌}
use native.Mathlib.Omega.{arith}
use wgroster.Prelude.Tests.{if◌then◌else◌, Bool-cases}
use wgroster.Prelude.Lists.{All, select, update, any}

module _ {A : Type 0} (clash : A → A → Type 0) where
  -- No row clashes with a later one.
  abbrev pub Apart : List A → Type 0
  Apart [] = Unit
  Apart (x ∷ xs) = All (λ y. ¬ clash x y) xs × Apart xs

pub All-imp :
    {A : Type 0} (P Q : A → Type 0) → ((a : A) → P a → Q a) → (xs : List A) → All P xs → All Q xs
All-imp P Q f [] h = tt
All-imp P Q f (x ∷ xs) h = (f x h.0, All-imp P Q f xs h.1)

pub All-select :
    {A : Type 0} (P : A → Type 0) (p : A → Bool) (xs : List A) → All P xs → All P (select p xs)
All-select P p [] h = tt
All-select P p (x ∷ xs) h = ground (arith, All-select P p xs h.1)

pub All-append :
    {A : Type 0} (P : A → Type 0) (xs : List A) (a : A) → All P xs → P a → All P (xs ++ a ∷ [])
All-append P [] a h p = (p, tt)
All-append P (x ∷ xs) a h p = (h.0, All-append P xs a h.1 p)

pub All-update :
    {A : Type 0} (P Q : A → Type 0) (p : A → Bool) (g : A → A)
    → ((a : A) → p a ≡ true → P a → Q (g a))
    → ((a : A) → p a ≡ false → P a → Q a)
    → (xs : List A) → All P xs
    → All Q (update p g xs)
All-update P Q p g hit miss [] h = tt
All-update P Q p g hit miss (x ∷ xs) h =
    let rest = All-update P Q p g hit miss xs h.1 in
    elim (Bool-cases (p x)) [ inl e ↦ rw e (hit x e h.0, rest) | inr e ↦ rw e (miss x e h.0, rest) ]

pub All-and :
    {A : Type 0} (P Q : A → Type 0) (xs : List A) → All P xs → All Q xs → All (λ a. P a × Q a) xs
All-and P Q [] h k = tt
All-and P Q (x ∷ xs) h k = ((h.0, k.0), All-and P Q xs h.1 k.1)

module _ {A : Type 0} (clash : A → A → Type 0) where
  pub Apart-select : (p : A → Bool) (xs : List A) → Apart clash xs → Apart clash (select p xs)
  Apart-select p [] h = tt
  Apart-select p (x ∷ xs) h =
      ground (arith, Apart-select p xs h.1, All-select (λ y. ¬ clash x y) p xs h.0)

  pub Apart-append :
      (xs : List A) (a : A)
      → Apart clash xs
      → All (λ x. ¬ clash x a) xs
      → Apart clash (xs ++ a ∷ [])
  Apart-append [] a h k = (tt, tt)
  Apart-append (x ∷ xs) a h k =
      (All-append (λ y. ¬ clash x y) xs a h.0 k.0, Apart-append xs a h.1 k.1)

  -- An update that makes no new clash keeps the rows apart.
  pub Apart-update_keep :
      (p : A → Bool) (g : A → A)
      → ((x y : A) → clash (if p x then g x else x) (if p y then g y else y) → clash x y)
      → (xs : List A) → Apart clash xs
      → Apart clash (update p g xs)
  Apart-update_keep p g keep [] h = tt
  Apart-update_keep p g keep (x ∷ xs) h = (move xs h.0, Apart-update_keep p g keep xs h.1)
    where
      move :
          (ys : List A)
          → All (λ y. ¬ clash x y) ys
          → All (λ y. ¬ clash (if p x then g x else x) y) (update p g ys)
      move [] k = tt
      move (y ∷ ys) k = (λ c. k.0 (keep x y c), move ys k.1)

  -- An update of rows that no two others match, to values that clash with no other row.
  pub Apart-update_set :
      (p : A → Bool) (g : A → A) (xs : List A)
      → Apart (λ x y. (p x ≡ true) × (p y ≡ true)) xs
      → All (λ y. p y ≡ false → (x : A) → (¬ clash (g x) y) × (¬ clash y (g x))) xs
      → Apart clash xs
      → Apart clash (update p g xs)
  Apart-update_set p g [] one free h = tt
  Apart-update_set p g (x ∷ xs) one free h = elim (Bool-cases (p x)) [
    | inl e ↦ rw e (hit e xs one.0 free.1, Apart-update_set p g xs one.1 free.1 h.1)
    | inr e ↦ rw e (miss e xs free.1 h.0, Apart-update_set p g xs one.1 free.1 h.1)
  ]
    where
      hit :
          p x ≡ true
          → (ys : List A) → All (λ y. ¬ ((p x ≡ true) × (p y ≡ true))) ys
          → All (λ y. p y ≡ false → (x : A) → (¬ clash (g x) y) × (¬ clash y (g x))) ys
          → All (λ y. ¬ clash (g x) y) (update p g ys)
      hit e [] o f = tt
      hit e (y ∷ ys) o f = elim (Bool-cases (p y)) [
        | inl ey ↦ absurd (o.0 (e, ey))
        | inr ey ↦ rw ey ((f.0 ey x).0, hit e ys o.1 f.1)
      ]

      miss :
          p x ≡ false
          → (ys : List A)
          → All (λ y. p y ≡ false → (x : A) → (¬ clash (g x) y) × (¬ clash y (g x))) ys
          → All (λ y. ¬ clash x y) ys
          → All (λ y. ¬ clash x y) (update p g ys)
      miss e [] f k = tt
      miss e (y ∷ ys) f k = elim (Bool-cases (p y)) [
        | inl ey ↦ rw ey ((free.0 e y).1, miss e ys f.1 k.1)
        | inr ey ↦ rw ey (k.0, miss e ys f.1 k.1)
      ]

-- What a test that finds nothing says of each row.
pub All-of_any :
    {A : Type 0} (p : A → Bool) (xs : List A) → any p xs ≡ false → All (λ x. p x ≡ false) xs
All-of_any p [] h = tt
All-of_any p (x ∷ xs) h = ground (arith, All-of_any p xs)

-- An update that a test does not see leaves the answer of `any` alone.
pub any-update :
    {A : Type 0} (q p : A → Bool) (g : A → A)
    → ((x : A) → q (if p x then g x else x) ≡ q x)
    → (xs : List A) → any q (update p g xs) ≡ any q xs
any-update q p g same [] = refl
any-update q p g same (x ∷ xs) = rw (same x, any-update q p g same xs)

pub any-append :
    {A : Type 0} (q : A → Bool) (xs : List A) (a : A)
    → any q xs ≡ true
    → any q (xs ++ a ∷ []) ≡ true
any-append q [] a h = cc
any-append q (x ∷ xs) a h = ground (arith, any-append q xs a)

pub any-select :
    {A : Type 0} (q p : A → Bool) (xs : List A)
    → any q xs ≡ true
    → ((x : A) → q x ≡ true → p x ≡ true)
    → any q (select p xs) ≡ true
any-select q p [] h k = h
any-select q p (x ∷ xs) h k = elim (Bool-cases (q x)) [
  | inl e ↦ ground (arith, k x e)
  | inr e ↦ ground (arith, any-select q p xs (ground arith) k)
]

pub update-none :
    {A : Type 0} (p : A → Bool) (g : A → A) (xs : List A) → any p xs ≡ false → update p g xs ≡ xs
update-none p g [] h = refl
update-none p g (x ∷ xs) h = ground (arith, update-none p g xs)

-- A test that held of some row still does, if it holds of no deleted row.
pub any-delete :
    {A : Type 0} (q p : A → Bool) (xs : List A)
    → any q xs ≡ true
    → any (λ x. p x && q x) xs ≡ false
    → any q (select (λ x. not (p x)) xs) ≡ true
any-delete q p [] h k = h
any-delete q p (x ∷ xs) h k = ground (arith, any-delete q p xs)

pub All-select_test :
    {A : Type 0} (p : A → Bool) (xs : List A) → All (λ x. p x ≡ true) (select p xs)
All-select_test p [] = tt
All-select_test p (x ∷ xs) = elim (Bool-cases (p x)) [
  | inl e ↦ rw e (e, All-select_test p xs)
  | inr e ↦ rw e (All-select_test p xs)
]
