-- ===== src/Web/Forms/Lines.antt =====
-- internal/web/helpers.go: the accepted values have no line break.
use wgroster.Prelude.{
  ℕ, ◌≡◌, refl, ap, subst, ◌∙◌, inl, inr, true, false, not, [], ◌∷◌, Text, any, arith, Bool-cases,
}
use wgroster.Strings.{
  has_char, is_space, trim_left, trim_right, trim_space, before_trimmed, without_last, ends_with,
}
use wgroster.Web.Forms.{is_base64, key_shape, valid_public_key, has_control_char}
use wgroster.Wg.Config.Lines.{IsOneLine}

before_trimmed-trim_right :
    (c : ℕ) (t : Text) → trim_right t ≡ t → trim_right (before_trimmed c t) ≡ before_trimmed c t
unfolding trim_right is_space
before_trimmed-trim_right c [] h = elim (Bool-cases (is_space c)) [
  | inl e ↦ rw e refl
  | inr e ↦ rw e (rw e refl)
]
before_trimmed-trim_right c (d ∷ ds) h = ap (before_trimmed c) h

trim_right_twice : (t : Text) → trim_right (trim_right t) ≡ trim_right t
unfolding trim_right
trim_right_twice [] = refl
trim_right_twice (c ∷ cs) = before_trimmed-trim_right c (trim_right cs) (trim_right_twice cs)

-- The text starts with no space.
abbrev IsTrimmedLeft : Text → Type 0
IsTrimmedLeft [] = Unit
IsTrimmedLeft (c ∷ cs) = is_space c ≡ false

trim_left-IsTrimmedLeft : (t : Text) → IsTrimmedLeft (trim_left t)
unfolding trim_left
trim_left-IsTrimmedLeft [] = tt
trim_left-IsTrimmedLeft (c ∷ cs) = elim (Bool-cases (is_space c)) [
  | inl e ↦ rw e (trim_left-IsTrimmedLeft cs)
  | inr e ↦ rw e e
]

trim_right-IsTrimmedLeft : (t : Text) → IsTrimmedLeft t → IsTrimmedLeft (trim_right t)
unfolding trim_right
trim_right-IsTrimmedLeft [] h = tt
trim_right-IsTrimmedLeft (c ∷ cs) h = before (trim_right cs)
  where
    before : (t : Text) → IsTrimmedLeft (before_trimmed c t)
    before [] = rw h h
    before (d ∷ ds) = h

trim_left_same : (t : Text) → IsTrimmedLeft t → trim_left t ≡ t
unfolding trim_left
trim_left_same [] h = refl
trim_left_same (c ∷ cs) h = rw h refl

pub trim_space_twice : (t : Text) → trim_space (trim_space t) ≡ trim_space t
unfolding trim_space
trim_space_twice t =
    ap trim_right (
      trim_left_same (trim_right (trim_left t))
        (trim_right-IsTrimmedLeft (trim_left t) (trim_left-IsTrimmedLeft t)))
    ∙ trim_right_twice (trim_left t)

base64-IsOneLine :
    (k : Text)
    → any (λ c. not (is_base64 c)) (without_last k) ≡ false
    → ends_with b'=' k ≡ true
    → IsOneLine k
unfolding without_last ends_with has_char
base64-IsOneLine [] h e = refl
base64-IsOneLine (c ∷ []) h e = ground arith
base64-IsOneLine (c ∷ d ∷ ds) h e = ground (arith, base64-IsOneLine (d ∷ ds))

key_shape-IsOneLine : (k : Text) → key_shape k ≡ true → IsOneLine k
unfolding key_shape has_char
key_shape-IsOneLine k h = elim (Bool-cases (ends_with b'=' k)) [
  | inr e ↦ absurd (ground (arith, e))
  | inl e ↦ base64-IsOneLine k (ground (arith, e)) e
]

pub valid_public_key-IsOneLine :
    (t : Text) → valid_public_key (trim_space t) ≡ true → IsOneLine (trim_space t)
unfolding valid_public_key
valid_public_key-IsOneLine t h =
    key_shape-IsOneLine (trim_space t) (subst (λ k. key_shape k ≡ true) (trim_space_twice t) h)

pub has_control_char-IsOneLine : (s : Text) → has_control_char s ≡ false → IsOneLine s
unfolding has_control_char has_char
has_control_char-IsOneLine [] h = refl
has_control_char-IsOneLine (c ∷ cs) h = ground (arith, has_control_char-IsOneLine cs)
