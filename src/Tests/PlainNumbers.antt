-- ===== src/Tests/PlainNumbers.antt =====
-- Addresses written without line breaks.
use wgroster.Prelude.{
  ◌+◌, ◌-◌, ◌≡◌, refl, true, ◌&&◌, ◌||◌, Option, none, some, [], ◌∷◌, Text, leb, inl, inr,
  Bool-cases, ◌==◌, if◌then◌else◌, arith,
}
use wgroster.Netip.{Family, v4, v6, Addr, Netip, IsAddr}
use wgroster.Strings.{has_char}
use wgroster.Web.Routes.Users.{ParsesOneLine}
use wgroster.Tests.Numbers.{
  family_code, family_of, family_of-code, addr_if, addr_if-IsAddr, addr_if-some, parse_prefix,
  parse_prefix-IsPrefix,
}

-- A textual form without line breaks: the family as 4 or 6, and the value above 20.
abbrev parse_above : Text → Option Addr
parse_above (f ∷ v ∷ []) =
    if leb 20 v && (f == 4 || f == 6)
    then addr_if (record { family = family_of f; value = v - 20 })
    else none
parse_above _ = none

abbrev show_above : Addr → Text
show_above a = family_code a.family ∷ (a.value + 20) ∷ []

pub parse_above-IsAddr : (t : Text) (a : Addr) → parse_above t ≡ some a → IsAddr a
parse_above-IsAddr [] a h = absurd (ground arith)
parse_above-IsAddr (f ∷ []) a h = absurd (ground arith)
parse_above-IsAddr (f ∷ v ∷ []) a h = elim (Bool-cases (leb 20 v && (f == 4 || f == 6))) [
  | inl e ↦ addr_if-IsAddr (record { family = family_of f; value = v - 20 }) a (rw e at h)
  | inr e ↦ absurd (ground (arith, e))
]
parse_above-IsAddr (f ∷ v ∷ w ∷ t) a h = absurd (ground arith)

known_code : (f : Family) → (family_code f == 4 || family_code f == 6) ≡ true
known_code v4 = refl
known_code v6 = refl

pub parse-show_above : (a : Addr) → IsAddr a → parse_above (show_above a) ≡ some a
parse-show_above a h =
    let low : leb 20 (a.value + 20) ≡ true = ground arith in
    let back : a.value + 20 - 20 ≡ a.value = omega arith in
    rw (low, known_code a.family, family_of-code a.family, back) (addr_if-some a h)

abbrev pub plain_numbers : Netip
plain_numbers = record {
  parse_addr = parse_above;
  parse_prefix = parse_prefix;
  show_addr = show_above;
  parse-show = parse-show_above;
  parse_addr-IsAddr = parse_above-IsAddr;
  parse_prefix-IsPrefix = parse_prefix-IsPrefix;
}

pub plain_numbers-ParsesOneLine : ParsesOneLine plain_numbers
unfolding has_char
plain_numbers-ParsesOneLine [] a h = absurd (ground arith)
plain_numbers-ParsesOneLine (f ∷ []) a h = absurd (ground arith)
plain_numbers-ParsesOneLine (f ∷ v ∷ []) a h = ground arith
plain_numbers-ParsesOneLine (f ∷ v ∷ w ∷ t) a h = absurd (ground arith)
