-- ===== src/Tests/Numbers.antt =====
-- A textual form of addresses for the tests: the family as 4 or 6, the value, and the prefix length,
-- each as one code point.
use wgroster.Prelude.{
  ℕ, ◌^◌, ◌≡◌, refl, Option, none, some, [], ◌∷◌, Text, ltb, leb, ◌==◌, if◌then◌else◌, arith,
}
use wgroster.Netip.{Family, v4, v6, Addr, Prefix, Netip, IsAddr, IsPrefix, bit_len}

abbrev pub family_code : Family → ℕ
family_code v4 = 4
family_code v6 = 6

abbrev pub family_of : ℕ → Family
family_of n = if n == 4 then v4 else v6

abbrev pub addr_if : Addr → Option Addr
addr_if a = if ltb a.value (2 ^ bit_len a.family) then some a else none

abbrev pub parse_addr : Text → Option Addr
parse_addr (f ∷ v ∷ []) = addr_if (record { family = family_of f; value = v })
parse_addr _ = none

abbrev pub prefix_if : Prefix → Option Prefix
prefix_if p =
    if ltb p.addr.value (2 ^ bit_len p.addr.family)
    then (if leb p.bits (bit_len p.addr.family) then some p else none)
    else none

abbrev pub parse_prefix : Text → Option Prefix
parse_prefix (f ∷ v ∷ b ∷ []) =
    prefix_if (record { addr = record { family = family_of f; value = v }; bits = b })
parse_prefix _ = none

abbrev pub show_addr : Addr → Text
show_addr a = family_code a.family ∷ a.value ∷ []

pub family_of-code : (f : Family) → family_of (family_code f) ≡ f
family_of-code v4 = refl
family_of-code v6 = refl

pub addr_if-IsAddr : (b a : Addr) → addr_if b ≡ some a → IsAddr a
addr_if-IsAddr b a h = ground arith

pub addr_if-some : (a : Addr) → IsAddr a → addr_if a ≡ some a
addr_if-some a h = ground arith

pub prefix_if-IsPrefix : (q p : Prefix) → prefix_if q ≡ some p → IsPrefix p
prefix_if-IsPrefix q p h = ground arith

pub parse_addr-IsAddr : (t : Text) (a : Addr) → parse_addr t ≡ some a → IsAddr a
parse_addr-IsAddr [] a h = absurd (ground arith)
parse_addr-IsAddr (f ∷ []) a h = absurd (ground arith)
parse_addr-IsAddr (f ∷ v ∷ []) a h = addr_if-IsAddr _ a h
parse_addr-IsAddr (f ∷ v ∷ w ∷ t) a h = absurd (ground arith)

pub parse_prefix-IsPrefix : (t : Text) (p : Prefix) → parse_prefix t ≡ some p → IsPrefix p
parse_prefix-IsPrefix [] a h = absurd (ground arith)
parse_prefix-IsPrefix (f ∷ []) a h = absurd (ground arith)
parse_prefix-IsPrefix (f ∷ v ∷ []) a h = absurd (ground arith)
parse_prefix-IsPrefix (f ∷ v ∷ b ∷ []) p h =
    prefix_if-IsPrefix (record { addr = record { family = family_of f; value = v }; bits = b }) p h
parse_prefix-IsPrefix (f ∷ v ∷ b ∷ w ∷ t) a h = absurd (ground arith)

abbrev pub numbers : Netip
numbers = record {
  parse_addr = parse_addr;
  parse_prefix = parse_prefix;
  show_addr = show_addr;
  parse-show = λ a h. rw (family_of-code a.family) (addr_if-some a h);
  parse_addr-IsAddr = parse_addr-IsAddr;
  parse_prefix-IsPrefix = parse_prefix-IsPrefix;
}
