-- ===== src/Netip.antt =====
-- The part of Go's net/netip that internal/ipam and internal/wg call: addresses and prefixes as
-- numbers with a family, without IPv6 zones. The textual forms are a parameter of the model (Netip).
pub mod Prefixes
use wgroster.Prelude.{
  ℕ, ◌+◌, ◌-◌, ◌/◌, ◌%◌, ◌^◌, ◌<◌, ◌≤◌, min, ◌≡◌, Bool, true, false, Option, none, some, Text, ltb,
  ◌==◌, if◌then◌else◌,
}

pub data Family : Type 0 where
  v4 v6 : Family

abbrev pub family_eq : Family → Family → Bool
family_eq v4 v4 = true
family_eq v4 v6 = false
family_eq v6 v4 = false
family_eq v6 v6 = true

-- netip.Addr; the zero (invalid) Addr is `none` where the source can meet it.
pub record Addr : Type 0 where
  pub family : Family
  pub value : ℕ

-- Addr.BitLen.
abbrev pub bit_len : Family → ℕ
bit_len v4 = 32
bit_len v6 = 128

abbrev pub addr_eq : Addr → Addr → Bool
addr_eq a b = if family_eq a.family b.family then a.value == b.value else false

pub record Prefix : Type 0 where
  pub addr : Addr
  pub bits : ℕ

abbrev pub IsAddr : Addr → Type 0
IsAddr a = a.value < 2 ^ bit_len a.family

abbrev pub IsPrefix : Prefix → Type 0
IsPrefix p = IsAddr p.addr × (p.bits ≤ bit_len p.addr.family)

-- How many addresses share the first `bits` bits.
unfoldable pub block_of : Family → ℕ → ℕ
block_of f bits = 2 ^ (bit_len f - bits)

abbrev pub block : Prefix → ℕ
block p = block_of p.addr.family p.bits

-- Addr.Next: none past the last address.
unfoldable pub next : Addr → Option Addr
next a =
    if ltb (a.value + 1) (2 ^ bit_len a.family)
    then some (record a { value = a.value + 1 })
    else none

-- Prefix.Contains.
unfoldable pub contains : Prefix → Addr → Bool
contains p a =
    if family_eq p.addr.family a.family then a.value / block p == p.addr.value / block p else false

-- Prefix.Masked: the host bits are cleared.
unfoldable pub masked : Prefix → Prefix
masked p = record p { addr = record (p.addr) { value = p.addr.value - p.addr.value % block p } }

-- Whether two numbers agree above the low part of the given size.
abbrev pub same_start : ℕ → ℕ → ℕ → Bool
same_start a b size = a / size == b / size

-- Prefix.Overlaps: the first bits that both prefixes fix are the same.
unfoldable pub overlaps : Prefix → Prefix → Bool
overlaps p q =
    if family_eq p.addr.family q.addr.family
    then same_start p.addr.value q.addr.value (block_of p.addr.family (min p.bits q.bits))
    else false

-- ParseAddr, ParsePrefix and Addr.String: the printed form of an address parses to it, and what
-- parses is an address or a prefix.
pub record Netip : Type 0 where
  pub parse_addr : Text → Option Addr
  pub parse_prefix : Text → Option Prefix
  pub show_addr : Addr → Text
  pub parse-show : (a : Addr) → IsAddr a → parse_addr (show_addr a) ≡ some a
  pub parse_addr-IsAddr : (t : Text) (a : Addr) → parse_addr t ≡ some a → IsAddr a
  pub parse_prefix-IsPrefix : (t : Text) (p : Prefix) → parse_prefix t ≡ some p → IsPrefix p
