-- ===== src/Ipam.antt =====
-- internal/ipam/ipam.go: the client address pool, its validation of a chosen address and its search
-- for the lowest free one.
pub mod Broadcast
pub mod Search
pub mod Validate
use Prim.Native.Nat.{bit_or}
use mathlib.Core.Option
use wgroster.Prelude.{
  ℕ, zero, suc, ◌+◌, ◌-◌, ◌%◌, ◌^◌, Bool, true, false, Option, none, some, List, [], ◌∷◌, Text,
  text_eq, leb, any, not, if◌then◌else◌,
}
use wgroster.Netip.{Family, v4, v6, Addr, Prefix, Netip, addr_eq, block, contains, masked, next}

pub record Pool : Type 0 where
  pub prefix : Prefix

-- The reasons for which Validate refuses an address.
pub data Refusal : Type 0 where
  invalid_address outside_range network_address broadcast_address already_assigned : Refusal

-- The uint32 that broadcast computes from the four bytes of the masked address.
unfoldable pub broadcast_value : ℕ → ℕ → ℕ
broadcast_value v bits = bit_or v ((2 ^ (32 - bits) % 2 ^ 32 + 2 ^ 32 - 1) % 2 ^ 32)

broadcast4 : Addr → ℕ → Option Addr
unfolding broadcast_value
broadcast4 a bits =
    if leb 31 bits
    then none
    else some (record { family = v4; value = broadcast_value a.value bits })

broadcast_by : Family → Prefix → Option Addr
unfolding broadcast4 masked
broadcast_by v4 p = broadcast4 ((masked p).addr) p.bits
broadcast_by v6 p = none

-- none stands for the invalid zero Addr.
unfoldable pub broadcast : Pool → Option Addr
unfolding broadcast_by
broadcast pool = broadcast_by pool.prefix.addr.family pool.prefix

-- `bc.IsValid() && a == bc`, and `a == bc` for a valid a.
abbrev pub equals_option : Addr → Option Addr → Bool
equals_option a none = false
equals_option a (some b) = addr_eq a b

-- What the search of NextFree ends with.
pub data Found : Type 0 where
  free : Addr → Found
  exhausted : Found
  out_of_fuel : Found

abbrev pub is_taken : List Addr → Addr → Bool
is_taken taken a = any (λ b. addr_eq a b) taken

-- The loop of NextFree. An invalid address is in no prefix.
unfoldable pub search_from : ℕ → Prefix → Option Addr → List Addr → Option Addr → Found
search_from zero p bc taken a = out_of_fuel
search_from (suc f) p bc taken none = exhausted
search_from (suc f) p bc taken (some a) =
    let rest = search_from f p bc taken (next a) in
    if not (contains p a)
    then exhausted
    else if equals_option a bc
    then exhausted
    else if not (is_taken taken a)
    then free a
    else rest

module _ (netip : Netip) where
  open netip use {parse_addr, parse_prefix, show_addr}

  -- New.
  unfoldable pub new : Text → Option Pool
  new cidr = Option.map (λ p. record { prefix = masked p }) (parse_prefix cidr)

  -- Pool.Contains.
  unfoldable pub pool_contains : Pool → Text → Bool
  pool_contains pool addr = elim (parse_addr addr) [
    | none ↦ false
    | some a ↦ contains pool.prefix a
  ]

  check_used : Text → List Text → Option Refusal
  check_used addr used = if any (λ u. text_eq u addr) used then some already_assigned else none

  -- The checks of Validate on an address that parsed.
  unfoldable pub validate_parsed : Pool → Text → Addr → List Text → Option Refusal
  unfolding check_used
  validate_parsed pool addr a used =
      if not (contains pool.prefix a)
      then some outside_range
      else if addr_eq a pool.prefix.addr
      then some network_address
      else if equals_option a (broadcast pool)
      then some broadcast_address
      else check_used addr used

  -- Pool.Validate; none is the nil error.
  unfoldable pub validate : Pool → Text → List Text → Option Refusal
  validate pool addr used = elim (parse_addr addr) [
    | none ↦ some invalid_address
    | some a ↦ validate_parsed pool addr a used
  ]

  -- The addresses of the used list that parse.
  unfoldable pub parse_all : List Text → List Addr
  parse_all [] = []
  parse_all (u ∷ us) = elim (parse_addr u) [ none ↦ parse_all us | some a ↦ a ∷ parse_all us ]

  -- Fuel for every address of the pool and one more round.
  unfoldable pub search : Pool → List Text → Found
  search pool used =
      search_from (suc (block pool.prefix)) pool.prefix (broadcast pool) (parse_all used)
        (next pool.prefix.addr)

  found_text : Found → Option Text
  found_text (free a) = some (show_addr a)
  found_text exhausted = none
  found_text out_of_fuel = none

  -- Pool.NextFree; none is the error that no address is left.
  unfoldable pub next_free : Pool → List Text → Option Text
  unfolding found_text search
  next_free pool used = found_text (search pool used)
