-- ===== src/Tests/Addresses.antt =====
-- The pool 10.8.0.0/29 and lists of tunnel prefixes.
use wgroster.Prelude.{◌≡◌, refl, inl, true, none, some, List, [], ◌∷◌, Text, arith, ◌↔◌}
use wgroster.Netip.{v4, v6, Addr, Prefix, contains, overlaps, block_of, next, IsPrefix}
use wgroster.Netip.Prefixes.{IsMasked}
use wgroster.Ipam.{
  Pool, validate, next_free, parse_all, search, broadcast, search_from, validate_parsed,
}
use wgroster.Ipam.Search.{Lowest, search-Lowest}
use wgroster.Ipam.Validate.{next_free-validate, validate_iff, validate_other_spelling, IsAccepted}
use wgroster.Wg.AllowedIps.{overlap}
use wgroster.Wg.Overlaps.{overlaps_iff, overlap-none, Covers}
use wgroster.Tests.Numbers.{numbers}

abbrev pub pool : Pool
pool = record { prefix = record { addr = record { family = v4; value = 168296448 }; bits = 29 } }

-- 10.8.0.1 and 10.8.0.2 are in use.
abbrev used : List Text
used = (4 ∷ 168296449 ∷ []) ∷ (4 ∷ 168296450 ∷ []) ∷ []

pub pool-IsMasked : IsMasked pool.prefix
unfolding block_of
pool-IsMasked = refl

next_free_test : next_free numbers pool used ≡ some (4 ∷ 168296451 ∷ [])
unfolding next_free search_from next contains block_of broadcast parse_all
next_free_test = refl

next_free-validate_example : validate numbers pool (4 ∷ 168296451 ∷ []) used ≡ none
next_free-validate_example =
    next_free-validate numbers pool used (4 ∷ 168296451 ∷ []) pool-IsMasked next_free_test

search-Lowest_example : Lowest pool (parse_all numbers used) (search numbers pool used)
search-Lowest_example = search-Lowest numbers pool used pool-IsMasked

validate_iff_example :
    (validate numbers pool (4 ∷ 168296451 ∷ []) used ≡ none)
    ↔ ((a : Addr) × IsAccepted numbers pool (4 ∷ 168296451 ∷ []) used a)
validate_iff_example = validate_iff numbers pool (4 ∷ 168296451 ∷ []) used

abbrev pool6 : Pool
pool6 = record { prefix = record { addr = record { family = v6; value = 0 }; bits = 126 } }

valid6 : validate numbers pool6 (6 ∷ 2 ∷ []) [] ≡ none
unfolding validate contains block_of broadcast validate_parsed
valid6 = refl

-- Two spellings of the address 2: the test format reads any family code but 4 as IPv6.
validate_other_spelling_example : validate numbers pool6 (6 ∷ 2 ∷ []) ((7 ∷ 2 ∷ []) ∷ []) ≡ none
validate_other_spelling_example =
    validate_other_spelling numbers pool6 (7 ∷ 2 ∷ []) (6 ∷ 2 ∷ []) [] valid6 (λ e. ground arith)

-- 10.0.0.0/8, 10.1.0.0/16 and 192.168.0.0/16.
abbrev ten : Prefix
ten = record { addr = record { family = v4; value = 167772160 }; bits = 8 }

abbrev ten_one : Prefix
ten_one = record { addr = record { family = v4; value = 167837696 }; bits = 16 }

abbrev home : Prefix
home = record { addr = record { family = v4; value = 3232235520 }; bits = 16 }

ten-IsPrefix : IsPrefix ten
ten-IsPrefix = (omega arith, omega arith)

ten_one-IsPrefix : IsPrefix ten_one
ten_one-IsPrefix = (omega arith, omega arith)

home-IsPrefix : IsPrefix home
home-IsPrefix = (omega arith, omega arith)

overlaps_iff_example :
    (overlaps ten ten_one ≡ true)
    ↔ ((a : Addr) × (contains ten a ≡ true) × (contains ten_one a ≡ true))
overlaps_iff_example = overlaps_iff ten ten_one ten-IsPrefix ten_one-IsPrefix

overlap_test : overlap (home ∷ ten ∷ []) (ten_one ∷ []) ≡ some (ten, ten_one)
unfolding overlap overlaps block_of
overlap_test = refl

apart_test : overlap (home ∷ []) (ten ∷ ten_one ∷ []) ≡ none
unfolding overlap overlaps block_of
apart_test = refl

abbrev home_host : Addr
home_host = record { family = v4; value = 3232235521 }

home-Covers : Covers (home ∷ []) home_host
unfolding contains block_of
home-Covers = (home, inl refl, refl)

overlap-none_example : ¬ Covers (ten ∷ ten_one ∷ []) home_host
overlap-none_example =
    overlap-none (home ∷ []) (ten ∷ ten_one ∷ []) (home-IsPrefix, tt)
      (ten-IsPrefix, (ten_one-IsPrefix, tt)) apart_test home_host home-Covers
