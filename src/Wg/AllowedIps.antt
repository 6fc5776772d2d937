-- ===== src/Wg/AllowedIps.antt =====
-- internal/wg/allowed.go.
use mathlib.Core.Option
use wgroster.Prelude.{Option, none, some, List, [], ◌∷◌, Text, txt, text_eq, if◌then◌else◌}
use wgroster.Strings.{split, trim_space, has_char}
use wgroster.Netip.{Addr, Prefix, Netip, bit_len, masked, overlaps}

abbrev pub default_allowed_ips : Text
default_allowed_ips = txt "0.0.0.0/0"

-- netip.PrefixFrom(addr, addr.BitLen()).
abbrev pub host_route : Addr → Prefix
host_route a = record { addr = a; bits = bit_len a.family }

module _ (netip : Netip) where
  -- One part of the list, trimmed and not empty; none is the error.
  unfoldable pub parse_part : Text → Option Prefix
  parse_part part =
      if has_char b'/' part
      then Option.map masked (netip.parse_prefix part)
      else Option.map host_route (netip.parse_addr part)

  -- The loop over the parts.
  unfoldable pub parse_parts : List Text → Option (List Prefix)
  unfolding parse_part
  parse_parts [] = some []
  parse_parts (raw ∷ rest) =
      let part = trim_space raw in
      let others = parse_parts rest in
      if text_eq part []
      then others
      else elim (parse_part part) [ none ↦ none | some p ↦ Option.map (λ ps. p ∷ ps) others ]

  -- ParseAllowedIPs.
  unfoldable pub parse_allowed_ips : Text → Option (List Prefix)
  unfolding parse_parts
  parse_allowed_ips list = parse_parts (split b',' list)

  -- AllowedIPsOr.
  unfoldable pub allowed_ips_or : Text → Option (List Prefix)
  unfolding parse_allowed_ips
  allowed_ips_or list =
      if text_eq (trim_space list) []
      then parse_allowed_ips default_allowed_ips
      else parse_allowed_ips list

-- The inner loop of Overlap: the first prefix of the list that overlaps x.
unfoldable pub overlap_with : Prefix → List Prefix → Option Prefix
overlap_with x [] = none
overlap_with x (y ∷ ys) = if overlaps x y then some y else overlap_with x ys

-- Overlap.
unfoldable pub overlap : List Prefix → List Prefix → Option (Prefix × Prefix)
unfolding overlap_with
overlap [] ys = none
overlap (x ∷ xs) ys =
    let rest = overlap xs ys in elim (overlap_with x ys) [ some y ↦ some (x, y) | none ↦ rest ]
