-- ===== src/Web/Conflicts/Prefixes.antt =====
-- The lists of allowed addresses that conflictAmong of internal/web/admin_handlers.go parses have
-- prefixes in range.
use mathlib.Core.Option
use wgroster.Prelude.{
  ℕ, ◌≡◌, refl, subst, inl, inr, Option, none, some, List, [], ◌∷◌, ◌++◌, Text, text_eq, first, All,
  arith, Bool-cases, Option-cases,
}
use wgroster.Strings.{trim_space, split, has_char}
use wgroster.Netip.{Prefix, Netip, IsPrefix, masked}
use wgroster.Wg.AllowedIps.{host_route, parse_part, parse_parts, parse_allowed_ips, allowed_ips_or}
use wgroster.Store.Models.{Endpoint}
use wgroster.Store.Db.{Db}
use wgroster.Store.Endpoints.{endpoint_has_id}
use wgroster.Web.Conflicts.{Parsed, parsed_of, overridden, parsed_endpoint, parsed_endpoints}

abbrev pub ArePrefixes : Option (List Prefix) → Type 0
ArePrefixes none = Unit
ArePrefixes (some ps) = All IsPrefix ps

masked-IsPrefix : (p : Prefix) → IsPrefix p → IsPrefix (masked p)
unfolding masked
masked-IsPrefix p h = (omega (arith, h.0), h.1)

mapped-IsPrefix :
    {A : Type 0} (f : A → Prefix) (o : Option A)
    → ((a : A) → o ≡ some a → IsPrefix (f a))
    → (p : Prefix) → Option.map f o ≡ some p
    → IsPrefix p
mapped-IsPrefix f none k p h = absurd (ground arith)
mapped-IsPrefix f (some a) k p h = subst IsPrefix (cc) (k a refl)

module _ (netip : Netip) where
  part-IsPrefix : (part : Text) (p : Prefix) → parse_part netip part ≡ some p → IsPrefix p
  unfolding parse_part
  part-IsPrefix part p h = elim (Bool-cases (has_char b'/' part)) [
    | inl e ↦
        mapped-IsPrefix masked (netip.parse_prefix part)
          (λ q k. masked-IsPrefix q (netip.parse_prefix-IsPrefix part q k)) p (rw e at h)
    | inr e ↦
        mapped-IsPrefix host_route (netip.parse_addr part)
          (λ a k. (netip.parse_addr-IsAddr part a k, omega arith)) p (rw e at h)
  ]

  added :
      (p : Prefix) (o : Option (List Prefix))
      → IsPrefix p
      → ArePrefixes o
      → ArePrefixes (Option.map (λ ps. p ∷ ps) o)
  added p none h k = tt
  added p (some ps) h k = (h, k)

  part_added :
      (part : Text) (o : Option (List Prefix))
      → ArePrefixes o
      → ArePrefixes
          (elim (parse_part netip part) [ none ↦ none | some p ↦ Option.map (λ ps. p ∷ ps) o ])
  part_added part o k = elim (Option-cases (parse_part netip part)) [
    | inl e ↦ rw e tt
    | inr (p, e) ↦ rw e (added p o (part-IsPrefix part p e) k)
  ]

  parts-ArePrefixes : (parts : List Text) → ArePrefixes (parse_parts netip parts)
  unfolding parse_parts
  parts-ArePrefixes [] = tt
  parts-ArePrefixes (raw ∷ rest) = elim (Bool-cases (text_eq (trim_space raw) [])) [
    | inl e ↦ rw e (parts-ArePrefixes rest)
    | inr e ↦ rw e (part_added (trim_space raw) (parse_parts netip rest) (parts-ArePrefixes rest))
  ]

  allowed-ArePrefixes : (t : Text) → ArePrefixes (allowed_ips_or netip t)
  unfolding allowed_ips_or parse_allowed_ips
  allowed-ArePrefixes t = elim (Bool-cases (text_eq (trim_space t) [])) [
    | inl e ↦ rw e (parts-ArePrefixes _)
    | inr e ↦ rw e (parts-ArePrefixes (split b',' t))
  ]

  parsed_of-All :
      (e : Endpoint) (o : Option (List Prefix)) (rest : List Parsed)
      → ArePrefixes o
      → All (λ (y : Parsed). All IsPrefix y.allowed) rest
      → All (λ (y : Parsed). All IsPrefix y.allowed) (parsed_of e o ++ rest)
  unfolding parsed_of
  parsed_of-All e none rest k w = w
  parsed_of-All e (some ps) rest k w = (k, w)

  endpoint-All :
      (override found : Option Endpoint) (rest : List Parsed)
      → All (λ (y : Parsed). All IsPrefix y.allowed) rest
      → All (λ (y : Parsed). All IsPrefix y.allowed) (parsed_endpoint netip override found ++ rest)
  unfolding parsed_endpoint
  endpoint-All override none rest w = w
  endpoint-All override (some e) rest w =
      parsed_of-All (overridden override e) _ rest
        (allowed-ArePrefixes (overridden override e).allowed_ips) w

  pub parsed_endpoints-ArePrefixes :
      (ids : List ℕ) (override : Option Endpoint) (db : Db)
      → All (λ (y : Parsed). All IsPrefix y.allowed) (parsed_endpoints netip ids override db)
  unfolding parsed_endpoints
  parsed_endpoints-ArePrefixes [] override db = tt
  parsed_endpoints-ArePrefixes (id ∷ ids) override db =
      endpoint-All override (first (endpoint_has_id id) db.endpoints) _
        (parsed_endpoints-ArePrefixes ids override db)
