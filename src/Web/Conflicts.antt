-- ===== src/Web/Conflicts.antt =====
-- internal/web/admin_handlers.go: the check that the endpoints of one machine do not claim a common
-- address. The text of the answer is its parts; a failed read of the database is not modelled.
mod Prefixes
pub mod Separate
use wgroster.Prelude.{
  ℕ, Bool, ◌&&◌, Option, none, some, List, [], ◌∷◌, ◌++◌, Text, ltb, ◌==◌, if◌then◌else◌, length,
  first,
}
use wgroster.Netip.{Prefix, Netip}
use wgroster.Wg.AllowedIps.{allowed_ips_or, overlap}
use wgroster.Store.Models.{Endpoint}
use wgroster.Store.Db.{Db}
use wgroster.Store.Endpoints.{endpoint_has_id}

-- parsed.
pub record Parsed : Type 0 where
  pub name : Text
  pub allowed : List Prefix

-- The two endpoints that overlap, with the prefixes that do.
pub record Conflict : Type 0 where
  pub first_name : Text
  pub first_prefix : Prefix
  pub second_name : Text
  pub second_prefix : Prefix

-- The inner of the two loops over pairs.
unfoldable pub conflict_with : Parsed → List Parsed → Option Conflict
conflict_with x [] = none
conflict_with x (y ∷ ys) =
    let rest = conflict_with x ys in
    elim (overlap x.allowed y.allowed) [
      | some (a, b) ↦ some (record {
        first_name = x.name;
        first_prefix = a;
        second_name = y.name;
        second_prefix = b;
      })
      | none ↦ rest
    ]

unfoldable pub first_conflict : List Parsed → Option Conflict
unfolding conflict_with
first_conflict [] = none
first_conflict (x ∷ xs) =
    let rest = first_conflict xs in elim (conflict_with x xs) [ some c ↦ some c | none ↦ rest ]

-- An endpoint whose stored list does not parse is passed over.
parsed_of : Endpoint → Option (List Prefix) → List Parsed
parsed_of e none = []
parsed_of e (some ps) = record { name = e.name; allowed = ps } ∷ []

overridden : Option Endpoint → Endpoint → Endpoint
overridden none e = e
overridden (some o) e = if o.id == e.id then o else e

module _ (netip : Netip) where
  parsed_endpoint : Option Endpoint → Option Endpoint → List Parsed
  unfolding parsed_of overridden
  parsed_endpoint override none = []
  parsed_endpoint override (some e) =
      parsed_of (overridden override e) (allowed_ips_or netip (overridden override e).allowed_ips)

  -- The first loop of conflictAmong.
  unfoldable pub parsed_endpoints : List ℕ → Option Endpoint → Db → List Parsed
  unfolding parsed_endpoint
  parsed_endpoints [] override db = []
  parsed_endpoints (id ∷ ids) override db =
      parsed_endpoint override (first (endpoint_has_id id) db.endpoints)
      ++ parsed_endpoints ids override db

  -- conflictAmong; none is the empty text.
  unfoldable pub conflict_among : List ℕ → Option Endpoint → Db → Option Conflict
  unfolding first_conflict
  conflict_among ids override db =
      if ltb (length ids) 2 then none else first_conflict (parsed_endpoints ids override db)
