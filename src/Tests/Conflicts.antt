-- ===== src/Tests/Conflicts.antt =====
-- Two endpoints that route one address each.
use wgroster.Prelude.{◌≡◌, refl, none, some, [], ◌∷◌, txt, text_discrete, Apart}
use wgroster.Strings.{is_space, split, trim_space, has_char}
use wgroster.Netip.{Addr, overlaps, block_of, masked}
use wgroster.Wg.AllowedIps.{allowed_ips_or, overlap}
use wgroster.Store.Models.{Endpoint}
use wgroster.Store.Db.{Db}
use wgroster.Web.Conflicts.{conflict_among, parsed_endpoints}
use wgroster.Web.Conflicts.Separate.{Routes, conflict_among-none}
use wgroster.Tests.Numbers.{numbers}
use wgroster.Tests.Tables.{roster, gate}

-- The bare addresses 1000 and 2000 in the test format.
abbrev two_gates : Db
two_gates = record roster {
  endpoints =
      record gate { allowed_ips = 4 ∷ 1000 ∷ [] }
      ∷ record gate {
        id = 2;
        name = txt "edge";
        public_key = txt "E2";
        allowed_ips = 4 ∷ 2000 ∷ [];
      }
      ∷ [];
}

-- The second one edited to the address 3000.
abbrev edited : Endpoint
edited = record gate {
  id = 2;
  name = txt "edge";
  public_key = txt "E2";
  allowed_ips = 4 ∷ 3000 ∷ [];
}

no_conflict : conflict_among numbers (1 ∷ 2 ∷ []) (some edited) two_gates ≡ none
unfolding conflict_among parsed_endpoints allowed_ips_or overlap overlaps block_of trim_space split
    has_char text_discrete masked is_space
no_conflict = refl

conflict_among-none_example :
    Apart
      (λ i j.
        (a : Addr) × Routes numbers (some edited) two_gates a i
        × Routes numbers (some edited) two_gates a j)
      (1 ∷ 2 ∷ [])
conflict_among-none_example =
    conflict_among-none numbers (1 ∷ 2 ∷ []) (some edited) two_gates no_conflict
