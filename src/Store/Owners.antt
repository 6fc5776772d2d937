-- ===== src/Store/Owners.antt =====
-- internal/store/owners.go: the state of the offboarding check, one row for each machine owner.
use wgroster.Prelude.{
  ℕ, ◌+◌, Bool, not, Option, none, some, List, [], ◌∷◌, map, Text, text_eq, text_lt, ◌==◌,
  if◌then◌else◌, length, select, update, delete, first, any, sort_by,
}
use wgroster.Store.Models.{Machine}
use wgroster.Store.Db.{Db, OwnerCheck}

-- OwnerCheck.Orphaned.
abbrev pub is_orphaned : OwnerCheck → Bool
is_orphaned c = not (c.flagged_at == 0)

abbrev pub check_of : Text → OwnerCheck → Bool
check_of uid c = text_eq c.uid uid

-- SELECT DISTINCT keeps one of equal texts.
unfoldable pub distinct_texts : List Text → List Text
distinct_texts [] = []
distinct_texts (t ∷ ts) =
    let rest = distinct_texts ts in if any (λ u. text_eq u t) rest then rest else t ∷ rest

-- MachineOwnerUIDs.
unfoldable pub machine_owner_uids : Db → List Text
unfolding distinct_texts
machine_owner_uids db = sort_by text_lt (
    distinct_texts
      (select (λ u. not (text_eq u [])) (map (λ (m : Machine). m.owner_uid) db.machines)))

-- OwnerChecks: the map from uid to its recorded check.
unfoldable pub owner_check_in : List OwnerCheck → Text → Option OwnerCheck
owner_check_in checks uid = first (check_of uid) checks

-- OwnerCheck: a zero value when there is no row.
unfoldable pub owner_check : Text → Db → OwnerCheck
owner_check uid db = elim (first (check_of uid) db.owner_checks) [
  | none ↦ record { uid = uid; misses = 0; absent_since = 0; flagged_at = 0; checked_at = 0 }
  | some c ↦ c
]

-- INSERT … ON CONFLICT(uid) DO UPDATE.
abbrev pub upsert_check : OwnerCheck → (OwnerCheck → OwnerCheck) → List OwnerCheck → List OwnerCheck
upsert_check c g [] = c ∷ []
upsert_check c g (d ∷ ds) = if text_eq d.uid c.uid then g d ∷ ds else d ∷ upsert_check c g ds

-- MarkOwnerPresent.
unfoldable pub mark_owner_present : Text → ℕ → Db → Db
mark_owner_present uid now db = record db {
  owner_checks =
      upsert_check
        (record { uid = uid; misses = 0; absent_since = 0; flagged_at = 0; checked_at = now })
        (λ d. record d { misses = 0; absent_since = 0; flagged_at = 0; checked_at = now })
        db.owner_checks;
}

-- The DO UPDATE of MarkOwnerAbsent: the first absence of the run is kept.
abbrev pub one_more_miss : ℕ → OwnerCheck → OwnerCheck
one_more_miss now d = record d {
  misses = d.misses + 1;
  absent_since = if d.absent_since == 0 then now else d.absent_since;
  checked_at = now;
}

absent_checks : Text → ℕ → List OwnerCheck → List OwnerCheck
absent_checks uid now checks =
    upsert_check
      (record { uid = uid; misses = 1; absent_since = now; flagged_at = 0; checked_at = now })
      (one_more_miss now) checks

-- MarkOwnerAbsent: the updated check, and the database.
unfoldable pub mark_owner_absent : Text → ℕ → Db → OwnerCheck × Db
unfolding absent_checks owner_check
mark_owner_absent uid now db =
    let db' = record db { owner_checks = absent_checks uid now db.owner_checks } in
    (owner_check uid db', db')

-- FlagOwnerOrphaned.
unfoldable pub flag_owner_orphaned : Text → ℕ → Db → Db
flag_owner_orphaned uid now db = record db {
  owner_checks =
      update (check_of uid) (λ (c : OwnerCheck). record c { flagged_at = now }) db.owner_checks;
}

-- PruneOwnerChecks: how many rows were removed, and the database after.
unfoldable pub prune_owner_checks : Db → ℕ × Db
prune_owner_checks db =
    let stale =
      λ (c : OwnerCheck). not (any (λ (m : Machine). text_eq m.owner_uid c.uid) db.machines) in
    (
      length (select stale db.owner_checks),
      record db { owner_checks = delete stale db.owner_checks },
    )
