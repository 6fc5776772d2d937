-- ===== src/Web/Maintenance.antt =====
-- internal/web/maintenance.go: the retention and offboarding sweeps. The directory's answers, the
-- time of the sweep and the writes that fail are arguments.
pub mod Counted
pub mod Decisions
pub mod Disabling
pub mod Offboarding
pub mod Untouched
use wgroster.Prelude.{
  ℕ, ◌+◌, ◌-◌, ◌*◌, Bool, true, false, not, ◌&&◌, ◌||◌, Option, none, some, List, [], ◌∷◌, ◌++◌,
  Text, txt, ltb, leb, ◌==◌, if◌then◌else◌, length, select, any,
}
use wgroster.Config.{Config, flag, disable, is_disable, orphan_check_enabled, dormant_check_enabled}
use wgroster.Store.Models.{Machine, Endpoint, active, status_eq, is_dormant, seen_or_since}
use wgroster.Store.Db.{Db, OwnerCheck}
use wgroster.Store.Service.{
  list_machines, list_machines_by_owner, set_machine_disabled, flag_machine_dormant,
  clear_machine_dormant, delete_expired_pending,
}
use wgroster.Store.Owners.{
  machine_owner_uids, owner_check_in, is_orphaned, mark_owner_present, mark_owner_absent,
  flag_owner_orphaned, prune_owner_checks,
}
use wgroster.Store.Endpoints.{list_endpoints}
use wgroster.Store.Status.{last_report}
use wgroster.Store.Audit.{delete_audit_before}
use wgroster.Web.Portal.{
  Portal, on_db, post_alert, system_audit, machine_ref, orphan, dormant, firing, resolved,
}

-- ldap.Presence, the answer of LookupPresence.
pub data Presence : Type 0 where
  unknown present absent : Presence

-- The writes that fail in this sweep, by machine id and by owner.
pub record Faults : Type 0 where
  pub disabling : ℕ → Bool
  pub flagging : ℕ → Bool
  pub clearing : ℕ → Bool
  pub marking : Text → Bool
  pub flagging_owner : Text → Bool

-- A day in seconds; orphanCheckInterval.
abbrev pub day : ℕ
day = 86400

-- Whether the recorded answer is still trusted.
abbrev pub is_recent : ℕ → Option OwnerCheck → Bool
is_recent now none = false
is_recent now (some c) = ltb (now - c.checked_at) day

abbrev pub Checked : Type 0
Checked = List OwnerCheck × Db

-- What a usable answer writes. The map of checks is a list in which the first entry counts.
unfoldable pub record_answer : Faults → ℕ → Text → Presence → Checked → Checked
record_answer faults now uid unknown (checks, db) = (checks, db)
record_answer faults now uid present (checks, db) = if faults.marking uid then (checks, db) else (
  record { uid = uid; misses = 0; absent_since = 0; flagged_at = 0; checked_at = now } ∷ checks,
  mark_owner_present uid now db,
)
record_answer faults now uid absent (checks, db) =
    let (c, db') = mark_owner_absent uid now db in
    if faults.marking uid then (checks, db) else (c ∷ checks, db')

-- One round of the first loop of sweepOrphans.
unfoldable pub refresh_owner : (Text → Presence) → Faults → ℕ → Text → Checked → Checked
unfolding record_answer
refresh_owner lookup faults now uid (checks, db) =
    if is_recent now (owner_check_in checks uid)
    then (checks, db)
    else record_answer faults now uid (lookup uid) (checks, db)

unfoldable pub refresh_owners : (Text → Presence) → Faults → ℕ → List Text → Checked → Checked
unfolding refresh_owner
refresh_owners lookup faults now [] s = s
refresh_owners lookup faults now (uid ∷ uids) s =
    refresh_owners lookup faults now uids (refresh_owner lookup faults now uid s)

-- The owners or machines to act on, or the reason to do nothing.
pub data Decision (A : Type 0) : Type 0 where
  act : List A → Decision A
  refuse_no_evidence refuse_majority : Decision A

abbrev pub is_out_of_grace : List OwnerCheck → ℕ → Text → Bool
is_out_of_grace checks grace uid = elim (owner_check_in checks uid) [
  | none ↦ false
  | some c ↦ leb grace c.misses
]

abbrev pub is_confirmed_present : List OwnerCheck → ℕ → Text → Bool
is_confirmed_present checks grace uid = elim (owner_check_in checks uid) [
  | none ↦ false
  | some c ↦ not (leb grace c.misses) && (c.misses == 0 && not (c.checked_at == 0))
]

-- The refusals that orphanDecision and dormantDecision share: nothing to act on, no evidence, and
-- more than half.
unfoldable pub decide_on : {A : Type 0} → List A → Bool → ℕ → Decision A
decide_on chosen evidence total =
    if length chosen == 0
    then act []
    else if not evidence
    then refuse_no_evidence
    else if ltb total (length chosen * 2)
    then refuse_majority
    else act chosen

-- orphanDecision.
unfoldable pub orphan_decision : List Text → List OwnerCheck → ℕ → Decision Text
unfolding decide_on
orphan_decision owners checks grace =
    decide_on (select (is_out_of_grace checks grace) owners)
      (not (length (select (is_confirmed_present checks grace) owners) == 0)) (length owners)

-- One round of the loop of orphanOwner: how many machines were active, how many were disabled, and
-- the portal.
unfoldable pub disable_one : Config → Faults → ℕ → Text → Machine → ℕ × ℕ × Portal → ℕ × ℕ × Portal
disable_one cfg faults now uid m (found, done, p) =
    if not (status_eq m.status active)
    then (found, done, p)
    else if not (is_disable cfg.orphan_action) || faults.disabling m.id
    then (found + 1, done, p)
    else (
      found + 1,
      done + 1,
      system_audit now (txt "machine.orphan_disabled") (m.name ++ txt " (" ++ uid ++ txt ")")
          (on_db (set_machine_disabled m.id) p),
    )

unfoldable pub disable_loop :
    Config → Faults → ℕ → Text → List Machine → ℕ × ℕ × Portal → ℕ × ℕ × Portal
unfolding disable_one
disable_loop cfg faults now uid [] s = s
disable_loop cfg faults now uid (m ∷ ms) s =
    disable_loop cfg faults now uid ms (disable_one cfg faults now uid m s)

-- What follows the loop: the owner is flagged only if every active machine was disabled.
unfoldable pub finish_owner : Config → Faults → ℕ → Text → ℕ × ℕ × Portal → Portal
finish_owner cfg faults now uid (found, done, p) =
    if is_disable cfg.orphan_action && not (done == found)
    then p
    else if faults.flagging_owner uid
    then p
    else post_alert cfg (record { endpoint = []; typ = orphan; user = uid; machine = [] }) firing
        (system_audit now (txt "owner.orphaned") uid (on_db (flag_owner_orphaned uid now) p))

-- orphanOwner.
unfoldable pub orphan_owner : Config → Faults → ℕ → Text → Portal → Portal
unfolding disable_loop finish_owner
orphan_owner cfg faults now uid p =
    finish_owner cfg faults now uid
      (disable_loop cfg faults now uid (list_machines_by_owner uid p.db) (0, 0, p))

abbrev pub is_flagged : List OwnerCheck → Text → Bool
is_flagged checks uid = elim (owner_check_in checks uid) [ none ↦ false | some c ↦ is_orphaned c ]

-- The third loop of sweepOrphans: each owner is acted on once.
unfoldable pub act_on_orphans : Config → Faults → ℕ → List OwnerCheck → List Text → Portal → Portal
unfolding orphan_owner
act_on_orphans cfg faults now checks [] p = p
act_on_orphans cfg faults now checks (uid ∷ uids) p =
    act_on_orphans cfg faults now checks uids
      (if is_flagged checks uid then p else orphan_owner cfg faults now uid p)

-- What sweepOrphans does with the decision.
unfoldable pub apply_orphans :
    Config → Faults → ℕ → List OwnerCheck → Decision Text → Portal → Portal
unfolding act_on_orphans
apply_orphans cfg faults now checks refuse_no_evidence p = p
apply_orphans cfg faults now checks refuse_majority p = p
apply_orphans cfg faults now checks (act []) p = p
apply_orphans cfg faults now checks (act (uid ∷ uids)) p =
    on_db (λ db. (prune_owner_checks db).1) (act_on_orphans cfg faults now checks (uid ∷ uids) p)

-- sweepOrphans.
unfoldable pub sweep_orphans : Config → (Text → Presence) → Faults → ℕ → Portal → Portal
unfolding refresh_owners orphan_decision apply_orphans
sweep_orphans cfg lookup faults now p =
    let owners = machine_owner_uids p.db in
    let (checks, db) = refresh_owners lookup faults now owners (p.db.owner_checks, p.db) in
    if not (orphan_check_enabled cfg) || length owners == 0
    then p
    else apply_orphans cfg faults now checks (orphan_decision owners checks cfg.orphan_grace_days)
        (record p { db = db })
