-- ===== src/Web/Maintenance/Untouched.antt =====
-- The machines that sweepOrphans of internal/web/maintenance.go leaves alone.
use wgroster.Prelude.{
  ℕ, ◌≡◌, refl, sym, ap, subst, ◌∙◌, inl, inr, Bool, true, false, not, ◌&&◌, List, [], ◌∷◌, Text,
  text_eq, text_eq→eq, if◌then◌else◌, update, In, Apart, Apart-update_keep, arith, Bool-cases, ◌==◌,
}
use wgroster.Config.{Config, is_disable}
use wgroster.Store.Models.{Machine, status_eq, active}
use wgroster.Store.Db.{Db, OwnerCheck}
use wgroster.Store.Invariant.{SameId}
use wgroster.Store.Owners.{
  machine_owner_uids, mark_owner_present, mark_owner_absent, flag_owner_orphaned,
  prune_owner_checks, owner_check_in,
}
use wgroster.Store.Service.{list_machines_by_owner}
use wgroster.Store.Audit.{add_audit}
use wgroster.Web.Portal.{Portal, AlertKey, AlertStatus, firing, post_alert, system_audit}
use wgroster.Web.Maintenance.{
  Presence, unknown, present, absent, Faults, Checked, Decision, act, refuse_no_evidence,
  refuse_majority, is_recent, record_answer, refresh_owner, refresh_owners, orphan_decision,
  disable_one, disable_loop, finish_owner, orphan_owner, is_flagged, act_on_orphans, apply_orphans,
  sweep_orphans,
}
use wgroster.Web.Maintenance.Decisions.{acted_on, MayOrphan, orphan_decision_iff}
use wgroster.Web.Maintenance.Disabling.{to_disabled, is_target}
use wgroster.Web.Maintenance.Offboarding.{orphan_owner-machines}

pub post_alert-db :
    (cfg : Config) (k : AlertKey) (a : AlertStatus) (p : Portal) → (post_alert cfg k a p).db ≡ p.db
unfolding post_alert
post_alert-db cfg k a p = elim (Bool-cases cfg.alert_webhook) [
  | inl e ↦ rw e refl
  | inr e ↦ rw e refl
]

-- What follows the loop leaves the machines.
finish_owner-machines :
    (cfg : Config) (faults : Faults) (now : ℕ) (uid : Text) (s : ℕ × ℕ × Portal)
    → (finish_owner cfg faults now uid s).db.machines ≡ s.2.db.machines
unfolding finish_owner system_audit add_audit flag_owner_orphaned
finish_owner-machines cfg faults now uid s =
    elim (Bool-cases (is_disable cfg.orphan_action && not (s.1 == s.0))) [
      | inl e ↦ rw e refl
      | inr e ↦ elim (Bool-cases (faults.flagging_owner uid)) [
        | inl f ↦ rw (e, f) refl
        | inr f ↦ rw (e, f) (ap (λ (d : Db). d.machines) (post_alert-db cfg _ firing _))
      ]
    ]

-- With orphan_action flag the loop leaves the machines too.
flag_loop-machines :
    (cfg : Config) (faults : Faults) (now : ℕ) (uid : Text) (ms : List Machine) (s : ℕ × ℕ × Portal)
    → is_disable cfg.orphan_action ≡ false
    → (disable_loop cfg faults now uid ms s).2.db.machines ≡ s.2.db.machines
unfolding disable_loop disable_one
flag_loop-machines cfg faults now uid [] s d = refl
flag_loop-machines cfg faults now uid (m ∷ ms) s d =
    flag_loop-machines cfg faults now uid ms (disable_one cfg faults now uid m s) d ∙ one
  where
    one : (disable_one cfg faults now uid m s).2.db.machines ≡ s.2.db.machines
    one = elim (Bool-cases (status_eq m.status active)) [
      | inl e ↦ rw (e, d) refl
      | inr e ↦ rw e refl
    ]

pub In-update_miss :
    (q : Machine → Bool) (g : Machine → Machine) (m : Machine) (ms : List Machine)
    → q m ≡ false
    → In m ms
    → In m (update q g ms)
In-update_miss q g m (x ∷ xs) h (inl e) = inl (miss x m g q e h)
  where
    miss :
        (x m : Machine) (g : Machine → Machine) (q : Machine → Bool)
        → x ≡ m
        → q m ≡ false
        → (if q x then g x else x) ≡ m
    miss x m g q e h = ground (arith, ap q e)
In-update_miss q g m (x ∷ xs) h (inr i) = inr (In-update_miss q g m xs h i)
In-update_miss q g m [] h i = i

-- One owner's turn keeps the ids unique, and the machines of the other owners.
record IsKept (m : Machine) (before after : List Machine) : Type 0 where
  ids : Apart SameId after
  row : In m before → In m after

orphan_owner-IsKept :
    (cfg : Config) (faults : Faults) (now : ℕ) (uid : Text) (p : Portal) (m : Machine)
    → Apart SameId p.db.machines
    → text_eq m.owner_uid uid ≡ false
    → IsKept m p.db.machines (orphan_owner cfg faults now uid p).db.machines
unfolding orphan_owner
orphan_owner-IsKept cfg faults now uid p m a n = elim (Bool-cases (is_disable cfg.orphan_action)) [
  | inl d ↦ rw (orphan_owner-machines cfg faults now uid p d a) (record {
    ids =
        Apart-update_keep SameId (λ x. text_eq x.owner_uid uid && is_target faults x) to_disabled
          (λ x y. ground arith) p.db.machines a;
    row =
        In-update_miss (λ x. text_eq x.owner_uid uid && is_target faults x) to_disabled m
          p.db.machines (ground (arith, n));
  })
  | inr d ↦
      subst (IsKept m p.db.machines)
        (sym (
          finish_owner-machines cfg faults now uid _
          ∙ flag_loop-machines cfg faults now uid (list_machines_by_owner uid p.db) (0, 0, p) d))
        (record { ids = a; row = λ i. i })
]

-- The turn of an owner who is flagged already is skipped.
turn-IsKept :
    (cfg : Config) (faults : Faults) (now : ℕ) (uid : Text) (p : Portal) (m : Machine)
    (flagged : Bool)
    → Apart SameId p.db.machines
    → ¬ (uid ≡ m.owner_uid)
    → IsKept m p.db.machines (if flagged then p else orphan_owner cfg faults now uid p).db.machines
turn-IsKept cfg faults now uid p m true a n = record { ids = a; row = λ i. i }
turn-IsKept cfg faults now uid p m false a n = elim (Bool-cases (text_eq m.owner_uid uid)) [
  | inl e ↦ absurd (n (sym (text_eq→eq m.owner_uid uid e)))
  | inr e ↦ orphan_owner-IsKept cfg faults now uid p m a e
]

-- The turns of a list of owners keep every machine whose owner is not on it.
act_on_orphans-kept :
    (cfg : Config) (faults : Faults) (now : ℕ) (checks : List OwnerCheck) (uids : List Text)
    (p : Portal) (m : Machine)
    → Apart SameId p.db.machines
    → ¬ In m.owner_uid uids
    → In m p.db.machines
    → In m (act_on_orphans cfg faults now checks uids p).db.machines
unfolding act_on_orphans
act_on_orphans-kept cfg faults now checks [] p m a n i = i
act_on_orphans-kept cfg faults now checks (uid ∷ uids) p m a n i =
    let k = turn-IsKept cfg faults now uid p m (is_flagged checks uid) a (λ e. n (inl e)) in
    act_on_orphans-kept cfg faults now checks uids _ m k.ids (λ j. n (inr j)) (k.row i)

-- Asking the directory leaves the machines.
refresh_owners-machines :
    (lookup : Text → Presence) (faults : Faults) (now : ℕ) (uids : List Text) (s : Checked)
    → (refresh_owners lookup faults now uids s).1.machines ≡ s.1.machines
unfolding refresh_owners mark_owner_present mark_owner_absent
refresh_owners-machines lookup faults now [] s = refl
refresh_owners-machines lookup faults now (uid ∷ uids) s =
    refresh_owners-machines lookup faults now uids (refresh_owner lookup faults now uid s) ∙ one s
  where
    keep :
        (b : Bool) (t u : Checked)
        → u.1.machines ≡ t.1.machines
        → (if b then t else u).1.machines ≡ t.1.machines
    keep true t u e = refl
    keep false t u e = e

    answer :
        (a : Presence) (t : Checked) → (record_answer faults now uid a t).1.machines ≡ t.1.machines
    answer unknown t = refl
    answer present t = keep (faults.marking uid) t (_, mark_owner_present uid now t.1) refl
    answer absent t =
        keep (faults.marking uid) t
          ((mark_owner_absent uid now t.1).0 ∷ t.0, (mark_owner_absent uid now t.1).1) refl

    one : (t : Checked) → (refresh_owner lookup faults now uid t).1.machines ≡ t.1.machines
    one t = elim (Bool-cases (is_recent now (owner_check_in t.0 uid))) [
      | inl e ↦ rw e refl
      | inr e ↦ rw e (answer (lookup uid) t)
    ]

apply_orphans-kept :
    (cfg : Config) (faults : Faults) (now : ℕ) (checks : List OwnerCheck) (d : Decision Text)
    (p : Portal) (m : Machine)
    → Apart SameId p.db.machines
    → ¬ In m.owner_uid (acted_on d)
    → In m p.db.machines
    → In m (apply_orphans cfg faults now checks d p).db.machines
unfolding apply_orphans prune_owner_checks
apply_orphans-kept cfg faults now checks refuse_no_evidence p m a n i = i
apply_orphans-kept cfg faults now checks refuse_majority p m a n i = i
apply_orphans-kept cfg faults now checks (act []) p m a n i = i
apply_orphans-kept cfg faults now checks (act (uid ∷ uids)) p m a n i =
    act_on_orphans-kept cfg faults now checks (uid ∷ uids) p m a n i

either-kept :
    (b : Bool) (p q : Portal) (m : Machine)
    → In m p.db.machines
    → In m q.db.machines
    → In m (if b then p else q).db.machines
either-kept true p q m i j = i
either-kept false p q m i j = j

-- The checks that a round of the sweep decides on.
abbrev pub checks_of : (Text → Presence) → Faults → ℕ → Db → List OwnerCheck
checks_of lookup faults now db =
    (refresh_owners lookup faults now (machine_owner_uids db) (db.owner_checks, db)).0

-- With unique machine ids, sweepOrphans leaves every machine as it is whose owner is not one
-- that the round may act on: whatever the directory answers, whichever writes fail and
-- whatever the configured action is, it changes a machine only if after its questions the
-- owner has at least as many misses as the grace period has days, some machine owner has a
-- check without a miss, and at most half of the machine owners have that many misses.
pub sweep_orphans-kept :
    (cfg : Config) (lookup : Text → Presence) (faults : Faults) (now : ℕ) (p : Portal) (m : Machine)
    → Apart SameId p.db.machines
    → ¬ MayOrphan
        (machine_owner_uids p.db)
        (checks_of lookup faults now p.db)
        cfg.orphan_grace_days
        m.owner_uid
    → In m p.db.machines
    → In m (sweep_orphans cfg lookup faults now p).db.machines
unfolding sweep_orphans
sweep_orphans-kept cfg lookup faults now p m a n i =
    let owners = machine_owner_uids p.db in
    let s = refresh_owners lookup faults now owners (p.db.owner_checks, p.db) in
    let same = sym (refresh_owners-machines lookup faults now owners (p.db.owner_checks, p.db)) in
    let chosen = orphan_decision_iff owners s.0 cfg.orphan_grace_days m.owner_uid in
    either-kept _ p _ m i (
      apply_orphans-kept cfg faults now s.0 (orphan_decision owners s.0 cfg.orphan_grace_days)
        (record p { db = s.1 }) m (subst (Apart SameId) same a) (λ j. n (chosen.0 j))
        (subst (In m) same i))
