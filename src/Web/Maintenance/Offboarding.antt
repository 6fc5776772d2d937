-- ===== src/Web/Maintenance/Offboarding.antt =====
-- What orphanOwner of internal/web/maintenance.go changes: the machines of the owner, and the
-- owner's row.
use wgroster.Prelude.{
  Apart, ℕ, ◌≡◌, refl, ◌∙◌, ap, inl, inr, Bool, true, false, not, ◌&&◌, List, [], ◌∷◌, ◌++◌, Text,
  text_eq, ◌==◌, if◌then◌else◌, update, any, All-imp, arith, Bool-cases,
}
use wgroster.Config.{Config, is_disable}
use wgroster.Store.Models.{Machine, active, status_eq}
use wgroster.Store.Db.{Db, OwnerCheck}
use wgroster.Store.Invariant.{SameId}
use wgroster.Store.Invariant.Rows.{any-list_by_owner, row-by_id, update-same}
use wgroster.Store.Service.{list_machines_by_owner}
use wgroster.Store.Owners.{check_of, flag_owner_orphaned}
use wgroster.Store.Audit.{add_audit}
use wgroster.Web.Portal.{AlertKey, AlertStatus, orphan, firing, Portal, post_alert, system_audit}
use wgroster.Web.Maintenance.{Faults, disable_loop, finish_owner, orphan_owner}
use wgroster.Web.Maintenance.Disabling.{
  to_disabled, is_target, is_hit, disable_loop_lem, disable_loop-counts, any_fault, counts-no_fault,
  counts-fault,
}

abbrev pub owner_alert : Text → AlertKey × AlertStatus
owner_alert uid = (record { endpoint = []; typ = orphan; user = uid; machine = [] }, firing)

abbrev pub owners_after : Bool → ℕ → Text → List OwnerCheck → List OwnerCheck
owners_after b now uid cs =
    if b then update (check_of uid) (λ (c : OwnerCheck). record c { flagged_at = now }) cs else cs

abbrev pub alerts_after :
    Bool → Config → Text → List (AlertKey × AlertStatus) → List (AlertKey × AlertStatus)
alerts_after b cfg uid as' = if b && cfg.alert_webhook then as' ++ owner_alert uid ∷ [] else as'

finish_owner_lem :
    (cfg : Config) (faults : Faults) (now : ℕ) (uid : Text)
    → is_disable cfg.orphan_action ≡ true
    → (s : ℕ × ℕ × Portal)
    → let t = finish_owner cfg faults now uid s in
      let b = s.1 == s.0 && not (faults.flagging_owner uid) in
      (t.db.machines ≡ s.2.db.machines)
      × (t.db.owner_checks ≡ owners_after b now uid s.2.db.owner_checks)
      × (t.alerts ≡ alerts_after b cfg uid s.2.alerts)
unfolding finish_owner system_audit add_audit flag_owner_orphaned post_alert
finish_owner_lem cfg faults now uid d s = elim (Bool-cases (s.1 == s.0)) [
  | inr e ↦ rw (d, e) (refl, refl, refl)
  | inl e ↦ elim (Bool-cases (faults.flagging_owner uid)) [
    | inl f ↦ rw (d, e, f) (refl, refl, refl)
    | inr f ↦ elim (Bool-cases cfg.alert_webhook) [
      | inl a ↦ rw (d, e, f, a) (refl, refl, refl)
      | inr a ↦ rw (d, e, f, a) (refl, refl, refl)
    ]
  ]
]

loop_agrees :
    (cfg : Config) (faults : Faults) (now : ℕ) (uid : Text)
    → is_disable cfg.orphan_action ≡ true
    → (ms : List Machine) (p : Portal)
    → let t = disable_loop cfg faults now uid ms (0, 0, p) in
      (t.1 == t.0) ≡ not (any_fault faults ms)
loop_agrees cfg faults now uid d ms p =
    let (x, y) = disable_loop-counts cfg faults now uid d ms (0, 0, p) in
    elim (Bool-cases (any_fault faults ms)) [
      | inl e ↦ rw e (ground (arith, x, y, counts-fault faults ms e))
      | inr e ↦ rw e (ground (arith, x, y, counts-no_fault faults ms e))
    ]

-- No write fails for an active machine of the owner, nor for the owner's row.
abbrev pub writes_succeed : Faults → Text → Db → Bool
writes_succeed faults uid db =
    not (
      any (λ m. text_eq m.owner_uid uid && (status_eq m.status active && faults.disabling m.id))
        db.machines)
    && not (faults.flagging_owner uid)

and_assoc : (a b c : Bool) → a && (b && c) ≡ (a && b) && c
and_assoc true b c = refl
and_assoc false b c = refl

-- A machine is among the owner's targets when a row with its id is.
hit_of_owner :
    (faults : Faults) (uid : Text) (db : Db) (m : Machine)
    → is_hit faults (list_machines_by_owner uid db) m
      ≡ any (λ n. (text_eq n.owner_uid uid && is_target faults n) && m.id == n.id) db.machines
hit_of_owner faults uid db m =
    any-list_by_owner (λ n. is_target faults n && m.id == n.id) uid db ∙ λ i.
    any (λ n. and_assoc (text_eq n.owner_uid uid) (is_target faults n) (m.id == n.id) i) db.machines

-- With unique machine ids and orphan_action disable, orphanOwner disables exactly the owner's
-- active machines whose write succeeds: every other row of the machine table stays as it was.
pub orphan_owner-machines :
    (cfg : Config) (faults : Faults) (now : ℕ) (uid : Text) (p : Portal)
    → is_disable cfg.orphan_action ≡ true
    → Apart SameId p.db.machines
    → (orphan_owner cfg faults now uid p).db.machines
      ≡ update (λ m. text_eq m.owner_uid uid && is_target faults m) to_disabled p.db.machines
unfolding orphan_owner
orphan_owner-machines cfg faults now uid p d w =
    (finish_owner_lem cfg faults now uid d _).0
    ∙ (disable_loop_lem cfg faults now uid d (list_machines_by_owner uid p.db) (0, 0, p)).0
    ∙ update-same _ _ to_disabled p.db.machines (
        All-imp _ _ (λ m e. hit_of_owner faults uid p.db m ∙ e) p.db.machines
          (row-by_id (λ m. text_eq m.owner_uid uid && is_target faults m) p.db.machines w))

-- With orphan_action disable, orphanOwner flags the owner's row and sends one alert to a
-- configured webhook if no write fails for an active machine of the owner or for the owner's
-- row; otherwise the owners' rows and the alerts stay as they were.
pub orphan_owner-flag :
    (cfg : Config) (faults : Faults) (now : ℕ) (uid : Text) (p : Portal)
    → is_disable cfg.orphan_action ≡ true
    → let t = orphan_owner cfg faults now uid p in
      let b = writes_succeed faults uid p.db in
      (t.db.owner_checks ≡ owners_after b now uid p.db.owner_checks)
      × (t.alerts ≡ alerts_after b cfg uid p.alerts)
unfolding orphan_owner any_fault
orphan_owner-flag cfg faults now uid p d =
    let ms = list_machines_by_owner uid p.db in
    let t = disable_loop cfg faults now uid ms (0, 0, p) in
    let (x, y, z) = finish_owner_lem cfg faults now uid d t in
    let (a, b, c) = disable_loop_lem cfg faults now uid d ms (0, 0, p) in
    let e =
      loop_agrees cfg faults now uid d ms p
      ∙ ap not
          (any-list_by_owner (λ m. status_eq m.status active && faults.disabling m.id) uid p.db) in
    (
      y
          ∙ ap
              (λ v. owners_after (v && not (faults.flagging_owner uid)) now uid t.2.db.owner_checks)
              e
          ∙ ap (owners_after _ now uid) b,
      z
          ∙ ap (λ v. alerts_after (v && not (faults.flagging_owner uid)) cfg uid t.2.alerts) e
          ∙ ap (alerts_after _ cfg uid) c,
    )
