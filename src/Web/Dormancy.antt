-- ===== src/Web/Dormancy.antt =====
-- internal/web/maintenance.go: the dormancy check and the whole hourly sweep.
use wgroster.Prelude.{
  ℕ, ◌-◌, ◌*◌, Bool, false, not, ◌&&◌, Option, none, some, List, [], ◌∷◌, Text, txt, ltb,
  if◌then◌else◌, length, select, any,
}
use wgroster.Config.{Config, is_disable, dormant_check_enabled}
use wgroster.Store.Models.{Machine, Endpoint, active, status_eq, is_dormant, seen_or_since}
use wgroster.Store.Db.{Db}
use wgroster.Store.Service.{
  list_machines, set_machine_disabled, flag_machine_dormant, clear_machine_dormant,
  delete_expired_pending,
}
use wgroster.Store.Endpoints.{list_endpoints}
use wgroster.Store.Status.{last_report}
use wgroster.Store.Audit.{delete_audit_before}
use wgroster.Web.Portal.{
  Portal, AlertKey, on_db, post_alert, system_audit, machine_ref, dormant, firing, resolved,
}
use wgroster.Web.Maintenance.{
  Presence, Faults, Decision, act, refuse_no_evidence, refuse_majority, day, decide_on,
  sweep_orphans,
}

abbrev pub dormant_key : Machine → AlertKey
dormant_key m = record { endpoint = []; typ = dormant; user = []; machine = machine_ref m }

-- The flag is dropped for a machine seen after the cutoff.
abbrev pub is_seen_again : ℕ → Machine → Bool
is_seen_again cutoff m = is_dormant m && ltb cutoff m.last_seen

-- The first loop of sweepDormant.
unfoldable pub clear_seen : Config → Faults → ℕ → ℕ → List Machine → Portal → Portal
clear_seen cfg faults now cutoff [] p = p
clear_seen cfg faults now cutoff (m ∷ ms) p = clear_seen cfg faults now cutoff ms (
    if is_seen_again cutoff m && not (faults.clearing m.id)
    then post_alert cfg (dormant_key m) resolved (
        system_audit now (txt "machine.dormant_cleared") (machine_ref m)
          (on_db (clear_machine_dormant m.id) p))
    else p)

-- dormantEvidenceWindow, in seconds.
abbrev pub dormant_evidence_window : ℕ
dormant_evidence_window = 3600

abbrev pub is_fresh_report : ℕ → Option ℕ → Bool
is_fresh_report now none = false
is_fresh_report now (some last) = ltb (now - last) dormant_evidence_window

-- hasFreshReport.
unfoldable pub has_fresh_report : ℕ → Db → Bool
has_fresh_report now db =
    any (λ (e : Endpoint). is_fresh_report now (last_report e.id db)) (list_endpoints db)

abbrev pub is_active : Machine → Bool
is_active m = status_eq m.status active

-- An active machine, not yet flagged, with nothing seen since the cutoff.
abbrev pub looks_dormant : ℕ → Machine → Bool
looks_dormant cutoff m = is_active m && (not (is_dormant m) && ltb (seen_or_since m) cutoff)

-- dormantDecision.
unfoldable pub dormant_decision : List Machine → ℕ → Bool → Decision Machine
unfolding decide_on
dormant_decision machines cutoff fresh =
    decide_on (select (looks_dormant cutoff) machines) fresh (length (select is_active machines))

-- The flag, the audit entry and the alert of dormantMachine.
abbrev pub flag_dormant : Config → Faults → ℕ → Text → Machine → Portal → Portal
flag_dormant cfg faults now action m p =
    if faults.flagging m.id
    then p
    else post_alert cfg (dormant_key m) firing
        (system_audit now action (machine_ref m) (on_db (flag_machine_dormant m.id now) p))

-- dormantMachine: a disable that fails leaves the machine unflagged.
unfoldable pub dormant_machine : Config → Faults → ℕ → Machine → Portal → Portal
dormant_machine cfg faults now m p =
    if is_disable cfg.dormant_action
    then (if faults.disabling m.id
        then p
        else flag_dormant cfg faults now (txt "machine.dormant_disabled") m
            (on_db (set_machine_disabled m.id) p))
    else flag_dormant cfg faults now (txt "machine.dormant") m p

unfoldable pub dormant_machines : Config → Faults → ℕ → List Machine → Portal → Portal
unfolding dormant_machine
dormant_machines cfg faults now [] p = p
dormant_machines cfg faults now (m ∷ ms) p =
    dormant_machines cfg faults now ms (dormant_machine cfg faults now m p)

unfoldable pub apply_dormant : Config → Faults → ℕ → Decision Machine → Portal → Portal
unfolding dormant_machines
apply_dormant cfg faults now refuse_no_evidence p = p
apply_dormant cfg faults now refuse_majority p = p
apply_dormant cfg faults now (act ms) p = dormant_machines cfg faults now ms p

-- sweepDormant: the list of machines is read once, before the flags are dropped.
unfoldable pub sweep_dormant : Config → Faults → ℕ → Portal → Portal
unfolding clear_seen has_fresh_report dormant_decision apply_dormant
sweep_dormant cfg faults now p =
    let machines = list_machines p.db in
    let cutoff = now - cfg.dormant_days * day in
    let cleared = clear_seen cfg faults now cutoff machines p in
    if not (dormant_check_enabled cfg)
    then p
    else apply_dormant cfg faults now
        (dormant_decision machines cutoff (has_fresh_report now cleared.db)) cleared

abbrev pub expire_pending : Config → ℕ → Portal → Portal
expire_pending cfg now p =
    if ltb 0 cfg.pending_expiry_days
    then on_db (λ db. (delete_expired_pending (now - cfg.pending_expiry_days * day) db).1) p
    else p

abbrev pub prune_audit : Config → ℕ → Portal → Portal
prune_audit cfg now p =
    if ltb 0 cfg.audit_retention_days
    then on_db (λ db. (delete_audit_before (now - cfg.audit_retention_days * day) db).1) p
    else p

-- sweep.
unfoldable pub sweep : Config → (Text → Presence) → Faults → ℕ → Portal → Portal
unfolding sweep_orphans sweep_dormant
sweep cfg lookup faults now p =
    sweep_dormant cfg faults now
      (sweep_orphans cfg lookup faults now (prune_audit cfg now (expire_pending cfg now p)))
