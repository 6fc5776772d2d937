-- ===== src/Web/Routes/Dormant.antt =====
-- The writes of the dormancy check and of the whole hourly sweep: internal/web/maintenance.go.
use wgroster.Prelude.{ℕ, ◌-◌, ◌*◌, not, ◌&&◌, List, [], ◌∷◌, Text, txt}
use wgroster.Config.{Config, is_disable, dormant_check_enabled}
use wgroster.Store.Models.{Machine}
use wgroster.Store.Service.{
  list_machines, set_machine_disabled, flag_machine_dormant, clear_machine_dormant,
}
use wgroster.Web.Portal.{Portal, firing, resolved, post_alert, system_audit, on_db, machine_ref}
use wgroster.Web.Maintenance.{
  Presence, Faults, Decision, act, refuse_no_evidence, refuse_majority, sweep_orphans,
}
use wgroster.Web.Dormancy.{
  dormant_key, is_seen_again, clear_seen, flag_dormant, dormant_machine, dormant_machines,
  apply_dormant, dormant_decision, has_fresh_report, sweep_dormant, expire_pending, prune_audit,
  sweep,
}
use wgroster.Web.Routes.Users.{either_way}
use wgroster.Web.Routes.Writes.{Actor, Writes, stop, one, ◌after◌, disabled, flagged, cleared}
use wgroster.Web.Routes.Sweeps.{
  system_audit-Writes, post_alert-Writes, expire_pending-Writes, prune_audit-Writes,
  sweep_orphans-Writes,
}

clear_seen-Writes :
    {a : Actor} (cfg : Config) (faults : Faults) (now cutoff : ℕ) (ms : List Machine) (p : Portal)
    → Writes a p.db (clear_seen cfg faults now cutoff ms p).db
unfolding clear_seen
clear_seen-Writes cfg faults now cutoff [] p = stop p.db
clear_seen-Writes {a} cfg faults now cutoff (m ∷ ms) p =
    let unflagged = on_db (clear_machine_dormant m.id) p in
    let logged = system_audit now (txt "machine.dormant_cleared") (machine_ref m) unflagged in
    either_way (λ (q : Portal). Writes a p.db q.db)
      (is_seen_again cutoff m && not (faults.clearing m.id))
      (post_alert cfg (dormant_key m) resolved logged) p
      (λ _.
        one (cleared m.id p.db)
        after system_audit-Writes now (txt "machine.dormant_cleared") (machine_ref m) unflagged
        after post_alert-Writes cfg (dormant_key m) resolved logged)
      (λ _. stop p.db)
    after clear_seen-Writes cfg faults now cutoff ms _

flag_dormant-Writes :
    {a : Actor} (cfg : Config) (faults : Faults) (now : ℕ) (action : Text) (m : Machine)
    (p : Portal)
    → Writes a p.db (flag_dormant cfg faults now action m p).db
flag_dormant-Writes {a} cfg faults now action m p =
    let marked = on_db (flag_machine_dormant m.id now) p in
    let logged = system_audit now action (machine_ref m) marked in
    either_way (λ (q : Portal). Writes a p.db q.db) (faults.flagging m.id) p
      (post_alert cfg (dormant_key m) firing logged) (λ _. stop p.db)
      (λ _.
        one (flagged m.id now p.db)
        after system_audit-Writes now action (machine_ref m) marked
        after post_alert-Writes cfg (dormant_key m) firing logged)

dormant_machine-Writes :
    {a : Actor} (cfg : Config) (faults : Faults) (now : ℕ) (m : Machine) (p : Portal)
    → Writes a p.db (dormant_machine cfg faults now m p).db
unfolding dormant_machine
dormant_machine-Writes {a} cfg faults now m p =
    either_way (λ (q : Portal). Writes a p.db q.db) (is_disable cfg.dormant_action) _ _
      (λ _.
        either_way (λ (q : Portal). Writes a p.db q.db) (faults.disabling m.id) p _ (λ _. stop p.db)
          (λ _.
            one (disabled m.id p.db)
            after flag_dormant-Writes cfg faults now (txt "machine.dormant_disabled") m
                (on_db (set_machine_disabled m.id) p)))
      (λ _. flag_dormant-Writes cfg faults now (txt "machine.dormant") m p)

dormant_machines-Writes :
    {a : Actor} (cfg : Config) (faults : Faults) (now : ℕ) (ms : List Machine) (p : Portal)
    → Writes a p.db (dormant_machines cfg faults now ms p).db
unfolding dormant_machines
dormant_machines-Writes cfg faults now [] p = stop p.db
dormant_machines-Writes cfg faults now (m ∷ ms) p =
    dormant_machine-Writes cfg faults now m p
    after dormant_machines-Writes cfg faults now ms (dormant_machine cfg faults now m p)

apply_dormant-Writes :
    {a : Actor} (cfg : Config) (faults : Faults) (now : ℕ) (d : Decision Machine) (p : Portal)
    → Writes a p.db (apply_dormant cfg faults now d p).db
unfolding apply_dormant
apply_dormant-Writes cfg faults now refuse_no_evidence p = stop p.db
apply_dormant-Writes cfg faults now refuse_majority p = stop p.db
apply_dormant-Writes cfg faults now (act ms) p = dormant_machines-Writes cfg faults now ms p

sweep_dormant-Writes :
    {a : Actor} (cfg : Config) (faults : Faults) (now : ℕ) (p : Portal)
    → Writes a p.db (sweep_dormant cfg faults now p).db
unfolding sweep_dormant
sweep_dormant-Writes {a} cfg faults now p =
    let cutoff = now - cfg.dormant_days * 86400 in
    let seen = clear_seen cfg faults now cutoff (list_machines p.db) p in
    either_way (λ (q : Portal). Writes a p.db q.db) (not (dormant_check_enabled cfg)) p _
      (λ _. stop p.db)
      (λ _.
        clear_seen-Writes cfg faults now cutoff (list_machines p.db) p
        after apply_dormant-Writes cfg faults now
            (dormant_decision (list_machines p.db) cutoff (has_fresh_report now seen.db)) seen)

-- A sweep makes only writes that anyone may make: it takes no machine into service.
pub sweep-Writes :
    {a : Actor} (cfg : Config) (lookup : Text → Presence) (faults : Faults) (now : ℕ) (p : Portal)
    → Writes a p.db (sweep cfg lookup faults now p).db
unfolding sweep
sweep-Writes cfg lookup faults now p =
    let expired = expire_pending cfg now p in
    let pruned = prune_audit cfg now expired in
    expire_pending-Writes cfg now p
    after prune_audit-Writes cfg now expired
    after sweep_orphans-Writes cfg lookup faults now pruned
    after sweep_dormant-Writes cfg faults now (sweep_orphans cfg lookup faults now pruned)
