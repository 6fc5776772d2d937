-- ===== src/Web/Routes/Sweeps.antt =====
-- The writes of the retention and of the offboarding check: internal/web/maintenance.go.
use wgroster.Prelude.{
  ◌||◌, ℕ, ◌-◌, ◌*◌, ◌≡◌, refl, sym, subst, not, ◌&&◌, List, [], ◌∷◌, Text, txt, ltb, ◌==◌, length,
}
use wgroster.Config.{Config, is_disable, orphan_check_enabled}
use wgroster.Store.Models.{Machine, status_eq, active}
use wgroster.Store.Db.{Db, OwnerCheck}
use wgroster.Store.Owners.{
  machine_owner_uids, mark_owner_present, mark_owner_absent, flag_owner_orphaned,
  prune_owner_checks, owner_check_in,
}
use wgroster.Store.Service.{
  list_machines_by_owner, set_machine_disabled, delete_expired_pending, is_expired_pending,
}
use wgroster.Store.Audit.{add_audit, delete_audit_before}
use wgroster.Web.Portal.{Portal, AlertKey, AlertStatus, firing, post_alert, system_audit, on_db}
use wgroster.Web.Maintenance.{
  Presence, unknown, present, absent, Faults, Checked, Decision, act, refuse_no_evidence,
  refuse_majority, is_recent, record_answer, refresh_owner, refresh_owners, orphan_decision,
  disable_one, disable_loop, finish_owner, orphan_owner, is_flagged, act_on_orphans, apply_orphans,
  sweep_orphans,
}
use wgroster.Web.Maintenance.Untouched.{post_alert-db}
use wgroster.Web.Dormancy.{expire_pending, prune_audit}
use wgroster.Web.Routes.Users.{either_way}
use wgroster.Web.Routes.Writes.{Actor, Writes, stop, one, ◌after◌, disabled, deleted, aside}

pub quiet :
    {a : Actor} (db db' : Db)
    → db'.machines ≡ db.machines
    → db'.next_machine ≡ db.next_machine
    → db'.endpoints ≡ db.endpoints
    → db'.next_endpoint ≡ db.next_endpoint
    → db'.links ≡ db.links
    → db'.status_peers ≡ db.status_peers
    → Writes a db db'
quiet db db' m n e x l s = one (
    aside db db' (record {
      machines = m;
      next_machine = n;
      endpoints = e;
      next_endpoint = x;
      links = l;
      status_peers = s;
    }))

pub system_audit-Writes :
    {a : Actor} (now : ℕ) (action target : Text) (p : Portal)
    → Writes a p.db (system_audit now action target p).db
unfolding system_audit add_audit
system_audit-Writes now action target p = quiet p.db _ refl refl refl refl refl refl

pub post_alert-Writes :
    {a : Actor} (cfg : Config) (k : AlertKey) (s : AlertStatus) (p : Portal)
    → Writes a p.db (post_alert cfg k s p).db
post_alert-Writes {a} cfg k s p = subst (Writes a p.db) (sym (post_alert-db cfg k s p)) (stop p.db)

pub expire_pending-Writes :
    {a : Actor} (cfg : Config) (now : ℕ) (p : Portal) → Writes a p.db (expire_pending cfg now p).db
unfolding delete_expired_pending
expire_pending-Writes {a} cfg now p =
    either_way (λ (q : Portal). Writes a p.db q.db) (ltb 0 cfg.pending_expiry_days) _ p
      (λ _. one (deleted (is_expired_pending (now - cfg.pending_expiry_days * 86400)) p.db))
      (λ _. stop p.db)

pub prune_audit-Writes :
    {a : Actor} (cfg : Config) (now : ℕ) (p : Portal) → Writes a p.db (prune_audit cfg now p).db
unfolding delete_audit_before
prune_audit-Writes {a} cfg now p =
    either_way (λ (q : Portal). Writes a p.db q.db) (ltb 0 cfg.audit_retention_days) _ p
      (λ _. quiet p.db _ refl refl refl refl refl refl) (λ _. stop p.db)

-- Asking the directory writes only checks of owners.
record_answer-Writes :
    {a : Actor} (faults : Faults) (now : ℕ) (uid : Text) (x : Presence) (s : Checked)
    → Writes a s.1 (record_answer faults now uid x s).1
unfolding mark_owner_present mark_owner_absent record_answer
record_answer-Writes faults now uid unknown s = stop s.1
record_answer-Writes {a} faults now uid present s =
    either_way (λ (t : Checked). Writes a s.1 t.1) (faults.marking uid) s _ (λ _. stop s.1)
      (λ _. quiet s.1 _ refl refl refl refl refl refl)
record_answer-Writes {a} faults now uid absent s =
    either_way (λ (t : Checked). Writes a s.1 t.1) (faults.marking uid) s _ (λ _. stop s.1)
      (λ _. quiet s.1 _ refl refl refl refl refl refl)

refresh_owners-Writes :
    {a : Actor} (lookup : Text → Presence) (faults : Faults) (now : ℕ) (uids : List Text)
    (s : Checked)
    → Writes a s.1 (refresh_owners lookup faults now uids s).1
unfolding refresh_owners refresh_owner
refresh_owners-Writes lookup faults now [] s = stop s.1
refresh_owners-Writes {a} lookup faults now (uid ∷ uids) s =
    either_way (λ (t : Checked). Writes a s.1 t.1) (is_recent now (owner_check_in s.0 uid)) s
      (record_answer faults now uid (lookup uid) s) (λ _. stop s.1)
      (λ _. record_answer-Writes faults now uid (lookup uid) s)
    after refresh_owners-Writes lookup faults now uids (refresh_owner lookup faults now uid s)

disable_loop-Writes :
    {a : Actor} (cfg : Config) (faults : Faults) (now : ℕ) (uid : Text) (ms : List Machine)
    (s : ℕ × ℕ × Portal)
    → Writes a s.2.db (disable_loop cfg faults now uid ms s).2.db
unfolding disable_loop disable_one
disable_loop-Writes cfg faults now uid [] s = stop s.2.db
disable_loop-Writes {a} cfg faults now uid (m ∷ ms) s =
    either_way (λ (t : ℕ × ℕ × Portal). Writes a s.2.db t.2.db) (not (status_eq m.status active)) s
      _ (λ _. stop s.2.db)
      (λ _.
        either_way (λ (t : ℕ × ℕ × Portal). Writes a s.2.db t.2.db)
          (not (is_disable cfg.orphan_action) || faults.disabling m.id) _ _ (λ _. stop s.2.db)
          (λ _.
            one (disabled m.id s.2.db)
            after system_audit-Writes now _ _ (on_db (set_machine_disabled m.id) s.2)))
    after disable_loop-Writes cfg faults now uid ms (disable_one cfg faults now uid m s)

finish_owner-Writes :
    {a : Actor} (cfg : Config) (faults : Faults) (now : ℕ) (uid : Text) (s : ℕ × ℕ × Portal)
    → Writes a s.2.db (finish_owner cfg faults now uid s).db
unfolding finish_owner flag_owner_orphaned
finish_owner-Writes {a} cfg faults now uid s =
    let flagged_owner = on_db (flag_owner_orphaned uid now) s.2 in
    let logged = system_audit now (txt "owner.orphaned") uid flagged_owner in
    either_way (λ (q : Portal). Writes a s.2.db q.db)
      (is_disable cfg.orphan_action && not (s.1 == s.0)) s.2 _ (λ _. stop s.2.db)
      (λ _.
        either_way (λ (q : Portal). Writes a s.2.db q.db) (faults.flagging_owner uid) s.2 _
          (λ _. stop s.2.db)
          (λ _.
            quiet s.2.db _ refl refl refl refl refl refl
            after system_audit-Writes now (txt "owner.orphaned") uid flagged_owner
            after post_alert-Writes cfg _ firing logged))

orphan_owner-Writes :
    {a : Actor} (cfg : Config) (faults : Faults) (now : ℕ) (uid : Text) (p : Portal)
    → Writes a p.db (orphan_owner cfg faults now uid p).db
unfolding orphan_owner
orphan_owner-Writes cfg faults now uid p =
    disable_loop-Writes cfg faults now uid (list_machines_by_owner uid p.db) (0, 0, p)
    after finish_owner-Writes cfg faults now uid
        (disable_loop cfg faults now uid (list_machines_by_owner uid p.db) (0, 0, p))

act_on_orphans-Writes :
    {a : Actor} (cfg : Config) (faults : Faults) (now : ℕ) (checks : List OwnerCheck)
    (uids : List Text) (p : Portal)
    → Writes a p.db (act_on_orphans cfg faults now checks uids p).db
unfolding act_on_orphans
act_on_orphans-Writes cfg faults now checks [] p = stop p.db
act_on_orphans-Writes {a} cfg faults now checks (uid ∷ uids) p =
    either_way (λ (q : Portal). Writes a p.db q.db) (is_flagged checks uid) p
      (orphan_owner cfg faults now uid p) (λ _. stop p.db)
      (λ _. orphan_owner-Writes cfg faults now uid p)
    after act_on_orphans-Writes cfg faults now checks uids _

apply_orphans-Writes :
    {a : Actor} (cfg : Config) (faults : Faults) (now : ℕ) (checks : List OwnerCheck)
    (d : Decision Text) (p : Portal)
    → Writes a p.db (apply_orphans cfg faults now checks d p).db
unfolding apply_orphans prune_owner_checks
apply_orphans-Writes cfg faults now checks refuse_no_evidence p = stop p.db
apply_orphans-Writes cfg faults now checks refuse_majority p = stop p.db
apply_orphans-Writes cfg faults now checks (act []) p = stop p.db
apply_orphans-Writes cfg faults now checks (act (uid ∷ uids)) p =
    act_on_orphans-Writes cfg faults now checks (uid ∷ uids) p
    after quiet (act_on_orphans cfg faults now checks (uid ∷ uids) p).db _ refl refl refl refl refl
        refl

pub sweep_orphans-Writes :
    {a : Actor} (cfg : Config) (lookup : Text → Presence) (faults : Faults) (now : ℕ) (p : Portal)
    → Writes a p.db (sweep_orphans cfg lookup faults now p).db
unfolding sweep_orphans
sweep_orphans-Writes {a} cfg lookup faults now p =
    let owners = machine_owner_uids p.db in
    let s = refresh_owners lookup faults now owners (p.db.owner_checks, p.db) in
    either_way (λ (q : Portal). Writes a p.db q.db)
      (not (orphan_check_enabled cfg) || length owners == 0) p _ (λ _. stop p.db)
      (λ _.
        refresh_owners-Writes lookup faults now owners (p.db.owner_checks, p.db)
        after apply_orphans-Writes cfg faults now s.0
            (orphan_decision owners s.0 cfg.orphan_grace_days) (record p { db = s.1 }))
