-- ===== src/Tests/Sweeps.antt =====
-- The offboarding and dormancy checks, an owner's edit and an approval, on the test database.
use wgroster.Prelude.{
  length, Text, ◌≢◌, some, ℕ, arith, text_lt, inr, ◌≡◌, ◌↔◌, refl, inl, true, false, ◌&&◌, List, [],
  ◌∷◌, ◌++◌, map, txt, text_eq, text_discrete, ◌==◌, update, delete, any, In, sort_by,
}
use wgroster.Config.{Config, flag, disable}
use wgroster.Store.Models.{Machine, normalize_icon}
use wgroster.Store.Db.{Db, OwnerCheck, ok}
use wgroster.Store.Machines.{has_id, address_of_other, update_own_machine, update_machine_identity}
use wgroster.Store.Service.{endpoint_ids_for_machine, active_machines_for_endpoint, approve_machine}
use wgroster.Store.Approval.{approve_machine-endpoint_ids, approved, approve_machine-ok}
use wgroster.Store.Reviewed.{update_own_machine-reviewed}
use wgroster.Web.Portal.{Portal}
use wgroster.Web.Maintenance.{
  present, refresh_owners, refresh_owner, sweep_orphans, Faults, orphan_decision, orphan_owner,
}
use wgroster.Web.Dormancy.{dormant_decision}
use wgroster.Web.Maintenance.Decisions.{
  acted_on, MayOrphan, MayDormant, orphan_decision_iff, dormant_decision_iff,
}
use wgroster.Web.Maintenance.Disabling.{to_disabled, is_target}
use wgroster.Web.Maintenance.Offboarding.{
  writes_succeed, owners_after, alerts_after, orphan_owner-machines, orphan_owner-flag,
}
use wgroster.Web.Maintenance.Untouched.{checks_of, sweep_orphans-kept}
use wgroster.Store.Owners.{machine_owner_uids, owner_check_in}
use wgroster.Store.Settings.{get_setting, set_setting, set_setting-get_setting}
use wgroster.Tests.Tables.{roster, roster-IsWellFormed, laptop, phone}

-- ada was absent three times in a row and bob is present.
abbrev checks : List OwnerCheck
checks =
    record { uid = txt "ada"; misses = 3; absent_since = 10; flagged_at = 0; checked_at = 259210 }
    ∷ record { uid = txt "bob"; misses = 0; absent_since = 0; flagged_at = 0; checked_at = 259210 }
    ∷ []

orphan_decision_iff_example :
    In (txt "ada") (acted_on (orphan_decision (txt "ada" ∷ txt "bob" ∷ []) checks 3))
    ↔ MayOrphan (txt "ada" ∷ txt "bob" ∷ []) checks 3 (txt "ada")
orphan_decision_iff_example = orphan_decision_iff (txt "ada" ∷ txt "bob" ∷ []) checks 3 (txt "ada")

dormant_decision_iff_example :
    In laptop (acted_on (dormant_decision (laptop ∷ phone ∷ []) 1000 true))
    ↔ MayDormant (laptop ∷ phone ∷ []) 1000 true laptop
dormant_decision_iff_example = dormant_decision_iff (laptop ∷ phone ∷ []) 1000 true laptop

abbrev cfg : Config
cfg = record {
  ldap_configured = true;
  alert_webhook = true;
  self_enroll = false;
  self_enroll_endpoint = [];
  max_pending_per_user = 3;
  pending_expiry_days = 30;
  audit_retention_days = 90;
  orphan_grace_days = 3;
  orphan_action = disable;
  dormant_days = 90;
  dormant_action = flag;
}

abbrev no_faults : Faults
no_faults = record {
  disabling = λ _. false;
  flagging = λ _. false;
  clearing = λ _. false;
  marking = λ _. false;
  flagging_owner = λ _. false;
}

abbrev portal : Portal
portal = record { db = record roster { owner_checks = checks }; alerts = [] }

orphan_owner-machines_example :
    (orphan_owner cfg no_faults 259300 (txt "ada") portal).db.machines
    ≡ update
        (λ m. text_eq m.owner_uid (txt "ada") && is_target no_faults m)
        to_disabled
        roster.machines
orphan_owner-machines_example =
    orphan_owner-machines cfg no_faults 259300 (txt "ada") portal refl
      roster-IsWellFormed.machines.ids

orphan_owner-flag_example :
    ((orphan_owner cfg no_faults 259300 (txt "ada") portal).db.owner_checks
      ≡ owners_after (writes_succeed no_faults (txt "ada") portal.db) 259300 (txt "ada") checks)
    × ((orphan_owner cfg no_faults 259300 (txt "ada") portal).alerts
        ≡ alerts_after (writes_succeed no_faults (txt "ada") portal.db) cfg (txt "ada") [])
orphan_owner-flag_example = orphan_owner-flag cfg no_faults 259300 (txt "ada") portal refl

free2 : any (address_of_other 2 (txt "10.8.0.2")) roster.machines ≡ false
unfolding text_discrete
free2 = refl

approve_machine-ok_example :
    approve_machine 300 2 (txt "10.8.0.2") (1 ∷ []) (txt "root") roster
    ≡ ok (record roster {
      machines = update (has_id 2) (approved 300 (txt "10.8.0.2") (txt "root")) roster.machines;
      links = delete (λ l. l.0 == 2) roster.links ++ map (λ eid. (2, eid)) (1 ∷ []);
    })
approve_machine-ok_example =
    approve_machine-ok 300 2 (txt "10.8.0.2") (txt "root") (1 ∷ []) roster refl free2 (refl, tt)
      (tt, tt)

-- ada renames the laptop and keeps its key.
abbrev renamed : Db
renamed = record roster {
  machines = record laptop { name = txt "work"; icon = txt "phone" } ∷ phone ∷ [];
}

rename_test :
    update_own_machine 300 1 (txt "work") (txt "K1") (txt "phone") roster ≡ ok (false, renamed)
unfolding update_own_machine update_machine_identity text_discrete normalize_icon
rename_test = refl

abbrev work : Machine
work = record laptop { name = txt "work"; icon = txt "phone" }

work-listed : In work (active_machines_for_endpoint 1 renamed)
unfolding active_machines_for_endpoint sort_by
work-listed = inl refl

update_own_machine-reviewed_example :
    (n : Machine) × In n (active_machines_for_endpoint 1 roster)
    × (n.id ≡ 1)
    × (n.public_key ≡ txt "K1")
update_own_machine-reviewed_example =
    update_own_machine-reviewed 300 1 (txt "work") (txt "K1") (txt "phone") roster renamed false 1
      work roster-IsWellFormed rename_test work-listed

-- Nobody is out of grace in a database without checks, so the phone stays as it is.
nobody_out :
    ¬ MayOrphan
      (machine_owner_uids roster)
      (checks_of (λ _. present) no_faults 500 roster)
      3
      (txt "bob")
unfolding machine_owner_uids refresh_owners refresh_owner owner_check_in text_discrete sort_by
    text_lt
nobody_out (i, (c, e, n), v, r) = ground (arith, e)

sweep_orphans-kept_example :
    In phone
      (sweep_orphans cfg
        (λ _. present)
        no_faults
        500
        (record { db = roster; alerts = [] })).db.machines
sweep_orphans-kept_example =
    sweep_orphans-kept cfg (λ _. present) no_faults 500 (record { db = roster; alerts = [] }) phone
      roster-IsWellFormed.machines.ids nobody_out (inr (inl refl))

abbrev approved_roster : Db
approved_roster = record roster {
  machines = update (has_id 2) (approved 300 (txt "10.8.0.2") (txt "root")) roster.machines;
  links = delete (λ l. l.0 == 2) roster.links ++ map (λ eid. (2, eid)) (1 ∷ []);
}

approve_machine-endpoint_ids_example :
    ((eid : ℕ) → In eid (endpoint_ids_for_machine 2 approved_roster) ↔ In eid (1 ∷ []))
    × (length (endpoint_ids_for_machine 2 approved_roster) ≡ 1)
    × ((other : ℕ)
        → 2 ≢ other
        → endpoint_ids_for_machine other approved_roster ≡ endpoint_ids_for_machine other roster)
approve_machine-endpoint_ids_example =
    approve_machine-endpoint_ids 300 2 (txt "10.8.0.2") (txt "root") (1 ∷ []) roster approved_roster
      refl free2 (refl, tt) (tt, tt) approve_machine-ok_example

set_setting-get_setting_example :
    (get_setting (txt "a") (set_setting (txt "a") (txt "2") ((txt "a", txt "1") ∷ []))
      ≡ some (txt "2"))
    × ((other : Text)
        → txt "a" ≢ other
        → get_setting other (set_setting (txt "a") (txt "2") ((txt "a", txt "1") ∷ []))
          ≡ get_setting other ((txt "a", txt "1") ∷ []))
set_setting-get_setting_example =
    set_setting-get_setting (txt "a") (txt "2") ((txt "a", txt "1") ∷ [])
