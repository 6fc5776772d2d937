-- ===== src/Web/Handlers/Machines.antt =====
-- internal/web/admin_handlers.go: what an administrator does with machines.
pub mod Creation
use wgroster.Prelude.{
  ℕ, Bool, not, ◌&&◌, ◌||◌, Option, none, some, List, [], ◌∷◌, Text, txt, text_eq, ◌==◌,
  if◌then◌else◌, length,
}
use wgroster.Strings.{trim_space}
use wgroster.Netip.{Netip}
use wgroster.Ipam.{Pool, validate}
use wgroster.Store.Models.{Machine, disabled, status_eq, normalize_icon}
use wgroster.Store.Db.{Db, Result, ok, err}
use wgroster.Store.Sessions.{Session}
use wgroster.Store.Machines.{NewMachine, get_machine, create_machine, update_machine_identity}
use wgroster.Store.Service.{
  approve_machine, set_machine_assignment, set_machine_disabled, set_machine_active, delete_machine,
  used_addresses, endpoint_ids_for_machine,
}
use wgroster.Wg.Config.{decimal}
use wgroster.Web.Forms.{valid_name, valid_public_key, parse_endpoint_ids}
use wgroster.Web.Conflicts.{conflict_among}
use wgroster.Web.Handlers.{
  Reason, invalid_name, invalid_key, taken, no_endpoint, not_disabled, unassigned, overlapping,
  bad_address, Reply, not_found, server_error, done, refused, MachineForm, audit, without,
  target_of,
}

-- The row that an administrator's form asks for.
abbrev pub asked_machine : MachineForm → NewMachine
asked_machine form = record {
  owner_uid = trim_space form.owner_uid;
  owner_name = [];
  name = trim_space form.name;
  public_key = trim_space form.public_key;
  icon = normalize_icon form.icon;
}

-- The end of both forms: the transaction that gives the address and the endpoints, and its entry in
-- the audit log.
unfoldable pub finish : ℕ → Session → Text → Text → Result Db → Db → Reply × Db
finish now session action target (err e) db = (server_error, db)
finish now session action target (ok saved) db = (done, audit now session action target saved)

-- The assignment of a disabled machine, and the approval of another.
unfoldable pub reassign : ℕ → Session → Machine → MachineForm → Db → Result Db
reassign now session m form db =
    if status_eq m.status disabled
    then set_machine_assignment now m.id (trim_space form.address)
        (parse_endpoint_ids form.endpoint_ids) db
    else approve_machine now m.id (trim_space form.address) (parse_endpoint_ids form.endpoint_ids)
        session.uid db

module _ (netip : Netip) where
  -- The checks that both forms make after those of the names: the first that fails.
  unfoldable pub form_refusal : Pool → List Text → MachineForm → Db → Option Reason
  form_refusal pool used form db =
      if not (valid_public_key (trim_space form.public_key))
      then some invalid_key
      else if length (parse_endpoint_ids form.endpoint_ids) == 0
      then some no_endpoint
      else elim (conflict_among netip (parse_endpoint_ids form.endpoint_ids) none db) [
        | some c ↦ some (overlapping c)
        | none ↦ elim (validate netip pool (trim_space form.address) used) [
          | some r ↦ some (bad_address r)
          | none ↦ none
        ]
      ]

  -- handleAdminCreateMachine. When the approval fails, the new row stays, pending.
  unfoldable pub handle_admin_create_machine : Pool → ℕ → Session → MachineForm → Db → Reply × Db
  unfolding form_refusal finish
  handle_admin_create_machine pool now session form db =
      if not (valid_name (trim_space form.owner_uid)) || not (valid_name (trim_space form.name))
      then (refused invalid_name, db)
      else elim (form_refusal pool (used_addresses db) form db) [
        | some r ↦ (refused r, db)
        | none ↦ elim (create_machine now (asked_machine form) db) [
          | err e ↦ (refused taken, db)
          | ok (id, created) ↦
              finish now session (txt "machine.create")
                (target_of (trim_space form.owner_uid) (trim_space form.name))
                (approve_machine now id (trim_space form.address)
                  (parse_endpoint_ids form.endpoint_ids) session.uid created)
                created
        ]
      ]

  -- handleUpdateMachine, for a machine that exists. When the transaction fails, the name, the key
  -- and the icon stay changed.
  unfoldable pub update_machine : Pool → ℕ → Session → Machine → MachineForm → Db → Reply × Db
  unfolding form_refusal finish reassign
  update_machine pool now session m form db =
      if not (valid_name (trim_space form.name))
      then (refused invalid_name, db)
      else elim (form_refusal pool (without (used_addresses db) m.address) form db) [
        | some r ↦ (refused r, db)
        | none ↦
            elim (update_machine_identity m.id (trim_space form.name) (trim_space form.public_key)
              form.icon db) [
                | err e ↦ (refused taken, db)
                | ok named ↦
                    finish now session (txt "machine.update")
                      (target_of m.owner_uid (trim_space form.name))
                      (reassign now session m form named) named
              ]
      ]

-- The start of the handlers on one machine.
unfoldable pub on_machine : Option ℕ → Db → (Machine → Reply × Db) → Reply × Db
on_machine none db handle = (not_found, db)
on_machine (some id) db handle = elim (get_machine id db) [
  | err e ↦ (not_found, db)
  | ok m ↦ handle m
]

-- handleUpdateMachine.
unfoldable pub handle_update_machine :
    Netip → Pool → ℕ → Session → Option ℕ → MachineForm → Db → Reply × Db
unfolding on_machine update_machine
handle_update_machine netip pool now session id form db =
    on_machine id db (λ m. update_machine netip pool now session m form db)

-- handleDisableMachine.
unfoldable pub disable_machine : ℕ → Session → Machine → Db → Reply × Db
disable_machine now session m db = if status_eq m.status disabled then (done, db) else (
  done,
  audit now session (txt "machine.disable") (target_of m.owner_uid m.name)
      (set_machine_disabled m.id db),
)

unfoldable pub handle_disable_machine : ℕ → Session → Option ℕ → Db → Reply × Db
unfolding on_machine disable_machine
handle_disable_machine now session id db = on_machine id db (λ m. disable_machine now session m db)

-- handleEnableMachine.
unfoldable pub enable_machine : ℕ → Session → Machine → Db → Reply × Db
enable_machine now session m db =
    if not (status_eq m.status disabled)
    then (refused not_disabled, db)
    else if text_eq m.address [] || length (endpoint_ids_for_machine m.id db) == 0
    then (refused unassigned, db)
    else (
      done,
      audit now session (txt "machine.enable") (target_of m.owner_uid m.name)
          (set_machine_active now m.id session.uid db),
    )

unfoldable pub handle_enable_machine : ℕ → Session → Option ℕ → Db → Reply × Db
unfolding on_machine enable_machine
handle_enable_machine now session id db = on_machine id db (λ m. enable_machine now session m db)

-- handleAdminDeleteMachine: deleting a machine that does not exist is no error.
deleted_target : ℕ → Result Machine → Text
deleted_target id (err e) = decimal id
deleted_target id (ok m) = target_of m.owner_uid m.name

unfoldable pub handle_admin_delete_machine : ℕ → Session → Option ℕ → Db → Reply × Db
unfolding deleted_target
handle_admin_delete_machine now session none db = (not_found, db)
handle_admin_delete_machine now session (some id) db = (
  done,
  audit now session (txt "machine.delete") (deleted_target id (get_machine id db))
      (delete_machine id db),
)
