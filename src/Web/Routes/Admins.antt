-- ===== src/Web/Routes/Admins.antt =====
-- The writes of the forms of administrators: internal/web/admin_handlers.go and peer_handler.go.
use wgroster.Prelude.{
  ℕ, ◌≡◌, refl, inl, inr, true, false, not, ◌||◌, Option, none, some, List, [], Text, text_eq,
  arith, Bool-cases, Option-cases, txt, length, ◌==◌,
}
use wgroster.Strings.{trim_space}
use wgroster.Netip.{Netip}
use wgroster.Ipam.{Pool, validate}
use wgroster.Store.Models.{Machine, Endpoint, StatusPeer, status_eq}
use wgroster.Store.Models
use wgroster.Store.Db.{Db, Result, ok, err, Result-cases}
use wgroster.Store.Sessions.{Session}
use wgroster.Store.Machines.{create_machine, get_machine, update_machine_identity, has_id}
use wgroster.Store.Service
use wgroster.Store.Service.{
  used_addresses, approve_machine, set_machine_assignment, set_machine_disabled, set_machine_active,
  machine_by_public_key, endpoint_ids_for_machine,
}
use wgroster.Web.Forms.{valid_name, valid_public_key, parse_endpoint_ids}
use wgroster.Web.Forms.Lines.{valid_public_key-IsOneLine}
use wgroster.Web.Conflicts.{conflict_among}
use wgroster.Wg.Config.Lines.{IsOneLine}
use wgroster.Web.Handlers.{Reply, MachineForm, target_of, without}
use wgroster.Web.Handlers.Machines.{
  asked_machine, finish, form_refusal, handle_admin_create_machine, reassign, on_machine,
  handle_update_machine, handle_disable_machine, handle_enable_machine, handle_admin_delete_machine,
  disable_machine, enable_machine,
}
use wgroster.Web.Handlers.Machines
use wgroster.Web.Routes.Users.{Ends, audit-Write, ParsesOneLine, validate-IsOneLine}
use wgroster.Web.Routes.Writes.{
  Actor, staff, Write, stop, one, ◌after◌, created, identified, assigned, enabled, disabled,
  deleted,
}

-- The end of a form: the transaction is one write, and the audit entry another.
pub finish-Writes :
    (now : ℕ) (s : Session) (action target : Text) (r : Result Db) (db : Db)
    → ((d : Db) → r ≡ ok d → Write staff db d)
    → Ends Reply staff db (finish now s action target r db)
unfolding finish
finish-Writes now s action target (err e) db h = stop db
finish-Writes now s action target (ok d) db h =
    one (h d refl) after one (audit-Write now s action target d)

pub on_machine-Writes :
    {a : Actor} (id : Option ℕ) (db : Db) (handle : Machine → Reply × Db)
    → ((m : Machine) → Ends Reply a db (handle m))
    → Ends Reply a db (on_machine id db handle)
unfolding on_machine
on_machine-Writes none db handle h = stop db
on_machine-Writes (some id) db handle h = elim (Result-cases (get_machine id db)) [
  | inr (x, e) ↦ rw (e, on_machine) (stop db)
  | inl (m, e) ↦ rw (e, on_machine) (h m)
]

pub disable_machine-Writes :
    {a : Actor} (now : ℕ) (s : Session) (m : Machine) (db : Db)
    → Ends Reply a db (disable_machine now s m db)
unfolding disable_machine
disable_machine-Writes now s m db = elim (Bool-cases (status_eq m.status Models.disabled)) [
  | inl e ↦ rw (e, disable_machine) (stop db)
  | inr e ↦
      rw (e, disable_machine)
        (one (disabled m.id db)
          after one (
              audit-Write now s (txt "machine.disable") (target_of m.owner_uid m.name)
                (set_machine_disabled m.id db)))
]

pub enable_machine-Writes :
    (now : ℕ) (s : Session) (m : Machine) (db : Db)
    → Ends Reply staff db (enable_machine now s m db)
unfolding enable_machine
enable_machine-Writes now s m db = elim (Bool-cases (not (status_eq m.status Models.disabled))) [
  | inl e ↦ rw (e, enable_machine) (stop db)
  | inr e ↦
      elim (Bool-cases (text_eq m.address [] || length (endpoint_ids_for_machine m.id db) == 0)) [
        | inl f ↦ rw (e, f, enable_machine) (stop db)
        | inr f ↦
            rw (e, f, enable_machine)
              (one (enabled now m.id s.uid db)
                after one (
                    audit-Write now s (txt "machine.enable") (target_of m.owner_uid m.name)
                      (set_machine_active now m.id s.uid db)))
      ]
]

pub delete-Writes :
    (now : ℕ) (s : Session) (id : Option ℕ) (db : Db)
    → Ends Reply staff db (handle_admin_delete_machine now s id db)
unfolding handle_admin_delete_machine Service.delete_machine
delete-Writes now s none db = stop db
delete-Writes now s (some id) db =
    one (deleted (has_id id) db)
    after one (audit-Write now s (txt "machine.delete") _ (Service.delete_machine id db))

module _ (netip : Netip) (plain : ParsesOneLine netip) where
  -- What a form that passes the checks gives.
  form_refusal-none :
      (pool : Pool) (used : List Text) (form : MachineForm) (db : Db)
      → form_refusal netip pool used form db ≡ none
      → (valid_public_key (trim_space form.public_key) ≡ true)
        × (validate netip pool (trim_space form.address) used ≡ none)
  unfolding form_refusal
  form_refusal-none pool used form db h =
      elim (Bool-cases (valid_public_key (trim_space form.public_key))) [
        | inr k ↦ absurd (ground (arith, k))
        | inl k ↦ (
          k,
          elim (Bool-cases (length (parse_endpoint_ids form.endpoint_ids) == 0)) [
            | inl l ↦ absurd (ground (arith, k, l))
            | inr l ↦
                elim (Option-cases
                  (conflict_among netip (parse_endpoint_ids form.endpoint_ids) none db)) [
                    | inr (c, e) ↦ absurd (ground (arith, k, l, e))
                    | inl e ↦
                        elim (Option-cases (validate netip pool (trim_space form.address) used)) [
                          | inl v ↦ v
                          | inr (r, v) ↦ absurd (ground (arith, k, l, e, v))
                        ]
                  ]
          ],
        )
      ]

  reassign-Write :
      (now : ℕ) (s : Session) (m : Machine) (form : MachineForm) (db : Db)
      → IsOneLine (trim_space form.address)
      → (d : Db) → reassign now s m form db ≡ ok d
      → Write staff db d
  unfolding reassign approve_machine set_machine_assignment
  reassign-Write now s m form db k d h = elim (Bool-cases (status_eq m.status Models.disabled)) [
    | inl e ↦
        assigned now m.id (trim_space form.address) (parse_endpoint_ids form.endpoint_ids) false []
          db d k (rw (e, reassign) at h)
    | inr e ↦
        assigned now m.id (trim_space form.address) (parse_endpoint_ids form.endpoint_ids) true
          s.uid db d k (rw (e, reassign) at h)
  ]

  pub admin_create-Writes :
      (pool : Pool) (now : ℕ) (s : Session) (form : MachineForm) (db : Db)
      → Ends Reply staff db (handle_admin_create_machine netip pool now s form db)
  unfolding handle_admin_create_machine approve_machine
  admin_create-Writes pool now s form db =
      elim (Bool-cases
        (not (valid_name (trim_space form.owner_uid)) || not (valid_name (trim_space form.name)))) [
          | inl n ↦ rw (n, handle_admin_create_machine) (stop db)
          | inr n ↦ elim (Option-cases (form_refusal netip pool (used_addresses db) form db)) [
            | inr (r, f) ↦ rw (n, f, handle_admin_create_machine) (stop db)
            | inl f ↦ elim (Result-cases (create_machine now (asked_machine form) db)) [
              | inr (x, g) ↦ rw (n, f, g, handle_admin_create_machine) (stop db)
              | inl ((id, db'), g) ↦
                  let (k, v) = form_refusal-none pool (used_addresses db) form db f in
                  rw (n, f, g, handle_admin_create_machine)
                    (one (
                        created now id (asked_machine form) db db'
                          (valid_public_key-IsOneLine form.public_key k) g)
                      after finish-Writes now s (txt "machine.create")
                          (target_of (trim_space form.owner_uid) (trim_space form.name))
                          (approve_machine now id (trim_space form.address)
                            (parse_endpoint_ids form.endpoint_ids) s.uid db')
                          db'
                          (λ d e.
                            assigned now id (trim_space form.address)
                              (parse_endpoint_ids form.endpoint_ids) true s.uid db' d
                              (validate-IsOneLine netip plain pool (trim_space form.address)
                                (used_addresses db) v)
                              e))
            ]
          ]
        ]

  pub update_machine-Writes :
      (pool : Pool) (now : ℕ) (s : Session) (m : Machine) (form : MachineForm) (db : Db)
      → Ends Reply staff db (Machines.update_machine netip pool now s m form db)
  unfolding Machines.update_machine
  update_machine-Writes pool now s m form db =
      elim (Bool-cases (not (valid_name (trim_space form.name)))) [
        | inl n ↦ rw (n, Machines.update_machine) (stop db)
        | inr n ↦
            elim (Option-cases
              (form_refusal netip pool (without (used_addresses db) m.address) form db)) [
                | inr (r, f) ↦ rw (n, f, Machines.update_machine) (stop db)
                | inl f ↦
                    elim (Result-cases (
                      update_machine_identity m.id (trim_space form.name)
                        (trim_space form.public_key) form.icon db)) [
                          | inr (x, g) ↦ rw (n, f, g, Machines.update_machine) (stop db)
                          | inl (db', g) ↦
                              let (k, v) =
                                form_refusal-none pool (without (used_addresses db) m.address) form
                                  db f in
                              rw (n, f, g, Machines.update_machine)
                                (one (
                                    identified m.id (trim_space form.name)
                                      (trim_space form.public_key) form.icon db db'
                                      (valid_public_key-IsOneLine form.public_key k) g)
                                  after finish-Writes now s (txt "machine.update")
                                      (target_of m.owner_uid (trim_space form.name))
                                      (reassign now s m form db') db'
                                      (reassign-Write now s m form db' (
                                        validate-IsOneLine netip plain pool
                                          (trim_space form.address) _ v)))
                        ]
              ]
      ]
