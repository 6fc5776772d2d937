-- ===== src/Web/Routes/Foreign.antt =====
-- internal/web/machine_handlers.go and enroll_handler.go: what a user's request leaves of the
-- machines of others.
mod Additions
use wgroster.Prelude.{
  ℕ, ◌<◌, ◌≡◌, ◌≢◌, refl, sym, ap, subst, ◌∙◌, inl, inr, Bool, false, not, ◌||◌, Option, none, some,
  List, [], ◌∷◌, ◌++◌, Text, text_eq→eq, update, first, In, In-select, All-In, delete, arith,
  Bool-cases, Option-cases, ◌==◌,
}
use wgroster.Strings.{trim_space}
use wgroster.Store.Models.{Machine, Endpoint}
use wgroster.Store.Db.{Db, ok, Result-cases}
use wgroster.Store.Sessions.{Session}
use wgroster.Store.Machines.{
  NewMachine, has_id, new_row, create_machine, get_machine, find_machine, update_own_machine,
  set_machine_address,
}
use wgroster.Store.Service
use wgroster.Store.Service.{set_machine_endpoints, used_addresses}
use wgroster.Store.Audit.{add_audit}
use wgroster.Store.Reviewed.{first_unique, update_own_machine-ok, own_edit, needs_review}
use wgroster.Store.Invariant.{IsWellFormed}
use wgroster.Web.Maintenance.Untouched.{In-update_miss}
use wgroster.Web.Handlers.{Reply, forbidden, MachineForm, audit}
use wgroster.Web.Handlers.Devices
use wgroster.Web.Handlers.Devices.{
  own_machine, at_cap, may_manage, on_managed, handle_add_machine, handle_edit_machine,
  handle_delete_machine,
}
use wgroster.Web.Handlers.Enroll.{enroll_created, enroll_on, handle_enroll}
use wgroster.Web.Handlers.Enroll.Reservation.{
  create_machine-ok, set_address, set_machine_address-ok, set_machine_endpoints-ok,
}
use wgroster.Web.Routes.WellFormed.{ensured}
use wgroster.Netip.{Netip}
use wgroster.Ipam.{Pool, next_free}
use wgroster.Config.{Config}
use wgroster.Store.Endpoints.{endpoint_by_name}
use wgroster.Web.Routes.{
  Server, UserRoute, add_machine, enroll, edit_machine, delete_machine, serve_user,
}
use wgroster.Web.Routes.Users.{either_way}
use wgroster.Web.Forms.{valid_name, valid_public_key}
use wgroster.Web.Routes.Foreign.Additions.{Stays, deleted-Stays, add_machine-Stays, enroll-Stays}

other_id :
    (m n : Machine) (db : Db)
    → IsWellFormed db
    → find_machine n.id db ≡ some n
    → In m db.machines
    → m ≢ n
    → has_id n.id m ≡ false
other_id m n db w f i ne = elim (Bool-cases (has_id n.id m)) [
  | inr e ↦ e
  | inl e ↦ absurd (ne (first_unique n.id db.machines n m w.machines.ids f i (ground arith)))
]

found_id : (id : ℕ) (n : Machine) (ms : List Machine) → first (has_id id) ms ≡ some n → n.id ≡ id
found_id id n [] h = cc
found_id id n (x ∷ xs) h = ground (arith, found_id id n xs)

-- The handlers of one machine reach a machine of the session only, if the session is no
-- administrator's.
on_managed-Stays :
    (m : Machine) (s : Session) (id : Option ℕ) (db : Db) (handle : Machine → Reply × Db)
    → s.admin ≡ false
    → m.owner_uid ≢ s.uid
    → IsWellFormed db
    → ((n : Machine) → (In m db.machines → has_id n.id m ≡ false) → Stays m db (handle n).1)
    → Stays m db (on_managed s id db handle).1
unfolding on_managed get_machine
on_managed-Stays m s none db handle a o w h = λ i. i
on_managed-Stays m s (some id) db handle a o w h = elim (Option-cases (find_machine id db)) [
  | inl e ↦ rw (e, on_managed) (λ i. i)
  | inr (n, e) ↦
      rw (e, on_managed)
        (either_way (λ (x : Reply × Db). Stays m db x.1) (not (may_manage s n)) (forbidden, db)
          (handle n) (λ _ i. i)
          (λ q. h n (λ i.
            other_id m n db w
              (subst (λ k. find_machine k db ≡ some n) (sym (found_id id n db.machines e)) e) i
              (λ same. o (ap (λ (x : Machine). x.owner_uid) same ∙ owned n q)))))
]
  where
    owned : (n : Machine) → not (may_manage s n) ≡ false → n.owner_uid ≡ s.uid
    owned n q = text_eq→eq n.owner_uid s.uid (ground (arith, a, q))

edit_machine-Stays :
    (m : Machine) (now : ℕ) (s : Session) (n : Machine) (form : MachineForm) (db : Db)
    → (In m db.machines → has_id n.id m ≡ false)
    → Stays m db (Devices.edit_machine now s n form db).1
unfolding Devices.edit_machine audit add_audit
edit_machine-Stays m now s n form db h =
    elim (Bool-cases (not (valid_name (trim_space form.name)))) [
      | inl v ↦ rw (v, Devices.edit_machine) (λ i. i)
      | inr v ↦ elim (Bool-cases (not (valid_public_key (trim_space form.public_key)))) [
        | inl k ↦ rw (v, k, Devices.edit_machine) (λ i. i)
        | inr k ↦
            elim (Result-cases (
              update_own_machine now n.id (trim_space form.name) (trim_space form.public_key)
                form.icon db)) [
                  | inr (x, e) ↦ rw (v, k, e, Devices.edit_machine) (λ i. i)
                  | inl ((r, db'), e) ↦
                      rw (v, k, e, Devices.edit_machine)
                        (either_way (Stays m db) r _ db' (λ _. kept r db' e) (λ _. kept r db' e))
                ]
      ]
    ]
  where
    kept :
        (r : Bool) (db' : Db)
        → update_own_machine now n.id
            (trim_space form.name)
            (trim_space form.public_key)
            form.icon
            db
          ≡ ok (r, db')
        → Stays m db db'
    kept r db' e i =
        let (old, f, g) =
          update_own_machine-ok now n.id (trim_space form.name) (trim_space form.public_key)
            form.icon db r db' e in
        subst (λ (d : Db). In m d.machines) g
          (In-update_miss (has_id n.id)
            (own_edit (needs_review (trim_space form.public_key) old) now (trim_space form.name)
              (trim_space form.public_key) form.icon)
            m db.machines (h i) i)

-- In a well-formed database, a request to a user route by a session that is not an admin's
-- keeps every machine row of another owner.
pub serve_user-foreign :
    (srv : Server) (now : ℕ) (s : Session) (route : UserRoute) (db : Db) (m : Machine)
    → IsWellFormed db
    → s.admin ≡ false
    → m.owner_uid ≢ s.uid
    → In m db.machines
    → In m (serve_user srv now s route db).machines
unfolding serve_user handle_edit_machine handle_delete_machine audit add_audit
serve_user-foreign srv now s (add_machine form) db m w a o =
    add_machine-Stays m srv.cfg now s form db
serve_user-foreign srv now s (enroll form) db m w a o =
    enroll-Stays m srv.netip srv.cfg srv.pool now s form db w
serve_user-foreign srv now s (edit_machine id form) db m w a o =
    on_managed-Stays m s id db _ a o w (λ n h. edit_machine-Stays m now s n form db h)
serve_user-foreign srv now s (delete_machine id) db m w a o =
    on_managed-Stays m s id db _ a o w (λ n h. deleted-Stays m n.id db h)
