-- ===== src/Web/Handlers/Machines/Creation.antt =====
-- internal/web/admin_handlers.go: how handleAdminCreateMachine ends.
use wgroster.Prelude.{
  some, ℕ, suc, ◌≡◌, refl, inl, inr, true, false, not, ◌||◌, none, [], ◌∷◌, ◌++◌, Text, txt, ◌==◌,
  any, All, Distinct, update-last, any-last, none-last, arith, Bool-cases, Option-cases,
}
use wgroster.Strings.{trim_space}
use wgroster.Netip.{Netip}
use wgroster.Ipam.{Pool}
use wgroster.Store.Models.{Machine, active, normalize_icon}
use wgroster.Store.Db.{Db, Result, ok, err, Result-cases}
use wgroster.Store.Sessions.{Session}
use wgroster.Store.Machines.{
  create_machine, new_row, has_id, has_key, has_endpoint, address_of_other,
}
use wgroster.Store.Service.{used_addresses, approve_machine}
use wgroster.Store.Approval.{approved, approve_machine-ok}
use wgroster.Store.Audit.{add_audit}
use wgroster.Web.Forms.{valid_name, parse_endpoint_ids}
use wgroster.Web.Handlers.{Reply, done, server_error, MachineForm, audit, target_of}
use wgroster.Web.Handlers.Machines.{
  asked_machine, finish, form_refusal, handle_admin_create_machine,
}

-- What each answer means for the database.
abbrev pub Ending : ℕ → Session → MachineForm → Db → Reply → Db → Type 0
Ending now s form db done db' =
    (id : ℕ) × (created : Db) × (saved : Db) × (create_machine now (asked_machine form) db
      ≡ ok (id, created))
    × (approve_machine now id (trim_space form.address) (parse_endpoint_ids form.endpoint_ids) s.uid
          created
        ≡ ok saved)
    × (db'
        ≡ audit now s (txt "machine.create")
            (target_of (trim_space form.owner_uid) (trim_space form.name)) saved)
Ending now s form db server_error db' =
    (id : ℕ) × (create_machine now (asked_machine form) db ≡ ok (id, db'))
Ending now s form db _ db' = db' ≡ db

finish-Ending :
    (now : ℕ) (s : Session) (form : MachineForm) (db created : Db) (id : ℕ) (r : Result Db)
    → create_machine now (asked_machine form) db ≡ ok (id, created)
    → approve_machine now id
        (trim_space form.address)
        (parse_endpoint_ids form.endpoint_ids)
        s.uid
        created
      ≡ r
    → let x =
        finish now s
          (txt "machine.create")
          (target_of (trim_space form.owner_uid) (trim_space form.name))
          r
          created in
      Ending now s form db x.0 x.1
unfolding finish
finish-Ending now s form db created id (ok saved) c a = (id, created, saved, c, a, refl)
finish-Ending now s form db created id (err e) c a = (id, c)

-- The row that an approval of the new row leaves.
abbrev pub approved_row : ℕ → Session → MachineForm → Db → Machine
approved_row now s form db = record {
  id = db.next_machine;
  owner_uid = trim_space form.owner_uid;
  owner_name = [];
  name = trim_space form.name;
  public_key = trim_space form.public_key;
  address = trim_space form.address;
  status = active;
  icon = normalize_icon (normalize_icon form.icon);
  created_at = now;
  approved_at = some now;
  approved_by = s.uid;
  pending_since = now;
  last_seen = 0;
  dormant_since = 0;
}

own_address :
    (id : ℕ) (address : Text) (m : Machine) → m.id ≡ id → address_of_other id address m ≡ false
own_address id address m h = elim (Bool-cases (m.id == id)) [
  | inl e ↦ rw e refl
  | inr e ↦ absurd (ground (arith, e, h))
]

module _ (netip : Netip) where
  -- What each answer of handleAdminCreateMachine means: done, that the machine was created and
  -- approved and the audit log has an entry; a server error, that the machine was created and
  -- stays, not approved; every other answer, that the database is as it was.
  pub handle_admin_create_machine-Ending :
      (pool : Pool) (now : ℕ) (s : Session) (form : MachineForm) (db : Db)
      → let x = handle_admin_create_machine netip pool now s form db in Ending now s form db x.0 x.1
  unfolding handle_admin_create_machine
  handle_admin_create_machine-Ending pool now s form db =
      elim (Bool-cases
        (not (valid_name (trim_space form.owner_uid)) || not (valid_name (trim_space form.name)))) [
          | inl n ↦ rw (n, handle_admin_create_machine) refl
          | inr n ↦ elim (Option-cases (form_refusal netip pool (used_addresses db) form db)) [
            | inr (r, f) ↦ rw (n, f, handle_admin_create_machine) refl
            | inl f ↦ elim (Result-cases (create_machine now (asked_machine form) db)) [
              | inr (x, g) ↦ rw (n, f, g, handle_admin_create_machine) refl
              | inl ((id, created), g) ↦
                  rw (n, f, g, handle_admin_create_machine)
                    (finish-Ending now s form db created id _ g refl)
            ]
          ]
        ]

  -- handleAdminCreateMachine with valid names, a form that is not refused, a key, an id and an
  -- address that no machine has, and distinct endpoints that exist, succeeds, and appends one
  -- row to the machines: active, approved now by the session's user, with the owner, the name,
  -- the key and the address of the form.
  pub handle_admin_create_machine-done :
      (pool : Pool) (now : ℕ) (s : Session) (form : MachineForm) (db : Db)
      → valid_name (trim_space form.owner_uid) ≡ true
      → valid_name (trim_space form.name) ≡ true
      → form_refusal netip pool (used_addresses db) form db ≡ none
      → any (has_key (trim_space form.public_key)) db.machines ≡ false
      → any (has_id db.next_machine) db.machines ≡ false
      → any (address_of_other db.next_machine (trim_space form.address)) db.machines ≡ false
      → All (λ eid. has_endpoint eid db ≡ true) (parse_endpoint_ids form.endpoint_ids)
      → Distinct (parse_endpoint_ids form.endpoint_ids)
      → (handle_admin_create_machine netip pool now s form db).0 ≡ done
        × ((handle_admin_create_machine netip pool now s form db).1.machines
            ≡ db.machines ++ approved_row now s form db ∷ [])
  unfolding handle_admin_create_machine create_machine finish audit add_audit
  handle_admin_create_machine-done pool now s form db o n f k i a e d =
      let row = new_row db.next_machine now (asked_machine form) in
      let created : Db = record db {
        machines = db.machines ++ row ∷ [];
        next_machine = suc db.next_machine;
      } in
      let approval =
        approve_machine-ok now db.next_machine (trim_space form.address) s.uid
          (parse_endpoint_ids form.endpoint_ids) created
          (any-last (has_id db.next_machine) db.machines row (ground arith))
          (none-last (address_of_other db.next_machine (trim_space form.address)) db.machines row a
            (own_address db.next_machine (trim_space form.address) row refl))
          e d in
      rw (o, n, f, k, approval, handle_admin_create_machine)
        (
          refl,
          update-last (has_id db.next_machine) (approved now (trim_space form.address) s.uid)
              db.machines row i (ground arith),
        )
