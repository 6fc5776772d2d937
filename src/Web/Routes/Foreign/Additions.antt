-- ===== src/Web/Routes/Foreign/Additions.antt =====
-- handleAddMachine and handleEnroll (internal/web/machine_handlers.go, enroll_handler.go): the rows that
-- are there stay.
use wgroster.Prelude.{
  ℕ, ◌<◌, ◌≡◌, refl, inl, inr, false, not, ◌||◌, List, [], ◌∷◌, ◌++◌, Text, update, In, In-select,
  All-In, delete, arith, Bool-cases, Option-cases, ◌==◌,
}
use wgroster.Strings.{trim_space}
use wgroster.Store.Models.{Machine, Endpoint}
use wgroster.Store.Db.{Db, ok, Result-cases}
use wgroster.Store.Sessions.{Session}
use wgroster.Store.Machines.{NewMachine, has_id, new_row, create_machine, set_machine_address}
use wgroster.Store.Service
use wgroster.Store.Service.{set_machine_endpoints, used_addresses}
use wgroster.Store.Audit.{add_audit}
use wgroster.Store.Invariant.{IsWellFormed}
use wgroster.Web.Maintenance.Untouched.{In-update_miss}
use wgroster.Web.Handlers.{MachineForm, audit}
use wgroster.Web.Handlers.Devices.{own_machine, at_cap, handle_add_machine}
use wgroster.Web.Handlers.Enroll.{enroll_created, enroll_on, handle_enroll}
use wgroster.Web.Handlers.Enroll.Reservation.{
  create_machine-ok, set_address, set_machine_address-ok, set_machine_endpoints-ok,
}
use wgroster.Web.Routes.WellFormed.{ensured}
use wgroster.Netip.{Netip}
use wgroster.Ipam.{Pool, next_free}
use wgroster.Config.{Config}
use wgroster.Store.Endpoints.{endpoint_by_name}
use wgroster.Web.Forms.{valid_name, valid_public_key}

-- The row stays as it is.
abbrev pub Stays : Machine → Db → Db → Type 0
Stays m db db' = In m db.machines → In m db'.machines

In-append : (m : Machine) (xs ys : List Machine) → In m xs → In m (xs ++ ys)
In-append m [] ys i = absurd i
In-append m (x ∷ xs) ys (inl e) = inl e
In-append m (x ∷ xs) ys (inr i) = inr (In-append m xs ys i)

pub deleted-Stays :
    (m : Machine) (id : ℕ) (db : Db)
    → (In m db.machines → has_id id m ≡ false)
    → Stays m db (Service.delete_machine id db)
unfolding Service.delete_machine
deleted-Stays m id db h i = (In-select (λ x. not (has_id id x)) db.machines m).1 (i, rw (h i) refl)

created-Stays :
    (m : Machine) (now id : ℕ) (n : NewMachine) (db db' : Db)
    → create_machine now n db ≡ ok (id, db')
    → Stays m db db'
created-Stays m now id n db db' e i =
    let (x, r, l) =
      ensured
        (λ (r : ℕ × Db).
          (r.0 ≡ db.next_machine)
          × (r.1.machines ≡ db.machines ++ new_row db.next_machine now n ∷ [])
          × (r.1.links ≡ db.links))
        _ (id, db') e (create_machine-ok now n db) in
    rw r (In-append m db.machines (new_row db.next_machine now n ∷ []) i)

pub add_machine-Stays :
    (m : Machine) (cfg : Config) (now : ℕ) (s : Session) (form : MachineForm) (db : Db)
    → Stays m db (handle_add_machine cfg now s form db).1
unfolding handle_add_machine
add_machine-Stays m cfg now s form db =
    elim (Bool-cases (not (valid_name (trim_space form.name)))) [
      | inl n ↦ rw (n, handle_add_machine) (λ i. i)
      | inr n ↦ elim (Bool-cases (not (valid_public_key (trim_space form.public_key)))) [
        | inl k ↦ rw (n, k, handle_add_machine) (λ i. i)
        | inr k ↦ elim (Bool-cases (at_cap cfg s.uid db)) [
          | inl c ↦ rw (n, k, c, handle_add_machine) (λ i. i)
          | inr c ↦ elim (Result-cases (create_machine now (own_machine s form) db)) [
            | inr (x, e) ↦ rw (n, k, c, e, handle_add_machine) (λ i. i)
            | inl ((id, db'), e) ↦
                rw (n, k, c, e, handle_add_machine)
                  (created-Stays m now id (own_machine s form) db db' e)
          ]
        ]
      ]
    ]

enroll_created-Stays :
    (m : Machine) (now : ℕ) (s : Session) (form : MachineForm) (ep : Endpoint) (address : Text)
    (id : ℕ) (db : Db)
    → has_id id m ≡ false
    → Stays m db (enroll_created now s form ep address id db).1
unfolding enroll_created audit add_audit
enroll_created-Stays m now s form ep address id db n =
    elim (Result-cases (set_machine_address id address db)) [
      | inr (x, e) ↦ rw (e, enroll_created) (deleted-Stays m id db (λ _. n))
      | inl (d, e) ↦ elim (Result-cases (set_machine_endpoints id (ep.id ∷ []) d)) [
        | inr (x, f) ↦ rw (e, f, enroll_created) (addressed d e)
        | inl (l, f) ↦
            rw (e, f, enroll_created)
              (λ i.
                rw
                  (ensured
                    (λ (x : Db).
                      (x.machines ≡ d.machines)
                      × (x.links ≡ delete (λ k. k.0 == id) d.links ++ (id, ep.id) ∷ []))
                    _ l f (set_machine_endpoints-ok id ep.id d)).0
                  (addressed d e i))
      ]
    ]
  where
    addressed : (d : Db) → set_machine_address id address db ≡ ok d → Stays m db d
    addressed d e i =
        rw
          (ensured
            (λ (d : Db).
              (d.machines ≡ update (has_id id) (set_address address) db.machines)
              × (d.links ≡ db.links))
            _ d e (set_machine_address-ok id address db)).0
          (In-update_miss (has_id id) (set_address address) m db.machines n i)

enroll_on-Stays :
    (m : Machine) (netip : Netip) (cfg : Config) (pool : Pool) (now : ℕ) (s : Session)
    (form : MachineForm) (ep : Endpoint) (db : Db)
    → IsWellFormed db
    → Stays m db (enroll_on netip cfg pool now s form ep db).1
unfolding enroll_on
enroll_on-Stays m netip cfg pool now s form ep db w = elim (Bool-cases (at_cap cfg s.uid db)) [
  | inl c ↦ rw (c, enroll_on) (λ i. i)
  | inr c ↦ elim (Option-cases (next_free netip pool (used_addresses db))) [
    | inl f ↦ rw (c, f, enroll_on) (λ i. i)
    | inr (address, f) ↦ elim (Result-cases (create_machine now (own_machine s form) db)) [
      | inr (x, g) ↦ rw (c, f, g, enroll_on) (λ i. i)
      | inl ((id, db'), g) ↦
          rw (c, f, g, enroll_on)
            (λ i.
              enroll_created-Stays m now s form ep address id db' (fresh id db' g i)
                (created-Stays m now id (own_machine s form) db db' g i))
    ]
  ]
]
  where
    fresh :
        (id : ℕ) (db' : Db)
        → create_machine now (own_machine s form) db ≡ ok (id, db')
        → In m db.machines
        → has_id id m ≡ false
    fresh id db' g i =
        let (x, r, l) =
          ensured
            (λ (r : ℕ × Db).
              (r.0 ≡ db.next_machine)
              × (r.1.machines
                  ≡ db.machines ++ new_row db.next_machine now (own_machine s form) ∷ [])
              × (r.1.links ≡ db.links))
            _ (id, db') g (create_machine-ok now (own_machine s form) db) in
        let low = All-In (λ (n : Machine). n.id < db.next_machine) db.machines w.machines.below i in
        ground (arith, x, low)

pub enroll-Stays :
    (m : Machine) (netip : Netip) (cfg : Config) (pool : Pool) (now : ℕ) (s : Session)
    (form : MachineForm) (db : Db)
    → IsWellFormed db
    → Stays m db (handle_enroll netip cfg pool now s form db).1
unfolding handle_enroll
enroll-Stays m netip cfg pool now s form db w = elim (Bool-cases (not cfg.self_enroll)) [
  | inl o ↦ rw (o, handle_enroll) (λ i. i)
  | inr o ↦
      elim (Bool-cases (
        not (valid_name (trim_space form.name))
        || not (valid_public_key (trim_space form.public_key)))) [
          | inl v ↦ rw (o, v, handle_enroll) (λ i. i)
          | inr v ↦ elim (Result-cases (endpoint_by_name cfg.self_enroll_endpoint db)) [
            | inr (x, e) ↦ rw (o, v, e, handle_enroll) (λ i. i)
            | inl (ep, e) ↦
                rw (o, v, e, handle_enroll) (enroll_on-Stays m netip cfg pool now s form ep db w)
          ]
        ]
]
