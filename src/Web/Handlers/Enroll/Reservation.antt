-- ===== src/Web/Handlers/Enroll/Reservation.antt =====
-- internal/web/enroll_handler.go: what a self-enrollment that succeeds reserves.
use wgroster.Prelude.{
  ◌⊎◌, ◌<◌, ltb, leb, ◌&&◌, ℕ, ◌≡◌, refl, sym, ap, subst, ◌∙◌, inl, inr, false, not, ◌||◌, some,
  List, [], ◌∷◌, ◌++◌, Text, delete, ◌==◌, update, any, update-last, arith, Bool-cases,
  Option-cases,
}
use wgroster.Strings.{trim_space}
use wgroster.Netip.{Netip}
use wgroster.Ipam.{Pool, next_free}
use wgroster.Config.{Config}
use wgroster.Store.Models.{Machine, Endpoint}
use wgroster.Store.Db.{Db, constraint, ok, Result-cases}
use wgroster.Store.Sessions.{Session}
use wgroster.Store.Machines.{
  count_pending_by_owner, NewMachine, has_id, has_key, new_row, create_machine, set_machine_address,
}
use wgroster.Store.Service.{set_machine_endpoints, insert_links, used_addresses}
use wgroster.Store.Audit.{add_audit}
use wgroster.Store.Invariant.Machines.{Ensures, unless-Ensures}
use wgroster.Web.Routes.WellFormed.{ensured}
use wgroster.Store.Endpoints.{endpoint_by_name}
use wgroster.Web.Forms.{valid_name, valid_public_key}
use wgroster.Web.Handlers.{Reply, MachineForm, audit}
use wgroster.Web.Handlers.Devices.{own_machine, at_cap}
use wgroster.Web.Handlers.Enroll.{
  EnrollResponse, EnrollReply, enroll_refused, enrolled, enroll_response, enroll_created, enroll_on,
  handle_enroll,
}

-- A self-enrollment that succeeded: the endpoint of the configuration, the lowest free address, and
-- the new row with this address and a link to this endpoint alone.
pub record IsReserved (netip : Netip) (cfg : Config) (pool : Pool) (now : ℕ) (s : Session)
    (form : MachineForm) (db : Db) (response : EnrollResponse) (db' : Db) : Type 0 where
  pub endpoint : Endpoint
  pub found : endpoint_by_name cfg.self_enroll_endpoint db ≡ ok endpoint
  pub under_cap :
      (cfg.max_pending_per_user ≡ 0) ⊎ (count_pending_by_owner s.uid db < cfg.max_pending_per_user)
  pub address : Text
  pub next : next_free netip pool (used_addresses db) ≡ some address
  pub answer : response ≡ enroll_response address endpoint
  pub rows :
      db'.machines
      ≡ db.machines
        ++ record (new_row db.next_machine now (own_machine s form)) { address = address } ∷ []
  pub links :
      db'.links
      ≡ delete (λ l. l.0 == db.next_machine) db.links ++ (db.next_machine, endpoint.id) ∷ []

unfoldable pub set_address : Text → Machine → Machine
set_address address m = record m { address = address }

pub set_machine_address-ok :
    (id : ℕ) (address : Text) (db : Db)
    → Ensures
        (λ (d : Db).
          (d.machines ≡ update (has_id id) (set_address address) db.machines)
          × (d.links ≡ db.links))
        (set_machine_address id address db)
unfolding set_machine_address set_address
set_machine_address-ok id address db =
    unless-Ensures
      (λ (d : Db).
        (d.machines ≡ update (has_id id) (set_address address) db.machines) × (d.links ≡ db.links))
      _ constraint (ok _) (refl, refl)

pub set_machine_endpoints-ok :
    (id eid : ℕ) (db : Db)
    → Ensures
        (λ (d : Db).
          (d.machines ≡ db.machines)
          × (d.links ≡ delete (λ l. l.0 == id) db.links ++ (id, eid) ∷ []))
        (set_machine_endpoints id (eid ∷ []) db)
unfolding set_machine_endpoints insert_links
set_machine_endpoints-ok id eid db =
    unless-Ensures
      (λ (d : Db).
        (d.machines ≡ db.machines) × (d.links ≡ delete (λ l. l.0 == id) db.links ++ (id, eid) ∷ []))
      _ constraint (ok _) (refl, refl)

pub create_machine-ok :
    (now : ℕ) (n : NewMachine) (db : Db)
    → Ensures
        (λ (r : ℕ × Db).
          (r.0 ≡ db.next_machine)
          × (r.1.machines ≡ db.machines ++ new_row db.next_machine now n ∷ [])
          × (r.1.links ≡ db.links))
        (create_machine now n db)
unfolding create_machine
create_machine-ok now n db = elim (Bool-cases (any (has_key n.public_key) db.machines)) [
  | inl e ↦ rw e tt
  | inr e ↦ rw e (refl, refl, refl)
]

abbrev response_of : EnrollResponse → EnrollReply → EnrollResponse
response_of d (enroll_refused r) = d
response_of d (enrolled r) = r

abbrev IsEnrolled : EnrollReply → Type 0
IsEnrolled (enroll_refused r) = ⊥
IsEnrolled (enrolled r) = Unit

-- The part after the row is created, when it succeeds.
enroll_created-ok :
    (now : ℕ) (s : Session) (form : MachineForm) (ep : Endpoint) (address : Text) (id : ℕ) (db : Db)
    (response : EnrollResponse) (db' : Db)
    → enroll_created now s form ep address id db ≡ (enrolled response, db')
    → (response ≡ enroll_response address ep)
      × (db'.machines ≡ update (has_id id) (set_address address) db.machines)
      × (db'.links ≡ delete (λ l. l.0 == id) db.links ++ (id, ep.id) ∷ [])
unfolding enroll_created audit add_audit
enroll_created-ok now s form ep address id db response db' h =
    elim (Result-cases (set_machine_address id address db)) [
      | inr (x, e) ↦ absurd (
          subst IsEnrolled (ap (λ (r : EnrollReply × Db). r.0) (sym (rw (e, enroll_created) at h)))
            tt)
      | inl (d, e) ↦ elim (Result-cases (set_machine_endpoints id (ep.id ∷ []) d)) [
        | inr (x, f) ↦ absurd (
            subst IsEnrolled
              (ap (λ (r : EnrollReply × Db). r.0) (sym (rw (e, f, enroll_created) at h))) tt)
        | inl (l, f) ↦
            let k = rw (e, f, enroll_created) at h in
            let (m, n) =
              ensured
                (λ (d : Db).
                  (d.machines ≡ update (has_id id) (set_address address) db.machines)
                  × (d.links ≡ db.links))
                _ d e (set_machine_address-ok id address db) in
            let (u, v) =
              ensured
                (λ (x : Db).
                  (x.machines ≡ d.machines)
                  × (x.links ≡ delete (λ l. l.0 == id) d.links ++ (id, ep.id) ∷ []))
                _ l f (set_machine_endpoints-ok id ep.id d) in
            (
              ap (λ (r : EnrollReply × Db). response_of response r.0) (sym k),
              ap (λ (r : EnrollReply × Db). r.1.machines) (sym k) ∙ u ∙ m,
              ap (λ (r : EnrollReply × Db). r.1.links) (sym k)
                  ∙ v
                  ∙ ap (λ ls. delete (λ (l : ℕ × ℕ). l.0 == id) ls ++ (id, ep.id) ∷ []) n,
            )
      ]
    ]

addressed_last :
    (address : Text) (m : Machine) (ms : List Machine)
    → any (has_id m.id) ms ≡ false
    → update (has_id m.id) (set_address address) (ms ++ m ∷ [])
      ≡ ms ++ record m { address = address } ∷ []
unfolding set_address
addressed_last address m ms n =
    update-last (has_id m.id) (set_address address) ms m n (ground arith)

not_enrolled :
    (r : Reply) (db db' : Db) (response : EnrollResponse)
    → ¬ (◌≡◌ {A = EnrollReply × Db} (enroll_refused r, db) (enrolled response, db'))
not_enrolled r db db' response h = subst IsEnrolled (ap (λ (x : EnrollReply × Db). x.0) (sym h)) tt

under : (cap n : ℕ) → (ltb 0 cap && leb cap n) ≡ false → (cap ≡ 0) ⊎ (n < cap)
under cap n h = ground arith

module _ (netip : Netip) where
  enroll_on-IsReserved :
      (cfg : Config) (pool : Pool) (now : ℕ) (s : Session) (form : MachineForm) (ep : Endpoint)
      (db : Db) (response : EnrollResponse) (db' : Db)
      → any (has_id db.next_machine) db.machines ≡ false
      → endpoint_by_name cfg.self_enroll_endpoint db ≡ ok ep
      → enroll_on netip cfg pool now s form ep db ≡ (enrolled response, db')
      → IsReserved netip cfg pool now s form db response db'
  unfolding enroll_on
  enroll_on-IsReserved cfg pool now s form ep db response db' new found h =
      elim (Bool-cases (at_cap cfg s.uid db)) [
        | inl c ↦ absurd (not_enrolled _ db db' response (rw (c, enroll_on) at h))
        | inr c ↦ elim (Option-cases (next_free netip pool (used_addresses db))) [
          | inl f ↦ absurd (not_enrolled _ db db' response (rw (c, f, enroll_on) at h))
          | inr (address, f) ↦ elim (Result-cases (create_machine now (own_machine s form) db)) [
            | inr (x, g) ↦ absurd (not_enrolled _ db db' response (rw (c, f, g, enroll_on) at h))
            | inl ((id, created), g) ↦
                let (i, m, l) =
                  ensured
                    (λ (r : ℕ × Db).
                      (r.0 ≡ db.next_machine)
                      × (r.1.machines
                          ≡ db.machines ++ new_row db.next_machine now (own_machine s form) ∷ [])
                      × (r.1.links ≡ db.links))
                    _ (id, created) g (create_machine-ok now (own_machine s form) db) in
                let (a, u, v) =
                  enroll_created-ok now s form ep address id created response db'
                    (rw (c, f, g, enroll_on) at h) in
                record {
                  endpoint = ep;
                  found = found;
                  under_cap = under cfg.max_pending_per_user (count_pending_by_owner s.uid db) c;
                  address = address;
                  next = f;
                  answer = a;
                  rows =
                      u
                      ∙ ap (λ n. update (has_id n) (set_address address) created.machines) i
                      ∙ ap (update (has_id db.next_machine) (set_address address)) m
                      ∙ addressed_last address (new_row db.next_machine now (own_machine s form))
                          db.machines new;
                  links =
                      v
                      ∙ ap (λ n. delete (λ (k : ℕ × ℕ). k.0 == n) created.links ++ (n, ep.id) ∷ [])
                          i
                      ∙ ap
                          (λ ls.
                            delete (λ (k : ℕ × ℕ). k.0 == db.next_machine) ls
                            ++ (db.next_machine, ep.id) ∷ [])
                          l;
                }
          ]
        ]
      ]

  -- When handleEnroll enrolls a machine and no machine has the next id, the configured endpoint
  -- exists, the owner had fewer pending machines than the cap or the cap is 0, the address is
  -- what NextFree proposed, and the new state has the pending row with that address as the last
  -- machine, linked to that endpoint alone; the answer says so.
  pub handle_enroll-IsReserved :
      (cfg : Config) (pool : Pool) (now : ℕ) (s : Session) (form : MachineForm) (db : Db)
      (response : EnrollResponse) (db' : Db)
      → any (has_id db.next_machine) db.machines ≡ false
      → handle_enroll netip cfg pool now s form db ≡ (enrolled response, db')
      → IsReserved netip cfg pool now s form db response db'
  unfolding handle_enroll
  handle_enroll-IsReserved cfg pool now s form db response db' new h =
      elim (Bool-cases (not cfg.self_enroll)) [
        | inl o ↦ absurd (not_enrolled _ db db' response (rw (o, handle_enroll) at h))
        | inr o ↦
            elim (Bool-cases (
              not (valid_name (trim_space form.name))
              || not (valid_public_key (trim_space form.public_key)))) [
                | inl v ↦ absurd (not_enrolled _ db db' response (rw (o, v, handle_enroll) at h))
                | inr v ↦ elim (Result-cases (endpoint_by_name cfg.self_enroll_endpoint db)) [
                  | inr (x, e) ↦
                      absurd (not_enrolled _ db db' response (rw (o, v, e, handle_enroll) at h))
                  | inl (ep, e) ↦
                      enroll_on-IsReserved cfg pool now s form ep db response db' new e
                        (rw (o, v, e, handle_enroll) at h)
                ]
              ]
      ]
