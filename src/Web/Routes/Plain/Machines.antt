-- ===== src/Web/Routes/Plain/Machines.antt =====
-- internal/store/machines.go: the keys and addresses of machines stay without line breaks.
use wgroster.Prelude.{
  ℕ, ◌≡◌, refl, sym, subst, Bool, true, false, List, [], ◌∷◌, Text, any, All, All-append,
  All-update, inl, inr, Bool-cases, Option-cases, ◌&&◌,
}
use wgroster.Strings.{has_char}
use wgroster.Store.Models.{Machine}
use wgroster.Store.Db.{Db, constraint}
use wgroster.Store.Machines.{
  has_id, has_machine, has_key, NewMachine, create_machine, new_row, update_machine_identity,
  update_own_machine, set_machine_address, set_machine, requeue, requeue_if, find_machine,
  key_of_other, address_of_other,
}
use wgroster.Store.Service.{activation, assign, replace_endpoints, insert_links}
use wgroster.Store.Invariant.Machines.{Ensures, Ensures-bind, unless-Ensures}
use wgroster.Wg.Config.Lines.{IsOneLine, IsPlainMachine, IsPlainEndpoint}
use wgroster.Wg.Dump.Lines.{HasPlainKey}

pub record IsPlain (db : Db) : Type 0 where
  pub machines : All IsPlainMachine db.machines
  pub endpoints : All IsPlainEndpoint db.endpoints
  pub reports : All HasPlainKey db.status_peers

-- A change of the machine table alone.
pub on_machines :
    (ms : List Machine) (db db' : Db)
    → db' ≡ record db { machines = ms }
    → All IsPlainMachine ms
    → IsPlain db
    → IsPlain db'
on_machines ms db db' e h p =
    subst IsPlain (sym e) (record { machines = h; endpoints = p.endpoints; reports = p.reports })

pub set_machine-IsPlain :
    (id : ℕ) (g : Machine → Machine) (db : Db)
    → ((m : Machine) → IsPlainMachine m → IsPlainMachine (g m))
    → IsPlain db
    → IsPlain (set_machine id g db)
set_machine-IsPlain id g db h p =
    on_machines _ db _ refl
      (All-update IsPlainMachine IsPlainMachine (has_id id) g (λ m _. h m) (λ m _ k. k) db.machines
        p.machines)
      p

-- A change of other columns.
pub same-IsPlain :
    (g : Machine → Machine)
    → ((m : Machine) → (g m).public_key ≡ m.public_key)
    → ((m : Machine) → (g m).address ≡ m.address)
    → (m : Machine) → IsPlainMachine m
    → IsPlainMachine (g m)
same-IsPlain g k a m h = record { public_key = rw (k m) h.public_key; address = rw (a m) h.address }

pub create_machine-IsPlain :
    (now : ℕ) (n : NewMachine) (db : Db)
    → IsOneLine n.public_key
    → IsPlain db
    → Ensures (λ (r : ℕ × Db). IsPlain r.1) (create_machine now n db)
unfolding create_machine has_char
create_machine-IsPlain now n db k p = elim (Bool-cases (any (has_key n.public_key) db.machines)) [
  | inl e ↦ rw e tt
  | inr e ↦ rw e (record {
    machines =
        All-append IsPlainMachine db.machines (new_row db.next_machine now n) p.machines
          (record { public_key = k; address = refl });
    endpoints = p.endpoints;
    reports = p.reports;
  })
]

pub update_machine_identity-IsPlain :
    (id : ℕ) (name key icon : Text) (db : Db)
    → IsOneLine key
    → IsPlain db
    → Ensures IsPlain (update_machine_identity id name key icon db)
unfolding update_machine_identity
update_machine_identity-IsPlain id name key icon db k p =
    elim (Bool-cases (has_machine id db && any (key_of_other id key) db.machines)) [
      | inl e ↦ rw e tt
      | inr e ↦
          rw e
            (set_machine-IsPlain id _ db (λ m h. record { public_key = k; address = h.address }) p)
    ]

pub set_machine_address-IsPlain :
    (id : ℕ) (address : Text) (db : Db)
    → IsOneLine address
    → IsPlain db
    → Ensures IsPlain (set_machine_address id address db)
unfolding set_machine_address
set_machine_address-IsPlain id address db k p =
    elim (Bool-cases (has_machine id db && any (address_of_other id address) db.machines)) [
      | inl e ↦ rw e tt
      | inr e ↦
          rw e (
            set_machine-IsPlain id _ db (λ m h. record { public_key = h.public_key; address = k })
              p)
    ]

requeue_if-IsPlain :
    (b : Bool) (now id : ℕ) (db : Db) → IsPlain db → IsPlain (requeue_if b now id db)
requeue_if-IsPlain false now id db p = p
requeue_if-IsPlain true now id db p =
    set_machine-IsPlain id (requeue now) db (same-IsPlain (requeue now) (λ m. refl) (λ m. refl)) p

pub update_own_machine-IsPlain :
    (now id : ℕ) (name key icon : Text) (db : Db)
    → IsOneLine key
    → IsPlain db
    → Ensures (λ (r : Bool × Db). IsPlain r.1) (update_own_machine now id name key icon db)
unfolding update_own_machine
update_own_machine-IsPlain now id name key icon db k p = elim (Option-cases (find_machine id db)) [
  | inl e ↦ rw (e, update_own_machine) tt
  | inr (old, e) ↦
      rw (e, update_own_machine)
        (Ensures-bind IsPlain (λ (r : Bool × Db). IsPlain r.1)
          (update_machine_identity id name key icon db) _
          (update_machine_identity-IsPlain id name key icon db k p)
          (λ d h. requeue_if-IsPlain _ now id d h))
]

insert_links-IsPlain :
    (id : ℕ) (eids : List ℕ) (db : Db) → IsPlain db → Ensures IsPlain (insert_links id eids db)
unfolding insert_links
insert_links-IsPlain id [] db p = p
insert_links-IsPlain id (eid ∷ eids) db p =
    unless-Ensures IsPlain _ constraint (insert_links id eids _) (
      insert_links-IsPlain id eids _
        (record { machines = p.machines; endpoints = p.endpoints; reports = p.reports }))

pub replace_endpoints-IsPlain :
    (id : ℕ) (eids : List ℕ) (db : Db) → IsPlain db → Ensures IsPlain (replace_endpoints id eids db)
unfolding replace_endpoints
replace_endpoints-IsPlain id eids db p =
    insert_links-IsPlain id eids _
      (record { machines = p.machines; endpoints = p.endpoints; reports = p.reports })

activation-IsPlain :
    (activate : Bool) (now : ℕ) (by : Text) (m : Machine)
    → IsPlainMachine m
    → IsPlainMachine (activation activate now by m)
activation-IsPlain true now by m h = record { public_key = h.public_key; address = h.address }
activation-IsPlain false now by m h = h

pub assign-IsPlain :
    (now id : ℕ) (address : Text) (eids : List ℕ) (activate : Bool) (by : Text) (db : Db)
    → IsOneLine address
    → IsPlain db
    → Ensures IsPlain (assign now id address eids activate by db)
unfolding assign
assign-IsPlain now id address eids activate by db k p =
    Ensures-bind IsPlain IsPlain (set_machine_address id address db) _
      (set_machine_address-IsPlain id address db k p)
      (λ d h. replace_endpoints-IsPlain id eids _ (
        set_machine-IsPlain id (activation activate now by) d (activation-IsPlain activate now by)
          h))
