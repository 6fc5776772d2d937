-- ===== src/Store/Invariant/Links.antt =====
-- Deletes, endpoint links and approvals of internal/store/machines.go, and well-formedness.
use wgroster.Prelude.{
  ℕ, refl, inl, inr, Bool, true, false, ◌&&◌, not, List, [], ◌∷◌, ◌++◌, Text, ◌==◌, any, arith,
  Bool-cases, All-imp, All-append, Apart-append, All-of_any, select, delete, Apart-select,
  All-select, All-select_test, All-and, any-delete,
}
use wgroster.Store.Models.{Machine}
use wgroster.Store.Db.{Db}
use wgroster.Store.Machines.{has_id, has_machine, has_endpoint, set_machine, set_machine_address}
use wgroster.Store.Service.{
  delete_machines, has_link, insert_links, replace_endpoints, activation, assign,
}
use wgroster.Store.Invariant.{SameId, SameKey, SameAddress, SameLink, IsWellFormed}
use wgroster.Store.Invariant.Machines.{
  Ensures, Ensures-bind, set_machine-IsWellFormed, set_machine_address-IsWellFormed,
}

-- Deleting the machines that satisfy a condition keeps the database well formed: their links
-- go with them.
pub delete_machines-IsWellFormed :
    (p : Machine → Bool) (db : Db) → IsWellFormed db → IsWellFormed (delete_machines p db)
delete_machines-IsWellFormed p db w = record {
  machines = record {
    ids = Apart-select SameId (λ m. not (p m)) db.machines w.machines.ids;
    below = All-select _ (λ m. not (p m)) db.machines w.machines.below;
    keys = Apart-select SameKey (λ m. not (p m)) db.machines w.machines.keys;
    addresses = Apart-select SameAddress (λ m. not (p m)) db.machines w.machines.addresses;
  };
  endpoints = w.endpoints;
  links = record {
    unique = Apart-select SameLink _ db.links w.links.unique;
    machine =
        All-imp _ _ (λ l h. any-delete (has_id l.0) p db.machines h.0 (ground (arith, h.1)))
          (delete gone db.links)
          (All-and _ _ (delete gone db.links) (All-select _ _ db.links w.links.machine)
            (All-select_test (λ l. not (gone l)) db.links));
    endpoint = All-select _ _ db.links w.links.endpoint;
  };
}
  where
    gone : ℕ × ℕ → Bool
    gone l = any (λ m. p m && has_id l.0 m) db.machines

delete_links :
    (q : ℕ × ℕ → Bool) (db : Db)
    → IsWellFormed db
    → IsWellFormed (record db { links = select q db.links })
delete_links q db w = record {
  machines = w.machines;
  endpoints = w.endpoints;
  links = record {
    unique = Apart-select SameLink q db.links w.links.unique;
    machine = All-select _ q db.links w.links.machine;
    endpoint = All-select _ q db.links w.links.endpoint;
  };
}

pub insert_links-IsWellFormed :
    (id : ℕ) (eids : List ℕ) (db : Db)
    → IsWellFormed db
    → Ensures IsWellFormed (insert_links id eids db)
unfolding insert_links
insert_links-IsWellFormed id [] db w = w
insert_links-IsWellFormed id (eid ∷ eids) db w = elim (Bool-cases (has_link (id, eid) db.links)) [
  | inl e ↦ rw e tt
  | inr e ↦ elim (Bool-cases (has_machine id db)) [
    | inr f ↦ rw (e, f) tt
    | inl f ↦ elim (Bool-cases (has_endpoint eid db)) [
      | inr k ↦ rw (e, f, k) tt
      | inl k ↦
          rw (e, f, k)
            (insert_links-IsWellFormed id eids (record db { links = db.links ++ (id, eid) ∷ [] })
              (record {
                machines = w.machines;
                endpoints = w.endpoints;
                links = record {
                  unique = Apart-append SameLink db.links _ w.links.unique (
                      All-imp _ _ (λ l h c. ground arith) db.links
                        (All-of_any (λ l. l.0 == id && l.1 == eid) db.links e));
                  machine = All-append _ db.links _ w.links.machine f;
                  endpoint = All-append _ db.links _ w.links.endpoint k;
                };
              }))
    ]
  ]
]

pub replace_endpoints-IsWellFormed :
    (id : ℕ) (eids : List ℕ) (db : Db)
    → IsWellFormed db
    → Ensures IsWellFormed (replace_endpoints id eids db)
unfolding replace_endpoints
replace_endpoints-IsWellFormed id eids db w =
    insert_links-IsWellFormed id eids _ (delete_links _ db w)

activation-IsWellFormed :
    (activate : Bool) (now id : ℕ) (by : Text) (db : Db)
    → IsWellFormed db
    → IsWellFormed (set_machine id (activation activate now by) db)
activation-IsWellFormed true now id by db w =
    set_machine-IsWellFormed id _ db (λ m. refl) (λ m. refl) (λ m. refl) w
activation-IsWellFormed false now id by db w =
    set_machine-IsWellFormed id _ db (λ m. refl) (λ m. refl) (λ m. refl) w

-- An approval or an assignment that commits keeps the database well formed: addresses stay
-- unique, and every link joins a machine and an endpoint that exist.
pub assign-IsWellFormed :
    (now id : ℕ) (address : Text) (eids : List ℕ) (activate : Bool) (by : Text) (db : Db)
    → IsWellFormed db
    → Ensures IsWellFormed (assign now id address eids activate by db)
unfolding assign
assign-IsWellFormed now id address eids activate by db w =
    Ensures-bind IsWellFormed IsWellFormed (set_machine_address id address db) _
      (set_machine_address-IsWellFormed id address db w)
      (λ addressed v.
        replace_endpoints-IsWellFormed id eids _
          (activation-IsWellFormed activate now id by addressed v))
