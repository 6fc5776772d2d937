-- ===== src/Store/Invariant/Machines.antt =====
-- The functions of internal/store/machines.go over one machine, and well-formedness.
use wgroster.Prelude.{
  if◌then◌else◌, ℕ, ◌≡◌, refl, ◌∙◌, inl, inr, Bool, true, false, List, [], ◌∷◌, Text, update, any,
  Apart, arith, Bool-cases, Option-cases, All-imp, All-append, All-update, Apart-append,
  Apart-update_keep, Apart-update_set, All-of_any, any-update, any-append, update-none,
}
use wgroster.Store.Models.{Machine}
use wgroster.Store.Db.{Db, DbError, Result, ok, err, ◌>>=◌}
use wgroster.Store.Machines.{
  NewMachine, has_id, has_key, key_of_other, address_of_other, has_machine, set_machine,
  create_machine, update_machine_identity, update_own_machine, requeue_if, requeue,
  set_machine_address, find_machine,
}
use wgroster.Store.Invariant.{SameId, SameKey, SameAddress, IsLinkTable, IsWellFormed}

-- What a Result must satisfy if it is not an error.
abbrev pub Ensures {ℓ κ} : {A : Type ℓ} → (A → Type κ) → Result A → Type κ
Ensures P (ok a) = P a
Ensures P (err e) = Unit

links_under_update :
    (id : ℕ) (g : Machine → Machine) (db : Db)
    → ((m : Machine) → (g m).id ≡ m.id)
    → IsLinkTable db.links db.machines db.endpoints
    → IsLinkTable db.links (update (has_id id) g db.machines) db.endpoints
links_under_update id g db gid l = record {
  unique = l.unique;
  machine =
      All-imp _ _
        (λ k h. any-update (has_id k.0) (has_id id) g (λ m. ground (arith, gid m)) db.machines ∙ h)
        db.links l.machine;
  endpoint = l.endpoint;
}

-- An update of a machine that leaves its id, key and address alone.
pub set_machine-IsWellFormed :
    (id : ℕ) (g : Machine → Machine) (db : Db)
    → ((m : Machine) → (g m).id ≡ m.id)
    → ((m : Machine) → (g m).public_key ≡ m.public_key)
    → ((m : Machine) → (g m).address ≡ m.address)
    → IsWellFormed db
    → IsWellFormed (set_machine id g db)
set_machine-IsWellFormed id g db gid gkey gaddr w = record {
  machines = record {
    ids =
        Apart-update_keep SameId (has_id id) g (λ x y. ground (arith, gid x, gid y)) db.machines
          w.machines.ids;
    below =
        All-update _ _ (has_id id) g (λ m _ h. rw gid h) (λ m _ h. h) db.machines w.machines.below;
    keys =
        Apart-update_keep SameKey (has_id id) g (λ x y. ground (arith, gkey x, gkey y)) db.machines
          w.machines.keys;
    addresses =
        Apart-update_keep SameAddress (has_id id) g (λ x y. ground (arith, gaddr x, gaddr y))
          db.machines w.machines.addresses;
  };
  endpoints = w.endpoints;
  links = links_under_update id g db gid w.links;
}

one_has_id :
    (id : ℕ) (ms : List Machine)
    → Apart SameId ms
    → Apart (λ x y. (has_id id x ≡ true) × (has_id id y ≡ true)) ms
one_has_id id [] h = tt
one_has_id id (m ∷ ms) h =
    (All-imp _ _ (λ n ne both. ne (ground arith)) ms h.0, one_has_id id ms h.1)

-- CreateMachine, when it succeeds, keeps the database well formed: the id and the key of the
-- new row are new.
pub create_machine-IsWellFormed :
    (now : ℕ) (n : NewMachine) (db : Db)
    → IsWellFormed db
    → Ensures (λ (r : ℕ × Db). IsWellFormed r.1) (create_machine now n db)
unfolding create_machine
create_machine-IsWellFormed now n db w =
    elim (Bool-cases (any (has_key n.public_key) db.machines)) [
      | inl e ↦ rw e tt
      | inr e ↦ rw e (record {
        machines = record {
          ids =
              Apart-append SameId db.machines _ w.machines.ids
                (All-imp _ _ (λ m h c. omega arith) db.machines w.machines.below);
          below =
              All-append _ db.machines _
                (All-imp _ _ (λ m h. omega arith) db.machines w.machines.below) (omega arith);
          keys = Apart-append SameKey db.machines _ w.machines.keys (
              All-imp _ _ (λ m h c. ground arith) db.machines
                (All-of_any (has_key n.public_key) db.machines e));
          addresses =
              Apart-append SameAddress db.machines _ w.machines.addresses
                (All-imp _ _ (λ m h c. c.1 c.0) db.machines w.machines.below);
        };
        endpoints = w.endpoints;
        links = record {
          unique = w.links.unique;
          machine =
              All-imp _ _ (λ l h. any-append (has_id l.0) db.machines _ h) db.links w.links.machine;
          endpoint = w.links.endpoint;
        };
      })
    ]

-- An update of the public key of the machine, which no other machine has.
module _ (id : ℕ) (g : Machine → Machine) (db : Db) (gid : (m : Machine) → (g m).id ≡ m.id) where
  set_key-IsWellFormed :
      (key : Text)
      → ((m : Machine) → (g m).public_key ≡ key)
      → ((m : Machine) → (g m).address ≡ m.address)
      → any (key_of_other id key) db.machines ≡ false
      → IsWellFormed db
      → IsWellFormed (set_machine id g db)
  set_key-IsWellFormed key gkey gaddr free w = record {
    machines = record {
      ids =
          Apart-update_keep SameId (has_id id) g (λ x y. ground (arith, gid x, gid y)) db.machines
            w.machines.ids;
      below =
          All-update _ _ (has_id id) g (λ m _ h. rw gid h) (λ m _ h. h) db.machines
            w.machines.below;
      keys =
          Apart-update_set SameKey (has_id id) g db.machines
            (one_has_id id db.machines w.machines.ids)
            (All-imp _ _ (λ y h miss x. (λ c. ground (arith, gkey x), λ c. ground (arith, gkey x)))
              db.machines (All-of_any (key_of_other id key) db.machines free))
            w.machines.keys;
      addresses =
          Apart-update_keep SameAddress (has_id id) g (λ x y. ground (arith, gaddr x, gaddr y))
            db.machines w.machines.addresses;
    };
    endpoints = w.endpoints;
    links = links_under_update id g db gid w.links;
  }

  set_address-IsWellFormed :
      (address : Text)
      → ((m : Machine) → (g m).public_key ≡ m.public_key)
      → ((m : Machine) → (g m).address ≡ address)
      → any (address_of_other id address) db.machines ≡ false
      → IsWellFormed db
      → IsWellFormed (set_machine id g db)
  set_address-IsWellFormed address gkey gaddr free w = record {
    machines = record {
      ids =
          Apart-update_keep SameId (has_id id) g (λ x y. ground (arith, gid x, gid y)) db.machines
            w.machines.ids;
      below =
          All-update _ _ (has_id id) g (λ m _ h. rw gid h) (λ m _ h. h) db.machines
            w.machines.below;
      keys =
          Apart-update_keep SameKey (has_id id) g (λ x y. ground (arith, gkey x, gkey y))
            db.machines w.machines.keys;
      addresses =
          Apart-update_set SameAddress (has_id id) g db.machines
            (one_has_id id db.machines w.machines.ids)
            (All-imp _ _
              (λ y h miss x. (λ c. ground (arith, gaddr x, c), λ c. ground (arith, gaddr x, c)))
              db.machines (All-of_any (address_of_other id address) db.machines free))
            w.machines.addresses;
    };
    endpoints = w.endpoints;
    links = links_under_update id g db gid w.links;
  }

  -- A row that is not there is not updated.
  absent-IsWellFormed :
      has_machine id db ≡ false → IsWellFormed db → IsWellFormed (set_machine id g db)
  absent-IsWellFormed e w = rw (update-none (has_id id) g db.machines e) w

-- UpdateMachineIdentity, when it succeeds, keeps the database well formed.
pub update_machine_identity-IsWellFormed :
    (id : ℕ) (name key icon : Text) (db : Db)
    → IsWellFormed db
    → Ensures IsWellFormed (update_machine_identity id name key icon db)
unfolding update_machine_identity
update_machine_identity-IsWellFormed id name key icon db w = elim (Bool-cases (has_machine id db)) [
  | inr e ↦ rw e (absent-IsWellFormed id _ db (λ m. refl) e w)
  | inl e ↦ elim (Bool-cases (any (key_of_other id key) db.machines)) [
    | inl k ↦ rw (e, k) tt
    | inr k ↦ rw (e, k) (set_key-IsWellFormed id _ db (λ m. refl) key (λ m. refl) (λ m. refl) k w)
  ]
]

pub set_machine_address-IsWellFormed :
    (id : ℕ) (address : Text) (db : Db)
    → IsWellFormed db
    → Ensures IsWellFormed (set_machine_address id address db)
unfolding set_machine_address
set_machine_address-IsWellFormed id address db w = elim (Bool-cases (has_machine id db)) [
  | inr e ↦ rw e (absent-IsWellFormed id _ db (λ m. refl) e w)
  | inl e ↦ elim (Bool-cases (any (address_of_other id address) db.machines)) [
    | inl k ↦ rw (e, k) tt
    | inr k ↦
        rw (e, k) (set_address-IsWellFormed id _ db (λ m. refl) address (λ m. refl) (λ m. refl) k w)
  ]
]

pub unless-Ensures :
    (P : Db → Type 0) (b : Bool) (e : DbError) (r : Result Db)
    → Ensures P r
    → Ensures P (if b then err e else r)
unless-Ensures P true e r h = tt
unless-Ensures P false e r h = h

pub Ensures-bind {ℓ κ} :
    {A : Type ℓ} {B : Type κ} (P : A → Type 0) (Q : B → Type 0) (m : Result A) (f : A → Result B)
    → Ensures P m
    → ((a : A) → P a → Ensures Q (f a))
    → Ensures Q (m >>= f)
Ensures-bind P Q (ok a) f h k = k a h
Ensures-bind P Q (err e) f h k = tt

pub requeue_if-IsWellFormed :
    (requeued : Bool) (now id : ℕ) (db : Db)
    → IsWellFormed db
    → IsWellFormed (requeue_if requeued now id db)
requeue_if-IsWellFormed true now id db w =
    set_machine-IsWellFormed id (requeue now) db (λ m. refl) (λ m. refl) (λ m. refl) w
requeue_if-IsWellFormed false now id db w = w

-- An owner's edit of a machine that succeeds keeps the database well formed, with unique
-- public keys.
pub update_own_machine-IsWellFormed :
    (now id : ℕ) (name key icon : Text) (db : Db)
    → IsWellFormed db
    → Ensures (λ (r : Bool × Db). IsWellFormed r.1) (update_own_machine now id name key icon db)
unfolding update_own_machine
update_own_machine-IsWellFormed now id name key icon db w =
    elim (Option-cases (find_machine id db)) [
      | inl e ↦ rw (e, update_own_machine) tt
      | inr (m, e) ↦
          rw (e, update_own_machine)
            (Ensures-bind IsWellFormed (λ (r : Bool × Db). IsWellFormed r.1)
              (update_machine_identity id name key icon db) _
              (update_machine_identity-IsWellFormed id name key icon db w)
              (λ edited v. requeue_if-IsWellFormed _ now id edited v))
    ]
