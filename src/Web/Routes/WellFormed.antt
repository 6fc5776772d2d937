-- ===== src/Web/Routes/WellFormed.antt =====
-- The constraints of the schema across the writes of internal/web.
use wgroster.Prelude.{
  ℕ, ◌≡◌, refl, subst, ◌∙◌, Bool, List, [], ◌∷◌, map, any, All, Apart, arith, if◌then◌else◌,
  text_eq, All-imp,
}
use wgroster.Store.Models.{Machine, StatusPeer}
use wgroster.Store.Db.{Db, ok, Result}
use wgroster.Store.Machines.{has_id}
use wgroster.Store.Service.{
  update_owner_name, set_machine_disabled, set_machine_active, flag_machine_dormant,
  clear_machine_dormant, activate_columns,
}
use wgroster.Store.Status.{replace_status, rows_on}
use wgroster.Store.Status.Report.{replace_status-Reported}
use wgroster.Store.Status.Seen.{replace_status-last_seen, seen_at, newest_handshake}
use wgroster.Store.Invariant.{SameId, SameKey, SameAddress, IsWellFormed}
use wgroster.Store.Invariant.Machines.{
  Ensures, create_machine-IsWellFormed, update_own_machine-IsWellFormed,
  update_machine_identity-IsWellFormed, set_machine_address-IsWellFormed, set_machine-IsWellFormed,
}
use wgroster.Store.Invariant.Links.{
  delete_machines-IsWellFormed, replace_endpoints-IsWellFormed, assign-IsWellFormed,
}
use wgroster.Store.Invariant.Endpoints.{
  create_endpoint-IsWellFormed, update_endpoint-IsWellFormed, set_endpoint_token-IsWellFormed,
  delete_endpoint-IsWellFormed,
}
use wgroster.Web.Routes.Writes.{
  Actor, Write, Writes, stop, go, IsAside, created, edited, addressed, linked, deleted, disabled,
  flagged, cleared, renamed, reported, aside, identified, assigned, enabled, endpoint_created,
  endpoint_updated, token_set, endpoint_deleted,
}

-- A result that is known not to be an error.
pub ensured {ℓ κ} :
    {A : Type ℓ} (P : A → Type κ) (r : Result A) (a : A) → r ≡ ok a → Ensures P r → P a
ensured P r a e h = subst (Ensures P) e h

pub All-map :
    {A : Type 0} {B : Type 0} (P : A → Type 0) (Q : B → Type 0) (f : A → B)
    → ((x : A) → P x → Q (f x))
    → (xs : List A) → All P xs
    → All Q (map f xs)
All-map P Q f h [] k = tt
All-map P Q f h (x ∷ xs) k = (h x k.0, All-map P Q f h xs k.1)

Apart-map :
    {A : Type 0} (clash : A → A → Type 0) (f : A → A)
    → ((x y : A) → clash (f x) (f y) → clash x y)
    → (xs : List A) → Apart clash xs
    → Apart clash (map f xs)
Apart-map clash f h [] a = tt
Apart-map clash f h (x ∷ xs) a = (
  All-map (λ y. ¬ clash x y) (λ y. ¬ clash (f x) y) f (λ y n c. n (h x y c)) xs a.0,
  Apart-map clash f h xs a.1,
)

any-map :
    {A : Type 0} (q : A → Bool) (f : A → A)
    → ((x : A) → q (f x) ≡ q x)
    → (xs : List A) → any q (map f xs) ≡ any q xs
any-map q f h [] = refl
any-map q f h (x ∷ xs) = rw (h x, any-map q f h xs) refl

-- Every row is rewritten, and keeps its id, its key and its address.
record IsRewritten (f : Machine → Machine) (db db' : Db) : Type 0 where
  rows : db'.machines ≡ map f db.machines
  next_machine : db'.next_machine ≡ db.next_machine
  endpoints : db'.endpoints ≡ db.endpoints
  next_endpoint : db'.next_endpoint ≡ db.next_endpoint
  links : db'.links ≡ db.links
  ids : (m : Machine) → (f m).id ≡ m.id
  keys : (m : Machine) → (f m).public_key ≡ m.public_key
  addresses : (m : Machine) → (f m).address ≡ m.address

rewritten-IsWellFormed :
    (f : Machine → Machine) (db db' : Db)
    → IsRewritten f db db'
    → IsWellFormed db
    → IsWellFormed db'
rewritten-IsWellFormed f db db' r w = record {
  machines =
      rw (r.rows, r.next_machine)
        (record {
          ids =
              Apart-map SameId f (λ x y. ground (arith, r.ids x, r.ids y)) db.machines
                w.machines.ids;
          below = All-map _ _ f (λ m h. rw (r.ids m) h) db.machines w.machines.below;
          keys =
              Apart-map SameKey f (λ x y. ground (arith, r.keys x, r.keys y)) db.machines
                w.machines.keys;
          addresses =
              Apart-map SameAddress f (λ x y. ground (arith, r.addresses x, r.addresses y))
                db.machines w.machines.addresses;
        });
  endpoints = rw (r.endpoints, r.next_endpoint) w.endpoints;
  links =
      rw (r.rows, r.endpoints, r.links)
        (record {
          unique = w.links.unique;
          machine =
              All-imp _ _
                (λ k h. any-map (has_id k.0) f (λ m. ground (arith, r.ids m)) db.machines ∙ h)
                db.links w.links.machine;
          endpoint = w.links.endpoint;
        });
}

replace_status-IsWellFormed :
    (eid at : ℕ) (peers : List StatusPeer) (db db' : Db)
    → replace_status eid peers at db ≡ ok db'
    → IsWellFormed db
    → IsWellFormed db'
replace_status-IsWellFormed eid at peers db db' h w =
    let r = replace_status-Reported eid peers at db db' h in
    rewritten-IsWellFormed (seen_at (newest_handshake eid (rows_on eid db) peers)) db db'
      (record {
        rows = replace_status-last_seen eid peers at db db' h;
        next_machine = r.next_machine;
        endpoints = r.endpoints;
        next_endpoint = r.next_endpoint;
        links = r.links;
        ids = λ m. refl;
        keys = λ m. refl;
        addresses = λ m. refl;
      })
      w

aside-IsWellFormed : (db db' : Db) → IsAside db db' → IsWellFormed db → IsWellFormed db'
aside-IsWellFormed db db' s w = record {
  machines = rw (s.machines, s.next_machine) w.machines;
  endpoints = rw (s.endpoints, s.next_endpoint) w.endpoints;
  links = rw (s.links, s.machines, s.endpoints) w.links;
}

pub write-IsWellFormed :
    {a : Actor} {db db' : Db} → Write a db db' → IsWellFormed db → IsWellFormed db'
unfolding update_owner_name set_machine_disabled set_machine_active flag_machine_dormant
    clear_machine_dormant
write-IsWellFormed (created now id n db db' p e) w =
    ensured _ _ (id, db') e (create_machine-IsWellFormed now n db w)
write-IsWellFormed (edited now id name key icon r db db' p e) w =
    ensured _ _ (r, db') e (update_own_machine-IsWellFormed now id name key icon db w)
write-IsWellFormed (addressed id address db db' p e) w =
    ensured IsWellFormed _ db' e (set_machine_address-IsWellFormed id address db w)
write-IsWellFormed (linked id eids db db' e) w =
    ensured IsWellFormed _ db' e (replace_endpoints-IsWellFormed id eids db w)
write-IsWellFormed (deleted p db) w = delete_machines-IsWellFormed p db w
write-IsWellFormed (disabled id db) w =
    set_machine-IsWellFormed id _ db (λ m. refl) (λ m. refl) (λ m. refl) w
write-IsWellFormed (flagged id at db) w =
    set_machine-IsWellFormed id _ db (λ m. refl) (λ m. refl) (λ m. refl) w
write-IsWellFormed (cleared id db) w =
    set_machine-IsWellFormed id _ db (λ m. refl) (λ m. refl) (λ m. refl) w
write-IsWellFormed (renamed uid name db) w =
    rewritten-IsWellFormed
      (λ m. if text_eq m.owner_uid uid then record m { owner_name = name } else m) db _
      (record {
        rows = refl;
        next_machine = refl;
        endpoints = refl;
        next_endpoint = refl;
        links = refl;
        ids = λ m. ground arith;
        keys = λ m. ground arith;
        addresses = λ m. ground arith;
      })
      w
write-IsWellFormed (reported eid at peers db db' p e) w =
    replace_status-IsWellFormed eid at peers db db' e w
write-IsWellFormed (aside db db' s) w = aside-IsWellFormed db db' s w
write-IsWellFormed (identified id name key icon db db' p e) w =
    ensured IsWellFormed _ db' e (update_machine_identity-IsWellFormed id name key icon db w)
write-IsWellFormed (assigned now id address eids activate by db db' p e) w =
    ensured IsWellFormed _ db' e (assign-IsWellFormed now id address eids activate by db w)
write-IsWellFormed (enabled now id by db) w =
    set_machine-IsWellFormed id (activate_columns now by) db (λ m. refl) (λ m. refl) (λ m. refl) w
write-IsWellFormed (endpoint_created now id e db db' p h) w =
    ensured _ _ (id, db') h (create_endpoint-IsWellFormed now e db w)
write-IsWellFormed (endpoint_updated e db db' p h) w =
    ensured IsWellFormed _ db' h (update_endpoint-IsWellFormed e db w)
write-IsWellFormed (token_set id token db) w = set_endpoint_token-IsWellFormed id token db w
write-IsWellFormed (endpoint_deleted id db) w = delete_endpoint-IsWellFormed id db w

pub Writes-IsWellFormed :
    {a : Actor} {db db' : Db} → Writes a db db' → IsWellFormed db → IsWellFormed db'
Writes-IsWellFormed (stop db) w = w
Writes-IsWellFormed (go x xs) w = Writes-IsWellFormed xs (write-IsWellFormed x w)
