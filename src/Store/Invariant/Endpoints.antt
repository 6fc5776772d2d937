-- ===== src/Store/Invariant/Endpoints.antt =====
-- The functions of internal/store/endpoints.go and the well-formedness of the state.
use wgroster.Prelude.{
  ℕ, ◌≡◌, refl, ◌∙◌, inl, inr, true, not, List, [], ◌∷◌, Text, ◌==◌, update, any, Apart, arith,
  Bool-cases, All-imp, All-append, All-update, Apart-append, Apart-update_keep, Apart-update_set,
  All-of_any, any-update, any-append, any-select, delete, Apart-select, All-select, All-select_test,
  All-and, update-none,
}
use wgroster.Store.Models.{Endpoint}
use wgroster.Store.Db.{Db}
use wgroster.Store.Machines.{has_endpoint}
use wgroster.Store.Endpoints.{
  endpoint_has_id, endpoint_clash, endpoint_clash_other, edited_columns, create_endpoint,
  update_endpoint, delete_endpoint, set_endpoint_token,
}
use wgroster.Store.Invariant.{SameLink, has_endpoint_id, IsLinkTable, IsWellFormed}
use wgroster.Store.Invariant.Machines.{Ensures}

abbrev SameEndpointId : Endpoint → Endpoint → Type 0
SameEndpointId e f = e.id ≡ f.id

abbrev SameName : Endpoint → Endpoint → Type 0
SameName e f = e.name ≡ f.name

abbrev SameEndpointKey : Endpoint → Endpoint → Type 0
SameEndpointKey e f = e.public_key ≡ f.public_key

-- CreateEndpoint, when it succeeds, keeps the database well formed: ids, names and public
-- keys of endpoints stay unique.
pub create_endpoint-IsWellFormed :
    (now : ℕ) (e : Endpoint) (db : Db)
    → IsWellFormed db
    → Ensures (λ (r : ℕ × Db). IsWellFormed r.1) (create_endpoint now e db)
unfolding create_endpoint
create_endpoint-IsWellFormed now e db w = elim (Bool-cases (any (endpoint_clash e) db.endpoints)) [
  | inl c ↦ rw c tt
  | inr c ↦
      let free = All-of_any (endpoint_clash e) db.endpoints c in
      rw c (record {
        machines = w.machines;
        endpoints = record {
          ids =
              Apart-append SameEndpointId db.endpoints _ w.endpoints.ids
                (All-imp _ _ (λ f h q. omega arith) db.endpoints w.endpoints.below);
          below =
              All-append _ db.endpoints _
                (All-imp _ _ (λ f h. omega arith) db.endpoints w.endpoints.below) (omega arith);
          names =
              Apart-append SameName db.endpoints _ w.endpoints.names
                (All-imp _ _ (λ f h q. ground arith) db.endpoints free);
          keys =
              Apart-append SameEndpointKey db.endpoints _ w.endpoints.keys
                (All-imp _ _ (λ f h q. ground arith) db.endpoints free);
        };
        links = record {
          unique = w.links.unique;
          machine = w.links.machine;
          endpoint =
              All-imp _ _ (λ l h. any-append (has_endpoint_id l.1) db.endpoints _ h) db.links
                w.links.endpoint;
        };
      })
]

links_under_edit :
    (id : ℕ) (g : Endpoint → Endpoint) (db : Db)
    → ((e : Endpoint) → (g e).id ≡ e.id)
    → IsWellFormed db
    → IsLinkTable db.links db.machines (update (endpoint_has_id id) g db.endpoints)
links_under_edit id g db gid w = record {
  unique = w.links.unique;
  machine = w.links.machine;
  endpoint =
      All-imp _ _
        (λ l h.
          any-update (has_endpoint_id l.1) (endpoint_has_id id) g (λ e. ground (arith, gid e))
            db.endpoints
          ∙ h)
        db.links w.links.endpoint;
}

one_endpoint_id :
    (id : ℕ) (es : List Endpoint)
    → Apart SameEndpointId es
    → Apart (λ x y. (endpoint_has_id id x ≡ true) × (endpoint_has_id id y ≡ true)) es
one_endpoint_id id [] h = tt
one_endpoint_id id (e ∷ es) h =
    (All-imp _ _ (λ f ne both. ne (ground arith)) es h.0, one_endpoint_id id es h.1)

-- UpdateEndpoint, when it succeeds, keeps the database well formed.
pub update_endpoint-IsWellFormed :
    (e : Endpoint) (db : Db) → IsWellFormed db → Ensures IsWellFormed (update_endpoint e db)
unfolding update_endpoint
update_endpoint-IsWellFormed e db w = elim (Bool-cases (has_endpoint e.id db)) [
  | inr h ↦ rw (h, update-none (endpoint_has_id e.id) (edited_columns e) db.endpoints h) w
  | inl h ↦ elim (Bool-cases (any (endpoint_clash_other e) db.endpoints)) [
    | inl c ↦ rw (h, c) tt
    | inr c ↦
        let p = endpoint_has_id e.id in
        let g = edited_columns e in
        let one = one_endpoint_id e.id db.endpoints w.endpoints.ids in
        let free = All-of_any (endpoint_clash_other e) db.endpoints c in
        rw (h, c)
          (record {
            machines = w.machines;
            endpoints = record {
              ids =
                  Apart-update_keep SameEndpointId p g (λ x y. ground arith) db.endpoints
                    w.endpoints.ids;
              below = All-update _ _ p g (λ f _ b. b) (λ f _ b. b) db.endpoints w.endpoints.below;
              names =
                  Apart-update_set SameName p g db.endpoints one
                    (All-imp _ _ (λ f k miss x. (λ q. ground arith, λ q. ground arith)) db.endpoints
                      free)
                    w.endpoints.names;
              keys =
                  Apart-update_set SameEndpointKey p g db.endpoints one
                    (All-imp _ _ (λ f k miss x. (λ q. ground arith, λ q. ground arith)) db.endpoints
                      free)
                    w.endpoints.keys;
            };
            links = links_under_edit e.id g db (λ f. refl) w;
          })
  ]
]

pub set_endpoint_token-IsWellFormed :
    (id : ℕ) (token : Text) (db : Db)
    → IsWellFormed db
    → IsWellFormed (set_endpoint_token id token db)
unfolding set_endpoint_token
set_endpoint_token-IsWellFormed id token db w =
    let p = endpoint_has_id id in
    let g = λ (e : Endpoint). record e { upload_token = token } in
    record {
      machines = w.machines;
      endpoints = record {
        ids =
            Apart-update_keep SameEndpointId p g (λ x y. ground arith) db.endpoints w.endpoints.ids;
        below = All-update _ _ p g (λ f _ b. b) (λ f _ b. b) db.endpoints w.endpoints.below;
        names = Apart-update_keep SameName p g (λ x y. ground arith) db.endpoints w.endpoints.names;
        keys =
            Apart-update_keep SameEndpointKey p g (λ x y. ground arith) db.endpoints
              w.endpoints.keys;
      };
      links = links_under_edit id g db (λ f. refl) w;
    }

-- DeleteEndpoint keeps the database well formed: the endpoint's links go with it.
pub delete_endpoint-IsWellFormed :
    (id : ℕ) (db : Db) → IsWellFormed db → IsWellFormed (delete_endpoint id db)
unfolding delete_endpoint
delete_endpoint-IsWellFormed id db w = record {
  machines = w.machines;
  endpoints = record {
    ids = Apart-select SameEndpointId _ db.endpoints w.endpoints.ids;
    below = All-select _ _ db.endpoints w.endpoints.below;
    names = Apart-select SameName _ db.endpoints w.endpoints.names;
    keys = Apart-select SameEndpointKey _ db.endpoints w.endpoints.keys;
  };
  links = record {
    unique = Apart-select SameLink _ db.links w.links.unique;
    machine = All-select _ _ db.links w.links.machine;
    endpoint =
        All-imp _ _
          (λ l h. any-select (has_endpoint_id l.1) _ db.endpoints h.0 (λ e k. ground (arith, h.1)))
          (delete (λ (l : ℕ × ℕ). l.1 == id) db.links)
          (All-and _ _ (delete (λ (l : ℕ × ℕ). l.1 == id) db.links)
            (All-select _ _ db.links w.links.endpoint)
            (All-select_test (λ (l : ℕ × ℕ). not (l.1 == id)) db.links));
  };
}
