-- ===== src/Store/Invariant.antt =====
-- What the schema of internal/store/store.go guarantees of every state: unique keys, addresses,
-- names and links, and links between rows that exist.
pub mod Machines
pub mod Links
pub mod Endpoints
pub mod Rows
use wgroster.Prelude.{ℕ, ◌<◌, ◌≡◌, ◌≢◌, Bool, true, ◌==◌, List, [], any, All, Apart}
use wgroster.Store.Models.{Machine, Endpoint}
use wgroster.Store.Db.{Db}
use wgroster.Store.Machines.{has_id}

abbrev pub SameId : Machine → Machine → Type 0
SameId m n = m.id ≡ n.id

abbrev pub SameKey : Machine → Machine → Type 0
SameKey m n = m.public_key ≡ n.public_key

-- idx_machine_address leaves empty addresses out.
abbrev pub SameAddress : Machine → Machine → Type 0
SameAddress m n = (m.address ≡ n.address) × (m.address ≢ [])

abbrev pub SameLink : ℕ × ℕ → ℕ × ℕ → Type 0
SameLink l k = (l.0 ≡ k.0) × (l.1 ≡ k.1)

abbrev pub has_endpoint_id : ℕ → Endpoint → Bool
has_endpoint_id id e = e.id == id

-- The machine table: no two rows share an id, a public key or a nonempty address, and ids are below
-- the counter.
pub record IsMachineTable (machines : List Machine) (next : ℕ) : Type 0 where
  pub ids : Apart SameId machines
  pub below : All (λ m. m.id < next) machines
  pub keys : Apart SameKey machines
  pub addresses : Apart SameAddress machines

-- The endpoint table likewise, with unique names and public keys.
pub record IsEndpointTable (endpoints : List Endpoint) (next : ℕ) : Type 0 where
  pub ids : Apart (λ (e f : Endpoint). e.id ≡ f.id) endpoints
  pub below : All (λ e. e.id < next) endpoints
  pub names : Apart (λ (e f : Endpoint). e.name ≡ f.name) endpoints
  pub keys : Apart (λ (e f : Endpoint). e.public_key ≡ f.public_key) endpoints

-- machine_endpoint: no link stands twice, and each joins a machine and an endpoint that exist.
pub record IsLinkTable (links : List (ℕ × ℕ)) (machines : List Machine) (endpoints : List Endpoint)
    : Type 0 where
  pub unique : Apart SameLink links
  pub machine : All (λ (l : ℕ × ℕ). any (has_id l.0) machines ≡ true) links
  pub endpoint : All (λ (l : ℕ × ℕ). any (has_endpoint_id l.1) endpoints ≡ true) links

pub record IsWellFormed (db : Db) : Type 0 where
  pub machines : IsMachineTable db.machines db.next_machine
  pub endpoints : IsEndpointTable db.endpoints db.next_endpoint
  pub links : IsLinkTable db.links db.machines db.endpoints
