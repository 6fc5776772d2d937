-- ===== src/Web/Routes/Writes.antt =====
-- The writes that the handlers and jobs of internal/web make, one call of the store at a time, with
-- what their checks ensure of the values written.
use wgroster.Prelude.{ℕ, ◌≡◌, Bool, List, Text, All}
use wgroster.Store.Models.{Machine, Endpoint, StatusPeer}
use wgroster.Store.Db.{Db, ok}
use wgroster.Store.Machines.{
  NewMachine, create_machine, update_machine_identity, update_own_machine, set_machine_address,
}
use wgroster.Store.Service.{
  delete_machines, assign, replace_endpoints, set_machine_disabled, set_machine_active,
  flag_machine_dormant, clear_machine_dormant, update_owner_name,
}
use wgroster.Store.Endpoints.{create_endpoint, update_endpoint, set_endpoint_token, delete_endpoint}
use wgroster.Store.Status.{replace_status}
use wgroster.Wg.Config.Lines.{IsOneLine, IsPlainEndpoint}

-- What a write leaves when it changes no table of machines, endpoints, links or reported peers.
pub record IsAside (db db' : Db) : Type 0 where
  pub machines : db'.machines ≡ db.machines
  pub next_machine : db'.next_machine ≡ db.next_machine
  pub endpoints : db'.endpoints ≡ db.endpoints
  pub next_endpoint : db'.next_endpoint ≡ db.next_endpoint
  pub links : db'.links ≡ db.links
  pub status_peers : db'.status_peers ≡ db.status_peers

-- Who makes a write: everyone may make those with any actor, only staff the others.
pub data Actor : Type 0 where
  anyone staff : Actor

pub data Write : Actor → Db → Db → Type 0 where
  created :
      {a : Actor} (now id : ℕ) (n : NewMachine) (db db' : Db)
      → IsOneLine n.public_key
      → create_machine now n db ≡ ok (id, db')
      → Write a db db'
  edited :
      {a : Actor} (now id : ℕ) (name key icon : Text) (requeued : Bool) (db db' : Db)
      → IsOneLine key
      → update_own_machine now id name key icon db ≡ ok (requeued, db')
      → Write a db db'
  addressed :
      {a : Actor} (id : ℕ) (address : Text) (db db' : Db)
      → IsOneLine address
      → set_machine_address id address db ≡ ok db'
      → Write a db db'
  linked :
      {a : Actor} (id : ℕ) (eids : List ℕ) (db db' : Db)
      → replace_endpoints id eids db ≡ ok db'
      → Write a db db'
  deleted : {a : Actor} (p : Machine → Bool) (db : Db) → Write a db (delete_machines p db)
  disabled : {a : Actor} (id : ℕ) (db : Db) → Write a db (set_machine_disabled id db)
  flagged : {a : Actor} (id at : ℕ) (db : Db) → Write a db (flag_machine_dormant id at db)
  cleared : {a : Actor} (id : ℕ) (db : Db) → Write a db (clear_machine_dormant id db)
  renamed : {a : Actor} (uid name : Text) (db : Db) → Write a db (update_owner_name uid name db)
  reported :
      {a : Actor} (eid at : ℕ) (peers : List StatusPeer) (db db' : Db)
      → All (λ (p : StatusPeer). IsOneLine p.public_key) peers
      → replace_status eid peers at db ≡ ok db'
      → Write a db db'
  aside : {a : Actor} (db db' : Db) → IsAside db db' → Write a db db'
  identified :
      (id : ℕ) (name key icon : Text) (db db' : Db)
      → IsOneLine key
      → update_machine_identity id name key icon db ≡ ok db'
      → Write staff db db'
  assigned :
      (now id : ℕ) (address : Text) (eids : List ℕ) (activate : Bool) (by : Text) (db db' : Db)
      → IsOneLine address
      → assign now id address eids activate by db ≡ ok db'
      → Write staff db db'
  enabled : (now id : ℕ) (by : Text) (db : Db) → Write staff db (set_machine_active now id by db)
  endpoint_created :
      (now id : ℕ) (e : Endpoint) (db db' : Db)
      → IsPlainEndpoint e
      → create_endpoint now e db ≡ ok (id, db')
      → Write staff db db'
  endpoint_updated :
      (e : Endpoint) (db db' : Db)
      → IsPlainEndpoint e
      → update_endpoint e db ≡ ok db'
      → Write staff db db'
  token_set : (id : ℕ) (token : Text) (db : Db) → Write staff db (set_endpoint_token id token db)
  endpoint_deleted : (id : ℕ) (db : Db) → Write staff db (delete_endpoint id db)

-- Writes one after the other.
pub data Writes (a : Actor) : Db → Db → Type 0 where
  stop : (db : Db) → Writes a db db
  go : {db db' db'' : Db} → Write a db db' → Writes a db' db'' → Writes a db db''

pub one : {a : Actor} {db db' : Db} → Write a db db' → Writes a db db'
one w = go w (stop _)

infixr 4 ◌after◌
pub ◌after◌ : {a : Actor} {d e f : Db} → Writes a d e → Writes a e f → Writes a d f
stop d after v = v
go w u after v = go w (u after v)
