-- ===== src/Store/Endpoints.antt =====
-- internal/store/endpoints.go.
use wgroster.Prelude.{
  ℕ, suc, Bool, false, ◌&&◌, ◌||◌, Option, none, some, List, [], ◌∷◌, ◌++◌, Text, text_eq, text_lt,
  ◌==◌, if◌then◌else◌, update, delete, first, any, sort_by,
}
use wgroster.Store.Models.{Endpoint, StatusPeer}
use wgroster.Store.Db.{Db, Sample, constraint, not_found, Result, ok, err}
use wgroster.Store.Machines.{has_endpoint}

abbrev pub endpoint_has_id : ℕ → Endpoint → Bool
endpoint_has_id id e = e.id == id

-- A unique index refuses a name or a public key that a row has already.
abbrev pub endpoint_clash : Endpoint → Endpoint → Bool
endpoint_clash e f = text_eq f.name e.name || text_eq f.public_key e.public_key

abbrev pub endpoint_clash_other : Endpoint → Endpoint → Bool
endpoint_clash_other e f = if f.id == e.id then false else endpoint_clash e f

-- CreateEndpoint: the id is assigned, and the creation time set.
unfoldable pub create_endpoint : ℕ → Endpoint → Db → Result (ℕ × Db)
create_endpoint now e db =
    if any (endpoint_clash e) db.endpoints
    then err constraint
    else ok (
      db.next_endpoint,
      record db {
        endpoints = db.endpoints ++ record e { id = db.next_endpoint; created_at = now } ∷ [];
        next_endpoint = suc db.next_endpoint;
      },
    )

-- The columns that UpdateEndpoint writes: all but the id, the token and the creation time.
abbrev pub edited_columns : Endpoint → Endpoint → Endpoint
edited_columns e f = record e {
  id = f.id;
  upload_token = f.upload_token;
  created_at = f.created_at;
}

-- UpdateEndpoint.
unfoldable pub update_endpoint : Endpoint → Db → Result Db
update_endpoint e db =
    if has_endpoint e.id db && any (endpoint_clash_other e) db.endpoints
    then err constraint
    else ok
        (record db { endpoints = update (endpoint_has_id e.id) (edited_columns e) db.endpoints })

-- DeleteEndpoint: the foreign keys of the links, the reported peers, the report times and the
-- history cascade.
unfoldable pub delete_endpoint : ℕ → Db → Db
delete_endpoint id db = record db {
  endpoints = delete (endpoint_has_id id) db.endpoints;
  links = delete (λ l. l.1 == id) db.links;
  status_peers = delete (λ (p : StatusPeer). p.endpoint_id == id) db.status_peers;
  status_reports = delete (λ r. r.0 == id) db.status_reports;
  status_history = delete (λ (h : Sample). h.endpoint_id == id) db.status_history;
}

-- SetEndpointToken.
unfoldable pub set_endpoint_token : ℕ → Text → Db → Db
set_endpoint_token id token db = record db {
  endpoints =
      update (endpoint_has_id id) (λ (e : Endpoint). record e { upload_token = token })
        db.endpoints;
}

abbrev pub or_not_found {ℓ} : {A : Type ℓ} → Option A → Result A
or_not_found none = err not_found
or_not_found (some a) = ok a

-- GetEndpoint.
unfoldable pub get_endpoint : ℕ → Db → Result Endpoint
get_endpoint id db = or_not_found (first (endpoint_has_id id) db.endpoints)

-- EndpointByName.
unfoldable pub endpoint_by_name : Text → Db → Result Endpoint
endpoint_by_name name db = or_not_found (first (λ e. text_eq e.name name) db.endpoints)

-- EndpointByToken.
unfoldable pub endpoint_by_token : Text → Db → Result Endpoint
endpoint_by_token token db = or_not_found (first (λ e. text_eq e.upload_token token) db.endpoints)

-- ListEndpoints.
unfoldable pub list_endpoints : Db → List Endpoint
list_endpoints db = sort_by (λ (e f : Endpoint). text_lt e.name f.name) db.endpoints
