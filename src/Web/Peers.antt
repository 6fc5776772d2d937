-- ===== src/Web/Peers.antt =====
-- internal/web/api_handlers.go: the requests of the concentrators, which carry the upload token of
-- their endpoint. The limit on the size of a body is left out, as are the log lines.
pub mod Access
use wgroster.Prelude.{
  ℕ, Bool, Option, none, some, List, [], ◌∷◌, ◌++◌, map, Text, txt, text_eq, if◌then◌else◌,
}
use wgroster.Strings.{trim_space, cut_prefix}
use wgroster.Wg.Config.{concentrator_config, prefix_or_empty, sanitize_comment, line}
use wgroster.Wg.Dump.{parse_dump}
use wgroster.Store.Models.{Machine, Endpoint, StatusPeer}
use wgroster.Store.Db.{Db, Result, ok, err}
use wgroster.Store.Endpoints.{get_endpoint}
use wgroster.Store.Service.{active_machines_for_endpoint}
use wgroster.Store.Status.{replace_status}

-- bearerToken, of the value of the header.
unfoldable pub bearer_token : Text → Text
bearer_token header = elim (cut_prefix (txt "Bearer ") header) [
  | some after ↦ trim_space after
  | none ↦ trim_space header
]

-- The refusals of the API, and what it sends.
pub data ApiReply : Type 0 where
  api_not_found missing_token api_error no_content : ApiReply

pub data Authorized : Type 0 where
  rejected : ApiReply → Authorized
  authorized : Endpoint → Authorized

-- The token is compared with that of the endpoint; an endpoint that does not exist answers like a
-- wrong token.
unfoldable pub token_matches : Text → Result Endpoint → Authorized
token_matches token (err x) = rejected api_not_found
token_matches token (ok e) =
    if text_eq token e.upload_token then authorized e else rejected api_not_found

-- authEndpoint.
unfoldable pub auth_endpoint : Option ℕ → Text → Db → Authorized
unfolding token_matches bearer_token
auth_endpoint none header db = rejected api_not_found
auth_endpoint (some id) header db =
    if text_eq (bearer_token header) []
    then rejected missing_token
    else token_matches (bearer_token header) (get_endpoint id db)

abbrev pub stamped : ℕ → StatusPeer → StatusPeer
stamped eid p = record p { endpoint_id = eid }

unfoldable pub stored : Db → Result Db → ApiReply × Db
stored db (err x) = (api_error, db)
stored db (ok db') = (no_content, db')

-- handleStatusUpload.
unfoldable pub handle_status_upload : ℕ → Option ℕ → Text → Text → Db → ApiReply × Db
unfolding auth_endpoint stored
handle_status_upload now id header body db = elim (auth_endpoint id header db) [
  | rejected r ↦ (r, db)
  | authorized e ↦ stored db (replace_status e.id (map (stamped e.id) (parse_dump body)) now db)
]

pub record ExpectedPeer : Type 0 where
  pub name : Text
  pub owner : Text
  pub public_key : Text
  pub allowed_ips : Text

unfoldable pub expected_peer : Machine → ExpectedPeer
expected_peer m = record {
  name = m.name;
  owner = m.owner_uid;
  public_key = m.public_key;
  allowed_ips = prefix_or_empty m.address;
}

-- The text of format=wg.
unfoldable pub wg_peer : ExpectedPeer → Text
wg_peer p =
    line (txt "[Peer]")
    ++ line (txt "# " ++ sanitize_comment p.name ++ txt " (" ++ sanitize_comment p.owner ++ txt ")")
    ++ line (txt "PublicKey = " ++ p.public_key)
    ++ line (txt "AllowedIPs = " ++ p.allowed_ips)
    ++ line []

-- The text of format=tsv.
unfoldable pub tsv_peer : ExpectedPeer → Text
tsv_peer p = line (p.public_key ++ 9 ∷ p.allowed_ips)

unfoldable pub join_peers : (ExpectedPeer → Text) → List ExpectedPeer → Text
join_peers show [] = []
join_peers show (p ∷ ps) = show p ++ join_peers show ps

-- The answers of handleExpectedPeers: a text, or the name of the endpoint and its peers as JSON.
pub data PeersReply : Type 0 where
  peers_rejected : ApiReply → PeersReply
  as_text : Text → PeersReply
  as_json : Text → List ExpectedPeer → PeersReply

peers_reply : Text → Text → List ExpectedPeer → PeersReply
unfolding wg_peer tsv_peer join_peers
peers_reply format name peers =
    if text_eq format (txt "wg")
    then as_text (join_peers wg_peer peers)
    else if text_eq format (txt "tsv")
    then as_text (join_peers tsv_peer peers)
    else as_json name peers

-- handleExpectedPeers.
unfoldable pub handle_expected_peers : Option ℕ → Text → Text → Db → PeersReply
unfolding auth_endpoint peers_reply expected_peer
handle_expected_peers id header format db = elim (auth_endpoint id header db) [
  | rejected r ↦ peers_rejected r
  | authorized e ↦
      peers_reply format e.name (map expected_peer (active_machines_for_endpoint e.id db))
]

-- handleEndpointConfigAPI.
unfoldable pub handle_endpoint_config_api : Option ℕ → Text → Db → PeersReply
unfolding auth_endpoint
handle_endpoint_config_api id header db = elim (auth_endpoint id header db) [
  | rejected r ↦ peers_rejected r
  | authorized e ↦ as_text (concentrator_config e (active_machines_for_endpoint e.id db))
]
