-- ===== src/Web/Handlers/Endpoints.antt =====
-- internal/web/admin_handlers.go: what an administrator does with endpoints. The random tokens are
-- arguments.
use wgroster.Prelude.{
  ℕ, Bool, true, false, not, ◌&&◌, ◌||◌, Option, none, some, List, [], ◌∷◌, map, Text, txt, text_eq,
  ltb, leb, ◌==◌, if◌then◌else◌, length, any,
}
use wgroster.Strings.{trim_space, Number, positive, negative}
use wgroster.Netip.{Netip}
use wgroster.Store.Models.{Endpoint}
use wgroster.Store.Db.{Db, Result, ok, err}
use wgroster.Store.Sessions.{Session}
use wgroster.Store.Endpoints.{
  create_endpoint, update_endpoint, delete_endpoint, set_endpoint_token, get_endpoint,
}
use wgroster.Store.Service.{endpoint_links, active_machines_for_endpoint}
use wgroster.Wg.AllowedIps.{parse_allowed_ips}
use wgroster.Wg.Config.{decimal, concentrator_config}
use wgroster.Web.Forms.{valid_public_key, has_control_char, valid_host_port, valid_dns_list}
use wgroster.Web.Conflicts.{Conflict, conflict_among}
use wgroster.Web.Handlers.{
  taken, overlapping, invalid_endpoint, Reply, not_found, server_error, done, refused, audit,
  atoi_default,
}

pub record EndpointForm : Type 0 where
  pub name : Text
  pub public_key : Text
  pub host_port : Text
  pub allowed_ips : Text
  pub dns : Text
  pub tunnel_ip : Text
  pub mtu : Text
  pub persistent_keepalive : Text

abbrev pub magnitude : Number → ℕ
magnitude (positive n) = n
magnitude (negative n) = n

abbrev pub valid_mtu : Number → Bool
valid_mtu (positive n) = n == 0 || (leb 576 n && leb n 65535)
valid_mtu (negative n) = n == 0

abbrev pub valid_keepalive : Number → Bool
valid_keepalive (positive n) = leb n 65535
valid_keepalive (negative n) = n == 0

-- The fields that endpointFromForm fills in; the numbers are those that are not negative.
unfoldable pub filled_endpoint : EndpointForm → Endpoint → Endpoint
filled_endpoint form e = record e {
  name = trim_space form.name;
  public_key = trim_space form.public_key;
  host_port = trim_space form.host_port;
  allowed_ips = trim_space form.allowed_ips;
  dns = trim_space form.dns;
  tunnel_ip = trim_space form.tunnel_ip;
  mtu = magnitude (atoi_default form.mtu (positive 0));
  persistent_keepalive = magnitude (atoi_default form.persistent_keepalive (positive 0));
}

-- &store.Endpoint{}.
abbrev pub blank_endpoint : Endpoint
blank_endpoint = record {
  id = 0;
  name = [];
  public_key = [];
  host_port = [];
  allowed_ips = [];
  dns = [];
  mtu = 0;
  persistent_keepalive = 0;
  tunnel_ip = [];
  upload_token = [];
  created_at = 0;
}

-- The control characters that endpointFromForm looks for.
abbrev pub any_control_char : Endpoint → Bool
any_control_char e =
    has_control_char e.name
    || has_control_char e.host_port
    || has_control_char e.allowed_ips
    || has_control_char e.dns
    || has_control_char e.tunnel_ip

module _ (netip : Netip) where
  abbrev parses : Text → Bool
  parses list = elim (parse_allowed_ips netip list) [ none ↦ false | some ps ↦ true ]

  -- The checks of endpointFromForm on the filled fields.
  unfoldable pub valid_endpoint : Endpoint → Number → Number → Bool
  valid_endpoint e mtu keepalive =
      not (text_eq e.name [])
      && valid_public_key e.public_key
      && not (text_eq e.host_port [])
      && not (any_control_char e)
      && valid_host_port e.host_port
      && parses e.allowed_ips
      && valid_dns_list netip e.dns
      && (text_eq e.tunnel_ip [] || parses e.tunnel_ip)
      && valid_mtu mtu
      && valid_keepalive keepalive

  -- endpointFromForm; none is an error.
  unfoldable pub endpoint_from_form : EndpointForm → Endpoint → Option Endpoint
  unfolding valid_endpoint filled_endpoint
  endpoint_from_form form e =
      if valid_endpoint (filled_endpoint form e) (atoi_default form.mtu (positive 0))
        (atoi_default form.persistent_keepalive (positive 0))
      then some (filled_endpoint form e)
      else none

  -- endpointEditConflict: the source goes through the machines in no fixed order, here they are in
  -- the order of their links.
  contains_id : List ℕ → ℕ → Bool
  contains_id ids id = any (λ i. i == id) ids

  machine_conflict : List ℕ → Endpoint → Db → Option Conflict
  unfolding contains_id
  machine_conflict ids e db =
      if ltb (length ids) 2 || not (contains_id ids e.id)
      then none
      else conflict_among netip ids (some e) db

  unfoldable pub edit_conflict_in : List ℕ → Endpoint → Db → Option Conflict
  unfolding machine_conflict
  edit_conflict_in [] e db = none
  edit_conflict_in (id ∷ ids) e db =
      let rest = edit_conflict_in ids e db in
      elim (machine_conflict (endpoint_links [] db id) e db) [ some c ↦ some c | none ↦ rest ]

  unfoldable pub endpoint_edit_conflict : Endpoint → Db → Option Conflict
  unfolding edit_conflict_in
  endpoint_edit_conflict e db = edit_conflict_in (map (λ (l : ℕ × ℕ). l.0) db.links) e db

  -- handleCreateEndpoint.
  unfoldable pub handle_create_endpoint : ℕ → Session → Text → EndpointForm → Db → Reply × Db
  unfolding endpoint_from_form
  handle_create_endpoint now session token form db = elim (endpoint_from_form form blank_endpoint) [
    | none ↦ (refused invalid_endpoint, db)
    | some e ↦ elim (create_endpoint now (record e { upload_token = token }) db) [
      | err x ↦ (refused taken, db)
      | ok (id, created) ↦ (done, audit now session (txt "endpoint.create") e.name created)
    ]
  ]

  -- handleUpdateEndpoint, for an endpoint that exists.
  unfoldable pub save_endpoint : ℕ → Session → EndpointForm → Endpoint → Db → Reply × Db
  unfolding endpoint_from_form endpoint_edit_conflict
  save_endpoint now session form stored db = elim (endpoint_from_form form stored) [
    | none ↦ (refused invalid_endpoint, db)
    | some e ↦ elim (endpoint_edit_conflict e db) [
      | some c ↦ (refused (overlapping c), db)
      | none ↦ elim (update_endpoint e db) [
        | err x ↦ (server_error, db)
        | ok saved ↦ (done, audit now session (txt "endpoint.update") e.name saved)
      ]
    ]
  ]

  -- handleUpdateEndpoint.
  unfoldable pub handle_update_endpoint : ℕ → Session → Option ℕ → EndpointForm → Db → Reply × Db
  unfolding save_endpoint
  handle_update_endpoint now session none form db = (not_found, db)
  handle_update_endpoint now session (some id) form db = elim (get_endpoint id db) [
    | err x ↦ (not_found, db)
    | ok e ↦ save_endpoint now session form e db
  ]

-- handleEndpointConfig; none is a page that does not exist.
unfoldable pub handle_endpoint_config : Option ℕ → Db → Option Text
handle_endpoint_config none db = none
handle_endpoint_config (some id) db = elim (get_endpoint id db) [
  | err x ↦ none
  | ok e ↦ some (concentrator_config e (active_machines_for_endpoint e.id db))
]

endpoint_target : ℕ → Result Endpoint → Text
endpoint_target id (err x) = decimal id
endpoint_target id (ok e) = e.name

-- handleRegenerateToken.
unfoldable pub handle_regenerate_token : ℕ → Session → Text → Option ℕ → Db → Reply × Db
unfolding endpoint_target
handle_regenerate_token now session token none db = (not_found, db)
handle_regenerate_token now session token (some id) db =
    let changed = set_endpoint_token id token db in
    (
      done,
      audit now session (txt "endpoint.token_regen") (endpoint_target id (get_endpoint id changed))
          changed,
    )

-- handleDeleteEndpoint.
unfoldable pub handle_delete_endpoint : ℕ → Session → Option ℕ → Db → Reply × Db
unfolding endpoint_target
handle_delete_endpoint now session none db = (not_found, db)
handle_delete_endpoint now session (some id) db = (
  done,
  audit now session (txt "endpoint.delete") (endpoint_target id (get_endpoint id db))
      (delete_endpoint id db),
)
