-- ===== src/Web/Handlers/Devices.antt =====
-- internal/web/machine_handlers.go: what a user does with the machines that they own.
pub mod Cap
use wgroster.Prelude.{
  ℕ, ◌+◌, Bool, true, false, not, ◌&&◌, ◌||◌, Option, none, some, List, [], ◌∷◌, ◌++◌, map, Text,
  txt, text_eq, ltb, leb, ◌==◌, if◌then◌else◌, select, any,
}
use wgroster.Strings.{trim_space, is_digit}
use wgroster.Config.{Config}
use wgroster.Wg.Config.{client_config}
use wgroster.Store.Models.{
  Machine, Endpoint, StatusPeer, active, disabled, status_eq, normalize_icon,
}
use wgroster.Store.Db.{Db, ok, err}
use wgroster.Store.Sessions.{Session}
use wgroster.Store.Machines.{
  NewMachine, get_machine, create_machine, update_own_machine, count_pending_by_owner,
}
use wgroster.Store.Service.{
  delete_machine, endpoints_for_machine, list_machines_by_owner, endpoint_links,
}
use wgroster.Store.Status.{latest_peer_by_key}
use wgroster.Store.Endpoints.{list_endpoints}
use wgroster.Web.Forms.{valid_name, valid_public_key}
use wgroster.Web.Handlers.{
  Reason, invalid_name, invalid_key, too_many_pending, taken, no_endpoint, not_active,
  machine_disabled, Reply, not_found, forbidden, server_error, done, refused, MachineForm, audit,
  target_of,
}

-- The row that a user's form asks for.
abbrev pub own_machine : Session → MachineForm → NewMachine
own_machine session form = record {
  owner_uid = session.uid;
  owner_name = session.name;
  name = trim_space form.name;
  public_key = trim_space form.public_key;
  icon = normalize_icon form.icon;
}

-- The cap on pending machines, when there is one.
abbrev pub at_cap : Config → Text → Db → Bool
at_cap cfg uid db =
    ltb 0 cfg.max_pending_per_user && leb cfg.max_pending_per_user (count_pending_by_owner uid db)

-- handleAddMachine.
unfoldable pub handle_add_machine : Config → ℕ → Session → MachineForm → Db → Reply × Db
handle_add_machine cfg now session form db =
    if not (valid_name (trim_space form.name))
    then (refused invalid_name, db)
    else if not (valid_public_key (trim_space form.public_key))
    then (refused invalid_key, db)
    else if at_cap cfg session.uid db
    then (refused too_many_pending, db)
    else elim (create_machine now (own_machine session form) db) [
      | err e ↦ (refused taken, db)
      | ok (id, created) ↦ (done, created)
    ]

-- The owner of a machine, or an administrator.
abbrev pub may_manage : Session → Machine → Bool
may_manage session m = text_eq m.owner_uid session.uid || session.admin

-- handleMachineConfig: the configuration, and whether the machine is someone else's. The two forms
-- of the answer (a page or a download) are one here.
pub data ConfigReply : Type 0 where
  config_refused : Reply → ConfigReply
  config : Text → Bool → ConfigReply

unfoldable pub config_of : Session → Machine → List Endpoint → ConfigReply
config_of session m [] = config_refused (refused no_endpoint)
config_of session m (e ∷ es) =
    config (client_config m (e ∷ es)) (not (text_eq m.owner_uid session.uid))

unfoldable pub active_config : Session → Db → Machine → ConfigReply
unfolding config_of
active_config session db m =
    if not (may_manage session m)
    then config_refused forbidden
    else if status_eq m.status disabled
    then config_refused (refused machine_disabled)
    else if not (status_eq m.status active)
    then config_refused (refused not_active)
    else config_of session m (endpoints_for_machine m.id db)

unfoldable pub handle_machine_config : Session → Option ℕ → Db → ConfigReply
unfolding active_config
handle_machine_config session none db = config_refused not_found
handle_machine_config session (some id) db = elim (get_machine id db) [
  | err e ↦ config_refused not_found
  | ok m ↦ active_config session db m
]

-- handleEditMachine, for a machine that the session may manage.
unfoldable pub edit_machine : ℕ → Session → Machine → MachineForm → Db → Reply × Db
edit_machine now session m form db =
    if not (valid_name (trim_space form.name))
    then (refused invalid_name, db)
    else if not (valid_public_key (trim_space form.public_key))
    then (refused invalid_key, db)
    else elim (update_own_machine now m.id (trim_space form.name) (trim_space form.public_key)
        form.icon db) [
          | err e ↦ (refused taken, db)
          | ok (requeued, edited) ↦ (
            done,
            if requeued
                then audit now session (txt "machine.key_change")
                    (target_of m.owner_uid (trim_space form.name)) edited
                else edited,
          )
        ]

-- The start of the handlers on one machine: an id that is no number, a machine that does not exist,
-- and a machine of someone else.
unfoldable pub on_managed : Session → Option ℕ → Db → (Machine → Reply × Db) → Reply × Db
on_managed session none db handle = (not_found, db)
on_managed session (some id) db handle = elim (get_machine id db) [
  | err e ↦ (not_found, db)
  | ok m ↦ if not (may_manage session m) then (forbidden, db) else handle m
]

-- handleEditMachine.
unfoldable pub handle_edit_machine : ℕ → Session → Option ℕ → MachineForm → Db → Reply × Db
handle_edit_machine now session id form db =
    on_managed session id db (λ m. edit_machine now session m form db)

-- handleDeleteMachine.
unfoldable pub handle_delete_machine : ℕ → Session → Option ℕ → Db → Reply × Db
handle_delete_machine now session id db = on_managed session id db (λ m. (
  done,
  audit now session (txt "machine.delete") (target_of m.owner_uid m.name) (delete_machine m.id db),
))

-- safeFilename.
abbrev pub safe_rune : ℕ → ℕ
safe_rune c =
    if (leb b'a' c && leb c b'z')
      || (leb b'A' c && leb c b'Z')
      || is_digit c
      || c == b'-'
      || c == b'_'
    then c
    else b'_'

unfoldable pub safe_filename : Text → Text
safe_filename name = if text_eq name [] then txt "wg" else map safe_rune name

-- machineView.
pub record MachineView : Type 0 where
  pub machine : Machine
  pub endpoints : List Endpoint
  pub online : Bool
  pub last_handshake : ℕ

-- onlineThreshold, in seconds, and online.
abbrev pub online_threshold : ℕ
online_threshold = 180

unfoldable pub online : ℕ → ℕ → Bool
online now handshake = not (handshake == 0) && ltb now (handshake + online_threshold)

abbrev pub handshake_of : Option StatusPeer → ℕ
handshake_of none = 0
handshake_of (some p) = p.last_handshake

-- The newest handshake that a hub reports for the machine, or else the last that was ever seen.
unfoldable pub seen_handshake : Text → Db → Machine → ℕ
seen_handshake uid db m =
    let reported = handshake_of (latest_peer_by_key uid db m.public_key) in
    if reported == 0 then m.last_seen else reported

-- The loop of buildDashboard.
unfoldable pub view_of : ℕ → Text → Db → Machine → MachineView
view_of now uid db m = record {
  machine = m;
  endpoints =
      select (λ (e : Endpoint). any (λ id. id == e.id) (endpoint_links uid db m.id))
        (list_endpoints db);
  online = online now (seen_handshake uid db m);
  last_handshake = seen_handshake uid db m;
}

-- buildDashboard.
unfoldable pub build_dashboard : ℕ → Session → Db → List MachineView
build_dashboard now session db =
    map (view_of now session.uid db) (list_machines_by_owner session.uid db)
