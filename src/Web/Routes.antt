-- ===== src/Web/Routes.antt =====
-- internal/web/server.go: the routes that change the database, with the guard that each is
-- registered under, and the histories that requests, uploads and sweeps make.
pub mod Writes
pub mod WellFormed
pub mod Plain
pub mod Vouched
pub mod Users
pub mod Admins
pub mod Adoptions
pub mod Concentrators
pub mod Sweeps
pub mod Dormant
pub mod Histories
pub mod Served
pub mod Foreign
use wgroster.Prelude.{
  ℕ, Bool, true, false, not, ◌&&◌, Option, none, some, List, [], ◌∷◌, Text, if◌then◌else◌,
}
use wgroster.Config.{Config}
use wgroster.Netip.{Netip}
use wgroster.Ipam.{Pool}
use wgroster.Store.Db.{Db}
use wgroster.Store.Sessions.{Session}
use wgroster.Store.Service.{update_owner_name}
use wgroster.Web.Portal.{Portal}
use wgroster.Web.Maintenance.{Presence, Faults}
use wgroster.Web.Dormancy.{sweep}
use wgroster.Web.Handlers.{MachineForm, Reply}
use wgroster.Web.Handlers.Devices.{handle_add_machine, handle_edit_machine, handle_delete_machine}
use wgroster.Web.Handlers.Enroll.{handle_enroll}
use wgroster.Web.Handlers.Machines.{
  handle_admin_create_machine, handle_update_machine, handle_disable_machine, handle_enable_machine,
  handle_admin_delete_machine,
}
use wgroster.Web.Handlers.Endpoints.{
  EndpointForm, handle_create_endpoint, handle_update_endpoint, handle_regenerate_token,
  handle_delete_endpoint,
}
use wgroster.Web.Handlers.Adoption.{PeerForm, handle_adopt_peer, handle_link_peer}
use wgroster.Web.Peers.{handle_status_upload}

-- The POST routes under `user`, with the id of the path and the form.
pub data UserRoute : Type 0 where
  add_machine enroll : MachineForm → UserRoute
  edit_machine : Option ℕ → MachineForm → UserRoute
  delete_machine : Option ℕ → UserRoute

-- The POST routes under `admin`, with the fresh token where one is made.
pub data AdminRoute : Type 0 where
  create_machine : MachineForm → AdminRoute
  update_machine : Option ℕ → MachineForm → AdminRoute
  disable_machine enable_machine remove_machine : Option ℕ → AdminRoute
  create_endpoint : Text → EndpointForm → AdminRoute
  update_endpoint : Option ℕ → EndpointForm → AdminRoute
  regenerate_token : Text → Option ℕ → AdminRoute
  delete_endpoint : Option ℕ → AdminRoute
  adopt_peer link_peer : PeerForm → AdminRoute

-- The fields of Server that the handlers read.
pub record Server : Type 0 where
  pub cfg : Config
  pub netip : Netip
  pub pool : Pool

unfoldable pub serve_user : Server → ℕ → Session → UserRoute → Db → Db
unfolding handle_add_machine handle_enroll handle_edit_machine handle_delete_machine
serve_user srv now s (add_machine form) db = (handle_add_machine srv.cfg now s form db).1
serve_user srv now s (enroll form) db = (handle_enroll srv.netip srv.cfg srv.pool now s form db).1
serve_user srv now s (edit_machine id form) db = (handle_edit_machine now s id form db).1
serve_user srv now s (delete_machine id) db = (handle_delete_machine now s id db).1

unfoldable pub serve_admin : Server → ℕ → Session → AdminRoute → Db → Db
serve_admin srv now s (create_machine form) db =
    (handle_admin_create_machine srv.netip srv.pool now s form db).1
serve_admin srv now s (update_machine id form) db =
    (handle_update_machine srv.netip srv.pool now s id form db).1
serve_admin srv now s (disable_machine id) db = (handle_disable_machine now s id db).1
serve_admin srv now s (enable_machine id) db = (handle_enable_machine now s id db).1
serve_admin srv now s (remove_machine id) db = (handle_admin_delete_machine now s id db).1
serve_admin srv now s (create_endpoint token form) db =
    (handle_create_endpoint srv.netip now s token form db).1
serve_admin srv now s (update_endpoint id form) db =
    (handle_update_endpoint srv.netip now s id form db).1
serve_admin srv now s (regenerate_token token id) db = (handle_regenerate_token now s token id db).1
serve_admin srv now s (delete_endpoint id) db = (handle_delete_endpoint now s id db).1
serve_admin srv now s (adopt_peer form) db = (handle_adopt_peer srv.netip srv.pool now s form db).1
serve_admin srv now s (link_peer form) db = (handle_link_peer srv.netip srv.pool now s form db).1

-- What happens to the server: a request that its guard lets through with a session, an upload, the
-- hourly sweep, and the login of a user whose name is recorded on their machines.
pub data Event : Type 0 where
  by_user : ℕ → Session → UserRoute → Event
  by_admin : ℕ → Session → AdminRoute → Event
  by_hub : ℕ → Option ℕ → Text → Text → Event
  by_sweep : ℕ → (Text → Presence) → Faults → Event
  by_login : Text → Text → Event

abbrev pub on_portal : (Portal → Portal) → Db → Db
on_portal f db = (f (record { db = db; alerts = [] })).db

-- Only an administrator's request reaches a handler under `admin`.
unfoldable pub serve : Server → Event → Db → Db
unfolding serve_user serve_admin
serve srv (by_user now s route) db = serve_user srv now s route db
serve srv (by_admin now s route) db = if s.admin then serve_admin srv now s route db else db
serve srv (by_hub now id header body) db = (handle_status_upload now id header body db).1
serve srv (by_sweep now lookup faults) db = on_portal (sweep srv.cfg lookup faults now) db
serve srv (by_login uid name) db = update_owner_name uid name db

-- A history, from the first event.
unfoldable pub run : Server → List Event → Db → Db
unfolding serve
run srv [] db = db
run srv (e ∷ es) db = run srv es (serve srv e db)
