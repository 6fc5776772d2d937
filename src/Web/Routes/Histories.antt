-- ===== src/Web/Routes/Histories.antt =====
-- The databases that a history of requests, uploads, sweeps and logins leads to.
use wgroster.Prelude.{Bool, true, if◌then◌else◌, ℕ, ◌≡◌, false, List, [], ◌∷◌, All}
use wgroster.Netip.Prefixes.{IsMasked}
use wgroster.Store.Db.{Db}
use wgroster.Store.Sessions.{Session}
use wgroster.Store.Invariant.{IsWellFormed}
use wgroster.Web.Handlers.Machines.{
  handle_update_machine, handle_disable_machine, handle_enable_machine,
}
use wgroster.Web.Routes.{
  Server, Event, by_user, by_admin, by_hub, by_sweep, by_login, AdminRoute, create_machine,
  update_machine, disable_machine, enable_machine, remove_machine, create_endpoint, update_endpoint,
  regenerate_token, delete_endpoint, adopt_peer, link_peer, serve_admin, serve, run,
}
use wgroster.Web.Routes.Writes.{Actor, anyone, staff, Writes, stop, one, renamed}
use wgroster.Web.Routes.WellFormed.{Writes-IsWellFormed}
use wgroster.Web.Routes.Plain.{IsPlain, Writes-IsPlain}
use wgroster.Web.Routes.Vouched.{IsVouched, Writes-IsVouched}
use wgroster.Web.Routes.Users.{ParsesOneLine, serve_user-Writes}
use wgroster.Web.Routes.Admins.{
  admin_create-Writes, update_machine-Writes, disable_machine-Writes, enable_machine-Writes,
  on_machine-Writes, delete-Writes,
}
use wgroster.Web.Routes.Adoptions.{handle_adopt_peer-Writes, handle_link_peer-Writes}
use wgroster.Web.Routes.Concentrators.{
  create_endpoint-Writes, update_endpoint-Writes, regenerate_token-Writes, delete_endpoint-Writes,
  upload-Writes,
}
use wgroster.Web.Routes.Dormant.{sweep-Writes}

by_role :
    (admin : Bool) (db db' : Db)
    → Writes staff db db'
    → Writes (if admin then staff else anyone) db (if admin then db' else db)
by_role true db db' w = w
by_role false db db' w = stop db

-- Both invariants of the database.
pub record IsSound (db : Db) : Type 0 where
  pub well_formed : IsWellFormed db
  pub plain : IsPlain db

Writes-IsSound : {a : Actor} {db db' : Db} → Writes a db db' → IsSound db → IsSound db'
Writes-IsSound w s = record {
  well_formed = Writes-IsWellFormed w s.well_formed;
  plain = Writes-IsPlain w s.plain;
}

module _ (srv : Server) (plain : ParsesOneLine srv.netip)
    (masked_pool : IsMasked srv.pool.prefix) where
  serve_admin-Writes :
      (now : ℕ) (s : Session) (route : AdminRoute) (db : Db)
      → IsPlain db
      → Writes staff db (serve_admin srv now s route db)
  unfolding serve_admin handle_update_machine handle_disable_machine handle_enable_machine
  serve_admin-Writes now s (create_machine form) db p =
      admin_create-Writes srv.netip plain srv.pool now s form db
  serve_admin-Writes now s (update_machine id form) db p =
      on_machine-Writes id db _
        (λ m. update_machine-Writes srv.netip plain srv.pool now s m form db)
  serve_admin-Writes now s (disable_machine id) db p =
      on_machine-Writes id db _ (λ m. disable_machine-Writes now s m db)
  serve_admin-Writes now s (enable_machine id) db p =
      on_machine-Writes id db _ (λ m. enable_machine-Writes now s m db)
  serve_admin-Writes now s (remove_machine id) db p = delete-Writes now s id db
  serve_admin-Writes now s (create_endpoint token form) db p =
      create_endpoint-Writes srv.netip now s token form db
  serve_admin-Writes now s (update_endpoint id form) db p =
      update_endpoint-Writes srv.netip now s id form db
  serve_admin-Writes now s (regenerate_token token id) db p =
      regenerate_token-Writes now s token id db
  serve_admin-Writes now s (delete_endpoint id) db p = delete_endpoint-Writes now s id db
  serve_admin-Writes now s (adopt_peer form) db p =
      handle_adopt_peer-Writes srv.netip plain srv.pool now s form db p
  serve_admin-Writes now s (link_peer form) db p =
      handle_link_peer-Writes srv.netip plain srv.pool now s form db

  -- The events that involve no administrator's request make only the writes of anyone.
  abbrev pub IsUnprivileged : Event → Type 0
  IsUnprivileged (by_admin now s route) = s.admin ≡ false
  IsUnprivileged _ = Unit

  unprivileged-Writes :
      {a : Actor} (e : Event) (db : Db) → IsUnprivileged e → Writes a db (serve srv e db)
  unfolding serve
  unprivileged-Writes (by_user now s route) db u =
      serve_user-Writes srv now s route db plain masked_pool
  unprivileged-Writes (by_admin now s route) db u = rw u (stop db)
  unprivileged-Writes (by_hub now id header body) db u = upload-Writes now id header body db
  unprivileged-Writes (by_sweep now lookup faults) db u =
      sweep-Writes srv.cfg lookup faults now (record { db = db; alerts = [] })
  unprivileged-Writes (by_login uid name) db u = one (renamed uid name db)

  -- Staff is an admin who makes a request to an admin route.
  abbrev pub actor_of : Event → Actor
  actor_of (by_admin now s route) = if s.admin then staff else anyone
  actor_of (by_user now s route) = anyone
  actor_of (by_hub now id header body) = anyone
  actor_of (by_sweep now lookup faults) = anyone
  actor_of (by_login uid name) = anyone

  -- For a server whose pool prefix is masked and whose address texts have no line breaks, on a
  -- database whose printed values have no line breaks, the effect of every event is a sequence
  -- of the writes that its actor may make: staff for a request of an admin to an admin route,
  -- anyone for every other event.
  pub serve-Writes : (e : Event) (db : Db) → IsPlain db → Writes (actor_of e) db (serve srv e db)
  unfolding serve
  serve-Writes (by_admin now s route) db p =
      by_role s.admin db (serve_admin srv now s route db) (serve_admin-Writes now s route db p)
  serve-Writes (by_user now s route) db p = unprivileged-Writes (by_user now s route) db tt
  serve-Writes (by_hub now id header body) db p =
      unprivileged-Writes (by_hub now id header body) db tt
  serve-Writes (by_sweep now lookup faults) db p =
      unprivileged-Writes (by_sweep now lookup faults) db tt
  serve-Writes (by_login uid name) db p = unprivileged-Writes (by_login uid name) db tt

  serve-IsSound : (e : Event) (db : Db) → IsSound db → IsSound (serve srv e db)
  serve-IsSound e db h = Writes-IsSound (serve-Writes e db h.plain) h

  -- For a server whose pool prefix is masked and whose address texts have no line breaks, every
  -- history of requests, uploads, sweeps and logins, failing or not, keeps the database well
  -- formed, and keeps every value that a generated configuration prints raw on one line.
  pub run-IsSound : (es : List Event) (db : Db) → IsSound db → IsSound (run srv es db)
  unfolding run
  run-IsSound [] db h = h
  run-IsSound (e ∷ es) db h = run-IsSound es (serve srv e db) (serve-IsSound e db h)

  -- For a server whose pool prefix is masked and whose address texts have no line breaks, from
  -- a sound database, every machine that is active after a history without requests of admins
  -- to admin routes was active before it, with the same id and public key: only an admin brings
  -- a key into service.
  pub run-IsVouched :
      (es : List Event) (db : Db)
      → All IsUnprivileged es
      → IsSound db
      → IsVouched db.machines (run srv es db).machines
  unfolding run
  run-IsVouched [] db u h = λ id key s. s
  run-IsVouched (e ∷ es) db u h = λ id key s.
      Writes-IsVouched (unprivileged-Writes e db u.0) h.well_formed id key
        (run-IsVouched es (serve srv e db) u.1 (serve-IsSound e db h) id key s)
