-- ===== src/Web/Handlers/Enroll.antt =====
-- internal/web/enroll_handler.go: self-enrollment.
pub mod Reservation
use wgroster.Prelude.{
  ℕ, Bool, not, ◌&&◌, ◌||◌, none, some, List, [], ◌∷◌, ◌++◌, Text, txt, text_eq, if◌then◌else◌,
}
use wgroster.Strings.{trim_space}
use wgroster.Netip.{Netip}
use wgroster.Ipam.{Pool, next_free}
use wgroster.Config.{Config}
use wgroster.Store.Models.{Endpoint}
use wgroster.Store.Db.{Db, ok, err}
use wgroster.Store.Sessions.{Session}
use wgroster.Store.Machines.{create_machine, set_machine_address}
use wgroster.Store.Service.{delete_machine, set_machine_endpoints, used_addresses}
use wgroster.Store.Endpoints.{endpoint_by_name}
use wgroster.Web.Forms.{valid_name, valid_public_key}
use wgroster.Wg.AllowedIps.{default_allowed_ips}
use wgroster.Web.Handlers.{
  Reason, invalid_name, too_many_pending, taken, self_enroll_off, no_free_address, address_conflict,
  Reply, server_error, refused, forbidden, MachineForm, audit, target_of,
}
use wgroster.Web.Handlers.Devices.{own_machine, at_cap}

-- enrollResponse, with the fields of enrollPeer.
pub record EnrollResponse : Type 0 where
  pub address : Text
  pub dns : Text
  pub mtu : ℕ
  pub public_key : Text
  pub endpoint : Text
  pub allowed_ips : Text
  pub persistent_keepalive : ℕ

pub data EnrollReply : Type 0 where
  enroll_refused : Reply → EnrollReply
  enrolled : EnrollResponse → EnrollReply

unfoldable pub enroll_response : Text → Endpoint → EnrollResponse
enroll_response address ep = record {
  address = address ++ txt "/32";
  dns = ep.dns;
  mtu = ep.mtu;
  public_key = ep.public_key;
  endpoint = ep.host_port;
  allowed_ips = if text_eq ep.allowed_ips [] then txt "0.0.0.0/0" else ep.allowed_ips;
  persistent_keepalive = ep.persistent_keepalive;
}

-- The part of handleEnroll after the row is created.
unfoldable pub enroll_created :
    ℕ → Session → MachineForm → Endpoint → Text → ℕ → Db → EnrollReply × Db
unfolding enroll_response
enroll_created now session form ep address id db = elim (set_machine_address id address db) [
  | err e ↦ (enroll_refused (refused address_conflict), delete_machine id db)
  | ok addressed ↦ elim (set_machine_endpoints id (ep.id ∷ []) addressed) [
    | err e ↦ (enroll_refused server_error, addressed)
    | ok linked ↦ (
      enrolled (enroll_response address ep),
      audit now session (txt "machine.enroll") (target_of session.uid (trim_space form.name))
          linked,
    )
  ]
]

module _ (netip : Netip) where
  -- The part after the endpoint is found.
  unfoldable pub enroll_on :
      Config → Pool → ℕ → Session → MachineForm → Endpoint → Db → EnrollReply × Db
  unfolding enroll_created
  enroll_on cfg pool now session form ep db =
      if at_cap cfg session.uid db
      then (enroll_refused (refused too_many_pending), db)
      else elim (next_free netip pool (used_addresses db)) [
        | none ↦ (enroll_refused (refused no_free_address), db)
        | some address ↦ elim (create_machine now (own_machine session form) db) [
          | err e ↦ (enroll_refused (refused taken), db)
          | ok (id, created) ↦ enroll_created now session form ep address id created
        ]
      ]

  -- handleEnroll.
  unfoldable pub handle_enroll : Config → Pool → ℕ → Session → MachineForm → Db → EnrollReply × Db
  unfolding enroll_on
  handle_enroll cfg pool now session form db =
      if not cfg.self_enroll
      then (enroll_refused (refused self_enroll_off), db)
      else if not (valid_name (trim_space form.name))
          || not (valid_public_key (trim_space form.public_key))
      then (enroll_refused (refused invalid_name), db)
      else elim (endpoint_by_name cfg.self_enroll_endpoint db) [
        | err e ↦ (enroll_refused server_error, db)
        | ok ep ↦ enroll_on cfg pool now session form ep db
      ]
