-- ===== src/Tests/Histories.antt =====
-- A server with the pool 10.8.0.0/29, and a history on it: an endpoint, a machine that is enrolled,
-- approved and then served its configuration.
use wgroster.Prelude.{refl, true, false, some, List, In, [], ◌∷◌, Text, txt, inl, inr, arith}
use wgroster.Config.{Config, flag}
use wgroster.Strings.{has_char}
use wgroster.Store.Db.{Db}
use wgroster.Store.Sessions.{Session}
use wgroster.Web.Handlers.{MachineForm}
use wgroster.Web.Handlers.Endpoints.{EndpointForm}
use wgroster.Web.Maintenance.{Faults}
use wgroster.Web.Routes.{
  Server, Event, by_user, by_admin, by_login, create_endpoint, enroll, update_machine, edit_machine,
  delete_machine, serve, serve_user, run,
}
use wgroster.Web.Routes.Vouched.{IsVouched}
use wgroster.Web.Routes.Histories.{IsSound, run-IsSound, run-IsVouched, serve-Writes}
use wgroster.Web.Routes.Writes.{Writes, staff}
use wgroster.Web.Routes.Foreign.{serve_user-foreign}
use wgroster.Tests.Tables.{phone, roster, roster-IsWellFormed}
use wgroster.Tests.Addresses.{pool, pool-IsMasked}
use wgroster.Tests.PlainNumbers.{plain_numbers, plain_numbers-ParsesOneLine}

abbrev config : Config
config = record {
  ldap_configured = true;
  alert_webhook = true;
  self_enroll = true;
  self_enroll_endpoint = txt "gate";
  max_pending_per_user = 3;
  pending_expiry_days = 7;
  audit_retention_days = 90;
  orphan_grace_days = 3;
  orphan_action = flag;
  dormant_days = 30;
  dormant_action = flag;
}

abbrev pub server : Server
server = record { cfg = config; netip = plain_numbers; pool = pool }

abbrev pub root : Session
root = record {
  sid = txt "s0";
  uid = txt "root";
  name = [];
  admin = true;
  local = true;
  csrf = txt "c";
  issued_at = 0;
  expiry = 100;
}

abbrev pub ada : Session
ada = record root { sid = txt "s1"; uid = txt "ada"; name = txt "Ada"; admin = false }

abbrev pub bob : Session
bob = record ada { sid = txt "s2"; uid = txt "bob"; name = [] }

abbrev key : Text
key = txt "AAAAAAAAAAAAAAAAAAAAAAAAAAAAAAAAAAAAAAAAAAA="

abbrev gate_form : EndpointForm
gate_form = record {
  name = txt "gate";
  public_key = txt "BBBBBBBBBBBBBBBBBBBBBBBBBBBBBBBBBBBBBBBBBBB=";
  host_port = txt "vpn.example.org:51820";
  allowed_ips = [];
  dns = [];
  tunnel_ip = [];
  mtu = txt "1420";
  persistent_keepalive = [];
}

abbrev pub laptop_form : MachineForm
laptop_form = record {
  owner_uid = txt "ada";
  name = txt " laptop ";
  public_key = key;
  icon = txt "laptop";
  address = 4 ∷ 168296469 ∷ [];
  endpoint_ids = txt "1" ∷ [];
}

abbrev no_faults : Faults
no_faults = record {
  disabling = λ id. false;
  flagging = λ id. false;
  clearing = λ id. false;
  marking = λ uid. false;
  flagging_owner = λ uid. false;
}

-- The endpoint is created, ada enrolls a laptop, and the administrator approves it.
abbrev pub history : List Event
history =
    by_admin 10 root (create_endpoint (txt "token") gate_form)
    ∷ by_user 20 ada (enroll laptop_form)
    ∷ by_admin 30 root (update_machine (some 1) laptop_form)
    ∷ []

abbrev pub empty_db : Db
empty_db = record {
  machines = [];
  next_machine = 1;
  endpoints = [];
  next_endpoint = 1;
  links = [];
  status_peers = [];
  status_reports = [];
  status_history = [];
  owner_checks = [];
  audit_log = [];
}

pub empty_db-IsSound : IsSound empty_db
empty_db-IsSound = record {
  well_formed = record {
    machines = record { ids = tt; below = tt; keys = tt; addresses = tt };
    endpoints = record { ids = tt; below = tt; names = tt; keys = tt };
    links = record { unique = tt; machine = tt; endpoint = tt };
  };
  plain = record { machines = tt; endpoints = tt; reports = tt };
}

pub roster-IsSound : IsSound roster
unfolding has_char
roster-IsSound = record {
  well_formed = roster-IsWellFormed;
  plain = record {
    machines = (
      record { public_key = refl; address = refl },
      (record { public_key = refl; address = refl }, tt),
    );
    endpoints = (
      record {
        public_key = refl;
        host_port = refl;
        allowed_ips = refl;
        dns = refl;
        tunnel_ip = refl;
      },
      tt,
    );
    reports = tt;
  };
}

run-IsSound_example : IsSound (run server history empty_db)
run-IsSound_example =
    run-IsSound server plain_numbers-ParsesOneLine pool-IsMasked history empty_db empty_db-IsSound

-- Bob, who has a pending phone, edits it and has a laptop enrolled; a login follows.
abbrev visits : List Event
visits =
    by_user 10 bob (edit_machine (some 2) laptop_form)
    ∷ by_user 20 bob (enroll laptop_form)
    ∷ by_login (txt "ada") (txt "Ada L")
    ∷ []

run-IsVouched_example : IsVouched roster.machines (run server visits roster).machines
run-IsVouched_example =
    run-IsVouched server plain_numbers-ParsesOneLine pool-IsMasked visits roster
      (tt, (tt, (tt, tt))) roster-IsSound

serve-Writes_example :
    Writes staff roster
      (serve server (by_admin 10 root (update_machine (some 2) laptop_form)) roster)
serve-Writes_example =
    serve-Writes server plain_numbers-ParsesOneLine pool-IsMasked
      (by_admin 10 root (update_machine (some 2) laptop_form)) roster roster-IsSound.plain

serve_user-foreign_example :
    In phone (serve_user server 10 ada (delete_machine (some 2)) roster).machines
serve_user-foreign_example =
    serve_user-foreign server 10 ada (delete_machine (some 2)) roster phone roster-IsWellFormed refl
      (λ e. ground arith) (inr (inl refl))
