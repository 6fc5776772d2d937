-- ===== src/Tests/Tables.antt =====
-- A database with two machines of two owners and one endpoint, which the first machine uses.
use wgroster.Prelude.{refl, none, some, [], ◌∷◌, txt, arith}
use wgroster.Store.Models.{Machine, Endpoint, pending, active}
use wgroster.Store.Db.{Db}
use wgroster.Store.Invariant.{IsWellFormed}

abbrev pub laptop : Machine
laptop = record {
  id = 1;
  owner_uid = txt "ada";
  owner_name = txt "Ada";
  name = txt "laptop";
  public_key = txt "K1";
  address = txt "10.8.0.1";
  status = active;
  icon = txt "laptop";
  created_at = 100;
  approved_at = some 200;
  approved_by = txt "root";
  pending_since = 100;
  last_seen = 0;
  dormant_since = 0;
}

abbrev pub phone : Machine
phone = record laptop {
  id = 2;
  owner_uid = txt "bob";
  name = txt "phone";
  public_key = txt "K2";
  address = [];
  status = pending;
  approved_at = none;
}

abbrev pub gate : Endpoint
gate = record {
  id = 1;
  name = txt "gate";
  public_key = txt "E1";
  host_port = txt "vpn:51820";
  allowed_ips = txt "10.0.0.0/8";
  dns = [];
  mtu = 0;
  persistent_keepalive = 25;
  tunnel_ip = [];
  upload_token = txt "T";
  created_at = 50;
}

abbrev pub roster : Db
roster = record {
  machines = laptop ∷ phone ∷ [];
  next_machine = 3;
  endpoints = gate ∷ [];
  next_endpoint = 2;
  links = (1, 1) ∷ [];
  status_peers = [];
  status_reports = [];
  status_history = [];
  owner_checks = [];
  audit_log = [];
}

pub roster-IsWellFormed : IsWellFormed roster
roster-IsWellFormed = record {
  machines = record {
    ids = ((λ e. omega (arith, e), tt), (tt, tt));
    below = (omega arith, (omega arith, tt));
    keys = ((λ e. ground arith, tt), (tt, tt));
    addresses = ((λ e. ground arith, tt), (tt, tt));
  };
  endpoints = record {
    ids = (tt, tt);
    below = (omega arith, tt);
    names = (tt, tt);
    keys = (tt, tt);
  };
  links = record { unique = (tt, tt); machine = (refl, tt); endpoint = (refl, tt) };
}
