-- ===== src/Web/Routes/Plain.antt =====
-- The values that reach a generated configuration, across the writes of internal/web: none of them
-- has a line break.
mod Machines
use wgroster.Prelude.{
  ℕ, ◌≡◌, refl, sym, subst, Bool, true, false, List, [], ◌∷◌, ◌++◌, Text, any, All, arith,
  if◌then◌else◌, All-select, All-append, All-update, inl, inr, Bool-cases, Option-cases, ◌&&◌,
}
use wgroster.Strings.{has_char}
use wgroster.Store.Models.{Machine, Endpoint, StatusPeer}
use wgroster.Store.Db.{Db, ok, err, Result, DbError, constraint}
use wgroster.Store.Machines.{
  has_id, has_machine, has_key, NewMachine, create_machine, new_row, update_machine_identity,
  update_own_machine, set_machine_address, set_machine, requeue, requeue_if, find_machine,
  key_of_other, address_of_other,
}
use wgroster.Store.Service.{
  update_owner_name, set_machine_disabled, set_machine_active, flag_machine_dormant,
  clear_machine_dormant, activate_columns, activation, assign, replace_endpoints, insert_links,
}
use wgroster.Store.Endpoints.{
  create_endpoint, update_endpoint, set_endpoint_token, delete_endpoint, endpoint_clash,
  edited_columns, endpoint_has_id,
}
use wgroster.Store.Status.{replace_status, merged, rows_on}
use wgroster.Store.Status.Report.{replace_status-Reported}
use wgroster.Store.Status.Seen.{replace_status-last_seen, seen_at, newest_handshake}
use wgroster.Store.Invariant.Machines.{Ensures, Ensures-bind, unless-Ensures}
use wgroster.Wg.Config.Lines.{IsOneLine, IsPlainMachine, IsPlainEndpoint}
use wgroster.Wg.Dump.Lines.{HasPlainKey}
use wgroster.Web.Routes.WellFormed.{ensured, All-map}
use wgroster.Web.Routes.Writes.{
  Actor, Write, Writes, stop, go, created, edited, addressed, linked, deleted, disabled, flagged,
  cleared, renamed, reported, aside, identified, assigned, enabled, endpoint_created,
  endpoint_updated, token_set, endpoint_deleted,
}
use wgroster.Web.Routes.Plain.Machines.{
  on_machines, set_machine-IsPlain, same-IsPlain, create_machine-IsPlain,
  update_machine_identity-IsPlain, set_machine_address-IsPlain, update_own_machine-IsPlain,
  replace_endpoints-IsPlain, assign-IsPlain,
}
pub use wgroster.Web.Routes.Plain.Machines.{IsPlain}

create_endpoint-IsPlain :
    (now : ℕ) (e : Endpoint) (db : Db)
    → IsPlainEndpoint e
    → IsPlain db
    → Ensures (λ (r : ℕ × Db). IsPlain r.1) (create_endpoint now e db)
unfolding create_endpoint
create_endpoint-IsPlain now e db k p = elim (Bool-cases (any (endpoint_clash e) db.endpoints)) [
  | inl x ↦ rw x tt
  | inr x ↦ rw x (record {
    machines = p.machines;
    endpoints =
        All-append IsPlainEndpoint db.endpoints
          (record e { id = db.next_endpoint; created_at = now }) p.endpoints
          (plain_as e _ k refl refl refl refl refl);
    reports = p.reports;
  })
]
  where
    plain_as :
        (e f : Endpoint)
        → IsPlainEndpoint e
        → f.public_key ≡ e.public_key
        → f.host_port ≡ e.host_port
        → f.allowed_ips ≡ e.allowed_ips
        → f.dns ≡ e.dns
        → f.tunnel_ip ≡ e.tunnel_ip
        → IsPlainEndpoint f
    plain_as e f k a b c d x = record {
      public_key = rw a k.public_key;
      host_port = rw b k.host_port;
      allowed_ips = rw c k.allowed_ips;
      dns = rw d k.dns;
      tunnel_ip = rw x k.tunnel_ip;
    }

update_endpoint-IsPlain :
    (e : Endpoint) (db : Db)
    → IsPlainEndpoint e
    → IsPlain db
    → Ensures IsPlain (update_endpoint e db)
unfolding update_endpoint
update_endpoint-IsPlain e db k p = unless-Ensures IsPlain _ constraint (ok _) (record {
  machines = p.machines;
  endpoints =
      All-update IsPlainEndpoint IsPlainEndpoint (endpoint_has_id e.id) (edited_columns e)
        (λ f _ h. record {
          public_key = k.public_key;
          host_port = k.host_port;
          allowed_ips = k.allowed_ips;
          dns = k.dns;
          tunnel_ip = k.tunnel_ip;
        })
        (λ f _ h. h) db.endpoints p.endpoints;
  reports = p.reports;
})

set_endpoint_token-IsPlain :
    (id : ℕ) (token : Text) (db : Db) → IsPlain db → IsPlain (set_endpoint_token id token db)
unfolding set_endpoint_token
set_endpoint_token-IsPlain id token db p = record {
  machines = p.machines;
  endpoints =
      All-update IsPlainEndpoint IsPlainEndpoint (endpoint_has_id id)
        (λ (e : Endpoint). record e { upload_token = token })
        (λ f _ h. record {
          public_key = h.public_key;
          host_port = h.host_port;
          allowed_ips = h.allowed_ips;
          dns = h.dns;
          tunnel_ip = h.tunnel_ip;
        })
        (λ f _ h. h) db.endpoints p.endpoints;
  reports = p.reports;
}

delete_endpoint-IsPlain : (id : ℕ) (db : Db) → IsPlain db → IsPlain (delete_endpoint id db)
unfolding delete_endpoint
delete_endpoint-IsPlain id db p = record {
  machines = p.machines;
  endpoints = All-select IsPlainEndpoint _ db.endpoints p.endpoints;
  reports = All-select HasPlainKey _ db.status_peers p.reports;
}

All-join : {A : Type 0} (P : A → Type 0) (xs ys : List A) → All P xs → All P ys → All P (xs ++ ys)
All-join P [] ys h k = k
All-join P (x ∷ xs) ys h k = (h.0, All-join P xs ys h.1 k)

merged-key :
    (eid : ℕ) (prev : List StatusPeer) (p : StatusPeer)
    → (merged eid prev p).public_key ≡ p.public_key
unfolding merged
merged-key eid prev p = ground arith

replace_status-IsPlain :
    (eid at : ℕ) (peers : List StatusPeer) (db db' : Db)
    → All HasPlainKey peers
    → replace_status eid peers at db ≡ ok db'
    → IsPlain db
    → IsPlain db'
replace_status-IsPlain eid at peers db db' k h p =
    let r = replace_status-Reported eid peers at db db' h in
    record {
      machines = rw (replace_status-last_seen eid peers at db db' h) (
          All-map IsPlainMachine IsPlainMachine _
            (same-IsPlain (seen_at (newest_handshake eid (rows_on eid db) peers)) (λ m. refl)
              (λ m. refl))
            db.machines p.machines);
      endpoints = rw r.endpoints p.endpoints;
      reports = rw r.rows (
          All-join HasPlainKey _ _ (All-select HasPlainKey _ db.status_peers p.reports) (
            All-map HasPlainKey HasPlainKey _ (λ x h. rw (merged-key eid (rows_on eid db) x) h)
              peers k));
    }

write-IsPlain : {a : Actor} {db db' : Db} → Write a db db' → IsPlain db → IsPlain db'
unfolding update_owner_name set_machine_disabled set_machine_active flag_machine_dormant
    clear_machine_dormant
write-IsPlain (created now id n db db' k e) p =
    ensured _ _ (id, db') e (create_machine-IsPlain now n db k p)
write-IsPlain (edited now id name key icon r db db' k e) p =
    ensured _ _ (r, db') e (update_own_machine-IsPlain now id name key icon db k p)
write-IsPlain (addressed id address db db' k e) p =
    ensured IsPlain _ db' e (set_machine_address-IsPlain id address db k p)
write-IsPlain (linked id eids db db' e) p =
    ensured IsPlain _ db' e (replace_endpoints-IsPlain id eids db p)
write-IsPlain (deleted q db) p = record {
  machines = All-select IsPlainMachine _ db.machines p.machines;
  endpoints = p.endpoints;
  reports = p.reports;
}
write-IsPlain (disabled id db) p =
    set_machine-IsPlain id _ db (same-IsPlain _ (λ m. refl) (λ m. refl)) p
write-IsPlain (flagged id at db) p =
    set_machine-IsPlain id _ db (same-IsPlain _ (λ m. refl) (λ m. refl)) p
write-IsPlain (cleared id db) p =
    set_machine-IsPlain id _ db (same-IsPlain _ (λ m. refl) (λ m. refl)) p
write-IsPlain (renamed uid name db) p =
    on_machines _ db _ refl
      (All-map IsPlainMachine IsPlainMachine _
        (same-IsPlain _ (λ m. ground arith) (λ m. ground arith)) db.machines p.machines)
      p
write-IsPlain (reported eid at peers db db' k e) p =
    replace_status-IsPlain eid at peers db db' k e p
write-IsPlain (aside db db' s) p = record {
  machines = rw s.machines p.machines;
  endpoints = rw s.endpoints p.endpoints;
  reports = rw s.status_peers p.reports;
}
write-IsPlain (identified id name key icon db db' k e) p =
    ensured IsPlain _ db' e (update_machine_identity-IsPlain id name key icon db k p)
write-IsPlain (assigned now id address eids activate by db db' k e) p =
    ensured IsPlain _ db' e (assign-IsPlain now id address eids activate by db k p)
write-IsPlain (enabled now id by db) p =
    set_machine-IsPlain id (activate_columns now by) db (same-IsPlain _ (λ m. refl) (λ m. refl)) p
write-IsPlain (endpoint_created now id e db db' k h) p =
    ensured _ _ (id, db') h (create_endpoint-IsPlain now e db k p)
write-IsPlain (endpoint_updated e db db' k h) p =
    ensured IsPlain _ db' h (update_endpoint-IsPlain e db k p)
write-IsPlain (token_set id token db) p = set_endpoint_token-IsPlain id token db p
write-IsPlain (endpoint_deleted id db) p = delete_endpoint-IsPlain id db p

pub Writes-IsPlain : {a : Actor} {db db' : Db} → Writes a db db' → IsPlain db → IsPlain db'
Writes-IsPlain (stop db) p = p
Writes-IsPlain (go x xs) p = Writes-IsPlain xs (write-IsPlain x p)
