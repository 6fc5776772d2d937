-- ===== src/Store/Status.antt =====
-- internal/store/status.go: the reported peers, the report times and the traffic history. Byte
-- counters are not negative; a handshake of the zero time is stored as 0 here, where the source
-- stores the negative Unix second of the zero time: both compare as older than any handshake, and
-- both are read back as the zero time.
pub mod Report
pub mod Seen
pub mod History
pub mod Accept
use mathlib.Core.Option
use wgroster.Prelude.{
  ℕ, zero, suc, ◌+◌, ◌-◌, ◌/◌, Bool, true, false, not, ◌&&◌, ◌||◌, Option, none, some, List, [],
  ◌∷◌, ◌++◌, map, Text, text_eq, ltb, leb, ◌==◌, if◌then◌else◌, select, update, delete, first, any,
  sort_by, text_lt,
}
use wgroster.Store.Models.{Machine, StatusPeer}
use wgroster.Store.Db.{Db, Sample, constraint, Result, ok, err, ◌>>=◌}
use wgroster.Store.Machines.{has_endpoint}

abbrev pub peer_has_key : Text → StatusPeer → Bool
peer_has_key key p = text_eq p.public_key key

abbrev pub on_endpoint : ℕ → StatusPeer → Bool
on_endpoint eid p = p.endpoint_id == eid

-- The values that ReplaceStatus keeps across a WireGuard restart.
abbrev pub keep_known : StatusPeer → StatusPeer → StatusPeer
keep_known p old = record p {
  last_handshake =
      if ltb p.last_handshake old.last_handshake then old.last_handshake else p.last_handshake;
  remote_endpoint = if text_eq p.remote_endpoint [] then old.remote_endpoint else p.remote_endpoint;
}

abbrev pub merge_known : StatusPeer → Option StatusPeer → StatusPeer
merge_known p none = p
merge_known p (some old) = keep_known p old

-- The row that ReplaceStatus writes for a reported peer, given the endpoint's previous rows.
unfoldable pub merged : ℕ → List StatusPeer → StatusPeer → StatusPeer
merged eid prev p =
    merge_known (record p { endpoint_id = eid }) (first (peer_has_key p.public_key) prev)

-- UPDATE machine SET last_seen=? WHERE public_key=? AND last_seen<?, for a handshake above 0.
unfoldable pub see_machine : Text → ℕ → List Machine → List Machine
see_machine key handshake ms =
    if ltb 0 handshake
    then update (λ m. text_eq m.public_key key && ltb m.last_seen handshake)
        (λ m. record m { last_seen = handshake }) ms
    else ms

abbrev pub same_row : StatusPeer → StatusPeer → Bool
same_row p q = q.endpoint_id == p.endpoint_id && text_eq q.public_key p.public_key

-- The loop over the reported peers: the primary key and the foreign key are checked.
unfoldable pub insert_peers : ℕ → List StatusPeer → List StatusPeer → Db → Result Db
insert_peers eid prev [] db = ok db
insert_peers eid prev (p ∷ ps) db =
    let row = merged eid prev p in
    let rest = insert_peers eid prev ps (record db {
      status_peers = db.status_peers ++ row ∷ [];
      machines = see_machine row.public_key row.last_handshake db.machines;
    }) in
    if any (same_row row) db.status_peers || not (has_endpoint eid db) then err constraint else rest

-- INSERT INTO status_report … ON CONFLICT DO UPDATE.
unfoldable pub upsert_report : ℕ → ℕ → List (ℕ × ℕ) → List (ℕ × ℕ)
upsert_report eid at [] = (eid, at) ∷ []
upsert_report eid at ((e, t) ∷ rs) =
    if e == eid then (eid, at) ∷ rs else (e, t) ∷ upsert_report eid at rs

abbrev pub sample_of : ℕ → ℕ → StatusPeer → Sample
sample_of eid at p = record {
  endpoint_id = eid;
  public_key = p.public_key;
  report_ts = at;
  rx = p.rx;
  tx = p.tx;
}

-- historyRetention, in seconds.
abbrev pub history_retention : ℕ
history_retention = 1209600

-- The report time, the new samples, and the trim of the history.
unfoldable pub record_report : ℕ → List StatusPeer → ℕ → Db → Result Db
unfolding upsert_report
record_report eid peers at db =
    if not (has_endpoint eid db)
    then err constraint
    else ok (record db {
      status_reports = upsert_report eid at db.status_reports;
      status_history =
          delete (λ (h : Sample). ltb h.report_ts (at - history_retention))
            (db.status_history ++ map (sample_of eid at) peers);
    })

-- ReplaceStatus, one transaction.
unfoldable pub replace_status : ℕ → List StatusPeer → ℕ → Db → Result Db
replace_status eid peers at db = do
  inserted ←
      insert_peers eid (select (on_endpoint eid) db.status_peers) peers
        (record db { status_peers = delete (on_endpoint eid) db.status_peers })
  record_report eid peers at inserted

-- The rows of an endpoint, in the order of insertion.
abbrev pub rows_on : ℕ → Db → List StatusPeer
rows_on eid db = select (on_endpoint eid) db.status_peers

-- PeersForEndpoint, in the order of the primary key, from which the rows are read.
unfoldable pub peers_for_endpoint : ℕ → Db → List StatusPeer
peers_for_endpoint eid db =
    sort_by (λ (p q : StatusPeer). text_lt p.public_key q.public_key) (rows_on eid db)

-- PeersByKey.
unfoldable pub peers_by_key : Text → Db → List StatusPeer
peers_by_key key db = select (peer_has_key key) db.status_peers

-- LastReport.
unfoldable pub last_report : ℕ → Db → Option ℕ
last_report eid db = Option.map (λ (r : ℕ × ℕ). r.1) (first (λ r. r.0 == eid) db.status_reports)

-- The loop of LatestPeerByKey for one key: a later row replaces the kept one if its handshake is
-- newer.
unfoldable pub latest_from : Option StatusPeer → List StatusPeer → Option StatusPeer
latest_from cur [] = cur
latest_from none (p ∷ ps) = latest_from (some p) ps
latest_from (some c) (p ∷ ps) =
    latest_from (some (if ltb c.last_handshake p.last_handshake then p else c)) ps

-- The WHERE of LatestPeerByKey: for an owner, only the keys of that owner's machines.
abbrev pub of_owner : Text → Db → StatusPeer → Bool
of_owner uid db p =
    if text_eq uid []
    then true
    else any (λ (m : Machine). text_eq m.owner_uid uid && text_eq m.public_key p.public_key)
        db.machines

-- LatestPeerByKey, as the map from public key to peer.
unfoldable pub latest_peer_by_key : Text → Db → Text → Option StatusPeer
unfolding latest_from
latest_peer_by_key uid db key =
    latest_from none (select (peer_has_key key) (select (of_owner uid db) db.status_peers))
