-- ===== src/Store/Status/Report.antt =====
-- What a status report changes, and what it keeps.
use wgroster.Prelude.{
  ℕ, ◌-◌, ◌≡◌, sym, ap, ◌∙◌, inl, inr, List, [], ◌∷◌, ◌++◌, map, ltb, select, delete, arith,
}
use mathlib.Core.List.{append-nil, append_assoc}
use wgroster.Store.Models.{Machine, StatusPeer}
use wgroster.Store.Db.{Db, Sample, ok, Result-cases}
use wgroster.Store.Status.{
  on_endpoint, merged, see_machine, insert_peers, record_report, replace_status, rows_on,
  upsert_report, sample_of, history_retention,
}

-- The machines after the reported peers were seen.
abbrev pub see_all : ℕ → List StatusPeer → List StatusPeer → List Machine → List Machine
see_all eid prev [] ms = ms
see_all eid prev (p ∷ ps) ms =
    see_all eid prev ps
      (see_machine (merged eid prev p).public_key (merged eid prev p).last_handshake ms)

-- What a loop over the reported peers that commits has written.
record Inserted (eid : ℕ) (prev peers : List StatusPeer) (db db' : Db) : Type 0 where
  rows : db'.status_peers ≡ db.status_peers ++ map (merged eid prev) peers
  machines : db'.machines ≡ see_all eid prev peers db.machines
  endpoints : db'.endpoints ≡ db.endpoints
  links : db'.links ≡ db.links
  next_machine : db'.next_machine ≡ db.next_machine
  next_endpoint : db'.next_endpoint ≡ db.next_endpoint
  history : db'.status_history ≡ db.status_history
  reports : db'.status_reports ≡ db.status_reports

insert_peers-Inserted :
    (eid : ℕ) (prev peers : List StatusPeer) (db db' : Db)
    → insert_peers eid prev peers db ≡ ok db'
    → Inserted eid prev peers db db'
unfolding insert_peers
insert_peers-Inserted eid prev [] db db' h =
    let e : db ≡ db' = ground arith in
    record {
      rows = sym (ap (λ (d : Db). d.status_peers) e) ∙ sym (append-nil db.status_peers);
      machines = sym (ap (λ (d : Db). d.machines) e);
      endpoints = sym (ap (λ (d : Db). d.endpoints) e);
      links = sym (ap (λ (d : Db). d.links) e);
      next_machine = sym (ap (λ (d : Db). d.next_machine) e);
      next_endpoint = sym (ap (λ (d : Db). d.next_endpoint) e);
      history = sym (ap (λ (d : Db). d.status_history) e);
      reports = sym (ap (λ (d : Db). d.status_reports) e);
    }
insert_peers-Inserted eid prev (p ∷ ps) db db' h =
    let row = merged eid prev p in
    let db₁ : Db = record db {
      status_peers = db.status_peers ++ row ∷ [];
      machines = see_machine row.public_key row.last_handshake db.machines;
    } in
    let rest = insert_peers-Inserted eid prev ps db₁ db' (ground arith) in
    record {
      rows = rest.rows ∙ append_assoc db.status_peers (row ∷ []) (map (merged eid prev) ps);
      machines = rest.machines;
      endpoints = rest.endpoints;
      links = rest.links;
      next_machine = rest.next_machine;
      next_endpoint = rest.next_endpoint;
      history = rest.history;
      reports = rest.reports;
    }

-- What a status upload that commits leaves: for the endpoint exactly the reported peers, each merged
-- with its previous row; for other endpoints their rows; the endpoint's report time; and the
-- history with a sample for each reported peer, trimmed to the retention window.
pub record Reported (eid : ℕ) (peers : List StatusPeer) (at : ℕ) (db db' : Db) : Type 0 where
  pub rows :
      db'.status_peers
      ≡ delete (on_endpoint eid) db.status_peers ++ map (merged eid (rows_on eid db)) peers
  pub machines : db'.machines ≡ see_all eid (rows_on eid db) peers db.machines
  pub reports : db'.status_reports ≡ upsert_report eid at db.status_reports
  pub history :
      db'.status_history
      ≡ delete
          (λ (h : Sample). ltb h.report_ts (at - history_retention))
          (db.status_history ++ map (sample_of eid at) peers)
  pub endpoints : db'.endpoints ≡ db.endpoints
  pub links : db'.links ≡ db.links
  pub next_machine : db'.next_machine ≡ db.next_machine
  pub next_endpoint : db'.next_endpoint ≡ db.next_endpoint

-- A status upload that commits leaves, for the endpoint, exactly the reported peers, each
-- merged with its previous row, and the report time; the history with a sample for each
-- reported peer, trimmed to the retention window; and the other endpoints' rows, the
-- endpoints, the links and the id counters as they were.
pub replace_status-Reported :
    (eid : ℕ) (peers : List StatusPeer) (at : ℕ) (db db' : Db)
    → replace_status eid peers at db ≡ ok db'
    → Reported eid peers at db db'
unfolding replace_status record_report
replace_status-Reported eid peers at db db' h =
    elim (Result-cases (insert_peers eid prev peers start)) [
      | inr (e, q) ↦ absurd (ground arith)
      | inl (mid, q) ↦
          let w = insert_peers-Inserted eid prev peers start mid q in
          record {
            rows = ground (arith, w.rows);
            machines = ground (arith, w.machines);
            reports = ground (arith, w.reports);
            history = ground (arith, w.history);
            endpoints = ground (arith, w.endpoints);
            links = ground (arith, w.links);
            next_machine = ground (arith, w.next_machine);
            next_endpoint = ground (arith, w.next_endpoint);
          }
    ]
  where
    prev : List StatusPeer
    prev = select (on_endpoint eid) db.status_peers

    start : Db
    start = record db { status_peers = delete (on_endpoint eid) db.status_peers }
