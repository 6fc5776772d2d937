-- ===== src/Tests/Reports.antt =====
-- A status report of two peers for the endpoint of the test database.
use wgroster.Prelude.{
  In, some, ℕ, ◌≡◌, ◌≢◌, ◌↔◌, refl, true, [], ◌∷◌, map, txt, text_discrete, Apart,
}
use wgroster.Store.Models.{StatusPeer}
use wgroster.Store.Db.{Db, Sample, ok}
use wgroster.Store.Machines.{has_endpoint}
use wgroster.Store.Status.{
  rows_on, last_report, merged, replace_status, insert_peers, see_machine, record_report,
}
use wgroster.Store.Status.History.{IsKept, replace_status-history}
use wgroster.Store.Status.Seen.{replace_status-last_seen, seen_at, newest_handshake}
use wgroster.Store.Status.Accept.{replace_status_iff, SamePeerKey}
use wgroster.Tests.Tables.{roster, laptop, phone}

abbrev peer : StatusPeer
peer = record {
  endpoint_id = 0;
  public_key = txt "K1";
  last_handshake = 900;
  rx = 10;
  tx = 20;
  remote_endpoint = txt "h:1";
  allowed_ips = txt "10.8.0.1/32";
}

abbrev stranger : StatusPeer
stranger = record peer { public_key = txt "K7"; last_handshake = 0 }

abbrev reported : Db
reported = record roster {
  machines = record laptop { last_seen = 900 } ∷ phone ∷ [];
  status_peers = record peer { endpoint_id = 1 } ∷ record stranger { endpoint_id = 1 } ∷ [];
  status_reports = (1, 1000) ∷ [];
  status_history =
      record { endpoint_id = 1; public_key = txt "K1"; report_ts = 1000; rx = 10; tx = 20 }
      ∷ record { endpoint_id = 1; public_key = txt "K7"; report_ts = 1000; rx = 10; tx = 20 }
      ∷ [];
}

replace_status_test : replace_status 1 (peer ∷ stranger ∷ []) 1000 roster ≡ ok reported
unfolding replace_status insert_peers merged see_machine record_report text_discrete
replace_status_test = refl

replace_status-history_example :
    (last_report 1 reported ≡ some 1000)
    × ((f : ℕ) → 1 ≢ f → last_report f reported ≡ last_report f roster)
    × ((h : Sample) → In h reported.status_history ↔ IsKept 1 1000 (peer ∷ stranger ∷ []) [] h)
replace_status-history_example =
    replace_status-history 1 (peer ∷ stranger ∷ []) 1000 roster reported replace_status_test

replace_status-last_seen_example :
    reported.machines
    ≡ map (seen_at (newest_handshake 1 (rows_on 1 roster) (peer ∷ stranger ∷ []))) roster.machines
replace_status-last_seen_example =
    replace_status-last_seen 1 (peer ∷ stranger ∷ []) 1000 roster reported replace_status_test

replace_status_iff_example :
    ((db' : Db) × (replace_status 1 (peer ∷ peer ∷ []) 1000 roster ≡ ok db'))
    ↔ ((has_endpoint 1 roster ≡ true) × Apart SamePeerKey (peer ∷ peer ∷ []))
replace_status_iff_example = replace_status_iff 1 (peer ∷ peer ∷ []) 1000 roster
