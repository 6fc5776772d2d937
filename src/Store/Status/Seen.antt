-- ===== src/Store/Status/Seen.antt =====
-- The rows and the machines after a status report: what each endpoint reports, and when each machine
-- was last seen.
use wgroster.Prelude.{
  ℕ, max, ◌≡◌, sym, ap, ◌∙◌, inl, inr, ◌&&◌, some, List, [], ◌∷◌, map, Text, text_eq, ltb,
  if◌then◌else◌, first, arith, Bool-cases,
}
use mathlib.Core.List.{map-map, map-id}
use mathlib.Core.Path.{fun_ext}
use wgroster.Store.Models.{Machine, StatusPeer}
use wgroster.Store.Db.{Db, ok}
use wgroster.Store.Status.{peer_has_key, merged, see_machine, replace_status, rows_on}
use wgroster.Store.Status.Report.{see_all, replace_status-Reported}

-- A handshake never goes back: a merged row has the newer of the reported and the known one.
merged-last_handshake :
    (eid : ℕ) (prev : List StatusPeer) (p old : StatusPeer)
    → first (peer_has_key p.public_key) prev ≡ some old
    → (merged eid prev p).last_handshake ≡ max p.last_handshake old.last_handshake
unfolding merged
merged-last_handshake eid prev p old e = ground arith

-- The newest handshake among the merged rows with the key.
abbrev pub newest_handshake : ℕ → List StatusPeer → List StatusPeer → Text → ℕ
newest_handshake eid prev [] key = 0
newest_handshake eid prev (p ∷ ps) key =
    max
      (if text_eq key (merged eid prev p).public_key then (merged eid prev p).last_handshake else 0)
      (newest_handshake eid prev ps key)

abbrev pub seen_at : (Text → ℕ) → Machine → Machine
seen_at at m = record m { last_seen = max m.last_seen (at m.public_key) }

abbrev see_row : Text → ℕ → Machine → Machine
see_row key hs m =
    if ltb 0 hs
    then (if text_eq m.public_key key && ltb m.last_seen hs then record m { last_seen = hs } else m)
    else m

see_row_lem :
    (key : Text) (hs : ℕ) (m : Machine)
    → see_row key hs m ≡ seen_at (λ k. if text_eq k key then hs else 0) m
see_row_lem key hs m = elim (Bool-cases (ltb 0 hs)) [
  | inr e ↦ rw e (ap (λ (t : ℕ). record m { last_seen = t }) (ground arith))
  | inl e ↦ elim (Bool-cases (text_eq m.public_key key && ltb m.last_seen hs)) [
    | inl k ↦ rw (e, k) (ap (λ (t : ℕ). record m { last_seen = t }) (ground arith))
    | inr k ↦ rw (e, k) (ap (λ (t : ℕ). record m { last_seen = t }) (ground arith))
  ]
]

see_machine_rows :
    (key : Text) (hs : ℕ) (ms : List Machine) → see_machine key hs ms ≡ map (see_row key hs) ms
unfolding see_machine
see_machine_rows key hs [] = ground arith
see_machine_rows key hs (m ∷ ms) = ground (arith, see_machine_rows key hs ms)

see_machine_lem :
    (key : Text) (hs : ℕ) (ms : List Machine)
    → see_machine key hs ms ≡ map (seen_at (λ k. if text_eq k key then hs else 0)) ms
see_machine_lem key hs ms =
    see_machine_rows key hs ms ∙ ap (λ f. map f ms) (fun_ext (see_row_lem key hs))

see_all_lem :
    (eid : ℕ) (prev peers : List StatusPeer) (ms : List Machine)
    → see_all eid prev peers ms ≡ map (seen_at (newest_handshake eid prev peers)) ms
see_all_lem eid prev [] ms =
    sym (map-id ms)
    ∙ ap (λ (f : Machine → Machine). map f ms)
        (fun_ext λ m. ap (λ (t : ℕ). record m { last_seen = t }) (ground arith))
see_all_lem eid prev (p ∷ ps) ms =
    let hs = (merged eid prev p).last_handshake in
    let key = (merged eid prev p).public_key in
    see_all_lem eid prev ps (see_machine key hs ms)
    ∙ ap (map (seen_at (newest_handshake eid prev ps))) (see_machine_lem key hs ms)
    ∙ map-map (seen_at (newest_handshake eid prev ps))
        (seen_at (λ k. if text_eq k key then hs else 0)) ms
    ∙ ap (λ (f : Machine → Machine). map f ms)
        (fun_ext λ m. ap (λ (t : ℕ). record m { last_seen = t }) (omega arith))

-- An upload that commits changes of the machines only last_seen, which becomes the newest of
-- what it was and of the handshakes of the merged rows with the machine's key: it never goes
-- back.
pub replace_status-last_seen :
    (eid : ℕ) (peers : List StatusPeer) (at : ℕ) (db db' : Db)
    → replace_status eid peers at db ≡ ok db'
    → db'.machines ≡ map (seen_at (newest_handshake eid (rows_on eid db) peers)) db.machines
replace_status-last_seen eid peers at db db' h =
    (replace_status-Reported eid peers at db db' h).machines
    ∙ see_all_lem eid (rows_on eid db) peers db.machines
