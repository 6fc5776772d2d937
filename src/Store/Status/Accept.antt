-- ===== src/Store/Status/Accept.antt =====
-- Which status reports are accepted.
use wgroster.Prelude.{
  ℕ, ◌≡◌, refl, sym, ap, ◌↔◌, inl, inr, Bool, true, false, List, [], ◌∷◌, ◌++◌, select, delete, any,
  All, Apart, All-imp, All-and, arith, Bool-cases,
}
use wgroster.Store.Models.{StatusPeer}
use wgroster.Store.Db.{Db, Result, ok, Result-cases}
use wgroster.Store.Machines.{has_endpoint}
use wgroster.Store.Status.{
  on_endpoint, merged, see_machine, same_row, insert_peers, record_report, replace_status,
}

abbrev pub SamePeerKey : StatusPeer → StatusPeer → Type 0
SamePeerKey p q = p.public_key ≡ q.public_key

any-append_false :
    {A : Type 0} (q : A → Bool) (xs : List A) (a : A)
    → (any q (xs ++ a ∷ []) ≡ false) ↔ ((any q xs ≡ false) × (q a ≡ false))
any-append_false q [] a = (λ h. ground arith, λ h. ground arith)
any-append_false q (x ∷ xs) a = ground (arith, any-append_false q xs a)

ok_injective : (a b : Db) → ◌≡◌ {A = Result Db} (ok a) (ok b) → a ≡ b
ok_injective a b h = ground arith

merged-ids :
    (eid : ℕ) (prev : List StatusPeer) (p : StatusPeer)
    → ((merged eid prev p).endpoint_id ≡ eid) × ((merged eid prev p).public_key ≡ p.public_key)
unfolding merged
merged-ids eid prev p = ground arith

rows_clash :
    (eid : ℕ) (prev : List StatusPeer) (p q : StatusPeer)
    → (same_row (merged eid prev p) (merged eid prev q) ≡ false) ↔ (¬ SamePeerKey q p)
rows_clash eid prev p q = ground (arith, merged-ids eid prev p, merged-ids eid prev q)

module _ (eid : ℕ) (prev : List StatusPeer) where
  abbrev IsNew : Db → StatusPeer → Type 0
  IsNew db p = any (same_row (merged eid prev p)) db.status_peers ≡ false

  abbrev after_row : StatusPeer → Db → Db
  after_row p db = record db {
    status_peers = db.status_peers ++ merged eid prev p ∷ [];
    machines =
        see_machine (merged eid prev p).public_key (merged eid prev p).last_handshake db.machines;
  }

  insert_peers-ok :
      (peers : List StatusPeer) (db : Db)
      → has_endpoint eid db ≡ true
      → All (IsNew db) peers
      → Apart SamePeerKey peers
      → (db' : Db) × (insert_peers eid prev peers db ≡ ok db') × (db'.endpoints ≡ db.endpoints)
  unfolding insert_peers
  insert_peers-ok [] db e new apart = (db, refl, refl)
  insert_peers-ok (p ∷ ps) db e new apart =
      let (db', done, same) =
        insert_peers-ok ps (after_row p db) e
          (All-imp _ _
            (λ q h.
              (any-append_false (same_row (merged eid prev q)) db.status_peers
                  (merged eid prev p)).1
                (h.0, (rows_clash eid prev q p).1 h.1))
            ps (All-and _ _ ps new.1 apart.0))
          apart.1 in
      (db', rw (new.0, e) done, same)

  ok-insert_peers :
      (peers : List StatusPeer) (db db' : Db)
      → insert_peers eid prev peers db ≡ ok db'
      → All (IsNew db) peers × Apart SamePeerKey peers
  unfolding insert_peers
  ok-insert_peers [] db db' h = (tt, tt)
  ok-insert_peers (p ∷ ps) db db' h =
      elim (Bool-cases (any (same_row (merged eid prev p)) db.status_peers)) [
        | inl c ↦ absurd (ground arith)
        | inr c ↦
            let (new, apart) = ok-insert_peers ps (after_row p db) db' (ground arith) in
            let split = λ (q : StatusPeer).
              any-append_false (same_row (merged eid prev q)) db.status_peers (merged eid prev p) in
            (
              (c, All-imp _ _ (λ q n. ((split q).0 n).0) ps new),
              (All-imp _ _ (λ q n. (rows_clash eid prev q p).0 ((split q).0 n).1) ps new, apart),
            )
      ]

fresh_endpoint :
    (eid : ℕ) (row : StatusPeer) (rows : List StatusPeer)
    → row.endpoint_id ≡ eid
    → any (same_row row) (delete (on_endpoint eid) rows) ≡ false
fresh_endpoint eid row [] e = refl
fresh_endpoint eid row (r ∷ rows) e = ground (arith, fresh_endpoint eid row rows e)

All-intro : {A : Type 0} (P : A → Type 0) → ((a : A) → P a) → (xs : List A) → All P xs
All-intro P f [] = tt
All-intro P f (x ∷ xs) = (f x, All-intro P f xs)

abbrev start : ℕ → Db → Db
start eid db = record db { status_peers = delete (on_endpoint eid) db.status_peers }

endpoints_of_ok :
    (eid : ℕ) (prev peers : List StatusPeer) (db db' : Db)
    → insert_peers eid prev peers db ≡ ok db'
    → db'.endpoints ≡ db.endpoints
unfolding insert_peers
endpoints_of_ok eid prev [] db db' h = ap (λ (d : Db). d.endpoints) (sym (ok_injective db db' h))
endpoints_of_ok eid prev (p ∷ ps) db db' h =
    endpoints_of_ok eid prev ps (after_row eid prev p db) db' (ground arith)

record_report-ok :
    (eid : ℕ) (peers : List StatusPeer) (at : ℕ) (db : Db)
    → has_endpoint eid db ≡ true
    → (db' : Db) × (record_report eid peers at db ≡ ok db')
unfolding record_report
record_report-ok eid peers at db e = elim (Result-cases (record_report eid peers at db)) [
  | inl (db', q) ↦ (db', q)
  | inr (x, q) ↦ absurd (ground arith)
]

-- A status upload is stored exactly when the endpoint exists and no public key is reported
-- twice: a report that lists one key under two interfaces is refused whole.
pub replace_status_iff :
    (eid : ℕ) (peers : List StatusPeer) (at : ℕ) (db : Db)
    → ((db' : Db) × (replace_status eid peers at db ≡ ok db'))
      ↔ ((has_endpoint eid db ≡ true) × Apart SamePeerKey peers)
unfolding replace_status record_report
replace_status_iff eid peers at db = (
  λ (db', h).
      elim (Result-cases
        (insert_peers eid (select (on_endpoint eid) db.status_peers) peers (start eid db))) [
          | inr (e, q) ↦ absurd (ground arith)
          | inl (mid, q) ↦ (
            ground (
              arith,
              endpoints_of_ok eid (select (on_endpoint eid) db.status_peers) peers (start eid db)
                  mid q,
            ),
            (ok-insert_peers eid (select (on_endpoint eid) db.status_peers) peers (start eid db) mid
                q).1,
          )
        ],
  λ (e, apart).
      let (mid, q, same) =
        insert_peers-ok eid (select (on_endpoint eid) db.status_peers) peers (start eid db) e
          (All-intro _
            (λ p.
              fresh_endpoint eid (merged eid (select (on_endpoint eid) db.status_peers) p)
                db.status_peers (merged-ids eid _ p).0)
            peers)
          apart in
      let (db', r) = record_report-ok eid peers at mid (ground (arith, same)) in (db', rw q r),
)
