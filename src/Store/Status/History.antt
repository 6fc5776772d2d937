-- ===== src/Store/Status/History.antt =====
-- What LastReport and the history of internal/store/status.go have after an upload.
use mathlib.Core.Option
use wgroster.Prelude.{
  ℕ, ◌+◌, ◌-◌, ◌≤◌, ◌≡◌, ◌≢◌, ◌⊎◌, ◌↔◌, refl, sym, ap, subst, ◌∙◌, inl, inr, some, List, [], ◌∷◌,
  ◌++◌, map, ltb, ◌==◌, delete, In, In-select, not, arith, first,
}
use wgroster.Store.Models.{StatusPeer}
use wgroster.Store.Db.{Db, Sample, ok}
use wgroster.Store.Status.{replace_status, upsert_report, sample_of, history_retention, last_report}
use wgroster.Store.Status.Report.{replace_status-Reported}

-- The sample that an upload takes of a reported peer.
abbrev pub IsSampleOf : ℕ → ℕ → StatusPeer → Sample → Type 0
IsSampleOf eid at p h =
    h
    ≡ record { endpoint_id = eid; public_key = p.public_key; report_ts = at; rx = p.rx; tx = p.tx }

upserted :
    (eid at : ℕ) (rs : List (ℕ × ℕ))
    → first (λ r. r.0 == eid) (upsert_report eid at rs) ≡ some (eid, at)
unfolding upsert_report
upserted eid at [] = ground arith
upserted eid at ((e, t) ∷ rs) = ground (arith, upserted eid at rs)

upserted_other :
    (eid f at : ℕ) (rs : List (ℕ × ℕ))
    → eid ≢ f
    → first (λ r. r.0 == f) (upsert_report eid at rs) ≡ first (λ r. r.0 == f) rs
unfolding upsert_report
upserted_other eid f at [] ne = ground (arith, ne)
upserted_other eid f at ((e, t) ∷ rs) ne = ground (arith, ne, upserted_other eid f at rs ne)

In-samples_from :
    (eid at : ℕ) (peers : List StatusPeer) (h : Sample)
    → In h (map (sample_of eid at) peers)
    → (p : StatusPeer) × In p peers × IsSampleOf eid at p h
In-samples_from eid at [] h i = absurd i
In-samples_from eid at (p ∷ ps) h (inl e) = (p, inl refl, sym e)
In-samples_from eid at (p ∷ ps) h (inr i) =
    let (q, j, e) = In-samples_from eid at ps h i in (q, inr j, e)

In-samples_of :
    (eid at : ℕ) (peers : List StatusPeer) (h : Sample) (p : StatusPeer)
    → In p peers
    → IsSampleOf eid at p h
    → In h (map (sample_of eid at) peers)
In-samples_of eid at [] h p i e = absurd i
In-samples_of eid at (q ∷ qs) h p (inl i) e = inl (ap (sample_of eid at) i ∙ sym e)
In-samples_of eid at (q ∷ qs) h p (inr i) e = inr (In-samples_of eid at qs h p i e)

In-append_iff : (xs ys : List Sample) (h : Sample) → In h (xs ++ ys) ↔ (In h xs ⊎ In h ys)
In-append_iff [] ys h = (λ i. inr i, λ i. elim i [ inl j ↦ absurd j | inr j ↦ j ])
In-append_iff (x ∷ xs) ys h = ground (arith, In-append_iff xs ys h)

-- A sample of the history after an upload: at most the retention of 14 days old, and one of before
-- or one of a reported peer.
abbrev pub IsKept : ℕ → ℕ → List StatusPeer → List Sample → Sample → Type 0
IsKept eid at peers old h =
    (at ≤ h.report_ts + 1209600)
    × (In h old ⊎ ((p : StatusPeer) × In p peers × IsSampleOf eid at p h))

IsKept-iff :
    (eid at : ℕ) (peers : List StatusPeer) (old : List Sample) (h : Sample)
    → In h (
        delete
          (λ (x : Sample). ltb x.report_ts (at - history_retention))
          (old ++ map (sample_of eid at) peers))
      ↔ IsKept eid at peers old h
IsKept-iff eid at peers old h =
    let new = map (sample_of eid at) peers in
    let recent = λ (x : Sample). not (ltb x.report_ts (at - history_retention)) in
    let chosen = In-select recent (old ++ new) h in
    let parts = In-append_iff old new h in
    (
      λ i.
          let (j, t) = chosen.0 i in
          (
            ground (arith, t),
            elim (parts.0 j) [ inl k ↦ inl k | inr k ↦ inr (In-samples_from eid at peers h k) ],
          ),
      λ (t, j). chosen.1 (
        parts.1
            (elim j [ inl k ↦ inl k | inr (p, k, e) ↦ inr (In-samples_of eid at peers h p k e) ]),
        ground (arith, t),
      ),
    )

-- After a status upload that commits, LastReport returns its time for the endpoint and what
-- it returned before for every other, and the history has exactly those samples, of before or
-- of the reported peers with their counters, that are at most 14 days older than the upload.
pub replace_status-history :
    (eid : ℕ) (peers : List StatusPeer) (at : ℕ) (db db' : Db)
    → replace_status eid peers at db ≡ ok db'
    → (last_report eid db' ≡ some at)
      × ((f : ℕ) → eid ≢ f → last_report f db' ≡ last_report f db)
      × ((h : Sample) → In h db'.status_history ↔ IsKept eid at peers db.status_history h)
unfolding last_report
replace_status-history eid peers at db db' e =
    let r = replace_status-Reported eid peers at db db' e in
    (
      ap (λ rs. Option.map (λ (x : ℕ × ℕ). x.1) (first (λ (x : ℕ × ℕ). x.0 == eid) rs)) r.reports
          ∙ ap (Option.map (λ (x : ℕ × ℕ). x.1)) (upserted eid at db.status_reports),
      λ f ne.
          ap (λ rs. Option.map (λ (x : ℕ × ℕ). x.1) (first (λ (x : ℕ × ℕ). x.0 == f) rs)) r.reports
          ∙ ap (Option.map (λ (x : ℕ × ℕ). x.1)) (upserted_other eid f at db.status_reports ne),
      λ h.
          subst (λ hs. In h hs ↔ IsKept eid at peers db.status_history h) (sym r.history)
            (IsKept-iff eid at peers db.status_history h),
    )
