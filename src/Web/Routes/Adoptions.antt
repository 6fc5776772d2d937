-- ===== src/Web/Routes/Adoptions.antt =====
-- The writes of the forms on reported peers: internal/web/peer_handler.go.
use wgroster.Prelude.{
  All-sort, ℕ, ◌≡◌, sym, subst, inl, inr, Bool, true, not, ◌||◌, none, some, List, [], ◌∷◌, ◌++◌,
  Text, arith, Bool-cases, Option-cases, txt, All, All-select, first,
}
use wgroster.Strings.{trim_space}
use wgroster.Netip.{Netip}
use wgroster.Ipam.{Pool, validate}
use wgroster.Store.Models.{Machine, Endpoint, StatusPeer}
use wgroster.Store.Db.{Db, Result, ok, err, Result-cases}
use wgroster.Store.Sessions.{Session}
use wgroster.Store.Machines.{create_machine}
use wgroster.Store.Service.{
  used_addresses, approve_machine, machine_by_public_key, endpoint_ids_for_machine,
}
use wgroster.Store.Status.{peers_for_endpoint, rows_on, peer_has_key, on_endpoint}
use wgroster.Store.Endpoints.{get_endpoint}
use wgroster.Web.Forms.{valid_name, valid_public_key}
use wgroster.Web.Conflicts.{conflict_among}
use wgroster.Web.Handlers.{Reply, target_of, without}
use wgroster.Web.Handlers.Adoption.{
  PeerForm, reported_on, reported_peer, adopted_machine, with_id, adopt_new, adopt_peer,
  handle_adopt_peer, link_machine, handle_link_peer,
}
use wgroster.Wg.Dump.Lines.{HasPlainKey}
use wgroster.Web.Routes.Plain.{IsPlain}
use wgroster.Web.Routes.Users.{Ends, ParsesOneLine, validate-IsOneLine}
use wgroster.Web.Routes.Admins.{finish-Writes}
use wgroster.Web.Routes.Writes.{staff, stop, one, ◌after◌, created, assigned}

first-All :
    {A : Type 0} (P : A → Type 0) (q : A → Bool) (xs : List A) (a : A)
    → All P xs
    → first q xs ≡ some a
    → P a
first-All P q [] a h e = cc
first-All P q (x ∷ xs) a h e = elim (Bool-cases (q x)) [
  | inl f ↦ subst P (ground arith) h.0
  | inr f ↦ first-All P q xs a h.1 (ground arith)
]

reported_on-plain :
    (r : Result Endpoint) (peers : List StatusPeer) (key : Text) (ep : Endpoint) (p : StatusPeer)
    → All HasPlainKey peers
    → reported_on r peers key ≡ some (ep, p)
    → HasPlainKey p
unfolding reported_on
reported_on-plain (err x) peers key ep p h e = absurd (ground arith)
reported_on-plain (ok f) peers key ep p h e = elim (Option-cases (first (peer_has_key key) peers)) [
  | inl g ↦ absurd (ground (arith, g))
  | inr (q, g) ↦
      let same : q ≡ p = ground (arith, g) in
      rw (sym same) (first-All HasPlainKey (peer_has_key key) peers q h g)
]

reported_peer-plain :
    (form : PeerForm) (db : Db) (ep : Endpoint) (p : StatusPeer)
    → IsPlain db
    → reported_peer form db ≡ some (ep, p)
    → HasPlainKey p
unfolding reported_peer peers_for_endpoint
reported_peer-plain form db ep p h e = elim (Option-cases form.endpoint) [
  | inl f ↦ absurd (ground (arith, f))
  | inr (id, f) ↦
      reported_on-plain (get_endpoint id db) (peers_for_endpoint id db) form.key ep p
        (All-sort HasPlainKey _ (rows_on id db)
          (All-select HasPlainKey (on_endpoint id) db.status_peers h.reports))
        (rw (f, reported_peer) at e)
]

module _ (netip : Netip) (plain : ParsesOneLine netip) where
  adopt_new-Writes :
      (pool : Pool) (now : ℕ) (s : Session) (form : PeerForm) (ep : Endpoint) (p : StatusPeer)
      (db : Db)
      → HasPlainKey p
      → Ends Reply staff db (adopt_new netip pool now s form ep p db)
  unfolding adopt_new approve_machine
  adopt_new-Writes pool now s form ep p db k =
      elim (Option-cases (validate netip pool (trim_space form.address) (used_addresses db))) [
        | inr (r, v) ↦ rw (v, adopt_new) (stop db)
        | inl v ↦ elim (Result-cases (create_machine now (adopted_machine form p) db)) [
          | inr (x, g) ↦ rw (v, g, adopt_new) (stop db)
          | inl ((id, db'), g) ↦
              rw (v, g, adopt_new)
                (one (created now id (adopted_machine form p) db db' k g)
                  after finish-Writes now s (txt "machine.adopt")
                      (target_of (trim_space form.owner_uid) (trim_space form.name)
                        ++ txt " on "
                        ++ ep.name)
                      (approve_machine now id (trim_space form.address) (ep.id ∷ []) s.uid db') db'
                      (λ d e.
                        assigned now id (trim_space form.address) (ep.id ∷ []) true s.uid db' d
                          (validate-IsOneLine netip plain pool (trim_space form.address)
                            (used_addresses db) v)
                          e))
        ]
      ]

  adopt_peer-Writes :
      (pool : Pool) (now : ℕ) (s : Session) (form : PeerForm) (ep : Endpoint) (p : StatusPeer)
      (db : Db)
      → HasPlainKey p
      → Ends Reply staff db (adopt_peer netip pool now s form ep p db)
  unfolding adopt_peer
  adopt_peer-Writes pool now s form ep p db k =
      elim (Bool-cases
        (not (valid_name (trim_space form.owner_uid)) || not (valid_name (trim_space form.name)))) [
          | inl n ↦ rw (n, adopt_peer) (stop db)
          | inr n ↦ elim (Bool-cases (not (valid_public_key p.public_key))) [
            | inl v ↦ rw (n, v, adopt_peer) (stop db)
            | inr v ↦ elim (Result-cases (machine_by_public_key p.public_key db)) [
              | inl (m, e) ↦ rw (n, v, e, adopt_peer) (stop db)
              | inr (x, e) ↦ rw (n, v, e, adopt_peer) (adopt_new-Writes pool now s form ep p db k)
            ]
          ]
        ]

  pub handle_adopt_peer-Writes :
      (pool : Pool) (now : ℕ) (s : Session) (form : PeerForm) (db : Db)
      → IsPlain db
      → Ends Reply staff db (handle_adopt_peer netip pool now s form db)
  unfolding handle_adopt_peer
  handle_adopt_peer-Writes pool now s form db h = elim (Option-cases (reported_peer form db)) [
    | inl e ↦ rw (e, handle_adopt_peer) (stop db)
    | inr ((ep, p), e) ↦
        rw (e, handle_adopt_peer)
          (adopt_peer-Writes pool now s form ep p db (reported_peer-plain form db ep p h e))
  ]

  link_machine-Writes :
      (pool : Pool) (now : ℕ) (s : Session) (form : PeerForm) (ep : Endpoint) (m : Machine)
      (db : Db)
      → Ends Reply staff db (link_machine netip pool now s form ep m db)
  unfolding link_machine approve_machine
  link_machine-Writes pool now s form ep m db =
      let ids = with_id (endpoint_ids_for_machine m.id db) ep.id in
      elim (Option-cases
        (validate netip pool (trim_space form.address) (without (used_addresses db) m.address))) [
          | inr (r, v) ↦ rw (v, link_machine) (stop db)
          | inl v ↦ elim (Option-cases (conflict_among netip ids none db)) [
            | inr (c, e) ↦ rw (v, e, link_machine) (stop db)
            | inl e ↦
                rw (v, e, link_machine)
                  (finish-Writes now s (txt "machine.link")
                    (target_of m.owner_uid m.name ++ txt " on " ++ ep.name)
                    (approve_machine now m.id (trim_space form.address) ids s.uid db) db
                    (λ d g.
                      assigned now m.id (trim_space form.address) ids true s.uid db d
                        (validate-IsOneLine netip plain pool (trim_space form.address) _ v) g))
          ]
        ]

  pub handle_link_peer-Writes :
      (pool : Pool) (now : ℕ) (s : Session) (form : PeerForm) (db : Db)
      → Ends Reply staff db (handle_link_peer netip pool now s form db)
  unfolding handle_link_peer
  handle_link_peer-Writes pool now s form db = elim (Option-cases (reported_peer form db)) [
    | inl e ↦ rw (e, handle_link_peer) (stop db)
    | inr ((ep, p), e) ↦ elim (Result-cases (machine_by_public_key p.public_key db)) [
      | inr (x, f) ↦ rw (e, f, handle_link_peer) (stop db)
      | inl (m, f) ↦ rw (e, f, handle_link_peer) (link_machine-Writes pool now s form ep m db)
    ]
  ]
