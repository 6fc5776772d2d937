-- ===== src/Web/Handlers/Adoption.antt =====
-- internal/web/peer_handler.go: the two forms that make a machine of a reported peer. The submitted
-- fields are read by name from the body.
use wgroster.Prelude.{
  ℕ, Bool, not, ◌&&◌, ◌||◌, Option, none, some, List, [], ◌∷◌, ◌++◌, Text, txt, text_eq, ◌==◌,
  if◌then◌else◌, first, any,
}
use wgroster.Strings.{trim_space, split, cut_first}
use wgroster.Netip.{Netip, Addr}
use wgroster.Ipam.{Pool, validate, next_free}
use wgroster.Store.Models.{Machine, Endpoint, StatusPeer}
use wgroster.Store.Db.{Db, Result, ok, err}
use wgroster.Store.Sessions.{Session}
use wgroster.Store.Machines.{NewMachine, create_machine}
use wgroster.Store.Service.{
  approve_machine, used_addresses, endpoint_ids_for_machine, machine_by_public_key,
}
use wgroster.Store.Endpoints.{get_endpoint}
use wgroster.Store.Status.{peers_for_endpoint, peer_has_key}
use wgroster.Web.Forms.{valid_name, valid_public_key}
use wgroster.Web.Conflicts.{conflict_among}
use wgroster.Web.Handlers.{
  invalid_name, invalid_key, taken, overlapping, bad_address, not_registered, registered, Reply,
  not_found, refused, without, target_of,
}
use wgroster.Web.Handlers.Machines.{finish}

-- The endpoint and key fields of both forms, with the fields of handleAdoptPeer. An endpoint that
-- is no number is none.
pub record PeerForm : Type 0 where
  pub endpoint : Option ℕ
  pub key : Text
  pub owner_uid : Text
  pub name : Text
  pub address : Text

unfoldable pub reported_on :
    Result Endpoint → List StatusPeer → Text → Option (Endpoint × StatusPeer)
reported_on (err x) peers key = none
reported_on (ok e) peers key = elim (first (peer_has_key key) peers) [
  | none ↦ none
  | some p ↦ some (e, p)
]

-- reportedPeer; none is the answer that nothing is found.
unfoldable pub reported_peer : PeerForm → Db → Option (Endpoint × StatusPeer)
unfolding reported_on
reported_peer form db = elim form.endpoint [
  | none ↦ none
  | some id ↦ reported_on (get_endpoint id db) (peers_for_endpoint id db) form.key
]

-- The row that an adoption asks for.
abbrev pub adopted_machine : PeerForm → StatusPeer → NewMachine
adopted_machine form p = record {
  owner_uid = trim_space form.owner_uid;
  owner_name = [];
  name = trim_space form.name;
  public_key = p.public_key;
  icon = [];
}

-- containsID.
unfoldable pub contains_id : List ℕ → ℕ → Bool
contains_id ids id = any (λ v. v == id) ids

abbrev pub with_id : List ℕ → ℕ → List ℕ
with_id ids id = if contains_id ids id then ids else ids ++ id ∷ []

module _ (netip : Netip) where
  -- The part of handleAdoptPeer after the checks of the names and of the key.
  unfoldable pub adopt_new : Pool → ℕ → Session → PeerForm → Endpoint → StatusPeer → Db → Reply × Db
  unfolding finish
  adopt_new pool now session form ep p db =
      elim (validate netip pool (trim_space form.address) (used_addresses db)) [
        | some r ↦ (refused (bad_address r), db)
        | none ↦ elim (create_machine now (adopted_machine form p) db) [
          | err e ↦ (refused taken, db)
          | ok (id, created) ↦
              finish now session (txt "machine.adopt")
                (target_of (trim_space form.owner_uid) (trim_space form.name)
                  ++ txt " on "
                  ++ ep.name)
                (approve_machine now id (trim_space form.address) (ep.id ∷ []) session.uid created)
                created
        ]
      ]

  unfoldable pub adopt_peer :
      Pool → ℕ → Session → PeerForm → Endpoint → StatusPeer → Db → Reply × Db
  unfolding adopt_new
  adopt_peer pool now session form ep p db =
      if not (valid_name (trim_space form.owner_uid)) || not (valid_name (trim_space form.name))
      then (refused invalid_name, db)
      else if not (valid_public_key p.public_key)
      then (refused invalid_key, db)
      else elim (machine_by_public_key p.public_key db) [
        | ok m ↦ (refused registered, db)
        | err e ↦ adopt_new pool now session form ep p db
      ]

  -- handleAdoptPeer.
  unfoldable pub handle_adopt_peer : Pool → ℕ → Session → PeerForm → Db → Reply × Db
  unfolding reported_peer adopt_peer
  handle_adopt_peer pool now session form db = elim (reported_peer form db) [
    | none ↦ (not_found, db)
    | some (ep, p) ↦ adopt_peer pool now session form ep p db
  ]

  -- handleLinkPeer, for a peer whose key a machine has.
  unfoldable pub link_machine : Pool → ℕ → Session → PeerForm → Endpoint → Machine → Db → Reply × Db
  unfolding finish
  link_machine pool now session form ep m db =
      elim (validate netip pool (trim_space form.address) (without (used_addresses db) m.address)) [
        | some r ↦ (refused (bad_address r), db)
        | none ↦
            elim (conflict_among netip (with_id (endpoint_ids_for_machine m.id db) ep.id) none db) [
              | some c ↦ (refused (overlapping c), db)
              | none ↦
                  finish now session (txt "machine.link")
                    (target_of m.owner_uid m.name ++ txt " on " ++ ep.name)
                    (approve_machine now m.id (trim_space form.address)
                      (with_id (endpoint_ids_for_machine m.id db) ep.id) session.uid db)
                    db
            ]
      ]

  -- handleLinkPeer.
  unfoldable pub handle_link_peer : Pool → ℕ → Session → PeerForm → Db → Reply × Db
  unfolding reported_peer link_machine
  handle_link_peer pool now session form db = elim (reported_peer form db) [
    | none ↦ (not_found, db)
    | some (ep, p) ↦ elim (machine_by_public_key p.public_key db) [
      | err e ↦ (refused not_registered, db)
      | ok m ↦ link_machine pool now session form ep m db
    ]
  ]

  -- The first part of a list of allowed addresses that is an address, without its length.
  hub_part : Text → Option Addr
  hub_part part = netip.parse_addr (elim (cut_first b'/' part) [ none ↦ part | some (b, a) ↦ b ])

  hub_address_in : List Text → Text
  unfolding hub_part
  hub_address_in [] = []
  hub_address_in (part ∷ parts) =
      let rest = hub_address_in parts in
      elim (hub_part (trim_space part)) [ none ↦ rest | some a ↦ netip.show_addr a ]

  -- hubAddress.
  unfoldable pub hub_address : Text → Text
  unfolding hub_address_in
  hub_address allowed = hub_address_in (split b',' allowed)

  fallback : Option Text → Text × Bool
  fallback none = ([], Bool.false)
  fallback (some t) = (t, Bool.false)

  free_suggestion : Pool → Text → Db → Text × Bool
  unfolding fallback
  free_suggestion pool hub db =
      let next = fallback (next_free netip pool (used_addresses db)) in
      if text_eq hub [] then next else elim (validate netip pool hub (used_addresses db)) [
        | none ↦ (hub, Bool.true)
        | some r ↦ next
      ]

  -- suggestAddress.
  unfoldable pub suggest_address : Pool → Text → Text → Db → Text × Bool
  unfolding hub_address free_suggestion
  suggest_address pool current allowed db =
      if not (text_eq current [])
      then (
        current,
        not (text_eq (hub_address allowed) []) && text_eq (hub_address allowed) current,
      )
      else free_suggestion pool (hub_address allowed) db
