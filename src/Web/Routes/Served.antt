-- ===== src/Web/Routes/Served.antt =====
-- The configurations that are served after a history: handleMachineConfig and
-- handleEndpointConfigAPI.
use wgroster.Prelude.{
  All-sort, All-select, select, ◌↔◌, ℕ, ◌≡◌, sym, ap, ◌∙◌, inl, inr, Bool, true, Option, none, some,
  List, [], ◌∷◌, Text, All, All-In, In, In-sort, In-select, arith, Bool-cases, Option-cases, first,
}
use wgroster.Store.Models.{Machine, Endpoint, active, disabled, status_eq}
use wgroster.Store.Db.{Db, ok}
use wgroster.Store.Sessions.{Session}
use wgroster.Store.Machines.{get_machine, find_machine, has_id}
use wgroster.Store.Endpoints.{get_endpoint, endpoint_has_id, or_not_found}
use wgroster.Store.Service.{
  endpoints_for_machine, active_machines_for_endpoint, owner_then_name, is_active_on, has_link,
}
use wgroster.Wg.Config.{client_config, concentrator_config}
use wgroster.Wg.Config.Lines.{IsPlainMachine, IsPlainEndpoint, directives}
use wgroster.Wg.Config.Client.{client_directives, client_config-directives}
use wgroster.Wg.Config.Concentrator.{concentrator_directives, concentrator_config-directives}
use wgroster.Web.Handlers.Devices.{
  config, config_of, active_config, may_manage, handle_machine_config,
}
use wgroster.Web.Peers.{auth_endpoint, authorized, as_text, handle_endpoint_config_api}
use wgroster.Web.Peers.Access.{auth_endpoint_iff}
use wgroster.Web.Routes.Plain.{IsPlain}

endpoints_for_machine-IsPlain :
    (id : ℕ) (db : Db) → IsPlain db → All IsPlainEndpoint (endpoints_for_machine id db)
unfolding endpoints_for_machine
endpoints_for_machine-IsPlain id db p = All-sort IsPlainEndpoint _ _ (
    All-select IsPlainEndpoint (λ (f : Endpoint). has_link (id, f.id) db.links) db.endpoints
      p.endpoints)

active_machines-IsPlain :
    (eid : ℕ) (db : Db) → IsPlain db → All IsPlainMachine (active_machines_for_endpoint eid db)
unfolding active_machines_for_endpoint
active_machines-IsPlain eid db p =
    All-sort IsPlainMachine _ _
      (All-select IsPlainMachine (is_active_on eid db) db.machines p.machines)

has_link_iff :
    (id eid : ℕ) (links : List (ℕ × ℕ)) → (has_link (id, eid) links ≡ true) ↔ In (id, eid) links
has_link_iff id eid [] = ground arith
has_link_iff id eid ((x, y) ∷ ls) = ground (arith, has_link_iff id eid ls)

-- The machines in service on an endpoint: active, and linked to it.
abbrev pub IsInServiceOn : ℕ → Db → Machine → Type 0
IsInServiceOn eid db m =
    In m db.machines × (status_eq m.status active ≡ true) × In (m.id, eid) db.links

active_machines_iff :
    (eid : ℕ) (db : Db) (m : Machine)
    → In m (active_machines_for_endpoint eid db) ↔ IsInServiceOn eid db m
unfolding active_machines_for_endpoint
active_machines_iff eid db m =
    let sorted = In-sort owner_then_name m (select (is_active_on eid db) db.machines) in
    let chosen = In-select (is_active_on eid db) db.machines m in
    let link = has_link_iff m.id eid db.links in
    (
      λ i.
          let (row, on) = chosen.0 (sorted.0 i) in
          (row, ground (arith, on), link.0 (ground (arith, on))),
      λ (row, on, l). sorted.1 (chosen.1 (row, ground (arith, on, link.1 l))),
    )

first-In : {A : Type 0} (q : A → Bool) (xs : List A) (a : A) → first q xs ≡ some a → In a xs
first-In q [] a h = cc
first-In q (x ∷ xs) a h = elim (Bool-cases (q x)) [
  | inl e ↦ inl (ground arith)
  | inr e ↦ inr (first-In q xs a (ground arith))
]

authorized-In :
    (id : ℕ) (header : Text) (db : Db) (e : Endpoint)
    → auth_endpoint (some id) header db ≡ authorized e
    → In e db.endpoints
unfolding get_endpoint
authorized-In id header db e h = first-In (endpoint_has_id id) db.endpoints e (
    found (first (endpoint_has_id id) db.endpoints)
      (((auth_endpoint_iff id header db e).0 h).stored))
  where
    found : (o : Option Endpoint) → or_not_found o ≡ ok e → o ≡ some e
    found none k = absurd (ground arith)
    found (some f) k = ground arith

-- A configuration that is served to a session: of an active machine that is the session's or
-- anyone's for an administrator, with its endpoints and no other directive.
pub record IsServed (session : Session) (db : Db) (text : Text) : Type 0 where
  pub machine : Machine
  pub row : In machine db.machines
  pub in_service : status_eq machine.status active ≡ true
  pub allowed : may_manage session machine ≡ true
  pub says : directives text ≡ client_directives machine (endpoints_for_machine machine.id db)

config_of-text :
    (s : Session) (m : Machine) (es : List Endpoint) (text : Text) (foreign : Bool)
    → config_of s m es ≡ config text foreign
    → client_config m es ≡ text
unfolding config_of
config_of-text s m [] text foreign h = absurd (ground arith)
config_of-text s m (e ∷ es) text foreign h = ground arith

active_config-IsServed :
    (s : Session) (db : Db) (m : Machine) (text : Text) (foreign : Bool)
    → IsPlain db
    → In m db.machines
    → active_config s db m ≡ config text foreign
    → IsServed s db text
unfolding active_config
active_config-IsServed s db m text foreign p i h = elim (Bool-cases (may_manage s m)) [
  | inr a ↦ absurd (ground (arith, a))
  | inl a ↦ elim (Bool-cases (status_eq m.status disabled)) [
    | inl d ↦ absurd (ground (arith, a, d))
    | inr d ↦ elim (Bool-cases (status_eq m.status active)) [
      | inr t ↦ absurd (ground (arith, a, d, t))
      | inl t ↦ record {
        machine = m;
        row = i;
        in_service = t;
        allowed = a;
        says =
            ap directives (
              sym (
                config_of-text s m (endpoints_for_machine m.id db) text foreign
                  (ground (arith, a, d, t))))
            ∙ client_config-directives m (endpoints_for_machine m.id db)
                (All-In IsPlainMachine db.machines p.machines i)
                (endpoints_for_machine-IsPlain m.id db p);
      }
    ]
  ]
]

-- In a database whose printed values have no line breaks, a configuration that
-- handleMachineConfig serves is that of an active machine which the session may manage, and
-- its directives are exactly those of that machine and of its endpoints: no name adds one.
pub handle_machine_config-IsServed :
    (s : Session) (id : Option ℕ) (db : Db) (text : Text) (foreign : Bool)
    → IsPlain db
    → handle_machine_config s id db ≡ config text foreign
    → IsServed s db text
unfolding handle_machine_config get_machine
handle_machine_config-IsServed s none db text foreign p h = absurd (ground arith)
handle_machine_config-IsServed s (some id) db text foreign p h =
    elim (Option-cases (find_machine id db)) [
      | inl e ↦ absurd (ground (arith, e))
      | inr (m, e) ↦
          active_config-IsServed s db m text foreign p (first-In (has_id id) db.machines m e)
            (rw (e, handle_machine_config) at h)
    ]

-- In a database whose printed values have no line breaks, the configuration that a
-- concentrator fetches with its token has exactly the directives of that endpoint and of the
-- machines that ActiveMachinesForEndpoint lists for it, and these are the machines that are
-- active and linked to the endpoint.
pub handle_endpoint_config_api-says :
    (id : Option ℕ) (header : Text) (db : Db) (e : Endpoint) (text : Text)
    → IsPlain db
    → auth_endpoint id header db ≡ authorized e
    → handle_endpoint_config_api id header db ≡ as_text text
    → (directives text ≡ concentrator_directives e (active_machines_for_endpoint e.id db))
      × ((m : Machine) → In m (active_machines_for_endpoint e.id db) ↔ IsInServiceOn e.id db m)
unfolding handle_endpoint_config_api
handle_endpoint_config_api-says none header db e text p a h = absurd (ground (arith, a))
handle_endpoint_config_api-says (some id) header db e text p a h =
    let same : concentrator_config e (active_machines_for_endpoint e.id db) ≡ text =
      ground (arith, a) in
    (
      ap directives (sym same)
          ∙ concentrator_config-directives e (active_machines_for_endpoint e.id db)
              (All-In IsPlainEndpoint db.endpoints p.endpoints (authorized-In id header db e a))
              (active_machines-IsPlain e.id db p),
      active_machines_iff e.id db,
    )
