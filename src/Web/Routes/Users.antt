-- ===== src/Web/Routes/Users.antt =====
-- The writes of the forms of users: internal/web/machine_handlers.go and enroll_handler.go.
use wgroster.Prelude.{
  ℕ, ◌≡◌, refl, inl, inr, Bool, true, false, not, ◌||◌, Option, none, some, List, [], ◌∷◌, Text,
  if◌then◌else◌, arith, Bool-cases, Option-cases, txt,
}
use wgroster.Strings.{trim_space}
use wgroster.Netip.{Addr, Netip}
use wgroster.Netip.Prefixes.{IsMasked}
use wgroster.Ipam.{Pool, next_free, validate}
use wgroster.Ipam.Validate.{next_free-validate, validate_iff}
use wgroster.Config.{Config}
use wgroster.Store.Models.{Machine, Endpoint}
use wgroster.Store.Db.{Db, Result-cases}
use wgroster.Store.Sessions.{Session}
use wgroster.Store.Machines.{
  create_machine, get_machine, update_own_machine, set_machine_address, has_id,
}
use wgroster.Store.Service
use wgroster.Store.Service.{used_addresses, set_machine_endpoints}
use wgroster.Store.Endpoints.{endpoint_by_name}
use wgroster.Web.Forms.{valid_name, valid_public_key}
use wgroster.Web.Forms.Lines.{valid_public_key-IsOneLine}
use wgroster.Wg.Config.Lines.{IsOneLine}
use wgroster.Web.Handlers.{Reply, forbidden, MachineForm, audit, target_of}
use wgroster.Web.Handlers.Devices
use wgroster.Web.Handlers.Devices.{
  own_machine, at_cap, handle_add_machine, on_managed, may_manage, handle_edit_machine,
  handle_delete_machine,
}
use wgroster.Web.Handlers.Enroll.{EnrollReply, enroll_created, enroll_on, handle_enroll}
use wgroster.Web.Routes.{
  Server, serve_user, UserRoute, add_machine, enroll, edit_machine, delete_machine,
}
use wgroster.Web.Routes.Writes.{
  Actor, Write, Writes, stop, one, ◌after◌, created, edited, addressed, linked, deleted, aside,
}

-- A handler's answer with the database that these writes lead to.
abbrev pub Ends : (R : Type 0) → Actor → Db → R × Db → Type 0
Ends R a db x = Writes a db x.1

pub either_way {ℓ κ} :
    {A : Type ℓ} (P : A → Type κ) (b : Bool) (x y : A)
    → (b ≡ true → P x)
    → (b ≡ false → P y)
    → P (if b then x else y)
either_way P true x y h k = h refl
either_way P false x y h k = k refl

pub audit-Write :
    {a : Actor} (now : ℕ) (s : Session) (action target : Text) (db : Db)
    → Write a db (audit now s action target db)
unfolding audit
audit-Write now s action target db = aside db _ (record {
  machines = refl;
  next_machine = refl;
  endpoints = refl;
  next_endpoint = refl;
  links = refl;
  status_peers = refl;
})

key_of_form : (t : Text) → not (valid_public_key (trim_space t)) ≡ false → IsOneLine (trim_space t)
key_of_form t h = valid_public_key-IsOneLine t (ground arith)

add_machine-Writes :
    {a : Actor} (cfg : Config) (now : ℕ) (s : Session) (form : MachineForm) (db : Db)
    → Ends Reply a db (handle_add_machine cfg now s form db)
unfolding handle_add_machine
add_machine-Writes cfg now s form db = elim (Bool-cases (not (valid_name (trim_space form.name)))) [
  | inl n ↦ rw n (stop db)
  | inr n ↦ elim (Bool-cases (not (valid_public_key (trim_space form.public_key)))) [
    | inl k ↦ rw (n, k) (stop db)
    | inr k ↦ elim (Bool-cases (at_cap cfg s.uid db)) [
      | inl c ↦ rw (n, k, c) (stop db)
      | inr c ↦ elim (Result-cases (create_machine now (own_machine s form) db)) [
        | inr (x, e) ↦ rw (n, k, c, e) (stop db)
        | inl ((id, db'), e) ↦
            rw (n, k, c, e)
              (one (created now id (own_machine s form) db db' (key_of_form form.public_key k) e))
      ]
    ]
  ]
]

edit_machine-Writes :
    {a : Actor} (now : ℕ) (s : Session) (m : Machine) (form : MachineForm) (db : Db)
    → Ends Reply a db (Devices.edit_machine now s m form db)
unfolding Devices.edit_machine
edit_machine-Writes {a} now s m form db =
    elim (Bool-cases (not (valid_name (trim_space form.name)))) [
      | inl n ↦ rw n (stop db)
      | inr n ↦ elim (Bool-cases (not (valid_public_key (trim_space form.public_key)))) [
        | inl k ↦ rw (n, k) (stop db)
        | inr k ↦
            elim (Result-cases (
              update_own_machine now m.id (trim_space form.name) (trim_space form.public_key)
                form.icon db)) [
                  | inr (x, e) ↦ rw (n, k, e) (stop db)
                  | inl ((r, db'), e) ↦
                      rw (n, k, e)
                        (one (
                            edited now m.id (trim_space form.name) (trim_space form.public_key)
                              form.icon r db db' (key_of_form form.public_key k) e)
                          after either_way (Writes a db') r _ db'
                              (λ _. one (
                                audit-Write now s (txt "machine.key_change")
                                  (target_of m.owner_uid (trim_space form.name)) db'))
                              (λ _. stop db'))
                ]
      ]
    ]

on_managed-Writes :
    {a : Actor} (s : Session) (id : Option ℕ) (db : Db) (handle : Machine → Reply × Db)
    → ((m : Machine) → Ends Reply a db (handle m))
    → Ends Reply a db (on_managed s id db handle)
unfolding on_managed
on_managed-Writes s none db handle h = stop db
on_managed-Writes {a} s (some id) db handle h = elim (Result-cases (get_machine id db)) [
  | inr (x, e) ↦ rw (e, on_managed) (stop db)
  | inl (m, e) ↦
      rw (e, on_managed)
        (either_way (λ (x : Reply × Db). Writes a db x.1) (not (may_manage s m)) (forbidden, db)
          (handle m) (λ _. stop db) (λ _. h m))
]

enroll_created-Writes :
    {a : Actor} (now : ℕ) (s : Session) (form : MachineForm) (ep : Endpoint) (address : Text)
    (id : ℕ) (db : Db)
    → IsOneLine address
    → Ends EnrollReply a db (enroll_created now s form ep address id db)
unfolding enroll_created set_machine_endpoints Service.delete_machine
enroll_created-Writes now s form ep address id db k =
    elim (Result-cases (set_machine_address id address db)) [
      | inr (x, e) ↦ rw (e, enroll_created) (one (deleted (has_id id) db))
      | inl (db', e) ↦ elim (Result-cases (set_machine_endpoints id (ep.id ∷ []) db')) [
        | inr (x, f) ↦ rw (e, f, enroll_created) (one (addressed id address db db' k e))
        | inl (db'', f) ↦
            rw (e, f, enroll_created)
              (one (addressed id address db db' k e)
                after one (linked id (ep.id ∷ []) db' db'' f)
                after one (audit-Write now s _ _ db''))
      ]
    ]

-- What the model of net/netip leaves open: a text that is an address, without a zone, has no line
-- break in it.
abbrev pub ParsesOneLine : Netip → Type 0
ParsesOneLine netip = (t : Text) (a : Addr) → netip.parse_addr t ≡ some a → IsOneLine t

module _ (netip : Netip) (plain : ParsesOneLine netip) where
  pub validate-IsOneLine :
      (pool : Pool) (t : Text) (used : List Text) → validate netip pool t used ≡ none → IsOneLine t
  validate-IsOneLine pool t used h =
      let (a, acc) = (validate_iff netip pool t used).0 h in plain t a acc.parses

  next_free-IsOneLine :
      (pool : Pool) (used : List Text) (t : Text)
      → IsMasked pool.prefix
      → next_free netip pool used ≡ some t
      → IsOneLine t
  next_free-IsOneLine pool used t m h =
      validate-IsOneLine pool t used (next_free-validate netip pool used t m h)

  enroll_on-Writes :
      {a : Actor} (cfg : Config) (pool : Pool) (now : ℕ) (s : Session) (form : MachineForm)
      (ep : Endpoint) (db : Db)
      → IsMasked pool.prefix
      → IsOneLine (trim_space form.public_key)
      → Ends EnrollReply a db (enroll_on netip cfg pool now s form ep db)
  unfolding enroll_on
  enroll_on-Writes cfg pool now s form ep db m k = elim (Bool-cases (at_cap cfg s.uid db)) [
    | inl c ↦ rw c (stop db)
    | inr c ↦ elim (Option-cases (next_free netip pool (used_addresses db))) [
      | inl f ↦ rw (c, f) (stop db)
      | inr (address, f) ↦ elim (Result-cases (create_machine now (own_machine s form) db)) [
        | inr (x, g) ↦ rw (c, f, g) (stop db)
        | inl ((id, db'), g) ↦
            rw (c, f, g)
              (one (created now id (own_machine s form) db db' k g)
                after enroll_created-Writes now s form ep address id db'
                    (next_free-IsOneLine pool (used_addresses db) address m f))
      ]
    ]
  ]

  enroll-Writes :
      {a : Actor} (cfg : Config) (pool : Pool) (now : ℕ) (s : Session) (form : MachineForm)
      (db : Db)
      → IsMasked pool.prefix
      → Ends EnrollReply a db (handle_enroll netip cfg pool now s form db)
  unfolding handle_enroll
  enroll-Writes cfg pool now s form db m = elim (Bool-cases (not cfg.self_enroll)) [
    | inl o ↦ rw o (stop db)
    | inr o ↦
        elim (Bool-cases (
          not (valid_name (trim_space form.name))
          || not (valid_public_key (trim_space form.public_key)))) [
            | inl v ↦ rw (o, v) (stop db)
            | inr v ↦ elim (Result-cases (endpoint_by_name cfg.self_enroll_endpoint db)) [
              | inr (x, e) ↦ rw (o, v, e) (stop db)
              | inl (ep, e) ↦
                  rw (o, v, e)
                    (enroll_on-Writes cfg pool now s form ep db m
                      (valid_public_key-IsOneLine form.public_key (ground (arith, v))))
            ]
          ]
  ]

-- The writes of a user's request are writes that anyone may make.
pub serve_user-Writes :
    {a : Actor} (srv : Server) (now : ℕ) (s : Session) (route : UserRoute) (db : Db)
    → ParsesOneLine srv.netip
    → IsMasked srv.pool.prefix
    → Writes a db (serve_user srv now s route db)
unfolding serve_user handle_edit_machine handle_delete_machine Service.delete_machine
serve_user-Writes srv now s (add_machine form) db plain m = add_machine-Writes srv.cfg now s form db
serve_user-Writes srv now s (enroll form) db plain m =
    enroll-Writes srv.netip plain srv.cfg srv.pool now s form db m
serve_user-Writes srv now s (edit_machine id form) db plain m =
    on_managed-Writes s id db _ (λ x. edit_machine-Writes now s x form db)
serve_user-Writes srv now s (delete_machine id) db plain m = on_managed-Writes s id db _ (λ x.
    one (deleted (has_id x.id) db)
    after one (audit-Write now s _ _ (Service.delete_machine x.id db)))
