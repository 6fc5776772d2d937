-- ===== src/Web/Routes/Concentrators.antt =====
-- The writes on endpoints: the forms of internal/web/admin_handlers.go, and the uploads of
-- internal/web/api_handlers.go.
use wgroster.Prelude.{
  ℕ, ◌≡◌, refl, subst, inl, inr, Bool, true, false, ◌||◌, Option, none, some, List, [], ◌∷◌, Text,
  arith, Bool-cases, Option-cases, txt, All, map,
}
use wgroster.Strings.{Number, positive}
use wgroster.Netip.{Netip}
use wgroster.Store.Models.{Endpoint, StatusPeer}
use wgroster.Store.Db.{Db, Result, ok, err, Result-cases}
use wgroster.Store.Sessions.{Session}
use wgroster.Store.Endpoints.{
  create_endpoint, update_endpoint, delete_endpoint, set_endpoint_token, get_endpoint,
}
use wgroster.Store.Status.{replace_status}
use wgroster.Web.Forms.{valid_public_key}
use wgroster.Web.Forms.Lines.{valid_public_key-IsOneLine, has_control_char-IsOneLine}
use wgroster.Wg.Config.Lines.{IsOneLine, IsPlainEndpoint}
use wgroster.Wg.Dump.{parse_dump}
use wgroster.Wg.Dump.Lines.{HasPlainKey, parse_dump-OneLine}
use wgroster.Web.Handlers.{Reply, atoi_default}
use wgroster.Web.Handlers.Endpoints.{
  EndpointForm, blank_endpoint, filled_endpoint, any_control_char, valid_endpoint,
  endpoint_from_form, endpoint_edit_conflict, handle_create_endpoint, save_endpoint,
  handle_update_endpoint, handle_regenerate_token, handle_delete_endpoint,
}
use wgroster.Web.Peers.{
  ApiReply, auth_endpoint, Authorized, rejected, authorized, stamped, stored, handle_status_upload,
}
use wgroster.Web.Routes.Users.{Ends, audit-Write}
use wgroster.Web.Routes.Writes.{
  Actor, staff, Write, stop, one, ◌after◌, endpoint_created, endpoint_updated, token_set,
  endpoint_deleted, reported,
}

or_false : (a b : Bool) → a || b ≡ false → (a ≡ false) × (b ≡ false)
or_false false b h = (refl, h)
or_false true b h = absurd (ground arith)

no_control_char :
    (e : Endpoint)
    → any_control_char e ≡ false
    → IsOneLine e.host_port × IsOneLine e.allowed_ips × IsOneLine e.dns × IsOneLine e.tunnel_ip
no_control_char e h = (
  has_control_char-IsOneLine e.host_port (ground (arith, h)),
  has_control_char-IsOneLine e.allowed_ips (ground (arith, h)),
  has_control_char-IsOneLine e.dns (ground (arith, h)),
  has_control_char-IsOneLine e.tunnel_ip (ground (arith, h)),
)

filled-IsPlain :
    (form : EndpointForm) (e : Endpoint)
    → valid_public_key (filled_endpoint form e).public_key ≡ true
    → any_control_char (filled_endpoint form e) ≡ false
    → IsPlainEndpoint (filled_endpoint form e)
unfolding filled_endpoint
filled-IsPlain form e k c =
    let (h, a, d, t) = no_control_char (filled_endpoint form e) c in
    record {
      public_key = valid_public_key-IsOneLine form.public_key k;
      host_port = h;
      allowed_ips = a;
      dns = d;
      tunnel_ip = t;
    }

module _ (netip : Netip) where
  valid_endpoint-parts :
      (e : Endpoint) (mtu keepalive : Number)
      → valid_endpoint netip e mtu keepalive ≡ true
      → (valid_public_key e.public_key ≡ true) × (any_control_char e ≡ false)
  unfolding valid_endpoint
  valid_endpoint-parts e mtu keepalive h = elim (Bool-cases (valid_public_key e.public_key)) [
    | inr k ↦ absurd (ground (arith, k))
    | inl k ↦ elim (Bool-cases (any_control_char e)) [
      | inl c ↦ absurd (ground (arith, k, c))
      | inr c ↦ (k, c)
    ]
  ]

  -- An endpoint that a form gives has no line break in what reaches a configuration.
  endpoint_from_form-IsPlain :
      (form : EndpointForm) (e f : Endpoint)
      → endpoint_from_form netip form e ≡ some f
      → IsPlainEndpoint f
  unfolding endpoint_from_form
  endpoint_from_form-IsPlain form e f h =
      elim (Bool-cases (
        valid_endpoint netip (filled_endpoint form e) (atoi_default form.mtu (positive 0))
          (atoi_default form.persistent_keepalive (positive 0)))) [
            | inr v ↦ absurd (ground (arith, v))
            | inl v ↦
                let (k, c) =
                  valid_endpoint-parts (filled_endpoint form e) (atoi_default form.mtu (positive 0))
                    (atoi_default form.persistent_keepalive (positive 0)) v in
                let same : filled_endpoint form e ≡ f = ground (arith, v) in
                subst IsPlainEndpoint same (filled-IsPlain form e k c)
          ]

  pub create_endpoint-Writes :
      (now : ℕ) (s : Session) (token : Text) (form : EndpointForm) (db : Db)
      → Ends Reply staff db (handle_create_endpoint netip now s token form db)
  unfolding handle_create_endpoint
  create_endpoint-Writes now s token form db =
      elim (Option-cases (endpoint_from_form netip form blank_endpoint)) [
        | inl e ↦ rw (e, handle_create_endpoint) (stop db)
        | inr (f, e) ↦
            elim (Result-cases (create_endpoint now (record f { upload_token = token }) db)) [
              | inr (x, g) ↦ rw (e, g, handle_create_endpoint) (stop db)
              | inl ((id, db'), g) ↦
                  let p = endpoint_from_form-IsPlain form blank_endpoint f e in
                  rw (e, g, handle_create_endpoint)
                    (one (
                        endpoint_created now id (record f { upload_token = token }) db db'
                          (record {
                            public_key = p.public_key;
                            host_port = p.host_port;
                            allowed_ips = p.allowed_ips;
                            dns = p.dns;
                            tunnel_ip = p.tunnel_ip;
                          })
                          g)
                      after one (audit-Write now s (txt "endpoint.create") f.name db'))
            ]
      ]

  save_endpoint-Writes :
      (now : ℕ) (s : Session) (form : EndpointForm) (e : Endpoint) (db : Db)
      → Ends Reply staff db (save_endpoint netip now s form e db)
  unfolding save_endpoint
  save_endpoint-Writes now s form e db = elim (Option-cases (endpoint_from_form netip form e)) [
    | inl f ↦ rw (f, save_endpoint) (stop db)
    | inr (n, f) ↦ elim (Option-cases (endpoint_edit_conflict netip n db)) [
      | inr (c, g) ↦ rw (f, g, save_endpoint) (stop db)
      | inl g ↦ elim (Result-cases (update_endpoint n db)) [
        | inr (x, h) ↦ rw (f, g, h, save_endpoint) (stop db)
        | inl (db', h) ↦
            rw (f, g, h, save_endpoint)
              (one (endpoint_updated n db db' (endpoint_from_form-IsPlain form e n f) h)
                after one (audit-Write now s (txt "endpoint.update") n.name db'))
      ]
    ]
  ]

  pub update_endpoint-Writes :
      (now : ℕ) (s : Session) (id : Option ℕ) (form : EndpointForm) (db : Db)
      → Ends Reply staff db (handle_update_endpoint netip now s id form db)
  unfolding handle_update_endpoint
  update_endpoint-Writes now s none form db = stop db
  update_endpoint-Writes now s (some id) form db = elim (Result-cases (get_endpoint id db)) [
    | inr (x, e) ↦ rw (e, handle_update_endpoint) (stop db)
    | inl (f, e) ↦ rw (e, handle_update_endpoint) (save_endpoint-Writes now s form f db)
  ]

pub regenerate_token-Writes :
    (now : ℕ) (s : Session) (token : Text) (id : Option ℕ) (db : Db)
    → Ends Reply staff db (handle_regenerate_token now s token id db)
unfolding handle_regenerate_token
regenerate_token-Writes now s token none db = stop db
regenerate_token-Writes now s token (some id) db =
    one (token_set id token db)
    after one (audit-Write now s (txt "endpoint.token_regen") _ (set_endpoint_token id token db))

pub delete_endpoint-Writes :
    (now : ℕ) (s : Session) (id : Option ℕ) (db : Db)
    → Ends Reply staff db (handle_delete_endpoint now s id db)
unfolding handle_delete_endpoint
delete_endpoint-Writes now s none db = stop db
delete_endpoint-Writes now s (some id) db =
    one (endpoint_deleted id db)
    after one (audit-Write now s (txt "endpoint.delete") _ (delete_endpoint id db))

stamped-All :
    (eid : ℕ) (ps : List StatusPeer) → All HasPlainKey ps → All HasPlainKey (map (stamped eid) ps)
stamped-All eid [] h = tt
stamped-All eid (p ∷ ps) h = (h.0, stamped-All eid ps h.1)

stored-Writes :
    {a : Actor} (db : Db) (r : Result Db)
    → ((d : Db) → r ≡ ok d → Write a db d)
    → Ends ApiReply a db (stored db r)
unfolding stored
stored-Writes db (err x) h = stop db
stored-Writes db (ok d) h = one (h d refl)

-- An upload replaces the status of the endpoint, or changes nothing.
pub upload-Writes :
    {a : Actor} (now : ℕ) (id : Option ℕ) (header body : Text) (db : Db)
    → Ends ApiReply a db (handle_status_upload now id header body db)
unfolding handle_status_upload
upload-Writes {a} now id header body db = answer (auth_endpoint id header db)
  where
    answer :
        (r : Authorized)
        → Ends ApiReply a db (elim r [
          | rejected x ↦ (x, db)
          | authorized e ↦
              stored db (replace_status e.id (map (stamped e.id) (parse_dump body)) now db)
        ])
    answer (rejected x) = stop db
    answer (authorized e) = stored-Writes db _ (λ d h.
        reported e.id now (map (stamped e.id) (parse_dump body)) db d
          (stamped-All e.id (parse_dump body) (parse_dump-OneLine body)) h)
