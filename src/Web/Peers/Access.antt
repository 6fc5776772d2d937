-- ===== src/Web/Peers/Access.antt =====
-- internal/web/api_handlers.go: which requests of concentrators are let through.
use wgroster.Prelude.{
  ℕ, ◌≡◌, ◌↔◌, refl, sym, ap, ◌∙◌, inl, inr, false, some, [], Text, text_eq, text_eq→eq,
  text_eq_refl, if◌then◌else◌, arith, Bool-cases,
}
use wgroster.Store.Models.{Endpoint}
use wgroster.Store.Db.{Db, Result, ok, err}
use wgroster.Store.Endpoints.{get_endpoint}
use wgroster.Web.Peers.{
  auth_endpoint, bearer_token, token_matches, ApiReply, missing_token, Authorized, rejected,
  authorized,
}

-- What is let through: a token that is not empty and is the one of the endpoint.
pub record IsAuthorized (id : ℕ) (header : Text) (db : Db) (e : Endpoint) : Type 0 where
  pub stored : get_endpoint id db ≡ ok e
  pub token : bearer_token header ≡ e.upload_token
  pub not_empty : ¬ (bearer_token header ≡ [])

abbrev answer : Text → Result Endpoint → Authorized
answer token r = if text_eq token [] then rejected missing_token else token_matches token r

not_empty_lem : (t : Text) → text_eq t [] ≡ false → ¬ (t ≡ [])
not_empty_lem t h e = absurd (ground (arith, sym h ∙ ap (λ u. text_eq u []) e ∙ text_eq_refl []))

answer-authorized :
    (token : Text) (r : Result Endpoint) (e : Endpoint)
    → answer token r ≡ authorized e
    → (r ≡ ok e) × (token ≡ e.upload_token) × (¬ (token ≡ []))
unfolding token_matches
answer-authorized token (err x) e h = absurd (ground arith)
answer-authorized token (ok f) e h = elim (Bool-cases (text_eq token [])) [
  | inl z ↦ absurd (ground (arith, z))
  | inr z ↦ elim (Bool-cases (text_eq token f.upload_token)) [
    | inr t ↦ absurd (ground (arith, z, t))
    | inl t ↦
        let same : f ≡ e = ground (arith, z, t) in
        (
          ap ok same,
          text_eq→eq token f.upload_token t ∙ ap (λ (x : Endpoint). x.upload_token) same,
          not_empty_lem token z,
        )
  ]
]

authorized-answer :
    (token : Text) (e : Endpoint)
    → token ≡ e.upload_token
    → ¬ (token ≡ [])
    → answer token (ok e) ≡ authorized e
unfolding token_matches
authorized-answer token e t n = elim (Bool-cases (text_eq token [])) [
  | inl z ↦ absurd (n (text_eq→eq token [] z))
  | inr z ↦ elim (Bool-cases (text_eq token e.upload_token)) [
    | inl f ↦ rw (z, f) refl
    | inr f ↦ absurd (ground (arith, sym f ∙ ap (text_eq token) (sym t) ∙ text_eq_refl token))
  ]
]

answer_rejected :
    (token : Text) (r r' : Result Endpoint) (x y : ApiReply)
    → answer token r ≡ rejected x
    → answer token r' ≡ rejected y
    → x ≡ y
unfolding token_matches
answer_rejected token (err a) (err b) x y h k = ground arith
answer_rejected token (err a) (ok f) x y h k = ground arith
answer_rejected token (ok e) (err b) x y h k = ground arith
answer_rejected token (ok e) (ok f) x y h k = ground arith

-- For a request whose path has an id, authEndpoint authorizes an endpoint exactly when the
-- endpoint is stored under that id and the bearer token of the request is its token and not
-- empty.
pub auth_endpoint_iff :
    (id : ℕ) (header : Text) (db : Db) (e : Endpoint)
    → (auth_endpoint (some id) header db ≡ authorized e) ↔ IsAuthorized id header db e
unfolding auth_endpoint
auth_endpoint_iff id header db e = (
  λ h.
      let (s, t, n) = answer-authorized (bearer_token header) (get_endpoint id db) e h in
      record { stored = s; token = t; not_empty = n },
  λ a. rw a.stored (authorized-answer (bearer_token header) e a.token a.not_empty),
)

-- authEndpoint answers two rejected requests with the same header alike, for any two ids in
-- the path: the answer does not tell whether an endpoint exists.
pub auth_endpoint_uniform :
    (id id' : ℕ) (header : Text) (db : Db) (x y : ApiReply)
    → auth_endpoint (some id) header db ≡ rejected x
    → auth_endpoint (some id') header db ≡ rejected y
    → x ≡ y
unfolding auth_endpoint
auth_endpoint_uniform id id' header db x y h k =
    answer_rejected (bearer_token header) (get_endpoint id db) (get_endpoint id' db) x y h k
