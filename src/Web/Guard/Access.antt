-- ===== src/Web/Guard/Access.antt =====
-- When the guards of internal/web/middleware.go run a handler.
use wgroster.Prelude.{
  ℕ, ◌≢◌, ◌⊎◌, [], text_eq, ◌≡◌, refl, sym, ap, ◌∙◌, inl, inr, Bool, true, false, Option, none,
  some, List, Text, text_eq→eq, if◌then◌else◌, arith, Bool-cases, Option-cases,
}
use wgroster.Store.Sessions.{Session}
use wgroster.Auth.{Manager, read, refresh, new_expiry}
use wgroster.Auth.Access.{IsAdmitted, read-IsAdmitted}
use wgroster.Web.Guard.{
  Request, Verdict, to_login, cross_origin_rejected, csrf_rejected, forbidden, run, cross_origin,
  cross_origin_of, valid_csrf, refusal, user_with, user_answer, user, admin_only, admin,
}

module _ (host_of : Text → Option Text) (equal_fold : Text → Text → Bool)
    (sign : Text → Text → Text) (m : Manager) (now : ℕ) where
  -- No origin, or one whose host is the host of the request.
  abbrev pub IsHostOf : Text → Text → Type 0
  IsHostOf src host =
      (src ≡ []) ⊎ ((h : Text) × (host_of src ≡ some h) × (h ≢ []) × (equal_fold h host ≡ true))

  -- What the Origin header says of a request, or the Referer header where there is no Origin.
  abbrev pub IsOwnOrigin : Request → Type 0
  IsOwnOrigin r =
      (r.origin ≢ [] × IsHostOf r.origin r.host) ⊎ ((r.origin ≡ []) × IsHostOf r.referer r.host)

  cross_origin_of-IsHostOf :
      (src host : Text) → cross_origin_of host_of equal_fold src host ≡ false → IsHostOf src host
  unfolding cross_origin_of
  cross_origin_of-IsHostOf src host h = elim (Bool-cases (text_eq src [])) [
    | inl e ↦ inl (text_eq→eq src [] e)
    | inr e ↦ elim (Option-cases (host_of src)) [
      | inl o ↦ absurd (ground (arith, e, o))
      | inr (name, o) ↦ elim (Bool-cases (text_eq name [])) [
        | inl n ↦ absurd (ground (arith, e, o, n))
        | inr n ↦ inr (name, o, λ q. ground (arith, n, q), ground (arith, e, o, n))
      ]
    ]
  ]

  cross_origin-IsOwnOrigin :
      (r : Request) → cross_origin host_of equal_fold r ≡ false → IsOwnOrigin r
  unfolding cross_origin
  cross_origin-IsOwnOrigin r h = elim (Bool-cases (text_eq r.origin [])) [
    | inl e ↦ inr (
      text_eq→eq r.origin [] e,
      cross_origin_of-IsHostOf r.referer r.host (rw (e, cross_origin) at h),
    )
    | inr e ↦ inl (
      λ q. ground (arith, e, q),
      cross_origin_of-IsHostOf r.origin r.host (rw (e, cross_origin) at h),
    )
  ]

  -- What a request that reaches a handler has shown.
  pub record IsAllowed (r : Request) (table : List Session) (s : Session) : Type 0 where
    pub value : Text
    pub cookie : r.cookie ≡ some value
    pub stored : Session
    pub admitted : IsAdmitted sign m now value table stored
    pub renewed : s ≡ record stored { expiry = new_expiry m now stored }
    pub checked : r.is_read ≡ false → IsOwnOrigin r × (r.csrf ≡ stored.csrf)

  refusal-none :
      (r : Request) (s : Session)
      → refusal host_of equal_fold r s ≡ none
      → r.is_read ≡ false
      → IsOwnOrigin r × (r.csrf ≡ s.csrf)
  unfolding refusal
  refusal-none r s h e = elim (Bool-cases (cross_origin host_of equal_fold r)) [
    | inl c ↦ absurd (ground (arith, e, c))
    | inr c ↦ elim (Bool-cases (valid_csrf host_of equal_fold r s)) [
      | inl v ↦ (cross_origin-IsOwnOrigin r c, text_eq→eq r.csrf s.csrf v)
      | inr v ↦ absurd (ground (arith, e, c, v))
    ]
  ]

  abbrev session_or : Session → Verdict → Session
  session_or d (run s) = s
  session_or d to_login = d
  session_or d cross_origin_rejected = d
  session_or d csrf_rejected = d
  session_or d forbidden = d

  refusal-not_run :
      (r : Request) (s t : Session) → ¬ (refusal host_of equal_fold r s ≡ some (run t))
  unfolding refusal
  refusal-not_run r s t e = ground arith

  user_answer-run :
      (r : Request) (o : Option Session × List Session) (s : Session)
      → (user_answer host_of equal_fold sign m now r o).0 ≡ run s
      → (t : Session) × (o.0 ≡ some t)
        × (refusal host_of equal_fold r t ≡ none)
        × (s ≡ record t { expiry = new_expiry m now t })
  unfolding user_answer user_with refresh
  user_answer-run r (none, table) s h = absurd (ground arith)
  user_answer-run r (some t, table) s h = elim (Option-cases (refusal host_of equal_fold r t)) [
    | inl e ↦ (t, refl, e, sym (ap (session_or s) (rw (user_with, e) at h)))
    | inr (v, e) ↦ absurd (refusal-not_run r t s (e ∙ ap some (rw (user_with, e) at h)))
  ]

  -- The guard of user handlers runs a handler only for a request whose session cookie carries a
  -- correctly signed id of a stored session within both lifetimes; and if its method is not GET
  -- or HEAD, only when its Origin header, or without one its Referer header, is missing or
  -- names the host of the request, and its form has the session's CSRF token. The handler gets
  -- that session, with the renewed expiry.
  pub user-IsAllowed :
      (r : Request) (table : List Session) (s : Session)
      → (user host_of equal_fold sign m now r table).0 ≡ run s
      → IsAllowed r table s
  unfolding user read
  user-IsAllowed r table s h = elim (Option-cases r.cookie) [
    | inl c ↦ absurd (ground (arith, rw (user, c) at h))
    | inr (value, c) ↦
        let (t, e, n, x) = user_answer-run r (read sign m now r.cookie table) s h in
        record {
          value = value;
          cookie = c;
          stored = t;
          admitted =
              read-IsAdmitted sign m now value table t
                ((λ i. (read sign m now (sym c i) table).0) ∙ e);
          renewed = x;
          checked = refusal-none r t n;
        }
  ]

  taken : {v u : Verdict} (b : Bool) → b ≡ true → (if b then v else forbidden) ≡ u → v ≡ u
  taken true e h = h
  taken false e h = absurd (ground arith)

  admin_only-run :
      (v : Verdict) (s : Session)
      → admin_only host_of equal_fold sign m now v ≡ run s
      → (v ≡ run s) × (s.admin ≡ true)
  unfolding admin_only
  admin_only-run (run t) s h = elim (Bool-cases t.admin) [
    | inl e ↦
        let same : run t ≡ run s = taken t.admin e h in
        (same, ap (λ v. (session_or t v).admin) (sym same) ∙ e)
    | inr e ↦ absurd (ground (arith, rw e at h))
  ]
  admin_only-run to_login s h = absurd (ground arith)
  admin_only-run cross_origin_rejected s h = absurd (ground arith)
  admin_only-run csrf_rejected s h = absurd (ground arith)
  admin_only-run forbidden s h = absurd (ground arith)

  -- The guard of admin handlers runs a handler only where the guard of user handlers does, and
  -- only for a session of an admin.
  pub admin-IsAllowed :
      (r : Request) (table : List Session) (s : Session)
      → (admin host_of equal_fold sign m now r table).0 ≡ run s
      → IsAllowed r table s × (s.admin ≡ true)
  unfolding admin admin_only
  admin-IsAllowed r table s h =
      let (e, a) = admin_only-run (user host_of equal_fold sign m now r table).0 s h in
      (user-IsAllowed r table s e, a)
