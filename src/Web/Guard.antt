-- ===== src/Web/Guard.antt =====
-- internal/web/middleware.go: the guards around the handlers of signed-in users and of admins. A
-- request is what they read of it; the host of a URL and the comparison of hosts are parameters.
pub mod Access
use wgroster.Prelude.{
  ℕ, Bool, true, false, not, ◌&&◌, ◌||◌, Option, none, some, List, [], ◌∷◌, Text, text_eq,
  if◌then◌else◌,
}
use wgroster.Store.Sessions.{Session}
use wgroster.Auth.{Manager, SetCookie, read, refresh}

pub record Request : Type 0 where
  pub cookie : Option Text
  -- The method is GET or HEAD.
  pub is_read : Bool
  pub origin : Text
  pub referer : Text
  pub host : Text
  -- The token in the body of the form.
  pub csrf : Text

-- How the guard answers, or that it runs the handler with this session.
pub data Verdict : Type 0 where
  to_login cross_origin_rejected csrf_rejected forbidden : Verdict
  run : Session → Verdict

-- The functions of Go's library on URLs: none for a text that does not parse, and its host else.
module _ (host_of : Text → Option Text) (equal_fold : Text → Text → Bool) where
  cross_origin_of : Text → Text → Bool
  cross_origin_of src host = if text_eq src [] then false else elim (host_of src) [
    | none ↦ true
    | some h ↦ if text_eq h [] then true else not (equal_fold h host)
  ]

  -- crossOrigin.
  unfoldable pub cross_origin : Request → Bool
  unfolding cross_origin_of
  cross_origin r = cross_origin_of (if text_eq r.origin [] then r.referer else r.origin) r.host

  -- validCSRF.
  abbrev pub valid_csrf : Request → Session → Bool
  valid_csrf r s = text_eq r.csrf s.csrf

  -- The checks of `user` on a request that changes state; none is no refusal.
  unfoldable pub refusal : Request → Session → Option Verdict
  unfolding cross_origin
  refusal r s =
      if r.is_read
      then none
      else if cross_origin r
      then some cross_origin_rejected
      else if not (valid_csrf r s)
      then some csrf_rejected
      else none

  module _ (sign : Text → Text → Text) (m : Manager) (now : ℕ) where
    -- `user` with a session: a request that passes is run after the session is extended.
    unfoldable pub user_with : Request → Session → List Session → Verdict × List Session
    unfolding refusal
    user_with r s table = elim (refusal r s) [
      | some v ↦ (v, table)
      | none ↦ (run (refresh sign m now s table).0, (refresh sign m now s table).2)
    ]

    user_answer : Request → Option Session × List Session → Verdict × List Session
    unfolding user_with
    user_answer r (none, table) = (to_login, table)
    user_answer r (some s, table) = user_with r s table

    -- user.
    unfoldable pub user : Request → List Session → Verdict × List Session
    unfolding user_answer
    user r table = user_answer r (read sign m now r.cookie table)

    admin_only : Verdict → Verdict
    admin_only (run s) = if s.admin then run s else forbidden
    admin_only v = v

    -- admin.
    unfoldable pub admin : Request → List Session → Verdict × List Session
    unfolding user admin_only
    admin r table = (admin_only (user r table).0, (user r table).1)
