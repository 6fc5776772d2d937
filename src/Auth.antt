-- ===== src/Auth.antt =====
-- internal/auth/session.go: the manager of server-side sessions over the session table. The signature
-- of a session id (an HMAC under the key) is the parameter sign; the random tokens of a login and the
-- time are arguments; a lifetime of 0 stands for one that is not positive.
pub mod Access
pub mod Renewal
use wgroster.Prelude.{
  ℕ, ◌+◌, Bool, true, false, not, ◌||◌, Option, none, some, List, [], ◌∷◌, ◌++◌, map, Text, txt,
  text_eq, ltb, ◌==◌, if◌then◌else◌,
}
use wgroster.Store.Db.{Result, ok, err, ◌>>=◌}
use wgroster.Store.Sessions.{
  Session, create_session, session, touch_session, delete_session, delete_sessions_by_uid,
  delete_expired_sessions,
}

-- Session.Display.
unfoldable pub display : Session → Text
display s = if not (text_eq s.name []) then s.name else s.uid

pub record Manager : Type 0 where
  pub key : Text
  pub secure : Bool
  pub cookie : Text
  pub ttl : ℕ
  pub max_life : ℕ

-- defaultSessionTTL, in seconds.
abbrev pub default_session_ttl : ℕ
default_session_ttl = 43200

-- NewManager.
unfoldable pub new_manager : Text → Bool → ℕ → ℕ → Manager
new_manager key secure ttl0 max_life =
    let ttl = if ttl0 == 0 then default_session_ttl else ttl0 in
    record {
      key = key;
      secure = secure;
      cookie = if secure then txt "__Host-wg_session" else txt "wg_session";
      ttl = ttl;
      max_life = if ltb max_life ttl then ttl else max_life;
    }

-- What the response does to the cookie: its value and expiry, or its removal.
pub data SetCookie : Type 0 where
  put : Text → Text → ℕ → SetCookie
  clear : Text → SetCookie

-- cut: the text before and after the first separator.
unfoldable pub cut : Text → ℕ → Option (Text × Text)
cut [] sep = none
cut (c ∷ cs) sep =
    let rest = cut cs sep in
    if c == sep then some ([], cs) else elim rest [ none ↦ none | some (b, a) ↦ some (c ∷ b, a) ]

abbrev pub new_session : Manager → ℕ → Text → Text → Text → Text → Bool → Bool → Session
new_session m now sid csrf uid name admin local = record {
  sid = sid;
  uid = uid;
  name = name;
  admin = admin;
  local = local;
  csrf = csrf;
  issued_at = now;
  expiry = now + m.ttl;
}

abbrev pub new_expiry : Manager → ℕ → Session → ℕ
new_expiry m now s =
    if ltb (s.issued_at + m.max_life) (now + m.ttl) then s.issued_at + m.max_life else now + m.ttl

-- Past the sliding expiry or the absolute cap.
abbrev pub is_over : Manager → ℕ → Session → Bool
is_over m now s = ltb s.expiry now || ltb (s.issued_at + m.max_life) now

-- The part of Read after the signature: an outlived session is deleted.
unfoldable pub load :
    Manager → ℕ → Text → List Session → Option Session → Option Session × List Session
load m now sid table none = (none, table)
load m now sid table (some s) =
    if is_over m now s then (none, delete_session sid table) else (some s, table)

module _ (sign : Text → Text → Text) where
  abbrev pub cookie_value : Manager → Text → Text
  cookie_value m sid = sid ++ b'.' ∷ sign m.key sid

  -- writeCookie.
  unfoldable pub write_cookie : Manager → Text → ℕ → SetCookie
  write_cookie m sid expiry = put m.cookie (cookie_value m sid) expiry

  -- Issue: sid and csrf are the two random tokens.
  unfoldable pub issue :
      Manager
      → ℕ
      → Text
      → Text
      → Text
      → Text
      → Bool
      → Bool
      → List Session
      → Result (Session × SetCookie × List Session)
  unfolding write_cookie
  issue m now sid csrf uid name admin local table = do
    table' ← create_session (new_session m now sid csrf uid name admin local) table
    ok (new_session m now sid csrf uid name admin local, write_cookie m sid (now + m.ttl), table')

  -- Refresh: the session as the handler sees it, the cookie, and the table.
  unfoldable pub refresh : Manager → ℕ → Session → List Session → Session × SetCookie × List Session
  unfolding write_cookie
  refresh m now s table = (
    record s { expiry = new_expiry m now s },
    write_cookie m s.sid (new_expiry m now s),
    touch_session s.sid (new_expiry m now s) table,
  )

  unfoldable pub read_parts :
      Manager → ℕ → Option (Text × Text) → List Session → Option Session × List Session
  unfolding load
  read_parts m now none table = (none, table)
  read_parts m now (some (sid, sig)) table =
      if not (text_eq sig (sign m.key sid))
      then (none, table)
      else load m now sid table (session sid table)

  -- Read: the value of the session cookie is an argument; none is errInvalid.
  unfoldable pub read : Manager → ℕ → Option Text → List Session → Option Session × List Session
  unfolding cut read_parts
  read m now none table = (none, table)
  read m now (some value) table = read_parts m now (cut value b'.') table

-- Destroy.
unfoldable pub destroy : Manager → Text → List Session → SetCookie × List Session
destroy m sid table =
    (clear m.cookie, if not (text_eq sid []) then delete_session sid table else table)

-- RevokeUser.
unfoldable pub revoke_user : Text → List Session → List Session
revoke_user uid table = delete_sessions_by_uid uid table

-- SweepExpired.
unfoldable pub sweep_expired : ℕ → List Session → ℕ × List Session
sweep_expired now table = delete_expired_sessions now table
