-- ===== src/Store/Sessions.antt =====
-- internal/store/sessions.go: the session table. Session is the record of internal/auth/session.go.
use wgroster.Prelude.{
  ℕ, Bool, Option, List, [], ◌∷◌, ◌++◌, Text, text_eq, ltb, length, select, update, delete, first,
  any, if◌then◌else◌,
}
use wgroster.Store.Db.{constraint, Result, ok, err}

-- auth.Session.
pub record Session : Type 0 where
  pub sid : Text
  pub uid : Text
  pub name : Text
  pub admin : Bool
  pub local : Bool
  pub csrf : Text
  pub issued_at : ℕ
  pub expiry : ℕ

abbrev pub has_sid : Text → Session → Bool
has_sid sid s = text_eq s.sid sid

-- CreateSession: the primary key is the sid.
unfoldable pub create_session : Session → List Session → Result (List Session)
create_session s table = if any (has_sid s.sid) table then err constraint else ok (table ++ s ∷ [])

-- Session; none is ErrNoSession.
unfoldable pub session : Text → List Session → Option Session
session sid table = first (has_sid sid) table

-- TouchSession.
unfoldable pub touch_session : Text → ℕ → List Session → List Session
touch_session sid expiry table = update (has_sid sid) (λ s. record s { expiry = expiry }) table

-- DeleteSession.
unfoldable pub delete_session : Text → List Session → List Session
delete_session sid table = delete (has_sid sid) table

-- DeleteSessionsByUID.
unfoldable pub delete_sessions_by_uid : Text → List Session → List Session
delete_sessions_by_uid uid table = delete (λ (s : Session). text_eq s.uid uid) table

-- DeleteExpiredSessions: how many rows were removed, and the table after.
unfoldable pub delete_expired_sessions : ℕ → List Session → ℕ × List Session
delete_expired_sessions now table =
    let expired = λ (s : Session). ltb s.expiry now in
    (length (select expired table), delete expired table)
