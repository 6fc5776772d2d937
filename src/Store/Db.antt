-- ===== src/Store/Db.antt =====
-- internal/store/store.go: the schema as a record of tables, each a list of rows in the order of
-- insertion, with the counters of the AUTOINCREMENT keys. A statement fails only by a constraint.
use wgroster.Prelude.{ℕ, List, Text, ◌≡◌, refl, ◌⊎◌, inl, inr}
use wgroster.Store.Models.{Machine, Endpoint, StatusPeer}

-- A row of owner_check.
pub record OwnerCheck : Type 0 where
  pub uid : Text
  pub misses : ℕ
  pub absent_since : ℕ
  pub flagged_at : ℕ
  pub checked_at : ℕ

-- A row of audit_log.
pub record AuditEntry : Type 0 where
  pub ts : ℕ
  pub actor : Text
  pub action : Text
  pub target : Text

-- A row of status_history.
pub record Sample : Type 0 where
  pub endpoint_id : ℕ
  pub public_key : Text
  pub report_ts : ℕ
  pub rx : ℕ
  pub tx : ℕ

pub record Db : Type 0 where
  pub machines : List Machine
  pub next_machine : ℕ
  pub endpoints : List Endpoint
  pub next_endpoint : ℕ
  -- machine_endpoint: machine_id and endpoint_id.
  pub links : List (ℕ × ℕ)
  pub status_peers : List StatusPeer
  -- status_report: endpoint_id and received_at.
  pub status_reports : List (ℕ × ℕ)
  pub status_history : List Sample
  pub owner_checks : List OwnerCheck
  pub audit_log : List AuditEntry

-- What a statement or a transaction can fail with.
pub data DbError : Type 0 where
  constraint : DbError
  not_found : DbError

pub data Result {ℓ} (A : Type ℓ) : Type ℓ where
  ok : A → Result A
  err : DbError → Result A

infixl 5 ◌>>=◌
abbrev pub ◌>>=◌ {ℓ κ} : {A : Type ℓ} {B : Type κ} → Result A → (A → Result B) → Result B
ok a >>= f = f a
err e >>= f = err e

pub Result-cases {ℓ} :
    {A : Type ℓ} (r : Result A) → ((a : A) × (r ≡ ok a)) ⊎ ((e : DbError) × (r ≡ err e))
Result-cases (ok a) = inl (a, refl)
Result-cases (err e) = inr (e, refl)
