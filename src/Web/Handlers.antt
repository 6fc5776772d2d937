-- ===== src/Web/Handlers.antt =====
-- internal/web/machine_handlers.go, enroll_handler.go and admin_handlers.go: what the handlers of
-- forms share. A handler takes the session that its guard found, the time, the submitted form and
-- the database, and gives its answer and the database after it. The texts of messages and the page
-- that an answer leads to are left out, and a failed read of the database is not modelled.
pub mod Devices
pub mod Enroll
pub mod Machines
pub mod Endpoints
pub mod Adoption
use wgroster.Prelude.{
  ◌++◌, ℕ, Bool, Option, none, some, List, [], ◌∷◌, Text, text_eq, ◌==◌, if◌then◌else◌, select, not,
  any,
}
use wgroster.Strings.{parse_int, Number, positive, ParsedInt, syntax_error, range_error, parsed}
use wgroster.Ipam.{Refusal}
use wgroster.Store.Db.{Db}
use wgroster.Store.Sessions.{Session}
use wgroster.Store.Audit.{add_audit}
use wgroster.Web.Conflicts.{Conflict}

-- Why a form is refused.
pub data Reason : Type 0 where
  invalid_name invalid_key too_many_pending taken no_endpoint not_disabled unassigned : Reason
  self_enroll_off no_free_address address_conflict not_active machine_disabled invalid_endpoint :
      Reason
  not_registered registered : Reason
  overlapping : Conflict → Reason
  bad_address : Refusal → Reason

pub data Reply : Type 0 where
  not_found forbidden server_error done : Reply
  refused : Reason → Reply

-- The fields of the forms on machines.
pub record MachineForm : Type 0 where
  pub owner_uid : Text
  pub name : Text
  pub public_key : Text
  pub icon : Text
  pub address : Text
  pub endpoint_ids : List Text

-- audit, in a handler that has a session.
unfoldable pub audit : ℕ → Session → Text → Text → Db → Db
unfolding add_audit
audit now session action target db = add_audit now session.uid action target db

-- The values of auditLimits.
abbrev pub audit_limits : List ℕ
audit_limits = 300 ∷ 1000 ∷ 5000 ∷ []

allowed_limit : ParsedInt → ℕ
allowed_limit (parsed (positive n)) = if any (λ v. v == n) audit_limits then n else 300
allowed_limit _ = 300

-- auditLimit.
unfoldable pub audit_limit : Text → ℕ
unfolding allowed_limit
audit_limit raw = allowed_limit (parse_int raw)

abbrev number_or : Number → ParsedInt → Number
number_or default (parsed n) = n
number_or default _ = default

-- atoiDefault.
unfoldable pub atoi_default : Text → Number → Number
atoi_default s default = if text_eq s [] then default else number_or default (parse_int s)

-- without.
unfoldable pub without : List Text → Text → List Text
without slice v = select (λ s. not (text_eq s v)) slice

-- owner_uid/name, the target of most audit entries.
abbrev pub target_of : Text → Text → Text
target_of owner name = owner ++ b'/' ∷ name
