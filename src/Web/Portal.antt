-- ===== src/Web/Portal.antt =====
-- What the server's jobs and handlers change: the database and the alerts sent to the webhook
-- (internal/web/alerts.go). Log lines, and the details and times of alerts, are left out.
use wgroster.Prelude.{ℕ, List, [], ◌∷◌, ◌++◌, Text, txt, if◌then◌else◌}
use wgroster.Config.{Config}
use wgroster.Store.Models.{Machine}
use wgroster.Store.Db.{Db}
use wgroster.Store.Audit.{add_audit}

-- The types of alertKey.typ.
pub data AlertType : Type 0 where
  stale missing unlinked unexpected mismatch orphan dormant : AlertType

pub record AlertKey : Type 0 where
  pub endpoint : Text
  pub typ : AlertType
  pub user : Text
  pub machine : Text

pub data AlertStatus : Type 0 where
  firing resolved : AlertStatus

pub record Portal : Type 0 where
  pub db : Db
  pub alerts : List (AlertKey × AlertStatus)

abbrev pub on_db : (Db → Db) → Portal → Portal
on_db f p = record p { db = f p.db }

-- postAlert: nothing is sent when no webhook is configured.
unfoldable pub post_alert : Config → AlertKey → AlertStatus → Portal → Portal
post_alert cfg key status p =
    if cfg.alert_webhook then record p { alerts = p.alerts ++ (key, status) ∷ [] } else p

-- systemAudit.
unfoldable pub system_audit : ℕ → Text → Text → Portal → Portal
unfolding add_audit
system_audit now action target p = on_db (add_audit now (txt "system") action target) p

-- machineRef.
abbrev pub machine_ref : Machine → Text
machine_ref m = m.owner_uid ++ b'/' ∷ m.name
