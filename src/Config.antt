-- ===== src/Config.antt =====
-- internal/config/config.go: the settings that the modelled parts read.
use wgroster.Prelude.{ℕ, Bool, false, true, ◌&&◌, Text, ltb}

-- OrphanAction and DormantAction: "flag" or "disable".
pub data Action : Type 0 where
  flag disable : Action

abbrev pub is_disable : Action → Bool
is_disable flag = false
is_disable disable = true

pub record Config : Type 0 where
  pub ldap_configured : Bool
  pub alert_webhook : Bool
  pub self_enroll : Bool
  pub self_enroll_endpoint : Text
  pub max_pending_per_user : ℕ
  pub pending_expiry_days : ℕ
  pub audit_retention_days : ℕ
  pub orphan_grace_days : ℕ
  pub orphan_action : Action
  pub dormant_days : ℕ
  pub dormant_action : Action

-- OrphanCheckEnabled.
abbrev pub orphan_check_enabled : Config → Bool
orphan_check_enabled c = ltb 0 c.orphan_grace_days && c.ldap_configured

-- DormantCheckEnabled.
abbrev pub dormant_check_enabled : Config → Bool
dormant_check_enabled c = ltb 0 c.dormant_days
