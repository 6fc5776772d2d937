-- ===== src/Store/Models.antt =====
-- internal/store/models.go: the records of the tables. A time is its Unix second, and 0 stands for
-- the zero time, as in the columns.
use wgroster.Prelude.{
  ℕ, Bool, not, Option, none, some, List, [], ◌∷◌, Text, txt, text_eq, ◌==◌, if◌then◌else◌,
}

-- The status column, whose values are StatusPending, StatusActive and StatusDisabled.
pub data Status : Type 0 where
  pending active disabled : Status

abbrev pub status_eq : Status → Status → Bool
status_eq pending pending = Bool.true
status_eq active active = Bool.true
status_eq disabled disabled = Bool.true
status_eq _ _ = Bool.false

-- StatusRank.
unfoldable pub status_rank : Status → ℕ
status_rank pending = 0
status_rank active = 1
status_rank _ = 2

pub record Endpoint : Type 0 where
  pub id : ℕ
  pub name : Text
  pub public_key : Text
  pub host_port : Text
  pub allowed_ips : Text
  pub dns : Text
  pub mtu : ℕ
  pub persistent_keepalive : ℕ
  pub tunnel_ip : Text
  pub upload_token : Text
  pub created_at : ℕ

-- The column pending_since is not a field of the source's struct.
pub record Machine : Type 0 where
  pub id : ℕ
  pub owner_uid : Text
  pub owner_name : Text
  pub name : Text
  pub public_key : Text
  pub address : Text
  pub status : Status
  pub icon : Text
  pub created_at : ℕ
  pub approved_at : Option ℕ
  pub approved_by : Text
  pub pending_since : ℕ
  pub last_seen : ℕ
  pub dormant_since : ℕ

-- Machine.Dormant.
abbrev pub is_dormant : Machine → Bool
is_dormant m = not (m.dormant_since == 0)

abbrev pub approved_or : Option ℕ → ℕ → ℕ
approved_or none created = created
approved_or (some t) created = t

-- Machine.SeenOrSince.
unfoldable pub seen_or_since : Machine → ℕ
seen_or_since m =
    if not (m.last_seen == 0) then m.last_seen else approved_or m.approved_at m.created_at

-- Machine.OwnerDisplay.
abbrev pub owner_display : Machine → Text
owner_display m = if text_eq m.owner_name [] then m.owner_uid else m.owner_name

-- MachineIcons.
abbrev pub machine_icons : List Text
machine_icons = txt "laptop" ∷ txt "phone" ∷ txt "tablet" ∷ txt "server" ∷ txt "desktop" ∷ []

abbrev pub default_machine_icon : Text
default_machine_icon = txt "desktop"

known_icon : Text → List Text → Text
known_icon icon [] = default_machine_icon
known_icon icon (v ∷ vs) = if text_eq v icon then v else known_icon icon vs

-- NormalizeIcon.
unfoldable pub normalize_icon : Text → Text
unfolding known_icon
normalize_icon icon = known_icon icon machine_icons

-- A row of status_peer, and a peer parsed from a dump.
pub record StatusPeer : Type 0 where
  pub endpoint_id : ℕ
  pub public_key : Text
  pub last_handshake : ℕ
  pub rx : ℕ
  pub tx : ℕ
  pub remote_endpoint : Text
  pub allowed_ips : Text
