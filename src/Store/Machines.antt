-- ===== src/Store/Machines.antt =====
-- internal/store/machines.go: the functions over the machine table and its endpoint links.
use wgroster.Prelude.{
  ℕ, suc, Bool, false, not, ◌&&◌, Option, none, some, [], ◌∷◌, ◌++◌, Text, text_eq, ◌==◌,
  if◌then◌else◌, length, select, update, first, any,
}
use wgroster.Store.Models.{Machine, pending, status_eq, normalize_icon, Endpoint}
use wgroster.Store.Db.{Db, constraint, not_found, Result, ok, err, ◌>>=◌}

-- What a caller of CreateMachine fills in.
pub record NewMachine : Type 0 where
  pub owner_uid : Text
  pub owner_name : Text
  pub name : Text
  pub public_key : Text
  pub icon : Text

abbrev pub has_id : ℕ → Machine → Bool
has_id id m = m.id == id

abbrev pub has_key : Text → Machine → Bool
has_key key m = text_eq m.public_key key

-- Another row than that of the id has the key, or the address: a unique index refuses the update.
abbrev pub key_of_other : ℕ → Text → Machine → Bool
key_of_other id key m = if m.id == id then false else text_eq m.public_key key

abbrev pub address_of_other : ℕ → Text → Machine → Bool
address_of_other id address m =
    if m.id == id then false else if text_eq address [] then false else text_eq m.address address

abbrev pub find_machine : ℕ → Db → Option Machine
find_machine id db = first (has_id id) db.machines

abbrev pub has_machine : ℕ → Db → Bool
has_machine id db = any (has_id id) db.machines

abbrev pub has_endpoint : ℕ → Db → Bool
has_endpoint id db = any (λ (e : Endpoint). e.id == id) db.endpoints

-- UPDATE machine SET … WHERE id=?, for columns under no constraint.
abbrev pub set_machine : ℕ → (Machine → Machine) → Db → Db
set_machine id g db = record db { machines = update (has_id id) g db.machines }

abbrev pub new_row : ℕ → ℕ → NewMachine → Machine
new_row id now n = record {
  id = id;
  owner_uid = n.owner_uid;
  owner_name = n.owner_name;
  name = n.name;
  public_key = n.public_key;
  address = [];
  status = pending;
  icon = normalize_icon n.icon;
  created_at = now;
  approved_at = none;
  approved_by = [];
  pending_since = now;
  last_seen = 0;
  dormant_since = 0;
}

-- CreateMachine: the new row's id, and the database with it.
unfoldable pub create_machine : ℕ → NewMachine → Db → Result (ℕ × Db)
create_machine now n db =
    if any (has_key n.public_key) db.machines
    then err constraint
    else ok (
      db.next_machine,
      record db {
        machines = db.machines ++ new_row db.next_machine now n ∷ [];
        next_machine = suc db.next_machine;
      },
    )

-- GetMachine.
unfoldable pub get_machine : ℕ → Db → Result Machine
get_machine id db = elim (find_machine id db) [ none ↦ err not_found | some m ↦ ok m ]

-- UpdateMachineIdentity.
unfoldable pub update_machine_identity : ℕ → Text → Text → Text → Db → Result Db
update_machine_identity id name key icon db =
    if has_machine id db && any (key_of_other id key) db.machines
    then err constraint
    else ok (
        set_machine id (λ m. record m { name = name; public_key = key; icon = normalize_icon icon })
          db)

-- The columns that send a machine back to pending.
abbrev pub requeue : ℕ → Machine → Machine
requeue now m = record m {
  status = pending;
  approved_at = none;
  approved_by = [];
  pending_since = now;
}

abbrev pub requeue_if : Bool → ℕ → ℕ → Db → Db
requeue_if requeued now id db = if requeued then set_machine id (requeue now) db else db

-- UpdateOwnMachine: a new key on a machine that is not pending requeues it.
unfoldable pub update_own_machine : ℕ → ℕ → Text → Text → Text → Db → Result (Bool × Db)
update_own_machine now id name key icon db = elim (find_machine id db) [
  | none ↦ err not_found
  | some old ↦ do
    edited ← update_machine_identity id name key icon db
    let requeued = not (text_eq key old.public_key) && not (status_eq old.status pending)
    ok (requeued, requeue_if requeued now id edited)
]

-- SetMachineAddress.
unfoldable pub set_machine_address : ℕ → Text → Db → Result Db
set_machine_address id address db =
    if has_machine id db && any (address_of_other id address) db.machines
    then err constraint
    else ok (set_machine id (λ m. record m { address = address }) db)

-- CountPendingByOwner.
unfoldable pub count_pending_by_owner : Text → Db → ℕ
count_pending_by_owner uid db =
    length (select (λ m. text_eq m.owner_uid uid && status_eq m.status pending) db.machines)
