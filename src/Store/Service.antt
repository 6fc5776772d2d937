-- ===== src/Store/Service.antt =====
-- internal/store/machines.go: the functions that take machines in and out of service, their
-- endpoint links, and the lists that other parts read.
use wgroster.Prelude.{
  first, none, ℕ, Bool, true, false, not, ◌&&◌, ◌||◌, some, List, [], ◌∷◌, ◌++◌, map, Text, text_eq,
  text_lt, ltb, ◌==◌, if◌then◌else◌, length, select, delete, any, sort_by,
}
use wgroster.Store.Models.{Endpoint, Machine, pending, active, disabled, status_eq, status_rank}
use wgroster.Store.Db.{not_found, Db, constraint, Result, ok, err, ◌>>=◌}
use wgroster.Store.Machines.{
  has_key, set_machine, has_id, has_machine, has_endpoint, requeue, set_machine_address,
}

-- The CASE of DeleteExpiredPending: when the machine entered the review queue.
abbrev pub waiting_since : Machine → ℕ
waiting_since m = if ltb 0 m.pending_since then m.pending_since else m.created_at

abbrev pub is_expired_pending : ℕ → Machine → Bool
is_expired_pending cutoff m = status_eq m.status pending && ltb (waiting_since m) cutoff

-- A DELETE of machines: the foreign key of machine_endpoint cascades.
abbrev pub delete_machines : (Machine → Bool) → Db → Db
delete_machines p db = record db {
  machines = delete p db.machines;
  links = delete (λ l. any (λ m. p m && m.id == l.0) db.machines) db.links;
}

-- DeleteExpiredPending: how many rows were removed, and the database after.
unfoldable pub delete_expired_pending : ℕ → Db → ℕ × Db
delete_expired_pending cutoff db = (
  length (select (is_expired_pending cutoff) db.machines),
  delete_machines (is_expired_pending cutoff) db,
)

-- DeleteMachine.
unfoldable pub delete_machine : ℕ → Db → Db
delete_machine id db = delete_machines (has_id id) db

-- SetMachinePending.
unfoldable pub set_machine_pending : ℕ → ℕ → Db → Db
set_machine_pending now id db = set_machine id (requeue now) db

-- SetMachineDisabled.
unfoldable pub set_machine_disabled : ℕ → Db → Db
set_machine_disabled id db = set_machine id (λ m. record m { status = disabled }) db

-- The columns that an approval sets beside the address.
abbrev pub activate_columns : ℕ → Text → Machine → Machine
activate_columns now by m = record m { status = active; approved_at = some now; approved_by = by }

-- SetMachineActive.
unfoldable pub set_machine_active : ℕ → ℕ → Text → Db → Db
set_machine_active now id by db = set_machine id (activate_columns now by) db

-- FlagMachineDormant.
unfoldable pub flag_machine_dormant : ℕ → ℕ → Db → Db
flag_machine_dormant id at db = set_machine id (λ m. record m { dormant_since = at }) db

-- ClearMachineDormant.
unfoldable pub clear_machine_dormant : ℕ → Db → Db
clear_machine_dormant id db = set_machine id (λ m. record m { dormant_since = 0 }) db

-- UpdateOwnerName.
unfoldable pub update_owner_name : Text → Text → Db → Db
update_owner_name uid name db = record db {
  machines =
      map (λ (m : Machine). if text_eq m.owner_uid uid then record m { owner_name = name } else m)
        db.machines;
}

abbrev pub has_link : ℕ × ℕ → List (ℕ × ℕ) → Bool
has_link l links = any (λ k. k.0 == l.0 && k.1 == l.1) links

-- The INSERT loop of replaceEndpoints: the primary key and both foreign keys are checked.
unfoldable pub insert_links : ℕ → List ℕ → Db → Result Db
insert_links id [] db = ok db
insert_links id (eid ∷ eids) db =
    let rest = insert_links id eids (record db { links = db.links ++ (id, eid) ∷ [] }) in
    if has_link (id, eid) db.links || not (has_machine id db) || not (has_endpoint eid db)
    then err constraint
    else rest

-- replaceEndpoints.
unfoldable pub replace_endpoints : ℕ → List ℕ → Db → Result Db
unfolding insert_links
replace_endpoints id eids db =
    insert_links id eids (record db { links = delete (λ l. l.0 == id) db.links })

-- What approval adds to the new address: nil when the links of a machine are only edited.
abbrev pub activation : Bool → ℕ → Text → Machine → Machine
activation true now by m = activate_columns now by m
activation false now by m = m

-- assign: one transaction, so an error keeps the database as it was.
unfoldable pub assign : ℕ → ℕ → Text → List ℕ → Bool → Text → Db → Result Db
unfolding replace_endpoints
assign now id address eids activate by db = do
  addressed ← set_machine_address id address db
  replace_endpoints id eids (set_machine id (activation activate now by) addressed)

-- ApproveMachine.
unfoldable pub approve_machine : ℕ → ℕ → Text → List ℕ → Text → Db → Result Db
unfolding assign
approve_machine now id address eids by db = assign now id address eids true by db

-- SetMachineAssignment.
unfoldable pub set_machine_assignment : ℕ → ℕ → Text → List ℕ → Db → Result Db
unfolding assign
set_machine_assignment now id address eids db = assign now id address eids false [] db

-- SetMachineEndpoints.
unfoldable pub set_machine_endpoints : ℕ → List ℕ → Db → Result Db
unfolding replace_endpoints
set_machine_endpoints id eids db = replace_endpoints id eids db

-- UsedAddresses.
unfoldable pub used_addresses : Db → List Text
used_addresses db =
    map (λ (m : Machine). m.address) (select (λ m. not (text_eq m.address [])) db.machines)

-- EndpointIDsForMachine, in the order of the primary key.
unfoldable pub endpoint_ids_for_machine : ℕ → Db → List ℕ
endpoint_ids_for_machine id db =
    sort_by ltb (map (λ (l : ℕ × ℕ). l.1) (select (λ l. l.0 == id) db.links))

-- ORDER BY owner_uid, name.
abbrev pub owner_then_name : Machine → Machine → Bool
owner_then_name m n =
    text_lt m.owner_uid n.owner_uid || (text_eq m.owner_uid n.owner_uid && text_lt m.name n.name)

-- ORDER BY the rank of the status, owner_uid, name.
abbrev pub rank_first : Machine → Machine → Bool
rank_first m n =
    ltb (status_rank m.status) (status_rank n.status)
    || (status_rank m.status == status_rank n.status && owner_then_name m n)

-- ListMachines.
unfoldable pub list_machines : Db → List Machine
list_machines db = sort_by rank_first db.machines

-- ListMachinesByOwner.
unfoldable pub list_machines_by_owner : Text → Db → List Machine
list_machines_by_owner uid db =
    sort_by (λ (m n : Machine). ltb n.created_at m.created_at)
      (select (λ m. text_eq m.owner_uid uid) db.machines)

-- The WHERE of ActiveMachinesForEndpoint.
abbrev pub is_active_on : ℕ → Db → Machine → Bool
is_active_on eid db m = status_eq m.status active && has_link (m.id, eid) db.links

-- ActiveMachinesForEndpoint.
unfoldable pub active_machines_for_endpoint : ℕ → Db → List Machine
active_machines_for_endpoint eid db =
    sort_by owner_then_name (select (is_active_on eid db) db.machines)

-- MachineByPublicKey.
unfoldable pub machine_by_public_key : Text → Db → Result Machine
machine_by_public_key key db = elim (first (has_key key) db.machines) [
  | none ↦ err not_found
  | some m ↦ ok m
]

-- EndpointLinks, as the map from machine id to endpoint ids, in the order of the primary key.
unfoldable pub endpoint_links : Text → Db → ℕ → List ℕ
endpoint_links uid db id = sort_by ltb (
    map (λ (l : ℕ × ℕ). l.1)
      (select (λ l. l.0 == id)
        (select
          (λ l.
            text_eq uid []
            || any (λ (m : Machine). text_eq m.owner_uid uid && m.id == l.0) db.machines)
          db.links)))

-- EndpointsForMachine.
unfoldable pub endpoints_for_machine : ℕ → Db → List Endpoint
endpoints_for_machine id db =
    sort_by (λ (e f : Endpoint). text_lt e.name f.name)
      (select (λ (e : Endpoint). has_link (id, e.id) db.links) db.endpoints)
