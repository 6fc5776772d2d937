-- ===== src/Web/Routes/Vouched.antt =====
-- Which machines are in service after writes that anyone may make.
use wgroster.Prelude.{
  not, ◌⊎◌, ℕ, ◌≡◌, refl, sym, ap, subst, ◌∙◌, Bool, true, List, [], ◌∷◌, ◌++◌, map, Text, arith,
  if◌then◌else◌, inl, inr, select, update, In, In-select, Bool-cases, any,
}
use wgroster.Store.Models.{Machine, Status, pending, active, status_eq, StatusPeer}
use wgroster.Store.Models
use wgroster.Store.Db.{Db, ok, constraint}
use wgroster.Store.Machines.{
  has_id, NewMachine, create_machine, new_row, has_key, set_machine, set_machine_address,
}
use wgroster.Store.Service.{
  update_owner_name, set_machine_disabled, flag_machine_dormant, clear_machine_dormant,
  insert_links, replace_endpoints,
}
use wgroster.Store.Status.{rows_on}
use wgroster.Store.Status.Seen.{replace_status-last_seen, seen_at, newest_handshake}
use wgroster.Store.Reviewed.{update_own_machine-vouched}
use wgroster.Store.Invariant.{IsWellFormed}
use wgroster.Web.Routes.Writes.{
  anyone, Write, Writes, stop, go, created, edited, addressed, linked, deleted, disabled, flagged,
  cleared, renamed, reported, aside,
}
use wgroster.Web.Routes.WellFormed.{write-IsWellFormed, ensured}
use wgroster.Store.Invariant.Machines.{Ensures, unless-Ensures}

-- A machine of the table that is active, with the id and the key.
pub record IsInService (ms : List Machine) (id : ℕ) (key : Text) : Type 0 where
  pub machine : Machine
  pub row : In machine ms
  pub active : status_eq machine.status Models.active ≡ true
  pub same_id : machine.id ≡ id
  pub same_key : machine.public_key ≡ key

-- Every machine in service was in service before, with the same key.
abbrev pub IsVouched : List Machine → List Machine → Type 0
IsVouched ms ms' = (id : ℕ) (key : Text) → IsInService ms' id key → IsInService ms id key

-- Rows that are rewritten without a new status or key.
map-IsVouched :
    (f : Machine → Machine) (ms : List Machine)
    → ((m : Machine)
        → status_eq (f m).status Models.active ≡ true
        → status_eq m.status Models.active ≡ true)
    → ((m : Machine) → (f m).id ≡ m.id)
    → ((m : Machine) → (f m).public_key ≡ m.public_key)
    → IsVouched ms (map f ms)
map-IsVouched f ms h i k id key s =
    let (m, r, e) = In-map ms s.machine s.row in
    record {
      machine = m;
      row = r;
      active = h m (ap (λ (x : Machine). status_eq x.status Models.active) e ∙ s.active);
      same_id = sym (i m) ∙ ap (λ (x : Machine). x.id) e ∙ s.same_id;
      same_key = sym (k m) ∙ ap (λ (x : Machine). x.public_key) e ∙ s.same_key;
    }
  where
    In-map :
        (xs : List Machine) (b : Machine) → In b (map f xs) → (a : Machine) × In a xs × (f a ≡ b)
    In-map [] b i = absurd i
    In-map (x ∷ xs) b (inl e) = (x, inl refl, e)
    In-map (x ∷ xs) b (inr i) = let (a, j, e) = In-map xs b i in (a, inr j, e)

update-map :
    (p : Machine → Bool) (g : Machine → Machine) (ms : List Machine)
    → update p g ms ≡ map (λ m. if p m then g m else m) ms
update-map p g [] = refl
update-map p g (m ∷ ms) = rw (update-map p g ms) refl

set_machine-IsVouched :
    (id : ℕ) (g : Machine → Machine) (db : Db)
    → ((m : Machine)
        → status_eq (g m).status Models.active ≡ true
        → status_eq m.status Models.active ≡ true)
    → ((m : Machine) → (g m).id ≡ m.id)
    → ((m : Machine) → (g m).public_key ≡ m.public_key)
    → IsVouched db.machines (set_machine id g db).machines
set_machine-IsVouched id g db h i k =
    subst (IsVouched db.machines) (sym (update-map (has_id id) g db.machines)) (
      map-IsVouched _ db.machines (λ m. ground (arith, h m)) (λ m. ground (arith, i m))
        (λ m. ground (arith, k m)))

unchanged-IsVouched : (ms ms' : List Machine) → ms' ≡ ms → IsVouched ms ms'
unchanged-IsVouched ms ms' e id key s = subst (λ xs. IsInService xs id key) e s

In-last : (xs : List Machine) (a b : Machine) → In b (xs ++ a ∷ []) → In b xs ⊎ (a ≡ b)
In-last [] a b (inl e) = inr e
In-last [] a b (inr i) = absurd i
In-last (x ∷ xs) a b (inl e) = inl (inl e)
In-last (x ∷ xs) a b (inr i) = elim (In-last xs a b i) [ inl j ↦ inl (inr j) | inr e ↦ inr e ]

-- A new row is pending.
create_machine-IsVouched :
    (now : ℕ) (n : NewMachine) (db : Db)
    → Ensures (λ (r : ℕ × Db). IsVouched db.machines r.1.machines) (create_machine now n db)
unfolding create_machine
create_machine-IsVouched now n db = elim (Bool-cases (any (has_key n.public_key) db.machines)) [
  | inl e ↦ rw e tt
  | inr e ↦ rw e (λ id key s.
      elim (In-last db.machines (new_row db.next_machine now n) s.machine s.row) [
        | inl i ↦ record {
          machine = s.machine;
          row = i;
          active = s.active;
          same_id = s.same_id;
          same_key = s.same_key;
        }
        | inr x ↦
            absurd
              (ground (arith, ap (λ (m : Machine). status_eq m.status Models.active) x ∙ s.active))
      ])
]

set_machine_address-IsVouched :
    (id : ℕ) (address : Text) (db : Db)
    → Ensures (λ (d : Db). IsVouched db.machines d.machines) (set_machine_address id address db)
unfolding set_machine_address
set_machine_address-IsVouched id address db =
    unless-Ensures (λ (d : Db). IsVouched db.machines d.machines) _ constraint (ok _)
      (set_machine-IsVouched id (λ m. record m { address = address }) db (λ m h. h) (λ m. refl)
        (λ m. refl))

insert_links-machines :
    (id : ℕ) (eids : List ℕ) (db : Db)
    → Ensures (λ (d : Db). d.machines ≡ db.machines) (insert_links id eids db)
unfolding insert_links
insert_links-machines id [] db = refl
insert_links-machines id (eid ∷ eids) db =
    unless-Ensures (λ (d : Db). d.machines ≡ db.machines) _ constraint (insert_links id eids _)
      (insert_links-machines id eids (record db { links = db.links ++ (id, eid) ∷ [] }))

delete-IsVouched : (p : Machine → Bool) (ms : List Machine) → IsVouched ms (select p ms)
delete-IsVouched p ms id key s = record {
  machine = s.machine;
  row = ((In-select p ms s.machine).0 s.row).0;
  active = s.active;
  same_id = s.same_id;
  same_key = s.same_key;
}

write-IsVouched :
    {db db' : Db} → Write anyone db db' → IsWellFormed db → IsVouched db.machines db'.machines
unfolding update_owner_name set_machine_disabled flag_machine_dormant clear_machine_dormant
    replace_endpoints
write-IsVouched (created now id n db db' k e) w =
    ensured _ _ (id, db') e (create_machine-IsVouched now n db)
write-IsVouched (edited now id name key icon r db db' k e) w = λ i x s.
    let (n, j, a, t, v) =
      update_own_machine-vouched now id name key icon db db' r s.machine w e s.row s.active in
    record { machine = n; row = j; active = a; same_id = t ∙ s.same_id; same_key = v ∙ s.same_key }
write-IsVouched (addressed id address db db' k e) w =
    ensured (λ (d : Db). IsVouched db.machines d.machines) _ db' e
      (set_machine_address-IsVouched id address db)
write-IsVouched (linked id eids db db' e) w =
    unchanged-IsVouched db.machines db'.machines
      (ensured (λ (d : Db). d.machines ≡ db.machines) _ db' e (insert_links-machines id eids _))
write-IsVouched (deleted p db) w = delete-IsVouched (λ m. not (p m)) db.machines
write-IsVouched (disabled id db) w =
    set_machine-IsVouched id _ db (λ m h. absurd (ground (arith, h))) (λ m. refl) (λ m. refl)
write-IsVouched (flagged id at db) w =
    set_machine-IsVouched id _ db (λ m h. h) (λ m. refl) (λ m. refl)
write-IsVouched (cleared id db) w = set_machine-IsVouched id _ db (λ m h. h) (λ m. refl) (λ m. refl)
write-IsVouched (renamed uid name db) w =
    map-IsVouched _ db.machines (λ m. ground arith) (λ m. ground arith) (λ m. ground arith)
write-IsVouched (reported eid at peers db db' k e) w =
    subst (IsVouched db.machines) (sym (replace_status-last_seen eid peers at db db' e)) (
      map-IsVouched (seen_at (newest_handshake eid (rows_on eid db) peers)) db.machines (λ m h. h)
        (λ m. refl) (λ m. refl))
write-IsVouched (aside db db' s) w = unchanged-IsVouched db.machines db'.machines s.machines

pub Writes-IsVouched :
    {db db' : Db} → Writes anyone db db' → IsWellFormed db → IsVouched db.machines db'.machines
Writes-IsVouched (stop db) w = λ id key s. s
Writes-IsVouched (go x xs) w =
    λ id key s. write-IsVouched x w id key (Writes-IsVouched xs (write-IsWellFormed x w) id key s)
