-- ===== src/Store/Approval.antt =====
-- What ApproveMachine and SetMachineAssignment of internal/store/machines.go write.
use wgroster.Prelude.{
  select, some, ℕ, In, In-sort, length, length-sort, ltb, sort_by, subst, ◌↔◌, ◌≡◌, ◌≢◌, refl, ◌∙◌,
  ap, sym, inl, inr, true, false, List, [], ◌∷◌, ◌++◌, map, Text, ◌==◌, if◌then◌else◌, update,
  delete, any, any-update, All, Distinct, arith, Bool-cases,
}
use mathlib.Core.List.{append-nil, append_assoc}
use wgroster.Store.Models.{Machine, active}
use wgroster.Store.Db.{Result, Db, ok, err, constraint}
use wgroster.Store.Machines.{
  has_id, has_machine, has_endpoint, address_of_other, set_machine, set_machine_address,
}
use wgroster.Store.Service.{
  has_link, insert_links, replace_endpoints, activation, assign, approve_machine,
  endpoint_ids_for_machine,
}

-- The machine has a link to none of the endpoints.
abbrev NotLinked : ℕ → List ℕ → List (ℕ × ℕ) → Type 0
NotLinked id eids links = All (λ eid. has_link (id, eid) links ≡ false) eids

NotLinked-append :
    (id eid : ℕ) (eids : List ℕ) (links : List (ℕ × ℕ))
    → NotLinked id eids links
    → All (λ f. f ≢ eid) eids
    → NotLinked id eids (links ++ (id, eid) ∷ [])
NotLinked-append id eid [] links h k = tt
NotLinked-append id eid (f ∷ fs) links h k =
    (last links h.0, NotLinked-append id eid fs links h.1 k.1)
  where
    last :
        (ls : List (ℕ × ℕ))
        → has_link (id, f) ls ≡ false
        → has_link (id, f) (ls ++ (id, eid) ∷ []) ≡ false
    last [] h = ground (arith, k.0)
    last (l ∷ ls) h = ground (arith, last ls)

-- Distinct endpoints that exist, for a machine that exists, are all linked.
insert_links-ok :
    (id : ℕ) (eids : List ℕ) (db : Db)
    → has_machine id db ≡ true
    → All (λ eid. has_endpoint eid db ≡ true) eids
    → Distinct eids
    → NotLinked id eids db.links
    → insert_links id eids db ≡ ok (record db { links = db.links ++ map (λ eid. (id, eid)) eids })
unfolding insert_links
insert_links-ok id [] db m e d n =
    ap (λ ls. ok (record db { links = ls })) (sym (append-nil db.links))
insert_links-ok id (eid ∷ eids) db m e d n =
    rw (n.0, m, e.0)
      (insert_links-ok id eids (record db { links = db.links ++ (id, eid) ∷ [] }) m e.1 d.1
          (NotLinked-append id eid eids db.links n.1 d.0)
        ∙ ap (λ ls. ok (record db { links = ls }))
            (append_assoc db.links ((id, eid) ∷ []) (map (λ f. (id, f)) eids)))

unlinked :
    (id : ℕ) (eids : List ℕ) (links : List (ℕ × ℕ))
    → NotLinked id eids (delete (λ l. l.0 == id) links)
unlinked id [] links = tt
unlinked id (eid ∷ eids) links = (one links, unlinked id eids links)
  where
    one : (ls : List (ℕ × ℕ)) → has_link (id, eid) (delete (λ l. l.0 == id) ls) ≡ false
    one [] = refl
    one (l ∷ ls) = ground (arith, one ls)

-- The row of an approved machine.
abbrev pub approved : ℕ → Text → Text → Machine → Machine
approved now address by m = record m {
  address = address;
  status = active;
  approved_at = some now;
  approved_by = by;
}

set_machine-twice :
    (id : ℕ) (address : Text) (now : ℕ) (by : Text) (ms : List Machine)
    → update
        (has_id id)
        (activation true now by)
        (update (has_id id) (λ m. record m { address = address }) ms)
      ≡ update (has_id id) (approved now address by) ms
set_machine-twice id address now by [] = refl
set_machine-twice id address now by (m ∷ ms) = elim (Bool-cases (has_id id m)) [
  | inl e ↦ rw (e, set_machine-twice id address now by ms) (rw e refl)
  | inr e ↦ rw (e, set_machine-twice id address now by ms) (rw e refl)
]

-- Approving a machine that exists, with an address that no other machine holds and distinct
-- endpoints that exist, succeeds: the machine has the status active, that address, and the
-- time and author of the approval, its links become exactly those endpoints, and nothing else
-- changes.
pub approve_machine-ok :
    (now id : ℕ) (address by : Text) (eids : List ℕ) (db : Db)
    → has_machine id db ≡ true
    → any (address_of_other id address) db.machines ≡ false
    → All (λ eid. has_endpoint eid db ≡ true) eids
    → Distinct eids
    → approve_machine now id address eids by db
      ≡ ok (record db {
        machines = update (has_id id) (approved now address by) db.machines;
        links = delete (λ l. l.0 == id) db.links ++ map (λ eid. (id, eid)) eids;
      })
unfolding approve_machine assign replace_endpoints set_machine_address
approve_machine-ok now id address by eids db m a e d =
    let there : has_machine id (set_machine id (approved now address by) db) ≡ true =
      any-update (has_id id) (has_id id) (approved now address by) (λ x. keeps x) db.machines ∙ m in
    rw (m, a, set_machine-twice id address now by db.machines)
      (insert_links-ok id eids _ there e d (unlinked id eids db.links))
  where
    keeps :
        (x : Machine)
        → has_id id (if has_id id x then approved now address by x else x) ≡ has_id id x
    keeps x = ground arith

-- An approval with the address of another machine is refused.
pub approve_machine-taken :
    (now id : ℕ) (address by : Text) (eids : List ℕ) (db : Db)
    → has_machine id db ≡ true
    → any (address_of_other id address) db.machines ≡ true
    → approve_machine now id address eids by db ≡ err constraint
unfolding approve_machine assign set_machine_address
approve_machine-taken now id address by eids db m a = rw (m, a) refl

-- The links of a machine after an approval, and those of the others.
ids_of : ℕ → List (ℕ × ℕ) → List ℕ
ids_of id links = map (λ (l : ℕ × ℕ). l.1) (select (λ l. l.0 == id) links)

ids_of-replaced :
    (id : ℕ) (eids : List ℕ) (links : List (ℕ × ℕ))
    → ids_of id (delete (λ l. l.0 == id) links ++ map (λ eid. (id, eid)) eids) ≡ eids
unfolding ids_of
ids_of-replaced id eids [] = new eids
  where
    new : (es : List ℕ) → ids_of id (map (λ eid. (id, eid)) es) ≡ es
    new [] = refl
    new (e ∷ es) = ground (arith, new es)
ids_of-replaced id eids (l ∷ ls) = ground (arith, ids_of-replaced id eids ls)

ids_of-other :
    (id other : ℕ) (eids : List ℕ) (links : List (ℕ × ℕ))
    → id ≢ other
    → ids_of other (delete (λ l. l.0 == id) links ++ map (λ eid. (id, eid)) eids)
      ≡ ids_of other links
unfolding ids_of
ids_of-other id other eids [] ne = new eids
  where
    new : (es : List ℕ) → ids_of other (map (λ eid. (id, eid)) es) ≡ []
    new [] = refl
    new (e ∷ es) = ground (arith, new es, ne)
ids_of-other id other eids (l ∷ ls) ne = ground (arith, ids_of-other id other eids ls ne, ne)

abbrev links_or : List (ℕ × ℕ) → Result Db → List (ℕ × ℕ)
links_or ls (ok db) = db.links
links_or ls (err e) = ls

-- After an approval of a machine that exists, with an address that no other machine holds and
-- distinct endpoints that exist, EndpointIDsForMachine returns for the machine as many ids as
-- were given, exactly these, and for every other machine what it returned before.
pub approve_machine-endpoint_ids :
    (now id : ℕ) (address by : Text) (eids : List ℕ) (db db' : Db)
    → has_machine id db ≡ true
    → any (address_of_other id address) db.machines ≡ false
    → All (λ eid. has_endpoint eid db ≡ true) eids
    → Distinct eids
    → approve_machine now id address eids by db ≡ ok db'
    → ((eid : ℕ) → In eid (endpoint_ids_for_machine id db') ↔ In eid eids)
      × (length (endpoint_ids_for_machine id db') ≡ length eids)
      × ((other : ℕ)
          → id ≢ other
          → endpoint_ids_for_machine other db' ≡ endpoint_ids_for_machine other db)
unfolding endpoint_ids_for_machine ids_of
approve_machine-endpoint_ids now id address by eids db db' m a e d h =
    let l : db'.links ≡ delete (λ l. l.0 == id) db.links ++ map (λ eid. (id, eid)) eids =
      ap (links_or []) (sym h ∙ approve_machine-ok now id address by eids db m a e d) in
    let same : endpoint_ids_for_machine id db' ≡ sort_by ltb eids =
      ap (λ ls. sort_by ltb (ids_of id ls)) l
      ∙ ap (sort_by ltb) (ids_of-replaced id eids db.links) in
    (
      λ eid. subst (λ xs. In eid xs ↔ In eid eids) (sym same) (In-sort ltb eid eids),
      ap length same ∙ length-sort ltb eids,
      λ other ne.
          ap (λ ls. sort_by ltb (ids_of other ls)) l
          ∙ ap (sort_by ltb) (ids_of-other id other eids db.links ne),
    )
