-- ===== src/Store/Reviewed.antt =====
-- internal/store/machines.go: the keys that endpoints are told to accept after UpdateOwnMachine.
use wgroster.Prelude.{
  ℕ, ◌≡◌, refl, sym, ◌∙◌, ap, subst, inl, inr, Bool, true, false, not, ◌&&◌, some, List, [], ◌∷◌,
  Text, text_eq, text_eq→eq, if◌then◌else◌, update, first, any, All-In, Apart, In, In-sort,
  In-select, In-update, arith, Bool-cases, Option-cases,
}
use wgroster.Store.Models.{Machine, Status, pending, active, disabled, status_eq, normalize_icon}
use wgroster.Store.Db.{Db, Result, ok, err}
use wgroster.Store.Machines.{
  has_id, find_machine, requeue, requeue_if, update_machine_identity, update_own_machine,
  key_of_other, has_machine,
}
use wgroster.Store.Service.{owner_then_name, is_active_on, has_link, active_machines_for_endpoint}
use wgroster.Store.Invariant.{SameId, IsWellFormed}

-- The only row with an id is the one that a search by the id finds.
pub first_unique :
    (id : ℕ) (ms : List Machine) (m n : Machine)
    → Apart SameId ms
    → first (has_id id) ms ≡ some m
    → In n ms
    → n.id ≡ id
    → n ≡ m
first_unique id [] m n a f i e = absurd i
first_unique id (x ∷ xs) m n a f i e = elim (Bool-cases (has_id id x)) [
  | inl h ↦ elim i [
    | inl j ↦ ground arith
    | inr j ↦ absurd (All-In (λ y. ¬ SameId x y) xs a.0 j (ground arith))
  ]
  | inr h ↦ elim i [
    | inl j ↦ absurd (ground (arith, ap (λ (y : Machine). y.id) j))
    | inr j ↦ first_unique id xs m n a.1 (ground arith) j e
  ]
]

-- The columns that an owner's edit leaves.
abbrev pub own_edit : Bool → ℕ → Text → Text → Text → Machine → Machine
own_edit true now name key icon m =
    requeue now (record m { name = name; public_key = key; icon = normalize_icon icon })
own_edit false now name key icon m = record m {
  name = name;
  public_key = key;
  icon = normalize_icon icon;
}

-- Whether the edit requeues.
abbrev pub needs_review : Text → Machine → Bool
needs_review key old = not (text_eq key old.public_key) && not (status_eq old.status pending)

requeue_if-update :
    (b : Bool) (now id : ℕ) (name key icon : Text) (ms : List Machine) (db : Db)
    → requeue_if b now id
        (record db { machines = update (has_id id) (own_edit false now name key icon) ms })
      ≡ record db { machines = update (has_id id) (own_edit b now name key icon) ms }
requeue_if-update false now id name key icon ms db = refl
requeue_if-update true now id name key icon ms db = ap (λ xs. record db { machines = xs }) (both ms)
  where
    both :
        (xs : List Machine)
        → update
            (has_id id)
            (requeue now)
            (update (has_id id) (own_edit false now name key icon) xs)
          ≡ update (has_id id) (own_edit true now name key icon) xs
    both [] = refl
    both (x ∷ xs) = elim (Bool-cases (has_id id x)) [
      | inl e ↦ rw (e, both xs) (rw e refl)
      | inr e ↦ rw (e, both xs) (rw e refl)
    ]

abbrev db_or : Db → Result (Bool × Db) → Db
db_or d (ok (r, db)) = db
db_or d (err e) = d

-- What an owner's edit that succeeds has found and written.
pub update_own_machine-ok :
    (now id : ℕ) (name key icon : Text) (db : Db) (r : Bool) (db' : Db)
    → update_own_machine now id name key icon db ≡ ok (r, db')
    → (old : Machine) × (find_machine id db ≡ some old)
      × (record db {
        machines =
            update (has_id id) (own_edit (needs_review key old) now name key icon) db.machines;
      }
          ≡ db')
unfolding update_own_machine update_machine_identity
update_own_machine-ok now id name key icon db r db' h = elim (Option-cases (find_machine id db)) [
  | inl e ↦ absurd (ground arith)
  | inr (old, e) ↦ (
    old,
    e,
    elim (Bool-cases (has_machine id db && any (key_of_other id key) db.machines)) [
      | inl c ↦ absurd (ground (arith, e, c))
      | inr c ↦
          sym (requeue_if-update (needs_review key old) now id name key icon db.machines db)
          ∙ ap (db_or db) (rw (e, update_own_machine, c, update_machine_identity) at h)
    ],
  )
]

active-not_pending : (s : Status) → status_eq s active ≡ true → status_eq s pending ≡ false
active-not_pending pending h = absurd (ground arith)
active-not_pending active h = refl
active-not_pending disabled h = refl

and_right : (a b : Bool) → a && b ≡ true → b ≡ true
and_right true b h = h
and_right false b h = absurd (ground arith)

same_key_kept :
    (key : Text) (n m : Machine)
    → needs_review key n ≡ false
    → status_eq n.status active ≡ true
    → key ≡ m.public_key
    → n.public_key ≡ m.public_key
same_key_kept key n m v s k = elim (Bool-cases (text_eq key n.public_key)) [
  | inl e ↦ sym (text_eq→eq key n.public_key e) ∙ k
  | inr e ↦ absurd (ground (arith, e, v, active-not_pending n.status s))
]

-- The row before an owner's edit of a row that is active after it.
pub update_own_machine-vouched :
    (now id : ℕ) (name key icon : Text) (db db' : Db) (r : Bool) (m : Machine)
    → IsWellFormed db
    → update_own_machine now id name key icon db ≡ ok (r, db')
    → In m db'.machines
    → status_eq m.status active ≡ true
    → (n : Machine) × In n db.machines
      × (status_eq n.status active ≡ true)
      × (n.id ≡ m.id)
      × (n.public_key ≡ m.public_key)
update_own_machine-vouched now id name key icon db db' r m w h j a =
    let (old, f, e) = update_own_machine-ok now id name key icon db r db' h in
    let (n, k, u) =
      In-update (has_id id) (own_edit (needs_review key old) now name key icon) db.machines m
        (subst (λ (d : Db). In m d.machines) (sym e) j) in
    let (s, t, v) = kept old n (first_unique id db.machines old n w.machines.ids f k) u in
    (n, k, s, t, v)
  where
    kept_edit :
        (n : Machine) (b : Bool)
        → needs_review key n ≡ b
        → own_edit b now name key icon n ≡ m
        → (status_eq n.status active ≡ true) × (n.id ≡ m.id) × (n.public_key ≡ m.public_key)
    kept_edit n true v u =
        absurd (ground (arith, ap (λ (x : Machine). status_eq x.status active) u))
    kept_edit n false v u =
        let s = ap (λ (x : Machine). status_eq x.status active) u ∙ a in
        (
          s,
          ap (λ (x : Machine). x.id) u,
          same_key_kept key n m v s (ap (λ (x : Machine). x.public_key) u),
        )

    kept :
        (old n : Machine)
        → (n.id ≡ id → n ≡ old)
        → (if has_id id n then own_edit (needs_review key old) now name key icon n else n) ≡ m
        → (status_eq n.status active ≡ true) × (n.id ≡ m.id) × (n.public_key ≡ m.public_key)
    kept old n q u = elim (Bool-cases (has_id id n)) [
      | inl e ↦
          kept_edit n (needs_review key old) (ap (needs_review key) (q (ground arith))) (rw e at u)
      | inr e ↦
          let o = rw e at u in
          (
            ground (arith, ap (λ (x : Machine). status_eq x.status active) o),
            ap (λ (x : Machine). x.id) o,
            ap (λ (x : Machine). x.public_key) o,
          )
    ]

update_own_machine-links :
    (now id : ℕ) (name key icon : Text) (db db' : Db) (r : Bool)
    → update_own_machine now id name key icon db ≡ ok (r, db')
    → db'.links ≡ db.links
update_own_machine-links now id name key icon db db' r h =
    let (old, f, e) = update_own_machine-ok now id name key icon db r db' h in
    ap (λ (d : Db). d.links) (sym e)

and_left : (a b : Bool) → a && b ≡ true → a ≡ true
and_left true b h = refl
and_left false b h = absurd (ground arith)

-- In a well-formed database, after an owner's edit that succeeds, every machine that
-- ActiveMachinesForEndpoint lists for an endpoint was listed for it before, under the same id
-- and with the same public key.
pub update_own_machine-reviewed :
    (now id : ℕ) (name key icon : Text) (db db' : Db) (r : Bool) (eid : ℕ) (m : Machine)
    → IsWellFormed db
    → update_own_machine now id name key icon db ≡ ok (r, db')
    → In m (active_machines_for_endpoint eid db')
    → (n : Machine) × In n (active_machines_for_endpoint eid db)
      × (n.id ≡ m.id)
      × (n.public_key ≡ m.public_key)
unfolding active_machines_for_endpoint
update_own_machine-reviewed now id name key icon db db' r eid m w h i =
    let (j, a) =
      (In-select (is_active_on eid db') db'.machines m).0 ((In-sort owner_then_name m _).0 i) in
    let (n, k, s, t, v) =
      update_own_machine-vouched now id name key icon db db' r m w h j (and_left _ _ a) in
    let l : has_link (n.id, eid) db.links ≡ true =
      subst (λ x. has_link (x, eid) db.links ≡ true) (sym t)
        (subst (λ ls. has_link (m.id, eid) ls ≡ true)
          (update_own_machine-links now id name key icon db db' r h) (and_right _ _ a)) in
    (
      n,
      (In-sort owner_then_name n _).1
          ((In-select (is_active_on eid db) db.machines n).1 (k, rw (s, l) refl)),
      t,
      v,
    )
