-- ===== src/Web/Handlers/Devices/Cap.antt =====
-- internal/web/machine_handlers.go: the cap on the machines of one user that wait for approval.
use wgroster.Prelude.{
  ℕ, ◌+◌, ◌≤◌, ◌<◌, ◌≡◌, subst, inl, inr, Bool, false, not, ◌&&◌, List, [], ◌∷◌, ◌++◌, Text,
  text_eq, length, select, any, arith, Bool-cases,
}
use wgroster.Strings.{trim_space}
use wgroster.Config.{Config}
use wgroster.Store.Models.{Machine, pending, status_eq}
use wgroster.Store.Db.{Db, ok, Result-cases}
use wgroster.Store.Sessions.{Session}
use wgroster.Store.Machines.{NewMachine, create_machine, new_row, has_key, count_pending_by_owner}
use wgroster.Web.Forms.{valid_name, valid_public_key}
use wgroster.Web.Handlers.{MachineForm}
use wgroster.Web.Handlers.Devices.{own_machine, at_cap, handle_add_machine}

count_last :
    (q : Machine → Bool) (ms : List Machine) (m : Machine)
    → length (select q (ms ++ m ∷ [])) ≤ length (select q ms) + 1
count_last q [] m = elim (Bool-cases (q m)) [
  | inl e ↦ rw e (omega arith)
  | inr e ↦ rw e (omega arith)
]
count_last q (x ∷ xs) m = elim (Bool-cases (q x)) [
  | inl e ↦ rw e (omega (arith, count_last q xs m))
  | inr e ↦ rw e (count_last q xs m)
]

created-count :
    (now id : ℕ) (n : NewMachine) (uid : Text) (db db' : Db)
    → create_machine now n db ≡ ok (id, db')
    → count_pending_by_owner uid db' ≤ count_pending_by_owner uid db + 1
unfolding create_machine count_pending_by_owner
created-count now id n uid db db' h = elim (Bool-cases (any (has_key n.public_key) db.machines)) [
  | inl e ↦ absurd (ground (arith, e))
  | inr e ↦
      subst
        (λ (ms : List Machine).
          length (select (λ m. text_eq m.owner_uid uid && status_eq m.status pending) ms)
          ≤ length (select (λ m. text_eq m.owner_uid uid && status_eq m.status pending) db.machines)
            + 1)
        (ground (arith, e))
        (count_last (λ m. text_eq m.owner_uid uid && status_eq m.status pending) db.machines
          (new_row db.next_machine now n))
]

-- With a cap above zero, an owner who has at most as many pending machines as the cap has no
-- more than that after handleAddMachine.
pub handle_add_machine-cap :
    (cfg : Config) (now : ℕ) (s : Session) (form : MachineForm) (db : Db)
    → 0 < cfg.max_pending_per_user
    → count_pending_by_owner s.uid db ≤ cfg.max_pending_per_user
    → count_pending_by_owner s.uid (handle_add_machine cfg now s form db).1
      ≤ cfg.max_pending_per_user
unfolding handle_add_machine
handle_add_machine-cap cfg now s form db z h =
    elim (Bool-cases (not (valid_name (trim_space form.name)))) [
      | inl n ↦ rw (n, handle_add_machine) h
      | inr n ↦ elim (Bool-cases (not (valid_public_key (trim_space form.public_key)))) [
        | inl k ↦ rw (n, k, handle_add_machine) h
        | inr k ↦ elim (Bool-cases (at_cap cfg s.uid db)) [
          | inl c ↦ rw (n, k, c, handle_add_machine) h
          | inr c ↦ elim (Result-cases (create_machine now (own_machine s form) db)) [
            | inr (x, e) ↦ rw (n, k, c, e, handle_add_machine) h
            | inl ((id, db'), e) ↦
                rw (n, k, c, e, handle_add_machine)
                  (omega (arith, created-count now id (own_machine s form) s.uid db db' e, below c))
          ]
        ]
      ]
    ]
  where
    below : at_cap cfg s.uid db ≡ false → count_pending_by_owner s.uid db < cfg.max_pending_per_user
    below c = ground (arith, z, c)
