-- ===== src/Web/Maintenance/Disabling.antt =====
-- The loop of orphanOwner of internal/web/maintenance.go: the machines that it disables and counts.
use wgroster.Prelude.{
  ℕ, ◌+◌, ◌≤◌, ◌<◌, ◌≡◌, refl, sym, ◌∙◌, ap, inl, inr, Bool, true, false, not, ◌&&◌, List, [], ◌∷◌,
  Text, ◌==◌, if◌then◌else◌, length, select, update, any, arith, Bool-cases,
}
use wgroster.Config.{Config, is_disable}
use wgroster.Store.Models.{Machine, active, disabled, status_eq}
use wgroster.Store.Invariant.Rows.{update-update, update-never}
use wgroster.Store.Service.{set_machine_disabled}
use wgroster.Store.Audit.{add_audit}
use wgroster.Web.Portal.{Portal, system_audit}
use wgroster.Web.Maintenance.{Faults, disable_one, disable_loop}

abbrev pub to_disabled : Machine → Machine
to_disabled m = record m { status = disabled }

-- The loop disables this machine.
abbrev pub is_target : Faults → Machine → Bool
is_target faults m = status_eq m.status active && not (faults.disabling m.id)

abbrev pub is_hit : Faults → List Machine → Machine → Bool
is_hit faults ms m = any (λ n. is_target faults n && m.id == n.id) ms

-- One round disables the machine if it is active and the write succeeds, and counts it.
disable_one_lem :
    (cfg : Config) (faults : Faults) (now : ℕ) (uid : Text)
    → is_disable cfg.orphan_action ≡ true
    → (m : Machine) (s : ℕ × ℕ × Portal)
    → let t = disable_one cfg faults now uid m s in
      (t.2.db.machines
        ≡ update (λ n. is_target faults m && n.id == m.id) to_disabled s.2.db.machines)
      × (t.2.db.owner_checks ≡ s.2.db.owner_checks)
      × (t.2.alerts ≡ s.2.alerts)
unfolding disable_one system_audit add_audit set_machine_disabled
disable_one_lem cfg faults now uid d m s = elim (Bool-cases (status_eq m.status active)) [
  | inl a ↦ elim (Bool-cases (faults.disabling m.id)) [
    | inl f ↦ rw (a, d, f) (sym (update-never to_disabled s.2.db.machines), refl, refl)
    | inr f ↦ rw (a, d, f) (refl, refl, refl)
  ]
  | inr a ↦ rw a (sym (update-never to_disabled s.2.db.machines), refl, refl)
]

-- The loop disables the active machines whose rows it can write, and leaves the owners' rows and
-- the alerts.
pub disable_loop_lem :
    (cfg : Config) (faults : Faults) (now : ℕ) (uid : Text)
    → is_disable cfg.orphan_action ≡ true
    → (ms : List Machine) (s : ℕ × ℕ × Portal)
    → let t = disable_loop cfg faults now uid ms s in
      (t.2.db.machines ≡ update (is_hit faults ms) to_disabled s.2.db.machines)
      × (t.2.db.owner_checks ≡ s.2.db.owner_checks)
      × (t.2.alerts ≡ s.2.alerts)
unfolding disable_loop
disable_loop_lem cfg faults now uid d [] s =
    (sym (update-never to_disabled s.2.db.machines), refl, refl)
disable_loop_lem cfg faults now uid d (m ∷ ms) s =
    let (a, b, c) = disable_one_lem cfg faults now uid d m s in
    let (x, y, z) = disable_loop_lem cfg faults now uid d ms (disable_one cfg faults now uid m s) in
    (
      x
          ∙ ap (update (is_hit faults ms) to_disabled) a
          ∙ update-update (λ n. is_target faults m && n.id == m.id) (is_hit faults ms) to_disabled
              (λ n. refl) (λ n. refl) s.2.db.machines,
      y ∙ b,
      z ∙ c,
    )

abbrev one_if : Bool → ℕ
one_if b = if b then 1 else 0

disable_one-counts :
    (cfg : Config) (faults : Faults) (now : ℕ) (uid : Text)
    → is_disable cfg.orphan_action ≡ true
    → (m : Machine) (s : ℕ × ℕ × Portal)
    → let t = disable_one cfg faults now uid m s in
      (t.0 ≡ s.0 + one_if (status_eq m.status active)) × (t.1 ≡ s.1 + one_if (is_target faults m))
unfolding disable_one
disable_one-counts cfg faults now uid d m s = elim (Bool-cases (status_eq m.status active)) [
  | inl a ↦ elim (Bool-cases (faults.disabling m.id)) [
    | inl f ↦ rw (a, d, f) (refl, omega arith)
    | inr f ↦ rw (a, d, f) (refl, refl)
  ]
  | inr a ↦ rw a (omega arith, omega arith)
]

length-select_cons :
    (p : Machine → Bool) (m : Machine) (ms : List Machine)
    → length (select p (m ∷ ms)) ≡ one_if (p m) + length (select p ms)
length-select_cons p m ms = ground arith

-- How many of the machines are active, and how many of these could be disabled.
pub disable_loop-counts :
    (cfg : Config) (faults : Faults) (now : ℕ) (uid : Text)
    → is_disable cfg.orphan_action ≡ true
    → (ms : List Machine) (s : ℕ × ℕ × Portal)
    → let t = disable_loop cfg faults now uid ms s in
      (t.0 ≡ s.0 + length (select (λ m. status_eq m.status active) ms))
      × (t.1 ≡ s.1 + length (select (is_target faults) ms))
unfolding disable_loop
disable_loop-counts cfg faults now uid d [] s = (omega arith, omega arith)
disable_loop-counts cfg faults now uid d (m ∷ ms) s =
    let (a, b) = disable_one-counts cfg faults now uid d m s in
    let (x, y) = disable_loop-counts cfg faults now uid d ms (disable_one cfg faults now uid m s) in
    (
      omega (arith, a, x, length-select_cons (λ n. status_eq n.status active) m ms),
      omega (arith, b, y, length-select_cons (is_target faults) m ms),
    )

unfoldable pub any_fault : Faults → List Machine → Bool
any_fault faults ms = any (λ m. status_eq m.status active && faults.disabling m.id) ms

-- The counts agree when no write fails for an active machine, and differ when one does.
counts_le :
    (faults : Faults) (ms : List Machine)
    → length (select (is_target faults) ms) ≤ length (select (λ m. status_eq m.status active) ms)
counts_le faults [] = omega arith
counts_le faults (m ∷ ms) = ground (arith, counts_le faults ms)

pub counts-no_fault :
    (faults : Faults) (ms : List Machine)
    → any_fault faults ms ≡ false
    → length (select (is_target faults) ms) ≡ length (select (λ m. status_eq m.status active) ms)
unfolding any_fault
counts-no_fault faults [] h = refl
counts-no_fault faults (m ∷ ms) h = ground (arith, counts-no_fault faults ms)

pub counts-fault :
    (faults : Faults) (ms : List Machine)
    → any_fault faults ms ≡ true
    → length (select (is_target faults) ms) < length (select (λ m. status_eq m.status active) ms)
unfolding any_fault
counts-fault faults [] h = absurd (ground arith)
counts-fault faults (m ∷ ms) h = ground (arith, counts-fault faults ms, counts_le faults ms)
