-- ===== src/Web/Maintenance/Decisions.antt =====
-- What orphanDecision and dormantDecision of internal/web/maintenance.go act on, and when they refuse.
use wgroster.Prelude.{
  ◌<◌, ◌≢◌, ◌⊎◌, none, some, Option-cases, ℕ, ◌*◌, ◌≤◌, ◌≡◌, refl, inl, inr, Bool, true, false,
  List, [], ◌∷◌, Text, ltb, length, select, In, arith, Bool-cases, ◌↔◌, In-select, select-inhabited,
  select-counted,
}
use wgroster.Store.Models.{Machine, Status, pending, active, disabled, status_eq, seen_or_since}
use wgroster.Store.Db.{OwnerCheck}
use wgroster.Store.Owners.{owner_check_in}
use wgroster.Web.Maintenance.Counted.{Counted, select-Counted, Counted-select}
use wgroster.Web.Maintenance.{
  Decision, act, refuse_no_evidence, refuse_majority, decide_on, is_out_of_grace,
  is_confirmed_present, orphan_decision,
}
use wgroster.Web.Dormancy.{is_active, looks_dormant, dormant_decision}

-- The list a decision acts on; a refusal acts on nothing.
abbrev pub acted_on : {A : Type 0} → Decision A → List A
acted_on (act xs) = xs
acted_on refuse_no_evidence = []
acted_on refuse_majority = []

-- What it takes to act on a list.
abbrev pub IsJustified : {A : Type 0} → List A → Bool → ℕ → Type 0
IsJustified xs evidence total = (evidence ≡ true) × (length xs * 2 ≤ total)

pub decide_on-justified :
    {A : Type 0} (xs : List A) (evidence : Bool) (total : ℕ)
    → IsJustified xs evidence total
    → acted_on (decide_on xs evidence total) ≡ xs
unfolding decide_on
decide_on-justified [] evidence total h = refl
decide_on-justified (x ∷ xs) evidence total h = ground arith

pub decide_on-refused :
    {A : Type 0} (xs : List A) (evidence : Bool) (total : ℕ)
    → ¬ IsJustified xs evidence total
    → acted_on (decide_on xs evidence total) ≡ []
unfolding decide_on
decide_on-refused [] evidence total h = refl
decide_on-refused (x ∷ xs) evidence total h = ground arith

pub decide_on-acted :
    {A : Type 0} (xs : List A) (evidence : Bool) (total : ℕ) (a : A)
    → In a (acted_on (decide_on xs evidence total))
    → In a xs × IsJustified xs evidence total
unfolding decide_on
decide_on-acted [] evidence total a i = absurd i
decide_on-acted (x ∷ xs) true total a i = elim (Bool-cases (ltb total (length (x ∷ xs) * 2))) [
  | inl e ↦ absurd (ground arith)
  | inr e ↦ (ground arith, (refl, ground arith))
]
decide_on-acted (x ∷ xs) false total a i = absurd (ground arith)

-- An owner whom the directory did not know for the grace period.
abbrev pub IsOutOfGrace : List OwnerCheck → ℕ → Text → Type 0
IsOutOfGrace checks grace uid =
    (c : OwnerCheck) × (owner_check_in checks uid ≡ some c) × (grace ≤ c.misses)

-- An owner whose last recorded answer, however old, was present.
abbrev pub IsConfirmed : List OwnerCheck → ℕ → Text → Type 0
IsConfirmed checks grace uid =
    (c : OwnerCheck) × (owner_check_in checks uid ≡ some c)
    × (c.misses ≡ 0)
    × (0 < c.checked_at)
    × (0 < grace)

IsOutOfGrace-iff :
    (checks : List OwnerCheck) (grace : ℕ) (uid : Text)
    → (is_out_of_grace checks grace uid ≡ true) ↔ IsOutOfGrace checks grace uid
IsOutOfGrace-iff checks grace uid = elim (Option-cases (owner_check_in checks uid)) [
  | inl e ↦ rw e (λ h. absurd (ground arith), λ (c, f, g). absurd (ground (arith, f)))
  | inr (c, e) ↦ rw e (λ h. (c, refl, ground (arith, h)), λ (d, f, g). ground (arith, f, g))
]

IsConfirmed-iff :
    (checks : List OwnerCheck) (grace : ℕ) (uid : Text)
    → (is_confirmed_present checks grace uid ≡ true) ↔ IsConfirmed checks grace uid
IsConfirmed-iff checks grace uid = elim (Option-cases (owner_check_in checks uid)) [
  | inl e ↦ rw e (λ h. absurd (ground arith), λ (c, f, g, k, l). absurd (ground (arith, f)))
  | inr (c, e) ↦ rw e (
    λ h. (c, refl, ground (arith, h), ground (arith, h), ground (arith, h)),
    λ (d, f, g, k, l). ground (arith, f, g, k, l),
  )
]

-- The conditions under which the offboarding check acts on an owner.
abbrev pub MayOrphan : List Text → List OwnerCheck → ℕ → Text → Type 0
MayOrphan owners checks grace uid =
    In uid owners
    × IsOutOfGrace checks grace uid
    × ((v : Text) × In v owners × IsConfirmed checks grace v)
    × ((n : ℕ) × Counted (IsOutOfGrace checks grace) owners n × (n * 2 ≤ length owners))

-- orphanDecision acts on an owner exactly when the owner is among the machine owners and has
-- at least as many misses as the grace period has days, some machine owner has a recorded
-- check without a miss, however old, while the grace period is not 0, and at most half of the
-- machine owners have that many misses.
pub orphan_decision_iff :
    (owners : List Text) (checks : List OwnerCheck) (grace : ℕ) (uid : Text)
    → In uid (acted_on (orphan_decision owners checks grace)) ↔ MayOrphan owners checks grace uid
unfolding orphan_decision
orphan_decision_iff owners checks grace uid = (safe, complete)
  where
    safe :
        In uid (acted_on (orphan_decision owners checks grace)) → MayOrphan owners checks grace uid
    safe i =
        let (j, (e, n)) = decide_on-acted _ _ (length owners) uid i in
        let (k, o) = (In-select (is_out_of_grace checks grace) owners uid).0 j in
        let (v, l, c) = select-inhabited (is_confirmed_present checks grace) owners e in
        (
          k,
          (IsOutOfGrace-iff checks grace uid).0 o,
          (v, l, (IsConfirmed-iff checks grace v).0 c),
          (
            length (select (is_out_of_grace checks grace) owners),
            select-Counted (IsOutOfGrace checks grace) _ (IsOutOfGrace-iff checks grace) owners,
            n,
          ),
        )

    complete :
        MayOrphan owners checks grace uid → In uid (acted_on (orphan_decision owners checks grace))
    complete (k, o, (v, i, c), (n, t, l)) =
        let same =
          Counted-select (IsOutOfGrace checks grace) (is_out_of_grace checks grace)
            (IsOutOfGrace-iff checks grace) owners n t in
        rw
          (decide_on-justified (select (is_out_of_grace checks grace) owners) _ (length owners) (
            select-counted (is_confirmed_present checks grace) owners v
                (i, (IsConfirmed-iff checks grace v).1 c),
            rw same l,
          ))
          ((In-select (is_out_of_grace checks grace) owners uid).1
            (k, (IsOutOfGrace-iff checks grace uid).1 o))

-- Whatever the recorded checks and the grace period are, orphanDecision never acts on the
-- only owner of a portal.
pub orphan_decision-single :
    (uid : Text) (checks : List OwnerCheck) (grace : ℕ)
    → acted_on (orphan_decision (uid ∷ []) checks grace) ≡ []
unfolding orphan_decision
orphan_decision-single uid checks grace = elim (Bool-cases (is_out_of_grace checks grace uid)) [
  | inl e ↦ rw e (decide_on-refused (uid ∷ []) _ 1 (λ j. omega (arith, j.1)))
  | inr e ↦ rw (e, decide_on) refl
]

-- The machine was seen last before the cutoff; one that was never seen counts from its approval, and
-- without one from its creation.
abbrev pub IsUnseen : ℕ → Machine → Type 0
IsUnseen cutoff m =
    ((m.last_seen ≢ 0) × (m.last_seen < cutoff))
    ⊎ ((m.last_seen ≡ 0)
        × (((t : ℕ) × (m.approved_at ≡ some t) × (t < cutoff))
            ⊎ ((m.approved_at ≡ none) × (m.created_at < cutoff))))

abbrev pub IsActive : Machine → Type 0
IsActive m = m.status ≡ active

-- An active machine without a flag that was not seen since the cutoff.
abbrev pub LooksDormant : ℕ → Machine → Type 0
LooksDormant cutoff m = IsActive m × (m.dormant_since ≡ 0) × IsUnseen cutoff m

is_status : (s : Status) → (status_eq s active ≡ true) ↔ (s ≡ active)
is_status pending = (λ h. absurd (ground arith), λ e. absurd (ground (arith, e)))
is_status active = (λ h. refl, λ e. refl)
is_status disabled = (λ h. absurd (ground arith), λ e. absurd (ground (arith, e)))

IsActive-iff : (m : Machine) → (is_active m ≡ true) ↔ IsActive m
IsActive-iff m = is_status m.status

IsUnseen-iff :
    (cutoff : ℕ) (m : Machine) → (ltb (seen_or_since m) cutoff ≡ true) ↔ IsUnseen cutoff m
unfolding seen_or_since
IsUnseen-iff cutoff m = elim (Option-cases m.approved_at) [
  | inl e ↦ ground (arith, e)
  | inr (t, e) ↦ ground (arith, e)
]

LooksDormant-iff :
    (cutoff : ℕ) (m : Machine) → (looks_dormant cutoff m ≡ true) ↔ LooksDormant cutoff m
LooksDormant-iff cutoff m = (
  λ h. (
    (IsActive-iff m).0 (ground (arith, h)),
    ground (arith, h),
    (IsUnseen-iff cutoff m).0 (ground (arith, h)),
  ),
  λ (a, d, u). ground (arith, (IsActive-iff m).1 a, d, (IsUnseen-iff cutoff m).1 u),
)

-- The conditions under which the dormancy check acts on a machine.
abbrev pub MayDormant : List Machine → ℕ → Bool → Machine → Type 0
MayDormant machines cutoff fresh m =
    In m machines
    × LooksDormant cutoff m
    × (fresh ≡ true)
    × ((n : ℕ) × (k : ℕ) × Counted (LooksDormant cutoff) machines n
        × Counted IsActive machines k
        × (n * 2 ≤ k))

-- dormantDecision acts on a machine exactly when the machine is listed, active, not yet
-- flagged and unseen since the cutoff (a machine that was never seen counts from its
-- approval, or without one from its creation), some report is fresh, and at most half of the
-- active machines are so.
pub dormant_decision_iff :
    (machines : List Machine) (cutoff : ℕ) (fresh : Bool) (m : Machine)
    → In m (acted_on (dormant_decision machines cutoff fresh)) ↔ MayDormant machines cutoff fresh m
unfolding dormant_decision
dormant_decision_iff machines cutoff fresh m = (safe, complete)
  where
    safe :
        In m (acted_on (dormant_decision machines cutoff fresh))
        → MayDormant machines cutoff fresh m
    safe i =
        let (j, (e, n)) = decide_on-acted (select (looks_dormant cutoff) machines) fresh _ m i in
        let (k, o) = (In-select (looks_dormant cutoff) machines m).0 j in
        (
          k,
          (LooksDormant-iff cutoff m).0 o,
          e,
          (
            length (select (looks_dormant cutoff) machines),
            length (select is_active machines),
            select-Counted (LooksDormant cutoff) _ (LooksDormant-iff cutoff) machines,
            select-Counted IsActive _ IsActive-iff machines,
            n,
          ),
        )

    complete :
        MayDormant machines cutoff fresh m
        → In m (acted_on (dormant_decision machines cutoff fresh))
    complete (k, o, e, (n, t, c, d, l)) =
        let dormant =
          Counted-select (LooksDormant cutoff) (looks_dormant cutoff) (LooksDormant-iff cutoff)
            machines n c in
        let actives = Counted-select IsActive is_active IsActive-iff machines t d in
        rw
          (decide_on-justified (select (looks_dormant cutoff) machines) fresh
            (length (select is_active machines)) (e, rw (dormant, actives) l))
          ((In-select (looks_dormant cutoff) machines m).1 (k, (LooksDormant-iff cutoff m).1 o))
