-- ===== src/Auth/Renewal.antt =====
-- The lifetimes of sessions: the cap that Refresh keeps, and the purge of expired sessions.
use wgroster.Prelude.{
  ℕ, ◌+◌, ◌≤◌, ◌≡◌, refl, sym, ap, subst, ◌∙◌, inl, inr, Bool, true, not, Option, none, some, List,
  [], ◌∷◌, Text, text_eq, text_eq→eq, ltb, if◌then◌else◌, first, select, All, All-imp, All-update,
  All-and, Apart, arith, Bool-cases, Option-cases,
}
use wgroster.Store.Sessions.{Session, has_sid, session, touch_session, delete_expired_sessions}
use wgroster.Auth.{Manager, cut, new_expiry, load, read_parts, read, refresh, sweep_expired}

-- No session of the table outlives the cap.
abbrev pub IsCapped : Manager → List Session → Type 0
IsCapped m table = All (λ (s : Session). s.expiry ≤ s.issued_at + m.max_life) table

abbrev pub SameSid : Session → Session → Type 0
SameSid s t = s.sid ≡ t.sid

no-sid :
    (q : Session → Bool) (x : Session) (xs : List Session)
    → All (λ y. ¬ SameSid x y) xs
    → first (has_sid x.sid) (select q xs) ≡ none
no-sid q x [] h = refl
no-sid q x (y ∷ ys) h = ground (arith, no-sid q x ys h.1, h.0, text_eq→eq y.sid x.sid)

keep_if : (Session → Bool) → Option Session → Option Session
keep_if q none = none
keep_if q (some s) = if q s then some s else none

-- With unique sids, a lookup after a delete finds the row of before, if it was kept.
first-select :
    (q : Session → Bool) (sid : Text) (table : List Session)
    → Apart SameSid table
    → first (has_sid sid) (select q table) ≡ keep_if q (first (has_sid sid) table)
unfolding keep_if
first-select q sid [] a = refl
first-select q sid (x ∷ xs) a = elim (Bool-cases (has_sid sid x)) [
  | inl e ↦ elim (Bool-cases (q x)) [
    | inl f ↦ rw (e, f) (rw e refl)
    | inr f ↦
        rw (e, f)
          (subst (λ k. first (has_sid k) (select q xs) ≡ none) (text_eq→eq x.sid sid e)
            (no-sid q x xs a.0))
  ]
  | inr e ↦ elim (Bool-cases (q x)) [
    | inl f ↦ rw (e, f) (rw e (first-select q sid xs a.1))
    | inr f ↦ rw (e, f) (first-select q sid xs a.1)
  ]
]

-- The row that a lookup by a sid finds is the only one with that sid.
only_row :
    (sid : Text) (table : List Session) (s : Session)
    → Apart SameSid table
    → first (has_sid sid) table ≡ some s
    → All (λ x. has_sid sid x ≡ true → x ≡ s) table
only_row sid [] s a f = tt
only_row sid (x ∷ xs) s a f = elim (Bool-cases (has_sid sid x)) [
  | inl e ↦ (
    λ _. ground arith,
    All-imp (λ y. ¬ SameSid x y) (λ y. has_sid sid y ≡ true → y ≡ s)
        (λ y n h. absurd (n (text_eq→eq x.sid sid e ∙ sym (text_eq→eq y.sid sid h)))) xs a.0,
  )
  | inr e ↦ (λ h. absurd (ground arith), only_row sid xs s a.1 (ground arith))
]

module _ (sign : Text → Text → Text) where
  -- The answer of Read after the signature is the same for a session that the purge keeps, and
  -- a refusal for one that it removes.
  load-sweep :
      (m : Manager) (now now' : ℕ) (sid : Text) (table table' : List Session) (r : Option Session)
      → now ≤ now'
      → (load m now' sid table' (keep_if (λ s. not (ltb s.expiry now)) r)).0
        ≡ (load m now' sid table r).0
  unfolding load keep_if
  load-sweep m now now' sid table table' none le = refl
  load-sweep m now now' sid table table' (some s) le = ground arith

  -- In a table with unique ids, purging the sessions that are expired at some time changes the
  -- answer of Read for no cookie, then or later.
  pub sweep_expired-read :
      (m : Manager) (now now' : ℕ) (value : Text) (table : List Session)
      → Apart SameSid table
      → now ≤ now'
      → (read sign m now' (some value) (sweep_expired now table).1).0
        ≡ (read sign m now' (some value) table).0
  unfolding read read_parts sweep_expired delete_expired_sessions session
  sweep_expired-read m now now' value table a le = elim (Option-cases (cut value b'.')) [
    | inl e ↦ rw e refl
    | inr ((sid, sig), e) ↦ elim (Bool-cases (text_eq sig (sign m.key sid))) [
      | inr f ↦ rw (e, f) refl
      | inl f ↦
          rw (e, f, first-select (λ s. not (ltb s.expiry now)) sid table a)
            (load-sweep m now now' sid table _ (first (has_sid sid) table) le)
    ]
  ]

  -- In a table with unique ids where no session's expiry is past its absolute lifetime,
  -- refreshing a stored session keeps this so: no refresh extends a session beyond the cap.
  pub refresh-IsCapped :
      (m : Manager) (now : ℕ) (s : Session) (table : List Session)
      → Apart SameSid table
      → session s.sid table ≡ some s
      → IsCapped m table
      → IsCapped m (refresh sign m now s table).2
  unfolding refresh touch_session session
  refresh-IsCapped m now s table a f c =
      All-update (λ x. (has_sid s.sid x ≡ true → x ≡ s) × (x.expiry ≤ x.issued_at + m.max_life))
        (λ x. x.expiry ≤ x.issued_at + m.max_life) (has_sid s.sid)
        (λ x. record x { expiry = new_expiry m now s })
        (λ x e h.
          subst (λ i. new_expiry m now s ≤ i + m.max_life)
            (ap (λ (y : Session). y.issued_at) (sym (h.0 e))) (capped now s))
        (λ x e h. h.1) table (All-and _ _ table (only_row s.sid table s a f) c)
    where
      capped : (t : ℕ) (x : Session) → new_expiry m t x ≤ x.issued_at + m.max_life
      capped t x = ground arith
