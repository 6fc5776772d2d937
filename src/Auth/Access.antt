-- ===== src/Auth/Access.antt =====
-- Which cookies Read accepts.
use wgroster.Prelude.{
  ℕ, ◌+◌, ◌≤◌, ◌≡◌, ◌≢◌, refl, sym, ap, subst, ◌∙◌, inl, inr, Bool, true, false, not, Option, none,
  some, List, [], ◌∷◌, ◌++◌, Text, text_eq, text_eq→eq, text_eq_refl, ◌==◌, if◌then◌else◌, first,
  any, All, arith, Bool-cases, Option-cases, All-select_test,
}
use wgroster.Store.Db.{ok}
use wgroster.Store.Sessions.{
  Session, has_sid, create_session, session, delete_session, delete_sessions_by_uid,
}
use wgroster.Auth.{
  Manager, put, new_manager, cut, cookie_value, new_session, issue, write_cookie, is_over, load,
  read, read_parts, destroy, revoke_user,
}

-- Both lifetimes of a session have not passed.
pub record IsLive (m : Manager) (now : ℕ) (s : Session) : Type 0 where
  pub in_expiry : now ≤ s.expiry
  pub in_cap : now ≤ s.issued_at + m.max_life

is_over-IsLive : (m : Manager) (now : ℕ) (s : Session) → is_over m now s ≡ false → IsLive m now s
is_over-IsLive m now s h = record { in_expiry = ground arith; in_cap = ground arith }

IsLive-is_over : (m : Manager) (now : ℕ) (s : Session) → IsLive m now s → is_over m now s ≡ false
IsLive-is_over m now s h = ground (arith, h.in_expiry, h.in_cap)

abbrev Rejoins : ℕ → Text → Option (Text × Text) → Type 0
Rejoins sep value none = Unit
Rejoins sep value (some (b, a)) = b ++ sep ∷ a ≡ value

-- The two parts of a cut text with the separator between them are the text.
cut-Rejoins : (value : Text) (sep : ℕ) → Rejoins sep value (cut value sep)
unfolding cut
cut-Rejoins [] sep = tt
cut-Rejoins (c ∷ cs) sep = elim (Bool-cases (c == sep)) [
  | inl e ↦ rw e (ground arith)
  | inr e ↦ rw e (keep (cut cs sep) (cut-Rejoins cs sep))
]
  where
    keep :
        (r : Option (Text × Text))
        → Rejoins sep cs r
        → Rejoins sep (c ∷ cs) (elim r [ none ↦ none | some (b, a) ↦ some (c ∷ b, a) ])
    keep none h = tt
    keep (some (b, a)) h = ap (λ t. c ∷ t) h

first_test :
    (sid : Text) (table : List Session) (s : Session)
    → first (has_sid sid) table ≡ some s
    → s.sid ≡ sid
first_test sid [] s h = cc
first_test sid (x ∷ xs) s h = ground (arith, first_test sid xs s, text_eq→eq x.sid sid)

module _ (sign : Text → Text → Text) where
  -- What Read accepts, and what a cookie that it accepts is.
  pub record IsAdmitted (m : Manager) (now : ℕ) (value : Text) (table : List Session) (s : Session)
      : Type 0 where
    pub signed : value ≡ cookie_value sign m s.sid
    pub stored : session s.sid table ≡ some s
    pub live : IsLive m now s

  -- When Read accepts a cookie, its value is the id of a session joined with the id's signature
  -- under the manager's key, the table has that session under this id, and neither its expiry
  -- nor its absolute lifetime has passed.
  pub read-IsAdmitted :
      (m : Manager) (now : ℕ) (value : Text) (table : List Session) (s : Session)
      → (read sign m now (some value) table).0 ≡ some s
      → IsAdmitted m now value table s
  unfolding read read_parts load session
  read-IsAdmitted m now value table s h = elim (Option-cases (cut value b'.')) [
    | inl e ↦ absurd (ground (arith, e))
    | inr ((sid, sig), e) ↦ elim (Bool-cases (text_eq sig (sign m.key sid))) [
      | inr f ↦ absurd (ground (arith, e, f))
      | inl f ↦ elim (Option-cases (first (has_sid sid) table)) [
        | inl g ↦ absurd (ground (arith, e, f, g))
        | inr (x, g) ↦ elim (Bool-cases (is_over m now x)) [
          | inl o ↦ absurd (ground (arith, e, f, g, o))
          | inr o ↦
              let same : x ≡ s = ground (arith, e, f, g, o) in
              let v : s.sid ≡ sid =
                ap (λ (y : Session). y.sid) (sym same) ∙ first_test sid table x g in
              record {
                signed =
                    sym (rw e at (cut-Rejoins value b'.'))
                    ∙ ap (λ k. sid ++ b'.' ∷ k) (text_eq→eq sig (sign m.key sid) f)
                    ∙ ap (cookie_value sign m) (sym v);
                stored = ap (λ k. first (has_sid k) table) v ∙ g ∙ ap some same;
                live = subst (IsLive m now) same (is_over-IsLive m now x o);
              }
        ]
      ]
    ]
  ]

  -- A cookie of the form that writeCookie gives it is cut where it was joined.
  cut-join :
      (sid sig : Text)
      → any (λ c. c == b'.') sid ≡ false
      → cut (sid ++ b'.' ∷ sig) b'.' ≡ some (sid, sig)
  unfolding cut
  cut-join [] sig h = refl
  cut-join (c ∷ cs) sig h = elim (Bool-cases (c == b'.')) [
    | inl e ↦ absurd (ground (arith, e))
    | inr e ↦ rw (e, cut-join cs sig (ground (arith, e))) refl
  ]

  pub IsAdmitted-read :
      (m : Manager) (now : ℕ) (value : Text) (table : List Session) (s : Session)
      → any (λ c. c == b'.') s.sid ≡ false
      → IsAdmitted m now value table s
      → read sign m now (some value) table ≡ (some s, table)
  unfolding read read_parts load
  IsAdmitted-read m now value table s h a =
      rw
        (
          a.signed,
          cut-join s.sid (sign m.key s.sid) h,
          text_eq_refl (sign m.key s.sid),
          a.stored,
          IsLive-is_over m now s a.live,
        )
        refl

  new_manager_ttl :
      (key : Text) (secure : Bool) (ttl max_life : ℕ)
      → (new_manager key secure ttl max_life).ttl ≤ (new_manager key secure ttl max_life).max_life
  unfolding new_manager
  new_manager_ttl key secure ttl max_life = ground arith

  -- For a manager made by NewManager and a session id that is free and has no dot, Issue
  -- succeeds, and until the expiry that it sets Read accepts the cookie that it wrote, returns
  -- the new session, and leaves the table as it is.
  pub issue-read :
      (key : Text) (secure : Bool) (ttl max_life now now' : ℕ) (sid csrf uid name : Text)
      (admin local : Bool) (table : List Session)
      → any (has_sid sid) table ≡ false
      → any (λ c. c == b'.') sid ≡ false
      → now ≤ now'
      → let m = new_manager key secure ttl max_life in
        let s = new_session m now sid csrf uid name admin local in
        now' ≤ s.expiry
        → (issue sign m now sid csrf uid name admin local table
            ≡ ok (s, put m.cookie (cookie_value sign m sid) s.expiry, table ++ s ∷ []))
          × (read sign m now' (some (cookie_value sign m sid)) (table ++ s ∷ [])
              ≡ (some s, table ++ s ∷ []))
  unfolding issue create_session write_cookie session
  issue-read key secure ttl max_life now now' sid csrf uid name admin local table free plain le
        live =
      let m = new_manager key secure ttl max_life in
      let s : Session = new_session m now sid csrf uid name admin local in
      (
        rw free refl,
        IsAdmitted-read m now' (cookie_value sign m sid) (table ++ s ∷ []) s plain (record {
          signed = refl;
          stored = first-append table s free;
          live = record {
            in_expiry = live;
            in_cap = omega (arith, live, new_manager_ttl key secure ttl max_life);
          };
        }),
      )
    where
      first-append :
          (xs : List Session) (x : Session)
          → any (has_sid x.sid) xs ≡ false
          → first (has_sid x.sid) (xs ++ x ∷ []) ≡ some x
      first-append [] x h = rw (text_eq_refl x.sid) refl
      first-append (y ∷ ys) x h = ground (arith, first-append ys x)

  stored-All :
      (P : Session → Type 0) (sid : Text) (table : List Session) (s : Session)
      → All P table
      → first (has_sid sid) table ≡ some s
      → P s
  stored-All P sid [] s a h = cc
  stored-All P sid (x ∷ xs) s a h = elim (Bool-cases (has_sid sid x)) [
    | inl e ↦ subst P (ground arith) a.0
    | inr e ↦ stored-All P sid xs s a.1 (ground arith)
  ]

  -- After RevokeUser, Read accepts no cookie for a session of that user.
  pub revoke_user-read :
      (m : Manager) (now : ℕ) (value uid : Text) (table : List Session) (s : Session)
      → (read sign m now (some value) (revoke_user uid table)).0 ≡ some s
      → s.uid ≢ uid
  unfolding revoke_user delete_sessions_by_uid session
  revoke_user-read m now value uid table s h e =
      let a = read-IsAdmitted m now value (revoke_user uid table) s h in
      let t =
        stored-All (λ x. not (text_eq x.uid uid) ≡ true) s.sid _ s
          (All-select_test (λ (x : Session). not (text_eq x.uid uid)) table) a.stored in
      ground (arith, t, e)

  -- After Destroy with an id that is not empty, Read accepts no cookie for the session with
  -- that id.
  pub destroy-read :
      (m : Manager) (now : ℕ) (value sid : Text) (table : List Session) (s : Session)
      → sid ≢ []
      → (read sign m now (some value) (destroy m sid table).1).0 ≡ some s
      → s.sid ≢ sid
  unfolding destroy delete_session session
  destroy-read m now value sid table s ne h e =
      let kept : (if not (text_eq sid []) then delete_session sid table else table)
          ≡ delete_session sid table =
        ground arith in
      let a =
        read-IsAdmitted m now value (delete_session sid table) s
          (subst (λ t. (read sign m now (some value) t).0 ≡ some s) kept h) in
      let t =
        stored-All (λ x. not (has_sid sid x) ≡ true) s.sid _ s
          (All-select_test (λ x. not (has_sid sid x)) table) a.stored in
      ground (arith, t, e)
