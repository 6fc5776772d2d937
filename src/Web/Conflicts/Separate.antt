-- ===== src/Web/Conflicts/Separate.antt =====
-- What a check of endpoints without a conflict says of the addresses that they route.
use wgroster.Prelude.{
  All-In, sym, In, ◌≢◌, ◌⊎◌, ℕ, ◌≡◌, refl, subst, inl, inr, false, Option, none, some, List, [],
  ◌∷◌, ◌++◌, ltb, length, first, All, Apart, arith, Option-cases,
}
use wgroster.Netip.{Addr, Prefix, Netip, IsPrefix}
use wgroster.Wg.AllowedIps.{allowed_ips_or, overlap}
use wgroster.Wg.Overlaps.{Covers, overlap-none}
use wgroster.Store.Models.{Endpoint}
use wgroster.Store.Db.{Db}
use wgroster.Store.Endpoints.{endpoint_has_id}
use wgroster.Web.Conflicts.{
  Parsed, parsed_of, overridden, parsed_endpoint, parsed_endpoints, conflict_with, first_conflict,
  conflict_among,
}
use wgroster.Web.Conflicts.Prefixes.{parsed_endpoints-ArePrefixes}

-- Two endpoints route a common address.
abbrev pub Contested : Parsed → Parsed → Type 0
Contested x y = (a : Addr) × Covers x.allowed a × Covers y.allowed a

conflict_with-none :
    (x : Parsed) (ys : List Parsed)
    → All IsPrefix x.allowed
    → All (λ (y : Parsed). All IsPrefix y.allowed) ys
    → conflict_with x ys ≡ none
    → All (λ y. ¬ Contested x y) ys
unfolding conflict_with
conflict_with-none x [] v w h = tt
conflict_with-none x (y ∷ ys) v w h = elim (Option-cases (overlap x.allowed y.allowed)) [
  | inl e ↦ (
    λ (a, c, d). overlap-none x.allowed y.allowed v w.0 e a c d,
    conflict_with-none x ys v w.1 (rw (e, conflict_with) at h),
  )
  | inr (ab, e) ↦ absurd (ground (arith, rw (e, conflict_with) at h))
]

first_conflict-none :
    (xs : List Parsed)
    → All (λ (y : Parsed). All IsPrefix y.allowed) xs
    → first_conflict xs ≡ none
    → Apart Contested xs
unfolding first_conflict
first_conflict-none [] w h = tt
first_conflict-none (x ∷ xs) w h = elim (Option-cases (conflict_with x xs)) [
  | inl e ↦
      (conflict_with-none x xs w.0 w.1 e, first_conflict-none xs w.1 (rw (e, first_conflict) at h))
  | inr (c, e) ↦ absurd (ground (arith, rw (e, first_conflict) at h))
]

In-after : (xs ys : List Parsed) (y : Parsed) → In y ys → In y (xs ++ ys)
In-after [] ys y i = i
In-after (x ∷ xs) ys y i = inr (In-after xs ys y i)

Apart-after : (xs ys : List Parsed) → Apart Contested (xs ++ ys) → Apart Contested ys
Apart-after [] ys h = h
Apart-after (x ∷ xs) ys h = Apart-after xs ys h.1

All-of_In : (P : ℕ → Type 0) (xs : List ℕ) → ((x : ℕ) → In x xs → P x) → All P xs
All-of_In P [] h = tt
All-of_In P (x ∷ xs) h = (h x (inl refl), All-of_In P xs (λ y i. h y (inr i)))

module _ (netip : Netip) where
  lone_parsed : (e : Endpoint) (o : Option (List Prefix)) → Apart Contested (parsed_of e o ++ [])
  unfolding parsed_of
  lone_parsed e none = tt
  lone_parsed e (some ps) = (tt, tt)

  lone :
      (override found : Option Endpoint)
      → Apart Contested (parsed_endpoint netip override found ++ [])
  unfolding parsed_endpoint
  lone override none = tt
  lone override (some e) = lone_parsed (overridden override e) _

  -- The endpoints that were parsed route no common address.
  conflict_among-Apart :
      (ids : List ℕ) (override : Option Endpoint) (db : Db)
      → conflict_among netip ids override db ≡ none
      → Apart Contested (parsed_endpoints netip ids override db)
  unfolding conflict_among parsed_endpoints parsed_endpoint
  conflict_among-Apart [] override db h = tt
  conflict_among-Apart (id ∷ []) override db h =
      lone override (first (endpoint_has_id id) db.endpoints)
  conflict_among-Apart (id ∷ jd ∷ ids) override db h =
      first_conflict-none _ (parsed_endpoints-ArePrefixes netip (id ∷ jd ∷ ids) override db)
        (let e : ltb (length (id ∷ jd ∷ ids)) 2 ≡ false = ground arith in rw e at h)

  -- The endpoint under an id as the check sees it: the edited version, where it has that id, else the
  -- stored one.
  abbrev pub IsVersion : Option Endpoint → Endpoint → Endpoint → Type 0
  IsVersion none e v = v ≡ e
  IsVersion (some o) e v = ((o.id ≡ e.id) × (v ≡ o)) ⊎ ((o.id ≢ e.id) × (v ≡ e))

  -- The endpoint under an id has a list that parses and covers the address.
  pub record Routes (override : Option Endpoint) (db : Db) (a : Addr) (id : ℕ) : Type 0 where
    pub stored : Endpoint
    pub found : first (endpoint_has_id id) db.endpoints ≡ some stored
    pub version : Endpoint
    pub is_version : IsVersion override stored version
    pub allowed : List Prefix
    pub parsed : allowed_ips_or netip version.allowed_ips ≡ some allowed
    pub covers : Covers allowed a

  overridden-IsVersion :
      (override : Option Endpoint) (e v : Endpoint)
      → IsVersion override e v
      → overridden override e ≡ v
  unfolding overridden
  overridden-IsVersion none e v h = sym h
  overridden-IsVersion (some o) e v (inl (i, h)) = ground (arith, i, h)
  overridden-IsVersion (some o) e v (inr (i, h)) = ground (arith, i, h)

  -- What is parsed for such an endpoint.
  routed :
      (override : Option Endpoint) (db : Db) (a : Addr) (id : ℕ) (r : Routes override db a id)
      → parsed_endpoint netip override (first (endpoint_has_id id) db.endpoints)
        ≡ record { name = r.version.name; allowed = r.allowed } ∷ []
  unfolding parsed_endpoint parsed_of
  routed override db a id r =
      rw (r.found, overridden-IsVersion override r.stored r.version r.is_version, r.parsed) refl

  -- It is among the parsed endpoints.
  listed :
      (override : Option Endpoint) (db : Db) (a : Addr) (id : ℕ) (ids : List ℕ)
      → In id ids
      → Routes override db a id
      → (y : Parsed) × In y (parsed_endpoints netip ids override db) × Covers y.allowed a
  unfolding parsed_endpoints
  listed override db a id [] i r = absurd i
  listed override db a id (x ∷ xs) (inl e) r =
      let own = subst (Routes override db a) (sym e) r in
      let y : Parsed = record { name = own.version.name; allowed = own.allowed } in
      rw (routed override db a x own) (y, inl refl, own.covers)
  listed override db a id (x ∷ xs) (inr i) r =
      let (y, j, c) = listed override db a id xs i r in (y, In-after _ _ y j, c)

  Apart-ids :
      (override : Option Endpoint) (db : Db) (ids : List ℕ)
      → Apart Contested (parsed_endpoints netip ids override db)
      → Apart (λ i j. (a : Addr) × Routes override db a i × Routes override db a j) ids
  unfolding parsed_endpoints
  Apart-ids override db [] h = tt
  Apart-ids override db (id ∷ ids) h = (
    All-of_In _ ids (λ j i (a, r, s).
        let (y, k, c) = listed override db a j ids i s in
        let separate =
          subst
            (λ (ys : List Parsed). Apart Contested (ys ++ parsed_endpoints netip ids override db))
            (routed override db a id r) h in
        All-In _ (parsed_endpoints netip ids override db) separate.0 k (a, r.covers, c)),
    Apart-ids override db ids (Apart-after _ _ h),
  )

  -- When conflictAmong finds no conflict for a list of endpoint ids, no address is covered by
  -- the lists of two of these endpoints that exist and whose lists parse, for whatever texts
  -- the lists are; where an edited version is given, it stands in for the endpoint with its id.
  pub conflict_among-none :
      (ids : List ℕ) (override : Option Endpoint) (db : Db)
      → conflict_among netip ids override db ≡ none
      → Apart (λ i j. (a : Addr) × Routes override db a i × Routes override db a j) ids
  conflict_among-none ids override db h =
      Apart-ids override db ids (conflict_among-Apart ids override db h)
