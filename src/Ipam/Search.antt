-- ===== src/Ipam/Search.antt =====
-- internal/ipam/ipam.go: the result of the search of NextFree.
use native.Mathlib.Decide.{ℕ_discrete}
use wgroster.Prelude.{
  ℕ, zero, suc, ◌+◌, ◌^◌, ◌≤◌, ◌<◌, ◌≡◌, ◌≢◌, refl, sym, ap, ◌∙◌, inl, inr, true, false, Option,
  none, some, List, Text, arith, ltb, ltb→lt, if◌then◌else◌, Bool-cases,
}
use wgroster.Netip.{
  Family, v4, v6, block_of, Addr, Prefix, Netip, IsAddr, bit_len, block, contains, next,
}
use wgroster.Netip.Prefixes.{IsMasked, contains_iff, block_pos, addr_eq→eq}
use wgroster.Ipam.{
  Pool, Found, free, exhausted, out_of_fuel, broadcast, equals_option, is_taken, search_from,
  search, parse_all,
}
use wgroster.Ipam.Broadcast.{broadcast-last, last_address}

-- An address that a client may be given: in the pool, neither its network nor its broadcast
-- address, and not taken.
pub record IsUsable (p : Prefix) (bc : Option Addr) (taken : List Addr) (a : Addr) : Type 0 where
  pub valid : IsAddr a
  pub inside : contains p a ≡ true
  pub not_network : a ≢ p.addr
  pub not_broadcast : equals_option a bc ≡ false
  pub not_taken : is_taken taken a ≡ false

equals_option→eq : (a : Addr) (o : Option Addr) → equals_option a o ≡ true → o ≡ some a
equals_option→eq a none h = cc
equals_option→eq a (some b) h = ap some (sym (addr_eq→eq a b h))

module _ (p : Prefix) (bc : Option Addr) (taken : List Addr) (m : IsMasked p)
    (bc_last : (b : Addr)
      → IsAddr b
      → contains p b ≡ true
      → (a : Addr) → bc ≡ some a
      → b.value ≤ a.value) where
  -- What a search among the addresses from lo on may end with.
  abbrev Outcome : ℕ → Found → Type 0
  Outcome lo (free a) =
      IsUsable p bc taken a
      × ((b : Addr) → IsUsable p bc taken b → lo ≤ b.value → a.value ≤ b.value)
  Outcome lo exhausted = (b : Addr) → IsUsable p bc taken b → ¬ (lo ≤ b.value)
  Outcome lo out_of_fuel = ⊥

  abbrev address_at : ℕ → Option Addr
  address_at v =
      if ltb v (2 ^ bit_len p.addr.family)
      then some (record { family = p.addr.family; value = v })
      else none

  abbrev address : ℕ → Addr
  address v = record { family = p.addr.family; value = v }

  -- No usable address is left from an address on that the pool does not contain.
  past_end :
      (lo : ℕ)
      → p.addr.value < lo
      → contains p (address lo) ≡ false
      → (b : Addr) → IsUsable p bc taken b
      → ¬ (lo ≤ b.value)
  past_end lo above out b u h =
      let (same, _, below) = (contains_iff p b m).0 u.inside in
      cc ((contains_iff p (address lo) m).1 (refl, omega arith, omega arith))

  usable_value : (lo : ℕ) (b : Addr) → IsUsable p bc taken b → b.value ≡ lo → b ≡ address lo
  usable_value lo b u e = ground (arith, (contains_iff p b m).0 u.inside)

  no_usable_at_broadcast :
      (lo : ℕ)
      → IsAddr (address lo)
      → equals_option (address lo) bc ≡ true
      → (b : Addr) → IsUsable p bc taken b
      → ¬ (lo ≤ b.value)
  no_usable_at_broadcast lo ok e b u h =
      let at_most = bc_last b u.valid u.inside (address lo) (equals_option→eq (address lo) bc e) in
      cc (e, u.not_broadcast, usable_value lo b u (omega arith))

  -- A usable address from lo on is past lo, if lo is taken.
  past_taken :
      (lo : ℕ)
      → is_taken taken (address lo) ≡ true
      → (b : Addr) → IsUsable p bc taken b
      → lo ≤ b.value
      → lo + 1 ≤ b.value
  past_taken lo busy b u h = elim (ℕ_discrete b.value lo) [
    | yes e ↦ absurd (cc (busy, u.not_taken, usable_value lo b u e))
    | no ne ↦ omega arith
  ]

  weaken :
      (lo : ℕ)
      → is_taken taken (address lo) ≡ true
      → (r : Found) → Outcome (lo + 1) r
      → Outcome lo r
  weaken lo busy (free a) (u, low) = (u, λ b ub h. low b ub (past_taken lo busy b ub h))
  weaken lo busy exhausted none_left = λ b ub h. none_left b ub (past_taken lo busy b ub h)
  weaken lo busy out_of_fuel h = h

  step_at :
      (f lo : ℕ)
      → p.addr.value < lo
      → (contains p (address lo) ≡ true
          → Outcome (lo + 1) (search_from f p bc taken (address_at (lo + 1))))
      → IsAddr (address lo)
      → Outcome lo (search_from (suc f) p bc taken (some (address lo)))
  unfolding search_from next
  step_at f lo above rest ok = elim (Bool-cases (contains p (address lo))) [
    | inr out ↦ rw (out, search_from) (past_end lo above out)
    | inl inside ↦ elim (Bool-cases (equals_option (address lo) bc)) [
      | inl last ↦ rw (inside, last, search_from) (no_usable_at_broadcast lo ok last)
      | inr more ↦ elim (Bool-cases (is_taken taken (address lo))) [
        | inr free_here ↦
            rw (inside, more, free_here, search_from)
              (
                record {
                  valid = ok;
                  inside = inside;
                  not_network = λ q. omega (arith, ap (λ (a : Addr). a.value) q);
                  not_broadcast = more;
                  not_taken = free_here;
                },
                λ b u h. h,
              )
        | inl busy ↦ rw (inside, more, busy, search_from) (weaken lo busy _ (rest inside))
      ]
    ]
  ]

  search_from-Outcome :
      (f lo : ℕ)
      → p.addr.value < lo
      → lo ≤ p.addr.value + block p
      → p.addr.value + block p < lo + f
      → Outcome lo (search_from f p bc taken (address_at lo))
  search_from-Outcome zero lo above below fuel = absurd (omega arith)
  search_from-Outcome (suc f) lo above below fuel =
      elim (Bool-cases (ltb lo (2 ^ bit_len p.addr.family))) [
        | inr e ↦ rw e (
            unfold search_from in
            λ b u h.
              let same = ((contains_iff p b m).0 u.inside).0 in
              let v : b.value < 2 ^ bit_len p.addr.family = rw same u.valid in ground arith)
        | inl e ↦ rw e (
            step_at f lo above
              (λ inside.
                search_from-Outcome f (lo + 1) (omega arith)
                  (ground (arith, (contains_iff p (address lo) m).0 inside)) (omega arith))
              (ltb→lt _ _ e))
      ]

last_address_value :
    (f : Family) (v bits : ℕ) (a : Addr)
    → last_address f v bits ≡ some a
    → a.value + 1 ≡ v + block_of f bits
last_address_value v4 v bits a h = ground (arith, block_pos v4 bits)
last_address_value v6 v bits a h = cc

broadcast_bounds :
    (pool : Pool) (b : Addr)
    → IsMasked pool.prefix
    → contains pool.prefix b ≡ true
    → (a : Addr) → broadcast pool ≡ some a
    → b.value ≤ a.value
broadcast_bounds pool b m inside a e = omega (
  arith,
  ((contains_iff pool.prefix b m).0 inside).2,
  last_address_value pool.prefix.addr.family pool.prefix.addr.value pool.prefix.bits a
      (sym (broadcast-last pool m) ∙ e),
)

-- The addresses that a client of the pool may be given while those of the list are in use.
abbrev pub Usable : Pool → List Addr → Addr → Type 0
Usable pool taken a = IsUsable pool.prefix (broadcast pool) taken a

-- The lowest usable address, or the fact that none is left.
abbrev pub Lowest : Pool → List Addr → Found → Type 0
Lowest pool taken (free a) =
    Usable pool taken a × ((b : Addr) → Usable pool taken b → a.value ≤ b.value)
Lowest pool taken exhausted = (b : Addr) → ¬ Usable pool taken b
Lowest pool taken out_of_fuel = ⊥

above_network :
    (pool : Pool) (taken : List Addr) (b : Addr)
    → IsMasked pool.prefix
    → Usable pool taken b
    → pool.prefix.addr.value + 1 ≤ b.value
above_network pool taken b m u = elim (ℕ_discrete b.value pool.prefix.addr.value) [
  | yes e ↦ absurd (u.not_network (ground (arith, (contains_iff pool.prefix b m).0 u.inside)))
  | no ne ↦ omega (arith, ((contains_iff pool.prefix b m).0 u.inside).1)
]

Outcome-Lowest :
    (pool : Pool) (taken : List Addr) (m : IsMasked pool.prefix) (r : Found)
    → Outcome pool.prefix
        (broadcast pool)
        taken
        m
        (λ b _ i. broadcast_bounds pool b m i)
        (pool.prefix.addr.value + 1)
        r
    → Lowest pool taken r
Outcome-Lowest pool taken m (free a) (u, low) =
    (u, λ b ub. low b ub (above_network pool taken b m ub))
Outcome-Lowest pool taken m exhausted h = λ b ub. h b ub (above_network pool taken b m ub)
Outcome-Lowest pool taken m out_of_fuel h = h

module _ (netip : Netip) where
  -- For a pool with a masked prefix, the search that NextFree makes ends, within its fuel, with
  -- the lowest address that is in the pool, is neither its network nor its broadcast address
  -- and is not in use, or finds none when there is no such address.
  pub search-Lowest :
      (pool : Pool) (used : List Text)
      → IsMasked pool.prefix
      → Lowest pool (parse_all netip used) (search netip pool used)
  unfolding search next
  search-Lowest pool used m = Outcome-Lowest pool (parse_all netip used) m _ (
      search_from-Outcome pool.prefix (broadcast pool) (parse_all netip used) m
        (λ b _ i. broadcast_bounds pool b m i) (suc (block pool.prefix))
        (pool.prefix.addr.value + 1) (omega arith)
        (omega (arith, block_pos pool.prefix.addr.family pool.prefix.bits)) (omega arith))
