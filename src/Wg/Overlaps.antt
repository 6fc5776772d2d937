-- ===== src/Wg/Overlaps.antt =====
-- internal/wg/allowed.go: the pairs of prefixes that Overlap reports.
use native.Mathlib.Nat.{
  pow-suc, pow-zero, add-zero, add-suc, mul-one, mul_assoc, div-div-eq-div-mul,
}
use wgroster.Prelude.{
  ℕ, zero, suc, ◌+◌, ◌-◌, ◌*◌, ◌/◌, ◌^◌, ◌≤◌, min, ◌≡◌, sym, ap, subst, ◌∙◌, ◌↔◌, ◌⊎◌, inl, inr,
  true, false, none, some, List, [], ◌∷◌, In, All, All-In, arith, Bool-cases, Option-cases,
}
use wgroster.Netip.{Family, Addr, Prefix, IsPrefix, block_of, bit_len, contains, overlaps}
use wgroster.Netip.Prefixes.{family_eq→eq, family_eq_refl}
use wgroster.Wg.AllowedIps.{overlap, overlap_with}

pow_add : (b m n : ℕ) → b ^ (m + n) ≡ b ^ m * b ^ n
pow_add b m zero = simp (add-zero, pow-zero, mul-one)
pow_add b m (suc n) = simp (add-suc, pow-suc, pow_add b m n, mul_assoc)

-- A shorter prefix length fixes a block that is a multiple of the longer one's.
block_multiple :
    (f : Family) (short long : ℕ)
    → short ≤ long
    → long ≤ bit_len f
    → block_of f short ≡ block_of f long * 2 ^ (long - short)
unfolding block_of
block_multiple f short long h k =
    ap (λ n. 2 ^ n) (omega arith) ∙ pow_add 2 (bit_len f - long) (long - short)

-- Numbers in one block are in one larger block.
same_larger_block :
    (f : Family) (short long a b : ℕ)
    → short ≤ long
    → long ≤ bit_len f
    → a / block_of f long ≡ b / block_of f long
    → a / block_of f short ≡ b / block_of f short
same_larger_block f short long a b h k e =
    let k' = 2 ^ (long - short) in
    rw
      (
        block_multiple f short long h k,
        ← div-div-eq-div-mul a (block_of f long) k',
        ← div-div-eq-div-mul b (block_of f long) k',
      )
      (ap (λ t. t / k') e)

min_cases : (a b : ℕ) → ((a ≤ b) × (min a b ≡ a)) ⊎ ((b ≤ a) × (min a b ≡ b))
min_cases a b = ground arith

overlaps-meet :
    (p q : Prefix)
    → overlaps p q ≡ true
    → (a : Addr) × (contains p a ≡ true) × (contains q a ≡ true)
unfolding overlaps contains
overlaps-meet p q h = elim (min_cases p.bits q.bits) [
  | inl (_, e) ↦ (q.addr, ground (arith, e), ground (arith, family_eq_refl q.addr.family))
  | inr (_, e) ↦ (
    p.addr,
    ground (arith, family_eq_refl p.addr.family),
    ground (arith, e, family_eq→eq p.addr.family q.addr.family, family_eq_refl p.addr.family),
  )
]

meet-overlaps :
    (p q : Prefix) (a : Addr)
    → IsPrefix p
    → IsPrefix q
    → contains p a ≡ true
    → contains q a ≡ true
    → overlaps p q ≡ true
unfolding overlaps contains
meet-overlaps p q a vp vq hp hq =
    let ep : p.addr.family ≡ a.family = family_eq→eq p.addr.family a.family (ground arith) in
    let eq' : q.addr.family ≡ a.family = family_eq→eq q.addr.family a.family (ground arith) in
    elim (min_cases p.bits q.bits) [
      | inl (le, e) ↦ ground (
        arith,
        e,
        ep,
        eq',
        family_eq_refl a.family,
        same_larger_block q.addr.family p.bits q.bits a.value q.addr.value le vq.1,
      )
      | inr (le, e) ↦ ground (
        arith,
        e,
        ep,
        eq',
        family_eq_refl a.family,
        same_larger_block p.addr.family q.bits p.bits a.value p.addr.value le vp.1,
      )
    ]

-- Two prefixes overlap exactly when they have an address in common.
pub overlaps_iff :
    (p q : Prefix)
    → IsPrefix p
    → IsPrefix q
    → (overlaps p q ≡ true) ↔ ((a : Addr) × (contains p a ≡ true) × (contains q a ≡ true))
overlaps_iff p q vp vq = (overlaps-meet p q, λ (a, hp, hq). meet-overlaps p q a vp vq hp hq)

-- Both lists cover the address.
abbrev pub Covers : List Prefix → Addr → Type 0
Covers ps a = (p : Prefix) × In p ps × (contains p a ≡ true)

overlap_with-none :
    (x : Prefix) (ys : List Prefix)
    → overlap_with x ys ≡ none
    → (y : Prefix) → In y ys
    → overlaps x y ≡ false
unfolding overlap_with
overlap_with-none x [] h y i = absurd i
overlap_with-none x (z ∷ ys) h y (inl e) = ground arith
overlap_with-none x (z ∷ ys) h y (inr i) = overlap_with-none x ys (ground arith) y i

overlap_with-some :
    (x y : Prefix) (ys : List Prefix) → overlap_with x ys ≡ some y → In y ys × (overlaps x y ≡ true)
unfolding overlap_with
overlap_with-some x y [] h = cc
overlap_with-some x y (z ∷ ys) h = elim (Bool-cases (overlaps x z)) [
  | inl e ↦ (inl (ground arith), ground arith)
  | inr e ↦ let (i, o) = overlap_with-some x y ys (ground arith) in (inr i, o)
]

-- A pair that Overlap reports is a prefix of each list, and the two have an address in
-- common.
pub overlap-some :
    (xs ys : List Prefix) (x y : Prefix)
    → overlap xs ys ≡ some (x, y)
    → In x xs × In y ys × ((a : Addr) × (contains x a ≡ true) × (contains y a ≡ true))
unfolding overlap
overlap-some [] ys x y h = absurd (cc)
overlap-some (z ∷ xs) ys x y h = elim (Option-cases (overlap_with z ys)) [
  | inl e ↦ let (i, j, m) = overlap-some xs ys x y (ground arith) in (inr i, j, m)
  | inr (w, e) ↦
      let (j, o) = overlap_with-some z w ys e in
      let ez : z ≡ x = ground arith in
      let ew : w ≡ y = ground arith in (inl ez, subst (λ t. In t ys) ew j, overlaps-meet x y (cc))
]

overlap-head :
    (z : Prefix) (xs ys : List Prefix)
    → overlap (z ∷ xs) ys ≡ none
    → (overlap_with z ys ≡ none) × (overlap xs ys ≡ none)
unfolding overlap
overlap-head z xs ys h = elim (Option-cases (overlap_with z ys)) [
  | inl e ↦ (e, ground arith)
  | inr (w, e) ↦ absurd (ground arith)
]

-- When Overlap reports no pair for two lists of valid prefixes, no address is covered by a
-- prefix of each list.
pub overlap-none :
    (xs ys : List Prefix)
    → All IsPrefix xs
    → All IsPrefix ys
    → overlap xs ys ≡ none
    → (a : Addr) → Covers xs a
    → ¬ Covers ys a
overlap-none [] ys vx vy h a (p, i, _) c = i
overlap-none (z ∷ xs) ys vx vy h a (p, inr i, cp) c =
    overlap-none xs ys vx.1 vy (overlap-head z xs ys h).1 a (p, i, cp) c
overlap-none (z ∷ xs) ys vx vy h a (p, inl e, cp) (q, j, cq) = cc (
  overlap_with-none z ys (overlap-head z xs ys h).0 q j,
  meet-overlaps z q a vx.0 (All-In IsPrefix ys vy j) (subst (λ t. contains t a ≡ true) (sym e) cp)
      cq,
)
