-- ===== src/Netip/Prefixes.antt =====
-- Prefixes as ranges of addresses.
use native.Mathlib.Nat.{
  one-le-pow, div-add-mod, div-add-mod', mod-lt, div-eq_of_lt-le, mul-mod_right,
}
use wgroster.Prelude.{
  ℕ, ◌+◌, ◌-◌, ◌*◌, ◌/◌, ◌%◌, ◌<◌, ◌≤◌, ◌≡◌, refl, sym, ap, subst, ◌∙◌, ◌↔◌, true, arith,
}
use wgroster.Netip.{
  Family, v4, v6, Addr, Prefix, family_eq, bit_len, block, block_of, contains, addr_eq,
}

pub block_pos : (f : Family) (bits : ℕ) → 0 < block_of f bits
unfolding block_of
block_pos f bits = one-le-pow (bit_len f - bits) 2 (omega arith)

pub family_eq→eq : (f g : Family) → family_eq f g ≡ true → f ≡ g
family_eq→eq v4 v4 h = refl
family_eq→eq v4 v6 h = cc
family_eq→eq v6 v4 h = cc
family_eq→eq v6 v6 h = refl

pub family_eq_refl : (f : Family) → family_eq f f ≡ true
family_eq_refl v4 = refl
family_eq_refl v6 = refl

pub addr_eq→eq : (a b : Addr) → addr_eq a b ≡ true → a ≡ b
addr_eq→eq a b h = ground (arith, family_eq→eq a.family b.family)

pub addr_eq_refl : (a : Addr) → addr_eq a a ≡ true
addr_eq_refl a = ground (arith, family_eq_refl a.family)

-- Two numbers fall into the same block of size b exactly when v is in the range from base on.
pub same_block :
    (b base v : ℕ) → 0 < b → base % b ≡ 0 → (v / b ≡ base / b) ↔ ((base ≤ v) × (v < base + b))
same_block b base v h m = (
  λ e. omega (arith, div-add-mod' v b, div-add-mod' base b, mod-lt v h, ap (λ (t : ℕ). t * b) e),
  λ r.
      let e : base / b * b ≡ base = omega (arith, div-add-mod' base b) in
      let e' : base + b ≡ (base / b + 1) * b = omega arith in
      div-eq_of_lt-le b (subst (λ t. t ≤ v) (sym e) r.0) (subst (λ t. v < t) e' r.1),
)

pub masked_mod : (n b : ℕ) → (n - n % b) % b ≡ 0
masked_mod n b =
    let e : n - n % b ≡ b * (n / b) = omega (arith, div-add-mod n b) in
    ap (λ t. t % b) e ∙ mul-mod_right b (n / b)

-- A prefix whose host bits are clear.
abbrev pub IsMasked : Prefix → Type 0
IsMasked p = p.addr.value % block p ≡ 0

-- A masked prefix contains the addresses of its family from its own up to, not with, the next block.
pub contains_iff :
    (p : Prefix) (a : Addr)
    → IsMasked p
    → (contains p a ≡ true)
      ↔ ((p.addr.family ≡ a.family) × (p.addr.value ≤ a.value) × (a.value < p.addr.value + block p))
unfolding contains
contains_iff p a m = (
  λ h. ground (
    arith,
    family_eq→eq p.addr.family a.family,
    same_block (block p) p.addr.value a.value (block_pos p.addr.family p.bits) m,
  ),
  λ h. ground (
    arith,
    family_eq_refl a.family,
    same_block (block p) p.addr.value a.value (block_pos p.addr.family p.bits) m,
  ),
)
