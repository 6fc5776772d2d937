-- ===== src/Ipam/Broadcast.antt =====
-- internal/ipam/ipam.go: the address that broadcast computes.
use Prim.Native.Nat.{max, bit_or, digits, bit_or-bitwise}
use native.Mathlib.Nat.{pow-suc, one-le-pow, pow-le-pow_right, div-add-mod'}
use mathlib.Core.Path.{ap₂}
use wgroster.Prelude.{
  ℕ, zero, suc, ◌+◌, ◌-◌, ◌*◌, ◌/◌, ◌%◌, ◌^◌, ◌≤◌, ◌≡◌, refl, sym, ap, ◌∙◌, arith, Option, none,
  some, leb, if◌then◌else◌,
}
use wgroster.Netip.{Family, v4, v6, Addr, block_of, masked}
use wgroster.Netip.Prefixes.{IsMasked}
use wgroster.Ipam.{Pool, broadcast_value, broadcast4, broadcast_by, broadcast}

-- The law for the lowest digit of bit_or.
abbrev or_digits : ℕ → ℕ → ℕ → ℕ
or_digits n a b = digits (λ b. b) max n a b

or_digits_fuel : (n m a b : ℕ) → a ≤ n → a ≤ m → or_digits n a b ≡ or_digits m a b
or_digits_fuel zero zero a b p q = refl
or_digits_fuel zero (suc m) zero b p q = refl
or_digits_fuel zero (suc m) (suc a) b p q = absurd (omega arith)
or_digits_fuel (suc n) zero zero b p q = refl
or_digits_fuel (suc n) zero (suc a) b p q = absurd (omega arith)
or_digits_fuel (suc n) (suc m) zero b p q = refl
or_digits_fuel (suc n) (suc m) (suc a) b p q =
    omega (arith, or_digits_fuel n m (suc a / 2) (b / 2) (omega arith) (omega arith))

zero-bit_or : (b : ℕ) → bit_or 0 b ≡ b
zero-bit_or b = bit_or-bitwise 0 b

bit_or_step : (a b : ℕ) → bit_or a b ≡ bit_or (a / 2) (b / 2) * 2 + max (a % 2) (b % 2)
bit_or_step zero b = omega (arith, zero-bit_or b, zero-bit_or (b / 2))
bit_or_step (suc a) b = omega (
  arith,
  bit_or-bitwise (suc a) b,
  bit_or-bitwise (suc a / 2) (b / 2),
  or_digits_fuel a (suc a / 2) (suc a / 2) (b / 2) (omega arith) (omega arith),
)

bit_or-zero_fuel : (n a : ℕ) → a ≤ n → bit_or a 0 ≡ a
bit_or-zero_fuel n zero h = zero-bit_or 0
bit_or-zero_fuel zero (suc a) h = absurd (omega arith)
bit_or-zero_fuel (suc n) (suc a) h =
    omega (arith, bit_or_step (suc a) 0, bit_or-zero_fuel n (suc a / 2) (omega arith))

-- Below a number whose low h bits are clear, a mask of h ones adds up.
bit_or_ones : (h q : ℕ) → bit_or (q * 2 ^ h) (2 ^ h - 1) ≡ q * 2 ^ h + (2 ^ h - 1)
bit_or_ones zero q = omega (arith, bit_or-zero_fuel (q * 1) (q * 1) (omega arith))
bit_or_ones (suc h) q =
    let M = 2 ^ h in
    let pos : 1 ≤ M = one-le-pow h 2 (omega arith) in
    let e : 2 ^ suc h ≡ M * 2 = pow-suc 2 h in
    let half : q * 2 ^ suc h / 2 ≡ q * M = omega (arith, ap (λ (t : ℕ). q * t) e) in
    let even : q * 2 ^ suc h % 2 ≡ 0 = omega (arith, ap (λ (t : ℕ). q * t) e) in
    let ones : (2 ^ suc h - 1) / 2 ≡ M - 1 = omega arith in
    let odd : (2 ^ suc h - 1) % 2 ≡ 1 = omega arith in
    let step = bit_or_step (q * 2 ^ suc h) (2 ^ suc h - 1) in
    let sub : bit_or (q * 2 ^ suc h / 2) ((2 ^ suc h - 1) / 2) ≡ q * M + (M - 1) =
      ap₂ bit_or half ones ∙ bit_or_ones h q in
    omega (arith, ap (λ (t : ℕ). q * t) e)

-- The computed 32-bit mask has 32 - bits ones, and the result ends the block.
broadcast_value_lem :
    (v bits : ℕ) → v % 2 ^ (32 - bits) ≡ 0 → broadcast_value v bits ≡ v + (2 ^ (32 - bits) - 1)
unfolding broadcast_value
broadcast_value_lem v bits m =
    let M = 2 ^ (32 - bits) in
    let pos : 1 ≤ M = one-le-pow (32 - bits) 2 (omega arith) in
    let fits : M ≤ 2 ^ 32 = pow-le-pow_right {n = 2} (omega arith) {j = 32} (omega arith) in
    let mask : (M % 2 ^ 32 + 2 ^ 32 - 1) % 2 ^ 32 ≡ M - 1 = omega arith in
    let whole : v ≡ v / M * M = omega (arith, div-add-mod' v M) in
    ap₂ bit_or whole mask ∙ bit_or_ones (32 - bits) (v / M) ∙ ap (λ t. t + (M - 1)) (sym whole)

broadcast4_lem :
    (a bits : ℕ)
    → a % 2 ^ (32 - bits) ≡ 0
    → broadcast4 (record { family = v4; value = a }) bits ≡ (
        if leb 31 bits
        then none
        else some (record { family = v4; value = a + (2 ^ (32 - bits) - 1) }))
unfolding broadcast4
broadcast4_lem a bits m =
    ap (λ (t : ℕ). if leb 31 bits then none else some (record { family = v4; value = t }))
      (broadcast_value_lem a bits m)

-- The broadcast address that a masked pool should have: the last of its addresses, for IPv4 pools
-- of more than two.
abbrev pub last_address : Family → ℕ → ℕ → Option Addr
last_address v4 a bits =
    if leb 31 bits then none else some (record { family = v4; value = a + (block_of v4 bits - 1) })
last_address v6 a bits = none

broadcast_by_lem :
    (f : Family) (a bits : ℕ)
    → a % block_of f bits ≡ 0
    → broadcast_by f (record { addr = record { family = f; value = a }; bits = bits })
      ≡ last_address f a bits
unfolding broadcast_by broadcast4 block_of masked
broadcast_by_lem v4 a bits m =
    let e : a - a % 2 ^ (32 - bits) ≡ a = omega arith in rw e (broadcast4_lem a bits m)
broadcast_by_lem v6 a bits m = refl

-- The broadcast address of a masked IPv4 pool of at most 30 prefix bits is the last address
-- of the pool, and no other pool has one.
pub broadcast-last :
    (pool : Pool)
    → IsMasked pool.prefix
    → broadcast pool ≡ last_address pool.prefix.addr.family pool.prefix.addr.value pool.prefix.bits
unfolding broadcast
broadcast-last pool m =
    broadcast_by_lem pool.prefix.addr.family pool.prefix.addr.value pool.prefix.bits m
