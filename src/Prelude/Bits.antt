-- ===== src/Prelude/Bits.antt =====
-- Permission masks: one set of bits inside another.
use Prim.Native.Nat.{
  ℕ, zero, suc, ◌+◌, ◌-◌, ◌*◌, ◌/◌, ◌%◌, ◌^◌, ◌≤◌, ◌<◌, min, bit_and, digits, bit_and-bitwise,
}
use mathlib.Core.Path.{◌≡◌, refl}
use native.Mathlib.Nat.{le_refl, pow-suc, one-le-pow}
use native.Mathlib.Omega.{arith}

-- The common bits of two numbers, found by as many rounds as `fuel` says. The library's `bit_and x y`
-- takes `x` rounds.
abbrev common : ℕ → ℕ → ℕ → ℕ
common fuel x y = digits (λ _. 0) min fuel x y

-- Rounds past the first `x` change nothing. `w` is a bound for the induction.
spare_rounds : (w fuel : ℕ) → fuel ≤ w → (x y : ℕ) → x ≤ fuel → common fuel x y ≡ common x x y
spare_rounds w zero h zero y le = refl
spare_rounds w zero h (suc x) y le = absurd (omega arith)
spare_rounds w (suc fuel) h zero y le = refl
spare_rounds zero (suc fuel) h (suc x) y le = absurd (omega arith)
spare_rounds (suc w) (suc fuel) h (suc x) y le =
    let long = spare_rounds w fuel (omega arith) (suc x / 2) (y / 2) (omega arith) in
    let short = spare_rounds w x (omega arith) (suc x / 2) (y / 2) (omega arith) in omega arith

nothing_common : (y : ℕ) → bit_and 0 y ≡ 0
nothing_common y = simp bit_and-bitwise

-- `&` one binary digit at a time.
pub bit_and_step : (x y : ℕ) → bit_and x y ≡ 2 * bit_and (x / 2) (y / 2) + min (x % 2) (y % 2)
bit_and_step zero y = rw (nothing_common y, nothing_common (y / 2)) (omega arith)
bit_and_step (suc x) y =
    let half = spare_rounds x x (omega arith) (suc x / 2) (y / 2) (omega arith) in
    let whole = bit_and-bitwise (suc x) y in
    let rest = bit_and-bitwise (suc x / 2) (y / 2) in omega arith

-- `~x` on a word of `w` bits
abbrev pub bit_not : ℕ → ℕ → ℕ
bit_not w x = 2 ^ w - 1 - x

bit_not_half :
    (w q : ℕ)
    → q < 2 ^ suc w
    → (bit_not (suc w) q / 2 ≡ bit_not w (q / 2)) × (bit_not (suc w) q % 2 ≡ 1 - q % 2)
bit_not_half w q h = let e = pow-suc 2 w in let pos = one-le-pow w 2 in (omega arith, omega arith)

-- If `p` has no bit outside `q`, whatever bits `p` has, `q` has.
pub bit_and_subset :
    (w p q r : ℕ)
    → p < 2 ^ w
    → q < 2 ^ w
    → bit_and p (bit_not w q) ≡ 0
    → bit_and p r ≡ r
    → bit_and q r ≡ r
bit_and_subset zero p q r hp hq sub has =
    let p0 : p ≡ 0 = omega arith in let q0 : q ≡ 0 = omega arith in rw (q0, ← p0) has
bit_and_subset (suc w) p q r hp hq sub has = ground (
  arith,
  pow-suc 2 w,
  bit_and_step p r,
  bit_and_step q r,
  bit_and_step p (bit_not (suc w) q),
  bit_not_half w q hq,
  bit_and_subset w (p / 2) (q / 2) (r / 2) (omega (arith, pow-suc 2 w))
      (omega (arith, pow-suc 2 w)),
)

bit_and_self_below : (n a : ℕ) → a ≤ n → bit_and a a ≡ a
bit_and_self_below zero a h = let z : a ≡ 0 = omega arith in rw z (nothing_common 0)
bit_and_self_below (suc n) zero h = nothing_common 0
bit_and_self_below (suc n) (suc a) h =
    omega (arith, bit_and_step (suc a) (suc a), bit_and_self_below n (suc a / 2) (omega arith))

pub bit_and_self : (a : ℕ) → bit_and a a ≡ a
bit_and_self a = bit_and_self_below a a (le_refl a)
