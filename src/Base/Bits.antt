-- ===== src/Base/Bits.antt =====
-- `&` and `|` on the digits of native numbers: the lowest digit, a mask of low bits, and the
-- test for a power of two.
use Prim.Native.Nat.{
  ℕ, zero, suc, ◌+◌, ◌-◌, ◌*◌, ◌/◌, ◌%◌, ◌^◌, ◌≤◌, ◌<◌, min, bit_and, digits, bit_and-bitwise,
}
use mathlib.Core.Path.{◌≡◌, refl, ap, ap₂, ◌∙◌}
use native.Mathlib.Nat.{
  pow-suc, one-le-pow, le_refl, add-mul-mod_self_left, mod-eq_of_lt, div-add-mod,
}
use native.Mathlib.Omega.{arith}
use native.Mathlib.Decide.{dec_le, dec_lt}
use mathlib.Core.Logic.{◌≢◌}

-- What the native `&` stands for: a recursion on the digits of its first argument, with fuel.
abbrev and_digits : ℕ → ℕ → ℕ → ℕ
and_digits = digits (λ d. 0) min

-- One more unit of fuel than the number changes nothing, so its own value is fuel enough.
and_digits_more : (n a b : ℕ) → a ≤ n → and_digits (suc n) a b ≡ and_digits n a b
and_digits_more zero zero b h = refl
and_digits_more zero (suc a) b h = absurd (omega arith)
and_digits_more (suc n) zero b h = refl
and_digits_more (suc n) (suc a) b h =
    ap (λ d. d * 2 + min (suc a % 2) (b % 2)) (and_digits_more n (suc a / 2) (b / 2) (omega arith))

and_digits_self : (n a b : ℕ) → a ≤ n → and_digits n a b ≡ and_digits a a b
and_digits_self zero a b h = let e : a ≡ 0 = omega arith in rw e
and_digits_self (suc n) a b h = elim (dec_le a n) [
  | yes below ↦ and_digits_more n a b below ∙ and_digits_self n a b below
  | no above ↦ let e : a ≡ suc n = omega arith in rw e
]

-- `&` by the lowest digit and the rest.
pub bit_and_halves : (m n : ℕ) → bit_and m n ≡ min (m % 2) (n % 2) + 2 * bit_and (m / 2) (n / 2)
bit_and_halves zero n = simp bit_and-bitwise (omega arith)
bit_and_halves (suc m) n =
    let same = and_digits_self m (suc m / 2) (n / 2) (omega arith) in
    simp bit_and-bitwise (omega (arith, ap (λ d. d * 2 + min (suc m % 2) (n % 2)) same))

bit_and-zero : (a : ℕ) → bit_and a 0 ≡ 0
bit_and-zero a = halve a a (le_refl a)
  where
    halve : (n m : ℕ) → m ≤ n → bit_and m 0 ≡ 0
    halve zero m h = let e : m ≡ 0 = omega arith in rw e
    halve (suc n) m h = elim (dec_lt 0 m) [
      | yes p ↦ omega (arith, bit_and_halves m 0, halve n (m / 2) (omega arith))
      | no p ↦ let e : m ≡ 0 = omega arith in rw e
    ]

-- Of two equal numbers.
bit_and_self : (a : ℕ) → bit_and a a ≡ a
bit_and_self a = halve a a (le_refl a)
  where
    halve : (n m : ℕ) → m ≤ n → bit_and m m ≡ m
    halve zero m h = let e : m ≡ 0 = omega arith in rw e
    halve (suc n) m h = elim (dec_lt 0 m) [
      | yes p ↦ omega (arith, bit_and_halves m m, halve n (m / 2) (omega arith))
      | no p ↦ let e : m ≡ 0 = omega arith in rw e
    ]

mod_double : (a p : ℕ) → 0 < p → a % (p * 2) ≡ (a / 2) % p * 2 + a % 2
mod_double a p pos =
    ap (λ t. t % (p * 2)) split
    ∙ add-mul-mod_self_left (a / 2 % p * 2 + a % 2) (p * 2) (a / 2 / p)
    ∙ mod-eq_of_lt (omega arith)
  where
    split : a ≡ a / 2 % p * 2 + a % 2 + p * 2 * (a / 2 / p)
    split = omega (arith, div-add-mod (a / 2) p)

-- A mask of `k` low bits takes the remainder by `2 ^ k`.
pub bit_and_mask : (k a : ℕ) → bit_and a (2 ^ k - 1) ≡ a % 2 ^ k
bit_and_mask zero a = bit_and-zero a ∙ omega arith
bit_and_mask (suc k) a =
    rw (pow-suc 2 k) (double (2 ^ k) (one-le-pow k 2 (omega arith)) (bit_and_mask k (a / 2)))
  where
    double :
        (p : ℕ)
        → 1 ≤ p
        → bit_and (a / 2) (p - 1) ≡ (a / 2) % p
        → bit_and a (p * 2 - 1) ≡ a % (p * 2)
    double p pos ih =
        let half : (p * 2 - 1) / 2 ≡ p - 1 = omega arith in
        omega
          (arith, bit_and_halves a (p * 2 - 1), ap (bit_and (a / 2)) half, ih, mod_double a p pos)

-- The test `(n & (n - 1)) == 0` on an odd number above one, and on an even one.
pub bit_and_pred_odd : (n : ℕ) → 0 < n → bit_and (n * 2 + 1) (n * 2) ≢ 0
bit_and_pred_odd n pos e =
    let low : (n * 2 + 1) / 2 ≡ n = omega arith in
    let up : n * 2 / 2 ≡ n = omega arith in
    omega (arith, bit_and_halves (n * 2 + 1) (n * 2), ap₂ bit_and low up, bit_and_self n, e)

pub bit_and_pred_even : (n : ℕ) → 0 < n → bit_and (n * 2) (n * 2 - 1) ≡ bit_and n (n - 1) * 2
bit_and_pred_even n pos =
    let low : n * 2 / 2 ≡ n = omega arith in
    let up : (n * 2 - 1) / 2 ≡ n - 1 = omega arith in
    omega (arith, bit_and_halves (n * 2) (n * 2 - 1), ap₂ bit_and low up)
