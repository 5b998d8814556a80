-- ===== src/Points/Bytes.antt =====
-- Little-endian reads of packed fields, and the arithmetic that C++ leaves undefined on a zero divisor.
use livox_mid360_rko_lio_ros.Base.{
  ℕ, zero, suc, ◌+◌, ◌-◌, ◌*◌, ◌/◌, ◌%◌, ◌^◌, List, [], ◌∷◌, ltb, ◌==◌, if◌then◌else◌, drop,
  Outcome, fault, ok, ◌>>=◌,
}

unfoldable pub read_le : ℕ → List ℕ → Outcome ℕ
read_le zero bytes = ok 0
read_le (suc n) [] = fault
read_le (suc n) (b ∷ bytes) = do rest ← read_le n bytes; ok (b + 256 * rest)

-- The number of `n` bytes at `offset`.
unfoldable pub read_at : ℕ → ℕ → List ℕ → Outcome ℕ
unfolding read_le
read_at n offset bytes = read_le n (drop offset bytes)

-- An int16_t as an int32_t, in bit patterns.
pub sign_extend16 : ℕ → ℕ
sign_extend16 v = if ltb v (2 ^ 15) then v else v + (2 ^ 32 - 2 ^ 16)

unfoldable pub checked_mod : ℕ → ℕ → Outcome ℕ
checked_mod a b = if b == 0 then fault else ok (a % b)

unfoldable pub checked_div : ℕ → ℕ → Outcome ℕ
checked_div a b = if b == 0 then fault else ok (a / b)
