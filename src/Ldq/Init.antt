-- ===== src/Ldq/Init.antt =====
-- `IsPowerOf2`, `RoundupPowerOf2` and `InitQueue` of comm/ldq.h and comm/ldq.cpp.
use native.Mathlib.Nat.{one-le-pow, pow-le-pow_right, pow-suc, mod_self, mod-eq_of_lt}
use livox_mid360_rko_lio_ros.Base.{
  ℕ, zero, suc, ◌+◌, ◌-◌, ◌*◌, ◌/◌, ◌%◌, ◌^◌, ◌≤◌, ◌<◌, ◌≡◌, ◌≢◌, ◌↔◌, inl, inr, refl, sym, ap, ap₂,
  ◌∙◌, true, if◌then◌else◌, none, [], arith, replicate, leb, leb→le, ok, bit_and, length-replicate,
  Bool-cases, dec_lt,
}
use livox_mid360_rko_lio_ros.Base.Bits.{bit_and_mask, bit_and_pred_odd, bit_and_pred_even}
use livox_mid360_rko_lio_ros.Comm.{sub32}
use livox_mid360_rko_lio_ros.Ldq.{
  freed, slots, LidarDataQueue, is_power_of_2, roundup_loop, roundup_power_of_2, init_queue,
}
use livox_mid360_rko_lio_ros.Ldq.Fifo.{Holds, pow_bounds}

pow-lt : (j k : ℕ) → j < k → 2 ^ j < 2 ^ k
pow-lt j k h =
    let step : 2 ^ suc j ≤ 2 ^ k = pow-le-pow_right (omega arith) h in
    omega (arith, step, pow-suc 2 j, one-le-pow j 2 (omega arith))

pow-inj_le : (j k : ℕ) → 2 ^ k ≤ 2 ^ j → k ≤ j
pow-inj_le j k h = elim (dec_lt j k) [
  | yes p ↦ absurd (omega (arith, pow-lt j k p))
  | no p ↦ omega arith
]

-- A number that shares no digit with its predecessor is a power of two.
power_of_no_common_digit :
    (fuel n : ℕ) → n ≤ fuel → 0 < n → bit_and n (n - 1) ≡ 0 → (k : ℕ) × (n ≡ 2 ^ k)
power_of_no_common_digit zero n h pos e = absurd (omega arith)
power_of_no_common_digit (suc fuel) n h pos e = elim (dec_lt (n % 2) 1) [
  | yes even ↦
      let d : n ≡ n / 2 * 2 = omega arith in
      let smaller : bit_and (n / 2) (n / 2 - 1) ≡ 0 =
        omega (arith, bit_and_pred_even (n / 2) (omega arith), ap (λ t. bit_and t (t - 1)) d, e) in
      let (k, p) = power_of_no_common_digit fuel (n / 2) (omega arith) (omega arith) smaller in
      (suc k, omega (arith, pow-suc 2 k, p))
  | no odd ↦ elim (dec_lt 1 n) [
    | yes big ↦
        let d : n ≡ n / 2 * 2 + 1 = omega arith in
        let d' : n - 1 ≡ n / 2 * 2 = omega arith in
        absurd (bit_and_pred_odd (n / 2) (omega arith) (ap₂ bit_and (sym d) (sym d') ∙ e))
    | no one ↦ (0, omega arith)
  ]
]

-- IsPowerOf2 is true of exactly the powers of two among the 32-bit numbers.
pub is_power_of_2_iff : (n : ℕ) → n < 2 ^ 32 → (is_power_of_2 n ≡ true) ↔ ((k : ℕ) × (n ≡ 2 ^ k))
unfolding is_power_of_2
is_power_of_2_iff n h = (
  λ t. power_of_no_common_digit n n (omega arith) (ground arith) (ground arith),
  λ e. of_power e.0 e.1,
)
  where
    of_power : (k : ℕ) → n ≡ 2 ^ k → is_power_of_2 n ≡ true
    of_power k e =
        ground (arith, bit_and_mask k (2 ^ k), one-le-pow k 2 (omega arith), mod_self (2 ^ k))

pub record IsRoundup (n i k : ℕ) : Type 0 where
  pub width : k ≤ 31
  pub enough : n ≤ 2 ^ k
  pub least : (j : ℕ) → i ≤ j → n ≤ 2 ^ j → k ≤ j

roundup_loop_lem :
    (left i n val : ℕ)
    → i + left ≡ 32
    → 0 < left
    → n ≤ 2 ^ 31
    → (k : ℕ) × (roundup_loop left i n val ≡ 2 ^ k) × IsRoundup n i k
unfolding roundup_loop
roundup_loop_lem zero i n val e pos h = absurd (omega arith)
roundup_loop_lem (suc left) i n val e pos h = elim (Bool-cases (leb n (2 ^ i % 2 ^ 32))) [
  | inl hit ↦ (
    i,
    rw (hit, roundup_loop) whole,
    record {
      width = omega arith;
      enough = omega (arith, leb→le _ _ hit, whole);
      least = λ j p q. p;
    },
  )
  | inr miss ↦
      let below : 2 ^ i < n = ground (arith, whole) in
      let more : i < 31 = pow_lt_inv below in
      let (k, r, least) =
        roundup_loop_lem left (i + 1) n (2 ^ i % 2 ^ 32) (omega arith) (omega arith) h in
      (
        k,
        rw (miss, roundup_loop) r,
        record {
          width = least.width;
          enough = least.enough;
          least = λ j p q. elim (dec_lt i j) [
            | yes up ↦ least.least j (omega arith) q
            | no eq ↦ let e : j ≡ i = omega arith in absurd (omega (arith, ap (λ t. 2 ^ t) e))
          ];
        },
      )
]
  where
    whole : 2 ^ i % 2 ^ 32 ≡ 2 ^ i
    whole = mod-eq_of_lt (pow-lt i 32 (omega arith))

    pow_lt_inv : 2 ^ i < n → i < 31
    pow_lt_inv p = elim (dec_lt i 31) [
      | yes q ↦ q
      | no q ↦ let e : i ≡ 31 = omega arith in absurd (omega (arith, ap (λ t. 2 ^ t) e))
    ]

-- Up to 2^31, RoundupPowerOf2 gives the least power of two that is not below its argument.
pub roundup_power_of_2_lem :
    (n : ℕ) → n ≤ 2 ^ 31 → (k : ℕ) × (roundup_power_of_2 n ≡ 2 ^ k) × IsRoundup n 0 k
unfolding roundup_power_of_2
roundup_power_of_2_lem n h = roundup_loop_lem 32 0 n 0 refl (omega arith) h

-- The size that `InitQueue` chooses, rounded up only if it must be.
init_size :
    (n : ℕ)
    → n ≤ 2 ^ 31
    → (k : ℕ) × ((if is_power_of_2 n then n else roundup_power_of_2 n) ≡ 2 ^ k) × IsRoundup n 0 k
init_size n h = elim (Bool-cases (is_power_of_2 n)) [
  | inl hit ↦
      let (k, e) = (is_power_of_2_iff n (omega arith)).0 hit in
      (
        k,
        rw hit e,
        record {
          width = pow-inj_le 31 k (omega (arith, e));
          enough = omega (arith, e);
          least = λ j p q. pow-inj_le j k (omega (arith, e));
        },
      )
  | inr miss ↦ rw miss (roundup_power_of_2_lem n h)
]

-- InitQueue, for up to 2^31 packets and on a storage that is not freed, gives an empty ring with
-- the least power of two of slots that is enough.
pub init-Holds :
    (queue : LidarDataQueue) (n : ℕ)
    → queue.storage_packet ≢ freed
    → n ≤ 2 ^ 31
    → (k : ℕ) × (queue' : LidarDataQueue) × (init_queue queue n ≡ ok queue')
      × Holds k queue' []
      × IsRoundup n 0 k
unfolding init_queue
init-Holds queue n live h =
    let (k, e, up) = init_size n h in
    let q : LidarDataQueue = record {
      storage_packet = slots (replicate (2 ^ k) none);
      rd_idx = 0;
      wr_idx = 0;
      mask = sub32 (2 ^ k) 1;
      size = 2 ^ k;
    } in
    (
      k,
      q,
      rw e (ground arith),
      record {
        array = replicate (2 ^ k) none;
        storage = refl;
        array_length = length-replicate (2 ^ k) none;
        width = up.width;
        mask_eq = omega (arith, pow_bounds k up.width);
        size_eq = refl;
        rd_lt = omega arith;
        wr_eq = refl;
        fits = omega arith;
        window = tt;
        sized = tt;
      },
      up,
    )
