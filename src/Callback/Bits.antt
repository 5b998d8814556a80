-- ===== src/Callback/Bits.antt =====
-- The four bits of `set_bits`, one for each setting of a lidar that is still to be confirmed.
use livox_mid360_rko_lio_ros.Base.{
  ℕ, zero, suc, ◌+◌, ◌-◌, ◌*◌, ◌/◌, ◌%◌, ◌^◌, ◌<◌, ◌≡◌, refl, bit_and, bit_or, Bool, true, false,
  ◌&&◌, ◌==◌, ==_iff, arith, if◌then◌else◌,
}
use livox_mid360_rko_lio_ros.Callback.{
  config_data_type, config_scan_pattern, config_blind_spot, config_dual_emit,
}

pub data Setting : Type 0 where
  data_type scan_pattern blind_spot dual_emit : Setting

abbrev pub bit_of : Setting → ℕ
bit_of data_type = config_data_type
bit_of scan_pattern = config_scan_pattern
bit_of blind_spot = config_blind_spot
bit_of dual_emit = config_dual_emit

-- 1 if the setting's bit is set in `bits`, else 0.
abbrev pub pending : ℕ → Setting → ℕ
pending bits setting = bits / bit_of setting % 2

abbrev pub same_setting : Setting → Setting → Bool
same_setting data_type data_type = true
same_setting scan_pattern scan_pattern = true
same_setting blind_spot blind_spot = true
same_setting dual_emit dual_emit = true
same_setting _ _ = false

every_word : (ℕ → Bool) → ℕ → Bool
every_word test zero = true
every_word test (suc bound) = every_word test bound && test bound

every_word_lem :
    (test : ℕ → Bool) (bound w : ℕ) → w < bound → every_word test bound ≡ true → test w ≡ true
unfolding every_word
every_word_lem test zero w small e = absurd (omega arith)
every_word_lem test (suc bound) w small e = ground (arith, every_word_lem test bound w)

clear_table :
    (b : Setting)
    → every_word (λ w. bit_and w (2 ^ 32 - 1 - bit_of b) == w - pending w b * bit_of b) 16 ≡ true
unfolding every_word
clear_table data_type = refl
clear_table scan_pattern = refl
clear_table blind_spot = refl
clear_table dual_emit = refl

-- `bits &= ~bit` takes the bit away, if it is there.
pub clear_bit :
    (b : Setting) (w : ℕ) → w < 16 → bit_and w (2 ^ 32 - 1 - bit_of b) ≡ w - pending w b * bit_of b
clear_bit b w h = (==_iff _ _).0 (every_word_lem _ 16 w h (clear_table b))

set_table :
    (b : Setting)
    → every_word (λ w. bit_or w (bit_of b) == w + (1 - pending w b) * bit_of b) 16 ≡ true
unfolding every_word
set_table data_type = refl
set_table scan_pattern = refl
set_table blind_spot = refl
set_table dual_emit = refl

-- `bits |= bit` adds the bit, if it is not there.
pub set_bit :
    (b : Setting) (w : ℕ) → w < 16 → bit_or w (bit_of b) ≡ w + (1 - pending w b) * bit_of b
set_bit b w h = (==_iff _ _).0 (every_word_lem _ 16 w h (set_table b))

-- No bit is set in 0 only.
pub none_pending : (w : ℕ) → w < 16 → ((b : Setting) → pending w b ≡ 0) → w ≡ 0
none_pending w h p = omega (arith, p data_type, p scan_pattern, p blind_spot, p dual_emit)

-- A cleared bit is no longer pending, and the others are as before.
pub pending-clear :
    (b c : Setting) (w : ℕ)
    → w < 16
    → (bit_and w (2 ^ 32 - 1 - bit_of b) < 16)
      × (pending (bit_and w (2 ^ 32 - 1 - bit_of b)) c
          ≡ (if same_setting b c then 0 else pending w c))
pending-clear data_type data_type w h = omega (arith, clear_bit data_type w h)
pending-clear data_type c w h = omega (arith, clear_bit data_type w h)
pending-clear scan_pattern data_type w h = omega (arith, clear_bit scan_pattern w h)
pending-clear scan_pattern c w h = omega (arith, clear_bit scan_pattern w h)
pending-clear blind_spot data_type w h = omega (arith, clear_bit blind_spot w h)
pending-clear blind_spot c w h = omega (arith, clear_bit blind_spot w h)
pending-clear dual_emit data_type w h = omega (arith, clear_bit dual_emit w h)
pending-clear dual_emit c w h = omega (arith, clear_bit dual_emit w h)

pub pending-set :
    (b c : Setting) (w : ℕ)
    → w < 16
    → (bit_or w (bit_of b) < 16)
      × (pending (bit_or w (bit_of b)) c ≡ (if same_setting b c then 1 else pending w c))
pending-set data_type data_type w h = omega (arith, set_bit data_type w h)
pending-set data_type c w h = omega (arith, set_bit data_type w h)
pending-set scan_pattern data_type w h = omega (arith, set_bit scan_pattern w h)
pending-set scan_pattern c w h = omega (arith, set_bit scan_pattern w h)
pending-set blind_spot data_type w h = omega (arith, set_bit blind_spot w h)
pending-set blind_spot c w h = omega (arith, set_bit blind_spot w h)
pending-set dual_emit data_type w h = omega (arith, set_bit dual_emit w h)
pending-set dual_emit c w h = omega (arith, set_bit dual_emit w h)

pub pending_zero : (c : Setting) → pending 0 c ≡ 0
pending_zero data_type = refl
pending_zero c = refl
