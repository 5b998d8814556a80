-- ===== src/Comm/Float.antt =====
-- The floating-point unit, on bit patterns: `d_` is double, `f_` is float, and an integer argument
-- or result is a bit pattern of its width. `cos` and `sin` are those of <cmath>.
use livox_mid360_rko_lio_ros.Base.{ℕ, Bool, if◌then◌else◌}
use livox_mid360_rko_lio_ros.Comm.{add32}

pub record FloatUnit : Type 0 where
  pub d_lt : ℕ → ℕ → Bool
  pub d_to_u32 : ℕ → ℕ
  pub d_to_u64 : ℕ → ℕ
  pub d_of_u32 : ℕ → ℕ
  pub d_of_u64 : ℕ → ℕ
  pub d_of_i32 : ℕ → ℕ
  pub d_of_f : ℕ → ℕ
  pub d_add : ℕ → ℕ → ℕ
  pub d_sub : ℕ → ℕ → ℕ
  pub d_mul : ℕ → ℕ → ℕ
  pub d_div : ℕ → ℕ → ℕ
  pub d_neg : ℕ → ℕ
  pub d_cos : ℕ → ℕ
  pub d_sin : ℕ → ℕ
  pub f_of_d : ℕ → ℕ
  pub f_of_i32 : ℕ → ℕ
  pub f_of_u8 : ℕ → ℕ
  pub f_to_u8 : ℕ → ℕ
  pub f_add : ℕ → ℕ → ℕ
  pub f_mul : ℕ → ℕ → ℕ

-- The literal 10.0.
abbrev pub d_ten : ℕ
d_ten = 0x4024000000000000

-- The literals 100.0, 180.0, 1000.0 and PI, and the floats 0 and 1.
abbrev pub d_100 : ℕ
d_100 = 0x4059000000000000

abbrev pub d_180 : ℕ
d_180 = 0x4066800000000000

abbrev pub d_1000 : ℕ
d_1000 = 0x408f400000000000

abbrev pub d_pi : ℕ
d_pi = 0x400921fb54442d18

abbrev pub f_zero : ℕ
f_zero = 0

abbrev pub f_one : ℕ
f_one = 0x3f800000

-- CalculatePacketQueueSize of comm/comm.cpp.
unfoldable pub calculate_packet_queue_size : FloatUnit → ℕ → ℕ
calculate_packet_queue_size fu publish_freq =
    if fu.d_lt d_ten publish_freq then add32 (fu.d_to_u32 publish_freq) 1 else 10
