-- ===== src/Comm.antt =====
-- Data types, constants and functions of src/livox_ros/src/comm/comm.h and comm.cpp, with the
-- records of comm/lidar_imu_data_queue.h. A float or a double is its IEEE-754 bit pattern, a number;
-- what the processor computes with it is the parameter `FloatUnit`.
pub mod Float
pub mod Underline
use livox_mid360_rko_lio_ros.Base.{
  ℕ, zero, suc, ◌+◌, ◌-◌, ◌%◌, ◌^◌, ◌<◌, Bool, true, false, ◌&&◌, List, [], ◌∷◌, ltb, ◌==◌,
  if◌then◌else◌, length,
}

-- kMaxSourceLidar
abbrev pub max_source_lidar : ℕ
max_source_lidar = 32

-- kLivoxLidarType of LidarProtoType
abbrev pub livox_lidar_type : ℕ
livox_lidar_type = 8

-- kNsPerSecond, kNsTolerantFrameTimeDeviation, kRatioOfMsToNs
abbrev pub ns_per_second : ℕ
ns_per_second = 1000000000

abbrev pub ns_tolerant_frame_time_deviation : ℕ
ns_tolerant_frame_time_deviation = 1000000

abbrev pub ratio_of_ms_to_ns : ℕ
ratio_of_ms_to_ns = 1000000

-- uint32_t and uint64_t arithmetic.
abbrev pub add32 : ℕ → ℕ → ℕ
add32 a b = (a + b) % 2 ^ 32

abbrev pub sub32 : ℕ → ℕ → ℕ
sub32 a b = (a + 2 ^ 32 - b) % 2 ^ 32

abbrev pub add64 : ℕ → ℕ → ℕ
add64 a b = (a + b) % 2 ^ 64

abbrev pub sub64 : ℕ → ℕ → ℕ
sub64 a b = (a + 2 ^ 64 - b) % 2 ^ 64

pub record PointXyzlt : Type 0 where
  pub x : ℕ
  pub y : ℕ
  pub z : ℕ
  pub intensity : ℕ
  pub tag : ℕ
  pub line : ℕ
  pub offset_time : ℕ

-- `points` is the array that the pointer leads to.
pub record PointPacket : Type 0 where
  pub handle : ℕ
  pub lidar_type : ℕ
  pub points_num : ℕ
  pub points : List PointXyzlt

-- Both arrays have kMaxSourceLidar elements.
pub record PointFrame : Type 0 where
  pub base_time : List ℕ
  pub lidar_num : ℕ
  pub lidar_point : List PointPacket

-- No code writes or reads the fields `lidar_type` and `handle` of the struct.
pub record StoragePacket : Type 0 where
  pub base_time : ℕ
  pub points_num : ℕ
  pub points : List PointXyzlt

pub record ImuData : Type 0 where
  pub lidar_type : ℕ
  pub handle : ℕ
  pub time_stamp : ℕ
  pub gyro_x : ℕ
  pub gyro_y : ℕ
  pub gyro_z : ℕ
  pub acc_x : ℕ
  pub acc_y : ℕ
  pub acc_z : ℕ

pub data LidarConnectState : Type 0 where
  off on config sampling : LidarConnectState

-- A path is the list of its bytes.
pub is_file_path_valid : List ℕ → Bool
is_file_path_valid path_str =
    let str_len = length path_str in if ltb 4 str_len && ltb str_len 256 then true else false

-- ReplacePeriodByUnderline: as long as a '.' is found, the first one is replaced.
pub replace_first : List ℕ → List ℕ
replace_first [] = []
replace_first (c ∷ cs) = if c == b'.' then b'_' ∷ cs else c ∷ replace_first cs

pub has_period : List ℕ → Bool
has_period [] = false
has_period (c ∷ cs) = if c == b'.' then true else has_period cs

pub replace_loop : ℕ → List ℕ → List ℕ
replace_loop zero str = str
replace_loop (suc fuel) str = elim (has_period str) [
  | true ↦ replace_loop fuel (replace_first str)
  | false ↦ str
]

-- With as much fuel as the text is long.
pub replace_period_by_underline : List ℕ → List ℕ
unfolding replace_loop replace_first has_period
replace_period_by_underline str = replace_loop (length str) str

pub record ExtParameter : Type 0 where
  pub roll : ℕ
  pub pitch : ℕ
  pub yaw : ℕ
  pub x : ℕ
  pub y : ℕ
  pub z : ℕ

pub record LidarExtParameter : Type 0 where
  pub lidar_type : ℕ
  pub handle : ℕ
  pub param : ExtParameter

-- A signed field is its bit pattern: `pcl_data_type`, `pattern_mode` and `dual_emit_en` of 8 bits,
-- `blind_spot_set` of 32 bits.
pub record UserLivoxLidarConfig : Type 0 where
  pub handle : ℕ
  pub pcl_data_type : ℕ
  pub pattern_mode : ℕ
  pub blind_spot_set : ℕ
  pub dual_emit_en : ℕ
  pub extrinsic_param : ExtParameter
  pub set_bits : ℕ
  pub get_bits : ℕ

-- -1, as an int8_t and as an int32_t.
abbrev pub minus_one8 : ℕ
minus_one8 = 2 ^ 8 - 1

abbrev pub minus_one32 : ℕ
minus_one32 = 2 ^ 32 - 1

pub record RawPacket : Type 0 where
  pub lidar_type : ℕ
  pub handle : ℕ
  pub extrinsic_enable : Bool
  pub point_num : ℕ
  pub data_type : ℕ
  pub line_num : ℕ
  pub time_stamp : ℕ
  pub point_interval : ℕ
  pub raw_data : List ℕ

-- The arrays of floats, element by element.
pub record TranslationVector : Type 0 where
  pub t0 : ℕ
  pub t1 : ℕ
  pub t2 : ℕ

pub record RotationMatrix : Type 0 where
  pub r00 : ℕ
  pub r01 : ℕ
  pub r02 : ℕ
  pub r10 : ℕ
  pub r11 : ℕ
  pub r12 : ℕ
  pub r20 : ℕ
  pub r21 : ℕ
  pub r22 : ℕ

pub record ExtParameterDetailed : Type 0 where
  pub trans : TranslationVector
  pub rotation : RotationMatrix
