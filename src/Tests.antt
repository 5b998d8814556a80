-- ===== src/Tests.antt =====
-- Concrete inputs for the theorems: a small ring, a device table with one known lidar, a packet, and a
-- floating-point unit that computes on the bits as on numbers.
mod Queue
mod Cache
mod Points
mod Devices
mod Polling
mod Flow
mod Pipeline
mod Arrival
mod Config
mod Topics
mod Node
mod Imu
mod Ros1
use livox_mid360_rko_lio_ros.Base.{
  ℕ, ◌+◌, ◌-◌, ◌*◌, ◌/◌, ◌%◌, ◌^◌, false, Option, none, some, List, [], ◌∷◌, replicate,
}
use livox_mid360_rko_lio_ros.Comm.{
  PointXyzlt, PointPacket, StoragePacket, RawPacket, ExtParameter, UserLivoxLidarConfig, off,
}
use livox_mid360_rko_lio_ros.Comm.Float.{FloatUnit}
use livox_mid360_rko_lio_ros.Ldq.{LidarDataQueue, slots, null}
use livox_mid360_rko_lio_ros.Lds.{LidarDevice, Lds}
use livox_mid360_rko_lio_ros.CacheIndex.{CacheIndex, cache_index, get_free_index}

abbrev pub number_unit : FloatUnit
number_unit = record {
  d_lt = λ a b. false;
  d_to_u32 = λ a. a;
  d_to_u64 = λ a. a;
  d_of_u32 = λ a. a;
  d_of_u64 = λ a. a;
  d_of_i32 = λ a. a;
  d_of_f = λ a. a;
  d_add = ◌+◌;
  d_sub = ◌-◌;
  d_mul = ◌*◌;
  d_div = ◌/◌;
  d_neg = λ a. a;
  d_cos = λ a. a;
  d_sin = λ a. a;
  f_of_d = λ a. a;
  f_of_i32 = λ a. a;
  f_of_u8 = λ a. a;
  f_to_u8 = λ a. a % 2 ^ 8;
  f_add = ◌+◌;
  f_mul = ◌*◌;
}

abbrev pub point : PointXyzlt
point = record { x = 1; y = 2; z = 3; intensity = 4; tag = 0; line = 1; offset_time = 900 }

abbrev pub packet : PointPacket
packet = record { handle = 7; lidar_type = 8; points_num = 1; points = point ∷ [] }

abbrev pub held_packet : StoragePacket
held_packet = record { base_time = 900; points_num = 1; points = point ∷ [] }

-- Two slots, the first of them in use, before the indices wrap.
abbrev pub ring : LidarDataQueue
ring = record {
  storage_packet = slots (none ∷ some held_packet ∷ []);
  rd_idx = 2 ^ 32 - 1;
  wr_idx = 0;
  mask = 1;
  size = 2;
}

abbrev pub config : UserLivoxLidarConfig
config = record {
  handle = 7;
  pcl_data_type = 1;
  pattern_mode = 2 ^ 8 - 1;
  blind_spot_set = 50;
  dual_emit_en = 2 ^ 8 - 1;
  extrinsic_param = record { roll = 0; pitch = 0; yaw = 0; x = 0; y = 0; z = 0 };
  set_bits = 0;
  get_bits = 0;
}

abbrev pub device : LidarDevice
device = record {
  lidar_type = 8;
  handle = 7;
  data_src = 0;
  connect_state = off;
  points = record { storage_packet = null; rd_idx = 0; wr_idx = 0; mask = 0; size = 0 };
  imu_data = record { imu_data_queue = [] };
  livox_config = config;
}

-- The cache after lidar 7 has registered, at index 0.
abbrev pub cache : CacheIndex
cache = (get_free_index 8 7 cache_index).1

abbrev pub lds : Lds
lds = record {
  lidar_count = 32;
  lidars = replicate 32 device;
  pcd_semaphore = record { count = 0 };
  imu_semaphore = record { count = 0 };
  cache = cache;
  publish_freq = 0x4024000000000000;
  data_src = 0;
  request_exit = false;
}
