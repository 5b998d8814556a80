-- ===== src/Ros1/Main.antt =====
-- livox_ros_driver2.cpp for ROS 1: `main`, up to the start of the threads.
use livox_mid360_rko_lio_ros.Base.{
  ℕ, ◌%◌, ◌^◌, Bool, not, Option, none, some, List, ◌==◌, if◌then◌else◌, replicate, Outcome, ok,
  ◌>>=◌,
}
use livox_mid360_rko_lio_ros.Comm.Float.{FloatUnit}
use livox_mid360_rko_lio_ros.CacheIndex.{CacheIndex}
use livox_mid360_rko_lio_ros.Publish.{PubHandler}
use livox_mid360_rko_lio_ros.Config.{Json}
use livox_mid360_rko_lio_ros.LdsLidar.{Sdk, Started, source_raw_lidar, lds_lidar, init_lds_lidar}
use livox_mid360_rko_lio_ros.Node.{Parameters, transfer_type_of, clamp_publish_freq}
use livox_mid360_rko_lio_ros.Ros1.State.{Ros1Lddc}

-- The parameters that only this build reads, with the number of topics, 0 for one.
pub record Ros1Parameters : Type 0 where
  pub shared : Parameters
  pub multi_topic : ℕ
  pub enable_lidar_bag : Bool
  pub enable_imu_bag : Bool

-- The constructor of Lddc; `multi_topic` and `output_data_type` become 8-bit members.
unfoldable pub new_ros1_lddc : Ros1Parameters → Ros1Lddc
new_ros1_lddc params = record {
  transfer_format = transfer_type_of params.shared.xfer_format;
  use_multi_topic = not (params.multi_topic % 2 ^ 8 == 0);
  output_to_ros = params.shared.output_data_type % 2 ^ 8 == 0;
  frame_id = params.shared.frame_id;
  enable_lidar_bag = params.enable_lidar_bag;
  enable_imu_bag = params.enable_imu_bag;
  lds = none;
  topics = record {
    private_pub = replicate 32 none;
    global_pub = none;
    private_imu_pub = replicate 32 none;
    global_imu_pub = none;
  };
  bag = none;
  msg_seq = 0;
}

pub record Ros1Node : Type 0 where
  pub lddc : Ros1Lddc
  pub started : Option Started

pub ros1_main :
    {Value : Type 0}
    → Json Value
    → (List ℕ → ℕ)
    → (List ℕ → Option (List ℕ))
    → Sdk
    → FloatUnit
    → CacheIndex
    → PubHandler
    → Ros1Parameters
    → Outcome Ros1Node
unfolding new_ros1_lddc
ros1_main json inet_addr file sdk fu cache p params =
    if params.shared.data_src == source_raw_lidar
    then (do
      read_lidar ← lds_lidar (clamp_publish_freq fu params.shared.publish_freq) cache
      started ←
          init_lds_lidar json inet_addr file sdk fu params.shared.user_config_path read_lidar p
      ok (record {
        lddc = record (new_ros1_lddc params) { lds = some started.source.lds };
        started = some started;
      }))
    else ok (record { lddc = new_ros1_lddc params; started = none })
