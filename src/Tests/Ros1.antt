-- ===== src/Tests/Ros1.antt =====
-- Sampled devices that hold packets, and the poll thread that writes them into a bag.
use livox_mid360_rko_lio_ros.Base.{
  ℕ, ◌≡◌, refl, true, false, Option, none, some, List, [], ◌∷◌, replicate, get_elem?, arith, ok,
}
use livox_mid360_rko_lio_ros.Semaphore.{wait}
use livox_mid360_rko_lio_ros.Comm.Float.{calculate_packet_queue_size}
use livox_mid360_rko_lio_ros.Lds.{LidarDevice}
use livox_mid360_rko_lio_ros.Lddc.{pcl_pxyzi_msg}
use livox_mid360_rko_lio_ros.Ros1.State.{Topic, Sent, Ros1Lddc}
use livox_mid360_rko_lio_ros.Ros1.Devices.{ros1_distribute_point_cloud_data}
use livox_mid360_rko_lio_ros.Ros1.Deliver.{Delivers}
use livox_mid360_rko_lio_ros.Ros1.Poll.{ros1_from, Ros1Polled}
use livox_mid360_rko_lio_ros.Ros1.Distribute.{ros1_distribute_point_cloud_data_lem}
use livox_mid360_rko_lio_ros.Tests.{number_unit}
use livox_mid360_rko_lio_ros.Tests.Polling.{held, room, queued, table, held-LdsServes}

abbrev no_topics : List (Option Topic)
no_topics = replicate 32 none

abbrev recording : Ros1Lddc
recording = record {
  transfer_format = pcl_pxyzi_msg;
  use_multi_topic = true;
  output_to_ros = false;
  frame_id = 102 ∷ [];
  enable_lidar_bag = true;
  enable_imu_bag = false;
  lds = some held;
  topics = record {
    private_pub = no_topics;
    global_pub = none;
    private_imu_pub = no_topics;
    global_imu_pub = none;
  };
  bag = some (record { file_name = 98 ∷ []; written = [] });
  msg_seq = 0;
}

ros1_distribute_point_cloud_data_lem_example :
    (lidars : List LidarDevice) × (self' : Ros1Lddc) × (sent : List Sent)
    × (ros1_distribute_point_cloud_data (λ handle. 49 ∷ 46 ∷ []) number_unit recording
        ≡ ok (some (self', sent)))
    × (self'.lds ≡ some (record held { pcd_semaphore = record { count = 0 }; lidars = lidars }))
    × Delivers
        (ros1_from number_unit queued table (102 ∷ []) pcl_pxyzi_msg 32 0 0)
        recording
        self'
        sent
    × ((j : ℕ) (d : LidarDevice)
        → get_elem? table j ≡ some d
        → Ros1Polled
            (calculate_packet_queue_size number_unit held.publish_freq)
            room
            queued
            j
            d
            lidars)
unfolding wait
ros1_distribute_point_cloud_data_lem_example =
    ros1_distribute_point_cloud_data_lem (λ handle. 49 ∷ 46 ∷ []) number_unit recording held
      (record { count = 0 }) room queued refl refl refl (omega arith) refl held-LdsServes tt
