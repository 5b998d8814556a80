-- ===== src/ImuQueue.antt =====
-- comm/lidar_imu_data_queue.h and comm/lidar_imu_data_queue.cpp: the queue of IMU samples of one
-- lidar, a std::list under a lock.
use livox_mid360_rko_lio_ros.Base.{Bool, true, false, Option, none, some, List, [], ◌∷◌, ◌++◌}
use livox_mid360_rko_lio_ros.Comm.{ImuData}

pub record LidarImuDataQueue : Type 0 where
  pub imu_data_queue : List ImuData

-- The fields are copied one by one (`slot` is not copied, and no code reads it).
unfoldable pub push : LidarImuDataQueue → ImuData → LidarImuDataQueue
push q imu_data = record { imu_data_queue = q.imu_data_queue ++ sample ∷ [] }
  where
    sample : ImuData
    sample = record {
      lidar_type = imu_data.lidar_type;
      handle = imu_data.handle;
      time_stamp = imu_data.time_stamp;
      gyro_x = imu_data.gyro_x;
      gyro_y = imu_data.gyro_y;
      gyro_z = imu_data.gyro_z;
      acc_x = imu_data.acc_x;
      acc_y = imu_data.acc_y;
      acc_z = imu_data.acc_z;
    }

-- `none` is the return value false.
unfoldable pub pop : LidarImuDataQueue → Option ImuData × LidarImuDataQueue
pop q = elim q.imu_data_queue [
  | [] ↦ (none, q)
  | front ∷ rest ↦ (some front, record { imu_data_queue = rest })
]

unfoldable pub empty : LidarImuDataQueue → Bool
empty q = elim q.imu_data_queue [ [] ↦ true | front ∷ rest ↦ false ]

unfoldable pub clear : LidarImuDataQueue → LidarImuDataQueue
clear q = record { imu_data_queue = [] }
