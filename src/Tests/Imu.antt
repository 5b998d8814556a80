-- ===== src/Tests/Imu.antt =====
-- Two IMU packets of lidar 7, the first with the time of the lidar, the second with the clock's.
use livox_mid360_rko_lio_ros.Base.{
  ℕ, ◌≡◌, refl, some, List, [], ◌∷◌, map, arith, set, replicate, ok, true,
}
use livox_mid360_rko_lio_ros.Comm.{sampling}
use livox_mid360_rko_lio_ros.Semaphore.{Semaphore}
use livox_mid360_rko_lio_ros.Lds.{LidarDevice, Lds}
use livox_mid360_rko_lio_ros.Publish.{EthernetPacket, PubHandler}
use livox_mid360_rko_lio_ros.Publish.ImuSamples.{Reading, IsImuPacket}
use livox_mid360_rko_lio_ros.Lddc.{point_cloud2_msg, distribute_imu_data}
use livox_mid360_rko_lio_ros.Lddc.ImuDevices.{imu_drained, imu_sent_from}
use livox_mid360_rko_lio_ros.Flow.Imu.{receive, samples_of, with_samples, receive-distribute}
use livox_mid360_rko_lio_ros.Tests.{number_unit, device, lds}
use livox_mid360_rko_lio_ros.Tests.Cache.{registered}
use livox_mid360_rko_lio_ros.Tests.Points.{publisher}
use livox_mid360_rko_lio_ros.Tests.Polling.{distributor}

-- 300 as a stamp; the words 1 to 6.
abbrev reading : Reading
reading = record {
  stamp = 300;
  gyro_x = 1;
  gyro_y = 2;
  gyro_z = 3;
  acc_x = 4;
  acc_y = 5;
  acc_z = 6;
}

abbrev imu_packet : ℕ → EthernetPacket
imu_packet time_type = record {
  length = 60;
  time_interval = 0;
  dot_num = 1;
  data_type = 0;
  time_type = time_type;
  timestamp = 44 ∷ 1 ∷ 0 ∷ 0 ∷ 0 ∷ 0 ∷ 0 ∷ 0 ∷ [];
  payload =
      1 ∷ 0 ∷ 0 ∷ 0 ∷ 2 ∷ 0 ∷ 0 ∷ 0 ∷ 3 ∷ 0 ∷ 0 ∷ 0 ∷ 4 ∷ 0 ∷ 0 ∷ 0 ∷ 5 ∷ 0 ∷ 0 ∷ 0 ∷ 6 ∷ 0 ∷ 0 ∷ 0
      ∷ [];
}

imu_packet-IsImuPacket : (time_type : ℕ) → IsImuPacket (imu_packet time_type) reading []
imu_packet-IsImuPacket time_type = record {
  typed = refl;
  stamped = refl;
  payload = refl;
  stamp_width = omega arith;
  gyro_width = omega arith;
  acc_width = omega arith;
}

abbrev awake : LidarDevice
awake = record device { connect_state = sampling }

abbrev sampled : Lds
sampled = record lds { lidars = awake ∷ replicate 31 device }

abbrev listening : PubHandler
listening = record publisher { imu_callback = true }

abbrev later : List (ℕ × EthernetPacket)
later = (6000, imu_packet 0) ∷ []

abbrev readings : List Reading
readings = reading ∷ reading ∷ []

abbrev filled : List LidarDevice
filled =
    set sampled.lidars 0 (with_samples awake (samples_of 7 ((5000, imu_packet 1) ∷ later) readings))

receive-distribute_example :
    (p' : PubHandler) × (s' : Lds) × (semaphore : Semaphore) × (receive 7 9
        ((5000, imu_packet 1) ∷ later)
        (some listening)
        (some sampled)
      ≡ ok (some p', some s'))
    × (p'.raw_packet_queue ≡ [])
    × (distribute_imu_data number_unit (record (distributor point_cloud2_msg) { lds = some s' })
        ≡ ok (
            some (
              record (distributor point_cloud2_msg) {
                lds =
                    some (record sampled {
                      lidars = map imu_drained filled;
                      imu_semaphore = semaphore;
                    });
              },
              imu_sent_from number_unit
                  (record (distributor point_cloud2_msg) { lds = some s' })
                  0
                  filled,
            )))
receive-distribute_example =
    receive-distribute number_unit (distributor point_cloud2_msg) 7 9 0 (5000, imu_packet 1) later
      readings listening sampled awake
      (([], imu_packet-IsImuPacket 1), (([], imu_packet-IsImuPacket 0), tt)) refl registered refl
      refl refl
