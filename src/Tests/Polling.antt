-- ===== src/Tests/Polling.antt =====
-- The poll loop of a device whose ring holds one packet.
use livox_mid360_rko_lio_ros.Base.{
  ℕ, zero, suc, ◌≡◌, refl, subst, true, false, none, some, List, [], ◌∷◌, arith, replicate,
  get_elem?, ok,
}
use livox_mid360_rko_lio_ros.Comm.{sampling}
use livox_mid360_rko_lio_ros.Comm.Float.{calculate_packet_queue_size}
use livox_mid360_rko_lio_ros.Semaphore.{wait}
use livox_mid360_rko_lio_ros.Ldq.{LidarDataQueue}
use livox_mid360_rko_lio_ros.Ldq.Fifo.{Holds, sizes_of_Holds}
use livox_mid360_rko_lio_ros.Lds.{LidarDevice, Lds}
use livox_mid360_rko_lio_ros.Lds.Push.{Serves, live}
use livox_mid360_rko_lio_ros.Lds.Frame.{Queues, LdsServes}
use livox_mid360_rko_lio_ros.Lddc.{
  Lddc, TransferType, livox_custom_msg, pcl_pxyzi_msg, polling_loop, polling_lidar_point_cloud_data,
  point_cloud2_msg, distribute_point_cloud_data,
}
use livox_mid360_rko_lio_ros.Lddc.Distribute.{sent_from, Polled, distribute_point_cloud_data_lem}
use livox_mid360_rko_lio_ros.Lddc.Drain.{made_by, messages_of, polling_lem, polling_loop_spins}
use livox_mid360_rko_lio_ros.Tests.{number_unit, ring, device, lds}
use livox_mid360_rko_lio_ros.Tests.Queue.{one, ring-Holds}
use livox_mid360_rko_lio_ros.Tests.Cache.{cache-IsValid}
use livox_mid360_rko_lio_ros.Tests.Devices.{get_elem?-replicate, device-Serves}

abbrev filled : LidarDevice
filled = record device { points = ring }

abbrev pub distributor : TransferType → Lddc
distributor format = record {
  transfer_format = format;
  output_to_ros = true;
  frame_id = [];
  lds = some lds;
}

polling_lem_example :
    (queue : LidarDataQueue) × (polling_lidar_point_cloud_data number_unit false
        (distributor livox_custom_msg)
        0
        filled
      ≡ ok (
          some (
            queue,
            messages_of
                (made_by number_unit livox_custom_msg (distributor livox_custom_msg) 0 filled)
                one,
          )))
    × Holds 1 queue []
polling_lem_example =
    polling_lem number_unit (distributor livox_custom_msg) 0 filled 1 one tt ring-Holds

polling_loop_spins_example :
    polling_loop number_unit false (distributor pcl_pxyzi_msg) 0 filled 1000 ring ≡ ok none
polling_loop_spins_example =
    polling_loop_spins number_unit (distributor pcl_pxyzi_msg) 0 filled ring refl
      ((sizes_of_Holds ring-Holds).2) 1000

-- A table whose first device is sampled from and holds a packet.
abbrev sampled : LidarDevice
sampled = record filled { connect_state = sampling }

abbrev pub table : List LidarDevice
table = sampled ∷ replicate 31 device

abbrev pub held : Lds
held = record lds { lidars = table; pcd_semaphore = record { count = 1 } }

abbrev pub room : ℕ → ℕ
room zero = 1
room (suc j) = 4

abbrev pub queued : Queues
queued zero = one
queued (suc j) = []

table-Serves :
    (i : ℕ) (d : LidarDevice) → get_elem? table i ≡ some d → Serves 10 (room i) d.points (queued i)
table-Serves zero d at =
    let known : sampled ≡ d = cc in
    subst (λ (e : LidarDevice). Serves 10 1 e.points one) known (live ring-Holds)
table-Serves (suc i) d at =
    subst (λ (e : LidarDevice). Serves 10 4 e.points []) (get_elem?-replicate 31 i d at)
      device-Serves

pub held-LdsServes : LdsServes number_unit held room queued
unfolding calculate_packet_queue_size
held-LdsServes = record {
  devices = refl;
  valid_cache = cache-IsValid;
  small = omega arith;
  serves = table-Serves;
}

abbrev holder : Lddc
holder = record (distributor point_cloud2_msg) { lds = some held }

distribute_point_cloud_data_lem_example :
    (lidars : List LidarDevice) × (distribute_point_cloud_data number_unit holder
      ≡ ok (
          some (
            record holder {
              lds = some (record held { pcd_semaphore = record { count = 0 }; lidars = lidars });
            },
            sent_from number_unit holder
                (calculate_packet_queue_size number_unit held.publish_freq)
                room
                queued
                table
                32
                0,
          )))
    × ((j : ℕ) (d : LidarDevice)
        → get_elem? table j ≡ some d
        → Polled number_unit holder
            (calculate_packet_queue_size number_unit held.publish_freq)
            room
            queued
            table
            j
            d
            lidars)
unfolding wait
distribute_point_cloud_data_lem_example =
    distribute_point_cloud_data_lem number_unit holder held (record { count = 0 }) room queued refl
      refl refl refl held-LdsServes tt
