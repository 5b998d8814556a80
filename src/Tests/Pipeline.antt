-- ===== src/Tests/Pipeline.antt =====
-- A frame of two packets from the lidar at index 0, which is sampled and holds a packet already,
-- through the queues and out to the messages.
use livox_mid360_rko_lio_ros.Base.{ℕ, ◌-◌, ◌≡◌, refl, some, List, get_elem?, ok, inl}
use livox_mid360_rko_lio_ros.Comm.Float.{calculate_packet_queue_size}
use livox_mid360_rko_lio_ros.Lds.{LidarDevice, Lds, storage_point_data}
use livox_mid360_rko_lio_ros.Lds.Keeps.{AnyKnown}
use livox_mid360_rko_lio_ros.Lds.Frame.{LdsServes, packets_from, store}
use livox_mid360_rko_lio_ros.Lddc.{point_cloud2_msg, distribute_point_cloud_data}
use livox_mid360_rko_lio_ros.Lddc.Distribute.{sent_from, Polled}
use livox_mid360_rko_lio_ros.Lddc.Pipeline.{storage-distribute}
use livox_mid360_rko_lio_ros.Tests.{number_unit, cache}
use livox_mid360_rko_lio_ros.Tests.Cache.{registered}
use livox_mid360_rko_lio_ros.Tests.Devices.{frame, frame-IsFrame}
use livox_mid360_rko_lio_ros.Tests.Polling.{distributor, held, room, queued, table, held-LdsServes}

-- The poll thread waits.
abbrev waiting : Lds
waiting = record held { pcd_semaphore = record { count = 0 } }

waiting-LdsServes : LdsServes number_unit waiting room queued
waiting-LdsServes = record {
  devices = held-LdsServes.devices;
  valid_cache = held-LdsServes.valid_cache;
  small = held-LdsServes.small;
  serves = held-LdsServes.serves;
}

known : AnyKnown cache (packets_from 2 0 frame)
unfolding packets_from
known = inl (0, registered)

storage-distribute_example :
    (s' : Lds) × (lidars : List LidarDevice) × (storage_point_data number_unit (some frame) waiting
      ≡ ok s')
    × (distribute_point_cloud_data number_unit
          (record (distributor point_cloud2_msg) { lds = some s' })
        ≡ ok (
            some (
              record (distributor point_cloud2_msg) {
                lds = some (record s' {
                  pcd_semaphore = record { count = s'.pcd_semaphore.count - 1 };
                  lidars = lidars;
                });
              },
              sent_from number_unit
                  (record (distributor point_cloud2_msg) { lds = some s' })
                  (calculate_packet_queue_size number_unit s'.publish_freq)
                  room
                  (store room cache (packets_from 2 0 frame) queued)
                  table
                  32
                  0,
            )))
    × ((j : ℕ) (d : LidarDevice)
        → get_elem? s'.lidars j ≡ some d
        → Polled number_unit
            (record (distributor point_cloud2_msg) { lds = some s' })
            (calculate_packet_queue_size number_unit s'.publish_freq)
            room
            (store room cache (packets_from 2 0 frame) queued)
            s'.lidars
            j
            d
            lidars)
storage-distribute_example =
    storage-distribute number_unit (distributor point_cloud2_msg) waiting room queued frame
      waiting-LdsServes frame-IsFrame known refl refl tt
