-- ===== src/Ros1/Devices.antt =====
-- lddc.cpp for ROS 1: the rounds of the two poll threads over the devices.
use livox_mid360_rko_lio_ros.Base.{
  ℕ, zero, suc, ◌+◌, Bool, Option, none, some, List, [], ◌++◌, if◌then◌else◌, length, set,
  get_elem?, Outcome, ok, ◌>>=◌, deref,
}
use livox_mid360_rko_lio_ros.Comm.Float.{FloatUnit}
use livox_mid360_rko_lio_ros.Ldq.{LidarDataQueue}
use livox_mid360_rko_lio_ros.Semaphore.{Semaphore, wait}
use livox_mid360_rko_lio_ros.Lds.{LidarDevice, Lds, is_null}
use livox_mid360_rko_lio_ros.ImuQueue
use livox_mid360_rko_lio_ros.ImuQueue.{LidarImuDataQueue}
use livox_mid360_rko_lio_ros.Lddc.{is_sampling}
use livox_mid360_rko_lio_ros.Ros1.State.{Sent, Ros1Lddc}
use livox_mid360_rko_lio_ros.Ros1.Publish.{ros1_polling_loop, ros1_publish_imu_data}

module _ (inet_ntoa : ℕ → List ℕ) (fu : FloatUnit) where
  -- With fuel for two rounds. `none` if the loop is still running then.
  unfoldable pub ros1_polling_lidar_point_cloud_data :
      Bool
      → List LidarDevice
      → ℕ
      → LidarDevice
      → Ros1Lddc
      → Outcome (Option (LidarDataQueue × Ros1Lddc × List Sent))
  unfolding ros1_polling_loop
  ros1_polling_lidar_point_cloud_data request_exit lidars index lidar self =
      if is_null lidar.points.storage_packet
      then ok (some (lidar.points, self, []))
      else ros1_polling_loop inet_ntoa fu request_exit lidars index lidar 2 lidar.points self

  -- With as much fuel as there are samples.
  pub ros1_imu_loop :
      List LidarDevice
      → ℕ
      → ℕ
      → LidarImuDataQueue
      → Ros1Lddc
      → Outcome (LidarImuDataQueue × Ros1Lddc × List Sent)
  unfolding ros1_publish_imu_data
  ros1_imu_loop lidars index zero queue self = ok (queue, self, [])
  ros1_imu_loop lidars index (suc fuel) queue self =
      if ImuQueue.empty queue then ok (queue, self, []) else (do
        (queue', self', sent) ← ros1_publish_imu_data inet_ntoa fu lidars index queue self
        (queue'', self'', rest) ← ros1_imu_loop lidars index fuel queue' self'
        ok (queue'', self'', sent ++ rest))

  pub ros1_polling_lidar_imu_data :
      Bool
      → List LidarDevice
      → ℕ
      → LidarImuDataQueue
      → Ros1Lddc
      → Outcome (LidarImuDataQueue × Ros1Lddc × List Sent)
  unfolding ros1_imu_loop
  ros1_polling_lidar_imu_data request_exit lidars index queue self =
      if request_exit
      then ok (queue, self, [])
      else ros1_imu_loop lidars index (length queue.imu_data_queue) queue self

  -- The loops over the devices, from index `i` on. `none` if a poll loop does not end.
  unfoldable pub ros1_distribute_loop :
      ℕ → ℕ → Lds → Ros1Lddc → List Sent → Outcome (Option (Lds × Ros1Lddc × List Sent))
  unfolding ros1_polling_lidar_point_cloud_data
  ros1_distribute_loop zero i lds self sent = ok (some (lds, self, sent))
  ros1_distribute_loop (suc left) i lds self sent = do
    lidar ← deref (get_elem? lds.lidars i)
    polled ←
        (if is_sampling fu lidar.connect_state
          then ros1_polling_lidar_point_cloud_data lds.request_exit lds.lidars i lidar self
          else ok (some (lidar.points, self, [])))
    elim polled [
      | none ↦ ok none
      | some (points, self', more) ↦
          ros1_distribute_loop left (i + 1)
            (record lds { lidars = set lds.lidars i (record lidar { points = points }) }) self'
            (sent ++ more)
    ]

  pub ros1_distribute_imu_loop :
      ℕ → ℕ → Lds → Ros1Lddc → List Sent → Outcome (Lds × Ros1Lddc × List Sent)
  unfolding ros1_polling_lidar_imu_data
  ros1_distribute_imu_loop zero i lds self sent = ok (lds, self, sent)
  ros1_distribute_imu_loop (suc left) i lds self sent = do
    lidar ← deref (get_elem? lds.lidars i)
    (imu_data, self', more) ←
        (if is_sampling fu lidar.connect_state
          then ros1_polling_lidar_imu_data lds.request_exit lds.lidars i lidar.imu_data self
          else ok (lidar.imu_data, self, []))
    ros1_distribute_imu_loop left (i + 1)
        (record lds { lidars = set lds.lidars i (record lidar { imu_data = imu_data }) }) self'
        (sent ++ more)

  -- Behind the semaphore, and behind the request to exit; `none` while the semaphore keeps the
  -- thread waiting, or if a poll loop does not end.
  unfoldable pub ros1_woken : Lds → Semaphore → Ros1Lddc → Outcome (Option (Ros1Lddc × List Sent))
  unfolding ros1_distribute_loop
  ros1_woken lds semaphore self = do
    done ← ros1_distribute_loop lds.lidar_count 0 (record lds { pcd_semaphore = semaphore }) self []
    elim done [
      | none ↦ ok none
      | some (lds', self', sent) ↦ ok (some (record self' { lds = some lds' }, sent))
    ]

  unfoldable pub ros1_wait : Lds → Ros1Lddc → Outcome (Option (Ros1Lddc × List Sent))
  ros1_wait lds self = elim (wait lds.pcd_semaphore) [
    | none ↦ ok none
    | some semaphore ↦ ros1_woken lds semaphore self
  ]

  unfoldable pub ros1_round : Lds → Ros1Lddc → Outcome (Option (Ros1Lddc × List Sent))
  ros1_round lds self = if lds.request_exit then ok (some (self, [])) else ros1_wait lds self

  unfoldable pub ros1_distribute_point_cloud_data :
      Ros1Lddc → Outcome (Option (Ros1Lddc × List Sent))
  unfolding ros1_round ros1_wait ros1_woken
  ros1_distribute_point_cloud_data self = elim self.lds [
    | none ↦ ok (some (self, []))
    | some lds ↦ ros1_round lds self
  ]

  pub ros1_distribute_imu_data : Ros1Lddc → Outcome (Option (Ros1Lddc × List Sent))
  unfolding ros1_distribute_imu_loop
  ros1_distribute_imu_data self = elim self.lds [
    | none ↦ ok (some (self, []))
    | some lds ↦ if lds.request_exit then ok (some (self, [])) else elim (wait lds.imu_semaphore) [
      | none ↦ ok none
      | some semaphore ↦ do
        (lds', self', sent) ←
            ros1_distribute_imu_loop lds.lidar_count 0 (record lds { imu_semaphore = semaphore })
              self []
        ok (some (record self' { lds = some lds' }, sent))
    ]
  ]
