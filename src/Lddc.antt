-- ===== src/Lddc.antt =====
-- lddc.h and lddc.cpp, built for ROS 2: the queues of the devices are emptied into messages. What is
-- handed to the publisher of an index is returned. `IsRequestExit` does not change during a step.
pub mod Messages
pub mod Drain
pub mod Distribute
pub mod Pipeline
pub mod Publishers
pub mod Imu
pub mod ImuDevices
use livox_mid360_rko_lio_ros.Base.{
  ℕ, zero, suc, ◌+◌, Bool, true, false, not, ◌&&◌, ◌||◌, Option, none, some, List, [], ◌∷◌, ◌++◌,
  ◌==◌, if◌then◌else◌, get_elem?, set, length, Outcome, ok, fault, ◌>>=◌, deref,
}
use livox_mid360_rko_lio_ros.Comm.{PointXyzlt, LidarConnectState, sampling, StoragePacket}
use livox_mid360_rko_lio_ros.Comm.Float.{FloatUnit}
use livox_mid360_rko_lio_ros.Ldq.{LidarDataQueue, queue_is_empty, queue_pop, queue_used_size}
use livox_mid360_rko_lio_ros.ImuQueue
use livox_mid360_rko_lio_ros.ImuQueue.{LidarImuDataQueue}
use livox_mid360_rko_lio_ros.Semaphore.{Semaphore, wait}
use livox_mid360_rko_lio_ros.Lds.{LidarDevice, Lds, is_null}
use livox_mid360_rko_lio_ros.Lddc.Messages.{
  PointCloud2, CustomMsg, ImuMsg, init_pointcloud2_msg, init_custom_msg, fill_points_to_custom_msg,
  init_imu_msg,
}

pub data Message : Type 0 where
  cloud : ℕ → PointCloud2 → Message
  custom : ℕ → CustomMsg → Message
  imu : ℕ → ImuMsg → Message

-- TransferType, without the IMU messages, which are no choice for point clouds. Any other number is
-- `unknown`.
pub data TransferType : Type 0 where
  point_cloud2_msg livox_custom_msg pcl_pxyzi_msg unknown : TransferType

pub record Lddc : Type 0 where
  pub transfer_format : TransferType
  pub output_to_ros : Bool
  pub frame_id : List ℕ
  pub lds : Option Lds

-- False is the result -1.
pub register_lds : Lds → Lddc → Bool × Lddc
register_lds lds self = elim self.lds [
  | none ↦ (true, record self { lds = some lds })
  | some old ↦ (false, self)
]

-- With whether the source's PrepareExit is called.
pub prepare_exit : Lddc → Lddc × Bool
prepare_exit self = elim self.lds [
  | none ↦ (self, false)
  | some lds ↦ (record self { lds = none }, true)
]

-- For a publisher to ROS; a bag file is not written for ROS 2.
pub publish : Lddc → Message → List Message
publish self message = if self.output_to_ros then message ∷ [] else []

module _ (fu : FloatUnit) where
  -- The message of a packet, in `PublishPointcloud2` and in `PublishCustomPointcloud`.
  pub pointcloud2_of : Lddc → ℕ → StoragePacket → Outcome (List Message)
  unfolding publish
  pointcloud2_of self index pkg = do
    msg ← init_pointcloud2_msg fu self.frame_id pkg
    ok (publish self (cloud index msg))

  pub custom_of : Lddc → ℕ → LidarDevice → StoragePacket → Outcome (List Message)
  unfolding publish
  custom_of self index lidar pkg = do
    msg ← fill_points_to_custom_msg fu (init_custom_msg self.frame_id pkg lidar) pkg
    ok (publish self (custom index msg))

-- `if (pkg.points.empty()) { continue; }`
abbrev pub unless_empty : List PointXyzlt → Outcome (List Message) → Outcome (List Message)
unless_empty [] built = ok []
unless_empty (p ∷ ps) built = built

-- The loop of `PublishPointcloud2` and of `PublishCustomPointcloud`: a packet without points is
-- skipped. Without fuel the queue is returned as it is.
pub drain :
    (StoragePacket → Outcome (List Message))
    → ℕ
    → LidarDataQueue
    → Outcome (LidarDataQueue × List Message)
drain build zero queue = ok (queue, [])
drain build (suc fuel) queue = if queue_is_empty queue then ok (queue, []) else (do
  (popped, queue') ← queue_pop queue
  pkg ← deref popped
  messages ← unless_empty pkg.points (build pkg)
  (queue'', rest) ← drain build fuel queue'
  ok (queue'', messages ++ rest))

module _ (fu : FloatUnit) where
  -- With as much fuel as the queue holds packets.
  pub publish_pointcloud2 : Lddc → ℕ → LidarDataQueue → Outcome (LidarDataQueue × List Message)
  unfolding pointcloud2_of drain
  publish_pointcloud2 self index queue =
      drain (pointcloud2_of fu self index) (queue_used_size queue) queue

  pub publish_custom_pointcloud :
      Lddc → ℕ → LidarDevice → LidarDataQueue → Outcome (LidarDataQueue × List Message)
  unfolding custom_of drain
  publish_custom_pointcloud self index lidar queue =
      drain (custom_of fu self index lidar) (queue_used_size queue) queue

  -- For ROS 2 it prints an error and returns.
  pub publish_pcl_msg : LidarDataQueue → Outcome (LidarDataQueue × List Message)
  publish_pcl_msg queue = ok (queue, [])

  -- One round of the loop of `PollingLidarPointCloudData`, by the transfer format.
  pub polling_round :
      TransferType
      → Lddc
      → ℕ
      → LidarDevice
      → LidarDataQueue
      → Outcome (LidarDataQueue × List Message)
  unfolding publish_pointcloud2 publish_custom_pointcloud publish_pcl_msg
  polling_round point_cloud2_msg self index lidar queue = publish_pointcloud2 self index queue
  polling_round livox_custom_msg self index lidar queue =
      publish_custom_pointcloud self index lidar queue
  polling_round pcl_pxyzi_msg self index lidar queue = publish_pcl_msg queue
  polling_round unknown self index lidar queue = ok (queue, [])

  -- The loop, on fuel: `none` if it is still running when the fuel is spent.
  pub polling_loop :
      Bool
      → Lddc
      → ℕ
      → LidarDevice
      → ℕ
      → LidarDataQueue
      → Outcome (Option (LidarDataQueue × List Message))
  unfolding polling_round
  polling_loop request_exit self index lidar zero queue = ok none
  polling_loop request_exit self index lidar (suc fuel) queue =
      if request_exit || queue_is_empty queue then ok (some (queue, [])) else (do
        (queue', messages) ← polling_round self.transfer_format self index lidar queue
        done ← polling_loop request_exit self index lidar fuel queue'
        elim done [ none ↦ ok none | some (queue'', rest) ↦ ok (some (queue'', messages ++ rest)) ])

  -- With fuel for two rounds: the first empties the queue.
  pub polling_lidar_point_cloud_data :
      Bool → Lddc → ℕ → LidarDevice → Outcome (Option (LidarDataQueue × List Message))
  unfolding polling_loop
  polling_lidar_point_cloud_data request_exit self index lidar =
      if is_null lidar.points.storage_packet
      then ok (some (lidar.points, []))
      else polling_loop request_exit self index lidar 2 lidar.points

  pub publish_imu_data : Lddc → ℕ → LidarImuDataQueue → LidarImuDataQueue × List Message
  unfolding publish
  publish_imu_data self index queue =
      let (popped, queue') = ImuQueue.pop queue in
      elim popped [
        | none ↦ (queue', [])
        | some imu_data ↦ (queue', publish self (imu index (init_imu_msg fu imu_data)))
      ]

  -- The loop, with as much fuel as there are samples.
  pub imu_loop : Lddc → ℕ → ℕ → LidarImuDataQueue → LidarImuDataQueue × List Message
  unfolding publish_imu_data
  imu_loop self index zero queue = (queue, [])
  imu_loop self index (suc fuel) queue =
      let (queue', messages) = publish_imu_data self index queue in
      let (queue'', rest) = imu_loop self index fuel queue' in
      if ImuQueue.empty queue then (queue, []) else (queue'', messages ++ rest)

  pub polling_lidar_imu_data :
      Bool → Lddc → ℕ → LidarImuDataQueue → LidarImuDataQueue × List Message
  unfolding imu_loop
  polling_lidar_imu_data request_exit self index queue =
      if request_exit then (queue, []) else imu_loop self index (length queue.imu_data_queue) queue

  abbrev pub is_sampling : LidarConnectState → Bool
  is_sampling sampling = true
  is_sampling _ = false

  -- The loops over the devices, from index `i` on. `none` if a poll loop does not end.
  pub distribute_loop : Lddc → ℕ → ℕ → Lds → List Message → Outcome (Option (Lds × List Message))
  unfolding polling_lidar_point_cloud_data
  distribute_loop self zero i lds sent = ok (some (lds, sent))
  distribute_loop self (suc left) i lds sent = do
    lidar ← deref (get_elem? lds.lidars i)
    polled ←
        (if is_sampling lidar.connect_state
          then polling_lidar_point_cloud_data lds.request_exit self i lidar
          else ok (some (lidar.points, [])))
    elim polled [
      | none ↦ ok none
      | some (points, messages) ↦
          distribute_loop self left (i + 1)
            (record lds { lidars = set lds.lidars i (record lidar { points = points }) })
            (sent ++ messages)
    ]

  pub distribute_imu_loop : Lddc → ℕ → ℕ → Lds → List Message → Outcome (Lds × List Message)
  unfolding polling_lidar_imu_data
  distribute_imu_loop self zero i lds sent = ok (lds, sent)
  distribute_imu_loop self (suc left) i lds sent = do
    lidar ← deref (get_elem? lds.lidars i)
    let (imu_data, messages) =
        if is_sampling lidar.connect_state
        then polling_lidar_imu_data lds.request_exit self i lidar.imu_data
        else (lidar.imu_data, [])
    distribute_imu_loop self left (i + 1)
        (record lds { lidars = set lds.lidars i (record lidar { imu_data = imu_data }) })
        (sent ++ messages)

  -- Behind the semaphore, and behind the request to exit; `none` while the semaphore keeps the
  -- thread waiting, or if a poll loop does not end.
  pub point_cloud_woken : Lddc → Lds → Semaphore → Outcome (Option (Lddc × List Message))
  point_cloud_woken self lds semaphore = do
    done ← distribute_loop self lds.lidar_count 0 (record lds { pcd_semaphore = semaphore }) []
    elim done [
      | none ↦ ok none
      | some (lds', sent) ↦ ok (some (record self { lds = some lds' }, sent))
    ]

  pub point_cloud_wait : Lddc → Lds → Outcome (Option (Lddc × List Message))
  point_cloud_wait self lds = elim (wait lds.pcd_semaphore) [
    | none ↦ ok none
    | some semaphore ↦ point_cloud_woken self lds semaphore
  ]

  pub point_cloud_round : Lddc → Lds → Outcome (Option (Lddc × List Message))
  point_cloud_round self lds =
      if lds.request_exit then ok (some (self, [])) else point_cloud_wait self lds

  pub distribute_point_cloud_data : Lddc → Outcome (Option (Lddc × List Message))
  unfolding point_cloud_round point_cloud_wait point_cloud_woken distribute_loop
  distribute_point_cloud_data self = elim self.lds [
    | none ↦ ok (some (self, []))
    | some lds ↦ point_cloud_round self lds
  ]

  -- Likewise for the samples.
  pub imu_woken : Lddc → Lds → Semaphore → Outcome (Option (Lddc × List Message))
  imu_woken self lds semaphore = do
    (lds', sent) ←
        distribute_imu_loop self lds.lidar_count 0 (record lds { imu_semaphore = semaphore }) []
    ok (some (record self { lds = some lds' }, sent))

  pub imu_wait : Lddc → Lds → Outcome (Option (Lddc × List Message))
  imu_wait self lds = elim (wait lds.imu_semaphore) [
    | none ↦ ok none
    | some semaphore ↦ imu_woken self lds semaphore
  ]

  pub imu_round : Lddc → Lds → Outcome (Option (Lddc × List Message))
  imu_round self lds = if lds.request_exit then ok (some (self, [])) else imu_wait self lds

  pub distribute_imu_data : Lddc → Outcome (Option (Lddc × List Message))
  unfolding imu_round imu_wait imu_woken distribute_imu_loop
  distribute_imu_data self = elim self.lds [
    | none ↦ ok (some (self, []))
    | some lds ↦ imu_round self lds
  ]
