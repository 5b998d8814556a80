-- ===== src/Lds.antt =====
-- lds.h and lds.cpp: the lidar data source, which keeps the device table, the two semaphores and
-- the index cache. A pointer argument that the code compares with nullptr is an `Option`.
pub mod Keeps
pub mod Push
pub mod Frame
use livox_mid360_rko_lio_ros.Base.{
  ℕ, zero, suc, ◌+◌, Bool, true, false, not, Option, none, some, List, [], ◌∷◌, leb, ◌==◌,
  if◌then◌else◌, set, get_elem?, Outcome, ok, ◌>>=◌, deref,
}
use livox_mid360_rko_lio_ros.Comm.{
  max_source_lidar, livox_lidar_type, PointPacket, PointFrame, ImuData, LidarConnectState, off,
  sampling, UserLivoxLidarConfig,
}
use livox_mid360_rko_lio_ros.Comm.Float.{FloatUnit, calculate_packet_queue_size}
use livox_mid360_rko_lio_ros.Ldq.{
  Storage, null, LidarDataQueue, init_queue, de_init_queue, queue_is_empty, queue_is_full,
  queue_push_any, queue_used_size,
}
use livox_mid360_rko_lio_ros.ImuQueue
use livox_mid360_rko_lio_ros.ImuQueue.{LidarImuDataQueue}
use livox_mid360_rko_lio_ros.Semaphore.{Semaphore, signal}
use livox_mid360_rko_lio_ros.CacheIndex.{CacheIndex, get_index, lvx_get_index}

-- No code writes or reads the field `firmware_ver`.
pub record LidarDevice : Type 0 where
  pub lidar_type : ℕ
  pub handle : ℕ
  pub data_src : ℕ
  pub connect_state : LidarConnectState
  pub points : LidarDataQueue
  pub imu_data : LidarImuDataQueue
  pub livox_config : UserLivoxLidarConfig

pub record Lds : Type 0 where
  pub lidar_count : ℕ
  pub lidars : List LidarDevice
  pub pcd_semaphore : Semaphore
  pub imu_semaphore : Semaphore
  pub cache : CacheIndex
  pub publish_freq : ℕ
  pub data_src : ℕ
  pub request_exit : Bool

unfoldable pub reset_lidar : LidarDevice → ℕ → Outcome LidarDevice
reset_lidar lidar data_src = do
  points ← de_init_queue lidar.points
  ok (record lidar {
    points = points;
    imu_data = ImuQueue.clear lidar.imu_data;
    data_src = data_src;
    connect_state = off;
  })

pub set_lidar_data_src : LidarDevice → ℕ → LidarDevice
set_lidar_data_src lidar data_src = record lidar { data_src = data_src }

-- The loop of `ResetLds` over the device table.
unfoldable pub reset_lidars : List LidarDevice → ℕ → Outcome (List LidarDevice)
reset_lidars [] data_src = ok []
reset_lidars (lidar ∷ rest) data_src = do
  lidar' ← reset_lidar lidar data_src
  rest' ← reset_lidars rest data_src
  ok (lidar' ∷ rest')

unfoldable pub reset_lds : ℕ → Lds → Outcome Lds
reset_lds data_src s = do
  lidars ← reset_lidars s.lidars data_src
  ok (record s { lidar_count = max_source_lidar; lidars = lidars })

pub request_exit : Lds → Lds
request_exit s = record s { request_exit = true }

-- The loops of `IsAllQueueEmpty` and `IsAllQueueReadStop`, from index `i` on.
pub all_empty_loop : ℕ → ℕ → Lds → Outcome Bool
all_empty_loop zero i s = ok true
all_empty_loop (suc left) i s = do
  lidar ← deref (get_elem? s.lidars i)
  let rest = all_empty_loop left (i + 1) s
  if not (queue_is_empty lidar.points) then ok false else rest

pub is_all_queue_empty : Lds → Outcome Bool
unfolding all_empty_loop
is_all_queue_empty s = all_empty_loop s.lidar_count 0 s

pub read_stop_loop : ℕ → ℕ → Lds → Outcome Bool
read_stop_loop zero i s = ok true
read_stop_loop (suc left) i s = do
  lidar ← deref (get_elem? s.lidars i)
  let rest = read_stop_loop left (i + 1) s
  if not (queue_used_size lidar.points == 0) then ok false else rest

pub is_all_queue_read_stop : Lds → Outcome Bool
unfolding read_stop_loop
is_all_queue_read_stop s = read_stop_loop s.lidar_count 0 s

-- `if (semaphore.GetCount() <= 0) { semaphore.Signal(); }`
abbrev pub signal_if_zero : Semaphore → Semaphore
signal_if_zero sem = if leb sem.count 0 then signal sem else sem

unfoldable pub storage_imu_data : ImuData → Lds → Outcome Lds
storage_imu_data imu_data s =
    if imu_data.lidar_type == livox_lidar_type
    then elim (get_index imu_data.lidar_type imu_data.handle s.cache) [
      | none ↦ ok s
      | some index ↦ do
        lidar ← deref (get_elem? s.lidars index)
        let imu_queue = ImuQueue.push lidar.imu_data imu_data
        ok (record s {
          lidars = set s.lidars index (record lidar { imu_data = imu_queue });
          imu_semaphore =
              if not (ImuQueue.empty imu_queue)
              then signal_if_zero s.imu_semaphore
              else s.imu_semaphore;
        })
    ]
    else ok s

-- `nullptr == queue->storage_packet`
abbrev pub is_null : Storage → Bool
is_null null = true
is_null other = false

module _ (fu : FloatUnit) where
  -- The first packet of a lidar allocates its queue.
  unfoldable pub ensure_queue : LidarDataQueue → ℕ → Outcome LidarDataQueue
  ensure_queue queue publish_freq =
      if is_null queue.storage_packet
      then init_queue queue (calculate_packet_queue_size fu publish_freq)
      else ok queue

  pub push_lidar_data : Option PointPacket → ℕ → ℕ → Lds → Outcome Lds
  unfolding ensure_queue
  push_lidar_data none index base_time s = ok s
  push_lidar_data (some lidar_data) index base_time s = do
    lidar ← deref (get_elem? s.lidars index)
    queue ← ensure_queue lidar.points s.publish_freq
    elim (queue_is_full queue) [
      | false ↦ do
        queue' ← queue_push_any queue lidar_data base_time
        ok (record s {
          lidars = set s.lidars index (record lidar { points = queue' });
          pcd_semaphore =
              if not (queue_is_empty queue')
              then signal_if_zero s.pcd_semaphore
              else s.pcd_semaphore;
        })
      | true ↦ ok (record s {
        lidars = set s.lidars index (record lidar { points = queue });
        pcd_semaphore = signal_if_zero s.pcd_semaphore;
      })
    ]

  -- The body of the loop of `StoragePointData`.
  pub storage_point : PointPacket → ℕ → Lds → Outcome Lds
  storage_point lidar_point base_time s =
      elim (get_index lidar_point.lidar_type lidar_point.handle s.cache) [
        | none ↦ ok s
        | some index ↦ push_lidar_data (some lidar_point) index base_time s
      ]

  -- The loop of `StoragePointData` from packet `i` on, with the packets that are left.
  pub storage_point_loop : ℕ → ℕ → PointFrame → Lds → Outcome Lds
  storage_point_loop zero i frame s = ok s
  storage_point_loop (suc left) i frame s = do
    lidar_point ← deref (get_elem? frame.lidar_point i)
    base_time ← deref (get_elem? frame.base_time i)
    s' ← storage_point lidar_point base_time s
    storage_point_loop left (i + 1) frame s'

  pub storage_point_data : Option PointFrame → Lds → Outcome Lds
  unfolding storage_point storage_point_loop
  storage_point_data none s = ok s
  storage_point_data (some frame) s = storage_point_loop frame.lidar_num 0 frame s

  pub storage_lvx_loop : ℕ → ℕ → PointFrame → Lds → Outcome Lds
  storage_lvx_loop zero i frame s = ok s
  storage_lvx_loop (suc left) i frame s = do
    lidar_point ← deref (get_elem? frame.lidar_point i)
    base_time ← deref (get_elem? frame.base_time i)
    let (found, cache') = lvx_get_index lidar_point.lidar_type lidar_point.handle s.cache
    s' ← elim found [
      | none ↦ ok (record s { cache = cache' })
      | some index ↦ do
        lidar ← deref (get_elem? s.lidars index)
        push_lidar_data (some lidar_point) index base_time (record s {
          cache = cache';
          lidars = set s.lidars index (record lidar { connect_state = sampling });
        })
    ]
    storage_lvx_loop left (i + 1) frame s'

  pub storage_lvx_point_data : Option PointFrame → Lds → Outcome Lds
  unfolding storage_lvx_loop
  storage_lvx_point_data none s = ok s
  storage_lvx_point_data (some frame) s = storage_lvx_loop frame.lidar_num 0 frame s
