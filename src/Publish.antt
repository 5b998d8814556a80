-- ===== src/Publish.antt =====
-- The class PubHandler of comm/pub_handler.h and comm/pub_handler.cpp: packets of the SDK are queued,
-- decoded by the lidar's LidarPubHandler, and published as frames. What the two registered callbacks
-- are called with is returned. `packet_mutex_` makes the access to the queue one step; a reading of the
-- clock, in nanoseconds, is the argument `now`.
pub mod Arrival
pub mod Collect
pub mod Keys
pub mod Known
pub mod Carry
pub mod Conserve
pub mod Round
pub mod Rounds
pub mod Stored
pub mod ImuSamples
use livox_mid360_rko_lio_ros.Base.{
  ℕ, zero, suc, ◌+◌, ◌-◌, ◌*◌, ◌/◌, ◌%◌, ◌^◌, Bool, true, false, not, ◌||◌, Option, none, some,
  List, [], ◌∷◌, ◌++◌, ltb, leb, ◌==◌, if◌then◌else◌, set, take, length, Outcome, fault, ok, ◌>>=◌,
  deref,
}
use livox_mid360_rko_lio_ros.Base.Dict.{Dict, find, insert, nat_key}
use livox_mid360_rko_lio_ros.Comm.{
  livox_lidar_type, ns_per_second, ns_tolerant_frame_time_deviation, ratio_of_ms_to_ns, add64,
  sub32, sub64, PointXyzlt, PointPacket, PointFrame, ImuData, LidarExtParameter, RawPacket,
}
use livox_mid360_rko_lio_ros.Comm.Float.{FloatUnit, d_ten}
use livox_mid360_rko_lio_ros.Points.Bytes.{read_at, checked_mod, checked_div}
use livox_mid360_rko_lio_ros.Points.{
  LidarPubHandler, new_lidar_pub_handler, get_lidar_base_time, get_recent_time_stamp,
  get_lidar_point_clouds, point_cloud_process,
}
use livox_mid360_rko_lio_ros.Points.Extrinsic.{set_lidars_ext_param}

-- The fields of LivoxLidarEthernetPacket that the driver reads; `payload` is the memory from the field
-- `data` on, as far as it belongs to the packet.
pub record EthernetPacket : Type 0 where
  pub length : ℕ
  pub time_interval : ℕ
  pub dot_num : ℕ
  pub data_type : ℕ
  pub time_type : ℕ
  pub timestamp : List ℕ
  pub payload : List ℕ

-- The two callbacks are set or not; `thread_started` stands for `point_process_thread_`, and
-- `first` for the static variable of `CheckTimer`.
pub record PubHandler : Type 0 where
  pub is_quit : Bool
  pub thread_started : Bool
  pub points_callback : Bool
  pub imu_callback : Bool
  pub frame : PointFrame
  pub raw_packet_queue : List RawPacket
  pub publish_interval : ℕ
  pub publish_interval_tolerance : ℕ
  pub publish_interval_ms : ℕ
  pub first : Bool
  pub last_pub_time : ℕ
  pub lidar_process_handlers : Dict ℕ LidarPubHandler
  pub points : Dict ℕ (List PointXyzlt)
  pub lidar_extrinsics : Dict ℕ LidarExtParameter
  pub is_timestamp_sync : Bool
  pub lidar_listen_id : ℕ

pub request_exit : PubHandler → PubHandler
request_exit self = record self { is_quit = true }

-- With the observer that the SDK is told to remove, if there is one. The thread is joined.
pub uninit : PubHandler → PubHandler × Option ℕ
unfolding request_exit
uninit self = (
  record (request_exit self) { lidar_listen_id = 0; thread_started = false },
  if ltb 0 self.lidar_listen_id then some self.lidar_listen_id else none,
)

unfoldable pub set_point_cloud_config : FloatUnit → ℕ → PubHandler → PubHandler
set_point_cloud_config fu publish_freq self =
    let interval =
      fu.d_to_u64
        (fu.d_mul (fu.d_div (fu.d_of_u32 ns_per_second) (fu.d_mul publish_freq d_ten)) d_ten) in
    record self {
      publish_interval = interval;
      publish_interval_tolerance = sub64 interval ns_tolerant_frame_time_deviation;
      publish_interval_ms = interval / ratio_of_ms_to_ns;
      thread_started = true;
    }

unfoldable pub set_imu_data_callback : PubHandler → PubHandler
set_imu_data_callback self = record self { imu_callback = true }

-- `listen_id` is what LivoxLidarAddPointCloudObserver of the SDK returns.
unfoldable pub set_point_clouds_callback : ℕ → PubHandler → PubHandler
set_point_clouds_callback listen_id self = record self {
  points_callback = true;
  lidar_listen_id = listen_id % 2 ^ 16;
}

-- The id, which stays 0 for another type.
unfoldable pub get_lidar_id : ℕ → ℕ → ℕ
get_lidar_id lidar_type handle = if lidar_type == livox_lidar_type then handle else 0

unfoldable pub add_lidars_ext_param : LidarExtParameter → PubHandler → PubHandler
unfolding get_lidar_id
add_lidars_ext_param lidar_param self = record self {
  lidar_extrinsics =
      insert (get_lidar_id lidar_param.lidar_type lidar_param.handle) lidar_param
        self.lidar_extrinsics;
}

pub clear_all_lidars_extrinsic_params : PubHandler → PubHandler
clear_all_lidars_extrinsic_params self = record self { lidar_extrinsics = [] }

-- kTimestampTypeGptpOrPtp is 1, kTimestampTypeGps is 2.
pub get_eth_packet_timestamp : ℕ → ℕ → List ℕ → Outcome ℕ
get_eth_packet_timestamp now timestamp_type time_stamp = do
  stamp ← read_at 8 0 time_stamp
  ok (if (timestamp_type == 1) || (timestamp_type == 2) then stamp else now)

-- The lines of the device types kLivoxLidarTypeIndustrialHAP, kLivoxLidarTypeMid360 and
-- kLivoxLidarTypeMid360s.
pub line_num_of : ℕ → ℕ
line_num_of dev_type =
    if dev_type == 10 then 6 else if (dev_type == 9) || (dev_type == 35) then 4 else 1

-- The IMU sample of a packet, whose data are six floats.
pub imu_data_of : ℕ → ℕ → EthernetPacket → Outcome ImuData
unfolding get_eth_packet_timestamp
imu_data_of now handle packet = do
  time_stamp ← get_eth_packet_timestamp now packet.time_type packet.timestamp
  gyro_x ← read_at 4 0 packet.payload
  gyro_y ← read_at 4 4 packet.payload
  gyro_z ← read_at 4 8 packet.payload
  acc_x ← read_at 4 12 packet.payload
  acc_y ← read_at 4 16 packet.payload
  acc_z ← read_at 4 20 packet.payload
  ok (record {
    lidar_type = livox_lidar_type;
    handle = handle;
    time_stamp = time_stamp;
    gyro_x = gyro_x;
    gyro_y = gyro_y;
    gyro_z = gyro_z;
    acc_x = acc_x;
    acc_y = acc_y;
    acc_z = acc_z;
  })

-- The raw packet that is queued; `sizeof(LivoxLidarEthernetPacket)` is 37.
pub raw_packet_of : ℕ → ℕ → ℕ → EthernetPacket → Outcome RawPacket
unfolding get_eth_packet_timestamp line_num_of
raw_packet_of now handle dev_type packet = do
  point_interval ← checked_div (packet.time_interval * 100) packet.dot_num
  time_stamp ← get_eth_packet_timestamp now packet.time_type packet.timestamp
  let size = (packet.length + 2 ^ 32 - 37 + 1) % 2 ^ 32
  raw_data ← if leb size (length packet.payload) then ok (take size packet.payload) else fault
  ok (record {
    lidar_type = livox_lidar_type;
    handle = handle;
    extrinsic_enable = false;
    point_num = packet.dot_num;
    data_type = packet.data_type;
    line_num = line_num_of dev_type;
    time_stamp = time_stamp;
    point_interval = point_interval;
    raw_data = raw_data;
  })

-- With the samples that the IMU callback is called with. `self` is null if the client data is.
pub on_livox_lidar_point_cloud_callback :
    ℕ → ℕ → ℕ → EthernetPacket → Option PubHandler → Outcome (Option PubHandler × List ImuData)
unfolding imu_data_of raw_packet_of
on_livox_lidar_point_cloud_callback now handle dev_type packet none = ok (none, [])
on_livox_lidar_point_cloud_callback now handle dev_type packet (some self) =
    let synced = record self { is_timestamp_sync = not (packet.time_type == 0) } in
    if packet.data_type == 0
    then (if self.imu_callback
        then (do imu_data ← imu_data_of now handle packet; ok (some synced, imu_data ∷ []))
        else ok (some synced, []))
    else (do
      raw ← raw_packet_of now handle dev_type packet
      ok (some (record synced { raw_packet_queue = self.raw_packet_queue ++ raw ∷ [] }), []))

-- A write to an array of the frame.
abbrev pub set_in {ℓ} : {A : Type ℓ} → List A → ℕ → A → Outcome (List A)
set_in l i v = if ltb i (length l) then ok (set l i v) else fault

pub publish_point_cloud : PubHandler → List PointFrame
publish_point_cloud self = if self.points_callback then self.frame ∷ [] else []

-- What both branches of `CheckTimer` do with the points of a lidar: the base time, the swap of the
-- points and, if there are any, the next packet of the frame. False if there are none.
pub collect : ℕ → LidarPubHandler → PubHandler → Outcome (Bool × PubHandler)
unfolding get_lidar_base_time get_lidar_point_clouds
collect id process_handler self = do
  base_time ← set_in self.frame.base_time self.frame.lidar_num (get_lidar_base_time process_handler)
  let (points, process_handler') = get_lidar_point_clouds process_handler []
  let self' = record self {
    lidar_process_handlers = insert id process_handler' self.lidar_process_handlers;
    points = insert id points self.points;
    frame = record (self.frame) { base_time = base_time };
  }
  elim points [
    | [] ↦ ok (false, self')
    | p ∷ ps ↦ do
      lidar_point ← set_in self.frame.lidar_point self.frame.lidar_num (record {
        handle = id;
        lidar_type = livox_lidar_type;
        points_num = length (p ∷ ps) % 2 ^ 32;
        points = p ∷ ps;
      })
      ok (
        true,
        record self' {
          frame = record {
            base_time = base_time;
            lidar_num = (self.frame.lidar_num + 1) % 2 ^ 8;
            lidar_point = lidar_point;
          };
        },
      )
  ]

abbrev pub clear_frame : PubHandler → PubHandler
clear_frame self = record self { frame = record (self.frame) { lidar_num = 0 } }

-- With time synchronisation: a lidar's points are published when its newest time stamp is a multiple
-- of the interval and they span an interval.
pub check_timer_sync : ℕ → PubHandler → Outcome (PubHandler × List PointFrame)
unfolding collect get_recent_time_stamp get_lidar_base_time publish_point_cloud
check_timer_sync id self = do
  process_handler ← deref (find id self.lidar_process_handlers)
  let recent_time_ms = get_recent_time_stamp process_handler / ratio_of_ms_to_ns
  phase ← checked_mod recent_time_ms self.publish_interval_ms
  let diff = sub64 (get_recent_time_stamp process_handler) (get_lidar_base_time process_handler)
  if not (phase == 0) || (recent_time_ms == 0) || ltb diff self.publish_interval_tolerance
      then ok (self, [])
      else (do
        (filled, self') ← collect id process_handler self
        if filled
            then ok (
              clear_frame self',
              if self'.frame.lidar_num == 0 then [] else publish_point_cloud self',
            )
            else ok (self', []))

-- The loop over the handlers.
pub collect_loop : Dict ℕ LidarPubHandler → PubHandler → Outcome PubHandler
unfolding collect
collect_loop [] self = ok self
collect_loop ((handle, process_handler) ∷ rest) self = do
  (filled, self') ← collect handle process_handler self
  collect_loop rest self'

-- Without: when an interval has passed, by the clock, the points of all lidars are one frame.
pub check_timer_clock : ℕ → PubHandler → Outcome (PubHandler × List PointFrame)
unfolding collect_loop publish_point_cloud
check_timer_clock now self =
    if self.first
    then ok (record self { last_pub_time = now; first = false }, [])
    else if ltb now (self.last_pub_time + self.publish_interval)
    then ok (self, [])
    else (do
      let due = record self { last_pub_time = self.last_pub_time + self.publish_interval }
      full ← collect_loop self.lidar_process_handlers due
      ok (clear_frame full, publish_point_cloud full))

pub check_timer : ℕ → ℕ → PubHandler → Outcome (PubHandler × List PointFrame)
unfolding check_timer_sync check_timer_clock
check_timer now id self =
    if self.is_timestamp_sync then check_timer_sync id self else check_timer_clock now self

-- A lidar without a handler gets a new one.
abbrev pub handler_for : Option LidarPubHandler → LidarPubHandler
handler_for none = new_lidar_pub_handler
handler_for (some h) = h

pub configured : FloatUnit → Option LidarExtParameter → LidarPubHandler → LidarPubHandler
configured fu none h = h
configured fu (some lidar_param) h = set_lidars_ext_param fu lidar_param h

-- A round of the loop of `RawDataProcess` with the packets that wait. A round in which the queue
-- stays empty for half a second does nothing.
pub process_queue :
    FloatUnit → ℕ → List RawPacket → PubHandler → Outcome (PubHandler × List PointFrame)
process_queue fu now [] self = ok (self, [])
process_queue fu now (raw_data ∷ rest) self = do
  let id = get_lidar_id raw_data.lidar_type raw_data.handle
  let process_handler =
      configured fu (find id self.lidar_extrinsics)
        (handler_for (find id self.lidar_process_handlers))
  process_handler' ← point_cloud_process fu raw_data process_handler
  check_timer now id (record self {
    raw_packet_queue = rest;
    lidar_process_handlers = insert id process_handler' self.lidar_process_handlers;
  })

-- The body of the loop of `RawDataProcess`, which ends when `is_quit` is set.
pub raw_data_process : FloatUnit → ℕ → PubHandler → Outcome (PubHandler × List PointFrame)
unfolding process_queue
raw_data_process fu now self = process_queue fu now self.raw_packet_queue self

-- The loop of `RawDataProcess`, with a round for each reading of the clock in `nows`: a round that
-- takes no packet reads no clock, and is the same for any.
pub raw_data_loop : FloatUnit → List ℕ → PubHandler → Outcome (PubHandler × List PointFrame)
unfolding raw_data_process
raw_data_loop fu [] self = ok (self, [])
raw_data_loop fu (now ∷ nows) self = if self.is_quit then ok (self, []) else (do
  (self', frames) ← raw_data_process fu now self
  (self'', rest) ← raw_data_loop fu nows self'
  ok (self'', frames ++ rest))
