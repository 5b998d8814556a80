-- ===== src/Publish/Arrival.antt =====
-- From the packet that the SDK hands over to the points that the lidar's handler adds for it.
use livox_mid360_rko_lio_ros.Base.{
  ℕ, ◌+◌, ◌-◌, ◌*◌, ◌/◌, ◌%◌, ◌^◌, ◌≤◌, ◌<◌, ◌≡◌, ◌≢◌, refl, sym, subst, true, false, not, some,
  List, [], ◌∷◌, ◌++◌, map, arith, ok, length, take, length-take, leb, le→leb, ◌==◌, if◌then◌else◌,
  ◌||◌,
}
use livox_mid360_rko_lio_ros.Comm.{livox_lidar_type, PointXyzlt, RawPacket}
use livox_mid360_rko_lio_ros.Comm.Float.{FloatUnit}
use livox_mid360_rko_lio_ros.Points.{LidarPubHandler, point_cloud_process}
use livox_mid360_rko_lio_ros.Points.Bytes.{checked_div}
use livox_mid360_rko_lio_ros.Points.Decode.{
  PointType, cartesian_high, cartesian_low, spherical_type, double_echo, code, raw_size, echoes,
  stamp, stamps_from, point_cloud_process_lem,
}
use livox_mid360_rko_lio_ros.Points.Encode.{to_le}
use livox_mid360_rko_lio_ros.Publish.ImuSamples.{read_eight}
use livox_mid360_rko_lio_ros.Publish.{
  EthernetPacket, PubHandler, get_eth_packet_timestamp, line_num_of, raw_packet_of,
  on_livox_lidar_point_cloud_callback,
}

-- A packet that is as long as it says, with at least one point and with the bytes of a time stamp.
pub record IsWhole (packet : EthernetPacket) (at : ℕ) : Type 0 where
  pub some_points : packet.dot_num ≢ 0
  pub header : 36 ≤ packet.length
  pub width : packet.length < 2 ^ 16
  pub stamped : packet.timestamp ≡ to_le 8 at
  pub stamp_width : at < 2 ^ 64
  pub memory : packet.length - 36 ≤ length packet.payload

-- The laser lines: four of a MID-360 (9) or MID-360S (35), six of an industrial HAP (10).
abbrev pub lines_of : ℕ → ℕ
lines_of dev_type =
    if (dev_type == 9) || (dev_type == 35) then 4 else if dev_type == 10 then 6 else 1

-- The raw packet that should be queued: with the time of the lidar if it is synchronised by PTP or
-- GPS and the clock's otherwise, the nanoseconds between two points, of which the packet gives
-- tenths of a microsecond for all, and the bytes behind the header.
abbrev pub raw_of : ℕ → ℕ → ℕ → EthernetPacket → ℕ → RawPacket
raw_of now handle dev_type packet at = record {
  lidar_type = livox_lidar_type;
  handle = handle;
  extrinsic_enable = false;
  point_num = packet.dot_num;
  data_type = packet.data_type;
  line_num = lines_of dev_type;
  time_stamp = if (packet.time_type == 1) || (packet.time_type == 2) then at else now;
  point_interval = packet.time_interval * 100 / packet.dot_num;
  raw_data = take (packet.length - 36) packet.payload;
}

line_num_of-eq : (dev_type : ℕ) → line_num_of dev_type ≡ lines_of dev_type
unfolding line_num_of
line_num_of-eq dev_type = ground arith

lines_of-ne : (dev_type : ℕ) → lines_of dev_type ≢ 0
lines_of-ne dev_type e = ground arith

raw_packet_of_lem :
    (now handle dev_type at : ℕ) (packet : EthernetPacket)
    → IsWhole packet at
    → raw_packet_of now handle dev_type packet ≡ ok (raw_of now handle dev_type packet at)
unfolding raw_packet_of checked_div get_eth_packet_timestamp
raw_packet_of_lem now handle dev_type at packet w =
    let divides : (packet.dot_num == 0) ≡ false = (let h = w.some_points in ground arith) in
    let size : (packet.length + 2 ^ 32 - 37 + 1) % 2 ^ 32 ≡ packet.length - 36 =
      omega (arith, w.header, w.width) in
    let fits : leb (packet.length - 36) (length packet.payload) ≡ true = le→leb _ _ w.memory in
    rw (divides, w.stamped, read_eight at w.stamp_width, size, fits, line_num_of-eq dev_type) refl

-- A point packet of a known data type that is as long as it says, with a 64-bit time stamp in
-- little-endian bytes, at least one point and bytes for all of them, is queued by the SDK callback
-- behind the others, and its synchronisation flag is noted. The raw packet has the handle, the
-- number and type of the points, the lines of the device (four of a MID-360 or MID-360S, six of an
-- industrial HAP, one otherwise), the time stamp of the lidar if it is synchronised by PTP or GPS
-- and the clock otherwise, a hundred times the time interval divided by the points as their
-- interval, and the bytes behind the header; decoding it adds to any handler one point per raw
-- point (two for a double echo) with these lines and times.
pub arrival_lem :
    (fu : FloatUnit) (ty : PointType) (now handle dev_type at : ℕ) (packet : EthernetPacket)
    (self : PubHandler) (h : LidarPubHandler)
    → IsWhole packet at
    → packet.data_type ≡ code ty
    → raw_size ty * packet.dot_num ≤ packet.length - 36
    → (ps : List PointXyzlt) × (on_livox_lidar_point_cloud_callback now handle dev_type packet
          (some self)
        ≡ ok (
          some (record self {
            is_timestamp_sync = not (packet.time_type == 0);
            raw_packet_queue = self.raw_packet_queue ++ raw_of now handle dev_type packet at ∷ [];
          }),
          [],
        ))
      × (point_cloud_process fu (raw_of now handle dev_type packet at) h
          ≡ ok (record h { points_clouds = h.points_clouds ++ ps }))
      × (map stamp ps
          ≡ stamps_from (echoes ty) (raw_of now handle dev_type packet at) packet.dot_num 0)
unfolding on_livox_lidar_point_cloud_callback
arrival_lem fu ty now handle dev_type at packet self h w typed enough =
    let raw = raw_of now handle dev_type packet at in
    let points : (packet.data_type == 0) ≡ false = not_imu ty typed in
    let room : raw_size ty * raw.point_num ≤ length raw.raw_data =
      subst (λ m. raw_size ty * packet.dot_num ≤ m)
        (sym (length-take (packet.length - 36) packet.payload w.memory)) enough in
    let (ps, decoded, stamps) =
      point_cloud_process_lem fu ty raw h refl typed (lines_of-ne dev_type) room in
    (ps, rw (points, raw_packet_of_lem now handle dev_type at packet w) refl, decoded, stamps)
  where
    not_imu : (ty' : PointType) → packet.data_type ≡ code ty' → (packet.data_type == 0) ≡ false
    not_imu cartesian_high e = ground arith
    not_imu cartesian_low e = ground arith
    not_imu spherical_type e = ground arith
    not_imu double_echo e = ground arith
