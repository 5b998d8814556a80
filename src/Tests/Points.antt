-- ===== src/Tests/Points.antt =====
-- A packet of two raw points, from its bytes to the published frame.
use livox_mid360_rko_lio_ros.Base.{
  ℕ, zero, suc, length, Bool, none, some, ◌==◌, if◌then◌else◌, ◌≤◌, subst, ◌-◌, ◌^◌, ◌≡◌, refl,
  true, false, List, [], ◌∷◌, ◌++◌, map, arith, replicate, ok,
}
use livox_mid360_rko_lio_ros.Base.Dict.{find, nat_key}
use livox_mid360_rko_lio_ros.Comm.{PointXyzlt, PointPacket, PointFrame, RawPacket}
use livox_mid360_rko_lio_ros.Points.{LidarPubHandler, new_lidar_pub_handler, point_cloud_process}
use livox_mid360_rko_lio_ros.Points.Decode.{
  cartesian_low, stamp, stamps_from, point_cloud_process_lem,
}
use livox_mid360_rko_lio_ros.Points.Encode.{
  RawPoint, encode_all, points_of, point_cloud_process-encode,
}
use livox_mid360_rko_lio_ros.Publish.{PubHandler, check_timer, raw_data_process}
use livox_mid360_rko_lio_ros.Publish.Round.{IsDecodable, IsRound}
use livox_mid360_rko_lio_ros.Publish.Collect.{IsCounted, AreCounted, points_clouds_of, pending}
use livox_mid360_rko_lio_ros.Publish.Keys.{Ascending}
use livox_mid360_rko_lio_ros.Publish.Conserve.{IsReady, IsConserved}
use livox_mid360_rko_lio_ros.Publish.Stored.{
  HasRoom, stored_points, check_timer-stored, raw_data_process-stored,
}
use livox_mid360_rko_lio_ros.Tests.{number_unit, point, packet}

abbrev pub raw : RawPacket
raw = record {
  lidar_type = 8;
  handle = 7;
  extrinsic_enable = true;
  point_num = 2;
  data_type = 2;
  line_num = 4;
  time_stamp = 2 ^ 64 - 50;
  point_interval = 100;
  raw_data = 1 ∷ 2 ∷ 3 ∷ 4 ∷ 5 ∷ 6 ∷ 7 ∷ 8 ∷ 9 ∷ 10 ∷ 11 ∷ 12 ∷ 13 ∷ 14 ∷ 15 ∷ 16 ∷ [];
}

point_cloud_process_lem_example :
    (ps : List PointXyzlt) × (point_cloud_process number_unit raw new_lidar_pub_handler
      ≡ ok (record new_lidar_pub_handler {
        points_clouds = new_lidar_pub_handler.points_clouds ++ ps;
      }))
    × (map stamp ps ≡ stamps_from 1 raw 2 0)
point_cloud_process_lem_example =
    point_cloud_process_lem number_unit cartesian_low raw new_lidar_pub_handler refl refl
      (λ e. omega arith) (omega arith)

-- The second point's time wraps in 64 bits.
stamps : stamps_from 1 raw 2 0 ≡ (0, 2 ^ 64 - 50) ∷ (1, 50) ∷ []
unfolding stamps_from
stamps = refl

abbrev high_points : List RawPoint
high_points =
    (record { x = 1000; y = 2 ^ 32 - 1; z = 70000; reflectivity = 255; tag = 16 })
    ∷ (record { x = 0; y = 1; z = 2; reflectivity = 3; tag = 4 })
    ∷ []

abbrev high_packet : RawPacket
high_packet = record raw {
  data_type = 1;
  raw_data =
      232 ∷ 3 ∷ 0 ∷ 0 ∷ 255 ∷ 255 ∷ 255 ∷ 255 ∷ 112 ∷ 17 ∷ 1 ∷ 0 ∷ 255 ∷ 16 ∷ 0 ∷ 0 ∷ 0 ∷ 0 ∷ 1 ∷ 0
      ∷ 0 ∷ 0 ∷ 2 ∷ 0 ∷ 0 ∷ 0 ∷ 3 ∷ 4 ∷ 99 ∷ [];
}

high_packet-laid : high_packet.raw_data ≡ encode_all high_points (99 ∷ [])
unfolding encode_all
high_packet-laid = refl

point_cloud_process-encode_example :
    point_cloud_process number_unit high_packet new_lidar_pub_handler
    ≡ ok (record new_lidar_pub_handler {
      points_clouds =
          new_lidar_pub_handler.points_clouds
          ++ points_of number_unit high_packet new_lidar_pub_handler.extrinsic high_points 0;
    })
point_cloud_process-encode_example =
    point_cloud_process-encode number_unit high_packet new_lidar_pub_handler high_points (99 ∷ [])
      refl refl (λ e. omega arith) refl high_packet-laid (omega arith)

abbrev handler : LidarPubHandler
handler = record new_lidar_pub_handler { points_clouds = point ∷ point ∷ [] }

abbrev pub publisher : PubHandler
publisher = record {
  is_quit = false;
  thread_started = true;
  points_callback = true;
  imu_callback = false;
  frame = record { base_time = replicate 32 0; lidar_num = 0; lidar_point = replicate 32 packet };
  raw_packet_queue = [];
  publish_interval = 100;
  publish_interval_tolerance = 0;
  publish_interval_ms = 1;
  first = false;
  last_pub_time = 0;
  lidar_process_handlers = (7, handler) ∷ (9, handler) ∷ [];
  points = [];
  lidar_extrinsics = [];
  is_timestamp_sync = false;
  lidar_listen_id = 1;
}

replicate-AreCounted : (n : ℕ) (q : PointPacket) → IsCounted q → AreCounted (replicate n q)
replicate-AreCounted zero q h i p at = cc
replicate-AreCounted (suc n) q h zero p at = let same : q ≡ p = cc in subst IsCounted same h
replicate-AreCounted (suc n) q h (suc i) p at = replicate-AreCounted n q h i p at

frame-AreCounted : AreCounted (replicate 32 packet)
frame-AreCounted = replicate-AreCounted 32 packet refl

publisher-IsReady : IsReady publisher
unfolding Ascending
publisher-IsReady = record {
  arrays = record { times = refl; packets = refl; fits = omega arith; counted = frame-AreCounted };
  empty_frame = refl;
  ascending = (omega arith, tt);
  few = omega arith;
  callback = refl;
  interval = λ e. omega arith;
}

-- Each of the two lidars has two points pending.
few_of :
    (a b : Bool)
    → length (points_clouds_of (if a then some handler else if b then some handler else none)) ≤ 2
few_of true b = omega arith
few_of false true = omega arith
few_of false false = omega arith

pub few_pending : (k : ℕ) → length (points_clouds_of (find k publisher.lidar_process_handlers)) ≤ 2
unfolding find
few_pending k = few_of (7 == k) (9 == k)

publisher-HasRoom : HasRoom 0 publisher
unfolding pending
publisher-HasRoom j = omega (arith, few_pending j)

check_timer-stored_example :
    (self' : PubHandler) × (frames : List PointFrame) × (check_timer 5000 7 publisher
      ≡ ok (self', frames))
    × IsConserved publisher self' frames
    × ((j : ℕ) → stored_points j frames ++ pending j self' ≡ pending j publisher)
unfolding find
check_timer-stored_example =
    check_timer-stored 5000 7 handler publisher publisher-IsReady refl publisher-HasRoom

abbrev pub waiting : PubHandler
waiting = record publisher { raw_packet_queue = raw ∷ [] }

pub waiting-IsReady : IsReady waiting
unfolding Ascending
waiting-IsReady = record {
  arrays = record { times = refl; packets = refl; fits = omega arith; counted = frame-AreCounted };
  empty_frame = refl;
  ascending = (omega arith, tt);
  few = omega arith;
  callback = refl;
  interval = λ e. omega arith;
}

pub raw-IsDecodable : IsDecodable cartesian_low raw
raw-IsDecodable = record {
  livox = refl;
  typed = refl;
  lines = λ e. omega arith;
  whole = omega arith;
}

waiting-HasRoom : HasRoom 2 waiting
unfolding pending
waiting-HasRoom j = omega (arith, few_pending j)

raw_data_process-stored_example :
    (self' : PubHandler) × (frames : List PointFrame) × (ps : List PointXyzlt) × (raw_data_process
        number_unit 5000 waiting
      ≡ ok (self', frames))
    × IsRound cartesian_low raw [] waiting self' frames ps
    × ((j : ℕ)
        → stored_points j frames ++ pending j self'
          ≡ pending j waiting ++ (if 7 == j then ps else []))
raw_data_process-stored_example =
    raw_data_process-stored number_unit cartesian_low 5000 raw [] waiting refl raw-IsDecodable
      waiting-IsReady (λ e. omega arith) waiting-HasRoom
