-- ===== src/Tests/Arrival.antt =====
-- A packet of the SDK with one point in the low Cartesian format.
use livox_mid360_rko_lio_ros.Base.{
  ◌≡◌, refl, true, false, some, List, [], ◌∷◌, ◌++◌, map, arith, ok, replicate,
}
use livox_mid360_rko_lio_ros.Comm.{PointXyzlt, RawPacket}
use livox_mid360_rko_lio_ros.Points.{new_lidar_pub_handler, point_cloud_process}
use livox_mid360_rko_lio_ros.Points.Encode.{to_le}
use livox_mid360_rko_lio_ros.Points.Decode.{cartesian_low, stamp, stamps_from}
use livox_mid360_rko_lio_ros.Publish.{EthernetPacket, on_livox_lidar_point_cloud_callback}
use livox_mid360_rko_lio_ros.Publish.Arrival.{IsWhole, arrival_lem}
use livox_mid360_rko_lio_ros.Tests.{number_unit}
use livox_mid360_rko_lio_ros.Tests.Points.{publisher}

abbrev ethernet_packet : EthernetPacket
ethernet_packet = record {
  length = 44;
  time_interval = 5;
  dot_num = 1;
  data_type = 2;
  time_type = 1;
  timestamp = to_le 8 7000;
  payload = replicate 8 3;
}

ethernet_packet-IsWhole : IsWhole ethernet_packet 7000
ethernet_packet-IsWhole = record {
  some_points = λ e. omega arith;
  header = omega arith;
  width = omega arith;
  stamped = refl;
  stamp_width = omega arith;
  memory = omega arith;
}

-- A MID-360 sends one point in half a microsecond.
abbrev arrived : RawPacket
arrived = record {
  lidar_type = 8;
  handle = 7;
  extrinsic_enable = false;
  point_num = 1;
  data_type = 2;
  line_num = 4;
  time_stamp = 7000;
  point_interval = 500;
  raw_data = replicate 8 3;
}

arrival_lem_example :
    (ps : List PointXyzlt) × (on_livox_lidar_point_cloud_callback 0 7 9 ethernet_packet
        (some publisher)
      ≡ ok (
        some (record publisher {
          is_timestamp_sync = true;
          raw_packet_queue = publisher.raw_packet_queue ++ arrived ∷ [];
        }),
        [],
      ))
    × (point_cloud_process number_unit arrived new_lidar_pub_handler
        ≡ ok (record new_lidar_pub_handler {
          points_clouds = new_lidar_pub_handler.points_clouds ++ ps;
        }))
    × (map stamp ps ≡ stamps_from 1 arrived 1 0)
arrival_lem_example =
    arrival_lem number_unit cartesian_low 0 7 9 7000 ethernet_packet publisher new_lidar_pub_handler
      ethernet_packet-IsWhole refl (omega arith)
