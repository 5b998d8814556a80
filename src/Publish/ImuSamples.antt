-- ===== src/Publish/ImuSamples.antt =====
-- The IMU branch of `OnLivoxLidarPointCloudCallback`: the bytes of a packet and the sample that it
-- hands to the IMU callback.
use livox_mid360_rko_lio_ros.Base.{
  ℕ, ◌^◌, ◌<◌, ◌≡◌, refl, ap, true, ==_iff, not, some, List, [], ◌∷◌, ◌++◌, arith, drop, ok, ◌||◌,
  ◌==◌, if◌then◌else◌,
}
use livox_mid360_rko_lio_ros.Comm.{livox_lidar_type, ImuData}
use livox_mid360_rko_lio_ros.Points.Bytes.{read_le, read_at}
use livox_mid360_rko_lio_ros.Points.Encode.{to_le, read_four}
use livox_mid360_rko_lio_ros.Publish.{
  EthernetPacket, PubHandler, get_eth_packet_timestamp, imu_data_of,
  on_livox_lidar_point_cloud_callback,
}

-- What a packet says: the six floats of LivoxLidarImuRawPoint and the time stamp, as bit patterns.
pub record Reading : Type 0 where
  pub stamp : ℕ
  pub gyro_x : ℕ
  pub gyro_y : ℕ
  pub gyro_z : ℕ
  pub acc_x : ℕ
  pub acc_y : ℕ
  pub acc_z : ℕ

abbrev pub laid_out : Reading → List ℕ → List ℕ
laid_out r rest =
    to_le 4 r.gyro_x
    ++ (to_le 4 r.gyro_y
        ++ (to_le 4 r.gyro_z
            ++ (to_le 4 r.acc_x ++ (to_le 4 r.acc_y ++ (to_le 4 r.acc_z ++ rest)))))

-- The packet is an IMU packet with the bytes of the reading.
pub record IsImuPacket (packet : EthernetPacket) (r : Reading) (rest : List ℕ) : Type 0 where
  pub typed : packet.data_type ≡ 0
  pub stamped : packet.timestamp ≡ to_le 8 r.stamp
  pub payload : packet.payload ≡ laid_out r rest
  pub stamp_width : r.stamp < 2 ^ 64
  pub gyro_width : (r.gyro_x < 2 ^ 32) × (r.gyro_y < 2 ^ 32) × (r.gyro_z < 2 ^ 32)
  pub acc_width : (r.acc_x < 2 ^ 32) × (r.acc_y < 2 ^ 32) × (r.acc_z < 2 ^ 32)

-- The sample that should come of it: with the time of the lidar if it is synchronised by PTP or GPS,
-- and with the clock's otherwise.
abbrev pub sample_of : ℕ → ℕ → EthernetPacket → Reading → ImuData
sample_of now handle packet r = record {
  lidar_type = livox_lidar_type;
  handle = handle;
  time_stamp = if (packet.time_type == 1) || (packet.time_type == 2) then r.stamp else now;
  gyro_x = r.gyro_x;
  gyro_y = r.gyro_y;
  gyro_z = r.gyro_z;
  acc_x = r.acc_x;
  acc_y = r.acc_y;
  acc_z = r.acc_z;
}

pub read_eight : (v : ℕ) → v < 2 ^ 64 → read_at 8 0 (to_le 8 v) ≡ ok v
unfolding read_le read_at
read_eight v h = ap ok (omega arith)

module _ (now handle : ℕ) (packet : EthernetPacket) (r : Reading) (rest : List ℕ)
    (w : IsImuPacket packet r rest) where
  stamped_lem :
      get_eth_packet_timestamp now packet.time_type packet.timestamp
      ≡ ok (if (packet.time_type == 1) || (packet.time_type == 2) then r.stamp else now)
  unfolding get_eth_packet_timestamp
  stamped_lem = rw (w.stamped, read_eight r.stamp w.stamp_width) refl

  gyro_lem :
      (read_at 4 0 (laid_out r rest) ≡ ok r.gyro_x)
      × (read_at 4 4 (laid_out r rest) ≡ ok r.gyro_y)
      × (read_at 4 8 (laid_out r rest) ≡ ok r.gyro_z)
  unfolding read_at
  gyro_lem = (
    read_four r.gyro_x (drop 4 (laid_out r rest)) w.gyro_width.0,
    read_four r.gyro_y (drop 8 (laid_out r rest)) w.gyro_width.1,
    read_four r.gyro_z (drop 12 (laid_out r rest)) w.gyro_width.2,
  )

  acc_lem :
      (read_at 4 12 (laid_out r rest) ≡ ok r.acc_x)
      × (read_at 4 16 (laid_out r rest) ≡ ok r.acc_y)
      × (read_at 4 20 (laid_out r rest) ≡ ok r.acc_z)
  unfolding read_at
  acc_lem = (
    read_four r.acc_x (drop 16 (laid_out r rest)) w.acc_width.0,
    read_four r.acc_y (drop 20 (laid_out r rest)) w.acc_width.1,
    read_four r.acc_z rest w.acc_width.2,
  )

  imu_data_of_lem : imu_data_of now handle packet ≡ ok (sample_of now handle packet r)
  unfolding imu_data_of
  imu_data_of_lem =
      rw
        (
          stamped_lem, w.payload, gyro_lem.0, gyro_lem.1, gyro_lem.2, acc_lem.0, acc_lem.1,
          acc_lem.2,
        )
        refl

  -- The callback hands on one sample, and queues nothing.
  pub imu_callback_lem :
      (dev_type : ℕ) (self : PubHandler)
      → self.imu_callback ≡ true
      → on_livox_lidar_point_cloud_callback now handle dev_type packet (some self)
        ≡ ok (
          some (record self { is_timestamp_sync = not (packet.time_type == 0) }),
          sample_of now handle packet r ∷ [],
        )
  unfolding on_livox_lidar_point_cloud_callback
  imu_callback_lem dev_type self set =
      let imu : (packet.data_type == 0) ≡ true = (==_iff packet.data_type 0).1 w.typed in
      simp (imu, set, imu_data_of_lem)
