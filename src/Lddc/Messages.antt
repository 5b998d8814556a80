-- ===== src/Lddc/Messages.antt =====
-- The messages that lddc.cpp builds from a packet or an IMU sample (for ROS 2). The types of the
-- fields are those of the ROS interfaces; the bytes of a point cloud are the list of its points.
pub mod Fill
use livox_mid360_rko_lio_ros.Base.{
  ℕ, zero, suc, ◌+◌, ◌*◌, ◌%◌, ◌^◌, Bool, true, false, List, [], ◌∷◌, ◌==◌, if◌then◌else◌,
  get_elem?, Outcome, ok, ◌>>=◌, deref,
}
use livox_mid360_rko_lio_ros.Comm.{livox_lidar_type, sub64, PointXyzlt, StoragePacket, ImuData}
use livox_mid360_rko_lio_ros.Comm.Float.{FloatUnit}
use livox_mid360_rko_lio_ros.Lds.{LidarDevice}

pub record LivoxPointXyzrtlt : Type 0 where
  pub x : ℕ
  pub y : ℕ
  pub z : ℕ
  pub reflectivity : ℕ
  pub tag : ℕ
  pub line : ℕ
  pub timestamp : ℕ

pub data Datatype : Type 0 where
  float32 uint8 float64 : Datatype

-- A name, by its bytes, an offset, a datatype and a count.
pub record PointField : Type 0 where
  pub name : List ℕ
  pub offset : ℕ
  pub datatype : Datatype
  pub count : ℕ

pub record PointCloud2 : Type 0 where
  pub frame_id : List ℕ
  pub stamp : ℕ
  pub height : ℕ
  pub width : ℕ
  pub fields : List PointField
  pub is_bigendian : Bool
  pub point_step : ℕ
  pub row_step : ℕ
  pub points : List LivoxPointXyzrtlt
  pub is_dense : Bool

pub record CustomPoint : Type 0 where
  pub offset_time : ℕ
  pub x : ℕ
  pub y : ℕ
  pub z : ℕ
  pub reflectivity : ℕ
  pub tag : ℕ
  pub line : ℕ

pub record CustomMsg : Type 0 where
  pub frame_id : List ℕ
  pub stamp : ℕ
  pub timebase : ℕ
  pub point_num : ℕ
  pub lidar_id : ℕ
  pub points : List CustomPoint

pub record ImuMsg : Type 0 where
  pub frame_id : List ℕ
  pub stamp : ℕ
  pub angular_velocity : ℕ × ℕ × ℕ
  pub linear_acceleration : ℕ × ℕ × ℕ

pub point_field : List ℕ → ℕ → Datatype → PointField
point_field name offset datatype = record {
  name = name;
  offset = offset;
  datatype = datatype;
  count = 1;
}

-- InitPointcloud2MsgHeader.
pub point_fields : List PointField
unfolding point_field
point_fields =
    point_field (b'x' ∷ []) 0 float32
    ∷ point_field (b'y' ∷ []) 4 float32
    ∷ point_field (b'z' ∷ []) 8 float32
    ∷ point_field (b'i' ∷ b'n' ∷ b't' ∷ b'e' ∷ b'n' ∷ b's' ∷ b'i' ∷ b't' ∷ b'y' ∷ []) 12 float32
    ∷ point_field (b't' ∷ b'a' ∷ b'g' ∷ []) 16 uint8
    ∷ point_field (b'l' ∷ b'i' ∷ b'n' ∷ b'e' ∷ []) 17 uint8
    ∷ point_field (b't' ∷ b'i' ∷ b'm' ∷ b'e' ∷ b's' ∷ b't' ∷ b'a' ∷ b'm' ∷ b'p' ∷ []) 18 float64
    ∷ []

-- The loops over the points of a packet, from `i` on, with what is built for each.
pub fill_loop {ℓ} : {A : Type ℓ} → (PointXyzlt → A) → List PointXyzlt → ℕ → ℕ → Outcome (List A)
fill_loop build points zero i = ok []
fill_loop build points (suc left) i = do
  point ← deref (get_elem? points i)
  rest ← fill_loop build points left (i + 1)
  ok (build point ∷ rest)

-- The time of a packet with points.
pub timestamp_of : StoragePacket → ℕ
timestamp_of pkg = elim pkg.points [ [] ↦ 0 | p ∷ ps ↦ pkg.base_time ]

pub cloud_point : FloatUnit → PointXyzlt → LivoxPointXyzrtlt
cloud_point fu p = record {
  x = p.x;
  y = p.y;
  z = p.z;
  reflectivity = p.intensity;
  tag = p.tag;
  line = p.line;
  timestamp = fu.d_of_u64 p.offset_time;
}

-- `sizeof(LivoxPointXyzrtlt)` is 26.
pub init_pointcloud2_msg : FloatUnit → List ℕ → StoragePacket → Outcome PointCloud2
unfolding point_fields fill_loop timestamp_of cloud_point
init_pointcloud2_msg fu frame_id pkg = do
  points ← fill_loop (cloud_point fu) pkg.points pkg.points_num 0
  ok (record {
    frame_id = frame_id;
    stamp = timestamp_of pkg;
    height = 1;
    width = pkg.points_num;
    fields = point_fields;
    is_bigendian = false;
    point_step = 26;
    row_step = pkg.points_num * 26 % 2 ^ 32;
    points = points;
    is_dense = true;
  })

unfoldable pub init_custom_msg : List ℕ → StoragePacket → LidarDevice → CustomMsg
unfolding timestamp_of
init_custom_msg frame_id pkg lidar = record {
  frame_id = frame_id;
  stamp = timestamp_of pkg;
  timebase = timestamp_of pkg;
  point_num = pkg.points_num;
  lidar_id = if lidar.lidar_type == livox_lidar_type then lidar.handle else 0;
  points = [];
}

pub custom_point : FloatUnit → ℕ → PointXyzlt → CustomPoint
custom_point fu base_time p = record {
  offset_time = sub64 p.offset_time base_time % 2 ^ 32;
  x = p.x;
  y = p.y;
  z = p.z;
  reflectivity = fu.f_to_u8 p.intensity;
  tag = p.tag;
  line = p.line;
}

pub fill_points_to_custom_msg : FloatUnit → CustomMsg → StoragePacket → Outcome CustomMsg
unfolding fill_loop custom_point
fill_points_to_custom_msg fu livox_msg pkg = do
  points ← fill_loop (custom_point fu pkg.base_time) pkg.points pkg.points_num 0
  ok (record livox_msg { points = points })

-- The frame is "livox_frame".
pub init_imu_msg : FloatUnit → ImuData → ImuMsg
init_imu_msg fu imu_data = record {
  frame_id = b'l' ∷ b'i' ∷ b'v' ∷ b'o' ∷ b'x' ∷ b'_' ∷ b'f' ∷ b'r' ∷ b'a' ∷ b'm' ∷ b'e' ∷ [];
  stamp = imu_data.time_stamp;
  angular_velocity =
      (fu.d_of_f imu_data.gyro_x, fu.d_of_f imu_data.gyro_y, fu.d_of_f imu_data.gyro_z);
  linear_acceleration =
      (fu.d_of_f imu_data.acc_x, fu.d_of_f imu_data.acc_y, fu.d_of_f imu_data.acc_z);
}
