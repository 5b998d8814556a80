-- ===== src/Points.antt =====
-- The class LidarPubHandler of comm/pub_handler.h and comm/pub_handler.cpp, which decodes the packets
-- of one lidar into points. The raw data of a packet are its bytes; the structs that they are cast to
-- are packed. Reading past the end of the vector is a fault.
pub mod Bytes
pub mod Extrinsic
pub mod Decode
pub mod Encode
use livox_mid360_rko_lio_ros.Base.{
  ℕ, zero, suc, ◌+◌, ◌*◌, ◌%◌, ◌^◌, Bool, true, false, Option, none, some, List, [], ◌∷◌, ◌++◌,
  ◌==◌, if◌then◌else◌, Outcome, ok, ◌>>=◌,
}
use livox_mid360_rko_lio_ros.Comm.{
  livox_lidar_type, add64, PointXyzlt, ExtParameter, LidarExtParameter, RawPacket,
  TranslationVector, RotationMatrix, ExtParameterDetailed,
}
use livox_mid360_rko_lio_ros.Comm.Float.{FloatUnit, d_100, d_180, d_1000, d_pi, f_zero, f_one}
use livox_mid360_rko_lio_ros.Points.Bytes.{read_at, sign_extend16, checked_mod}

pub record LidarPubHandler : Type 0 where
  pub points_clouds : List PointXyzlt
  pub extrinsic : ExtParameterDetailed
  pub is_set_extrinsic_params : Bool

-- The constructor, with the default member initialisers of the header: the second row of the
-- rotation is {0, 1, 1} there.
unfoldable pub new_lidar_pub_handler : LidarPubHandler
new_lidar_pub_handler = record {
  points_clouds = [];
  extrinsic = record {
    trans = record { t0 = f_zero; t1 = f_zero; t2 = f_zero };
    rotation = record {
      r00 = f_one;
      r01 = f_zero;
      r02 = f_zero;
      r10 = f_zero;
      r11 = f_one;
      r12 = f_one;
      r20 = f_zero;
      r21 = f_zero;
      r22 = f_one;
    };
  };
  is_set_extrinsic_params = false;
}

pub first_time : List PointXyzlt → ℕ
first_time [] = 0
first_time (p ∷ ps) = p.offset_time

pub last_time : List PointXyzlt → ℕ
last_time [] = 0
last_time (p ∷ []) = p.offset_time
last_time (p ∷ q ∷ ps) = last_time (q ∷ ps)

unfoldable pub get_lidar_base_time : LidarPubHandler → ℕ
unfolding first_time
get_lidar_base_time h = first_time h.points_clouds

unfoldable pub get_recent_time_stamp : LidarPubHandler → ℕ
unfolding last_time
get_recent_time_stamp h = last_time h.points_clouds

-- The swap with the caller's vector.
unfoldable pub get_lidar_point_clouds :
    LidarPubHandler → List PointXyzlt → List PointXyzlt × LidarPubHandler
get_lidar_point_clouds h points_clouds =
    (h.points_clouds, record h { points_clouds = points_clouds })

-- The points of the packet from `i` on, `left` of them, where `at i` gives what raw point `i` adds.
pub point_loop : (ℕ → Outcome (List PointXyzlt)) → ℕ → ℕ → Outcome (List PointXyzlt)
point_loop at zero i = ok []
point_loop at (suc left) i = do
  points ← at i
  rest ← point_loop at left (i + 1)
  ok (points ++ rest)

-- A point with its position, and what all four routines set from the packet.
pub finish : FloatUnit → RawPacket → ℕ → ℕ → ℕ → (ℕ × ℕ × ℕ) → Outcome PointXyzlt
finish fu pkt i reflectivity tag (x, y, z) = do
  line ← checked_mod i pkt.line_num
  ok (record {
    x = x;
    y = y;
    z = z;
    intensity = fu.f_of_u8 reflectivity;
    tag = tag;
    line = line;
    offset_time = add64 pkt.time_stamp (i * pkt.point_interval % 2 ^ 64);
  })

module _ (fu : FloatUnit) where
  -- `(x * r0 + y * r1 + z * r2 + t) / scale`, whose numerator is a float.
  row : ℕ → ℕ → ℕ → ℕ → ℕ → ℕ → ℕ → ℕ → ℕ
  row x y z r0 r1 r2 t scale = fu.f_of_d (
      fu.d_div
        (fu.d_of_f (
          fu.f_add
            (fu.f_add (fu.f_add (fu.f_mul (fu.f_of_i32 x) r0) (fu.f_mul (fu.f_of_i32 y) r1))
              (fu.f_mul (fu.f_of_i32 z) r2))
            t))
        scale)

  -- The position of a Cartesian point, whose coordinates are 32-bit patterns.
  pub cartesian : RawPacket → ExtParameterDetailed → ℕ → ℕ → ℕ → ℕ → ℕ × ℕ × ℕ
  unfolding row
  cartesian pkt e scale x y z =
      if pkt.extrinsic_enable
      then (
        fu.f_of_d (fu.d_div (fu.d_of_i32 x) scale),
        fu.f_of_d (fu.d_div (fu.d_of_i32 y) scale),
        fu.f_of_d (fu.d_div (fu.d_of_i32 z) scale),
      )
      else (
        row x y z e.rotation.r00 e.rotation.r01 e.rotation.r02 e.trans.t0 scale,
        row x y z e.rotation.r10 e.rotation.r11 e.rotation.r12 e.trans.t1 scale,
        row x y z e.rotation.r20 e.rotation.r21 e.rotation.r22 e.trans.t2 scale,
      )

  -- LivoxLidarCartesianHighRawPoint: 14 bytes.
  pub cartesian_high_point : RawPacket → ExtParameterDetailed → ℕ → Outcome (List PointXyzlt)
  cartesian_high_point pkt e i = do
    x ← read_at 4 (14 * i) pkt.raw_data
    y ← read_at 4 (14 * i + 4) pkt.raw_data
    z ← read_at 4 (14 * i + 8) pkt.raw_data
    reflectivity ← read_at 1 (14 * i + 12) pkt.raw_data
    tag ← read_at 1 (14 * i + 13) pkt.raw_data
    point ← finish fu pkt i reflectivity tag (cartesian pkt e d_1000 x y z)
    ok (point ∷ [])

  -- LivoxLidarCartesianLowRawPoint: 8 bytes.
  pub cartesian_low_point : RawPacket → ExtParameterDetailed → ℕ → Outcome (List PointXyzlt)
  cartesian_low_point pkt e i = do
    x ← read_at 2 (8 * i) pkt.raw_data
    y ← read_at 2 (8 * i + 2) pkt.raw_data
    z ← read_at 2 (8 * i + 4) pkt.raw_data
    reflectivity ← read_at 1 (8 * i + 6) pkt.raw_data
    tag ← read_at 1 (8 * i + 7) pkt.raw_data
    point ←
        finish fu pkt i reflectivity tag
          (cartesian pkt e d_100 (sign_extend16 x) (sign_extend16 y) (sign_extend16 z))
    ok (point ∷ [])

  -- `angle / 100.0 / 180 * PI`
  radians : ℕ → ℕ
  radians angle = fu.d_mul (fu.d_div (fu.d_div (fu.d_of_i32 angle) d_100) d_180) d_pi

  -- `x * r0 + y * r1 + z * r2 + (t / 1000.0)`, in doubles.
  spherical_row : ℕ → ℕ → ℕ → ℕ → ℕ → ℕ → ℕ → ℕ
  spherical_row x y z r0 r1 r2 t = fu.f_of_d (
      fu.d_add
        (fu.d_add (fu.d_add (fu.d_mul x (fu.d_of_f r0)) (fu.d_mul y (fu.d_of_f r1)))
          (fu.d_mul z (fu.d_of_f r2)))
        (fu.d_div (fu.d_of_f t) d_1000))

  pub spherical : RawPacket → ExtParameterDetailed → ℕ → ℕ → ℕ → ℕ × ℕ × ℕ
  unfolding radians spherical_row
  spherical pkt e depth theta phi =
      let radius = fu.d_div (fu.d_of_u32 depth) d_1000 in
      let th = radians theta in
      let ph = radians phi in
      let src_x = fu.d_mul (fu.d_mul radius (fu.d_sin th)) (fu.d_cos ph) in
      let src_y = fu.d_mul (fu.d_mul radius (fu.d_sin th)) (fu.d_sin ph) in
      let src_z = fu.d_mul radius (fu.d_cos th) in
      if pkt.extrinsic_enable then (fu.f_of_d src_x, fu.f_of_d src_y, fu.f_of_d src_z) else (
        spherical_row src_x src_y src_z e.rotation.r00 e.rotation.r01 e.rotation.r02 e.trans.t0,
        spherical_row src_x src_y src_z e.rotation.r10 e.rotation.r11 e.rotation.r12 e.trans.t1,
        spherical_row src_x src_y src_z e.rotation.r20 e.rotation.r21 e.rotation.r22 e.trans.t2,
      )

  -- LivoxLidarSpherPoint: 10 bytes.
  pub spherical_point : RawPacket → ExtParameterDetailed → ℕ → Outcome (List PointXyzlt)
  spherical_point pkt e i = do
    depth ← read_at 4 (10 * i) pkt.raw_data
    theta ← read_at 2 (10 * i + 4) pkt.raw_data
    phi ← read_at 2 (10 * i + 6) pkt.raw_data
    reflectivity ← read_at 1 (10 * i + 8) pkt.raw_data
    tag ← read_at 1 (10 * i + 9) pkt.raw_data
    point ← finish fu pkt i reflectivity tag (spherical pkt e depth theta phi)
    ok (point ∷ [])

  -- LivoxLidarDoubleEchoRawPoint: two high points of 14 bytes each.
  pub double_echo_point : RawPacket → ExtParameterDetailed → ℕ → Outcome (List PointXyzlt)
  double_echo_point pkt e i = do
    x1 ← read_at 4 (28 * i) pkt.raw_data
    y1 ← read_at 4 (28 * i + 4) pkt.raw_data
    z1 ← read_at 4 (28 * i + 8) pkt.raw_data
    reflectivity1 ← read_at 1 (28 * i + 12) pkt.raw_data
    tag1 ← read_at 1 (28 * i + 13) pkt.raw_data
    x2 ← read_at 4 (28 * i + 14) pkt.raw_data
    y2 ← read_at 4 (28 * i + 18) pkt.raw_data
    z2 ← read_at 4 (28 * i + 22) pkt.raw_data
    reflectivity2 ← read_at 1 (28 * i + 26) pkt.raw_data
    tag2 ← read_at 1 (28 * i + 27) pkt.raw_data
    point1 ← finish fu pkt i reflectivity1 tag1 (cartesian pkt e d_1000 x1 y1 z1)
    point2 ← finish fu pkt i reflectivity2 tag2 (cartesian pkt e d_1000 x2 y2 z2)
    ok (point1 ∷ point2 ∷ [])

  -- LivoxLidarPointDataType: what one raw point of a packet adds, if its type is known.
  pub decoder : RawPacket → ExtParameterDetailed → Option (ℕ → Outcome (List PointXyzlt))
  unfolding cartesian_high_point cartesian_low_point spherical_point double_echo_point
  decoder pkt e =
      if pkt.data_type == 0x01
      then some (cartesian_high_point pkt e)
      else if pkt.data_type == 0x02
      then some (cartesian_low_point pkt e)
      else if pkt.data_type == 0x03
      then some (spherical_point pkt e)
      else if pkt.data_type == 0x11
      then some (double_echo_point pkt e)
      else none

  pub point_cloud_process : RawPacket → LidarPubHandler → Outcome LidarPubHandler
  unfolding decoder point_loop
  point_cloud_process pkt h =
      if pkt.lidar_type == livox_lidar_type
      then elim (decoder pkt h.extrinsic) [
        | none ↦ ok h
        | some at ↦ do
          points ← point_loop at pkt.point_num 0
          ok (record h { points_clouds = h.points_clouds ++ points })
      ]
      else ok h
