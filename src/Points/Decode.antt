-- ===== src/Points/Decode.antt =====
-- What a packet adds to the points of its lidar.
use livox_mid360_rko_lio_ros.Base.{
  ℕ, zero, suc, ◌+◌, ◌*◌, ◌%◌, ◌^◌, ◌≤◌, ◌<◌, ◌≡◌, ◌≢◌, refl, ap, ap₂, ◌∙◌, true, false, some, List,
  [], ◌∷◌, ◌++◌, map, arith, length, drop, replicate, Outcome, ok, ◌==◌,
}
use livox_mid360_rko_lio_ros.Comm.{
  add64, livox_lidar_type, PointXyzlt, RawPacket, ExtParameterDetailed,
}
use livox_mid360_rko_lio_ros.Comm.Float.{FloatUnit, d_100, d_1000}
use livox_mid360_rko_lio_ros.Points.Bytes.{read_le, read_at, checked_mod, sign_extend16}
use livox_mid360_rko_lio_ros.Points.{
  LidarPubHandler, point_loop, finish, cartesian_high_point, cartesian_low_point, spherical_point,
  double_echo_point, decoder, point_cloud_process, cartesian, spherical,
}

read_le_lem : (n : ℕ) (bytes : List ℕ) → n ≤ length bytes → (v : ℕ) × (read_le n bytes ≡ ok v)
unfolding read_le
read_le_lem zero bytes h = (0, refl)
read_le_lem (suc n) [] h = absurd (omega arith)
read_le_lem (suc n) (b ∷ bytes) h =
    let (v, e) = read_le_lem n bytes (omega arith) in (b + 256 * v, rw e)

length-drop : (n : ℕ) (bytes : List ℕ) → n ≤ length bytes → length (drop n bytes) + n ≡ length bytes
length-drop zero bytes h = omega arith
length-drop (suc n) [] h = absurd (omega arith)
length-drop (suc n) (b ∷ bytes) h = omega (arith, length-drop n bytes (omega arith))

-- A read inside of the bytes gives a number.
pub read_at_lem :
    (n offset : ℕ) (bytes : List ℕ)
    → offset + n ≤ length bytes
    → (v : ℕ) × (read_at n offset bytes ≡ ok v)
unfolding read_at
read_at_lem n offset bytes h =
    read_le_lem n (drop offset bytes) (omega (arith, length-drop offset bytes (omega arith)))

-- The line and the time of a point, and those that raw point `i` of a packet should have.
abbrev pub stamp : PointXyzlt → ℕ × ℕ
stamp p = (p.line, p.offset_time)

abbrev pub stamp_at : RawPacket → ℕ → ℕ × ℕ
stamp_at pkt i = (i % pkt.line_num, add64 pkt.time_stamp (i * pkt.point_interval % 2 ^ 64))

-- Those of the points of a packet from raw point `i` on: `echoes` for each, in order.
unfoldable pub stamps_from : ℕ → RawPacket → ℕ → ℕ → List (ℕ × ℕ)
stamps_from echoes pkt zero i = []
stamps_from echoes pkt (suc left) i =
    replicate echoes (stamp_at pkt i) ++ stamps_from echoes pkt left (i + 1)

-- The data types of points, with the bytes of a raw point and the points that it stands for.
pub data PointType : Type 0 where
  cartesian_high cartesian_low spherical_type double_echo : PointType

abbrev pub code : PointType → ℕ
code cartesian_high = 0x01
code cartesian_low = 0x02
code spherical_type = 0x03
code double_echo = 0x11

abbrev pub raw_size : PointType → ℕ
raw_size cartesian_high = 14
raw_size cartesian_low = 8
raw_size spherical_type = 10
raw_size double_echo = 28

abbrev pub echoes : PointType → ℕ
echoes cartesian_high = 1
echoes cartesian_low = 1
echoes spherical_type = 1
echoes double_echo = 2

map-append : (ps qs : List PointXyzlt) → map stamp (ps ++ qs) ≡ map stamp ps ++ map stamp qs
map-append [] qs = refl
map-append (p ∷ ps) qs = ap (◌∷◌ (stamp p)) (map-append ps qs)

module _ (fu : FloatUnit) (pkt : RawPacket) (e : ExtParameterDetailed) where
  finish_lem :
      (i r t : ℕ) (position : ℕ × ℕ × ℕ)
      → pkt.line_num ≢ 0
      → (p : PointXyzlt) × (finish fu pkt i r t position ≡ ok p) × (stamp p ≡ stamp_at pkt i)
  unfolding finish checked_mod
  finish_lem i r t (x, y, z) lines =
      let divides : (pkt.line_num == 0) ≡ false = ground arith in
      let point : PointXyzlt = record {
        x = x;
        y = y;
        z = z;
        intensity = fu.f_of_u8 r;
        tag = t;
        line = i % pkt.line_num;
        offset_time = add64 pkt.time_stamp (i * pkt.point_interval % 2 ^ 64);
      } in
      (point, rw divides refl, refl)

  Gives : PointType → (ℕ → Outcome (List PointXyzlt)) → ℕ → Type 0
  Gives ty at i =
      (ps : List PointXyzlt) × (at i ≡ ok ps)
      × (map stamp ps ≡ replicate (echoes ty) (stamp_at pkt i))

  high_lem :
      (i : ℕ)
      → pkt.line_num ≢ 0
      → 14 * i + 14 ≤ length pkt.raw_data
      → Gives cartesian_high (cartesian_high_point fu pkt e) i
  unfolding cartesian_high_point Gives
  high_lem i lines inside =
      let (x, ex) = read_at_lem 4 (14 * i) pkt.raw_data (omega arith) in
      let (y, ey) = read_at_lem 4 (14 * i + 4) pkt.raw_data (omega arith) in
      let (z, ez) = read_at_lem 4 (14 * i + 8) pkt.raw_data (omega arith) in
      let (r, er) = read_at_lem 1 (14 * i + 12) pkt.raw_data (omega arith) in
      let (t, et) = read_at_lem 1 (14 * i + 13) pkt.raw_data (omega arith) in
      let (p, ep, es) = finish_lem i r t (cartesian fu pkt e d_1000 x y z) lines in
      (p ∷ [], rw (ex, ey, ez, er, et, ep) refl, ap (λ s. s ∷ []) es)

  low_lem :
      (i : ℕ)
      → pkt.line_num ≢ 0
      → 8 * i + 8 ≤ length pkt.raw_data
      → Gives cartesian_low (cartesian_low_point fu pkt e) i
  unfolding cartesian_low_point Gives
  low_lem i lines inside =
      let (x, ex) = read_at_lem 2 (8 * i) pkt.raw_data (omega arith) in
      let (y, ey) = read_at_lem 2 (8 * i + 2) pkt.raw_data (omega arith) in
      let (z, ez) = read_at_lem 2 (8 * i + 4) pkt.raw_data (omega arith) in
      let (r, er) = read_at_lem 1 (8 * i + 6) pkt.raw_data (omega arith) in
      let (t, et) = read_at_lem 1 (8 * i + 7) pkt.raw_data (omega arith) in
      let (p, ep, es) =
        finish_lem i r t
          (cartesian fu pkt e d_100 (sign_extend16 x) (sign_extend16 y) (sign_extend16 z)) lines in
      (p ∷ [], rw (ex, ey, ez, er, et, ep) refl, ap (λ s. s ∷ []) es)

  spherical_lem :
      (i : ℕ)
      → pkt.line_num ≢ 0
      → 10 * i + 10 ≤ length pkt.raw_data
      → Gives spherical_type (spherical_point fu pkt e) i
  unfolding spherical_point Gives
  spherical_lem i lines inside =
      let (d, ed) = read_at_lem 4 (10 * i) pkt.raw_data (omega arith) in
      let (th, eth) = read_at_lem 2 (10 * i + 4) pkt.raw_data (omega arith) in
      let (ph, eph) = read_at_lem 2 (10 * i + 6) pkt.raw_data (omega arith) in
      let (r, er) = read_at_lem 1 (10 * i + 8) pkt.raw_data (omega arith) in
      let (t, et) = read_at_lem 1 (10 * i + 9) pkt.raw_data (omega arith) in
      let (p, ep, es) = finish_lem i r t (spherical fu pkt e d th ph) lines in
      (p ∷ [], rw (ed, eth, eph, er, et, ep) refl, ap (λ s. s ∷ []) es)

  double_lem :
      (i : ℕ)
      → pkt.line_num ≢ 0
      → 28 * i + 28 ≤ length pkt.raw_data
      → Gives double_echo (double_echo_point fu pkt e) i
  unfolding double_echo_point Gives
  double_lem i lines inside =
      let (x, ex) = read_at_lem 4 (28 * i) pkt.raw_data (omega arith) in
      let (y, ey) = read_at_lem 4 (28 * i + 4) pkt.raw_data (omega arith) in
      let (z, ez) = read_at_lem 4 (28 * i + 8) pkt.raw_data (omega arith) in
      let (r, er) = read_at_lem 1 (28 * i + 12) pkt.raw_data (omega arith) in
      let (t, et) = read_at_lem 1 (28 * i + 13) pkt.raw_data (omega arith) in
      let (x', ex') = read_at_lem 4 (28 * i + 14) pkt.raw_data (omega arith) in
      let (y', ey') = read_at_lem 4 (28 * i + 18) pkt.raw_data (omega arith) in
      let (z', ez') = read_at_lem 4 (28 * i + 22) pkt.raw_data (omega arith) in
      let (r', er') = read_at_lem 1 (28 * i + 26) pkt.raw_data (omega arith) in
      let (t', et') = read_at_lem 1 (28 * i + 27) pkt.raw_data (omega arith) in
      let (p, ep, es) = finish_lem i r t (cartesian fu pkt e d_1000 x y z) lines in
      let (p', ep', es') = finish_lem i r' t' (cartesian fu pkt e d_1000 x' y' z') lines in
      (
        p ∷ p' ∷ [],
        rw (ex, ey, ez, er, et, ex', ey', ez', er', et', ep, ep') refl,
        ap₂ (λ s s'. s ∷ s' ∷ []) es es',
      )

  decoder_lem :
      (ty : PointType)
      → pkt.data_type ≡ code ty
      → pkt.line_num ≢ 0
      → (at : ℕ → Outcome (List PointXyzlt)) × (decoder fu pkt e ≡ some at)
        × ((i : ℕ) → raw_size ty * i + raw_size ty ≤ length pkt.raw_data → Gives ty at i)
  unfolding decoder
  decoder_lem cartesian_high typed lines = (_, rw typed refl, λ i. high_lem i lines)
  decoder_lem cartesian_low typed lines = (_, rw typed refl, λ i. low_lem i lines)
  decoder_lem spherical_type typed lines = (_, rw typed refl, λ i. spherical_lem i lines)
  decoder_lem double_echo typed lines = (_, rw typed refl, λ i. double_lem i lines)

  loop_lem :
      (ty : PointType) (at : ℕ → Outcome (List PointXyzlt)) (left i : ℕ)
      → ((j : ℕ) → j < i + left → Gives ty at j)
      → (ps : List PointXyzlt) × (point_loop at left i ≡ ok ps)
        × (map stamp ps ≡ stamps_from (echoes ty) pkt left i)
  unfolding point_loop stamps_from Gives
  loop_lem ty at zero i each = ([], refl, refl)
  loop_lem ty at (suc left) i each =
      let (ps, one, s) = each i (omega arith) in
      let (qs, rest, t) = loop_lem ty at left (i + 1) (λ j h. each j (omega arith)) in
      (ps ++ qs, rw (one, rest) refl, map-append ps qs ∙ ap₂ ◌++◌ s t)

  -- Past the last raw point of a whole packet there is no raw point.
  inside_lem :
      (ty : PointType) (j : ℕ)
      → raw_size ty * pkt.point_num ≤ length pkt.raw_data
      → j < pkt.point_num
      → raw_size ty * j + raw_size ty ≤ length pkt.raw_data
  inside_lem cartesian_high j whole below = omega arith
  inside_lem cartesian_low j whole below = omega arith
  inside_lem spherical_type j whole below = omega arith
  inside_lem double_echo j whole below = omega arith

module _ (fu : FloatUnit) (ty : PointType) (pkt : RawPacket) (h : LidarPubHandler) where
  pub process_step :
      (at : ℕ → Outcome (List PointXyzlt)) (ps : List PointXyzlt)
      → pkt.lidar_type ≡ livox_lidar_type
      → decoder fu pkt h.extrinsic ≡ some at
      → point_loop at pkt.point_num 0 ≡ ok ps
      → point_cloud_process fu pkt h ≡ ok (record h { points_clouds = h.points_clouds ++ ps })
  unfolding point_cloud_process
  process_step at ps livox known loop =
      let same : (pkt.lidar_type == livox_lidar_type) ≡ true = ground arith in
      rw same (rw known (rw loop refl))

  -- A packet of a known data type with at least one line and bytes for all its raw points is
  -- decoded without a fault: behind the points already there it adds one point per raw point (two
  -- for a double echo), with line i modulo the lines and, in 64 bits, the time stamp plus i point
  -- intervals.
  pub point_cloud_process_lem :
      pkt.lidar_type ≡ livox_lidar_type
      → pkt.data_type ≡ code ty
      → pkt.line_num ≢ 0
      → raw_size ty * pkt.point_num ≤ length pkt.raw_data
      → (ps : List PointXyzlt) × (point_cloud_process fu pkt h
          ≡ ok (record h { points_clouds = h.points_clouds ++ ps }))
        × (map stamp ps ≡ stamps_from (echoes ty) pkt pkt.point_num 0)
  point_cloud_process_lem livox typed lines whole =
      let (at, known, each) = decoder_lem fu pkt h.extrinsic ty typed lines in
      let (ps, loop, stamps) =
        loop_lem fu pkt h.extrinsic ty at pkt.point_num 0
          (λ j below. each j (inside_lem fu pkt h.extrinsic ty j whole (omega arith))) in
      (ps, process_step at ps livox known loop, stamps)
