-- ===== src/Points/Encode.antt =====
-- The bytes of Cartesian points, as the lidar lays them out, and what the decoding makes of them.
use livox_mid360_rko_lio_ros.Base.{
  ℕ, zero, suc, ◌+◌, ◌*◌, ◌/◌, ◌%◌, ◌^◌, ◌<◌, ◌≡◌, ◌≢◌, refl, sym, ap, subst, ◌∙◌, false, some,
  List, [], ◌∷◌, ◌++◌, arith, length, drop, get_elem?, ok, ◌==◌,
}
use livox_mid360_rko_lio_ros.Comm.{
  add64, livox_lidar_type, PointXyzlt, RawPacket, ExtParameterDetailed,
}
use livox_mid360_rko_lio_ros.Comm.Float.{FloatUnit, d_1000}
use livox_mid360_rko_lio_ros.Points.Decode.{cartesian_high, process_step}
use livox_mid360_rko_lio_ros.Points.Bytes.{read_le, read_at, checked_mod}
use livox_mid360_rko_lio_ros.Points.{
  LidarPubHandler, point_loop, finish, cartesian, cartesian_high_point, decoder,
  point_cloud_process,
}

-- The fields of LivoxLidarCartesianHighRawPoint, each as its bit pattern.
pub record RawPoint : Type 0 where
  pub x : ℕ
  pub y : ℕ
  pub z : ℕ
  pub reflectivity : ℕ
  pub tag : ℕ

abbrev pub FitsRaw : RawPoint → Type 0
FitsRaw p =
    (p.x < 2 ^ 32) × (p.y < 2 ^ 32) × (p.z < 2 ^ 32) × (p.reflectivity < 2 ^ 8) × (p.tag < 2 ^ 8)

abbrev pub AllFit : List RawPoint → Type 0
AllFit [] = Unit {0}
AllFit (p ∷ ps) = FitsRaw p × AllFit ps

-- The low `n` bytes of a number, the lowest first.
abbrev pub to_le : ℕ → ℕ → List ℕ
to_le zero v = []
to_le (suc n) v = v % 256 ∷ to_le n (v / 256)

abbrev pub encode : RawPoint → List ℕ → List ℕ
encode p rest =
    to_le 4 p.x
    ++ (to_le 4 p.y ++ (to_le 4 p.z ++ (to_le 1 p.reflectivity ++ (to_le 1 p.tag ++ rest))))

unfoldable pub encode_all : List RawPoint → List ℕ → List ℕ
encode_all [] rest = rest
encode_all (p ∷ ps) rest = encode p (encode_all ps rest)

drop_add : (n m : ℕ) (bytes : List ℕ) → drop (n + m) bytes ≡ drop m (drop n bytes)
drop_add zero m bytes = ap (λ k. drop k bytes) (omega arith)
drop_add (suc n) zero [] = let e : suc n + 0 ≡ suc n = omega arith in rw e refl
drop_add (suc n) (suc m) [] = let e : suc n + suc m ≡ suc (n + suc m) = omega arith in rw e refl
drop_add (suc n) m (b ∷ bytes) =
    let e : suc n + m ≡ suc (n + m) = omega arith in rw e (drop_add n m bytes)

-- Behind `i` points stands what is encoded from point `i` on.
drop_encoded :
    (ps : List RawPoint) (i : ℕ) (p : RawPoint) (rest : List ℕ)
    → get_elem? ps i ≡ some p
    → (more : List ℕ) × (drop (14 * i) (encode_all ps rest) ≡ encode p more)
unfolding encode_all
drop_encoded [] i p rest e = cc
drop_encoded (q ∷ ps) zero p rest e =
    let same : q ≡ p = cc in (encode_all ps rest, ap (λ r. encode r (encode_all ps rest)) same)
drop_encoded (q ∷ ps) (suc i) p rest e =
    let (more, at) = drop_encoded ps i p rest e in
    let steps : 14 * suc i ≡ 14 + 14 * i = omega arith in
    (more, ap (λ n. drop n (encode_all (q ∷ ps) rest)) steps ∙ drop_add 14 (14 * i) _ ∙ at)

read_one : (v : ℕ) (rest : List ℕ) → v < 2 ^ 8 → read_le 1 (to_le 1 v ++ rest) ≡ ok v
unfolding read_le
read_one v rest h = ap ok (omega arith)

pub read_four : (v : ℕ) (rest : List ℕ) → v < 2 ^ 32 → read_le 4 (to_le 4 v ++ rest) ≡ ok v
unfolding read_le
read_four v rest h = ap ok (omega arith)

field :
    (n offset v : ℕ) (bytes found : List ℕ)
    → drop offset bytes ≡ found
    → read_le n found ≡ ok v
    → read_at n offset bytes ≡ ok v
unfolding read_at
field n offset v bytes found at reads = rw at reads

field_at :
    (n offset k v : ℕ) (bytes found : List ℕ)
    → drop offset bytes ≡ found
    → read_le n (drop k found) ≡ ok v
    → read_at n (offset + k) bytes ≡ ok v
field_at n offset k v bytes found at reads =
    field n (offset + k) v bytes (drop k found) (drop_add offset k bytes ∙ ap (drop k) at) reads

module _ (fu : FloatUnit) (pkt : RawPacket) (e : ExtParameterDetailed) where
  -- The point that `p`, raw point `i` of the packet, should give.
  pub point_of : RawPoint → ℕ → PointXyzlt
  point_of p i =
      let (x, y, z) = cartesian fu pkt e d_1000 p.x p.y p.z in
      record {
        x = x;
        y = y;
        z = z;
        intensity = fu.f_of_u8 p.reflectivity;
        tag = p.tag;
        line = i % pkt.line_num;
        offset_time = add64 pkt.time_stamp (i * pkt.point_interval % 2 ^ 64);
      }

  pub points_of : List RawPoint → ℕ → List PointXyzlt
  points_of [] i = []
  points_of (p ∷ ps) i = point_of p i ∷ points_of ps (i + 1)

  one_point :
      (p : RawPoint) (i : ℕ) (more : List ℕ)
      → pkt.line_num ≢ 0
      → drop (14 * i) pkt.raw_data ≡ encode p more
      → FitsRaw p
      → cartesian_high_point fu pkt e i ≡ ok (point_of p i ∷ [])
  unfolding cartesian_high_point point_of finish checked_mod
  one_point p i more lines at (fx, fy, fz, fr, ft) =
      let divides : (pkt.line_num == 0) ≡ false = ground arith in
      let ex = field 4 (14 * i) p.x pkt.raw_data (encode p more) at (read_four p.x _ fx) in
      let ey = field_at 4 (14 * i) 4 p.y pkt.raw_data (encode p more) at (read_four p.y _ fy) in
      let ez = field_at 4 (14 * i) 8 p.z pkt.raw_data (encode p more) at (read_four p.z _ fz) in
      let er =
        field_at 1 (14 * i) 12 p.reflectivity pkt.raw_data (encode p more) at
          (read_one p.reflectivity _ fr) in
      let et = field_at 1 (14 * i) 13 p.tag pkt.raw_data (encode p more) at (read_one p.tag _ ft) in
      rw (ex, ey, ez, er, et, divides) refl

  loop_points :
      (ps : List RawPoint) (i : ℕ)
      → pkt.line_num ≢ 0
      → AllFit ps
      → ((k : ℕ) (p : RawPoint)
          → get_elem? ps k ≡ some p
          → (more : List ℕ) × (drop (14 * (i + k)) pkt.raw_data ≡ encode p more))
      → point_loop (cartesian_high_point fu pkt e) (length ps) i ≡ ok (points_of ps i)
  unfolding point_loop points_of
  loop_points [] i lines fit each = refl
  loop_points (p ∷ ps) i lines (fp, fps) each =
      let (more, at) = each 0 p refl in
      let here : i + 0 ≡ i = omega arith in
      let at' : drop (14 * i) pkt.raw_data ≡ encode p more = rw (← here) at in
      let one = one_point p i more lines at' fp in
      let rest = loop_points ps (i + 1) lines fps (λ k q found.
        let e : 14 * (i + 1 + k) ≡ 14 * (i + suc k) = omega arith in
        let (m, t) = each (suc k) q found in (m, rw e t)) in
      rw (one, rest) refl

module _ (fu : FloatUnit) (pkt : RawPacket) (h : LidarPubHandler) (ps : List RawPoint)
    (tail : List ℕ) where
  -- The bytes of Cartesian points of 32-bit coordinates, as a packet with at least one line lays
  -- them out, whatever follows them, are decoded into these points, behind those already there:
  -- each position is computed from the coordinates of its raw point, each intensity from its
  -- reflectivity, and each tag is its own.
  pub point_cloud_process-encode :
      pkt.lidar_type ≡ livox_lidar_type
      → pkt.data_type ≡ 0x01
      → pkt.line_num ≢ 0
      → pkt.point_num ≡ length ps
      → pkt.raw_data ≡ encode_all ps tail
      → AllFit ps
      → point_cloud_process fu pkt h
        ≡ ok (record h { points_clouds = h.points_clouds ++ points_of fu pkt h.extrinsic ps 0 })
  point_cloud_process-encode livox typed lines many laid fit =
      let known : decoder fu pkt h.extrinsic ≡ some (cartesian_high_point fu pkt h.extrinsic) =
        unfold decoder in rw typed refl in
      let loop = loop_points fu pkt h.extrinsic ps 0 lines fit (λ k p found.
        let (more, at) = drop_encoded ps k p tail found in
        let z : 0 + k ≡ k = omega arith in (more, rw (z, laid) at)) in
      process_step fu cartesian_high pkt h (cartesian_high_point fu pkt h.extrinsic)
        (points_of fu pkt h.extrinsic ps 0) livox known
        (subst
          (λ n.
            point_loop (cartesian_high_point fu pkt h.extrinsic) n 0
            ≡ ok (points_of fu pkt h.extrinsic ps 0))
          (sym many) loop)
