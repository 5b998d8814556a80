-- ===== src/Lddc/Messages/Fill.antt =====
-- The loops that fill a message copy each point of the packet.
use livox_mid360_rko_lio_ros.Base.{
  ℕ, zero, suc, ◌+◌, ◌*◌, ◌%◌, ◌^◌, ◌≡◌, refl, sym, ap, ◌∙◌, true, false, some, List, [], ◌∷◌, map,
  arith, length, drop, get_elem?, get_elem?_lt, ok, ◌>>=◌,
}
use livox_mid360_rko_lio_ros.Comm.{PointXyzlt, StoragePacket}
use livox_mid360_rko_lio_ros.Comm.Float.{FloatUnit}
use livox_mid360_rko_lio_ros.Lddc.Messages.{
  fill_loop, cloud_point, point_fields, timestamp_of, init_pointcloud2_msg, CustomMsg, custom_point,
  fill_points_to_custom_msg,
}

drop_at {ℓ} :
    {A : Type ℓ} (xs : List A) (i : ℕ) (a : A)
    → get_elem? xs i ≡ some a
    → drop i xs ≡ a ∷ drop (suc i) xs
drop_at [] i a e = cc
drop_at (x ∷ xs) zero a e = let same : x ≡ a = cc in ap (λ y. y ∷ xs) same
drop_at (x ∷ xs) (suc i) a e = drop_at xs i a e

drop_all {ℓ} : {A : Type ℓ} (xs : List A) (i : ℕ) → i ≡ length xs → drop i xs ≡ []
drop_all [] zero e = refl
drop_all [] (suc i) e = absurd (omega arith)
drop_all (x ∷ xs) zero e = absurd (omega arith)
drop_all (x ∷ xs) (suc i) e = drop_all xs i (omega arith)

pub fill_loop_lem {ℓ} :
    {A : Type ℓ} (build : PointXyzlt → A) (points : List PointXyzlt) (left i : ℕ)
    → i + left ≡ length points
    → fill_loop build points left i ≡ ok (map build (drop i points))
unfolding fill_loop
fill_loop_lem build points zero i e =
    ap (λ ps. ok (map build ps)) (sym (drop_all points i (omega arith)))
fill_loop_lem build points (suc left) i e =
    let (a, at) = get_elem?_lt points i (omega arith) in
    let next : suc i ≡ i + 1 = omega arith in
    rw (at, fill_loop_lem build points left (i + 1) (omega arith))
      (ap (λ ps. ok (map build ps))
        (sym (drop_at points i a at ∙ ap (λ j. a ∷ drop j points) next)))

-- The message of a packet with as many points as it says.
pub init_pointcloud2_msg_lem :
    (fu : FloatUnit) (frame_id : List ℕ) (p : StoragePacket)
    → p.points_num ≡ length p.points
    → init_pointcloud2_msg fu frame_id p
      ≡ ok (record {
        frame_id = frame_id;
        stamp = timestamp_of p;
        height = 1;
        width = length p.points;
        fields = point_fields;
        is_bigendian = false;
        point_step = 26;
        row_step = length p.points * 26 % 2 ^ 32;
        points = map (cloud_point fu) p.points;
        is_dense = true;
      })
unfolding init_pointcloud2_msg
init_pointcloud2_msg_lem fu frame_id p sized =
    ap
      (λ points. points >>= λ ps. ok (record {
        frame_id = frame_id;
        stamp = timestamp_of p;
        height = 1;
        width = p.points_num;
        fields = point_fields;
        is_bigendian = false;
        point_step = 26;
        row_step = p.points_num * 26 % 2 ^ 32;
        points = ps;
        is_dense = true;
      }))
      (fill_loop_lem (cloud_point fu) p.points p.points_num 0 (omega (arith, sized)))
    ∙ ap
        (λ n. ok (record {
          frame_id = frame_id;
          stamp = timestamp_of p;
          height = 1;
          width = n;
          fields = point_fields;
          is_bigendian = false;
          point_step = 26;
          row_step = n * 26 % 2 ^ 32;
          points = map (cloud_point fu) p.points;
          is_dense = true;
        }))
        sized

-- The same for a custom message.
pub fill_points_to_custom_msg_lem :
    (fu : FloatUnit) (msg : CustomMsg) (p : StoragePacket)
    → p.points_num ≡ length p.points
    → fill_points_to_custom_msg fu msg p
      ≡ ok (record msg { points = map (custom_point fu p.base_time) p.points })
unfolding fill_points_to_custom_msg
fill_points_to_custom_msg_lem fu msg p sized =
    let filled : fill_loop (custom_point fu p.base_time) p.points p.points_num 0
        ≡ ok (map (custom_point fu p.base_time) p.points) =
      fill_loop_lem (custom_point fu p.base_time) p.points p.points_num 0 (omega arith) in
    rw filled refl
