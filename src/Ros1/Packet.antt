-- ===== src/Ros1/Packet.antt =====
-- A packet that is published for ROS 1: the message that it should become, and where it goes.
use livox_mid360_rko_lio_ros.Base.{
  ℕ, ◌+◌, ◌*◌, ◌%◌, ◌^◌, ◌<◌, ◌≡◌, refl, sym, ap, ◌∙◌, Bool, true, false, Option, none, some, List,
  [], ◌∷◌, map, arith, length, get_elem?, ok, ◌>>=◌,
}
use livox_mid360_rko_lio_ros.Comm.{PointXyzlt, StoragePacket}
use livox_mid360_rko_lio_ros.Comm.Float.{FloatUnit}
use livox_mid360_rko_lio_ros.Lds.{LidarDevice}
use livox_mid360_rko_lio_ros.Lddc.{
  TransferType, point_cloud2_msg, livox_custom_msg, pcl_pxyzi_msg, unknown,
}
use livox_mid360_rko_lio_ros.Lddc.Messages.{
  fill_loop, timestamp_of, init_custom_msg, point_fields, cloud_point, custom_point,
}
use livox_mid360_rko_lio_ros.Lddc.Messages.Fill.{
  init_pointcloud2_msg_lem, fill_points_to_custom_msg_lem, fill_loop_lem,
}
use livox_mid360_rko_lio_ros.Ros1.State.{
  pcl_point, pcl_stamp, ros1_time, init_pcl_msg, fill_points_to_pcl_msg, Ros1Message, cloud, custom,
  pcl, Topic, Sent, Bag, Ros1Lddc,
}
use livox_mid360_rko_lio_ros.Ros1.Publish.{emit, publish_point_data, publish_packet}
use livox_mid360_rko_lio_ros.Ros1.Deliver.{Delivers, emitted, current_lem}

-- The formats that are published for ROS 1.
abbrev pub Ros1Publishes : TransferType → Type 0
Ros1Publishes unknown = ⊥
Ros1Publishes t = Unit {0}

-- Each custom message has the next number.
abbrev pub next_seq : TransferType → ℕ → ℕ
next_seq livox_custom_msg seq = (seq + 1) % 2 ^ 32
next_seq t seq = seq

abbrev pub seq_after : TransferType → ℕ → List PointXyzlt → ℕ
seq_after t seq [] = seq
seq_after t seq (q ∷ qs) = next_seq t seq

-- The number that the next custom message gets after a list of packets.
unfoldable pub seq_end : TransferType → ℕ → List StoragePacket → ℕ
seq_end t seq [] = seq
seq_end t seq (p ∷ c) = seq_end t (seq_after t seq p.points) c

module _ (fu : FloatUnit) (frame_id : List ℕ) (lidar : LidarDevice) where
  -- The message that a packet with points should become.
  abbrev pub ros1_message : TransferType → ℕ → StoragePacket → Ros1Message
  ros1_message point_cloud2_msg seq p = cloud (record {
    frame_id = frame_id;
    stamp = ros1_time fu (timestamp_of p);
    height = 1;
    width = length p.points;
    fields = point_fields;
    is_bigendian = false;
    point_step = 26;
    row_step = length p.points * 26 % 2 ^ 32;
    points = map (cloud_point fu) p.points;
    is_dense = true;
  })
  ros1_message livox_custom_msg seq p = custom seq (record (init_custom_msg frame_id p lidar) {
    points = map (custom_point fu p.base_time) p.points;
    stamp = ros1_time fu (timestamp_of p);
  })
  ros1_message t seq p = pcl (record {
    frame_id = frame_id;
    stamp = pcl_stamp fu (timestamp_of p);
    height = 1;
    width = p.points_num;
    points = map pcl_point p.points;
  })

  abbrev pub ros1_timed : TransferType → ℕ → StoragePacket → ℕ × Ros1Message
  ros1_timed t seq p = (ros1_time fu (timestamp_of p), ros1_message t seq p)

  -- Those of a list of packets; a packet without points is skipped.
  unfoldable pub ros1_messages : TransferType → ℕ → List StoragePacket → List (ℕ × Ros1Message)
  ros1_messages t seq [] = []
  ros1_messages t seq (p ∷ c) =
      let rest = ros1_messages t seq c in
      let more = ros1_messages t (next_seq t seq) c in
      elim p.points [ [] ↦ rest | q ∷ qs ↦ ros1_timed t seq p ∷ more ]

-- The points of a packet in a message of PCL, if there are any.
pcl_filled :
    (fu : FloatUnit) (frame_id : List ℕ) (p : StoragePacket) (ps : List PointXyzlt)
    → p.points ≡ ps
    → p.points_num ≡ length p.points
    → fill_points_to_pcl_msg p (init_pcl_msg fu frame_id p)
      ≡ ok (record (init_pcl_msg fu frame_id p) { points = map pcl_point p.points })
unfolding fill_points_to_pcl_msg init_pcl_msg
pcl_filled fu frame_id p [] e sized =
    let msg = init_pcl_msg fu frame_id p in
    ap
      (λ l. elim l [
        | [] ↦ ok msg
        | q ∷ qs ↦ fill_loop pcl_point p.points p.points_num 0 >>= λ points.
            ok (record msg { points = points })
      ])
      e
    ∙ ap (λ l. ok (record msg { points = map pcl_point l })) (sym e)
pcl_filled fu frame_id p (q ∷ qs) e sized =
    let msg = init_pcl_msg fu frame_id p in
    ap
      (λ l. elim l [
        | [] ↦ ok msg
        | q' ∷ qs' ↦ fill_loop pcl_point p.points p.points_num 0 >>= λ points.
            ok (record msg { points = points })
      ])
      e
    ∙ ap (λ o. o >>= λ points. ok (record msg { points = points }))
        (fill_loop_lem pcl_point p.points p.points_num 0 (omega (arith, sized)))

emitted_seq :
    (output enabled : Bool) (bag : Option Bag) (topic : Topic) (time : ℕ) (m : Ros1Message)
    (self : Ros1Lddc)
    → (emit enabled topic time m
        (record self { output_to_ros = output; enable_lidar_bag = enabled; bag = bag })).0.msg_seq
      ≡ self.msg_seq
unfolding emit
emitted_seq true enabled bag topic time m self = refl
emitted_seq false enabled none topic time m self = refl
emitted_seq false true (some bag) topic time m self = refl
emitted_seq false false (some bag) topic time m self = refl

module _ (inet_ntoa : ℕ → List ℕ) (fu : FloatUnit) (lidars : List LidarDevice) (index : ℕ)
    (lidar : LidarDevice) (at : get_elem? lidars index ≡ some lidar) where
  point_data_lem :
      (timestamp : ℕ) (m : Ros1Message) (self : Ros1Lddc)
      → index < length self.topics.private_pub
      → (self' : Ros1Lddc) × (sent : List Sent) × (publish_point_data inet_ntoa fu lidars index
            timestamp m self
          ≡ ok (self', sent))
        × Delivers ((ros1_time fu timestamp, m) ∷ []) self self' sent
        × (self'.msg_seq ≡ self.msg_seq)
  unfolding publish_point_data
  point_data_lem timestamp m self inside =
      let (topic, ts, found, kept) =
        current_lem inet_ntoa lidars index lidar at self.use_multi_topic self refl inside in
      let self1 : Ros1Lddc = record self { topics = ts } in
      let time = ros1_time fu timestamp in
      let d = emitted self.output_to_ros self.enable_lidar_bag self.bag topic time m self1 in
      let (self', sent) = emit self.enable_lidar_bag topic time m self1 in
      (
        self',
        sent,
        rw found refl,
        record {
          same_output = d.same_output;
          same_enable = d.same_enable;
          same_frame = d.same_frame;
          same_format = d.same_format;
          same_bag = d.same_bag;
          slots = d.slots ∙ kept;
          to_ros = d.to_ros;
          in_bag = d.in_bag;
        },
        emitted_seq self.output_to_ros self.enable_lidar_bag self.bag topic time m self1,
      )

  -- A packet, by the format.
  pub packet_lem :
      (t : TransferType) (p : StoragePacket) (self : Ros1Lddc)
      → Ros1Publishes t
      → p.points_num ≡ length p.points
      → index < length self.topics.private_pub
      → (self' : Ros1Lddc) × (sent : List Sent) × (publish_packet inet_ntoa fu t lidars index lidar
            p self
          ≡ ok (self', sent))
        × Delivers (ros1_timed fu self.frame_id lidar t self.msg_seq p ∷ []) self self' sent
        × (self'.msg_seq ≡ next_seq t self.msg_seq)
  unfolding publish_packet init_custom_msg init_pcl_msg
  packet_lem point_cloud2_msg p self which sized inside =
      let (self', sent, published, d, seq) =
        point_data_lem (timestamp_of p)
          (ros1_message fu self.frame_id lidar point_cloud2_msg self.msg_seq p) self inside in
      (self', sent, rw (init_pointcloud2_msg_lem fu self.frame_id p sized) published, d, seq)
  packet_lem livox_custom_msg p self which sized inside =
      let self1 : Ros1Lddc = record self { msg_seq = (self.msg_seq + 1) % 2 ^ 32 } in
      let (self', sent, published, d, seq) =
        point_data_lem (timestamp_of p)
          (ros1_message fu self.frame_id lidar livox_custom_msg self.msg_seq p) self1 inside in
      (
        self',
        sent,
        rw (fill_points_to_custom_msg_lem fu (init_custom_msg self.frame_id p lidar) p sized)
            published,
        record {
          same_output = d.same_output;
          same_enable = d.same_enable;
          same_frame = d.same_frame;
          same_format = d.same_format;
          same_bag = d.same_bag;
          slots = d.slots;
          to_ros = d.to_ros;
          in_bag = d.in_bag;
        },
        seq,
      )
  packet_lem pcl_pxyzi_msg p self which sized inside =
      let (self', sent, published, d, seq) =
        point_data_lem (timestamp_of p)
          (ros1_message fu self.frame_id lidar pcl_pxyzi_msg self.msg_seq p) self inside in
      (self', sent, rw (pcl_filled fu self.frame_id p p.points refl sized) published, d, seq)
  packet_lem unknown p self which sized inside = absurd which
