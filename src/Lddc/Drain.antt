-- ===== src/Lddc/Drain.antt =====
-- The poll loops empty the queue of a device into messages.
use livox_mid360_rko_lio_ros.Base.{
  ℕ, zero, suc, ◌*◌, ◌%◌, ◌^◌, ◌≡◌, refl, ap, true, false, none, some, List, [], ◌∷◌, ◌++◌, map,
  arith, length, Outcome, ok,
}
use livox_mid360_rko_lio_ros.Comm.{PointXyzlt, StoragePacket}
use livox_mid360_rko_lio_ros.Comm.Float.{FloatUnit}
use livox_mid360_rko_lio_ros.Ldq.{LidarDataQueue, queue_is_empty, queue_pop_update, queue_used_size}
use livox_mid360_rko_lio_ros.Ldq.Fifo.{Holds, sizes_of_Holds, pop-Holds}
use livox_mid360_rko_lio_ros.Lds.{LidarDevice, is_null}
use livox_mid360_rko_lio_ros.Lddc.Messages.{
  cloud_point, custom_point, point_fields, timestamp_of, init_custom_msg,
}
use livox_mid360_rko_lio_ros.Lddc.Messages.Fill.{
  init_pointcloud2_msg_lem, fill_points_to_custom_msg_lem,
}
use livox_mid360_rko_lio_ros.Lddc.{
  Message, cloud, custom, TransferType, point_cloud2_msg, livox_custom_msg, pcl_pxyzi_msg, unknown,
  Lddc, publish, pointcloud2_of, custom_of, unless_empty, drain, publish_pointcloud2,
  publish_custom_pointcloud, publish_pcl_msg, polling_round, polling_loop,
  polling_lidar_point_cloud_data,
}

append_nil : (ms : List Message) → ms ++ [] ≡ ms
append_nil [] = refl
append_nil (m ∷ ms) = ap (◌∷◌ m) (append_nil ms)

-- What a list of packets becomes, where `made` is the messages of a packet with points.
abbrev pub made_of : (StoragePacket → List Message) → StoragePacket → List PointXyzlt → List Message
made_of made p [] = []
made_of made p (q ∷ qs) = made p

unfoldable pub messages_of : (StoragePacket → List Message) → List StoragePacket → List Message
messages_of made [] = []
messages_of made (p ∷ c) = made_of made p p.points ++ messages_of made c

unless_empty_lem :
    (build : Outcome (List Message)) (made : StoragePacket → List Message) (p : StoragePacket)
    (ps : List PointXyzlt)
    → build ≡ ok (made p)
    → unless_empty ps build ≡ ok (made_of made p ps)
unless_empty_lem build made p [] e = refl
unless_empty_lem build made p (q ∷ qs) e = e

drain_lem :
    (k : ℕ) (build : StoragePacket → Outcome (List Message)) (made : StoragePacket → List Message)
    (c : List StoragePacket) (queue : LidarDataQueue)
    → ((p : StoragePacket) → p.points_num ≡ length p.points → build p ≡ ok (made p))
    → Holds k queue c
    → (queue' : LidarDataQueue) × (drain build (length c) queue ≡ ok (queue', messages_of made c))
      × Holds k queue' []
unfolding drain messages_of
drain_lem k build made [] queue each h = (queue, refl, h)
drain_lem k build made (p ∷ c) queue each h =
    let (popped, h') = pop-Holds p c h in
    let (queue', rest, h'') = drain_lem k build made c (queue_pop_update queue) each h' in
    let more : queue_is_empty queue ≡ false = ground (arith, sizes_of_Holds h) in
    let built = unless_empty_lem (build p) made p p.points (each p h.sized.0) in
    (queue', rw (more, popped, built, rest) refl, h'')

-- The point cloud of a packet, from its points alone.
abbrev pub cloud_of : FloatUnit → Lddc → ℕ → StoragePacket → List Message
cloud_of fu self index p = publish self (
    cloud index (record {
      frame_id = self.frame_id;
      stamp = timestamp_of p;
      height = 1;
      width = length p.points;
      fields = point_fields;
      is_bigendian = false;
      point_step = 26;
      row_step = length p.points * 26 % 2 ^ 32;
      points = map (cloud_point fu) p.points;
      is_dense = true;
    }))

-- The custom message of a packet, from its points and its lidar alone.
abbrev pub custom_message_of : FloatUnit → Lddc → ℕ → LidarDevice → StoragePacket → List Message
custom_message_of fu self index lidar p = publish self (
    custom index (record (init_custom_msg self.frame_id p lidar) {
      points = map (custom_point fu p.base_time) p.points;
    }))

-- The messages of a packet with points, by the transfer format.
unfoldable pub made_by :
    FloatUnit → TransferType → Lddc → ℕ → LidarDevice → StoragePacket → List Message
made_by fu point_cloud2_msg self index lidar p = cloud_of fu self index p
made_by fu livox_custom_msg self index lidar p = custom_message_of fu self index lidar p
made_by fu pcl_pxyzi_msg self index lidar p = []
made_by fu unknown self index lidar p = []

-- The formats that are published for ROS 2.
abbrev pub Publishes : TransferType → Type 0
Publishes point_cloud2_msg = Unit {0}
Publishes livox_custom_msg = Unit {0}
Publishes pcl_pxyzi_msg = ⊥
Publishes unknown = ⊥

module _ (fu : FloatUnit) (self : Lddc) (index : ℕ) where
  pointcloud2_of_lem :
      (p : StoragePacket)
      → p.points_num ≡ length p.points
      → pointcloud2_of fu self index p ≡ ok (cloud_of fu self index p)
  unfolding pointcloud2_of
  pointcloud2_of_lem p sized = rw (init_pointcloud2_msg_lem fu self.frame_id p sized) refl

  module _ (lidar : LidarDevice) where
    custom_of_lem :
        (p : StoragePacket)
        → p.points_num ≡ length p.points
        → custom_of fu self index lidar p ≡ ok (custom_message_of fu self index lidar p)
    unfolding custom_of
    custom_of_lem p sized =
        rw (fill_points_to_custom_msg_lem fu (init_custom_msg self.frame_id p lidar) p sized) refl

    round_lem :
        (t : TransferType) (k : ℕ) (c : List StoragePacket) (queue : LidarDataQueue)
        → Publishes t
        → Holds k queue c
        → (queue' : LidarDataQueue) × (polling_round fu t self index lidar queue
            ≡ ok (queue', messages_of (made_by fu t self index lidar) c))
          × Holds k queue' []
    unfolding polling_round publish_pointcloud2 publish_custom_pointcloud made_by
    round_lem point_cloud2_msg k c queue format h =
        let used : queue_used_size queue ≡ length c = (sizes_of_Holds h).0 in
        rw used (
          drain_lem k (pointcloud2_of fu self index) (cloud_of fu self index) c queue
            pointcloud2_of_lem h)
    round_lem livox_custom_msg k c queue format h =
        let used : queue_used_size queue ≡ length c = (sizes_of_Holds h).0 in
        rw used (
          drain_lem k (custom_of fu self index lidar) (custom_message_of fu self index lidar) c
            queue custom_of_lem h)
    round_lem pcl_pxyzi_msg k c queue format h = elim format [ ]
    round_lem unknown k c queue format h = elim format [ ]

    round_pcl :
        (queue : LidarDataQueue)
        → self.transfer_format ≡ pcl_pxyzi_msg
        → polling_round fu self.transfer_format self index lidar queue ≡ ok (queue, [])
    unfolding polling_round publish_pcl_msg
    round_pcl queue format = ap (λ t. polling_round fu t self index lidar queue) format

    loop_ends :
        (fuel : ℕ) (queue : LidarDataQueue)
        → queue_is_empty queue ≡ true
        → polling_loop fu false self index lidar (suc fuel) queue ≡ ok (some (queue, []))
    unfolding polling_loop
    loop_ends fuel queue e = rw e refl

    round_then :
        (fuel : ℕ) (queue queue' : LidarDataQueue) (messages : List Message)
        → queue_is_empty queue ≡ false
        → polling_round fu self.transfer_format self index lidar queue ≡ ok (queue', messages)
        → queue_is_empty queue' ≡ true
        → polling_loop fu false self index lidar (suc (suc fuel)) queue
          ≡ ok (some (queue', messages))
    unfolding polling_loop
    round_then fuel queue queue' messages more round done =
        rw (more, round, done) (ap (λ ms. ok (some (queue', ms))) (append_nil messages))

    poll :
        (k : ℕ) (c : List StoragePacket)
        → Publishes self.transfer_format
        → Holds k lidar.points c
        → (queue : LidarDataQueue) × (polling_loop fu false self index lidar 2 lidar.points
            ≡ ok (some (queue, messages_of (made_by fu self.transfer_format self index lidar) c)))
          × Holds k queue []
    unfolding messages_of
    poll k [] format h =
        (lidar.points, loop_ends 1 lidar.points (ground (arith, sizes_of_Holds h)), h)
    poll k (p ∷ c) format h =
        let (queue, published, h') =
          round_lem self.transfer_format k (p ∷ c) lidar.points format h in
        (
          queue,
          round_then 0 lidar.points queue _ (ground (arith, sizes_of_Holds h)) published
              (ground (arith, sizes_of_Holds h')),
          h',
        )

    -- With the format PointCloud2 or custom and no exit requested, PollingLidarPointCloudData, for
    -- a device whose ring holds packets, ends within two rounds, leaves the ring empty and
    -- publishes, in order, one message of the format for each packet with points, made of exactly
    -- these points (and nothing if the output is not ROS).
    pub polling_lem :
        (k : ℕ) (c : List StoragePacket)
        → Publishes self.transfer_format
        → Holds k lidar.points c
        → (queue : LidarDataQueue) × (polling_lidar_point_cloud_data fu false self index lidar
            ≡ ok (some (queue, messages_of (made_by fu self.transfer_format self index lidar) c)))
          × Holds k queue []
    unfolding polling_lidar_point_cloud_data
    polling_lem k c format h =
        let allocated : is_null lidar.points.storage_packet ≡ false = ap is_null h.storage in
        let (queue, polled, h') = poll k c format h in (queue, rw allocated polled, h')

    -- With the format of pcl messages, no exit requested and a ring that is not empty, the poll
    -- loop of a device is still running after any number of rounds.
    pub polling_loop_spins :
        (queue : LidarDataQueue)
        → self.transfer_format ≡ pcl_pxyzi_msg
        → queue_is_empty queue ≡ false
        → (fuel : ℕ) → polling_loop fu false self index lidar fuel queue ≡ ok none
    unfolding polling_loop
    polling_loop_spins queue format more zero = refl
    polling_loop_spins queue format more (suc fuel) =
        rw (more, round_pcl queue format, polling_loop_spins queue format more fuel) refl
