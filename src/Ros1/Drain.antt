-- ===== src/Ros1/Drain.antt =====
-- The loops that publish a queue for ROS 1, against the packets that it holds.
use livox_mid360_rko_lio_ros.Base.{
  ℕ, suc, ◌<◌, ◌≡◌, refl, sym, ap, ◌∙◌, true, false, some, List, [], ◌∷◌, ◌++◌, arith, length,
  get_elem?, ok, subst,
}
use livox_mid360_rko_lio_ros.Comm.{PointXyzlt, StoragePacket}
use livox_mid360_rko_lio_ros.Comm.Float.{FloatUnit}
use livox_mid360_rko_lio_ros.Ldq.{LidarDataQueue, queue_is_empty, queue_pop, queue_pop_update}
use livox_mid360_rko_lio_ros.Ldq.Fifo.{Holds, sizes_of_Holds, pop-Holds}
use livox_mid360_rko_lio_ros.Lds.{LidarDevice}
use livox_mid360_rko_lio_ros.Lddc.{
  TransferType, point_cloud2_msg, livox_custom_msg, pcl_pxyzi_msg, unknown,
}
use livox_mid360_rko_lio_ros.Ros1.State.{Ros1Message, Sent, Ros1Lddc}
use livox_mid360_rko_lio_ros.Ros1.Publish.{
  publish_packet, unless_no_points, ros1_drain, ros1_polling_round,
}
use livox_mid360_rko_lio_ros.Ros1.Deliver.{Delivers, Delivers-nil, Delivers-append}
use mathlib.Core.List.{append-nil}
use livox_mid360_rko_lio_ros.Ros1.Publish.{ros1_polling_loop}
use livox_mid360_rko_lio_ros.Ros1.Packet.{
  Ros1Publishes, next_seq, seq_after, seq_end, ros1_timed, ros1_messages, packet_lem,
}

module _ (inet_ntoa : ℕ → List ℕ) (fu : FloatUnit) (lidars : List LidarDevice) (index : ℕ)
    (lidar : LidarDevice) (at : get_elem? lidars index ≡ some lidar) where
  abbrev head_messages :
      TransferType → List ℕ → ℕ → StoragePacket → List PointXyzlt → List (ℕ × Ros1Message)
  head_messages t frame_id seq p [] = []
  head_messages t frame_id seq p (q ∷ qs) = ros1_timed fu frame_id lidar t seq p ∷ []

  ros1_messages-cons :
      (t : TransferType) (frame_id : List ℕ) (seq : ℕ) (p : StoragePacket) (c : List StoragePacket)
      (ps : List PointXyzlt)
      → p.points ≡ ps
      → head_messages t frame_id seq p ps
          ++ ros1_messages fu frame_id lidar t (seq_after t seq ps) c
        ≡ ros1_messages fu frame_id lidar t seq (p ∷ c)
  unfolding ros1_messages
  ros1_messages-cons t frame_id seq p c ps e = of ps ∙ ap shown (sym e)
    where
      shown : List PointXyzlt → List (ℕ × Ros1Message)
      shown l = elim l [
        | [] ↦ ros1_messages fu frame_id lidar t seq c
        | q ∷ qs ↦
            ros1_timed fu frame_id lidar t seq p
            ∷ ros1_messages fu frame_id lidar t (next_seq t seq) c
      ]

      of :
          (l : List PointXyzlt)
          → head_messages t frame_id seq p l
              ++ ros1_messages fu frame_id lidar t (seq_after t seq l) c
            ≡ shown l
      of [] = refl
      of (q ∷ qs) = refl

  one_packet :
      (t : TransferType) (p : StoragePacket) (ps : List PointXyzlt) (self : Ros1Lddc)
      → Ros1Publishes t
      → p.points_num ≡ length p.points
      → index < length self.topics.private_pub
      → (self' : Ros1Lddc) × (sent : List Sent) × (unless_no_points inet_ntoa fu ps self
            (publish_packet inet_ntoa fu t lidars index lidar p self)
          ≡ ok (self', sent))
        × Delivers (head_messages t self.frame_id self.msg_seq p ps) self self' sent
        × (self'.msg_seq ≡ seq_after t self.msg_seq ps)
  one_packet t p [] self which sized inside = (self, [], refl, Delivers-nil self, refl)
  one_packet t p (q ∷ qs) self which sized inside =
      packet_lem inet_ntoa fu lidars index lidar at t p self which sized inside

  drain_step :
      (t : TransferType) (fuel : ℕ) (queue queue' queue'' : LidarDataQueue) (p : StoragePacket)
      (s0 s1 s2 : Ros1Lddc) (sent rest : List Sent)
      → queue_is_empty queue ≡ false
      → queue_pop queue ≡ ok (some p, queue')
      → unless_no_points inet_ntoa fu p.points s0
          (publish_packet inet_ntoa fu t lidars index lidar p s0)
        ≡ ok (s1, sent)
      → ros1_drain inet_ntoa fu t lidars index lidar fuel queue' s1 ≡ ok (queue'', s2, rest)
      → ros1_drain inet_ntoa fu t lidars index lidar (suc fuel) queue s0
        ≡ ok (queue'', s2, sent ++ rest)
  unfolding ros1_drain
  drain_step t fuel queue queue' queue'' p s0 s1 s2 sent rest more popped one others =
      rw (more, popped, one, others) refl

  ros1_drain_lem :
      (t : TransferType) (k : ℕ) (c : List StoragePacket) (queue : LidarDataQueue) (self : Ros1Lddc)
      → Ros1Publishes t
      → Holds k queue c
      → index < length self.topics.private_pub
      → (queue' : LidarDataQueue) × (self' : Ros1Lddc) × (sent : List Sent) × (ros1_drain inet_ntoa
            fu t lidars index lidar
            (length c)
            queue
            self
          ≡ ok (queue', self', sent))
        × Holds k queue' []
        × Delivers (ros1_messages fu self.frame_id lidar t self.msg_seq c) self self' sent
        × (self'.msg_seq ≡ seq_end t self.msg_seq c)
  unfolding ros1_drain ros1_messages seq_end
  ros1_drain_lem t k [] queue self which h inside =
      (queue, self, [], refl, h, Delivers-nil self, refl)
  ros1_drain_lem t k (p ∷ c) queue self which h inside =
      let (popped, h') = pop-Holds p c h in
      let more : queue_is_empty queue ≡ false = ground (arith, sizes_of_Holds h) in
      let (s1, sent, one, d, seq) = one_packet t p p.points self which h.sized.0 inside in
      let (queue', s2, rest, others, h'', e, last) =
        ros1_drain_lem t k c (queue_pop_update queue) s1 which h'
          (subst (λ n. index < n) (sym d.slots) inside) in
      let e' : Delivers
          (ros1_messages fu self.frame_id lidar t (seq_after t self.msg_seq p.points) c) s1 s2
          rest =
        subst (λ n. Delivers (ros1_messages fu self.frame_id lidar t n c) s1 s2 rest) seq
          (subst (λ f. Delivers (ros1_messages fu f lidar t s1.msg_seq c) s1 s2 rest) d.same_frame
            e) in
      (
        queue',
        s2,
        sent ++ rest,
        drain_step t (length c) queue (queue_pop_update queue) queue' p self s1 s2 sent rest more
            popped one others,
        h'',
        subst (λ out. Delivers out self s2 (sent ++ rest))
            (ros1_messages-cons t self.frame_id self.msg_seq p c p.points refl)
            (Delivers-append _ _ self s1 s2 sent rest d e'),
        last ∙ ap (λ n. seq_end t n c) seq,
      )

  ros1_polling_round_lem :
      (t : TransferType) (k : ℕ) (c : List StoragePacket) (queue : LidarDataQueue) (self : Ros1Lddc)
      → Ros1Publishes t
      → Holds k queue c
      → index < length self.topics.private_pub
      → (queue' : LidarDataQueue) × (self' : Ros1Lddc) × (sent : List Sent) × (ros1_polling_round
            inet_ntoa fu t lidars index lidar queue self
          ≡ ok (queue', self', sent))
        × Holds k queue' []
        × Delivers (ros1_messages fu self.frame_id lidar t self.msg_seq c) self self' sent
        × (self'.msg_seq ≡ seq_end t self.msg_seq c)
  unfolding ros1_polling_round
  ros1_polling_round_lem point_cloud2_msg k c queue self which h inside =
      rw ((sizes_of_Holds h).0) (ros1_drain_lem point_cloud2_msg k c queue self which h inside)
  ros1_polling_round_lem livox_custom_msg k c queue self which h inside =
      rw ((sizes_of_Holds h).0) (ros1_drain_lem livox_custom_msg k c queue self which h inside)
  ros1_polling_round_lem pcl_pxyzi_msg k c queue self which h inside =
      rw ((sizes_of_Holds h).0) (ros1_drain_lem pcl_pxyzi_msg k c queue self which h inside)
  ros1_polling_round_lem unknown k c queue self which h inside = absurd which

  loop_done :
      (fuel : ℕ) (queue : LidarDataQueue) (self : Ros1Lddc)
      → queue_is_empty queue ≡ true
      → ros1_polling_loop inet_ntoa fu false lidars index lidar (suc fuel) queue self
        ≡ ok (some (queue, self, []))
  unfolding ros1_polling_loop
  loop_done fuel queue self empty = rw empty refl

  loop_step :
      (fuel : ℕ) (queue queue' : LidarDataQueue) (s0 s1 : Ros1Lddc) (sent : List Sent)
      → queue_is_empty queue ≡ false
      → ros1_polling_round inet_ntoa fu s0.transfer_format lidars index lidar queue s0
        ≡ ok (queue', s1, sent)
      → queue_is_empty queue' ≡ true
      → ros1_polling_loop inet_ntoa fu false lidars index lidar (suc (suc fuel)) queue s0
        ≡ ok (some (queue', s1, sent ++ []))
  unfolding ros1_polling_loop
  loop_step fuel queue queue' s0 s1 sent more round empty =
      rw (more, round, loop_done fuel queue' s1 empty) refl

  -- With no exit requested, a place among the publishers and a ring that holds packets, the loop
  -- ends within two rounds and leaves the ring empty; the messages of the packets are delivered.
  pub ros1_polling_loop_lem :
      (k : ℕ) (c : List StoragePacket) (queue : LidarDataQueue) (self : Ros1Lddc)
      → Ros1Publishes self.transfer_format
      → Holds k queue c
      → index < length self.topics.private_pub
      → (queue' : LidarDataQueue) × (self' : Ros1Lddc) × (sent : List Sent) × (ros1_polling_loop
            inet_ntoa fu false lidars index lidar 2 queue self
          ≡ ok (some (queue', self', sent)))
        × Holds k queue' []
        × Delivers
            (ros1_messages fu self.frame_id lidar self.transfer_format self.msg_seq c)
            self
            self'
            sent
        × (self'.msg_seq ≡ seq_end self.transfer_format self.msg_seq c)
  unfolding ros1_messages seq_end
  ros1_polling_loop_lem k [] queue self which h inside = (
    queue,
    self,
    [],
    loop_done 1 queue self (ground (arith, sizes_of_Holds h)),
    h,
    Delivers-nil self,
    refl,
  )
  ros1_polling_loop_lem k (p ∷ c) queue self which h inside =
      let more : queue_is_empty queue ≡ false = ground (arith, sizes_of_Holds h) in
      let (queue', self', sent, round, h', d, last) =
        ros1_polling_round_lem self.transfer_format k (p ∷ c) queue self which h inside in
      (
        queue',
        self',
        sent ++ [],
        loop_step 0 queue queue' self self' sent more round (ground (arith, sizes_of_Holds h')),
        h',
        subst
            (λ l.
              Delivers
                (ros1_messages fu self.frame_id lidar self.transfer_format self.msg_seq (p ∷ c))
                self self' l)
            (sym (append-nil sent)) d,
        last,
      )
