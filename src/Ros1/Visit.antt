-- ===== src/Ros1/Visit.antt =====
-- The loop of `DistributePointCloudData` for ROS 1, which visits one device after another.
use livox_mid360_rko_lio_ros.Base.{
  ℕ, zero, suc, ◌+◌, ◌≤◌, ◌<◌, ◌≡◌, refl, sym, ap, subst, ◌∙◌, false, some, List, [], ◌++◌,
  if◌then◌else◌, arith, length, set, get_elem?, length-set, get_elem?-set_self, get_elem?-set_ne,
  get_elem?_lt, lt_of_get_elem?, ℕ_discrete, ok,
}
use mathlib.Core.List.{append_assoc, append-nil}
use livox_mid360_rko_lio_ros.Comm.Float.{FloatUnit}
use livox_mid360_rko_lio_ros.Ldq.{LidarDataQueue}
use livox_mid360_rko_lio_ros.Lds.{LidarDevice, Lds}
use livox_mid360_rko_lio_ros.Lds.Push.{Serves}
use livox_mid360_rko_lio_ros.Lds.Frame.{Queues}
use livox_mid360_rko_lio_ros.Lddc.{TransferType, is_sampling}
use livox_mid360_rko_lio_ros.Ros1.State.{Sent, Ros1Lddc}
use livox_mid360_rko_lio_ros.Ros1.Deliver.{Delivers, Delivers-nil, Delivers-append}
use livox_mid360_rko_lio_ros.Ros1.Packet.{Ros1Publishes, ros1_messages, seq_end}
use livox_mid360_rko_lio_ros.Ros1.Devices.{
  ros1_polling_lidar_point_cloud_data, ros1_distribute_loop,
}
use livox_mid360_rko_lio_ros.Ros1.Poll.{taken, ros1_from, Ros1Polled, poll_device}
use livox_mid360_rko_lio_ros.Lddc.Distribute.{kept}

module _ (inet_ntoa : ℕ → List ℕ) (fu : FloatUnit) (n : ℕ) (K : ℕ → ℕ) (C : Queues)
    (ds : List LidarDevice) where
  abbrev put_queue : Lds → ℕ → LidarDevice → LidarDataQueue → Lds
  put_queue s i d queue = record s { lidars = set s.lidars i (record d { points = queue }) }

  distribute_step :
      (left i : ℕ) (s : Lds) (d : LidarDevice) (self self' : Ros1Lddc) (queue : LidarDataQueue)
      (sent more : List Sent)
      → get_elem? s.lidars i ≡ some d
      → (if is_sampling fu d.connect_state
          then ros1_polling_lidar_point_cloud_data inet_ntoa fu s.request_exit s.lidars i d self
          else ok (some (d.points, self, [])))
        ≡ ok (some (queue, self', more))
      → ros1_distribute_loop inet_ntoa fu (suc left) i s self sent
        ≡ ros1_distribute_loop inet_ntoa fu left
            (i + 1)
            (put_queue s i d queue)
            self'
            (sent ++ more)
  unfolding ros1_distribute_loop
  distribute_step left i s d self self' queue sent more at polled = rw (at, polled) refl

  distribute_end :
      (i : ℕ) (s : Lds) (self : Ros1Lddc) (sent : List Sent)
      → ros1_distribute_loop inet_ntoa fu zero i s self sent ≡ ok (some (s, self, sent))
  unfolding ros1_distribute_loop
  distribute_end i s self sent = refl

  from_eq :
      (frame_id : List ℕ) (t : TransferType) (left i seq : ℕ) (d : LidarDevice)
      → get_elem? ds i ≡ some d
      → ros1_from fu C ds frame_id t (suc left) i seq
        ≡ ros1_messages fu frame_id d t seq (taken d.connect_state (C i))
          ++ ros1_from fu C ds frame_id t left (i + 1) (seq_end t seq (taken d.connect_state (C i)))
  unfolding ros1_from
  from_eq frame_id t left i seq d at = rw (ros1_from, at) refl

  -- A device, and then those behind it.
  from_step :
      (left i : ℕ) (d : LidarDevice) (s0 s1 s2 : Ros1Lddc) (sent rest : List Sent)
      → get_elem? ds i ≡ some d
      → Delivers
          (ros1_messages fu s0.frame_id d s0.transfer_format s0.msg_seq
            (taken d.connect_state (C i)))
          s0
          s1
          sent
      → s1.msg_seq ≡ seq_end s0.transfer_format s0.msg_seq (taken d.connect_state (C i))
      → Delivers
          (ros1_from fu C ds s1.frame_id s1.transfer_format left (i + 1) s1.msg_seq)
          s1
          s2
          rest
      → Delivers
          (ros1_from fu C ds s0.frame_id s0.transfer_format (suc left) i s0.msg_seq)
          s0
          s2
          (sent ++ rest)
  from_step left i d s0 s1 s2 sent rest at first last others =
      let c = taken d.connect_state (C i) in
      let same : ros1_from fu C ds s1.frame_id s1.transfer_format left (i + 1) s1.msg_seq
          ≡ ros1_from fu C ds s0.frame_id s0.transfer_format left (i + 1)
              (seq_end s0.transfer_format s0.msg_seq c) =
        rw (first.same_frame, first.same_format, last) refl in
      subst (λ out. Delivers out s0 s2 (sent ++ rest))
        (sym (from_eq s0.frame_id s0.transfer_format left i s0.msg_seq d at))
        (Delivers-append _ _ s0 s1 s2 sent rest first
          (subst (λ out. Delivers out s1 s2 rest) same others))

  -- The device that has just been polled.
  polled_at :
      (i j : ℕ) (d d' : LidarDevice) (queue : LidarDataQueue) (lidars : List LidarDevice)
      → get_elem? ds i ≡ some d
      → get_elem? ds j ≡ some d'
      → i ≡ j
      → get_elem? lidars i ≡ some (record d { points = queue })
      → Serves n (K i) queue (kept d.connect_state (C i))
      → Ros1Polled n K C j d' lidars
  polled_at i j d d' queue lidars here there equal put v =
      let found : some d ≡ some d' = sym here ∙ ap (get_elem? ds) equal ∙ there in
      let known : d ≡ d' = cc in
      subst (λ k. Ros1Polled n K C k d' lidars) equal
        (subst (λ x. Ros1Polled n K C i x lidars) known
          (record { queue = queue; at = put; serves = v }))

  module _
      (serves : (i : ℕ) (d : LidarDevice)
        → get_elem? ds i ≡ some d
        → Serves n (K i) d.points (C i)) where
    -- The loop from device `i` on, of which none has been visited.
    pub loop_lem :
        (left i : ℕ) (s : Lds) (self : Ros1Lddc) (sent : List Sent)
        → Ros1Publishes self.transfer_format
        → length ds ≤ length self.topics.private_pub
        → i + left ≡ length ds
        → length s.lidars ≡ length ds
        → s.request_exit ≡ false
        → ((j : ℕ) → i ≤ j → get_elem? s.lidars j ≡ get_elem? ds j)
        → (lidars : List LidarDevice) × (self' : Ros1Lddc) × (more : List Sent)
          × (ros1_distribute_loop inet_ntoa fu left i s self sent
              ≡ ok (some (record s { lidars = lidars }, self', sent ++ more)))
          × Delivers
              (ros1_from fu C ds self.frame_id self.transfer_format left i self.msg_seq)
              self
              self'
              more
          × ((j : ℕ) → j < i → get_elem? lidars j ≡ get_elem? s.lidars j)
          × ((j : ℕ) (d : LidarDevice)
              → i ≤ j
              → get_elem? ds j ≡ some d
              → Ros1Polled n K C j d lidars)
    unfolding ros1_from
    loop_lem zero i s self sent which room total same stay rest = (
      s.lidars,
      self,
      [],
      distribute_end i s self sent ∙ ap (λ ms. ok (some (s, self, ms))) (sym (append-nil sent)),
      Delivers-nil self,
      λ j h. refl,
      λ j d h at. absurd (omega (arith, lt_of_get_elem? ds j at)),
    )
    loop_lem (suc left) i s self sent which room total same stay rest =
        let (d, at) = get_elem?_lt s.lidars i (omega arith) in
        let here : get_elem? ds i ≡ some d = sym (rest i (omega arith)) ∙ at in
        let (queue, s1, first, polled, v, delivered, last) =
          poll_device inet_ntoa fu n K C d.connect_state s.lidars i d self at which (omega arith)
            (serves i d here) in
        let polled' : (if is_sampling fu d.connect_state
              then ros1_polling_lidar_point_cloud_data inet_ntoa fu s.request_exit s.lidars i d self
              else ok (some (d.points, self, [])))
            ≡ ok (some (queue, s1, first)) =
          rw stay polled in
        let put = record d { points = queue } in
        let (lidars, s2, more, done, others, before, after) =
          loop_lem left (i + 1) (put_queue s i d queue) s1 (sent ++ first)
            (subst Ros1Publishes (sym delivered.same_format) which) (omega (arith, delivered.slots))
            (omega arith) (length-set s.lidars i put ∙ same) stay
            (λ j h. get_elem?-set_ne s.lidars i j put (λ e. omega arith) ∙ rest j (omega arith)) in
        (
          lidars,
          s2,
          first ++ more,
          distribute_step left i s d self s1 queue sent first at polled'
              ∙ done
              ∙ ap (λ ms. ok (some (record s { lidars = lidars }, s2, ms)))
                  (append_assoc sent first more),
          from_step left i d self s1 s2 first more here delivered last others,
          λ j h. before j (omega arith) ∙ get_elem?-set_ne s.lidars i j put (λ e. omega arith),
          λ j d' h at'. elim (ℕ_discrete i j) [
            | yes equal ↦
                polled_at i j d d' queue lidars here at' equal
                  (before i (omega arith) ∙ get_elem?-set_self s.lidars i put (omega arith)) v
            | no other ↦ after j d' (omega arith) at'
          ],
        )
