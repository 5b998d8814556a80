-- ===== src/Lddc/Distribute.antt =====
-- `DistributePointCloudData`: one round of the point cloud thread over all devices.
use livox_mid360_rko_lio_ros.Base.{
  ℕ, zero, suc, ◌+◌, ◌≤◌, ◌<◌, ◌≡◌, refl, sym, ap, subst, ◌∙◌, true, false, none, some, List, [],
  ◌++◌, if◌then◌else◌, if_false, arith, length, set, get_elem?, length-set, get_elem?-set_self,
  get_elem?-set_ne, get_elem?_lt, lt_of_get_elem?, ℕ_discrete, ok, ◌>>=◌,
}
use mathlib.Core.List.{append_assoc, append-nil}
use livox_mid360_rko_lio_ros.Comm.{LidarConnectState, off, on, config, sampling, StoragePacket}
use livox_mid360_rko_lio_ros.Comm.Float.{FloatUnit, calculate_packet_queue_size}
use livox_mid360_rko_lio_ros.Ldq.{LidarDataQueue}
use livox_mid360_rko_lio_ros.Semaphore.{Semaphore, wait}
use livox_mid360_rko_lio_ros.Lds.{LidarDevice, Lds, is_null}
use livox_mid360_rko_lio_ros.Lds.Push.{Serves, live, unused}
use livox_mid360_rko_lio_ros.Lds.Frame.{Queues, LdsServes}
use livox_mid360_rko_lio_ros.Lddc.{
  Message, Lddc, is_sampling, polling_lidar_point_cloud_data, distribute_loop, point_cloud_woken,
  point_cloud_wait, point_cloud_round, distribute_point_cloud_data,
}
use livox_mid360_rko_lio_ros.Lddc.Drain.{messages_of, made_by, Publishes, polling_lem}

-- What is left in the queue of a device.
abbrev pub kept : LidarConnectState → List StoragePacket → List StoragePacket
kept sampling c = []
kept off c = c
kept on c = c
kept config c = c

module _ (fu : FloatUnit) (self : Lddc) (n : ℕ) (K : ℕ → ℕ) (C : Queues)
    (ds : List LidarDevice) where
  abbrev pub sent_by : LidarConnectState → ℕ → LidarDevice → List Message
  sent_by sampling i d = messages_of (made_by fu self.transfer_format self i d) (C i)
  sent_by off i d = []
  sent_by on i d = []
  sent_by config i d = []

  -- What is published for the devices from `i` on, in their order.
  unfoldable pub sent_from : ℕ → ℕ → List Message
  sent_from zero i = []
  sent_from (suc left) i =
      elim (get_elem? ds i) [ none ↦ [] | some d ↦ sent_by d.connect_state i d ]
      ++ sent_from left (i + 1)

  -- Device `j`, which was `d`, has another queue, with what is left.
  pub record Polled (j : ℕ) (d : LidarDevice) (lidars : List LidarDevice) : Type 0 where
    pub queue : LidarDataQueue
    pub at : get_elem? lidars j ≡ some (record d { points = queue })
    pub serves : Serves n (K j) queue (kept d.connect_state (C j))

  module _ (publishes : Publishes self.transfer_format) where
    poll_sampling :
        (i : ℕ) (d : LidarDevice)
        → Serves n (K i) d.points (C i)
        → (queue : LidarDataQueue) × (polling_lidar_point_cloud_data fu false self i d
            ≡ ok (some (queue, messages_of (made_by fu self.transfer_format self i d) (C i))))
          × Serves n (K i) queue []
    unfolding messages_of polling_lidar_point_cloud_data
    poll_sampling i d (live h) =
        let (queue, polled, h') = polling_lem fu self i d (K i) (C i) publishes h in
        (queue, polled, live h')
    poll_sampling i d (unused e none' up) =
        let fresh : is_null d.points.storage_packet ≡ true = ap is_null e in
        (d.points, rw (fresh, none') refl, unused e refl up)

    poll_device :
        (state : LidarConnectState) (i : ℕ) (d : LidarDevice)
        → Serves n (K i) d.points (C i)
        → (queue : LidarDataQueue) × ((if is_sampling fu state
              then polling_lidar_point_cloud_data fu false self i d
              else ok (some (d.points, [])))
            ≡ ok (some (queue, sent_by state i d)))
          × Serves n (K i) queue (kept state (C i))
    poll_device sampling i d v = poll_sampling i d v
    poll_device off i d v = (d.points, refl, v)
    poll_device on i d v = (d.points, refl, v)
    poll_device config i d v = (d.points, refl, v)

    module _
        (serves : (i : ℕ) (d : LidarDevice)
          → get_elem? ds i ≡ some d
          → Serves n (K i) d.points (C i)) where
      abbrev put_queue : Lds → ℕ → LidarDevice → LidarDataQueue → Lds
      put_queue s i d queue = record s { lidars = set s.lidars i (record d { points = queue }) }

      distribute_step :
          (left i : ℕ) (s : Lds) (d : LidarDevice) (queue : LidarDataQueue)
          (sent messages : List Message)
          → get_elem? s.lidars i ≡ some d
          → (if is_sampling fu d.connect_state
              then polling_lidar_point_cloud_data fu s.request_exit self i d
              else ok (some (d.points, [])))
            ≡ ok (some (queue, messages))
          → distribute_loop fu self (suc left) i s sent
            ≡ distribute_loop fu self left (i + 1) (put_queue s i d queue) (sent ++ messages)
      unfolding distribute_loop
      distribute_step left i s d queue sent messages at polled = rw (at, polled) refl

      distribute_end :
          (i : ℕ) (s : Lds) (sent : List Message)
          → distribute_loop fu self zero i s sent ≡ ok (some (s, sent))
      unfolding distribute_loop
      distribute_end i s sent = refl

      sent_step :
          (left i : ℕ) (d : LidarDevice)
          → get_elem? ds i ≡ some d
          → sent_from (suc left) i ≡ sent_by d.connect_state i d ++ sent_from left (i + 1)
      unfolding sent_from
      sent_step left i d at = rw at refl

      -- The loop from device `i` on, of which none has been visited.
      loop_lem :
          (left i : ℕ) (s : Lds) (sent : List Message)
          → i + left ≡ length ds
          → length s.lidars ≡ length ds
          → s.request_exit ≡ false
          → ((j : ℕ) → i ≤ j → get_elem? s.lidars j ≡ get_elem? ds j)
          → (lidars : List LidarDevice) × (distribute_loop fu self left i s sent
              ≡ ok (some (record s { lidars = lidars }, sent ++ sent_from left i)))
            × ((j : ℕ) → j < i → get_elem? lidars j ≡ get_elem? s.lidars j)
            × ((j : ℕ) (d : LidarDevice) → i ≤ j → get_elem? ds j ≡ some d → Polled j d lidars)
      unfolding sent_from
      loop_lem zero i s sent total same stay rest = (
        s.lidars,
        distribute_end i s sent ∙ ap (λ ms. ok (some (s, ms))) (sym (append-nil sent)),
        λ j h. refl,
        λ j d h at. absurd (omega (arith, lt_of_get_elem? ds j at)),
      )
      loop_lem (suc left) i s sent total same stay rest =
          let (d, at) = get_elem?_lt s.lidars i (omega arith) in
          let here : get_elem? ds i ≡ some d = sym (rest i (omega arith)) ∙ at in
          let (queue, polled, v) = poll_device d.connect_state i d (serves i d here) in
          let polled' : (if is_sampling fu d.connect_state
                then polling_lidar_point_cloud_data fu s.request_exit self i d
                else ok (some (d.points, [])))
              ≡ ok (some (queue, sent_by d.connect_state i d)) =
            rw stay polled in
          let s1 = put_queue s i d queue in
          let (lidars, done, before, after) =
            loop_lem left (i + 1) s1 (sent ++ sent_by d.connect_state i d) (omega arith)
              (length-set s.lidars i (record d { points = queue }) ∙ same) stay
              (λ j h.
                get_elem?-set_ne s.lidars i j (record d { points = queue }) (λ e. omega arith)
                ∙ rest j (omega arith)) in
          (
            lidars,
            distribute_step left i s d queue sent (sent_by d.connect_state i d) at polled'
                ∙ done
                ∙ ap (λ ms. ok (some (record s { lidars = lidars }, ms)))
                    (append_assoc sent (sent_by d.connect_state i d) (sent_from left (i + 1))
                      ∙ ap (λ ms. sent ++ ms) (sym (sent_step left i d here))),
            λ j h.
                before j (omega arith)
                ∙ get_elem?-set_ne s.lidars i j (record d { points = queue }) (λ e. omega arith),
            λ j d' h at'. elim (ℕ_discrete i j) [
              | yes equal ↦
                  let found : some d ≡ some d' = sym here ∙ ap (get_elem? ds) equal ∙ at' in
                  let known : d ≡ d' = cc in
                  let polled_here : Polled i d lidars = record {
                    queue = queue;
                    at =
                        before i (omega arith)
                        ∙ get_elem?-set_self s.lidars i (record d { points = queue }) (omega arith);
                    serves = v;
                  } in
                  subst (λ k. Polled k d' lidars) equal
                    (subst (λ x. Polled i x lidars) known polled_here)
              | no other ↦ after j d' (omega arith) at'
            ],
          )

woken_lem :
    (fu : FloatUnit) (self : Lddc) (s s' : Lds) (semaphore : Semaphore) (sent : List Message)
    → self.lds ≡ some s
    → s.request_exit ≡ false
    → wait s.pcd_semaphore ≡ some semaphore
    → distribute_loop fu self s.lidar_count 0 (record s { pcd_semaphore = semaphore }) []
      ≡ ok (some (s', sent))
    → distribute_point_cloud_data fu self ≡ ok (some (record self { lds = some s' }, sent))
unfolding distribute_point_cloud_data point_cloud_round point_cloud_wait point_cloud_woken
woken_lem fu self s s' semaphore sent has stay waited looped =
    ap (λ o. elim o [ none ↦ ok (some (self, [])) | some lds ↦ point_cloud_round fu self lds ]) has
    ∙ if_false s.request_exit (ok (some (self, []))) (point_cloud_wait fu self s) stay
    ∙ ap (λ o. elim o [ none ↦ ok none | some w ↦ point_cloud_woken fu self s w ]) waited
    ∙ ap
        (λ o. o >>= λ done. elim done [
          | none ↦ ok none
          | some (lds', messages) ↦ ok (some (record self { lds = some lds' }, messages))
        ])
        looped

-- DistributePointCloudData, with no exit requested, the semaphore up, a published format, 32
-- devices and a state in which each device serves its queue: it takes the semaphore down by one,
-- publishes, device after device, the messages of the packets that the sampled devices hold, and
-- changes in no device anything but its ring, which is empty afterwards if the device is sampled
-- and holds the same packets if it is not.
pub distribute_point_cloud_data_lem :
    (fu : FloatUnit) (self : Lddc) (s : Lds) (semaphore : Semaphore) (K : ℕ → ℕ) (C : Queues)
    → self.lds ≡ some s
    → s.request_exit ≡ false
    → s.lidar_count ≡ 32
    → wait s.pcd_semaphore ≡ some semaphore
    → LdsServes fu s K C
    → Publishes self.transfer_format
    → (lidars : List LidarDevice) × (distribute_point_cloud_data fu self
        ≡ ok (
            some (
              record self { lds = some (record s { pcd_semaphore = semaphore; lidars = lidars }) },
              sent_from fu self
                  (calculate_packet_queue_size fu s.publish_freq)
                  K
                  C
                  s.lidars
                  s.lidar_count
                  0,
            )))
      × ((j : ℕ) (d : LidarDevice)
          → get_elem? s.lidars j ≡ some d
          → Polled fu self (calculate_packet_queue_size fu s.publish_freq) K C s.lidars j d lidars)
distribute_point_cloud_data_lem fu self s semaphore K C has stay count waited v publishes =
    let (lidars, done, before, after) =
      loop_lem fu self (calculate_packet_queue_size fu s.publish_freq) K C s.lidars publishes
        v.serves s.lidar_count 0 (record s { pcd_semaphore = semaphore }) []
        (omega (arith, v.devices)) refl stay (λ j h. refl) in
    (
      lidars,
      woken_lem fu self s _ semaphore _ has stay waited done,
      λ j d at. after j d (omega arith) at,
    )
