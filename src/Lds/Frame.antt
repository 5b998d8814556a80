-- ===== src/Lds/Frame.antt =====
-- `StoragePointData` against the queues that the devices hold: a function from the device's index
-- to the packets that it has queued.
use livox_mid360_rko_lio_ros.Base.{
  ℕ, zero, suc, ◌+◌, ◌^◌, ◌≤◌, ◌<◌, ◌≡◌, refl, sym, ◌∙◌, inl, inr, false, none, some, List, [], ◌∷◌,
  ◌==◌, if◌then◌else◌, arith, length, set, get_elem?, length-set, get_elem?_lt, get_elem?-set_self,
  get_elem?-set_ne, Option-cases, ℕ_discrete, ok, ==_refl, subst,
}
use livox_mid360_rko_lio_ros.Comm.{PointPacket, PointFrame, StoragePacket}
use livox_mid360_rko_lio_ros.Comm.Float.{FloatUnit, calculate_packet_queue_size}
use livox_mid360_rko_lio_ros.Ldq.{LidarDataQueue}
use livox_mid360_rko_lio_ros.Ldq.Fifo.{Holds, stored}
use livox_mid360_rko_lio_ros.CacheIndex.{CacheIndex, get_index}
use livox_mid360_rko_lio_ros.CacheIndex.Inv.{IsValid}
use livox_mid360_rko_lio_ros.CacheIndex.Lookup.{get_index-lt}
use livox_mid360_rko_lio_ros.Lds.{
  LidarDevice, Lds, push_lidar_data, storage_point, storage_point_loop, storage_point_data,
}
use livox_mid360_rko_lio_ros.Lds.Keeps.{
  SameButQueues-set, Keeps, Keeps-refl, Keeps-trans, signalled, AnyKnown, woken,
}
use livox_mid360_rko_lio_ros.Lds.Push.{Serves, live, offer, pushed_state, push_lidar_data_lem}

abbrev pub Queues : Type 0
Queues = ℕ → List StoragePacket

-- Device `x` is offered the packet `p`; device `j` has room for `2 ^ K j` packets.
abbrev pub put : (ℕ → ℕ) → ℕ → StoragePacket → Queues → Queues
put K x p C j = if x == j then offer (K j) (C j) p else C j

-- The packets of a frame with their base times, `left` of them from `i` on.
unfoldable pub packets_from : ℕ → ℕ → PointFrame → List (PointPacket × ℕ)
packets_from zero i frame = []
packets_from (suc left) i frame =
    let rest = packets_from left (i + 1) frame in
    elim (get_elem? frame.lidar_point i) [
      | none ↦ []
      | some p ↦ elim (get_elem? frame.base_time i) [ none ↦ [] | some t ↦ (p, t) ∷ rest ]
    ]

unfoldable pub store_packet : (ℕ → ℕ) → CacheIndex → PointPacket → ℕ → Queues → Queues
store_packet K cache p t C = elim (get_index p.lidar_type p.handle cache) [
  | none ↦ C
  | some x ↦ put K x (stored p t) C
]

-- Each packet is offered to the device that its lidar has, and is skipped if it has none.
unfoldable pub store : (ℕ → ℕ) → CacheIndex → List (PointPacket × ℕ) → Queues → Queues
store K cache [] C = C
store K cache ((p, t) ∷ ps) C = store K cache ps (store_packet K cache p t C)

-- Device `x` serves the packets that it was offered, and the other devices what they served.
module _ (n : ℕ) (K : ℕ → ℕ) (C : Queues) (lidars : List LidarDevice) (x : ℕ) (d : LidarDevice)
    (queue : LidarDataQueue) (p : StoragePacket) where
  Serves-self :
      (d' : LidarDevice)
      → x < length lidars
      → Holds (K x) queue (offer (K x) (C x) p)
      → get_elem? (set lidars x (record d { points = queue })) x ≡ some d'
      → Serves n (K x) d'.points (put K x p C x)
  Serves-self d' inside h at =
      let same : d'.points ≡ queue =
        ground (arith, get_elem?-set_self lidars x (record d { points = queue })) in
      rw (same, ==_refl x) (live h)

  Serves-set :
      (i : ℕ) (d' : LidarDevice)
      → x < length lidars
      → Holds (K x) queue (offer (K x) (C x) p)
      → ((j : ℕ) (e : LidarDevice) → get_elem? lidars j ≡ some e → Serves n (K j) e.points (C j))
      → get_elem? (set lidars x (record d { points = queue })) i ≡ some d'
      → Serves n (K i) d'.points (put K x p C i)
  Serves-set i d' inside h old at = elim (ℕ_discrete x i) [
    | yes same ↦
        subst (λ j. Serves n (K j) d'.points (put K x p C j)) same
          (Serves-self d' inside h (
            subst (λ j. get_elem? (set lidars x (record d { points = queue })) j ≡ some d')
              (sym same) at))
    | no other ↦
        let apart : (x == i) ≡ false = ground arith in
        rw apart
          (old i d' (sym (get_elem?-set_ne lidars x i (record d { points = queue }) other) ∙ at))
  ]

-- A frame whose arrays are as long as it says, and so are its packets' points.
pub record IsFrame (frame : PointFrame) : Type 0 where
  pub enough_points : frame.lidar_num ≤ length frame.lidar_point
  pub enough_times : frame.lidar_num ≤ length frame.base_time
  pub whole :
      (i : ℕ) (p : PointPacket)
      → get_elem? frame.lidar_point i ≡ some p
      → p.points_num ≤ length p.points

module _ (fu : FloatUnit) where
  pub record LdsServes (s : Lds) (K : ℕ → ℕ) (C : Queues) : Type 0 where
    pub devices : length s.lidars ≡ 32
    pub valid_cache : IsValid s.cache
    pub small : calculate_packet_queue_size fu s.publish_freq ≤ 2 ^ 31
    pub serves :
        (i : ℕ) (d : LidarDevice)
        → get_elem? s.lidars i ≡ some d
        → Serves (calculate_packet_queue_size fu s.publish_freq) (K i) d.points (C i)

  push-LdsServes :
      {s : Lds} {K : ℕ → ℕ} {C : Queues} (x base_time : ℕ) (p : PointPacket)
      → LdsServes s K C
      → p.points_num ≤ length p.points
      → x < 32
      → (s' : Lds) × (push_lidar_data fu (some p) x base_time s ≡ ok s')
        × LdsServes s' K (put K x (stored p base_time) C)
        × Keeps s s'
        × (1 ≤ s'.pcd_semaphore.count)
  push-LdsServes {s} {K} {C} x base_time p v whole inside =
      let (d, at) = get_elem?_lt s.lidars x (omega (arith, v.devices)) in
      let (queue, pushed, h) =
        push_lidar_data_lem fu (K x) (C x) p x base_time d s at v.small (v.serves x d at) whole in
      (
        pushed_state s x d queue,
        pushed,
        record {
          devices = length-set s.lidars x (record d { points = queue }) ∙ v.devices;
          valid_cache = v.valid_cache;
          small = v.small;
          serves = λ i d' at'.
              Serves-set _ K C s.lidars x d queue (stored p base_time) i d'
                (omega (arith, v.devices)) h v.serves at';
        },
        record {
          cache = refl;
          count = refl;
          exit = refl;
          raised = (signalled s.pcd_semaphore).0;
          lidars = SameButQueues-set s.lidars x d queue at;
        },
        (signalled s.pcd_semaphore).1,
      )

  -- One packet of a frame.
  store_one :
      {s : Lds} {K : ℕ → ℕ} {C : Queues} (base_time : ℕ) (p : PointPacket)
      → LdsServes s K C
      → p.points_num ≤ length p.points
      → (s' : Lds) × (storage_point fu p base_time s ≡ ok s')
        × LdsServes s' K (store_packet K s.cache p base_time C)
        × Keeps s s'
        × ((i : ℕ) → get_index p.lidar_type p.handle s.cache ≡ some i → 1 ≤ s'.pcd_semaphore.count)
  unfolding storage_point store_packet
  store_one {s} {K} {C} base_time p v whole =
      elim (Option-cases (get_index p.lidar_type p.handle s.cache)) [
        | inl unknown ↦ (
          s,
          rw (unknown, storage_point),
          rw (unknown, store_packet) v,
          Keeps-refl s,
          λ i known. cc,
        )
        | inr (x, e) ↦
            let (s', pushed, v', same, up) =
              push-LdsServes x base_time p v whole
                (get_index-lt p.lidar_type p.handle x v.valid_cache e) in
            (s', rw (e, storage_point) pushed, rw (e, store_packet) v', same, λ i known. up)
      ]

  loop_step :
      (left i base_time : ℕ) (frame : PointFrame) (s s' : Lds) (p : PointPacket)
      → get_elem? frame.lidar_point i ≡ some p
      → get_elem? frame.base_time i ≡ some base_time
      → storage_point fu p base_time s ≡ ok s'
      → storage_point_loop fu (suc left) i frame s ≡ storage_point_loop fu left (i + 1) frame s'
  unfolding storage_point_loop
  loop_step left i t frame s s' p at time one = simp (at, time, one)

  packets_step :
      (left i base_time : ℕ) (frame : PointFrame) (p : PointPacket)
      → get_elem? frame.lidar_point i ≡ some p
      → get_elem? frame.base_time i ≡ some base_time
      → packets_from (suc left) i frame ≡ (p, base_time) ∷ packets_from left (i + 1) frame
  unfolding packets_from
  packets_step left i t frame p at time = ground arith

  store_loop :
      (left i : ℕ) {s : Lds} {K : ℕ → ℕ} {C : Queues} (frame : PointFrame)
      → LdsServes s K C
      → IsFrame frame
      → i + left ≤ frame.lidar_num
      → (s' : Lds) × (storage_point_loop fu left i frame s ≡ ok s')
        × LdsServes s' K (store K s.cache (packets_from left i frame) C)
        × Keeps s s'
        × (AnyKnown s.cache (packets_from left i frame) → 1 ≤ s'.pcd_semaphore.count)
  unfolding storage_point_loop packets_from store
  store_loop zero i {s} frame v f h = (s, refl, v, Keeps-refl s, λ none'. elim none' [ ])
  store_loop (suc left) i {s} {K} {C} frame v f h =
      let (p, at) = get_elem?_lt frame.lidar_point i (omega (arith, f.enough_points)) in
      let (t, time) = get_elem?_lt frame.base_time i (omega (arith, f.enough_times)) in
      let (s1, one, v1, same, up) = store_one t p v (f.whole i p at) in
      let (s2, rest, v2, same', up') = store_loop left (i + 1) frame v1 f (omega arith) in
      (
        s2,
        loop_step left i t frame s s1 p at time one ∙ rest,
        subst (λ ps. LdsServes s2 K (store K s.cache ps C))
            (sym (packets_step left i t frame p at time))
            (subst
              (λ cache.
                LdsServes s2 K
                  (store K cache (packets_from left (i + 1) frame) (store_packet K s.cache p t C)))
              same.cache v2),
        Keeps-trans s s1 s2 same same',
        λ some'.
            woken s s1 s2 p t (packets_from left (i + 1) frame) same same' up up'
              (subst (AnyKnown s.cache) (packets_step left i t frame p at time) some'),
      )

  -- From a state that serves its queues, and for a frame whose arrays are as long as it says,
  -- StoragePointData never fails: each device has its packets of the frame behind those that it
  -- had, in order and as far as there is room, the devices are otherwise unchanged, and so are the
  -- index cache, the number of devices and the request to exit; the semaphore is not lowered, and
  -- it is up if a packet of the frame is of a lidar that has an index.
  pub storage_point_data_lem :
      {s : Lds} {K : ℕ → ℕ} {C : Queues} (frame : PointFrame)
      → LdsServes s K C
      → IsFrame frame
      → (s' : Lds) × (storage_point_data fu (some frame) s ≡ ok s')
        × LdsServes s' K (store K s.cache (packets_from frame.lidar_num 0 frame) C)
        × Keeps s s'
        × (AnyKnown s.cache (packets_from frame.lidar_num 0 frame) → 1 ≤ s'.pcd_semaphore.count)
  unfolding storage_point_data
  storage_point_data_lem frame v f = store_loop frame.lidar_num 0 frame v f (omega arith)
