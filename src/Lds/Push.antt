-- ===== src/Lds/Push.antt =====
-- `PushLidarData`: a packet goes to the end of its lidar's queue, or is dropped if that is full.
use livox_mid360_rko_lio_ros.Base.{
  ℕ, ◌^◌, ◌≤◌, ◌≡◌, inl, inr, ap, true, false, some, List, [], ◌∷◌, ◌++◌, ltb, if◌then◌else◌, arith,
  length, set, get_elem?, Bool-cases, ltb→lt, ok, length-append,
}
use livox_mid360_rko_lio_ros.Comm.{PointPacket, StoragePacket}
use livox_mid360_rko_lio_ros.Comm.Float.{FloatUnit, calculate_packet_queue_size}
use livox_mid360_rko_lio_ros.Ldq.{
  null, LidarDataQueue, queue_is_full, queue_is_empty, queue_push_any,
}
use livox_mid360_rko_lio_ros.Ldq.Fifo.{Holds, stored, sizes_of_Holds, push-Holds}
use livox_mid360_rko_lio_ros.Ldq.Init.{IsRoundup, init-Holds}
use livox_mid360_rko_lio_ros.Lds.{
  LidarDevice, Lds, is_null, ensure_queue, push_lidar_data, signal_if_zero,
}

-- The queue holds the packets `c` in `2 ^ k` slots, or is still to be allocated, for `n` packets.
pub data Serves (n k : ℕ) (queue : LidarDataQueue) (c : List StoragePacket) : Type 0 where
  live : Holds k queue c → Serves n k queue c
  unused : queue.storage_packet ≡ null → c ≡ [] → IsRoundup n 0 k → Serves n k queue c

-- A bounded queue takes a packet while it has room.
abbrev pub offer : ℕ → List StoragePacket → StoragePacket → List StoragePacket
offer k c p = if ltb (length c) (2 ^ k) then c ++ p ∷ [] else c

IsRoundup-unique : (n k k' : ℕ) → IsRoundup n 0 k → IsRoundup n 0 k' → k ≡ k'
IsRoundup-unique n k k' r r' =
    omega (arith, r.least k' (omega arith) r'.enough, r'.least k (omega arith) r.enough)

-- The state after a push that leaves `queue` in device `d` at `index`.
abbrev pub pushed_state : Lds → ℕ → LidarDevice → LidarDataQueue → Lds
pushed_state s index d queue = record s {
  lidars = set s.lidars index (record d { points = queue });
  pcd_semaphore = signal_if_zero s.pcd_semaphore;
}

module _ (fu : FloatUnit) where
  pub ensure-Holds :
      (publish_freq k : ℕ) (queue : LidarDataQueue) (c : List StoragePacket)
      → calculate_packet_queue_size fu publish_freq ≤ 2 ^ 31
      → Serves (calculate_packet_queue_size fu publish_freq) k queue c
      → (queue' : LidarDataQueue) × (ensure_queue fu queue publish_freq ≡ ok queue')
        × Holds k queue' c
  unfolding ensure_queue
  ensure-Holds freq k queue c small (live h) =
      let allocated : is_null queue.storage_packet ≡ false = ap is_null h.storage in
      (queue, rw allocated, h)
  ensure-Holds freq k queue c small (unused e none' up) =
      let (k', queue', made, h, up') =
        init-Holds queue (calculate_packet_queue_size fu freq) (λ p. cc) small in
      let fresh : is_null queue.storage_packet ≡ true = ap is_null e in
      (queue', rw fresh made, rw (none', IsRoundup-unique _ k k' up up') h)

  module _ (packet : PointPacket) (index base_time : ℕ) (d : LidarDevice) (s : Lds)
      (queue : LidarDataQueue) (at : get_elem? s.lidars index ≡ some d)
      (made : ensure_queue fu d.points s.publish_freq ≡ ok queue) where
    push_full :
        queue_is_full queue ≡ true
        → push_lidar_data fu (some packet) index base_time s ≡ ok (pushed_state s index d queue)
    unfolding push_lidar_data
    push_full full = simp (at, made) (ground arith)

    push_room :
        (queue' : LidarDataQueue)
        → queue_is_full queue ≡ false
        → queue_push_any queue packet base_time ≡ ok queue'
        → queue_is_empty queue' ≡ false
        → push_lidar_data fu (some packet) index base_time s ≡ ok (pushed_state s index d queue')
    unfolding push_lidar_data
    push_room queue' room pushed some_left = simp (at, made) (ground arith)

  -- PushLidarData queues a packet behind the others while the ring, allocated by the first packet,
  -- has room, drops it when the ring is full, and signals the point cloud semaphore in both cases
  -- if its count was 0.
  pub push_lidar_data_lem :
      (k : ℕ) (c : List StoragePacket) (packet : PointPacket) (index base_time : ℕ)
      (d : LidarDevice) (s : Lds)
      → get_elem? s.lidars index ≡ some d
      → calculate_packet_queue_size fu s.publish_freq ≤ 2 ^ 31
      → Serves (calculate_packet_queue_size fu s.publish_freq) k d.points c
      → packet.points_num ≤ length packet.points
      → (queue : LidarDataQueue) × (push_lidar_data fu (some packet) index base_time s
          ≡ ok (pushed_state s index d queue))
        × Holds k queue (offer k c (stored packet base_time))
  push_lidar_data_lem k c packet index base_time d s at small serves whole =
      let (queue, made, h) = ensure-Holds s.publish_freq k d.points c small serves in
      elim (Bool-cases (ltb (length c) (2 ^ k))) [
        | inl room ↦
            let (queue', pushed, h') = push-Holds h packet base_time (whole) (ltb→lt _ _ room) in
            (
              queue',
              push_room packet index base_time d s queue at made queue'
                  (ground (arith, sizes_of_Holds h)) pushed
                  (ground
                    (arith, sizes_of_Holds h', length-append c (stored packet base_time ∷ []))),
              rw room h',
            )
        | inr full ↦ (
          queue,
          push_full packet index base_time d s queue at made
              (ground (arith, sizes_of_Holds h, h.fits)),
          rw full h,
        )
      ]
