-- ===== src/Ldq/Fifo.antt =====
-- The ring of comm/ldq.cpp against the FIFO of the packets that it holds: no access outside the
-- storage, no loss, no reordering, and the counters may wrap.
use native.Mathlib.Nat.{one-le-pow, pow-le-pow_right, mod-lt, le_of_eq}
use livox_mid360_rko_lio_ros.Base.{
  ℕ, ◌+◌, ◌-◌, ◌%◌, ◌^◌, ◌≤◌, ◌<◌, ◌≡◌, refl, sym, ap, ◌∙◌, false, Option, some, List, [], ◌∷◌,
  ◌++◌, arith, length, set, take, ◌==◌, ok, bit_and, length-set, length-append, length-take,
  take_all, le→leb, lt→ltb,
}
use livox_mid360_rko_lio_ros.Base.Bits.{bit_and_mask}
use livox_mid360_rko_lio_ros.Comm.{add32, PointPacket, StoragePacket}
use livox_mid360_rko_lio_ros.Ldq.{
  slots, LidarDataQueue, queue_is_full, queue_is_empty, queue_used_size, queue_unused_size,
  queue_pre_pop, queue_pop, queue_pop_update, queue_push_any, reset_queue,
}
use livox_mid360_rko_lio_ros.Ldq.Window.{Window, Window-congr, Window-push, mod-wrap32}

-- The packets that the queue keeps have as many points as they say.
abbrev pub Sized : List StoragePacket → Type 0
Sized [] = Unit {0}
Sized (p ∷ c) = (p.points_num ≡ length p.points) × Sized c

-- The queue is initialised with `2 ^ k` slots and holds the packets `c`, oldest first.
pub record Holds (k : ℕ) (queue : LidarDataQueue) (c : List StoragePacket) : Type 0 where
  pub array : List (Option StoragePacket)
  pub storage : queue.storage_packet ≡ slots array
  pub array_length : length array ≡ 2 ^ k
  pub width : k ≤ 31
  pub mask_eq : queue.mask ≡ 2 ^ k - 1
  pub size_eq : queue.size ≡ 2 ^ k
  pub rd_lt : queue.rd_idx < 2 ^ 32
  pub wr_eq : queue.wr_idx ≡ (queue.rd_idx + length c) % 2 ^ 32
  pub fits : length c ≤ 2 ^ k
  pub window : Window array (2 ^ k) queue.rd_idx c
  pub sized : Sized c

-- What a push keeps of the packet that it is handed.
abbrev pub stored : PointPacket → ℕ → StoragePacket
stored packet base_time = record {
  base_time = base_time;
  points_num = packet.points_num;
  points = take packet.points_num packet.points;
}

-- The sizes that a ring may have.
pub pow_bounds : (k : ℕ) → k ≤ 31 → (1 ≤ 2 ^ k) × (2 ^ k ≤ 2 ^ 31)
pow_bounds k h = (one-le-pow k 2 (omega arith), pow-le-pow_right (omega arith) h)

Sized-append :
    (c : List StoragePacket) (p : StoragePacket)
    → p.points_num ≡ length p.points
    → Sized c
    → Sized (c ++ p ∷ [])
Sized-append [] p e s = (e, tt)
Sized-append (q ∷ c) p e s = (s.0, Sized-append c p e s.1)

module _ {k : ℕ} {queue : LidarDataQueue} {c : List StoragePacket} (h : Holds k queue c) where
  -- The four size queries return the length of the FIFO that the ring holds, the slots left, and
  -- whether these are none.
  pub sizes_of_Holds :
      (queue_used_size queue ≡ length c)
      × (queue_unused_size queue ≡ 2 ^ k - length c)
      × (queue_is_empty queue ≡ (length c == 0))
      × (queue_is_full queue ≡ (length c == 2 ^ k))
  unfolding queue_used_size queue_unused_size queue_is_empty queue_is_full
  sizes_of_Holds =
      let b = pow_bounds k h.width in
      ground (arith, h.wr_eq, h.fits, h.mask_eq, h.size_eq, h.rd_lt, b)

  -- The slot that the next push writes.
  write_index : bit_and queue.wr_idx queue.mask ≡ (queue.rd_idx + length c) % 2 ^ k
  write_index = rw h.mask_eq (
      bit_and_mask k queue.wr_idx
      ∙ ap (λ t. t % 2 ^ k) h.wr_eq
      ∙ mod-wrap32 k (queue.rd_idx + length c) (omega (arith, h.width)))

  -- A push on a ring that is not full, of a packet with as many points as it says, succeeds and
  -- appends the packet to the FIFO that the ring holds.
  pub push-Holds :
      (packet : PointPacket) (base_time : ℕ)
      → packet.points_num ≤ length packet.points
      → length c < 2 ^ k
      → (queue' : LidarDataQueue) × (queue_push_any queue packet base_time ≡ ok queue')
        × Holds k queue' (c ++ stored packet base_time ∷ [])
  unfolding queue_push_any
  push-Holds packet base_time whole room =
      let b = pow_bounds k h.width in
      let i : ℕ = (queue.rd_idx + length c) % 2 ^ k in
      let array' : List (Option StoragePacket) = set h.array i (some (stored packet base_time)) in
      let inside : i < length h.array = rw h.array_length (mod-lt _ b.0) in
      (
        record queue { storage_packet = slots array'; wr_idx = add32 queue.wr_idx 1 },
        rw (le→leb _ _ whole, h.storage, write_index, lt→ltb _ _ inside),
        record {
          array = array';
          storage = refl;
          array_length = length-set h.array i _ ∙ h.array_length;
          width = h.width;
          mask_eq = h.mask_eq;
          size_eq = h.size_eq;
          rd_lt = h.rd_lt;
          wr_eq = omega (arith, h.wr_eq, length-append c (stored packet base_time ∷ []));
          fits = omega (arith, room, length-append c (stored packet base_time ∷ []));
          window =
              Window-push h.array (2 ^ k) queue.rd_idx c (stored packet base_time) room
                (omega (arith, h.array_length)) h.window;
          sized =
              Sized-append c (stored packet base_time)
                (sym (length-take packet.points_num packet.points whole)) h.sized;
        },
      )

-- A pop of a ring that holds packets returns the oldest one, whole, and leaves the others in
-- order.
pub pop-Holds :
    {k : ℕ} {queue : LidarDataQueue} (p : StoragePacket) (c : List StoragePacket)
    → Holds k queue (p ∷ c)
    → (queue_pop queue ≡ ok (some p, queue_pop_update queue)) × Holds k (queue_pop_update queue) c
unfolding queue_pop queue_pre_pop queue_is_empty queue_pop_update
pop-Holds {k} {queue} p c h = (
  simp (moved, h.storage, read_index, h.window.0, le→leb _ _ (le_of_eq h.sized.0), whole),
  record {
    array = h.array;
    storage = h.storage;
    array_length = h.array_length;
    width = h.width;
    mask_eq = h.mask_eq;
    size_eq = h.size_eq;
    rd_lt = omega arith;
    wr_eq = omega (arith, h.wr_eq);
    fits = omega (arith, h.fits);
    window =
        Window-congr h.array (2 ^ k) (queue.rd_idx + 1) ((queue.rd_idx + 1) % 2 ^ 32) c
          (sym (mod-wrap32 k (queue.rd_idx + 1) (omega (arith, h.width)))) h.window.1;
    sized = h.sized.1;
  },
)
  where
    moved : (queue.rd_idx == queue.wr_idx) ≡ false
    moved = ground (arith, h.wr_eq, h.fits, h.rd_lt, pow_bounds k h.width)

    read_index : bit_and queue.rd_idx queue.mask ≡ queue.rd_idx % 2 ^ k
    read_index = rw h.mask_eq (bit_and_mask k queue.rd_idx)

    whole : take p.points_num p.points ≡ p.points
    whole = rw h.sized.0 (take_all p.points)

-- ResetQueue drops all packets and keeps the storage.
pub reset-Holds :
    {k : ℕ} {queue : LidarDataQueue} {c : List StoragePacket}
    → Holds k queue c
    → Holds k (reset_queue queue) []
unfolding reset_queue
reset-Holds h = record {
  array = h.array;
  storage = h.storage;
  array_length = h.array_length;
  width = h.width;
  mask_eq = h.mask_eq;
  size_eq = h.size_eq;
  rd_lt = omega arith;
  wr_eq = omega arith;
  fits = omega arith;
  window = tt;
  sized = tt;
}
