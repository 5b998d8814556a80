-- ===== src/Ldq.antt =====
-- comm/ldq.h and comm/ldq.cpp of the driver: the ring of point packets of one lidar. A function
-- that updates `*queue` returns the new queue. All callers pass the address of a member, so a
-- queue is never null; `new` and `delete[]` are modelled by the state of the storage pointer.
pub mod Window
pub mod Fifo
pub mod Init
use livox_mid360_rko_lio_ros.Base.{
  ℕ, zero, suc, ◌+◌, ◌%◌, ◌^◌, bit_and, Bool, true, false, not, ◌&&◌, Option, none, some, List, ltb,
  leb, ◌==◌, if◌then◌else◌, length, get_elem?, set, take, replicate, Outcome, fault, ok, ◌>>=◌,
  deref,
}
use livox_mid360_rko_lio_ros.Comm.{add32, sub32, PointXyzlt, PointPacket, StoragePacket}

-- The pointer `storage_packet`: null, to freed memory, or to an array whose elements may not have
-- been written yet.
pub data Storage : Type 0 where
  null freed : Storage
  slots : List (Option StoragePacket) → Storage

pub record LidarDataQueue : Type 0 where
  pub storage_packet : Storage
  pub rd_idx : ℕ
  pub wr_idx : ℕ
  pub mask : ℕ
  pub size : ℕ

pub is_power_of_2 : ℕ → Bool
is_power_of_2 size = not (size == 0) && (bit_and size (sub32 size 1) == 0)

-- The loop over `i`, with the rounds that are left and the last `power2_val`.
pub roundup_loop : ℕ → ℕ → ℕ → ℕ → ℕ
roundup_loop zero i size power2_val = power2_val
roundup_loop (suc left) i size power2_val = elim (leb size (2 ^ i % 2 ^ 32)) [
  | true ↦ 2 ^ i % 2 ^ 32
  | false ↦ roundup_loop left (i + 1) size (2 ^ i % 2 ^ 32)
]

pub roundup_power_of_2 : ℕ → ℕ
unfolding roundup_loop
roundup_power_of_2 size = roundup_loop 32 0 size 0

-- `delete[]` of the storage, if there is any.
abbrev pub release : Storage → Outcome Storage
release null = ok null
release freed = fault
release (slots l) = ok freed

pub init_queue : LidarDataQueue → ℕ → Outcome LidarDataQueue
unfolding is_power_of_2 roundup_power_of_2
init_queue queue queue_size =
    let size = if is_power_of_2 queue_size then queue_size else roundup_power_of_2 queue_size in
    do
      released ← release queue.storage_packet
      ok (record {
        storage_packet = slots (replicate size none);
        rd_idx = 0;
        wr_idx = 0;
        mask = sub32 size 1;
        size = size;
      })

unfoldable pub de_init_queue : LidarDataQueue → Outcome LidarDataQueue
de_init_queue queue = do
  released ← release queue.storage_packet
  ok (record { storage_packet = released; rd_idx = 0; wr_idx = 0; mask = 0; size = 0 })

pub reset_queue : LidarDataQueue → LidarDataQueue
reset_queue queue = record queue { rd_idx = 0; wr_idx = 0 }

pub queue_used_size : LidarDataQueue → ℕ
queue_used_size queue = sub32 queue.wr_idx queue.rd_idx

pub queue_unused_size : LidarDataQueue → ℕ
unfolding queue_used_size
queue_unused_size queue = sub32 queue.size (queue_used_size queue)

pub queue_is_full : LidarDataQueue → Bool
queue_is_full queue = ltb queue.mask (sub32 queue.wr_idx queue.rd_idx)

pub queue_is_empty : LidarDataQueue → Bool
queue_is_empty queue = queue.rd_idx == queue.wr_idx

-- `storage_packet[i]`, read after it was written, and the write of it.
abbrev pub read_slot : Storage → ℕ → Outcome StoragePacket
read_slot null i = fault
read_slot freed i = fault
read_slot (slots l) i = do written ← deref (get_elem? l i); deref written

abbrev pub write_slot : Storage → ℕ → StoragePacket → Outcome Storage
write_slot null i packet = fault
write_slot freed i packet = fault
write_slot (slots l) i packet =
    if ltb i (length l) then ok (slots (set l i (some packet))) else fault

-- `memcpy` of `num` points.
abbrev pub copy_points : ℕ → List PointXyzlt → Outcome (List PointXyzlt)
copy_points num points = if leb num (length points) then ok (take num points) else fault

-- `none` is the return value false, on an empty queue.
pub queue_pre_pop : LidarDataQueue → Outcome (Option StoragePacket)
unfolding queue_is_empty
queue_pre_pop queue = if queue_is_empty queue then ok none else (do
  packet ← read_slot queue.storage_packet (bit_and queue.rd_idx queue.mask)
  points ← copy_points packet.points_num packet.points
  ok (some (record packet { points = points })))

pub queue_pop_update : LidarDataQueue → LidarDataQueue
queue_pop_update queue = record queue { rd_idx = add32 queue.rd_idx 1 }

pub queue_pop : LidarDataQueue → Outcome (Option StoragePacket × LidarDataQueue)
unfolding queue_pre_pop queue_pop_update
queue_pop queue = do
  popped ← queue_pre_pop queue
  elim popped [ none ↦ ok (none, queue) | some packet ↦ ok (some packet, queue_pop_update queue) ]

pub queue_push_any : LidarDataQueue → PointPacket → ℕ → Outcome LidarDataQueue
queue_push_any queue lidar_point_data base_time = do
  points ← copy_points lidar_point_data.points_num lidar_point_data.points
  storage ←
      write_slot queue.storage_packet (bit_and queue.wr_idx queue.mask) (record {
        base_time = base_time;
        points_num = lidar_point_data.points_num;
        points = points;
      })
  ok (record queue { storage_packet = storage; wr_idx = add32 queue.wr_idx 1 })
