-- ===== src/Tests/Queue.antt =====
-- Runs of the ring and its theorems at concrete queues.
use livox_mid360_rko_lio_ros.Base.{ℕ, ◌^◌, ◌≡◌, refl, false, none, some, List, [], ◌∷◌, arith, ok}
use livox_mid360_rko_lio_ros.Comm.{StoragePacket}
use livox_mid360_rko_lio_ros.Ldq.{
  LidarDataQueue, roundup_power_of_2, init_queue, queue_used_size, queue_unused_size,
  queue_is_empty, queue_is_full, queue_pop, queue_pop_update, queue_push_any,
}
use livox_mid360_rko_lio_ros.Ldq.Fifo.{Holds, sizes_of_Holds, push-Holds, pop-Holds}
use livox_mid360_rko_lio_ros.Ldq.Init.{IsRoundup, roundup_power_of_2_lem, init-Holds}
use livox_mid360_rko_lio_ros.Tests.{packet, held_packet, ring}

abbrev pub one : List StoragePacket
one = held_packet ∷ []

pub ring-Holds : Holds 1 ring one
ring-Holds = record {
  array = none ∷ some held_packet ∷ [];
  storage = refl;
  array_length = refl;
  width = omega arith;
  mask_eq = refl;
  size_eq = refl;
  rd_lt = omega arith;
  wr_eq = refl;
  fits = omega arith;
  window = (refl, tt);
  sized = (refl, tt);
}

sizes_of_Holds_example :
    (queue_used_size ring ≡ 1)
    × (queue_unused_size ring ≡ 1)
    × (queue_is_empty ring ≡ false)
    × (queue_is_full ring ≡ false)
sizes_of_Holds_example = sizes_of_Holds ring-Holds

push-Holds_example :
    (queue : LidarDataQueue) × (queue_push_any ring packet 900 ≡ ok queue)
    × Holds 1 queue (held_packet ∷ held_packet ∷ [])
push-Holds_example = push-Holds ring-Holds packet 900 (omega arith) (omega arith)

pop-Holds_example :
    (queue_pop ring ≡ ok (some held_packet, queue_pop_update ring))
    × Holds 1 (queue_pop_update ring) []
pop-Holds_example = pop-Holds held_packet [] ring-Holds

init-Holds_example :
    (k : ℕ) × (queue : LidarDataQueue) × (init_queue ring 10 ≡ ok queue)
    × Holds k queue []
    × IsRoundup 10 0 k
init-Holds_example = init-Holds ring 10 (λ e. cc) (omega arith)

roundup_power_of_2_lem_example : (k : ℕ) × (roundup_power_of_2 21 ≡ 2 ^ k) × IsRoundup 21 0 k
roundup_power_of_2_lem_example = roundup_power_of_2_lem 21 (omega arith)
