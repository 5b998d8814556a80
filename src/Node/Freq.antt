-- ===== src/Node/Freq.antt =====
-- The clamped publish frequency bounds the rings of the devices.
use livox_mid360_rko_lio_ros.Base.{
  ℕ, ◌^◌, ◌≤◌, ◌≡◌, sym, ap, ◌∙◌, inl, inr, true, false, [], if_true, arith, Bool-cases, ok,
}
use livox_mid360_rko_lio_ros.Comm.Float.{FloatUnit, d_ten, calculate_packet_queue_size}
use livox_mid360_rko_lio_ros.Ldq.{null, freed, LidarDataQueue}
use livox_mid360_rko_lio_ros.Ldq.Fifo.{Holds}
use livox_mid360_rko_lio_ros.Ldq.Init.{init-Holds}
use livox_mid360_rko_lio_ros.Lds.{is_null, ensure_queue}
use livox_mid360_rko_lio_ros.Node.{d_hundred, d_half, clamp_publish_freq}

-- What is used of the processor: 100.0 is not above itself, 0.5 is not above 100.0, and a double above
-- 10.0 and not above 100.0 is converted to a number from 10 to 100.
pub record IsOrdered (fu : FloatUnit) : Type 0 where
  pub irreflexive : fu.d_lt d_hundred d_hundred ≡ false
  pub half_below : fu.d_lt d_hundred d_half ≡ false
  pub truncates :
      (x : ℕ)
      → fu.d_lt d_ten x ≡ true
      → fu.d_lt d_hundred x ≡ false
      → (10 ≤ fu.d_to_u32 x) × (fu.d_to_u32 x ≤ 100)

module _ (fu : FloatUnit) (v : IsOrdered fu) where
  pub clamp_lem : (f : ℕ) → fu.d_lt d_hundred (clamp_publish_freq fu f) ≡ false
  unfolding clamp_publish_freq
  clamp_lem f = elim (Bool-cases (fu.d_lt d_hundred f)) [
    | inl above ↦ rw above v.irreflexive
    | inr within ↦ elim (Bool-cases (fu.d_lt f d_half)) [
      | inl below ↦ rw (within, below) v.half_below
      | inr above ↦ rw (within, above) within
    ]
  ]

  pub size_lem :
      (x : ℕ)
      → fu.d_lt d_hundred x ≡ false
      → (10 ≤ calculate_packet_queue_size fu x) × (calculate_packet_queue_size fu x ≤ 101)
  unfolding calculate_packet_queue_size
  size_lem x within = elim (Bool-cases (fu.d_lt d_ten x)) [
    | inl above ↦ rw above (omega (arith, v.truncates x above within))
    | inr below ↦ rw below (omega arith)
  ]

  -- On a processor that puts 100.0 neither below itself nor below 0.5, and that converts a double
  -- above 10.0 and not above 100.0 to a number from 10 to 100: with any publish frequency, once
  -- the node has clamped it, the ring that is allocated for a device is empty and has at least 10
  -- and at most 128 slots.
  pub clamp-ensure_queue :
      (f : ℕ) (queue : LidarDataQueue)
      → queue.storage_packet ≡ null
      → (k : ℕ) × (queue' : LidarDataQueue) × (ensure_queue fu queue (clamp_publish_freq fu f)
          ≡ ok queue')
        × Holds k queue' []
        × (10 ≤ 2 ^ k)
        × (k ≤ 7)
  unfolding ensure_queue
  clamp-ensure_queue f queue fresh =
      let size = calculate_packet_queue_size fu (clamp_publish_freq fu f) in
      let bounds = size_lem (clamp_publish_freq fu f) (clamp_lem f) in
      let (k, queue', made, h, r) =
        init-Holds queue size (λ e. let x : null ≡ freed = sym fresh ∙ e in cc)
          (omega (arith, bounds)) in
      (
        k,
        queue',
        if_true (is_null queue.storage_packet) _ _ (ap is_null fresh) ∙ made,
        h,
        omega (arith, bounds, r.enough),
        r.least 7 (omega arith) (omega (arith, bounds)),
      )
