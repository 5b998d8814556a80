-- ===== src/Flow/Imu.antt =====
-- The way of the IMU samples: from the packets of the SDK to the messages.
use livox_mid360_rko_lio_ros.Base.{
  ℕ, ◌≤◌, ◌≡◌, ◌≢◌, refl, sym, ap, ◌∙◌, true, false, Option, some, List, [], ◌∷◌, ◌++◌, map, arith,
  not, ◌==◌, ◌-◌, length, set, length-set, get_elem?, get_elem?-set_self, lt_of_get_elem?, Outcome,
  ok, ◌>>=◌, zero, suc,
}
use mathlib.Core.List.{append_assoc, append-nil}
use livox_mid360_rko_lio_ros.Comm.{livox_lidar_type, ImuData}
use livox_mid360_rko_lio_ros.Comm.Float.{FloatUnit}
use livox_mid360_rko_lio_ros.CacheIndex.{get_index}
use livox_mid360_rko_lio_ros.Semaphore.{Semaphore, wait_lem}
use livox_mid360_rko_lio_ros.Lds.{LidarDevice, Lds, signal_if_zero}
use livox_mid360_rko_lio_ros.Publish.{
  EthernetPacket, PubHandler, on_livox_lidar_point_cloud_callback,
}
use livox_mid360_rko_lio_ros.Publish.ImuSamples.{Reading, IsImuPacket, sample_of, imu_callback_lem}
use livox_mid360_rko_lio_ros.Callback.{Client, lidar_imu_data_callback}
use livox_mid360_rko_lio_ros.Lddc.{Lddc, distribute_imu_data}
use livox_mid360_rko_lio_ros.Lddc.Imu.{store_one, signalled}
use livox_mid360_rko_lio_ros.Lddc.ImuDevices.{imu_drained, imu_sent_from, distribute_imu_data_lem}

-- The calls of `imu_callback_` for samples.
pub deliver_samples : List ImuData → Client → Outcome Client
deliver_samples [] client = ok client
deliver_samples (x ∷ xs) client = do
  client' ← lidar_imu_data_callback (some x) client
  deliver_samples xs client'

-- Packets of one lidar, each with the time at which it comes, in order.
pub receive :
    ℕ
    → ℕ
    → List (ℕ × EthernetPacket)
    → Option PubHandler
    → Client
    → Outcome (Option PubHandler × Client)
receive handle dev_type [] self client = ok (self, client)
receive handle dev_type ((now, packet) ∷ rest) self client = do
  (self', samples) ← on_livox_lidar_point_cloud_callback now handle dev_type packet self
  client' ← deliver_samples samples client
  receive handle dev_type rest self' client'

-- What the packets say, packet by packet.
abbrev pub AreImu : List (ℕ × EthernetPacket) → List Reading → Type 0
AreImu [] [] = Unit {0}
AreImu [] (r ∷ rs) = ⊥
AreImu (p ∷ ps) [] = ⊥
AreImu ((now, packet) ∷ ps) (r ∷ rs) = ((rest : List ℕ) × IsImuPacket packet r rest) × AreImu ps rs

abbrev pub samples_of : ℕ → List (ℕ × EthernetPacket) → List Reading → List ImuData
samples_of handle [] rs = []
samples_of handle (p ∷ ps) [] = []
samples_of handle ((now, packet) ∷ ps) (r ∷ rs) =
    sample_of now handle packet r ∷ samples_of handle ps rs

set-set {ℓ} : {A : Type ℓ} (xs : List A) (i : ℕ) (v w : A) → set (set xs i v) i w ≡ set xs i w
set-set [] i v w = refl
set-set (x ∷ xs) zero v w = refl
set-set (x ∷ xs) (suc i) v w = ap (◌∷◌ x) (set-set xs i v w)

set-same {ℓ} :
    {A : Type ℓ} (xs : List A) (i : ℕ) (v : A) → get_elem? xs i ≡ some v → set xs i v ≡ xs
set-same [] i v at = cc
set-same (x ∷ xs) zero v at = let e : x ≡ v = cc in ap (λ y. y ∷ xs) (sym e)
set-same (x ∷ xs) (suc i) v at = ap (◌∷◌ x) (set-same xs i v at)

-- The device and the source with more samples.
abbrev pub with_samples : LidarDevice → List ImuData → LidarDevice
with_samples d xs = record d {
  imu_data = record { imu_data_queue = d.imu_data.imu_data_queue ++ xs };
}

abbrev pub held_samples : Lds → ℕ → LidarDevice → List ImuData → Semaphore → Lds
held_samples s i d xs semaphore = record s {
  lidars = set s.lidars i (with_samples d xs);
  imu_semaphore = semaphore;
}

held_nil :
    (s : Lds) (i : ℕ) (d : LidarDevice)
    → get_elem? s.lidars i ≡ some d
    → held_samples s i d [] s.imu_semaphore ≡ s
held_nil s i d at =
    ap
      (λ q. record s {
        lidars = set s.lidars i (record d { imu_data = record { imu_data_queue = q } });
      })
      (append-nil d.imu_data.imu_data_queue)
    ∙ ap (λ ds. record s { lidars = ds }) (set-same s.lidars i d at)

held_cons :
    (s : Lds) (i : ℕ) (d : LidarDevice) (x : ImuData) (xs : List ImuData)
    (between after : Semaphore)
    → held_samples (held_samples s i d (x ∷ []) between) i (with_samples d (x ∷ [])) xs after
      ≡ held_samples s i d (x ∷ xs) after
held_cons s i d x xs between after =
    let queue = d.imu_data.imu_data_queue in
    ap (λ ds. record s { lidars = ds; imu_semaphore = after })
      (set-set s.lidars i (with_samples d (x ∷ [])) (with_samples (with_samples d (x ∷ [])) xs))
    ∙ ap
        (λ q. record s {
          lidars = set s.lidars i (record d { imu_data = record { imu_data_queue = q } });
          imu_semaphore = after;
        })
        (append_assoc queue (x ∷ []) xs)

module _ (handle dev_type i : ℕ) where
  one_packet :
      (now : ℕ) (packet : EthernetPacket) (r : Reading) (ps : List (ℕ × EthernetPacket))
      (rest : List ℕ) (p : PubHandler) (s : Lds) (d : LidarDevice)
      → IsImuPacket packet r rest
      → p.imu_callback ≡ true
      → get_index livox_lidar_type handle s.cache ≡ some i
      → get_elem? s.lidars i ≡ some d
      → receive handle dev_type ((now, packet) ∷ ps) (some p) (some s)
        ≡ receive handle dev_type ps
            (some (record p { is_timestamp_sync = not (packet.time_type == 0) }))
            (some (
              held_samples s i d
                (sample_of now handle packet r ∷ [])
                (signal_if_zero s.imu_semaphore)))
  unfolding receive deliver_samples lidar_imu_data_callback
  one_packet now packet r ps rest p s d w set' known at =
      rw
        (
          imu_callback_lem now handle packet r rest w dev_type p set',
          store_one (sample_of now handle packet r) s i d refl known at,
        )
        refl

  receive_lem :
      (ps : List (ℕ × EthernetPacket)) (rs : List Reading) (p : PubHandler) (s : Lds)
      (d : LidarDevice)
      → AreImu ps rs
      → p.imu_callback ≡ true
      → get_index livox_lidar_type handle s.cache ≡ some i
      → get_elem? s.lidars i ≡ some d
      → (p' : PubHandler) × (semaphore : Semaphore) × (receive handle dev_type ps (some p) (some s)
          ≡ ok (some p', some (held_samples s i d (samples_of handle ps rs) semaphore)))
        × (p'.raw_packet_queue ≡ p.raw_packet_queue)
        × (s.imu_semaphore.count ≤ semaphore.count)
        × ((ps ≢ []) → 1 ≤ semaphore.count)
  unfolding receive
  receive_lem [] [] p s d all set' known at = (
    p,
    s.imu_semaphore,
    ap (λ (t : Lds). ok (some p, some t)) (sym (held_nil s i d at)),
    refl,
    omega arith,
    λ h. absurd (h refl),
  )
  receive_lem [] (r ∷ rs) p s d all set' known at = absurd all
  receive_lem ((now, packet) ∷ ps) [] p s d all set' known at = absurd all
  receive_lem ((now, packet) ∷ ps) (r ∷ rs) p s d ((rest, w), all) set' known at =
      let x = sample_of now handle packet r in
      let xs = samples_of handle ps rs in
      let raised = signal_if_zero s.imu_semaphore in
      let s1 = held_samples s i d (x ∷ []) raised in
      let d1 = with_samples d (x ∷ []) in
      let p1 : PubHandler = record p { is_timestamp_sync = not (packet.time_type == 0) } in
      let (p', semaphore, received, queue, grows, wakes) =
        receive_lem ps rs p1 s1 d1 all set' known
          (get_elem?-set_self s.lidars i d1 (lt_of_get_elem? s.lidars i at)) in
      (
        p',
        semaphore,
        one_packet now packet r ps rest p s d w set' known at
            ∙ received
            ∙ ap (λ (t : Lds). ok (some p', some t)) (held_cons s i d x xs raised semaphore),
        queue,
        omega (arith, signalled s.imu_semaphore, grows),
        λ h. omega (arith, signalled s.imu_semaphore, grows),
      )

-- From a handler with the IMU callback set, and a source with no exit requested and as many
-- devices as it counts: of one or more IMU packets of a lidar with an index, laid out with their
-- six floats and their time stamp in little-endian bytes, each is handed on as one sample of these
-- floats, with the time stamp of the lidar if it is synchronised by PTP or GPS and the clock
-- otherwise, and no packet is queued for the points; the samples are queued in order on the device
-- of the lidar. DistributeImuData, of a distributor that points to the source that is left, then
-- does not wait: it publishes, device after device, the messages of the samples that the sampled
-- devices hold, empties these queues and leaves the devices otherwise as they are.
pub receive-distribute :
    (fu : FloatUnit) (self : Lddc) (handle dev_type i : ℕ) (first : ℕ × EthernetPacket)
    (ps : List (ℕ × EthernetPacket)) (rs : List Reading) (p : PubHandler) (s : Lds)
    (d : LidarDevice)
    → AreImu (first ∷ ps) rs
    → p.imu_callback ≡ true
    → get_index livox_lidar_type handle s.cache ≡ some i
    → get_elem? s.lidars i ≡ some d
    → s.request_exit ≡ false
    → s.lidar_count ≡ length s.lidars
    → let lidars = set s.lidars i (with_samples d (samples_of handle (first ∷ ps) rs)) in
      (p' : PubHandler) × (s' : Lds) × (semaphore : Semaphore) × (receive handle dev_type
          (first ∷ ps)
          (some p)
          (some s)
        ≡ ok (some p', some s'))
      × (p'.raw_packet_queue ≡ p.raw_packet_queue)
      × (distribute_imu_data fu (record self { lds = some s' })
          ≡ ok (
              some (
                record self {
                  lds =
                      some
                        (record s { lidars = map imu_drained lidars; imu_semaphore = semaphore });
                },
                imu_sent_from fu (record self { lds = some s' }) 0 lidars,
              )))
receive-distribute fu self handle dev_type i first ps rs p s d all set' known at stay count =
    let xs = samples_of handle (first ∷ ps) rs in
    let (p', raised, received, queue, grows, wakes) =
      receive_lem handle dev_type i (first ∷ ps) rs p s d all set' known at in
    let s' = held_samples s i d xs raised in
    let lower : Semaphore = record { count = raised.count - 1 } in
    (
      p',
      s',
      lower,
      received,
      queue,
      distribute_imu_data_lem fu (record self { lds = some s' }) s' lower refl stay
          (count ∙ sym (length-set s.lidars i (with_samples d xs)))
          (wait_lem raised (wakes (λ e. cc))),
    )
