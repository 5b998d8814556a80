-- ===== src/Lddc/ImuDevices.antt =====
-- `DistributeImuData`: one round of the IMU thread over all devices.
use livox_mid360_rko_lio_ros.Base.{
  ℕ, suc, ◌+◌, ◌≡◌, refl, sym, ap, ◌∙◌, false, none, some, List, [], ◌∷◌, ◌++◌, map, if◌then◌else◌,
  if_false, length, length-append, set, get_elem?, ok, ◌>>=◌,
}
use mathlib.Core.List.{append_assoc, append-nil}
use livox_mid360_rko_lio_ros.Comm.{LidarConnectState, off, on, config, sampling}
use livox_mid360_rko_lio_ros.Comm.Float.{FloatUnit}
use livox_mid360_rko_lio_ros.ImuQueue.{LidarImuDataQueue}
use livox_mid360_rko_lio_ros.Semaphore.{Semaphore, wait}
use livox_mid360_rko_lio_ros.Lds.{LidarDevice, Lds}
use livox_mid360_rko_lio_ros.Lddc.{
  Message, Lddc, is_sampling, polling_lidar_imu_data, distribute_imu_loop, imu_woken, imu_wait,
  imu_round, distribute_imu_data,
}
use livox_mid360_rko_lio_ros.Lddc.Imu.{imu_messages, imu_loop_lem}

-- What the round takes from a device, and what it sends for it.
abbrev pub imu_left : LidarConnectState → LidarDevice → LidarImuDataQueue
imu_left sampling d = record { imu_data_queue = [] }
imu_left off d = d.imu_data
imu_left on d = d.imu_data
imu_left config d = d.imu_data

abbrev pub imu_drained : LidarDevice → LidarDevice
imu_drained d = record d { imu_data = imu_left d.connect_state d }

abbrev pub imu_sent : FloatUnit → Lddc → LidarConnectState → ℕ → LidarDevice → List Message
imu_sent fu self sampling i d = imu_messages fu self i d.imu_data.imu_data_queue
imu_sent fu self off i d = []
imu_sent fu self on i d = []
imu_sent fu self config i d = []

-- Device after device, from index `i` on.
pub imu_sent_from : FloatUnit → Lddc → ℕ → List LidarDevice → List Message
imu_sent_from fu self i [] = []
imu_sent_from fu self i (d ∷ ds) =
    imu_sent fu self d.connect_state i d ++ imu_sent_from fu self (i + 1) ds

get_elem?-middle {ℓ} :
    {A : Type ℓ} (xs : List A) (x : A) (ys : List A) → get_elem? (xs ++ x ∷ ys) (length xs) ≡ some x
get_elem?-middle [] x ys = refl
get_elem?-middle (a ∷ xs) x ys = get_elem?-middle xs x ys

set-middle {ℓ} :
    {A : Type ℓ} (xs : List A) (x y : A) (ys : List A)
    → set (xs ++ x ∷ ys) (length xs) y ≡ (xs ++ y ∷ []) ++ ys
set-middle [] x y ys = refl
set-middle (a ∷ xs) x y ys = ap (◌∷◌ a) (set-middle xs x y ys)

module _ (fu : FloatUnit) (self : Lddc) where
  polled :
      (state : LidarConnectState) (i : ℕ) (d : LidarDevice)
      → (if is_sampling fu state
          then polling_lidar_imu_data fu false self i d.imu_data
          else (d.imu_data, []))
        ≡ (imu_left state d, imu_sent fu self state i d)
  unfolding polling_lidar_imu_data
  polled sampling i d = imu_loop_lem fu self i d.imu_data.imu_data_queue
  polled off i d = refl
  polled on i d = refl
  polled config i d = refl

  abbrev at_devices : Lds → List LidarDevice → Lds
  at_devices s ds = record s { lidars = ds }

  imu_step :
      (left : ℕ) (s : Lds) (before after : List LidarDevice) (d : LidarDevice) (sent : List Message)
      → s.request_exit ≡ false
      → distribute_imu_loop fu self
          (suc left)
          (length before)
          (at_devices s (before ++ d ∷ after))
          sent
        ≡ distribute_imu_loop fu self left
            (length before + 1)
            (at_devices s ((before ++ imu_drained d ∷ []) ++ after))
            (sent ++ imu_sent fu self d.connect_state (length before) d)
  unfolding distribute_imu_loop
  imu_step left s before after d sent stay =
      rw
        (
          get_elem?-middle before d after,
          stay,
          polled d.connect_state (length before) d,
          set-middle before d (imu_drained d) after,
        )
        refl

  imu_devices :
      (after : List LidarDevice) (before : List LidarDevice) (i : ℕ) (s : Lds) (sent : List Message)
      → length before ≡ i
      → s.request_exit ≡ false
      → distribute_imu_loop fu self (length after) i (at_devices s (before ++ after)) sent
        ≡ ok (at_devices s (before ++ map imu_drained after), sent ++ imu_sent_from fu self i after)
  unfolding distribute_imu_loop imu_sent_from
  imu_devices [] before i s sent here stay =
      ap (λ ms. ok (at_devices s (before ++ []), ms)) (sym (append-nil sent))
  imu_devices (d ∷ after) before i s sent here stay =
      let d' = imu_drained d in
      let now = imu_sent fu self d.connect_state (length before) d in
      let rest = imu_sent_from fu self (length before + 1) after in
      rw (← here) (
        imu_step (length after) s before after d sent stay
        ∙ imu_devices after (before ++ d' ∷ []) (length before + 1) s (sent ++ now)
            (length-append before (d' ∷ [])) stay
        ∙ ap (λ ds. ok (at_devices s ds, (sent ++ now) ++ rest))
            (append_assoc before (d' ∷ []) (map imu_drained after))
        ∙ ap (λ ms. ok (at_devices s (before ++ d' ∷ map imu_drained after), ms))
            (append_assoc sent now rest))

-- With no exit requested, as many devices as the table has, and the semaphore up: the semaphore
-- goes down by one, the queue of each sampled device is emptied, and its samples are published,
-- device after device.
pub distribute_imu_data_lem :
    (fu : FloatUnit) (self : Lddc) (s : Lds) (semaphore : Semaphore)
    → self.lds ≡ some s
    → s.request_exit ≡ false
    → s.lidar_count ≡ length s.lidars
    → wait s.imu_semaphore ≡ some semaphore
    → distribute_imu_data fu self
      ≡ ok (
          some (
            record self {
              lds =
                  some (record s { imu_semaphore = semaphore; lidars = map imu_drained s.lidars });
            },
            imu_sent_from fu self 0 s.lidars,
          ))
unfolding distribute_imu_data imu_round imu_wait imu_woken
distribute_imu_data_lem fu self s semaphore has stay count waited =
    let woken = record s { imu_semaphore = semaphore } in
    ap (λ o. elim o [ none ↦ ok (some (self, [])) | some lds ↦ imu_round fu self lds ]) has
    ∙ if_false s.request_exit (ok (some (self, []))) (imu_wait fu self s) stay
    ∙ ap (λ o. elim o [ none ↦ ok none | some w ↦ imu_woken fu self s w ]) waited
    ∙ ap (λ o. o >>= λ done. ok (some (record self { lds = some done.0 }, done.1)))
        (ap (λ n. distribute_imu_loop fu self n 0 woken []) count
          ∙ imu_devices fu self s.lidars [] 0 woken [] refl stay)
