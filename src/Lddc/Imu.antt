-- ===== src/Lddc/Imu.antt =====
-- IMU samples on their way from the SDK's callback to the messages.
use livox_mid360_rko_lio_ros.Base.{
  ℕ, ◌≤◌, ◌≡◌, refl, ◌∙◌, true, false, some, List, [], ◌∷◌, ◌++◌, ◌==◌, if_true, arith, length, set,
  get_elem?, ok,
}
use livox_mid360_rko_lio_ros.Comm.{livox_lidar_type, ImuData}
use livox_mid360_rko_lio_ros.Comm.Float.{FloatUnit}
use livox_mid360_rko_lio_ros.ImuQueue
use livox_mid360_rko_lio_ros.ImuQueue.{LidarImuDataQueue}
use livox_mid360_rko_lio_ros.CacheIndex.{get_index}
use livox_mid360_rko_lio_ros.Semaphore.{Semaphore, signal}
use livox_mid360_rko_lio_ros.Lds.{LidarDevice, Lds, signal_if_zero, storage_imu_data}
use livox_mid360_rko_lio_ros.Lddc.{Message, imu, Lddc, publish, publish_imu_data, imu_loop}
use livox_mid360_rko_lio_ros.Lddc.Messages.{init_imu_msg}

-- The messages of samples, in order.
pub imu_messages : FloatUnit → Lddc → ℕ → List ImuData → List Message
imu_messages fu self index [] = []
imu_messages fu self index (x ∷ xs) =
    publish self (imu index (init_imu_msg fu x)) ++ imu_messages fu self index xs

pub imu_loop_lem :
    (fu : FloatUnit) (self : Lddc) (index : ℕ) (xs : List ImuData)
    → imu_loop fu self index (length xs) (record { imu_data_queue = xs })
      ≡ (record { imu_data_queue = [] }, imu_messages fu self index xs)
unfolding imu_loop publish_imu_data ImuQueue.pop ImuQueue.empty imu_messages
imu_loop_lem fu self index [] = refl
imu_loop_lem fu self index (x ∷ xs) = rw (imu_loop_lem fu self index xs) refl

not_empty :
    (xs : List ImuData) (x : ImuData)
    → ImuQueue.empty (record { imu_data_queue = xs ++ x ∷ [] }) ≡ false
unfolding ImuQueue.empty
not_empty [] x = refl
not_empty (y ∷ xs) x = refl

pub store_one :
    (x : ImuData) (s : Lds) (i : ℕ) (d : LidarDevice)
    → x.lidar_type ≡ livox_lidar_type
    → get_index x.lidar_type x.handle s.cache ≡ some i
    → get_elem? s.lidars i ≡ some d
    → storage_imu_data x s
      ≡ ok (record s {
        lidars = set s.lidars i (record d {
          imu_data = record { imu_data_queue = d.imu_data.imu_data_queue ++ x ∷ [] };
        });
        imu_semaphore = signal_if_zero s.imu_semaphore;
      })
unfolding storage_imu_data ImuQueue.push
store_one x s i d livox known at =
    let typed : (x.lidar_type == livox_lidar_type) ≡ true = ground arith in
    if_true (x.lidar_type == livox_lidar_type) _ _ typed
    ∙ rw (known, storage_imu_data, at, not_empty d.imu_data.imu_data_queue x) refl

pub signalled :
    (sem : Semaphore) → (sem.count ≤ (signal_if_zero sem).count) × (1 ≤ (signal_if_zero sem).count)
unfolding signal
signalled sem = ground arith
