-- ===== src/Tests/Devices.antt =====
-- The device table with lidar 7 at index 0, and what its frames and its replies do.
use livox_mid360_rko_lio_ros.Base.{
  ℕ, zero, suc, ◌^◌, ◌≤◌, ◌≡◌, ◌≢◌, ◌↔◌, refl, subst, true, none, some, List, [], ◌∷◌, arith,
  length, replicate, get_elem?, ok, fault,
}
use livox_mid360_rko_lio_ros.Comm.{livox_lidar_type, PointPacket, PointFrame, sampling, off}
use livox_mid360_rko_lio_ros.Comm.Float.{calculate_packet_queue_size}
use livox_mid360_rko_lio_ros.Ldq.Init.{IsRoundup}
use livox_mid360_rko_lio_ros.CacheIndex.{get_index}
use livox_mid360_rko_lio_ros.Lds.{LidarDevice, Lds, storage_point_data}
use livox_mid360_rko_lio_ros.Lds.Push.{Serves, unused}
use livox_mid360_rko_lio_ros.Lds.Keeps.{Keeps, AnyKnown}
use livox_mid360_rko_lio_ros.Lds.Frame.{
  Queues, packets_from, store, LdsServes, IsFrame, storage_point_data_lem,
}
use livox_mid360_rko_lio_ros.Callback.{
  SdkCall, success, timeout, failed, lidar_info_change_callback, configure,
}
use livox_mid360_rko_lio_ros.Callback.Bits.{Setting, data_type, scan_pattern, blind_spot, dual_emit}
use livox_mid360_rko_lio_ros.Callback.Settings.{acknowledge_all, asked, has, not_sampled_before}
use livox_mid360_rko_lio_ros.Callback.Replies.{
  Reply, run_replies, AnyFails, run_replies_lem, run_replies-fault_iff, connected_then_sampled,
}
use livox_mid360_rko_lio_ros.Tests.{number_unit, packet, device, cache, lds}
use livox_mid360_rko_lio_ros.Tests.Cache.{cache-IsValid, registered}

ten_up : IsRoundup 10 0 4
ten_up = record { width = omega arith; enough = omega arith; least = least }
  where
    least : (j : ℕ) → 0 ≤ j → 10 ≤ 2 ^ j → 4 ≤ j
    least zero p q = absurd (omega arith)
    least (suc zero) p q = absurd (omega arith)
    least (suc (suc zero)) p q = absurd (omega arith)
    least (suc (suc (suc zero))) p q = absurd (omega arith)
    least (suc (suc (suc (suc j)))) p q = omega arith

abbrev pub no_packets : Queues
no_packets j = []

pub device-Serves : Serves 10 4 device.points []
device-Serves = unused refl refl ten_up

pub get_elem?-replicate :
    (n i : ℕ) (d : LidarDevice) → get_elem? (replicate n device) i ≡ some d → device ≡ d
get_elem?-replicate zero i d e = cc
get_elem?-replicate (suc n) zero d e = cc
get_elem?-replicate (suc n) (suc i) d e = get_elem?-replicate n i d e

pub lds-LdsServes : LdsServes number_unit lds (λ j. 4) no_packets
unfolding calculate_packet_queue_size
lds-LdsServes = record {
  devices = refl;
  valid_cache = cache-IsValid;
  small = omega arith;
  serves = λ i d at.
      subst (λ (e : LidarDevice). Serves 10 4 e.points []) (get_elem?-replicate 32 i d at)
        device-Serves;
}

abbrev pub frame : PointFrame
frame = record { base_time = 900 ∷ 1000 ∷ []; lidar_num = 2; lidar_point = packet ∷ packet ∷ [] }

whole_packet : (p : PointPacket) → some packet ≡ some p → p.points_num ≤ length p.points
whole_packet p e =
    let same : packet ≡ p = cc in
    subst (λ (q : PointPacket). q.points_num ≤ length q.points) same (omega arith)

pub frame-IsFrame : IsFrame frame
frame-IsFrame = record { enough_points = omega arith; enough_times = omega arith; whole = whole }
  where
    whole :
        (i : ℕ) (p : PointPacket)
        → get_elem? frame.lidar_point i ≡ some p
        → p.points_num ≤ length p.points
    whole zero p e = whole_packet p e
    whole (suc zero) p e = whole_packet p e
    whole (suc (suc i)) p e = cc

storage_point_data_lem_example :
    (s' : Lds) × (storage_point_data number_unit (some frame) lds ≡ ok s')
    × LdsServes number_unit s' (λ j. 4) (store (λ j. 4) cache (packets_from 2 0 frame) no_packets)
    × Keeps lds s'
    × (AnyKnown cache (packets_from 2 0 frame) → 1 ≤ s'.pcd_semaphore.count)
storage_point_data_lem_example =
    storage_point_data_lem number_unit frame lds-LdsServes frame-IsFrame

-- The replies to the two settings of the configuration, among a timeout and a failure.
abbrev replies : List Reply
replies =
    record { setting = blind_spot; status = timeout; response = none }
    ∷ record { setting = blind_spot; status = success; response = none }
    ∷ record {
      setting = data_type;
      status = failed;
      response = some (record { ret_code = 1; error_key = 2 });
    }
    ∷ record { setting = data_type; status = success; response = none }
    ∷ []

covered :
    (c : Setting) → asked device.livox_config c ≡ true → has c (blind_spot ∷ data_type ∷ []) ≡ true
covered data_type e = refl
covered scan_pattern e = cc
covered blind_spot e = refl
covered dual_emit e = cc

connected_then_sampled_example :
    (s1 s2 : Lds) × (calls : List SdkCall) × (lidar' : LidarDevice) × (lidar_info_change_callback 7
        (some lds)
      ≡ ok (some s1, calls))
    × (run_replies 7 replies (some s1) ≡ ok (some s2))
    × (get_index livox_lidar_type 7 s2.cache ≡ some 0)
    × (get_elem? s2.lidars 0 ≡ some lidar')
    × (lidar'.connect_state ≡ sampling)
connected_then_sampled_example =
    connected_then_sampled 7 0 replies device lds registered refl refl (tt, (tt, (tt, (tt, tt))))
      covered

run_replies_lem_example :
    (s' : Lds) × (run_replies 7 replies (some lds) ≡ ok (some s'))
    × (get_elem? s'.lidars 0 ≡ some (acknowledge_all (blind_spot ∷ data_type ∷ []) device))
    × ((j : ℕ) → 0 ≢ j → get_elem? s'.lidars j ≡ get_elem? lds.lidars j)
    × (s' ≡ record lds { lidars = s'.lidars })
run_replies_lem_example =
    run_replies_lem 7 0 replies device lds registered refl (tt, (tt, (tt, (tt, tt))))

not_sampled_before_example :
    (acknowledge_all (data_type ∷ data_type ∷ []) (configure 7 device).0).connect_state ≡ off
not_sampled_before_example =
    not_sampled_before 7 (data_type ∷ data_type ∷ []) blind_spot device refl refl refl

-- The second reply could not be sent, which the SDK reports without a response.
abbrev unsent : List Reply
unsent =
    record { setting = blind_spot; status = success; response = none }
    ∷ record { setting = data_type; status = failed; response = none }
    ∷ []

run_replies-fault_iff_example : (run_replies 7 unsent (some lds) ≡ fault) ↔ AnyFails unsent
run_replies-fault_iff_example = run_replies-fault_iff 7 0 unsent device lds registered refl
