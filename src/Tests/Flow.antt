-- ===== src/Tests/Flow.antt =====
-- Two packets that PubHandler has queued, of lidar 7, through to the devices.
use livox_mid360_rko_lio_ros.Base.{ℕ, ◌≡◌, refl, some, List, [], ◌∷◌, ◌++◌, arith, ok, inl}
use livox_mid360_rko_lio_ros.Comm.{PointXyzlt, PointFrame, RawPacket}
use livox_mid360_rko_lio_ros.Lds.{Lds}
use livox_mid360_rko_lio_ros.Lds.Keeps.{Keeps}
use livox_mid360_rko_lio_ros.Lds.Frame.{LdsServes}
use livox_mid360_rko_lio_ros.Publish.{PubHandler, raw_data_loop}
use livox_mid360_rko_lio_ros.Publish.Conserve.{IsReady}
use livox_mid360_rko_lio_ros.Publish.Rounds.{AreRounds, of_lidar}
use livox_mid360_rko_lio_ros.Publish.Collect.{pending}
use livox_mid360_rko_lio_ros.Publish.Stored.{HasRoom, stored_points}
use livox_mid360_rko_lio_ros.Points.Decode.{cartesian_low}
use livox_mid360_rko_lio_ros.Flow.{deliver_frames, store_frames, raw_data_loop-deliver}
use livox_mid360_rko_lio_ros.Tests.{number_unit, lds, cache}
use livox_mid360_rko_lio_ros.Tests.Points.{
  raw, raw-IsDecodable, waiting, waiting-IsReady, few_pending,
}
use livox_mid360_rko_lio_ros.Tests.Devices.{lds-LdsServes, no_packets}

abbrev two : List RawPacket
two = raw ∷ raw ∷ []

abbrev busy : PubHandler
busy = record waiting { raw_packet_queue = two }

busy-IsReady : IsReady busy
busy-IsReady = record {
  arrays = record {
    times = waiting-IsReady.arrays.times;
    packets = waiting-IsReady.arrays.packets;
    fits = waiting-IsReady.arrays.fits;
    counted = waiting-IsReady.arrays.counted;
  };
  empty_frame = refl;
  ascending = waiting-IsReady.ascending;
  few = waiting-IsReady.few;
  callback = refl;
  interval = waiting-IsReady.interval;
}

busy-HasRoom : HasRoom 8 busy
unfolding pending
busy-HasRoom j = omega (arith, few_pending j)

raw_data_loop-deliver_example :
    (self' : PubHandler) × (frames : List PointFrame) × (pss : List (List PointXyzlt)) × (s' : Lds)
    × (raw_data_loop number_unit (5000 ∷ 6000 ∷ 7000 ∷ []) busy ≡ ok (self', frames))
    × AreRounds (7 ∷ 9 ∷ []) two pss busy self' frames
    × ((j : ℕ) → stored_points j frames ++ pending j self' ≡ pending j busy ++ of_lidar j two pss)
    × (deliver_frames number_unit frames (some lds) ≡ ok (some s'))
    × LdsServes number_unit s' (λ j. 4) (store_frames (λ j. 4) cache frames no_packets)
    × Keeps lds s'
raw_data_loop-deliver_example =
    raw_data_loop-deliver number_unit (7 ∷ 9 ∷ []) (5000 ∷ 6000 ∷ 7000 ∷ []) two busy (omega arith)
      (omega arith) refl refl
      ((cartesian_low, raw-IsDecodable, inl refl), ((cartesian_low, raw-IsDecodable, inl refl), tt))
      busy-IsReady (λ j at. at) busy-HasRoom lds-LdsServes
