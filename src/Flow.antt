-- ===== src/Flow.antt =====
-- The way of the points through the components: from the packets that PubHandler has queued to the
-- queues of the devices. `points_callback_` is LidarCommonCallback::OnLidarPointClounCb, set by
-- LdsLidar::SetLidarPubHandle.
pub mod Start
pub mod Imu
use livox_mid360_rko_lio_ros.Base.{
  ℕ, ◌≤◌, ◌≡◌, refl, sym, subst, ◌∙◌, inl, inr, Bool-cases, false, some, List, [], ◌∷◌, ◌++◌, arith,
  length, Outcome, ok, ◌>>=◌, ◌==◌, ==_iff, if◌then◌else◌,
}
use livox_mid360_rko_lio_ros.Comm.{PointXyzlt, PointFrame, RawPacket}
use livox_mid360_rko_lio_ros.Comm.Float.{FloatUnit}
use livox_mid360_rko_lio_ros.CacheIndex.{CacheIndex}
use livox_mid360_rko_lio_ros.Lds.{Lds, storage_point_data}
use livox_mid360_rko_lio_ros.Lds.Keeps.{Keeps, Keeps-refl, Keeps-trans}
use livox_mid360_rko_lio_ros.Lds.Frame.{
  Queues, packets_from, store, LdsServes, IsFrame, storage_point_data_lem,
}
use livox_mid360_rko_lio_ros.Callback.{Client, on_lidar_point_cloun_cb}
use livox_mid360_rko_lio_ros.Publish.{PubHandler, raw_data_loop}
use livox_mid360_rko_lio_ros.Publish.Keys.{keys}
use livox_mid360_rko_lio_ros.Publish.Known.{IsIn}
use livox_mid360_rko_lio_ros.Publish.Conserve.{IsReady, AreFrames}
use livox_mid360_rko_lio_ros.Publish.Rounds.{AreDecodable, AreRounds, of_lidar, raw_data_loop_lem}
use livox_mid360_rko_lio_ros.Publish.Collect.{pending}
use livox_mid360_rko_lio_ros.Publish.Stored.{HasRoom, raw_points, stored_points, rounds-stored}

-- The calls of `points_callback_` for frames, one after the other.
pub deliver_frames : FloatUnit → List PointFrame → Client → Outcome Client
deliver_frames fu [] client = ok client
deliver_frames fu (frame ∷ frames) client = do
  client' ← on_lidar_point_cloun_cb fu (some frame) client
  deliver_frames fu frames client'

-- What the devices have queued after frames.
pub store_frames : (ℕ → ℕ) → CacheIndex → List PointFrame → Queues → Queues
store_frames K cache [] C = C
store_frames K cache (frame ∷ frames) C =
    store_frames K cache frames (store K cache (packets_from frame.lidar_num 0 frame) C)

module _ (fu : FloatUnit) where
  deliver_one :
      {s : Lds} {K : ℕ → ℕ} {C : Queues} (frame : PointFrame)
      → LdsServes fu s K C
      → IsFrame frame
      → (s' : Lds) × (on_lidar_point_cloun_cb fu (some frame) (some s) ≡ ok (some s'))
        × LdsServes fu s' K (store K s.cache (packets_from frame.lidar_num 0 frame) C)
        × Keeps s s'
  unfolding on_lidar_point_cloun_cb packets_from store
  deliver_one {s} {K} {C} frame v f = elim (Bool-cases (frame.lidar_num == 0)) [
    | inl none' ↦
        let e : frame.lidar_num ≡ 0 = (==_iff frame.lidar_num 0).0 none' in
        (s, rw none' refl, rw e v, Keeps-refl s)
    | inr some' ↦
        let (s', stored, v', same, up) = storage_point_data_lem fu frame v f in
        (s', rw (some', stored) refl, v', same)
  ]

  deliver_step :
      (frame : PointFrame) (frames : List PointFrame) (s s1 s2 : Lds)
      → on_lidar_point_cloun_cb fu (some frame) (some s) ≡ ok (some s1)
      → deliver_frames fu frames (some s1) ≡ ok (some s2)
      → deliver_frames fu (frame ∷ frames) (some s) ≡ ok (some s2)
  unfolding deliver_frames
  deliver_step frame frames s s1 s2 one others = simp (one, others)

  deliver_frames_lem :
      (frames : List PointFrame) {s : Lds} {K : ℕ → ℕ} {C : Queues}
      → LdsServes fu s K C
      → AreFrames frames
      → (s' : Lds) × (deliver_frames fu frames (some s) ≡ ok (some s'))
        × LdsServes fu s' K (store_frames K s.cache frames C)
        × Keeps s s'
  unfolding deliver_frames store_frames
  deliver_frames_lem [] {s} v good = (s, refl, v, Keeps-refl s)
  deliver_frames_lem (frame ∷ frames) {s} {K} {C} v good =
      let (s1, one, v1, same) = deliver_one frame v good.0.0 in
      let (s2, others, v2, same') = deliver_frames_lem frames v1 good.1 in
      (
        s2,
        deliver_step frame frames s s1 s2 one others,
        subst
            (λ cache. LdsServes fu s2 K (
              store_frames K cache frames
                (store K s.cache (packets_from frame.lidar_num 0 frame) C)))
            same.cache v2,
        Keeps-trans s s1 s2 same same',
      )

  -- From a ready handler that is not told to quit, with packets queued that can be decoded whole,
  -- of at most 32 lidars that include all with a handler, with fewer than 2^32 points pending of
  -- each lidar and in the packets, and from a source that serves its queues: at least as many
  -- rounds of RawDataProcess as there are packets, and then the point callback for each frame that
  -- they publish, do not fail. The queue of packets is then empty and the handler ready; each
  -- packet was decoded into points with its lines and times; for each lidar, what was published,
  -- taking of each packet of a frame as many points as it says, as storing does, followed by what
  -- is still pending is what was pending before followed by its points, in the order of the
  -- packets; and each device has the packets of the frames behind those that it had, in order and
  -- as far as there is room, and is otherwise unchanged, as are the index cache, the number of
  -- devices and the request to exit. Ready is: an empty frame with 32 places, whose packets say,
  -- in 32 bits, how many points they have, handlers in key order and at most 32 of them, the
  -- callback set, an interval of at least a millisecond.
  pub raw_data_loop-deliver :
      {s : Lds} {K : ℕ → ℕ} {C : Queues} (handles nows : List ℕ) (pkts : List RawPacket)
      (self : PubHandler)
      → length handles ≤ 32
      → length pkts ≤ length nows
      → self.raw_packet_queue ≡ pkts
      → self.is_quit ≡ false
      → AreDecodable handles pkts
      → IsReady self
      → ((j : ℕ) → IsIn j (keys self.lidar_process_handlers) → IsIn j handles)
      → HasRoom (raw_points pkts) self
      → LdsServes fu s K C
      → (self' : PubHandler) × (frames : List PointFrame) × (pss : List (List PointXyzlt))
        × (s' : Lds) × (raw_data_loop fu nows self ≡ ok (self', frames))
        × AreRounds handles pkts pss self self' frames
        × ((j : ℕ)
            → stored_points j frames ++ pending j self' ≡ pending j self ++ of_lidar j pkts pss)
        × (deliver_frames fu frames (some s) ≡ ok (some s'))
        × LdsServes fu s' K (store_frames K s.cache frames C)
        × Keeps s s'
  raw_data_loop-deliver handles nows pkts self few enough queued on d v known room serves =
      let (self', frames, pss, looped, rounds) =
        raw_data_loop_lem fu handles nows pkts self few enough queued on d v known in
      let (s', delivered, serves', same) = deliver_frames_lem frames serves rounds.storable in
      (self', frames, pss, s', looped, rounds, rounds-stored rounds room, delivered, serves', same)
