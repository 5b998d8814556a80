-- ===== src/Publish/Rounds.antt =====
-- `RawDataProcess` until the packets that wait are decoded.
use livox_mid360_rko_lio_ros.Base.{
  ℕ, ◌≤◌, ◌<◌, ◌≡◌, refl, sym, ap, subst, ◌∙◌, ◌⊎◌, inl, inr, false, none, List, [], ◌∷◌, ◌++◌, map,
  arith, length, ok, ◌==◌, if◌then◌else◌,
}
use mathlib.Core.List.{append_assoc, append-nil}
use livox_mid360_rko_lio_ros.Base.Dict.{find, insert, nat_key}
use livox_mid360_rko_lio_ros.Comm.{PointXyzlt, PointFrame, RawPacket}
use livox_mid360_rko_lio_ros.Comm.Float.{FloatUnit}
use livox_mid360_rko_lio_ros.Points.{new_lidar_pub_handler}
use livox_mid360_rko_lio_ros.Points.Decode.{PointType, echoes, stamp, stamps_from}
use livox_mid360_rko_lio_ros.Publish.{PubHandler, process_queue, raw_data_process, raw_data_loop}
use livox_mid360_rko_lio_ros.Publish.Keys.{keys, insert-Ascending}
use livox_mid360_rko_lio_ros.Publish.Known.{
  IsIn, IsIn-insert, length-le_of_IsIn, length-keys-insert_fresh,
}
use livox_mid360_rko_lio_ros.Publish.Collect.{pending, frame_points, published}
use livox_mid360_rko_lio_ros.Publish.Conserve.{IsReady, AreFrames}
use livox_mid360_rko_lio_ros.Publish.Round.{IsDecodable, raw_data_process_lem}

-- Packets that can be decoded whole, of the lidars `handles`.
abbrev pub AreDecodable : List ℕ → List RawPacket → Type 0
AreDecodable handles [] = Unit {0}
AreDecodable handles (pkt ∷ pkts) =
    ((ty : PointType) × IsDecodable ty pkt × IsIn pkt.handle handles) × AreDecodable handles pkts

-- The points `pss` of packets, with the lines and times of each.
abbrev pub AreDecoded : List RawPacket → List (List PointXyzlt) → Type 0
AreDecoded [] [] = Unit {0}
AreDecoded [] (ps ∷ pss) = ⊥
AreDecoded (pkt ∷ pkts) [] = ⊥
AreDecoded (pkt ∷ pkts) (ps ∷ pss) =
    ((ty : PointType) × (map stamp ps ≡ stamps_from (echoes ty) pkt pkt.point_num 0))
    × AreDecoded pkts pss

-- Those of one lidar.
abbrev pub of_lidar : ℕ → List RawPacket → List (List PointXyzlt) → List PointXyzlt
of_lidar j [] pss = []
of_lidar j (pkt ∷ pkts) [] = []
of_lidar j (pkt ∷ pkts) (ps ∷ pss) = (if pkt.handle == j then ps else []) ++ of_lidar j pkts pss

-- What rounds with packets, decoded into `pss`, leave.
pub record AreRounds (handles : List ℕ) (pkts : List RawPacket) (pss : List (List PointXyzlt))
    (self self' : PubHandler) (frames : List PointFrame) : Type 0 where
  pub ready : IsReady self'
  pub queue : self'.raw_packet_queue ≡ []
  pub running : self'.is_quit ≡ self.is_quit
  pub known : (j : ℕ) → IsIn j (keys self'.lidar_process_handlers) → IsIn j handles
  pub storable : AreFrames frames
  pub decoded : AreDecoded pkts pss
  pub conserves :
      (j : ℕ) → published j frames ++ pending j self' ≡ pending j self ++ of_lidar j pkts pss

AreFrames-append : (fs gs : List PointFrame) → AreFrames fs → AreFrames gs → AreFrames (fs ++ gs)
AreFrames-append [] gs a b = b
AreFrames-append (f ∷ fs) gs a b = (a.0, AreFrames-append fs gs a.1 b)

published-append :
    (j : ℕ) (fs gs : List PointFrame) → published j (fs ++ gs) ≡ published j fs ++ published j gs
unfolding published
published-append j [] gs = refl
published-append j (f ∷ fs) gs =
    ap (◌++◌ (frame_points j f)) (published-append j fs gs)
    ∙ sym (append_assoc (frame_points j f) (published j fs) (published j gs))

published_step :
    (j : ℕ) (id : ℕ) (ps qs : List PointXyzlt) (fs gs : List PointFrame) (s0 s1 s2 : PubHandler)
    → published j fs ++ pending j s1 ≡ pending j s0 ++ (if id == j then ps else [])
    → published j gs ++ pending j s2 ≡ pending j s1 ++ qs
    → published j (fs ++ gs) ++ pending j s2 ≡ pending j s0 ++ ((if id == j then ps else []) ++ qs)
published_step j id ps qs fs gs s0 s1 s2 first others =
    ap (λ l. l ++ pending j s2) (published-append j fs gs)
    ∙ append_assoc (published j fs) (published j gs) (pending j s2)
    ∙ ap (◌++◌ (published j fs)) others
    ∙ sym (append_assoc (published j fs) (pending j s1) qs)
    ∙ ap (λ l. l ++ qs) first
    ∙ append_assoc (pending j s0) (if id == j then ps else []) qs

still_known :
    (handles : List ℕ) (id j : ℕ) (ks : List ℕ)
    → IsIn id handles
    → ((i : ℕ) → IsIn i ks → IsIn i handles)
    → (id ≡ j) ⊎ IsIn j ks
    → IsIn j handles
still_known handles id j ks here known (inl e) = subst (λ i. IsIn i handles) e here
still_known handles id j ks here known (inr old) = known j old

-- A new lidar of `handles` finds room.
room_for :
    (handles : List ℕ) (id : ℕ) (self : PubHandler)
    → length handles ≤ 32
    → IsIn id handles
    → IsReady self
    → ((j : ℕ) → IsIn j (keys self.lidar_process_handlers) → IsIn j handles)
    → find id self.lidar_process_handlers ≡ none
    → length (keys self.lidar_process_handlers) < 32
room_for handles id self few here v known fresh =
    let h = new_lidar_pub_handler in
    omega (
      arith,
      length-keys-insert_fresh id h self.lidar_process_handlers fresh,
      length-le_of_IsIn (keys (insert id h self.lidar_process_handlers)) handles
          (insert-Ascending id h self.lidar_process_handlers v.ascending)
          (λ j at.
            still_known handles id j (keys self.lidar_process_handlers) here known
              (IsIn-insert j id h self.lidar_process_handlers at)),
    )

module _ (fu : FloatUnit) where
  idle_round :
      (now : ℕ) (self : PubHandler)
      → self.raw_packet_queue ≡ []
      → raw_data_process fu now self ≡ ok (self, [])
  unfolding raw_data_process process_queue
  idle_round now self none' = ap (λ q. process_queue fu now q self) none'

  idle_loop :
      (nows : List ℕ) (self : PubHandler)
      → self.raw_packet_queue ≡ []
      → self.is_quit ≡ false
      → raw_data_loop fu nows self ≡ ok (self, [])
  unfolding raw_data_loop
  idle_loop [] self none' on = refl
  idle_loop (now ∷ nows) self none' on =
      simp (on, idle_round now self none', idle_loop nows self none' on)

  step :
      (now : ℕ) (nows : List ℕ) (self s1 s2 : PubHandler) (fs gs : List PointFrame)
      → self.is_quit ≡ false
      → raw_data_process fu now self ≡ ok (s1, fs)
      → raw_data_loop fu nows s1 ≡ ok (s2, gs)
      → raw_data_loop fu (now ∷ nows) self ≡ ok (s2, fs ++ gs)
  unfolding raw_data_loop
  step now nows self s1 s2 fs gs on one others = simp (on, one, others)

  pub raw_data_loop_lem :
      (handles : List ℕ) (nows : List ℕ) (pkts : List RawPacket) (self : PubHandler)
      → length handles ≤ 32
      → length pkts ≤ length nows
      → self.raw_packet_queue ≡ pkts
      → self.is_quit ≡ false
      → AreDecodable handles pkts
      → IsReady self
      → ((j : ℕ) → IsIn j (keys self.lidar_process_handlers) → IsIn j handles)
      → (self' : PubHandler) × (frames : List PointFrame) × (pss : List (List PointXyzlt))
        × (raw_data_loop fu nows self ≡ ok (self', frames))
        × AreRounds handles pkts pss self self' frames
  unfolding published
  raw_data_loop_lem handles nows [] self few enough queued on d v known = (
    self,
    [],
    [],
    idle_loop nows self queued on,
    record {
      ready = v;
      queue = queued;
      running = refl;
      known = known;
      storable = tt;
      decoded = tt;
      conserves = λ j. sym (append-nil (pending j self));
    },
  )
  raw_data_loop_lem handles [] (pkt ∷ pkts) self few enough queued on d v known =
      absurd (omega arith)
  raw_data_loop_lem handles (now ∷ nows) (pkt ∷ pkts) self few enough queued on
        ((ty, whole, here), later) v known =
      let (s1, fs, ps, one, r) =
        raw_data_process_lem fu ty now pkt pkts self queued whole v
          (room_for handles pkt.handle self few here v known) in
      let (s2, gs, pss, others, rs) =
        raw_data_loop_lem handles nows pkts s1 few (omega arith) r.queue (r.running ∙ on) later
          r.ready
          (λ j at.
            still_known handles pkt.handle j (keys self.lidar_process_handlers) here known
              (r.known j at)) in
      (
        s2,
        fs ++ gs,
        ps ∷ pss,
        step now nows self s1 s2 fs gs on one others,
        record {
          ready = rs.ready;
          queue = rs.queue;
          running = rs.running ∙ r.running;
          known = rs.known;
          storable = AreFrames-append fs gs r.storable rs.storable;
          decoded = ((ty, r.stamps), rs.decoded);
          conserves = λ j.
              published_step j pkt.handle ps (of_lidar j pkts pss) fs gs self s1 s2 (r.conserves j)
                (rs.conserves j);
        },
      )
