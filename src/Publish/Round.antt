-- ===== src/Publish/Round.antt =====
-- A round of `RawDataProcess`: one packet is decoded, and then the timer is checked.
use livox_mid360_rko_lio_ros.Base.{
  ℕ, ◌*◌, ◌≤◌, ◌<◌, ◌≡◌, ◌≢◌, refl, sym, ap, subst, ◌∙◌, ◌⊎◌, inl, inr, Option, none, some, List,
  [], ◌∷◌, ◌++◌, map, arith, length, Bool-cases, Option-cases, ok, ◌==◌, ==_iff, ==_refl,
  if◌then◌else◌,
}
use livox_mid360_rko_lio_ros.Base.Dict.{find, insert, nat_key, find-insert}
use livox_mid360_rko_lio_ros.Comm.{
  livox_lidar_type, PointXyzlt, PointFrame, LidarExtParameter, RawPacket,
}
use livox_mid360_rko_lio_ros.Comm.Float.{FloatUnit}
use livox_mid360_rko_lio_ros.Points.{LidarPubHandler, new_lidar_pub_handler, point_cloud_process}
use livox_mid360_rko_lio_ros.Points.Extrinsic.{set_lidars_ext_param-points_clouds}
use livox_mid360_rko_lio_ros.Points.Decode.{
  PointType, code, raw_size, echoes, stamp, stamps_from, point_cloud_process_lem,
}
use livox_mid360_rko_lio_ros.Publish.{
  PubHandler, get_lidar_id, handler_for, configured, check_timer, process_queue, raw_data_process,
}
use livox_mid360_rko_lio_ros.Publish.Known.{IsIn, IsIn-insert}
use livox_mid360_rko_lio_ros.Publish.Keys.{keys, insert-Ascending, keys-insert, length-keys-insert}
use livox_mid360_rko_lio_ros.Publish.Collect.{points_clouds_of, pending, published, append_nil}
use livox_mid360_rko_lio_ros.Publish.Carry.{pending-insert}
use livox_mid360_rko_lio_ros.Publish.Conserve.{IsReady, AreFrames, check_timer_lem}

-- What a round with the packet `pkt`, decoded into `ps`, leaves.
pub record IsRound (ty : PointType) (pkt : RawPacket) (rest : List RawPacket)
    (self self' : PubHandler) (frames : List PointFrame) (ps : List PointXyzlt) : Type 0 where
  pub ready : IsReady self'
  pub queue : self'.raw_packet_queue ≡ rest
  pub running : self'.is_quit ≡ self.is_quit
  pub known :
      (j : ℕ)
      → IsIn j (keys self'.lidar_process_handlers)
      → (pkt.handle ≡ j) ⊎ IsIn j (keys self.lidar_process_handlers)
  pub storable : AreFrames frames
  pub stamps : map stamp ps ≡ stamps_from (echoes ty) pkt pkt.point_num 0
  pub conserves :
      (j : ℕ)
      → published j frames ++ pending j self'
        ≡ pending j self ++ (if pkt.handle == j then ps else [])

-- A packet that the handler can decode whole.
pub record IsDecodable (ty : PointType) (pkt : RawPacket) : Type 0 where
  pub livox : pkt.lidar_type ≡ livox_lidar_type
  pub typed : pkt.data_type ≡ code ty
  pub lines : pkt.line_num ≢ 0
  pub whole : raw_size ty * pkt.point_num ≤ length pkt.raw_data

module _ (fu : FloatUnit) where
  configured-points_clouds :
      (param : Option LidarExtParameter) (found : Option LidarPubHandler)
      → (configured fu param (handler_for found)).points_clouds ≡ points_clouds_of found
  unfolding configured new_lidar_pub_handler
  configured-points_clouds none none = refl
  configured-points_clouds none (some h) = refl
  configured-points_clouds (some p) none =
      set_lidars_ext_param-points_clouds fu p new_lidar_pub_handler
  configured-points_clouds (some p) (some h) = set_lidars_ext_param-points_clouds fu p h

-- The handler once a packet is taken off and decoded into `h`.
abbrev decoded : ℕ → LidarPubHandler → List RawPacket → PubHandler → PubHandler
decoded id h rest self = record self {
  raw_packet_queue = rest;
  lidar_process_handlers = insert id h self.lidar_process_handlers;
}

few_keys :
    (id : ℕ) (h : LidarPubHandler) (self : PubHandler)
    → IsReady self
    → (find id self.lidar_process_handlers ≡ none → length (keys self.lidar_process_handlers) < 32)
    → length (keys (insert id h self.lidar_process_handlers)) ≤ 32
few_keys id h self v room = elim (Option-cases (find id self.lidar_process_handlers)) [
  | inl fresh ↦ omega (arith, room fresh, length-keys-insert id h self.lidar_process_handlers)
  | inr (old, at) ↦
      omega
        (arith, v.few, ap length (keys-insert id h old self.lidar_process_handlers v.ascending at))
]

decoded-IsReady :
    (id : ℕ) (h : LidarPubHandler) (rest : List RawPacket) (self : PubHandler)
    → IsReady self
    → (find id self.lidar_process_handlers ≡ none → length (keys self.lidar_process_handlers) < 32)
    → IsReady (decoded id h rest self)
decoded-IsReady id h rest self v room = record {
  arrays = record {
    times = v.arrays.times;
    packets = v.arrays.packets;
    fits = v.arrays.fits;
    counted = v.arrays.counted;
  };
  empty_frame = v.empty_frame;
  ascending = insert-Ascending id h self.lidar_process_handlers v.ascending;
  few = few_keys id h self v room;
  callback = v.callback;
  interval = v.interval;
}

find_decoded :
    (id : ℕ) (h : LidarPubHandler) (self : PubHandler)
    → find id (insert id h self.lidar_process_handlers) ≡ some h
find_decoded id h self =
    find-insert id id h self.lidar_process_handlers
    ∙ ap (λ b. if b then some h else find id self.lidar_process_handlers) (==_refl id)

pending-decoded :
    (id j : ℕ) (h : LidarPubHandler) (ps : List PointXyzlt) (rest : List RawPacket)
    (self : PubHandler)
    → h.points_clouds ≡ pending id self ++ ps
    → pending j (decoded id h rest self) ≡ pending j self ++ (if id == j then ps else [])
pending-decoded id j h ps rest self e =
    pending-insert id j h self (decoded id h rest self) refl ∙ (elim (Bool-cases (id == j)) [
      | inl same ↦
          let k : id ≡ j = (==_iff id j).0 same in rw same (e ∙ ap (λ l. pending l self ++ ps) k)
      | inr other ↦ rw other (sym (append_nil (pending j self)))
    ])

get_lidar_id_lem :
    (pkt : RawPacket)
    → pkt.lidar_type ≡ livox_lidar_type
    → get_lidar_id pkt.lidar_type pkt.handle ≡ pkt.handle
unfolding get_lidar_id
get_lidar_id_lem pkt livox = ground arith

module _ (fu : FloatUnit) (ty : PointType) (now : ℕ) (pkt : RawPacket) (rest : List RawPacket)
    (self : PubHandler) where
  -- What decoding leaves for the timer.
  process_step :
      (h h' : LidarPubHandler)
      → pkt.lidar_type ≡ livox_lidar_type
      → configured fu
          (find pkt.handle self.lidar_extrinsics)
          (handler_for (find pkt.handle self.lidar_process_handlers))
        ≡ h
      → point_cloud_process fu pkt h ≡ ok h'
      → process_queue fu now (pkt ∷ rest) self
        ≡ check_timer now pkt.handle (decoded pkt.handle h' rest self)
  unfolding process_queue
  process_step h h' livox ready made = rw (get_lidar_id_lem pkt livox, ready, made) refl

  process_queue_lem :
      IsDecodable ty pkt
      → IsReady self
      → (find pkt.handle self.lidar_process_handlers ≡ none
          → length (keys self.lidar_process_handlers) < 32)
      → (self' : PubHandler) × (frames : List PointFrame) × (ps : List PointXyzlt) × (process_queue
            fu now
            (pkt ∷ rest)
            self
          ≡ ok (self', frames))
        × IsRound ty pkt rest self self' frames ps
  unfolding pending
  process_queue_lem d v room =
      let h =
        configured fu (find pkt.handle self.lidar_extrinsics)
          (handler_for (find pkt.handle self.lidar_process_handlers)) in
      let (ps, made, stamps) =
        point_cloud_process_lem fu ty pkt h d.livox d.typed d.lines d.whole in
      let h' : LidarPubHandler = record h { points_clouds = h.points_clouds ++ ps } in
      let before : h'.points_clouds ≡ pending pkt.handle self ++ ps =
        ap (λ qs. qs ++ ps)
          (configured-points_clouds fu (find pkt.handle self.lidar_extrinsics)
            (find pkt.handle self.lidar_process_handlers)) in
      let (self', frames, checked, c) =
        check_timer_lem now pkt.handle h' (decoded pkt.handle h' rest self)
          (decoded-IsReady pkt.handle h' rest self v room) (find_decoded pkt.handle h' self) in
      (
        self',
        frames,
        ps,
        process_step h h' d.livox refl made ∙ checked,
        record {
          ready = c.ready;
          queue = c.queue;
          running = c.running;
          known = λ j at.
              IsIn-insert j pkt.handle h' self.lidar_process_handlers
                (subst (IsIn j) c.same_keys at);
          storable = c.storable;
          stamps = stamps;
          conserves = λ j. c.conserves j ∙ pending-decoded pkt.handle j h' ps rest self before;
        },
      )

  -- A round with a packet that can be decoded whole, which finds room if its lidar is new.
  pub raw_data_process_lem :
      self.raw_packet_queue ≡ pkt ∷ rest
      → IsDecodable ty pkt
      → IsReady self
      → (find pkt.handle self.lidar_process_handlers ≡ none
          → length (keys self.lidar_process_handlers) < 32)
      → (self' : PubHandler) × (frames : List PointFrame) × (ps : List PointXyzlt)
        × (raw_data_process fu now self ≡ ok (self', frames))
        × IsRound ty pkt rest self self' frames ps
  unfolding raw_data_process
  raw_data_process_lem queued d v room =
      let (self', frames, ps, processed, round) = process_queue_lem d v room in
      (self', frames, ps, ap (λ q. process_queue fu now q self) queued ∙ processed, round)
