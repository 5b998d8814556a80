-- ===== src/Publish/Stored.antt =====
-- The points of the published frames as Lds::StoragePointData takes them, as many of a packet as it
-- says: with fewer than 2 ^ 32 points these are all.
use livox_mid360_rko_lio_ros.Base.{
  ℕ, zero, suc, ◌+◌, ◌*◌, ◌^◌, ◌≤◌, ◌<◌, ◌≡◌, refl, sym, ap, ap₂, ◌∙◌, inl, inr, none, some, List,
  [], ◌∷◌, ◌++◌, map, replicate, arith, length, length-append, take, Bool-cases, ok, ◌==◌, ==_refl,
  if◌then◌else◌,
}
use livox_mid360_rko_lio_ros.Base.Dict.{find, nat_key}
use livox_mid360_rko_lio_ros.Comm.{PointXyzlt, PointPacket, PointFrame, RawPacket}
use livox_mid360_rko_lio_ros.Comm.Float.{FloatUnit}
use livox_mid360_rko_lio_ros.Points.{LidarPubHandler}
use livox_mid360_rko_lio_ros.Points.Decode.{
  PointType, cartesian_high, cartesian_low, spherical_type, double_echo, echoes, stamp, stamp_at,
  stamps_from,
}
use livox_mid360_rko_lio_ros.Publish.{PubHandler, check_timer, raw_data_process}
use livox_mid360_rko_lio_ros.Publish.Keys.{keys}
use livox_mid360_rko_lio_ros.Publish.Collect.{
  pending, points_in, frame_points, published, AreCounted,
}
use livox_mid360_rko_lio_ros.Publish.Conserve.{IsReady, AreFrames, IsConserved, check_timer_lem}
use livox_mid360_rko_lio_ros.Publish.Round.{IsDecodable, IsRound, raw_data_process_lem}
use livox_mid360_rko_lio_ros.Publish.Rounds.{AreDecoded, AreRounds, of_lidar}

-- The points of a lidar in packets, as many of each as it says, and those in frames.
unfoldable pub stored_in : ℕ → List PointPacket → List PointXyzlt
stored_in id [] = []
stored_in id (p ∷ ps) =
    if p.handle == id then take p.points_num p.points ++ stored_in id ps else stored_in id ps

unfoldable pub stored_points : ℕ → List PointFrame → List PointXyzlt
unfolding stored_in
stored_points id [] = []
stored_points id (f ∷ fs) = stored_in id (take f.lidar_num f.lidar_point) ++ stored_points id fs

-- With `n` more, no lidar has 2 ^ 32 points pending.
abbrev pub HasRoom : ℕ → PubHandler → Type 0
HasRoom n self = (j : ℕ) → length (pending j self) + n < 2 ^ 32

take-all : {A : Type 0} (xs : List A) → take (length xs) xs ≡ xs
take-all [] = refl
take-all (x ∷ xs) = ap (◌∷◌ x) (take-all xs)

take-AreCounted : (n : ℕ) (ps : List PointPacket) → AreCounted ps → AreCounted (take n ps)
take-AreCounted zero ps c i p at = cc
take-AreCounted (suc n) [] c i p at = cc
take-AreCounted (suc n) (q ∷ ps) c zero p at = c zero p at
take-AreCounted (suc n) (q ∷ ps) c (suc i) p at = take-AreCounted n ps (λ j. c (suc j)) i p at

head_fits :
    (p : PointPacket) (ps : List PointPacket)
    → length p.points ≤ length (points_in p.handle (p ∷ ps))
unfolding points_in
head_fits p ps =
    rw (==_refl p.handle) (omega (arith, length-append p.points (points_in p.handle ps)))

tail_fits :
    (i : ℕ) (p : PointPacket) (ps : List PointPacket)
    → length (points_in i ps) ≤ length (points_in i (p ∷ ps))
unfolding points_in
tail_fits i p ps = elim (Bool-cases (p.handle == i)) [
  | inl same ↦ rw same (omega (arith, length-append p.points (points_in i ps)))
  | inr other ↦ rw other (omega arith)
]

stored_in-eq :
    (j : ℕ) (ps : List PointPacket)
    → AreCounted ps
    → ((i : ℕ) → length (points_in i ps) < 2 ^ 32)
    → stored_in j ps ≡ points_in j ps
unfolding stored_in points_in
stored_in-eq j [] c small = refl
stored_in-eq j (p ∷ ps) c small =
    let fits : p.points_num ≡ length p.points =
      omega (arith, c 0 p refl, small p.handle, head_fits p ps) in
    let all : take p.points_num p.points ≡ p.points =
      ap (λ n. take n p.points) fits ∙ take-all p.points in
    let rest = stored_in-eq j ps (λ i. c (suc i)) (λ i. omega (arith, small i, tail_fits i p ps)) in
    rw (all, rest) refl

stored_points-eq :
    (j : ℕ) (fs : List PointFrame)
    → AreFrames fs
    → ((i : ℕ) → length (published i fs) < 2 ^ 32)
    → stored_points j fs ≡ published j fs
unfolding stored_points published frame_points
stored_points-eq j [] good small = refl
stored_points-eq j (f ∷ fs) good small =
    ap₂ ◌++◌
      (stored_in-eq j (take f.lidar_num f.lidar_point)
        (take-AreCounted f.lidar_num f.lidar_point good.0.1)
        (λ i. omega (arith, small i, length-append (frame_points i f) (published i fs))))
      (stored_points-eq j fs good.1
        (λ i. omega (arith, small i, length-append (frame_points i f) (published i fs))))

-- From an equation on what is published to one on what is stored.
pub stored_lem :
    (fs : List PointFrame) (self' : PubHandler) (due : ℕ → List PointXyzlt)
    → AreFrames fs
    → ((j : ℕ) → length (due j) < 2 ^ 32)
    → ((j : ℕ) → published j fs ++ pending j self' ≡ due j)
    → (j : ℕ) → stored_points j fs ++ pending j self' ≡ due j
stored_lem fs self' due good small conserves j =
    ap (λ ps. ps ++ pending j self')
      (stored_points-eq j fs good (λ i. omega (
        arith,
        small i,
        ap length (conserves i),
        length-append (published i fs) (pending i self'),
      )))
    ∙ conserves j

-- CheckTimer, of a ready handler with fewer than 2^32 points pending of each lidar, and for a
-- lidar that has its own handler, does not fail, leaves the handler ready, the packets that wait,
-- the lidars that have a handler and the request to quit as they are, publishes only frames whose
-- arrays are as long as they say and whose packets say how many points they have, and loses and
-- repeats no point: for each lidar, what it publishes, taking of each packet of a frame as many
-- points as it says, as storing does, followed by what is still pending is what was pending
-- before. Ready is: an empty frame with 32 places, whose packets say, in 32 bits, how many points
-- they have, handlers in key order and at most 32 of them, the callback set, an interval of at
-- least a millisecond.
pub check_timer-stored :
    (now id : ℕ) (h : LidarPubHandler) (self : PubHandler)
    → IsReady self
    → find id self.lidar_process_handlers ≡ some h
    → HasRoom 0 self
    → (self' : PubHandler) × (frames : List PointFrame) × (check_timer now id self
        ≡ ok (self', frames))
      × IsConserved self self' frames
      × ((j : ℕ) → stored_points j frames ++ pending j self' ≡ pending j self)
check_timer-stored now id h self v at room =
    let (self', frames, checked, c) = check_timer_lem now id h self v at in
    (
      self',
      frames,
      checked,
      c,
      stored_lem frames self' (λ j. pending j self) c.storable (λ j. omega (arith, room j))
          c.conserves,
    )

length-replicate : {A : Type 0} (n : ℕ) (x : A) → length (replicate n x) ≡ n
length-replicate zero x = refl
length-replicate (suc n) x = omega (arith, length-replicate n x)

length-stamps_from : (k left i : ℕ) (pkt : RawPacket) → length (stamps_from k pkt left i) ≡ k * left
unfolding stamps_from
length-stamps_from k zero i pkt = omega arith
length-stamps_from k (suc left) i pkt = omega (
  arith,
  length-append (replicate k (stamp_at pkt i)) (stamps_from k pkt left (i + 1)),
  length-replicate k (stamp_at pkt i),
  length-stamps_from k left (i + 1) pkt,
)

length-map : (ps : List PointXyzlt) → length (map stamp ps) ≡ length ps
length-map [] = refl
length-map (p ∷ ps) = omega (arith, length-map ps)

-- A packet of `n` raw points has `n` points, or two for each.
pub length-decoded :
    (ty : PointType) (pkt : RawPacket) (ps : List PointXyzlt)
    → map stamp ps ≡ stamps_from (echoes ty) pkt pkt.point_num 0
    → length ps ≡ echoes ty * pkt.point_num
length-decoded ty pkt ps stamps =
    sym (length-map ps) ∙ ap length stamps ∙ length-stamps_from (echoes ty) pkt.point_num 0 pkt

pub length-if :
    (same : ℕ) (j : ℕ) (ps : List PointXyzlt) → length (if same == j then ps else []) ≤ length ps
length-if same j ps = elim (Bool-cases (same == j)) [
  | inl e ↦ rw e (omega arith)
  | inr e ↦ rw e (omega arith)
]

-- A round of RawDataProcess of a ready handler, with a packet of a known data type, at least one
-- line and bytes for all its raw points at the head of the queue, with fewer than 32 lidars known
-- if its lidar is new, and with fewer than 2^32 points pending of each lidar and in the packet: it
-- does not fail, leaves the handler ready and the request to quit as it is, gives a handler to no
-- other lidar than that of the packet, publishes only frames whose arrays are as long as they say
-- and whose packets say how many points they have, takes the packet off the queue and decodes it
-- into points with the lines and times of the packet; for each lidar, what is published, taking of
-- each packet of a frame as many points as it says, as storing does, followed by what is still
-- pending is what was pending before, followed, for the packet's lidar, by these points. Ready is:
-- an empty frame with 32 places, whose packets say, in 32 bits, how many points they have,
-- handlers in key order and at most 32 of them, the callback set, an interval of at least a
-- millisecond.
pub raw_data_process-stored :
    (fu : FloatUnit) (ty : PointType) (now : ℕ) (pkt : RawPacket) (rest : List RawPacket)
    (self : PubHandler)
    → self.raw_packet_queue ≡ pkt ∷ rest
    → IsDecodable ty pkt
    → IsReady self
    → (find pkt.handle self.lidar_process_handlers ≡ none
        → length (keys self.lidar_process_handlers) < 32)
    → HasRoom (echoes ty * pkt.point_num) self
    → (self' : PubHandler) × (frames : List PointFrame) × (ps : List PointXyzlt) × (raw_data_process
          fu now self
        ≡ ok (self', frames))
      × IsRound ty pkt rest self self' frames ps
      × ((j : ℕ)
          → stored_points j frames ++ pending j self'
            ≡ pending j self ++ (if pkt.handle == j then ps else []))
raw_data_process-stored fu ty now pkt rest self queued d v new room =
    let (self', frames, ps, processed, r) =
      raw_data_process_lem fu ty now pkt rest self queued d v new in
    (
      self',
      frames,
      ps,
      processed,
      r,
      stored_lem frames self' (λ j. pending j self ++ (if pkt.handle == j then ps else []))
          r.storable
          (λ j. omega (
            arith,
            room j,
            length-append (pending j self) (if pkt.handle == j then ps else []),
            length-if pkt.handle j ps,
            length-decoded ty pkt ps r.stamps,
          ))
          r.conserves,
    )

-- At most as many points as packets decode to: two for each raw point.
abbrev pub raw_points : List RawPacket → ℕ
raw_points [] = 0
raw_points (pkt ∷ pkts) = 2 * pkt.point_num + raw_points pkts

echoes_le : (ty : PointType) (n : ℕ) → echoes ty * n ≤ 2 * n
echoes_le cartesian_high n = omega arith
echoes_le cartesian_low n = omega arith
echoes_le spherical_type n = omega arith
echoes_le double_echo n = omega arith

length-of_lidar :
    (j : ℕ) (pkts : List RawPacket) (pss : List (List PointXyzlt))
    → AreDecoded pkts pss
    → length (of_lidar j pkts pss) ≤ raw_points pkts
length-of_lidar j [] pss d = omega arith
length-of_lidar j (pkt ∷ pkts) [] d = absurd d
length-of_lidar j (pkt ∷ pkts) (ps ∷ pss) ((ty, stamps), d) = omega (
  arith,
  length-append (if pkt.handle == j then ps else []) (of_lidar j pkts pss),
  length-if pkt.handle j ps,
  length-decoded ty pkt ps stamps,
  echoes_le ty pkt.point_num,
  length-of_lidar j pkts pss d,
)

pub rounds-stored :
    {handles : List ℕ} {pkts : List RawPacket} {pss : List (List PointXyzlt)}
    {self self' : PubHandler} {frames : List PointFrame}
    → AreRounds handles pkts pss self self' frames
    → HasRoom (raw_points pkts) self
    → (j : ℕ) → stored_points j frames ++ pending j self' ≡ pending j self ++ of_lidar j pkts pss
rounds-stored {pkts = pkts} {pss} {self} {self'} {frames} r room =
    stored_lem frames self' (λ j. pending j self ++ of_lidar j pkts pss) r.storable
      (λ j. omega (
        arith,
        room j,
        length-append (pending j self) (of_lidar j pkts pss),
        length-of_lidar j pkts pss r.decoded,
      ))
      r.conserves
