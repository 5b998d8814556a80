-- ===== src/Publish/Collect.antt =====
-- What one call of `collect` moves from a handler to the frame.
use livox_mid360_rko_lio_ros.Base.{
  ℕ, zero, suc, ◌+◌, ◌%◌, ◌^◌, ◌≤◌, ◌<◌, ◌≡◌, refl, sym, ap, ◌∙◌, subst, Bool, true, false, Option,
  none, some, List, [], ◌∷◌, ◌++◌, arith, length, take, set, get_elem?, length-set, Bool-cases, inl,
  inr, ok, ◌==◌, if◌then◌else◌, ltb, lt→ltb,
}
use livox_mid360_rko_lio_ros.Base.Dict.{find, insert, nat_key}
use livox_mid360_rko_lio_ros.Comm.{livox_lidar_type, PointXyzlt, PointPacket, PointFrame}
use livox_mid360_rko_lio_ros.Points.{LidarPubHandler, get_lidar_base_time, get_lidar_point_clouds}
use livox_mid360_rko_lio_ros.Publish.{PubHandler, collect}

abbrev pub points_clouds_of : Option LidarPubHandler → List PointXyzlt
points_clouds_of none = []
points_clouds_of (some h) = h.points_clouds

-- The points that a lidar has pending, those of the lidar in packets, in a frame, and in frames.
unfoldable pub pending : ℕ → PubHandler → List PointXyzlt
pending id self = points_clouds_of (find id self.lidar_process_handlers)

unfoldable pub points_in : ℕ → List PointPacket → List PointXyzlt
points_in id [] = []
points_in id (p ∷ ps) = if p.handle == id then p.points ++ points_in id ps else points_in id ps

unfoldable pub frame_points : ℕ → PointFrame → List PointXyzlt
unfolding points_in
frame_points id frame = points_in id (take frame.lidar_num frame.lidar_point)

unfoldable pub published : ℕ → List PointFrame → List PointXyzlt
unfolding frame_points
published id [] = []
published id (f ∷ fs) = frame_points id f ++ published id fs

-- Each packet says, in 32 bits, how many points it has.
abbrev pub IsCounted : PointPacket → Type 0
IsCounted p = p.points_num ≡ length p.points % 2 ^ 32

abbrev pub AreCounted : List PointPacket → Type 0
AreCounted ps = (i : ℕ) (p : PointPacket) → get_elem? ps i ≡ some p → IsCounted p

set-AreCounted :
    (ps : List PointPacket) (n : ℕ) (v : PointPacket)
    → IsCounted v
    → AreCounted ps
    → AreCounted (set ps n v)
set-AreCounted [] n v h old i p at = cc
set-AreCounted (q ∷ ps) zero v h old zero p at = let same : v ≡ p = cc in subst IsCounted same h
set-AreCounted (q ∷ ps) zero v h old (suc i) p at = old (suc i) p at
set-AreCounted (q ∷ ps) (suc n) v h old zero p at = old zero p at
set-AreCounted (q ∷ ps) (suc n) v h old (suc i) p at =
    set-AreCounted ps n v h (λ j. old (suc j)) i p at

-- Both arrays of the frame have their 32 elements, the frame uses no more, and also the packets of
-- earlier frames give their numbers of points.
pub record IsFrameArray (self : PubHandler) : Type 0 where
  pub times : length self.frame.base_time ≡ 32
  pub packets : length self.frame.lidar_point ≡ 32
  pub fits : self.frame.lidar_num ≤ 32
  pub counted : AreCounted self.frame.lidar_point

pub append_nil {ℓ} : {A : Type ℓ} (xs : List A) → xs ++ [] ≡ xs
append_nil [] = refl
append_nil (x ∷ xs) = ap (◌∷◌ x) (append_nil xs)

append_assoc {ℓ} : {A : Type ℓ} (xs ys zs : List A) → (xs ++ ys) ++ zs ≡ xs ++ (ys ++ zs)
append_assoc [] ys zs = refl
append_assoc (x ∷ xs) ys zs = ap (◌∷◌ x) (append_assoc xs ys zs)

take-set {ℓ} :
    {A : Type ℓ} (l : List A) (n : ℕ) (v : A)
    → n < length l
    → take (suc n) (set l n v) ≡ take n l ++ v ∷ []
take-set [] n v h = absurd (omega arith)
take-set (x ∷ l) zero v h = refl
take-set (x ∷ l) (suc n) v h = ap (◌∷◌ x) (take-set l n v (omega arith))

points_in-append :
    (id : ℕ) (ps qs : List PointPacket)
    → points_in id (ps ++ qs) ≡ points_in id ps ++ points_in id qs
unfolding points_in
points_in-append id [] qs = refl
points_in-append id (p ∷ ps) qs = elim (Bool-cases (p.handle == id)) [
  | inl same ↦
      rw (same, points_in-append id ps qs)
        (sym (append_assoc p.points (points_in id ps) (points_in id qs)))
  | inr other ↦ rw (other, points_in-append id ps qs) refl
]

-- What a call of `collect` leaves.
pub record Collected (id : ℕ) (h : LidarPubHandler) (self : PubHandler) : Type 0 where
  pub filled : Bool
  pub state : PubHandler
  pub returns : collect id h self ≡ ok (filled, state)
  pub arrays : IsFrameArray state
  pub handlers :
      state.lidar_process_handlers
      ≡ insert id (record h { points_clouds = [] }) self.lidar_process_handlers
  pub counts :
      state.frame.lidar_num ≡ (if filled then self.frame.lidar_num + 1 else self.frame.lidar_num)
  pub sent :
      (j : ℕ)
      → frame_points j state.frame
        ≡ frame_points j self.frame ++ (if id == j then h.points_clouds else [])
  pub callback : state.points_callback ≡ self.points_callback
  pub interval : state.publish_interval_ms ≡ self.publish_interval_ms
  pub queue : state.raw_packet_queue ≡ self.raw_packet_queue
  pub running : state.is_quit ≡ self.is_quit

-- The frame behind the base time, and behind a packet.
abbrev timed : LidarPubHandler → PubHandler → List ℕ
timed h self = set self.frame.base_time self.frame.lidar_num (get_lidar_base_time h)

abbrev filled_packet : ℕ → LidarPubHandler → PointPacket
filled_packet id h = record {
  handle = id;
  lidar_type = livox_lidar_type;
  points_num = length h.points_clouds % 2 ^ 32;
  points = h.points_clouds;
}

abbrev swapped : ℕ → LidarPubHandler → PubHandler → PubHandler
swapped id h self = record self {
  lidar_process_handlers = insert id (record h { points_clouds = [] }) self.lidar_process_handlers;
  points = insert id h.points_clouds self.points;
  frame = record (self.frame) { base_time = timed h self };
}

abbrev filled_state : ℕ → LidarPubHandler → PubHandler → PubHandler
filled_state id h self = record (swapped id h self) {
  frame = record {
    base_time = timed h self;
    lidar_num = (self.frame.lidar_num + 1) % 2 ^ 8;
    lidar_point = set self.frame.lidar_point self.frame.lidar_num (filled_packet id h);
  };
}

module _ (id : ℕ) (h : LidarPubHandler) (self : PubHandler) (v : IsFrameArray self)
    (room : self.frame.lidar_num < 32) where
  times_fit : ltb self.frame.lidar_num (length self.frame.base_time) ≡ true
  times_fit = lt→ltb _ _ (omega (arith, v.times))

  packets_fit : ltb self.frame.lidar_num (length self.frame.lidar_point) ≡ true
  packets_fit = lt→ltb _ _ (omega (arith, v.packets))

  collect-empty :
      let h' : LidarPubHandler = record h { points_clouds = [] } in
      collect id h' self ≡ ok (false, swapped id h' self)
  unfolding collect get_lidar_point_clouds
  collect-empty = rw times_fit refl

  collect-filled :
      (p : PointXyzlt) (ps : List PointXyzlt)
      → let h' : LidarPubHandler = record h { points_clouds = p ∷ ps } in
        collect id h' self ≡ ok (true, filled_state id h' self)
  unfolding collect get_lidar_point_clouds
  collect-filled p ps = rw times_fit (rw packets_fit refl)

  sent-empty :
      (j : ℕ)
      → frame_points j self.frame ≡ frame_points j self.frame ++ (if id == j then [] else [])
  sent-empty j = elim (Bool-cases (id == j)) [
    | inl same ↦ rw same (sym (append_nil (frame_points j self.frame)))
    | inr other ↦ rw other (sym (append_nil (frame_points j self.frame)))
  ]

  sent-filled :
      (j : ℕ)
      → frame_points j (filled_state id h self).frame
        ≡ frame_points j self.frame ++ (if id == j then h.points_clouds else [])
  unfolding frame_points points_in
  sent-filled j =
      let next : (self.frame.lidar_num + 1) % 2 ^ 8 ≡ suc self.frame.lidar_num = omega arith in
      rw
        (
          next,
          take-set self.frame.lidar_point self.frame.lidar_num (filled_packet id h)
              (omega (arith, v.packets)),
          points_in-append j (take self.frame.lidar_num self.frame.lidar_point)
              (filled_packet id h ∷ []),
        )
        (ap (◌++◌ (points_in j (take self.frame.lidar_num self.frame.lidar_point))) last)
    where
      last : points_in j (filled_packet id h ∷ []) ≡ (if id == j then h.points_clouds else [])
      last = elim (Bool-cases (id == j)) [
        | inl same ↦ rw same (append_nil h.points_clouds)
        | inr other ↦ rw other refl
      ]

module _ (id : ℕ) (h : LidarPubHandler) (self : PubHandler) (v : IsFrameArray self)
    (room : self.frame.lidar_num < 32) where
  Collected-empty : Collected id (record h { points_clouds = [] }) self
  unfolding frame_points
  Collected-empty = record {
    filled = false;
    state = swapped id (record h { points_clouds = [] }) self;
    returns = collect-empty id h self v room;
    arrays = record {
      times = length-set self.frame.base_time self.frame.lidar_num _ ∙ v.times;
      packets = v.packets;
      fits = v.fits;
      counted = v.counted;
    };
    handlers = refl;
    counts = refl;
    sent = sent-empty id h self v room;
    callback = refl;
    interval = refl;
    queue = refl;
    running = refl;
  }

  Collected-filled :
      (p : PointXyzlt) (ps : List PointXyzlt)
      → Collected id (record h { points_clouds = p ∷ ps }) self
  Collected-filled p ps = record {
    filled = true;
    state = filled_state id (record h { points_clouds = p ∷ ps }) self;
    returns = collect-filled id h self v room p ps;
    arrays = record {
      times = length-set self.frame.base_time self.frame.lidar_num _ ∙ v.times;
      packets = length-set self.frame.lidar_point self.frame.lidar_num _ ∙ v.packets;
      fits = omega arith;
      counted =
          set-AreCounted self.frame.lidar_point self.frame.lidar_num
            (filled_packet id (record h { points_clouds = p ∷ ps })) refl v.counted;
    };
    handlers = refl;
    counts = omega arith;
    sent = sent-filled id (record h { points_clouds = p ∷ ps }) self v room;
    callback = refl;
    interval = refl;
    queue = refl;
    running = refl;
  }

  pub collect_lem : Collected id h self
  collect_lem = of h.points_clouds refl
    where
      of : (ps : List PointXyzlt) → ps ≡ h.points_clouds → Collected id h self
      of [] e = subst (λ qs. Collected id (record h { points_clouds = qs }) self) e Collected-empty
      of (p ∷ ps) e =
          subst (λ qs. Collected id (record h { points_clouds = qs }) self) e
            (Collected-filled p ps)

pub empty-frame_points : (j : ℕ) (f : PointFrame) → f.lidar_num ≡ 0 → frame_points j f ≡ []
unfolding frame_points points_in
empty-frame_points j f e = rw e refl
