-- ===== src/Publish/Carry.antt =====
-- What calls of `collect`, one or a loop of them, keep of the handler.
use livox_mid360_rko_lio_ros.Base.{
  ℕ, ◌+◌, ◌≤◌, ◌≡◌, refl, sym, ap, ◌∙◌, subst, Bool, true, false, none, some, List, [], ◌∷◌, ◌++◌,
  arith, length, Bool-cases, inl, inr, ok, ◌==◌, if◌then◌else◌, ==_refl, ==_iff,
}
use livox_mid360_rko_lio_ros.Base.Dict.{Dict, find, insert, nat_key, find-insert}
use livox_mid360_rko_lio_ros.Comm.{PointXyzlt}
use livox_mid360_rko_lio_ros.Points.{LidarPubHandler}
use livox_mid360_rko_lio_ros.Publish.{PubHandler, collect_loop}
use livox_mid360_rko_lio_ros.Publish.Keys.{Handlers, keys, Ascending, Distinct, keys-insert}
use livox_mid360_rko_lio_ros.Publish.Collect.{
  points_clouds_of, pending, frame_points, IsFrameArray, append_nil, Collected, collect_lem,
}

-- The points of a lidar that are in the frame or pending.
abbrev pub held : ℕ → PubHandler → List PointXyzlt
held id self = frame_points id self.frame ++ pending id self

pending_found :
    (id j : ℕ) (h : LidarPubHandler) (self : PubHandler)
    → find id self.lidar_process_handlers ≡ some h
    → (id == j) ≡ true
    → pending j self ≡ h.points_clouds
unfolding pending
pending_found id j h self at same =
    let e : id ≡ j = (==_iff id j).0 same in
    ap (λ k. points_clouds_of (find k self.lidar_process_handlers)) (sym e) ∙ ap points_clouds_of at

pub pending-insert :
    (id j : ℕ) (h : LidarPubHandler) (self state : PubHandler)
    → state.lidar_process_handlers ≡ insert id h self.lidar_process_handlers
    → pending j state ≡ (if id == j then h.points_clouds else pending j self)
unfolding pending
pending-insert id j h self state e =
    ap (λ m. points_clouds_of (find j m)) e
    ∙ ap points_clouds_of (find-insert j id h self.lidar_process_handlers)
    ∙ which (id == j)
  where
    which :
        (b : Bool)
        → points_clouds_of (if b then some h else find j self.lidar_process_handlers)
          ≡ (if b then h.points_clouds else points_clouds_of (find j self.lidar_process_handlers))
    which true = refl
    which false = refl

held-collect :
    (id : ℕ) (h : LidarPubHandler) (self : PubHandler) (c : Collected id h self) (j : ℕ)
    → find id self.lidar_process_handlers ≡ some h
    → held j c.state ≡ held j self
held-collect id h self c j at = elim (Bool-cases (id == j)) [
  | inl same ↦
      rw
        (
          c.sent j,
          pending-insert id j _ self c.state c.handlers,
          same,
          pending_found id j h self at same,
        )
        (append_nil (frame_points j self.frame ++ h.points_clouds))
  | inr other ↦
      rw (c.sent j, pending-insert id j _ self c.state c.handlers, other)
        (ap (λ ps. ps ++ pending j self) (append_nil (frame_points j self.frame)))
]

-- Past the entry of `k`, whose key stands there only once, the entries are found in the map where
-- that of `k` is written.
later :
    (k : ℕ) (h h' : LidarPubHandler) (d m : Dict ℕ LidarPubHandler)
    → find k d ≡ none
    → ((j : ℕ) (g : LidarPubHandler) → find j ((k, h) ∷ d) ≡ some g → find j m ≡ some g)
    → (j : ℕ) (g : LidarPubHandler) → find j d ≡ some g
    → find j (insert k h' m) ≡ some g
unfolding find
later k h h' d m fresh entries j g there = elim (Bool-cases (k == j)) [
  | inl same ↦
      let e : k ≡ j = (==_iff k j).0 same in
      let missing : find j d ≡ none = subst (λ i. find i d ≡ none) e fresh in cc
  | inr other ↦ rw (find-insert j k h' m, other) (entries j g (rw other there))
]

-- What collecting keeps of the handler.
pub record Carries (self state : PubHandler) : Type 0 where
  pub arrays : IsFrameArray state
  pub same_keys : keys state.lidar_process_handlers ≡ keys self.lidar_process_handlers
  pub keeps : (j : ℕ) → held j state ≡ held j self
  pub callback : state.points_callback ≡ self.points_callback
  pub interval : state.publish_interval_ms ≡ self.publish_interval_ms
  pub queue : state.raw_packet_queue ≡ self.raw_packet_queue
  pub running : state.is_quit ≡ self.is_quit

pub collect-Carries :
    (id : ℕ) (h : LidarPubHandler) (self : PubHandler) (c : Collected id h self)
    → Ascending (keys self.lidar_process_handlers)
    → find id self.lidar_process_handlers ≡ some h
    → Carries self c.state
collect-Carries id h self c up at = record {
  arrays = c.arrays;
  same_keys = ap keys c.handlers ∙ keys-insert id _ h self.lidar_process_handlers up at;
  keeps = λ j. held-collect id h self c j at;
  callback = c.callback;
  interval = c.interval;
  queue = c.queue;
  running = c.running;
}

Carries-trans : {a b c : PubHandler} → Carries b c → Carries a b → Carries a c
Carries-trans s r = record {
  arrays = s.arrays;
  same_keys = s.same_keys ∙ r.same_keys;
  keeps = λ j. s.keeps j ∙ r.keeps j;
  callback = s.callback ∙ r.callback;
  interval = s.interval ∙ r.interval;
  queue = s.queue ∙ r.queue;
  running = s.running ∙ r.running;
}

pub collect_loop_lem :
    (d : Handlers) (self : PubHandler)
    → IsFrameArray self
    → self.frame.lidar_num + length d ≤ 32
    → Distinct d
    → Ascending (keys self.lidar_process_handlers)
    → ((j : ℕ) (g : LidarPubHandler)
        → find j d ≡ some g
        → find j self.lidar_process_handlers ≡ some g)
    → (state : PubHandler) × (collect_loop d self ≡ ok state) × Carries self state
unfolding collect_loop Distinct find
collect_loop_lem [] self v room distinct up entries = (
  self,
  refl,
  record {
    arrays = v;
    same_keys = refl;
    keeps = λ j. refl;
    callback = refl;
    interval = refl;
    queue = refl;
    running = refl;
  },
)
collect_loop_lem ((k, h) ∷ d) self v room distinct up entries =
    let c = collect_lem k h self v (omega arith) in
    let grows : c.state.frame.lidar_num ≤ self.frame.lidar_num + 1 = ground (arith, c.counts) in
    let at : find k self.lidar_process_handlers ≡ some h = entries k h (rw (==_refl k) refl) in
    let carries = collect-Carries k h self c up at in
    let (state, returns, rest) =
      collect_loop_lem d c.state c.arrays (omega arith) distinct.1
        (subst Ascending (sym carries.same_keys) up)
        (λ j g there.
          subst (λ m. find j m ≡ some g) (sym c.handlers)
            (later k h _ d self.lidar_process_handlers distinct.0 entries j g there)) in
    (state, rw c.returns returns, Carries-trans rest carries)
