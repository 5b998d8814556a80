-- ===== src/Publish/Conserve.antt =====
-- `CheckTimer` moves points from the handlers to the published frames and loses none.
use livox_mid360_rko_lio_ros.Base.{
  ℕ, ◌+◌, ◌/◌, ◌%◌, ◌≤◌, ◌≡◌, ◌≢◌, refl, sym, ap, ◌∙◌, subst, Bool, true, false, some, List, [],
  ◌∷◌, ◌++◌, arith, length, Outcome, ok, ◌>>=◌, ◌==◌, if◌then◌else◌, ltb,
}
use livox_mid360_rko_lio_ros.Base.Dict.{find, nat_key}
use livox_mid360_rko_lio_ros.Comm.{ratio_of_ms_to_ns, PointFrame}
use livox_mid360_rko_lio_ros.Lds.Frame.{IsFrame}
use livox_mid360_rko_lio_ros.Points.{LidarPubHandler, get_recent_time_stamp}
use livox_mid360_rko_lio_ros.Points.Bytes.{checked_mod}
use livox_mid360_rko_lio_ros.Publish.{
  PubHandler, collect_loop, clear_frame, publish_point_cloud, check_timer_sync, check_timer_clock,
  check_timer,
}
use livox_mid360_rko_lio_ros.Publish.Keys.{keys, Ascending, Ascending-Distinct, length-keys}
use livox_mid360_rko_lio_ros.Publish.Collect.{
  pending, frame_points, published, AreCounted, IsFrameArray, append_nil, collect_lem,
  empty-frame_points,
}
use livox_mid360_rko_lio_ros.Publish.Carry.{Carries, collect-Carries, collect_loop_lem}

checked_mod_lem : (a b : ℕ) → b ≢ 0 → checked_mod a b ≡ ok (a % b)
unfolding checked_mod
checked_mod_lem a b h = let e : (b == 0) ≡ false = ground arith in rw e refl

-- How the handler is between two packets: an empty frame, the handlers in key order and at most 32
-- of them, a callback, and an interval of at least a millisecond.
pub record IsReady (self : PubHandler) : Type 0 where
  pub arrays : IsFrameArray self
  pub empty_frame : self.frame.lidar_num ≡ 0
  pub ascending : Ascending (keys self.lidar_process_handlers)
  pub few : length (keys self.lidar_process_handlers) ≤ 32
  pub callback : self.points_callback ≡ true
  pub interval : self.publish_interval_ms ≢ 0

-- Frames that can be stored, and whose packets say how many points they have.
abbrev pub AreFrames : List PointFrame → Type 0
AreFrames [] = Unit {0}
AreFrames (f ∷ fs) = (IsFrame f × AreCounted f.lidar_point) × AreFrames fs

full-IsFrame : {self : PubHandler} → IsFrameArray self → IsFrame self.frame
full-IsFrame v = record {
  enough_points = omega (arith, v.fits, v.packets);
  enough_times = omega (arith, v.fits, v.times);
  whole = λ i p at. omega (arith, v.counted i p at);
}

-- What publishing leaves: no point is lost or repeated.
pub record IsConserved (self self' : PubHandler) (frames : List PointFrame) : Type 0 where
  pub ready : IsReady self'
  pub queue : self'.raw_packet_queue ≡ self.raw_packet_queue
  pub running : self'.is_quit ≡ self.is_quit
  pub same_keys : keys self'.lidar_process_handlers ≡ keys self.lidar_process_handlers
  pub storable : AreFrames frames
  pub conserves : (j : ℕ) → published j frames ++ pending j self' ≡ pending j self

abbrev Conserved : PubHandler → Outcome (PubHandler × List PointFrame) → Type 0
Conserved self result =
    (self' : PubHandler) × (frames : List PointFrame) × (result ≡ ok (self', frames))
    × IsConserved self self' frames

-- A state that carries a ready one is ready once its frame is cleared.
clear_frame-IsReady :
    {self full : PubHandler} → IsReady self → Carries self full → IsReady (clear_frame full)
clear_frame-IsReady v c = record {
  arrays = record {
    times = c.arrays.times;
    packets = c.arrays.packets;
    fits = omega arith;
    counted = c.arrays.counted;
  };
  empty_frame = refl;
  ascending = subst Ascending (sym c.same_keys) v.ascending;
  few = omega (arith, v.few, ap length c.same_keys);
  callback = c.callback ∙ v.callback;
  interval = λ e. v.interval (sym c.interval ∙ e);
}

branch :
    (self : PubHandler) (b : Bool) {x y : Outcome (PubHandler × List PointFrame)}
    → Conserved self x
    → Conserved self y
    → Conserved self (if b then x else y)
branch self true x y = x
branch self false x y = y

-- One frame is published, and what was held before was pending.
publish_conserves :
    (self full : PubHandler)
    → IsReady self
    → Carries self full
    → Conserved self (ok (clear_frame full, publish_point_cloud full))
unfolding published pending publish_point_cloud
publish_conserves self full v c = (
  clear_frame full,
  publish_point_cloud full,
  refl,
  record {
    ready = clear_frame-IsReady v c;
    queue = c.queue;
    running = c.running;
    same_keys = c.same_keys;
    storable = rw (c.callback ∙ v.callback) ((full-IsFrame c.arrays, c.arrays.counted), tt);
    conserves = λ j. rw (c.callback ∙ v.callback) (
        ap (λ ps. ps ++ pending j full) (append_nil (frame_points j full.frame))
        ∙ c.keeps j
        ∙ ap (λ ps. ps ++ pending j self) (empty-frame_points j self.frame v.empty_frame));
  },
)

-- No frame is published, and none is begun.
skip_conserves :
    (self self' : PubHandler)
    → IsReady self
    → Carries self self'
    → self'.frame.lidar_num ≡ 0
    → Conserved self (ok (self', []))
unfolding published
skip_conserves self self' v c empty' = (
  self',
  [],
  refl,
  record {
    ready =
        let ready = clear_frame-IsReady v c in
        record {
          arrays = c.arrays;
          empty_frame = empty';
          ascending = ready.ascending;
          few = ready.few;
          callback = ready.callback;
          interval = ready.interval;
        };
    queue = c.queue;
    running = c.running;
    same_keys = c.same_keys;
    storable = tt;
    conserves = λ j.
        ap (λ ps. ps ++ pending j self') (sym (empty-frame_points j self'.frame empty'))
        ∙ c.keeps j
        ∙ ap (λ ps. ps ++ pending j self) (empty-frame_points j self.frame v.empty_frame);
  },
)

self-Carries : (self : PubHandler) → IsReady self → Carries self self
self-Carries self v = record {
  arrays = v.arrays;
  same_keys = refl;
  keeps = λ j. refl;
  callback = refl;
  interval = refl;
  queue = refl;
  running = refl;
}

-- The fields of the clock do not matter.
clock-Carries :
    (self state : PubHandler) (t : ℕ) (b : Bool)
    → Carries (record self { last_pub_time = t; first = b }) state
    → Carries self state
unfolding pending
clock-Carries self state t b c = record {
  arrays = c.arrays;
  same_keys = c.same_keys;
  keeps = c.keeps;
  callback = c.callback;
  interval = c.interval;
  queue = c.queue;
  running = c.running;
}

clock_conserves :
    (now : ℕ) (self : PubHandler) → IsReady self → Conserved self (check_timer_clock now self)
unfolding check_timer_clock
clock_conserves now self v =
    let due = record self { last_pub_time = self.last_pub_time + self.publish_interval } in
    let begun = record self { last_pub_time = now; first = false } in
    let arrays : IsFrameArray due = record {
      times = v.arrays.times;
      packets = v.arrays.packets;
      fits = v.arrays.fits;
      counted = v.arrays.counted;
    } in
    let (state, returns, carries) =
      collect_loop_lem self.lidar_process_handlers due arrays
        (omega (arith, v.few, v.empty_frame, length-keys self.lidar_process_handlers))
        (Ascending-Distinct self.lidar_process_handlers v.ascending) v.ascending
        (λ j g there. there) in
    let step : (do
      full ← collect_loop self.lidar_process_handlers due
      ok (clear_frame full, publish_point_cloud full))
        ≡ ok (clear_frame state, publish_point_cloud state) =
      rw returns refl in
    let begun-Carries : Carries begun begun = record {
      arrays = record {
        times = v.arrays.times;
        packets = v.arrays.packets;
        fits = v.arrays.fits;
        counted = v.arrays.counted;
      };
      same_keys = refl;
      keeps = λ j. refl;
      callback = refl;
      interval = refl;
      queue = refl;
      running = refl;
    } in
    branch self self.first
      (skip_conserves self begun v (clock-Carries self begun now false begun-Carries) v.empty_frame)
      (branch self (ltb now (self.last_pub_time + self.publish_interval))
        (skip_conserves self self v (self-Carries self v) v.empty_frame)
        (subst (Conserved self) (sym step) (
          publish_conserves self state v (
            clock-Carries self state (self.last_pub_time + self.publish_interval) self.first
              carries))))

-- How the synchronised branch ends.
abbrev after_collect : Bool × PubHandler → Outcome (PubHandler × List PointFrame)
after_collect (filled, full) =
    if filled
    then ok (clear_frame full, if full.frame.lidar_num == 0 then [] else publish_point_cloud full)
    else ok (full, [])

sync_conserves :
    (id : ℕ) (h : LidarPubHandler) (self : PubHandler)
    → IsReady self
    → find id self.lidar_process_handlers ≡ some h
    → Conserved self (check_timer_sync id self)
unfolding check_timer_sync
sync_conserves id h self v at =
    let c = collect_lem id h self v.arrays (omega (arith, v.empty_frame)) in
    let divides =
      checked_mod_lem (get_recent_time_stamp h / ratio_of_ms_to_ns) self.publish_interval_ms
        v.interval in
    rw (at, divides)
      (branch self _ (skip_conserves self self v (self-Carries self v) v.empty_frame) (
        subst (λ r. Conserved self (r >>= after_collect)) (sym c.returns)
          (ends c.filled c.state c.counts (collect-Carries id h self c v.ascending at))))
  where
    ends :
        (filled : Bool) (full : PubHandler)
        → full.frame.lidar_num ≡ (if filled then self.frame.lidar_num + 1 else self.frame.lidar_num)
        → Carries self full
        → Conserved self (after_collect (filled, full))
    ends true full counts carries =
        let some_packet : (full.frame.lidar_num == 0) ≡ false = ground (arith, v.empty_frame) in
        subst
          (λ b. Conserved self (ok (clear_frame full, if b then [] else publish_point_cloud full)))
          (sym some_packet) (publish_conserves self full v carries)
    ends false full counts carries = skip_conserves self full v carries (counts ∙ v.empty_frame)

-- CheckTimer, of a ready handler and for a lidar that has its own, does not fail and conserves the
-- points.
pub check_timer_lem :
    (now id : ℕ) (h : LidarPubHandler) (self : PubHandler)
    → IsReady self
    → find id self.lidar_process_handlers ≡ some h
    → (self' : PubHandler) × (frames : List PointFrame) × (check_timer now id self
        ≡ ok (self', frames))
      × IsConserved self self' frames
unfolding check_timer
check_timer_lem now id h self v at =
    branch self self.is_timestamp_sync (sync_conserves id h self v at) (clock_conserves now self v)
