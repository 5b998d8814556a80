-- ===== src/Lds/Keeps.antt =====
-- What `StoragePointData` leaves as it is in the source, and when it raises the semaphore.
use livox_mid360_rko_lio_ros.Base.{
  ℕ, ◌≤◌, ◌≡◌, refl, sym, ap, ◌∙◌, ◌⊎◌, inl, inr, some, List, [], ◌∷◌, arith, subst, set, get_elem?,
  get_elem?-set_self, get_elem?-set_ne, lt_of_get_elem?, ℕ_discrete,
}
use livox_mid360_rko_lio_ros.Comm.{PointPacket}
use livox_mid360_rko_lio_ros.Ldq.{LidarDataQueue}
use livox_mid360_rko_lio_ros.CacheIndex.{CacheIndex, get_index}
use livox_mid360_rko_lio_ros.Semaphore.{Semaphore, signal}
use livox_mid360_rko_lio_ros.Lds.{LidarDevice, Lds, signal_if_zero}

-- The devices are the same but for their queues.
abbrev pub SameButQueues : List LidarDevice → List LidarDevice → Type 0
SameButQueues ds ds' =
    (j : ℕ) (d : LidarDevice)
    → get_elem? ds j ≡ some d
    → (queue : LidarDataQueue) × (get_elem? ds' j ≡ some (record d { points = queue }))

pub SameButQueues-refl : (ds : List LidarDevice) → SameButQueues ds ds
SameButQueues-refl ds j d at = (d.points, at)

pub SameButQueues-set :
    (ds : List LidarDevice) (i : ℕ) (d : LidarDevice) (queue : LidarDataQueue)
    → get_elem? ds i ≡ some d
    → SameButQueues ds (set ds i (record d { points = queue }))
SameButQueues-set ds i d queue here j d' at = elim (ℕ_discrete i j) [
  | yes equal ↦
      let found : some d ≡ some d' = sym here ∙ ap (get_elem? ds) equal ∙ at in
      let known : d ≡ d' = cc in
      (
        queue,
        ap (get_elem? (set ds i (record d { points = queue }))) (sym equal)
            ∙ get_elem?-set_self ds i (record d { points = queue }) (lt_of_get_elem? ds i here)
            ∙ ap (λ (e : LidarDevice). some (record e { points = queue })) known,
      )
  | no other ↦ (d'.points, get_elem?-set_ne ds i j (record d { points = queue }) other ∙ at)
]

-- What storing leaves as it is: it only raises the semaphore.
pub record Keeps (s s' : Lds) : Type 0 where
  pub cache : s'.cache ≡ s.cache
  pub count : s'.lidar_count ≡ s.lidar_count
  pub exit : s'.request_exit ≡ s.request_exit
  pub raised : s.pcd_semaphore.count ≤ s'.pcd_semaphore.count
  pub lidars : SameButQueues s.lidars s'.lidars

pub Keeps-trans : (s s1 s2 : Lds) → Keeps s s1 → Keeps s1 s2 → Keeps s s2
Keeps-trans s s1 s2 a b = record {
  cache = b.cache ∙ a.cache;
  count = b.count ∙ a.count;
  exit = b.exit ∙ a.exit;
  raised = omega (arith, a.raised, b.raised);
  lidars = λ j d at.
      let (queue1, at1) = a.lidars j d at in
      let (queue2, at2) = b.lidars j (record d { points = queue1 }) at1 in (queue2, at2);
}

pub Keeps-refl : (s : Lds) → Keeps s s
Keeps-refl s = record {
  cache = refl;
  count = refl;
  exit = refl;
  raised = omega arith;
  lidars = SameButQueues-refl s.lidars;
}

pub signalled :
    (sem : Semaphore) → (sem.count ≤ (signal_if_zero sem).count) × (1 ≤ (signal_if_zero sem).count)
unfolding signal
signalled sem = ground arith

-- One of the packets is of a lidar that has an index.
abbrev pub AnyKnown : CacheIndex → List (PointPacket × ℕ) → Type 0
AnyKnown cache [] = ⊥
AnyKnown cache ((p, t) ∷ ps) =
    ((i : ℕ) × (get_index p.lidar_type p.handle cache ≡ some i)) ⊎ AnyKnown cache ps

pub woken :
    (s s1 s2 : Lds) (p : PointPacket) (t : ℕ) (ps : List (PointPacket × ℕ))
    → Keeps s s1
    → Keeps s1 s2
    → ((i : ℕ) → get_index p.lidar_type p.handle s.cache ≡ some i → 1 ≤ s1.pcd_semaphore.count)
    → (AnyKnown s1.cache ps → 1 ≤ s2.pcd_semaphore.count)
    → AnyKnown s.cache ((p, t) ∷ ps)
    → 1 ≤ s2.pcd_semaphore.count
woken s s1 s2 p t ps a b first others (inl (i, known)) = omega (arith, first i known, b.raised)
woken s s1 s2 p t ps a b first others (inr known) =
    others (subst (λ cache. AnyKnown cache ps) (sym a.cache) known)
