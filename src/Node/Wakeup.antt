-- ===== src/Node/Wakeup.antt =====
-- The poll thread does not sleep while packets are queued.
use livox_mid360_rko_lio_ros.Base.{
  ℕ, suc, ◌+◌, ◌-◌, some, ◌≤◌, ◌<◌, ◌≡◌, ◌≢◌, ◌⊎◌, refl, ◌∙◌, Bool-cases, ap, subst, inl, inr, true,
  false, ◌==◌, if_false, arith, ℕ_discrete,
}
use livox_mid360_rko_lio_ros.Comm.{LidarConnectState, sampling}
use livox_mid360_rko_lio_ros.Semaphore.{Semaphore, signal, wait}
use livox_mid360_rko_lio_ros.Node.{
  Thread, entering, at_wait, visiting, testing, ended, Producer, idle, pushed, counting, signalling,
  System, put, Stores, push, full, Proceeds, finds_empty, finds_some, counted, uncounted, signals,
  refuses, enters, wakes, pops, leaves, finishes, repeats, ends, samples, requests_exit,
  signals_exit, Step, stores, proceeds, Reachable, here, after,
}

-- The round that goes on will come to device `j`.
abbrev pub Ahead : Thread → ℕ → Type 0
Ahead entering j = ⊥
Ahead at_wait j = ⊥
Ahead (visiting i) j = i ≤ j
Ahead testing j = ⊥
Ahead ended j = ⊥

-- A queued packet is ahead of the round, or the semaphore is up.
abbrev pub Noticed : System → ℕ → Type 0
Noticed s j = (0 < s.semaphore.count) ⊎ Ahead s.thread j

-- The storing of a packet will yet find device `j`, or raise the semaphore.
abbrev pub Busy : Producer → ℕ → Type 0
Busy idle j = ⊥
Busy (pushed i) j = i ≡ j
Busy counting j = Unit {0}
Busy signalling j = Unit {0}

-- Of a device that is sampled: a packet that it has is noticed, or is being stored.
pub record Inv (j : ℕ) (s : System) : Type 0 where
  pub small : j < 32
  pub live : s.connect_state j ≡ sampling
  pub heard : 0 < s.packets j → s.request_exit ≡ false → Noticed s j ⊎ Busy s.producer j

-- A thread that is elsewhere leaves the semaphore up.
elsewhere :
    (count : ℕ) (t t' : Thread) (j : ℕ)
    → t ≡ t'
    → (Ahead t' j → ⊥)
    → {B : Type 0} → ((0 < count) ⊎ Ahead t j) ⊎ B
    → (0 < count) ⊎ B
elsewhere count t t' j at none' (inl (inl up)) = inl up
elsewhere count t t' j at none' (inl (inr ahead)) = absurd (none' (subst (λ x. Ahead x j) at ahead))
elsewhere count t t' j at none' (inr busy) = inr busy

-- So does a packet storing that is elsewhere.
not_busy : {A : Type 0} (p p' : Producer) (j : ℕ) → p ≡ p' → (Busy p' j → ⊥) → A ⊎ Busy p j → A
not_busy p p' j at none' (inl a) = a
not_busy p p' j at none' (inr busy) = absurd (none' (subst (λ x. Busy x j) at busy))

onwards : {A A' B : Type 0} → (A → A') → A ⊎ B → A' ⊎ B
onwards f (inl a) = inl (f a)
onwards f (inr b) = inr b

kept : (s : System) (j n i : ℕ) → s.packets j ≡ suc n → 0 < put j n s.packets i → 0 < s.packets i
kept s j n i has some' = elim (ℕ_discrete j i) [
  | yes same ↦ omega (arith, ap s.packets same)
  | no other ↦
      let apart : (j == i) ≡ false = ground arith in
      subst (λ m. 0 < m) (if_false (j == i) n (s.packets i) apart) some'
]

Stores-Inv : (i : ℕ) (s s' : System) → Inv i s → Stores s s' → Inv i s'
Stores-Inv i s _ v (push j quiet) = record {
  small = v.small;
  live = v.live;
  heard = λ some' running. elim (ℕ_discrete j i) [
    | yes same ↦ inr same
    | no other ↦
        let apart : (j == i) ≡ false = ground arith in
        let before =
          subst (λ m. 0 < m) (if_false (j == i) (s.packets j + 1) (s.packets i) apart) some' in
        inl (not_busy s.producer idle i quiet (λ h. h) (v.heard before running))
  ];
}
Stores-Inv i s _ v (full j quiet has) = record {
  small = v.small;
  live = v.live;
  heard = λ some' running. inr tt;
}

left_behind :
    (s : System) (j i : ℕ)
    → s.thread ≡ visiting j
    → s.connect_state i ≡ sampling
    → (s.connect_state j ≢ sampling) ⊎ ((s.request_exit ≡ true) ⊎ (s.packets j ≡ 0))
    → 0 < s.packets i
    → s.request_exit ≡ false
    → Noticed s i
    → (0 < s.semaphore.count) ⊎ (suc j ≤ i)
left_behind s j i at live passed some' running (inl up) = inl up
left_behind s j i at live passed some' running (inr ahead) =
    let from : j ≤ i = subst (λ x. Ahead x i) at ahead in
    elim (ℕ_discrete j i) [
      | no other ↦ inr (omega arith)
      | yes same ↦ absurd (here_passed same passed)
    ]
  where
    here_passed :
        j ≡ i → (s.connect_state j ≢ sampling) ⊎ ((s.request_exit ≡ true) ⊎ (s.packets j ≡ 0)) → ⊥
    here_passed same (inl asleep) = asleep (ap s.connect_state same ∙ live)
    here_passed same (inr (inl exit)) = cc
    here_passed same (inr (inr empty)) = omega (arith, ap s.packets same)

-- A step that leaves the states of the devices.
heard-Inv :
    (i : ℕ) (s s' : System)
    → Inv i s
    → s'.connect_state ≡ s.connect_state
    → (0 < s'.packets i → s'.request_exit ≡ false → Noticed s' i ⊎ Busy s'.producer i)
    → Inv i s'
heard-Inv i s s' v same heard = record {
  small = v.small;
  live = ap (λ f. f i) same ∙ v.live;
  heard = heard;
}

-- A device that is sampled stays so.
still_live :
    (i j : ℕ) (states : ℕ → LidarConnectState)
    → states i ≡ sampling
    → put j sampling states i ≡ sampling
still_live i j states live = elim (Bool-cases (j == i)) [
  | inl same ↦ rw same refl
  | inr other ↦ rw other live
]

Proceeds-Inv : (i : ℕ) (s s' : System) → Inv i s → Proceeds s s' → Inv i s'
Proceeds-Inv i s _ v (finds_empty j at empty) = heard-Inv i s _ v refl (λ some' running. inl (
    not_busy s.producer (pushed j) i at (λ same. omega (arith, ap s.packets same))
      (v.heard some' running)))
Proceeds-Inv i s _ v (finds_some j at has) = heard-Inv i s _ v refl (λ some' running. inr tt)
Proceeds-Inv i s _ v (counted quiet up) = heard-Inv i s _ v refl (λ some' running. inl (inl up))
Proceeds-Inv i s _ v (uncounted quiet down) = heard-Inv i s _ v refl (λ some' running. inr tt)
Proceeds-Inv i s _ v (signals quiet) =
    heard-Inv i s _ v refl (λ some' running. inl (inl (unfold signal in omega arith)))
Proceeds-Inv i s _ v (refuses at exit) = heard-Inv i s _ v refl (λ some' running. cc)
Proceeds-Inv i s _ v (enters at stay) = heard-Inv i s _ v refl (λ some' running.
    onwards inl
      (elsewhere s.semaphore.count s.thread entering i at (λ h. h) (v.heard some' running)))
Proceeds-Inv i s _ v (wakes semaphore at waited) =
    heard-Inv i s _ v refl (λ some' running. inl (inr (omega arith)))
Proceeds-Inv i s _ v (pops j n at live has) =
    heard-Inv i s _ v refl (λ some' running. v.heard (kept s j n i has some') running)
Proceeds-Inv i s _ v (leaves j at inside passed) = heard-Inv i s _ v refl (λ some' running.
    onwards (left_behind s j i at v.live passed some' running) (v.heard some' running))
Proceeds-Inv i s _ v (finishes j at all) = heard-Inv i s _ v refl (λ some' running. onwards inl (
    elsewhere s.semaphore.count s.thread (visiting j) i at (λ h. omega (arith, v.small))
      (v.heard some' running)))
Proceeds-Inv i s _ v (repeats at stay) = heard-Inv i s _ v refl (λ some' running.
    onwards inl
      (elsewhere s.semaphore.count s.thread testing i at (λ h. h) (v.heard some' running)))
Proceeds-Inv i s _ v (ends at exit) = heard-Inv i s _ v refl (λ some' running.
    onwards inl
      (elsewhere s.semaphore.count s.thread testing i at (λ h. h) (v.heard some' running)))
Proceeds-Inv i s _ v (samples j) = record {
  small = v.small;
  live = still_live i j s.connect_state v.live;
  heard = v.heard;
}
Proceeds-Inv i s _ v requests_exit = heard-Inv i s _ v refl (λ some' running. cc)
Proceeds-Inv i s _ v (signals_exit exit) = heard-Inv i s _ v refl v.heard

-- From a state in which the device is sampled and has nothing queued.
Reachable-Inv :
    (i : ℕ) (s0 s : System)
    → i < 32
    → s0.connect_state i ≡ sampling
    → s0.packets i ≡ 0
    → Reachable s0 s
    → Inv i s
Reachable-Inv i s0 _ small live empty here = record {
  small = small;
  live = live;
  heard = λ some' running. absurd (omega arith);
}
Reachable-Inv i s0 _ small live empty (after s s' r (stores _ m)) =
    Stores-Inv i s s' (Reachable-Inv i s0 s small live empty r) m
Reachable-Inv i s0 _ small live empty (after s s' r (proceeds _ m)) =
    Proceeds-Inv i s s' (Reachable-Inv i s0 s small live empty r) m

-- From any state in which a device is sampled and has nothing queued, and in each state that the
-- poll thread, the thread that stores packets, the callbacks that turn devices to sampling and the
-- destructor lead to: if the poll thread is in Wait, no packet is being stored and no exit is
-- requested while the device has a packet queued, the semaphore lets the poll thread go on to the
-- devices.
pub Reachable-woken :
    (s0 s : System) (j : ℕ)
    → j < 32
    → s0.connect_state j ≡ sampling
    → s0.packets j ≡ 0
    → Reachable s0 s
    → s.thread ≡ at_wait
    → s.producer ≡ idle
    → s.request_exit ≡ false
    → 0 < s.packets j
    → (semaphore : Semaphore) × (wait s.semaphore ≡ some semaphore)
      × Step s (record s { semaphore = semaphore; thread = visiting 0 })
unfolding wait
Reachable-woken s0 s j small live empty r at idle' running has =
    let v = Reachable-Inv j s0 s small live empty r in
    let noticed = not_busy s.producer idle j idle' (λ h. h) (v.heard has running) in
    let up : 0 < s.semaphore.count = elim noticed [
      | inl positive ↦ positive
      | inr ahead ↦ absurd (subst (λ t. Ahead t j) at ahead)
    ] in
    let waited : wait s.semaphore ≡ some (record { count = s.semaphore.count - 1 }) =
      ground arith in
    (record { count = s.semaphore.count - 1 }, waited, proceeds _ (wakes _ at waited))
