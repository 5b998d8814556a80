-- ===== src/Node/Exit.antt =====
-- What becomes of a waiting poll thread when the node is destroyed.
use livox_mid360_rko_lio_ros.Base.{◌≡◌, ◌≢◌, sym, ◌∙◌, none, arith}
use livox_mid360_rko_lio_ros.Semaphore.{wait}
use livox_mid360_rko_lio_ros.Node.{
  entering, at_wait, visiting, testing, ended, idle, pushed, counting, signalling, System, Proceeds,
  counted, uncounted, signals, refuses, enters, wakes, pops, leaves, finishes, repeats, ends,
  samples, requests_exit, signals_exit, finds_empty, finds_some,
}

-- Steps without the arrival of a packet.
pub data Runs (s : System) : System → Type 0 where
  stays : Runs s s
  then_step : (s' s'' : System) → Runs s s' → Proceeds s' s'' → Runs s s''

pub record IsStuck (s : System) : Type 0 where
  pub thread : s.thread ≡ at_wait
  pub producer : s.producer ≡ idle
  pub count : s.semaphore.count ≡ 0

Proceeds-IsStuck : (s s' : System) → IsStuck s → Proceeds s s' → IsStuck s'
unfolding wait
Proceeds-IsStuck s _ v (finds_empty j p empty) = let e : idle ≡ pushed j = sym v.producer ∙ p in cc
Proceeds-IsStuck s _ v (finds_some j p has) = let e : idle ≡ pushed j = sym v.producer ∙ p in cc
Proceeds-IsStuck s _ v (counted p up) = let e : idle ≡ counting = sym v.producer ∙ p in cc
Proceeds-IsStuck s _ v (uncounted p down) = let e : idle ≡ counting = sym v.producer ∙ p in cc
Proceeds-IsStuck s _ v (signals p) = let e : idle ≡ signalling = sym v.producer ∙ p in cc
Proceeds-IsStuck s _ v (refuses at exit) = let e : at_wait ≡ entering = sym v.thread ∙ at in cc
Proceeds-IsStuck s _ v (enters at stay) = let e : at_wait ≡ entering = sym v.thread ∙ at in cc
Proceeds-IsStuck s _ v (wakes semaphore at waited) =
    let blocked : wait s.semaphore ≡ none = ground (arith, v.count) in cc
Proceeds-IsStuck s _ v (pops j n at live has) =
    let e : at_wait ≡ visiting j = sym v.thread ∙ at in cc
Proceeds-IsStuck s _ v (leaves j at inside empty) =
    let e : at_wait ≡ visiting j = sym v.thread ∙ at in cc
Proceeds-IsStuck s _ v (finishes j at all) = let e : at_wait ≡ visiting j = sym v.thread ∙ at in cc
Proceeds-IsStuck s _ v (repeats at stay) = let e : at_wait ≡ testing = sym v.thread ∙ at in cc
Proceeds-IsStuck s _ v (ends at exit) = let e : at_wait ≡ testing = sym v.thread ∙ at in cc
Proceeds-IsStuck s _ v (samples j) = record {
  thread = v.thread;
  producer = v.producer;
  count = v.count;
}
Proceeds-IsStuck s _ v requests_exit = record {
  thread = v.thread;
  producer = v.producer;
  count = v.count;
}
Proceeds-IsStuck s _ v (signals_exit exit) = record {
  thread = v.thread;
  producer = v.producer;
  count = v.count;
}

Runs-IsStuck : (s s' : System) → IsStuck s → Runs s s' → IsStuck s'
Runs-IsStuck s _ v stays = v
Runs-IsStuck s _ v (then_step s' s'' r m) = Proceeds-IsStuck s' s'' (Runs-IsStuck s s' v r) m

-- If the poll thread is in Wait with the semaphore down and no packet is being stored, then, as
-- long as no packet arrives, it stays in Wait and does not end, whatever exit is requested and
-- signalled.
pub Runs-ne-ended :
    (s s' : System)
    → s.thread ≡ at_wait
    → s.producer ≡ idle
    → s.semaphore.count ≡ 0
    → Runs s s'
    → (s'.thread ≡ at_wait) × (s'.thread ≢ ended)
Runs-ne-ended s s' at quiet down r =
    let v = Runs-IsStuck s s' (record { thread = at; producer = quiet; count = down }) r in
    (v.thread, λ e. let x : at_wait ≡ ended = sym v.thread ∙ e in cc)
