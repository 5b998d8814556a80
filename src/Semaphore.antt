-- ===== src/Semaphore.antt =====
-- comm/semaphore.h and comm/semaphore.cpp: a counting semaphore. `Wait` blocks while the count is
-- not positive, so as one step it is partial: `none` while the caller has to wait.
use livox_mid360_rko_lio_ros.Base.{
  ℕ, ◌+◌, ◌-◌, ◌≤◌, ◌≡◌, arith, Option, none, some, ltb, if◌then◌else◌,
}

-- `count_` starts at 0, and only `Wait` lowers it, on a positive count; so it is never negative.
pub record Semaphore : Type 0 where
  pub count : ℕ

unfoldable pub signal : Semaphore → Semaphore
signal s = record { count = s.count + 1 }

unfoldable pub wait : Semaphore → Option Semaphore
wait s = if ltb 0 s.count then some (record { count = s.count - 1 }) else none

-- The case in which `wait` goes on.
pub wait_lem : (s : Semaphore) → 1 ≤ s.count → wait s ≡ some (record { count = s.count - 1 })
unfolding wait
wait_lem s h = ground arith
