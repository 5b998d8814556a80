-- ===== src/Tests/Node.antt =====
-- A poll thread that waits, with a packet and without; and a frequency of 200.
use livox_mid360_rko_lio_ros.Base.{
  ℕ, ◌^◌, ◌≤◌, ◌≡◌, ◌≢◌, refl, true, some, [], ltb, if◌then◌else◌, arith, ok,
}
use livox_mid360_rko_lio_ros.Comm.{sampling}
use livox_mid360_rko_lio_ros.Comm.Float.{FloatUnit}
use livox_mid360_rko_lio_ros.Semaphore.{Semaphore, signal, wait}
use livox_mid360_rko_lio_ros.Ldq.{LidarDataQueue}
use livox_mid360_rko_lio_ros.Ldq.Fifo.{Holds}
use livox_mid360_rko_lio_ros.Lds.{ensure_queue}
use livox_mid360_rko_lio_ros.Node.{
  at_wait, visiting, ended, idle, pushed, counting, signalling, System, put, push, finds_some,
  uncounted, signals, enters, requests_exit, signals_exit, Step, stores, proceeds, start, Reachable,
  here, after, d_hundred, clamp_publish_freq,
}
use livox_mid360_rko_lio_ros.Node.Wakeup.{Reachable-woken}
use livox_mid360_rko_lio_ros.Node.Exit.{Runs, stays, then_step, Runs-ne-ended}
use livox_mid360_rko_lio_ros.Node.Freq.{IsOrdered, clamp-ensure_queue}
use livox_mid360_rko_lio_ros.Tests.{number_unit, device}

-- The thread waits, and a packet comes for device 0.
abbrev waiting : System
waiting = record start { thread = at_wait; connect_state = put 0 sampling start.connect_state }

abbrev stored : System
stored = record waiting { packets = put 0 1 start.packets; producer = pushed 0 }

abbrev seen : System
seen = record stored { producer = counting }

abbrev low : System
low = record seen { producer = signalling }

abbrev woken : System
woken = record low { semaphore = signal start.semaphore; producer = idle }

abbrev sampled : System
sampled = record start { connect_state = put 0 sampling start.connect_state }

woken-Reachable : Reachable sampled woken
unfolding signal
woken-Reachable =
    after low woken
      (after seen low
        (after stored seen
          (after waiting stored (after sampled waiting here (proceeds waiting (enters refl refl)))
            (stores stored (push 0 refl)))
          (proceeds seen (finds_some 0 refl (omega arith))))
        (proceeds low (uncounted refl refl)))
      (proceeds woken (signals refl))

Reachable-woken_example :
    (semaphore : Semaphore) × (wait woken.semaphore ≡ some semaphore)
    × Step woken (record woken { semaphore = semaphore; thread = visiting 0 })
Reachable-woken_example =
    Reachable-woken sampled woken 0 (omega arith) refl refl woken-Reachable refl refl refl
      (omega arith)

-- The node is destroyed while the thread waits for a packet that does not come.
abbrev asked : System
asked = record waiting { request_exit = true }

abbrev told : System
told = record asked { exit_signal = true }

told-Runs : Runs waiting told
told-Runs = then_step asked told (then_step waiting asked stays requests_exit) (signals_exit refl)

Runs-ne-ended_example : (told.thread ≡ at_wait) × (told.thread ≢ ended)
Runs-ne-ended_example = Runs-ne-ended waiting told refl refl refl told-Runs

-- The order of positive doubles is that of their bits.
abbrev pub ordered_unit : FloatUnit
ordered_unit = record number_unit {
  d_lt = ltb;
  d_to_u32 = λ x. if ltb x d_hundred then 10 else 100;
}

pub ordered_unit-IsOrdered : IsOrdered ordered_unit
ordered_unit-IsOrdered = record {
  irreflexive = refl;
  half_below = refl;
  truncates = λ x above within. ground arith;
}

-- 200.0
clamp-ensure_queue_example :
    (k : ℕ) × (queue' : LidarDataQueue) × (ensure_queue ordered_unit device.points
        (clamp_publish_freq ordered_unit 0x4069000000000000)
      ≡ ok queue')
    × Holds k queue' []
    × (10 ≤ 2 ^ k)
    × (k ≤ 7)
clamp-ensure_queue_example =
    clamp-ensure_queue ordered_unit ordered_unit-IsOrdered 0x4069000000000000 device.points refl
