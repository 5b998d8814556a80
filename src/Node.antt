-- ===== src/Node.antt =====
-- driver_node.cpp and livox_ros_driver2.cpp, built for ROS 2: the node reads its parameters, builds
-- the source and the distributor, and runs a thread that polls the point clouds. The steps of that
-- thread, of the thread that stores packets, of the callbacks that turn a device to sampling and of
-- the node's destructor are a relation on what they share. The thread that polls IMU samples has the
-- same steps.
pub mod Wakeup
pub mod Exit
pub mod Freq
pub mod Start
use livox_mid360_rko_lio_ros.Base.{
  ℕ, suc, ◌+◌, ◌%◌, ◌^◌, ◌≤◌, ◌<◌, ◌≡◌, ◌≢◌, ◌⊎◌, Bool, true, false, Option, none, some, List, ◌==◌,
  if◌then◌else◌, Outcome, ok, ◌>>=◌, deref,
}
use livox_mid360_rko_lio_ros.Comm.Float.{FloatUnit}
use livox_mid360_rko_lio_ros.CacheIndex.{CacheIndex}
use livox_mid360_rko_lio_ros.Comm.{LidarConnectState, off, sampling}
use livox_mid360_rko_lio_ros.Semaphore.{Semaphore, signal, wait}
use livox_mid360_rko_lio_ros.Lds
use livox_mid360_rko_lio_ros.Publish.{PubHandler}
use livox_mid360_rko_lio_ros.Config.{Json}
use livox_mid360_rko_lio_ros.LdsLidar.{
  Sdk, LdsLidar, Started, source_raw_lidar, lds_lidar, init_lds_lidar,
}
use livox_mid360_rko_lio_ros.Lddc.{
  TransferType, point_cloud2_msg, livox_custom_msg, pcl_pxyzi_msg, unknown, Lddc,
}

-- 100.0 and 0.5
abbrev pub d_hundred : ℕ
d_hundred = 0x4059000000000000

abbrev pub d_half : ℕ
d_half = 0x3FE0000000000000

pub clamp_publish_freq : FloatUnit → ℕ → ℕ
clamp_publish_freq fu publish_freq =
    if fu.d_lt d_hundred publish_freq
    then d_hundred
    else if fu.d_lt publish_freq d_half
    then d_half
    else publish_freq

-- The parameters that are read; signed numbers are bit patterns.
pub record Parameters : Type 0 where
  pub xfer_format : ℕ
  pub data_src : ℕ
  pub publish_freq : ℕ
  pub output_data_type : ℕ
  pub frame_id : List ℕ
  pub user_config_path : List ℕ

-- The member `transfer_format_` has 8 bits.
pub transfer_type_of : ℕ → TransferType
transfer_type_of n =
    if n % 2 ^ 8 == 0
    then point_cloud2_msg
    else if n % 2 ^ 8 == 1
    then livox_custom_msg
    else if n % 2 ^ 8 == 2
    then pcl_pxyzi_msg
    else unknown

-- `new_lddc` is the constructor; kOutputToRos is 0.
pub new_lddc : Parameters → Lddc
unfolding transfer_type_of
new_lddc params = record {
  transfer_format = transfer_type_of params.xfer_format;
  output_to_ros = params.output_data_type % 2 ^ 8 == 0;
  frame_id = params.frame_id;
  lds = none;
}

-- The distributor, with the source that it points to, and what the start of the source gave.
pub record DriverNode : Type 0 where
  pub lddc : Lddc
  pub started : Option Started

-- The constructor, up to the start of the threads.
pub driver_node :
    {Value : Type 0}
    → Json Value
    → (List ℕ → ℕ)
    → (List ℕ → Option (List ℕ))
    → Sdk
    → FloatUnit
    → CacheIndex
    → PubHandler
    → Parameters
    → Outcome DriverNode
unfolding clamp_publish_freq new_lddc
driver_node json inet_addr file sdk fu cache p params =
    if params.data_src == source_raw_lidar
    then (do
      read_lidar ← lds_lidar (clamp_publish_freq fu params.publish_freq) cache
      started ← init_lds_lidar json inet_addr file sdk fu params.user_config_path read_lidar p
      ok (record {
        lddc = record (new_lddc params) { lds = some started.source.lds };
        started = some started;
      }))
    else ok (record { lddc = new_lddc params; started = none })

-- What the destructor asks of the source before it sets the signal and joins the threads.
pub request_node_exit : DriverNode → Outcome DriverNode
request_node_exit self = do
  lds ← deref self.lddc.lds
  ok (record self { lddc = record (self.lddc) { lds = some (Lds.request_exit lds) } })

-- Where `PointCloudDataPollThread` stands: at the top of `DistributePointCloudData`, in `Wait`, at a
-- device, behind it at the test of the future, or at its end.
pub data Thread : Type 0 where
  entering at_wait : Thread
  visiting : ℕ → Thread
  testing ended : Thread

-- Where `PushLidarData` stands: outside, behind its push on a device, before its reading of the
-- count, or behind a count of 0.
pub data Producer : Type 0 where
  idle : Producer
  pushed : ℕ → Producer
  counting signalling : Producer

-- `packets j` is the number of packets that device `j` has queued.
pub record System : Type 0 where
  pub semaphore : Semaphore
  pub packets : ℕ → ℕ
  pub connect_state : ℕ → LidarConnectState
  pub thread : Thread
  pub producer : Producer
  pub request_exit : Bool
  pub exit_signal : Bool

abbrev pub put {ℓ} : {A : Type ℓ} → ℕ → A → (ℕ → A) → ℕ → A
put j n packets i = if j == i then n else packets i

-- The steps of the thread that stores packets; a full queue takes none.
pub data Stores (s : System) : System → Type 0 where
  push :
      (j : ℕ)
      → s.producer ≡ idle
      → Stores s (record s { packets = put j (s.packets j + 1) s.packets; producer = pushed j })
  full : (j : ℕ) → s.producer ≡ idle → 0 < s.packets j → Stores s (record s { producer = counting })

-- The rest of `PushLidarData`, the steps of the poll thread, which passes over a device that is not
-- sampled, those of the destructor, and the callbacks' turning of a device to sampling.
pub data Proceeds (s : System) : System → Type 0 where
  finds_empty :
      (j : ℕ) → s.producer ≡ pushed j → s.packets j ≡ 0 → Proceeds s (record s { producer = idle })
  finds_some :
      (j : ℕ)
      → s.producer ≡ pushed j
      → 0 < s.packets j
      → Proceeds s (record s { producer = counting })
  counted :
      s.producer ≡ counting → 0 < s.semaphore.count → Proceeds s (record s { producer = idle })
  uncounted :
      s.producer ≡ counting
      → s.semaphore.count ≡ 0
      → Proceeds s (record s { producer = signalling })
  signals :
      s.producer ≡ signalling
      → Proceeds s (record s { semaphore = signal s.semaphore; producer = idle })
  refuses : s.thread ≡ entering → s.request_exit ≡ true → Proceeds s (record s { thread = testing })
  enters : s.thread ≡ entering → s.request_exit ≡ false → Proceeds s (record s { thread = at_wait })
  wakes :
      (semaphore : Semaphore)
      → s.thread ≡ at_wait
      → wait s.semaphore ≡ some semaphore
      → Proceeds s (record s { semaphore = semaphore; thread = visiting 0 })
  pops :
      (j n : ℕ)
      → s.thread ≡ visiting j
      → s.connect_state j ≡ sampling
      → s.packets j ≡ suc n
      → Proceeds s (record s { packets = put j n s.packets })
  leaves :
      (j : ℕ)
      → s.thread ≡ visiting j
      → j < 32
      → (s.connect_state j ≢ sampling) ⊎ ((s.request_exit ≡ true) ⊎ (s.packets j ≡ 0))
      → Proceeds s (record s { thread = visiting (suc j) })
  finishes : (j : ℕ) → s.thread ≡ visiting j → 32 ≤ j → Proceeds s (record s { thread = testing })
  repeats : s.thread ≡ testing → s.exit_signal ≡ false → Proceeds s (record s { thread = entering })
  ends : s.thread ≡ testing → s.exit_signal ≡ true → Proceeds s (record s { thread = ended })
  samples : (j : ℕ) → Proceeds s (record s { connect_state = put j sampling s.connect_state })
  requests_exit : Proceeds s (record s { request_exit = true })
  signals_exit : s.request_exit ≡ true → Proceeds s (record s { exit_signal = true })

pub data Step (s : System) : System → Type 0 where
  stores : (s' : System) → Stores s s' → Step s s'
  proceeds : (s' : System) → Proceeds s s' → Step s s'

-- Before the first packet and the first round.
abbrev pub start : System
start = record {
  semaphore = record { count = 0 };
  packets = λ j. 0;
  connect_state = λ j. off;
  thread = entering;
  producer = idle;
  request_exit = false;
  exit_signal = false;
}

-- The states that the steps lead to from a state.
pub data Reachable (s0 : System) : System → Type 0 where
  here : Reachable s0 s0
  after : (s s' : System) → Reachable s0 s → Step s s' → Reachable s0 s'
