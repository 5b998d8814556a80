-- ===== src/Lddc/Publishers.antt =====
-- lddc.cpp, built for ROS 2: the publishers, which are created when they are first asked for. What
-- `create_publisher` of the node gives is its arguments. `inet_ntoa` is the system's.
pub mod Slots
pub mod Topics
pub mod ImuTopics
use livox_mid360_rko_lio_ros.Base.{
  ℕ, ◌+◌, ◌*◌, ◌<◌, ◌≡◌, refl, sym, ap, ◌∙◌, inl, inr, Bool, true, false, Option, none, some, List,
  [], ◌∷◌, ◌++◌, map, if◌then◌else◌, arith, length, take, set, get_elem?, length-set,
  get_elem?-set_self, get_elem?-set_ne, get_elem?_lt, ℕ_discrete, Outcome, ok, ◌>>=◌, deref,
}
use livox_mid360_rko_lio_ros.Comm.{replace_period_by_underline}
use livox_mid360_rko_lio_ros.Comm.Underline.{underline, replace_period_by_underline-eq}
use livox_mid360_rko_lio_ros.Lds.{LidarDevice}
use livox_mid360_rko_lio_ros.Lddc.{
  TransferType, point_cloud2_msg, livox_custom_msg, pcl_pxyzi_msg, unknown,
}
use livox_mid360_rko_lio_ros.Lddc.Drain.{Publishes}

-- kMinEthPacketQueueSize
abbrev pub min_eth_packet_queue_size : ℕ
min_eth_packet_queue_size = 32

-- A transfer format, or kLivoxImuMsg.
pub data MsgType : Type 0 where
  of_format : TransferType → MsgType
  livox_imu_msg : MsgType

pub data PublisherKind : Type 0 where
  point_cloud2 custom_msg imu_msg : PublisherKind

pub record Publisher : Type 0 where
  pub kind : PublisherKind
  pub topic_name : List ℕ
  pub queue_size : ℕ

-- `none` is a null pointer. The two arrays have kMaxSourceLidar elements.
pub record Publishers : Type 0 where
  pub transfer_format : TransferType
  pub use_multi_topic : Bool
  pub private_pub : List (Option Publisher)
  pub global_pub : Option Publisher
  pub private_imu_pub : List (Option Publisher)
  pub global_imu_pub : Option Publisher

abbrev pub publisher : PublisherKind → List ℕ → ℕ → Publisher
publisher kind topic_name queue_size = record {
  kind = kind;
  topic_name = topic_name;
  queue_size = queue_size;
}

pub create_publisher : MsgType → List ℕ → ℕ → Option Publisher
create_publisher (of_format point_cloud2_msg) name size = some (publisher point_cloud2 name size)
create_publisher (of_format livox_custom_msg) name size = some (publisher custom_msg name size)
create_publisher (of_format pcl_pxyzi_msg) name size = none
create_publisher (of_format unknown) name size = none
create_publisher livox_imu_msg name size = some (publisher imu_msg name size)

-- "livox/lidar" and "livox/imu", which "_" and the address may follow.
abbrev pub lidar_topic : List ℕ
lidar_topic = b'l' ∷ b'i' ∷ b'v' ∷ b'o' ∷ b'x' ∷ b'/' ∷ b'l' ∷ b'i' ∷ b'd' ∷ b'a' ∷ b'r' ∷ []

abbrev pub imu_topic : List ℕ
imu_topic = b'l' ∷ b'i' ∷ b'v' ∷ b'o' ∷ b'x' ∷ b'/' ∷ b'i' ∷ b'm' ∷ b'u' ∷ []

module _ (inet_ntoa : ℕ → List ℕ) where
  -- `snprintf` into 48 bytes, of which the last one is 0.
  pub name_of : List ℕ → ℕ → List ℕ
  name_of topic handle = take 47 (topic ++ b'_' ∷ replace_period_by_underline (inet_ntoa handle))

  -- The branch for several topics, and the one for a single topic.
  pub current_private :
      MsgType
      → List ℕ
      → List LidarDevice
      → ℕ
      → List (Option Publisher)
      → Outcome (Option Publisher × List (Option Publisher))
  unfolding name_of create_publisher
  current_private msg_type topic lidars handle slots = do
    slot ← deref (get_elem? slots handle)
    elim slot [
      | some p ↦ ok (some p, slots)
      | none ↦ do
        lidar ← deref (get_elem? lidars handle)
        let made =
            create_publisher msg_type (name_of topic lidar.handle) (min_eth_packet_queue_size * 2)
        ok (made, set slots handle made)
    ]

  pub current_global : MsgType → List ℕ → Option Publisher → Option Publisher
  unfolding create_publisher
  current_global msg_type topic (some p) = some p
  current_global msg_type topic none =
      create_publisher msg_type topic (min_eth_packet_queue_size * 8)

  pub get_current_publisher :
      List LidarDevice → ℕ → Publishers → Outcome (Option Publisher × Publishers)
  get_current_publisher lidars handle self =
      if self.use_multi_topic
      then (do
        (p, slots) ←
            current_private (of_format self.transfer_format) lidar_topic lidars handle
              self.private_pub
        ok (p, record self { private_pub = slots }))
      else (let p = current_global (of_format self.transfer_format) lidar_topic self.global_pub in
          ok (p, record self { global_pub = p }))

  pub get_current_imu_publisher :
      List LidarDevice → ℕ → Publishers → Outcome (Option Publisher × Publishers)
  get_current_imu_publisher lidars handle self =
      if self.use_multi_topic
      then (do
        (p, slots) ← current_private livox_imu_msg imu_topic lidars handle self.private_imu_pub
        ok (p, record self { private_imu_pub = slots }))
      else (let p = current_global livox_imu_msg imu_topic self.global_imu_pub in
          ok (p, record self { global_imu_pub = p }))
