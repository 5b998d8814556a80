-- ===== src/Ros1/Topics.antt =====
-- lddc.cpp for ROS 1: the publishers, which are created when they are first asked for.
use livox_mid360_rko_lio_ros.Base.{
  ℕ, ◌*◌, ◌/◌, Option, none, some, List, [], if◌then◌else◌, set, get_elem?, Outcome, ok, ◌>>=◌,
  deref,
}
use livox_mid360_rko_lio_ros.Lds.{LidarDevice}
use livox_mid360_rko_lio_ros.Lddc.{
  TransferType, point_cloud2_msg, livox_custom_msg, pcl_pxyzi_msg, unknown,
}
use livox_mid360_rko_lio_ros.Lddc.Publishers.{
  min_eth_packet_queue_size, lidar_topic, imu_topic, name_of,
}
use livox_mid360_rko_lio_ros.Ros1.State.{
  nothing, point_cloud2, custom_msg, point_cloud, imu_msg, Topic, Ros1Lddc,
}

-- `new ros::Publisher`, and `advertise` by the transfer format.
unfoldable pub advertise : TransferType → List ℕ → ℕ → Topic
advertise point_cloud2_msg name size = record {
  advertised = point_cloud2;
  name = name;
  queue_size = size;
}
advertise livox_custom_msg name size = record {
  advertised = custom_msg;
  name = name;
  queue_size = size;
}
advertise pcl_pxyzi_msg name size = record {
  advertised = point_cloud;
  name = name;
  queue_size = size;
}
advertise unknown name size = record { advertised = nothing; name = []; queue_size = 0 }

abbrev pub advertise_imu : List ℕ → ℕ → Topic
advertise_imu name size = record { advertised = imu_msg; name = name; queue_size = size }

abbrev pub or_new : Option Topic → Topic → Topic
or_new none made = made
or_new (some p) made = p

module _ (inet_ntoa : ℕ → List ℕ) where
  -- A place of an array of publishers, which is filled if it is null.
  unfoldable pub private_topic :
      (List ℕ → Topic)
      → List ℕ
      → List LidarDevice
      → ℕ
      → List (Option Topic)
      → Outcome (Topic × List (Option Topic))
  private_topic make topic lidars index slots = do
    slot ← deref (get_elem? slots index)
    elim slot [
      | some p ↦ ok (p, slots)
      | none ↦ do
        lidar ← deref (get_elem? lidars index)
        let made = make (name_of inet_ntoa topic lidar.handle)
        ok (made, set slots index (some made))
    ]

  unfoldable pub current_topic : List LidarDevice → ℕ → Ros1Lddc → Outcome (Topic × Ros1Lddc)
  unfolding private_topic
  current_topic lidars index self =
      if self.use_multi_topic
      then (do
        (p, slots) ←
            private_topic
              (λ name. advertise self.transfer_format name (min_eth_packet_queue_size / 8))
              lidar_topic lidars index self.topics.private_pub
        ok (p, record self { topics = record (self.topics) { private_pub = slots } }))
      else (let p =
            or_new self.topics.global_pub
              (advertise self.transfer_format lidar_topic (min_eth_packet_queue_size * 8)) in
          ok (p, record self { topics = record (self.topics) { global_pub = some p } }))

  unfoldable pub current_imu_topic : List LidarDevice → ℕ → Ros1Lddc → Outcome (Topic × Ros1Lddc)
  unfolding private_topic
  current_imu_topic lidars index self =
      if self.use_multi_topic
      then (do
        (p, slots) ←
            private_topic (λ name. advertise_imu name (min_eth_packet_queue_size * 2)) imu_topic
              lidars index self.topics.private_imu_pub
        ok (p, record self { topics = record (self.topics) { private_imu_pub = slots } }))
      else (let p =
            or_new self.topics.global_imu_pub
              (advertise_imu imu_topic (min_eth_packet_queue_size * 8)) in
          ok (p, record self { topics = record (self.topics) { global_imu_pub = some p } }))
