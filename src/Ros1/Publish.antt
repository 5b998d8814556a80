-- ===== src/Ros1/Publish.antt =====
-- lddc.cpp for ROS 1: from a queue to ROS or to the bag file.
use livox_mid360_rko_lio_ros.Base.{
  ℕ, zero, suc, ◌+◌, ◌%◌, ◌^◌, Bool, ◌||◌, Option, none, some, List, [], ◌∷◌, ◌++◌, if◌then◌else◌,
  Outcome, ok, ◌>>=◌, deref,
}
use livox_mid360_rko_lio_ros.Comm.{PointXyzlt, StoragePacket}
use livox_mid360_rko_lio_ros.Comm.Float.{FloatUnit}
use livox_mid360_rko_lio_ros.Ldq.{LidarDataQueue, queue_is_empty, queue_pop, queue_used_size}
use livox_mid360_rko_lio_ros.Lds.{LidarDevice}
use livox_mid360_rko_lio_ros.ImuQueue
use livox_mid360_rko_lio_ros.ImuQueue.{LidarImuDataQueue}
use livox_mid360_rko_lio_ros.Lddc.{
  TransferType, point_cloud2_msg, livox_custom_msg, pcl_pxyzi_msg, unknown,
}
use livox_mid360_rko_lio_ros.Lddc.Messages.{
  timestamp_of, init_pointcloud2_msg, init_custom_msg, fill_points_to_custom_msg, init_imu_msg,
}
use livox_mid360_rko_lio_ros.Ros1.State.{
  ros1_time, init_pcl_msg, fill_points_to_pcl_msg, Ros1Message, cloud, custom, pcl, imu, Topic,
  Sent, Written, Ros1Lddc,
}
use livox_mid360_rko_lio_ros.Ros1.Topics.{current_topic, current_imu_topic}

-- To ROS, or to the bag if there is one and it is enabled for this kind.
unfoldable pub emit : Bool → Topic → ℕ → Ros1Message → Ros1Lddc → Ros1Lddc × List Sent
emit enabled topic time message self =
    if self.output_to_ros
    then (self, record { topic = topic; message = message } ∷ [])
    else elim self.bag [
      | none ↦ (self, [])
      | some bag ↦
          let entry : Written = record {
            topic_name = topic.name;
            time = time;
            message = message;
          } in
          if enabled
          then (record self { bag = some (record bag { written = bag.written ++ entry ∷ [] }) }, [])
          else (self, [])
    ]

module _ (inet_ntoa : ℕ → List ℕ) (fu : FloatUnit) where
  -- PublishPointcloud2Data, PublishCustomPointData and PublishPclData, which are the same but for
  -- the message.
  unfoldable pub publish_point_data :
      List LidarDevice → ℕ → ℕ → Ros1Message → Ros1Lddc → Outcome (Ros1Lddc × List Sent)
  unfolding emit
  publish_point_data lidars index timestamp message self = do
    (topic, self') ← current_topic inet_ntoa lidars index self
    ok (emit self'.enable_lidar_bag topic (ros1_time fu timestamp) message self')

  -- The message of a packet with points. `init_pointcloud2_msg` and `init_custom_msg` give the stamp
  -- in nanoseconds; a custom message takes the next number.
  unfoldable pub publish_packet :
      TransferType
      → List LidarDevice
      → ℕ
      → LidarDevice
      → StoragePacket
      → Ros1Lddc
      → Outcome (Ros1Lddc × List Sent)
  unfolding publish_point_data
  publish_packet point_cloud2_msg lidars index lidar pkg self = do
    msg ← init_pointcloud2_msg fu self.frame_id pkg
    publish_point_data lidars index (timestamp_of pkg)
        (cloud (record msg { stamp = ros1_time fu msg.stamp })) self
  publish_packet livox_custom_msg lidars index lidar pkg self = do
    msg ← fill_points_to_custom_msg fu (init_custom_msg self.frame_id pkg lidar) pkg
    publish_point_data lidars index msg.timebase
        (custom self.msg_seq (record msg { stamp = ros1_time fu msg.stamp }))
        (record self { msg_seq = (self.msg_seq + 1) % 2 ^ 32 })
  publish_packet pcl_pxyzi_msg lidars index lidar pkg self = do
    msg ← fill_points_to_pcl_msg pkg (init_pcl_msg fu self.frame_id pkg)
    publish_point_data lidars index (timestamp_of pkg) (pcl msg) self
  publish_packet unknown lidars index lidar pkg self = ok (self, [])

  abbrev pub unless_no_points :
      List PointXyzlt → Ros1Lddc → Outcome (Ros1Lddc × List Sent) → Outcome (Ros1Lddc × List Sent)
  unless_no_points [] self published = ok (self, [])
  unless_no_points (p ∷ ps) self published = published

  -- The loop of PublishPointcloud2, PublishCustomPointcloud and PublishPclMsg. Without fuel the
  -- queue is returned as it is.
  unfoldable pub ros1_drain :
      TransferType
      → List LidarDevice
      → ℕ
      → LidarDevice
      → ℕ
      → LidarDataQueue
      → Ros1Lddc
      → Outcome (LidarDataQueue × Ros1Lddc × List Sent)
  unfolding publish_packet
  ros1_drain t lidars index lidar zero queue self = ok (queue, self, [])
  ros1_drain t lidars index lidar (suc fuel) queue self =
      if queue_is_empty queue then ok (queue, self, []) else (do
        (popped, queue') ← queue_pop queue
        pkg ← deref popped
        (self', sent) ←
            unless_no_points pkg.points self (publish_packet t lidars index lidar pkg self)
        (queue'', self'', rest) ← ros1_drain t lidars index lidar fuel queue' self'
        ok (queue'', self'', sent ++ rest))

  -- A round of the loop of PollingLidarPointCloudData, with as much fuel as the queue holds packets.
  unfoldable pub ros1_polling_round :
      TransferType
      → List LidarDevice
      → ℕ
      → LidarDevice
      → LidarDataQueue
      → Ros1Lddc
      → Outcome (LidarDataQueue × Ros1Lddc × List Sent)
  unfolding ros1_drain
  ros1_polling_round unknown lidars index lidar queue self = ok (queue, self, [])
  ros1_polling_round t lidars index lidar queue self =
      ros1_drain t lidars index lidar (queue_used_size queue) queue self

  -- The loop, on fuel: `none` if it is still running when the fuel is spent.
  unfoldable pub ros1_polling_loop :
      Bool
      → List LidarDevice
      → ℕ
      → LidarDevice
      → ℕ
      → LidarDataQueue
      → Ros1Lddc
      → Outcome (Option (LidarDataQueue × Ros1Lddc × List Sent))
  unfolding ros1_polling_round
  ros1_polling_loop request_exit lidars index lidar zero queue self = ok none
  ros1_polling_loop request_exit lidars index lidar (suc fuel) queue self =
      if request_exit || queue_is_empty queue then ok (some (queue, self, [])) else (do
        (queue', self', sent) ←
            ros1_polling_round self.transfer_format lidars index lidar queue self
        done ← ros1_polling_loop request_exit lidars index lidar fuel queue' self'
        elim done [
          | none ↦ ok none
          | some (queue'', self'', rest) ↦ ok (some (queue'', self'', sent ++ rest))
        ])

  unfoldable pub ros1_publish_imu_data :
      List LidarDevice
      → ℕ
      → LidarImuDataQueue
      → Ros1Lddc
      → Outcome (LidarImuDataQueue × Ros1Lddc × List Sent)
  unfolding emit
  ros1_publish_imu_data lidars index queue self =
      let (popped, queue') = ImuQueue.pop queue in
      elim popped [
        | none ↦ ok (queue', self, [])
        | some imu_data ↦ do
          (topic, self') ← current_imu_topic inet_ntoa lidars index self
          let msg = init_imu_msg fu imu_data
          let (self'', sent) =
              emit self'.enable_imu_bag topic (ros1_time fu imu_data.time_stamp)
                (imu (record msg { stamp = ros1_time fu imu_data.time_stamp })) self'
          ok (queue', self'', sent)
      ]
