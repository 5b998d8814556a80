-- ===== src/Ros1/Poll.antt =====
-- For ROS 1: what a device publishes, and what is left in its queue, when it is polled.
use livox_mid360_rko_lio_ros.Base.{
  ℕ, zero, suc, ◌+◌, ◌<◌, ◌≡◌, refl, ap, true, false, none, some, List, [], ◌++◌, if◌then◌else◌,
  length, get_elem?, ok,
}
use livox_mid360_rko_lio_ros.Comm.{LidarConnectState, off, on, config, sampling, StoragePacket}
use livox_mid360_rko_lio_ros.Comm.Float.{FloatUnit}
use livox_mid360_rko_lio_ros.Ldq.{LidarDataQueue}
use livox_mid360_rko_lio_ros.Lds.{LidarDevice, is_null}
use livox_mid360_rko_lio_ros.Lds.Push.{Serves, live, unused}
use livox_mid360_rko_lio_ros.Lds.Frame.{Queues}
use livox_mid360_rko_lio_ros.Lddc.{TransferType, is_sampling}
use livox_mid360_rko_lio_ros.Lddc.Distribute.{kept}
use livox_mid360_rko_lio_ros.Ros1.State.{Ros1Message, Sent, Ros1Lddc}
use livox_mid360_rko_lio_ros.Ros1.Deliver.{Delivers, Delivers-nil}
use livox_mid360_rko_lio_ros.Ros1.Packet.{Ros1Publishes, ros1_messages, seq_end}
use livox_mid360_rko_lio_ros.Ros1.Drain.{ros1_polling_loop_lem}
use livox_mid360_rko_lio_ros.Ros1.Devices.{ros1_polling_lidar_point_cloud_data}

-- What is taken from the queue of a device.
abbrev pub taken : LidarConnectState → List StoragePacket → List StoragePacket
taken sampling c = c
taken off c = []
taken on c = []
taken config c = []

module _ (fu : FloatUnit) (C : Queues) (ds : List LidarDevice) where
  -- What is published for the devices from `i` on, in their order.
  unfoldable pub ros1_from : List ℕ → TransferType → ℕ → ℕ → ℕ → List (ℕ × Ros1Message)
  ros1_from frame_id t zero i seq = []
  ros1_from frame_id t (suc left) i seq = elim (get_elem? ds i) [
    | none ↦ []
    | some d ↦
        ros1_messages fu frame_id d t seq (taken d.connect_state (C i))
        ++ ros1_from frame_id t left (i + 1) (seq_end t seq (taken d.connect_state (C i)))
  ]

module _ (n : ℕ) (K : ℕ → ℕ) (C : Queues) where
  -- Device `j`, which was `d`, has another queue, with what is left.
  pub record Ros1Polled (j : ℕ) (d : LidarDevice) (lidars : List LidarDevice) : Type 0 where
    pub queue : LidarDataQueue
    pub at : get_elem? lidars j ≡ some (record d { points = queue })
    pub serves : Serves n (K j) queue (kept d.connect_state (C j))

module _ (inet_ntoa : ℕ → List ℕ) (fu : FloatUnit) (n : ℕ) (K : ℕ → ℕ) (C : Queues) where
  poll_sampling :
      (lidars : List LidarDevice) (i : ℕ) (d : LidarDevice) (self : Ros1Lddc)
      → get_elem? lidars i ≡ some d
      → Ros1Publishes self.transfer_format
      → i < length self.topics.private_pub
      → Serves n (K i) d.points (C i)
      → (queue : LidarDataQueue) × (self' : Ros1Lddc) × (sent : List Sent)
        × (ros1_polling_lidar_point_cloud_data inet_ntoa fu false lidars i d self
            ≡ ok (some (queue, self', sent)))
        × Serves n (K i) queue []
        × Delivers
            (ros1_messages fu self.frame_id d self.transfer_format self.msg_seq (C i))
            self
            self'
            sent
        × (self'.msg_seq ≡ seq_end self.transfer_format self.msg_seq (C i))
  unfolding ros1_messages ros1_polling_lidar_point_cloud_data seq_end
  poll_sampling lidars i d self at which inside (live h) =
      let (queue, self', sent, polled, h', delivered, last) =
        ros1_polling_loop_lem inet_ntoa fu lidars i d at (K i) (C i) d.points self which h inside in
      let there : is_null d.points.storage_packet ≡ false = ap is_null h.storage in
      (queue, self', sent, rw there polled, live h', delivered, last)
  poll_sampling lidars i d self at which inside (unused e none' up) =
      let fresh : is_null d.points.storage_packet ≡ true = ap is_null e in
      (
        d.points,
        self,
        [],
        rw fresh refl,
        unused e refl up,
        rw none' (Delivers-nil self),
        rw none' refl,
      )

  pub poll_device :
      (state : LidarConnectState) (lidars : List LidarDevice) (i : ℕ) (d : LidarDevice)
      (self : Ros1Lddc)
      → get_elem? lidars i ≡ some d
      → Ros1Publishes self.transfer_format
      → i < length self.topics.private_pub
      → Serves n (K i) d.points (C i)
      → (queue : LidarDataQueue) × (self' : Ros1Lddc) × (sent : List Sent) × ((if is_sampling fu
              state
            then ros1_polling_lidar_point_cloud_data inet_ntoa fu false lidars i d self
            else ok (some (d.points, self, [])))
          ≡ ok (some (queue, self', sent)))
        × Serves n (K i) queue (kept state (C i))
        × Delivers
            (ros1_messages fu self.frame_id d self.transfer_format self.msg_seq (taken state (C i)))
            self
            self'
            sent
        × (self'.msg_seq ≡ seq_end self.transfer_format self.msg_seq (taken state (C i)))
  unfolding ros1_messages seq_end
  poll_device sampling lidars i d self at which inside v =
      poll_sampling lidars i d self at which inside v
  poll_device off lidars i d self at which inside v =
      (d.points, self, [], refl, v, Delivers-nil self, refl)
  poll_device on lidars i d self at which inside v =
      (d.points, self, [], refl, v, Delivers-nil self, refl)
  poll_device config lidars i d self at which inside v =
      (d.points, self, [], refl, v, Delivers-nil self, refl)
