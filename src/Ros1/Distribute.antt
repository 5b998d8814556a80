-- ===== src/Ros1/Distribute.antt =====
-- `DistributePointCloudData` for ROS 1: one round of the point cloud thread over all devices.
use livox_mid360_rko_lio_ros.Base.{
  ℕ, ◌≤◌, ◌≡◌, refl, ap, ◌∙◌, false, Option, none, some, List, [], if_false, arith, length,
  get_elem?, ok, ◌>>=◌,
}
use livox_mid360_rko_lio_ros.Comm.Float.{FloatUnit, calculate_packet_queue_size}
use livox_mid360_rko_lio_ros.Semaphore.{Semaphore, wait}
use livox_mid360_rko_lio_ros.Lds.{LidarDevice, Lds}
use livox_mid360_rko_lio_ros.Lds.Frame.{Queues, LdsServes}
use livox_mid360_rko_lio_ros.Ros1.State.{Ros1Message, Sent, Ros1Lddc}
use livox_mid360_rko_lio_ros.Ros1.Deliver.{Delivers}
use livox_mid360_rko_lio_ros.Ros1.Packet.{Ros1Publishes}
use livox_mid360_rko_lio_ros.Ros1.Devices.{
  ros1_distribute_loop, ros1_woken, ros1_wait, ros1_round, ros1_distribute_point_cloud_data,
}
use livox_mid360_rko_lio_ros.Ros1.Poll.{ros1_from, Ros1Polled}
use livox_mid360_rko_lio_ros.Ros1.Visit.{loop_lem}

woken_lem :
    (inet_ntoa : ℕ → List ℕ) (fu : FloatUnit) (self self' : Ros1Lddc) (s s' : Lds)
    (semaphore : Semaphore) (sent : List Sent)
    → self.lds ≡ some s
    → s.request_exit ≡ false
    → wait s.pcd_semaphore ≡ some semaphore
    → ros1_distribute_loop inet_ntoa fu s.lidar_count 0
        (record s { pcd_semaphore = semaphore })
        self
        []
      ≡ ok (some (s', self', sent))
    → ros1_distribute_point_cloud_data inet_ntoa fu self
      ≡ ok (some (record self' { lds = some s' }, sent))
unfolding ros1_distribute_point_cloud_data ros1_round ros1_wait ros1_woken
woken_lem inet_ntoa fu self self' s s' semaphore sent has stay waited looped =
    ap (λ o. elim o [ none ↦ ok (some (self, [])) | some lds ↦ ros1_round inet_ntoa fu lds self ])
      has
    ∙ if_false s.request_exit (ok (some (self, []))) (ros1_wait inet_ntoa fu s self) stay
    ∙ ap (λ o. elim o [ none ↦ ok none | some w ↦ ros1_woken inet_ntoa fu s w self ]) waited
    ∙ ap
        (λ o. o >>= λ done. elim done [
          | none ↦ ok none
          | some (lds', last, out) ↦ ok (some (record last { lds = some lds' }, out))
        ])
        looped

-- Delivery does not depend on the source.
Delivers-lds :
    (out : List (ℕ × Ros1Message)) (self self' : Ros1Lddc) (sent : List Sent) (lds : Option Lds)
    → Delivers out self self' sent
    → Delivers out self (record self' { lds = lds }) sent
Delivers-lds out self self' sent lds d = record {
  same_output = d.same_output;
  same_enable = d.same_enable;
  same_frame = d.same_frame;
  same_format = d.same_format;
  same_bag = d.same_bag;
  slots = d.slots;
  to_ros = d.to_ros;
  in_bag = d.in_bag;
}

-- In the ROS 1 build, DistributePointCloudData, with no exit requested, the semaphore up, one of
-- the three formats, 32 devices with a place each among the publishers, and a state in which each
-- device serves its queue: it takes the semaphore down by one, empties the rings of the sampled
-- devices and changes nothing else in any device. It delivers, device after device and in order,
-- one message of the format for each packet with points, made of exactly these points, custom ones
-- with consecutive numbers: to ROS if the output is ROS, otherwise appended, each with its time,
-- to the bag if there is one and it is enabled, and else nowhere.
pub ros1_distribute_point_cloud_data_lem :
    (inet_ntoa : ℕ → List ℕ) (fu : FloatUnit) (self : Ros1Lddc) (s : Lds) (semaphore : Semaphore)
    (K : ℕ → ℕ) (C : Queues)
    → self.lds ≡ some s
    → s.request_exit ≡ false
    → s.lidar_count ≡ 32
    → 32 ≤ length self.topics.private_pub
    → wait s.pcd_semaphore ≡ some semaphore
    → LdsServes fu s K C
    → Ros1Publishes self.transfer_format
    → (lidars : List LidarDevice) × (self' : Ros1Lddc) × (sent : List Sent)
      × (ros1_distribute_point_cloud_data inet_ntoa fu self ≡ ok (some (self', sent)))
      × (self'.lds ≡ some (record s { pcd_semaphore = semaphore; lidars = lidars }))
      × Delivers
          (ros1_from fu C s.lidars self.frame_id self.transfer_format s.lidar_count 0 self.msg_seq)
          self
          self'
          sent
      × ((j : ℕ) (d : LidarDevice)
          → get_elem? s.lidars j ≡ some d
          → Ros1Polled (calculate_packet_queue_size fu s.publish_freq) K C j d lidars)
ros1_distribute_point_cloud_data_lem inet_ntoa fu self s semaphore K C has stay count room waited v
      which =
    let (lidars, self1, sent, done, delivered, before, after) =
      loop_lem inet_ntoa fu (calculate_packet_queue_size fu s.publish_freq) K C s.lidars v.serves
        s.lidar_count 0 (record s { pcd_semaphore = semaphore }) self [] which
        (omega (arith, v.devices)) (omega (arith, v.devices)) refl stay (λ j h. refl) in
    let left : Lds = record s { pcd_semaphore = semaphore; lidars = lidars } in
    (
      lidars,
      record self1 { lds = some left },
      sent,
      woken_lem inet_ntoa fu self self1 s left semaphore sent has stay waited done,
      refl,
      Delivers-lds _ self self1 sent (some left) delivered,
      λ j d at. after j d (omega arith) at,
    )
