-- ===== src/Lddc/Pipeline.antt =====
-- A frame through `StoragePointData` and then `DistributePointCloudData`: from the decoded points to
-- the published messages.
use livox_mid360_rko_lio_ros.Base.{
  ℕ, zero, suc, ◌+◌, ◌-◌, ◌≤◌, ◌≡◌, refl, ap, ◌∙◌, false, some, List, arith, length, get_elem?,
  get_elem?_lt, ok,
}
use std.Path.{fun_ext}
use livox_mid360_rko_lio_ros.Comm.{
  LidarConnectState, off, on, config, sampling, PointFrame, StoragePacket,
}
use livox_mid360_rko_lio_ros.Comm.Float.{FloatUnit, calculate_packet_queue_size}
use livox_mid360_rko_lio_ros.Ldq.{LidarDataQueue}
use livox_mid360_rko_lio_ros.Semaphore.{Semaphore, wait_lem}
use livox_mid360_rko_lio_ros.Lds.{LidarDevice, Lds, storage_point_data}
use livox_mid360_rko_lio_ros.Lds.Keeps.{SameButQueues, AnyKnown}
use livox_mid360_rko_lio_ros.Lds.Frame.{
  Queues, LdsServes, IsFrame, packets_from, store, storage_point_data_lem,
}
use livox_mid360_rko_lio_ros.Lddc.{
  TransferType, point_cloud2_msg, livox_custom_msg, pcl_pxyzi_msg, unknown, Message, Lddc,
  distribute_point_cloud_data,
}
use livox_mid360_rko_lio_ros.Lddc.Messages.{init_custom_msg}
use livox_mid360_rko_lio_ros.Lddc.Drain.{Publishes, made_by, messages_of}
use livox_mid360_rko_lio_ros.Lddc.Distribute.{
  sent_by, sent_from, Polled, distribute_point_cloud_data_lem,
}

module _ (fu : FloatUnit) (self : Lddc) (n : ℕ) (K : ℕ → ℕ) (C : Queues) where
  made_by-queue :
      (t : TransferType) (i : ℕ) (d : LidarDevice) (queue : LidarDataQueue) (p : StoragePacket)
      → made_by fu t self i (record d { points = queue }) p ≡ made_by fu t self i d p
  unfolding made_by init_custom_msg
  made_by-queue point_cloud2_msg i d queue p = refl
  made_by-queue livox_custom_msg i d queue p = refl
  made_by-queue pcl_pxyzi_msg i d queue p = refl
  made_by-queue unknown i d queue p = refl

  -- What a device sends does not depend on its ring.
  sent_by-queue :
      (ds ds' : List LidarDevice) (state : LidarConnectState) (i : ℕ) (d : LidarDevice)
      (queue : LidarDataQueue)
      → sent_by fu self n K C ds' state i (record d { points = queue })
        ≡ sent_by fu self n K C ds state i d
  sent_by-queue ds ds' sampling i d queue =
      ap (λ made. messages_of made (C i))
        (fun_ext (λ p. made_by-queue self.transfer_format i d queue p))
  sent_by-queue ds ds' off i d queue = refl
  sent_by-queue ds ds' on i d queue = refl
  sent_by-queue ds ds' config i d queue = refl

  sent_from-kept :
      (left i : ℕ) (ds ds' : List LidarDevice)
      → i + left ≤ length ds
      → SameButQueues ds ds'
      → sent_from fu self n K C ds' left i ≡ sent_from fu self n K C ds left i
  unfolding sent_from
  sent_from-kept zero i ds ds' h same = refl
  sent_from-kept (suc left) i ds ds' h same =
      let (d, at) = get_elem?_lt ds i (omega arith) in
      let (queue, at') = same i d at in
      rw
        (
          at,
          at',
          sent_by-queue ds ds' d.connect_state i d queue,
          sent_from-kept left (i + 1) ds ds' (omega arith) same,
        )
        refl

-- From a source that serves its queues, with 32 devices and no exit requested, and for a frame
-- whose arrays are as long as it says and in which a packet is of a lidar that has an index:
-- StoragePointData, followed by DistributePointCloudData of a distributor with a published format
-- that points to the state it leaves, does not fail and does not wait. It publishes, device after
-- device, the messages of what the devices that were sampled before had queued and of their
-- packets of the frame behind it, as far as there was room; afterwards the ring of each sampled
-- device is empty and that of each other device holds these packets.
pub storage-distribute :
    (fu : FloatUnit) (self : Lddc) (s : Lds) (K : ℕ → ℕ) (C : Queues) (frame : PointFrame)
    → LdsServes fu s K C
    → IsFrame frame
    → AnyKnown s.cache (packets_from frame.lidar_num 0 frame)
    → s.request_exit ≡ false
    → s.lidar_count ≡ 32
    → Publishes self.transfer_format
    → (s' : Lds) × (lidars : List LidarDevice) × (storage_point_data fu (some frame) s ≡ ok s')
      × (distribute_point_cloud_data fu (record self { lds = some s' })
          ≡ ok (
              some (
                record self {
                  lds = some (record s' {
                    pcd_semaphore = record { count = s'.pcd_semaphore.count - 1 };
                    lidars = lidars;
                  });
                },
                sent_from fu
                    (record self { lds = some s' })
                    (calculate_packet_queue_size fu s'.publish_freq)
                    K
                    (store K s.cache (packets_from frame.lidar_num 0 frame) C)
                    s.lidars
                    32
                    0,
              )))
      × ((j : ℕ) (d : LidarDevice)
          → get_elem? s'.lidars j ≡ some d
          → Polled fu
              (record self { lds = some s' })
              (calculate_packet_queue_size fu s'.publish_freq)
              K
              (store K s.cache (packets_from frame.lidar_num 0 frame) C)
              s'.lidars
              j
              d
              lidars)
storage-distribute fu self s K C frame v f known stay count publishes =
    let (s', done, v', same, up) = storage_point_data_lem fu frame v f in
    let n = calculate_packet_queue_size fu s'.publish_freq in
    let C' = store K s.cache (packets_from frame.lidar_num 0 frame) C in
    let self' = record self { lds = some s' } in
    let semaphore : Semaphore = record { count = s'.pcd_semaphore.count - 1 } in
    let count' : s'.lidar_count ≡ 32 = same.count ∙ count in
    let (lidars, sent, polled) =
      distribute_point_cloud_data_lem fu self' s' semaphore K C' refl (same.exit ∙ stay) count'
        (wait_lem s'.pcd_semaphore (up known)) v' publishes in
    let after : Lddc = record self {
      lds = some (record s' { pcd_semaphore = semaphore; lidars = lidars });
    } in
    (
      s',
      lidars,
      done,
      sent
          ∙ ap (λ (ms : List Message). ok (some (after, ms)))
              (ap (λ left. sent_from fu self' n K C' s'.lidars left 0) count'
                ∙ sent_from-kept fu self' n K C' 32 0 s.lidars s'.lidars (omega (arith, v.devices))
                    same.lidars),
      polled,
    )
