-- ===== src/Lib.antt =====
-- The ROS driver of a Livox MID-360 lidar, src/livox_ros/src of the repository.
--
-- A packet of the SDK reaches PubHandler::OnLivoxLidarPointCloudCallback, which queues it; the
-- thread of RawDataProcess decodes it with the lidar's LidarPubHandler and, when CheckTimer says
-- so, publishes a frame of point packets. The frame goes to Lds::StoragePointData, which finds each
-- lidar's device through the index cache and pushes the packets on the device's ring, from which
-- the poll threads of the ROS node publish messages. The SDK's connection and reply callbacks
-- configure the lidars and move the state of their devices. The node's constructor starts the
-- source, which reads the configuration file, prepares a device for each configured lidar and
-- registers the callbacks.
--
-- The files, with what they model (paths below src/livox_ros/src):
--   Base             shared names, lists, tests, text and number keys, faults; no code
--   Comm             comm/comm.h, comm/comm.cpp: types, constants, helpers
--   Comm/Float       the floating-point unit, a parameter, and CalculatePacketQueueSize
--   Ldq              comm/ldq.h, comm/ldq.cpp: the ring (InitQueue .. QueuePushAny)
--   CacheIndex       comm/cache_index.h, comm/cache_index.cpp
--   Semaphore        comm/semaphore.h, comm/semaphore.cpp
--   ImuQueue         comm/lidar_imu_data_queue.h, comm/lidar_imu_data_queue.cpp
--   Lds              lds.h, lds.cpp: the device table and the Storage functions
--   Callback         call_back/: the callbacks that the SDK calls
--   Points           LidarPubHandler of comm/pub_handler.cpp: decoding
--   Publish          PubHandler of comm/pub_handler.cpp: packets and frames
--   Lddc             lddc.h, lddc.cpp for ROS 2: the poll loops
--   Lddc/Messages    lddc.cpp: the messages that are published
--   Lddc/Publishers  lddc.cpp for ROS 2: the publishers and their topics
--   Ros1             lddc.h, lddc.cpp, livox_ros_driver2.cpp where they differ for ROS 1
--   Config           parse_cfg_file/: the configuration file; Config/Names are its names
--   LdsLidar         lds_lidar.h, lds_lidar.cpp: the start and stop of the source
--   Node             driver_node.cpp, livox_ros_driver2.cpp for ROS 2, and the threads as steps
--   Flow             from the queued packets to the devices, through all of these
--   Tests            concrete inputs; each theorem with conditions is applied to one
-- The files below these hold the proofs.
--
-- State is passed explicitly: a record per class, and an operation returns the new record. A call
-- that C++ leaves undefined on some inputs returns an Outcome, whose `fault` stands for the
-- undefined case. Machine integers are numbers with their wrap-around written out; signed fields,
-- floats and doubles are bit patterns. A function under a lock is one step; GetFreeIndex, which
-- locks twice, is two. Commands to the SDK, published frames and IMU samples are returned as
-- values. What is used of rapidjson, of the SDK's results and of the system's address functions is
-- an interface or an argument. The threads interleave only in Node, whose states hold the
-- number of packets and the connection state of each device; elsewhere a round of a thread is one
-- function.
--
-- Bounds and fuel: the loop of RoundupPowerOf2 has the source's 32 rounds; the printing of a 32-bit
-- handle has fuel for ten digits; ReplacePeriodByUnderline has as much fuel as the text is long,
-- since each round removes a period. The loops that empty a queue have as much fuel as it holds
-- packets, and the poll loop has fuel for two rounds, the first of which empties the queue. The
-- ring has at most 2 ^ 31 slots, the largest power of two that its 32-bit size can hold.
--
-- Not modelled: sdk/livox_sdk and the third-party libraries, which are vendored; logging and
-- printing; the declaration of the node's parameters; how ROS delivers what is published and how
-- rosbag writes it to a file.
pub mod Base
pub mod Comm
pub mod Ldq
pub mod CacheIndex
pub mod Semaphore
pub mod ImuQueue
pub mod Lds
pub mod Config
pub mod LdsLidar
pub mod Callback
pub mod Flow
pub mod Points
pub mod Publish
pub mod Lddc
pub mod Ros1
pub mod Node
pub mod Tests
