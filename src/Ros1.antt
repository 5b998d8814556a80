-- ===== src/Ros1.antt =====
-- lddc.h, lddc.cpp and livox_ros_driver2.cpp where they differ for ROS 1: the publishers, the messages
-- of PCL, the bag file, the loops that publish through them, and the start. What ROS and rosbag are
-- given is returned or recorded, the times as the seconds that a ros::Time is made from.
-- `inet_ntoa` is the system's.
pub mod State
pub mod Topics
pub mod Publish
pub mod Deliver
pub mod Packet
pub mod Drain
pub mod Main
pub mod Devices
pub mod Poll
pub mod Visit
pub mod Distribute
