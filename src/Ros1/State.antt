-- ===== src/Ros1/State.antt =====
-- lddc.h and lddc.cpp for ROS 1: the messages of PCL, the members of Lddc and the bag file.
use livox_mid360_rko_lio_ros.Base.{
  ℕ, Bool, true, false, Option, none, some, List, [], ◌∷◌, ◌++◌, Outcome, ok, ◌>>=◌,
}
use livox_mid360_rko_lio_ros.Comm.{PointXyzlt, StoragePacket}
use livox_mid360_rko_lio_ros.Comm.Float.{FloatUnit, d_1000}
use livox_mid360_rko_lio_ros.Lds.{Lds}
use livox_mid360_rko_lio_ros.Lddc.{TransferType}
use livox_mid360_rko_lio_ros.Lddc.Messages.{PointCloud2, CustomMsg, ImuMsg, fill_loop, timestamp_of}

-- pcl::PointXYZI and pcl::PointCloud.
pub record PointXyzi : Type 0 where
  pub x : ℕ
  pub y : ℕ
  pub z : ℕ
  pub intensity : ℕ

pub record PclCloud : Type 0 where
  pub frame_id : List ℕ
  pub stamp : ℕ
  pub height : ℕ
  pub width : ℕ
  pub points : List PointXyzi

abbrev pub pcl_point : PointXyzlt → PointXyzi
pcl_point p = record { x = p.x; y = p.y; z = p.z; intensity = p.intensity }

-- The seconds that ros::Time is made from, and the microseconds of a PCL header.
abbrev pub d_billion : ℕ
d_billion = 0x41cdcd6500000000

unfoldable pub ros1_time : FloatUnit → ℕ → ℕ
ros1_time fu timestamp = fu.d_div (fu.d_of_u64 timestamp) d_billion

pub pcl_stamp : FloatUnit → ℕ → ℕ
pcl_stamp fu timestamp = fu.d_to_u64 (fu.d_div (fu.d_of_u64 timestamp) d_1000)

unfoldable pub init_pcl_msg : FloatUnit → List ℕ → StoragePacket → PclCloud
init_pcl_msg fu frame_id pkg = record {
  frame_id = frame_id;
  stamp = pcl_stamp fu (timestamp_of pkg);
  height = 1;
  width = pkg.points_num;
  points = [];
}

unfoldable pub fill_points_to_pcl_msg : StoragePacket → PclCloud → Outcome PclCloud
fill_points_to_pcl_msg pkg pcl_msg = elim pkg.points [
  | [] ↦ ok pcl_msg
  | p ∷ ps ↦ do
    points ← fill_loop pcl_point pkg.points pkg.points_num 0
    ok (record pcl_msg { points = pcl_msg.points ++ points })
]

-- A message; a custom message has the number of its header.
pub data Ros1Message : Type 0 where
  cloud : PointCloud2 → Ros1Message
  custom : ℕ → CustomMsg → Ros1Message
  pcl : PclCloud → Ros1Message
  imu : ImuMsg → Ros1Message

-- What a publisher was advertised for; a new one is for nothing.
pub data Advertised : Type 0 where
  nothing point_cloud2 custom_msg point_cloud imu_msg : Advertised

pub record Topic : Type 0 where
  pub advertised : Advertised
  pub name : List ℕ
  pub queue_size : ℕ

-- `none` is a null pointer. The arrays have kMaxSourceLidar elements.
pub record Topics : Type 0 where
  pub private_pub : List (Option Topic)
  pub global_pub : Option Topic
  pub private_imu_pub : List (Option Topic)
  pub global_imu_pub : Option Topic

pub record Sent : Type 0 where
  pub topic : Topic
  pub message : Ros1Message

-- A record in a bag: the name of the topic, the time and the message.
pub record Written : Type 0 where
  pub topic_name : List ℕ
  pub time : ℕ
  pub message : Ros1Message

pub record Bag : Type 0 where
  pub file_name : List ℕ
  pub written : List Written

-- The members of Lddc that the build for ROS 1 has, with the static `msg_seq` of `InitCustomMsg`.
pub record Ros1Lddc : Type 0 where
  pub transfer_format : TransferType
  pub use_multi_topic : Bool
  pub output_to_ros : Bool
  pub frame_id : List ℕ
  pub enable_lidar_bag : Bool
  pub enable_imu_bag : Bool
  pub lds : Option Lds
  pub topics : Topics
  pub bag : Option Bag
  pub msg_seq : ℕ

unfoldable pub create_bag_file : List ℕ → Ros1Lddc → Ros1Lddc
create_bag_file file_name self = elim self.bag [
  | none ↦ record self { bag = some (record { file_name = file_name; written = [] }) }
  | some bag ↦ self
]

-- With the bag that is closed, and whether the source's PrepareExit is called.
unfoldable pub ros1_prepare_exit : Ros1Lddc → Ros1Lddc × Option Bag × Bool
ros1_prepare_exit self = (
  record self { bag = none; lds = none },
  self.bag,
  elim self.lds [ none ↦ false | some lds ↦ true ],
)
