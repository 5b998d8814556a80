-- ===== src/Config/Names.antt =====
-- The names of the members that the configuration parsers look up.
pub data Name : Type 0 where
  lidar_summary_info lidar_type lidar_configs ip pcl_data_type pattern_mode blind_spot_set
        dual_emit_en extrinsic_parameter roll pitch yaw x y z :
      Name
