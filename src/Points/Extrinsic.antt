-- ===== src/Points/Extrinsic.antt =====
-- SetLidarsExtParam of comm/pub_handler.cpp: the rotation and the translation of a lidar, which are
-- set once.
use livox_mid360_rko_lio_ros.Base.{ℕ, true, ◌≡◌, refl, if◌then◌else◌, Bool-cases, inl, inr}
use livox_mid360_rko_lio_ros.Comm.{ExtParameter, LidarExtParameter, ExtParameterDetailed}
use livox_mid360_rko_lio_ros.Comm.Float.{FloatUnit, d_180, d_pi}
use livox_mid360_rko_lio_ros.Points.{LidarPubHandler}

module _ (fu : FloatUnit) where
  -- An angle in degrees, a float, in radians.
  abbrev radians : ℕ → ℕ
  radians angle = fu.d_div (fu.d_mul (fu.d_of_f angle) d_pi) d_180

  pub ext_parameter_detailed : ExtParameter → ExtParameterDetailed
  ext_parameter_detailed param =
      let cos_roll = fu.d_cos (radians param.roll) in
      let cos_pitch = fu.d_cos (radians param.pitch) in
      let cos_yaw = fu.d_cos (radians param.yaw) in
      let sin_roll = fu.d_sin (radians param.roll) in
      let sin_pitch = fu.d_sin (radians param.pitch) in
      let sin_yaw = fu.d_sin (radians param.yaw) in
      record {
        trans = record {
          t0 = fu.f_of_i32 param.x;
          t1 = fu.f_of_i32 param.y;
          t2 = fu.f_of_i32 param.z;
        };
        rotation = record {
          r00 = fu.f_of_d (fu.d_mul cos_pitch cos_yaw);
          r01 = fu.f_of_d (
              fu.d_sub (fu.d_mul (fu.d_mul sin_roll sin_pitch) cos_yaw)
                (fu.d_mul cos_roll sin_yaw));
          r02 = fu.f_of_d (
              fu.d_add (fu.d_mul (fu.d_mul cos_roll sin_pitch) cos_yaw)
                (fu.d_mul sin_roll sin_yaw));
          r10 = fu.f_of_d (fu.d_mul cos_pitch sin_yaw);
          r11 = fu.f_of_d (
              fu.d_add (fu.d_mul (fu.d_mul sin_roll sin_pitch) sin_yaw)
                (fu.d_mul cos_roll cos_yaw));
          r12 = fu.f_of_d (
              fu.d_sub (fu.d_mul (fu.d_mul cos_roll sin_pitch) sin_yaw)
                (fu.d_mul sin_roll cos_yaw));
          r20 = fu.f_of_d (fu.d_neg sin_pitch);
          r21 = fu.f_of_d (fu.d_mul sin_roll cos_pitch);
          r22 = fu.f_of_d (fu.d_mul cos_roll cos_pitch);
        };
      }

  pub set_lidars_ext_param : LidarExtParameter → LidarPubHandler → LidarPubHandler
  unfolding ext_parameter_detailed
  set_lidars_ext_param lidar_param h = if h.is_set_extrinsic_params then h else record h {
    extrinsic = ext_parameter_detailed lidar_param.param;
    is_set_extrinsic_params = true;
  }

  -- The points stay as they are.
  pub set_lidars_ext_param-points_clouds :
      (lidar_param : LidarExtParameter) (h : LidarPubHandler)
      → (set_lidars_ext_param lidar_param h).points_clouds ≡ h.points_clouds
  unfolding set_lidars_ext_param
  set_lidars_ext_param-points_clouds lidar_param h = elim (Bool-cases h.is_set_extrinsic_params) [
    | inl set ↦ rw set refl
    | inr fresh ↦ rw fresh refl
  ]
