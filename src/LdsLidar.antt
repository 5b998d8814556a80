-- ===== src/LdsLidar.antt =====
-- lds_lidar.h and lds_lidar.cpp: the data source's start and stop, over the data source, the publisher
-- of points and the configuration file. The SDK's part is the interface `Sdk`; the calls that only
-- have an effect there are returned, in order. The source is the one instance, which `g_lds_ldiar`
-- points to.
pub mod Fill
pub mod Start
use livox_mid360_rko_lio_ros.Base.{
  ℕ, ◌+◌, ◌-◌, ◌/◌, ◌%◌, ◌^◌, bit_and, Bool, true, false, not, ◌&&◌, Option, none, some, List, [],
  ◌∷◌, ◌++◌, ltb, ◌==◌, if◌then◌else◌, replicate, set, get_elem?, Outcome, ok, ◌>>=◌, deref,
}
use livox_mid360_rko_lio_ros.Comm.{
  max_source_lidar, livox_lidar_type, off, ExtParameter, LidarExtParameter, UserLivoxLidarConfig,
}
use livox_mid360_rko_lio_ros.Comm.Float.{FloatUnit}
use livox_mid360_rko_lio_ros.CacheIndex.{CacheIndex, get_free_index}
use livox_mid360_rko_lio_ros.Ldq.{null}
use livox_mid360_rko_lio_ros.Lds.{LidarDevice, Lds, reset_lds}
use livox_mid360_rko_lio_ros.Publish.{
  PubHandler, add_lidars_ext_param, set_point_clouds_callback, set_imu_data_callback,
  set_point_cloud_config,
}
use livox_mid360_rko_lio_ros.Config.{Json, Parsed, parse, parse_summary_info, zero_parameter}

-- What `init` and `exit` tell the SDK.
pub data SdkCommand : Type 0 where
  disable_console_logger : SdkCommand
  sdk_init : List ℕ → SdkCommand
  set_info_change_callback : SdkCommand
  sdk_uninit : SdkCommand

-- LivoxLidarSdkInit of a path, and the id that LivoxLidarAddPointCloudObserver returns.
pub record Sdk : Type 0 where
  pub init_succeeds : List ℕ → Bool
  pub listen_id : ℕ

-- `lidar_type` is that of `lidar_summary_info_`. No code reads `whitelist_count_` or
-- `broadcast_code_whitelist_`.
pub record LdsLidar : Type 0 where
  pub lds : Lds
  pub path : List ℕ
  pub lidar_type : ℕ
  pub auto_connect_mode : Bool
  pub is_initialized : Bool

-- A device in static storage, before its constructor.
abbrev pub zero_device : LidarDevice
zero_device = record {
  lidar_type = 0;
  handle = 0;
  data_src = 0;
  connect_state = off;
  points = record { storage_packet = null; rd_idx = 0; wr_idx = 0; mask = 0; size = 0 };
  imu_data = record { imu_data_queue = [] };
  livox_config = record {
    handle = 0;
    pcl_data_type = 0;
    pattern_mode = 0;
    blind_spot_set = 0;
    dual_emit_en = 0;
    extrinsic_param = zero_parameter;
    set_bits = 0;
    get_bits = 0;
  };
}

-- The constructor of `Lds`, beside the static index cache.
pub new_lds : ℕ → ℕ → CacheIndex → Outcome Lds
new_lds publish_freq data_src cache = reset_lds data_src (record {
  lidar_count = max_source_lidar;
  lidars = replicate max_source_lidar zero_device;
  pcd_semaphore = record { count = 0 };
  imu_semaphore = record { count = 0 };
  cache = cache;
  publish_freq = publish_freq;
  data_src = data_src;
  request_exit = false;
})

-- kSourceRawLidar
abbrev pub source_raw_lidar : ℕ
source_raw_lidar = 0

-- The constructor of `LdsLidar`.
pub lds_lidar : ℕ → CacheIndex → Outcome LdsLidar
unfolding new_lds
lds_lidar publish_freq cache = do
  base ← new_lds publish_freq source_raw_lidar cache
  lds ← reset_lds source_raw_lidar base
  ok (record {
    lds = lds;
    path = [];
    lidar_type = 0;
    auto_connect_mode = true;
    is_initialized = false;
  })

pub enable_auto_connect_mode : LdsLidar → LdsLidar
enable_auto_connect_mode self = record self { auto_connect_mode = true }

pub disable_auto_connect_mode : LdsLidar → LdsLidar
disable_auto_connect_mode self = record self { auto_connect_mode = false }

-- `v / 10` of int32_t, in bit patterns: it rounds towards zero.
pub tenth : ℕ → ℕ
tenth v = if ltb v (2 ^ 31) then v / 10 else (2 ^ 32 - (2 ^ 32 - v) / 10) % 2 ^ 32

-- kLivoxLidarCartesianCoordinateLowData is 2.
pub lidar_param_of : UserLivoxLidarConfig → LidarExtParameter
unfolding tenth
lidar_param_of c = record {
  lidar_type = livox_lidar_type;
  handle = c.handle;
  param =
      if c.pcl_data_type == 2
      then record {
        roll = c.extrinsic_param.roll;
        pitch = c.extrinsic_param.pitch;
        yaw = c.extrinsic_param.yaw;
        x = tenth c.extrinsic_param.x;
        y = tenth c.extrinsic_param.y;
        z = tenth c.extrinsic_param.z;
      }
      else c.extrinsic_param;
}

-- The body of the loop of `InitLivoxLidar`.
pub add_config : UserLivoxLidarConfig → Lds → PubHandler → Outcome (Lds × PubHandler)
unfolding lidar_param_of
add_config c s p =
    let (r, cache') = get_free_index livox_lidar_type c.handle s.cache in
    elim r [
      | none ↦ ok (record s { cache = cache' }, p)
      | some index ↦ do
        lidar ← deref (get_elem? s.lidars index)
        ok (
          record s {
            cache = cache';
            lidars = set s.lidars index (record lidar {
              lidar_type = livox_lidar_type;
              livox_config = c;
              handle = c.handle;
            });
          },
          add_lidars_ext_param (lidar_param_of c) p,
        )
    ]

pub fill : List UserLivoxLidarConfig → Lds → PubHandler → Outcome (Lds × PubHandler)
unfolding add_config
fill [] s p = ok (s, p)
fill (c ∷ cs) s p = do (s', p') ← add_config c s p; fill cs s' p'

-- What a call returns, with the source, the publisher and the commands after it.
pub record Started : Type 0 where
  pub returned : Bool
  pub source : LdsLidar
  pub publisher : PubHandler
  pub commands : List SdkCommand

module _ {Value : Type 0} (json : Json Value) (inet_addr : List ℕ → ℕ)
    (file : List ℕ → Option (List ℕ)) (sdk : Sdk) where
  -- For ROS 2. If the parser fails it goes on without a configuration.
  pub init_livox_lidar : LdsLidar → PubHandler → Outcome Started
  unfolding fill
  init_livox_lidar self p = do
    parsed ← parse json inet_addr (file self.path) []
    let before = disable_console_logger ∷ sdk_init self.path ∷ []
    if sdk.init_succeeds self.path
        then (do
          (lds', p') ← fill parsed.result self.lds p
          ok (record {
            returned = true;
            source = record self { lds = lds' };
            publisher = p';
            commands = before ++ set_info_change_callback ∷ [];
          }))
        else ok (record { returned = false; source = self; publisher = p; commands = before })

  unfoldable pub is_livox : ℕ → Bool
  is_livox lidar_type = not (bit_and lidar_type livox_lidar_type == 0)

  pub init_lidars : LdsLidar → PubHandler → Outcome Started
  unfolding is_livox
  init_lidars self p = do
    summary ← parse_summary_info json (file self.path) self.lidar_type
    let self' = record self { lidar_type = summary.result }
    if summary.returned && is_livox summary.result
        then init_livox_lidar self' p
        else ok
            (record { returned = summary.returned; source = self'; publisher = p; commands = [] })

  -- `Start` and `LivoxLidarStart` return true in any case.
  pub start : LdsLidar → Bool
  start self = true

  module _ (fu : FloatUnit) where
    pub set_lidar_pub_handle : LdsLidar → PubHandler → PubHandler
    set_lidar_pub_handle self p =
        set_point_cloud_config fu self.lds.publish_freq
          (set_imu_data_callback (set_point_clouds_callback sdk.listen_id p))

    -- The rest of `InitLdsLidar` behind `InitLidars`.
    pub finish_init : Started → Started
    unfolding set_lidar_pub_handle start
    finish_init started =
        if started.returned
        then record started {
          publisher = set_lidar_pub_handle started.source started.publisher;
          returned = start started.source;
          source = record (started.source) { is_initialized = start started.source };
        }
        else started

    pub init_lds_lidar : List ℕ → LdsLidar → PubHandler → Outcome Started
    unfolding finish_init
    init_lds_lidar path_name self p =
        if self.is_initialized
        then ok (record { returned = false; source = self; publisher = p; commands = [] })
        else (do
          started ← init_lidars (record self { path = path_name }) p
          ok (finish_init started))

  -- False is the result -1.
  pub de_init_lds_lidar : LdsLidar → Bool × List SdkCommand
  unfolding is_livox
  de_init_lds_lidar self =
      if self.is_initialized
      then (true, if is_livox self.lidar_type then sdk_uninit ∷ [] else [])
      else (false, [])

  pub prepare_exit : LdsLidar → List SdkCommand
  unfolding de_init_lds_lidar
  prepare_exit self = (de_init_lds_lidar self).1
