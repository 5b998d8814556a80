-- ===== src/Callback.antt =====
-- call_back/livox_lidar_callback.cpp and call_back/lidar_common_callback.cpp: what the driver does
-- when the SDK reports a lidar, a reply to a command, a frame or an IMU sample. `client_data` is the
-- data source, or `none` for a null pointer. The commands that a callback hands to the SDK are
-- returned, in order. The lock on `config_mutex_` makes each callback one step.
pub mod Bits
pub mod Settings
pub mod Replies
use livox_mid360_rko_lio_ros.Base.{
  ℕ, ◌-◌, ◌^◌, bit_and, bit_or, Bool, true, false, not, Option, none, some, List, [], ◌∷◌, ◌++◌,
  ◌==◌, if◌then◌else◌, set, get_elem?, Outcome, fault, ok, ◌>>=◌, deref,
}
use livox_mid360_rko_lio_ros.Comm.{
  livox_lidar_type, PointFrame, ImuData, LidarConnectState, sampling, ExtParameter,
  UserLivoxLidarConfig, minus_one8, minus_one32,
}
use livox_mid360_rko_lio_ros.Comm.Float.{FloatUnit}
use livox_mid360_rko_lio_ros.CacheIndex.{get_index, get_free_index}
use livox_mid360_rko_lio_ros.Lds.{LidarDevice, Lds, storage_point_data, storage_imu_data}

-- LivoxLidarConfigCodeBit
abbrev pub config_data_type : ℕ
config_data_type = 1

abbrev pub config_scan_pattern : ℕ
config_scan_pattern = 2

abbrev pub config_blind_spot : ℕ
config_blind_spot = 4

abbrev pub config_dual_emit : ℕ
config_dual_emit = 8

-- The calls of the SDK; the callback that goes with each is fixed.
pub data SdkCall : Type 0 where
  set_pcl_data_type : ℕ → ℕ → SdkCall
  set_scan_pattern : ℕ → ℕ → SdkCall
  set_blind_spot : ℕ → ℕ → SdkCall
  set_dual_emit : ℕ → Bool → SdkCall
  set_install_attitude : ℕ → ExtParameter → SdkCall
  set_work_mode_normal : ℕ → SdkCall
  enable_imu_data : ℕ → SdkCall

-- `livox_status`: kLivoxLidarStatusSuccess, kLivoxLidarStatusTimeout, or another code.
pub data LivoxStatus : Type 0 where
  success timeout failed : LivoxStatus

pub record AsyncControlResponse : Type 0 where
  pub ret_code : ℕ
  pub error_key : ℕ

abbrev pub Client : Type 0
Client = Option Lds

-- GetLidarDevice: the index of the device and the device, if the lidar has one.
pub get_lidar_device : ℕ → Client → Outcome (Option (ℕ × LidarDevice))
get_lidar_device handle none = ok none
get_lidar_device handle (some s) = elim (get_index livox_lidar_type handle s.cache) [
  | none ↦ ok none
  | some index ↦ do lidar ← deref (get_elem? s.lidars index); ok (some (index, lidar))
]

abbrev pub put_device : Lds → ℕ → LidarDevice → Lds
put_device s index lidar = record s { lidars = set s.lidars index lidar }

-- One `if (value != -1) { set_bits |= bit; call; }` of `LidarInfoChangeCallback`.
abbrev pub request : Bool → ℕ → SdkCall → ℕ × List SdkCall → ℕ × List SdkCall
request unset bit call (bits, calls) =
    if unset then (bits, calls) else (bit_or bits bit, calls ++ call ∷ [])

-- The configured settings of a lidar, and `set_bits` with a bit for each.
pub request_settings : ℕ → UserLivoxLidarConfig → ℕ × List SdkCall
request_settings handle config =
    request (config.dual_emit_en == minus_one8) config_dual_emit
      (set_dual_emit handle (if config.dual_emit_en == 0 then false else true))
      (request (config.blind_spot_set == minus_one32) config_blind_spot
        (set_blind_spot handle config.blind_spot_set)
        (request (config.pattern_mode == minus_one8) config_scan_pattern
          (set_scan_pattern handle config.pattern_mode)
          (request (config.pcl_data_type == minus_one8) config_data_type
            (set_pcl_data_type handle config.pcl_data_type) (config.set_bits, []))))

-- A lidar that is in the configuration: its settings are requested.
pub configure : ℕ → LidarDevice → LidarDevice × List SdkCall
unfolding request_settings
configure handle lidar =
    let (bits, calls) = request_settings handle lidar.livox_config in
    (
      record lidar {
        livox_config = record (lidar.livox_config) { set_bits = bits };
        connect_state = if bits == 0 then sampling else lidar.connect_state;
      },
      calls
          ++ set_install_attitude lidar.livox_config.handle lidar.livox_config.extrinsic_param ∷ [],
    )

abbrev pub begin_work : ℕ → List SdkCall
begin_work handle = set_work_mode_normal handle ∷ enable_imu_data handle ∷ []

pub lidar_info_change_callback : ℕ → Client → Outcome (Client × List SdkCall)
unfolding configure get_lidar_device
lidar_info_change_callback handle none = ok (none, [])
lidar_info_change_callback handle (some s) = do
  found ← get_lidar_device handle (some s)
  elim found [
    | some (index, lidar) ↦
        let (lidar', calls) = configure handle lidar in
        ok (some (put_device s index lidar'), calls ++ begin_work handle)
    | none ↦
        let (r, cache') = get_free_index livox_lidar_type handle s.cache in
        elim r [
          | none ↦ ok (some (record s { cache = cache' }), [])
          | some index ↦ do
            lidar ← deref (get_elem? s.lidars index)
            ok (
              some (
                  put_device (record s { cache = cache' }) index
                    (record lidar { lidar_type = livox_lidar_type })),
              begin_work handle,
            )
        ]
  ]

-- The sleep of one second is left out.
pub work_mode_changed_callback : LivoxStatus → ℕ → List SdkCall
work_mode_changed_callback success handle = []
work_mode_changed_callback timeout handle = set_work_mode_normal handle ∷ []
work_mode_changed_callback failed handle = set_work_mode_normal handle ∷ []

-- `set_bits &= ~bit; if (!set_bits) connect_state = kConnectStateSampling;`
pub acknowledge : ℕ → LidarDevice → LidarDevice
acknowledge bit lidar =
    let bits = bit_and lidar.livox_config.set_bits (2 ^ 32 - 1 - bit) in
    record lidar {
      livox_config = record (lidar.livox_config) { set_bits = bits };
      connect_state = if bits == 0 then sampling else lidar.connect_state;
    }

-- What the four callbacks of a setting have in common: the bit, and the call to try again. In the
-- last case the response is printed, through its pointer.
pub setting_callback :
    ℕ
    → (UserLivoxLidarConfig → SdkCall)
    → LivoxStatus
    → ℕ
    → Option AsyncControlResponse
    → Client
    → Outcome (Client × List SdkCall)
unfolding acknowledge get_lidar_device
setting_callback bit again status handle response none = ok (none, [])
setting_callback bit again status handle response (some s) = do
  found ← get_lidar_device handle (some s)
  elim found [
    | none ↦ ok (some s, [])
    | some (index, lidar) ↦ elim status [
      | success ↦ ok (some (put_device s index (acknowledge bit lidar)), [])
      | timeout ↦ ok (some s, again lidar.livox_config ∷ [])
      | failed ↦ do printed ← deref response; ok (some s, [])
    ]
  ]

abbrev pub Callback : Type 0
Callback = LivoxStatus → ℕ → Option AsyncControlResponse → Client → Outcome (Client × List SdkCall)

pub set_data_type_callback : Callback
unfolding setting_callback
set_data_type_callback status handle =
    setting_callback config_data_type (λ c. set_pcl_data_type handle c.pcl_data_type) status handle

pub set_pattern_mode_callback : Callback
unfolding setting_callback
set_pattern_mode_callback status handle =
    setting_callback config_scan_pattern (λ c. set_scan_pattern handle c.pattern_mode) status handle

pub set_blind_spot_callback : Callback
unfolding setting_callback
set_blind_spot_callback status handle =
    setting_callback config_blind_spot (λ c. set_blind_spot handle c.blind_spot_set) status handle

pub set_dual_emit_callback : Callback
unfolding setting_callback
set_dual_emit_callback status handle =
    setting_callback config_dual_emit
      (λ c. set_dual_emit handle (if c.dual_emit_en == 0 then false else true)) status handle

pub set_attitude_callback : LivoxStatus → ℕ → Client → Outcome (Client × List SdkCall)
unfolding get_lidar_device
set_attitude_callback status handle client = do
  found ← get_lidar_device handle client
  elim found [
    | none ↦ ok (client, [])
    | some (index, lidar) ↦ elim status [
      | success ↦ ok (client, [])
      | timeout ↦ ok (
        client,
        set_install_attitude lidar.livox_config.handle lidar.livox_config.extrinsic_param ∷ [],
      )
      | failed ↦ ok (client, [])
    ]
  ]

pub enable_livox_lidar_imu_data_callback : Callback
unfolding get_lidar_device
enable_livox_lidar_imu_data_callback status handle response client = do
  found ← get_lidar_device handle client
  elim found [
    | none ↦ ok (client, [])
    | some (index, lidar) ↦ elim response [
      | none ↦ ok (client, [])
      | some r ↦ elim status [
        | success ↦ ok (client, [])
        | timeout ↦ ok (client, enable_imu_data handle ∷ [])
        | failed ↦ ok (client, [])
      ]
    ]
  ]

-- lidar_common_callback.cpp
unfoldable pub on_lidar_point_cloun_cb : FloatUnit → Option PointFrame → Client → Outcome Client
on_lidar_point_cloun_cb fu none client = ok client
on_lidar_point_cloun_cb fu (some frame) none = ok none
on_lidar_point_cloun_cb fu (some frame) (some s) =
    if frame.lidar_num == 0
    then ok (some s)
    else storage_point_data fu (some frame) s >>= λ s'. ok (some s')

unfoldable pub lidar_imu_data_callback : Option ImuData → Client → Outcome Client
lidar_imu_data_callback none client = ok client
lidar_imu_data_callback (some imu_data) none = ok none
lidar_imu_data_callback (some imu_data) (some s) =
    storage_imu_data imu_data s >>= λ s'. ok (some s')
