-- ===== src/Tests/Config.antt =====
-- A configuration document of one lidar, and a source that is started on it.
use livox_mid360_rko_lio_ros.Comm.{livox_lidar_type, sampling, minus_one8, UserLivoxLidarConfig}
use livox_mid360_rko_lio_ros.CacheIndex.{get_index}
use livox_mid360_rko_lio_ros.Lds.{LidarDevice, Lds}
use livox_mid360_rko_lio_ros.Callback.{SdkCall, success, timeout, lidar_info_change_callback}
use livox_mid360_rko_lio_ros.Callback.Bits.{Setting, data_type, scan_pattern, blind_spot, dual_emit}
use livox_mid360_rko_lio_ros.Callback.Settings.{asked, has}
use livox_mid360_rko_lio_ros.Callback.Replies.{Reply, run_replies}
use livox_mid360_rko_lio_ros.Flow.Start.{started_then_sampled}
use livox_mid360_rko_lio_ros.Base.{
  ℕ, ◌<◌, ◌≡◌, ◌↔◌, refl, Bool, true, false, Option, none, some, List, [], ◌∷◌, arith, Outcome,
  fault, ok, get_elem?,
}
use livox_mid360_rko_lio_ros.CacheIndex.{cache_index}
use livox_mid360_rko_lio_ros.Config.Names.{Name}
use livox_mid360_rko_lio_ros.Config.{Json, parse, user_config, cast8_to_32}
use livox_mid360_rko_lio_ros.Config.Entries.{
  Extrinsic, Entry, AllShow, config_of, configs_of, outcome_of, parse_lem, user_config-blind_spot,
}
use livox_mid360_rko_lio_ros.Config.Summary.{Document}
use livox_mid360_rko_lio_ros.LdsLidar.{Sdk, LdsLidar, Started, lds_lidar, init_lds_lidar, is_livox}
use livox_mid360_rko_lio_ros.LdsLidar.Start.{IsStarted, init_lds_lidar_lem}
use livox_mid360_rko_lio_ros.Node.{Parameters, DriverNode, driver_node}
use livox_mid360_rko_lio_ros.Node.Start.{IsUp, driver_node_lem}
use livox_mid360_rko_lio_ros.Tests.{number_unit}
use livox_mid360_rko_lio_ros.Tests.Node.{ordered_unit, ordered_unit-IsOrdered}
use livox_mid360_rko_lio_ros.Tests.Points.{publisher}

-- The values of the document: the second entry has no address.
data Value : Type 0 where
  top summary entries first second extrinsic address : Value
  number : ℕ → Value

is_member : Value → Name → Bool
is_member top Name.lidar_summary_info = true
is_member top Name.lidar_configs = true
is_member summary Name.lidar_type = true
is_member first Name.ip = true
is_member first Name.blind_spot_set = true
is_member first Name.extrinsic_parameter = true
is_member extrinsic Name.x = true
is_member _ _ = false

member_of : Value → Name → Outcome Value
member_of top Name.lidar_summary_info = ok summary
member_of top Name.lidar_configs = ok entries
member_of summary Name.lidar_type = ok (number 8)
member_of first Name.ip = ok address
member_of first Name.blind_spot_set = ok (number 200)
member_of first Name.extrinsic_parameter = ok extrinsic
member_of extrinsic Name.x = ok (number 5)
member_of _ _ = fault

number_of : Value → Outcome ℕ
number_of (number n) = ok n
number_of _ = fault

abbrev document : Json Value
document = record {
  parse_stream = λ bytes. some top;
  has_member = λ v name. ok (is_member v name);
  member = member_of;
  is_array = λ v. elim v [ entries ↦ true | _ ↦ false ];
  is_object = λ v. elim v [ number n ↦ false | _ ↦ true ];
  is_uint = λ v. elim v [ number n ↦ true | _ ↦ false ];
  get_array = λ v. elim v [ entries ↦ ok (first ∷ second ∷ []) | _ ↦ fault ];
  get_uint = number_of;
  get_int = number_of;
  get_float = number_of;
  get_string = λ v. elim v [ address ↦ ok (7 ∷ []) | _ ↦ fault ];
}

abbrev shift : Extrinsic
shift = record { roll = none; pitch = none; yaw = none; x = some 5; y = none; z = none }

abbrev first_entry : Entry
first_entry = record {
  ip = some (7 ∷ []);
  pcl_data_type = none;
  pattern_mode = none;
  blind_spot_set = some 200;
  dual_emit_en = none;
  extrinsic_parameter = some shift;
}

abbrev written : List Entry
written =
    first_entry
    ∷ (record {
      ip = none;
      pcl_data_type = none;
      pattern_mode = none;
      blind_spot_set = none;
      dual_emit_en = none;
      extrinsic_parameter = none;
    })
    ∷ []

abbrev first_of : List ℕ → ℕ
first_of [] = 0
first_of (b ∷ bs) = b

shown : AllShow document (first ∷ second ∷ []) written
unfolding is_member member_of number_of
shown = (
  record {
    ip = (refl, address, refl, refl);
    pcl_data_type = refl;
    pattern_mode = refl;
    blind_spot_set = (refl, number 200, refl, refl);
    dual_emit_en = refl;
    extrinsic_parameter = (
      refl,
      extrinsic,
      refl,
      record {
        roll = refl;
        pitch = refl;
        yaw = refl;
        x = (refl, number 5, refl, refl);
        y = refl;
        z = refl;
      },
    );
  },
  (
    record {
      ip = refl;
      pcl_data_type = refl;
      pattern_mode = refl;
      blind_spot_set = refl;
      dual_emit_en = refl;
      extrinsic_parameter = refl;
    },
    tt,
  ),
)

parse_lem_example : parse document first_of (some []) [] ≡ ok (outcome_of document first_of written)
unfolding is_member member_of
parse_lem_example =
    parse_lem document first_of [] [] top entries (first ∷ second ∷ []) written refl refl refl refl
      refl shown

-- 200 cm is recorded as -56.
user_config-blind_spot_example :
    (c : UserLivoxLidarConfig) × (user_config document first_of first ≡ ok c)
    × ((c.blind_spot_set ≡ 200) ↔ (200 < 128))
unfolding member_of
user_config-blind_spot_example =
    user_config-blind_spot document first_of first address first_entry (7 ∷ []) 200 refl refl
      shown.0 refl (omega arith)

written-Document : Document document [] 8 written
unfolding is_member member_of number_of
written-Document = record {
  doc = top;
  parsed = refl;
  has_summary = refl;
  summary = summary;
  summary_at = refl;
  summary_object = refl;
  has_type = refl;
  type_value = number 8;
  type_at = refl;
  type_uint = refl;
  type_number = refl;
  has_configs = refl;
  configs = entries;
  configs_at = refl;
  configs_array = refl;
  values = first ∷ second ∷ [];
  configs_values = refl;
  shown = shown;
}

abbrev file : List ℕ → Option (List ℕ)
file path = some []

abbrev sdk : Sdk
sdk = record { init_succeeds = λ path. true; listen_id = 3 }

init_lds_lidar_lem_example :
    (self : LdsLidar) × (started : Started) × (lds_lidar 0x4024000000000000 cache_index ≡ ok self)
    × (init_lds_lidar document first_of file sdk number_unit [] self publisher ≡ ok started)
    × IsStarted document first_of file sdk number_unit [] 0x4024000000000000
        (configs_of first_of written)
        started
unfolding configs_of config_of is_livox
init_lds_lidar_lem_example =
    init_lds_lidar_lem document first_of file sdk number_unit 0x4024000000000000 publisher [] [] 8
      written refl written-Document refl refl (omega arith) (omega arith)

-- The configuration of the first entry asks for the blind spot only.
abbrev seven : UserLivoxLidarConfig
seven = record {
  handle = 7;
  pcl_data_type = minus_one8;
  pattern_mode = minus_one8;
  blind_spot_set = cast8_to_32 200;
  dual_emit_en = minus_one8;
  extrinsic_param = record { roll = 0; pitch = 0; yaw = 0; x = 5; y = 0; z = 0 };
  set_bits = 0;
  get_bits = 0;
}

abbrev replies : List Reply
replies =
    record { setting = blind_spot; status = timeout; response = none }
    ∷ record { setting = blind_spot; status = success; response = none }
    ∷ []

covered : (c : Setting) → asked seven c ≡ true → has c (blind_spot ∷ []) ≡ true
covered data_type e = cc
covered scan_pattern e = cc
covered blind_spot e = refl
covered dual_emit e = cc

started_then_sampled_example :
    (self : LdsLidar) × (started : Started) × (s1 s2 : Lds) × (calls : List SdkCall) × (index : ℕ)
    × (lidar : LidarDevice) × (lds_lidar 0x4024000000000000 cache_index ≡ ok self)
    × (init_lds_lidar document first_of file sdk number_unit [] self publisher ≡ ok started)
    × (started.returned ≡ true)
    × (lidar_info_change_callback 7 (some started.source.lds) ≡ ok (some s1, calls))
    × (run_replies 7 replies (some s1) ≡ ok (some s2))
    × (get_index livox_lidar_type 7 s2.cache ≡ some index)
    × (get_elem? s2.lidars index ≡ some lidar)
    × (lidar.connect_state ≡ sampling)
unfolding configs_of config_of is_livox
started_then_sampled_example =
    started_then_sampled document first_of file sdk number_unit 0x4024000000000000 publisher [] [] 8
      0 written seven replies refl written-Document refl refl (omega arith) (omega arith) refl
      (tt, (tt, tt)) covered

-- 200.0, which is clamped.
abbrev params : Parameters
params = record {
  xfer_format = 1;
  data_src = 0;
  publish_freq = 0x4069000000000000;
  output_data_type = 0;
  frame_id = [];
  user_config_path = [];
}

driver_node_lem_example :
    (node : DriverNode) × (driver_node document first_of file sdk ordered_unit cache_index publisher
        params
      ≡ ok node)
    × IsUp ordered_unit params written first_of node
unfolding configs_of config_of is_livox
driver_node_lem_example =
    driver_node_lem document first_of file sdk ordered_unit params publisher [] 8 written
      ordered_unit-IsOrdered refl refl written-Document refl refl (omega arith) (omega arith)
