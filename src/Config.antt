-- ===== src/Config.antt =====
-- parse_cfg_file/parse_cfg_file.cpp and parse_cfg_file/parse_livox_lidar_cfg.cpp: the configuration
-- file, read by rapidjson, which is the interface `Json` over its type of values. A call that rapidjson
-- asserts against, such as the string of a number, is a fault. `file` is what the path leads to: the
-- bytes, or `none` if it cannot be opened; `inet_addr` is the system's.
pub mod Names
pub mod Entries
pub mod Summary
use livox_mid360_rko_lio_ros.Base.{
  ℕ, ◌+◌, ◌-◌, ◌%◌, ◌^◌, Bool, true, false, not, Option, none, some, List, [], ◌∷◌, ◌++◌, ltb,
  if◌then◌else◌, Outcome, ok, ◌>>=◌,
}
use livox_mid360_rko_lio_ros.Comm.{ExtParameter, UserLivoxLidarConfig, minus_one8, minus_one32}
use livox_mid360_rko_lio_ros.Comm.Float.{f_zero}
use livox_mid360_rko_lio_ros.Config.Names.{Name}

-- What is used of rapidjson: ParseStream (`none` is HasParseError), HasMember, operator[], IsArray,
-- IsObject, IsUint, GetArray, GetUint, GetInt, GetFloat and GetString. A number is its bit pattern.
pub record Json (Value : Type 0) : Type 0 where
  pub parse_stream : List ℕ → Option Value
  pub has_member : Value → Name → Outcome Bool
  pub member : Value → Name → Outcome Value
  pub is_array : Value → Bool
  pub is_object : Value → Bool
  pub is_uint : Value → Bool
  pub get_array : Value → Outcome (List Value)
  pub get_uint : Value → Outcome ℕ
  pub get_int : Value → Outcome ℕ
  pub get_float : Value → Outcome ℕ
  pub get_string : Value → Outcome (List ℕ)

-- static_cast<int8_t> and static_cast<uint8_t> of an int, and the former stored in an int32_t.
abbrev pub cast8 : ℕ → ℕ
cast8 v = v % 2 ^ 8

pub cast8_to_32 : ℕ → ℕ
cast8_to_32 v = if ltb (cast8 v) (2 ^ 7) then cast8 v else cast8 v + (2 ^ 32 - 2 ^ 8)

-- `memset(&param, 0, sizeof(param))`
abbrev pub zero_parameter : ExtParameter
zero_parameter = record { roll = 0; pitch = 0; yaw = 0; x = 0; y = 0; z = 0 }

-- A parser's return value, whether it leaves the file open, and what it has filled in.
pub record Parsed (A : Type 0) : Type 0 where
  pub returned : Bool
  pub left_open : Bool
  pub result : A

-- It fails, and has closed the file.
abbrev pub refused : {A : Type 0} → A → Outcome (Parsed A)
refused a = ok (record { returned = false; left_open = false; result = a })

module _ {Value : Type 0} (json : Json Value) where
  -- `if (!value.HasMember(name)) { default } else { read value[name] }`
  pub member_or : {A : Type 0} → Value → Name → A → (Value → Outcome A) → Outcome A
  member_or value name default read = do
    has ← json.has_member value name
    if has then (json.member value name >>= read) else ok default

  pub int8_of : Value → Outcome ℕ
  int8_of v = do n ← json.get_int v; ok (cast8 n)

  pub int32_of_int8 : Value → Outcome ℕ
  unfolding cast8_to_32
  int32_of_int8 v = do n ← json.get_int v; ok (cast8_to_32 n)

  pub parse_extrinsics : Value → Outcome ExtParameter
  unfolding member_or
  parse_extrinsics value = do
    roll ← member_or value Name.roll f_zero json.get_float
    pitch ← member_or value Name.pitch f_zero json.get_float
    yaw ← member_or value Name.yaw f_zero json.get_float
    x ← member_or value Name.x 0 json.get_int
    y ← member_or value Name.y 0 json.get_int
    z ← member_or value Name.z 0 json.get_int
    ok (record { roll = roll; pitch = pitch; yaw = yaw; x = x; y = y; z = z })

  module _ (inet_addr : List ℕ → ℕ) where
    -- The body of the loop of `ParseUserConfigs` for an entry with an address.
    pub user_config : Value → Outcome UserLivoxLidarConfig
    unfolding member_or int8_of int32_of_int8 parse_extrinsics
    user_config config = do
      address ← json.member config Name.ip
      text ← json.get_string address
      pcl_data_type ← member_or config Name.pcl_data_type minus_one8 int8_of
      pattern_mode ← member_or config Name.pattern_mode minus_one8 int8_of
      blind_spot_set ← member_or config Name.blind_spot_set minus_one32 int32_of_int8
      dual_emit_en ← member_or config Name.dual_emit_en minus_one8 int8_of
      extrinsic_param ← member_or config Name.extrinsic_parameter zero_parameter parse_extrinsics
      ok (record {
        handle = inet_addr text;
        pcl_data_type = pcl_data_type;
        pattern_mode = pattern_mode;
        blind_spot_set = blind_spot_set;
        dual_emit_en = dual_emit_en;
        extrinsic_param = extrinsic_param;
        set_bits = 0;
        get_bits = 0;
      })

    -- The loop of `ParseUserConfigs`.
    pub user_configs : List Value → Outcome (List UserLivoxLidarConfig)
    unfolding user_config
    user_configs [] = ok []
    user_configs (config ∷ rest) = do
      has ← json.has_member config Name.ip
      first ← (if has then (do c ← user_config config; ok (c ∷ [])) else ok [])
      others ← user_configs rest
      ok (first ++ others)

    -- With at least one entry it succeeds.
    pub parse_user_configs : List Value → Outcome (Bool × List UserLivoxLidarConfig)
    unfolding user_configs
    parse_user_configs values = do
      configs ← user_configs values
      ok (elim configs [ [] ↦ false | c ∷ cs ↦ true ], configs)

    -- `Parse` behind the three tests of the document.
    pub parse_entries : List Value → Outcome (Parsed (List UserLivoxLidarConfig))
    unfolding parse_user_configs
    parse_entries values = do
      (done, configs) ← parse_user_configs values
      ok (record { returned = done; left_open = done; result = configs })

    pub parse_array : Value → Outcome (Parsed (List UserLivoxLidarConfig))
    unfolding parse_entries
    parse_array value =
        if json.is_array value
        then (do
          values ← json.get_array value
          elim values [ [] ↦ refused [] | v ∷ vs ↦ parse_entries (v ∷ vs) ])
        else refused []

    pub parse_document : Value → Outcome (Parsed (List UserLivoxLidarConfig))
    unfolding parse_array
    parse_document doc = do
      has ← json.has_member doc Name.lidar_configs
      if has then (json.member doc Name.lidar_configs >>= parse_array) else refused []

    -- `Parse`: a success leaves the file open.
    pub parse :
        Option (List ℕ) → List UserLivoxLidarConfig → Outcome (Parsed (List UserLivoxLidarConfig))
    unfolding parse_document
    parse none before = refused before
    parse (some bytes) before = elim (json.parse_stream bytes) [
      | none ↦ refused []
      | some doc ↦ parse_document doc
    ]

  -- The lidar type of a summary, and the summary of a document.
  pub type_of : ℕ → Value → Outcome (Parsed ℕ)
  type_of before v =
      if json.is_uint v
      then (do
        n ← json.get_uint v
        ok (record { returned = true; left_open = false; result = cast8 n }))
      else refused before

  pub object_of : ℕ → Value → Outcome (Parsed ℕ)
  unfolding type_of
  object_of before object =
      if json.is_object object
      then (do
        typed ← json.has_member object Name.lidar_type
        if typed then (json.member object Name.lidar_type >>= type_of before) else refused before)
      else refused before

  pub summary_of : Value → ℕ → Outcome (Parsed ℕ)
  unfolding object_of
  summary_of doc before = do
    has ← json.has_member doc Name.lidar_summary_info
    if has then (json.member doc Name.lidar_summary_info >>= object_of before) else refused before

  -- `ParseSummaryInfo`, on the lidar type that was there before.
  pub parse_summary_info : Option (List ℕ) → ℕ → Outcome (Parsed ℕ)
  unfolding summary_of
  parse_summary_info none before = refused before
  parse_summary_info (some bytes) before = elim (json.parse_stream bytes) [
    | none ↦ refused before
    | some doc ↦ summary_of doc before
  ]
