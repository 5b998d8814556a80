-- ===== src/Config/Entries.antt =====
-- What the entries of a configuration file become.
use livox_mid360_rko_lio_ros.Base.{
  ℕ, ◌^◌, ◌<◌, ◌≡◌, ◌↔◌, refl, sym, ap, subst, Bool, true, false, Option, none, some, List, [], ◌∷◌,
  ◌++◌, arith, Outcome, ok,
}
use livox_mid360_rko_lio_ros.Comm.{ExtParameter, UserLivoxLidarConfig, minus_one8, minus_one32}
use livox_mid360_rko_lio_ros.Config.Names.{Name}
use livox_mid360_rko_lio_ros.Config.{
  Json, Parsed, cast8, cast8_to_32, zero_parameter, member_or, int8_of, int32_of_int8,
  parse_extrinsics, user_config, user_configs, parse_user_configs, parse_entries, parse_document,
  parse_array, parse,
}

-- An entry as it is written: a member may be missing.
pub record Extrinsic : Type 0 where
  pub roll : Option ℕ
  pub pitch : Option ℕ
  pub yaw : Option ℕ
  pub x : Option ℕ
  pub y : Option ℕ
  pub z : Option ℕ

pub record Entry : Type 0 where
  pub ip : Option (List ℕ)
  pub pcl_data_type : Option ℕ
  pub pattern_mode : Option ℕ
  pub blind_spot_set : Option ℕ
  pub dual_emit_en : Option ℕ
  pub extrinsic_parameter : Option Extrinsic

abbrev pub map_or : {A B : Type 0} → B → (A → B) → Option A → B
map_or d f none = d
map_or d f (some a) = f a

abbrev pub parameter_of : Extrinsic → ExtParameter
parameter_of e = record {
  roll = map_or 0 (λ n. n) e.roll;
  pitch = map_or 0 (λ n. n) e.pitch;
  yaw = map_or 0 (λ n. n) e.yaw;
  x = map_or 0 (λ n. n) e.x;
  y = map_or 0 (λ n. n) e.y;
  z = map_or 0 (λ n. n) e.z;
}

-- The settings of an entry with the address `ip`, where the system reads the address as `handle`.
unfoldable pub config_of : ℕ → Entry → UserLivoxLidarConfig
config_of handle e = record {
  handle = handle;
  pcl_data_type = map_or minus_one8 cast8 e.pcl_data_type;
  pattern_mode = map_or minus_one8 cast8 e.pattern_mode;
  blind_spot_set = map_or minus_one32 cast8_to_32 e.blind_spot_set;
  dual_emit_en = map_or minus_one8 cast8 e.dual_emit_en;
  extrinsic_param = map_or zero_parameter parameter_of e.extrinsic_parameter;
  set_bits = 0;
  get_bits = 0;
}

-- Those of the entries with an address, in order.
unfoldable pub configs_of : (List ℕ → ℕ) → List Entry → List UserLivoxLidarConfig
configs_of inet_addr [] = []
configs_of inet_addr (e ∷ es) =
    map_or [] (λ ip. config_of (inet_addr ip) e ∷ []) e.ip ++ configs_of inet_addr es

abbrev pub is_nonempty : List UserLivoxLidarConfig → Bool
is_nonempty [] = false
is_nonempty (c ∷ cs) = true

module _ {Value : Type 0} (json : Json Value) where
  -- The value has a member of this name that shows `a`, or has none.
  abbrev pub Member : {A : Type 0} → (Value → A → Type 0) → Value → Name → Option A → Type 0
  Member Shown v name none = json.has_member v name ≡ ok false
  Member Shown v name (some a) =
      (json.has_member v name ≡ ok true) × (m : Value) × (json.member v name ≡ ok m) × Shown m a

  abbrev pub IsInt : Value → ℕ → Type 0
  IsInt m n = json.get_int m ≡ ok n

  abbrev pub IsFloat : Value → ℕ → Type 0
  IsFloat m n = json.get_float m ≡ ok n

  abbrev pub IsString : Value → List ℕ → Type 0
  IsString m t = json.get_string m ≡ ok t

  pub record ShowsExtrinsic (v : Value) (e : Extrinsic) : Type 0 where
    pub roll : Member IsFloat v Name.roll e.roll
    pub pitch : Member IsFloat v Name.pitch e.pitch
    pub yaw : Member IsFloat v Name.yaw e.yaw
    pub x : Member IsInt v Name.x e.x
    pub y : Member IsInt v Name.y e.y
    pub z : Member IsInt v Name.z e.z

  -- The document's value `v` is the entry `e`.
  pub record Shows (v : Value) (e : Entry) : Type 0 where
    pub ip : Member IsString v Name.ip e.ip
    pub pcl_data_type : Member IsInt v Name.pcl_data_type e.pcl_data_type
    pub pattern_mode : Member IsInt v Name.pattern_mode e.pattern_mode
    pub blind_spot_set : Member IsInt v Name.blind_spot_set e.blind_spot_set
    pub dual_emit_en : Member IsInt v Name.dual_emit_en e.dual_emit_en
    pub extrinsic_parameter : Member ShowsExtrinsic v Name.extrinsic_parameter e.extrinsic_parameter

  abbrev pub AllShow : List Value → List Entry → Type 0
  AllShow [] [] = Unit {0}
  AllShow [] (e ∷ es) = ⊥
  AllShow (v ∷ vs) [] = ⊥
  AllShow (v ∷ vs) (e ∷ es) = Shows v e × AllShow vs es

  member_or_lem :
      {A B : Type 0} (Shown : Value → A → Type 0) (v : Value) (name : Name) (default : B)
      (read : Value → Outcome B) (f : A → B) (o : Option A)
      → ((m : Value) (a : A) → Shown m a → read m ≡ ok (f a))
      → Member Shown v name o
      → member_or json v name default read ≡ ok (map_or default f o)
  unfolding member_or
  member_or_lem Shown v name default read f none reads absent = rw absent refl
  member_or_lem Shown v name default read f (some a) reads (has, m, at, shown) =
      rw (has, at) (reads m a shown)

  int8_lem : (m : Value) (n : ℕ) → IsInt m n → int8_of json m ≡ ok (cast8 n)
  unfolding int8_of
  int8_lem m n e = rw e refl

  int32_lem : (m : Value) (n : ℕ) → IsInt m n → int32_of_int8 json m ≡ ok (cast8_to_32 n)
  unfolding int32_of_int8
  int32_lem m n e = rw e refl

  parse_extrinsics_lem :
      (v : Value) (e : Extrinsic)
      → ShowsExtrinsic v e
      → parse_extrinsics json v ≡ ok (parameter_of e)
  unfolding parse_extrinsics
  parse_extrinsics_lem v e s =
      let er =
        member_or_lem IsFloat v Name.roll 0 json.get_float (λ n. n) e.roll (λ m a h. h) s.roll in
      let ep =
        member_or_lem IsFloat v Name.pitch 0 json.get_float (λ n. n) e.pitch (λ m a h. h) s.pitch in
      let ey =
        member_or_lem IsFloat v Name.yaw 0 json.get_float (λ n. n) e.yaw (λ m a h. h) s.yaw in
      let x = member_or_lem IsInt v Name.x 0 json.get_int (λ n. n) e.x (λ m a h. h) s.x in
      let y = member_or_lem IsInt v Name.y 0 json.get_int (λ n. n) e.y (λ m a h. h) s.y in
      let z = member_or_lem IsInt v Name.z 0 json.get_int (λ n. n) e.z (λ m a h. h) s.z in
      rw (er, ep, ey, x, y, z) refl

  module _ (inet_addr : List ℕ → ℕ) where
    user_config_lem :
        (v : Value) (e : Entry) (ip : List ℕ) (m : Value)
        → json.member v Name.ip ≡ ok m
        → json.get_string m ≡ ok ip
        → Shows v e
        → user_config json inet_addr v ≡ ok (config_of (inet_addr ip) e)
    unfolding user_config config_of
    user_config_lem v e ip m at text s =
        let pcl =
          member_or_lem IsInt v Name.pcl_data_type minus_one8 (int8_of json) cast8 e.pcl_data_type
            int8_lem s.pcl_data_type in
        let pattern =
          member_or_lem IsInt v Name.pattern_mode minus_one8 (int8_of json) cast8 e.pattern_mode
            int8_lem s.pattern_mode in
        let blind =
          member_or_lem IsInt v Name.blind_spot_set minus_one32 (int32_of_int8 json) cast8_to_32
            e.blind_spot_set int32_lem s.blind_spot_set in
        let dual =
          member_or_lem IsInt v Name.dual_emit_en minus_one8 (int8_of json) cast8 e.dual_emit_en
            int8_lem s.dual_emit_en in
        let extrinsic =
          member_or_lem ShowsExtrinsic v Name.extrinsic_parameter zero_parameter
            (parse_extrinsics json) parameter_of e.extrinsic_parameter parse_extrinsics_lem
            s.extrinsic_parameter in
        rw (at, text, pcl, pattern, blind, dual, extrinsic) refl

    one_entry :
        (v : Value) (e : Entry)
        → Shows v e
        → (o : Option (List ℕ)) → Member IsString v Name.ip o
        → (rest : List Value) (configs : List UserLivoxLidarConfig)
        → user_configs json inet_addr rest ≡ ok configs
        → user_configs json inet_addr (v ∷ rest)
          ≡ ok (map_or [] (λ ip. config_of (inet_addr ip) e ∷ []) o ++ configs)
    unfolding user_configs
    one_entry v e s none absent rest configs others = rw (absent, others) refl
    one_entry v e s (some ip) (has, m, at, text) rest configs others =
        rw (has, user_config_lem v e ip m at text s, others) refl

    user_configs_lem :
        (vs : List Value) (es : List Entry)
        → AllShow vs es
        → user_configs json inet_addr vs ≡ ok (configs_of inet_addr es)
    unfolding user_configs configs_of
    user_configs_lem [] [] all = refl
    user_configs_lem [] (e ∷ es) all = elim all [ ]
    user_configs_lem (v ∷ vs) [] all = elim all [ ]
    user_configs_lem (v ∷ vs) (e ∷ es) (s, all) =
        one_entry v e s e.ip s.ip vs (configs_of inet_addr es) (user_configs_lem vs es all)

    abbrev pub outcome_of : List Entry → Parsed (List UserLivoxLidarConfig)
    outcome_of es = record {
      returned = is_nonempty (configs_of inet_addr es);
      left_open = is_nonempty (configs_of inet_addr es);
      result = configs_of inet_addr es;
    }

    parse_entries_lem :
        (vs : List Value) (es : List Entry)
        → AllShow vs es
        → parse_entries json inet_addr vs ≡ ok (outcome_of es)
    unfolding parse_entries parse_user_configs
    parse_entries_lem vs es all = rw (user_configs_lem vs es all) refl

    parse_array_lem :
        (array : Value) (vs : List Value) (es : List Entry)
        → json.is_array array ≡ true
        → json.get_array array ≡ ok vs
        → AllShow vs es
        → parse_array json inet_addr array ≡ ok (outcome_of es)
    unfolding parse_array configs_of
    parse_array_lem array [] [] isarray elements all = rw (isarray, elements) refl
    parse_array_lem array [] (e ∷ es) isarray elements all = elim all [ ]
    parse_array_lem array (v ∷ vs) es isarray elements all =
        rw (isarray, elements) (parse_entries_lem (v ∷ vs) es all)

    -- For a file that parses to a document with an array of configurations, each of which shows an
    -- entry with its members or without them, LivoxLidarConfigParser::Parse fills in the
    -- configurations of the entries with an address, in order, with the defaults for what is
    -- missing; it returns true exactly if there is one, and then leaves the file open.
    pub parse_lem :
        (bytes : List ℕ) (before : List UserLivoxLidarConfig) (doc array : Value) (vs : List Value)
        (es : List Entry)
        → json.parse_stream bytes ≡ some doc
        → json.has_member doc Name.lidar_configs ≡ ok true
        → json.member doc Name.lidar_configs ≡ ok array
        → json.is_array array ≡ true
        → json.get_array array ≡ ok vs
        → AllShow vs es
        → parse json inet_addr (some bytes) before ≡ ok (outcome_of es)
    unfolding parse parse_document
    parse_lem bytes before doc array vs es parsed has at isarray elements all =
        rw
          (parsed, parse, has, parse_document, at, parse_array_lem array vs es isarray elements all)
          refl

cast8_to_32-eq : (n : ℕ) → n < 2 ^ 31 → (cast8_to_32 n ≡ n) ↔ (n < 128)
unfolding cast8_to_32
cast8_to_32-eq n h = ground arith

-- ParseUserConfigs reads from an entry with an address and a blind spot below 2^31, whatever other
-- members it has or lacks, a configuration without a fault, and it records the blind spot as it is
-- written exactly if that is below 128.
pub user_config-blind_spot :
    {Value : Type 0} (json : Json Value) (inet_addr : List ℕ → ℕ) (v m : Value) (e : Entry)
    (ip : List ℕ) (n : ℕ)
    → json.member v Name.ip ≡ ok m
    → json.get_string m ≡ ok ip
    → Shows json v e
    → e.blind_spot_set ≡ some n
    → n < 2 ^ 31
    → (c : UserLivoxLidarConfig) × (user_config json inet_addr v ≡ ok c)
      × ((c.blind_spot_set ≡ n) ↔ (n < 128))
unfolding config_of
user_config-blind_spot json inet_addr v m e ip n at text shows given small =
    let c = config_of (inet_addr ip) e in
    let recorded : c.blind_spot_set ≡ cast8_to_32 n = ap (map_or minus_one32 cast8_to_32) given in
    (
      c,
      user_config_lem json inet_addr v e ip m at text shows,
      subst (λ (b : ℕ). (b ≡ n) ↔ (n < 128)) (sym recorded) (cast8_to_32-eq n small),
    )
