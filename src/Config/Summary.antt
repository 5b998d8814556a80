-- ===== src/Config/Summary.antt =====
-- A whole configuration document: its summary and its entries.
use livox_mid360_rko_lio_ros.Base.{ℕ, ◌≡◌, refl, true, false, some, List, ok}
use livox_mid360_rko_lio_ros.Comm.{UserLivoxLidarConfig}
use livox_mid360_rko_lio_ros.Config.Names.{Name}
use livox_mid360_rko_lio_ros.Config.{
  Json, cast8, parse, parse_summary_info, summary_of, object_of, type_of,
}
use livox_mid360_rko_lio_ros.Config.Entries.{Entry, AllShow, outcome_of, parse_lem}

-- The bytes of a configuration file hold a document with this lidar type and these entries.
pub record Document {Value : Type 0} (json : Json Value) (bytes : List ℕ) (lidar_type : ℕ)
    (es : List Entry) : Type 0 where
  pub doc : Value
  pub parsed : json.parse_stream bytes ≡ some doc
  pub has_summary : json.has_member doc Name.lidar_summary_info ≡ ok true
  pub summary : Value
  pub summary_at : json.member doc Name.lidar_summary_info ≡ ok summary
  pub summary_object : json.is_object summary ≡ true
  pub has_type : json.has_member summary Name.lidar_type ≡ ok true
  pub type_value : Value
  pub type_at : json.member summary Name.lidar_type ≡ ok type_value
  pub type_uint : json.is_uint type_value ≡ true
  pub type_number : json.get_uint type_value ≡ ok lidar_type
  pub has_configs : json.has_member doc Name.lidar_configs ≡ ok true
  pub configs : Value
  pub configs_at : json.member doc Name.lidar_configs ≡ ok configs
  pub configs_array : json.is_array configs ≡ true
  pub values : List Value
  pub configs_values : json.get_array configs ≡ ok values
  pub shown : AllShow json values es

module _ {Value : Type 0} (json : Json Value) where
  pub parse_summary_info_lem :
      (bytes : List ℕ) (n before : ℕ) (es : List Entry)
      → Document json bytes n es
      → parse_summary_info json (some bytes) before
        ≡ ok (record { returned = true; left_open = false; result = cast8 n })
  unfolding parse_summary_info summary_of object_of type_of
  parse_summary_info_lem bytes n before es d =
      rw
        (
          d.parsed, parse_summary_info, d.has_summary, summary_of, d.summary_at, d.summary_object,
          d.has_type, d.type_at, d.type_uint, d.type_number,
        )
        refl

  pub parse-Document :
      (inet_addr : List ℕ → ℕ) (bytes : List ℕ) (before : List UserLivoxLidarConfig) (n : ℕ)
      (es : List Entry)
      → Document json bytes n es
      → parse json inet_addr (some bytes) before ≡ ok (outcome_of json inet_addr es)
  parse-Document inet_addr bytes before n es d =
      parse_lem json inet_addr bytes before d.doc d.configs d.values es d.parsed d.has_configs
        d.configs_at d.configs_array d.configs_values d.shown
