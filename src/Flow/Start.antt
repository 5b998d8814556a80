-- ===== src/Flow/Start.antt =====
-- From the configuration file to the sampling of a lidar: the source is started, the lidar connects
-- and answers.
use livox_mid360_rko_lio_ros.Base.{
  ℕ, zero, suc, ◌≤◌, ◌≡◌, refl, sym, ap, subst, ◌∙◌, true, some, none, List, [], ◌∷◌, ◌++◌, length,
  get_elem?, ok, Option,
}
use livox_mid360_rko_lio_ros.Comm.{livox_lidar_type, sampling, UserLivoxLidarConfig}
use livox_mid360_rko_lio_ros.Comm.Float.{FloatUnit}
use livox_mid360_rko_lio_ros.CacheIndex.{get_index, cache_index}
use livox_mid360_rko_lio_ros.Lds.{LidarDevice, Lds}
use livox_mid360_rko_lio_ros.Publish.{PubHandler}
use livox_mid360_rko_lio_ros.Config.{Json, cast8}
use livox_mid360_rko_lio_ros.Config.Entries.{Entry, map_or, configs_of, config_of}
use livox_mid360_rko_lio_ros.Config.Summary.{Document}
use livox_mid360_rko_lio_ros.LdsLidar.{Sdk, LdsLidar, Started, lds_lidar, is_livox, init_lds_lidar}
use livox_mid360_rko_lio_ros.LdsLidar.Fill.{Distinct, Configured, AllConfigured}
use livox_mid360_rko_lio_ros.LdsLidar.Start.{init_lds_lidar_lem}
use livox_mid360_rko_lio_ros.Callback.{SdkCall, lidar_info_change_callback}
use livox_mid360_rko_lio_ros.Callback.Bits.{Setting}
use livox_mid360_rko_lio_ros.Callback.Settings.{asked, has}
use livox_mid360_rko_lio_ros.Callback.Replies.{
  Reply, AllAnswer, confirmed, run_replies, connected_then_sampled,
}

of_all_configs :
    (cs : List UserLivoxLidarConfig) (k : ℕ) (c : UserLivoxLidarConfig) (s : Lds) (p : PubHandler)
    → AllConfigured cs s p
    → get_elem? cs k ≡ some c
    → Configured c s p
of_all_configs [] k c s p all at = cc
of_all_configs (d ∷ cs) zero c s p all at =
    let same : d ≡ c = cc in subst (λ x. Configured x s p) same all.0
of_all_configs (d ∷ cs) (suc k) c s p all at = of_all_configs cs k c s p all.1 at

-- A configuration of the file has no bit set.
AreUnset : List UserLivoxLidarConfig → Type 0
AreUnset cs = (k : ℕ) (c : UserLivoxLidarConfig) → get_elem? cs k ≡ some c → c.set_bits ≡ 0

cons-AreUnset :
    (c : UserLivoxLidarConfig) (cs : List UserLivoxLidarConfig)
    → c.set_bits ≡ 0
    → AreUnset cs
    → AreUnset (c ∷ cs)
unfolding AreUnset
cons-AreUnset c cs unset others zero d at =
    let same : c ≡ d = cc in subst (λ (x : UserLivoxLidarConfig). x.set_bits ≡ 0) same unset
cons-AreUnset c cs unset others (suc k) d at = others k d at

entry-AreUnset :
    (inet_addr : List ℕ → ℕ) (ip : Option (List ℕ)) (e : Entry) (cs : List UserLivoxLidarConfig)
    → AreUnset cs
    → AreUnset (map_or [] (λ text. config_of (inet_addr text) e ∷ []) ip ++ cs)
unfolding config_of
entry-AreUnset inet_addr none e cs others = others
entry-AreUnset inet_addr (some text) e cs others =
    cons-AreUnset (config_of (inet_addr text) e) cs refl others

configs_of-AreUnset :
    (inet_addr : List ℕ → ℕ) (es : List Entry) → AreUnset (configs_of inet_addr es)
unfolding AreUnset configs_of
configs_of-AreUnset inet_addr [] = λ k c at. cc
configs_of-AreUnset inet_addr (e ∷ es) =
    entry-AreUnset inet_addr e.ip e (configs_of inet_addr es) (configs_of-AreUnset inet_addr es)

module _ {Value : Type 0} (json : Json Value) (inet_addr : List ℕ → ℕ)
    (file : List ℕ → Option (List ℕ)) (sdk : Sdk) (fu : FloatUnit) where
  -- From the constructor with an empty index cache, and a configuration file as for InitLdsLidar,
  -- for each of its configurations: if the SDK starts, InitLdsLidar returns true; the connection
  -- of the lidar of the configuration, and then replies, in any order and among timeouts and
  -- failures with a response, that confirm each setting that the configuration asks for, do not
  -- fail, and the lidar then has an index whose device is sampled.
  pub started_then_sampled :
      (publish_freq : ℕ) (p : PubHandler) (path bytes : List ℕ) (n k : ℕ) (es : List Entry)
      (c : UserLivoxLidarConfig) (rs : List Reply)
      → file path ≡ some bytes
      → Document json bytes n es
      → is_livox json inet_addr file sdk (cast8 n) ≡ true
      → sdk.init_succeeds path ≡ true
      → length (configs_of inet_addr es) ≤ 32
      → Distinct (configs_of inet_addr es)
      → get_elem? (configs_of inet_addr es) k ≡ some c
      → AllAnswer rs
      → ((setting : Setting) → asked c setting ≡ true → has setting (confirmed rs) ≡ true)
      → (self : LdsLidar) × (started : Started) × (s1 s2 : Lds) × (calls : List SdkCall)
        × (index : ℕ) × (lidar : LidarDevice) × (lds_lidar publish_freq cache_index ≡ ok self)
        × (init_lds_lidar json inet_addr file sdk fu path self p ≡ ok started)
        × (started.returned ≡ true)
        × (lidar_info_change_callback c.handle (some started.source.lds) ≡ ok (some s1, calls))
        × (run_replies c.handle rs (some s1) ≡ ok (some s2))
        × (get_index livox_lidar_type c.handle s2.cache ≡ some index)
        × (get_elem? s2.lidars index ≡ some lidar)
        × (lidar.connect_state ≡ sampling)
  unfolding AreUnset
  started_then_sampled publish_freq p path bytes n k es c rs at d livox good few distinct here
        answer covered =
      let (self, started, made, begun, up) =
        init_lds_lidar_lem json inet_addr file sdk fu publish_freq p path bytes n es at d livox good
          few distinct in
      let known =
        of_all_configs (configs_of inet_addr es) k c started.source.lds started.publisher
          up.configured here in
      let unset : known.device.livox_config.set_bits ≡ 0 =
        ap (λ (x : UserLivoxLidarConfig). x.set_bits) known.config
        ∙ configs_of-AreUnset inet_addr es k c here in
      let covered' : (setting : Setting)
          → asked known.device.livox_config setting ≡ true
          → has setting (confirmed rs) ≡ true =
        subst
          (λ x. (setting : Setting) → asked x setting ≡ true → has setting (confirmed rs) ≡ true)
          (sym known.config) covered in
      let (s1, s2, calls, lidar, connected, replied, indexed, stored, sampled) =
        connected_then_sampled c.handle known.index rs known.device started.source.lds known.known
          known.stored unset answer covered' in
      (
        self, started, s1, s2, calls, known.index, lidar, made, begun, up.returned, connected,
        replied, indexed, stored, sampled,
      )
