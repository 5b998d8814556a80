-- ===== src/Callback/Settings.antt =====
-- When a configured lidar starts to be sampled: once each setting that was requested of it has been
-- confirmed, in whatever order, and not before.
use livox_mid360_rko_lio_ros.Base.{
  ℕ, ◌-◌, ◌^◌, ◌≤◌, ◌<◌, ◌≡◌, ◌≢◌, refl, ap, ◌∙◌, bit_and, Bool, true, false, not, ◌||◌, List, [],
  ◌∷◌, ◌==◌, arith, if◌then◌else◌,
}
use livox_mid360_rko_lio_ros.Comm.{sampling, UserLivoxLidarConfig, minus_one8, minus_one32}
use livox_mid360_rko_lio_ros.Lds.{LidarDevice}
use livox_mid360_rko_lio_ros.Callback.{acknowledge, configure, request_settings}
use livox_mid360_rko_lio_ros.Callback.Bits.{
  Setting, data_type, scan_pattern, blind_spot, dual_emit, bit_of, pending, same_setting,
  none_pending, pending-clear, pending_zero,
}

-- The configuration asks for the setting.
abbrev pub asked : UserLivoxLidarConfig → Setting → Bool
asked c data_type = not (c.pcl_data_type == minus_one8)
asked c scan_pattern = not (c.pattern_mode == minus_one8)
asked c blind_spot = not (c.blind_spot_set == minus_one32)
asked c dual_emit = not (c.dual_emit_en == minus_one8)

abbrev pub has : Setting → List Setting → Bool
has c [] = false
has c (b ∷ bs) = same_setting b c || has c bs

-- The device after the settings were confirmed, in order.
unfoldable pub acknowledge_all : List Setting → LidarDevice → LidarDevice
acknowledge_all [] lidar = lidar
acknowledge_all (b ∷ bs) lidar = acknowledge_all bs (acknowledge (bit_of b) lidar)

pending_le : (w : ℕ) (c : Setting) → pending w c ≤ 1
pending_le w data_type = omega arith
pending_le w c = omega arith

-- `set_bits` is below 16, and the device is sampled if it is 0.
pub record Tracks (lidar : LidarDevice) : Type 0 where
  pub small : lidar.livox_config.set_bits < 16
  pub done : lidar.livox_config.set_bits ≡ 0 → lidar.connect_state ≡ sampling

acknowledge-Tracks :
    (b : Setting) (lidar : LidarDevice)
    → lidar.livox_config.set_bits < 16
    → Tracks (acknowledge (bit_of b) lidar)
unfolding acknowledge
acknowledge-Tracks b lidar h = record {
  small = (pending-clear b b lidar.livox_config.set_bits h).0;
  done = λ e. ground arith;
}

pending-acknowledge :
    (b c : Setting) (lidar : LidarDevice)
    → lidar.livox_config.set_bits < 16
    → pending (acknowledge (bit_of b) lidar).livox_config.set_bits c
      ≡ (if same_setting b c then 0 else pending lidar.livox_config.set_bits c)
unfolding acknowledge
pending-acknowledge b c lidar h = (pending-clear b c lidar.livox_config.set_bits h).1

-- Confirmations in any order, and more than once, end with the device sampled if they cover what is
-- pending.
acknowledge_all_done :
    (bs : List Setting) (lidar : LidarDevice)
    → Tracks lidar
    → ((c : Setting) → pending lidar.livox_config.set_bits c ≡ 1 → has c bs ≡ true)
    → (acknowledge_all bs lidar).connect_state ≡ sampling
unfolding acknowledge_all
acknowledge_all_done [] lidar t covered = t.done (
    none_pending lidar.livox_config.set_bits t.small
      (λ c. ground (arith, covered c, pending_le lidar.livox_config.set_bits c)))
acknowledge_all_done (b ∷ bs) lidar t covered =
    acknowledge_all_done bs (acknowledge (bit_of b) lidar) (acknowledge-Tracks b lidar t.small)
      (λ c e. ground (arith, covered c, pending-acknowledge b c lidar t.small))

acknowledge_waits :
    (b c : Setting) (lidar : LidarDevice)
    → lidar.livox_config.set_bits < 16
    → pending lidar.livox_config.set_bits c ≡ 1
    → same_setting b c ≡ false
    → (acknowledge (bit_of b) lidar).connect_state ≡ lidar.connect_state
unfolding acknowledge
acknowledge_waits b c lidar h p other =
    let left : bit_and lidar.livox_config.set_bits (2 ^ 32 - 1 - bit_of b) ≢ 0 = λ e. grind (
      arith,
      (pending-clear b c lidar.livox_config.set_bits h).1,
      ap (λ t. pending t c) e,
      pending_zero c,
      other,
      p,
    ) in
    ground arith

-- While one setting is pending the device's state stays as it is.
acknowledge_all_waits :
    (bs : List Setting) (c : Setting) (lidar : LidarDevice)
    → lidar.livox_config.set_bits < 16
    → pending lidar.livox_config.set_bits c ≡ 1
    → has c bs ≡ false
    → (acknowledge_all bs lidar).connect_state ≡ lidar.connect_state
unfolding acknowledge_all
acknowledge_all_waits [] c lidar h p missing = refl
acknowledge_all_waits (b ∷ bs) c lidar h p missing =
    let other : same_setting b c ≡ false = ground arith in
    acknowledge_all_waits bs c (acknowledge (bit_of b) lidar) (acknowledge-Tracks b lidar h).small
      (ground (arith, pending-acknowledge b c lidar h)) (ground arith)
    ∙ acknowledge_waits b c lidar h p other

-- What `LidarInfoChangeCallback` asks for is what is pending afterwards.
pending-request_settings :
    (handle : ℕ) (config : UserLivoxLidarConfig) (c : Setting)
    → config.set_bits ≡ 0
    → ((request_settings handle config).0 < 16)
      × (pending (request_settings handle config).0 c ≡ (if asked config c then 1 else 0))
unfolding request_settings
pending-request_settings handle config data_type e = ground arith
pending-request_settings handle config c e = ground arith

configure-Tracks :
    (handle : ℕ) (lidar : LidarDevice)
    → lidar.livox_config.set_bits ≡ 0
    → Tracks (configure handle lidar).0
unfolding configure
configure-Tracks handle lidar e = record {
  small = (pending-request_settings handle lidar.livox_config data_type e).0;
  done = λ z. ground arith;
}

pending-configure :
    (handle : ℕ) (lidar : LidarDevice) (c : Setting)
    → lidar.livox_config.set_bits ≡ 0
    → pending (configure handle lidar).0.livox_config.set_bits c
      ≡ (if asked lidar.livox_config c then 1 else 0)
unfolding configure
pending-configure handle lidar c e = (pending-request_settings handle lidar.livox_config c e).1

configure_waits :
    (handle : ℕ) (c : Setting) (lidar : LidarDevice)
    → pending (configure handle lidar).0.livox_config.set_bits c ≡ 1
    → (configure handle lidar).0.connect_state ≡ lidar.connect_state
unfolding configure
configure_waits handle c lidar p =
    let left : (request_settings handle lidar.livox_config).0 ≢ 0 =
      λ e. grind (arith, ap (λ t. pending t c) e, pending_zero c, p) in
    ground arith

-- A lidar from the configuration is sampled once each setting that the configuration asks for has
-- been confirmed, in any order and with repetitions; at once if it asks for none.
pub sampled_after_all :
    (handle : ℕ) (bs : List Setting) (lidar : LidarDevice)
    → lidar.livox_config.set_bits ≡ 0
    → ((c : Setting) → asked lidar.livox_config c ≡ true → has c bs ≡ true)
    → (acknowledge_all bs (configure handle lidar).0).connect_state ≡ sampling
sampled_after_all handle bs lidar e covered =
    acknowledge_all_done bs (configure handle lidar).0 (configure-Tracks handle lidar e)
      (λ c p. ground (arith, covered c, pending-configure handle lidar c e))

-- As long as one setting that the configuration asks for is not confirmed, a lidar that started
-- with no bit set keeps the state that it had.
pub not_sampled_before :
    (handle : ℕ) (bs : List Setting) (c : Setting) (lidar : LidarDevice)
    → lidar.livox_config.set_bits ≡ 0
    → asked lidar.livox_config c ≡ true
    → has c bs ≡ false
    → (acknowledge_all bs (configure handle lidar).0).connect_state ≡ lidar.connect_state
not_sampled_before handle bs c lidar e wanted missing =
    let p : pending (configure handle lidar).0.livox_config.set_bits c ≡ 1 =
      ground (arith, pending-configure handle lidar c e) in
    acknowledge_all_waits bs c (configure handle lidar).0 (configure-Tracks handle lidar e).small p
      missing
    ∙ configure_waits handle c lidar p
