-- ===== src/LdsLidar/Start.antt =====
-- From the constructor of the data source and the bytes of a configuration file to the device table.
use livox_mid360_rko_lio_ros.Base.{
  ℕ, zero, suc, ◌+◌, ◌-◌, ◌≤◌, ◌≡◌, refl, sym, replicate, get_elem?, ap, subst, if_false, ◌∙◌, true,
  false, Option, some, List, [], ◌∷◌, arith, length, ok, ◌>>=◌,
}
use livox_mid360_rko_lio_ros.Comm.{UserLivoxLidarConfig}
use livox_mid360_rko_lio_ros.Comm.Float.{FloatUnit}
use livox_mid360_rko_lio_ros.CacheIndex.{cache_index}
use livox_mid360_rko_lio_ros.CacheIndex.Valid.{cache_index-IsValid}
use livox_mid360_rko_lio_ros.Ldq.{null, de_init_queue}
use livox_mid360_rko_lio_ros.ImuQueue.{clear}
use livox_mid360_rko_lio_ros.Lds.{LidarDevice, Lds, reset_lds, reset_lidars, reset_lidar}
use livox_mid360_rko_lio_ros.Publish.{
  PubHandler, set_point_clouds_callback, set_imu_data_callback, set_point_cloud_config,
}
use livox_mid360_rko_lio_ros.Config.{Json, cast8}
use livox_mid360_rko_lio_ros.Config.Entries.{Entry, configs_of}
use livox_mid360_rko_lio_ros.Config.Summary.{Document, parse_summary_info_lem, parse-Document}
use livox_mid360_rko_lio_ros.LdsLidar.{
  zero_device, SdkCommand, disable_console_logger, sdk_init, set_info_change_callback, Sdk,
  LdsLidar, Started, new_lds, lds_lidar, init_livox_lidar, is_livox, init_lidars, start,
  set_lidar_pub_handle, finish_init, init_lds_lidar,
}
use livox_mid360_rko_lio_ros.LdsLidar.Fill.{Fits, Distinct, AllConfigured, fill_lem, taken}

-- The devices of the constructor have no queue.
new_unused :
    (n i : ℕ) (d : LidarDevice)
    → get_elem? (replicate n zero_device) i ≡ some d
    → d.points.storage_packet ≡ null
new_unused zero i d at = cc
new_unused (suc n) zero d at =
    let known : zero_device ≡ d = cc in
    ap (λ (x : LidarDevice). x.points.storage_packet) (sym known)
new_unused (suc n) (suc i) d at = new_unused n i d at

-- The constructor leaves an empty table.
pub lds_lidar_lem :
    (publish_freq : ℕ)
    → (self : LdsLidar) × (lds_lidar publish_freq cache_index ≡ ok self)
      × (self.is_initialized ≡ false)
      × Fits publish_freq 32 self.lds
unfolding lds_lidar new_lds reset_lds reset_lidars reset_lidar de_init_queue clear taken cache_index
lds_lidar_lem publish_freq = (
  _,
  refl,
  refl,
  record {
    count = refl;
    running = refl;
    published = refl;
    unused = new_unused 32;
    valid = cache_index-IsValid;
    devices = refl;
    room = omega arith;
  },
)

module _ {Value : Type 0} (json : Json Value) (inet_addr : List ℕ → ℕ)
    (file : List ℕ → Option (List ℕ)) (sdk : Sdk) (fu : FloatUnit) where
  abbrev commands : List ℕ → List SdkCommand
  commands path = disable_console_logger ∷ sdk_init path ∷ set_info_change_callback ∷ []

  init_livox_lidar_lem :
      (self : LdsLidar) (p : PubHandler) (bytes : List ℕ) (n freq extra : ℕ) (es : List Entry)
      → file self.path ≡ some bytes
      → Document json bytes n es
      → sdk.init_succeeds self.path ≡ true
      → Fits freq (length (configs_of inet_addr es) + extra) self.lds
      → Distinct (configs_of inet_addr es)
      → (started : Started) × (init_livox_lidar json inet_addr file sdk self p ≡ ok started)
        × (started.returned ≡ true)
        × (started.commands ≡ commands self.path)
        × AllConfigured (configs_of inet_addr es) started.source.lds started.publisher
        × Fits freq extra started.source.lds
  unfolding init_livox_lidar
  init_livox_lidar_lem self p bytes n freq extra es at d good fits distinct =
      let (s', p', filled, f', all, keep) =
        fill_lem (configs_of inet_addr es) freq extra self.lds p fits distinct in
      let started : Started = record {
        returned = true;
        source = record self { lds = s' };
        publisher = p';
        commands = commands self.path;
      } in
      (
        started,
        rw (at, parse-Document json inet_addr bytes [] n es d, good, filled) refl,
        refl,
        refl,
        all,
        f',
      )

  handle_keeps :
      (cs : List UserLivoxLidarConfig) (self : LdsLidar) (s : Lds) (p : PubHandler)
      → AllConfigured cs s p
      → AllConfigured cs s (set_lidar_pub_handle json inet_addr file sdk fu self p)
  unfolding set_lidar_pub_handle set_point_clouds_callback set_imu_data_callback
      set_point_cloud_config
  handle_keeps [] self s p all = tt
  handle_keeps (c ∷ cs) self s p (one, all) = (
    record {
      index = one.index;
      device = one.device;
      known = one.known;
      stored = one.stored;
      typed = one.typed;
      handled = one.handled;
      config = one.config;
      param = one.param;
    },
    handle_keeps cs self s p all,
  )

  init_lidars_lem :
      (self : LdsLidar) (p : PubHandler) (bytes : List ℕ) (n freq extra : ℕ) (es : List Entry)
      → file self.path ≡ some bytes
      → Document json bytes n es
      → is_livox json inet_addr file sdk (cast8 n) ≡ true
      → sdk.init_succeeds self.path ≡ true
      → Fits freq (length (configs_of inet_addr es) + extra) self.lds
      → Distinct (configs_of inet_addr es)
      → (started : Started) × (init_lidars json inet_addr file sdk self p ≡ ok started)
        × (started.returned ≡ true)
        × (started.commands ≡ commands self.path)
        × AllConfigured (configs_of inet_addr es) started.source.lds started.publisher
        × Fits freq extra started.source.lds
  unfolding init_lidars
  init_lidars_lem self p bytes n freq extra es at d livox good fits distinct =
      let self' : LdsLidar = record self { lidar_type = cast8 n } in
      let (started, e, r, commanded, all, fits') =
        init_livox_lidar_lem self' p bytes n freq extra es at d good fits distinct in
      (
        started,
        rw (at, parse_summary_info_lem json bytes n self.lidar_type es d, livox, e) refl,
        r,
        commanded,
        all,
        fits',
      )

  init_step :
      (path : List ℕ) (self : LdsLidar) (p : PubHandler) (started : Started)
      → self.is_initialized ≡ false
      → init_lidars json inet_addr file sdk (record self { path = path }) p ≡ ok started
      → init_lds_lidar json inet_addr file sdk fu path self p
        ≡ ok (finish_init json inet_addr file sdk fu started)
  unfolding init_lds_lidar
  init_step path self p started fresh e =
      if_false self.is_initialized _ _ fresh
      ∙ ap (λ o. o >>= λ begun. ok (finish_init json inet_addr file sdk fu begun)) e

  -- What a successful initialisation ends with.
  pub record IsStarted (path : List ℕ) (freq : ℕ) (cs : List UserLivoxLidarConfig)
      (started : Started) : Type 0 where
    pub returned : started.returned ≡ true
    pub initialized : started.source.is_initialized ≡ true
    pub commanded : started.commands ≡ commands path
    pub fits : Fits freq (32 - length cs) started.source.lds
    pub configured : AllConfigured cs started.source.lds started.publisher
    pub points_callback : started.publisher.points_callback ≡ true
    pub imu_callback : started.publisher.imu_callback ≡ true
    pub thread_started : started.publisher.thread_started ≡ true

  finish_lem :
      (path : List ℕ) (freq : ℕ) (cs : List UserLivoxLidarConfig) (started : Started)
      → started.returned ≡ true
      → started.commands ≡ commands path
      → AllConfigured cs started.source.lds started.publisher
      → Fits freq (32 - length cs) started.source.lds
      → IsStarted path freq cs (finish_init json inet_addr file sdk fu started)
  unfolding finish_init start set_lidar_pub_handle set_point_clouds_callback set_imu_data_callback
      set_point_cloud_config
  finish_lem path freq cs started r commanded all fits = record {
    fits = rw r fits;
    returned = rw r refl;
    initialized = rw r refl;
    commanded = rw r commanded;
    configured = rw r (handle_keeps cs started.source started.source.lds started.publisher all);
    points_callback = rw r refl;
    imu_callback = rw r refl;
    thread_started = rw r refl;
  }

  -- From the constructor with an empty index cache, and a configuration file that can be opened
  -- and whose document has a lidar type with the Livox bit and entries that come to at most 32
  -- configurations with different 32-bit handles: if the SDK starts, InitLdsLidar returns true and
  -- the source is initialized, having started the SDK with the file and set the callback for
  -- lidars; each configuration has an index whose device has its handle, the Livox type and the
  -- configuration, and its extrinsic parameters wait for its first packet; the callbacks for
  -- points and IMU samples are set and the thread of RawDataProcess runs; the index cache is
  -- valid, the 32 devices have no queue yet, no exit is requested and the publish frequency is the
  -- one given.
  pub init_lds_lidar_lem :
      (publish_freq : ℕ) (p : PubHandler) (path bytes : List ℕ) (n : ℕ) (es : List Entry)
      → file path ≡ some bytes
      → Document json bytes n es
      → is_livox json inet_addr file sdk (cast8 n) ≡ true
      → sdk.init_succeeds path ≡ true
      → length (configs_of inet_addr es) ≤ 32
      → Distinct (configs_of inet_addr es)
      → (self : LdsLidar) × (started : Started) × (lds_lidar publish_freq cache_index ≡ ok self)
        × (init_lds_lidar json inet_addr file sdk fu path self p ≡ ok started)
        × IsStarted path publish_freq (configs_of inet_addr es) started
  init_lds_lidar_lem publish_freq p path bytes n es at d livox good few distinct =
      let (self, made, fresh, room) = lds_lidar_lem publish_freq in
      let cs = configs_of inet_addr es in
      let extra : ℕ = 32 - length cs in
      let fits : Fits publish_freq (length cs + extra) self.lds =
        subst (λ k. Fits publish_freq k self.lds) (omega arith) room in
      let (started, e, r, commanded, all, fits') =
        init_lidars_lem (record self { path = path }) p bytes n publish_freq extra es at d livox
          good fits distinct in
      (
        self,
        finish_init json inet_addr file sdk fu started,
        made,
        init_step path self p started fresh e,
        finish_lem path publish_freq cs started r commanded all fits',
      )
