-- ===== src/Callback/Replies.antt =====
-- The replies of the SDK to the settings of one lidar, run through the callbacks.
use livox_mid360_rko_lio_ros.Base.{
  ℕ, ◌≡◌, ◌≢◌, ◌↔◌, ◌⊎◌, inl, inr, refl, sym, ap, ◌∙◌, true, false, Option, none, some, List, [],
  ◌∷◌, ◌++◌, ok, fault, ◌>>=◌, Outcome, get_elem?, get_elem?-set_self, get_elem?-set_ne,
  lt_of_get_elem?, if◌then◌else◌, ◌==◌,
}
use livox_mid360_rko_lio_ros.Comm.{livox_lidar_type, UserLivoxLidarConfig, sampling}
use livox_mid360_rko_lio_ros.CacheIndex.{get_index}
use livox_mid360_rko_lio_ros.Lds.{LidarDevice, Lds}
use livox_mid360_rko_lio_ros.Callback.{
  Client, Callback, SdkCall, set_pcl_data_type, set_scan_pattern, set_blind_spot, set_dual_emit,
  LivoxStatus, success, timeout, failed, AsyncControlResponse, get_lidar_device, put_device,
  acknowledge, setting_callback, set_data_type_callback, set_pattern_mode_callback,
  set_blind_spot_callback, set_dual_emit_callback, lidar_info_change_callback, configure,
  begin_work,
}
use livox_mid360_rko_lio_ros.Callback.Bits.{
  Setting, data_type, scan_pattern, blind_spot, dual_emit, bit_of,
}
use livox_mid360_rko_lio_ros.Callback.Settings.{asked, has, acknowledge_all, sampled_after_all}

pub record Reply : Type 0 where
  pub setting : Setting
  pub status : LivoxStatus
  pub response : Option AsyncControlResponse

-- The callback that the driver hands over with a setting.
abbrev pub callback_of : Setting → Callback
callback_of data_type = set_data_type_callback
callback_of scan_pattern = set_pattern_mode_callback
callback_of blind_spot = set_blind_spot_callback
callback_of dual_emit = set_dual_emit_callback

-- The call that sets a setting again.
abbrev pub again : ℕ → UserLivoxLidarConfig → Setting → SdkCall
again handle c data_type = set_pcl_data_type handle c.pcl_data_type
again handle c scan_pattern = set_scan_pattern handle c.pattern_mode
again handle c blind_spot = set_blind_spot handle c.blind_spot_set
again handle c dual_emit = set_dual_emit handle (if c.dual_emit_en == 0 then false else true)

pub run_replies : ℕ → List Reply → Client → Outcome Client
run_replies handle [] client = ok client
run_replies handle (r ∷ rs) client =
    callback_of r.setting r.status handle r.response client >>= λ (client', calls).
    run_replies handle rs client'

abbrev pub confirmed : List Reply → List Setting
confirmed [] = []
confirmed (r ∷ rs) = elim r.status [
  | success ↦ r.setting ∷ confirmed rs
  | timeout ↦ confirmed rs
  | failed ↦ confirmed rs
]

-- A reply that reports a failure comes with a response.
abbrev pub Answers : LivoxStatus → Option AsyncControlResponse → Type 0
Answers failed none = ⊥
Answers _ _ = Unit {0}

abbrev pub AllAnswer : List Reply → Type 0
AllAnswer [] = Unit {0}
AllAnswer (r ∷ rs) = Answers r.status r.response × AllAnswer rs

module _ (handle i : ℕ) (lidar : LidarDevice) (s : Lds)
    (known : get_index livox_lidar_type handle s.cache ≡ some i)
    (at : get_elem? s.lidars i ≡ some lidar) where
  found_lem : get_lidar_device handle (some s) ≡ ok (some (i, lidar))
  unfolding get_lidar_device
  found_lem = rw (known, get_lidar_device) (rw at)

  confirm_lem :
      (c : Setting) (response : Option AsyncControlResponse)
      → callback_of c success handle response (some s)
        ≡ ok (some (put_device s i (acknowledge (bit_of c) lidar)), [])
  unfolding set_data_type_callback set_pattern_mode_callback set_blind_spot_callback
      set_dual_emit_callback
  confirm_lem data_type response = rw (found_lem, setting_callback)
  confirm_lem c response = rw (found_lem, setting_callback)

  retry_lem :
      (c : Setting) (response : Option AsyncControlResponse)
      → callback_of c timeout handle response (some s)
        ≡ ok (some s, again handle lidar.livox_config c ∷ [])
  unfolding set_data_type_callback set_pattern_mode_callback set_blind_spot_callback
      set_dual_emit_callback
  retry_lem data_type response = rw (found_lem, setting_callback)
  retry_lem c response = rw (found_lem, setting_callback)

  refused_lem :
      (c : Setting) (response : AsyncControlResponse)
      → callback_of c failed handle (some response) (some s) ≡ ok (some s, [])
  unfolding set_data_type_callback set_pattern_mode_callback set_blind_spot_callback
      set_dual_emit_callback
  refused_lem data_type response = rw (found_lem, setting_callback)
  refused_lem c response = rw (found_lem, setting_callback)

  failed_without_response : (c : Setting) → callback_of c failed handle none (some s) ≡ fault
  unfolding set_data_type_callback set_pattern_mode_callback set_blind_spot_callback
      set_dual_emit_callback
  failed_without_response data_type = rw (found_lem, setting_callback)
  failed_without_response c = rw (found_lem, setting_callback)

-- What one reply does.
record Answered (i : ℕ) (lidar : LidarDevice) (s : Lds) (r : Reply)
    (result : Outcome (Client × List SdkCall)) : Type 0 where
  state : Lds
  calls : List SdkCall
  device : LidarDevice
  returns : result ≡ ok (some state, calls)
  at : get_elem? state.lidars i ≡ some device
  others : (j : ℕ) → i ≢ j → get_elem? state.lidars j ≡ get_elem? s.lidars j
  rest : state ≡ record s { lidars = state.lidars }
  then' :
      (rs : List Reply)
      → acknowledge_all (confirmed (r ∷ rs)) lidar ≡ acknowledge_all (confirmed rs) device

reply_lem :
    (handle i : ℕ) (c : Setting) (status : LivoxStatus) (response : Option AsyncControlResponse)
    (lidar : LidarDevice) (s : Lds)
    → get_index livox_lidar_type handle s.cache ≡ some i
    → get_elem? s.lidars i ≡ some lidar
    → Answers status response
    → Answered i lidar s
        (record { setting = c; status = status; response = response })
        (callback_of c status handle response (some s))
unfolding acknowledge_all
reply_lem handle i c success response lidar s known at answer = record {
  state = put_device s i (acknowledge (bit_of c) lidar);
  calls = [];
  device = acknowledge (bit_of c) lidar;
  returns = confirm_lem handle i lidar s known at c response;
  at = get_elem?-set_self s.lidars i _ (lt_of_get_elem? s.lidars i at);
  others = λ j ne. get_elem?-set_ne s.lidars i j _ ne;
  rest = refl;
  then' = λ rs. refl;
}
reply_lem handle i c timeout response lidar s known at answer = record {
  state = s;
  calls = again handle lidar.livox_config c ∷ [];
  device = lidar;
  returns = retry_lem handle i lidar s known at c response;
  at = at;
  others = λ j ne. refl;
  rest = refl;
  then' = λ rs. refl;
}
reply_lem handle i c failed none lidar s known at answer = absurd answer
reply_lem handle i c failed (some r) lidar s known at answer = record {
  state = s;
  calls = [];
  device = lidar;
  returns = refused_lem handle i lidar s known at c r;
  at = at;
  others = λ j ne. refl;
  rest = refl;
  then' = λ rs. refl;
}

run_cons :
    (handle : ℕ) (r : Reply) (rs : List Reply) (client client' : Client) (calls : List SdkCall)
    → callback_of r.setting r.status handle r.response client ≡ ok (client', calls)
    → run_replies handle (r ∷ rs) client ≡ run_replies handle rs client'
unfolding run_replies
run_cons handle r rs client client' calls e = rw e

-- Replies to a known lidar, each failure with a response, change its device by the settings that
-- they confirm, and change nothing else; no callback fails.
pub run_replies_lem :
    (handle i : ℕ) (rs : List Reply) (lidar : LidarDevice) (s : Lds)
    → get_index livox_lidar_type handle s.cache ≡ some i
    → get_elem? s.lidars i ≡ some lidar
    → AllAnswer rs
    → (s' : Lds) × (run_replies handle rs (some s) ≡ ok (some s'))
      × (get_elem? s'.lidars i ≡ some (acknowledge_all (confirmed rs) lidar))
      × ((j : ℕ) → i ≢ j → get_elem? s'.lidars j ≡ get_elem? s.lidars j)
      × (s' ≡ record s { lidars = s'.lidars })
unfolding run_replies acknowledge_all
run_replies_lem handle i [] lidar s known at answer = (s, refl, at, λ j ne. refl, refl)
run_replies_lem handle i (r ∷ rs) lidar s known at answer =
    let one = reply_lem handle i r.setting r.status r.response lidar s known at answer.0 in
    let known' : get_index livox_lidar_type handle one.state.cache ≡ some i =
      ap (λ (t : Lds). get_index livox_lidar_type handle t.cache) one.rest ∙ known in
    let (s', run, at', others, rest) =
      run_replies_lem handle i rs one.device one.state known' one.at answer.1 in
    (
      s',
      run_cons handle r rs (some s) (some one.state) one.calls one.returns ∙ run,
      at' ∙ ap some (sym (one.then' rs)),
      λ j ne. others j ne ∙ one.others j ne,
      rest ∙ ap (λ (t : Lds). record t { lidars = s'.lidars }) one.rest,
    )

-- A failure without a response, among replies.
abbrev pub Fails : LivoxStatus → Option AsyncControlResponse → Type 0
Fails failed none = Unit {0}
Fails _ _ = ⊥

abbrev pub AnyFails : List Reply → Type 0
AnyFails [] = ⊥
AnyFails (r ∷ rs) = Fails r.status r.response ⊎ AnyFails rs

reply_cases :
    (status : LivoxStatus) (response : Option AsyncControlResponse)
    → Answers status response ⊎ Fails status response
reply_cases success response = inl tt
reply_cases timeout response = inl tt
reply_cases failed none = inr tt
reply_cases failed (some r) = inl tt

replies_cases : (rs : List Reply) → AllAnswer rs ⊎ AnyFails rs
replies_cases [] = inl tt
replies_cases (r ∷ rs) = elim (reply_cases r.status r.response) [
  | inr fails ↦ inr (inl fails)
  | inl answers ↦ elim (replies_cases rs) [ inl all ↦ inl (answers, all) | inr any ↦ inr (inr any) ]
]

fails_lem :
    (handle i : ℕ) (c : Setting) (status : LivoxStatus) (response : Option AsyncControlResponse)
    (lidar : LidarDevice) (s : Lds)
    → get_index livox_lidar_type handle s.cache ≡ some i
    → get_elem? s.lidars i ≡ some lidar
    → Fails status response
    → callback_of c status handle response (some s) ≡ fault
fails_lem handle i c success response lidar s known at fails = absurd fails
fails_lem handle i c timeout response lidar s known at fails = absurd fails
fails_lem handle i c failed (some r) lidar s known at fails = absurd fails
fails_lem handle i c failed none lidar s known at fails =
    failed_without_response handle i lidar s known at c

any_fails_lem :
    (handle i : ℕ) (rs : List Reply) (lidar : LidarDevice) (s : Lds)
    → get_index livox_lidar_type handle s.cache ≡ some i
    → get_elem? s.lidars i ≡ some lidar
    → AnyFails rs
    → run_replies handle rs (some s) ≡ fault
unfolding run_replies
any_fails_lem handle i [] lidar s known at any = absurd any
any_fails_lem handle i (r ∷ rs) lidar s known at any = elim (reply_cases r.status r.response) [
  | inr fails ↦ rw (fails_lem handle i r.setting r.status r.response lidar s known at fails) refl
  | inl answers ↦
      let one = reply_lem handle i r.setting r.status r.response lidar s known at answers in
      let known' : get_index livox_lidar_type handle one.state.cache ≡ some i =
        ap (λ (t : Lds). get_index livox_lidar_type handle t.cache) one.rest ∙ known in
      run_cons handle r rs (some s) (some one.state) one.calls one.returns
      ∙ any_fails_lem handle i rs one.device one.state known' one.at
          (later r.status r.response answers any)
]
  where
    later :
        (status : LivoxStatus) (response : Option AsyncControlResponse)
        → Answers status response
        → Fails status response ⊎ AnyFails rs
        → AnyFails rs
    later status response answers (inr any') = any'
    later success response answers (inl fails) = absurd fails
    later timeout response answers (inl fails) = absurd fails
    later failed none answers (inl fails) = absurd answers
    later failed (some r') answers (inl fails) = absurd fails

-- Replies to a known lidar, run one after the other through the callbacks of their settings, lead
-- to an access through a null pointer exactly if one of them reports a failure and has no
-- response, whatever the others report.
pub run_replies-fault_iff :
    (handle i : ℕ) (rs : List Reply) (lidar : LidarDevice) (s : Lds)
    → get_index livox_lidar_type handle s.cache ≡ some i
    → get_elem? s.lidars i ≡ some lidar
    → (run_replies handle rs (some s) ≡ fault) ↔ AnyFails rs
run_replies-fault_iff handle i rs lidar s known at = (
  λ faulty. elim (replies_cases rs) [
    | inr any ↦ any
    | inl all ↦
        let (s', run, at', others, rest) = run_replies_lem handle i rs lidar s known at all in cc
  ],
  any_fails_lem handle i rs lidar s known at,
)

-- From the connection of a known lidar with no bit set: once replies, in any order and among
-- timeouts and failures with a response, have confirmed each setting that its configuration asks
-- for, nothing has failed, the lidar has its index and it is sampled.
pub connected_then_sampled :
    (handle i : ℕ) (rs : List Reply) (lidar : LidarDevice) (s : Lds)
    → get_index livox_lidar_type handle s.cache ≡ some i
    → get_elem? s.lidars i ≡ some lidar
    → lidar.livox_config.set_bits ≡ 0
    → AllAnswer rs
    → ((c : Setting) → asked lidar.livox_config c ≡ true → has c (confirmed rs) ≡ true)
    → (s1 s2 : Lds) × (calls : List SdkCall) × (lidar' : LidarDevice) × (lidar_info_change_callback
          handle
          (some s)
        ≡ ok (some s1, calls))
      × (run_replies handle rs (some s1) ≡ ok (some s2))
      × (get_index livox_lidar_type handle s2.cache ≡ some i)
      × (get_elem? s2.lidars i ≡ some lidar')
      × (lidar'.connect_state ≡ sampling)
unfolding lidar_info_change_callback
connected_then_sampled handle i rs lidar s known at unset answer covered =
    let lidar1 = (configure handle lidar).0 in
    let s1 = put_device s i lidar1 in
    let at1 : get_elem? s1.lidars i ≡ some lidar1 =
      get_elem?-set_self s.lidars i lidar1 (lt_of_get_elem? s.lidars i at) in
    let (s2, run, at2, others, rest) = run_replies_lem handle i rs lidar1 s1 known at1 answer in
    (
      s1,
      s2,
      (configure handle lidar).1 ++ begin_work handle,
      acknowledge_all (confirmed rs) lidar1,
      rw (found_lem handle i lidar s known at, lidar_info_change_callback),
      run,
      ap (λ (t : Lds). get_index livox_lidar_type handle t.cache) rest ∙ known,
      at2,
      sampled_after_all handle (confirmed rs) lidar unset covered,
    )
