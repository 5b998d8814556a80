-- ===== src/Lddc/Publishers/ImuTopics.antt =====
-- The same for the publishers of IMU samples.
use livox_mid360_rko_lio_ros.Base.{
  ℕ, ◌<◌, ◌≡◌, refl, sym, ap, ◌∙◌, inl, inr, true, false, Option, some, List, if_true, if_false,
  Bool-cases, arith, get_elem?, ok, ◌>>=◌,
}
use livox_mid360_rko_lio_ros.Lds.{LidarDevice}
use livox_mid360_rko_lio_ros.Lddc.Publishers.{
  livox_imu_msg, imu_msg, Publisher, Publishers, create_publisher, imu_topic, current_private,
  current_global, get_current_imu_publisher,
}
use livox_mid360_rko_lio_ros.Lddc.Publishers.Slots.{wanted, Creates, private_lem, global_lem}
use livox_mid360_rko_lio_ros.Lddc.Publishers.Topics.{IsNamed}

module _ (inet_ntoa : ℕ → List ℕ) (lidars : List LidarDevice) where
  livox_imu_msg-Creates : Creates inet_ntoa lidars livox_imu_msg imu_msg
  unfolding create_publisher
  livox_imu_msg-Creates name size = refl

  imu_several :
      (self : Publishers) (slots : List (Option Publisher)) (i handle : ℕ)
      → self.use_multi_topic ≡ true
      → current_private inet_ntoa livox_imu_msg imu_topic lidars i self.private_imu_pub
        ≡ ok (some (wanted inet_ntoa lidars true imu_msg imu_topic handle), slots)
      → get_current_imu_publisher inet_ntoa lidars i self
        ≡ ok (
          some (wanted inet_ntoa lidars self.use_multi_topic imu_msg imu_topic handle),
          record self { private_imu_pub = slots },
        )
  unfolding get_current_imu_publisher
  imu_several self slots i handle multi made =
      if_true self.use_multi_topic _ _ multi
      ∙ ap (λ o. o >>= λ r. ok (r.0, record self { private_imu_pub = r.1 })) made
      ∙ ap
          (λ b. ok (
            some (wanted inet_ntoa lidars b imu_msg imu_topic handle),
            record self { private_imu_pub = slots },
          ))
          (sym multi)

  imu_single :
      (self : Publishers) (i handle : ℕ)
      → self.use_multi_topic ≡ false
      → current_global inet_ntoa livox_imu_msg imu_topic self.global_imu_pub
        ≡ some (wanted inet_ntoa lidars false imu_msg imu_topic handle)
      → get_current_imu_publisher inet_ntoa lidars i self
        ≡ ok (
          some (wanted inet_ntoa lidars self.use_multi_topic imu_msg imu_topic handle),
          record self {
            global_imu_pub = some (wanted inet_ntoa lidars false imu_msg imu_topic handle);
          },
        )
  unfolding get_current_imu_publisher
  imu_single self i handle one made =
      if_false self.use_multi_topic _ _ one
      ∙ ap (λ o. ok (o, record self { global_imu_pub = o })) made
      ∙ ap
          (λ b. ok (
            some (wanted inet_ntoa lidars b imu_msg imu_topic handle),
            record self {
              global_imu_pub = some (wanted inet_ntoa lidars false imu_msg imu_topic handle);
            },
          ))
          (sym one)

  module _ (self : Publishers) (v : IsNamed inet_ntoa lidars self) (i : ℕ) (d : LidarDevice)
      (at : get_elem? lidars i ≡ some d) (inside : i < 32) where
    -- With publishers for IMU samples that, where they exist, are those of their lidars:
    -- GetCurrentImuPublisher of a device returns the publisher of IMU messages, for the topic
    -- livox/imu and 256 messages, or, for several topics, for livox/imu_ and its address with
    -- underlines, cut to 47 bytes, and 64 messages; the publishers are still right, and asking
    -- again returns the same and creates none.
    pub get_current_imu_publisher_lem :
        let p = wanted inet_ntoa lidars self.use_multi_topic imu_msg imu_topic d.handle in
        (self' : Publishers) × (get_current_imu_publisher inet_ntoa lidars i self
          ≡ ok (some p, self'))
        × IsNamed inet_ntoa lidars self'
        × (get_current_imu_publisher inet_ntoa lidars i self' ≡ ok (some p, self'))
    get_current_imu_publisher_lem = elim (Bool-cases self.use_multi_topic) [
      | inl multi ↦
          let (slots, made, named, long, again) =
            private_lem inet_ntoa lidars livox_imu_msg imu_msg imu_topic livox_imu_msg-Creates i d
              at self.private_imu_pub v.private_imu_named (omega (arith, v.imu_slots)) in
          (
            record self { private_imu_pub = slots },
            imu_several self slots i d.handle multi made,
            record {
              slots = v.slots;
              imu_slots = long ∙ v.imu_slots;
              private_named = v.private_named;
              global_named = v.global_named;
              private_imu_named = named;
              global_imu_named = v.global_imu_named;
            },
            imu_several (record self { private_imu_pub = slots }) slots i d.handle multi again,
          )
      | inr one ↦
          let made =
            global_lem inet_ntoa lidars livox_imu_msg imu_msg imu_topic livox_imu_msg-Creates
              d.handle self.global_imu_pub v.global_imu_named in
          (
            record self {
              global_imu_pub = some (wanted inet_ntoa lidars false imu_msg imu_topic d.handle);
            },
            imu_single self i d.handle one made,
            record {
              slots = v.slots;
              imu_slots = v.imu_slots;
              private_named = v.private_named;
              global_named = v.global_named;
              private_imu_named = v.private_imu_named;
              global_imu_named = λ p e.
                  let same : wanted inet_ntoa lidars false imu_msg imu_topic d.handle ≡ p = cc in
                  sym same;
            },
            imu_single
                (record self {
                  global_imu_pub = some (wanted inet_ntoa lidars false imu_msg imu_topic d.handle);
                })
                i d.handle one
                (global_lem inet_ntoa lidars livox_imu_msg imu_msg imu_topic livox_imu_msg-Creates
                  d.handle (some (wanted inet_ntoa lidars false imu_msg imu_topic d.handle))
                  (λ p e.
                    let same : wanted inet_ntoa lidars false imu_msg imu_topic d.handle ≡ p = cc in
                    sym same)),
          )
    ]
