-- ===== src/Lddc/Publishers/Topics.antt =====
-- Each publisher is created once, for the topic of its lidar or for the one that all share.
use livox_mid360_rko_lio_ros.Base.{
  ℕ, ◌<◌, ◌≡◌, refl, sym, ap, ◌∙◌, inl, inr, true, false, Option, some, List, if_true, if_false,
  Bool-cases, arith, length, get_elem?, ok, ◌>>=◌,
}
use livox_mid360_rko_lio_ros.Lds.{LidarDevice}
use livox_mid360_rko_lio_ros.Lddc.{
  TransferType, point_cloud2_msg, livox_custom_msg, pcl_pxyzi_msg, unknown,
}
use livox_mid360_rko_lio_ros.Lddc.Drain.{Publishes}
use livox_mid360_rko_lio_ros.Lddc.Publishers.{
  of_format, PublisherKind, point_cloud2, custom_msg, imu_msg, Publisher, Publishers, publisher,
  create_publisher, lidar_topic, imu_topic, current_private, current_global, get_current_publisher,
}
use livox_mid360_rko_lio_ros.Lddc.Publishers.Slots.{wanted, Named, Creates, private_lem, global_lem}

module _ (inet_ntoa : ℕ → List ℕ) (lidars : List LidarDevice) where
  -- The kind of the publishers of point clouds.
  abbrev pub kind_of : TransferType → PublisherKind
  kind_of point_cloud2_msg = point_cloud2
  kind_of livox_custom_msg = custom_msg
  kind_of pcl_pxyzi_msg = point_cloud2
  kind_of unknown = point_cloud2

  of_format-Creates :
      (t : TransferType) → Publishes t → Creates inet_ntoa lidars (of_format t) (kind_of t)
  unfolding create_publisher
  of_format-Creates point_cloud2_msg h name size = refl
  of_format-Creates livox_custom_msg h name size = refl
  of_format-Creates pcl_pxyzi_msg h name size = elim h [ ]
  of_format-Creates unknown h name size = elim h [ ]

  -- The publishers that there are have the right topics.
  pub record IsNamed (self : Publishers) : Type 0 where
    pub slots : length self.private_pub ≡ 32
    pub imu_slots : length self.private_imu_pub ≡ 32
    pub private_named :
        Named inet_ntoa lidars (kind_of self.transfer_format) lidar_topic self.private_pub
    pub global_named :
        (p : Publisher)
        → self.global_pub ≡ some p
        → p ≡ publisher (kind_of self.transfer_format) lidar_topic 256
    pub private_imu_named : Named inet_ntoa lidars imu_msg imu_topic self.private_imu_pub
    pub global_imu_named :
        (p : Publisher) → self.global_imu_pub ≡ some p → p ≡ publisher imu_msg imu_topic 256

  several :
      (self : Publishers) (slots : List (Option Publisher)) (i handle : ℕ)
      → self.use_multi_topic ≡ true
      → current_private inet_ntoa
          (of_format self.transfer_format)
          lidar_topic
          lidars
          i
          self.private_pub
        ≡ ok (
          some (wanted inet_ntoa lidars true (kind_of self.transfer_format) lidar_topic handle),
          slots,
        )
      → get_current_publisher inet_ntoa lidars i self
        ≡ ok (
          some (
              wanted inet_ntoa lidars self.use_multi_topic
                (kind_of self.transfer_format)
                lidar_topic
                handle),
          record self { private_pub = slots },
        )
  unfolding get_current_publisher
  several self slots i handle multi made =
      if_true self.use_multi_topic _ _ multi
      ∙ ap (λ o. o >>= λ r. ok (r.0, record self { private_pub = r.1 })) made
      ∙ ap
          (λ b. ok (
            some (wanted inet_ntoa lidars b (kind_of self.transfer_format) lidar_topic handle),
            record self { private_pub = slots },
          ))
          (sym multi)

  single :
      (self : Publishers) (i handle : ℕ)
      → self.use_multi_topic ≡ false
      → current_global inet_ntoa (of_format self.transfer_format) lidar_topic self.global_pub
        ≡ some (wanted inet_ntoa lidars false (kind_of self.transfer_format) lidar_topic handle)
      → get_current_publisher inet_ntoa lidars i self
        ≡ ok (
          some (
              wanted inet_ntoa lidars self.use_multi_topic
                (kind_of self.transfer_format)
                lidar_topic
                handle),
          record self {
            global_pub =
                some
                  (wanted inet_ntoa lidars false (kind_of self.transfer_format) lidar_topic handle);
          },
        )
  unfolding get_current_publisher
  single self i handle one made =
      if_false self.use_multi_topic _ _ one
      ∙ ap (λ o. ok (o, record self { global_pub = o })) made
      ∙ ap
          (λ b. ok (
            some (wanted inet_ntoa lidars b (kind_of self.transfer_format) lidar_topic handle),
            record self {
              global_pub =
                  some (
                    wanted inet_ntoa lidars false (kind_of self.transfer_format) lidar_topic
                      handle);
            },
          ))
          (sym one)

  module _ (self : Publishers) (v : IsNamed self) (i : ℕ) (d : LidarDevice)
      (at : get_elem? lidars i ≡ some d) (inside : i < 32) where
    -- With a published format, and publishers for point clouds that, where they exist, are those
    -- of their lidars: GetCurrentPublisher of a device returns the publisher of the format, for
    -- the topic livox/lidar and 256 messages, or, for several topics, for livox/lidar_ and its
    -- address with underlines, cut to 47 bytes, and 64 messages; the publishers are still right,
    -- and asking again returns the same and creates none.
    pub get_current_publisher_lem :
        Publishes self.transfer_format
        → let p =
            wanted inet_ntoa lidars self.use_multi_topic
              (kind_of self.transfer_format)
              lidar_topic
              d.handle in
          (self' : Publishers) × (get_current_publisher inet_ntoa lidars i self
            ≡ ok (some p, self'))
          × IsNamed self'
          × (get_current_publisher inet_ntoa lidars i self' ≡ ok (some p, self'))
    get_current_publisher_lem format = elim (Bool-cases self.use_multi_topic) [
      | inl multi ↦
          let (slots, made, named, long, again) =
            private_lem inet_ntoa lidars (of_format self.transfer_format)
              (kind_of self.transfer_format) lidar_topic
              (of_format-Creates self.transfer_format format) i d at self.private_pub
              v.private_named (omega (arith, v.slots)) in
          (
            record self { private_pub = slots },
            several self slots i d.handle multi made,
            record {
              slots = long ∙ v.slots;
              imu_slots = v.imu_slots;
              private_named = named;
              global_named = v.global_named;
              private_imu_named = v.private_imu_named;
              global_imu_named = v.global_imu_named;
            },
            several (record self { private_pub = slots }) slots i d.handle multi again,
          )
      | inr one ↦
          let made =
            global_lem inet_ntoa lidars (of_format self.transfer_format)
              (kind_of self.transfer_format) lidar_topic
              (of_format-Creates self.transfer_format format) d.handle self.global_pub
              v.global_named in
          (
            record self {
              global_pub = some (
                  wanted inet_ntoa lidars false (kind_of self.transfer_format) lidar_topic
                    d.handle);
            },
            single self i d.handle one made,
            record {
              slots = v.slots;
              imu_slots = v.imu_slots;
              private_named = v.private_named;
              global_named = λ p e.
                  let same : wanted inet_ntoa lidars false (kind_of self.transfer_format)
                        lidar_topic d.handle
                      ≡ p =
                    cc in
                  sym same;
              private_imu_named = v.private_imu_named;
              global_imu_named = v.global_imu_named;
            },
            single
                (record self {
                  global_pub = some (
                      wanted inet_ntoa lidars false (kind_of self.transfer_format) lidar_topic
                        d.handle);
                })
                i d.handle one
                (global_lem inet_ntoa lidars (of_format self.transfer_format)
                  (kind_of self.transfer_format) lidar_topic
                  (of_format-Creates self.transfer_format format) d.handle
                  (some (
                    wanted inet_ntoa lidars false (kind_of self.transfer_format) lidar_topic
                      d.handle))
                  (λ p e.
                    let same : wanted inet_ntoa lidars false (kind_of self.transfer_format)
                          lidar_topic d.handle
                        ≡ p =
                      cc in
                    sym same)),
          )
    ]
