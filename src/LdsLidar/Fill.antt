-- ===== src/LdsLidar/Fill.antt =====
-- The device table after the configured lidars have been filled in.
use livox_mid360_rko_lio_ros.Base.{
  ℕ, zero, suc, ◌+◌, ◌^◌, ◌≤◌, ◌<◌, ◌≡◌, ◌≢◌, refl, sym, ap, subst, ◌∙◌, inl, inr, Bool, true,
  false, none, some, List, [], ◌∷◌, ◌==◌, if◌then◌else◌, arith, length, set, get_elem?, length-set,
  get_elem?-set_self, get_elem?-set_ne, get_elem?_lt, lt_of_get_elem?, ℕ_discrete, ok,
}
use livox_mid360_rko_lio_ros.Base.Dict.{find, nat_key, text_key, find-insert, beq_self}
use livox_mid360_rko_lio_ros.Comm.{livox_lidar_type, UserLivoxLidarConfig}
use livox_mid360_rko_lio_ros.CacheIndex.{CacheIndex, free_from, get_free_index, get_index}
use livox_mid360_rko_lio_ros.CacheIndex.Inv.{IsValid}
use livox_mid360_rko_lio_ros.CacheIndex.Valid.{get_free_index-IsValid}
use livox_mid360_rko_lio_ros.CacheIndex.Lookup.{
  get_free_index-Gets, get_free_index_lem, get_free_index_other, get_index-injective,
}
use livox_mid360_rko_lio_ros.Ldq.{null}
use livox_mid360_rko_lio_ros.Lds.{LidarDevice, Lds}
use livox_mid360_rko_lio_ros.Publish.{PubHandler, get_lidar_id, add_lidars_ext_param}
use livox_mid360_rko_lio_ros.LdsLidar.{lidar_param_of, add_config, fill}

-- How many slots are taken.
unfoldable pub taken : List Bool → ℕ
taken [] = 0
taken (true ∷ cache) = suc (taken cache)
taken (false ∷ cache) = taken cache

taken-set : (cache : List Bool) (i : ℕ) → taken (set cache i true) ≤ taken cache + 1
unfolding taken
taken-set [] i = omega arith
taken-set (true ∷ cache) zero = omega arith
taken-set (false ∷ cache) zero = omega arith
taken-set (true ∷ cache) (suc i) = omega (arith, taken-set cache i)
taken-set (false ∷ cache) (suc i) = omega (arith, taken-set cache i)

taken-full : (cache : List Bool) (i : ℕ) → free_from i cache ≡ none → taken cache ≡ length cache
unfolding taken free_from
taken-full [] i full = refl
taken-full (true ∷ cache) i full = ap suc (taken-full cache (i + 1) full)
taken-full (false ∷ cache) i full = cc

-- The lidar of a configuration has an index, whose device is set up for it, and its extrinsic
-- parameters wait for its first packet.
pub record Configured (c : UserLivoxLidarConfig) (s : Lds) (p : PubHandler) : Type 0 where
  pub index : ℕ
  pub device : LidarDevice
  pub known : get_index livox_lidar_type c.handle s.cache ≡ some index
  pub stored : get_elem? s.lidars index ≡ some device
  pub typed : device.lidar_type ≡ livox_lidar_type
  pub handled : device.handle ≡ c.handle
  pub config : device.livox_config ≡ c
  pub param : find c.handle p.lidar_extrinsics ≡ some (lidar_param_of c)

-- `extra` more lidars fit into the table of a source that has stored nothing yet.
pub record Fits (freq extra : ℕ) (s : Lds) : Type 0 where
  pub count : s.lidar_count ≡ 32
  pub running : s.request_exit ≡ false
  pub published : s.publish_freq ≡ freq
  pub unused :
      (i : ℕ) (d : LidarDevice) → get_elem? s.lidars i ≡ some d → d.points.storage_packet ≡ null
  pub valid : IsValid s.cache
  pub devices : length s.lidars ≡ 32
  pub room : taken s.cache.index_cache + extra ≤ 32

module _ (c : UserLivoxLidarConfig) (s : Lds) (p : PubHandler) (freq extra : ℕ)
    (f : Fits freq (suc extra) s) where
  abbrev cache' : CacheIndex
  cache' = (get_free_index livox_lidar_type c.handle s.cache).1

  -- An index is found, and at most one more slot is taken.
  gets :
      (i : ℕ) × ((get_free_index livox_lidar_type c.handle s.cache).0 ≡ some i)
      × (taken cache'.index_cache + extra ≤ 32)
  gets = elim (get_free_index-Gets c.handle s.cache) [
    | inl (i, e, r, q) ↦ (i, r, rw q (omega (arith, f.room)))
    | inr (inl (absent, full, r, q)) ↦
        absurd (omega (arith, taken-full s.cache.index_cache 0 full, f.valid.slots, f.room))
    | inr (inr (i, absent, e, r, q)) ↦
        (i, r, rw q (omega (arith, taken-set s.cache.index_cache i, f.room)))
  ]

  -- A device that keeps its queue.
  unused-set :
      (i : ℕ) (d d' : LidarDevice)
      → get_elem? s.lidars i ≡ some d
      → d'.points ≡ d.points
      → (j : ℕ) (e : LidarDevice) → get_elem? (set s.lidars i d') j ≡ some e
      → e.points.storage_packet ≡ null
  unused-set i d d' at same j e has = elim (ℕ_discrete i j) [
    | yes equal ↦
        let stored = get_elem?-set_self s.lidars i d' (lt_of_get_elem? s.lidars i at) in
        let found : some d' ≡ some e =
          sym stored ∙ ap (get_elem? (set s.lidars i d')) equal ∙ has in
        let known : d' ≡ e = cc in
        ap (λ (x : LidarDevice). x.points.storage_packet) (sym known)
        ∙ ap (λ q. q.storage_packet) same
        ∙ f.unused i d at
    | no other ↦ f.unused j e (sym (get_elem?-set_ne s.lidars i j d' other) ∙ has)
  ]

  extrinsics :
      (h : ℕ)
      → find h (add_lidars_ext_param (lidar_param_of c) p).lidar_extrinsics
        ≡ (if c.handle == h then some (lidar_param_of c) else find h p.lidar_extrinsics)
  unfolding add_lidars_ext_param get_lidar_id lidar_param_of
  extrinsics h = find-insert h c.handle (lidar_param_of c) p.lidar_extrinsics

  add_config_lem :
      (s' : Lds) × (p' : PubHandler) × (add_config c s p ≡ ok (s', p'))
      × Fits freq extra s'
      × Configured c s' p'
      × ((c' : UserLivoxLidarConfig)
          → c.handle < 2 ^ 32
          → c'.handle < 2 ^ 32
          → c.handle ≢ c'.handle
          → Configured c' s p
          → Configured c' s' p')
  unfolding add_config
  add_config_lem =
      let (i, found, room) = gets in
      let valid = get_free_index-IsValid livox_lidar_type c.handle f.valid in
      let promise = get_free_index_lem c.handle f.valid in
      let (lidar, at) = get_elem?_lt s.lidars i (omega (arith, promise.1 i found, f.devices)) in
      let lidar' : LidarDevice = record lidar {
        lidar_type = livox_lidar_type;
        livox_config = c;
        handle = c.handle;
      } in
      let s' : Lds = record s { cache = cache'; lidars = set s.lidars i lidar' } in
      let p' = add_lidars_ext_param (lidar_param_of c) p in
      let inside = lt_of_get_elem? s.lidars i at in
      (
        s',
        p',
        rw (found, add_config, at) refl,
        record {
          count = f.count;
          running = f.running;
          published = f.published;
          unused = unused-set i lidar lidar' at refl;
          valid = valid;
          devices = length-set s.lidars i lidar' ∙ f.devices;
          room = room;
        },
        record {
          index = i;
          device = lidar';
          known = promise.0 ∙ found;
          stored = get_elem?-set_self s.lidars i lidar' inside;
          typed = refl;
          handled = refl;
          config = refl;
          param = rw (extrinsics c.handle, beq_self c.handle) refl;
        },
        λ c' h h' ne old.
            let known : get_index livox_lidar_type c'.handle cache' ≡ some old.index =
              get_free_index_other c.handle c'.handle s.cache h h' ne ∙ old.known in
            let apart : i ≢ old.index = λ e. ne (
              get_index-injective c.handle c'.handle i valid h h' (promise.0 ∙ found)
                (known ∙ ap some (sym e))) in
            let differ : (c.handle == c'.handle) ≡ false = ground arith in
            record {
              index = old.index;
              device = old.device;
              known = known;
              stored = get_elem?-set_ne s.lidars i old.index lidar' apart ∙ old.stored;
              typed = old.typed;
              handled = old.handled;
              config = old.config;
              param = extrinsics c'.handle ∙ rw differ old.param;
            },
      )

-- No configuration of the list is for this lidar.
abbrev pub Absent : ℕ → List UserLivoxLidarConfig → Type 0
Absent h [] = Unit {0}
Absent h (c ∷ cs) = (c.handle ≢ h) × Absent h cs

-- Each is for another lidar, with a 32-bit handle.
abbrev pub Distinct : List UserLivoxLidarConfig → Type 0
Distinct [] = Unit {0}
Distinct (c ∷ cs) = (c.handle < 2 ^ 32) × Absent c.handle cs × Distinct cs

abbrev pub AllConfigured : List UserLivoxLidarConfig → Lds → PubHandler → Type 0
AllConfigured [] s p = Unit {0}
AllConfigured (c ∷ cs) s p = Configured c s p × AllConfigured cs s p

pub fill_lem :
    (cs : List UserLivoxLidarConfig) (freq extra : ℕ) (s : Lds) (p : PubHandler)
    → Fits freq (length cs + extra) s
    → Distinct cs
    → (s' : Lds) × (p' : PubHandler) × (fill cs s p ≡ ok (s', p'))
      × Fits freq extra s'
      × AllConfigured cs s' p'
      × ((c' : UserLivoxLidarConfig)
          → c'.handle < 2 ^ 32
          → Absent c'.handle cs
          → Configured c' s p
          → Configured c' s' p')
unfolding fill
fill_lem [] freq extra s p f d =
    (s, p, refl, subst (λ n. Fits freq n s) (omega arith) f, tt, λ c' h' a old. old)
fill_lem (c ∷ cs) freq extra s p f (h, absent, d) =
    let f' : Fits freq (suc (length cs + extra)) s = subst (λ n. Fits freq n s) (omega arith) f in
    let (s1, p1, one, f1, first, keep) = add_config_lem c s p freq (length cs + extra) f' in
    let (s2, p2, rest, f2, all, keep') = fill_lem cs freq extra s1 p1 f1 d in
    (
      s2,
      p2,
      rw (one, rest) refl,
      f2,
      (keep' c h absent first, all),
      λ c' h' a old. keep' c' h' (a.1) (keep c' h h' (a.0) old),
    )
