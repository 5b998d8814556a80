-- ===== src/CacheIndex/Lookup.antt =====
-- What `GetFreeIndex`, `GetIndex`, `LvxGetIndex` and `ResetIndex` promise each other.
use livox_mid360_rko_lio_ros.Base.{
  ℕ, ◌^◌, ◌<◌, ◌≡◌, ◌≢◌, ◌↔◌, inl, inr, ◌⊎◌, true, false, Option, none, some, ◌==◌, arith, set,
  get_elem?, get_elem?-set_self, lt_of_get_elem?, Bool-cases, Option-cases,
}
use livox_mid360_rko_lio_ros.Base.Dict.{find, insert, text_key, find-insert, find-erase, beq_self}
use livox_mid360_rko_lio_ros.Comm.{livox_lidar_type}
use livox_mid360_rko_lio_ros.CacheIndex.{
  CacheIndex, free_from, lookup_section, take_section, generate_index_key, get_free_index,
  get_index, lvx_get_index, reset_index,
}
use livox_mid360_rko_lio_ros.CacheIndex.Inv.{IsValid, free_slot, free_from-none}
use livox_mid360_rko_lio_ros.CacheIndex.Valid.{key_of, key_of-injective, key_of-ne}

-- The three ways in which `GetFreeIndex` ends for a lidar of the supported type: known, no slot
-- left, or the slot `i` taken for it.
abbrev pub Gets : ℕ → CacheIndex → Option ℕ → CacheIndex → Type 0
Gets handle s r s' =
    ((i : ℕ) × (find (key_of handle) s.map_index ≡ some i) × (r ≡ some i) × (s' ≡ s))
    ⊎ ((find (key_of handle) s.map_index ≡ none)
        × (free_from 0 s.index_cache ≡ none)
        × (r ≡ none)
        × (s' ≡ s))
    ⊎ ((i : ℕ) × (find (key_of handle) s.map_index ≡ none)
        × (free_from 0 s.index_cache ≡ some i)
        × (r ≡ some i)
        × (s' ≡ record {
          map_index = insert (key_of handle) i s.map_index;
          index_cache = set s.index_cache i true;
        }))

pub get_free_index-Gets :
    (handle : ℕ) (s : CacheIndex)
    → let (r, s') = get_free_index livox_lidar_type handle s in Gets handle s r s'
unfolding get_free_index generate_index_key lookup_section take_section
get_free_index-Gets handle s = elim (Option-cases (find (key_of handle) s.map_index)) [
  | inr (i, e) ↦ inl (i, e, ground arith, ground arith)
  | inl absent ↦ elim (Option-cases (free_from 0 s.index_cache)) [
    | inl full ↦ inr (inl (absent, full, ground arith, ground arith))
    | inr (i, e) ↦ inr (inr (i, absent, e, ground arith, ground arith))
  ]
]

-- On a valid cache, GetFreeIndex returns an index below 32 that GetIndex returns from then on, and
-- returns -1 exactly for a lidar without an index while all 32 are taken.
pub get_free_index_lem :
    (handle : ℕ) {s : CacheIndex}
    → IsValid s
    → let (r, s') = get_free_index livox_lidar_type handle s in
      (get_index livox_lidar_type handle s' ≡ r)
      × ((i : ℕ) → r ≡ some i → i < 32)
      × ((r ≡ none) ↔ (
          (get_index livox_lidar_type handle s ≡ none)
          × ((i : ℕ) → i < 32 → get_elem? s.index_cache i ≡ some true)))
unfolding get_index generate_index_key
get_free_index_lem handle {s} v = elim (get_free_index-Gets handle s) [
  | inl (i, e, r, q) ↦ (
    ground arith,
    λ j p. ground (arith, lt_of_get_elem? s.index_cache i (v.flagged _ i e), v.slots),
    (λ p. cc, λ p. cc (p.0)),
  )
  | inr (inl (absent, full, r, q)) ↦ (
    ground arith,
    λ j p. cc,
    (λ p. (absent, λ j h. free_from-none 0 s.index_cache full j (omega (arith, v.slots))), λ p. r),
  )
  | inr (inr (i, absent, e, r, q)) ↦
      let (free, inside) = free_slot s.index_cache e in
      (
        ground (
          arith,
          find-insert (key_of handle) (key_of handle) i s.map_index,
          beq_self (key_of handle),
        ),
        λ j p. ground (arith, v.slots),
        (λ p. cc, λ p. cc (p.1 i (omega (arith, v.slots)))),
      )
]

-- GetFreeIndex leaves the index of each other lidar, with a 32-bit handle, as it was.
pub get_free_index_other :
    (handle handle' : ℕ) (s : CacheIndex)
    → handle < 2 ^ 32
    → handle' < 2 ^ 32
    → handle ≢ handle'
    → get_index livox_lidar_type handle' (get_free_index livox_lidar_type handle s).1
      ≡ get_index livox_lidar_type handle' s
unfolding get_index generate_index_key
get_free_index_other handle handle' s h h' ne = elim (get_free_index-Gets handle s) [
  | inl (i, e, r, q) ↦ rw q
  | inr (inl (absent, full, r, q)) ↦ rw q
  | inr (inr (i, absent, e, r, q)) ↦ rw (
    q,
    find-insert (key_of handle') (key_of handle) i s.map_index,
    key_of-ne handle handle' h h' ne,
  )
]

-- In a valid cache no two lidars with 32-bit handles share an index.
pub get_index-injective :
    (handle handle' i : ℕ) {s : CacheIndex}
    → IsValid s
    → handle < 2 ^ 32
    → handle' < 2 ^ 32
    → get_index livox_lidar_type handle s ≡ some i
    → get_index livox_lidar_type handle' s ≡ some i
    → handle ≡ handle'
unfolding get_index generate_index_key
get_index-injective handle handle' i v h h' e e' =
    key_of-injective handle handle' h h' (v.injective _ _ i e e')

-- The two are the same function.
pub lvx_get_index-eq :
    (lidar_type handle : ℕ) (s : CacheIndex)
    → lvx_get_index lidar_type handle s ≡ get_free_index lidar_type handle s
unfolding lvx_get_index get_free_index generate_index_key lookup_section
lvx_get_index-eq lidar_type handle s = ground arith

-- On a valid cache, after ResetIndex the lidar has no index, each other lidar keeps its own, and
-- the index that it had is free.
pub reset_index_lem :
    (handle : ℕ) {s : CacheIndex}
    → IsValid s
    → handle < 2 ^ 32
    → let s' = reset_index livox_lidar_type handle s in
      (get_index livox_lidar_type handle s' ≡ none)
      × ((handle' : ℕ)
          → handle' < 2 ^ 32
          → handle ≢ handle'
          → get_index livox_lidar_type handle' s' ≡ get_index livox_lidar_type handle' s)
      × ((i : ℕ)
          → get_index livox_lidar_type handle s ≡ some i
          → get_elem? s'.index_cache i ≡ some false)
unfolding reset_index get_index generate_index_key
reset_index_lem handle {s} v h = elim (Option-cases (find (key_of handle) s.map_index)) [
  | inl absent ↦ (ground arith, λ handle' h' ne. rw (absent, reset_index), λ i e. cc)
  | inr (i, e) ↦ (
    ground
        (arith, find-erase (key_of handle) (key_of handle) s.map_index, beq_self (key_of handle)),
    λ handle' h' ne. ground (
      arith,
      find-erase (key_of handle') (key_of handle) s.map_index,
      key_of-ne handle handle' h h' ne,
    ),
    λ j p. ground (
      arith,
      get_elem?-set_self s.index_cache i false (lt_of_get_elem? s.index_cache i (v.flagged _ i e)),
    ),
  )
]

-- An index that `GetIndex` returns lies in the device table.
pub get_index-lt :
    (lidar_type handle i : ℕ) {s : CacheIndex}
    → IsValid s
    → get_index lidar_type handle s ≡ some i
    → i < 32
unfolding get_index generate_index_key
get_index-lt lidar_type handle i {s} v e = elim (Bool-cases (lidar_type == livox_lidar_type)) [
  | inr other ↦ ground arith
  | inl livox ↦
      let found : find (key_of handle) s.map_index ≡ some i = ground arith in
      omega (arith, lt_of_get_elem? s.index_cache i (v.flagged _ i found), v.slots)
]
