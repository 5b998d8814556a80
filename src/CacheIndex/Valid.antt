-- ===== src/CacheIndex/Valid.antt =====
-- The keys of the index cache, and its invariant through `GetFreeIndex` and `ResetIndex`.
use livox_mid360_rko_lio_ros.Base.{
  ℕ, zero, suc, ◌^◌, ◌<◌, ◌≡◌, ◌≢◌, refl, ap, inl, inr, true, false, none, some, List, ◌++◌, ◌==◌,
  get_elem?, drop, replicate, Bool-cases, Option-cases,
}
use livox_mid360_rko_lio_ros.Base.Dict.{find, text_eq, text_key, text_eq_iff}
use livox_mid360_rko_lio_ros.Base.Decimal.{to_string, to_string-injective}
use livox_mid360_rko_lio_ros.Comm.{livox_lidar_type}
use livox_mid360_rko_lio_ros.CacheIndex.{
  CacheIndex, cache_index, free_from, lookup_section, take_section, generate_index_key, key_prefix,
  get_free_index, reset_index,
}
use livox_mid360_rko_lio_ros.CacheIndex.Inv.{IsValid, take-IsValid, drop-IsValid, free_slot}

-- The key of a lidar of the supported type.
abbrev pub key_of : ℕ → List ℕ
key_of handle = key_prefix ++ to_string handle

pub key_of-injective : (h h' : ℕ) → h < 2 ^ 32 → h' < 2 ^ 32 → key_of h ≡ key_of h' → h ≡ h'
key_of-injective h h' p q e = to_string-injective h h' p q (ap (drop 12) e)

-- The keys of two handles are told apart by the test of texts.
pub key_of-ne :
    (h h' : ℕ) → h < 2 ^ 32 → h' < 2 ^ 32 → h ≢ h' → text_eq (key_of h) (key_of h') ≡ false
key_of-ne h h' p q ne = elim (Bool-cases (text_eq (key_of h) (key_of h'))) [
  | inl same ↦ absurd (ne (key_of-injective h h' p q ((text_eq_iff _ _).0 same)))
  | inr other ↦ other
]

-- The constructor's cache is valid.
replicate-false : (n i : ℕ) → get_elem? (replicate n false) i ≢ some true
replicate-false zero i e = cc
replicate-false (suc n) zero e = cc
replicate-false (suc n) (suc i) e = replicate-false n i e

pub cache_index-IsValid : IsValid cache_index
unfolding cache_index find
cache_index-IsValid = record {
  slots = refl;
  flagged = λ key i e. cc;
  owned = λ i e. absurd (replicate-false 32 i e);
  injective = λ key key' i e e'. cc;
}

take_section-IsValid :
    (key : List ℕ) {s : CacheIndex}
    → IsValid s
    → find key s.map_index ≡ none
    → IsValid (take_section key s).1
unfolding take_section
take_section-IsValid key {s} v absent = elim (Option-cases (free_from 0 s.index_cache)) [
  | inl full ↦ rw (full, take_section) v
  | inr (i, e) ↦ rw (e, take_section) (take-IsValid v key i absent (free_slot s.index_cache e).0)
]

-- GetFreeIndex keeps the invariant of the cache: keys and taken slots correspond one to one.
pub get_free_index-IsValid :
    (lidar_type handle : ℕ) {s : CacheIndex}
    → IsValid s
    → IsValid (get_free_index lidar_type handle s).1
unfolding get_free_index generate_index_key lookup_section
get_free_index-IsValid lidar_type handle {s} v =
    elim (Bool-cases (lidar_type == livox_lidar_type)) [
      | inr other ↦ rw (other, get_free_index) v
      | inl livox ↦ elim (Option-cases (find (key_of handle) s.map_index)) [
        | inl absent ↦
            rw (livox, get_free_index, absent) (take_section-IsValid (key_of handle) v absent)
        | inr (i, e) ↦ rw (livox, get_free_index, e) v
      ]
    ]

-- ResetIndex keeps the invariant of the cache.
pub reset_index-IsValid :
    (lidar_type handle : ℕ) {s : CacheIndex} → IsValid s → IsValid (reset_index lidar_type handle s)
unfolding reset_index generate_index_key
reset_index-IsValid lidar_type handle {s} v = elim (Bool-cases (lidar_type == livox_lidar_type)) [
  | inr other ↦ rw (other, reset_index) v
  | inl livox ↦ elim (Option-cases (find (key_of handle) s.map_index)) [
    | inl absent ↦ rw (livox, reset_index, absent) v
    | inr (i, e) ↦ rw (livox, reset_index, e) (drop-IsValid v (key_of handle) i e)
  ]
]
