-- ===== src/CacheIndex.antt =====
-- comm/cache_index.h and comm/cache_index.cpp: which slot of the driver's device table a lidar has.
-- A return code -1 is `none`; a return code 0 with the reference argument `index` set is `some`.
pub mod Inv
pub mod Valid
pub mod Lookup
pub mod Race
use livox_mid360_rko_lio_ros.Base.{
  ℕ, zero, suc, ◌+◌, Bool, true, false, Option, none, some, List, [], ◌∷◌, ◌++◌, ◌==◌,
  if◌then◌else◌, set, replicate, get_elem?,
}
use livox_mid360_rko_lio_ros.Base.Dict.{Dict, find, insert, erase, text_key}
use livox_mid360_rko_lio_ros.Base.Decimal.{to_string}
use livox_mid360_rko_lio_ros.Comm.{max_source_lidar, livox_lidar_type}

-- The map's keys are texts, by their bytes.
pub record CacheIndex : Type 0 where
  pub map_index : Dict (List ℕ) ℕ
  pub index_cache : List Bool

-- The constructor.
unfoldable pub cache_index : CacheIndex
cache_index = record { map_index = []; index_cache = replicate max_source_lidar false }

-- "livox_lidar_"
abbrev pub key_prefix : List ℕ
key_prefix = b'l' ∷ b'i' ∷ b'v' ∷ b'o' ∷ b'x' ∷ b'_' ∷ b'l' ∷ b'i' ∷ b'd' ∷ b'a' ∷ b'r' ∷ b'_' ∷ []

unfoldable pub generate_index_key : ℕ → ℕ → Option (List ℕ)
generate_index_key lidar_type handle =
    if lidar_type == livox_lidar_type then some (key_prefix ++ to_string handle) else none

-- The loop of `GetFreeIndex` over `index_cache_`, from index `i` on.
unfoldable pub free_from : ℕ → List Bool → Option ℕ
free_from i [] = none
free_from i (taken ∷ rest) = if taken then free_from (i + 1) rest else some i

-- The two locked sections of `GetFreeIndex`, which another thread may part.
unfoldable pub lookup_section : List ℕ → CacheIndex → Option ℕ
lookup_section key s = find key s.map_index

unfoldable pub take_section : List ℕ → CacheIndex → Option ℕ × CacheIndex
unfolding free_from
take_section key s = elim (free_from 0 s.index_cache) [
  | none ↦ (none, s)
  | some i ↦ (
    some i,
    record { map_index = insert key i s.map_index; index_cache = set s.index_cache i true },
  )
]

unfoldable pub get_free_index : ℕ → ℕ → CacheIndex → Option ℕ × CacheIndex
unfolding generate_index_key lookup_section take_section
get_free_index lidar_type handle s = elim (generate_index_key lidar_type handle) [
  | none ↦ (none, s)
  | some key ↦ elim (lookup_section key s) [ some i ↦ (some i, s) | none ↦ take_section key s ]
]

pub get_index : ℕ → ℕ → CacheIndex → Option ℕ
unfolding generate_index_key
get_index lidar_type handle s = elim (generate_index_key lidar_type handle) [
  | none ↦ none
  | some key ↦ find key s.map_index
]

pub lvx_get_index : ℕ → ℕ → CacheIndex → Option ℕ × CacheIndex
unfolding generate_index_key get_free_index
lvx_get_index lidar_type handle s = elim (generate_index_key lidar_type handle) [
  | none ↦ (none, s)
  | some key ↦ elim (find key s.map_index) [
    | some i ↦ (some i, s)
    | none ↦ get_free_index lidar_type handle s
  ]
]

-- The device's `lidar_type` and `handle` are the arguments.
pub reset_index : ℕ → ℕ → CacheIndex → CacheIndex
unfolding generate_index_key
reset_index lidar_type handle s = elim (generate_index_key lidar_type handle) [
  | none ↦ s
  | some key ↦ elim (find key s.map_index) [
    | none ↦ s
    | some i ↦ record { map_index = erase key s.map_index; index_cache = set s.index_cache i false }
  ]
]
