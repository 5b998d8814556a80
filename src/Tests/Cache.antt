-- ===== src/Tests/Cache.antt =====
-- The theorems on the index cache at the cache with one registered lidar.
use livox_mid360_rko_lio_ros.Base.{
  ℕ, ◌<◌, ◌^◌, ◌≡◌, ◌≢◌, ◌↔◌, refl, ◌∙◌, true, false, none, some, List, arith, get_elem?,
}
use livox_mid360_rko_lio_ros.Base.Dict.{find, text_key}
use livox_mid360_rko_lio_ros.CacheIndex.{
  cache_index, generate_index_key, lookup_section, free_from, take_section, get_free_index,
  get_index, reset_index,
}
use livox_mid360_rko_lio_ros.CacheIndex.Inv.{IsValid}
use livox_mid360_rko_lio_ros.CacheIndex.Valid.{
  key_of, cache_index-IsValid, get_free_index-IsValid, reset_index-IsValid,
}
use livox_mid360_rko_lio_ros.CacheIndex.Lookup.{
  get_free_index_lem, get_free_index_other, get_index-injective, reset_index_lem,
}
use livox_mid360_rko_lio_ros.CacheIndex.Race.{take_twice_leaks}
use livox_mid360_rko_lio_ros.Tests.{cache}

abbrev seven : ℕ
seven = 7

abbrev first : ℕ
first = 0

pub cache-IsValid : IsValid cache
cache-IsValid = get_free_index-IsValid 8 7 cache_index-IsValid

get_free_index-IsValid_example : IsValid (get_free_index 8 7 cache_index).1
get_free_index-IsValid_example = get_free_index-IsValid 8 7 cache_index-IsValid

reset_index-IsValid_example : IsValid (reset_index 8 7 cache)
reset_index-IsValid_example = reset_index-IsValid 8 7 cache-IsValid

get_free_index_lem_example :
    let (r, s') = get_free_index 8 9 cache in
    (get_index 8 9 s' ≡ r)
    × ((i : ℕ) → r ≡ some i → i < 32)
    × ((r ≡ none) ↔ (
        (get_index 8 9 cache ≡ none)
        × ((i : ℕ) → i < 32 → get_elem? cache.index_cache i ≡ some true)))
get_free_index_lem_example = get_free_index_lem 9 cache-IsValid

get_free_index_other_example : get_index 8 7 (get_free_index 8 9 cache).1 ≡ get_index 8 7 cache
get_free_index_other_example =
    get_free_index_other 9 7 cache (omega arith) (omega arith) (λ e. omega arith)

pub registered : get_index 8 7 cache ≡ some 0
unfolding get_free_index generate_index_key lookup_section take_section free_from cache_index find
registered = (get_free_index_lem 7 cache_index-IsValid).0 ∙ refl

get_index-injective_example : seven ≡ 7
get_index-injective_example =
    get_index-injective 7 7 0 cache-IsValid (omega arith) (omega arith) registered registered

reset_index_lem_example :
    let s' = reset_index 8 7 cache in
    (get_index 8 7 s' ≡ none)
    × ((handle' : ℕ)
        → handle' < 2 ^ 32
        → 7 ≢ handle'
        → get_index 8 handle' s' ≡ get_index 8 handle' cache)
    × ((i : ℕ) → get_index 8 7 cache ≡ some i → get_elem? s'.index_cache i ≡ some false)
reset_index_lem_example = reset_index_lem 7 cache-IsValid (omega arith)

take_twice_leaks_example :
    let (r, s') = take_section (key_of 7) cache_index in
    let (r', s'') = take_section (key_of 7) s' in
    (r ≡ some 0)
    × (r' ≡ some 1)
    × (first ≢ 1)
    × (get_elem? s''.index_cache 0 ≡ some true)
    × ((key : List ℕ) → find key s''.map_index ≢ some 0)
    × (¬ IsValid s'')
unfolding find cache_index free_from
take_twice_leaks_example = take_twice_leaks (key_of 7) 0 1 cache_index-IsValid refl refl refl
