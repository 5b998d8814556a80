-- ===== src/CacheIndex/Race.antt =====
-- `GetFreeIndex` looks the key up and takes a slot in two locked sections. Two threads that register
-- one lidar may both pass the first section before either enters the second.
use livox_mid360_rko_lio_ros.Base.{
  ℕ, ◌<◌, ◌≡◌, ◌≢◌, true, false, none, some, List, arith, length, set, get_elem?,
  get_elem?-set_self, get_elem?-set_ne,
}
use livox_mid360_rko_lio_ros.Base.Dict.{find, insert, text_key, find-insert}
use livox_mid360_rko_lio_ros.CacheIndex.{CacheIndex, free_from, take_section}
use livox_mid360_rko_lio_ros.CacheIndex.Inv.{IsValid, free_slot}

-- If two threads that register one lidar both find its key absent in a valid cache with two free
-- slots, they take different slots and the first one stays taken with no key that leads to it.
pub take_twice_leaks :
    (key : List ℕ) (i j : ℕ) {s : CacheIndex}
    → IsValid s
    → find key s.map_index ≡ none
    → free_from 0 s.index_cache ≡ some i
    → free_from 0 (set s.index_cache i true) ≡ some j
    → let (r, s') = take_section key s in
      let (r', s'') = take_section key s' in
      (r ≡ some i)
      × (r' ≡ some j)
      × (i ≢ j)
      × (get_elem? s''.index_cache i ≡ some true)
      × ((key' : List ℕ) → find key' s''.map_index ≢ some i)
      × (¬ IsValid s'')
unfolding take_section
take_twice_leaks key i j {s} v absent first second =
    (ground arith, ground arith, apart, ground (arith, still), unowned, λ v'. leaked v')
  where
    free : (get_elem? s.index_cache i ≡ some false) × (i < length s.index_cache)
    free = free_slot s.index_cache first

    free' :
        (get_elem? (set s.index_cache i true) j ≡ some false)
        × (j < length (set s.index_cache i true))
    free' = free_slot (set s.index_cache i true) second

    apart : i ≢ j
    apart e = ground (arith, get_elem?-set_self s.index_cache i true, free.1, free'.0)

    still : get_elem? (set (set s.index_cache i true) j true) i ≡ some true
    still = ground (
      arith,
      free.1,
      apart,
      get_elem?-set_self s.index_cache i true,
      get_elem?-set_ne (set s.index_cache i true) j i true,
    )

    unowned :
        (key' : List ℕ) → find key' (take_section key (take_section key s).1).1.map_index ≢ some i
    unowned key' e = ground (
      arith,
      free.0,
      apart,
      find-insert key' key j (insert key i s.map_index),
      find-insert key' key i s.map_index,
      v.flagged key' i,
    )

    leaked : ¬ IsValid (take_section key (take_section key s).1).1
    leaked v' = let (key', e) = v'.owned i (ground (arith, still)) in unowned key' e
