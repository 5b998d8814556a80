-- ===== src/CacheIndex/Inv.antt =====
-- The invariant of the index cache: keys and taken slots stand in one-to-one correspondence.
use livox_mid360_rko_lio_ros.Base.{
  ℕ, zero, suc, ◌+◌, ◌<◌, ◌≡◌, refl, sym, ap, ◌∙◌, inl, inr, Bool, true, false, none, some, List,
  [], ◌∷◌, arith, ℕ_discrete, length, set, get_elem?, length-set, get_elem?-set_self,
  get_elem?-set_ne, lt_of_get_elem?, Bool-cases,
}
use livox_mid360_rko_lio_ros.Base.Dict.{
  find, insert, erase, text_eq, text_key, text_eq_iff, find-insert, find-erase, beq_self,
}
use livox_mid360_rko_lio_ros.CacheIndex.{CacheIndex, free_from}

pub record IsValid (s : CacheIndex) : Type 0 where
  pub slots : length s.index_cache ≡ 32
  pub flagged :
      (key : List ℕ) (i : ℕ) → find key s.map_index ≡ some i → get_elem? s.index_cache i ≡ some true
  pub owned :
      (i : ℕ)
      → get_elem? s.index_cache i ≡ some true
      → (key : List ℕ) × (find key s.map_index ≡ some i)
  pub injective :
      (key key' : List ℕ) (i : ℕ)
      → find key s.map_index ≡ some i
      → find key' s.map_index ≡ some i
      → key ≡ key'

pub free_from-some :
    (i : ℕ) (cache : List Bool) {j : ℕ}
    → free_from i cache ≡ some j
    → (d : ℕ) × (j ≡ i + d) × (get_elem? cache d ≡ some false)
unfolding free_from
free_from-some i [] e = cc
free_from-some i (true ∷ rest) e =
    let (d, p, q) = free_from-some (i + 1) rest e in (suc d, omega arith, q)
free_from-some i (false ∷ rest) e = (0, ground arith, refl)

pub free_from-none :
    (i : ℕ) (cache : List Bool)
    → free_from i cache ≡ none
    → (d : ℕ) → d < length cache
    → get_elem? cache d ≡ some true
unfolding free_from
free_from-none i [] e d h = absurd (omega arith)
free_from-none i (true ∷ rest) e zero h = refl
free_from-none i (true ∷ rest) e (suc d) h = free_from-none (i + 1) rest e d (omega arith)
free_from-none i (false ∷ rest) e d h = cc

-- The slot that is taken is free, and within the array.
pub free_slot :
    (cache : List Bool) {i : ℕ}
    → free_from 0 cache ≡ some i
    → (get_elem? cache i ≡ some false) × (i < length cache)
free_slot cache {i} e =
    let (d, p, q) = free_from-some 0 cache e in
    let same : i ≡ d = omega arith in (rw same q, rw same (lt_of_get_elem? cache d q))

module _ {s : CacheIndex} (v : IsValid s) (key : List ℕ) (i : ℕ)
    (absent : find key s.map_index ≡ none) (free : get_elem? s.index_cache i ≡ some false) where
  abbrev taken : CacheIndex
  taken = record { map_index = insert key i s.map_index; index_cache = set s.index_cache i true }

  take-flagged :
      (j : List ℕ) (n : ℕ)
      → find j taken.map_index ≡ some n
      → get_elem? taken.index_cache n ≡ some true
  take-flagged j n e = elim (Bool-cases (text_eq key j)) [
    | inl same ↦ ground (
      arith,
      find-insert j key i s.map_index,
      get_elem?-set_self s.index_cache i true (lt_of_get_elem? s.index_cache i free),
    )
    | inr other ↦ ground (
      arith,
      find-insert j key i s.map_index,
      v.flagged j n,
      get_elem?-set_ne s.index_cache i n true,
    )
  ]

  take-owned :
      (n : ℕ)
      → get_elem? taken.index_cache n ≡ some true
      → (j : List ℕ) × (find j taken.map_index ≡ some n)
  take-owned n e = elim (ℕ_discrete i n) [
    | yes same ↦ (key, rw (find-insert key key i s.map_index, beq_self key) (ap some same))
    | no other ↦
        let (j, q) = v.owned n (sym (get_elem?-set_ne s.index_cache i n true other) ∙ e) in
        (j, ground (arith, find-insert j key i s.map_index, text_eq_iff key j))
  ]

  take-injective :
      (j j' : List ℕ) (n : ℕ)
      → find j taken.map_index ≡ some n
      → find j' taken.map_index ≡ some n
      → j ≡ j'
  take-injective j j' n e e' = ground (
    arith,
    find-insert j key i s.map_index,
    find-insert j' key i s.map_index,
    text_eq_iff key j,
    text_eq_iff key j',
    v.injective j j' n,
    v.flagged j n,
    v.flagged j' n,
  )

  pub take-IsValid : IsValid taken
  take-IsValid = record {
    slots = length-set s.index_cache i true ∙ v.slots;
    flagged = take-flagged;
    owned = take-owned;
    injective = take-injective;
  }

module _ {s : CacheIndex} (v : IsValid s) (key : List ℕ) (i : ℕ)
    (present : find key s.map_index ≡ some i) where
  abbrev dropped : CacheIndex
  dropped = record { map_index = erase key s.map_index; index_cache = set s.index_cache i false }

  drop-flagged :
      (j : List ℕ) (n : ℕ)
      → find j dropped.map_index ≡ some n
      → get_elem? dropped.index_cache n ≡ some true
  drop-flagged j n e = ground (
    arith,
    find-erase j key s.map_index,
    text_eq_iff key j,
    v.injective key j n,
    v.flagged j n,
    get_elem?-set_ne s.index_cache i n false,
  )

  drop-owned :
      (n : ℕ)
      → get_elem? dropped.index_cache n ≡ some true
      → (j : List ℕ) × (find j dropped.map_index ≡ some n)
  drop-owned n e = elim (ℕ_discrete i n) [
    | yes same ↦ absurd (cleared same)
    | no other ↦
        let (j, q) = v.owned n (sym (get_elem?-set_ne s.index_cache i n false other) ∙ e) in
        (j, ground (arith, find-erase j key s.map_index, text_eq_iff key j))
  ]
    where
      cleared : i ≡ n → ⊥
      cleared same = ground (
        arith,
        get_elem?-set_self s.index_cache i false
            (lt_of_get_elem? s.index_cache i (v.flagged key i present)),
      )

  pub drop-IsValid : IsValid dropped
  drop-IsValid = record {
    slots = length-set s.index_cache i false ∙ v.slots;
    flagged = drop-flagged;
    owned = drop-owned;
    injective = λ j j' n e e'.
        ground
          (arith, find-erase j key s.map_index, find-erase j' key s.map_index, v.injective j j' n);
  }
