-- ===== src/Publish/Known.antt =====
-- Which lidars have a handler, and that handlers of at most 32 lidars are at most 32.
use livox_mid360_rko_lio_ros.Base.{
  ℕ, suc, length, ◌+◌, ◌≤◌, ◌<◌, ◌≡◌, ◌≢◌, refl, sym, subst, ◌∙◌, ◌⊎◌, inl, inr, none, List, [],
  ◌∷◌, arith, Bool-cases, ltb, ==_iff, ◌==◌,
}
use livox_mid360_rko_lio_ros.Base.Dict.{find, insert, nat_key}
use livox_mid360_rko_lio_ros.Points.{LidarPubHandler}
use livox_mid360_rko_lio_ros.Publish.Keys.{Handlers, keys, Ascending, rest_Ascending}

abbrev pub IsIn : ℕ → List ℕ → Type 0
IsIn j [] = ⊥
IsIn j (k ∷ ks) = (k ≡ j) ⊎ IsIn j ks

IsIn-cons : (j k i : ℕ) (ks : List ℕ) → (i ≡ j) ⊎ ((k ≡ j) ⊎ IsIn j ks) → (k ≡ j) ⊎ IsIn j (i ∷ ks)
IsIn-cons j k i ks (inl e) = inr (inl e)
IsIn-cons j k i ks (inr (inl e)) = inl e
IsIn-cons j k i ks (inr (inr r)) = inr (inr r)

pub IsIn-insert :
    (j k : ℕ) (v : LidarPubHandler) (m : Handlers)
    → IsIn j (keys (insert k v m))
    → (k ≡ j) ⊎ IsIn j (keys m)
unfolding insert
IsIn-insert j k v [] at = at
IsIn-insert j k v ((i, u) ∷ m) at = elim (Bool-cases (i == k)) [
  | inl same ↦
      let there : IsIn j (k ∷ keys m) = rw same at at in
      inr (subst (λ l. IsIn j (l ∷ keys m)) (sym ((==_iff i k).0 same)) there)
  | inr other ↦ elim (Bool-cases (ltb k i)) [
    | inl below ↦ rw (other, below) at at
    | inr past ↦
        let there : IsIn j (i ∷ keys (insert k v m)) = rw (other, past) at at in
        IsIn-cons j k i (keys m)
          (elim there [ inl e ↦ inl e | inr r ↦ inr (IsIn-insert j k v m r) ])
  ]
]

-- A list without `k`, one shorter.
remove :
    (k : ℕ) (ks : List ℕ)
    → IsIn k ks
    → (rest : List ℕ) × (length ks ≡ suc (length rest))
      × ((j : ℕ) → IsIn j ks → k ≢ j → IsIn j rest)
remove k [] at = elim at [ ]
remove k (i ∷ ks) (inl e) =
    (ks, refl, λ j at apart. elim at [ inl f ↦ absurd (apart (sym e ∙ f)) | inr r ↦ r ])
remove k (i ∷ ks) (inr r) =
    let (rest, shorter, kept) = remove k ks r in
    (
      i ∷ rest,
      omega (arith, shorter),
      λ j at apart. elim at [ inl f ↦ inl f | inr s ↦ inr (kept j s apart) ],
    )

above : (k j : ℕ) (ks : List ℕ) → Ascending (k ∷ ks) → IsIn j ks → k < j
unfolding Ascending
above k j [] up at = elim at [ ]
above k j (i ∷ ks) up (inl e) = omega (arith, up.0)
above k j (i ∷ ks) up (inr r) = omega (arith, up.0, above i j ks up.1 r)

pub length-le_of_IsIn :
    (ks hs : List ℕ) → Ascending ks → ((j : ℕ) → IsIn j ks → IsIn j hs) → length ks ≤ length hs
length-le_of_IsIn [] hs up sub = omega arith
length-le_of_IsIn (k ∷ ks) hs up sub =
    let (rest, shorter, kept) = remove k hs (sub k (inl refl)) in
    omega (
      arith,
      shorter,
      length-le_of_IsIn ks rest (rest_Ascending k ks up)
          (λ j at. kept j (sub j (inr at)) (λ e. let below = above k j ks up at in omega arith)),
    )

-- A new key makes the map longer.
pub length-keys-insert_fresh :
    (k : ℕ) (v : LidarPubHandler) (m : Handlers)
    → find k m ≡ none
    → length (keys (insert k v m)) ≡ length (keys m) + 1
unfolding find insert
length-keys-insert_fresh k v [] fresh = omega arith
length-keys-insert_fresh k v ((i, u) ∷ m) fresh = ground (arith, length-keys-insert_fresh k v m)
