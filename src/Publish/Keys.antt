-- ===== src/Publish/Keys.antt =====
-- The handlers in the order of their keys, as std::map keeps them.
use livox_mid360_rko_lio_ros.Base.{
  ℕ, suc, length, ◌<◌, ◌≡◌, refl, sym, ap, subst, ◌∙◌, ◌≤◌, ◌+◌, inl, inr, false, none, some, List,
  [], ◌∷◌, arith, Bool-cases, ltb, ltb→lt, ==_iff, ◌==◌, if◌then◌else◌,
}
use livox_mid360_rko_lio_ros.Base.Dict.{Dict, find, insert, nat_key}
use livox_mid360_rko_lio_ros.Points.{LidarPubHandler}

abbrev pub Handlers : Type 0
Handlers = Dict ℕ LidarPubHandler

abbrev pub keys : Handlers → List ℕ
keys [] = []
keys ((k, h) ∷ m) = k ∷ keys m

unfoldable pub Ascending : List ℕ → Type 0
Ascending [] = Unit {0}
Ascending (k ∷ []) = Unit {0}
Ascending (k ∷ j ∷ ks) = (k < j) × Ascending (j ∷ ks)

-- No key stands twice.
unfoldable pub Distinct : Handlers → Type 0
Distinct [] = Unit {0}
Distinct ((k, h) ∷ m) = (find k m ≡ none) × Distinct m

find_below :
    (m : Handlers) (k j : ℕ) (w : LidarPubHandler)
    → Ascending (j ∷ keys m)
    → k < j
    → find k ((j, w) ∷ m) ≡ none
unfolding find Ascending
find_below [] k j w up below = let e : (j == k) ≡ false = ground arith in rw e refl
find_below ((i, u) ∷ m) k j w up below =
    let e : (j == k) ≡ false = ground arith in rw e (find_below m k i u up.1 (omega (arith, up.0)))

pub Ascending-Distinct : (m : Handlers) → Ascending (keys m) → Distinct m
unfolding Ascending Distinct find
Ascending-Distinct [] up = tt
Ascending-Distinct ((k, h) ∷ []) up = (refl, tt)
Ascending-Distinct ((k, h) ∷ (j, w) ∷ m) up =
    (find_below m k j w up.1 up.0, Ascending-Distinct ((j, w) ∷ m) up.1)

pub rest_Ascending : (j : ℕ) (ks : List ℕ) → Ascending (j ∷ ks) → Ascending ks
unfolding Ascending
rest_Ascending j [] up = tt
rest_Ascending j (k ∷ ks) up = up.1

-- A new value under a key that is there.
pub keys-insert :
    (k : ℕ) (v h : LidarPubHandler) (m : Handlers)
    → Ascending (keys m)
    → find k m ≡ some h
    → keys (insert k v m) ≡ keys m
unfolding Ascending find insert
keys-insert k v h [] up at = cc
keys-insert k v h ((j, w) ∷ m) up at = elim (Bool-cases (j == k)) [
  | inl same ↦ rw same (ap (λ i. i ∷ keys m) (sym ((==_iff j k).0 same)))
  | inr other ↦ elim (Bool-cases (ltb k j)) [
    | inl below ↦
        let missing = find_below m k j w up (ltb→lt k j below) in
        let there : find k ((j, w) ∷ m) ≡ some h = at in cc
    | inr above ↦
        let there : find k m ≡ some h = ap (λ b. if b then some w else find k m) (sym other) ∙ at in
        rw (other, above) (ap (◌∷◌ j) (keys-insert k v h m (rest_Ascending j (keys m) up) there))
  ]
]

pub length-keys : (m : Handlers) → length (keys m) ≡ length m
length-keys [] = refl
length-keys ((k, h) ∷ m) = ap suc (length-keys m)

-- Any value, under a key that may be new.
Ascending-above :
    (j k : ℕ) (v : LidarPubHandler) (m : Handlers)
    → Ascending (j ∷ keys m)
    → j < k
    → Ascending (j ∷ keys (insert k v m))
unfolding Ascending insert
Ascending-above j k v [] up above = (above, tt)
Ascending-above j k v ((i, u) ∷ m) up above = elim (Bool-cases (i == k)) [
  | inl same ↦
      let e : i ≡ k = (==_iff i k).0 same in
      rw same (above, subst (λ l. Ascending (l ∷ keys m)) e up.1)
  | inr other ↦ elim (Bool-cases (ltb k i)) [
    | inl below ↦ rw (other, below) (above, (ltb→lt k i below, up.1))
    | inr past ↦ rw (other, past) (up.0, Ascending-above i k v m up.1 (ground arith))
  ]
]

pub insert-Ascending :
    (k : ℕ) (v : LidarPubHandler) (m : Handlers)
    → Ascending (keys m)
    → Ascending (keys (insert k v m))
unfolding Ascending insert
insert-Ascending k v [] up = tt
insert-Ascending k v ((i, u) ∷ m) up = elim (Bool-cases (i == k)) [
  | inl same ↦
      let e : i ≡ k = (==_iff i k).0 same in rw same (subst (λ l. Ascending (l ∷ keys m)) e up)
  | inr other ↦ elim (Bool-cases (ltb k i)) [
    | inl below ↦ rw (other, below) (ltb→lt k i below, up)
    | inr past ↦ rw (other, past) (Ascending-above i k v m up (ground arith))
  ]
]

pub length-keys-insert :
    (k : ℕ) (v : LidarPubHandler) (m : Handlers)
    → length (keys (insert k v m)) ≤ length (keys m) + 1
unfolding insert
length-keys-insert k v [] = omega arith
length-keys-insert k v ((i, u) ∷ m) = ground (arith, length-keys-insert k v m)
