-- ===== src/Ldq/Window.antt =====
-- A run of packets round the array of a ring, by the position of its first one.
use native.Mathlib.Nat.{
  add-zero, mod-add-mod, mod-eq_of_lt, mod-eq-sub-mod, mod-mod_of_dvd, dvd_refl,
  dvd-mul_right_of_dvd, pow-suc, mod-lt,
}
use Prim.Native.Nat.{◌∣◌}
use livox_mid360_rko_lio_ros.Base.{
  ℕ, zero, suc, ◌+◌, ◌-◌, ◌%◌, ◌^◌, ◌≤◌, ◌<◌, ◌≡◌, ◌≢◌, sym, ap, subst, ◌∙◌, Option, some, List, [],
  ◌∷◌, ◌++◌, arith, dec_lt, dec_le, length, get_elem?, set, get_elem?-set_self, get_elem?-set_ne,
}

-- Positions that agree modulo `s` stay so one step on.
mod-suc_congr : (a b s : ℕ) → a % s ≡ b % s → (a + 1) % s ≡ (b + 1) % s
mod-suc_congr a b s e = sym (mod-add-mod a s 1) ∙ ap (λ t. (t + 1) % s) e ∙ mod-add-mod b s 1

-- Fewer than `s` steps round the ring do not come back.
mod-add-ne : (r d s : ℕ) → 0 < d → d < s → (r + d) % s ≢ r % s
mod-add-ne r d s pos small e = elim (dec_lt (r % s + d) s) [
  | yes below ↦ omega (arith, mod-add-mod r s d, mod-eq_of_lt below, e)
  | no above ↦ omega (
    arith,
    e,
    mod-add-mod r s d,
    mod-lt r {m = s} (omega arith),
    mod-eq-sub-mod {n = r % s + d} {m = s} (omega arith),
    mod-eq_of_lt {n = r % s + d - s} {m = s} (omega (arith, mod-lt r {m = s} (omega arith))),
  )
]

-- A power of two divides each larger one.
pow-dvd : (k n : ℕ) → k ≤ n → 2 ^ k ∣ 2 ^ n
pow-dvd k zero h = let e : k ≡ 0 = omega arith in rw e (dvd_refl 1)
pow-dvd k (suc n) h = elim (dec_le k n) [
  | yes below ↦ rw (pow-suc 2 n) (dvd-mul_right_of_dvd (2 ^ k) (pow-dvd k n below) 2)
  | no above ↦ let e : k ≡ suc n = omega arith in rw e (dvd_refl (2 ^ suc n))
]

-- So the wrap of a 32-bit counter does not move its position in the ring.
pub mod-wrap32 : (k a : ℕ) → k ≤ 32 → a % 2 ^ 32 % 2 ^ k ≡ a % 2 ^ k
mod-wrap32 k a h = mod-mod_of_dvd (2 ^ k) a (pow-dvd k 32 h)

module _ {A : Type 0} where
  -- From position `r` on, round an array of `s` slots, stand the elements of `c`.
  abbrev pub Window : List (Option A) → ℕ → ℕ → List A → Type 0
  Window l s r [] = Unit {0}
  Window l s r (x ∷ c) = (get_elem? l (r % s) ≡ some (some x)) × Window l s (r + 1) c

  pub Window-congr :
      (l : List (Option A)) (s r r' : ℕ) (c : List A)
      → r % s ≡ r' % s
      → Window l s r c
      → Window l s r' c
  Window-congr l s r r' [] e w = tt
  Window-congr l s r r' (x ∷ c) e w =
      (rw (← e) w.0, Window-congr l s (r + 1) (r' + 1) c (mod-suc_congr r r' s e) w.1)

  -- Writing just past a window that does not fill the ring extends it.
  pub Window-push :
      (l : List (Option A)) (s r : ℕ) (c : List A) (v : A)
      → length c < s
      → s ≤ length l
      → Window l s r c
      → Window (set l ((r + length c) % s) (some v)) s r (c ++ v ∷ [])
  Window-push l s r [] v room fits w = (
    rw add-zero
        (get_elem?-set_self l (r % s) (some v) (omega (arith, mod-lt r {m = s} (omega arith)))),
    tt,
  )
  Window-push l s r (x ∷ c) v room fits w = (
    get_elem?-set_ne l ((r + length (x ∷ c)) % s) (r % s) (some v)
          (mod-add-ne r (length (x ∷ c)) s (omega arith) room)
        ∙ w.0,
    (let e : r + length (x ∷ c) ≡ r + 1 + length c = omega arith in
        subst (λ t. Window (set l (t % s) (some v)) s (r + 1) (c ++ v ∷ [])) (sym e)
          (Window-push l s (r + 1) c v (omega arith) fits w.1)),
  )
