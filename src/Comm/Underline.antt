-- ===== src/Comm/Underline.antt =====
-- `ReplacePeriodByUnderline` replaces every period.
use livox_mid360_rko_lio_ros.Base.{
  ℕ, zero, suc, ◌≤◌, ◌≡◌, refl, sym, ap, if_false, ◌∙◌, inl, inr, true, false, List, [], ◌∷◌, map,
  ◌==◌, if◌then◌else◌, arith, length, Bool-cases,
}
use livox_mid360_rko_lio_ros.Comm.{
  replace_first, has_period, replace_loop, replace_period_by_underline,
}

abbrev pub underline : ℕ → ℕ
underline c = if c == b'.' then b'_' else c

periods : List ℕ → ℕ
periods [] = 0
periods (c ∷ cs) = if c == b'.' then suc (periods cs) else periods cs

periods-le : (s : List ℕ) → periods s ≤ length s
unfolding periods
periods-le [] = omega arith
periods-le (c ∷ cs) = ground (arith, periods-le cs)

no_period : (s : List ℕ) → has_period s ≡ false → map underline s ≡ s
unfolding has_period
no_period [] h = refl
no_period (c ∷ cs) h = elim (Bool-cases (c == b'.')) [
  | inl dot ↦ ground arith
  | inr other ↦
      rw other
        (ap (◌∷◌ c) (no_period cs (sym (if_false (c == b'.') true (has_period cs) other) ∙ h)))
]

replaced :
    (s : List ℕ)
    → has_period s ≡ true
    → (map underline (replace_first s) ≡ map underline s)
      × (suc (periods (replace_first s)) ≡ periods s)
unfolding has_period replace_first periods
replaced [] h = cc
replaced (c ∷ cs) h = elim (Bool-cases (c == b'.')) [
  | inl dot ↦ (ground arith, ground arith)
  | inr other ↦
      let (m, n) = replaced cs (sym (if_false (c == b'.') true (has_period cs) other) ∙ h) in
      let kept = if_false (c == b'.') (b'_' ∷ cs) (c ∷ replace_first cs) other in
      let count = λ (l : List ℕ). if_false (c == b'.') (suc (periods l)) (periods l) other in
      (
        ap (map underline) kept ∙ ap (◌∷◌ (underline c)) m,
        ap (λ l. suc (periods l)) kept ∙ ap suc (count (replace_first cs)) ∙ n ∙ sym (count cs),
      )
]

replace_loop_lem :
    (fuel : ℕ) (s : List ℕ) → periods s ≤ fuel → replace_loop fuel s ≡ map underline s
unfolding replace_loop
replace_loop_lem zero s h = elim (Bool-cases (has_period s)) [
  | inr none' ↦ sym (no_period s none')
  | inl some' ↦ absurd (omega (arith, (replaced s some').1))
]
replace_loop_lem (suc fuel) s h = elim (Bool-cases (has_period s)) [
  | inr none' ↦ rw (none', replace_loop) (sym (no_period s none'))
  | inl some' ↦
      let (m, n) = replaced s some' in
      rw (some', replace_loop) (replace_loop_lem fuel (replace_first s) (omega arith) ∙ m)
]

-- ReplacePeriodByUnderline, which searches from the start after each replacement, puts an
-- underline for each period and keeps all else.
pub replace_period_by_underline-eq : (s : List ℕ) → replace_period_by_underline s ≡ map underline s
unfolding replace_period_by_underline
replace_period_by_underline-eq s = replace_loop_lem (length s) s (periods-le s)
