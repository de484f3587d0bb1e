-- ===== src/Fits/Tests.antt =====
-- Runs of the selection of the median at fixed values.
use mathlib.Core.List.{Perm}
use bta_utils.Prelude.{
  ℕ, ◌+◌, ◌*◌, ◌-◌, ◌/◌, ◌<◌, ◌≤◌, ◌≡◌, refl, List, [], ◌∷◌, some, length, ltb, arith,
}
use bta_utils.Fits.{
  Items, entry, quick_select, select_rounds, nibble, median_to_low, pix_sort, elem_swap, scan_up,
  scan_down,
}
use bta_utils.Fits.Swap.{Le}
use bta_utils.Fits.Scan.{IsOrder}
use bta_utils.Fits.Median.{quick_select-IsPlaced}
use bta_utils.Fits.Outliers.{
  Arithmetic, AllNear, IsKept, threshold, three_std, rm_outliers, kept_values, turned,
  rm_outliers-AllNear,
}

-- The values are natural numbers here.
instance natural_items : Items ℕ
natural_items = record { gt = λ a b. ltb b a; past_end = 0 }

instance natural_arithmetic : Arithmetic ℕ
natural_arithmetic = record {
  plus = λ a b. a + b;
  minus = λ a b. (a - b) + (b - a);
  times = λ a b. a * b;
  over = λ a b. a / b;
  fabs = λ a. a;
  constant = λ n. n;
}

natural-IsOrder : IsOrder ℕ
unfolding natural_items
natural-IsOrder = record {
  le_trans = λ {a} {b} {c} h h'. ground arith;
  asym = λ {a} {b} h. ground arith;
}

abbrev angles : List ℕ
angles = 12 ∷ 3 ∷ 14 ∷ 7 ∷ 90 ∷ 11 ∷ 12 ∷ 10 ∷ []

quick_select_run : quick_select angles ≡ some 11
unfolding quick_select select_rounds nibble median_to_low pix_sort elem_swap scan_up scan_down
    natural_items
quick_select_run = refl

rm_outliers_run : rm_outliers angles 11 3 ≡ 12 ∷ 3 ∷ 14 ∷ 7 ∷ 11 ∷ 12 ∷ 10 ∷ []
unfolding rm_outliers kept_values turned three_std natural_items natural_arithmetic
rm_outliers_run = refl

-- Around a median of 4: 358 is 2 degrees on the other side of 0.
abbrev around_zero : List ℕ
around_zero = 5 ∷ 358 ∷ 90 ∷ 3 ∷ []

around_zero_run : rm_outliers around_zero 4 3 ≡ 5 ∷ 2 ∷ 3 ∷ []
unfolding rm_outliers kept_values turned three_std natural_items natural_arithmetic
around_zero_run = refl

quick_select-IsPlaced_example :
    (arr : List ℕ) × Perm arr angles
    × ((i : ℕ) → i < 3 → Le (entry arr i) (entry arr 3))
    × ((j : ℕ) → 3 < j → j < 8 → Le (entry arr 3) (entry arr j))
    × (quick_select angles ≡ some (entry arr 3))
quick_select-IsPlaced_example = quick_select-IsPlaced natural-IsOrder angles (omega arith)

rm_outliers-AllNear_example :
    IsKept 4 (threshold 4 3) around_zero (rm_outliers around_zero 4 3)
    × (length (rm_outliers around_zero 4 3) ≤ 4)
    × AllNear 4 (threshold 4 3) (rm_outliers around_zero 4 3)
    × (AllNear 4 (threshold 4 3) around_zero → rm_outliers around_zero 4 3 ≡ around_zero)
    × (rm_outliers (rm_outliers around_zero 4 3) 4 3 ≡ rm_outliers around_zero 4 3)
rm_outliers-AllNear_example = rm_outliers-AllNear natural-IsOrder around_zero 4 3
