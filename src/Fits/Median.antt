-- ===== src/Fits/Median.antt =====
-- fits_headers/main.c: the value that `quick_select` returns.
use mathlib.Core.List.{Perm}
use mathlib.Core.List.Perm
use bta_utils.Prelude.{
  ℕ, zero, suc, ◌+◌, ◌-◌, ◌/◌, ◌<◌, ◌≡◌, refl, inl, inr, List, length, some, arith, Bool-cases,
  if◌then◌else◌, ◌==◌, leb,
}
use bta_utils.Fits.{Items, entry, elem_swap, pix_sort, select_rounds, quick_select}
use bta_utils.Fits.Swap.{Le, length-Perm, Rearranged-trans}
use bta_utils.Fits.Scan.{IsOrder}
use bta_utils.Fits.Nibble.{nibble-Parted}
use bta_utils.Fits.Pivot.{pix_sort-Rearranged, median_to_low-Nibbling}
use bta_utils.Fits.Select.{IsPlaced, Selecting, round_moved, round_next, rounds_end, rounds_two}

module _ {ℓ} {A : Type ℓ} ⦃items : Items A⦄ where
  -- The array in which the outer loop ends.
  select_rounds-IsPlaced :
      IsOrder A
      → (fuel median low high : ℕ) (arr : List A) → Selecting median low high arr
      → high < low + fuel
      → 0 < fuel
      → (arr' : List A) × (select_rounds fuel arr median low high ≡ some arr')
        × Perm arr' arr
        × IsPlaced median arr'
  unfolding select_rounds
  select_rounds-IsPlaced o zero median low high arr s enough some_left = absurd (omega arith)
  select_rounds-IsPlaced o (suc fuel) median low high arr s enough some_left =
      elim (Bool-cases (leb high low)) [
        | inl done ↦ (arr, rw done, Perm.refl arr, rounds_end o s (ground arith))
        | inr more ↦ elim (Bool-cases (high == low + 1)) [
          | inl two ↦ (
            pix_sort arr low high,
            rw (more, two),
            (pix_sort-Rearranged arr low high low high s.fits (omega arith) (ground arith)
                (ground arith) (omega arith)).same,
            rounds_two o s (ground arith),
          )
          | inr wide ↦
              (let fits = s.fits in
                let apart : suc low < high = ground arith in
                let (nibbling, moved) = median_to_low-Nibbling o arr low high fits apart in
                let (arr', ll, hh, runs, parted, moved') =
                  nibble-Parted o (length arr) nibbling (omega arith) in
                let moved'' = Rearranged-trans moved moved' in
                let starts = parted.starts in
                let crossed = parted.crossed in
                let ends = parted.ends in
                let (last, rest_runs, same, placed) =
                  select_rounds-IsPlaced o fuel median (if leb hh median then ll else low)
                    (if leb median hh then hh - 1 else high) (elem_swap arr' low hh)
                    (round_next o s moved'' parted apart) (ground arith) (omega arith) in
                (
                  last,
                  rw (more, wide, runs) rest_runs,
                  Perm.trans same (round_moved o s moved'' parted).same,
                  placed,
                ))
        ]
      ]

  -- For values whose order is total and transitive, and at least one of them, the loops of
  -- `quick_select` end, and it returns the entry that stands at half of the last index in an
  -- order of the same values in which none before it is greater and none after it is less.
  pub quick_select-IsPlaced :
      IsOrder A
      → (idata : List A) → 0 < length idata
      → (arr : List A) × Perm arr idata
        × ((i : ℕ)
            → i < (length idata - 1) / 2
            → Le (entry arr i) (entry arr ((length idata - 1) / 2)))
        × ((j : ℕ)
            → (length idata - 1) / 2 < j
            → j < length idata
            → Le (entry arr ((length idata - 1) / 2)) (entry arr j))
        × (quick_select idata ≡ some (entry arr ((length idata - 1) / 2)))
  unfolding quick_select
  quick_select-IsPlaced o idata some_data =
      let median = (length idata - 1) / 2 in
      let (arr, runs, same, placed) =
        select_rounds-IsPlaced o (suc (length idata)) median 0 (length idata - 1) idata
          (record {
            fits = omega arith;
            cut_low = λ i j h h' inside. absurd (omega arith);
            cut_high = λ i j h h' inside. absurd (omega arith);
            place = inl (omega arith, omega arith);
          })
          (omega arith) (omega arith) in
      let n : length arr ≡ length idata = length-Perm same in
      (
        arr,
        same,
        λ i h. placed.0 i median h (omega arith) (omega arith),
        λ j h h'. placed.1 median j (omega arith) h (omega arith),
        rw runs refl,
      )
