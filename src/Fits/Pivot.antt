-- ===== src/Fits/Pivot.antt =====
-- fits_headers/main.c: how `quick_select` sorts two entries and brings the pivot to `low`.
use bta_utils.Prelude.{
  ℕ, suc, ◌+◌, ◌/◌, ◌<◌, ◌≤◌, ◌≡◌, ◌≢◌, refl, inl, inr, List, length, arith, Bool-cases,
}
use bta_utils.Fits.{Items, entry, elem_swap, pix_sort, median_to_low}
use bta_utils.Fits.Swap.{
  Le, swapped, entry-elem_swap, Rearranged, elem_swap-Rearranged, Rearranged-refl, Rearranged-trans,
}
use bta_utils.Fits.Scan.{IsOrder}
use bta_utils.Fits.Nibble.{Nibbling}

module _ {ℓ} {A : Type ℓ} ⦃items : Items A⦄ where
  -- Two entries put in order.
  record PixSorted (a b : ℕ) (arr arr' : List A) : Type ℓ where
    sorted : Le (entry arr' a) (entry arr' b)
    others : (k : ℕ) → a ≢ k → b ≢ k → entry arr' k ≡ entry arr k
    greater : (x : A) → Le x (entry arr b) → Le x (entry arr' b)
    bounded : (x : A) → Le (entry arr a) x → Le (entry arr b) x → Le (entry arr' b) x

  module _ (o : IsOrder A) where
    pix_sort-PixSorted :
        (arr : List A) (a b : ℕ)
        → a < length arr
        → b < length arr
        → a ≢ b
        → PixSorted a b arr (pix_sort arr a b)
    unfolding pix_sort
    pix_sort-PixSorted arr a b ha hb ne =
        let swap = λ (k : ℕ). entry-elem_swap arr a b k ha hb in
        let at_a : entry (elem_swap arr a b) a ≡ entry arr b =
          (let e : swapped a b a ≡ b = ground arith in rw e at (swap a)) in
        let at_b : entry (elem_swap arr a b) b ≡ entry arr a =
          (let e : swapped a b b ≡ a = ground arith in rw e at (swap b)) in
        elim (Bool-cases (items.gt (entry arr a) (entry arr b))) [
          | inl gt ↦ rw gt (record {
            sorted = rw (at_a, at_b) (o.asym gt);
            others = λ k ne_a ne_b. (let e : swapped a b k ≡ k = ground arith in rw e at (swap k));
            greater = λ x h. rw at_b (o.le_trans h (o.asym gt));
            bounded = λ x h h'. rw at_b h;
          })
          | inr le ↦ rw le (record {
            sorted = le;
            others = λ k ne_a ne_b. refl;
            greater = λ x h. h;
            bounded = λ x h h'. h';
          })
        ]

    pub pix_sort-Le :
        (arr : List A) (a b : ℕ)
        → a < length arr
        → b < length arr
        → a ≢ b
        → Le (entry (pix_sort arr a b) a) (entry (pix_sort arr a b) b)
    pix_sort-Le arr a b ha hb ne = (pix_sort-PixSorted arr a b ha hb ne).sorted

  pub pix_sort-Rearranged :
      (arr : List A) (low high a b : ℕ)
      → high < length arr
      → low ≤ a
      → a ≤ high
      → low ≤ b
      → b ≤ high
      → Rearranged low high arr (pix_sort arr a b)
  unfolding pix_sort
  pix_sort-Rearranged arr low high a b fits a_from a_to b_from b_to =
      elim (Bool-cases (items.gt (entry arr a) (entry arr b))) [
        | inl gt ↦ rw gt (elem_swap-Rearranged arr low high a b fits a_from a_to b_from b_to)
        | inr le ↦ rw le (Rearranged-refl arr low high)
      ]

  -- The entries of `low`, `middle` and `high` in order, the greatest at `high`.
  record ThreeSorted (low middle high : ℕ) (arr arr' : List A) : Type ℓ where
    first : Le (entry arr' middle) (entry arr' low)
    second : Le (entry arr' low) (entry arr' high)
    moved : Rearranged low high arr arr'

  module _ (o : IsOrder A) where
    three-ThreeSorted :
        (arr : List A) (low middle high : ℕ)
        → high < length arr
        → low < middle
        → middle < high
        → ThreeSorted low middle high arr
            (pix_sort (pix_sort (pix_sort arr middle high) low high) middle low)
    three-ThreeSorted arr low middle high fits from to =
        let arr1 = pix_sort arr middle high in
        let arr2 = pix_sort arr1 low high in
        let move1 =
          pix_sort-Rearranged arr low high middle high fits (omega arith) (omega arith)
            (omega arith) (omega arith) in
        let fits1 : high < length arr1 = rw move1.length-same fits in
        let move2 =
          pix_sort-Rearranged arr1 low high low high fits1 (omega arith) (omega arith) (omega arith)
            (omega arith) in
        let fits2 : high < length arr2 = rw move2.length-same fits1 in
        let s1 = pix_sort-PixSorted o arr middle high (omega arith) fits (λ e. omega arith) in
        let s2 = pix_sort-PixSorted o arr1 low high (omega arith) fits1 (λ e. omega arith) in
        let s3 =
          pix_sort-PixSorted o arr2 middle low (omega arith) (omega arith) (λ e. omega arith) in
        let middle_kept = s2.others middle (λ e. omega arith) (λ e. omega arith) in
        let high_kept = s3.others high (λ e. omega arith) (λ e. omega arith) in
        let middle_le : Le (entry arr2 middle) (entry arr2 high) =
          rw middle_kept (s2.greater (entry arr1 middle) s1.sorted) in
        record {
          first = s3.sorted;
          second = rw high_kept (s3.bounded (entry arr2 high) middle_le s2.sorted);
          moved = Rearranged-trans move1 (
              Rearranged-trans move2 (
                pix_sort-Rearranged arr2 low high middle low fits2 (omega arith) (omega arith)
                  (omega arith) (omega arith)));
        }

    pub median_to_low-Nibbling :
        (arr : List A) (low high : ℕ)
        → high < length arr
        → suc low < high
        → Nibbling low high (median_to_low arr low high) (low + 1) high
          × Rearranged low high arr (median_to_low arr low high)
    unfolding median_to_low
    median_to_low-Nibbling arr low high fits wide =
        let middle = (low + high) / 2 in
        let from : low < middle = omega arith in
        let to : middle < high = omega arith in
        let three = three-ThreeSorted arr low middle high fits from to in
        let arr3 = pix_sort (pix_sort (pix_sort arr middle high) low high) middle low in
        let fits3 : high < length arr3 = rw three.moved.length-same fits in
        let swap = λ (k : ℕ). entry-elem_swap arr3 middle (low + 1) k (omega arith) (omega arith) in
        let at_low : entry (elem_swap arr3 middle (low + 1)) low ≡ entry arr3 low =
          (let e : swapped middle (low + 1) low ≡ low = ground arith in rw e at (swap low)) in
        let at_high : entry (elem_swap arr3 middle (low + 1)) high ≡ entry arr3 high =
          (let e : swapped middle (low + 1) high ≡ high = ground arith in rw e at (swap high)) in
        let at_next : entry (elem_swap arr3 middle (low + 1)) (low + 1) ≡ entry arr3 middle =
          (let e : swapped middle (low + 1) (low + 1) ≡ middle = ground arith in
            rw e at (swap (low + 1))) in
        let moved =
          elem_swap-Rearranged arr3 low high middle (low + 1) fits3 (omega arith) (omega arith)
            (omega arith) (omega arith) in
        (
          record {
            fits = rw moved.length-same fits3;
            starts = omega arith;
            ordered = omega arith;
            ends = omega arith;
            met = λ e. absurd (omega arith);
            below = λ k after until.
                (let e : k ≡ low + 1 = omega arith in rw (e, at_low, at_next) three.first);
            above = λ k after until.
                (let e : k ≡ high = omega arith in rw (e, at_low, at_high) three.second);
          },
          Rearranged-trans three.moved moved,
        )
