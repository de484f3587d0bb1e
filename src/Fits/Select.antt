-- ===== src/Fits/Select.antt =====
-- fits_headers/main.c: a round of the outer loop of `quick_select`.

use bta_utils.Prelude.{
  ℕ, suc, ◌-◌, ◌<◌, ◌≤◌, ◌≡◌, ◌⊎◌, inl, inr, true, List, length, arith, Bool-cases, if◌then◌else◌,
  ◌==◌, leb, ltb,
}
use bta_utils.Fits.{Items, entry, elem_swap, pix_sort}
use bta_utils.Fits.Swap.{
  Le, Cut, swapped, length-elem_swap, entry-elem_swap, Rearranged, elem_swap-Rearranged,
  Rearranged-trans,
}
use bta_utils.Fits.Scan.{IsOrder, le_refl}
use bta_utils.Fits.Nibble.{Parted}
use bta_utils.Fits.Pivot.{pix_sort-Le, pix_sort-Rearranged}

module _ {ℓ} {A : Type ℓ} ⦃items : Items A⦄ where
  -- The entry at `median` is greater than none that follows and less than none before it.
  abbrev pub IsPlaced : ℕ → List A → Type 0
  IsPlaced median arr = Cut median arr × Cut (suc median) arr

  -- A place where the segment from `low` to `high` can be cut when there is a value between.
  Cut-inside :
      IsOrder A
      → (q : A) (low high hh ll : ℕ) (arr : List A) → Cut low arr
      → Cut (suc high) arr
      → low ≤ hh
      → ll ≤ suc high
      → ((k : ℕ) → low ≤ k → k < ll → Le (entry arr k) q)
      → ((k : ℕ) → hh ≤ k → k ≤ high → Le q (entry arr k))
      → (c : ℕ) → hh ≤ c
      → c ≤ ll
      → Cut c arr
  Cut-inside o q low high hh ll arr cut_low cut_high hl lh below above c from to i j before after
        within =
      elim (Bool-cases (ltb i low)) [
        | inl h ↦ cut_low i j (ground arith) (omega arith) within
        | inr h ↦ elim (Bool-cases (ltb high j)) [
          | inl h' ↦ cut_high i j (omega arith) (ground arith) within
          | inr h' ↦
              o.le_trans (below i (ground arith) (omega arith))
                (above j (omega arith) (ground arith))
        ]
      ]

  -- The outer loop at its head.
  pub record Selecting (median low high : ℕ) (arr : List A) : Type 0 where
    pub fits : high < length arr
    pub cut_low : Cut low arr
    pub cut_high : Cut (suc high) arr
    pub place :
        ((low ≤ median) × (median ≤ high)) ⊎ (IsPlaced median arr × ((median < low) ⊎ (high < low)))

  module _ (o : IsOrder A) {median low high : ℕ} where
    -- The array after a round, with the pivot back in its place.
    module _ {arr arr' : List A} {ll hh : ℕ} (s : Selecting median low high arr)
        (moved : Rearranged low high arr arr') (p : Parted low high arr' ll hh) where
      pub round_moved : Rearranged low high arr (elem_swap arr' low hh)
      round_moved =
          let starts = p.starts in
          let crossed = p.crossed in
          let ends = p.ends in
          Rearranged-trans moved (
            elem_swap-Rearranged arr' low high low hh p.fits (omega arith) (omega arith)
              (omega arith) (omega arith))

      round-Cut : (c : ℕ) → hh ≤ c → c ≤ ll → Cut c (elem_swap arr' low hh)
      round-Cut =
          let starts = p.starts in
          let crossed = p.crossed in
          let ends = p.ends in
          let fits = p.fits in
          let swap = λ (k : ℕ). entry-elem_swap arr' low hh k (omega arith) (omega arith) in
          let at_low : entry (elem_swap arr' low hh) low ≡ entry arr' hh =
            (let e : swapped low hh low ≡ hh = ground arith in rw e at (swap low)) in
          let at_hh : entry (elem_swap arr' low hh) hh ≡ entry arr' low =
            (let e : swapped low hh hh ≡ low = ground arith in rw e at (swap hh)) in
          Cut-inside o (entry arr' low) low high hh ll (elem_swap arr' low hh)
            (round_moved.cuts low (inl (omega arith)) s.cut_low)
            (round_moved.cuts (suc high) (inr (omega arith)) s.cut_high) (omega arith) (omega arith)
            (λ k from to. elim (Bool-cases (k == low)) [
              | inl e ↦
                  (let e' : k ≡ low = ground arith in rw (e', at_low) (p.below hh starts crossed))
              | inr ne ↦ elim (Bool-cases (k == hh)) [
                | inl e ↦
                    (let e' : k ≡ hh = ground arith in rw (e', at_hh) (le_refl o (entry arr' low)))
                | inr ne' ↦
                    (let e' : swapped low hh k ≡ k = ground arith in
                      rw (swap k, e') (p.below k (ground arith) to))
              ]
            ])
            (λ k from to. elim (Bool-cases (k == hh)) [
              | inl e ↦
                  (let e' : k ≡ hh = ground arith in rw (e', at_hh) (le_refl o (entry arr' low)))
              | inr ne ↦
                  (let e' : swapped low hh k ≡ k = ground arith in
                    rw (swap k, e') (p.above k (ground arith) to))
            ])

      pub round_next :
          suc low < high
          → Selecting median
              (if leb hh median then ll else low)
              (if leb median hh then hh - 1 else high)
              (elem_swap arr' low hh)
      round_next wide =
          let starts = p.starts in
          let crossed = p.crossed in
          let ends = p.ends in
          let fits : high < length (elem_swap arr' low hh) =
            rw (length-elem_swap arr' low hh) p.fits in
          let kept_low = round_moved.cuts low (inl (omega arith)) s.cut_low in
          let kept_high = round_moved.cuts (suc high) (inr (omega arith)) s.cut_high in
          let cut_hh = round-Cut hh (omega arith) (omega arith) in
          let cut_ll = round-Cut ll (omega arith) (omega arith) in
          let within : hh ≤ median → median ≤ high = λ h. elim s.place [
            | inl (from, to) ↦ to
            | inr (cut, inl before) ↦ absurd (omega arith)
            | inr (cut, inr gone) ↦ absurd (omega arith)
          ] in
          let top : suc (hh - 1) ≡ hh = omega arith in
          elim (Bool-cases (leb hh median)) [
            | inl below ↦ elim (Bool-cases (leb median hh)) [
              | inl above ↦
                  (let e : median ≡ hh = ground arith in
                    rw (below, above)
                      (record {
                        fits = omega arith;
                        cut_low = cut_ll;
                        cut_high = rw top cut_hh;
                        place = inr (
                          (rw e cut_hh, rw e (round-Cut (suc hh) (omega arith) (omega arith))),
                          inr (omega arith),
                        );
                      }))
              | inr less ↦
                  rw (below, less)
                    (record {
                      fits = fits;
                      cut_low = cut_ll;
                      cut_high = kept_high;
                      place = elim (Bool-cases (leb ll median)) [
                        | inl in_range ↦ inl (ground arith, within (ground arith))
                        | inr passed ↦ inr (
                          (
                            round-Cut median (ground arith) (ground arith),
                            round-Cut (suc median) (ground arith) (ground arith),
                          ),
                          inl (ground arith),
                        )
                      ];
                    })
            ]
            | inr above ↦
                (let e : leb median hh ≡ true = ground arith in
                  rw (above, e)
                    (record {
                      fits = omega arith;
                      cut_low = kept_low;
                      cut_high = rw top cut_hh;
                      place = elim s.place [
                        | inl (from, to) ↦ inl (from, ground arith)
                        | inr ((cut, cut'), inl before) ↦ inr (
                          (
                            round_moved.cuts median (inl (omega arith)) cut,
                            round_moved.cuts (suc median) (inl before) cut',
                          ),
                          inl before,
                        )
                        | inr (cut, inr gone) ↦ absurd (omega arith)
                      ];
                    }))
          ]

    pub rounds_end :
        {arr : List A} → Selecting median low high arr → high ≤ low → IsPlaced median arr
    rounds_end s done = elim s.place [
      | inr (placed, _) ↦ placed
      | inl (from, to) ↦
          (let e : median ≡ low = omega arith in
            let e' : median ≡ high = omega arith in (rw e s.cut_low, rw e' s.cut_high))
    ]

    -- Two entries that are left.
    pub rounds_two :
        {arr : List A}
        → Selecting median low high arr
        → high ≡ suc low
        → IsPlaced median (pix_sort arr low high)
    rounds_two {arr} s two =
        let fits = s.fits in
        let moved =
          pix_sort-Rearranged arr low high low high fits (omega arith) (omega arith) (omega arith)
            (omega arith) in
        let kept_low = moved.cuts low (inl (omega arith)) s.cut_low in
        let kept_high = moved.cuts (suc high) (inr (omega arith)) s.cut_high in
        let sorted = pix_sort-Le o arr low high (omega arith) fits (λ e. omega arith) in
        let between : Cut high (pix_sort arr low high) = λ i j before after inside.
          elim (Bool-cases (ltb i low)) [
            | inl h ↦ kept_low i j (ground arith) (omega arith) inside
            | inr h ↦ elim (Bool-cases (ltb high j)) [
              | inl h' ↦ kept_high i j (omega arith) (ground arith) inside
              | inr h' ↦
                  (let e : i ≡ low = ground arith in
                    let e' : j ≡ high = ground arith in rw (e, e') sorted)
            ]
          ] in
        elim s.place [
          | inr ((cut, cut'), inl before) ↦
              (moved.cuts median (inl (omega arith)) cut, moved.cuts (suc median) (inl before) cut')
          | inr (cut, inr gone) ↦ absurd (omega arith)
          | inl (from, to) ↦ elim (Bool-cases (median == low)) [
            | inl h ↦
                (let e : median ≡ low = ground arith in
                  (rw e kept_low, (let e' : suc median ≡ high = omega arith in rw e' between)))
            | inr h ↦ (let e : median ≡ high = ground arith in (rw e between, rw e kept_high))
          ]
        ]
