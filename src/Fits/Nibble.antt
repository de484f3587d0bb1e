-- ===== src/Fits/Nibble.antt =====
-- fits_headers/main.c: the loop of `quick_select` that parts the entries at the pivot in `low`.
use bta_utils.Prelude.{
  ℕ, zero, suc, ◌+◌, ◌-◌, ◌<◌, ◌≤◌, ◌≡◌, inl, inr, List, length, some, arith, Bool-cases, ltb, leb,
  ltb→lt,
}
use bta_utils.Fits.{Items, entry, elem_swap, nibble}
use bta_utils.Fits.Swap.{
  Le, swapped, length-elem_swap, entry-elem_swap, Rearranged, elem_swap-Rearranged, Rearranged-refl,
  Rearranged-trans,
}
use bta_utils.Fits.Scan.{IsOrder, Up, Down, scan_up-Up, scan_down-Down}

module _ {ℓ} {A : Type ℓ} ⦃items : Items A⦄ where
  -- The loop at its head: the entries from `low + 1` to `ll` belong below, those from `hh` above.
  pub record Nibbling (low high : ℕ) (arr : List A) (ll hh : ℕ) : Type 0 where
    pub fits : high < length arr
    pub starts : low < ll
    pub ordered : ll ≤ hh
    pub ends : hh ≤ high
    pub met : ll ≡ hh → (suc low < ll) × (hh < high)
    pub below : (k : ℕ) → low < k → k ≤ ll → Le (entry arr k) (entry arr low)
    pub above : (k : ℕ) → hh ≤ k → k ≤ high → Le (entry arr low) (entry arr k)

  -- The loop at its end.
  pub record Parted (low high : ℕ) (arr : List A) (ll hh : ℕ) : Type 0 where
    pub fits : high < length arr
    pub starts : low < hh
    pub crossed : hh < ll
    pub ends : ll ≤ high
    pub below : (k : ℕ) → low < k → k < ll → Le (entry arr k) (entry arr low)
    pub above : (k : ℕ) → hh < k → k ≤ high → Le (entry arr low) (entry arr k)

  module _ {low high ll hh : ℕ} {arr : List A} (n : Nibbling low high arr ll hh) where
    stop_up : (s : ℕ) × (ll < s) × (s ≤ high) × (s ≤ suc hh) × Le (entry arr low) (entry arr s)
    stop_up = elim (Bool-cases (ltb ll hh)) [
      | inl lt ↦ (hh, ltb→lt ll hh lt, n.ends, omega arith, n.above hh (omega arith) n.ends)
      | inr ge ↦
          (let same : ll ≡ hh = ground (arith, n.ordered) in
            let (_, room) = n.met same in
            (suc hh, omega arith, room, omega arith, n.above (suc hh) (omega arith) room))
    ]

    stop_down : (s : ℕ) × (s < hh) × (low < s) × Le (entry arr s) (entry arr low)
    stop_down = elim (Bool-cases (ltb ll hh)) [
      | inl lt ↦ (ll, ltb→lt ll hh lt, n.starts, n.below ll n.starts (omega arith))
      | inr ge ↦
          (let same : ll ≡ hh = ground (arith, n.ordered) in
            let (room, _) = n.met same in
            (ll - 1, omega arith, omega arith, n.below (ll - 1) (omega arith) (omega arith)))
    ]

    module _ (o : IsOrder A) {up down stop stop' : ℕ} (u : Up arr low ll stop up)
        (d : Down arr low hh stop' down) where
      below_up : (k : ℕ) → low < k → k < up → Le (entry arr k) (entry arr low)
      below_up k after before = elim (Bool-cases (leb k ll)) [
        | inl h ↦ n.below k after (ground arith)
        | inr h ↦ o.asym (u.less k (ground arith) before)
      ]

      above_down : (k : ℕ) → down < k → k ≤ high → Le (entry arr low) (entry arr k)
      above_down k after before = elim (Bool-cases (leb hh k)) [
        | inl h ↦ n.above k (ground arith) before
        | inr h ↦ o.asym (d.more k after (ground arith))
      ]

      exchanged : low < stop' → up ≤ down → Nibbling low high (elem_swap arr up down) up down
      exchanged low_stop h =
          let fits = n.fits in
          let starts = n.starts in
          let ends = n.ends in
          let up_after = u.after in
          let down_after = d.after in
          let swap = λ (k : ℕ). entry-elem_swap arr up down k (omega arith) (omega arith) in
          let at_low : entry (elem_swap arr up down) low ≡ entry arr low =
            (let e : swapped up down low ≡ low = ground arith in rw e at (swap low)) in
          record {
            fits = rw (length-elem_swap arr up down) fits;
            starts = omega arith;
            ordered = h;
            ends = omega arith;
            met = λ e. (omega arith, omega arith);
            below = λ k after before.
                rw (at_low, swap k)
                  (elim (Bool-cases (ltb k up)) [
                    | inl lt ↦
                        (let e : swapped up down k ≡ k = ground arith in
                          rw e (below_up k after (ltb→lt k up lt)))
                    | inr ge ↦ (let e : swapped up down k ≡ down = ground arith in rw e d.stops)
                  ]);
            above = λ k after before.
                rw (at_low, swap k)
                  (elim (Bool-cases (ltb down k)) [
                    | inl lt ↦
                        (let e : swapped up down k ≡ k = ground arith in
                          rw e (above_down k (ltb→lt down k lt) before))
                    | inr ge ↦ (let e : swapped up down k ≡ up = ground arith in rw e u.stops)
                  ]);
          }

  pub nibble-Parted :
      IsOrder A
      → (fuel : ℕ) {low high ll hh : ℕ} {arr : List A} → Nibbling low high arr ll hh
      → hh < ll + fuel
      → (arr' : List A) × (ll' : ℕ) × (hh' : ℕ) × (nibble fuel arr low ll hh
          ≡ some (arr', ll', hh'))
        × Parted low high arr' ll' hh'
        × Rearranged low high arr arr'
  unfolding nibble
  nibble-Parted o zero n enough = (let h = n.ordered in absurd (omega arith))
  nibble-Parted o (suc fuel) {low} {high} {ll} {hh} {arr} n enough =
      let (stop, up_lt, up_high, up_suc, up_le) = stop_up n in
      let (stop', down_lt, down_low, down_le) = stop_down n in
      let fits = n.fits in
      let starts = n.starts in
      let ends = n.ends in
      let (up, up_runs, u) = scan_up-Up (length arr) arr low ll stop up_lt (omega arith) up_le in
      let (down, down_runs, d) =
        scan_down-Down (length arr) arr low hh stop' down_lt (omega arith) down_le in
      let up_after = u.after in
      let up_until = u.until in
      let down_after = d.after in
      let down_until = d.until in
      elim (Bool-cases (ltb down up)) [
        | inl crossed ↦ (
          arr,
          up,
          down,
          rw (up_runs, down_runs, crossed),
          record {
            fits = fits;
            starts = omega arith;
            crossed = ltb→lt down up crossed;
            ends = omega arith;
            below = below_up n o u d;
            above = above_down n o u d;
          },
          Rearranged-refl arr low high,
        )
        | inr go ↦
            (let h : up ≤ down = ground arith in
              let (arr', ll', hh', runs, parted, again) =
                nibble-Parted o fuel (exchanged n o u d down_low h) (omega arith) in
              (
                arr',
                ll',
                hh',
                rw (up_runs, down_runs, go) runs,
                parted,
                Rearranged-trans
                    (elem_swap-Rearranged arr low high up down fits (omega arith) (omega arith)
                      (omega arith) (omega arith))
                    again,
              ))
      ]
