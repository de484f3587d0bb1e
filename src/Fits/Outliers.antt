-- ===== src/Fits/Outliers.antt =====
-- fits_headers/main.c: `rm_outliers`, which drops the values far from the median.
use bta_utils.Prelude.{
  ℕ, ◌≤◌, ◌≡◌, refl, ap, inl, inr, Bool, true, false, not, ◌&&◌, List, [], ◌∷◌, length, arith,
  Bool-cases, if◌then◌else◌,
}
use bta_utils.Fits.{Items}
use bta_utils.Fits.Scan.{IsOrder}

-- The arithmetic of the values, with the constants that the code uses.
pub record Arithmetic {ℓ} (A : Type ℓ) : Type ℓ where
  pub plus : A → A → A
  pub minus : A → A → A
  pub times : A → A → A
  pub over : A → A → A
  pub fabs : A → A
  pub constant : ℕ → A

module _ {ℓ} {A : Type ℓ} ⦃items : Items A⦄ ⦃arithmetic : Arithmetic A⦄ where
  -- `fabs(d - med)`, and `a < b`.
  abbrev pub distance : A → A → A
  distance d med = arithmetic.fabs (arithmetic.minus d med)

  abbrev pub less : A → A → Bool
  less a b = items.gt b a

  -- `if(std > med/2.) std = med/2.; std *= 3.;`
  unfoldable pub three_std : A → A → A
  three_std med std =
      let half = arithmetic.over med (arithmetic.constant 2) in
      arithmetic.times (if items.gt std half then half else std) (arithmetic.constant 3)

  -- The correction of an angle on the other side of 0.
  unfoldable pub turned : A → A → A → A
  turned med std d =
      let full = arithmetic.constant 360 in
      if items.gt (distance d med) std
      then (if less (distance d full) std && less med std
          then arithmetic.minus d full
          else (if less d std && less (distance med full) std then arithmetic.plus d full else d))
      else d

  unfoldable pub kept_values : A → A → List A → List A
  kept_values med std [] = []
  kept_values med std (d ∷ rest) =
      let others = kept_values med std rest in
      if less (distance (turned med std d) med) std then turned med std d ∷ others else others

  -- The values that `*buf` holds afterwards; `*N` is their number.
  unfoldable pub rm_outliers : List A → A → A → List A
  rm_outliers buf med std = kept_values med (three_std med std) buf

  -- All values are less than `std` from `med`.
  abbrev pub AllNear : A → A → List A → Type 0
  AllNear med std [] = Unit
  AllNear med std (d ∷ rest) = (less (distance d med) std ≡ true) × AllNear med std rest

  kept_values-AllNear : (med std : A) (buf : List A) → AllNear med std (kept_values med std buf)
  unfolding kept_values
  kept_values-AllNear med std [] = tt
  kept_values-AllNear med std (d ∷ rest) =
      elim (Bool-cases (less (distance (turned med std d) med) std)) [
        | inl near ↦ rw near (near, kept_values-AllNear med std rest)
        | inr far ↦ rw far (kept_values-AllNear med std rest)
      ]

  kept_values_shorter : (med std : A) (buf : List A) → length (kept_values med std buf) ≤ length buf
  unfolding kept_values
  kept_values_shorter med std [] = omega arith
  kept_values_shorter med std (d ∷ rest) =
      let h = kept_values_shorter med std rest in
      elim (Bool-cases (less (distance (turned med std d) med) std)) [
        | inl near ↦ rw near (omega arith)
        | inr far ↦ rw far (omega arith)
      ]

  turned_near :
      IsOrder A → (med std d : A) → less (distance d med) std ≡ true → turned med std d ≡ d
  unfolding turned
  turned_near o med std d near = rw (o.asym near) refl

  turned_close : (med std d : A) → items.gt (distance d med) std ≡ false → turned med std d ≡ d
  unfolding turned
  turned_close med std d close = rw close refl

  -- What is kept of the values, one by one and in their order, for the median and the threshold: a
  -- value near the median as it is; one on the other side of 0 turned by 360, if it is near then; no
  -- other one.
  pub data IsKept (med std : A) : List A → List A → Type ℓ where
    nothing : IsKept med std [] []
    stays_near :
        {d : A} {buf out : List A}
        → less (distance d med) std ≡ true
        → IsKept med std buf out
        → IsKept med std (d ∷ buf) (d ∷ out)
    turned_down :
        {d : A} {buf out : List A}
        → items.gt (distance d med) std ≡ true
        → (less (distance d (arithmetic.constant 360)) std && less med std) ≡ true
        → less (distance (arithmetic.minus d (arithmetic.constant 360)) med) std ≡ true
        → IsKept med std buf out
        → IsKept med std (d ∷ buf) (arithmetic.minus d (arithmetic.constant 360) ∷ out)
    turned_up :
        {d : A} {buf out : List A}
        → items.gt (distance d med) std ≡ true
        → (less (distance d (arithmetic.constant 360)) std && less med std) ≡ false
        → (less d std && less (distance med (arithmetic.constant 360)) std) ≡ true
        → less (distance (arithmetic.plus d (arithmetic.constant 360)) med) std ≡ true
        → IsKept med std buf out
        → IsKept med std (d ∷ buf) (arithmetic.plus d (arithmetic.constant 360) ∷ out)
    -- The value is not near, and no turn that is tried brings it near.
    dropped :
        {d : A} {buf out : List A}
        → less (distance d med) std ≡ false
        → (items.gt (distance d med) std
            && ((less (distance d (arithmetic.constant 360)) std && less med std)
                && less (distance (arithmetic.minus d (arithmetic.constant 360)) med) std))
          ≡ false
        → (items.gt (distance d med) std
            && (not (less (distance d (arithmetic.constant 360)) std && less med std)
                && ((less d std && less (distance med (arithmetic.constant 360)) std)
                    && less (distance (arithmetic.plus d (arithmetic.constant 360)) med) std)))
          ≡ false
        → IsKept med std buf out
        → IsKept med std (d ∷ buf) out

  module _ (med std d : A) (buf out : List A) (rest : IsKept med std buf out) where
    -- A value that is not far is near, or just as far as the threshold.
    IsKept-close :
        items.gt (distance d med) std ≡ false
        → IsKept med std (d ∷ buf) (if less (distance d med) std then d ∷ out else out)
    IsKept-close close = elim (Bool-cases (less (distance d med) std)) [
      | inl stays ↦ rw stays (stays_near stays rest)
      | inr at_limit ↦ rw at_limit (dropped at_limit (rw close refl) (rw close refl) rest)
    ]

    -- A far value is not near: `asym` for the other order.
    IsKept-turned :
        items.gt (distance d med) std ≡ true
        → less (distance d med) std ≡ false
        → let turn = turned med std d in
          IsKept med std (d ∷ buf) (if less (distance turn med) std then turn ∷ out else out)
    unfolding turned
    IsKept-turned far not_near =
        elim (Bool-cases (less (distance d (arithmetic.constant 360)) std && less med std)) [
          | inl down ↦
              elim (Bool-cases
                (less (distance (arithmetic.minus d (arithmetic.constant 360)) med) std)) [
                  | inl stays ↦ rw (far, down, stays) (turned_down far down stays rest)
                  | inr away ↦
                      rw (far, down, away)
                        (dropped not_near (rw (far, down, away) refl) (rw (far, down) refl) rest)
                ]
          | inr no_down ↦
              elim (Bool-cases (less d std && less (distance med (arithmetic.constant 360)) std)) [
                | inl up ↦
                    elim (Bool-cases
                      (less (distance (arithmetic.plus d (arithmetic.constant 360)) med) std)) [
                        | inl stays ↦
                            rw (far, no_down, up, stays) (turned_up far no_down up stays rest)
                        | inr away ↦
                            rw (far, no_down, up, away)
                              (dropped not_near (rw (far, no_down) refl)
                                (rw (far, no_down, up, away) refl) rest)
                      ]
                | inr no_up ↦
                    rw (far, no_down, no_up, not_near)
                      (dropped not_near (rw (far, no_down) refl) (rw (far, no_down, no_up) refl)
                        rest)
              ]
        ]

  kept_values-IsKept :
      IsOrder A → (med std : A) (buf : List A) → IsKept med std buf (kept_values med std buf)
  unfolding kept_values
  kept_values-IsKept o med std [] = nothing
  kept_values-IsKept o med std (d ∷ buf) =
      let rest = kept_values-IsKept o med std buf in
      elim (Bool-cases (items.gt (distance d med) std)) [
        | inl far ↦ IsKept-turned med std d buf (kept_values med std buf) rest far (o.asym far)
        | inr close ↦
            let same = turned_close med std d close in
            rw same (IsKept-close med std d buf (kept_values med std buf) rest close)
      ]

  kept_values_near :
      IsOrder A → (med std : A) (buf : List A) → AllNear med std buf → kept_values med std buf ≡ buf
  unfolding kept_values
  kept_values_near o med std [] all = refl
  kept_values_near o med std (d ∷ rest) (near, all) =
      rw (turned_near o med std d near, near)
        (ap (λ l. d ∷ l) (kept_values_near o med std rest all))

  -- Three times the deviation or, if that is less, three halves of the median.
  abbrev pub threshold : A → A → A
  threshold med std =
      let half = arithmetic.over med (arithmetic.constant 2) in
      if items.gt std half
      then arithmetic.times half (arithmetic.constant 3)
      else arithmetic.times std (arithmetic.constant 3)

  three_std-threshold : (med std : A) → three_std med std ≡ threshold med std
  unfolding three_std
  three_std-threshold med std =
      elim (Bool-cases (items.gt std (arithmetic.over med (arithmetic.constant 2)))) [
        | inl large ↦ rw (three_std, large) refl
        | inr small ↦ rw (three_std, small) refl
      ]

  -- For values whose order is total and transitive, and the threshold three times the deviation or, if
  -- that is less, three halves of the median: `rm_outliers` keeps, in their order, each value nearer to
  -- the median than the threshold as it is, and each farther one that it turns by 360 to the other
  -- side of 0 (down if it is near 360 and the median below the threshold, else up if it is below the
  -- threshold and the median near 360) and that is near then; it drops the others. So there are at most
  -- as many values as there were, each less than the threshold from the median; if all are that near
  -- before, nothing changes, and so a second call with the same median and deviation changes nothing.
  pub rm_outliers-AllNear :
      IsOrder A
      → (buf : List A) (med std : A)
      → IsKept med (threshold med std) buf (rm_outliers buf med std)
        × (length (rm_outliers buf med std) ≤ length buf)
        × AllNear med (threshold med std) (rm_outliers buf med std)
        × (AllNear med (threshold med std) buf → rm_outliers buf med std ≡ buf)
        × (rm_outliers (rm_outliers buf med std) med std ≡ rm_outliers buf med std)
  unfolding rm_outliers
  rm_outliers-AllNear o buf med std =
      let limit = threshold med std in
      rw (three_std-threshold med std) (
        kept_values-IsKept o med limit buf,
        kept_values_shorter med limit buf,
        kept_values-AllNear med limit buf,
        kept_values_near o med limit buf,
        kept_values_near o med limit (kept_values med limit buf)
            (kept_values-AllNear med limit buf),
      )
