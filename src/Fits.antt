-- ===== src/Fits.antt =====
-- fits_headers/main.c: the selection of the median of the values, `quick_select`.
pub mod Swap
pub mod Scan
pub mod Nibble
pub mod Pivot
pub mod Select
pub mod Median
pub mod Outliers
mod Tests
use bta_utils.Prelude.{
  ℕ, zero, suc, ◌+◌, ◌-◌, ◌/◌, Bool, List, Option, none, some, length, set, get_or, leb, ltb, ◌==◌,
  if◌then◌else◌,
}

-- The values that are compared, `Item`: the test `>`, and what a read past the end of the array
-- gives.
pub record Items {ℓ} (A : Type ℓ) : Type ℓ where
  pub gt : A → A → Bool
  pub past_end : A

infixl 5 ◌>>=◌
abbrev pub ◌>>=◌ {ℓ κ} : {A : Type ℓ} {B : Type κ} → Option A → (A → Option B) → Option B
none >>= f = none
some a >>= f = f a

module _ {ℓ} {A : Type ℓ} ⦃items : Items A⦄ where
  abbrev pub entry : List A → ℕ → A
  entry arr i = get_or arr i items.past_end

  -- `ELEM_SWAP` and `PIX_SORT` of two entries.
  unfoldable pub elem_swap : List A → ℕ → ℕ → List A
  elem_swap arr a b = set (set arr a (entry arr b)) b (entry arr a)

  unfoldable pub pix_sort : List A → ℕ → ℕ → List A
  pix_sort arr a b = if items.gt (entry arr a) (entry arr b) then elem_swap arr a b else arr

  -- `do ll++; while (arr[low] > arr[ll]);`
  unfoldable pub scan_up : ℕ → List A → ℕ → ℕ → Option ℕ
  scan_up zero arr low ll = none
  scan_up (suc fuel) arr low ll =
      let rest = scan_up fuel arr low (suc ll) in
      if items.gt (entry arr low) (entry arr (suc ll)) then rest else some (suc ll)

  -- `do hh--; while (arr[hh] > arr[low]);`
  unfoldable pub scan_down : ℕ → List A → ℕ → ℕ → Option ℕ
  scan_down zero arr low hh = none
  scan_down (suc fuel) arr low hh =
      let rest = scan_down fuel arr low (hh - 1) in
      if items.gt (entry arr (hh - 1)) (entry arr low) then rest else some (hh - 1)

  -- The inner `for(;;)`: the array and the two places at its end.
  unfoldable pub nibble : ℕ → List A → ℕ → ℕ → ℕ → Option (List A × ℕ × ℕ)
  nibble zero arr low ll hh = none
  nibble (suc fuel) arr low ll hh = do
    up ← scan_up (length arr) arr low ll
    down ← scan_down (length arr) arr low hh
    let rest = nibble fuel (elem_swap arr up down) low up down
    if ltb down up then some (arr, up, down) else rest

  -- The median of the low, the middle and the high entry comes to `low`, the least to `low + 1`.
  unfoldable pub median_to_low : List A → ℕ → ℕ → List A
  median_to_low arr low high =
      let middle = (low + high) / 2 in
      let high_sorted = pix_sort (pix_sort arr middle high) low high in
      elem_swap (pix_sort high_sorted middle low) middle (low + 1)

  -- The outer `for(;;)`: the array at its end.
  unfoldable pub select_rounds : ℕ → List A → ℕ → ℕ → ℕ → Option (List A)
  select_rounds zero arr median low high = none
  select_rounds (suc fuel) arr median low high =
      let round = (do
        nibbled ← nibble (length arr) (median_to_low arr low high) low (low + 1) high
        let ll = nibbled.1
        let hh = nibbled.2
        select_rounds fuel (elem_swap nibbled.0 low hh) median (if leb hh median then ll else low)
            (if leb median hh then hh - 1 else high)) in
      if leb high low
      then some arr
      else (if high == low + 1 then some (pix_sort arr low high) else round)

  unfoldable pub quick_select : List A → Option A
  quick_select idata = do
    let median = (length idata - 1) / 2
    arr ← select_rounds (suc (length idata)) idata median 0 (length idata - 1)
    some (entry arr median)
