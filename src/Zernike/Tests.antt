-- ===== src/Zernike/Tests.antt =====
-- Runs of the numbering of the polynomials and of their sums, for natural numbers as values.
use bta_utils.Prelude.{
  ◌%◌, ℕ, zero, suc, ◌+◌, ◌-◌, ◌*◌, ◌/◌, ◌≤◌, ◌<◌, ◌≡◌, refl, true, false, ◌||◌, List, [], ◌∷◌,
  none, some, length, get_elem?, arith, ltb, leb, if◌then◌else◌, ℤ, pos, negsuc, sub_ℕ, Bool-cases,
  inl, inr,
}
use bta_utils.Fits.Outliers.{Arithmetic}
use bta_utils.Zernike.{
  zernike_max_power, convert_zidx, check_parameters, radial, radial_loop, summand, build_factorial,
  with_rpow, build_rpow, reset_first, reset_listed, add_listed, changed_coefficients,
}
use bta_utils.Zernike.Numbering.{IsRoot, before_order, convert_zidx_lem}
use bta_utils.Zernike.Radial.{defined_sum, radial_lem}
use bta_utils.Zernike.Coefficients.{with_added, is_listed, changed_coefficients_lem}

-- A whole square root, by going up.
abbrev isqrt : ℕ → ℕ
isqrt zero = 0
isqrt (suc x) = let r = isqrt x in if leb (suc r * suc r) (suc x) then suc r else r

isqrt-IsRoot : IsRoot isqrt
isqrt-IsRoot zero = (omega arith, omega arith)
isqrt-IsRoot (suc x) =
    let r = isqrt x in
    let (low, high) = isqrt-IsRoot x in
    elim (Bool-cases (leb (suc r * suc r) (suc x))) [
      | inl up ↦ rw up (ground arith, omega arith)
      | inr same ↦ rw same (omega arith, ground arith)
    ]

convert_run : convert_zidx isqrt 7 ≡ (3, negsuc 0)
unfolding convert_zidx
convert_run = refl

instance whole_arithmetic : Arithmetic ℕ
whole_arithmetic = record {
  plus = λ a b. a + b;
  minus = λ a b. (a - b) + (b - a);
  times = λ a b. a * b;
  over = λ a b. a / b;
  fabs = λ a. a;
  constant = λ n. n;
}

coefficients_run :
    changed_coefficients {A = ℕ} 2
      (pos 3 ∷ negsuc 0 ∷ [])
      ((pos 3, 5) ∷ (pos 9, 1) ∷ [])
      (4 ∷ 5 ∷ 6 ∷ 7 ∷ [])
    ≡ some (0 ∷ 0 ∷ 6 ∷ 5 ∷ [])
unfolding changed_coefficients reset_first reset_listed add_listed whole_arithmetic
coefficients_run = refl

convert_zidx_lem_example :
    ((n j : ℕ) → j ≤ n → convert_zidx isqrt (before_order n + j) ≡ (n, sub_ℕ (2 * j) n))
    × ((p : ℕ) → (n : ℕ) × (j : ℕ) × (j ≤ n) × (p ≡ before_order n + j))
    × ((n j : ℕ)
        → j ≤ n
        → n ≤ zernike_max_power
        → check_parameters true (pos n) (sub_ℕ (2 * j) n) ≡ false)
    × ((n m : ℤ)
        → check_parameters true n m ≡ false
        → (k : ℕ) × (j : ℕ) × (n ≡ pos k) × (j ≤ k) × (m ≡ sub_ℕ (2 * j) k))
convert_zidx_lem_example = convert_zidx_lem isqrt isqrt-IsRoot

-- The residues of 97, in which -1 is 96, and a quotient is a product with a power.
abbrev residue_power : ℕ → ℕ → ℕ
residue_power b zero = 1
residue_power b (suc k) = b * residue_power b k % 97

abbrev residues : Arithmetic ℕ
residues = record {
  plus = λ a b. (a + b) % 97;
  minus = λ a b. (a + (97 - b)) % 97;
  times = λ a b. a * b % 97;
  over = λ a b. a * residue_power b 95 % 97;
  fabs = λ a. a;
  constant = λ n. n % 97;
}

-- 4 R^4 - 3 R^2 at R = 5.
radial_run : radial ⦃arithmetic = residues⦄ 40 4 2 5 ≡ some ((4 * 625 - 3 * 25) % 97)
unfolding radial radial_loop summand build_factorial with_rpow build_rpow
radial_run = refl

radial_lem_example :
    (4 < zernike_max_power
      → radial ⦃arithmetic = residues⦄ 40 4 2 5
        ≡ some (defined_sum ⦃arithmetic = residues⦄ 5 4 2 2 0 0))
    × (4 ≡ zernike_max_power → radial ⦃arithmetic = residues⦄ 40 4 2 5 ≡ none)
radial_lem_example =
    radial_lem ⦃arithmetic = residues⦄ (record { even = refl; odd = refl }) 40 4 2 5 (omega arith)

changed_coefficients_lem_example :
    (4 < 2
      → changed_coefficients {A = ℕ} 2 (pos 3 ∷ []) ((pos 3, 5) ∷ []) (4 ∷ 5 ∷ 6 ∷ 7 ∷ []) ≡ none)
    × (2 ≤ 4
        → (z' : List ℕ) × (changed_coefficients {A = ℕ} 2
              (pos 3 ∷ [])
              ((pos 3, 5) ∷ [])
              (4 ∷ 5 ∷ 6 ∷ 7 ∷ [])
            ≡ some z')
          × (length z' ≡ 4)
          × ((i a : ℕ)
              → get_elem? (4 ∷ 5 ∷ 6 ∷ 7 ∷ []) i ≡ some a
              → get_elem? z' i
                ≡ some (
                    with_added {A = ℕ} i ((pos 3, 5) ∷ []) (
                      if ltb i 2 || is_listed i (pos 3 ∷ [])
                      then whole_arithmetic.constant 0
                      else a))))
changed_coefficients_lem_example =
    changed_coefficients_lem 2 (pos 3 ∷ []) ((pos 3, 5) ∷ []) (4 ∷ 5 ∷ 6 ∷ 7 ∷ [])
