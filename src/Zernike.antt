-- ===== src/Zernike.antt =====
-- wfs_read/zernike.c: the numbering of the Zernike polynomials, the sum of their radial part and the
-- change of the coefficients before an image is composed. Numbers are an interface with the
-- arithmetic that the code uses, points are given by their radius.
pub mod Numbering
pub mod Radial
pub mod Coefficients
mod Tests
use bta_utils.Prelude.{
  ℕ, zero, suc, ◌+◌, ◌-◌, ◌*◌, ◌/◌, ◌%◌, Bool, true, false, not, ◌&&◌, ◌||◌, List, [], ◌∷◌, Option,
  none, some, get_elem?, set, length, get_or, ltb, leb, ◌==◌, if◌then◌else◌, ℤ, pos, negsuc, sub_ℕ,
  ◌-ℤ◌, ltb_ℤ, dist_ℤ,
}
use bta_utils.Fits.{◌>>=◌}
use bta_utils.Fits.Outliers.{Arithmetic}

abbrev pub zernike_max_power : ℕ
zernike_max_power = 100

-- `convert_Zidx`; `isqrt` is the whole part of a square root, which is all that floor leaves of it.
unfoldable pub convert_zidx : (ℕ → ℕ) → ℕ → ℕ × ℤ
convert_zidx isqrt p = let n = (isqrt (1 + 8 * p) - 1) / 2 in (n, sub_ℕ (2 * p) (n * (n + 1) + n))

abbrev pub is_odd : ℤ → Bool
is_odd (pos k) = k % 2 == 1
is_odd (negsuc k) = suc k % 2 == 1

-- `check_parameters`: whether there is an error, for what the test of the points gives.
unfoldable pub check_parameters : Bool → ℤ → ℤ → Bool
check_parameters points_ok n m =
    not points_ok
    || (ltb_ℤ (pos zernike_max_power) n
        || (ltb_ℤ n (pos 0) || (ltb_ℤ n (pos (dist_ℤ m (pos 0))) || is_odd (n -ℤ m))))

module _ {ℓ} {A : Type ℓ} ⦃arithmetic : Arithmetic A⦄ where
  -- `build_factorial`: the factorials from 0 on.
  abbrev pub factorials_from : ℕ → ℕ → A → List A
  factorials_from zero i f = []
  factorials_from (suc count) i f =
      let next = arithmetic.times f (arithmetic.constant i) in
      next ∷ factorials_from count (suc i) next

  unfoldable pub build_factorial : List A
  build_factorial =
      arithmetic.constant 1 ∷ factorials_from (zernike_max_power - 1) 1 (arithmetic.constant 1)

  -- `build_rpow` for one point: the powers of its radius.
  abbrev pub powers_from : ℕ → A → A → List A
  powers_from zero r p = []
  powers_from (suc count) r p = let next = arithmetic.times p r in next ∷ powers_from count r next

  unfoldable pub build_rpow : ℕ → A → List A
  build_rpow n r = arithmetic.constant 1 ∷ powers_from n r (arithmetic.constant 1)

  -- A summand of the radial part of `zernfun`; none where an array is read past its end.
  abbrev pub quotient : ℕ → A → A → A → A → A
  quotient k a b c d =
      let sign =
        arithmetic.minus (arithmetic.constant 1)
          (arithmetic.times (arithmetic.constant 2) (arithmetic.constant (k % 2))) in
      arithmetic.over (arithmetic.times sign a) (arithmetic.times (arithmetic.times b c) d)

  unfoldable pub summand : List A → List A → ℕ → ℕ → ℕ → Option A
  summand fk rpow n m_abs k = do
    a ← get_elem? fk (n - k)
    b ← get_elem? fk k
    c ← get_elem? fk ((n + m_abs) / 2 - k)
    d ← get_elem? fk ((n - m_abs) / 2 - k)
    r ← get_elem? rpow (n - 2 * k)
    some (arithmetic.times (quotient k a b c d) r)

  -- The rounds of the sum from `k` on.
  unfoldable pub radial_loop : ℕ → List A → List A → ℕ → ℕ → ℕ → A → Option A
  radial_loop zero fk rpow n m_abs k z = some z
  radial_loop (suc count) fk rpow n m_abs k z = do
    s ← summand fk rpow n m_abs k
    radial_loop count fk rpow n m_abs (suc k) (arithmetic.plus z s)

  -- The powers that `zernfun` uses: those at hand, or new ones up to n + 10.
  unfoldable pub with_rpow : ℕ → ℕ → A → List A
  with_rpow points_n n r = build_rpow (if ltb points_n n then n + 10 else points_n) r

  -- The sum for a point, for checked parameters.
  unfoldable pub radial : ℕ → ℕ → ℕ → A → Option A
  radial points_n n m_abs r =
      radial_loop (suc ((n - m_abs) / 2)) build_factorial (with_rpow points_n n r) n m_abs 0
        (arithmetic.constant 0)

  -- The coefficients before the image is composed: the first ones and listed ones are reset, and
  -- values are added. A number out of range is passed over, but for the count of the first ones.
  unfoldable pub reset_first : ℕ → List A → Option (List A)
  reset_first zero z = some z
  reset_first (suc n) [] = none
  reset_first (suc n) (c ∷ z) = do rest ← reset_first n z; some (arithmetic.constant 0 ∷ rest)

  abbrev pub changed_at : ℤ → (A → A) → List A → List A
  changed_at (pos i) f z =
      if ltb i (length z) then set z i (f (get_or z i (arithmetic.constant 0))) else z
  changed_at (negsuc i) f z = z

  unfoldable pub reset_listed : List ℤ → List A → List A
  reset_listed [] z = z
  reset_listed (c ∷ cs) z = reset_listed cs (changed_at c (λ _. arithmetic.constant 0) z)

  unfoldable pub add_listed : List (ℤ × A) → List A → List A
  add_listed [] z = z
  add_listed ((c, value) ∷ cs) z = add_listed cs (changed_at c (λ a. arithmetic.plus a value) z)

  unfoldable pub changed_coefficients : ℕ → List ℤ → List (ℤ × A) → List A → Option (List A)
  changed_coefficients first tozero added z = do
    reset ← reset_first first z
    some (add_listed added (reset_listed tozero reset))
