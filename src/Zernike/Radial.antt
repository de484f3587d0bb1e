-- ===== src/Zernike/Radial.antt =====
-- wfs_read/zernike.c: the radial part of a polynomial, from the tables of factorials and powers.
use bta_utils.Prelude.{
  ℕ, zero, suc, ◌+◌, ◌-◌, ◌*◌, ◌/◌, ◌%◌, ◌≤◌, ◌<◌, ◌≡◌, refl, ap, none, some, get_elem?, arith, ltb,
  if◌then◌else◌,
}
use bta_utils.Fits.Outliers.{Arithmetic}
use bta_utils.Zernike.{
  zernike_max_power, factorials_from, build_factorial, powers_from, build_rpow, quotient, summand,
  radial_loop, with_rpow, radial,
}

-- What floating-point numbers do on these: 1 - 2 * 0 is 1, and 1 - 2 * 1 is 0 - 1.
pub record IsExact {ℓ} (A : Type ℓ) ⦃arithmetic : Arithmetic A⦄ : Type ℓ where
  pub even :
      arithmetic.minus
        (arithmetic.constant 1)
        (arithmetic.times (arithmetic.constant 2) (arithmetic.constant 0))
      ≡ arithmetic.constant 1
  pub odd :
      arithmetic.minus
        (arithmetic.constant 1)
        (arithmetic.times (arithmetic.constant 2) (arithmetic.constant 1))
      ≡ arithmetic.minus (arithmetic.constant 0) (arithmetic.constant 1)

module _ {ℓ} {A : Type ℓ} ⦃arithmetic : Arithmetic A⦄ where
  -- The factorial and the power, by their recursions.
  abbrev pub factorial : ℕ → A
  factorial zero = arithmetic.constant 1
  factorial (suc n) = arithmetic.times (factorial n) (arithmetic.constant (suc n))

  abbrev pub power : A → ℕ → A
  power r zero = arithmetic.constant 1
  power r (suc n) = arithmetic.times (power r n) r

  get_elem?-factorials_from :
      (count i k j : ℕ)
      → k < count
      → j ≡ suc i + k
      → get_elem? (factorials_from count (suc i) (factorial i)) k ≡ some (factorial j)
  get_elem?-factorials_from zero i k j h e = absurd (omega arith)
  get_elem?-factorials_from (suc count) i zero j h e =
      (let e' : j ≡ suc i = omega arith in rw e' refl)
  get_elem?-factorials_from (suc count) i (suc k) j h e =
      get_elem?-factorials_from count (suc i) k j (omega arith) (omega arith)

  get_elem?-factorials_end :
      (count i k : ℕ) (f : A) → count ≤ k → get_elem? (factorials_from count i f) k ≡ none
  get_elem?-factorials_end zero i k f h = refl
  get_elem?-factorials_end (suc count) i zero f h = absurd (omega arith)
  get_elem?-factorials_end (suc count) i (suc k) f h =
      get_elem?-factorials_end count (suc i) k _ (omega arith)

  get_elem?-build_factorial :
      (k : ℕ) → k < zernike_max_power → get_elem? build_factorial k ≡ some (factorial k)
  unfolding build_factorial
  get_elem?-build_factorial zero h = refl
  get_elem?-build_factorial (suc k) h =
      get_elem?-factorials_from (zernike_max_power - 1) 0 k (suc k) (omega arith) (omega arith)

  build_factorial_end : get_elem? {A = A} build_factorial zernike_max_power ≡ none
  unfolding build_factorial
  build_factorial_end =
      get_elem?-factorials_end (zernike_max_power - 1) 1 (zernike_max_power - 1)
        (arithmetic.constant 1) (omega arith)

  get_elem?-powers_from :
      (count i k j : ℕ) (r : A)
      → k < count
      → j ≡ suc i + k
      → get_elem? (powers_from count r (power r i)) k ≡ some (power r j)
  get_elem?-powers_from zero i k j r h e = absurd (omega arith)
  get_elem?-powers_from (suc count) i zero j r h e =
      (let e' : j ≡ suc i = omega arith in rw e' refl)
  get_elem?-powers_from (suc count) i (suc k) j r h e =
      get_elem?-powers_from count (suc i) k j r (omega arith) (omega arith)

  get_elem?-with_rpow :
      (points_n n k : ℕ) (r : A) → k ≤ n → get_elem? (with_rpow points_n n r) k ≡ some (power r k)
  unfolding with_rpow build_rpow
  get_elem?-with_rpow points_n n zero r h = refl
  get_elem?-with_rpow points_n n (suc k) r h =
      get_elem?-powers_from (if ltb points_n n then n + 10 else points_n) 0 k (suc k) r
        (ground arith) (omega arith)

  -- (-1)^k, with -1 as 0 - 1.
  abbrev pub alternating : ℕ → A
  alternating zero = arithmetic.constant 1
  alternating (suc zero) = arithmetic.minus (arithmetic.constant 0) (arithmetic.constant 1)
  alternating (suc (suc k)) = alternating k

  sign_lem :
      IsExact A
      → (k : ℕ)
      → arithmetic.minus
          (arithmetic.constant 1)
          (arithmetic.times (arithmetic.constant 2) (arithmetic.constant (k % 2)))
        ≡ alternating k
  sign_lem exact zero = exact.even
  sign_lem exact (suc zero) = exact.odd
  sign_lem exact (suc (suc k)) =
      let e : suc (suc k) % 2 ≡ k % 2 = omega arith in rw e (sign_lem exact k)

  -- A summand of the definition: (-1)^k (n-k)! / (k! ((n+|m|)/2-k)! ((n-|m|)/2-k)!) R^(n-2k).
  abbrev pub defined_summand : A → ℕ → ℕ → ℕ → A
  defined_summand r n m_abs k =
      arithmetic.times
        (arithmetic.over (arithmetic.times (alternating k) (factorial (n - k))) (
          arithmetic.times (arithmetic.times (factorial k) (factorial ((n + m_abs) / 2 - k)))
            (factorial ((n - m_abs) / 2 - k))))
        (power r (n - 2 * k))

  quotient_lem :
      IsExact A
      → (k : ℕ) (a b c d : A)
      → quotient k a b c d
        ≡ arithmetic.over
            (arithmetic.times (alternating k) a)
            (arithmetic.times (arithmetic.times b c) d)
  quotient_lem exact k a b c d =
      ap
        (λ sign.
          arithmetic.over (arithmetic.times sign a) (arithmetic.times (arithmetic.times b c) d))
        (sign_lem exact k)

  abbrev pub defined_sum : A → ℕ → ℕ → ℕ → ℕ → A → A
  defined_sum r n m_abs zero k z = z
  defined_sum r n m_abs (suc count) k z =
      defined_sum r n m_abs count (suc k) (arithmetic.plus z (defined_summand r n m_abs k))

  module _ (exact : IsExact A) (points_n n m_abs : ℕ) (r : A) (m_fits : m_abs ≤ n) where
    summand_lem :
        (k : ℕ)
        → n < zernike_max_power
        → k ≤ (n - m_abs) / 2
        → summand build_factorial (with_rpow points_n n r) n m_abs k
          ≡ some (defined_summand r n m_abs k)
    unfolding summand
    summand_lem k small h =
        rw
          (
            get_elem?-build_factorial (n - k) (omega arith),
            get_elem?-build_factorial k (omega arith),
            get_elem?-build_factorial ((n + m_abs) / 2 - k) (omega arith),
            get_elem?-build_factorial ((n - m_abs) / 2 - k) (omega arith),
            get_elem?-with_rpow points_n n (n - 2 * k) r (omega arith),
            quotient_lem exact k (factorial (n - k)) (factorial k) (factorial ((n + m_abs) / 2 - k))
                (factorial ((n - m_abs) / 2 - k)),
          )
          refl

    radial_loop_lem :
        (count k : ℕ) (z : A)
        → n < zernike_max_power
        → k + count ≤ suc ((n - m_abs) / 2)
        → radial_loop count build_factorial (with_rpow points_n n r) n m_abs k z
          ≡ some (defined_sum r n m_abs count k z)
    unfolding radial_loop
    radial_loop_lem zero k z small h = refl
    radial_loop_lem (suc count) k z small h = rw (summand_lem k small (omega arith)) (
        radial_loop_lem count (suc k) (arithmetic.plus z (defined_summand r n m_abs k)) small
          (omega arith))

  past_end :
      (points_n n m_abs : ℕ) (r : A)
      → n ≡ zernike_max_power
      → radial_loop
          (suc ((n - m_abs) / 2))
          build_factorial
          (with_rpow points_n n r)
          n
          m_abs
          0
          (arithmetic.constant 0)
        ≡ none
  unfolding radial_loop summand
  past_end points_n n m_abs r e =
      let e' : n - 0 ≡ zernike_max_power = omega arith in rw (e', build_factorial_end) refl

  -- For an order below 100 and an angular parameter up to it, the radial part of `zernfun` reads its
  -- tables within their ends, whatever powers are at hand, and is the sum over k from 0 to (n-|m|)/2 of
  -- (-1)^k (n-k)! / (k! ((n+|m|)/2-k)! ((n-|m|)/2-k)!) R^(n-2k), where 1 - 2 * 0 is 1 and 1 - 2 * 1 is
  -- -1 in the arithmetic. For the order 100, which `check_parameters` accepts, the table of the
  -- factorials is read past its end.
  pub radial_lem :
      IsExact A
      → (points_n n m_abs : ℕ) (r : A) → m_abs ≤ n
      → (n < zernike_max_power
          → radial points_n n m_abs r
            ≡ some (defined_sum r n m_abs (suc ((n - m_abs) / 2)) 0 (arithmetic.constant 0)))
        × (n ≡ zernike_max_power → radial points_n n m_abs r ≡ none)
  unfolding radial
  radial_lem exact points_n n m_abs r h = (
    λ small.
        radial_loop_lem exact points_n n m_abs r h (suc ((n - m_abs) / 2)) 0 (arithmetic.constant 0)
          small (omega arith),
    λ e. past_end points_n n m_abs r e,
  )
