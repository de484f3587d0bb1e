-- ===== src/Zernike/Numbering.antt =====
-- wfs_read/zernike.c: the numbering of the polynomials by `convert_Zidx`.
use native.Mathlib.Nat.{mul-le-mul}
use bta_utils.Prelude.{
  Bool-cases, inl, inr, ltb→lt, ℕ, zero, suc, ◌+◌, ◌-◌, ◌*◌, ◌/◌, ◌≤◌, ◌<◌, ◌≡◌, refl, true, false,
  arith, ltb, ◌==◌, ℤ, pos, negsuc, sub_ℕ, ◌-ℤ◌,
}
use bta_utils.Zernike.{zernike_max_power, convert_zidx, check_parameters}

-- What a whole part of a square root is.
abbrev pub IsRoot : (ℕ → ℕ) → Type 0
IsRoot isqrt = (x : ℕ) → (isqrt x * isqrt x ≤ x) × (x < suc (isqrt x) * suc (isqrt x))

-- The number of the polynomials of the orders before `n`, which are the indexes before its own.
abbrev pub before_order : ℕ → ℕ
before_order zero = 0
before_order (suc n) = before_order n + suc n

before_order_twice : (n : ℕ) → 2 * before_order n ≡ n * (n + 1)
before_order_twice zero = refl
before_order_twice (suc n) = omega (arith, before_order_twice n)

before_order_mono : (a b : ℕ) → a < b → before_order a + suc a ≤ before_order b
before_order_mono a zero h = absurd (omega arith)
before_order_mono a (suc b) h = elim (Bool-cases (ltb a b)) [
  | inl lt ↦ omega (arith, before_order_mono a b (ltb→lt a b lt))
  | inr ge ↦ (let e : a ≡ b = ground arith in rw e (omega arith))
]

-- The order that `convert_Zidx` finds for an index.
order_bounds :
    (r p : ℕ)
    → r * r ≤ 1 + 8 * p
    → 1 + 8 * p < suc r * suc r
    → let n = (r - 1) / 2 in (before_order n ≤ p) × (p ≤ before_order n + n)
order_bounds r p low high =
    let n = (r - 1) / 2 in
    let some_root : 0 < r = (elim (Bool-cases (r == 0)) [
      | inl e ↦ (let e' : r ≡ 0 = ground arith in absurd (omega (arith, rw e' at high)))
      | inr ne ↦ ground arith
    ]) in
    let from : 2 * n + 1 ≤ r = omega arith in
    let to : suc r ≤ 2 * n + 3 = omega arith in
    let low' = mul-le-mul from from in
    let high' = mul-le-mul to to in let twice = before_order_twice n in (omega arith, omega arith)

order_unique :
    (n k p : ℕ)
    → before_order n ≤ p
    → p ≤ before_order n + n
    → before_order k ≤ p
    → p ≤ before_order k + k
    → n ≡ k
order_unique n k p a b c d = elim (Bool-cases (ltb n k)) [
  | inl lt ↦ absurd (omega (arith, before_order_mono n k (ltb→lt n k lt)))
  | inr ge ↦ elim (Bool-cases (ltb k n)) [
    | inl lt ↦ absurd (omega (arith, before_order_mono k n (ltb→lt k n lt)))
    | inr ge' ↦ ground arith
  ]
]

order_found :
    (isqrt : ℕ → ℕ) (n j : ℕ)
    → IsRoot isqrt
    → j ≤ n
    → (isqrt (1 + 8 * (before_order n + j)) - 1) / 2 ≡ n
order_found isqrt n j root h =
    let p = before_order n + j in
    let (low, high) = root (1 + 8 * p) in
    let (from, to) = order_bounds (isqrt (1 + 8 * p)) p low high in
    order_unique ((isqrt (1 + 8 * p) - 1) / 2) n p from to (omega arith) (omega arith)

sub_shift : (a b c : ℕ) → sub_ℕ (c + a) (c + b) ≡ sub_ℕ a b
sub_shift a b c = ground arith

angular_lem : (n j : ℕ) → sub_ℕ (2 * (before_order n + j)) (n * (n + 1) + n) ≡ sub_ℕ (2 * j) n
angular_lem n j =
    let e : 2 * (before_order n + j) ≡ n * (n + 1) + 2 * j = omega (arith, before_order_twice n) in
    rw e (sub_shift (2 * j) n (n * (n + 1)))

pair_accepted :
    (n j : ℕ)
    → j ≤ n
    → n ≤ zernike_max_power
    → check_parameters true (pos n) (sub_ℕ (2 * j) n) ≡ false
unfolding check_parameters ◌-ℤ◌
pair_accepted n j h small = ground arith

accepted_pair :
    (n m : ℤ)
    → check_parameters true n m ≡ false
    → (k : ℕ) × (j : ℕ) × (n ≡ pos k) × (j ≤ k) × (m ≡ sub_ℕ (2 * j) k)
unfolding check_parameters ◌-ℤ◌
accepted_pair (negsuc k) m h = absurd (ground arith)
accepted_pair (pos k) (pos i) h = (k, (k + i) / 2, refl, ground arith, ground arith)
accepted_pair (pos k) (negsuc i) h = (k, (k - suc i) / 2, refl, ground arith, ground arith)

-- For a whole part of the square root: the index of an order and a place in it, from 0 to the order,
-- is converted to that order and the angular parameter 2 j - n; each index is one of an order and
-- a place. Up to the order 100 the parameters that `check_parameters` accepts are just these.
pub convert_zidx_lem :
    (isqrt : ℕ → ℕ)
    → IsRoot isqrt
    → ((n j : ℕ) → j ≤ n → convert_zidx isqrt (before_order n + j) ≡ (n, sub_ℕ (2 * j) n))
      × ((p : ℕ) → (n : ℕ) × (j : ℕ) × (j ≤ n) × (p ≡ before_order n + j))
      × ((n j : ℕ)
          → j ≤ n
          → n ≤ zernike_max_power
          → check_parameters true (pos n) (sub_ℕ (2 * j) n) ≡ false)
      × ((n m : ℤ)
          → check_parameters true n m ≡ false
          → (k : ℕ) × (j : ℕ) × (n ≡ pos k) × (j ≤ k) × (m ≡ sub_ℕ (2 * j) k))
unfolding convert_zidx
convert_zidx_lem isqrt root = (
  λ n j h. rw (order_found isqrt n j root h, angular_lem n j) refl,
  λ p.
      (let (low, high) = root (1 + 8 * p) in
        let n = (isqrt (1 + 8 * p) - 1) / 2 in
        let (from, to) = order_bounds (isqrt (1 + 8 * p)) p low high in
        (n, p - before_order n, omega arith, omega arith)),
  pair_accepted,
  accepted_pair,
)
