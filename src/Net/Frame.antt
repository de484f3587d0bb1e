-- ===== src/Net/Frame.antt =====
-- bta_control_net-x86_64/bta_control_net/bta_control_net.c: the check sum of a packet, the 16-bit sum
-- of its bytes behind them.
use bta_utils.Prelude.{
  ℕ, zero, suc, ◌+◌, ◌-◌, ◌/◌, ◌%◌, ◌^◌, ◌<◌, ◌≡◌, ◌≢◌, refl, Bool, true, false, ◌&&◌, List, [],
  ◌∷◌, ◌++◌, length, take, get_or, ◌==◌, arith, length-append, ap,
}

-- The loop `for(i=0,cs.w=0; i<n; i++) cs.w += buff[i]`.
abbrev pub check_sum_from : ℕ → List ℕ → ℕ
check_sum_from w [] = w
check_sum_from w (b ∷ l) = check_sum_from ((w + b) % 2 ^ 16) l

unfoldable pub check_sum : List ℕ → ℕ
check_sum l = check_sum_from 0 l

-- The sender's end: the check sum's bytes are put behind the packet.
unfoldable pub with_check_sum : List ℕ → List ℕ
with_check_sum l = l ++ (check_sum l % 256 ∷ check_sum l / 256 ∷ [])

-- The receiver's test of the `rll` bytes in its buffer.
unfoldable pub check_sum_ok : ℕ → List ℕ → Bool
check_sum_ok rll buff =
    let cs = check_sum (take (rll - 2) buff) in
    get_or buff (rll - 2) 0 == cs % 256 && get_or buff (rll - 1) 0 == cs / 256

module _ {A : Type 0} where
  pub take_front : (xs ys : List A) (n : ℕ) → n ≡ length xs → take n (xs ++ ys) ≡ xs
  take_front [] ys zero h = refl
  take_front [] ys (suc n) h = absurd (omega arith)
  take_front (x ∷ xs) ys zero h = absurd (omega arith)
  take_front (x ∷ xs) ys (suc n) h = ap (λ l. x ∷ l) (take_front xs ys n (omega arith))

  pub get_or_behind :
      (xs ys : List A) (n i : ℕ) (d : A) → n ≡ length xs + i → get_or (xs ++ ys) n d ≡ get_or ys i d
  get_or_behind [] ys n i d h = ap (λ k. get_or ys k d) (omega arith)
  get_or_behind (x ∷ xs) ys zero i d h = absurd (omega arith)
  get_or_behind (x ∷ xs) ys (suc n) i d h = get_or_behind xs ys n i d (omega arith)

abbrev total : List ℕ → ℕ
total [] = 0
total (b ∷ l) = b + total l

pub length-packet : (l : List ℕ) → length (with_check_sum l) ≡ length l + 2
unfolding with_check_sum
length-packet l = omega (arith, length-append l (check_sum l % 256 ∷ check_sum l / 256 ∷ []))

check_sum_from-total :
    (w : ℕ) (l : List ℕ) → w < 2 ^ 16 → check_sum_from w l ≡ (w + total l) % 2 ^ 16
check_sum_from-total w [] h = omega arith
check_sum_from-total w (b ∷ l) h =
    omega (arith, check_sum_from-total ((w + b) % 2 ^ 16) l (omega arith))

total-append : (l m : List ℕ) → total (l ++ m) ≡ total l + total m
total-append [] m = omega arith
total-append (b ∷ l) m = omega (arith, total-append l m)

-- The test on a packet and the two bytes behind it.
check_sum_ok-packet :
    (l : List ℕ) (x y : ℕ) (stale : List ℕ)
    → check_sum_ok (length l + 2) (l ++ (x ∷ y ∷ stale))
      ≡ (x == check_sum l % 256 && y == check_sum l / 256)
unfolding check_sum_ok
check_sum_ok-packet l x y stale =
    rw
      (
        take_front l (x ∷ y ∷ stale) (length l + 2 - 2) (omega arith),
        get_or_behind l (x ∷ y ∷ stale) (length l + 2 - 2) 0 0 (omega arith),
        get_or_behind l (x ∷ y ∷ stale) (length l + 2 - 1) 1 0 (omega arith),
      )
      refl

-- A packet that arrives as it was sent passes the test.
pub check_sum_ok-with_check_sum :
    (l stale : List ℕ)
    → check_sum_ok (length l + 2) (l ++ (check_sum l % 256 ∷ check_sum l / 256 ∷ stale)) ≡ true
check_sum_ok-with_check_sum l stale =
    rw (check_sum_ok-packet l (check_sum l % 256) (check_sum l / 256) stale) (ground arith)

check_sum-total : (l : List ℕ) → check_sum l ≡ total l % 2 ^ 16
unfolding check_sum
check_sum-total l = omega (arith, check_sum_from-total 0 l (omega arith))

check_sum-one_wrong :
    (p q : List ℕ) (a b : ℕ)
    → a < 256
    → b < 256
    → a ≢ b
    → check_sum (p ++ (a ∷ q)) ≢ check_sum (p ++ (b ∷ q))
check_sum-one_wrong p q a b ha hb ne =
    let x = total-append p (a ∷ q) in
    let y = total-append p (b ∷ q) in
    let cx = check_sum-total (p ++ (a ∷ q)) in
    let cy = check_sum-total (p ++ (b ∷ q)) in λ e. ne (omega (arith, x, y, cx, cy, e))

-- One wrong byte is found, wherever it stands before the check sum: a packet that differs from what
-- was sent in that byte does not pass the receiver's test.
pub check_sum_ok-one_wrong :
    (p q stale : List ℕ) (a b : ℕ)
    → a < 256
    → b < 256
    → a ≢ b
    → let cs = check_sum (p ++ (a ∷ q)) in
      check_sum_ok
        (length (with_check_sum (p ++ (a ∷ q))))
        ((p ++ (b ∷ q)) ++ (cs % 256 ∷ cs / 256 ∷ stale))
      ≡ false
unfolding with_check_sum
check_sum_ok-one_wrong p q stale a b ha hb ne =
    let sent = p ++ (a ∷ q) in
    let got = p ++ (b ∷ q) in
    let cs = check_sum sent in
    let differ = check_sum-one_wrong p q a b ha hb ne in
    let n : length (with_check_sum sent) ≡ length got + 2 = omega (
      arith,
      length-append sent (cs % 256 ∷ cs / 256 ∷ []),
      length-append p (a ∷ q),
      length-append p (b ∷ q),
    ) in
    rw (n, check_sum_ok-packet got (cs % 256) (cs / 256) stale) (ground (arith, differ))
