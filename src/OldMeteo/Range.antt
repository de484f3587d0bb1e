-- ===== src/OldMeteo/Range.antt =====
-- BTA_modbusmeteo/olddaemon/bta_meteo_can.c: the range of the temperature T2.
use bta_utils.Prelude.{
  and_parts, pos, negsuc, ◌≡◌, refl, inl, inr, Bool, true, false, ◌&&◌, Bool-cases,
}
use bta_utils.OldMeteo.{
  not_below, not_above, lowest, highest, is_near, is_apart, stepped, mixed, Degrees, smoothed,
}

module _ (degrees : Degrees) where
  open degrees use {Degree, temperature, gt, ge, plus, minus, times, fabs, thousandths}

  abbrev pub IsInRange : Degree → Type 0
  IsInRange t = (ge t (thousandths (negsuc 19999)) && ge (thousandths (pos 30000)) t) ≡ true

  -- What rounded arithmetic does: the comparisons are an order, the sum and the products with 0.9 and
  -- 0.1 grow with their arguments, 0.9 and 0.1 of -20 and of 30 add up to it, and a step of 0.005 down
  -- or up goes that way, and not past a number that is more than 0.1 away on that side.
  pub record IsRounded : Type 0 where
    pub ge_trans : (a b c : Degree) → ge a b ≡ true → ge b c ≡ true → ge a c ≡ true
    pub not_gt : (a b : Degree) → gt a b ≡ false → ge b a ≡ true
    pub plus_mono :
        (a b c d : Degree) → ge a c ≡ true → ge b d ≡ true → ge (plus a b) (plus c d) ≡ true
    pub most_mono :
        (a b : Degree)
        → ge a b ≡ true
        → ge (times (thousandths (pos 900)) a) (times (thousandths (pos 900)) b) ≡ true
    pub tenth_mono :
        (a b : Degree)
        → ge a b ≡ true
        → ge (times (thousandths (pos 100)) a) (times (thousandths (pos 100)) b) ≡ true
    pub parts_lowest :
        plus
          (times (thousandths (pos 900)) (thousandths (negsuc 19999)))
          (times (thousandths (pos 100)) (thousandths (negsuc 19999)))
        ≡ thousandths (negsuc 19999)
    pub parts_highest :
        plus
          (times (thousandths (pos 900)) (thousandths (pos 30000)))
          (times (thousandths (pos 100)) (thousandths (pos 30000)))
        ≡ thousandths (pos 30000)
    pub step_down : (a : Degree) → ge a (plus a (thousandths (negsuc 4))) ≡ true
    pub step_up : (a : Degree) → ge (plus a (thousandths (pos 5))) a ≡ true
    pub down_to :
        (a b : Degree)
        → gt a b ≡ true
        → gt (fabs (minus a b)) (thousandths (pos 100)) ≡ true
        → ge (plus a (thousandths (negsuc 4))) b ≡ true
    pub up_to :
        (a b : Degree)
        → ge b a ≡ true
        → gt (fabs (minus a b)) (thousandths (pos 100)) ≡ true
        → ge b (plus a (thousandths (pos 5))) ≡ true

  module _ (rounded : IsRounded) where
    -- A step towards a temperature in the range and a mean with one stay in the range.
    pub stepped_range :
        (a b : Degree)
        → IsInRange a
        → IsInRange b
        → is_apart degrees a b ≡ true
        → IsInRange (stepped degrees a b)
    unfolding stepped
    stepped_range a b ha hb apart =
        let (a_low, a_high) = and_parts (not_below degrees a) (not_above degrees a) ha in
        let (b_low, b_high) = and_parts (not_below degrees b) (not_above degrees b) hb in
        elim (Bool-cases (gt a b)) [
          | inl over ↦
              let low = rounded.ge_trans _ b _ (rounded.down_to a b over apart) b_low in
              let high = rounded.ge_trans _ a _ a_high (rounded.step_down a) in
              rw (stepped, over, low, high) refl
          | inr under ↦
              let to = rounded.up_to a b (rounded.not_gt a b under) apart in
              let low = rounded.ge_trans _ a _ (rounded.step_up a) a_low in
              let high = rounded.ge_trans _ b _ b_high to in rw (stepped, under, low, high) refl
        ]

    pub mixed_range : (a b : Degree) → IsInRange a → IsInRange b → IsInRange (mixed degrees a b)
    unfolding mixed
    mixed_range a b ha hb =
        let (a_low, a_high) = and_parts (not_below degrees a) (not_above degrees a) ha in
        let (b_low, b_high) = and_parts (not_below degrees b) (not_above degrees b) hb in
        let sum = mixed degrees a b in
        let low : ge sum (lowest degrees) ≡ true = rw (← rounded.parts_lowest) (
          rounded.plus_mono _ _ _ _ (rounded.most_mono a _ a_low) (rounded.tenth_mono b _ b_low)) in
        let high : ge (highest degrees) sum ≡ true = rw (← rounded.parts_highest) (
          rounded.plus_mono _ _ _ _ (rounded.most_mono _ a a_high)
            (rounded.tenth_mono _ b b_high)) in
        rw (low, high) refl

    pub smoothed_range :
        (sensor : Bool) (a b : Degree)
        → (sensor ≡ true → IsInRange a)
        → IsInRange b
        → IsInRange (smoothed degrees sensor a b)
    unfolding smoothed
    smoothed_range false a b ha hb = hb
    smoothed_range true a b ha hb = elim (Bool-cases (is_near degrees a b)) [
      | inr far ↦ rw far hb
      | inl near ↦ elim (Bool-cases (is_apart degrees a b)) [
        | inl apart ↦ rw (near, apart) (stepped_range a b (ha refl) hb apart)
        | inr close ↦ rw (near, close) (mixed_range a b (ha refl) hb)
      ]
    ]
