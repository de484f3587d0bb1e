-- ===== src/Meteo/Kept.antt =====
-- BTA_modbusmeteo/bta_meteo_modbus.c: what no packet of the line changes.
use bta_utils.Prelude.{
  ℕ, zero, suc, ◌≡◌, refl, Bool, true, false, not, ◌&&◌, ◌||◌, Option, none, some, List, [], ◌∷◌,
  length, ℤ, Bool-cases, ◌⊎◌, inl, inr, if◌then◌else◌, arith, ◌==◌, sym,
}
use mathlib.Core.Path.{subst}
use bta_utils.Meteo.Reading.{OneReading, IsRound, packet_round-IsRound}
use bta_utils.Meteo.{
  Par, Source, input, sensor, net, par_wnd, par_t1, par_hmd, par_b, same_par, same_source, Weather,
  in_range, store_par, ParamsAns, Poll, got, timeout, select_fails, interrupted, read_fails, Round,
  returns, goes_on, meteo_round, meteo_loop, check_meteo_params,
}

IsRound-if :
    (gotsegm : Bool) (w : Weather) (test : Bool) (x y : Round)
    → IsRound gotsegm w x
    → IsRound gotsegm w y
    → IsRound gotsegm w (if test then x else y)
IsRound-if gotsegm w true x y hx hy = hx
IsRound-if gotsegm w false x y hx hy = hy

meteo_round-IsRound :
    (gotsegm : Bool) (poll : Poll) (ctr l : ℕ) (buf : List ℕ) (w : Weather)
    → IsRound gotsegm w (meteo_round gotsegm poll ctr buf l w)
unfolding meteo_round
meteo_round-IsRound gotsegm select_fails ctr l buf w = inl refl
meteo_round-IsRound gotsegm read_fails ctr l buf w = inl refl
meteo_round-IsRound gotsegm (got bytes) ctr l buf w = refl
meteo_round-IsRound gotsegm interrupted ctr l buf w =
    IsRound-if gotsegm w (length buf == 0) _ _ (inl refl) refl
meteo_round-IsRound gotsegm timeout ctr l buf w =
    IsRound-if gotsegm w (length buf == 0) _ _ (inl refl) (
      IsRound-if gotsegm w (length buf == 8 || length buf == 7 || length buf == 15) _ _
        (packet_round-IsRound gotsegm ctr l buf w) refl)

-- A result of the loop has one reading at most.
abbrev IsResult : Bool → Weather → Option (ParamsAns × ℕ × Weather) → Type 0
IsResult gotsegm w none = w ≡ w
IsResult gotsegm w (some (ans, l, w')) = OneReading gotsegm w w'

meteo_loop-IsResult :
    (gotsegm : Bool) (polls : List Poll) (ctr : ℕ) (buf : List ℕ) (l : ℕ) (w : Weather)
    → IsResult gotsegm w (meteo_loop gotsegm polls ctr buf l w)
unfolding meteo_loop
meteo_loop-IsResult gotsegm polls zero buf l w = inl refl
meteo_loop-IsResult gotsegm [] (suc ctr) buf l w = refl
meteo_loop-IsResult gotsegm (poll ∷ polls) (suc ctr) buf l w =
    by_round (meteo_round gotsegm poll ctr buf l w) (meteo_round-IsRound gotsegm poll ctr l buf w)
      (λ ctr' buf' l'. meteo_loop-IsResult gotsegm polls ctr' buf' l' w)
  where
    by_round :
        (r : Round)
        → IsRound gotsegm w r
        → ((ctr' : ℕ) (buf' : List ℕ) (l' : ℕ)
            → IsResult gotsegm w (meteo_loop gotsegm polls ctr' buf' l' w))
        → IsResult gotsegm w (elim r [
          | returns ans l' w' ↦ some (ans, l', w')
          | goes_on ctr' buf' l' w' ↦ meteo_loop gotsegm polls ctr' buf' l' w'
        ])
    by_round (returns ans l' w') h rest = h
    by_round (goes_on ctr' buf' l' w') h rest =
        subst (λ k. IsResult gotsegm w (meteo_loop gotsegm polls ctr' buf' l' k)) (sym h)
          (rest ctr' buf' l')

-- What stays of a weather: the flags of the values entered by hand, and those values; any other
-- value stays or is in the bounds of its kind; without a shared memory all stays.
pub record Kept (gotsegm : Bool) (w w' : Weather) : Type 0 where
  pub inputs : (p : Par) → w'.mode input p ≡ w.mode input p
  pub by_hand : (p : Par) → w.mode input p ≡ true → w'.val p ≡ w.val p
  pub bounded : (p : Par) → (w'.val p ≡ w.val p) ⊎ (in_range p (w'.val p) ≡ true)
  pub without : gotsegm ≡ false → w' ≡ w

Kept-same : (gotsegm : Bool) (w : Weather) → Kept gotsegm w w
Kept-same gotsegm w = record {
  inputs = λ p. refl;
  by_hand = λ p h. refl;
  bounded = λ p. inl refl;
  without = λ h. refl;
}

same_par→eq : (p q : Par) → same_par p q ≡ true → p ≡ q
same_par→eq par_wnd par_wnd h = refl
same_par→eq par_t1 par_t1 h = refl
same_par→eq par_hmd par_hmd h = refl
same_par→eq par_b par_b h = refl
same_par→eq p q h = absurd (ground arith)

-- The weather after a value is stored.
module _ (p : Par) (v : ℤ) (w : Weather) where
  stored_val : (q : Par) → ℤ
  stored_val q = if same_par q p then v else w.val q

  stored_mode : Source → Par → Bool
  stored_mode s q =
      if same_par q p && same_source s net
      then false
      else (if same_par q p && same_source s sensor then true else w.mode s q)

  stored_mode-input : (q : Par) → stored_mode input q ≡ w.mode input q
  unfolding stored_mode
  stored_mode-input q = elim (Bool-cases (same_par q p)) [ inl h ↦ rw h refl | inr h ↦ rw h refl ]

  stored_val-by_hand :
      (q : Par) → w.mode input p ≡ false → w.mode input q ≡ true → stored_val q ≡ w.val q
  unfolding stored_val
  stored_val-by_hand q free h = elim (Bool-cases (same_par q p)) [
    | inl same ↦ absurd (cc (free, h, same_par→eq q p same))
    | inr other ↦ rw other refl
  ]

  stored_val-bounded :
      (q : Par)
      → in_range p v ≡ true
      → (stored_val q ≡ w.val q) ⊎ (in_range q (stored_val q) ≡ true)
  unfolding stored_val
  stored_val-bounded q ok = elim (Bool-cases (same_par q p)) [
    | inl same ↦ inr (rw same (subst (λ k. in_range k v ≡ true) (sym (same_par→eq q p same)) ok))
    | inr other ↦ inl (rw other refl)
  ]

guard_true : (x y z : Bool) → (x && not y && z) ≡ true → (x ≡ true) × (y ≡ false) × (z ≡ true)
guard_true true false true h = (refl, refl, refl)
guard_true true false false h = absurd (ground arith)
guard_true true true z h = absurd (ground arith)
guard_true false y z h = absurd (ground arith)

store_par-Kept :
    (gotsegm : Bool) (p : Par) (v : ℤ) (w : Weather) → Kept gotsegm w (store_par gotsegm p v w)
unfolding store_par stored_mode stored_val
store_par-Kept gotsegm p v w = elim (Bool-cases (gotsegm && not (w.mode input p) && in_range p v)) [
  | inr closed ↦ rw closed (Kept-same gotsegm w)
  | inl opened ↦
      let (has, free, ok) = guard_true gotsegm (w.mode input p) (in_range p v) opened in
      rw opened (record {
        inputs = stored_mode-input p v w;
        by_hand = λ q. stored_val-by_hand p v w q free;
        bounded = λ q. stored_val-bounded p v w q ok;
        without = λ h. absurd (cc (has, h));
      })
]

-- Whatever comes on the line: a call that returns leaves the flags of the values entered by hand and
-- those values as they are; any other value stays or is in the bounds of its kind; and without a
-- shared memory all stays.
pub check_meteo_params-Kept :
    (connected gotsegm : Bool) (polls : List Poll) (l l' : ℕ) (w w' : Weather) (ans : ParamsAns)
    → check_meteo_params connected gotsegm polls l w ≡ some (ans, l', w')
    → Kept gotsegm w w'
unfolding check_meteo_params
check_meteo_params-Kept connected gotsegm polls l l' w w' ans h =
    by_reading (subst (IsResult gotsegm w) h (result connected))
  where
    result : (c : Bool) → IsResult gotsegm w (check_meteo_params c gotsegm polls l w)
    result true = meteo_loop-IsResult gotsegm polls 30 [] l w
    result false = inl refl

    by_reading : OneReading gotsegm w w' → Kept gotsegm w w'
    by_reading (inl same) = subst (Kept gotsegm w) (sym same) (Kept-same gotsegm w)
    by_reading (inr (p, v, stored)) =
        subst (Kept gotsegm w) (sym stored) (store_par-Kept gotsegm p v w)
