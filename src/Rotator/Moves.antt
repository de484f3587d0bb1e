-- ===== src/Rotator/Moves.antt =====
-- p1rotator/stepper.c: a move by a number of microsteps, and the way to the end switch.
use bta_utils.Prelude.{
  ℕ, zero, suc, ◌+◌, ◌≤◌, ◌<◌, ◌≡◌, refl, Bool, true, false, not, List, ◌∷◌, ℤ, pos, negsuc, ◌+ℤ◌,
  pos_part, neg_part, +ℤ_parts, eq_of_parts, arith, replicate, ◌++◌,
}
use bta_utils.Rotator.{Motor, move_loop, move_motor, zero_loop, gotozero, zero_usteps}

-- A level that is toggled a number of times.
abbrev pub toggled : ℕ → Bool → Bool
toggled zero b = b
toggled (suc n) b = toggled n (not b)

move_loop-plus :
    (n : ℕ) (m : Motor)
    → let p = (move_loop n (pos 1) m).absusteps in
      pos_part p + neg_part m.absusteps ≡ neg_part p + pos_part m.absusteps + n
unfolding move_loop
move_loop-plus zero m = omega arith
move_loop-plus (suc n) m = omega (
  arith,
  +ℤ_parts m.absusteps (pos 1),
  move_loop-plus n (record m { step_pin = not m.step_pin; absusteps = m.absusteps +ℤ pos 1 }),
)

move_loop-minus :
    (n : ℕ) (m : Motor)
    → let p = (move_loop n (negsuc 0) m).absusteps in
      pos_part p + neg_part m.absusteps + n ≡ neg_part p + pos_part m.absusteps
unfolding move_loop
move_loop-minus zero m = omega arith
move_loop-minus (suc n) m = omega (
  arith,
  +ℤ_parts m.absusteps (negsuc 0),
  move_loop-minus n (record m { step_pin = not m.step_pin; absusteps = m.absusteps +ℤ negsuc 0 }),
)

move_loop-pins :
    (n : ℕ) (dir : ℤ) (m : Motor)
    → ((move_loop n dir m).step_pin ≡ toggled n m.step_pin)
      × ((move_loop n dir m).dir_pin ≡ m.dir_pin)
unfolding move_loop
move_loop-pins zero dir m = (refl, refl)
move_loop-pins (suc n) dir m =
    move_loop-pins n dir (record m { step_pin = not m.step_pin; absusteps = m.absusteps +ℤ dir })

-- The number of microsteps of a move, and the level of DIR for it.
abbrev pub count_of : ℤ → ℕ
count_of (pos n) = n
count_of (negsuc n) = suc n

abbrev pub level_of : ℤ → Bool → Bool
level_of (pos zero) b = b
level_of (pos (suc n)) b = true
level_of (negsuc n) b = false

-- A move by a number of microsteps changes the counter by that number and toggles STEP as often; the
-- level of DIR is the number's sign, and a move by 0 leaves it.
pub move_motor_lem :
    (k : ℤ) (m : Motor)
    → let m' = move_motor k m in
      (m'.absusteps ≡ m.absusteps +ℤ k)
      × (m'.step_pin ≡ toggled (count_of k) m.step_pin)
      × (m'.dir_pin ≡ level_of k m.dir_pin)
unfolding move_motor
move_motor_lem (pos zero) m =
    (eq_of_parts _ _ (omega (arith, +ℤ_parts m.absusteps (pos 0))), refl, refl)
move_motor_lem (pos (suc n)) m =
    let m0 : Motor = record m { dir_pin = true } in
    let pins = move_loop-pins (suc n) (pos 1) m0 in
    (
      eq_of_parts _ _
          (omega (arith, +ℤ_parts m.absusteps (pos (suc n)), move_loop-plus (suc n) m0)),
      pins.0,
      pins.1,
    )
move_motor_lem (negsuc n) m =
    let m0 : Motor = record m { dir_pin = false } in
    let pins = move_loop-pins (suc n) (negsuc 0) m0 in
    (
      eq_of_parts _ _ (omega (arith, +ℤ_parts m.absusteps (negsuc n), move_loop-minus (suc n) m0)),
      pins.0,
      pins.1,
    )

zero_loop-catch :
    (n i : ℕ) (esw : List Bool) (m : Motor)
    → i < n
    → zero_loop n (replicate i false ++ (true ∷ esw)) m
      ≡ (true, record m { step_pin = toggled (suc i) m.step_pin; absusteps = pos 0 })
unfolding zero_loop
zero_loop-catch zero i esw m h = absurd (omega arith)
zero_loop-catch (suc n) zero esw m h = refl
zero_loop-catch (suc n) (suc i) esw m h =
    zero_loop-catch n i esw (record m { step_pin = not m.step_pin }) (omega arith)

zero_loop-miss :
    (n i : ℕ) (esw : List Bool) (m : Motor)
    → n ≤ i
    → zero_loop n (replicate i false ++ esw) m
      ≡ (false, record m { step_pin = toggled n m.step_pin })
unfolding zero_loop
zero_loop-miss zero i esw m h = refl
zero_loop-miss (suc n) zero esw m h = absurd (omega arith)
zero_loop-miss (suc n) (suc i) esw m h =
    zero_loop-miss n i esw (record m { step_pin = not m.step_pin }) (omega arith)

-- On the way to the end switch the motor moves backwards for 28160 microsteps at most. A switch that
-- gets active with a microstep before is caught there: no microstep more is made and the counter is
-- set to 0. A switch that is not active before the way's end is not caught, and the counter stays.
pub gotozero_lem :
    (i : ℕ) (esw : List Bool) (m : Motor)
    → (i < zero_usteps
        → gotozero (replicate i false ++ (true ∷ esw)) m ≡ (
          true,
          record { dir_pin = false; step_pin = toggled (suc i) m.step_pin; absusteps = pos 0 },
        ))
      × (zero_usteps ≤ i
          → gotozero (replicate i false ++ esw) m
            ≡ (false, record m { dir_pin = false; step_pin = toggled zero_usteps m.step_pin }))
unfolding gotozero
gotozero_lem i esw m = (
  zero_loop-catch zero_usteps i esw (record m { dir_pin = false }),
  zero_loop-miss zero_usteps i esw (record m { dir_pin = false }),
)
