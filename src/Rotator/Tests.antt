-- ===== src/Rotator/Tests.antt =====
-- Runs of the rotator's motor, and its theorems at concrete inputs.
use bta_utils.Prelude.{
  ℕ, ◌+◌, ◌≤◌, ◌≡◌, refl, true, false, List, [], ◌∷◌, ltb, ◌-◌, pos, negsuc, ◌+ℤ◌, arith, dist_ℤ,
}
use bta_utils.Rotator.{
  Motor, move_motor, move_loop, StepClock, still, Follower, Reading, stepper_process, stepper_round,
  with_speed, with_direction, has_step,
}
use bta_utils.Rotator.Follow.{AllAt, due_count, stepper_process-reaches}

abbrev motor : Motor
motor = record { dir_pin = true; step_pin = false; absusteps = pos 2 }

-- Times in whole units: a step at each unit.
abbrev ticks : StepClock
ticks = record {
  Time = ℕ;
  Period = ℕ;
  is_old = λ t u. ltb 1000 (t - u);
  period_of = λ t u d. t - u;
  is_short = λ p. ltb p 1;
  ustep_delay = 1;
  is_due = λ t u p. ltb (u + p) (t + 1);
}

abbrev start : Follower ticks
start = record {
  current_usteps = pos 1;
  dir = still;
  dir_pin = false;
  step_pin = false;
  target_pa_period = 1;
  t_last = 0;
  laststeptime = 0;
}

abbrev at_time : ℕ → Reading ticks
at_time t = record { is_tracking = true; target_usteps = negsuc 0; curtime = t }

abbrev readings : List (Reading ticks)
readings = at_time 1 ∷ at_time 1 ∷ at_time 2 ∷ at_time 3 ∷ []

at_one : AllAt ticks (negsuc 0) readings
unfolding AllAt
at_one = (refl, (refl, (refl, (refl, tt))))

enough_due : dist_ℤ (negsuc 0) start.current_usteps ≤ due_count ticks readings start
unfolding due_count stepper_round with_speed with_direction has_step ◌+ℤ◌
enough_due = omega arith

stepper_process-reaches_example : (stepper_process ticks readings start).current_usteps ≡ negsuc 0
stepper_process-reaches_example =
    stepper_process-reaches ticks (negsuc 0) readings start at_one enough_due

-- Five microsteps back.
moves_back :
    move_motor (negsuc 4) motor ≡ record { dir_pin = false; step_pin = true; absusteps = negsuc 2 }
unfolding move_motor move_loop ◌+ℤ◌
moves_back = refl
