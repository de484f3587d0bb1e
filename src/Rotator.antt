-- ===== src/Rotator.antt =====
-- p1rotator/stepper.c: the stepper motor of the P1 corrector. What the pins read and the time are
-- arguments. The counters of microsteps, which an int keeps for 2^31 microsteps, are integers here.
mod Moves
pub mod Follow
mod Tests
use bta_utils.Prelude.{
  ℕ, zero, suc, ◌+◌, Bool, true, false, not, ◌&&◌, ◌||◌, List, [], ◌∷◌, ltb, if◌then◌else◌, ℤ, pos,
  negsuc, eqb_ℤ, ◌+ℤ◌, ltb_ℤ, dist_ℤ,
}

-- The levels of the pins DIR and STEP, and `absusteps`.
pub record Motor : Type 0 where
  pub dir_pin : Bool
  pub step_pin : Bool
  pub absusteps : ℤ

-- The rounds of `move_motor` in a direction.
unfoldable pub move_loop : ℕ → ℤ → Motor → Motor
move_loop zero dir m = m
move_loop (suc n) dir m =
    move_loop n dir (record m { step_pin = not m.step_pin; absusteps = m.absusteps +ℤ dir })

-- `move_motor`; DIR_POSITIVE is the level 1.
unfoldable pub move_motor : ℤ → Motor → Motor
move_motor (pos zero) m = m
move_motor (pos (suc n)) m = move_loop (suc n) (pos 1) (record m { dir_pin = true })
move_motor (negsuc n) m = move_loop (suc n) (negsuc 0) (record m { dir_pin = false })

-- The rounds of `gotozero`, for what the end switch is after each: whether it was caught.
unfoldable pub zero_loop : ℕ → List Bool → Motor → Bool × Motor
zero_loop zero esw m = (false, m)
zero_loop (suc n) [] m = zero_loop n [] (record m { step_pin = not m.step_pin })
zero_loop (suc n) (true ∷ esw) m = (true, record m { step_pin = not m.step_pin; absusteps = pos 0 })
zero_loop (suc n) (false ∷ esw) m = zero_loop n esw (record m { step_pin = not m.step_pin })

-- `ONETURN_USTEPS * 1.1`, as an int.
abbrev pub zero_usteps : ℕ
zero_usteps = 28160

-- `gotozero` (which returns 0 where the switch is caught); behind the list the switch is not active.
unfoldable pub gotozero : List Bool → Motor → Bool × Motor
gotozero esw m = zero_loop zero_usteps esw (record m { dir_pin = false })

-- The times of `stepper_process` and the operations of the source on them.
pub record StepClock : Type 1 where
  pub Time : Type 0
  pub Period : Type 0
  -- curtime - T_last > 1.
  pub is_old : Time → Time → Bool
  -- (curtime - T_last)/fabs(target_usteps - current_usteps)/2. - USTEP_DELAY
  pub period_of : Time → Time → ℕ → Period
  -- target_pa_period < USTEP_DELAY
  pub is_short : Period → Bool
  -- USTEP_DELAY
  pub ustep_delay : Period
  -- curtime - laststeptime > target_pa_period
  pub is_due : Time → Time → Period → Bool

-- `dir` of `stepper_process`: 0, 1 and -1.
pub data Direction : Type 0 where
  still plus minus : Direction

abbrev pub is_plus : Direction → Bool
is_plus plus = true
is_plus _ = false

abbrev pub is_minus : Direction → Bool
is_minus minus = true
is_minus _ = false

module _ (clock : StepClock) where
  open clock use {Time, Period, is_old, period_of, is_short, ustep_delay, is_due}

  -- The variables of `stepper_process`, and the pins.
  pub record Follower : Type 0 where
    pub current_usteps : ℤ
    pub dir : Direction
    pub dir_pin : Bool
    pub step_pin : Bool
    pub target_pa_period : Period
    pub t_last : Time
    pub laststeptime : Time

  -- What a round reads: whether the telescope tracks, the target in microsteps, and the time.
  pub record Reading : Type 0 where
    pub is_tracking : Bool
    pub target_usteps : ℤ
    pub curtime : Time

  -- The speed, where it is computed anew.
  unfoldable pub with_speed : Reading → Follower → Follower
  with_speed r s =
      if is_old r.curtime s.t_last
      then (let period = period_of r.curtime s.t_last (dist_ℤ r.target_usteps s.current_usteps) in
          record s {
            target_pa_period = if is_short period then ustep_delay else period;
            t_last = r.curtime;
          })
      else s

  -- The direction, and the pin where it changes.
  unfoldable pub with_direction : Reading → Follower → Follower
  with_direction r s =
      if ltb_ℤ s.current_usteps r.target_usteps
      then (if is_plus s.dir then s else record s { dir = plus; dir_pin = true })
      else (if is_minus s.dir then s else record s { dir = minus; dir_pin = false })

  -- A microstep is due in a round, for the speed that the round has.
  unfoldable pub has_step : Reading → Follower → Bool
  has_step r s = is_due r.curtime s.laststeptime (with_speed r s).target_pa_period

  abbrev pub step_of : Direction → ℤ
  step_of plus = pos 1
  step_of minus = negsuc 0
  step_of still = pos 0

  -- A round of the loop of `stepper_process`.
  unfoldable pub stepper_round : Reading → Follower → Follower
  stepper_round r s =
      if not r.is_tracking || eqb_ℤ r.target_usteps s.current_usteps
      then s
      else (let s' = with_direction r (with_speed r s) in
          if has_step r s
          then record s' {
            laststeptime = r.curtime;
            step_pin = not s'.step_pin;
            current_usteps = s'.current_usteps +ℤ step_of s'.dir;
          }
          else s')

  unfoldable pub stepper_process : List Reading → Follower → Follower
  stepper_process [] s = s
  stepper_process (r ∷ rs) s = stepper_process rs (stepper_round r s)
