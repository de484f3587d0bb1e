-- ===== src/Rotator/Follow.antt =====
-- p1rotator/stepper.c: the motor follows the position angle.
use bta_utils.Prelude.{
  ℕ, ◌+◌, ◌-◌, ◌≤◌, ◌≡◌, refl, Bool, true, false, not, ◌||◌, ◌&&◌, List, [], ◌∷◌, ◌⊎◌, inl, inr, ℤ,
  pos, negsuc, ◌+ℤ◌, arith, ap, ◌∙◌, ltb_ℤ, dist_ℤ, eqb_ℤ, if◌then◌else◌, Bool-cases,
}
use bta_utils.Rotator.{
  StepClock, Follower, Reading, with_speed, with_direction, has_step, step_of, stepper_round,
  stepper_process,
}

module _ (clock : StepClock) where
  with_speed-current :
      (r : Reading clock) (s : Follower clock)
      → (with_speed clock r s).current_usteps ≡ s.current_usteps
  unfolding with_speed
  with_speed-current r s = ground arith

  with_direction-current :
      (r : Reading clock) (s : Follower clock)
      → (with_direction clock r s).current_usteps ≡ s.current_usteps
  unfolding with_direction
  with_direction-current r s = ground arith

  with_direction-step :
      (r : Reading clock) (s : Follower clock)
      → step_of clock (with_direction clock r s).dir
        ≡ (if ltb_ℤ s.current_usteps r.target_usteps then pos 1 else negsuc 0)
  unfolding with_direction
  with_direction-step r s = ground arith

  -- A step from one integer to another brings it nearer by one.
  toward :
      (a b : ℤ)
      → eqb_ℤ b a ≡ false
      → dist_ℤ b (a +ℤ (if ltb_ℤ a b then pos 1 else negsuc 0)) + 1 ≡ dist_ℤ b a
  unfolding ◌+ℤ◌
  toward a b h = ground arith

  stepper_round-still :
      (r : Reading clock) (s : Follower clock)
      → (not r.is_tracking || eqb_ℤ r.target_usteps s.current_usteps) ≡ true
      → stepper_round clock r s ≡ s
  unfolding stepper_round
  stepper_round-still r s h = rw h refl

  stepper_round-stays :
      (r : Reading clock) (s : Follower clock)
      → (not r.is_tracking || eqb_ℤ r.target_usteps s.current_usteps) ≡ false
      → has_step clock r s ≡ false
      → stepper_round clock r s ≡ with_direction clock r (with_speed clock r s)
  unfolding stepper_round
  stepper_round-stays r s h stay = rw (h, stay) refl

  stepper_round-steps :
      (r : Reading clock) (s : Follower clock)
      → (not r.is_tracking || eqb_ℤ r.target_usteps s.current_usteps) ≡ false
      → has_step clock r s ≡ true
      → let s' = with_direction clock r (with_speed clock r s) in
        stepper_round clock r s ≡ record s' {
          laststeptime = r.curtime;
          step_pin = not s'.step_pin;
          current_usteps = s'.current_usteps +ℤ step_of clock s'.dir;
        }
  unfolding stepper_round
  stepper_round-steps r s h due = rw (h, due) refl

  dist-at_target : (a b : ℤ) → eqb_ℤ b a ≡ true → dist_ℤ b a ≡ 0
  dist-at_target a b h = ground arith

  -- A microstep is due in a round in which the telescope tracks.
  abbrev pub is_due_round : Reading clock → Follower clock → Bool
  is_due_round r s = r.is_tracking && has_step clock r s

  abbrev pub as_ℕ : Bool → ℕ
  as_ℕ true = 1
  as_ℕ false = 0

  current-stays :
      (r : Reading clock) (s : Follower clock)
      → (with_direction clock r (with_speed clock r s)).current_usteps ≡ s.current_usteps
  current-stays r s = with_direction-current r (with_speed clock r s) ∙ with_speed-current r s

  current-steps :
      (r : Reading clock) (s : Follower clock)
      → let s' = with_direction clock r (with_speed clock r s) in
        s'.current_usteps +ℤ step_of clock s'.dir
        ≡ s.current_usteps +ℤ (if ltb_ℤ s.current_usteps r.target_usteps then pos 1 else negsuc 0)
  current-steps r s =
      rw (current-stays r s, with_direction-step r (with_speed clock r s), with_speed-current r s)
        refl

  still-due :
      (r : Reading clock) (s : Follower clock)
      → is_due_round r s ≡ false
      → as_ℕ (is_due_round r s) ≡ 0
  still-due r s h = rw h refl

  due-one :
      (r : Reading clock) (s : Follower clock)
      → is_due_round r s ≡ true
      → as_ℕ (is_due_round r s) ≡ 1
  due-one r s h = rw h refl

  and_of : (a b : Bool) → a ≡ true → b ≡ true → (a && b) ≡ true
  and_of a b ha hb = ground arith

  and_off : (a b : Bool) → (a ≡ false) ⊎ (b ≡ false) → (a && b) ≡ false
  and_off a b h = ground arith

  moves_on : (a b : Bool) → a ≡ true → b ≡ false → (not a || b) ≡ false
  moves_on a b ha hb = ground arith

  stays_on : (a b : Bool) → (a ≡ false) ⊎ (b ≡ true) → (not a || b) ≡ true
  stays_on a b h = ground arith

  -- The distance to the target, for a position that is known.
  dist_of :
      (r : Reading clock) (s : Follower clock) (x : ℤ)
      → (stepper_round clock r s).current_usteps ≡ x
      → dist_ℤ r.target_usteps (stepper_round clock r s).current_usteps ≡ dist_ℤ r.target_usteps x
  dist_of r s x h = rw h refl

  -- A due round brings the motor one microstep nearer to its target, if it is not there, and another
  -- round leaves the position.
  pub stepper_round-dist :
      (r : Reading clock) (s : Follower clock)
      → dist_ℤ r.target_usteps (stepper_round clock r s).current_usteps
        ≡ dist_ℤ r.target_usteps s.current_usteps - as_ℕ (is_due_round r s)
  stepper_round-dist r s =
      let at = eqb_ℤ r.target_usteps s.current_usteps in
      elim (Bool-cases r.is_tracking) [
        | inr off ↦
            let e =
              ap (λ x. x.current_usteps)
                (stepper_round-still r s (stays_on r.is_tracking at (inl off))) in
            let d = dist_of r s s.current_usteps e in
            let z = still-due r s (and_off r.is_tracking (has_step clock r s) (inl off)) in
            omega arith
        | inl on ↦ elim (Bool-cases at) [
          | inl there ↦
              let e =
                ap (λ x. x.current_usteps)
                  (stepper_round-still r s (stays_on r.is_tracking at (inr there))) in
              let d = dist_of r s s.current_usteps e in
              let z = dist-at_target s.current_usteps r.target_usteps there in omega arith
          | inr away ↦ elim (Bool-cases (has_step clock r s)) [
            | inl due ↦
                let e =
                  ap (λ x. x.current_usteps)
                    (stepper_round-steps r s (moves_on r.is_tracking at on away) due) in
                let d = dist_of r s _ (e ∙ current-steps r s) in
                let t = toward s.current_usteps r.target_usteps away in
                let o = due-one r s (and_of r.is_tracking (has_step clock r s) on due) in
                omega arith
            | inr early ↦
                let e =
                  ap (λ x. x.current_usteps)
                    (stepper_round-stays r s (moves_on r.is_tracking at on away) early) in
                let d = dist_of r s s.current_usteps (e ∙ current-stays r s) in
                let z = still-due r s (and_off r.is_tracking (has_step clock r s) (inr early)) in
                omega arith
          ]
        ]
      ]

  -- The rounds of a run that are due.
  unfoldable pub due_count : List (Reading clock) → Follower clock → ℕ
  due_count [] s = 0
  due_count (r ∷ rs) s = as_ℕ (is_due_round r s) + due_count rs (stepper_round clock r s)

  -- The target is one position in all the rounds.
  unfoldable pub AllAt : ℤ → List (Reading clock) → Type 0
  AllAt t [] = Unit
  AllAt t (r ∷ rs) = (r.target_usteps ≡ t) × AllAt t rs

  -- Each due round of a run takes one microstep off the distance.
  pub stepper_process-dist :
      (t : ℤ) (rs : List (Reading clock)) (s : Follower clock)
      → AllAt t rs
      → dist_ℤ t (stepper_process clock rs s).current_usteps
        ≡ dist_ℤ t s.current_usteps - due_count rs s
  unfolding stepper_process due_count AllAt
  stepper_process-dist t [] s all = omega arith
  stepper_process-dist t (r ∷ rs) s (at, all) =
      let rec = stepper_process-dist t rs (stepper_round clock r s) all in
      let one = stepper_round-dist r s in
      let before = ap (λ x. dist_ℤ x s.current_usteps) at in
      let behind = ap (λ x. dist_ℤ x (stepper_round clock r s).current_usteps) at in omega arith

  dist-zero : (a b : ℤ) → dist_ℤ b a ≡ 0 → a ≡ b
  dist-zero a b h = ground arith

  -- The motor reaches a target that stays where it is: when at least as many rounds of the run are
  -- due as there are microsteps between the motor and the target, the run ends with the motor at the
  -- target.
  pub stepper_process-reaches :
      (t : ℤ) (rs : List (Reading clock)) (s : Follower clock)
      → AllAt t rs
      → dist_ℤ t s.current_usteps ≤ due_count rs s
      → (stepper_process clock rs s).current_usteps ≡ t
  stepper_process-reaches t rs s all enough =
      let d = stepper_process-dist t rs s all in
      dist-zero (stepper_process clock rs s).current_usteps t (omega arith)
