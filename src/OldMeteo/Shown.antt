-- ===== src/OldMeteo/Shown.antt =====
-- BTA_modbusmeteo/olddaemon/bta_meteo_can.c: the temperature that the daemon shows.
use bta_utils.Prelude.{
  if_either, ◌+◌, ◌≡◌, refl, ◌∙◌, inl, inr, Bool, true, false, not, ◌&&◌, List, [], ◌∷◌, ◌/◌, ◌%◌,
  ◌*◌, ◌||◌, get_or, false_ne, ltb, ◌==◌, if◌then◌else◌, arith, Bool-cases,
}
use bta_utils.OldMeteo.{
  not_below, not_above, Degrees, BusFrame, CanWeather, new_temp, adc_code, take_frame, take_frames,
  BusPass, start_part, BusAct, BusEnd, stays, exits, stop_part, off_part, ask_part, frames_part,
  bus_pass, next_bus, bus_loop,
}
use bta_utils.OldMeteo.Range.{IsInRange, IsRounded, smoothed_range}

cleared : (c b : Bool) → (if c then false else b) ≡ true → b ≡ true
cleared true b h = absurd (false_ne h)
cleared false b h = h

module _ (degrees : Degrees) where
  open degrees use {Degree, temperature}

  -- The state: a temperature that is flagged as the sensor's is in the range and, but for one that
  -- was put in by hand, it is the one that others see.
  pub record IsShown (s : CanWeather degrees) : Type 0 where
    pub in_range_t2 : s.sensor_t2 ≡ true → IsInRange degrees s.t2
    pub seen : s.sensor_t2 ≡ true → s.input_t2 ≡ false → s.val_t2 ≡ s.t2

  -- What a part of the program leaves of a state.
  pub record Leaves (s s' : CanWeather degrees) : Type 0 where
    pub input_same : s'.input_t2 ≡ s.input_t2
    pub net_same : s'.net_t2 ≡ s.net_t2
    pub value_same : s.input_t2 ≡ true → s'.val_t2 ≡ s.val_t2
    pub shown : IsShown s → IsShown s'

  -- The state at an end.
  abbrev pub state_at : BusEnd degrees → CanWeather degrees
  state_at (stays s) = s
  state_at (exits s) = s

  module _ (rounded : IsRounded degrees) where
    new_temp-Leaves : (t : Degree) (s : CanWeather degrees) → Leaves s (new_temp degrees t s)
    unfolding new_temp
    new_temp-Leaves t s = elim (Bool-cases (not_below degrees t && not_above degrees t)) [
      | inl taken ↦ rw taken (record {
        input_same = refl;
        net_same = refl;
        value_same = λ by_hand. ground arith;
        shown = λ ok. record {
          in_range_t2 = λ _. smoothed_range degrees rounded s.sensor_t2 s.t2 t ok.in_range_t2 taken;
          seen = λ _ other. ground arith;
        };
      })
      | inr left ↦ rw left (record {
        input_same = refl;
        net_same = refl;
        value_same = λ by_hand. ground arith;
        shown = λ ok. record { in_range_t2 = λ h. ground arith; seen = λ h other. ground arith };
      })
    ]

    -- A part that leaves the four variables of T2 as they are, and one that clears the flag.
    kept-Leaves :
        (s s' : CanWeather degrees)
        → s'.input_t2 ≡ s.input_t2
        → s'.net_t2 ≡ s.net_t2
        → s'.val_t2 ≡ s.val_t2
        → s'.t2 ≡ s.t2
        → (s'.sensor_t2 ≡ true → s.sensor_t2 ≡ true)
        → Leaves s s'
    kept-Leaves s s' input net val t2 sensor = record {
      input_same = input;
      net_same = net;
      value_same = λ _. val;
      shown = λ ok. record {
        in_range_t2 = λ h. rw t2 (ok.in_range_t2 (sensor h));
        seen = λ h other. rw (val, t2) (ok.seen (sensor h) (rw input at other));
      };
    }

    same : (s : CanWeather degrees) → Leaves s s
    same s = kept-Leaves s s refl refl refl refl (λ h. h)

    Leaves-trans : {a b c : CanWeather degrees} → Leaves a b → Leaves b c → Leaves a c
    Leaves-trans p q = record {
      input_same = q.input_same ∙ p.input_same;
      net_same = q.net_same ∙ p.net_same;
      value_same = λ h. q.value_same (p.input_same ∙ h) ∙ p.value_same h;
      shown = λ ok. q.shown (p.shown ok);
    }

    take_frame-Leaves :
        (f : BusFrame) (s : CanWeather degrees) → Leaves s (take_frame degrees f s).0
    unfolding take_frame adc_code
    take_frame-Leaves f s =
        let code = get_or f.rdata 0 0 * 256 + get_or f.rdata 1 0 in
        let read =
          if_either (Leaves s) (f.idr % 8 == 1) (new_temp-Leaves (temperature code) s) (same s) in
        let timed = Leaves-trans read (kept-Leaves _ _ refl refl refl refl (λ h. h)) in
        if_either (λ (o : CanWeather degrees × List BusAct). Leaves s o.0) (f.idr / 8 % 512 == 68)
          (if_either (Leaves s) (f.dlen == 3) timed (same s))
          (if_either (λ (o : CanWeather degrees × List BusAct). Leaves s o.0) (f.idr == 33)
            (kept-Leaves _ _ refl refl refl refl (λ h. h)) (same s))

    take_frames-Leaves :
        (fs : List BusFrame) (s : CanWeather degrees) → Leaves s (take_frames degrees fs s).0
    unfolding take_frames
    take_frames-Leaves [] s = same s
    take_frames-Leaves (f ∷ fs) s =
        Leaves-trans (take_frame-Leaves f s) (take_frames-Leaves fs (take_frame degrees f s).0)

    start_part-Leaves : (p : BusPass) (s : CanWeather degrees) → Leaves s (start_part degrees p s).0
    unfolding start_part
    start_part-Leaves p s =
        if_either (λ (o : CanWeather degrees × List BusAct). Leaves s o.0)
          (not p.stop_prog && (not s.start && ltb (s.tok + 15000) p.tcurr))
          (kept-Leaves _ _ refl refl refl refl (λ h. h)) (same s)

    stop_part-Leaves :
        (p : BusPass) (s : CanWeather degrees) → Leaves s (state_at (stop_part degrees p s).0)
    unfolding stop_part
    stop_part-Leaves p s =
        if_either (λ (o : BusEnd degrees × List BusAct). Leaves s (state_at o.0)) p.stop_prog
          (kept-Leaves _ _ refl refl refl refl (λ h. absurd (false_ne h)))
          (if_either (λ (o : BusEnd degrees × List BusAct). Leaves s (state_at o.0))
            (s.start && ltb (s.tok + 5000) p.tcurr)
            (kept-Leaves _ _ refl refl refl refl (λ h. absurd (false_ne h))) (same s))

    off_part-Leaves :
        (p : BusPass) (s : CanWeather degrees) → Leaves s (state_at (off_part degrees p s))
    unfolding off_part
    off_part-Leaves p s =
        if_either (λ (e : BusEnd degrees). Leaves s (state_at e)) p.stop_prog (same s)
          (kept-Leaves _ _ refl refl refl refl
            (λ h. cleared (p.pep_r_on % 2 == 0 && not s.net_t2) _ h))

    ask_part-Leaves :
        (p : BusPass) (s : CanWeather degrees) → Leaves s (state_at (ask_part degrees p s).0)
    unfolding ask_part
    ask_part-Leaves p s =
        if_either (λ (o : BusEnd degrees × List BusAct). Leaves s (state_at o.0))
          (p.pep_a_on == 0 || p.pep_r_on == 0) (off_part-Leaves p s)
          (Leaves-trans (start_part-Leaves p s) (stop_part-Leaves p (start_part degrees p s).0))

    frames_part-Leaves :
        (p : BusPass) (e : BusEnd degrees)
        → Leaves (state_at e) (state_at (frames_part degrees p e).0)
    frames_part-Leaves p (exits s) = same s
    frames_part-Leaves p (stays s) = elim (Bool-cases p.stop_behind) [
      | inl stop ↦ rw stop (take_frames-Leaves p.frames s)
      | inr on ↦ rw on (take_frames-Leaves p.frames s)
    ]

    next_bus-Leaves :
        (rest : CanWeather degrees → BusEnd degrees × List BusAct)
        → ((s : CanWeather degrees) → Leaves s (state_at (rest s).0))
        → (o : BusEnd degrees × List BusAct) (s : CanWeather degrees) → Leaves s (state_at o.0)
        → Leaves s (state_at (next_bus degrees rest o).0)
    next_bus-Leaves rest all (exits s', acts) s h = h
    next_bus-Leaves rest all (stays s', acts) s h = Leaves-trans h (all s')

    -- In a rounded arithmetic: whatever the passes of the daemon meet, and wherever they end, the flags
    -- of T2 that the daemon does not own are as they were, and a value that was put in by hand is too.
    -- If it holds at first that a temperature flagged as the sensor's is from -20 to 30 degrees and is
    -- the value shown, unless that was put in by hand, then it holds in the end.
    pub bus_loop-Leaves :
        (ps : List BusPass) (s : CanWeather degrees) → Leaves s (state_at (bus_loop degrees ps s).0)
    unfolding bus_loop bus_pass
    bus_loop-Leaves [] s = same s
    bus_loop-Leaves (p ∷ ps) s =
        next_bus-Leaves (bus_loop degrees ps) (bus_loop-Leaves ps) (bus_pass degrees p s) s
          (Leaves-trans (ask_part-Leaves p s) (frames_part-Leaves p (ask_part degrees p s).0))
