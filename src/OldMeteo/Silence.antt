-- ===== src/OldMeteo/Silence.antt =====
-- BTA_modbusmeteo/olddaemon/bta_meteo_can.c: converters that send nothing.
use bta_utils.Prelude.{
  ℕ, ◌+◌, ◌<◌, ◌≤◌, ◌≡◌, ◌⊎◌, refl, sym, ap, false_ne, ◌∙◌, Bool, true, false, ◌&&◌, ◌||◌, List, [],
  ◌∷◌, ◌++◌, ltb, ◌==◌, if◌then◌else◌, arith, Bool-cases, inl, inr,
}
use bta_utils.OldMeteo.{
  Degrees, BusAct, CanWeather, take_frames, BusPass, start_part, BusEnd, stays, exits, stop_part,
  ask_part, frames_part, behind_frames, bus_pass, next_bus, bus_loop,
}
use bta_utils.OldMeteo.Shown.{state_at}

-- A pass with the controllers on, in which no frame and no signal comes.
pub record IsSilent (p : BusPass) : Type 0 where
  pub pep_a : (p.pep_a_on == 0) ≡ false
  pub pep_r : (p.pep_r_on == 0) ≡ false
  pub no_stop : p.stop_prog ≡ false
  pub no_frames : p.frames ≡ []
  pub no_stop_behind : p.stop_behind ≡ false

abbrev pub AllSilent : List BusPass → Type 0
AllSilent [] = Unit
AllSilent (p ∷ ps) = IsSilent p × AllSilent ps

-- The passes are not later than a time.
abbrev pub AllUntil : ℕ → List BusPass → Type 0
AllUntil t [] = Unit
AllUntil t (p ∷ ps) = (p.tcurr ≤ t) × AllUntil t ps

module _ (degrees : Degrees) where
  abbrev quiet : BusPass → CanWeather degrees → CanWeather degrees
  quiet p s = state_at degrees (stop_part degrees p (start_part degrees p s).0).0

  stop_stays :
      (b c : Bool) (x y z : CanWeather degrees) (k l m : List BusAct)
      → b ≡ false
      → let o : BusEnd degrees × List BusAct =
          if b then (exits x, k) else (if c then (stays y, l) else (stays z, m)) in
        o.0 ≡ stays (state_at degrees o.0)
  stop_stays true c x y z k l m h = absurd (false_ne (sym h))
  stop_stays false true x y z k l m h = refl
  stop_stays false false x y z k l m h = refl

  stop_part_stays :
      (p : BusPass) (s : CanWeather degrees)
      → p.stop_prog ≡ false
      → (stop_part degrees p s).0 ≡ stays (state_at degrees (stop_part degrees p s).0)
  unfolding stop_part
  stop_part_stays p s h =
      stop_stays p.stop_prog (s.start && ltb (s.tok + 5000) p.tcurr) _ _ _ _ _ _ h

  controllers_on :
      (a r : Bool) (x y : BusEnd degrees × List BusAct)
      → a ≡ false
      → r ≡ false
      → (if a || r then x else y) ≡ y
  controllers_on true r x y h h' = absurd (false_ne (sym h))
  controllers_on false true x y h h' = absurd (false_ne (sym h'))
  controllers_on false false x y h h' = refl

  ask_part_stays :
      (p : BusPass) (s : CanWeather degrees)
      → IsSilent p
      → (ask_part degrees p s).0 ≡ stays (quiet p s)
  unfolding ask_part
  ask_part_stays p s silent =
      ap (λ (o : BusEnd degrees × List BusAct). o.0)
        (controllers_on (p.pep_a_on == 0) (p.pep_r_on == 0) _ _ silent.pep_a silent.pep_r)
      ∙ stop_part_stays p (start_part degrees p s).0 silent.no_stop

  no_frames_part :
      (p : BusPass) (s : CanWeather degrees)
      → IsSilent p
      → (frames_part degrees p (stays s)).0 ≡ stays s
  unfolding take_frames
  no_frames_part p s silent =
      ap (λ fs. behind_frames degrees p.stop_behind (take_frames degrees fs s).0) silent.no_frames
      ∙ ap (λ b. behind_frames degrees b s) silent.no_stop_behind

  quiet_pass :
      (p : BusPass) (s : CanWeather degrees)
      → IsSilent p
      → (bus_pass degrees p s).0 ≡ stays (quiet p s)
  unfolding bus_pass
  quiet_pass p s silent =
      ap (λ e. (frames_part degrees p e).0) (ask_part_stays p s silent)
      ∙ no_frames_part p (quiet p s) silent

  -- The flag is cleared, or it is due to be: the start command went out by a time.
  abbrev Asked : ℕ → CanWeather degrees → Type 0
  Asked t s = (s.sensor_t2 ≡ false) ⊎ ((s.start ≡ true) × (s.tok ≤ t))

  abbrev Asking : ℕ → ℕ → CanWeather degrees → Type 0
  Asking t0 t s = Asked t s ⊎ ((s.start ≡ false) × (s.tok ≤ t0))

  module _ (p : BusPass) (s : CanWeather degrees) (silent : p.stop_prog ≡ false) where
    quiet-Asking : (t0 t : ℕ) → p.tcurr ≤ t → Asking t0 t s → Asking t0 t (quiet p s)
    unfolding start_part stop_part
    quiet-Asking t0 t h asking = ground arith

    quiet-Asked : (t0 : ℕ) → t0 + 15000 < p.tcurr → Asking t0 p.tcurr s → Asked p.tcurr (quiet p s)
    unfolding start_part stop_part
    quiet-Asked t0 h asking = ground arith

    quiet-Asked_later : (t : ℕ) → Asked t s → Asked t (quiet p s)
    unfolding start_part stop_part
    quiet-Asked_later t asked = ground arith

    quiet_clears : (t : ℕ) → t + 5000 < p.tcurr → Asked t s → (quiet p s).sensor_t2 ≡ false
    unfolding start_part stop_part
    quiet_clears t h asked = ground arith

    quiet_cleared : s.sensor_t2 ≡ false → (quiet p s).sensor_t2 ≡ false
    unfolding start_part stop_part
    quiet_cleared h = ground arith

  -- The state behind silent passes.
  abbrev quiet_run : List BusPass → CanWeather degrees → CanWeather degrees
  quiet_run [] s = s
  quiet_run (p ∷ ps) s = quiet_run ps (quiet p s)

  quiet_run-append :
      (a b : List BusPass) (s : CanWeather degrees)
      → quiet_run (a ++ b) s ≡ quiet_run b (quiet_run a s)
  quiet_run-append [] b s = refl
  quiet_run-append (p ∷ a) b s = quiet_run-append a b (quiet p s)

  next_bus_stays :
      (rest : CanWeather degrees → BusEnd degrees × List BusAct) (o : BusEnd degrees × List BusAct)
      (s : CanWeather degrees)
      → o.0 ≡ stays s
      → (next_bus degrees rest o).0 ≡ (rest s).0
  next_bus_stays rest (e, acts) s h = rw h refl

  bus_loop_quiet :
      (ps : List BusPass) (s : CanWeather degrees)
      → AllSilent ps
      → (bus_loop degrees ps s).0 ≡ stays (quiet_run ps s)
  unfolding bus_loop
  bus_loop_quiet [] s silent = refl
  bus_loop_quiet (p ∷ ps) s (silent, later) =
      next_bus_stays (bus_loop degrees ps) (bus_pass degrees p s) (quiet p s)
        (quiet_pass p s silent)
      ∙ bus_loop_quiet ps (quiet p s) later

  quiet_run-Asking :
      (ps : List BusPass) (s : CanWeather degrees) (t0 t : ℕ)
      → AllSilent ps
      → AllUntil t ps
      → Asking t0 t s
      → Asking t0 t (quiet_run ps s)
  quiet_run-Asking [] s t0 t silent until asking = asking
  quiet_run-Asking (p ∷ ps) s t0 t (silent, later) (h, until) asking =
      quiet_run-Asking ps (quiet p s) t0 t later until
        (quiet-Asking p s silent.no_stop t0 t h asking)

  quiet_run-Asked :
      (ps : List BusPass) (s : CanWeather degrees) (t : ℕ)
      → AllSilent ps
      → Asked t s
      → Asked t (quiet_run ps s)
  quiet_run-Asked [] s t silent asked = asked
  quiet_run-Asked (p ∷ ps) s t (silent, later) asked =
      quiet_run-Asked ps (quiet p s) t later (quiet-Asked_later p s silent.no_stop t asked)

  quiet_run_cleared :
      (ps : List BusPass) (s : CanWeather degrees)
      → AllSilent ps
      → s.sensor_t2 ≡ false
      → (quiet_run ps s).sensor_t2 ≡ false
  quiet_run_cleared [] s silent h = h
  quiet_run_cleared (p ∷ ps) s (silent, later) h =
      quiet_run_cleared ps (quiet p s) later (quiet_cleared p s silent.no_stop h)

  AllSilent-append : (a b : List BusPass) → AllSilent a → AllSilent b → AllSilent (a ++ b)
  AllSilent-append [] b ha hb = hb
  AllSilent-append (p ∷ a) b (h, ha) hb = (h, AllSilent-append a b ha hb)

  -- Passes with the controllers on in which neither frames nor signals come: once a pass is more than
  -- 15 seconds behind `tok` and one behind it is more than 5 seconds later, the program still runs,
  -- and T2 is not flagged as the sensor's, whether the converters had been started before or not.
  -- The passes before the first of the two are not later than it.
  pub bus_loop-silence :
      (a b c : List BusPass) (p q : BusPass) (s : CanWeather degrees)
      → AllSilent a
      → AllSilent b
      → AllSilent c
      → IsSilent p
      → IsSilent q
      → AllUntil p.tcurr a
      → s.tok + 15000 < p.tcurr
      → p.tcurr + 5000 < q.tcurr
      → (s' : CanWeather degrees) × ((bus_loop degrees (a ++ (p ∷ b ++ (q ∷ c))) s).0 ≡ stays s')
        × (s'.sensor_t2 ≡ false)
  bus_loop-silence a b c p q s ha hb hc hp hq until late later =
      let s1 = quiet_run a s in
      let s2 = quiet p s1 in
      let s3 = quiet_run b s2 in
      let first = quiet-Asked p s1 hp.no_stop s.tok late (
        quiet_run-Asking a s s.tok p.tcurr ha until (elim (Bool-cases s.start) [
          | inl on ↦ inl (inr (on, omega arith))
          | inr off ↦ inr (off, omega arith)
        ])) in
      let then_clears =
        quiet_clears q s3 hq.no_stop p.tcurr later (quiet_run-Asked b s2 p.tcurr hb first) in
      let all =
        AllSilent-append a (p ∷ b ++ (q ∷ c)) ha (hp, AllSilent-append b (q ∷ c) hb (hq, hc)) in
      (
        quiet_run c (quiet q s3),
        bus_loop_quiet (a ++ (p ∷ b ++ (q ∷ c))) s all
            ∙ ap stays (quiet_run-append a (p ∷ b ++ (q ∷ c)) s ∙ quiet_run-append b (q ∷ c) s2),
        quiet_run_cleared c (quiet q s3) hc then_clears,
      )
