-- ===== src/OldMeteo/Messages.antt =====
-- BTA_modbusmeteo/olddaemon/bta_meteo_can.c: the messages about precipitation.
use bta_utils.Prelude.{
  if_either, ℕ, ◌+◌, ◌<◌, ◌≡◌, refl, Bool, not, ◌&&◌, ◌||◌, List, [], ◌∷◌, ◌++◌, append_assoc,
  append-nil, ltb, ◌==◌, ◌/◌, ◌%◌, get_or, arith, Bool-cases, inl, inr,
}
use bta_utils.OldMeteo.{
  Degrees, BusAct, bus_frame, rain_warn, rain_fault, BusFrame, Rain, rain_twice, rain_first,
  rain_code, CanWeather, adc_code, new_temp, take_frame, take_frames, start_adc, stop_adc, BusPass,
  start_part, BusEnd, stays, exits, stop_part, off_part, ask_part, frames_part, bus_pass, next_bus,
  bus_loop,
}

-- The times of the messages grow by more than half a minute, from a time on.
abbrev pub Spaced : ℕ → List BusAct → Type 0
Spaced last [] = Unit
Spaced last (bus_frame id data' ∷ acts) = Spaced last acts
Spaced last (rain_warn t ∷ acts) = (last + 30000 < t) × Spaced t acts
Spaced last (rain_fault t ∷ acts) = (last + 30000 < t) × Spaced t acts

-- Acts that leave a later time of the last message.
abbrev Adds : ℕ → ℕ → List BusAct → Type 0
Adds last last' acts = (later : List BusAct) → Spaced last' later → Spaced last (acts ++ later)

Adds-trans : (a b c : ℕ) (p q : List BusAct) → Adds a b p → Adds b c q → Adds a c (p ++ q)
Adds-trans a b c p q h h' later spaced = rw append_assoc (h (q ++ later) (h' later spaced))

rain_twice-Adds :
    (m_time : ℕ) (observing : Bool) (r : Rain)
    → Adds r.last_msg_time
        (rain_twice m_time observing r).0.last_msg_time
        (rain_twice m_time observing r).1
unfolding rain_twice
rain_twice-Adds m_time observing r =
    let due = ltb (r.precip_time + 60000) m_time in
    elim (Bool-cases (observing && ltb (r.last_msg_time + 30000) m_time)) [
      | inl tells ↦ rw tells (
          if_either (λ (o : Rain × List BusAct). Adds r.last_msg_time (o.0).last_msg_time o.1) due
            (λ later spaced. (ground arith, spaced)) (λ later spaced. spaced))
      | inr silent ↦ rw silent (
          if_either (λ (o : Rain × List BusAct). Adds r.last_msg_time (o.0).last_msg_time o.1) due
            (λ later spaced. spaced) (λ later spaced. spaced))
    ]

rain_first-Adds :
    (m_time : ℕ) (r : Rain)
    → Adds r.last_msg_time (rain_first m_time r).0.last_msg_time (rain_first m_time r).1
unfolding rain_first
rain_first-Adds m_time r = elim (Bool-cases (ltb (r.last_msg_time + 600000) m_time)) [
  | inl due ↦ rw due (λ later spaced. (ground arith, spaced))
  | inr early ↦ rw early (λ later spaced. spaced)
]

rain_code-Adds :
    (rain : Bool) (m_time : ℕ) (observing : Bool) (r : Rain)
    → Adds r.last_msg_time
        (rain_code rain m_time observing r).0.last_msg_time
        (rain_code rain m_time observing r).1
unfolding rain_code
rain_code-Adds rain m_time observing r =
    if_either (λ (o : Rain × List BusAct). Adds r.last_msg_time (o.0).last_msg_time o.1) rain
      (if_either (λ (o : Rain × List BusAct). Adds r.last_msg_time (o.0).last_msg_time o.1) r.o_rain
        (rain_twice-Adds m_time observing r) (rain_first-Adds m_time r))
      (λ later spaced. spaced)

module _ (degrees : Degrees) where
  abbrev last_of : CanWeather degrees → ℕ
  last_of s = (s.rain).last_msg_time

  new_temp-rain :
      (t : degrees.Degree) (s : CanWeather degrees) → (new_temp degrees t s).rain ≡ s.rain
  unfolding new_temp
  new_temp-rain t s = refl

  adc_code-rain : (f : BusFrame) (s : CanWeather degrees) → (adc_code degrees f s).rain ≡ s.rain
  unfolding adc_code new_temp
  adc_code-rain f s =
      if_either (λ (s' : CanWeather degrees). s'.rain ≡ s.rain) (f.dlen == 3)
        (if_either (λ (s' : CanWeather degrees). s'.rain ≡ s.rain) (f.idr % 8 == 1) refl refl) refl

  take_frame-Adds :
      (f : BusFrame) (s : CanWeather degrees)
      → Adds (last_of s) (last_of (take_frame degrees f s).0) (take_frame degrees f s).1
  unfolding take_frame
  take_frame-Adds f s =
      if_either (λ (o : CanWeather degrees × List BusAct). Adds (last_of s) (last_of o.0) o.1)
        (f.idr / 8 % 512 == 68) (rw (adc_code-rain f s) (λ later spaced. spaced))
        (if_either (λ (o : CanWeather degrees × List BusAct). Adds (last_of s) (last_of o.0) o.1)
          (f.idr == 33)
          (rain_code-Adds (get_or f.rdata 2 0 / 8 % 2 == 1) f.m_time f.observing s.rain)
          (λ later spaced. spaced))

  take_frames-Adds :
      (fs : List BusFrame) (s : CanWeather degrees)
      → Adds (last_of s) (last_of (take_frames degrees fs s).0) (take_frames degrees fs s).1
  unfolding take_frames
  take_frames-Adds [] s = λ later spaced. spaced
  take_frames-Adds (f ∷ fs) s =
      Adds-trans _ _ _ (take_frame degrees f s).1 _ (take_frame-Adds f s)
        (take_frames-Adds fs (take_frame degrees f s).0)

  -- The same of a part of a pass, for the state at its end.
  abbrev end_last : BusEnd degrees → ℕ
  end_last (stays s) = last_of s
  end_last (exits s) = last_of s

  abbrev PartAdds : CanWeather degrees → BusEnd degrees × List BusAct → Type 0
  PartAdds s o = Adds (last_of s) (end_last o.0) o.1

  start_part-Adds :
      (p : BusPass) (s : CanWeather degrees)
      → Adds (last_of s) (last_of (start_part degrees p s).0) (start_part degrees p s).1
  unfolding start_part start_adc
  start_part-Adds p s =
      if_either (λ (o : CanWeather degrees × List BusAct). Adds (last_of s) (last_of o.0) o.1)
        (not p.stop_prog && (not s.start && ltb (s.tok + 15000) p.tcurr)) (λ later spaced. spaced)
        (λ later spaced. spaced)

  stop_part-Adds : (p : BusPass) (s : CanWeather degrees) → PartAdds s (stop_part degrees p s)
  unfolding stop_part stop_adc
  stop_part-Adds p s =
      if_either (PartAdds s) p.stop_prog (λ later spaced. spaced)
        (if_either (PartAdds s) (s.start && ltb (s.tok + 5000) p.tcurr) (λ later spaced. spaced)
          (λ later spaced. spaced))

  off_part-Adds : (p : BusPass) (s : CanWeather degrees) → PartAdds s (off_part degrees p s, [])
  unfolding off_part
  off_part-Adds p s =
      if_either (λ (e : BusEnd degrees). PartAdds s (e, [])) p.stop_prog (λ later spaced. spaced)
        (λ later spaced. spaced)

  ask_part-Adds : (p : BusPass) (s : CanWeather degrees) → PartAdds s (ask_part degrees p s)
  unfolding ask_part
  ask_part-Adds p s =
      if_either (PartAdds s) (p.pep_a_on == 0 || p.pep_r_on == 0) (off_part-Adds p s) (
        Adds-trans _ _ _ (start_part degrees p s).1 _ (start_part-Adds p s)
          (stop_part-Adds p (start_part degrees p s).0))

  frames_part-Adds :
      (p : BusPass) (e : BusEnd degrees)
      → Adds (end_last e) (end_last (frames_part degrees p e).0) (frames_part degrees p e).1
  frames_part-Adds p (exits s) = λ later spaced. spaced
  frames_part-Adds p (stays s) = elim (Bool-cases p.stop_behind) [
    | inl stop ↦ rw stop (take_frames-Adds p.frames s)
    | inr on ↦ rw on (take_frames-Adds p.frames s)
  ]

  next_bus-Spaced :
      (rest : CanWeather degrees → BusEnd degrees × List BusAct)
      → ((s : CanWeather degrees) → Spaced (last_of s) (rest s).1)
      → (o : BusEnd degrees × List BusAct) (s : CanWeather degrees) → PartAdds s o
      → Spaced (last_of s) (next_bus degrees rest o).1
  next_bus-Spaced rest all (exits s', acts) s h = rw append-nil at (h [] tt)
  next_bus-Spaced rest all (stays s', acts) s h = h (rest s').1 (all s')

  -- Whatever frames come and at whatever times of the day, each message about precipitation has a
  -- time that exceeds the time of the message before by more than half a minute, and the first so
  -- exceeds `last_msg_time`.
  pub bus_loop-Spaced :
      (ps : List BusPass) (s : CanWeather degrees)
      → Spaced (s.rain).last_msg_time (bus_loop degrees ps s).1
  unfolding bus_loop bus_pass
  bus_loop-Spaced [] s = tt
  bus_loop-Spaced (p ∷ ps) s =
      next_bus-Spaced (bus_loop degrees ps) (bus_loop-Spaced ps) (bus_pass degrees p s) s (
        Adds-trans _ _ _ (ask_part degrees p s).1 _ (ask_part-Adds p s)
          (frames_part-Adds p (ask_part degrees p s).0))
