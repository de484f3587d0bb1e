-- ===== src/OldMeteo.antt =====
-- BTA_modbusmeteo/olddaemon/bta_meteo_can.c: the daemon that asks the converters of the CAN bus for
-- the temperature under the dome and listens to the sensor of precipitation. Times are in
-- thousandths of a second. Of MeteoMode the three bits of T2 are kept, which are all that it uses.
pub mod Range
pub mod Shown
pub mod Silence
pub mod Messages
mod Tests
use bta_utils.Prelude.{
  ℕ, zero, suc, ◌+◌, ◌-◌, ◌*◌, ◌/◌, ◌%◌, Bool, true, false, not, ◌&&◌, ◌||◌, List, [], ◌∷◌, ◌++◌,
  Option, none, some, ℤ, pos, negsuc, get_or, ltb, ◌==◌, if◌then◌else◌,
}

-- The floating-point operations of the source on temperatures.
pub record Degrees : Type 1 where
  pub Degree : Type 0
  -- zeroT2 + (volt-zeroV)*scaleT, for the volts of a code
  pub temperature : ℕ → Degree
  -- a > b and a >= b
  pub gt : Degree → Degree → Bool
  pub ge : Degree → Degree → Bool
  pub plus : Degree → Degree → Degree
  pub minus : Degree → Degree → Degree
  pub times : Degree → Degree → Degree
  pub fabs : Degree → Degree
  -- The constants of the source, in thousandths.
  pub thousandths : ℤ → Degree

-- What the daemon gives away: a frame for the bus, and a message about precipitation.
pub data BusAct : Type 0 where
  bus_frame : ℕ → List ℕ → BusAct
  -- MesgWarn and MesgFault, with the time of the message
  rain_warn rain_fault : ℕ → BusAct

-- A frame received, with its time, the bytes of `rdata`, M_time and whether there are observations
-- when it is handled.
pub record BusFrame : Type 0 where
  pub rxtime : ℕ
  pub idr : ℕ
  pub dlen : ℕ
  pub rdata : List ℕ
  pub m_time : ℕ
  pub observing : Bool

-- The variables about precipitation.
pub record Rain : Type 0 where
  pub off_time : ℕ
  pub last_msg_time : ℕ
  pub o_rain : Bool
  pub precip_time : ℕ

-- The sensor is on after it was on before. `fabs` is around the comparisons, and so is nothing.
unfoldable pub rain_twice : ℕ → Bool → Rain → Rain × List BusAct
rain_twice m_time observing r =
    let tells = observing && ltb (r.last_msg_time + 30000) m_time in
    let away = (m_time - r.off_time) + (r.off_time - m_time) in
    if ltb (r.precip_time + 60000) m_time
    then (
      record r {
        last_msg_time = if tells then m_time else r.last_msg_time;
        precip_time = if ltb 3000 away then m_time else r.precip_time;
      },
      if tells then rain_fault m_time ∷ [] else [],
    )
    else (r, [])

unfoldable pub rain_first : ℕ → Rain → Rain × List BusAct
rain_first m_time r =
    if ltb (r.last_msg_time + 600000) m_time
    then (record r { last_msg_time = m_time }, rain_warn m_time ∷ [])
    else (r, [])

-- A code of the controller, by its bit RK_Precipitations.
unfoldable pub rain_code : Bool → ℕ → Bool → Rain → Rain × List BusAct
rain_code rain m_time observing r =
    let told =
      if rain
      then (if r.o_rain then rain_twice m_time observing r else rain_first m_time r)
      else (record r { off_time = m_time }, []) in
    (record told.0 { o_rain = rain }, told.1)

module _ (degrees : Degrees) where
  open degrees use {Degree, temperature, gt, ge, plus, minus, times, fabs, thousandths}

  -- `start`, `tok`, the variable T2, the flags of T2, val_T2, and the variables above.
  pub record CanWeather : Type 0 where
    pub start : Bool
    pub tok : ℕ
    pub t2 : Degree
    pub input_t2 : Bool
    pub sensor_t2 : Bool
    pub net_t2 : Bool
    pub val_t2 : Degree
    pub rain : Rain

  -- -20. and 30., and T >= -20. && T <= 30.
  abbrev pub lowest : Degree
  lowest = thousandths (negsuc 19999)

  abbrev pub highest : Degree
  highest = thousandths (pos 30000)

  abbrev pub not_below : Degree → Bool
  not_below t = ge t lowest

  abbrev pub not_above : Degree → Bool
  not_above t = ge highest t

  -- fabs(T2-T) < 5. and fabs(T2-T) > 0.1
  abbrev pub is_near : Degree → Degree → Bool
  is_near t2 t = gt (thousandths (pos 5000)) (fabs (minus t2 t))

  abbrev pub is_apart : Degree → Degree → Bool
  is_apart t2 t = gt (fabs (minus t2 t)) (thousandths (pos 100))

  -- T2 + ((T2>T)? -0.005 : 0.005) and 0.9*T2 + 0.1*T
  unfoldable pub stepped : Degree → Degree → Degree
  stepped t2 t = plus t2 (if gt t2 t then thousandths (negsuc 4) else thousandths (pos 5))

  unfoldable pub mixed : Degree → Degree → Degree
  mixed t2 t = plus (times (thousandths (pos 900)) t2) (times (thousandths (pos 100)) t)

  -- T2 after a temperature in the range, and out of it.
  unfoldable pub smoothed : Bool → Degree → Degree → Degree
  smoothed sensor t2 t =
      if sensor && is_near t2 t then (if is_apart t2 t then stepped t2 t else mixed t2 t) else t

  unfoldable pub clamped : Degree → Degree → Degree
  clamped t2 t = if gt lowest t then lowest else (if gt t highest then highest else t2)

  unfoldable pub new_temp : Degree → CanWeather → CanWeather
  new_temp t s =
      let taken = not_below t && not_above t in
      let t2 = if taken then smoothed s.sensor_t2 s.t2 t else clamped s.t2 t in
      record s {
        t2 = t2;
        sensor_t2 = taken;
        val_t2 = if not s.input_t2 && taken then t2 else s.val_t2;
      }

  -- A code of a converter; `(idr&0xff8)==0x220` is tested before.
  unfoldable pub adc_code : BusFrame → CanWeather → CanWeather
  adc_code f s =
      let code = get_or f.rdata 0 0 * 256 + get_or f.rdata 1 0 in
      let s' = if f.idr % 8 == 1 then new_temp (temperature code) s else s in
      if f.dlen == 3 then record s' { tok = f.rxtime } else s

  -- A round of the inner loop.
  unfoldable pub take_frame : BusFrame → CanWeather → CanWeather × List BusAct
  take_frame f s =
      let told = rain_code (get_or f.rdata 2 0 / 8 % 2 == 1) f.m_time f.observing s.rain in
      if f.idr / 8 % 512 == 68
      then (adc_code f s, [])
      else (if f.idr == 33 then (record s { rain = told.0 }, told.1) else (s, []))

  unfoldable pub take_frames : List BusFrame → CanWeather → CanWeather × List BusAct
  take_frames [] s = (s, [])
  take_frames (f ∷ fs) s =
      let first = take_frame f s in let rest = take_frames fs first.0 in (rest.0, first.1 ++ rest.1)

-- The frames "Start ADC" and "Stop ADC" of the channels that are in use.
abbrev pub channels : List ℕ
channels = 0 ∷ 1 ∷ 2 ∷ 3 ∷ 4 ∷ 5 ∷ 6 ∷ 7 ∷ []

abbrev pub for_channels : (ℕ → Bool) → (ℕ → BusAct) → List ℕ → List BusAct
for_channels skips command [] = []
for_channels skips command (i ∷ is) =
    let rest = for_channels skips command is in if skips i then rest else command i ∷ rest

unfoldable pub start_adc : List BusAct
start_adc =
    for_channels (λ i. i == 2 || (i == 4 || (i == 3 || (i == 5 || i == 6))))
      (λ i. bus_frame 1095 (7 ∷ i ∷ 50 ∷ 1 ∷ 0 ∷ 50 ∷ [])) channels

unfoldable pub stop_adc : List BusAct
stop_adc =
    for_channels (λ i. i == 2 || (i == 3 || (i == 5 || i == 6)))
      (λ i. bus_frame (if i == 4 then 1039 else 1095) (7 ∷ i ∷ 0 ∷ 0 ∷ 0 ∷ 0 ∷ [])) channels

-- What a pass of the main loop meets: the time, PEP_A_On and PEP_R_On, whether `stop_prog` is set
-- before the frames and behind them, and the frames.
pub record BusPass : Type 0 where
  pub tcurr : ℕ
  pub pep_a_on : ℕ
  pub pep_r_on : ℕ
  pub stop_prog : Bool
  pub frames : List BusFrame
  pub stop_behind : Bool

module _ (degrees : Degrees) where
  -- The part of a pass before the frames: what is sent, and the state, or none behind can_exit.
  unfoldable pub start_part : BusPass → CanWeather degrees → CanWeather degrees × List BusAct
  start_part p s =
      if not p.stop_prog && (not s.start && ltb (s.tok + 15000) p.tcurr)
      then (record s { start = true; tok = p.tcurr }, start_adc)
      else (s, [])

  -- Where a part of a pass leaves: the program goes on, or it has ended by can_exit.
  pub data BusEnd : Type 0 where
    stays : CanWeather degrees → BusEnd
    exits : CanWeather degrees → BusEnd

  unfoldable pub stop_part : BusPass → CanWeather degrees → BusEnd × List BusAct
  stop_part p s =
      let hidden = record s { sensor_t2 = false } in
      if p.stop_prog
      then (exits hidden, stop_adc)
      else (if s.start && ltb (s.tok + 5000) p.tcurr
          then (stays (record hidden { start = false; tok = p.tcurr }), stop_adc)
          else (stays s, []))

  -- The controllers are off.
  unfoldable pub off_part : BusPass → CanWeather degrees → BusEnd
  off_part p s =
      if p.stop_prog
      then exits s
      else stays (record s {
        sensor_t2 = if p.pep_r_on % 2 == 0 && not s.net_t2 then false else s.sensor_t2;
      })

  unfoldable pub ask_part : BusPass → CanWeather degrees → BusEnd × List BusAct
  ask_part p s =
      let started = start_part p s in
      let asked = stop_part p started.0 in
      if p.pep_a_on == 0 || p.pep_r_on == 0
      then (off_part p s, [])
      else (asked.0, started.1 ++ asked.1)

  -- The frames, and the end of a pass.
  abbrev pub behind_frames : Bool → CanWeather degrees → BusEnd
  behind_frames true s = exits s
  behind_frames false s = stays s

  abbrev pub frames_part : BusPass → BusEnd → BusEnd × List BusAct
  frames_part p (exits s) = (exits s, [])
  frames_part p (stays s) =
      let taken = take_frames degrees p.frames s in (behind_frames p.stop_behind taken.0, taken.1)

  unfoldable pub bus_pass : BusPass → CanWeather degrees → BusEnd × List BusAct
  bus_pass p s =
      let asked = ask_part p s in let taken = frames_part p asked.0 in (taken.0, asked.1 ++ taken.1)

  -- The passes, up to the end of the program; the acts in their order.
  abbrev pub next_bus :
      (CanWeather degrees → BusEnd × List BusAct) → BusEnd × List BusAct → BusEnd × List BusAct
  next_bus rest (exits s, acts) = (exits s, acts)
  next_bus rest (stays s, acts) = (let later = rest s in (later.0, acts ++ later.1))

  unfoldable pub bus_loop : List BusPass → CanWeather degrees → BusEnd × List BusAct
  bus_loop [] s = (stays s, [])
  bus_loop (p ∷ ps) s = let rest = bus_loop ps in next_bus rest (bus_pass p s)
