-- ===== src/OldMeteo/Tests.antt =====
-- Runs of the weather daemon of the CAN bus at fixed frames, for temperatures in thousandths.
use bta_utils.Prelude.{
  ℕ, pos, negsuc, ◌+◌, ◌-◌, ◌/◌, ◌*◌, ◌≡◌, refl, true, false, [], ◌∷◌, ◌++◌, arith, ltb, leb,
  if◌then◌else◌,
}
use bta_utils.OldMeteo.{
  Degrees, rain_warn, rain_fault, BusFrame, Rain, rain_twice, rain_first, rain_code, CanWeather,
  smoothed, stepped, new_temp, adc_code, take_frame, take_frames, stop_adc, start_part, BusPass,
  stays, exits, stop_part, ask_part, bus_pass, bus_loop,
}
use bta_utils.OldMeteo.Range.{IsRounded}
use bta_utils.OldMeteo.Shown.{Leaves, state_at, bus_loop-Leaves}
use bta_utils.OldMeteo.Silence.{bus_loop-silence, IsSilent}
use bta_utils.OldMeteo.Messages.{Spaced, bus_loop-Spaced}

-- Thousandths of a degree above -20.
abbrev fine : Degrees
fine = record {
  Degree = ℕ;
  temperature = λ code. code * 5000 / 4096;
  gt = λ a b. ltb b a;
  ge = λ a b. leb b a;
  plus = λ a b. a + b - 20000;
  minus = λ a b. a + 20000 - b;
  times = λ a b. ((a - 20000) * b + (20000000 - (a - 20000) * 20000)) / 1000;
  fabs = λ a. if ltb a 20000 then 40000 - a else a;
  thousandths = λ n. elim n [ pos k ↦ 20000 + k | negsuc k ↦ 19999 - k ];
}

abbrev dry : Rain
dry = record { off_time = 0; last_msg_time = 0; o_rain = false; precip_time = 0 }

abbrev shown_weather : CanWeather fine
shown_weather = record {
  start = true;
  tok = 1000;
  t2 = 20000;
  input_t2 = false;
  sensor_t2 = true;
  net_t2 = false;
  val_t2 = 20000;
  rain = dry;
}

abbrev silent_pass : ℕ → BusPass
silent_pass t = record {
  tcurr = t;
  pep_a_on = 1;
  pep_r_on = 1;
  stop_prog = false;
  frames = [];
  stop_behind = false;
}

-- The code 16384 is 20 degrees, 19660 almost 24.
abbrev adc_frame : ℕ → BusFrame
adc_frame byte = record {
  rxtime = 2000;
  idr = 545;
  dlen = 3;
  rdata = byte ∷ 0 ∷ 0 ∷ [];
  m_time = 0;
  observing = true;
}

abbrev rain_frame : ℕ → BusFrame
rain_frame t = record {
  rxtime = 2000;
  idr = 33;
  dlen = 3;
  rdata = 0 ∷ 0 ∷ 8 ∷ [];
  m_time = t;
  observing = true;
}

abbrev busy_pass : BusPass
busy_pass = record (silent_pass 2500) {
  frames = adc_frame 74 ∷ rain_frame 700000 ∷ rain_frame 700500 ∷ rain_frame 770000 ∷ [];
}

abbrev stop_pass : BusPass
stop_pass = record (silent_pass 3000) { stop_prog = true }

busy_run : bus_loop fine (busy_pass ∷ stop_pass ∷ []) shown_weather ≡ (
  exits (record shown_weather {
    tok = 2000;
    t2 = 20005;
    sensor_t2 = false;
    val_t2 = 20005;
    rain = record { off_time = 0; last_msg_time = 770000; o_rain = true; precip_time = 770000 };
  }),
  rain_warn 700000 ∷ rain_fault 770000 ∷ [] ++ stop_adc,
)
unfolding bus_loop bus_pass ask_part stop_part start_part take_frames take_frame rain_code
    rain_first rain_twice adc_code new_temp smoothed stepped stop_adc
busy_run = refl

fine-IsRounded : IsRounded fine
fine-IsRounded = record {
  ge_trans = λ a b c h k. ground arith;
  not_gt = λ a b h. ground arith;
  plus_mono = λ a b c d h k. ground arith;
  most_mono = λ a b h. ground arith;
  tenth_mono = λ a b h. ground arith;
  parts_lowest = refl;
  parts_highest = refl;
  step_down = λ a. ground arith;
  step_up = λ a. ground arith;
  down_to = λ a b over apart. ground arith;
  up_to = λ a b under apart. ground arith;
}

bus_loop-Leaves_example :
    Leaves fine shown_weather
      (state_at fine (bus_loop fine (busy_pass ∷ stop_pass ∷ []) shown_weather).0)
bus_loop-Leaves_example =
    bus_loop-Leaves fine fine-IsRounded (busy_pass ∷ stop_pass ∷ []) shown_weather

bus_loop-Spaced_example : Spaced 0 (bus_loop fine (busy_pass ∷ stop_pass ∷ []) shown_weather).1
bus_loop-Spaced_example = bus_loop-Spaced fine (busy_pass ∷ stop_pass ∷ []) shown_weather

silent_pass-IsSilent : (t : ℕ) → IsSilent (silent_pass t)
silent_pass-IsSilent t = record {
  pep_a = refl;
  pep_r = refl;
  no_stop = refl;
  no_frames = refl;
  no_stop_behind = refl;
}

bus_loop-silence_example :
    (s' : CanWeather fine) × ((bus_loop fine
        ((silent_pass 2000 ∷ []) ++ (silent_pass 17000 ∷ [] ++ (silent_pass 23000 ∷ [])))
        shown_weather).0
      ≡ stays s')
    × (s'.sensor_t2 ≡ false)
bus_loop-silence_example =
    bus_loop-silence fine (silent_pass 2000 ∷ []) [] [] (silent_pass 17000) (silent_pass 23000)
      shown_weather (silent_pass-IsSilent 2000, tt) tt tt (silent_pass-IsSilent 17000)
      (silent_pass-IsSilent 23000) (omega arith, tt) (omega arith) (omega arith)
