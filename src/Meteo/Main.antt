-- ===== src/Meteo/Main.antt =====
-- BTA_modbusmeteo/main.c: the main loop of the weather daemon, its flags and its signals. Whether the
-- shared memory is found, the times, and what comes on the line are arguments of a pass.
use bta_utils.Prelude.{
  and_parts, false_ne, ℕ, ◌+◌, ◌-◌, ◌<◌, ◌≡◌, refl, sym, ap, lt→ltb, ◌∙◌, Bool, true, false, not,
  ◌&&◌, ◌||◌, Option, none, some, List, [], ◌∷◌, ◌++◌, ltb, if◌then◌else◌, arith, Bool-cases, inl,
  inr,
}
use bta_utils.Meteo.{
  sensor, same_source, Weather, ParamsAns, ans_ok, ans_lostconn, ans_nodata, Poll, timeout,
  interrupted, check_meteo_params, meteo_loop, meteo_round,
}

-- `clear_flags`; HMD, WND, B and T1 are the values of `Par`.
unfoldable pub clear_flags : Bool → Weather → Weather
clear_flags gotsegm w =
    if not gotsegm
    then w
    else record w { mode = λ s p. if same_source s sensor then false else w.mode s p }

-- The variables of the process: the segment is found, `tlast`, `portfd >= 0`, `lastpar`, and the
-- weather in the shared memory.
pub record Daemon : Type 0 where
  pub gotsegm : Bool
  pub tlast : ℕ
  pub connected : Bool
  pub lastpar : ℕ
  pub weather : Weather

-- The signals: those that are ignored, and those that stop the process. `childpid` is not 0.
pub data Stops : Type 0 where
  goes_on exits : Stops

unfoldable pub signals : Bool → Stops → Daemon → Stops × Daemon
signals childpid goes_on d = (goes_on, d)
signals childpid exits d =
    (exits, if childpid then record d { weather = clear_flags d.gotsegm d.weather } else d)

-- What a pass of the loop meets: get_shm_block succeeds; the time at the test; the polls of
-- check_meteo_params; the time behind it.
pub record Pass : Type 0 where
  pub attaches : Bool
  pub now : ℕ
  pub polls : List Poll
  pub later : ℕ

-- How a pass ends: `main` returns 1, the process exits by SIGTERM, or the loop goes on.
pub data Passed : Type 0 where
  returns exits_sigterm loops : Daemon → Passed

abbrev pub returns_cleared : Daemon → Passed
returns_cleared d = returns (record d { weather = clear_flags d.gotsegm d.weather })

abbrev pub with_answer : ℕ → ParamsAns → Daemon → Passed
with_answer later ans_ok d = loops (record d { tlast = later })
with_answer later ans_lostconn d = returns_cleared d
with_answer later ans_nodata d = loops d

abbrev pub with_params : ℕ → Option (ParamsAns × ℕ × Weather) → Daemon → Option Passed
with_params later none d = none
with_params later (some (ans, lastpar, w)) d =
    some (with_answer later ans (record d { lastpar = lastpar; weather = w }))

-- A pass; `none` where the polls end before check_meteo_params does. The process is a child, for which
-- `childpid` is 0.
unfoldable pub main_pass : Pass → Daemon → Option Passed
main_pass p d =
    let d' : Daemon = record d { gotsegm = d.gotsegm || p.attaches } in
    if not d'.gotsegm
    then some (exits_sigterm (signals false exits d').1)
    else (if ltb 60 (p.now - d.tlast)
        then some (returns_cleared d')
        else with_params p.later
            (check_meteo_params d'.connected d'.gotsegm p.polls d'.lastpar d'.weather) d')

abbrev pub next_pass : Option Passed → (Daemon → Option Passed) → Option Passed
next_pass none f = none
next_pass (some (returns d)) f = some (returns d)
next_pass (some (exits_sigterm d)) f = some (exits_sigterm d)
next_pass (some (loops d)) f = f d

unfoldable pub main_loop : List Pass → Daemon → Option Passed
main_loop [] d = some (loops d)
main_loop (p ∷ ps) d = next_pass (main_pass p d) (λ d'. main_loop ps d')

-- Nothing comes on the line in a pass.
abbrev pub is_silent : List Poll → Bool
is_silent (timeout ∷ polls) = true
is_silent (interrupted ∷ polls) = true
is_silent _ = false

abbrev pub all_silent : List Pass → Bool
all_silent [] = true
all_silent (p ∷ ps) = is_silent p.polls && all_silent ps

check_meteo_params-silent :
    (polls : List Poll) (gotsegm : Bool) (lastpar : ℕ) (w : Weather)
    → is_silent polls ≡ true
    → check_meteo_params true gotsegm polls lastpar w ≡ some (ans_nodata, lastpar, w)
unfolding check_meteo_params meteo_loop meteo_round
check_meteo_params-silent (timeout ∷ polls) gotsegm lastpar w h = refl
check_meteo_params-silent (interrupted ∷ polls) gotsegm lastpar w h = refl
check_meteo_params-silent [] gotsegm lastpar w h = absurd (false_ne h)
check_meteo_params-silent (Poll.select_fails ∷ polls) gotsegm lastpar w h = absurd (false_ne h)
check_meteo_params-silent (Poll.read_fails ∷ polls) gotsegm lastpar w h = absurd (false_ne h)
check_meteo_params-silent (Poll.got bytes ∷ polls) gotsegm lastpar w h = absurd (false_ne h)

-- A process that has the segment keeps it.
attached_eq : (d : Daemon) (a : Bool) → d.gotsegm ≡ true → record d { gotsegm = d.gotsegm || a } ≡ d
attached_eq d a e =
    ap (λ b. record d { gotsegm = b || a }) e ∙ ap (λ b. record d { gotsegm = b }) (sym e)

-- What a pass does for a process that has the segment.
abbrev pass_of : Pass → Daemon → Option Passed
pass_of p d =
    if ltb 60 (p.now - d.tlast)
    then some (returns_cleared d)
    else with_params p.later (check_meteo_params d.connected d.gotsegm p.polls d.lastpar d.weather)
        d

pass_if : (b : Bool) (x y : Option Passed) → b ≡ true → (if not b then x else y) ≡ y
pass_if b x y e = rw e refl

main_pass-attached : (p : Pass) (d : Daemon) → d.gotsegm ≡ true → main_pass p d ≡ pass_of p d
unfolding main_pass
main_pass-attached p d e =
    pass_if (d.gotsegm || p.attaches) _ (pass_of p (record d { gotsegm = d.gotsegm || p.attaches }))
      (ap (λ b. b || p.attaches) e)
    ∙ ap (pass_of p) (attached_eq d p.attaches e)

late_pass :
    (p : Pass) (d : Daemon)
    → ltb 60 (p.now - d.tlast) ≡ true
    → pass_of p d ≡ some (returns_cleared d)
late_pass p d late =
    ap
      (λ b.
        if b
        then some (returns_cleared d)
        else with_params p.later
            (check_meteo_params d.connected d.gotsegm p.polls d.lastpar d.weather) d)
      late

silent_answer :
    (p : Pass) (d : Daemon)
    → d.connected ≡ true
    → is_silent p.polls ≡ true
    → check_meteo_params d.connected d.gotsegm p.polls d.lastpar d.weather
      ≡ some (ans_nodata, d.lastpar, d.weather)
silent_answer p d con silent =
    ap (λ b. check_meteo_params b d.gotsegm p.polls d.lastpar d.weather) con
    ∙ check_meteo_params-silent p.polls d.gotsegm d.lastpar d.weather silent

early_pass :
    (p : Pass) (d : Daemon)
    → ltb 60 (p.now - d.tlast) ≡ false
    → d.connected ≡ true
    → is_silent p.polls ≡ true
    → pass_of p d ≡ some (loops d)
early_pass p d early con silent =
    ap
      (λ b.
        if b
        then some (returns_cleared d)
        else with_params p.later
            (check_meteo_params d.connected d.gotsegm p.polls d.lastpar d.weather) d)
      early
    ∙ ap (λ o. with_params p.later o d) (silent_answer p d con silent)

abbrev pub without_sensors : Weather → Weather
without_sensors w = record w { mode = λ s q. if same_source s sensor then false else w.mode s q }

-- A line that falls silent is noticed: for a process that has the segment and the line, where nothing
-- comes in the passes before one that is more than 60 seconds behind the last reading, the loop ends
-- with `main` returning, the flags of the sensors cleared, and all other flags and the values as they
-- were.
pub main_loop-silence :
    (ps rest : List Pass) (p : Pass) (d : Daemon)
    → d.gotsegm ≡ true
    → d.connected ≡ true
    → all_silent ps ≡ true
    → 60 + d.tlast < p.now
    → main_loop (ps ++ (p ∷ rest)) d
      ≡ some (returns (record d { weather = without_sensors d.weather }))
unfolding main_loop clear_flags
main_loop-silence [] rest p d got con silent late =
    ap (λ o. next_pass o (λ d'. main_loop rest d'))
      (main_pass-attached p d got ∙ late_pass p d (lt→ltb 60 (p.now - d.tlast) (omega arith)))
    ∙ ap (λ b. some (returns (record d { weather = clear_flags b d.weather }))) got
main_loop-silence (q ∷ ps) rest p d got con silent late =
    let (one, more) = and_parts (is_silent q.polls) (all_silent ps) silent in
    elim (Bool-cases (ltb 60 (q.now - d.tlast))) [
      | inl at_once ↦
          ap (λ o. next_pass o (λ d'. main_loop (ps ++ (p ∷ rest)) d'))
            (main_pass-attached q d got ∙ late_pass q d at_once)
          ∙ ap (λ b. some (returns (record d { weather = clear_flags b d.weather }))) got
      | inr early ↦
          ap (λ o. next_pass o (λ d'. main_loop (ps ++ (p ∷ rest)) d'))
            (main_pass-attached q d got ∙ early_pass q d early con one)
          ∙ main_loop-silence ps rest p d got con more late
    ]
