-- ===== src/Mirtemp/Tests.antt =====
-- Runs of the daemon of the mirror's temperature, and its theorem at a concrete input.
use bta_utils.Prelude.{ℕ, ◌≡◌, refl, true, false, List, [], ◌∷◌, ◌++◌, arith, span_dec, value_from}
use bta_utils.Mirtemp.{
  Mirror, Reply, unreached, answered, Daemon, Pass, Strtod, get_mir_t, clear_flags, main_loop,
}
use bta_utils.Mirtemp.Silence.{AllFail, Unshown, main_loop-Unshown}

abbrev strtod : Strtod ℕ
strtod s = let (ds, rest) = span_dec s in (value_from 10 0 ds, rest)

abbrev shown : Mirror ℕ
shown = record { input_t3 = false; sensor_t3 = true; net_t3 = true; net_hmd = true; val_t3 = 7 }

abbrev daemon : Daemon ℕ
daemon = record { gotsegm = true; tlast = 50; mirror = shown }

abbrev pass : ℕ → Reply ℕ → Pass ℕ
pass t r = record { attaches = true; now = t; reply = r; later = t }

abbrev before : List (Pass ℕ)
before = pass 60 unreached ∷ pass 70 (answered (32 ∷ [])) ∷ []

all_fail : AllFail strtod (before ++ (pass 951 unreached ∷ []))
unfolding AllFail get_mir_t
all_fail = (refl, (refl, (refl, tt)))

main_loop-Unshown_example :
    Unshown 7 (main_loop ℕ strtod (before ++ (pass 951 unreached ∷ [])) daemon).mirror
main_loop-Unshown_example =
    main_loop-Unshown strtod before [] (pass 951 unreached) daemon all_fail refl refl (omega arith)

-- The flag NET_T3 stays, and the one of the humidity is cleared.
clears_humidity :
    clear_flags ℕ true shown
    ≡ record { input_t3 = false; sensor_t3 = false; net_t3 = true; net_hmd = false; val_t3 = 7 }
unfolding clear_flags
clears_humidity = refl
