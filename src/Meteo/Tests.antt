-- ===== src/Meteo/Tests.antt =====
-- Runs of the reader of the weather station's line, and its theorems at concrete inputs.
use bta_utils.Prelude.{
  ℕ, ◌+◌, ◌*◌, ◌≡◌, refl, true, false, some, List, [], ◌∷◌, ◌++◌, pos, arith, get_or,
}
use bta_utils.Meteo.Reading.{check_meteo_params-store_par}
use bta_utils.Meteo.Kept.{Kept, check_meteo_params-Kept}
use bta_utils.Meteo.Main.{Daemon, Pass, returns, main_loop, without_sensors, main_loop-silence}
use bta_utils.Meteo.{
  crc16_table, shift_out, crc16_table_lem, crc_from, crc_check, input, par_hmd, par_t1, Weather,
  register, store_par, ans_ok, got, timeout, int16,
}

crc16_table_lem_example : get_or crc16_table 5 0 ≡ shift_out 8 5
crc16_table_lem_example = crc16_table_lem 5 (omega arith)

-- The humidity is entered by hand.
abbrev by_hand : Weather
by_hand = record {
  mode = λ s p. elim s [ input ↦ elim p [ par_hmd ↦ true | _ ↦ false ] | _ ↦ false ];
  val = λ p. pos 500;
}

-- A request of the temperature and its answer, 12.3 degrees.
abbrev request : List ℕ
request = 1 ∷ 4 ∷ 118 ∷ 193 ∷ 0 ∷ 1 ∷ 122 ∷ 126 ∷ []

abbrev answer : List ℕ
answer = 1 ∷ 4 ∷ 2 ∷ 0 ∷ 123 ∷ 249 ∷ 19 ∷ []

request_ok : crc_check request ≡ true
unfolding crc_check crc_from
request_ok = refl

answer_ok : crc_check answer ≡ true
unfolding crc_check crc_from
answer_ok = refl

reads_t1 : register (118 * 256 + 193) ≡ some (some par_t1)
unfolding register
reads_t1 = refl

check_meteo_params-Kept_example : Kept true by_hand (store_par true par_t1 (int16 0 123) by_hand)
check_meteo_params-Kept_example =
    check_meteo_params-Kept true true (got request ∷ timeout ∷ got answer ∷ timeout ∷ []) 0 0
      by_hand (store_par true par_t1 (int16 0 123) by_hand) ans_ok
      (check_meteo_params-store_par true 1 4 118 193 0 1 122 126 1 4 2 0 123 249 19 0 par_t1 []
        by_hand request_ok answer_ok reads_t1)

-- The humidity is by hand, and the last reading was at the time 100.
abbrev daemon : Daemon
daemon = record { gotsegm = true; tlast = 100; connected = true; lastpar = 0; weather = by_hand }

abbrev pass : ℕ → Pass
pass t = record { attaches = false; now = t; polls = timeout ∷ []; later = t }

main_loop-silence_example :
    main_loop ((pass 120 ∷ pass 160 ∷ []) ++ (pass 161 ∷ pass 162 ∷ [])) daemon
    ≡ some (returns (record daemon { weather = without_sensors by_hand }))
main_loop-silence_example =
    main_loop-silence (pass 120 ∷ pass 160 ∷ []) (pass 162 ∷ []) (pass 161) daemon refl refl refl
      (omega arith)
