-- ===== src/ClientP2/Tests.antt =====
-- Runs of the client of P2 at fixed positions and texts.
use bta_utils.Prelude.{
  ◌+◌, ◌<◌, ◌≤◌, ◌≡◌, ◌⊎◌, ◌↔◌, refl, true, false, List, [], ◌∷◌, ◌++◌, none, some, arith, ℤ, pos,
  negsuc, ◌+ℤ◌, ◌-ℤ◌, dist_ℤ,
}
use bta_utils.ClientP2.{
  half_turn, full_turn, in_restricted, to_steps, preferred, no_turn, quit_code, go_steps, move_p2,
  moving_thread, get_angle, dms, nothing, got_bytes, ClientRound, ClientVars, client_main,
  client_round, check_p2, take_bytes, p2_value, got_text,
}
use bta_utils.ClientP2.Way.{SameDirection, IsFree, preferred-IsFree, move_p2_lem}
use bta_utils.ClientP2.Loop.{Grows, client_main-Grows}
use bta_utils.ClientP2.Ending.{code_of, texts, received_texts, heard, client_main_end}

-- From 28000 to 361000 arc seconds `move_P2` turns up, through the restricted area.
across : move_p2 false (pos 361000000) (pos 28000000) ≡ go_steps (pos 683982)
unfolding move_p2 preferred to_steps ◌-ℤ◌ ◌+ℤ◌
across = refl

thread_run : moving_thread (pos 0) (negsuc 3600999) (pos 3600000) ≡ go_steps (negsuc 7395)
unfolding moving_thread move_p2 preferred to_steps ◌-ℤ◌ ◌+ℤ◌
thread_run = refl

preferred-IsFree_example : IsFree (pos 28000000) (preferred (pos 361000000 -ℤ pos 28000000)) ↔ (
    (361000000 ≤ 28000000 + full_turn + half_turn) × (28000000 + full_turn < 361000000 + half_turn))
preferred-IsFree_example = preferred-IsFree 28000000 361000000 (omega arith) (omega arith) refl refl

abbrev quiet_round : ClientRound
quiet_round = record { t = 5000; val_p = pos 100; poll = got_bytes (79 ∷ 75 ∷ []); shm_ok = true }

abbrev later_round : ClientRound
later_round = record { t = 7000; val_p = pos 50; poll = nothing; shm_ok = true }

abbrev stop_round : ClientRound
stop_round = record {
  t = 9000;
  val_p = pos 400;
  poll = got_bytes (83 ∷ 116 ∷ 111 ∷ 112 ∷ 10 ∷ []);
  shm_ok = true;
}

abbrev p2_start : ClientVars
p2_start = record { is_running = true; t0 = 0; p_old = negsuc 399999 }

main_run : client_main (quiet_round ∷ later_round ∷ stop_round ∷ []) p2_start ≡ (
  p2_value (pos 100)
      ∷ got_text (79 ∷ 75 ∷ [])
      ∷ p2_value (pos 400)
      ∷ got_text (83 ∷ 116 ∷ 111 ∷ 112 ∷ 10 ∷ [])
      ∷ [],
  some (pos 0),
)
unfolding client_main client_round check_p2 take_bytes ◌-ℤ◌
main_run = refl

client_main-Grows_example :
    Grows (negsuc 399999) (client_main (quiet_round ∷ later_round ∷ stop_round ∷ []) p2_start).0
client_main-Grows_example =
    client_main-Grows (quiet_round ∷ later_round ∷ stop_round ∷ []) p2_start
      (refl, (refl, (refl, tt)))

client_main_end_example :
    ((client_main (quiet_round ∷ later_round ∷ []) p2_start).1 ≡ none)
    × ((r : ClientRound) (after : List ClientRound) (code : ℤ)
        → code_of r.poll r.shm_ok ≡ some code
        → ((client_main ((quiet_round ∷ later_round ∷ []) ++ r ∷ after) p2_start).1 ≡ some code)
          × (texts (client_main ((quiet_round ∷ later_round ∷ []) ++ r ∷ after) p2_start).0
              ≡ received_texts (quiet_round ∷ later_round ∷ []) ++ heard r.poll))
client_main_end_example =
    client_main_end (quiet_round ∷ later_round ∷ []) p2_start refl (refl, (refl, tt))

-- "-0:30:00": the degrees are 0, and the angle is read as positive.
minus_zero : get_angle none (some (pos 0, pos 30, pos 0)) none ≡ some (pos 1800000)
unfolding get_angle dms ◌+ℤ◌ ◌-ℤ◌
minus_zero = refl

move_p2_lem_example :
    let targ_p = pos 361000000 in
    let cur_p = pos 28000000 in
    ((dist_ℤ targ_p (pos 0) < 1000) × (move_p2 false targ_p cur_p ≡ no_turn))
    ⊎ ((1000 ≤ dist_ℤ targ_p (pos 0))
        × (((in_restricted cur_p ≡ true) × (move_p2 false targ_p cur_p ≡ quit_code (negsuc 0)))
            ⊎ ((in_restricted cur_p ≡ false)
                × (((in_restricted targ_p ≡ true)
                      × (move_p2 false targ_p cur_p ≡ quit_code (negsuc 9)))
                    ⊎ ((in_restricted targ_p ≡ false)
                        × ((way : ℤ) × (move_p2 false targ_p cur_p ≡ go_steps (to_steps way))
                            × SameDirection way (targ_p -ℤ cur_p)
                            × (dist_ℤ (targ_p -ℤ cur_p) (pos 0) ≤ full_turn
                                → dist_ℤ way (pos 0) ≤ half_turn)))))))
move_p2_lem_example = move_p2_lem false (pos 361000000) (pos 28000000)
