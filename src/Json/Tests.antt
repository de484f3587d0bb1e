-- ===== src/Json/Tests.antt =====
-- Runs of the server of the telescope's data, and its theorems at concrete inputs.
use bta_utils.Prelude.{ℕ, ◌≡◌, refl, true, false, none, some, List, [], ◌∷◌, ◌++◌, codes, pos}
use bta_utils.Json.{stringscan, strstr, skip_blanks, until_space, parce_incoming_buf, all_pars}
use bta_utils.Json.Print.{Telescope, handle}
use bta_utils.Prelude.Tokens.{with_last, with_delims}
use bta_utils.Json.Answer.{IsAnswer, handle-words}

-- A browser asks for all.
asks_all : parce_incoming_buf (codes "GET /bta_par HTTP/1.1") ≡ some all_pars
unfolding parce_incoming_buf stringscan strstr skip_blanks until_space
asks_all = refl

abbrev telescope : Telescope
telescope = record {
  shm_ok = true;
  tel_hardware = pos 1;
  tel_mode = pos 0;
  sys_mode = pos 8;
  tel_focus = pos 0;
  sys_target = pos 1;
  p2_state = pos 1;
  has_blast = false;
  has_precip = true;
  value_text = λ k. codes "+07.5";
}

-- A group's name in capitals that holds the letters GET is taken for a browser's request.
target_exits : parce_incoming_buf (codes "TARGET vel") ≡ none
unfolding parce_incoming_buf stringscan strstr skip_blanks until_space
target_exits = refl

abbrev words : List (List ℕ)
words = codes "METEO" ∷ codes "target" ∷ []

no_get : stringscan (with_delims 32 words ++ codes "vel") (codes "GET") ≡ none
unfolding stringscan strstr
no_get = refl

handle-words_example : IsAnswer (with_last words (codes "vel")) telescope (handle []) (
    handle (
      (record { bytes = with_delims 32 words ++ codes "vel"; behind = 0 ∷ 9 ∷ [] }, telescope)
      ∷ []))
handle-words_example =
    handle-words 32 words (codes "vel") (9 ∷ []) telescope [] refl refl refl no_get (λ k. refl)
