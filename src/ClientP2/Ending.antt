-- ===== src/ClientP2/Ending.antt =====
-- client-p2/main.c: how the loop of `main` ends, and the texts it shows.
use bta_utils.Prelude.{
  ◌≡◌, refl, ap, sym, inl, inr, Bool, true, false, List, [], ◌∷◌, ◌++◌, append_assoc, Option, none,
  some, arith, Bool-cases, if◌then◌else◌, ℤ, pos, negsuc, ℕ, ◌∙◌,
}
use bta_utils.ClientP2.{
  TtyPoll, nothing, key_only, gone, got_bytes, ClientRound, Shown, p2_value, got_text, ClientVars,
  check_p2, stop_word, starts_with, take_bytes, after_bytes, client_round, then_rounds, client_main,
}
use bta_utils.ClientP2.Loop.{check_p2-Look}

-- The code with which a round ends the program, if it does.
abbrev pub code_of : TtyPoll → Bool → Option ℤ
code_of gone ok = some (pos 1)
code_of poll false = some (negsuc 1)
code_of (got_bytes buff) true = if starts_with stop_word buff then some (pos 0) else none
code_of poll true = none

abbrev pub AllQuiet : List ClientRound → Type 0
AllQuiet [] = Unit
AllQuiet (r ∷ rs) = (code_of r.poll r.shm_ok ≡ none) × AllQuiet rs

-- The texts shown, and those received.
abbrev pub texts : List Shown → List (List ℕ)
texts [] = []
texts (p2_value p ∷ shown) = texts shown
texts (got_text text ∷ shown) = text ∷ texts shown

abbrev pub heard : TtyPoll → List (List ℕ)
heard (got_bytes buff) = buff ∷ []
heard _ = []

abbrev pub received_texts : List ClientRound → List (List ℕ)
received_texts [] = []
received_texts (r ∷ rs) = heard r.poll ++ received_texts rs

texts-append : (a b : List Shown) → texts (a ++ b) ≡ texts a ++ texts b
texts-append [] b = refl
texts-append (p2_value p ∷ a) b = texts-append a b
texts-append (got_text text ∷ a) b = ap (λ l. text ∷ l) (texts-append a b)

look_texts : (r : ClientRound) (v : ClientVars) → texts (check_p2 r v).1 ≡ []
look_texts r v =
    let (_, look) = check_p2-Look r v in
    elim look [
      | inl (_, none_shown) ↦ rw none_shown refl
      | inr (_, one_shown, _) ↦ rw one_shown refl
    ]

not_none : (c : ℤ) → ¬ (some c ≡ none)
not_none c e = ground arith

module _ (rest : ClientVars → List Shown × Option ℤ) (shown : List Shown)
    (silent : texts shown ≡ []) (c : ClientVars) where
  -- The bytes of a round that does not end the program, and of one that does.
  quiet_bytes :
      (ok : Bool) (poll : TtyPoll)
      → c.is_running ≡ true
      → code_of poll ok ≡ none
      → let o = then_rounds rest (after_bytes ok shown (take_bytes poll c)) in
        (v : ClientVars) × (v.is_running ≡ true)
        × (o.1 ≡ (rest v).1)
        × (texts o.0 ≡ heard poll ++ texts (rest v).0)
  unfolding take_bytes
  quiet_bytes ok gone on quiet = absurd (not_none _ quiet)
  quiet_bytes false nothing on quiet = absurd (not_none _ quiet)
  quiet_bytes false key_only on quiet = absurd (not_none _ quiet)
  quiet_bytes false (got_bytes buff) on quiet = absurd (not_none _ quiet)
  quiet_bytes true nothing on quiet = (c, on, refl, rw (texts-append, texts-append, silent) refl)
  quiet_bytes true key_only on quiet = (c, on, refl, rw (texts-append, texts-append, silent) refl)
  quiet_bytes true (got_bytes buff) on quiet = elim (Bool-cases (starts_with stop_word buff)) [
    | inl stop ↦ absurd (not_none (pos 0) (rw stop at quiet))
    | inr other ↦ rw other (c, on, refl, rw (texts-append, texts-append, silent) refl)
  ]

  last_bytes :
      ((v : ClientVars) → v.is_running ≡ false → rest v ≡ ([], some (pos 0)))
      → (ok : Bool) (poll : TtyPoll) (code : ℤ) → code_of poll ok ≡ some code
      → let o = then_rounds rest (after_bytes ok shown (take_bytes poll c)) in
        (o.1 ≡ some code) × (texts o.0 ≡ heard poll)
  unfolding take_bytes
  last_bytes stopped ok gone code ends = (ends, silent)
  last_bytes stopped false nothing code ends = (ends, rw (texts-append, silent) refl)
  last_bytes stopped false key_only code ends = (ends, rw (texts-append, silent) refl)
  last_bytes stopped false (got_bytes buff) code ends = (ends, rw (texts-append, silent) refl)
  last_bytes stopped true nothing code ends = absurd (not_none code (sym ends))
  last_bytes stopped true key_only code ends = absurd (not_none code (sym ends))
  last_bytes stopped true (got_bytes buff) code ends =
      elim (Bool-cases (starts_with stop_word buff)) [
        | inl stop ↦
            (let e = stopped (record c { is_running = false }) refl in
              rw (stop, e) (rw stop at ends, rw (texts-append, texts-append, silent) refl))
        | inr other ↦ absurd (not_none code (sym (rw other at ends)))
      ]

not_running :
    (rs : List ClientRound) (v : ClientVars)
    → v.is_running ≡ false
    → client_main rs v ≡ ([], some (pos 0))
unfolding client_main
not_running [] v off = rw off refl
not_running (r ∷ rs) v off =
    ap (λ b. if b then then_rounds (client_main rs) (client_round r v) else ([], some (pos 0))) off

running :
    (r : ClientRound) (rs : List ClientRound) (v : ClientVars)
    → v.is_running ≡ true
    → client_main (r ∷ rs) v
      ≡ then_rounds
          (client_main rs)
          (after_bytes r.shm_ok (check_p2 r v).1 (take_bytes r.poll (check_p2 r v).0))
unfolding client_main client_round
running r rs v on =
    ap (λ b. if b then then_rounds (client_main rs) (client_round r v) else ([], some (pos 0))) on

look_running :
    (r : ClientRound) (v : ClientVars) → v.is_running ≡ true → ((check_p2 r v).0).is_running ≡ true
look_running r v on = (check_p2-Look r v).0 ∙ on

none_yet : (v : ClientVars) → v.is_running ≡ true → (client_main [] v).1 ≡ none
unfolding client_main
none_yet v on = rw on refl

-- While each round reads no "Stop" and no end of the line and finds the shared memory in order, the
-- loop does not end. The first round that is otherwise ends it, whatever would follow: with 1 where
-- the line is gone, else with -2 where the memory is damaged, else, at "Stop", with 0. The texts
-- shown are those that were received until then, in their order.
pub client_main_end :
    (before : List ClientRound) (v : ClientVars)
    → v.is_running ≡ true
    → AllQuiet before
    → ((client_main before v).1 ≡ none)
      × ((r : ClientRound) (after : List ClientRound) (code : ℤ)
          → code_of r.poll r.shm_ok ≡ some code
          → ((client_main (before ++ r ∷ after) v).1 ≡ some code)
            × (texts (client_main (before ++ r ∷ after) v).0
                ≡ received_texts before ++ heard r.poll))
client_main_end [] v on quiet = (
  none_yet v on,
  λ r after code ends. rw (running r after v on) (
      last_bytes (client_main after) (check_p2 r v).1 (look_texts r v) (check_p2 r v).0
        (not_running after) r.shm_ok r.poll code ends),
)
client_main_end (q ∷ before) v on (quiet, later) =
    let round = λ (rs : List ClientRound).
      quiet_bytes (client_main rs) (check_p2 q v).1 (look_texts q v) (check_p2 q v).0 q.shm_ok
        q.poll (look_running q v on) quiet in
    (
      (let (v', on', code_eq, _) = round before in
          rw (running q before v on, code_eq) (client_main_end before v' on' later).0),
      λ r after code ends.
          (let (v', on', code_eq, text_eq) = round (before ++ r ∷ after) in
            let (code_eq', text_eq') = (client_main_end before v' on' later).1 r after code ends in
            rw (running q (before ++ r ∷ after) v on, code_eq, text_eq, text_eq', append_assoc)
              (code_eq', refl)),
    )
