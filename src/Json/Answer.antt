-- ===== src/Json/Answer.antt =====
-- jsonbta/bta_json.c, jsonbta/bta_print.c: a request and the document that answers it.
use bta_utils.Prelude.Tokens.{with_delims, with_last}
use bta_utils.Prelude.{
  ℕ, ◌≡◌, refl, ap, ◌∙◌, Bool, true, false, Option, none, some, List, [], ◌∷◌, ◌++◌, codes,
  if◌then◌else◌,
}
use bta_utils.Json.{is_delim, stringscan, Group, BtaPars, ReceivedBytes}
use bta_utils.Json.Print.{
  Telescope, Pair, group_pairs, printed, pairs_of, make_json, sent_answers, answer_to, handle,
}
use bta_utils.Json.Words.{all_word, all_words, names}
use bta_utils.Json.Request.{AsksFor, parce_incoming_buf-words}
use bta_utils.Json.Pairs.{read_object, value_ok}
use bta_utils.Json.Document.{make_json-read_object}

-- The pairs of the groups that the words of a request name.
abbrev pub named_pairs : List (List ℕ) → Telescope → List Group → List Pair
named_pairs ws t [] = []
named_pairs ws t (g ∷ gs) =
    if names ws g then group_pairs t g ++ named_pairs ws t gs else named_pairs ws t gs

pairs_of-named :
    (ws : List (List ℕ)) (par : BtaPars) (t : Telescope) (gs : List Group)
    → AsksFor ws (some par)
    → pairs_of par t gs ≡ named_pairs ws t gs
unfolding pairs_of
pairs_of-named ws par t [] h = refl
pairs_of-named ws par t (g ∷ gs) h = rw (h.0, h.1 g, pairs_of-named ws par t gs h) refl

-- An answer to a client, if the segment is valid, and what it reads in it.
pub IsAnswer : List (List ℕ) → Telescope → List (Option (List ℕ)) → List (Option (List ℕ)) → Type 0
IsAnswer ws t rest sent =
    (doc : List ℕ) × (sent ≡ (if t.shm_ok then some doc ∷ rest else []))
    × (read_object doc ≡ some ((codes "ACS_BTA", codes "true") ∷ named_pairs ws t printed))

sent_answers_lem :
    (par : BtaPars) (ok : Bool) (doc : List ℕ) (made : Option (Option (List ℕ)))
    (rest : List (Option (List ℕ)))
    → made ≡ (if ok then some (some doc) else none)
    → par.all ≡ false
    → sent_answers par made rest ≡ (if ok then some doc ∷ rest else [])
sent_answers_lem par true doc made rest e all = rw (e, all) refl
sent_answers_lem par false doc made rest e all = rw e refl

answer_to-IsAnswer :
    (ws : List (List ℕ)) (o : Option BtaPars) (t : Telescope) (rest : List (Option (List ℕ)))
    → AsksFor ws o
    → ((k : List ℕ) → value_ok (t.value_text k) ≡ true)
    → IsAnswer ws t rest (answer_to o t rest)
unfolding IsAnswer
answer_to-IsAnswer ws none t rest h hv = absurd h
answer_to-IsAnswer ws (some par) t rest h hv =
    let (doc, sent, read) = make_json-read_object par t hv in
    (
      doc,
      sent_answers_lem par t.shm_ok doc (make_json par t) rest sent h.0,
      read
          ∙ ap (λ ps. some ((codes "ACS_BTA", codes "true") ∷ ps))
              (pairs_of-named ws par t printed h),
    )

-- A request of a client from a socket, which has no GET that `stringscan` finds and is of words of the
-- grammar with one of the delimiters between them, with a zero byte behind what is received, where the
-- texts of the values have neither a comma nor a new line and 200 bytes at most: if the segment passes
-- check_shm_block, it is answered by a document, and the connection goes on with the next request; else
-- nothing is sent any more. Read line by line, the document is ACS_BTA and then the pairs of exactly
-- the groups that the request names, in the order of the groups.
pub handle-words :
    (d : ℕ) (ws : List (List ℕ)) (last behind : List ℕ) (t : Telescope)
    (rest : List (ReceivedBytes × Telescope))
    → is_delim d ≡ true
    → all_words ws ≡ true
    → all_word last ≡ true
    → stringscan (with_delims d ws ++ last) (codes "GET") ≡ none
    → ((k : List ℕ) → value_ok (t.value_text k) ≡ true)
    → IsAnswer
        (with_last ws last)
        t
        (handle rest)
        (handle ((record { bytes = with_delims d ws ++ last; behind = 0 ∷ behind }, t) ∷ rest))
unfolding handle
handle-words d ws last behind t rest hd h hl scan hv =
    answer_to-IsAnswer (with_last ws last) _ t (handle rest)
      (parce_incoming_buf-words d ws last behind hd h hl scan) hv
