-- ===== src/Json/Request.antt =====
-- jsonbta/bta_json.c: what the requests ask for.
use bta_utils.Prelude.Tokens
use bta_utils.Prelude.Tokens.{with_delims, with_last}
use bta_utils.Prelude.{
  and_parts, ℕ, ◌≡◌, refl, ◌∙◌, Bool, true, false, not, ◌&&◌, ◌||◌, Option, none, some, List, [],
  ◌∷◌, ◌++◌, append_assoc, append-nil, codes, ◌==◌, arith,
}
use bta_utils.Json.{
  c_text, is_delim, stringscan, Group, BtaPars, no_pars, check_words, parce_incoming_buf,
}
use bta_utils.Json.Words.{is_end, all_word, all_words, names, words_lem, check_words-has}

-- The bytes of the list are not zero.
abbrev no_zero : List ℕ → Bool
no_zero [] = true
no_zero (c ∷ s) = not (c == 0) && no_zero s

c_text-append : (s t : List ℕ) → no_zero s ≡ true → c_text (s ++ t) ≡ s ++ c_text t
c_text-append [] t h = refl
c_text-append (c ∷ s) t h = ground (arith, c_text-append s t)

no_zero-append : (s t : List ℕ) → no_zero s ≡ true → no_zero t ≡ true → no_zero (s ++ t) ≡ true
no_zero-append [] t h k = k
no_zero-append (c ∷ s) t h k = ground (arith, no_zero-append s t)

no_zero-word : (w : List ℕ) → all_word w ≡ true → no_zero w ≡ true
no_zero-word [] h = refl
no_zero-word (c ∷ w) h = ground (arith, no_zero-word w)

is_word-all_word : (w : List ℕ) → Tokens.is_word is_end w ≡ true → all_word w ≡ true
is_word-all_word [] h = refl
is_word-all_word (c ∷ w) h = h

delim-no_zero : (d : ℕ) (s : List ℕ) → is_delim d ≡ true → no_zero s ≡ true → no_zero (d ∷ s) ≡ true
delim-no_zero d s hd h = ground arith

no_zero-delims :
    (d : ℕ) (ws : List (List ℕ)) (last : List ℕ)
    → is_delim d ≡ true
    → all_words ws ≡ true
    → all_word last ≡ true
    → no_zero (with_delims d ws ++ last) ≡ true
no_zero-delims d [] last hd h hl = no_zero-word last hl
no_zero-delims d (w ∷ ws) last hd h hl =
    let (hw, hs) = and_parts (Tokens.is_word is_end w) (all_words ws) h in
    rw (append_assoc w (d ∷ with_delims d ws) last) (
      no_zero-append w (d ∷ (with_delims d ws ++ last)) (no_zero-word w (is_word-all_word w hw))
        (delim-no_zero d (with_delims d ws ++ last) hd (no_zero-delims d ws last hd hs hl)))

-- The groups that are asked for are those that the words name.
abbrev pub AsksFor : List (List ℕ) → Option BtaPars → Type 0
AsksFor ws none = ⊥
AsksFor ws (some par) = (par.all ≡ false) × ((g : Group) → par.has g ≡ names ws g)

no_pars_names : (b : Bool) → (b || false) ≡ b
no_pars_names b = ground arith

check_words-AsksFor : (ws : List (List ℕ)) → AsksFor ws (some (check_words ws no_pars))
check_words-AsksFor ws = (
  (check_words-has ws no_pars Group.mtime).0,
  λ g. (check_words-has ws no_pars g).1 ∙ no_pars_names (names ws g),
)

AsksFor-some :
    (ws : List (List ℕ)) (o : Option BtaPars) → o ≡ some (check_words ws no_pars) → AsksFor ws o
AsksFor-some ws o e = rw e (check_words-AsksFor ws)

-- A request from a socket, of words with any of the delimiters between them, the end of the string
-- behind it and whatever else in the buffer: where it is none of a browser, it asks for the groups that
-- its words name, in letters of any case, and for no other.
pub parce_incoming_buf-words :
    (d : ℕ) (ws : List (List ℕ)) (last behind : List ℕ)
    → is_delim d ≡ true
    → all_words ws ≡ true
    → all_word last ≡ true
    → stringscan (with_delims d ws ++ last) (codes "GET") ≡ none
    → AsksFor (with_last ws last) (parce_incoming_buf ((with_delims d ws ++ last) ++ (0 ∷ behind)))
unfolding parce_incoming_buf
parce_incoming_buf-words d ws last behind hd h hl scan =
    let text = with_delims d ws ++ last in
    let str : c_text (text ++ (0 ∷ behind)) ≡ text =
      c_text-append text (0 ∷ behind) (no_zero-delims d ws last hd h hl) ∙ append-nil text in
    AsksFor-some (with_last ws last) _ (rw (str, scan, words_lem d ws last hd h hl) refl)

-- The bytes of the list are no spaces.
abbrev no_space : List ℕ → Bool
no_space [] = true
no_space (c ∷ s) = not (c == 32) && no_space s
