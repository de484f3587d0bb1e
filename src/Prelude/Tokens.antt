-- ===== src/Prelude/Tokens.antt =====
-- `strtok`: the words of a text between delimiters.
use Prim.Native.Nat.{ℕ}
use mathlib.Core.Path.{◌≡◌, refl, ap, ◌∙◌}
use mathlib.Core.Bool.{Bool, true, false, not, ◌&&◌}
use mathlib.Core.List.{List, [], ◌∷◌, ◌++◌, append_assoc}
use native.Mathlib.Omega.{arith}
use bta_utils.Prelude.Tests.{and_parts, if◌then◌else◌}

-- A character before a text whose words are known; the text starts with a word or not.
abbrev pub before_words : ℕ → Bool → List (List ℕ) → List (List ℕ)
before_words c false ws = (c ∷ []) ∷ ws
before_words c true [] = (c ∷ []) ∷ []
before_words c true (w ∷ ws) = (c ∷ w) ∷ ws

module _ (is_delim : ℕ → Bool) where
  abbrev pub starts_word : List ℕ → Bool
  starts_word [] = false
  starts_word (c ∷ s) = not (is_delim c)

  unfoldable pub strtok : List ℕ → List (List ℕ)
  strtok [] = []
  strtok (c ∷ s) = if is_delim c then strtok s else before_words c (starts_word s) (strtok s)

  -- The bytes of the list are no delimiters.
  abbrev pub no_delims : List ℕ → Bool
  no_delims [] = true
  no_delims (c ∷ s) = not (is_delim c) && no_delims s

  abbrev pub is_word : List ℕ → Bool
  is_word [] = false
  is_word (c ∷ s) = no_delims (c ∷ s)

  abbrev pub all_words : List (List ℕ) → Bool
  all_words [] = true
  all_words (w ∷ ws) = is_word w && all_words ws

-- Words, each with a delimiter behind it.
abbrev pub with_delims : ℕ → List (List ℕ) → List ℕ
with_delims d [] = []
with_delims d (w ∷ ws) = w ++ (d ∷ with_delims d ws)

-- The words of a text whose last has no delimiter behind it.
abbrev pub with_last : List (List ℕ) → List ℕ → List (List ℕ)
with_last [] [] = []
with_last [] (c ∷ w) = (c ∷ w) ∷ []
with_last (w ∷ ws) last = w ∷ with_last ws last

eq_false : (a : Bool) → not a ≡ true → a ≡ false
eq_false a h = ground arith

module _ (is_delim : ℕ → Bool) where
  strtok-delim :
      (d : ℕ) (s : List ℕ) → is_delim d ≡ true → strtok is_delim (d ∷ s) ≡ strtok is_delim s
  unfolding strtok
  strtok-delim d s h = rw h refl

  strtok-char :
      (c : ℕ) (s : List ℕ)
      → is_delim c ≡ false
      → strtok is_delim (c ∷ s) ≡ before_words c (starts_word is_delim s) (strtok is_delim s)
  unfolding strtok
  strtok-char c s h = rw h refl

  first_char :
      (c : ℕ) (s : List ℕ)
      → no_delims is_delim (c ∷ s) ≡ true
      → (is_delim c ≡ false) × (no_delims is_delim s ≡ true)
  first_char c s h =
      let (hc, hs) = and_parts (not (is_delim c)) (no_delims is_delim s) h in
      (eq_false (is_delim c) hc, hs)

  -- A word and what follows its delimiter.
  strtok-word :
      (c d : ℕ) (w s : List ℕ)
      → no_delims is_delim (c ∷ w) ≡ true
      → is_delim d ≡ true
      → strtok is_delim (c ∷ (w ++ (d ∷ s))) ≡ (c ∷ w) ∷ strtok is_delim s
  strtok-word c d [] s hw hd =
      let (nc, _) = first_char c [] hw in
      rw (strtok-char c (d ∷ s) nc, hd, strtok-delim d s hd) refl
  strtok-word c d (x ∷ w) s hw hd =
      let (nc, hx) = first_char c (x ∷ w) hw in
      let (nx, _) = first_char x w hx in
      rw (strtok-char c (x ∷ (w ++ (d ∷ s))) nc, nx, strtok-word x d w s hx hd) refl

  strtok-last :
      (c : ℕ) (w : List ℕ)
      → no_delims is_delim (c ∷ w) ≡ true
      → strtok is_delim (c ∷ w) ≡ (c ∷ w) ∷ []
  strtok-last c [] h =
      let (nc, _) = first_char c [] h in rw (strtok-char c [] nc) (unfold strtok in refl)
  strtok-last c (x ∷ w) h =
      let (nc, hx) = first_char c (x ∷ w) h in
      let (nx, _) = first_char x w hx in rw (strtok-char c (x ∷ w) nc, nx, strtok-last x w hx) refl

  -- `strtok` finds the words of a text.
  pub strtok-words :
      (d : ℕ) (ws : List (List ℕ)) (last : List ℕ)
      → is_delim d ≡ true
      → all_words is_delim ws ≡ true
      → no_delims is_delim last ≡ true
      → strtok is_delim (with_delims d ws ++ last) ≡ with_last ws last
  strtok-words d [] [] hd h hl = unfold strtok in refl
  strtok-words d [] (c ∷ w) hd h hl = strtok-last c w hl
  strtok-words d ([] ∷ ws) last hd h hl = ground arith
  strtok-words d ((c ∷ w) ∷ ws) last hd h hl =
      let (hw, hs) = and_parts (no_delims is_delim (c ∷ w)) (all_words is_delim ws) h in
      rw (append_assoc w (d ∷ with_delims d ws) last) (
        strtok-word c d w (with_delims d ws ++ last) hw hd
        ∙ ap (λ r. (c ∷ w) ∷ r) (strtok-words d ws last hd hs hl))

-- Words between more delimiters are words between fewer.
module _ (p q : ℕ → Bool) (fewer : (c : ℕ) → q c ≡ false → p c ≡ false) where
  pub no_delims_mono : (s : List ℕ) → no_delims q s ≡ true → no_delims p s ≡ true
  no_delims_mono [] h = refl
  no_delims_mono (c ∷ s) h =
      let (hc, hs) = and_parts (not (q c)) (no_delims q s) h in
      rw (fewer c (eq_false (q c) hc), no_delims_mono s hs) refl

  pub all_words_mono : (ws : List (List ℕ)) → all_words q ws ≡ true → all_words p ws ≡ true
  all_words_mono [] h = refl
  all_words_mono ([] ∷ ws) h = ground arith
  all_words_mono ((c ∷ w) ∷ ws) h =
      let (hw, hs) = and_parts (no_delims q (c ∷ w)) (all_words q ws) h in
      rw (no_delims_mono (c ∷ w) hw, all_words_mono ws hs) refl
