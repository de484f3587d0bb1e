-- ===== src/Options/Settings.antt =====
-- p1rotator/parseargs.c: the texts of suboptions, "name=value:name:...", as a user writes them.
use bta_utils.Prelude.{
  and_parts, false_ne, ℕ, ◌≡◌, refl, ap, Bool, true, false, not, ◌&&◌, ◌||◌, Option, none, some,
  List, [], ◌∷◌, ◌++◌, map, ◌==◌, arith,
}
use bta_utils.Prelude.Tokens.{
  strtok, with_delims, with_last, strtok-words, no_delims, no_delims_mono,
}
use bta_utils.Prelude.Tokens
use bta_utils.Options.Subopts.{is_sub_delim, split_eq}

-- A setting as a user writes it: a name, and a value or none.
pub record Setting : Type 0 where
  pub key : List ℕ
  pub value : Option (List ℕ)

abbrev pub setting_text : Setting → List ℕ
setting_text s = elim s.value [ none ↦ s.key | some v ↦ s.key ++ (61 ∷ v) ]

-- The name has no sign of the grammar and the value no delimiter; neither is empty.
abbrev pub is_mark : ℕ → Bool
is_mark c = c == 61 || is_sub_delim c

abbrev pub value_ok : Option (List ℕ) → Bool
value_ok none = true
value_ok (some v) = Tokens.is_word is_sub_delim v

abbrev pub settings_ok : List Setting → Bool
settings_ok [] = true
settings_ok (s ∷ ss) = (Tokens.is_word is_mark s.key && value_ok s.value) && settings_ok ss

not_mark :
    (c : ℕ) (b : Bool)
    → (not (is_mark c) && b) ≡ true
    → ((c == 61) ≡ false) × ((not (is_sub_delim c)) ≡ true) × (b ≡ true)
not_mark c b h = ground arith

split_eq-none : (k : List ℕ) → no_delims is_mark k ≡ true → split_eq k ≡ (k, none)
split_eq-none [] h = refl
split_eq-none (c ∷ k) h =
    let (hc, _, hk) = not_mark c (no_delims is_mark k) h in rw (hc, split_eq-none k hk) refl

split_eq-some : (k v : List ℕ) → no_delims is_mark k ≡ true → split_eq (k ++ (61 ∷ v)) ≡ (k, some v)
split_eq-some [] v h = refl
split_eq-some (c ∷ k) v h =
    let (hc, _, hk) = not_mark c (no_delims is_mark k) h in rw (hc, split_eq-some k v hk) refl

pub word-no_delims : (p : ℕ → Bool) (k : List ℕ) → Tokens.is_word p k ≡ true → no_delims p k ≡ true
word-no_delims p [] h = refl
word-no_delims p (c ∷ k) h = h

no_delims-sub :
    (k v : List ℕ)
    → no_delims is_mark k ≡ true
    → no_delims is_sub_delim v ≡ true
    → no_delims is_sub_delim (k ++ v) ≡ true
no_delims-sub [] v h hv = hv
no_delims-sub (c ∷ k) v h hv =
    let (_, hd, hk) = not_mark c (no_delims is_mark k) h in rw (hd, no_delims-sub k v hk hv) refl

mark-delim : (c : ℕ) → is_mark c ≡ false → is_sub_delim c ≡ false
mark-delim c h = ground arith

-- A setting is one word, that is split into its name and its value.
pub setting-word :
    (k : List ℕ) (v : Option (List ℕ))
    → Tokens.is_word is_mark k ≡ true
    → value_ok v ≡ true
    → Tokens.is_word is_sub_delim (setting_text (record { key = k; value = v })) ≡ true
setting-word [] v hk hv = absurd (false_ne hk)
setting-word (c ∷ k) none hk hv = no_delims_mono is_sub_delim is_mark mark-delim (c ∷ k) hk
setting-word (c ∷ k) (some v) hk hv =
    no_delims-sub (c ∷ k) (61 ∷ v) hk (word-no_delims is_sub_delim v hv)

pub setting-split :
    (k : List ℕ) (v : Option (List ℕ))
    → Tokens.is_word is_mark k ≡ true
    → split_eq (setting_text (record { key = k; value = v })) ≡ (k, v)
setting-split k none hk = split_eq-none k (word-no_delims is_mark k hk)
setting-split k (some v) hk = split_eq-some k v (word-no_delims is_mark k hk)

pub settings-words :
    (ss : List Setting)
    → settings_ok ss ≡ true
    → Tokens.all_words is_sub_delim (map setting_text ss) ≡ true
settings-words [] h = refl
settings-words (s ∷ ss) h =
    let (h1, hs) =
      and_parts (Tokens.is_word is_mark s.key && value_ok s.value) (settings_ok ss) h in
    let (hk, hv) = and_parts (Tokens.is_word is_mark s.key) (value_ok s.value) h1 in
    rw (setting-word s.key s.value hk hv, settings-words ss hs) refl

pub map-append :
    (ss : List Setting) (s : Setting)
    → map setting_text (ss ++ (s ∷ [])) ≡ map setting_text ss ++ (setting_text s ∷ [])
map-append [] s = refl
map-append (t ∷ ss) s = ap (λ l. setting_text t ∷ l) (map-append ss s)

pub with_last-word :
    (p : ℕ → Bool) (ws : List (List ℕ)) (w : List ℕ)
    → Tokens.is_word p w ≡ true
    → with_last ws w ≡ ws ++ (w ∷ [])
with_last-word p [] [] h = absurd (false_ne h)
with_last-word p [] (c ∷ w) h = refl
with_last-word p (x ∷ ws) w h = ap (λ l. x ∷ l) (with_last-word p ws w h)

pub settings_ok-append :
    (ss ts : List Setting)
    → settings_ok (ss ++ ts) ≡ true
    → (settings_ok ss ≡ true) × (settings_ok ts ≡ true)
settings_ok-append [] ts h = (refl, h)
settings_ok-append (s ∷ ss) ts h = ground (arith, settings_ok-append ss ts)
