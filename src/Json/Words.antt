-- ===== src/Json/Words.antt =====
-- jsonbta/bta_json.c: the words of a request.
use bta_utils.Prelude.Tokens.{
  strtok, no_delims, with_delims, with_last, strtok-words, all_words_mono, no_delims_mono,
}
use bta_utils.Prelude.{
  to_lower, str_case_eq, ℕ, ◌≡◌, refl, sym, ap, ◌∙◌, Bool, true, false, ◌||◌, Option, none, some,
  List, [], ◌∷◌, ◌++◌, map, ◌==◌, str_eq→eq, Bool-cases, arith, inl, inr, get_or, ==_iff,
}
use bta_utils.Prelude.Tokens
use bta_utils.Json.{
  is_delim, Group, mtime, sidtime, telmode, telfocus, target, p2mode, eqcoor, horcoor, valsens,
  diff, vel, corr, meteo, name_of, same_group, group_index, find_group, checked, mark, BtaPars,
  check_words,
}
use bta_utils.Json.Print.{printed}

-- What ends a word: a delimiter, or the end of a string.
abbrev pub is_end : ℕ → Bool
is_end c = is_delim c || c == 0

-- The bytes of the list are those of a word.
abbrev pub all_word : List ℕ → Bool
all_word = no_delims is_end

abbrev pub all_words : List (List ℕ) → Bool
all_words = Tokens.all_words is_end

end-delim : (c : ℕ) → is_end c ≡ false → is_delim c ≡ false
end-delim c h = ground arith

-- `strtok` finds the words of a request.
pub words_lem :
    (d : ℕ) (ws : List (List ℕ)) (last : List ℕ)
    → is_delim d ≡ true
    → all_words ws ≡ true
    → all_word last ≡ true
    → strtok is_delim (with_delims d ws ++ last) ≡ with_last ws last
words_lem d ws last hd h hl =
    strtok-words is_delim d ws last hd (all_words_mono is_delim is_end end-delim ws h)
      (no_delims_mono is_delim is_end end-delim last hl)

-- One of the words is the name of the group, in letters of any case.
abbrev pub names : List (List ℕ) → Group → Bool
names [] g = false
names (w ∷ ws) g = str_case_eq w (name_of g) || names ws g

same_group_index : (g : Group) → get_or printed (group_index g) mtime ≡ g
same_group_index mtime = refl
same_group_index sidtime = refl
same_group_index telmode = refl
same_group_index telfocus = refl
same_group_index target = refl
same_group_index p2mode = refl
same_group_index eqcoor = refl
same_group_index horcoor = refl
same_group_index valsens = refl
same_group_index diff = refl
same_group_index vel = refl
same_group_index corr = refl
same_group_index meteo = refl

same_group→eq : (g h : Group) → same_group g h ≡ true → g ≡ h
same_group→eq g h e =
    let i : group_index g ≡ group_index h = (==_iff (group_index g) (group_index h)).0 e in
    sym (same_group_index g) ∙ ap (λ n. get_or printed n mtime) i ∙ same_group_index h

same_group_refl : (g : Group) → same_group g g ≡ true
same_group_refl mtime = refl
same_group_refl sidtime = refl
same_group_refl telmode = refl
same_group_refl telfocus = refl
same_group_refl target = refl
same_group_refl p2mode = refl
same_group_refl eqcoor = refl
same_group_refl horcoor = refl
same_group_refl valsens = refl
same_group_refl diff = refl
same_group_refl vel = refl
same_group_refl corr = refl
same_group_refl meteo = refl

find_group-lower :
    (w : List ℕ) (g : Group)
    → map to_lower w ≡ map to_lower (name_of g)
    → find_group w checked ≡ some g
unfolding find_group
find_group-lower w mtime h = rw h refl
find_group-lower w sidtime h = rw h refl
find_group-lower w telmode h = rw h refl
find_group-lower w telfocus h = rw h refl
find_group-lower w target h = rw h refl
find_group-lower w p2mode h = rw h refl
find_group-lower w eqcoor h = rw h refl
find_group-lower w horcoor h = rw h refl
find_group-lower w valsens h = rw h refl
find_group-lower w diff h = rw h refl
find_group-lower w vel h = rw h refl
find_group-lower w corr h = rw h refl
find_group-lower w meteo h = rw h refl

abbrev named : Option Group → Group → Bool
named none g = false
named (some q) g = same_group q g

find_group-named :
    (w : List ℕ) (gs : List Group) (g : Group)
    → named (find_group w gs) g ≡ true
    → str_case_eq w (name_of g) ≡ true
unfolding find_group
find_group-named w [] g h = ground arith
find_group-named w (q ∷ gs) g h = elim (Bool-cases (str_case_eq w (name_of q))) [
  | inl same ↦
      let found : find_group w (q ∷ gs) ≡ some q = rw same refl in
      let at : named (some q) g ≡ true = sym (ap (λ o. named o g) found) ∙ h in
      ap (λ x. str_case_eq w (name_of x)) (sym (same_group→eq q g at)) ∙ same
  | inr differs ↦
      let next : find_group w (q ∷ gs) ≡ find_group w gs = rw differs refl in
      find_group-named w gs g (sym (ap (λ o. named o g) next) ∙ h)
]

true_ne : ¬ (true ≡ false)
true_ne h = ground arith

-- A word names the group that is found for it, and no other.
find_group_lem :
    (w : List ℕ) (g : Group) → named (find_group w checked) g ≡ str_case_eq w (name_of g)
find_group_lem w g = elim (Bool-cases (str_case_eq w (name_of g))) [
  | inl same ↦
      rw
        (
          find_group-lower w g (str_eq→eq (map to_lower w) (map to_lower (name_of g)) same),
          same_group_refl g,
          same,
        )
        refl
  | inr differs ↦ elim (Bool-cases (named (find_group w checked) g)) [
    | inl on ↦ absurd (true_ne (sym (find_group-named w checked g on) ∙ differs))
    | inr off ↦ off ∙ sym differs
  ]
]

mark-has :
    (o : Option Group) (par : BtaPars) (g : Group)
    → ((mark o par).all ≡ par.all) × ((mark o par).has g ≡ (named o g || par.has g))
mark-has none par g = (refl, refl)
mark-has (some q) par g = ground arith

or_swap : (a b c : Bool) → (b || (a || c)) ≡ ((a || b) || c)
or_swap a b c = ground arith

-- After the words of a request the groups they name are marked, and no other is new.
pub check_words-has :
    (ws : List (List ℕ)) (par : BtaPars) (g : Group)
    → ((check_words ws par).all ≡ par.all)
      × ((check_words ws par).has g ≡ (names ws g || par.has g))
unfolding check_words
check_words-has [] par g = (refl, refl)
check_words-has (w ∷ ws) par g =
    let (rest_all, rest_has) = check_words-has ws (mark (find_group w checked) par) g in
    let (mark_all, mark_has) = mark-has (find_group w checked) par g in
    (
      rest_all ∙ mark_all,
      rest_has
          ∙ rw (mark_has, find_group_lem w g)
              (or_swap (str_case_eq w (name_of g)) (names ws g) (par.has g)),
    )
