-- ===== src/Options/Help.antt =====
-- p1rotator/parseargs.c: the help, sorted and in columns. Its lines are shorter than their buffer of 255
-- bytes, for which the names are.
use bta_utils.Prelude.{
  ℕ, zero, suc, ◌+◌, ◌-◌, ◌≤◌, ◌≡◌, refl, ap, ◌∙◌, inl, inr, Bool, true, false, not, ◌&&◌, ◌||◌,
  Option, none, some, List, [], ◌∷◌, ◌++◌, length, length-append, get_elem?, ◌==◌, ltb, leb,
  if◌then◌else◌, codes, arith, replicate, Bool-cases, ℤ, pos, negsuc, sub_ℕ,
}
use bta_utils.Options.{HasArg, no_args, need_arg, opt_arg, mult_par, MyOption}

-- `!opts->flag && opts->val`
abbrev pub has_short : MyOption → Bool
has_short o = not o.flag && not (o.val == 0)

abbrev pub arg_text : HasArg → List ℕ
arg_text need_arg = codes "=arg"
arg_text opt_arg = codes "[=arg]"
arg_text _ = []

-- `buf`, of the length `p`.
unfoldable pub option_text : MyOption → List ℕ
option_text o =
    codes "  "
    ++ ((if has_short o then 45 ∷ o.val ∷ 44 ∷ 32 ∷ [] else [])
        ++ (45 ∷ 45 ∷ (o.name ++ arg_text o.has_arg)))

-- `max_opt_len`, before and with the 14 that are added.
unfoldable pub max_name : List MyOption → ℕ
max_name [] = 0
max_name (o ∷ os) =
    let rest = max_name os in if ltb rest (length o.name) then length o.name else rest

abbrev pub max_opt_len : List MyOption → ℕ
max_opt_len options = max_name options + 14

-- The line of an option; `none` where `assert(p < max_opt_len)` fails.
unfoldable pub help_line : ℕ → MyOption → Option (List ℕ)
help_line width o =
    if ltb (length (option_text o)) width
    then some (
        option_text o
        ++ (replicate (width + 1 - length (option_text o)) 32 ++ (o.help ++ codes "\n")))
    else none

abbrev pub line_before : Option (List ℕ) → Option (List ℕ) → Option (List ℕ)
line_before (some l) (some ls) = some (l ++ ls)
line_before _ _ = none

unfoldable pub help_lines : ℕ → List MyOption → Option (List ℕ)
help_lines width [] = some []
help_lines width (o ∷ os) = line_before (help_line width o) (help_lines width os)

-- The lines of `showhelp` for all options, in the order that `qsort` gives them.
unfoldable pub showhelp : (List MyOption → List MyOption) → List MyOption → Option (List ℕ)
showhelp qsort options = help_lines (max_opt_len options) (qsort options)

-- The sign of `strcmp`, and `argsort`.
unfoldable pub strcmp : List ℕ → List ℕ → ℤ
strcmp [] [] = pos 0
strcmp [] (b ∷ bs) = negsuc 0
strcmp (a ∷ s) [] = pos 1
strcmp (a ∷ s) (b ∷ bs) =
    let rest = strcmp s bs in if ltb a b then negsuc 0 else (if ltb b a then pos 1 else rest)

unfoldable pub argsort : MyOption → MyOption → ℤ
argsort o1 o2 =
    if has_short o1 && has_short o2
    then sub_ℕ o1.val o2.val
    else (if not (has_short o1) && not (has_short o2)
        then strcmp o1.name o2.name
        else (if not (has_short o2) then negsuc 0 else pos 1))

-- The options whose text is as wide as the column: those of the longest name that have a short name and
-- an argument that may be left out.
abbrev pub is_opt_arg : HasArg → Bool
is_opt_arg opt_arg = true
is_opt_arg _ = false

abbrev pub too_wide : List MyOption → MyOption → Bool
too_wide options o = has_short o && is_opt_arg o.has_arg && leb (max_name options) (length o.name)

length-option_text :
    (o : MyOption)
    → length (option_text o)
      ≡ 4 + (if has_short o then 4 else 0) + length o.name + length (arg_text o.has_arg)
unfolding option_text
length-option_text o = elim (Bool-cases (has_short o)) [
  | inl short ↦ rw short (omega (arith, length-append o.name (arg_text o.has_arg)))
  | inr long ↦ rw long (omega (arith, length-append o.name (arg_text o.has_arg)))
]

max_name-cons :
    (q : MyOption) (os : List MyOption)
    → (length q.name ≤ max_name (q ∷ os)) × (max_name os ≤ max_name (q ∷ os))
unfolding max_name
max_name-cons q os = ground arith

abbrev name_length : Option MyOption → ℕ
name_length none = 0
name_length (some o) = length o.name

name-max_name :
    (options : List MyOption) (i : ℕ) → name_length (get_elem? options i) ≤ max_name options
name-max_name [] i = omega arith
name-max_name (q ∷ os) zero = (max_name-cons q os).0
name-max_name (q ∷ os) (suc i) = omega (arith, name-max_name os i, max_name-cons q os)

negated_twice : (b : Bool) → not (not b) ≡ b
negated_twice b = ground arith

-- The width of a line, by the argument and the short name.
fits_of :
    (a : HasArg) (short : Bool) (l m : ℕ)
    → l ≤ m
    → ltb (4 + (if short then 4 else 0) + l + length (arg_text a)) (m + 14)
      ≡ not (short && is_opt_arg a && leb m l)
fits_of no_args true l m h = ground arith
fits_of need_arg true l m h = ground arith
fits_of opt_arg true l m h = ground arith
fits_of mult_par true l m h = ground arith
fits_of no_args false l m h = ground arith
fits_of need_arg false l m h = ground arith
fits_of opt_arg false l m h = ground arith
fits_of mult_par false l m h = ground arith

abbrev pub is_cut : Option (List ℕ) → Bool
is_cut none = true
is_cut (some s) = false

is_cut_if : (b : Bool) (s : List ℕ) → is_cut (if b then some s else none) ≡ not b
is_cut_if true s = refl
is_cut_if false s = refl

help_line-too_wide :
    (options : List MyOption) (o : MyOption)
    → length o.name ≤ max_name options
    → is_cut (help_line (max_opt_len options) o) ≡ too_wide options o
unfolding help_line
help_line-too_wide options o h =
    is_cut_if (ltb (length (option_text o)) (max_opt_len options)) _
    ∙ ap not (
        rw (length-option_text o)
          (fits_of o.has_arg (has_short o) (length o.name) (max_name options) h))
    ∙ negated_twice (too_wide options o)

abbrev pub any_wide : List MyOption → List MyOption → Bool
any_wide options [] = false
any_wide options (o ∷ os) = too_wide options o || any_wide options os

is_cut-line_before : (l ls : Option (List ℕ)) → is_cut (line_before l ls) ≡ (is_cut l || is_cut ls)
is_cut-line_before none ls = refl
is_cut-line_before (some l) none = refl
is_cut-line_before (some l) (some ls) = refl

help_lines-any_wide :
    (options os : List MyOption)
    → ((i : ℕ) → name_length (get_elem? os i) ≤ max_name options)
    → is_cut (help_lines (max_opt_len options) os) ≡ any_wide options os
unfolding help_lines
help_lines-any_wide options [] h = refl
help_lines-any_wide options (o ∷ os) h =
    is_cut-line_before (help_line (max_opt_len options) o) (help_lines (max_opt_len options) os)
    ∙ rw (help_line-too_wide options o (h 0), help_lines-any_wide options os (λ i. h (suc i))) refl

-- The help of all options is cut off at an assertion exactly where an option has a short name and an
-- argument that may be left out, and no name is longer than its own; `qsort` is only taken to give
-- options of the table.
pub showhelp-any_wide :
    (qsort : List MyOption → List MyOption) (options : List MyOption)
    → ((i : ℕ) → (j : ℕ) × (get_elem? (qsort options) i ≡ get_elem? options j))
    → is_cut (showhelp qsort options) ≡ any_wide options (qsort options)
unfolding showhelp
showhelp-any_wide qsort options h =
    help_lines-any_wide options (qsort options)
      (λ i. let (j, same) = h i in rw same (name-max_name options j))

-- The order that `argsort` tells.
abbrev pub at_most : ℤ → Bool
at_most (pos zero) = true
at_most (pos (suc n)) = false
at_most (negsuc n) = true

strcmp_total : (s t : List ℕ) → (at_most (strcmp s t) || at_most (strcmp t s)) ≡ true
unfolding strcmp
strcmp_total [] [] = refl
strcmp_total [] (b ∷ t) = refl
strcmp_total (a ∷ s) [] = refl
strcmp_total (a ∷ s) (b ∷ t) = ground (arith, strcmp_total s t)

strcmp_trans :
    (s t u : List ℕ)
    → at_most (strcmp s t) ≡ true
    → at_most (strcmp t u) ≡ true
    → at_most (strcmp s u) ≡ true
unfolding strcmp
strcmp_trans [] [] u h k = k
strcmp_trans [] (b ∷ t) [] h k = refl
strcmp_trans [] (b ∷ t) (c ∷ u) h k = refl
strcmp_trans (a ∷ s) [] u h k = ground arith
strcmp_trans (a ∷ s) (b ∷ t) [] h k = ground arith
strcmp_trans (a ∷ s) (b ∷ t) (c ∷ u) h k = ground (arith, strcmp_trans s t u)

argsort_total : (o p : MyOption) → (at_most (argsort o p) || at_most (argsort p o)) ≡ true
unfolding argsort
argsort_total o p = ground (arith, strcmp_total o.name p.name)

-- `argsort` orders the options: of two options one comes before the other or they are equal, and the
-- order is transitive, whether the options have short names or not.
pub argsort_order :
    (o p q : MyOption)
    → ((at_most (argsort o p) || at_most (argsort p o)) ≡ true)
      × (at_most (argsort o p) ≡ true → at_most (argsort p q) ≡ true → at_most (argsort o q) ≡ true)
unfolding argsort
argsort_order o p q = (argsort_total o p, ground (arith, strcmp_trans o.name p.name q.name))
