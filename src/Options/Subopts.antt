-- ===== src/Options/Subopts.antt =====
-- p1rotator/parseargs.c: the suboptions, "name=value:name:...".
use bta_utils.Prelude.{
  ℕ, Bool, true, false, ◌&&◌, ◌||◌, Option, none, some, List, [], ◌∷◌, ◌==◌, if◌then◌else◌, codes,
  str_case_eq,
}
use bta_utils.Prelude.Tokens.{strtok}
use bta_utils.Options.{
  ArgType, HasArg, need_arg, Libs, Store, Result, done, refused, aborted, set_arg, go_on,
}

-- `mysuboption`
pub record MySuboption : Type 0 where
  pub name : List ℕ
  pub has_arg : HasArg
  pub argtype : ArgType
  pub argptr : Option ℕ

abbrev pub needs_arg : HasArg → Bool
needs_arg need_arg = true
needs_arg _ = false

-- `findsubopt`
unfoldable pub findsubopt : List ℕ → List MySuboption → Option MySuboption
findsubopt par [] = none
findsubopt par (o ∷ so) = if str_case_eq par o.name then some o else findsubopt par so

-- ":,"
abbrev pub is_sub_delim : ℕ → Bool
is_sub_delim c = c == 58 || c == 44

-- `strchr(tok, '=')`: the name and the value behind it.
abbrev pub add_char : ℕ → List ℕ × Option (List ℕ) → List ℕ × Option (List ℕ)
add_char c (s, v) = (c ∷ s, v)

abbrev pub split_eq : List ℕ → List ℕ × Option (List ℕ)
split_eq [] = ([], none)
split_eq (c ∷ s) = if c == 61 then ([], some s) else add_char c (split_eq s)

-- `val` and `noarg`
abbrev pub val_of : Option (List ℕ) → List ℕ × Bool
val_of none = (codes "1", true)
val_of (some []) = (codes "1", true)
val_of (some (c ∷ s)) = (c ∷ s, false)

module _ (libs : Libs) where
  -- A suboption with its value.
  abbrev pub set_subopt : Option MySuboption → List ℕ × Bool → Store libs → Result libs
  set_subopt none v st = refused st
  set_subopt (some o) (val, noarg) st =
      if noarg && needs_arg o.has_arg
      then refused st
      else set_arg libs o.argtype o.argptr false val st

  abbrev pub subopt : List MySuboption → List ℕ × Option (List ℕ) → Store libs → Result libs
  subopt opt (tok, v) st = set_subopt (findsubopt tok opt) (val_of v) st

  -- The rounds over the words: they go on where one is set.
  unfoldable pub subopt_loop : List MySuboption → List (List ℕ) → Store libs → Result libs
  subopt_loop opt [] st = done st
  subopt_loop opt (tok ∷ toks) st =
      go_on libs (subopt opt (split_eq tok) st) (λ st'. subopt_loop opt toks st')

  -- `get_suboption`; a text without a word gives `strchr` a NULL pointer.
  abbrev pub from_words : List MySuboption → List (List ℕ) → Store libs → Result libs
  from_words opt [] st = aborted
  from_words opt (tok ∷ toks) st = subopt_loop opt (tok ∷ toks) st

  unfoldable pub get_suboption : List ℕ → List MySuboption → Store libs → Result libs
  get_suboption str opt st = from_words opt (strtok is_sub_delim str) st
