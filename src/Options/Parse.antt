-- ===== src/Options/Parse.antt =====
-- p1rotator/parseargs.c: the loop over what `getopt_long` gives.
use bta_utils.Prelude.{
  ℕ, suc, ◌<◌, ◌≡◌, Bool, true, false, not, ◌&&◌, ◌||◌, Option, none, some, List, [], ◌∷◌, length,
  get_elem?, ◌==◌, ltb, if◌then◌else◌, codes,
}
use bta_utils.Options.{
  ArgType, arg_none, HasArg, no_args, need_arg, mult_par, MyOption, Libs, Store, Result, done,
  refused, aborted, set_arg,
}
use bta_utils.Options.Help.{is_cut, showhelp}

-- What a call of `getopt_long` gives: its value, `optopt`, the index it writes and `optarg`.
pub record OptEvent : Type 0 where
  pub opt : ℕ
  pub optopt : ℕ
  pub oindex : ℕ
  pub optarg : Option (List ℕ)

-- The assertions on an option.
abbrev pub is_none : ArgType → Bool
is_none arg_none = true
is_none _ = false

abbrev pub has_pointer : Option ℕ → Bool
has_pointer none = false
has_pointer (some p) = true

abbrev pub takes_arg : HasArg → Bool
takes_arg no_args = false
takes_arg _ = true

abbrev pub check_option : MyOption → Bool
check_option o =
    (not (takes_arg o.has_arg) || (not (is_none o.argtype) && has_pointer o.argptr))
    && (is_none o.argtype || has_pointer o.argptr)

abbrev pub check_options : List MyOption → Bool
check_options [] = true
check_options (o ∷ os) = check_option o && check_options os

-- `get_optind`; `none` where the help is shown.
abbrev pub next_index : Option ℕ → Option ℕ
next_index none = none
next_index (some i) = some (suc i)

unfoldable pub get_optind : ℕ → List MyOption → Option ℕ
get_optind opt [] = none
get_optind opt (o ∷ os) = if o.val == opt then some 0 else next_index (get_optind opt os)

-- The argument is necessary.
abbrev pub wants_arg : HasArg → Bool
wants_arg need_arg = true
wants_arg mult_par = true
wants_arg _ = false

abbrev pub is_multi : HasArg → Bool
is_multi mult_par = true
is_multi _ = false

-- The types that `get_aptr` has no cells for.
abbrev pub has_no_cell : ArgType → Bool
has_no_cell arg_none = true
has_no_cell ArgType.arg_function = true
has_no_cell _ = false

abbrev pub no_arg : Option (List ℕ) → Bool
no_arg none = true
no_arg (some s) = false

abbrev pub arg_of : Option (List ℕ) → List ℕ
arg_of none = codes "1"
arg_of (some s) = s

module _ (libs : Libs) where
  -- A round's outcome: it goes on; the help is shown, for all or for the option of an index, and the
  -- process exits; it exits with a message; it ends at an assertion; or it reads behind `options`.
  pub data ParseOutcome : Type 0 where
    goes_on : Store libs → ParseOutcome
    shows_help : Option ℕ → ParseOutcome
    exits aborts reads_behind : ParseOutcome

  abbrev pub of_result : ℕ → Result libs → ParseOutcome
  of_result oind (done st) = goes_on st
  of_result oind (refused st) = shows_help (some oind)
  of_result oind aborted = aborts

  -- A round from the option found.
  unfoldable pub with_option : ℕ → Option MyOption → Option (List ℕ) → Store libs → ParseOutcome
  with_option oind none optarg st = reads_behind
  with_option oind (some o) optarg st =
      if wants_arg o.has_arg && no_arg optarg
      then shows_help (some oind)
      else (if is_multi o.has_arg && has_no_cell o.argtype
          then exits
          else of_result oind
              (set_arg libs o.argtype o.argptr (is_multi o.has_arg) (arg_of optarg) st))

  -- For '?', an option that wants an argument has none.
  abbrev pub lacks_arg : Option MyOption → Bool
  lacks_arg none = false
  lacks_arg (some o) = wants_arg o.has_arg

  abbrev pub at_error : List MyOption → OptEvent → Option ℕ → Store libs → ParseOutcome
  at_error options e none st = shows_help none
  at_error options e (some oind) st =
      if lacks_arg (get_elem? options oind)
      then shows_help (some oind)
      else with_option oind (get_elem? options oind) e.optarg st

  abbrev pub at_index : List MyOption → OptEvent → Option ℕ → Store libs → ParseOutcome
  at_index options e none st = shows_help none
  at_index options e (some oind) st = with_option oind (get_elem? options oind) e.optarg st

  unfoldable pub parse_round : List MyOption → OptEvent → Store libs → ParseOutcome
  parse_round options e st =
      if e.opt == 63
      then at_error options e (get_optind e.optopt options) st
      else (if e.opt == 0 || ltb 0 e.oindex
          then at_index options e (some e.oindex) st
          else at_index options e (get_optind e.opt options) st)

  abbrev pub next_round : ParseOutcome → (Store libs → ParseOutcome) → ParseOutcome
  next_round (goes_on st) f = f st
  next_round (shows_help i) f = shows_help i
  next_round exits f = exits
  next_round aborts f = aborts
  next_round reads_behind f = reads_behind

  unfoldable pub parse_loop : List MyOption → List OptEvent → Store libs → ParseOutcome
  parse_loop options [] st = goes_on st
  parse_loop options (e ∷ es) st =
      next_round (parse_round options e st) (λ st'. parse_loop options es st')

  unfoldable pub parseargs : List MyOption → List OptEvent → Store libs → ParseOutcome
  parseargs options es st =
      if ltb 0 (length options) && check_options options then parse_loop options es st else aborts

  -- The options are gone through, or the help is shown, whole for all, or for one of them.
  abbrev pub IsFine : (List MyOption → List MyOption) → List MyOption → ParseOutcome → Type 0
  IsFine qsort options (goes_on st) = Unit
  IsFine qsort options (shows_help none) = is_cut (showhelp qsort options) ≡ false
  IsFine qsort options (shows_help (some i)) = i < length options
  IsFine qsort options exits = ⊥
  IsFine qsort options aborts = ⊥
  IsFine qsort options reads_behind = ⊥

-- The indices that are written lie in the table.
abbrev pub all_indices : List MyOption → List OptEvent → Bool
all_indices options [] = true
all_indices options (e ∷ es) = ltb e.oindex (length options) && all_indices options es
