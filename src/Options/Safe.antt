-- ===== src/Options/Safe.antt =====
-- p1rotator/parseargs.c: no command line leads out of the table of options.
use bta_utils.Prelude.{ℕ, ◌<◌, Bool, true, not, ◌&&◌, Option, none, some, List, [], ◌∷◌}
use bta_utils.Options.{MyOption}
use bta_utils.Options.Parse.{check_option, is_multi, has_no_cell}

-- An index, if there is one, lies below a bound.
abbrev BelowSome : ℕ → Option ℕ → Type 0
BelowSome n none = Unit
BelowSome n (some i) = i < n

-- No option that may be repeated calls a function.
abbrev pub has_cells : List MyOption → Bool
has_cells [] = true
has_cells (o ∷ os) = not (is_multi o.has_arg && has_no_cell o.argtype) && has_cells os

abbrev option_ok : MyOption → Bool
option_ok o = check_option o && not (is_multi o.has_arg && has_no_cell o.argtype)
