-- ===== src/Options/Tests.antt =====
-- Runs of the options, and their theorems at concrete inputs.
use bta_utils.Prelude.{
  if◌then◌else◌, ℕ, ◌≡◌, refl, true, false, Option, none, some, List, [], ◌∷◌, codes, pos, span_dec,
  value_from,
}
use bta_utils.Options.{ArgType, HasArg, MyOption, Libs, int_value, Store}
use bta_utils.Options.Subopts.{MySuboption}
use bta_utils.Options.Settings.{Setting}
use bta_utils.Options.Runs.{Runs}
use bta_utils.Options.Parse.{OptEvent}
use bta_utils.Options.Help.{max_name, any_wide, argsort, at_most}

-- Numbers of decimal digits.
abbrev libs : Libs
libs = record {
  Double = ℕ;
  strtoll = λ s. let (ds, rest) = span_dec s in (pos (value_from 10 0 ds), rest);
  strtod = λ s. let (ds, rest) = span_dec s in (value_from 10 0 ds, rest);
  to_float = λ d. d;
  call = λ p s. true;
}

abbrev empty_store : Store libs
empty_store p = int_value (pos 0) ∷ []

abbrev gain : MySuboption
gain = record {
  name = codes "gain";
  has_arg = HasArg.need_arg;
  argtype = ArgType.arg_int;
  argptr = some 1;
}

abbrev flip : MySuboption
flip = record {
  name = codes "flip";
  has_arg = HasArg.no_args;
  argtype = ArgType.arg_none;
  argptr = some 2;
}

abbrev gain_set : Setting
gain_set = record { key = codes "GAIN"; value = some (codes "12") }

abbrev flip_set : Setting
flip_set = record { key = codes "flip"; value = none }

abbrev option : List ℕ → HasArg → ℕ → ArgType → Option ℕ → MyOption
option n a v t p = record {
  name = n;
  has_arg = a;
  flag = false;
  val = v;
  argtype = t;
  argptr = p;
  help = codes "text";
}

abbrev table : List MyOption
table =
    option (codes "help") HasArg.no_args 104 ArgType.arg_none none
    ∷ option (codes "verbose") HasArg.opt_arg 118 ArgType.arg_int (some 3)
    ∷ option (codes "portnumber") HasArg.mult_par 0 ArgType.arg_int (some 4)
    ∷ []

abbrev line : List OptEvent
line =
    record { opt = 118; optopt = 0; oindex = 0; optarg = none }
    ∷ record { opt = 0; optopt = 0; oindex = 2; optarg = some (codes "80") }
    ∷ record { opt = 63; optopt = 120; oindex = 0; optarg = none }
    ∷ []

-- A sort by `argsort`.
abbrev insert_option : MyOption → List MyOption → List MyOption
insert_option o [] = o ∷ []
insert_option o (p ∷ ps) =
    let rest = insert_option o ps in if at_most (argsort o p) then o ∷ p ∷ ps else p ∷ rest

abbrev sort_options : List MyOption → List MyOption
sort_options [] = []
sort_options (o ∷ os) = insert_option o (sort_options os)

is_sorted : sort_options table ≡ table
unfolding argsort
is_sorted = refl

abbrev flag_of : List ℕ → ℕ → MyOption
flag_of n v = option n HasArg.no_args v ArgType.arg_none none

-- The help of a table is cut off.
abbrev wide_table : List MyOption
wide_table = option (codes "verbose") HasArg.opt_arg 118 ArgType.arg_int (some 3) ∷ []

help_cut : any_wide wide_table wide_table ≡ true
unfolding max_name
help_cut = refl
