-- ===== src/Options.antt =====
-- p1rotator/parseargs.c: the options of the command line. Numbers are read by the library's strtoll
-- and strtod, and an option may call a function of the program: these are arguments.
pub mod Subopts
pub mod Settings
pub mod Runs
pub mod Help
pub mod Parse
pub mod Safe
mod Tests
use bta_utils.Prelude.{
  ℕ, zero, suc, ◌+◌, Bool, true, false, not, ◌&&◌, ◌||◌, Option, none, some, List, [], ◌∷◌, ◌++◌,
  length, ltb, leb, ◌==◌, if◌then◌else◌, ℤ, pos, negsuc, codes, ◌+ℤ◌, ◌^◌, get_elem?,
}

-- `argtype` and `hasarg`
pub data ArgType : Type 0 where
  arg_none arg_int arg_longlong arg_double arg_float arg_string arg_function : ArgType

pub data HasArg : Type 0 where
  no_args need_arg opt_arg mult_par : HasArg

-- `myoption`; a pointer is a number, and `flag` tells whether it is not NULL.
pub record MyOption : Type 0 where
  pub name : List ℕ
  pub has_arg : HasArg
  pub flag : Bool
  pub val : ℕ
  pub argtype : ArgType
  pub argptr : Option ℕ
  pub help : List ℕ

-- What the functions of the libraries and of the program give. `strtoll` and `strtod` give the number
-- and the text behind it; a function called with its pointer and text says whether it succeeds.
pub record Libs : Type 1 where
  pub Double : Type 0
  pub strtoll : List ℕ → ℤ × List ℕ
  pub strtod : List ℕ → Double × List ℕ
  pub to_float : Double → Double
  pub call : ℕ → List ℕ → Bool

module _ (libs : Libs) where
  -- What stands behind a pointer: one value, or those of an array.
  pub data Value : Type 0 where
    int_value : ℤ → Value
    double_value : libs.Double → Value
    string_value : List ℕ → Value

  abbrev pub Store : Type 0
  Store = ℕ → List Value

  abbrev pub write : ℕ → List Value → Store → Store
  write p vs st q = if q == p then vs else st q

-- `*endptr != '\0'`, `endptr == str` and an empty text.
abbrev pub whole_text : List ℕ → List ℕ → Bool
whole_text str [] = not (length str == 0)
whole_text str (c ∷ s) = false

-- INT_MIN and INT_MAX
abbrev pub is_int : ℤ → Bool
is_int (pos n) = ltb n (2 ^ 31)
is_int (negsuc n) = ltb n (2 ^ 31)

module _ (libs : Libs) where
  abbrev pub read_ll : ArgType → ℤ → Option ℤ
  read_ll arg_longlong v = some v
  read_ll _ v = if is_int v then some v else none

  -- `myatoll`
  unfoldable pub myatoll : List ℕ → ArgType → Option (Value libs)
  myatoll str t =
      let (tmp, endptr) = libs.strtoll str in
      if whole_text str endptr
      then elim (read_ll t tmp) [ none ↦ none | some v ↦ some (int_value v) ]
      else none

  -- `myatod`
  unfoldable pub myatod : List ℕ → ArgType → Option (Value libs)
  myatod str t =
      let (tmp, endptr) = libs.strtod str in
      if whole_text str endptr
      then some (double_value (elim t [ arg_double ↦ tmp | _ ↦ libs.to_float tmp ]))
      else none

  -- `*((int*)aptr) += 1`, for the first value there.
  abbrev plus_one : List (Value libs) → List (Value libs)
  plus_one (int_value n ∷ vs) = int_value (n +ℤ pos 1) ∷ vs
  plus_one vs = vs

  -- What comes of an argument: it is set; it is refused, for the values as they stand; or the process
  -- ends at an assertion or at a NULL pointer.
  pub data Result : Type 0 where
    done refused : Store libs → Result
    aborted : Result

  -- What follows an argument that is set.
  abbrev pub go_on : Result → (Store libs → Result) → Result
  go_on (done st) f = f st
  go_on (refused st) f = refused st
  go_on aborted f = aborted

  -- A value is put_arg behind a pointer, or behind the last of an array (`get_aptr`).
  abbrev put_arg : Bool → ℕ → Value libs → Store libs → Store libs
  put_arg false p v st = write libs p (v ∷ []) st
  put_arg true p v st = write libs p (st p ++ (v ∷ [])) st

  abbrev put_value : Bool → Option ℕ → Option (Value libs) → Store libs → Result
  put_value multi none v st = aborted
  put_value multi (some p) none st = refused st
  put_value multi (some p) (some v) st = done (put_arg multi p v st)

  abbrev run_function : Option ℕ → List ℕ → Store libs → Result
  run_function none val st = aborted
  run_function (some p) val st = if libs.call p val then done st else refused st

  abbrev count_flag : Option ℕ → Store libs → Result
  count_flag none st = done st
  count_flag (some p) st = done (write libs p (plus_one (st p)) st)

  -- `opt_setarg`, and the same `switch` of `parseargs`.
  unfoldable pub set_arg : ArgType → Option ℕ → Bool → List ℕ → Store libs → Result
  set_arg arg_none argptr multi val st = count_flag argptr st
  set_arg arg_int argptr multi val st = put_value multi argptr (myatoll val arg_int) st
  set_arg arg_longlong argptr multi val st = put_value multi argptr (myatoll val arg_longlong) st
  set_arg arg_double argptr multi val st = put_value multi argptr (myatod val arg_double) st
  set_arg arg_float argptr multi val st = put_value multi argptr (myatod val arg_float) st
  set_arg arg_string argptr multi val st = put_value multi argptr (some (string_value val)) st
  set_arg arg_function argptr multi val st = run_function argptr val st
