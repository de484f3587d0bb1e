-- ===== src/Options/Runs.antt =====
-- p1rotator/parseargs.c: what a text of suboptions does to the variables.
use bta_utils.Prelude.{ℕ, ◌≡◌, true, false, Option, none, some, List, [], ◌∷◌, ◌++◌, str_case_eq}
use bta_utils.Prelude.Tokens.{strtok, with_last, no_delims, no_delims_mono}
use bta_utils.Prelude.Tokens
use bta_utils.Options.{Libs, Store, Result, done, refused, aborted, set_arg}
use bta_utils.Options.Subopts.{MySuboption, needs_arg}
use bta_utils.Options.Settings.{Setting}

-- The suboptions have other names than this, and this one is the first of the name.
abbrev pub AllDiffer : List ℕ → List MySuboption → Type 0
AllDiffer key [] = Unit
AllDiffer key (o ∷ opt) = (str_case_eq key o.name ≡ false) × AllDiffer key opt

pub record IsFirst (key : List ℕ) (opt : List MySuboption) (o : MySuboption) : Type 0 where
  pub before : List MySuboption
  pub behind : List MySuboption
  pub in_place : opt ≡ before ++ (o ∷ behind)
  pub others : AllDiffer key before
  pub named : str_case_eq key o.name ≡ true

-- The value that a setting gives to a suboption: its own or, where it has none and the suboption needs
-- none, "1".
pub data IsGiven (o : MySuboption) : Option (List ℕ) → List ℕ → Type 0 where
  own_value : (c : ℕ) (v : List ℕ) → IsGiven o (some (c ∷ v)) (c ∷ v)
  default_value : needs_arg o.has_arg ≡ false → IsGiven o none (49 ∷ [])

-- What settings are to do, with the result: each sets the variable of the first suboption of its name to
-- its value, in their order; an unknown name, a missing value that is needed, or a value that is not
-- understood ends it, and the settings before stay done.
module _ (libs : Libs) where
  pub data Runs (opt : List MySuboption) : List Setting → Store libs → Result libs → Type 1 where
    all_done : {st : Store libs} → Runs opt [] st (done st)
    unknown_name :
        {s : Setting} {ss : List Setting} {st : Store libs}
        → AllDiffer s.key opt
        → Runs opt (s ∷ ss) st (refused st)
    lacks_value :
        {s : Setting} {ss : List Setting} {st : Store libs} (o : MySuboption)
        → IsFirst s.key opt o
        → needs_arg o.has_arg ≡ true
        → s.value ≡ none
        → Runs opt (s ∷ ss) st (refused st)
    bad_value :
        {s : Setting} {ss : List Setting} {st st' : Store libs} {v : List ℕ} (o : MySuboption)
        → IsFirst s.key opt o
        → IsGiven o s.value v
        → set_arg libs o.argtype o.argptr false v st ≡ refused st'
        → Runs opt (s ∷ ss) st (refused st')
    bad_argument :
        {s : Setting} {ss : List Setting} {st : Store libs} {v : List ℕ} (o : MySuboption)
        → IsFirst s.key opt o
        → IsGiven o s.value v
        → set_arg libs o.argtype o.argptr false v st ≡ aborted
        → Runs opt (s ∷ ss) st aborted
    is_set :
        {s : Setting} {ss : List Setting} {st st' : Store libs} {v : List ℕ} {r : Result libs}
        (o : MySuboption)
        → IsFirst s.key opt o
        → IsGiven o s.value v
        → set_arg libs o.argtype o.argptr false v st ≡ done st'
        → Runs opt ss st' r
        → Runs opt (s ∷ ss) st r

-- The search finds the first of the name, or there is none.
abbrev Found : List ℕ → List MySuboption → Option MySuboption → Type 0
Found key opt none = AllDiffer key opt
Found key opt (some o) = IsFirst key opt o

module _ (libs : Libs) where
  module _ (opt : List MySuboption) (key : List ℕ) (value : Option (List ℕ)) (ss : List Setting)
      (st : Store libs) (goes : Store libs → Result libs)
      (rest : (st' : Store libs) → Runs libs opt ss st' (goes st')) where
    abbrev setting : Setting
    setting = record { key = key; value = value }
