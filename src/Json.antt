-- ===== src/Json.antt =====
-- jsonbta/bta_json.c: the server of the telescope's data. A request names groups of data, or comes
-- from a browser. What `recv` leaves behind the received bytes in the buffer is an argument.
pub mod Print
pub mod Words
pub mod Request
pub mod Pairs
pub mod Document
pub mod Answer
mod Tests
use bta_utils.Prelude.Tokens.{strtok}
use bta_utils.Prelude.{
  str_case_eq, ℕ, ◌+◌, Bool, true, false, not, ◌&&◌, ◌||◌, Option, none, some, List, [], ◌∷◌, ◌++◌,
  map, leb, ◌==◌, drop, str_eq, codes, if◌then◌else◌,
}

-- A C string is what stands before the first zero byte.
abbrev pub c_text : List ℕ → List ℕ
c_text [] = []
c_text (c ∷ s) = if c == 0 then [] else c ∷ c_text s

-- What follows a prefix: `strncmp(s, prefix, strlen(prefix)) == 0`.
abbrev pub behind_prefix : List ℕ → List ℕ → Option (List ℕ)
behind_prefix [] s = some s
behind_prefix (p ∷ ps) [] = none
behind_prefix (p ∷ ps) (c ∷ s) = if p == c then behind_prefix ps s else none

-- What follows the first occurrence that `strstr` finds.
abbrev pub first_some {ℓ} : {A : Type ℓ} → Option A → Option A → Option A
first_some (some a) o = some a
first_some none o = o

unfoldable pub strstr : List ℕ → List ℕ → Option (List ℕ)
strstr needle [] = behind_prefix needle []
strstr needle (c ∷ s) = first_some (behind_prefix needle (c ∷ s)) (strstr needle s)

unfoldable pub skip_blanks : List ℕ → List ℕ
skip_blanks [] = []
skip_blanks (c ∷ s) = if c == 32 || c == 13 || c == 9 then skip_blanks s else c ∷ s

-- `e = strchr(a, ' '); if(e) *e = 0`
unfoldable pub until_space : List ℕ → List ℕ
until_space [] = []
until_space (c ∷ s) = if c == 32 then [] else c ∷ until_space s

abbrev pub word_of : List ℕ → Option (List ℕ)
word_of [] = none
word_of (c ∷ s) = some (until_space (c ∷ s))

abbrev pub word_behind : Option (List ℕ) → Option (List ℕ)
word_behind none = none
word_behind (some a) = word_of (skip_blanks a)

unfoldable pub stringscan : List ℕ → List ℕ → Option (List ℕ)
stringscan str needle = word_behind (strstr needle str)

-- The groups of data, `defpar`.
pub data Group : Type 0 where
  mtime sidtime telmode telfocus target p2mode eqcoor horcoor valsens diff vel corr meteo : Group

abbrev pub name_of : Group → List ℕ
name_of mtime = codes "mtime"
name_of sidtime = codes "sidtime"
name_of telmode = codes "telmode"
name_of telfocus = codes "telfocus"
name_of target = codes "target"
name_of p2mode = codes "p2mode"
name_of eqcoor = codes "eqcoor"
name_of horcoor = codes "horcoor"
name_of valsens = codes "valsens"
name_of diff = codes "diff"
name_of vel = codes "vel"
name_of corr = codes "corr"
name_of meteo = codes "meteo"

abbrev pub group_index : Group → ℕ
group_index mtime = 0
group_index sidtime = 1
group_index telmode = 2
group_index telfocus = 3
group_index target = 4
group_index p2mode = 5
group_index eqcoor = 6
group_index horcoor = 7
group_index valsens = 8
group_index diff = 9
group_index vel = 10
group_index corr = 11
group_index meteo = 12

abbrev pub same_group : Group → Group → Bool
same_group g h = group_index g == group_index h

-- `bta_pars`
pub record BtaPars : Type 0 where
  pub all : Bool
  pub has : Group → Bool

abbrev pub no_pars : BtaPars
no_pars = record { all = false; has = λ g. false }

abbrev pub all_pars : BtaPars
all_pars = record { all = true; has = λ g. false }

-- The tests of a word, in their order.
abbrev pub checked : List Group
checked =
    vel ∷ diff ∷ corr ∷ mtime ∷ meteo ∷ target ∷ p2mode ∷ eqcoor ∷ telmode ∷ sidtime ∷ horcoor
    ∷ valsens ∷ telfocus ∷ []

unfoldable pub find_group : List ℕ → List Group → Option Group
find_group tok [] = none
find_group tok (g ∷ gs) = if str_case_eq tok (name_of g) then some g else find_group tok gs

abbrev pub mark : Option Group → BtaPars → BtaPars
mark none par = par
mark (some g) par = record par { has = λ h. if same_group g h then true else par.has h }

-- " &\t\n"
abbrev pub is_delim : ℕ → Bool
is_delim c = c == 32 || c == 38 || c == 9 || c == 10

unfoldable pub check_words : List (List ℕ) → BtaPars → BtaPars
check_words [] par = par
check_words (tok ∷ toks) par = check_words toks (mark (find_group tok checked) par)

-- "/bta_par"
abbrev pub resource : List ℕ
resource = codes "/bta_par"

-- The text of a request whose resource is given; `none` where the process exits. The character
-- behind the name of the resource is not looked at.
abbrev pub query_of : Option (List ℕ) → Option (List ℕ)
query_of none = none
query_of (some s) = some (drop 1 s)

-- The words of a request, for its resource and its text.
abbrev pub request_pars : Option (List ℕ) → List ℕ → Option BtaPars
request_pars none buf = some (check_words (strtok is_delim buf) no_pars)
request_pars (some got) buf =
    if str_eq got resource then some all_pars else elim (query_of (behind_prefix resource got)) [
      | none ↦ none
      | some query ↦ some (check_words (strtok is_delim query) no_pars)
    ]

unfoldable pub parce_incoming_buf : List ℕ → Option BtaPars
parce_incoming_buf buffer =
    let buf = c_text buffer in request_pars (stringscan buf (codes "GET")) buf

-- What `recv` gives: the bytes received, and those that stand behind them in the buffer.
pub record ReceivedBytes : Type 0 where
  pub bytes : List ℕ
  pub behind : List ℕ
