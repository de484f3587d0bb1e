-- ===== src/DatFile.antt =====
-- wfs_read/readdat.c: the header and the lines of numbers of a .dat file. A pointer into the mapped file is the text
-- from there to the end; `strtod` gives a number and the text behind it, and `past` is the byte behind
-- the mapped file.
pub mod Rows
pub mod Header
mod Tests
use bta_utils.Prelude.{
  is_space, skip_spaces, to_lower, ◌+◌, ℕ, zero, suc, ◌-◌, Bool, true, false, not, ◌&&◌, ◌||◌, List,
  [], ◌∷◌, Option, none, some, length, leb, ◌==◌, if◌then◌else◌,
}

-- The text behind the next newline; none behind the end.
abbrev pub behind_newline : List ℕ → List ℕ
behind_newline [] = []
behind_newline (c ∷ text) = let rest = behind_newline text in if c == 10 then text else rest

abbrev pub unless_end : List ℕ → Option (List ℕ)
unless_end [] = none
unless_end (c ∷ text) = some (c ∷ text)

unfoldable pub nextline : List ℕ → Option (List ℕ)
nextline text = unless_end (skip_spaces (behind_newline text))

-- Spaces up to the end of the line.
abbrev pub skip_line_blanks : List ℕ → List ℕ
skip_line_blanks [] = []
skip_line_blanks (c ∷ text) =
    let rest = skip_line_blanks text in if is_space c && not (c == 10) then rest else c ∷ text

abbrev pub head_or : ℕ → List ℕ → ℕ
head_or past [] = past
head_or past (c ∷ text) = c

module _ {ℓ} {A : Type ℓ} (past : ℕ) (strtod : List ℕ → A × List ℕ) where
  unfoldable pub read_double : List ℕ → Option (A × List ℕ)
  read_double [] = none
  read_double (c ∷ text) =
      let (num, rest) = strtod (c ∷ text) in
      if length rest == length (c ∷ text) || not (is_space (head_or past rest))
      then none
      else some (num, skip_line_blanks rest)

  -- The numbers of a line from the first column wanted on, and where the reading stops.
  abbrev pub with_number : A → List A × List ℕ → List A × List ℕ
  with_number d (ds, text) = (d ∷ ds, text)

  abbrev pub after_number :
      (ℕ → List ℕ → List A × List ℕ) → ℕ → List ℕ → Option (A × List ℕ) → List A × List ℕ
  after_number again skipfst text none = ([], text)
  after_number again (suc skipfst) text (some (d, next)) = again skipfst next
  after_number again zero text (some (d, next)) =
      let rest = again 0 next in
      if head_or past next == 10 then (d ∷ [], next) else with_number d rest

  unfoldable pub read_columns : ℕ → ℕ → List ℕ → List A × List ℕ
  read_columns zero skipfst text = ([], text)
  read_columns (suc fuel) skipfst [] = ([], [])
  read_columns (suc fuel) skipfst (c ∷ text) =
      let again = read_columns fuel in
      after_number again skipfst (c ∷ text) (read_double (c ∷ text))

  -- The numbers and the new `curptr`; none is the end of the file.
  abbrev pub from_line : ℕ → Option (List ℕ) → Option (List A × List ℕ)
  from_line firstcolumn none = none
  from_line firstcolumn (some text) = some (read_columns (length text) firstcolumn text)

  unfoldable pub dat_read_next_line : ℕ → List ℕ → Option (List A × List ℕ)
  dat_read_next_line firstcolumn curptr = from_line firstcolumn (nextline curptr)

  -- The calls until the end of the file (main.c), with whether it is found in as many calls.
  abbrev pub then_lines :
      (List ℕ → List (List A) × Bool) → Option (List A × List ℕ) → List (List A) × Bool
  then_lines again none = ([], true)
  then_lines again (some (numbers, curptr)) =
      let later = again curptr in (numbers ∷ later.0, later.1)

  unfoldable pub read_file : ℕ → ℕ → List ℕ → List (List A) × Bool
  read_file firstcolumn zero curptr = ([], false)
  read_file firstcolumn (suc calls) curptr =
      let again = read_file firstcolumn calls in
      then_lines again (dat_read_next_line firstcolumn curptr)

-- `strncasecmp` with the length of `val`; a text that ends before it is none with that name.
abbrev pub case_prefix : List ℕ → List ℕ → Bool
case_prefix [] text = true
case_prefix (c ∷ val) [] = false
case_prefix (c ∷ val) (d ∷ text) = (to_lower c == to_lower d) && case_prefix val text

abbrev pub skip_word : List ℕ → List ℕ
skip_word [] = []
skip_word (c ∷ text) = let rest = skip_word text in if is_space c then c ∷ text else rest

-- The rounds of `get_hdrval`, from column `i` on; none is -1.
abbrev pub at_column : (ℕ → List ℕ → Option ℕ) → List ℕ → ℕ → List ℕ → Option ℕ
at_column again val i [] = none
at_column again val i (c ∷ text) =
    let rest = again (suc i) (skip_word (c ∷ text)) in
    if c == 10 then none else (if case_prefix val (c ∷ text) then some i else rest)

unfoldable pub hdr_loop : ℕ → List ℕ → ℕ → List ℕ → Option ℕ
hdr_loop zero val i text = none
hdr_loop (suc fuel) val i text =
    let again = hdr_loop fuel val in at_column again val i (skip_line_blanks text)

unfoldable pub get_hdrval : List ℕ → List ℕ → Option ℕ
get_hdrval val text = hdr_loop (suc (length text)) val 0 text

-- "time" and "piston".
abbrev pub time_word : List ℕ
time_word = 116 ∷ 105 ∷ 109 ∷ 101 ∷ []

abbrev pub piston_word : List ℕ
piston_word = 112 ∷ 105 ∷ 115 ∷ 116 ∷ 111 ∷ 110 ∷ []

-- `open_dat_file` for the mapped text: `firstcolumn`, where the file is taken.
unfoldable pub open_dat_file : List ℕ → Option ℕ
open_dat_file text = if case_prefix time_word text then get_hdrval piston_word text else none
