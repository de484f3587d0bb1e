-- ===== src/DatFile/Header.antt =====
-- wfs_read/readdat.c: the header of a .dat file, and a whole file.
use bta_utils.Prelude.{
  is_space, ℕ, zero, suc, ◌<◌, ◌≡◌, refl, ap, sym, ◌∙◌, true, false, ◌&&◌, List, [], ◌∷◌, ◌++◌,
  append_assoc, Option, none, some, length, length-append, to_lower, ◌==◌, if◌then◌else◌, arith,
}
use bta_utils.DatFile.{
  skip_line_blanks, case_prefix, skip_word, at_column, hdr_loop, get_hdrval, time_word, piston_word,
  open_dat_file, read_file,
}
use bta_utils.DatFile.Rows.{
  IsWord, IsStrtod, IsLine, AllWide, rows_head, wanted, rows_text, skip_line_blanks-word,
  word_longer, read_file-rows,
}

-- A text without a space.
abbrev pub HasNoSpace : List ℕ → Type 0
HasNoSpace [] = Unit
HasNoSpace (c ∷ text) = (is_space c ≡ false) × HasNoSpace text

-- A name of a column, and the names of a header.
abbrev pub IsName : List ℕ → Type 0
IsName name = IsWord name × HasNoSpace name

abbrev pub AllNames : List (List ℕ) → Type 0
AllNames [] = Unit
AllNames (name ∷ names) = IsName name × AllNames names

-- The names behind the first, each behind a blank.
abbrev pub header_end : List (List ℕ) → List ℕ → List ℕ
header_end [] text = text
header_end (name ∷ names) text = 32 ∷ (name ++ header_end names text)

-- The place of the first name that begins with a word, from a place on.
abbrev pub column_of : List ℕ → ℕ → List (List ℕ) → Option ℕ
column_of val i [] = none
column_of val i (name ∷ names) =
    let rest = column_of val (suc i) names in if case_prefix val name then some i else rest

case_prefix-name :
    (val name : List ℕ) (s : ℕ) (text : List ℕ)
    → HasNoSpace val
    → is_space s ≡ true
    → case_prefix val (name ++ (s ∷ text)) ≡ case_prefix val name
case_prefix-name [] [] s text h space = refl
case_prefix-name [] (d ∷ name) s text h space = refl
case_prefix-name (c ∷ val) [] s text (h, rest) space = ground arith
case_prefix-name (c ∷ val) (d ∷ name) s text (h, rest) space =
    ap (λ b. (to_lower c == to_lower d) && b) (case_prefix-name val name s text rest space)

skip_word-name :
    (name : List ℕ) (s : ℕ) (text : List ℕ)
    → HasNoSpace name
    → is_space s ≡ true
    → skip_word (name ++ (s ∷ text)) ≡ s ∷ text
skip_word-name [] s text h space = rw space refl
skip_word-name (c ∷ name) s text (h, rest) space = rw h (skip_word-name name s text rest space)

at_column_name :
    (again : ℕ → List ℕ → Option ℕ) (val : List ℕ) (i : ℕ) (name : List ℕ) (s : ℕ) (text : List ℕ)
    → IsName name
    → HasNoSpace val
    → is_space s ≡ true
    → at_column again val i (name ++ (s ∷ text))
      ≡ (if case_prefix val name then some i else again (suc i) (s ∷ text))
at_column_name again val i [] s text (word, free) h space = absurd word
at_column_name again val i (c ∷ name) s text (word, free) h space =
    let newline : (c == 10) ≡ false = ground arith in
    rw
      (
        newline,
        case_prefix-name val (c ∷ name) s text h space,
        skip_word-name (c ∷ name) s text free space,
      )
      refl

hdr_loop_names :
    (fuel : ℕ) (val : List ℕ) (i : ℕ) (name : List ℕ) (names : List (List ℕ)) (z text : List ℕ)
    → AllNames (name ∷ names)
    → HasNoSpace val
    → skip_line_blanks text ≡ name ++ header_end names (10 ∷ z)
    → suc (length names) < fuel
    → hdr_loop fuel val i text ≡ column_of val i (name ∷ names)
unfolding hdr_loop
hdr_loop_names zero val i name names z text all h e enough = absurd (omega arith)
hdr_loop_names (suc zero) val i name names z text all h e enough = absurd (omega arith)
hdr_loop_names (suc (suc fuel)) val i name [] z text (is_name, all) h e enough =
    rw (e, at_column_name (hdr_loop (suc fuel) val) val i name 10 z is_name h refl) refl
hdr_loop_names (suc (suc fuel)) val i name (m ∷ names) z text (is_name, all) h e enough =
    let line = m ++ header_end names (10 ∷ z) in
    let later =
      hdr_loop_names (suc fuel) val (suc i) m names z (32 ∷ line) all h
        (skip_line_blanks-word m (header_end names (10 ∷ z)) all.0.0) (omega arith) in
    rw (e, at_column_name (hdr_loop (suc fuel) val) val i name 32 line is_name h refl)
      (ap (λ o. if case_prefix val name then some i else o) later)

length-header_end :
    (names : List (List ℕ)) (z : List ℕ) → length names < length (header_end names (10 ∷ z))
length-header_end [] z = omega arith
length-header_end (m ∷ names) z =
    omega (arith, length-append m (header_end names (10 ∷ z)), length-header_end names z)

get_hdrval-names :
    (val name : List ℕ) (names : List (List ℕ)) (z : List ℕ)
    → AllNames (name ∷ names)
    → HasNoSpace val
    → get_hdrval val (name ++ header_end names (10 ∷ z)) ≡ column_of val 0 (name ∷ names)
unfolding get_hdrval
get_hdrval-names val name names z (is_name, all) h =
    let text = name ++ header_end names (10 ∷ z) in
    hdr_loop_names (suc (length text)) val 0 name names z text (is_name, all) h
      (skip_line_blanks-word name (header_end names (10 ∷ z)) is_name.0)
      (omega
        (arith, word_longer name (header_end names (10 ∷ z)) is_name.0, length-header_end names z))

header_end-append :
    (names : List (List ℕ)) (text : List ℕ) → header_end names text ≡ header_end names [] ++ text
header_end-append [] text = refl
header_end-append (m ∷ names) text =
    ap (λ l. 32 ∷ l)
      (ap (λ l. m ++ l) (header_end-append names text)
        ∙ sym (append_assoc m (header_end names []) text))

IsLine-append : (a b : List ℕ) → HasNoSpace a → IsLine b → IsLine (a ++ b)
IsLine-append [] b h line = line
IsLine-append (c ∷ a) b (h, rest) line = (ground arith, IsLine-append a b rest line)

header_end-IsLine : (names : List (List ℕ)) → AllNames names → IsLine (header_end names [])
header_end-IsLine [] all = tt
header_end-IsLine (m ∷ names) (is_name, all) =
    (refl, IsLine-append m (header_end names []) is_name.1 (header_end-IsLine names all))

time_prefix :
    (name : List ℕ) (names : List (List ℕ)) (z : List ℕ)
    → case_prefix time_word (name ++ header_end names (10 ∷ z)) ≡ case_prefix time_word name
time_prefix name [] z = case_prefix-name time_word name 10 z (refl, (refl, (refl, (refl, tt)))) refl
time_prefix name (m ∷ names) z =
    case_prefix-name time_word name 32 (m ++ header_end names (10 ∷ z))
      (refl, (refl, (refl, (refl, tt)))) refl

module _ {ℓ} {A : Type ℓ} (print : A → List ℕ) (past : ℕ) (strtod : List ℕ → A × List ℕ)
    (number : IsStrtod print strtod) where
  -- Where `strtod` reads each number that is printed with a space behind it: a file with a header of
  -- names, the first of which begins with "time" and one of which, the first time in column k, with
  -- "piston", and with rows of numbers that have this column, each name and each number but the last
  -- of a line followed by a blank and each line by a newline, is opened with the column k, and its
  -- rows are read in their order, each from column k on, until the end of the file is found.
  pub read_file-open_dat_file :
      (name : List ℕ) (names : List (List ℕ)) (rows : List (A × List A)) (k fuel : ℕ)
      → AllNames (name ∷ names)
      → case_prefix time_word name ≡ true
      → column_of piston_word 0 (name ∷ names) ≡ some k
      → AllWide print past strtod number k rows
      → length rows < fuel
      → let text = name ++ header_end names (rows_text print rows (10 ∷ [])) in
        (open_dat_file text ≡ some k)
        × (read_file past strtod k fuel text ≡ (wanted print past strtod number k rows, true))
  unfolding open_dat_file
  read_file-open_dat_file name names rows k fuel (is_name, all) time piston wide enough =
      let (rest, e) = rows_head print past strtod number k rows in
      let line = name ++ header_end names [] in
      let is_line =
        IsLine-append name (header_end names []) is_name.1 (header_end-IsLine names all) in
      let whole : name ++ header_end names (rows_text print rows (10 ∷ []))
          ≡ line ++ rows_text print rows (10 ∷ []) =
        ap (λ l. name ++ l) (header_end-append names (rows_text print rows (10 ∷ [])))
        ∙ sym (append_assoc name (header_end names []) (rows_text print rows (10 ∷ []))) in
      let read = read_file-rows print past strtod number k line rows fuel is_line wide enough in
      (
        rw (e, time_prefix name names rest, time)
            (get_hdrval-names piston_word name names rest (is_name, all)
                (refl, (refl, (refl, (refl, (refl, (refl, tt))))))
              ∙ piston),
        ap (λ l. read_file past strtod k fuel l) whole ∙ read,
      )
