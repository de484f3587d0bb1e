-- ===== src/DatFile/Rows.antt =====
-- wfs_read/readdat.c: the lines that are read of a file of rows.
use bta_utils.Prelude.{
  is_space, skip_spaces, ℕ, zero, suc, ◌<◌, ◌≤◌, ◌≡◌, refl, ap, true, false, List, [], ◌∷◌, ◌++◌,
  none, some, length, length-append, drop, ◌==◌, arith,
}
use bta_utils.DatFile.{
  behind_newline, unless_end, nextline, skip_line_blanks, head_or, read_double, after_number,
  read_columns, read_file, dat_read_next_line,
}

-- A text that begins with no space.
abbrev pub IsWord : List ℕ → Type 0
IsWord [] = ⊥
IsWord (c ∷ text) = is_space c ≡ false

module _ (w : List ℕ) (z : List ℕ) where
  skip_spaces-word : IsWord w → skip_spaces (w ++ z) ≡ w ++ z
  skip_spaces-word word =
      elim w as (λ w. IsWord w → skip_spaces (w ++ z) ≡ w ++ z) [
        | [] ↦ λ none_left. absurd none_left
        | c ∷ rest ↦ λ e. rw e refl
      ]
        word

  pub skip_line_blanks-word : IsWord w → skip_line_blanks (w ++ z) ≡ w ++ z
  skip_line_blanks-word word =
      elim w as (λ w. IsWord w → skip_line_blanks (w ++ z) ≡ w ++ z) [
        | [] ↦ λ none_left. absurd none_left
        | c ∷ rest ↦ λ e. rw e refl
      ]
        word

  pub head_word : (past : ℕ) → IsWord w → (head_or past (w ++ z) == 10) ≡ false
  head_word past word =
      elim w as (λ w. IsWord w → (head_or past (w ++ z) == 10) ≡ false) [
        | [] ↦ λ none_left. absurd none_left
        | c ∷ rest ↦ λ e. ground arith
      ]
        word

  pub word_longer : IsWord w → length z < length (w ++ z)
  word_longer word =
      elim w as (λ w. IsWord w → length z < length (w ++ z)) [
        | [] ↦ λ none_left. absurd none_left
        | c ∷ rest ↦ λ e. omega (arith, length-append rest z)
      ]
        word

module _ {ℓ} {A : Type ℓ} (past : ℕ) (strtod : List ℕ → A × List ℕ) where
  read_double_reads :
      (text : List ℕ) (a : A) (rest : List ℕ)
      → strtod text ≡ (a, rest)
      → length rest < length text
      → is_space (head_or past rest) ≡ true
      → read_double past strtod text ≡ some (a, skip_line_blanks rest)
  unfolding read_double
  read_double_reads [] a rest h less space = absurd (omega arith)
  read_double_reads (c ∷ text) a rest h less space =
      let ne : (length rest == length (c ∷ text)) ≡ false = ground arith in rw (h, ne, space) refl

  read_columns_step :
      (fuel skipfst : ℕ) (text : List ℕ)
      → 0 < length text
      → read_columns past strtod (suc fuel) skipfst text
        ≡ after_number past strtod
            (read_columns past strtod fuel)
            skipfst
            text
            (read_double past strtod text)
  unfolding read_columns
  read_columns_step fuel skipfst [] h = absurd (omega arith)
  read_columns_step fuel skipfst (c ∷ text) h = refl

module _ {ℓ} {A : Type ℓ} (print : A → List ℕ) where
  -- `strtod` reads a number that is printed with a space behind it.
  pub record IsStrtod (strtod : List ℕ → A × List ℕ) : Type ℓ where
    pub print-IsWord : (a : A) → IsWord (print a)
    pub reads :
        (a : A) (c : ℕ) (text : List ℕ)
        → is_space c ≡ true
        → strtod (print a ++ (c ∷ text)) ≡ (a, c ∷ text)

  -- The numbers of a row behind its first, each behind a space.
  abbrev pub row_end : List A → List ℕ → List ℕ
  row_end [] text = text
  row_end (a ∷ more) text = 32 ∷ (print a ++ row_end more text)

  -- The rows of a file, each behind a newline.
  abbrev pub rows_text : List (A × List A) → List ℕ → List ℕ
  rows_text [] text = text
  rows_text ((a, more) ∷ rows) text = 10 ∷ (print a ++ row_end more (rows_text rows text))

  module _ (past : ℕ) (strtod : List ℕ → A × List ℕ) (number : IsStrtod strtod) where
    columns_go_on :
        (fuel skipfst : ℕ) (a b : A) (bs : List A) (rest : List ℕ)
        → skipfst < suc (suc (length bs))
        → ((k : ℕ)
            → k < suc (length bs)
            → read_columns past strtod fuel k (print b ++ row_end bs (10 ∷ rest))
              ≡ (drop k (b ∷ bs), 10 ∷ rest))
        → after_number past strtod
            (read_columns past strtod fuel)
            skipfst
            (print a ++ (32 ∷ (print b ++ row_end bs (10 ∷ rest))))
            (some (a, print b ++ row_end bs (10 ∷ rest)))
          ≡ (drop skipfst (a ∷ b ∷ bs), 10 ∷ rest)
    columns_go_on fuel zero a b bs rest h next =
        rw
          (
            head_word (print b) (row_end bs (10 ∷ rest)) past (number.print-IsWord b),
            next 0 (omega arith),
          )
          refl
    columns_go_on fuel (suc k) a b bs rest h next = next k (omega arith)

    read_row :
        (fuel skipfst : ℕ) (a : A) (more : List A) (rest : List ℕ)
        → length (print a ++ row_end more (10 ∷ rest)) ≤ fuel
        → skipfst < suc (length more)
        → read_columns past strtod fuel skipfst (print a ++ row_end more (10 ∷ rest))
          ≡ (drop skipfst (a ∷ more), 10 ∷ rest)
    read_row zero skipfst a more rest enough h =
        absurd
          (omega (arith, word_longer (print a) (row_end more (10 ∷ rest)) (number.print-IsWord a)))
    read_row (suc fuel) skipfst a [] rest enough h =
        let longer = word_longer (print a) (10 ∷ rest) (number.print-IsWord a) in
        let text = print a ++ (10 ∷ rest) in
        let e : skipfst ≡ 0 = omega arith in
        rw
          (
            e,
            read_columns_step past strtod fuel 0 text (omega arith),
            read_double_reads past strtod text a (10 ∷ rest) (number.reads a 10 rest refl) longer
                refl,
          )
          refl
    read_row (suc fuel) skipfst a (b ∷ bs) rest enough h =
        let line = print b ++ row_end bs (10 ∷ rest) in
        let text = print a ++ (32 ∷ line) in
        let longer = word_longer (print a) (32 ∷ line) (number.print-IsWord a) in
        let word = number.print-IsWord b in
        let blank : skip_line_blanks (32 ∷ line) ≡ line =
          skip_line_blanks-word (print b) (row_end bs (10 ∷ rest)) word in
        let next =
          λ (k : ℕ) (hk : k < suc (length bs)). read_row fuel k b bs rest (omega arith) hk in
        rw
          (
            read_columns_step past strtod fuel skipfst text (omega arith),
            read_double_reads past strtod text a (32 ∷ line) (number.reads a 32 line refl) longer
                refl,
            blank,
          )
          (columns_go_on fuel skipfst a b bs rest h next)

-- A text without a newline.
abbrev pub IsLine : List ℕ → Type 0
IsLine [] = Unit
IsLine (c ∷ text) = ((c == 10) ≡ false) × IsLine text

behind_newline-line : (l z : List ℕ) → IsLine l → behind_newline (l ++ (10 ∷ z)) ≡ z
behind_newline-line [] z h = refl
behind_newline-line (c ∷ l) z (h, rest) = rw h (behind_newline-line l z rest)

unless_end-some : (text : List ℕ) → 0 < length text → unless_end text ≡ some text
unless_end-some [] h = absurd (omega arith)
unless_end-some (c ∷ text) h = refl

module _ {ℓ} {A : Type ℓ} (print : A → List ℕ) (past : ℕ) (strtod : List ℕ → A × List ℕ)
    (number : IsStrtod print strtod) (firstcolumn : ℕ) where
  row_read :
      (line : List ℕ) (a : A) (more : List A) (rest : List ℕ)
      → IsLine line
      → firstcolumn < suc (length more)
      → dat_read_next_line past strtod firstcolumn
          (line ++ (10 ∷ (print a ++ row_end print more (10 ∷ rest))))
        ≡ some (drop firstcolumn (a ∷ more), 10 ∷ rest)
  unfolding dat_read_next_line nextline
  row_read line a more rest is_line h =
      let text = print a ++ row_end print more (10 ∷ rest) in
      let word = number.print-IsWord a in
      let longer = word_longer (print a) (row_end print more (10 ∷ rest)) word in
      rw
        (
          behind_newline-line line text is_line,
          skip_spaces-word (print a) (row_end print more (10 ∷ rest)) word,
          unless_end-some text (omega arith),
        )
        (ap some
          (read_row print past strtod number (length text) firstcolumn a more rest (omega arith) h))

  at_end :
      (line : List ℕ)
      → IsLine line
      → dat_read_next_line past strtod firstcolumn (line ++ (10 ∷ [])) ≡ none
  unfolding dat_read_next_line nextline
  at_end line is_line = rw (behind_newline-line line [] is_line) refl

  pub rows_head :
      (rows : List (A × List A)) → (rest : List ℕ) × (rows_text print rows (10 ∷ []) ≡ 10 ∷ rest)
  rows_head [] = ([], refl)
  rows_head ((a, more) ∷ rows) =
      (print a ++ row_end print more (rows_text print rows (10 ∷ [])), refl)

  -- The rows have the first column wanted.
  abbrev pub AllWide : List (A × List A) → Type 0
  AllWide [] = Unit
  AllWide ((a, more) ∷ rows) = (firstcolumn < suc (length more)) × AllWide rows

  abbrev pub wanted : List (A × List A) → List (List A)
  wanted [] = []
  wanted ((a, more) ∷ rows) = drop firstcolumn (a ∷ more) ∷ wanted rows

  -- Where `strtod` reads each number that is printed with a space behind it: of a file with a line of
  -- a header and rows of numbers, each number but the last of a row followed by a blank and each row
  -- by a newline, the rows are read in their order, each from the first column wanted on, when each
  -- has that column; then the end of the file is found, after one call more than there are rows.
  pub read_file-rows :
      (line : List ℕ) (rows : List (A × List A)) (fuel : ℕ)
      → IsLine line
      → AllWide rows
      → length rows < fuel
      → read_file past strtod firstcolumn fuel (line ++ rows_text print rows (10 ∷ []))
        ≡ (wanted rows, true)
  unfolding read_file
  read_file-rows line rows zero is_line wide enough = absurd (omega arith)
  read_file-rows line [] (suc fuel) is_line wide enough = rw (at_end line is_line) refl
  read_file-rows line ((a, more) ∷ rows) (suc fuel) is_line (h, wide) enough =
      let (rest, e) = rows_head rows in
      let later = rw e at (read_file-rows [] rows fuel tt wide (omega arith)) in
      rw (e, row_read line a more rest is_line h, later) refl
