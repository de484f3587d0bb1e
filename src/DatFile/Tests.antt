-- ===== src/DatFile/Tests.antt =====
-- Runs of the reader of .dat files at small numbers, which are printed as a digit.
use bta_utils.Prelude.{
  is_space, ℕ, ◌≡◌, refl, true, some, List, [], ◌∷◌, ◌++◌, leb, arith, if◌then◌else◌,
}
use bta_utils.DatFile.{
  nextline, read_double, read_columns, dat_read_next_line, read_file, hdr_loop, get_hdrval,
  open_dat_file,
}
use bta_utils.DatFile.Rows.{IsWord, IsStrtod, rows_text, wanted}
use bta_utils.DatFile.Header.{header_end, read_file-open_dat_file}

-- A digit with no space before it is a number.
data Digit : Type 0 where
  nought one two : Digit

abbrev print_digit : Digit → List ℕ
print_digit nought = 48 ∷ []
print_digit one = 49 ∷ []
print_digit two = 50 ∷ []

abbrev digit_of : ℕ → Digit
digit_of c = if leb c 48 then nought else if leb c 49 then one else two

abbrev digit_strtod : List ℕ → Digit × List ℕ
digit_strtod [] = (nought, [])
digit_strtod (c ∷ text) = (digit_of c, text)

print_digit-IsWord : (d : Digit) → IsWord (print_digit d)
print_digit-IsWord nought = refl
print_digit-IsWord one = refl
print_digit-IsWord two = refl

digit_reads :
    (d : Digit) (c : ℕ) (text : List ℕ)
    → is_space c ≡ true
    → digit_strtod (print_digit d ++ (c ∷ text)) ≡ (d, c ∷ text)
digit_reads nought c text h = refl
digit_reads one c text h = refl
digit_reads two c text h = refl

digit_number : IsStrtod print_digit digit_strtod
digit_number = record { print-IsWord = print_digit-IsWord; reads = digit_reads }

abbrev two_rows : List (Digit × List Digit)
two_rows = (nought, one ∷ two ∷ []) ∷ (two, one ∷ []) ∷ []

abbrev columns_behind : List (List ℕ)
columns_behind = (112 ∷ 105 ∷ 115 ∷ 116 ∷ 111 ∷ 110 ∷ []) ∷ (116 ∷ 105 ∷ 112 ∷ []) ∷ []

-- "Time piston tip" and the rows "0 1 2" and "2 1".
abbrev dat_text : List ℕ
dat_text =
    84 ∷ 105 ∷ 109 ∷ 101 ∷ []
    ++ header_end columns_behind (rows_text print_digit two_rows (10 ∷ []))

dat_file_run :
    (open_dat_file dat_text ≡ some 1)
    × (read_file 0 digit_strtod 1 5 dat_text ≡ ((one ∷ two ∷ []) ∷ (one ∷ []) ∷ [], true))
unfolding open_dat_file get_hdrval hdr_loop read_file dat_read_next_line nextline read_columns
    read_double
dat_file_run = (refl, refl)

read_file-open_dat_file_example :
    (open_dat_file dat_text ≡ some 1)
    × (read_file 0 digit_strtod 1 5 dat_text
        ≡ (wanted print_digit 0 digit_strtod digit_number 1 two_rows, true))
read_file-open_dat_file_example =
    read_file-open_dat_file print_digit 0 digit_strtod digit_number (84 ∷ 105 ∷ 109 ∷ 101 ∷ [])
      columns_behind two_rows 1 5
      (
        (refl, (refl, (refl, (refl, (refl, tt))))),
        (
          (refl, (refl, (refl, (refl, (refl, (refl, (refl, tt))))))),
          ((refl, (refl, (refl, (refl, tt)))), tt),
        ),
      )
      refl refl (omega arith, (omega arith, tt)) (omega arith)
