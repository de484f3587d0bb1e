-- ===== src/CanServer/Parse.antt =====
-- Network_CAN_clientserver/parsecanmsgs.c: `parseCANstr` on the lines that its comment describes,
-- "timestamp #ID [data0 data1 ...]".
use bta_utils.Prelude.{
  ℕ, zero, suc, ◌%◌, ◌^◌, ◌≤◌, ◌<◌, ◌≡◌, refl, ap, ◌∙◌, some, List, [], ◌∷◌, ◌++◌, map, length,
  drop, arith, leb, codes, print_u, print_x, AllBelow, false, hex_char, dec_char, digits_of,
  digits_of-cons, value-digits, value_from, span_hex, span_hex-print, span_dec-print,
  digits-below_16, digits-below_10, skip_spaces,
}
use bta_utils.CanServer.{
  strip_sign, strip_0x, scan_x, scan_all, scan_signed, scan_digits, after_hash, fill, atoi_u32,
  atoi_signed, atoi_value, parse_can_str,
}

-- The bytes behind an identifier: each in hexadecimal, behind a space.
abbrev pub hex_words : List ℕ → List ℕ
hex_words [] = []
hex_words (d ∷ ds) = 32 ∷ (print_x d ++ hex_words ds)

-- The line that the comment describes.
abbrev pub can_line : ℕ → ℕ → List ℕ → List ℕ
can_line ts id ds = print_u ts ++ (codes " #" ++ (print_x id ++ hex_words ds))

hex_words-stop : (ds : List ℕ) → span_hex (hex_words ds) ≡ ([], hex_words ds)
hex_words-stop [] = refl
hex_words-stop (d ∷ ds) = refl

hex_char-skip : (d : ℕ) (s : List ℕ) → d < 16 → skip_spaces (hex_char d ∷ s) ≡ hex_char d ∷ s
hex_char-skip d s h = ground arith

hex_char-sign :
    (d : ℕ) (s : List ℕ) → d < 16 → strip_sign (hex_char d ∷ s) ≡ (false, hex_char d ∷ s)
hex_char-sign d s h = ground arith

-- Printed digits hold no "0x".
hex_char-0x :
    (d : ℕ) (ds rest : List ℕ)
    → d < 16
    → AllBelow 16 ds
    → strip_0x (map hex_char (d ∷ ds) ++ hex_words rest) ≡ map hex_char (d ∷ ds) ++ hex_words rest
hex_char-0x d [] [] h hs = refl
hex_char-0x d [] (r ∷ rest) h hs = ground arith
hex_char-0x d (e ∷ ds) rest h hs = ground arith

scan_x-digits :
    (d : ℕ) (ds rest : List ℕ)
    → d < 16
    → AllBelow 16 ds
    → value_from 16 0 (d ∷ ds) < 2 ^ 32
    → scan_x (map hex_char (d ∷ ds) ++ hex_words rest)
      ≡ some (value_from 16 0 (d ∷ ds), hex_words rest)
unfolding scan_x
scan_x-digits d ds rest hd hds small =
    let s : List ℕ = map hex_char ds ++ hex_words rest in
    let fits : leb (2 ^ 64) (value_from 16 0 (d ∷ ds)) ≡ false = ground arith in
    ap scan_signed (ap strip_sign (hex_char-skip d s hd) ∙ hex_char-sign d s hd)
    ∙ ap (λ t. scan_digits false (span_hex t)) (hex_char-0x d ds rest hd hds)
    ∙ ap (scan_digits false)
        (span_hex-print (d ∷ ds) (hex_words rest) (hd, hds) (hex_words-stop rest))
    ∙ rw fits (ap (λ v. some (v, hex_words rest)) (omega arith))

-- `%x` reads back a printed number of 32 bits, and stops behind it.
scan_x-print :
    (n : ℕ) (rest : List ℕ)
    → n < 2 ^ 32
    → scan_x (print_x n ++ hex_words rest) ≡ some (n, hex_words rest)
unfolding print_x
scan_x-print n rest h =
    let (d, ds, e) = digits_of-cons 16 15 n in
    let (hd, hds) = rw e at (digits-below_16 15 n (omega arith)) in
    let v = rw e at (value-digits 16 15 n) in rw e (scan_x-digits d ds rest hd hds (rw v h) ∙ rw v)

scan_all-nil : (n : ℕ) → scan_all n [] ≡ []
unfolding scan_all scan_x
scan_all-nil zero = refl
scan_all-nil (suc n) = refl

scan_all_step :
    (n : ℕ) (s : List ℕ) {v : ℕ} {rest : List ℕ}
    → scan_x s ≡ some (v, rest)
    → scan_all (suc n) s ≡ v ∷ scan_all n rest
unfolding scan_all
scan_all_step n s e = rw (e, scan_all)

scan_all-space : (n : ℕ) (s : List ℕ) → scan_all n (32 ∷ s) ≡ scan_all n s
unfolding scan_all scan_x
scan_all-space zero s = refl
scan_all-space (suc n) s = refl

-- `sscanf` reads back printed numbers, as many as it has conversions for.
scan_all-print :
    (n id : ℕ) (ds : List ℕ)
    → id < 2 ^ 32
    → AllBelow 256 ds
    → length ds ≤ n
    → scan_all (suc n) (print_x id ++ hex_words ds) ≡ id ∷ ds
scan_all-print n id [] hid h len =
    scan_all_step n _ (scan_x-print id [] hid) ∙ ap (λ l. id ∷ l) (scan_all-nil n)
scan_all-print zero id (d ∷ ds) hid h len = absurd (omega arith)
scan_all-print (suc n) id (d ∷ ds) hid (hd, hds) len =
    scan_all_step (suc n) _ (scan_x-print id (d ∷ ds) hid)
    ∙ ap (λ l. id ∷ l)
        (scan_all-space (suc n) (print_x d ++ hex_words ds)
          ∙ scan_all-print n d ds (omega arith) hds (omega arith))

fill_lem :
    (ds old : List ℕ)
    → AllBelow 256 ds
    → length ds ≤ length old
    → fill ds old ≡ ds ++ drop (length ds) old
fill_lem [] old h len = refl
fill_lem (d ∷ ds) [] h len = absurd (omega arith)
fill_lem (d ∷ ds) (o ∷ old) (hd, hds) len = ground (arith, fill_lem ds old hds)

-- The text behind the first '#', where printed digits and a space stand in front of it.
after_hash-dec :
    (ts s : List ℕ) → AllBelow 10 ts → after_hash (map dec_char ts ++ (codes " #" ++ s)) ≡ some s
after_hash-dec [] s h = refl
after_hash-dec (t ∷ ts) s (ht, hts) = ground (arith, after_hash-dec ts s hts)

dec_char-skip : (d : ℕ) (s : List ℕ) → d < 10 → skip_spaces (dec_char d ∷ s) ≡ dec_char d ∷ s
dec_char-skip d s h = ground arith

dec_char-sign :
    (d : ℕ) (s : List ℕ) → d < 10 → strip_sign (dec_char d ∷ s) ≡ (false, dec_char d ∷ s)
dec_char-sign d s h = ground arith

atoi-digits :
    (d : ℕ) (ds s : List ℕ)
    → d < 10
    → AllBelow 10 ds
    → value_from 10 0 (d ∷ ds) < 2 ^ 32
    → atoi_u32 (map dec_char (d ∷ ds) ++ (32 ∷ s)) ≡ value_from 10 0 (d ∷ ds)
unfolding atoi_u32
atoi-digits d ds s hd hds small =
    let rest : List ℕ = map dec_char ds ++ (32 ∷ s) in
    ap atoi_signed (ap strip_sign (dec_char-skip d rest hd) ∙ dec_char-sign d rest hd)
    ∙ ap (λ t. atoi_value false (value_from 10 0 t.0))
        (span_dec-print (d ∷ ds) (32 ∷ s) (hd, hds) refl)
    ∙ ground arith

-- `atoi` reads back a time stamp of 32 bits.
atoi-print : (ts : ℕ) (s : List ℕ) → ts < 2 ^ 32 → atoi_u32 (print_u ts ++ (32 ∷ s)) ≡ ts
unfolding print_u
atoi-print ts s h =
    let (d, ds, e) = digits_of-cons 10 19 ts in
    let (hd, hds) = rw e at (digits-below_10 19 ts (omega arith)) in
    let v = rw e at (value-digits 10 19 ts) in rw e (atoi-digits d ds s hd hds (rw v h) ∙ v)

after_hash-line :
    (ts : ℕ) (s : List ℕ) → ts < 2 ^ 32 → after_hash (print_u ts ++ (codes " #" ++ s)) ≡ some s
unfolding print_u
after_hash-line ts s h = after_hash-dec (digits_of 10 19 ts) s (digits-below_10 19 ts (omega arith))

-- `parseCANstr` reads back every message written as its comment says: a time stamp of 32 bits in
-- decimal, an identifier of 16 bits and up to eight bytes in hexadecimal. It sets the length to the
-- number of bytes, and the bytes of the array behind them stay as they were.
pub parse_can_str-can_line :
    (ts id : ℕ) (ds old : List ℕ)
    → ts < 2 ^ 32
    → id < 2 ^ 16
    → AllBelow 256 ds
    → length ds ≤ 8
    → length old ≡ 8
    → parse_can_str (can_line ts id ds) old
      ≡ some (record {
        id = id;
        timestamp = ts;
        length = length ds;
        bytes = ds ++ drop (length ds) old;
      })
unfolding parse_can_str
parse_can_str-can_line ts id ds old hts hid hds len len_old =
    let body : List ℕ = print_x id ++ hex_words ds in
    let small : id % 2 ^ 16 ≡ id = omega arith in
    rw (
      after_hash-line ts body hts,
      scan_all-print 8 id ds (omega arith) hds len,
      parse_can_str,
      atoi-print ts (b'#' ∷ body) hts,
      fill_lem ds old hds (omega arith),
      small,
    )
