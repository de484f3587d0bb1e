-- ===== src/Prelude/Text.antt =====
-- C strings as lists of bytes: literals, comparison, and numbers in base 10 and 16.
use Prim.Native.Char.{code}
use Prim.Native.String.{String}
use bta_utils.Prelude.Tests.{ltb, leb, ◌==◌, if◌then◌else◌, Bool-cases, ltb→lt, lt→ltb}
use bta_utils.Prelude.Lists.{length, length-append, length-map}
use Prim.Native.Nat.{ℕ, zero, suc, ◌+◌, ◌-◌, ◌*◌, ◌/◌, ◌%◌, ◌^◌, ◌≤◌, ◌<◌}
use mathlib.Core.Path.{◌≡◌, refl}
use mathlib.Core.Logic.{inl, inr}
use mathlib.Core.Bool.{Bool, true, false, ◌&&◌, ◌||◌}
use mathlib.Core.List.{List, [], ◌∷◌, ◌++◌, map}
use native.Mathlib.Omega.{arith}
use native.Mathlib.Nat.{div-add-mod, pow-suc}

-- The bytes of an ASCII literal.
abbrev pub codes : String → List ℕ
codes String.[] = []
codes (String.◌∷◌ c s) = code c ∷ codes s

-- `strcmp(a, b) == 0`
abbrev pub str_eq : List ℕ → List ℕ → Bool
str_eq [] [] = true
str_eq [] (b ∷ bs) = false
str_eq (a ∷ s) [] = false
str_eq (a ∷ s) (b ∷ bs) = a == b && str_eq s bs

pub str_eq→eq : (a b : List ℕ) → str_eq a b ≡ true → a ≡ b
str_eq→eq [] [] h = refl
str_eq→eq [] (b ∷ bs) h = ground arith
str_eq→eq (a ∷ s) [] h = ground arith
str_eq→eq (a ∷ s) (b ∷ bs) h = ground (arith, str_eq→eq s bs)

pub str_eq_refl : (a : List ℕ) → str_eq a a ≡ true
str_eq_refl [] = refl
str_eq_refl (a ∷ s) = ground (arith, str_eq_refl s)

abbrev pub to_lower : ℕ → ℕ
to_lower c = if leb 65 c && leb c 90 then c + 32 else c

-- `strcasecmp(a, b) == 0`
abbrev pub str_case_eq : List ℕ → List ℕ → Bool
str_case_eq a b = str_eq (map to_lower a) (map to_lower b)

-- `isspace` in the C locale.
abbrev pub is_space : ℕ → Bool
is_space c = c == 32 || (leb 9 c && leb c 13)

abbrev pub skip_spaces : List ℕ → List ℕ
skip_spaces [] = []
skip_spaces (c ∷ s) = if is_space c then skip_spaces s else c ∷ s

-- The digits of a number, the highest first, and the number that digits stand for.
unfoldable pub digits_of : ℕ → ℕ → ℕ → List ℕ
digits_of base zero n = n ∷ []
digits_of base (suc fuel) n =
    let high = digits_of base fuel (n / base) in
    if ltb n base then n ∷ [] else high ++ (n % base ∷ [])

abbrev pub value_from : ℕ → ℕ → List ℕ → ℕ
value_from base v [] = v
value_from base v (d ∷ ds) = value_from base (v * base + d) ds

pub value_from-append :
    (base v : ℕ) (ds es : List ℕ)
    → value_from base v (ds ++ es) ≡ value_from base (value_from base v ds) es
value_from-append base v [] es = refl
value_from-append base v (d ∷ ds) es = value_from-append base (v * base + d) ds es

-- The digits of a number stand for that number, at any base and however little fuel.
pub value-digits : (base fuel n : ℕ) → value_from base 0 (digits_of base fuel n) ≡ n
unfolding digits_of
value-digits base zero n = omega arith
value-digits base (suc fuel) n = elim (Bool-cases (ltb n base)) [
  | inl small ↦ rw small (omega arith)
  | inr large ↦
      rw
        (
          large,
          value_from-append base 0 (digits_of base fuel (n / base)) (n % base ∷ []),
          value-digits base fuel (n / base),
        )
        (omega (arith, div-add-mod n base))
]

-- All entries are below the bound.
abbrev pub AllBelow : ℕ → List ℕ → Type 0
AllBelow b [] = Unit
AllBelow b (x ∷ xs) = (x < b) × AllBelow b xs

pub AllBelow-append :
    (b : ℕ) (xs ys : List ℕ) → AllBelow b xs → AllBelow b ys → AllBelow b (xs ++ ys)
AllBelow-append b [] ys h k = k
AllBelow-append b (x ∷ xs) ys h k = (h.0, AllBelow-append b xs ys h.1 k)

-- The digits in base 10 and 16 are digits, where the fuel covers the number.
pub digits-below_10 : (fuel n : ℕ) → n < 10 ^ suc fuel → AllBelow 10 (digits_of 10 fuel n)
unfolding digits_of
digits-below_10 zero n h = (h, tt)
digits-below_10 (suc fuel) n h = elim (Bool-cases (ltb n 10)) [
  | inl small ↦ rw small (ltb→lt _ _ small, tt)
  | inr large ↦ rw large (
      AllBelow-append 10 (digits_of 10 fuel (n / 10)) (n % 10 ∷ [])
        (digits-below_10 fuel (n / 10) (omega (arith, pow-suc 10 (suc fuel)))) (omega arith))
]

pub digits-below_16 : (fuel n : ℕ) → n < 16 ^ suc fuel → AllBelow 16 (digits_of 16 fuel n)
unfolding digits_of
digits-below_16 zero n h = (h, tt)
digits-below_16 (suc fuel) n h = elim (Bool-cases (ltb n 16)) [
  | inl small ↦ rw small (ltb→lt _ _ small, tt)
  | inr large ↦ rw large (
      AllBelow-append 16 (digits_of 16 fuel (n / 16)) (n % 16 ∷ [])
        (digits-below_16 fuel (n / 16) (omega (arith, pow-suc 16 (suc fuel)))) (omega arith))
]

-- A number below 10^k has at most k digits, and any number has one.
pub length-digits_10 :
    (fuel n k : ℕ)
    → n < 10 ^ suc k
    → (1 ≤ length (digits_of 10 fuel n)) × (length (digits_of 10 fuel n) ≤ suc k)
unfolding digits_of
length-digits_10 zero n k h = omega arith
length-digits_10 (suc fuel) n zero h = rw (lt→ltb n 10 (omega arith)) (omega arith)
length-digits_10 (suc fuel) n (suc k) h = elim (Bool-cases (ltb n 10)) [
  | inl small ↦ rw small (omega arith)
  | inr large ↦ rw large (
      omega (
        arith,
        length-append (digits_of 10 fuel (n / 10)) (n % 10 ∷ []),
        length-digits_10 fuel (n / 10) k (omega (arith, pow-suc 10 (suc k))),
      ))
]

-- `%u` and `%x`: 20 digits in base 10 and 16 in base 16 are enough for 64 bits.
abbrev pub dec_char : ℕ → ℕ
dec_char d = d + 48

abbrev pub hex_char : ℕ → ℕ
hex_char d = if ltb d 10 then d + 48 else d + 87

unfoldable pub print_u : ℕ → List ℕ
unfolding digits_of
print_u n = map dec_char (digits_of 10 19 n)

unfoldable pub print_x : ℕ → List ℕ
unfolding digits_of
print_x n = map hex_char (digits_of 16 15 n)

pub length-print_u : (n k : ℕ) → n < 10 ^ suc k → length (print_u n) ≤ suc k
unfolding print_u
length-print_u n k h =
    omega (arith, length-map (digits_of 10 19 n) dec_char, length-digits_10 19 n k h)

-- The value of a hexadecimal digit, and 16 for another byte.
abbrev pub hex_value : ℕ → ℕ
hex_value c =
    if leb 48 c && leb c 57
    then c - 48
    else (if leb 97 c && leb c 102 then c - 87 else (if leb 65 c && leb c 70 then c - 55 else 16))

-- The digits at the front of a text and what follows them.
abbrev pub span_dec : List ℕ → List ℕ × List ℕ
span_dec [] = ([], [])
span_dec (c ∷ s) =
    if leb 48 c && leb c 57 then ((c - 48) ∷ (span_dec s).0, (span_dec s).1) else ([], c ∷ s)

abbrev pub span_hex : List ℕ → List ℕ × List ℕ
span_hex [] = ([], [])
span_hex (c ∷ s) =
    if ltb (hex_value c) 16 then (hex_value c ∷ (span_hex s).0, (span_hex s).1) else ([], c ∷ s)

hex_value-hex_char : (d : ℕ) → d < 16 → hex_value (hex_char d) ≡ d
hex_value-hex_char d h = ground arith

-- Digits that are printed are read back, where what follows is no digit.
pub span_dec-print :
    (ds rest : List ℕ)
    → AllBelow 10 ds
    → span_dec rest ≡ ([], rest)
    → span_dec (map dec_char ds ++ rest) ≡ (ds, rest)
span_dec-print [] rest h stop = stop
span_dec-print (d ∷ ds) rest (hd, hds) stop = ground (arith, span_dec-print ds rest hds stop)

pub span_hex-print :
    (ds rest : List ℕ)
    → AllBelow 16 ds
    → span_hex rest ≡ ([], rest)
    → span_hex (map hex_char ds ++ rest) ≡ (ds, rest)
span_hex-print [] rest h stop = stop
span_hex-print (d ∷ ds) rest (hd, hds) stop =
    rw (hex_value-hex_char d hd, lt→ltb d 16 hd, span_hex-print ds rest hds stop)

append-cons : (xs : List ℕ) (y : ℕ) → (d : ℕ) × (ds : List ℕ) × (xs ++ (y ∷ []) ≡ d ∷ ds)
append-cons [] y = (y, [], refl)
append-cons (x ∷ xs) y = (x, xs ++ (y ∷ []), refl)

-- A number has at least one digit.
pub digits_of-cons : (base fuel n : ℕ) → (d : ℕ) × (ds : List ℕ) × (digits_of base fuel n ≡ d ∷ ds)
unfolding digits_of
digits_of-cons base zero n = (n, [], refl)
digits_of-cons base (suc fuel) n = elim (Bool-cases (ltb n base)) [
  | inl small ↦ (n, [], rw small)
  | inr large ↦
      let (d, ds, e) = append-cons (digits_of base fuel (n / base)) (n % base) in
      (d, ds, rw large e)
]
