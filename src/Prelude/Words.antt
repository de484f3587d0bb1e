-- ===== src/Prelude/Words.antt =====
-- Machine words: little-endian bytes of a word, C integers given as ℤ, a number from its bytes.
use Prim.Native.Nat.{ℕ, ◌+◌, ◌-◌, ◌*◌, ◌/◌, ◌%◌, ◌^◌, ◌<◌}
use mathlib.Core.Path.{◌≡◌}
use mathlib.Core.List.{List, [], ◌∷◌}
use mathlib.Core.Bool.{Bool, true, false}
use bta_utils.Prelude.Tests.{◌==◌}
use native.Mathlib.Omega.{arith}

-- A C integer that may be negative; `negsuc n` is -(n + 1).
pub data ℤ : Type 0 where
  pos : ℕ → ℤ
  negsuc : ℕ → ℤ

abbrev pub eqb_ℤ : ℤ → ℤ → Bool
eqb_ℤ (pos m) (pos n) = m == n
eqb_ℤ (pos m) (negsuc n) = false
eqb_ℤ (negsuc m) (pos n) = false
eqb_ℤ (negsuc m) (negsuc n) = m == n

pub eqb_ℤ_refl : (a : ℤ) → eqb_ℤ a a ≡ true
eqb_ℤ_refl (pos n) = ground arith
eqb_ℤ_refl (negsuc n) = ground arith

-- `(uint16_t) x` and `(uint32_t) x`.
abbrev pub to_u16 : ℤ → ℕ
to_u16 (pos n) = n % 2 ^ 16
to_u16 (negsuc n) = 2 ^ 16 - 1 - n % 2 ^ 16

abbrev pub to_u32 : ℤ → ℕ
to_u32 (pos n) = n % 2 ^ 32
to_u32 (negsuc n) = 2 ^ 32 - 1 - n % 2 ^ 32

-- The four bytes of an `uint32_t`, as a little-endian machine stores them.
abbrev pub bytes_of_u32 : ℕ → List ℕ
bytes_of_u32 w = (w % 256) ∷ (w / 2 ^ 8 % 256) ∷ (w / 2 ^ 16 % 256) ∷ (w / 2 ^ 24 % 256) ∷ []

abbrev pub u32_of_bytes : ℕ → ℕ → ℕ → ℕ → ℕ
u32_of_bytes a b c d = a + b * 2 ^ 8 + c * 2 ^ 16 + d * 2 ^ 24

-- Reading back the bytes of a word gives the word.
pub u32_of_bytes-bytes :
    (w : ℕ)
    → w < 2 ^ 32
    → u32_of_bytes (w % 256) (w / 2 ^ 8 % 256) (w / 2 ^ 16 % 256) (w / 2 ^ 24 % 256) ≡ w
u32_of_bytes-bytes w h = omega arith
