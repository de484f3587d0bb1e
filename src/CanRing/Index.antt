-- ===== src/CanRing/Index.antt =====
-- The unread frames of a reader of the CAN receive ring, as a window of the array.
use bta_utils.Prelude.{
  ℕ, zero, suc, ◌+◌, ◌%◌, ◌<◌, ◌≡◌, refl, ap, ◌≢◌, some, List, [], ◌∷◌, ◌++◌, length, get_elem?,
  set, arith, pos,
}
use bta_utils.CanRing.{Frame}

abbrev pub blank_frame : Frame
blank_frame = record {
  id = pos 0;
  timestamp = record { tv_sec = 0; tv_usec = 0 };
  length = pos 0;
  bytes = [];
}

-- The slot `i`, or a blank frame outside the array.
abbrev pub slot : List Frame → ℕ → Frame
slot [] i = blank_frame
slot (x ∷ xs) zero = x
slot (x ∷ xs) (suc i) = slot xs i

pub get_elem?-slot : (xs : List Frame) (i : ℕ) → i < length xs → get_elem? xs i ≡ some (slot xs i)
get_elem?-slot [] i h = absurd (omega arith)
get_elem?-slot (x ∷ xs) zero h = refl
get_elem?-slot (x ∷ xs) (suc i) h = get_elem?-slot xs i (omega arith)

slot-set_self : (xs : List Frame) (i : ℕ) (v : Frame) → i < length xs → slot (set xs i v) i ≡ v
slot-set_self [] i v h = absurd (omega arith)
slot-set_self (x ∷ xs) zero v h = refl
slot-set_self (x ∷ xs) (suc i) v h = slot-set_self xs i v (omega arith)

slot-set_ne : (xs : List Frame) (i j : ℕ) (v : Frame) → i ≢ j → slot (set xs i v) j ≡ slot xs j
slot-set_ne [] i j v h = refl
slot-set_ne (x ∷ xs) zero zero v h = absurd (h refl)
slot-set_ne (x ∷ xs) zero (suc j) v h = refl
slot-set_ne (x ∷ xs) (suc i) zero v h = refl
slot-set_ne (x ∷ xs) (suc i) (suc j) v h = slot-set_ne xs i j v (λ e. h (ap suc e))

-- The `n` frames from slot `p` on, round the end of the ring.
abbrev pub window : List Frame → ℕ → ℕ → List Frame
window buf p zero = []
window buf p (suc n) = slot buf p ∷ window buf ((p + 1) % 1000) n

pub length-window : (buf : List Frame) (p n : ℕ) → length (window buf p n) ≡ n
length-window buf p zero = refl
length-window buf p (suc n) = ap suc (length-window buf ((p + 1) % 1000) n)

-- Writing the slot behind a window makes the window longer by the frame written.
pub window-set :
    (buf : List Frame) (p n i : ℕ) (x : Frame)
    → length buf ≡ 1000
    → p < 1000
    → n < 1000
    → i ≡ (p + n) % 1000
    → window (set buf i x) p (suc n) ≡ window buf p n ++ (x ∷ [])
window-set buf p zero i x len hp hn e = ap (λ f. f ∷ []) (ground (arith, slot-set_self buf p x))
window-set buf p (suc n) i x len hp hn e =
    ground (arith, slot-set_ne buf i p x (omega arith), window-set buf ((p + 1) % 1000) n i x)
