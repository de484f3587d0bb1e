-- ===== src/Json/Pairs.antt =====
-- jsonbta/bta_print.c: the pairs of a document, with what a client reads in a line.
use bta_utils.Prelude.{
  and_parts, ℕ, ◌≡◌, refl, Bool, true, false, not, ◌&&◌, ◌||◌, Option, none, some, List, [], ◌∷◌,
  ◌++◌, codes, ◌==◌, arith, if◌then◌else◌, length, leb, str_eq, ℤ, pos, eqb_ℤ, Bool-cases, inl, inr,
}
use bta_utils.Json.{BtaPars, Group, behind_prefix}
use bta_utils.Json.Print.{
  Telescope, Pair, switch, quoted, mode_text, focus_text, target_text, p2_text, numbers,
  group_pairs, keys_of, system_table, focus_table, target_table, p2_table, pairs_of,
}

-- The reader of a client: lines, the member of a line, and the members up to the closing brace.
abbrev before_lines : ℕ → List (List ℕ) → List (List ℕ)
before_lines c [] = (c ∷ []) ∷ []
before_lines c (l ∷ ls) = (c ∷ l) ∷ ls

abbrev pub lines : List ℕ → List (List ℕ)
lines [] = [] ∷ []
lines (c ∷ s) = if c == 10 then [] ∷ lines s else before_lines c (lines s)

abbrev pub drop_comma : List ℕ → List ℕ
drop_comma [] = []
drop_comma (c ∷ s) = if c == 44 then [] else c ∷ drop_comma s

-- The text up to a quotation mark and what follows it.
abbrev pub line_key : List ℕ → List ℕ × List ℕ
line_key [] = ([], [])
line_key (c ∷ s) = if c == 34 then ([], s) else (c ∷ (line_key s).0, (line_key s).1)

abbrev value_of : List ℕ → Option (List ℕ) → Option Pair
value_of k none = none
value_of k (some v) = some (k, drop_comma v)

abbrev pub member : List ℕ → Option Pair
member [] = none
member (c ∷ s) =
    if c == 34 then value_of (line_key s).0 (behind_prefix (codes ": ") (line_key s).1) else none

abbrev pub before_members : Option Pair → Option (List Pair) → Option (List Pair)
before_members (some p) (some ps) = some (p ∷ ps)
before_members _ _ = none

abbrev pub members : List (List ℕ) → Option (List Pair)
members [] = none
members (l ∷ ls) = if str_eq l (codes "}") then some [] else before_members (member l) (members ls)

abbrev pub read_object : List ℕ → Option (List Pair)
read_object s = elim (lines s) [
  | [] ↦ none
  | l ∷ ls ↦ if str_eq l (codes "{") then members ls else none
]

-- No byte of the list is one of two.
abbrev pub without : ℕ → ℕ → List ℕ → Bool
without a b [] = true
without a b (c ∷ s) = not (c == a) && not (c == b) && without a b s

abbrev pub key_ok : List ℕ → Bool
key_ok k = without 10 34 k && leb (length k) 12

-- A value that is printed on its line: no comma, no new line, and 200 bytes at most.
abbrev pub value_ok : List ℕ → Bool
value_ok v = without 10 44 v && leb (length v) 200

abbrev pub pair_ok : Pair → Bool
pair_ok (k, v) = key_ok k && value_ok v

abbrev pub all_ok : List Pair → Bool
all_ok [] = true
all_ok (p ∷ ps) = pair_ok p && all_ok ps

all_ok-append : (ps qs : List Pair) → all_ok ps ≡ true → all_ok qs ≡ true → all_ok (ps ++ qs) ≡ true
all_ok-append [] qs h k = k
all_ok-append (p ∷ ps) qs h k = ground (arith, all_ok-append ps qs)

abbrev all_keys : List (List ℕ) → Bool
all_keys [] = true
all_keys (k ∷ ks) = key_ok k && all_keys ks

and_true : (a b : Bool) → a ≡ true → b ≡ true → (a && b) ≡ true
and_true a b h k = ground arith

numbers-all_ok :
    (t : Telescope) (ks : List (List ℕ))
    → ((k : List ℕ) → value_ok (t.value_text k) ≡ true)
    → all_keys ks ≡ true
    → all_ok (numbers t ks) ≡ true
numbers-all_ok t [] h hk = refl
numbers-all_ok t (k ∷ ks) h hk =
    let (one, more) = and_parts (key_ok k) (all_keys ks) hk in
    and_true (pair_ok (k, t.value_text k)) (all_ok (numbers t ks))
      (and_true (key_ok k) (value_ok (t.value_text k)) one (h k)) (numbers-all_ok t ks h more)

-- The texts of a table are printed on their line, in quotes.
abbrev all_texts : List (ℤ × List ℕ) → Bool
all_texts [] = true
all_texts ((k, s) ∷ cases) = value_ok (quoted s) && all_texts cases

quoted_if :
    (b : Bool) (s u : List ℕ)
    → value_ok (quoted s) ≡ true
    → value_ok (quoted u) ≡ true
    → value_ok (quoted (if b then s else u)) ≡ true
quoted_if true s u h k = h
quoted_if false s u h k = k

switch-value_ok :
    (x : ℤ) (cases : List (ℤ × List ℕ)) (default : List ℕ)
    → all_texts cases ≡ true
    → value_ok (quoted default) ≡ true
    → value_ok (quoted (switch x cases default)) ≡ true
switch-value_ok x [] default h hd = hd
switch-value_ok x ((k, s) ∷ cases) default h hd =
    let (one, more) = and_parts (value_ok (quoted s)) (all_texts cases) h in
    quoted_if (eqb_ℤ x k) s (switch x cases default) one (switch-value_ok x cases default more hd)

mode_text-value_ok : (t : Telescope) → value_ok (quoted (mode_text t)) ≡ true
unfolding mode_text
mode_text-value_ok t = quoted_if (eqb_ℤ t.tel_hardware (pos 0)) _ _ refl (
    quoted_if (not (eqb_ℤ t.tel_mode (pos 0))) _ _ refl
      (switch-value_ok t.sys_mode system_table (codes "Stopping") refl refl))

p2_text-value_ok : (t : Telescope) → value_ok (quoted (p2_text t)) ≡ true
unfolding p2_text
p2_text-value_ok t =
    quoted_if (eqb_ℤ t.tel_hardware (pos 1)) _ _
      (switch-value_ok t.p2_state p2_table (codes "Stop") refl refl) refl

single : (v : List ℕ) → value_ok v ≡ true → (value_ok v && true) ≡ true
single v h = ground arith

all_keys_if :
    (b : Bool) (ks : List (List ℕ)) → all_keys ks ≡ true → all_keys (if b then ks else []) ≡ true
all_keys_if true ks h = h
all_keys_if false ks h = refl

all_keys-append :
    (ks ls : List (List ℕ)) → all_keys ks ≡ true → all_keys ls ≡ true → all_keys (ks ++ ls) ≡ true
all_keys-append [] ls h k = k
all_keys-append (x ∷ ks) ls h k = ground (arith, all_keys-append ks ls)

meteo-all_keys : (t : Telescope) → all_keys (keys_of t Group.meteo) ≡ true
meteo-all_keys t =
    all_keys-append (if t.has_blast then codes "Blast10" ∷ codes "Blast15" ∷ [] else [])
      (codes "ValHumd" ∷ (if t.has_precip then codes "Precipt" ∷ [] else []))
      (all_keys_if t.has_blast (codes "Blast10" ∷ codes "Blast15" ∷ []) refl)
      (all_keys_if t.has_precip (codes "Precipt" ∷ []) refl)

group_pairs-all_ok :
    (t : Telescope) (g : Group)
    → ((k : List ℕ) → value_ok (t.value_text k) ≡ true)
    → all_ok (group_pairs t g) ≡ true
unfolding group_pairs focus_text target_text
group_pairs-all_ok t Group.telmode h = single (quoted (mode_text t)) (mode_text-value_ok t)
group_pairs-all_ok t Group.telfocus h =
    and_true (value_ok (quoted (focus_text t.tel_focus))) _
      (switch-value_ok t.tel_focus focus_table (codes "Prime") refl refl)
      (numbers-all_ok t (keys_of t Group.telfocus) h refl)
group_pairs-all_ok t Group.target h =
    single (quoted (target_text t.sys_target))
      (switch-value_ok t.sys_target target_table (codes "Object") refl refl)
group_pairs-all_ok t Group.p2mode h = single (quoted (p2_text t)) (p2_text-value_ok t)
group_pairs-all_ok t Group.meteo h = numbers-all_ok t (keys_of t Group.meteo) h (meteo-all_keys t)
group_pairs-all_ok t Group.mtime h = numbers-all_ok t (keys_of t Group.mtime) h refl
group_pairs-all_ok t Group.sidtime h = numbers-all_ok t (keys_of t Group.sidtime) h refl
group_pairs-all_ok t Group.eqcoor h = numbers-all_ok t (keys_of t Group.eqcoor) h refl
group_pairs-all_ok t Group.horcoor h = numbers-all_ok t (keys_of t Group.horcoor) h refl
group_pairs-all_ok t Group.valsens h = numbers-all_ok t (keys_of t Group.valsens) h refl
group_pairs-all_ok t Group.diff h = numbers-all_ok t (keys_of t Group.diff) h refl
group_pairs-all_ok t Group.vel h = numbers-all_ok t (keys_of t Group.vel) h refl
group_pairs-all_ok t Group.corr h = numbers-all_ok t (keys_of t Group.corr) h refl

pub pairs_of-all_ok :
    (par : BtaPars) (t : Telescope) (gs : List Group)
    → ((k : List ℕ) → value_ok (t.value_text k) ≡ true)
    → all_ok (pairs_of par t gs) ≡ true
unfolding pairs_of
pairs_of-all_ok par t [] h = refl
pairs_of-all_ok par t (g ∷ gs) h = elim (Bool-cases (par.all || par.has g)) [
  | inl asked ↦
      rw asked
        (all_ok-append (group_pairs t g) _ (group_pairs-all_ok t g h) (pairs_of-all_ok par t gs h))
  | inr other ↦ rw other (pairs_of-all_ok par t gs h)
]
