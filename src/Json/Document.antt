-- ===== src/Json/Document.antt =====
-- jsonbta/bta_print.c: a client reads the document back, line by line.
use bta_utils.Prelude.{
  if◌then◌else◌, none, and_parts, ℕ, ◌+◌, ◌≤◌, ◌≡◌, refl, sym, ap, ◌∙◌, Bool, true, not, ◌&&◌,
  Option, some, List, [], ◌∷◌, ◌++◌, append_assoc, codes, ◌==◌, arith, length, length-append, ltb,
  leb, lt→ltb, leb→le,
}
use bta_utils.Json.{BtaPars}
use bta_utils.Json.Print.{Telescope, Pair, printed, pairs_of, pair_text, json_send, make_json}
use bta_utils.Json.Pairs.{
  lines, drop_comma, line_key, member, before_members, members, read_object, without, key_ok,
  value_ok, pair_ok, all_ok, pairs_of-all_ok,
}

-- What is sent of the pairs, the end included.
abbrev tail_text : List Pair → List ℕ
tail_text [] = codes "\n}\n"
tail_text (p ∷ ps) = pair_text p ++ tail_text ps

pair_text-fits : (p : Pair) → pair_ok p ≡ true → ltb (length (pair_text p)) 255 ≡ true
pair_text-fits (k, v) h =
    let (hk, hv) = and_parts (key_ok k) (value_ok v) h in
    let (_, lk) = and_parts (without 10 34 k) (leb (length k) 12) hk in
    let (_, lv) = and_parts (without 10 44 v) (leb (length v) 200) hv in
    let short_key : length k ≤ 12 = leb→le (length k) 12 lk in
    let short_value : length v ≤ 200 = leb→le (length v) 200 lv in
    let sum : length (k ++ (34 ∷ 58 ∷ 32 ∷ v)) ≡ length k + length (34 ∷ 58 ∷ 32 ∷ v) =
      length-append k (34 ∷ 58 ∷ 32 ∷ v) in
    lt→ltb (length (pair_text (k, v))) 255 (omega arith)

json_send_lem : (ps : List Pair) → all_ok ps ≡ true → json_send ps ≡ some (tail_text ps)
unfolding json_send
json_send_lem [] h = refl
json_send_lem (p ∷ ps) h =
    let (one, more) = and_parts (pair_ok p) (all_ok ps) h in
    rw (pair_text-fits p one, json_send_lem ps more) refl

-- A line without a new line in it.
abbrev no_nl : List ℕ → Bool
no_nl [] = true
no_nl (c ∷ s) = not (c == 10) && no_nl s

lines-append : (l s : List ℕ) → no_nl l ≡ true → lines (l ++ (10 ∷ s)) ≡ l ∷ lines s
lines-append [] s h = refl
lines-append (c ∷ l) s h = ground (arith, lines-append l s)

no_nl-append : (s t : List ℕ) → no_nl s ≡ true → no_nl t ≡ true → no_nl (s ++ t) ≡ true
no_nl-append [] t h k = k
no_nl-append (c ∷ s) t h k = ground (arith, no_nl-append s t)

without-no_nl : (b : ℕ) (s : List ℕ) → without 10 b s ≡ true → no_nl s ≡ true
without-no_nl b [] h = refl
without-no_nl b (c ∷ s) h = ground (arith, without-no_nl b s)

line_key-append : (k s : List ℕ) → without 10 34 k ≡ true → line_key (k ++ (34 ∷ s)) ≡ (k, s)
line_key-append [] s h = refl
line_key-append (c ∷ k) s h = ground (arith, line_key-append k s)

drop_comma-append : (v : List ℕ) → without 10 44 v ≡ true → drop_comma (v ++ (44 ∷ [])) ≡ v
drop_comma-append [] h = refl
drop_comma-append (c ∷ v) h = ground (arith, drop_comma-append v)

drop_comma-plain : (v : List ℕ) → without 10 44 v ≡ true → drop_comma v ≡ v
drop_comma-plain [] h = refl
drop_comma-plain (c ∷ v) h = ground (arith, drop_comma-plain v)

-- A member as it stands on its line.
abbrev member_text : Pair → List ℕ
member_text (k, v) = codes "\"" ++ (k ++ (codes "\": " ++ v))

key_part : (k v : List ℕ) → pair_ok (k, v) ≡ true → without 10 34 k ≡ true
key_part k v h =
    (and_parts (without 10 34 k) (leb (length k) 12) (and_parts (key_ok k) (value_ok v) h).0).0

value_part : (k v : List ℕ) → pair_ok (k, v) ≡ true → without 10 44 v ≡ true
value_part k v h =
    (and_parts (without 10 44 v) (leb (length v) 200) (and_parts (key_ok k) (value_ok v) h).1).0

-- A member's line, with and without the comma behind it.
member-comma : (p : Pair) → pair_ok p ≡ true → member (member_text p ++ (44 ∷ [])) ≡ some p
member-comma (k, v) h =
    rw
      (
        append_assoc k (codes "\": " ++ v) (44 ∷ []),
        line_key-append k (58 ∷ 32 ∷ (v ++ (44 ∷ []))) (key_part k v h),
      )
      (rw (drop_comma-append v (value_part k v h)) refl)

member-last : (p : Pair) → pair_ok p ≡ true → member (member_text p) ≡ some p
member-last (k, v) h =
    rw (line_key-append k (58 ∷ 32 ∷ v) (key_part k v h))
      (rw (drop_comma-plain v (value_part k v h)) refl)

member-no_nl : (p : Pair) → pair_ok p ≡ true → no_nl (member_text p) ≡ true
member-no_nl (k, v) h =
    no_nl-append k (codes "\": " ++ v) (without-no_nl 34 k (key_part k v h))
      (without-no_nl 44 v (value_part k v h))

before_members-some :
    {o : Option Pair} {m : Option (List Pair)} {p : Pair} {ps : List Pair}
    → o ≡ some p
    → m ≡ some ps
    → before_members o m ≡ some (p ∷ ps)
before_members-some ho hm = rw (ho, hm) refl

-- The members behind a text's first are read back.
members-tail :
    (p : Pair) (ps : List Pair)
    → pair_ok p ≡ true
    → all_ok ps ≡ true
    → members (lines (member_text p ++ tail_text ps)) ≡ some (p ∷ ps)
members-tail p [] h hs =
    rw (lines-append (member_text p) (codes "}\n") (member-no_nl p h), member-last p h) refl
members-tail p (q ∷ qs) h hs =
    let (hq, hqs) = and_parts (pair_ok q) (all_ok qs) hs in
    let line = member_text p ++ (44 ∷ []) in
    let shape : member_text p ++ tail_text (q ∷ qs)
        ≡ line ++ (10 ∷ (member_text q ++ tail_text qs)) =
      sym (append_assoc (member_text p) (44 ∷ []) (10 ∷ (member_text q ++ tail_text qs))) in
    let next =
      lines-append line (member_text q ++ tail_text qs)
        (no_nl-append (member_text p) (44 ∷ []) (member-no_nl p h) refl) in
    ap (λ s. members (lines s)) shape
    ∙ ap members next
    ∙ before_members-some (member-comma p h) (members-tail q qs hq hqs)

-- Where the segment is valid, a document can be sent whatever is asked for, when the texts of the values have neither a comma nor a
-- new line and 200 bytes at most; read line by line it is the member ACS_BTA and the pairs of the
-- groups asked for, in the order of the groups.
pub make_json-read_object :
    (par : BtaPars) (t : Telescope)
    → ((k : List ℕ) → value_ok (t.value_text k) ≡ true)
    → (doc : List ℕ) × (make_json par t ≡ (if t.shm_ok then some (some doc) else none))
      × (read_object doc ≡ some ((codes "ACS_BTA", codes "true") ∷ pairs_of par t printed))
unfolding make_json
make_json-read_object par t h =
    let ps = pairs_of par t printed in
    let ok : all_ok ps ≡ true = pairs_of-all_ok par t printed h in
    (
      codes "{\n" ++ (member_text (codes "ACS_BTA", codes "true") ++ tail_text ps),
      rw (json_send_lem ps ok) refl,
      members-tail (codes "ACS_BTA", codes "true") ps refl ok,
    )
