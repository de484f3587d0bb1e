-- ===== src/Daemon/Name.antt =====
-- daemon.c: what `readname` gives for a path.
use bta_utils.Prelude.{
  ℕ, zero, suc, ◌+◌, ◌≤◌, ◌<◌, ◌≡◌, ◌≢◌, refl, false, some, List, [], ◌∷◌, ◌++◌, ◌==◌, set, length,
  arith, append_assoc, ap, ◌∙◌, length-set, lt→ltb,
}
use bta_utils.Daemon.{read_loop, close_name, readname}

-- The string at the start of a buffer.
abbrev pub c_string : List ℕ → List ℕ
c_string [] = []
c_string (zero ∷ l) = []
c_string (suc x ∷ l) = suc x ∷ c_string l

-- The bytes of a name within a path.
pub data IsName : List ℕ → Type 0 where
  name_end : IsName []
  name_byte : {x : ℕ} {l : List ℕ} → x ≢ 0 → x ≢ 47 → IsName l → IsName (x ∷ l)

-- A path: names with a slash behind each, none longer than 253 bytes.
pub data IsPath : List ℕ → Type 0 where
  path_end : IsPath []
  path_part :
      {l rest : List ℕ} → IsName l → length l ≤ 253 → IsPath rest → IsPath (l ++ (47 ∷ rest))

-- The bytes of a list written from an index on.
abbrev writes : List ℕ → ℕ → List ℕ → List ℕ
writes name pp [] = name
writes name pp (x ∷ l) = writes (set name pp x) (suc pp) l

length-writes : (name : List ℕ) (pp : ℕ) (l : List ℕ) → length (writes name pp l) ≡ length name
length-writes name pp [] = refl
length-writes name pp (x ∷ l) = length-writes (set name pp x) (suc pp) l ∙ length-set name pp x

writes-behind :
    (x : ℕ) (name : List ℕ) (pp : ℕ) (l : List ℕ)
    → writes (x ∷ name) (suc pp) l ≡ x ∷ writes name pp l
writes-behind x name pp [] = refl
writes-behind x name pp (y ∷ l) = writes-behind x (set name pp y) (suc pp) l

-- A byte that is no slash and no end.
step-byte :
    (x : ℕ) (file name : List ℕ) (pp cntr : ℕ)
    → x ≢ 0
    → x ≢ 47
    → cntr < 255
    → read_loop (x ∷ file) name pp cntr ≡ read_loop file (set name pp x) (suc pp) (suc cntr)
unfolding read_loop
step-byte x file name pp cntr not_end no_slash room =
    let a : (x == 0) ≡ false = ground arith in
    let b : (x == 47) ≡ false = ground arith in
    let p : pp + 1 ≡ suc pp = omega arith in
    let c : cntr + 1 ≡ suc cntr = omega arith in rw (a, b, lt→ltb cntr 255 room, p, c) refl

step-slash :
    (file name : List ℕ) (pp cntr : ℕ)
    → read_loop (47 ∷ file) name pp cntr ≡ read_loop file name 0 1
unfolding read_loop
step-slash file name pp cntr = refl

step-end :
    (file name : List ℕ) (pp cntr : ℕ) → read_loop (0 ∷ file) name pp cntr ≡ (set name pp 0, cntr)
unfolding read_loop
step-end file name pp cntr = refl

-- A name is read to where the buffer's index stands.
read_loop-name :
    (l file name : List ℕ) (pp cntr : ℕ)
    → IsName l
    → cntr + length l ≤ 255
    → read_loop (l ++ file) name pp cntr
      ≡ read_loop file (writes name pp l) (pp + length l) (cntr + length l)
read_loop-name [] file name pp cntr name_end room =
    let p : pp + 0 ≡ pp = omega arith in let c : cntr + 0 ≡ cntr = omega arith in rw (p, c) refl
read_loop-name (x ∷ l) file name pp cntr (name_byte not_end no_slash is_name) room =
    let p : pp + suc (length l) ≡ suc pp + length l = omega arith in
    let c : cntr + suc (length l) ≡ suc cntr + length l = omega arith in
    rw (p, c)
      (step-byte x (l ++ file) name pp cntr not_end no_slash (omega arith)
        ∙ read_loop-name l file (set name pp x) (suc pp) (suc cntr) is_name (omega arith))

-- A path is read to its last slash: the buffer is written from its start again, and the counter is
-- 0 or 1.
read_loop-path :
    {dir : List ℕ} (file name : List ℕ) (cntr : ℕ)
    → IsPath dir
    → cntr ≤ 1
    → (name' : List ℕ) × (cntr' : ℕ) × (cntr' ≤ 1)
      × (length name' ≡ length name)
      × (read_loop (dir ++ file) name 0 cntr ≡ read_loop file name' 0 cntr')
read_loop-path file name cntr path_end h = (name, cntr, h, refl, refl)
read_loop-path file name cntr (path_part {l = l} {rest = rest} is_name short is_path) h =
    let name1 = writes name 0 l in
    let (name', cntr', h', same, e) = read_loop-path file name1 1 is_path (omega arith) in
    (
      name',
      cntr',
      h',
      same ∙ length-writes name 0 l,
      rw (append_assoc l (47 ∷ rest) file) (
          read_loop-name l (47 ∷ (rest ++ file)) name 0 cntr is_name (omega arith)
          ∙ step-slash (rest ++ file) name1 (0 + length l) (cntr + length l)
          ∙ e),
    )

-- A name that is written from the buffer's start and ended stays, whatever end follows behind it.
c_string-writes :
    (l name : List ℕ) (k : ℕ)
    → IsName l
    → length l < length name
    → length l ≤ k
    → c_string (set (set (writes name 0 l) (length l) 0) k 0) ≡ l
c_string-writes l [] k is_name h le = absurd (omega arith)
c_string-writes [] (y ∷ name) zero is_name h le = refl
c_string-writes [] (y ∷ name) (suc k) is_name h le = refl
c_string-writes (x ∷ l) (y ∷ name) zero is_name h le = absurd (omega arith)
c_string-writes (zero ∷ l) (y ∷ name) (suc k) (name_byte not_end no_slash is_name) h le =
    absurd (not_end refl)
c_string-writes (suc x ∷ l) (y ∷ name) (suc k) (name_byte not_end no_slash is_name) h le =
    rw (writes-behind (suc x) name 0 l)
      (ap (λ r. suc x ∷ r) (c_string-writes l name k is_name (omega arith) (omega arith)))

close_name-room :
    (name : List ℕ) (cntr : ℕ)
    → cntr < length name
    → close_name (name, cntr) ≡ some (set name cntr 0)
unfolding close_name
close_name-room name cntr h = rw (lt→ltb cntr (length name) h) refl

-- The name of a process is what stands behind the last slash of its path, where the name and the
-- names before it have 253 bytes at most, whatever the buffer held before.
pub readname_lem :
    {dir base : List ℕ} (rest old : List ℕ)
    → IsPath dir
    → IsName base
    → length base ≤ 253
    → length old ≡ 256
    → (name : List ℕ) × (readname (dir ++ (base ++ (0 ∷ rest))) old ≡ some name)
      × (c_string name ≡ base)
unfolding readname
readname_lem {dir} {base} rest old is_path is_name short size =
    let (name', cntr, h, same, e) =
      read_loop-path (base ++ (0 ∷ rest)) old 0 is_path (omega arith) in
    let written = writes name' 0 base in
    let none_before : 0 + length base ≡ length base = omega arith in
    let read =
      e
      ∙ read_loop-name base (0 ∷ rest) name' 0 cntr is_name (omega arith)
      ∙ ap (λ n. read_loop (0 ∷ rest) written n (cntr + length base)) none_before
      ∙ step-end rest written (length base) (cntr + length base) in
    let ended = set written (length base) 0 in
    let room = length-set written (length base) 0 ∙ length-writes name' 0 base ∙ same ∙ size in
    (
      set ended (cntr + length base) 0,
      ap close_name read ∙ close_name-room ended (cntr + length base) (omega (arith, room)),
      c_string-writes base name' (cntr + length base) is_name (omega (arith, same, size))
          (omega arith),
    )
