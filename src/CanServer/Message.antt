-- ===== src/CanServer/Message.antt =====
-- Network_CAN_clientserver/parsecanmsgs.c: what `CANu32setter` and `CANu32getter` put into a message,
-- and the line that `formCANmsg` makes of a message.
use bta_utils.Prelude.{
  ℕ, ◌+◌, ◌-◌, ◌*◌, ◌/◌, ◌%◌, ◌^◌, ◌≤◌, ◌<◌, ◌≡◌, refl, ◌∙◌, some, List, [], ◌∷◌, ◌++◌, length,
  take, get_or, arith, ltb, leb, pos, bytes_of_u32, codes, print_u, AllBelow, eight_entries,
  take-all, length-take, length-append, length-print_u, append-nil, append_assoc, lt→ltb, false,
}
use bta_utils.CanServer.{
  CanMessage, setter_flag, get_cmd, parval, get_u32, can_u32_setter, can_u32_getter, append_printf,
  form_loop, form_end, form_can_msg,
}

-- The layout of a message: the command, the parameter, the error code and the value.
abbrev pub setter_frame : ℕ → ℕ → ℕ → List ℕ
setter_frame cmd par v = (cmd % 256) ∷ (cmd / 256) ∷ (par + setter_flag) ∷ 0 ∷ bytes_of_u32 v

-- `CANu32setter` overwrites the whole array of a message.
pub can_u32_setter_lem :
    (cmd par v : ℕ) (m : CanMessage)
    → cmd ≤ 0xffff
    → par < 128
    → length m.bytes ≡ 8
    → can_u32_setter (pos cmd) par v m
      ≡ some (record m { length = 8; bytes = setter_frame cmd par v })
unfolding can_u32_setter
can_u32_setter_lem cmd par v m hc hp h =
    let (a, b, c, d, e, f, g, i, shape) = eight_entries m.bytes h in ground arith

-- `CANu32getter` writes the first four bytes and leaves the others.
pub can_u32_getter_lem :
    (cmd par : ℕ) (m : CanMessage)
    → cmd ≤ 0xffff
    → par < 256
    → length m.bytes ≡ 8
    → (rest : List ℕ) × (can_u32_getter (pos cmd) par m
        ≡ some (record m { length = 4; bytes = (cmd % 256) ∷ (cmd / 256) ∷ par ∷ 0 ∷ rest }))
      × (length rest ≡ 4)
unfolding can_u32_getter
can_u32_getter_lem cmd par m hc hp h =
    let (a, b, c, d, e, f, g, i, shape) = eight_entries m.bytes h in
    (e ∷ f ∷ g ∷ i ∷ [], ground arith, refl)

-- A setter's message is read back: the command, the parameter with the setter flag, no error and
-- the value, in 8 bytes. The identifier is the caller's.
pub can_u32_setter_fields :
    (cmd par v : ℕ) (m : CanMessage)
    → cmd ≤ 0xffff
    → par < 128
    → v < 2 ^ 32
    → length m.bytes ≡ 8
    → (m' : CanMessage) × (can_u32_setter (pos cmd) par v m ≡ some m')
      × (m'.id ≡ m.id)
      × (m'.length ≡ 8)
      × (get_cmd m'.bytes ≡ cmd)
      × (parval m'.bytes ≡ par)
      × (setter_flag ≤ get_or m'.bytes 2 0)
      × (get_or m'.bytes 3 0 ≡ 0)
      × (get_u32 m'.bytes ≡ v)
      × AllBelow 256 m'.bytes
can_u32_setter_fields cmd par v m hc hp hv h =
    let m' = record m { length = 8; bytes = setter_frame cmd par v } in
    (
      m',
      can_u32_setter_lem cmd par v m hc hp h,
      refl,
      refl,
      omega arith,
      omega arith,
      omega arith,
      refl,
      omega arith,
      omega arith,
    )

-- The line of a message: "s", the identifier and the bytes in decimal, each with a space behind.
abbrev pub words : List ℕ → List ℕ
words [] = []
words (d ∷ ds) = (print_u d ++ codes " ") ++ words ds

abbrev pub line_head : ℕ → List ℕ
line_head id = codes "s " ++ print_u id ++ codes " "

abbrev pub line_of : ℕ → List ℕ → List ℕ
line_of id ds = (line_head id ++ words ds) ++ codes "\n"

length-words : (ds : List ℕ) → AllBelow 256 ds → length (words ds) ≤ 4 * length ds
length-words [] h = omega arith
length-words (d ∷ ds) (hd, hds) = omega (
  arith,
  length-append (print_u d ++ codes " ") (words ds),
  length-append (print_u d) (codes " "),
  length-print_u d 2 (omega arith),
  length-words ds hds,
)

length-line_head : (id : ℕ) → id < 2 ^ 16 → length (line_head id) ≤ 8
length-line_head id h = omega (
  arith,
  length-append (codes "s ") (print_u id ++ codes " "),
  length-append (print_u id) (codes " "),
  length-print_u id 4 (omega arith),
)

-- A chunk that fits is appended whole.
append_printf-fits :
    (buflen : ℕ) (text chunk : List ℕ)
    → length text + length chunk < buflen
    → append_printf buflen (length text, text) chunk ≡ (length (text ++ chunk), text ++ chunk)
append_printf-fits buflen text chunk h =
    rw (length-append text chunk, take-all (buflen - length text - 1) chunk (omega arith))

form_loop-fits :
    (buflen : ℕ) (ds text : List ℕ)
    → length text + length (words ds) < buflen
    → form_loop buflen ds (length text, text) ≡ (length (text ++ words ds), text ++ words ds)
unfolding form_loop
form_loop-fits buflen [] text h = rw append-nil
form_loop-fits buflen (d ∷ ds) text h =
    let chunk : List ℕ = print_u d ++ codes " " in
    let sum = length-append chunk (words ds) in
    rw
      (
        lt→ltb (length text) buflen (omega (arith, sum)),
        append_printf-fits buflen text chunk (omega (arith, sum)),
      )
      (form_loop-fits buflen ds (text ++ chunk) (omega (arith, sum, length-append text chunk))
        ∙ rw (append_assoc text chunk (words ds)))

-- What makes a message well formed: the ranges of its fields.
pub record IsMessage (m : CanMessage) : Type 0 where
  pub id_u16 : m.id < 2 ^ 16
  pub at_most_8 : m.length ≤ 8
  pub bytes_u8 : AllBelow 256 (take m.length m.bytes)

form_end-fits :
    (buflen : ℕ) (text : List ℕ)
    → length text + 1 < buflen
    → form_end buflen (length text, text) ≡ (length (text ++ codes "\n"), text ++ codes "\n")
unfolding form_end
form_end-fits buflen text h =
    let more : leb buflen (length text) ≡ false = ground arith in
    rw more (append_printf-fits buflen text (codes "\n") h)

-- The text before the newline, and its length.
body_of : CanMessage → List ℕ
body_of m = line_head m.id ++ words (take m.length m.bytes)

length-body : (m : CanMessage) → IsMessage m → length (body_of m) ≤ 40
unfolding body_of
length-body m v = omega (
  arith,
  length-line_head m.id v.id_u16,
  length-words (take m.length m.bytes) v.bytes_u8,
  length-take m.length m.bytes,
  length-append (line_head m.id) (words (take m.length m.bytes)),
)

form_body :
    (m : CanMessage) (buflen : ℕ)
    → length (body_of m) < buflen
    → form_loop buflen (take m.length m.bytes) (append_printf buflen (0, []) (line_head m.id))
      ≡ (length (body_of m), body_of m)
unfolding body_of
form_body m buflen h =
    let sum = length-append (line_head m.id) (words (take m.length m.bytes)) in
    rw (append_printf-fits buflen [] (line_head m.id) (omega (arith, sum)))
      (form_loop-fits buflen (take m.length m.bytes) (line_head m.id) (omega (arith, sum)))

-- Into a buffer of 42 bytes or more every well-formed message fits: `formCANmsg` returns the length
-- of the line and has written the whole line, the newline included.
pub form_can_msg_lem :
    (m : CanMessage) (buflen : ℕ)
    → IsMessage m
    → 42 ≤ buflen
    → form_can_msg m (pos buflen)
      ≡ (length (line_of m.id (take m.length m.bytes)), line_of m.id (take m.length m.bytes))
unfolding form_can_msg
form_can_msg_lem m buflen v h =
    let enough : ltb buflen 8 ≡ false = ground arith in
    let short = length-body m v in
    rw
      (
        enough,
        form_body m buflen (omega (arith, short)),
        form_end-fits buflen (body_of m) (omega (arith, short)),
      )
      (unfold body_of in refl)
