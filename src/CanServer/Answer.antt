-- ===== src/CanServer/Answer.antt =====
-- Network_CAN_clientserver/clientserver.c: what a client's command sends to the adapter, and what
-- the clients get of an answer of the controller.
use bta_utils.Prelude.{
  ℕ, ◌/◌, ◌%◌, ◌^◌, ◌≤◌, ◌<◌, ◌≡◌, ◌⊎◌, inl, inr, refl, Option, none, some, List, [], ◌∷◌, ◌++◌,
  length, take, arith, ltb, ◌==◌, if◌then◌else◌, Bool-cases, Option-cases, ℤ, pos, negsuc, to_u32,
  bytes_of_u32, codes, print_u, str_eq, lt→ltb, drop-all, Bool, true, false,
}
use bta_utils.CanServer.{CanMessage, no_parno, get_cmd, parval, get_u32}
use bta_utils.CanServer.Message.{
  IsMessage, setter_frame, line_of, can_u32_setter_lem, can_u32_getter_lem, form_can_msg_lem,
}
use bta_utils.CanServer.Parse.{can_line, parse_can_str-can_line}
use bta_utils.CanServer.Commands.{
  Command, allcommands, find_text, find_code, HandlerResult, silence, badval, badkey, send_formed,
  local_msg, run_command, proc_user_cmd, can_id_in, can_id_out, relay_cmds, got_can_ans,
  client_line,
}

-- Every entry of a part of the table has a code that fits 16 bits.
abbrev AllCodes : List Command → Type 0
AllCodes [] = Unit
AllCodes (c ∷ cs) = (c.cancmd ≤ 0xffff) × AllCodes cs

find_text-code :
    (key : List ℕ) (cs : List Command) {c : Command}
    → AllCodes cs
    → find_text key cs ≡ some c
    → c.cancmd ≤ 0xffff
unfolding find_text
find_text-code key [] h e = absurd (ground arith)
find_text-code key (d ∷ cs) h e = elim (Bool-cases (str_eq d.textcmd key)) [
  | inl same ↦ ground (arith, rw same at e)
  | inr other ↦ find_text-code key cs h.1 (rw other at e)
]

line_of-pos : (id : ℕ) (ds : List ℕ) → 0 < length (line_of id ds)
line_of-pos id ds = omega arith

-- A text of at least one byte is sent.
send_formed-line :
    (m : CanMessage)
    → IsMessage m
    → send_formed (some m) ≡ (silence, some (line_of m.id (take m.length m.bytes)))
unfolding send_formed
send_formed-line m v =
    let ds : List ℕ = take m.length m.bytes in
    let sent : ltb 0 (length (line_of m.id ds)) ≡ true = lt→ltb 0 _ (line_of-pos m.id ds) in
    rw (form_can_msg_lem m 127 v (omega arith), sent)

-- What a client can be told, and what is sent then: one line, or nothing.
abbrev pub Outcome : HandlerResult × Option (List ℕ) → Type 0
Outcome (r, sent) =
    ((r ≡ silence) × (line : List ℕ) × (sent ≡ some line))
    ⊎ ((r ≡ badval) × (sent ≡ none))
    ⊎ ((r ≡ badkey) × (sent ≡ none))

-- What the local message holds before it is filled: eight bytes.
pub record IsJunk (junk : CanMessage) : Type 0 where
  pub eight : length junk.bytes ≡ 8

module _ (str2i : List ℕ → Option ℤ) (junk : CanMessage) (ok : IsJunk junk) where
  run_setter :
      (key : List ℕ) (v : ℕ) {c : Command}
      → find_text key allcommands ≡ some c
      → c.havesetter ≡ true
      → run_command str2i junk key (some v)
        ≡ (silence, some (line_of can_id_in (setter_frame c.cancmd no_parno v)))
  unfolding run_command
  run_setter key v {c} e has =
      let code = find_text-code key allcommands (omega arith) e in
      rw
        (
          e,
          has,
          run_command,
          can_u32_setter_lem c.cancmd no_parno v (local_msg str2i junk) code (omega arith) ok.eight,
        )
        (send_formed-line
          (record junk { id = can_id_in; length = 8; bytes = setter_frame c.cancmd no_parno v })
          (omega arith))

  -- A setter of the table with a value from 0 to 2^31-1 sends one line: the input identifier and
  -- the eight bytes of the command, the parameter 255, no error and the value, little-endian.
  pub proc_user_cmd_setter :
      (key req : List ℕ) (n : ℕ) {c : Command}
      → find_text key allcommands ≡ some c
      → c.havesetter ≡ true
      → str2i req ≡ some (pos n)
      → n < 2 ^ 31
      → proc_user_cmd str2i junk key (some req)
        ≡ (silence, some (line_of can_id_in (setter_frame c.cancmd no_parno n)))
  unfolding proc_user_cmd
  proc_user_cmd_setter key req n e has v h =
      let small : to_u32 (pos n) ≡ n = omega arith in
      rw (v, proc_user_cmd, small) (run_setter key n e has)

  -- A getter of the table sends the four bytes of the command, the parameter 127 and no error.
  pub proc_user_cmd_getter :
      (key : List ℕ) {c : Command}
      → find_text key allcommands ≡ some c
      → proc_user_cmd str2i junk key none ≡ (
        silence,
        some (line_of can_id_in ((c.cancmd % 256) ∷ (c.cancmd / 256) ∷ no_parno ∷ 0 ∷ [])),
      )
  unfolding proc_user_cmd run_command
  proc_user_cmd_getter key {c} e =
      let code = find_text-code key allcommands (omega arith) e in
      let (rest, filled, four) =
        can_u32_getter_lem c.cancmd no_parno (local_msg str2i junk) code (omega arith) ok.eight in
      rw (e, proc_user_cmd, run_command, filled)
        (send_formed-line
          (record junk {
            id = can_id_in;
            length = 4;
            bytes = (c.cancmd % 256) ∷ (c.cancmd / 256) ∷ no_parno ∷ 0 ∷ rest;
          })
          (omega arith))

  run_total : (key : List ℕ) (setter : Option ℕ) → Outcome (run_command str2i junk key setter)
  unfolding run_command proc_user_cmd
  run_total key none = elim (Option-cases (find_text key allcommands)) [
    | inl missing ↦ rw (missing, run_command) (inr (inr (refl, refl)))
    | inr (c, e) ↦ rw (proc_user_cmd_getter key e, proc_user_cmd) (inl (refl, _, refl))
  ]
  run_total key (some v) = elim (Option-cases (find_text key allcommands)) [
    | inl missing ↦ rw (missing, run_command) (inr (inr (refl, refl)))
    | inr (c, e) ↦ elim (Bool-cases c.havesetter) [
      | inl has ↦ rw (run_setter key v e has) (inl (refl, _, refl))
      | inr lacks ↦ rw (e, lacks, run_command) (inr (inl (refl, refl)))
    ]
  ]

  -- A command never answers RESULT_FAIL: whatever the key and the request are, one line goes to the
  -- adapter and the client hears nothing, or nothing is sent and the client is told of a bad value
  -- or a bad key.
  pub proc_user_cmd_total :
      (key : List ℕ) (req : Option (List ℕ)) → Outcome (proc_user_cmd str2i junk key req)
  unfolding proc_user_cmd
  proc_user_cmd_total key none = run_total key none
  proc_user_cmd_total key (some req) = elim (Option-cases (str2i req)) [
    | inl bad ↦ rw (bad, proc_user_cmd) (inr (inl (refl, refl)))
    | inr (pos n, e) ↦ rw (e, proc_user_cmd) (run_total key (some (to_u32 (pos n))))
    | inr (negsuc n, e) ↦ rw (e, proc_user_cmd) (inr (inl (refl, refl)))
  ]

-- The text of an answer: the name and the value, with the parameter in brackets where it has one.
abbrev pub answer_text : List ℕ → ℕ → ℕ → List ℕ
answer_text name par v =
    if par == no_parno
    then name ++ codes "=" ++ print_u v ++ codes "\n"
    else name ++ codes "[" ++ print_u par ++ codes "]=" ++ print_u v ++ codes "\n"

-- An answer of the controller to a command of the table gives all clients its name, parameter and
-- value, whether or not the setter flag is set, and whatever the error byte says.
pub got_can_ans_lem :
    (m : CanMessage) (cmd par v err : ℕ) {c : Command}
    → m.id ≡ can_id_out
    → m.bytes ≡ (cmd % 256) ∷ (cmd / 256) ∷ par ∷ err ∷ bytes_of_u32 v
    → v < 2 ^ 32
    → find_code cmd allcommands ≡ some c
    → got_can_ans m ≡ some (answer_text c.textcmd (par % 128) v)
unfolding got_can_ans relay_cmds
got_can_ans_lem m cmd par v err {c} out shape hv e =
    let cmd_back : get_cmd m.bytes ≡ cmd = rw shape (omega arith) in
    let par_back : parval m.bytes ≡ par % 128 = rw shape refl in
    let v_back : get_u32 m.bytes ≡ v = rw shape (omega arith) in
    rw (out, cmd_back, e, par_back, v_back, relay_cmds) (by_par (par % 128 == no_parno))
  where
    by_par :
        (b : Bool)
        → (if b
            then some (c.textcmd ++ codes "=" ++ print_u v ++ codes "\n")
            else some (
                c.textcmd
                ++ codes "["
                ++ print_u (par % 128)
                ++ codes "]="
                ++ print_u v
                ++ codes "\n"))
          ≡ some (
              if b
              then c.textcmd ++ codes "=" ++ print_u v ++ codes "\n"
              else c.textcmd
                ++ codes "["
                ++ print_u (par % 128)
                ++ codes "]="
                ++ print_u v
                ++ codes "\n")
    by_par true = refl
    by_par false = refl

-- From the adapter to the clients: a line with the output identifier and the eight bytes of a
-- command of the table, of a parameter, of an error code and of a value gives the clients the text
-- of that command, parameter and value.
pub client_line_lem :
    (ts cmd par err v : ℕ) (old : List ℕ) {c : Command}
    → ts < 2 ^ 32
    → cmd < 2 ^ 16
    → par < 256
    → err < 256
    → v < 2 ^ 32
    → length old ≡ 8
    → find_code cmd allcommands ≡ some c
    → client_line
        (can_line ts can_id_out ((cmd % 256) ∷ (cmd / 256) ∷ par ∷ err ∷ bytes_of_u32 v))
        old
      ≡ some (answer_text c.textcmd (par % 128) v)
unfolding client_line
client_line_lem ts cmd par err v old hts hcmd hpar herr hv len e =
    let ds : List ℕ = (cmd % 256) ∷ (cmd / 256) ∷ par ∷ err ∷ bytes_of_u32 v in
    rw
      (
        parse_can_str-can_line ts can_id_out ds old hts (omega arith) (omega arith) (omega arith)
            len,
        client_line,
      )
      (got_can_ans_lem _ cmd par v err refl (rw (drop-all 8 old (omega arith))) hv e)
