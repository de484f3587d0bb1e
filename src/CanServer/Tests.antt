-- ===== src/CanServer/Tests.antt =====
-- Runs of the CAN server's code, and its theorems at concrete inputs.
use bta_utils.Prelude.{
  ℕ, ◌≡◌, refl, Option, none, some, List, [], ◌∷◌, arith, ℤ, pos, codes, bytes_of_u32, str_eq,
  print_u, true,
}
use bta_utils.CanServer.{
  CanMessage, no_parno, can_u32_setter, form_can_msg, form_loop, form_end, parse_can_str, scan_all,
  scan_x, atoi_u32,
}
use bta_utils.CanServer.Commands.{
  Command, allcommands, find_text, find_code, silence, badval, proc_user_cmd, run_command,
  send_formed, can_id_in, can_id_out, client_line, got_can_ans, relay_cmds,
}
use bta_utils.CanServer.Message.{setter_frame, line_of}
use bta_utils.CanServer.Parse.{can_line, parse_can_str-can_line}
use bta_utils.CanServer.Answer.{
  Outcome, answer_text, proc_user_cmd_setter, proc_user_cmd_total, client_line_lem,
}

-- A reader of numbers that knows "1".
abbrev one : List ℕ → Option ℤ
one s = elim (str_eq s (codes "1")) [ true ↦ some (pos 1) | _ ↦ none ]

abbrev junk : CanMessage
junk = record { id = 0; timestamp = 0; length = 0; bytes = 7 ∷ 7 ∷ 7 ∷ 7 ∷ 7 ∷ 7 ∷ 7 ∷ 7 ∷ [] }

abbrev out_command : Command
out_command = record { textcmd = codes "out"; cancmd = 11; havesetter = true }

find_out : find_text (codes "out") allcommands ≡ some out_command
unfolding find_text
find_out = refl

find_11 : find_code 11 allcommands ≡ some out_command
unfolding find_code
find_11 = refl

-- `out=1` of a client, as the adapter gets it.
sends_out :
    proc_user_cmd one junk (codes "out") (some (codes "1"))
    ≡ (silence, some (codes "s 1 11 0 255 0 1 0 0 0 \n"))
unfolding proc_user_cmd run_command find_text send_formed form_can_msg form_loop form_end
    can_u32_setter print_u
sends_out = refl

refuses_in : proc_user_cmd one junk (codes "in") (some (codes "1")) ≡ (badval, none)
unfolding proc_user_cmd run_command find_text
refuses_in = refl

-- An answer of the adapter, as the clients get it: a relay state, and an input of a channel.
answers_out : client_line (codes "12345 #2 b 0 7f 0 5 0 0 0") junk.bytes ≡ some (codes "out=5\n")
unfolding client_line parse_can_str scan_all scan_x atoi_u32 got_can_ans relay_cmds find_code
    print_u
answers_out = refl

answers_in :
    client_line (codes "1 #02 0x0C 00 83 0 ff 1 0 0 99") junk.bytes ≡ some (codes "in[3]=511\n")
unfolding client_line parse_can_str scan_all scan_x atoi_u32 got_can_ans relay_cmds find_code
    print_u
answers_in = refl

proc_user_cmd_setter_example :
    proc_user_cmd one junk (codes "out") (some (codes "1"))
    ≡ (silence, some (line_of can_id_in (setter_frame 11 no_parno 1)))
proc_user_cmd_setter_example =
    proc_user_cmd_setter one junk (record { eight = refl }) (codes "out") (codes "1") 1 find_out
      refl refl (omega arith)

proc_user_cmd_total_example : Outcome (proc_user_cmd one junk (codes "out") (some (codes "1")))
proc_user_cmd_total_example =
    proc_user_cmd_total one junk (record { eight = refl }) (codes "out") (some (codes "1"))

parse_can_str-can_line_example :
    parse_can_str (can_line 12345 2 (11 ∷ 0 ∷ [])) junk.bytes
    ≡ some (record {
      id = 2;
      timestamp = 12345;
      length = 2;
      bytes = 11 ∷ 0 ∷ 7 ∷ 7 ∷ 7 ∷ 7 ∷ 7 ∷ 7 ∷ [];
    })
parse_can_str-can_line_example =
    parse_can_str-can_line 12345 2 (11 ∷ 0 ∷ []) junk.bytes (omega arith) (omega arith)
      (omega arith) (omega arith) refl

client_line_lem_example :
    client_line (can_line 12345 can_id_out (11 ∷ 0 ∷ 127 ∷ 0 ∷ bytes_of_u32 5)) junk.bytes
    ≡ some (answer_text (codes "out") 127 5)
client_line_lem_example =
    client_line_lem 12345 11 127 0 5 junk.bytes (omega arith) (omega arith) (omega arith)
      (omega arith) (omega arith) refl find_11
