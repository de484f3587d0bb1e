-- ===== src/CanServer/Commands.antt =====
-- Network_CAN_clientserver/clientserver.c: the table of commands, the handler of a client's
-- command and the handler of an answer of the controller.
-- `sl_str2i` of the library usefull_macros, which is not part of the repository, is a parameter.
use bta_utils.Prelude.{
  ℕ, Bool, true, false, Option, none, some, List, [], ◌∷◌, ◌++◌, ltb, ◌==◌, if◌then◌else◌, ℤ, pos,
  negsuc, to_u32, codes, str_eq, print_u,
}
use bta_utils.CanServer.{
  CanCmd, cmd_index, CanMessage, no_parno, get_cmd, parval, get_u32, can_u32_setter, can_u32_getter,
  form_can_msg, parse_can_str,
}

-- `commands`
pub record Command : Type 0 where
  pub textcmd : List ℕ
  pub cancmd : ℕ
  pub havesetter : Bool

abbrev command : List ℕ → ℕ → Bool → Command
command t c h = record { textcmd = t; cancmd = c; havesetter = h }

abbrev pub allcommands : List Command
allcommands =
    command (codes "in") (cmd_index CanCmd.getesw) false
    ∷ command (codes "out") (cmd_index CanCmd.relay) true
    ∷ command (codes "mcut") (cmd_index CanCmd.mcutemp) false
    ∷ command (codes "led") (cmd_index CanCmd.led) true
    ∷ command (codes "inchnls") (cmd_index CanCmd.inchnls) false
    ∷ command (codes "outchnls") (cmd_index CanCmd.outchnls) false
    ∷ command (codes "time") (cmd_index CanCmd.time) true
    ∷ command (codes "ping") (cmd_index CanCmd.ping) true
    ∷ []

-- The first entry with a given code, and with a given text.
unfoldable pub find_code : ℕ → List Command → Option Command
find_code cmd [] = none
find_code cmd (c ∷ cs) = if cmd == c.cancmd then some c else find_code cmd cs

unfoldable pub find_text : List ℕ → List Command → Option Command
find_text key [] = none
find_text key (c ∷ cs) = if str_eq c.textcmd key then some c else find_text key cs

-- `Relay1cmds`: the text, or `none` for the returned 0.
unfoldable pub relay_cmds : CanMessage → Option (List ℕ)
relay_cmds msg = elim (find_code (get_cmd msg.bytes) allcommands) [
  | none ↦ none
  | some c ↦
      if parval msg.bytes == no_parno
      then some (c.textcmd ++ codes "=" ++ print_u (get_u32 msg.bytes) ++ codes "\n")
      else some (
          c.textcmd
          ++ codes "["
          ++ print_u (parval msg.bytes)
          ++ codes "]="
          ++ print_u (get_u32 msg.bytes)
          ++ codes "\n")
]

-- CANIDIN and CANIDOUT
abbrev pub can_id_in : ℕ
can_id_in = 1

abbrev pub can_id_out : ℕ
can_id_out = 2

-- `gotCANans`: what is sent to all clients.
unfoldable pub got_can_ans : CanMessage → Option (List ℕ)
got_can_ans msg = if msg.id == can_id_out then relay_cmds msg else none

-- `clientproc` on a line of the serial adapter: what is sent to all clients. `old` is the
-- uninitialised array of the local message.
unfoldable pub client_line : List ℕ → List ℕ → Option (List ℕ)
client_line rbuf old = elim (parse_can_str rbuf old) [ none ↦ none | some msg ↦ got_can_ans msg ]

-- `sl_sock_hresult_e`, as far as it is used.
pub data HandlerResult : Type 0 where
  silence badval badkey fail : HandlerResult

-- The two calls under `if(issetter)` and its `else`: what goes to the serial socket.
unfoldable pub send_formed : Option CanMessage → HandlerResult × Option (List ℕ)
send_formed none = (fail, none)
send_formed (some m) =
    let (buflen, buf) = form_can_msg m (pos 127) in
    if ltb 0 buflen then (silence, some buf) else (fail, none)

module _ (str2i : List ℕ → Option ℤ) (junk : CanMessage) where
  -- The uninitialised local `msg`, with its identifier set.
  abbrev pub local_msg : CanMessage
  local_msg = record junk { id = can_id_in }

  -- `procUserCmd` behind the reading of `req`: the setter's value, or none for a getter.
  unfoldable pub run_command : List ℕ → Option ℕ → HandlerResult × Option (List ℕ)
  run_command key setter = elim (find_text key allcommands) [
    | none ↦ (badkey, none)
    | some c ↦ elim setter [
      | none ↦ send_formed (can_u32_getter (pos c.cancmd) no_parno local_msg)
      | some v ↦
          if c.havesetter
          then send_formed (can_u32_setter (pos c.cancmd) no_parno v local_msg)
          else (badval, none)
    ]
  ]

  -- `procUserCmd` on the key of its item and the text behind "=" (`none` for NULL).
  unfoldable pub proc_user_cmd : List ℕ → Option (List ℕ) → HandlerResult × Option (List ℕ)
  proc_user_cmd key none = run_command key none
  proc_user_cmd key (some req) = elim (str2i req) [
    | none ↦ (badval, none)
    | some (negsuc n) ↦ (badval, none)
    | some (pos n) ↦ run_command key (some (to_u32 (pos n)))
  ]
