-- ===== src/Net/Tests.antt =====
-- Runs of the network relay, and its theorems at concrete inputs.
use bta_utils.Prelude.{
  ℕ, zero, suc, ◌<◌, ◌≡◌, refl, true, false, Option, none, some, List, [], ◌∷◌, ◌++◌, length, drop,
  arith, ℤ, pos, if◌then◌else◌, ◌⊎◌, bytes_of_u32,
}
use bta_utils.Acs.{Channel, mcmd, ocmd, ucmd, MsgBuf}
use bta_utils.Net.Frame.{check_sum, with_check_sum}
use bta_utils.Net.Order.{IsEmpty, IsFirst, IsQueues, rank, next_command_lem}
use bta_utils.Net.Command.{forwarded_of, server_command-command_packet}
use bta_utils.Net.Data.{
  Sdat, ErrState, data_packet, receive_data, memory_of, receive_data-data_packet,
}
use bta_utils.Net.{
  put_u32, packed, command_packet, next_command, Server, accepts, CmdLog, server_command,
  client_turn, next_syncnt, sends,
}

abbrev keys : Channel → ℕ
keys mcmd = 0x646D634D
keys ocmd = 0x646D634F
keys ucmd = 0x646D6355

abbrev queues : Channel → ℤ
queues mcmd = pos 1
queues ocmd = pos 2
queues ucmd = pos 3

-- A server of the net 192.168.3.0, with the control system's net 192.168.13.0.
abbrev server : Server
server = record {
  key = keys;
  id = queues;
  netmask = 0xFFFFFF00;
  network = 0xC0A80300;
  acsmask = 0xFFFFFF00;
  acsnet = 0xC0A80D00;
}

-- A message from 192.168.3.5.
abbrev message : MsgBuf
message = record { mtype = 3; acckey = 7; src_pid = 9; src_ip = 0x0503A8C0; mtext = 1 ∷ 0 ∷ [] }

abbrev no_log : CmdLog
no_log = record { prev_ip = 0; prev_acc = none }

takes_it : accepts server 0x0503A8C0 ≡ true
unfolding accepts
takes_it = refl

-- A command of the client's own machine names no source.
abbrev local_message : MsgBuf
local_message = record message { src_ip = 0 }

server_command-command_packet_example :
    let packet = command_packet 0x0503A8C0 0x646D634F local_message 14 in
    (server_command server 0x0503A8C0 (length packet) (packet ++ (4 ∷ [])) no_log).0 ≡ (
      if accepts server 0x0503A8C0
      then some (
          forwarded_of server 0x0503A8C0 2 message
            (check_sum (bytes_of_u32 0x646D634F ++ packed message)))
      else none)
server_command-command_packet_example =
    server_command-command_packet server 0x0503A8C0 0x0503A8C0 0x646D634F 2 local_message (4 ∷ [])
      no_log (omega arith) (omega arith)
      (record {
        mtype = omega arith;
        acckey = omega arith;
        src_pid = omega arith;
        src_ip = omega arith;
      })
      refl

-- A queue of the operator with a command and a "StopTel".
abbrev stop_message : MsgBuf
stop_message = record message { mtype = 1 }

abbrev two_commands : Channel → ℕ → Option MsgBuf
two_commands ocmd zero = some message
two_commands ocmd (suc zero) = some stop_message
two_commands _ _ = none

stop_first : next_command two_commands ≡ some (ocmd, stop_message)
unfolding next_command
stop_first = refl

two_commands-IsQueues : IsQueues two_commands
two_commands-IsQueues mcmd type h = refl
two_commands-IsQueues ocmd type h = absurd (ground arith)
two_commands-IsQueues ucmd type h = refl

next_command_lem_example :
    ((next_command two_commands ≡ none) × ((ch : Channel) → IsEmpty two_commands ch))
    ⊎ ((ch : Channel) × (m : MsgBuf) × (next_command two_commands ≡ some (ch, m))
        × ((before : Channel) → rank before < rank ch → IsEmpty two_commands before)
        × IsFirst two_commands m ch)
next_command_lem_example = next_command_lem two_commands two_commands-IsQueues

-- A round without commands sends a packet for synchronization where its count comes to 0.
no_commands : Channel → ℕ → Option MsgBuf
no_commands ch type = none

sync_round :
    client_turn keys 5 9 no_commands true 18 0 0 17
    ≡ (0, sends (0 ∷ 0 ∷ 0 ∷ 0 ∷ 0 ∷ 0 ∷ 0 ∷ 0 ∷ 0 ∷ 0 ∷ 0 ∷ []))
unfolding client_turn next_syncnt next_command command_packet with_check_sum check_sum no_commands
sync_round = refl

abbrev small_block : Sdat
small_block = record { code = 0x74616453; own_size = 14; maxsize = 2048 }

abbrev old_errors : ErrState
old_errors = record { last_err = 100; err_type = 2 }

abbrev own_memory : List ℕ
own_memory = 1 ∷ 2 ∷ 3 ∷ 4 ∷ 5 ∷ 6 ∷ 7 ∷ 8 ∷ 9 ∷ 10 ∷ 11 ∷ 12 ∷ 13 ∷ 14 ∷ 15 ∷ 16 ∷ 17 ∷ []

receive_data-data_packet_example :
    let packet = data_packet 14 (memory_of 0x74616453 0 (60 ∷ 70 ∷ 80 ∷ [])) in
    receive_data small_block 33 1000 (length packet) (packet ++ (5 ∷ [])) old_errors own_memory ≡ (
      record { last_err = 100; err_type = 0 },
      false,
      some (memory_of 0x74616453 14 (60 ∷ 70 ∷ []) ++ drop 14 (put_u32 12 33 own_memory)),
    )
receive_data-data_packet_example =
    receive_data-data_packet small_block 33 1000 0 (60 ∷ 70 ∷ []) (80 ∷ []) (5 ∷ []) own_memory
      old_errors (omega arith) refl (omega arith)
