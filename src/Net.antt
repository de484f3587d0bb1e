-- ===== src/Net.antt =====
-- bta_control_net-x86_64/bta_control_net/bta_control_net.c: the relay of the control system over the
-- network. On the side of the observatory (the "server" here, started with local, mcast or remote)
-- it sends the shared memory as packets and takes commands; on the other side (the "client", started
-- with the name of a host) it fills a copy of the memory and sends the commands of its queues.
-- A packet in the buffer is its bytes and what the buffer holds behind them. Addresses and masks are
-- the numbers that a little-endian machine reads; what `msgrcv` returns is an argument.
mod Frame
pub mod Order
pub mod Command
pub mod Data
mod Tests
pub use Frame.*
use bta_utils.Prelude.{
  ℕ, zero, suc, ◌+◌, ◌-◌, ◌/◌, ◌%◌, ◌^◌, Bool, true, false, not, ◌&&◌, ◌||◌, Option, none, some,
  List, [], ◌∷◌, ◌++◌, length, take, drop, get_or, set, ltb, leb, ◌==◌, if◌then◌else◌, ℤ, pos,
  negsuc, bytes_of_u32, u32_of_bytes,
}
use Prim.Native.Nat.{bit_and}
use bta_utils.Acs.{Channel, mcmd, ocmd, ucmd, MsgBuf}

abbrev pub u32_at : List ℕ → ℕ → ℕ
u32_at l i =
    u32_of_bytes (get_or l i 0) (get_or l (i + 1) 0) (get_or l (i + 2) 0) (get_or l (i + 3) 0)

abbrev pub put_u32 : ℕ → ℕ → List ℕ → List ℕ
put_u32 i w l =
    set (set (set (set l i (w % 256)) (i + 1) (w / 2 ^ 8 % 256)) (i + 2) (w / 2 ^ 16 % 256)) (i + 3)
      (w / 2 ^ 24 % 256)

-- `ntohl`
abbrev pub ntohl : ℕ → ℕ
ntohl w = u32_of_bytes (w / 2 ^ 24 % 256) (w / 2 ^ 16 % 256) (w / 2 ^ 8 % 256) (w % 256)

-- A message as `struct my_msgbuf` lies in memory.
abbrev pub packed : MsgBuf → List ℕ
packed m =
    bytes_of_u32 m.mtype
    ++ bytes_of_u32 m.acckey
    ++ bytes_of_u32 m.src_pid
    ++ bytes_of_u32 m.src_ip
    ++ m.mtext

-- The packet of a command, from the label do_cmd; `ret` bytes of the message follow its type.
unfoldable pub command_packet : ℕ → ℕ → MsgBuf → ℕ → List ℕ
command_packet my_ip code m ret =
    let m' = if m.src_ip == 0 then record m { src_ip = my_ip } else m in
    with_check_sum (bytes_of_u32 code ++ take (4 + ret) (packed m'))

-- What a client's round does with its queues: it throws a command of each away, finds none, or
-- sends a packet.
pub data Turn : Type 0 where
  cleanup idle : Turn
  sends : List ℕ → Turn

-- A message of a queue, or what is found otherwise.
abbrev pub taken : Channel → Option MsgBuf → Option (Channel × MsgBuf) → Option (Channel × MsgBuf)
taken ch (some m) otherwise = some (ch, m)
taken ch none otherwise = otherwise

-- What `msgrcv` gives for a queue and a type.
module _ (msgrcv : Channel → ℕ → Option MsgBuf) where
  abbrev pub from_queue : Channel → ℕ → Option (Channel × MsgBuf) → Option (Channel × MsgBuf)
  from_queue ch type otherwise = taken ch (msgrcv ch type) otherwise

  -- The commands of the main operator first and of the user last, and of an operator "StopTel" (1)
  -- before any other.
  unfoldable pub next_command : Option (Channel × MsgBuf)
  next_command =
      from_queue mcmd 1
        (from_queue mcmd 0 (from_queue ocmd 1 (from_queue ocmd 0 (from_queue ucmd 0 none))))

-- `syncnt` of a round that received `rll` bytes (0 too where `recvfrom` fails).
unfoldable pub next_syncnt : Bool → ℕ → ℕ → ℕ → ℕ
next_syncnt sync nsync rll syncnt =
    if not sync
    then syncnt
    else (if ltb 0 rll then 1 else (syncnt + 1) % (if ltb nsync 2 then 2 else nsync))

-- The queues' codes, the client's address and process, and `msgrcv`.
module _ (key : Channel → ℕ) (my_ip pid : ℕ) (msgrcv : Channel → ℕ → Option MsgBuf) where
  abbrev sync_message : MsgBuf
  sync_message = record { mtype = 0; acckey = 0; src_pid = pid; src_ip = my_ip; mtext = 0 ∷ [] }

  -- A round's sending, for what it received: `syncnt` after it and what it did.
  unfoldable pub client_turn : Bool → ℕ → ℕ → ℕ → ℕ → ℕ × Turn
  client_turn sync nsync rll err_type syncnt =
      if not (rll == 0 || err_type == 0 || err_type == 3)
      then (syncnt, cleanup)
      else (let syncnt' = next_syncnt sync nsync rll syncnt in
          (
            syncnt',
            elim (next_command msgrcv) [
              | some (ch, m) ↦ sends (command_packet my_ip (key ch) m (12 + length m.mtext))
              | none ↦
                  if sync && syncnt' == 0
                  then sends (command_packet my_ip 0 sync_message 1)
                  else idle
            ],
          ))

-- The server's queues and the nets that it takes commands from.
pub record Server : Type 0 where
  pub key : Channel → ℕ
  pub id : Channel → ℤ
  pub netmask : ℕ
  pub network : ℕ
  pub acsmask : ℕ
  pub acsnet : ℕ

-- The queue of a code, -1 where it is none's.
abbrev pub id_of_code : Server → ℕ → ℤ
id_of_code s code =
    if code == s.key mcmd
    then s.id mcmd
    else (if code == s.key ocmd
        then s.id ocmd
        else (if code == s.key ucmd then s.id ucmd else negsuc 0))

abbrev pub in_acs_net : Server → ℕ → Bool
in_acs_net s netaddr = bit_and netaddr s.acsmask == bit_and s.acsnet s.acsmask

-- A command of an address is accepted.
unfoldable pub accepts : Server → ℕ → Bool
accepts s src_ip =
    let netaddr = ntohl src_ip in
    bit_and netaddr s.netmask == bit_and s.network s.netmask || in_acs_net s netaddr

-- The source address that goes on with a command, for the one that it names and its sender's. The
-- mask of a network of class C keeps the low 24 bits of the number.
unfoldable pub source_ip : Server → ℕ → ℕ → ℕ
source_ip s from src_ip =
    if src_ip == 0
    then from
    else (if src_ip % 2 ^ 24 == from % 2 ^ 24
          && not (in_acs_net s (ntohl from))
          && not (src_ip == from)
        then from
        else src_ip)

-- `msgsnd` of the server: the queue, the type, the bytes behind the type, and the size given.
pub record Forwarded : Type 0 where
  pub queue : ℤ
  pub mtype : ℕ
  pub text : List ℕ
  pub size : ℤ

-- The static `prev_ip` and `prev_acc` (none for NULL).
pub record CmdLog : Type 0 where
  pub prev_ip : ℕ
  pub prev_acc : Option Bool

abbrev same_acc : Option Bool → Bool → Bool
same_acc (some true) true = true
same_acc (some false) false = true
same_acc _ _ = false

-- The server's handling of a packet of `rll` bytes: the message sent to a queue, the log's state,
-- and whether a line is logged.
unfoldable pub server_command : Server → ℕ → ℕ → List ℕ → CmdLog → Option Forwarded × CmdLog × Bool
server_command s from rll buff log =
    let id = id_of_code s (u32_at buff 0) in
    if not (ltb 2 rll && check_sum_ok rll buff) then (none, log, false) else (elim id [
      | negsuc _ ↦ (none, log, false)
      | pos q ↦
          let src_ip = u32_at buff 16 in
          let ip = source_ip s from src_ip in
          let acc = accepts s src_ip in
          let message : Forwarded = record {
            queue = pos q;
            mtype = u32_at buff 4;
            text = take (rll - 8) (drop 8 (put_u32 16 ip buff));
            size = if leb 8 rll then pos (rll - 8) else negsuc (7 - rll);
          } in
          (
            (if acc then some message else none),
            record { prev_ip = ip; prev_acc = some acc },
            not (log.prev_ip == ip && same_acc log.prev_acc acc)
                && not (in_acs_net s (ntohl src_ip)),
          )
    ])
