-- ===== src/Net/Command.antt =====
-- bta_control_net-x86_64/bta_control_net/bta_control_net.c: a command on its way from a queue of the
-- client's machine to the queue of the observatory.
use bta_utils.Prelude.{
  ℕ, ◌+◌, ◌-◌, ◌%◌, ◌/◌, ◌^◌, ◌<◌, ◌≡◌, refl, inl, inr, true, none, Bool-cases, some, List, [], ◌∷◌,
  ◌++◌, length, take, drop, ◌==◌, arith, length-append, append_assoc, ap, ◌∙◌, ℤ, pos, negsuc,
  bytes_of_u32, u32_of_bytes-bytes, leb, if◌then◌else◌, take-all, lt→ltb,
}
use bta_utils.Acs.{MsgBuf}
use bta_utils.Net.Frame.{
  check_sum, with_check_sum, check_sum_ok, take_front, length-packet, check_sum_ok-with_check_sum,
}
use bta_utils.Net.{
  u32_at, put_u32, packed, command_packet, Server, id_of_code, accepts, source_ip, Forwarded,
  CmdLog, server_command,
}

-- A message whose fields are words.
pub record IsWords (m : MsgBuf) : Type 0 where
  pub mtype : m.mtype < 2 ^ 32
  pub acckey : m.acckey < 2 ^ 32
  pub src_pid : m.src_pid < 2 ^ 32
  pub src_ip : m.src_ip < 2 ^ 32

-- What the server gives to `msgsnd` for a message and the check sum's two bytes.
abbrev pub forwarded_of : Server → ℕ → ℕ → MsgBuf → ℕ → Forwarded
forwarded_of s from id m cs = record {
  queue = pos id;
  mtype = m.mtype;
  text =
      bytes_of_u32 m.acckey
      ++ bytes_of_u32 m.src_pid
      ++ bytes_of_u32 (source_ip s from m.src_ip)
      ++ m.mtext
      ++ (cs % 256 ∷ cs / 256 ∷ []);
  size = pos (length m.mtext + 14);
}

-- The message with its source: the one that it names or, where it names none, the client's address.
abbrev pub with_source : ℕ → MsgBuf → MsgBuf
with_source my_ip m = record m { src_ip = if m.src_ip == 0 then my_ip else m.src_ip }

with_source-IsWords :
    (my_ip : ℕ) (m : MsgBuf) → my_ip < 2 ^ 32 → IsWords m → IsWords (with_source my_ip m)
with_source-IsWords my_ip m h words = record {
  mtype = words.mtype;
  acckey = words.acckey;
  src_pid = words.src_pid;
  src_ip = elim (Bool-cases (m.src_ip == 0)) [
    | inl local ↦ rw local h
    | inr named ↦ rw named words.src_ip
  ];
}

-- The bytes of a whole message behind its code.
whole_packet :
    (code : ℕ) (m : MsgBuf) (my_ip : ℕ)
    → command_packet my_ip code m (12 + length m.mtext)
      ≡ with_check_sum (bytes_of_u32 code ++ packed (with_source my_ip m))
unfolding command_packet
whole_packet code m my_ip = elim (Bool-cases (m.src_ip == 0)) [
  | inl local ↦
      rw
        (
          local,
          take-all (4 + (12 + length m.mtext)) (packed (record m { src_ip = my_ip })) (omega arith),
        )
        refl
  | inr named ↦ rw (named, take-all (4 + (12 + length m.mtext)) (packed m) (omega arith)) refl
]

-- What the server gives to `msgsnd` for a packet that passes the test.
abbrev forwarded_from : Server → ℕ → ℕ → ℕ → List ℕ → Forwarded
forwarded_from s from id rll buff = record {
  queue = pos id;
  mtype = u32_at buff 4;
  text = take (rll - 8) (drop 8 (put_u32 16 (source_ip s from (u32_at buff 16)) buff));
  size = if leb 8 rll then pos (rll - 8) else negsuc (7 - rll);
}

server_command_lem :
    (s : Server) (from rll id : ℕ) (buff : List ℕ) (log : CmdLog)
    → check_sum_ok rll buff ≡ true
    → 2 < rll
    → id_of_code s (u32_at buff 0) ≡ pos id
    → (server_command s from rll buff log).0
      ≡ (if accepts s (u32_at buff 16) then some (forwarded_from s from id rll buff) else none)
unfolding server_command
server_command_lem s from rll id buff log ok long hid = rw (ok, lt→ltb 2 rll long, hid) refl

abbrev forwarded_with : ℤ → ℕ → List ℕ → ℤ → Forwarded
forwarded_with q t x n = record { queue = q; mtype = t; text = x; size = n }

Forwarded-fields :
    {q : ℤ} {t t' : ℕ} {x x' : List ℕ} {n n' : ℤ}
    → t ≡ t'
    → x ≡ x'
    → n ≡ n'
    → forwarded_with q t x n ≡ forwarded_with q t' x' n'
Forwarded-fields a b c = rw (a, b, c) refl

size_of_packet :
    (n rll : ℕ)
    → rll ≡ n + 22
    → (if leb 8 rll then pos (rll - 8) else negsuc (7 - rll)) ≡ pos (n + 14)
size_of_packet n rll h =
    let long : leb 8 rll ≡ true = ground arith in rw long (ap pos (omega arith))

text_of_packet :
    (s : Server) (from code id : ℕ) (m : MsgBuf) (cs : ℕ) (stale : List ℕ)
    → IsWords m
    → let l = bytes_of_u32 code ++ packed m in
      forwarded_from s from id (length l + 2) (l ++ (cs % 256 ∷ cs / 256 ∷ stale))
      ≡ forwarded_of s from id m cs
text_of_packet s from code id m cs stale words =
    let l = bytes_of_u32 code ++ packed m in
    let sums : List ℕ = cs % 256 ∷ cs / 256 ∷ [] in
    let t = u32_of_bytes-bytes m.mtype words.mtype in
    let ip = u32_of_bytes-bytes m.src_ip words.src_ip in
    let head =
      bytes_of_u32 m.acckey ++ bytes_of_u32 m.src_pid ++ bytes_of_u32 (source_ip s from m.src_ip) in
    let joined : (m.mtext ++ sums) ++ stale ≡ m.mtext ++ (cs % 256 ∷ cs / 256 ∷ stale) =
      append_assoc m.mtext sums stale in
    let text =
      take_front (head ++ m.mtext ++ sums) stale (length l + 2 - 8)
        (omega (arith, length-append m.mtext sums)) in
    Forwarded-fields t (rw (ip, ← joined) text)
      (size_of_packet (length m.mtext) (length l + 2) (omega arith))

-- The packet of a message behind its code reaches `msgsnd` of the server.
packet_reaches :
    (s : Server) (from code id : ℕ) (m : MsgBuf) (stale : List ℕ) (log : CmdLog)
    → code < 2 ^ 32
    → IsWords m
    → id_of_code s code ≡ pos id
    → let packet = with_check_sum (bytes_of_u32 code ++ packed m) in
      (server_command s from (length packet) (packet ++ stale) log).0 ≡ (
        if accepts s m.src_ip
        then some (forwarded_of s from id m (check_sum (bytes_of_u32 code ++ packed m)))
        else none)
unfolding with_check_sum
packet_reaches s from code id m stale log hc words hid =
    let l = bytes_of_u32 code ++ packed m in
    let cs = check_sum l in
    let c = u32_of_bytes-bytes code hc in
    let ip = u32_of_bytes-bytes m.src_ip words.src_ip in
    let buff = l ++ (cs % 256 ∷ cs / 256 ∷ stale) in
    let step =
      server_command_lem s from (length l + 2) id buff log (check_sum_ok-with_check_sum l stale)
        (omega arith) (rw c hid) in
    rw (length-packet l, append_assoc m.mtext (cs % 256 ∷ cs / 256 ∷ []) stale)
      (step
        ∙ ap (λ f. if accepts s (u32_at buff 16) then some f else none)
            (text_of_packet s from code id m cs stale words)
        ∙ ap (λ k. if accepts s k then some (forwarded_of s from id m cs) else none) ip)

-- A command of a client's queue, whose fields, code and client's address are words of 32 bits,
-- reaches `msgsnd` for the queue that the server has for that code where the server accepts its
-- source, which is the address that it names or, where it names none, the client's. It arrives with
-- its type, key, process and text and with the source that `source_ip` gives for that address; but
-- the two bytes of the packet's check sum go on behind its text, and the size counts them. A command
-- whose source is not accepted is not sent to a queue.
pub server_command-command_packet :
    (s : Server) (from my_ip code id : ℕ) (m : MsgBuf) (stale : List ℕ) (log : CmdLog)
    → code < 2 ^ 32
    → my_ip < 2 ^ 32
    → IsWords m
    → id_of_code s code ≡ pos id
    → let packet = command_packet my_ip code m (12 + length m.mtext) in
      let sent = with_source my_ip m in
      (server_command s from (length packet) (packet ++ stale) log).0 ≡ (
        if accepts s sent.src_ip
        then some (forwarded_of s from id sent (check_sum (bytes_of_u32 code ++ packed sent)))
        else none)
server_command-command_packet s from my_ip code id m stale log hc hip words hid =
    rw (whole_packet code m my_ip) (
      packet_reaches s from code id (with_source my_ip m) stale log hc
        (with_source-IsWords my_ip m hip words) hid)
