-- ===== src/Acs.antt =====
-- bta_print_header/bta_shdata.c (with bta_shdata.h): the client library of the telescope's control
-- system. The command queues, access keys and the commands sent are here, the shared memory
-- segment is in `Segment`, the passwords of the access levels in `Passwords`.
-- What the System V calls return and `getpid()` are arguments.
pub mod Segment
pub mod Passwords
pub mod Sending
pub mod Session
mod Tests
use bta_utils.Prelude.{
  ℕ, zero, suc, ◌+◌, Bool, true, false, not, ◌&&◌, Option, none, some, List, [], ◌∷◌, ◌++◌, length,
  take, ltb, ◌==◌, if◌then◌else◌, ℤ, pos, negsuc, to_u32, bytes_of_u32, eqb_ℤ,
}

-- `struct CMD_Queue`, without the key and the mode.
pub record CmdQueue : Type 0 where
  pub side : Bool
  pub id : ℤ
  pub acckey : ℕ

-- The three queues, by the globals that hold them.
pub data Channel : Type 0 where
  mcmd ocmd ucmd : Channel

-- The globals of bta_shdata.c that the commands use.
pub record Client : Type 0 where
  pub main : CmdQueue
  pub operator : CmdQueue
  pub user : CmdQueue
  pub snd_id : ℤ
  pub cmd_src_pid : ℕ
  pub cmd_src_ip : ℕ

abbrev pub queue_of : Client → Channel → CmdQueue
queue_of c mcmd = c.main
queue_of c ocmd = c.operator
queue_of c ucmd = c.user

abbrev pub with_queue : Client → Channel → CmdQueue → Client
with_queue c mcmd q = record c { main = q }
with_queue c ocmd q = record c { operator = q }
with_queue c ucmd q = record c { user = q }

abbrev pub is_negative : ℤ → Bool
is_negative (pos n) = false
is_negative (negsuc n) = true

-- `struct my_msgbuf`; `mtext` is the part that is sent.
pub record MsgBuf : Type 0 where
  pub mtype : ℕ
  pub acckey : ℕ
  pub src_pid : ℕ
  pub src_ip : ℕ
  pub mtext : List ℕ

-- The arguments of `msgsnd`.
pub record Sent : Type 0 where
  pub queue : ℤ
  pub message : MsgBuf
  pub size : ℕ

-- What `msgget` returns: for the existing queue, whether it failed with ENOENT, and for a new one.
pub record MsgGet : Type 0 where
  pub found : ℤ
  pub absent : Bool
  pub created : ℤ

-- `get_cmd_queue`: the globals after it, and whether the waiting messages were thrown away.
unfoldable pub get_cmd_queue : MsgGet → Channel → Bool → Client → Client × Bool
get_cmd_queue sys ch server c =
    let cq = queue_of c ch in
    if not server && not (is_negative cq.id)
    then (record c { snd_id = cq.id }, false)
    else (let id =
          if is_negative sys.found && (sys.absent && server) then sys.created else sys.found in
        if is_negative id
        then (with_queue c ch (record cq { id = id }), false)
        else let c' = with_queue c ch (record { side = server; id = id; acckey = 0 }) in
          if server then (c', true) else (record c' { snd_id = id }, false))

-- `set_acckey`
unfoldable pub set_acckey : ℕ → Client → Client
set_acckey newkey c =
    if is_negative c.snd_id
    then c
    else (if eqb_ℤ c.user.id c.snd_id
        then with_queue c ucmd (record c.user { acckey = newkey })
        else (if eqb_ℤ c.operator.id c.snd_id
            then with_queue c ocmd (record c.operator { acckey = newkey })
            else (if eqb_ℤ c.main.id c.snd_id
                then with_queue c mcmd (record c.main { acckey = newkey })
                else c)))

-- The access key of a message; `junk` is the uninitialised field where no queue is the current one.
unfoldable pub key_of : Client → ℕ → ℕ
key_of c junk =
    if eqb_ℤ c.user.id c.snd_id
    then c.user.acckey
    else (if eqb_ℤ c.operator.id c.snd_id
        then c.operator.acckey
        else (if eqb_ℤ c.main.id c.snd_id then c.main.acckey else junk))

-- `set_cmd_src`
unfoldable pub set_cmd_src : ℕ → ℕ → Client → Client
set_cmd_src ip pid c = record c { cmd_src_pid = pid; cmd_src_ip = ip }

-- The text of a message and its size, for `buf` and a size that is cut to 100.
abbrev pub text_of : List ℕ → ℤ → List ℕ
text_of buf (negsuc n) = 0 ∷ []
text_of buf (pos zero) = 0 ∷ []
text_of buf (pos (suc n)) = take (if ltb 100 (suc n) then 100 else suc n) buf

-- `send_cmd`; `pid` is `getpid()`. The bytes from `buf` on are the caller's memory.
unfoldable pub send_cmd : ℕ → ℕ → ℤ → List ℕ → ℤ → Client → Client × Option Sent
unfolding key_of
send_cmd pid junk (negsuc n) buf size c = (c, none)
send_cmd pid junk (pos zero) buf size c = (c, none)
send_cmd pid junk (pos (suc code)) buf size c = if is_negative c.snd_id then (c, none) else (
  record c { cmd_src_pid = 0; cmd_src_ip = 0 },
  some (record {
    queue = c.snd_id;
    message = record {
      mtype = suc code;
      acckey = key_of c junk;
      src_pid = if c.cmd_src_pid == 0 then pid else c.cmd_src_pid;
      src_ip = c.cmd_src_ip;
      mtext = text_of buf size;
    };
    size = length (text_of buf size) + 12;
  }),
)

-- An `int32_t` in memory.
abbrev pub int32 : ℤ → List ℕ
int32 a = bytes_of_u32 (to_u32 a)

-- The commands with typed arguments. A double is the list of its eight bytes.
module _ (pid junk : ℕ) where
  unfoldable pub send_cmd_noarg : ℤ → Client → Client × Option Sent
  send_cmd_noarg code c = send_cmd pid junk code [] (pos 0) c

  -- `arg` holds the bytes of the string up to its end, which `strlen(arg)+1` sends with it.
  unfoldable pub send_cmd_str : ℤ → List ℕ → Client → Client × Option Sent
  send_cmd_str code arg c = send_cmd pid junk code (arg ++ (0 ∷ [])) (pos (length arg + 1)) c

  unfoldable pub send_cmd_i1 : ℤ → ℤ → Client → Client × Option Sent
  send_cmd_i1 code a c = send_cmd pid junk code (int32 a) (pos 4) c

  unfoldable pub send_cmd_i2 : ℤ → ℤ → ℤ → Client → Client × Option Sent
  send_cmd_i2 code a b c = send_cmd pid junk code (int32 a ++ int32 b) (pos 8) c

  unfoldable pub send_cmd_i3 : ℤ → ℤ → ℤ → ℤ → Client → Client × Option Sent
  send_cmd_i3 code a b d c = send_cmd pid junk code (int32 a ++ int32 b ++ int32 d) (pos 12) c

  unfoldable pub send_cmd_i4 : ℤ → ℤ → ℤ → ℤ → ℤ → Client → Client × Option Sent
  send_cmd_i4 code a b d e c =
      send_cmd pid junk code (int32 a ++ int32 b ++ int32 d ++ int32 e) (pos 16) c

  unfoldable pub send_cmd_d1 : ℤ → List ℕ → Client → Client × Option Sent
  send_cmd_d1 code x c = send_cmd pid junk code x (pos 8) c

  unfoldable pub send_cmd_d2 : ℤ → List ℕ → List ℕ → Client → Client × Option Sent
  send_cmd_d2 code x y c = send_cmd pid junk code (x ++ y) (pos 16) c

  unfoldable pub send_cmd_i1d1 : ℤ → ℤ → List ℕ → Client → Client × Option Sent
  send_cmd_i1d1 code a x c = send_cmd pid junk code (int32 a ++ x) (pos 12) c

  unfoldable pub send_cmd_i2d1 : ℤ → ℤ → ℤ → List ℕ → Client → Client × Option Sent
  send_cmd_i2d1 code a b x c = send_cmd pid junk code (int32 a ++ int32 b ++ x) (pos 16) c

  unfoldable pub send_cmd_i3d1 : ℤ → ℤ → ℤ → ℤ → List ℕ → Client → Client × Option Sent
  send_cmd_i3d1 code a b d x c =
      send_cmd pid junk code (int32 a ++ int32 b ++ int32 d ++ x) (pos 20) c
