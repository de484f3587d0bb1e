-- ===== src/Acs/Sending.antt =====
-- bta_print_header/bta_shdata.c: what `send_cmd` sends, and what it keeps for the next command.
use bta_utils.Prelude.{
  ℕ, zero, suc, ◌+◌, ◌≤◌, ◌<◌, ◌≡◌, ◌≢◌, refl, true, false, none, some, List, ◌++◌, length,
  length-take, arith, ltb, ltb→lt, Bool-cases, ◌⊎◌, inl, inr, ◌==◌, if◌then◌else◌, ℤ, pos, negsuc,
  to_u32, get_or, u32_of_bytes, ◌^◌,
}
use bta_utils.Acs.{
  Client, Sent, is_negative, text_of, int32, set_cmd_src, key_of, send_cmd, send_cmd_i4,
}

-- The text of a message has 1 to 100 bytes, where the caller's buffer has as many as it says.
length-text_of :
    (buf : List ℕ) (n : ℕ)
    → n ≤ length buf
    → (1 ≤ length (text_of buf (pos n))) × (length (text_of buf (pos n)) ≤ 100)
length-text_of buf zero h = omega arith
length-text_of buf (suc n) h = elim (Bool-cases (ltb 100 (suc n))) [
  | inl long ↦ rw long (omega (arith, ltb→lt _ _ long, length-take 100 buf))
  | inr short ↦ rw short (ground (arith, length-take (suc n) buf))
]

-- What `send_cmd` passes to `msgsnd`.
abbrev pub sent_of : ℕ → ℕ → ℕ → List ℕ → ℤ → Client → Sent
sent_of pid junk code buf size c = record {
  queue = c.snd_id;
  message = record {
    mtype = suc code;
    acckey = key_of c junk;
    src_pid = if c.cmd_src_pid == 0 then pid else c.cmd_src_pid;
    src_ip = c.cmd_src_ip;
    mtext = text_of buf size;
  };
  size = length (text_of buf size) + 12;
}

pub send_cmd_open :
    (pid junk code : ℕ) (buf : List ℕ) (size : ℤ) (c : Client)
    → is_negative c.snd_id ≡ false
    → send_cmd pid junk (pos (suc code)) buf size c
      ≡ (record c { cmd_src_pid = 0; cmd_src_ip = 0 }, some (sent_of pid junk code buf size c))
unfolding send_cmd
send_cmd_open pid junk code buf size c opened = rw opened

-- A command that is sent fits the 112 bytes that the receivers read, and has at least one byte of
-- text, whatever the caller's size; its type is the command's code.
pub send_cmd_fits :
    (pid junk code : ℕ) (buf : List ℕ) (n : ℕ) (c : Client)
    → is_negative c.snd_id ≡ false
    → n ≤ length buf
    → (sent : Sent) × ((send_cmd pid junk (pos (suc code)) buf (pos n) c).1 ≡ some sent)
      × (sent.message.mtype ≡ suc code)
      × (sent.queue ≡ c.snd_id)
      × (13 ≤ sent.size)
      × (sent.size ≤ 112)
      × (sent.size ≡ length sent.message.mtext + 12)
unfolding send_cmd
send_cmd_fits pid junk code buf n c opened h =
    let size = length-text_of buf n h in
    (
      sent_of pid junk code buf (pos n) c,
      rw opened,
      refl,
      refl,
      omega (arith, size),
      omega (arith, size),
      refl,
    )

-- `set_cmd_src` serves one command: the first one sent carries the given address and process, and
-- the next one carries address 0 and the process of the sender.
pub set_cmd_src_once :
    (pid junk ip src a b : ℕ) (buf : List ℕ) (size : ℤ) (c : Client)
    → is_negative c.snd_id ≡ false
    → src ≢ 0
    → let (c1, first) = send_cmd pid junk (pos (suc a)) buf size (set_cmd_src ip src c) in
      (m1 m2 : Sent) × (first ≡ some m1)
      × ((send_cmd pid junk (pos (suc b)) buf size c1).1 ≡ some m2)
      × (m1.message.src_pid ≡ src)
      × (m1.message.src_ip ≡ ip)
      × (m2.message.src_pid ≡ pid)
      × (m2.message.src_ip ≡ 0)
unfolding send_cmd set_cmd_src
set_cmd_src_once pid junk ip src a b buf size c opened ne =
    let c0 = set_cmd_src ip src c in
    let c1 = record c0 { cmd_src_pid = 0; cmd_src_ip = 0 } in
    (
      sent_of pid junk a buf size c0,
      sent_of pid junk b buf size c1,
      rw opened,
      rw (opened, opened),
      ground arith,
      refl,
      refl,
      refl,
    )

-- A command that is refused, for want of an open queue or of a positive code, is not sent and changes
-- nothing: the source that was set stays for the next command.
pub send_cmd_refused :
    (pid junk : ℕ) (code : ℤ) (buf : List ℕ) (size : ℤ) (c : Client)
    → (is_negative c.snd_id ≡ true) ⊎ ((n : ℕ) → code ≢ pos (suc n))
    → send_cmd pid junk code buf size c ≡ (c, none)
unfolding send_cmd
send_cmd_refused pid junk (negsuc code) buf size c why = refl
send_cmd_refused pid junk (pos zero) buf size c why = refl
send_cmd_refused pid junk (pos (suc code)) buf size c (inl closed) = rw closed refl
send_cmd_refused pid junk (pos (suc code)) buf size c (inr no_code) = absurd (no_code code refl)

-- The word at an offset of a text.
abbrev pub word_at : List ℕ → ℕ → ℕ
word_at l i =
    u32_of_bytes (get_or l i 0) (get_or l (i + 1) 0) (get_or l (i + 2) 0) (get_or l (i + 3) 0)

to_u32_range : (a : ℤ) → to_u32 a < 2 ^ 32
to_u32_range (pos n) = omega arith
to_u32_range (negsuc n) = omega arith

-- Four integers are sent as four words, in order, in 16 bytes.
pub send_cmd_i4_words :
    (pid junk code : ℕ) (a b d e : ℤ) (c : Client)
    → is_negative c.snd_id ≡ false
    → (sent : Sent) × ((send_cmd_i4 pid junk (pos (suc code)) a b d e c).1 ≡ some sent)
      × (sent.size ≡ 28)
      × (word_at sent.message.mtext 0 ≡ to_u32 a)
      × (word_at sent.message.mtext 4 ≡ to_u32 b)
      × (word_at sent.message.mtext 8 ≡ to_u32 d)
      × (word_at sent.message.mtext 12 ≡ to_u32 e)
unfolding send_cmd_i4 send_cmd
send_cmd_i4_words pid junk code a b d e c opened = (
  sent_of pid junk code (int32 a ++ int32 b ++ int32 d ++ int32 e) (pos 16) c,
  rw opened,
  refl,
  omega (arith, to_u32_range a),
  omega (arith, to_u32_range b),
  omega (arith, to_u32_range d),
  omega (arith, to_u32_range e),
)
