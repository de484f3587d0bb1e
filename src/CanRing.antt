-- ===== src/CanRing.antt =====
-- BTA_modbusmeteo/olddaemon/CAN/can_io.c: the receive ring that the CAN I/O process fills and the
-- control processes read, and the frames that a process sends.
-- Times are C doubles: the type and the three computations on it are the parameter `Clock`.
pub mod Fifo
pub mod Index
pub mod Refine
pub mod Stamp
pub mod Life
pub mod Ending
pub mod Alarm
pub mod Running
mod LifeTests
mod Tests
use bta_utils.Prelude.{
  ℕ, zero, suc, ◌+◌, ◌-◌, ◌%◌, Bool, true, false, not, ◌&&◌, Option, none, some, List, [], ◌∷◌,
  ◌++◌, ltb, leb, ◌==◌, if◌then◌else◌, take, set, get_elem?, ℤ, pos, negsuc,
}

-- `struct timeval`, with the fields of a time that is not before the epoch.
pub record Timeval : Type 0 where
  pub tv_sec : ℕ
  pub tv_usec : ℕ

-- `canmsg_t`, the fields that this library reads. The array `data` is the list of its bytes.
pub record Frame : Type 0 where
  pub id : ℤ
  pub timestamp : Timeval
  pub length : ℤ
  pub bytes : List ℕ

-- What `can_io.c` computes in doubles: the time of a `struct timeval`, the `struct timeval` of a
-- time, and the test `t_rx+1. >= *rtime`.
pub record Clock : Type 1 where
  pub Time : Type 0
  pub of_timeval : Timeval → Time
  pub to_timeval : Time → Timeval
  pub is_recent : Time → Time → Bool

-- CAN_RX_SIZE
abbrev pub can_rx_size : ℕ
can_rx_size = 1000

-- The shared segment: `can_pid`, `can_open`, `rx_buff_pntr` and `rx_buff`.
pub record Shm : Type 0 where
  pub can_pid : ℤ
  pub can_open : ℤ
  pub rx_buff_pntr : ℕ
  pub rx_buff : List Frame

abbrev pub is_positive : ℤ → Bool
is_positive (pos n) = ltb 0 n
is_positive (negsuc n) = false

abbrev pub is_negative : ℤ → Bool
is_negative (pos n) = false
is_negative (negsuc n) = true

pub can_io_shm_ok : Shm → Bool
can_io_shm_ok s = is_positive s.can_pid && is_positive s.can_open

-- `if(length<0) length=0; if(length>8) length=8;`
unfoldable pub clamp_length : ℤ → ℕ
clamp_length (negsuc n) = 0
clamp_length (pos n) = if ltb 8 n then 8 else n

-- `rx_buff[rx_buff_pntr] = rx; rx_buff_pntr = (rx_buff_pntr + 1) % CAN_RX_SIZE;`
unfoldable pub store_frame : Frame → Shm → Shm
store_frame rx s = record s {
  rx_buff_pntr = (s.rx_buff_pntr + 1) % can_rx_size;
  rx_buff = set s.rx_buff s.rx_buff_pntr rx;
}

-- The number of rounds of `for(i = 0; i < length; i++)`.
abbrev pub rounds : ℤ → ℕ
rounds (pos n) = n
rounds (negsuc n) = 0

-- What a reader gets: `*id`, `*length` and the bytes written to `data`.
pub record Received : Type 0 where
  pub id : ℤ
  pub length : ℤ
  pub bytes : List ℕ

unfoldable pub received : Frame → Received
received f = record { id = f.id; length = f.length; bytes = take (rounds f.length) f.bytes }

module _ (C : Clock) where
  open C use {Time, of_timeval, to_timeval, is_recent}

  -- The frame that `can_put_buff_frame` builds. `junk` is what stood in the uninitialised
  -- local array behind the bytes that are copied.
  unfoldable pub build_frame : Time → ℤ → ℤ → List ℕ → List ℕ → Frame
  build_frame rtime id length bytes junk = record {
    id = id;
    timestamp = to_timeval rtime;
    length = pos (clamp_length length);
    bytes = take (clamp_length length) bytes ++ junk;
  }

  pub can_put_buff_frame : Bool → Time → ℤ → ℤ → List ℕ → List ℕ → Shm → Shm
  can_put_buff_frame server_mode rtime id length bytes junk s =
      if server_mode then store_frame (build_frame rtime id length bytes junk) s else s

  -- A reader's `*pbuf` and `*rtime`.
  pub record Reader : Type 0 where
    pub pbuf : ℕ
    pub rtime : Time

  -- `can_clean_recv` at the time `now`.
  pub can_clean_recv : Shm → Time → Reader
  can_clean_recv s now = record { pbuf = s.rx_buff_pntr; rtime = now }

  -- The loop of `can_get_buff_frame`, on fuel. The whole result is `none` where the fuel ends or
  -- a slot outside the ring is read; the inner option is the returned 1 or 0.
  pub get_loop : ℕ → Shm → Reader → Option (Option Received × Reader)
  get_loop zero s r = none
  get_loop (suc fuel) s r =
      let on = record r { pbuf = (r.pbuf + 1) % can_rx_size } in
      let rest = get_loop fuel s on in
      if r.pbuf == s.rx_buff_pntr then some (none, r) else elim (get_elem? s.rx_buff r.pbuf) [
        | none ↦ none
        | some rx ↦
            let t_rx = of_timeval rx.timestamp in
            if is_recent t_rx r.rtime
            then some (some (received rx), record on { rtime = t_rx })
            else rest
      ]

  pub can_get_buff_frame : Shm → Reader → Option (Option Received × Reader)
  can_get_buff_frame s r = get_loop can_rx_size s r

-- What `can_send_frame` does with a frame: nothing, `write` to the driver, or `msgsnd` to the
-- output queue. A message's key and process are the sender's and are left out.
pub data Sent : Type 0 where
  unsent : Sent
  driver : ℤ → ℕ → List ℕ → Sent
  queue : ℤ → List ℕ → Sent

-- The descriptors that a process holds.
pub record Port : Type 0 where
  pub can_fd : ℤ
  pub out_id : ℤ
  pub server_mode : Bool

module _ (C : Clock) where
  open C use {Time}

  -- `written` is what `write` returns, `now` is `can_dtime()`. The results are the returned
  -- value, what was sent, and the shared segment.
  pub can_send_frame : Port → ℤ → Time → ℤ → ℤ → List ℕ → List ℕ → Shm → ℤ × Sent × Shm
  can_send_frame p written now id length bytes junk s =
      let n = clamp_length length in
      let body : List ℕ = take n bytes in
      if is_negative p.can_fd && is_negative p.out_id
      then (pos 0, unsent, s)
      else (if not (is_negative p.can_fd)
          then (
            written,
            driver id n body,
            can_put_buff_frame C p.server_mode now id (pos n) bytes junk s,
          )
          else (pos 1, queue id body, s))
