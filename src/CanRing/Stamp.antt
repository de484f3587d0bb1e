-- ===== src/CanRing/Stamp.antt =====
-- BTA_modbusmeteo/olddaemon/CAN/can_io.c: the loop of `start_can_io` that moves a time stamp
-- forward, and the round of the receiving process round it.
-- The source compares the stamps as doubles. With seconds below 2^31 a double tells two numbers of
-- microseconds apart, so the comparison is that of the microseconds.
use bta_utils.Prelude.{
  ℕ, zero, suc, ◌+◌, ◌-◌, ◌*◌, Option, none, some, ltb, if◌then◌else◌, ℤ, not, ◌||◌,
}
use mathlib.Core.Option
use bta_utils.CanRing.{Timeval, Frame, Shm, can_io_shm_ok, is_positive, store_frame}

abbrev pub micros : Timeval → ℕ
micros t = t.tv_sec * 1_000_000 + t.tv_usec

-- The body of the loop.
unfoldable pub advance : Timeval → Timeval
advance t =
    let usec = t.tv_usec + 10000 in
    if ltb 1_000_000 usec
    then record { tv_sec = t.tv_sec + 1; tv_usec = usec - 1_000_000 }
    else record { tv_sec = t.tv_sec; tv_usec = usec }

-- `while(rx.timestamp < tm) …`, on fuel; `none` where the fuel ends.
unfoldable pub fix_timestamp : ℕ → Timeval → Timeval → Option Timeval
fix_timestamp zero tm t = none
fix_timestamp (suc fuel) tm t =
    let rest = fix_timestamp fuel tm (advance t) in
    if ltb (micros t) (micros tm) then rest else some t

-- One round of the `while(1)` of `start_can_io`, for what `can_wait` and `read` returned. The stamp
-- `tm` of the source is the static {0,0}, which nothing changes.
unfoldable pub receive_round : ℤ → ℤ → Frame → Shm → Option Shm
unfolding fix_timestamp
receive_round waited got rx s =
    if not (can_io_shm_ok s) || not (is_positive waited) || not (is_positive got)
    then some s
    else Option.map (λ t. store_frame (record rx { timestamp = t }) s)
        (fix_timestamp 1 (record { tv_sec = 0; tv_usec = 0 }) rx.timestamp)
