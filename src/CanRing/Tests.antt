-- ===== src/CanRing/Tests.antt =====
-- Runs of the receive ring of can_io.c, and its theorems at concrete inputs.
use bta_utils.Prelude.{
  ltb, false, pos, if◌then◌else◌, Bool-cases, inl, inr, ℕ, ◌+◌, ◌≡◌, refl, true, none, some, List,
  [], ◌∷◌, leb, replicate, length-replicate, arith, pos, negsuc,
}
use bta_utils.CanRing.{can_io_shm_ok, store_frame, Clock, Frame, Shm, Reader, Port, received}
use bta_utils.CanRing.Fifo
use bta_utils.CanRing.Index.{blank_frame}
use bta_utils.CanRing.Refine.{IsValid, view, run, fifo_run, Event, arrival, reading, run_refines}
use bta_utils.CanRing.Stamp.{micros, fix_timestamp, receive_round}

-- A clock in microseconds.
abbrev micro_clock : Clock
micro_clock = record {
  Time = ℕ;
  of_timeval = micros;
  to_timeval = λ t. record { tv_sec = 0; tv_usec = t };
  is_recent = λ t_rx rtime. leb rtime (t_rx + 1_000_000);
}

abbrev empty_ring : Shm
empty_ring = record {
  can_pid = pos 5;
  can_open = pos 3;
  rx_buff_pntr = 999;
  rx_buff = replicate 1000 blank_frame;
}

abbrev frame_at : ℕ → Frame
frame_at sec = record {
  id = pos 0x447;
  timestamp = record { tv_sec = sec; tv_usec = 0 };
  length = pos 2;
  bytes = 1 ∷ 2 ∷ 3 ∷ [];
}

abbrev late_reader : Reader micro_clock
late_reader = record { pbuf = 999; rtime = 5_000_000 }

empty_ring-IsValid : IsValid empty_ring
empty_ring-IsValid = record { slots = length-replicate 1000 blank_frame; within = omega arith }

-- The frame of second 3 is dropped as old, the frame of second 4 is delivered.
abbrev session : List Event
session = arrival (frame_at 3) ∷ arrival (frame_at 4) ∷ reading ∷ reading ∷ []

session_answers :
    fifo_run micro_clock session 5_000_000 [] ≡ some (received (frame_at 4)) ∷ none ∷ []
unfolding fifo_run Fifo.put Fifo.get received
session_answers = refl

run_refines_example :
    run micro_clock session empty_ring late_reader
    ≡ some (fifo_run micro_clock session 5_000_000 (view empty_ring 999))
run_refines_example =
    run_refines micro_clock session empty_ring late_reader empty_ring-IsValid (omega arith)

abbrev server_port : Port
server_port = record { can_fd = pos 3; out_id = negsuc 0; server_mode = true }

-- A frame keeps its stamp, since the stamp that it is compared with is 0.
stamp_kept :
    (s : Shm) (rx : Frame)
    → receive_round (pos 1) (pos 1) rx s ≡ some (if can_io_shm_ok s then store_frame rx s else s)
unfolding receive_round fix_timestamp
stamp_kept s rx =
    let never : ltb (micros rx.timestamp) 0 ≡ false = ground arith in
    elim (Bool-cases (can_io_shm_ok s)) [ inl ok ↦ rw (ok, never) refl | inr bad ↦ rw bad refl ]
