-- ===== src/CanRing/LifeTests.antt =====
-- A run of the process that fills the ring, and its theorem at a concrete input.
use bta_utils.Prelude.{
  ◌≡◌, refl, true, false, none, some, List, [], ◌∷◌, pos, negsuc, arith, replicate,
}
use bta_utils.CanRing.{Shm}
use bta_utils.CanRing.Index.{blank_frame}
use bta_utils.CanRing.Life.{
  sighup, sigquit, sigterm, by_default, Process, signal, second, frame, Happening, can_exit,
  deliver, run_process, start_can_io, can_abort, exit_case,
}
use bta_utils.CanRing.Ending.{HasEnded}
use bta_utils.CanRing.Running.{stored, start_can_io-HasEnded}

abbrev new_ring : Shm
new_ring = record {
  can_pid = pos 0;
  can_open = negsuc 0;
  rx_buff_pntr = 0;
  rx_buff = replicate 1000 blank_frame;
}

abbrev new_process : Process
new_process = record {
  handler = λ sig. by_default;
  alarm = none;
  can_fd = pos 3;
  can_lk = pos 4;
  exited = false;
  segment = some new_ring;
  nattch = 2;
}

-- A frame and a SIGHUP; behind SIGTERM a SIGQUIT and ten seconds.
abbrev before : List Happening
before = frame blank_frame ∷ signal sighup ∷ second ∷ []

abbrev behind : List Happening
behind = signal sigquit ∷ replicate 10 second

start_can_io-HasEnded_example :
    HasEnded
      (stored before (record new_ring { can_pid = pos 77; can_open = pos 3 }))
      2
      (run_process behind (deliver sigterm (run_process before (start_can_io 77 new_process))))
start_can_io-HasEnded_example =
    start_can_io-HasEnded 77 2 new_process new_ring before behind sigterm refl refl refl refl refl
      refl refl (omega arith)

-- Called by a server, can_exit goes on behind can_abort: it exits at once, and can_pid stays.
server_exits :
    let p = can_exit true sigterm (start_can_io 77 new_process) in
    (p.exited ≡ true)
    × (p.segment ≡ some (record new_ring { can_pid = pos 77; can_open = negsuc 0 }))
unfolding can_exit can_abort exit_case start_can_io
server_exits = (refl, refl)
