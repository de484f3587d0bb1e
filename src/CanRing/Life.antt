-- ===== src/CanRing/Life.antt =====
-- BTA_modbusmeteo/olddaemon/CAN/can_io.c: the life of the process that fills the ring, its signals and
-- its end. What is printed is left out.
use bta_utils.Prelude.{
  ℕ, zero, suc, ◌+◌, ◌-◌, Bool, true, false, not, Option, none, some, List, [], ◌∷◌, ◌==◌,
  if◌then◌else◌, ℤ, pos, negsuc,
}
use bta_utils.CanRing.{Frame, Shm, can_io_shm_ok, store_frame}

-- The signals that the source names; SIGKILL and SIGSTOP have no handler.
pub data Signal : Type 0 where
  sighup sigint sigquit sigfpe sigpipe sigsegv sigterm sigalrm : Signal
  sig_other : ℕ → Signal

abbrev pub sig_number : Signal → ℕ
sig_number sighup = 0
sig_number sigint = 1
sig_number sigquit = 2
sig_number sigfpe = 3
sig_number sigpipe = 4
sig_number sigsegv = 5
sig_number sigterm = 6
sig_number sigalrm = 7
sig_number (sig_other n) = 8 + n

abbrev pub same_signal : Signal → Signal → Bool
same_signal a b = sig_number a == sig_number b

-- What a process does at a signal: SIG_DFL, SIG_IGN, or a call of can_abort or can_exit.
pub data Handler : Type 0 where
  by_default ignored on_abort on_exit : Handler

-- The process: its handlers, the seconds to its alarm, its descriptors, and whether it has exited. The
-- segment, as long as there is one, and the processes attached to it.
pub record Process : Type 0 where
  pub handler : Signal → Handler
  pub alarm : Option ℕ
  pub can_fd : ℤ
  pub can_lk : ℤ
  pub exited : Bool
  pub segment : Option Shm
  pub nattch : ℕ

abbrev pub with_handler : Signal → Handler → Process → Process
with_handler sig h p = record p { handler = λ s. if same_signal s sig then h else p.handler s }

abbrev pub map_shm : (Shm → Shm) → Option Shm → Option Shm
map_shm f none = none
map_shm f (some s) = some (f s)

-- `shmdt`, and the removal of a segment that nobody is attached to.
abbrev pub detach : Process → Process
detach p = record p {
  nattch = p.nattch - 1;
  segment = if p.nattch - 1 == 0 then none else p.segment;
  exited = true;
}

-- The cases of `can_abort` for a server.
abbrev pub stop_later : Process → Process
stop_later p =
    let q = with_handler sigalrm on_abort p in
    record q {
      alarm = some 2;
      can_fd = negsuc 0;
      segment = map_shm (λ s. record s { can_open = negsuc 0 }) p.segment;
    }

abbrev pub stop_now : Process → Process
stop_now p = detach (record p {
  can_lk = negsuc 0;
  segment = map_shm (λ s. record s { can_pid = pos 0 }) p.segment;
})

unfoldable pub can_abort : Signal → Process → Process
can_abort sigquit p = stop_later (with_handler sigquit ignored p)
can_abort sigfpe p = stop_later (with_handler sigfpe ignored p)
can_abort sigpipe p = stop_later (with_handler sigpipe ignored p)
can_abort sigsegv p = stop_later (with_handler sigsegv ignored p)
can_abort sigterm p = stop_later (with_handler sigterm ignored p)
can_abort sigalrm p = stop_now (with_handler sigalrm ignored p)
can_abort sig p = with_handler sig on_abort (with_handler sig ignored p)

-- `can_exit`; a server goes on behind its `can_abort`.
abbrev pub exit_now : Process → Process
exit_now p = detach (record p { can_fd = negsuc 0; can_lk = negsuc 0 })

unfoldable pub exit_case : Signal → Process → Process
exit_case sigint p = exit_now p
exit_case sigpipe p = exit_now p
exit_case sigquit p = exit_now p
exit_case sigfpe p = exit_now p
exit_case sigsegv p = exit_now p
exit_case sigterm p = exit_now p
exit_case sig p = with_handler sig on_exit p

unfoldable pub can_exit : Bool → Signal → Process → Process
can_exit server_mode sig p =
    let q = with_handler sig ignored p in
    let r = if server_mode then can_abort sig q else q in if r.exited then r else exit_case sig r

-- The handlers that `start_can_io` sets, and can_pid and can_open of the segment.
abbrev pub start_handler : Signal → Handler
start_handler sigalrm = ignored
start_handler (sig_other n) = by_default
start_handler sig = on_abort

unfoldable pub start_can_io : ℕ → Process → Process
start_can_io pid p = record p {
  handler = start_handler;
  segment = map_shm (λ s. record s { can_pid = pos pid; can_open = p.can_fd }) p.segment;
}

-- A signal that comes to a process, with the arm for its handler.
abbrev pub handle_by : Handler → Bool → Signal → Process → Process
handle_by ignored server_mode sig p = p
handle_by on_abort server_mode sig p = can_abort sig p
handle_by on_exit server_mode sig p = can_exit server_mode sig p
handle_by by_default server_mode sig p = record p { exited = true; nattch = p.nattch - 1 }

abbrev pub deliver : Signal → Process → Process
deliver sig p = if p.exited then p else handle_by (p.handler sig) true sig p

-- A second that passes, and the alarm.
abbrev pub tick_alarm : Option ℕ → Process → Process
tick_alarm none p = p
tick_alarm (some zero) p = deliver sigalrm (record p { alarm = none })
tick_alarm (some (suc zero)) p = deliver sigalrm (record p { alarm = none })
tick_alarm (some (suc (suc n))) p = record p { alarm = some (suc n) }

-- A frame that comes from the driver, in the loop of `start_can_io`.
abbrev pub store_if : Bool → Frame → Option Shm → Option Shm
store_if false rx o = o
store_if true rx none = none
store_if true rx (some s) = some (if can_io_shm_ok s then store_frame rx s else s)

-- What happens to the process.
pub data Happening : Type 0 where
  signal : Signal → Happening
  second : Happening
  frame : Frame → Happening

unfoldable pub happens : Happening → Process → Process
happens (signal sig) p = deliver sig p
happens second p = if p.exited then p else tick_alarm p.alarm p
happens (frame rx) p = record p { segment = store_if (not p.exited) rx p.segment }

unfoldable pub run_process : List Happening → Process → Process
run_process [] p = p
run_process (h ∷ hs) p = run_process hs (happens h p)
