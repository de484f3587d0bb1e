-- ===== src/CanRing/Running.antt =====
-- BTA_modbusmeteo/olddaemon/CAN/can_io.c: the run of the process that fills the ring, from its start to
-- its end.
use bta_utils.Prelude.{
  and_parts, false_ne, ℕ, ◌≤◌, ◌≡◌, refl, sym, ap, ◌∙◌, inl, inr, Bool, true, false, not, ◌&&◌,
  none, some, List, [], ◌∷◌, if◌then◌else◌, pos, arith, Bool-cases,
}
use bta_utils.CanRing.{Shm, can_io_shm_ok, store_frame}
use bta_utils.CanRing.Life.{
  Signal, sighup, sigint, sigquit, sigfpe, sigpipe, sigsegv, sigterm, sigalrm, sig_other,
  same_signal, Handler, by_default, ignored, on_abort, on_exit, Process, with_handler, map_shm,
  can_abort, start_handler, start_can_io, deliver, store_if, Happening, signal, second, frame,
  happens, run_process,
}
use bta_utils.CanRing.Ending.{
  is_named, is_stop, is_calm, count_abort, active, IsCalm, closed, HasEnded, with_handler-IsCalm,
  stop_later-Stopping, can_abort-stop, active-stop, again,
}
use bta_utils.CanRing.Alarm.{
  After, transport_After, deliver_eq, seconds, all_named, second_eq, run_process-HasEnded,
}

-- A process that has started and has not been stopped; the segment is `s`.
record Running (s : Shm) (n : ℕ) (p : Process) : Type 0 where
  lives : p.exited ≡ false
  handled : (sig : Signal) → is_named sig ≡ true → p.handler sig ≡ start_handler sig
  no_alarm : p.alarm ≡ none
  open_segment : p.segment ≡ some s
  attached : p.nattch ≡ n

-- What happens to a process before it is stopped: frames, seconds, and signals that stop nothing.
abbrev pub is_quiet : Happening → Bool
is_quiet (signal sig) = is_named sig && not (is_stop sig)
is_quiet _ = true

abbrev pub all_quiet : List Happening → Bool
all_quiet [] = true
all_quiet (h ∷ hs) = is_quiet h && all_quiet hs

-- The frames of a run are stored.
abbrev pub stored : List Happening → Shm → Shm
stored [] s = s
stored (frame rx ∷ hs) s = stored hs (if can_io_shm_ok s then store_frame rx s else s)
stored (_ ∷ hs) s = stored hs s

hup_handler :
    (sig : Signal)
    → is_named sig ≡ true
    → same_signal sig sighup ≡ true
    → start_handler sig ≡ on_abort
hup_handler sighup h e = refl
hup_handler (sig_other n) h e = absurd (false_ne h)
hup_handler _ h e = absurd (false_ne e)

int_handler :
    (sig : Signal)
    → is_named sig ≡ true
    → same_signal sig sigint ≡ true
    → start_handler sig ≡ on_abort
int_handler sigint h e = refl
int_handler (sig_other n) h e = absurd (false_ne h)
int_handler _ h e = absurd (false_ne e)

again-handled :
    (sig : Signal) (p : Process)
    → ((s : Signal) → is_named s ≡ true → same_signal s sig ≡ true → start_handler s ≡ on_abort)
    → ((s : Signal) → is_named s ≡ true → p.handler s ≡ start_handler s)
    → (s : Signal) → is_named s ≡ true
    → (again sig p).handler s ≡ start_handler s
again-handled sig p start hp s named = elim (Bool-cases (same_signal s sig)) [
  | inl same ↦ rw same (sym (start s named same))
  | inr other ↦ rw other (hp s named)
]

transport_Running : (s : Shm) (n : ℕ) {p q : Process} → q ≡ p → Running s n p → Running s n q
transport_Running s n e h = rw e h

-- A signal that is ignored anew.
again-Running :
    (s : Shm) (n : ℕ) (sig : Signal) (p : Process)
    → start_handler sig ≡ on_abort
    → is_named sig ≡ true
    → can_abort sig p ≡ again sig p
    → ((t : Signal) → is_named t ≡ true → same_signal t sig ≡ true → start_handler t ≡ on_abort)
    → Running s n p
    → Running s n (deliver sig p)
again-Running s n sig p on named same start r =
    transport_Running s n (deliver_eq sig p on_abort r.lives (r.handled sig named ∙ on) ∙ same)
      (record {
        lives = r.lives;
        handled = again-handled sig p start r.handled;
        no_alarm = r.no_alarm;
        open_segment = r.open_segment;
        attached = r.attached;
      })

not_quiet : ¬ (true && false ≡ true)
not_quiet h = ground arith

happens-Running :
    (s : Shm) (n : ℕ) (h : Happening) (p : Process)
    → is_quiet h ≡ true
    → Running s n p
    → Running (stored (h ∷ []) s) n (happens h p)
unfolding happens can_abort
happens-Running s n (signal sighup) p q r = again-Running s n sighup p refl refl refl hup_handler r
happens-Running s n (signal sigint) p q r = again-Running s n sigint p refl refl refl int_handler r
happens-Running s n (signal sigalrm) p q r =
    transport_Running s n (deliver_eq sigalrm p ignored r.lives (r.handled sigalrm refl)) r
happens-Running s n (signal _) p q r = absurd (false_ne q)
happens-Running s n second p q r = transport_Running s n (second_eq p none r.lives r.no_alarm) r
happens-Running s n (frame rx) p q r = record {
  lives = r.lives;
  handled = r.handled;
  no_alarm = r.no_alarm;
  open_segment =
      ap (λ b. store_if (not b) rx p.segment) r.lives ∙ ap (store_if true rx) r.open_segment;
  attached = r.attached;
}

stored-cons :
    (h : Happening) (hs : List Happening) (s : Shm)
    → stored hs (stored (h ∷ []) s) ≡ stored (h ∷ hs) s
stored-cons (signal sig) hs s = refl
stored-cons second hs s = refl
stored-cons (frame rx) hs s = refl

run_process-Running :
    (s : Shm) (n : ℕ) (hs : List Happening) (p : Process)
    → all_quiet hs ≡ true
    → Running s n p
    → Running (stored hs s) n (run_process hs p)
unfolding run_process
run_process-Running s n [] p q r = r
run_process-Running s n (h ∷ hs) p q r =
    let (one, more) = and_parts (is_quiet h) (all_quiet hs) q in
    rw⁻¹ (stored-cons h hs s) (
      run_process-Running (stored (h ∷ []) s) n hs (happens h p) more
        (happens-Running s n h p one r))

count_abort-bound : (h : Handler) → count_abort h ≤ 1
count_abort-bound by_default = omega arith
count_abort-bound ignored = omega arith
count_abort-bound on_abort = omega arith
count_abort-bound on_exit = omega arith

active-bound : (p : Process) → active p ≤ 5
active-bound p = omega (
  arith,
  count_abort-bound (p.handler sigquit),
  count_abort-bound (p.handler sigfpe),
  count_abort-bound (p.handler sigpipe),
  count_abort-bound (p.handler sigsegv),
  count_abort-bound (p.handler sigterm),
)

start_calm : (sig : Signal) → is_named sig ≡ true → is_calm (start_handler sig) ≡ true
start_calm (sig_other n) h = absurd (false_ne h)
start_calm _ h = refl

stop_handled :
    (sig : Signal) → is_stop sig ≡ true → (is_named sig ≡ true) × (start_handler sig ≡ on_abort)
stop_handled sigquit h = (refl, refl)
stop_handled sigfpe h = (refl, refl)
stop_handled sigpipe h = (refl, refl)
stop_handled sigsegv h = (refl, refl)
stop_handled sigterm h = (refl, refl)
stop_handled _ h = absurd (false_ne h)

-- A stop signal comes to a process that runs.
stop-After :
    (s : Shm) (n : ℕ) (sig : Signal) (p : Process)
    → is_stop sig ≡ true
    → Running s n p
    → After s n 10 (deliver sig p)
unfolding After
stop-After s n sig p stop r =
    let (named, start) = stop_handled sig stop in
    let on : p.handler sig ≡ on_abort = r.handled sig named ∙ start in
    let q = with_handler sig ignored p in
    let calm : IsCalm p = λ t t_named. ap is_calm (r.handled t t_named) ∙ start_calm t t_named in
    let fewer = active-stop sig p stop on in
    let few = active-bound p in
    transport_After s n 10 (deliver_eq sig p on_abort r.lives on ∙ can_abort-stop sig p stop) (
      inl (
        1,
        stop_later-Stopping s n q r.lives (with_handler-IsCalm sig ignored p refl calm)
            (ap (map_shm closed) r.open_segment) r.attached,
        omega arith,
      ))

-- The process ends when it is told to. It is started with a segment, no alarm and not exited, it
-- stores the frames that come, and SIGHUP and SIGINT, the only signals in that time, do not stop it.
-- Behind the first of the stop signals, whatever frames come and whatever signals of those that the
-- program names, it has exited within 10 seconds: no frame is stored any more, the segment shows
-- neither a process nor an open driver, and it is removed when no other process is attached to it.
pub start_can_io-HasEnded :
    (pid n : ℕ) (p : Process) (s : Shm) (quiet hs : List Happening) (sig : Signal)
    → p.exited ≡ false
    → p.alarm ≡ none
    → p.segment ≡ some s
    → p.nattch ≡ n
    → all_quiet quiet ≡ true
    → is_stop sig ≡ true
    → all_named hs ≡ true
    → 10 ≤ seconds hs
    → HasEnded
        (stored quiet (record s { can_pid = pos pid; can_open = p.can_fd }))
        n
        (run_process hs (deliver sig (run_process quiet (start_can_io pid p))))
unfolding start_can_io
start_can_io-HasEnded pid n p s quiet hs sig lives no_alarm segment attached q stop named enough =
    let opened = record s { can_pid = pos pid; can_open = p.can_fd } in
    let r : Running opened n (start_can_io pid p) = record {
      lives = lives;
      handled = λ t h. refl;
      no_alarm = no_alarm;
      open_segment =
          ap (map_shm (λ x. record x { can_pid = pos pid; can_open = p.can_fd })) segment;
      attached = attached;
    } in
    run_process-HasEnded (stored quiet opened) n 10 hs
      (deliver sig (run_process quiet (start_can_io pid p)))
      (stop-After (stored quiet opened) n sig (run_process quiet (start_can_io pid p)) stop
        (run_process-Running opened n quiet (start_can_io pid p) q r))
      named enough
