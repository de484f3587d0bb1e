-- ===== src/CanRing/Ending.antt =====
-- BTA_modbusmeteo/olddaemon/CAN/can_io.c: the end of the process that fills the ring.
use bta_utils.Prelude.{
  false_ne, ℕ, suc, ◌+◌, ◌-◌, ◌≡◌, refl, ap, ◌⊎◌, inl, inr, Bool, true, false, ◌&&◌, Option, none,
  some, ◌==◌, if◌then◌else◌, pos, negsuc, arith, Bool-cases,
}
use bta_utils.CanRing.{Frame, Shm, is_positive, can_io_shm_ok, store_frame}
use bta_utils.CanRing.Life.{
  Signal, sighup, sigint, sigquit, sigfpe, sigpipe, sigsegv, sigterm, sigalrm, sig_other,
  same_signal, Handler, by_default, ignored, on_abort, on_exit, Process, with_handler, map_shm,
  can_abort, store_if, stop_later,
}

abbrev pub is_named : Signal → Bool
is_named (sig_other n) = false
is_named _ = true

-- The signals that stop the process.
abbrev pub is_stop : Signal → Bool
is_stop sigquit = true
is_stop sigfpe = true
is_stop sigpipe = true
is_stop sigsegv = true
is_stop sigterm = true
is_stop _ = false

-- The process has a handler of the library for a signal, or ignores it.
abbrev pub is_calm : Handler → Bool
is_calm on_abort = true
is_calm ignored = true
is_calm _ = false

abbrev pub count_abort : Handler → ℕ
count_abort on_abort = 1
count_abort _ = 0

-- The stop signals that are still handled: each can set the alarm once more.
abbrev pub active : Process → ℕ
active p =
    count_abort (p.handler sigquit)
    + count_abort (p.handler sigfpe)
    + count_abort (p.handler sigpipe)
    + count_abort (p.handler sigsegv)
    + count_abort (p.handler sigterm)

abbrev pub IsCalm : Process → Type 0
IsCalm p = (sig : Signal) → is_named sig ≡ true → is_calm (p.handler sig) ≡ true

-- The segment as the process leaves it: closed, and then without a process.
abbrev pub closed : Shm → Shm
closed s = record s { can_open = negsuc 0 }

abbrev pub cleared : Shm → Shm
cleared s = record s { can_pid = pos 0; can_open = negsuc 0 }

abbrev pub left_behind : Shm → ℕ → Option Shm
left_behind s n = if n - 1 == 0 then none else some (cleared s)

-- The process waits for its alarm in `k + 1` seconds, with a segment `s` and `n` processes attached.
pub record Stopping (s : Shm) (n k : ℕ) (p : Process) : Type 0 where
  pub lives : p.exited ≡ false
  pub alarm_set : p.alarm ≡ some (suc k)
  pub alarm_handled : p.handler sigalrm ≡ on_abort
  pub calm : IsCalm p
  pub closed_segment : p.segment ≡ some (closed s)
  pub attached : p.nattch ≡ n

-- The process has ended and left the segment in order.
pub record HasEnded (s : Shm) (n : ℕ) (p : Process) : Type 0 where
  pub gone : p.exited ≡ true
  pub unlocked : p.can_lk ≡ negsuc 0
  pub segment_left : p.segment ≡ left_behind s n

pub with_handler-IsCalm :
    (sig : Signal) (h : Handler) (p : Process)
    → is_calm h ≡ true
    → IsCalm p
    → IsCalm (with_handler sig h p)
with_handler-IsCalm sig h p hh hp s named = elim (Bool-cases (same_signal s sig)) [
  | inl same ↦ rw same hh
  | inr other ↦ rw other (hp s named)
]

and_false : (b : Bool) (x y : Shm) → (if b && false then x else y) ≡ y
and_false true x y = refl
and_false false x y = refl

pub store_if-closed :
    (b : Bool) (rx : Frame) (s : Shm) → store_if b rx (some (closed s)) ≡ some (closed s)
unfolding can_io_shm_ok
store_if-closed false rx s = refl
store_if-closed true rx s =
    ap some (and_false (is_positive s.can_pid) (store_frame rx (closed s)) (closed s))

-- The alarm ends the process.
pub alarm-HasEnded :
    (s : Shm) (n : ℕ) (p : Process)
    → p.segment ≡ some (closed s)
    → p.nattch ≡ n
    → HasEnded s n (can_abort sigalrm p)
unfolding can_abort
alarm-HasEnded s n p hs hn = record {
  gone = refl;
  unlocked = refl;
  segment_left = rw (hs, hn) refl;
}

-- A stop signal that is handled sets the alarm anew, and is not handled again.
pub stop_later-Stopping :
    (s : Shm) (n : ℕ) (p : Process)
    → p.exited ≡ false
    → IsCalm p
    → map_shm closed p.segment ≡ some (closed s)
    → p.nattch ≡ n
    → Stopping s n 1 (stop_later p)
stop_later-Stopping s n p lives calm hs hn = record {
  lives = lives;
  alarm_set = refl;
  alarm_handled = refl;
  calm = with_handler-IsCalm sigalrm on_abort p refl calm;
  closed_segment = hs;
  attached = hn;
}

pub can_abort-stop :
    (sig : Signal) (p : Process)
    → is_stop sig ≡ true
    → can_abort sig p ≡ stop_later (with_handler sig ignored p)
unfolding can_abort
can_abort-stop sigquit p h = refl
can_abort-stop sigfpe p h = refl
can_abort-stop sigpipe p h = refl
can_abort-stop sigsegv p h = refl
can_abort-stop sigterm p h = refl
can_abort-stop _ p h = absurd (false_ne h)

pub active-stop :
    (sig : Signal) (p : Process)
    → is_stop sig ≡ true
    → p.handler sig ≡ on_abort
    → active (stop_later (with_handler sig ignored p)) + 1 ≡ active p
active-stop sigquit p h e = rw e (omega arith)
active-stop sigfpe p h e = rw e (omega arith)
active-stop sigpipe p h e = rw e (omega arith)
active-stop sigsegv p h e = rw e (omega arith)
active-stop sigterm p h e = rw e (omega arith)
active-stop _ p h e = absurd (false_ne h)

-- SIGHUP and SIGINT, which are ignored.
abbrev pub again : Signal → Process → Process
again sig p = with_handler sig on_abort (with_handler sig ignored p)

pub named-cases :
    (sig : Signal) (p : Process)
    → is_named sig ≡ true
    → (is_stop sig ≡ true)
      ⊎ ((sig ≡ sigalrm)
          ⊎ ((can_abort sig p ≡ again sig p)
              × (active (again sig p) ≡ active p)
              × ((again sig p).handler sigalrm ≡ p.handler sigalrm)))
unfolding can_abort
named-cases sighup p h = inr (inr (refl, refl, refl))
named-cases sigint p h = inr (inr (refl, refl, refl))
named-cases sigalrm p h = inr (inl refl)
named-cases (sig_other k) p h = absurd (false_ne h)
named-cases sigquit p h = inl refl
named-cases sigfpe p h = inl refl
named-cases sigpipe p h = inl refl
named-cases sigsegv p h = inl refl
named-cases sigterm p h = inl refl

pub calm-cases : (h : Handler) → is_calm h ≡ true → (h ≡ on_abort) ⊎ (h ≡ ignored)
calm-cases on_abort e = inl refl
calm-cases ignored e = inr refl
calm-cases by_default e = absurd (false_ne e)
calm-cases on_exit e = absurd (false_ne e)
