-- ===== src/CanRing/Alarm.antt =====
-- BTA_modbusmeteo/olddaemon/CAN/can_io.c: what happens to the process until its alarm.
use bta_utils.Prelude.{
  and_parts, ℕ, zero, suc, ◌+◌, ◌*◌, ◌≤◌, ◌≡◌, refl, ap, ◌∙◌, ◌⊎◌, inl, inr, Bool, true, false, not,
  ◌&&◌, Option, none, some, List, [], ◌∷◌, if◌then◌else◌, arith,
}
use bta_utils.CanRing.{Frame, Shm}
use bta_utils.CanRing.Life.{
  Signal, sigalrm, Handler, ignored, on_abort, Process, with_handler, map_shm, can_abort, deliver,
  handle_by, tick_alarm, store_if, Happening, signal, second, frame, happens, run_process,
}
use bta_utils.CanRing.Ending.{
  is_named, active, closed, Stopping, HasEnded, with_handler-IsCalm, store_if-closed,
  alarm-HasEnded, stop_later-Stopping, can_abort-stop, active-stop, named-cases, calm-cases,
}

-- The process waits for its alarm and will have ended within `m` seconds, or has ended.
unfoldable pub After : Shm → ℕ → ℕ → Process → Type 0
After s n m p = ((k : ℕ) × (Stopping s n k p) × (suc k + 2 * active p ≤ m)) ⊎ HasEnded s n p

abort-After :
    (s : Shm) (n k m : ℕ) (sig : Signal) (p : Process)
    → is_named sig ≡ true
    → p.handler sig ≡ on_abort
    → Stopping s n k p
    → suc k + 2 * active p ≤ m
    → After s n m (can_abort sig p)
unfolding After
abort-After s n k m sig p named on st h = elim (named-cases sig p named) [
  | inl stop ↦
      let q = with_handler sig ignored p in
      let fewer = active-stop sig p stop on in
      let next =
        stop_later-Stopping s n q st.lives (with_handler-IsCalm sig ignored p refl st.calm)
          (ap (map_shm closed) st.closed_segment) st.attached in
      rw (can_abort-stop sig p stop) (inl (1, next, omega arith))
  | inr (inl alarm) ↦ rw alarm (inr (alarm-HasEnded s n p st.closed_segment st.attached))
  | inr (inr (same, count, alarm)) ↦ rw same (
      inl (
        k,
        record {
          lives = st.lives;
          alarm_set = st.alarm_set;
          alarm_handled = alarm ∙ st.alarm_handled;
          calm =
              with_handler-IsCalm sig on_abort (with_handler sig ignored p) refl
                (with_handler-IsCalm sig ignored p refl st.calm);
          closed_segment = st.closed_segment;
          attached = st.attached;
        },
        rw count h,
      ))
]

pub transport_After : (s : Shm) (n m : ℕ) {p q : Process} → q ≡ p → After s n m p → After s n m q
transport_After s n m e h = rw e h

pub deliver_eq :
    (sig : Signal) (p : Process) (h : Handler)
    → p.exited ≡ false
    → p.handler sig ≡ h
    → deliver sig p ≡ handle_by h true sig p
deliver_eq sig p h lives on =
    ap (λ b. if b then p else handle_by (p.handler sig) true sig p) lives
    ∙ ap (λ k. handle_by k true sig p) on

deliver-After :
    (s : Shm) (n k m : ℕ) (sig : Signal) (p : Process)
    → is_named sig ≡ true
    → Stopping s n k p
    → suc k + 2 * active p ≤ m
    → After s n m (deliver sig p)
unfolding After
deliver-After s n k m sig p named st h = elim (calm-cases (p.handler sig) (st.calm sig named)) [
  | inl on ↦
      transport_After s n m (deliver_eq sig p on_abort st.lives on)
        (abort-After s n k m sig p named on st h)
  | inr off ↦ transport_After s n m (deliver_eq sig p ignored st.lives off) (inl (k, st, h))
]

-- What happens before the alarm costs no time, and a second brings the alarm nearer.
abbrev pub seconds : List Happening → ℕ
seconds [] = 0
seconds (second ∷ hs) = suc (seconds hs)
seconds (signal sig ∷ hs) = seconds hs
seconds (frame rx ∷ hs) = seconds hs

-- The signals of a run are those that the source names.
abbrev pub all_named : List Happening → Bool
all_named [] = true
all_named (second ∷ hs) = all_named hs
all_named (signal sig ∷ hs) = is_named sig && all_named hs
all_named (frame rx ∷ hs) = all_named hs

pub second_eq :
    (p : Process) (a : Option ℕ)
    → p.exited ≡ false
    → p.alarm ≡ a
    → happens second p ≡ tick_alarm a p
unfolding happens
second_eq p a lives set =
    ap (λ b. if b then p else tick_alarm p.alarm p) lives ∙ ap (λ x. tick_alarm x p) set

-- A second before the alarm.
tick-After :
    (s : Shm) (n k m : ℕ) (p : Process)
    → Stopping s n k p
    → suc k + 2 * active p ≤ suc m
    → After s n m (happens second p)
unfolding After
tick-After s n zero m p st h =
    let q : Process = record p { alarm = none } in
    transport_After s n m
      (second_eq p (some 1) st.lives st.alarm_set
        ∙ deliver_eq sigalrm q on_abort st.lives st.alarm_handled)
      (inr (alarm-HasEnded s n q st.closed_segment st.attached))
tick-After s n (suc k) m p st h =
    transport_After s n m (second_eq p (some (suc (suc k))) st.lives st.alarm_set) (
      inl (
        k,
        record {
          lives = st.lives;
          alarm_set = refl;
          alarm_handled = st.alarm_handled;
          calm = st.calm;
          closed_segment = st.closed_segment;
          attached = st.attached;
        },
        omega arith,
      ))

frame-After :
    (s : Shm) (n k m : ℕ) (rx : Frame) (p : Process)
    → Stopping s n k p
    → suc k + 2 * active p ≤ m
    → After s n m (happens (frame rx) p)
unfolding After happens
frame-After s n k m rx p st h = inl (
  k,
  record {
    lives = st.lives;
    alarm_set = st.alarm_set;
    alarm_handled = st.alarm_handled;
    calm = st.calm;
    closed_segment =
        ap (store_if (not p.exited) rx) st.closed_segment ∙ store_if-closed (not p.exited) rx s;
    attached = st.attached;
  },
  h,
)

rest_named : (x : Happening) (hs : List Happening) → all_named (x ∷ hs) ≡ true → all_named hs ≡ true
rest_named second hs h = h
rest_named (signal sig) hs h = (and_parts (is_named sig) (all_named hs) h).1
rest_named (frame rx) hs h = h

signal-After :
    (s : Shm) (n k m : ℕ) (sig : Signal) (p : Process)
    → is_named sig ≡ true
    → Stopping s n k p
    → suc k + 2 * active p ≤ m
    → After s n m (happens (signal sig) p)
unfolding happens
signal-After s n k m sig p named st h = deliver-After s n k m sig p named st h

transport_HasEnded : (s : Shm) (n : ℕ) {p q : Process} → q ≡ p → HasEnded s n p → HasEnded s n q
transport_HasEnded s n e h = rw e h

-- A process that has ended stays as it is.
happens-HasEnded :
    (s : Shm) (n : ℕ) (h : Happening) (p : Process) → HasEnded s n p → HasEnded s n (happens h p)
unfolding happens
happens-HasEnded s n (signal sig) p e =
    transport_HasEnded s n (ap (λ b. if b then p else handle_by (p.handler sig) true sig p) e.gone)
      e
happens-HasEnded s n second p e =
    transport_HasEnded s n (ap (λ b. if b then p else tick_alarm p.alarm p) e.gone) e
happens-HasEnded s n (frame rx) p e = record {
  gone = e.gone;
  unlocked = e.unlocked;
  segment_left = ap (λ b. store_if (not b) rx p.segment) e.gone ∙ e.segment_left;
}

pub run_process-HasEnded :
    (s : Shm) (n m : ℕ) (hs : List Happening) (p : Process)
    → After s n m p
    → all_named hs ≡ true
    → m ≤ seconds hs
    → HasEnded s n (run_process hs p)
unfolding run_process After
run_process-HasEnded s n m [] p (inl (k, st, h)) named enough = absurd (omega arith)
run_process-HasEnded s n m [] p (inr e) named enough = e
run_process-HasEnded s n m (x ∷ hs) p (inr e) named enough =
    run_process-HasEnded s n 0 hs (happens x p) (inr (happens-HasEnded s n x p e))
      (rest_named x hs named) (omega arith)
run_process-HasEnded s n m (signal sig ∷ hs) p (inl (k, st, h)) named enough =
    run_process-HasEnded s n m hs (happens (signal sig) p)
      (signal-After s n k m sig p (and_parts (is_named sig) (all_named hs) named).0 st h)
      (rest_named (signal sig) hs named) enough
run_process-HasEnded s n m (frame rx ∷ hs) p (inl (k, st, h)) named enough =
    run_process-HasEnded s n m hs _ (frame-After s n k m rx p st h) named enough
run_process-HasEnded s n zero (second ∷ hs) p (inl (k, st, h)) named enough = absurd (omega arith)
run_process-HasEnded s n (suc m) (second ∷ hs) p (inl (k, st, h)) named enough =
    run_process-HasEnded s n m hs _ (tick-After s n k m p st h) named (omega arith)
