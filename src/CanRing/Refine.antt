-- ===== src/CanRing/Refine.antt =====
-- A reader of the receive ring of can_io.c sees the queue of `Fifo`.
use bta_utils.Prelude.{
  ℕ, zero, suc, ◌+◌, ◌-◌, ◌%◌, ◌<◌, ◌≡◌, refl, ◌∙◌, ap, inl, inr, true, false, Option, none, some,
  List, [], ◌∷◌, ◌++◌, length, length-set, arith, take, pos, negsuc, ◌≤◌, ◌==◌, get_elem?,
  if◌then◌else◌, Bool-cases, ℤ,
}
use mathlib.Core.Option
use bta_utils.CanRing.{
  Port, driver, clamp_length, can_send_frame, is_negative, Clock, Frame, Shm, Received, received,
  store_frame, build_frame, can_put_buff_frame, get_loop, can_get_buff_frame, Reader,
}
use bta_utils.CanRing.Fifo
use bta_utils.CanRing.Index.{window, length-window, window-set, slot, get_elem?-slot}

-- The ring's array has CAN_RX_SIZE slots, and the next slot to be written is one of them.
pub record IsValid (s : Shm) : Type 0 where
  pub slots : length s.rx_buff ≡ 1000
  pub within : s.rx_buff_pntr < 1000

pub store_frame-IsValid : (x : Frame) (s : Shm) → IsValid s → IsValid (store_frame x s)
unfolding store_frame
store_frame-IsValid x s v = ground (arith, length-set s.rx_buff s.rx_buff_pntr x)

-- How many frames a reader at slot `p` has not read, and which.
abbrev pub unread : Shm → ℕ → ℕ
unread s p = (s.rx_buff_pntr + 1000 - p) % 1000

abbrev pub view : Shm → ℕ → List Frame
view s p = window s.rx_buff p (unread s p)

-- Storing a frame is `put` for every reader.
pub store_refines :
    (x : Frame) (s : Shm) (p : ℕ)
    → IsValid s
    → p < 1000
    → view (store_frame x s) p ≡ Fifo.put (view s p) x
unfolding store_frame Fifo.put
store_refines x s p v hp = elim (Bool-cases (unread s p == 999)) [
  | inl full ↦ ground (arith, length-window s.rx_buff p (unread s p))
  | inr more ↦ ground (
    arith,
    length-window s.rx_buff p (unread s p),
    window-set s.rx_buff p (unread s p) s.rx_buff_pntr x,
    ahead,
  )
]
  where
    ahead : unread s p < 999 → unread (store_frame x s) p ≡ suc (unread s p)
    ahead h = omega arith

-- A session of one reader: frames come in, and it reads.
pub data Event : Type 0 where
  arrival : Frame → Event
  reading : Event

module _ (C : Clock) where
  open C use {Time, of_timeval, is_recent}

  -- The first frame of a window is in the ring, and the reader is not at the end of it.
  unread_step :
      (s : Shm) (p n : ℕ)
      → IsValid s
      → p < 1000
      → unread s p ≡ suc n
      → ((p == s.rx_buff_pntr) ≡ false)
        × (get_elem? s.rx_buff p ≡ some (slot s.rx_buff p))
        × (unread s ((p + 1) % 1000) ≡ n)
  unread_step s p n v hp e = (ground arith, get_elem?-slot s.rx_buff p (omega arith), omega arith)

  -- One round of the loop: at the end of the ring, on a recent frame and on an old one.
  loop_end :
      (fuel : ℕ) (s : Shm) (r : Reader C)
      → unread s r.pbuf ≡ 0
      → IsValid s
      → r.pbuf < 1000
      → get_loop C (suc fuel) s r ≡ some (none, r)
  unfolding get_loop
  loop_end fuel s r e v h = let here : (r.pbuf == s.rx_buff_pntr) ≡ true = ground arith in rw here

  loop_round :
      (fuel : ℕ) (s : Shm) (r : Reader C) {x : Frame}
      → (r.pbuf == s.rx_buff_pntr) ≡ false
      → get_elem? s.rx_buff r.pbuf ≡ some x
      → get_loop C (suc fuel) s r ≡ (
          if is_recent (of_timeval x.timestamp) r.rtime
          then some (
            some (received x),
            record { pbuf = (r.pbuf + 1) % 1000; rtime = of_timeval x.timestamp },
          )
          else get_loop C fuel s (record { pbuf = (r.pbuf + 1) % 1000; rtime = r.rtime }))
  unfolding get_loop
  loop_round fuel s r more e = rw (more, e)

  -- What the loop answers a reader that has not read the frames `q`.
  Answers : ℕ → Shm → Reader C → List Frame → Type 0
  Answers fuel s r q =
      let (got, t, rest) = Fifo.get C r.rtime q in
      (r' : Reader C) × (get_loop C fuel s r ≡ some (Option.map received got, r'))
      × (r'.rtime ≡ t)
      × (view s r'.pbuf ≡ rest)
      × (r'.pbuf < 1000)

  -- An answer behind an old frame is the answer at that frame.
  Answers-skip :
      (fuel : ℕ) (s : Shm) (r : Reader C) {x : Frame} (q : List Frame)
      → (r.pbuf == s.rx_buff_pntr) ≡ false
      → get_elem? s.rx_buff r.pbuf ≡ some x
      → is_recent (of_timeval x.timestamp) r.rtime ≡ false
      → Answers fuel s (record { pbuf = (r.pbuf + 1) % 1000; rtime = r.rtime }) q
      → Answers (suc fuel) s r (x ∷ q)
  unfolding Answers Fifo.get
  Answers-skip fuel s r q more found old a = rw (loop_round fuel s r more found, old) a

  get_loop_refines :
      (n fuel : ℕ) (s : Shm) (r : Reader C)
      → IsValid s
      → r.pbuf < 1000
      → unread s r.pbuf ≡ n
      → n < fuel
      → Answers fuel s r (window s.rx_buff r.pbuf n)
  get_loop_refines n zero s r v hp e hf = absurd (omega arith)
  get_loop_refines zero (suc fuel) s r v hp e hf =
      unfold Answers Fifo.get in (r, loop_end fuel s r e v hp, refl, rw e, hp)
  get_loop_refines (suc n) (suc fuel) s r v hp e hf =
      let (more, found, less) = unread_step s r.pbuf n v hp e in
      elim (Bool-cases (is_recent (of_timeval (slot s.rx_buff r.pbuf).timestamp) r.rtime)) [
        | inl new ↦
            unfold Answers Fifo.get in
            rw new (
              record {
                pbuf = (r.pbuf + 1) % 1000;
                rtime = of_timeval (slot s.rx_buff r.pbuf).timestamp;
              },
              rw (loop_round fuel s r more found, new),
              refl,
              rw less,
              omega arith,
            )
        | inr old ↦ Answers-skip fuel s r _ more found old (
            get_loop_refines n fuel s (record { pbuf = (r.pbuf + 1) % 1000; rtime = r.rtime }) v
              (omega arith) less (omega arith))
      ]

  -- A reading of a valid ring ends, with no access outside the array. It returns the first frame
  -- that is recent for the reader, as `Fifo.get` does, and leaves the reader with the frames
  -- behind it.
  pub can_get_buff_frame_refines :
      (s : Shm) (r : Reader C)
      → IsValid s
      → r.pbuf < 1000
      → let (got, t, rest) = Fifo.get C r.rtime (view s r.pbuf) in
        (r' : Reader C) × (can_get_buff_frame C s r ≡ some (Option.map received got, r'))
        × (r'.rtime ≡ t)
        × (view s r'.pbuf ≡ rest)
        × (r'.pbuf < 1000)
  unfolding can_get_buff_frame Answers
  can_get_buff_frame_refines s r v hp =
      get_loop_refines (unread s r.pbuf) 1000 s r v hp refl (omega arith)

  unfoldable pub run : List Event → Shm → Reader C → Option (List (Option Received))
  run [] s r = some []
  run (arrival x ∷ es) s r = run es (store_frame x s) r
  run (reading ∷ es) s r = elim (can_get_buff_frame C s r) [
    | none ↦ none
    | some (got, r') ↦ Option.map (λ gots. got ∷ gots) (run es s r')
  ]

  unfoldable pub fifo_run : List Event → C.Time → List Frame → List (Option Received)
  fifo_run [] t q = []
  fifo_run (arrival x ∷ es) t q = fifo_run es t (Fifo.put q x)
  fifo_run (reading ∷ es) t q =
      let (got, t', q') = Fifo.get C t q in Option.map received got ∷ fifo_run es t' q'

  run_reading :
      (es : List Event) (s : Shm) (r : Reader C) {got : Option Received} {r' : Reader C}
      → can_get_buff_frame C s r ≡ some (got, r')
      → run (reading ∷ es) s r ≡ Option.map (λ gots. got ∷ gots) (run es s r')
  unfolding run
  run_reading es s r e = rw (e, run)

  -- From a valid ring and an index of the reader within it, any sequence of arrivals and readings
  -- returns what a queue gives that holds up to 999 unread frames and is emptied, the new frame
  -- included, by a frame that comes in when 999 are unread; a reading gives the first frame that is
  -- recent for the reader's time and drops the ones before it.
  pub run_refines :
      (es : List Event) (s : Shm) (r : Reader C)
      → IsValid s
      → r.pbuf < 1000
      → run es s r ≡ some (fifo_run es r.rtime (view s r.pbuf))
  unfolding run fifo_run
  run_refines [] s r v hp = refl
  run_refines (arrival x ∷ es) s r v hp =
      run_refines es (store_frame x s) r (store_frame-IsValid x s v) hp
      ∙ ap (λ q. some (fifo_run es r.rtime q)) (store_refines x s r.pbuf v hp)
  run_refines (reading ∷ es) s r v hp =
      let (r', e, et, eq, hp') = can_get_buff_frame_refines s r v hp in
      rw (run_reading es s r e, run_refines es s r' v hp', et, eq)

take-append : (n : ℕ) (xs ys : List ℕ) → n ≤ length xs → take n (take n xs ++ ys) ≡ take n xs
take-append zero xs ys h = refl
take-append (suc n) [] ys h = absurd (omega arith)
take-append (suc n) (x ∷ xs) ys h = ap (λ l. x ∷ l) (take-append n xs ys (omega arith))

clamp_length-le : (len : ℤ) → clamp_length len ≤ 8
unfolding clamp_length
clamp_length-le (pos n) = ground arith
clamp_length-le (negsuc n) = omega arith

clamp_length_idem : (len : ℤ) → clamp_length (pos (clamp_length len)) ≡ clamp_length len
unfolding clamp_length
clamp_length_idem (pos n) = ground arith
clamp_length_idem (negsuc n) = refl

received-build :
    (C : Clock) (now : C.Time) (id len : ℤ) (bytes junk : List ℕ)
    → clamp_length len ≤ length bytes
    → received (build_frame C now id (pos (clamp_length len)) bytes junk)
      ≡ record { id = id; length = pos (clamp_length len); bytes = take (clamp_length len) bytes }
unfolding received build_frame
received-build C now id len bytes junk h =
    rw (clamp_length_idem len, take-append (clamp_length len) bytes junk h)

-- In server mode, with the driver open, a sent frame is cut to 8 bytes (a negative length to
-- none), is written to the driver, and comes back to the readers with the same identifier, length
-- and bytes, whatever stood in the uninitialised part of the local frame.
pub can_send_frame_echo :
    (C : Clock) (p : Port) (written : ℤ) (now : C.Time) (id len : ℤ) (bytes junk : List ℕ) (s : Shm)
    → clamp_length len ≤ length bytes
    → is_negative p.can_fd ≡ false
    → p.server_mode ≡ true
    → let n = clamp_length len in
      let (ret, sent, s') = can_send_frame C p written now id len bytes junk s in
      (x : Frame) × (ret ≡ written)
      × (n ≤ 8)
      × (sent ≡ driver id n (take n bytes))
      × (s' ≡ store_frame x s)
      × (received x ≡ record { id = id; length = pos n; bytes = take n bytes })
unfolding can_send_frame can_put_buff_frame build_frame received
can_send_frame_echo C p written now id len bytes junk s h fd mode =
    let n = clamp_length len in
    (
      build_frame C now id (pos n) bytes junk,
      rw fd,
      clamp_length-le len,
      rw fd,
      rw (fd, mode),
      received-build C now id len bytes junk h,
    )
