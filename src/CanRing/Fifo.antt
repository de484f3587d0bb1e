-- ===== src/CanRing/Fifo.antt =====
-- What a reader of the CAN receive ring is promised: a queue of the frames that it has not read,
-- which is emptied when the thousandth unread frame comes in.
use bta_utils.Prelude.{ℕ, Option, none, some, List, [], ◌∷◌, ◌++◌, length, ◌==◌, if◌then◌else◌}
use bta_utils.CanRing.{Clock, Frame}

-- One frame short of the ring.
abbrev pub room : ℕ
room = 999

unfoldable pub put : List Frame → Frame → List Frame
put q x = if length q == room then [] else q ++ (x ∷ [])

module _ (C : Clock) where
  open C use {Time, of_timeval, is_recent}

  -- The first frame that is recent for the reader's time, the reader's new time, and the frames
  -- behind it; the frames before it are dropped.
  unfoldable pub get : Time → List Frame → Option Frame × Time × List Frame
  get t [] = (none, t, [])
  get t (x ∷ q) =
      if is_recent (of_timeval x.timestamp) t then (some x, of_timeval x.timestamp, q) else get t q
