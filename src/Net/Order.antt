-- ===== src/Net/Order.antt =====
-- bta_control_net-x86_64/bta_control_net/bta_control_net.c: which command of the client's queues goes
-- next.
use bta_utils.Prelude.{ℕ, ◌<◌, ◌≡◌, refl, Option, none, some, arith, ◌⊎◌, inl, inr, Option-cases}
use bta_utils.Acs.{Channel, mcmd, ocmd, ucmd, MsgBuf}
use bta_utils.Net.{next_command, from_queue}

-- The order of the queues.
abbrev pub rank : Channel → ℕ
rank mcmd = 0
rank ocmd = 1
rank ucmd = 2

-- `msgrcv` for a type finds nothing where the queue is empty.
abbrev pub IsQueues : (Channel → ℕ → Option MsgBuf) → Type 0
IsQueues msgrcv = (ch : Channel) (type : ℕ) → msgrcv ch 0 ≡ none → msgrcv ch type ≡ none

before_operator : (P : Channel → Type 0) → P mcmd → (ch : Channel) → rank ch < 1 → P ch
before_operator P a mcmd h = a
before_operator P a ocmd h = absurd (omega arith)
before_operator P a ucmd h = absurd (omega arith)

before_user : (P : Channel → Type 0) → P mcmd → P ocmd → (ch : Channel) → rank ch < 2 → P ch
before_user P a b mcmd h = a
before_user P a b ocmd h = b
before_user P a b ucmd h = absurd (omega arith)

all_queues : (P : Channel → Type 0) → P mcmd → P ocmd → P ucmd → (ch : Channel) → P ch
all_queues P a b c mcmd = a
all_queues P a b c ocmd = b
all_queues P a b c ucmd = c

-- A message is the one to take from a queue.
pub data IsFirst (msgrcv : Channel → ℕ → Option MsgBuf) (m : MsgBuf) : Channel → Type 0 where
  stop : {ch : Channel} → rank ch < 2 → msgrcv ch 1 ≡ some m → IsFirst msgrcv m ch
  first :
      {ch : Channel}
      → msgrcv ch 0 ≡ some m
      → (rank ch < 2 → msgrcv ch 1 ≡ none)
      → IsFirst msgrcv m ch

module _ (msgrcv : Channel → ℕ → Option MsgBuf) where
  -- A queue is empty.
  abbrev pub IsEmpty : Channel → Type 0
  IsEmpty ch = msgrcv ch 0 ≡ none

  abbrev Next : Option (Channel × MsgBuf) → Type 0
  Next o =
      ((o ≡ none) × ((ch : Channel) → IsEmpty ch))
      ⊎ ((ch : Channel) × (m : MsgBuf) × (o ≡ some (ch, m))
          × ((before : Channel) → rank before < rank ch → IsEmpty before)
          × IsFirst msgrcv m ch)

  from_user : IsEmpty mcmd → IsEmpty ocmd → Next (from_queue msgrcv ucmd 0 none)
  from_user a b = elim (Option-cases (msgrcv ucmd 0)) [
    | inl c ↦ rw c (inl (refl, all_queues IsEmpty a b c))
    | inr (m, e) ↦
        rw e (inr (ucmd, m, refl, before_user IsEmpty a b, first e (λ h. absurd (omega arith))))
  ]

  from_operator :
      IsEmpty mcmd
      → IsQueues msgrcv
      → Next (from_queue msgrcv ocmd 1 (from_queue msgrcv ocmd 0 (from_queue msgrcv ucmd 0 none)))
  from_operator a q = elim (Option-cases (msgrcv ocmd 1)) [
    | inr (m, e) ↦ rw e (inr (ocmd, m, refl, before_operator IsEmpty a, stop (omega arith) e))
    | inl no_stop ↦ elim (Option-cases (msgrcv ocmd 0)) [
      | inr (m, e) ↦
          rw (no_stop, e) (inr (ocmd, m, refl, before_operator IsEmpty a, first e (λ h. no_stop)))
      | inl b ↦ rw (no_stop, b) (from_user a b)
    ]
  ]

-- The command that goes next: none where all queues are empty. Else it is of a queue before which
-- all are empty, and it is the first "StopTel" of that queue or, where that has none or is the
-- user's, its first command.
pub next_command_lem :
    (msgrcv : Channel → ℕ → Option MsgBuf)
    → IsQueues msgrcv
    → ((next_command msgrcv ≡ none) × ((ch : Channel) → IsEmpty msgrcv ch))
      ⊎ ((ch : Channel) × (m : MsgBuf) × (next_command msgrcv ≡ some (ch, m))
          × ((before : Channel) → rank before < rank ch → IsEmpty msgrcv before)
          × IsFirst msgrcv m ch)
unfolding next_command
next_command_lem msgrcv q = elim (Option-cases (msgrcv mcmd 1)) [
  | inr (m, e) ↦ rw e (inr (mcmd, m, refl, λ b h. absurd (omega arith), stop (omega arith) e))
  | inl no_stop ↦ elim (Option-cases (msgrcv mcmd 0)) [
    | inr (m, e) ↦
        rw (no_stop, e) (inr (mcmd, m, refl, λ b h. absurd (omega arith), first e (λ h. no_stop)))
    | inl a ↦ rw (no_stop, a) (from_operator msgrcv a q)
  ]
]
