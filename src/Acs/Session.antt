-- ===== src/Acs/Session.antt =====
-- bta_print_header/bta_shdata.c: a client that opens a queue, sets its access key and sends.
use bta_utils.Prelude.{
  ℕ, suc, ◌≡◌, true, false, some, List, arith, ℤ, pos, eqb_ℤ, eqb_ℤ_refl, Bool-cases, ◌⊎◌, inl, inr,
  ap, ◌∙◌,
}
use bta_utils.Acs.Sending.{sent_of, send_cmd_open}
use bta_utils.Acs.{
  Client, Sent, Channel, MsgGet, mcmd, ocmd, ucmd, queue_of, is_negative, set_acckey, key_of,
  send_cmd, get_cmd_queue,
}

-- One of the three queues is the current one.
abbrev HasCurrent : Client → Type 0
HasCurrent c =
    (eqb_ℤ c.user.id c.snd_id ≡ true)
    ⊎ (eqb_ℤ c.operator.id c.snd_id ≡ true)
    ⊎ (eqb_ℤ c.main.id c.snd_id ≡ true)

-- The key that is set is the key of the next command.
key_of-set_acckey :
    (c : Client) (k junk : ℕ)
    → is_negative c.snd_id ≡ false
    → HasCurrent c
    → key_of (set_acckey k c) junk ≡ k
unfolding key_of set_acckey
key_of-set_acckey c k junk opened has = elim (Bool-cases (eqb_ℤ c.user.id c.snd_id)) [
  | inl u ↦ rw (opened, u, u)
  | inr nu ↦ elim (Bool-cases (eqb_ℤ c.operator.id c.snd_id)) [
    | inl o ↦ rw (opened, nu, o, nu, o)
    | inr no' ↦ elim (Bool-cases (eqb_ℤ c.main.id c.snd_id)) [
      | inl m ↦ rw (opened, nu, no', m, nu, no', m)
      | inr nm ↦ absurd (ground arith)
    ]
  ]
]

-- A queue can be opened by a client: it is in use already, or `msgget` finds it.
abbrev pub CanOpen : MsgGet → Channel → Client → Type 0
CanOpen sys ch c = (is_negative (queue_of c ch).id ≡ false) ⊎ (is_negative sys.found ≡ false)

-- An opened queue is the current one.
opened_is_current :
    (sys : MsgGet) (ch : Channel) (c : Client)
    → CanOpen sys ch c
    → let c1 = (get_cmd_queue sys ch false c).0 in
      (c1.snd_id ≡ (queue_of c1 ch).id) × (is_negative c1.snd_id ≡ false)
unfolding get_cmd_queue
opened_is_current sys mcmd c can = ground arith
opened_is_current sys ocmd c can = ground arith
opened_is_current sys ucmd c can = ground arith

current_of : (c : Client) (ch : Channel) → c.snd_id ≡ (queue_of c ch).id → HasCurrent c
current_of c mcmd e = inr (inr (rw e (eqb_ℤ_refl c.main.id)))
current_of c ocmd e = inr (inl (rw e (eqb_ℤ_refl c.operator.id)))
current_of c ucmd e = inl (rw e (eqb_ℤ_refl c.user.id))

set_acckey-snd_id : (k : ℕ) (c : Client) → (set_acckey k c).snd_id ≡ c.snd_id
unfolding set_acckey
set_acckey-snd_id k c = ground arith

-- A client that opens a queue and sets its access key sends its next command to that queue, with
-- that key: on each of the three queues, newly opened or in use already.
pub login_lem :
    (sys : MsgGet) (ch : Channel) (c : Client) (k pid junk code : ℕ) (buf : List ℕ) (size : ℤ)
    → CanOpen sys ch c
    → let c1 = (get_cmd_queue sys ch false c).0 in
      (sent : Sent) × ((send_cmd pid junk (pos (suc code)) buf size (set_acckey k c1)).1
        ≡ some sent)
      × (sent.queue ≡ (queue_of c1 ch).id)
      × (sent.message.acckey ≡ k)
login_lem sys ch c k pid junk code buf size can =
    let c1 = (get_cmd_queue sys ch false c).0 in
    let (current, opened) = opened_is_current sys ch c can in
    let kept = set_acckey-snd_id k c1 in
    (
      sent_of pid junk code buf size (set_acckey k c1),
      ap (λ p. p.1) (send_cmd_open pid junk code buf size (set_acckey k c1) (rw kept opened)),
      kept ∙ current,
      key_of-set_acckey c1 k junk opened (current_of c1 ch current),
    )
