-- ===== src/ClientP2/Loop.antt =====
-- client-p2/main.c: what the rounds of `main` show, and how they end.
use bta_utils.Prelude.{
  if_either, ◌+◌, ◌≡◌, ◌⊎◌, refl, inl, inr, Bool, true, false, List, [], ◌∷◌, ◌++◌, append_assoc,
  append-nil, Option, arith, Bool-cases, ltb, ℤ, pos, ◌+ℤ◌, ◌-ℤ◌, ltb_ℤ,
}
use bta_utils.ClientP2.{
  TtyPoll, nothing, key_only, gone, got_bytes, ClientRound, Shown, p2_value, got_text, ClientVars,
  fabs_macro, check_p2, stop_word, starts_with, take_bytes, after_bytes, client_round, then_rounds,
  client_main,
}

-- The values of P2 that are shown after a value `p` grow by more than a tenth of an arc second.
abbrev pub Grows : ℤ → List Shown → Type 0
Grows p [] = Unit
Grows p (got_text text ∷ shown) = Grows p shown
Grows p (p2_value q ∷ shown) = (ltb_ℤ (p +ℤ pos 100) q ≡ true) × Grows q shown

-- The positions of the telescope are not negative.
abbrev pub IsPositive : List ClientRound → Type 0
IsPositive [] = Unit
IsPositive (r ∷ rs) = (ltb_ℤ r.val_p (pos 0) ≡ false) × IsPositive rs

shown_step :
    (a p : ℤ)
    → ltb_ℤ a (pos 0) ≡ false
    → ltb_ℤ (pos 100) (fabs_macro a p) ≡ true
    → ltb_ℤ (p +ℤ pos 100) a ≡ true
unfolding ◌+ℤ◌ ◌-ℤ◌
shown_step a p h h' = ground arith

-- A look at the position.
abbrev pub Look : ClientRound → ClientVars → ClientVars × List Shown → Type 0
Look r v looked =
    (looked.0.is_running ≡ v.is_running)
    × (((looked.0.p_old ≡ v.p_old) × (looked.1 ≡ []))
        ⊎ ((looked.0.p_old ≡ r.val_p)
            × (looked.1 ≡ p2_value r.val_p ∷ [])
            × (ltb_ℤ (pos 100) (fabs_macro r.val_p v.p_old) ≡ true)))

pub check_p2-Look : (r : ClientRound) (v : ClientVars) → Look r v (check_p2 r v)
unfolding check_p2
check_p2-Look r v = elim (Bool-cases (ltb (v.t0 + 1000) r.t)) [
  | inr early ↦ rw early (refl, inl (refl, refl))
  | inl due ↦ elim (Bool-cases (ltb_ℤ (pos 100) (fabs_macro r.val_p v.p_old))) [
    | inl far ↦ rw (due, far) (refl, inr (refl, refl, refl))
    | inr near ↦ rw (due, near) (refl, inl (refl, refl))
  ]
]

check_p2-Grows :
    (r : ClientRound) (v : ClientVars) (looked : ClientVars × List Shown)
    → ltb_ℤ r.val_p (pos 0) ≡ false
    → Look r v looked
    → (later : List Shown) → Grows (looked.0).p_old later
    → Grows v.p_old (looked.1 ++ later)
check_p2-Grows r v looked positive (_, inl (kept, none_shown)) later grows =
    rw none_shown (rw kept at grows)
check_p2-Grows r v looked positive (_, inr (new, one_shown, far)) later grows =
    rw one_shown (shown_step r.val_p v.p_old positive far, rw new at grows)

module _ (rest : ClientVars → List Shown × Option ℤ)
    (rest_grows : (v : ClientVars) → Grows v.p_old (rest v).0) where
  bytes_Grows :
      (p : ℤ) (shown : List Shown) (ok : Bool) (poll : TtyPoll) (c : ClientVars)
      → ((later : List Shown) → Grows c.p_old later → Grows p (shown ++ later))
      → Grows p (then_rounds rest (after_bytes ok shown (take_bytes poll c))).0
  unfolding take_bytes
  bytes_Grows p shown ok gone c before = rw append-nil at (before [] tt)
  bytes_Grows p shown true nothing c before = rw append-nil (before _ (rest_grows c))
  bytes_Grows p shown false nothing c before = before [] tt
  bytes_Grows p shown true key_only c before = rw append-nil (before _ (rest_grows c))
  bytes_Grows p shown false key_only c before = before [] tt
  bytes_Grows p shown false (got_bytes buff) c before = before (got_text buff ∷ []) tt
  bytes_Grows p shown true (got_bytes buff) c before =
      elim (Bool-cases (starts_with stop_word buff)) [
        | inl stop ↦
            rw (stop, append_assoc) (before _ (rest_grows (record c { is_running = false })))
        | inr other ↦ rw (other, append_assoc) (before _ (rest_grows c))
      ]

-- The positions that `main` shows, of a telescope whose positions are not negative, each exceed the
-- one shown before by more than a tenth of an arc second, and the first so exceeds `p_old`, whatever
-- is received and whenever: a way back of the telescope is never shown.
pub client_main-Grows :
    (rs : List ClientRound) (v : ClientVars) → IsPositive rs → Grows v.p_old (client_main rs v).0
unfolding client_main client_round
client_main-Grows [] v positive = tt
client_main-Grows (r ∷ rs) v (positive, later) =
    if_either (λ (o : List Shown × Option ℤ). Grows v.p_old o.0) v.is_running
      (bytes_Grows (client_main rs) (λ v'. client_main-Grows rs v' later) v.p_old (check_p2 r v).1
        r.shm_ok r.poll (check_p2 r v).0
        (check_p2-Grows r v (check_p2 r v) positive (check_p2-Look r v)))
      tt
