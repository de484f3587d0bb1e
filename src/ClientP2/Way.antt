-- ===== src/ClientP2/Way.antt =====
-- client-p2/main.c: the way that `move_P2` takes, and the area between the end switches.
use bta_utils.Prelude.{
  ℕ, ◌+◌, ◌<◌, ◌≤◌, ◌≡◌, ◌⊎◌, ◌↔◌, refl, inl, inr, Bool, true, false, arith, Bool-cases, ltb→lt,
  leb→le, if◌then◌else◌, leb, ltb, ℤ, pos, negsuc, ◌+ℤ◌, ◌-ℤ◌, ltb_ℤ, dist_ℤ, sub_ℕ,
}
use bta_utils.ClientP2.{
  min_restrict, max_restrict, half_turn, full_turn, in_restricted, to_steps, preferred, no_turn,
  quit_code, go_steps, target_of, move_p2,
}

-- Two angles show in the same direction: they differ by a turn, or not at all.
abbrev pub SameDirection : ℤ → ℤ → Type 0
SameDirection a b = (a ≡ b) ⊎ ((a ≡ b +ℤ pos full_turn) ⊎ (a +ℤ pos full_turn ≡ b))

preferred-SameDirection : (a : ℤ) → SameDirection (preferred a) a
unfolding preferred ◌+ℤ◌ ◌-ℤ◌
preferred-SameDirection a = ground arith

preferred_short : (a : ℤ) → dist_ℤ a (pos 0) ≤ full_turn → dist_ℤ (preferred a) (pos 0) ≤ half_turn
unfolding preferred ◌+ℤ◌ ◌-ℤ◌
preferred_short a h = ground arith

-- The restricted area, at any turn that a way of at most a turn can reach from a position.
abbrev pub IsRestricted : ℤ → Type 0
IsRestricted p =
    (in_restricted p ≡ true)
    ⊎ ((in_restricted (p -ℤ pos full_turn) ≡ true) ⊎ (in_restricted (p +ℤ pos full_turn) ≡ true))

abbrev pub IsBetween : ℤ → ℤ → ℤ → Type 0
IsBetween a b p =
    ((ltb_ℤ p a ≡ false) × (ltb_ℤ b p ≡ false)) ⊎ ((ltb_ℤ a p ≡ false) × (ltb_ℤ p b ≡ false))

-- No position of a way is in the restricted area.
abbrev pub IsFree : ℤ → ℤ → Type 0
IsFree start way = (p : ℤ) → IsBetween start (start +ℤ way) p → ¬ IsRestricted p

-- A position of the circle, counted on from the lower end switch: the allowed ones are an interval.
abbrev pub allowed : ℕ → ℕ
allowed a = if ltb a max_restrict then a + full_turn else a

module _ (c t : ℕ) (c_turn : c < full_turn) (t_turn : t < full_turn)
    (c_out : in_restricted (pos c) ≡ false) (t_out : in_restricted (pos t) ≡ false) where
  way_upward :
      allowed t ≤ allowed c + half_turn
      → allowed c < allowed t + half_turn
      → preferred (pos t -ℤ pos c) ≡ sub_ℕ (allowed t) (allowed c)
  unfolding preferred ◌+ℤ◌ ◌-ℤ◌
  way_upward near near' = ground arith

  way_IsFree :
      allowed t ≤ allowed c + half_turn
      → allowed c < allowed t + half_turn
      → IsFree (pos c) (preferred (pos t -ℤ pos c))
  unfolding ◌+ℤ◌ ◌-ℤ◌
  way_IsFree near near' = rw (way_upward near near') (λ p between restricted. ground arith)

  -- The first restricted position on a way that leaves the allowed interval.
  way_down_restricted :
      allowed c + half_turn < allowed t → ¬ IsFree (pos c) (preferred (pos t -ℤ pos c))
  unfolding preferred ◌+ℤ◌ ◌-ℤ◌
  way_down_restricted far free = free (pos (min_restrict + 1)) (ground arith) (ground arith)

  way_up_restricted :
      allowed t + half_turn ≤ allowed c → ¬ IsFree (pos c) (preferred (pos t -ℤ pos c))
  unfolding preferred ◌+ℤ◌ ◌-ℤ◌
  way_up_restricted far free = elim (Bool-cases (ltb c max_restrict)) [
    | inl low ↦ free (pos (min_restrict + 1)) (ground arith) (ground arith)
    | inr high ↦ free (pos (min_restrict + full_turn + 1)) (ground arith) (ground arith)
  ]

-- For a position and a target out of the restricted area, the way that `move_P2` prefers passes no
-- restricted position exactly where the way through the allowed interval is the shorter one: less
-- than half a turn down and at most half a turn up.
pub preferred-IsFree :
    (c t : ℕ)
    → c < full_turn
    → t < full_turn
    → in_restricted (pos c) ≡ false
    → in_restricted (pos t) ≡ false
    → IsFree (pos c) (preferred (pos t -ℤ pos c))
      ↔ ((allowed t ≤ allowed c + half_turn) × (allowed c < allowed t + half_turn))
preferred-IsFree c t c_turn t_turn c_out t_out =
    let down = way_down_restricted c t c_turn t_turn c_out t_out in
    let up = way_up_restricted c t c_turn t_turn c_out t_out in
    (
      λ free. (
        elim (Bool-cases (leb (allowed t) (allowed c + half_turn))) [
          | inl h ↦ leb→le _ _ h
          | inr h ↦ absurd (down (ground arith) free)
        ],
        elim (Bool-cases (ltb (allowed c) (allowed t + half_turn))) [
          | inl h ↦ ltb→lt _ _ h
          | inr h ↦ absurd (up (ground arith) free)
        ],
      ),
      λ h. way_IsFree c t c_turn t_turn c_out t_out h.0 h.1,
    )

-- What `move_P2` does for each position and angle. Less than an arc second asks for nothing. Else a
-- restricted position ends the program with -1, and a restricted target with -10. Else the command
-- goes out with the steps of a way that leads to the direction of the target, of half a turn at most
-- where position and target are not more than a turn apart.
pub move_p2_lem :
    (rel : Bool) (angle cur_p : ℤ)
    → let targ_p = target_of rel angle cur_p in
      ((dist_ℤ angle (pos 0) < 1000) × (move_p2 rel angle cur_p ≡ no_turn))
      ⊎ ((1000 ≤ dist_ℤ angle (pos 0))
          × (((in_restricted cur_p ≡ true) × (move_p2 rel angle cur_p ≡ quit_code (negsuc 0)))
              ⊎ ((in_restricted cur_p ≡ false)
                  × (((in_restricted targ_p ≡ true)
                        × (move_p2 rel angle cur_p ≡ quit_code (negsuc 9)))
                      ⊎ ((in_restricted targ_p ≡ false)
                          × ((way : ℤ) × (move_p2 rel angle cur_p ≡ go_steps (to_steps way))
                              × SameDirection way (targ_p -ℤ cur_p)
                              × (dist_ℤ (targ_p -ℤ cur_p) (pos 0) ≤ full_turn
                                  → dist_ℤ way (pos 0) ≤ half_turn)))))))
unfolding move_p2
move_p2_lem rel angle cur_p =
    let targ_p = target_of rel angle cur_p in
    elim (Bool-cases (ltb (dist_ℤ angle (pos 0)) 1000)) [
      | inl little ↦ inl (ltb→lt _ _ little, rw little refl)
      | inr enough ↦ inr (
        ground arith,
        elim (Bool-cases (in_restricted cur_p)) [
          | inl here ↦ inl (here, rw (enough, here) refl)
          | inr out ↦ inr (
            out,
            elim (Bool-cases (in_restricted targ_p)) [
              | inl there ↦ inl (there, rw (enough, out, there) refl)
              | inr free ↦ inr (
                free,
                (
                  preferred (targ_p -ℤ cur_p),
                  rw (enough, out, free) refl,
                  preferred-SameDirection (targ_p -ℤ cur_p),
                  preferred_short (targ_p -ℤ cur_p),
                ),
              )
            ],
          )
        ],
      )
    ]
