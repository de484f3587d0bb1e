-- ===== src/ClientP2/Angle.antt =====
-- client-p2/cmdlnopts.c: the angle that `get_angle` reads.
use bta_utils.Prelude.{
  ℕ, ◌+◌, ◌*◌, ◌<◌, ◌≡◌, ◌⊎◌, Option, none, some, arith, if◌then◌else◌, ℤ, pos, negsuc, ◌+ℤ◌, ◌-ℤ◌,
  ltb_ℤ, dist_ℤ,
}
use bta_utils.ClientP2.{minus_ℤ, dms, get_angle}

-- An angle of whole degrees up to a full turn, minutes and thousandths of a second is read as their
-- sum with the sign of the degrees; degrees or minutes out of range, or seconds from 60 on, are refused.
pub get_angle_dms :
    (d : ℤ) (m a : ℕ) (two : Option (ℤ × ℤ))
    → let sum = 3600000 * dist_ℤ d (pos 0) + 60000 * m + a in
      (dist_ℤ d (pos 0) < 361
        → m < 60
        → a < 60000
        → get_angle none (some (d, pos m, pos a)) two
          ≡ some (if ltb_ℤ d (pos 0) then minus_ℤ sum else pos sum))
      × ((360 < dist_ℤ d (pos 0)) ⊎ ((59 < m) ⊎ (59999 < a))
          → get_angle none (some (d, pos m, pos a)) two ≡ none)
unfolding get_angle dms ◌+ℤ◌ ◌-ℤ◌
get_angle_dms (pos d) m a two = (λ hd hm ha. ground arith, λ h. ground arith)
get_angle_dms (negsuc d) m a two = (λ hd hm ha. ground arith, λ h. ground arith)
