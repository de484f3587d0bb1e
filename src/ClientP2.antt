-- ===== src/ClientP2.antt =====
-- client-p2/main.c: the client that turns the P2 rotator through a serial line. Angles are counted
-- in thousandths of an arc second, as integers, and sums of them are exact; times are in thousandths
-- of a second.
pub mod Way
pub mod Angle
pub mod Loop
pub mod Ending
mod Tests
use bta_utils.Prelude.{
  ℕ, zero, suc, ◌+◌, ◌*◌, ◌/◌, Bool, true, false, not, ◌&&◌, ◌||◌, List, [], ◌∷◌, ◌++◌, take,
  Option, none, some, ltb, ◌==◌, if◌then◌else◌, ℤ, pos, negsuc, ◌+ℤ◌, ◌-ℤ◌, ltb_ℤ, dist_ℤ,
}

-- MIN_RESTRICT_ANGLE and MAX_RESTRICT_ANGLE; a half and a full turn.
abbrev pub min_restrict : ℕ
min_restrict = 29000000

abbrev pub max_restrict : ℕ
max_restrict = 360000000

abbrev pub half_turn : ℕ
half_turn = 648000000

abbrev pub full_turn : ℕ
full_turn = 1296000000

abbrev pub in_restricted : ℤ → Bool
in_restricted a = ltb_ℤ (pos min_restrict) a && ltb_ℤ a (pos max_restrict)

-- `(int)(angle * steps_per_second)`
abbrev pub minus_ℤ : ℕ → ℤ
minus_ℤ zero = pos 0
minus_ℤ (suc n) = negsuc n

unfoldable pub to_steps : ℤ → ℤ
to_steps (pos n) = pos (n * 2054 / 1000000)
to_steps (negsuc n) = minus_ℤ (suc n * 2054 / 1000000)

-- The preferred rotation, from the difference of the target and the position.
unfoldable pub preferred : ℤ → ℤ
preferred angle =
    let upward = if ltb_ℤ angle (pos 0) then angle +ℤ pos full_turn else angle in
    if ltb_ℤ (pos half_turn) upward then upward -ℤ pos full_turn else upward

-- What `move_P2` does: nothing, an end of the program with a code, or the command "G" with a number
-- of steps.
pub data P2Turn : Type 0 where
  no_turn : P2Turn
  quit_code : ℤ → P2Turn
  go_steps : ℤ → P2Turn

-- `targP`
abbrev pub target_of : Bool → ℤ → ℤ → ℤ
target_of rel angle cur_p = if rel then cur_p +ℤ angle else angle

unfoldable pub move_p2 : Bool → ℤ → ℤ → P2Turn
move_p2 rel angle cur_p =
    let targ_p = target_of rel angle cur_p in
    if ltb (dist_ℤ angle (pos 0)) 1000
    then no_turn
    else (if in_restricted cur_p
        then quit_code (negsuc 0)
        else (if in_restricted targ_p
            then quit_code (negsuc 9)
            else go_steps (to_steps (preferred (targ_p -ℤ cur_p)))))

-- `moving_thread`: to a position, or by an angle.
unfoldable pub moving_thread : ℤ → ℤ → ℤ → P2Turn
moving_thread gotopos relmove cur_p =
    if ltb_ℤ (pos 0) gotopos
    then move_p2 false gotopos cur_p
    else (if ltb 1000 (dist_ℤ relmove (pos 0)) then move_p2 true relmove cur_p else no_turn)

-- `get_angle` (cmdlnopts.c), for what `myatod` and the two `sscanf` read.
abbrev pub scaled : ℕ → ℤ → ℤ
scaled k (pos n) = pos (k * n)
scaled k (negsuc n) = minus_ℤ (k * suc n)

abbrev signed : Bool → ℤ → ℤ
signed minus a = if minus then pos 0 -ℤ a else a

abbrev in_bounds : ℤ → ℤ → ℤ → Bool
in_bounds low high a = ltb_ℤ low a && ltb_ℤ a high

unfoldable pub dms : ℤ → ℤ → ℤ → Option ℤ
dms d m a =
    let minus = ltb_ℤ d (pos 0) in
    if in_bounds (negsuc 360) (pos 361) d
      && (in_bounds (negsuc 0) (pos 60) m && in_bounds (negsuc 99) (pos 60000) a)
    then some (signed minus a +ℤ signed minus (scaled 60000 m) +ℤ scaled 3600000 d)
    else none

unfoldable pub minutes_seconds : ℤ → ℤ → Option ℤ
minutes_seconds m a =
    if in_bounds (negsuc 59) (pos 60) m && in_bounds (negsuc 99) (pos 60000) a
    then some (signed (ltb_ℤ m (pos 0)) a +ℤ scaled 60000 m)
    else none

unfoldable pub get_angle : Option ℤ → Option (ℤ × ℤ × ℤ) → Option (ℤ × ℤ) → Option ℤ
get_angle (some a) three two = some a
get_angle none (some (d, m, a)) two = dms d m a
get_angle none none (some (m, a)) = minutes_seconds m a
get_angle none none none = none

-- What a round of `main` meets: `select` finds nothing to read, only a key, a line that is gone, or
-- bytes (at least one).
pub data TtyPoll : Type 0 where
  nothing key_only gone : TtyPoll
  got_bytes : List ℕ → TtyPoll

pub record ClientRound : Type 0 where
  pub t : ℕ
  pub val_p : ℤ
  pub poll : TtyPoll
  pub shm_ok : Bool

-- What the client prints: a position, and the bytes that it hands to printf as a text.
pub data Shown : Type 0 where
  p2_value : ℤ → Shown
  got_text : List ℕ → Shown

pub record ClientVars : Type 0 where
  pub is_running : Bool
  pub t0 : ℕ
  pub p_old : ℤ

-- The macro `fabs(x)` with the argument `val_P - p_old`: ((x > 0.) ? x : -val_P - p_old).
abbrev pub fabs_macro : ℤ → ℤ → ℤ
fabs_macro val_p p_old =
    if ltb_ℤ (pos 0) (val_p -ℤ p_old) then val_p -ℤ p_old else pos 0 -ℤ val_p -ℤ p_old

-- The look at the position, once in a second.
unfoldable pub check_p2 : ClientRound → ClientVars → ClientVars × List Shown
check_p2 r v =
    if ltb (v.t0 + 1000) r.t
    then (if ltb_ℤ (pos 100) (fabs_macro r.val_p v.p_old)
        then (record v { t0 = r.t; p_old = r.val_p }, p2_value r.val_p ∷ [])
        else (record v { t0 = r.t }, []))
    else (v, [])

-- strncmp(buff, "Stop", 4) == 0
abbrev pub stop_word : List ℕ
stop_word = 83 ∷ 116 ∷ 111 ∷ 112 ∷ []

abbrev pub starts_with : List ℕ → List ℕ → Bool
starts_with [] text = true
starts_with (c ∷ word) [] = false
starts_with (c ∷ word) (d ∷ text) = (c == d) && starts_with word text

-- `read_tty` and what `main` does with the bytes; none where `read_tty` ends the program.
unfoldable pub take_bytes : TtyPoll → ClientVars → Option (ClientVars × List Shown)
take_bytes nothing v = some (v, [])
take_bytes key_only v = some (v, [])
take_bytes gone v = none
take_bytes (got_bytes buff) v =
    some (
      if starts_with stop_word buff then record v { is_running = false } else v,
      got_text buff ∷ [],
    )

-- A round of the loop: what is printed, and the state or the code of the end.
pub data RoundEnd : Type 0 where
  goes_on : ClientVars → RoundEnd
  quits : ℤ → RoundEnd

abbrev pub after_bytes :
    Bool → List Shown → Option (ClientVars × List Shown) → List Shown × RoundEnd
after_bytes ok shown none = (shown, quits (pos 1))
after_bytes ok shown (some (v, more)) = (shown ++ more, if ok then goes_on v else quits (negsuc 1))

unfoldable pub client_round : ClientRound → ClientVars → List Shown × RoundEnd
client_round r v =
    let checked = check_p2 r v in after_bytes r.shm_ok checked.1 (take_bytes r.poll checked.0)

-- The rounds of `main`; the code is none where the loop still runs after them.
abbrev pub then_rounds :
    (ClientVars → List Shown × Option ℤ) → List Shown × RoundEnd → List Shown × Option ℤ
then_rounds rest (shown, goes_on v) = (let later = rest v in (shown ++ later.0, later.1))
then_rounds rest (shown, quits code) = (shown, some code)

unfoldable pub client_main : List ClientRound → ClientVars → List Shown × Option ℤ
client_main [] v = ([], if v.is_running then none else some (pos 0))
client_main (r ∷ rs) v =
    let rest = client_main rs in
    if v.is_running then then_rounds rest (client_round r v) else ([], some (pos 0))
