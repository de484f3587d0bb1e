-- ===== src/Meteo.antt =====
-- BTA_modbusmeteo/bta_meteo_modbus.c: the daemon that listens to the Modbus line of the weather
-- station and puts the readings into the shared memory. What `select` and `read` give is a list of
-- polls; a reading is kept in the tenths in which the station gives it.
-- The source compares the reading as a float, tenths divided by 10, and multiplied by 760/1013 for
-- the pressure; no 16-bit number of tenths is so near a bound that rounding matters, so the bounds
-- are compared here in whole numbers.
mod Crc
pub mod Reading
pub mod Kept
pub mod Main
mod Tests
unfoldable pub use Crc.*
use bta_utils.Prelude.{
  ℕ, zero, suc, ◌+◌, ◌-◌, ◌*◌, ◌/◌, ◌%◌, ◌^◌, Bool, true, false, not, ◌&&◌, ◌||◌, Option, none,
  some, List, [], ◌∷◌, ◌++◌, length, take, drop, get_or, ltb, leb, ◌==◌, if◌then◌else◌, ℤ, pos,
  negsuc,
}

-- The values of a weather state, and where one comes from: the flags of `MeteoMode`.
pub data Par : Type 0 where
  par_wnd par_t1 par_hmd par_b : Par

pub data Source : Type 0 where
  input sensor net : Source

abbrev pub same_par : Par → Par → Bool
same_par par_wnd par_wnd = true
same_par par_t1 par_t1 = true
same_par par_hmd par_hmd = true
same_par par_b par_b = true
same_par _ _ = false

abbrev pub same_source : Source → Source → Bool
same_source input input = true
same_source sensor sensor = true
same_source net net = true
same_source _ _ = false

-- `MeteoMode` by its bits, and val_Wnd, val_T1, val_Hmd and val_B.
pub record Weather : Type 0 where
  pub mode : Source → Par → Bool
  pub val : Par → ℤ

-- The registers of the station.
unfoldable pub register : ℕ → Option (Option Par)
register r =
    if r == 30001
    then some (some par_wnd)
    else (if r == 30401
        then some (some par_t1)
        else (if r == 30601
            then some (some par_hmd)
            else (if r == 30801
                then some (some par_b)
                else (if r == 30201 || r == 30701 then some none else none))))

-- The bounds of a value in tenths.
unfoldable pub in_range : Par → ℤ → Bool
in_range par_wnd (pos v) = ltb v 2000
in_range par_wnd (negsuc v) = false
in_range par_t1 (pos v) = ltb v 400
in_range par_t1 (negsuc v) = ltb (v + 1) 400
in_range par_hmd (pos v) = leb v 1000
in_range par_hmd (negsuc v) = false
in_range par_b (pos v) = ltb (500 * 10130) (v * 760) && ltb (v * 760) (700 * 10130)
in_range par_b (negsuc v) = false

-- A case of the `switch` over the registers; `gotsegm` tells whether there is a shared memory.
unfoldable pub store_par : Bool → Par → ℤ → Weather → Weather
store_par gotsegm p v w =
    if gotsegm && not (w.mode input p) && in_range p v
    then record {
      mode = λ s q.
          if same_par q p && same_source s net
          then false
          else (if same_par q p && same_source s sensor then true else w.mode s q);
      val = λ q. if same_par q p then v else w.val q;
    }
    else w

-- `params_ans`
pub data ParamsAns : Type 0 where
  ans_ok ans_lostconn ans_nodata : ParamsAns

-- What a round's `select` and `read` give: `select` fails, or by a signal only; it times out; `read`
-- fails, or gives bytes.
pub data Poll : Type 0 where
  select_fails interrupted timeout read_fails : Poll
  got : List ℕ → Poll

-- `int16_t val` of two bytes.
abbrev pub int16 : ℕ → ℕ → ℤ
int16 hi lo = let w = hi * 256 + lo in if ltb w (2 ^ 15) then pos w else negsuc (2 ^ 16 - 1 - w)

-- The packets that the buffer holds: a request, an answer, or both. The register asked for and,
-- with an answer, the value; none where a check sum is bad.
unfoldable pub take_packets : ℕ → List ℕ → Option (ℕ × Option ℤ)
take_packets lastpar buf =
    let size = length buf in
    let asked = get_or buf 2 0 * 256 + get_or buf 3 0 in
    if size == 8
    then (if crc_check buf then some (asked, none) else none)
    else (if size == 7
        then (if crc_check buf
            then some (lastpar, some (int16 (get_or buf 3 0) (get_or buf 4 0)))
            else none)
        else (if crc_check (take 8 buf) && crc_check (drop 8 buf)
            then some (asked, some (int16 (get_or buf 11 0) (get_or buf 12 0)))
            else none))

-- A round's outcome: the function returns, or goes on with the rounds left, the buffer and the
-- register asked for last.
pub data Round : Type 0 where
  returns : ParamsAns → ℕ → Weather → Round
  goes_on : ℕ → List ℕ → ℕ → Weather → Round

unfoldable pub packet_round : Bool → ℕ → List ℕ → ℕ → Weather → Round
packet_round gotsegm ctr buf lastpar w = elim (take_packets lastpar buf) [
  | none ↦ goes_on ctr buf 0 w
  | some (asked, none) ↦ goes_on ctr buf asked w
  | some (asked, some v) ↦ elim (register asked) [
    | none ↦ goes_on 30 [] 0 w
    | some none ↦ returns ans_ok 0 w
    | some (some p) ↦ returns ans_ok 0 (store_par gotsegm p v w)
  ]
]

-- A round of `while(ctr--)`, for the rounds left behind it.
unfoldable pub meteo_round : Bool → Poll → ℕ → List ℕ → ℕ → Weather → Round
meteo_round gotsegm select_fails ctr buf lastpar w = returns ans_lostconn lastpar w
meteo_round gotsegm read_fails ctr buf lastpar w = returns ans_lostconn lastpar w
meteo_round gotsegm (got bytes) ctr buf lastpar w =
    goes_on ctr (buf ++ take (300 - length buf) bytes) lastpar w
meteo_round gotsegm interrupted ctr buf lastpar w =
    if length buf == 0 then returns ans_nodata lastpar w else goes_on ctr buf lastpar w
meteo_round gotsegm timeout ctr buf lastpar w =
    let size = length buf in
    if size == 0
    then returns ans_nodata lastpar w
    else (if size == 8 || size == 7 || size == 15
        then packet_round gotsegm ctr buf lastpar w
        else goes_on ctr buf lastpar w)

-- The loop of `check_meteo_params`: the answer, `lastpar` and the weather; none where the polls
-- end first.
unfoldable pub meteo_loop :
    Bool → List Poll → ℕ → List ℕ → ℕ → Weather → Option (ParamsAns × ℕ × Weather)
meteo_loop gotsegm polls zero buf lastpar w = some (ans_nodata, lastpar, w)
meteo_loop gotsegm [] (suc ctr) buf lastpar w = none
meteo_loop gotsegm (poll ∷ polls) (suc ctr) buf lastpar w =
    elim (meteo_round gotsegm poll ctr buf lastpar w) [
      | returns ans lastpar' w' ↦ some (ans, lastpar', w')
      | goes_on ctr' buf' lastpar' w' ↦ meteo_loop gotsegm polls ctr' buf' lastpar' w'
    ]

-- `check_meteo_params` with `portfd >= 0` or not.
unfoldable pub check_meteo_params :
    Bool → Bool → List Poll → ℕ → Weather → Option (ParamsAns × ℕ × Weather)
check_meteo_params connected gotsegm polls lastpar w =
    if not connected
    then some (ans_lostconn, lastpar, w)
    else meteo_loop gotsegm polls 30 [] lastpar w
