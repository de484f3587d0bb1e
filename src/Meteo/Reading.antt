-- ===== src/Meteo/Reading.antt =====
-- BTA_modbusmeteo/bta_meteo_modbus.c: what a reading does to the weather.
use bta_utils.Prelude.{
  false, ◌&&◌, if◌then◌else◌, ℕ, suc, ◌+◌, ◌*◌, ◌≡◌, refl, Bool, true, Option, none, some, List, [],
  ◌∷◌, ◌++◌, ℤ, ◌⊎◌, inl, inr, ◌∙◌,
}
use bta_utils.Meteo.{
  input, sensor, net, same_par, Par, Weather, register, store_par, ParamsAns, ans_ok, Poll, got,
  timeout, int16, take_packets, Round, returns, goes_on, packet_round, meteo_round, meteo_loop,
  check_meteo_params, crc_check,
}

loop-goes_on :
    (gotsegm : Bool) (poll : Poll) (polls : List Poll) (ctr ctr' : ℕ) (buf buf' : List ℕ) (l l' : ℕ)
    (w w' : Weather)
    → meteo_round gotsegm poll ctr buf l w ≡ goes_on ctr' buf' l' w'
    → meteo_loop gotsegm (poll ∷ polls) (suc ctr) buf l w ≡ meteo_loop gotsegm polls ctr' buf' l' w'
unfolding meteo_loop
loop-goes_on gotsegm poll polls ctr ctr' buf buf' l l' w w' e = rw (meteo_loop, e) refl

loop-returns :
    (gotsegm : Bool) (poll : Poll) (polls : List Poll) (ctr : ℕ) (buf : List ℕ) (l l' : ℕ)
    (w w' : Weather) (ans : ParamsAns)
    → meteo_round gotsegm poll ctr buf l w ≡ returns ans l' w'
    → meteo_loop gotsegm (poll ∷ polls) (suc ctr) buf l w ≡ some (ans, l', w')
unfolding meteo_loop
loop-returns gotsegm poll polls ctr buf l l' w w' ans e = rw (meteo_loop, e) refl

module _ (gotsegm : Bool) (a b c d e f g h : ℕ) where
  abbrev request : List ℕ
  request = a ∷ b ∷ c ∷ d ∷ e ∷ f ∷ g ∷ h ∷ []

  round-request :
      (ctr lastpar : ℕ) (w : Weather)
      → crc_check request ≡ true
      → meteo_round gotsegm timeout ctr request lastpar w ≡ goes_on ctr request (c * 256 + d) w
  unfolding meteo_round packet_round take_packets
  round-request ctr lastpar w ok = rw (packet_round, take_packets, ok) refl

  round-both :
      (r s t u v x y ctr lastpar : ℕ) (p : Par) (w : Weather)
      → let answer : List ℕ = r ∷ s ∷ t ∷ u ∷ v ∷ x ∷ y ∷ [] in
        crc_check request ≡ true
        → crc_check answer ≡ true
        → register (c * 256 + d) ≡ some (some p)
        → meteo_round gotsegm timeout ctr (request ++ answer) lastpar w
          ≡ returns ans_ok 0 (store_par gotsegm p (int16 u v) w)
  unfolding meteo_round packet_round take_packets
  round-both r s t u v x y ctr lastpar p w ok_request ok_answer reg =
      rw (packet_round, take_packets, ok_request, ok_answer, reg) refl

-- A request and its answer that come apart are taken together.
pub check_meteo_params-store_par :
    (gotsegm : Bool) (a b c d e f g h r s t u v x y lastpar : ℕ) (p : Par) (polls : List Poll)
    (w : Weather)
    → let request : List ℕ = a ∷ b ∷ c ∷ d ∷ e ∷ f ∷ g ∷ h ∷ [] in
      let answer : List ℕ = r ∷ s ∷ t ∷ u ∷ v ∷ x ∷ y ∷ [] in
      crc_check request ≡ true
      → crc_check answer ≡ true
      → register (c * 256 + d) ≡ some (some p)
      → check_meteo_params true gotsegm
          (got request ∷ timeout ∷ got answer ∷ timeout ∷ polls)
          lastpar
          w
        ≡ some (ans_ok, 0, store_par gotsegm p (int16 u v) w)
unfolding check_meteo_params meteo_round
check_meteo_params-store_par gotsegm a b c d e f g h r s t u v x y lastpar p polls w ok_request
      ok_answer reg =
    let request : List ℕ = a ∷ b ∷ c ∷ d ∷ e ∷ f ∷ g ∷ h ∷ [] in
    let answer : List ℕ = r ∷ s ∷ t ∷ u ∷ v ∷ x ∷ y ∷ [] in
    loop-goes_on gotsegm (got request) (timeout ∷ got answer ∷ timeout ∷ polls) 29 29 [] request
      lastpar lastpar w w refl
    ∙ loop-goes_on gotsegm timeout (got answer ∷ timeout ∷ polls) 28 28 request request lastpar
        (c * 256 + d) w w (round-request gotsegm a b c d e f g h 28 lastpar w ok_request)
    ∙ loop-goes_on gotsegm (got answer) (timeout ∷ polls) 27 27 request (request ++ answer)
        (c * 256 + d) (c * 256 + d) w w refl
    ∙ loop-returns gotsegm timeout polls 26 (request ++ answer) (c * 256 + d) 0 w
        (store_par gotsegm p (int16 u v) w) ans_ok
        (round-both gotsegm a b c d e f g h r s t u v x y 26 (c * 256 + d) p w ok_request ok_answer
          reg)

-- What a reading makes of the weather: where it is taken, the value and its flags of the sensor and of
-- the net are those of a reading, and all else stays; where it is not, all stays.
pub record IsUpdated (taken : Bool) (p : Par) (v : ℤ) (w w' : Weather) : Type 0 where
  pub values : (q : Par) → w'.val q ≡ (if taken && same_par q p then v else w.val q)
  pub of_sensor :
      (q : Par) → w'.mode sensor q ≡ (if taken && same_par q p then true else w.mode sensor q)
  pub of_net : (q : Par) → w'.mode net q ≡ (if taken && same_par q p then false else w.mode net q)
  pub by_hand : (q : Par) → w'.mode input q ≡ w.mode input q

-- What one call does to the weather: nothing, or one reading is stored.
abbrev pub OneReading : Bool → Weather → Weather → Type 0
OneReading gotsegm w w' = (w' ≡ w) ⊎ ((p : Par) × (v : ℤ) × (w' ≡ store_par gotsegm p v w))

-- A round goes on with the same weather, or returns with one reading at most.
abbrev pub IsRound : Bool → Weather → Round → Type 0
IsRound gotsegm w (goes_on ctr buf l w') = w' ≡ w
IsRound gotsegm w (returns ans l w') = OneReading gotsegm w w'

pub packet_round-IsRound :
    (gotsegm : Bool) (ctr l : ℕ) (buf : List ℕ) (w : Weather)
    → IsRound gotsegm w (packet_round gotsegm ctr buf l w)
unfolding packet_round
packet_round-IsRound gotsegm ctr l buf w = by_packets (take_packets l buf)
  where
    by_register :
        (asked : ℕ) (v : ℤ) (r : Option (Option Par))
        → IsRound gotsegm w (elim r [
          | none ↦ goes_on 30 [] 0 w
          | some none ↦ returns ans_ok 0 w
          | some (some p) ↦ returns ans_ok 0 (store_par gotsegm p v w)
        ])
    by_register asked v none = refl
    by_register asked v (some none) = inl refl
    by_register asked v (some (some p)) = inr (p, v, refl)

    by_packets :
        (o : Option (ℕ × Option ℤ))
        → IsRound gotsegm w (elim o [
          | none ↦ goes_on ctr buf 0 w
          | some (asked, none) ↦ goes_on ctr buf asked w
          | some (asked, some v) ↦ elim (register asked) [
            | none ↦ goes_on 30 [] 0 w
            | some none ↦ returns ans_ok 0 w
            | some (some p) ↦ returns ans_ok 0 (store_par gotsegm p v w)
          ]
        ])
    by_packets none = refl
    by_packets (some (asked, none)) = refl
    by_packets (some (asked, some v)) = by_register asked v (register asked)
