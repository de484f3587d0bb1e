-- ===== src/Stellarium.antt =====
-- Stellarium_control/main.c: the server that lets Stellarium show the telescope and send it to a place.
-- Angles are doubles, with the computations on them that the source uses, an interface.
pub mod Goto
mod Tests
use bta_utils.Prelude.{
  ℕ, zero, suc, ◌+◌, ◌-◌, ◌^◌, Bool, true, false, not, ◌&&◌, List, [], ◌∷◌, ◌++◌, length, ltb, ◌==◌,
  get_or, if◌then◌else◌, ℤ, pos, negsuc, to_u32, bytes_of_u32, u32_of_bytes,
}

-- The doubles: ==, the macros RA2HRS, DEC2DEG, HRS2RA and DEG2DEC, and the functions calc_AP and
-- calc_mean.
pub record Sky : Type 1 where
  pub Angle : Type 0
  pub eqb : Angle → Angle → Bool
  pub ra2hrs : ℕ → Angle
  pub dec2deg : ℤ → Angle
  pub hrs2ra : Angle → ℕ
  pub deg2dec : Angle → ℤ
  pub calc_ap : Angle → Angle → Angle × Angle
  pub calc_mean : Angle → Angle → Angle × Angle

-- `int32_t` of the bits of a word.
abbrev pub to_i32 : ℕ → ℤ
to_i32 w = if ltb w (2 ^ 31) then pos w else negsuc (2 ^ 32 - 1 - w)

-- The word of four bytes at an index.
abbrev pub word_of_data : ℕ → List ℕ → ℕ
word_of_data i data' =
    u32_of_bytes (get_or data' i 0) (get_or data' (i + 1) 0) (get_or data' (i + 2) 0)
      (get_or data' (i + 3) 0)

module _ (sky : Sky) where
  open sky use {Angle, eqb, ra2hrs, dec2deg, hrs2ra, deg2dec, calc_ap, calc_mean}

  -- What the server does: a packet to the client, and SetRADec.
  pub data Act : Type 0 where
    sends : List ℕ → Act
    set_ra_dec : Angle → Angle → Act

  -- InpAlpha and InpDelta are the two coordinates.
  abbrev pub matches : Angle × Angle → Angle × Angle → Bool
  matches (r, d) (inp_alpha, inp_delta) = eqb inp_alpha r && eqb inp_delta d

  -- The rounds of `setCoords` that wait for the system, and the test behind them; the memory is read
  -- anew each time.
  unfoldable pub wait_input : ℕ → (ℕ → Angle × Angle) → Angle × Angle → ℕ → Bool
  wait_input zero memory rd i = matches rd (memory i)
  wait_input (suc n) memory rd i =
      let rest = wait_input n memory rd (i + 1) in
      if matches rd (memory i) then matches rd (memory (i + 1)) else rest

  -- `setCoords`: the command and whether the system took it.
  unfoldable pub set_coords : Angle → Angle → (ℕ → Angle × Angle) → Act × Bool
  set_coords ra dec memory =
      let rd = calc_ap ra dec in (set_ra_dec rd.0 rd.1, wait_input 10 memory rd 0)

  -- `proc_data`: the acts, and the returned 1 or 0. `indata` has 20 bytes, the coordinates at 12 and 16.
  unfoldable pub proc_data : List ℕ → (ℕ → Angle × Angle) → List Act × Bool
  proc_data data' memory =
      if length data' == 20
      then (let set =
            set_coords (ra2hrs (word_of_data 12 data')) (dec2deg (to_i32 (word_of_data 16 data')))
              memory in
          (set.0 ∷ [], set.1))
      else ([], false)

  -- What a client does in a round: `select` fails or times out, `read` ends the connection, or bytes
  -- come.
  pub data ClientAct : Type 0 where
    select_fails times_out disconnects : ClientAct
    comes : List ℕ → ClientAct

  -- What a round meets: the coordinates of the telescope, whether the packet is written, the client,
  -- and the memory that `setCoords` reads.
  pub record Visit : Type 0 where
    pub val_alp : Angle
    pub val_del : Angle
    pub is_written : Bool
    pub client : ClientAct
    pub memory : ℕ → Angle × Angle

  -- `outdata`; the 8 bytes of `time`, which are never set, are an argument.
  abbrev pub out_packet : List ℕ → ℕ → ℤ → ℤ → List ℕ
  out_packet time ra dec status =
      24
      ∷ 0
      ∷ 0
      ∷ 0
      ∷ (time ++ (bytes_of_u32 ra ++ (bytes_of_u32 (to_u32 dec) ++ bytes_of_u32 (to_u32 status))))

  abbrev pub packet_of : List ℕ → Visit → ℤ → List ℕ
  packet_of time v status =
      let rd = calc_mean v.val_alp v.val_del in out_packet time (hrs2ra rd.0) (deg2dec rd.1) status

  -- The answer to what the client does: the acts, and those that follow where the status is as before,
  -- where it is 0, and where it is -1.
  abbrev pub serve : ClientAct → (ℕ → Angle × Angle) → List Act → List Act → List Act → List Act
  serve select_fails memory again taken refused = again
  serve times_out memory again taken refused = again
  serve disconnects memory again taken refused = []
  serve (comes data') memory again taken refused =
      let done = proc_data data' memory in done.0 ++ (if done.1 then taken else refused)

  -- `handle_socket` from a round on, with the status that its packet has.
  unfoldable pub handle_socket : List ℕ → List Visit → ℤ → List Act
  handle_socket time [] status = []
  handle_socket time (v ∷ vs) status =
      let again = handle_socket time vs status in
      let taken = handle_socket time vs (pos 0) in
      let refused = handle_socket time vs (negsuc 0) in
      if not v.is_written
      then []
      else sends (packet_of time v status) ∷ serve v.client v.memory again taken refused
