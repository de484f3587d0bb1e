-- ===== src/Stellarium/Goto.antt =====
-- Stellarium_control/main.c: a client sends the telescope to a place.
use bta_utils.Prelude.{
  ℕ, zero, suc, ◌+◌, ◌^◌, ◌≤◌, ◌<◌, ◌≡◌, ap, ◌∙◌, true, false, not, Bool-cases, ltb, ltb→lt, inl,
  inr, List, [], ◌∷◌, ◌++◌, if◌then◌else◌, ℤ, pos, negsuc, to_u32, bytes_of_u32, u32_of_bytes-bytes,
  arith,
}
use bta_utils.Stellarium.{
  Sky, to_i32, sends, set_ra_dec, matches, wait_input, set_coords, proc_data, comes, Visit,
  packet_of, serve, word_of_data, handle_socket,
}

-- The packet of a client: its time, 8 bytes, and the two coordinates.
abbrev pub goto_packet : ℕ → ℕ → ℕ → ℕ → ℕ → ℕ → ℕ → ℕ → ℕ → ℤ → List ℕ
goto_packet a b c d e f g h ra dec =
    20 ∷ 0 ∷ 0 ∷ 0 ∷ a ∷ b ∷ c ∷ d ∷ e ∷ f ∷ g ∷ h ∷ (bytes_of_u32 ra ++ bytes_of_u32 (to_u32 dec))

-- The range of an `int32_t`.
abbrev pub IsI32 : ℤ → Type 0
IsI32 (pos n) = n < 2 ^ 31
IsI32 (negsuc n) = n < 2 ^ 31

to_i32-to_u32 : (v : ℤ) → IsI32 v → to_i32 (to_u32 v) ≡ v
to_i32-to_u32 (pos n) h = ground arith
to_i32-to_u32 (negsuc n) h = ground arith

to_u32-bound : (v : ℤ) → to_u32 v < 2 ^ 32
to_u32-bound (pos n) = omega arith
to_u32-bound (negsuc n) = omega arith

module _ (sky : Sky) where
  open sky use {Angle, ra2hrs, dec2deg, calc_ap}

  -- The memory shows the coordinates first at the k-th time at which it is read, and then always.
  abbrev pub ShownFrom : ℕ → (ℕ → Angle × Angle) → Angle × Angle → Type 0
  ShownFrom k memory rd =
      ((j : ℕ) → j < k → matches sky rd (memory j) ≡ false)
      × ((j : ℕ) → k ≤ j → matches sky rd (memory j) ≡ true)

  le_antisym : (i k : ℕ) → i ≤ k → ltb i k ≡ false → i ≡ k
  le_antisym i k h e = ground arith

  wait_input-settles :
      (n i k : ℕ) (memory : ℕ → Angle × Angle) (rd : Angle × Angle)
      → i ≤ k
      → k ≤ i + n
      → ((j : ℕ) → j < k → matches sky rd (memory j) ≡ false)
      → ((j : ℕ) → k ≤ j → matches sky rd (memory j) ≡ true)
      → wait_input sky n memory rd i ≡ true
  unfolding wait_input
  wait_input-settles zero i k memory rd hi hk hidden shown = shown i (omega arith)
  wait_input-settles (suc n) i k memory rd hi hk hidden shown = elim (Bool-cases (ltb i k)) [
    | inl early ↦ rw (hidden i (ltb→lt i k early)) (
        wait_input-settles n (i + 1) k memory rd (omega (arith, ltb→lt i k early)) (omega arith)
          hidden shown)
    | inr now ↦
        let here : i ≡ k = le_antisym i k hi now in
        rw (shown i (omega arith)) (shown (i + 1) (omega arith))
  ]

  proc_data-goto :
      (a b c d e f g h ra k : ℕ) (dec : ℤ) (memory : ℕ → Angle × Angle)
      → ra < 2 ^ 32
      → IsI32 dec
      → k ≤ 10
      → ShownFrom k memory (calc_ap (ra2hrs ra) (dec2deg dec))
      → let place = calc_ap (ra2hrs ra) (dec2deg dec) in
        proc_data sky (goto_packet a b c d e f g h ra dec) memory
        ≡ (set_ra_dec place.0 place.1 ∷ [], true)
  unfolding proc_data set_coords
  proc_data-goto a b c d e f g h ra k dec memory hra hdec hk (hidden, shown) =
      let ra_read = u32_of_bytes-bytes ra hra in
      let dec_read =
        ap to_i32 (u32_of_bytes-bytes (to_u32 dec) (to_u32-bound dec)) ∙ to_i32-to_u32 dec hdec in
      let settled =
        wait_input-settles 10 0 k memory (calc_ap (ra2hrs ra) (dec2deg dec)) (omega arith)
          (omega arith) hidden shown in
      ap
        (λ x.
          let set =
            set_coords sky (ra2hrs x)
              (dec2deg (to_i32 (word_of_data 16 (goto_packet a b c d e f g h ra dec)))) memory in
          (set.0 ∷ [], set.1))
        ra_read
      ∙ ap (λ y. let set = set_coords sky (ra2hrs ra) (dec2deg y) memory in (set.0 ∷ [], set.1))
          dec_read
      ∙ ap
          (λ t. (
            set_ra_dec (calc_ap (ra2hrs ra) (dec2deg dec)).0 (calc_ap (ra2hrs ra) (dec2deg dec)).1
                ∷ [],
            t,
          ))
          settled

  -- A client that asks for a place in a packet of its protocol sends the telescope there: the command of
  -- the control system has the apparent place of the coordinates in the packet; and where the system shows
  -- the place after at most 10 waits, as it stays, the next packet's status is 0.
  pub handle_socket-goto :
      (a b c d e f g h ra k : ℕ) (dec status : ℤ) (time : List ℕ) (v : Visit sky)
      (vs : List (Visit sky))
      → ra < 2 ^ 32
      → IsI32 dec
      → v.is_written ≡ true
      → v.client ≡ comes (goto_packet a b c d e f g h ra dec)
      → k ≤ 10
      → let place = calc_ap (ra2hrs ra) (dec2deg dec) in
        ShownFrom k v.memory place
        → handle_socket sky time (v ∷ vs) status
          ≡ sends (packet_of sky time v status)
            ∷ set_ra_dec place.0 place.1
            ∷ handle_socket sky time vs (pos 0)
  unfolding handle_socket
  handle_socket-goto a b c d e f g h ra k dec status time v vs hra hdec written asks hk shown =
      let again = handle_socket sky time vs status in
      let taken = handle_socket sky time vs (pos 0) in
      let refused = handle_socket sky time vs (negsuc 0) in
      let first = sends (packet_of sky time v status) in
      ap (λ w. if not w then [] else first ∷ serve sky v.client v.memory again taken refused)
        written
      ∙ ap (λ cl. first ∷ serve sky cl v.memory again taken refused) asks
      ∙ ap (λ r. first ∷ (r.0 ++ (if r.1 then taken else refused)))
          (proc_data-goto a b c d e f g h ra k dec v.memory hra hdec hk shown)
