-- ===== src/Stellarium/Tests.antt =====
-- A run of the server for Stellarium, and its theorem at a concrete input.
use bta_utils.Prelude.{
  ℕ, zero, suc, ◌≤◌, ◌<◌, ◌≡◌, refl, true, false, [], ◌∷◌, ℤ, pos, negsuc, eqb_ℤ, arith, replicate,
  ◌&&◌,
}
use bta_utils.Stellarium.{Sky, sends, set_ra_dec, comes, Visit, packet_of, handle_socket}
use bta_utils.Stellarium.Goto.{goto_packet, handle_socket-goto}

-- Angles in units of the protocol.
abbrev flat_sky : Sky
flat_sky = record {
  Angle = ℤ;
  eqb = eqb_ℤ;
  ra2hrs = pos;
  dec2deg = λ d. d;
  hrs2ra = λ a. elim a [ pos n ↦ n | negsuc n ↦ 0 ];
  deg2dec = λ a. a;
  calc_ap = λ r d. (r, d);
  calc_mean = λ r d. (r, d);
}

-- The system shows the new place at the second time it is read.
abbrev system : ℕ → ℤ × ℤ
system zero = (pos 0, pos 0)
system (suc n) = (pos 1_000_000, negsuc 4)

abbrev asks : Visit flat_sky
asks = record {
  val_alp = pos 7;
  val_del = pos 8;
  is_written = true;
  client = comes (goto_packet 1 2 3 4 5 6 7 8 1_000_000 (negsuc 4));
  memory = system;
}

hidden :
    (j : ℕ) → j < 1 → (eqb_ℤ (system j).0 (pos 1_000_000) && eqb_ℤ (system j).1 (negsuc 4)) ≡ false
hidden zero h = refl
hidden (suc j) h = absurd (omega arith)

shown :
    (j : ℕ) → 1 ≤ j → (eqb_ℤ (system j).0 (pos 1_000_000) && eqb_ℤ (system j).1 (negsuc 4)) ≡ true
shown zero h = absurd (omega arith)
shown (suc j) h = refl

handle_socket-goto_example :
    handle_socket flat_sky (replicate 8 0) (asks ∷ []) (negsuc 0)
    ≡ sends (packet_of flat_sky (replicate 8 0) asks (negsuc 0))
      ∷ set_ra_dec (pos 1_000_000) (negsuc 4)
      ∷ handle_socket flat_sky (replicate 8 0) [] (pos 0)
handle_socket-goto_example =
    handle_socket-goto flat_sky 1 2 3 4 5 6 7 8 1_000_000 1 (negsuc 4) (negsuc 0) (replicate 8 0)
      asks [] (omega arith) (omega arith) refl refl (omega arith) (hidden, shown)
