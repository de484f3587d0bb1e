-- ===== src/Daemon/Tests.antt =====
-- Runs of the reading of a process's name, and its theorem at a concrete input.
use bta_utils.Prelude.{ℕ, ◌≡◌, refl, none, some, List, [], ◌∷◌, replicate, arith, length-replicate}
use mathlib.Core.Option
use bta_utils.Daemon.{read_loop, close_name, readname}
use bta_utils.Daemon.Name.{
  IsName, name_end, name_byte, IsPath, path_end, path_part, c_string, readname_lem,
}

-- "/a/bd" and an argument.
abbrev command_line : List ℕ
command_line = 47 ∷ 97 ∷ 47 ∷ 98 ∷ 100 ∷ 0 ∷ 45 ∷ 0 ∷ []

reads_bd : Option.map c_string (readname command_line (replicate 256 0)) ≡ some (98 ∷ 100 ∷ [])
unfolding readname read_loop close_name
reads_bd = refl

-- Without an end the byte behind the name is the one that the buffer held.
keeps_old_byte :
    Option.map c_string (readname (47 ∷ 98 ∷ []) (120 ∷ 121 ∷ 122 ∷ 0 ∷ [])) ≡ some (98 ∷ 121 ∷ [])
unfolding readname read_loop close_name
keeps_old_byte = refl

-- A name of 256 bytes ends behind the buffer.
overflows : readname (replicate 256 120) (replicate 256 0) ≡ none
unfolding readname read_loop close_name
overflows = refl

-- "/a/"
abbrev dir : List ℕ
dir = 47 ∷ 97 ∷ 47 ∷ []

dir-IsPath : IsPath dir
dir-IsPath = path_part {l = []} {rest = 97 ∷ 47 ∷ []} name_end (omega arith) (
    path_part {l = 97 ∷ []} {rest = []}
      (name_byte (λ e. absurd (omega arith)) (λ e. absurd (omega arith)) name_end) (omega arith)
      path_end)

bd-IsName : IsName (98 ∷ 100 ∷ [])
bd-IsName =
    name_byte (λ e. absurd (omega arith)) (λ e. absurd (omega arith))
      (name_byte (λ e. absurd (omega arith)) (λ e. absurd (omega arith)) name_end)

readname_lem_example :
    (name : List ℕ) × (readname command_line (replicate 256 120) ≡ some name)
    × (c_string name ≡ 98 ∷ 100 ∷ [])
readname_lem_example =
    readname_lem (45 ∷ 0 ∷ []) (replicate 256 120) dir-IsPath bd-IsName (omega arith)
      (length-replicate {A = ℕ} 256 120)
