-- ===== src/Daemon.antt =====
-- daemon.c: the name of a process, as a daemon reads it to find one of its own name. The file
-- /proc/PID/cmdline is the list of its bytes.
mod Name
mod Tests
use bta_utils.Prelude.{
  ℕ, zero, suc, ◌+◌, Bool, true, false, not, ◌&&◌, Option, none, some, List, [], ◌∷◌, ltb, ◌==◌,
  set, length, str_eq, if◌then◌else◌,
}

-- The loop of `readname`: the static `name`, the index of `pp` in it and `cntr`. It gives the buffer
-- and `cntr`.
unfoldable pub read_loop : List ℕ → List ℕ → ℕ → ℕ → List ℕ × ℕ
read_loop [] name pp cntr = (name, cntr)
read_loop (byte ∷ file) name pp cntr =
    let slash = byte == 47 in
    let name' = if slash then name else set name pp byte in
    let pp' = if slash then 0 else pp + 1 in
    let cntr' = if slash then 0 else cntr in
    let rest = read_loop file name' pp' (cntr' + 1) in
    if byte == 0 then (name', cntr') else (if ltb cntr' 255 then rest else (name', cntr' + 1))

-- `name[cntr] = 0`, none where that is behind the buffer.
unfoldable pub close_name : List ℕ × ℕ → Option (List ℕ)
close_name (name, cntr) = if ltb cntr (length name) then some (set name cntr 0) else none

-- `readname` of a file that can be read.
unfoldable pub readname : List ℕ → List ℕ → Option (List ℕ)
readname file name = close_name (read_loop file name 0 0)
