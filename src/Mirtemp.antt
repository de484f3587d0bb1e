-- ===== src/Mirtemp.antt =====
-- bta_mirtemp/main.c: the daemon that asks a server for the temperature of the mirror. What the server
-- answers, the times and whether the shared memory is found are arguments; so is strtod.
pub mod Silence
mod Tests
use bta_utils.Prelude.{
  ℕ, ◌+◌, ◌-◌, Bool, true, false, not, ◌&&◌, ◌||◌, Option, none, some, List, [], ◌∷◌, ◌==◌, ltb,
  length, take, if◌then◌else◌,
}

-- The flags of `MeteoMode` that this daemon reads and writes, and val_T3.
pub record Mirror (Temp : Type 0) : Type 0 where
  pub input_t3 : Bool
  pub sensor_t3 : Bool
  pub net_t3 : Bool
  pub net_hmd : Bool
  pub val_t3 : Temp

module _ (Temp : Type 0) where
  -- `clear_flags`; the flag that is cleared is NET_HMD.
  unfoldable pub clear_flags : Bool → Mirror Temp → Mirror Temp
  clear_flags gotsegm m =
      if not gotsegm
      then m
      else (if m.net_t3 then record m { net_hmd = false; sensor_t3 = false } else m)

  -- What the server does: the connection or `send` fails, `read` fails, or it gives bytes.
  pub data Reply : Type 0 where
    unreached read_fails : Reply
    answered : List ℕ → Reply

  -- A number at the front of a text, and what follows it.
  abbrev pub Strtod : Type 0
  Strtod = List ℕ → Temp × List ℕ

  abbrev pub read_number : List ℕ → Temp × List ℕ → Option Temp
  read_number buf (t, eptr) = if length eptr == length buf then none else some t

  -- `get_mirT`: the buffer has 64 bytes, the last of them for the end of the string.
  unfoldable pub get_mir_t : Strtod → Reply → Option Temp
  get_mir_t strtod unreached = none
  get_mir_t strtod read_fails = none
  get_mir_t strtod (answered bytes) = let buf = take 63 bytes in read_number buf (strtod buf)

  -- The variables of `main`, with the shared memory.
  pub record Daemon : Type 0 where
    pub gotsegm : Bool
    pub tlast : ℕ
    pub mirror : Mirror Temp

  -- What a pass meets: get_shm_block, the time at the test, the server, and the time at its end.
  pub record Pass : Type 0 where
    pub attaches : Bool
    pub now : ℕ
    pub reply : Reply
    pub later : ℕ

  -- 15 minutes without an answer.
  abbrev pub with_silence : Pass → Daemon → Daemon
  with_silence p d =
      if ltb 900 (p.now - d.tlast)
      then record d { tlast = p.now; mirror = clear_flags d.gotsegm d.mirror }
      else d

  -- A temperature that has come.
  abbrev pub with_temp : ℕ → Option Temp → Daemon → Daemon
  with_temp later none d = d
  with_temp later (some t) d = record d {
    tlast = later;
    mirror =
        if d.gotsegm && not d.mirror.input_t3
        then record d.mirror { val_t3 = t; sensor_t3 = true; net_t3 = true }
        else d.mirror;
  }

  unfoldable pub main_pass : Strtod → Pass → Daemon → Daemon
  main_pass strtod p d =
      let d' : Daemon = record d { gotsegm = d.gotsegm || p.attaches } in
      with_temp p.later (get_mir_t strtod p.reply) (with_silence p d')

  unfoldable pub main_loop : Strtod → List Pass → Daemon → Daemon
  main_loop strtod [] d = d
  main_loop strtod (p ∷ ps) d = main_loop strtod ps (main_pass strtod p d)

  -- `signals`: a signal that stops the process clears the flags, another changes nothing.
  unfoldable pub signals : Bool → Daemon → Bool × Daemon
  signals stops d =
      if stops then (true, record d { mirror = clear_flags d.gotsegm d.mirror }) else (false, d)
