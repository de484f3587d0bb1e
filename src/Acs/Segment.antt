-- ===== src/Acs/Segment.antt =====
-- bta_print_header/bta_shdata.c: the shared memory segment of the telescope's state. What the
-- System V calls return is an argument, and so is what the segment holds when it is attached.
use bta_utils.Prelude.{
  ℕ, ◌≡◌, refl, Bool, true, false, not, ◌&&◌, ◌==◌, if◌then◌else◌, ℤ, ltb, arith, ◌⊎◌, inl, inr,
  Bool-cases, ==_iff, List, [], ◌∷◌, ◌++◌, ◌||◌,
}
use bta_utils.Acs.{is_negative}

-- The fields of `struct BTA_Data` that `bta_data_init` writes (`inp_B` and `Pressure` are the bits of
-- the doubles, `rest` is all else that the segment holds).
pub record BtaData (Rest : Type 0) : Type 0 where
  pub magic : ℕ
  pub version : ℕ
  pub size : ℕ
  pub tel_hardware : ℕ
  pub pos_corr : ℕ
  pub trkok_mode : ℕ
  pub inp_b : ℕ
  pub pressure : ℕ
  pub pep_code_a : ℕ
  pub pep_code_z : ℕ
  pub pep_code_p : ℕ
  pub pep_code_f : ℕ
  pub pep_code_d : ℕ
  pub dome_sew_n : ℕ
  pub rest : Rest

-- `struct SHM_Block`; `side` is true for the server.
pub record ShmBlock : Type 0 where
  pub code : ℕ
  pub size : ℕ
  pub maxsize : ℕ
  pub side : Bool
  pub id : ℤ

-- What the system gives: `shmget` of the existing segment, whether it failed with ENOENT, `shmget`
-- that creates one of a size, whether `shmat` succeeds, and whether `shmctl(SHM_LOCK)` does.
pub record ShmGet : Type 0 where
  pub found : ℤ
  pub absent : Bool
  pub created : ℕ → ℤ
  pub attached : Bool
  pub locked : Bool

-- `BTA_Data_Ver`
abbrev pub bta_data_ver : ℕ
bta_data_ver = 2

-- `bta_data_check`
unfoldable pub bta_data_check : {R : Type 0} → ShmBlock → BtaData R → Bool
bta_data_check b d = d.magic == b.code && d.version == bta_data_ver

-- A block names the segment that holds the data: the magic value, the version and the size.
abbrev pub is_served : {R : Type 0} → ShmBlock → BtaData R → Bool
is_served b d = d.magic == b.code && d.version == bta_data_ver && d.size == b.size

-- The warnings of `bta_data_init` on the client's side.
pub data Warning : Type 0 where
  wrong_data null_version wrong_version larger_area smaller_area : Warning

unfoldable pub client_warnings : {R : Type 0} → ShmBlock → BtaData R → List Warning
client_warnings b d =
    (if d.magic == b.code then [] else wrong_data ∷ [])
    ++ (if d.version == 0
        then null_version ∷ []
        else (if d.version == bta_data_ver then [] else wrong_version ∷ []))
    ++ (if d.size == b.size
        then []
        else (if ltb b.size d.size then larger_area ∷ [] else smaller_area ∷ []))

-- `bta_data_init`: the segment after it, and the warnings. `blank` is the rest of a segment of zero
-- bytes; the doubles 591.0 and 595.0 are given by their bits.
unfoldable pub bta_data_init : {R : Type 0} → R → ShmBlock → BtaData R → BtaData R × List Warning
bta_data_init blank b d =
    if not b.side
    then (d, client_warnings b d)
    else (if is_served b d then (d, []) else (
      record {
        magic = b.code;
        version = bta_data_ver;
        size = b.size;
        tel_hardware = 1;
        pos_corr = 1;
        trkok_mode = 3;
        inp_b = 0x4082780000000000;
        pressure = 0x4082980000000000;
        pep_code_a = 0x002aaa;
        pep_code_z = 0x002aaa;
        pep_code_p = 0x002aaa;
        pep_code_f = 0x002aaa;
        pep_code_d = 0x002aaa;
        dome_sew_n = 1;
        rest = blank;
      },
      [],
    ))

-- `bta_data_close`
unfoldable pub bta_data_close : {R : Type 0} → ShmBlock → BtaData R → BtaData R
bta_data_close b d = if b.side then record d { magic = 0; version = 0 } else d

-- The identifier that `get_shm_block` gets: of the existing segment, or of a new one of a size not
-- under the data's.
unfoldable pub shm_id : ShmGet → Bool → ShmBlock → ℤ
shm_id sys server b =
    if is_negative sys.found && sys.absent && server
    then sys.created (if ltb b.maxsize b.size then b.size else b.maxsize)
    else sys.found

-- `get_shm_block` of `sdat`: the value returned, the block and the segment after it, the warnings.
unfoldable pub get_shm_block :
    {R : Type 0}
    → R
    → ShmGet
    → Bool
    → ShmBlock
    → BtaData R
    → Bool × ShmBlock × BtaData R × List Warning
get_shm_block blank sys server b d =
    let id = shm_id sys server b in
    if is_negative id || not sys.attached || (server && not sys.locked)
    then (false, record b { id = id }, d, [])
    else (let b' = record b { side = server; id = id } in
        let (d', warnings) = bta_data_init blank b' d in (true, b', d', warnings))

-- `close_shm_block` of `sdat`: the segment after it, and whether it is removed.
unfoldable pub close_shm_block : {R : Type 0} → ShmBlock → BtaData R → BtaData R × Bool
close_shm_block b d = (bta_data_close b d, b.side)

-- `check_shm_block` of `sdat`
abbrev pub check_shm_block : {R : Type 0} → ShmBlock → BtaData R → Bool
check_shm_block b d = bta_data_check b d

served-check :
    {R : Type 0} (b : ShmBlock) (d : BtaData R)
    → is_served b d ≡ true
    → (check_shm_block b d ≡ true) × (client_warnings b d ≡ [])
unfolding bta_data_check client_warnings
served-check b d e = ground arith

init-served :
    {R : Type 0} (blank : R) (b : ShmBlock) (d : BtaData R)
    → b.side ≡ true
    → let d' = (bta_data_init blank b d).0 in
      (is_served b d' ≡ true)
      × (((is_served b d ≡ true) × (d' ≡ d)) ⊎ ((is_served b d ≡ false) × (d'.rest ≡ blank)))
unfolding bta_data_init
init-served blank b d server = elim (Bool-cases (is_served b d)) [
  | inl served ↦ rw (server, served) (served, inl (refl, refl))
  | inr other ↦
      rw (server, other)
        (rw ((==_iff b.code b.code).1 refl, (==_iff b.size b.size).1 refl) refl, inr (refl, refl))
]

close-check :
    {R : Type 0} (b : ShmBlock) (d : BtaData R)
    → b.side ≡ true
    → check_shm_block b (close_shm_block b d).0 ≡ false
unfolding close_shm_block bta_data_close bta_data_check
close-check b d server = ground arith

-- A process can have the segment: it is found, or a server can create it, it can be attached and,
-- for a server, locked in memory.
abbrev pub CanAttach : ShmGet → Bool → ShmBlock → Type 0
CanAttach sys server b =
    (is_negative (shm_id sys server b) ≡ false)
    × (sys.attached ≡ true)
    × ((server && not sys.locked) ≡ false)

get_shm_block-attached :
    {R : Type 0} (blank : R) (sys : ShmGet) (server : Bool) (b : ShmBlock) (d : BtaData R)
    → CanAttach sys server b
    → let b' = record b { side = server; id = shm_id sys server b } in
      let (d', warnings) = bta_data_init blank b' d in
      get_shm_block blank sys server b d ≡ (true, b', d', warnings)
unfolding get_shm_block
get_shm_block-attached blank sys server b d (found, attached, locked) =
    rw (found, attached, locked) refl

get_shm_block-client :
    {R : Type 0} (blank : R) (sys : ShmGet) (b : ShmBlock) (d : BtaData R)
    → CanAttach sys false b
    → let b_c = record b { side = false; id = shm_id sys false b } in
      get_shm_block blank sys false b d ≡ (true, b_c, d, client_warnings b d)
unfolding bta_data_init client_warnings
get_shm_block-client blank sys b d can = rw (get_shm_block-attached blank sys false b d can) refl

-- A server that attaches the segment leaves a valid one: a valid segment as it is, any other with
-- the rest of it blank. A client of the same magic value and size that attaches it then gets it
-- unchanged and without a warning, and `check_shm_block` holds; the client's own close leaves it
-- valid, and the server's close makes the check fail.
pub segment_session :
    {R : Type 0} (blank : R) (sys client : ShmGet) (b : ShmBlock) (d : BtaData R)
    → CanAttach sys true b
    → CanAttach client false b
    → let (ret, b', d1, warnings) = get_shm_block blank sys true b d in
      let (ret_c, b_c, d2, warnings_c) = get_shm_block blank client false b d1 in
      (ret ≡ true)
      × (((is_served b d ≡ true) × (d1 ≡ d)) ⊎ ((is_served b d ≡ false) × (d1.rest ≡ blank)))
      × (ret_c ≡ true)
      × (d2 ≡ d1)
      × (warnings_c ≡ [])
      × (check_shm_block b_c d2 ≡ true)
      × (check_shm_block b_c (close_shm_block b_c d2).0 ≡ true)
      × (check_shm_block b_c (close_shm_block b' d2).0 ≡ false)
unfolding close_shm_block bta_data_check bta_data_close bta_data_init
segment_session blank sys client b d can can_c =
    let b' = record b { side = true; id = shm_id sys true b } in
    let b_c = record b { side = false; id = shm_id client false b } in
    let start = init-served blank b' d refl in
    let d1 = (bta_data_init blank b' d).0 in
    let ok = served-check b d1 start.0 in
    rw (get_shm_block-attached blank sys true b d can, get_shm_block-client blank client b d1 can_c)
      (refl, start.1, refl, refl, ok.1, ok.0, ok.0, close-check b' d1 refl)
