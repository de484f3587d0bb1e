-- ===== src/Net/Data.antt =====
-- bta_control_net-x86_64/bta_control_net/bta_control_net.c: the packets of the shared memory. A `time_t`
-- is the number that `time(NULL)` gives, and `own_size` is both `sdat.size` and the size of
-- `struct BTA_Data`.
use bta_utils.Prelude.{
  ℕ, ◌+◌, ◌-◌, ◌%◌, ◌/◌, ◌^◌, ◌<◌, ◌≡◌, refl, Bool, true, false, not, ◌&&◌, ◌||◌, Option, none,
  some, List, [], ◌∷◌, ◌++◌, length, take, drop, ◌==◌, arith, append_assoc, ap, ◌∙◌, ℤ, pos, negsuc,
  u32_of_bytes-bytes, ltb, bytes_of_u32, if◌then◌else◌, lt→ltb, ==_iff,
}
use bta_utils.Net.Frame.{
  check_sum, with_check_sum, check_sum_ok, take_front, length-packet, check_sum_ok-with_check_sum,
}
use bta_utils.Net.{u32_at, put_u32}

-- The server's packet: the memory with its size in the header's third word.
unfoldable pub data_packet : ℕ → List ℕ → List ℕ
data_packet size mem = with_check_sum (put_u32 8 size (take size mem))

-- The client's block: key, size and the maximal size.
pub record Sdat : Type 0 where
  pub code : ℕ
  pub own_size : ℕ
  pub maxsize : ℕ

-- The static `last_err` and `err_type`.
pub record ErrState : Type 0 where
  pub last_err : ℕ
  pub err_type : ℕ

-- An `int32_t` read from memory.
abbrev i32 : ℕ → ℤ
i32 w = if ltb w (2 ^ 31) then pos w else negsuc (2 ^ 32 - 1 - w)

abbrev above : ℤ → ℕ → Bool
above (pos n) k = ltb k n
above (negsuc n) k = false

-- An error of a kind: it is reported where the last report is older than `gap` or of another kind.
unfoldable pub error : ℕ → ℕ → ℕ → ErrState → ErrState × Bool
error gap kind currt e =
    let report = ltb gap (currt - e.last_err) || not (e.err_type == kind) in
    (record { last_err = if report then currt else e.last_err; err_type = kind }, report)

-- The errors of a packet's header and check sum: the state after it, and whether it is reported. The
-- arguments are the header's words and the receiver's test of the check sum.
unfoldable pub check_data : Sdat → ℕ → ℕ → ℕ → ℕ → Bool → ErrState → ErrState × Bool
check_data b currt magic version size ok e =
    if not (magic == b.code)
    then error 60 1 currt e
    else (if version == 0
        then error 60 2 currt e
        else (if not (size == b.own_size)
            then error
                (if above (i32 size) b.own_size && above (pos b.maxsize) size then 3600 else 60) 3
                currt e
            else (if not (version == 2)
                then error 600 4 currt e
                else (if not ok then error 60 5 currt e else (record e { err_type = 0 }, false)))))

-- `memcpy` of a size into the memory; a negative size is past all memory.
abbrev copy : ℤ → List ℕ → List ℕ → Option (List ℕ)
copy (pos n) buff mem = some (take n buff ++ drop n mem)
copy (negsuc n) buff mem = none

-- The client's handling of `rll` bytes: the errors, whether one is reported, and the memory after it.
-- `ServPID`, the header's fourth word, is first set to the client's process.
unfoldable pub receive_data :
    Sdat → ℕ → ℕ → ℕ → List ℕ → ErrState → List ℕ → ErrState × Bool × Option (List ℕ)
receive_data b pid currt rll buff e mem =
    if not (ltb 2 rll)
    then (e, false, some mem)
    else (let (e', report) =
          check_data b currt (u32_at buff 0) (u32_at buff 4) (u32_at buff 8) (check_sum_ok rll buff)
            e in
        let mem' = put_u32 12 pid mem in
        let size = i32 (u32_at buff 8) in
        let size' = if e'.err_type == 3 && above size b.maxsize then pos b.maxsize else size in
        (
          e',
          report,
          if e'.err_type == 0 || e'.err_type == 3 then copy size' buff mem' else some mem',
        ))

-- The memory that a server sends: the key, the version 2, a word for the size, and the rest.
abbrev pub memory_of : ℕ → ℕ → List ℕ → List ℕ
memory_of code w rest = bytes_of_u32 code ++ bytes_of_u32 2 ++ bytes_of_u32 w ++ rest

data_packet-memory :
    (code w n : ℕ) (payload beyond : List ℕ)
    → n ≡ 12 + length payload
    → data_packet n (memory_of code w (payload ++ beyond))
      ≡ with_check_sum (memory_of code n payload)
unfolding data_packet
data_packet-memory code w n payload beyond h =
    rw (take_front (memory_of code w payload) beyond n (omega arith)) refl

check_data-good :
    (b : Sdat) (currt : ℕ) (e : ErrState)
    → check_data b currt b.code 2 b.own_size true e ≡ (record e { err_type = 0 }, false)
unfolding check_data
check_data-good b currt e =
    rw ((==_iff b.code b.code).1 refl, (==_iff b.own_size b.own_size).1 refl) refl

-- A packet in the buffer of which the header is right.
pub record IsOurs (b : Sdat) (rll : ℕ) (buff : List ℕ) : Type 0 where
  pub long : 2 < rll
  pub magic : u32_at buff 0 ≡ b.code
  pub version : u32_at buff 4 ≡ 2
  pub size : u32_at buff 8 ≡ b.own_size
  pub small : b.own_size < 2 ^ 31

i32-small : (w : ℕ) → w < 2 ^ 31 → i32 w ≡ pos w
i32-small w h = rw (lt→ltb w (2 ^ 31) h) refl

receive_data-good :
    (b : Sdat) (pid currt rll : ℕ) (buff mem : List ℕ) (e : ErrState)
    → IsOurs b rll buff
    → check_sum_ok rll buff ≡ true
    → receive_data b pid currt rll buff e mem ≡ (
      record e { err_type = 0 },
      false,
      some (take b.own_size buff ++ drop b.own_size (put_u32 12 pid mem)),
    )
unfolding receive_data
receive_data-good b pid currt rll buff mem e h ok =
    rw
      (
        lt→ltb 2 rll h.long,
        h.magic,
        h.version,
        h.size,
        ok,
        check_data-good b currt e,
        i32-small b.own_size h.small,
      )
      refl

IsOurs-memory :
    (b : Sdat) (rll : ℕ) (payload behind : List ℕ)
    → b.code < 2 ^ 32
    → b.own_size < 2 ^ 31
    → 2 < rll
    → IsOurs b rll (memory_of b.code b.own_size payload ++ behind)
IsOurs-memory b rll payload behind hc small long = record {
  long = long;
  magic = u32_of_bytes-bytes b.code hc;
  version = refl;
  size = u32_of_bytes-bytes b.own_size (omega arith);
  small = small;
}

-- The memory of the observatory arrives: a packet that is not damaged is taken without an error,
-- whatever errors were before, and puts the server's header, with the size in it, and data into the
-- client's memory; what stands there behind the size stays.
pub receive_data-data_packet :
    (b : Sdat) (pid currt w : ℕ) (payload beyond stale mem : List ℕ) (e : ErrState)
    → b.code < 2 ^ 32
    → b.own_size ≡ 12 + length payload
    → b.own_size < 2 ^ 31
    → let packet = data_packet b.own_size (memory_of b.code w (payload ++ beyond)) in
      receive_data b pid currt (length packet) (packet ++ stale) e mem ≡ (
        record e { err_type = 0 },
        false,
        some (memory_of b.code b.own_size payload ++ drop b.own_size (put_u32 12 pid mem)),
      )
unfolding with_check_sum
receive_data-data_packet b pid currt w payload beyond stale mem e hc hs small =
    let l = memory_of b.code b.own_size payload in
    let cs = check_sum l in
    let buff = l ++ (cs % 256 ∷ cs / 256 ∷ stale) in
    let good =
      receive_data-good b pid currt (length l + 2) buff mem e
        (IsOurs-memory b (length l + 2) payload (cs % 256 ∷ cs / 256 ∷ stale) hc small
          (omega arith))
        (check_sum_ok-with_check_sum l stale) in
    let kept = take_front l (cs % 256 ∷ cs / 256 ∷ stale) b.own_size (omega arith) in
    rw
      (
        data_packet-memory b.code w b.own_size payload beyond hs,
        length-packet l,
        append_assoc payload (cs % 256 ∷ cs / 256 ∷ []) stale,
      )
      (good
        ∙ ap
            (λ k.
              (record e { err_type = 0 }, false, some (k ++ drop b.own_size (put_u32 12 pid mem))))
            kept)
