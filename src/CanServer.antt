-- ===== src/CanServer.antt =====
-- Network_CAN_clientserver: a server that turns the text commands of its clients into CAN messages
-- for a serial adapter, and the answers of the CAN controller into text for the clients.
-- canproto.h and parsecanmsgs.c are here, clientserver.c is in `Commands`.
pub mod Commands
pub mod Message
pub mod Parse
pub mod Answer
mod Tests
use bta_utils.Prelude.{
  ℕ, zero, suc, ◌+◌, ◌-◌, ◌*◌, ◌/◌, ◌%◌, ◌^◌, Bool, true, false, ◌&&◌, ◌||◌, Option, none, some,
  List, [], ◌∷◌, ◌++◌, length, take, set, get_or, ltb, leb, ◌==◌, if◌then◌else◌, ℤ, pos, negsuc,
  to_u16, bytes_of_u32, u32_of_bytes, codes, print_u, span_dec, span_hex, skip_spaces, value_from,
}

-- `CAN_message`; `bytes` is the array `data[8]`.
pub record CanMessage : Type 0 where
  pub id : ℕ
  pub timestamp : ℕ
  pub length : ℕ
  pub bytes : List ℕ

-- The enumeration of CAN commands in canproto.h, and the index that C gives each.
pub data CanCmd : Type 0 where
  ping reset time mcutemp adcraw canspeed canid canid_in canid_out saveconf erasestor : CanCmd
  relay getesw getesw_now bounce usartspeed led flags inchnls outchnls modbusid : CanCmd
  modbusid_out modbusspeed amount : CanCmd

abbrev pub cmd_index : CanCmd → ℕ
cmd_index ping = 0
cmd_index reset = 1
cmd_index time = 2
cmd_index mcutemp = 3
cmd_index adcraw = 4
cmd_index canspeed = 5
cmd_index canid = 6
cmd_index canid_in = 7
cmd_index canid_out = 8
cmd_index saveconf = 9
cmd_index erasestor = 10
cmd_index relay = 11
cmd_index getesw = 12
cmd_index getesw_now = 13
cmd_index bounce = 14
cmd_index usartspeed = 15
cmd_index led = 16
cmd_index flags = 17
cmd_index inchnls = 18
cmd_index outchnls = 19
cmd_index modbusid = 20
cmd_index modbusid_out = 21
cmd_index modbusspeed = 22
cmd_index amount = 23

-- SETTER_FLAG and NO_PARNO
abbrev pub setter_flag : ℕ
setter_flag = 0x80

abbrev pub no_parno : ℕ
no_parno = 0x7f

-- MSGP_SET_CMD, MSGP_SET_PARNO, MSGP_SET_ERR, MSGP_SET_U32 on the array, little-endian.
abbrev pub set_cmd : ℤ → List ℕ → List ℕ
set_cmd cmd d = set (set d 0 (to_u16 cmd % 256)) 1 (to_u16 cmd / 256)

abbrev pub set_parno : ℕ → List ℕ → List ℕ
set_parno n d = set d 2 (n % 256)

abbrev pub set_err : ℕ → List ℕ → List ℕ
set_err e d = set d 3 (e % 256)

abbrev pub set_u32 : ℕ → List ℕ → List ℕ
set_u32 w d =
    set (set (set (set d 4 (w % 256)) 5 (w / 2 ^ 8 % 256)) 6 (w / 2 ^ 16 % 256)) 7
      (w / 2 ^ 24 % 256)

-- MSGP_GET_CMD, PARVAL and MSGP_GET_U32.
abbrev pub get_cmd : List ℕ → ℕ
get_cmd d = get_or d 0 0 + get_or d 1 0 * 256

abbrev pub parval : List ℕ → ℕ
parval d = get_or d 2 0 % 128

abbrev pub get_u32 : List ℕ → ℕ
get_u32 d = u32_of_bytes (get_or d 4 0) (get_or d 5 0) (get_or d 6 0) (get_or d 7 0)

-- `cancmd > 0xffff`
abbrev pub is_too_large : ℤ → Bool
is_too_large (pos n) = ltb 0xffff n
is_too_large (negsuc n) = false

-- `par |= SETTER_FLAG` on an `uint8_t`.
abbrev pub with_setter_flag : ℕ → ℕ
with_setter_flag par = par % 128 + setter_flag

-- A function that returns FALSE answers `none`; the message is not used then.
unfoldable pub fillcmd : ℤ → ℕ → CanMessage → Option CanMessage
fillcmd cancmd par msg =
    if is_too_large cancmd
    then none
    else some
        (record msg { length = 4; bytes = set_err 0 (set_parno par (set_cmd cancmd msg.bytes)) })

unfoldable pub can_u32_setter : ℤ → ℕ → ℕ → CanMessage → Option CanMessage
unfolding fillcmd
can_u32_setter cancmd par value msg = elim (fillcmd cancmd (with_setter_flag par) msg) [
  | none ↦ none
  | some m ↦ some (record m { length = 8; bytes = set_u32 value m.bytes })
]

unfoldable pub can_u32_getter : ℤ → ℕ → CanMessage → Option CanMessage
unfolding fillcmd
can_u32_getter cancmd par msg = fillcmd cancmd par msg

-- `snprintf(buf + L, buflen - L, …)` at `L < buflen`: the text that fits, and the full length.
abbrev pub append_printf : ℕ → ℕ × List ℕ → List ℕ → ℕ × List ℕ
append_printf buflen (l, text) chunk = (l + length chunk, text ++ take (buflen - l - 1) chunk)

-- The loop of `formCANmsg` over `msg->data`, for the variable `L` and the text in the buffer.
unfoldable pub form_loop : ℕ → List ℕ → ℕ × List ℕ → ℕ × List ℕ
form_loop buflen [] st = st
form_loop buflen (d ∷ ds) st =
    form_loop buflen ds
      (if ltb st.0 buflen then append_printf buflen st (print_u d ++ codes " ") else st)

-- The end of `formCANmsg`: the check of `L` and the newline.
unfoldable pub form_end : ℕ → ℕ × List ℕ → ℕ × List ℕ
form_end buflen st = if leb buflen st.0 then (0, []) else append_printf buflen st (codes "\n")

-- `formCANmsg`: the returned length, and the string in the buffer (empty where 0 is returned).
unfoldable pub form_can_msg : CanMessage → ℤ → ℕ × List ℕ
form_can_msg msg (negsuc n) = (0, [])
form_can_msg msg (pos buflen) =
    if ltb buflen 8
    then (0, [])
    else form_end buflen (
        form_loop buflen (take msg.length msg.bytes)
          (append_printf buflen (0, []) (codes "s " ++ print_u msg.id ++ codes " ")))

-- The sign in front of a number in `atoi` and `%x`.
abbrev pub strip_sign : List ℕ → Bool × List ℕ
strip_sign [] = (false, [])
strip_sign (c ∷ s) =
    if c == b'-' then (true, s) else (if c == b'+' then (false, s) else (false, c ∷ s))

abbrev pub strip_0x : List ℕ → List ℕ
strip_0x [] = []
strip_0x (c ∷ []) = c ∷ []
strip_0x (c ∷ d ∷ s) = if c == b'0' && (d == b'x' || d == b'X') then s else c ∷ d ∷ s

-- `(uint32_t) atoi(str)`: `strtol` saturates at 64 bits, and the low half is kept.
abbrev pub atoi_value : Bool → ℕ → ℕ
atoi_value minus v =
    if minus
    then (if ltb (2 ^ 63) v then 0 else (2 ^ 64 - v) % 2 ^ 32)
    else (if leb (2 ^ 63) v then 2 ^ 32 - 1 else v % 2 ^ 32)

abbrev pub atoi_signed : Bool × List ℕ → ℕ
atoi_signed (minus, s) = atoi_value minus (value_from 10 0 (span_dec s).0)

unfoldable pub atoi_u32 : List ℕ → ℕ
atoi_u32 str = atoi_signed (strip_sign (skip_spaces str))

-- The `unsigned` that `%x` stores for the digits behind a sign, and the text behind them.
unfoldable pub scan_digits : Bool → List ℕ × List ℕ → Option (ℕ × List ℕ)
scan_digits minus ([], rest) = none
scan_digits minus (d ∷ ds, rest) =
    let v = value_from 16 0 (d ∷ ds) in
    some (
      (if leb (2 ^ 64) v
          then 2 ^ 32 - 1
          else (if minus then (2 ^ 64 - v) % 2 ^ 32 else v % 2 ^ 32)),
      rest,
    )

unfoldable pub scan_signed : Bool × List ℕ → Option (ℕ × List ℕ)
unfolding scan_digits
scan_signed (minus, s) = scan_digits minus (span_hex (strip_0x s))

-- One `%x` of `sscanf`.
unfoldable pub scan_x : List ℕ → Option (ℕ × List ℕ)
unfolding scan_signed
scan_x str = scan_signed (strip_sign (skip_spaces str))

-- `sscanf(…, "%x %x …")` with that many conversions: the values stored, in order.
unfoldable pub scan_all : ℕ → List ℕ → List ℕ
scan_all zero str = []
scan_all (suc n) str = elim (scan_x str) [ none ↦ [] | some (v, rest) ↦ v ∷ scan_all n rest ]

-- What follows the first '#'.
abbrev pub after_hash : List ℕ → Option (List ℕ)
after_hash [] = none
after_hash (c ∷ s) = if c == b'#' then some s else after_hash s

-- `msg->data[i] = bytes[i + 1]`, over the bytes that the array holds.
abbrev pub fill : List ℕ → List ℕ → List ℕ
fill [] old = old
fill (v ∷ vs) [] = []
fill (v ∷ vs) (o ∷ old) = (v % 256) ∷ fill vs old

-- `parseCANstr`; `none` for FALSE. `old` is the caller's array before the call.
unfoldable pub parse_can_str : List ℕ → List ℕ → Option CanMessage
parse_can_str str old = elim (after_hash str) [
  | none ↦ none
  | some s ↦ elim (scan_all 9 s) [
    | [] ↦ none
    | v ∷ vs ↦ some (record {
      id = v % 2 ^ 16;
      timestamp = atoi_u32 str;
      length = length vs;
      bytes = fill vs old;
    })
  ]
]
