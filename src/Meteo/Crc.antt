-- ===== src/Meteo/Crc.antt =====
-- BTA_modbusmeteo/bta_meteo_modbus.c: the check of a packet's CRC by a table.
use bta_utils.Prelude.{
  ℕ, zero, suc, ◌+◌, ◌-◌, ◌/◌, ◌%◌, ◌<◌, ◌≡◌, refl, Bool, true, ◌&&◌, List, [], ◌∷◌, length, take,
  get_or, ◌==◌, if◌then◌else◌, ==_iff, arith, Bool-cases, inl, inr,
}
use Prim.Native.Nat.{bit_xor}
use native.Mathlib.Decide.{dec_le}
use mathlib.Core.Path.{subst}

abbrev pub crc16_table : List ℕ
crc16_table =
    0x0000 ∷ 0xC0C1 ∷ 0xC181 ∷ 0x0140 ∷ 0xC301 ∷ 0x03C0 ∷ 0x0280 ∷ 0xC241 ∷ 0xC601 ∷ 0x06C0 ∷ 0x0780
    ∷ 0xC741 ∷ 0x0500 ∷ 0xC5C1 ∷ 0xC481 ∷ 0x0440 ∷ 0xCC01 ∷ 0x0CC0 ∷ 0x0D80 ∷ 0xCD41 ∷ 0x0F00
    ∷ 0xCFC1 ∷ 0xCE81 ∷ 0x0E40 ∷ 0x0A00 ∷ 0xCAC1 ∷ 0xCB81 ∷ 0x0B40 ∷ 0xC901 ∷ 0x09C0 ∷ 0x0880
    ∷ 0xC841 ∷ 0xD801 ∷ 0x18C0 ∷ 0x1980 ∷ 0xD941 ∷ 0x1B00 ∷ 0xDBC1 ∷ 0xDA81 ∷ 0x1A40 ∷ 0x1E00
    ∷ 0xDEC1 ∷ 0xDF81 ∷ 0x1F40 ∷ 0xDD01 ∷ 0x1DC0 ∷ 0x1C80 ∷ 0xDC41 ∷ 0x1400 ∷ 0xD4C1 ∷ 0xD581
    ∷ 0x1540 ∷ 0xD701 ∷ 0x17C0 ∷ 0x1680 ∷ 0xD641 ∷ 0xD201 ∷ 0x12C0 ∷ 0x1380 ∷ 0xD341 ∷ 0x1100
    ∷ 0xD1C1 ∷ 0xD081 ∷ 0x1040 ∷ 0xF001 ∷ 0x30C0 ∷ 0x3180 ∷ 0xF141 ∷ 0x3300 ∷ 0xF3C1 ∷ 0xF281
    ∷ 0x3240 ∷ 0x3600 ∷ 0xF6C1 ∷ 0xF781 ∷ 0x3740 ∷ 0xF501 ∷ 0x35C0 ∷ 0x3480 ∷ 0xF441 ∷ 0x3C00
    ∷ 0xFCC1 ∷ 0xFD81 ∷ 0x3D40 ∷ 0xFF01 ∷ 0x3FC0 ∷ 0x3E80 ∷ 0xFE41 ∷ 0xFA01 ∷ 0x3AC0 ∷ 0x3B80
    ∷ 0xFB41 ∷ 0x3900 ∷ 0xF9C1 ∷ 0xF881 ∷ 0x3840 ∷ 0x2800 ∷ 0xE8C1 ∷ 0xE981 ∷ 0x2940 ∷ 0xEB01
    ∷ 0x2BC0 ∷ 0x2A80 ∷ 0xEA41 ∷ 0xEE01 ∷ 0x2EC0 ∷ 0x2F80 ∷ 0xEF41 ∷ 0x2D00 ∷ 0xEDC1 ∷ 0xEC81
    ∷ 0x2C40 ∷ 0xE401 ∷ 0x24C0 ∷ 0x2580 ∷ 0xE541 ∷ 0x2700 ∷ 0xE7C1 ∷ 0xE681 ∷ 0x2640 ∷ 0x2200
    ∷ 0xE2C1 ∷ 0xE381 ∷ 0x2340 ∷ 0xE101 ∷ 0x21C0 ∷ 0x2080 ∷ 0xE041 ∷ 0xA001 ∷ 0x60C0 ∷ 0x6180
    ∷ 0xA141 ∷ 0x6300 ∷ 0xA3C1 ∷ 0xA281 ∷ 0x6240 ∷ 0x6600 ∷ 0xA6C1 ∷ 0xA781 ∷ 0x6740 ∷ 0xA501
    ∷ 0x65C0 ∷ 0x6480 ∷ 0xA441 ∷ 0x6C00 ∷ 0xACC1 ∷ 0xAD81 ∷ 0x6D40 ∷ 0xAF01 ∷ 0x6FC0 ∷ 0x6E80
    ∷ 0xAE41 ∷ 0xAA01 ∷ 0x6AC0 ∷ 0x6B80 ∷ 0xAB41 ∷ 0x6900 ∷ 0xA9C1 ∷ 0xA881 ∷ 0x6840 ∷ 0x7800
    ∷ 0xB8C1 ∷ 0xB981 ∷ 0x7940 ∷ 0xBB01 ∷ 0x7BC0 ∷ 0x7A80 ∷ 0xBA41 ∷ 0xBE01 ∷ 0x7EC0 ∷ 0x7F80
    ∷ 0xBF41 ∷ 0x7D00 ∷ 0xBDC1 ∷ 0xBC81 ∷ 0x7C40 ∷ 0xB401 ∷ 0x74C0 ∷ 0x7580 ∷ 0xB541 ∷ 0x7700
    ∷ 0xB7C1 ∷ 0xB681 ∷ 0x7640 ∷ 0x7200 ∷ 0xB2C1 ∷ 0xB381 ∷ 0x7340 ∷ 0xB101 ∷ 0x71C0 ∷ 0x7080
    ∷ 0xB041 ∷ 0x5000 ∷ 0x90C1 ∷ 0x9181 ∷ 0x5140 ∷ 0x9301 ∷ 0x53C0 ∷ 0x5280 ∷ 0x9241 ∷ 0x9601
    ∷ 0x56C0 ∷ 0x5780 ∷ 0x9741 ∷ 0x5500 ∷ 0x95C1 ∷ 0x9481 ∷ 0x5440 ∷ 0x9C01 ∷ 0x5CC0 ∷ 0x5D80
    ∷ 0x9D41 ∷ 0x5F00 ∷ 0x9FC1 ∷ 0x9E81 ∷ 0x5E40 ∷ 0x5A00 ∷ 0x9AC1 ∷ 0x9B81 ∷ 0x5B40 ∷ 0x9901
    ∷ 0x59C0 ∷ 0x5880 ∷ 0x9841 ∷ 0x8801 ∷ 0x48C0 ∷ 0x4980 ∷ 0x8941 ∷ 0x4B00 ∷ 0x8BC1 ∷ 0x8A81
    ∷ 0x4A40 ∷ 0x4E00 ∷ 0x8EC1 ∷ 0x8F81 ∷ 0x4F40 ∷ 0x8D01 ∷ 0x4DC0 ∷ 0x4C80 ∷ 0x8C41 ∷ 0x4400
    ∷ 0x84C1 ∷ 0x8581 ∷ 0x4540 ∷ 0x8701 ∷ 0x47C0 ∷ 0x4680 ∷ 0x8641 ∷ 0x8201 ∷ 0x42C0 ∷ 0x4380
    ∷ 0x8341 ∷ 0x4100 ∷ 0x81C1 ∷ 0x8081 ∷ 0x4040 ∷ []

-- The loop of `crc_check` from a value of the CRC.
unfoldable pub crc_from : ℕ → List ℕ → ℕ
crc_from crc [] = crc
crc_from crc (x ∷ l) = crc_from (bit_xor (crc / 256) (get_or crc16_table (bit_xor x crc % 256) 0)) l

-- `crc_check` of a packet of at least two bytes.
unfoldable pub crc_check : List ℕ → Bool
crc_check buffer =
    let n = length buffer - 2 in
    let crc = crc_from 0xFFFF (take n buffer) in
    crc / 256 == get_or buffer (n + 1) 0 && crc % 256 == get_or buffer n 0

-- The CRC of Modbus by its definition: a byte's eight divisions by the polynomial 0xA001.
abbrev pub shift_out : ℕ → ℕ → ℕ
shift_out zero x = x
shift_out (suc n) x = shift_out n (if x % 2 == 1 then bit_xor (x / 2) 0xA001 else x / 2)

-- An entry of the table is what the divisions of its index give.
entry_right : ℕ → Bool
entry_right x = get_or crc16_table x 0 == shift_out 8 x

all_below : (ℕ → Bool) → ℕ → Bool
all_below P zero = true
all_below P (suc n) = P n && all_below P n

all_below_lem : (P : ℕ → Bool) (n x : ℕ) → all_below P n ≡ true → x < n → P x ≡ true
unfolding all_below
all_below_lem P zero x h lt = absurd (omega arith)
all_below_lem P (suc n) x h lt = elim (Bool-cases (P n)) [
  | inr fails ↦ absurd (ground (arith, h, fails))
  | inl holds ↦ elim (dec_le n x) [
    | yes le ↦ subst (λ k. P k ≡ true) (omega arith) holds
    | no gt' ↦ all_below_lem P n x (rw holds at h) (omega arith)
  ]
]

-- Each entry of the table is what eight divisions of its index by the polynomial give.
pub crc16_table_lem : (x : ℕ) → x < 256 → get_or crc16_table x 0 ≡ shift_out 8 x
unfolding all_below entry_right
crc16_table_lem x h =
    (==_iff (get_or crc16_table x 0) (shift_out 8 x)).0 (all_below_lem entry_right 256 x refl h)
