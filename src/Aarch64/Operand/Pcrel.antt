-- ===== src/Aarch64/Operand/Pcrel.antt =====
-- src/isa/aarch64/operand.rs: operands that stand for an address relative to the instruction:
-- branches, `adr` and `adrp`. An i32 cast followed by a u32 cast is the low 32 bits.
pub mod Fields
pub mod Pages
pub mod Range
pub mod RoundTrip
use armv8_encode.Base.{
  ℕ, ◌+◌, ◌-◌, ◌*◌, ◌/◌, ◌%◌, ◌^◌, bit_or, ◌==◌, if◌then◌else◌, Bool, ok, Result,
}
use armv8_encode.Base.Bits.{field}
use armv8_encode.Base.Word.{shl_u32, wrapping_sub}
use armv8_encode.Base.Int.{ℤ, pos, negsuc, neg, as_u32, as_i64, difference, ◌/ℤ◌, ◌%ℤ◌, is_zero}
use armv8_encode.Base.Int.{is_within, shl_i64, shr_i64, wrapping_add_signed}
use armv8_encode.Aarch64.{Aarch64Opnd, DecodedOperand}
use armv8_encode.Aarch64.Operand.{EncodeError, refuse}

unfoldable pub sign_extend : ℤ → ℕ → ℤ
sign_extend value bits = shr_i64 (shl_i64 value (64 - bits)) (64 - bits)

unfoldable pub imm19 : ℕ → ℤ
imm19 word = shl_i64 (sign_extend (pos (field 5 19 word)) 19) 2

unfoldable pub imm14 : ℕ → ℤ
imm14 word = shl_i64 (sign_extend (pos (field 5 14 word)) 14) 2

unfoldable pub imm21 : ℕ → ℤ
imm21 word =
    let immlo = field 29 2 word in
    let immhi = field 5 19 word in sign_extend (pos (bit_or (immhi * 2 ^ 2) immlo)) 21

-- `address & !0xfff`.
abbrev pub page_of : ℕ → ℕ
page_of address = address - address % 2 ^ 12

unfoldable pub adrp_target : ℕ → ℕ → ℕ
adrp_target address word = wrapping_add_signed (page_of address) (shl_i64 (imm21 word) 12)

unfoldable pub imm26 : ℕ → ℤ
imm26 word = shl_i64 (sign_extend (pos (field 0 26 word)) 26) 2

unfoldable pub branch_target : ℕ → ℤ → ℕ
branch_target address offset = wrapping_add_signed address offset

-- `bits` is the width of the field and `bit_offset` where it starts.
unfoldable pub encode_pcrel : Aarch64Opnd → DecodedOperand → ℕ → ℕ → ℕ → Result EncodeError ℕ
encode_pcrel kind (DecodedOperand.branch_target target) address bits bit_offset =
    let offset = difference target address in
    let imm = offset /ℤ 4 in
    let limit = 2 ^ (bits - 1) in
    if is_zero (offset %ℤ 4)
    then if is_within (neg (pos limit)) (pos limit) imm
      then ok (shl_u32 (as_u32 imm % 2 ^ bits) bit_offset)
      else refuse kind
    else refuse kind
encode_pcrel kind _ address bits bit_offset = refuse kind

-- The 21 bits of `adr` and `adrp` in two fields.
abbrev pub split_imm21 : ℤ → ℕ
split_imm21 value =
    let encoded = as_u32 value % 2 ^ 21 in
    bit_or (shl_u32 (encoded % 2 ^ 2) 29) (shl_u32 (encoded / 2 ^ 2 % 2 ^ 19) 5)

abbrev pub fits_imm21 : ℤ → Bool
fits_imm21 value = is_within (neg (pos (2 ^ 20))) (pos (2 ^ 20)) value

unfoldable pub encode_pcrel21 : Aarch64Opnd → DecodedOperand → ℕ → Result EncodeError ℕ
encode_pcrel21 kind (DecodedOperand.branch_target target) address =
    let value = difference target address in
    if fits_imm21 value then ok (split_imm21 value) else refuse kind
encode_pcrel21 kind _ address = refuse kind

unfoldable pub encode_adrp : Aarch64Opnd → DecodedOperand → ℕ → Result EncodeError ℕ
encode_adrp kind (DecodedOperand.page_target target) address =
    let page_delta = as_i64 (wrapping_sub target (page_of address)) in
    let imm = shr_i64 page_delta 12 in
    if target % 2 ^ 12 == 0
    then if fits_imm21 imm then ok (split_imm21 imm) else refuse kind
    else refuse kind
encode_adrp kind _ address = refuse kind
