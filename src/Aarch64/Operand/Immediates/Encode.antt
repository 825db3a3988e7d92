-- ===== src/Aarch64/Operand/Immediates/Encode.antt =====
-- src/isa/aarch64/operand.rs: immediates, encoded. A negative value meets the last clause.
use Prim.Native.String.{String}
use armv8_encode.Base.{ℕ, zero, suc, ◌+◌, ◌-◌, ◌*◌, ◌/◌, ◌%◌, ◌^◌, ◌==◌, ltb, leb, bit_or}
use armv8_encode.Base.{Bool, not, ◌&&◌, ◌||◌, if◌then◌else◌, [], ◌∷◌}
use armv8_encode.Base.{Option, none, some, Result, ok}
use armv8_encode.Base.Bits.{field}
use armv8_encode.Base.Partial.{◌>>=◌, first_some}
use armv8_encode.Base.Text.{is_text, one_of}
use armv8_encode.Base.Word.{shl_u32}
use armv8_encode.Base.Int.{ℤ, pos, negsuc, difference, as_u64, ltb_ℤ, is_zero, pos_part, neg_part}
use armv8_encode.Aarch64.{Aarch64Opnd, Aarch64Opcode, DecodedOperand}
use armv8_encode.Aarch64.Operand.{EncodeError, refuse, encoded}
use armv8_encode.Aarch64.Operand.Immediates.{bitfield_max, is_extract_alias, is_insert_alias}
use armv8_encode.Aarch64.Operand.Immediates.{vector_shift_element_width}

unfoldable pub encode_aimm : Aarch64Opnd → DecodedOperand → Result EncodeError ℕ
encode_aimm kind (DecodedOperand.immediate (pos value)) =
    if leb value 0xfff
    then ok (shl_u32 value 10)
    else if value % 0x1000 == 0 && leb (value / 0x1000) 0xfff
    then ok (bit_or (2 ^ 22) (shl_u32 (value / 0x1000) 10))
    else refuse kind
encode_aimm kind _ = refuse kind

abbrev pub half_field : Aarch64Opnd → ℤ → ℕ → Result EncodeError ℕ
half_field kind (pos value) shift =
    if ltb 0xffff value || not (shift % 16 == 0) || ltb 48 shift
    then refuse kind
    else ok (bit_or (shl_u32 value 5) (shl_u32 (shift / 16) 21))
half_field kind (negsuc value) shift = refuse kind

unfoldable pub encode_half : Aarch64Opnd → DecodedOperand → Result EncodeError ℕ
encode_half kind (DecodedOperand.shifted_immediate imm) = half_field kind imm.value imm.shift
encode_half kind _ = refuse kind

-- `value >= i32::MIN && value <= u32::MAX`.
abbrev fits_32 : ℤ → Bool
fits_32 value = not (ltb_ℤ value (negsuc (2 ^ 31 - 1))) && not (ltb_ℤ (pos (2 ^ 32 - 1)) value)

abbrev mov_bits : ℕ → ℕ → ℕ
mov_bits shift imm = bit_or (shl_u32 (shift / 16) 21) (shl_u32 imm 5)

-- The shifts are 0, 16, ..., below the width.
abbrev inverted_half : ℕ → ℕ → ℕ → Option ℕ
inverted_half wanted width i =
    let shift = i * 16 in
    let imm = (2 ^ 64 - 1 - wanted) / 2 ^ shift % 2 ^ 16 in
    if (2 ^ 64 - 1 - imm * 2 ^ shift) % 2 ^ width == wanted then some (mov_bits shift imm) else none

abbrev plain_half : ℕ → ℕ → Option ℕ
plain_half wanted i =
    let shift = i * 16 in
    let imm = wanted / 2 ^ shift % 2 ^ 16 in
    if imm * 2 ^ shift == wanted then some (mov_bits shift imm) else none

unfoldable pub encode_imm_mov : Aarch64Opnd → DecodedOperand → Aarch64Opcode → Result EncodeError ℕ
encode_imm_mov kind (DecodedOperand.immediate value) opcode =
    let op = field 29 2 opcode.opcode in
    let width = if field 31 1 opcode.opcode == 0 && fits_32 value then 32 else 64 in
    let wanted = as_u64 value % 2 ^ width in
    encoded kind
      (if op == 0
        then first_some (inverted_half wanted width) 0 (width / 16)
        else if op == 2
        then first_some (plain_half wanted) 0 (width / 16)
        else none)
      (λ bits. bits)
encode_imm_mov kind _ opcode = refuse kind

unfoldable pub encode_raw_immediate : Aarch64Opnd → DecodedOperand → ℕ → ℕ → Result EncodeError ℕ
encode_raw_immediate kind (DecodedOperand.immediate (pos value)) bit_offset bits =
    if ltb value (2 ^ bits) then ok (shl_u32 value bit_offset) else refuse kind
encode_raw_immediate kind _ bit_offset bits = refuse kind

-- An insert alias and `lsl` keep the negated position; `lsl`, `lsr` and `asr` fix the end too.
abbrev position_bits : String → ℕ → ℕ → ℕ
position_bits mnemonic max value =
    if is_text mnemonic "lsl"
    then (max + 1 - value) % (max + 1)
    else if is_insert_alias mnemonic
    then (max + 1 - value) % (max + 1)
    else value

abbrev end_bits : String → ℕ → ℕ → ℕ
end_bits mnemonic max value =
    if is_text mnemonic "lsl"
    then shl_u32 (max - value) 10
    else if one_of mnemonic ("lsr" ∷ "asr" ∷ [])
    then shl_u32 max 10
    else 0

unfoldable pub encode_bitfield_imm :
    Aarch64Opnd → DecodedOperand → Aarch64Opcode → ℕ → Result EncodeError ℕ
encode_bitfield_imm kind (DecodedOperand.immediate (pos value)) opcode word =
    let max = bitfield_max word in
    let n = if max == 63 then 2 ^ 22 else 0 in
    if ltb max value
    then refuse kind
    else ok (
        bit_or (bit_or n (shl_u32 (position_bits opcode.name max value) 16))
          (end_bits opcode.name max value))
encode_bitfield_imm kind _ opcode word = refuse kind

unfoldable pub encode_bitfield_width :
    Aarch64Opnd → DecodedOperand → Aarch64Opcode → ℕ → Result EncodeError ℕ
encode_bitfield_width kind (DecodedOperand.immediate (pos width)) opcode word =
    let max = bitfield_max word in
    let immr = field 16 6 word in
    let imms = if is_extract_alias opcode.name then immr + width - 1 else width - 1 in
    if width == 0 || ltb (max + 1) width
    then refuse kind
    else if ltb max imms
    then refuse kind
    else ok (shl_u32 imms 10)
encode_bitfield_width kind _ opcode word = refuse kind

unfoldable pub encode_bit_num : Aarch64Opnd → DecodedOperand → Result EncodeError ℕ
encode_bit_num kind (DecodedOperand.immediate (pos bit)) =
    if leb bit 63
    then ok (bit_or (shl_u32 (bit / 2 ^ 5 % 2 * 2 ^ 5) 26) (shl_u32 (bit % 2 ^ 5) 19))
    else refuse kind
encode_bit_num kind _ = refuse kind

unfoldable pub encode_uimm7 : Aarch64Opnd → DecodedOperand → Result EncodeError ℕ
encode_uimm7 kind (DecodedOperand.immediate (pos value)) =
    if leb value 0x7f
    then ok (bit_or (shl_u32 (value / 2 ^ 3) 8) (shl_u32 (value % 2 ^ 3) 5))
    else refuse kind
encode_uimm7 kind _ = refuse kind

unfoldable pub encode_zero_immediate : Aarch64Opnd → DecodedOperand → Result EncodeError ℕ
encode_zero_immediate kind (DecodedOperand.immediate value) =
    if is_zero value then ok 0 else refuse kind
encode_zero_immediate kind _ = refuse kind

unfoldable pub encode_fbits : Aarch64Opnd → DecodedOperand → Result EncodeError ℕ
encode_fbits kind (DecodedOperand.immediate (pos value)) =
    if leb 1 value && leb value 64 then ok (shl_u32 (64 - value) 10) else refuse kind
encode_fbits kind _ = refuse kind

abbrev pub is_same_ℤ : ℤ → ℤ → Bool
is_same_ℤ a b = pos_part a == pos_part b && neg_part a == neg_part b

-- One candidate of the two loops, in a row whose size field is `size`.
abbrev shift_candidate : ℤ → Bool → ℕ → ℕ → ℕ → Option ℕ
shift_candidate value right_shift size immh immb =
    let imm = bit_or (immh * 2 ^ 3) immb in
    let width = vector_shift_element_width immh in
    let decoded = if right_shift then difference (width * 2) imm else difference imm width in
    if not (size == 0) && not (width == vector_shift_element_width size)
    then none
    else if is_same_ℤ decoded value
    then some (bit_or (shl_u32 immh 19) (shl_u32 immb 16))
    else none

unfoldable pub encode_vector_shift_immediate :
    Aarch64Opnd → DecodedOperand → ℕ → Bool → Result EncodeError ℕ
encode_vector_shift_immediate kind (DecodedOperand.immediate value) word right_shift =
    encoded kind
      (first_some
        (λ immh. first_some (shift_candidate value right_shift (field 19 4 word) immh) 0 8) 1 15)
      (λ bits. bits)
encode_vector_shift_immediate kind _ word right_shift = refuse kind

unfoldable pub encode_simd_imm8 : ℕ → ℕ
encode_simd_imm8 imm8 = bit_or (shl_u32 (imm8 / 2 ^ 5) 16) (shl_u32 (imm8 % 2 ^ 5) 5)

-- Every byte of the value must be clear or full.
abbrev gather_byte : ℕ → ℕ → ℕ → Option ℕ
gather_byte byte bit imm8 =
    if byte == 0x00 then some imm8 else if byte == 0xff then some (bit_or imm8 (2 ^ bit)) else none

unfoldable pub gather_bits : ℕ → ℕ → ℕ → ℕ → Option ℕ
gather_bits value zero bit imm8 = some imm8
gather_bits value (suc count) bit imm8 =
    gather_byte (value / 2 ^ (bit * 8) % 2 ^ 8) bit imm8 >>= gather_bits value count (suc bit)

unfoldable pub encode_simd_immediate : Aarch64Opnd → DecodedOperand → Result EncodeError ℕ
encode_simd_immediate kind (DecodedOperand.immediate (pos value)) =
    if leb value 0xff then ok (encode_simd_imm8 value) else refuse kind
encode_simd_immediate kind (DecodedOperand.unsigned_immediate value) =
    encoded kind (gather_bits value 8 0 0)
      (λ imm8. bit_or (bit_or (2 ^ 29) (shl_u32 0xe 12)) (encode_simd_imm8 imm8))
encode_simd_immediate kind _ = refuse kind

abbrev pub shift_cmode : ℕ → Option ℕ
shift_cmode shift =
    if shift == 0
    then some 0
    else if shift == 8
    then some 0x2
    else if shift == 16
    then some 0x4
    else if shift == 24
    then some 0x6
    else none

abbrev shifted_byte : Aarch64Opnd → ℤ → ℕ → Result EncodeError ℕ
shifted_byte kind (pos value) shift =
    if ltb 0xff value
    then refuse kind
    else encoded kind (shift_cmode shift)
        λ cmode. bit_or (encode_simd_imm8 value) (shl_u32 cmode 12)
shifted_byte kind (negsuc value) shift = refuse kind

unfoldable pub encode_simd_shifted_immediate : Aarch64Opnd → DecodedOperand → Result EncodeError ℕ
encode_simd_shifted_immediate kind (DecodedOperand.shifted_immediate imm) =
    shifted_byte kind imm.value imm.shift
encode_simd_shifted_immediate kind _ = refuse kind

unfoldable pub encode_shll_immediate : Aarch64Opnd → DecodedOperand → Result EncodeError ℕ
encode_shll_immediate kind (DecodedOperand.immediate (pos value)) =
    if value == 8
    then ok (shl_u32 0 22)
    else if value == 16
    then ok (shl_u32 1 22)
    else if value == 32
    then ok (shl_u32 2 22)
    else refuse kind
encode_shll_immediate kind _ = refuse kind
