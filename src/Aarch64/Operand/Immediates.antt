-- ===== src/Aarch64/Operand/Immediates.antt =====
-- src/isa/aarch64/operand.rs: immediates, decoded. An `i64` that the code builds from a field is a
-- signed number; fields that it subtracts may go below zero.
pub mod Encode
pub mod Logical
pub mod RoundTrip
pub mod Search
use Prim.Native.String.{String}
use armv8_encode.Base.{ℕ, zero, suc, ◌+◌, ◌-◌, ◌*◌, ◌/◌, ◌%◌, ◌^◌, ◌==◌, leb, bit_or, bit_xor}
use armv8_encode.Base.{Bool, true, false, ◌&&◌, ◌||◌, if◌then◌else◌, List, [], ◌∷◌}
use armv8_encode.Base.Bits.{field}
use armv8_encode.Base.Text.{is_text, one_of}
use armv8_encode.Base.Int.{ℤ, pos, negsuc, difference, ◌%ℤ◌, as_i64, as_u64, shl_i64}
use armv8_encode.Aarch64.{Aarch64Opcode, DecodedOperand, ShiftedImmediate}

unfoldable pub fbits : ℕ → ℤ
fbits word = difference 64 (field 10 6 word)

unfoldable pub immr : ℕ → ℤ
immr word = pos (field 16 6 word)

unfoldable pub imms : ℕ → ℤ
imms word = pos (field 10 6 word)

unfoldable pub bit_num : ℕ → ℤ
bit_num word = pos (bit_or (field 31 1 word * 2 ^ 5) (field 19 5 word))

unfoldable pub exc : ℕ → ℤ
exc word = pos (field 5 16 word)

unfoldable pub ccmp_imm : ℕ → ℤ
ccmp_imm word = pos (field 16 5 word)

unfoldable pub nzcv : ℕ → ℤ
nzcv word = pos (field 0 4 word)

unfoldable pub uimm3_op1 : ℕ → ℤ
uimm3_op1 word = pos (field 16 3 word)

unfoldable pub uimm3_op2 : ℕ → ℤ
uimm3_op2 word = pos (field 5 3 word)

unfoldable pub uimm4 : ℕ → ℤ
uimm4 word = pos (field 8 4 word)

unfoldable pub uimm7 : ℕ → ℤ
uimm7 word = pos (bit_or (field 8 4 word * 2 ^ 3) (field 5 3 word))

unfoldable pub shll_imm : ℕ → ℤ
shll_imm word = pos (8 * 2 ^ field 22 2 word)

unfoldable pub idx : ℕ → ℤ
idx word = pos (if field 30 1 word == 0 then field 11 3 word else field 11 4 word)

unfoldable pub vector_shift_element_width : ℕ → ℕ
vector_shift_element_width immh =
    if immh == 0b0001
    then 8
    else if immh == 0b0010 || immh == 0b0011
    then 16
    else if leb 0b0100 immh && leb immh 0b0111
    then 32
    else 64

unfoldable pub imm_vlsl : ℕ → ℤ
imm_vlsl word =
    let immh = field 19 4 word in
    let immb = field 16 3 word in
    difference (bit_or (immh * 2 ^ 3) immb) (vector_shift_element_width immh)

unfoldable pub imm_vlsr : ℕ → ℤ
imm_vlsr word =
    let immh = field 19 4 word in
    let immb = field 16 3 word in
    difference (vector_shift_element_width immh * 2) (bit_or (immh * 2 ^ 3) immb)

unfoldable pub simd_imm8 : ℕ → ℕ
simd_imm8 word = bit_or (field 16 3 word * 2 ^ 5) (field 5 5 word)

-- The loop over the bits of the immediate, each spread over a byte.
unfoldable pub spread_bits : ℕ → ℕ → ℕ → ℕ → ℕ
spread_bits imm8 zero bit value = value
spread_bits imm8 (suc count) bit value =
    spread_bits imm8 count (suc bit)
      (if imm8 / 2 ^ bit % 2 == 0 then value else bit_or value (0xff * 2 ^ (bit * 8)))

unfoldable pub simd_imm : ℕ → DecodedOperand
simd_imm word =
    let imm8 = simd_imm8 word in
    if field 29 1 word == 1 && field 12 4 word == 0xe
    then DecodedOperand.unsigned_immediate (spread_bits imm8 8 0 0)
    else DecodedOperand.immediate (pos imm8)

abbrev pub cmode_shift : ℕ → ℕ
cmode_shift cmode =
    if cmode == 0x2 || cmode == 0x3 || cmode == 0xa || cmode == 0xb
    then 8
    else if cmode == 0x4 || cmode == 0x5
    then 16
    else if cmode == 0x6 || cmode == 0x7
    then 24
    else 0

unfoldable pub simd_imm_sft : ℕ → ShiftedImmediate
simd_imm_sft word = record { value = pos (simd_imm8 word); shift = cmode_shift (field 12 4 word) }

unfoldable pub aimm : ℕ → ℤ
aimm word =
    let imm = field 10 12 word in if field 22 1 word == 0 then pos imm else pos (imm * 2 ^ 12)

unfoldable pub half : ℕ → ShiftedImmediate
half word = record { value = pos (field 5 16 word); shift = field 21 2 word * 16 }

-- `!value` of an `i64`, and the low 32 bits of it read as an `i32`.
abbrev pub not_i64 : ℤ → ℤ
not_i64 (pos n) = negsuc n
not_i64 (negsuc n) = pos n

abbrev pub as_i32 : ℤ → ℤ
as_i32 z =
    let low = as_u64 z % 2 ^ 32 in if low / 2 ^ 31 == 0 then pos low else negsuc (2 ^ 32 - 1 - low)

unfoldable pub imm_mov : ℕ → ℤ
imm_mov word =
    let shifted = shl_i64 (pos (field 5 16 word)) (field 21 2 word * 16) in
    if field 29 2 word == 0
    then if field 31 1 word == 0 then as_i32 (not_i64 shifted) else not_i64 shifted
    else shifted

unfoldable pub bitfield_max : ℕ → ℕ
bitfield_max word = if field 31 1 word == 0 then 31 else 63

abbrev pub is_extract_alias : String → Bool
is_extract_alias mnemonic = one_of mnemonic ("ubfx" ∷ "sbfx" ∷ "bfxil" ∷ [])

abbrev pub is_insert_alias : String → Bool
is_insert_alias mnemonic = one_of mnemonic ("bfi" ∷ "ubfiz" ∷ "sbfiz" ∷ [])

unfoldable pub bitfield_imm : ℕ → Aarch64Opcode → ℤ
bitfield_imm word opcode =
    let immr = field 16 6 word in
    let imms = field 10 6 word in
    let max = bitfield_max word in
    let regsize = max + 1 in
    if is_text opcode.name "lsl"
    then difference max imms
    else if is_insert_alias opcode.name
    then difference regsize immr %ℤ regsize
    else pos immr

unfoldable pub bitfield_width : ℕ → Aarch64Opcode → ℤ
bitfield_width word opcode =
    let immr = field 16 6 word in
    let imms = field 10 6 word in
    if is_extract_alias opcode.name then difference (imms + 1) immr else pos (imms + 1)
