-- ===== src/Aarch64/Operand/Memory/Encode.antt =====
-- src/isa/aarch64/operand.rs: memory operands, encoded.
use armv8_encode.Base.{ℕ, ◌/◌, ◌%◌, ◌^◌, ◌==◌, leb, bit_or, Bool, true, false, ◌&&◌}
use armv8_encode.Base.{if◌then◌else◌, Option, none, some, Result, ok}
use armv8_encode.Base.Bits.{field}
use armv8_encode.Base.Word.{shl_u32}
use armv8_encode.Base.Int.{pos, negsuc, ◌/ℤ◌, ◌%ℤ◌, is_zero, is_within, as_u32}
use armv8_encode.Aarch64.{Aarch64Opnd, Aarch64Opcode, Aarch64InsnClass, AddressingMode}
use armv8_encode.Aarch64.{DecodedOperand, MemoryOffset, Register, RegisterClass, Shift}
use armv8_encode.Aarch64.{ShiftKind}
use armv8_encode.Aarch64.Operand.{EncodeError, refuse, encoded}

abbrev is_x : RegisterClass → Bool
is_x RegisterClass.x = true
is_x _ = false

abbrev is_base_class : RegisterClass → Bool
is_base_class RegisterClass.x = true
is_base_class RegisterClass.x_or_sp = true
is_base_class _ = false

-- The base of a memory operand is an X register or the stack pointer.
abbrev pub is_base : Register → Bool
is_base r = is_base_class r.class && leb r.index 31

abbrev is_offset_mode : AddressingMode → Bool
is_offset_mode AddressingMode.offset = true
is_offset_mode _ = false

abbrev is_no_offset : MemoryOffset → Bool
is_no_offset MemoryOffset.no_offset = true
is_no_offset _ = false

unfoldable pub encode_addr_simple : Aarch64Opnd → DecodedOperand → Result EncodeError ℕ
encode_addr_simple kind (DecodedOperand.memory m) =
    if is_base m.base && is_offset_mode m.mode && is_no_offset m.offset
    then ok (shl_u32 m.base.index 5)
    else refuse kind
encode_addr_simple kind _ = refuse kind

abbrev is_lsl : ShiftKind → Bool
is_lsl ShiftKind.lsl = true
is_lsl _ = false

-- Bit 12 for a shift by the size of the access.
abbrev pub shift_bit : Option Shift → ℕ → Option ℕ
shift_bit none size = some 0
shift_bit (some s) size = if is_lsl s.kind && s.amount == size then some (2 ^ 12) else none

abbrev register_offset :
    Aarch64Opnd → Register → AddressingMode → MemoryOffset → ℕ → Result EncodeError ℕ
register_offset kind base mode (MemoryOffset.register r shift) word =
    if is_base base && is_offset_mode mode && is_x r.class && leb r.index 31
    then encoded kind (shift_bit shift (field 30 2 word)) (λ bit.
      bit_or (bit_or (bit_or (shl_u32 base.index 5) (shl_u32 r.index 16)) (shl_u32 0b011 13)) bit)
    else refuse kind
register_offset kind base mode _ word = refuse kind

unfoldable pub encode_addr_regoff : Aarch64Opnd → DecodedOperand → ℕ → Result EncodeError ℕ
encode_addr_regoff kind (DecodedOperand.memory m) word =
    register_offset kind m.base m.mode m.offset word
encode_addr_regoff kind _ word = refuse kind

abbrev pub pair_mode_bits : Aarch64InsnClass → AddressingMode → Option ℕ
pair_mode_bits Aarch64InsnClass.ldstpair_off AddressingMode.offset = some 0
pair_mode_bits Aarch64InsnClass.ldstnapair_offs AddressingMode.offset = some 0
pair_mode_bits Aarch64InsnClass.ldstpair_indexed AddressingMode.post_index = some 0
pair_mode_bits Aarch64InsnClass.ldstpair_indexed AddressingMode.pre_index = some (2 ^ 24)
pair_mode_bits _ _ = none

abbrev pub pair_offset : Aarch64Opnd → Register → MemoryOffset → Option ℕ → Result EncodeError ℕ
pair_offset kind base (MemoryOffset.immediate offset) mode_bits =
    if is_zero (offset %ℤ 8)
    then if is_within (negsuc 63) (pos 64) (offset /ℤ 8)
      then encoded kind mode_bits (λ mode.
        bit_or (bit_or (shl_u32 base.index 5) (shl_u32 (as_u32 (offset /ℤ 8) % 2 ^ 7) 15)) mode)
      else refuse kind
    else refuse kind
pair_offset kind base _ mode_bits = refuse kind

unfoldable pub encode_addr_simm7 :
    Aarch64Opnd → DecodedOperand → Aarch64Opcode → Result EncodeError ℕ
encode_addr_simm7 kind (DecodedOperand.memory m) opcode =
    if is_base m.base
    then pair_offset kind m.base m.offset (pair_mode_bits opcode.iclass m.mode)
    else refuse kind
encode_addr_simm7 kind _ opcode = refuse kind

abbrev pub single_mode_bits : Aarch64InsnClass → AddressingMode → Option ℕ
single_mode_bits Aarch64InsnClass.ldst_unscaled AddressingMode.offset = some 0
single_mode_bits Aarch64InsnClass.ldst_imm9 AddressingMode.post_index = some 0
single_mode_bits Aarch64InsnClass.ldst_imm9 AddressingMode.pre_index = some (2 ^ 11)
single_mode_bits _ _ = none

abbrev single_offset : Aarch64Opnd → Register → MemoryOffset → Option ℕ → Result EncodeError ℕ
single_offset kind base (MemoryOffset.immediate offset) mode_bits =
    if is_within (negsuc 255) (pos 256) offset
    then encoded kind mode_bits
        (λ mode. bit_or (bit_or (shl_u32 base.index 5) (shl_u32 (as_u32 offset % 2 ^ 9) 12)) mode)
    else refuse kind
single_offset kind base _ mode_bits = refuse kind

unfoldable pub encode_addr_simm9 :
    Aarch64Opnd → DecodedOperand → Aarch64Opcode → Result EncodeError ℕ
encode_addr_simm9 kind (DecodedOperand.memory m) opcode =
    if is_base m.base
    then single_offset kind m.base m.offset (single_mode_bits opcode.iclass m.mode)
    else refuse kind
encode_addr_simm9 kind _ opcode = refuse kind

abbrev scaled_offset : Aarch64Opnd → Register → MemoryOffset → ℕ → Result EncodeError ℕ
scaled_offset kind base (MemoryOffset.immediate (pos offset)) scale =
    if offset % 2 ^ scale == 0 && leb (offset / 2 ^ scale) 0xfff
    then ok (bit_or (shl_u32 base.index 5) (shl_u32 (offset / 2 ^ scale) 10))
    else refuse kind
scaled_offset kind base _ scale = refuse kind

unfoldable pub encode_addr_uimm12 : Aarch64Opnd → DecodedOperand → ℕ → Result EncodeError ℕ
encode_addr_uimm12 kind (DecodedOperand.memory m) word =
    if is_base m.base && is_offset_mode m.mode
    then scaled_offset kind m.base m.offset (field 30 2 word)
    else refuse kind
encode_addr_uimm12 kind _ word = refuse kind

abbrev is_post_index : AddressingMode → Bool
is_post_index AddressingMode.post_index = true
is_post_index _ = false

-- Register 31 stands for a fixed immediate.
abbrev post_register : MemoryOffset → Option ℕ
post_register (MemoryOffset.immediate _) = some 31
post_register (MemoryOffset.register r none) =
    if is_x r.class && leb r.index 31 then some r.index else none
post_register _ = none

unfoldable pub encode_simd_addr_post : Aarch64Opnd → DecodedOperand → Result EncodeError ℕ
encode_simd_addr_post kind (DecodedOperand.memory m) =
    if is_base m.base && is_post_index m.mode
    then encoded kind (post_register m.offset)
        (λ rm. bit_or (shl_u32 m.base.index 5) (shl_u32 rm 16))
    else refuse kind
encode_simd_addr_post kind _ = refuse kind
