-- ===== src/Aarch64/Operand/Memory.antt =====
-- src/isa/aarch64/operand.rs: memory operands, decoded.
pub mod Encode
pub mod Pairs
use armv8_encode.Base.{
  ℕ, ◌+◌, ◌*◌, ◌/◌, ◌^◌, ◌==◌, if◌then◌else◌, Option, none, some, List, [], ◌∷◌,
}
use armv8_encode.Base.Bits.{field}
use armv8_encode.Base.Int.{ℤ, pos, shl_i64}
use armv8_encode.Aarch64.{Aarch64Opcode, AddressingMode, MemoryOffset, MemoryOperand, Shift}
use armv8_encode.Aarch64.{ShiftKind}
use armv8_encode.Aarch64.Operand.{rn, rm, x_reg, x_or_sp}
use armv8_encode.Aarch64.Operand.Pcrel.{sign_extend}
use armv8_encode.Aarch64.Operand.Registers.{fp_ldst_width}

-- The shift of the scale of a pair: bit 31 for general registers, bits 31:30 for the others.
unfoldable pub pair_scale : ℕ → ℕ
pair_scale word = let opc = field 30 2 word in if field 26 1 word == 1 then 2 + opc else 2 + opc / 2

unfoldable pub simm7_pair_offset : ℕ → ℤ
simm7_pair_offset word = shl_i64 (sign_extend (pos (field 15 7 word)) 7) (pair_scale word)

unfoldable pub simm9_offset : ℕ → ℤ
simm9_offset word = sign_extend (pos (field 12 9 word)) 9

abbrev mode_of : ℕ → AddressingMode
mode_of code =
    if code == 0b01
    then AddressingMode.post_index
    else if code == 0b11
    then AddressingMode.pre_index
    else AddressingMode.offset

unfoldable pub simm9_addressing_mode : ℕ → AddressingMode
simm9_addressing_mode word = mode_of (field 10 2 word)

unfoldable pub pair_addressing_mode : ℕ → AddressingMode
pair_addressing_mode word = mode_of (field 23 2 word)

-- The shift of the scale of a single access.
unfoldable pub access_scale : ℕ → ℕ
access_scale word = if field 26 1 word == 1 then (fp_ldst_width word).1 else field 30 2 word

unfoldable pub uimm12_offset : ℕ → ℤ
uimm12_offset word = shl_i64 (pos (field 10 12 word)) (access_scale word)

unfoldable pub regoff_shift : ℕ → Option Shift
regoff_shift word =
    let amount = access_scale word in
    if field 12 1 word == 0
    then none
    else if amount == 0
    then none
    else some (record { kind = ShiftKind.lsl; amount = amount })

unfoldable pub addr_simple : ℕ → MemoryOperand
addr_simple word = record {
  base = x_or_sp (rn word);
  offset = MemoryOffset.no_offset;
  mode = AddressingMode.offset;
}

unfoldable pub addr_regoff : ℕ → MemoryOperand
addr_regoff word = record {
  base = x_or_sp (rn word);
  offset = MemoryOffset.register (x_reg (rm word)) (regoff_shift word);
  mode = AddressingMode.offset;
}

unfoldable pub addr_simm7 : ℕ → MemoryOperand
addr_simm7 word = record {
  base = x_or_sp (rn word);
  offset = MemoryOffset.immediate (simm7_pair_offset word);
  mode = pair_addressing_mode word;
}

unfoldable pub addr_simm9 : ℕ → MemoryOperand
addr_simm9 word = record {
  base = x_or_sp (rn word);
  offset = MemoryOffset.immediate (simm9_offset word);
  mode = simm9_addressing_mode word;
}

unfoldable pub addr_uimm12 : ℕ → MemoryOperand
addr_uimm12 word = record {
  base = x_or_sp (rn word);
  offset = MemoryOffset.immediate (uimm12_offset word);
  mode = AddressingMode.offset;
}
