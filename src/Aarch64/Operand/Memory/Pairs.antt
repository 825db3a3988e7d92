-- ===== src/Aarch64/Operand/Memory/Pairs.antt =====
-- src/isa/aarch64/operand.rs: the offset of a load or store pair, encoded and decoded.
use armv8_encode.Base.{ℕ, ◌%◌, ◌^◌, ◌<◌, bit_or, ◌≡◌, ◌⊎◌, inl, inr, refl, sym, ap, ◌∙◌}
use armv8_encode.Base.{arith, Option, none, some, Option-cases, Bool-cases, ok}
use armv8_encode.Base.Bits.{
  field, field-bit_or_left, field-bit_or_right, field-bit_or_three, zero-bit_or, bit_or-zero,
}
use armv8_encode.Base.Word.{shl_u32}
use armv8_encode.Base.Int.{ℤ, pos, negsuc, ◌/ℤ◌, ◌%ℤ◌, ◌≤ℤ◌, ◌<ℤ◌, as_u32, shl_i64}
use armv8_encode.Aarch64.{
  Aarch64Opnd, Aarch64Opcode, Aarch64InsnClass, AddressingMode, DecodedOperand,
}
use armv8_encode.Aarch64.{MemoryOffset, MemoryOperand, Register}
use armv8_encode.Aarch64.Operand.Memory.{simm7_pair_offset, pair_scale}
use armv8_encode.Aarch64.Operand.Memory.Encode.{
  encode_addr_simm7, pair_mode_bits, pair_offset, is_base,
}
use armv8_encode.Aarch64.Operand.Pcrel.Fields.{sign_extend_7}

pair_mode_bits-cases :
    (class : Aarch64InsnClass) (mode : AddressingMode)
    → (pair_mode_bits class mode ≡ none)
      ⊎ (pair_mode_bits class mode ≡ some 0)
      ⊎ (pair_mode_bits class mode ≡ some (2 ^ 24))
pair_mode_bits-cases Aarch64InsnClass.ldstpair_off AddressingMode.offset = inr (inl refl)
pair_mode_bits-cases Aarch64InsnClass.ldstnapair_offs AddressingMode.offset = inr (inl refl)
pair_mode_bits-cases Aarch64InsnClass.ldstpair_indexed AddressingMode.post_index = inr (inl refl)
pair_mode_bits-cases Aarch64InsnClass.ldstpair_indexed AddressingMode.pre_index = inr (inr refl)
pair_mode_bits-cases _ _ = inl refl

-- An accepted offset is a multiple of 8; its eighth is in the field.
record Accepted (offset : ℤ) (bits : ℕ) : Type 0 where
  whole : offset %ℤ 8 ≡ pos 0
  least : negsuc 63 ≤ℤ (offset /ℤ 8)
  most : (offset /ℤ 8) <ℤ pos 64
  held : field 15 7 bits ≡ as_u32 (offset /ℤ 8) % 2 ^ 7
  class_bits : field 26 1 bits ≡ 0
  size_bits : field 30 2 bits ≡ 0

-- The bits of a pair, read field by field.
packed-fields :
    (index imm mode : ℕ)
    → index < 32
    → imm < 2 ^ 7
    → (mode ≡ 0) ⊎ (mode ≡ 2 ^ 24)
    → let bits = bit_or (bit_or (shl_u32 index 5) (shl_u32 imm 15)) mode in
      (field 15 7 bits ≡ imm) × (field 26 1 bits ≡ 0) × (field 30 2 bits ≡ 0)
packed-fields index imm mode index_fits imm_fits modes = (
  field-bit_or_three 15 7 (shl_u32 index 5) (shl_u32 imm 15) mode 0 imm 0 (omega arith)
        (omega arith) (ground (arith, modes))
      ∙ simp (bit_or-zero, zero-bit_or) refl,
  field-bit_or_three 26 1 (shl_u32 index 5) (shl_u32 imm 15) mode 0 0 0 (omega arith) (omega arith)
      (ground (arith, modes)),
  field-bit_or_three 30 2 (shl_u32 index 5) (shl_u32 imm 15) mode 0 0 0 (omega arith) (omega arith)
      (ground (arith, modes)),
)

same_scale :
    (base bits : ℕ)
    → field 26 1 bits ≡ 0
    → field 30 2 bits ≡ 0
    → pair_scale (bit_or base bits) ≡ pair_scale base
unfolding pair_scale
same_scale base bits class_clear size_clear =
    rw (field-bit_or_left 26 1 base bits class_clear, field-bit_or_left 30 2 base bits size_clear)
      refl

accepted :
    (kind : Aarch64Opnd) (base : Register) (offset : ℤ) (mode_bits : Option ℕ) (bits : ℕ)
    → base.index < 32
    → (mode_bits ≡ none) ⊎ (mode_bits ≡ some 0) ⊎ (mode_bits ≡ some (2 ^ 24))
    → pair_offset kind base (MemoryOffset.immediate offset) mode_bits ≡ ok bits
    → Accepted offset bits
accepted kind base offset mode_bits bits fits modes h = elim (Option-cases mode_bits) [
  | inl e ↦ absurd (ground arith)
  | inr (mode, e) ↦
      let imm = as_u32 (offset /ℤ 8) % 2 ^ 7 in
      let packed : bits ≡ bit_or (bit_or (shl_u32 base.index 5) (shl_u32 imm 15)) mode =
        ground arith in
      let (held, class_bits, size_bits) =
        packed-fields base.index imm mode fits (omega arith) (ground (arith, modes)) in
      record {
        whole = ground arith;
        least = ground arith;
        most = ground arith;
        held = ap (field 15 7) packed ∙ held;
        class_bits = ap (field 26 1) packed ∙ class_bits;
        size_bits = ap (field 30 2) packed ∙ size_bits;
      }
]

encode_addr_simm7-Accepted :
    (kind : Aarch64Opnd) (m : MemoryOperand) (offset : ℤ) (opcode : Aarch64Opcode) (bits : ℕ)
    → m.offset ≡ MemoryOffset.immediate offset
    → encode_addr_simm7 kind (DecodedOperand.memory m) opcode ≡ ok bits
    → Accepted offset bits
unfolding encode_addr_simm7
encode_addr_simm7-Accepted kind m offset opcode bits is h = elim (Bool-cases (is_base m.base)) [
  | inr refused ↦ absurd (ground arith)
  | inl based ↦
      let mode_bits = pair_mode_bits opcode.iclass m.mode in
      let entered : pair_offset kind m.base m.offset mode_bits ≡ ok bits = ground arith in
      accepted kind m.base offset mode_bits bits (ground arith)
        (pair_mode_bits-cases opcode.iclass m.mode)
        (sym (ap (λ o. pair_offset kind m.base o mode_bits) is) ∙ entered)
]

-- An accepted offset of a pair is a multiple of 8. In a word whose offset field was clear it decodes to
-- its eighth times the size of the access, which the word says: to itself when that size is 8.
pub simm7_pair_offset-encode_addr_simm7 :
    (kind : Aarch64Opnd) (m : MemoryOperand) (offset : ℤ) (opcode : Aarch64Opcode) (base bits : ℕ)
    → m.offset ≡ MemoryOffset.immediate offset
    → field 15 7 base ≡ 0
    → encode_addr_simm7 kind (DecodedOperand.memory m) opcode ≡ ok bits
    → (offset %ℤ 8 ≡ pos 0)
      × (simm7_pair_offset (bit_or base bits) ≡ shl_i64 (offset /ℤ 8) (pair_scale base))
unfolding simm7_pair_offset
simm7_pair_offset-encode_addr_simm7 kind m offset opcode base bits is clear h =
    let a = encode_addr_simm7-Accepted kind m offset opcode bits is h in
    (
      a.whole,
      rw
          (
            field-bit_or_right 15 7 base bits clear,
            a.held,
            sign_extend_7 (offset /ℤ 8) a.least a.most,
          )
          (ap (shl_i64 (offset /ℤ 8)) (same_scale base bits a.class_bits a.size_bits)),
    )
