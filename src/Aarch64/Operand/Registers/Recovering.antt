-- ===== src/Aarch64/Operand/Registers/Recovering.antt =====
-- src/isa/aarch64/operand.rs: the register kinds that hold more than a number, through the codec.
use armv8_encode.Base.{ℕ, ◌≡◌, refl, ap, arith, bit_or, inl, inr, some, ok}
use armv8_encode.Base.Bits.{field}
use armv8_encode.Aarch64.{Aarch64Opnd, Aarch64Opcode, DecodedOperand}
use armv8_encode.Aarch64.Operand.{rd, rn}
use armv8_encode.Aarch64.Operand.Codec.{decode, encode}
use armv8_encode.Aarch64.Operand.Registers.Encode.{
  sf_bit, encode_gp_or_sp_register, encode_rm_extended, encode_rm_shifted,
}
use armv8_encode.Aarch64.Operand.Registers.RoundTrip.{as_stack, gp_or_sp-encode_gp_or_sp_register}
use armv8_encode.Aarch64.Operand.Registers.RoundTrip.{rm_extended-encode_rm_extended}
use armv8_encode.Aarch64.Operand.Registers.RoundTrip.{rm_shifted-encode_rm_shifted}
use armv8_encode.Aarch64.Operand.RoundTrip.{IsClear}
use armv8_encode.Aarch64.Table.Ranges.{operand_bit_ranges}

abbrev pub IsRegisterKind : Aarch64Opnd → Type 0
IsRegisterKind Aarch64Opnd.rd_sp = Unit
IsRegisterKind Aarch64Opnd.rn_sp = Unit
IsRegisterKind Aarch64Opnd.rm_ext = Unit
IsRegisterKind Aarch64Opnd.rm_sft = Unit
IsRegisterKind _ = ⊥

-- The top bit of the word: clear for a register whose encoder sets it, and that of the class for a
-- shifted register, which takes it from the other operands.
abbrev pub HasWidth : DecodedOperand → ℕ → Type 0
HasWidth (DecodedOperand.register r) word = field 31 1 word ≡ 0
HasWidth (DecodedOperand.shifted_register s) word = sf_bit s.register.class ≡ some (field 31 1 word)
HasWidth _ word = Unit

-- Below index 31 a register and the one that may be the stack pointer are encoded alike.
abbrev pub as_read : DecodedOperand → DecodedOperand
as_read (DecodedOperand.register r) =
    DecodedOperand.register (record { class = as_stack r.class; index = r.index })
as_read x = x

module _ (opcode : Aarch64Opcode) (address base base_word index bits : ℕ) where
  abbrev ReadsBack : Aarch64Opnd → DecodedOperand → Type 0
  ReadsBack kind x =
      IsClear kind base
      → HasWidth x base
      → encode kind x (record { base_word = base_word; address = address; opcode = opcode })
        ≡ ok bits
      → decode kind (record {
        word = bit_or base bits;
        address = address;
        opcode = opcode;
        operand_index = index;
      })
        ≡ ok (as_read x)

  rd_sp_lem : (x : DecodedOperand) → ReadsBack Aarch64Opnd.rd_sp x
  unfolding encode decode operand_bit_ranges encode_gp_or_sp_register rd
  rd_sp_lem (DecodedOperand.register r) clear top h =
      ap (λ s. ok (DecodedOperand.register s))
        (gp_or_sp-encode_gp_or_sp_register Aarch64Opnd.rd_sp r 0 base bits (inl refl) clear.0 top h)
  rd_sp_lem x clear top h = absurd (ground arith)

  rn_sp_lem : (x : DecodedOperand) → ReadsBack Aarch64Opnd.rn_sp x
  unfolding encode decode operand_bit_ranges encode_gp_or_sp_register rn
  rn_sp_lem (DecodedOperand.register r) clear top h =
      ap (λ s. ok (DecodedOperand.register s))
        (gp_or_sp-encode_gp_or_sp_register Aarch64Opnd.rn_sp r 5 base bits (inr refl) clear.0 top h)
  rn_sp_lem x clear top h = absurd (ground arith)

  rm_ext_lem : (x : DecodedOperand) → ReadsBack Aarch64Opnd.rm_ext x
  unfolding encode decode operand_bit_ranges encode_rm_extended
  rm_ext_lem (DecodedOperand.extended_register e) clear top h =
      ap (λ s. ok (DecodedOperand.extended_register s))
        (rm_extended-encode_rm_extended Aarch64Opnd.rm_ext e base bits clear.0 clear.1.0 clear.1.1.0
          h)
  rm_ext_lem x clear top h = absurd (ground arith)

  rm_sft_lem : (x : DecodedOperand) → ReadsBack Aarch64Opnd.rm_sft x
  unfolding encode decode operand_bit_ranges encode_rm_shifted
  rm_sft_lem (DecodedOperand.shifted_register s) clear top h =
      ap (λ s. ok (DecodedOperand.shifted_register s))
        (rm_shifted-encode_rm_shifted Aarch64Opnd.rm_sft s base bits clear.0 clear.1.0 clear.1.1.0
          top h)
  rm_sft_lem x clear top h = absurd (ground arith)

  -- A shifted or extended register, or one that may be the stack pointer, comes back from a word in which
  -- its bits were clear and whose top bit suits it: of the last in its class with the stack pointer.
  pub decode-encode_register :
      (kind : Aarch64Opnd) (x : DecodedOperand)
      → IsRegisterKind kind
      → IsClear kind base
      → HasWidth x base
      → encode kind x (record { base_word = base_word; address = address; opcode = opcode })
        ≡ ok bits
      → decode kind (record {
        word = bit_or base bits;
        address = address;
        opcode = opcode;
        operand_index = index;
      })
        ≡ ok (as_read x)
  decode-encode_register Aarch64Opnd.rd_sp x k clear top h = rd_sp_lem x clear top h
  decode-encode_register Aarch64Opnd.rn_sp x k clear top h = rn_sp_lem x clear top h
  decode-encode_register Aarch64Opnd.rm_ext x k clear top h = rm_ext_lem x clear top h
  decode-encode_register Aarch64Opnd.rm_sft x k clear top h = rm_sft_lem x clear top h
  decode-encode_register kind x k clear top h = absurd k
