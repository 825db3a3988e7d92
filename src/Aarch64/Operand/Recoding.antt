-- ===== src/Aarch64/Operand/Recoding.antt =====
-- src/isa/aarch64/operand.rs: encoding a decoded branch gives the bits that it was decoded from.
use armv8_encode.Base.{
  ℕ, ◌+◌, ◌-◌, ◌*◌, ◌^◌, ◌≡◌, sym, ap, ◌∙◌, arith, List, [], ◌∷◌, ok, ok_injective,
}
use armv8_encode.Base.Bits.{field}
use armv8_encode.Base.Int.{ℤ, pos}
use armv8_encode.Aarch64.{Aarch64Opnd, Aarch64Opcode, DecodedOperand}
use armv8_encode.Aarch64.Operand.Codec.{decode, encode}
use armv8_encode.Aarch64.Operand.Pcrel.{imm14, imm19, imm26}
use armv8_encode.Aarch64.Operand.Pcrel.Range.{NoWrap, encode_pcrel-imm14, encode_pcrel-imm19}
use armv8_encode.Aarch64.Operand.Pcrel.Range.{encode_pcrel-imm26}
use armv8_encode.Aarch64.Table.Ranges.{operand_bit_ranges}

abbrev pub IsBranch : Aarch64Opnd → Type 0
IsBranch Aarch64Opnd.addr_pcrel14 = Unit
IsBranch Aarch64Opnd.addr_pcrel19 = Unit
IsBranch Aarch64Opnd.addr_pcrel26 = Unit
IsBranch _ = ⊥

-- The displacement that a word holds for a kind of branch.
abbrev pub displacement : Aarch64Opnd → ℕ → ℤ
displacement Aarch64Opnd.addr_pcrel14 word = imm14 word
displacement Aarch64Opnd.addr_pcrel19 word = imm19 word
displacement Aarch64Opnd.addr_pcrel26 word = imm26 word
displacement _ word = pos 0

-- The bits of a word in some ranges.
abbrev pub bits_in : List (ℕ × ℕ) → ℕ → ℕ
bits_in [] word = 0
bits_in ((lo, hi) ∷ ranges) word = field lo (hi - lo) word * 2 ^ lo + bits_in ranges word

-- A branch that stays in the address space is encoded, at the address that it was decoded at, to the
-- bits of its range in the word.
pub encode-decode :
    (kind : Aarch64Opnd) (x : DecodedOperand) (opcode : Aarch64Opcode)
    (address word base_word index : ℕ)
    → IsBranch kind
    → NoWrap address (displacement kind word)
    → decode kind
        (record { word = word; address = address; opcode = opcode; operand_index = index })
      ≡ ok x
    → encode kind x (record { base_word = base_word; address = address; opcode = opcode })
      ≡ ok (bits_in (operand_bit_ranges kind) word)
unfolding decode encode operand_bit_ranges
encode-decode Aarch64Opnd.addr_pcrel26 x opcode address word base_word index k room h =
    rw (sym (ok_injective h)) (encode_pcrel-imm26 _ address word room ∙ ap ok (omega arith))
encode-decode Aarch64Opnd.addr_pcrel19 x opcode address word base_word index k room h =
    rw (sym (ok_injective h)) (encode_pcrel-imm19 _ address word room ∙ ap ok (omega arith))
encode-decode Aarch64Opnd.addr_pcrel14 x opcode address word base_word index k room h =
    rw (sym (ok_injective h)) (encode_pcrel-imm14 _ address word room ∙ ap ok (omega arith))
encode-decode kind x opcode address word base_word index k room h = absurd k
