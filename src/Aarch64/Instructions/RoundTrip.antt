-- ===== src/Aarch64/Instructions/RoundTrip.antt =====
-- src/isa/aarch64/mod.rs: an encoded instruction of one operand, decoded again.
use armv8_encode.Base.{ℕ, ◌≡◌, refl, sym, ap, ◌∙◌, arith, bit_or, true, List, [], ◌∷◌, ◌∈◌}
use armv8_encode.Base.{none, some, Result-cases, inl, inr, ok}
use armv8_encode.Base.Bits.{bit_or-zero}
use armv8_encode.Base.Word.{IsU64}
use armv8_encode.Aarch64.{Aarch64Mnemonic, Aarch64Opnd, Aarch64Opcode, DecodedOperand}
use armv8_encode.Aarch64.Mnemonic.{parse, is_same_mnemonic}
use armv8_encode.Aarch64.Operand.Codec.{decode, encode}
use armv8_encode.Aarch64.Operand.RoundTrip.{IsNumber, InRange, IsClear, decode-encode}
use armv8_encode.Aarch64.Table.{match_opcode}
use armv8_encode.Aarch64.Instructions.{
  InstructionTemplate, encode_instruction, decode_instruction, decode_operands,
}
use armv8_encode.Aarch64.Instructions.{encode_operands, alias_implicit_bits, alias_fixup}
use armv8_encode.Aarch64.Instructions.Encoded.{encode_instruction-Emitted}

-- The bits of the only operand, added to the word so far.
encode_operands-one :
    (address word out : ℕ) (row : Aarch64Opcode) (kind : Aarch64Opnd) (x : DecodedOperand)
    → encode_operands address row (kind ∷ []) (x ∷ []) word ≡ ok out
    → (bits : ℕ) × (encode kind x (record { base_word = word; address = address; opcode = row })
        ≡ ok bits)
      × (out ≡ bit_or word bits)
unfolding encode_operands
encode_operands-one address word out row kind x h =
    elim (Result-cases
      (encode kind x (record { base_word = word; address = address; opcode = row }))) [
        | inl (bits, e) ↦ (bits, e, ground arith)
        | inr (failure, e) ↦ absurd (ground arith)
      ]

no_implicit :
    (mnemonic : Aarch64Mnemonic) (operands : List DecodedOperand) (bits : ℕ)
    → alias_fixup mnemonic ≡ none
    → alias_implicit_bits mnemonic operands ≡ ok bits
    → bits ≡ 0
unfolding alias_implicit_bits
no_implicit mnemonic operands bits plain h = ground arith

decode_operands-one :
    (address word : ℕ) (row : Aarch64Opcode) (kind : Aarch64Opnd) (x : DecodedOperand)
    → decode kind (record { word = word; address = address; opcode = row; operand_index = 0 })
      ≡ ok x
    → decode_operands address word row 0 (kind ∷ []) ≡ ok (x ∷ [])
unfolding decode_operands
decode_operands-one address word row kind x h = rw h refl

decoded_one :
    (table : List Aarch64Opcode) (address word : ℕ) (best : Aarch64Opcode) (kind : Aarch64Opnd)
    (x : DecodedOperand)
    → match_opcode table word ≡ some best
    → best.operands ≡ kind ∷ []
    → decode kind (record { word = word; address = address; opcode = best; operand_index = 0 })
      ≡ ok x
    → decode_instruction table address word
      ≡ ok
          (record { address = address; word = word; mnemonic = parse best.name; operands = x ∷ [] })
unfolding decode_instruction
decoded_one table address word best kind x found is h =
    let operands : decode_operands address word best 0 best.operands ≡ ok (x ∷ []) =
      ap (decode_operands address word best 0) is
      ∙ decode_operands-one address word best kind x h in
    rw (found, operands) refl

-- The rows of a mnemonic have one operand of a kind, and leave its bits clear.
abbrev pub OneForm : List Aarch64Opcode → Aarch64Mnemonic → Aarch64Opnd → Type 0
OneForm table mnemonic kind =
    (row : Aarch64Opcode)
    → row ∈ table
    → is_same_mnemonic (parse row.name) mnemonic ≡ true
    → (row.operands ≡ kind ∷ []) × IsClear kind row.opcode

-- An instruction without implicit bits whose only operand is a number, encoded by a table in which every
-- row of its mnemonic has exactly that one kind of operand and leaves its bits clear, decodes to that
-- operand if the row that its word matches has that one kind of operand too. The addresses have 64 bits.
pub decode_instruction-encode_instruction :
    (table : List Aarch64Opcode) (mnemonic : Aarch64Mnemonic) (kind : Aarch64Opnd)
    (x : DecodedOperand) (address word : ℕ) (best : Aarch64Opcode)
    → IsNumber kind
    → IsU64 address
    → InRange x
    → alias_fixup mnemonic ≡ none
    → OneForm table mnemonic kind
    → encode_instruction table
        (record { address = address; mnemonic = mnemonic; operands = x ∷ [] })
      ≡ ok word
    → match_opcode table word ≡ some best
    → best.operands ≡ kind ∷ []
    → decode_instruction table address word
      ≡ ok
          (record { address = address; word = word; mnemonic = parse best.name; operands = x ∷ [] })
decode_instruction-encode_instruction table mnemonic kind x address word best k a t plain one_form h
      found same =
    let instruction : InstructionTemplate = record {
      address = address;
      mnemonic = mnemonic;
      operands = x ∷ [];
    } in
    let (row, m, of_mnemonic, emits) = encode_instruction-Emitted table instruction word h in
    let (is, clear) = one_form row m of_mnemonic in
    let (bits, encodes, gathered) =
      encode_operands-one address row.opcode emits.gathered row kind x (
        sym (ap (λ kinds. encode_operands address row kinds (x ∷ []) row.opcode) is)
        ∙ emits.operands_fit) in
    let word_is : word ≡ bit_or row.opcode bits =
      emits.is
      ∙ rw (no_implicit mnemonic (x ∷ []) emits.implicit plain emits.implicit_fit)
          (bit_or-zero emits.gathered)
      ∙ gathered in
    decoded_one table address word best kind x found same (
      rw word_is
        (decode-encode row best address row.opcode row.opcode 0 bits kind x k a t clear encodes))
