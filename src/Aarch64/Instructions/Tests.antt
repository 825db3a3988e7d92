-- ===== src/Aarch64/Instructions/Tests.antt =====
-- src/isa/aarch64/mod.rs and table.rs: the theorems at a table of two rows.
use armv8_encode.Base.{none, arith}
use armv8_encode.Aarch64.Table.{best_match, row_applies, is_bitfield_alias}
use armv8_encode.Base.{◌≤◌, ◌≡◌, refl, inl, inr, ap, true, List, [], ◌∷◌, ◌∈◌, some, ok}
use armv8_encode.Aarch64.{
  Aarch64Mnemonic, Aarch64Opnd, Aarch64Opcode, Aarch64InsnClass, DecodedOperand,
}
use armv8_encode.Aarch64.Mnemonic.{parse, is_same_mnemonic, table_name}
use armv8_encode.Aarch64.Operand.Codec.{encode}
use armv8_encode.Aarch64.Operand.Pcrel.{encode_pcrel}
use armv8_encode.Aarch64.Table.{match_opcode, alias_applies, count_ones, opcodes_for_mnemonic}
use armv8_encode.Aarch64.Table.Matching.{Matched, match_opcode_lem}
use armv8_encode.Aarch64.Instructions.{
  InstructionTemplate, encode_instruction, encode_operands, try_row, try_rows,
}
use armv8_encode.Aarch64.Instructions.{alias_fixup, alias_implicit_bits}
use armv8_encode.Aarch64.Table.Ranges.{operand_bit_ranges}
use armv8_encode.Aarch64.Instructions.{decode_instruction}
use armv8_encode.Aarch64.Instructions.RoundTrip.{OneForm, decode_instruction-encode_instruction}
use armv8_encode.Base.{length}
use armv8_encode.Aarch64.Instructions.Packed.{IsPacked, encode_instruction-IsPacked}
use armv8_encode.Aarch64.Instructions.Encoded.{match_opcode-encode_instruction}
use armv8_encode.Base.{◌↔◌}
use armv8_encode.Aarch64.Operand.Registers.Encode.{encode_gp_register}
use armv8_encode.Aarch64.Instructions.Selection.{FirstToEncode, encode_instruction_iff}

abbrev row_b : Aarch64Opcode
row_b = record {
  name = "b";
  opcode = 0x14000000;
  mask = 0xfc000000;
  iclass = Aarch64InsnClass.branch_imm;
  operands = Aarch64Opnd.addr_pcrel26 ∷ [];
  flags = 0;
}

abbrev row_bl : Aarch64Opcode
row_bl = record row_b { name = "bl"; opcode = 0x94000000 }

abbrev table : List Aarch64Opcode
table = row_bl ∷ row_b ∷ []

abbrev branch_back : InstructionTemplate
branch_back = record {
  address = 0x1000;
  mnemonic = Aarch64Mnemonic.b;
  operands = DecodedOperand.branch_target 0xffc ∷ [];
}

encode_branch_back : encode_instruction table branch_back ≡ ok 0x17ffffff
unfolding encode_instruction opcodes_for_mnemonic parse table_name try_rows try_row encode_operands
    encode encode_pcrel alias_implicit_bits alias_fixup
encode_branch_back = refl

match_opcode_lem_example : Matched 0x17ffffff table (match_opcode table 0x17ffffff)
match_opcode_lem_example = match_opcode_lem table 0x17ffffff

encode_instruction-IsPacked_example :
    (row : Aarch64Opcode) × (row ∈ table)
    × (is_same_mnemonic (parse row.name) Aarch64Mnemonic.b ≡ true)
    × (length row.operands ≡ 1)
    × IsPacked branch_back row 0x17ffffff
encode_instruction-IsPacked_example =
    encode_instruction-IsPacked table branch_back 0x17ffffff encode_branch_back

no_conditions :
    (row : Aarch64Opcode)
    → row ∈ table
    → is_same_mnemonic (parse row.name) Aarch64Mnemonic.b ≡ true
    → alias_applies 0x17ffffff row ≡ true
unfolding alias_applies
no_conditions row (inl e) same = ap (alias_applies 0x17ffffff) e
no_conditions row (inr (inl e)) same = ap (alias_applies 0x17ffffff) e
no_conditions row (inr (inr m)) same = absurd m

match_opcode-encode_instruction_example :
    (row best : Aarch64Opcode) × (row ∈ table)
    × (is_same_mnemonic (parse row.name) Aarch64Mnemonic.b ≡ true)
    × (match_opcode table 0x17ffffff ≡ some best)
    × (count_ones row.mask ≤ count_ones best.mask)
match_opcode-encode_instruction_example =
    match_opcode-encode_instruction table branch_back 0x17ffffff encode_branch_back no_conditions

alias_fixup-b : alias_fixup Aarch64Mnemonic.b ≡ none
unfolding alias_fixup table_name
alias_fixup-b = refl

OneForm-table : OneForm table Aarch64Mnemonic.b Aarch64Opnd.addr_pcrel26
unfolding operand_bit_ranges
OneForm-table row (inl e) same = rw e (refl, (refl, tt))
OneForm-table row (inr (inl e)) same = rw e (refl, (refl, tt))
OneForm-table row (inr (inr m)) same = absurd m

match_opcode-table : match_opcode table 0x17ffffff ≡ some row_b
unfolding match_opcode best_match row_applies alias_applies is_bitfield_alias
match_opcode-table = refl

decode_instruction-encode_instruction_example :
    decode_instruction table 0x1000 0x17ffffff
    ≡ ok (record {
      address = 0x1000;
      word = 0x17ffffff;
      mnemonic = parse "b";
      operands = DecodedOperand.branch_target 0xffc ∷ [];
    })
decode_instruction-encode_instruction_example =
    decode_instruction-encode_instruction table Aarch64Mnemonic.b Aarch64Opnd.addr_pcrel26
      (DecodedOperand.branch_target 0xffc) 0x1000 0x17ffffff row_b tt (omega arith) (omega arith)
      alias_fixup-b OneForm-table encode_branch_back match_opcode-table refl

-- A register-branch row of the same mnemonic in front, which refuses the target.
abbrev row_b_register : Aarch64Opcode
row_b_register = record row_b { opcode = 0xd61f0000; operands = Aarch64Opnd.rn ∷ [] }

encode_behind_refusal : encode_instruction (row_b_register ∷ table) branch_back ≡ ok 0x17ffffff
unfolding encode_instruction opcodes_for_mnemonic parse table_name try_rows try_row encode_operands
    encode encode_pcrel encode_gp_register alias_implicit_bits alias_fixup
encode_behind_refusal = refl

encode_instruction_iff_example :
    (encode_instruction (row_b_register ∷ table) branch_back ≡ ok 0x17ffffff)
    ↔ FirstToEncode branch_back
        (opcodes_for_mnemonic (row_b_register ∷ table) Aarch64Mnemonic.b)
        0x17ffffff
encode_instruction_iff_example =
    encode_instruction_iff branch_back (row_b_register ∷ table) 0x17ffffff
