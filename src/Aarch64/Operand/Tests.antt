-- ===== src/Aarch64/Operand/Tests.antt =====
-- src/isa/aarch64/operand.rs: the theorems at concrete operands.
use armv8_encode.Base.{◌↔◌, ℕ, bit_or, ◌≡◌, refl, arith, [], ◌∷◌, some, ok}
use armv8_encode.Base.Bits.{field}
use armv8_encode.Base.Partial.{first_some}
use armv8_encode.Base.Int.{pos, difference, ◌%ℤ◌, ◌/ℤ◌, shl_i64}
use armv8_encode.Aarch64.{Aarch64Opnd, Aarch64Opcode, Aarch64InsnClass, DecodedOperand, VectorList}
use armv8_encode.Aarch64.{
  AddressingMode, MemoryOffset, MemoryOperand, RegisterClass, VectorArrangement,
}
use armv8_encode.Aarch64.{VectorElementSize}
use armv8_encode.Aarch64.Operand.Codec.{decode, encode}
use armv8_encode.Aarch64.Operand.Immediates.Logical.{logical_immediate, encode_logical_immediate}
use armv8_encode.Aarch64.Operand.Immediates.Logical.{
  fields_immediate, highest_set_bit_below, bitmask,
}
use armv8_encode.Aarch64.Operand.Immediates.Logical.{ones, rotate_right_with_width, replicate_from}
use armv8_encode.Aarch64.Operand.Immediates.Logical.{replicate, logical_candidate, find_logical}
use armv8_encode.Aarch64.Operand.Immediates.Search.{encode_logical_immediate_iff}
use armv8_encode.Aarch64.Operand.Immediates.Search.{logical_immediate-encode}
use armv8_encode.Aarch64.Operand.Memory.{simm7_pair_offset, pair_scale}
use armv8_encode.Aarch64.Operand.Memory.Encode.{encode_addr_simm7}
use armv8_encode.Aarch64.Operand.Memory.Pairs.{simm7_pair_offset-encode_addr_simm7}
use armv8_encode.Aarch64.Operand.Pcrel.{encode_pcrel, branch_target, imm26, sign_extend}
use armv8_encode.Aarch64.Operand.Pcrel.Range.{Encodable, NoWrap, encode_pcrel_iff}
use armv8_encode.Aarch64.Operand.Recoding.{encode-decode}
use armv8_encode.Aarch64.{ShiftKind}
use armv8_encode.Aarch64.Operand.Registers.Encode.{encode_rm_shifted}
use armv8_encode.Aarch64.Operand.Registers.Recovering.{decode-encode_register}
use armv8_encode.Aarch64.Operand.RoundTrip.{IsClear, decode-encode}
use armv8_encode.Aarch64.Operand.Vectors.{simd_ldst_element}
use armv8_encode.Aarch64.Operand.Vectors.Encode.{
  element_size_from_arrangement, encode_vector_element_list, encode_simd_ldst_element,
}
use armv8_encode.Aarch64.Operand.Vectors.Lanes.{simd_ldst_element-encode_vector_element_list}
use armv8_encode.Aarch64.Table.Ranges.{operand_bit_ranges}

abbrev row_b : Aarch64Opcode
row_b = record {
  name = "b";
  opcode = 0x14000000;
  mask = 0xfc000000;
  iclass = Aarch64InsnClass.branch_imm;
  operands = Aarch64Opnd.addr_pcrel26 ∷ [];
  flags = 0;
}

abbrev back_one : DecodedOperand
back_one = DecodedOperand.branch_target 0xffc

encode-back_one :
    encode Aarch64Opnd.addr_pcrel26 back_one
      (record { base_word = 0x14000000; address = 0x1000; opcode = row_b })
    ≡ ok 0x3ffffff
unfolding encode encode_pcrel
encode-back_one = refl

IsClear-row_b : IsClear Aarch64Opnd.addr_pcrel26 0x14000000
unfolding operand_bit_ranges
IsClear-row_b = (refl, tt)

decode-encode_example :
    decode Aarch64Opnd.addr_pcrel26 (record {
      word = bit_or 0x14000000 0x3ffffff;
      address = 0x1000;
      opcode = row_b;
      operand_index = 0;
    })
    ≡ ok back_one
decode-encode_example =
    decode-encode row_b row_b 0x1000 0x14000000 0x14000000 0 0x3ffffff Aarch64Opnd.addr_pcrel26
      back_one tt (omega arith) (omega arith) IsClear-row_b encode-back_one

decode-back_one :
    decode Aarch64Opnd.addr_pcrel26
      (record { word = 0x17ffffff; address = 0x1000; opcode = row_b; operand_index = 0 })
    ≡ ok back_one
unfolding decode branch_target imm26 sign_extend
decode-back_one = refl

room : NoWrap 0x1000 (imm26 0x17ffffff)
unfolding imm26 sign_extend
room = (omega arith, omega arith)

encode-decode_example :
    encode Aarch64Opnd.addr_pcrel26 back_one
      (record { base_word = 0; address = 0x1000; opcode = row_b })
    ≡ ok 0x3ffffff
unfolding operand_bit_ranges
encode-decode_example =
    encode-decode Aarch64Opnd.addr_pcrel26 back_one row_b 0x1000 0x17ffffff 0 0 tt room
      decode-back_one

-- The least displacement of a conditional branch.
encode_pcrel_iff_example :
    ((out : ℕ) × (encode_pcrel Aarch64Opnd.addr_pcrel19
          (DecodedOperand.branch_target 0)
          0x100000
          19
          5
        ≡ ok out))
    ↔ Encodable 19 (difference 0 0x100000)
encode_pcrel_iff_example = encode_pcrel_iff Aarch64Opnd.addr_pcrel19 0 0x100000 19 5

-- `ldp w0, w1, [sp, #8]`, whose offset decodes to 4.
abbrev row_ldp_w : Aarch64Opcode
row_ldp_w = record {
  name = "ldp";
  opcode = 0x29400000;
  mask = 0x7fc00000;
  iclass = Aarch64InsnClass.ldstpair_off;
  operands = Aarch64Opnd.rt ∷ Aarch64Opnd.rt2 ∷ Aarch64Opnd.addr_simm7 ∷ [];
  flags = 0;
}

abbrev at_sp_8 : MemoryOperand
at_sp_8 = record {
  base = record { class = RegisterClass.x_or_sp; index = 31 };
  offset = MemoryOffset.immediate (pos 8);
  mode = AddressingMode.offset;
}

encode_at_sp_8 :
    encode_addr_simm7 Aarch64Opnd.addr_simm7 (DecodedOperand.memory at_sp_8) row_ldp_w ≡ ok 0x83e0
unfolding encode_addr_simm7
encode_at_sp_8 = refl

simm7_pair_offset-encode_addr_simm7_example :
    (pos 8 %ℤ 8 ≡ pos 0)
    × (simm7_pair_offset (bit_or 0x29400400 0x83e0) ≡ shl_i64 (pos 8 /ℤ 8) (pair_scale 0x29400400))
simm7_pair_offset-encode_addr_simm7_example =
    simm7_pair_offset-encode_addr_simm7 Aarch64Opnd.addr_simm7 at_sp_8 (pos 8) row_ldp_w 0x29400400
      0x83e0 refl refl encode_at_sp_8

decoded_offset : simm7_pair_offset 0x294087e0 ≡ pos 4
unfolding simm7_pair_offset sign_extend pair_scale
decoded_offset = refl

-- The byte lane 5, whose two low bits are lost.
abbrev lane_5 : VectorList
lane_5 = record { first = 2; count = 1; arrangement = VectorArrangement.b16; element = some 5 }

encode_lane_5 :
    encode_vector_element_list Aarch64Opnd.let_ (DecodedOperand.vector_list lane_5) ≡ ok 0x1c02
unfolding encode_vector_element_list encode_simd_ldst_element element_size_from_arrangement
encode_lane_5 = refl

simd_ldst_element-encode_vector_element_list_example :
    simd_ldst_element 0x1c02 ≡ (VectorElementSize.b, 7)
unfolding element_size_from_arrangement
simd_ldst_element-encode_vector_element_list_example =
    simd_ldst_element-encode_vector_element_list Aarch64Opnd.let_ lane_5 5 0x1c02 refl encode_lane_5

-- The 32-bit value 0, of which no word is meant to be the encoding.
encode_logical_immediate_iff_example :
    ((bits : ℕ) × (encode_logical_immediate Aarch64Opnd.limm
          (DecodedOperand.immediate (pos 0))
          0x12000000
        ≡ ok bits))
    ↔ ((w : ℕ) × (field 31 1 w ≡ field 31 1 0x12000000) × (logical_immediate w ≡ some (pos 0)))
encode_logical_immediate_iff_example =
    encode_logical_immediate_iff Aarch64Opnd.limm (pos 0) 0x12000000

-- A word that stands for 0 nevertheless: `n` is set in a row for 32 bits.
zero_word : logical_immediate 0x12581c00 ≡ some (pos 0)
unfolding logical_immediate fields_immediate highest_set_bit_below bitmask ones
    rotate_right_with_width replicate replicate_from
zero_word = refl

zero_is_encoded :
    (bits : ℕ) × (encode_logical_immediate Aarch64Opnd.limm
        (DecodedOperand.immediate (pos 0))
        0x12000000
      ≡ ok bits)
zero_is_encoded = encode_logical_immediate_iff_example.1 (0x12581c00, refl, zero_word)

encode_255 :
    encode_logical_immediate Aarch64Opnd.limm (DecodedOperand.immediate (pos 255)) 0x92000000
    ≡ ok 0x401c00
unfolding encode_logical_immediate find_logical first_some logical_candidate logical_immediate
    fields_immediate highest_set_bit_below bitmask replicate replicate_from rotate_right_with_width
    ones
encode_255 = refl

logical_immediate-encode_example : logical_immediate (bit_or 0x92000000 0x401c00) ≡ some (pos 255)
logical_immediate-encode_example =
    logical_immediate-encode Aarch64Opnd.limm (pos 255) 0x92000000 0x92000000 0x401c00 encode_255
      refl refl

-- `w3, lsl #4` in the row of `add` for 32 bits.
abbrev shifted_w3 : DecodedOperand
shifted_w3 = DecodedOperand.shifted_register (record {
  register = record { class = RegisterClass.w; index = 3 };
  shift = record { kind = ShiftKind.lsl; amount = 4 };
})

encode-shifted_w3 :
    encode Aarch64Opnd.rm_sft shifted_w3
      (record { base_word = 0x0b000000; address = 0; opcode = row_b })
    ≡ ok 0x31000
unfolding encode encode_rm_shifted
encode-shifted_w3 = refl

IsClear-rm_sft : IsClear Aarch64Opnd.rm_sft 0x0b000000
unfolding operand_bit_ranges
IsClear-rm_sft = (refl, (refl, (refl, tt)))

decode-encode_register_example :
    decode Aarch64Opnd.rm_sft
      (record { word = bit_or 0x0b000000 0x31000; address = 0; opcode = row_b; operand_index = 2 })
    ≡ ok shifted_w3
decode-encode_register_example =
    decode-encode_register row_b 0 0x0b000000 0x0b000000 2 0x31000 Aarch64Opnd.rm_sft shifted_w3 tt
      IsClear-rm_sft refl encode-shifted_w3
