-- ===== src/Aarch64/Operand/Pcrel/RoundTrip.antt =====
-- src/isa/aarch64/operand.rs: decoding a word whose field was encoded gives the target back.
use armv8_encode.Base.{ℕ, ◌-◌, ◌*◌, ◌%◌, ◌^◌, bit_or, ◌≡◌, arith, ok}
use armv8_encode.Base.Bits.{field, field-bit_or_right}
use armv8_encode.Base.Word.{IsU64, shl_u32}
use armv8_encode.Base.Int.{
  ℤ, pos, negsuc, pos_part, neg_part, as_u32, difference, ◌/ℤ◌, ◌≤ℤ◌, ◌<ℤ◌, neg,
}
use armv8_encode.Base.Int.{shl_i64}
use armv8_encode.Aarch64.{Aarch64Opnd, DecodedOperand}
use armv8_encode.Aarch64.Operand.Pcrel.{encode_pcrel, imm14, imm19, imm26, branch_target}
use armv8_encode.Aarch64.Operand.Pcrel.Fields.{sign_extend_14, sign_extend_19, sign_extend_26}

-- What an accepted displacement is: a multiple of 4 that fits the field.
record Accepted (bits bit_offset target address out : ℕ) : Type 0 where
  imm : ℤ
  least : neg (pos (2 ^ (bits - 1))) ≤ℤ imm
  most : imm <ℤ pos (2 ^ (bits - 1))
  forwards : pos_part (difference target address) ≡ 4 * pos_part imm
  backwards : neg_part (difference target address) ≡ 4 * neg_part imm
  packed : out ≡ shl_u32 (as_u32 imm % 2 ^ bits) bit_offset

encode_pcrel-Accepted :
    (kind : Aarch64Opnd) (target address bits bit_offset out : ℕ)
    → encode_pcrel kind (DecodedOperand.branch_target target) address bits bit_offset ≡ ok out
    → Accepted bits bit_offset target address out
unfolding encode_pcrel
encode_pcrel-Accepted kind target address bits bit_offset out h = record {
  imm = difference target address /ℤ 4;
  least = ground arith;
  most = ground arith;
  forwards = ground arith;
  backwards = ground arith;
  packed = ground arith;
}

-- A displacement that reads back as the one encoded leads to the target.
lands :
    (imm : ℤ) (target address : ℕ)
    → IsU64 target
    → IsU64 address
    → neg (pos (2 ^ 25)) ≤ℤ imm
    → imm <ℤ pos (2 ^ 25)
    → pos_part (difference target address) ≡ 4 * pos_part imm
    → neg_part (difference target address) ≡ 4 * neg_part imm
    → branch_target address (shl_i64 imm 2) ≡ target
unfolding branch_target
lands (pos n) target address t a least most forwards backwards = ground arith
lands (negsuc n) target address t a least most forwards backwards = ground arith

module _ (kind : Aarch64Opnd) (target address base out : ℕ) where
  pub branch_target-imm26 :
      IsU64 target
      → IsU64 address
      → encode_pcrel kind (DecodedOperand.branch_target target) address 26 0 ≡ ok out
      → field 0 26 base ≡ 0
      → branch_target address (imm26 (bit_or base out)) ≡ target
  unfolding imm26
  branch_target-imm26 t a h clear =
      let e = encode_pcrel-Accepted kind target address 26 0 out h in
      let packed : field 0 26 out ≡ as_u32 e.imm % 2 ^ 26 = ground (arith, e.packed) in
      rw (field-bit_or_right 0 26 base out clear, packed, sign_extend_26 e.imm e.least e.most)
        (lands e.imm target address t a e.least e.most e.forwards e.backwards)

  pub branch_target-imm19 :
      IsU64 target
      → IsU64 address
      → encode_pcrel kind (DecodedOperand.branch_target target) address 19 5 ≡ ok out
      → field 5 19 base ≡ 0
      → branch_target address (imm19 (bit_or base out)) ≡ target
  unfolding imm19
  branch_target-imm19 t a h clear =
      let e = encode_pcrel-Accepted kind target address 19 5 out h in
      let packed : field 5 19 out ≡ as_u32 e.imm % 2 ^ 19 = ground (arith, e.packed) in
      rw (field-bit_or_right 5 19 base out clear, packed, sign_extend_19 e.imm e.least e.most)
        (lands e.imm target address t a (ground (arith, e.least)) (ground (arith, e.most))
          e.forwards e.backwards)

  pub branch_target-imm14 :
      IsU64 target
      → IsU64 address
      → encode_pcrel kind (DecodedOperand.branch_target target) address 14 5 ≡ ok out
      → field 5 14 base ≡ 0
      → branch_target address (imm14 (bit_or base out)) ≡ target
  unfolding imm14
  branch_target-imm14 t a h clear =
      let e = encode_pcrel-Accepted kind target address 14 5 out h in
      let packed : field 5 14 out ≡ as_u32 e.imm % 2 ^ 14 = ground (arith, e.packed) in
      rw (field-bit_or_right 5 14 base out clear, packed, sign_extend_14 e.imm e.least e.most)
        (lands e.imm target address t a (ground (arith, e.least)) (ground (arith, e.most))
          e.forwards e.backwards)
