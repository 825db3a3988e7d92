-- ===== src/Aarch64/Operand/Pcrel/Range.antt =====
-- src/isa/aarch64/operand.rs: which branch targets can be encoded, and the field of a decoded one.
use armv8_encode.Base.{ℕ, ◌+◌, ◌-◌, ◌*◌, ◌%◌, ◌^◌, ◌<◌, ◌≤◌, ◌≡◌, ◌↔◌, arith, ok}
use armv8_encode.Base.Bits.{field}
use armv8_encode.Base.Word.{shl_u32}
use armv8_encode.Base.Int.{ℤ, pos, pos_part, neg_part, as_u32, difference, ◌≤ℤ◌, ◌<ℤ◌}
use armv8_encode.Base.Int.{neg, ◌%ℤ◌, ◌/ℤ◌}
use armv8_encode.Aarch64.{Aarch64Opnd, DecodedOperand}
use armv8_encode.Aarch64.Operand.Pcrel.{encode_pcrel, imm26, imm19, imm14, branch_target}
use armv8_encode.Aarch64.Operand.Pcrel.{sign_extend}

-- A displacement that a field of `bits` bits can hold.
abbrev pub Encodable : ℕ → ℤ → Type 0
Encodable bits offset =
    (offset %ℤ 4 ≡ pos 0)
    × (neg (pos (4 * 2 ^ (bits - 1))) ≤ℤ offset)
    × (offset <ℤ pos (4 * 2 ^ (bits - 1)))

encodable :
    (kind : Aarch64Opnd) (target address bits bit_offset : ℕ)
    → Encodable bits (difference target address)
    → (out : ℕ) × (encode_pcrel kind (DecodedOperand.branch_target target) address bits bit_offset
        ≡ ok out)
unfolding encode_pcrel
encodable kind target address bits bit_offset (aligned, least, most) =
    (shl_u32 (as_u32 (difference target address /ℤ 4) % 2 ^ bits) bit_offset, ground arith)

encoded :
    (kind : Aarch64Opnd) (target address bits bit_offset out : ℕ)
    → encode_pcrel kind (DecodedOperand.branch_target target) address bits bit_offset ≡ ok out
    → Encodable bits (difference target address)
unfolding encode_pcrel
encoded kind target address bits bit_offset out h = ground arith

-- A branch can be encoded exactly when its displacement is a multiple of 4 that fits the field.
pub encode_pcrel_iff :
    (kind : Aarch64Opnd) (target address bits bit_offset : ℕ)
    → ((out : ℕ) × (encode_pcrel kind (DecodedOperand.branch_target target) address bits bit_offset
          ≡ ok out))
      ↔ Encodable bits (difference target address)
encode_pcrel_iff kind target address bits bit_offset = (
  λ (out, h). encoded kind target address bits bit_offset out h,
  encodable kind target address bits bit_offset,
)

-- The target stays in the address space.
abbrev pub NoWrap : ℕ → ℤ → Type 0
NoWrap address offset = (address + pos_part offset < 2 ^ 64) × (neg_part offset ≤ address)

-- A decoded branch is encoded to the field that it was decoded from.
module _ (kind : Aarch64Opnd) (address word : ℕ) where
  pub encode_pcrel-imm26 :
      NoWrap address (imm26 word)
      → encode_pcrel kind
          (DecodedOperand.branch_target (branch_target address (imm26 word)))
          address
          26
          0
        ≡ ok (field 0 26 word)
  unfolding encode_pcrel branch_target imm26 sign_extend
  encode_pcrel-imm26 (below, above) = ground arith

  pub encode_pcrel-imm19 :
      NoWrap address (imm19 word)
      → encode_pcrel kind
          (DecodedOperand.branch_target (branch_target address (imm19 word)))
          address
          19
          5
        ≡ ok (field 5 19 word * 2 ^ 5)
  unfolding encode_pcrel branch_target imm19 sign_extend
  encode_pcrel-imm19 (below, above) = ground arith

  pub encode_pcrel-imm14 :
      NoWrap address (imm14 word)
      → encode_pcrel kind
          (DecodedOperand.branch_target (branch_target address (imm14 word)))
          address
          14
          5
        ≡ ok (field 5 14 word * 2 ^ 5)
  unfolding encode_pcrel branch_target imm14 sign_extend
  encode_pcrel-imm14 (below, above) = ground arith
