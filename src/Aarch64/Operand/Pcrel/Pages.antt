-- ===== src/Aarch64/Operand/Pcrel/Pages.antt =====
-- src/isa/aarch64/operand.rs: the round trips of `adr` and `adrp`, whose field is split in two.
use armv8_encode.Base.{ℕ, ◌*◌, ◌%◌, ◌/◌, ◌^◌, bit_or, ◌≡◌, ◌∙◌, arith, ok}
use armv8_encode.Base.Bits.{field, bit_or_sum, field-bit_or_left, field-bit_or_right}
use armv8_encode.Base.Word.{IsU64, shl_u32, wrapping_sub}
use armv8_encode.Base.Int.{ℤ, pos, as_u32, as_i64, difference, ◌≤ℤ◌}
use armv8_encode.Base.Int.{◌<ℤ◌, neg, shl_i64, shr_i64, as_u64}
use armv8_encode.Aarch64.{Aarch64Opnd, DecodedOperand}
use armv8_encode.Aarch64.Operand.Pcrel.{encode_pcrel21, encode_adrp, imm21, branch_target}
use armv8_encode.Aarch64.Operand.Pcrel.{adrp_target, page_of, split_imm21}
use armv8_encode.Aarch64.Operand.Pcrel.Fields.{sign_extend_21}

low_half : (value : ℤ) → field 29 2 (split_imm21 value) ≡ as_u32 value % 2 ^ 21 % 2 ^ 2
low_half value =
    let e = as_u32 value % 2 ^ 21 in
    field-bit_or_left 29 2 (shl_u32 (e % 2 ^ 2) 29) (shl_u32 (e / 2 ^ 2 % 2 ^ 19) 5) (omega arith)
    ∙ omega arith

high_half : (value : ℤ) → field 5 19 (split_imm21 value) ≡ as_u32 value % 2 ^ 21 / 2 ^ 2
high_half value =
    let e = as_u32 value % 2 ^ 21 in
    field-bit_or_right 5 19 (shl_u32 (e % 2 ^ 2) 29) (shl_u32 (e / 2 ^ 2 % 2 ^ 19) 5) (omega arith)
    ∙ omega arith

joined : (e : ℕ) → bit_or (e / 2 ^ 2 * 2 ^ 2) (e % 2 ^ 2) ≡ e
joined e = bit_or_sum 2 (e / 2 ^ 2) (e % 2 ^ 2) (omega arith) ∙ omega arith

pub imm21-split_imm21 :
    (value : ℤ) (base : ℕ)
    → neg (pos (2 ^ 20)) ≤ℤ value
    → value <ℤ pos (2 ^ 20)
    → field 29 2 base ≡ 0
    → field 5 19 base ≡ 0
    → imm21 (bit_or base (split_imm21 value)) ≡ value
unfolding imm21
imm21-split_imm21 value base least most clear_low clear_high =
    rw
      (
        field-bit_or_right 29 2 base (split_imm21 value) clear_low,
        field-bit_or_right 5 19 base (split_imm21 value) clear_high,
        low_half value,
        high_half value,
        joined (as_u32 value % 2 ^ 21),
      )
      (sign_extend_21 value least most)

-- Shifting a whole number of pages right and left again keeps the word.
whole_pages :
    (delta : ℕ)
    → IsU64 delta
    → delta % 2 ^ 12 ≡ 0
    → as_u64 (shl_i64 (shr_i64 (as_i64 delta) 12) 12) ≡ delta
whole_pages delta d aligned = ground arith

module _ (kind : Aarch64Opnd) (target address base out : ℕ) where
  pub branch_target-imm21 :
      IsU64 target
      → IsU64 address
      → encode_pcrel21 kind (DecodedOperand.branch_target target) address ≡ ok out
      → field 29 2 base ≡ 0
      → field 5 19 base ≡ 0
      → branch_target address (imm21 (bit_or base out)) ≡ target
  unfolding encode_pcrel21 branch_target
  branch_target-imm21 t a h clear_low clear_high =
      let value = difference target address in
      let least : neg (pos (2 ^ 20)) ≤ℤ value = ground arith in
      let most : value <ℤ pos (2 ^ 20) = ground arith in
      let packed : out ≡ split_imm21 value = ground arith in
      rw (packed, imm21-split_imm21 value base least most clear_low clear_high) (ground arith)

  pub adrp_target-imm21 :
      IsU64 target
      → IsU64 address
      → encode_adrp kind (DecodedOperand.page_target target) address ≡ ok out
      → field 29 2 base ≡ 0
      → field 5 19 base ≡ 0
      → adrp_target address (bit_or base out) ≡ target
  unfolding encode_adrp adrp_target
  adrp_target-imm21 t a h clear_low clear_high =
      let value = shr_i64 (as_i64 (wrapping_sub target (page_of address))) 12 in
      let least : neg (pos (2 ^ 20)) ≤ℤ value = ground arith in
      let most : value <ℤ pos (2 ^ 20) = ground arith in
      let packed : out ≡ split_imm21 value = ground arith in
      let aligned : target % 2 ^ 12 ≡ 0 = ground arith in
      rw (packed, imm21-split_imm21 value base least most clear_low clear_high)
        (omega (
          arith,
          whole_pages (wrapping_sub target (page_of address)) (omega arith)
              (omega (arith, aligned)),
        ))
