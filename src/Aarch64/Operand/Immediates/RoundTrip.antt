-- ===== src/Aarch64/Operand/Immediates/RoundTrip.antt =====
-- src/isa/aarch64/operand.rs: decoding an encoded immediate gives it back.
use armv8_encode.Base.{ℕ, ◌+◌, ◌*◌, ◌/◌, ◌%◌, ◌^◌, ◌≤◌, ◌<◌, bit_or, ◌≡◌, refl, sym, ap}
use armv8_encode.Base.{◌∙◌, arith, ok}
use armv8_encode.Base.Bits.{field, field-bit_or_left, field-bit_or_right, field-shl_u32, bit_or_sum}
use armv8_encode.Base.Word.{shl_u32}
use armv8_encode.Base.Int.{ℤ, pos, negsuc, pos_part, neg_part}
use armv8_encode.Aarch64.{Aarch64Opnd, DecodedOperand}
use armv8_encode.Aarch64.Operand.Immediates.Encode.{
  encode_raw_immediate, encode_bit_num, encode_uimm7,
}
use armv8_encode.Aarch64.Operand.Immediates.Encode.{
  encode_fbits, encode_aimm, encode_half, half_field,
}
use armv8_encode.Aarch64.Operand.Immediates.{bit_num, uimm7, fbits, aimm, half}

record Packed (x : DecodedOperand) (bound : ℕ) (pack : ℕ → ℕ) (bits : ℕ) : Type 0 where
  value : ℕ
  is : x ≡ DecodedOperand.immediate (pos value)
  fits : value < bound
  packed : bits ≡ pack value

encode_raw_immediate-Packed :
    (kind : Aarch64Opnd) (x : DecodedOperand) (lo width bits : ℕ)
    → encode_raw_immediate kind x lo width ≡ ok bits
    → Packed x (2 ^ width) (λ v. shl_u32 v lo) bits
unfolding encode_raw_immediate
encode_raw_immediate-Packed kind (DecodedOperand.immediate (pos v)) lo width bits h = record {
  value = v;
  is = refl;
  fits = ground arith;
  packed = ground arith;
}
encode_raw_immediate-Packed kind (DecodedOperand.immediate (negsuc v)) lo width bits h =
    absurd (ground arith)
encode_raw_immediate-Packed kind x lo width bits h = absurd (ground arith)

encode_bit_num-Packed :
    (kind : Aarch64Opnd) (x : DecodedOperand) (bits : ℕ)
    → encode_bit_num kind x ≡ ok bits
    → Packed x 64 (λ v. bit_or (shl_u32 (v / 2 ^ 5 % 2 * 2 ^ 5) 26) (shl_u32 (v % 2 ^ 5) 19)) bits
unfolding encode_bit_num
encode_bit_num-Packed kind (DecodedOperand.immediate (pos v)) bits h = record {
  value = v;
  is = refl;
  fits = ground arith;
  packed = ground arith;
}
encode_bit_num-Packed kind (DecodedOperand.immediate (negsuc v)) bits h = absurd (ground arith)
encode_bit_num-Packed kind x bits h = absurd (ground arith)

encode_uimm7-Packed :
    (kind : Aarch64Opnd) (x : DecodedOperand) (bits : ℕ)
    → encode_uimm7 kind x ≡ ok bits
    → Packed x 128 (λ v. bit_or (shl_u32 (v / 2 ^ 3) 8) (shl_u32 (v % 2 ^ 3) 5)) bits
unfolding encode_uimm7
encode_uimm7-Packed kind (DecodedOperand.immediate (pos v)) bits h = record {
  value = v;
  is = refl;
  fits = ground arith;
  packed = ground arith;
}
encode_uimm7-Packed kind (DecodedOperand.immediate (negsuc v)) bits h = absurd (ground arith)
encode_uimm7-Packed kind x bits h = absurd (ground arith)

-- The value and the shift of a half word.
half_fields :
    (kind : Aarch64Opnd) (value : ℤ) (shift bits : ℕ)
    → half_field kind value shift ≡ ok bits
    → (field 5 16 bits ≡ pos_part value) × (neg_part value ≡ 0) × (field 21 2 bits * 16 ≡ shift)
half_fields kind (pos v) shift bits h =
    let packed : bits ≡ bit_or (shl_u32 v 5) (shl_u32 (shift / 16) 21) = ground arith in
    let value_fits : v < 2 ^ 16 = ground arith in
    let shift_fits : (shift % 16 ≡ 0) × (shift < 64) = (ground arith, ground arith) in
    (
      ap (field 5 16) packed
          ∙ field-bit_or_left 5 16 (shl_u32 v 5) (shl_u32 (shift / 16) 21) (omega arith)
          ∙ omega arith,
      refl,
      ap (λ (w : ℕ). field 21 2 w * 16) packed
          ∙ ap (λ (f : ℕ). f * 16)
              (field-bit_or_right 21 2 (shl_u32 v 5) (shl_u32 (shift / 16) 21) (omega arith))
          ∙ omega (arith, shift_fits),
    )
half_fields kind (negsuc v) shift bits h = absurd (ground arith)

natural : (z : ℤ) → neg_part z ≡ 0 → pos (pos_part z) ≡ z
natural (pos n) whole = refl
natural (negsuc n) whole = absurd (omega (arith, whole))

-- The two halves of a number, each read back from its field.
module _ (base : ℕ) where
  pub bit_num-encode_bit_num :
      (kind : Aarch64Opnd) (x : DecodedOperand) (bits : ℕ)
      → encode_bit_num kind x ≡ ok bits
      → field 19 5 base ≡ 0
      → field 31 1 base ≡ 0
      → DecodedOperand.immediate (bit_num (bit_or base bits)) ≡ x
  unfolding bit_num
  bit_num-encode_bit_num kind x bits h clear_low clear_high =
      let p = encode_bit_num-Packed kind x bits h in
      let e = p.value in
      let high = shl_u32 (e / 2 ^ 5 % 2 * 2 ^ 5) 26 in
      let low = shl_u32 (e % 2 ^ 5) 19 in
      let read_high : field 31 1 bits ≡ e / 2 ^ 5 =
        ap (field 31 1) p.packed
        ∙ field-bit_or_left 31 1 high low (omega arith)
        ∙ omega (arith, p.fits) in
      let read_low : field 19 5 bits ≡ e % 2 ^ 5 =
        ap (field 19 5) p.packed
        ∙ field-bit_or_right 19 5 high low (omega arith)
        ∙ omega (arith, p.fits) in
      rw
        (
          field-bit_or_right 31 1 base bits clear_high,
          field-bit_or_right 19 5 base bits clear_low,
          read_high,
          read_low,
          bit_or_sum 5 (e / 2 ^ 5) (e % 2 ^ 5) (omega arith),
        )
        (ap (λ n. DecodedOperand.immediate (pos n)) (omega arith) ∙ sym p.is)

  pub uimm7-encode_uimm7 :
      (kind : Aarch64Opnd) (x : DecodedOperand) (bits : ℕ)
      → encode_uimm7 kind x ≡ ok bits
      → field 5 3 base ≡ 0
      → field 8 4 base ≡ 0
      → DecodedOperand.immediate (uimm7 (bit_or base bits)) ≡ x
  unfolding uimm7
  uimm7-encode_uimm7 kind x bits h clear_low clear_high =
      let p = encode_uimm7-Packed kind x bits h in
      let e = p.value in
      let high = shl_u32 (e / 2 ^ 3) 8 in
      let low = shl_u32 (e % 2 ^ 3) 5 in
      let read_high : field 8 4 bits ≡ e / 2 ^ 3 =
        ap (field 8 4) p.packed
        ∙ field-bit_or_left 8 4 high low (omega (arith, p.fits))
        ∙ omega (arith, p.fits) in
      let read_low : field 5 3 bits ≡ e % 2 ^ 3 =
        ap (field 5 3) p.packed
        ∙ field-bit_or_right 5 3 high low (omega arith)
        ∙ omega (arith, p.fits) in
      rw
        (
          field-bit_or_right 8 4 base bits clear_high,
          field-bit_or_right 5 3 base bits clear_low,
          read_high,
          read_low,
          bit_or_sum 3 (e / 2 ^ 3) (e % 2 ^ 3) (omega arith),
        )
        (ap (λ n. DecodedOperand.immediate (pos n)) (omega arith) ∙ sym p.is)

  -- A number in one field.
  pub field-encode_raw_immediate :
      (kind : Aarch64Opnd) (x : DecodedOperand) (lo width bits : ℕ)
      → lo + width ≤ 32
      → encode_raw_immediate kind x lo width ≡ ok bits
      → field lo width base ≡ 0
      → DecodedOperand.immediate (pos (field lo width (bit_or base bits))) ≡ x
  field-encode_raw_immediate kind x lo width bits room h clear =
      let p = encode_raw_immediate-Packed kind x lo width bits h in
      rw
        (
          field-bit_or_right lo width base bits clear,
          p.packed,
          field-shl_u32 lo width p.value room p.fits,
        )
        (sym p.is)

  pub fbits-encode_fbits :
      (kind : Aarch64Opnd) (x : DecodedOperand) (bits : ℕ)
      → encode_fbits kind x ≡ ok bits
      → field 10 6 base ≡ 0
      → DecodedOperand.immediate (fbits (bit_or base bits)) ≡ x
  unfolding fbits encode_fbits
  fbits-encode_fbits kind (DecodedOperand.immediate (pos v)) bits h clear =
      rw (field-bit_or_right 10 6 base bits clear) (ap DecodedOperand.immediate (ground arith))
  fbits-encode_fbits kind (DecodedOperand.immediate (negsuc v)) bits h clear = absurd (ground arith)
  fbits-encode_fbits kind x bits h clear = absurd (ground arith)

  pub aimm-encode_aimm :
      (kind : Aarch64Opnd) (x : DecodedOperand) (bits : ℕ)
      → encode_aimm kind x ≡ ok bits
      → field 10 12 base ≡ 0
      → field 22 1 base ≡ 0
      → DecodedOperand.immediate (aimm (bit_or base bits)) ≡ x
  unfolding aimm encode_aimm
  aimm-encode_aimm kind (DecodedOperand.immediate (pos v)) bits h clear clear_shift =
      rw (field-bit_or_right 10 12 base bits clear, field-bit_or_right 22 1 base bits clear_shift)
        (ap DecodedOperand.immediate (ground (arith, bit_or_sum 22 1 (shl_u32 (v / 0x1000) 10))))
  aimm-encode_aimm kind (DecodedOperand.immediate (negsuc v)) bits h clear clear_shift =
      absurd (ground arith)
  aimm-encode_aimm kind x bits h clear clear_shift = absurd (ground arith)

  pub half-encode_half :
      (kind : Aarch64Opnd) (x : DecodedOperand) (bits : ℕ)
      → encode_half kind x ≡ ok bits
      → field 5 16 base ≡ 0
      → field 21 2 base ≡ 0
      → DecodedOperand.shifted_immediate (half (bit_or base bits)) ≡ x
  unfolding half encode_half
  half-encode_half kind (DecodedOperand.shifted_immediate imm) bits h clear clear_shift =
      let (value, whole, shift) = half_fields kind imm.value imm.shift bits h in
      rw
        (
          field-bit_or_right 5 16 base bits clear,
          field-bit_or_right 21 2 base bits clear_shift,
          value,
          shift,
        )
        (ap (λ v. DecodedOperand.shifted_immediate (record { value = v; shift = imm.shift }))
          (natural imm.value whole))
  half-encode_half kind x bits h clear clear_shift = absurd (ground arith)
