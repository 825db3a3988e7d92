-- ===== src/Aarch64/Operand/Registers/RoundTrip.antt =====
-- src/isa/aarch64/operand.rs: register operands, encoded and decoded again.
use armv8_encode.Base.{ℕ, ◌⊎◌, ◌<◌, bit_or, ◌≡◌, refl, sym, ap, ◌∙◌, arith, ltb, ◌||◌}
use armv8_encode.Base.{Bool-cases, Option-cases, some, inl, inr, ok}
use armv8_encode.Base.Bits.{
  field, field-bit_or_right, field-bit_or_left, field-bit_or_three, zero-bit_or, bit_or-zero,
}
use armv8_encode.Base.Word.{shl_u32}
use armv8_encode.Aarch64.{
  Aarch64Opnd, DecodedOperand, RegisterClass, Register, ExtendKind, ShiftKind,
}
use armv8_encode.Aarch64.{ExtendedRegister, ShiftedRegister}
use armv8_encode.Aarch64.Operand.{rm, gp_reg, gp_or_sp, x_or_sp, x_reg, w_reg}
use armv8_encode.Aarch64.Operand.Registers.{
  rm_extended, rm_shifted, extend_kind, extended_reg, shift_kind,
}
use armv8_encode.Aarch64.Operand.Registers.Encode.{
  encode_rm_extended, option_bits, encode_rm_shifted,
}
use armv8_encode.Aarch64.Operand.Registers.Encode.{
  max_shift, shift_bits, checked_shift, sf_bit, sf_bit_or_sp,
}
use armv8_encode.Aarch64.Operand.Registers.Encode.{encode_gp_or_sp_register}

-- What the decoder reads for an accepted option.
record Reads (extend : ExtendKind) (class : RegisterClass) (option : ℕ) : Type 0 where
  extension : extend_kind option ≡ extend
  register : (index : ℕ) → extended_reg extend index ≡ record { class = class; index = index }
  fits : option < 8

option_bits-Reads :
    (extend : ExtendKind) (class : RegisterClass) (option : ℕ)
    → option_bits extend class ≡ some option
    → Reads extend class option
unfolding x_reg w_reg
option_bits-Reads ExtendKind.uxtb RegisterClass.w option h = record {
  extension = ground arith;
  register = λ index. refl;
  fits = ground arith;
}
option_bits-Reads ExtendKind.uxth RegisterClass.w option h = record {
  extension = ground arith;
  register = λ index. refl;
  fits = ground arith;
}
option_bits-Reads ExtendKind.uxtw RegisterClass.w option h = record {
  extension = ground arith;
  register = λ index. refl;
  fits = ground arith;
}
option_bits-Reads ExtendKind.uxtx RegisterClass.x option h = record {
  extension = ground arith;
  register = λ index. refl;
  fits = ground arith;
}
option_bits-Reads ExtendKind.sxtb RegisterClass.w option h = record {
  extension = ground arith;
  register = λ index. refl;
  fits = ground arith;
}
option_bits-Reads ExtendKind.sxth RegisterClass.w option h = record {
  extension = ground arith;
  register = λ index. refl;
  fits = ground arith;
}
option_bits-Reads ExtendKind.sxtw RegisterClass.w option h = record {
  extension = ground arith;
  register = λ index. refl;
  fits = ground arith;
}
option_bits-Reads ExtendKind.sxtx RegisterClass.x option h = record {
  extension = ground arith;
  register = λ index. refl;
  fits = ground arith;
}
option_bits-Reads extend class option h = absurd (ground arith)

-- Three fields of a word, packed as the encoders do.
packed-fields :
    (index option amount : ℕ)
    → index < 32
    → option < 8
    → amount < 8
    → let bits = bit_or (bit_or (shl_u32 index 16) (shl_u32 option 13)) (shl_u32 amount 10) in
      (field 16 5 bits ≡ index) × (field 13 3 bits ≡ option) × (field 10 3 bits ≡ amount)
packed-fields index option amount index_fits option_fits amount_fits = (
  field-bit_or_three 16 5 (shl_u32 index 16) (shl_u32 option 13) (shl_u32 amount 10) index 0 0
        (omega arith) (omega arith) (omega arith)
      ∙ simp (bit_or-zero) refl,
  field-bit_or_three 13 3 (shl_u32 index 16) (shl_u32 option 13) (shl_u32 amount 10) 0 option 0
        (omega arith) (omega arith) (omega arith)
      ∙ simp (bit_or-zero, zero-bit_or) refl,
  field-bit_or_three 10 3 (shl_u32 index 16) (shl_u32 option 13) (shl_u32 amount 10) 0 0 amount
        (omega arith) (omega arith) (omega arith)
      ∙ simp (bit_or-zero, zero-bit_or) refl,
)

pub rm_extended-encode_rm_extended :
    (kind : Aarch64Opnd) (e : ExtendedRegister) (base bits : ℕ)
    → field 16 5 base ≡ 0
    → field 13 3 base ≡ 0
    → field 10 3 base ≡ 0
    → encode_rm_extended kind (DecodedOperand.extended_register e) ≡ ok bits
    → rm_extended (bit_or base bits) ≡ e
unfolding encode_rm_extended rm_extended rm
rm_extended-encode_rm_extended kind e base bits clear_register clear_option clear_amount h =
    elim (Bool-cases (ltb 31 e.register.index || ltb 4 e.amount)) [
      | inl refused ↦ absurd (ground arith)
      | inr fine ↦ elim (Option-cases (option_bits e.extend e.register.class)) [
        | inl none_e ↦ absurd (ground arith)
        | inr (option, is) ↦
            let r = option_bits-Reads e.extend e.register.class option is in
            let (index_eq, option_eq, amount_eq) =
              packed-fields e.register.index option e.amount (ground arith) r.fits (ground arith) in
            let packed : bits
                ≡ bit_or (bit_or (shl_u32 e.register.index 16) (shl_u32 option 13))
                    (shl_u32 e.amount 10) =
              ground arith in
            rw
              (
                field-bit_or_right 16 5 base bits clear_register,
                field-bit_or_right 13 3 base bits clear_option,
                field-bit_or_right 10 3 base bits clear_amount,
                packed,
                index_eq,
                option_eq,
                amount_eq,
                r.extension,
                r.register e.register.index,
              )
              refl
      ]
    ]

-- The three fields of a shifted register, which leave the top bit clear.
shifted-fields :
    (index shift amount : ℕ)
    → index < 32
    → shift < 4
    → amount < 64
    → let bits = bit_or (bit_or (shl_u32 index 16) (shl_u32 shift 22)) (shl_u32 amount 10) in
      (field 16 5 bits ≡ index)
      × (field 22 2 bits ≡ shift)
      × (field 10 6 bits ≡ amount)
      × (field 31 1 bits ≡ 0)
shifted-fields index shift amount index_fits shift_fits amount_fits = (
  field-bit_or_three 16 5 (shl_u32 index 16) (shl_u32 shift 22) (shl_u32 amount 10) index 0 0
        (omega arith) (omega arith) (omega arith)
      ∙ simp (bit_or-zero) refl,
  field-bit_or_three 22 2 (shl_u32 index 16) (shl_u32 shift 22) (shl_u32 amount 10) 0 shift 0
        (omega arith) (omega arith) (omega arith)
      ∙ simp (bit_or-zero, zero-bit_or) refl,
  field-bit_or_three 10 6 (shl_u32 index 16) (shl_u32 shift 22) (shl_u32 amount 10) 0 0 amount
        (omega arith) (omega arith) (omega arith)
      ∙ simp (bit_or-zero, zero-bit_or) refl,
  field-bit_or_three 31 1 (shl_u32 index 16) (shl_u32 shift 22) (shl_u32 amount 10) 0 0 0
      (omega arith) (omega arith) (omega arith),
)

shift_kind-shift_bits : (kind : ShiftKind) → shift_kind (shift_bits kind) ≡ kind
shift_kind-shift_bits ShiftKind.lsl = refl
shift_kind-shift_bits ShiftKind.lsr = refl
shift_kind-shift_bits ShiftKind.asr = refl
shift_kind-shift_bits ShiftKind.ror = refl

-- An accepted shift is that of the kind, by less than 64.
checked_shift-eq-some :
    (class : RegisterClass) (amount : ℕ) (kind : ShiftKind) (shift : ℕ)
    → checked_shift (max_shift class) amount kind ≡ some shift
    → (shift ≡ shift_bits kind) × (shift < 4) × (amount < 64)
checked_shift-eq-some RegisterClass.w amount ShiftKind.lsl shift h = ground arith
checked_shift-eq-some RegisterClass.w amount ShiftKind.lsr shift h = ground arith
checked_shift-eq-some RegisterClass.w amount ShiftKind.asr shift h = ground arith
checked_shift-eq-some RegisterClass.w amount ShiftKind.ror shift h = ground arith
checked_shift-eq-some RegisterClass.x amount ShiftKind.lsl shift h = ground arith
checked_shift-eq-some RegisterClass.x amount ShiftKind.lsr shift h = ground arith
checked_shift-eq-some RegisterClass.x amount ShiftKind.asr shift h = ground arith
checked_shift-eq-some RegisterClass.x amount ShiftKind.ror shift h = ground arith
checked_shift-eq-some class amount kind shift h = absurd (ground arith)

-- The register that the decoder reads under the top bit that the class stands for.
gp_reg-sf_bit :
    (class : RegisterClass) (index word : ℕ)
    → sf_bit class ≡ some (field 31 1 word)
    → gp_reg index word ≡ record { class = class; index = index }
unfolding gp_reg x_reg w_reg
gp_reg-sf_bit RegisterClass.w index word h = ground arith
gp_reg-sf_bit RegisterClass.x index word h = ground arith
gp_reg-sf_bit class index word h = absurd (ground arith)

pub rm_shifted-encode_rm_shifted :
    (kind : Aarch64Opnd) (s : ShiftedRegister) (base bits : ℕ)
    → field 16 5 base ≡ 0
    → field 22 2 base ≡ 0
    → field 10 6 base ≡ 0
    → sf_bit s.register.class ≡ some (field 31 1 base)
    → encode_rm_shifted kind (DecodedOperand.shifted_register s) ≡ ok bits
    → rm_shifted (bit_or base bits) ≡ s
unfolding encode_rm_shifted rm_shifted rm
rm_shifted-encode_rm_shifted kind s base bits clear_register clear_kind clear_amount class h =
    elim (Bool-cases (ltb 31 s.register.index)) [
      | inl refused ↦ absurd (ground arith)
      | inr fine ↦
          elim (Option-cases
            (checked_shift (max_shift s.register.class) s.shift.amount s.shift.kind)) [
              | inl none_e ↦ absurd (ground arith)
              | inr (shift, is) ↦
                  let (same, shift_fits, amount_fits) =
                    checked_shift-eq-some s.register.class s.shift.amount s.shift.kind shift is in
                  let (index_eq, shift_eq, amount_eq, top) =
                    shifted-fields s.register.index shift s.shift.amount (ground arith) shift_fits
                      amount_fits in
                  let packed : bits
                      ≡ bit_or (bit_or (shl_u32 s.register.index 16) (shl_u32 shift 22))
                          (shl_u32 s.shift.amount 10) =
                    ground arith in
                  let kept : field 31 1 (bit_or base bits) ≡ field 31 1 base =
                    field-bit_or_left 31 1 base bits (ap (field 31 1) packed ∙ top) in
                  rw
                    (
                      field-bit_or_right 16 5 base bits clear_register,
                      field-bit_or_right 22 2 base bits clear_kind,
                      field-bit_or_right 10 6 base bits clear_amount,
                      ap (field 16 5) packed ∙ index_eq,
                      ap (field 22 2) packed ∙ shift_eq ∙ same,
                      ap (field 10 6) packed ∙ amount_eq,
                      shift_kind-shift_bits s.shift.kind,
                      gp_reg-sf_bit s.register.class s.register.index (bit_or base bits)
                          (class ∙ ap some (sym kept)),
                    )
                    refl
            ]
    ]

-- Both classes of a width are read as the one whose index 31 is the stack pointer.
abbrev pub as_stack : RegisterClass → RegisterClass
as_stack RegisterClass.w = RegisterClass.w_or_sp
as_stack RegisterClass.x = RegisterClass.x_or_sp
as_stack class = class

sf_bit_or_sp_below :
    (class : RegisterClass) (index sf : ℕ) → sf_bit_or_sp class index ≡ some sf → sf < 2
sf_bit_or_sp_below RegisterClass.w index sf h = ground arith
sf_bit_or_sp_below RegisterClass.x index sf h = ground arith
sf_bit_or_sp_below RegisterClass.w_or_sp index sf h = ground arith
sf_bit_or_sp_below RegisterClass.x_or_sp index sf h = ground arith
sf_bit_or_sp_below class index sf h = absurd (ground arith)

gp_or_sp-as_stack :
    (class : RegisterClass) (index sf word : ℕ)
    → sf_bit_or_sp class index ≡ some sf
    → field 31 1 word ≡ sf
    → gp_or_sp index word ≡ record { class = as_stack class; index = index }
unfolding gp_or_sp x_or_sp
gp_or_sp-as_stack RegisterClass.w index sf word h top = ground arith
gp_or_sp-as_stack RegisterClass.x index sf word h top = ground arith
gp_or_sp-as_stack RegisterClass.w_or_sp index sf word h top = ground arith
gp_or_sp-as_stack RegisterClass.x_or_sp index sf word h top = ground arith
gp_or_sp-as_stack class index sf word h top = absurd (ground arith)

-- The two fields of such a register.
fields_at :
    (index sf place : ℕ)
    → field place 5 (shl_u32 sf 31) ≡ 0
    → field place 5 (shl_u32 index place) ≡ index
    → field 31 1 (shl_u32 sf 31) ≡ sf
    → field 31 1 (shl_u32 index place) ≡ 0
    → let bits = bit_or (shl_u32 sf 31) (shl_u32 index place) in
      (field place 5 bits ≡ index) × (field 31 1 bits ≡ sf)
fields_at index sf place low is top high = (
  field-bit_or_right place 5 (shl_u32 sf 31) (shl_u32 index place) low ∙ is,
  field-bit_or_left 31 1 (shl_u32 sf 31) (shl_u32 index place) high ∙ top,
)

stack-fields :
    (index sf place : ℕ)
    → index < 32
    → sf < 2
    → (place ≡ 0) ⊎ (place ≡ 5)
    → let bits = bit_or (shl_u32 sf 31) (shl_u32 index place) in
      (field place 5 bits ≡ index) × (field 31 1 bits ≡ sf)
stack-fields index sf place index_fits sf_fits (inl e) =
    rw e (fields_at index sf 0 (omega arith) (omega arith) (omega arith) (omega arith))
stack-fields index sf place index_fits sf_fits (inr e) =
    rw e (fields_at index sf 5 (omega arith) (omega arith) (omega arith) (omega arith))

-- In one of the two places of such a register.
pub gp_or_sp-encode_gp_or_sp_register :
    (kind : Aarch64Opnd) (r : Register) (place base bits : ℕ)
    → (place ≡ 0) ⊎ (place ≡ 5)
    → field place 5 base ≡ 0
    → field 31 1 base ≡ 0
    → encode_gp_or_sp_register kind (DecodedOperand.register r) place ≡ ok bits
    → gp_or_sp (field place 5 (bit_or base bits)) (bit_or base bits)
      ≡ record { class = as_stack r.class; index = r.index }
unfolding encode_gp_or_sp_register
gp_or_sp-encode_gp_or_sp_register kind r place base bits places clear top h =
    elim (Bool-cases (ltb 31 r.index)) [
      | inl refused ↦ absurd (ground arith)
      | inr fine ↦ elim (Option-cases (sf_bit_or_sp r.class r.index)) [
        | inl none_e ↦ absurd (ground arith)
        | inr (sf, is) ↦
            let fits = sf_bit_or_sp_below r.class r.index sf is in
            let packed : bits ≡ bit_or (shl_u32 sf 31) (shl_u32 r.index place) = ground arith in
            let (index_eq, top_eq) = stack-fields r.index sf place (ground arith) fits places in
            rw (field-bit_or_right place 5 base bits clear, ap (field place 5) packed ∙ index_eq)
              (gp_or_sp-as_stack r.class r.index sf (bit_or base bits) is
                (field-bit_or_right 31 1 base bits top ∙ ap (field 31 1) packed ∙ top_eq))
      ]
    ]
