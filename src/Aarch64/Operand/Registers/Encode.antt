-- ===== src/Aarch64/Operand/Registers/Encode.antt =====
-- src/isa/aarch64/operand.rs: general-purpose and floating-point registers, encoded.
use armv8_encode.Base.{ℕ, ◌*◌, ◌^◌, ◌==◌, bit_or, Bool, true, false, ◌&&◌, ◌||◌, if◌then◌else◌}
use armv8_encode.Base.{ltb, [], ◌∷◌, Option, none, some, Result, ok}
use armv8_encode.Base.Word.{shl_u32}
use armv8_encode.Base.Text.{one_of}
use armv8_encode.Aarch64.{Aarch64Opcode, Aarch64Opnd, Aarch64InsnClass, Register, RegisterClass}
use armv8_encode.Aarch64.{ShiftKind, ExtendKind, DecodedOperand}
use armv8_encode.Aarch64.Operand.{EncodeError, refuse, encoded}
use armv8_encode.Aarch64.Operand.Registers.{is_casp, is_pair_class, is_asimdins}

abbrev pub sf_bit : RegisterClass → Option ℕ
sf_bit RegisterClass.w = some 0
sf_bit RegisterClass.x = some 1
sf_bit _ = none

unfoldable pub encode_gp_register : Aarch64Opnd → DecodedOperand → ℕ → Result EncodeError ℕ
encode_gp_register kind (DecodedOperand.register r) bit_offset =
    if ltb 31 r.index
    then refuse kind
    else encoded kind (sf_bit r.class) λ sf. bit_or (shl_u32 sf 31) (shl_u32 r.index bit_offset)
encode_gp_register kind _ bit_offset = refuse kind

-- The match of an element move: an X register sets bit 30.
abbrev bit_30_of : RegisterClass → Option ℕ
bit_30_of RegisterClass.w = some 0
bit_30_of RegisterClass.x = some (2 ^ 30)
bit_30_of _ = none

abbrev bits_of_x : RegisterClass → Option ℕ
bits_of_x RegisterClass.x = some 0
bits_of_x _ = none

abbrev is_pcreladdr : Aarch64InsnClass → Bool
is_pcreladdr Aarch64InsnClass.pcreladdr = true
is_pcreladdr _ = false

-- A register in the low field, below bits that its class decides.
abbrev low_register :
    Aarch64Opnd → DecodedOperand → (RegisterClass → Option ℕ) → ℕ → Result EncodeError ℕ
low_register kind (DecodedOperand.register r) bits_of bit_offset =
    if ltb 31 r.index
    then refuse kind
    else encoded kind (bits_of r.class) λ bits. bit_or bits (shl_u32 r.index bit_offset)
low_register kind _ bits_of bit_offset = refuse kind

unfoldable pub encode_rd_register :
    Aarch64Opnd → DecodedOperand → Aarch64Opcode → Result EncodeError ℕ
encode_rd_register kind operand opcode =
    if is_asimdins opcode.iclass && one_of opcode.name ("mov" ∷ "smov" ∷ "umov" ∷ [])
    then low_register kind operand bit_30_of 0
    else if is_pcreladdr opcode.iclass
    then low_register kind operand bits_of_x 0
    else encode_gp_register kind operand 0

-- Index 31 is `wzr` or `xzr` in the first two classes and the stack pointer in the others.
abbrev pub sf_bit_or_sp : RegisterClass → ℕ → Option ℕ
sf_bit_or_sp RegisterClass.w index = if index == 31 then none else some 0
sf_bit_or_sp RegisterClass.x index = if index == 31 then none else some 1
sf_bit_or_sp RegisterClass.w_or_sp index = some 0
sf_bit_or_sp RegisterClass.x_or_sp index = some 1
sf_bit_or_sp _ index = none

unfoldable pub encode_gp_or_sp_register : Aarch64Opnd → DecodedOperand → ℕ → Result EncodeError ℕ
encode_gp_or_sp_register kind (DecodedOperand.register r) bit_offset =
    if ltb 31 r.index
    then refuse kind
    else encoded kind (sf_bit_or_sp r.class r.index)
        λ sf. bit_or (shl_u32 sf 31) (shl_u32 r.index bit_offset)
encode_gp_or_sp_register kind _ bit_offset = refuse kind

abbrev pub option_bits : ExtendKind → RegisterClass → Option ℕ
option_bits ExtendKind.uxtb RegisterClass.w = some 0
option_bits ExtendKind.uxth RegisterClass.w = some 1
option_bits ExtendKind.uxtw RegisterClass.w = some 2
option_bits ExtendKind.uxtx RegisterClass.x = some 3
option_bits ExtendKind.sxtb RegisterClass.w = some 4
option_bits ExtendKind.sxth RegisterClass.w = some 5
option_bits ExtendKind.sxtw RegisterClass.w = some 6
option_bits ExtendKind.sxtx RegisterClass.x = some 7
option_bits _ _ = none

unfoldable pub encode_rm_extended : Aarch64Opnd → DecodedOperand → Result EncodeError ℕ
encode_rm_extended kind (DecodedOperand.extended_register e) =
    if ltb 31 e.register.index || ltb 4 e.amount
    then refuse kind
    else encoded kind (option_bits e.extend e.register.class) λ option.
      bit_or (bit_or (shl_u32 e.register.index 16) (shl_u32 option 13)) (shl_u32 e.amount 10)
encode_rm_extended kind _ = refuse kind

abbrev pub max_shift : RegisterClass → Option ℕ
max_shift RegisterClass.w = some 31
max_shift RegisterClass.x = some 63
max_shift _ = none

abbrev pub shift_bits : ShiftKind → ℕ
shift_bits ShiftKind.lsl = 0
shift_bits ShiftKind.lsr = 1
shift_bits ShiftKind.asr = 2
shift_bits ShiftKind.ror = 3

-- The amount must not exceed the largest shift of the register.
abbrev pub checked_shift : Option ℕ → ℕ → ShiftKind → Option ℕ
checked_shift none amount kind = none
checked_shift (some most) amount kind = if ltb most amount then none else some (shift_bits kind)

unfoldable pub encode_rm_shifted : Aarch64Opnd → DecodedOperand → Result EncodeError ℕ
encode_rm_shifted kind (DecodedOperand.shifted_register s) =
    if ltb 31 s.register.index
    then refuse kind
    else encoded kind (checked_shift (max_shift s.register.class) s.shift.amount s.shift.kind)
        λ shift.
          bit_or (bit_or (shl_u32 s.register.index 16) (shl_u32 shift 22))
            (shl_u32 s.shift.amount 10)
encode_rm_shifted kind _ = refuse kind

-- A pair starts below index 31.
abbrev casp_register : Aarch64Opnd → Register → Result EncodeError ℕ
casp_register kind r =
    if ltb 30 r.index
    then refuse kind
    else encoded kind (bit_30_of r.class) λ size_bits. bit_or size_bits (shl_u32 r.index 16)

abbrev bits_of_w : RegisterClass → Option ℕ
bits_of_w RegisterClass.w = some 0
bits_of_w _ = none

unfoldable pub encode_status_register :
    Aarch64Opnd → DecodedOperand → Aarch64Opcode → Result EncodeError ℕ
encode_status_register kind (DecodedOperand.register r) opcode =
    if is_casp opcode.name
    then casp_register kind r
    else if ltb 31 r.index
    then refuse kind
    else encoded kind (bits_of_w r.class) λ bits. shl_u32 r.index 16
encode_status_register kind _ opcode = refuse kind

unfoldable pub encode_rt_sys_register : Aarch64Opnd → DecodedOperand → Result EncodeError ℕ
encode_rt_sys_register kind operand = low_register kind operand bits_of_x 0

-- The loads and stores whose size field is bits 31:30.
abbrev pub is_ldst_class : Aarch64InsnClass → Bool
is_ldst_class Aarch64InsnClass.ldst_imm9 = true
is_ldst_class Aarch64InsnClass.ldst_pos = true
is_ldst_class Aarch64InsnClass.ldst_regoff = true
is_ldst_class Aarch64InsnClass.ldst_unscaled = true
is_ldst_class _ = false

abbrev ldst_size_bits : Bool → RegisterClass → Option ℕ
ldst_size_bits true _ = some 0
ldst_size_bits false RegisterClass.w = some 0
ldst_size_bits false RegisterClass.x = some (2 ^ 30)
ldst_size_bits false RegisterClass.s = some (2 * 2 ^ 30)
ldst_size_bits false RegisterClass.d = some (3 * 2 ^ 30)
ldst_size_bits false _ = none

abbrev other_size_bits : Aarch64InsnClass → RegisterClass → Option ℕ
other_size_bits Aarch64InsnClass.testbranch RegisterClass.x = some 0
other_size_bits Aarch64InsnClass.ldstexcl RegisterClass.x = some (2 ^ 30)
other_size_bits Aarch64InsnClass.lse_atomic RegisterClass.x = some (2 ^ 30)
other_size_bits _ RegisterClass.w = some 0
other_size_bits _ RegisterClass.x = some (2 ^ 31)
other_size_bits _ _ = none

-- A sign-extending load leaves the size of its row.
unfoldable pub encode_rt_register :
    Aarch64Opnd → DecodedOperand → Aarch64Opcode → Result EncodeError ℕ
encode_rt_register kind operand opcode =
    let is_ldst = is_ldst_class opcode.iclass in
    let is_signed_load = one_of opcode.name ("ldrsw" ∷ "ldrsh" ∷ "ldrsb" ∷ []) && is_ldst in
    low_register kind operand
      (if is_ldst then ldst_size_bits is_signed_load else other_size_bits opcode.iclass) 0

abbrev type_bits : RegisterClass → Option ℕ
type_bits RegisterClass.s = some 0
type_bits RegisterClass.d = some (2 ^ 22)
type_bits _ = none

unfoldable pub encode_fp_register : Aarch64Opnd → DecodedOperand → ℕ → Result EncodeError ℕ
encode_fp_register kind operand bit_offset = low_register kind operand type_bits bit_offset

abbrev pair_size_bits : RegisterClass → Option ℕ
pair_size_bits RegisterClass.s = some 0
pair_size_bits RegisterClass.d = some (2 ^ 30)
pair_size_bits _ = none

abbrev single_size_bits : RegisterClass → Option ℕ
single_size_bits RegisterClass.s = some (2 * 2 ^ 30)
single_size_bits RegisterClass.d = some (3 * 2 ^ 30)
single_size_bits _ = none

unfoldable pub encode_ft_register :
    Aarch64Opnd → DecodedOperand → Aarch64Opcode → ℕ → Result EncodeError ℕ
encode_ft_register kind operand opcode bit_offset =
    if is_pair_class opcode.iclass
    then low_register kind operand pair_size_bits bit_offset
    else if is_ldst_class opcode.iclass
    then low_register kind operand single_size_bits bit_offset
    else encode_fp_register kind operand bit_offset

unfoldable pub encode_pair_register : Aarch64Opnd → DecodedOperand → Result EncodeError ℕ
encode_pair_register kind (DecodedOperand.register r) =
    if r.index == 0 || ltb 31 r.index then refuse kind else ok 0
encode_pair_register kind _ = refuse kind
