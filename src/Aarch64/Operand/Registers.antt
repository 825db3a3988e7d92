-- ===== src/Aarch64/Operand/Registers.antt =====
-- src/isa/aarch64/operand.rs: general-purpose and floating-point registers, decoded.
pub mod Encode
pub mod RoundTrip
pub mod Recovering
use Prim.Native.String.{String}
use armv8_encode.Base.{ℕ, ◌+◌, ◌*◌, ◌^◌, ◌==◌, bit_or, Bool, true, false, ◌&&◌, ◌||◌, if◌then◌else◌}
use armv8_encode.Base.{List, [], ◌∷◌}
use armv8_encode.Base.Bits.{field}
use armv8_encode.Base.Text.{is_text, one_of}
use armv8_encode.Aarch64.{Aarch64Opcode, Aarch64InsnClass, Register, RegisterClass, ShiftKind}
use armv8_encode.Aarch64.{ShiftedRegister, ExtendedRegister, ExtendKind, VectorElementSize}
use armv8_encode.Aarch64.Operand.{rd, rn, rm, rt, rs, ra, x_reg, w_reg, gp_reg}

unfoldable pub has_32_bit_multiply_inputs : String → Bool
has_32_bit_multiply_inputs mnemonic =
    one_of mnemonic
      ("smaddl" ∷ "smsubl" ∷ "smull" ∷ "smnegl" ∷ "umaddl" ∷ "umsubl" ∷ "umull" ∷ "umnegl" ∷ [])

unfoldable pub is_crc32 : String → Bool
is_crc32 mnemonic =
    one_of mnemonic (
      "crc32b" ∷ "crc32h" ∷ "crc32w" ∷ "crc32x" ∷ "crc32cb" ∷ "crc32ch" ∷ "crc32cw" ∷ "crc32cx"
      ∷ [])

unfoldable pub is_32_bit_crc32_source : String → Bool
is_32_bit_crc32_source mnemonic =
    one_of mnemonic ("crc32b" ∷ "crc32h" ∷ "crc32w" ∷ "crc32cb" ∷ "crc32ch" ∷ "crc32cw" ∷ [])

unfoldable pub is_casp : String → Bool
is_casp mnemonic = one_of mnemonic ("casp" ∷ "caspa" ∷ "caspl" ∷ "caspal" ∷ [])

unfoldable pub lse_pair_reg : ℕ → ℕ → Register
lse_pair_reg reg word = if field 30 1 word == 0 then w_reg reg else x_reg reg

-- The class of a floating-point access and the shift of its scale.
unfoldable pub fp_ldst_width : ℕ → RegisterClass × ℕ
fp_ldst_width word =
    let width = bit_or (field 23 1 word * 2 ^ 2) (field 30 2 word) in
    if width == 0
    then (RegisterClass.b, 0)
    else if width == 1
    then (RegisterClass.h, 1)
    else if width == 2
    then (RegisterClass.s, 2)
    else if width == 3
    then (RegisterClass.d, 3)
    else (RegisterClass.q, 4)

unfoldable pub fp_ldst_reg : ℕ → ℕ → Register
fp_ldst_reg reg word = record { class = (fp_ldst_width word).0; index = reg }

unfoldable pub fp_reg : ℕ → ℕ → Register
fp_reg reg word = record {
  class = if field 22 2 word == 1 then RegisterClass.d else RegisterClass.s;
  index = reg;
}

unfoldable pub fp_load_store_reg : ℕ → ℕ → Register
fp_load_store_reg reg word = record {
  class =
      if field 30 2 word == 0
      then RegisterClass.s
      else if field 30 2 word == 1
      then RegisterClass.d
      else RegisterClass.q;
  index = reg;
}

abbrev pub is_asimdins : Aarch64InsnClass → Bool
is_asimdins Aarch64InsnClass.asimdins = true
is_asimdins _ = false

-- The classes of the load and store pairs.
abbrev pub is_pair_class : Aarch64InsnClass → Bool
is_pair_class Aarch64InsnClass.ldstnapair_offs = true
is_pair_class Aarch64InsnClass.ldstpair_off = true
is_pair_class Aarch64InsnClass.ldstpair_indexed = true
is_pair_class _ = false

unfoldable pub ft_reg : ℕ → ℕ → Aarch64Opcode → Register
ft_reg reg word opcode =
    if is_pair_class opcode.iclass then fp_load_store_reg reg word else fp_ldst_reg reg word

unfoldable pub rt_reg : ℕ → Aarch64Opcode → Register
rt_reg word opcode =
    let mnemonic = opcode.name in
    if is_casp mnemonic
    then lse_pair_reg (rt word) word
    else if one_of mnemonic ("cbz" ∷ "cbnz" ∷ [])
    then gp_reg (rt word) word
    else if one_of mnemonic ("str" ∷ "ldr" ∷ []) && field 26 6 word == 0b111101
    then fp_ldst_reg (rt word) word
    else if is_text mnemonic "ldr" && field 31 1 word == 0 && field 30 1 word == 0
    then w_reg (rt word)
    else if one_of mnemonic ("str" ∷ "ldr" ∷ []) && field 30 2 word == 0b10
    then w_reg (rt word)
    else if one_of mnemonic
        ("strb" ∷ "ldrb" ∷ "strh" ∷ "ldrh" ∷ "sturb" ∷ "ldurb" ∷ "sturh" ∷ "ldurh" ∷ [])
    then w_reg (rt word)
    else if one_of mnemonic ("stur" ∷ "ldur" ∷ []) && field 30 2 word == 0b10
    then w_reg (rt word)
    else x_reg (rt word)

unfoldable pub rs_reg : ℕ → Aarch64Opcode → Register
rs_reg word opcode = if is_casp opcode.name then lse_pair_reg (rs word) word else w_reg (rs word)

unfoldable pub rt_sys_reg : ℕ → Register
rt_sys_reg word = x_reg (rt word)

unfoldable pub rn_reg : ℕ → Aarch64Opcode → Register
rn_reg word opcode =
    if has_32_bit_multiply_inputs opcode.name || is_crc32 opcode.name
    then w_reg (rn word)
    else gp_reg (rn word) word

unfoldable pub rm_reg : ℕ → Aarch64Opcode → Register
rm_reg word opcode =
    if has_32_bit_multiply_inputs opcode.name || is_32_bit_crc32_source opcode.name
    then w_reg (rm word)
    else gp_reg (rm word) word

unfoldable pub ra_reg : ℕ → Register
ra_reg word = gp_reg (ra word) word

-- `even + 1` of an index below 32 stays in its byte.
unfoldable pub pair_reg : ℕ → ℕ → Register
pair_reg word operand_index =
    let even = if operand_index == 1 then rs word else if operand_index == 3 then rt word else 31 in
    lse_pair_reg (even + 1) word

abbrev pub shift_kind : ℕ → ShiftKind
shift_kind code =
    if code == 0
    then ShiftKind.lsl
    else if code == 1
    then ShiftKind.lsr
    else if code == 2
    then ShiftKind.asr
    else ShiftKind.ror

unfoldable pub rm_shifted : ℕ → ShiftedRegister
rm_shifted word = record {
  register = gp_reg (rm word) word;
  shift = record { kind = shift_kind (field 22 2 word); amount = field 10 6 word };
}

abbrev pub extend_kind : ℕ → ExtendKind
extend_kind code =
    if code == 0
    then ExtendKind.uxtb
    else if code == 1
    then ExtendKind.uxth
    else if code == 2
    then ExtendKind.uxtw
    else if code == 3
    then ExtendKind.uxtx
    else if code == 4
    then ExtendKind.sxtb
    else if code == 5
    then ExtendKind.sxth
    else if code == 6
    then ExtendKind.sxtw
    else ExtendKind.sxtx

abbrev pub extended_reg : ExtendKind → ℕ → Register
extended_reg ExtendKind.uxtx reg = x_reg reg
extended_reg ExtendKind.sxtx reg = x_reg reg
extended_reg _ reg = w_reg reg

unfoldable pub rm_extended : ℕ → ExtendedRegister
rm_extended word =
    let extend = extend_kind (field 13 3 word) in
    record { register = extended_reg extend (rm word); extend = extend; amount = field 10 3 word }
