-- ===== src/Aarch64/Operand/System.antt =====
-- src/isa/aarch64/operand.rs: conditions, system registers and operations, barriers, prefetches and
-- floating-point immediates: operands that are texts, decoded.
pub mod Encode
use Prim.Native.String.{String}
use armv8_encode.Base.{ℕ, zero, suc, ◌+◌, ◌-◌, ◌*◌, ◌/◌, ◌%◌, ◌^◌, ◌==◌, bit_xor, Bool, ◌&&◌}
use armv8_encode.Base.{if◌then◌else◌, List, [], ◌∷◌, get_or}
use armv8_encode.Base.Bits.{field}
use armv8_encode.Base.Text.{concat_text, decimal, hex, padded}
use armv8_encode.Base.Int.{pos_part}
use armv8_encode.Aarch64.Operand.{rt}
use armv8_encode.Aarch64.Operand.Immediates.{uimm4, simd_imm8}

unfoldable pub cn : ℕ → ℕ
cn word = field 12 4 word

unfoldable pub cm : ℕ → ℕ
cm word = field 8 4 word

unfoldable pub condition_name : ℕ → String
condition_name condition =
    get_or
      ("eq" ∷ "ne" ∷ "hs" ∷ "lo" ∷ "mi" ∷ "pl" ∷ "vs" ∷ "vc" ∷ "hi" ∷ "ls" ∷ "ge" ∷ "lt" ∷ "gt"
        ∷ "le" ∷ "al" ∷ [])
      condition "nv"

unfoldable pub condition : ℕ → String
condition word = condition_name (field 12 4 word)

unfoldable pub inverted_condition : ℕ → String
inverted_condition word = condition_name (bit_xor (field 12 4 word) 1)

unfoldable pub barrier : ℕ → String
barrier word =
    let value = pos_part (uimm4 word) in
    if value == 0x1
    then "oshld"
    else if value == 0x2
    then "oshst"
    else if value == 0x3
    then "osh"
    else if value == 0x5
    then "nshld"
    else if value == 0x6
    then "nshst"
    else if value == 0x7
    then "nsh"
    else if value == 0x9
    then "ishld"
    else if value == 0xa
    then "ishst"
    else if value == 0xb
    then "ish"
    else if value == 0xd
    then "ld"
    else if value == 0xe
    then "st"
    else if value == 0xf
    then "sy"
    else concat_text ("#0x" ∷ hex value ∷ [])

unfoldable pub barrier_isb : ℕ → String
barrier_isb word =
    let value = pos_part (uimm4 word) in
    if value == 0xf then "sy" else concat_text ("#" ∷ decimal value ∷ [])

unfoldable pub pstate_field : ℕ → String
pstate_field word =
    let op1 = field 16 3 word in
    let op2 = field 5 3 word in
    if op1 == 3 && op2 == 6
    then "DAIFSet"
    else if op1 == 3 && op2 == 7
    then "DAIFClr"
    else concat_text ("pstate:" ∷ decimal op1 ∷ ":" ∷ decimal op2 ∷ [])

-- The fields `op0`, `op1`, `crn`, `crm` and `op2` are those given.
abbrev is_sysreg : ℕ → ℕ → ℕ → ℕ → ℕ → ℕ → Bool
is_sysreg word op0 op1 crn crm op2 =
    field 19 2 word == op0
    && field 16 3 word == op1
    && field 12 4 word == crn
    && field 8 4 word == crm
    && field 5 3 word == op2

unfoldable pub sysreg : ℕ → String
sysreg word =
    if is_sysreg word 3 3 4 2 0
    then "NZCV"
    else if is_sysreg word 3 3 13 0 2
    then "TPIDR_EL0"
    else if is_sysreg word 3 3 14 0 2
    then "CNTVCT_EL0"
    else concat_text (
        "S"
        ∷ decimal (field 19 2 word)
        ∷ "_"
        ∷ decimal (field 16 3 word)
        ∷ "_C"
        ∷ decimal (field 12 4 word)
        ∷ "_C"
        ∷ decimal (field 8 4 word)
        ∷ "_"
        ∷ decimal (field 5 3 word)
        ∷ [])

-- The match on `sys_op_fields`.
abbrev is_sys_op : ℕ → ℕ → ℕ → ℕ → ℕ → Bool
is_sys_op word op1 n m op2 =
    field 16 3 word == op1 && field 12 4 word == n && field 8 4 word == m && field 5 3 word == op2

unfoldable pub format_sys_op : String → ℕ → String
format_sys_op prefix word = concat_text (
    prefix
    ∷ ":#"
    ∷ decimal (field 16 3 word)
    ∷ ":c"
    ∷ decimal (field 12 4 word)
    ∷ ":c"
    ∷ decimal (field 8 4 word)
    ∷ ":#"
    ∷ decimal (field 5 3 word)
    ∷ [])

unfoldable pub sysreg_at : ℕ → String
sysreg_at word = if is_sys_op word 0 7 8 0 then "s1e1r" else format_sys_op "at" word

unfoldable pub sysreg_dc : ℕ → String
sysreg_dc word = if is_sys_op word 3 7 4 1 then "zva" else format_sys_op "dc" word

unfoldable pub sysreg_ic : ℕ → String
sysreg_ic word =
    if is_sys_op word 3 7 5 1
    then "ivau"
    else if is_sys_op word 0 7 5 0
    then "iallu"
    else format_sys_op "ic" word

unfoldable pub sysreg_tlbi : ℕ → String
sysreg_tlbi word =
    if is_sys_op word 0 8 7 5
    then "vale1"
    else if is_sys_op word 0 8 7 0
    then "vmalle1"
    else format_sys_op "tlbi" word

-- The empty texts stand for the codes without a name.
unfoldable pub prfop : ℕ → String
prfop word =
    let value = rt word in
    let numbered = concat_text ("#0x" ∷ hex value ∷ []) in
    get_or
      ("pldl1keep" ∷ "pldl1strm" ∷ "pldl2keep" ∷ "pldl2strm" ∷ "pldl3keep" ∷ "pldl3strm" ∷ numbered
        ∷ numbered ∷ "plil1keep" ∷ "plil1strm" ∷ "plil2keep" ∷ "plil2strm" ∷ "plil3keep"
        ∷ "plil3strm" ∷ numbered ∷ numbered ∷ "pstl1keep" ∷ "pstl1strm" ∷ "pstl2keep" ∷ "pstl2strm"
        ∷ "pstl3keep" ∷ "pstl3strm" ∷ [])
      value numbered

-- The value is a sign, and 16 to 31 sixteenths times a power of two from 1/8 to 16: a whole number of
-- parts of 1/128. That is exact in an `f64` and in the eight decimals printed.
unfoldable pub format_fpimm8 : ℕ → String
format_fpimm8 imm8 =
    let scale = if field 6 1 imm8 == 0 then field 4 2 imm8 + 4 else field 4 2 imm8 in
    let parts = (16 + field 0 4 imm8) * 2 ^ scale in
    concat_text (
      (if field 7 1 imm8 == 0 then "" else "-")
      ∷ decimal (parts / 128)
      ∷ "."
      ∷ padded 8 (parts % 128 * 781250)
      ∷ [])

unfoldable pub fpimm : ℕ → String
fpimm word = format_fpimm8 (field 13 8 word)

unfoldable pub simd_fpimm : ℕ → String
simd_fpimm word = format_fpimm8 (simd_imm8 word)
