-- ===== src/Aarch64/Table.antt =====
-- src/isa/aarch64/table.rs: the rows of the opcode table. The table itself is data that
-- every definition takes; nothing here depends on what its rows are.
pub mod Branches
pub mod Classes
pub mod Matching
pub mod Ranges
use Prim.Native.String.{String}
use armv8_encode.Base.{
  ℕ, zero, suc, ◌+◌, ◌-◌, ◌*◌, ◌/◌, ◌%◌, ◌==◌, ltb, leb, bit_and, bit_xor, min, max,
}
use armv8_encode.Base.{Bool, true, false, not, ◌&&◌, ◌||◌, if◌then◌else◌, Option, none, some}
use armv8_encode.Base.{List, [], ◌∷◌, map}
use armv8_encode.Base.Bits.{field}
use armv8_encode.Base.Text.{is_text, one_of, lookup_text, ends_with}
use armv8_encode.Aarch64.Mnemonic.{parse, is_same_mnemonic, is_same_flag}
use armv8_encode.Aarch64.Table.Classes.{class_index}
use armv8_encode.Aarch64.{Aarch64Mnemonic, Aarch64Opnd, Aarch64Opcode, Aarch64InsnClass}

unfoldable pub is_alias : Aarch64Opcode → Bool
is_alias row = not (field 0 1 row.flags == 0)

unfoldable pub is_conversion_alias : Aarch64Opcode → Bool
is_conversion_alias row = not (field 20 1 row.flags == 0)

-- The number of bits set among the lowest `count`.
unfoldable pub count_ones_below : ℕ → ℕ → ℕ
count_ones_below zero n = 0
count_ones_below (suc count) n = n % 2 + count_ones_below count (n / 2)

abbrev pub count_ones : ℕ → ℕ
count_ones n = count_ones_below 32 n

unfoldable pub system_op_fields : ℕ → List ℕ
system_op_fields instruction =
    field 16 3 instruction
    ∷ field 12 4 instruction
    ∷ field 8 4 instruction
    ∷ field 5 3 instruction
    ∷ []

abbrev is_same_list : List ℕ → List ℕ → Bool
is_same_list [] [] = true
is_same_list (m ∷ ms) (n ∷ ns) = m == n && is_same_list ms ns
is_same_list _ _ = false

unfoldable pub is_bitfield_alias : Aarch64Opcode → Bool
is_bitfield_alias row = row.mask == 0x7f800000

unfoldable pub simd_ldst_list_digit : ℕ → Option String
simd_ldst_list_digit instruction =
    let code = field 12 4 instruction in
    if code == 0b0000
    then some "4"
    else if code == 0b0100
    then some "3"
    else if code == 0b1000
    then some "2"
    else if code == 0b0010 || code == 0b0110 || code == 0b0111 || code == 0b1010
    then some "1"
    else none

abbrev ends_with_digit : String → Option String → Bool
ends_with_digit mnemonic none = false
ends_with_digit mnemonic (some digit) = ends_with mnemonic digit

abbrev is_extract : Aarch64InsnClass → Bool
is_extract Aarch64InsnClass.extract = true
is_extract _ = false

abbrev is_condsel : Aarch64InsnClass → Bool
is_condsel Aarch64InsnClass.condsel = true
is_condsel _ = false

abbrev is_structure_class : Aarch64InsnClass → Bool
is_structure_class Aarch64InsnClass.asisdlse = true
is_structure_class Aarch64InsnClass.asisdlsep = true
is_structure_class _ = false

unfoldable pub alias_applies : ℕ → Aarch64Opcode → Bool
alias_applies instruction row =
    let immr = field 16 6 instruction in
    let imms = field 10 6 instruction in
    let most = if field 31 1 instruction == 0 then 31 else 63 in
    let rn = field 5 5 instruction in
    let rm = field 16 5 instruction in
    let ops = system_op_fields instruction in
    if one_of row.name ("ubfiz" ∷ "sbfiz" ∷ "bfi" ∷ [])
    then ltb imms immr
    else if one_of row.name ("ubfx" ∷ "sbfx" ∷ "bfxil" ∷ [])
    then leb immr imms
    else if is_text row.name "lsl" && is_bitfield_alias row
    then imms + 1 == immr
    else if one_of row.name ("lsr" ∷ "asr" ∷ []) && is_bitfield_alias row
    then imms == most
    else if is_text row.name "ror" && is_extract row.iclass
    then rn == rm
    else if one_of row.name ("sxtl" ∷ "sxtl2" ∷ "uxtl" ∷ "uxtl2" ∷ [])
    then false
    else if one_of row.name ("cinc" ∷ "cinv" ∷ []) && is_condsel row.iclass
    then rn == rm && not (rn == 31)
    else if is_text row.name "cneg" && is_condsel row.iclass
    then rn == rm
    else if is_text row.name "at"
    then is_same_list ops (0 ∷ 7 ∷ 8 ∷ 0 ∷ [])
    else if is_text row.name "dc"
    then is_same_list ops (3 ∷ 7 ∷ 4 ∷ 1 ∷ [])
    else if is_text row.name "ic"
    then is_same_list ops (3 ∷ 7 ∷ 5 ∷ 1 ∷ []) || is_same_list ops (0 ∷ 7 ∷ 5 ∷ 0 ∷ [])
    else if is_text row.name "tlbi"
    then is_same_list ops (0 ∷ 8 ∷ 7 ∷ 5 ∷ []) || is_same_list ops (0 ∷ 8 ∷ 7 ∷ 0 ∷ [])
    else if one_of row.name ("ld1" ∷ "st1" ∷ "ld2" ∷ "st2" ∷ "ld3" ∷ "st3" ∷ "ld4" ∷ "st4" ∷ [])
        && is_structure_class row.iclass
    then ends_with_digit row.name (simd_ldst_list_digit instruction)
    else true

unfoldable pub is_variable_shift_alias : String → String → Bool
is_variable_shift_alias current candidate =
    is_text current "lslv" && is_text candidate "lsl"
    || (is_text current "lsrv" && is_text candidate "lsr")
    || (is_text current "asrv" && is_text candidate "asr")
    || (is_text current "rorv" && is_text candidate "ror")

abbrev is_asimdins : Aarch64InsnClass → Bool
is_asimdins Aarch64InsnClass.asimdins = true
is_asimdins _ = false

-- The rules for two rows whose masks have equally many bits, in the order of the source.
unfoldable pub replaces_at_equal_bits : Aarch64Opcode → Aarch64Opcode → Bool
replaces_at_equal_bits current candidate =
    let current_conversion = is_conversion_alias current in
    let candidate_conversion = is_conversion_alias candidate in
    let same_class = class_index candidate.iclass == class_index current.iclass in
    if not (is_same_flag candidate_conversion current_conversion)
    then candidate_conversion && not (not (is_alias current) && not same_class)
    else if candidate_conversion
    then true
    else if is_variable_shift_alias current.name candidate.name
    then true
    else if is_text current.name "sys" && one_of candidate.name ("at" ∷ "dc" ∷ "ic" ∷ "tlbi" ∷ [])
    then true
    else if one_of current.name ("umov" ∷ "ins" ∷ [])
        && is_text candidate.name "mov"
        && is_asimdins candidate.iclass
    then true
    else if not (is_same_flag (is_alias candidate) (is_alias current))
    then not (is_alias candidate)
    else false

unfoldable pub should_replace_match : Aarch64Opcode → Aarch64Opcode → Bool
should_replace_match current candidate =
    let current_bits = count_ones current.mask in
    let candidate_bits = count_ones candidate.mask in
    if candidate_bits == current_bits
    then replaces_at_equal_bits current candidate
    else ltb current_bits candidate_bits

-- The mask test and the conditions of an alias.
unfoldable pub row_applies : ℕ → Aarch64Opcode → Bool
row_applies instruction row =
    bit_and instruction row.mask == bit_and row.opcode row.mask && alias_applies instruction row

abbrev replaced : Option Aarch64Opcode → Aarch64Opcode → Option Aarch64Opcode
replaced none row = some row
replaced (some current) row = some (if should_replace_match current row then row else current)

-- The loop over the table; the first argument is the best row so far.
unfoldable pub best_match : Option Aarch64Opcode → ℕ → List Aarch64Opcode → Option Aarch64Opcode
best_match best instruction [] = best
best_match best instruction (row ∷ rows) =
    best_match (if row_applies instruction row then replaced best row else best) instruction rows

unfoldable pub match_opcode : List Aarch64Opcode → ℕ → Option Aarch64Opcode
match_opcode table instruction = best_match none instruction table

-- The rows of a mnemonic, in the order of the table.
unfoldable pub opcodes_for_mnemonic : List Aarch64Opcode → Aarch64Mnemonic → List Aarch64Opcode
opcodes_for_mnemonic [] mnemonic = []
opcodes_for_mnemonic (row ∷ rows) mnemonic =
    let others = opcodes_for_mnemonic rows mnemonic in
    if is_same_mnemonic (parse row.name) mnemonic then row ∷ others else others

abbrev appended : List Aarch64Opcode → Option Aarch64Opcode → List Aarch64Opcode
appended rows none = rows
appended rows (some row) = row ∷ rows

unfoldable pub disassemble : List Aarch64Opcode → List ℕ → List Aarch64Opcode
disassemble table [] = []
disassemble table (instruction ∷ rest) =
    appended (disassemble table rest) (match_opcode table instruction)
