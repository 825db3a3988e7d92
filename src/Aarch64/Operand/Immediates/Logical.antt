-- ===== src/Aarch64/Operand/Immediates/Logical.antt =====
-- src/isa/aarch64/operand.rs: the bitmask immediates of the logical instructions, decoded and, by a
-- search over all fields, encoded.
use armv8_encode.Base.{ℕ, zero, suc, ◌+◌, ◌-◌, ◌*◌, ◌/◌, ◌%◌, ◌^◌, ◌==◌, ltb, bit_or}
use armv8_encode.Base.{if◌then◌else◌, Option, none, some, Result, Bool, false}
use armv8_encode.Base.Bits.{field}
use armv8_encode.Base.Partial.{◌>>=◌, first_some}
use armv8_encode.Base.Word.{shl_u32}
use armv8_encode.Base.Int.{ℤ, pos, as_i64}
use armv8_encode.Aarch64.{Aarch64Opnd, DecodedOperand}
use armv8_encode.Aarch64.Operand.{EncodeError, refuse, encoded}
use armv8_encode.Aarch64.Operand.Immediates.Encode.{is_same_ℤ}

-- From the bit below `count` downwards.
unfoldable pub highest_set_bit_below : ℕ → ℕ → Option ℕ
highest_set_bit_below zero value = none
highest_set_bit_below (suc count) value =
    let rest = highest_set_bit_below count value in
    if value / 2 ^ count % 2 == 0 then rest else some count

abbrev pub highest_set_bit : ℕ → Option ℕ
highest_set_bit value = highest_set_bit_below 7 value

unfoldable pub ones : ℕ → ℕ
ones width = if width == 64 then 2 ^ 64 - 1 else 2 ^ width - 1

unfoldable pub rotate_right_with_width : ℕ → ℕ → ℕ → ℕ
rotate_right_with_width value rotate width =
    let r = rotate % width in
    if r == 0
    then value % 2 ^ width
    else bit_or (value / 2 ^ r) (value * 2 ^ (width - r) % 2 ^ 64) % 2 ^ width

-- A turn of the loop adds `width` to the shift, which ends it at 64; the fuel is for widths of 1.
unfoldable pub replicate_from : ℕ → ℕ → ℕ → ℕ → ℕ → ℕ
replicate_from zero value width shift result = result
replicate_from (suc fuel) value width shift result =
    let next = bit_or result (value * 2 ^ shift % 2 ^ 64) in
    let rest = replicate_from fuel value width (shift + width) next in
    if ltb shift 64 then rest else result

unfoldable pub replicate : ℕ → ℕ → ℕ
replicate value width = replicate_from 64 value width 0 0

-- The value for the position of the highest bit of `n : NOT(imms)`.
unfoldable pub bitmask : ℕ → ℕ → ℕ → ℕ → Option ℤ
bitmask sf immr imms len =
    let size = 2 ^ len in
    let levels = size - 1 in
    let s = imms % size in
    let r = immr % size in
    let value = replicate (rotate_right_with_width (ones (s + 1)) r size) size in
    if s == levels then none else some (if sf == 0 then pos (value % 2 ^ 32) else as_i64 value)

-- What the fields `sf`, `n`, `immr` and `imms` stand for.
unfoldable pub fields_immediate : ℕ → ℕ → ℕ → ℕ → Option ℤ
fields_immediate sf n immr imms =
    highest_set_bit (bit_or (n * 2 ^ 6) (2 ^ 6 - 1 - imms)) >>= bitmask sf immr imms

unfoldable pub logical_immediate : ℕ → Option ℤ
logical_immediate word =
    fields_immediate (field 31 1 word) (field 22 1 word) (field 16 6 word) (field 10 6 word)

abbrev is_some_value : Option ℤ → ℤ → Bool
is_some_value none value = false
is_some_value (some v) value = is_same_ℤ v value

-- One turn of the three loops: the candidate's bits 22 to 10 when it decodes to the value.
unfoldable pub logical_candidate : ℤ → ℕ → ℕ → ℕ → ℕ → Option ℕ
logical_candidate value sf n immr imms =
    let candidate =
      bit_or (bit_or (bit_or sf (shl_u32 n 22)) (shl_u32 immr 16)) (shl_u32 imms 10) in
    if is_some_value (logical_immediate candidate) value
    then some (field 10 13 candidate * 2 ^ 10)
    else none

unfoldable pub find_logical : ℤ → ℕ → Option ℕ
find_logical value sf =
    first_some (λ n. first_some (λ immr. first_some (logical_candidate value sf n immr) 0 64) 0 64)
      0 2

unfoldable pub encode_logical_immediate : Aarch64Opnd → DecodedOperand → ℕ → Result EncodeError ℕ
encode_logical_immediate kind (DecodedOperand.immediate value) word =
    encoded kind (find_logical value (field 31 1 word * 2 ^ 31)) (λ bits. bits)
encode_logical_immediate kind (DecodedOperand.unsigned_immediate value) word =
    if ltb value (2 ^ 63)
    then encoded kind (find_logical (pos value) (field 31 1 word * 2 ^ 31)) (λ bits. bits)
    else refuse kind
encode_logical_immediate kind _ word = refuse kind
