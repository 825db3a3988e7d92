-- ===== src/Aarch64/Operand/Vectors/Encode.antt =====
-- src/isa/aarch64/operand.rs: vector registers, elements and lists, encoded. A count of a list is at
-- most 4 where the last arm of the source's matches on it refuses.
use armv8_encode.Base.{ℕ, ◌+◌, ◌-◌, ◌*◌, ◌/◌, ◌%◌, ◌^◌, ◌==◌, ltb, leb, bit_or, Bool, true, false}
use armv8_encode.Base.{not, ◌&&◌, if◌then◌else◌, Option, none, some, Result, ok, err}
use armv8_encode.Base.{◌>>=◌}
use armv8_encode.Base.Text.{is_text, ends_with}
use armv8_encode.Base.Word.{u8, shl_u32}
use armv8_encode.Aarch64.{
  Aarch64Opnd, Aarch64Opcode, Aarch64InsnClass, DecodedOperand, RegisterClass,
}
use armv8_encode.Aarch64.{VectorArrangement, VectorElement, VectorElementSize, VectorList}
use armv8_encode.Aarch64.Operand.{EncodeError, refuse, encoded}
use armv8_encode.Aarch64.Operand.Registers.{is_asimdins}
use armv8_encode.Aarch64.Operand.Vectors.{is_asimdimm, element_size_shift, starts_with_ed}

unfoldable pub vector_arrangement_bits : VectorArrangement → ℕ × ℕ
vector_arrangement_bits VectorArrangement.b8 = (0, 0)
vector_arrangement_bits VectorArrangement.b16 = (1, 0)
vector_arrangement_bits VectorArrangement.h4 = (0, 1)
vector_arrangement_bits VectorArrangement.h8 = (1, 1)
vector_arrangement_bits VectorArrangement.s2 = (0, 2)
vector_arrangement_bits VectorArrangement.s4 = (1, 2)
vector_arrangement_bits VectorArrangement.d1 = (0, 3)
vector_arrangement_bits VectorArrangement.d2 = (1, 3)

unfoldable pub element_size_from_arrangement : VectorArrangement → VectorElementSize
element_size_from_arrangement VectorArrangement.b8 = VectorElementSize.b
element_size_from_arrangement VectorArrangement.b16 = VectorElementSize.b
element_size_from_arrangement VectorArrangement.h4 = VectorElementSize.h
element_size_from_arrangement VectorArrangement.h8 = VectorElementSize.h
element_size_from_arrangement VectorArrangement.s2 = VectorElementSize.s
element_size_from_arrangement VectorArrangement.s4 = VectorElementSize.s
element_size_from_arrangement VectorArrangement.d1 = VectorElementSize.d
element_size_from_arrangement VectorArrangement.d2 = VectorElementSize.d

abbrev modified_cmode : VectorElementSize → ℕ
modified_cmode VectorElementSize.b = 0xe
modified_cmode VectorElementSize.h = 0x8
modified_cmode _ = 0

abbrev is_asimdshf : Aarch64InsnClass → Bool
is_asimdshf Aarch64InsnClass.asimdshf = true
is_asimdshf _ = false

-- The bits beside the register's own: those of the arrangement, where the row keeps them.
abbrev arrangement_fields : Aarch64Opcode → VectorArrangement → ℕ
arrangement_fields opcode arrangement =
    let (q, size) = vector_arrangement_bits arrangement in
    let element = element_size_from_arrangement arrangement in
    if is_text opcode.name "shll"
    then 0
    else if is_asimdimm opcode.iclass
    then bit_or (shl_u32 q 30) (shl_u32 (modified_cmode element) 12)
    else if is_asimdins opcode.iclass && is_text opcode.name "dup"
    then shl_u32 q 30
    else if is_asimdshf opcode.iclass
    then bit_or (shl_u32 q 30) (shl_u32 (2 ^ element_size_shift element) 19)
    else bit_or (shl_u32 q 30) (shl_u32 size 22)

unfoldable pub encode_vector_register :
    Aarch64Opnd → DecodedOperand → Aarch64Opcode → ℕ → Result EncodeError ℕ
encode_vector_register kind (DecodedOperand.vector_register r) opcode bit_offset =
    if ltb 31 r.index
    then refuse kind
    else ok (bit_or (arrangement_fields opcode r.arrangement) (shl_u32 r.index bit_offset))
encode_vector_register kind _ opcode bit_offset = refuse kind

abbrev bits_of_d : RegisterClass → Option ℕ
bits_of_d RegisterClass.d = some 0
bits_of_d _ = none

abbrev scalar_size : RegisterClass → Option ℕ
scalar_size RegisterClass.b = some 0
scalar_size RegisterClass.h = some 1
scalar_size RegisterClass.s = some 2
scalar_size RegisterClass.d = some 3
scalar_size _ = none

unfoldable pub encode_simd_scalar_register :
    Aarch64Opnd → DecodedOperand → Aarch64Opcode → ℕ → Result EncodeError ℕ
encode_simd_scalar_register kind (DecodedOperand.register r) opcode bit_offset =
    if ltb 31 r.index
    then refuse kind
    else encoded kind (if is_asimdimm opcode.iclass then bits_of_d r.class else scalar_size r.class)
        λ size. bit_or (shl_u32 size 22) (shl_u32 r.index bit_offset)
encode_simd_scalar_register kind _ opcode bit_offset = refuse kind

abbrev is_d : VectorElementSize → Bool
is_d VectorElementSize.d = true
is_d _ = false

unfoldable pub encode_vector_d1 : Aarch64Opnd → DecodedOperand → ℕ → Result EncodeError ℕ
encode_vector_d1 kind (DecodedOperand.vector_element e) bit_offset =
    if leb e.index 31 && e.element == 1 && is_d e.size
    then ok (shl_u32 e.index bit_offset)
    else refuse kind
encode_vector_d1 kind _ bit_offset = refuse kind

abbrev element_error : EncodeError
element_error = EncodeError.invalid_operand "element"

-- The shifts are those of a `u8`.
unfoldable pub encode_imm5_element : VectorElement → Result EncodeError ℕ
encode_imm5_element e =
    let shift = element_size_shift e.size in
    if ltb e.element (16 / 2 ^ shift)
    then ok (bit_or (2 ^ shift) (u8 (e.element * 2 ^ (shift + 1))))
    else err element_error

-- The fields `size`, `h`, `l` and `m`.
unfoldable pub encode_em_element : VectorElementSize → ℕ → Result EncodeError (ℕ × ℕ × ℕ × ℕ)
encode_em_element VectorElementSize.h element =
    if ltb element 8
    then ok (1, element / 4 % 2, element / 2 % 2, element % 2)
    else err element_error
encode_em_element VectorElementSize.s element =
    if ltb element 4 then ok (2, element / 2 % 2, element % 2, 0) else err element_error
encode_em_element VectorElementSize.d element =
    if ltb element 2 then ok (3, element % 2, 0, 0) else err element_error
encode_em_element VectorElementSize.b element = err element_error

abbrev en_fields : VectorElement → Bool → Result EncodeError ℕ
en_fields e true = ok (
    bit_or (shl_u32 (2 ^ element_size_shift e.size) 16)
      (shl_u32 e.element (element_size_shift e.size + 11)))
en_fields e false = encode_imm5_element e >>= λ imm5. ok (shl_u32 imm5 16)

abbrev element_fields : Aarch64Opnd → VectorElement → Aarch64Opcode → Result EncodeError ℕ
element_fields Aarch64Opnd.ed e opcode = encode_imm5_element e >>= λ imm5. ok (shl_u32 imm5 16)
element_fields Aarch64Opnd.en e opcode = en_fields e (starts_with_ed opcode.operands)
element_fields Aarch64Opnd.em e opcode = encode_em_element e.size e.element >>= λ (size, h, l, m).
    ok (bit_or (bit_or (shl_u32 size 22) (shl_u32 h 11)) (bit_or (shl_u32 l 21) (shl_u32 m 20)))
element_fields kind e opcode = refuse kind

unfoldable pub encode_vector_element :
    Aarch64Opnd → DecodedOperand → Aarch64Opcode → ℕ → Result EncodeError ℕ
encode_vector_element kind (DecodedOperand.vector_element e) opcode bit_offset =
    if ltb 31 e.index
    then refuse kind
    else element_fields kind e opcode >>= λ bits. ok (bit_or (shl_u32 e.index bit_offset) bits)
encode_vector_element kind _ opcode bit_offset = refuse kind

abbrev is_none : Option ℕ → Bool
is_none none = true
is_none (some element) = false

-- A list of one to four registers, whole ones.
abbrev is_whole_list : VectorList → Bool
is_whole_list l = leb l.first 31 && leb 1 l.count && leb l.count 4 && is_none l.element

-- Bits 15:12: the interleaved forms go by the mnemonic, `ld1` and `st1` by the count.
abbrev structure_bits : Aarch64Opcode → ℕ → ℕ
structure_bits opcode count =
    if ends_with opcode.name "2"
    then 0x8
    else if ends_with opcode.name "3"
    then 0x4
    else if ends_with opcode.name "4"
    then 0x0
    else if count == 1
    then 0x7
    else if count == 2
    then 0xa
    else if count == 3
    then 0x6
    else 0x2

unfoldable pub encode_vector_list :
    Aarch64Opnd → DecodedOperand → ℕ → Aarch64Opcode → Result EncodeError ℕ
encode_vector_list kind (DecodedOperand.vector_list l) bit_offset opcode =
    let (q, size) = vector_arrangement_bits l.arrangement in
    if not (is_whole_list l)
    then refuse kind
    else if bit_offset == 0
    then ok (
        bit_or (bit_or (shl_u32 q 30) (shl_u32 size 10))
          (bit_or (shl_u32 (structure_bits opcode l.count) 12) (shl_u32 l.first bit_offset)))
    else ok (
        bit_or (bit_or (shl_u32 q 30) (shl_u32 size 22))
          (bit_or (shl_u32 l.first bit_offset) (shl_u32 (l.count - 1) 13)))
encode_vector_list kind _ bit_offset opcode = refuse kind

unfoldable pub encode_vector_list_all_lanes : Aarch64Opnd → DecodedOperand → Result EncodeError ℕ
encode_vector_list_all_lanes kind (DecodedOperand.vector_list l) =
    let (q, size) = vector_arrangement_bits l.arrangement in
    if is_whole_list l
    then ok (bit_or (bit_or (shl_u32 q 30) (shl_u32 size 10)) l.first)
    else refuse kind
encode_vector_list_all_lanes kind _ = refuse kind

-- The fields `q`, `s` and `size`.
unfoldable pub encode_simd_ldst_element : VectorElementSize → ℕ → Option (ℕ × ℕ × ℕ)
encode_simd_ldst_element VectorElementSize.b element =
    if ltb element 16 then some (element / 8 % 2, element / 4 % 2, 3) else none
encode_simd_ldst_element VectorElementSize.h element =
    if ltb element 8 then some (element / 4 % 2, element / 2 % 2, 2) else none
encode_simd_ldst_element VectorElementSize.s element =
    if ltb element 4 then some (element / 2 % 2, element % 2, 0) else none
encode_simd_ldst_element VectorElementSize.d element =
    if ltb element 2 then some (element % 2, 0, 1) else none

abbrev pub count_bits : ℕ → ℕ
count_bits count = if count == 2 then 2 ^ 14 else if count == 4 then 2 ^ 15 else 0

-- The error of an element out of range names the kind `Let` whatever the kind is.
abbrev pub lane_fields : VectorList → Option (ℕ × ℕ × ℕ) → Result EncodeError ℕ
lane_fields l none = refuse Aarch64Opnd.let_
lane_fields l (some (q, s, encoded_size)) = ok (
    bit_or (bit_or (shl_u32 q 30) (count_bits l.count))
      (bit_or (bit_or (shl_u32 s 12) (shl_u32 encoded_size 10)) l.first))

abbrev pub element_list : Aarch64Opnd → VectorList → Option ℕ → Result EncodeError ℕ
element_list kind l none = refuse kind
element_list kind l (some element) =
    lane_fields l (encode_simd_ldst_element (element_size_from_arrangement l.arrangement) element)

unfoldable pub encode_vector_element_list : Aarch64Opnd → DecodedOperand → Result EncodeError ℕ
encode_vector_element_list kind (DecodedOperand.vector_list l) =
    if leb l.first 31 && leb 1 l.count && leb l.count 4
    then element_list kind l l.element
    else refuse kind
encode_vector_element_list kind _ = refuse kind
