-- ===== src/Aarch64/Operand/Vectors.antt =====
-- src/isa/aarch64/operand.rs and table.rs: vector registers, elements and lists, decoded.
pub mod Encode
pub mod Lanes
use Prim.Native.String.{String}
use armv8_encode.Base.{ℕ, ◌+◌, ◌*◌, ◌/◌, ◌%◌, ◌^◌, ◌==◌, leb, bit_or, Bool, true, false, ◌&&◌, ◌||◌}
use armv8_encode.Base.{if◌then◌else◌, Option, none, some, List, [], ◌∷◌}
use armv8_encode.Base.Bits.{field}
use armv8_encode.Base.Text.{is_text, one_of}
use armv8_encode.Base.Int.{ℤ, pos}
use armv8_encode.Aarch64.{Aarch64Opnd, Aarch64Opcode, Aarch64InsnClass, Register, RegisterClass}
use armv8_encode.Aarch64.{VectorArrangement, VectorElement, VectorElementSize, VectorList}
use armv8_encode.Aarch64.{VectorRegister, AddressingMode, MemoryOffset, MemoryOperand}
use armv8_encode.Aarch64.Operand.{rd, rn, rm, rt, x_reg, w_reg, gp_reg, x_or_sp}
use armv8_encode.Aarch64.Operand.Registers.{is_crc32, is_asimdins}

unfoldable pub vector_arrangement_from_parts : ℕ → ℕ → VectorArrangement
vector_arrangement_from_parts q size =
    if q == 0 && size == 0
    then VectorArrangement.b8
    else if q == 1 && size == 0
    then VectorArrangement.b16
    else if q == 0 && size == 1
    then VectorArrangement.h4
    else if q == 1 && size == 1
    then VectorArrangement.h8
    else if q == 0 && size == 2
    then VectorArrangement.s2
    else if q == 1 && size == 2
    then VectorArrangement.s4
    else if q == 0 && size == 3
    then VectorArrangement.d1
    else VectorArrangement.d2

unfoldable pub vector_arrangement : ℕ → VectorArrangement
vector_arrangement word = vector_arrangement_from_parts (field 30 1 word) (field 22 2 word)

unfoldable pub simd_modified_immediate_arrangement : ℕ → VectorArrangement
simd_modified_immediate_arrangement word =
    let q = field 30 1 word in
    let op = field 29 1 word in
    let cmode = field 12 4 word in
    if leb 0x8 cmode && leb cmode 0xb
    then vector_arrangement_from_parts q 1
    else if cmode == 0xe && op == 0
    then vector_arrangement_from_parts q 0
    else if cmode == 0xf && op == 1
    then VectorArrangement.d2
    else vector_arrangement_from_parts q 2

unfoldable pub vector_shift_arrangement : ℕ → VectorArrangement
vector_shift_arrangement word =
    let q = field 30 1 word in
    let immh = field 19 4 word in
    if immh == 0b0001
    then vector_arrangement_from_parts q 0
    else if immh == 0b0010 || immh == 0b0011
    then vector_arrangement_from_parts q 1
    else if leb 0b0100 immh && leb immh 0b0111
    then vector_arrangement_from_parts q 2
    else vector_arrangement_from_parts q 3

unfoldable pub shll_arrangement : ℕ → VectorArrangement
shll_arrangement word =
    if field 22 2 word == 0
    then VectorArrangement.h8
    else if field 22 2 word == 1
    then VectorArrangement.s4
    else VectorArrangement.d2

-- The match on `trailing_zeros`: the lowest bit that is set, if it is one of the lowest three.
unfoldable pub element_size_from_imm5 : ℕ → VectorElementSize
element_size_from_imm5 imm5 =
    if imm5 % 2 == 1
    then VectorElementSize.b
    else if imm5 / 2 % 2 == 1
    then VectorElementSize.h
    else if imm5 / 4 % 2 == 1
    then VectorElementSize.s
    else VectorElementSize.d

unfoldable pub element_size_shift : VectorElementSize → ℕ
element_size_shift VectorElementSize.b = 0
element_size_shift VectorElementSize.h = 1
element_size_shift VectorElementSize.s = 2
element_size_shift VectorElementSize.d = 3

unfoldable pub arrangement_for_element_size : VectorElementSize → VectorArrangement
arrangement_for_element_size VectorElementSize.b = VectorArrangement.b8
arrangement_for_element_size VectorElementSize.h = VectorArrangement.h4
arrangement_for_element_size VectorElementSize.s = VectorArrangement.s2
arrangement_for_element_size VectorElementSize.d = VectorArrangement.d1

abbrev size_and_q : VectorElementSize → Bool → VectorArrangement
size_and_q VectorElementSize.b true = VectorArrangement.b8
size_and_q VectorElementSize.b false = VectorArrangement.b16
size_and_q VectorElementSize.h true = VectorArrangement.h4
size_and_q VectorElementSize.h false = VectorArrangement.h8
size_and_q VectorElementSize.s true = VectorArrangement.s2
size_and_q VectorElementSize.s false = VectorArrangement.s4
size_and_q VectorElementSize.d true = VectorArrangement.d1
size_and_q VectorElementSize.d false = VectorArrangement.d2

-- The flag says that bit 30 is clear.
unfoldable pub arrangement_from_element_size_and_q : VectorElementSize → ℕ → VectorArrangement
arrangement_from_element_size_and_q size word = size_and_q size (field 30 1 word == 0)

abbrev pub is_asimdimm : Aarch64InsnClass → Bool
is_asimdimm Aarch64InsnClass.asimdimm = true
is_asimdimm _ = false

abbrev vector_reg_arrangement : Aarch64InsnClass → String → ℕ → VectorArrangement
vector_reg_arrangement Aarch64InsnClass.asimdimm mnemonic word =
    simd_modified_immediate_arrangement word
vector_reg_arrangement Aarch64InsnClass.asimdshf mnemonic word = vector_shift_arrangement word
vector_reg_arrangement Aarch64InsnClass.asimdins mnemonic word =
    if is_text mnemonic "dup"
    then arrangement_from_element_size_and_q (element_size_from_imm5 (field 16 5 word)) word
    else if is_text mnemonic "shll"
    then shll_arrangement word
    else vector_arrangement word
vector_reg_arrangement _ mnemonic word =
    if is_text mnemonic "shll" then shll_arrangement word else vector_arrangement word

unfoldable pub vector_reg : ℕ → ℕ → Aarch64Opcode → VectorRegister
vector_reg reg word opcode = record {
  index = reg;
  arrangement = vector_reg_arrangement opcode.iclass opcode.name word;
}

-- The result of an element move is wide only for the widest elements.
abbrev element_reg : VectorElementSize → ℕ → Register
element_reg VectorElementSize.d reg = x_reg reg
element_reg _ reg = w_reg reg

unfoldable pub rd_reg : ℕ → Aarch64Opcode → Register
rd_reg word opcode =
    let mnemonic = opcode.name in
    if one_of mnemonic ("adr" ∷ "adrp" ∷ [])
    then x_reg (rd word)
    else if is_crc32 mnemonic
    then w_reg (rd word)
    else if one_of mnemonic ("mov" ∷ "umov" ∷ "smov" ∷ []) && is_asimdins opcode.iclass
    then element_reg (element_size_from_imm5 (field 16 5 word)) (rd word)
    else gp_reg (rd word) word

unfoldable pub simd_scalar_reg : ℕ → ℕ → Aarch64Opcode → Register
simd_scalar_reg reg word opcode = record {
  class =
      if is_asimdimm opcode.iclass
      then RegisterClass.d
      else if field 22 2 word == 0
      then RegisterClass.b
      else if field 22 2 word == 1
      then RegisterClass.h
      else if field 22 2 word == 2
      then RegisterClass.s
      else RegisterClass.d;
  index = reg;
}

unfoldable pub element_from_imm5 : ℕ → ℕ → VectorElement
element_from_imm5 index imm5 =
    let size = element_size_from_imm5 imm5 in
    record { index = index; element = imm5 / 2 ^ (element_size_shift size + 1); size = size }

unfoldable pub ed : ℕ → VectorElement
ed word = element_from_imm5 (rd word) (field 16 5 word)

-- `opcode.operands().first() == Some(&kind)`.
abbrev pub starts_with_ed : List Aarch64Opnd → Bool
starts_with_ed (Aarch64Opnd.ed ∷ kinds) = true
starts_with_ed _ = false

abbrev starts_with_let : List Aarch64Opnd → Bool
starts_with_let (Aarch64Opnd.let_ ∷ kinds) = true
starts_with_let _ = false

-- The middle arm of the source, for the size B, is the last one at a shift of 0.
unfoldable pub en : ℕ → Aarch64Opcode → VectorElement
en word opcode =
    let size = element_size_from_imm5 (field 16 5 word) in
    record {
      index = rn word;
      element =
          if starts_with_ed opcode.operands
          then field 11 4 word / 2 ^ element_size_shift size
          else field 16 5 word / 2 ^ (element_size_shift size + 1);
      size = size;
    }

-- The match on the size: only 1 is H, all others are S.
unfoldable pub em : ℕ → VectorElement
em word =
    let h = field 11 1 word in
    let l = field 21 1 word in
    let m = field 20 1 word in
    if field 22 2 word == 1
    then record {
      index = rm word;
      element = bit_or (bit_or (h * 2 ^ 2) (l * 2)) m;
      size = VectorElementSize.h;
    }
    else record { index = rm word; element = bit_or (h * 2) l; size = VectorElementSize.s }

unfoldable pub vector_list : ℕ → VectorList
vector_list word = record {
  first = rn word;
  count = field 13 2 word + 1;
  arrangement = vector_arrangement word;
  element = none;
}

-- Of `opcode[15:12]`; the source's `unwrap_or(1)` is the last arm.
unfoldable pub simd_ldst_list_count : ℕ → Option ℕ
simd_ldst_list_count instruction =
    let code = field 12 4 instruction in
    if code == 0b0000 || code == 0b0010
    then some 4
    else if code == 0b0100 || code == 0b0110
    then some 3
    else if code == 0b0111
    then some 1
    else if code == 0b1000 || code == 0b1010
    then some 2
    else none

abbrev or_one : Option ℕ → ℕ
or_one none = 1
or_one (some count) = count

unfoldable pub simd_ldst_list : ℕ → VectorList
simd_ldst_list word = record {
  first = rt word;
  count = or_one (simd_ldst_list_count word);
  arrangement = vector_arrangement_from_parts (field 30 1 word) (field 10 2 word);
  element = none;
}

unfoldable pub simd_ldst_element_count : String → ℕ
simd_ldst_element_count mnemonic =
    if one_of mnemonic ("ld2" ∷ "st2" ∷ [])
    then 2
    else if one_of mnemonic ("ld3" ∷ "st3" ∷ [])
    then 3
    else if one_of mnemonic ("ld4" ∷ "st4" ∷ [])
    then 4
    else 1

unfoldable pub simd_ldst_element : ℕ → VectorElementSize × ℕ
simd_ldst_element word =
    let q = field 30 1 word in
    let s = field 12 1 word in
    let size = field 10 2 word in
    if size == 3
    then (VectorElementSize.b, bit_or (bit_or (q * 2 ^ 3) (s * 2 ^ 2)) (field 10 2 word))
    else if size == 2
    then (VectorElementSize.h, bit_or (bit_or (q * 2 ^ 2) (s * 2)) (field 11 1 word))
    else if size == 0
    then (VectorElementSize.s, bit_or (q * 2) s)
    else (VectorElementSize.d, q)

unfoldable pub simd_ldst_element_list : ℕ → Aarch64Opcode → VectorList
simd_ldst_element_list word opcode =
    let (size, element) = simd_ldst_element word in
    record {
      first = rt word;
      count = simd_ldst_element_count opcode.name;
      arrangement = arrangement_for_element_size size;
      element = some element;
    }

unfoldable pub element_size_bytes : VectorElementSize → ℕ
element_size_bytes VectorElementSize.b = 1
element_size_bytes VectorElementSize.h = 2
element_size_bytes VectorElementSize.s = 4
element_size_bytes VectorElementSize.d = 8

unfoldable pub simd_post_index_immediate : ℕ → Aarch64Opcode → ℤ
simd_post_index_immediate word opcode =
    if starts_with_let opcode.operands
    then pos (simd_ldst_element_count opcode.name * element_size_bytes (simd_ldst_element word).0)
    else if field 12 4 word == 0xc
    then pos 1
    else if field 12 4 word == 0xa
    then pos 32
    else pos 16

unfoldable pub simd_addr_post : ℕ → Aarch64Opcode → MemoryOperand
simd_addr_post word opcode = record {
  base = x_or_sp (rn word);
  offset =
      if rm word == 31
      then MemoryOffset.immediate (simd_post_index_immediate word opcode)
      else MemoryOffset.register (x_reg (rm word)) none;
  mode = AddressingMode.post_index;
}
