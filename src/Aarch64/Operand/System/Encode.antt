-- ===== src/Aarch64/Operand/System/Encode.antt =====
-- src/isa/aarch64/operand.rs: operands that are texts, encoded.
use Prim.Native.String.{String}
use armv8_encode.Base.{ℕ, ◌^◌, ◌==◌, leb, bit_or, bit_xor, Bool}
use armv8_encode.Base.{◌||◌, if◌then◌else◌, List, [], ◌∷◌, Option, none, some, Result, ok}
use armv8_encode.Base.Bits.{field}
use armv8_encode.Base.Partial.{◌>>=◌, first_some}
use armv8_encode.Base.Text.{is_text, lookup_text, strip_prefix, split_on, parse_u8}
use armv8_encode.Base.Word.{shl_u32}
use armv8_encode.Aarch64.{Aarch64Opnd, DecodedOperand}
use armv8_encode.Aarch64.Operand.{EncodeError, refuse, encoded}
use armv8_encode.Aarch64.Operand.Immediates.Encode.{encode_simd_imm8}
use armv8_encode.Aarch64.Operand.System.{format_fpimm8}

unfoldable pub condition_code : String → Option ℕ
condition_code condition =
    lookup_text
      (("eq", 0x0)
        ∷ ("ne", 0x1)
        ∷ ("hs", 0x2)
        ∷ ("cs", 0x2)
        ∷ ("lo", 0x3)
        ∷ ("cc", 0x3)
        ∷ ("mi", 0x4)
        ∷ ("pl", 0x5)
        ∷ ("vs", 0x6)
        ∷ ("vc", 0x7)
        ∷ ("hi", 0x8)
        ∷ ("ls", 0x9)
        ∷ ("ge", 0xa)
        ∷ ("lt", 0xb)
        ∷ ("gt", 0xc)
        ∷ ("le", 0xd)
        ∷ ("al", 0xe)
        ∷ ("nv", 0xf)
        ∷ [])
      condition

unfoldable pub encode_condition : Aarch64Opnd → DecodedOperand → Bool → Result EncodeError ℕ
encode_condition kind (DecodedOperand.condition condition) inverted_alias =
    encoded kind (condition_code condition)
      λ code. shl_u32 (if inverted_alias then bit_xor code 1 else code) 12
encode_condition kind _ inverted_alias = refuse kind

unfoldable pub encode_system_fixed : Aarch64Opnd → DecodedOperand → String → Result EncodeError ℕ
encode_system_fixed kind (DecodedOperand.system value) expected =
    if is_text value expected then ok 0 else refuse kind
encode_system_fixed kind _ expected = refuse kind

-- `filter`: the number when it is at most the bound.
abbrev at_most : ℕ → Option ℕ → Option ℕ
at_most bound none = none
at_most bound (some n) = if leb n bound then some n else none

abbrev or_else : Option ℕ → Option ℕ → Option ℕ
or_else none other = other
or_else (some n) other = some n

unfoldable pub parse_prefixed_hex : String → String → Option ℕ
parse_prefixed_hex value prefix = strip_prefix value prefix >>= parse_u8 16

unfoldable pub parse_prefixed_decimal : String → String → Option ℕ
parse_prefixed_decimal value prefix = strip_prefix value prefix >>= parse_u8 10

unfoldable pub encode_coproc_register : Aarch64Opnd → DecodedOperand → ℕ → Result EncodeError ℕ
encode_coproc_register kind (DecodedOperand.system value) bit_offset =
    encoded kind (at_most 0xf (parse_prefixed_decimal value "c"))
      λ number. shl_u32 number bit_offset
encode_coproc_register kind _ bit_offset = refuse kind

unfoldable pub encode_barrier : Aarch64Opnd → DecodedOperand → Result EncodeError ℕ
encode_barrier kind (DecodedOperand.system value) =
    encoded kind
      (or_else
        (lookup_text
          (("oshld", 0x1)
            ∷ ("oshst", 0x2)
            ∷ ("osh", 0x3)
            ∷ ("nshld", 0x5)
            ∷ ("nshst", 0x6)
            ∷ ("nsh", 0x7)
            ∷ ("ishld", 0x9)
            ∷ ("ishst", 0xa)
            ∷ ("ish", 0xb)
            ∷ ("ld", 0xd)
            ∷ ("st", 0xe)
            ∷ ("sy", 0xf)
            ∷ [])
          value)
        (at_most 0xf (parse_prefixed_hex value "#0x")))
      λ code. shl_u32 code 8
encode_barrier kind _ = refuse kind

unfoldable pub encode_barrier_isb : Aarch64Opnd → DecodedOperand → Result EncodeError ℕ
encode_barrier_isb kind (DecodedOperand.system value) =
    encoded kind
      (or_else (lookup_text (("sy", 0xf) ∷ []) value)
        (at_most 0xf (parse_prefixed_decimal value "#")))
      λ code. shl_u32 code 8
encode_barrier_isb kind _ = refuse kind

-- Fields as a number each, with an upper bound.
abbrev bounded_pieces : List (String × ℕ) → List String → Option (List ℕ)
bounded_pieces [] [] = some []
bounded_pieces [] (piece ∷ pieces) = none
bounded_pieces (form ∷ forms) [] = none
bounded_pieces ((prefix, bound) ∷ forms) (piece ∷ pieces) =
    at_most bound (parse_prefixed_decimal piece prefix) >>= λ n.
    bounded_pieces forms pieces >>= λ ns. some (n ∷ ns)

-- The fields one behind the other, each a number and its place.
abbrev pack_fields : List ℕ → List ℕ → ℕ
pack_fields (n ∷ ns) (place ∷ places) = bit_or (shl_u32 n place) (pack_fields ns places)
pack_fields _ _ = 0

abbrev packed_fields : Aarch64Opnd → Option (List ℕ) → List ℕ → Result EncodeError ℕ
packed_fields kind none places = refuse kind
packed_fields kind (some ns) places = ok (pack_fields ns places)

abbrev or_parsed : Option (List ℕ) → Option (List ℕ) → Option (List ℕ)
or_parsed none parsed = parsed
or_parsed (some ns) parsed = some ns

unfoldable pub parse_pstate_field : String → Option (List ℕ)
parse_pstate_field value = strip_prefix value "pstate:" >>= λ rest.
    bounded_pieces (("", 7) ∷ ("", 7) ∷ []) (split_on b':' rest)

unfoldable pub encode_pstate_field : Aarch64Opnd → DecodedOperand → Result EncodeError ℕ
encode_pstate_field kind (DecodedOperand.system value) =
    packed_fields kind
      (or_parsed (lookup_text (("DAIFSet", 3 ∷ 6 ∷ []) ∷ ("DAIFClr", 3 ∷ 7 ∷ []) ∷ []) value)
        (parse_pstate_field value))
      (16 ∷ 5 ∷ [])
encode_pstate_field kind _ = refuse kind

unfoldable pub encode_prfop : Aarch64Opnd → DecodedOperand → Result EncodeError ℕ
encode_prfop kind (DecodedOperand.system value) =
    encoded kind
      (or_else
        (lookup_text
          (("pldl1keep", 0x00)
            ∷ ("pldl1strm", 0x01)
            ∷ ("pldl2keep", 0x02)
            ∷ ("pldl2strm", 0x03)
            ∷ ("pldl3keep", 0x04)
            ∷ ("pldl3strm", 0x05)
            ∷ ("plil1keep", 0x08)
            ∷ ("plil1strm", 0x09)
            ∷ ("plil2keep", 0x0a)
            ∷ ("plil2strm", 0x0b)
            ∷ ("plil3keep", 0x0c)
            ∷ ("plil3strm", 0x0d)
            ∷ ("pstl1keep", 0x10)
            ∷ ("pstl1strm", 0x11)
            ∷ ("pstl2keep", 0x12)
            ∷ ("pstl2strm", 0x13)
            ∷ ("pstl3keep", 0x14)
            ∷ ("pstl3strm", 0x15)
            ∷ [])
          value)
        (at_most 0x1f (parse_prefixed_hex value "#0x")))
      λ code. code
encode_prfop kind _ = refuse kind

unfoldable pub parse_sysreg_name : String → Option (List ℕ)
parse_sysreg_name value = strip_prefix value "S" >>= λ rest.
    bounded_pieces (("", 3) ∷ ("", 7) ∷ ("C", 0xf) ∷ ("C", 0xf) ∷ ("", 7) ∷ []) (split_on b'_' rest)

unfoldable pub encode_sysreg : Aarch64Opnd → DecodedOperand → Result EncodeError ℕ
encode_sysreg kind (DecodedOperand.system value) =
    packed_fields kind
      (or_parsed
        (lookup_text
          (("NZCV", 3 ∷ 3 ∷ 4 ∷ 2 ∷ 0 ∷ [])
            ∷ ("TPIDR_EL0", 3 ∷ 3 ∷ 13 ∷ 0 ∷ 2 ∷ [])
            ∷ ("CNTVCT_EL0", 3 ∷ 3 ∷ 14 ∷ 0 ∷ 2 ∷ [])
            ∷ [])
          value)
        (parse_sysreg_name value))
      (19 ∷ 16 ∷ 12 ∷ 8 ∷ 5 ∷ [])
encode_sysreg kind _ = refuse kind

unfoldable pub parse_sys_op_name : String → String → Option (List ℕ)
parse_sys_op_name value prefix = strip_prefix value prefix >>= λ after.
    strip_prefix after ":" >>= λ rest.
    bounded_pieces (("#", 7) ∷ ("c", 0xf) ∷ ("c", 0xf) ∷ ("#", 7) ∷ []) (split_on b':' rest)

-- The named operations of each prefix.
abbrev named_sys_ops : List (String × List (String × List ℕ))
named_sys_ops =
    ("at", ("s1e1r", 0 ∷ 7 ∷ 8 ∷ 0 ∷ []) ∷ [])
    ∷ ("dc", ("zva", 3 ∷ 7 ∷ 4 ∷ 1 ∷ []) ∷ [])
    ∷ ("ic", ("ivau", 3 ∷ 7 ∷ 5 ∷ 1 ∷ []) ∷ ("iallu", 0 ∷ 7 ∷ 5 ∷ 0 ∷ []) ∷ [])
    ∷ ("tlbi", ("vale1", 0 ∷ 8 ∷ 7 ∷ 5 ∷ []) ∷ ("vmalle1", 0 ∷ 8 ∷ 7 ∷ 0 ∷ []) ∷ [])
    ∷ []

unfoldable pub encode_sys_op : Aarch64Opnd → DecodedOperand → String → Result EncodeError ℕ
encode_sys_op kind (DecodedOperand.system value) prefix =
    packed_fields kind
      (or_parsed (lookup_text named_sys_ops prefix >>= λ ops. lookup_text ops value)
        (parse_sys_op_name value prefix))
      (16 ∷ 12 ∷ 8 ∷ 5 ∷ [])
encode_sys_op kind _ prefix = refuse kind

abbrev byte_printed_as : String → ℕ → Option ℕ
byte_printed_as value imm8 = if is_text (format_fpimm8 imm8) value then some imm8 else none

unfoldable pub fp_immediate_bits : String → Option ℕ
fp_immediate_bits value = first_some (byte_printed_as value) 0 256

unfoldable pub encode_zero_float_immediate : Aarch64Opnd → DecodedOperand → Result EncodeError ℕ
encode_zero_float_immediate kind (DecodedOperand.float_immediate value) =
    if is_text value "0.0" || is_text value "0.00000000" then ok 0 else refuse kind
encode_zero_float_immediate kind _ = refuse kind

unfoldable pub encode_fp_immediate : Aarch64Opnd → DecodedOperand → ℕ → Result EncodeError ℕ
encode_fp_immediate kind (DecodedOperand.float_immediate value) bit_offset =
    encoded kind (fp_immediate_bits value) λ imm8. shl_u32 imm8 bit_offset
encode_fp_immediate kind _ bit_offset = refuse kind

unfoldable pub encode_simd_fp_immediate : Aarch64Opnd → DecodedOperand → ℕ → Result EncodeError ℕ
encode_simd_fp_immediate kind (DecodedOperand.float_immediate value) word =
    let op = if field 30 1 word == 0 then 0 else 2 ^ 29 in
    encoded kind (fp_immediate_bits value)
      λ imm8. bit_or (bit_or op (shl_u32 0xf 12)) (encode_simd_imm8 imm8)
encode_simd_fp_immediate kind _ word = refuse kind
