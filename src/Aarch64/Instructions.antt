-- ===== src/Aarch64/Instructions.antt =====
-- src/isa/aarch64/mod.rs: decoding a word by the opcode table, and encoding an instruction by trying
-- the rows of its mnemonic.
pub mod Encoded
pub mod Packed
pub mod RoundTrip
pub mod Selection
pub mod Tests
use Prim.Native.String.{String}
use armv8_encode.Base.{ℕ, zero, suc, ◌^◌, ◌==◌, ltb, bit_and, bit_or, Bool, true, false, not, ◌&&◌}
use armv8_encode.Base.{◌||◌, if◌then◌else◌, List, [], ◌∷◌, length, get_elem?, Option, none, some}
use armv8_encode.Base.{Result, ok, err, ◌>>=◌}
use armv8_encode.Base.Text.{one_of}
use armv8_encode.Base.Word.{shl_u32}
use armv8_encode.Aarch64.{Aarch64Mnemonic, Aarch64Opnd, Aarch64Opcode, DecodedOperand}
use armv8_encode.Aarch64.{DecodedInstruction, RegisterClass, Register}
use armv8_encode.Aarch64.Mnemonic.{parse, table_name}
use armv8_encode.Aarch64.Operand.{DecodeContext, DecodeError, EncodeContext, EncodeError}
use armv8_encode.Aarch64.Operand.Codec.{decode, encode}
use armv8_encode.Aarch64.Table.{match_opcode, opcodes_for_mnemonic}

pub record InstructionTemplate : Type 0 where
  pub address : ℕ
  pub mnemonic : Aarch64Mnemonic
  pub operands : List DecodedOperand

-- The operands of a row from the index on; the first error ends it.
unfoldable pub decode_operands :
    ℕ → ℕ → Aarch64Opcode → ℕ → List Aarch64Opnd → Result DecodeError (List DecodedOperand)
decode_operands address word opcode index [] = ok []
decode_operands address word opcode index (kind ∷ kinds) =
    decode kind (record { word = word; address = address; opcode = opcode; operand_index = index })
    >>= λ operand. decode_operands address word opcode (suc index) kinds >>= λ operands.
        ok (operand ∷ operands)

abbrev decode_row : ℕ → ℕ → Option Aarch64Opcode → Result DecodeError DecodedInstruction
decode_row address word none = err (DecodeError.no_matching_opcode word)
decode_row address word (some opcode) =
    decode_operands address word opcode 0 opcode.operands >>= λ operands.
    ok
      (record { address = address; word = word; mnemonic = parse opcode.name; operands = operands })

unfoldable pub decode_instruction :
    List Aarch64Opcode → ℕ → ℕ → Result DecodeError DecodedInstruction
decode_instruction table address word = decode_row address word (match_opcode table word)

pub data AliasFixup : Type 0 where
  copy_rn_to_rm copy_dest_sf_to_n : AliasFixup

unfoldable pub alias_fixup : Aarch64Mnemonic → Option AliasFixup
alias_fixup Aarch64Mnemonic.cinc = some AliasFixup.copy_rn_to_rm
alias_fixup mnemonic =
    if one_of (table_name mnemonic) ("sxtb" ∷ "sxth" ∷ "uxtb" ∷ "uxth" ∷ [])
    then some AliasFixup.copy_dest_sf_to_n
    else none

abbrev is_general : RegisterClass → Bool
is_general RegisterClass.w = true
is_general RegisterClass.x = true
is_general _ = false

abbrev pub general_register : Option DecodedOperand → String → Result EncodeError ℕ
general_register (some (DecodedOperand.register r)) kind =
    if is_general r.class && not (ltb 31 r.index)
    then ok r.index
    else err (EncodeError.invalid_operand kind)
general_register _ kind = err (EncodeError.invalid_operand kind)

unfoldable pub gp_register_at : List DecodedOperand → ℕ → String → Result EncodeError ℕ
gp_register_at operands index kind = general_register (get_elem? operands index) kind

abbrev pub n_of_class : RegisterClass → ℕ
n_of_class RegisterClass.x = 2 ^ 22
n_of_class _ = 0

abbrev pub n_of_first : List DecodedOperand → Result EncodeError ℕ
n_of_first (DecodedOperand.register r ∷ operands) = ok (n_of_class r.class)
n_of_first _ = err (EncodeError.invalid_operand "Rd")

abbrev pub fixup_bits : Option AliasFixup → List DecodedOperand → Result EncodeError ℕ
fixup_bits (some AliasFixup.copy_rn_to_rm) operands =
    gp_register_at operands 1 "Rn" >>= λ rn. ok (shl_u32 rn 16)
fixup_bits (some AliasFixup.copy_dest_sf_to_n) operands = n_of_first operands
fixup_bits none operands = ok 0

unfoldable pub alias_implicit_bits : Aarch64Mnemonic → List DecodedOperand → Result EncodeError ℕ
alias_implicit_bits mnemonic operands = fixup_bits (alias_fixup mnemonic) operands

-- The loop over the operands: `word` gathers the bits, and the first error ends it.
unfoldable pub encode_operands :
    ℕ → Aarch64Opcode → List Aarch64Opnd → List DecodedOperand → ℕ → Result EncodeError ℕ
encode_operands address opcode (kind ∷ kinds) (operand ∷ operands) word =
    encode kind operand (record { base_word = word; address = address; opcode = opcode })
    >>= λ bits. encode_operands address opcode kinds operands (bit_or word bits)
encode_operands address opcode _ _ word = ok word

-- A turn of the loop over the rows returns, or goes on with the last error.
pub data Turn : Type 0 where
  returns : Result EncodeError ℕ → Turn
  continues : Option EncodeError → Turn

-- `get_or_insert` keeps an earlier error.
abbrev masked_turn : ℕ → Aarch64Opcode → Option EncodeError → Turn
masked_turn word opcode last_error =
    if bit_and word opcode.mask == bit_and opcode.opcode opcode.mask
    then returns (ok word)
    else continues (get_or_insert last_error)
  where
    get_or_insert : Option EncodeError → Option EncodeError
    get_or_insert none = some (EncodeError.invalid_operand "<mask>")
    get_or_insert (some e) = some e

abbrev with_implicit_bits : Result EncodeError ℕ → ℕ → Aarch64Opcode → Option EncodeError → Turn
with_implicit_bits (err e) word opcode last_error = returns (err e)
with_implicit_bits (ok bits) word opcode last_error =
    masked_turn (bit_or word bits) opcode last_error

-- An operand that the row refuses is not the end.
abbrev operands_turn :
    Result EncodeError ℕ → InstructionTemplate → Aarch64Opcode → Option EncodeError → Turn
operands_turn (ok word) instruction opcode last_error =
    with_implicit_bits (alias_implicit_bits instruction.mnemonic instruction.operands) word opcode
      last_error
operands_turn (err (EncodeError.invalid_operand kind)) instruction opcode last_error =
    continues (some (EncodeError.invalid_operand kind))
operands_turn (err (EncodeError.unimplemented kind)) instruction opcode last_error =
    continues (some (EncodeError.unimplemented kind))
operands_turn (err e) instruction opcode last_error = returns (err e)

unfoldable pub try_row : InstructionTemplate → Aarch64Opcode → Option EncodeError → Turn
try_row instruction opcode last_error =
    if length opcode.operands == length instruction.operands
    then operands_turn
        (encode_operands instruction.address opcode opcode.operands instruction.operands
          opcode.opcode)
        instruction opcode last_error
    else continues last_error

abbrev resumed : Turn → (Option EncodeError → Result EncodeError ℕ) → Result EncodeError ℕ
resumed (returns result) rest = result
resumed (continues last_error) rest = rest last_error

abbrev last_or : Option EncodeError → EncodeError → EncodeError
last_or none e = e
last_or (some last) e = last

unfoldable pub try_rows :
    InstructionTemplate → List Aarch64Opcode → Option EncodeError → Result EncodeError ℕ
try_rows instruction [] last_error =
    err (last_or last_error (EncodeError.no_matching_form (table_name instruction.mnemonic)))
try_rows instruction (row ∷ rows) last_error =
    resumed (try_row instruction row last_error) (try_rows instruction rows)

abbrev pub try_candidates : InstructionTemplate → List Aarch64Opcode → Result EncodeError ℕ
try_candidates instruction [] = err (EncodeError.unknown_mnemonic (table_name instruction.mnemonic))
try_candidates instruction rows = try_rows instruction rows none

unfoldable pub encode_instruction : List Aarch64Opcode → InstructionTemplate → Result EncodeError ℕ
encode_instruction table instruction =
    try_candidates instruction (opcodes_for_mnemonic table instruction.mnemonic)
