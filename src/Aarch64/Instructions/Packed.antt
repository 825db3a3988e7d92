-- ===== src/Aarch64/Instructions/Packed.antt =====
-- src/isa/aarch64/mod.rs: the word of an encoded instruction, operand by operand.
use Prim.Native.String.{String}
use armv8_encode.Base.{
  ℕ, ◌*◌, ◌^◌, ◌≤◌, ◌≡◌, ◌≢◌, inl, inr, refl, sym, ap, ◌∙◌, arith, bit_and, bit_or,
}
use armv8_encode.Base.{
  Bool, true, false, List, [], ◌∷◌, ◌∈◌, length, get_elem?, >>=-eq-ok, if◌then◌else◌,
}
use armv8_encode.Base.{Option, none, some, Result-cases, ok, ok_injective}
use armv8_encode.Base.Text.{one_of}
use armv8_encode.Base.Word.{shl_u32}
use armv8_encode.Aarch64.{
  Aarch64Mnemonic, Aarch64Opnd, Aarch64Opcode, DecodedOperand, RegisterClass, Register,
}
use armv8_encode.Aarch64.Mnemonic.{parse, is_same_mnemonic, table_name}
use mathlib.Core.List.{foldl}
use armv8_encode.Aarch64.Operand.Codec.{encode}
use armv8_encode.Aarch64.Instructions.{InstructionTemplate, encode_instruction, encode_operands}
use armv8_encode.Aarch64.Instructions.{alias_implicit_bits, alias_fixup, AliasFixup, gp_register_at}
use armv8_encode.Aarch64.Instructions.{general_register, n_of_first, n_of_class, fixup_bits}
use armv8_encode.Aarch64.Instructions.Encoded.{encode_instruction-Emitted}

-- The bits are those of the operands, one for one, each encoded as its kind.
unfoldable pub AreEncoded :
    ℕ → Aarch64Opcode → ℕ → List Aarch64Opnd → List DecodedOperand → List ℕ → Type 0
AreEncoded address row word [] [] [] = Unit
AreEncoded address row word (kind ∷ kinds) (x ∷ xs) (bits ∷ all) =
    (encode kind x (record { base_word = word; address = address; opcode = row }) ≡ ok bits)
    × AreEncoded address row (bit_or word bits) kinds xs all
AreEncoded address row word _ _ _ = ⊥

pub encode_operands-AreEncoded :
    (address word out : ℕ) (row : Aarch64Opcode) (kinds : List Aarch64Opnd)
    (xs : List DecodedOperand)
    → length kinds ≡ length xs
    → encode_operands address row kinds xs word ≡ ok out
    → (all : List ℕ) × AreEncoded address row word kinds xs all × (out ≡ foldl bit_or word all)
unfolding encode_operands AreEncoded
encode_operands-AreEncoded address word out row [] [] same h = ([], tt, sym (ok_injective h))
encode_operands-AreEncoded address word out row [] (x ∷ xs) same h = absurd (omega (arith, same))
encode_operands-AreEncoded address word out row (kind ∷ kinds) [] same h =
    absurd (omega (arith, same))
encode_operands-AreEncoded address word out row (kind ∷ kinds) (x ∷ xs) same h =
    elim (Result-cases
      (encode kind x (record { base_word = word; address = address; opcode = row }))) [
        | inr (failure, e) ↦ absurd (ground arith)
        | inl (bits, e) ↦
            let (all, each, is) =
              encode_operands-AreEncoded address (bit_or word bits) out row kinds xs
                (omega (arith, same)) (ground arith) in
            (bits ∷ all, (e, each), is)
      ]

abbrev pub width_bit : RegisterClass → ℕ
width_bit RegisterClass.x = 2 ^ 22
width_bit _ = 0

abbrev pub extends : Aarch64Mnemonic → Bool
extends mnemonic = one_of (table_name mnemonic) ("sxtb" ∷ "sxth" ∷ "uxtb" ∷ "uxth" ∷ [])

-- What an alias adds: `cinc` its second operand, a register, in the place of a third one; the extensions
-- of a byte or half word the width of their first operand, a register; the others nothing.
pub data IsImplicit (mnemonic : Aarch64Mnemonic) (xs : List DecodedOperand) (bits : ℕ)
    : Type 0 where
  increments :
      (r : Register)
      → mnemonic ≡ Aarch64Mnemonic.cinc
      → get_elem? xs 1 ≡ some (DecodedOperand.register r)
      → r.index ≤ 31
      → bits ≡ r.index * 2 ^ 16
      → IsImplicit mnemonic xs bits
  widens :
      (r : Register)
      → extends mnemonic ≡ true
      → get_elem? xs 0 ≡ some (DecodedOperand.register r)
      → bits ≡ width_bit r.class
      → IsImplicit mnemonic xs bits
  adds_nothing :
      mnemonic ≢ Aarch64Mnemonic.cinc
      → extends mnemonic ≡ false
      → bits ≡ 0
      → IsImplicit mnemonic xs bits

general_register-eq-ok :
    (found : Option DecodedOperand) (kind : String) (n : ℕ)
    → general_register found kind ≡ ok n
    → (r : Register) × (found ≡ some (DecodedOperand.register r)) × (r.index ≤ 31) × (n ≡ r.index)
general_register-eq-ok (some (DecodedOperand.register r)) kind n h =
    (r, refl, ground arith, ground arith)
general_register-eq-ok none kind n h = absurd (ground arith)
general_register-eq-ok (some x) kind n h = absurd (ground arith)

n_of_first-eq-ok :
    (xs : List DecodedOperand) (n : ℕ)
    → n_of_first xs ≡ ok n
    → (r : Register) × (get_elem? xs 0 ≡ some (DecodedOperand.register r)) × (n ≡ width_bit r.class)
n_of_first-eq-ok (DecodedOperand.register r ∷ xs) n h = (r, refl, same r.class (ok_injective h))
  where
    same : (class : RegisterClass) → n_of_class class ≡ n → n ≡ width_bit class
    same RegisterClass.x e = sym e
    same class e = sym e
n_of_first-eq-ok [] n h = absurd (ground arith)
n_of_first-eq-ok (x ∷ xs) n h = absurd (ground arith)

copied :
    (xs : List DecodedOperand) (bits : ℕ)
    → fixup_bits (some AliasFixup.copy_rn_to_rm) xs ≡ ok bits
    → IsImplicit Aarch64Mnemonic.cinc xs bits
unfolding gp_register_at
copied xs bits h =
    let (n, found, shifted) =
      >>=-eq-ok (general_register (get_elem? xs 1) "Rn") (λ rn. ok (shl_u32 rn 16)) h in
    let (r, is, fits, same) = general_register-eq-ok (get_elem? xs 1) "Rn" n found in
    increments r refl is fits (sym (ok_injective shifted) ∙ omega (arith, same))

-- The mnemonics but `cinc`, by whether they extend.
not_copied :
    (mnemonic : Aarch64Mnemonic) (is_extension : Bool) (xs : List DecodedOperand) (bits : ℕ)
    → extends mnemonic ≡ is_extension
    → mnemonic ≢ Aarch64Mnemonic.cinc
    → fixup_bits (if is_extension then some AliasFixup.copy_dest_sf_to_n else none) xs ≡ ok bits
    → IsImplicit mnemonic xs bits
not_copied mnemonic true xs bits e differs h =
    let (r, is, same) = n_of_first-eq-ok xs bits h in widens r e is same
not_copied mnemonic false xs bits e differs h = adds_nothing differs e (sym (ok_injective h))

alias_implicit_bits-IsImplicit :
    (mnemonic : Aarch64Mnemonic) (xs : List DecodedOperand) (bits : ℕ)
    → alias_implicit_bits mnemonic xs ≡ ok bits
    → IsImplicit mnemonic xs bits
unfolding alias_implicit_bits alias_fixup
alias_implicit_bits-IsImplicit Aarch64Mnemonic.cinc xs bits h = copied xs bits h
alias_implicit_bits-IsImplicit mnemonic xs bits h =
    not_copied mnemonic (extends mnemonic) xs bits refl (λ e. absurd (ground arith)) h

-- A row of a mnemonic's makes the word of an instruction: the row's own bits, those of every operand, as
-- its kind encodes it, and those that the alias adds, all joined. They agree with the row's mask.
pub record IsPacked (instruction : InstructionTemplate) (row : Aarch64Opcode) (word : ℕ)
    : Type 0 where
  pub operand_bits : List ℕ
  pub implicit : ℕ
  pub are_encoded :
      AreEncoded instruction.address row row.opcode row.operands instruction.operands operand_bits
  pub is_implicit : IsImplicit instruction.mnemonic instruction.operands implicit
  pub is : word ≡ bit_or (foldl bit_or row.opcode operand_bits) implicit
  pub masked : bit_and word row.mask ≡ bit_and row.opcode row.mask

-- An encoded instruction is made by a row of its mnemonic that has as many operands: the bits of the row,
-- of each operand encoded as its kind, and of the alias, in agreement with the mask of the row.
pub encode_instruction-IsPacked :
    (table : List Aarch64Opcode) (instruction : InstructionTemplate) (word : ℕ)
    → encode_instruction table instruction ≡ ok word
    → (row : Aarch64Opcode) × (row ∈ table)
      × (is_same_mnemonic (parse row.name) instruction.mnemonic ≡ true)
      × (length row.operands ≡ length instruction.operands)
      × IsPacked instruction row word
encode_instruction-IsPacked table instruction word h =
    let (row, m, of_mnemonic, emits) = encode_instruction-Emitted table instruction word h in
    let (all, each, gathered) =
      encode_operands-AreEncoded instruction.address row.opcode emits.gathered row row.operands
        instruction.operands emits.operand_count emits.operands_fit in
    (
      row,
      m,
      of_mnemonic,
      emits.operand_count,
      record {
        operand_bits = all;
        implicit = emits.implicit;
        are_encoded = each;
        is_implicit =
            alias_implicit_bits-IsImplicit instruction.mnemonic instruction.operands emits.implicit
              emits.implicit_fit;
        is = emits.is ∙ ap (λ (w : ℕ). bit_or w emits.implicit) gathered;
        masked = emits.masked;
      },
    )
