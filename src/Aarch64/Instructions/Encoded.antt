-- ===== src/Aarch64/Instructions/Encoded.antt =====
-- src/isa/aarch64/mod.rs: what an encoded instruction is made of.
use armv8_encode.Base.{
  ℕ, ◌≡◌, refl, sym, ap, ◌∙◌, ◌≤◌, ◌⊎◌, inl, inr, arith, bit_and, bit_or, ◌==◌, ==_iff,
}
use armv8_encode.Base.{Bool, true, false, Bool-cases, if◌then◌else◌, List, [], ◌∷◌, ◌∈◌, length}
use armv8_encode.Base.{Option, none, some, Result-cases, ok, err}
use armv8_encode.Aarch64.{Aarch64Mnemonic, Aarch64Opcode}
use armv8_encode.Aarch64.Mnemonic.{parse, is_same_mnemonic}
use armv8_encode.Aarch64.Operand.{EncodeError}
use armv8_encode.Aarch64.Table.{opcodes_for_mnemonic, row_applies, alias_applies, match_opcode}
use armv8_encode.Aarch64.Table.{count_ones}
use armv8_encode.Aarch64.Table.Matching.{Matched, match_opcode_lem, clash}
use armv8_encode.Aarch64.Instructions.{InstructionTemplate, encode_instruction, encode_operands}
use armv8_encode.Aarch64.Instructions.{
  alias_implicit_bits, try_row, try_rows, Turn, returns, continues,
}
use armv8_encode.Aarch64.Instructions.{try_candidates}

-- The word is the row's, with the bits of every operand and the implicit ones, and passes the row's mask.
pub record Emitted (instruction : InstructionTemplate) (row : Aarch64Opcode) (word : ℕ)
    : Type 0 where
  pub operand_count : length row.operands ≡ length instruction.operands
  pub gathered : ℕ
  pub implicit : ℕ
  pub operands_fit :
      encode_operands instruction.address row row.operands instruction.operands row.opcode
      ≡ ok gathered
  pub implicit_fit : alias_implicit_bits instruction.mnemonic instruction.operands ≡ ok implicit
  pub is : word ≡ bit_or gathered implicit
  pub masked : bit_and word row.mask ≡ bit_and row.opcode row.mask

-- The record from the equations of a turn that returns a word.
emitted :
    (instruction : InstructionTemplate) (row : Aarch64Opcode) (gathered implicit word : ℕ)
    → length row.operands ≡ length instruction.operands
    → encode_operands instruction.address row row.operands instruction.operands row.opcode
      ≡ ok gathered
    → alias_implicit_bits instruction.mnemonic instruction.operands ≡ ok implicit
    → (bit_and (bit_or gathered implicit) row.mask == bit_and row.opcode row.mask) ≡ true
    → bit_or gathered implicit ≡ word
    → Emitted instruction row word
emitted instruction row gathered implicit word count fits implied masked e = record {
  operand_count = count;
  gathered = gathered;
  implicit = implicit;
  operands_fit = fits;
  implicit_fit = implied;
  is = sym e;
  masked =
      ap (λ (w : ℕ). bit_and w row.mask) (sym e)
      ∙ (==_iff (bit_and (bit_or gathered implicit) row.mask) (bit_and row.opcode row.mask)).0
          masked;
}

pub try_row-Emitted :
    (instruction : InstructionTemplate) (row : Aarch64Opcode) (last_error : Option EncodeError)
    (word : ℕ)
    → try_row instruction row last_error ≡ returns (ok word)
    → Emitted instruction row word
unfolding try_row
try_row-Emitted instruction row last_error word h =
    elim (Bool-cases (length row.operands == length instruction.operands)) [
      | inl same ↦
          elim (Result-cases (
            encode_operands instruction.address row row.operands instruction.operands row.opcode)) [
              | inl (gathered, fits) ↦
                  elim (Result-cases
                    (alias_implicit_bits instruction.mnemonic instruction.operands)) [
                      | inl (implicit, implied) ↦
                          elim (Bool-cases (
                            bit_and (bit_or gathered implicit) row.mask
                            == bit_and row.opcode row.mask)) [
                              | inl masked ↦
                                  emitted instruction row gathered implicit word
                                    ((==_iff _ _).0 same) fits implied masked (ground arith)
                              | inr fails ↦ absurd (ground arith)
                            ]
                      | inr (e, refused) ↦ absurd (ground arith)
                    ]
              | inr (e, refused) ↦ absurd (ground arith)
            ]
      | inr differs ↦ absurd (ground arith)
    ]

-- A row of the list that gives the word.
record Given (instruction : InstructionTemplate) (rows : List Aarch64Opcode) (word : ℕ)
    : Type 0 where
  row : Aarch64Opcode
  listed : row ∈ rows
  emits : Emitted instruction row word

try_rows-Given :
    (instruction : InstructionTemplate) (rows : List Aarch64Opcode)
    (last_error : Option EncodeError) (word : ℕ)
    → try_rows instruction rows last_error ≡ ok word
    → Given instruction rows word
unfolding try_rows
try_rows-Given instruction [] last_error word h = absurd (ground arith)
try_rows-Given instruction (row ∷ rows) last_error word h =
    next (try_row instruction row last_error) refl (try_rows-Given instruction rows)
  where
    next :
        (t : Turn)
        → try_row instruction row last_error ≡ t
        → ((last : Option EncodeError) (w : ℕ)
            → try_rows instruction rows last ≡ ok w
            → Given instruction rows w)
        → Given instruction (row ∷ rows) word
    next (returns (ok w)) e others = record {
      row = row;
      listed = inl refl;
      emits = try_row-Emitted instruction row last_error word (ground arith);
    }
    next (returns (err failure)) e others = absurd (ground arith)
    next (continues last) e others =
        let rest = others last word (ground arith) in
        record { row = rest.row; listed = inr rest.listed; emits = rest.emits }

kept :
    (same : Bool) (first row : Aarch64Opcode) (others : List Aarch64Opcode)
    → row ∈ (if same then first ∷ others else others)
    → ((same ≡ true) × (row ≡ first)) ⊎ (row ∈ others)
kept true first row others (inl e) = inl (refl, e)
kept true first row others (inr m) = inr m
kept false first row others m = inr m

opcodes_for_mnemonic-mem :
    (table : List Aarch64Opcode) (mnemonic : Aarch64Mnemonic) (row : Aarch64Opcode)
    → row ∈ opcodes_for_mnemonic table mnemonic
    → (row ∈ table) × (is_same_mnemonic (parse row.name) mnemonic ≡ true)
unfolding opcodes_for_mnemonic
opcodes_for_mnemonic-mem [] mnemonic row m = absurd m
opcodes_for_mnemonic-mem (first ∷ rows) mnemonic row m =
    elim (kept (is_same_mnemonic (parse first.name) mnemonic) first row
      (opcodes_for_mnemonic rows mnemonic) m) [
        | inl (same, e) ↦ (inl e, rw e same)
        | inr later ↦
            let rest = opcodes_for_mnemonic-mem rows mnemonic row later in (inr rest.0, rest.1)
      ]

try_candidates-Given :
    (instruction : InstructionTemplate) (rows : List Aarch64Opcode) (word : ℕ)
    → try_candidates instruction rows ≡ ok word
    → Given instruction rows word
try_candidates-Given instruction [] word h = absurd (ground arith)
try_candidates-Given instruction (row ∷ rows) word h =
    try_rows-Given instruction (row ∷ rows) none word h

-- An encoded word comes from one of the rows of its mnemonic.
pub encode_instruction-Emitted :
    (table : List Aarch64Opcode) (instruction : InstructionTemplate) (word : ℕ)
    → encode_instruction table instruction ≡ ok word
    → (row : Aarch64Opcode) × (row ∈ table)
      × (is_same_mnemonic (parse row.name) instruction.mnemonic ≡ true)
      × Emitted instruction row word
unfolding encode_instruction
encode_instruction-Emitted table instruction word h =
    let given =
      try_candidates-Given instruction (opcodes_for_mnemonic table instruction.mnemonic) word h in
    let mem = opcodes_for_mnemonic-mem table instruction.mnemonic given.row given.listed in
    (given.row, mem.0, mem.1, given.emits)

matched_or_none :
    (table : List Aarch64Opcode) (row : Aarch64Opcode) (word : ℕ) (found : Option Aarch64Opcode)
    → Matched word table found
    → row ∈ table
    → row_applies word row ≡ true
    → (best : Aarch64Opcode) × (found ≡ some best) × (count_ones row.mask ≤ count_ones best.mask)
matched_or_none table row word none h m applies = absurd (clash _ applies (h row m))
matched_or_none table row word (some best) h m applies = (best, refl, h.2 row m applies)

-- An encoded word is found in the opcode table again if it meets the alias conditions of every row of
-- the instruction's mnemonic: by a row whose mask is at least as exact as that of one of those rows.
pub match_opcode-encode_instruction :
    (table : List Aarch64Opcode) (instruction : InstructionTemplate) (word : ℕ)
    → encode_instruction table instruction ≡ ok word
    → ((row : Aarch64Opcode)
        → row ∈ table
        → is_same_mnemonic (parse row.name) instruction.mnemonic ≡ true
        → alias_applies word row ≡ true)
    → (row best : Aarch64Opcode) × (row ∈ table)
      × (is_same_mnemonic (parse row.name) instruction.mnemonic ≡ true)
      × (match_opcode table word ≡ some best)
      × (count_ones row.mask ≤ count_ones best.mask)
match_opcode-encode_instruction table instruction word h conditions =
    let (row, m, same, emits) = encode_instruction-Emitted table instruction word h in
    let applies : row_applies word row ≡ true =
      unfold row_applies in ground (arith, emits.masked, conditions row m same) in
    let (best, found, exact) =
      matched_or_none table row word (match_opcode table word) (match_opcode_lem table word) m
        applies in
    (row, best, m, same, found, exact)
