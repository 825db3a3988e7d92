-- ===== src/Aarch64/Instructions/Selection.antt =====
-- src/isa/aarch64/mod.rs: which row of a mnemonic encodes an instruction.
use armv8_encode.Base.{
  ℕ, ◌≡◌, ◌≢◌, ◌⊎◌, ◌↔◌, inl, inr, refl, sym, ap, ◌∙◌, arith, bit_and, bit_or, ◌==◌,
}
use armv8_encode.Base.{true, false, Bool-cases, ==_iff}
use armv8_encode.Base.{List, [], ◌∷◌, ◌++◌, length, All, Option, none}
use armv8_encode.Base.{Result-cases, ok, err}
use mathlib.Core.List.{foldl}
use armv8_encode.Aarch64.{Aarch64Opnd, Aarch64Opcode, DecodedOperand}
use armv8_encode.Aarch64.Operand.{EncodeError}
use armv8_encode.Aarch64.Operand.Codec.{encode}
use armv8_encode.Aarch64.Table.{opcodes_for_mnemonic}
use armv8_encode.Aarch64.Table.Matching.{clash}
use armv8_encode.Aarch64.Instructions.{InstructionTemplate, encode_instruction, encode_operands}
use armv8_encode.Aarch64.Instructions.{alias_implicit_bits, try_row, try_rows, try_candidates}
use armv8_encode.Aarch64.Instructions.{Turn, returns, continues, operands_turn}
use armv8_encode.Aarch64.Instructions.Encoded.{try_row-Emitted}
use armv8_encode.Aarch64.Instructions.Packed.{AreEncoded, encode_operands-AreEncoded}

-- The errors behind which the next row is tried.
abbrev pub IsRefusal : EncodeError → Type 0
IsRefusal (EncodeError.invalid_operand kind) = Unit
IsRefusal (EncodeError.unimplemented kind) = Unit
IsRefusal _ = ⊥

-- The operands up to one are encoded as their kinds, and that one is refused.
unfoldable pub IsRefused : ℕ → Aarch64Opcode → ℕ → List Aarch64Opnd → List DecodedOperand → Type 0
IsRefused address row word (kind ∷ kinds) (x ∷ xs) =
    ((e : EncodeError) × IsRefusal e
      × (encode kind x (record { base_word = word; address = address; opcode = row }) ≡ err e))
    ⊎ ((bits : ℕ) × (encode kind x (record { base_word = word; address = address; opcode = row })
          ≡ ok bits)
        × IsRefused address row (bit_or word bits) kinds xs)
IsRefused address row word _ _ = ⊥

encode_operands-err :
    (address word : ℕ) (row : Aarch64Opcode) (kinds : List Aarch64Opnd) (xs : List DecodedOperand)
    (e : EncodeError)
    → IsRefusal e
    → encode_operands address row kinds xs word ≡ err e
    → IsRefused address row word kinds xs
unfolding encode_operands IsRefused
encode_operands-err address word row [] xs e r h = absurd (ground arith)
encode_operands-err address word row (kind ∷ kinds) [] e r h = absurd (ground arith)
encode_operands-err address word row (kind ∷ kinds) (x ∷ xs) e r h =
    elim (Result-cases
      (encode kind x (record { base_word = word; address = address; opcode = row }))) [
        | inr (failure, f) ↦ inl (e, r, ground arith)
        | inl (bits, f) ↦ inr (
          bits,
          f,
          encode_operands-err address (bit_or word bits) row kinds xs e r (ground arith),
        )
      ]

refused-encode_operands :
    (address word : ℕ) (row : Aarch64Opcode) (kinds : List Aarch64Opnd) (xs : List DecodedOperand)
    → IsRefused address row word kinds xs
    → (e : EncodeError) × IsRefusal e × (encode_operands address row kinds xs word ≡ err e)
unfolding encode_operands IsRefused
refused-encode_operands address word row (kind ∷ kinds) (x ∷ xs) (inl (e, r, f)) = (e, r, rw f refl)
refused-encode_operands address word row (kind ∷ kinds) (x ∷ xs) (inr (bits, f, rest)) =
    let (e, r, g) = refused-encode_operands address (bit_or word bits) row kinds xs rest in
    (e, r, rw f g)
refused-encode_operands address word row [] xs h = absurd h
refused-encode_operands address word row (kind ∷ kinds) [] h = absurd h

encoded-encode_operands :
    (address word : ℕ) (row : Aarch64Opcode) (kinds : List Aarch64Opnd) (xs : List DecodedOperand)
    (all : List ℕ)
    → AreEncoded address row word kinds xs all
    → (length kinds ≡ length xs)
      × (encode_operands address row kinds xs word ≡ ok (foldl bit_or word all))
unfolding encode_operands AreEncoded
encoded-encode_operands address word row [] [] [] h = (refl, refl)
encoded-encode_operands address word row (kind ∷ kinds) (x ∷ xs) (bits ∷ all) h =
    let (same, g) = encoded-encode_operands address (bit_or word bits) row kinds xs all h.1 in
    (omega (arith, same), rw h.0 g)
encoded-encode_operands address word row [] [] (bits ∷ all) h = absurd h
encoded-encode_operands address word row [] (x ∷ xs) all h = absurd h
encoded-encode_operands address word row (kind ∷ kinds) [] all h = absurd h
encoded-encode_operands address word row (kind ∷ kinds) (x ∷ xs) [] h = absurd h

not_empty :
    (before : List Aarch64Opcode) (row : Aarch64Opcode) (after : List Aarch64Opcode)
    → ◌≡◌ {A = List Aarch64Opcode} [] (before ++ (row ∷ after))
    → ⊥
not_empty [] row after h = cc
not_empty (first ∷ before) row after h = cc

module _ (instruction : InstructionTemplate) where
  -- The bits of the row, of its operands and of the alias.
  abbrev joined : Aarch64Opcode → List ℕ → ℕ → ℕ
  joined row all implicit = bit_or (foldl bit_or row.opcode all) implicit

  -- The row encodes the instruction: the word is made of its bits, those of each operand and those of
  -- the alias, and agrees with its mask.
  pub record Encodes (row : Aarch64Opcode) (word : ℕ) : Type 0 where
    pub operand_bits : List ℕ
    pub implicit : ℕ
    pub are_encoded :
        AreEncoded instruction.address row row.opcode row.operands instruction.operands operand_bits
    pub is_implicit : alias_implicit_bits instruction.mnemonic instruction.operands ≡ ok implicit
    pub is : word ≡ joined row operand_bits implicit
    pub masked : bit_and word row.mask ≡ bit_and row.opcode row.mask

  -- The row does not fit: it has another number of operands, refuses an operand, or the finished word
  -- does not agree with its mask.
  pub data IsPassedOver (row : Aarch64Opcode) : Type 0 where
    wrong_count : length row.operands ≢ length instruction.operands → IsPassedOver row
    refuses :
        length row.operands ≡ length instruction.operands
        → IsRefused instruction.address row row.opcode row.operands instruction.operands
        → IsPassedOver row
    masked_out :
        (all : List ℕ) (implicit : ℕ)
        → AreEncoded instruction.address row row.opcode row.operands instruction.operands all
        → alias_implicit_bits instruction.mnemonic instruction.operands ≡ ok implicit
        → bit_and (joined row all implicit) row.mask ≢ bit_and row.opcode row.mask
        → IsPassedOver row

  same_count : (m n : ℕ) → m ≡ n → (m == n) ≡ true
  same_count m n e = (==_iff m n).1 e

  not_same : (m n : ℕ) → m ≢ n → (m == n) ≡ false
  not_same m n d = elim (Bool-cases (m == n)) [ inl e ↦ absurd (d ((==_iff m n).0 e)) | inr e ↦ e ]

  not_same_inv : (m n : ℕ) → (m == n) ≡ false → m ≢ n
  not_same_inv m n e f = clash (m == n) (same_count m n f) e

  Encodes-returns :
      (row : Aarch64Opcode) (word : ℕ) (last : Option EncodeError)
      → Encodes row word
      → try_row instruction row last ≡ returns (ok word)
  unfolding try_row
  Encodes-returns row word last c =
      let (count, each) =
        encoded-encode_operands instruction.address row.opcode row row.operands instruction.operands
          c.operand_bits c.are_encoded in
      let fits : (bit_and (joined row c.operand_bits c.implicit) row.mask
            == bit_and row.opcode row.mask)
          ≡ true =
        same_count _ _ (ap (λ (w : ℕ). bit_and w row.mask) (sym c.is) ∙ c.masked) in
      rw (same_count _ _ count, each, c.is_implicit, fits) (ap (λ w. returns (ok w)) (sym c.is))

  IsPassedOver-continues :
      (row : Aarch64Opcode) (last : Option EncodeError)
      → IsPassedOver row
      → (next : Option EncodeError) × (try_row instruction row last ≡ continues next)
  unfolding try_row
  IsPassedOver-continues row last (wrong_count differs) = (last, rw (not_same _ _ differs) refl)
  IsPassedOver-continues row last (refuses count refused) =
      let (e, r, each) =
        refused-encode_operands instruction.address row.opcode row row.operands instruction.operands
          refused in
      rw (same_count _ _ count, each) (refusal_continues e r)
    where
      refusal_continues :
          (e : EncodeError)
          → IsRefusal e
          → (next : Option EncodeError) × (operands_turn (err e) instruction row last
              ≡ continues next)
      refusal_continues (EncodeError.invalid_operand kind) r = (_, refl)
      refusal_continues (EncodeError.unimplemented kind) r = (_, refl)
      refusal_continues e r = absurd r
  IsPassedOver-continues row last (masked_out all implicit encoded implied differs) =
      let (count, each) =
        encoded-encode_operands instruction.address row.opcode row row.operands instruction.operands
          all encoded in
      rw (same_count _ _ count, each, implied, not_same _ _ differs) (_, refl)

  returns-Encodes :
      (row : Aarch64Opcode) (word : ℕ) (last : Option EncodeError)
      → try_row instruction row last ≡ returns (ok word)
      → Encodes row word
  returns-Encodes row word last h =
      let c = try_row-Emitted instruction row last word h in
      let (all, encoded, gathered) =
        encode_operands-AreEncoded instruction.address row.opcode c.gathered row row.operands
          instruction.operands c.operand_count c.operands_fit in
      record {
        operand_bits = all;
        implicit = c.implicit;
        are_encoded = encoded;
        is_implicit = c.implicit_fit;
        is = c.is ∙ ap (λ (w : ℕ). bit_or w c.implicit) gathered;
        masked = c.masked;
      }

  -- An error of the operands behind which the next row is tried is a refusal.
  continues-IsRefusal :
      (row : Aarch64Opcode) (last next : Option EncodeError) (e : EncodeError)
      → operands_turn (err e) instruction row last ≡ continues next
      → IsRefusal e
  continues-IsRefusal row last next (EncodeError.invalid_operand kind) h = tt
  continues-IsRefusal row last next (EncodeError.unimplemented kind) h = tt
  continues-IsRefusal row last next e h = absurd (ground arith)

  continues-IsPassedOver :
      (row : Aarch64Opcode) (last next : Option EncodeError)
      → try_row instruction row last ≡ continues next
      → IsPassedOver row
  unfolding try_row
  continues-IsPassedOver row last next h =
      elim (Bool-cases (length row.operands == length instruction.operands)) [
        | inr differs ↦ wrong_count (not_same_inv _ _ differs)
        | inl same ↦
            let count = (==_iff (length row.operands) (length instruction.operands)).0 same in
            elim (Result-cases (
              encode_operands instruction.address row row.operands instruction.operands
                row.opcode)) [
                  | inr (e, refused) ↦ refuses count (
                      encode_operands-err instruction.address row.opcode row row.operands
                        instruction.operands e (continues-IsRefusal row last next e (ground arith))
                        refused)
                  | inl (gathered, fits) ↦
                      elim (Result-cases
                        (alias_implicit_bits instruction.mnemonic instruction.operands)) [
                          | inr (e, refused) ↦ absurd (ground arith)
                          | inl (implicit, implied) ↦
                              let (all, encoded, is) =
                                encode_operands-AreEncoded instruction.address row.opcode gathered
                                  row row.operands instruction.operands count fits in
                              elim (Bool-cases (
                                bit_and (bit_or gathered implicit) row.mask
                                == bit_and row.opcode row.mask)) [
                                  | inl agrees ↦ absurd (ground arith)
                                  | inr differs ↦ masked_out all implicit encoded implied (
                                      not_same_inv _ _ (
                                        ap
                                          (λ (w : ℕ).
                                            bit_and (bit_or w implicit) row.mask
                                            == bit_and row.opcode row.mask)
                                          (sym is)
                                        ∙ differs))
                                ]
                        ]
                ]
      ]

  -- The first row that encodes the instruction, behind rows that are passed over.
  pub record FirstToEncode (rows : List Aarch64Opcode) (word : ℕ) : Type 0 where
    pub before : List Aarch64Opcode
    pub row : Aarch64Opcode
    pub after : List Aarch64Opcode
    pub are : rows ≡ before ++ (row ∷ after)
    pub are_passed_over : All IsPassedOver before
    pub encodes : Encodes row word

  FirstToEncode-try_rows :
      (before after : List Aarch64Opcode) (row : Aarch64Opcode) (word : ℕ)
      (last : Option EncodeError)
      → All IsPassedOver before
      → Encodes row word
      → try_rows instruction (before ++ (row ∷ after)) last ≡ ok word
  unfolding try_rows
  FirstToEncode-try_rows [] after row word last h c = rw (Encodes-returns row word last c) refl
  FirstToEncode-try_rows (first ∷ before) after row word last h c =
      let (next, e) = IsPassedOver-continues first last h.0 in
      rw e (FirstToEncode-try_rows before after row word next h.1 c)

  try_rows-FirstToEncode :
      (rows : List Aarch64Opcode) (last : Option EncodeError) (word : ℕ)
      → try_rows instruction rows last ≡ ok word
      → FirstToEncode rows word
  unfolding try_rows
  try_rows-FirstToEncode [] last word h = absurd (ground arith)
  try_rows-FirstToEncode (row ∷ rows) last word h =
      next (try_row instruction row last) refl (try_rows-FirstToEncode rows)
    where
      next :
          (t : Turn)
          → try_row instruction row last ≡ t
          → ((last : Option EncodeError) (w : ℕ)
              → try_rows instruction rows last ≡ ok w
              → FirstToEncode rows w)
          → FirstToEncode (row ∷ rows) word
      next (returns (ok w)) e others = record {
        before = [];
        row = row;
        after = rows;
        are = refl;
        are_passed_over = tt;
        encodes = returns-Encodes row word last (ground arith);
      }
      next (returns (err failure)) e others = absurd (ground arith)
      next (continues later) e others =
          let rest = others later word (ground arith) in
          record {
            before = row ∷ rest.before;
            row = rest.row;
            after = rest.after;
            are = ap (λ rs. row ∷ rs) rest.are;
            are_passed_over = (continues-IsPassedOver row last later e, rest.are_passed_over);
            encodes = rest.encodes;
          }

  candidates_iff :
      (rows : List Aarch64Opcode) (word : ℕ)
      → (try_candidates instruction rows ≡ ok word) ↔ FirstToEncode rows word
  candidates_iff [] word =
      (λ h. absurd (ground arith), λ c. absurd (not_empty c.before c.row c.after c.are))
  candidates_iff (row ∷ rows) word = (
    try_rows-FirstToEncode (row ∷ rows) none word,
    λ c.
        ap (λ rs. try_rows instruction rs none) c.are
        ∙ FirstToEncode-try_rows c.before c.after c.row word none c.are_passed_over c.encodes,
  )

  -- The encoder returns a word exactly if a row of the mnemonic encodes the instruction to it and every
  -- row of the mnemonic before that one is passed over: for another number of operands, an operand that
  -- it refuses, or a finished word that does not agree with its mask.
  pub encode_instruction_iff :
      (table : List Aarch64Opcode) (word : ℕ)
      → (encode_instruction table instruction ≡ ok word)
        ↔ FirstToEncode (opcodes_for_mnemonic table instruction.mnemonic) word
  unfolding encode_instruction
  encode_instruction_iff table word =
      candidates_iff (opcodes_for_mnemonic table instruction.mnemonic) word
