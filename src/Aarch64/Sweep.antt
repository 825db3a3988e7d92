-- ===== src/Aarch64/Sweep.antt =====
-- src/isa/aarch64/sweep.rs: linear disassembly of a stream of 4-byte words, strict and tolerant. The
-- decoder reads the opcode table and is a parameter; `E` is its error.
pub mod Agreement
pub mod Positions
pub mod Tests
use armv8_encode.Base.{ℕ, zero, suc, ◌+◌, ◌*◌, ◌%◌, if◌then◌else◌, ◌==◌}
use armv8_encode.Base.{List, [], ◌∷◌, length, Result, ok, err, ◌>>=◌}
use armv8_encode.Base.Word.{wrapping_add}
use armv8_encode.Aarch64.{DecodedInstruction}
use armv8_encode.Aarch64.Aarch64Mnemonic.{nop}

pub data DisassembleError (E : Type 0) : Type 0 where
  unaligned_length : (length : ℕ) → DisassembleError E
  decode_failed : (address word : ℕ) (source : E) → DisassembleError E

-- `bytes.chunks_exact(4)` as little-endian words.
unfoldable pub words : List ℕ → List ℕ
words (b0 ∷ b1 ∷ b2 ∷ b3 ∷ rest) = (b0 + 256 * b1 + 65536 * b2 + 16777216 * b3) ∷ words rest
words _ = []

abbrev pub address_of : ℕ → ℕ → ℕ
address_of base index = wrapping_add base (index * 4)

unfoldable pub placeholder : ℕ → ℕ → DecodedInstruction
placeholder address word = record { address = address; word = word; mnemonic = nop; operands = [] }

module _ {E : Type 0} where
  -- The loop of `disassemble_bytes` at `index`.
  unfoldable pub sweep :
      (ℕ → ℕ → Result E DecodedInstruction)
      → ℕ
      → ℕ
      → List ℕ
      → Result (DisassembleError E) (List DecodedInstruction)
  sweep decode base index [] = ok []
  sweep decode base index (word ∷ rest) = elim (decode (address_of base index) word) [
    | err source ↦ err (decode_failed (address_of base index) word source)
    | ok i ↦ sweep decode base (index + 1) rest >>= λ is. ok (i ∷ is)
  ]

  unfoldable pub disassemble_bytes :
      (ℕ → ℕ → Result E DecodedInstruction)
      → ℕ
      → List ℕ
      → Result (DisassembleError E) (List DecodedInstruction)
  disassemble_bytes decode base bytes =
      if length bytes % 4 == 0
      then sweep decode base 0 (words bytes)
      else err (unaligned_length (length bytes))

  -- The loop of `disassemble_bytes_tolerant`: the instructions, and the words that are none.
  unfoldable pub tolerant_sweep :
      (ℕ → ℕ → Result E DecodedInstruction)
      → ℕ
      → ℕ
      → List ℕ
      → List DecodedInstruction × List (ℕ × ℕ)
  tolerant_sweep decode base index [] = ([], [])
  tolerant_sweep decode base index (word ∷ rest) =
      let others = tolerant_sweep decode base (index + 1) rest in
      elim (decode (address_of base index) word) [
        | ok i ↦ (i ∷ others.0, others.1)
        | err source ↦ (
          placeholder (address_of base index) word ∷ others.0,
          (address_of base index, word) ∷ others.1,
        )
      ]

  unfoldable pub disassemble_bytes_tolerant :
      (ℕ → ℕ → Result E DecodedInstruction)
      → ℕ
      → List ℕ
      → Result (DisassembleError E) (List DecodedInstruction × List (ℕ × ℕ))
  disassemble_bytes_tolerant decode base bytes =
      if length bytes % 4 == 0
      then ok (tolerant_sweep decode base 0 (words bytes))
      else err (unaligned_length (length bytes))
