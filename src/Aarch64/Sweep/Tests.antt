-- ===== src/Aarch64/Sweep/Tests.antt =====
-- src/isa/aarch64/sweep.rs: two words of which the second does not decode, and the theorems at it.
use armv8_encode.Base.{
  ◌+◌, ◌%◌, ◌^◌, get_elem?, some, ℕ, ◌*◌, ◌==◌, ◌≡◌, refl, if◌then◌else◌, List, [], ◌∷◌, length,
  Result, ok, err,
}
use armv8_encode.Aarch64.{DecodedInstruction}
use armv8_encode.Aarch64.Aarch64Mnemonic.{ret}
use armv8_encode.Aarch64.Sweep.{decode_failed, words, placeholder, sweep}
use armv8_encode.Aarch64.Sweep.{disassemble_bytes, tolerant_sweep, disassemble_bytes_tolerant}
use armv8_encode.Aarch64.Sweep.Agreement.{Agrees, disassemble_bytes-Agrees}
use armv8_encode.Aarch64.Sweep.Positions.{disassemble_bytes-IsDecoded}

abbrev leave_at : ℕ → DecodedInstruction
leave_at address = record { address = address; word = 3; mnemonic = ret; operands = [] }

-- The error carries the word.
abbrev decode : ℕ → ℕ → Result ℕ DecodedInstruction
decode address word = if word == 3 then ok (leave_at address) else err word

abbrev bytes : List ℕ
bytes = 3 ∷ 0 ∷ 0 ∷ 0 ∷ 7 ∷ 1 ∷ 0 ∷ 0 ∷ []

strict_fails : disassemble_bytes decode 64 bytes ≡ err (decode_failed 68 263 263)
unfolding disassemble_bytes sweep words
strict_fails = refl

tolerant_goes_on :
    disassemble_bytes_tolerant decode 64 bytes
    ≡ ok (leave_at 64 ∷ placeholder 68 263 ∷ [], (68, 263) ∷ [])
unfolding disassemble_bytes_tolerant tolerant_sweep words
tolerant_goes_on = refl

disassemble_bytes-Agrees_example :
    Agrees (disassemble_bytes decode 64 bytes) (disassemble_bytes_tolerant decode 64 bytes)
disassemble_bytes-Agrees_example = disassemble_bytes-Agrees decode 64 bytes

abbrev two_words : List ℕ
two_words = 3 ∷ 0 ∷ 0 ∷ 0 ∷ 3 ∷ 0 ∷ 0 ∷ 0 ∷ []

abbrev two_leaves : List DecodedInstruction
two_leaves = leave_at 64 ∷ leave_at 68 ∷ []

strict_returns : disassemble_bytes decode 64 two_words ≡ ok two_leaves
unfolding disassemble_bytes sweep words
strict_returns = refl

disassemble_bytes-IsDecoded_example :
    (4 * length two_leaves ≡ length two_words)
    × ((k b0 b1 b2 b3 : ℕ)
        → get_elem? two_words (4 * k) ≡ some b0
        → get_elem? two_words (4 * k + 1) ≡ some b1
        → get_elem? two_words (4 * k + 2) ≡ some b2
        → get_elem? two_words (4 * k + 3) ≡ some b3
        → (i : DecodedInstruction) × (get_elem? two_leaves k ≡ some i)
          × (decode ((64 + 4 * k) % 2 ^ 64) (b0 + 2 ^ 8 * b1 + 2 ^ 16 * b2 + 2 ^ 24 * b3) ≡ ok i))
disassemble_bytes-IsDecoded_example =
    disassemble_bytes-IsDecoded decode 64 two_words two_leaves strict_returns
