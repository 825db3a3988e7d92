-- ===== src/Aarch64/Sweep/Agreement.antt =====
-- src/isa/aarch64/sweep.rs: how the strict and the tolerant sweep agree.
use armv8_encode.Base.{ℕ, ◌+◌, ◌%◌, ◌==◌, ◌≡◌, refl, ap, inl, inr, Bool-cases}
use armv8_encode.Base.{List, [], ◌∷◌, length, Result, ok, err, Result-cases, ok_injective, ◌>>=◌}
use armv8_encode.Aarch64.{DecodedInstruction}
use armv8_encode.Aarch64.Sweep.{
  DisassembleError, unaligned_length, decode_failed, words, address_of,
}
use armv8_encode.Aarch64.Sweep.{placeholder, sweep, disassemble_bytes, tolerant_sweep}
use armv8_encode.Aarch64.Sweep.{disassemble_bytes_tolerant}

module _ {E : Type 0} where
  -- What the strict result says of the tolerant one.
  unfoldable pub Agrees :
      Result (DisassembleError E) (List DecodedInstruction)
      → Result (DisassembleError E) (List DecodedInstruction × List (ℕ × ℕ))
      → Type 0
  Agrees (ok out) r = r ≡ ok (out, [])
  Agrees (err (decode_failed address word source)) r =
      (out : List DecodedInstruction) × (rest : List (ℕ × ℕ)) × (r
        ≡ ok (out, (address, word) ∷ rest))
  Agrees (err (unaligned_length n)) r = r ≡ err (unaligned_length n)

  -- An instruction in front of a list.
  Agrees-cons :
      (i : DecodedInstruction) (strict : Result (DisassembleError E) (List DecodedInstruction))
      (found : List DecodedInstruction × List (ℕ × ℕ))
      → Agrees strict (ok found)
      → Agrees (strict >>= λ is. ok (i ∷ is)) (ok (i ∷ found.0, found.1))
  unfolding Agrees
  Agrees-cons i (ok out) found h = ap (λ f. ok (i ∷ f.0, f.1)) (ok_injective h)
  Agrees-cons i (err (decode_failed address word source)) found (out, rest, e) =
      (i ∷ out, rest, ap (λ f. ok (i ∷ f.0, f.1)) (ok_injective e))
  Agrees-cons i (err (unaligned_length n)) found e = cc

  sweep-Agrees :
      (decode : ℕ → ℕ → Result E DecodedInstruction) (base index : ℕ) (ws : List ℕ)
      → Agrees (sweep decode base index ws) (ok (tolerant_sweep decode base index ws))
  unfolding sweep tolerant_sweep Agrees
  sweep-Agrees decode base index [] = refl
  sweep-Agrees decode base index (w ∷ ws) = elim (Result-cases (decode (address_of base index) w)) [
    | inl (i, e) ↦
        rw (e, sweep, tolerant_sweep)
          (Agrees-cons i (sweep decode base (index + 1) ws)
            (tolerant_sweep decode base (index + 1) ws) (sweep-Agrees decode base (index + 1) ws))
    | inr (x, e) ↦
        rw (e, sweep, tolerant_sweep)
          (
            placeholder (address_of base index) w ∷ (tolerant_sweep decode base (index + 1) ws).0,
            (tolerant_sweep decode base (index + 1) ws).1,
            refl,
          )
  ]

  -- The strict sweep succeeds exactly with the tolerant one's instructions where that finds every word
  -- decodable, fails at the first word of its list of undecodable ones, and refuses an unaligned
  -- length exactly where the tolerant one does.
  pub disassemble_bytes-Agrees :
      (decode : ℕ → ℕ → Result E DecodedInstruction) (base : ℕ) (bytes : List ℕ)
      → Agrees (disassemble_bytes decode base bytes) (disassemble_bytes_tolerant decode base bytes)
  unfolding disassemble_bytes disassemble_bytes_tolerant
  disassemble_bytes-Agrees decode base bytes = elim (Bool-cases (length bytes % 4 == 0)) [
    | inl e ↦ rw e (sweep-Agrees decode base 0 (words bytes))
    | inr e ↦ rw e (unfold Agrees in refl)
  ]
