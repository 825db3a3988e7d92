-- ===== src/Aarch64/Sweep/Positions.antt =====
-- src/isa/aarch64/sweep.rs: which instruction the sweeps give for the word at a position.
use mathlib.Core.Path.{subst}
use armv8_encode.Base.{ℕ, zero, suc, ◌+◌, ◌*◌, ◌%◌, ◌^◌, ◌∙◌, ◌==◌, ◌≡◌, refl, sym, ap, inl, inr}
use armv8_encode.Base.{List, [], ◌∷◌, length, get_elem?, get_elem?-lt, Result, ok, Result-cases}
use armv8_encode.Base.{>>=-eq-ok, ok_injective, some_injective, some, Bool-cases}
use armv8_encode.Base.{arith}
use armv8_encode.Aarch64.{DecodedInstruction}
use armv8_encode.Aarch64.Sweep.{words, address_of}
use armv8_encode.Aarch64.Sweep.{sweep, disassemble_bytes}

length-words : (bytes : List ℕ) → length bytes % 4 ≡ 0 → 4 * length (words bytes) ≡ length bytes
unfolding words
length-words [] h = refl
length-words (a ∷ []) h = absurd (omega arith)
length-words (a ∷ b ∷ []) h = absurd (omega arith)
length-words (a ∷ b ∷ c ∷ []) h = absurd (omega arith)
length-words (a ∷ b ∷ c ∷ d ∷ rest) h = omega (arith, length-words rest (omega arith))

-- The word at a position is made of the four bytes at four times the position.
get_elem?-words :
    (bytes : List ℕ) (k b0 b1 b2 b3 : ℕ)
    → get_elem? bytes (4 * k) ≡ some b0
    → get_elem? bytes (4 * k + 1) ≡ some b1
    → get_elem? bytes (4 * k + 2) ≡ some b2
    → get_elem? bytes (4 * k + 3) ≡ some b3
    → get_elem? (words bytes) k ≡ some (b0 + 2 ^ 8 * b1 + 2 ^ 16 * b2 + 2 ^ 24 * b3)
unfolding words
get_elem?-words [] k b0 b1 b2 b3 h0 h1 h2 h3 = cc
get_elem?-words (a ∷ []) zero b0 b1 b2 b3 h0 h1 h2 h3 = cc
get_elem?-words (a ∷ b ∷ []) zero b0 b1 b2 b3 h0 h1 h2 h3 = cc
get_elem?-words (a ∷ b ∷ c ∷ []) zero b0 b1 b2 b3 h0 h1 h2 h3 = cc
get_elem?-words (a ∷ b ∷ c ∷ d ∷ rest) zero b0 b1 b2 b3 h0 h1 h2 h3 = ground arith
get_elem?-words (a ∷ []) (suc k) b0 b1 b2 b3 h0 h1 h2 h3 =
    absurd (omega (arith, get_elem?-lt (a ∷ []) (4 * suc k) h0))
get_elem?-words (a ∷ b ∷ []) (suc k) b0 b1 b2 b3 h0 h1 h2 h3 =
    absurd (omega (arith, get_elem?-lt (a ∷ b ∷ []) (4 * suc k) h0))
get_elem?-words (a ∷ b ∷ c ∷ []) (suc k) b0 b1 b2 b3 h0 h1 h2 h3 =
    absurd (omega (arith, get_elem?-lt (a ∷ b ∷ c ∷ []) (4 * suc k) h0))
get_elem?-words (a ∷ b ∷ c ∷ d ∷ rest) (suc k) b0 b1 b2 b3 h0 h1 h2 h3 =
    get_elem?-words rest k b0 b1 b2 b3 (moved (4 * k) (4 * suc k) (omega arith) h0)
      (moved (4 * k + 1) (4 * suc k + 1) (omega arith) h1)
      (moved (4 * k + 2) (4 * suc k + 2) (omega arith) h2)
      (moved (4 * k + 3) (4 * suc k + 3) (omega arith) h3)
  where
    moved :
        {x : ℕ} (n m : ℕ)
        → m ≡ suc (suc (suc (suc n)))
        → get_elem? (a ∷ b ∷ c ∷ d ∷ rest) m ≡ some x
        → get_elem? rest n ≡ some x
    moved n m e h = sym (ap (get_elem? (a ∷ b ∷ c ∷ d ∷ rest)) e) ∙ h

module _ {E : Type 0} where
  -- The instruction at each position of `out` is what the decoder reads there.
  unfoldable pub IsDecoded :
      (ℕ → ℕ → Result E DecodedInstruction) → ℕ → ℕ → List ℕ → List DecodedInstruction → Type 0
  IsDecoded decode base index ws out =
      (k w : ℕ)
      → get_elem? ws k ≡ some w
      → (i : DecodedInstruction) × (get_elem? out k ≡ some i)
        × (decode (address_of base (index + k)) w ≡ ok i)

  sweep-nil :
      (decode : ℕ → ℕ → Result E DecodedInstruction) (base index : ℕ)
      (out : List DecodedInstruction)
      → sweep decode base index [] ≡ ok out
      → out ≡ []
  unfolding sweep
  sweep-nil decode base index out h = sym (ok_injective h)

  sweep-cons :
      (decode : ℕ → ℕ → Result E DecodedInstruction) (base index w : ℕ) (ws : List ℕ)
      (out : List DecodedInstruction)
      → sweep decode base index (w ∷ ws) ≡ ok out
      → (i : DecodedInstruction) × (is : List DecodedInstruction) × (decode
            (address_of base index)
            w
          ≡ ok i)
        × (sweep decode base (index + 1) ws ≡ ok is)
        × (out ≡ i ∷ is)
  unfolding sweep
  sweep-cons decode base index w ws out h = elim (Result-cases (decode (address_of base index) w)) [
    | inr (x, e) ↦ absurd (ground arith)
    | inl (i, e) ↦
        let (is, f, g) =
          >>=-eq-ok (sweep decode base (index + 1) ws) (λ is. ok (i ∷ is)) (ground arith) in
        (i, is, e, f, sym (ok_injective g))
  ]

  IsDecoded-cons :
      (decode : ℕ → ℕ → Result E DecodedInstruction) (base index w : ℕ) (ws : List ℕ)
      (i : DecodedInstruction) (is : List DecodedInstruction)
      → decode (address_of base index) w ≡ ok i
      → IsDecoded decode base (index + 1) ws is
      → IsDecoded decode base index (w ∷ ws) (i ∷ is)
  unfolding IsDecoded
  IsDecoded-cons decode base index w ws i is d h zero v e =
      let here : index ≡ index + 0 = omega arith in
      (
        i,
        refl,
        subst (λ n. decode (address_of base n) v ≡ ok i) here
            (subst (λ x. decode (address_of base index) x ≡ ok i) (some_injective e) d),
      )
  IsDecoded-cons decode base index w ws i is d h (suc k) v e =
      let (j, f, g) = h k v e in
      let there : index + 1 + k ≡ index + suc k = omega arith in
      (j, f, subst (λ n. decode (address_of base n) v ≡ ok j) there g)

  sweep-IsDecoded :
      (decode : ℕ → ℕ → Result E DecodedInstruction) (base index : ℕ) (ws : List ℕ)
      (out : List DecodedInstruction)
      → sweep decode base index ws ≡ ok out
      → IsDecoded decode base index ws out × (length out ≡ length ws)
  sweep-IsDecoded decode base index [] out h =
      (unfold IsDecoded in λ k w e. cc, ap length (sweep-nil decode base index out h))
  sweep-IsDecoded decode base index (w ∷ ws) out h =
      let (i, is, d, f, g) = sweep-cons decode base index w ws out h in
      let (rest, same) = sweep-IsDecoded decode base (index + 1) ws is f in
      subst (λ o. IsDecoded decode base index (w ∷ ws) o × (length o ≡ length (w ∷ ws))) (sym g)
        (IsDecoded-cons decode base index w ws i is d rest, ap suc same)

  -- Where the strict sweep returns, the bytes are whole words, it gives as many instructions as there
  -- are words, and the instruction at each position k is what the decoder reads at k times four behind
  -- the base, modulo 2^64, from the four bytes there, the first of them the lowest.
  pub disassemble_bytes-IsDecoded :
      (decode : ℕ → ℕ → Result E DecodedInstruction) (base : ℕ) (bytes : List ℕ)
      (out : List DecodedInstruction)
      → disassemble_bytes decode base bytes ≡ ok out
      → (4 * length out ≡ length bytes)
        × ((k b0 b1 b2 b3 : ℕ)
            → get_elem? bytes (4 * k) ≡ some b0
            → get_elem? bytes (4 * k + 1) ≡ some b1
            → get_elem? bytes (4 * k + 2) ≡ some b2
            → get_elem? bytes (4 * k + 3) ≡ some b3
            → (i : DecodedInstruction) × (get_elem? out k ≡ some i)
              × (decode ((base + 4 * k) % 2 ^ 64) (b0 + 2 ^ 8 * b1 + 2 ^ 16 * b2 + 2 ^ 24 * b3)
                  ≡ ok i))
  unfolding disassemble_bytes IsDecoded
  disassemble_bytes-IsDecoded decode base bytes out h = elim (Bool-cases (length bytes % 4 == 0)) [
    | inr e ↦ absurd (ground arith)
    | inl e ↦
        let (all, same) = sweep-IsDecoded decode base 0 (words bytes) out (ground arith) in
        let whole = length-words bytes (ground arith) in
        (
          omega arith,
          λ k b0 b1 b2 b3 h0 h1 h2 h3.
              let (i, at, d) = all k _ (get_elem?-words bytes k b0 b1 b2 b3 h0 h1 h2 h3) in
              let place : address_of base (0 + k) ≡ (base + 4 * k) % 2 ^ 64 = omega arith in
              (
                i,
                at,
                subst (λ a. decode a (b0 + 2 ^ 8 * b1 + 2 ^ 16 * b2 + 2 ^ 24 * b3) ≡ ok i) place d,
              ),
        )
  ]
