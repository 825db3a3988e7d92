-- ===== src/Aarch64/Operand/Immediates/Search.antt =====
-- src/isa/aarch64/operand.rs: the search for the fields of a bitmask immediate is right and misses none.
use armv8_encode.Base.{ℕ, ◌*◌, ◌^◌, ◌<◌, bit_or, ◌≡◌, ◌≢◌, ◌↔◌, refl, ap, ◌∙◌}
use armv8_encode.Base.{arith, true, none, some}
use armv8_encode.Base.{ok, Option-cases, Bool-cases, inl, inr}
use armv8_encode.Base.Bits.{
  field, field-bit_or, field-bit_or_left, field-bit_or_right, zero-bit_or, bit_or-zero,
}
use armv8_encode.Base.Partial.{first_some-eq-some, first_some-eq-none}
use armv8_encode.Base.Word.{shl_u32}
use armv8_encode.Base.Int.{ℤ, pos, negsuc}
use armv8_encode.Aarch64.Operand.Immediates.Encode.{is_same_ℤ}
use armv8_encode.Aarch64.{Aarch64Opnd, DecodedOperand}
use armv8_encode.Aarch64.Operand.Immediates.Logical.{logical_immediate, logical_candidate}
use armv8_encode.Aarch64.Operand.Immediates.Logical.{find_logical, encode_logical_immediate}

-- The candidate of one turn.
abbrev candidate : ℕ → ℕ → ℕ → ℕ → ℕ
candidate sf n immr imms =
    bit_or (bit_or (bit_or sf (shl_u32 n 22)) (shl_u32 immr 16)) (shl_u32 imms 10)

-- The fields of a candidate are those that it is made of.
record Fields (sf n immr imms word : ℕ) : Type 0 where
  top : field 31 1 word ≡ sf
  middle : field 22 1 word ≡ n
  rotation : field 16 6 word ≡ immr
  ones : field 10 6 word ≡ imms

-- A field of a candidate from that field of its four parts.
candidate-parts :
    (lo width sf n immr imms a b c d : ℕ)
    → field lo width (sf * 2 ^ 31) ≡ a
    → field lo width (shl_u32 n 22) ≡ b
    → field lo width (shl_u32 immr 16) ≡ c
    → field lo width (shl_u32 imms 10) ≡ d
    → field lo width (candidate (sf * 2 ^ 31) n immr imms) ≡ bit_or (bit_or (bit_or a b) c) d
candidate-parts lo width sf n immr imms a b c d is_a is_b is_c is_d =
    simp (field-bit_or, is_a, is_b, is_c, is_d) refl

candidate-Fields :
    (sf n immr imms : ℕ)
    → sf < 2
    → n < 2
    → immr < 64
    → imms < 64
    → Fields sf n immr imms (candidate (sf * 2 ^ 31) n immr imms)
candidate-Fields sf n immr imms sf_fits n_fits immr_fits imms_fits = record {
  top =
      candidate-parts 31 1 sf n immr imms sf 0 0 0 (omega arith) (omega arith) (omega arith)
        (omega arith)
      ∙ simp (bit_or-zero, zero-bit_or) refl;
  middle =
      candidate-parts 22 1 sf n immr imms 0 n 0 0 (omega arith) (omega arith) (omega arith)
        (omega arith)
      ∙ simp (bit_or-zero, zero-bit_or) refl;
  rotation =
      candidate-parts 16 6 sf n immr imms 0 0 immr 0 (omega arith) (omega arith) (omega arith)
        (omega arith)
      ∙ simp (bit_or-zero, zero-bit_or) refl;
  ones =
      candidate-parts 10 6 sf n immr imms 0 0 0 imms (omega arith) (omega arith) (omega arith)
        (omega arith)
      ∙ simp (bit_or-zero, zero-bit_or) refl;
}

-- Words with the same fields stand for the same immediate.
same_immediate :
    (sf n immr imms v w : ℕ)
    → Fields sf n immr imms v
    → Fields sf n immr imms w
    → logical_immediate v ≡ logical_immediate w
unfolding logical_immediate
same_immediate sf n immr imms v w f g =
    rw (f.top, f.middle, f.rotation, f.ones, g.top, g.middle, g.rotation, g.ones) refl

same_ℤ : (a b : ℤ) → is_same_ℤ a b ≡ true → a ≡ b
same_ℤ (pos m) (pos n) h = ground arith
same_ℤ (pos m) (negsuc n) h = absurd (ground arith)
same_ℤ (negsuc m) (pos n) h = absurd (ground arith)
same_ℤ (negsuc m) (negsuc n) h = ground arith

is_same_ℤ-refl : (a : ℤ) → is_same_ℤ a a ≡ true
is_same_ℤ-refl (pos m) = ground arith
is_same_ℤ-refl (negsuc m) = ground arith

-- A turn that returns has a candidate that stands for the value, and the other way round.
logical_candidate-eq-some :
    (value : ℤ) (sf n immr imms bits : ℕ)
    → logical_candidate value sf n immr imms ≡ some bits
    → (logical_immediate (candidate sf n immr imms) ≡ some value)
      × (bits ≡ field 10 13 (candidate sf n immr imms) * 2 ^ 10)
unfolding logical_candidate
logical_candidate-eq-some value sf n immr imms bits h =
    elim (Option-cases (logical_immediate (candidate sf n immr imms))) [
      | inl e ↦ absurd (ground arith)
      | inr (v, e) ↦ elim (Bool-cases (is_same_ℤ v value)) [
        | inl same ↦ (e ∙ ap some (same_ℤ v value same), ground arith)
        | inr differs ↦ absurd (ground arith)
      ]
    ]

logical_candidate-eq-none :
    (value : ℤ) (sf n immr imms : ℕ)
    → logical_candidate value sf n immr imms ≡ none
    → logical_immediate (candidate sf n immr imms) ≢ some value
unfolding logical_candidate
logical_candidate-eq-none value sf n immr imms h e = absurd (ground (arith, is_same_ℤ-refl value))

-- Fields within their bounds that stand for the value, and the bits that they give.
record Hit (value : ℤ) (sf bits : ℕ) : Type 0 where
  n : ℕ
  immr : ℕ
  imms : ℕ
  n_fits : n < 2
  immr_fits : immr < 64
  imms_fits : imms < 64
  stands : logical_immediate (candidate (sf * 2 ^ 31) n immr imms) ≡ some value
  packed : bits ≡ field 10 13 (candidate (sf * 2 ^ 31) n immr imms) * 2 ^ 10

find_logical-Hit :
    (value : ℤ) (sf bits : ℕ) → find_logical value (sf * 2 ^ 31) ≡ some bits → Hit value sf bits
unfolding find_logical
find_logical-Hit value sf bits h =
    let (n, n_from, n_below, found_n) = first_some-eq-some _ 0 2 bits h in
    let (immr, immr_from, immr_below, found_immr) = first_some-eq-some _ 0 64 bits found_n in
    let (imms, imms_from, imms_below, found) = first_some-eq-some _ 0 64 bits found_immr in
    let (stands, packed) = logical_candidate-eq-some value (sf * 2 ^ 31) n immr imms bits found in
    record {
      n = n;
      immr = immr;
      imms = imms;
      n_fits = omega arith;
      immr_fits = omega arith;
      imms_fits = omega arith;
      stands = stands;
      packed = packed;
    }

find_logical-eq-none :
    (value : ℤ) (sf n immr imms : ℕ)
    → find_logical value (sf * 2 ^ 31) ≡ none
    → n < 2
    → immr < 64
    → imms < 64
    → logical_immediate (candidate (sf * 2 ^ 31) n immr imms) ≢ some value
unfolding find_logical
find_logical-eq-none value sf n immr imms h n_fits immr_fits imms_fits =
    logical_candidate-eq-none value (sf * 2 ^ 31) n immr imms (
      first_some-eq-none _ 0 64 imms
        (first_some-eq-none _ 0 64 immr (first_some-eq-none _ 0 2 n h (omega arith) (omega arith))
          (omega arith) (omega arith))
        (omega arith) (omega arith))

-- The bits of a candidate keep its fields below the top bit.
merged-Fields :
    (sf n immr imms base bits : ℕ)
    → Fields sf n immr imms (candidate (sf * 2 ^ 31) n immr imms)
    → bits ≡ field 10 13 (candidate (sf * 2 ^ 31) n immr imms) * 2 ^ 10
    → field 31 1 base ≡ sf
    → field 10 13 base ≡ 0
    → Fields sf n immr imms (bit_or base bits)
merged-Fields sf n immr imms base bits f packed top clear =
    let c = candidate (sf * 2 ^ 31) n immr imms in
    record {
      top = field-bit_or_left 31 1 base bits (omega (arith, packed)) ∙ top;
      middle =
          field-bit_or_right 22 1 base bits (omega (arith, clear))
          ∙ omega (arith, packed, f.middle);
      rotation =
          field-bit_or_right 16 6 base bits (omega (arith, clear))
          ∙ omega (arith, packed, f.rotation);
      ones =
          field-bit_or_right 10 6 base bits (omega (arith, clear)) ∙ omega (arith, packed, f.ones);
    }

-- What the encoder returns comes from a hit of the search.
encode_logical_immediate-Hit :
    (kind : Aarch64Opnd) (value : ℤ) (word bits : ℕ)
    → encode_logical_immediate kind (DecodedOperand.immediate value) word ≡ ok bits
    → Hit value (field 31 1 word) bits
unfolding encode_logical_immediate
encode_logical_immediate-Hit kind value word bits h =
    elim (Option-cases (find_logical value (field 31 1 word * 2 ^ 31))) [
      | inl e ↦ absurd (ground arith)
      | inr (b, e) ↦ find_logical-Hit value (field 31 1 word) bits (ground arith)
    ]

Hit-Fields :
    (value : ℤ) (word bits : ℕ) (hit : Hit value (field 31 1 word) bits)
    → Fields
        (field 31 1 word)
        hit.n
        hit.immr
        hit.imms
        (candidate (field 31 1 word * 2 ^ 31) hit.n hit.immr hit.imms)
Hit-Fields value word bits hit =
    candidate-Fields (field 31 1 word) hit.n hit.immr hit.imms (omega arith) hit.n_fits
      hit.immr_fits hit.imms_fits

-- An encoded bitmask immediate decodes to its value in a word that has the same top bit and whose field
-- for it was clear.
pub logical_immediate-encode :
    (kind : Aarch64Opnd) (value : ℤ) (word base bits : ℕ)
    → encode_logical_immediate kind (DecodedOperand.immediate value) word ≡ ok bits
    → field 31 1 base ≡ field 31 1 word
    → field 10 13 base ≡ 0
    → logical_immediate (bit_or base bits) ≡ some value
logical_immediate-encode kind value word base bits h top clear =
    let hit = encode_logical_immediate-Hit kind value word bits h in
    let f = Hit-Fields value word bits hit in
    same_immediate _ hit.n hit.immr hit.imms (bit_or base bits) _
      (merged-Fields _ hit.n hit.immr hit.imms base bits f hit.packed top clear) f
    ∙ hit.stands

-- A word that stands for a value is found by its fields.
find_logical_complete :
    (value : ℤ) (word w : ℕ)
    → field 31 1 w ≡ field 31 1 word
    → logical_immediate w ≡ some value
    → find_logical value (field 31 1 word * 2 ^ 31) ≢ none
find_logical_complete value word w top stands e =
    let sf = field 31 1 word in
    let n = field 22 1 w in
    let immr = field 16 6 w in
    let imms = field 10 6 w in
    let of_w : Fields sf n immr imms w = record {
      top = top;
      middle = refl;
      rotation = refl;
      ones = refl;
    } in
    let of_candidate =
      candidate-Fields sf n immr imms (omega arith) (omega arith) (omega arith) (omega arith) in
    find_logical-eq-none value sf n immr imms e (omega arith) (omega arith) (omega arith)
      (same_immediate sf n immr imms _ w of_candidate of_w ∙ stands)

-- A value can be encoded exactly when some word with the same top bit decodes to it.
pub encode_logical_immediate_iff :
    (kind : Aarch64Opnd) (value : ℤ) (word : ℕ)
    → ((bits : ℕ) × (encode_logical_immediate kind (DecodedOperand.immediate value) word ≡ ok bits))
      ↔ ((w : ℕ) × (field 31 1 w ≡ field 31 1 word) × (logical_immediate w ≡ some value))
unfolding encode_logical_immediate
encode_logical_immediate_iff kind value word = (
  λ (bits, h).
      let hit = encode_logical_immediate-Hit kind value word bits h in
      (
        candidate (field 31 1 word * 2 ^ 31) hit.n hit.immr hit.imms,
        (Hit-Fields value word bits hit).top,
        hit.stands,
      ),
  λ (w, top, stands). elim (Option-cases (find_logical value (field 31 1 word * 2 ^ 31))) [
    | inl e ↦ absurd (find_logical_complete value word w top stands e)
    | inr (b, e) ↦ (b, ground arith)
  ],
)
