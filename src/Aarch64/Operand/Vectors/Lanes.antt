-- ===== src/Aarch64/Operand/Vectors/Lanes.antt =====
-- src/isa/aarch64/operand.rs: the lane of a single-structure load or store, encoded and decoded.
use armv8_encode.Base.{
  ℕ, suc, ◌+◌, ◌*◌, ◌/◌, ◌%◌, ◌^◌, ◌<◌, bit_or, ◌≡◌, inl, inr, refl, sym, ap, ◌∙◌,
}
use armv8_encode.Base.{arith, some, Option-cases, Bool-cases, ok, leb, ◌&&◌}
use native.Mathlib.Nat.{pow-succ', one-le-pow}
use armv8_encode.Base.Bits.{field, field-bit_or, bit_or_sum, zero-bit_or, bit_or-zero}
use armv8_encode.Base.Word.{shl_u32}
use armv8_encode.Aarch64.{Aarch64Opnd, DecodedOperand, VectorElementSize, VectorList}
use armv8_encode.Aarch64.Operand.Vectors.{simd_ldst_element}
use armv8_encode.Aarch64.Operand.Vectors.Encode.{
  encode_vector_element_list, encode_simd_ldst_element,
}
use armv8_encode.Aarch64.Operand.Vectors.Encode.{
  element_size_from_arrangement, count_bits, lane_fields,
}
use armv8_encode.Aarch64.Operand.Vectors.Encode.{element_list}

-- The word that the encoder makes of its fields.
abbrev lane_word : ℕ → ℕ → ℕ → ℕ → ℕ → ℕ
lane_word q s size count first =
    bit_or (bit_or (shl_u32 q 30) (count_bits count))
      (bit_or (bit_or (shl_u32 s 12) (shl_u32 size 10)) first)

lane_word-parts :
    (lo width q s size count first a b c d e : ℕ)
    → field lo width (shl_u32 q 30) ≡ a
    → field lo width (count_bits count) ≡ b
    → field lo width (shl_u32 s 12) ≡ c
    → field lo width (shl_u32 size 10) ≡ d
    → field lo width first ≡ e
    → field lo width (lane_word q s size count first) ≡ bit_or (bit_or a b) (bit_or (bit_or c d) e)
lane_word-parts lo width q s size count first a b c d e is_a is_b is_c is_d is_e =
    simp (field-bit_or, is_a, is_b, is_c, is_d, is_e) refl

-- The four fields that the decoder reads.
record LaneFields (q s size word : ℕ) : Type 0 where
  q_bit : field 30 1 word ≡ q
  s_bit : field 12 1 word ≡ s
  size_bits : field 10 2 word ≡ size
  size_high : field 11 1 word ≡ size / 2

lane_word-LaneFields :
    (q s size count first : ℕ)
    → q < 2
    → s < 2
    → size < 4
    → first < 32
    → LaneFields q s size (lane_word q s size count first)
lane_word-LaneFields q s size count first q_fits s_fits size_fits first_fits = record {
  q_bit =
      lane_word-parts 30 1 q s size count first q 0 0 0 0 (omega arith) (ground arith) (omega arith)
        (omega arith) (omega arith)
      ∙ simp (bit_or-zero) refl;
  s_bit =
      lane_word-parts 12 1 q s size count first 0 0 s 0 0 (omega arith) (ground arith) (omega arith)
        (omega arith) (omega arith)
      ∙ simp (bit_or-zero, zero-bit_or) refl;
  size_bits =
      lane_word-parts 10 2 q s size count first 0 0 0 size 0 (omega arith) (ground arith)
        (omega arith) (omega arith) (omega arith)
      ∙ simp (bit_or-zero, zero-bit_or) refl;
  size_high =
      lane_word-parts 11 1 q s size count first 0 0 0 (size / 2) 0 (omega arith) (ground arith)
        (omega arith) (omega arith) (omega arith)
      ∙ simp (bit_or-zero, zero-bit_or) refl;
}

-- The element that the decoder reads: for bytes and half words the low bits are lost, and read as ones.
abbrev pub lane_read : VectorElementSize → ℕ → ℕ
lane_read VectorElementSize.b element = element / 4 * 4 + 3
lane_read VectorElementSize.h element = element / 2 * 2 + 1
lane_read VectorElementSize.s element = element
lane_read VectorElementSize.d element = element

-- Two bits above some low bits, as a sum.
two_bits :
    (k q s low : ℕ)
    → low < 2 ^ k
    → s < 2
    → bit_or (bit_or (q * 2 ^ suc k) (s * 2 ^ k)) low ≡ (q * 2 + s) * 2 ^ k + low
two_bits k q s low low_fits s_fits =
    ap (λ (t : ℕ). bit_or t low)
      (bit_or_sum (suc k) q (s * 2 ^ k) (grind (arith, pow-succ' 2 k, one-le-pow k 2))
        ∙ rw (pow-succ' 2 k) (grind arith))
    ∙ bit_or_sum k (q * 2 + s) low low_fits

lane_read_lem :
    (size : VectorElementSize) (element q s encoded_size word : ℕ)
    → encode_simd_ldst_element size element ≡ some (q, s, encoded_size)
    → LaneFields q s encoded_size word
    → simd_ldst_element word ≡ (size, lane_read size element)
unfolding simd_ldst_element encode_simd_ldst_element
lane_read_lem VectorElementSize.b element q s encoded_size word h f =
    let is : (q ≡ element / 8) × (s ≡ element / 4 % 2) × (encoded_size ≡ 3) =
      (ground arith, ground arith, ground arith) in
    let size : field 10 2 word ≡ 3 = f.size_bits ∙ is.2 in
    rw (size, f.q_bit, f.s_bit)
      (ap (λ n. (VectorElementSize.b, n))
        (two_bits 2 q s 3 (omega arith) (omega (arith, is.1)) ∙ omega (arith, is.0, is.1)))
lane_read_lem VectorElementSize.h element q s encoded_size word h f =
    let is : (q ≡ element / 4) × (s ≡ element / 2 % 2) × (encoded_size ≡ 2) =
      (ground arith, ground arith, ground arith) in
    let size : field 10 2 word ≡ 2 = f.size_bits ∙ is.2 in
    let high : field 11 1 word ≡ 1 = f.size_high ∙ ap (λ (t : ℕ). t / 2) is.2 in
    rw (size, f.q_bit, f.s_bit, high)
      (ap (λ n. (VectorElementSize.h, n))
        (two_bits 1 q s 1 (omega arith) (omega (arith, is.1)) ∙ omega (arith, is.0, is.1)))
lane_read_lem VectorElementSize.s element q s encoded_size word h f =
    let is : (q ≡ element / 2) × (s ≡ element % 2) × (encoded_size ≡ 0) =
      (ground arith, ground arith, ground arith) in
    let size : field 10 2 word ≡ 0 = f.size_bits ∙ is.2 in
    rw (size, f.q_bit, f.s_bit)
      (ap (λ n. (VectorElementSize.s, n))
        (bit_or_sum 1 q s (omega (arith, is.1)) ∙ omega (arith, is.0, is.1)))
lane_read_lem VectorElementSize.d element q s encoded_size word h f =
    ground (arith, f.size_bits, f.q_bit)

-- The fields of an element in range.
small_fields :
    (size : VectorElementSize) (element q s encoded_size : ℕ)
    → encode_simd_ldst_element size element ≡ some (q, s, encoded_size)
    → (q < 2) × (s < 2) × (encoded_size < 4)
unfolding encode_simd_ldst_element
small_fields VectorElementSize.b element q s encoded_size h =
    (ground arith, ground arith, ground arith)
small_fields VectorElementSize.h element q s encoded_size h =
    (ground arith, ground arith, ground arith)
small_fields VectorElementSize.s element q s encoded_size h =
    (ground arith, ground arith, ground arith)
small_fields VectorElementSize.d element q s encoded_size h =
    (ground arith, ground arith, ground arith)

-- The lane of a list of S or D elements is read back as it was encoded; of the number of a byte the two
-- low bits are lost, and of that of a half word one: they read back as ones.
pub simd_ldst_element-encode_vector_element_list :
    (kind : Aarch64Opnd) (l : VectorList) (element bits : ℕ)
    → l.element ≡ some element
    → encode_vector_element_list kind (DecodedOperand.vector_list l) ≡ ok bits
    → let size = element_size_from_arrangement l.arrangement in
      simd_ldst_element bits ≡ (size, lane_read size element)
unfolding encode_vector_element_list
simd_ldst_element-encode_vector_element_list kind l element bits is h =
    let size = element_size_from_arrangement l.arrangement in
    elim (Bool-cases (leb l.first 31 && leb 1 l.count && leb l.count 4)) [
      | inr refused ↦ absurd (ground arith)
      | inl fine ↦
          let listed : element_list kind l l.element ≡ ok bits = ground arith in
          let lanes : lane_fields l (encode_simd_ldst_element size element) ≡ ok bits =
            sym (ap (element_list kind l) is) ∙ listed in
          elim (Option-cases (encode_simd_ldst_element size element)) [
            | inl e ↦ absurd (ground arith)
            | inr ((q, s, encoded_size), e) ↦
                let (q_fits, s_fits, size_fits) = small_fields size element q s encoded_size e in
                let f =
                  lane_word-LaneFields q s encoded_size l.count l.first q_fits s_fits size_fits
                    (ground arith) in
                let packed : bits ≡ lane_word q s encoded_size l.count l.first = ground arith in
                rw packed (lane_read_lem size element q s encoded_size _ e f)
          ]
    ]
