-- ===== src/Rewrite/Layout/Encoding.antt =====
-- src/rewrite/layout.rs and src/isa/aarch64/operand.rs: the range test of the layout and the encoder of
-- branches agree.
use armv8_encode.Base.{ℕ, ◌-◌, ◌*◌, ◌%◌, ◌^◌, ◌<◌, ◌≡◌, ◌↔◌, sym, arith, true, some, ok}
use armv8_encode.Base.Int.{ℤ, pos, neg, difference, ◌≤ℤ◌, ◌<ℤ◌, ◌%ℤ◌}
use mathlib.Core.Path.{subst}
use armv8_encode.Base.{Option, ap, List, [], ◌∷◌, ◌∈◌, All, inl, inr}
use armv8_encode.Base.{mem-All}
use armv8_encode.Aarch64.{Aarch64Opnd, Aarch64Opcode, DecodedOperand}
use armv8_encode.Aarch64.Mnemonic.{parse}
use armv8_encode.Aarch64.Operand.Codec.{encode}
use armv8_encode.Aarch64.Operand.Recoding.{IsBranch}
use armv8_encode.Aarch64.Table.Branches.{branch_rows}
use armv8_encode.Aarch64.ControlFlow.{pcrel_range_bytes}
use armv8_encode.Aarch64.Operand.Pcrel.{encode_pcrel}
use armv8_encode.Aarch64.Operand.Pcrel.Range.{encode_pcrel_iff}
use armv8_encode.Rewrite.Layout.{is_in_range, displacement_to}

-- Below half of the address space the displacement is the true difference.
displacement_to-eq :
    (target address : ℕ)
    → target < 2 ^ 63
    → address < 2 ^ 63
    → displacement_to target address ≡ difference target address
unfolding displacement_to
displacement_to-eq target address t a = ground arith

aligned :
    (target address : ℕ) → target % 4 ≡ 0 → address % 4 ≡ 0 → difference target address %ℤ 4 ≡ pos 0
aligned target address t a = ground arith

is_in_range_iff :
    (offset : ℤ) (range : ℕ)
    → (is_in_range offset (pos range) ≡ true)
      ↔ ((neg (pos range) ≤ℤ offset) × (offset <ℤ pos range))
unfolding is_in_range
is_in_range_iff offset range = (λ h. (ground arith, ground arith), λ (least, most). ground arith)

-- A branch field is as wide as the range of the mnemonic.
in_range_iff :
    (kind : Aarch64Opnd) (target address bits bit_offset : ℕ)
    → target < 2 ^ 63
    → address < 2 ^ 63
    → target % 4 ≡ 0
    → address % 4 ≡ 0
    → (is_in_range (displacement_to target address) (pos (4 * 2 ^ (bits - 1))) ≡ true) ↔ (
        (out : ℕ) × (encode_pcrel kind (DecodedOperand.branch_target target) address bits bit_offset
          ≡ ok out))
in_range_iff kind target address bits bit_offset t a t4 a4 =
    rw (displacement_to-eq target address t a) (
      λ h.
          let (least, most) =
            (is_in_range_iff (difference target address) (4 * 2 ^ (bits - 1))).0 h in
          (encode_pcrel_iff kind target address bits bit_offset).1
            (aligned target address t4 a4, least, most),
      λ e.
          let (whole, least, most) = (encode_pcrel_iff kind target address bits bit_offset).0 e in
          (is_in_range_iff (difference target address) (4 * 2 ^ (bits - 1))).1 (least, most),
    )

-- The range of a kind of branch.
abbrev kind_range : Aarch64Opnd → ℤ
kind_range Aarch64Opnd.addr_pcrel14 = pos (4 * 2 ^ (14 - 1))
kind_range Aarch64Opnd.addr_pcrel19 = pos (4 * 2 ^ (19 - 1))
kind_range Aarch64Opnd.addr_pcrel26 = pos (4 * 2 ^ (26 - 1))
kind_range _ = pos 0

-- A list of operands that ends in a branch operand, behind operands that are none.
Ends : List Aarch64Opnd → Option ℤ → Type 0
Ends operands range =
    (kind : Aarch64Opnd) → kind ∈ operands → IsBranch kind → range ≡ some (kind_range kind)

Ends-last : (last : Aarch64Opnd) → Ends (last ∷ []) (some (kind_range last))
unfolding Ends
Ends-last last kind (inl e) k = ap (λ x. some (kind_range x)) (sym e)
Ends-last last kind (inr m) k = absurd m

Ends-skip :
    (other : Aarch64Opnd) (operands : List Aarch64Opnd) (range : Option ℤ)
    → (IsBranch other → ⊥)
    → Ends operands range
    → Ends (other ∷ operands) range
unfolding Ends
Ends-skip other operands range none_there rest kind (inl e) k =
    absurd (none_there (subst IsBranch e k))
Ends-skip other operands range none_there rest kind (inr m) k = rest kind m k

Ends-compare : Ends (Aarch64Opnd.rt ∷ Aarch64Opnd.addr_pcrel19 ∷ []) (some (pos 1048576))
Ends-compare =
    Ends-skip Aarch64Opnd.rt (Aarch64Opnd.addr_pcrel19 ∷ []) (some (pos 1048576)) (λ k. k)
      (Ends-last Aarch64Opnd.addr_pcrel19)

Ends-test :
    Ends (Aarch64Opnd.rt ∷ Aarch64Opnd.bit_num ∷ Aarch64Opnd.addr_pcrel14 ∷ []) (some (pos 32768))
Ends-test =
    Ends-skip Aarch64Opnd.rt (Aarch64Opnd.bit_num ∷ Aarch64Opnd.addr_pcrel14 ∷ [])
      (some (pos 32768)) (λ k. k)
      (Ends-skip Aarch64Opnd.bit_num (Aarch64Opnd.addr_pcrel14 ∷ []) (some (pos 32768)) (λ k. k)
        (Ends-last Aarch64Opnd.addr_pcrel14))

-- The rows agree with the ranges of their mnemonics.
Agrees : Aarch64Opcode → Type 0
Agrees row = Ends row.operands (pcrel_range_bytes (parse row.name))

rows_agree : All Agrees branch_rows
unfolding Agrees pcrel_range_bytes branch_rows parse
rows_agree =
    let far = Ends-last Aarch64Opnd.addr_pcrel26 in
    let near = Ends-last Aarch64Opnd.addr_pcrel19 in
    let compare = Ends-compare in
    let test = Ends-test in
    (
      far,
      (
        far,
        (
          compare,
          (
            compare,
            (
              test,
              (
                test,
                (
                  near,
                  (
                    near,
                    (
                      near,
                      (
                        near,
                        (
                          near,
                          (
                            near,
                            (near, (near, (near, (near, (near, (near, (near, (near, tt)))))))),
                          ),
                        ),
                      ),
                    ),
                  ),
                ),
              ),
            ),
          ),
        ),
      ),
    )

encodes_iff :
    (kind : Aarch64Opnd) (row : Aarch64Opcode) (target address word : ℕ)
    → IsBranch kind
    → target < 2 ^ 63
    → address < 2 ^ 63
    → target % 4 ≡ 0
    → address % 4 ≡ 0
    → (is_in_range (displacement_to target address) (kind_range kind) ≡ true) ↔ (
        (out : ℕ) × (encode kind
            (DecodedOperand.branch_target target)
            (record { base_word = word; address = address; opcode = row })
          ≡ ok out))
unfolding encode
encodes_iff Aarch64Opnd.addr_pcrel14 row target address word k t a t4 a4 =
    in_range_iff Aarch64Opnd.addr_pcrel14 target address 14 5 t a t4 a4
encodes_iff Aarch64Opnd.addr_pcrel19 row target address word k t a t4 a4 =
    in_range_iff Aarch64Opnd.addr_pcrel19 target address 19 5 t a t4 a4
encodes_iff Aarch64Opnd.addr_pcrel26 row target address word k t a t4 a4 =
    in_range_iff Aarch64Opnd.addr_pcrel26 target address 26 0 t a t4 a4
encodes_iff kind row target address word k t a t4 a4 = absurd k

-- For the rows of the opcode table that are branches with a mnemonic of their own, and aligned
-- addresses below half of the address space: the mnemonic has a range, and by it the layout takes a
-- branch to be in range exactly when the codec encodes the branch operand of the row.
pub is_in_range-encode :
    (row : Aarch64Opcode) (kind : Aarch64Opnd) (target address word : ℕ)
    → row ∈ branch_rows
    → kind ∈ row.operands
    → IsBranch kind
    → target < 2 ^ 63
    → address < 2 ^ 63
    → target % 4 ≡ 0
    → address % 4 ≡ 0
    → (range : ℤ) × (pcrel_range_bytes (parse row.name) ≡ some range)
      × ((is_in_range (displacement_to target address) range ≡ true) ↔ (
          (out : ℕ) × (encode kind
              (DecodedOperand.branch_target target)
              (record { base_word = word; address = address; opcode = row })
            ≡ ok out)))
unfolding Agrees Ends
is_in_range-encode row kind target address word m n k t a t4 a4 = (
  kind_range kind,
  mem-All Agrees branch_rows rows_agree m kind n k,
  encodes_iff kind row target address word k t a t4 a4,
)
