-- ===== src/Aarch64/Operand/RoundTrip.antt =====
-- src/isa/aarch64/operand.rs: one round trip for the operand kinds that are a number in a word: the
-- relative addresses and the immediates that each row of the table keeps apart from its other fields.
use armv8_encode.Base.{ℕ, ◌-◌, bit_or, ◌≡◌, ap, arith, All, ok}
use armv8_encode.Base.Bits.{field}
use armv8_encode.Base.Word.{IsU64}
use armv8_encode.Aarch64.{Aarch64Opnd, Aarch64Opcode, DecodedOperand}
use armv8_encode.Aarch64.Operand.Codec.{decode, encode}
use armv8_encode.Aarch64.Operand.Pcrel.{encode_pcrel, encode_pcrel21, encode_adrp}
use armv8_encode.Aarch64.Operand.Pcrel.Pages.{branch_target-imm21, adrp_target-imm21}
use armv8_encode.Aarch64.Operand.Pcrel.RoundTrip.{branch_target-imm14, branch_target-imm19}
use armv8_encode.Aarch64.Operand.Pcrel.RoundTrip.{branch_target-imm26}
use armv8_encode.Aarch64.Operand.Immediates.{exc, ccmp_imm, nzcv, uimm3_op1, uimm3_op2, uimm4}
use armv8_encode.Aarch64.Operand.Immediates.{immr, imms}
use armv8_encode.Aarch64.Operand.Immediates.RoundTrip.{bit_num-encode_bit_num, uimm7-encode_uimm7}
use armv8_encode.Aarch64.Operand.Immediates.RoundTrip.{field-encode_raw_immediate}
use armv8_encode.Aarch64.Operand.Immediates.RoundTrip.{fbits-encode_fbits, aimm-encode_aimm}
use armv8_encode.Aarch64.Operand.Immediates.RoundTrip.{half-encode_half}
use armv8_encode.Aarch64.Table.Ranges.{operand_bit_ranges}

-- The kinds that are a number in bits of their own.
abbrev pub IsNumber : Aarch64Opnd → Type 0
IsNumber Aarch64Opnd.addr_pcrel14 = Unit
IsNumber Aarch64Opnd.addr_pcrel19 = Unit
IsNumber Aarch64Opnd.addr_pcrel21 = Unit
IsNumber Aarch64Opnd.addr_pcrel26 = Unit
IsNumber Aarch64Opnd.addr_adrp = Unit
IsNumber Aarch64Opnd.exc = Unit
IsNumber Aarch64Opnd.ccmp_imm = Unit
IsNumber Aarch64Opnd.nzcv = Unit
IsNumber Aarch64Opnd.uimm3_op1 = Unit
IsNumber Aarch64Opnd.uimm3_op2 = Unit
IsNumber Aarch64Opnd.uimm4 = Unit
IsNumber Aarch64Opnd.uimm7 = Unit
IsNumber Aarch64Opnd.bit_num = Unit
IsNumber Aarch64Opnd.fbits = Unit
IsNumber Aarch64Opnd.aimm = Unit
IsNumber Aarch64Opnd.half = Unit
IsNumber Aarch64Opnd.immr = Unit
IsNumber Aarch64Opnd.imms = Unit
IsNumber _ = ⊥

-- An address is one of 64 bits.
abbrev pub InRange : DecodedOperand → Type 0
InRange (DecodedOperand.branch_target target) = IsU64 target
InRange (DecodedOperand.page_target target) = IsU64 target
InRange _ = Unit

-- A word whose bits of a kind are not in use yet.
abbrev pub IsClear : Aarch64Opnd → ℕ → Type 0
IsClear kind word = All (λ (lo, hi). field lo (hi - lo) word ≡ 0) (operand_bit_ranges kind)

module _ (opcode row : Aarch64Opcode) (address base base_word index bits : ℕ) where
  -- The encoder's bits, put into a word that has room for them, decode to the operand.
  abbrev ReadsBack : Aarch64Opnd → DecodedOperand → Type 0
  ReadsBack kind x =
      encode kind x (record { base_word = base_word; address = address; opcode = opcode }) ≡ ok bits
      → decode kind (record {
        word = bit_or base bits;
        address = address;
        opcode = row;
        operand_index = index;
      })
        ≡ ok x

  pcrel26 :
      (x : DecodedOperand)
      → IsU64 address
      → InRange x
      → field 0 26 base ≡ 0
      → ReadsBack Aarch64Opnd.addr_pcrel26 x
  unfolding encode decode encode_pcrel
  pcrel26 (DecodedOperand.branch_target target) a t clear h =
      ap (λ n. ok (DecodedOperand.branch_target n))
        (branch_target-imm26 Aarch64Opnd.addr_pcrel26 target address base bits t a h clear)
  pcrel26 x a t clear h = absurd (ground arith)

  pcrel19 :
      (x : DecodedOperand)
      → IsU64 address
      → InRange x
      → field 5 19 base ≡ 0
      → ReadsBack Aarch64Opnd.addr_pcrel19 x
  unfolding encode decode encode_pcrel
  pcrel19 (DecodedOperand.branch_target target) a t clear h =
      ap (λ n. ok (DecodedOperand.branch_target n))
        (branch_target-imm19 Aarch64Opnd.addr_pcrel19 target address base bits t a h clear)
  pcrel19 x a t clear h = absurd (ground arith)

  pcrel14 :
      (x : DecodedOperand)
      → IsU64 address
      → InRange x
      → field 5 14 base ≡ 0
      → ReadsBack Aarch64Opnd.addr_pcrel14 x
  unfolding encode decode encode_pcrel
  pcrel14 (DecodedOperand.branch_target target) a t clear h =
      ap (λ n. ok (DecodedOperand.branch_target n))
        (branch_target-imm14 Aarch64Opnd.addr_pcrel14 target address base bits t a h clear)
  pcrel14 x a t clear h = absurd (ground arith)

  pcrel21 :
      (x : DecodedOperand)
      → IsU64 address
      → InRange x
      → field 29 2 base ≡ 0
      → field 5 19 base ≡ 0
      → ReadsBack Aarch64Opnd.addr_pcrel21 x
  unfolding encode decode encode_pcrel21
  pcrel21 (DecodedOperand.branch_target target) a t clear_low clear_high h =
      ap (λ n. ok (DecodedOperand.branch_target n))
        (branch_target-imm21 Aarch64Opnd.addr_pcrel21 target address base bits t a h clear_low
          clear_high)
  pcrel21 x a t clear_low clear_high h = absurd (ground arith)

  adrp :
      (x : DecodedOperand)
      → IsU64 address
      → InRange x
      → field 29 2 base ≡ 0
      → field 5 19 base ≡ 0
      → ReadsBack Aarch64Opnd.addr_adrp x
  unfolding encode decode encode_adrp
  adrp (DecodedOperand.page_target target) a t clear_low clear_high h =
      ap (λ n. ok (DecodedOperand.page_target n))
        (adrp_target-imm21 Aarch64Opnd.addr_adrp target address base bits t a h clear_low
          clear_high)
  adrp x a t clear_low clear_high h = absurd (ground arith)

  -- A number that an operand kind keeps in one of its bit ranges, or in two, comes back from a word in
  -- which those bits were clear: relative addresses, if they have 64 bits, and immediates.
  pub decode-encode :
      (kind : Aarch64Opnd) (x : DecodedOperand)
      → IsNumber kind
      → IsU64 address
      → InRange x
      → IsClear kind base
      → encode kind x (record { base_word = base_word; address = address; opcode = opcode })
        ≡ ok bits
      → decode kind (record {
        word = bit_or base bits;
        address = address;
        opcode = row;
        operand_index = index;
      })
        ≡ ok x
  unfolding encode decode operand_bit_ranges exc ccmp_imm nzcv uimm3_op1 uimm3_op2 uimm4 immr imms
  decode-encode Aarch64Opnd.addr_pcrel26 x k a t clear h = pcrel26 x a t clear.0 h
  decode-encode Aarch64Opnd.addr_pcrel19 x k a t clear h = pcrel19 x a t clear.0 h
  decode-encode Aarch64Opnd.addr_pcrel14 x k a t clear h = pcrel14 x a t clear.0 h
  decode-encode Aarch64Opnd.addr_pcrel21 x k a t clear h = pcrel21 x a t clear.1.0 clear.0 h
  decode-encode Aarch64Opnd.addr_adrp x k a t clear h = adrp x a t clear.1.0 clear.0 h
  decode-encode Aarch64Opnd.exc x k a t clear h =
      ap ok (field-encode_raw_immediate base _ x 5 16 bits (omega arith) h clear.0)
  decode-encode Aarch64Opnd.ccmp_imm x k a t clear h =
      ap ok (field-encode_raw_immediate base _ x 16 5 bits (omega arith) h clear.0)
  decode-encode Aarch64Opnd.nzcv x k a t clear h =
      ap ok (field-encode_raw_immediate base _ x 0 4 bits (omega arith) h clear.0)
  decode-encode Aarch64Opnd.uimm3_op1 x k a t clear h =
      ap ok (field-encode_raw_immediate base _ x 16 3 bits (omega arith) h clear.0)
  decode-encode Aarch64Opnd.uimm3_op2 x k a t clear h =
      ap ok (field-encode_raw_immediate base _ x 5 3 bits (omega arith) h clear.0)
  decode-encode Aarch64Opnd.uimm4 x k a t clear h =
      ap ok (field-encode_raw_immediate base _ x 8 4 bits (omega arith) h clear.0)
  decode-encode Aarch64Opnd.immr x k a t clear h =
      ap ok (field-encode_raw_immediate base _ x 16 6 bits (omega arith) h clear.0)
  decode-encode Aarch64Opnd.imms x k a t clear h =
      ap ok (field-encode_raw_immediate base _ x 10 6 bits (omega arith) h clear.0)
  decode-encode Aarch64Opnd.uimm7 x k a t clear h =
      ap ok (uimm7-encode_uimm7 base _ x bits h clear.0 clear.1.0)
  decode-encode Aarch64Opnd.bit_num x k a t clear h =
      ap ok (bit_num-encode_bit_num base _ x bits h clear.0 clear.1.0)
  decode-encode Aarch64Opnd.fbits x k a t clear h =
      ap ok (fbits-encode_fbits base _ x bits h clear.0)
  decode-encode Aarch64Opnd.aimm x k a t clear h =
      ap ok (aimm-encode_aimm base _ x bits h clear.0 clear.1.0)
  decode-encode Aarch64Opnd.half x k a t clear h =
      ap ok (half-encode_half base _ x bits h clear.0 clear.1.0)
  decode-encode kind x k a t clear h = absurd k
