-- ===== src/Aarch64/Table/Branches.antt =====
-- src/isa/aarch64/table.rs: the rows of the opcode table for the branches to an address that have a
-- mnemonic of their own (`bhs` and `blo` have none: they parse as other mnemonics). The flags are F_SF, and F_ALIAS | F_PSEUDO.
use Prim.Native.String.{String}
use armv8_encode.Base.{ℕ, List, [], ◌∷◌, ◌++◌}
use armv8_encode.Aarch64.{Aarch64Opnd, Aarch64InsnClass, Aarch64Opcode}

-- The constructor function of the source.
abbrev row : String → ℕ → ℕ → Aarch64InsnClass → List Aarch64Opnd → ℕ → Aarch64Opcode
row mnemonic opcode mask iclass operands flags = record {
  name = mnemonic;
  opcode = opcode;
  mask = mask;
  iclass = iclass;
  operands = operands;
  flags = flags;
}

abbrev direct_rows : List Aarch64Opcode
direct_rows =
    row "b" 0x14000000 0xfc000000 Aarch64InsnClass.branch_imm (Aarch64Opnd.addr_pcrel26 ∷ []) 0x0
    ∷ row "bl" 0x94000000 0xfc000000 Aarch64InsnClass.branch_imm (Aarch64Opnd.addr_pcrel26 ∷ []) 0x0
    ∷ []

abbrev compare_rows : List Aarch64Opcode
compare_rows =
    row "cbz" 0x34000000 0x7f000000 Aarch64InsnClass.compbranch
      (Aarch64Opnd.rt ∷ Aarch64Opnd.addr_pcrel19 ∷ []) 0x20
    ∷ row "cbnz" 0x35000000 0x7f000000 Aarch64InsnClass.compbranch
        (Aarch64Opnd.rt ∷ Aarch64Opnd.addr_pcrel19 ∷ []) 0x20
    ∷ []

abbrev test_rows : List Aarch64Opcode
test_rows =
    row "tbz" 0x36000000 0x7f000000 Aarch64InsnClass.testbranch
      (Aarch64Opnd.rt ∷ Aarch64Opnd.bit_num ∷ Aarch64Opnd.addr_pcrel14 ∷ []) 0x0
    ∷ row "tbnz" 0x37000000 0x7f000000 Aarch64InsnClass.testbranch
        (Aarch64Opnd.rt ∷ Aarch64Opnd.bit_num ∷ Aarch64Opnd.addr_pcrel14 ∷ []) 0x0
    ∷ []

abbrev zero_and_carry_rows : List Aarch64Opcode
zero_and_carry_rows =
    row "beq" 0x54000000 0xff00001f Aarch64InsnClass.condbranch (Aarch64Opnd.addr_pcrel19 ∷ [])
      0x200001
    ∷ row "bne" 0x54000001 0xff00001f Aarch64InsnClass.condbranch (Aarch64Opnd.addr_pcrel19 ∷ [])
        0x200001
    ∷ row "bcs" 0x54000002 0xff00001f Aarch64InsnClass.condbranch (Aarch64Opnd.addr_pcrel19 ∷ [])
        0x200001
    ∷ []

abbrev carry_clear_rows : List Aarch64Opcode
carry_clear_rows =
    row "bcc" 0x54000003 0xff00001f Aarch64InsnClass.condbranch (Aarch64Opnd.addr_pcrel19 ∷ [])
      0x200001
    ∷ []

abbrev sign_and_order_rows : List Aarch64Opcode
sign_and_order_rows =
    row "bmi" 0x54000004 0xff00001f Aarch64InsnClass.condbranch (Aarch64Opnd.addr_pcrel19 ∷ [])
      0x200001
    ∷ row "bpl" 0x54000005 0xff00001f Aarch64InsnClass.condbranch (Aarch64Opnd.addr_pcrel19 ∷ [])
        0x200001
    ∷ row "bvs" 0x54000006 0xff00001f Aarch64InsnClass.condbranch (Aarch64Opnd.addr_pcrel19 ∷ [])
        0x200001
    ∷ row "bvc" 0x54000007 0xff00001f Aarch64InsnClass.condbranch (Aarch64Opnd.addr_pcrel19 ∷ [])
        0x200001
    ∷ row "bhi" 0x54000008 0xff00001f Aarch64InsnClass.condbranch (Aarch64Opnd.addr_pcrel19 ∷ [])
        0x200001
    ∷ row "bls" 0x54000009 0xff00001f Aarch64InsnClass.condbranch (Aarch64Opnd.addr_pcrel19 ∷ [])
        0x200001
    ∷ row "bge" 0x5400000a 0xff00001f Aarch64InsnClass.condbranch (Aarch64Opnd.addr_pcrel19 ∷ [])
        0x200001
    ∷ row "blt" 0x5400000b 0xff00001f Aarch64InsnClass.condbranch (Aarch64Opnd.addr_pcrel19 ∷ [])
        0x200001
    ∷ row "bgt" 0x5400000c 0xff00001f Aarch64InsnClass.condbranch (Aarch64Opnd.addr_pcrel19 ∷ [])
        0x200001
    ∷ row "ble" 0x5400000d 0xff00001f Aarch64InsnClass.condbranch (Aarch64Opnd.addr_pcrel19 ∷ [])
        0x200001
    ∷ []

unfoldable pub branch_rows : List Aarch64Opcode
branch_rows =
    direct_rows
    ++ (compare_rows
        ++ (test_rows ++ (zero_and_carry_rows ++ (carry_clear_rows ++ sign_and_order_rows))))
