-- ===== src/Aarch64/ControlFlow.antt =====
-- src/isa/aarch64/control_flow.rs: ranges, inverses and the control flow of branches, and the part of
-- src/isa/aarch64/isa_impl.rs that gives them to the rewrite layer.
use armv8_encode.Aarch64.Mnemonic.{is_same_flag}
use armv8_encode.Base.{Bool, false, not, ◌&&◌, ◌||◌}
use armv8_encode.Base.{ℕ, ◌≡◌, ◌*◌, Option, none, some, List, [], ◌∷◌, arith}
use armv8_encode.Base.Word.{wrapping_add}
use armv8_encode.Base.Int.{ℤ, pos}
use armv8_encode.Isa.{IsaTypes, Isa}
use armv8_encode.Mc.ControlFlow.{ControlFlow, InstructionInfo}
use armv8_encode.Aarch64.{Aarch64Mnemonic, DecodedOperand, DecodedInstruction}
use armv8_encode.Aarch64.DecodedOperand.{branch_target}
use armv8_encode.Aarch64.Aarch64Mnemonic.{b, bl, br, blr, ret, eret, drps}
use armv8_encode.Aarch64.Aarch64Mnemonic.{
  beq, bne, bcs, bcc, bmi, bpl, bvs, bvc, bhi, bls, bge, blt, bgt, ble,
}
use armv8_encode.Aarch64.Aarch64Mnemonic.{
  cbz, cbnz, tbz, tbnz, adr, svc, hvc, smc, brk, hlt, dcps1, dcps2, dcps3,
}

unfoldable pub pcrel_range_bytes : Aarch64Mnemonic → Option ℤ
pcrel_range_bytes b = some (pos (128 * 1024 * 1024))
pcrel_range_bytes bl = some (pos (128 * 1024 * 1024))
pcrel_range_bytes beq = some (pos (1024 * 1024))
pcrel_range_bytes bne = some (pos (1024 * 1024))
pcrel_range_bytes bcs = some (pos (1024 * 1024))
pcrel_range_bytes bcc = some (pos (1024 * 1024))
pcrel_range_bytes bmi = some (pos (1024 * 1024))
pcrel_range_bytes bpl = some (pos (1024 * 1024))
pcrel_range_bytes bvs = some (pos (1024 * 1024))
pcrel_range_bytes bvc = some (pos (1024 * 1024))
pcrel_range_bytes bhi = some (pos (1024 * 1024))
pcrel_range_bytes bls = some (pos (1024 * 1024))
pcrel_range_bytes bge = some (pos (1024 * 1024))
pcrel_range_bytes blt = some (pos (1024 * 1024))
pcrel_range_bytes bgt = some (pos (1024 * 1024))
pcrel_range_bytes ble = some (pos (1024 * 1024))
pcrel_range_bytes cbz = some (pos (1024 * 1024))
pcrel_range_bytes cbnz = some (pos (1024 * 1024))
pcrel_range_bytes tbz = some (pos (32 * 1024))
pcrel_range_bytes tbnz = some (pos (32 * 1024))
pcrel_range_bytes adr = some (pos (1024 * 1024))
pcrel_range_bytes _ = none

unfoldable pub invert_conditional_branch : Aarch64Mnemonic → Option Aarch64Mnemonic
invert_conditional_branch beq = some bne
invert_conditional_branch bne = some beq
invert_conditional_branch bcs = some bcc
invert_conditional_branch bcc = some bcs
invert_conditional_branch bmi = some bpl
invert_conditional_branch bpl = some bmi
invert_conditional_branch bvs = some bvc
invert_conditional_branch bvc = some bvs
invert_conditional_branch bhi = some bls
invert_conditional_branch bls = some bhi
invert_conditional_branch bge = some blt
invert_conditional_branch blt = some bge
invert_conditional_branch bgt = some ble
invert_conditional_branch ble = some bgt
invert_conditional_branch cbz = some cbnz
invert_conditional_branch cbnz = some cbz
invert_conditional_branch tbz = some tbnz
invert_conditional_branch tbnz = some tbz
invert_conditional_branch _ = none

unfoldable pub direct_branch_target : List DecodedOperand → Option ℕ
direct_branch_target [] = none
direct_branch_target (branch_target target ∷ os) = some target
direct_branch_target (_ ∷ os) = direct_branch_target os

abbrev or_fall : Option ℕ → (ℕ → ControlFlow) → ControlFlow
or_fall none flow = ControlFlow.fall
or_fall (some target) flow = flow target

-- The match on the mnemonic: `target` is the direct branch target, `next` the address behind the
-- instruction.
unfoldable pub flow_of : Aarch64Mnemonic → Option ℕ → ℕ → ControlFlow
flow_of b target next = or_fall target ControlFlow.jump
flow_of bl target next = or_fall target (λ t. ControlFlow.call t next)
flow_of beq target next = or_fall target (λ t. ControlFlow.conditional_jump t next)
flow_of bne target next = or_fall target (λ t. ControlFlow.conditional_jump t next)
flow_of bcs target next = or_fall target (λ t. ControlFlow.conditional_jump t next)
flow_of bcc target next = or_fall target (λ t. ControlFlow.conditional_jump t next)
flow_of bmi target next = or_fall target (λ t. ControlFlow.conditional_jump t next)
flow_of bpl target next = or_fall target (λ t. ControlFlow.conditional_jump t next)
flow_of bvs target next = or_fall target (λ t. ControlFlow.conditional_jump t next)
flow_of bvc target next = or_fall target (λ t. ControlFlow.conditional_jump t next)
flow_of bhi target next = or_fall target (λ t. ControlFlow.conditional_jump t next)
flow_of bls target next = or_fall target (λ t. ControlFlow.conditional_jump t next)
flow_of bge target next = or_fall target (λ t. ControlFlow.conditional_jump t next)
flow_of blt target next = or_fall target (λ t. ControlFlow.conditional_jump t next)
flow_of bgt target next = or_fall target (λ t. ControlFlow.conditional_jump t next)
flow_of ble target next = or_fall target (λ t. ControlFlow.conditional_jump t next)
flow_of cbz target next = or_fall target (λ t. ControlFlow.conditional_jump t next)
flow_of cbnz target next = or_fall target (λ t. ControlFlow.conditional_jump t next)
flow_of tbz target next = or_fall target (λ t. ControlFlow.conditional_jump t next)
flow_of tbnz target next = or_fall target (λ t. ControlFlow.conditional_jump t next)
flow_of br target next = ControlFlow.indirect_jump
flow_of blr target next = ControlFlow.indirect_call next
flow_of ret target next = ControlFlow.return
flow_of eret target next = ControlFlow.return
flow_of drps target next = ControlFlow.return
flow_of svc target next = ControlFlow.trap
flow_of hvc target next = ControlFlow.trap
flow_of smc target next = ControlFlow.trap
flow_of brk target next = ControlFlow.trap
flow_of hlt target next = ControlFlow.trap
flow_of dcps1 target next = ControlFlow.trap
flow_of dcps2 target next = ControlFlow.trap
flow_of dcps3 target next = ControlFlow.trap
flow_of _ target next = ControlFlow.fall

unfoldable pub control_flow : DecodedInstruction → ControlFlow
control_flow i = flow_of i.mnemonic (direct_branch_target i.operands) (wrapping_add i.address 4)

instance abbrev pub aarch64_info : InstructionInfo DecodedInstruction
aarch64_info = record { address = λ i. i.address; size = λ i. 4; control_flow = control_flow }

-- Registers and macro kinds are not looked into.
abbrev pub aarch64_types : IsaTypes
aarch64_types = record {
  Mnemonic = Aarch64Mnemonic;
  Register = ℕ;
  Operand = DecodedOperand;
  MacroKind = ℕ;
}

instance abbrev pub aarch64_isa : Isa aarch64_types
aarch64_isa = record {
  pcrel_range_bytes = pcrel_range_bytes;
  invert_conditional_branch = invert_conditional_branch;
  widened_conditional_size = 8;
  widened_conditional_range = pos (128 * 1024 * 1024);
  instruction_source_size = λ m. 4;
}

-- What a conditional branch tests: the flags of the processor, whether the register of a compare and
-- branch is zero, and the bit of a test and branch.
pub record Tested : Type 0 where
  pub negative : Bool
  pub zero : Bool
  pub carry : Bool
  pub overflow : Bool
  pub is_register_zero : Bool
  pub bit : Bool

-- Whether a conditional branch is taken, by the conditions of the architecture.
abbrev pub is_taken : Aarch64Mnemonic → Tested → Bool
is_taken beq t = t.zero
is_taken bne t = not t.zero
is_taken bcs t = t.carry
is_taken bcc t = not t.carry
is_taken bmi t = t.negative
is_taken bpl t = not t.negative
is_taken bvs t = t.overflow
is_taken bvc t = not t.overflow
is_taken bhi t = t.carry && not t.zero
is_taken bls t = not t.carry || t.zero
is_taken bge t = is_same_flag t.negative t.overflow
is_taken blt t = not (is_same_flag t.negative t.overflow)
is_taken bgt t = not t.zero && is_same_flag t.negative t.overflow
is_taken ble t = t.zero || not (is_same_flag t.negative t.overflow)
is_taken cbz t = t.is_register_zero
is_taken cbnz t = not t.is_register_zero
is_taken tbz t = not t.bit
is_taken tbnz t = t.bit
is_taken _ t = false

-- The conditions of a mnemonic and its inverse, over all six tested bits.
is_taken-invert :
    (m n : Aarch64Mnemonic) (negative zero carry overflow register bit : Bool)
    → invert_conditional_branch m ≡ some n
    → let t : Tested = record {
      negative = negative;
      zero = zero;
      carry = carry;
      overflow = overflow;
      is_register_zero = register;
      bit = bit;
    } in
      is_taken n t ≡ not (is_taken m t)
unfolding invert_conditional_branch
is_taken-invert m n negative zero carry overflow register bit h = ground arith

-- An instruction that can be widened is a conditional branch, which goes to its target or to the next
-- instruction. Its inverse is taken exactly when it is not, has it as inverse, and has the same range.
pub invert_conditional_branch_lem :
    (m n : Aarch64Mnemonic)
    → invert_conditional_branch m ≡ some n
    → ((t : Tested) → is_taken n t ≡ not (is_taken m t))
      × (invert_conditional_branch n ≡ some m)
      × (pcrel_range_bytes n ≡ pcrel_range_bytes m)
      × ((target next : ℕ)
          → flow_of m (some target) next ≡ ControlFlow.conditional_jump target next)
unfolding invert_conditional_branch pcrel_range_bytes flow_of
invert_conditional_branch_lem m n h = (
  λ t. is_taken-invert m n t.negative t.zero t.carry t.overflow t.is_register_zero t.bit h,
  ground arith,
  ground arith,
  ground arith,
)
