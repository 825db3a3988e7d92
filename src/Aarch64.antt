-- ===== src/Aarch64.antt =====
-- src/isa/aarch64: the types of the opcode table's rows and of decoded instructions.
pub mod ControlFlow
pub mod Mnemonic
pub mod Operand
pub mod Recursive
pub mod Sweep
pub mod Table
pub mod Instructions
pub mod Tests
use Prim.Native.String.{String}
use armv8_encode.Base.{ℕ, Option, List}
use armv8_encode.Base.Int.{ℤ}

pub data Aarch64Mnemonic : Type 0 where
  adc add adds and_ adr adrp b beq bne bcs bcc bmi bpl bvs bvc bhi bls bge : Aarch64Mnemonic
  blt bgt ble bl blr br brk bfxil cbnz cbz dcps1 dcps2 dcps3 drps eret hlt : Aarch64Mnemonic
  hvc ret smc svc ccmp cinc cmn cmp csel ldp ldr ldur ldxr lsl lsr madd : Aarch64Mnemonic
  mov movk msub eor nop stp str stur stxr sub subs tbnz tbz ubfx : Aarch64Mnemonic
  other : String → Aarch64Mnemonic

-- The kinds of operand that a row of the table names.
pub data Aarch64Opnd : Type 0 where
  nil rd rn rm rm_low rt rt2 rs ra rt_sys rd_sp rn_sp pairreg rm_ext rm_sft fd : Aarch64Opnd
  fn fm fa ft ft2 sd sn sm vd vn vm vd_d1 vn_d1 ed en em lvn lvt lvt_al let_ : Aarch64Opnd
  cn cm idx imm_vlsl imm_vlsr simd_imm simd_imm_sft simd_fpimm shll_imm imm0 : Aarch64Opnd
  fpimm0 fpimm immr imms width imm uimm3_op1 uimm3_op2 uimm4 uimm7 bit_num exc : Aarch64Opnd
  ccmp_imm nzcv limm aimm half fbits imm_mov cond cond1 addr_adrp addr_pcrel14 : Aarch64Opnd
  addr_pcrel19 addr_pcrel21 addr_pcrel26 addr_simple addr_regoff addr_simm7 : Aarch64Opnd
  addr_simm9 addr_simm92 addr_uimm12 simd_addr_simple simd_addr_post sysreg : Aarch64Opnd
  pstatefield sysreg_at sysreg_dc sysreg_ic sysreg_tlbi barrier barrier_isb : Aarch64Opnd
  prfop barrier_psb : Aarch64Opnd

pub data Aarch64InsnClass : Type 0 where
  addsub_carry addsub_ext addsub_imm addsub_shift asimdall asimddiff : Aarch64InsnClass
  asimdelem asimdext asimdimm asimdins asimdmisc asimdperm asimdsame : Aarch64InsnClass
  asimdshf asimdtbl asisddiff asisdelem asisdlse asisdlsep asisdlso : Aarch64InsnClass
  asisdlsop asisdmisc asisdone asisdpair asisdsame asisdshf bitfield : Aarch64InsnClass
  branch_imm branch_reg compbranch condbranch condcmp_imm condcmp_reg : Aarch64InsnClass
  condsel cryptoaes cryptosha2 cryptosha3 dp1src dp2src dp3src exception : Aarch64InsnClass
  extract float2fix float2int floatccmp floatcmp floatdp1 floatdp2 : Aarch64InsnClass
  floatdp3 floatimm floatsel ldst_immpost ldst_immpre ldst_imm9 ldst_pos : Aarch64InsnClass
  ldst_regoff ldst_unpriv ldst_unscaled ldstexcl ldstnapair_offs : Aarch64InsnClass
  ldstpair_off ldstpair_indexed loadlit log_imm log_shift lse_atomic : Aarch64InsnClass
  movewide pcreladdr ic_system testbranch : Aarch64InsnClass

-- A row of the opcode table.
pub record Aarch64Opcode : Type 0 where
  pub name : String
  pub opcode : ℕ
  pub mask : ℕ
  pub iclass : Aarch64InsnClass
  pub operands : List Aarch64Opnd
  pub flags : ℕ

pub data RegisterClass : Type 0 where
  b h s d q w x w_or_sp x_or_sp : RegisterClass

pub record Register : Type 0 where
  pub class : RegisterClass
  pub index : ℕ

pub data VectorArrangement : Type 0 where
  b8 b16 h4 h8 s2 s4 d1 d2 : VectorArrangement

pub data VectorElementSize : Type 0 where
  b h s d : VectorElementSize

pub record VectorRegister : Type 0 where
  pub index : ℕ
  pub arrangement : VectorArrangement

pub record VectorElement : Type 0 where
  pub index : ℕ
  pub element : ℕ
  pub size : VectorElementSize

pub record VectorList : Type 0 where
  pub first : ℕ
  pub count : ℕ
  pub arrangement : VectorArrangement
  pub element : Option ℕ

pub data ExtendKind : Type 0 where
  uxtb uxth uxtw uxtx sxtb sxth sxtw sxtx : ExtendKind

pub data ShiftKind : Type 0 where
  lsl lsr asr ror : ShiftKind

pub record Shift : Type 0 where
  pub kind : ShiftKind
  pub amount : ℕ

pub record ShiftedRegister : Type 0 where
  pub register : Register
  pub shift : Shift

pub record ExtendedRegister : Type 0 where
  pub register : Register
  pub extend : ExtendKind
  pub amount : ℕ

pub record ShiftedImmediate : Type 0 where
  pub value : ℤ
  pub shift : ℕ

pub data MemoryOffset : Type 0 where
  no_offset : MemoryOffset
  immediate : ℤ → MemoryOffset
  register : Register → Option Shift → MemoryOffset

pub data AddressingMode : Type 0 where
  offset pre_index post_index : AddressingMode

pub record MemoryOperand : Type 0 where
  pub base : Register
  pub offset : MemoryOffset
  pub mode : AddressingMode

-- A branch target and a page target carry an absolute address.
pub data DecodedOperand : Type 0 where
  register : Register → DecodedOperand
  vector_register : VectorRegister → DecodedOperand
  vector_element : VectorElement → DecodedOperand
  vector_list : VectorList → DecodedOperand
  shifted_register : ShiftedRegister → DecodedOperand
  extended_register : ExtendedRegister → DecodedOperand
  immediate : ℤ → DecodedOperand
  unsigned_immediate : ℕ → DecodedOperand
  shifted_immediate : ShiftedImmediate → DecodedOperand
  memory : MemoryOperand → DecodedOperand
  branch_target : ℕ → DecodedOperand
  page_target : ℕ → DecodedOperand
  system : String → DecodedOperand
  condition : String → DecodedOperand
  float_immediate : String → DecodedOperand
  unimplemented : String → DecodedOperand

pub record DecodedInstruction : Type 0 where
  pub address : ℕ
  pub word : ℕ
  pub mnemonic : Aarch64Mnemonic
  pub operands : List DecodedOperand
