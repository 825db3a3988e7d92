-- ===== src/Aarch64/Operand.antt =====
-- src/isa/aarch64/operand.rs: what the operand codecs share: their errors and contexts, the names of
-- the kinds, and the registers that they build.
pub mod Codec
pub mod Immediates
pub mod Memory
pub mod Pcrel
pub mod Recoding
pub mod Registers
pub mod RoundTrip
pub mod System
pub mod Tests
pub mod Vectors
use Prim.Native.String.{String}
use armv8_encode.Base.{ℕ, ◌==◌, if◌then◌else◌, Option, none, some, Result, ok, err}
use armv8_encode.Base.Bits.{field}
use armv8_encode.Aarch64.{Aarch64Opnd, Aarch64Opcode, Register, RegisterClass}

pub data DecodeError : Type 0 where
  no_matching_opcode : ℕ → DecodeError
  invalid_operand : String → DecodeError

pub data EncodeError : Type 0 where
  unknown_mnemonic : String → EncodeError
  no_matching_form : String → EncodeError
  invalid_operand : String → EncodeError
  unimplemented : String → EncodeError

pub record DecodeContext : Type 0 where
  pub word : ℕ
  pub address : ℕ
  pub opcode : Aarch64Opcode
  pub operand_index : ℕ

pub record EncodeContext : Type 0 where
  pub base_word : ℕ
  pub address : ℕ
  pub opcode : Aarch64Opcode

unfoldable pub name : Aarch64Opnd → String
name Aarch64Opnd.nil = "Nil"
name Aarch64Opnd.rd = "Rd"
name Aarch64Opnd.rn = "Rn"
name Aarch64Opnd.rm = "Rm"
name Aarch64Opnd.rm_low = "RmLow"
name Aarch64Opnd.rt = "Rt"
name Aarch64Opnd.rt2 = "Rt2"
name Aarch64Opnd.rs = "Rs"
name Aarch64Opnd.ra = "Ra"
name Aarch64Opnd.rt_sys = "RtSys"
name Aarch64Opnd.rd_sp = "RdSp"
name Aarch64Opnd.rn_sp = "RnSp"
name Aarch64Opnd.pairreg = "Pairreg"
name Aarch64Opnd.rm_ext = "RmExt"
name Aarch64Opnd.rm_sft = "RmSft"
name Aarch64Opnd.fd = "Fd"
name Aarch64Opnd.fn = "Fn"
name Aarch64Opnd.fm = "Fm"
name Aarch64Opnd.fa = "Fa"
name Aarch64Opnd.ft = "Ft"
name Aarch64Opnd.ft2 = "Ft2"
name Aarch64Opnd.sd = "Sd"
name Aarch64Opnd.sn = "Sn"
name Aarch64Opnd.sm = "Sm"
name Aarch64Opnd.vd = "Vd"
name Aarch64Opnd.vn = "Vn"
name Aarch64Opnd.vm = "Vm"
name Aarch64Opnd.vd_d1 = "VdD1"
name Aarch64Opnd.vn_d1 = "VnD1"
name Aarch64Opnd.ed = "Ed"
name Aarch64Opnd.en = "En"
name Aarch64Opnd.em = "Em"
name Aarch64Opnd.lvn = "Lvn"
name Aarch64Opnd.lvt = "Lvt"
name Aarch64Opnd.lvt_al = "LvtAl"
name Aarch64Opnd.let_ = "Let"
name Aarch64Opnd.cn = "Cn"
name Aarch64Opnd.cm = "Cm"
name Aarch64Opnd.idx = "Idx"
name Aarch64Opnd.imm_vlsl = "ImmVlsl"
name Aarch64Opnd.imm_vlsr = "ImmVlsr"
name Aarch64Opnd.simd_imm = "SimdImm"
name Aarch64Opnd.simd_imm_sft = "SimdImmSft"
name Aarch64Opnd.simd_fpimm = "SimdFpimm"
name Aarch64Opnd.shll_imm = "ShllImm"
name Aarch64Opnd.imm0 = "Imm0"
name Aarch64Opnd.fpimm0 = "Fpimm0"
name Aarch64Opnd.fpimm = "Fpimm"
name Aarch64Opnd.immr = "Immr"
name Aarch64Opnd.imms = "Imms"
name Aarch64Opnd.width = "Width"
name Aarch64Opnd.imm = "Imm"
name Aarch64Opnd.uimm3_op1 = "Uimm3Op1"
name Aarch64Opnd.uimm3_op2 = "Uimm3Op2"
name Aarch64Opnd.uimm4 = "Uimm4"
name Aarch64Opnd.uimm7 = "Uimm7"
name Aarch64Opnd.bit_num = "BitNum"
name Aarch64Opnd.exc = "Exc"
name Aarch64Opnd.ccmp_imm = "CcmpImm"
name Aarch64Opnd.nzcv = "Nzcv"
name Aarch64Opnd.limm = "Limm"
name Aarch64Opnd.aimm = "Aimm"
name Aarch64Opnd.half = "Half"
name Aarch64Opnd.fbits = "Fbits"
name Aarch64Opnd.imm_mov = "ImmMov"
name Aarch64Opnd.cond = "Cond"
name Aarch64Opnd.cond1 = "Cond1"
name Aarch64Opnd.addr_adrp = "AddrAdrp"
name Aarch64Opnd.addr_pcrel14 = "AddrPcrel14"
name Aarch64Opnd.addr_pcrel19 = "AddrPcrel19"
name Aarch64Opnd.addr_pcrel21 = "AddrPcrel21"
name Aarch64Opnd.addr_pcrel26 = "AddrPcrel26"
name Aarch64Opnd.addr_simple = "AddrSimple"
name Aarch64Opnd.addr_regoff = "AddrRegoff"
name Aarch64Opnd.addr_simm7 = "AddrSimm7"
name Aarch64Opnd.addr_simm9 = "AddrSimm9"
name Aarch64Opnd.addr_simm92 = "AddrSimm92"
name Aarch64Opnd.addr_uimm12 = "AddrUimm12"
name Aarch64Opnd.simd_addr_simple = "SimdAddrSimple"
name Aarch64Opnd.simd_addr_post = "SimdAddrPost"
name Aarch64Opnd.sysreg = "Sysreg"
name Aarch64Opnd.pstatefield = "Pstatefield"
name Aarch64Opnd.sysreg_at = "SysregAt"
name Aarch64Opnd.sysreg_dc = "SysregDc"
name Aarch64Opnd.sysreg_ic = "SysregIc"
name Aarch64Opnd.sysreg_tlbi = "SysregTlbi"
name Aarch64Opnd.barrier = "Barrier"
name Aarch64Opnd.barrier_isb = "BarrierIsb"
name Aarch64Opnd.prfop = "Prfop"
name Aarch64Opnd.barrier_psb = "BarrierPsb"

-- Every encoder refuses with the kind that it is called for.
abbrev pub refuse : Aarch64Opnd → Result EncodeError ℕ
refuse kind = err (EncodeError.invalid_operand (name kind))

-- The bits, or a refusal where the match has none.
abbrev pub encoded : Aarch64Opnd → Option ℕ → (ℕ → ℕ) → Result EncodeError ℕ
encoded kind none pack = refuse kind
encoded kind (some bits) pack = ok (pack bits)

unfoldable pub rd : ℕ → ℕ
rd word = field 0 5 word

unfoldable pub rn : ℕ → ℕ
rn word = field 5 5 word

unfoldable pub rm : ℕ → ℕ
rm word = field 16 5 word

unfoldable pub rt : ℕ → ℕ
rt word = rd word

unfoldable pub rt2 : ℕ → ℕ
rt2 word = field 10 5 word

unfoldable pub rs : ℕ → ℕ
rs word = field 16 5 word

unfoldable pub ra : ℕ → ℕ
ra word = field 10 5 word

unfoldable pub x_reg : ℕ → Register
x_reg reg = record { class = RegisterClass.x; index = reg }

unfoldable pub w_reg : ℕ → Register
w_reg reg = record { class = RegisterClass.w; index = reg }

unfoldable pub gp_reg : ℕ → ℕ → Register
gp_reg reg word = if field 31 1 word == 0 then w_reg reg else x_reg reg

unfoldable pub x_or_sp : ℕ → Register
x_or_sp reg = record { class = RegisterClass.x_or_sp; index = reg }

unfoldable pub gp_or_sp : ℕ → ℕ → Register
gp_or_sp reg word =
    if field 31 1 word == 0
    then record { class = RegisterClass.w_or_sp; index = reg }
    else x_or_sp reg
