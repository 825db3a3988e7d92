-- ===== src/Aarch64/Table/Classes.antt =====
-- src/isa/aarch64/table.rs: the classes of instructions, told apart by a number.
use armv8_encode.Base.{ℕ}
use armv8_encode.Aarch64.{Aarch64InsnClass}

-- Whether two rows have the same class.
unfoldable pub class_index : Aarch64InsnClass → ℕ
class_index Aarch64InsnClass.addsub_carry = 0
class_index Aarch64InsnClass.addsub_ext = 1
class_index Aarch64InsnClass.addsub_imm = 2
class_index Aarch64InsnClass.addsub_shift = 3
class_index Aarch64InsnClass.asimdall = 4
class_index Aarch64InsnClass.asimddiff = 5
class_index Aarch64InsnClass.asimdelem = 6
class_index Aarch64InsnClass.asimdext = 7
class_index Aarch64InsnClass.asimdimm = 8
class_index Aarch64InsnClass.asimdins = 9
class_index Aarch64InsnClass.asimdmisc = 10
class_index Aarch64InsnClass.asimdperm = 11
class_index Aarch64InsnClass.asimdsame = 12
class_index Aarch64InsnClass.asimdshf = 13
class_index Aarch64InsnClass.asimdtbl = 14
class_index Aarch64InsnClass.asisddiff = 15
class_index Aarch64InsnClass.asisdelem = 16
class_index Aarch64InsnClass.asisdlse = 17
class_index Aarch64InsnClass.asisdlsep = 18
class_index Aarch64InsnClass.asisdlso = 19
class_index Aarch64InsnClass.asisdlsop = 20
class_index Aarch64InsnClass.asisdmisc = 21
class_index Aarch64InsnClass.asisdone = 22
class_index Aarch64InsnClass.asisdpair = 23
class_index Aarch64InsnClass.asisdsame = 24
class_index Aarch64InsnClass.asisdshf = 25
class_index Aarch64InsnClass.bitfield = 26
class_index Aarch64InsnClass.branch_imm = 27
class_index Aarch64InsnClass.branch_reg = 28
class_index Aarch64InsnClass.compbranch = 29
class_index Aarch64InsnClass.condbranch = 30
class_index Aarch64InsnClass.condcmp_imm = 31
class_index Aarch64InsnClass.condcmp_reg = 32
class_index Aarch64InsnClass.condsel = 33
class_index Aarch64InsnClass.cryptoaes = 34
class_index Aarch64InsnClass.cryptosha2 = 35
class_index Aarch64InsnClass.cryptosha3 = 36
class_index Aarch64InsnClass.dp1src = 37
class_index Aarch64InsnClass.dp2src = 38
class_index Aarch64InsnClass.dp3src = 39
class_index Aarch64InsnClass.exception = 40
class_index Aarch64InsnClass.extract = 41
class_index Aarch64InsnClass.float2fix = 42
class_index Aarch64InsnClass.float2int = 43
class_index Aarch64InsnClass.floatccmp = 44
class_index Aarch64InsnClass.floatcmp = 45
class_index Aarch64InsnClass.floatdp1 = 46
class_index Aarch64InsnClass.floatdp2 = 47
class_index Aarch64InsnClass.floatdp3 = 48
class_index Aarch64InsnClass.floatimm = 49
class_index Aarch64InsnClass.floatsel = 50
class_index Aarch64InsnClass.ldst_immpost = 51
class_index Aarch64InsnClass.ldst_immpre = 52
class_index Aarch64InsnClass.ldst_imm9 = 53
class_index Aarch64InsnClass.ldst_pos = 54
class_index Aarch64InsnClass.ldst_regoff = 55
class_index Aarch64InsnClass.ldst_unpriv = 56
class_index Aarch64InsnClass.ldst_unscaled = 57
class_index Aarch64InsnClass.ldstexcl = 58
class_index Aarch64InsnClass.ldstnapair_offs = 59
class_index Aarch64InsnClass.ldstpair_off = 60
class_index Aarch64InsnClass.ldstpair_indexed = 61
class_index Aarch64InsnClass.loadlit = 62
class_index Aarch64InsnClass.log_imm = 63
class_index Aarch64InsnClass.log_shift = 64
class_index Aarch64InsnClass.lse_atomic = 65
class_index Aarch64InsnClass.movewide = 66
class_index Aarch64InsnClass.pcreladdr = 67
class_index Aarch64InsnClass.ic_system = 68
class_index Aarch64InsnClass.testbranch = 69
