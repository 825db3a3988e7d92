-- ===== src/Aarch64/Mnemonic.antt =====
-- src/isa/aarch64/table.rs: mnemonics and their names.
use Prim.Native.String.{String}
use armv8_encode.Base.{Bool, true, false, not, ◌&&◌, Option, none, some, List, [], ◌∷◌}
use armv8_encode.Base.Text.{is_text, lookup_text}
use armv8_encode.Aarch64.{Aarch64Mnemonic}

unfoldable pub table_name : Aarch64Mnemonic → String
table_name Aarch64Mnemonic.adc = "adc"
table_name Aarch64Mnemonic.add = "add"
table_name Aarch64Mnemonic.adds = "adds"
table_name Aarch64Mnemonic.and_ = "and"
table_name Aarch64Mnemonic.adr = "adr"
table_name Aarch64Mnemonic.adrp = "adrp"
table_name Aarch64Mnemonic.b = "b"
table_name Aarch64Mnemonic.beq = "beq"
table_name Aarch64Mnemonic.bne = "bne"
table_name Aarch64Mnemonic.bcs = "bcs"
table_name Aarch64Mnemonic.bcc = "bcc"
table_name Aarch64Mnemonic.bmi = "bmi"
table_name Aarch64Mnemonic.bpl = "bpl"
table_name Aarch64Mnemonic.bvs = "bvs"
table_name Aarch64Mnemonic.bvc = "bvc"
table_name Aarch64Mnemonic.bhi = "bhi"
table_name Aarch64Mnemonic.bls = "bls"
table_name Aarch64Mnemonic.bge = "bge"
table_name Aarch64Mnemonic.blt = "blt"
table_name Aarch64Mnemonic.bgt = "bgt"
table_name Aarch64Mnemonic.ble = "ble"
table_name Aarch64Mnemonic.bl = "bl"
table_name Aarch64Mnemonic.blr = "blr"
table_name Aarch64Mnemonic.br = "br"
table_name Aarch64Mnemonic.brk = "brk"
table_name Aarch64Mnemonic.bfxil = "bfxil"
table_name Aarch64Mnemonic.cbnz = "cbnz"
table_name Aarch64Mnemonic.cbz = "cbz"
table_name Aarch64Mnemonic.dcps1 = "dcps1"
table_name Aarch64Mnemonic.dcps2 = "dcps2"
table_name Aarch64Mnemonic.dcps3 = "dcps3"
table_name Aarch64Mnemonic.drps = "drps"
table_name Aarch64Mnemonic.eret = "eret"
table_name Aarch64Mnemonic.hlt = "hlt"
table_name Aarch64Mnemonic.hvc = "hvc"
table_name Aarch64Mnemonic.ret = "ret"
table_name Aarch64Mnemonic.smc = "smc"
table_name Aarch64Mnemonic.svc = "svc"
table_name Aarch64Mnemonic.ccmp = "ccmp"
table_name Aarch64Mnemonic.cinc = "cinc"
table_name Aarch64Mnemonic.cmn = "cmn"
table_name Aarch64Mnemonic.cmp = "cmp"
table_name Aarch64Mnemonic.csel = "csel"
table_name Aarch64Mnemonic.ldp = "ldp"
table_name Aarch64Mnemonic.ldr = "ldr"
table_name Aarch64Mnemonic.ldur = "ldur"
table_name Aarch64Mnemonic.ldxr = "ldxr"
table_name Aarch64Mnemonic.lsl = "lsl"
table_name Aarch64Mnemonic.lsr = "lsr"
table_name Aarch64Mnemonic.madd = "madd"
table_name Aarch64Mnemonic.mov = "mov"
table_name Aarch64Mnemonic.movk = "movk"
table_name Aarch64Mnemonic.msub = "msub"
table_name Aarch64Mnemonic.eor = "eor"
table_name Aarch64Mnemonic.nop = "nop"
table_name Aarch64Mnemonic.stp = "stp"
table_name Aarch64Mnemonic.str = "str"
table_name Aarch64Mnemonic.stur = "stur"
table_name Aarch64Mnemonic.stxr = "stxr"
table_name Aarch64Mnemonic.sub = "sub"
table_name Aarch64Mnemonic.subs = "subs"
table_name Aarch64Mnemonic.tbnz = "tbnz"
table_name Aarch64Mnemonic.tbz = "tbz"
table_name Aarch64Mnemonic.ubfx = "ubfx"
table_name (Aarch64Mnemonic.other mnemonic) = mnemonic

abbrev parse_rows : List (String × Aarch64Mnemonic)
parse_rows =
    ("adc", Aarch64Mnemonic.adc)
    ∷ ("add", Aarch64Mnemonic.add)
    ∷ ("adds", Aarch64Mnemonic.adds)
    ∷ ("and", Aarch64Mnemonic.and_)
    ∷ ("adr", Aarch64Mnemonic.adr)
    ∷ ("adrp", Aarch64Mnemonic.adrp)
    ∷ ("b", Aarch64Mnemonic.b)
    ∷ ("b.eq", Aarch64Mnemonic.beq)
    ∷ ("beq", Aarch64Mnemonic.beq)
    ∷ ("b.ne", Aarch64Mnemonic.bne)
    ∷ ("bne", Aarch64Mnemonic.bne)
    ∷ ("b.cs", Aarch64Mnemonic.bcs)
    ∷ ("b.hs", Aarch64Mnemonic.bcs)
    ∷ ("bcs", Aarch64Mnemonic.bcs)
    ∷ ("b.cc", Aarch64Mnemonic.bcc)
    ∷ ("b.lo", Aarch64Mnemonic.bcc)
    ∷ ("bcc", Aarch64Mnemonic.bcc)
    ∷ ("b.mi", Aarch64Mnemonic.bmi)
    ∷ ("bmi", Aarch64Mnemonic.bmi)
    ∷ ("b.pl", Aarch64Mnemonic.bpl)
    ∷ ("bpl", Aarch64Mnemonic.bpl)
    ∷ ("b.vs", Aarch64Mnemonic.bvs)
    ∷ ("bvs", Aarch64Mnemonic.bvs)
    ∷ ("b.vc", Aarch64Mnemonic.bvc)
    ∷ ("bvc", Aarch64Mnemonic.bvc)
    ∷ ("b.hi", Aarch64Mnemonic.bhi)
    ∷ ("bhi", Aarch64Mnemonic.bhi)
    ∷ ("b.ls", Aarch64Mnemonic.bls)
    ∷ ("bls", Aarch64Mnemonic.bls)
    ∷ ("b.ge", Aarch64Mnemonic.bge)
    ∷ ("bge", Aarch64Mnemonic.bge)
    ∷ ("b.lt", Aarch64Mnemonic.blt)
    ∷ ("blt", Aarch64Mnemonic.blt)
    ∷ ("b.gt", Aarch64Mnemonic.bgt)
    ∷ ("bgt", Aarch64Mnemonic.bgt)
    ∷ ("b.le", Aarch64Mnemonic.ble)
    ∷ ("ble", Aarch64Mnemonic.ble)
    ∷ ("bl", Aarch64Mnemonic.bl)
    ∷ ("blr", Aarch64Mnemonic.blr)
    ∷ ("br", Aarch64Mnemonic.br)
    ∷ ("brk", Aarch64Mnemonic.brk)
    ∷ ("bfxil", Aarch64Mnemonic.bfxil)
    ∷ ("cbnz", Aarch64Mnemonic.cbnz)
    ∷ ("cbz", Aarch64Mnemonic.cbz)
    ∷ ("dcps1", Aarch64Mnemonic.dcps1)
    ∷ ("dcps2", Aarch64Mnemonic.dcps2)
    ∷ ("dcps3", Aarch64Mnemonic.dcps3)
    ∷ ("drps", Aarch64Mnemonic.drps)
    ∷ ("eret", Aarch64Mnemonic.eret)
    ∷ ("hlt", Aarch64Mnemonic.hlt)
    ∷ ("hvc", Aarch64Mnemonic.hvc)
    ∷ ("ret", Aarch64Mnemonic.ret)
    ∷ ("smc", Aarch64Mnemonic.smc)
    ∷ ("svc", Aarch64Mnemonic.svc)
    ∷ ("ccmp", Aarch64Mnemonic.ccmp)
    ∷ ("cinc", Aarch64Mnemonic.cinc)
    ∷ ("cmn", Aarch64Mnemonic.cmn)
    ∷ ("cmp", Aarch64Mnemonic.cmp)
    ∷ ("csel", Aarch64Mnemonic.csel)
    ∷ ("ldp", Aarch64Mnemonic.ldp)
    ∷ ("ldr", Aarch64Mnemonic.ldr)
    ∷ ("ldur", Aarch64Mnemonic.ldur)
    ∷ ("ldxr", Aarch64Mnemonic.ldxr)
    ∷ ("lsl", Aarch64Mnemonic.lsl)
    ∷ ("lsr", Aarch64Mnemonic.lsr)
    ∷ ("madd", Aarch64Mnemonic.madd)
    ∷ ("mov", Aarch64Mnemonic.mov)
    ∷ ("movk", Aarch64Mnemonic.movk)
    ∷ ("msub", Aarch64Mnemonic.msub)
    ∷ ("eor", Aarch64Mnemonic.eor)
    ∷ ("nop", Aarch64Mnemonic.nop)
    ∷ ("stp", Aarch64Mnemonic.stp)
    ∷ ("str", Aarch64Mnemonic.str)
    ∷ ("stur", Aarch64Mnemonic.stur)
    ∷ ("stxr", Aarch64Mnemonic.stxr)
    ∷ ("sub", Aarch64Mnemonic.sub)
    ∷ ("subs", Aarch64Mnemonic.subs)
    ∷ ("tbnz", Aarch64Mnemonic.tbnz)
    ∷ ("tbz", Aarch64Mnemonic.tbz)
    ∷ ("ubfx", Aarch64Mnemonic.ubfx)
    ∷ []

abbrev or_other : Option Aarch64Mnemonic → String → Aarch64Mnemonic
or_other none mnemonic = Aarch64Mnemonic.other mnemonic
or_other (some m) mnemonic = m

unfoldable pub parse : String → Aarch64Mnemonic
parse mnemonic = or_other (lookup_text parse_rows mnemonic) mnemonic

-- The derived equality: apart from `other`, a name is that of one mnemonic.
abbrev is_other : Aarch64Mnemonic → Bool
is_other (Aarch64Mnemonic.other mnemonic) = true
is_other _ = false

abbrev pub is_same_flag : Bool → Bool → Bool
is_same_flag true f = f
is_same_flag false f = not f

abbrev pub is_same_mnemonic : Aarch64Mnemonic → Aarch64Mnemonic → Bool
is_same_mnemonic m n =
    is_text (table_name m) (table_name n) && is_same_flag (is_other m) (is_other n)
