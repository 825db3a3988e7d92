-- ===== src/Aarch64/Table/Ranges.antt =====
-- src/isa/aarch64/table.rs: the bits of a word that an operand occupies.
use armv8_encode.Base.{ℕ, List, [], ◌∷◌}
use armv8_encode.Aarch64.{Aarch64Opnd}

-- Each range is its first bit and the bit behind its last.
unfoldable pub operand_bit_ranges : Aarch64Opnd → List (ℕ × ℕ)
operand_bit_ranges Aarch64Opnd.nil = []
operand_bit_ranges Aarch64Opnd.pairreg = []
operand_bit_ranges Aarch64Opnd.imm0 = []
operand_bit_ranges Aarch64Opnd.fpimm0 = []
operand_bit_ranges Aarch64Opnd.barrier_psb = []
operand_bit_ranges Aarch64Opnd.shll_imm = []
operand_bit_ranges Aarch64Opnd.rd = (0, 5) ∷ []
operand_bit_ranges Aarch64Opnd.rd_sp = (0, 5) ∷ []
operand_bit_ranges Aarch64Opnd.rm_low = (0, 5) ∷ []
operand_bit_ranges Aarch64Opnd.rt = (0, 5) ∷ []
operand_bit_ranges Aarch64Opnd.rt_sys = (0, 5) ∷ []
operand_bit_ranges Aarch64Opnd.fd = (0, 5) ∷ []
operand_bit_ranges Aarch64Opnd.ft = (0, 5) ∷ []
operand_bit_ranges Aarch64Opnd.sd = (0, 5) ∷ []
operand_bit_ranges Aarch64Opnd.vd = (0, 5) ∷ []
operand_bit_ranges Aarch64Opnd.vd_d1 = (0, 5) ∷ []
operand_bit_ranges Aarch64Opnd.lvt = (0, 5) ∷ []
operand_bit_ranges Aarch64Opnd.lvt_al = (0, 5) ∷ []
operand_bit_ranges Aarch64Opnd.let_ = (0, 5) ∷ []
operand_bit_ranges Aarch64Opnd.rn = (5, 10) ∷ []
operand_bit_ranges Aarch64Opnd.rn_sp = (5, 10) ∷ []
operand_bit_ranges Aarch64Opnd.fn = (5, 10) ∷ []
operand_bit_ranges Aarch64Opnd.sn = (5, 10) ∷ []
operand_bit_ranges Aarch64Opnd.vn = (5, 10) ∷ []
operand_bit_ranges Aarch64Opnd.vn_d1 = (5, 10) ∷ []
operand_bit_ranges Aarch64Opnd.lvn = (5, 10) ∷ []
operand_bit_ranges Aarch64Opnd.rm = (16, 21) ∷ []
operand_bit_ranges Aarch64Opnd.fm = (16, 21) ∷ []
operand_bit_ranges Aarch64Opnd.sm = (16, 21) ∷ []
operand_bit_ranges Aarch64Opnd.vm = (16, 21) ∷ []
operand_bit_ranges Aarch64Opnd.rt2 = (10, 15) ∷ []
operand_bit_ranges Aarch64Opnd.ft2 = (10, 15) ∷ []
operand_bit_ranges Aarch64Opnd.rs = (16, 21) ∷ []
operand_bit_ranges Aarch64Opnd.ra = (10, 15) ∷ []
operand_bit_ranges Aarch64Opnd.fa = (10, 15) ∷ []
operand_bit_ranges Aarch64Opnd.rm_sft = (16, 21) ∷ (22, 24) ∷ (10, 16) ∷ []
operand_bit_ranges Aarch64Opnd.rm_ext = (16, 21) ∷ (13, 16) ∷ (10, 13) ∷ []
operand_bit_ranges Aarch64Opnd.ed = (0, 5) ∷ (16, 21) ∷ []
operand_bit_ranges Aarch64Opnd.en = (5, 10) ∷ (16, 21) ∷ (11, 15) ∷ []
operand_bit_ranges Aarch64Opnd.em = (16, 21) ∷ (11, 12) ∷ (20, 22) ∷ (22, 24) ∷ []
operand_bit_ranges Aarch64Opnd.cn = (12, 16) ∷ []
operand_bit_ranges Aarch64Opnd.cm = (8, 12) ∷ []
operand_bit_ranges Aarch64Opnd.idx = (11, 15) ∷ []
operand_bit_ranges Aarch64Opnd.imm_vlsl = (16, 23) ∷ []
operand_bit_ranges Aarch64Opnd.imm_vlsr = (16, 23) ∷ []
operand_bit_ranges Aarch64Opnd.simd_imm = (5, 10) ∷ (16, 19) ∷ []
operand_bit_ranges Aarch64Opnd.simd_fpimm = (5, 10) ∷ (16, 19) ∷ []
operand_bit_ranges Aarch64Opnd.simd_imm_sft = (5, 10) ∷ (16, 19) ∷ (12, 16) ∷ []
operand_bit_ranges Aarch64Opnd.fpimm = (13, 21) ∷ []
operand_bit_ranges Aarch64Opnd.immr = (16, 22) ∷ []
operand_bit_ranges Aarch64Opnd.imms = (10, 16) ∷ []
operand_bit_ranges Aarch64Opnd.width = (10, 16) ∷ []
operand_bit_ranges Aarch64Opnd.imm = (10, 22) ∷ []
operand_bit_ranges Aarch64Opnd.uimm3_op1 = (16, 19) ∷ []
operand_bit_ranges Aarch64Opnd.uimm3_op2 = (5, 8) ∷ []
operand_bit_ranges Aarch64Opnd.uimm4 = (8, 12) ∷ []
operand_bit_ranges Aarch64Opnd.uimm7 = (5, 8) ∷ (8, 12) ∷ []
operand_bit_ranges Aarch64Opnd.bit_num = (19, 24) ∷ (31, 32) ∷ []
operand_bit_ranges Aarch64Opnd.exc = (5, 21) ∷ []
operand_bit_ranges Aarch64Opnd.ccmp_imm = (16, 21) ∷ []
operand_bit_ranges Aarch64Opnd.nzcv = (0, 4) ∷ []
operand_bit_ranges Aarch64Opnd.limm = (10, 23) ∷ []
operand_bit_ranges Aarch64Opnd.aimm = (10, 22) ∷ (22, 23) ∷ []
operand_bit_ranges Aarch64Opnd.half = (5, 21) ∷ (21, 23) ∷ []
operand_bit_ranges Aarch64Opnd.imm_mov = (5, 21) ∷ (21, 23) ∷ []
operand_bit_ranges Aarch64Opnd.fbits = (10, 16) ∷ []
operand_bit_ranges Aarch64Opnd.cond = (12, 16) ∷ []
operand_bit_ranges Aarch64Opnd.cond1 = (12, 16) ∷ []
operand_bit_ranges Aarch64Opnd.addr_adrp = (5, 24) ∷ (29, 31) ∷ []
operand_bit_ranges Aarch64Opnd.addr_pcrel21 = (5, 24) ∷ (29, 31) ∷ []
operand_bit_ranges Aarch64Opnd.addr_pcrel14 = (5, 19) ∷ []
operand_bit_ranges Aarch64Opnd.addr_pcrel19 = (5, 24) ∷ []
operand_bit_ranges Aarch64Opnd.addr_pcrel26 = (0, 26) ∷ []
operand_bit_ranges Aarch64Opnd.addr_simple = (5, 10) ∷ []
operand_bit_ranges Aarch64Opnd.addr_regoff = (5, 10) ∷ (16, 21) ∷ (13, 14) ∷ (12, 13) ∷ []
operand_bit_ranges Aarch64Opnd.addr_simm7 = (5, 10) ∷ (15, 22) ∷ (23, 25) ∷ []
operand_bit_ranges Aarch64Opnd.addr_simm9 = (5, 10) ∷ (12, 21) ∷ (10, 12) ∷ []
operand_bit_ranges Aarch64Opnd.addr_simm92 = (5, 10) ∷ (12, 21) ∷ (10, 12) ∷ []
operand_bit_ranges Aarch64Opnd.addr_uimm12 = (5, 10) ∷ (10, 22) ∷ []
operand_bit_ranges Aarch64Opnd.simd_addr_simple = (5, 10) ∷ []
operand_bit_ranges Aarch64Opnd.simd_addr_post = (5, 10) ∷ (16, 21) ∷ []
operand_bit_ranges Aarch64Opnd.sysreg = (5, 21) ∷ []
operand_bit_ranges Aarch64Opnd.pstatefield = (5, 8) ∷ (16, 19) ∷ []
operand_bit_ranges Aarch64Opnd.sysreg_at = (5, 8) ∷ (8, 12) ∷ (12, 16) ∷ (16, 19) ∷ []
operand_bit_ranges Aarch64Opnd.sysreg_dc = (5, 8) ∷ (8, 12) ∷ (12, 16) ∷ (16, 19) ∷ []
operand_bit_ranges Aarch64Opnd.sysreg_ic = (5, 8) ∷ (8, 12) ∷ (12, 16) ∷ (16, 19) ∷ []
operand_bit_ranges Aarch64Opnd.sysreg_tlbi = (5, 8) ∷ (8, 12) ∷ (12, 16) ∷ (16, 19) ∷ []
operand_bit_ranges Aarch64Opnd.barrier = (8, 12) ∷ []
operand_bit_ranges Aarch64Opnd.barrier_isb = (8, 12) ∷ []
operand_bit_ranges Aarch64Opnd.prfop = (0, 5) ∷ []
