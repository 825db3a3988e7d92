-- ===== src/Aarch64/Operand/Codec.antt =====
-- src/isa/aarch64/operand.rs: the codec of each operand kind.
use armv8_encode.Base.{ℕ, [], ◌∷◌, true, false, Option, none, some, Result, ok, err}
use armv8_encode.Base.Text.{concat_text, decimal}
use armv8_encode.Base.Int.{ℤ, pos}
use armv8_encode.Aarch64.{Aarch64Opnd, DecodedOperand, VectorElement, VectorElementSize}
use armv8_encode.Aarch64.Operand.{DecodeContext, DecodeError, EncodeContext, EncodeError, gp_or_sp}
use armv8_encode.Aarch64.Operand.{name, ra, rd, rm, rn, rt, rt2, x_reg}
use armv8_encode.Aarch64.Operand.Immediates.{aimm, bit_num, bitfield_imm, bitfield_width, ccmp_imm}
use armv8_encode.Aarch64.Operand.Immediates.{exc, fbits, half, idx, imm_mov, imm_vlsl, imm_vlsr}
use armv8_encode.Aarch64.Operand.Immediates.{immr, imms, nzcv, shll_imm, simd_imm, simd_imm_sft}
use armv8_encode.Aarch64.Operand.Immediates.{uimm3_op1, uimm3_op2, uimm4, uimm7}
use armv8_encode.Aarch64.Operand.Immediates.Encode.{encode_aimm, encode_bit_num}
use armv8_encode.Aarch64.Operand.Immediates.Encode.{encode_bitfield_imm, encode_bitfield_width}
use armv8_encode.Aarch64.Operand.Immediates.Encode.{encode_fbits, encode_half, encode_imm_mov}
use armv8_encode.Aarch64.Operand.Immediates.Encode.{encode_raw_immediate, encode_shll_immediate}
use armv8_encode.Aarch64.Operand.Immediates.Encode.{encode_simd_immediate}
use armv8_encode.Aarch64.Operand.Immediates.Encode.{encode_simd_shifted_immediate, encode_uimm7}
use armv8_encode.Aarch64.Operand.Immediates.Encode.{encode_vector_shift_immediate}
use armv8_encode.Aarch64.Operand.Immediates.Encode.{encode_zero_immediate}
use armv8_encode.Aarch64.Operand.Immediates.Logical.{encode_logical_immediate, logical_immediate}
use armv8_encode.Aarch64.Operand.Memory.{addr_regoff, addr_simm7, addr_simm9, addr_simple}
use armv8_encode.Aarch64.Operand.Memory.{addr_uimm12}
use armv8_encode.Aarch64.Operand.Memory.Encode.{encode_addr_regoff, encode_addr_simm7}
use armv8_encode.Aarch64.Operand.Memory.Encode.{encode_addr_simm9, encode_addr_simple}
use armv8_encode.Aarch64.Operand.Memory.Encode.{encode_addr_uimm12, encode_simd_addr_post}
use armv8_encode.Aarch64.Operand.Pcrel.{adrp_target, branch_target, encode_adrp, encode_pcrel}
use armv8_encode.Aarch64.Operand.Pcrel.{encode_pcrel21, imm14, imm19, imm21, imm26}
use armv8_encode.Aarch64.Operand.Registers.{fp_reg, ft_reg, pair_reg, ra_reg, rm_extended, rm_reg}
use armv8_encode.Aarch64.Operand.Registers.{rm_shifted, rn_reg, rs_reg, rt_reg, rt_sys_reg}
use armv8_encode.Aarch64.Operand.Registers.Encode.{encode_fp_register, encode_ft_register}
use armv8_encode.Aarch64.Operand.Registers.Encode.{encode_gp_or_sp_register, encode_gp_register}
use armv8_encode.Aarch64.Operand.Registers.Encode.{encode_pair_register, encode_rd_register}
use armv8_encode.Aarch64.Operand.Registers.Encode.{encode_rm_extended, encode_rm_shifted}
use armv8_encode.Aarch64.Operand.Registers.Encode.{encode_rt_register, encode_rt_sys_register}
use armv8_encode.Aarch64.Operand.Registers.Encode.{encode_status_register}
use armv8_encode.Aarch64.Operand.System.{barrier, barrier_isb, cm, cn, condition, fpimm}
use armv8_encode.Aarch64.Operand.System.{inverted_condition, prfop, pstate_field, simd_fpimm}
use armv8_encode.Aarch64.Operand.System.{sysreg, sysreg_at, sysreg_dc, sysreg_ic, sysreg_tlbi}
use armv8_encode.Aarch64.Operand.System.Encode.{encode_barrier, encode_barrier_isb}
use armv8_encode.Aarch64.Operand.System.Encode.{encode_condition, encode_coproc_register}
use armv8_encode.Aarch64.Operand.System.Encode.{encode_fp_immediate, encode_prfop}
use armv8_encode.Aarch64.Operand.System.Encode.{encode_pstate_field, encode_simd_fp_immediate}
use armv8_encode.Aarch64.Operand.System.Encode.{encode_sys_op, encode_sysreg, encode_system_fixed}
use armv8_encode.Aarch64.Operand.System.Encode.{encode_zero_float_immediate}
use armv8_encode.Aarch64.Operand.Vectors.{ed, em, en, rd_reg, simd_addr_post}
use armv8_encode.Aarch64.Operand.Vectors.{simd_ldst_element_list, simd_ldst_list, simd_scalar_reg}
use armv8_encode.Aarch64.Operand.Vectors.{vector_list, vector_reg}
use armv8_encode.Aarch64.Operand.Vectors.Encode.{encode_simd_scalar_register, encode_vector_d1}
use armv8_encode.Aarch64.Operand.Vectors.Encode.{encode_vector_element, encode_vector_element_list}
use armv8_encode.Aarch64.Operand.Vectors.Encode.{encode_vector_list, encode_vector_list_all_lanes}
use armv8_encode.Aarch64.Operand.Vectors.Encode.{encode_vector_register}

abbrev element_d1 : ℕ → VectorElement
element_d1 index = record { index = index; element = 1; size = VectorElementSize.d }

abbrev limm_operand : Option ℤ → Result DecodeError DecodedOperand
limm_operand none = err (DecodeError.invalid_operand "Limm")
limm_operand (some value) = ok (DecodedOperand.immediate value)

unfoldable pub decode : Aarch64Opnd → DecodeContext → Result DecodeError DecodedOperand
decode Aarch64Opnd.rd ctx = ok (DecodedOperand.register (rd_reg ctx.word ctx.opcode))
decode Aarch64Opnd.rn ctx = ok (DecodedOperand.register (rn_reg ctx.word ctx.opcode))
decode Aarch64Opnd.rm ctx = ok (DecodedOperand.register (rm_reg ctx.word ctx.opcode))
decode Aarch64Opnd.rm_low ctx = ok (DecodedOperand.register (x_reg (rd ctx.word)))
decode Aarch64Opnd.rt ctx = ok (DecodedOperand.register (rt_reg ctx.word ctx.opcode))
decode Aarch64Opnd.rt2 ctx = ok (DecodedOperand.register (x_reg (rt2 ctx.word)))
decode Aarch64Opnd.rs ctx = ok (DecodedOperand.register (rs_reg ctx.word ctx.opcode))
decode Aarch64Opnd.ra ctx = ok (DecodedOperand.register (ra_reg ctx.word))
decode Aarch64Opnd.rt_sys ctx = ok (DecodedOperand.register (rt_sys_reg ctx.word))
decode Aarch64Opnd.rd_sp ctx = ok (DecodedOperand.register (gp_or_sp (rd ctx.word) ctx.word))
decode Aarch64Opnd.rn_sp ctx = ok (DecodedOperand.register (gp_or_sp (rn ctx.word) ctx.word))
decode Aarch64Opnd.pairreg ctx = ok (DecodedOperand.register (pair_reg ctx.word ctx.operand_index))
decode Aarch64Opnd.rm_ext ctx = ok (DecodedOperand.extended_register (rm_extended ctx.word))
decode Aarch64Opnd.rm_sft ctx = ok (DecodedOperand.shifted_register (rm_shifted ctx.word))
decode Aarch64Opnd.fd ctx = ok (DecodedOperand.register (fp_reg (rd ctx.word) ctx.word))
decode Aarch64Opnd.fn ctx = ok (DecodedOperand.register (fp_reg (rn ctx.word) ctx.word))
decode Aarch64Opnd.fm ctx = ok (DecodedOperand.register (fp_reg (rm ctx.word) ctx.word))
decode Aarch64Opnd.fa ctx = ok (DecodedOperand.register (fp_reg (ra ctx.word) ctx.word))
decode Aarch64Opnd.ft ctx = ok (DecodedOperand.register (ft_reg (rt ctx.word) ctx.word ctx.opcode))
decode Aarch64Opnd.ft2 ctx =
    ok (DecodedOperand.register (ft_reg (rt2 ctx.word) ctx.word ctx.opcode))
decode Aarch64Opnd.sd ctx =
    ok (DecodedOperand.register (simd_scalar_reg (rd ctx.word) ctx.word ctx.opcode))
decode Aarch64Opnd.sn ctx =
    ok (DecodedOperand.register (simd_scalar_reg (rn ctx.word) ctx.word ctx.opcode))
decode Aarch64Opnd.sm ctx =
    ok (DecodedOperand.register (simd_scalar_reg (rm ctx.word) ctx.word ctx.opcode))
decode Aarch64Opnd.vd ctx =
    ok (DecodedOperand.vector_register (vector_reg (rd ctx.word) ctx.word ctx.opcode))
decode Aarch64Opnd.vn ctx =
    ok (DecodedOperand.vector_register (vector_reg (rn ctx.word) ctx.word ctx.opcode))
decode Aarch64Opnd.vm ctx =
    ok (DecodedOperand.vector_register (vector_reg (rm ctx.word) ctx.word ctx.opcode))
decode Aarch64Opnd.vd_d1 ctx = ok (DecodedOperand.vector_element (element_d1 (rd ctx.word)))
decode Aarch64Opnd.vn_d1 ctx = ok (DecodedOperand.vector_element (element_d1 (rn ctx.word)))
decode Aarch64Opnd.ed ctx = ok (DecodedOperand.vector_element (ed ctx.word))
decode Aarch64Opnd.en ctx = ok (DecodedOperand.vector_element (en ctx.word ctx.opcode))
decode Aarch64Opnd.em ctx = ok (DecodedOperand.vector_element (em ctx.word))
decode Aarch64Opnd.lvn ctx = ok (DecodedOperand.vector_list (vector_list ctx.word))
decode Aarch64Opnd.lvt ctx = ok (DecodedOperand.vector_list (simd_ldst_list ctx.word))
decode Aarch64Opnd.lvt_al ctx = ok (DecodedOperand.vector_list (simd_ldst_list ctx.word))
decode Aarch64Opnd.let_ ctx =
    ok (DecodedOperand.vector_list (simd_ldst_element_list ctx.word ctx.opcode))
decode Aarch64Opnd.cn ctx =
    ok (DecodedOperand.system (concat_text ("c" ∷ decimal (cn ctx.word) ∷ [])))
decode Aarch64Opnd.cm ctx =
    ok (DecodedOperand.system (concat_text ("c" ∷ decimal (cm ctx.word) ∷ [])))
decode Aarch64Opnd.idx ctx = ok (DecodedOperand.immediate (idx ctx.word))
decode Aarch64Opnd.imm_vlsl ctx = ok (DecodedOperand.immediate (imm_vlsl ctx.word))
decode Aarch64Opnd.imm_vlsr ctx = ok (DecodedOperand.immediate (imm_vlsr ctx.word))
decode Aarch64Opnd.simd_imm ctx = ok (simd_imm ctx.word)
decode Aarch64Opnd.simd_imm_sft ctx = ok (DecodedOperand.shifted_immediate (simd_imm_sft ctx.word))
decode Aarch64Opnd.simd_fpimm ctx = ok (DecodedOperand.float_immediate (simd_fpimm ctx.word))
decode Aarch64Opnd.shll_imm ctx = ok (DecodedOperand.immediate (shll_imm ctx.word))
decode Aarch64Opnd.imm0 ctx = ok (DecodedOperand.immediate (pos 0))
decode Aarch64Opnd.fpimm0 ctx = ok (DecodedOperand.float_immediate "0.0")
decode Aarch64Opnd.fpimm ctx = ok (DecodedOperand.float_immediate (fpimm ctx.word))
decode Aarch64Opnd.immr ctx = ok (DecodedOperand.immediate (immr ctx.word))
decode Aarch64Opnd.imms ctx = ok (DecodedOperand.immediate (imms ctx.word))
decode Aarch64Opnd.width ctx = ok (DecodedOperand.immediate (bitfield_width ctx.word ctx.opcode))
decode Aarch64Opnd.imm ctx = ok (DecodedOperand.immediate (bitfield_imm ctx.word ctx.opcode))
decode Aarch64Opnd.uimm3_op1 ctx = ok (DecodedOperand.immediate (uimm3_op1 ctx.word))
decode Aarch64Opnd.uimm3_op2 ctx = ok (DecodedOperand.immediate (uimm3_op2 ctx.word))
decode Aarch64Opnd.uimm4 ctx = ok (DecodedOperand.immediate (uimm4 ctx.word))
decode Aarch64Opnd.uimm7 ctx = ok (DecodedOperand.immediate (uimm7 ctx.word))
decode Aarch64Opnd.bit_num ctx = ok (DecodedOperand.immediate (bit_num ctx.word))
decode Aarch64Opnd.exc ctx = ok (DecodedOperand.immediate (exc ctx.word))
decode Aarch64Opnd.ccmp_imm ctx = ok (DecodedOperand.immediate (ccmp_imm ctx.word))
decode Aarch64Opnd.nzcv ctx = ok (DecodedOperand.immediate (nzcv ctx.word))
decode Aarch64Opnd.limm ctx = limm_operand (logical_immediate ctx.word)
decode Aarch64Opnd.aimm ctx = ok (DecodedOperand.immediate (aimm ctx.word))
decode Aarch64Opnd.half ctx = ok (DecodedOperand.shifted_immediate (half ctx.word))
decode Aarch64Opnd.fbits ctx = ok (DecodedOperand.immediate (fbits ctx.word))
decode Aarch64Opnd.imm_mov ctx = ok (DecodedOperand.immediate (imm_mov ctx.word))
decode Aarch64Opnd.cond ctx = ok (DecodedOperand.condition (condition ctx.word))
decode Aarch64Opnd.cond1 ctx = ok (DecodedOperand.condition (inverted_condition ctx.word))
decode Aarch64Opnd.addr_adrp ctx =
    ok (DecodedOperand.page_target (adrp_target ctx.address ctx.word))
decode Aarch64Opnd.addr_pcrel14 ctx =
    ok (DecodedOperand.branch_target (branch_target ctx.address (imm14 ctx.word)))
decode Aarch64Opnd.addr_pcrel19 ctx =
    ok (DecodedOperand.branch_target (branch_target ctx.address (imm19 ctx.word)))
decode Aarch64Opnd.addr_pcrel21 ctx =
    ok (DecodedOperand.branch_target (branch_target ctx.address (imm21 ctx.word)))
decode Aarch64Opnd.addr_pcrel26 ctx =
    ok (DecodedOperand.branch_target (branch_target ctx.address (imm26 ctx.word)))
decode Aarch64Opnd.addr_simple ctx = ok (DecodedOperand.memory (addr_simple ctx.word))
decode Aarch64Opnd.addr_regoff ctx = ok (DecodedOperand.memory (addr_regoff ctx.word))
decode Aarch64Opnd.addr_simm7 ctx = ok (DecodedOperand.memory (addr_simm7 ctx.word))
decode Aarch64Opnd.addr_simm9 ctx = ok (DecodedOperand.memory (addr_simm9 ctx.word))
decode Aarch64Opnd.addr_uimm12 ctx = ok (DecodedOperand.memory (addr_uimm12 ctx.word))
decode Aarch64Opnd.simd_addr_simple ctx = ok (DecodedOperand.memory (addr_simple ctx.word))
decode Aarch64Opnd.simd_addr_post ctx =
    ok (DecodedOperand.memory (simd_addr_post ctx.word ctx.opcode))
decode Aarch64Opnd.sysreg ctx = ok (DecodedOperand.system (sysreg ctx.word))
decode Aarch64Opnd.pstatefield ctx = ok (DecodedOperand.system (pstate_field ctx.word))
decode Aarch64Opnd.sysreg_at ctx = ok (DecodedOperand.system (sysreg_at ctx.word))
decode Aarch64Opnd.sysreg_dc ctx = ok (DecodedOperand.system (sysreg_dc ctx.word))
decode Aarch64Opnd.sysreg_ic ctx = ok (DecodedOperand.system (sysreg_ic ctx.word))
decode Aarch64Opnd.sysreg_tlbi ctx = ok (DecodedOperand.system (sysreg_tlbi ctx.word))
decode Aarch64Opnd.barrier ctx = ok (DecodedOperand.system (barrier ctx.word))
decode Aarch64Opnd.barrier_isb ctx = ok (DecodedOperand.system (barrier_isb ctx.word))
decode Aarch64Opnd.prfop ctx = ok (DecodedOperand.system (prfop ctx.word))
decode Aarch64Opnd.barrier_psb ctx = ok (DecodedOperand.system "csync")
decode kind ctx = ok (DecodedOperand.unimplemented (name kind))

unfoldable pub encode : Aarch64Opnd → DecodedOperand → EncodeContext → Result EncodeError ℕ
encode Aarch64Opnd.rd x ctx = encode_rd_register Aarch64Opnd.rd x ctx.opcode
encode Aarch64Opnd.rn x ctx = encode_gp_register Aarch64Opnd.rn x 5
encode Aarch64Opnd.rm x ctx = encode_gp_register Aarch64Opnd.rm x 16
encode Aarch64Opnd.rm_low x ctx = encode_gp_register Aarch64Opnd.rm_low x 0
encode Aarch64Opnd.rt x ctx = encode_rt_register Aarch64Opnd.rt x ctx.opcode
encode Aarch64Opnd.rt2 x ctx = encode_gp_register Aarch64Opnd.rt2 x 10
encode Aarch64Opnd.rs x ctx = encode_status_register Aarch64Opnd.rs x ctx.opcode
encode Aarch64Opnd.ra x ctx = encode_gp_register Aarch64Opnd.ra x 10
encode Aarch64Opnd.rt_sys x ctx = encode_rt_sys_register Aarch64Opnd.rt_sys x
encode Aarch64Opnd.rd_sp x ctx = encode_gp_or_sp_register Aarch64Opnd.rd_sp x 0
encode Aarch64Opnd.rn_sp x ctx = encode_gp_or_sp_register Aarch64Opnd.rn_sp x 5
encode Aarch64Opnd.pairreg x ctx = encode_pair_register Aarch64Opnd.pairreg x
encode Aarch64Opnd.rm_ext x ctx = encode_rm_extended Aarch64Opnd.rm_ext x
encode Aarch64Opnd.rm_sft x ctx = encode_rm_shifted Aarch64Opnd.rm_sft x
encode Aarch64Opnd.fd x ctx = encode_fp_register Aarch64Opnd.fd x 0
encode Aarch64Opnd.fn x ctx = encode_fp_register Aarch64Opnd.fn x 5
encode Aarch64Opnd.fm x ctx = encode_fp_register Aarch64Opnd.fm x 16
encode Aarch64Opnd.fa x ctx = encode_fp_register Aarch64Opnd.fa x 10
encode Aarch64Opnd.ft x ctx = encode_ft_register Aarch64Opnd.ft x ctx.opcode 0
encode Aarch64Opnd.ft2 x ctx = encode_ft_register Aarch64Opnd.ft2 x ctx.opcode 10
encode Aarch64Opnd.sd x ctx = encode_simd_scalar_register Aarch64Opnd.sd x ctx.opcode 0
encode Aarch64Opnd.sn x ctx = encode_simd_scalar_register Aarch64Opnd.sn x ctx.opcode 5
encode Aarch64Opnd.sm x ctx = encode_simd_scalar_register Aarch64Opnd.sm x ctx.opcode 16
encode Aarch64Opnd.vd x ctx = encode_vector_register Aarch64Opnd.vd x ctx.opcode 0
encode Aarch64Opnd.vn x ctx = encode_vector_register Aarch64Opnd.vn x ctx.opcode 5
encode Aarch64Opnd.vm x ctx = encode_vector_register Aarch64Opnd.vm x ctx.opcode 16
encode Aarch64Opnd.vd_d1 x ctx = encode_vector_d1 Aarch64Opnd.vd_d1 x 0
encode Aarch64Opnd.vn_d1 x ctx = encode_vector_d1 Aarch64Opnd.vn_d1 x 5
encode Aarch64Opnd.ed x ctx = encode_vector_element Aarch64Opnd.ed x ctx.opcode 0
encode Aarch64Opnd.en x ctx = encode_vector_element Aarch64Opnd.en x ctx.opcode 5
encode Aarch64Opnd.em x ctx = encode_vector_element Aarch64Opnd.em x ctx.opcode 16
encode Aarch64Opnd.lvn x ctx = encode_vector_list Aarch64Opnd.lvn x 5 ctx.opcode
encode Aarch64Opnd.lvt x ctx = encode_vector_list Aarch64Opnd.lvt x 0 ctx.opcode
encode Aarch64Opnd.lvt_al x ctx = encode_vector_list_all_lanes Aarch64Opnd.lvt_al x
encode Aarch64Opnd.let_ x ctx = encode_vector_element_list Aarch64Opnd.let_ x
encode Aarch64Opnd.cn x ctx = encode_coproc_register Aarch64Opnd.cn x 12
encode Aarch64Opnd.cm x ctx = encode_coproc_register Aarch64Opnd.cm x 8
encode Aarch64Opnd.idx x ctx = encode_raw_immediate Aarch64Opnd.idx x 11 4
encode Aarch64Opnd.imm_vlsl x ctx =
    encode_vector_shift_immediate Aarch64Opnd.imm_vlsl x ctx.base_word false
encode Aarch64Opnd.imm_vlsr x ctx =
    encode_vector_shift_immediate Aarch64Opnd.imm_vlsr x ctx.base_word true
encode Aarch64Opnd.simd_imm x ctx = encode_simd_immediate Aarch64Opnd.simd_imm x
encode Aarch64Opnd.simd_imm_sft x ctx = encode_simd_shifted_immediate Aarch64Opnd.simd_imm_sft x
encode Aarch64Opnd.simd_fpimm x ctx =
    encode_simd_fp_immediate Aarch64Opnd.simd_fpimm x ctx.base_word
encode Aarch64Opnd.shll_imm x ctx = encode_shll_immediate Aarch64Opnd.shll_imm x
encode Aarch64Opnd.imm0 x ctx = encode_zero_immediate Aarch64Opnd.imm0 x
encode Aarch64Opnd.fpimm0 x ctx = encode_zero_float_immediate Aarch64Opnd.fpimm0 x
encode Aarch64Opnd.fpimm x ctx = encode_fp_immediate Aarch64Opnd.fpimm x 13
encode Aarch64Opnd.immr x ctx = encode_raw_immediate Aarch64Opnd.immr x 16 6
encode Aarch64Opnd.imms x ctx = encode_raw_immediate Aarch64Opnd.imms x 10 6
encode Aarch64Opnd.width x ctx = encode_bitfield_width Aarch64Opnd.width x ctx.opcode ctx.base_word
encode Aarch64Opnd.imm x ctx = encode_bitfield_imm Aarch64Opnd.imm x ctx.opcode ctx.base_word
encode Aarch64Opnd.uimm3_op1 x ctx = encode_raw_immediate Aarch64Opnd.uimm3_op1 x 16 3
encode Aarch64Opnd.uimm3_op2 x ctx = encode_raw_immediate Aarch64Opnd.uimm3_op2 x 5 3
encode Aarch64Opnd.uimm4 x ctx = encode_raw_immediate Aarch64Opnd.uimm4 x 8 4
encode Aarch64Opnd.uimm7 x ctx = encode_uimm7 Aarch64Opnd.uimm7 x
encode Aarch64Opnd.bit_num x ctx = encode_bit_num Aarch64Opnd.bit_num x
encode Aarch64Opnd.exc x ctx = encode_raw_immediate Aarch64Opnd.exc x 5 16
encode Aarch64Opnd.ccmp_imm x ctx = encode_raw_immediate Aarch64Opnd.ccmp_imm x 16 5
encode Aarch64Opnd.nzcv x ctx = encode_raw_immediate Aarch64Opnd.nzcv x 0 4
encode Aarch64Opnd.limm x ctx = encode_logical_immediate Aarch64Opnd.limm x ctx.base_word
encode Aarch64Opnd.aimm x ctx = encode_aimm Aarch64Opnd.aimm x
encode Aarch64Opnd.half x ctx = encode_half Aarch64Opnd.half x
encode Aarch64Opnd.fbits x ctx = encode_fbits Aarch64Opnd.fbits x
encode Aarch64Opnd.imm_mov x ctx = encode_imm_mov Aarch64Opnd.imm_mov x ctx.opcode
encode Aarch64Opnd.cond x ctx = encode_condition Aarch64Opnd.cond x false
encode Aarch64Opnd.cond1 x ctx = encode_condition Aarch64Opnd.cond1 x true
encode Aarch64Opnd.addr_adrp x ctx = encode_adrp Aarch64Opnd.addr_adrp x ctx.address
encode Aarch64Opnd.addr_pcrel14 x ctx = encode_pcrel Aarch64Opnd.addr_pcrel14 x ctx.address 14 5
encode Aarch64Opnd.addr_pcrel19 x ctx = encode_pcrel Aarch64Opnd.addr_pcrel19 x ctx.address 19 5
encode Aarch64Opnd.addr_pcrel21 x ctx = encode_pcrel21 Aarch64Opnd.addr_pcrel21 x ctx.address
encode Aarch64Opnd.addr_pcrel26 x ctx = encode_pcrel Aarch64Opnd.addr_pcrel26 x ctx.address 26 0
encode Aarch64Opnd.addr_simple x ctx = encode_addr_simple Aarch64Opnd.addr_simple x
encode Aarch64Opnd.addr_regoff x ctx = encode_addr_regoff Aarch64Opnd.addr_regoff x ctx.base_word
encode Aarch64Opnd.addr_simm7 x ctx = encode_addr_simm7 Aarch64Opnd.addr_simm7 x ctx.opcode
encode Aarch64Opnd.addr_simm9 x ctx = encode_addr_simm9 Aarch64Opnd.addr_simm9 x ctx.opcode
encode Aarch64Opnd.addr_uimm12 x ctx = encode_addr_uimm12 Aarch64Opnd.addr_uimm12 x ctx.base_word
encode Aarch64Opnd.simd_addr_simple x ctx = encode_addr_simple Aarch64Opnd.simd_addr_simple x
encode Aarch64Opnd.simd_addr_post x ctx = encode_simd_addr_post Aarch64Opnd.simd_addr_post x
encode Aarch64Opnd.sysreg x ctx = encode_sysreg Aarch64Opnd.sysreg x
encode Aarch64Opnd.pstatefield x ctx = encode_pstate_field Aarch64Opnd.pstatefield x
encode Aarch64Opnd.sysreg_at x ctx = encode_sys_op Aarch64Opnd.sysreg_at x "at"
encode Aarch64Opnd.sysreg_dc x ctx = encode_sys_op Aarch64Opnd.sysreg_dc x "dc"
encode Aarch64Opnd.sysreg_ic x ctx = encode_sys_op Aarch64Opnd.sysreg_ic x "ic"
encode Aarch64Opnd.sysreg_tlbi x ctx = encode_sys_op Aarch64Opnd.sysreg_tlbi x "tlbi"
encode Aarch64Opnd.barrier x ctx = encode_barrier Aarch64Opnd.barrier x
encode Aarch64Opnd.barrier_isb x ctx = encode_barrier_isb Aarch64Opnd.barrier_isb x
encode Aarch64Opnd.prfop x ctx = encode_prfop Aarch64Opnd.prfop x
encode Aarch64Opnd.barrier_psb x ctx = encode_system_fixed Aarch64Opnd.barrier_psb x "csync"
encode kind x ctx = err (EncodeError.unimplemented (name kind))
