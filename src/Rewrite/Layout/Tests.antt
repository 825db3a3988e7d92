-- ===== src/Rewrite/Layout/Tests.antt =====
-- src/rewrite/layout.rs: a plan of two blocks whose first branch is widened, and the theorems at it.
use mathlib.Core.Path.{subst}
use armv8_encode.Base.{ℕ, ◌≡◌, refl, ◌⊎◌, arith}
use armv8_encode.Base.{none, some, [], ◌∷◌, some_injective, ok, err, ◌<◌}
use armv8_encode.Base.Int.{ℤ}
use armv8_encode.Base.{true, ◌↔◌}
use armv8_encode.Aarch64.{Aarch64Opnd, DecodedOperand}
use armv8_encode.Base.{inl, inr, ◌∈◌}
use armv8_encode.Aarch64.{Aarch64InsnClass, Aarch64Opcode}
use armv8_encode.Aarch64.Mnemonic.{parse}
use armv8_encode.Aarch64.Operand.Codec.{encode}
use armv8_encode.Aarch64.Table.Branches.{branch_rows}
use armv8_encode.Rewrite.Layout.Encoding.{is_in_range-encode}
use armv8_encode.Aarch64.Aarch64Mnemonic.{b, beq}
use armv8_encode.Aarch64.ControlFlow.{aarch64_types, aarch64_isa, pcrel_range_bytes}
use armv8_encode.Aarch64.ControlFlow.{invert_conditional_branch}
use armv8_encode.Rewrite.Ir.{Target, block, absolute, branch, instruction, raw, RewriteOp}
use armv8_encode.Rewrite.Ir.{RewritePlan, instruction_size, source_byte_size, first_branch}
use armv8_encode.Rewrite.Layout.{Layout, InstructionLayout, normal, inverted_conditional, error}
use armv8_encode.Rewrite.Layout.{displacement_too_large, resolve_target, is_in_range}
use armv8_encode.Rewrite.Layout.{displacement_to, assign_ops, assign_blocks, initial_layout}
use armv8_encode.Rewrite.Layout.{initial_layouts, effective_range, widen, check_range}
use armv8_encode.Rewrite.Layout.{check_resolved, widen_op, widen_ops, widen_blocks}
use armv8_encode.Rewrite.Layout.{widen_out_of_range, finish_or_repeat, iterate, lay_out_inner}
use armv8_encode.Rewrite.Layout.{lay_out, lay_out_for_size, scatter, total_of, total_size_of}
use armv8_encode.Rewrite.Layout.{lay_out_scattered}
use armv8_encode.Rewrite.Layout.Placement.{BlocksReach}
use armv8_encode.Rewrite.Layout.Pending.{widenable, widenable_ops, widenable_blocks}
use armv8_encode.Rewrite.Layout.Failures.{Exists, HasTargets, HaveTargets}
use armv8_encode.Rewrite.Layout.Reach.{IsContiguous, ReachesAll, lay_out_sound}
use armv8_encode.Rewrite.Layout.Reach.{lay_out_for_size-IsContiguous}
use armv8_encode.Rewrite.Layout.Convergence.{lay_out_total, lay_out_for_size_total}
use armv8_encode.Base.Int.{pos}
use armv8_encode.Rewrite.Layout.Refusals.{IsRefused, lay_out-IsRefused}
use armv8_encode.Rewrite.Layout.Scattered.{IsScattered, lay_out_scattered_sound}

abbrev branch_if_equal : Target → RewriteOp aarch64_types
branch_if_equal target = instruction (record {
  mnemonic = beq;
  operands = branch target ∷ [];
  original_address = none;
  source_size = none;
})

abbrev branch_always : Target → RewriteOp aarch64_types
branch_always target = instruction (record {
  mnemonic = b;
  operands = branch target ∷ [];
  original_address = some 4;
  source_size = some 4;
})

abbrev plan_to : ℕ → RewritePlan aarch64_types
plan_to far = record {
  blocks =
      record { id = 0; ops = branch_if_equal (absolute far) ∷ branch_always (block 1) ∷ [] }
      ∷ record { id = 1; ops = raw (31 ∷ 32 ∷ 3 ∷ 213 ∷ []) ∷ branch_always (block 0) ∷ [] }
      ∷ [];
}

abbrev layout_at : ℕ → ℕ → InstructionLayout
layout_at address size = record { address = address; size = size; strategy = normal }

-- 1048576 is one past the range of a conditional branch at 0.
abbrev far_layout : Layout
far_layout = record {
  base_address = 0;
  total_size = 20;
  block_addresses = 0 ∷ 12 ∷ [];
  instruction_layouts =
      (record { address = 0; size = 8; strategy = inverted_conditional } ∷ layout_at 8 4 ∷ [])
      ∷ (layout_at 12 4 ∷ layout_at 16 4 ∷ [])
      ∷ [];
}

lay_out_far : lay_out (plan_to 1048576) 0 none ≡ ok far_layout
unfolding lay_out lay_out_inner iterate widen_out_of_range finish_or_repeat widen_blocks widen_ops
    widen_op check_resolved check_range widen effective_range initial_layouts initial_layout
    assign_blocks assign_ops displacement_to is_in_range resolve_target source_byte_size
    instruction_size first_branch pcrel_range_bytes invert_conditional_branch
lay_out_far = refl

lay_out_sound_example :
    IsContiguous (plan_to 1048576) 0 far_layout × ReachesAll (plan_to 1048576) none far_layout
lay_out_sound_example = lay_out_sound (plan_to 1048576) 0 none far_layout lay_out_far

lay_out_for_size_far : lay_out_for_size (plan_to 1048576) 0 none ≡ ok far_layout
unfolding lay_out_inner iterate widen_out_of_range finish_or_repeat widen_blocks widen_ops widen_op
    check_resolved check_range widen effective_range initial_layouts initial_layout assign_blocks
    assign_ops displacement_to is_in_range resolve_target source_byte_size instruction_size
    first_branch pcrel_range_bytes invert_conditional_branch lay_out_for_size
lay_out_for_size_far = refl

lay_out_for_size-IsContiguous_example : IsContiguous (plan_to 1048576) 0 far_layout
lay_out_for_size-IsContiguous_example =
    lay_out_for_size-IsContiguous (plan_to 1048576) 0 none far_layout lay_out_for_size_far

targets : (far : ℕ) → HaveTargets 2 none (plan_to far).blocks
unfolding HaveTargets HasTargets first_branch Exists
targets far = (
  (
    (λ t e. subst (Exists 2 none) (some_injective e) tt),
    ((λ t e. subst (Exists 2 none) (some_injective e) (omega arith)), tt),
  ),
  (((λ t e. subst (Exists 2 none) (some_injective e) (omega arith)), tt), tt),
)

few : (far : ℕ) → widenable_blocks (plan_to far).blocks < 16
unfolding widenable_blocks widenable_ops widenable invert_conditional_branch
few far = omega arith

lay_out_total_example :
    ((result : Layout) × (lay_out (plan_to 1048576) 0 none ≡ ok result))
    ⊎ ((here target : ℕ) × (displacement : ℤ) × (lay_out (plan_to 1048576) 0 none
          ≡ err (error (displacement_too_large here target displacement))))
lay_out_total_example = lay_out_total (plan_to 1048576) 0 none (targets 1048576) (few 1048576)

lay_out_for_size_total_example :
    (result : Layout) × (lay_out_for_size (plan_to 1048576) 0 none ≡ ok result)
lay_out_for_size_total_example =
    lay_out_for_size_total (plan_to 1048576) 0 none (targets 1048576) (few 1048576)

abbrev near_layout : Layout
near_layout = record {
  base_address = 64;
  total_size = 16;
  block_addresses = 64 ∷ 128 ∷ [];
  instruction_layouts =
      (layout_at 64 4 ∷ layout_at 68 4 ∷ []) ∷ (layout_at 128 4 ∷ layout_at 132 4 ∷ []) ∷ [];
}

lay_out_scattered_near : lay_out_scattered (plan_to 256) (64 ∷ 128 ∷ []) none ≡ ok near_layout
unfolding widen_out_of_range widen_blocks widen_ops widen_op check_resolved check_range
    effective_range initial_layouts initial_layout assign_ops displacement_to is_in_range
    resolve_target source_byte_size instruction_size first_branch pcrel_range_bytes
    invert_conditional_branch lay_out_scattered scatter total_of total_size_of
lay_out_scattered_near = refl

lay_out_scattered_sound_example :
    IsScattered (plan_to 256).blocks (64 ∷ 128 ∷ []) near_layout.instruction_layouts
    × BlocksReach (64 ∷ 128 ∷ []) none (plan_to 256).blocks near_layout.instruction_layouts
    × (near_layout.block_addresses ≡ (64 ∷ 128 ∷ []))
lay_out_scattered_sound_example =
    lay_out_scattered_sound (plan_to 256) (64 ∷ 128 ∷ []) none near_layout lay_out_scattered_near

-- An unconditional branch to 134217728, one past its range at 0.
abbrev too_far : RewritePlan aarch64_types
too_far = record { blocks = record { id = 0; ops = branch_always (absolute 134217728) ∷ [] } ∷ [] }

refuses_far_jump :
    lay_out too_far 0 none ≡ err (error (displacement_too_large 0 134217728 (pos 134217728)))
unfolding lay_out lay_out_inner iterate widen_out_of_range finish_or_repeat widen_blocks widen_ops
    widen_op check_resolved check_range widen effective_range initial_layouts initial_layout
    assign_blocks assign_ops displacement_to is_in_range resolve_target source_byte_size
    instruction_size first_branch pcrel_range_bytes invert_conditional_branch
refuses_far_jump = refl

lay_out-IsRefused_example : IsRefused too_far 0 none 0 134217728 (pos 134217728)
lay_out-IsRefused_example =
    lay_out-IsRefused too_far 0 none 0 134217728 (pos 134217728) refuses_far_jump

abbrev row_tbz : Aarch64Opcode
row_tbz = record {
  name = "tbz";
  opcode = 0x36000000;
  mask = 0x7f000000;
  iclass = Aarch64InsnClass.testbranch;
  operands = Aarch64Opnd.rt ∷ Aarch64Opnd.bit_num ∷ Aarch64Opnd.addr_pcrel14 ∷ [];
  flags = 0;
}

row_tbz-branch_rows : row_tbz ∈ branch_rows
unfolding branch_rows
row_tbz-branch_rows = inr (inr (inr (inr (inl refl))))

-- The first target that a test and branch at 4096 cannot reach.
is_in_range-encode_example :
    (range : ℤ) × (pcrel_range_bytes (parse "tbz") ≡ some range)
    × ((is_in_range (displacement_to 36864 4096) range ≡ true) ↔ (
        (out : ℕ) × (encode Aarch64Opnd.addr_pcrel14
            (DecodedOperand.branch_target 36864)
            (record { base_word = 0x36000000; address = 4096; opcode = row_tbz })
          ≡ ok out)))
is_in_range-encode_example =
    is_in_range-encode row_tbz Aarch64Opnd.addr_pcrel14 36864 4096 0x36000000 row_tbz-branch_rows
      (inr (inr (inl refl))) tt (omega arith) (omega arith) (omega arith) (omega arith)
