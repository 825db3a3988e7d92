-- ===== src/Rewrite/Plan/Tests.antt =====
-- src/rewrite/plan.rs: edits of a plan with a branch and a fused pair, and the theorems at them.
use armv8_encode.Base.{ℕ, suc, ◌≡◌, refl, some, List, [], ◌∷◌, ◌++◌}
use armv8_encode.Base.{map, get_elem?, take, drop, ok}
use armv8_encode.Aarch64.Aarch64Mnemonic.{cbz, nop}
use armv8_encode.Aarch64.{DecodedOperand, RegisterClass}
use armv8_encode.Aarch64.ControlFlow.{aarch64_types, aarch64_isa}
use armv8_encode.Rewrite.Ir.{
  Target, block, absolute, branch, decoded, RewriteInstruction, RewriteOp,
}
use armv8_encode.Rewrite.Ir.{instruction, macro, RewriteBlock, RewritePlan, matches_source_address}
use armv8_encode.Rewrite.Layout.{initial_layouts}
use armv8_encode.Rewrite.Plan.{find_op, find_block, locate, op_at, edit_block, write_op}
use armv8_encode.Rewrite.Plan.{redirect_operands, redirect_op, redirect_branch, insert_all}
use armv8_encode.Rewrite.Plan.{insert_after_address, unfused, unfuse_macro_at}
use armv8_encode.Rewrite.Plan.Redirecting.{
  HasNewTarget, redirect_branch_lem, initial_layouts-redirect_branch,
}
use armv8_encode.Rewrite.Plan.Splicing.{insert_after_address_lem}
use armv8_encode.Rewrite.Plan.Unfusing.{code_of_plan, code_of_plan-unfuse_macro_at}

abbrev jump_to : Target → RewriteInstruction aarch64_types
jump_to target = record {
  mnemonic = cbz;
  operands =
      decoded (DecodedOperand.register (record { class = RegisterClass.x; index = 3 }))
      ∷ branch target
      ∷ [];
  original_address = some 4;
  source_size = some 4;
}

abbrev nop_at : ℕ → RewriteInstruction aarch64_types
nop_at address = record {
  mnemonic = nop;
  operands = [];
  original_address = some address;
  source_size = some 4;
}

abbrev pair : RewriteOp aarch64_types
pair = macro (record {
  kind = 0;
  register = 0;
  target = absolute 8192;
  original_instructions = nop_at 8 ∷ nop_at 12 ∷ [];
  original_addresses = 8 ∷ 12 ∷ [];
})

abbrev plan_of : List (RewriteOp aarch64_types) → RewritePlan aarch64_types
plan_of ops = record { blocks = record { id = 0; ops = pair ∷ ops } ∷ [] }

abbrev plan : RewritePlan aarch64_types
plan = plan_of (instruction (jump_to (block 0)) ∷ [])

abbrev redirected_plan : RewritePlan aarch64_types
redirected_plan = plan_of (instruction (jump_to (absolute 64)) ∷ [])

redirect_jump : redirect_branch plan 4 (absolute 64) ≡ ok redirected_plan
unfolding redirect_branch redirect_op redirect_operands op_at locate find_block find_op write_op
    edit_block matches_source_address
redirect_jump = refl

redirect_branch_lem_example :
    (i j : RewriteInstruction aarch64_types) × (op_at plan 4 ≡ some (instruction i))
    × (op_at redirected_plan 4 ≡ some (instruction j))
    × HasNewTarget (absolute 64) i.operands j.operands
    × (j.mnemonic ≡ i.mnemonic)
    × (j.original_address ≡ i.original_address)
    × (j.source_size ≡ i.source_size)
redirect_branch_lem_example = redirect_branch_lem plan redirected_plan 4 (absolute 64) redirect_jump

initial_layouts-redirect_branch_example : initial_layouts redirected_plan ≡ initial_layouts plan
initial_layouts-redirect_branch_example =
    initial_layouts-redirect_branch plan redirected_plan 4 (absolute 64) redirect_jump

abbrev longer_plan : RewritePlan aarch64_types
longer_plan =
    plan_of (instruction (nop_at 0) ∷ instruction (nop_at 0) ∷ instruction (jump_to (block 0)) ∷ [])

insert_nops : insert_after_address plan 8 (nop_at 0 ∷ nop_at 0 ∷ []) ≡ ok longer_plan
unfolding insert_after_address insert_all locate find_block find_op edit_block
    matches_source_address
insert_nops = refl

insert_after_address_lem_example :
    (b i : ℕ) × (x : RewriteBlock aarch64_types) × (op : RewriteOp aarch64_types) × (op_at plan 8
      ≡ some op)
    × (get_elem? plan.blocks b ≡ some x)
    × (get_elem? x.ops i ≡ some op)
    × (get_elem? longer_plan.blocks b
        ≡ some (record x {
          ops =
              take (suc i) x.ops
              ++ (map instruction (nop_at 0 ∷ nop_at 0 ∷ []) ++ drop (suc i) x.ops);
        }))
insert_after_address_lem_example =
    insert_after_address_lem plan longer_plan 8 (nop_at 0 ∷ nop_at 0 ∷ []) insert_nops

unfuse_pair : unfuse_macro_at plan 8 ≡ record {
  blocks =
      record {
        id = 0;
        ops =
            instruction (nop_at 8) ∷ instruction (nop_at 12) ∷ instruction (jump_to (block 0)) ∷ [];
      }
      ∷ [];
}
unfolding unfuse_macro_at unfused locate find_block find_op edit_block matches_source_address
unfuse_pair = refl

code_of_plan-unfuse_macro_at_example : code_of_plan (unfuse_macro_at plan 8) ≡ code_of_plan plan
code_of_plan-unfuse_macro_at_example = code_of_plan-unfuse_macro_at plan 8
