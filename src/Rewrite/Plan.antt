-- ===== src/Rewrite/Plan.antt =====
-- src/rewrite/plan.rs: the edits of a plan, which find an operation by the address of its source.
pub mod Locating
pub mod Redirecting
pub mod Splicing
pub mod Unfusing
pub mod Tests
use armv8_encode.Base.{ℕ, zero, suc, ◌+◌, Bool, true, false, if◌then◌else◌, ◌==◌}
use armv8_encode.Base.{Option, none, some, List, [], ◌∷◌, ◌++◌, map, length, get_elem?, set}
use armv8_encode.Base.{Result, ok, err}
use armv8_encode.Isa.{IsaTypes, Isa}
use armv8_encode.Mc.Cfg.{BasicBlockId}
use armv8_encode.Rewrite.Ir.{Target, RewriteOperand, decoded, branch, page, RewriteInstruction}
use armv8_encode.Rewrite.Ir.{MacroOp, RewriteOp, instruction, macro, raw, RewriteBlock, RewritePlan}
use armv8_encode.Rewrite.Ir.{matches_source_address}

pub data EditError : Type 0 where
  address_not_found no_branch_operand not_a_macro not_an_instruction : ℕ → EditError
  unknown_block : BasicBlockId → EditError

-- What a closure does to the element at an index; out of bounds nothing.
abbrev pub modify : {A : Type 0} → List A → ℕ → (A → A) → List A
modify [] i f = []
modify (x ∷ xs) zero f = f x ∷ xs
modify (x ∷ xs) (suc i) f = x ∷ modify xs i f

-- `Vec::insert`, within bounds, and `Vec::remove`.
abbrev pub insert_at : {A : Type 0} → List A → ℕ → A → List A
insert_at xs zero x = x ∷ xs
insert_at [] (suc i) x = x ∷ []
insert_at (y ∷ xs) (suc i) x = y ∷ insert_at xs i x

abbrev pub remove_at : {A : Type 0} → List A → ℕ → List A
remove_at [] i = []
remove_at (x ∷ xs) zero = xs
remove_at (x ∷ xs) (suc i) = x ∷ remove_at xs i

-- `Vec::splice` of one element.
abbrev pub splice_at : {A : Type 0} → List A → ℕ → List A → List A
splice_at [] i new = []
splice_at (x ∷ xs) zero new = new ++ xs
splice_at (x ∷ xs) (suc i) new = x ∷ splice_at xs i new

abbrev pub with_block : ℕ → Option ℕ → Option (ℕ × ℕ) → Option (ℕ × ℕ)
with_block block_index none rest = rest
with_block block_index (some op_index) rest = some (block_index, op_index)

module _ {I : IsaTypes} where
  -- The loops of `locate`, with the indices so far.
  unfoldable pub find_op : ℕ → List (RewriteOp I) → ℕ → Option ℕ
  find_op op_index [] address = none
  find_op op_index (op ∷ ops) address =
      if matches_source_address op address
      then some op_index
      else find_op (suc op_index) ops address

  unfoldable pub find_block : ℕ → List (RewriteBlock I) → ℕ → Option (ℕ × ℕ)
  find_block block_index [] address = none
  find_block block_index (b ∷ bs) address =
      with_block block_index (find_op 0 b.ops address) (find_block (suc block_index) bs address)

  unfoldable pub locate : RewritePlan I → ℕ → Option (ℕ × ℕ)
  locate plan address = find_block 0 plan.blocks address

  abbrev pub op_of : Option (RewriteBlock I) → ℕ → Option (RewriteOp I)
  op_of none op_index = none
  op_of (some b) op_index = get_elem? b.ops op_index

  unfoldable pub op_at : RewritePlan I → ℕ → Option (RewriteOp I)
  op_at plan address = elim (locate plan address) [
    | none ↦ none
    | some (b, i) ↦ op_of (get_elem? plan.blocks b) i
  ]

  abbrev pub instruction_of : Option (RewriteOp I) → Option (RewriteInstruction I)
  instruction_of (some (instruction i)) = some i
  instruction_of _ = none

  unfoldable pub instruction_at : RewritePlan I → ℕ → Option (RewriteInstruction I)
  instruction_at plan address = instruction_of (op_at plan address)

  -- The plan with other operations in a block.
  unfoldable pub edit_block :
      RewritePlan I → ℕ → (List (RewriteOp I) → List (RewriteOp I)) → RewritePlan I
  edit_block plan b f = record { blocks = modify plan.blocks b (λ x. record x { ops = f x.ops }) }

  -- A write through the reference of `op_at_mut`.
  unfoldable pub write_op : RewritePlan I → ℕ → RewriteOp I → RewritePlan I
  write_op plan address op = elim (locate plan address) [
    | none ↦ plan
    | some (b, i) ↦ edit_block plan b (λ ops. set ops i op)
  ]

  abbrev pub operand_and :
      RewriteOperand I → Option (List (RewriteOperand I)) → Option (List (RewriteOperand I))
  operand_and o none = none
  operand_and o (some os) = some (o ∷ os)

  -- The loop of `redirect_branch`: the first operand with a target gets the new one.
  unfoldable pub redirect_operands :
      Target → List (RewriteOperand I) → Option (List (RewriteOperand I))
  redirect_operands new_target [] = none
  redirect_operands new_target (branch t ∷ os) = some (branch new_target ∷ os)
  redirect_operands new_target (page t ∷ os) = some (page new_target ∷ os)
  redirect_operands new_target (decoded d ∷ os) =
      operand_and (decoded d) (redirect_operands new_target os)

  abbrev pub redirected :
      RewritePlan I
      → ℕ
      → RewriteInstruction I
      → Option (List (RewriteOperand I))
      → Result EditError (RewritePlan I)
  redirected plan address i none = err (no_branch_operand address)
  redirected plan address i (some os) =
      ok (write_op plan address (instruction (record i { operands = os })))

  unfoldable pub redirect_op :
      RewritePlan I → ℕ → Target → Option (RewriteOp I) → Result EditError (RewritePlan I)
  redirect_op plan address new_target none = err (address_not_found address)
  redirect_op plan address new_target (some (instruction i)) =
      redirected plan address i (redirect_operands new_target i.operands)
  redirect_op plan address new_target (some (macro m)) = err (not_an_instruction address)
  redirect_op plan address new_target (some (raw bytes)) = err (not_an_instruction address)

  unfoldable pub redirect_branch : RewritePlan I → ℕ → Target → Result EditError (RewritePlan I)
  redirect_branch plan address new_target = redirect_op plan address new_target (op_at plan address)

  abbrev redirect_macro :
      RewritePlan I → ℕ → Target → Option (RewriteOp I) → Result EditError (RewritePlan I)
  redirect_macro plan address new_target none = err (address_not_found address)
  redirect_macro plan address new_target (some (macro m)) =
      ok (write_op plan address (macro (record m { target = new_target })))
  redirect_macro plan address new_target (some (instruction i)) = err (not_a_macro address)
  redirect_macro plan address new_target (some (raw bytes)) = err (not_a_macro address)

  unfoldable pub redirect_macro_target :
      RewritePlan I → ℕ → Target → Result EditError (RewritePlan I)
  redirect_macro_target plan address new_target =
      redirect_macro plan address new_target (op_at plan address)

  -- The last operation replaced, or the new one where there is none.
  unfoldable pub replace_last : List (RewriteOp I) → RewriteOp I → List (RewriteOp I)
  replace_last [] new = new ∷ []
  replace_last (op ∷ []) new = new ∷ []
  replace_last (op ∷ next ∷ ops) new = op ∷ replace_last (next ∷ ops) new

  unfoldable pub replace_terminator :
      RewritePlan I → BasicBlockId → RewriteInstruction I → Result EditError (RewritePlan I)
  replace_terminator plan block new_terminator = elim (get_elem? plan.blocks block) [
    | none ↦ err (unknown_block block)
    | some b ↦ ok (edit_block plan block (λ ops. replace_last ops (instruction new_terminator)))
  ]

  -- The loop of `insert_after_address`, at `insert_at + offset`.
  unfoldable pub insert_all :
      List (RewriteOp I) → ℕ → List (RewriteInstruction I) → List (RewriteOp I)
  insert_all ops at [] = ops
  insert_all ops at (i ∷ is) = insert_all (insert_at ops at (instruction i)) (at + 1) is

  unfoldable pub insert_after_address :
      RewritePlan I → ℕ → List (RewriteInstruction I) → Result EditError (RewritePlan I)
  insert_after_address plan address new = elim (locate plan address) [
    | none ↦ err (address_not_found address)
    | some (b, i) ↦ ok (edit_block plan b (λ ops. insert_all ops (i + 1) new))
  ]

  -- The removed operation, and the plan without it.
  unfoldable pub remove_at_address :
      RewritePlan I → ℕ → Result EditError (Option (RewriteOp I) × RewritePlan I)
  remove_at_address plan address = elim (locate plan address) [
    | none ↦ err (address_not_found address)
    | some (b, i) ↦
        ok (op_of (get_elem? plan.blocks b) i, edit_block plan b (λ ops. remove_at ops i))
  ]

  -- The original instructions of a macro that begins at the address.
  abbrev begins_at : List (RewriteInstruction I) → ℕ → Bool
  begins_at [] address = false
  begins_at (i ∷ is) address = elim i.original_address [ none ↦ false | some a ↦ a == address ]

  unfoldable pub unfused : Option (RewriteOp I) → ℕ → Option (List (RewriteOp I))
  unfused (some (macro m)) address =
      if begins_at m.original_instructions address
      then some (map instruction m.original_instructions)
      else none
  unfused _ address = none

  abbrev pub spliced : RewritePlan I → ℕ → ℕ → Option (List (RewriteOp I)) → RewritePlan I
  spliced plan b i none = plan
  spliced plan b i (some new) = edit_block plan b (λ ops. splice_at ops i new)

  unfoldable pub unfuse_macro_at : RewritePlan I → ℕ → RewritePlan I
  unfuse_macro_at plan address = elim (locate plan address) [
    | none ↦ plan
    | some (b, i) ↦ spliced plan b i (unfused (op_of (get_elem? plan.blocks b) i) address)
  ]
