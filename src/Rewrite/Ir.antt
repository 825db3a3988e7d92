-- ===== src/Rewrite/Ir.antt =====
-- src/rewrite/ir.rs: code as blocks of instructions whose targets are symbolic, over any
-- instruction set, and the size of an operation in the source.
use armv8_encode.Base.{ℕ, ◌==◌, Bool, true, false, if◌then◌else◌}
use armv8_encode.Base.{Option, none, some, List, [], ◌∷◌, length}
use armv8_encode.Base.Word.{wrapping_add}
use armv8_encode.Isa.{IsaTypes, Isa}
use armv8_encode.Container.{SymbolId}
use armv8_encode.Mc.Cfg.{BasicBlockId}

abbrev pub ConstantId : Type 0
ConstantId = ℕ

pub data Target : Type 0 where
  block : BasicBlockId → Target
  symbol : SymbolId → Target
  constant : ConstantId → Target
  absolute : ℕ → Target

pub data RewriteOperand (I : IsaTypes) : Type 0 where
  decoded : I.Operand → RewriteOperand I
  branch : Target → RewriteOperand I
  page : Target → RewriteOperand I

pub record RewriteInstruction (I : IsaTypes) : Type 0 where
  pub mnemonic : I.Mnemonic
  pub operands : List (RewriteOperand I)
  pub original_address : Option ℕ
  pub source_size : Option ℕ

pub record MacroOp (I : IsaTypes) : Type 0 where
  pub kind : I.MacroKind
  pub register : I.Register
  pub target : Target
  pub original_instructions : List (RewriteInstruction I)
  pub original_addresses : List ℕ

-- `raw` carries bytes that are copied as they are.
pub data RewriteOp (I : IsaTypes) : Type 0 where
  instruction : RewriteInstruction I → RewriteOp I
  macro : MacroOp I → RewriteOp I
  raw : List ℕ → RewriteOp I

pub record RewriteBlock (I : IsaTypes) : Type 0 where
  pub id : BasicBlockId
  pub ops : List (RewriteOp I)

pub record RewritePlan (I : IsaTypes) : Type 0 where
  pub blocks : List (RewriteBlock I)

abbrev pub size_or : Option ℕ → ℕ → ℕ
size_or (some size) default = size
size_or none default = default

abbrev get_first : List ℕ → Option ℕ
get_first [] = none
get_first (x ∷ xs) = some x

abbrev is_some_of : Option ℕ → ℕ → Bool
is_some_of none a = false
is_some_of (some x) a = x == a

abbrev contains : List ℕ → ℕ → Bool
contains [] a = false
contains (x ∷ xs) a = if x == a then true else contains xs a

module _ {I : IsaTypes} ⦃isa : Isa I⦄ where
  unfoldable pub instruction_size : RewriteInstruction I → ℕ
  instruction_size i = size_or i.source_size (isa.instruction_source_size i.mnemonic)

  unfoldable pub macro_source_size : List (RewriteInstruction I) → ℕ
  macro_source_size [] = 0
  macro_source_size (i ∷ is) = wrapping_add (instruction_size i) (macro_source_size is)

  unfoldable pub source_byte_size : RewriteOp I → ℕ
  source_byte_size (instruction i) = instruction_size i
  source_byte_size (macro m) = macro_source_size m.original_instructions
  source_byte_size (raw bytes) = length bytes

module _ {I : IsaTypes} where
  unfoldable pub first_original_address : RewriteOp I → Option ℕ
  first_original_address (instruction i) = i.original_address
  first_original_address (macro m) = get_first m.original_addresses
  first_original_address (raw bytes) = none

  unfoldable pub matches_source_address : RewriteOp I → ℕ → Bool
  matches_source_address (instruction i) address = is_some_of i.original_address address
  matches_source_address (macro m) address = contains m.original_addresses address
  matches_source_address (raw bytes) address = false

  -- The first operand of an instruction that is a branch, and the first that is relative to the
  -- program counter at all.
  unfoldable pub first_branch : List (RewriteOperand I) → Option Target
  first_branch [] = none
  first_branch (branch t ∷ os) = some t
  first_branch (_ ∷ os) = first_branch os

  unfoldable pub first_pc_relative : List (RewriteOperand I) → Option Target
  first_pc_relative [] = none
  first_pc_relative (branch t ∷ os) = some t
  first_pc_relative (page t ∷ os) = some t
  first_pc_relative (decoded o ∷ os) = first_pc_relative os

  unfoldable pub pc_relative_target : RewriteInstruction I → Option Target
  pc_relative_target i = first_pc_relative i.operands
