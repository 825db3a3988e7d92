-- ===== src/Isa.antt =====
-- src/isa/isa_trait.rs: what the rewrite layer asks of an instruction set. The associated types of
-- the trait are one record, its methods another; of the methods these are the ones that layout
-- calls.
use armv8_encode.Base.{ℕ, Option}
use armv8_encode.Base.Int.{ℤ}

pub record IsaTypes : Type 1 where
  pub Mnemonic : Type 0
  pub Register : Type 0
  pub Operand : Type 0
  pub MacroKind : Type 0

pub record Isa (I : IsaTypes) : Type 0 where
  pub pcrel_range_bytes : I.Mnemonic → Option ℤ
  pub invert_conditional_branch : I.Mnemonic → Option I.Mnemonic
  pub widened_conditional_size : ℕ
  pub widened_conditional_range : ℤ
  pub instruction_source_size : I.Mnemonic → ℕ
