-- ===== src/Mc/ControlFlow.antt =====
-- src/mc/control_flow.rs: what an instruction does to the program counter.
use armv8_encode.Base.{ℕ, Bool, true, false, Option, none, some}

pub data ControlFlow : Type 0 where
  fall : ControlFlow
  jump : (target : ℕ) → ControlFlow
  conditional_jump : (target fallthrough : ℕ) → ControlFlow
  call : (target fallthrough : ℕ) → ControlFlow
  return : ControlFlow
  indirect_jump : ControlFlow
  indirect_call : (fallthrough : ℕ) → ControlFlow
  trap : ControlFlow

unfoldable pub is_terminator : ControlFlow → Bool
is_terminator fall = false
is_terminator _ = true

unfoldable pub has_fallthrough : ControlFlow → Bool
has_fallthrough fall = true
has_fallthrough (conditional_jump target fallthrough) = true
has_fallthrough (call target fallthrough) = true
has_fallthrough (indirect_call fallthrough) = true
has_fallthrough trap = true
has_fallthrough _ = false

unfoldable pub direct_target : ControlFlow → Option ℕ
direct_target (jump target) = some target
direct_target (conditional_jump target fallthrough) = some target
direct_target (call target fallthrough) = some target
direct_target _ = none

-- The trait by which analyses query an instruction.
pub record InstructionInfo (T : Type 0) : Type 0 where
  pub address : T → ℕ
  pub size : T → ℕ
  pub control_flow : T → ControlFlow
