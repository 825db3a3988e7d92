-- ===== src/Rewrite/Layout/Widening.antt =====
-- src/rewrite/layout.rs: what one pass of `widen_out_of_range` does to a layout, and what it has
-- checked when it does not grow.
use armv8_encode.Base.{ℕ, ◌≡◌, inl, inr, Bool, true, false}
use armv8_encode.Base.{Option, some, Option-cases, List}
use armv8_encode.Base.{Result, ok, err, arith}
use armv8_encode.Base.Int.{ℤ, neg, ◌<ℤ◌, ◌≤ℤ◌}
use armv8_encode.Container.{Container}
use armv8_encode.Isa.{IsaTypes, Isa}
use armv8_encode.Rewrite.Ir.{Target, RewriteInstruction, RewriteOp, instruction, macro, raw}
use armv8_encode.Rewrite.Ir.{first_branch}
use armv8_encode.Rewrite.Layout.{InstructionLayout, normal, inverted_conditional}
use armv8_encode.Rewrite.Layout.{Failure, displacement_to}
use armv8_encode.Rewrite.Layout.{is_in_range, resolve_target, effective_range, widen, check_range}
use armv8_encode.Rewrite.Layout.{check_resolved, widen_op}

unfoldable pub InRange : ℤ → ℤ → Type 0
InRange displacement range = (neg range ≤ℤ displacement) × (displacement <ℤ range)

is_in_range-InRange : (d r : ℤ) → is_in_range d r ≡ true → InRange d r
unfolding is_in_range InRange
is_in_range-InRange d r h = (ground arith, ground arith)

module _ {I : IsaTypes} ⦃isa : Isa I⦄ where
  -- An instruction with an inverse, which can be widened.
  unfoldable pub IsWidenable : RewriteOp I → Type 0
  IsWidenable (instruction i) =
      (m : I.Mnemonic) × (isa.invert_conditional_branch i.mnemonic ≡ some m)
  IsWidenable (macro m) = ⊥
  IsWidenable (raw bytes) = ⊥

  -- The branch of an operation, where its target has an address and its mnemonic has a range, is in
  -- the range of the way it will be emitted.
  unfoldable pub Reaches : List ℕ → Option Container → RewriteOp I → InstructionLayout → Type 0
  Reaches addresses container (instruction i) l =
      (target : Target) (address : ℕ) (range : ℤ)
      → first_branch i.operands ≡ some target
      → resolve_target target addresses container ≡ ok address
      → effective_range I i.mnemonic l.strategy ≡ some range
      → InRange (displacement_to address l.address) range
  Reaches addresses container (macro m) l = Unit
  Reaches addresses container (raw bytes) l = Unit

  -- A layout is kept, or a widenable operation is widened.
  unfoldable pub Step : RewriteOp I → InstructionLayout → InstructionLayout → Bool → Type 0
  Step op l l' false = l' ≡ l
  Step op l l' true =
      (l.strategy ≡ normal)
      × IsWidenable op
      × (l' ≡ record l { size = isa.widened_conditional_size; strategy = inverted_conditional })

  widen-Step :
      (probe : Bool) (i : RewriteInstruction I) (l : InstructionLayout) (target : ℕ)
      (l' : InstructionLayout) (grew : Bool)
      → widen probe i l target ≡ ok (l', grew)
      → Step (instruction i) l l' grew
  unfolding Step widen IsWidenable
  widen-Step probe i l target l' grew h = ground arith

  widen_reports :
      (i : RewriteInstruction I) (l : InstructionLayout) (target : ℕ) (l' : InstructionLayout)
      (grew : Bool)
      → widen false i l target ≡ ok (l', grew)
      → grew ≡ true
  unfolding widen
  widen_reports i l target l' grew h = ground arith

  check_range-Step :
      (probe : Bool) (i : RewriteInstruction I) (l : InstructionLayout) (target : ℕ)
      (l' : InstructionLayout) (grew : Bool)
      → check_range probe i l target ≡ ok (l', grew)
      → Step (instruction i) l l' grew
  unfolding Step check_range
  check_range-Step probe i l target l' grew h = ground (arith, widen-Step probe i l target l' grew)

  check_range-InRange :
      (i : RewriteInstruction I) (l : InstructionLayout) (target : ℕ) (l' : InstructionLayout)
      (range : ℤ)
      → check_range false i l target ≡ ok (l', false)
      → effective_range I i.mnemonic l.strategy ≡ some range
      → InRange (displacement_to target l.address) range
  unfolding check_range
  check_range-InRange i l target l' range h e =
      is_in_range-InRange (displacement_to target l.address) range
        (ground (arith, widen_reports i l target l' false))

  check_resolved-Step :
      (probe : Bool) (i : RewriteInstruction I) (l : InstructionLayout)
      (resolved : Result Failure ℕ) (l' : InstructionLayout) (grew : Bool)
      → check_resolved probe i l resolved ≡ ok (l', grew)
      → Step (instruction i) l l' grew
  unfolding Step check_resolved
  check_resolved-Step probe i l (ok target) l' grew h = check_range-Step probe i l target l' grew h
  check_resolved-Step probe i l (err e) l' grew h = ground arith

  pub widen_op-Step :
      (addresses : List ℕ) (container : Option Container) (probe : Bool) (op : RewriteOp I)
      (l l' : InstructionLayout) (grew : Bool)
      → widen_op addresses container probe op l ≡ ok (l', grew)
      → Step op l l' grew
  unfolding widen_op Step
  widen_op-Step addresses container probe (instruction i) l l' grew h =
      elim (Option-cases (first_branch i.operands)) [
        | inl e ↦ ground arith
        | inr (t, e) ↦
            check_resolved-Step probe i l (resolve_target t addresses container) l' grew
              (ground arith)
      ]
  widen_op-Step addresses container probe (macro m) l l' grew h = ground arith
  widen_op-Step addresses container probe (raw bytes) l l' grew h = ground arith

  pub widen_op-Reaches :
      (addresses : List ℕ) (container : Option Container) (op : RewriteOp I)
      (l l' : InstructionLayout)
      → widen_op addresses container false op l ≡ ok (l', false)
      → Reaches addresses container op l
  unfolding widen_op Reaches check_resolved
  widen_op-Reaches addresses container (instruction i) l l' h =
      λ t a range e f g. check_range-InRange i l a l' range (ground arith) g
  widen_op-Reaches addresses container (macro m) l l' h = tt
  widen_op-Reaches addresses container (raw bytes) l l' h = tt
