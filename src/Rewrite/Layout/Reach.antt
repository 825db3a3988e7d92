-- ===== src/Rewrite/Layout/Reach.antt =====
-- src/rewrite/layout.rs: what `lay_out`, `lay_out_for_size` and `lay_out_scattered` have established
-- when they return a layout.
use mathlib.Core.Path.{subst}
use armv8_encode.Base.{ℕ, zero, suc, ◌≡◌, refl, sym, ap, ◌∙◌, inl, inr, Bool, true, false}
use armv8_encode.Base.{Option, List}
use armv8_encode.Base.{ok, err, Result-cases, ok_injective}
use armv8_encode.Base.Word.{wrapping_sub}
use armv8_encode.Container.{Container}
use armv8_encode.Isa.{IsaTypes, Isa}
use armv8_encode.Rewrite.Ir.{RewritePlan}
use armv8_encode.Rewrite.Layout.{InstructionLayout, Layout, Failure, assign_blocks}
use armv8_encode.Rewrite.Layout.{initial_layouts, widen_blocks, widen_out_of_range}
use armv8_encode.Rewrite.Layout.{finish_or_repeat, iterate, lay_out_inner, lay_out}
use armv8_encode.Rewrite.Layout.{max_layout_iterations, lay_out_for_size}
use armv8_encode.Rewrite.Layout.Placement.{HaveSizes, ArePlaced, BlocksReach}
use armv8_encode.Rewrite.Layout.Placement.{initial_layouts-HaveSizes, assign_blocks-ArePlaced}
use armv8_encode.Rewrite.Layout.Placement.{assign_blocks-HaveSizes}
use armv8_encode.Rewrite.Layout.Passes.{widen_blocks-HaveSizes, widen_blocks_same}
use armv8_encode.Rewrite.Layout.Passes.{widen_blocks-BlocksReach}

module _ {I : IsaTypes} ⦃isa : Isa I⦄ where
  -- The blocks of the plan lie one behind the other from the base, and the total size says where
  -- they end.
  unfoldable pub IsContiguous : RewritePlan I → ℕ → Layout → Type 0
  IsContiguous plan base layout =
      (end : ℕ) × ArePlaced plan.blocks layout.block_addresses layout.instruction_layouts base end
      × (layout.base_address ≡ base)
      × (layout.total_size ≡ wrapping_sub end base)

  unfoldable pub ReachesAll : RewritePlan I → Option Container → Layout → Type 0
  ReachesAll plan container layout =
      BlocksReach layout.block_addresses container plan.blocks layout.instruction_layouts

  -- The three ways a round goes.
  pub iterate_fails :
      (plan : RewritePlan I) (base : ℕ) (container : Option Container) (probe : Bool) (left : ℕ)
      (layouts : List (List InstructionLayout)) (e : Failure)
      → widen_blocks
          (assign_blocks layouts base).1
          container
          probe
          plan.blocks
          (assign_blocks layouts base).0
        ≡ err e
      → iterate plan base container probe (suc left) layouts ≡ err e
  unfolding iterate widen_out_of_range
  iterate_fails plan base container probe left layouts e f = rw (f, iterate)

  pub iterate_grows :
      (plan : RewritePlan I) (base : ℕ) (container : Option Container) (probe : Bool) (left : ℕ)
      (layouts layouts' : List (List InstructionLayout))
      → widen_blocks
          (assign_blocks layouts base).1
          container
          probe
          plan.blocks
          (assign_blocks layouts base).0
        ≡ ok (layouts', true)
      → iterate plan base container probe (suc left) layouts
        ≡ iterate plan base container probe left layouts'
  unfolding iterate widen_out_of_range finish_or_repeat
  iterate_grows plan base container probe left layouts layouts' f = rw (f, iterate)

  pub iterate_ends :
      (plan : RewritePlan I) (base : ℕ) (container : Option Container) (probe : Bool) (left : ℕ)
      (layouts layouts' : List (List InstructionLayout))
      → widen_blocks
          (assign_blocks layouts base).1
          container
          probe
          plan.blocks
          (assign_blocks layouts base).0
        ≡ ok (layouts', false)
      → iterate plan base container probe (suc left) layouts
        ≡ ok (record {
          base_address = base;
          total_size = wrapping_sub (assign_blocks layouts base).2 base;
          block_addresses = (assign_blocks layouts base).1;
          instruction_layouts = (assign_blocks layouts base).0;
        })
  unfolding iterate widen_out_of_range finish_or_repeat
  iterate_ends plan base container probe left layouts layouts' f = rw (
    f,
    iterate,
    widen_blocks_same (assign_blocks layouts base).1 container probe plan.blocks
        (assign_blocks layouts base).0 layouts' f,
  )

  -- A returned layout is an assignment of addresses that a pass has left as it was.
  iterate-of :
      (plan : RewritePlan I) (base : ℕ) (container : Option Container) (probe : Bool) (left : ℕ)
      (layouts : List (List InstructionLayout)) (result : Layout)
      → HaveSizes plan.blocks layouts
      → iterate plan base container probe left layouts ≡ ok result
      → IsContiguous plan base result × (probe ≡ false → ReachesAll plan container result)
  unfolding IsContiguous ReachesAll iterate
  iterate-of plan base container probe zero layouts result k h = cc
  iterate-of plan base container probe (suc left) layouts result k h =
      let placed = assign_blocks layouts base in
      elim (Result-cases (widen_blocks placed.1 container probe plan.blocks placed.0)) [
        | inr (e, f) ↦ let failed = iterate_fails plan base container probe left layouts e f in cc
        | inl ((layouts', true), f) ↦
            iterate-of plan base container probe left layouts' result
              (widen_blocks-HaveSizes placed.1 container probe plan.blocks placed.0 layouts' true f
                (assign_blocks-HaveSizes plan.blocks layouts base k))
              (sym (iterate_grows plan base container probe left layouts layouts' f) ∙ h)
        | inl ((layouts', false), f) ↦
            subst (λ r. IsContiguous plan base r × (probe ≡ false → ReachesAll plan container r))
              (ok_injective
                (sym (iterate_ends plan base container probe left layouts layouts' f) ∙ h))
              (
                (placed.2, assign_blocks-ArePlaced plan.blocks layouts base k, refl, refl),
                λ real. widen_blocks-BlocksReach placed.1 container plan.blocks placed.0 layouts' (
                    sym (ap (λ b. widen_blocks placed.1 container b plan.blocks placed.0) real)
                    ∙ f),
              )
      ]

  -- A layout that `lay_out` returns is contiguous: from the base address on, each operation lies
  -- directly behind the one before it, with the size it has in the source or, if it is an
  -- instruction with an inverse that was widened, with the widened size; each block starts at its
  -- address, and the total size is the distance to the end. And it is in range: for every
  -- instruction with a branch operand whose target has an address in this layout and whose mnemonic
  -- has a range, the displacement is in the range of the chosen strategy.
  pub lay_out_sound :
      (plan : RewritePlan I) (base : ℕ) (container : Option Container) (result : Layout)
      → lay_out plan base container ≡ ok result
      → IsContiguous plan base result × ReachesAll plan container result
  unfolding lay_out lay_out_inner
  lay_out_sound plan base container result h =
      let both =
        iterate-of plan base container false max_layout_iterations (initial_layouts plan) result
          (initial_layouts-HaveSizes plan) h in
      (both.0, both.1 refl)

  -- A layout that `lay_out_for_size` returns is contiguous in the same sense.
  pub lay_out_for_size-IsContiguous :
      (plan : RewritePlan I) (base : ℕ) (container : Option Container) (result : Layout)
      → lay_out_for_size plan base container ≡ ok result
      → IsContiguous plan base result
  unfolding lay_out_for_size lay_out_inner
  lay_out_for_size-IsContiguous plan base container result h =
      (iterate-of plan base container true max_layout_iterations (initial_layouts plan) result
        (initial_layouts-HaveSizes plan) h).0
