-- ===== src/Rewrite/Layout/Convergence.antt =====
-- src/rewrite/layout.rs: that the layout loop ends with a result.
use mathlib.Core.Path.{subst}
use armv8_encode.Base.{ℕ, zero, suc, ◌<◌, ◌≡◌, refl, sym, ap, ◌∙◌, ◌⊎◌, inl, inr}
use armv8_encode.Base.{Bool, true, false, Option, List, [], ◌∷◌, length}
use armv8_encode.Base.{ok, err, Result-cases, arith}
use armv8_encode.Base.Int.{ℤ}
use armv8_encode.Container.{Container}
use armv8_encode.Isa.{IsaTypes, Isa}
use armv8_encode.Rewrite.Ir.{RewriteBlock, RewritePlan}
use armv8_encode.Rewrite.Layout.{InstructionLayout, Layout, Failure, error}
use armv8_encode.Rewrite.Layout.{displacement_too_large, assign_ops, assign_blocks}
use armv8_encode.Rewrite.Layout.{initial_layouts, widen_blocks, iterate, lay_out_inner, lay_out}
use armv8_encode.Rewrite.Layout.{lay_out_for_size, max_layout_iterations}
use armv8_encode.Rewrite.Layout.Placement.{HaveSizes, initial_layouts-HaveSizes}
use armv8_encode.Rewrite.Layout.Placement.{assign_blocks-HaveSizes}
use armv8_encode.Rewrite.Layout.Passes.{widen_blocks-HaveSizes}
use armv8_encode.Rewrite.Layout.Pending.{pending, widenable_blocks, widen_blocks_falls}
use armv8_encode.Rewrite.Layout.Pending.{assign_blocks_keeps, pending-initial_layouts}
use armv8_encode.Rewrite.Layout.Failures.{IsTooLarge, HaveTargets, widen_blocks-IsTooLarge}
use armv8_encode.Rewrite.Layout.Reach.{iterate_fails, iterate_grows, iterate_ends}

module _ {I : IsaTypes} ⦃isa : Isa I⦄ where
  length-assign_blocks :
      (bs : List (RewriteBlock I)) (lss : List (List InstructionLayout)) (current : ℕ)
      → HaveSizes bs lss
      → length (assign_blocks lss current).1 ≡ length bs
  unfolding HaveSizes assign_blocks
  length-assign_blocks [] [] current h = refl
  length-assign_blocks [] (ls ∷ lss) current h = absurd h
  length-assign_blocks (b ∷ bs) [] current h = absurd h
  length-assign_blocks (b ∷ bs) (ls ∷ lss) current h =
      ap suc (length-assign_blocks bs lss (assign_ops ls current).1 h.1)

  -- With more rounds left than operations to widen, the loop does not run out of rounds.
  iterate_total :
      (plan : RewritePlan I) (base : ℕ) (container : Option Container) (probe : Bool) (left : ℕ)
      (layouts : List (List InstructionLayout))
      → HaveTargets (length plan.blocks) container plan.blocks
      → HaveSizes plan.blocks layouts
      → pending plan.blocks layouts < left
      → ((result : Layout) × (iterate plan base container probe left layouts ≡ ok result))
        ⊎ ((e : Failure) × (iterate plan base container probe left layouts ≡ err e)
            × IsTooLarge probe e)
  iterate_total plan base container probe zero layouts t s p = absurd (omega arith)
  iterate_total plan base container probe (suc left) layouts t s p =
      let placed = assign_blocks layouts base in
      let sizes = assign_blocks-HaveSizes plan.blocks layouts base s in
      elim (Result-cases (widen_blocks placed.1 container probe plan.blocks placed.0)) [
        | inr (e, f) ↦
            let here =
              subst (λ n. HaveTargets n container plan.blocks)
                (sym (length-assign_blocks plan.blocks layouts base s)) t in
            inr (
              e,
              iterate_fails plan base container probe left layouts e f,
              widen_blocks-IsTooLarge placed.1 container probe plan.blocks placed.0 e here sizes f,
            )
        | inl ((layouts', false), f) ↦
            inl (_, iterate_ends plan base container probe left layouts layouts' f)
        | inl ((layouts', true), f) ↦
            let fallen =
              widen_blocks_falls placed.1 container probe plan.blocks placed.0 layouts' true f in
            let kept = assign_blocks_keeps plan.blocks layouts base in
            let same = iterate_grows plan base container probe left layouts layouts' f in
            elim (iterate_total plan base container probe left layouts' t
              (widen_blocks-HaveSizes placed.1 container probe plan.blocks placed.0 layouts' true f
                sizes)
              (omega arith)) [
                | inl (result, g) ↦ inl (result, same ∙ g)
                | inr (e, g, large) ↦ inr (e, same ∙ g, large)
              ]
      ]

  -- Where the target of every branch exists and fewer than 16 instructions have an inverse, `lay_out`
  -- neither panics nor gives up: it returns a layout, or it reports a displacement that is too large.
  pub lay_out_total :
      (plan : RewritePlan I) (base : ℕ) (container : Option Container)
      → HaveTargets (length plan.blocks) container plan.blocks
      → widenable_blocks plan.blocks < max_layout_iterations
      → ((result : Layout) × (lay_out plan base container ≡ ok result))
        ⊎ ((here target : ℕ) × (displacement : ℤ) × (lay_out plan base container
              ≡ err (error (displacement_too_large here target displacement))))
  unfolding lay_out lay_out_inner IsTooLarge
  lay_out_total plan base container t p =
      elim (iterate_total plan base container false max_layout_iterations (initial_layouts plan) t
        (initial_layouts-HaveSizes plan) (rw (pending-initial_layouts plan) p)) [
          | inl r ↦ inl r
          | inr (e, f, (_, here, target, displacement, g)) ↦
              inr (here, target, displacement, f ∙ ap err g)
        ]

  -- Under the same conditions the size probe always returns a layout.
  pub lay_out_for_size_total :
      (plan : RewritePlan I) (base : ℕ) (container : Option Container)
      → HaveTargets (length plan.blocks) container plan.blocks
      → widenable_blocks plan.blocks < max_layout_iterations
      → (result : Layout) × (lay_out_for_size plan base container ≡ ok result)
  unfolding lay_out_for_size lay_out_inner IsTooLarge
  lay_out_for_size_total plan base container t p =
      elim (iterate_total plan base container true max_layout_iterations (initial_layouts plan) t
        (initial_layouts-HaveSizes plan) (rw (pending-initial_layouts plan) p)) [
          | inl r ↦ r
          | inr (e, f, large) ↦ absurd (cc)
        ]
