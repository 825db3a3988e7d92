-- ===== src/Rewrite/Layout/Refusals.antt =====
-- src/rewrite/layout.rs: what a reported displacement says of the plan.
use armv8_encode.Base.{ℕ, zero, suc, ◌≡◌, sym, ap, ◌∙◌, ◌⊎◌, inl, inr, Bool, true, false}
use armv8_encode.Base.{Option, none, some, Option-cases, Bool-cases, List, [], ◌∷◌}
use armv8_encode.Base.{Result, ok, err, Result-cases, arith}
use armv8_encode.Base.Int.{ℤ}
use armv8_encode.Container.{Container}
use armv8_encode.Isa.{IsaTypes, Isa}
use armv8_encode.Rewrite.Ir.{Target, block, symbol, constant, absolute, RewriteInstruction}
use armv8_encode.Rewrite.Ir.{RewriteOp, instruction, macro, raw, RewriteBlock, RewritePlan}
use armv8_encode.Rewrite.Ir.{first_branch}
use armv8_encode.Rewrite.Layout.{InstructionLayout, Layout, inverted_conditional}
use armv8_encode.Rewrite.Layout.Passes.{widen_blocks-HaveSizes}
use armv8_encode.Rewrite.Layout.Placement.{ArePlaced, HaveSizes, initial_layouts-HaveSizes}
use armv8_encode.Rewrite.Layout.Placement.{assign_blocks-ArePlaced, assign_blocks-HaveSizes}
use armv8_encode.Rewrite.Layout.{Failure, error, displacement_too_large, displacement_to}
use armv8_encode.Rewrite.Layout.{is_in_range, resolve_target, effective_range, widen, check_range}
use armv8_encode.Rewrite.Layout.{check_resolved, widen_op, widen_ops, widen_blocks, assign_blocks}
use armv8_encode.Rewrite.Layout.{iterate, lay_out, lay_out_inner, max_layout_iterations}
use armv8_encode.Rewrite.Layout.{initial_layouts}
use armv8_encode.Rewrite.Layout.Failures.{chain_fails}
use armv8_encode.Rewrite.Layout.Reach.{iterate_fails, iterate_grows, iterate_ends}

-- No target resolves to such an error.
resolve_target_lem :
    (t : Target) (addresses : List ℕ) (container : Option Container) (here target : ℕ) (d : ℤ)
    → resolve_target t addresses container ≡ err (error (displacement_too_large here target d))
    → ⊥
unfolding resolve_target
resolve_target_lem (block id) addresses container here target d h = ground arith
resolve_target_lem (absolute a) addresses container here target d h = cc
resolve_target_lem (symbol id) addresses none here target d h = cc
resolve_target_lem (symbol id) addresses (some c) here target d h = ground arith
resolve_target_lem (constant id) addresses container here target d h = cc

same_error :
    {X Y : Type 0} (e f : Failure)
    → ◌≡◌ {A = Result Failure X} (err e) (err f)
    → ◌≡◌ {A = Result Failure Y} (err e) (err f)
same_error e f h = cc

module _ {I : IsaTypes} ⦃isa : Isa I⦄ where
  -- The instruction has a branch operand that leads to `target`, and lies at `here`; `d` is the
  -- displacement between them, it is out of the range of how the instruction is emitted, and that cannot
  -- be changed: the instruction has no inverse, or it is widened already.
  unfoldable pub IsStuck :
      List ℕ → Option Container → RewriteInstruction I → InstructionLayout → ℕ → ℕ → ℤ → Type 0
  IsStuck addresses container i l here target d =
      (t : Target) × (range : ℤ) × (first_branch i.operands ≡ some t)
      × (resolve_target t addresses container ≡ ok target)
      × (l.address ≡ here)
      × (effective_range I i.mnemonic l.strategy ≡ some range)
      × (d ≡ displacement_to target here)
      × (is_in_range d range ≡ false)
      × ((isa.invert_conditional_branch i.mnemonic ≡ none) ⊎ (l.strategy ≡ inverted_conditional))

  widen-report :
      (probe : Bool) (i : RewriteInstruction I) (l : InstructionLayout) (to here target : ℕ) (d : ℤ)
      → widen probe i l to ≡ err (error (displacement_too_large here target d))
      → (here ≡ l.address)
        × (target ≡ to)
        × (d ≡ displacement_to to l.address)
        × ((isa.invert_conditional_branch i.mnemonic ≡ none) ⊎ (l.strategy ≡ inverted_conditional))
  unfolding widen
  widen-report probe i l to here target d h =
      (ground arith, ground arith, ground arith, ground arith)

  check_range-IsStuck :
      (addresses : List ℕ) (container : Option Container) (probe : Bool) (i : RewriteInstruction I)
      (l : InstructionLayout) (t : Target) (to here target : ℕ) (d : ℤ)
      → first_branch i.operands ≡ some t
      → resolve_target t addresses container ≡ ok to
      → check_range probe i l to ≡ err (error (displacement_too_large here target d))
      → IsStuck addresses container i l here target d
  unfolding check_range IsStuck
  check_range-IsStuck addresses container probe i l t to here target d branches resolves h =
      elim (Option-cases (effective_range I i.mnemonic l.strategy)) [
        | inl e ↦ absurd (ground arith)
        | inr (range, e) ↦ elim (Bool-cases (is_in_range (displacement_to to l.address) range)) [
          | inl f ↦ absurd (ground arith)
          | inr f ↦
              let (p, q, r, s) = widen-report probe i l to here target d (ground arith) in
              let same : d ≡ displacement_to target here =
                r
                ∙ ap (λ x. displacement_to x l.address) (sym q)
                ∙ ap (displacement_to target) (sym p) in
              (
                t,
                range,
                branches,
                resolves ∙ ap ok (sym q),
                sym p,
                e,
                same,
                ap (λ x. is_in_range x range) r ∙ f,
                s,
              )
        ]
      ]

  passed_on :
      (probe : Bool) (i : RewriteInstruction I) (l : InstructionLayout) (failure : Failure)
      (here target : ℕ) (d : ℤ)
      → check_resolved probe i l (err failure) ≡ err (error (displacement_too_large here target d))
      → ◌≡◌ {A = Result Failure ℕ}
          (err failure)
          (err (error (displacement_too_large here target d)))
  unfolding check_resolved
  passed_on probe i l failure here target d h = ground arith

  check_resolved-IsStuck :
      (addresses : List ℕ) (container : Option Container) (probe : Bool) (i : RewriteInstruction I)
      (l : InstructionLayout) (t : Target) (here target : ℕ) (d : ℤ)
      → first_branch i.operands ≡ some t
      → check_resolved probe i l (resolve_target t addresses container)
        ≡ err (error (displacement_too_large here target d))
      → IsStuck addresses container i l here target d
  unfolding check_resolved
  check_resolved-IsStuck addresses container probe i l t here target d branches h =
      elim (Result-cases (resolve_target t addresses container)) [
        | inl (to, e) ↦
            check_range-IsStuck addresses container probe i l t to here target d branches e
              (sym (ap (check_resolved probe i l) e) ∙ h)
        | inr (failure, e) ↦ absurd (
            resolve_target_lem t addresses container here target d (
              e
              ∙ passed_on probe i l failure here target d
                  (sym (ap (check_resolved probe i l) e) ∙ h)))
      ]

  -- An operation of the list is an instruction that is stuck at its layout.
  unfoldable pub HasStuck :
      List ℕ → Option Container → List (RewriteOp I) → List InstructionLayout → ℕ → ℕ → ℤ → Type 0
  HasStuck addresses container (instruction i ∷ ops) (l ∷ ls) here target d =
      IsStuck addresses container i l here target d
      ⊎ HasStuck addresses container ops ls here target d
  HasStuck addresses container (_ ∷ ops) (l ∷ ls) here target d =
      HasStuck addresses container ops ls here target d
  HasStuck addresses container _ _ here target d = ⊥

  unfoldable pub BlocksHaveStuck :
      List ℕ
      → Option Container
      → List (RewriteBlock I)
      → List (List InstructionLayout)
      → ℕ
      → ℕ
      → ℤ
      → Type 0
  BlocksHaveStuck addresses container (b ∷ bs) (ls ∷ lss) here target d =
      HasStuck addresses container b.ops ls here target d
      ⊎ BlocksHaveStuck addresses container bs lss here target d
  BlocksHaveStuck addresses container _ _ here target d = ⊥

  -- The blocks lie one behind the other from the base, and an instruction of theirs is stuck there.
  unfoldable pub IsRefused : RewritePlan I → ℕ → Option Container → ℕ → ℕ → ℤ → Type 0
  IsRefused plan base container here target d =
      (addresses : List ℕ) × (layouts : List (List InstructionLayout)) × (end : ℕ) × ArePlaced
        plan.blocks addresses layouts base end
      × BlocksHaveStuck addresses container plan.blocks layouts here target d

  HasStuck-later :
      (addresses : List ℕ) (container : Option Container) (op : RewriteOp I)
      (ops : List (RewriteOp I)) (l : InstructionLayout) (ls : List InstructionLayout)
      (here target : ℕ) (d : ℤ)
      → HasStuck addresses container ops ls here target d
      → HasStuck addresses container (op ∷ ops) (l ∷ ls) here target d
  unfolding HasStuck
  HasStuck-later addresses container (instruction i) ops l ls here target d h = inr h
  HasStuck-later addresses container (macro m) ops l ls here target d h = h
  HasStuck-later addresses container (raw bytes) ops l ls here target d h = h

  widen_op-HasStuck :
      (addresses : List ℕ) (container : Option Container) (probe : Bool) (op : RewriteOp I)
      (ops : List (RewriteOp I)) (l : InstructionLayout) (ls : List InstructionLayout)
      (here target : ℕ) (d : ℤ)
      → widen_op addresses container probe op l ≡ err (error (displacement_too_large here target d))
      → HasStuck addresses container (op ∷ ops) (l ∷ ls) here target d
  unfolding widen_op HasStuck
  widen_op-HasStuck addresses container probe (instruction i) ops l ls here target d h =
      elim (Option-cases (first_branch i.operands)) [
        | inl e ↦ absurd (ground arith)
        | inr (t, e) ↦
            inl (
              check_resolved-IsStuck addresses container probe i l t here target d e (ground arith))
      ]
  widen_op-HasStuck addresses container probe (macro m) ops l ls here target d h = cc
  widen_op-HasStuck addresses container probe (raw bytes) ops l ls here target d h = cc

  widen_ops-HasStuck :
      (addresses : List ℕ) (container : Option Container) (probe : Bool) (ops : List (RewriteOp I))
      (ls : List InstructionLayout) (here target : ℕ) (d : ℤ)
      → widen_ops addresses container probe ops ls
        ≡ err (error (displacement_too_large here target d))
      → HasStuck addresses container ops ls here target d
  unfolding widen_ops
  widen_ops-HasStuck addresses container probe [] ls here target d h = cc
  widen_ops-HasStuck addresses container probe (op ∷ ops) [] here target d h = cc
  widen_ops-HasStuck addresses container probe (op ∷ ops) (l ∷ ls) here target d h =
      elim (chain_fails (widen_op addresses container probe op l)
        (widen_ops addresses container probe ops ls) (error (displacement_too_large here target d))
        h) [
          | inl f ↦ widen_op-HasStuck addresses container probe op ops l ls here target d f
          | inr f ↦
              HasStuck-later addresses container op ops l ls here target d
                (widen_ops-HasStuck addresses container probe ops ls here target d f)
        ]

  widen_blocks-HaveStuck :
      (addresses : List ℕ) (container : Option Container) (probe : Bool)
      (bs : List (RewriteBlock I)) (lss : List (List InstructionLayout)) (here target : ℕ) (d : ℤ)
      → widen_blocks addresses container probe bs lss
        ≡ err (error (displacement_too_large here target d))
      → BlocksHaveStuck addresses container bs lss here target d
  unfolding widen_blocks BlocksHaveStuck
  widen_blocks-HaveStuck addresses container probe [] lss here target d h = cc
  widen_blocks-HaveStuck addresses container probe (b ∷ bs) [] here target d h = cc
  widen_blocks-HaveStuck addresses container probe (b ∷ bs) (ls ∷ lss) here target d h =
      elim (chain_fails (widen_ops addresses container probe b.ops ls)
        (widen_blocks addresses container probe bs lss)
        (error (displacement_too_large here target d)) h) [
          | inl f ↦ inl (widen_ops-HasStuck addresses container probe b.ops ls here target d f)
          | inr f ↦ inr (widen_blocks-HaveStuck addresses container probe bs lss here target d f)
        ]

  iterate-IsRefused :
      (plan : RewritePlan I) (base : ℕ) (container : Option Container) (probe : Bool) (left : ℕ)
      (layouts : List (List InstructionLayout)) (here target : ℕ) (d : ℤ)
      → HaveSizes plan.blocks layouts
      → iterate plan base container probe left layouts
        ≡ err (error (displacement_too_large here target d))
      → IsRefused plan base container here target d
  unfolding IsRefused
  iterate-IsRefused plan base container probe zero layouts here target d k h =
      absurd (unfold iterate in cc)
  iterate-IsRefused plan base container probe (suc left) layouts here target d k h =
      let placed = assign_blocks layouts base in
      elim (Result-cases (widen_blocks placed.1 container probe plan.blocks placed.0)) [
        | inr (e, f) ↦
            let failed = sym (iterate_fails plan base container probe left layouts e f) ∙ h in
            (
              placed.1,
              placed.0,
              placed.2,
              assign_blocks-ArePlaced plan.blocks layouts base k,
              widen_blocks-HaveStuck placed.1 container probe plan.blocks placed.0 here target d
                  (f ∙ same_error e (error (displacement_too_large here target d)) failed),
            )
        | inl ((layouts', true), f) ↦
            iterate-IsRefused plan base container probe left layouts' here target d
              (widen_blocks-HaveSizes placed.1 container probe plan.blocks placed.0 layouts' true f
                (assign_blocks-HaveSizes plan.blocks layouts base k))
              (sym (iterate_grows plan base container probe left layouts layouts' f) ∙ h)
        | inl ((layouts', false), f) ↦
            let ended = sym (iterate_ends plan base container probe left layouts layouts' f) ∙ h in
            absurd (ok_is_no_error ended)
      ]
    where
      ok_is_no_error :
          {x : Layout} {e : Failure} → ◌≡◌ {A = Result Failure Layout} (ok x) (err e) → ⊥
      ok_is_no_error h = cc

  -- A displacement that `lay_out` reports is real: with the blocks placed one behind the other from the
  -- base, each operation with the size of its source or widened, an instruction of the plan lies at the
  -- reported address and its branch operand leads to the reported target. The displacement between
  -- them is out of the range of how the instruction is emitted, and the instruction has no inverse or
  -- was widened already.
  pub lay_out-IsRefused :
      (plan : RewritePlan I) (base : ℕ) (container : Option Container) (here target : ℕ) (d : ℤ)
      → lay_out plan base container ≡ err (error (displacement_too_large here target d))
      → IsRefused plan base container here target d
  unfolding lay_out lay_out_inner
  lay_out-IsRefused plan base container here target d h =
      iterate-IsRefused plan base container false max_layout_iterations (initial_layouts plan) here
        target d (initial_layouts-HaveSizes plan) h
