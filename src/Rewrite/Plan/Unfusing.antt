-- ===== src/Rewrite/Plan/Unfusing.antt =====
-- src/rewrite/plan.rs: that splitting a fused operation keeps the code of the plan.
use armv8_encode.Base.{ℕ, zero, suc, ◌≡◌, refl, sym, ap, ◌∙◌, ◌⊎◌, inl, inr, Bool-cases}
use armv8_encode.Base.{Option, none, some, Option-cases, some_injective}
use armv8_encode.Base.{List, [], ◌∷◌, ◌++◌, map, get_elem?, arith}
use armv8_encode.Base.{append_assoc}
use armv8_encode.Isa.{IsaTypes}
use armv8_encode.Rewrite.Ir.{RewriteInstruction, RewriteOp, instruction, macro, raw, RewriteBlock}
use armv8_encode.Rewrite.Ir.{RewritePlan}
use armv8_encode.Rewrite.Plan.{splice_at, locate, op_of, edit_block, unfused, spliced}
use armv8_encode.Rewrite.Plan.{unfuse_macro_at, begins_at}
use armv8_encode.Rewrite.Plan.Locating.{locate-op_at}
use armv8_encode.Rewrite.Plan.Redirecting.{map-modify}

module _ {I : IsaTypes} where
  -- The source instructions of operations, a fused one being those it was made of, and the raw bytes.
  unfoldable pub code_of : RewriteOp I → List (RewriteInstruction I ⊎ List ℕ)
  code_of (instruction i) = inl i ∷ []
  code_of (macro m) = map inl m.original_instructions
  code_of (raw bytes) = inr bytes ∷ []

  unfoldable pub code_of_ops : List (RewriteOp I) → List (RewriteInstruction I ⊎ List ℕ)
  code_of_ops [] = []
  code_of_ops (op ∷ ops) = code_of op ++ code_of_ops ops

  unfoldable pub code_of_plan : RewritePlan I → List (List (RewriteInstruction I ⊎ List ℕ))
  code_of_plan plan = map (λ b. code_of_ops b.ops) plan.blocks

  code_of_ops-append :
      (ops new : List (RewriteOp I)) → code_of_ops (new ++ ops) ≡ code_of_ops new ++ code_of_ops ops
  unfolding code_of_ops
  code_of_ops-append ops [] = refl
  code_of_ops-append ops (op ∷ new) =
      ap (λ l. code_of op ++ l) (code_of_ops-append ops new)
      ∙ sym (append_assoc (code_of op) (code_of_ops new) (code_of_ops ops))

  code_of_ops-splice_at :
      (ops : List (RewriteOp I)) (i : ℕ) (op : RewriteOp I) (new : List (RewriteOp I))
      → get_elem? ops i ≡ some op
      → code_of_ops new ≡ code_of op
      → code_of_ops (splice_at ops i new) ≡ code_of_ops ops
  unfolding code_of_ops
  code_of_ops-splice_at [] i op new h e = cc
  code_of_ops-splice_at (x ∷ ops) zero op new h e =
      code_of_ops-append ops new
      ∙ ap (λ l. l ++ code_of_ops ops) (e ∙ ap code_of (sym (some_injective h)))
  code_of_ops-splice_at (x ∷ ops) (suc i) op new h e =
      ap (λ l. code_of x ++ l) (code_of_ops-splice_at ops i op new h e)

  code_of_ops-map :
      (is : List (RewriteInstruction I)) → code_of_ops (map instruction is) ≡ map inl is
  unfolding code_of_ops code_of
  code_of_ops-map [] = refl
  code_of_ops-map (i ∷ is) = ap (λ l. inl i ∷ l) (code_of_ops-map is)

  code_of-unfused :
      (op : RewriteOp I) (address : ℕ) (new : List (RewriteOp I))
      → unfused (some op) address ≡ some new
      → code_of_ops new ≡ code_of op
  unfolding unfused code_of
  code_of-unfused (instruction i) address new h = cc
  code_of-unfused (raw bytes) address new h = cc
  code_of-unfused (macro m) address new h =
      elim (Bool-cases (begins_at m.original_instructions address)) [
        | inl e ↦
            let same : map instruction m.original_instructions ≡ new = ground arith in
            ap code_of_ops (sym same) ∙ code_of_ops-map m.original_instructions
        | inr e ↦ absurd (ground arith)
      ]

  spliced_keeps :
      (plan : RewritePlan I) (b i address : ℕ) (x : RewriteBlock I) (op : RewriteOp I)
      (new : Option (List (RewriteOp I)))
      → get_elem? plan.blocks b ≡ some x
      → get_elem? x.ops i ≡ some op
      → unfused (some op) address ≡ new
      → code_of_plan (spliced plan b i new) ≡ code_of_plan plan
  unfolding code_of_plan edit_block
  spliced_keeps plan b i address x op none at_b at_i e = refl
  spliced_keeps plan b i address x op (some new) at_b at_i e =
      map-modify (λ y. code_of_ops y.ops) plan.blocks b
        (λ y. record y { ops = splice_at y.ops i new }) x at_b
        (code_of_ops-splice_at x.ops i op new at_i (code_of-unfused op address new e))

  unfuses :
      (plan : RewritePlan I) (address b i : ℕ)
      → locate plan address ≡ some (b, i)
      → unfuse_macro_at plan address
        ≡ spliced plan b i (unfused (op_of (get_elem? plan.blocks b) i) address)
  unfolding unfuse_macro_at
  unfuses plan address b i e = rw (e, unfuse_macro_at)

  unfuses_nothing :
      (plan : RewritePlan I) (address : ℕ)
      → locate plan address ≡ none
      → unfuse_macro_at plan address ≡ plan
  unfolding unfuse_macro_at
  unfuses_nothing plan address e = ground arith

  -- `unfuse_macro_at` keeps the code of every block, whether or not there is a macro to split: the same
  -- source instructions and raw bytes in the same order.
  pub code_of_plan-unfuse_macro_at :
      (plan : RewritePlan I) (address : ℕ)
      → code_of_plan (unfuse_macro_at plan address) ≡ code_of_plan plan
  code_of_plan-unfuse_macro_at plan address = elim (Option-cases (locate plan address)) [
    | inl e ↦ ap code_of_plan (unfuses_nothing plan address e)
    | inr ((b, i), e) ↦
        let (x, op, at, at_b, at_i) = locate-op_at plan address b i e in
        let here : op_of (get_elem? plan.blocks b) i ≡ some op = ap (λ o. op_of o i) at_b ∙ at_i in
        ap code_of_plan (unfuses plan address b i e)
        ∙ spliced_keeps plan b i address x op (unfused (op_of (get_elem? plan.blocks b) i) address)
            at_b at_i (ap (λ o. unfused o address) (sym here))
  ]
