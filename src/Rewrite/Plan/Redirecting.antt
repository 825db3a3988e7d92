-- ===== src/Rewrite/Plan/Redirecting.antt =====
-- src/rewrite/plan.rs: what `redirect_branch` does to the operation at its address, and to the sizes
-- that layout starts from.
use armv8_encode.Base.{ℕ, zero, suc, ◌≡◌, refl, sym, ap, ◌∙◌, inl, inr, Option, none, some}
use armv8_encode.Base.{Option-cases, some_injective, List, [], ◌∷◌, ◌++◌, map, get_elem?, set}
use armv8_encode.Base.{ok, ok_injective, true, arith}
use armv8_encode.Isa.{IsaTypes, Isa}
use armv8_encode.Rewrite.Ir.{Target, RewriteOperand, decoded, branch, page, RewriteInstruction}
use armv8_encode.Rewrite.Ir.{RewriteOp, instruction, macro, raw, RewritePlan}
use armv8_encode.Rewrite.Ir.{matches_source_address, first_pc_relative}
use armv8_encode.Rewrite.Ir.{source_byte_size, instruction_size}
use armv8_encode.Rewrite.Layout.{initial_layout, initial_layouts}
use armv8_encode.Rewrite.Plan.{modify, op_at, write_op, edit_block, redirected}
use armv8_encode.Rewrite.Plan.{redirect_operands, redirect_op, redirect_branch, operand_and}
use armv8_encode.Rewrite.Plan.Locating.{op_at_lem, op_at-write_op, write_op-locate}

map-set :
    {A B : Type 0} (f : A → B) (xs : List A) (i : ℕ) (x y : A)
    → get_elem? xs i ≡ some y
    → f x ≡ f y
    → map f (set xs i x) ≡ map f xs
map-set f [] i x y h e = cc
map-set f (z ∷ xs) zero x y h e = ap (λ b. b ∷ map f xs) (e ∙ ap f (sym (some_injective h)))
map-set f (z ∷ xs) (suc i) x y h e = ap (λ bs. f z ∷ bs) (map-set f xs i x y h e)

pub map-modify :
    {A B : Type 0} (f : A → B) (xs : List A) (i : ℕ) (g : A → A) (y : A)
    → get_elem? xs i ≡ some y
    → f (g y) ≡ f y
    → map f (modify xs i g) ≡ map f xs
map-modify f [] i g y h e = cc
map-modify f (z ∷ xs) zero g y h e =
    let same = some_injective h in
    ap (λ b. b ∷ map f xs) (ap (λ x. f (g x)) same ∙ e ∙ ap f (sym same))
map-modify f (z ∷ xs) (suc i) g y h e = ap (λ bs. f z ∷ bs) (map-modify f xs i g y h e)

module _ {I : IsaTypes} where
  -- The operand with its new target, of the same kind.
  unfoldable pub IsRetargeted : Target → RewriteOperand I → RewriteOperand I → Type 0
  IsRetargeted new_target (branch t) o = o ≡ branch new_target
  IsRetargeted new_target (page t) o = o ≡ page new_target
  IsRetargeted new_target (decoded d) o = ⊥

  -- The first operand with a target has the new one; those before and behind it are the same.
  pub record HasNewTarget (new_target : Target) (old new : List (RewriteOperand I)) : Type 0 where
    pub before : List (RewriteOperand I)
    pub replaced : RewriteOperand I
    pub replacement : RewriteOperand I
    pub after : List (RewriteOperand I)
    pub is_first : first_pc_relative before ≡ none
    pub retargeted : IsRetargeted new_target replaced replacement
    pub was : old ≡ before ++ (replaced ∷ after)
    pub is : new ≡ before ++ (replacement ∷ after)

  redirect_operands_lem :
      (new_target : Target) (os os' : List (RewriteOperand I))
      → redirect_operands new_target os ≡ some os'
      → HasNewTarget new_target os os'
  unfolding redirect_operands first_pc_relative IsRetargeted
  redirect_operands_lem t [] os' h = cc
  redirect_operands_lem t (branch x ∷ os) os' h = record {
    before = [];
    replaced = branch x;
    replacement = branch t;
    after = os;
    is_first = refl;
    retargeted = refl;
    was = refl;
    is = sym (some_injective h);
  }
  redirect_operands_lem t (page x ∷ os) os' h = record {
    before = [];
    replaced = page x;
    replacement = page t;
    after = os;
    is_first = refl;
    retargeted = refl;
    was = refl;
    is = sym (some_injective h);
  }
  redirect_operands_lem t (decoded d ∷ os) os' h = elim (Option-cases (redirect_operands t os)) [
    | inl e ↦ absurd (ground arith)
    | inr (rest, e) ↦
        let same = some_injective (sym (ap (operand_and (decoded d)) e) ∙ h) in
        let r = redirect_operands_lem t os rest e in
        record {
          before = decoded d ∷ r.before;
          replaced = r.replaced;
          replacement = r.replacement;
          after = r.after;
          is_first = r.is_first;
          retargeted = r.retargeted;
          was = ap (λ xs. decoded d ∷ xs) r.was;
          is = sym same ∙ ap (λ xs. decoded d ∷ xs) r.is;
        }
  ]

  -- The write of a redirected instruction that `redirect_branch` ends with.
  unfoldable pub IsRedirect : RewritePlan I → ℕ → Target → RewritePlan I → Type 0
  IsRedirect plan address new_target plan' =
      (i : RewriteInstruction I) × (os : List (RewriteOperand I)) × (op_at plan address
        ≡ some (instruction i))
      × HasNewTarget new_target i.operands os
      × (plan' ≡ write_op plan address (instruction (record i { operands = os })))

  redirect_op-IsRedirect :
      (plan : RewritePlan I) (address : ℕ) (new_target : Target) (op : Option (RewriteOp I))
      (plan' : RewritePlan I)
      → op_at plan address ≡ op
      → redirect_op plan address new_target op ≡ ok plan'
      → IsRedirect plan address new_target plan'
  unfolding redirect_op IsRedirect
  redirect_op-IsRedirect plan address t none plan' e h = cc
  redirect_op-IsRedirect plan address t (some (macro m)) plan' e h = cc
  redirect_op-IsRedirect plan address t (some (raw bytes)) plan' e h = cc
  redirect_op-IsRedirect plan address t (some (instruction i)) plan' e h =
      elim (Option-cases (redirect_operands t i.operands)) [
        | inl f ↦ absurd (ground arith)
        | inr (os, f) ↦
            let same = ok_injective (sym (ap (redirected plan address i) f) ∙ h) in
            (i, os, e, redirect_operands_lem t i.operands os f, sym same)
      ]

  matches_again :
      (i : RewriteInstruction I) (os : List (RewriteOperand I)) (address : ℕ)
      → matches_source_address (instruction i) address ≡ true
      → matches_source_address (instruction (record i { operands = os })) address ≡ true
  unfolding matches_source_address
  matches_again i os address h = h

  -- Where `redirect_branch` succeeds, the operation at the address was an instruction and still is one:
  -- the first of its operands that has a target has the new one, and its other operands, its mnemonic,
  -- its original address and its size are the same.
  pub redirect_branch_lem :
      (plan plan' : RewritePlan I) (address : ℕ) (new_target : Target)
      → redirect_branch plan address new_target ≡ ok plan'
      → (i j : RewriteInstruction I) × (op_at plan address ≡ some (instruction i))
        × (op_at plan' address ≡ some (instruction j))
        × HasNewTarget new_target i.operands j.operands
        × (j.mnemonic ≡ i.mnemonic)
        × (j.original_address ≡ i.original_address)
        × (j.source_size ≡ i.source_size)
  unfolding redirect_branch IsRedirect
  redirect_branch_lem plan plan' address t h =
      let (i, os, e, f, g) =
        redirect_op-IsRedirect plan address t (op_at plan address) plan' refl h in
      let (b, n, x, l, at_b, at_i, m) = op_at_lem plan address (instruction i) e in
      let j : RewriteInstruction I = record i { operands = os } in
      let found =
        op_at-write_op plan address (instruction i) (instruction j) e
          (matches_again i os address m) in
      (i, j, e, ap (λ p. op_at p address) g ∙ found, f, refl, refl, refl)

module _ {I : IsaTypes} ⦃isa : Isa I⦄ where
  -- A redirected branch leaves all sizes alone: layout starts from the same layouts.
  pub initial_layouts-redirect_branch :
      (plan plan' : RewritePlan I) (address : ℕ) (new_target : Target)
      → redirect_branch plan address new_target ≡ ok plan'
      → initial_layouts plan' ≡ initial_layouts plan
  unfolding redirect_branch IsRedirect initial_layouts edit_block initial_layout source_byte_size
      instruction_size
  initial_layouts-redirect_branch plan plan' address t h =
      let (i, os, e, f, g) =
        redirect_op-IsRedirect plan address t (op_at plan address) plan' refl h in
      let (b, n, x, l, at_b, at_i, m) = op_at_lem plan address (instruction i) e in
      let written = write_op-locate plan address b n (instruction (record i { operands = os })) l in
      ap initial_layouts (g ∙ written)
      ∙ map-modify (λ y. map initial_layout y.ops) plan.blocks b
          (λ y. record y { ops = set y.ops n (instruction (record i { operands = os })) }) x at_b
          (map-set initial_layout x.ops n (instruction (record i { operands = os })) (instruction i)
            at_i refl)
