-- ===== src/Rewrite/Layout/Failures.antt =====
-- src/rewrite/layout.rs: how a pass of `widen_out_of_range` fails on a plan whose targets exist.
use armv8_encode.Base.{ℕ, ◌<◌, ◌≡◌, refl, sym, ap, ◌∙◌, ◌⊎◌, inl, inr}
use armv8_encode.Base.{Bool, false, Option, none, some, Option-cases}
use armv8_encode.Base.{List, [], ◌∷◌, length, get_elem?-some, Result, ok, err, arith}
use armv8_encode.Base.Int.{ℤ}
use armv8_encode.Container.{Container, SymbolId, callable_address_of_symbol}
use armv8_encode.Isa.{IsaTypes, Isa}
use armv8_encode.Rewrite.Ir.{Target, block, symbol, constant, absolute, RewriteInstruction}
use armv8_encode.Rewrite.Ir.{RewriteOp, instruction, macro, raw, RewriteBlock, first_branch}
use armv8_encode.Rewrite.Layout.{InstructionLayout, Failure, error, undefined_symbol}
use armv8_encode.Rewrite.Layout.{
  displacement_too_large, displacement_to, resolve_target, widen, check_range,
}
use armv8_encode.Rewrite.Layout.{chain, check_resolved, widen_op, widen_ops, widen_blocks}
use armv8_encode.Rewrite.Layout.Placement.{HasSizes, HaveSizes}

-- A target that exists in a plan of `n` blocks: one of its blocks, an absolute address, or a symbol
-- where there is a container.
unfoldable pub Exists : ℕ → Option Container → Target → Type 0
Exists n container (block id) = id < n
Exists n container (absolute address) = Unit
Exists n none (symbol id) = ⊥
Exists n (some c) (symbol id) = Unit
Exists n container (constant id) = ⊥

-- A branch that does not reach, in a run that is no size probe.
unfoldable pub IsTooLarge : Bool → Failure → Type 0
IsTooLarge probe e =
    (probe ≡ false)
    × (here target : ℕ) × (displacement : ℤ) × (e
        ≡ error (displacement_too_large here target displacement))

unfoldable IsResolved : Result Failure ℕ → Type 0
IsResolved r =
    ((address : ℕ) × (r ≡ ok address)) ⊎ ((id : SymbolId) × (r ≡ err (error (undefined_symbol id))))

resolve_target-IsResolved :
    (target : Target) (addresses : List ℕ) (container : Option Container)
    → Exists (length addresses) container target
    → IsResolved (resolve_target target addresses container)
unfolding Exists IsResolved resolve_target
resolve_target-IsResolved (block id) addresses container h =
    let (a, e) = get_elem?-some addresses id h in inl (a, rw e)
resolve_target-IsResolved (absolute address) addresses container h = inl (address, refl)
resolve_target-IsResolved (symbol id) addresses none h = absurd h
resolve_target-IsResolved (symbol id) addresses (some c) h =
    elim (Option-cases (callable_address_of_symbol c id)) [
      | inl e ↦ inr (id, rw e)
      | inr (a, e) ↦ inl (a, rw e)
    ]
resolve_target-IsResolved (constant id) addresses container h = absurd h

err_again :
    {X Y : Type 0} (x e : Failure)
    → ◌≡◌ {A = Result Failure X} (err x) (err e)
    → ◌≡◌ {A = Result Failure Y} (err x) (err e)
err_again x e h = cc

pub chain_fails :
    {X : Type 0} (first : Result Failure (X × Bool)) (rest : Result Failure (List X × Bool))
    (e : Failure)
    → chain first rest ≡ err e
    → (first ≡ err e) ⊎ (rest ≡ err e)
chain_fails (err x) rest e h = inl (err_again x e h)
chain_fails (ok a) (err x) e h = inr (err_again x e h)
chain_fails (ok a) (ok b) e h = cc

module _ {I : IsaTypes} ⦃isa : Isa I⦄ where
  -- The branch targets of the operations exist.
  unfoldable pub HasTargets : ℕ → Option Container → List (RewriteOp I) → Type 0
  HasTargets n container [] = Unit
  HasTargets n container (instruction i ∷ ops) =
      ((target : Target) → first_branch i.operands ≡ some target → Exists n container target)
      × HasTargets n container ops
  HasTargets n container (macro m ∷ ops) = HasTargets n container ops
  HasTargets n container (raw bytes ∷ ops) = HasTargets n container ops

  unfoldable pub HaveTargets : ℕ → Option Container → List (RewriteBlock I) → Type 0
  HaveTargets n container [] = Unit
  HaveTargets n container (b ∷ bs) = HasTargets n container b.ops × HaveTargets n container bs

  widen-IsTooLarge :
      (probe : Bool) (i : RewriteInstruction I) (l : InstructionLayout) (target : ℕ) (e : Failure)
      → widen probe i l target ≡ err e
      → IsTooLarge probe e
  unfolding widen IsTooLarge
  widen-IsTooLarge probe i l target e h =
      (ground arith, l.address, target, displacement_to target l.address, ground arith)

  check_range-IsTooLarge :
      (probe : Bool) (i : RewriteInstruction I) (l : InstructionLayout) (target : ℕ) (e : Failure)
      → check_range probe i l target ≡ err e
      → IsTooLarge probe e
  unfolding check_range
  check_range-IsTooLarge probe i l target e h = widen-IsTooLarge probe i l target e (ground arith)

  check_resolved-IsTooLarge :
      (probe : Bool) (i : RewriteInstruction I) (l : InstructionLayout) (r : Result Failure ℕ)
      (e : Failure)
      → IsResolved r
      → check_resolved probe i l r ≡ err e
      → IsTooLarge probe e
  unfolding check_resolved IsResolved
  check_resolved-IsTooLarge probe i l r e (inl (a, f)) h =
      check_range-IsTooLarge probe i l a e (sym (ap (check_resolved probe i l) f) ∙ h)
  check_resolved-IsTooLarge probe i l r e (inr (id, f)) h =
      let kept = sym (ap (check_resolved probe i l) f) ∙ h in cc

  widen_op-IsTooLarge :
      (addresses : List ℕ) (container : Option Container) (probe : Bool) (op : RewriteOp I)
      (ops : List (RewriteOp I)) (l : InstructionLayout) (e : Failure)
      → HasTargets (length addresses) container (op ∷ ops)
      → widen_op addresses container probe op l ≡ err e
      → IsTooLarge probe e
  unfolding widen_op HasTargets
  widen_op-IsTooLarge addresses container probe (instruction i) ops l e k h =
      elim (Option-cases (first_branch i.operands)) [
        | inl f ↦ absurd (ground arith)
        | inr (t, f) ↦
            check_resolved-IsTooLarge probe i l (resolve_target t addresses container) e
              (resolve_target-IsResolved t addresses container (k.0 t f)) (ground arith)
      ]
  widen_op-IsTooLarge addresses container probe (macro m) ops l e k h = cc
  widen_op-IsTooLarge addresses container probe (raw bytes) ops l e k h = cc

  head-HasTargets :
      (n : ℕ) (container : Option Container) (op : RewriteOp I) (ops : List (RewriteOp I))
      → HasTargets n container (op ∷ ops)
      → HasTargets n container ops
  unfolding HasTargets
  head-HasTargets n container (instruction i) ops h = h.1
  head-HasTargets n container (macro m) ops h = h
  head-HasTargets n container (raw bytes) ops h = h

  widen_ops-IsTooLarge :
      (addresses : List ℕ) (container : Option Container) (probe : Bool) (ops : List (RewriteOp I))
      (ls : List InstructionLayout) (e : Failure)
      → HasTargets (length addresses) container ops
      → HasSizes ops ls
      → widen_ops addresses container probe ops ls ≡ err e
      → IsTooLarge probe e
  unfolding widen_ops HasSizes
  widen_ops-IsTooLarge addresses container probe [] ls e k s h = cc
  widen_ops-IsTooLarge addresses container probe (op ∷ ops) [] e k s h = absurd s
  widen_ops-IsTooLarge addresses container probe (op ∷ ops) (l ∷ ls) e k s h =
      elim (chain_fails (widen_op addresses container probe op l)
        (widen_ops addresses container probe ops ls) e h) [
          | inl f ↦ widen_op-IsTooLarge addresses container probe op ops l e k f
          | inr f ↦
              widen_ops-IsTooLarge addresses container probe ops ls e
                (head-HasTargets (length addresses) container op ops k) s.1 f
        ]

  pub widen_blocks-IsTooLarge :
      (addresses : List ℕ) (container : Option Container) (probe : Bool)
      (bs : List (RewriteBlock I)) (lss : List (List InstructionLayout)) (e : Failure)
      → HaveTargets (length addresses) container bs
      → HaveSizes bs lss
      → widen_blocks addresses container probe bs lss ≡ err e
      → IsTooLarge probe e
  unfolding widen_blocks HaveSizes HaveTargets
  widen_blocks-IsTooLarge addresses container probe [] lss e k s h = cc
  widen_blocks-IsTooLarge addresses container probe (b ∷ bs) [] e k s h = absurd s
  widen_blocks-IsTooLarge addresses container probe (b ∷ bs) (ls ∷ lss) e k s h =
      elim (chain_fails (widen_ops addresses container probe b.ops ls)
        (widen_blocks addresses container probe bs lss) e h) [
          | inl f ↦ widen_ops-IsTooLarge addresses container probe b.ops ls e k.0 s.0 f
          | inr f ↦ widen_blocks-IsTooLarge addresses container probe bs lss e k.1 s.1 f
        ]
