-- ===== src/Rewrite/Layout/Pending.antt =====
-- src/rewrite/layout.rs: the number of operations that can still be widened, which falls in every
-- round that grows.
use armv8_encode.Base.{ℕ, ◌+◌, ◌≤◌, ◌≡◌, refl}
use armv8_encode.Base.{Bool, true, false, if◌then◌else◌, Option, none, some, List, [], ◌∷◌, map}
use armv8_encode.Base.{ok, arith}
use armv8_encode.Base.Word.{wrapping_add}
use armv8_encode.Container.{Container}
use armv8_encode.Isa.{IsaTypes, Isa}
use armv8_encode.Rewrite.Ir.{RewriteOp, instruction, macro, raw, RewriteBlock, RewritePlan}
use armv8_encode.Rewrite.Layout.{InstructionLayout, EmitStrategy, normal, inverted_conditional}
use armv8_encode.Rewrite.Layout.{assign_ops, assign_blocks, initial_layout, initial_layouts}
use armv8_encode.Rewrite.Layout.{widen_op, widen_ops, widen_blocks}
use armv8_encode.Rewrite.Layout.Widening.{IsWidenable, Step, widen_op-Step}
use armv8_encode.Rewrite.Layout.Passes.{Chained, Chained-of}

abbrev is_some : {A : Type 0} → Option A → ℕ
is_some none = 0
is_some (some a) = 1

abbrev one_if : Bool → ℕ
one_if b = if b then 1 else 0

abbrev if_normal : EmitStrategy → ℕ → ℕ
if_normal normal n = n
if_normal inverted_conditional n = 0

module _ {I : IsaTypes} ⦃isa : Isa I⦄ where
  -- 1 for an operation that can be widened.
  unfoldable pub widenable : RewriteOp I → ℕ
  widenable (instruction i) = is_some (isa.invert_conditional_branch i.mnemonic)
  widenable (macro m) = 0
  widenable (raw bytes) = 0

  unfoldable pub widenable_ops : List (RewriteOp I) → ℕ
  widenable_ops [] = 0
  widenable_ops (op ∷ ops) = widenable op + widenable_ops ops

  unfoldable pub widenable_blocks : List (RewriteBlock I) → ℕ
  widenable_blocks [] = 0
  widenable_blocks (b ∷ bs) = widenable_ops b.ops + widenable_blocks bs

  pending_op : RewriteOp I → InstructionLayout → ℕ
  pending_op op l = if_normal l.strategy (widenable op)

  pending_ops : List (RewriteOp I) → List InstructionLayout → ℕ
  pending_ops [] ls = 0
  pending_ops (op ∷ ops) [] = 0
  pending_ops (op ∷ ops) (l ∷ ls) = pending_op op l + pending_ops ops ls

  pub pending : List (RewriteBlock I) → List (List InstructionLayout) → ℕ
  pending [] lss = 0
  pending (b ∷ bs) [] = 0
  pending (b ∷ bs) (ls ∷ lss) = pending_ops b.ops ls + pending bs lss

  pending_op-Step :
      (op : RewriteOp I) (l l' : InstructionLayout) (grew : Bool)
      → Step op l l' grew
      → pending_op op l' + one_if grew ≤ pending_op op l
  unfolding Step pending_op widenable IsWidenable
  pending_op-Step op l l' false s = rw s (omega arith)
  pending_op-Step (instruction i) l l' true s = ground arith
  pending_op-Step (macro m) l l' true s = absurd s.1
  pending_op-Step (raw bytes) l l' true s = absurd s.1

  widen_ops_falls :
      (addresses : List ℕ) (container : Option Container) (probe : Bool) (ops : List (RewriteOp I))
      (ls ls' : List InstructionLayout) (grew : Bool)
      → widen_ops addresses container probe ops ls ≡ ok (ls', grew)
      → pending_ops ops ls' + one_if grew ≤ pending_ops ops ls
  unfolding widen_ops pending_ops Chained
  widen_ops_falls addresses container probe [] ls ls' grew h = ground arith
  widen_ops_falls addresses container probe (op ∷ ops) [] ls' grew h = cc
  widen_ops_falls addresses container probe (op ∷ ops) (l ∷ ls) ls' grew h =
      let (l₁, g₁, ls₂, g₂, e₁, e₂, e, f) =
        Chained-of (widen_op addresses container probe op l)
          (widen_ops addresses container probe ops ls) ls' grew h in
      let head =
        pending_op-Step op l l₁ g₁ (widen_op-Step addresses container probe op l l₁ g₁ e₁) in
      let tail = widen_ops_falls addresses container probe ops ls ls₂ g₂ e₂ in
      rw (e, f) (ground arith)

  pub widen_blocks_falls :
      (addresses : List ℕ) (container : Option Container) (probe : Bool)
      (bs : List (RewriteBlock I)) (lss lss' : List (List InstructionLayout)) (grew : Bool)
      → widen_blocks addresses container probe bs lss ≡ ok (lss', grew)
      → pending bs lss' + one_if grew ≤ pending bs lss
  unfolding widen_blocks pending Chained
  widen_blocks_falls addresses container probe [] lss lss' grew h = ground arith
  widen_blocks_falls addresses container probe (b ∷ bs) [] lss' grew h = cc
  widen_blocks_falls addresses container probe (b ∷ bs) (ls ∷ lss) lss' grew h =
      let (ls₁, g₁, lss₂, g₂, e₁, e₂, e, f) =
        Chained-of (widen_ops addresses container probe b.ops ls)
          (widen_blocks addresses container probe bs lss) lss' grew h in
      let head = widen_ops_falls addresses container probe b.ops ls ls₁ g₁ e₁ in
      let tail = widen_blocks_falls addresses container probe bs lss lss₂ g₂ e₂ in
      rw (e, f) (ground arith)

  assign_ops_keeps :
      (ops : List (RewriteOp I)) (ls : List InstructionLayout) (current : ℕ)
      → pending_ops ops (assign_ops ls current).0 ≡ pending_ops ops ls
  unfolding pending_ops pending_op assign_ops
  assign_ops_keeps [] ls current = refl
  assign_ops_keeps (op ∷ ops) [] current = refl
  assign_ops_keeps (op ∷ ops) (l ∷ ls) current =
      rw (assign_ops_keeps ops ls (wrapping_add current l.size))

  pub assign_blocks_keeps :
      (bs : List (RewriteBlock I)) (lss : List (List InstructionLayout)) (current : ℕ)
      → pending bs (assign_blocks lss current).0 ≡ pending bs lss
  unfolding pending assign_blocks
  assign_blocks_keeps [] lss current = refl
  assign_blocks_keeps (b ∷ bs) [] current = refl
  assign_blocks_keeps (b ∷ bs) (ls ∷ lss) current =
      rw (assign_ops_keeps b.ops ls current, assign_blocks_keeps bs lss (assign_ops ls current).1)

  initial_ops :
      (ops : List (RewriteOp I)) → pending_ops ops (map initial_layout ops) ≡ widenable_ops ops
  unfolding pending_ops pending_op initial_layout widenable_ops
  initial_ops [] = refl
  initial_ops (op ∷ ops) = rw (initial_ops ops)

  initial_blocks :
      (bs : List (RewriteBlock I))
      → pending bs (map (λ b. map initial_layout b.ops) bs) ≡ widenable_blocks bs
  unfolding pending widenable_blocks
  initial_blocks [] = refl
  initial_blocks (b ∷ bs) = rw (initial_ops b.ops, initial_blocks bs)

  pub pending-initial_layouts :
      (plan : RewritePlan I)
      → pending plan.blocks (initial_layouts plan) ≡ widenable_blocks plan.blocks
  unfolding initial_layouts
  pending-initial_layouts plan = initial_blocks plan.blocks
