-- ===== src/Rewrite/Layout/Passes.antt =====
-- src/rewrite/layout.rs: a pass of `widen_out_of_range` over all operations.
use armv8_encode.Base.{ℕ, ◌≡◌, refl, sym, ap, ◌∙◌, Bool, true, false, ◌||◌}
use armv8_encode.Base.{Option, List, [], ◌∷◌}
use armv8_encode.Base.{Result, ok, err, ok_injective}
use armv8_encode.Container.{Container}
use armv8_encode.Isa.{IsaTypes, Isa}
use armv8_encode.Rewrite.Ir.{RewriteOp, RewriteBlock}
use armv8_encode.Rewrite.Layout.{InstructionLayout, Failure}
use armv8_encode.Rewrite.Layout.{chain, widen_op, widen_ops, widen_blocks}
use armv8_encode.Rewrite.Layout.Widening.{Step, widen_op-Step, widen_op-Reaches}
use armv8_encode.Rewrite.Layout.Placement.{HasSizes, HaveSizes, Step-HasSize}
use armv8_encode.Rewrite.Layout.Placement.{AllReach, BlocksReach}

or_false : (a b : Bool) → (a || b) ≡ false → (a ≡ false) × (b ≡ false)
or_false false b h = (refl, h)
or_false true b h = cc

-- A step at the head of a list, then a pass over the tail, as `widen_ops` and `widen_blocks` chain
-- them.
unfoldable pub Chained :
    {X : Type 0}
    → Result Failure (X × Bool)
    → Result Failure (List X × Bool)
    → List X
    → Bool
    → Type 0
Chained {X} first rest xs grew =
    (x : X) × (g : Bool) × (xs₂ : List X) × (g₂ : Bool) × (first ≡ ok (x, g))
    × (rest ≡ ok (xs₂, g₂))
    × (xs ≡ x ∷ xs₂)
    × (grew ≡ (g || g₂))

pub Chained-of :
    {X : Type 0} (first : Result Failure (X × Bool)) (rest : Result Failure (List X × Bool))
    (xs : List X) (grew : Bool)
    → chain first rest ≡ ok (xs, grew)
    → Chained first rest xs grew
unfolding Chained
Chained-of (err e) rest xs grew h = cc
Chained-of (ok a) (err e) xs grew h = cc
Chained-of (ok a) (ok b) xs grew h =
    let both = ok_injective h in
    (a.0, a.1, b.0, b.1, refl, refl, sym (ap (λ p. p.0) both), sym (ap (λ p. p.1) both))

-- Where nothing grew, neither part did.
chain_kept :
    {X : Type 0} (first : Result Failure (X × Bool)) (rest : Result Failure (List X × Bool))
    (xs : List X)
    → chain first rest ≡ ok (xs, false)
    → (x : X) × (xs₂ : List X) × (first ≡ ok (x, false)) × (rest ≡ ok (xs₂, false)) × (xs ≡ x ∷ xs₂)
unfolding Chained
chain_kept first rest xs h =
    let (x, g, xs₂, g₂, e₁, e₂, e, f) = Chained-of first rest xs false h in
    let (f₁, f₂) = or_false g g₂ (sym f) in
    (x, xs₂, e₁ ∙ ap (λ b. ok (x, b)) f₁, e₂ ∙ ap (λ b. ok (xs₂, b)) f₂, e)

module _ {I : IsaTypes} ⦃isa : Isa I⦄ where
  HasSizes-transport :
      (ops : List (RewriteOp I)) (ls ls' : List InstructionLayout)
      → ls' ≡ ls
      → HasSizes ops ls
      → HasSizes ops ls'
  HasSizes-transport ops ls ls' e k = rw e k

  HaveSizes-transport :
      (bs : List (RewriteBlock I)) (lss lss' : List (List InstructionLayout))
      → lss' ≡ lss
      → HaveSizes bs lss
      → HaveSizes bs lss'
  HaveSizes-transport bs lss lss' e k = rw e k

  pub widen_ops-HasSizes :
      (addresses : List ℕ) (container : Option Container) (probe : Bool) (ops : List (RewriteOp I))
      (ls ls' : List InstructionLayout) (grew : Bool)
      → widen_ops addresses container probe ops ls ≡ ok (ls', grew)
      → HasSizes ops ls
      → HasSizes ops ls'
  unfolding widen_ops HasSizes Chained
  widen_ops-HasSizes addresses container probe [] ls ls' grew h k =
      HasSizes-transport [] ls ls' (ap (λ p. p.0) (sym (ok_injective h))) k
  widen_ops-HasSizes addresses container probe (op ∷ ops) [] ls' grew h k = absurd k
  widen_ops-HasSizes addresses container probe (op ∷ ops) (l ∷ ls) ls' grew h k =
      let (l₁, g₁, ls₂, g₂, e₁, e₂, e, f) =
        Chained-of (widen_op addresses container probe op l)
          (widen_ops addresses container probe ops ls) ls' grew h in
      let head =
        Step-HasSize op l l₁ g₁ (widen_op-Step addresses container probe op l l₁ g₁ e₁) k.0 in
      let tail = widen_ops-HasSizes addresses container probe ops ls ls₂ g₂ e₂ k.1 in
      rw e (head, tail)

  pub widen_ops_same :
      (addresses : List ℕ) (container : Option Container) (probe : Bool) (ops : List (RewriteOp I))
      (ls ls' : List InstructionLayout)
      → widen_ops addresses container probe ops ls ≡ ok (ls', false)
      → ls' ≡ ls
  unfolding widen_ops Step
  widen_ops_same addresses container probe [] ls ls' h = ap (λ p. p.0) (sym (ok_injective h))
  widen_ops_same addresses container probe (op ∷ ops) [] ls' h = cc
  widen_ops_same addresses container probe (op ∷ ops) (l ∷ ls) ls' h =
      let (l₁, ls₂, e₁, e₂, e) =
        chain_kept (widen_op addresses container probe op l)
          (widen_ops addresses container probe ops ls) ls' h in
      let same = widen_op-Step addresses container probe op l l₁ false e₁ in
      let rest = widen_ops_same addresses container probe ops ls ls₂ e₂ in
      e ∙ ap (λ x. x ∷ ls₂) same ∙ ap (λ xs. l ∷ xs) rest

  pub widen_ops-AllReach :
      (addresses : List ℕ) (container : Option Container) (ops : List (RewriteOp I))
      (ls ls' : List InstructionLayout)
      → widen_ops addresses container false ops ls ≡ ok (ls', false)
      → AllReach addresses container ops ls
  unfolding widen_ops AllReach
  widen_ops-AllReach addresses container [] ls ls' h = tt
  widen_ops-AllReach addresses container (op ∷ ops) [] ls' h = cc
  widen_ops-AllReach addresses container (op ∷ ops) (l ∷ ls) ls' h =
      let (l₁, ls₂, e₁, e₂, e) =
        chain_kept (widen_op addresses container false op l)
          (widen_ops addresses container false ops ls) ls' h in
      (
        widen_op-Reaches addresses container op l l₁ e₁,
        widen_ops-AllReach addresses container ops ls ls₂ e₂,
      )

  pub widen_blocks-HaveSizes :
      (addresses : List ℕ) (container : Option Container) (probe : Bool)
      (bs : List (RewriteBlock I)) (lss lss' : List (List InstructionLayout)) (grew : Bool)
      → widen_blocks addresses container probe bs lss ≡ ok (lss', grew)
      → HaveSizes bs lss
      → HaveSizes bs lss'
  unfolding widen_blocks HaveSizes Chained
  widen_blocks-HaveSizes addresses container probe [] lss lss' grew h k =
      HaveSizes-transport [] lss lss' (ap (λ p. p.0) (sym (ok_injective h))) k
  widen_blocks-HaveSizes addresses container probe (b ∷ bs) [] lss' grew h k = absurd k
  widen_blocks-HaveSizes addresses container probe (b ∷ bs) (ls ∷ lss) lss' grew h k =
      let (ls₁, g₁, lss₂, g₂, e₁, e₂, e, f) =
        Chained-of (widen_ops addresses container probe b.ops ls)
          (widen_blocks addresses container probe bs lss) lss' grew h in
      let head = widen_ops-HasSizes addresses container probe b.ops ls ls₁ g₁ e₁ k.0 in
      let tail = widen_blocks-HaveSizes addresses container probe bs lss lss₂ g₂ e₂ k.1 in
      rw e (head, tail)

  pub widen_blocks_same :
      (addresses : List ℕ) (container : Option Container) (probe : Bool)
      (bs : List (RewriteBlock I)) (lss lss' : List (List InstructionLayout))
      → widen_blocks addresses container probe bs lss ≡ ok (lss', false)
      → lss' ≡ lss
  unfolding widen_blocks
  widen_blocks_same addresses container probe [] lss lss' h = ap (λ p. p.0) (sym (ok_injective h))
  widen_blocks_same addresses container probe (b ∷ bs) [] lss' h = cc
  widen_blocks_same addresses container probe (b ∷ bs) (ls ∷ lss) lss' h =
      let (ls₁, lss₂, e₁, e₂, e) =
        chain_kept (widen_ops addresses container probe b.ops ls)
          (widen_blocks addresses container probe bs lss) lss' h in
      let same = widen_ops_same addresses container probe b.ops ls ls₁ e₁ in
      let rest = widen_blocks_same addresses container probe bs lss lss₂ e₂ in
      e ∙ ap (λ x. x ∷ lss₂) same ∙ ap (λ xs. ls ∷ xs) rest

  pub widen_blocks-BlocksReach :
      (addresses : List ℕ) (container : Option Container) (bs : List (RewriteBlock I))
      (lss lss' : List (List InstructionLayout))
      → widen_blocks addresses container false bs lss ≡ ok (lss', false)
      → BlocksReach addresses container bs lss
  unfolding widen_blocks BlocksReach
  widen_blocks-BlocksReach addresses container [] lss lss' h = tt
  widen_blocks-BlocksReach addresses container (b ∷ bs) [] lss' h = cc
  widen_blocks-BlocksReach addresses container (b ∷ bs) (ls ∷ lss) lss' h =
      let (ls₁, lss₂, e₁, e₂, e) =
        chain_kept (widen_ops addresses container false b.ops ls)
          (widen_blocks addresses container false bs lss) lss' h in
      (
        widen_ops-AllReach addresses container b.ops ls ls₁ e₁,
        widen_blocks-BlocksReach addresses container bs lss lss₂ e₂,
      )
