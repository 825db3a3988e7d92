-- ===== src/Rewrite/Layout/Placement.antt =====
-- src/rewrite/layout.rs: where a finished layout puts the operations. Each is directly behind the one
-- before it, with the size of its source or of a widened branch.
use armv8_encode.Base.{ℕ, ◌≡◌, refl, ◌⊎◌, inl, Bool, true, false}
use armv8_encode.Base.{Option, List, [], ◌∷◌, map}
use armv8_encode.Base.{arith}
use armv8_encode.Base.Word.{wrapping_add}
use armv8_encode.Container.{Container}
use armv8_encode.Isa.{IsaTypes, Isa}
use armv8_encode.Rewrite.Ir.{RewriteOp, RewriteBlock, RewritePlan, source_byte_size}
use armv8_encode.Rewrite.Layout.{InstructionLayout, normal, inverted_conditional}
use armv8_encode.Rewrite.Layout.{assign_ops, assign_blocks, initial_layout, initial_layouts}
use armv8_encode.Rewrite.Layout.Widening.{IsWidenable, Reaches, Step}

module _ {I : IsaTypes} ⦃isa : Isa I⦄ where
  -- The size of an operation, as it is in the source or widened.
  unfoldable pub HasSize : RewriteOp I → InstructionLayout → Type 0
  HasSize op l =
      ((l.strategy ≡ normal) × (l.size ≡ source_byte_size op))
      ⊎ ((l.strategy ≡ inverted_conditional)
          × IsWidenable op
          × (l.size ≡ isa.widened_conditional_size))

  unfoldable pub HasSizes : List (RewriteOp I) → List InstructionLayout → Type 0
  HasSizes [] [] = Unit
  HasSizes [] (l ∷ ls) = ⊥
  HasSizes (op ∷ ops) [] = ⊥
  HasSizes (op ∷ ops) (l ∷ ls) = HasSize op l × HasSizes ops ls

  unfoldable pub HaveSizes : List (RewriteBlock I) → List (List InstructionLayout) → Type 0
  HaveSizes [] [] = Unit
  HaveSizes [] (ls ∷ lss) = ⊥
  HaveSizes (b ∷ bs) [] = ⊥
  HaveSizes (b ∷ bs) (ls ∷ lss) = HasSizes b.ops ls × HaveSizes bs lss

  -- The operations lie one behind the other from the first address to the second.
  unfoldable pub IsPlaced : List (RewriteOp I) → List InstructionLayout → ℕ → ℕ → Type 0
  IsPlaced [] [] current end = current ≡ end
  IsPlaced [] (l ∷ ls) current end = ⊥
  IsPlaced (op ∷ ops) [] current end = ⊥
  IsPlaced (op ∷ ops) (l ∷ ls) current end =
      (l.address ≡ current) × HasSize op l × IsPlaced ops ls (wrapping_add current l.size) end

  -- So do the blocks, each at its address of the list.
  unfoldable pub ArePlaced :
      List (RewriteBlock I) → List ℕ → List (List InstructionLayout) → ℕ → ℕ → Type 0
  ArePlaced [] [] [] current end = current ≡ end
  ArePlaced (b ∷ bs) (address ∷ addresses) (ls ∷ lss) current end =
      (address ≡ current)
      × (middle : ℕ) × IsPlaced b.ops ls current middle
      × ArePlaced bs addresses lss middle end
  ArePlaced _ _ _ current end = ⊥

  -- A check of every operation.
  unfoldable pub AllReach :
      List ℕ → Option Container → List (RewriteOp I) → List InstructionLayout → Type 0
  AllReach addresses container [] ls = Unit
  AllReach addresses container (op ∷ ops) [] = ⊥
  AllReach addresses container (op ∷ ops) (l ∷ ls) =
      Reaches addresses container op l × AllReach addresses container ops ls

  unfoldable pub BlocksReach :
      List ℕ → Option Container → List (RewriteBlock I) → List (List InstructionLayout) → Type 0
  BlocksReach addresses container [] lss = Unit
  BlocksReach addresses container (b ∷ bs) [] = ⊥
  BlocksReach addresses container (b ∷ bs) (ls ∷ lss) =
      AllReach addresses container b.ops ls × BlocksReach addresses container bs lss

  initial-HasSizes : (ops : List (RewriteOp I)) → HasSizes ops (map initial_layout ops)
  unfolding HasSizes HasSize initial_layout
  initial-HasSizes [] = tt
  initial-HasSizes (op ∷ ops) = (inl (refl, refl), initial-HasSizes ops)

  initial-HaveSizes :
      (bs : List (RewriteBlock I)) → HaveSizes bs (map (λ b. map initial_layout b.ops) bs)
  unfolding HaveSizes
  initial-HaveSizes [] = tt
  initial-HaveSizes (b ∷ bs) = (initial-HasSizes b.ops, initial-HaveSizes bs)

  pub initial_layouts-HaveSizes :
      (plan : RewritePlan I) → HaveSizes plan.blocks (initial_layouts plan)
  unfolding initial_layouts
  initial_layouts-HaveSizes plan = initial-HaveSizes plan.blocks

  pub assign_ops-IsPlaced :
      (ops : List (RewriteOp I)) (ls : List InstructionLayout) (current : ℕ)
      → HasSizes ops ls
      → IsPlaced ops (assign_ops ls current).0 current (assign_ops ls current).1
  unfolding HasSizes HasSize IsPlaced assign_ops
  assign_ops-IsPlaced [] [] current h = refl
  assign_ops-IsPlaced [] (l ∷ ls) current h = absurd h
  assign_ops-IsPlaced (op ∷ ops) [] current h = absurd h
  assign_ops-IsPlaced (op ∷ ops) (l ∷ ls) current h =
      (refl, h.0, assign_ops-IsPlaced ops ls (wrapping_add current l.size) h.1)

  pub assign_ops-HasSizes :
      (ops : List (RewriteOp I)) (ls : List InstructionLayout) (current : ℕ)
      → HasSizes ops ls
      → HasSizes ops (assign_ops ls current).0
  unfolding HasSizes HasSize assign_ops
  assign_ops-HasSizes [] [] current h = tt
  assign_ops-HasSizes [] (l ∷ ls) current h = absurd h
  assign_ops-HasSizes (op ∷ ops) [] current h = absurd h
  assign_ops-HasSizes (op ∷ ops) (l ∷ ls) current h =
      (h.0, assign_ops-HasSizes ops ls (wrapping_add current l.size) h.1)

  pub assign_blocks-ArePlaced :
      (bs : List (RewriteBlock I)) (lss : List (List InstructionLayout)) (current : ℕ)
      → HaveSizes bs lss
      → ArePlaced bs
          (assign_blocks lss current).1
          (assign_blocks lss current).0
          current
          (assign_blocks lss current).2
  unfolding HaveSizes ArePlaced assign_blocks
  assign_blocks-ArePlaced [] [] current h = refl
  assign_blocks-ArePlaced [] (ls ∷ lss) current h = absurd h
  assign_blocks-ArePlaced (b ∷ bs) [] current h = absurd h
  assign_blocks-ArePlaced (b ∷ bs) (ls ∷ lss) current h = (
    refl,
    (assign_ops ls current).1,
    assign_ops-IsPlaced b.ops ls current h.0,
    assign_blocks-ArePlaced bs lss (assign_ops ls current).1 h.1,
  )

  pub assign_blocks-HaveSizes :
      (bs : List (RewriteBlock I)) (lss : List (List InstructionLayout)) (current : ℕ)
      → HaveSizes bs lss
      → HaveSizes bs (assign_blocks lss current).0
  unfolding HaveSizes assign_blocks
  assign_blocks-HaveSizes [] [] current h = tt
  assign_blocks-HaveSizes [] (ls ∷ lss) current h = absurd h
  assign_blocks-HaveSizes (b ∷ bs) [] current h = absurd h
  assign_blocks-HaveSizes (b ∷ bs) (ls ∷ lss) current h = (
    assign_ops-HasSizes b.ops ls current h.0,
    assign_blocks-HaveSizes bs lss (assign_ops ls current).1 h.1,
  )

  pub Step-HasSize :
      (op : RewriteOp I) (l l' : InstructionLayout) (grew : Bool)
      → Step op l l' grew
      → HasSize op l
      → HasSize op l'
  unfolding Step HasSize
  Step-HasSize op l l' false s h = rw s h
  Step-HasSize op l l' true s h = ground arith
