-- ===== src/Rewrite/Layout/Scattered.antt =====
-- src/rewrite/layout.rs: what `lay_out_scattered` has established when it returns a layout.
use mathlib.Core.Path.{subst}
use armv8_encode.Base.{ℕ, ◌≡◌, refl, sym, ap, ◌∙◌, Bool, true, false, Option, All}
use armv8_encode.Base.{List, [], ◌∷◌, map, ok, ok_injective, >>=-eq-ok}
use armv8_encode.Base.Word.{wrapping_add}
use armv8_encode.Container.{Container}
use armv8_encode.Isa.{IsaTypes, Isa}
use armv8_encode.Rewrite.Ir.{RewriteOp, RewriteBlock, RewritePlan}
use armv8_encode.Rewrite.Layout.{InstructionLayout, Layout, normal, assign_ops}
use armv8_encode.Rewrite.Layout.{initial_layout, initial_layouts, widen_blocks}
use armv8_encode.Rewrite.Layout.{widen_out_of_range, scatter, scattered, total_size_of}
use armv8_encode.Rewrite.Layout.{lay_out_scattered}
use armv8_encode.Rewrite.Layout.Placement.{HaveSizes, IsPlaced, BlocksReach}
use armv8_encode.Rewrite.Layout.Placement.{initial_layouts-HaveSizes, assign_ops-IsPlaced}
use armv8_encode.Rewrite.Layout.Passes.{widen_blocks_same, widen_blocks-BlocksReach}

unfoldable pub IsNormal : InstructionLayout → Type 0
IsNormal l = l.strategy ≡ normal

assign_ops-IsNormal :
    (ls : List InstructionLayout) (current : ℕ)
    → All IsNormal ls
    → All IsNormal (assign_ops ls current).0
unfolding IsNormal assign_ops
assign_ops-IsNormal [] current h = tt
assign_ops-IsNormal (l ∷ ls) current h =
    (h.0, assign_ops-IsNormal ls (wrapping_add current l.size) h.1)

scattered_lem :
    (total : ℕ) (addresses : List ℕ) (widened : List (List InstructionLayout) × Bool)
    (result : Layout)
    → scattered total addresses widened ≡ ok result
    → (widened ≡ (result.instruction_layouts, false)) × (result.block_addresses ≡ addresses)
scattered_lem total addresses (layouts, true) result h = cc
scattered_lem total addresses (layouts, false) result h = (
  ap (λ r. (r.instruction_layouts, false)) (ok_injective h),
  ap (λ r. r.block_addresses) (sym (ok_injective h)),
)

module _ {I : IsaTypes} ⦃isa : Isa I⦄ where
  -- Every block lies at its address of the list, its operations one behind the other, none of them
  -- widened.
  unfoldable pub IsScattered :
      List (RewriteBlock I) → List ℕ → List (List InstructionLayout) → Type 0
  IsScattered [] addresses [] = Unit
  IsScattered (b ∷ bs) (address ∷ addresses) (ls ∷ lss) =
      ((end : ℕ) × IsPlaced b.ops ls address end) × All IsNormal ls × IsScattered bs addresses lss
  IsScattered _ _ _ = ⊥

  initial_ops-IsNormal : (ops : List (RewriteOp I)) → All IsNormal (map initial_layout ops)
  unfolding IsNormal initial_layout
  initial_ops-IsNormal [] = tt
  initial_ops-IsNormal (op ∷ ops) = (refl, initial_ops-IsNormal ops)

  initial_blocks-IsNormal :
      (bs : List (RewriteBlock I)) → All (All IsNormal) (map (λ b. map initial_layout b.ops) bs)
  initial_blocks-IsNormal [] = tt
  initial_blocks-IsNormal (b ∷ bs) = (initial_ops-IsNormal b.ops, initial_blocks-IsNormal bs)

  initial_layouts-IsNormal : (plan : RewritePlan I) → All (All IsNormal) (initial_layouts plan)
  unfolding initial_layouts
  initial_layouts-IsNormal plan = initial_blocks-IsNormal plan.blocks

  scatter-IsScattered :
      (bs : List (RewriteBlock I)) (addresses : List ℕ) (lss lss' : List (List InstructionLayout))
      → HaveSizes bs lss
      → All (All IsNormal) lss
      → scatter lss addresses ≡ ok lss'
      → IsScattered bs addresses lss'
  unfolding HaveSizes IsScattered scatter
  scatter-IsScattered [] addresses [] lss' k n h =
      subst (IsScattered [] addresses) (ok_injective h) tt
  scatter-IsScattered [] addresses (ls ∷ lss) lss' k n h = absurd k
  scatter-IsScattered (b ∷ bs) addresses [] lss' k n h = absurd k
  scatter-IsScattered (b ∷ bs) [] (ls ∷ lss) lss' k n h = cc
  scatter-IsScattered (b ∷ bs) (address ∷ addresses) (ls ∷ lss) lss' k n h =
      let (rest, e, f) = >>=-eq-ok (scatter lss addresses) _ h in
      subst (IsScattered (b ∷ bs) (address ∷ addresses)) (ok_injective f) (
        ((assign_ops ls address).1, assign_ops-IsPlaced b.ops ls address k.0),
        assign_ops-IsNormal ls address n.0,
        scatter-IsScattered bs addresses lss rest k.1 n.1 e,
      )

  -- A layout that `lay_out_scattered` returns keeps the given addresses: every block lies at its own,
  -- its operations directly behind each other with their source sizes and none of them widened, and
  -- every branch whose target has an address and whose mnemonic has a range is in that range.
  pub lay_out_scattered_sound :
      (plan : RewritePlan I) (addresses : List ℕ) (container : Option Container) (result : Layout)
      → lay_out_scattered plan addresses container ≡ ok result
      → IsScattered plan.blocks addresses result.instruction_layouts
        × BlocksReach addresses container plan.blocks result.instruction_layouts
        × (result.block_addresses ≡ addresses)
  unfolding lay_out_scattered widen_out_of_range
  lay_out_scattered_sound plan addresses container result h =
      let (layouts, e, f) = >>=-eq-ok (scatter (initial_layouts plan) addresses) _ h in
      let (widened, g, r) =
        >>=-eq-ok (widen_blocks addresses container false plan.blocks layouts) _ f in
      let (w, same) = scattered_lem (total_size_of layouts) addresses widened result r in
      let g' = g ∙ ap ok w in
      let kept =
        widen_blocks_same addresses container false plan.blocks layouts result.instruction_layouts
          g' in
      let placed =
        scatter-IsScattered plan.blocks addresses (initial_layouts plan) layouts
          (initial_layouts-HaveSizes plan) (initial_layouts-IsNormal plan) e in
      let reach =
        widen_blocks-BlocksReach addresses container plan.blocks layouts result.instruction_layouts
          g' in
      (
        subst (IsScattered plan.blocks addresses) (sym kept) placed,
        subst (BlocksReach addresses container plan.blocks) (sym kept) reach,
        same,
      )
