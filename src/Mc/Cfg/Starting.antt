-- ===== src/Mc/Cfg/Starting.antt =====
-- src/mc/cfg.rs: that every leader starts a block of `form_blocks`, which has no edges yet.
use armv8_encode.Base.{ℕ, zero, suc, ◌+◌, ◌-◌, ◌≡◌, refl, sym, ◌∙◌, inl, inr, arith}
use armv8_encode.Base.{some_injective}
use armv8_encode.Base.{Option, none, some, List, [], ◌∷◌, ◌∈◌}
use armv8_encode.Mc.ControlFlow.{ControlFlow, InstructionInfo}
use armv8_encode.Mc.Cfg.{BasicBlock, find_terminator, form_block, form_blocks, next_leader}
use armv8_encode.Mc.Cfg.{block_of, block_found}
use armv8_encode.Base.Partial.{>>=-eq-some}
use mathlib.Core.Path.{subst}

module _ {T : Type 0} ⦃info : InstructionInfo T⦄ (instructions : List T) where
  block_of-start :
      (id lo hi : ℕ) (terminator : Option ControlFlow) {b : BasicBlock}
      → block_of instructions id lo hi terminator ≡ some b
      → (b.instructions.start ≡ lo) × (b.successors ≡ [])
  block_of-start id lo zero terminator e = ground arith
  block_of-start id lo (suc hi) terminator e = ground arith

  block_found-start :
      (id lo hi : ℕ) (found : Option (ℕ × ControlFlow)) {b : BasicBlock}
      → block_found instructions id lo hi found ≡ some b
      → (b.instructions.start ≡ lo) × (b.successors ≡ [])
  block_found-start id lo hi none e = block_of-start id lo hi none e
  block_found-start id lo hi (some (end_index, cf)) e = block_of-start id lo end_index (some cf) e

  form_block-start :
      (id lo hi : ℕ) {b : BasicBlock}
      → form_block instructions id lo hi ≡ some b
      → (b.instructions.start ≡ lo) × (b.successors ≡ [])
  unfolding form_block
  form_block-start id lo hi e =
      let (found, f, k) =
        >>=-eq-some (find_terminator instructions lo (hi - lo)) (block_found instructions id lo hi)
          e in
      block_found-start id lo hi found k

  -- Every leader starts a block.
  pub leader-starts :
      (id : ℕ) (leaders : List ℕ) {bs : List BasicBlock}
      → form_blocks instructions id leaders ≡ some bs
      → (l : ℕ) → l ∈ leaders
      → (b : BasicBlock) × (b ∈ bs) × (b.instructions.start ≡ l)
  unfolding form_blocks
  leader-starts id [] e l m = absurd m
  leader-starts id (x ∷ leaders) {bs} e l m =
      let (b, f, k) =
        >>=-eq-some (form_block instructions id x (next_leader instructions leaders)) _ e in
      let (rest, g, h) = >>=-eq-some (form_blocks instructions (id + 1) leaders) _ k in
      let whole : b ∷ rest ≡ bs = some_injective h in
      rw (← whole) (elim m [
        | inl same ↦ (b, inl refl, (form_block-start id x _ f).0 ∙ sym same)
        | inr i ↦ let (c, n, s) = leader-starts (id + 1) leaders g l i in (c, inr n, s)
      ])

  pub formed-no_edges :
      (id : ℕ) (leaders : List ℕ) {bs : List BasicBlock} (b : BasicBlock)
      → form_blocks instructions id leaders ≡ some bs
      → b ∈ bs
      → b.successors ≡ []
  unfolding form_blocks
  formed-no_edges id [] {bs} b e m = absurd (subst (λ l. b ∈ l) (sym (some_injective e)) m)
  formed-no_edges id (x ∷ leaders) {bs} b e m =
      let (c, f, k) =
        >>=-eq-some (form_block instructions id x (next_leader instructions leaders)) _ e in
      let (rest, g, h) = >>=-eq-some (form_blocks instructions (id + 1) leaders) _ k in
      elim (subst (λ l. b ∈ l) (sym (some_injective h)) m) [
        | inl same ↦ rw same (form_block-start id x _ f).1
        | inr i ↦ formed-no_edges (id + 1) leaders b g i
      ]
