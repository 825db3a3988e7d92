-- ===== src/Mc/Cfg/Graph.antt =====
-- src/mc/cfg.rs: `build` and `predecessors_of`, as a whole.
use armv8_encode.Base.{ℕ, suc, ◌-◌, ◌≤◌, ◌<◌, ◌≡◌, refl, sym, ap, ◌∙◌, inl, inr, arith}
use armv8_encode.Base.{true, some_injective, mem-All}
use armv8_encode.Base.{some, List, [], ◌∷◌, ◌++◌, length, get_elem?, ◌∈◌}
use armv8_encode.Base.Partial.{>>=-eq-some}
use armv8_encode.Mc.ControlFlow.{ControlFlow, InstructionInfo, is_terminator}
use armv8_encode.Mc.Cfg.{BasicBlock, ControlFlowGraph, Edge, build}
use armv8_encode.Mc.Cfg.{form_blocks, collect_leaders, attach_successors, get_block}
use armv8_encode.Mc.Cfg.Blocks.{IsBlock}
use armv8_encode.Mc.Cfg.Tiling.{Tiles, collected-Tiles}
use armv8_encode.Mc.Cfg.Tiling.{Tiles-cons, Tiles-mem}
use armv8_encode.Mc.Cfg.Starting.{formed-no_edges}
use armv8_encode.Mc.Cfg.Edges.{
  IsAttached, attach_successors-cons, IsAttached-of, origin-of, attach_successors-some,
}
use armv8_encode.Mc.Cfg.Edges.{block_edges-some, block_edges-IsSound, IsSound}
use mathlib.Core.Path.{subst}

no_blocks :
    (T : Type 0) ⦃info : InstructionInfo T⦄ {g : ControlFlowGraph} (b : BasicBlock)
    → build {T = T} [] ≡ some g
    → ¬ (b ∈ g.blocks)
unfolding build
no_blocks T b h m =
    subst (λ l. b ∈ l) (ap (λ (q : ControlFlowGraph). q.blocks) (sym (some_injective h))) m

module _ {T : Type 0} ⦃info : InstructionInfo T⦄ where
  -- `build` on a slice with an instruction, taken apart.
  pub record Built (instructions : List T) (g : ControlFlowGraph) : Type 0 where
    pub blocks : List BasicBlock
    pub formed : form_blocks instructions 0 (collect_leaders instructions) ≡ some blocks
    pub tiles : Tiles instructions 0 0 (length instructions) blocks
    pub attached : attach_successors blocks blocks ≡ some g.blocks

  pub build-Built :
      (instructions : List T) {g : ControlFlowGraph}
      → 0 < length instructions
      → build instructions ≡ some g
      → Built instructions g
  unfolding build
  build-Built [] pos e = absurd (omega arith)
  build-Built (x ∷ xs) {g} pos e =
      let (bs, f, k) = >>=-eq-some (form_blocks (x ∷ xs) 0 (collect_leaders (x ∷ xs))) _ e in
      let (out, h, l) = >>=-eq-some (attach_successors bs bs) _ k in
      let (bs', f', t) = collected-Tiles (x ∷ xs) pos in
      let same : bs' ≡ bs = some_injective (sym f' ∙ f) in
      let g' : out ≡ g.blocks = ap (λ (q : ControlFlowGraph). q.blocks) (some_injective l) in
      record {
        blocks = bs;
        formed = f;
        tiles = subst (Tiles (x ∷ xs) 0 0 (length (x ∷ xs))) same t;
        attached = h ∙ ap some g';
      }

  terminator-IsTerminator :
      (instructions : List T) (lo hi : ℕ) (b : BasicBlock) (cf : ControlFlow)
      → IsBlock instructions lo hi b
      → b.terminator ≡ some cf
      → is_terminator cf ≡ true
  terminator-IsTerminator instructions lo hi b cf k e = let k' = k.terminator in ground arith

  build-some : (instructions : List T) → (g : ControlFlowGraph) × (build instructions ≡ some g)
  unfolding build
  build-some [] = (_, refl)
  build-some (x ∷ xs) =
      let (bs, f, t) = collected-Tiles (x ∷ xs) (omega arith) in
      let (out, h) = attach_successors-some bs bs (λ b m. block_edges-some bs b (λ cf e.
        terminator-IsTerminator (x ∷ xs) _ _ b cf (Tiles-mem (x ∷ xs) 0 0 _ bs b t m) e)) in
      (record { blocks = out }, rw (f, h))

  attached-IsBlock :
      (instructions : List T) (blocks : List BasicBlock) (lo hi : ℕ) (b b' : BasicBlock)
      → IsBlock instructions lo hi b
      → IsAttached blocks b b'
      → IsBlock instructions lo hi b'
  attached-IsBlock instructions blocks lo hi b b' k a = rw a.same (record {
    first = k.first;
    last = k.last;
    nonempty = k.nonempty;
    at_first = k.at_first;
    at_last = k.at_last;
    straight = k.straight;
    indices = k.indices;
    starts = k.starts;
    ends = k.ends;
    terminator = k.terminator;
  })

  attached-Tiles :
      (instructions : List T) (blocks : List BasicBlock) (id lo hi : ℕ) (bs : List BasicBlock)
      {out : List BasicBlock}
      → attach_successors blocks bs ≡ some out
      → Tiles instructions id lo hi bs
      → Tiles instructions id lo hi out
  attached-Tiles instructions blocks id lo hi [] {out} e t =
      let e' : [] ≡ out = unfold attach_successors in some_injective e in
      subst (Tiles instructions id lo hi) e' t
  attached-Tiles instructions blocks id lo hi (b ∷ bs) e (k, same, rest) =
      let (b', a, out', f, h) = attach_successors-cons blocks b bs e in
      rw h (
        Tiles-cons instructions id lo b.instructions.end hi b' out'
          (attached-IsBlock instructions blocks lo b.instructions.end b b' k a)
          (ap (λ (q : BasicBlock). q.id) a.same ∙ same)
          (attached-Tiles instructions blocks (suc id) b.instructions.end hi bs f rest))

  -- The graph is built on every slice, and its blocks, numbered in order from 0, tile the slice:
  -- each holds the instructions from where the one before ends, and at least one; its bounds are
  -- the address of its first instruction and the end of its last; no instruction but the last is
  -- a terminator, and the last gives the block's terminator if it is one.
  pub build-Tiles :
      (instructions : List T)
      → (g : ControlFlowGraph) × (build instructions ≡ some g)
        × Tiles instructions 0 0 (length instructions) g.blocks
  build-Tiles [] = (record { blocks = [] }, unfold build in refl, refl)
  build-Tiles (x ∷ xs) =
      let (g, e) = build-some (x ∷ xs) in
      let w = build-Built (x ∷ xs) (omega arith) e in
      (g, e, attached-Tiles (x ∷ xs) w.blocks 0 0 _ w.blocks w.attached w.tiles)

  -- Every edge into a block leads to a block of the graph that has the edge's id.
  pub build-IsSound :
      (instructions : List T) {g : ControlFlowGraph} (b : BasicBlock) (e : Edge)
      → build instructions ≡ some g
      → b ∈ g.blocks
      → e ∈ b.successors
      → IsSound g.blocks e
  build-IsSound [] b e h m n = absurd (no_blocks T b h m)
  build-IsSound (x ∷ xs) {g} b e h m n =
      let w = build-Built (x ∷ xs) (omega arith) h in
      let (o, i, a) = origin-of w.blocks w.blocks b w.attached m in
      let fresh = formed-no_edges (x ∷ xs) 0 (collect_leaders (x ∷ xs)) o w.formed i in
      let same : b.successors ≡ a.edges =
        ap (λ (q : BasicBlock). q.successors) a.same ∙ ap (λ (l : List Edge). l ++ a.edges) fresh in
      let sound : IsSound w.blocks e =
        mem-All (IsSound w.blocks) a.edges (block_edges-IsSound w.blocks o a.given)
          (subst (λ l. e ∈ l) same n) in
      λ id t.
        let (c, j, named) = sound id t in
        let (c', j', a') = IsAttached-of w.blocks w.blocks c w.attached j in
        (c', j', ap (λ (q : BasicBlock). q.id) a'.same ∙ named)

  Tiles-get_elem? :
      (instructions : List T) (id lo hi : ℕ) (bs : List BasicBlock) (b : BasicBlock)
      → Tiles instructions id lo hi bs
      → b ∈ bs
      → (id ≤ b.id) × (get_elem? bs (b.id - id) ≡ some b)
  Tiles-get_elem? instructions id lo hi [] b t m = absurd m
  Tiles-get_elem? instructions id lo hi (x ∷ bs) b (k, same, rest) (inl e) =
      let named : b.id ≡ id = ap (λ (q : BasicBlock). q.id) e ∙ same in
      let zero_off : b.id - id ≡ 0 = omega arith in (omega arith, rw zero_off (ap some (sym e)))
  Tiles-get_elem? instructions id lo hi (x ∷ bs) b (k, same, rest) (inr m) =
      let (l, g) = Tiles-get_elem? instructions (suc id) x.instructions.end hi bs b rest m in
      let off : b.id - id ≡ suc (b.id - suc id) = omega arith in (omega arith, rw off g)

  -- In a graph that was built, the id of a block is its index: `block` returns the block itself.
  pub build-get_block :
      (instructions : List T) {g : ControlFlowGraph} (b : BasicBlock)
      → build instructions ≡ some g
      → b ∈ g.blocks
      → get_block g b.id ≡ some b
  unfolding get_block
  build-get_block instructions {g} b h m =
      let (g', e, t) = build-Tiles instructions in
      let same : g' ≡ g = some_injective (sym e ∙ h) in
      let tiles =
        subst (λ (q : ControlFlowGraph). Tiles instructions 0 0 (length instructions) q.blocks) same
          t in
      let off : b.id ≡ b.id - 0 = omega arith in
      ap (get_elem? g.blocks) off
      ∙ (Tiles-get_elem? instructions 0 0 (length instructions) g.blocks b tiles m).1
