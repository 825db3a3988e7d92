-- ===== src/Mc/Cfg/Branches.antt =====
-- src/mc/cfg.rs: every direct branch within the slice becomes an edge of the graph.
use armv8_encode.Base.{
  ℕ, zero, suc, ◌+◌, ◌-◌, ◌≤◌, ◌<◌, ◌≡◌, ◌≢◌, refl, sym, ap, ◌∙◌, inl, inr, arith,
}
use armv8_encode.Base.{true, Option-cases, some_injective, mem-append_right}
use armv8_encode.Base.{none, some, List, [], ◌∷◌, length, get_elem?, ◌∈◌}
use armv8_encode.Base.{get_elem?-lt}
use armv8_encode.Mc.ControlFlow.{InstructionInfo, is_terminator, direct_target}
use armv8_encode.Mc.Cfg.{BasicBlock, ControlFlowGraph, Edge, block, build}
use armv8_encode.Mc.Cfg.{form_blocks, collect_leaders, resolve, block_edges, terminator_edges}
use armv8_encode.Mc.Cfg.{address_to_index, index_from}
use armv8_encode.Mc.Cfg.Leaders.{At, targeted, targets_terminate, mem-collect_leaders}
use armv8_encode.Mc.Cfg.Blocks.{IsBlock, IsTerminatorAt, terminator_of}
use armv8_encode.Mc.Cfg.Tiling.{Tiles, Tiles-mem, Tiles-covers}
use armv8_encode.Mc.Cfg.Starting.{leader-starts}
use armv8_encode.Mc.Cfg.Edges.{IsAttached-of}
use armv8_encode.Mc.Cfg.Edges.{resolve-found, resolve-IsBlockAt, terminator_edges-target}
use native.Mathlib.Decide.{dec_lt}
use armv8_encode.Mc.Cfg.Graph.{build-Built}

-- The block that ends with instruction `j` has an edge into the block that starts with `i`.
pub record HasEdge (g : ControlFlowGraph) (j i : ℕ) : Type 0 where
  pub b : BasicBlock
  pub listed : b ∈ g.blocks
  pub ends : b.instructions.end ≡ j + 1
  pub e : Edge
  pub out : e ∈ b.successors
  pub c : BasicBlock
  pub c_listed : c ∈ g.blocks
  pub into : e.target ≡ block c.id
  pub starts : c.instructions.start ≡ i

module _ {T : Type 0} ⦃info : InstructionInfo T⦄ where
  -- No two instructions have one address.
  abbrev pub IsDistinct : List T → Type 0
  IsDistinct instructions =
      (i j : ℕ) (x y : T)
      → At instructions i x
      → At instructions j y
      → info.address x ≡ info.address y
      → i ≡ j

  index_from-At :
      (index : ℕ) (xs : List T) (t : ℕ) {k : ℕ}
      → index_from index xs t ≡ some k
      → (m : ℕ) × (x : T) × (k ≡ index + m) × At xs m x × (info.address x ≡ t)
  unfolding index_from
  index_from-At index [] t e = cc
  index_from-At index (x ∷ xs) t {k} e = elim (Option-cases (index_from (index + 1) xs t)) [
    | inr (l, f) ↦
        let (m, y, q, a, d) = index_from-At (index + 1) xs t f in (suc m, y, ground arith, a, d)
    | inl f ↦ (0, x, ground arith, refl, ground arith)
  ]

  index_from-found :
      (index : ℕ) (xs : List T) (t m : ℕ) (x : T)
      → At xs m x
      → info.address x ≡ t
      → index_from index xs t ≢ none
  unfolding index_from
  index_from-found index [] t m x a e = cc
  index_from-found index (y ∷ xs) t zero x a e =
      let same : y ≡ x = some_injective a in
      let e' : info.address y ≡ t = ap (λ (z : T). info.address z) same ∙ e in ground arith
  index_from-found index (y ∷ xs) t (suc m) x a e =
      ground (arith, index_from-found (index + 1) xs t m x a e)

  address_to_index-distinct :
      (instructions : List T) (i : ℕ) (x : T)
      → IsDistinct instructions
      → At instructions i x
      → address_to_index instructions (info.address x) ≡ some i
  unfolding address_to_index
  address_to_index-distinct instructions i x d a =
      elim (Option-cases (index_from 0 instructions (info.address x))) [
        | inl f ↦ absurd (index_from-found 0 instructions (info.address x) i x a refl f)
        | inr (k, f) ↦
            let (m, y, q, b, e) = index_from-At 0 instructions (info.address x) f in
            let same : k ≡ i = omega (arith, d m i y x b a e) in f ∙ ap some same
      ]

  module _ (instructions : List T) (j i : ℕ) (x y : T) (distinct : IsDistinct instructions)
      (at_j : At instructions j x) (at_i : At instructions i y)
      (target : direct_target (info.control_flow x) ≡ some (info.address y)) where
    x-terminates : IsTerminatorAt instructions j
    x-terminates = record {
      x = x;
      at = at_j;
      terminates = targets_terminate (info.control_flow x) target;
    }

    -- The target is a leader.
    target-leads : i ∈ collect_leaders instructions
    target-leads = (mem-collect_leaders instructions i).1 (
        inl (record {
          j = j;
          x = x;
          from = omega arith;
          at = at_j;
          starts =
              targeted (info.address y) target
                (address_to_index-distinct instructions i y distinct at_i);
        }))

    -- The last instruction of the block around `j` is `x`.
    ends_at_x :
        (lo hi : ℕ) (b : BasicBlock)
        → IsBlock instructions lo hi b
        → lo ≤ j
        → j < hi
        → (hi ≡ j + 1) × (b.terminator ≡ some (info.control_flow x))
    ends_at_x lo hi b k l u = (
      hi_eq,
      k.terminator ∙ ap (λ (z : T). terminator_of (info.control_flow z)) same ∙ rw terminates,
    )
      where
        terminates : is_terminator (info.control_flow x) ≡ true
        terminates = targets_terminate (info.control_flow x) target

        hi_eq : hi ≡ j + 1
        hi_eq = elim (dec_lt (j + 1) hi) [
          | yes p ↦ absurd (k.straight j l p x-terminates)
          | no p ↦ omega arith
        ]

        same : k.last ≡ x
        same =
            let e : hi - 1 ≡ j = omega (arith, hi_eq) in
            some_injective (sym k.at_last ∙ ap (get_elem? instructions) e ∙ at_j)

    edges_of :
        (blocks : List BasicBlock) (b : BasicBlock) {edges : List Edge}
        → b.terminator ≡ some (info.control_flow x)
        → block_edges blocks b ≡ some edges
        → terminator_edges blocks b.end (info.control_flow x) ≡ some edges
    unfolding block_edges
    edges_of blocks b t h = rw (t, block_edges) at h

    -- What the target's address resolves to starts with instruction `i`.
    resolves :
        (blocks : List BasicBlock)
        → Tiles instructions 0 0 (length instructions) blocks
        → form_blocks instructions 0 (collect_leaders instructions) ≡ some blocks
        → (d : BasicBlock) × (d ∈ blocks)
          × (resolve blocks (info.address y) ≡ block d.id)
          × (d.instructions.start ≡ i)
    resolves blocks tiles formed =
        let (c, m, s) =
          leader-starts instructions 0 (collect_leaders instructions) formed i target-leads in
        let kc = Tiles-mem instructions 0 0 (length instructions) blocks c tiles m in
        let same : kc.first ≡ y =
          some_injective (sym kc.at_first ∙ ap (get_elem? instructions) s ∙ at_i) in
        let there : c.start ≡ info.address y = kc.starts ∙ ap (λ (z : T). info.address z) same in
        let (id, r) = resolve-found blocks (info.address y) c m there in
        let w = resolve-IsBlockAt blocks (info.address y) id r in
        let kd = Tiles-mem instructions 0 0 (length instructions) blocks w.b tiles w.listed in
        (
          w.b,
          w.listed,
          r ∙ ap block (sym w.named),
          distinct w.b.instructions.start i kd.first y kd.at_first at_i (sym kd.starts ∙ w.starts),
        )

    -- A direct branch of the slice to an instruction of the slice gives an edge from the block
    -- that it ends to the block that its target starts, where no two addresses are equal.
    pub build-HasEdge : {g : ControlFlowGraph} → build instructions ≡ some g → HasEdge g j i
    build-HasEdge {g} h =
        let fits : j < length instructions = get_elem?-lt instructions j at_j in
        let w = build-Built instructions (omega arith) h in
        let (b, m, l, u) = Tiles-covers instructions 0 0 _ w.blocks j w.tiles (omega arith) fits in
        let (end, t) =
          ends_at_x b.instructions.start b.instructions.end b
            (Tiles-mem instructions 0 0 _ w.blocks b w.tiles m) l u in
        let (b', m', a) = IsAttached-of w.blocks w.blocks b w.attached m in
        let (e, out, goes) =
          terminator_edges-target w.blocks b.end (info.control_flow x) (info.address y) target
            (edges_of w.blocks b t a.given) in
        let (d, n, r, s) = resolves w.blocks w.tiles w.formed in
        let (d', n', a') = IsAttached-of w.blocks w.blocks d w.attached n in
        let d_same : d'.id ≡ d.id = ap (λ (q : BasicBlock). q.id) a'.same in
        record {
          b = b';
          listed = m';
          ends = ap (λ (q : BasicBlock). q.instructions.end) a.same ∙ end;
          e = e;
          out = rw a.same (mem-append_right e b.successors a.edges out);
          c = d';
          c_listed = n';
          into = goes ∙ r ∙ ap block (sym d_same);
          starts = ap (λ (q : BasicBlock). q.instructions.start) a'.same ∙ s;
        }
