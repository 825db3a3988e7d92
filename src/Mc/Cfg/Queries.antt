-- ===== src/Mc/Cfg/Queries.antt =====
-- src/mc/cfg.rs: `predecessors_of` and `block_at`.
use armv8_encode.Base.{◌≡◌, refl, sym, ap, ◌∙◌, ◌↔◌, inl, inr, arith, true, Bool-cases}
use armv8_encode.Base.{List, [], ◌∷◌, ◌∈◌, ==_iff}
use armv8_encode.Mc.Cfg.{
  BasicBlock, BasicBlockId, ControlFlowGraph, Edge, EdgeTarget, block, external,
}
use armv8_encode.Mc.Cfg.{indirect, targets_block, has_edge_to, predecessors_from, predecessors_of}
use mathlib.Core.Path.{subst}

targets_block_iff : (t : EdgeTarget) (b : BasicBlockId) → (targets_block t b ≡ true) ↔ (t ≡ block b)
targets_block_iff (block id) b = (λ e. ap block ((==_iff id b).0 e), λ e. ground arith)
targets_block_iff (external address) b = (λ e. cc, λ e. cc)
targets_block_iff indirect b = (λ e. cc, λ e. cc)

-- Some edge leads to block `b`.
abbrev pub LeadsTo : List Edge → BasicBlockId → Type 0
LeadsTo es b = (e : Edge) × (e ∈ es) × (e.target ≡ block b)

has_edge_to_iff : (es : List Edge) (b : BasicBlockId) → (has_edge_to es b ≡ true) ↔ LeadsTo es b
unfolding has_edge_to
has_edge_to_iff [] b = (λ e. cc, λ w. absurd w.1)
has_edge_to_iff (e ∷ es) b = elim (Bool-cases (targets_block e.target b)) [
  | inl t ↦ (λ h. (e, inl refl, (targets_block_iff e.target b).0 t), λ w. ground arith)
  | inr f ↦ (
    λ h. let (d, m, k) = (has_edge_to_iff es b).0 (ground arith) in (d, inr m, k),
    λ w. elim w.1 [
      | inl same ↦
          let goes : e.target ≡ block b = ap (λ (q : Edge). q.target) (sym same) ∙ w.2 in
          cc ((targets_block_iff e.target b).1 goes)
      | inr m ↦ let rest = (has_edge_to_iff es b).1 (w.0, m, w.2) in ground arith
    ],
  )
]

-- `p` is the id of a listed block with an edge to `b`.
abbrev pub IsPredecessor : List BasicBlock → BasicBlockId → BasicBlockId → Type 0
IsPredecessor blocks b p = (c : BasicBlock) × (c ∈ blocks) × (c.id ≡ p) × LeadsTo c.successors b

predecessors_from_iff :
    (blocks : List BasicBlock) (b p : BasicBlockId)
    → (p ∈ predecessors_from blocks b) ↔ IsPredecessor blocks b p
unfolding predecessors_from
predecessors_from_iff [] b p = (λ m. absurd m, λ w. absurd w.1)
predecessors_from_iff (c ∷ cs) b p =
    let ih = predecessors_from_iff cs b p in
    let here = has_edge_to_iff c.successors b in
    elim (Bool-cases (has_edge_to c.successors b)) [
      | inl t ↦ rw t (
        λ m. elim m [
          | inl e ↦ (c, inl refl, sym e, here.0 t)
          | inr n ↦ let (d, i, k, l) = ih.0 n in (d, inr i, k, l)
        ],
        λ w. elim w.1 [
          | inl e ↦ inl (sym w.2 ∙ ap (λ (q : BasicBlock). q.id) e)
          | inr i ↦ inr (ih.1 (w.0, i, w.2, w.3))
        ],
      )
      | inr f ↦ rw f (
        λ m. let (d, i, k, l) = ih.0 m in (d, inr i, k, l),
        λ w. elim w.1 [
          | inl e ↦ cc (f, here.1 (subst (λ (q : BasicBlock). LeadsTo q.successors b) e w.3))
          | inr i ↦ ih.1 (w.0, i, w.2, w.3)
        ],
      )
    ]

-- `predecessors_of` lists exactly the ids of the blocks with an edge to `b`.
pub predecessors_of_iff :
    (g : ControlFlowGraph) (b p : BasicBlockId)
    → (p ∈ predecessors_of g b) ↔ IsPredecessor g.blocks b p
unfolding predecessors_of
predecessors_of_iff g b p = predecessors_from_iff g.blocks b p
