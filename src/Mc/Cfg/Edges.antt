-- ===== src/Mc/Cfg/Edges.antt =====
-- src/mc/cfg.rs: `resolve` and `attach_successors`.
use armv8_encode.Base.{ℕ, ◌≡◌, ◌≢◌, refl, sym, ap, ◌∙◌, inl, inr, arith}
use armv8_encode.Base.{true, Option-cases, some_injective}
use armv8_encode.Base.{Option, none, some, List, [], ◌∷◌, ◌++◌, ◌∈◌, All}
use mathlib.Core.Path.{subst}
use armv8_encode.Base.Partial.{>>=-eq-some}
use armv8_encode.Mc.ControlFlow.{ControlFlow, is_terminator, direct_target}
use armv8_encode.Mc.Cfg.{
  BasicBlock, BasicBlockId, Edge, EdgeKind, EdgeTarget, block, external, indirect,
}
use armv8_encode.Mc.Cfg.{
  block_at_address, resolve, fall_into, terminator_edges, block_edges, attach_successors,
}

-- `id` names a block of `blocks` that starts at `address`.
pub record IsBlockAt (blocks : List BasicBlock) (address : ℕ) (id : BasicBlockId) : Type 0 where
  pub b : BasicBlock
  pub listed : b ∈ blocks
  pub named : b.id ≡ id
  pub starts : b.start ≡ address

-- An edge into a block is an edge into a block that is there.
abbrev pub IsSound : List BasicBlock → Edge → Type 0
IsSound blocks e =
    (id : BasicBlockId) → e.target ≡ block id → (b : BasicBlock) × (b ∈ blocks) × (b.id ≡ id)

block_at_address-IsBlockAt :
    (blocks : List BasicBlock) (address : ℕ) {id : BasicBlockId}
    → block_at_address blocks address ≡ some id
    → IsBlockAt blocks address id
unfolding block_at_address
block_at_address-IsBlockAt [] address e = cc
block_at_address-IsBlockAt (b ∷ bs) address {id} e =
    elim (Option-cases (block_at_address bs address)) [
      | inr (k, f) ↦
          let w = block_at_address-IsBlockAt bs address f in
          record {
            b = w.b;
            listed = inr w.listed;
            named = w.named ∙ ground arith;
            starts = w.starts;
          }
      | inl f ↦ record { b = b; listed = inl refl; named = ground arith; starts = ground arith }
    ]

block_at_address-found :
    (blocks : List BasicBlock) (address : ℕ) (b : BasicBlock)
    → b ∈ blocks
    → b.start ≡ address
    → block_at_address blocks address ≢ none
unfolding block_at_address
block_at_address-found [] address b m s = absurd m
block_at_address-found (x ∷ bs) address b (inl e) s =
    let s' : x.start ≡ address = sym (ap (λ (q : BasicBlock). q.start) e) ∙ s in ground arith
block_at_address-found (x ∷ bs) address b (inr m) s =
    ground (arith, block_at_address-found bs address b m s)

-- An address resolves to a block exactly where one starts there.
pub resolve-IsBlockAt :
    (blocks : List BasicBlock) (address : ℕ) (id : BasicBlockId)
    → resolve blocks address ≡ block id
    → IsBlockAt blocks address id
unfolding resolve
resolve-IsBlockAt blocks address id e = elim (Option-cases (block_at_address blocks address)) [
  | inl f ↦ absurd (ground arith)
  | inr (k, f) ↦
      let same : k ≡ id = ground arith in rw (← same) (block_at_address-IsBlockAt blocks address f)
]

pub resolve-found :
    (blocks : List BasicBlock) (address : ℕ) (b : BasicBlock)
    → b ∈ blocks
    → b.start ≡ address
    → (id : BasicBlockId) × (resolve blocks address ≡ block id)
unfolding resolve
resolve-found blocks address b m s = elim (Option-cases (block_at_address blocks address)) [
  | inl f ↦ absurd (block_at_address-found blocks address b m s f)
  | inr (k, f) ↦ (k, rw (f, resolve))
]

resolve-IsSound :
    (blocks : List BasicBlock) (kind : EdgeKind) (address : ℕ)
    → IsSound blocks (record { kind = kind; target = resolve blocks address })
resolve-IsSound blocks kind address id e =
    let w = resolve-IsBlockAt blocks address id e in (w.b, w.listed, w.named)

indirect-IsSound :
    (blocks : List BasicBlock) (kind : EdgeKind)
    → IsSound blocks (record { kind = kind; target = indirect })
indirect-IsSound blocks kind id e = cc

fall_into-IsSound :
    (blocks : List BasicBlock) (address : ℕ)
    → All (IsSound blocks) (fall_into (resolve blocks address))
unfolding fall_into
fall_into-IsSound blocks address = go (resolve blocks address) refl
  where
    go : (t : EdgeTarget) → resolve blocks address ≡ t → All (IsSound blocks) (fall_into t)
    go (block id) e = (λ k f. resolve-IsSound blocks EdgeKind.fallthrough address k (e ∙ f), tt)
    go (external a) e = tt
    go indirect e = tt

-- The list of edges of a terminator, where it has one.
terminator_edges-IsSound :
    (blocks : List BasicBlock) (end : ℕ) (cf : ControlFlow) {edges : List Edge}
    → terminator_edges blocks end cf ≡ some edges
    → All (IsSound blocks) edges
unfolding terminator_edges
terminator_edges-IsSound blocks end ControlFlow.fall h = cc
terminator_edges-IsSound blocks end (ControlFlow.jump t) h =
    rw (← some_injective h) (resolve-IsSound blocks EdgeKind.jump t, tt)
terminator_edges-IsSound blocks end (ControlFlow.conditional_jump t n) h = rw (← some_injective h) (
  resolve-IsSound blocks EdgeKind.branch_taken t,
  (resolve-IsSound blocks EdgeKind.fallthrough n, tt),
)
terminator_edges-IsSound blocks end (ControlFlow.call t n) h =
    rw (← some_injective h)
      (resolve-IsSound blocks EdgeKind.call t, (resolve-IsSound blocks EdgeKind.fallthrough n, tt))
terminator_edges-IsSound blocks end ControlFlow.return h = rw (← some_injective h) tt
terminator_edges-IsSound blocks end ControlFlow.indirect_jump h =
    rw (← some_injective h) (indirect-IsSound blocks EdgeKind.jump, tt)
terminator_edges-IsSound blocks end (ControlFlow.indirect_call n) h =
    rw (← some_injective h)
      (indirect-IsSound blocks EdgeKind.call, (resolve-IsSound blocks EdgeKind.fallthrough n, tt))
terminator_edges-IsSound blocks end ControlFlow.trap h =
    rw (← some_injective h) (resolve-IsSound blocks EdgeKind.fallthrough end, tt)

terminator_edges-some :
    (blocks : List BasicBlock) (end : ℕ) (cf : ControlFlow)
    → is_terminator cf ≡ true
    → (edges : List Edge) × (terminator_edges blocks end cf ≡ some edges)
unfolding terminator_edges is_terminator
terminator_edges-some blocks end ControlFlow.fall h = cc
terminator_edges-some blocks end (ControlFlow.jump t) h = (_, refl)
terminator_edges-some blocks end (ControlFlow.conditional_jump t n) h = (_, refl)
terminator_edges-some blocks end (ControlFlow.call t n) h = (_, refl)
terminator_edges-some blocks end ControlFlow.return h = (_, refl)
terminator_edges-some blocks end ControlFlow.indirect_jump h = (_, refl)
terminator_edges-some blocks end (ControlFlow.indirect_call n) h = (_, refl)
terminator_edges-some blocks end ControlFlow.trap h = (_, refl)

-- A direct target gives an edge to what the target resolves to.
pub terminator_edges-target :
    (blocks : List BasicBlock) (end : ℕ) (cf : ControlFlow) (t : ℕ) {edges : List Edge}
    → direct_target cf ≡ some t
    → terminator_edges blocks end cf ≡ some edges
    → (e : Edge) × (e ∈ edges) × (e.target ≡ resolve blocks t)
unfolding terminator_edges direct_target
terminator_edges-target blocks end (ControlFlow.jump u) t d h =
    rw (← some_injective h) (_, inl refl, ap (resolve blocks) (some_injective d))
terminator_edges-target blocks end (ControlFlow.conditional_jump u n) t d h =
    rw (← some_injective h) (_, inl refl, ap (resolve blocks) (some_injective d))
terminator_edges-target blocks end (ControlFlow.call u n) t d h =
    rw (← some_injective h) (_, inl refl, ap (resolve blocks) (some_injective d))
terminator_edges-target blocks end ControlFlow.fall t d h = cc
terminator_edges-target blocks end ControlFlow.return t d h = cc
terminator_edges-target blocks end ControlFlow.indirect_jump t d h = cc
terminator_edges-target blocks end (ControlFlow.indirect_call n) t d h = cc
terminator_edges-target blocks end ControlFlow.trap t d h = cc

module _ (blocks : List BasicBlock) where
  pub block_edges-IsSound :
      (b : BasicBlock) {edges : List Edge}
      → block_edges blocks b ≡ some edges
      → All (IsSound blocks) edges
  unfolding block_edges
  block_edges-IsSound b {edges} h = go b.terminator refl
    where
      go : (t : Option ControlFlow) → b.terminator ≡ t → All (IsSound blocks) edges
      go none e = rw (← some_injective (rw (e, block_edges) at h)) (fall_into-IsSound blocks b.end)
      go (some cf) e = terminator_edges-IsSound blocks b.end cf (rw (e, block_edges) at h)

  -- `b'` is `b` with its edges attached.
  pub record IsAttached (b b' : BasicBlock) : Type 0 where
    pub edges : List Edge
    pub given : block_edges blocks b ≡ some edges
    pub same : b' ≡ record b { successors = b.successors ++ edges }

  pub attach_successors-cons :
      (b : BasicBlock) (bs : List BasicBlock) {out : List BasicBlock}
      → attach_successors blocks (b ∷ bs) ≡ some out
      → (b' : BasicBlock) × IsAttached b b'
        × (rest : List BasicBlock) × (attach_successors blocks bs ≡ some rest)
        × (out ≡ b' ∷ rest)
  unfolding attach_successors
  attach_successors-cons b bs e =
      let (edges, f, k) = >>=-eq-some (block_edges blocks b) _ e in
      let (rest, g, h) = >>=-eq-some (attach_successors blocks bs) _ k in
      (_, record { edges = edges; given = f; same = refl }, rest, g, sym (some_injective h))

  pub IsAttached-of :
      (bs : List BasicBlock) {out : List BasicBlock} (b : BasicBlock)
      → attach_successors blocks bs ≡ some out
      → b ∈ bs
      → (b' : BasicBlock) × (b' ∈ out) × IsAttached b b'
  IsAttached-of [] b e m = absurd m
  IsAttached-of (x ∷ bs) b e m =
      let (x', att, rest, g, h) = attach_successors-cons x bs e in
      rw h (elim m [
        | inl same ↦ (x', inl refl, rw same att)
        | inr n ↦ let (b', i, a) = IsAttached-of bs b g n in (b', inr i, a)
      ])

  pub origin-of :
      (bs : List BasicBlock) {out : List BasicBlock} (b' : BasicBlock)
      → attach_successors blocks bs ≡ some out
      → b' ∈ out
      → (b : BasicBlock) × (b ∈ bs) × IsAttached b b'
  origin-of [] b' e m =
      absurd (unfold attach_successors in subst (λ l. b' ∈ l) (sym (some_injective e)) m)
  origin-of (x ∷ bs) b' e m =
      let (x', att, rest, g, h) = attach_successors-cons x bs e in
      elim (subst (λ l. b' ∈ l) h m) [
        | inl same ↦ (x, inl refl, rw same att)
        | inr n ↦ let (b, i, a) = origin-of bs b' g n in (b, inr i, a)
      ]

  pub attach_successors-some :
      (bs : List BasicBlock)
      → ((b : BasicBlock) → b ∈ bs → (edges : List Edge) × (block_edges blocks b ≡ some edges))
      → (out : List BasicBlock) × (attach_successors blocks bs ≡ some out)
  unfolding attach_successors
  attach_successors-some [] h = ([], refl)
  attach_successors-some (b ∷ bs) h =
      let (edges, e) = h b (inl refl) in
      let (rest, f) = attach_successors-some bs (λ c m. h c (inr m)) in
      (record b { successors = b.successors ++ edges } ∷ rest, rw (e, f))

  pub block_edges-some :
      (b : BasicBlock)
      → ((cf : ControlFlow) → b.terminator ≡ some cf → is_terminator cf ≡ true)
      → (edges : List Edge) × (block_edges blocks b ≡ some edges)
  block_edges-some b h = go b.terminator refl
    where
      go :
          (t : Option ControlFlow)
          → b.terminator ≡ t
          → (edges : List Edge) × (block_edges blocks b ≡ some edges)
      go none e = (fall_into (resolve blocks b.end), unfold block_edges in rw (e, block_edges))
      go (some cf) e =
          let (edges, k) = terminator_edges-some blocks b.end cf (h cf e) in
          (edges, unfold block_edges in (rw (e, block_edges) k))
