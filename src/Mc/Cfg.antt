-- ===== src/Mc/Cfg.antt =====
-- src/mc/cfg.rs: basic blocks and the control-flow graph of a slice of instructions.
pub mod Leaders
pub mod Ordering
pub mod Blocks
pub mod Tiling
pub mod Starting
pub mod Edges
pub mod Graph
pub mod Branches
pub mod Queries
pub mod Tests
use armv8_encode.Base.{ℕ, zero, suc, ◌+◌, ◌-◌, Bool, true, false, not, if◌then◌else◌, ltb, ◌==◌}
use armv8_encode.Base.{Option, none, some, List, [], ◌∷◌, ◌++◌, length, get_elem?}
use armv8_encode.Base.Word.{wrapping_add}
use armv8_encode.Base.Partial.{◌>>=◌}
use armv8_encode.Mc.ControlFlow.{ControlFlow, InstructionInfo, is_terminator, direct_target}

abbrev pub BasicBlockId : Type 0
BasicBlockId = ℕ

pub data EdgeKind : Type 0 where
  fallthrough jump branch_taken call : EdgeKind

pub data EdgeTarget : Type 0 where
  block : BasicBlockId → EdgeTarget
  external : ℕ → EdgeTarget
  indirect : EdgeTarget

pub record Edge : Type 0 where
  pub kind : EdgeKind
  pub target : EdgeTarget

-- A half-open range of indices.
pub record Range : Type 0 where
  pub start : ℕ
  pub end : ℕ

pub record BasicBlock : Type 0 where
  pub id : BasicBlockId
  pub start : ℕ
  pub end : ℕ
  pub instructions : Range
  pub terminator : Option ControlFlow
  pub successors : List Edge

pub record ControlFlowGraph : Type 0 where
  pub blocks : List BasicBlock

-- A `BTreeSet<usize>` is its elements in ascending order.
pub insert : ℕ → List ℕ → List ℕ
insert a [] = a ∷ []
insert a (x ∷ xs) = if ltb a x then a ∷ x ∷ xs else if a == x then x ∷ xs else x ∷ insert a xs

module _ {T : Type 0} ⦃info : InstructionInfo T⦄ where
  -- The map from addresses to indices; of equal addresses the last is kept.
  pub index_from : ℕ → List T → ℕ → Option ℕ
  index_from index [] target = none
  index_from index (x ∷ xs) target = elim (index_from (index + 1) xs target) [
    | some found ↦ some found
    | none ↦ if info.address x == target then some index else none
  ]

  pub address_to_index : List T → ℕ → Option ℕ
  address_to_index instructions target = index_from 0 instructions target

  -- A direct branch target inside the slice is a leader.
  pub add_target : List T → ControlFlow → List ℕ → List ℕ
  add_target instructions cf leaders = elim (direct_target cf) [
    | none ↦ leaders
    | some target ↦ elim (address_to_index instructions target) [
      | none ↦ leaders
      | some target_index ↦ insert target_index leaders
    ]
  ]

  -- The instruction immediately after a terminator starts a new block.
  pub add_leaders : List T → ℕ → ControlFlow → List ℕ → List ℕ
  add_leaders instructions index cf leaders =
      if is_terminator cf
      then add_target instructions cf
          (if ltb (index + 1) (length instructions) then insert (index + 1) leaders else leaders)
      else leaders

  -- The loop of `collect_leaders` at `index`, over the instructions that are left.
  pub collect_from : List T → ℕ → List T → List ℕ → List ℕ
  collect_from instructions index [] leaders = leaders
  collect_from instructions index (x ∷ xs) leaders =
      collect_from instructions (index + 1) xs
        (add_leaders instructions index (info.control_flow x) leaders)

  pub collect_leaders : List T → List ℕ
  collect_leaders instructions = collect_from instructions 0 instructions (insert 0 [])

  -- The inner loop of `form_blocks`, `left` rounds before the next leader: the end of the block
  -- and its terminator, if it meets one.
  pub find_terminator : List T → ℕ → ℕ → Option (Option (ℕ × ControlFlow))
  find_terminator instructions index zero = some none
  find_terminator instructions index (suc left) =
      let rest = find_terminator instructions (index + 1) left in
      get_elem? instructions index >>= λ x.
      if is_terminator (info.control_flow x)
      then some (some (index + 1, info.control_flow x))
      else rest

  abbrev last_of : List T → ℕ → Option T
  last_of instructions zero = none
  last_of instructions (suc last_index) = get_elem? instructions last_index

  abbrev block_of : List T → BasicBlockId → ℕ → ℕ → Option ControlFlow → Option BasicBlock
  block_of instructions id start_index end_index terminator = do
    first ← get_elem? instructions start_index
    last ← last_of instructions end_index
    some (record {
      id = id;
      start = info.address first;
      end = wrapping_add (info.address last) (info.size last);
      instructions = record { start = start_index; end = end_index };
      terminator = terminator;
      successors = [];
    })

  abbrev block_found : List T → BasicBlockId → ℕ → ℕ → Option (ℕ × ControlFlow) → Option BasicBlock
  block_found instructions id start_index next_leader none =
      block_of instructions id start_index next_leader none
  block_found instructions id start_index next_leader (some (end_index, cf)) =
      block_of instructions id start_index end_index (some cf)

  pub form_block : List T → BasicBlockId → ℕ → ℕ → Option BasicBlock
  form_block instructions id start_index next_leader =
      find_terminator instructions start_index (next_leader - start_index)
      >>= block_found instructions id start_index next_leader

  abbrev next_leader : List T → List ℕ → ℕ
  next_leader instructions [] = length instructions
  next_leader instructions (l ∷ ls) = l

  -- `id` is the number of blocks formed before.
  pub form_blocks : List T → BasicBlockId → List ℕ → Option (List BasicBlock)
  form_blocks instructions id [] = some []
  form_blocks instructions id (start_index ∷ leaders) = do
    b ← form_block instructions id start_index (next_leader instructions leaders)
    bs ← form_blocks instructions (id + 1) leaders
    some (b ∷ bs)

-- The map from block addresses to ids; of equal addresses the last is kept.
pub block_at_address : List BasicBlock → ℕ → Option BasicBlockId
block_at_address [] address = none
block_at_address (b ∷ bs) address = elim (block_at_address bs address) [
  | some id ↦ some id
  | none ↦ if b.start == address then some b.id else none
]

pub resolve : List BasicBlock → ℕ → EdgeTarget
resolve blocks address = elim (block_at_address blocks address) [
  | some id ↦ block id
  | none ↦ external address
]

-- The edge of a block without a terminator: only into a block of the slice.
pub fall_into : EdgeTarget → List Edge
fall_into (block id) = record { kind = EdgeKind.fallthrough; target = block id } ∷ []
fall_into _ = []

-- The successors that the terminator gives; `fall` is `unreachable!`.
pub terminator_edges : List BasicBlock → ℕ → ControlFlow → Option (List Edge)
terminator_edges blocks end ControlFlow.fall = none
terminator_edges blocks end (ControlFlow.jump target) =
    some (record { kind = EdgeKind.jump; target = resolve blocks target } ∷ [])
terminator_edges blocks end (ControlFlow.conditional_jump target next) = some (
    record { kind = EdgeKind.branch_taken; target = resolve blocks target }
    ∷ record { kind = EdgeKind.fallthrough; target = resolve blocks next }
    ∷ [])
terminator_edges blocks end (ControlFlow.call target next) = some (
    record { kind = EdgeKind.call; target = resolve blocks target }
    ∷ record { kind = EdgeKind.fallthrough; target = resolve blocks next }
    ∷ [])
terminator_edges blocks end ControlFlow.return = some []
terminator_edges blocks end ControlFlow.indirect_jump =
    some (record { kind = EdgeKind.jump; target = indirect } ∷ [])
terminator_edges blocks end (ControlFlow.indirect_call next) = some (
    record { kind = EdgeKind.call; target = indirect }
    ∷ record { kind = EdgeKind.fallthrough; target = resolve blocks next }
    ∷ [])
terminator_edges blocks end ControlFlow.trap =
    some (record { kind = EdgeKind.fallthrough; target = resolve blocks end } ∷ [])

pub block_edges : List BasicBlock → BasicBlock → Option (List Edge)
block_edges blocks b = elim b.terminator [
  | none ↦ some (fall_into (resolve blocks b.end))
  | some cf ↦ terminator_edges blocks b.end cf
]

-- `blocks` are all the blocks; the loop runs over those of the second list.
pub attach_successors : List BasicBlock → List BasicBlock → Option (List BasicBlock)
attach_successors blocks [] = some []
attach_successors blocks (b ∷ bs) = do
  edges ← block_edges blocks b
  rest ← attach_successors blocks bs
  some (record b { successors = b.successors ++ edges } ∷ rest)

pub build : {T : Type 0} ⦃info : InstructionInfo T⦄ → List T → Option ControlFlowGraph
build [] = some (record { blocks = [] })
build (x ∷ xs) = do
  blocks ← form_blocks (x ∷ xs) 0 (collect_leaders (x ∷ xs))
  blocks' ← attach_successors blocks blocks
  some (record { blocks = blocks' })

-- The queries of a graph. `block` is `get_block` here; an id out of range panics.
pub get_block : ControlFlowGraph → BasicBlockId → Option BasicBlock
get_block g id = get_elem? g.blocks id

pub entry : ControlFlowGraph → Option BasicBlockId
entry g = elim g.blocks [ [] ↦ none | b ∷ bs ↦ some 0 ]

pub find_start : List BasicBlock → ℕ → Option BasicBlockId
find_start [] address = none
find_start (b ∷ bs) address = if b.start == address then some b.id else find_start bs address

pub block_at : ControlFlowGraph → ℕ → Option BasicBlockId
block_at g address = find_start g.blocks address

abbrev targets_block : EdgeTarget → BasicBlockId → Bool
targets_block (block id) b = id == b
targets_block (external address) b = false
targets_block indirect b = false

-- The inner loop of `predecessors_of`, which ends at the first such edge.
pub has_edge_to : List Edge → BasicBlockId → Bool
has_edge_to [] b = false
has_edge_to (e ∷ es) b = if targets_block e.target b then true else has_edge_to es b

pub predecessors_from : List BasicBlock → BasicBlockId → List BasicBlockId
predecessors_from [] b = []
predecessors_from (p ∷ ps) b =
    let rest = predecessors_from ps b in if has_edge_to p.successors b then p.id ∷ rest else rest

pub predecessors_of : ControlFlowGraph → BasicBlockId → List BasicBlockId
predecessors_of g b = predecessors_from g.blocks b
