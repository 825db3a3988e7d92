-- ===== src/Mc/Cfg/Tests.antt =====
-- src/mc/cfg.rs: a graph of four instructions, and the theorems at it.
use armv8_encode.Base.{ℕ, zero, suc, sym, ◌*◌, ◌≡◌, refl, ◌⊎◌, ◌↔◌, inl, inr, ap, arith}
use armv8_encode.Base.{some, List, [], ◌∷◌, length, ◌∈◌, some_injective}
use armv8_encode.Mc.ControlFlow.{ControlFlow, InstructionInfo, is_terminator, direct_target}
use armv8_encode.Mc.Cfg.{BasicBlock, ControlFlowGraph, EdgeKind}
use armv8_encode.Mc.Cfg.{block, insert, index_from, address_to_index, add_target}
use armv8_encode.Mc.Cfg.{add_leaders, collect_from, collect_leaders, find_terminator, form_block}
use armv8_encode.Mc.Cfg.{form_blocks, block_at_address, resolve, fall_into, terminator_edges}
use armv8_encode.Mc.Cfg.{block_edges, attach_successors, build, get_block, has_edge_to}
use armv8_encode.Mc.Cfg.{predecessors_from, predecessors_of}
use armv8_encode.Mc.Cfg.Leaders.{At, IsStart, mem-collect_leaders}
use armv8_encode.Mc.Cfg.Tiling.{Tiles}
use armv8_encode.Mc.Cfg.Edges.{IsSound}
use armv8_encode.Mc.Cfg.Graph.{build-Tiles, build-IsSound, build-get_block}
use armv8_encode.Mc.Cfg.Branches.{IsDistinct, HasEdge, build-HasEdge}
use armv8_encode.Mc.Cfg.Queries.{IsPredecessor, predecessors_of_iff}

-- An instruction of four bytes.
record Insn : Type 0 where
  at : ℕ
  flow : ControlFlow

instance abbrev insn_info : InstructionInfo Insn
insn_info = record { address = λ i. i.at; size = λ i. 4; control_flow = λ i. i.flow }

abbrev loop : List Insn
loop =
    record { at = 0; flow = ControlFlow.conditional_jump 12 4 }
    ∷ record { at = 4; flow = ControlFlow.fall }
    ∷ record { at = 8; flow = ControlFlow.jump 0 }
    ∷ record { at = 12; flow = ControlFlow.return }
    ∷ []

abbrev block_0 : BasicBlock
block_0 = record {
  id = 0;
  start = 0;
  end = 4;
  instructions = record { start = 0; end = 1 };
  terminator = some (ControlFlow.conditional_jump 12 4);
  successors =
      record { kind = EdgeKind.branch_taken; target = block 2 }
      ∷ record { kind = EdgeKind.fallthrough; target = block 1 }
      ∷ [];
}

abbrev block_1 : BasicBlock
block_1 = record {
  id = 1;
  start = 4;
  end = 12;
  instructions = record { start = 1; end = 3 };
  terminator = some (ControlFlow.jump 0);
  successors = record { kind = EdgeKind.jump; target = block 0 } ∷ [];
}

abbrev block_2 : BasicBlock
block_2 = record {
  id = 2;
  start = 12;
  end = 16;
  instructions = record { start = 3; end = 4 };
  terminator = some ControlFlow.return;
  successors = [];
}

abbrev graph : ControlFlowGraph
graph = record { blocks = block_0 ∷ block_1 ∷ block_2 ∷ [] }

leaders_of_loop : collect_leaders loop ≡ 0 ∷ 1 ∷ 3 ∷ []
unfolding collect_leaders collect_from add_leaders add_target address_to_index index_from insert
    is_terminator direct_target
leaders_of_loop = refl

builds_graph : build loop ≡ some graph
unfolding build collect_leaders collect_from add_leaders add_target address_to_index index_from
    insert is_terminator direct_target form_blocks form_block find_terminator attach_successors
    block_edges terminator_edges fall_into resolve block_at_address
builds_graph = refl

predecessors_of_entry : predecessors_of graph 0 ≡ 1 ∷ []
unfolding predecessors_of predecessors_from has_edge_to
predecessors_of_entry = refl

mem-collect_leaders_example : (3 ∈ collect_leaders loop) ↔ (IsStart loop 0 3 ⊎ ◌≡◌ {A = ℕ} 3 0)
mem-collect_leaders_example = mem-collect_leaders loop 3

build-Tiles_example :
    (g : ControlFlowGraph) × (build loop ≡ some g) × Tiles loop 0 0 (length loop) g.blocks
build-Tiles_example = build-Tiles loop

build-IsSound_example : IsSound graph.blocks (record { kind = EdgeKind.jump; target = block 0 })
build-IsSound_example =
    build-IsSound loop block_1 (record { kind = EdgeKind.jump; target = block 0 }) builds_graph
      (inr (inl refl)) (inl refl)

build-get_block_example : get_block graph 1 ≡ some block_1
build-get_block_example = build-get_block loop block_1 builds_graph (inr (inl refl))

-- The index of an instruction is its address by four.
at_index : (i : ℕ) (x : Insn) → At loop i x → x.at ≡ 4 * i
at_index zero x a = ap (λ (z : Insn). z.at) (some_injective (sym a))
at_index (suc zero) x a = ap (λ (z : Insn). z.at) (some_injective (sym a))
at_index (suc (suc zero)) x a = ap (λ (z : Insn). z.at) (some_injective (sym a))
at_index (suc (suc (suc zero))) x a = ap (λ (z : Insn). z.at) (some_injective (sym a))
at_index (suc (suc (suc (suc i)))) x a = cc

loop-IsDistinct : IsDistinct loop
loop-IsDistinct i j x y a b e = omega (arith, at_index i x a, at_index j y b)

build-HasEdge_example : HasEdge graph 2 0
unfolding direct_target
build-HasEdge_example =
    build-HasEdge loop 2 0 (record { at = 8; flow = ControlFlow.jump 0 })
      (record { at = 0; flow = ControlFlow.conditional_jump 12 4 }) loop-IsDistinct refl refl refl
      builds_graph

predecessors_of_iff_example : (1 ∈ predecessors_of graph 0) ↔ IsPredecessor graph.blocks 0 1
predecessors_of_iff_example = predecessors_of_iff graph 0 1
