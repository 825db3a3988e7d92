-- ===== src/Rewrite/Layout.antt =====
-- src/rewrite/layout.rs: address assignment and branch-range fix-up. `lay_out` assigns addresses
-- and widens the conditional branches that do not reach, in at most 16 rounds.
pub mod Widening
pub mod Placement
pub mod Passes
pub mod Reach
pub mod Pending
pub mod Failures
pub mod Convergence
pub mod Refusals
pub mod Scattered
pub mod Encoding
pub mod Tests
use armv8_encode.Base.{ℕ, zero, suc, ◌+◌, Bool, true, false, ◌&&◌, ◌||◌, not, if◌then◌else◌}
use armv8_encode.Base.{Option, none, some, List, [], ◌∷◌, map, get_elem?, get_or}
use armv8_encode.Base.{Result, ok, err, ◌>>=◌}
use armv8_encode.Base.Word.{wrapping_add, wrapping_sub}
use armv8_encode.Base.Int.{ℤ, neg, ltb_ℤ, as_i64, wrapping_sub_i64}
use armv8_encode.Container.{Container, SymbolId, callable_address_of_symbol}
use armv8_encode.Isa.{IsaTypes, Isa}
use armv8_encode.Rewrite.Ir.{Target, block, symbol, constant, absolute, RewriteInstruction}
use armv8_encode.Rewrite.Ir.{RewriteOp, instruction, macro, raw, RewriteBlock, RewritePlan}
use armv8_encode.Rewrite.Ir.{source_byte_size, first_branch}

abbrev pub max_layout_iterations : ℕ
max_layout_iterations = 16

pub data EmitStrategy : Type 0 where
  normal inverted_conditional : EmitStrategy

pub record InstructionLayout : Type 0 where
  pub address : ℕ
  pub size : ℕ
  pub strategy : EmitStrategy

pub record Layout : Type 0 where
  pub base_address : ℕ
  pub total_size : ℕ
  pub block_addresses : List ℕ
  pub instruction_layouts : List (List InstructionLayout)

pub data LayoutError : Type 0 where
  displacement_too_large : (instruction_address target_address : ℕ) (displacement : ℤ) → LayoutError
  unresolvable_target : LayoutError
  undefined_symbol : SymbolId → LayoutError
  symbol_without_container : LayoutError
  did_not_converge : LayoutError

-- How a run fails: with an error, or with the panic of an index out of range.
pub data Failure : Type 0 where
  error : LayoutError → Failure
  panic : Failure

abbrev pub index_or_panic : {A : Type 0} → Option A → Result Failure A
index_or_panic (some a) = ok a
index_or_panic none = err panic

abbrev or_undefined : SymbolId → Option ℕ → Result Failure ℕ
or_undefined id none = err (error (undefined_symbol id))
or_undefined id (some address) = ok address

abbrev resolve_symbol : Option Container → SymbolId → Result Failure ℕ
resolve_symbol none id = err (error symbol_without_container)
resolve_symbol (some c) id = or_undefined id (callable_address_of_symbol c id)

unfoldable pub resolve_target : Target → List ℕ → Option Container → Result Failure ℕ
resolve_target (block id) block_addresses container = index_or_panic (get_elem? block_addresses id)
resolve_target (absolute address) block_addresses container = ok address
resolve_target (symbol id) block_addresses container = resolve_symbol container id
resolve_target (constant id) block_addresses container = err (error unresolvable_target)

-- `displacement >= -range && displacement < range`.
unfoldable pub is_in_range : ℤ → ℤ → Bool
is_in_range displacement range = not (ltb_ℤ displacement (neg range)) && ltb_ℤ displacement range

unfoldable pub displacement_to : (target here : ℕ) → ℤ
displacement_to target here = wrapping_sub_i64 (as_i64 target) (as_i64 here)

-- `assign_addresses` does not look at the operations: it writes the address of each layout.
unfoldable pub assign_ops : List InstructionLayout → ℕ → List InstructionLayout × ℕ
assign_ops [] current = ([], current)
assign_ops (l ∷ ls) current =
    let rest = assign_ops ls (wrapping_add current l.size) in
    (record l { address = current } ∷ rest.0, rest.1)

-- The layouts, the addresses of the blocks, and the address behind them.
unfoldable pub assign_blocks :
    List (List InstructionLayout) → ℕ → List (List InstructionLayout) × List ℕ × ℕ
assign_blocks [] current = ([], [], current)
assign_blocks (ls ∷ lss) current =
    let placed = assign_ops ls current in
    let rest = assign_blocks lss placed.1 in (placed.0 ∷ rest.0, current ∷ rest.1, rest.2)

unfoldable pub effective_range : (I : IsaTypes) ⦃isa : Isa I⦄ → I.Mnemonic → EmitStrategy → Option ℤ
effective_range I ⦃isa⦄ mnemonic normal = isa.pcrel_range_bytes mnemonic
effective_range I ⦃isa⦄ mnemonic inverted_conditional = some isa.widened_conditional_range

-- One round of a loop that collects layouts and whether any of them grew, then the others.
abbrev pub chain :
    {X : Type 0}
    → Result Failure (X × Bool)
    → Result Failure (List X × Bool)
    → Result Failure (List X × Bool)
chain (err e) rest = err e
chain (ok first) (err e) = err e
chain (ok first) (ok rest) = ok (first.0 ∷ rest.0, first.1 || rest.1)

unfoldable pub finish_or_repeat :
    ℕ
    → List (List InstructionLayout) × List ℕ × ℕ
    → List (List InstructionLayout) × Bool
    → Result Failure Layout
    → Result Failure Layout
finish_or_repeat base placed (layouts, false) again = ok (record {
  base_address = base;
  total_size = wrapping_sub placed.2 base;
  block_addresses = placed.1;
  instruction_layouts = layouts;
})
finish_or_repeat base placed (layouts, true) again = again

-- `lay_out_scattered`: block `i` is placed at `block_addresses[i]`, which panics if it is missing.
unfoldable pub scatter :
    List (List InstructionLayout) → List ℕ → Result Failure (List (List InstructionLayout))
scatter [] addresses = ok []
scatter (ls ∷ lss) [] = err panic
scatter (ls ∷ lss) (address ∷ addresses) = do
  rest ← scatter lss addresses
  ok ((assign_ops ls address).0 ∷ rest)

unfoldable pub total_of : List InstructionLayout → ℕ
total_of [] = 0
total_of (l ∷ ls) = wrapping_add l.size (total_of ls)

unfoldable pub total_size_of : List (List InstructionLayout) → ℕ
total_size_of [] = 0
total_size_of (ls ∷ lss) = wrapping_add (total_of ls) (total_size_of lss)

abbrev scattered : ℕ → List ℕ → List (List InstructionLayout) × Bool → Result Failure Layout
scattered total_size block_addresses (layouts, true) = err (error did_not_converge)
scattered total_size block_addresses (layouts, false) = ok (record {
  base_address = get_or block_addresses 0 0;
  total_size = total_size;
  block_addresses = block_addresses;
  instruction_layouts = layouts;
})

module _ {I : IsaTypes} ⦃isa : Isa I⦄ where
  unfoldable pub initial_layout : RewriteOp I → InstructionLayout
  initial_layout op = record { address = 0; size = source_byte_size op; strategy = normal }

  unfoldable pub initial_layouts : RewritePlan I → List (List InstructionLayout)
  initial_layouts plan = map (λ b. map initial_layout b.ops) plan.blocks

  -- What is done about a branch that does not reach: the layout, and whether it grew.
  unfoldable pub widen :
      Bool
      → RewriteInstruction I
      → InstructionLayout
      → ℕ
      → Result Failure (InstructionLayout × Bool)
  widen size_probe i l target_address =
      let too_large = error (
        displacement_too_large l.address target_address
          (displacement_to target_address l.address)) in
      elim l.strategy [
        | normal ↦ elim (isa.invert_conditional_branch i.mnemonic) [
          | some inverted ↦ ok (
            record l { size = isa.widened_conditional_size; strategy = inverted_conditional },
            true,
          )
          | none ↦ if size_probe then ok (l, false) else err too_large
        ]
        | inverted_conditional ↦ if size_probe then ok (l, false) else err too_large
      ]

  unfoldable pub check_range :
      Bool
      → RewriteInstruction I
      → InstructionLayout
      → ℕ
      → Result Failure (InstructionLayout × Bool)
  check_range size_probe i l target_address = elim (effective_range I i.mnemonic l.strategy) [
    | none ↦ ok (l, false)
    | some range ↦
        if is_in_range (displacement_to target_address l.address) range
        then ok (l, false)
        else widen size_probe i l target_address
  ]

  -- A target that is an undefined symbol is left alone; another failure is passed on.
  unfoldable pub check_resolved :
      Bool
      → RewriteInstruction I
      → InstructionLayout
      → Result Failure ℕ
      → Result Failure (InstructionLayout × Bool)
  check_resolved size_probe i l (ok target_address) = check_range size_probe i l target_address
  check_resolved size_probe i l (err (error (undefined_symbol id))) = ok (l, false)
  check_resolved size_probe i l (err e) = err e

  -- The body of the loop of `widen_out_of_range`.
  unfoldable pub widen_op :
      List ℕ
      → Option Container
      → Bool
      → RewriteOp I
      → InstructionLayout
      → Result Failure (InstructionLayout × Bool)
  widen_op block_addresses container size_probe (instruction i) l = elim (first_branch i.operands) [
    | none ↦ ok (l, false)
    | some target ↦ check_resolved size_probe i l (resolve_target target block_addresses container)
  ]
  widen_op block_addresses container size_probe (macro m) l = ok (l, false)
  widen_op block_addresses container size_probe (raw bytes) l = ok (l, false)

  -- The layouts are indexed by the operations; a missing one panics.
  unfoldable pub widen_ops :
      List ℕ
      → Option Container
      → Bool
      → List (RewriteOp I)
      → List InstructionLayout
      → Result Failure (List InstructionLayout × Bool)
  widen_ops block_addresses container size_probe [] ls = ok (ls, false)
  widen_ops block_addresses container size_probe (op ∷ ops) [] = err panic
  widen_ops block_addresses container size_probe (op ∷ ops) (l ∷ ls) =
      chain (widen_op block_addresses container size_probe op l)
        (widen_ops block_addresses container size_probe ops ls)

  unfoldable pub widen_blocks :
      List ℕ
      → Option Container
      → Bool
      → List (RewriteBlock I)
      → List (List InstructionLayout)
      → Result Failure (List (List InstructionLayout) × Bool)
  widen_blocks block_addresses container size_probe [] lss = ok (lss, false)
  widen_blocks block_addresses container size_probe (b ∷ bs) [] = err panic
  widen_blocks block_addresses container size_probe (b ∷ bs) (ls ∷ lss) =
      chain (widen_ops block_addresses container size_probe b.ops ls)
        (widen_blocks block_addresses container size_probe bs lss)

  unfoldable pub widen_out_of_range :
      RewritePlan I
      → List (List InstructionLayout)
      → List ℕ
      → Option Container
      → Bool
      → Result Failure (List (List InstructionLayout) × Bool)
  widen_out_of_range plan layouts block_addresses container size_probe =
      widen_blocks block_addresses container size_probe plan.blocks layouts

  -- The loop of `lay_out_inner`, `left` rounds before it gives up.
  unfoldable pub iterate :
      RewritePlan I
      → ℕ
      → Option Container
      → Bool
      → ℕ
      → List (List InstructionLayout)
      → Result Failure Layout
  iterate plan base container size_probe zero layouts = err (error did_not_converge)
  iterate plan base container size_probe (suc left) layouts =
      let placed = assign_blocks layouts base in
      elim (widen_out_of_range plan placed.0 placed.1 container size_probe) [
        | err e ↦ err e
        | ok widened ↦
            finish_or_repeat base placed widened
              (iterate plan base container size_probe left widened.0)
      ]

  unfoldable pub lay_out_inner : RewritePlan I → ℕ → Option Container → Bool → Result Failure Layout
  lay_out_inner plan base container size_probe =
      iterate plan base container size_probe max_layout_iterations (initial_layouts plan)

  unfoldable pub lay_out : RewritePlan I → ℕ → Option Container → Result Failure Layout
  lay_out plan base container = lay_out_inner plan base container false

  unfoldable pub lay_out_for_size : RewritePlan I → ℕ → Option Container → Result Failure Layout
  lay_out_for_size plan base container = lay_out_inner plan base container true

  unfoldable pub lay_out_scattered :
      RewritePlan I → List ℕ → Option Container → Result Failure Layout
  lay_out_scattered plan block_addresses container = do
    layouts ← scatter (initial_layouts plan) block_addresses
    widened ← widen_out_of_range plan layouts block_addresses container false
    scattered (total_size_of layouts) block_addresses widened
