-- ===== src/Aarch64/Recursive.antt =====
-- src/isa/aarch64/recursive.rs: disassembly that follows the control flow from the entry points, and
-- the classification of the bytes it does not reach.
pub mod Reachable
pub mod Walk
pub mod Sound
pub mod Rounds
pub mod Listing
pub mod Covering
pub mod Tests
use armv8_encode.Base.{ℕ, zero, suc, ◌+◌, ◌-◌, ◌*◌, ◌/◌, ◌%◌, ltb, leb, ◌==◌, if◌then◌else◌}
use armv8_encode.Base.{Bool, true, false, ◌&&◌, Option, none, some}
use armv8_encode.Base.{List, [], ◌∷◌, ◌++◌, length, get_or, take, drop}
use armv8_encode.Base.Word.{wrapping_add, wrapping_sub}
use armv8_encode.Mc.ControlFlow.{ControlFlow, direct_target}
use armv8_encode.Aarch64.{DecodedInstruction}
use armv8_encode.Aarch64.ControlFlow.{control_flow}

-- What is disassembled. The decoder reads the opcode table and is a parameter; of its result only
-- whether there is an instruction is looked at.
pub record Stream : Type 0 where
  pub base_address : ℕ
  pub bytes : List ℕ
  pub decode_instruction : ℕ → ℕ → Option DecodedInstruction

pub data Status : Type 0 where
  decoded : DecodedInstruction → Status
  decode_error : Status

-- A `BTreeMap` from addresses, of which only keys that are absent are inserted.
abbrev pub StatusMap : Type 0
StatusMap = List (ℕ × Status)

unfoldable pub get_status : StatusMap → ℕ → Option Status
get_status [] address = none
get_status ((key, s) ∷ rest) address = if key == address then some s else get_status rest address

-- `bytes.len() & !3`.
unfoldable pub aligned_len : Stream → ℕ
aligned_len s = length s.bytes - length s.bytes % 4

unfoldable pub aligned_end : Stream → ℕ
aligned_end s = wrapping_add s.base_address (aligned_len s)

unfoldable pub in_range : Stream → ℕ → Bool
in_range s address =
    leb s.base_address address
    && (ltb address (aligned_end s) && ((address - s.base_address) % 4 == 0))

-- The word at an address in range, whose four bytes exist.
unfoldable pub word_at : Stream → ℕ → ℕ
word_at s address =
    let offset = address - s.base_address in
    get_or s.bytes offset 0
    + 256 * get_or s.bytes (offset + 1) 0
    + 65536 * get_or s.bytes (offset + 2) 0
    + 16777216 * get_or s.bytes (offset + 3) 0

-- The loops' variables: the worklist with its top first, and the address of the inner loop while it
-- runs.
pub record State : Type 0 where
  pub status : StatusMap
  pub worklist : List ℕ
  pub current : Option ℕ

unfoldable pub push : Stream → ℕ → List ℕ → List ℕ
push s address worklist = if in_range s address then address ∷ worklist else worklist

unfoldable pub push_target : Stream → Option ℕ → List ℕ → List ℕ
push_target s none worklist = worklist
push_target s (some target) worklist = push s target worklist

-- Where the walk goes on behind the instruction at `address`.
unfoldable pub next_of : ℕ → ControlFlow → Option ℕ
next_of address ControlFlow.fall = some (wrapping_add address 4)
next_of address (ControlFlow.jump target) = none
next_of address (ControlFlow.conditional_jump target next) = some next
next_of address (ControlFlow.call target next) = some next
next_of address ControlFlow.return = none
next_of address ControlFlow.indirect_jump = none
next_of address (ControlFlow.indirect_call next) = some next
next_of address ControlFlow.trap = some (wrapping_add address 4)

unfoldable pub record_status : Stream → ℕ → State → Option DecodedInstruction → State
record_status s address t none = record {
  status = (address, decode_error) ∷ t.status;
  worklist = t.worklist;
  current = none;
}
record_status s address t (some i) = record {
  status = (address, decoded i) ∷ t.status;
  worklist = push_target s (direct_target (control_flow i)) t.worklist;
  current = next_of address (control_flow i);
}

unfoldable pub is_new : Option Status → Bool
is_new none = true
is_new (some s) = false

-- A round of the inner loop at `address`.
unfoldable pub visit : Stream → ℕ → State → State
visit s address t =
    if in_range s address && is_new (get_status t.status address)
    then record_status s address t (s.decode_instruction address (word_at s address))
    else record t { current = none }

abbrev pop : State → List ℕ → Option State
pop t [] = none
pop t (address ∷ worklist) =
    some (record { status = t.status; worklist = worklist; current = some address })

-- A round of the inner loop if it runs, else of the outer one; `none` when the worklist is empty.
unfoldable pub step : Stream → State → Option State
step s t = elim t.current [ some address ↦ some (visit s address t) | none ↦ pop t t.worklist ]

unfoldable pub explore : Stream → ℕ → State → Option StatusMap
explore s zero t = none
explore s (suc fuel) t = elim (step s t) [ none ↦ some t.status | some t' ↦ explore s fuel t' ]

-- The entry points in range, the last one on top.
unfoldable pub push_entries : Stream → List ℕ → List ℕ → List ℕ
push_entries s [] worklist = worklist
push_entries s (address ∷ entries) worklist = push_entries s entries (push s address worklist)

unfoldable pub initial_state : Stream → List ℕ → State
initial_state s entries = record {
  status = [];
  worklist = push_entries s entries [];
  current = none;
}

pub data DataReason : Type 0 where
  decode_failure unreachable padding : DataReason

pub record DataRange : Type 0 where
  pub address : ℕ
  pub bytes : List ℕ
  pub reason : DataReason

pub record Disassembly : Type 0 where
  pub instructions : List DecodedInstruction
  pub data_ranges : List DataRange

-- `data_start` and `data_reason`, which are set and taken together.
abbrev pub Pending : Type 0
Pending = Option (ℕ × DataReason)

abbrev slice : List ℕ → ℕ → ℕ → List ℕ
slice bytes start end = take (end - start) (drop start bytes)

-- `flush_data`: the ranges it pushes.
unfoldable pub flush_data : Stream → ℕ → Pending → List DataRange
flush_data s end none = []
flush_data s end (some (start, why)) =
    record {
      address = start;
      bytes = slice s.bytes (start - s.base_address) (end - s.base_address);
      reason = why;
    }
    ∷ []

unfoldable pub same_reason : DataReason → DataReason → Bool
same_reason decode_failure decode_failure = true
same_reason unreachable unreachable = true
same_reason padding padding = true
same_reason _ _ = false

-- `accumulate`: the ranges it pushes, and what is pending behind it.
unfoldable pub accumulate : Stream → ℕ → DataReason → Pending → List DataRange × Pending
accumulate s address why none = ([], some (address, why))
accumulate s address why (some (start, before)) =
    if same_reason before why
    then ([], some (start, before))
    else (flush_data s address (some (start, before)), some (address, why))

-- The loop of `build_disassembly`, `left` words before the aligned end.
unfoldable pub classify :
    Stream → StatusMap → ℕ → ℕ → Pending → List DecodedInstruction × List DataRange
classify s status zero address pending = ([], flush_data s address pending)
classify s status (suc left) address pending = elim (get_status status address) [
  | some (decoded i) ↦
      let rest = classify s status left (wrapping_add address 4) none in
      (i ∷ rest.0, flush_data s address pending ++ rest.1)
  | some decode_error ↦
      let kept = accumulate s address decode_failure pending in
      let rest = classify s status left (wrapping_add address 4) kept.1 in
      (rest.0, kept.0 ++ rest.1)
  | none ↦
      let kept = accumulate s address unreachable pending in
      let rest = classify s status left (wrapping_add address 4) kept.1 in
      (rest.0, kept.0 ++ rest.1)
]

unfoldable pub tail_range : Stream → List DataRange
tail_range s =
    if ltb (aligned_len s) (length s.bytes)
    then record { address = aligned_end s; bytes = drop (aligned_len s) s.bytes; reason = padding }
      ∷ []
    else []

unfoldable pub build_disassembly : Stream → StatusMap → Disassembly
build_disassembly s status =
    let found = classify s status (aligned_len s / 4) s.base_address none in
    record { instructions = found.0; data_ranges = found.1 ++ tail_range s }

-- The rounds that suffice: three for each word and two for each entry point.
unfoldable pub rounds : Stream → List ℕ → ℕ
rounds s entries = 3 * (aligned_len s / 4) + 2 * length entries + 1

unfoldable pub map_disassembly : Stream → Option StatusMap → Option Disassembly
map_disassembly s none = none
map_disassembly s (some status) = some (build_disassembly s status)

unfoldable pub disassemble_recursive : Stream → List ℕ → Option Disassembly
disassemble_recursive s entries =
    map_disassembly s (explore s (rounds s entries) (initial_state s entries))
