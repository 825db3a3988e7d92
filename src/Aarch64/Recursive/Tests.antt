-- ===== src/Aarch64/Recursive/Tests.antt =====
-- src/isa/aarch64/recursive.rs: a jump over a word of data to a return, with a byte behind it, and the
-- theorems at it; a call.
use armv8_encode.Base.{ℕ, ◌≡◌, ◌↔◌, refl, if◌then◌else◌, ◌==◌, Option, none, some}
use armv8_encode.Base.{[], ◌∷◌, ◌∈◌, arith}
use armv8_encode.Mc.ControlFlow.{direct_target}
use armv8_encode.Aarch64.{DecodedInstruction}
use armv8_encode.Aarch64.Aarch64Mnemonic.{b, bl, ret}
use armv8_encode.Aarch64.DecodedOperand.{branch_target}
use armv8_encode.Aarch64.ControlFlow.{control_flow, flow_of, direct_branch_target}
use armv8_encode.Aarch64.Recursive.{Stream, Disassembly, unreachable, padding, get_status}
use armv8_encode.Aarch64.Recursive.{aligned_len, aligned_end, in_range, word_at, push, push_target}
use armv8_encode.Aarch64.Recursive.{next_of, record_status, is_new, visit, step, explore}
use armv8_encode.Aarch64.Recursive.{
  push_entries, initial_state, flush_data, same_reason, accumulate,
}
use armv8_encode.Aarch64.Recursive.{classify, tail_range, build_disassembly, rounds}
use armv8_encode.Aarch64.Recursive.{map_disassembly, disassemble_recursive}
use armv8_encode.Aarch64.Recursive.Reachable.{Reach}
use armv8_encode.Aarch64.Recursive.Listing.{disassemble_recursive_iff}
use armv8_encode.Aarch64.Recursive.Covering.{Covers, disassemble_recursive-Covers}

abbrev jump : DecodedInstruction
jump = record { address = 4096; word = 1; mnemonic = b; operands = branch_target 4104 ∷ [] }

abbrev leave : DecodedInstruction
leave = record { address = 4104; word = 3; mnemonic = ret; operands = [] }

abbrev decode : ℕ → ℕ → Option DecodedInstruction
decode address word = if word == 1 then some jump else if word == 3 then some leave else none

abbrev code : Stream
code = record {
  base_address = 4096;
  bytes = 1 ∷ 0 ∷ 0 ∷ 0 ∷ 2 ∷ 0 ∷ 0 ∷ 0 ∷ 3 ∷ 0 ∷ 0 ∷ 0 ∷ 9 ∷ [];
  decode_instruction = decode;
}

abbrev listing : Disassembly
listing = record {
  instructions = jump ∷ leave ∷ [];
  data_ranges =
      record { address = 4100; bytes = 2 ∷ 0 ∷ 0 ∷ 0 ∷ []; reason = unreachable }
      ∷ record { address = 4108; bytes = 9 ∷ []; reason = padding }
      ∷ [];
}

disassemble_code : disassemble_recursive code (4096 ∷ []) ≡ some listing
unfolding disassemble_recursive map_disassembly build_disassembly classify tail_range accumulate
    flush_data same_reason explore step visit is_new record_status next_of push_target push in_range
    word_at aligned_end aligned_len get_status initial_state push_entries rounds control_flow
    flow_of direct_branch_target direct_target
disassemble_code = refl

disassemble_recursive_iff_example :
    (d : Disassembly) × (disassemble_recursive code (4096 ∷ []) ≡ some d)
    × ((i : DecodedInstruction)
        → (i ∈ d.instructions)
          ↔ ((a : ℕ) × Reach code (4096 ∷ []) a × (decode a (word_at code a) ≡ some i)))
disassemble_recursive_iff_example = disassemble_recursive_iff code (4096 ∷ []) (omega arith)

disassemble_recursive-Covers_example : Covers code 4096 4109 (jump ∷ leave ∷ []) listing.data_ranges
disassemble_recursive-Covers_example =
    disassemble_recursive-Covers code (4096 ∷ []) listing (omega arith) disassemble_code

-- A call to the word behind a return: both are listed, as the callee comes back.
abbrev call_over : DecodedInstruction
call_over = record { address = 4096; word = 5; mnemonic = bl; operands = branch_target 4104 ∷ [] }

abbrev come_back : ℕ → DecodedInstruction
come_back address = record { address = address; word = 3; mnemonic = ret; operands = [] }

abbrev calling : Stream
calling = record {
  base_address = 4096;
  bytes = 5 ∷ 0 ∷ 0 ∷ 0 ∷ 3 ∷ 0 ∷ 0 ∷ 0 ∷ 3 ∷ 0 ∷ 0 ∷ 0 ∷ [];
  decode_instruction = λ address word.
      if word == 5 then some call_over else if word == 3 then some (come_back address) else none;
}

disassemble_call :
    disassemble_recursive calling (4096 ∷ [])
    ≡ some (record {
      instructions = call_over ∷ come_back 4100 ∷ come_back 4104 ∷ [];
      data_ranges = [];
    })
unfolding disassemble_recursive map_disassembly build_disassembly classify tail_range accumulate
    flush_data same_reason explore step visit is_new record_status next_of push_target push in_range
    word_at aligned_end aligned_len get_status initial_state push_entries rounds control_flow
    flow_of direct_branch_target direct_target
disassemble_call = refl
