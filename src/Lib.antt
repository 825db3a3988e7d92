-- ===== src/Lib.antt =====
-- armv8-encode decodes machine code, builds its control-flow graph, lifts it into a symbolic rewrite
-- plan, lays the plan out at new addresses, and finds room for it in the text of a binary. This library
-- models the parts that decide where code is and where control goes.
--
-- Files and the code they model (paths from the repository's root):
--   Mc.ControlFlow          src/mc/control_flow.rs: the control flow of an instruction
--   Mc.Cfg                  src/mc/cfg.rs: collect_leaders, form_blocks, attach_successors, build and
--                           the queries of a graph; Leaders, Ordering, Blocks, Starting, Tiling,
--                           Edges, Graph, Branches and Queries hold proofs
--   Aarch64                 src/isa/aarch64: the types of table rows, operands and decoded instructions
--   Aarch64.Mnemonic        src/isa/aarch64/table.rs: the names of mnemonics and parse
--   Aarch64.Table           src/isa/aarch64/table.rs: alias conditions and the search for a row; Ranges is
--                           operand_bit_ranges, Branches the rows of the direct branches, Classes tells
--                           classes apart, Matching holds proofs
--   Aarch64.Operand         src/isa/aarch64/operand.rs: the codec of every operand kind. Codec is decode and
--                           encode; Registers, Immediates, Memory, Vectors and System hold the decoders of
--                           a family of kinds and, in a child Encode, its encoders; Pcrel both. Immediates.
--                           Logical is the bitmask immediates. Pcrel.Fields, .RoundTrip, .Pages and .Range,
--                           Immediates.RoundTrip and .Search, Registers.RoundTrip and
--                           .Recovering, Memory.Pairs, Vectors.Lanes, RoundTrip and
--                           Recoding hold proofs
--   Aarch64.Instructions    src/isa/aarch64/mod.rs: decode_instruction and encode_instruction; Encoded, Packed,
--                           Selection and RoundTrip hold proofs
--   Aarch64.ControlFlow     src/isa/aarch64/control_flow.rs and the branch geometry of
--                           src/isa/aarch64/isa_impl.rs
--   Aarch64.Sweep           src/isa/aarch64/sweep.rs: disassemble_bytes and disassemble_bytes_tolerant
--   Aarch64.Recursive       src/isa/aarch64/recursive.rs: disassemble_recursive, build_disassembly,
--                           accumulate and flush_data; Reachable, Walk, Sound, Rounds, Listing and
--                           Covering hold proofs
--   Isa                     src/isa/isa_trait.rs: the trait as a record, over its associated types
--   Container               src/container/types.rs: symbols and their callable addresses
--   Rewrite.Ir              src/rewrite/ir.rs (and the struct of src/rewrite/plan.rs): the symbolic plan
--   Rewrite.Plan            src/rewrite/plan.rs: locate and the edits; Locating, Redirecting, Splicing and
--                           Unfusing hold proofs
--   Rewrite.Layout          src/rewrite/layout.rs: assign_addresses, widen_out_of_range, lay_out,
--                           lay_out_for_size, lay_out_scattered; Widening, Placement, Passes, Pending,
--                           Failures, Reach, Convergence, Refusals, Scattered and Encoding hold proofs
--   Rewrite.Space           src/rewrite/space.rs: plan_reservation and the carving of a Region
--   Base                    shared tests, lists, words, bit fields, texts, signed integers, results and panics
--
-- How they interact: a sweep or the recursive disassembly gives the instructions of a slice, an instance
-- of InstructionInfo tells the graph their addresses and control flow, a plan is laid out through the Isa
-- record, and the space allocator says where the result may go. An instruction is decoded by the row of the
-- opcode table that its word matches, operand by operand, and encoded by the rows of its mnemonic in turn.
--
-- How the code is modelled. Rust's u64, u32 and usize are native numbers; a plain +, - or << of the
-- source wraps at 64 bits as in a release build, where the source relies on it, and the checked,
-- saturating and wrapping operations are written out. i64 is an integer read off a word. A function
-- that may fail returns a Result; an index out of range is the outcome none, or Failure.panic in layout.
-- A HashMap or BTreeMap is an association list or a function, a BTreeSet its elements in order. Loops
-- over slices are structural recursion. lay_out has the 16 rounds of the source. The two nested loops of
-- disassemble_recursive are one step function, run for three rounds a word, two an entry point and one
-- more, which is proved to be enough.
--
-- In the operand codec a word is a number below 2^32 where that matters; `(word >> lo) & mask` is a field,
-- `|` stays a bitwise or, and a shift to the left wraps at 32 bits. A row of the opcode table is an argument,
-- and so is the table itself; the only rows written out are those of the twenty branches, which the
-- comparison of the range table with the encoder reads. Operands that are texts in the source (system
-- registers, conditions, floating-point immediates) are texts here, parsed and printed as there; an f64
-- that format_fpimm8 prints has few enough digits to be exact.
--
-- Not modelled: the other rows of the opcode table (1208 in all), which are data; the formatting of operands in
-- src/isa/aarch64/mod.rs, which is text only; lifting, fusion, emission and the editor; the other instruction
-- sets; and the readers and writers of the container formats, which are file input and output around
-- third-party parsers. The sweeps and the recursive disassembly take their decoder as a parameter.
pub mod Aarch64
pub mod Base
pub mod Container
pub mod Isa
pub mod Mc
pub mod Rewrite
