-- ===== src/Aarch64/Recursive/Covering.antt =====
-- src/isa/aarch64/recursive.rs: that the disassembly accounts for every byte once, at its address.
use mathlib.Core.Path.{subst}
use armv8_encode.Base.{ℕ, zero, suc, ◌+◌, ◌-◌, ◌*◌, ◌/◌, ◌^◌, ◌<◌, ◌≤◌, ◌≡◌, refl, sym, ap, ◌∙◌}
use armv8_encode.Base.{inl, inr, ltb, Bool-cases}
use armv8_encode.Base.{none, some, some_injective, Option-cases, ◌++◌, take, drop}
use armv8_encode.Base.{List, [], ◌∷◌, length, length-take, length-drop, arith}
use armv8_encode.Base.Word.{wrapping_add}
use armv8_encode.Aarch64.{DecodedInstruction}
use armv8_encode.Aarch64.Recursive.{Stream, StatusMap, aligned_len, aligned_end, word_at, decoded}
use armv8_encode.Aarch64.Recursive.{explore, initial_state, rounds, Pending, get_status}
use armv8_encode.Aarch64.Recursive.{DataReason, DataRange, flush_data, same_reason, accumulate}
use armv8_encode.Aarch64.Recursive.{classify, tail_range, Disassembly, build_disassembly}
use armv8_encode.Aarch64.Recursive.{map_disassembly, disassemble_recursive}
use armv8_encode.Aarch64.Recursive.Listing.{Status-cases, classify_lists, classify_skips}
use armv8_encode.Aarch64.Recursive.Reachable.{Fits}
use armv8_encode.Aarch64.Recursive.Sound.{explore-IsExploring, initial-IsExploring}

-- An instruction at an address, or a data range.
pub data Piece : Type 0 where
  code : ℕ → DecodedInstruction → Piece
  range : DataRange → Piece

abbrev pub instructions_of : List Piece → List DecodedInstruction
instructions_of [] = []
instructions_of (code address i ∷ ps) = i ∷ instructions_of ps
instructions_of (range r ∷ ps) = instructions_of ps

abbrev pub ranges_of : List Piece → List DataRange
ranges_of [] = []
ranges_of (code address i ∷ ps) = ranges_of ps
ranges_of (range r ∷ ps) = r ∷ ranges_of ps

-- The pieces lie one behind the other between two addresses. An instruction is what the decoder reads
-- at its address, and takes four bytes; a range has the bytes of the stream that are at its address.
unfoldable pub Tiles : Stream → ℕ → List Piece → ℕ → Type 0
Tiles s from [] to = from ≡ to
Tiles s from (code address i ∷ ps) to =
    (address ≡ from)
    × (s.decode_instruction address (word_at s address) ≡ some i)
    × Tiles s (from + 4) ps to
Tiles s from (range r ∷ ps) to =
    (r.address ≡ from)
    × (r.bytes ≡ take (length r.bytes) (drop (from - s.base_address) s.bytes))
    × Tiles s (from + length r.bytes) ps to

-- Instructions and ranges that fill the addresses between two.
pub record Covers (s : Stream) (from to : ℕ) (is : List DecodedInstruction) (rs : List DataRange)
    : Type 0 where
  pub pieces : List Piece
  pub are_instructions : instructions_of pieces ≡ is
  pub are_ranges : ranges_of pieces ≡ rs
  pub tiles : Tiles s from pieces to

instructions_of-append :
    (ps qs : List Piece) → instructions_of (ps ++ qs) ≡ instructions_of ps ++ instructions_of qs
instructions_of-append [] qs = refl
instructions_of-append (code address i ∷ ps) qs = ap (λ is. i ∷ is) (instructions_of-append ps qs)
instructions_of-append (range r ∷ ps) qs = instructions_of-append ps qs

ranges_of-append : (ps qs : List Piece) → ranges_of (ps ++ qs) ≡ ranges_of ps ++ ranges_of qs
ranges_of-append [] qs = refl
ranges_of-append (code address i ∷ ps) qs = ranges_of-append ps qs
ranges_of-append (range r ∷ ps) qs = ap (λ rs. r ∷ rs) (ranges_of-append ps qs)

Tiles-append :
    (s : Stream) (from middle to : ℕ) (ps qs : List Piece)
    → Tiles s from ps middle
    → Tiles s middle qs to
    → Tiles s from (ps ++ qs) to
unfolding Tiles
Tiles-append s from middle to [] qs h k = subst (λ a. Tiles s a qs to) (sym h) k
Tiles-append s from middle to (code address i ∷ ps) qs h k =
    (h.0, h.1, Tiles-append s (from + 4) middle to ps qs h.2 k)
Tiles-append s from middle to (range r ∷ ps) qs h k =
    (h.0, h.1, Tiles-append s (from + length r.bytes) middle to ps qs h.2 k)

Covers-append :
    (s : Stream) (from middle to : ℕ) (is js : List DecodedInstruction) (rs qs : List DataRange)
    → Covers s from middle is rs
    → Covers s middle to js qs
    → Covers s from to (is ++ js) (rs ++ qs)
Covers-append s from middle to is js rs qs h k = record {
  pieces = h.pieces ++ k.pieces;
  are_instructions =
      instructions_of-append h.pieces k.pieces
      ∙ ap (λ xs. xs ++ instructions_of k.pieces) h.are_instructions
      ∙ ap (λ xs. is ++ xs) k.are_instructions;
  are_ranges =
      ranges_of-append h.pieces k.pieces
      ∙ ap (λ xs. xs ++ ranges_of k.pieces) h.are_ranges
      ∙ ap (λ xs. rs ++ xs) k.are_ranges;
  tiles = Tiles-append s from middle to h.pieces k.pieces h.tiles k.tiles;
}

Covers-nothing : (s : Stream) (address : ℕ) → Covers s address address [] []
unfolding Tiles
Covers-nothing s address = record {
  pieces = [];
  are_instructions = refl;
  are_ranges = refl;
  tiles = refl;
}

Covers-range :
    (s : Stream) (from to : ℕ) (r : DataRange)
    → r.address ≡ from
    → r.bytes ≡ take (length r.bytes) (drop (from - s.base_address) s.bytes)
    → from + length r.bytes ≡ to
    → Covers s from to [] (r ∷ [])
unfolding Tiles
Covers-range s from to r at bytes ends = record {
  pieces = range r ∷ [];
  are_instructions = refl;
  are_ranges = refl;
  tiles = (at, bytes, ends);
}

Covers-code :
    (s : Stream) (address : ℕ) (i : DecodedInstruction)
    → s.decode_instruction address (word_at s address) ≡ some i
    → Covers s address (address + 4) (i ∷ []) []
unfolding Tiles
Covers-code s address i d = record {
  pieces = code address i ∷ [];
  are_instructions = refl;
  are_ranges = refl;
  tiles = (refl, d, refl);
}

-- What is pending starts in the stream, and not behind the address.
abbrev StartsBefore : Stream → ℕ → Pending → Type 0
StartsBefore s address none = Unit
StartsBefore s address (some (start, why)) = (s.base_address ≤ start) × (start ≤ address)

abbrev start_of : Pending → ℕ → ℕ
start_of none address = address
start_of (some (start, why)) address = start

take_whole : (xs : List ℕ) → xs ≡ take (length xs) xs
take_whole [] = refl
take_whole (x ∷ xs) = ap (λ ys. x ∷ ys) (take_whole xs)

append_nil : (is : List DecodedInstruction) → is ++ [] ≡ is
append_nil [] = refl
append_nil (i ∷ is) = ap (λ js. i ∷ js) (append_nil is)

take_all : (n : ℕ) (xs : List ℕ) → n ≤ length xs → take n xs ≡ take (length (take n xs)) xs
take_all n xs h = ap (λ k. take k xs) (omega (arith, length-take n xs))

module _ (s : Stream) where
  flush-Covers :
      (address : ℕ) (pending : Pending)
      → address ≤ s.base_address + length s.bytes
      → StartsBefore s address pending
      → Covers s (start_of pending address) address [] (flush_data s address pending)
  unfolding flush_data
  flush-Covers address none h k = Covers-nothing s address
  flush-Covers address (some (start, why)) h k =
      let from = start - s.base_address in
      let count = address - s.base_address - from in
      let there = length-drop from s.bytes in
      let taken = length-take count (drop from s.bytes) in
      Covers-range s start address _ refl
        (take_all count (drop from s.bytes) (omega (arith, there))) (omega (arith, there, taken))

  -- What is kept pending starts where the ranges that are given out end.
  accumulate-Covers :
      (address : ℕ) (why : DataReason) (pending : Pending)
      → s.base_address ≤ address
      → address ≤ s.base_address + length s.bytes
      → StartsBefore s address pending
      → Covers s
          (start_of pending address)
          (start_of (accumulate s address why pending).1 (wrapping_add address 4))
          []
          (accumulate s address why pending).0
        × StartsBefore s (address + 4) (accumulate s address why pending).1
  unfolding accumulate
  accumulate-Covers address why none a h k = (Covers-nothing s address, (omega arith, omega arith))
  accumulate-Covers address why (some (start, before)) a h k =
      elim (Bool-cases (same_reason before why)) [
        | inl e ↦ rw e (Covers-nothing s start, (omega arith, omega arith))
        | inr e ↦ rw e (flush-Covers address (some (start, before)) h k, (omega arith, omega arith))
      ]

  -- The statuses are what the decoder reads.
  abbrev AreRead : StatusMap → Type 0
  AreRead m =
      (address : ℕ) (i : DecodedInstruction)
      → get_status m address ≡ some (decoded i)
      → s.decode_instruction address (word_at s address) ≡ some i

  classify-Covers :
      (m : StatusMap) (left address : ℕ) (pending : Pending)
      → AreRead m
      → s.base_address + length s.bytes < 2 ^ 64
      → s.base_address ≤ address
      → address + 4 * left ≤ s.base_address + length s.bytes
      → StartsBefore s address pending
      → Covers s
          (start_of pending address)
          (address + 4 * left)
          (classify s m left address pending).0
          (classify s m left address pending).1
  classify-Covers m zero address pending read small a h k =
      unfold classify in
      subst (λ to. Covers s (start_of pending address) to [] (flush_data s address pending))
        (omega arith) (flush-Covers address pending (omega arith) k)
  classify-Covers m (suc left) address pending read small a h k =
      let next = wrapping_add address 4 in
      let moved : next ≡ address + 4 = omega arith in
      let ends : next + 4 * left ≡ address + 4 * suc left = omega arith in
      elim (Status-cases m address) [
        | inl (j, e) ↦
            let rest = classify s m left next none in
            let covered : Covers s next (next + 4 * left) rest.0 rest.1 =
              classify-Covers m left next none read small (omega arith) (omega arith) tt in
            let behind : Covers s (address + 4) (address + 4 * suc left) rest.0 rest.1 =
              subst (λ from. Covers s from (address + 4 * suc left) rest.0 rest.1) moved
                (subst (λ to. Covers s next to rest.0 rest.1) ends covered) in
            let here =
              Covers-append s address (address + 4) (address + 4 * suc left) (j ∷ []) rest.0 []
                rest.1 (Covers-code s address j (read address j e)) behind in
            let all =
              Covers-append s (start_of pending address) address (address + 4 * suc left) []
                (j ∷ rest.0) (flush_data s address pending) rest.1
                (flush-Covers address pending (omega arith) k) here in
            subst (λ r. Covers s (start_of pending address) (address + 4 * suc left) r.0 r.1)
              (sym (classify_lists s m left address pending j e)) all
        | inr e ↦
            let (why, f) = classify_skips s m left address pending e in
            let kept = accumulate s address why pending in
            let rest = classify s m left next kept.1 in
            let (given, starts) = accumulate-Covers address why pending a (omega arith) k in
            let covered : Covers s (start_of kept.1 next) (next + 4 * left) rest.0 rest.1 =
              classify-Covers m left next kept.1 read small (omega arith) (omega arith)
                (subst (λ x. StartsBefore s x kept.1) (sym moved) starts) in
            let all =
              Covers-append s (start_of pending address) (start_of kept.1 next) (next + 4 * left) []
                rest.0 kept.0 rest.1 given covered in
            subst (λ r. Covers s (start_of pending address) (address + 4 * suc left) r.0 r.1)
              (sym f)
              (subst (λ to. Covers s (start_of pending address) to rest.0 (kept.0 ++ rest.1)) ends
                all)
      ]

  tail-Covers :
      s.base_address + length s.bytes < 2 ^ 64
      → Covers s
          (s.base_address + 4 * (aligned_len s / 4))
          (s.base_address + length s.bytes)
          []
          (tail_range s)
  unfolding tail_range aligned_end aligned_len
  tail-Covers small = elim (Bool-cases (ltb (aligned_len s) (length s.bytes))) [
    | inl e ↦
        let there = length-drop (aligned_len s) s.bytes in
        let place : aligned_len s ≡ s.base_address + 4 * (aligned_len s / 4) - s.base_address =
          omega arith in
        rw e (
          Covers-range s (s.base_address + 4 * (aligned_len s / 4))
            (s.base_address + length s.bytes) _ (omega arith)
            (take_whole (drop (aligned_len s) s.bytes)
              ∙ ap (λ n. take (length (drop (aligned_len s) s.bytes)) (drop n s.bytes)) place)
            (omega (arith, there)))
    | inr e ↦
        let same : s.base_address + 4 * (aligned_len s / 4) ≡ s.base_address + length s.bytes =
          ground arith in
        rw e (
          subst (λ to. Covers s (s.base_address + 4 * (aligned_len s / 4)) to [] []) same
            (Covers-nothing s (s.base_address + 4 * (aligned_len s / 4))))
  ]

build-Covers :
    (s : Stream) (m : StatusMap)
    → AreRead s m
    → s.base_address + length s.bytes < 2 ^ 64
    → Covers s s.base_address
        (s.base_address + length s.bytes)
        (build_disassembly s m).instructions
        (build_disassembly s m).data_ranges
unfolding build_disassembly
build-Covers s m read small =
    let found = classify s m (aligned_len s / 4) s.base_address none in
    let fits : s.base_address + 4 * (aligned_len s / 4) ≤ s.base_address + length s.bytes =
      unfold aligned_len in omega arith in
    let counted = classify-Covers s m (aligned_len s / 4) s.base_address none read small in
    let all =
      Covers-append s s.base_address (s.base_address + 4 * (aligned_len s / 4))
        (s.base_address + length s.bytes) found.0 [] found.1 (tail_range s)
        (counted (omega arith) fits tt) (tail-Covers s small) in
    subst
      (λ is. Covers s s.base_address (s.base_address + length s.bytes) is (found.1 ++ tail_range s))
      (append_nil found.0) all

-- Where the stream ends below 2^64, the disassembly that `disassemble_recursive` returns accounts for
-- every byte once: its instructions and data ranges, put together in some order that keeps both lists,
-- lie one behind the other from the first address of the stream to its end. Each instruction takes four
-- bytes and is what the decoder reads there, and each range has the bytes that are there.
pub disassemble_recursive-Covers :
    (s : Stream) (entries : List ℕ) (d : Disassembly)
    → s.base_address + length s.bytes < 2 ^ 64
    → disassemble_recursive s entries ≡ some d
    → Covers s s.base_address (s.base_address + length s.bytes) d.instructions d.data_ranges
unfolding disassemble_recursive map_disassembly Fits
disassemble_recursive-Covers s entries d small h =
    elim (Option-cases (explore s (rounds s entries) (initial_state s entries))) [
      | inl e ↦ absurd (ground arith)
      | inr (m, e) ↦
          let inv =
            explore-IsExploring s entries (rounds s entries) (initial_state s entries) m
              (initial-IsExploring s entries) e in
          let read : AreRead s m = λ address i f. (inv.classified address (decoded i) f).1 in
          subst
            (λ x.
              Covers s s.base_address (s.base_address + length s.bytes) x.instructions
                x.data_ranges)
            (some_injective (sym (ap (map_disassembly s) e) ∙ h)) (build-Covers s m read small)
    ]
