-- ===== src/Aarch64/Recursive/Listing.antt =====
-- src/isa/aarch64/recursive.rs: the instructions and the data ranges that `build_disassembly` lists.
use mathlib.Core.Path.{subst}
use armv8_encode.Base.{ℕ, zero, suc, ◌+◌, ◌*◌, ◌/◌, ◌^◌, ◌<◌, ◌≡◌, sym, ap, ◌∙◌}
use armv8_encode.Base.{◌⊎◌, ◌↔◌, inl, inr, true}
use armv8_encode.Base.{Option, none, some, Option-cases, some_injective, ◌++◌}
use armv8_encode.Base.{List, [], ◌∷◌, length, ◌∈◌, arith}
use armv8_encode.Base.Word.{wrapping_add}
use armv8_encode.Aarch64.{DecodedInstruction}
use armv8_encode.Aarch64.Recursive.{Stream, Status, decoded, decode_error, StatusMap, get_status}
use armv8_encode.Aarch64.Recursive.{aligned_len, in_range, word_at, explore}
use armv8_encode.Aarch64.Recursive.{initial_state, rounds, Pending, DataReason}
use armv8_encode.Aarch64.Recursive.{flush_data, accumulate, classify}
use armv8_encode.Aarch64.Recursive.{Disassembly, build_disassembly, map_disassembly}
use armv8_encode.Aarch64.Recursive.{disassemble_recursive, unreachable, decode_failure}
use armv8_encode.Aarch64.Recursive.Reachable.{
  Reach, IsExploring, from_entry, from_instruction, Fits, decoded_injective,
}
use armv8_encode.Aarch64.Recursive.Sound.{explore-IsExploring, initial-IsExploring, Reach-decoded}
use armv8_encode.Aarch64.Recursive.Rounds.{rounds_suffice, in_range-word}

-- The two ways a round of the listing goes.
pub classify_lists :
    (s : Stream) (m : StatusMap) (left address : ℕ) (pending : Pending) (i : DecodedInstruction)
    → get_status m address ≡ some (decoded i)
    → classify s m (suc left) address pending ≡ (
      i ∷ (classify s m left (wrapping_add address 4) none).0,
      flush_data s address pending ++ (classify s m left (wrapping_add address 4) none).1,
    )
unfolding classify
classify_lists s m left address pending i e = rw (e, classify)

-- Why a word that is no instruction is data.
reason_of : Option Status → DataReason
reason_of none = unreachable
reason_of (some st) = decode_failure

pub classify_skips :
    (s : Stream) (m : StatusMap) (left address : ℕ) (pending : Pending)
    → (get_status m address ≡ none) ⊎ (get_status m address ≡ some decode_error)
    → (why : DataReason) × (classify s m (suc left) address pending ≡ (
      (classify s m left (wrapping_add address 4) (accumulate s address why pending).1).0,
      (accumulate s address why pending).0
          ++ (classify s m left (wrapping_add address 4) (accumulate s address why pending).1).1,
    ))
unfolding classify
classify_skips s m left address pending (inl e) = (unreachable, rw (e, classify))
classify_skips s m left address pending (inr e) = (decode_failure, rw (e, classify))

pub Status-cases :
    (m : StatusMap) (a : ℕ)
    → ((i : DecodedInstruction) × (get_status m a ≡ some (decoded i)))
      ⊎ ((get_status m a ≡ none) ⊎ (get_status m a ≡ some decode_error))
Status-cases m a = elim (Option-cases (get_status m a)) [
  | inl e ↦ inr (inl e)
  | inr (decoded i, e) ↦ inl (i, e)
  | inr (decode_error, e) ↦ inr (inr e)
]

-- The instruction `i` is that of one of the next `left` words.
IsListed : StatusMap → ℕ → ℕ → DecodedInstruction → Type 0
IsListed m left address i =
    (k : ℕ) × (k < left) × (get_status m (address + 4 * k) ≡ some (decoded i))

add_four :
    (address left : ℕ) → address + 4 * suc left < 2 ^ 64 → wrapping_add address 4 ≡ address + 4
add_four address left h = omega arith

IsListed-here :
    (m : StatusMap) (left address : ℕ) (i : DecodedInstruction)
    → get_status m address ≡ some (decoded i)
    → IsListed m (suc left) address i
unfolding IsListed
IsListed-here m left address i e =
    let same : address ≡ address + 4 * 0 = omega arith in
    (0, omega arith, subst (λ a. get_status m a ≡ some (decoded i)) same e)

IsListed-next :
    (m : StatusMap) (left address : ℕ) (i : DecodedInstruction)
    → address + 4 * suc left < 2 ^ 64
    → IsListed m left (wrapping_add address 4) i
    → IsListed m (suc left) address i
unfolding IsListed
IsListed-next m left address i h (k, small, e) =
    let same : wrapping_add address 4 + 4 * k ≡ address + 4 * suc k = omega arith in
    (suc k, omega arith, subst (λ a. get_status m a ≡ some (decoded i)) same e)

IsListed-inv :
    (m : StatusMap) (left address : ℕ) (i : DecodedInstruction)
    → address + 4 * suc left < 2 ^ 64
    → IsListed m (suc left) address i
    → (get_status m address ≡ some (decoded i)) ⊎ IsListed m left (wrapping_add address 4) i
unfolding IsListed
IsListed-inv m left address i h (zero, small, e) =
    let same : address + 4 * 0 ≡ address = omega arith in
    inl (subst (λ a. get_status m a ≡ some (decoded i)) same e)
IsListed-inv m left address i h (suc k, small, e) =
    let same : address + 4 * suc k ≡ wrapping_add address 4 + 4 * k = omega arith in
    inr (k, omega arith, subst (λ a. get_status m a ≡ some (decoded i)) same e)

not_decoded :
    (m : StatusMap) (a : ℕ) (i : DecodedInstruction)
    → (get_status m a ≡ none) ⊎ (get_status m a ≡ some decode_error)
    → get_status m a ≡ some (decoded i)
    → ⊥
not_decoded m a i (inl e) f = cc
not_decoded m a i (inr e) f = cc

mem-classify :
    (s : Stream) (m : StatusMap) (left address : ℕ) (pending : Pending) (i : DecodedInstruction)
    → address + 4 * left < 2 ^ 64
    → i ∈ (classify s m left address pending).0
    → IsListed m left address i
unfolding classify
mem-classify s m zero address pending i h k = absurd k
mem-classify s m (suc left) address pending i h k =
    let small : wrapping_add address 4 + 4 * left < 2 ^ 64 = omega arith in
    elim (Status-cases m address) [
      | inl (j, e) ↦ elim (subst (λ r. i ∈ r.0) (classify_lists s m left address pending j e) k) [
        | inl f ↦ IsListed-here m left address i (e ∙ ap (λ x. some (decoded x)) (sym f))
        | inr k' ↦
            IsListed-next m left address i h
              (mem-classify s m left (wrapping_add address 4) none i small k')
      ]
      | inr e ↦
          let (why, f) = classify_skips s m left address pending e in
          IsListed-next m left address i h (
            mem-classify s m left (wrapping_add address 4) (accumulate s address why pending).1 i
              small (subst (λ r. i ∈ r.0) f k))
    ]

IsListed-mem :
    (s : Stream) (m : StatusMap) (left address : ℕ) (pending : Pending) (i : DecodedInstruction)
    → address + 4 * left < 2 ^ 64
    → IsListed m left address i
    → i ∈ (classify s m left address pending).0
unfolding classify
IsListed-mem s m zero address pending i h k = absurd (unfold IsListed in omega (arith, k.1))
IsListed-mem s m (suc left) address pending i h k =
    let small : wrapping_add address 4 + 4 * left < 2 ^ 64 = omega arith in
    elim (Status-cases m address) [
      | inl (j, e) ↦
          subst (λ r. i ∈ r.0) (sym (classify_lists s m left address pending j e))
            (elim (IsListed-inv m left address i h k) [
              | inl f ↦ inl (decoded_injective (some_injective (sym f ∙ e)))
              | inr k' ↦ inr (IsListed-mem s m left (wrapping_add address 4) none i small k')
            ])
      | inr e ↦
          let (why, f) = classify_skips s m left address pending e in
          subst (λ r. i ∈ r.0) (sym f)
            (elim (IsListed-inv m left address i h k) [
              | inl g ↦ absurd (not_decoded m address i e g)
              | inr k' ↦
                  IsListed-mem s m left (wrapping_add address 4)
                    (accumulate s address why pending).1 i small k'
            ])
    ]

returns :
    (s : Stream) (entries : List ℕ) (m : StatusMap)
    → explore s (rounds s entries) (initial_state s entries) ≡ some m
    → disassemble_recursive s entries ≡ some (build_disassembly s m)
unfolding disassemble_recursive map_disassembly
returns s entries m e = rw e

module _ (s : Stream) (entries : List ℕ) (m : StatusMap)
    (inv : IsExploring s entries (record { status = m; worklist = []; current = none }))
    (small : s.base_address + length s.bytes < 2 ^ 64) where
  -- The listing does not run over the end of the address space.
  fits : s.base_address + 4 * (aligned_len s / 4) < 2 ^ 64
  unfolding aligned_len
  fits = omega arith

  listed-Reach :
      (i : DecodedInstruction)
      → i ∈ (build_disassembly s m).instructions
      → (a : ℕ) × Reach s entries a × (s.decode_instruction a (word_at s a) ≡ some i)
  unfolding build_disassembly IsListed Fits
  listed-Reach i k =
      let (n, _, e) = mem-classify s m (aligned_len s / 4) s.base_address none i fits k in
      let (r, d) = inv.classified (s.base_address + 4 * n) (decoded i) e in
      (s.base_address + 4 * n, r, d)

  Reach-in_range : (a : ℕ) → Reach s entries a → in_range s a ≡ true
  Reach-in_range a (from_entry a' k q) = q
  Reach-in_range b (from_instruction a b' i r d f q) = q

  Reach-listed :
      (i : DecodedInstruction) (a : ℕ)
      → Reach s entries a
      → s.decode_instruction a (word_at s a) ≡ some i
      → i ∈ (build_disassembly s m).instructions
  unfolding build_disassembly IsListed
  Reach-listed i a r d =
      let (n, h, f) = in_range-word s a (Reach-in_range a r) in
      IsListed-mem s m (aligned_len s / 4) s.base_address none i fits (
        n,
        h,
        subst (λ x. get_status m x ≡ some (decoded i)) f (Reach-decoded s entries m a i inv r d),
      )

-- `disassemble_recursive` returns within its rounds, and it lists an instruction exactly if that is
-- what the decoder reads at an address in range to which control flow leads from an entry point in
-- range, where the stream ends below 2^64.
pub disassemble_recursive_iff :
    (s : Stream) (entries : List ℕ)
    → s.base_address + length s.bytes < 2 ^ 64
    → (d : Disassembly) × (disassemble_recursive s entries ≡ some d)
      × ((i : DecodedInstruction)
          → (i ∈ d.instructions)
            ↔ ((a : ℕ) × Reach s entries a × (s.decode_instruction a (word_at s a) ≡ some i)))
disassemble_recursive_iff s entries small =
    let (m, e) = rounds_suffice s entries in
    let inv =
      explore-IsExploring s entries (rounds s entries) (initial_state s entries) m
        (initial-IsExploring s entries) e in
    (
      build_disassembly s m,
      returns s entries m e,
      λ i. (
        listed-Reach s entries m inv small i,
        λ k. Reach-listed s entries m inv small i k.0 k.1 k.2,
      ),
    )
