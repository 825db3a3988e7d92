-- ===== src/Aarch64/Recursive/Reachable.antt =====
-- src/isa/aarch64/recursive.rs: the addresses that control flow reaches from the entry points, and
-- what the walk knows about them at every step.
use mathlib.Core.Path.{subst}
use armv8_encode.Base.{ℕ, ◌≡◌, refl, sym, ap, ◌⊎◌, inl, inr, true, false, Bool-cases, if◌then◌else◌}
use armv8_encode.Base.{Option, none, some, List, ◌∷◌}
use armv8_encode.Base.{◌∈◌, arith}
use armv8_encode.Mc.ControlFlow.{ControlFlow, direct_target}
use armv8_encode.Aarch64.{DecodedInstruction}
use armv8_encode.Aarch64.ControlFlow.{control_flow}
use armv8_encode.Aarch64.Recursive.{Stream, Status, decoded, decode_error, StatusMap, get_status}
use armv8_encode.Aarch64.Recursive.{in_range, word_at, State, push, push_target, next_of}
use armv8_encode.Aarch64.Recursive.{is_new}

-- Behind the instruction at `a`, with that control flow, `b` is its direct target or the address
-- where the walk goes on.
unfoldable pub Follows : ℕ → ControlFlow → ℕ → Type 0
Follows a cf b = (direct_target cf ≡ some b) ⊎ (next_of a cf ≡ some b)

pub data Reach (s : Stream) (entries : List ℕ) : ℕ → Type 0 where
  from_entry : (a : ℕ) → a ∈ entries → in_range s a ≡ true → Reach s entries a
  from_instruction :
      (a b : ℕ) (i : DecodedInstruction)
      → Reach s entries a
      → s.decode_instruction a (word_at s a) ≡ some i
      → Follows a (control_flow i) b
      → in_range s b ≡ true
      → Reach s entries b

-- The status that the decoder gives an address.
unfoldable pub Fits : Stream → ℕ → Status → Type 0
Fits s a (decoded i) = s.decode_instruction a (word_at s a) ≡ some i
Fits s a decode_error = s.decode_instruction a (word_at s a) ≡ none

unfoldable pub Seen : State → ℕ → Type 0
Seen t a = (is_new (get_status t.status a) ≡ false) ⊎ ((a ∈ t.worklist) ⊎ (t.current ≡ some a))

-- What has been classified is reachable and fits; what is waiting is reachable; the entry points in
-- range, and what follows a decoded instruction in range, are classified or waiting.
pub record IsExploring (s : Stream) (entries : List ℕ) (t : State) : Type 0 where
  pub classified :
      (a : ℕ) (st : Status) → get_status t.status a ≡ some st → Reach s entries a × Fits s a st
  pub waiting : (a : ℕ) → a ∈ t.worklist → Reach s entries a
  pub walking : (a : ℕ) → t.current ≡ some a → in_range s a ≡ true → Reach s entries a
  pub has_entries : (a : ℕ) → a ∈ entries → in_range s a ≡ true → Seen t a
  pub is_closed :
      (a b : ℕ) (i : DecodedInstruction)
      → get_status t.status a ≡ some (decoded i)
      → Follows a (control_flow i) b
      → in_range s b ≡ true
      → Seen t b

pub get_status_kept :
    (m : StatusMap) (a b : ℕ) (x : Status)
    → is_new (get_status m b) ≡ false
    → is_new (get_status ((a, x) ∷ m) b) ≡ false
unfolding get_status is_new
get_status_kept m a b x h = ground arith

pub get_status_here : (m : StatusMap) (a : ℕ) (x : Status) → get_status ((a, x) ∷ m) a ≡ some x
unfolding get_status
get_status_here m a x = ground arith

pub get_status_inv :
    (m : StatusMap) (a b : ℕ) (x y : Status)
    → get_status ((a, x) ∷ m) b ≡ some y
    → ((a ≡ b) × (x ≡ y)) ⊎ (get_status m b ≡ some y)
unfolding get_status
get_status_inv m a b x y h = ground arith

pub mem-push_target :
    (s : Stream) (o : Option ℕ) (a : ℕ) (w : List ℕ) → a ∈ w → a ∈ push_target s o w
unfolding push_target push
mem-push_target s none a w h = h
mem-push_target s (some b) a w h = elim (Bool-cases (in_range s b)) [
  | inl e ↦ rw e (inr h)
  | inr e ↦ rw e h
]

pub push_target_here :
    (s : Stream) (a : ℕ) (w : List ℕ) → in_range s a ≡ true → a ∈ push_target s (some a) w
unfolding push_target push
push_target_here s a w h = rw h (inl refl)

pub mem-push_target_inv :
    (s : Stream) (o : Option ℕ) (a : ℕ) (w : List ℕ)
    → a ∈ push_target s o w
    → (a ∈ w) ⊎ ((o ≡ some a) × (in_range s a ≡ true))
unfolding push_target push
mem-push_target_inv s none a w h = inl h
mem-push_target_inv s (some b) a w h = elim (Bool-cases (in_range s b)) [
  | inl e ↦ elim (subst (λ c. a ∈ (if c then b ∷ w else w)) e h) [
    | inl f ↦ inr (ap some (sym f), subst (λ x. in_range s x ≡ true) (sym f) e)
    | inr m ↦ inl m
  ]
  | inr e ↦ inl (subst (λ c. a ∈ (if c then b ∷ w else w)) e h)
]

pub decoded_injective : {i j : DecodedInstruction} → decoded i ≡ decoded j → i ≡ j
decoded_injective e = cc
