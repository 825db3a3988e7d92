-- ===== src/Aarch64/Recursive/Rounds.antt =====
-- src/isa/aarch64/recursive.rs: that the walk ends. Each address in range is classified at most once,
-- and a classification puts at most one address on the worklist.
use mathlib.Core.Path.{subst}
use armv8_encode.Base.{
  ℕ, zero, suc, ◌+◌, ◌-◌, ◌*◌, ◌/◌, ◌%◌, ◌^◌, ◌<◌, ◌≤◌, ◌≡◌, refl, sym, ap, ◌∙◌,
}
use armv8_encode.Base.{
  ◌⊎◌, inl, inr, Bool, true, false, ◌&&◌, if◌then◌else◌, ltb, leb, ◌==◌, Bool-cases,
}
use armv8_encode.Base.{Option, none, some, Option-cases, List, [], ◌∷◌, length, arith}
use armv8_encode.Mc.ControlFlow.{direct_target}
use armv8_encode.Aarch64.{DecodedInstruction}
use armv8_encode.Aarch64.ControlFlow.{control_flow}
use armv8_encode.Aarch64.Recursive.{Stream, Status, decoded, decode_error, StatusMap, get_status}
use armv8_encode.Aarch64.Recursive.{aligned_len, aligned_end, in_range, word_at, State, push}
use armv8_encode.Aarch64.Recursive.{push_target, next_of, record_status, is_new, visit, explore}
use armv8_encode.Aarch64.Recursive.{push_entries, initial_state, rounds}
use armv8_encode.Aarch64.Recursive.Sound.{List-cases, step_walks, step_pops, step_ends}
use armv8_encode.Aarch64.Recursive.Sound.{explore_steps, explore_ends}

abbrev one_if : Bool → ℕ
one_if b = if b then 1 else 0

abbrev one_of : Option ℕ → ℕ
one_of none = 0
one_of (some a) = 1

-- The words among the first `n` that have no status.
count_new : StatusMap → ℕ → ℕ → ℕ
count_new m base zero = 0
count_new m base (suc k) = one_if (is_new (get_status m (base + 4 * k))) + count_new m base k

count_new_kept :
    (m : StatusMap) (base n a : ℕ) (x : Status) → count_new ((a, x) ∷ m) base n ≤ count_new m base n
unfolding count_new get_status is_new
count_new_kept m base zero a x = omega arith
count_new_kept m base (suc k) a x = ground (arith, count_new_kept m base k a x)

last_or_before : (k n : ℕ) → k < suc n → (k ≡ n) ⊎ (k < n)
last_or_before k n h = omega arith

head_kept :
    (m : StatusMap) (a b : ℕ) (x : Status)
    → one_if (is_new (get_status ((a, x) ∷ m) b)) ≤ one_if (is_new (get_status m b))
unfolding get_status is_new
head_kept m a b x = ground arith

head_gone :
    (m : StatusMap) (a b : ℕ) (x : Status) → a ≡ b → is_new (get_status ((a, x) ∷ m) b) ≡ false
unfolding get_status is_new
head_gone m a b x e = ground arith

count_new_falls :
    (m : StatusMap) (base n k : ℕ) (x : Status)
    → k < n
    → is_new (get_status m (base + 4 * k)) ≡ true
    → suc (count_new ((base + 4 * k, x) ∷ m) base n) ≤ count_new m base n
unfolding count_new
count_new_falls m base zero k x h e = absurd (omega arith)
count_new_falls m base (suc n) k x h e = elim (last_or_before k n h) [
  | inl f ↦
      let same = subst (λ j. is_new (get_status m (base + 4 * j)) ≡ true) f e in
      let gone = head_gone m (base + 4 * k) (base + 4 * n) x (ap (λ j. base + 4 * j) f) in
      let kept = count_new_kept m base n (base + 4 * k) x in
      omega (arith, ap one_if same, ap one_if gone)
  | inr f ↦
      omega (arith, head_kept m (base + 4 * k) (base + 4 * n) x, count_new_falls m base n k x f e)
]

count_new-nil : (base n : ℕ) → count_new [] base n ≡ n
unfolding count_new get_status is_new
count_new-nil base zero = refl
count_new-nil base (suc n) = omega (arith, count_new-nil base n)

range_facts :
    (base len a : ℕ)
    → (leb base a && (ltb a ((base + (len - len % 4)) % 2 ^ 64) && ((a - base) % 4 == 0))) ≡ true
    → (base ≤ a) × (a < base + (len - len % 4)) × ((a - base) % 4 ≡ 0)
range_facts base len a h = (ground arith, ground arith, ground arith)

-- An address in range is that of a word.
pub in_range-word :
    (s : Stream) (a : ℕ)
    → in_range s a ≡ true
    → (k : ℕ) × (k < aligned_len s / 4) × (a ≡ s.base_address + 4 * k)
unfolding in_range aligned_end aligned_len
in_range-word s a h =
    let facts = range_facts s.base_address (length s.bytes) a h in
    ((a - s.base_address) / 4, omega arith, omega arith)

length-push_target :
    (s : Stream) (o : Option ℕ) (w : List ℕ) → length (push_target s o w) ≤ suc (length w)
unfolding push_target push
length-push_target s none w = omega arith
length-push_target s (some a) w = ground arith

length-push_entries :
    (s : Stream) (es w : List ℕ) → length (push_entries s es w) ≤ length es + length w
unfolding push_entries push
length-push_entries s [] w = omega arith
length-push_entries s (e ∷ es) w = elim (Bool-cases (in_range s e)) [
  | inl r ↦ rw r (omega (arith, length-push_entries s es (e ∷ w)))
  | inr r ↦ rw r (omega (arith, length-push_entries s es w))
]

-- A bound on the rounds that are left.
weight : Stream → State → ℕ
weight s t =
    3 * count_new t.status s.base_address (aligned_len s / 4)
    + 2 * length t.worklist
    + one_of t.current

module _ (s : Stream) where
  status_falls :
      (m : StatusMap) (a : ℕ) (x : Status)
      → in_range s a ≡ true
      → is_new (get_status m a) ≡ true
      → suc (count_new ((a, x) ∷ m) s.base_address (aligned_len s / 4))
        ≤ count_new m s.base_address (aligned_len s / 4)
  status_falls m a x r e =
      let (k, h, f) = in_range-word s a r in
      subst
        (λ b.
          suc (count_new ((b, x) ∷ m) s.base_address (aligned_len s / 4))
          ≤ count_new m s.base_address (aligned_len s / 4))
        (sym f)
        (count_new_falls m s.base_address (aligned_len s / 4) k x h
          (subst (λ b. is_new (get_status m b) ≡ true) f e))

  one_of_le : (o : Option ℕ) → one_of o ≤ 1
  one_of_le none = omega arith
  one_of_le (some a) = omega arith

  record_falls :
      (t : State) (a : ℕ) (o : Option DecodedInstruction)
      → t.current ≡ some a
      → in_range s a ≡ true
      → is_new (get_status t.status a) ≡ true
      → weight s (record_status s a t o) < weight s t
  unfolding weight record_status
  record_falls t a none c r e =
      let current = ap one_of c in omega (arith, status_falls t.status a decode_error r e)
  record_falls t a (some i) c r e =
      let current = ap one_of c in
      let next = one_of_le (next_of a (control_flow i)) in
      let pushed = length-push_target s (direct_target (control_flow i)) t.worklist in
      omega (arith, status_falls t.status a (decoded i) r e)

  leave_falls :
      (t : State) (a : ℕ) → t.current ≡ some a → weight s (record t { current = none }) < weight s t
  unfolding weight
  leave_falls t a c = let current = ap one_of c in omega arith

  pop_falls :
      (t : State) (a : ℕ) (rest : List ℕ)
      → t.current ≡ none
      → t.worklist ≡ a ∷ rest
      → weight s (record { status = t.status; worklist = rest; current = some a }) < weight s t
  unfolding weight
  pop_falls t a rest c w = let current = ap one_of c in let popped = ap length w in omega arith

  visit_falls : (t : State) (a : ℕ) → t.current ≡ some a → weight s (visit s a t) < weight s t
  unfolding visit
  visit_falls t a c = elim (Bool-cases (in_range s a && is_new (get_status t.status a))) [
    | inr e ↦ rw e (leave_falls t a c)
    | inl e ↦
        rw e
          (record_falls t a (s.decode_instruction a (word_at s a)) c (ground arith) (ground arith))
  ]

  -- With more rounds than the weight, the walk returns.
  explore_total :
      (fuel : ℕ) (t : State) → weight s t < fuel → (m : StatusMap) × (explore s fuel t ≡ some m)
  explore_total zero t h = absurd (omega arith)
  explore_total (suc fuel) t h = elim (Option-cases t.current) [
    | inr (a, c) ↦
        let (m, e) = explore_total fuel (visit s a t) (omega (arith, visit_falls t a c)) in
        (m, explore_steps s fuel t (visit s a t) (step_walks s t a c) ∙ e)
    | inl c ↦ elim (List-cases t.worklist) [
      | inr (a, rest, w) ↦
          let (m, e) = explore_total fuel _ (omega (arith, pop_falls t a rest c w)) in
          (m, explore_steps s fuel t _ (step_pops s t a rest c w) ∙ e)
      | inl w ↦ (t.status, explore_ends s fuel t (step_ends s t c w))
    ]
  ]

  pub rounds_suffice :
      (entries : List ℕ)
      → (m : StatusMap) × (explore s (rounds s entries) (initial_state s entries) ≡ some m)
  unfolding rounds initial_state weight
  rounds_suffice entries =
      let counted = count_new-nil s.base_address (aligned_len s / 4) in
      let pushed = length-push_entries s entries [] in
      explore_total (rounds s entries) (initial_state s entries) (omega arith)
