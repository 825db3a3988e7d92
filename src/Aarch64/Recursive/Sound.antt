-- ===== src/Aarch64/Recursive/Sound.antt =====
-- src/isa/aarch64/recursive.rs: what the statuses are when the worklist is empty.
use mathlib.Core.Path.{subst}
use armv8_encode.Base.{ℕ, zero, suc, ◌≡◌, refl, sym, ap, ◌∙◌, ◌⊎◌, inl, inr, true}
use armv8_encode.Base.{Bool-cases, none, some, Option-cases, some_injective}
use armv8_encode.Base.{List, [], ◌∷◌, ◌∈◌, arith}
use armv8_encode.Aarch64.{DecodedInstruction}
use armv8_encode.Aarch64.Recursive.{Stream, Status, decoded, decode_error, StatusMap, get_status}
use armv8_encode.Aarch64.Recursive.{in_range, word_at, State, push, explore, get_status}
use armv8_encode.Aarch64.Recursive.{is_new, visit, step, push_entries, initial_state}
use armv8_encode.Aarch64.Recursive.Reachable.{Reach, from_entry, from_instruction, Fits, Seen}
use armv8_encode.Aarch64.Recursive.Reachable.{IsExploring}
use armv8_encode.Aarch64.Recursive.Walk.{visit-IsExploring}

pub List-cases :
    {A : Type 0} (xs : List A) → (xs ≡ []) ⊎ ((x : A) × (rest : List A) × (xs ≡ x ∷ rest))
List-cases [] = inl refl
List-cases (x ∷ xs) = inr (x, xs, refl)

-- The three things a step does.
pub step_walks :
    (s : Stream) (t : State) (a : ℕ) → t.current ≡ some a → step s t ≡ some (visit s a t)
unfolding step
step_walks s t a c = ground arith

pub step_pops :
    (s : Stream) (t : State) (a : ℕ) (rest : List ℕ)
    → t.current ≡ none
    → t.worklist ≡ a ∷ rest
    → step s t ≡ some (record { status = t.status; worklist = rest; current = some a })
unfolding step
step_pops s t a rest c w = ground arith

pub step_ends : (s : Stream) (t : State) → t.current ≡ none → t.worklist ≡ [] → step s t ≡ none
unfolding step
step_ends s t c w = ground arith

pub explore_steps :
    (s : Stream) (fuel : ℕ) (t t' : State)
    → step s t ≡ some t'
    → explore s (suc fuel) t ≡ explore s fuel t'
unfolding explore
explore_steps s fuel t t' e = rw (e, explore)

pub explore_ends :
    (s : Stream) (fuel : ℕ) (t : State) → step s t ≡ none → explore s (suc fuel) t ≡ some t.status
unfolding explore
explore_ends s fuel t e = rw (e, explore)

Seen-popped :
    (t : State) (a b : ℕ) (rest : List ℕ)
    → t.current ≡ none
    → t.worklist ≡ a ∷ rest
    → Seen t b
    → Seen (record { status = t.status; worklist = rest; current = some a }) b
unfolding Seen
Seen-popped t a b rest c w (inl e) = inl e
Seen-popped t a b rest c w (inr (inl m)) = elim (subst (λ ws. b ∈ ws) w m) [
  | inl e ↦ inr (inr (ap some (sym e)))
  | inr m' ↦ inr (inl m')
]
Seen-popped t a b rest c w (inr (inr e)) = cc

module _ (s : Stream) (entries : List ℕ) where
  pop-IsExploring :
      (t : State) (a : ℕ) (rest : List ℕ)
      → IsExploring s entries t
      → t.current ≡ none
      → t.worklist ≡ a ∷ rest
      → IsExploring s entries (record { status = t.status; worklist = rest; current = some a })
  pop-IsExploring t a rest inv c w = record {
    classified = inv.classified;
    waiting = λ b m. inv.waiting b (subst (λ ws. b ∈ ws) (sym w) (inr m));
    walking = λ b e q. inv.waiting b (subst (λ ws. b ∈ ws) (sym w) (inl (sym (some_injective e))));
    has_entries = λ b m q. Seen-popped t a b rest c w (inv.has_entries b m q);
    is_closed = λ x b j g f q. Seen-popped t a b rest c w (inv.is_closed x b j g f q);
  }

  -- When the walk returns, nothing is waiting.
  pub explore-IsExploring :
      (fuel : ℕ) (t : State) (m : StatusMap)
      → IsExploring s entries t
      → explore s fuel t ≡ some m
      → IsExploring s entries (record { status = m; worklist = []; current = none })
  unfolding explore
  explore-IsExploring zero t m inv h = cc
  explore-IsExploring (suc fuel) t m inv h = elim (Option-cases t.current) [
    | inr (a, c) ↦
        explore-IsExploring fuel (visit s a t) m (visit-IsExploring s entries t a inv c)
          (sym (explore_steps s fuel t (visit s a t) (step_walks s t a c)) ∙ h)
    | inl c ↦ elim (List-cases t.worklist) [
      | inr (a, rest, w) ↦
          explore-IsExploring fuel _ m (pop-IsExploring t a rest inv c w)
            (sym (explore_steps s fuel t _ (step_pops s t a rest c w)) ∙ h)
      | inl w ↦
          let same : t.status ≡ m =
            some_injective (sym (explore_ends s fuel t (step_ends s t c w)) ∙ h) in
          let ended : IsExploring s entries
              (record { status = t.status; worklist = []; current = none }) =
            subst
              (λ o.
                IsExploring s entries (record { status = t.status; worklist = []; current = o }))
              c
              (subst
                (λ ws.
                  IsExploring s entries
                    (record { status = t.status; worklist = ws; current = t.current }))
                w inv) in
          subst (λ x. IsExploring s entries (record { status = x; worklist = []; current = none }))
            same ended
    ]
  ]

  push_entries-mem :
      (es w : List ℕ) (a : ℕ) → in_range s a ≡ true → (a ∈ es) ⊎ (a ∈ w) → a ∈ push_entries s es w
  unfolding push_entries push
  push_entries-mem [] w a q (inl m) = absurd m
  push_entries-mem [] w a q (inr m) = m
  push_entries-mem (e ∷ es) w a q (inl (inl f)) =
      push_entries-mem es (push s e w) a q (inr (subst (λ x. a ∈ push s x w) f (rw q (inl refl))))
  push_entries-mem (e ∷ es) w a q (inl (inr m)) = push_entries-mem es (push s e w) a q (inl m)
  push_entries-mem (e ∷ es) w a q (inr m) = elim (Bool-cases (in_range s e)) [
    | inl r ↦ push_entries-mem es (push s e w) a q (inr (rw r (inr m)))
    | inr r ↦ push_entries-mem es (push s e w) a q (inr (rw r m))
  ]

  push_entries-Reach :
      (es w : List ℕ)
      → ((a : ℕ) → a ∈ es → a ∈ entries)
      → ((a : ℕ) → a ∈ w → Reach s entries a)
      → (a : ℕ) → a ∈ push_entries s es w
      → Reach s entries a
  unfolding push_entries push
  push_entries-Reach [] w f g a m = g a m
  push_entries-Reach (e ∷ es) w f g a m =
      push_entries-Reach es (push s e w) (λ x h. f x (inr h))
        (elim (Bool-cases (in_range s e)) [
          | inl r ↦ rw r (λ x h. elim h [
            | inl same ↦ subst (λ y. Reach s entries y) (sym same) (from_entry e (f e (inl refl)) r)
            | inr old ↦ g x old
          ])
          | inr r ↦ rw r g
        ])
        a m

  pub initial-IsExploring : IsExploring s entries (initial_state s entries)
  unfolding initial_state Seen get_status
  initial-IsExploring = record {
    classified = λ a st h. cc;
    waiting = push_entries-Reach entries [] (λ a m. m) (λ a m. absurd m);
    walking = λ a e q. cc;
    has_entries = λ a m q. inr (inl (push_entries-mem entries [] a q (inl m)));
    is_closed = λ a b i h f q. cc;
  }

  Seen-end :
      (m : StatusMap) (a : ℕ)
      → IsExploring s entries (record { status = m; worklist = []; current = none })
      → Seen (record { status = m; worklist = []; current = none }) a
      → (st : Status) × (get_status m a ≡ some st) × Fits s a st
  unfolding Seen is_new
  Seen-end m a inv (inl h) = elim (Option-cases (get_status m a)) [
    | inl e ↦ absurd (ground arith)
    | inr (st, e) ↦ (st, e, (inv.classified a st e).1)
  ]
  Seen-end m a inv (inr (inl k)) = absurd k
  Seen-end m a inv (inr (inr e)) = cc

  Fits-decoded :
      (m : StatusMap) (a : ℕ) (i : DecodedInstruction)
      → (st : Status) × (get_status m a ≡ some st) × Fits s a st
      → s.decode_instruction a (word_at s a) ≡ some i
      → get_status m a ≡ some (decoded i)
  unfolding Fits
  Fits-decoded m a i (decoded j, e, h) d =
      e ∙ ap (λ x. some (decoded x)) (some_injective (sym h ∙ d))
  Fits-decoded m a i (decode_error, e, h) d = cc

  -- Every reachable address is classified in the end, by what the decoder says of it.
  pub Reach-classified :
      (m : StatusMap) (a : ℕ)
      → IsExploring s entries (record { status = m; worklist = []; current = none })
      → Reach s entries a
      → (st : Status) × (get_status m a ≡ some st) × Fits s a st
  Reach-classified m a inv (from_entry a' k q) = Seen-end m a inv (inv.has_entries a k q)
  Reach-classified m b inv (from_instruction a b' i r d f q) =
      Seen-end m b inv (inv.is_closed a b i (Fits-decoded m a i (Reach-classified m a inv r) d) f q)

  pub Reach-decoded :
      (m : StatusMap) (a : ℕ) (i : DecodedInstruction)
      → IsExploring s entries (record { status = m; worklist = []; current = none })
      → Reach s entries a
      → s.decode_instruction a (word_at s a) ≡ some i
      → get_status m a ≡ some (decoded i)
  Reach-decoded m a i inv r d = Fits-decoded m a i (Reach-classified m a inv r) d
