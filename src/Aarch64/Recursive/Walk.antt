-- ===== src/Aarch64/Recursive/Walk.antt =====
-- src/isa/aarch64/recursive.rs: that every round of the walk keeps what it knows, so that at its end
-- exactly the reachable addresses are classified.
use mathlib.Core.Path.{subst}
use armv8_encode.Base.{ℕ, ◌≡◌, refl, sym, ap, ◌∙◌, inl, inr, Bool, true, false}
use armv8_encode.Base.{◌&&◌, Bool-cases, Option, none, some, some_injective}
use armv8_encode.Base.{List, ◌∷◌, ◌∈◌, arith}
use armv8_encode.Mc.ControlFlow.{direct_target}
use armv8_encode.Aarch64.{DecodedInstruction}
use armv8_encode.Aarch64.ControlFlow.{control_flow}
use armv8_encode.Aarch64.Recursive.{Stream, decoded, decode_error, get_status}
use armv8_encode.Aarch64.Recursive.{in_range, word_at, State, push_target}
use armv8_encode.Aarch64.Recursive.{record_status, is_new, visit}
use armv8_encode.Aarch64.Recursive.Reachable.{Follows, Reach, from_instruction, Fits, Seen}
use armv8_encode.Aarch64.Recursive.Reachable.{IsExploring, get_status_kept, get_status_here}
use armv8_encode.Aarch64.Recursive.Reachable.{get_status_inv, mem-push_target, push_target_here}
use armv8_encode.Aarch64.Recursive.Reachable.{mem-push_target_inv, decoded_injective}

and_false : (x y : Bool) → x ≡ true → (x && y) ≡ false → y ≡ false
and_false x y h e = ground arith

and_left : (x y : Bool) → (x && y) ≡ true → x ≡ true
and_left x y e = ground arith

module _ (s : Stream) (entries : List ℕ) where
  -- What is seen stays seen when the address of the inner loop gets a status.
  Seen-decoded :
      (t : State) (a b : ℕ) (i : DecodedInstruction)
      → t.current ≡ some a
      → Seen t b
      → Seen (record_status s a t (some i)) b
  unfolding Seen record_status is_new
  Seen-decoded t a b i c (inl h) = inl (get_status_kept t.status a b (decoded i) h)
  Seen-decoded t a b i c (inr (inl m)) =
      inr (inl (mem-push_target s (direct_target (control_flow i)) b t.worklist m))
  Seen-decoded t a b i c (inr (inr e)) =
      let same = some_injective (sym c ∙ e) in
      inl (
        subst (λ x. is_new (get_status ((a, decoded i) ∷ t.status) x) ≡ false) same
          (ap is_new (get_status_here t.status a (decoded i))))

  Seen-failed :
      (t : State) (a b : ℕ) → t.current ≡ some a → Seen t b → Seen (record_status s a t none) b
  unfolding Seen record_status is_new
  Seen-failed t a b c (inl h) = inl (get_status_kept t.status a b decode_error h)
  Seen-failed t a b c (inr (inl m)) = inr (inl m)
  Seen-failed t a b c (inr (inr e)) =
      let same = some_injective (sym c ∙ e) in
      inl (
        subst (λ x. is_new (get_status ((a, decode_error) ∷ t.status) x) ≡ false) same
          (ap is_new (get_status_here t.status a decode_error)))

  -- What follows the instruction at that address is seen.
  Follows-Seen :
      (t : State) (a b : ℕ) (i : DecodedInstruction)
      → Follows a (control_flow i) b
      → in_range s b ≡ true
      → Seen (record_status s a t (some i)) b
  unfolding Seen record_status Follows
  Follows-Seen t a b i (inl e) r = inr (
      inl (subst (λ o. b ∈ push_target s o t.worklist) (sym e) (push_target_here s b t.worklist r)))
  Follows-Seen t a b i (inr e) r = inr (inr e)

  record_decoded :
      (t : State) (a : ℕ) (i : DecodedInstruction)
      → IsExploring s entries t
      → t.current ≡ some a
      → in_range s a ≡ true
      → s.decode_instruction a (word_at s a) ≡ some i
      → IsExploring s entries (record_status s a t (some i))
  unfolding record_status Fits is_new Follows
  record_decoded t a i inv c r d =
      let here = inv.walking a c r in
      record {
        classified = λ b st h. elim (get_status_inv t.status a b (decoded i) st h) [
          | inl (e, f) ↦
              subst (λ y. Reach s entries b × Fits s b y) f
                (subst (λ x. Reach s entries x × Fits s x (decoded i)) e (here, d))
          | inr old ↦ inv.classified b st old
        ];
        waiting = λ b m.
            elim (mem-push_target_inv s (direct_target (control_flow i)) b t.worklist m) [
              | inl old ↦ inv.waiting b old
              | inr (e, q) ↦ from_instruction a b i here d (inl e) q
            ];
        walking = λ b e q. from_instruction a b i here d (inr e) q;
        has_entries = λ b m q. Seen-decoded t a b i c (inv.has_entries b m q);
        is_closed = λ x b j h f q. elim (get_status_inv t.status a x (decoded i) (decoded j) h) [
          | inl (e, g) ↦
              let same : i ≡ j = decoded_injective g in
              Follows-Seen t a b i
                (subst (λ y. Follows a (control_flow y) b) (sym same)
                  (subst (λ y. Follows y (control_flow j) b) (sym e) f))
                q
          | inr old ↦ Seen-decoded t a b i c (inv.is_closed x b j old f q)
        ];
      }

  record_failed :
      (t : State) (a : ℕ)
      → IsExploring s entries t
      → t.current ≡ some a
      → in_range s a ≡ true
      → s.decode_instruction a (word_at s a) ≡ none
      → IsExploring s entries (record_status s a t none)
  unfolding record_status Fits
  record_failed t a inv c r d = record {
    classified = λ b st h. elim (get_status_inv t.status a b decode_error st h) [
      | inl (e, f) ↦
          subst (λ y. Reach s entries b × Fits s b y) f
            (subst (λ x. Reach s entries x × Fits s x decode_error) e (inv.walking a c r, d))
      | inr old ↦ inv.classified b st old
    ];
    waiting = inv.waiting;
    walking = λ b e q. cc;
    has_entries = λ b m q. Seen-failed t a b c (inv.has_entries b m q);
    is_closed = λ x b j h f q. elim (get_status_inv t.status a x decode_error (decoded j) h) [
      | inl (e, g) ↦ cc
      | inr old ↦ Seen-failed t a b c (inv.is_closed x b j old f q)
    ];
  }

  record_either :
      (t : State) (a : ℕ) (o : Option DecodedInstruction)
      → IsExploring s entries t
      → t.current ≡ some a
      → in_range s a ≡ true
      → s.decode_instruction a (word_at s a) ≡ o
      → IsExploring s entries (record_status s a t o)
  record_either t a none inv c r d = record_failed t a inv c r d
  record_either t a (some i) inv c r d = record_decoded t a i inv c r d

  -- An address out of range, or classified before, is left.
  Seen-left :
      (t : State) (a b : ℕ)
      → t.current ≡ some a
      → (in_range s a && is_new (get_status t.status a)) ≡ false
      → in_range s b ≡ true
      → Seen t b
      → Seen (record t { current = none }) b
  unfolding Seen
  Seen-left t a b c h q (inl e) = inl e
  Seen-left t a b c h q (inr (inl m)) = inr (inl m)
  Seen-left t a b c h q (inr (inr e)) =
      let same = some_injective (sym c ∙ e) in
      inl (
        and_false (in_range s b) (is_new (get_status t.status b)) q
          (subst (λ x. (in_range s x && is_new (get_status t.status x)) ≡ false) same h))

  leave :
      (t : State) (a : ℕ)
      → IsExploring s entries t
      → t.current ≡ some a
      → (in_range s a && is_new (get_status t.status a)) ≡ false
      → IsExploring s entries (record t { current = none })
  leave t a inv c h = record {
    classified = inv.classified;
    waiting = inv.waiting;
    walking = λ b e q. cc;
    has_entries = λ b m q. Seen-left t a b c h q (inv.has_entries b m q);
    is_closed = λ x b j g f q. Seen-left t a b c h q (inv.is_closed x b j g f q);
  }

  pub visit-IsExploring :
      (t : State) (a : ℕ)
      → IsExploring s entries t
      → t.current ≡ some a
      → IsExploring s entries (visit s a t)
  unfolding visit
  visit-IsExploring t a inv c = elim (Bool-cases (in_range s a && is_new (get_status t.status a))) [
    | inr e ↦ rw e (leave t a inv c e)
    | inl e ↦ rw e (
        record_either t a (s.decode_instruction a (word_at s a)) inv c
          (and_left (in_range s a) (is_new (get_status t.status a)) e) refl)
  ]
