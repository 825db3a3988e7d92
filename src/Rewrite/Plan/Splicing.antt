-- ===== src/Rewrite/Plan/Splicing.antt =====
-- src/rewrite/plan.rs: what insertion and unfusing do to the list of operations of a block.
use armv8_encode.Base.{ℕ, zero, suc, ◌+◌, ◌≤◌, ◌≡◌, refl, sym, ap, ◌∙◌, inl, inr}
use armv8_encode.Base.{some, Option-cases}
use armv8_encode.Base.{List, [], ◌∷◌, ◌++◌, map, get_elem?, get_elem?-lt, take, drop, length}
use armv8_encode.Base.{take-append-drop}
use armv8_encode.Base.{ok, arith}
use armv8_encode.Base.{append_assoc}
use armv8_encode.Isa.{IsaTypes}
use armv8_encode.Rewrite.Ir.{RewriteInstruction, RewriteOp, instruction, RewriteBlock}
use armv8_encode.Rewrite.Ir.{RewritePlan}
use armv8_encode.Rewrite.Plan.{insert_at, locate, op_at}
use armv8_encode.Rewrite.Plan.{edit_block, insert_all, insert_after_address}
use armv8_encode.Rewrite.Plan.Locating.{get_elem?-modify, locate-op_at}

take-insert_at :
    {A : Type 0} (xs : List A) (k : ℕ) (x : A)
    → k ≤ length xs
    → take (suc k) (insert_at xs k x) ≡ take k xs ++ x ∷ []
take-insert_at xs zero x h = refl
take-insert_at [] (suc k) x h = absurd (omega arith)
take-insert_at (y ∷ xs) (suc k) x h = ap (λ l. y ∷ l) (take-insert_at xs k x (omega arith))

drop-insert_at :
    {A : Type 0} (xs : List A) (k : ℕ) (x : A)
    → k ≤ length xs
    → drop (suc k) (insert_at xs k x) ≡ drop k xs
drop-insert_at xs zero x h = refl
drop-insert_at [] (suc k) x h = absurd (omega arith)
drop-insert_at (y ∷ xs) (suc k) x h = drop-insert_at xs k x (omega arith)

length-insert_at :
    {A : Type 0} (xs : List A) (k : ℕ) (x : A)
    → k ≤ length xs
    → length (insert_at xs k x) ≡ suc (length xs)
length-insert_at xs zero x h = refl
length-insert_at [] (suc k) x h = absurd (omega arith)
length-insert_at (y ∷ xs) (suc k) x h = omega (arith, length-insert_at xs k x (omega arith))

module _ {I : IsaTypes} where
  -- The loop of single insertions puts the new instructions between the operations before the index
  -- and those from it on.
  insert_all_lem :
      (ops : List (RewriteOp I)) (k : ℕ) (new : List (RewriteInstruction I))
      → k ≤ length ops
      → insert_all ops k new ≡ take k ops ++ (map instruction new ++ drop k ops)
  unfolding insert_all
  insert_all_lem ops k [] h = sym (take-append-drop k ops)
  insert_all_lem ops k (i ∷ is) h =
      let next : k + 1 ≡ suc k = omega arith in
      let inserted = insert_at ops k (instruction i) in
      let longer = length-insert_at ops k (instruction i) h in
      let rest = insert_all_lem inserted (suc k) is (omega arith) in
      ap (λ n. insert_all inserted n is) next
      ∙ rest
      ∙ ap (λ l. l ++ (map instruction is ++ drop (suc k) inserted))
          (take-insert_at ops k (instruction i) h)
      ∙ ap (λ l. (take k ops ++ instruction i ∷ []) ++ (map instruction is ++ l))
          (drop-insert_at ops k (instruction i) h)
      ∙ append_assoc (take k ops) (instruction i ∷ []) (map instruction is ++ drop k ops)

  -- Where `insert_after_address` succeeds, there is an operation at the address, and in its block the
  -- new instructions stand in their order directly behind it: before them the operations up to it,
  -- after them the others.
  pub insert_after_address_lem :
      (plan plan' : RewritePlan I) (address : ℕ) (new : List (RewriteInstruction I))
      → insert_after_address plan address new ≡ ok plan'
      → (b i : ℕ) × (x : RewriteBlock I) × (op : RewriteOp I) × (op_at plan address ≡ some op)
        × (get_elem? plan.blocks b ≡ some x)
        × (get_elem? x.ops i ≡ some op)
        × (get_elem? plan'.blocks b
            ≡ some (record x {
              ops = take (suc i) x.ops ++ (map instruction new ++ drop (suc i) x.ops);
            }))
  unfolding insert_after_address edit_block
  insert_after_address_lem plan plan' address new h = elim (Option-cases (locate plan address)) [
    | inl e ↦ absurd (ground arith)
    | inr ((b, i), e) ↦
        let (x, op, at, at_b, at_i) = locate-op_at plan address b i e in
        let edited : edit_block plan b (λ ops. insert_all ops (i + 1) new) ≡ plan' = ground arith in
        let next : i + 1 ≡ suc i = omega arith in
        let small = get_elem?-lt x.ops i at_i in
        let listed =
          ap (λ n. insert_all x.ops n new) next ∙ insert_all_lem x.ops (suc i) new (omega arith) in
        (
          b,
          i,
          x,
          op,
          at,
          at_b,
          at_i,
          ap (λ p. get_elem? p.blocks b) (sym edited)
              ∙ (get_elem?-modify plan.blocks b
                    (λ y. record y { ops = insert_all y.ops (i + 1) new }) x at_b
                  ∙ ap (λ l. some (record x { ops = l })) listed),
        )
  ]
