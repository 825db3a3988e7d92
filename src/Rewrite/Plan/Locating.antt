-- ===== src/Rewrite/Plan/Locating.antt =====
-- src/rewrite/plan.rs: where an operation is found, and that an edit in its place keeps it there.
use mathlib.Core.Path.{subst}
use armv8_encode.Base.{ℕ, zero, suc, ◌+◌, ◌≡◌, refl, sym, ap, ◌∙◌, inl, inr, true}
use armv8_encode.Base.{Bool-cases, some, Option-cases, some_injective}
use armv8_encode.Base.{List, [], ◌∷◌, get_elem?, set, arith}
use armv8_encode.Isa.{IsaTypes}
use armv8_encode.Rewrite.Ir.{RewriteOp, RewriteBlock, RewritePlan, matches_source_address}
use armv8_encode.Rewrite.Plan.{modify, with_block, find_op, find_block, locate, op_of, op_at}
use armv8_encode.Rewrite.Plan.{edit_block, write_op}

pub get_elem?-set :
    {A : Type 0} (xs : List A) (i : ℕ) (x y : A)
    → get_elem? xs i ≡ some y
    → get_elem? (set xs i x) i ≡ some x
get_elem?-set [] i x y h = cc
get_elem?-set (z ∷ xs) zero x y h = refl
get_elem?-set (z ∷ xs) (suc i) x y h = get_elem?-set xs i x y h

pub get_elem?-modify :
    {A : Type 0} (xs : List A) (i : ℕ) (f : A → A) (y : A)
    → get_elem? xs i ≡ some y
    → get_elem? (modify xs i f) i ≡ some (f y)
get_elem?-modify [] i f y h = cc
get_elem?-modify (z ∷ xs) zero f y h = ap (λ x. some (f x)) (some_injective h)
get_elem?-modify (z ∷ xs) (suc i) f y h = get_elem?-modify xs i f y h

same_zero : (a b : ℕ) → a ≡ 0 + b → a ≡ b
same_zero a b h = omega arith

module _ {I : IsaTypes} where
  -- The operation that `find_op` finds is there and matches.
  pub find_op_lem :
      (k : ℕ) (ops : List (RewriteOp I)) (address n : ℕ)
      → find_op k ops address ≡ some n
      → (j : ℕ) × (op : RewriteOp I) × (n ≡ k + j)
        × (get_elem? ops j ≡ some op)
        × (matches_source_address op address ≡ true)
  unfolding find_op
  find_op_lem k [] address n h = cc
  find_op_lem k (op ∷ ops) address n h = elim (Bool-cases (matches_source_address op address)) [
    | inl e ↦ (0, op, ground arith, refl, e)
    | inr e ↦
        let (j, found, f, g, m) = find_op_lem (suc k) ops address n (ground arith) in
        (suc j, found, omega arith, g, m)
  ]

  pub find_op-set :
      (k : ℕ) (ops : List (RewriteOp I)) (address j : ℕ) (op : RewriteOp I)
      → find_op k ops address ≡ some (k + j)
      → matches_source_address op address ≡ true
      → find_op k (set ops j op) address ≡ some (k + j)
  unfolding find_op
  find_op-set k [] address j op h m = cc
  find_op-set k (x ∷ ops) address zero op h m = rw m (ap some (omega arith))
  find_op-set k (x ∷ ops) address (suc j) op h m =
      elim (Bool-cases (matches_source_address x address)) [
        | inl e ↦ absurd (ground arith)
        | inr e ↦
            let next : suc k + j ≡ k + suc j = omega arith in
            rw e (find_op-set (suc k) ops address j op (ground arith) m ∙ ap some next)
      ]

  find_block_lem :
      (k : ℕ) (bs : List (RewriteBlock I)) (address n i : ℕ)
      → find_block k bs address ≡ some (n, i)
      → (j : ℕ) × (b : RewriteBlock I) × (n ≡ k + j)
        × (get_elem? bs j ≡ some b)
        × (find_op 0 b.ops address ≡ some i)
  unfolding find_block
  find_block_lem k [] address n i h = cc
  find_block_lem k (b ∷ bs) address n i h = elim (Option-cases (find_op 0 b.ops address)) [
    | inr (j, e) ↦
        let both =
          some_injective (sym (ap (λ o. with_block k o (find_block (suc k) bs address)) e) ∙ h) in
        let first = ap (λ p. p.0) both in
        let second = ap (λ p. p.1) both in (0, b, omega arith, refl, e ∙ ap some second)
    | inl e ↦
        let rest = sym (ap (λ o. with_block k o (find_block (suc k) bs address)) e) ∙ h in
        let (j, x, f, g, m) = find_block_lem (suc k) bs address n i rest in
        (suc j, x, omega arith, g, m)
  ]

  -- An edit of the block of an operation that is still found there in the same place.
  find_block-modify :
      (k : ℕ) (bs : List (RewriteBlock I)) (address j i : ℕ)
      (f : List (RewriteOp I) → List (RewriteOp I))
      → find_block k bs address ≡ some (k + j, i)
      → ((ops : List (RewriteOp I))
          → find_op 0 ops address ≡ some i
          → find_op 0 (f ops) address ≡ some i)
      → find_block k (modify bs j (λ x. record x { ops = f x.ops })) address ≡ some (k + j, i)
  unfolding find_block
  find_block-modify k [] address j i f h keeps = cc
  find_block-modify k (b ∷ bs) address zero i f h keeps =
      elim (Option-cases (find_op 0 b.ops address)) [
        | inr (n, e) ↦
            let both =
              some_injective
                (sym (ap (λ o. with_block k o (find_block (suc k) bs address)) e) ∙ h) in
            let second = ap (λ p. p.1) both in
            rw (keeps b.ops (e ∙ ap some second)) (ap some (ap (λ x. (x, i)) (omega arith)))
        | inl e ↦
            let rest = sym (ap (λ o. with_block k o (find_block (suc k) bs address)) e) ∙ h in
            let (n, x, g, q, m) = find_block_lem (suc k) bs address (k + 0) i rest in
            absurd (omega arith)
      ]
  find_block-modify k (b ∷ bs) address (suc j) i f h keeps =
      let next : suc k + j ≡ k + suc j = omega arith in
      elim (Option-cases (find_op 0 b.ops address)) [
        | inr (n, e) ↦
            let both =
              some_injective
                (sym (ap (λ o. with_block k o (find_block (suc k) bs address)) e) ∙ h) in
            let first = ap (λ p. p.0) both in absurd (omega arith)
        | inl e ↦
            let rest = sym (ap (λ o. with_block k o (find_block (suc k) bs address)) e) ∙ h in
            rw e (
              find_block-modify (suc k) bs address j i f
                (rest ∙ ap some (ap (λ x. (x, i)) (sym next))) keeps
              ∙ ap some (ap (λ x. (x, i)) next))
      ]

  pub op_at-locate :
      (plan : RewritePlan I) (address b i : ℕ)
      → locate plan address ≡ some (b, i)
      → op_at plan address ≡ op_of (get_elem? plan.blocks b) i
  unfolding op_at
  op_at-locate plan address b i e = rw (e, op_at)

  pub write_op-locate :
      (plan : RewritePlan I) (address b i : ℕ) (op : RewriteOp I)
      → locate plan address ≡ some (b, i)
      → write_op plan address op ≡ edit_block plan b (λ ops. set ops i op)
  unfolding write_op
  write_op-locate plan address b i op e = rw (e, write_op)

  -- There is an operation where `locate` says.
  pub locate-op_at :
      (plan : RewritePlan I) (address b i : ℕ)
      → locate plan address ≡ some (b, i)
      → (x : RewriteBlock I) × (op : RewriteOp I) × (op_at plan address ≡ some op)
        × (get_elem? plan.blocks b ≡ some x)
        × (get_elem? x.ops i ≡ some op)
  unfolding locate
  locate-op_at plan address b i e =
      let (j, x, f, g, m) = find_block_lem 0 plan.blocks address b i e in
      let (n, found, f', g', m') = find_op_lem 0 x.ops address i m in
      let at_b : get_elem? plan.blocks b ≡ some x =
        subst (λ k. get_elem? plan.blocks k ≡ some x) (sym (same_zero b j f)) g in
      let at_i : get_elem? x.ops i ≡ some found =
        subst (λ k. get_elem? x.ops k ≡ some found) (sym (same_zero i n f')) g' in
      (x, found, op_at-locate plan address b i e ∙ ap (λ o. op_of o i) at_b ∙ at_i, at_b, at_i)

  -- Where the operation at an address is.
  pub op_at_lem :
      (plan : RewritePlan I) (address : ℕ) (op : RewriteOp I)
      → op_at plan address ≡ some op
      → (b i : ℕ) × (x : RewriteBlock I) × (locate plan address ≡ some (b, i))
        × (get_elem? plan.blocks b ≡ some x)
        × (get_elem? x.ops i ≡ some op)
        × (matches_source_address op address ≡ true)
  unfolding op_at locate
  op_at_lem plan address op h = elim (Option-cases (find_block 0 plan.blocks address)) [
    | inl e ↦ absurd (ground arith)
    | inr ((b, i), e) ↦
        let (j, x, f, g, m) = find_block_lem 0 plan.blocks address b i e in
        let (n, found, f', g', m') = find_op_lem 0 x.ops address i m in
        let at_b : get_elem? plan.blocks b ≡ some x =
          subst (λ k. get_elem? plan.blocks k ≡ some x) (sym (same_zero b j f)) g in
        let at_i : get_elem? x.ops i ≡ some found =
          subst (λ k. get_elem? x.ops k ≡ some found) (sym (same_zero i n f')) g' in
        let same : found ≡ op =
          some_injective (
            sym at_i
            ∙ sym (ap (λ o. op_of o i) at_b)
            ∙ sym (op_at-locate plan address b i e)
            ∙ h) in
        (
          b,
          i,
          x,
          e,
          at_b,
          at_i ∙ ap some same,
          subst (λ y. matches_source_address y address ≡ true) same m',
        )
  ]

  edit_block-locate :
      (plan : RewritePlan I) (address b i : ℕ) (op : RewriteOp I)
      → locate plan address ≡ some (b, i)
      → matches_source_address op address ≡ true
      → locate (edit_block plan b (λ ops. set ops i op)) address ≡ some (b, i)
  unfolding locate edit_block
  edit_block-locate plan address b i op e m =
      let zero_b : b ≡ 0 + b = omega arith in
      let zero_i : i ≡ 0 + i = omega arith in
      let keeps : (ops : List (RewriteOp I))
          → find_op 0 ops address ≡ some i
          → find_op 0 (set ops i op) address ≡ some i =
        λ ops h. find_op-set 0 ops address i op (h ∙ ap some zero_i) m ∙ ap some (sym zero_i) in
      find_block-modify 0 plan.blocks address b i (λ ops. set ops i op)
        (e ∙ ap some (ap (λ x. (x, i)) zero_b)) keeps
      ∙ ap some (ap (λ x. (x, i)) (sym zero_b))

  -- An operation written at an address is what is found there.
  pub op_at-write_op :
      (plan : RewritePlan I) (address : ℕ) (old op : RewriteOp I)
      → op_at plan address ≡ some old
      → matches_source_address op address ≡ true
      → op_at (write_op plan address op) address ≡ some op
  unfolding edit_block
  op_at-write_op plan address old op h m =
      let (b, i, x, e, at_b, at_i, _) = op_at_lem plan address old h in
      let edited = edit_block plan b (λ ops. set ops i op) in
      let there = op_at-locate edited address b i (edit_block-locate plan address b i op e m) in
      let block = get_elem?-modify plan.blocks b (λ y. record y { ops = set y.ops i op }) x at_b in
      subst (λ p. op_at p address ≡ some op) (sym (write_op-locate plan address b i op e))
        (there ∙ ap (λ o. op_of o i) block ∙ get_elem?-set x.ops i op old at_i)
