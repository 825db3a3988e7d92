-- ===== src/Mc/Cfg/Tiling.antt =====
-- src/mc/cfg.rs: that the blocks of `form_blocks` tile the slice.
use armv8_encode.Base.{ℕ, zero, suc, ◌+◌, ◌≤◌, ◌<◌, ◌≡◌, refl, sym, ap, inl, inr, arith}
use armv8_encode.Base.{some, List, [], ◌∷◌, length, ◌∈◌}
use armv8_encode.Mc.ControlFlow.{InstructionInfo}
use armv8_encode.Mc.Cfg.{BasicBlock, Range, form_block, form_blocks, next_leader}
use armv8_encode.Mc.Cfg.{collect_leaders}
use armv8_encode.Mc.Cfg.Leaders.{IsAscending, IsAscending-mem, after}
use armv8_encode.Mc.Cfg.Leaders.{mem-collect_leaders}
use armv8_encode.Mc.Cfg.Ordering.{collect_leaders-IsAscending}
use armv8_encode.Mc.Cfg.Ordering.{collect_leaders-lt}
use mathlib.Core.Path.{subst}
use native.Mathlib.Decide.{dec_lt}
use armv8_encode.Mc.Cfg.Blocks.{IsBlock, IsStraight, IsTerminatorAt, form_block-IsBlock}

module _ {T : Type 0} ⦃info : InstructionInfo T⦄ (instructions : List T) where
  -- The blocks, numbered from `id`, cover the indices from `lo` up to `hi` without gap or overlap.
  abbrev pub Tiles : ℕ → ℕ → ℕ → List BasicBlock → Type 0
  Tiles id lo hi [] = lo ≡ hi
  Tiles id lo hi (b ∷ bs) =
      IsBlock instructions lo b.instructions.end b
      × (b.id ≡ id)
      × Tiles (suc id) b.instructions.end hi bs

  -- The index after each terminator from `lo` on is among `leaders`.
  abbrev IsClosed : ℕ → List ℕ → Type 0
  IsClosed lo leaders =
      (j : ℕ)
      → lo ≤ j
      → j + 1 < length instructions
      → IsTerminatorAt instructions j
      → (j + 1) ∈ leaders

  pub Tiles-cons :
      (id lo mid hi : ℕ) (b : BasicBlock) (bs : List BasicBlock)
      → IsBlock instructions lo mid b
      → b.id ≡ id
      → Tiles (suc id) mid hi bs
      → Tiles id lo hi (b ∷ bs)
  Tiles-cons id lo mid hi b bs k same tiles =
      let e : mid ≡ b.instructions.end = sym (ap (λ (r : Range). r.end) k.indices) in
      (
        subst (λ m. IsBlock instructions lo m b) e k,
        same,
        subst (λ m. Tiles (suc id) m hi bs) e tiles,
      )

  IsStraight-to_end :
      (lo : ℕ) → IsClosed lo (lo ∷ []) → IsStraight instructions lo (length instructions)
  IsStraight-to_end lo closed j p q t = elim (closed j p q t) [ inl e ↦ omega arith | inr n ↦ n ]

  IsStraight-to_next :
      (lo m : ℕ) (leaders : List ℕ)
      → IsAscending (suc m) leaders
      → m < length instructions
      → IsClosed lo (lo ∷ m ∷ leaders)
      → IsStraight instructions lo m
  IsStraight-to_next lo m leaders asc small closed j p q t = elim (closed j p (omega arith) t) [
    | inl e ↦ omega arith
    | inr i ↦ omega (arith, IsAscending-mem m (j + 1) (m ∷ leaders) (omega arith, asc) i)
  ]

  IsClosed-tail :
      (lo m : ℕ) (leaders : List ℕ)
      → suc lo ≤ m
      → IsClosed lo (lo ∷ m ∷ leaders)
      → IsClosed m (m ∷ leaders)
  IsClosed-tail lo m leaders h closed j p q t = elim (closed j (omega arith) q t) [
    | inl e ↦ absurd (omega arith)
    | inr i ↦ i
  ]

  form_blocks_step :
      (id lo : ℕ) (leaders : List ℕ) (b : BasicBlock) (bs : List BasicBlock)
      → form_block instructions id lo (next_leader instructions leaders) ≡ some b
      → form_blocks instructions (id + 1) leaders ≡ some bs
      → form_blocks instructions id (lo ∷ leaders) ≡ some (b ∷ bs)
  unfolding form_blocks
  form_blocks_step id lo leaders b bs e f = rw (e, f)

  form_blocks-Tiles :
      (id lo : ℕ) (leaders : List ℕ)
      → IsAscending (suc lo) leaders
      → ((l : ℕ) → l ∈ (lo ∷ leaders) → l < length instructions)
      → IsClosed lo (lo ∷ leaders)
      → (bs : List BasicBlock) × (form_blocks instructions id (lo ∷ leaders) ≡ some bs)
        × Tiles id lo (length instructions) bs
  form_blocks-Tiles id lo [] asc small closed =
      let (b, e, k, same) =
        form_block-IsBlock instructions id lo (length instructions) (small lo (inl refl))
          (omega arith) (IsStraight-to_end lo closed) in
      (
        b ∷ [],
        form_blocks_step id lo [] b [] e (unfold form_blocks in refl),
        Tiles-cons id lo (length instructions) (length instructions) b [] k same refl,
      )
  form_blocks-Tiles id lo (m ∷ leaders) asc small closed =
      let fits : m < length instructions = small m (inr (inl refl)) in
      let (b, e, k, same) =
        form_block-IsBlock instructions id lo m asc.0 (omega arith)
          (IsStraight-to_next lo m leaders asc.1 fits closed) in
      let (bs, f, tiles) =
        form_blocks-Tiles (id + 1) m leaders asc.1 (λ l i. small l (inr i))
          (IsClosed-tail lo m leaders asc.0 closed) in
      (
        b ∷ bs,
        form_blocks_step id lo (m ∷ leaders) b bs e f,
        Tiles-cons id lo m (length instructions) b bs k same
            (subst (λ n. Tiles n m (length instructions) bs) (omega arith) tiles),
      )

  IsAscending-weaken :
      (lo lo' : ℕ) (xs : List ℕ) → lo' ≤ lo → IsAscending lo xs → IsAscending lo' xs
  IsAscending-weaken lo lo' [] h a = tt
  IsAscending-weaken lo lo' (x ∷ xs) h a = (omega arith, a.1)

  -- On a slice with an instruction no index is out of range, and the blocks tile the whole slice.
  pub collected-Tiles :
      0 < length instructions
      → (bs : List BasicBlock) × (form_blocks instructions 0 (collect_leaders instructions)
          ≡ some bs)
        × Tiles 0 0 (length instructions) bs
  collected-Tiles pos = from_head (collect_leaders instructions) refl
    where
      closed : IsClosed 0 (collect_leaders instructions)
      closed j p q t =
          (mem-collect_leaders instructions (j + 1)).1 (
            inl
              (record { j = j; x = t.x; from = p; at = t.at; starts = after t.terminates refl q }))

      zero-mem : 0 ∈ collect_leaders instructions
      zero-mem = (mem-collect_leaders instructions 0).1 (inr refl)

      from_head :
          (ls : List ℕ)
          → collect_leaders instructions ≡ ls
          → (bs : List BasicBlock) × (form_blocks instructions 0 (collect_leaders instructions)
              ≡ some bs)
            × Tiles 0 0 (length instructions) bs
      from_head [] e = absurd (subst (λ l. 0 ∈ l) e zero-mem)
      from_head (zero ∷ ls) e = rw e (
          form_blocks-Tiles 0 0 ls
            (subst (IsAscending 0) e (collect_leaders-IsAscending instructions)).1
            (λ l i. collect_leaders-lt instructions l pos (subst (λ q. l ∈ q) (sym e) i))
            (subst (IsClosed 0) e closed))
      from_head (suc l ∷ ls) e =
          let asc = subst (IsAscending 0) e (collect_leaders-IsAscending instructions) in
          let m = subst (λ q. 0 ∈ q) e zero-mem in
          absurd (omega (arith, IsAscending-mem (suc l) 0 (suc l ∷ ls) (omega arith, asc.1) m))

  -- Every listed block is the block of its own indices.
  pub Tiles-mem :
      (id lo hi : ℕ) (bs : List BasicBlock) (b : BasicBlock)
      → Tiles id lo hi bs
      → b ∈ bs
      → IsBlock instructions b.instructions.start b.instructions.end b
  Tiles-mem id lo hi [] b t m = absurd m
  Tiles-mem id lo hi (x ∷ bs) b (k, _, rest) (inl e) =
      let k' =
        subst (λ l. IsBlock instructions l x.instructions.end x)
          (sym (ap (λ (r : Range). r.start) k.indices)) k in
      subst (λ c. IsBlock instructions c.instructions.start c.instructions.end c) (sym e) k'
  Tiles-mem id lo hi (x ∷ bs) b (k, _, rest) (inr m) =
      Tiles-mem (suc id) x.instructions.end hi bs b rest m

  -- Every index lies in a block.
  pub Tiles-covers :
      (id lo hi : ℕ) (bs : List BasicBlock) (j : ℕ)
      → Tiles id lo hi bs
      → lo ≤ j
      → j < hi
      → (b : BasicBlock) × (b ∈ bs) × (b.instructions.start ≤ j) × (j < b.instructions.end)
  Tiles-covers id lo hi [] j t p q = absurd (omega arith)
  Tiles-covers id lo hi (b ∷ bs) j (k, _, rest) p q = elim (dec_lt j b.instructions.end) [
    | yes in_b ↦ (b, inl refl, rw (ap (λ (r : Range). r.start) k.indices) p, in_b)
    | no out ↦
        let (c, m, l, u) = Tiles-covers (suc id) b.instructions.end hi bs j rest (omega arith) q in
        (c, inr m, l, u)
  ]
