-- ===== src/Mc/Cfg/Blocks.antt =====
-- src/mc/cfg.rs: `form_blocks`. The blocks tile the slice, and a terminator ends its block.
use armv8_encode.Base.{ℕ, zero, suc, ◌+◌, ◌-◌, ◌≤◌, ◌<◌, ◌≡◌, refl, ap, ◌∙◌, inl, inr, arith}
use armv8_encode.Base.{true, false, if◌then◌else◌, Bool-cases}
use armv8_encode.Base.{Option, none, some, List, [], length, get_elem?}
use armv8_encode.Base.{get_elem?-some, get_elem?-lt}
use armv8_encode.Base.Word.{wrapping_add}
use armv8_encode.Mc.ControlFlow.{ControlFlow, InstructionInfo, is_terminator}
use armv8_encode.Mc.Cfg.{BasicBlock, find_terminator, form_block}
use armv8_encode.Mc.Cfg.{block_of}
use armv8_encode.Mc.Cfg.Leaders.{At}

-- A block's terminator, read off its last instruction.
abbrev pub terminator_of : ControlFlow → Option ControlFlow
terminator_of cf = if is_terminator cf then some cf else none

module _ {T : Type 0} ⦃info : InstructionInfo T⦄ (instructions : List T) where
  -- The instruction at index `j` is a terminator.
  pub record IsTerminatorAt (j : ℕ) : Type 0 where
    pub x : T
    pub at : At instructions j x
    pub terminates : is_terminator (info.control_flow x) ≡ true

  -- Only the last of the indices from `lo` up to `hi` may hold a terminator.
  abbrev pub IsStraight : ℕ → ℕ → Type 0
  IsStraight lo hi = (j : ℕ) → lo ≤ j → j + 1 < hi → ¬ IsTerminatorAt j

  -- `b` is the block of the instructions from `lo` up to `hi`.
  pub record IsBlock (lo hi : ℕ) (b : BasicBlock) : Type 0 where
    pub first : T
    pub last : T
    pub nonempty : lo < hi
    pub at_first : At instructions lo first
    pub at_last : At instructions (hi - 1) last
    pub straight : IsStraight lo hi
    pub indices : b.instructions ≡ record { start = lo; end = hi }
    pub starts : b.start ≡ info.address first
    pub ends : b.end ≡ wrapping_add (info.address last) (info.size last)
    pub terminator : b.terminator ≡ terminator_of (info.control_flow last)

  find_terminator-go_on :
      (lo left : ℕ) (x : T)
      → At instructions lo x
      → is_terminator (info.control_flow x) ≡ false
      → find_terminator instructions lo (suc left) ≡ find_terminator instructions (lo + 1) left
  unfolding find_terminator
  find_terminator-go_on lo left x a e = rw (a, e)

  find_terminator-stop :
      (lo left : ℕ) (x : T)
      → At instructions lo x
      → is_terminator (info.control_flow x) ≡ true
      → find_terminator instructions lo (suc left) ≡ some (some (lo + 1, info.control_flow x))
  unfolding find_terminator
  find_terminator-stop lo left x a e = rw (a, e)

  abbrev found_at : ℕ → T → Option (ℕ × ControlFlow)
  found_at hi last =
      if is_terminator (info.control_flow last) then some (hi, info.control_flow last) else none

  find_terminator-last :
      (lo hi : ℕ) (last : T)
      → lo + 1 ≡ hi
      → At instructions (hi - 1) last
      → find_terminator instructions lo 1 ≡ some (found_at hi last)
  find_terminator-last lo hi last e a =
      let a' : At instructions lo last = ap (get_elem? instructions) (omega arith) ∙ a in
      elim (Bool-cases (is_terminator (info.control_flow last))) [
        | inl t ↦ find_terminator-stop lo 0 last a' t ∙ rw (t, e)
        | inr t ↦ find_terminator-go_on lo 0 last a' t ∙ rw t (unfold find_terminator in refl)
      ]

  find_terminator-straight :
      (lo hi left : ℕ) (last : T)
      → lo + suc left ≡ hi
      → At instructions (hi - 1) last
      → IsStraight lo hi
      → find_terminator instructions lo (suc left) ≡ some (found_at hi last)
  find_terminator-straight lo hi zero last e a h = find_terminator-last lo hi last (omega arith) a
  find_terminator-straight lo hi (suc left) last e a h =
      let (x, ax) =
        get_elem?-some instructions lo (omega (arith, get_elem?-lt instructions (hi - 1) a)) in
      elim (Bool-cases (is_terminator (info.control_flow x))) [
        | inl t ↦
            absurd (h lo (omega arith) (omega arith) (record { x = x; at = ax; terminates = t }))
        | inr f ↦
            find_terminator-go_on lo (suc left) x ax f
            ∙ find_terminator-straight (lo + 1) hi left last (omega arith) a
                (λ j p q. h j (omega arith) q)
      ]

  block_of-ok :
      (id lo hi : ℕ) (first last : T) (terminator : Option ControlFlow)
      → lo < hi
      → At instructions lo first
      → At instructions (hi - 1) last
      → block_of instructions id lo hi terminator
        ≡ some (record {
          id = id;
          start = info.address first;
          end = wrapping_add (info.address last) (info.size last);
          instructions = record { start = lo; end = hi };
          terminator = terminator;
          successors = [];
        })
  block_of-ok id lo zero first last terminator p a b = absurd (omega arith)
  block_of-ok id lo (suc hi) first last terminator p a b =
      let b' : At instructions hi last = ap (get_elem? instructions) (omega arith) ∙ b in rw (a, b')

  form_block-found :
      (id lo hi : ℕ) (first last : T)
      → lo < hi
      → At instructions lo first
      → At instructions (hi - 1) last
      → find_terminator instructions lo (hi - lo) ≡ some (found_at hi last)
      → form_block instructions id lo hi
        ≡ block_of instructions id lo hi (terminator_of (info.control_flow last))
  unfolding form_block
  form_block-found id lo hi first last p a b e =
      rw e
        (elim (Bool-cases (is_terminator (info.control_flow last))) [ inl t ↦ rw t | inr t ↦ rw t ])

  pub form_block-IsBlock :
      (id lo hi : ℕ)
      → lo < hi
      → hi ≤ length instructions
      → IsStraight lo hi
      → (b : BasicBlock) × (form_block instructions id lo hi ≡ some b)
        × IsBlock lo hi b
        × (b.id ≡ id)
  form_block-IsBlock id lo hi p q h =
      let (first, a) = get_elem?-some instructions lo (omega arith) in
      let (last, b) = get_elem?-some instructions (hi - 1) (omega arith) in
      let e : hi - lo ≡ suc (hi - lo - 1) = omega arith in
      let found : find_terminator instructions lo (hi - lo) ≡ some (found_at hi last) =
        rw e (find_terminator-straight lo hi (hi - lo - 1) last (omega arith) b h) in
      (
        record {
          id = id;
          start = info.address first;
          end = wrapping_add (info.address last) (info.size last);
          instructions = record { start = lo; end = hi };
          terminator = terminator_of (info.control_flow last);
          successors = [];
        },
        form_block-found id lo hi first last p a b found
            ∙ block_of-ok id lo hi first last (terminator_of (info.control_flow last)) p a b,
        record {
          first = first;
          last = last;
          nonempty = p;
          at_first = a;
          at_last = b;
          straight = h;
          indices = refl;
          starts = refl;
          ends = refl;
          terminator = refl;
        },
        refl,
      )
