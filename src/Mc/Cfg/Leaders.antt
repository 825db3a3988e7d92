-- ===== src/Mc/Cfg/Leaders.antt =====
-- src/mc/cfg.rs: `collect_leaders`. Which indices are leaders, and in what order they are kept.
use armv8_encode.Base.{
  ℕ, suc, ◌+◌, ◌-◌, ◌≤◌, ◌<◌, ◌≡◌, refl, sym, ap, ◌∙◌, ◌⊎◌, ◌↔◌, inl, inr, arith,
}
use armv8_encode.Base.{true, ltb, if◌then◌else◌, Bool-cases, Option-cases}
use armv8_encode.Base.{none, some, List, [], ◌∷◌, length, get_elem?, ◌∈◌, some_injective}
use native.Mathlib.Decide.{dec_lt}
use mathlib.Core.Path.{subst₂}
use armv8_encode.Mc.ControlFlow.{ControlFlow, InstructionInfo, is_terminator, direct_target}
use armv8_encode.Mc.Cfg.{insert, address_to_index, add_target, add_leaders}
use armv8_encode.Mc.Cfg.{collect_from, collect_leaders}

-- The elements ascend strictly, from `lo` on.
abbrev pub IsAscending : ℕ → List ℕ → Type 0
IsAscending lo [] = Unit
IsAscending lo (x ∷ xs) = (lo ≤ x) × IsAscending (suc x) xs

pub IsAscending-mem : (lo a : ℕ) (xs : List ℕ) → IsAscending lo xs → a ∈ xs → lo ≤ a
IsAscending-mem lo a [] h m = absurd m
IsAscending-mem lo a (x ∷ xs) h (inl e) = omega arith
IsAscending-mem lo a (x ∷ xs) h (inr m) = omega (arith, IsAscending-mem (suc x) a xs h.1 m)

mem-insert : (b a : ℕ) (xs : List ℕ) → (b ∈ insert a xs) ↔ ((b ≡ a) ⊎ (b ∈ xs))
unfolding insert
mem-insert b a [] = (λ m. m, λ m. m)
mem-insert b a (x ∷ xs) = ground (arith, mem-insert b a xs)

pub targets_terminate :
    (cf : ControlFlow) {t : ℕ} → direct_target cf ≡ some t → is_terminator cf ≡ true
unfolding direct_target is_terminator
targets_terminate ControlFlow.fall e = cc
targets_terminate _ e = refl

module _ {T : Type 0} ⦃info : InstructionInfo T⦄ (instructions : List T) where
  -- The instruction at index `i` is `x`.
  abbrev pub At : ℕ → T → Type 0
  At i x = get_elem? instructions i ≡ some x

  -- Index `i` must start a block because of the instruction `x` at index `j`.
  pub data Starts (j : ℕ) (x : T) (i : ℕ) : Type 0 where
    after :
        is_terminator (info.control_flow x) ≡ true
        → i ≡ j + 1
        → i < length instructions
        → Starts j x i
    targeted :
        (target : ℕ)
        → direct_target (info.control_flow x) ≡ some target
        → address_to_index instructions target ≡ some i
        → Starts j x i

  -- Index `i` is the target of `cf`.
  abbrev IsTarget : ControlFlow → ℕ → Type 0
  IsTarget cf i =
      (target : ℕ) × (direct_target cf ≡ some target)
      × (address_to_index instructions target ≡ some i)

  pub add_target_at :
      (cf : ControlFlow) (leaders : List ℕ) (k : ℕ)
      → IsTarget cf k
      → add_target instructions cf leaders ≡ insert k leaders
  unfolding add_target
  add_target_at cf leaders k (t, e, f) = ground arith

  pub IsTarget-cases :
      (cf : ControlFlow) (leaders : List ℕ)
      → ((k : ℕ) × IsTarget cf k)
        ⊎ ((add_target instructions cf leaders ≡ leaders) × ((i : ℕ) → ¬ IsTarget cf i))
  unfolding add_target
  IsTarget-cases cf leaders = elim (Option-cases (direct_target cf)) [
    | inl e ↦ inr (ground arith, λ i w. cc (w.1))
    | inr (t, e) ↦ elim (Option-cases (address_to_index instructions t)) [
      | inl f ↦ inr (ground arith, λ i w. ground (arith, w.1, w.2))
      | inr (k, f) ↦ inl (k, (t, e, f))
    ]
  ]

  mem-add_target :
      (i : ℕ) (cf : ControlFlow) (leaders : List ℕ)
      → (i ∈ add_target instructions cf leaders) ↔ (IsTarget cf i ⊎ (i ∈ leaders))
  mem-add_target i cf leaders = elim (IsTarget-cases cf leaders) [
    | inl (k, w) ↦ rw (add_target_at cf leaders k w) (
      λ m. elim ((mem-insert i k leaders).0 m) [ inl e ↦ inl (rw e w) | inr old ↦ inr old ],
      elim [
        | inl (u, p, q) ↦ (mem-insert i k leaders).1 (inl (ground (arith, w.1, w.2)))
        | inr m ↦ (mem-insert i k leaders).1 (inr m)
      ],
    )
    | inr (e, out) ↦ rw e (λ m. inr m, elim [ inl w ↦ absurd (out i w) | inr m ↦ m ])
  ]

  mem-with_next :
      (i index : ℕ) (leaders : List ℕ)
      → (i
          ∈ (if ltb (index + 1) (length instructions) then insert (index + 1) leaders else leaders))
        ↔ (((i ≡ index + 1) × (i < length instructions)) ⊎ (i ∈ leaders))
  mem-with_next i index leaders = elim (Bool-cases (ltb (index + 1) (length instructions))) [
    | inl e ↦ rw e (
      λ m. elim ((mem-insert i (index + 1) leaders).0 m) [
        | inl same ↦ inl (same, ground arith)
        | inr old ↦ inr old
      ],
      elim [
        | inl (same, _) ↦ (mem-insert i (index + 1) leaders).1 (inl same)
        | inr old ↦ (mem-insert i (index + 1) leaders).1 (inr old)
      ],
    )
    | inr e ↦ rw e (λ m. inr m, elim [ inl (same, fit) ↦ absurd (ground arith) | inr m ↦ m ])
  ]

  mem-add_leaders :
      (i index : ℕ) (x : T) (leaders : List ℕ)
      → (i ∈ add_leaders instructions index (info.control_flow x) leaders)
        ↔ (Starts index x i ⊎ (i ∈ leaders))
  unfolding add_leaders
  mem-add_leaders i index x leaders = elim (Bool-cases (is_terminator (info.control_flow x))) [
    | inr e ↦ rw e (
      λ m. inr m,
      elim [
        | inl (after t _ _) ↦ cc
        | inl (targeted t d _) ↦ cc (targets_terminate (info.control_flow x) d)
        | inr m ↦ m
      ],
    )
    | inl e ↦ rw e (
      λ m. elim ((mem-add_target i (info.control_flow x) _).0 m) [
        | inl (t, d, a) ↦ inl (targeted t d a)
        | inr n ↦ elim ((mem-with_next i index leaders).0 n) [
          | inl (same, fit) ↦ inl (after e same fit)
          | inr old ↦ inr old
        ]
      ],
      λ h. (mem-add_target i (info.control_flow x) _).1 (elim h [
        | inl (after _ same fit) ↦ inr ((mem-with_next i index leaders).1 (inl (same, fit)))
        | inl (targeted t d a) ↦ inl (t, d, a)
        | inr old ↦ inr ((mem-with_next i index leaders).1 (inr old))
      ]),
    )
  ]

  -- Index `i` must start a block because of some instruction from index `lo` on.
  pub record IsStart (lo i : ℕ) : Type 0 where
    pub j : ℕ
    pub x : T
    pub from : lo ≤ j
    pub at : At j x
    pub starts : Starts j x i

  beyond : (index i : ℕ) → ((k : ℕ) → get_elem? instructions (index + k) ≡ none) → ¬ IsStart index i
  beyond index i h s =
      let e : index + (s.j - index) ≡ s.j = omega (arith, s.from) in
      cc (h (s.j - index), ap (get_elem? instructions) e, s.at)

  module _ (i : ℕ) where
    IsStart-step :
        (index : ℕ) (x : T)
        → At index x
        → IsStart index i ↔ (Starts index x i ⊎ IsStart (index + 1) i)
    IsStart-step index x a = (
      λ s. elim (dec_lt index s.j) [
        | yes p ↦
            inr (record { j = s.j; x = s.x; from = omega arith; at = s.at; starts = s.starts })
        | no p ↦ inl (
            let same : s.j ≡ index = omega (arith, s.from) in
            let same_x : s.x ≡ x =
              some_injective (sym s.at ∙ ap (get_elem? instructions) same ∙ a) in
            subst₂ (λ k y. Starts k y i) same same_x s.starts)
      ],
      elim [
        | inl s ↦ record { j = index; x = x; from = omega arith; at = a; starts = s }
        | inr s ↦ record {
          j = s.j;
          x = s.x;
          from = omega (arith, s.from);
          at = s.at;
          starts = s.starts;
        }
      ],
    )

    mem-collect_from :
        (index : ℕ) (xs : List T) (leaders : List ℕ)
        → ((k : ℕ) → get_elem? instructions (index + k) ≡ get_elem? xs k)
        → (i ∈ collect_from instructions index xs leaders) ↔ (IsStart index i ⊎ (i ∈ leaders))
    unfolding collect_from
    mem-collect_from index [] leaders h =
        (λ m. inr m, elim [ inl s ↦ absurd (beyond index i h s) | inr m ↦ m ])
    mem-collect_from index (x ∷ xs) leaders h =
        let more = add_leaders instructions index (info.control_flow x) leaders in
        let ih =
          mem-collect_from (index + 1) xs more
            (λ k. ap (get_elem? instructions) (omega arith) ∙ h (suc k)) in
        let one = mem-add_leaders i index x leaders in
        let step = IsStart-step index x (ap (get_elem? instructions) (omega arith) ∙ h 0) in
        (
          λ m. elim (ih.0 m) [
            | inl s ↦ inl (step.1 (inr s))
            | inr n ↦ elim (one.0 n) [ inl s ↦ inl (step.1 (inl s)) | inr old ↦ inr old ]
          ],
          λ c. ih.1 (elim c [
            | inl s ↦ elim (step.0 s) [ inl t ↦ inr (one.1 (inl t)) | inr t ↦ inl t ]
            | inr old ↦ inr (one.1 (inr old))
          ]),
        )

  -- The leaders are index 0, the index after each terminator, and each target in the slice.
  pub mem-collect_leaders : (i : ℕ) → (i ∈ collect_leaders instructions) ↔ (IsStart 0 i ⊎ (i ≡ 0))
  unfolding collect_leaders insert
  mem-collect_leaders i =
      let all =
        mem-collect_from i 0 instructions (0 ∷ [])
          (λ k. ap (get_elem? instructions) (omega arith)) in
      (
        λ m. elim (all.0 m) [ inl s ↦ inl s | inr (inl e) ↦ inr e | inr (inr n) ↦ absurd n ],
        λ h. all.1 (elim h [ inl s ↦ inl s | inr e ↦ inr (inl e) ]),
      )
