-- ===== src/Mc/Cfg/Ordering.antt =====
-- src/mc/cfg.rs: that the leaders ascend and lie in the slice.
use armv8_encode.Base.{ℕ, suc, ◌+◌, ◌≤◌, ◌<◌, ◌≡◌, inl, inr, arith}
use armv8_encode.Base.{some, List, [], ◌∷◌, length, ◌∈◌}
use armv8_encode.Mc.ControlFlow.{ControlFlow, InstructionInfo}
use armv8_encode.Mc.Cfg.{insert, index_from, address_to_index, add_target, add_leaders}
use armv8_encode.Mc.Cfg.{collect_from, collect_leaders}
use armv8_encode.Mc.Cfg.Leaders.{IsAscending, IsStart, after, targeted, IsTarget-cases}
use armv8_encode.Mc.Cfg.Leaders.{add_target_at, mem-collect_leaders}

insert-IsAscending :
    (lo a : ℕ) (xs : List ℕ) → lo ≤ a → IsAscending lo xs → IsAscending lo (insert a xs)
unfolding insert
insert-IsAscending lo a [] l h = (l, tt)
insert-IsAscending lo a (x ∷ xs) l h = ground (arith, insert-IsAscending (suc x) a xs)

module _ {T : Type 0} ⦃info : InstructionInfo T⦄ (instructions : List T) where
  add_target-IsAscending :
      (cf : ControlFlow) (leaders : List ℕ)
      → IsAscending 0 leaders
      → IsAscending 0 (add_target instructions cf leaders)
  add_target-IsAscending cf leaders h = elim (IsTarget-cases instructions cf leaders) [
    | inl (k, w) ↦
        rw (add_target_at instructions cf leaders k w)
          (insert-IsAscending 0 k leaders (omega arith) h)
    | inr (e, _) ↦ rw e h
  ]

  add_leaders-IsAscending :
      (index : ℕ) (cf : ControlFlow) (leaders : List ℕ)
      → IsAscending 0 leaders
      → IsAscending 0 (add_leaders instructions index cf leaders)
  unfolding add_leaders
  add_leaders-IsAscending index cf leaders h = ground (
    arith,
    insert-IsAscending 0 (index + 1) leaders,
    add_target-IsAscending cf leaders h,
    add_target-IsAscending cf (insert (index + 1) leaders),
  )

  collect_from-IsAscending :
      (index : ℕ) (xs : List T) (leaders : List ℕ)
      → IsAscending 0 leaders
      → IsAscending 0 (collect_from instructions index xs leaders)
  unfolding collect_from
  collect_from-IsAscending index [] leaders h = h
  collect_from-IsAscending index (x ∷ xs) leaders h =
      collect_from-IsAscending (index + 1) xs _
        (add_leaders-IsAscending index (info.control_flow x) leaders h)

  pub collect_leaders-IsAscending : IsAscending 0 (collect_leaders instructions)
  unfolding collect_leaders
  collect_leaders-IsAscending =
      collect_from-IsAscending 0 instructions (insert 0 [])
        (insert-IsAscending 0 0 [] (omega arith) tt)

  index_from-lt :
      (index : ℕ) (xs : List T) (target i : ℕ)
      → index_from index xs target ≡ some i
      → i < index + length xs
  unfolding index_from
  index_from-lt index [] target i e = cc
  index_from-lt index (x ∷ xs) target i e = ground (arith, index_from-lt (index + 1) xs target i)

  IsStart-lt : (lo i : ℕ) → IsStart instructions lo i → i < length instructions
  unfolding address_to_index
  IsStart-lt lo i s = elim s.starts [
    | after _ _ fit ↦ fit
    | targeted t _ a ↦ omega (arith, index_from-lt 0 instructions t i a)
  ]

  pub collect_leaders-lt :
      (i : ℕ) → 0 < length instructions → i ∈ collect_leaders instructions → i < length instructions
  collect_leaders-lt i pos m = elim ((mem-collect_leaders instructions i).0 m) [
    | inl s ↦ IsStart-lt 0 i s
    | inr e ↦ omega arith
  ]
