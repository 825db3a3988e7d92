-- ===== src/Aarch64/Tests.antt =====
-- src/isa/aarch64: the theorems at concrete instructions.
use armv8_encode.Base.{ℕ, ◌≡◌, refl, some, not}
use armv8_encode.Mc.ControlFlow.{ControlFlow}
use armv8_encode.Aarch64.Aarch64Mnemonic.{tbz, tbnz}
use armv8_encode.Aarch64.ControlFlow.{
  invert_conditional_branch, pcrel_range_bytes, flow_of, Tested, is_taken,
}
use armv8_encode.Aarch64.ControlFlow.{invert_conditional_branch_lem}

invert_tbz : invert_conditional_branch tbz ≡ some tbnz
unfolding invert_conditional_branch
invert_tbz = refl

invert_conditional_branch_lem_example :
    ((t : Tested) → is_taken tbnz t ≡ not (is_taken tbz t))
    × (invert_conditional_branch tbnz ≡ some tbz)
    × (pcrel_range_bytes tbnz ≡ pcrel_range_bytes tbz)
    × ((target next : ℕ)
        → flow_of tbz (some target) next ≡ ControlFlow.conditional_jump target next)
invert_conditional_branch_lem_example = invert_conditional_branch_lem tbz tbnz invert_tbz
