-- ===== src/Aarch64/Operand/Pcrel/Fields.antt =====
-- src/isa/aarch64/operand.rs: a signed number survives its field, at the widths that the codecs use.
use armv8_encode.Base.{ℕ, ◌-◌, ◌%◌, ◌^◌, ◌≡◌, arith}
use armv8_encode.Base.Int.{ℤ, pos, negsuc, as_u32, ◌≤ℤ◌, ◌<ℤ◌}
use armv8_encode.Aarch64.Operand.Pcrel.{sign_extend}

-- A number that fits `n` bits comes back from its low `n` bits.
abbrev pub Extends : ℕ → Type 0
Extends n =
    (z : ℤ)
    → negsuc (2 ^ (n - 1) - 1) ≤ℤ z
    → z <ℤ pos (2 ^ (n - 1))
    → sign_extend (pos (as_u32 z % 2 ^ n)) n ≡ z

pub sign_extend_7 : Extends 7
unfolding sign_extend
sign_extend_7 = λ z lo hi. ground arith

pub sign_extend_9 : Extends 9
unfolding sign_extend
sign_extend_9 = λ z lo hi. ground arith

pub sign_extend_14 : Extends 14
unfolding sign_extend
sign_extend_14 = λ z lo hi. ground arith

pub sign_extend_19 : Extends 19
unfolding sign_extend
sign_extend_19 = λ z lo hi. ground arith

pub sign_extend_21 : Extends 21
unfolding sign_extend
sign_extend_21 = λ z lo hi. ground arith

pub sign_extend_26 : Extends 26
unfolding sign_extend
sign_extend_26 = λ z lo hi. ground arith
