-- ===== src/Base/Int.antt =====
-- Signed integers over the native numbers, and Rust's `i64` as the integers of a `u64` word.
use Prim.Native.Nat.{ℕ, zero, suc, ◌+◌, ◌-◌, ◌*◌, ◌/◌, ◌^◌, ◌<◌, ◌≤◌, ◌%◌}
use mathlib.Core.Path.{◌≡◌}
use mathlib.Core.Bool.{Bool, true, false, not, ◌&&◌}
use native.Mathlib.Omega.{arith}
use armv8_encode.Base.Tests.{ltb, if◌then◌else◌}

-- `negsuc n` is -(n + 1).
pub data ℤ : Type 0 where
  pos : ℕ → ℤ
  negsuc : ℕ → ℤ

abbrev pub pos_part : ℤ → ℕ
pos_part (pos n) = n
pos_part (negsuc n) = 0

abbrev pub neg_part : ℤ → ℕ
neg_part (pos n) = 0
neg_part (negsuc n) = suc n

infix 50 ◌<ℤ◌ ◌≤ℤ◌
infixl 70 ◌/ℤ◌ ◌%ℤ◌
abbrev pub ◌<ℤ◌ : ℤ → ℤ → Type 0
a <ℤ b = pos_part a + neg_part b < pos_part b + neg_part a

abbrev pub ◌≤ℤ◌ : ℤ → ℤ → Type 0
a ≤ℤ b = pos_part a + neg_part b ≤ pos_part b + neg_part a

abbrev pub ltb_ℤ : ℤ → ℤ → Bool
ltb_ℤ a b = ltb (pos_part a + neg_part b) (pos_part b + neg_part a)

abbrev pub neg : ℤ → ℤ
neg (pos zero) = pos zero
neg (pos (suc n)) = negsuc n
neg (negsuc n) = pos (suc n)

-- The casts between the two readings of a word of 64 bits.
abbrev pub as_i64 : ℕ → ℤ
as_i64 w = if ltb w (2 ^ 63) then pos w else negsuc (2 ^ 64 - 1 - w)

abbrev pub as_u64 : ℤ → ℕ
as_u64 (pos n) = n % 2 ^ 64
as_u64 (negsuc n) = 2 ^ 64 - 1 - n % 2 ^ 64

abbrev pub wrapping_sub_i64 : ℤ → ℤ → ℤ
wrapping_sub_i64 a b = as_i64 ((as_u64 a + 2 ^ 64 - as_u64 b) % 2 ^ 64)

pub as_u64-as_i64 : (w : ℕ) → w < 2 ^ 64 → as_u64 (as_i64 w) ≡ w
as_u64-as_i64 w h = ground arith

abbrev pub as_u32 : ℤ → ℕ
as_u32 (pos n) = n % 2 ^ 32
as_u32 (negsuc n) = 2 ^ 32 - 1 - n % 2 ^ 32

-- The difference of two words, in a type that holds it.
abbrev pub difference : ℕ → ℕ → ℤ
difference a b = if ltb a b then negsuc (b - a - 1) else pos (a - b)

-- Division and remainder by a positive number round to 0.
abbrev pub ◌/ℤ◌ : ℤ → ℕ → ℤ
pos n /ℤ d = pos (n / d)
negsuc n /ℤ d = neg (pos (suc n / d))

abbrev pub ◌%ℤ◌ : ℤ → ℕ → ℤ
pos n %ℤ d = pos (n % d)
negsuc n %ℤ d = neg (pos (suc n % d))

abbrev pub is_zero : ℤ → Bool
is_zero (pos zero) = true
is_zero (pos (suc n)) = false
is_zero (negsuc n) = false

-- Rust's `(lo..hi).contains(z)`.
abbrev pub is_within : ℤ → ℤ → ℤ → Bool
is_within lo hi z = not (ltb_ℤ z lo) && ltb_ℤ z hi

-- Shifts of an `i64`: to the left through the word, to the right with the sign.
abbrev pub shl_i64 : ℤ → ℕ → ℤ
shl_i64 z k = as_i64 ((as_u64 z * 2 ^ k) % 2 ^ 64)

abbrev pub shr_i64 : ℤ → ℕ → ℤ
shr_i64 (pos n) k = pos (n / 2 ^ k)
shr_i64 (negsuc n) k = negsuc (n / 2 ^ k)

abbrev pub wrapping_add_signed : ℕ → ℤ → ℕ
wrapping_add_signed a z = (a + as_u64 z) % 2 ^ 64
