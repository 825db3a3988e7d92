-- ===== src/Rewrite/Space/Align.antt =====
-- src/rewrite/space.rs: what `round_up` returns.
use armv8_encode.Base.{ℕ, ◌+◌, ◌-◌, ◌*◌, ◌/◌, ◌%◌, ◌^◌, ◌≤◌, ◌<◌, ◌≡◌, ◌≢◌, none, some, arith}
use armv8_encode.Rewrite.Space.{round_up}
use native.Mathlib.Nat.{mod-lt, div-add-mod, mul-mod_right, mul-le-mul_left}
use native.Mathlib.Decide.{dec_lt}

-- `a` is the least multiple of `align` from `value` on.
pub record IsAligned (value align a : ℕ) : Type 0 where
  pub multiple : a % align ≡ 0
  pub above : value ≤ a
  pub near : a < value + align
  pub fits : a < 2 ^ 64

next_multiple : (v m : ℕ) → 0 < m → (v + (m - v % m)) % m ≡ 0
next_multiple v m h =
    let e : v + (m - v % m) ≡ m * (v / m + 1) = omega (arith, div-add-mod v m, mod-lt v h) in
    rw e (mul-mod_right m (v / m + 1))

-- No multiple lies strictly below the next one and from `v` on.
next_least : (v m a : ℕ) → 0 < m → v % m ≢ 0 → v ≤ a → a % m ≡ 0 → v + (m - v % m) ≤ a
next_least v m a h ne le e = elim (dec_lt (v / m) (a / m)) [
  | yes p ↦ omega (arith, div-add-mod v m, div-add-mod a m, mod-lt v h, mul-le-mul_left m p)
  | no p ↦ absurd (
      omega (
        arith,
        div-add-mod v m,
        div-add-mod a m,
        mul-le-mul_left {m = a / m} {n = v / m} m (omega arith),
      ))
]

pub round_up-IsAligned :
    (value align a : ℕ)
    → value < 2 ^ 64
    → 0 < align
    → round_up value align ≡ some a
    → IsAligned value align a
unfolding round_up
round_up-IsAligned value align a hv ha e =
    ground (arith, mod-lt value ha, next_multiple value align ha)

-- `round_up` fails only where no aligned address from `value` on fits a `u64`.
pub round_up-none :
    (value align a : ℕ)
    → 0 < align
    → round_up value align ≡ none
    → value ≤ a
    → a % align ≡ 0
    → 2 ^ 64 ≤ a
unfolding round_up
round_up-none value align a ha e le m = ground (arith, next_least value align a ha)

pub round_up-least :
    (value align a x : ℕ)
    → 0 < align
    → round_up value align ≡ some x
    → value ≤ a
    → a % align ≡ 0
    → x ≤ a
unfolding round_up
round_up-least value align a x ha e le m = ground (arith, next_least value align a ha)

-- Two multiples of `m` are at least `m` apart.
multiples_apart : (m a b : ℕ) → a % m ≡ 0 → b % m ≡ 0 → a < b → a + m ≤ b
multiples_apart m a b ea eb h = elim (dec_lt (a / m) (b / m)) [
  | yes p ↦ omega (arith, div-add-mod a m, div-add-mod b m, mul-le-mul_left m p)
  | no p ↦ absurd (
      omega (
        arith,
        div-add-mod a m,
        div-add-mod b m,
        mul-le-mul_left {m = b / m} {n = a / m} m (omega arith),
      ))
]

pub IsAligned-unique :
    (value align a b : ℕ) → IsAligned value align a → IsAligned value align b → a ≡ b
IsAligned-unique value align a b ha hb =
    ground (arith, multiples_apart align a b, multiples_apart align b a)
