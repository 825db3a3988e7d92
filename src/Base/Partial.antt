-- ===== src/Base/Partial.antt =====
-- Code that may panic: `none` is an index out of range, an `unwrap` of nothing or `unreachable!`.
use Prim.Native.Nat.{ℕ, zero, suc, ◌+◌, ◌≤◌, ◌<◌}
use mathlib.Core.Path.{◌≡◌, refl, sym}
use mathlib.Core.Logic.{inl, inr}
use mathlib.Core.Option.{Option, none, some}
use native.Mathlib.Decide.{ℕ_discrete}
use native.Mathlib.Omega.{arith}
use armv8_encode.Base.Tests.{Option-cases}

infixl 5 ◌>>=◌
abbrev pub ◌>>=◌ {ℓ κ} : {A : Type ℓ} {B : Type κ} → Option A → (A → Option B) → Option B
none >>= f = none
some a >>= f = f a

-- Code that does not panic has a first step that does not.
pub >>=-eq-some {ℓ κ} :
    {A : Type ℓ} {B : Type κ} (first : Option A) (next : A → Option B) {out : B}
    → first >>= next ≡ some out
    → (x : A) × (first ≡ some x) × (next x ≡ some out)
>>=-eq-some (some x) next h = (x, refl, h)
>>=-eq-some none next h = cc

-- A loop that returns at the first result: `f` at `start`, `start + 1`, ..., `count` times.
unfoldable pub first_some {ℓ} : {A : Type ℓ} → (ℕ → Option A) → ℕ → ℕ → Option A
first_some f start zero = none
first_some f start (suc count) =
    let rest = first_some f (suc start) count in elim (f start) [ none ↦ rest | some a ↦ some a ]

-- The loop returns what a turn of it returned,
pub first_some-eq-some {ℓ} :
    {A : Type ℓ} (f : ℕ → Option A) (start count : ℕ) (a : A)
    → first_some f start count ≡ some a
    → (i : ℕ) × (start ≤ i) × (i < start + count) × (f i ≡ some a)
unfolding first_some
first_some-eq-some f start zero a h = absurd (ground arith)
first_some-eq-some f start (suc count) a h = elim (Option-cases (f start)) [
  | inl e ↦
      let (i, above, below, found) = first_some-eq-some f (suc start) count a (ground arith) in
      (i, omega arith, omega arith, found)
  | inr (b, e) ↦ (start, omega arith, omega arith, ground arith)
]

-- and nothing when every turn went on.
pub first_some-eq-none {ℓ} :
    {A : Type ℓ} (f : ℕ → Option A) (start count i : ℕ)
    → first_some f start count ≡ none
    → start ≤ i
    → i < start + count
    → f i ≡ none
unfolding first_some
first_some-eq-none f start zero i h above below = absurd (omega arith)
first_some-eq-none f start (suc count) i h above below = elim (Option-cases (f start)) [
  | inl e ↦ elim (ℕ_discrete start i) [
    | yes same ↦ rw (sym same) e
    | no differs ↦
        first_some-eq-none f (suc start) count i (ground arith) (omega (arith, differs))
          (omega arith)
  ]
  | inr (b, e) ↦ absurd (ground arith)
]
