-- ===== src/Base/Bits.antt =====
-- Rust's `|` on unsigned words, field by field. A field is `(word >> lo) & mask` with a mask of
-- `width` low bits; `|` acts on each field apart, which is what packing and unpacking rest on.
use Prim.Native.Nat.{
  ℕ, zero, suc, ◌+◌, ◌*◌, ◌/◌, ◌%◌, ◌^◌, ◌≤◌, ◌<◌, max, bit_or, digits, bit_or-bitwise,
}
use mathlib.Core.Path.{◌≡◌, refl, sym, ap, ◌∙◌}
use mathlib.Core.WellFounded
use native.Mathlib.Nat.{
  pow-suc, pow-succ', one-le-pow, div-div-eq-div-mul, div-add-mod', mul-div_cancel, div-eq_of_lt,
  mul-mod_left, mod-eq_of_lt,
}
use native.Mathlib.Nat.{pow-le-pow_right, mul-lt-mul_of_pos_right, lt_of_lt_of_le}
use armv8_encode.Base.Word.{shl_u32}
use native.Mathlib.Omega.{arith}
use armv8_encode.Base.Order.{lt_wf}

-- The bits `lo .. lo + width` of a word.
abbrev pub field : ℕ → ℕ → ℕ → ℕ
field lo width word = (word / 2 ^ lo) % 2 ^ width

-- The count of digits to go is only fuel: any two that suffice give one result.
or_digits_enough :
    (n m a b : ℕ) → a ≤ n → a ≤ m → digits (λ y. y) max n a b ≡ digits (λ y. y) max m a b
or_digits_enough zero zero a b p q = refl
or_digits_enough (suc n) (suc m) (suc a) b p q =
    ap (λ (t : ℕ). t * 2 + max (suc a % 2) (b % 2))
      (or_digits_enough n m (suc a / 2) (b / 2) (omega arith) (omega arith))
or_digits_enough zero (suc m) zero b p q = refl
or_digits_enough zero (suc m) (suc a) b p q = absurd (omega arith)
or_digits_enough (suc n) zero zero b p q = refl
or_digits_enough (suc n) zero (suc a) b p q = absurd (omega arith)
or_digits_enough (suc n) (suc m) zero b p q = refl

-- The lowest bit apart from the others.
pub bit_or_halves : (a b : ℕ) → bit_or a b ≡ bit_or (a / 2) (b / 2) * 2 + max (a % 2) (b % 2)
bit_or_halves zero b = simp bit_or-bitwise (omega arith)
bit_or_halves (suc a) b = simp bit_or-bitwise (
    ap (λ (t : ℕ). t * 2 + max (suc a % 2) (b % 2))
      (or_digits_enough a (suc a / 2) (suc a / 2) (b / 2) (omega arith) (omega arith)))

pub zero-bit_or : (b : ℕ) → bit_or 0 b ≡ b
zero-bit_or b = bit_or-bitwise 0 b

pub bit_or-zero : (a : ℕ) → bit_or a 0 ≡ a
bit_or-zero a = WellFounded.induction lt_wf a below
  where
    below : (n : ℕ) → ((m : ℕ) → m < n → bit_or m 0 ≡ m) → bit_or n 0 ≡ n
    below zero ih = refl
    below (suc n) ih = omega (arith, bit_or_halves (suc n) 0, ih (suc n / 2) (omega arith))

half_pow : (n k : ℕ) → n / 2 ^ suc k ≡ (n / 2) / 2 ^ k
half_pow n k = rw (pow-succ' 2 k, div-div-eq-div-mul n 2 (2 ^ k)) refl

whole : (n : ℕ) → n / 2 ^ 0 ≡ n
whole n = ground arith

nothing : (n : ℕ) → n % 2 ^ 0 ≡ 0
nothing n = ground arith

mod_pow : (n k : ℕ) → n % 2 ^ suc k ≡ (n / 2) % 2 ^ k * 2 + n % 2
mod_pow n k = rw (pow-suc 2 k) (grind (arith, one-le-pow k 2))

halved : (n k : ℕ) → n % 2 ^ suc k / 2 ≡ n / 2 % 2 ^ k
halved n k = omega (arith, mod_pow n k)

-- A shift and a mask both go through `|`.
pub bit_or-shifted : (k a b : ℕ) → bit_or a b / 2 ^ k ≡ bit_or (a / 2 ^ k) (b / 2 ^ k)
bit_or-shifted zero a b = rw (whole (bit_or a b), whole a, whole b) refl
bit_or-shifted (suc k) a b =
    rw (half_pow (bit_or a b) k, half_pow a k, half_pow b k)
      (ap (λ t. t / 2 ^ k) (omega (arith, bit_or_halves a b)) ∙ bit_or-shifted k (a / 2) (b / 2))

pub bit_or-masked : (k a b : ℕ) → bit_or a b % 2 ^ k ≡ bit_or (a % 2 ^ k) (b % 2 ^ k)
bit_or-masked zero a b = rw (nothing (bit_or a b), nothing a, nothing b) refl
bit_or-masked (suc k) a b = ground (
  arith,
  mod_pow (bit_or a b) k,
  mod_pow a k,
  mod_pow b k,
  bit_or_halves a b,
  bit_or_halves (a % 2 ^ suc k) (b % 2 ^ suc k),
  halved a k,
  halved b k,
  bit_or-masked k (a / 2) (b / 2),
)

pub field-bit_or :
    (lo width a b : ℕ) → field lo width (bit_or a b) ≡ bit_or (field lo width a) (field lo width b)
field-bit_or lo width a b =
    ap (λ (t : ℕ). t % 2 ^ width) (bit_or-shifted lo a b)
    ∙ bit_or-masked width (a / 2 ^ lo) (b / 2 ^ lo)

-- A field that one side leaves clear is the other side's.
pub field-bit_or_left :
    (lo width a b : ℕ) → field lo width b ≡ 0 → field lo width (bit_or a b) ≡ field lo width a
field-bit_or_left lo width a b clear =
    rw (field-bit_or lo width a b, clear) (bit_or-zero (field lo width a))

pub field-bit_or_right :
    (lo width a b : ℕ) → field lo width a ≡ 0 → field lo width (bit_or a b) ≡ field lo width b
field-bit_or_right lo width a b clear =
    rw (field-bit_or lo width a b, clear) (zero-bit_or (field lo width b))

-- Disjoint fields add.
pub bit_or_sum : (k q r : ℕ) → r < 2 ^ k → bit_or (q * 2 ^ k) r ≡ q * 2 ^ k + r
bit_or_sum k q r fits = sym (div-add-mod' both (2 ^ k)) ∙ cc (above, below)
  where
    both : ℕ
    both = bit_or (q * 2 ^ k) r

    above : both / 2 ^ k ≡ q
    above =
        bit_or-shifted k (q * 2 ^ k) r
        ∙ rw (mul-div_cancel q (one-le-pow k 2 (omega arith)), div-eq_of_lt fits) (bit_or-zero q)

    below : both % 2 ^ k ≡ r
    below =
        bit_or-masked k (q * 2 ^ k) r
        ∙ rw (mul-mod_left q (2 ^ k), mod-eq_of_lt fits) (zero-bit_or r)

two_pow_add : (m n : ℕ) → 2 ^ (m + n) ≡ 2 ^ m * 2 ^ n
two_pow_add zero n = ground arith
two_pow_add (suc m) n =
    let onwards : suc m + n ≡ suc (m + n) = omega arith in
    ap (λ (k : ℕ). 2 ^ k) onwards
    ∙ grind (arith, pow-succ' 2 (m + n), pow-succ' 2 m, two_pow_add m n)

-- What fits above the lowest bits stays in the word.
below_word : (lo width v : ℕ) → lo + width ≤ 32 → v < 2 ^ width → v * 2 ^ lo < 2 ^ 32
below_word lo width v room fits =
    lt_of_lt_of_le (mul-lt-mul_of_pos_right fits (one-le-pow lo 2 (omega arith))) (
      rw (sym (two_pow_add width lo))
        (pow-le-pow_right {n = 2} (omega arith) {j = 32} (omega arith)))

-- A field reads back what was shifted into it.
pub field-shl_u32 :
    (lo width v : ℕ) → lo + width ≤ 32 → v < 2 ^ width → field lo width (shl_u32 v lo) ≡ v
field-shl_u32 lo width v room fits =
    rw
      (
        mod-eq_of_lt (below_word lo width v room fits),
        mul-div_cancel v (one-le-pow lo 2 (omega arith)),
      )
      (mod-eq_of_lt fits)

-- A field of three words put together, from that field of each.
pub field-bit_or_three :
    (lo width a b c x y z : ℕ)
    → field lo width a ≡ x
    → field lo width b ≡ y
    → field lo width c ≡ z
    → field lo width (bit_or (bit_or a b) c) ≡ bit_or (bit_or x y) z
field-bit_or_three lo width a b c x y z is_x is_y is_z = simp (field-bit_or, is_x, is_y, is_z) refl
