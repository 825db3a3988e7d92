-- ===== src/Rewrite/Space/Carving.antt =====
-- src/rewrite/space.rs: `Region::carve`. One carve, and any sequence of carves from one region.
use armv8_encode.Base.{ℕ, ◌+◌, ◌-◌, ◌%◌, ◌^◌, ◌≤◌, ◌<◌, ◌≡◌, refl, inl, inr, Option-cases, arith}
use armv8_encode.Base.{ok, some, List, [], ◌∷◌}
use armv8_encode.Base.Word.{wrapping_add}
use armv8_encode.Rewrite.Space.{Region, Carve, carve, round_up}
use armv8_encode.Rewrite.Space.Align.{round_up-IsAligned, round_up-none, round_up-least}

-- The cursor stays inside the region, whose fields are `u64`s.
pub record IsValid (r : Region) : Type 0 where
  pub within : r.cursor ≤ r.capacity
  pub capacity_fits : r.capacity < 2 ^ 64
  pub base_fits : r.base_address < 2 ^ 64

-- `c` is the next aligned slice of `r`, and `r'` is `r` with the cursor behind it.
pub record IsCarved (r : Region) (len align : ℕ) (c : Carve) (r' : Region) : Type 0 where
  pub length_kept : c.len ≡ len
  pub aligned : c.address % align ≡ 0
  pub after : r.base_address + r.cursor ≤ c.address
  pub near : c.address < r.base_address + r.cursor + align
  pub offset : c.address ≡ r.base_address + c.offset_in_region
  pub ends : r'.cursor ≡ c.offset_in_region + len
  pub inside : r'.cursor ≤ r.capacity
  pub skew : c.file_offset ≡ wrapping_add r.base_file_offset c.offset_in_region
  pub region_kept : r' ≡ record r { cursor = r'.cursor }

-- A successful carve from a valid region is aligned, is the first aligned address behind the
-- cursor, has the length asked for, keeps the skew between addresses and file offsets, ends inside
-- the region, and only moves the cursor to its end.
pub carve-IsCarved :
    (r : Region) (len align : ℕ) {c : Carve} {r' : Region}
    → IsValid r
    → carve r len align ≡ ok (c, r')
    → IsCarved r len align c r'
unfolding carve
carve-IsCarved r len align {c} {r'} v e =
    ground (arith, round_up-IsAligned (r.base_address + r.cursor) align c.address)

pub IsCarved-IsValid :
    {r r' : Region} {len align : ℕ} {c : Carve} → IsValid r → IsCarved r len align c r' → IsValid r'
IsCarved-IsValid v k = ground arith

carve_at :
    (r : Region) (len align a x : ℕ)
    → IsValid r
    → 0 < align
    → r.base_address + r.cursor < 2 ^ 64
    → round_up (r.base_address + r.cursor) align ≡ some x
    → x ≤ a
    → a + len ≤ r.base_address + r.capacity
    → (p : Carve × Region) × (carve r len align ≡ ok p) × (p.0.address ≤ a)
unfolding carve
carve_at r len align a x v pos small e le hi = (
  (
    record {
      address = x;
      file_offset = wrapping_add r.base_file_offset (x - r.base_address);
      offset_in_region = x - r.base_address;
      len = len;
    },
    record r { cursor = x - r.base_address + len },
  ),
  ground (arith, round_up-IsAligned (r.base_address + r.cursor) align x),
  le,
)

-- Where an aligned slice of that length is left in a valid region, the carve succeeds, and at no
-- higher address.
pub carve_complete :
    (r : Region) (len align a : ℕ)
    → IsValid r
    → 0 < align
    → a % align ≡ 0
    → r.base_address + r.cursor ≤ a
    → a + len ≤ r.base_address + r.capacity
    → a < 2 ^ 64
    → (p : Carve × Region) × (carve r len align ≡ ok p) × (p.0.address ≤ a)
carve_complete r len align a v pos m lo hi fits =
    elim (Option-cases (round_up (r.base_address + r.cursor) align)) [
      | inl e ↦ absurd (omega (arith, round_up-none _ align a pos e lo m))
      | inr (x, e) ↦
          carve_at r len align a x v pos (omega arith) e (round_up-least _ align a x pos e lo m) hi
    ]

-- Successive carves of one region, the first in front.
pub data Carves : Region → List Carve → Region → Type 0 where
  done : (r : Region) → Carves r [] r
  next :
      {r s t : Region} {c : Carve} {cs : List Carve} (len align : ℕ)
      → carve r len align ≡ ok (c, s)
      → Carves s cs t
      → Carves r (c ∷ cs) t

-- The slices lie one behind the other between `lo` and `hi`.
abbrev pub InOrder : ℕ → ℕ → List Carve → Type 0
InOrder lo hi [] = lo ≤ hi
InOrder lo hi (c ∷ cs) = (lo ≤ c.address) × InOrder (c.address + c.len) hi cs

Carves-region :
    {r t : Region} {cs : List Carve}
    → IsValid r
    → Carves r cs t
    → IsValid t × (t.base_address ≡ r.base_address) × (t.capacity ≡ r.capacity)
Carves-region v (done r) = (v, refl, refl)
Carves-region v (next {r} {s} {t} {c} {cs} len align e k) =
    let one = carve-IsCarved r len align v e in
    let rest = Carves-region (IsCarved-IsValid v one) k in ground arith

-- Successive carves from a valid region lie one behind the other, so no two overlap, between its
-- cursor and its end.
pub Carves-InOrder :
    {r t : Region} {cs : List Carve}
    → IsValid r
    → Carves r cs t
    → InOrder (r.base_address + r.cursor) (r.base_address + r.capacity) cs
Carves-InOrder v (done r) = ground arith
Carves-InOrder v (next {r} {s} {t} {c} {cs} len align e k) =
    let one = carve-IsCarved r len align v e in
    let rest = Carves-InOrder (IsCarved-IsValid v one) k in
    let start : s.base_address + s.cursor ≡ c.address + c.len = ground arith in
    let stop : s.base_address + s.capacity ≡ r.base_address + r.capacity = ground arith in
    (one.after, rw (start, stop) at rest)
