-- ===== src/Rewrite/Space.antt =====
-- src/rewrite/space.rs: the text-space allocator. `plan_reservation` picks a free extent for a
-- request, and a `Region` is carved front to back.
pub mod Align
pub mod Carving
pub mod Best
pub mod Planning
pub mod Tests
use armv8_encode.Base.{ℕ, ◌-◌, ◌%◌, Bool, true, false, not, ◌&&◌, if◌then◌else◌, ltb, leb, ◌==◌}
use armv8_encode.Base.{Option, none, some, List, Result, ok, err}
use armv8_encode.Base.Word.{checked_add, saturating_add, wrapping_add, wrapping_sub}
use Prim.Native.Nat.{compare, Ordering}
use mathlib.Core.List.{foldl}

-- Where a run of free bytes comes from. `grew_text` carries the number of pages.
pub data SpaceSource : Type 0 where
  inter_section_hole tail_pad header_pad : SpaceSource
  grew_text : ℕ → SpaceSource

pub rank : SpaceSource → ℕ
rank inter_section_hole = 0
rank tail_pad = 1
rank header_pad = 2
rank (grew_text pages) = 3

pub record FreeExtent : Type 0 where
  pub address : ℕ
  pub file_offset : ℕ
  pub len : ℕ
  pub source : SpaceSource

pub data Exhaustion : Type 0 where
  grow fail : Exhaustion

pub record ReserveRequest : Type 0 where
  pub min_bytes : ℕ
  pub headroom : ℕ
  pub align : ℕ
  pub allow_headerpad : Bool
  pub on_exhaustion : Exhaustion

pub exact : ℕ → ReserveRequest
exact bytes = record {
  min_bytes = bytes;
  headroom = 0;
  align = 4;
  allow_headerpad = false;
  on_exhaustion = fail;
}

pub with_headroom : ReserveRequest → ℕ → ReserveRequest
with_headroom r headroom = record r { headroom = headroom }

pub needed : ReserveRequest → ℕ
needed r = saturating_add r.min_bytes r.headroom

pub record PlannedReservation : Type 0 where
  pub base_address : ℕ
  pub base_file_offset : ℕ
  pub capacity : ℕ
  pub align : ℕ
  pub source : SpaceSource

pub data ReserveError : Type 0 where
  zero_align : ReserveError
  insufficient_free_space : (needed largest_available : ℕ) → ReserveError
  growth_required : (deficit : ℕ) → ReserveError

-- The next multiple of `align`, `none` on overflow.
pub round_up : ℕ → ℕ → Option ℕ
round_up value align =
    let rem = value % align in if rem == 0 then some value else checked_add value (align - rem)

-- The tuple `(usable, source, base_addr, base_off)`.
pub record Candidate : Type 0 where
  pub usable : ℕ
  pub source : SpaceSource
  pub base_addr : ℕ
  pub base_off : ℕ

pub pick_better : Candidate → Candidate → Candidate
pick_better a b = elim (compare a.usable b.usable) [
  | Ordering.lt ↦ a
  | Ordering.gt ↦ b
  | Ordering.eq ↦ elim (compare (rank a.source) (rank b.source)) [
    | Ordering.lt ↦ a
    | Ordering.gt ↦ b
    | Ordering.eq ↦ if leb a.base_addr b.base_addr then a else b
  ]
]

-- The variables of the loop of `plan_reservation`.
pub record Scan : Type 0 where
  pub best : Option Candidate
  pub largest_available : ℕ

abbrev is_header_pad : SpaceSource → Bool
is_header_pad header_pad = true
is_header_pad _ = false

abbrev is_grew_text : SpaceSource → Bool
is_grew_text (grew_text pages) = true
is_grew_text _ = false

abbrev better_of : Option Candidate → Candidate → Candidate
better_of none candidate = candidate
better_of (some cur) candidate = pick_better cur candidate

-- An extent once its aligned base is known; `pad > ext.len` is a `continue`.
pub scan_aligned : ℕ → Scan → FreeExtent → ℕ → Scan
scan_aligned need s ext base_addr =
    let pad = base_addr - ext.address in
    let usable = ext.len - pad in
    let largest = if ltb s.largest_available usable then usable else s.largest_available in
    let candidate : Candidate = record {
      usable = usable;
      source = ext.source;
      base_addr = base_addr;
      base_off = wrapping_add ext.file_offset pad;
    } in
    if ltb ext.len pad
    then s
    else if ltb usable need
    then record s { largest_available = largest }
    else record { best = some (better_of s.best candidate); largest_available = largest }

-- The body of the loop.
pub scan_extent : ReserveRequest → ℕ → Scan → FreeExtent → Scan
scan_extent req need s ext =
    if is_header_pad ext.source && not req.allow_headerpad
    then s
    else if is_grew_text ext.source
    then s
    else elim (round_up ext.address req.align) [
      | none ↦ s
      | some base_addr ↦ scan_aligned need s ext base_addr
    ]

-- What follows the loop.
pub conclude : ReserveRequest → Scan → Result ReserveError PlannedReservation
conclude req s = elim s.best [
  | some c ↦ ok (record {
    base_address = c.base_addr;
    base_file_offset = c.base_off;
    capacity = needed req;
    align = req.align;
    source = c.source;
  })
  | none ↦ elim req.on_exhaustion [
    | fail ↦ err (insufficient_free_space (needed req) s.largest_available)
    | grow ↦ err (growth_required (wrapping_sub (needed req) s.largest_available))
  ]
]

pub plan_reservation : List FreeExtent → ReserveRequest → Result ReserveError PlannedReservation
plan_reservation free_extents req =
    if req.align == 0
    then err zero_align
    else conclude req (
        foldl (scan_extent req (needed req)) (record { best = none; largest_available = 0 })
          free_extents)

-- A bump allocator over `[base_address, base_address + capacity)`.
pub record Region : Type 0 where
  pub base_address : ℕ
  pub base_file_offset : ℕ
  pub capacity : ℕ
  pub cursor : ℕ
  pub source : SpaceSource

pub new : ℕ → ℕ → ℕ → SpaceSource → Region
new base_address base_file_offset capacity source = record {
  base_address = base_address;
  base_file_offset = base_file_offset;
  capacity = capacity;
  cursor = 0;
  source = source;
}

pub region : PlannedReservation → Region
region p = new p.base_address p.base_file_offset p.capacity p.source

pub remaining : Region → ℕ
remaining r = wrapping_sub r.capacity r.cursor

pub record Carve : Type 0 where
  pub address : ℕ
  pub file_offset : ℕ
  pub offset_in_region : ℕ
  pub len : ℕ

pub data CarveError : Type 0 where
  zero_align : CarveError
  region_full : (requested available : ℕ) → CarveError
  overflow : CarveError

abbrev or_overflow : {A : Type 0} → Option ℕ → (ℕ → Result CarveError A) → Result CarveError A
or_overflow none k = err CarveError.overflow
or_overflow (some a) k = k a

-- The carve and the advanced region; an error leaves the region as it was.
pub carve : Region → ℕ → ℕ → Result CarveError (Carve × Region)
carve r len align =
    if align == 0
    then err CarveError.zero_align
    else or_overflow (checked_add r.base_address r.cursor) λ cur_addr.
      or_overflow (round_up cur_addr align) λ aligned_addr.
        let pad = aligned_addr - cur_addr in
        or_overflow (checked_add r.cursor pad) λ padded.
          or_overflow (checked_add padded len) λ new_cursor.
            if ltb r.capacity new_cursor
            then err (CarveError.region_full len (wrapping_sub r.capacity r.cursor))
            else let offset_in_region = wrapping_add r.cursor pad in
              ok (
                record {
                  address = aligned_addr;
                  file_offset = wrapping_add r.base_file_offset offset_in_region;
                  offset_in_region = offset_in_region;
                  len = len;
                },
                record r { cursor = new_cursor },
              )
