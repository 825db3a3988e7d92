-- ===== src/Rewrite/Space/Tests.antt =====
-- src/rewrite/space.rs: runs of the allocator, and the theorems at concrete inputs.
use armv8_encode.Base.{ap, ℕ, ◌≤◌, ◌<◌, ◌≡◌, refl, ◌⊎◌, inl, inr, false, arith}
use armv8_encode.Base.{ok, err, List, [], ◌∷◌, ◌∈◌}
use armv8_encode.Rewrite.Space.{FreeExtent, Candidate, Region, Carve, CarveError, ReserveRequest}
use armv8_encode.Rewrite.Space.{inter_section_hole, tail_pad, insufficient_free_space, fail}
use armv8_encode.Rewrite.Space.{
  exact, plan_reservation, scan_extent, scan_aligned, round_up, needed,
}
use armv8_encode.Rewrite.Space.{conclude, pick_better, rank, carve}
use armv8_encode.Rewrite.Space.Best.{NotWorse}
use armv8_encode.Rewrite.Space.Planning.{IsOnOffer, reservation, refusal}
use armv8_encode.Rewrite.Space.Planning.{plan_reservation_best, plan_reservation_refused}
use armv8_encode.Rewrite.Space.Carving.{IsCarved, carve-IsCarved, carve_complete}
use armv8_encode.Rewrite.Space.Carving.{done, next, InOrder, Carves-InOrder}

abbrev hole : FreeExtent
hole = record { address = 0x2000; file_offset = 0x2000; len = 0x200; source = inter_section_hole }

abbrev tail : FreeExtent
tail = record { address = 0x9000; file_offset = 0x9000; len = 0x200; source = tail_pad }

abbrev extents : List FreeExtent
extents = tail ∷ hole ∷ []

abbrev request : ReserveRequest
request = record {
  min_bytes = 0x100;
  headroom = 0;
  align = 4;
  allow_headerpad = false;
  on_exhaustion = fail;
}

-- Of two extents of one size the cheaper source is chosen.
picks_hole :
    plan_reservation extents request
    ≡ ok (record {
      base_address = 0x2000;
      base_file_offset = 0x2000;
      capacity = 0x100;
      align = 4;
      source = inter_section_hole;
    })
unfolding plan_reservation scan_extent scan_aligned round_up needed conclude pick_better rank
picks_hole = refl

too_large : plan_reservation extents (exact 0x300) ≡ err (insufficient_free_space 0x300 0x200)
unfolding plan_reservation scan_extent scan_aligned round_up needed conclude pick_better rank exact
too_large = refl

abbrev hole_room : Candidate
hole_room = record {
  usable = 0x200;
  source = inter_section_hole;
  base_addr = 0x2000;
  base_off = 0x2000;
}

hole-IsOnOffer : IsOnOffer request (λ e. e ∈ extents) hole_room
hole-IsOnOffer = record { ext = hole; listed = inr (inl refl); offers = ground arith }

plan_reservation_best_example :
    (b : Candidate) × IsOnOffer request (λ e. e ∈ extents) b
    × (needed request ≤ b.usable)
    × ((d : Candidate)
        → IsOnOffer request (λ e. e ∈ extents) d
        → needed request ≤ d.usable
        → NotWorse b d)
    × (plan_reservation extents request ≡ ok (reservation request b))
unfolding needed
plan_reservation_best_example =
    plan_reservation_best extents request (omega arith) (omega arith) hole_room hole-IsOnOffer
      (omega arith)

-- More than either extent has.
abbrev large_request : ReserveRequest
large_request = record request { min_bytes = 0x300 }

none_large :
    (c : Candidate) → IsOnOffer large_request (λ e. e ∈ extents) c → c.usable < needed large_request
unfolding needed
none_large c w = elim w.listed [
  | inl e ↦ omega (arith, w.offers.above, w.offers.room, ap (λ x. x.len) e)
  | inr (inl e) ↦ omega (arith, w.offers.above, w.offers.room, ap (λ x. x.len) e)
  | inr (inr m) ↦ absurd m
]

plan_reservation_refused_example :
    (largest : ℕ) × ((c : Candidate)
      → IsOnOffer large_request (λ e. e ∈ extents) c
      → c.usable ≤ largest)
    × ((largest ≡ 0)
        ⊎ ((c : Candidate) × IsOnOffer large_request (λ e. e ∈ extents) c × (c.usable ≡ largest)))
    × (plan_reservation extents large_request ≡ err (refusal large_request largest))
plan_reservation_refused_example =
    plan_reservation_refused extents large_request (omega arith) (omega arith) none_large

abbrev pad : Region
pad = record {
  base_address = 0x4001;
  base_file_offset = 0x101;
  capacity = 0x40;
  cursor = 0;
  source = tail_pad;
}

abbrev first : Carve
first = record { address = 0x4010; file_offset = 0x110; offset_in_region = 0xf; len = 8 }

abbrev pad_after : Region
pad_after = record pad { cursor = 0x17 }

abbrev second : Carve
second = record { address = 0x4018; file_offset = 0x118; offset_in_region = 0x17; len = 1 }

carves_first : carve pad 8 16 ≡ ok (first, pad_after)
unfolding carve round_up
carves_first = refl

carves_second : carve pad_after 1 4 ≡ ok (second, record pad { cursor = 0x18 })
unfolding carve round_up
carves_second = refl

full : carve pad 0x40 16 ≡ err (CarveError.region_full 0x40 0x40)
unfolding carve round_up
full = refl

no_align : carve pad 4 0 ≡ err CarveError.zero_align
unfolding carve
no_align = refl

carve-IsCarved_example : IsCarved pad 8 16 first pad_after
carve-IsCarved_example = carve-IsCarved pad 8 16 (omega arith) carves_first

carve_complete_example : (p : Carve × Region) × (carve pad 8 16 ≡ ok p) × (p.0.address ≤ 0x4020)
carve_complete_example =
    carve_complete pad 8 16 0x4020 (omega arith) (omega arith) refl (omega arith) (omega arith)
      (omega arith)

Carves-InOrder_example : InOrder 0x4001 0x4041 (first ∷ second ∷ [])
Carves-InOrder_example =
    Carves-InOrder (omega arith)
      (next 8 16 carves_first (next 1 4 carves_second (done (record pad { cursor = 0x18 }))))
