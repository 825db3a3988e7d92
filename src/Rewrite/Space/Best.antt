-- ===== src/Rewrite/Space/Best.antt =====
-- src/rewrite/space.rs: what one free extent offers to a request, the order in which candidates
-- are preferred, and one round of the loop of `plan_reservation` in these terms.
use armv8_encode.Base.{
  ℕ, ◌+◌, ◌-◌, ◌%◌, ◌^◌, ◌≤◌, ◌<◌, ◌≡◌, refl, sym, ◌⊎◌, inl, inr, ap, ◌∙◌, Option-cases, arith,
}
use armv8_encode.Base.{
  Bool, true, false, not, ◌&&◌, ◌||◌, Bool-cases, Option, none, some, ltb, if◌then◌else◌,
}
use armv8_encode.Base.Word.{wrapping_add}
use armv8_encode.Rewrite.Space.{SpaceSource, inter_section_hole, tail_pad, header_pad, grew_text}
use armv8_encode.Rewrite.Space.{FreeExtent, ReserveRequest, Candidate, Scan, rank, round_up}
use armv8_encode.Rewrite.Space.{pick_better, better_of, scan_extent, scan_aligned}
use armv8_encode.Rewrite.Space.{is_header_pad, is_grew_text}
use armv8_encode.Rewrite.Space.Align.{round_up-IsAligned, round_up-none, IsAligned-unique}
use native.Mathlib.Decide.{dec_lt}
use mathlib.Core.Path.{subst}
use armv8_encode.Base.{some_injective}

-- Header pad is harvested only on request, and a grown segment is no free space.
abbrev pub IsAllowed : ReserveRequest → SpaceSource → Type 0
IsAllowed req inter_section_hole = Unit
IsAllowed req tail_pad = Unit
IsAllowed req header_pad = req.allow_headerpad ≡ true
IsAllowed req (grew_text pages) = ⊥

-- `c` is the room of `ext` from its first aligned address to its end.
pub record Offers (req : ReserveRequest) (ext : FreeExtent) (c : Candidate) : Type 0 where
  pub allowed : IsAllowed req ext.source
  pub aligned : c.base_addr % req.align ≡ 0
  pub above : ext.address ≤ c.base_addr
  pub near : c.base_addr < ext.address + req.align
  pub fits : c.base_addr < 2 ^ 64
  pub room : c.base_addr + c.usable ≡ ext.address + ext.len
  pub same_source : c.source ≡ ext.source
  pub skew : c.base_off ≡ wrapping_add ext.file_offset (c.base_addr - ext.address)

-- `a` is preferred to `b`, or as good: tighter, then cheaper, then lower.
abbrev pub NotWorse : Candidate → Candidate → Type 0
NotWorse a b =
    (a.usable < b.usable)
    ⊎ (a.usable ≡ b.usable)
      × ((rank a.source < rank b.source)
          ⊎ (rank a.source ≡ rank b.source) × (a.base_addr ≤ b.base_addr))

pub NotWorse-refl : (a : Candidate) → NotWorse a a
NotWorse-refl a = ground arith

pub NotWorse-trans : (a b c : Candidate) → NotWorse a b → NotWorse b c → NotWorse a c
NotWorse-trans a b c p q = ground arith

pub pick_better-NotWorse :
    (a b : Candidate) → NotWorse (pick_better a b) a × NotWorse (pick_better a b) b
unfolding pick_better
pick_better-NotWorse a b = ground arith

pub pick_better-cases : (a b : Candidate) → (pick_better a b ≡ a) ⊎ (pick_better a b ≡ b)
unfolding pick_better
pick_better-cases a b = ground arith

pub better_of-new : (o : Option Candidate) (c : Candidate) → NotWorse (better_of o c) c
better_of-new none c = NotWorse-refl c
better_of-new (some b) c = (pick_better-NotWorse b c).1

pub better_of-old :
    (o : Option Candidate) (b c : Candidate) → o ≡ some b → NotWorse (better_of o c) b
better_of-old none b c e = cc
better_of-old (some a) b c e =
    subst (NotWorse (pick_better a c)) (some_injective e) (pick_better-NotWorse a c).0

pub better_of-cases :
    (o : Option Candidate) (c : Candidate) → (better_of o c ≡ c) ⊎ (o ≡ some (better_of o c))
better_of-cases none c = inl refl
better_of-cases (some b) c = elim (pick_better-cases b c) [
  | inl e ↦ inr (ap some (sym e))
  | inr e ↦ inl e
]

-- The candidate of an extent whose first aligned address is `x`.
abbrev candidate_at : FreeExtent → ℕ → Candidate
candidate_at ext x = record {
  usable = ext.len - (x - ext.address);
  source = ext.source;
  base_addr = x;
  base_off = wrapping_add ext.file_offset (x - ext.address);
}

module _ (req : ReserveRequest) (ext : FreeExtent) (pos : 0 < req.align)
    (small : ext.address < 2 ^ 64) where
  Offers-round_up :
      (c : Candidate) → Offers req ext c → round_up ext.address req.align ≡ some c.base_addr
  Offers-round_up c o = elim (Option-cases (round_up ext.address req.align)) [
    | inl e ↦
        absurd
          (omega (arith, round_up-none ext.address req.align c.base_addr pos e o.above o.aligned))
    | inr (x, e) ↦
        let found = round_up-IsAligned ext.address req.align x small pos e in
        e ∙ ap some (IsAligned-unique _ _ x c.base_addr found (ground arith))
  ]

  Offers-candidate_at :
      (x : ℕ)
      → IsAllowed req ext.source
      → round_up ext.address req.align ≡ some x
      → x - ext.address ≤ ext.len
      → Offers req ext (candidate_at ext x)
  Offers-candidate_at x ok e fits =
      let found = round_up-IsAligned ext.address req.align x small pos e in ground arith

  Offers-unique :
      (x : ℕ) (c : Candidate)
      → round_up ext.address req.align ≡ some x
      → Offers req ext c
      → c ≡ candidate_at ext x
  Offers-unique x c e o = ground (arith, Offers-round_up c o)

-- The loop's variables after the candidate `c`.
abbrev pub taken : ℕ → Scan → Candidate → Scan
taken need s c =
    let largest = if ltb s.largest_available c.usable then c.usable else s.largest_available in
    record {
      best = if ltb c.usable need then s.best else some (better_of s.best c);
      largest_available = largest;
    }

-- One round either finds nothing on offer, or the one candidate on offer.
pub data Round (req : ReserveRequest) (need : ℕ) (s : Scan) (ext : FreeExtent) : Type 0 where
  skip :
      ((c : Candidate) → ¬ Offers req ext c) → scan_extent req need s ext ≡ s → Round req need s ext
  take :
      (c : Candidate)
      → Offers req ext c
      → ((d : Candidate) → Offers req ext d → d ≡ c)
      → scan_extent req need s ext ≡ taken need s c
      → Round req need s ext

-- The two `continue`s at the head of the loop.
abbrev skipped : ReserveRequest → SpaceSource → Bool
skipped req source = (is_header_pad source && not req.allow_headerpad) || is_grew_text source

skipped-cases :
    (req : ReserveRequest) (source : SpaceSource)
    → (IsAllowed req source × (skipped req source ≡ false))
      ⊎ ((¬ IsAllowed req source) × (skipped req source ≡ true))
skipped-cases req inter_section_hole = inl (tt, refl)
skipped-cases req tail_pad = inl (tt, refl)
skipped-cases req header_pad = elim (Bool-cases req.allow_headerpad) [
  | inl e ↦ inl (e, rw e)
  | inr e ↦ inr (λ h. cc, rw e)
]
skipped-cases req (grew_text pages) = inr (λ h. h, ground arith)

module _ (req : ReserveRequest) (need : ℕ) (s : Scan) (ext : FreeExtent) (pos : 0 < req.align)
    (small : ext.address < 2 ^ 64) where
  scan_skipped : skipped req ext.source ≡ true → scan_extent req need s ext ≡ s
  unfolding scan_extent
  scan_skipped h = ground arith

  scan_at :
      (x : ℕ)
      → skipped req ext.source ≡ false
      → round_up ext.address req.align ≡ some x
      → scan_extent req need s ext ≡ scan_aligned need s ext x
  unfolding scan_extent
  scan_at x a e = ground arith

  scan_unaligned : round_up ext.address req.align ≡ none → scan_extent req need s ext ≡ s
  unfolding scan_extent
  scan_unaligned e = ground arith

  scan_aligned_out : (x : ℕ) → ext.len < x - ext.address → scan_aligned need s ext x ≡ s
  unfolding scan_aligned
  scan_aligned_out x h = ground arith

  scan_aligned_in :
      (x : ℕ)
      → x - ext.address ≤ ext.len
      → scan_aligned need s ext x ≡ taken need s (candidate_at ext x)
  unfolding scan_aligned
  scan_aligned_in x h = ground arith

  at_base :
      (x : ℕ)
      → IsAllowed req ext.source
      → skipped req ext.source ≡ false
      → round_up ext.address req.align ≡ some x
      → Round req need s ext
  at_base x ok a e = elim (dec_lt ext.len (x - ext.address)) [
    | yes out ↦
        skip (λ c o. ground (arith, Offers-round_up req ext pos small c o))
          (scan_at x a e ∙ scan_aligned_out x out)
    | no fit ↦
        take (candidate_at ext x) (Offers-candidate_at req ext pos small x ok e (omega arith))
          (λ d o. Offers-unique req ext pos small x d e o)
          (scan_at x a e ∙ scan_aligned_in x (omega arith))
  ]

  pub scan_extent-Round : Round req need s ext
  scan_extent-Round = elim (skipped-cases req ext.source) [
    | inr (off, t) ↦ skip (λ c o. off o.allowed) (scan_skipped t)
    | inl (ok, t) ↦ elim (Option-cases (round_up ext.address req.align)) [
      | inl e ↦ skip (λ c o. cc (Offers-round_up req ext pos small c o)) (scan_unaligned e)
      | inr (x, e) ↦ at_base x ok t e
    ]
  ]
