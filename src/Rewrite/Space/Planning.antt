-- ===== src/Rewrite/Space/Planning.antt =====
-- src/rewrite/space.rs: `plan_reservation`, by an invariant of its loop over the extents seen.
use armv8_encode.Base.{
  ℕ, ◌-◌, ◌^◌, ◌≤◌, ◌<◌, ◌≡◌, refl, sym, ap, ◌∙◌, ◌⊎◌, inl, inr, Option-cases, arith,
}
use armv8_encode.Base.{ok, err, Bool-cases, none, some, ltb}
use armv8_encode.Base.{List, [], ◌∷◌, ◌∈◌, All}
use armv8_encode.Rewrite.Space.{FreeExtent, ReserveRequest, Candidate, Scan, PlannedReservation}
use armv8_encode.Rewrite.Space.{
  ReserveError, grow, fail, insufficient_free_space, growth_required, scan_extent, better_of,
}
use armv8_encode.Rewrite.Space.{plan_reservation, conclude, needed}
use armv8_encode.Rewrite.Space.Best.{Offers, NotWorse, NotWorse-trans, taken}
use armv8_encode.Rewrite.Space.Best.{better_of-new, better_of-old, better_of-cases}
use armv8_encode.Rewrite.Space.Best.{skip, take, scan_extent-Round}
use mathlib.Core.List.{foldl}
use armv8_encode.Base.{some_injective}

-- `c` is on offer from one of the extents that satisfy `P`.
pub record IsOnOffer (req : ReserveRequest) (P : FreeExtent → Type 0) (c : Candidate) : Type 0 where
  pub ext : FreeExtent
  pub listed : P ext
  pub offers : Offers req ext c

abbrev start : Scan
start = record { best = none; largest_available = 0 }

module _ (req : ReserveRequest) (need : ℕ) where
  -- `s` is what the loop knows once it has seen the extents that satisfy `P`.
  pub record Inv (P : FreeExtent → Type 0) (s : Scan) : Type 0 where
    pub from : (b : Candidate) → s.best ≡ some b → IsOnOffer req P b × (need ≤ b.usable)
    pub best :
        (c : Candidate)
        → IsOnOffer req P c
        → need ≤ c.usable
        → (b : Candidate) × (s.best ≡ some b) × NotWorse b c
    pub most : (c : Candidate) → IsOnOffer req P c → c.usable ≤ s.largest_available
    pub attained :
        (s.largest_available ≡ 0)
        ⊎ ((c : Candidate) × IsOnOffer req P c × (c.usable ≡ s.largest_available))

  Inv-start : Inv (λ e. ⊥) start
  Inv-start = record {
    from = λ b e. cc;
    best = λ c o h. absurd o.listed;
    most = λ c o. absurd o.listed;
    attained = inl refl;
  }

  abbrev Also : FreeExtent → (FreeExtent → Type 0) → FreeExtent → Type 0
  Also ext P e = (e ≡ ext) ⊎ P e

  Inv-skip :
      (P : FreeExtent → Type 0) {s : Scan} {ext : FreeExtent}
      → ((c : Candidate) → ¬ Offers req ext c)
      → Inv P s
      → Inv (Also ext P) s
  Inv-skip P {s} {ext} nothing i = record {
    from = λ b e. (wider (i.from b e).0, (i.from b e).1);
    best = λ c o h. i.best c (narrower o) h;
    most = λ c o. i.most c (narrower o);
    attained = elim i.attained [ inl z ↦ inl z | inr (c, o, e) ↦ inr (c, wider o, e) ];
  }
    where
      wider : {c : Candidate} → IsOnOffer req P c → IsOnOffer req (Also ext P) c
      wider o = record { ext = o.ext; listed = inr o.listed; offers = o.offers }

      narrower : {c : Candidate} → IsOnOffer req (Also ext P) c → IsOnOffer req P c
      narrower {c} o = record {
        ext = o.ext;
        listed = elim o.listed [ inl e ↦ absurd (nothing c (rw e at o.offers)) | inr p ↦ p ];
        offers = o.offers;
      }

  module _ (P : FreeExtent → Type 0) {s : Scan} {ext : FreeExtent} (c : Candidate)
      (o : Offers req ext c) (only : (d : Candidate) → Offers req ext d → d ≡ c) (i : Inv P s) where
    here : IsOnOffer req (Also ext P) c
    here = record { ext = ext; listed = inl refl; offers = o }

    old : {d : Candidate} → IsOnOffer req P d → IsOnOffer req (Also ext P) d
    old w = record { ext = w.ext; listed = inr w.listed; offers = w.offers }

    sort : {d : Candidate} → IsOnOffer req (Also ext P) d → (d ≡ c) ⊎ IsOnOffer req P d
    sort {d} w = elim w.listed [
      | inl e ↦ inl (only d (rw e at w.offers))
      | inr p ↦ inr (record { ext = w.ext; listed = p; offers = w.offers })
    ]

    from_taken :
        (b : Candidate)
        → (taken need s c).best ≡ some b
        → IsOnOffer req (Also ext P) b × (need ≤ b.usable)
    from_taken b e = elim (Bool-cases (ltb c.usable need)) [
      | inl small ↦ let (w, h) = i.from b (rw small at e) in (old w, h)
      | inr enough ↦
          let e' : better_of s.best c ≡ b = some_injective (rw enough at e) in
          elim (better_of-cases s.best c) [
            | inl new ↦ let same : b ≡ c = sym e' ∙ new in (rw same here, rw same (ground arith))
            | inr kept ↦ let (w, h) = i.from b (kept ∙ ap some e') in (old w, h)
          ]
    ]

    best_taken :
        (d : Candidate)
        → IsOnOffer req (Also ext P) d
        → need ≤ d.usable
        → (b : Candidate) × ((taken need s c).best ≡ some b) × NotWorse b d
    best_taken d w h = elim (Bool-cases (ltb c.usable need)) [
      | inl small ↦ elim (sort w) [
        | inl e ↦ absurd (ground arith)
        | inr p ↦ let (b, e, k) = i.best d p h in (b, rw small e, k)
      ]
      | inr enough ↦ (
        better_of s.best c,
        rw enough refl,
        elim (sort w) [
          | inl e ↦ rw e (better_of-new s.best c)
          | inr p ↦
              let (b, e, k) = i.best d p h in
              NotWorse-trans (better_of s.best c) b d (better_of-old s.best b c e) k
        ],
      )
    ]

    Inv-take : Inv (Also ext P) (taken need s c)
    Inv-take = record {
      from = from_taken;
      best = best_taken;
      most =
          λ d w. elim (sort w) [ inl e ↦ rw e (ground arith) | inr p ↦ ground (arith, i.most d p) ];
      attained = elim (Bool-cases (ltb s.largest_available c.usable)) [
        | inl e ↦ inr (c, here, rw e refl)
        | inr e ↦ elim i.attained [ inl z ↦ inl (rw e z) | inr (d, w, k) ↦ inr (d, old w, rw e k) ]
      ];
    }

  Inv-iff :
      {P Q : FreeExtent → Type 0} {s : Scan}
      → ((e : FreeExtent) → P e → Q e)
      → ((e : FreeExtent) → Q e → P e)
      → Inv P s
      → Inv Q s
  Inv-iff {P} {Q} {s} f g i = record {
    from = λ b e. (to (i.from b e).0, (i.from b e).1);
    best = λ c w h. i.best c (back w) h;
    most = λ c w. i.most c (back w);
    attained = elim i.attained [ inl z ↦ inl z | inr (c, w, e) ↦ inr (c, to w, e) ];
  }
    where
      to : {c : Candidate} → IsOnOffer req P c → IsOnOffer req Q c
      to w = record { ext = w.ext; listed = f w.ext w.listed; offers = w.offers }

      back : {c : Candidate} → IsOnOffer req Q c → IsOnOffer req P c
      back w = record { ext = w.ext; listed = g w.ext w.listed; offers = w.offers }

  module _ (pos : 0 < req.align) where
    Inv-scan_extent :
        (P : FreeExtent → Type 0) {s : Scan} (ext : FreeExtent)
        → ext.address < 2 ^ 64
        → Inv P s
        → Inv (Also ext P) (scan_extent req need s ext)
    Inv-scan_extent P {s} ext small i = elim (scan_extent-Round req need s ext pos small) [
      | skip nothing e ↦ rw e (Inv-skip P nothing i)
      | take c o only e ↦ rw e (Inv-take P c o only i)
    ]

    Inv-foldl :
        (exts : List FreeExtent) (P : FreeExtent → Type 0) (s : Scan)
        → All (λ e. e.address < 2 ^ 64) exts
        → Inv P s
        → Inv (λ e. (e ∈ exts) ⊎ P e) (foldl (scan_extent req need) s exts)
    Inv-foldl [] P s h i = Inv-iff (λ e p. inr p) (λ e. elim [ inl m ↦ absurd m | inr p ↦ p ]) i
    Inv-foldl (x ∷ exts) P s h i =
        Inv-iff
          (λ e. elim [ inl m ↦ inl (inr m) | inr (inl q) ↦ inl (inl q) | inr (inr p) ↦ inr p ])
          (λ e. elim [ inl (inl q) ↦ inr (inl q) | inl (inr m) ↦ inl m | inr p ↦ inr (inr p) ])
          (Inv-foldl exts (Also x P) (scan_extent req need s x) h.1 (Inv-scan_extent P x h.0 i))

    pub loop-Inv :
        (exts : List FreeExtent)
        → All (λ e. e.address < 2 ^ 64) exts
        → Inv (λ e. e ∈ exts) (foldl (scan_extent req need) start exts)
    loop-Inv exts h =
        Inv-iff (λ e. elim [ inl m ↦ m | inr n ↦ absurd n ]) (λ e m. inl m)
          (Inv-foldl exts (λ e. ⊥) start h Inv-start)

abbrev pub reservation : ReserveRequest → Candidate → PlannedReservation
reservation req c = record {
  base_address = c.base_addr;
  base_file_offset = c.base_off;
  capacity = needed req;
  align = req.align;
  source = c.source;
}

abbrev pub refusal : ReserveRequest → ℕ → ReserveError
refusal req largest = elim req.on_exhaustion [
  | fail ↦ insufficient_free_space (needed req) largest
  | grow ↦ growth_required (needed req - largest)
]

conclude_ok :
    (req : ReserveRequest) (s : Scan) (b : Candidate)
    → s.best ≡ some b
    → conclude req s ≡ ok (reservation req b)
unfolding conclude
conclude_ok req s b e = rw e

conclude_err :
    (req : ReserveRequest) (s : Scan)
    → s.best ≡ none
    → s.largest_available ≤ needed req
    → conclude req s ≡ err (refusal req s.largest_available)
unfolding conclude needed
conclude_err req s e h = ground arith

module _ (exts : List FreeExtent) (req : ReserveRequest) (pos : 0 < req.align)
    (small : All (λ e. e.address < 2 ^ 64) exts) where
  abbrev end : Scan
  end = foldl (scan_extent req (needed req)) start exts

  enters : plan_reservation exts req ≡ conclude req end
  unfolding plan_reservation
  enters = ground arith

  dominates :
      (b : Candidate)
      → end.best ≡ some b
      → (d : Candidate) → (a : Candidate) × (end.best ≡ some a) × NotWorse a d
      → NotWorse b d
  dominates b e d (a, e', h) = rw (some_injective (sym e ∙ e')) h

  -- For an alignment above 0 and extents that start below 2^64: if an allowed extent has room enough
  -- from its first aligned address on, the plan is the
  -- reservation of the best one: no sufficient extent is tighter, nor as tight and cheaper in
  -- source, nor as tight and as cheap and lower in address.
  pub plan_reservation_best :
      (c : Candidate)
      → IsOnOffer req (λ e. e ∈ exts) c
      → needed req ≤ c.usable
      → (b : Candidate) × IsOnOffer req (λ e. e ∈ exts) b
        × (needed req ≤ b.usable)
        × ((d : Candidate) → IsOnOffer req (λ e. e ∈ exts) d → needed req ≤ d.usable → NotWorse b d)
        × (plan_reservation exts req ≡ ok (reservation req b))
  plan_reservation_best c w h =
      let i = loop-Inv req (needed req) pos exts small in
      let (b, e, _) = i.best c w h in
      let (v, k) = i.from b e in
      (b, v, k, λ d u l. dominates b e d (i.best d u l), enters ∙ conclude_ok req end b e)

  -- For an alignment above 0 and extents that start below 2^64: if no allowed extent has room enough,
  -- the plan is refused as the policy says, with the largest aligned room on offer (0 where nothing is).
  pub plan_reservation_refused :
      ((c : Candidate) → IsOnOffer req (λ e. e ∈ exts) c → c.usable < needed req)
      → (largest : ℕ) × ((c : Candidate) → IsOnOffer req (λ e. e ∈ exts) c → c.usable ≤ largest)
        × ((largest ≡ 0)
            ⊎ ((c : Candidate) × IsOnOffer req (λ e. e ∈ exts) c × (c.usable ≡ largest)))
        × (plan_reservation exts req ≡ err (refusal req largest))
  plan_reservation_refused h = (
    end.largest_available,
    i.most,
    i.attained,
    enters ∙ conclude_err req end nothing_found largest_le,
  )
    where
      i : Inv req (needed req) (λ e. e ∈ exts) end
      i = loop-Inv req (needed req) pos exts small

      nothing_found : end.best ≡ none
      nothing_found = elim (Option-cases end.best) [
        | inl e ↦ e
        | inr (b, e) ↦ let (w, k) = i.from b e in absurd (omega (arith, h b w))
      ]

      largest_le : end.largest_available ≤ needed req
      largest_le = elim i.attained [ inl z ↦ omega arith | inr (c, w, e) ↦ omega (arith, h c w) ]
