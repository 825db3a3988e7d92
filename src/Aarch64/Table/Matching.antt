-- ===== src/Aarch64/Table/Matching.antt =====
-- src/isa/aarch64/table.rs: what the search of the opcode table finds.
use armv8_encode.Base.{
  ℕ, ◌≤◌, ◌≡◌, ◌⊎◌, inl, inr, refl, sym, ap, ◌∙◌, arith, Bool, true, false, Bool-cases, ◌==◌, ltb,
}
use armv8_encode.Base.{if◌then◌else◌, Option, none, some, List, [], ◌∷◌, ◌∈◌}
use native.Mathlib.Nat.{le_trans}
use armv8_encode.Aarch64.{Aarch64Opcode}
use armv8_encode.Aarch64.Table.{match_opcode, best_match, row_applies, should_replace_match}
use armv8_encode.Aarch64.Table.{count_ones}

pub clash : (b : Bool) → b ≡ true → b ≡ false → ⊥
clash b holds fails = ground arith

should_replace_match-true :
    (current candidate : Aarch64Opcode)
    → should_replace_match current candidate ≡ true
    → count_ones current.mask ≤ count_ones candidate.mask
unfolding should_replace_match
should_replace_match-true current candidate h =
    bits (count_ones current.mask) (count_ones candidate.mask) _ h
  where
    bits : (m n : ℕ) (r : Bool) → (if n == m then r else ltb m n) ≡ true → m ≤ n
    bits m n r e = ground arith

should_replace_match-false :
    (current candidate : Aarch64Opcode)
    → should_replace_match current candidate ≡ false
    → count_ones candidate.mask ≤ count_ones current.mask
unfolding should_replace_match
should_replace_match-false current candidate h =
    bits (count_ones current.mask) (count_ones candidate.mask) _ h
  where
    bits : (m n : ℕ) (r : Bool) → (if n == m then r else ltb m n) ≡ false → n ≤ m
    bits m n r e = ground arith

-- What the search of some rows gives that starts at a row.
record Found (instruction : ℕ) (start : Aarch64Opcode) (rows : List Aarch64Opcode)
    (found : Option Aarch64Opcode) : Type 0 where
  best : Aarch64Opcode
  is : found ≡ some best
  listed : (best ≡ start) ⊎ (best ∈ rows)
  applies : row_applies instruction best ≡ true
  above : count_ones start.mask ≤ count_ones best.mask
  most :
      (row : Aarch64Opcode)
      → row ∈ rows
      → row_applies instruction row ≡ true
      → count_ones row.mask ≤ count_ones best.mask

-- A first row that does not win leaves what the others give.
passed :
    (instruction : ℕ) (start row : Aarch64Opcode) (rows : List Aarch64Opcode)
    (found : Option Aarch64Opcode)
    → (row_applies instruction row ≡ true → count_ones row.mask ≤ count_ones start.mask)
    → Found instruction start rows found
    → Found instruction start (row ∷ rows) found
passed instruction start row rows found below f = record {
  best = f.best;
  is = f.is;
  listed = elim f.listed [ inl e ↦ inl e | inr m ↦ inr (inr m) ];
  applies = f.applies;
  above = f.above;
  most = λ other m applies. elim m [
    | inl e ↦ rw e (le_trans (below (sym (ap (row_applies instruction) e) ∙ applies)) f.above)
    | inr m ↦ f.most other m applies
  ];
}

-- A row that wins takes the place of the start.
taken :
    (instruction : ℕ) (start row : Aarch64Opcode) (rows : List Aarch64Opcode)
    (found : Option Aarch64Opcode)
    → count_ones start.mask ≤ count_ones row.mask
    → Found instruction row rows found
    → Found instruction start (row ∷ rows) found
taken instruction start row rows found wins f = record {
  best = f.best;
  is = f.is;
  listed = inr f.listed;
  applies = f.applies;
  above = omega (arith, f.above);
  most = λ other m applies. elim m [ inl e ↦ rw e f.above | inr m ↦ f.most other m applies ];
}

best_match-Found :
    (instruction : ℕ) (start : Aarch64Opcode) (rows : List Aarch64Opcode)
    → row_applies instruction start ≡ true
    → Found instruction start rows (best_match (some start) instruction rows)
unfolding best_match
best_match-Found instruction start [] applies = record {
  best = start;
  is = refl;
  listed = inl refl;
  applies = applies;
  above = omega arith;
  most = λ row m. absurd m;
}
best_match-Found instruction start (row ∷ rows) applies =
    elim (Bool-cases (row_applies instruction row)) [
      | inl holds ↦ elim (Bool-cases (should_replace_match start row)) [
        | inl wins ↦
            rw (holds, wins)
              (taken instruction start row rows _ (should_replace_match-true start row wins)
                (best_match-Found instruction row rows holds))
        | inr loses ↦
            rw (holds, loses)
              (passed instruction start row rows _ (λ e. should_replace_match-false start row loses)
                (best_match-Found instruction start rows applies))
      ]
      | inr fails ↦ rw fails (
          passed instruction start row rows _
            (λ holds. absurd (clash (row_applies instruction row) holds fails))
            (best_match-Found instruction start rows applies))
    ]

-- What the search of a table gives: no row applies, or a row that applies and whose mask has the most
-- bits of those that do.
abbrev pub Matched : ℕ → List Aarch64Opcode → Option Aarch64Opcode → Type 0
Matched instruction table none =
    (row : Aarch64Opcode) → row ∈ table → row_applies instruction row ≡ false
Matched instruction table (some best) =
    (best ∈ table)
    × (row_applies instruction best ≡ true)
    × ((row : Aarch64Opcode)
        → row ∈ table
        → row_applies instruction row ≡ true
        → count_ones row.mask ≤ count_ones best.mask)

-- A row that does not apply changes nothing.
skipped :
    (instruction : ℕ) (row : Aarch64Opcode) (rows : List Aarch64Opcode)
    (found : Option Aarch64Opcode)
    → row_applies instruction row ≡ false
    → Matched instruction rows found
    → Matched instruction (row ∷ rows) found
skipped instruction row rows none fails h =
    λ other m. elim m [ inl e ↦ rw e fails | inr m ↦ h other m ]
skipped instruction row rows (some best) fails (listed, applies, most) = (
  inr listed,
  applies,
  λ other m holds. elim m [
    | inl e ↦ absurd (clash (row_applies instruction other) holds (rw e fails))
    | inr m ↦ most other m holds
  ],
)

-- The search that starts at a row that applies.
started :
    (instruction : ℕ) (row : Aarch64Opcode) (rows : List Aarch64Opcode)
    (found : Option Aarch64Opcode)
    → Found instruction row rows found
    → Matched instruction (row ∷ rows) found
started instruction row rows found f = rw f.is (
  f.listed,
  f.applies,
  λ other m holds. elim m [ inl e ↦ rw e f.above | inr m ↦ f.most other m holds ],
)

-- A word that no row applies to is not decoded; else the row found applies and no row that applies has
-- a mask of more bits.
pub match_opcode_lem :
    (table : List Aarch64Opcode) (instruction : ℕ)
    → Matched instruction table (match_opcode table instruction)
unfolding match_opcode best_match
match_opcode_lem [] instruction = λ row m. absurd m
match_opcode_lem (row ∷ rows) instruction = elim (Bool-cases (row_applies instruction row)) [
  | inl holds ↦
      rw holds (started instruction row rows _ (best_match-Found instruction row rows holds))
  | inr fails ↦ rw fails (skipped instruction row rows _ fails (match_opcode_lem rows instruction))
]
