-- ===== src/Container.antt =====
-- src/container/types.rs: the parts of a parsed binary that the rewriter asks for addresses. Of the
-- structs `Symbol`, `Container`, `ElfImage` and `MachOImage` these are the fields that
-- `callable_address_of_symbol` reads.
use armv8_encode.Base.{ℕ, ◌==◌, Bool, if◌then◌else◌, Option, none, some, List, [], ◌∷◌, get_elem?}

abbrev pub SymbolId : Type 0
SymbolId = ℕ

pub record Symbol : Type 0 where
  pub id : SymbolId
  pub address : ℕ
  pub is_undefined : Bool

-- A `HashMap` from symbols to the addresses of their stubs.
abbrev pub Stubs : Type 0
Stubs = List (SymbolId × ℕ)

pub record ElfImage : Type 0 where
  pub plt_stubs : Stubs

pub record MachoImage : Type 0 where
  pub stubs : Stubs

pub record Container : Type 0 where
  pub symbols : List Symbol
  pub elf_image : Option ElfImage
  pub macho_image : Option MachoImage

unfoldable pub get_stub : Stubs → SymbolId → Option ℕ
get_stub [] id = none
get_stub ((key, address) ∷ stubs) id = if key == id then some address else get_stub stubs id

unfoldable pub address_of_symbol : Container → SymbolId → Option ℕ
address_of_symbol c id = elim (get_elem? c.symbols id) [
  | none ↦ none
  | some symbol ↦ if symbol.is_undefined then none else some symbol.address
]

abbrev elf_stub : Option ElfImage → SymbolId → Option ℕ
elf_stub none id = none
elf_stub (some image) id = get_stub image.plt_stubs id

abbrev macho_stub : Option MachoImage → SymbolId → Option ℕ
macho_stub none id = none
macho_stub (some image) id = get_stub image.stubs id

unfoldable pub callable_address_of_symbol : Container → SymbolId → Option ℕ
callable_address_of_symbol c id = elim (address_of_symbol c id) [
  | some address ↦ some address
  | none ↦ elim (elf_stub c.elf_image id) [
    | some address ↦ some address
    | none ↦ macho_stub c.macho_image id
  ]
]
