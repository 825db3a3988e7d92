-- ===== src/Base/Text.antt =====
-- Rust's `&str`: comparisons, a `match` as a table, and numbers printed and parsed.
use Prim.Native.Nat.{ℕ, zero, suc, ◌+◌, ◌-◌, ◌*◌, ◌/◌, ◌%◌}
use Prim.Native.Char.{code}
use Prim.Native.String.{String, len, slice, char_at}
use Prim.Native.String
use text.Mathlib.Text
use mathlib.Core.Bool.{Bool, false, ◌&&◌, ◌||◌}
use mathlib.Core.Option.{Option, none, some}
use mathlib.Core.List.{List, [], ◌∷◌}
use armv8_encode.Base.Tests.{ltb, leb, ◌==◌, if◌then◌else◌}
use armv8_encode.Base.Partial.{◌>>=◌}

abbrev pub is_text : String → String → Bool
is_text s t = Text.◌==◌ s t

abbrev pub one_of : String → List String → Bool
one_of s [] = false
one_of s (t ∷ ts) = is_text s t || one_of s ts

abbrev pub lookup_text {ℓ} : {A : Type ℓ} → List (String × A) → String → Option A
lookup_text [] s = none
lookup_text ((t, a) ∷ rows) s = if is_text s t then some a else lookup_text rows s

abbrev pub ends_with : String → String → Bool
ends_with s t = is_text (slice s (len s - len t) (len s)) t

-- `format!`: the pieces one behind the other.
abbrev pub concat_text : List String → String
concat_text [] = ""
concat_text (t ∷ ts) = String.◌++◌ t (concat_text ts)

abbrev digit_text : ℕ → String
digit_text d = String.◌∷◌ (char_at "0123456789abcdef" d) ""

-- The digits of a number, as many as the first argument at most.
unfoldable pub print_radix : ℕ → ℕ → ℕ → String
print_radix zero radix n = ""
print_radix (suc count) radix n =
    let front = print_radix count radix (n / radix) in
    if ltb n radix then digit_text n else String.◌++◌ front (digit_text (n % radix))

-- Exactly `count` decimal digits.
unfoldable pub padded : ℕ → ℕ → String
padded zero n = ""
padded (suc count) n = String.◌++◌ (padded count (n / 10)) (digit_text (n % 10))

-- A word of 32 bits has ten decimal and eight hexadecimal digits at most.
abbrev pub decimal : ℕ → String
decimal n = print_radix 10 10 n

abbrev pub hex : ℕ → String
hex n = print_radix 8 16 n

abbrev pub strip_prefix : String → String → Option String
strip_prefix s String.[] = some s
strip_prefix String.[] (String.◌∷◌ p ps) = none
strip_prefix (String.◌∷◌ c s) (String.◌∷◌ p ps) =
    if code c == code p then strip_prefix s ps else none

-- A piece grows at its front.
abbrev cons_first : String → List String → List String
cons_first c [] = c ∷ []
cons_first c (piece ∷ pieces) = String.◌++◌ c piece ∷ pieces

unfoldable pub split_on : ℕ → String → List String
split_on separator String.[] = "" ∷ []
split_on separator (String.◌∷◌ c s) =
    let pieces = split_on separator s in
    if code c == separator then "" ∷ pieces else cons_first (String.◌∷◌ c "") pieces

abbrev digit_value : ℕ → ℕ → Option ℕ
digit_value radix c =
    let d =
      if leb b'0' c && leb c b'9'
      then c - b'0'
      else if leb b'a' c && leb c b'z'
      then c - b'a' + 10
      else if leb b'A' c && leb c b'Z'
      then c - b'A' + 10
      else 36 in
    if ltb d radix then some d else none

-- A result beyond a byte is an overflow.
unfoldable pub parse_digits : ℕ → String → ℕ → Option ℕ
parse_digits radix String.[] acc = some acc
parse_digits radix (String.◌∷◌ c s) acc = digit_value radix (code c) >>= λ d.
    if ltb 255 (acc * radix + d) then none else parse_digits radix s (acc * radix + d)

abbrev nonempty_digits : ℕ → String → Option ℕ
nonempty_digits radix String.[] = none
nonempty_digits radix s = parse_digits radix s 0

-- `u8::from_str_radix`, which takes a plus sign.
abbrev pub parse_u8 : ℕ → String → Option ℕ
parse_u8 radix String.[] = none
parse_u8 radix (String.◌∷◌ c s) =
    if code c == b'+' then nonempty_digits radix s else nonempty_digits radix (String.◌∷◌ c s)
