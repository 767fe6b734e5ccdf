-- ===== src/Base/Space.antt =====
-- strings.TrimSpace over UTF-8 bytes: white space is what unicode.IsSpace says it is.
use Prim.Native.Nat.{ℕ}
use mathlib.Core.Bool.{Bool, ◌&&◌, ◌||◌}
use mathlib.Core.List.{[], ◌∷◌, reverse}
use rojo.Base.Tests.{leb, ◌==◌, if◌then◌else◌}
use rojo.Base.Text.{Bytes}

-- U+0009 to U+000D, and the space.
unfoldable pub ascii_space : ℕ → Bool
ascii_space b = leb 9 b && leb b 13 || b == 32

-- U+0085 and U+00A0.
two_byte_space : ℕ → ℕ → Bool
two_byte_space a b = a == 0xc2 && (b == 0x85 || b == 0xa0)

-- U+1680, U+2000 to U+200A, U+2028, U+2029, U+202F, U+205F and U+3000.
three_byte_space : ℕ → ℕ → ℕ → Bool
three_byte_space a b c =
    a == 0xe1 && (b == 0x9a && c == 0x80)
    || a == 0xe2
      && (b == 0x80 && (leb 0x80 c && leb c 0x8a || (c == 0xa8 || (c == 0xa9 || c == 0xaf)))
          || b == 0x81 && c == 0x9f)
    || a == 0xe3 && (b == 0x80 && c == 0x80)

-- A byte that starts no white space is kept, with all that follows.
unfoldable pub trim_left : Bytes → Bytes
unfolding ascii_space two_byte_space three_byte_space
trim_left [] = []
trim_left (a ∷ []) = if ascii_space a then [] else a ∷ []
trim_left (a ∷ b ∷ []) =
    let rest = trim_left (b ∷ []) in
    if ascii_space a then rest else if two_byte_space a b then [] else a ∷ b ∷ []
trim_left (a ∷ b ∷ c ∷ s) =
    let one = trim_left (b ∷ c ∷ s) in
    let two = trim_left (c ∷ s) in
    let three = trim_left s in
    if ascii_space a
    then one
    else if two_byte_space a b
    then two
    else if three_byte_space a b c
    then three
    else a ∷ b ∷ c ∷ s

-- The same from the end: the text is given last byte first.
unfoldable pub trim_reversed : Bytes → Bytes
unfolding ascii_space two_byte_space three_byte_space
trim_reversed [] = []
trim_reversed (a ∷ []) = if ascii_space a then [] else a ∷ []
trim_reversed (b ∷ a ∷ []) =
    let rest = trim_reversed (a ∷ []) in
    if ascii_space b then rest else if two_byte_space a b then [] else b ∷ a ∷ []
trim_reversed (c ∷ b ∷ a ∷ s) =
    let one = trim_reversed (b ∷ a ∷ s) in
    let two = trim_reversed (a ∷ s) in
    let three = trim_reversed s in
    if ascii_space c
    then one
    else if two_byte_space b c
    then two
    else if three_byte_space a b c
    then three
    else c ∷ b ∷ a ∷ s

-- strings.TrimSpace
unfoldable pub trim_space : Bytes → Bytes
unfolding trim_left trim_reversed
trim_space s = reverse (trim_reversed (reverse (trim_left s)))
