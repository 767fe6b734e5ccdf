-- ===== src/Api/Paging.antt =====
-- Paging of internal/api/jobs.go: limit and offset, and the page that they cut out.
pub mod Tiles
use rojo.Base.{
  ℕ, zero, suc, ◌+◌, ◌-◌, ◌*◌, ◌^◌, Bytes, Bool, true, false, ◌&&◌, ◌||◌, List, [], ◌∷◌, ◌++◌,
  Option, none, some, bytes, length, take, drop, leb, ltb, ◌==◌, is_empty, if◌then◌else◌,
}
use rojo.Errors.{Error, plain, Result, ok, err}

abbrev pub default_list_limit : ℕ
default_list_limit = 50

abbrev pub max_list_limit : ℕ
max_list_limit = 200

-- The digits of a number, at least one.
unfoldable pub digits : ℕ → Bytes → Option ℕ
digits n [] = some n
digits n (b ∷ s) =
    let rest = digits (n * 10 + (b - 48)) s in if leb 48 b && leb b 57 then rest else none

unfoldable pub unsigned : Bytes → Option ℕ
unfolding digits
unsigned [] = none
unsigned (b ∷ s) = digits 0 (b ∷ s)

-- What strconv.Atoi makes of a text.
pub data Parsed : Type 0 where
  number : ℕ → Parsed
  negative : Parsed
  no_number : Parsed

-- A magnitude in the range of int64 on that side.
abbrev positive : Option ℕ → Parsed
positive none = no_number
positive (some n) = if ltb n (2 ^ 63) then number n else no_number

abbrev negated : Option ℕ → Parsed
negated none = no_number
negated (some n) = if n == 0 then number 0 else if leb n (2 ^ 63) then negative else no_number

unfoldable pub atoi : Bytes → Parsed
unfolding unsigned
atoi [] = no_number
atoi (b ∷ s) =
    if b == b'+'
    then positive (unsigned s)
    else if b == b'-'
    then negated (unsigned s)
    else positive (unsigned (b ∷ s))

abbrev not_positive : (Bytes → Bytes) → Bytes → Error
unfolding bytes
not_positive quote raw = plain (bytes "limit must be a positive integer, got " ++ quote raw)

abbrev below_zero : (Bytes → Bytes) → Bytes → Error
unfolding bytes
below_zero quote raw = plain (bytes "offset must be a non-negative integer, got " ++ quote raw)

-- A parameter that is missing is the empty text. `quote` stands for strconv.Quote, the
-- verb %q.
unfoldable pub limit_param : (Bytes → Bytes) → Bytes → Result ℕ
unfolding not_positive
limit_param quote raw = if is_empty raw then ok default_list_limit else elim (atoi raw) [
  | no_number ↦ err (not_positive quote raw)
  | negative ↦ err (not_positive quote raw)
  | number n ↦
      if ltb n 1
      then err (not_positive quote raw)
      else if ltb max_list_limit n
      then ok max_list_limit
      else ok n
]

unfoldable pub offset_param : (Bytes → Bytes) → Bytes → Result ℕ
unfolding below_zero
offset_param quote raw = if is_empty raw then ok 0 else elim (atoi raw) [
  | no_number ↦ err (below_zero quote raw)
  | negative ↦ err (below_zero quote raw)
  | number n ↦ ok n
]

-- pageParams
unfoldable pub page_params : (Bytes → Bytes) → Bytes → Bytes → Result (ℕ × ℕ)
page_params quote limit offset = elim (limit_param quote limit) [
  | err e ↦ err e
  | ok l ↦ elim (offset_param quote offset) [ err e ↦ err e | ok o ↦ ok (l, o) ]
]

-- The slice of List: list[offset:end], both ends clamped to the length.
unfoldable pub page {ℓ} : {A : Type ℓ} → ℕ → ℕ → List A → List A
page limit offset list =
    let n = length list in
    let start = if ltb n offset then n else offset in
    let end = if ltb n (start + limit) then n else start + limit in
    take (end - start) (drop start list)
