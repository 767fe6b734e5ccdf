-- ===== src/Agents/Implementor.antt =====
-- internal/agents/implementor/implementor.go: the operations of an attempt, checked and carried out
-- under an os.Root.
pub mod Segments
pub mod Directories
pub mod Confined
use rojo.Base.{
  ℕ, ◌+◌, ◌-◌, Bytes, Bool, true, false, List, [], ◌∷◌, ◌++◌, Option, none, some, bytes, bytes_eq,
  length, decimal, ltb, leb, ◌==◌, ◌&&◌, ◌||◌, any, has_prefix, contains, contains_byte, is_empty,
  is_abs, clean, dir_of, dot, dot_dot, split, trim_space, if◌then◌else◌,
}
use rojo.Errors.{
  Error, sentinel, wrap, error_is, error_text, path_escape, protected_path, too_many_ops,
  op_too_large, empty_path, invalid_op, invalid_argument, not_exist, Result, ok, err,
}
use rojo.Agents.Types.{Operation, OpKind, write, append, delete, other_kind}

abbrev pub max_ops_per_attempt : ℕ
max_ops_per_attempt = 50

abbrev pub max_op_size_bytes : ℕ
max_op_size_bytes = 1048576

-- strings.ToLower, as far as a comparison with an ASCII text can tell: U+0130 and U+212A are the only
-- letters beyond ASCII that become ASCII ones.
lower_byte : ℕ → ℕ
lower_byte b = if leb b'A' b && leb b b'Z' then b + 32 else b

unfoldable pub to_lower : Bytes → Bytes
unfolding lower_byte
to_lower [] = []
to_lower (a ∷ []) = lower_byte a ∷ []
to_lower (a ∷ b ∷ []) =
    let rest = to_lower (b ∷ []) in
    if a == 0xc4 && b == 0xb0 then b'i' ∷ [] else lower_byte a ∷ rest
to_lower (a ∷ b ∷ c ∷ s) =
    let one = to_lower (b ∷ c ∷ s) in
    let two = to_lower (c ∷ s) in
    let three = to_lower s in
    if a == 0xc4 && b == 0xb0
    then b'i' ∷ two
    else if a == 0xe2 && (b == 0x84 && c == 0xaa)
    then b'k' ∷ three
    else lower_byte a ∷ one

abbrev pub protected_paths : List Bytes
unfolding bytes
protected_paths = bytes ".git" ∷ bytes ".env" ∷ []

-- The test of checkProtected on one segment.
unfoldable pub is_protected : Bytes → Bool
unfolding to_lower has_prefix
is_protected seg =
    let lower = to_lower seg in
    any (λ p. bytes_eq lower p || has_prefix lower (p ++ b'.' ∷ [])) protected_paths

unfoldable pub check_protected : Bytes → Option Error
unfolding is_protected bytes
check_protected cleaned =
    if any is_protected (split b'/' cleaned)
    then some (wrap [] (sentinel protected_path) (bytes ": " ++ cleaned))
    else none

unfoldable pub resolve_path : Bytes → Result Bytes
unfolding bytes
resolve_path rel =
    if is_empty (trim_space rel)
    then err (sentinel empty_path)
    else if contains_byte 0 rel
    then err (wrap [] (sentinel path_escape) (bytes ": path contains a NUL byte"))
    else if has_prefix (clean rel) dot_dot || is_abs (clean rel)
    then err (sentinel path_escape)
    else elim (check_protected (clean rel)) [ some e ↦ err e | none ↦ ok (clean rel) ]

unfoldable pub is_insecure_path : Error → Bool
unfolding bytes
is_insecure_path e = contains (error_text e) (bytes "escapes from parent")

unfoldable pub escape_err : Error → Error
unfolding bytes
escape_err e =
    if error_is invalid_argument e || is_insecure_path e
    then wrap [] (sentinel path_escape) (bytes ": " ++ error_text e)
    else e

abbrev pub escaped : Option Error → Option Error
escaped none = none
escaped (some e) = some (escape_err e)

-- os.Root over a world, with the handles `F` of the files that it opens, and strconv.Quote.
pub record Root (W F : Type 0) : Type 0 where
  pub open_root : Bytes → W → Option Error × W
  pub close_root : W → W
  pub mkdir_all : Bytes → W → Option Error × W
  pub write_file : Bytes → Bytes → W → Option Error × W
  pub open_append : Bytes → W → Result F × W
  pub write_string : F → Bytes → W → Option Error × W
  pub close_file : F → W → W
  pub remove : Bytes → W → Option Error × W
  pub quote : Bytes → Bytes

abbrev pub kind_text : OpKind → Bytes
unfolding bytes
kind_text write = bytes "write"
kind_text append = bytes "append"
kind_text delete = bytes "delete"
kind_text (other_kind k) = k

module _ {W F : Type 0} (root : Root W F) where
  unfoldable pub make_dir : Bytes → W → Option Error × W
  make_dir rel w =
      let dir = dir_of rel in
      if bytes_eq dir dot then (none, w) else let (e, w1) = root.mkdir_all dir w in (escaped e, w1)

  -- The switch of applyOne, at a path that resolvePath gave.
  unfoldable pub run_op : OpKind → Bytes → Bytes → W → Option Error × W
  unfolding bytes
  run_op write rel content w =
      let (made, w1) = make_dir rel w in
      elim made [
        | some e ↦ (some e, w1)
        | none ↦ let (e, w2) = root.write_file rel content w1 in (escaped e, w2)
      ]
  run_op append rel content w =
      let (opened, w1) = root.open_append rel w in
      elim opened [
        | err e ↦ (some (escape_err e), w1)
        | ok f ↦ let (e, w2) = root.write_string f content w1 in (e, root.close_file f w2)
      ]
  run_op delete rel content w =
      let (removed, w1) = root.remove rel w in
      (
        elim removed [
          | none ↦ none
          | some e ↦ if error_is not_exist e then none else some (escape_err e)
        ],
        w1,
      )
  run_op (other_kind k) rel content w =
      (some (wrap [] (sentinel invalid_op) (bytes ": " ++ root.quote k)), w)

  unfoldable pub apply_one : Operation → W → Option Error × W
  apply_one op w = elim (resolve_path op.path) [
    | err e ↦ (some e, w)
    | ok rel ↦
        if ltb max_op_size_bytes (length op.content)
        then (some (sentinel op_too_large), w)
        else run_op op.kind rel op.content w
  ]

  -- The loop of Apply, at the index of its first operation.
  unfoldable pub apply_from : ℕ → List Operation → W → Option Error × W
  unfolding bytes decimal
  apply_from i [] w = (none, w)
  apply_from i (op ∷ ops) w =
      let (problem, w1) = apply_one op w in
      elim problem [
        | some e ↦ (
          some (
              wrap
                (bytes "op "
                  ++ (decimal i
                      ++ (bytes " ("
                          ++ (kind_text op.kind ++ (bytes " " ++ (op.path ++ bytes "): "))))))
                e []),
          w1,
        )
        | none ↦ apply_from (i + 1) ops w1
      ]

  unfoldable pub apply : Bytes → List Operation → W → Option Error × W
  unfolding bytes decimal
  apply workspace [] w = (none, w)
  apply workspace (op ∷ ops) w =
      let n = length (op ∷ ops) in
      if ltb max_ops_per_attempt n
      then (
        some (
            wrap [] (sentinel too_many_ops) (
              bytes ": "
              ++ (decimal n
                  ++ (bytes " ops (max " ++ (decimal max_ops_per_attempt ++ bytes ")"))))),
        w,
      )
      else let (opened, w1) = root.open_root workspace w in
        elim opened [
          | some e ↦ (some (wrap (bytes "open workspace root: ") e []), w1)
          | none ↦ let (problem, w2) = apply_from 0 (op ∷ ops) w1 in (problem, root.close_root w2)
        ]
