-- ===== src/Config/EnvFile.antt =====
-- internal/config/envfile.go: KEY=VALUE lines that fill gaps of the process environment.
pub mod Wins
use rojo.Base.{
  ℕ, ◌+◌, Bytes, Bool, true, false, List, [], ◌∷◌, ◌++◌, Option, none, some, ◌||◌, ◌==◌, bytes,
  bytes_eq, contains, contains_byte, cut_byte, decimal, has_prefix, is_empty, is_some, trim_prefix,
  trim_space, if◌then◌else◌,
}
use rojo.Errors.{Error, error_is, error_text, invalid_argument, not_exist, plain, sentinel, wrap}

pub record EnvFileResult : Type 0 where
  pub path : Bytes
  pub set_names : List Bytes
  pub skipped : List Bytes
  pub world_readable : Bool

-- The text before the first place where `p` stands: strings.Index.
unfoldable pub before_first : Bytes → Bytes → Option Bytes
unfolding has_prefix
before_first p [] = none
before_first p (b ∷ s) =
    let rest = before_first p s in
    if has_prefix (b ∷ s) p then some [] else elim rest [ none ↦ none | some t ↦ some (b ∷ t) ]

-- The text before a last byte `q`.
unfoldable pub before_end : ℕ → Bytes → Option Bytes
before_end q [] = none
before_end q (b ∷ []) = if b == q then some [] else none
before_end q (b ∷ c ∷ s) = elim (before_end q (c ∷ s)) [ none ↦ none | some t ↦ some (b ∷ t) ]

-- The text between two quotes of one kind.
unfoldable pub unquoted : Bytes → Option Bytes
unfolding before_end
unquoted [] = none
unquoted (q ∷ s) = if q == 34 || q == 39 then before_end q s else none

-- The value that stands behind the '='.
unfoldable pub read_value : Bytes → Bytes
unfolding unquoted before_first
read_value value = elim (unquoted value) [
  | some v ↦ v
  | none ↦ elim (before_first (b' ' ∷ b'#' ∷ []) value) [ none ↦ value | some t ↦ trim_space t ]
]

-- parseEnvLine: none is `ok` false.
unfoldable pub parse_env_line : Bytes → Option (Bytes × Bytes)
unfolding bytes trim_prefix cut_byte read_value has_prefix
parse_env_line raw =
    let line = trim_space raw in
    if is_empty line || has_prefix line (b'#' ∷ [])
    then none
    else elim (cut_byte b'=' (trim_prefix line (bytes "export "))) [
      | none ↦ none
      | some (key, value) ↦ some (trim_space key, read_value (trim_space value))
    ]

-- The process environment.
abbrev pub Environment : Type 0
Environment = List (Bytes × Bytes)

-- os.LookupEnv
unfoldable pub lookup_env : Bytes → Environment → Option Bytes
lookup_env k [] = none
lookup_env k ((j, v) ∷ env) = if bytes_eq j k then some v else lookup_env k env

-- os.Setenv of a variable that is not set.
unfoldable pub set_env : Bytes → Bytes → Environment → Option Error × Environment
unfolding bytes contains_byte
set_env k v env =
    if is_empty k || (contains_byte b'=' k || (contains_byte 0 k || contains_byte 0 v))
    then (some (wrap (bytes "setenv: ") (sentinel invalid_argument) []), env)
    else (none, (k, v) ∷ env)

abbrev at_line : Bytes → ℕ → Bytes
at_line path line = path ++ (b':' ∷ decimal line)

-- The loop over the lines, at the number of the first.
unfoldable pub load_lines :
    ℕ → List Bytes → EnvFileResult → Environment → (EnvFileResult × Option Error) × Environment
unfolding bytes decimal
load_lines line [] res env = ((res, none), env)
load_lines line (raw ∷ raws) res env = elim (parse_env_line raw) [
  | none ↦ load_lines (line + 1) raws res env
  | some (key, value) ↦
      if is_empty key
      then ((res, some (plain (at_line res.path line ++ bytes ": line has no variable name"))), env)
      else elim (lookup_env key env) [
        | some v ↦ load_lines (line + 1) raws (record res { skipped = res.skipped ++ key ∷ [] }) env
        | none ↦
            let (problem, env1) = set_env key value env in
            elim problem [
              | some e ↦ (
                (
                  res,
                  some (
                      wrap (at_line res.path line ++ (bytes ": set " ++ (key ++ bytes ": "))) e []),
                ),
                env1,
              )
              | none ↦
                  load_lines (line + 1) raws (record res { set_names = res.set_names ++ key ∷ [] })
                    env1
            ]
      ]
]

-- What os.Open and the scanner came to: an error, or whether others may read the file, its lines, and
-- the scanner's error.
pub data EnvFile : Type 0 where
  unopened : Error → EnvFile
  opened : Bool → List Bytes → Option Error → EnvFile

abbrev no_env_file : EnvFileResult
no_env_file = record { path = []; set_names = []; skipped = []; world_readable = false }

-- LoadEnvFile
unfoldable pub load_env_file :
    Bytes → EnvFile → Environment → (EnvFileResult × Option Error) × Environment
unfolding bytes load_lines contains no_env_file
load_env_file path (unopened e) env =
    if error_is not_exist e || contains (error_text e) (bytes "file does not exist")
    then ((no_env_file, none), env)
    else ((no_env_file, some (wrap (bytes "open env file " ++ (path ++ bytes ": ")) e [])), env)
load_env_file path (opened readable raws scan) env =
    let res : EnvFileResult = record {
      path = path;
      set_names = [];
      skipped = [];
      world_readable = readable;
    } in
    let ((res1, problem), env1) = load_lines 1 raws res env in
    elim problem [
      | some e ↦ ((res1, some e), env1)
      | none ↦ elim scan [
        | none ↦ ((res1, none), env1)
        | some e ↦ ((res1, some (wrap (bytes "read env file " ++ (path ++ bytes ": ")) e [])), env1)
      ]
    ]
