-- ===== src/Config/EnvFile/Wins.antt =====
-- About internal/config/envfile.go: which value a variable has after the file was read.
use rojo.Base.{
  ℕ, ◌+◌, Bytes, Bool, Bool-cases, List, [], ◌∷◌, Option, none, some, ◌≡◌, ap, ◌∙◌, inl, inr, found,
  arith, bytes_eq, bytes_eq_iff, is_empty, if◌then◌else◌,
}
use rojo.Errors.{Error}
use rojo.Config.EnvFile.{
  EnvFileResult, Environment, parse_env_line, lookup_env, set_env, load_lines, load_env_file,
  EnvFile, unopened, opened,
}

-- The value by the first line that defines a variable.
pub first_definition : Bytes → List Bytes → Option Bytes
first_definition k [] = none
first_definition k (raw ∷ raws) =
    let rest = first_definition k raws in
    elim (parse_env_line raw) [
      | none ↦ rest
      | some (key, value) ↦ if bytes_eq key k then some value else rest
    ]

abbrev pub or_else : Option Bytes → Option Bytes → Option Bytes
or_else none o = o
or_else (some v) o = some v

set_env-lookup :
    (key value k : Bytes) (env : Environment)
    → (set_env key value env).0 ≡ none
    → lookup_env k (set_env key value env).1
      ≡ (if bytes_eq key k then some value else lookup_env k env)
unfolding set_env lookup_env
set_env-lookup key value k env h = ground arith

set_env-keeps :
    (key value k v : Bytes) (env : Environment)
    → lookup_env key env ≡ none
    → lookup_env k env ≡ some v
    → lookup_env k (set_env key value env).1 ≡ some v
unfolding set_env lookup_env
set_env-keeps key value k v env n h = ground (arith, bytes_eq_iff key k)

-- What the loop leaves of a variable: its value if it had one, and else that of the first line that
-- defines it, if every line was taken.
abbrev Left : Bytes → Environment → Option Bytes → Option Error → Environment → Type 0
Left k env first problem left =
    ((v : Bytes) → lookup_env k env ≡ some v → lookup_env k left ≡ some v)
    × (problem ≡ none → lookup_env k left ≡ or_else (lookup_env k env) first)

-- A line that defines a variable that is set, and one that defines a variable that is not.
later :
    (key value x k : Bytes) (env : Environment) (first : Option Bytes) (problem : Option Error)
    (left : Environment)
    → lookup_env key env ≡ some x
    → Left k env first problem left
    → Left k env (if bytes_eq key k then some value else first) problem left
later key value x k env first problem left s (keeps, sets) =
    (keeps, λ h. ground (arith, bytes_eq_iff key k, sets h))

earlier :
    (key value k : Bytes) (env : Environment) (first : Option Bytes) (problem : Option Error)
    (left : Environment)
    → lookup_env key env ≡ none
    → (set_env key value env).0 ≡ none
    → Left k (set_env key value env).1 first problem left
    → Left k env (if bytes_eq key k then some value else first) problem left
earlier key value k env first problem left s p (keeps, sets) = (
  λ v h. keeps v (set_env-keeps key value k v env s h),
  λ h. ground (arith, bytes_eq_iff key k, sets h, set_env-lookup key value k env p),
)

load_lines-Left :
    (line : ℕ) (raws : List Bytes) (res : EnvFileResult) (env : Environment) (k : Bytes)
    → Left k env
        (first_definition k raws)
        (load_lines line raws res env).0.1
        (load_lines line raws res env).1
unfolding load_lines first_definition
load_lines-Left line [] res env k = (λ v h. h, λ h. ground arith)
load_lines-Left line (raw ∷ raws) res env k = elim (found (parse_env_line raw)) [
  | inl m ↦ rw (m, load_lines, first_definition) (load_lines-Left (line + 1) raws res env k)
  | inr (kv, m) ↦
      rw (m, load_lines, first_definition)
        (elim (Bool-cases (is_empty kv.0)) [
          | inl e ↦ rw e (λ v h. h, λ h. absurd (let q = h in cc))
          | inr e ↦ rw e (elim (found (lookup_env kv.0 env)) [
            | inr (x, s) ↦
                rw s (later kv.0 kv.1 x k env _ _ _ s (load_lines-Left (line + 1) raws _ env k))
            | inl s ↦ rw s (elim (found (set_env kv.0 kv.1 env).0) [
              | inr (x, p) ↦
                  rw p (λ v h. set_env-keeps kv.0 kv.1 k v env s h, λ h. absurd (let q = h in cc))
              | inl p ↦ rw p (
                  earlier kv.0 kv.1 k env _ _ _ s p
                    (load_lines-Left (line + 1) raws _ (set_env kv.0 kv.1 env).1 k))
            ])
          ])
        ])
]

-- The real environment wins: a variable that is set has its value still, whatever the file and its
-- errors. Where LoadEnvFile returns no error for a file that it could open, every other variable has
-- the value of the first line that defines it, or none.
pub load_env_file-value :
    (path : Bytes) (file : EnvFile) (env : Environment) (k : Bytes)
    → ((v : Bytes)
        → lookup_env k env ≡ some v
        → lookup_env k (load_env_file path file env).1 ≡ some v)
      × ((readable : Bool) (raws : List Bytes) (scan : Option Error)
          → file ≡ opened readable raws scan
          → (load_env_file path file env).0.1 ≡ none
          → lookup_env k (load_env_file path file env).1
            ≡ or_else (lookup_env k env) (first_definition k raws))
unfolding load_env_file
load_env_file-value path (unopened e) env k =
    (λ v h. ground arith, λ r raws scan m. absurd (let q = m in cc))
load_env_file-value path (opened readable raws scan) env k =
    let res : EnvFileResult = record {
      path = path;
      set_names = [];
      skipped = [];
      world_readable = readable;
    } in
    let (keeps, sets) = load_lines-Left 1 raws res env k in
    elim (found (load_lines 1 raws res env).0.1) [
      | inr (e, p) ↦ rw (p, load_env_file) (keeps, λ r rs sc m h. absurd (let q = h in cc))
      | inl p ↦
          rw (p, load_env_file)
            (elim (found scan) [
              | inr (e, q) ↦ rw q (keeps, λ r rs sc m h. absurd (let x = h in cc))
              | inl q ↦ rw q (
                keeps,
                λ r rs sc m h.
                    let same : raws ≡ rs = cc in
                    sets p ∙ ap (λ x. or_else (lookup_env k env) (first_definition k x)) same,
              )
            ])
    ]
