-- ===== src/Jobs/Repository.antt =====
-- internal/jobs/repository.go: the repository in memory.
pub mod Lookup
pub mod Order
use rojo.Base.{
  ℕ, Bytes, Bool, Bool-cases, true, false, List, [], ◌∷◌, Option, none, some, ◌≡◌, refl, sym, ◌∙◌,
  ◌⊎◌, inl, inr, arith, is_some, if◌then◌else◌, bytes_eq, eq_of_bytes_eq, bytes_eq_self, ltb, ◌==◌,
  ◌&&◌, ◌||◌,
}
use rojo.Base.Sort.{bytes_less, sort_by}
use rojo.Errors.{Error, sentinel, job_not_found, job_already_exists, Result, ok, err}
use rojo.Jobs.Status.{Job}

-- The map from ids to jobs, as the list of its values. A value is a copy of its own: cloneJob is made
-- on the way in and on the way out.
abbrev pub Repository : Type 0
Repository = List Job

unfoldable pub find_job : Bytes → Repository → Option Job
find_job id [] = none
find_job id (j ∷ js) = if bytes_eq j.id id then some j else find_job id js

-- Assignment to a key that the map has.
unfoldable pub replace_job : Job → Repository → Repository
replace_job j [] = []
replace_job j (k ∷ ks) =
    let rest = replace_job j ks in if bytes_eq k.id j.id then j ∷ ks else k ∷ rest

unfoldable pub create : Job → Repository → Option Error × Repository
create j r = elim (find_job j.id r) [
  | some k ↦ (some (sentinel job_already_exists), r)
  | none ↦ (none, j ∷ r)
]

unfoldable pub get : Bytes → Repository → Result Job
get id r = elim (find_job id r) [ none ↦ err (sentinel job_not_found) | some j ↦ ok j ]

unfoldable pub update : Job → Repository → Option Error × Repository
update j r = elim (find_job j.id r) [
  | none ↦ (some (sentinel job_not_found), r)
  | some k ↦ (none, replace_job j r)
]

-- The comparison of List: the later creation first, and the ids where two times are equal.
unfoldable pub comes_before : Job → Job → Bool
comes_before i k =
    if i.created_at == k.created_at then bytes_less i.id k.id else ltb k.created_at i.created_at

-- List
unfoldable pub list_jobs : Repository → List Job
list_jobs r = sort_by comes_before r
