-- ===== src/Jobs/Repository/Order.antt =====
-- About List of internal/jobs/repository.go: the order of its answer.
use rojo.Base.{◌<◌, true, false, Bool-cases, List, [], ◌∷◌, ◌≡◌, ◌⊎◌, inl, inr, arith, ltb}
use mathlib.Core.List.{Perm}
use rojo.Base.Sort.{bytes_less, bytes_less_asym, InOrder, sort_by-Perm, sort_by-InOrder}
use rojo.Jobs.Status.{Job}
use rojo.Jobs.Repository.{Repository, comes_before, list_jobs}

comes_before_asym : (a b : Job) → comes_before a b ≡ true → comes_before b a ≡ false
unfolding comes_before
comes_before_asym a b h = ground (arith, bytes_less_asym a.id b.id)

-- Each job was created after the job behind it, or at the same time, with an id that is not greater.
abbrev pub IsNewestFirst : List Job → Type 0
IsNewestFirst [] = Unit
IsNewestFirst (a ∷ []) = Unit
IsNewestFirst (a ∷ b ∷ l) =
    ((b.created_at < a.created_at)
      ⊎ ((a.created_at ≡ b.created_at) × (bytes_less b.id a.id ≡ false)))
    × IsNewestFirst (b ∷ l)

newer_first :
    (a b : Job)
    → comes_before b a ≡ false
    → (b.created_at < a.created_at)
      ⊎ ((a.created_at ≡ b.created_at) × (bytes_less b.id a.id ≡ false))
unfolding comes_before
newer_first a b h = elim (Bool-cases (ltb b.created_at a.created_at)) [
  | inl l ↦ inl (ground arith)
  | inr l ↦ inr (ground arith, ground arith)
]

InOrder-IsNewestFirst : (l : List Job) → InOrder comes_before l → IsNewestFirst l
InOrder-IsNewestFirst [] o = tt
InOrder-IsNewestFirst (a ∷ []) o = tt
InOrder-IsNewestFirst (a ∷ b ∷ l) (h, o) = (newer_first a b h, InOrder-IsNewestFirst (b ∷ l) o)

-- List answers with every stored job as often as it is stored, and each of them was created after the
-- job that stands behind it, or at the same time, with an id that is not greater.
pub list_jobs_lem : (r : Repository) → Perm (list_jobs r) r × IsNewestFirst (list_jobs r)
unfolding list_jobs
list_jobs_lem r = (
  sort_by-Perm comes_before r,
  InOrder-IsNewestFirst _ (sort_by-InOrder comes_before comes_before_asym r),
)
