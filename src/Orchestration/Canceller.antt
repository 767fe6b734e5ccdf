-- ===== src/Orchestration/Canceller.antt =====
-- internal/orchestration/canceller.go: the cancel functions of the jobs that run. Its lock makes every
-- operation one step.
pub mod Fires
use rojo.Base.{Bytes, Bool, List, [], ◌∷◌, Option, none, some, bytes_eq, if◌then◌else◌}
use rojo.Errors.{Error, sentinel, job_not_running}

-- The map from ids to cancel functions, and the functions called so far, the latest first.
pub record Canceller (F : Type 0) : Type 0 where
  pub cancels : List (Bytes × F)
  pub fired : List F

module _ {F : Type 0} where
  abbrev pub new_canceller : Canceller F
  new_canceller = record { cancels = []; fired = [] }

  unfoldable pub find_cancel : Bytes → List (Bytes × F) → Option F
  find_cancel id [] = none
  find_cancel id ((k, f) ∷ m) = if bytes_eq k id then some f else find_cancel id m

  unfoldable pub without : Bytes → List (Bytes × F) → List (Bytes × F)
  without id [] = []
  without id ((k, f) ∷ m) = let rest = without id m in if bytes_eq k id then rest else (k, f) ∷ rest

  unfoldable pub track : Bytes → F → Canceller F → Canceller F
  track id f c = record c { cancels = (id, f) ∷ without id c.cancels }

  unfoldable pub release : Bytes → Canceller F → Canceller F
  release id c = record c { cancels = without id c.cancels }

  unfoldable pub cancel : Bytes → Canceller F → Option Error × Canceller F
  cancel id c = elim (find_cancel id c.cancels) [
    | none ↦ (some (sentinel job_not_running), c)
    | some f ↦ (none, record c { cancels = without id c.cancels; fired = f ∷ c.fired })
  ]
