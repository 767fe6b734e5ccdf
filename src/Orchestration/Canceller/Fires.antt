-- ===== src/Orchestration/Canceller/Fires.antt =====
-- About internal/orchestration/canceller.go: which functions a cancellation calls.
use rojo.Base.{
  Bytes, false, List, [], ◌∷◌, none, some, ◌≡◌, refl, ◌∙◌, arith, bytes_eq, bytes_eq_self,
  bytes_eq_iff, if◌then◌else◌,
}
use rojo.Errors.{sentinel, job_not_running}
use rojo.Orchestration.Canceller.{Canceller, find_cancel, without, track, release, cancel}

module _ {F : Type 0} where
  find_cancel-without :
      (k id : Bytes) (m : List (Bytes × F))
      → find_cancel k (without id m) ≡ (if bytes_eq id k then none else find_cancel k m)
  unfolding find_cancel without
  find_cancel-without k id [] = ground arith
  find_cancel-without k id ((j, f) ∷ m) =
      ground
        (arith, bytes_eq_iff j id, bytes_eq_iff j k, bytes_eq_iff id k, find_cancel-without k id m)

  find_cancel-cons :
      (id : Bytes) (f : F) (m : List (Bytes × F)) → find_cancel id ((id, f) ∷ m) ≡ some f
  unfolding find_cancel
  find_cancel-cons id f m = rw (find_cancel, bytes_eq_self id) refl

  without-cons :
      (id : Bytes) (f : F) (m : List (Bytes × F)) → without id ((id, f) ∷ m) ≡ without id m
  unfolding without
  without-cons id f m = rw (without, bytes_eq_self id) refl

  find_cancel-without_self :
      (id : Bytes) (m : List (Bytes × F)) → find_cancel id (without id m) ≡ none
  find_cancel-without_self id m = rw (find_cancel-without id id m, bytes_eq_self id) refl

  find_cancel-without_other :
      (k id : Bytes) (m : List (Bytes × F))
      → bytes_eq id k ≡ false
      → find_cancel k (without id m) ≡ find_cancel k m
  find_cancel-without_other k id m n = rw (find_cancel-without k id m, n) refl

  -- Cancel of an id that the map has, and of one that it does not have.
  cancel-found :
      (id : Bytes) (f : F) (c : Canceller F)
      → find_cancel id c.cancels ≡ some f
      → cancel id c ≡ (none, record c { cancels = without id c.cancels; fired = f ∷ c.fired })
  unfolding cancel without
  cancel-found id f c e = rw (cancel, e) refl

  cancel-missing :
      (id : Bytes) (c : Canceller F)
      → find_cancel id c.cancels ≡ none
      → cancel id c ≡ (some (sentinel job_not_running), c)
  unfolding cancel
  cancel-missing id c e = rw (cancel, e) refl

  -- A job that is tracked is cancelled by its own function, once: the first Cancel calls it, a second
  -- finds that the job does not run, and after a Release the function is never called. The functions
  -- of other jobs are left as they are.
  pub cancel-track :
      (id k : Bytes) (f : F) (c : Canceller F)
      → ((cancel id (track id f c)).0 ≡ none)
        × ((cancel id (track id f c)).1.fired ≡ f ∷ c.fired)
        × (cancel id (cancel id (track id f c)).1
            ≡ (some (sentinel job_not_running), (cancel id (track id f c)).1))
        × (cancel id (release id (track id f c))
            ≡ (some (sentinel job_not_running), release id (track id f c)))
        × (bytes_eq id k ≡ false
            → find_cancel k (cancel id (track id f c)).1.cancels ≡ find_cancel k c.cancels)
  unfolding track release
  cancel-track id k f c =
      let e : cancel id (track id f c)
          ≡ (none, record { cancels = without id (without id c.cancels); fired = f ∷ c.fired }) =
        cancel-found id f (track id f c) (find_cancel-cons id f (without id c.cancels))
        ∙ rw (without-cons id f (without id c.cancels)) refl in
      rw e (
        refl,
        refl,
        cancel-missing id _ (find_cancel-without_self id (without id c.cancels)),
        cancel-missing id (release id (track id f c))
            (find_cancel-without_self id ((id, f) ∷ without id c.cancels)),
        λ n.
            find_cancel-without_other k id (without id c.cancels) n
            ∙ find_cancel-without_other k id c.cancels n,
      )
