-- ===== src/Execution/Safe.antt =====
-- About internal/execution/allowlist.go.
use rojo.Base.{Bytes, true, false, List, none, some, ◌≡◌, refl, arith}
use rojo.Errors.{Error, error_is, command_not_allowed}
use rojo.Execution.{SafeRunner, safe_run, allows}

-- A command that the allowlist lacks is refused with ErrCommandNotAllowed, and nothing is run: the
-- world is as it was. Run returns no error only for a command that the allowlist has, that the inner
-- runner ran without an error, under a context of the caller that has not ended and before the
-- deadline; the result is then the inner runner's own.
pub safe_run_lem :
    {W : Type 0} (s : SafeRunner W) (dir command : Bytes) (args : List Bytes) (w : W)
    → (allows s.allowlist command ≡ false
        → ((e : Error) × (error_is command_not_allowed e ≡ true)
            × ((safe_run s dir command args w).0.1 ≡ some e)
            × ((safe_run s dir command args w).1 ≡ w)))
      × ((safe_run s dir command args w).0.1 ≡ none
          → (allows s.allowlist command ≡ true)
            × ((safe_run s dir command args w).0.0 ≡ (s.inner dir command args w).0.0)
            × ((s.inner dir command args w).0.1 ≡ none)
            × ((s.ctx_error (s.inner dir command args w).1).0 ≡ none)
            × ((s.expired (s.ctx_error (s.inner dir command args w).1).1).0 ≡ false))
unfolding safe_run error_is
safe_run_lem s dir command args w = (λ no. rw no (_, refl, refl, refl), λ fine. ground arith)
