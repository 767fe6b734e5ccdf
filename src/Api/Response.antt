-- ===== src/Api/Response.antt =====
-- internal/api/response.go: a response is a status with a body.
use rojo.Base.{ℕ, Bytes, List, Option, none}
use rojo.Jobs.Status.{Job}
use rojo.Orchestration.Env.{Event}

pub data Body : Type 0 where
  job_body : Job → Body
  jobs_body : List Job → Body
  error_body : Bytes → Body
  cancel_body : Bytes → Body
  events_body : List Event → Body
  diff_body : Bytes → Body

-- `total` is the header X-Total-Count.
pub record Response : Type 0 where
  pub status : ℕ
  pub body : Body
  pub total : Option ℕ

unfoldable pub write_json : ℕ → Body → Response
write_json status body = record { status = status; body = body; total = none }

unfoldable pub write_json_error : ℕ → Bytes → Response
unfolding write_json
write_json_error status message = write_json status (error_body message)
