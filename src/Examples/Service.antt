-- ===== src/Examples/Service.antt =====
-- The theorem about a submission to the service, over an empty queue of one place.
use rojo.Base.{ℕ, Bytes, false, [], ◌∷◌, ◌≡◌, bytes, is_some, ltb}
use rojo.Jobs.Request.{NewJobRequest}
use rojo.Jobs.Repository.{find_job}
use rojo.Queue.{new_queue}
use rojo.Api.Handlers.{submit}
use rojo.Api.Service.{Service, service}
use rojo.Api.Service.Submitted.{submitted, outcome, submit_lem}

abbrev times : ℕ → ℕ
times n = n

abbrev seeds : ℕ → Bytes
seeds n = n ∷ []

abbrev request : NewJobRequest
unfolding bytes
request = record { task = bytes "fix"; repo_path = bytes "/r" }

abbrev fresh : Service
fresh = record { repo = []; queue = new_queue 1; announced = []; tick = 0 }

submit_lem_example :
    submit (service times seeds) request fresh
    ≡ outcome times seeds request fresh
        (is_some (find_job (submitted times seeds request fresh).id []))
        false
        (ltb 0 1)
unfolding new_queue
submit_lem_example = submit_lem times seeds request fresh
