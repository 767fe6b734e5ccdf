-- ===== src/Workers/Finishes.antt =====
-- About internal/worker/pool.go: the workers finish behind a closed queue.
use rojo.Base.{
  occurrences, ℕ, zero, suc, ◌+◌, ◌*◌, ◌≤◌, ◌<◌, Bytes, true, false, List, [], ◌∷◌, ◌++◌, ◌≡◌, refl,
  sym, ap, ◌∙◌, ◌⊎◌, inl, inr, arith, All, length,
}
use rojo.Orchestration.Env.{returns}
use rojo.Base.{none}
use rojo.Queue.{Queue, receive, receive_from, item, ended}
use rojo.Workers.{
  Worker, selecting, stopped, processing, new_pool, after_process, Pool, WorkerStep, takes,
  finishes, stops, quits, Life, works,
}
use rojo.Workers.Drained.{
  busy, total, at_rest, each, needs, changed, after_process-selects, received, Life-IsCounted,
}

-- Every worker has returned, so that Wait returns.
abbrev pub AllStopped : Pool → Type 0
AllStopped p = All (λ w. w ≡ stopped) p.workers

-- The steps that the workers can still make.
abbrev pub work : Pool → ℕ
work p = total needs p.workers + 2 * length p.queue.items

-- A run of the workers alone.
pub data Steps (p : Pool) : ℕ → Pool → Type 0 where
  here : Steps p zero p
  more : {n : ℕ} {q r : Pool} → Steps p n q → WorkerStep q r → Steps p (suc n) r

step-lt : {p q : Pool} → WorkerStep p q → work q < work p
step-lt (takes p xs ys id e h) =
    let (items, _) = received p.queue id h in
    omega (
      arith,
      changed needs p.workers xs selecting (processing id) ys e,
      ap (length {A = Bytes}) items,
    )
step-lt (finishes p xs ys id r e) = omega (
  arith,
  changed needs p.workers xs (processing id) (after_process r) ys e,
  ap needs (after_process-selects r),
)
step-lt (stops p xs ys e h) = omega (arith, changed needs p.workers xs selecting stopped ys e)
step-lt (quits p xs ys e c) = omega (arith, changed needs p.workers xs selecting stopped ys e)

Steps-le : {p : Pool} {n : ℕ} {q : Pool} → Steps p n q → n + work q ≤ work p
Steps-le here = omega arith
Steps-le (more s t) = omega (arith, Steps-le s, step-lt t)

-- What the workers leave alone.
step-same :
    {p q : Pool}
    → WorkerStep p q
    → (q.queue.closed ≡ p.queue.closed) × (q.cancelled ≡ p.cancelled) × (q.accepted ≡ p.accepted)
step-same (takes p xs ys id e h) = ((received p.queue id h).1, refl, refl)
step-same (finishes p xs ys id r e) = (refl, refl, refl)
step-same (stops p xs ys e h) = (refl, refl, refl)
step-same (quits p xs ys e c) = (refl, refl, refl)

Steps-same :
    {p : Pool} {n : ℕ} {q : Pool}
    → Steps p n q
    → (q.queue.closed ≡ p.queue.closed) × (q.cancelled ≡ p.cancelled) × (q.accepted ≡ p.accepted)
Steps-same here = (refl, refl, refl)
Steps-same (more s t) =
    let (a, b, c) = Steps-same s in let (d, e, f) = step-same t in (d ∙ a, e ∙ b, f ∙ c)

Steps-Life :
    {size places : ℕ} {p : Pool} {n : ℕ} {q : Pool}
    → Steps p n q
    → Life size places p
    → Life size places q
Steps-Life here l = l
Steps-Life (more s t) l = works (Steps-Life s l) t

-- A worker that has not returned, if there is one.
pick :
    (ws : List Worker)
    → All (λ w. w ≡ stopped) ws
      ⊎ ((xs : List Worker) × (ys : List Worker) × (ws ≡ xs ++ selecting ∷ ys))
      ⊎ ((xs : List Worker) × (ys : List Worker) × (id : Bytes) × (ws ≡ xs ++ processing id ∷ ys))
pick [] = inl tt
pick (selecting ∷ ws) = inr (inl ([], ws, refl))
pick (processing id ∷ ws) = inr (inr ([], ws, id, refl))
pick (stopped ∷ ws) = elim (pick ws) [
  | inl h ↦ inl (refl, h)
  | inr (inl (xs, ys, e)) ↦ inr (inl (stopped ∷ xs, ys, ap (λ l. stopped ∷ l) e))
  | inr (inr (xs, ys, id, e)) ↦ inr (inr (stopped ∷ xs, ys, id, ap (λ l. stopped ∷ l) e))
]

receives_from :
    (q : Queue) (l : List Bytes)
    → q.closed ≡ true
    → ((receive_from l q).0 ≡ ended) ⊎ ((id : Bytes) × ((receive_from l q).0 ≡ item id))
receives_from q [] c = inl (rw c refl)
receives_from q (x ∷ xs) c = inr (x, refl)

receives :
    (q : Queue)
    → q.closed ≡ true
    → ((receive q).0 ≡ ended) ⊎ ((id : Bytes) × ((receive q).0 ≡ item id))
unfolding receive
receives q c = receives_from q q.items c

goes_on : (p : Pool) → p.queue.closed ≡ true → AllStopped p ⊎ ((q : Pool) × WorkerStep p q)
goes_on p c = elim (pick p.workers) [
  | inl h ↦ inl h
  | inr (inr (xs, ys, id, e)) ↦ inr (_, finishes p xs ys id (returns none) e)
  | inr (inl (xs, ys, e)) ↦ elim (receives p.queue c) [
    | inl h ↦ inr (_, stops p xs ys e h)
    | inr (id, h) ↦ inr (_, takes p xs ys id e h)
  ]
]

stopped-total :
    (ws : List Worker)
    → All (λ w. w ≡ stopped) ws
    → (total at_rest ws ≡ total each ws) × ((id : Bytes) → total (busy id) ws ≡ 0)
stopped-total [] h = (refl, λ id. refl)
stopped-total (w ∷ ws) (e, h) =
    let (a, b) = stopped-total ws h in
    (omega (arith, a, ap at_rest e), λ id. omega (arith, b id, ap (busy id) e))

new_pool_pos : (n : ℕ) → 0 < new_pool n
unfolding new_pool
new_pool_pos n = ground arith

all_done :
    {size places : ℕ} {p : Pool}
    → Life size places p
    → p.cancelled ≡ false
    → AllStopped p
    → (id : Bytes) → occurrences id p.accepted ≡ occurrences id p.done
all_done {size} {p = p} l c h id =
    let i = Life-IsCounted l in
    let (rest, idle) = stopped-total p.workers h in
    let (items, _) = i.ended_at c (omega (arith, rest, i.manned, new_pool_pos size)) in
    omega (arith, i.counted id, idle id, ap (occurrences id) items)

-- Behind a closed queue, and while the context has not ended, the workers run to their end, however they
-- take turns and whatever the jobs return or panic with: no run of theirs is longer than the work that
-- is left, each can go on until every worker has returned, and then each accepted id has been run just
-- as often as it was accepted.
pub closed-drains :
    {size places : ℕ} (p : Pool)
    → Life size places p
    → p.queue.closed ≡ true
    → p.cancelled ≡ false
    → (n : ℕ) (q : Pool) → Steps p n q
    → (n + work q ≤ work p)
      × (AllStopped q ⊎ ((r : Pool) × WorkerStep q r))
      × (AllStopped q → (id : Bytes) → occurrences id p.accepted ≡ occurrences id q.done)
closed-drains p l closed live n q s =
    let (a, b, c) = Steps-same s in
    (
      Steps-le s,
      goes_on q (a ∙ closed),
      λ h id. ap (occurrences id) (sym c) ∙ all_done (Steps-Life s l) (b ∙ live) h id,
    )
