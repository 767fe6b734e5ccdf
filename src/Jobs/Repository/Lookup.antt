-- ===== src/Jobs/Repository/Lookup.antt =====
-- About internal/jobs/repository.go as a map from ids to jobs: what a lookup finds after an operation.
use rojo.Base.{
  apart, third, found, Bytes, Bool-cases, true, false, [], ◌∷◌, none, some, ◌≡◌, refl, inl, inr,
  arith, is_some, if◌then◌else◌, bytes_eq,
}
use rojo.Errors.{sentinel, job_not_found, job_already_exists, Result, ok}
use rojo.Jobs.Status.{Job}
use rojo.Jobs.Repository.{Repository, find_job, replace_job, create, get, update}

-- What a lookup of `id` finds once `j` is stored, with `old` what it found before.
abbrev pub with_job : Job → Bytes → Result Job → Result Job
with_job j id old = if bytes_eq j.id id then ok j else old

pub find-replace :
    (j : Job) (r : Repository) (id : Bytes)
    → is_some (find_job j.id r) ≡ true
    → find_job id (replace_job j r) ≡ (if bytes_eq j.id id then some j else find_job id r)
unfolding find_job replace_job
find-replace j [] id h = cc
find-replace j (k ∷ ks) id h = elim (Bool-cases (bytes_eq k.id j.id)) [
  | inl e ↦ elim (Bool-cases (bytes_eq j.id id)) [
    | inl f ↦ rw (e, f) refl
    | inr f ↦ rw (e, f, apart k.id j.id id e f) refl
  ]
  | inr e ↦
      let rest = find-replace j ks id (ground (arith, e, h)) in
      elim (Bool-cases (bytes_eq k.id id)) [
        | inl f ↦ rw (e, f, third k.id j.id id e f) refl
        | inr f ↦ rw (e, f) rest
      ]
]

get-replaced :
    (j : Job) (r : Repository) (id : Bytes)
    → is_some (find_job j.id r) ≡ true
    → get id (replace_job j r) ≡ with_job j id (get id r)
unfolding get
get-replaced j r id h = elim (Bool-cases (bytes_eq j.id id)) [
  | inl e ↦ rw (get, find-replace j r id h, e) refl
  | inr e ↦ rw (get, find-replace j r id h, e) refl
]

get-added : (j : Job) (r : Repository) (id : Bytes) → get id (j ∷ r) ≡ with_job j id (get id r)
unfolding get find_job
get-added j r id = elim (Bool-cases (bytes_eq j.id id)) [
  | inl e ↦ rw (get, find_job, e) refl
  | inr e ↦ rw (get, find_job, e) refl
]

-- Update of a stored job succeeds and then the job is found under its id and everything else as
-- before; Update of a job that is not stored reports it and changes nothing.
pub update_lem :
    (j : Job) (r : Repository)
    → (is_some (find_job j.id r) ≡ true
        → ((update j r).0 ≡ none)
          × ((id : Bytes) → get id (update j r).1 ≡ with_job j id (get id r)))
      × (is_some (find_job j.id r) ≡ false → update j r ≡ (some (sentinel job_not_found), r))
unfolding update get
update_lem j r = elim (found (find_job j.id r)) [
  | inl e ↦ (λ h. cc (e, h), λ h. rw (update, e) refl)
  | inr (k, e) ↦
      (λ h. (rw (update, e) refl, λ id. rw (update, e) (get-replaced j r id h)), λ h. cc (e, h))
]

-- Create of a job whose id is new succeeds and then the job is found under its id and everything else
-- as before; Create of a job whose id is taken reports it and changes nothing.
pub create_lem :
    (j : Job) (r : Repository)
    → (is_some (find_job j.id r) ≡ false
        → ((create j r).0 ≡ none)
          × ((id : Bytes) → get id (create j r).1 ≡ with_job j id (get id r)))
      × (is_some (find_job j.id r) ≡ true → create j r ≡ (some (sentinel job_already_exists), r))
unfolding create get find_job
create_lem j r = elim (found (find_job j.id r)) [
  | inl e ↦ (λ h. (rw (create, e) refl, λ id. rw (create, e) (get-added j r id)), λ h. cc (e, h))
  | inr (k, e) ↦ (λ h. cc (e, h), λ h. rw (create, e) refl)
]
