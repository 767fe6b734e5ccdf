-- ===== src/Storage/Loads.antt =====
-- About the index of internal/storage/filestore/filestore.go: what New reads into it.
use rojo.Base.{
  Bytes, Bool, Bool-cases, true, false, ◌&&◌, List, [], ◌∷◌, Option, none, some, ◌≡◌, refl, sym,
  ◌∙◌, inl, inr, arith, found, bytes_eq, eq_of_bytes_eq, is_some, if◌then◌else◌,
}
use rojo.Errors.{ok, err}
use rojo.Jobs.Status.{Job}
use rojo.Jobs.Repository.{Repository, find_job}
use rojo.Jobs.Repository.Lookup.{find-replace}
use rojo.Storage.{Disk, put_job, read_job, load_each}
use rojo.Storage.Cleaned.{IsPlain}
use rojo.Storage.Disks.{AllPlain, ReadsJobs, has_dir, stored, read_job-stored}

pub find-put :
    (j : Job) (r : Repository) (id : Bytes)
    → find_job id (put_job j r) ≡ (if bytes_eq j.id id then some j else find_job id r)
unfolding put_job find_job
find-put j r id = elim (Bool-cases (is_some (find_job j.id r))) [
  | inl e ↦ rw e (find-replace j r id e)
  | inr e ↦ rw e refl
]

module _ {W F : Type 0} (disk : Disk W F) (file : W → Bytes → Option Bytes) where
  -- Each job.json holds a job with the id that its directory is named after.
  abbrev pub IsNamed : Bytes → W → Type 0
  IsNamed dir w =
      (id : Bytes) (j : Job) → IsPlain id → stored disk file dir w id ≡ some j → j.id ≡ id

  -- A directory whose job the loop of New reads into the index.
  seen : Bytes → Bytes → W → List (Bytes × Bool) → Bool
  seen dir id w es = has_dir id es && is_some (stored disk file dir w id)

  load_one-find :
      (dir name id : Bytes) (w : W) (index : Repository)
      → IsNamed dir w
      → ReadsJobs disk file dir w
      → IsPlain name
      → find_job id (elim (read_job disk dir name w) [ err e ↦ index | ok j ↦ put_job j index ]) ≡ (
          if bytes_eq name id && is_some (stored disk file dir w id)
          then stored disk file dir w id
          else find_job id index)
  load_one-find dir name id w index n t p = elim (read_job-stored disk file dir w name (t name p)) [
    | inl (e, r, gone) ↦ elim (Bool-cases (bytes_eq name id)) [
      | inr f ↦ rw (r, f) refl
      | inl f ↦
          let empty : stored disk file dir w id ≡ none = rw (← eq_of_bytes_eq name id f) gone in
          rw (r, f, empty) refl
    ]
    | inr (j, r, held) ↦
        let at : j.id ≡ name = n name j p held in
        elim (Bool-cases (bytes_eq name id)) [
          | inr f ↦
              let g : bytes_eq j.id id ≡ false = rw at f in rw (r, find-put j index id, g, f) refl
          | inl f ↦
              let full : stored disk file dir w id ≡ some j =
                rw (← eq_of_bytes_eq name id f) held in
              let g : bytes_eq j.id id ≡ true = rw at f in
              rw (r, find-put j index id, g, f, full) refl
        ]
  ]

  load_each-find :
      (dir id : Bytes) (es : List (Bytes × Bool)) (w : W) (index : Repository)
      → IsNamed dir w
      → ReadsJobs disk file dir w
      → AllPlain es
      → find_job id (load_each disk dir es w index)
        ≡ (if seen dir id w es then stored disk file dir w id else find_job id index)
  unfolding load_each seen
  load_each-find dir id [] w index n t p = refl
  load_each-find dir id ((name, false) ∷ es) w index n t (p, ps) =
      load_each-find dir id es w index n t ps
  load_each-find dir id ((name, true) ∷ es) w index n t (p, ps) =
      load_each-find dir id es w _ n t ps
      ∙ rw (load_one-find dir name id w index n t p) (elim (Bool-cases (bytes_eq name id)) [
        | inr f ↦ rw f refl
        | inl f ↦ rw f (elim (found (stored disk file dir w id)) [
          | inl e ↦ rw e (ground arith)
          | inr (j, e) ↦ rw e (ground arith)
        ])
      ])

  has_dir-IsPlain :
      (id : Bytes) (es : List (Bytes × Bool)) → AllPlain es → has_dir id es ≡ true → IsPlain id
  has_dir-IsPlain id [] ps h = cc
  has_dir-IsPlain id ((name, false) ∷ es) (p, ps) h = has_dir-IsPlain id es ps h
  has_dir-IsPlain id ((name, true) ∷ es) (p, ps) h = elim (Bool-cases (bytes_eq name id)) [
    | inl f ↦ rw (← eq_of_bytes_eq name id f) p
    | inr f ↦ has_dir-IsPlain id es ps (rw f at h)
  ]

  -- What New has read: every stored job that is listed, and nothing else.
  pub loaded :
      (dir id : Bytes) (es : List (Bytes × Bool)) (w : W)
      → IsNamed dir w
      → ReadsJobs disk file dir w
      → AllPlain es
      → ((j : Job) → stored disk file dir w id ≡ some j → has_dir id es ≡ true)
      → find_job id (load_each disk dir es w []) ≡ stored disk file dir w id
  unfolding seen find_job
  loaded dir id es w n t ps listed =
      load_each-find dir id es w [] n t ps ∙ elim (found (stored disk file dir w id)) [
        | inr (j, e) ↦ rw (e, listed j e) refl
        | inl e ↦ elim (Bool-cases (has_dir id es)) [
          | inl b ↦ rw (e, b) refl
          | inr b ↦ rw (e, b) refl
        ]
      ]

  pub loaded-IsPlain :
      (dir id : Bytes) (es : List (Bytes × Bool)) (w : W) (j : Job)
      → IsNamed dir w
      → ReadsJobs disk file dir w
      → AllPlain es
      → find_job id (load_each disk dir es w []) ≡ some j
      → IsPlain id
  unfolding seen find_job
  loaded-IsPlain dir id es w j n t ps h = elim (Bool-cases (has_dir id es)) [
    | inl b ↦ has_dir-IsPlain id es ps b
    | inr b ↦
        let c : none ≡ some j = rw b at (sym (load_each-find dir id es w [] n t ps) ∙ h) in
        absurd (cc)
  ]
