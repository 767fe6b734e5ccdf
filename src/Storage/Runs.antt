-- ===== src/Storage/Runs.antt =====
-- About the runs of the store of internal/storage/filestore/filestore.go, with its restarts.
use rojo.Base.{
  Bytes, Bool, false, List, [], ◌∷◌, Option, ◌≡◌, sym, ap, ◌∙◌, inl, inr, arith, found, bytes,
  bytes_eq, dot, is_empty,
}
use rojo.Errors.{Result, ok}
use rojo.Jobs.Status.{Job}
use rojo.Jobs.Repository.{find_job}
use rojo.Orchestration.Env.{Event}
use rojo.Storage.{
  Disk, Store, join_all, file_of, job_file, jobs_dir, load_each, acquire_lock, new_store,
  close_store,
}
use rojo.Storage.Methods.{create_job, update_job, append, write_artifact}
use rojo.Storage.Paths.{lock_file, lock-apart}
use rojo.Storage.Cleaned.{IsPlain}
use rojo.Storage.Disks.{IsDisk, ReadsJobs, stored, stored-same, stored-listed, Result-cases}
use rojo.Storage.Written.{ReadsBack}
use rojo.Storage.Loads.{IsNamed, loaded, loaded-IsPlain}
use rojo.Storage.Durable.{IsFaithful, same-IsFaithful}
use rojo.Storage.Steps.{
  create_job-IsFaithful, update_job-IsFaithful, write_artifact-IsFaithful, append-IsFaithful,
}

ok_pair :
    {A B : Type 0} (a c : A) (w v : B)
    → ◌≡◌ {A = Result A × B} (ok a, w) (ok c, v)
    → (a ≡ c) × (w ≡ v)
ok_pair a c w v e = (cc, cc)

module _ {W F : Type 0} (disk : Disk W F) (file : W → Bytes → Option Bytes)
    (laws : IsDisk disk file) where
  lock-keeps :
      (dir : Bytes) (w : W) (id : Bytes)
      → is_empty dir ≡ false
      → IsPlain id
      → file (acquire_lock disk dir w).1 (file_of dir id job_file)
        ≡ file w (file_of dir id job_file)
  unfolding acquire_lock bytes
  lock-keeps dir w id h p =
      let lock = join_all (dir ∷ lock_file ∷ []) in
      let path = file_of dir id job_file in
      let w1 = (disk.open_lock lock w).1 in
      let same = laws.lock_keeps lock w path (lock-apart dir id h p) in
      elim (Result-cases (disk.open_lock lock w).0) [
        | inl (e, o) ↦ rw (acquire_lock, o) same
        | inr (f, o) ↦ elim (found (disk.flock f w1).0) [
          | inl k ↦ rw (acquire_lock, o, k) (laws.flock_keeps f w1 path ∙ same)
          | inr (e, k) ↦
              rw (acquire_lock, o, k)
                (laws.close_keeps f (disk.flock f w1).1 path ∙ laws.flock_keeps f w1 path ∙ same)
        ]
      ]

  -- What New answers where it succeeds, and what it leaves alone.
  opened :
      (dir : Bytes) (w v : W) (s : Store F)
      → is_empty dir ≡ false
      → new_store disk dir w ≡ (ok s, v)
      → (es : List (Bytes × Bool)) × (disk.read_dir (join_all (dir ∷ jobs_dir ∷ [])) v ≡ ok es)
        × (s.dir ≡ dir)
        × (s.index ≡ load_each disk dir es v [])
        × ((id : Bytes) → IsPlain id → stored disk file dir v id ≡ stored disk file dir w id)
  unfolding new_store
  opened dir w v s h e =
      let root = join_all (dir ∷ jobs_dir ∷ []) in
      let w1 = (disk.mkdir_all root w).1 in
      let w2 = (acquire_lock disk dir w1).1 in
      elim (found (disk.mkdir_all root w).0) [
        | inr (x, m) ↦ absurd (ground (arith, m, e))
        | inl m ↦ elim (Result-cases (acquire_lock disk dir w1).0) [
          | inl (x, k) ↦ absurd (ground (arith, m, k, e))
          | inr (f, k) ↦ elim (Result-cases (disk.read_dir root w2)) [
            | inl (x, r) ↦ absurd (ground (arith, m, k, r, e))
            | inr (es, r) ↦
                let made : Store F = record {
                  dir = dir;
                  lock = f;
                  index = load_each disk dir es w2 [];
                } in
                let (store, world) : (made ≡ s) × (w2 ≡ v) =
                  ok_pair made s w2 v (rw (new_store, m, k, r) at e) in
                (
                  es,
                  rw (← world) r,
                  ap (λ (t : Store F). t.dir) (sym store),
                  ap (λ (t : Store F). t.index) (sym store)
                      ∙ ap (λ u. load_each disk dir es u []) world,
                  λ id p. stored-same disk file dir v w id (
                      ap (λ u. file u (file_of dir id job_file)) (sym world)
                      ∙ lock-keeps dir w1 id h p
                      ∙ laws.mkdir_keeps root w (file_of dir id job_file)),
                )
          ]
        ]
      ]

  new_store-IsFaithful :
      (dir : Bytes) (w v : W) (s : Store F)
      → is_empty dir ≡ false
      → IsNamed disk file dir w
      → new_store disk dir w ≡ (ok s, v)
      → ReadsJobs disk file dir v
      → IsFaithful disk file laws s v
  new_store-IsFaithful dir w v s h n e t =
      let (es, r, home, index, same) = opened dir w v s h e in
      let named : IsNamed disk file dir v = λ id j p k. n id j p (sym (same id p) ∙ k) in
      let plain = laws.dirs_plain _ v es r in
      let at : (id : Bytes) → find_job id s.index ≡ find_job id (load_each disk dir es v []) =
        λ id. ap (find_job id) index in
      record {
        rooted = rw home h;
        agrees = λ id p. rw home (
            at id
            ∙ loaded disk file dir id es v named t plain
                (λ j k. stored-listed disk file laws dir v es id j r h p k));
        plain = λ id j k. loaded-IsPlain disk file dir id es v j named t plain (sym (at id) ∙ k);
        named = rw home named;
      }

  -- What an opened store shows of its files.
  pub new_store-reads :
      (dir : Bytes) (w v : W) (s : Store F) (id : Bytes)
      → is_empty dir ≡ false
      → new_store disk dir w ≡ (ok s, v)
      → (s.dir ≡ dir) × (IsPlain id → stored disk file dir v id ≡ stored disk file dir w id)
  new_store-reads dir w v s id h e =
      let (es, r, home, index, same) = opened dir w v s h e in (home, same id)

  -- A run of the store: an opening of files in which each job.json holds a job with the id of its
  -- directory, and then any calls, with jobs that can be read back from what they are written as, each of
  -- which may fail at any step, with restarts of the process between them, after a Close or without.
  -- Where New succeeds each job.json was read. The files are those that the last process has left:
  -- a loss of what was written and not synced, as by a power failure, is no step here.
  pub data StoreLife : Store F → W → Type 0 where
    opens :
        (dir : Bytes) (w : W) {v : W} {s : Store F}
        → is_empty dir ≡ false
        → IsNamed disk file dir w
        → new_store disk dir w ≡ (ok s, v)
        → ReadsJobs disk file dir v
        → StoreLife s v
    creates :
        {s : Store F} {w : W} (job : Job)
        → StoreLife s w
        → ReadsBack disk file laws job
        → StoreLife (create_job disk job s w).1 (create_job disk job s w).2
    updates :
        {s : Store F} {w : W} (job : Job)
        → StoreLife s w
        → ReadsBack disk file laws job
        → StoreLife (update_job disk job s w).1 (update_job disk job s w).2
    appends : {s : Store F} {w : W} (e : Event) → StoreLife s w → StoreLife s (append disk e s w).1
    writes :
        {s : Store F} {w : W} (id name content : Bytes)
        → StoreLife s w
        → bytes_eq name job_file ≡ false
        → bytes_eq name dot ≡ false
        → StoreLife s (write_artifact disk id name content s w).1
    closes : {s : Store F} {w : W} → StoreLife s w → StoreLife s (close_store disk s w)
    restarts :
        {s t : Store F} {w v : W}
        → StoreLife s w
        → new_store disk s.dir w ≡ (ok t, v)
        → ReadsJobs disk file s.dir v
        → StoreLife t v

  -- Where each job.json was named after its job at the first opening, the jobs that are written can be
  -- read back, no artifact is called job.json or ".", and each New that succeeded could read each
  -- job.json: however calls of the store and restarts of the process follow each other, and whichever
  -- steps of Create, Update, Append and WriteArtifact fail, its index holds under each id that can
  -- name a directory just the job that job.json of this id holds, or none, and no other jobs.
  pub StoreLife-IsFaithful : {s : Store F} {w : W} → StoreLife s w → IsFaithful disk file laws s w
  unfolding close_store
  StoreLife-IsFaithful (opens dir w {v} {s} h n e t) = new_store-IsFaithful dir w v s h n e t
  StoreLife-IsFaithful (creates {s} {w} job r back) =
      create_job-IsFaithful disk file laws job s w (StoreLife-IsFaithful r) back
  StoreLife-IsFaithful (updates {s} {w} job r back) =
      update_job-IsFaithful disk file laws job s w (StoreLife-IsFaithful r) back
  StoreLife-IsFaithful (appends {s} {w} e r) =
      append-IsFaithful disk file laws e s w (StoreLife-IsFaithful r)
  StoreLife-IsFaithful (writes {s} {w} id name content r n d) =
      write_artifact-IsFaithful disk file laws id name content s w n d (StoreLife-IsFaithful r)
  StoreLife-IsFaithful (closes {s} {w} r) =
      same-IsFaithful disk file laws s _ w (λ id p. laws.close_keeps s.lock w _)
        (StoreLife-IsFaithful r)
  StoreLife-IsFaithful (restarts {s} {t} {w} {v} r e reads) =
      let i = StoreLife-IsFaithful r in new_store-IsFaithful s.dir w v t i.rooted i.named e reads
