-- ===== src/Storage/Synced.antt =====
-- About the sync of writeJob of internal/storage/filestore/filestore.go, which comes before the rename.
use rojo.Base.{
  Bytes, Bool-cases, false, [], ◌∷◌, ◌++◌, Option, none, some, ◌≡◌, inl, inr, found, bytes,
  is_empty, is_some,
}
use rojo.Jobs.Status.{Job}
use rojo.Jobs.Repository.{find_job}
use rojo.Storage.{Disk, Store, job_dir, file_of, job_file, fill_temp, write_job, valid_job_id}
use rojo.Storage.Methods.{create_job, update_job}
use rojo.Storage.Cleaned.{IsPlain}
use rojo.Storage.Disks.{IsDisk, IsSynced, Result-cases}
use rojo.Storage.Written.{temp_prefix, temp-apart}
use rojo.Storage.Durable.{IsFaithful}
use rojo.Storage.Steps.{valid-IsPlain}

module _ {W F : Type 0} (disk : Disk W F) (settled : W → Bytes → Type 0)
    (synced : IsSynced disk settled) where
  fill_temp-Settled :
      (dir : Bytes) (job : Job) (b : Bytes) (tmp : F) (w : W)
      → (fill_temp disk dir job b tmp w).0 ≡ none
      → settled (fill_temp disk dir job b tmp w).1 (file_of dir job.id job_file)
  unfolding fill_temp
  fill_temp-Settled dir job b tmp w h =
      let q = file_of dir job.id job_file in
      let w1 = (disk.write tmp b w).1 in
      let w2 = (disk.sync tmp w1).1 in
      let w3 = (disk.close tmp w2).1 in
      elim (found (disk.write tmp b w).0) [
        | inr (e, m) ↦ absurd (let c : some _ ≡ none = rw (fill_temp, m) at h in cc)
        | inl m ↦ elim (found (disk.sync tmp w1).0) [
          | inr (e, s) ↦ absurd (let c : some _ ≡ none = rw (fill_temp, m, s) at h in cc)
          | inl s ↦ elim (found (disk.close tmp w2).0) [
            | inr (e, c) ↦ absurd (let c' : some _ ≡ none = rw (fill_temp, m, s, c) at h in cc)
            | inl c ↦ elim (found (disk.rename (disk.name tmp) q w3).0) [
              | inr (e, r) ↦ absurd (let c' : some _ ≡ none = rw (fill_temp, m, s, c, r) at h in cc)
              | inl r ↦
                  rw (fill_temp, m, s, c)
                    (synced.rename_settled (disk.name tmp) q w3 r
                      (synced.close_settled tmp w2 (disk.name tmp) (synced.sync_settles tmp w1 s)))
            ]
          ]
        ]
      ]

  module _ (file : W → Bytes → Option Bytes) (laws : IsDisk disk file) where
    write_job-Settled :
        (dir : Bytes) (job : Job) (w : W)
        → is_empty dir ≡ false
        → IsPlain job.id
        → (write_job disk dir job w).0 ≡ none
        → settled (write_job disk dir job w).1 (file_of dir job.id job_file)
    unfolding write_job job_file bytes
    write_job-Settled dir job w h p e =
        let w1 = (disk.mkdir_all (job_dir dir job.id) w).1 in
        let pattern = temp_prefix ++ b'*' ∷ [] in
        let w2 = (disk.create_temp (job_dir dir job.id) pattern w1).1 in
        elim (found (disk.mkdir_all (job_dir dir job.id) w).0) [
          | inr (x, m) ↦ absurd (let c : some _ ≡ none = rw (write_job, m) at e in cc)
          | inl m ↦ elim (Result-cases (disk.encode_job job)) [
            | inl (x, enc) ↦ absurd (let c : some _ ≡ none = rw (write_job, m, enc) at e in cc)
            | inr (b, enc) ↦
                elim (Result-cases (disk.create_temp (job_dir dir job.id) pattern w1).0) [
                  | inl (x, c) ↦
                      absurd (let c' : some _ ≡ none = rw (write_job, m, enc, c) at e in cc)
                  | inr (f, c) ↦
                      let done : (fill_temp disk dir job b f w2).0 ≡ none =
                        rw (write_job, m, enc, c) at e in
                      rw (write_job, m, enc, c)
                        (synced.remove_settled (disk.name f) (fill_temp disk dir job b f w2).1 _
                          (temp-apart disk file laws dir job.id job.id w1 f h p p c)
                          (fill_temp-Settled dir job b f w2 done))
                ]
          ]
        ]

    -- Where Create or Update succeeds, the content of the job.json has reached the medium.
    pub create_job-Settled :
        (job : Job) (s : Store F) (w : W)
        → IsFaithful disk file laws s w
        → (create_job disk job s w).0 ≡ none
        → settled (create_job disk job s w).2 (file_of s.dir job.id job_file)
    unfolding create_job
    create_job-Settled job s w i h = elim (Bool-cases (valid_job_id job.id)) [
      | inr v ↦ absurd (let c : some _ ≡ none = rw (create_job, v) at h in cc)
      | inl v ↦ elim (Bool-cases (is_some (find_job job.id s.index))) [
        | inl e ↦ absurd (let c : some _ ≡ none = rw (create_job, v, e) at h in cc)
        | inr e ↦ elim (found (write_job disk s.dir job w).0) [
          | inr (x, m) ↦ absurd (let c : some _ ≡ none = rw (create_job, v, e, m) at h in cc)
          | inl m ↦
              rw (create_job, v, e, m)
                (write_job-Settled s.dir job w i.rooted (valid-IsPlain job.id v) m)
        ]
      ]
    ]

    pub update_job-Settled :
        (job : Job) (s : Store F) (w : W)
        → IsFaithful disk file laws s w
        → (update_job disk job s w).0 ≡ none
        → settled (update_job disk job s w).2 (file_of s.dir job.id job_file)
    unfolding update_job
    update_job-Settled job s w i h = elim (found (find_job job.id s.index)) [
      | inl e ↦ absurd (let c : some _ ≡ none = rw (update_job, e) at h in cc)
      | inr (k, e) ↦ elim (found (write_job disk s.dir job w).0) [
        | inr (x, m) ↦ absurd (let c : some _ ≡ none = rw (update_job, e, m) at h in cc)
        | inl m ↦
            rw (update_job, e, m) (write_job-Settled s.dir job w i.rooted (i.plain job.id k e) m)
      ]
    ]
