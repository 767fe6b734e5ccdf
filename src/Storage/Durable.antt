-- ===== src/Storage/Durable.antt =====
-- About the index of internal/storage/filestore/filestore.go: it is what the files say, in every run.
use rojo.Base.{
  Bytes, Bool-cases, false, Option, none, some, ◌≡◌, sym, ap, ◌∙◌, inl, inr, bytes_eq,
  eq_of_bytes_eq, is_empty, if◌then◌else◌,
}
use rojo.Errors.{Error}
use rojo.Jobs.Status.{Job}
use rojo.Jobs.Repository.{find_job}
use rojo.Storage.{Disk, Store, file_of, job_file, put_job, write_job}
use rojo.Storage.Cleaned.{IsPlain}
use rojo.Storage.Disks.{IsDisk, stored, stored-same}
use rojo.Storage.Written.{ReadsBack, write_job-stored}
use rojo.Storage.Loads.{IsNamed, find-put}

module _ {W F : Type 0} (disk : Disk W F) (file : W → Bytes → Option Bytes)
    (laws : IsDisk disk file) where
  -- The index is what the files say, and each file is where its job belongs.
  pub record IsFaithful (s : Store F) (w : W) : Type 0 where
    pub rooted : is_empty s.dir ≡ false
    pub agrees : (id : Bytes) → IsPlain id → find_job id s.index ≡ stored disk file s.dir w id
    pub plain : (id : Bytes) (j : Job) → find_job id s.index ≡ some j → IsPlain id
    pub named : IsNamed disk file s.dir w

  -- A step that leaves every job.json alone.
  pub same-IsFaithful :
      (s : Store F) (v w : W)
      → ((id : Bytes)
          → IsPlain id
          → file v (file_of s.dir id job_file) ≡ file w (file_of s.dir id job_file))
      → IsFaithful s w
      → IsFaithful s v
  same-IsFaithful s v w h i =
      let at : (id : Bytes)
          → IsPlain id
          → stored disk file s.dir v id ≡ stored disk file s.dir w id =
        λ id p. stored-same disk file s.dir v w id (h id p) in
      record {
        rooted = i.rooted;
        agrees = λ id p. i.agrees id p ∙ sym (at id p);
        plain = i.plain;
        named = λ id j p e. i.named id j p (sym (at id p) ∙ e);
      }

  module _ (s : Store F) (w : W) (job : Job) (i : IsFaithful s w) (p : IsPlain job.id)
      (back : ReadsBack disk file laws job) where
    pub put-IsFaithful :
        (write_job disk s.dir job w).0 ≡ none
        → IsFaithful (record s { index = put_job job s.index }) (write_job disk s.dir job w).1
    put-IsFaithful e =
        let at : (id : Bytes)
            → IsPlain id
            → stored disk file s.dir (write_job disk s.dir job w).1 id
              ≡ (if bytes_eq job.id id then some job else stored disk file s.dir w id) =
          λ id q. rw e at (write_job-stored disk file laws s.dir job w id i.rooted p q back) in
        record {
          rooted = i.rooted;
          agrees = λ id q.
              find-put job s.index id
              ∙ ap (λ o. if bytes_eq job.id id then some job else o) (i.agrees id q)
              ∙ sym (at id q);
          plain = λ id j h. elim (Bool-cases (bytes_eq job.id id)) [
            | inl f ↦ rw (← eq_of_bytes_eq job.id id f) p
            | inr f ↦ i.plain id j (rw (find-put job s.index id, f) at h)
          ];
          named = λ id j q h. elim (Bool-cases (bytes_eq job.id id)) [
            | inl f ↦
                let k : some job ≡ some j = rw (at id q, f) at h in
                let same : job ≡ j = cc in
                ap (λ (x : Job). x.id) (sym same) ∙ eq_of_bytes_eq job.id id f
            | inr f ↦ i.named id j q (rw (at id q, f) at h)
          ];
        }

    pub failed-IsFaithful :
        (x : Error)
        → (write_job disk s.dir job w).0 ≡ some x
        → IsFaithful s (write_job disk s.dir job w).1
    failed-IsFaithful x e =
        let at : (id : Bytes)
            → IsPlain id
            → stored disk file s.dir (write_job disk s.dir job w).1 id
              ≡ stored disk file s.dir w id =
          λ id q. rw e at (write_job-stored disk file laws s.dir job w id i.rooted p q back) in
        record {
          rooted = i.rooted;
          agrees = λ id q. i.agrees id q ∙ sym (at id q);
          plain = i.plain;
          named = λ id j q h. i.named id j q (sym (at id q) ∙ h);
        }
