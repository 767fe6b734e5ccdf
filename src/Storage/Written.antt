-- ===== src/Storage/Written.antt =====
-- About writeJob of internal/storage/filestore/filestore.go: whatever fails, the stored job is the old
-- one or the new one.
use rojo.Base.{
  Bytes, Bool, Bool-cases, true, false, [], ◌∷◌, ◌++◌, Option, none, some, ◌≡◌, ◌≢◌, refl, sym, ap,
  ◌∙◌, inl, inr, found, bytes, bytes_eq, bytes_eq_self, eq_of_bytes_eq, is_empty, contains_byte,
  if◌then◌else◌,
}
use rojo.Errors.{Error, wrap, ok, err}
use rojo.Jobs.Status.{Job}
use rojo.Storage.{Disk, job_dir, file_of, job_file, jobs_dir, fill_temp, write_job}
use rojo.Storage.Paths.{file_of-injective, job_file-IsPlain}
use rojo.Storage.Cleaned.{IsPlain}
use rojo.Storage.Disks.{IsDisk, stored, stored-same, stored-written, Result-cases}

-- What a place holds once a commit to the same or another place came to an error or none.
abbrev pub after {ℓ} : {A : Type ℓ} → Option Error → Bool → A → Option A → Option A
after none same b old = if same then some b else old
after (some e) same b old = old

apart_of : (q p : Bytes) → bytes_eq q p ≡ false → p ≢ q
apart_of q p e = λ x. let s : bytes_eq q p ≡ true = rw x (bytes_eq_self q) in cc

abbrev pub temp_prefix : Bytes
unfolding job_file bytes
temp_prefix = job_file ++ bytes ".tmp"

temp-IsPlain :
    (random : Bytes) → contains_byte b'/' random ≡ false → IsPlain (temp_prefix ++ random)
unfolding job_file bytes contains_byte bytes_eq
temp-IsPlain random n = record { full = refl; one = n; not_dot = refl; not_up = refl }

job_file-ne-temp : (random : Bytes) → job_file ≢ temp_prefix ++ random
unfolding job_file bytes
job_file-ne-temp random = λ e. cc

module _ {W F : Type 0} (disk : Disk W F) (file : W → Bytes → Option Bytes)
    (laws : IsDisk disk file) where
  fill_temp-after :
      (dir : Bytes) (job : Job) (b : Bytes) (tmp : F) (w : W) (p : Bytes)
      → file w (disk.name tmp) ≡ some []
      → p ≢ disk.name tmp
      → file (fill_temp disk dir job b tmp w).1 p
        ≡ after
            (fill_temp disk dir job b tmp w).0
            (bytes_eq (file_of dir job.id job_file) p)
            b
            (file w p)
  unfolding fill_temp
  fill_temp-after dir job b tmp w p h n =
      let q = file_of dir job.id job_file in
      let w1 = (disk.write tmp b w).1 in
      let w2 = (disk.sync tmp w1).1 in
      let w3 = (disk.close tmp w2).1 in
      let same1 = laws.write_keeps tmp b w p n in
      let same2 = laws.sync_keeps tmp w1 p ∙ same1 in
      let same3 = laws.close_keeps tmp w2 p ∙ same2 in
      elim (found (disk.write tmp b w).0) [
        | inr (e, m) ↦ rw (fill_temp, m) (laws.close_keeps tmp w1 p ∙ same1)
        | inl m ↦ elim (found (disk.sync tmp w1).0) [
          | inr (e, s) ↦ rw (fill_temp, m, s) same3
          | inl s ↦ elim (found (disk.close tmp w2).0) [
            | inr (e, c) ↦ rw (fill_temp, m, s, c) same3
            | inl c ↦ elim (found (disk.rename (disk.name tmp) q w3).0) [
              | inr (e, r) ↦
                  rw (fill_temp, m, s, c, r) (laws.rename_fails (disk.name tmp) q w3 e p r ∙ same3)
              | inl r ↦ elim (Bool-cases (bytes_eq q p)) [
                | inl e ↦
                    let moved : file (disk.rename (disk.name tmp) q w3).1 p ≡ some b =
                      rw (← eq_of_bytes_eq q p e) (
                        laws.rename_moves (disk.name tmp) q w3 r
                        ∙ laws.close_keeps tmp w2 (disk.name tmp)
                        ∙ laws.sync_keeps tmp w1 (disk.name tmp)
                        ∙ laws.write_adds tmp b w [] m h) in
                    rw (fill_temp, m, s, c, r, e) moved
                | inr e ↦
                    rw (fill_temp, m, s, c, r, e)
                      (laws.rename_keeps (disk.name tmp) q w3 p n (apart_of q p e) ∙ same3)
              ]
            ]
          ]
        ]
      ]

  -- The temporary file is no job.json.
  pub temp-apart :
      (dir id jd : Bytes) (w : W) (f : F)
      → is_empty dir ≡ false
      → IsPlain id
      → IsPlain jd
      → (disk.create_temp (job_dir dir jd) (temp_prefix ++ b'*' ∷ []) w).0 ≡ ok f
      → file_of dir id job_file ≢ disk.name f
  unfolding file_of job_dir
  temp-apart dir id jd w f h p q c = λ e.
      let (random, n, at) = laws.temp_name (dir ∷ jobs_dir ∷ jd ∷ []) temp_prefix w f c in
      let same : file_of dir id job_file ≡ file_of dir jd (temp_prefix ++ random) = e ∙ at in
      job_file-ne-temp random (
        (file_of-injective dir id job_file jd (temp_prefix ++ random) h p job_file-IsPlain q
          (temp-IsPlain random n) same).1)

  write_job-after :
      (dir : Bytes) (job : Job) (w : W) (id b : Bytes)
      → is_empty dir ≡ false
      → IsPlain job.id
      → IsPlain id
      → disk.encode_job job ≡ ok b
      → file (write_job disk dir job w).1 (file_of dir id job_file)
        ≡ after
            (write_job disk dir job w).0
            (bytes_eq (file_of dir job.id job_file) (file_of dir id job_file))
            b
            (file w (file_of dir id job_file))
  unfolding write_job job_file bytes
  write_job-after dir job w id b h p q enc =
      let path = file_of dir id job_file in
      let d = job_dir dir job.id in
      let w1 = (disk.mkdir_all d w).1 in
      let pattern = temp_prefix ++ b'*' ∷ [] in
      let w2 = (disk.create_temp d pattern w1).1 in
      let made = laws.mkdir_keeps d w path in
      elim (found (disk.mkdir_all d w).0) [
        | inr (e, m) ↦ rw (write_job, m) made
        | inl m ↦ elim (Result-cases (disk.create_temp d pattern w1).0) [
          | inl (e, c) ↦
              rw (write_job, m, enc, c)
                (laws.temp_keeps d pattern w1 path (λ f x. absurd (cc (c, x))) ∙ made)
          | inr (f, c) ↦
              let apart : path ≢ disk.name f = temp-apart dir id job.id w1 f h q p c in
              let same2 : file w2 path ≡ file w path =
                laws.temp_keeps d pattern w1 path
                  (λ g x. let e : f ≡ g = cc (c, x) in rw (← e) apart)
                ∙ made in
              let filled =
                fill_temp-after dir job b f w2 path (laws.temp_empty d pattern w1 f c) apart in
              rw (write_job, m, enc, c)
                (laws.remove_keeps (disk.name f) (fill_temp disk dir job b f w2).1 path apart
                  ∙ filled
                  ∙ ap (after (fill_temp disk dir job b f w2).0 _ b) same2)
        ]
      ]

  same_file :
      (dir i j : Bytes)
      → is_empty dir ≡ false
      → IsPlain i
      → IsPlain j
      → bytes_eq (file_of dir i job_file) (file_of dir j job_file) ≡ bytes_eq i j
  same_file dir i j h p q = elim (Bool-cases (bytes_eq i j)) [
    | inl e ↦
        rw (eq_of_bytes_eq i j e) (bytes_eq_self (file_of dir j job_file) ∙ sym (bytes_eq_self j))
    | inr e ↦ elim (Bool-cases (bytes_eq (file_of dir i job_file) (file_of dir j job_file))) [
      | inr f ↦ f ∙ sym e
      | inl f ↦
          let (at, _) =
            file_of-injective dir i job_file j job_file h p job_file-IsPlain q job_file-IsPlain
              (eq_of_bytes_eq _ _ f) in
          absurd (apart_of i j e (sym at))
    ]
  ]

  -- The job can be read back from what it is written as.
  abbrev pub ReadsBack : Job → Type 0
  ReadsBack job = (b : Bytes) → disk.encode_job job ≡ ok b → disk.decode_job b ≡ ok job

  unencoded :
      (dir : Bytes) (job : Job) (w : W) (id : Bytes) (e : Error)
      → disk.encode_job job ≡ err e
      → (x : Error) × ((write_job disk dir job w).0 ≡ some x)
        × (file (write_job disk dir job w).1 (file_of dir id job_file)
            ≡ file w (file_of dir id job_file))
  unfolding write_job bytes
  unencoded dir job w id e enc =
      let made = laws.mkdir_keeps (job_dir dir job.id) w (file_of dir id job_file) in
      elim (found (disk.mkdir_all (job_dir dir job.id) w).0) [
        | inr (x, m) ↦
            (wrap (bytes "create job dir: ") x [], rw (write_job, m) refl, rw (write_job, m) made)
        | inl m ↦ (
          wrap (bytes "encode job " ++ (job.id ++ bytes ": ")) e [],
          rw (write_job, m, enc) refl,
          rw (write_job, m, enc) made,
        )
      ]

  pub write_job-stored :
      (dir : Bytes) (job : Job) (w : W) (id : Bytes)
      → is_empty dir ≡ false
      → IsPlain job.id
      → IsPlain id
      → ReadsBack job
      → stored disk file dir (write_job disk dir job w).1 id
        ≡ after (write_job disk dir job w).0 (bytes_eq job.id id) job (stored disk file dir w id)
  write_job-stored dir job w id h p q back = elim (Result-cases (disk.encode_job job)) [
    | inl (e, enc) ↦
        let (x, failed, same) = unencoded dir job w id e enc in
        rw failed (stored-same disk file dir _ w id same)
    | inr (b, enc) ↦
        let at : file (write_job disk dir job w).1 (file_of dir id job_file)
            ≡ after (write_job disk dir job w).0 (bytes_eq job.id id) b
                (file w (file_of dir id job_file)) =
          rw (← same_file dir job.id id h p q) (write_job-after dir job w id b h p q enc) in
        elim (found (write_job disk dir job w).0) [
          | inr (x, e) ↦ rw e (stored-same disk file dir _ w id (rw e at at))
          | inl e ↦ elim (Bool-cases (bytes_eq job.id id)) [
            | inl f ↦
                rw (e, f) (stored-written disk file dir _ job b id (rw (e, f) at at) (back b enc))
            | inr f ↦ rw (e, f) (stored-same disk file dir _ w id (rw (e, f) at at))
          ]
        ]
  ]
