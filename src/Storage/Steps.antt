-- ===== src/Storage/Steps.antt =====
-- About the index of internal/storage/filestore/filestore.go: each method keeps it what the files say.
use rojo.Base.{
  Bytes, Bool, Bool-cases, true, false, ◌||◌, [], ◌∷◌, ◌++◌, Option, ◌≡◌, ◌≢◌, refl, sym, ◌∙◌, inl,
  inr, arith, found, bytes, bytes_eq, bytes_eq_self, eq_of_bytes_eq, is_empty, is_some,
  contains_byte, contains, dot, dot_dot, has_prefix,
}
use rojo.Jobs.Status.{Job}
use rojo.Jobs.Repository.{find_job}
use rojo.Orchestration.Env.{Event}
use rojo.Storage.{
  Disk, Store, job_dir, file_of, job_file, write_job, valid_job_id, bad_name, events_file,
}
use rojo.Storage.Methods.{create_job, update_job, append, append_to, write_artifact}
use rojo.Storage.Paths.{events_file-IsPlain, file_of-injective, job_file-IsPlain}
use rojo.Storage.Cleaned.{IsPlain}
use rojo.Storage.Disks.{IsDisk, Result-cases}
use rojo.Storage.Written.{ReadsBack}
use rojo.Storage.Durable.{IsFaithful, same-IsFaithful, put-IsFaithful, failed-IsFaithful}

pub valid-IsPlain : (id : Bytes) → valid_job_id id ≡ true → IsPlain id
unfolding valid_job_id contains_byte bytes_eq
valid-IsPlain [] h = cc
valid-IsPlain (b ∷ id) h = record {
  full = refl;
  one = ground arith;
  not_dot = ground arith;
  not_up = ground arith;
}

no_part :
    (a b c d : Bool) → (a || ((b || c) || d)) ≡ false → (a ≡ false) × (b ≡ false) × (d ≡ false)
no_part a b c d h = ground arith

up-is-bad : contains dot_dot (bytes "..") ≡ true
unfolding contains has_prefix bytes
up-is-bad = refl

name-IsPlain : (name : Bytes) → bad_name name ≡ false → bytes_eq name dot ≡ false → IsPlain name
unfolding bad_name
name-IsPlain name h n =
    let (a, b, d) =
      no_part (is_empty name) (contains_byte b'/' name) (contains_byte b'\\' name) _ h in
    record {
      full = a;
      one = b;
      not_dot = n;
      not_up = elim (Bool-cases (bytes_eq name dot_dot)) [
        | inr e ↦ e
        | inl e ↦
            let c : contains name (bytes "..") ≡ true =
              rw (eq_of_bytes_eq name dot_dot e) up-is-bad in
            absurd (let x : true ≡ false = sym c ∙ d in cc)
      ];
    }

events-apart : bytes_eq events_file job_file ≡ false
unfolding events_file job_file bytes bytes_eq
events-apart = refl

module _ {W F : Type 0} (disk : Disk W F) (file : W → Bytes → Option Bytes)
    (laws : IsDisk disk file) where
  pub create_job-IsFaithful :
      (job : Job) (s : Store F) (w : W)
      → IsFaithful disk file laws s w
      → ReadsBack disk file laws job
      → IsFaithful disk file laws (create_job disk job s w).1 (create_job disk job s w).2
  unfolding create_job
  create_job-IsFaithful job s w i back = elim (Bool-cases (valid_job_id job.id)) [
    | inr v ↦ rw (create_job, v) i
    | inl v ↦ elim (Bool-cases (is_some (find_job job.id s.index))) [
      | inl e ↦ rw (create_job, v, e) i
      | inr e ↦
          let p = valid-IsPlain job.id v in
          elim (found (write_job disk s.dir job w).0) [
            | inl m ↦ rw (create_job, v, e, m) (put-IsFaithful disk file laws s w job i p back m)
            | inr (x, m) ↦
                rw (create_job, v, e, m) (failed-IsFaithful disk file laws s w job i p back x m)
          ]
    ]
  ]

  pub update_job-IsFaithful :
      (job : Job) (s : Store F) (w : W)
      → IsFaithful disk file laws s w
      → ReadsBack disk file laws job
      → IsFaithful disk file laws (update_job disk job s w).1 (update_job disk job s w).2
  unfolding update_job
  update_job-IsFaithful job s w i back = elim (found (find_job job.id s.index)) [
    | inl e ↦ rw (update_job, e) i
    | inr (k, e) ↦
        let p = i.plain job.id k e in
        elim (found (write_job disk s.dir job w).0) [
          | inl m ↦ rw (update_job, e, m) (put-IsFaithful disk file laws s w job i p back m)
          | inr (x, m) ↦
              rw (update_job, e, m) (failed-IsFaithful disk file laws s w job i p back x m)
        ]
  ]

  -- Another file of a job, or of another, is no job.json.
  apart_name :
      (dir i j n : Bytes)
      → is_empty dir ≡ false
      → IsPlain i
      → IsPlain j
      → IsPlain n
      → bytes_eq n job_file ≡ false
      → file_of dir i job_file ≢ file_of dir j n
  apart_name dir i j n h p q r e = λ x.
      let (_, same) = file_of-injective dir i job_file j n h p job_file-IsPlain q r x in
      let c : bytes_eq n job_file ≡ true = rw same (bytes_eq_self n) in cc

  pub write_artifact-IsFaithful :
      (id name content : Bytes) (s : Store F) (w : W)
      → bytes_eq name job_file ≡ false
      → bytes_eq name dot ≡ false
      → IsFaithful disk file laws s w
      → IsFaithful disk file laws s (write_artifact disk id name content s w).1
  unfolding write_artifact
  write_artifact-IsFaithful id name content s w n d i = elim (Bool-cases (valid_job_id id)) [
    | inr v ↦ rw (write_artifact, v) i
    | inl v ↦ elim (Bool-cases (bad_name name)) [
      | inl b ↦ rw (write_artifact, v, b) i
      | inr b ↦
          let w1 = (disk.mkdir_all (job_dir s.dir id) w).1 in
          let made =
            same-IsFaithful disk file laws s w1 w (λ j q. laws.mkdir_keeps (job_dir s.dir id) w _)
              i in
          elim (found (disk.mkdir_all (job_dir s.dir id) w).0) [
            | inr (x, m) ↦ rw (write_artifact, v, b, m) made
            | inl m ↦
                rw (write_artifact, v, b, m)
                  (same-IsFaithful disk file laws s _ w1
                    (λ j q. laws.write_file_keeps (file_of s.dir id name) content w1 _ (
                      apart_name s.dir j id name i.rooted q (valid-IsPlain id v)
                        (name-IsPlain name b d) n))
                    made)
          ]
    ]
  ]

  append_to-IsFaithful :
      (s : Store F) (f : F) (line : Bytes) (w : W)
      → ((id : Bytes) → IsPlain id → file_of s.dir id job_file ≢ disk.name f)
      → IsFaithful disk file laws s w
      → IsFaithful disk file laws s (append_to disk f line w).1
  unfolding append_to
  append_to-IsFaithful s f line w n i =
      same-IsFaithful disk file laws s _ w
        (λ id p.
          laws.close_keeps f (disk.write f (line ++ 10 ∷ []) w).1 _
          ∙ laws.write_keeps f (line ++ 10 ∷ []) w _ (n id p))
        i

  pub append-IsFaithful :
      (e : Event) (s : Store F) (w : W)
      → IsFaithful disk file laws s w
      → IsFaithful disk file laws s (append disk e s w).1
  unfolding append
  append-IsFaithful e s w i = elim (Bool-cases (valid_job_id e.job_id)) [
    | inr v ↦ rw (append, v) i
    | inl v ↦
        let log = file_of s.dir e.job_id events_file in
        let w1 = (disk.mkdir_all (job_dir s.dir e.job_id) w).1 in
        let apart : (j : Bytes) → IsPlain j → file_of s.dir j job_file ≢ log = λ j q.
          apart_name s.dir j e.job_id events_file i.rooted q (valid-IsPlain e.job_id v)
            events_file-IsPlain events-apart in
        let made =
          same-IsFaithful disk file laws s w1 w
            (λ j q. laws.mkdir_keeps (job_dir s.dir e.job_id) w _) i in
        let open' =
          same-IsFaithful disk file laws s (disk.open_append log w1).1 w1
            (λ j q. laws.append_keeps log w1 _ (apart j q)) made in
        elim (found (disk.mkdir_all (job_dir s.dir e.job_id) w).0) [
          | inr (x, m) ↦ rw (append, v, m) made
          | inl m ↦ elim (Result-cases (disk.encode_event e)) [
            | inl (x, c) ↦ rw (append, v, m, c) made
            | inr (line, c) ↦ elim (Result-cases (disk.open_append log w1).0) [
              | inl (x, o) ↦ rw (append, v, m, c, o) open'
              | inr (f, o) ↦
                  rw (append, v, m, c, o)
                    (append_to-IsFaithful s f line (disk.open_append log w1).1
                      (λ j q. rw ((laws.append_opens log w1 f o).0) (apart j q)) open')
            ]
          ]
        ]
  ]
