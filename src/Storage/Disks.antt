-- ===== src/Storage/Disks.antt =====
-- What internal/storage/filestore/filestore.go relies on of its file system, and what it then reads.
use rojo.Base.{
  Bytes, bytes, Bool, true, false, ◌&&◌, ◌⊎◌, List, [], ◌∷◌, ◌++◌, Option, none, some, ◌≡◌, ◌≢◌,
  refl, ap, inl, inr, found, bytes_eq, is_empty, contains_byte, if◌then◌else◌,
}
use rojo.Errors.{Error, wrap, error_is, not_exist, Result, ok, err}
use rojo.Jobs.Status.{Job}
use rojo.Storage.{Disk, join_all, file_of, job_file, jobs_dir, read_job}
use rojo.Storage.Paths.{job_file-IsPlain}
use rojo.Storage.Cleaned.{IsPlain}

-- An entry of a directory is a directory of this name.
abbrev pub has_dir : Bytes → List (Bytes × Bool) → Bool
has_dir id [] = false
has_dir id ((name, is_dir) ∷ es) = if is_dir && bytes_eq name id then true else has_dir id es

abbrev pub AllPlain : List (Bytes × Bool) → Type 0
AllPlain [] = Unit
AllPlain ((name, is_dir) ∷ es) = IsPlain name × AllPlain es

-- `file w p` is the content of the regular file at the cleaned path `p`, if there is one; no two such
-- paths name one file. These are the laws of what each operation does to the files, where it succeeds
-- and where it fails. Nothing here says that an operation succeeds, a read neither.
pub record IsDisk {W F : Type 0} (disk : Disk W F) (file : W → Bytes → Option Bytes) : Type 0 where
  pub mkdir_keeps : (d : Bytes) (w : W) (p : Bytes) → file (disk.mkdir_all d w).1 p ≡ file w p
  pub temp_keeps :
      (d pattern : Bytes) (w : W) (p : Bytes)
      → ((f : F) → (disk.create_temp d pattern w).0 ≡ ok f → p ≢ disk.name f)
      → file (disk.create_temp d pattern w).1 p ≡ file w p
  pub temp_empty :
      (d pattern : Bytes) (w : W) (f : F)
      → (disk.create_temp d pattern w).0 ≡ ok f
      → file (disk.create_temp d pattern w).1 (disk.name f) ≡ some []
  -- The last "*" of a pattern becomes a random text.
  pub temp_name :
      (parts : List Bytes) (before : Bytes) (w : W) (f : F)
      → (disk.create_temp (join_all parts) (before ++ b'*' ∷ []) w).0 ≡ ok f
      → (random : Bytes) × (contains_byte b'/' random ≡ false)
        × (disk.name f ≡ join_all (join_all parts ∷ (before ++ random) ∷ []))
  pub write_keeps :
      (f : F) (b : Bytes) (w : W) (p : Bytes)
      → p ≢ disk.name f
      → file (disk.write f b w).1 p ≡ file w p
  pub write_adds :
      (f : F) (b : Bytes) (w : W) (c : Bytes)
      → (disk.write f b w).0 ≡ none
      → file w (disk.name f) ≡ some c
      → file (disk.write f b w).1 (disk.name f) ≡ some (c ++ b)
  pub sync_keeps : (f : F) (w : W) (p : Bytes) → file (disk.sync f w).1 p ≡ file w p
  pub close_keeps : (f : F) (w : W) (p : Bytes) → file (disk.close f w).1 p ≡ file w p
  pub flock_keeps : (f : F) (w : W) (p : Bytes) → file (disk.flock f w).1 p ≡ file w p
  pub rename_moves :
      (from to : Bytes) (w : W)
      → (disk.rename from to w).0 ≡ none
      → file (disk.rename from to w).1 to ≡ file w from
  pub rename_keeps :
      (from to : Bytes) (w : W) (p : Bytes)
      → p ≢ from
      → p ≢ to
      → file (disk.rename from to w).1 p ≡ file w p
  pub rename_fails :
      (from to : Bytes) (w : W) (e : Error) (p : Bytes)
      → (disk.rename from to w).0 ≡ some e
      → file (disk.rename from to w).1 p ≡ file w p
  pub remove_keeps : (q : Bytes) (w : W) (p : Bytes) → p ≢ q → file (disk.remove q w) p ≡ file w p
  pub write_file_keeps :
      (q b : Bytes) (w : W) (p : Bytes) → p ≢ q → file (disk.write_file q b w).1 p ≡ file w p
  pub append_keeps :
      (q : Bytes) (w : W) (p : Bytes) → p ≢ q → file (disk.open_append q w).1 p ≡ file w p
  pub append_opens :
      (q : Bytes) (w : W) (f : F)
      → (disk.open_append q w).0 ≡ ok f
      → (disk.name f ≡ q)
        × (file (disk.open_append q w).1 q ≡ some (elim (file w q) [ none ↦ [] | some b ↦ b ]))
  pub lock_keeps :
      (q : Bytes) (w : W) (p : Bytes) → p ≢ q → file (disk.open_lock q w).1 p ≡ file w p
  pub dirs_plain :
      (d : Bytes) (w : W) (es : List (Bytes × Bool)) → disk.read_dir d w ≡ ok es → AllPlain es
  pub dirs_listed :
      (dir : Bytes) (w : W) (es : List (Bytes × Bool)) (id name b : Bytes)
      → disk.read_dir (join_all (dir ∷ jobs_dir ∷ [])) w ≡ ok es
      → is_empty dir ≡ false
      → IsPlain id
      → IsPlain name
      → file w (file_of dir id name) ≡ some b
      → has_dir id es ≡ true

pub Result-cases :
    {A : Type 0} (r : Result A) → ((e : Error) × (r ≡ err e)) ⊎ ((a : A) × (r ≡ ok a))
Result-cases (ok a) = inr (a, refl)
Result-cases (err e) = inl (e, refl)

-- What fsync promises: `settled w p` says that the content of the file at `p` has reached the medium, so
-- that a crash of the machine cannot tear it. The content goes with its file where that is renamed.
pub record IsSynced {W F : Type 0} (disk : Disk W F) (settled : W → Bytes → Type 0) : Type 0 where
  pub sync_settles :
      (f : F) (w : W) → (disk.sync f w).0 ≡ none → settled (disk.sync f w).1 (disk.name f)
  pub close_settled : (f : F) (w : W) (p : Bytes) → settled w p → settled (disk.close f w).1 p
  pub rename_settled :
      (from to : Bytes) (w : W)
      → (disk.rename from to w).0 ≡ none
      → settled w from
      → settled (disk.rename from to w).1 to
  pub remove_settled :
      (q : Bytes) (w : W) (p : Bytes) → p ≢ q → settled w p → settled (disk.remove q w) p

module _ {W F : Type 0} (disk : Disk W F) (file : W → Bytes → Option Bytes) where
  -- ReadFile answers what is there, and where nothing is there that it does not exist.
  abbrev pub Readable : W → Bytes → Type 0
  Readable w p =
      ((b : Bytes) → file w p ≡ some b → disk.read_file p w ≡ ok b)
      × (file w p ≡ none
          → (e : Error) × (disk.read_file p w ≡ err e) × (error_is not_exist e ≡ true))

  -- Each job.json can be read.
  abbrev pub ReadsJobs : Bytes → W → Type 0
  ReadsJobs dir w = (id : Bytes) → IsPlain id → Readable w (file_of dir id job_file)

  abbrev pub decoded : Option Bytes → Option Job
  decoded none = none
  decoded (some b) = elim (disk.decode_job b) [ err e ↦ none | ok j ↦ some j ]

  -- The job that job.json of a directory holds, whether it can be read or not.
  unfoldable pub stored : Bytes → W → Bytes → Option Job
  stored dir w id = decoded (file w (file_of dir id job_file))

  -- What readJob makes of a file that can be read.
  pub read_job-stored :
      (dir : Bytes) (w : W) (id : Bytes)
      → Readable w (file_of dir id job_file)
      → ((e : Error) × (read_job disk dir id w ≡ err e) × (stored dir w id ≡ none))
        ⊎ ((j : Job) × (read_job disk dir id w ≡ ok j) × (stored dir w id ≡ some j))
  unfolding stored read_job bytes
  read_job-stored dir w id (reads, absent) = elim (found (file w (file_of dir id job_file))) [
    | inl e ↦ let (x, r, _) = absent e in inl (x, rw (read_job, r) refl, rw (stored, e) refl)
    | inr (b, e) ↦
        let r = reads b e in
        elim (Result-cases (disk.decode_job b)) [
          | inl (x, d) ↦ inl (
            wrap (bytes "parse job " ++ (id ++ bytes ": ")) x [],
            rw (read_job, r, d) refl,
            rw (stored, e, decoded, d) refl,
          )
          | inr (j, d) ↦ inr (j, rw (read_job, r, d) refl, rw (stored, e, decoded, d) refl)
        ]
  ]

  -- What is stored depends on the one file.
  pub stored-same :
      (dir : Bytes) (v w : W) (id : Bytes)
      → file v (file_of dir id job_file) ≡ file w (file_of dir id job_file)
      → stored dir v id ≡ stored dir w id
  unfolding stored
  stored-same dir v w id h = ap decoded h

  pub stored-written :
      (dir : Bytes) (w : W) (job : Job) (b : Bytes) (id : Bytes)
      → file w (file_of dir id job_file) ≡ some b
      → disk.decode_job b ≡ ok job
      → stored dir w id ≡ some job
  unfolding stored
  stored-written dir w job b id h d = rw (stored, h, decoded, d) refl

  -- A stored job has its directory in the list.
  pub stored-listed :
      IsDisk disk file
      → (dir : Bytes) (w : W) (es : List (Bytes × Bool)) (id : Bytes) (j : Job)
      → disk.read_dir (join_all (dir ∷ jobs_dir ∷ [])) w ≡ ok es
      → is_empty dir ≡ false
      → IsPlain id
      → stored dir w id ≡ some j
      → has_dir id es ≡ true
  unfolding stored
  stored-listed laws dir w es id j r n p h = elim (found (file w (file_of dir id job_file))) [
    | inl e ↦ absurd (let c : none ≡ some j = rw (stored, e) at h in cc)
    | inr (b, e) ↦ laws.dirs_listed dir w es id job_file b r n p job_file-IsPlain e
  ]
