-- ===== src/Storage.antt =====
-- internal/storage/filestore/filestore.go and lock_unix.go: jobs, their events and their artifacts as
-- files. The lock of the store makes each of its operations one step.
pub mod Cleaned
pub mod Methods
pub mod Disks
pub mod Durable
pub mod Loads
pub mod Written
pub mod Synced
pub mod Restart
pub mod Log
pub mod Runs
pub mod Steps
pub mod Paths
use rojo.Base.{
  ℕ, ◌+◌, Bytes, Bool, true, false, not, ◌&&◌, ◌||◌, List, [], ◌∷◌, ◌++◌, Option, none, some, bytes,
  bytes_eq, is_empty, contains_byte, contains, length, ltb, clean, join_with, keep, split,
  trim_space, is_some, if◌then◌else◌,
}
use rojo.Errors.{
  Error, sentinel, plain, wrap, error_is, not_exist, job_not_found, job_already_exists, Result, ok,
  err,
}
use rojo.Jobs.Status.{Job}
use rojo.Jobs.Repository.{Repository, find_job, replace_job, get, list_jobs}
use rojo.Orchestration.Env.{Event}

-- filepath.Join
unfoldable pub join_all : List Bytes → Bytes
unfolding clean join_with
join_all parts =
    let full = keep (λ p. not (is_empty p)) parts in
    elim full [ [] ↦ [] | p ∷ ps ↦ clean (join_with (b'/' ∷ []) (p ∷ ps)) ]

unfoldable pub jobs_dir : Bytes
unfolding bytes
jobs_dir = bytes "jobs"

unfoldable pub job_file : Bytes
unfolding bytes
job_file = bytes "job.json"

unfoldable pub events_file : Bytes
unfolding bytes
events_file = bytes "events.jsonl"

-- The text of ErrInvalidJobID, which no caller tests for.
unfoldable pub invalid_job_id : Error
unfolding bytes
invalid_job_id = plain (bytes "invalid job id")

unfoldable pub valid_job_id : Bytes → Bool
unfolding contains_byte
valid_job_id id =
    if is_empty id || ltb 128 (length id)
    then false
    else not (contains_byte b'/' id || (contains_byte b'\\' id || contains_byte b'.' id))
      && not (contains_byte 0 id)

-- The test on the name of an artifact.
unfoldable pub bad_name : Bytes → Bool
unfolding contains_byte contains bytes
bad_name name =
    is_empty name
    || ((contains_byte b'/' name || contains_byte b'\\' name) || contains name (bytes ".."))

unfoldable pub job_dir : Bytes → Bytes → Bytes
unfolding join_all jobs_dir
job_dir dir id = join_all (dir ∷ jobs_dir ∷ id ∷ [])

unfoldable pub file_of : Bytes → Bytes → Bytes → Bytes
unfolding join_all job_dir
file_of dir id name = join_all (job_dir dir id ∷ name ∷ [])

-- What the store calls of the package os, of syscall.Flock, of encoding/json and of strconv.Quote,
-- with the open files `F`. A read changes nothing.
pub record Disk (W F : Type 0) : Type 0 where
  pub mkdir_all : Bytes → W → Option Error × W
  pub read_dir : Bytes → W → Result (List (Bytes × Bool))
  pub read_file : Bytes → W → Result Bytes
  pub write_file : Bytes → Bytes → W → Option Error × W
  pub create_temp : Bytes → Bytes → W → Result F × W
  pub open_append : Bytes → W → Result F × W
  pub open_lock : Bytes → W → Result F × W
  pub name : F → Bytes
  pub write : F → Bytes → W → Option Error × W
  pub sync : F → W → Option Error × W
  pub close : F → W → Option Error × W
  pub flock : F → W → Option Error × W
  pub rename : Bytes → Bytes → W → Option Error × W
  pub remove : Bytes → W → W
  pub encode_job : Job → Result Bytes
  pub decode_job : Bytes → Result Job
  pub encode_event : Event → Result Bytes
  pub decode_event : Bytes → Result Event
  pub quote : Bytes → Bytes

-- Store: the file of the lock that Close gives back, and the index.
pub record Store (F : Type 0) : Type 0 where
  pub dir : Bytes
  pub lock : F
  pub index : Repository

-- Assignment to a key, stored under the id of the job.
unfoldable pub put_job : Job → Repository → Repository
unfolding find_job
put_job j r = if is_some (find_job j.id r) then replace_job j r else j ∷ r

-- An error, or none, with a text before it.
abbrev pub prefixed : Bytes → Option Error → Option Error
prefixed before none = none
prefixed before (some e) = some (wrap before e [])

unfoldable pub refused_id : Bytes → Error
unfolding invalid_job_id bytes
refused_id quoted = wrap [] invalid_job_id (bytes ": " ++ quoted)

module _ {W F : Type 0} (disk : Disk W F) where
  unfoldable pub acquire_lock : Bytes → W → Result F × W
  unfolding bytes join_all
  acquire_lock dir w =
      let (opened, w1) = disk.open_lock (join_all (dir ∷ bytes ".lock" ∷ [])) w in
      elim opened [
        | err e ↦ (err (wrap (bytes "open lock file: ") e []), w1)
        | ok f ↦
            let (locked, w2) = disk.flock f w1 in
            elim locked [
              | none ↦ (ok f, w2)
              | some e ↦ (
                err (
                    wrap
                      (bytes "data dir "
                        ++ (dir
                            ++ bytes
                                " is already in use by another rojo process (stop it, or point ROJO_DATA_DIR elsewhere): "))
                      e []),
                (disk.close f w2).1,
              )
            ]
      ]

  unfoldable pub read_job : Bytes → Bytes → W → Result Job
  unfolding file_of job_file bytes
  read_job dir id w = elim (disk.read_file (file_of dir id job_file) w) [
    | err e ↦ err e
    | ok b ↦ elim (disk.decode_job b) [
      | err e ↦ err (wrap (bytes "parse job " ++ (id ++ bytes ": ")) e [])
      | ok j ↦ ok j
    ]
  ]

  -- The loop of New over the entries of the directory.
  unfoldable pub load_each : Bytes → List (Bytes × Bool) → W → Repository → Repository
  load_each dir [] w index = index
  load_each dir ((name, is_dir) ∷ es) w index = load_each dir es w (
      if is_dir
      then elim (read_job dir name w) [ err e ↦ index | ok j ↦ put_job j index ]
      else index)

  -- New
  unfoldable pub new_store : Bytes → W → Result (Store F) × W
  unfolding jobs_dir join_all bytes
  new_store dir w =
      let root = join_all (dir ∷ jobs_dir ∷ []) in
      let (made, w1) = disk.mkdir_all root w in
      elim made [
        | some e ↦ (err (wrap (bytes "create data dir " ++ (root ++ bytes ": ")) e []), w1)
        | none ↦
            let (locked, w2) = acquire_lock dir w1 in
            elim locked [
              | err e ↦ (err e, w2)
              | ok f ↦ elim (disk.read_dir root w2) [
                | err e ↦ (
                  err (wrap (bytes "read data dir " ++ (root ++ bytes ": ")) e []),
                  (disk.close f w2).1,
                )
                | ok entries ↦
                    (ok (record { dir = dir; lock = f; index = load_each dir entries w2 [] }), w2)
              ]
            ]
      ]

  -- Close
  unfoldable pub close_store : Store F → W → W
  close_store s w = (disk.close s.lock w).1

  -- The rest of writeJob once the temporary file is there: each failure after a write closes it.
  unfoldable pub fill_temp : Bytes → Job → Bytes → F → W → Option Error × W
  unfolding job_file file_of bytes
  fill_temp dir job b tmp w =
      let (written, w1) = disk.write tmp b w in
      elim written [
        | some e ↦
            (some (wrap (bytes "write job " ++ (job.id ++ bytes ": ")) e []), (disk.close tmp w1).1)
        | none ↦
            let (synced, w2) = disk.sync tmp w1 in
            elim synced [
              | some e ↦ (
                some (wrap (bytes "sync job " ++ (job.id ++ bytes ": ")) e []),
                (disk.close tmp w2).1,
              )
              | none ↦
                  let (closed, w3) = disk.close tmp w2 in
                  elim closed [
                    | some e ↦ (some (wrap (bytes "close job " ++ (job.id ++ bytes ": ")) e []), w3)
                    | none ↦
                        let (renamed, w4) =
                          disk.rename (disk.name tmp) (file_of dir job.id job_file) w3 in
                        (prefixed (bytes "commit job " ++ (job.id ++ bytes ": ")) renamed, w4)
                  ]
            ]
      ]

  -- writeJob, with the deferred removal of the temporary file.
  unfoldable pub write_job : Bytes → Job → W → Option Error × W
  unfolding job_dir job_file bytes
  write_job dir job w =
      let (made, w1) = disk.mkdir_all (job_dir dir job.id) w in
      elim made [
        | some e ↦ (some (wrap (bytes "create job dir: ") e []), w1)
        | none ↦ elim (disk.encode_job job) [
          | err e ↦ (some (wrap (bytes "encode job " ++ (job.id ++ bytes ": ")) e []), w1)
          | ok b ↦
              let (created, w2) =
                disk.create_temp (job_dir dir job.id) (job_file ++ bytes ".tmp*") w1 in
              elim created [
                | err e ↦ (some (wrap (bytes "create temp job file: ") e []), w2)
                | ok tmp ↦
                    let (e, w3) = fill_temp dir job b tmp w2 in (e, disk.remove (disk.name tmp) w3)
              ]
        ]
      ]
