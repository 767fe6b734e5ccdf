-- ===== src/Storage/Methods.antt =====
-- internal/storage/filestore/filestore.go: the methods of the store, as jobs.JobRepository and as
-- events.Store, the artifacts, and the probe of /healthz. A nil job is none.
use rojo.Base.{
  ℕ, Bytes, not, List, [], ◌∷◌, ◌++◌, Option, none, some, bytes, is_empty, length, split,
  trim_space, is_some, if◌then◌else◌,
}
use rojo.Errors.{
  Error, sentinel, plain, wrap, error_is, not_exist, job_not_found, job_already_exists, Result, ok,
  err,
}
use rojo.Jobs.Status.{Job}
use rojo.Jobs.Repository.{find_job, get, list_jobs}
use rojo.Orchestration.Env.{Event}
use rojo.Storage.{
  Disk, Store, valid_job_id, bad_name, refused_id, job_dir, file_of, events_file, put_job,
  write_job, prefixed,
}

module _ {F : Type 0} where
  -- Loaded, Get and List read the index only.
  unfoldable pub loaded_jobs : Store F → ℕ
  loaded_jobs s = length s.index

  unfoldable pub get_stored : Bytes → Store F → Result Job
  unfolding get
  get_stored id s = get id s.index

  unfoldable pub list_stored : Store F → List Job
  unfolding list_jobs
  list_stored s = list_jobs s.index

module _ {W F : Type 0} (disk : Disk W F) where
  -- Create of a job
  unfoldable pub create_job : Job → Store F → W → Option Error × Store F × W
  create_job job s w =
      if not (valid_job_id job.id)
      then (some (refused_id (disk.quote job.id)), s, w)
      else if is_some (find_job job.id s.index)
      then (some (sentinel job_already_exists), s, w)
      else let (e, w1) = write_job disk s.dir job w in
        elim e [
          | some x ↦ (some x, s, w1)
          | none ↦ (none, record s { index = put_job job s.index }, w1)
        ]

  unfoldable pub create : Option Job → Store F → W → Option Error × Store F × W
  unfolding bytes create_job
  create none s w = (some (plain (bytes "create: nil job")), s, w)
  create (some job) s w = create_job job s w

  -- Update of a job
  unfoldable pub update_job : Job → Store F → W → Option Error × Store F × W
  update_job job s w =
      if not (is_some (find_job job.id s.index))
      then (some (sentinel job_not_found), s, w)
      else let (e, w1) = write_job disk s.dir job w in
        elim e [
          | some x ↦ (some x, s, w1)
          | none ↦ (none, record s { index = put_job job s.index }, w1)
        ]

  unfoldable pub update : Option Job → Store F → W → Option Error × Store F × W
  unfolding bytes update_job
  update none s w = (some (plain (bytes "update: nil job")), s, w)
  update (some job) s w = update_job job s w

  -- The rest of Append once the log is open: it is closed whatever the write came to.
  unfoldable pub append_to : F → Bytes → W → Option Error × W
  unfolding bytes
  append_to f line w =
      let (e, w1) = disk.write f (line ++ 10 ∷ []) w in
      (prefixed (bytes "append event: ") e, (disk.close f w1).1)

  unfoldable pub append : Event → Store F → W → Option Error × W
  unfolding append_to bytes
  append e s w =
      if not (valid_job_id e.job_id)
      then (some (refused_id (disk.quote e.job_id)), w)
      else let (made, w1) = disk.mkdir_all (job_dir s.dir e.job_id) w in
        elim made [
          | some x ↦ (some (wrap (bytes "create job dir: ") x []), w1)
          | none ↦ elim (disk.encode_event e) [
            | err x ↦ (some (wrap (bytes "encode event: ") x []), w1)
            | ok line ↦
                let (opened, w2) = disk.open_append (file_of s.dir e.job_id events_file) w1 in
                elim opened [
                  | err x ↦ (some (wrap (bytes "open event log: ") x []), w2)
                  | ok f ↦ append_to f line w2
                ]
          ]
        ]

  -- One line of the log, before the events behind it.
  unfoldable pub read_line : Bytes → List Event → List Event
  read_line line es =
      if is_empty (trim_space line)
      then es
      else elim (disk.decode_event line) [ err x ↦ es | ok e ↦ e ∷ es ]

  unfoldable pub read_lines : List Bytes → List Event
  unfolding read_line
  read_lines [] = []
  read_lines (line ∷ lines) = read_line line (read_lines lines)

  unfoldable pub history : Bytes → Store F → W → Result (List Event)
  unfolding bytes read_lines
  history id s w =
      if not (valid_job_id id)
      then err (refused_id (disk.quote id))
      else elim (disk.read_file (file_of s.dir id events_file) w) [
        | err x ↦
            if error_is not_exist x
            then ok []
            else err (wrap (bytes "read event log for " ++ (id ++ bytes ": ")) x [])
        | ok b ↦ ok (read_lines (split 10 b))
      ]

  unfoldable pub write_artifact : Bytes → Bytes → Bytes → Store F → W → Option Error × W
  unfolding bytes
  write_artifact id name content s w =
      if not (valid_job_id id)
      then (some (refused_id (disk.quote id)), w)
      else if bad_name name
      then (some (plain (bytes "invalid artifact name " ++ disk.quote name)), w)
      else let (made, w1) = disk.mkdir_all (job_dir s.dir id) w in
        elim made [
          | some x ↦ (some (wrap (bytes "create job dir: ") x []), w1)
          | none ↦
              let (e, w2) = disk.write_file (file_of s.dir id name) content w1 in
              (
                prefixed
                    (bytes "write artifact " ++ (name ++ (bytes " for " ++ (id ++ bytes ": ")))) e,
                w2,
              )
        ]

  unfoldable pub read_artifact : Bytes → Bytes → Store F → W → Result Bytes
  unfolding bytes
  read_artifact id name s w =
      if not (valid_job_id id)
      then err (refused_id (disk.quote id))
      else if bad_name name
      then err (plain (bytes "invalid artifact name " ++ disk.quote name))
      else disk.read_file (file_of s.dir id name) w

  -- Health, without the lines that it logs.
  unfoldable pub health : Store F → W → Option Error × W
  unfolding bytes
  health s w =
      let (created, w1) = disk.create_temp s.dir (bytes ".health*") w in
      elim created [
        | err e ↦ (some (plain (bytes "data dir is not writable")), w1)
        | ok f ↦
            let (written, w2) = disk.write f (bytes "ok") w1 in
            let (closed, w3) = disk.close f w2 in
            (
              elim written [
                | some e ↦ some (plain (bytes "data dir is not writable"))
                | none ↦ elim closed [
                  | some e ↦ some (plain (bytes "data dir write could not be completed"))
                  | none ↦ none
                ]
              ],
              disk.remove (disk.name f) w3,
            )
      ]
