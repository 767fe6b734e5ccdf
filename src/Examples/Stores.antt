-- ===== src/Examples/Stores.antt =====
-- The theorems about the store of files, over a disk in memory.
use rojo.Base.{
  Bytes, false, List, [], ◌∷◌, ◌++◌, none, some, ◌≡◌, refl, sym, ◌∙◌, inl, bytes, bytes_eq, split,
  step_to, contains_byte, is_empty, trim_space,
}
use rojo.Errors.{ok}
use rojo.Jobs.Repository.{find_job}
use rojo.Orchestration.Env.{Event, job_created}
use rojo.Storage.{
  Disk, Store, file_of, events_file, new_store, acquire_lock, load_each, read_job, valid_job_id,
  write_job, fill_temp,
}
use rojo.Storage.Methods.{create_job, append, history, read_line}
use rojo.Storage.Disks.{ReadsJobs, stored}
use rojo.Storage.Durable.{IsFaithful}
use rojo.Storage.Runs.{StoreLife, opens, creates, StoreLife-IsFaithful}
use rojo.Storage.Log.{content, history-append}
use rojo.Examples.Memory.{Files, file, memory, memory-IsDisk, memory-Readable, one_job}

abbrev first : Store Bytes
unfolding bytes
first = record { dir = bytes "/d"; lock = bytes "/d/.lock"; index = [] }

abbrev locked : Files
unfolding bytes
locked = (bytes "/d/.lock", []) ∷ []

abbrev event : Event
unfolding bytes
event = record { job_id = bytes "a1"; payload = job_created; created_at = 7 }

abbrev disk : Disk Files Bytes
disk = memory event

begun : new_store disk (bytes "/d") [] ≡ (ok first, locked)
unfolding memory bytes new_store acquire_lock split load_each step_to bytes_eq contains_byte
    read_job
begun = refl

nothing : (id : Bytes) → stored disk file (bytes "/d") [] id ≡ none
unfolding memory bytes stored
nothing id = refl

rooted : is_empty (bytes "/d") ≡ false
unfolding bytes
rooted = refl

readable : (v : Files) → ReadsJobs disk file (bytes "/d") v
readable v id p = memory-Readable event _ _

run : StoreLife disk file (memory-IsDisk event) first locked
run =
    opens (bytes "/d") [] rooted
      (λ id j p h. let c : none ≡ some j = sym (nothing id) ∙ h in absurd (cc)) begun
      (readable locked)

reads_back : (b : Bytes) → disk.encode_job one_job ≡ ok b → disk.decode_job b ≡ ok one_job
unfolding memory
reads_back b h = refl

-- The job is created, and is there after a restart.
created : (create_job disk one_job first locked).0 ≡ none
unfolding memory bytes create_job valid_job_id find_job write_job fill_temp bytes_eq split step_to
created = refl

StoreLife-IsFaithful_example :
    IsFaithful disk file
      (memory-IsDisk event)
      (create_job disk one_job first locked).1
      (create_job disk one_job first locked).2
StoreLife-IsFaithful_example =
    StoreLife-IsFaithful disk file (memory-IsDisk event) (creates one_job run reads_back)

abbrev line : Bytes
unfolding bytes
line = bytes "event"

encoded : disk.encode_event event ≡ ok line
unfolding memory bytes
encoded = refl

decoded : disk.decode_event line ≡ ok event
unfolding memory
decoded = refl

one_line : contains_byte 10 line ≡ false
unfolding contains_byte bytes
one_line = refl

not_blank : is_empty (trim_space line) ≡ false
unfolding trim_space bytes
not_blank = refl

no_log : content (file locked (file_of first.dir event.job_id events_file)) ≡ [] ++ []
unfolding bytes file_of bytes_eq split step_to events_file
no_log = refl

appended : (append disk event first locked).0 ≡ none
unfolding memory bytes append valid_job_id
appended = refl

no_break : contains_byte 10 [] ≡ false
unfolding contains_byte
no_break = refl

history-append_example :
    (es : List Event) × (history disk event.job_id first locked ≡ ok (es ++ read_line disk [] []))
    × (◌≡◌ {A = Bytes} [] []
        → history disk event.job_id first (append disk event first locked).1
          ≡ ok (es ++ event ∷ []))
    × (history disk event.job_id first (append disk event first locked).1
        ≡ ok (es ++ read_line disk ([] ++ line) []))
history-append_example =
    history-append disk file (memory-IsDisk event) event first locked line [] [] appended encoded
      decoded one_line not_blank no_log (inl refl) no_break (memory-Readable event _ _)
      (memory-Readable event _ _)
