-- ===== src/Storage/Paths.antt =====
-- About the paths of internal/storage/filestore/filestore.go: each file of each job has its own.
use rojo.Base.{
  ℕ, Bytes, Bool, true, false, List, [], ◌∷◌, ◌++◌, ◌≡◌, ◌≢◌, refl, sym, ap, ◌∙◌, ◌⊎◌, inl, inr,
  arith, split-append, split-lacking, bytes, bytes_eq, is_empty, contains_byte, split, join_with,
  is_abs, walk, clean_text, clean, reverse, reverse-cons,
}
use mathlib.Core.List.{append_assoc, append_cancel_left}
use rojo.Storage.{join_all, job_dir, file_of, jobs_dir, job_file, events_file}
use rojo.Storage.Cleaned.{
  IsPlain, step_to-IsPlain, walk-append, is_abs-append, before, clean_text-last, base_of, clean_two,
}

walk_one :
    (r : Bool) (s n : Bytes)
    → IsPlain n
    → walk r [] (split b'/' (s ++ b'/' ∷ n)) ≡ n ∷ walk r [] (split b'/' s)
unfolding walk
walk_one r s n q =
    rw
      (
        split-append b'/' s n,
        split-lacking b'/' n q.one,
        walk-append r [] (split b'/' s) (n ∷ []),
        step_to-IsPlain r (walk r [] (split b'/' s)) n q,
      )
      refl

clean_one : (s n : Bytes) → is_empty s ≡ false → IsPlain n → clean (s ++ b'/' ∷ n) ≡ base_of s ++ n
unfolding clean base_of
clean_one s n h q =
    let r = is_abs s in
    let kept = walk r [] (split b'/' s) in
    rw (is_abs-append s (b'/' ∷ n) h, walk_one r s n q, reverse-cons n kept)
      (clean_text-last r (reverse kept) n)

last_of : Bytes → ℕ
last_of [] = 0
last_of (b ∷ []) = b
last_of (b ∷ c ∷ s) = last_of (c ∷ s)

last_of-append : (s : Bytes) (b : ℕ) (t : Bytes) → last_of (s ++ b ∷ t) ≡ last_of (b ∷ t)
unfolding last_of
last_of-append [] b t = refl
last_of-append (a ∷ []) b t = refl
last_of-append (a ∷ c ∷ s) b t = last_of-append (c ∷ s) b t

pub job_file-IsPlain : IsPlain job_file
unfolding job_file bytes contains_byte bytes_eq
job_file-IsPlain = record { full = refl; one = refl; not_dot = refl; not_up = refl }

pub events_file-IsPlain : IsPlain events_file
unfolding events_file bytes contains_byte bytes_eq
events_file-IsPlain = record { full = refl; one = refl; not_dot = refl; not_up = refl }

jobs_dir-IsPlain : IsPlain jobs_dir
unfolding jobs_dir bytes contains_byte bytes_eq
jobs_dir-IsPlain = record { full = refl; one = refl; not_dot = refl; not_up = refl }

is_empty-append : (s : Bytes) (b : ℕ) (t : Bytes) → is_empty (s ++ b ∷ t) ≡ false
is_empty-append [] b t = refl
is_empty-append (a ∷ s) b t = refl

pub join_pair :
    (s n : Bytes)
    → is_empty s ≡ false
    → is_empty n ≡ false
    → join_all (s ∷ n ∷ []) ≡ clean (s ++ b'/' ∷ n)
unfolding join_all join_with
join_pair [] n h k = cc
join_pair (b ∷ s) [] h k = cc
join_pair (b ∷ s) (c ∷ n) h k = refl

join_triple :
    (s i n : Bytes)
    → is_empty s ≡ false
    → is_empty i ≡ false
    → is_empty n ≡ false
    → join_all (s ∷ i ∷ n ∷ []) ≡ clean (s ++ b'/' ∷ (i ++ b'/' ∷ n))
unfolding join_all join_with
join_triple [] i n h k l = cc
join_triple (b ∷ s) [] n h k l = cc
join_triple (b ∷ s) (a ∷ i) [] h k l = cc
join_triple (b ∷ s) (a ∷ i) (c ∷ n) h k l = refl

-- Where the directories of the jobs are.
pub jobs_base : Bytes → Bytes
jobs_base dir = base_of dir ++ jobs_dir

job_dir_lem :
    (dir id : Bytes)
    → is_empty dir ≡ false
    → IsPlain id
    → job_dir dir id ≡ jobs_base dir ++ b'/' ∷ id
unfolding job_dir jobs_base
job_dir_lem dir id h p =
    rw
      (
        join_triple dir jobs_dir id h jobs_dir-IsPlain.full p.full,
        clean_two dir jobs_dir id h jobs_dir-IsPlain p,
      )
      (simp append_assoc)

jobs_base-full : (dir : Bytes) → is_empty (jobs_base dir) ≡ false
unfolding jobs_base jobs_dir bytes
jobs_base-full dir = is_empty-append (base_of dir) _ _

-- The path of a file of a job: the same beginning for all, then the id and the name.
pub file_of_lem :
    (dir id name : Bytes)
    → is_empty dir ≡ false
    → IsPlain id
    → IsPlain name
    → file_of dir id name ≡ base_of (jobs_base dir) ++ (id ++ b'/' ∷ name)
unfolding file_of
file_of_lem dir id name h p q =
    rw
      (
        job_dir_lem dir id h p,
        join_pair (jobs_base dir ++ b'/' ∷ id) name (is_empty-append (jobs_base dir) b'/' id)
            q.full,
        append_assoc (jobs_base dir) (b'/' ∷ id) (b'/' ∷ name),
        clean_two (jobs_base dir) id name (jobs_base-full dir) p q,
      )
      refl

same_parts :
    (i n j m : Bytes)
    → IsPlain i
    → IsPlain n
    → IsPlain j
    → IsPlain m
    → i ++ b'/' ∷ n ≡ j ++ b'/' ∷ m
    → (i ≡ j) × (n ≡ m)
same_parts i n j m p q r s e =
    let pieces : (i ∷ n ∷ []) ≡ (j ∷ m ∷ []) =
      rw
        (
          split-append b'/' i n,
          split-append b'/' j m,
          split-lacking b'/' i p.one,
          split-lacking b'/' n q.one,
          split-lacking b'/' j r.one,
          split-lacking b'/' m s.one,
        )
        at (ap {B = List Bytes} (split b'/') e) in
    (cc, cc)

-- Two files of jobs are the same only if their jobs and their names are.
pub file_of-injective :
    (dir i n j m : Bytes)
    → is_empty dir ≡ false
    → IsPlain i
    → IsPlain n
    → IsPlain j
    → IsPlain m
    → file_of dir i n ≡ file_of dir j m
    → (i ≡ j) × (n ≡ m)
file_of-injective dir i n j m h p q r s e = same_parts i n j m p q r s (
    append_cancel_left (base_of (jobs_base dir)) _ _
      (sym (file_of_lem dir i n h p q) ∙ e ∙ file_of_lem dir j m h r s))

abbrev pub lock_file : Bytes
unfolding bytes
lock_file = bytes ".lock"

lock_file-IsPlain : IsPlain lock_file
unfolding bytes contains_byte bytes_eq
lock_file-IsPlain = record { full = refl; one = refl; not_dot = refl; not_up = refl }

-- The lock is no file of a job.
pub lock-apart :
    (dir id : Bytes)
    → is_empty dir ≡ false
    → IsPlain id
    → file_of dir id job_file ≢ join_all (dir ∷ lock_file ∷ [])
unfolding bytes job_file last_of
lock-apart dir id h p = λ e.
    let lock =
      join_pair dir lock_file h lock_file-IsPlain.full
      ∙ clean_one dir lock_file h lock_file-IsPlain in
    let path = file_of_lem dir id job_file h p job_file-IsPlain in
    let ends : last_of (base_of (jobs_base dir) ++ (id ++ b'/' ∷ job_file))
        ≡ last_of (base_of dir ++ lock_file) =
      ap last_of (sym path ∙ e ∙ lock) in
    let left : last_of (base_of (jobs_base dir) ++ (id ++ b'/' ∷ job_file)) ≡ b'n' =
      ap last_of (sym (append_assoc (base_of (jobs_base dir)) id (b'/' ∷ job_file)))
      ∙ last_of-append (base_of (jobs_base dir) ++ id) b'/' job_file in
    let right : last_of (base_of dir ++ lock_file) ≡ b'k' =
      last_of-append (base_of dir) b'.' (bytes "lock") in
    absurd (omega (arith, ends, left, right))

-- What stands before the directories of the jobs is nothing, or ends with a slash.
before_end :
    (r : Bool) (ss : List Bytes)
    → (before r ss ≡ []) ⊎ ((u : Bytes) × (before r ss ≡ u ++ b'/' ∷ []))
unfolding before
before_end true [] = inr ([], refl)
before_end false [] = inl refl
before_end true (s ∷ ss) = inr (clean_text true (s ∷ ss), refl)
before_end false (s ∷ ss) = inr (clean_text false (s ∷ ss), refl)

-- The last two pieces of the path of a file of a job are the id and the name.
pub file_of-pieces :
    (dir id name : Bytes)
    → is_empty dir ≡ false
    → IsPlain id
    → IsPlain name
    → (ps : List Bytes) × (split b'/' (file_of dir id name) ≡ ps ++ id ∷ name ∷ [])
unfolding base_of
file_of-pieces dir id name h p q =
    let b = jobs_base dir in
    let tail : split b'/' (id ++ b'/' ∷ name) ≡ id ∷ name ∷ [] =
      rw (split-append b'/' id name, split-lacking b'/' id p.one, split-lacking b'/' name q.one)
        refl in
    elim (before_end (is_abs b) (reverse (walk (is_abs b) [] (split b'/' b)))) [
      | inl e ↦ ([], rw (file_of_lem dir id name h p q, e) tail)
      | inr (u, e) ↦ (
        split b'/' u,
        rw
            (
              file_of_lem dir id name h p q,
              e,
              append_assoc u (b'/' ∷ []) (id ++ b'/' ∷ name),
              split-append b'/' u (id ++ b'/' ∷ name),
              tail,
            )
            refl,
      )
    ]
