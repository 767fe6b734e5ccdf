-- ===== src/Examples/Memory.antt =====
-- A disk in memory, for the examples about the store of files: the files are an association list from
-- paths to contents, and an open file is its path.
use rojo.Base.{
  ℕ, Bytes, Bool, Bool-cases, true, false, not, ◌&&◌, ◌||◌, List, [], ◌∷◌, ◌++◌, Option, none, some,
  ◌≡◌, ◌≢◌, refl, sym, ap, ◌∙◌, ◌⊎◌, inl, inr, arith, found, bytes, bytes_eq, bytes_eq_self,
  eq_of_bytes_eq, is_empty, is_some, contains_byte, dot, dot_dot, split, reverse, if◌then◌else◌,
}
use mathlib.Core.List.{reverse-append}
use rojo.Errors.{Error, sentinel, not_exist, error_is, Result, ok, err}
use rojo.Jobs.Status.{Job, queued}
use rojo.Orchestration.Env.{Event}
use rojo.Storage.{Disk, join_all}
use rojo.Storage.Paths.{file_of-pieces}
use rojo.Storage.Cleaned.{IsPlain}
use rojo.Storage.Disks.{IsDisk, IsSynced, Readable, AllPlain, has_dir}

abbrev pub Files : Type 0
Files = List (Bytes × Bytes)

abbrev pub file : Files → Bytes → Option Bytes
file [] p = none
file ((q, b) ∷ w) p = if bytes_eq q p then some b else file w p

abbrev content : Option Bytes → Bytes
content none = []
content (some b) = b

abbrev drop_file : Bytes → Files → Files
drop_file p [] = []
drop_file p ((q, b) ∷ w) = let rest = drop_file p w in if bytes_eq q p then rest else (q, b) ∷ rest

abbrev init : Bytes → Bytes
init [] = []
init (b ∷ []) = []
init (b ∷ c ∷ s) = b ∷ init (c ∷ s)

abbrev is_plain : Bytes → Bool
is_plain s = not (is_empty s || (contains_byte b'/' s || (bytes_eq s dot || bytes_eq s dot_dot)))

-- The name of the directory that a path ends in, before the name of the file.
abbrev second : List Bytes → List (Bytes × Bool)
second (name ∷ id ∷ ps) = if is_plain id then (id, true) ∷ [] else []
second ps = []

abbrev dirs : Files → List (Bytes × Bool)
dirs [] = []
dirs ((p, b) ∷ w) = second (reverse (split b'/' p)) ++ dirs w

abbrev read_at : Option Bytes → Result Bytes
read_at none = err (sentinel not_exist)
read_at (some b) = ok b

abbrev sync_at : Option Bytes → Option Error
sync_at none = some (sentinel not_exist)
sync_at (some b) = none

-- A file is on the medium as soon as it is there.
abbrev pub Settled : Files → Bytes → Type 0
Settled w p = is_some (file w p) ≡ true

abbrev move_to : Option Bytes → Bytes → Bytes → Files → Option Error × Files
move_to none from to w = (some (sentinel not_exist), w)
move_to (some b) from to w = (none, (to, b) ∷ drop_file from w)

abbrev pub one_job : Job
unfolding bytes
one_job = record {
  id = bytes "a1";
  task = bytes "t";
  repo_path = bytes "/r";
  status = queued;
  created_at = 1;
  updated_at = 1;
}

-- It knows one job and one event.
unfoldable pub memory : Event → Disk Files Bytes
unfolding bytes join_all
memory event = record {
  mkdir_all = λ d w. (none, w);
  read_dir = λ d w. ok (dirs w);
  read_file = λ p w. read_at (file w p);
  write_file = λ p b w. (none, (p, b) ∷ w);
  create_temp =
      λ d pattern w. let p = join_all (d ∷ (init pattern ++ bytes "1") ∷ []) in (ok p, (p, []) ∷ w);
  open_append = λ p w. (ok p, (p, content (file w p)) ∷ w);
  open_lock = λ p w. (ok p, (p, []) ∷ w);
  name = λ f. f;
  write = λ f b w. (none, (f, content (file w f) ++ b) ∷ w);
  sync = λ f w. (sync_at (file w f), w);
  close = λ f w. (none, w);
  flock = λ f w. (none, w);
  rename = λ from to w. move_to (file w from) from to w;
  remove = λ p w. drop_file p w;
  encode_job = λ j. ok (bytes "job");
  decode_job = λ b. ok one_job;
  encode_event = λ e. ok (bytes "event");
  decode_event = λ b. ok event;
  quote = λ s. s;
}

file_other : (q b : Bytes) (w : Files) (p : Bytes) → p ≢ q → file ((q, b) ∷ w) p ≡ file w p
file_other q b w p n = elim (Bool-cases (bytes_eq q p)) [
  | inl e ↦ absurd (n (sym (eq_of_bytes_eq q p e)))
  | inr e ↦ rw e refl
]

file_self : (q b : Bytes) (w : Files) → file ((q, b) ∷ w) q ≡ some b
file_self q b w = rw (bytes_eq_self q) refl

drop_file_other : (q : Bytes) (w : Files) (p : Bytes) → p ≢ q → file (drop_file q w) p ≡ file w p
drop_file_other q [] p n = refl
drop_file_other q ((r, b) ∷ w) p n = elim (Bool-cases (bytes_eq r q)) [
  | inl e ↦
      let at : bytes_eq r p ≡ false = elim (Bool-cases (bytes_eq r p)) [
        | inr f ↦ f
        | inl f ↦ absurd (n (sym (eq_of_bytes_eq r p f) ∙ eq_of_bytes_eq r q e))
      ] in
      rw (e, at) (drop_file_other q w p n)
  | inr e ↦ elim (Bool-cases (bytes_eq r p)) [
    | inl f ↦ rw (e, f) refl
    | inr f ↦ rw (e, f) (drop_file_other q w p n)
  ]
]

init-append : (s : Bytes) (b : ℕ) → init (s ++ b ∷ []) ≡ s
init-append [] b = refl
init-append (a ∷ []) b = refl
init-append (a ∷ c ∷ s) b = ap (λ t. a ∷ t) (init-append (c ∷ s) b)

is_plain-IsPlain : (s : Bytes) → is_plain s ≡ true → IsPlain s
is_plain-IsPlain s h = record {
  full = ground (arith, h);
  one = ground (arith, h);
  not_dot = ground (arith, h);
  not_up = ground (arith, h);
}

plain-is : (s : Bytes) → IsPlain s → is_plain s ≡ true
plain-is s p = rw (p.full, p.one, p.not_dot, p.not_up) refl

AllPlain-append : (es fs : List (Bytes × Bool)) → AllPlain es → AllPlain fs → AllPlain (es ++ fs)
AllPlain-append [] fs h k = k
AllPlain-append ((n, d) ∷ es) fs (p, h) k = (p, AllPlain-append es fs h k)

second-AllPlain : (ps : List Bytes) → AllPlain (second ps)
second-AllPlain [] = tt
second-AllPlain (n ∷ []) = tt
second-AllPlain (n ∷ id ∷ ps) = elim (Bool-cases (is_plain id)) [
  | inl e ↦ rw e (is_plain-IsPlain id e, tt)
  | inr e ↦ rw e tt
]

dirs-AllPlain : (w : Files) → AllPlain (dirs w)
dirs-AllPlain [] = tt
dirs-AllPlain ((p, b) ∷ w) =
    AllPlain-append (second (reverse (split b'/' p))) (dirs w)
      (second-AllPlain (reverse (split b'/' p))) (dirs-AllPlain w)

has_dir-append :
    (id : Bytes) (es fs : List (Bytes × Bool))
    → has_dir id es ≡ true ⊎ has_dir id fs ≡ true
    → has_dir id (es ++ fs) ≡ true
has_dir-append id [] fs (inl h) = cc
has_dir-append id [] fs (inr h) = h
has_dir-append id ((n, d) ∷ es) fs h = elim (Bool-cases (d && bytes_eq n id)) [
  | inl e ↦ rw e refl
  | inr e ↦ rw e (has_dir-append id es fs (elim h [ inl x ↦ inl (rw e at x) | inr x ↦ inr x ]))
]

listed :
    (w : Files) (id name : Bytes) (ps : List Bytes) (p b : Bytes)
    → IsPlain id
    → split b'/' p ≡ ps ++ id ∷ name ∷ []
    → file w p ≡ some b
    → has_dir id (dirs w) ≡ true
listed [] id name ps p b q e h = cc
listed ((r, c) ∷ w) id name ps p b q e h = elim (Bool-cases (bytes_eq r p)) [
  | inr f ↦
      has_dir-append id (second (reverse (split b'/' r))) (dirs w)
        (inr (listed w id name ps p b q e (rw f at h)))
  | inl f ↦ has_dir-append id (second (reverse (split b'/' r))) (dirs w) (
      inl (
        rw
          (
            eq_of_bytes_eq r p f,
            e,
            reverse-append ps (id ∷ name ∷ []),
            plain-is id q,
            bytes_eq_self id,
          )
          refl))
]

moved :
    (from to : Bytes) (w : Files) (p : Bytes)
    → p ≢ from
    → p ≢ to
    → file (move_to (file w from) from to w).1 p ≡ file w p
moved from to w p n m = elim (found (file w from)) [
  | inl e ↦ rw e refl
  | inr (b, e) ↦ rw e (file_other to b (drop_file from w) p m ∙ drop_file_other from w p n)
]

moves :
    (from to : Bytes) (w : Files)
    → (move_to (file w from) from to w).0 ≡ none
    → file (move_to (file w from) from to w).1 to ≡ file w from
moves from to w h = elim (found (file w from)) [
  | inl e ↦ absurd (let c : some _ ≡ none = rw e at h in cc)
  | inr (b, e) ↦ rw e (file_self to b (drop_file from w))
]

unmoved :
    (from to : Bytes) (w : Files) (x : Error) (p : Bytes)
    → (move_to (file w from) from to w).0 ≡ some x
    → file (move_to (file w from) from to w).1 p ≡ file w p
unmoved from to w x p h = elim (found (file w from)) [
  | inl e ↦ rw e refl
  | inr (b, e) ↦ absurd (let c : none ≡ some x = rw e at h in cc)
]

one-lacks : contains_byte b'/' (bytes "1") ≡ false
unfolding contains_byte bytes
one-lacks = refl

not_exist-is : error_is not_exist (sentinel not_exist) ≡ true
unfolding error_is
not_exist-is = refl

ok_injective : {A : Type 0} {a b : A} → ok a ≡ ok b → a ≡ b
ok_injective h = cc

pub memory-IsDisk : (event : Event) → IsDisk (memory event) file
unfolding memory
memory-IsDisk event = record {
  mkdir_keeps = λ d w p. refl;
  temp_keeps = λ d pattern w p h. file_other _ [] w p (h _ refl);
  temp_empty = λ d pattern w f h. rw (← ok_injective h) (file_self _ [] w);
  temp_name = λ parts before w f h. (
    bytes "1",
    one-lacks,
    sym (ok_injective h)
        ∙ ap (λ t. join_all (join_all parts ∷ (t ++ bytes "1") ∷ [])) (init-append before b'*'),
  );
  write_keeps = λ f b w p n. file_other f _ w p n;
  write_adds = λ f b w c h k. file_self f _ w ∙ ap (λ o. some (content o ++ b)) k;
  sync_keeps = λ f w p. refl;
  close_keeps = λ f w p. refl;
  flock_keeps = λ f w p. refl;
  rename_moves = λ from to w h. moves from to w h;
  rename_keeps = λ from to w p n m. moved from to w p n m;
  rename_fails = λ from to w e p h. unmoved from to w e p h;
  remove_keeps = λ q w p n. drop_file_other q w p n;
  write_file_keeps = λ q b w p n. file_other q b w p n;
  append_keeps = λ q w p n. file_other q _ w p n;
  append_opens = λ q w f h. (sym (ok_injective h), file_self q _ w);
  lock_keeps = λ q w p n. file_other q [] w p n;
  dirs_plain = λ d w es h. rw (← ok_injective h) (dirs-AllPlain w);
  dirs_listed = λ dir w es id name b r n p q h.
      let (ps, e) = file_of-pieces dir id name n p q in
      rw (← ok_injective r) (listed w id name ps _ b p e h);
}

pub memory-Readable : (event : Event) (w : Files) (p : Bytes) → Readable (memory event) file w p
unfolding memory
memory-Readable event w p =
    (λ b h. ap read_at h, λ h. (sentinel not_exist, ap read_at h, not_exist-is))

sync_at-none : (o : Option Bytes) → sync_at o ≡ none → is_some o ≡ true
sync_at-none none h = cc
sync_at-none (some b) h = refl

pub memory-IsSynced : (event : Event) → IsSynced (memory event) Settled
unfolding memory
memory-IsSynced event = record {
  sync_settles = λ f w h. sync_at-none (file w f) h;
  close_settled = λ f w p h. h;
  rename_settled = λ from to w h k. ap is_some (moves from to w h) ∙ k;
  remove_settled = λ q w p n h. ap is_some (drop_file_other q w p n) ∙ h;
}
