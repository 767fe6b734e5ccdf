-- ===== src/Storage/Log.antt =====
-- About the log of events of internal/storage/filestore/filestore.go.
use rojo.Base.{
  ℕ, Bytes, Bool-cases, true, false, List, [], ◌∷◌, ◌++◌, Option, none, some, ◌≡◌, refl, sym, ap,
  ◌∙◌, ◌⊎◌, inl, inr, arith, found, is_empty, contains_byte, split, split-append, split-lacking,
  trim_space,
}
use mathlib.Core.List.{append_assoc, append-nil}
use rojo.Errors.{ok}
use rojo.Orchestration.Env.{Event}
use rojo.Storage.{Disk, Store, file_of, job_dir, events_file, valid_job_id}
use rojo.Storage.Methods.{append, append_to, history, read_line, read_lines}
use rojo.Storage.Disks.{IsDisk, Readable, Result-cases}

-- The content of a file that may be missing.
abbrev pub content : Option Bytes → Bytes
content none = []
content (some b) = b

-- A text of whole lines.
abbrev pub IsWhole : Bytes → Type 0
IsWhole x = (x ≡ []) ⊎ ((u : Bytes) × (x ≡ u ++ 10 ∷ []))

module _ {W F : Type 0} (disk : Disk W F) where
  -- The events of a text.
  unfoldable pub events_of : Bytes → List Event
  events_of b = read_lines disk (split 10 b)

  read_line-onto :
      (line : Bytes) (es : List Event) → read_line disk line es ≡ read_line disk line [] ++ es
  unfolding read_line
  read_line-onto line es = elim (Bool-cases (is_empty (trim_space line))) [
    | inl b ↦ rw b refl
    | inr b ↦ elim (Result-cases (disk.decode_event line)) [
      | inl (x, d) ↦ rw (b, d) refl
      | inr (e, d) ↦ rw (b, d) refl
    ]
  ]

  read_lines-append :
      (xs ys : List Bytes) → read_lines disk (xs ++ ys) ≡ read_lines disk xs ++ read_lines disk ys
  unfolding read_lines
  read_lines-append [] ys = refl
  read_lines-append (x ∷ xs) ys =
      read_line-onto x (read_lines disk (xs ++ ys))
      ∙ ap (λ es. read_line disk x [] ++ es) (read_lines-append xs ys)
      ∙ sym (append_assoc (read_line disk x []) (read_lines disk xs) (read_lines disk ys))
      ∙ ap (λ es. es ++ read_lines disk ys) (sym (read_line-onto x (read_lines disk xs)))

  blank : (es : List Event) → read_line disk [] es ≡ es
  unfolding read_line trim_space
  blank es = refl

  events-break : (x y : Bytes) → events_of (x ++ 10 ∷ y) ≡ events_of x ++ events_of y
  unfolding events_of
  events-break x y = rw (split-append 10 x y) (read_lines-append (split 10 x) (split 10 y))

  events-line : (t : Bytes) → contains_byte 10 t ≡ false → events_of t ≡ read_line disk t []
  unfolding events_of read_lines
  events-line t h = rw (split-lacking 10 t h) refl

  events-nil : events_of [] ≡ []
  unfolding contains_byte
  events-nil = events-line [] refl ∙ blank []

  -- Behind whole lines a text is read by itself.
  events-whole : (x y : Bytes) → IsWhole x → events_of (x ++ y) ≡ events_of x ++ events_of y
  events-whole x y (inl e) = rw (e, events-nil) refl
  events-whole x y (inr (u, e)) =
      rw
        (
          e,
          append_assoc u (10 ∷ []) y,
          events-break u y,
          events-break u [],
          events-nil,
          append-nil (events_of u),
        )
        refl

  module _ (file : W → Bytes → Option Bytes) (laws : IsDisk disk file) where
    history_lem :
        (id : Bytes) (s : Store F) (w : W)
        → valid_job_id id ≡ true
        → Readable disk file w (file_of s.dir id events_file)
        → history disk id s w ≡ ok (events_of (content (file w (file_of s.dir id events_file))))
    unfolding history events_of
    history_lem id s w v (reads, absent) =
        let log = file_of s.dir id events_file in
        elim (found (file w log)) [
          | inl e ↦ let (x, r, m) = absent e in rw (e, history, v, r, m) (ap ok (sym events-nil))
          | inr (b, e) ↦ rw (e, history, v, reads b e) refl
        ]

    append_to-file :
        (f : F) (line : Bytes) (w : W) (old : Bytes)
        → (append_to disk f line w).0 ≡ none
        → file w (disk.name f) ≡ some old
        → file (append_to disk f line w).1 (disk.name f) ≡ some (old ++ (line ++ 10 ∷ []))
    unfolding append_to
    append_to-file f line w old h k =
        let b = line ++ 10 ∷ [] in
        elim (found (disk.write f b w).0) [
          | inl e ↦ laws.close_keeps f (disk.write f b w).1 _ ∙ laws.write_adds f b w old e k
          | inr (x, e) ↦ absurd (let c : some _ ≡ none = rw e at h in cc)
        ]

    -- What an acknowledged Append has added to the log.
    append-file :
        (e : Event) (s : Store F) (w : W) (line : Bytes)
        → (append disk e s w).0 ≡ none
        → disk.encode_event e ≡ ok line
        → (valid_job_id e.job_id ≡ true)
          × (file (append disk e s w).1 (file_of s.dir e.job_id events_file)
              ≡ some (content (file w (file_of s.dir e.job_id events_file)) ++ (line ++ 10 ∷ [])))
    unfolding append
    append-file e s w line h enc =
        let log = file_of s.dir e.job_id events_file in
        let w1 = (disk.mkdir_all (job_dir s.dir e.job_id) w).1 in
        let w2 = (disk.open_append log w1).1 in
        elim (Bool-cases (valid_job_id e.job_id)) [
          | inr v ↦ absurd (let c : some _ ≡ none = rw (append, v) at h in cc)
          | inl v ↦ elim (found (disk.mkdir_all (job_dir s.dir e.job_id) w).0) [
            | inr (x, m) ↦ absurd (let c : some _ ≡ none = rw (append, v, m) at h in cc)
            | inl m ↦ elim (Result-cases (disk.open_append log w1).0) [
              | inl (x, o) ↦ absurd (let c : some _ ≡ none = rw (append, v, m, enc, o) at h in cc)
              | inr (f, o) ↦
                  let (name, opened) = laws.append_opens log w1 f o in
                  let was = laws.mkdir_keeps (job_dir s.dir e.job_id) w log in
                  let wrote : (append_to disk f line w2).0 ≡ none =
                    rw (append, v, m, enc, o) at h in
                  let held : file w2 (disk.name f) ≡ some (content (file w log)) =
                    rw name (opened ∙ ap (λ b. some (content b)) was) in
                  let added : file (append_to disk f line w2).1 log
                      ≡ some (content (file w log) ++ (line ++ 10 ∷ [])) =
                    rw name at (append_to-file f line w2 _ wrote held) in
                  (v, rw (append, v, m, enc, o) added)
            ]
          ]
        ]

    lines-apart :
        (x t line : Bytes)
        → IsWhole x
        → contains_byte 10 (t ++ line) ≡ false
        → events_of ((x ++ t) ++ (line ++ 10 ∷ [])) ≡ events_of x ++ read_line disk (t ++ line) []
    lines-apart x t line h n =
        rw
          (
            append_assoc x t (line ++ 10 ∷ []),
            sym (append_assoc t line (10 ∷ [])),
            events-whole x ((t ++ line) ++ 10 ∷ []) h,
            events-break (t ++ line) [],
            events-nil,
            append-nil (events_of (t ++ line)),
            events-line (t ++ line) n,
          )
          refl

    lacks-append :
        (c : ℕ) (s t : Bytes)
        → contains_byte c s ≡ false
        → contains_byte c t ≡ false
        → contains_byte c (s ++ t) ≡ false
    unfolding contains_byte
    lacks-append c [] t h k = k
    lacks-append c (b ∷ s) t h k = ground (arith, lacks-append c s t)

    -- An acknowledged Append of an event whose line reads back, to a log that can be read before and
    -- after it: History is then the earlier history with the event behind it, where the log was made of
    -- whole lines. Where it ended in a torn line, as
    -- a crash leaves it, the event is no line of its own: what was torn and the new line are read as
    -- one.
    pub history-append :
        (e : Event) (s : Store F) (w : W) (line x t : Bytes)
        → (append disk e s w).0 ≡ none
        → disk.encode_event e ≡ ok line
        → disk.decode_event line ≡ ok e
        → contains_byte 10 line ≡ false
        → is_empty (trim_space line) ≡ false
        → content (file w (file_of s.dir e.job_id events_file)) ≡ x ++ t
        → IsWhole x
        → contains_byte 10 t ≡ false
        → Readable disk file w (file_of s.dir e.job_id events_file)
        → Readable disk file (append disk e s w).1 (file_of s.dir e.job_id events_file)
        → (es : List Event) × (history disk e.job_id s w ≡ ok (es ++ read_line disk t []))
          × (t ≡ [] → history disk e.job_id s (append disk e s w).1 ≡ ok (es ++ e ∷ []))
          × (history disk e.job_id s (append disk e s w).1
              ≡ ok (es ++ read_line disk (t ++ line) []))
    unfolding read_line
    history-append e s w line x t h enc dec n b old whole torn before now =
        let (v, added) = append-file e s w line h enc in
        let after : history disk e.job_id s (append disk e s w).1
            ≡ ok (events_of x ++ read_line disk (t ++ line) []) =
          history_lem e.job_id s (append disk e s w).1 v now
          ∙ ap (λ o. ok (events_of (content o))) added
          ∙ ap (λ c. ok (events_of (c ++ (line ++ 10 ∷ [])))) old
          ∙ ap ok (lines-apart x t line whole (lacks-append 10 t line torn n)) in
        let read : read_line disk line [] ≡ e ∷ [] = rw (b, dec) refl in
        (
          events_of x,
          history_lem e.job_id s w v before
              ∙ ap (λ c. ok (events_of c)) old
              ∙ ap ok (events-whole x t whole ∙ ap (λ es. events_of x ++ es) (events-line t torn)),
          λ z.
              after
              ∙ ap (λ u. ok (events_of x ++ read_line disk (u ++ line) [])) z
              ∙ ap (λ es. ok (events_of x ++ es)) read,
          after,
        )
