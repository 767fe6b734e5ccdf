-- ===== src/RepoContext/Words.antt =====
-- About Keywords of internal/repocontext: the terms that are searched for.
use rojo.Base.{
  ◌+◌, ◌≤◌, ◌<◌, Bytes, Bool-cases, true, false, List, [], ◌∷◌, ◌++◌, ◌≡◌, ◌⊎◌, inl, inr, arith,
  All, All-append, All-reverse, any, bytes_eq, is_empty, length, length-append, occurrences,
  occurrences-append, occurrences-absent, occurrences-present, reverse, ◌==◌, eq_of_bytes_eq,
  bytes_eq_self, ==_iff,
}
use rojo.RepoContext.{
  default_max_keywords, word_byte, onto_words, words_from, is_noise, collect, keywords,
}
use rojo.RepoContext.Vocabulary.{stopwords}

-- Bytes that a keyword is made of.
abbrev pub IsWord : Bytes → Type 0
IsWord = All (λ b. word_byte b ≡ true)

-- A term worth a search.
abbrev pub IsTerm : Bytes → Type 0
IsTerm k = IsWord k × (3 ≤ length k) × (any (bytes_eq k) stopwords ≡ false)

onto_words-IsWord :
    (v : Bytes) (ws : List Bytes)
    → IsWord v
    → All IsWord ws
    → All IsWord (onto_words (reverse v) ws)
onto_words-IsWord v ws h k = elim (Bool-cases (is_empty (reverse v))) [
  | inl e ↦ rw e k
  | inr e ↦ rw e (All-reverse (λ b. word_byte b ≡ true) v h, k)
]

words_from-IsWord : (w s : Bytes) → IsWord w → All IsWord (words_from w s)
unfolding words_from
words_from-IsWord w [] h = onto_words-IsWord w [] h tt
words_from-IsWord w (b ∷ s) h = elim (Bool-cases (word_byte b)) [
  | inl e ↦ rw (words_from, e) (words_from-IsWord (b ∷ w) s (e, h))
  | inr e ↦ rw (words_from, e) (onto_words-IsWord w (words_from [] s) h (words_from-IsWord [] s tt))
]

-- Every term among some words is a keyword, unless there are as many keywords as there may be.
abbrev pub IsComplete : List Bytes → List Bytes → Type 0
IsComplete words ks =
    (length ks ≡ default_max_keywords)
    ⊎ ((k : Bytes)
        → 0 < occurrences k words
        → 3 ≤ length k
        → any (bytes_eq k) stopwords ≡ false
        → 0 < occurrences k ks)

-- What Keywords has made of the words that it has read, from the keywords that it had.
pub record IsCollected (out words ks : List Bytes) : Type 0 where
  pub few : length ks ≤ default_max_keywords
  pub terms : All IsTerm ks
  pub once : (k : Bytes) → occurrences k ks ≤ 1
  pub grows : (k : Bytes) → 0 < occurrences k out → 0 < occurrences k ks
  pub complete : IsComplete words ks

noise-is_old :
    (out : List Bytes) (k : Bytes)
    → is_noise out k ≡ true
    → 3 ≤ length k
    → any (bytes_eq k) stopwords ≡ false
    → 0 < occurrences k out
unfolding is_noise
noise-is_old out k h long rare = occurrences-present k out (ground (arith, h, long, rare))

term :
    (out : List Bytes) (k : Bytes)
    → is_noise out k ≡ false
    → (3 ≤ length k) × (any (bytes_eq k) stopwords ≡ false) × (any (bytes_eq k) out ≡ false)
unfolding is_noise
term out k h = ground (arith, h)

-- One keyword more.
once-more :
    (out : List Bytes) (raw k : Bytes)
    → any (bytes_eq raw) out ≡ false
    → occurrences k out ≤ 1
    → occurrences k (out ++ raw ∷ []) ≤ 1
once-more out raw k new h = elim (Bool-cases (bytes_eq raw k)) [
  | inl e ↦
      let none_yet : occurrences k out ≡ 0 =
        rw (eq_of_bytes_eq raw k e) at (occurrences-absent raw out new) in
      rw (occurrences-append k out (raw ∷ []), e) (omega (arith, none_yet))
  | inr e ↦ rw (occurrences-append k out (raw ∷ []), e) (omega (arith, h))
]

grown :
    (out : List Bytes) (raw k : Bytes) → 0 < occurrences k out → 0 < occurrences k (out ++ raw ∷ [])
grown out raw k h = omega (arith, h, occurrences-append k out (raw ∷ []))

added : (out : List Bytes) (raw : Bytes) → 0 < occurrences raw (out ++ raw ∷ [])
added out raw = rw (occurrences-append raw out (raw ∷ []), bytes_eq_self raw) (omega arith)

below :
    (out : List Bytes) (raw : Bytes)
    → length out < default_max_keywords
    → length (out ++ raw ∷ []) == default_max_keywords ≡ false
    → length (out ++ raw ∷ []) < default_max_keywords
below out raw h k = ground (arith, h, k, length-append out (raw ∷ []))

-- One word more that is read: it is a keyword already, or is none.
complete-more :
    (raw : Bytes) (words ks : List Bytes)
    → (3 ≤ length raw → any (bytes_eq raw) stopwords ≡ false → 0 < occurrences raw ks)
    → IsComplete words ks
    → IsComplete (raw ∷ words) ks
complete-more raw words ks h (inl full) = inl full
complete-more raw words ks h (inr rest) = inr (λ k m long rare. elim (Bool-cases (bytes_eq raw k)) [
  | inl e ↦
      let same = eq_of_bytes_eq raw k e in
      rw same at (h (rw (← same) at long) (rw (← same) at rare))
  | inr e ↦
      let there : 0 < 0 + occurrences k words = rw e at m in rest k (omega (arith, there)) long rare
])

collect-IsCollected :
    (out words : List Bytes)
    → length out < default_max_keywords
    → All IsTerm out
    → ((k : Bytes) → occurrences k out ≤ 1)
    → All IsWord words
    → IsCollected out words (collect out words)
unfolding collect
collect-IsCollected out [] few terms once read = record {
  few = omega (arith, few);
  terms = terms;
  once = once;
  grows = λ k h. h;
  complete = inr (λ k h long rare. absurd (omega (arith, h)));
}
collect-IsCollected out (raw ∷ words) few terms once (word, read) =
    elim (Bool-cases (is_noise out raw)) [
      | inl noise ↦
          let rest = collect-IsCollected out words few terms once read in
          rw (collect, noise)
            (record {
              few = rest.few;
              terms = rest.terms;
              once = rest.once;
              grows = rest.grows;
              complete =
                  complete-more raw words (collect out words)
                    (λ long rare. rest.grows raw (noise-is_old out raw noise long rare))
                    rest.complete;
            })
      | inr fresh ↦
          let (long, rare, new) = term out raw fresh in
          let more : List Bytes = out ++ raw ∷ [] in
          let terms' : All IsTerm more =
            All-append IsTerm out (raw ∷ []) terms ((word, long, rare), tt) in
          let once' : (k : Bytes) → occurrences k more ≤ 1 =
            λ k. once-more out raw k new (once k) in
          let grown' = λ (k : Bytes). grown out raw k in
          elim (Bool-cases (length more == default_max_keywords)) [
            | inl full ↦
                let size = (==_iff (length more) default_max_keywords).0 full in
                rw (collect, fresh, full)
                  (record {
                    few = omega (arith, size);
                    terms = terms';
                    once = once';
                    grows = grown';
                    complete = inl size;
                  })
            | inr room ↦
                let rest =
                  collect-IsCollected more words (below out raw few room) terms' once' read in
                rw (collect, fresh, room)
                  (record {
                    few = rest.few;
                    terms = rest.terms;
                    once = rest.once;
                    grows = λ k h. rest.grows k (grown out raw k h);
                    complete =
                        complete-more raw words (collect more words)
                          (λ l r. rest.grows raw (added out raw)) rest.complete;
                  })
          ]
    ]

-- The keywords of a task are at most twelve, each once, and each is a word of at least three bytes that
-- is no stopword; where they are fewer than twelve, every such word of the task is one.
pub keywords-IsCollected :
    (to_lower : Bytes → Bytes) (task : Bytes)
    → IsCollected [] (words_from [] (to_lower task)) (keywords to_lower task)
unfolding keywords
keywords-IsCollected to_lower task =
    let read = words_from-IsWord [] (to_lower task) tt in
    collect-IsCollected [] (words_from [] (to_lower task)) (omega arith) tt (λ k. omega arith) read
