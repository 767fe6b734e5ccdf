-- ===== src/Queue/Order.antt =====
-- About internal/queue/queue.go: the ids that went in and the ids that came out.
use rojo.Base.{
  ℕ, ◌+◌, ◌≤◌, Bytes, Bool-cases, List, [], ◌∷◌, ◌++◌, length, length-append, ltb, none, ◌≡◌, refl,
  sym, ◌∙◌, ap, arith, inl, inr,
}
use mathlib.Core.List.{append_assoc}
use rojo.Orchestration.Env.{returns}
use rojo.Queue.{Queue, new_queue, enqueue, receive, receive_from, close, queue_length, item}

-- The life of a queue of `n` places: the accepted ids, the received ids, and the queue.
pub data Life (n : ℕ) : List Bytes → List Bytes → Queue → Type 0 where
  born : Life n [] [] (new_queue n)
  accepts :
      {s r : List Bytes} {q : Queue} (id : Bytes)
      → Life n s r q
      → (enqueue id q).0 ≡ returns none
      → Life n (s ++ id ∷ []) r (enqueue id q).1
  hands_out :
      {s r : List Bytes} {q : Queue} (id : Bytes)
      → Life n s r q
      → (receive q).0 ≡ item id
      → Life n s (r ++ id ∷ []) (receive q).1
  closes : {s r : List Bytes} {q : Queue} → Life n s r q → Life n s r (close q).1

abbrev pub Ordered : List Bytes → List Bytes → Queue → Type 0
Ordered s r q = (s ≡ r ++ q.items) × (queue_length q ≤ q.capacity)

enqueue-Ordered :
    (s r : List Bytes) (q : Queue) (id : Bytes)
    → Ordered s r q
    → (enqueue id q).0 ≡ returns none
    → Ordered (s ++ id ∷ []) r (enqueue id q).1
unfolding enqueue queue_length
enqueue-Ordered s r q id o h = elim (Bool-cases q.closed) [
  | inl e ↦ absurd (ground (arith, e, h))
  | inr e ↦ elim (Bool-cases (ltb (length q.items) q.capacity)) [
    | inl f ↦
        let room : length q.items + 1 ≤ q.capacity = ground (arith, f) in
        rw (enqueue, e, f)
          (
            ap (λ l. l ++ id ∷ []) o.0 ∙ append_assoc r q.items (id ∷ []),
            omega (arith, length-append q.items (id ∷ []), room),
          )
    | inr f ↦ absurd (ground (arith, e, f, h))
  ]
]

handed-Ordered :
    (s r : List Bytes) (q : Queue) (id : Bytes) (ids : List Bytes)
    → s ≡ r ++ ids
    → length ids ≤ q.capacity
    → (receive_from ids q).0 ≡ item id
    → Ordered s (r ++ id ∷ []) (receive_from ids q).1
unfolding queue_length
handed-Ordered s r q id [] e b h = absurd (ground (arith, h))
handed-Ordered s r q id (x ∷ ids) e b h =
    let same : id ≡ x = cc in (rw same (e ∙ sym (append_assoc r (x ∷ []) ids)), omega arith)

receive-Ordered :
    (s r : List Bytes) (q : Queue) (id : Bytes)
    → Ordered s r q
    → (receive q).0 ≡ item id
    → Ordered s (r ++ id ∷ []) (receive q).1
unfolding receive queue_length
receive-Ordered s r q id o h = handed-Ordered s r q id q.items o.0 o.1 h

close-Ordered : (s r : List Bytes) (q : Queue) → Ordered s r q → Ordered s r (close q).1
unfolding close queue_length
close-Ordered s r q o = elim (Bool-cases q.closed) [
  | inl e ↦ rw (close, e) o
  | inr e ↦ rw (close, e) o
]

-- However sends, receives and a close of a queue follow each other, the accepted ids are the ids
-- handed out and behind them those that wait, in that order, and never more wait than there are
-- places.
pub Life-Ordered : (n : ℕ) (s r : List Bytes) (q : Queue) → Life n s r q → Ordered s r q
unfolding new_queue queue_length
Life-Ordered n _ _ _ born = (refl, omega arith)
Life-Ordered n _ r _ (accepts {s} {q = q} id l h) =
    enqueue-Ordered s r q id (Life-Ordered n s r q l) h
Life-Ordered n s _ _ (hands_out {r = r} {q} id l h) =
    receive-Ordered s r q id (Life-Ordered n s r q l) h
Life-Ordered n s r _ (closes {q = q} l) = close-Ordered s r q (Life-Ordered n s r q l)
