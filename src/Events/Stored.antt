-- ===== src/Events/Stored.antt =====
-- About internal/events/events.go and store.go: what subscribers see, and when a send may panic.
use mathlib.Core.List.{Mem, mem-append_left, mem-append_right, mem-cons_self}
use mathlib.Core.Path.{subst}
use rojo.Base.{
  ℕ, ◌<◌, ◌⊎◌, zero, suc, Bytes, Bool, Bool-cases, true, false, ◌&&◌, List, [], ◌∷◌, Option, none,
  some, ◌≡◌, ◌≢◌, refl, sym, inl, inr, found, arith, All, All-append, bytes_eq, length, leb,
}
use rojo.Errors.{Error}
use rojo.Orchestration.Env.{Event, Call, returns, panics}
use rojo.Events.{
  Subscription, System, Appended, kept, refused, tore, keep_event, stamp, offer, deliver, subscribe,
  unsubscribe, take_from, send, receive, publish, take_event,
}

-- A run of the system, from what the store has and no subscribers on. With `tears` logs may be torn at the start,
-- and an Append may fail in the middle of a line.
pub data Reached (tears : Bool) : System → Type 0 where
  start :
      (history : List Event) (torn : Bytes → Bool)
      → (tears ≡ false → (id : Bytes) → torn id ≡ false)
      → Reached tears
          (record { history = history; torn = torn; swallowed = []; subs = []; received = [] })
  published :
      (came : Appended) (what : Bytes) (now : ℕ) (e : Event) {s : System}
      → Reached tears s
      → 0 < now
      → (tears ≡ false → (fault : Error) → came ≢ tore fault)
      → Reached tears (publish came what now e s).1
  subscribed :
      (job : Bytes) (buffer : ℕ) {s : System}
      → Reached tears s
      → Reached tears (record s { subs = subscribe job buffer s.subs })
  unsubscribed :
      (i : ℕ) {s : System}
      → Reached tears s
      → Reached tears (record s { subs = unsubscribe i s.subs })
  taken : (i : ℕ) {s : System} → Reached tears s → Reached tears (take_event i s)

-- An event with the time at which it was published, which the history has, or which was lost behind a
-- torn line.
abbrev pub IsKept : System → Event → Type 0
IsKept s e = (Mem e s.history ⊎ Mem e s.swallowed) × (e.created_at ≢ 0)

abbrev pub IsOpen : (Event → Type 0) → Subscription → Type 0
IsOpen h s = (s.listed ≡ true → s.closed ≡ false) × All h s.pending

abbrev pub IsSound : System → Type 0
IsSound s = All (IsOpen (IsKept s)) s.subs × All (IsKept s) s.received

module _ (h k : Event → Type 0) (f : (e : Event) → h e → k e) where
  grown_events : (es : List Event) → All h es → All k es
  grown_events [] a = tt
  grown_events (e ∷ es) (m, a) = (f e m, grown_events es a)

  grown_subs : (ss : List Subscription) → All (IsOpen h) ss → All (IsOpen k) ss
  grown_subs [] a = tt
  grown_subs (s ∷ ss) ((o, p), a) = ((o, grown_events s.pending p), grown_subs ss a)

-- To subscribers that are open, an event that is stored is delivered without a panic.
Delivered : (Event → Type 0) → Call (List Subscription × ℕ) → Type 0
Delivered h (panics v) = ⊥
Delivered h (returns (ss, n)) = All (IsOpen h) ss

offer-IsOpen :
    (h : Event → Type 0) (e : Event) (s : Subscription) → h e → IsOpen h s → IsOpen h (offer e s).0
unfolding offer
offer-IsOpen h e s m (o, p) = elim (Bool-cases (leb s.room (length s.pending))) [
  | inl f ↦ rw f (o, p)
  | inr f ↦ rw f (o, All-append h s.pending (e ∷ []) p (m, tt))
]

send-open : (e : Event) (s : Subscription) → s.closed ≡ false → send e s ≡ returns (offer e s)
unfolding send
send-open e s c = ground arith

got :
    (h : Event → Type 0) (r : Call (List Subscription × ℕ))
    → Delivered h r
    → (v : List Subscription × ℕ) × (r ≡ returns v) × All (IsOpen h) v.0
unfolding Delivered
got h (panics v) d = absurd d
got h (returns v) d = (v, refl, d)

deliver-Delivered :
    (h : Event → Type 0) (e : Event) (ss : List Subscription)
    → h e
    → All (IsOpen h) ss
    → Delivered h (deliver e ss)
unfolding deliver Delivered
deliver-Delivered h e [] m a = tt
deliver-Delivered h e (s ∷ ss) m ((o, p), a) =
    let (v, got', all') = got h (deliver e ss) (deliver-Delivered h e ss m a) in
    elim (Bool-cases (s.listed && bytes_eq s.job_id e.job_id)) [
      | inl t ↦
          let sent = send-open e s (o (ground arith)) in
          rw (t, sent, got') (offer-IsOpen h e s m (o, p), all')
      | inr t ↦ rw (t, got') ((o, p), all')
    ]

subscribe_sound :
    (h : Event → Type 0) (job : Bytes) (buffer : ℕ) (ss : List Subscription)
    → All (IsOpen h) ss
    → All (IsOpen h) (subscribe job buffer ss)
unfolding subscribe
subscribe_sound h job buffer ss a = All-append (IsOpen h) ss _ a ((λ l. refl, tt), tt)

unsubscribe_sound :
    (h : Event → Type 0) (i : ℕ) (ss : List Subscription)
    → All (IsOpen h) ss
    → All (IsOpen h) (unsubscribe i ss)
unfolding unsubscribe
unsubscribe_sound h i [] a = tt
unsubscribe_sound h zero (s ∷ ss) ((o, p), a) = ((λ l. absurd (let q = l in cc), p), a)
unsubscribe_sound h (suc i) (s ∷ ss) (q, a) = (q, unsubscribe_sound h i ss a)

-- What a receiver takes, and what it leaves.
Taken : (Event → Type 0) → Option Event × List Subscription → Type 0
Taken h (e, ss) = ((x : Event) → e ≡ some x → h x) × All (IsOpen h) ss

take_from-IsOpen :
    (h : Event → Type 0) (s : Subscription) (es : List Event)
    → (s.listed ≡ true → s.closed ≡ false)
    → All h es
    → s.pending ≡ es
    → ((x : Event) → (take_from s es).0 ≡ some x → h x) × IsOpen h (take_from s es).1
unfolding take_from
take_from-IsOpen h s [] o p e = (λ x q. absurd (let c = q in cc), (o, subst (All h) (sym e) tt))
take_from-IsOpen h s (e ∷ es) o (m, p) q =
    (λ x c. subst h (let same : e ≡ x = cc in same) m, (o, p))

receive-Taken :
    (h : Event → Type 0) (i : ℕ) (ss : List Subscription)
    → All (IsOpen h) ss
    → Taken h (receive i ss)
unfolding receive Taken
receive-Taken h i [] a = (λ x e. absurd (let q = e in cc), tt)
receive-Taken h zero (s ∷ ss) (q, a) =
    let (t, u) = take_from-IsOpen h s s.pending q.0 q.1 refl in (t, (u, a))
receive-Taken h (suc i) (s ∷ ss) (q, a) = let (t, u) = receive-Taken h i ss a in (t, (q, u))

stamp-timed : (now : ℕ) (e : Event) → 0 < now → (stamp now e).created_at ≢ 0
unfolding stamp
stamp-timed now e n = ground arith

-- What an acknowledged Append keeps, and that the event is then kept.
keep_event-IsKept :
    (e : Event) (s : System)
    → e.created_at ≢ 0
    → IsKept (keep_event e s) e
      × ((x : Event) → IsKept s x → IsKept (keep_event e s) x)
      × ((keep_event e s).received ≡ s.received)
unfolding keep_event
keep_event-IsKept e s n = elim (Bool-cases (s.torn e.job_id)) [
  | inl t ↦
      rw (keep_event, t)
        (
          (inr (mem-append_right s.swallowed mem-cons_self), n),
          λ x (m, z). (elim m [ inl a ↦ inl a | inr a ↦ inr (mem-append_left (e ∷ []) a) ], z),
          refl,
        )
  | inr t ↦
      rw (keep_event, t)
        (
          (inl (mem-append_right s.history mem-cons_self), n),
          λ x (m, z). (elim m [ inl a ↦ inl (mem-append_left (e ∷ []) a) | inr a ↦ inr a ], z),
          refl,
        )
]

publish-IsSound :
    (came : Appended) (what : Bytes) (now : ℕ) (e : Event) (s : System)
    → 0 < now
    → IsSound s
    → ((v : Bytes) → (publish came what now e s).0 ≢ panics v)
      × IsSound (publish came what now e s).1
unfolding publish
publish-IsSound (refused fault) what now e s n (a, r) = (λ v h. absurd (let q = h in cc), (a, r))
publish-IsSound (tore fault) what now e s n (a, r) = (λ v h. absurd (let q = h in cc), (a, r))
publish-IsSound kept what now e s n (a, r) =
    let x = stamp now e in
    let s1 = keep_event x s in
    let (new, grows, same) = keep_event-IsKept x s (stamp-timed now e n) in
    let (v, got', all') = got (IsKept s1) (deliver x s.subs) (
      deliver-Delivered (IsKept s1) x s.subs new
        (grown_subs (IsKept s) (IsKept s1) grows s.subs a)) in
    rw (got', publish)
      (
        λ w h. absurd (let q = h in cc),
        (all', rw same (grown_events (IsKept s) (IsKept s1) grows s.received r)),
      )

take_event-IsSound : (i : ℕ) (s : System) → IsSound s → IsSound (take_event i s)
unfolding take_event Taken
take_event-IsSound i s (a, r) =
    let (t, u) = receive-Taken (IsKept s) i s.subs a in
    elim (found (receive i s.subs).0) [
      | inl m ↦ rw (m, take_event) (a, r)
      | inr (x, m) ↦ rw (m, take_event) (u, All-append (IsKept s) s.received (x ∷ []) r (t x m, tt))
    ]

steps-IsSound : {tears : Bool} {s : System} → Reached tears s → IsSound s
steps-IsSound (start history torn h) = (tt, tt)
steps-IsSound (published came what now e {s} r n h) =
    (publish-IsSound came what now e s n (steps-IsSound r)).1
steps-IsSound (subscribed job buffer {s} r) =
    let (a, x) = steps-IsSound r in (subscribe_sound (IsKept s) job buffer s.subs a, x)
steps-IsSound (unsubscribed i {s} r) =
    let (a, x) = steps-IsSound r in (unsubscribe_sound (IsKept s) i s.subs a, x)
steps-IsSound (taken i {s} r) = take_event-IsSound i s (steps-IsSound r)

-- No log is torn, and no event was lost.
IsWhole : System → Type 0
IsWhole s = ((id : Bytes) → s.torn id ≡ false) × (s.swallowed ≡ [])

keep_event-IsWhole : (e : Event) (s : System) → IsWhole s → IsWhole (keep_event e s)
unfolding keep_event IsWhole
keep_event-IsWhole e s (t, w) = rw (keep_event, t e.job_id) (t, w)

delivered-IsWhole :
    (s : System) (r : Call (List Subscription × ℕ))
    → IsWhole s
    → IsWhole (
        let done : Call (Option Error) × System = elim r [
          | panics v ↦ (panics v, s)
          | returns (subs, drops) ↦ (returns none, record s { subs = subs })
        ] in
        done.1)
unfolding IsWhole
delivered-IsWhole s (panics v) w = w
delivered-IsWhole s (returns (subs, drops)) w = w

publish-IsWhole :
    (came : Appended) (what : Bytes) (now : ℕ) (e : Event) (s : System)
    → ((fault : Error) → came ≢ tore fault)
    → IsWhole s
    → IsWhole (publish came what now e s).1
unfolding publish
publish-IsWhole (refused fault) what now e s h w = w
publish-IsWhole (tore fault) what now e s h w = absurd (h fault refl)
publish-IsWhole kept what now e s h w =
    delivered-IsWhole (keep_event (stamp now e) s) (deliver (stamp now e) s.subs)
      (keep_event-IsWhole (stamp now e) s w)

take_event-IsWhole : (i : ℕ) (s : System) → IsWhole s → IsWhole (take_event i s)
unfolding take_event IsWhole
take_event-IsWhole i s w = elim (found (receive i s.subs).0) [
  | inl m ↦ rw (m, take_event) w
  | inr (x, m) ↦ rw (m, take_event) w
]

steps-IsWhole : {s : System} → Reached false s → IsWhole s
unfolding IsWhole
steps-IsWhole (start history torn h) = (h refl, refl)
steps-IsWhole (published came what now e {s} r n h) =
    publish-IsWhole came what now e s (h refl) (steps-IsWhole r)
steps-IsWhole (subscribed job buffer {s} r) = steps-IsWhole r
steps-IsWhole (unsubscribed i {s} r) = steps-IsWhole r
steps-IsWhole (taken i {s} r) = take_event-IsWhole i s (steps-IsWhole r)

-- In every run of the bus and its store, each event that waits at a subscriber or has been received has
-- a time, and it is in the history or was lost behind a torn line. Where no log was torn at the start
-- and no Append failed in the middle of a line, none was lost, so all of them are in the history. No
-- publication in a run panics, so a send never meets a closed channel, whoever unsubscribes before it.
pub Reached-IsSound :
    {tears : Bool} {s : System}
    → Reached tears s
    → IsSound s
      × (tears ≡ false → s.swallowed ≡ [])
      × ((came : Appended) (what : Bytes) (now : ℕ) (e : Event) (v : Bytes)
          → 0 < now
          → (publish came what now e s).0 ≢ panics v)
unfolding IsWhole
Reached-IsSound {tears} {s} r =
    let sound = steps-IsSound r in
    (
      sound,
      λ h. (steps-IsWhole (subst (λ t. Reached t s) h r)).1,
      λ came what now e v n. (publish-IsSound came what now e s n sound).0 v,
    )
