-- ===== src/Orchestration/Run/Keeps.antt =====
-- Rules for what every step of a run keeps while it goes on, and for what holds where it leaves.
use rojo.Base.{Bool, true, false, Option, none, some, Bytes, ◌∷◌, ◌≡◌, refl, if◌then◌else◌}
use rojo.Errors.{Error, Result, ok, err}
use rojo.Orchestration.Env.{Call, returns, panics}
use rojo.Orchestration.Run.{
  Run, Exit, next, stop, panicking, exhausted, M, pure, continue, ◌>>=◌, gets, modify, panic,
  on_option, on_result, exit_of, ask, observe, note, Effect, when_some, when,
}

-- How a step left the sequence of steps.
pub data Left : Type 0 where
  stopped broke spent : Left

module _ {W A : Type 0} where
  -- `Q` holds of the result where a step goes on, and `X` where it leaves.
  abbrev pub Post : (A → Run W → Type 0) → (Left → Run W → Type 0) → Exit A × Run W → Type 0
  Post Q X (next a, s) = Q a s
  Post Q X (stop e, s) = X stopped s
  Post Q X (panicking v, s) = X broke s
  Post Q X (exhausted, s) = X spent s

  pub record Hoare (P : Run W → Type 0) (m : M W A) (Q : A → Run W → Type 0)
      (X : Left → Run W → Type 0) : Type 0 where
    pub at : (s : Run W) → P s → Post Q X (m s)

  -- `I` holds from step to step.
  abbrev pub Keeps : (Run W → Type 0) → (Left → Run W → Type 0) → M W A → Type 0
  Keeps I X m = Hoare I m (λ _. I) X

module _ {W A B : Type 0} {X : Left → Run W → Type 0} where
  Hoare-continue :
      (R : A → Run W → Type 0) (Q : B → Run W → Type 0) (e : Exit A) (s : Run W) (f : A → M W B)
      → ((a : A) → Hoare (R a) (f a) Q X)
      → Post R X (e, s)
      → Post Q X (continue e f s)
  Hoare-continue R Q (next a) s f k h = (k a).at s h
  Hoare-continue R Q (stop e) s f k h = h
  Hoare-continue R Q (panicking v) s f k h = h
  Hoare-continue R Q exhausted s f k h = h

  pub Hoare-bind :
      {P : Run W → Type 0} {Q : B → Run W → Type 0} (R : A → Run W → Type 0) (m : M W A)
      (f : A → M W B)
      → Hoare P m R X
      → ((a : A) → Hoare (R a) (f a) Q X)
      → Hoare P (m >>= f) Q X
  unfolding ◌>>=◌
  Hoare-bind {Q = Q} R m f km kf = record {
    at = λ s h. let (e, s') = m s in Hoare-continue R Q e s' f kf (km.at s h);
  }

  pub Keeps-bind :
      {I : Run W → Type 0} (m : M W A) (f : A → M W B)
      → Keeps I X m
      → ((a : A) → Keeps I X (f a))
      → Keeps I X (m >>= f)
  Keeps-bind {I} m f km kf = Hoare-bind (λ _. I) m f km kf

-- `I` does not look at the world, and a panic may end the run wherever it holds.
pub record IsFrame {W : Type 0} (I : Run W → Type 0) (X : Left → Run W → Type 0) : Type 0 where
  pub anywhere : (s : Run W) (w : W) → I s → I (record s { world = w })
  pub breaks : (s : Run W) → I s → X broke s

module _ {W A : Type 0} (I : Run W → Type 0) (X : Left → Run W → Type 0) where
  Post-exit_of : (r : Call A) (s : Run W) → I s → X broke s → Post (λ _. I) X (exit_of r, s)
  Post-exit_of (returns a) s h x = h
  Post-exit_of (panics v) s h x = x

module _ {W A : Type 0} {I : Run W → Type 0} {X : Left → Run W → Type 0} where
  pub Keeps-pure : (a : A) → Keeps I X (pure a)
  unfolding pure
  Keeps-pure a = record { at = λ s h. h }

  pub Keeps-gets : (f : Run W → A) → Keeps I X (gets f)
  unfolding gets
  Keeps-gets f = record { at = λ s h. h }

  pub Keeps-panic : (v : Bytes) → IsFrame I X → Keeps I X (panic {A = A} v)
  unfolding panic
  Keeps-panic v l = record { at = l.breaks }

  pub Keeps-if :
      (b : Bool) (m n : M W A) → Keeps I X m → Keeps I X n → Keeps I X (if b then m else n)
  Keeps-if true m n km kn = km
  Keeps-if false m n km kn = kn

  pub Keeps-on_option :
      {C : Type 0} (o : Option C) (m : M W A) (f : C → M W A)
      → Keeps I X m
      → ((c : C) → Keeps I X (f c))
      → Keeps I X (on_option o m f)
  unfolding on_option
  Keeps-on_option none m f km kf = km
  Keeps-on_option (some c) m f km kf = kf c

  pub Keeps-on_result :
      {C : Type 0} (r : Result C) (g : Error → M W A) (f : C → M W A)
      → ((e : Error) → Keeps I X (g e))
      → ((c : C) → Keeps I X (f c))
      → Keeps I X (on_result r g f)
  unfolding on_result
  Keeps-on_result (err e) g f kg kf = kg e
  Keeps-on_result (ok c) g f kg kf = kf c

  pub Keeps-when_some :
      (o : Option A) (f : A → M W (Unit {0}))
      → ((a : A) → Keeps I X (f a))
      → Keeps I X (when_some o f)
  unfolding when_some
  Keeps-when_some none f k = record { at = λ s h. unfold pure in h }
  Keeps-when_some (some a) f k = k a

  pub Keeps-ask : (call : W → Call A × W) → IsFrame I X → Keeps I X (ask call)
  unfolding ask
  Keeps-ask call l = record {
    at = λ s h.
        let (r, w) = call s.world in
        let h' = l.anywhere s w h in Post-exit_of I X r (record s { world = w }) h' (l.breaks _ h');
  }

  pub Keeps-observe : (call : W → A × W) → IsFrame I X → Keeps I X (observe call)
  unfolding observe
  Keeps-observe call l = record { at = λ s h. l.anywhere s (call s.world).1 h }

module _ {W : Type 0} {I : Run W → Type 0} {X : Left → Run W → Type 0} where
  pub Keeps-when : (b : Bool) (m : M W (Unit {0})) → Keeps I X m → Keeps I X (when b m)
  unfolding when
  Keeps-when true m k = k
  Keeps-when false m k = Keeps-pure tt

  pub Keeps-note :
      (e : Effect) → ((s : Run W) → I s → I (record s { trace = e ∷ s.trace })) → Keeps I X (note e)
  unfolding note
  Keeps-note e k = record { at = k }

  pub Keeps-modify : (f : Run W → Run W) → ((s : Run W) → I s → I (f s)) → Keeps I X (modify f)
  unfolding modify
  Keeps-modify f k = record { at = k }

module _ {W A : Type 0} where
  Post-and :
      (Q Q' : A → Run W → Type 0) (X X' : Left → Run W → Type 0) (r : Exit A × Run W)
      → Post Q X r
      → Post Q' X' r
      → Post (λ a s. Q a s × Q' a s) X r
  Post-and Q Q' X X' (next a, s) h k = (h, k)
  Post-and Q Q' X X' (stop e, s) h k = h
  Post-and Q Q' X X' (panicking v, s) h k = h
  Post-and Q Q' X X' (exhausted, s) h k = h

  Post-mono :
      (Q Q' : A → Run W → Type 0) (X : Left → Run W → Type 0) (r : Exit A × Run W)
      → ((a : A) (s : Run W) → Q a s → Q' a s)
      → Post Q X r
      → Post Q' X r
  Post-mono Q Q' X (next a, s) k h = k a s h
  Post-mono Q Q' X (stop e, s) k h = h
  Post-mono Q Q' X (panicking v, s) k h = h
  Post-mono Q Q' X (exhausted, s) k h = h

  pub Post-any : (r : Exit A × Run W) → Post (λ _ _. Unit {0}) (λ _ _. Unit {0}) r
  Post-any (next a, s) = tt
  Post-any (stop e, s) = tt
  Post-any (panicking v, s) = tt
  Post-any (exhausted, s) = tt

  -- Two facts about one step; the second says nothing of where the step leaves.
  pub Hoare-and :
      {P P' : Run W → Type 0} {Q Q' : A → Run W → Type 0} {X X' : Left → Run W → Type 0} {m : M W A}
      → Hoare P m Q X
      → Hoare P' m Q' X'
      → Hoare (λ s. P s × P' s) m (λ a s. Q a s × Q' a s) X
  Hoare-and {Q = Q} {Q' = Q'} {X = X} {X' = X'} {m = m} h k = record {
    at = λ s p. Post-and Q Q' X X' (m s) (h.at s p.0) (k.at s p.1);
  }

  pub Hoare-mono :
      {P P' : Run W → Type 0} {Q Q' : A → Run W → Type 0} {X : Left → Run W → Type 0} {m : M W A}
      → ((s : Run W) → P' s → P s)
      → ((a : A) (s : Run W) → Q a s → Q' a s)
      → Hoare P m Q X
      → Hoare P' m Q' X
  Hoare-mono {Q = Q} {Q' = Q'} {X = X} {m = m} kp kq h = record {
    at = λ s p. Post-mono Q Q' X (m s) kq (h.at s (kp s p));
  }

  pub Hoare-gets :
      {P : Run W → Type 0} {X : Left → Run W → Type 0} (f : Run W → A)
      → Hoare P (gets f) (λ a s. P s × (a ≡ f s)) X
  unfolding gets
  Hoare-gets f = record { at = λ s p. (p, refl) }

  pub Hoare-if :
      {P : Run W → Type 0} {Q : A → Run W → Type 0} {X : Left → Run W → Type 0} (b : Bool)
      (m n : M W A)
      → Hoare P m Q X
      → Hoare P n Q X
      → Hoare P (if b then m else n) Q X
  Hoare-if true m n km kn = km
  Hoare-if false m n km kn = kn

  pub Hoare-on_option :
      {C : Type 0} {P : Run W → Type 0} {Q : A → Run W → Type 0} {X : Left → Run W → Type 0}
      (o : Option C) (m : M W A) (f : C → M W A)
      → Hoare P m Q X
      → ((c : C) → Hoare P (f c) Q X)
      → Hoare P (on_option o m f) Q X
  unfolding on_option
  Hoare-on_option none m f km kf = km
  Hoare-on_option (some c) m f km kf = kf c

  pub Hoare-pure :
      {P : Run W → Type 0} {Q : A → Run W → Type 0} {X : Left → Run W → Type 0} (a : A)
      → ((s : Run W) → P s → Q a s)
      → Hoare P (pure a) Q X
  unfolding pure
  Hoare-pure a k = record { at = k }

module _ {W : Type 0} {P Q : Run W → Type 0} {X : Left → Run W → Type 0} where
  pub Hoare-modify :
      (f : Run W → Run W) → ((s : Run W) → P s → Q (f s)) → Hoare P (modify f) (λ _. Q) X
  unfolding modify
  Hoare-modify f k = record { at = k }

  pub Hoare-when :
      (b : Bool) (m : M W (Unit {0}))
      → (b ≡ true → Hoare P m (λ _. Q) X)
      → (b ≡ false → (s : Run W) → P s → Q s)
      → Hoare P (when b m) (λ _. Q) X
  unfolding when
  Hoare-when true m k h = k refl
  Hoare-when false m k h = Hoare-pure tt (h refl)

module _ {W A : Type 0} (F : Run W → Type 0) where
  -- Kept however the step ends.
  abbrev pub Always : M W A → Type 0
  Always m = Keeps F (λ _. F) m

  pub Post-same : (r : Exit A × Run W) → Post (λ _. F) (λ _. F) r → F r.1
  Post-same (next a, s) h = h
  Post-same (stop e, s) h = h
  Post-same (panicking v, s) h = h
  Post-same (exhausted, s) h = h

  pub Always-at : (m : M W A) (s : Run W) → Always m → F s → F (m s).1
  Always-at m s k h = Post-same (m s) (k.at s h)

pub ruleset keeps_rules = (
  Keeps-pure, Keeps-bind, Keeps-gets, Keeps-panic, Keeps-if, Keeps-when_some, Keeps-ask,
  Keeps-observe, Keeps-when, Keeps-on_option, Keeps-on_result,
)
