-- ===== src/Orchestration/Run/Yields.antt =====
-- Rules for what is said of the result alone of a step of a run.
use rojo.Base.{is_some, Bool, true, false, Option, none, some, ◌≡◌, refl, if◌then◌else◌}
use rojo.Errors.{Error, Result, ok, err}
use rojo.Orchestration.Run.{M, pure, ◌>>=◌, on_option, on_result}
use rojo.Orchestration.Run.Keeps.{Hoare, Hoare-bind, Post-any}

module _ {W A : Type 0} where
  -- What is said of a result alone.
  abbrev pub Yields : (A → Type 0) → M W A → Type 0
  Yields Q m = Hoare (λ _. Unit {0}) m (λ a _. Q a) (λ _ _. Unit {0})

  anything : (m : M W A) → Hoare (λ _. Unit {0}) m (λ _ _. Unit {0}) (λ _ _. Unit {0})
  anything m = record { at = λ s _. Post-any (m s) }

  pub Yields-pure : {Q : A → Type 0} (a : A) → Q a → Yields Q (pure a)
  unfolding pure
  Yields-pure a h = record { at = λ s _. h }

module _ {W A B : Type 0} {Q : B → Type 0} where
  pub Yields-bind : (m : M W A) (f : A → M W B) → ((a : A) → Yields Q (f a)) → Yields Q (m >>= f)
  Yields-bind m f k = Hoare-bind (λ _ _. Unit {0}) m f (anything m) k

  pub Yields-then :
      {R : A → Type 0} (m : M W A) (f : A → M W B)
      → Yields R m
      → ((a : A) → R a → Yields Q (f a))
      → Yields Q (m >>= f)
  Yields-then {R} m f km k =
      Hoare-bind (λ a _. R a) m f km (λ a. record { at = λ s h. (k a h).at s tt })

  pub Yields-on_option :
      (o : Option A) (m : M W B) (f : A → M W B)
      → Yields Q m
      → ((a : A) → Yields Q (f a))
      → Yields Q (on_option o m f)
  unfolding on_option
  Yields-on_option none m f km kf = km
  Yields-on_option (some a) m f km kf = kf a

  pub Yields-on_known :
      (o : Option A) (m : M W B) (f : A → M W B)
      → (is_some o ≡ false → Yields Q m)
      → ((a : A) → Yields Q (f a))
      → Yields Q (on_option o m f)
  unfolding on_option
  Yields-on_known none m f km kf = km refl
  Yields-on_known (some a) m f km kf = kf a

  pub Yields-on_result :
      (r : Result A) (g : Error → M W B) (f : A → M W B)
      → ((e : Error) → Yields Q (g e))
      → ((a : A) → Yields Q (f a))
      → Yields Q (on_result r g f)
  unfolding on_result
  Yields-on_result (err e) g f kg kf = kg e
  Yields-on_result (ok a) g f kg kf = kf a

module _ {W B : Type 0} {Q : B → Type 0} where
  pub Yields-if : (b : Bool) (m n : M W B) → Yields Q m → Yields Q n → Yields Q (if b then m else n)
  Yields-if true m n km kn = km
  Yields-if false m n km kn = kn

pub ruleset yields_rules = (Yields-pure, Yields-bind, Yields-on_option, Yields-on_result, Yields-if)
