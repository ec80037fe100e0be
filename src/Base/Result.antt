-- ===== src/Base/Result.antt =====
-- How a Go call ends, and calls that change a world: a result with the world as it is then.
pub mod Laws
use mathlib.Core.Path.{◌≡◌, refl}
use mathlib.Core.List.{◌++◌}
use mathlib.Core.Option.{Option, none, some}
use kloudstack.Base.Text.{Text}

-- What the API's error predicates (`IsNotFound`, `IsAlreadyExists`) tell apart.
pub data Reason : Type 0 where
  not_found already_exists other : Reason

pub record Error : Type 0 where
  pub reason : Reason
  pub message : Text

-- An error made by `fmt.Errorf` and the like.
abbrev pub failure : Text → Error
failure t = record { reason = other; message = t }

-- `panic` is a run-time panic: a nil pointer followed, an index out of range.
pub data Result {ℓ} (A : Type ℓ) : Type ℓ where
  ok : A → Result A
  err : Error → Result A
  panic : Result A

-- `fmt.Errorf` with the error at its end.
abbrev pub wrapped : {A : Type 0} → Text → Result A → Result A
wrapped before (ok a) = ok a
wrapped before (err e) = err (failure (before ++ e.message))
wrapped before panic = panic

-- A step on the value of a call that succeeded.
abbrev pub and_then : {A B : Type 0} → Result A → (A → Result B) → Result B
and_then (ok a) f = f a
and_then (err e) f = err e
and_then panic f = panic

abbrev pub Action : Type 0 → Type 0 → Type 0
Action W A = W → Result A × W

module _ {W : Type 0} where
  abbrev pub pure : {A : Type 0} → A → Action W A
  pure a w = (ok a, w)

  abbrev pub fail : {A : Type 0} → Error → Action W A
  fail e w = (err e, w)

  abbrev pub crash : {A : Type 0} → Action W A
  crash w = (panic, w)

  -- A read of the world, which leaves it alone.
  abbrev pub reads : {A : Type 0} → (W → Result A) → Action W A
  reads f w = (f w, w)

  abbrev pub wrap : {A : Type 0} → Text → Action W A → Action W A
  wrap before m w = let (r, v) = m w in (wrapped before r, v)

  abbrev pub bind : {A B : Type 0} → Result A × W → (A → Action W B) → Result B × W
  bind (ok a, w) f = f a w
  bind (err e, w) f = (err e, w)
  bind (panic, w) f = (panic, w)

  infixl 5 ◌>>=◌ ◌>>◌
  abbrev pub ◌>>=◌ : {A B : Type 0} → Action W A → (A → Action W B) → Action W B
  ◌>>=◌ m f w = bind (m w) f

  abbrev pub ◌>>◌ : {A B : Type 0} → Action W A → Action W B → Action W B
  ◌>>◌ m k w = bind (m w) (λ _. k)

  -- The call's error as a value, for code that looks at it or goes on after it.
  abbrev pub attempted : {A : Type 0} → Result A × W → Result (Result A) × W
  attempted (ok a, w) = (ok (ok a), w)
  attempted (err e, w) = (ok (err e), w)
  attempted (panic, w) = (panic, w)

  abbrev pub attempt : {A : Type 0} → Action W A → Action W (Result A)
  attempt m w = attempted (m w)

  -- An error that is logged, or assigned to `_`, and no more.
  abbrev pub logged : {A : Type 0} → Action W A → Action W (Unit {0})
  logged m = attempt m >>= λ _. pure tt

  abbrev pub or_fail : {A : Type 0} → Option A → Error → Action W A
  or_fail none e = fail e
  or_fail (some a) e = pure a

-- Inversion of a step that succeeds.
pub bind-ok :
    {W A B : Type 0} (m : Result A × W) (f : A → W → Result B × W) {b : B} {w : W}
    → bind m f ≡ (ok b, w)
    → (a : A) × (v : W) × (m ≡ (ok a, v)) × (f a v ≡ (ok b, w))
bind-ok (ok a, v) f e = (a, v, refl, e)
bind-ok (err x, v) f e = absurd (cc)
bind-ok (panic, v) f e = absurd (cc)
