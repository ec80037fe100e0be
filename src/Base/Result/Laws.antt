-- ===== src/Base/Result/Laws.antt =====
-- Steps that read the world, and calls that leave it alone when they fail.
use mathlib.Core.Path.{◌≡◌, refl}
use mathlib.Core.Logic.{◌≢◌}
use native.Mathlib.Omega.{arith}
use kloudstack.Base.Text.{Text}
use kloudstack.Base.Result.{Result, ok, err, panic, bind, wrapped}

-- Inversion of a read that is followed by a step, when both succeed.
pub reads-ok :
    {W A B : Type 0} (r : Result A) (w : W) (f : A → W → Result B × W) {b : B} {w' : W}
    → bind (r, w) f ≡ (ok b, w')
    → (a : A) × (r ≡ ok a) × (f a w ≡ (ok b, w'))
reads-ok (ok a) w f e = (a, refl, e)
reads-ok (err x) w f e = absurd (cc)
reads-ok panic w f e = absurd (cc)

pub wrapped-ok :
    {A : Type 0} (before : Text) (r : Result A) {a : A} → wrapped before r ≡ ok a → r ≡ ok a
wrapped-ok before (ok b) e = e
wrapped-ok before (err x) e = absurd (cc)
wrapped-ok before panic e = absurd (cc)

-- What two calls that succeed and are equal have returned and done.
pub returned :
    {W A : Type 0} {a b : A} {v w : W}
    → ◌≡◌ {A = Result A × W} (ok a, v) (ok b, w)
    → (a ≡ b) × (v ≡ w)
returned e = (ground arith, ground arith)

-- A step after a call that does not panic.
pub bind-safe :
    {W A B : Type 0} (m : Result A × W) (k : A → W → Result B × W)
    → m.0 ≢ panic
    → ((a : A) (v : W) → (k a v).0 ≢ panic)
    → (bind m k).0 ≢ panic
bind-safe (ok a, v) k h g = g a v
bind-safe (err x, v) k h g = λ e. cc
bind-safe (panic, v) k h g = λ e. h refl
