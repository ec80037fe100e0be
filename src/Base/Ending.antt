-- ===== src/Base/Ending.antt =====
-- How a command's program ends: by its end, by a status, by a run-time panic, or not (`select {}`).
use Prim.Native.Nat.{ℕ}
use kloudstack.Base.Result.{Result, ok, err, panic}

pub data Ending : Type 0 where
  finished : Ending
  blocked : Ending
  exited : ℕ → Ending
  panicked : Ending

-- After a call whose error ends the program with a status; `klog.Fatalf` has 255.
abbrev pub or_exit : {W A : Type 0} → ℕ → Result A × W → (A → W → Ending × W) → Ending × W
or_exit code (ok a, w) k = k a w
or_exit code (err e, w) k = (exited code, w)
or_exit code (panic, w) k = (panicked, w)

abbrev pub fatal : {W A : Type 0} → Result A × W → (A → W → Ending × W) → Ending × W
fatal m k = or_exit 255 m k
