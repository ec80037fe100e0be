-- ===== src/Api/Kube.antt =====
-- The controller-runtime client, for one kind of object over a world `W`: a parameter, since its
-- code is not part of the repository.
use kloudstack.Base.{List}
use kloudstack.Base.Int.{ℤ}
use kloudstack.Base.Text.{Text}
use kloudstack.Base.Result.{Result, Action}

-- A field selector: paths of fields and the values that they must have.
abbrev pub Selector : Type 0
Selector = List (Text × Text)

-- Every write returns the object as the server has stored it, which Go writes back to its argument.
pub record Kube (W Obj : Type 0) : Type 0 where
  pub get : Text → Text → W → Result Obj
  -- All namespaces; the limit as it is passed.
  pub list : Selector → ℤ → W → Result (List Obj)
  pub create : Obj → Action W Obj
  pub update : Obj → Action W Obj
  pub update_status : Obj → Action W Obj
  pub patch : Obj → Action W Obj
  -- By namespace and name.
  pub delete : Text → Text → Action W (Unit {0})
  -- By namespace and selector.
  pub delete_all_of : Text → Selector → Action W (Unit {0})
