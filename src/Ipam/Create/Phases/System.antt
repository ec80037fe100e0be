-- ===== src/Ipam/Create/Phases/System.antt =====
-- Two calls of `createClusterIP` (pkg/ipam/ipam.go) that are served at the same time: the accesses of
-- each, one by one and in any order, between which others change the world.
use kloudstack.Ipam.Finders.{Env}
use kloudstack.Ipam.Create.Phases.{Phase, step}

-- Two calls, and the world.
pub record System (W : Type 0) : Type 0 where
  pub one : Phase
  pub two : Phase
  pub world : W

module _ {W : Type 0} (env : Env W) (Others : W → W → Type 0) where
  -- One access of either call, or a change by others.
  pub data Turn (s : System W) : System W → Type 0 where
    turn_one :
        Turn s (record s { one = (step env s.one s.world).0; world = (step env s.one s.world).1 })
    turn_two :
        Turn s (record s { two = (step env s.two s.world).0; world = (step env s.two s.world).1 })
    meanwhile : (w : W) → Others s.world w → Turn s (record s { world = w })

  pub data Reach (s : System W) : System W → Type 0 where
    here : Reach s s
    after : {t u : System W} → Reach s t → Turn t u → Reach s u
