-- ===== src/Ipam/New.antt =====
-- `New` of pkg/ipam/ipam.go.
use kloudstack.Base.Ending.{Ending, fatal}
use kloudstack.K8s.{ClientGo, new_client}

-- A client that cannot be made ends the program.
unfoldable pub new_ipam :
    {W Config Client Dynamic : Type 0}
    → ClientGo W Config Client Dynamic
    → (Client → W → Ending × W)
    → W
    → Ending × W
new_ipam go k w = fatal (new_client go w, w) k
