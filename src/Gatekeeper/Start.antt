-- ===== src/Gatekeeper/Start.antt =====
-- `New` and `Start` of pkg/webhooks/gatekeeper/gatekeeper.go over package http, which is a parameter.
use kloudstack.Base.{◌∷◌, Bool, if◌then◌else◌}
use kloudstack.Base.Text.{Text, lit}
use kloudstack.Base.Result.{Action}
use kloudstack.Base.Ending.{Ending, fatal}
use kloudstack.Config.{Viper}
use kloudstack.K8s.{ClientGo, new_client}

-- `HandleFunc` of a path with the handler `H`, and the two ways to serve an address.
pub record Http (W H : Type 0) : Type 0 where
  pub handle_func : Text → H → W → W
  pub listen_and_serve : Text → Action W (Unit {0})
  pub listen_and_serve_tls : Text → Text → Text → Action W (Unit {0})

-- `New`
unfoldable pub new_gatekeeper :
    {W Config Client Dynamic : Type 0}
    → ClientGo W Config Client Dynamic
    → (Client → W → Ending × W)
    → W
    → Ending × W
new_gatekeeper go k w = fatal (new_client go w, w) k

module _ {W H : Type 0} (viper : Viper W) (http : Http W H) where
  -- With or without TLS. The files of the certificate are written in the code.
  pub serve_at : Bool → Text → Action W (Unit {0})
  serve_at tls addr =
      if tls
      then http.listen_and_serve_tls addr (lit "/tls/tls.crt") (lit "/tls/tls.key")
      else http.listen_and_serve addr

  -- `Start`, with the handler `authorize`.
  unfoldable pub start_gatekeeper : H → Action W (Unit {0})
  unfolding serve_at
  start_gatekeeper authorize w =
      let w1 = http.handle_func (lit "/authorize") authorize w in
      serve_at (viper.get_bool (lit "TLS") w1) (b':' ∷ viper.get_string (lit "PORT") w1) w1
