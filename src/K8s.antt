-- ===== src/K8s.antt =====
-- pkg/k8s/client.go and pkg/k8s/dynamicinformer.go over client-go, which is a parameter.
pub mod Scheme
mod Tests
use kloudstack.Base.{◌≡◌, List, [], ◌∷◌, ◌++◌}
use kloudstack.Base.Text.{Text, lit}
use kloudstack.Base.Result.{Error, Result, ok, err, panic, and_then}

-- `homedir`, `os.Stat`, the two ways to a configuration, and what makes clients of one.
pub record ClientGo (W Config Client Dynamic : Type 0) : Type 0 where
  pub home_dir : Text
  pub stat : Text → W → Result (Unit {0})
  pub in_cluster_config : W → Result Config
  pub build_config_from_flags : Text → Text → W → Result Config
  pub new : Config → W → Result Client
  pub new_for_config : Config → W → Result Dynamic

module _ {W Config Client Dynamic : Type 0} (go : ClientGo W Config Client Dynamic) where
  -- `filepath.Join(homedir.HomeDir(), ".kube", "config")`, of a home directory that is clean.
  pub config_file : Text
  config_file = go.home_dir ++ lit "/.kube/config"

  -- Without that file the configuration of the cluster that the program runs in is used.
  pub config_at : Text → Result (Unit {0}) → W → Result Config
  config_at file (ok _) w = go.build_config_from_flags [] file w
  config_at file (err e) w = go.in_cluster_config w
  config_at file panic w = panic

  -- `createConfig`
  unfoldable pub create_config : W → Result Config
  unfolding config_at
  create_config w = config_at config_file (go.stat config_file w) w

  -- `NewClient`
  unfoldable pub new_client : W → Result Client
  new_client w = and_then (create_config w) (λ config. go.new config w)

  -- `CreateDynamicClient`, whose errors end the program.
  unfoldable pub create_dynamic_client : W → Result Dynamic
  create_dynamic_client w = and_then (create_config w) (λ config. go.new_for_config config w)
