-- ===== src/Commands/Run/Watch.antt =====
-- The controllers that cmd/cdn-controller.go, cmd/network-controller.go and cmd/vm-controller.go start,
-- over the informers of client-go, which are a parameter.
use kloudstack.Base.{Option, none, some, List, [], ◌∷◌}
use kloudstack.Base.Text.{Text, lit}
use kloudstack.Base.Result.{Action}
use kloudstack.Base.Ending.{Ending, blocked, fatal}
use kloudstack.Config.{Viper}
use kloudstack.K8s.{ClientGo, create_dynamic_client}
use kloudstack.K8s.Scheme.{GroupVersion, network_group_version}
use kloudstack.Ovsdb.{Libovsdb}
use kloudstack.Controllers.Start.{RedisOptions, new_controller, new_cdn_controller}

-- A method of a controller that events are given to.
pub data Handler : Type 0 where
  handle_add_gateway handle_add_ip handle_add_pool handle_add_switch : Handler
  handle_add_vm handle_delete_vm handle_update_vmi : Handler

-- cache.ResourceEventHandlerDetailedFuncs
pub record EventHandlers : Type 0 where
  pub add_func : Option Handler
  pub update_func : Option Handler
  pub delete_func : Option Handler

-- An informer: the resource that it watches, and what its events are given to.
pub record Informer : Type 0 where
  pub group_version : GroupVersion
  pub resource : Text
  pub handlers : EventHandlers

abbrev added : Handler → EventHandlers
added h = record { add_func = some h; update_func = none; delete_func = none }

-- cmd/cdn-controller.go, where `v1alpha1` is the package of api/network.
abbrev pub cdn_informers : List Informer
cdn_informers =
    record {
      group_version = network_group_version;
      resource = lit "gateways";
      handlers = added handle_add_gateway;
    }
    ∷ []

-- cmd/network-controller.go
abbrev pub network_informers : List Informer
network_informers =
    record {
      group_version = network_group_version;
      resource = lit "clusterips";
      handlers = added handle_add_ip;
    }
    ∷ record {
      group_version = network_group_version;
      resource = lit "clusterippools";
      handlers = added handle_add_pool;
    }
    ∷ record {
      group_version = network_group_version;
      resource = lit "logicalswitches";
      handlers = added handle_add_switch;
    }
    ∷ []

-- `kubevirtv1.GroupVersion`
abbrev pub kubevirt_group_version : GroupVersion
kubevirt_group_version = record { group = lit "kubevirt.io"; version = lit "v1" }

-- cmd/vm-controller.go
abbrev pub vm_informers : List Informer
vm_informers =
    record {
      group_version = kubevirt_group_version;
      resource = lit "virtualmachines";
      handlers = record {
        add_func = some handle_add_vm;
        update_func = none;
        delete_func = some handle_delete_vm;
      };
    }
    ∷ record {
      group_version = kubevirt_group_version;
      resource = lit "virtualmachineinstances";
      handlers = record {
        add_func = none;
        update_func = some handle_update_vmi;
        delete_func = none;
      };
    }
    ∷ []

-- `NewDynamicInformerFactory` with `NewDynamicInformer` of pkg/k8s/dynamicinformer.go: an informer of
-- a factory without resync for all namespaces. `AddEventHandler`, and `Run` in a goroutine.
pub record Informers (W Dynamic : Type 0) : Type 0 where
  pub add_event_handler : Dynamic → Informer → W → W
  pub go_run : Dynamic → Informer → W → W

module _ {W Dynamic : Type 0} (inf : Informers W Dynamic) where
  -- The handlers are added to all informers before the first is run.
  pub add_handlers : Dynamic → List Informer → W → W
  add_handlers dc [] w = w
  add_handlers dc (i ∷ is) w = add_handlers dc is (inf.add_event_handler dc i w)

  pub run_informers : Dynamic → List Informer → W → W
  run_informers dc [] w = w
  run_informers dc (i ∷ is) w = run_informers dc is (inf.go_run dc i w)

  pub watch : List Informer → Dynamic → W → Ending × W
  unfolding add_handlers run_informers
  watch is dc w = (blocked, run_informers dc is (add_handlers dc is w))

  module _ {Config Client Model Ovsdb : Type 0} (go : ClientGo W Config Client Dynamic)
      (lib : Libovsdb W Model Ovsdb) where
    pub controller_with : List Informer → W → Ending × W
    unfolding watch
    controller_with is =
        new_controller go lib
          (λ _ w. fatal (create_dynamic_client go w, w) (λ dc w1. watch is dc w1))

    unfoldable pub network_controller : W → Ending × W
    unfolding controller_with
    network_controller = controller_with network_informers

    unfoldable pub vm_controller : W → Ending × W
    unfolding controller_with
    vm_controller = controller_with vm_informers

  module _ {Config Client Redis : Type 0} (go : ClientGo W Config Client Dynamic)
      (new_redis : RedisOptions → Redis) (ping : Redis → Action W (Unit {0}))
      (viper : Viper W) where
    unfoldable pub cdn_controller : W → Ending × W
    unfolding watch
    cdn_controller w =
        new_cdn_controller go new_redis ping
          (record {
            redis_host = viper.get_string (lit "REDIS_HOST") w;
            redis_port = viper.get_int32 (lit "REDIS_PORT") w;
            redis_password = viper.get_string (lit "REDIS_PASSWORD") w;
            redis_db = viper.get_int (lit "REDIS_DB") w;
          })
          (λ _ v. fatal (create_dynamic_client go v, v) (λ dc v1. watch cdn_informers dc v1)) w
