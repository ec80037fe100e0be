-- ===== src/Controllers/Start.antt =====
-- What the controllers are made of: `New` of pkg/controllers/vm/controller.go and
-- pkg/controllers/network/controller.go, which are the same, and of pkg/controllers/cdn/controller.go.
pub mod Laws
use kloudstack.Base.{
  ℕ, ◌≡◌, refl, ◌⊎◌, inl, inr, Option, none, some, List, [], ◌∷◌, ◌++◌, arith, ap,
}
use kloudstack.Base.Text.{Text, lit}
use kloudstack.Base.Result.{Error, Result, ok, err, panic, Action}
use kloudstack.Base.Ending.{Ending, finished, exited, panicked, fatal}
use kloudstack.K8s.{ClientGo, new_client}
use kloudstack.Ovsdb.{Libovsdb}
use kloudstack.Ovs.Agent.{create_ovs_agent}
use kloudstack.Ovn.Agent.{create_ovn_agent}

-- The address of OVN's northbound database, written in the code.
abbrev pub nb_endpoint : Text
nb_endpoint = lit "tcp:192.168.12.177:6641"

-- A controller's clients; the two agents' clients are of one type.
pub record Clients (Client Ovsdb : Type 0) : Type 0 where
  pub client : Client
  pub ovs_agent : Ovsdb
  pub ovn_agent : Ovsdb

module _ {W Config Client Dynamic Model Ovsdb : Type 0} (go : ClientGo W Config Client Dynamic)
    (lib : Libovsdb W Model Ovsdb) where
  -- `New` of the VM and the network controllers, before what is done with the controller. The faker
  -- that they keep is not used.
  unfoldable pub new_controller : (Clients Client Ovsdb → W → Ending × W) → W → Ending × W
  new_controller k w =
      fatal (new_client go w, w)
        (λ client w1. fatal (create_ovs_agent lib w1) (λ ovs w2.
          fatal (create_ovn_agent lib nb_endpoint w2)
            (λ ovn w3. k (record { client = client; ovs_agent = ovs; ovn_agent = ovn }) w3)))

-- redis.Options, as the CDN controller sets them, with the timeouts in seconds.
pub record RedisOptions : Type 0 where
  pub addr : Text
  pub password : Text
  pub db : ℕ
  pub dial_timeout : ℕ
  pub read_timeout : ℕ
  pub write_timeout : ℕ

-- What the CDN controller reads of the configuration; the port is printed as a number.
pub record RedisConfig : Type 0 where
  pub redis_host : Text
  pub redis_port : Text
  pub redis_password : Text
  pub redis_db : ℕ

abbrev pub redis_options : RedisConfig → RedisOptions
redis_options c = record {
  addr = c.redis_host ++ (b':' ∷ c.redis_port);
  password = c.redis_password;
  db = c.redis_db;
  dial_timeout = 5;
  read_timeout = 3;
  write_timeout = 3;
}

module _ {W Config Client Dynamic Redis : Type 0} (go : ClientGo W Config Client Dynamic)
    (new_redis : RedisOptions → Redis) (ping : Redis → Action W (Unit {0})) where
  -- `New` of the CDN controller: a Redis server that does not answer ends the program.
  unfoldable pub new_cdn_controller :
      RedisConfig → (Client × Redis → W → Ending × W) → W → Ending × W
  new_cdn_controller c k w =
      fatal (new_client go w, w)
        (λ client w1.
          let redis = new_redis (redis_options c) in
          fatal (ping redis w1) (λ _ w2. k (client, redis) w2))
