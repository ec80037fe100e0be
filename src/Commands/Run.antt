-- ===== src/Commands/Run.antt =====
-- What the commands of cmd start, over package viper and the other packages that are parameters.
pub mod Laws
pub mod Watch
use kloudstack.Base.{
  ℕ, ◌≡◌, Bool, true, false, not, ◌&&◌, Option, none, some, List, [], ◌∷◌, if◌then◌else◌,
}
use kloudstack.Base.Text.{Text, lit, text_eq}
use kloudstack.Base.Result.{Error, Result, ok, err, panic, Action, reads}
use kloudstack.Base.Ending.{Ending, finished, blocked, exited, panicked, or_exit, fatal}
use kloudstack.Net.{parse_ip}
use kloudstack.Config.{Viper}
use kloudstack.K8s.{ClientGo, create_dynamic_client}
use kloudstack.K8s.Scheme.{GroupVersion, network_group_version}
use kloudstack.Ovsdb.{Libovsdb}
use kloudstack.Ovs.Agent.{create_ovs_agent, start_ovs_agent}
use kloudstack.Ovs.Metrics.{GaugeVec, register_ovs_metrics}
use kloudstack.Gatekeeper.Start.{Http, new_gatekeeper, start_gatekeeper}
use kloudstack.Dns.Start.{Grpc, start_dns}
use kloudstack.Controllers.Start.{
  Clients, RedisConfig, RedisOptions, new_controller, new_cdn_controller,
}
use kloudstack.Cni.Daemon.{Listeners, Daemon, start_daemon}

-- The end of a command whose start has ended, where an error has a status.
abbrev pub end_with : {W : Type 0} → Ending → Result (Unit {0}) × W → Ending × W
end_with failed (ok _, w) = (finished, w)
end_with failed (err e, w) = (failed, w)
end_with failed (panic, w) = (panicked, w)

module _ {W : Type 0} (viper : Viper W) where
  -- cmd/dhcpd.go over `StartV4Server`: `Run`, and `PreRun` before it.
  module _ (start_v4 : Text → (Result (Unit {0}) × W → Ending × W) → W → Ending × W) where
    pub serve_family : Text → Text → W → Ending × W
    serve_family family iface w =
        if text_eq family (lit "v4") then start_v4 iface (end_with (exited 1)) w else (finished, w)

    pub with_server : Option ℕ → Text → Text → W → Ending × W
    unfolding serve_family
    with_server none family iface w = (exited 1, w)
    with_server (some ip) family iface w = serve_family family iface w

    pub run_dhcpd_cmd : W → Ending × W
    unfolding with_server
    run_dhcpd_cmd w =
        with_server (parse_ip (viper.get_string (lit "SERVER") w))
          (viper.get_string (lit "IPFAMILY") w) (viper.get_string (lit "INTERFACE") w) w

    pub pre_run : Text → (W → Ending × W) → W → Ending × W
    pre_run family run w =
        if not (text_eq family (lit "v4")) && not (text_eq family (lit "v6"))
        then (exited 1, w)
        else run w

    unfoldable pub dhcpd : W → Ending × W
    unfolding run_dhcpd_cmd pre_run
    dhcpd w = pre_run (viper.get_string (lit "IPFAMILY") w) run_dhcpd_cmd w

  -- cmd/dnsd.go
  unfoldable pub dnsd : {Session Listener : Type 0} → Grpc W Session Listener → W → Ending × W
  dnsd grpc w =
      end_with (exited 255) (start_dns viper grpc (viper.get_string (lit "SOCKET_FILE") w) w)

  -- cmd/gatekeeper.go: the error of `Start` is printed.
  unfoldable pub gatekeeper :
      {Config Client Dynamic H : Type 0}
      → ClientGo W Config Client Dynamic
      → Http W H
      → (Client → H)
      → W
      → Ending × W
  gatekeeper go http authorize =
      new_gatekeeper go
        (λ client w. end_with finished (start_gatekeeper viper http (authorize client) w))

  -- cmd/metricexporter.go: an error of the agent is a panic, and that of the server is dropped.
  module _ {Model Client H : Type 0} (lib : Libovsdb W Model Client) (http : Http W H)
      (metrics : H) where
    pub export_for : Client → W → Ending × W
    export_for agent w =
        let w1 = http.handle_func (lit "/metrics") metrics (start_ovs_agent lib agent w) in
        end_with finished (http.listen_and_serve (b':' ∷ viper.get_int32 (lit "port") w1) w1)

    pub or_panic : {A : Type 0} → Result A × W → (A → W → Ending × W) → Ending × W
    or_panic (ok a, w) k = k a w
    or_panic (err e, w) k = (panicked, w)
    or_panic (panic, w) k = (panicked, w)

    unfoldable pub metric_exporter : (List GaugeVec → Action W (Unit {0})) → W → Ending × W
    unfolding export_for or_panic
    metric_exporter must_register w =
        or_panic (register_ovs_metrics must_register w)
          (λ _ w1. or_panic (create_ovs_agent lib w1) export_for)

-- cmd/ovncnid.go: the daemon runs until the program is stopped.
unfoldable pub ovncnid :
    {W Config Client Dynamic Model Ovsdb Listener : Type 0}
    → Viper W
    → ClientGo W Config Client Dynamic
    → Libovsdb W Model Ovsdb
    → Listeners W Listener
    → W
    → Ending × W
ovncnid viper go lib net w =
    start_daemon go lib net (viper.get_string (lit "CNI_SOCKET_FILE") w) (end_with (exited 255))
      (λ daemon v. (blocked, v)) w
