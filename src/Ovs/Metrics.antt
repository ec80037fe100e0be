-- ===== src/Ovs/Metrics.antt =====
-- pkg/metrics/ovs.go: the gauges, and their registration with package prometheus, which panics.
use kloudstack.Base.{List, [], ◌∷◌}
use kloudstack.Base.Text.{Text, lit}
use kloudstack.Base.Result.{Action}

-- prometheus.GaugeOpts with the names of the labels.
pub record GaugeVec : Type 0 where
  pub name : Text
  pub help : Text
  pub labels : List Text

abbrev pub rx_bytes : GaugeVec
rx_bytes = record {
  name = lit "ovs_port_rx_bytes";
  help = lit "Received bytes on OVS port.";
  labels = lit "vm_namespace" ∷ lit "vm" ∷ lit "iface" ∷ [];
}

abbrev pub tx_bytes : GaugeVec
tx_bytes = record {
  name = lit "ovs_port_tx_bytes";
  help = lit "Transmitted bytes on OVS port.";
  labels = lit "vm_namespace" ∷ lit "vm" ∷ lit "iface" ∷ [];
}

-- `RegisterOVSMetrics`, over `MustRegister`.
unfoldable pub register_ovs_metrics :
    {W : Type 0} → (List GaugeVec → Action W (Unit {0})) → Action W (Unit {0})
register_ovs_metrics must_register = must_register (rx_bytes ∷ tx_bytes ∷ [])
