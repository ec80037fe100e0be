-- ===== src/Ovs/Stats.antt =====
-- The statistics of an interface, which events of the database's cache bring to the gauges
-- (pkg/ovs/agent.go, pkg/ovs/eventhandler.go).
use kloudstack.Base.{◌≡◌, Option, none, some, List, [], ◌∷◌, ◌++◌, if◌then◌else◌}
use kloudstack.Base.Int.{ℤ}
use kloudstack.Base.Text.{Text, lit, text_eq, split}
use kloudstack.Base.Text.Laws.{Lacks, split-append, split-Lacks}
use kloudstack.Api.Core.{StringMap, lookup_or_empty, lookup_or_empty-first}
use kloudstack.Helpers.{launcher, extract_vm_name}
use kloudstack.Helpers.Laws.{extract_vm_name-launcher}
use kloudstack.Ovs.{Interface, iface_ids}

-- The labels vm_namespace, vm and iface.
pub record Labels : Type 0 where
  pub vm_namespace : Text
  pub vm : Text
  pub iface : Text

-- `TxBytes.With(...).Set` and `RxBytes.With(...).Set`.
pub record Gauges (W : Type 0) : Type 0 where
  pub set_tx : Labels → ℤ → W → W
  pub set_rx : Labels → ℤ → W → W

unfoldable pub stat : Text → List (Text × ℤ) → Option ℤ
stat k [] = none
stat k ((j, v) ∷ m) = if text_eq j k then some v else stat k m

-- The model of an event: a row of the table of interfaces, or of another one.
pub data Model : Type 0 where
  interface_row : Interface → Model
  other_row : Model

module _ {W : Type 0} (gauges : Gauges W) where
  pub set_if_some : (ℤ → W → W) → Option ℤ → W → W
  set_if_some set none w = w
  set_if_some set (some v) w = set v w

  -- The count under rx_bytes is set on `TxBytes`, and that under tx_bytes on `RxBytes`.
  pub set_gauges : List (Text × ℤ) → Labels → W → W
  unfolding set_if_some stat
  set_gauges stats labels w =
      set_if_some (gauges.set_rx labels) (stat (lit "tx_bytes") stats)
        (set_if_some (gauges.set_tx labels) (stat (lit "rx_bytes") stats) w)

  -- After the split: exactly three parts are wanted.
  pub with_parts : List (Text × ℤ) → List Text → W → W
  unfolding set_gauges
  with_parts stats (namespace ∷ pod ∷ iface ∷ []) w =
      set_gauges stats
        (record { vm_namespace = namespace; vm = extract_vm_name pod; iface = iface }) w
  with_parts stats [] w = w
  with_parts stats (a ∷ []) w = w
  with_parts stats (a ∷ b ∷ []) w = w
  with_parts stats (a ∷ b ∷ c ∷ d ∷ ps) w = w

  pub with_maps : Option (List (Text × ℤ)) → Option StringMap → W → W
  unfolding with_parts
  with_maps none ids w = w
  with_maps (some stats) none w = w
  with_maps (some stats) (some ids) w =
      with_parts stats (split b'_' (lookup_or_empty (lit "iface-id") ids)) w

  -- `updateInterfaceStats`
  unfoldable pub update_interface_stats : Interface → W → W
  unfolding with_maps
  update_interface_stats iface = with_maps iface.statistics iface.external_ids

  -- `handle`
  unfoldable pub handle : Text → Model → W → W
  unfolding update_interface_stats
  handle table (interface_row iface) w = update_interface_stats iface w
  handle table other_row w = w

  -- `OnAdd`, `OnUpdate` and `OnDelete`
  unfoldable pub on_add : Text → Model → W → W
  unfolding handle
  on_add table m = handle table m

  unfoldable pub on_update : Text → Model → Model → W → W
  unfolding handle
  on_update table old new = handle table new

  unfoldable pub on_delete : Text → Model → W → W
  on_delete table m w = w

  -- An update of the interface of a machine's launcher pod, which carries the id that its port was
  -- added with, sets the machine's gauges, the received count on `TxBytes` and the transmitted one
  -- on `RxBytes`, if no part of the id has an underscore and the pod's name has the launcher's
  -- form.
  pub on_update-launcher :
      (old : Model) (iface : Interface) (namespace vm suffix ifname : Text)
      (stats : List (Text × ℤ)) (rx tx : ℤ) (w : W)
      → Lacks b'-' suffix
      → Lacks b'_' namespace
      → Lacks b'_' (launcher ++ (vm ++ (b'-' ∷ suffix)))
      → Lacks b'_' ifname
      → iface.external_ids
        ≡ some (
            iface_ids
              (namespace ++ (b'_' ∷ (launcher ++ (vm ++ (b'-' ∷ suffix))) ++ (b'_' ∷ ifname))))
      → iface.statistics ≡ some stats
      → stat (lit "rx_bytes") stats ≡ some rx
      → stat (lit "tx_bytes") stats ≡ some tx
      → on_update (lit "Interface") old (interface_row iface) w
        ≡ gauges.set_rx
            (record { vm_namespace = namespace; vm = vm; iface = ifname })
            tx
            (gauges.set_tx (record { vm_namespace = namespace; vm = vm; iface = ifname }) rx w)
  unfolding on_update handle update_interface_stats with_maps with_parts set_gauges
  on_update-launcher old iface namespace vm suffix ifname stats rx tx w hs hn hp hi ids st er et =
      let pod = launcher ++ (vm ++ (b'-' ∷ suffix)) in
      rw
        (
          st,
          ids,
          lookup_or_empty-first (lit "iface-id") (namespace ++ (b'_' ∷ pod ++ (b'_' ∷ ifname))) [],
        )
        (rw
          (
            split-append b'_' namespace (pod ++ (b'_' ∷ ifname)) hn,
            split-append b'_' pod ifname hp,
            split-Lacks b'_' ifname hi,
          )
          (rw (er, et, extract_vm_name-launcher vm suffix hs)))
