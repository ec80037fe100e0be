-- ===== src/NetUtils/Veth.antt =====
-- `SetupVeth` of pkg/net_utils/veth.go, over the network namespaces and links of the plugins and of
-- package netlink, which are parameters.
use kloudstack.Base.{ℕ, []}
use kloudstack.Base.Text.{Text}
use kloudstack.Base.Result.{Result, Action, pure, reads, ◌>>=◌}

-- current.Interface
pub record CniInterface : Type 0 where
  pub name : Text
  pub mac : Text
  pub sandbox : Text

-- The names of the pair of devices, and the container's address.
pub record VethPair : Type 0 where
  pub host_name : Text
  pub container_name : Text
  pub container_mac : Text

pub record Links (W : Type 0) : Type 0 where
  -- `ns.GetNS`: its path.
  pub get_ns : Text → W → Result Text
  -- Inside a namespace: `ip.SetupVeth` with name, MTU and MAC, and `LinkByName` with `LinkSetUp`.
  pub setup_veth_in : Text → Text → ℕ → Text → Action W VethPair
  pub link_exists_in : Text → Text → W → Result (Unit {0})
  pub link_set_up_in : Text → Text → Action W (Unit {0})
  -- On the host: the hardware address of `LinkByName`.
  pub hardware_addr : Text → W → Result Text

module _ {W : Type 0} (links : Links W) where
  -- `setInterfaceUp`
  unfoldable pub set_interface_up : Text → Text → Action W (Unit {0})
  set_interface_up path name =
      reads (links.link_exists_in path name) >>= λ _. links.link_set_up_in path name

  -- `refetchIface`: the host's interface with its MAC.
  unfoldable pub refetch_iface : Text → Action W CniInterface
  refetch_iface name = reads (links.hardware_addr name) >>= λ mac.
      pure (record { name = name; mac = mac; sandbox = [] })

  pub both_ends : Text → Text → VethPair → Action W (CniInterface × CniInterface)
  unfolding set_interface_up refetch_iface
  both_ends path name pair = do
    _ ← set_interface_up path name
    host ← refetch_iface pair.host_name
    pure (host, record { name = pair.container_name; mac = pair.container_mac; sandbox = path })

  pub in_ns : Text → ℕ → Text → Text → Action W (CniInterface × CniInterface)
  unfolding both_ends
  in_ns name mtu mac path = links.setup_veth_in path name mtu mac >>= both_ends path name

  -- `SetupVeth`: the host's and the container's interface.
  unfoldable pub setup_veth : Text → Text → Text → ℕ → Action W (CniInterface × CniInterface)
  unfolding in_ns
  setup_veth netns name mac mtu = reads (links.get_ns netns) >>= in_ns name mtu mac

-- The calls of package netlink on the host that the two functions below make, which nothing calls.
pub record HostLinks (W Link Addr : Type 0) : Type 0 where
  pub link_by_name : Text → W → Result Link
  pub link_set_hardware_addr : Link → Text → Action W (Unit {0})
  pub addr_add : Link → Addr → Action W (Unit {0})

module _ {W Link Addr : Type 0} (host : HostLinks W Link Addr) where
  -- `setHardwareAddr`: the bytes of the text are the address.
  unfoldable pub set_hardware_addr : Text → Text → Action W (Unit {0})
  set_hardware_addr name mac =
      reads (host.link_by_name name) >>= λ link. host.link_set_hardware_addr link mac

  -- `AddInterfaceIPAddress`
  unfoldable pub add_interface_ip_address : Text → Addr → Action W Link
  add_interface_ip_address name addr =
      reads (host.link_by_name name) >>= λ link. (host.addr_add link addr >>= λ _. pure link)
