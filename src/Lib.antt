-- ===== src/Lib.antt =====
-- kloudstack: networks, addresses, names and gateways of virtual machines on Kubernetes.
--
-- The program is a set of daemons and controllers around one cluster. The CNI server attaches a pod:
-- it asks package ipam for a cluster IP (or makes a MAC for a private network), sets up a pair of
-- virtual Ethernet devices, adds the host's end to Open vSwitch and a logical port to OVN. The
-- controllers count the addresses of pools, release the cluster IPs of machines, make credentials and
-- keep gateways in Redis. The DHCP server answers a machine from its cluster IP, the DNS server
-- answers from its tables, and the gatekeeper webhook lets users into their namespaces.
--
-- Parts and files (a file's child modules, such as Laws, hold its theorems, and Tests their runs):
--   Helpers       pkg/helpers/convert.go: StringToBigInt, ExtractVMName
--   NetUtils/Ip   pkg/net_utils/ip.go: PickUsableIPFromCIDRIndex, CountUsableIPs
--   NetUtils/Mac  pkg/net_utils/mac.go: GenerateVethMAC
--   NetUtils/Veth pkg/net_utils/veth.go: SetupVeth
--   Ipam          pkg/ipam: Allocation is the arithmetic of createClusterIP on a pool's counts,
--                 Finders the lookups, Create FindOrCreateClusterIP and createClusterIP
--                 Ipam/Create/Phases is createClusterIP as its calls of the client, one by one
--   Dns           pkg/daemons/dns/query.go: Lookup finds records and zones, Answer makes responses;
--                 Dns/Start is server.go
--   Dhcp          pkg/daemons/dhcp/dhcpv4.go; Dhcp/Start is StartV4Server
--   Ovsdb         how the agents open the client of libovsdb
--   Ovn           pkg/ovn/ovnnb.go; Ovn/Agent is agent.go
--   Ovs           pkg/ovs/ovs.go; Ovs/Stats is updateInterfaceStats with the event handler, Ovs/Agent
--                 the rest of agent.go, and Ovs/Metrics pkg/metrics/ovs.go
--   Cni           pkg/daemons/ovn-cni-server/server.go, and runOnDaemon of cni/ovn/main.go; Cni/Daemon
--                 is Start and run, Cni/Plugin the plugin's commands over the socket
--   Gatekeeper    pkg/webhooks/gatekeeper/gatekeeper.go; Gatekeeper/Start is New and Start
--   Controllers   pkg/controllers: Vm, Network (pools and logical switches) and Cdn (gateways);
--                 Controllers/Start is what they are made of
--   K8s           pkg/k8s; K8s/Scheme has the builders of api/network/v1alpha1 and api/cdn/v1alpha1
--   Config        package viper as it is read
--   Commands      cmd: Flags and Init are the init functions, Run and Run/Watch what is started, Root
--                 the root command with main.go
--   Api           api/network/v1alpha1, api/cdn/v1alpha1 and the fields of Kubernetes' own types that
--                 are used; Api/Kube is the client
-- Base has lists, integers, texts, decimal numbers and results; Net and Sha256 are what the program
-- uses of Go's packages net and crypto/sha256, written out.
--
-- How code is modelled: a call that reads or changes the world is an `Action W`, a function from the
-- world to a result and the world after it, for an unknown type `W`. A result is a value, an error or a
-- run-time panic (a nil pointer, an index out of range). Log lines are left out. The clients of
-- Kubernetes, libovsdb, Redis, gocqlx, netlink, the wire formats of DNS and DHCP, JSON and the clock are
-- parameters, records of functions; what a theorem relies on of them is a hypothesis with a name. A
-- text is a list of bytes, a big.Int is an integer, and an address is a number below 2 ^ 128, an IPv4
-- address being one of the form 0xffff * 2 ^ 32 + a. A big.Int that is changed in place is followed
-- step by step (Ipam/Allocation). No function needs fuel: loops go over lists, and the accept loop of
-- the CNI server over what it accepts. A command's end (Base/Ending) is its status, a panic, or none.
-- A daemon's start takes what comes next as an argument, since os.Exit and klog.Fatalf may end it. The
-- tables that a DNS message is answered from stand still meanwhile.
--
-- Calls at the same time: Ipam/Create/Phases has a call of createClusterIP as a state that is stepped
-- from one access of the server to the next, and Ipam/Create/Phases/Race interleaves two of them with
-- changes by others, over a server that refuses the status of a pool that has changed since it was
-- read, as the API server does for an object with a resource version. Ipam/Create/Phases/Owner does so
-- with two calls for one name, over a server that refuses a name that is taken.
--
-- Not modelled: log lines, generated code (deep copies, protocol buffers, database models, of which
-- the columns that are used are fields), and the graphical interface.
pub mod Base
pub mod Net
pub mod Sha256
pub mod K8s
pub mod Config
pub mod Api
pub mod Helpers
pub mod NetUtils
pub mod Ipam
pub mod Dns
pub mod Ovsdb
pub mod Ovn
pub mod Ovs
pub mod Gatekeeper
pub mod Cni
pub mod Controllers
pub mod Dhcp
pub mod Commands
