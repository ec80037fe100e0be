-- ===== src/Commands/Flags.antt =====
-- The flags of the commands, and the keys of the configuration that they are bound to, as the `init`
-- functions of cmd list them.
use kloudstack.Base.{ℕ, Bool, true, List, [], ◌∷◌}
use kloudstack.Base.Text.{Text, lit}

-- The default of a flag, with its type.
pub data FlagValue : Type 0 where
  text : Text → FlagValue
  number : ℕ → FlagValue
  toggle : Bool → FlagValue
  texts : List Text → FlagValue

pub record Flag : Type 0 where
  pub name : Text
  pub shorthand : Text
  pub default : FlagValue

-- A command: its name, its flags in the order in which they are added, and the keys that are bound to
-- them, each to the flag that is looked up by a name.
pub record Command : Type 0 where
  pub use_name : Text
  pub flags : List Flag
  pub bindings : List (Text × Text)

abbrev flag : Text → Text → FlagValue → Flag
flag name shorthand default = record { name = name; shorthand = shorthand; default = default }

-- cmd/cdn-controller.go
abbrev pub cdn_controller_cmd : Command
cdn_controller_cmd = record {
  use_name = lit "cdncontroller";
  flags =
      flag (lit "redis_host") (lit "rh") (text (lit "localhost"))
      ∷ flag (lit "redis_port") (lit "rp") (number 6379)
      ∷ flag (lit "redis_db") (lit "rdb") (number 0)
      ∷ flag (lit "redis_password") (lit "rpwd") (text [])
      ∷ flag (lit "hostname") (lit "h") (text (lit "tlscdn.ir"))
      ∷ flag (lit "certmanager-clusterissuer") (lit "i")
          (text (lit "kloudstack-letsencrypt-webhook"))
      ∷ [];
  bindings =
      (lit "REDIS_HOST", lit "redis_host")
      ∷ (lit "REDIS_PORT", lit "redis_port")
      ∷ (lit "REDIS_DB", lit "redis_db")
      ∷ (lit "REDIS_PASSWORD", lit "redis_password")
      ∷ (lit "CDN_HOSTNAME", lit "hostname")
      ∷ (lit "CERTMANAGER_CLUSTER_ISSUER", lit "certmanager-clusterissuer")
      ∷ [];
}

-- cmd/dhcpd.go
abbrev pub dhcpd_cmd : Command
dhcpd_cmd = record {
  use_name = lit "dhcpd";
  flags =
      flag (lit "interface") (lit "i") (text (lit "br-ext"))
      ∷ flag (lit "listen") (lit "l") (text (lit "0.0.0.0"))
      ∷ flag (lit "family") (lit "f") (text (lit "v4"))
      ∷ flag (lit "mac_prefix") (lit "m") (text [])
      ∷ flag (lit "dns") (lit "d") (text (lit "8.8.8.8,8.8.4.4"))
      ∷ flag (lit "server") (lit "s") (text [])
      ∷ [];
  bindings =
      (lit "INTERFACE", lit "interface")
      ∷ (lit "LISTENADDRESS", lit "listen")
      ∷ (lit "IPFAMILY", lit "family")
      ∷ (lit "MACPREFIX", lit "mac_prefix")
      ∷ (lit "DNS", lit "dns")
      ∷ (lit "SERVER", lit "server")
      ∷ [];
}

-- cmd/dnsd.go
abbrev pub dnsd_cmd : Command
dnsd_cmd = record {
  use_name = lit "dnsd";
  flags =
      flag (lit "socket-file") (lit "f") (text (lit "/var/run/kloudstack/dns.sock"))
      ∷ flag (lit "scylladb-keyspace") (lit "k") (text (lit "kloudstack_dns"))
      ∷ flag (lit "scylladb-hosts") (lit "H") (texts (lit "127.0.0.1" ∷ []))
      ∷ flag (lit "scylladb-datacenter") (lit "d") (text (lit "datacenter1"))
      ∷ flag (lit "scylladb-port") (lit "p") (number 9042)
      ∷ flag (lit "dns-mname") (lit "m") (text (lit "ns1.ns53.ir."))
      ∷ flag (lit "dns-rname") (lit "r") (text (lit "admin.ns53.ir."))
      ∷ [];
  bindings =
      (lit "SOCKET_FILE", lit "socket-file")
      ∷ (lit "SCYLLADB_HOSTS", lit "scylladb-hosts")
      ∷ (lit "SCYLLADB_DATACENTER", lit "scylladb-datacenter")
      ∷ (lit "SCYLLADB_KEYSPACE", lit "scylladb-keyspace")
      ∷ (lit "SCYLLADB_PORT", lit "scylladb-port")
      ∷ (lit "DNS_M_NAME", lit "dns-mname")
      ∷ (lit "DNS_R_NAME", lit "dns-rname")
      ∷ [];
}

-- cmd/gatekeeper.go
abbrev pub gatekeeper_cmd : Command
gatekeeper_cmd = record {
  use_name = lit "gatekeeper";
  flags =
      flag (lit "port") (lit "p") (number 443)
      ∷ flag (lit "tls") (lit "t") (toggle true)
      ∷ flag (lit "tls-cert-file") (lit "c") (text (lit "/tls/tls.crt"))
      ∷ flag (lit "tls-key-file") (lit "k") (text (lit "/tls/tls.key"))
      ∷ [];
  bindings =
      (lit "PORT", lit "port")
      ∷ (lit "TLS", lit "tls")
      ∷ (lit "TLS_CERT_FILE", lit "tls-cert-file")
      ∷ (lit "TLS_KEY_FILE", lit "tls-key-file")
      ∷ [];
}

-- cmd/metricexporter.go
abbrev pub metric_exporter_cmd : Command
metric_exporter_cmd = record {
  use_name = lit "metric-exporter";
  flags = flag (lit "port") (lit "p") (number 9476) ∷ [];
  bindings = (lit "PORT", lit "port") ∷ [];
}

-- cmd/network-controller.go
abbrev pub network_controller_cmd : Command
network_controller_cmd = record { use_name = lit "network-controller"; flags = []; bindings = [] }

-- cmd/ovncnid.go
abbrev pub ovncnid_cmd : Command
ovncnid_cmd = record {
  use_name = lit "ovncnid";
  flags =
      flag (lit "cni-socket-file") (lit "f") (text (lit "/var/run/kloudstack/ovn-cni.sock")) ∷ [];
  bindings = (lit "CNI_SOCKET_FILE", lit "cni-socket-file") ∷ [];
}

-- cmd/vm-controller.go
abbrev pub vm_controller_cmd : Command
vm_controller_cmd = record { use_name = lit "kubevirt-controller"; flags = []; bindings = [] }

abbrev pub after_cdn : List Command
after_cdn =
    dhcpd_cmd ∷ dnsd_cmd ∷ gatekeeper_cmd ∷ metric_exporter_cmd ∷ network_controller_cmd
    ∷ ovncnid_cmd ∷ []

-- The commands in the order in which Go runs the `init` functions of cmd: by the files' names. That of
-- cmd/root.go, which adds no binding, stands between the last two.
abbrev pub before_root : List Command
before_root = cdn_controller_cmd ∷ after_cdn

abbrev pub after_root : List Command
after_root = vm_controller_cmd ∷ []
