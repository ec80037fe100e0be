-- ===== src/Ipam/Create/Phases/Addresses.antt =====
-- The addresses that two calls of `createClusterIP` (pkg/ipam/ipam.go) return that are served at the
-- same time, as they are printed.
use kloudstack.Base.{ℕ, ◌≡◌, ◌≢◌, sym, ◌∙◌, some, arith}
use mathlib.Core.Path.{subst, subst₂}
use kloudstack.Base.Int.{ℤ}
use kloudstack.Base.Text.{Text}
use kloudstack.Base.Result.{ok}
use kloudstack.Net.{IpNet, parse_cidr}
use kloudstack.NetUtils.Ip.{address_at, print_address}
use kloudstack.NetUtils.Ip.Printed.{print_address-injective}
use kloudstack.Api.Core.{Meta}
use kloudstack.Api.Network.{ClusterIp, ClusterIpPool}
use kloudstack.Ipam.Finders.{Env}
use kloudstack.Ipam.Create.{Claim}
use kloudstack.Ipam.Create.Distinct.{IsAddressOf}
use kloudstack.Ipam.Create.Phases.{start, ended}
use kloudstack.Ipam.Create.Phases.System.{System, Reach}
use kloudstack.Ipam.Create.Phases.Versions.{Versioned}
use kloudstack.Ipam.Create.Phases.Race.{Onward, race-distinct}

-- Two addresses of an IPv4 CIDR with one text are one address.
IsAddressOf-text :
    (cidr : Text) (i j : ℤ) (a b : ℕ) (t : Text) (ip : ℕ) (n : IpNet)
    → parse_cidr cidr ≡ some (ip, n)
    → n.bits ≡ 32
    → IsAddressOf cidr i a t
    → IsAddressOf cidr j b t
    → a ≡ b
IsAddressOf-text cidr i j a b t ip n e bits (ip1, n1, e1, at1, s1) (ip2, n2, e2, at2, s2) =
    let same_ip : ip2 ≡ ip1 = ground arith in
    let same_net : n2 ≡ n1 = ground arith in
    let own_net : n ≡ n1 = ground arith in
    print_address-injective cidr i j e1 (subst (λ (m : IpNet). m.bits ≡ 32) own_net bits) at1
      (subst₂ (λ (x : ℕ) (m : IpNet). address_at x m j ≡ some b) same_ip same_net at2)
      (sym s1 ∙ subst (λ (x : ℕ). t ≡ print_address x b) same_ip s2)

module _ {W : Type 0} (env : Env W) (version : Meta → ℕ) (current : W → ClusterIpPool) where
  -- Two calls that were started at the same time and are both served a new address of an IPv4 network
  -- return different addresses, as texts, in whatever order their accesses to the server fall, if
  -- others meanwhile keep the pool's spec, lower its next index never, and leave it used up once it
  -- is; the pool that is found is the current one; and the server stores a status only over the
  -- version that was read, changes the pool in nothing else, and keeps the spec of a cluster IP that
  -- it creates.
  pub race-addresses :
      (lawful : Versioned env version current) (c c' : Claim) (w : W) (t : System W)
      (cip cip' : ClusterIp) (p p' : ClusterIpPool) (ip : ℕ) (n : IpNet)
      → parse_cidr (current w).spec.cidr ≡ some (ip, n)
      → n.bits ≡ 32
      → Reach env
          (Onward env version current)
          (record { one = start c; two = start c'; world = w })
          t
      → t.one ≡ ended (ok (cip, some p))
      → t.two ≡ ended (ok (cip', some p'))
      → cip.spec.address ≢ cip'.spec.address
  race-addresses lawful c c' w t cip cip' p p' ip n e bits r one two same =
      let (i, j, a, b, at, at', differ) =
        race-distinct env version current lawful c c' w t cip cip' p p' r one two in
      differ (
        IsAddressOf-text (current w).spec.cidr i j a b cip'.spec.address ip n e bits
          (subst (λ (x : Text). IsAddressOf (current w).spec.cidr i a x) same at) at')
