-- ===== src/Ipam/Create/Phases/Versions.antt =====
-- What is relied on of the server's versions of a pool, and what a call of `createClusterIP`
-- (pkg/ipam/ipam.go) knows of them at each of its phases.
use kloudstack.Base.{ℕ, ◌<◌, ◌≡◌, ◌≢◌, sym, ◌⊎◌, inl, inr, true, false, Option, none, some, arith}
use mathlib.Core.Path.{subst}
use kloudstack.Base.Int.{ℤ, pos, ◌+ℤ◌, ◌≤ℤ◌, int_laws}
use kloudstack.Base.Text.{Text}
use kloudstack.Base.Result.{Error, ok, err, panic}
use kloudstack.Api.Core.{Meta}
use kloudstack.Api.Network.{ClusterIp, ClusterIpPool}
use kloudstack.Ipam.Allocation.{counts_of, exhausted}
use kloudstack.Ipam.Finders.{Env, find_empty_cluster_ip_pool}
use kloudstack.Ipam.Create.Distinct.{IsAddressOf}
use kloudstack.Ipam.Create.Phases.{Phase, start, holding, taking, made, ended}

-- An index is passed when the pool's next index is behind it, or the pool is used up.
abbrev pub Passed : ℤ → ClusterIpPool → Type 0
Passed i q = (i +ℤ pos 1 ≤ℤ (counts_of q.status).next) ⊎ (exhausted (counts_of q.status) ≡ true)

-- The same pool, by the number of its version, or a later one: of the same network, with no index
-- given back.
abbrev pub Later : (Meta → ℕ) → ClusterIpPool → ClusterIpPool → Type 0
Later version q r =
    (r ≡ q)
    ⊎ ((version q.meta < version r.meta)
        × (r.spec ≡ q.spec)
        × ((counts_of q.status).next ≤ℤ (counts_of r.status).next)
        × (exhausted (counts_of q.status) ≡ true → exhausted (counts_of r.status) ≡ true))

-- What is relied on of the client, where `current` is the pool as the server has it: the lookup gives
-- it, a cluster IP leaves it alone, and its status is stored only over the version that was read.
pub record Versioned {W : Type 0} (env : Env W) (version : Meta → ℕ) (current : W → ClusterIpPool)
    : Type 0 where
  pub finds :
      (family : Text) (w : W) {q : ClusterIpPool}
      → find_empty_cluster_ip_pool env family w ≡ (ok q, w)
      → q ≡ current w
  pub creates : (o : ClusterIp) (w : W) → current (env.cluster_ips.create o w).1 ≡ current w
  pub create-spec :
      (o : ClusterIp) (w : W) {o' : ClusterIp} {w' : W}
      → env.cluster_ips.create o w ≡ (ok o', w')
      → o'.spec ≡ o.spec
  pub refuses :
      (q : ClusterIpPool) (w : W) {e : Error} {w' : W}
      → env.cluster_ip_pools.update_status q w ≡ (err e, w')
      → current w' ≡ current w
  pub crashes :
      (q : ClusterIpPool) (w : W) {w' : W}
      → env.cluster_ip_pools.update_status q w ≡ (panic, w')
      → current w' ≡ current w
  pub stores :
      (q : ClusterIpPool) (w : W) {q' : ClusterIpPool} {w' : W}
      → env.cluster_ip_pools.update_status q w ≡ (ok q', w')
      → (version q.meta ≡ version (current w).meta)
        × (version (current w).meta < version (current w').meta)
        × ((current w').spec ≡ (current w).spec)
        × ((current w').status ≡ q.status)

-- A pool that was read: the current one, or an earlier version of it.
abbrev pub Held : (Meta → ℕ) → Text → ClusterIpPool → ClusterIpPool → Type 0
Held version cidr p q = (p.spec.cidr ≡ cidr) × ((p ≡ q) ⊎ (version p.meta < version q.meta))

-- The cluster IP that a call has returned, with its pool, if it has.
abbrev pub served : Phase → Option ClusterIp
served (start c) = none
served (holding c pool) = none
served (taking pool rest cip) = none
served (made pool cip) = none
served (ended (ok (cip, some p))) = some cip
served (ended (ok (cip, none))) = none
served (ended (err e)) = none
served (ended panic) = none

-- What a call's locals say about the pool.
abbrev pub Knows : (Meta → ℕ) → Text → Phase → ClusterIpPool → Type 0
Knows version cidr (start c) q = Unit {0}
Knows version cidr (holding c p) q = Held version cidr p q
Knows version cidr (taking p rest cip) q =
    Held version cidr p q × (exhausted (counts_of p.status) ≡ true)
Knows version cidr (made p cip) q =
    Held version cidr p q
    × (exhausted (counts_of p.status) ≡ false)
    × ((a : ℕ) × IsAddressOf cidr (counts_of p.status).next a cip.spec.address)
Knows version cidr (ended r) q = Unit {0}

-- The address that was given has an index that is passed.
abbrev pub Given : Text → Option ClusterIp → ClusterIpPool → Type 0
Given cidr none q = Unit {0}
Given cidr (some cip) q = (i : ℤ) × (a : ℕ) × IsAddressOf cidr i a cip.spec.address × Passed i q

-- Two addresses that were given are different.
abbrev pub Apart : Text → Option ClusterIp → Option ClusterIp → Type 0
Apart cidr none d = Unit {0}
Apart cidr (some cip) none = Unit {0}
Apart cidr (some cip) (some cip') =
    (i : ℤ) × (j : ℤ) × (a : ℕ) × (b : ℕ) × IsAddressOf cidr i a cip.spec.address
    × IsAddressOf cidr j b cip'.spec.address
    × (a ≢ b)

pub Passed-Later :
    (version : Meta → ℕ) (i : ℤ) (q r : ClusterIpPool) → Passed i q → Later version q r → Passed i r
Passed-Later version i q r p (inl same) = subst (λ (x : ClusterIpPool). Passed i x) (sym same) p
Passed-Later version i q r (inl le) (inr (_, _, up, _)) = inl (omega int_laws)
Passed-Later version i q r (inr full) (inr (_, _, _, stays)) = inr (stays full)

Held-Later :
    (version : Meta → ℕ) (cidr : Text) (p q r : ClusterIpPool)
    → Held version cidr p q
    → Later version q r
    → Held version cidr p r
Held-Later version cidr p q r (at, h) (inl same) =
    subst (λ (x : ClusterIpPool). Held version cidr p x) (sym same) (at, h)
Held-Later version cidr p q r (at, inl now) (inr (lt, _, _, _)) =
    (at, inr (subst (λ (x : ClusterIpPool). version x.meta < version r.meta) (sym now) lt))
Held-Later version cidr p q r (at, inr lt) (inr (lt', _, _, _)) = (at, inr (omega arith))

pub Knows-Later :
    (version : Meta → ℕ) (cidr : Text) (s : Phase) (q r : ClusterIpPool)
    → Knows version cidr s q
    → Later version q r
    → Knows version cidr s r
Knows-Later version cidr (start c) q r k l = tt
Knows-Later version cidr (holding c p) q r k l = Held-Later version cidr p q r k l
Knows-Later version cidr (taking p rest cip) q r (h, e) l = (Held-Later version cidr p q r h l, e)
Knows-Later version cidr (made p cip) q r (h, e, a) l = (Held-Later version cidr p q r h l, e, a)
Knows-Later version cidr (ended x) q r k l = tt

pub Given-Later :
    (version : Meta → ℕ) (cidr : Text) (d : Option ClusterIp) (q r : ClusterIpPool)
    → Given cidr d q
    → Later version q r
    → Given cidr d r
Given-Later version cidr none q r g l = tt
Given-Later version cidr (some cip) q r (i, a, at, p) l = (i, a, at, Passed-Later version i q r p l)
