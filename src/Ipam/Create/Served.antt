-- ===== src/Ipam/Create/Served.antt =====
-- That calls of `createClusterIP` (pkg/ipam/ipam.go) are served while their pool has room.
use kloudstack.Base.{
  ℕ, suc, ◌*◌, ◌≤◌, ◌≡◌, ◌≢◌, refl, sym, ap, ◌∙◌, some, List, [], ◌∷◌, All, length,
}
use mathlib.Core.Path.{subst}
use kloudstack.Base.Int.{pos, ◌+ℤ◌, ◌-ℤ◌, ◌≤ℤ◌, int_laws}
use kloudstack.Base.Text.{Text, lit}
use kloudstack.Base.Result.{ok}
use kloudstack.Net.{IpNet, parse_cidr}
use kloudstack.NetUtils.Ip.{count_usable_ips}
use kloudstack.NetUtils.Ip.Printed.{picked}
use kloudstack.Ipam.Finders.Laws.{find_empty_cluster_ip_pool-single}
use kloudstack.Api.Network.{ClusterIp, ClusterIpPool}
use kloudstack.Ipam.Allocation.{Counts, counts_of, counted}
use kloudstack.Ipam.Allocation.Runs.{
  exhausted_of_le, counted-next-le, counted_sums, counts_of-stored,
}
use kloudstack.Ipam.Finders.{Env, find_empty_cluster_ip_pool}
use kloudstack.Ipam.Create.{
  Claim, cluster_ip_name, new_cluster_ip, moved_on, store_counts, create_at, use_next, allocate,
  create_cluster_ip,
}

-- What is relied on of a server with one pool of a family: the pool is listed, a cluster IP of a name
-- that is free is created, and the status of the pool is stored if it was read as it is.
pub record Obliging {W : Type 0} (env : Env W) (family : Text) (current : W → ClusterIpPool)
    (Free : Text → W → Type 0) : Type 0 where
  pub lists :
      (w : W)
      → env.cluster_ip_pools.list ((lit "spec.ipFamily", family) ∷ []) (pos 10000) w
        ≡ ok (current w ∷ [])
  pub creates :
      (o : ClusterIp) (w : W)
      → Free o.meta.name w
      → (o' : ClusterIp) × (v : W) × (env.cluster_ips.create o w ≡ (ok o', v))
        × (current v ≡ current w)
        × ((name : Text) → name ≢ o.meta.name → Free name w → Free name v)
  pub stores :
      (q : ClusterIpPool) (w : W)
      → q.meta ≡ (current w).meta
      → (q' : ClusterIpPool) × (v : W) × (env.cluster_ip_pools.update_status q w ≡ (ok q', v))
        × ((current v).spec ≡ (current w).spec)
        × ((current v).status ≡ q.status)
        × ((name : Text) → Free name w → Free name v)

-- Room for `k` addresses by the counts, in a network: each takes four off what is left of the total.
abbrev pub Room : IpNet → ℕ → Counts → Type 0
Room n k c =
    (pos 0 ≤ℤ c.next)
    × (c.next +ℤ pos (4 * k) ≤ℤ c.total +ℤ pos 2)
    × (c.next +ℤ pos k ≤ℤ count_usable_ips n)
    × (pos k ≤ℤ c.free)

counted-next-ge : (c : Counts) → c.next ≤ℤ (counted c).next
unfolding counted
counted-next-ge c = grind int_laws

counted-free : (c : Counts) → (counted c).free ≡ c.free -ℤ pos 1
unfolding counted
counted-free c = refl

Room-counted : (n : IpNet) (k : ℕ) (c : Counts) → Room n (suc k) c → Room n k (counted c)
Room-counted n k c (low, total, usable, free) =
    let up = counted-next-le c in
    let same = counted-next-ge c in
    let sums = (counted_sums c).2 in
    let less = counted-free c in
    (
      omega (int_laws, up, same),
      rw sums (omega (int_laws, up)),
      omega (int_laws, up),
      rw less (omega int_laws),
    )

-- The names are different.
abbrev pub Differ : List Claim → Type 0
Differ [] = Unit
Differ (c ∷ cs) = All (λ d. cluster_ip_name d ≢ cluster_ip_name c) cs × Differ cs

module _ {W : Type 0} (env : Env W) where
  -- The calls, one after the other, each answer a cluster IP and its pool.
  pub Served : List Claim → W → Type 0
  Served [] w = Unit
  Served (c ∷ cs) w =
      (cip : ClusterIp) × (p : ClusterIpPool) × (v : W) × (create_cluster_ip env c w
        ≡ (ok (cip, some p), v))
      × Served cs v

module _ {W : Type 0} (env : Env W) (family : Text) (current : W → ClusterIpPool)
    (Free : Text → W → Type 0) (obliging : Obliging env family current Free) where
  found :
      (w : W)
      → pos 1 ≤ℤ (counts_of (current w).status).free
      → find_empty_cluster_ip_pool env family w ≡ (ok (current w), w)
  unfolding counts_of
  found w free = find_empty_cluster_ip_pool-single env family w (obliging.lists w) free

  -- One call is served, and the pool's counts have moved on.
  served_one :
      (c : Claim) (w : W) {ip : ℕ} {n : IpNet} (k : ℕ)
      → c.family ≡ family
      → parse_cidr (current w).spec.cidr ≡ some (ip, n)
      → n.bits ≡ 32
      → n.ones ≤ 30
      → Room n (suc k) (counts_of (current w).status)
      → Free (cluster_ip_name c) w
      → (cip : ClusterIp) × (p : ClusterIpPool) × (v : W) × (create_cluster_ip env c w
          ≡ (ok (cip, some p), v))
        × ((current v).spec ≡ (current w).spec)
        × (counts_of (current v).status ≡ counted (counts_of (current w).status))
        × ((name : Text) → name ≢ cluster_ip_name c → Free name w → Free name v)
  unfolding create_cluster_ip allocate use_next create_at store_counts new_cluster_ip moved_on
  served_one c w {ip} {n} k own e bits ones (low, total, usable, free) fresh =
      let pool = current w in
      let counts = counts_of pool.status in
      let (t, pick) = picked pool.spec.cidr counts.next e bits ones low (omega int_laws) in
      let found_own =
        subst (λ (f : Text). find_empty_cluster_ip_pool env f w ≡ (ok pool, w)) (sym own)
          (found w (omega int_laws)) in
      let more = exhausted_of_le counts (omega int_laws) in
      let (cip, u, made, kept, others) =
        obliging.creates (new_cluster_ip c pool t (env.now w)) w fresh in
      let (p, v, put, spec, status, free_names) =
        obliging.stores (moved_on pool) u (ap (λ (q : ClusterIpPool). q.meta) (sym kept)) in
      (
        cip,
        p,
        v,
        rw (found_own, more, pick, made, put) refl,
        spec ∙ ap (λ (q : ClusterIpPool). q.spec) kept,
        ap counts_of status ∙ counts_of-stored (counted counts) pool.status,
        λ name differs h. free_names name (others name differs h),
      )

  Free-still :
      (taken : Text) (w v : W)
      → ((name : Text) → name ≢ taken → Free name w → Free name v)
      → (cs : List Claim) → All (λ d. cluster_ip_name d ≢ taken) cs
      → All (λ d. Free (cluster_ip_name d) w) cs
      → All (λ d. Free (cluster_ip_name d) v) cs
  Free-still taken w v others [] differs free = tt
  Free-still taken w v others (d ∷ ds) (differs, rest) (free, frees) =
      (others (cluster_ip_name d) differs free, Free-still taken w v others ds rest frees)

  -- Calls for claims of one family, `k` of them, with different names that are free, one after the
  -- other, each answer a cluster IP and its pool without an error, from a pool of an IPv4 network
  -- with two host bits or more whose next index is not negative, and at most the count of usable
  -- addresses less `k`, which has `k` free addresses by its count, and whose total less its next
  -- index is at least `4 k` less two; by a server that lists this pool alone, creates a cluster IP
  -- of a free name, and stores the status of a pool that was read as it is.
  pub create_cluster_ip-Served :
      (cs : List Claim) (w : W) (ip : ℕ) (n : IpNet)
      → All (λ c. c.family ≡ family) cs
      → Differ cs
      → All (λ c. Free (cluster_ip_name c) w) cs
      → parse_cidr (current w).spec.cidr ≡ some (ip, n)
      → n.bits ≡ 32
      → n.ones ≤ 30
      → Room n (length cs) (counts_of (current w).status)
      → Served env cs w
  unfolding Served
  create_cluster_ip-Served [] w ip n own differ fresh e bits ones room = tt
  create_cluster_ip-Served (c ∷ cs) w ip n (own, owns) (apart, differ) (fresh, all_fresh) e bits
        ones room =
      let (cip, p, v, served, spec, counts, others) =
        served_one c w (length cs) own e bits ones room fresh in
      (
        cip,
        p,
        v,
        served,
        create_cluster_ip-Served cs v ip n owns differ
            (Free-still (cluster_ip_name c) w v others cs apart all_fresh)
            (ap (λ s. parse_cidr s.cidr) spec ∙ e) bits ones
            (subst (λ (x : Counts). Room n (length cs) x) (sym counts)
              (Room-counted n (length cs) (counts_of (current w).status) room)),
      )
