-- ===== src/Ipam/Tests/Memory.antt =====
-- A world of cluster IPs and pools in memory, for the runs of package ipam.
use mathlib.Core.Path.{subst₂}
use kloudstack.Base.{
  ◌≢◌, Bool-cases, inl, inr, sym, ap, ◌≡◌, refl, Bool, true, ◌&&◌, List, [], ◌∷◌, filter, arith,
  if◌then◌else◌,
}
use kloudstack.Base.Int.{pos}
use kloudstack.Base.Text.{Text, lit, text_eq}
use kloudstack.Base.Text.Laws.{text_eq_refl}
use kloudstack.Base.Result.{panic, Result, ok, err, failure}
use kloudstack.Api.Core.{Pod, named}
use kloudstack.Api.Network.{ClusterIp, ClusterIpPool}
use kloudstack.Api.Kube.{Kube, Selector}
use kloudstack.Ipam.Finders.{Env}
use kloudstack.Ipam.Create.{claim_selector}
use kloudstack.Ipam.Create.Again.{IsLawful}
use kloudstack.Ipam.Create.Distinct.{Echoes}
use kloudstack.Ipam.Create.Panic.{NeverPanics}

abbrev pub World : Type 0
World = List ClusterIp × List ClusterIpPool

pub field : ClusterIp → Text → Text
field cip name =
    if text_eq name (lit "spec.family")
    then cip.spec.family
    else if text_eq name (lit "spec.containerInterface")
    then cip.spec.interface
    else if text_eq name (lit "spec.resource")
    then cip.spec.resource
    else cip.spec.mac

unfoldable pub matches : Selector → ClusterIp → Bool
unfolding field
matches [] cip = true
matches ((name, value) ∷ sel) cip = text_eq (field cip name) value && matches sel cip

-- The family that a selector of pools asks for.
unfoldable pub of_family : Selector → ClusterIpPool → Bool
of_family [] pool = true
of_family ((name, value) ∷ sel) pool = text_eq pool.spec.ip_family value

pub pool_named : Text → List ClusterIpPool → Result ClusterIpPool
pool_named name [] = err (failure (lit "not found"))
pool_named name (p ∷ ps) = if text_eq p.meta.name name then ok p else pool_named name ps

pub cluster_ip_named : Text → List ClusterIp → Result ClusterIp
cluster_ip_named name [] = err (failure (lit "not found"))
cluster_ip_named name (c ∷ cs) = if text_eq c.meta.name name then ok c else cluster_ip_named name cs

pub unused : {A : Type 0} → Result A
unused = err (failure (lit "not used"))

unfoldable pub memory_pods : Kube World Pod
memory_pods = record {
  get = λ namespace name w. ok (record { meta = named namespace name });
  list = λ sel limit w. unused;
  create = λ o w. (unused, w);
  update = λ o w. (unused, w);
  update_status = λ o w. (unused, w);
  patch = λ o w. (unused, w);
  delete = λ namespace name w. (unused, w);
  delete_all_of = λ namespace sel w. (unused, w);
}

unfoldable pub memory_cluster_ips : Kube World ClusterIp
unfolding matches cluster_ip_named
memory_cluster_ips = record {
  get = λ namespace name w. cluster_ip_named name w.0;
  list = λ sel limit w. ok (filter (matches sel) w.0);
  create = λ o w. (ok o, (o ∷ w.0, w.1));
  update = λ o w. (unused, w);
  update_status = λ o w. (unused, w);
  patch = λ o w. (unused, w);
  delete = λ namespace name w. (unused, w);
  delete_all_of = λ namespace sel w. (unused, w);
}

unfoldable pub memory_pools : Kube World ClusterIpPool
unfolding pool_named of_family
memory_pools = record {
  get = λ namespace name w. pool_named name w.1;
  list = λ sel limit w. ok (filter (of_family sel) w.1);
  create = λ o w. (unused, w);
  update = λ o w. (unused, w);
  update_status = λ o w. (ok o, (w.0, o ∷ w.1));
  patch = λ o w. (unused, w);
  delete = λ namespace name w. (unused, w);
  delete_all_of = λ namespace sel w. (unused, w);
}

unfoldable pub memory : Env World
unfolding memory_pods memory_cluster_ips memory_pools
memory = record {
  pods = memory_pods;
  cluster_ips = memory_cluster_ips;
  cluster_ip_pools = memory_pools;
  now = λ w. 1700000000;
  mac_prefix = [];
}

matches_own :
    (c : ClusterIp)
    → matches
        ((lit "spec.family", c.spec.family)
          ∷ (lit "spec.containerInterface", c.spec.interface)
          ∷ (lit "spec.resource", c.spec.resource)
          ∷ [])
        c
      ≡ true
unfolding matches field text_eq
matches_own c =
    rw (text_eq_refl c.spec.family, text_eq_refl c.spec.interface, text_eq_refl c.spec.resource)

created :
    {A B : Type 0} {a a' : A} {b b' : B}
    → ◌≡◌ {A = Result A × B} (ok a, b) (ok a', b')
    → (a ≡ a') × (b ≡ b')
created e = (ground arith, ground arith)

after_none :
    {A : Type 0} (x : A) (xs : List A)
    → ◌≡◌ {A = Result (List A)} (ok xs) (ok [])
    → ◌≡◌ {A = Result (List A)} (ok (x ∷ xs)) (ok (x ∷ []))
after_none x xs e = ground arith

listed_own :
    (o : ClusterIp) (w : World)
    → memory.cluster_ips.list
        (claim_selector o.spec.family o.spec.interface o.spec.resource)
        (pos 1000)
        w
      ≡ ok []
    → memory.cluster_ips.list
        (claim_selector o.spec.family o.spec.interface o.spec.resource)
        (pos 1000)
        (o ∷ w.0, w.1)
      ≡ ok (o ∷ [])
unfolding memory memory_cluster_ips
listed_own o w none_yet = rw (matches_own o) (after_none o _ none_yet)

stored_own :
    (p : ClusterIpPool) (w : World)
    → memory.cluster_ip_pools.get [] p.meta.name (w.0, p ∷ w.1) ≡ ok p
unfolding memory memory_pools pool_named
stored_own p w = rw (text_eq_refl p.meta.name)

pub memory-IsLawful : IsLawful memory
unfolding memory memory_cluster_ips memory_pools memory_pods
memory-IsLawful = record {
  create-spec = λ o w e. let (same, _) = created e in ap (λ (c : ClusterIp). c.spec) (sym same);
  list-create = λ o w e none_yet.
      let (same, world) = created e in
      subst₂
        (λ (x : ClusterIp) (v : World).
          memory.cluster_ips.list (claim_selector o.spec.family o.spec.interface o.spec.resource)
            (pos 1000) v
          ≡ ok (x ∷ []))
        same world (listed_own o w none_yet);
  pods-create = λ o namespace name w. refl;
  pods-update_status = λ p namespace name w. refl;
  list-update_status = λ p family interface resource w. refl;
  get-update_status = λ p w e.
      let (same, world) = created e in
      subst₂
        (λ (x : ClusterIpPool) (v : World). memory.cluster_ip_pools.get [] p.meta.name v ≡ ok x)
        same world (stored_own p w);
}

pub memory-Echoes : Echoes memory
unfolding memory memory_cluster_ips memory_pools
memory-Echoes = record {
  create-spec = λ o w e. let (same, _) = created e in ap (λ (c : ClusterIp). c.spec) (sym same);
  update_status-same = λ q w e.
      let (same, _) = created e in
      (
        ap (λ (p : ClusterIpPool). p.spec) (sym same),
        ap (λ (p : ClusterIpPool). p.status) (sym same),
      );
}

cluster_ip_named_safe : (name : Text) (cips : List ClusterIp) → cluster_ip_named name cips ≢ panic
unfolding cluster_ip_named
cluster_ip_named_safe name [] = λ e. cc
cluster_ip_named_safe name (c ∷ cips) = elim (Bool-cases (text_eq c.meta.name name)) [
  | inl same ↦ rw same (λ e. cc)
  | inr differs ↦ rw differs (cluster_ip_named_safe name cips)
]

pub memory-NeverPanics : NeverPanics memory
unfolding memory memory_cluster_ips memory_pools
memory-NeverPanics = record {
  gets = λ namespace name w. cluster_ip_named_safe name w.0;
  creates = λ o w e. cc;
  stores = λ q w e. cc;
}
