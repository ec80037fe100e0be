-- ===== src/Ipam/Create/Again.antt =====
-- A request that is made again.
use mathlib.Core.Path.{subst}
use kloudstack.Base.{◌≡◌, sym, ap, ◌∙◌, inl, inr, Option, some, List, [], ◌∷◌, arith}
use kloudstack.Base.Int.{pos}
use kloudstack.Base.Text.{Text}
use kloudstack.Base.Result.{ok, bind-ok}
use kloudstack.Api.Core.{Pod}
use kloudstack.Api.Network.{ClusterIp, ClusterIpPool}
use kloudstack.Ipam.Finders.{Env}
use kloudstack.Ipam.Create.{
  IpamRequest, Claim, resource_of, new_cluster_ip, moved_on, claim_selector, claim_of,
  existing_or_new, find_or_create_for, find_or_create_cluster_ip,
}
use kloudstack.Ipam.Create.Laws.{Allocated, create_cluster_ip-ok}

-- What the code relies on of the API server: what is written is read back, and a write of one kind
-- of object leaves the other kinds alone.
pub record IsLawful {W : Type 0} (env : Env W) : Type 0 where
  pub create-spec :
      (o : ClusterIp) (w : W) {o' : ClusterIp} {w' : W}
      → env.cluster_ips.create o w ≡ (ok o', w')
      → o'.spec ≡ o.spec
  pub list-create :
      (o : ClusterIp) (w : W) {o' : ClusterIp} {w' : W}
      → env.cluster_ips.create o w ≡ (ok o', w')
      → env.cluster_ips.list
          (claim_selector o.spec.family o.spec.interface o.spec.resource)
          (pos 1000)
          w
        ≡ ok []
      → env.cluster_ips.list
          (claim_selector o.spec.family o.spec.interface o.spec.resource)
          (pos 1000)
          w'
        ≡ ok (o' ∷ [])
  pub pods-create :
      (o : ClusterIp) (namespace name : Text) (w : W)
      → env.pods.get namespace name (env.cluster_ips.create o w).1 ≡ env.pods.get namespace name w
  pub pods-update_status :
      (p : ClusterIpPool) (namespace name : Text) (w : W)
      → env.pods.get namespace name (env.cluster_ip_pools.update_status p w).1
        ≡ env.pods.get namespace name w
  pub list-update_status :
      (p : ClusterIpPool) (family interface resource : Text) (w : W)
      → env.cluster_ips.list
          (claim_selector family interface resource)
          (pos 1000)
          (env.cluster_ip_pools.update_status p w).1
        ≡ env.cluster_ips.list (claim_selector family interface resource) (pos 1000) w
  pub get-update_status :
      (p : ClusterIpPool) (w : W) {p' : ClusterIpPool} {w' : W}
      → env.cluster_ip_pools.update_status p w ≡ (ok p', w')
      → env.cluster_ip_pools.get [] p.meta.name w' ≡ ok p'

module _ {W : Type 0} (env : Env W) (L : IsLawful env) where
  again_of_new :
      (r : IpamRequest) (pod : Pod) (w : W) (cip : ClusterIp) (p : ClusterIpPool) (w' : W)
      → env.pods.get r.namespace r.name w ≡ ok pod
      → env.cluster_ips.list (claim_selector r.family r.interface (resource_of r pod)) (pos 1000) w
        ≡ ok []
      → Allocated env (claim_of env r pod) w cip p w'
      → find_or_create_cluster_ip env r w' ≡ (ok (cip, some p), w')
  unfolding find_or_create_cluster_ip claim_of moved_on new_cluster_ip
  again_of_new r pod w cip p w' got none_yet (pool, address, v, _, _, _, created, put) =
      let o = new_cluster_ip (claim_of env r pod) pool address (env.now w) in
      let pods_v : env.pods.get r.namespace r.name v ≡ ok pod =
        rw created at (L.pods-create o r.namespace r.name w) ∙ got in
      let pods_w : env.pods.get r.namespace r.name w' ≡ ok pod =
        rw put at (L.pods-update_status (moved_on pool) r.namespace r.name v) ∙ pods_v in
      let listed_v = L.list-create o w created none_yet in
      let listed =
        rw put at (L.list-update_status (moved_on pool) r.family r.interface (resource_of r pod) v)
        ∙ listed_v in
      let named : cip.spec.cluster_ip_pool ≡ pool.meta.name =
        ap (λ s. s.cluster_ip_pool) (L.create-spec o w created) in
      let stored = L.get-update_status (moved_on pool) v put in rw (pods_w, listed, named, stored)

  existing-world :
      (c : Claim) (first : ClusterIp) (items : List ClusterIp) (w : W)
      {x : ClusterIp × Option ClusterIpPool} {w' : W}
      → existing_or_new env c (first ∷ items) w ≡ (ok x, w')
      → w' ≡ w
  unfolding existing_or_new
  existing-world c first items w e = ground arith

  -- A request that was served with a pool is served the same when it is made again, by reading
  -- alone: no second address is allocated for it, whether it was allocated one or found one.
  pub find_or_create_cluster_ip-again :
      (r : IpamRequest) (w : W) (cip : ClusterIp) (p : ClusterIpPool) (w' : W)
      → find_or_create_cluster_ip env r w ≡ (ok (cip, some p), w')
      → find_or_create_cluster_ip env r w' ≡ (ok (cip, some p), w')
  unfolding find_or_create_cluster_ip
  find_or_create_cluster_ip-again r w cip p w' served =
      let (pod, u, got, e1) =
        bind-ok (env.pods.get r.namespace r.name w, w) (find_or_create_for env r) served in
      let (items, v, listed, e2) =
        bind-ok
          (
            env.cluster_ips.list (claim_selector r.family r.interface (resource_of r pod))
                (pos 1000) u,
            u,
          )
          (existing_or_new env (claim_of env r pod)) e1 in
      let uw : u ≡ w = ground arith in
      let vw : v ≡ w = ground arith in
      by_items pod items (ground arith)
        (subst
          (λ x.
            env.cluster_ips.list (claim_selector r.family r.interface (resource_of r pod))
              (pos 1000) x
            ≡ ok items)
          uw (ap (λ t. t.0) listed))
        (subst (λ x. existing_or_new env (claim_of env r pod) items x ≡ (ok (cip, some p), w')) vw
          e2)
    where
      by_items :
          (pod : Pod) (items : List ClusterIp)
          → env.pods.get r.namespace r.name w ≡ ok pod
          → env.cluster_ips.list
              (claim_selector r.family r.interface (resource_of r pod))
              (pos 1000)
              w
            ≡ ok items
          → existing_or_new env (claim_of env r pod) items w ≡ (ok (cip, some p), w')
          → find_or_create_cluster_ip env r w' ≡ (ok (cip, some p), w')
      by_items pod [] got listed e =
          elim (create_cluster_ip-ok env (claim_of env r pod) w cip (some p) w' e) [
            | inl (p', same, a) ↦
                let pool : p' ≡ p = cc in
                again_of_new r pod w cip p w' got listed
                  (subst (λ x. Allocated env (claim_of env r pod) w cip x w') pool a)
            | inr (no_pool, _) ↦ absurd (cc)
          ]
      by_items pod (first ∷ items) got listed e =
          subst (λ x. find_or_create_cluster_ip env r x ≡ (ok (cip, some p), w'))
            (sym (existing-world (claim_of env r pod) first items w e)) served
