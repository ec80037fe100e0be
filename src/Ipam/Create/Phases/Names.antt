-- ===== src/Ipam/Create/Phases/Names.antt =====
-- What is relied on of the server's names, and what an access of `createClusterIP` (pkg/ipam/ipam.go)
-- does to the name that it asks for.
use kloudstack.Base.{◌≡◌, refl, sym, ◌⊎◌, inl, inr, none, some, List, [], ◌∷◌, Bool-cases}
use mathlib.Core.Path.{subst}
use kloudstack.Base.Text.{Text}
use kloudstack.Base.Result.{Error, Result, ok, err, panic}
use kloudstack.NetUtils.Ip.{pick_usable_ip}
use kloudstack.Api.Network.{ClusterIp, ClusterIpPool}
use kloudstack.Ipam.Allocation.{counts_of, exhausted}
use kloudstack.Ipam.Finders.{Env, find_empty_cluster_ip_pool}
use kloudstack.Ipam.Create.{Claim, cluster_ip_name, new_cluster_ip, moved_on}
use kloudstack.Ipam.Create.Laws.{find_empty-world}
use kloudstack.Ipam.Create.Phases.{
  Phase, start, holding, taking, made, ended, then_to, first_released, make_at, step,
}

-- What is relied on of the server: a name is taken by the cluster IP that is created with it, and
-- refused from then on; storing a pool's status leaves the names alone.
pub record Named {W : Type 0} (env : Env W) (Taken : Text → W → Type 0) (refusal : Text → Error)
    : Type 0 where
  pub takes :
      (o : ClusterIp) (w : W) {o' : ClusterIp} {w' : W}
      → env.cluster_ips.create o w ≡ (ok o', w')
      → Taken o.meta.name w'
  pub refuses :
      (o : ClusterIp) (w : W)
      → Taken o.meta.name w
      → env.cluster_ips.create o w ≡ (err (refusal o.meta.name), w)
  pub creates :
      (n : Text) (o : ClusterIp) (w : W) → Taken n w → Taken n (env.cluster_ips.create o w).1
  pub stores :
      (n : Text) (q : ClusterIpPool) (w : W)
      → Taken n w
      → Taken n (env.cluster_ip_pools.update_status q w).1

-- The call has created its cluster IP, and no error came behind it.
abbrev pub Wrote : Phase → Type 0
Wrote (start c) = ⊥
Wrote (holding c pool) = ⊥
Wrote (taking pool rest cip) = ⊥
Wrote (made pool cip) = Unit {0}
Wrote (ended (ok (cip, some p))) = Unit {0}
Wrote (ended (ok (cip, none))) = ⊥
Wrote (ended (err e)) = ⊥
Wrote (ended panic) = ⊥

-- The name that the call asks for, as long as it has not.
abbrev pub Asks : Text → Phase → Type 0
Asks n (start c) = cluster_ip_name c ≡ n
Asks n (holding c pool) = cluster_ip_name c ≡ n
Asks n (taking pool rest cip) = Unit {0}
Asks n (made pool cip) = Unit {0}
Asks n (ended r) = Unit {0}

module _ {W : Type 0} (env : Env W) (Taken : Text → W → Type 0) (refusal : Text → Error)
    (lawful : Named env Taken refusal) where
  -- What an access of a call does: either it writes no name, or the name was free.
  abbrev pub Written : Text → Phase → W → Phase × W → Type 0
  Written n p w s =
      Asks n s.0
      × (Taken n w → Taken n s.1)
      × ((Wrote s.0 → Wrote p) ⊎ ((¬ Taken n w) × Taken n s.1))

  -- An access that creates nothing.
  Written-same :
      (n : Text) (p s : Phase) (w u : W)
      → Asks n s
      → u ≡ w
      → (Wrote s → Wrote p)
      → Written n p w (s, u)
  Written-same n p s w u a same f = (a, (λ t. subst (λ (x : W). Taken n x) (sym same) t), inl f)

  Written-start :
      (n : Text) (c : Claim) (w : W) (m : Result ClusterIpPool × W)
      → cluster_ip_name c ≡ n
      → find_empty_cluster_ip_pool env c.family w ≡ m
      → Written n (start c) w (then_to (holding c) m)
  Written-start n c w (ok q, u) a e =
      Written-same n (start c) (holding c q) w u a (find_empty-world env c.family w e) (λ b. b)
  Written-start n c w (err x, u) a e =
      Written-same n (start c) (ended (err x)) w u tt (find_empty-world env c.family w e) (λ b. b)
  Written-start n c w (panic, u) a e =
      Written-same n (start c) (ended panic) w u tt (find_empty-world env c.family w e) (λ b. b)

  Written-released :
      (n : Text) (c : Claim) (pool : ClusterIpPool) (names : List Text) (w : W)
      → Written n (holding c pool) w (first_released env pool names w)
  unfolding first_released
  Written-released n c pool [] w =
      Written-same n (holding c pool) (ended panic) w w tt refl (λ b. b)
  Written-released n c pool (first ∷ rest) w = got (env.cluster_ips.get [] first w)
    where
      got :
          (r : Result ClusterIp) → Written n (holding c pool) w (then_to (taking pool rest) (r, w))
      got (ok cip) = Written-same n (holding c pool) (taking pool rest cip) w w tt refl (λ b. b)
      got (err e) = Written-same n (holding c pool) (ended (err e)) w w tt refl (λ b. b)
      got panic = Written-same n (holding c pool) (ended panic) w w tt refl (λ b. b)

  -- The creation, of a name that was free if it succeeds.
  Written-create :
      (n : Text) (c : Claim) (pool : ClusterIpPool) (o : ClusterIp) (w : W)
      (m : Result ClusterIp × W)
      → o.meta.name ≡ n
      → env.cluster_ips.create o w ≡ m
      → Written n (holding c pool) w (then_to (made pool) m)
  Written-create n c pool o w (ok cip, u) a e =
      let kept = λ (t : Taken n w).
        subst (λ (x : Result ClusterIp × W). Taken n x.1) e (lawful.creates n o w t) in
      let free = λ (t : Taken n w).
        let no = lawful.refuses o w (subst (λ (x : Text). Taken x w) (sym a) t) in absurd (cc) in
      (tt, kept, inr (free, subst (λ (x : Text). Taken x u) a (lawful.takes o w e)))
  Written-create n c pool o w (err x, u) a e = (
    tt,
    (λ t. subst (λ (x : Result ClusterIp × W). Taken n x.1) e (lawful.creates n o w t)),
    inl (λ b. b),
  )
  Written-create n c pool o w (panic, u) a e = (
    tt,
    (λ t. subst (λ (x : Result ClusterIp × W). Taken n x.1) e (lawful.creates n o w t)),
    inl (λ b. b),
  )

  Written-make :
      (n : Text) (c : Claim) (pool : ClusterIpPool) (r : Result Text) (w : W)
      → cluster_ip_name c ≡ n
      → Written n (holding c pool) w (make_at env c pool r w)
  unfolding make_at new_cluster_ip
  Written-make n c pool (ok address) w a =
      Written-create n c pool (new_cluster_ip c pool address (env.now w)) w
        (env.cluster_ips.create (new_cluster_ip c pool address (env.now w)) w) a refl
  Written-make n c pool (err e) w a =
      Written-same n (holding c pool) (ended (err e)) w w tt refl (λ b. b)
  Written-make n c pool panic w a =
      Written-same n (holding c pool) (ended panic) w w tt refl (λ b. b)

  -- The storing of the status.
  Written-store :
      (n : Text) (p : Phase) (k : ClusterIpPool → Phase) (q : ClusterIpPool) (w : W)
      (m : Result ClusterIpPool × W)
      → ((x : ClusterIpPool) → Asks n (k x) × (Wrote (k x) → Wrote p))
      → env.cluster_ip_pools.update_status q w ≡ m
      → Written n p w (then_to k m)
  Written-store n p k q w (ok x, u) h e = (
    (h x).0,
    (λ t. subst (λ (y : Result ClusterIpPool × W). Taken n y.1) e (lawful.stores n q w t)),
    inl (h x).1,
  )
  Written-store n p k q w (err x, u) h e = (
    tt,
    (λ t. subst (λ (y : Result ClusterIpPool × W). Taken n y.1) e (lawful.stores n q w t)),
    inl (λ b. absurd b),
  )
  Written-store n p k q w (panic, u) h e = (
    tt,
    (λ t. subst (λ (y : Result ClusterIpPool × W). Taken n y.1) e (lawful.stores n q w t)),
    inl (λ b. absurd b),
  )

  pub step-Written : (n : Text) (p : Phase) (w : W) → Asks n p → Written n p w (step env p w)
  step-Written n (start c) w a =
      unfold step in Written-start n c w (find_empty_cluster_ip_pool env c.family w) a refl
  step-Written n (holding c pool) w a = elim (Bool-cases (exhausted (counts_of pool.status))) [
    | inl full ↦
        unfold step in rw full (Written-released n c pool pool.status.released_cluster_ips w)
    | inr more ↦
        unfold step in
        rw more (
          Written-make n c pool (pick_usable_ip pool.spec.cidr (some (counts_of pool.status).next))
            w a)
  ]
  step-Written n (taking pool rest cip) w a =
      unfold step in
      let q = record pool { status = record (pool.status) { released_cluster_ips = rest } } in
      Written-store n (taking pool rest cip) (λ _. ended (ok (cip, none))) q w
        (env.cluster_ip_pools.update_status q w) (λ x. (tt, λ b. b)) refl
  step-Written n (made pool cip) w a =
      unfold step in
      Written-store n (made pool cip) (λ x. ended (ok (cip, some x))) (moved_on pool) w
        (env.cluster_ip_pools.update_status (moved_on pool) w) (λ x. (tt, λ b. b)) refl
  step-Written n (ended r) w a =
      unfold step in Written-same n (ended r) (ended r) w w tt refl (λ b. b)
