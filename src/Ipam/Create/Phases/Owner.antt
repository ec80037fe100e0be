-- ===== src/Ipam/Create/Phases/Owner.antt =====
-- Calls of `createClusterIP` (pkg/ipam/ipam.go) whose cluster IPs have one name: those of one owner's
-- interface, of whatever family.
use kloudstack.Base.{◌≡◌, refl, sym, some, false, inl, inr}
use mathlib.Core.Path.{subst}
use kloudstack.Base.Text.{Text}
use kloudstack.Base.Result.{Error, Result, ok, err}
use kloudstack.NetUtils.Ip.{pick_usable_ip}
use kloudstack.Api.Network.{ClusterIp, ClusterIpPool}
use kloudstack.Ipam.Allocation.{counts_of, exhausted}
use kloudstack.Ipam.Finders.{Env, find_empty_cluster_ip_pool}
use kloudstack.Ipam.Create.{
  Claim, cluster_ip_name, new_cluster_ip, moved_on, create_at, use_next, allocate,
  create_cluster_ip,
}
use kloudstack.Ipam.Create.Laws.{create_cluster_ip-ok}
use kloudstack.Ipam.Create.Phases.{start, ended, step}
use kloudstack.Ipam.Create.Phases.System.{
  System, Turn, turn_one, turn_two, meanwhile, Reach, here, after,
}
use kloudstack.Ipam.Create.Phases.Names.{Named, Wrote, Asks, Written, step-Written}

module _ {W : Type 0} (env : Env W) (Taken : Text → W → Type 0) (refusal : Text → Error) where
  -- Others free no name.
  abbrev pub Keeping : Text → W → W → Type 0
  Keeping n w w' = Taken n w → Taken n w'

  -- What holds of two calls for one name: at most one has written, and then the name is taken.
  record Inv (n : Text) (s : System W) : Type 0 where
    asks_one : Asks n s.one
    asks_two : Asks n s.two
    wrote_one : Wrote s.one → Taken n s.world
    wrote_two : Wrote s.two → Taken n s.world
    once : Wrote s.one → ¬ Wrote s.two

  module _ (lawful : Named env Taken refusal) where
    Turn-Inv : (n : Text) {s t : System W} → Inv n s → Turn env (Keeping n) s t → Inv n t
    Turn-Inv n {s} v turn_one =
        by_access (step-Written env Taken refusal lawful n s.one s.world v.asks_one)
      where
        by_access :
            Written env Taken refusal lawful n s.one s.world (step env s.one s.world)
            → Inv n
                (record s { one = (step env s.one s.world).0; world = (step env s.one s.world).1 })
        by_access (a, keep, inl f) = record {
          asks_one = a;
          asks_two = v.asks_two;
          wrote_one = λ b. keep (v.wrote_one (f b));
          wrote_two = λ b. keep (v.wrote_two b);
          once = λ b c. v.once (f b) c;
        }
        by_access (a, keep, inr (free, now)) = record {
          asks_one = a;
          asks_two = v.asks_two;
          wrote_one = λ b. now;
          wrote_two = λ b. now;
          once = λ b c. free (v.wrote_two c);
        }
    Turn-Inv n {s} v turn_two =
        by_access (step-Written env Taken refusal lawful n s.two s.world v.asks_two)
      where
        by_access :
            Written env Taken refusal lawful n s.two s.world (step env s.two s.world)
            → Inv n
                (record s { two = (step env s.two s.world).0; world = (step env s.two s.world).1 })
        by_access (a, keep, inl f) = record {
          asks_one = v.asks_one;
          asks_two = a;
          wrote_one = λ b. keep (v.wrote_one b);
          wrote_two = λ b. keep (v.wrote_two (f b));
          once = λ b c. v.once b (f c);
        }
        by_access (a, keep, inr (free, now)) = record {
          asks_one = v.asks_one;
          asks_two = a;
          wrote_one = λ b. now;
          wrote_two = λ b. now;
          once = λ b c. free (v.wrote_one b);
        }
    Turn-Inv n {s} v (meanwhile w kept) = record {
      asks_one = v.asks_one;
      asks_two = v.asks_two;
      wrote_one = λ b. kept (v.wrote_one b);
      wrote_two = λ b. kept (v.wrote_two b);
      once = v.once;
    }

    Reach-Inv : (n : Text) {s t : System W} → Inv n s → Reach env (Keeping n) s t → Inv n t
    Reach-Inv n v here = v
    Reach-Inv n v (after r turn) = Turn-Inv n (Reach-Inv n v r) turn

    -- Two calls for cluster IPs of one name, as two calls for one interface of one owner are, are not
    -- both served a new address, in whatever order their accesses to the server fall, if the server
    -- refuses a name that is taken and others do not free it meanwhile.
    pub race-once :
        (c c' : Claim) (w : W) (t : System W) (cip cip' : ClusterIp) (p p' : ClusterIpPool)
        → cluster_ip_name c' ≡ cluster_ip_name c
        → Reach env
            (Keeping (cluster_ip_name c))
            (record { one = start c; two = start c'; world = w })
            t
        → t.one ≡ ended (ok (cip, some p))
        → ¬ (t.two ≡ ended (ok (cip', some p')))
    race-once c c' w t cip cip' p p' same r one two =
        let v =
          Reach-Inv (cluster_ip_name c)
            (record {
              asks_one = refl;
              asks_two = same;
              wrote_one = λ b. absurd b;
              wrote_two = λ b. absurd b;
              once = λ b _. b;
            })
            r in
        v.once (subst Wrote (sym one) tt) (subst Wrote (sym two) tt)

    -- The name is taken after a call that was served a new address.
    wrote :
        (c : Claim) (w w' : W) (cip : ClusterIp) (p : ClusterIpPool)
        → create_cluster_ip env c w ≡ (ok (cip, some p), w')
        → Taken (cluster_ip_name c) w'
    unfolding new_cluster_ip
    wrote c w w' cip p e = elim (create_cluster_ip-ok env c w cip (some p) w' e) [
      | inr (no_pool, _) ↦ absurd (cc)
      | inl (q, _, (pool, address, v, _, _, _, created, put)) ↦
          subst (λ (x : Result ClusterIpPool × W). Taken (cluster_ip_name c) x.1) put
            (lawful.stores (cluster_ip_name c) (moved_on pool) v
              (lawful.takes (new_cluster_ip c pool address (env.now w)) w created))
    ]

    -- After a call that was served a new address, a call for a cluster IP of the same name, say that
    -- of another family for the same interface and owner, fails with the server's refusal, and changes
    -- nothing, if it finds a pool that is not used up and picks an address of it.
    pub create_cluster_ip-taken :
        (c c' : Claim) (w w' : W) (cip : ClusterIp) (p pool : ClusterIpPool) (address : Text)
        → create_cluster_ip env c w ≡ (ok (cip, some p), w')
        → cluster_ip_name c' ≡ cluster_ip_name c
        → find_empty_cluster_ip_pool env c'.family w' ≡ (ok pool, w')
        → exhausted (counts_of pool.status) ≡ false
        → pick_usable_ip pool.spec.cidr (some (counts_of pool.status).next) ≡ ok address
        → create_cluster_ip env c' w' ≡ (err (refusal (cluster_ip_name c')), w')
    unfolding create_cluster_ip allocate use_next create_at new_cluster_ip
    create_cluster_ip-taken c c' w w' cip p pool address e same found more picked =
        let taken = wrote c w w' cip p e in
        let refused =
          lawful.refuses (new_cluster_ip c' pool address (env.now w')) w'
            (subst (λ (x : Text). Taken x w') (sym same) taken) in
        rw (found, more, picked, refused)
