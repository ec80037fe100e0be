-- ===== src/Ipam/Create/Phases/Moves.antt =====
-- What one access of a call does to the pool and to what the call knows of it (`createClusterIP` of
-- pkg/ipam/ipam.go).
use kloudstack.Base.{ℕ, ◌≡◌, refl, sym, ap, ◌∙◌, ◌⊎◌, inl, true, false, some, List, [], ◌∷◌}
use mathlib.Core.Path.{subst}
use kloudstack.Base.Int.{ℤ}
use kloudstack.Base.Text.{Text}
use kloudstack.Base.Result.{Result, ok, err, panic}
use kloudstack.NetUtils.Ip.{pick_usable_ip}
use kloudstack.Api.Core.{Meta}
use kloudstack.Api.Network.{ClusterIp, ClusterIpPool}
use kloudstack.Ipam.Allocation.{counts_of, exhausted}
use kloudstack.Ipam.Finders.{Env, find_empty_cluster_ip_pool}
use kloudstack.Ipam.Create.{Claim, new_cluster_ip}
use kloudstack.Ipam.Create.Laws.{find_empty-world}
use kloudstack.Ipam.Create.Distinct.{IsAddressOf, pick-IsAddressOf}
use kloudstack.Ipam.Create.Phases.{
  Phase, start, holding, taking, made, ended, then_to, first_released, make_at,
}
use kloudstack.Ipam.Create.Phases.Versions.{Passed, Later, Versioned, Held, served, Knows}

module _ {W : Type 0} (env : Env W) (version : Meta → ℕ) (current : W → ClusterIpPool)
    (lawful : Versioned env version current) (cidr : Text) where
  abbrev pub next_of : W → ℤ
  next_of w = (counts_of (current w).status).next

  -- A call that has just been served: with the index that was the next one.
  abbrev pub Fresh : W → Phase → ClusterIpPool → Type 0
  Fresh w s q =
      (cip : ClusterIp) × (a : ℕ) × (served s ≡ some cip)
      × IsAddressOf cidr (next_of w) a cip.spec.address
      × Passed (next_of w) q
      × (exhausted (counts_of (current w).status) ≡ false)

  -- What one access of a call does.
  abbrev pub Moved : Phase → W → Phase × W → Type 0
  Moved p w s =
      Later version (current w) (current s.1)
      × Knows version cidr s.0 (current s.1)
      × ((served s.0 ≡ served p) ⊎ Fresh w s.0 (current s.1))

  pub quiet :
      (p : Phase) (w : W) (s : Phase) (u : W)
      → current u ≡ current w
      → Knows version cidr s (current w)
      → served s ≡ served p
      → Moved p w (s, u)
  quiet p w s u same k d =
      (inl same, subst (λ (x : ClusterIpPool). Knows version cidr s x) (sym same) k, inl d)

  pub Moved-start :
      (c : Claim) (w : W) (m : Result ClusterIpPool × W)
      → (current w).spec.cidr ≡ cidr
      → find_empty_cluster_ip_pool env c.family w ≡ m
      → Moved (start c) w (then_to (holding c) m)
  Moved-start c w (ok q, u) at e =
      let same = find_empty-world env c.family w e in
      let now =
        lawful.finds c.family w
          (subst (λ (x : W). find_empty_cluster_ip_pool env c.family w ≡ (ok q, x)) same e) in
      quiet (start c) w (holding c q) u (ap current same)
        (subst (λ (x : ClusterIpPool). x.spec.cidr ≡ cidr) (sym now) at, inl now) refl
  Moved-start c w (err x, u) at e =
      quiet (start c) w (ended (err x)) u (ap current (find_empty-world env c.family w e)) tt refl
  Moved-start c w (panic, u) at e =
      quiet (start c) w (ended panic) u (ap current (find_empty-world env c.family w e)) tt refl

  pub Moved-released :
      (c : Claim) (p : ClusterIpPool) (names : List Text) (w : W)
      → Held version cidr p (current w)
      → exhausted (counts_of p.status) ≡ true
      → Moved (holding c p) w (first_released env p names w)
  unfolding first_released
  Moved-released c p [] w h full = quiet (holding c p) w (ended panic) w refl tt refl
  Moved-released c p (first ∷ rest) w h full = got (env.cluster_ips.get [] first w)
    where
      got : (r : Result ClusterIp) → Moved (holding c p) w (then_to (taking p rest) (r, w))
      got (ok cip) = quiet (holding c p) w (taking p rest cip) w refl (h, full) refl
      got (err e) = quiet (holding c p) w (ended (err e)) w refl tt refl
      got panic = quiet (holding c p) w (ended panic) w refl tt refl

  Moved-made :
      (c : Claim) (p : ClusterIpPool) (w : W) (a : ℕ) (address : Text) (m : Result ClusterIp × W)
      → Held version cidr p (current w)
      → exhausted (counts_of p.status) ≡ false
      → IsAddressOf cidr (counts_of p.status).next a address
      → env.cluster_ips.create (new_cluster_ip c p address (env.now w)) w ≡ m
      → Moved (holding c p) w (then_to (made p) m)
  unfolding new_cluster_ip
  Moved-made c p w a address (ok cip, u) h more at e =
      let same =
        ap (λ (x : Result ClusterIp × W). current x.1) (sym e)
        ∙ lawful.creates (new_cluster_ip c p address (env.now w)) w in
      let spec = lawful.create-spec (new_cluster_ip c p address (env.now w)) w e in
      let shown : cip.spec.address ≡ address = ap (λ s. s.address) spec in
      quiet (holding c p) w (made p cip) u same
        (
          h,
          more,
          (a, subst (λ (t : Text). IsAddressOf cidr (counts_of p.status).next a t) (sym shown) at),
        )
        refl
  Moved-made c p w a address (err x, u) h more at e =
      quiet (holding c p) w (ended (err x)) u
        (ap (λ (x : Result ClusterIp × W). current x.1) (sym e)
          ∙ lawful.creates (new_cluster_ip c p address (env.now w)) w)
        tt refl
  Moved-made c p w a address (panic, u) h more at e =
      quiet (holding c p) w (ended panic) u
        (ap (λ (x : Result ClusterIp × W). current x.1) (sym e)
          ∙ lawful.creates (new_cluster_ip c p address (env.now w)) w)
        tt refl

  pub Moved-next :
      (c : Claim) (p : ClusterIpPool) (w : W) (r : Result Text)
      → Held version cidr p (current w)
      → exhausted (counts_of p.status) ≡ false
      → pick_usable_ip p.spec.cidr (some (counts_of p.status).next) ≡ r
      → Moved (holding c p) w (make_at env c p r w)
  unfolding make_at
  Moved-next c p w (ok address) h more picked =
      let (a, at) = pick-IsAddressOf p.spec.cidr (counts_of p.status).next picked in
      Moved-made c p w a address (env.cluster_ips.create (new_cluster_ip c p address (env.now w)) w)
        h more (subst (λ (t : Text). IsAddressOf t (counts_of p.status).next a address) h.0 at) refl
  Moved-next c p w (err x) h more picked = quiet (holding c p) w (ended (err x)) w refl tt refl
  Moved-next c p w panic h more picked = quiet (holding c p) w (ended panic) w refl tt refl
