-- ===== src/Controllers/Vm/Laws.antt =====
-- Machines that are added, updated and deleted.
use kloudstack.Base.{
  ℕ, ◌≡◌, refl, ◌≢◌, inl, inr, true, false, List, [], ◌∷◌, ◌++◌, All, any, Bool-cases,
}
use kloudstack.Base.Int.{pos}
use kloudstack.Base.Text.{Text, text_eq}
use kloudstack.Base.Result.{ok, panic}
use kloudstack.Base.Result.Laws.{bind-safe}
use kloudstack.Api.Network.{ClusterIp, ClusterIpHistory}
use kloudstack.Controllers.Vm.{
  Env, last_allocated, let_go, let_go_at, let_go_all, released, release_list, resource_selector,
  update_cluster_ip,
}

-- What a release does to a cluster IP: it is free of MAC and interface, keeps its pool, address and
-- family, and has one more entry in its history, with the MAC and interface that it had.
abbrev pub IsReleaseOf : ClusterIp → ClusterIp → Type 0
IsReleaseOf old new =
    (new.meta ≡ old.meta)
    × (new.spec.mac ≡ [])
    × (new.spec.interface ≡ [])
    × (new.spec.address ≡ old.spec.address)
    × (new.spec.cluster_ip_pool ≡ old.spec.cluster_ip_pool)
    × (new.spec.family ≡ old.spec.family)
    × ((h : ClusterIpHistory) × (new.status.history ≡ old.status.history ++ (h ∷ []))
        × (h.mac ≡ old.spec.mac)
        × (h.interface ≡ old.spec.interface))

-- The released ones of a list, in their order: those whose MAC is not among the interfaces'.
pub data IsReleaseList (macs : List Text) : List ClusterIp → List ClusterIp → Type 0 where
  none_left : IsReleaseList macs [] []
  kept :
      {cip : ClusterIp} {cips out : List ClusterIp}
      → any (λ mac. text_eq mac cip.spec.mac) macs ≡ true
      → IsReleaseList macs cips out
      → IsReleaseList macs (cip ∷ cips) out
  freed :
      {cip new : ClusterIp} {cips out : List ClusterIp}
      → any (λ mac. text_eq mac cip.spec.mac) macs ≡ false
      → IsReleaseOf cip new
      → IsReleaseList macs cips out
      → IsReleaseList macs (cip ∷ cips) (new ∷ out)

released-IsReleaseOf : (cip : ClusterIp) (now : ℕ) → IsReleaseOf cip (released cip now)
unfolding released
released-IsReleaseOf cip now = (refl, refl, refl, refl, refl, refl, (_, refl, refl, refl))

-- What is released of a running machine's cluster IPs are those whose MAC no interface has.
pub release_list-IsReleaseList :
    (macs : List Text) (cips : List ClusterIp) (now : ℕ)
    → IsReleaseList macs cips (release_list macs cips now)
unfolding release_list
release_list-IsReleaseList macs [] now = none_left
release_list-IsReleaseList macs (cip ∷ cips) now =
    elim (Bool-cases (any (λ mac. text_eq mac cip.spec.mac) macs)) [
      | inl has ↦ rw has (kept has (release_list-IsReleaseList macs cips now))
      | inr lacks ↦
          rw lacks
            (freed lacks (released-IsReleaseOf cip now) (release_list-IsReleaseList macs cips now))
    ]

module _ {W : Type 0} (env : Env W) where
  let_go_at_safe :
      (safe : (o : ClusterIp) (w : W) → (env.cluster_ips.update_status o w).0 ≢ panic)
      (cip : ClusterIp) (resource : Text) (hs : List ClusterIpHistory) (w : W)
      → hs ≢ []
      → (let_go_at env cip resource (last_allocated hs) w).0 ≢ panic
  unfolding last_allocated let_go_at
  let_go_at_safe safe cip resource [] w h = absurd (h refl)
  let_go_at_safe safe cip resource (x ∷ []) w h =
      bind-safe (env.cluster_ips.update_status (let_go cip resource x.allocated_at (env.now w)) w)
        (λ _ v. (ok tt, v)) (safe _ w) (λ _ v e. cc)
  let_go_at_safe safe cip resource (x ∷ y ∷ hs) w h =
      let_go_at_safe safe cip resource (y ∷ hs) w (λ e. cc)

  let_go_all_safe :
      (safe : (o : ClusterIp) (w : W) → (env.cluster_ips.update_status o w).0 ≢ panic)
      (resource : Text) (cips : List ClusterIp) (w : W)
      → All (λ c. c.status.history ≢ []) cips
      → (let_go_all env resource cips w).0 ≢ panic
  unfolding let_go_all
  let_go_all_safe safe resource [] w h = λ e. cc
  let_go_all_safe safe resource (cip ∷ cips) w h =
      bind-safe (let_go_at env cip resource (last_allocated cip.status.history) w)
        (λ _. let_go_all env resource cips)
        (let_go_at_safe safe cip resource cip.status.history w h.0)
        (λ _ v. let_go_all_safe safe resource cips v h.1)

  -- The cluster IPs of a deleted machine are let go without a panic if each has a history, and the
  -- client's own call does not panic.
  pub update_cluster_ip-safe :
      ((o : ClusterIp) (w : W) → (env.cluster_ips.update_status o w).0 ≢ panic)
      → (namespace name : Text) (w : W) {cips : List ClusterIp}
      → env.cluster_ips.list (resource_selector env (namespace ++ (b'/' ∷ name))) (pos 1000) w
        ≡ ok cips
      → All (λ c. c.status.history ≢ []) cips
      → (update_cluster_ip env namespace name w).0 ≢ panic
  unfolding update_cluster_ip
  update_cluster_ip-safe safe namespace name w {cips} listed h =
      rw listed (let_go_all_safe safe (namespace ++ (b'/' ∷ name)) cips w h)

  -- A cluster IP whose history is empty makes it panic, before anything of it is stored.
  pub update_cluster_ip-panic :
      (namespace name : Text) (w : W) {cip : ClusterIp} {cips : List ClusterIp}
      → env.cluster_ips.list (resource_selector env (namespace ++ (b'/' ∷ name))) (pos 1000) w
        ≡ ok (cip ∷ cips)
      → cip.status.history ≡ []
      → update_cluster_ip env namespace name w ≡ (panic, w)
  unfolding update_cluster_ip let_go_all
  update_cluster_ip-panic namespace name w {cip} listed empty = rw (listed, empty) refl
