-- ===== src/Ipam/Finders/Laws.antt =====
-- Which pool is chosen.
use kloudstack.Base.{
  refl, true, ◌≡◌, ◌⊎◌, inl, inr, none, some, List, [], ◌∷◌, ◌++◌, arith, find, All, Bool-cases,
  Option-cases, ap,
}
use mathlib.Core.Path.{subst}
use kloudstack.Helpers.{string_to_big_int}
use kloudstack.Base.Int.{ℤ, pos, ◌≤ℤ◌}
use kloudstack.Base.Text.{Text, lit}
use kloudstack.Base.Result.{ok, err}
use kloudstack.Api.Network.{ClusterIpPool}
use kloudstack.Ipam.Finders.{Env, has_free, no_free_pool, find_empty_cluster_ip_pool}

-- The count of free addresses.
abbrev pub free_of : ClusterIpPool → ℤ
free_of pool = string_to_big_int pool.status.free_ips

-- The pool is the first one whose count of free addresses is positive.
abbrev pub IsFirstFree : List ClusterIpPool → ClusterIpPool → Type 0
IsFirstFree pools pool =
    (before : List ClusterIpPool) × (rest : List ClusterIpPool) × (pools ≡ before ++ (pool ∷ rest))
    × All (λ p. free_of p ≤ℤ pos 0) before
    × (pos 1 ≤ℤ free_of pool)

find-IsFirstFree :
    (pools : List ClusterIpPool) {pool : ClusterIpPool}
    → find has_free pools ≡ some pool
    → IsFirstFree pools pool
find-IsFirstFree [] e = absurd (cc)
find-IsFirstFree (p ∷ ps) {pool} e = elim (Bool-cases (has_free p)) [
  | inl h ↦
      let same : p ≡ pool = ground arith in
      let free : pos 1 ≤ℤ free_of p = unfold has_free in ground arith in
      (
        [],
        ps,
        ap (λ (q : ClusterIpPool). q ∷ ps) same,
        tt,
        subst (λ q. pos 1 ≤ℤ free_of q) same free,
      )
  | inr h ↦
      let (b, r, q, a, f) = find-IsFirstFree ps (ground arith) in
      (p ∷ b, r, ap (λ (l : List ClusterIpPool). p ∷ l) q, (unfold has_free in ground arith, a), f)
]

find-none :
    (pools : List ClusterIpPool) → find has_free pools ≡ none → All (λ p. free_of p ≤ℤ pos 0) pools
find-none [] e = tt
find-none (p ∷ ps) e = elim (Bool-cases (has_free p)) [
  | inl h ↦ absurd (ground arith)
  | inr h ↦ (unfold has_free in ground arith, find-none ps (ground arith))
]

module _ {W : Type 0} (env : Env W) (family : Text) (w : W) where
  -- The pool that is chosen is the first of the family's pools whose count of free addresses is
  -- positive; if there is none the error is "not found". Nothing is changed.
  pub find_empty_cluster_ip_pool-first :
      {pools : List ClusterIpPool}
      → env.cluster_ip_pools.list ((lit "spec.ipFamily", family) ∷ []) (pos 10000) w ≡ ok pools
      → ((pool : ClusterIpPool) × (find_empty_cluster_ip_pool env family w ≡ (ok pool, w))
          × IsFirstFree pools pool)
        ⊎ ((find_empty_cluster_ip_pool env family w ≡ (err (no_free_pool family), w))
            × All (λ p. free_of p ≤ℤ pos 0) pools)
  find_empty_cluster_ip_pool-first {pools} listed = elim (Option-cases (find has_free pools)) [
    | inl e ↦ inr (unfold find_empty_cluster_ip_pool in rw (listed, e), find-none pools e)
    | inr (pool, e) ↦
        inl (pool, unfold find_empty_cluster_ip_pool in rw (listed, e), find-IsFirstFree pools e)
  ]

  -- A pool that is the only one and has a free address is chosen.
  pub find_empty_cluster_ip_pool-single :
      {pool : ClusterIpPool}
      → env.cluster_ip_pools.list ((lit "spec.ipFamily", family) ∷ []) (pos 10000) w
        ≡ ok (pool ∷ [])
      → pos 1 ≤ℤ free_of pool
      → find_empty_cluster_ip_pool env family w ≡ (ok pool, w)
  unfolding find_empty_cluster_ip_pool has_free
  find_empty_cluster_ip_pool-single {pool} listed free =
      let has : has_free pool ≡ true = ground arith in rw (listed, has) refl
