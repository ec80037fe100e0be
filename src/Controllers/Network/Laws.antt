-- ===== src/Controllers/Network/Laws.antt =====
-- Pools are counted once, and logical switches are never made.
use kloudstack.Base.{ℕ, ◌*◌, ◌≡◌, refl, ◌⊎◌, inl, inr, List, [], ◌∷◌, ◌++◌, length}
use kloudstack.Base.Int.{ℤ, pos, ◌+ℤ◌, ◌≤ℤ◌, int_laws}
use kloudstack.Base.Text.{Text}
use kloudstack.Base.Result.{ok}
use kloudstack.Net.{IpNet}
use kloudstack.NetUtils.Ip.{count_usable_ips}
use kloudstack.Helpers.Laws.{string_to_big_int-format_int}
use kloudstack.Api.Network.{ClusterIpPoolStatus, LogicalSwitch}
use kloudstack.Api.Kube.{Kube}
use kloudstack.Ipam.Allocation.{Counts, counts_of}
use kloudstack.Ipam.Allocation.Runs.{Run, Run-capacity}
use kloudstack.Ovn.{NbLogicalSwitch, NbClient, is_switch}
use kloudstack.Ovn.Laws.{create_logical_switch-refuses}
use kloudstack.Controllers.Network.{counted_status, on_add_logical_switch}

counts_of-counted_status :
    (n : IpNet) (st : ClusterIpPoolStatus)
    → ((counts_of (counted_status n st)).total ≡ count_usable_ips n)
      × ((counts_of (counted_status n st)).next ≡ (counts_of st).next)
unfolding counts_of counted_status
counts_of-counted_status n st = (string_to_big_int-format_int (count_usable_ips n), refl)

-- From a pool that was counted when it was added, with the next index 0, no more addresses are
-- taken than a quarter of the usable ones of its network, rounded up.
pub counted_status-capacity :
    (n : IpNet) (st : ClusterIpPoolStatus) {d : Counts} {is : List ℤ}
    → (counts_of st).next ≡ pos 0
    → Run (counts_of (counted_status n st)) is d
    → (is ≡ []) ⊎ (pos (4 * length is) ≤ℤ count_usable_ips n +ℤ pos 2)
counted_status-capacity n st {is = is} start r = go (Run-capacity r)
  where
    moved :
        (k : ℕ) {c t x : ℤ}
        → t ≡ c
        → x ≡ (counts_of st).next
        → x +ℤ pos k ≤ℤ t +ℤ pos 2
        → pos k ≤ℤ c +ℤ pos 2
    moved k e f h = grind (int_laws, start)

    go :
        (is ≡ [])
          ⊎ ((counts_of (counted_status n st)).next +ℤ pos (4 * length is)
              ≤ℤ (counts_of (counted_status n st)).total +ℤ pos 2)
        → (is ≡ []) ⊎ (pos (4 * length is) ≤ℤ count_usable_ips n +ℤ pos 2)
    go (inl e) = inl e
    go (inr h) = let (t, x) = counts_of-counted_status n st in inr (moved (4 * length is) t x h)

-- A logical switch that is added to the cluster is never made in the northbound database: the call
-- is refused, and nothing is changed.
pub on_add_logical_switch-refused :
    {W Op : Type 0} (switches : Kube W LogicalSwitch) (ovn_agent : NbClient W Op)
    (namespace name : Text) (w : W) {ls : LogicalSwitch} {found : List NbLogicalSwitch}
    → switches.get namespace name w ≡ ok ls
    → ovn_agent.where_cache_switches (is_switch (namespace ++ (b'/' ∷ name))) w ≡ ok found
    → on_add_logical_switch switches ovn_agent namespace name w ≡ (ok tt, w)
unfolding on_add_logical_switch
on_add_logical_switch-refused switches ovn_agent namespace name w got listed =
    rw (got, create_logical_switch-refuses ovn_agent namespace name w listed)
