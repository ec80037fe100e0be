-- ===== src/Ipam/Allocation/Tests.antt =====
-- Runs of allocations from a pool of six addresses, 10.0.0.0/29.
use kloudstack.Base.{◌≡◌, refl, ◌⊎◌, ℕ, ◌*◌, some, List, [], ◌∷◌}
use kloudstack.Base.Int.{ℤ, pos, ◌+ℤ◌, ◌-ℤ◌, ◌≤ℤ◌}
use kloudstack.Base.Text.{lit}
use kloudstack.Net.{IpNet}
use kloudstack.NetUtils.Ip.{address_at, offset_of}
use kloudstack.Api.Network.{ClusterIpPoolStatus}
use kloudstack.Ipam.Allocation.{Counts, exhausted, counted}
use kloudstack.Ipam.Allocation.Runs.{Run, stop, take_next, Run-addresses, Run-capacity}

abbrev six : Counts
six = record { total = pos 6; allocated = pos 0; free = pos 6; next = pos 0 }

abbrev status : ClusterIpPoolStatus
status = record {
  conditions = [];
  total_ips = lit "6";
  allocated_ips = lit "0";
  free_ips = lit "6";
  next_index = lit "0";
  released_cluster_ips = [];
}

-- Two addresses, after which the pool is used up.
two_taken : Run six (pos 0 ∷ pos 1 ∷ []) (counted (counted six))
unfolding exhausted counted ◌-ℤ◌ ◌+ℤ◌
two_taken = take_next {c = six} refl (take_next {c = counted six} refl stop)

abbrev network : IpNet
network = record { network = 0xffff0a000000; ones = 29; bits = 32 }

Run-capacity_example :
    (◌≡◌ {A = List ℤ} (pos 0 ∷ pos 1 ∷ []) []) ⊎ (pos 0 +ℤ pos (4 * 2) ≤ℤ pos 6 +ℤ pos 2)
Run-capacity_example = Run-capacity two_taken

second : address_at 0xffff0a000000 network (pos 1) ≡ some 0xffff0a000002
unfolding address_at offset_of
second = refl

Run-addresses_example : (pos 1 ≡ pos 0 +ℤ pos 1) × (pos 1 ≡ pos 0 +ℤ pos 1) × (◌≡◌ {A = ℕ} 1 1)
Run-addresses_example = Run-addresses 0xffff0a000000 network two_taken 1 1 refl refl second second
