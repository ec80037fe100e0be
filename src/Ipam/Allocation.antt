-- ===== src/Ipam/Allocation.antt =====
-- The arithmetic of `createClusterIP` (pkg/ipam/ipam.go) on the counts of a pool's status. The
-- big.Int of the total is decremented in place each time that it is compared.
pub mod Runs
mod Tests
use kloudstack.Base.{ℕ, Bool, true, false, ◌||◌, Option, none, some, if◌then◌else◌}
use kloudstack.Base.Int.{ℤ, pos, ◌+ℤ◌, ◌-ℤ◌, ltb_ℤ, eq_ℤ}
use kloudstack.Base.Decimal.{format_int}
use kloudstack.Helpers.{string_to_big_int}
use kloudstack.Api.Network.{ClusterIpPoolStatus}

-- The counts of a status as integers.
pub record Counts : Type 0 where
  pub total : ℤ
  pub allocated : ℤ
  pub free : ℤ
  pub next : ℤ

unfoldable pub counts_of : ClusterIpPoolStatus → Counts
counts_of st = record {
  total = string_to_big_int st.total_ips;
  allocated = string_to_big_int st.allocated_ips;
  free = string_to_big_int st.free_ips;
  next = string_to_big_int st.next_index;
}

-- The test for "use a released ip": the index against the total less one, then, after one more
-- decrement, less two.
unfoldable pub exhausted : Counts → Bool
exhausted c =
    let total1 = c.total -ℤ pos 1 in
    let total2 = total1 -ℤ pos 1 in eq_ℤ c.next total1 || ltb_ℤ total2 c.next

-- The counts that are stored once an address is taken at the next index. The total has been
-- decremented twice by the test above, and is decremented a third time here.
unfoldable pub counted : Counts → Counts
counted c =
    let total3 = c.total -ℤ pos 1 -ℤ pos 1 -ℤ pos 1 in
    record {
      total = total3;
      allocated = c.allocated +ℤ pos 1;
      free = c.free -ℤ pos 1;
      next = if ltb_ℤ c.next total3 then c.next +ℤ pos 1 else c.next;
    }

-- The status with those counts.
unfoldable pub stored : Counts → ClusterIpPoolStatus → ClusterIpPoolStatus
stored c st = record st {
  total_ips = format_int c.total;
  allocated_ips = format_int c.allocated;
  free_ips = format_int c.free;
  next_index = format_int c.next;
}
