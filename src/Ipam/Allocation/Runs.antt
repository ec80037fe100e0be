-- ===== src/Ipam/Allocation/Runs.antt =====
-- Runs of allocations of new addresses from one pool.
use kloudstack.Base.{
  ℕ, zero, suc, some, get_elem?, ◌*◌, ◌≡◌, refl, ◌⊎◌, inl, inr, true, false, List, [], ◌∷◌, arith,
  length, Bool-cases,
}
use kloudstack.Base.Int.{ℤ, pos, ◌+ℤ◌, ◌-ℤ◌, ◌≤ℤ◌, ltb_ℤ, int_laws}
use kloudstack.Net.{IpNet}
use kloudstack.NetUtils.Ip.{address_at}
use kloudstack.NetUtils.Ip.Range.{address_at-injective}
use kloudstack.Helpers.Laws.{string_to_big_int-format_int}
use kloudstack.Api.Network.{ClusterIpPoolStatus}
use kloudstack.Ipam.Allocation.{Counts, counts_of, exhausted, counted, stored}

-- What is stored is read back.
pub counts_of-stored : (c : Counts) (st : ClusterIpPoolStatus) → counts_of (stored c st) ≡ c
unfolding counts_of stored
counts_of-stored c st = ground (
  arith,
  string_to_big_int-format_int c.total,
  string_to_big_int-format_int c.allocated,
  string_to_big_int-format_int c.free,
  string_to_big_int-format_int c.next,
)

-- The counts of free and of allocated addresses move against each other by one, so that their sum
-- stays, but the total falls by three with every address.
pub counted_sums :
    (c : Counts)
    → ((counted c).free +ℤ (counted c).allocated ≡ c.free +ℤ c.allocated)
      × ((counted c).allocated ≡ c.allocated +ℤ pos 1)
      × ((counted c).total ≡ c.total -ℤ pos 3)
unfolding counted
counted_sums c = (omega int_laws, omega int_laws, omega int_laws)

exhausted-false : (c : Counts) → exhausted c ≡ false → c.next +ℤ pos 2 ≤ℤ c.total
unfolding exhausted
exhausted-false c h = grind int_laws

pub exhausted_of_le : (c : Counts) → c.next +ℤ pos 2 ≤ℤ c.total → exhausted c ≡ false
unfolding exhausted
exhausted_of_le c h = grind int_laws

-- Addresses that are taken one after another, with the indices that they are taken at.
pub data Run : Counts → List ℤ → Counts → Type 0 where
  stop : {c : Counts} → Run c [] c
  take_next :
      {c d : Counts} {is : List ℤ}
      → exhausted c ≡ false
      → Run (counted c) is d
      → Run c (c.next ∷ is) d

-- The indices from one on.
pub From : ℤ → List ℤ → Type 0
From i [] = Unit
From i (j ∷ js) = (j ≡ i) × From (i +ℤ pos 1) js

pub counted-next :
    (c : Counts) → ((counted c).next ≡ c.next +ℤ pos 1) ⊎ (exhausted (counted c) ≡ true)
counted-next c = elim (Bool-cases (ltb_ℤ c.next (c.total -ℤ pos 1 -ℤ pos 1 -ℤ pos 1))) [
  | inl more ↦ inl (unfold counted in rw more)
  | inr last ↦ inr (unfold counted exhausted in rw last (grind int_laws))
]

pub counted-next-le : (c : Counts) → (counted c).next ≤ℤ c.next +ℤ pos 1
unfolding counted
counted-next-le c = grind int_laws

Run-exhausted : {c d : Counts} {is : List ℤ} → exhausted c ≡ true → Run c is d → is ≡ []
Run-exhausted h stop = refl
Run-exhausted h (take_next e r) = absurd (cc)

Run-From : {c d : Counts} {is : List ℤ} → Run c is d → From c.next is
unfolding From
Run-From stop = tt
Run-From (take_next {c = c} {is = is} e r) = (
  refl,
  elim (counted-next c) [ inl n ↦ rw (← n) (Run-From r) | inr full ↦ rw (Run-exhausted full r) tt ],
)

From-get_elem? :
    (i : ℤ) (is : List ℤ) (p : ℕ) {j : ℤ} → From i is → get_elem? is p ≡ some j → j ≡ i +ℤ pos p
unfolding From
From-get_elem? i [] p f e = absurd (cc)
From-get_elem? i (k ∷ is) zero f e = grind (int_laws, f.0)
From-get_elem? i (k ∷ is) (suc p) f e = grind (int_laws, From-get_elem? (i +ℤ pos 1) is p f.1 e)

-- The addresses of one run are taken at consecutive indices, from the pool's next index on, and two
-- of them are the same address, in whatever network they are picked, only if they are the same one
-- of the run.
pub Run-addresses :
    (ip : ℕ) (n : IpNet) {c d : Counts} {is : List ℤ}
    → Run c is d
    → (p q : ℕ) {i j : ℤ} {a : ℕ} → get_elem? is p ≡ some i
    → get_elem? is q ≡ some j
    → address_at ip n i ≡ some a
    → address_at ip n j ≡ some a
    → (i ≡ c.next +ℤ pos p) × (j ≡ c.next +ℤ pos q) × (p ≡ q)
Run-addresses ip n {c} {is = is} r p q {i} {j} ei ej ea eb =
    let f = Run-From r in
    let pi = From-get_elem? c.next is p f ei in
    let qj = From-get_elem? c.next is q f ej in
    (pi, qj, same (address_at-injective ip n i j ea eb) pi qj)
  where
    same : i ≡ j → i ≡ c.next +ℤ pos p → j ≡ c.next +ℤ pos q → p ≡ q
    same e pi qj = grind int_laws

-- A pool whose next index is `i` gives at most a quarter of what is left of its total, rounded up:
-- the third decrement of the total uses up three more addresses with each.
pub Run-capacity :
    {c d : Counts} {is : List ℤ}
    → Run c is d
    → (is ≡ []) ⊎ (c.next +ℤ pos (4 * length is) ≤ℤ c.total +ℤ pos 2)
Run-capacity stop = inl refl
Run-capacity (take_next {c = c} {is = is} e r) =
    inr (go is (Run-capacity r) (counted-next c) (λ full. Run-exhausted full r))
  where
    go :
        (is : List ℤ)
        → (is ≡ []) ⊎ ((counted c).next +ℤ pos (4 * length is) ≤ℤ (counted c).total +ℤ pos 2)
        → ((counted c).next ≡ c.next +ℤ pos 1) ⊎ (exhausted (counted c) ≡ true)
        → (exhausted (counted c) ≡ true → is ≡ [])
        → c.next +ℤ pos (4 * suc (length is)) ≤ℤ c.total +ℤ pos 2
    go [] b m nil = grind (int_laws, exhausted-false c)
    go (j ∷ is) b m nil = grind (int_laws, exhausted-false c, (counted_sums c).2)
