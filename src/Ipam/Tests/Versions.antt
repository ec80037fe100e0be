-- ===== src/Ipam/Tests/Versions.antt =====
-- A world with one pool whose status is stored only over the version that was read.
use kloudstack.Base.{
  ℕ, ◌≡◌, refl, sym, ap, Bool, true, false, none, some, List, [], ◌∷◌, ◌==◌, length, arith,
  if◌then◌else◌,
}
use kloudstack.Base.Text.{Text, lit}
use kloudstack.Base.Result.{Error, Result, ok, err, panic, failure, or_fail}
use kloudstack.Base.Result.Laws.{returned}
use kloudstack.Api.Core.{Meta}
use kloudstack.Api.Network.{ClusterIp, ClusterIpPool}
use kloudstack.Ipam.Finders.{Env, has_free, no_free_pool, find_empty_cluster_ip_pool}
use kloudstack.Ipam.Create.Phases.Versions.{Versioned}

abbrev pub World : Type 0
World = List ClusterIp × ClusterIpPool

abbrev pub version : Meta → ℕ
version m = length m.resource_version

-- The pool with a status and the next version.
abbrev pub renewed : ClusterIpPool → ClusterIpPool → ClusterIpPool
renewed now q = record now {
  meta = record (now.meta) { resource_version = b'1' ∷ now.meta.resource_version };
  status = q.status;
}

pub unused : {A : Type 0} → Result A
unused = err (failure (lit "not used"))

abbrev pub versioned : Env World
versioned = record {
  pods = record {
    get = λ namespace name w. unused;
    list = λ sel limit w. unused;
    create = λ o w. (unused, w);
    update = λ o w. (unused, w);
    update_status = λ o w. (unused, w);
    patch = λ o w. (unused, w);
    delete = λ namespace name w. (unused, w);
    delete_all_of = λ namespace sel w. (unused, w);
  };
  cluster_ips = record {
    get = λ namespace name w. unused;
    list = λ sel limit w. ok w.0;
    create = λ o w. (ok o, (o ∷ w.0, w.1));
    update = λ o w. (unused, w);
    update_status = λ o w. (unused, w);
    patch = λ o w. (unused, w);
    delete = λ namespace name w. (unused, w);
    delete_all_of = λ namespace sel w. (unused, w);
  };
  cluster_ip_pools = record {
    get = λ namespace name w. ok w.1;
    list = λ sel limit w. ok (w.1 ∷ []);
    create = λ o w. (unused, w);
    update = λ o w. (unused, w);
    update_status = λ q w.
        if version q.meta == version w.1.meta
        then (ok (renewed w.1 q), (w.0, renewed w.1 q))
        else (err (failure (lit "conflict")), w);
    patch = λ o w. (unused, w);
    delete = λ namespace name w. (unused, w);
    delete_all_of = λ namespace sel w. (unused, w);
  };
  now = λ w. 1700000000;
  mac_prefix = [];
}

abbrev pub current : World → ClusterIpPool
current w = w.1

abbrev pub answer : Bool → ClusterIpPool → World → Result ClusterIpPool × World
answer fits q w =
    if fits then (ok (renewed w.1 q), (w.0, renewed w.1 q)) else (err (failure (lit "conflict")), w)

answer_stores :
    (fits : Bool) (q : ClusterIpPool) (w : World) {q' : ClusterIpPool} {w' : World}
    → answer fits q w ≡ (ok q', w')
    → (fits ≡ true) × (w'.1 ≡ renewed w.1 q)
answer_stores true q w {q'} {w'} e =
    (refl, sym (ap (λ (x : Result ClusterIpPool × World). x.1.1) e))
answer_stores false q w e = absurd (cc)

answer_refuses :
    (fits : Bool) (q : ClusterIpPool) (w : World) {x : Error} {w' : World}
    → answer fits q w ≡ (err x, w')
    → w'.1 ≡ w.1
answer_refuses true q w e = absurd (cc)
answer_refuses false q w e = sym (ap (λ (x : Result ClusterIpPool × World). x.1.1) e)

answer_crashes :
    (fits : Bool) (q : ClusterIpPool) (w : World) {w' : World}
    → answer fits q w ≡ (panic, w')
    → w'.1 ≡ w.1
answer_crashes true q w e = absurd (cc)
answer_crashes false q w e = absurd (cc)

found_first :
    (free : Bool) (p : ClusterIpPool) (x : Error) (w : World) {q : ClusterIpPool}
    → or_fail (if free then some p else none) x w ≡ (ok q, w)
    → q ≡ p
found_first true p x w e = sym (returned e).0
found_first false p x w e = absurd (cc)

found_current :
    (family : Text) (w : World) {q : ClusterIpPool}
    → find_empty_cluster_ip_pool versioned family w ≡ (ok q, w)
    → q ≡ w.1
unfolding find_empty_cluster_ip_pool
found_current family w e = found_first (has_free w.1) w.1 (no_free_pool family) w e

fits_same : (a b : ℕ) → (a == b) ≡ true → a ≡ b
fits_same a b h = ground arith

pub versioned-Versioned : Versioned versioned version current
versioned-Versioned = record {
  finds = λ family w e. found_current family w e;
  creates = λ o w. refl;
  create-spec = λ o w e. ap (λ (x : ClusterIp). x.spec) (sym (returned e).0);
  refuses = λ q w e. answer_refuses (version q.meta == version w.1.meta) q w e;
  crashes = λ q w e. answer_crashes (version q.meta == version w.1.meta) q w e;
  stores = λ q w e.
      let (fits, now) = answer_stores (version q.meta == version w.1.meta) q w e in
      (
        fits_same (version q.meta) (version w.1.meta) fits,
        rw now (omega arith),
        ap (λ (x : ClusterIpPool). x.spec) now,
        ap (λ (x : ClusterIpPool). x.status) now,
      );
}
