-- ===== src/Ipam/Create/Phases/Race.antt =====
-- Two calls of `createClusterIP` (pkg/ipam/ipam.go) for one pool, interleaved in any order with each
-- other and with what others do to the pool, over a server that refuses the status of a pool that has
-- changed since it was read.
use kloudstack.Base.{ℕ, ◌≡◌, ◌≢◌, refl, sym, ap, ◌∙◌, inl, inr, false, Option, none, some}
use mathlib.Core.Path.{subst, subst₂}
use kloudstack.Base.Int.{ℤ, int_laws}
use kloudstack.Base.Text.{Text}
use kloudstack.Base.Result.{ok}
use kloudstack.Api.Core.{Meta}
use kloudstack.Api.Network.{ClusterIp, ClusterIpPool}
use kloudstack.Ipam.Allocation.{counts_of, exhausted}
use kloudstack.Ipam.Finders.{Env}
use kloudstack.Ipam.Create.{Claim}
use kloudstack.Ipam.Create.Distinct.{IsAddressOf, IsAddressOf-injective}
use kloudstack.Ipam.Create.Phases.{Phase, start, ended, step}
use kloudstack.Ipam.Create.Phases.System.{
  System, Turn, turn_one, turn_two, meanwhile, Reach, here, after,
}
use kloudstack.Ipam.Create.Phases.Versions.{
  Later, Versioned, served, Knows, Given, Apart, Knows-Later, Given-Later,
}
use kloudstack.Ipam.Create.Phases.Moves.{next_of, Moved}
use kloudstack.Ipam.Create.Phases.Stores.{step-Moved}

module _ {W : Type 0} (env : Env W) (version : Meta → ℕ) (current : W → ClusterIpPool) where
  -- What others do to the pool: each change gives a later version, of the same spec, whose next
  -- index is no lower, and which is used up if the pool was.
  abbrev pub Onward : W → W → Type 0
  Onward w w' = Later version (current w) (current w')

  module _ (lawful : Versioned env version current) (cidr : Text) where
    -- What holds of two calls whenever neither is at an access.
    record Inv (s : System W) : Type 0 where
      network : (current s.world).spec.cidr ≡ cidr
      knows_one : Knows version cidr s.one (current s.world)
      knows_two : Knows version cidr s.two (current s.world)
      given_one : Given cidr (served s.one) (current s.world)
      given_two : Given cidr (served s.two) (current s.world)
      apart : Apart cidr (served s.one) (served s.two)

    fresh_apart :
        (q : ClusterIpPool) (a : ℕ) (cip : ClusterIp) (d : Option ClusterIp)
        → IsAddressOf cidr (counts_of q.status).next a cip.spec.address
        → exhausted (counts_of q.status) ≡ false
        → Given cidr d q
        → Apart cidr (some cip) d × Apart cidr d (some cip)
    fresh_apart q a cip none at more g = (tt, tt)
    fresh_apart q a cip (some cip') at more (j, b, at', inr full) = absurd (cc)
    fresh_apart q a cip (some cip') at more (j, b, at', inl le) =
        let i = (counts_of q.status).next in
        let differ : i ≢ j = λ same. absurd (grind int_laws) in
        let other : a ≢ b = λ same. differ (
          IsAddressOf-injective cidr i j a cip.spec.address cip'.spec.address at
            (subst (λ (x : ℕ). IsAddressOf cidr j x cip'.spec.address) (sym same) at')) in
        ((i, j, a, b, at, at', other), (j, i, b, a, at', at, λ same. other (sym same)))

    network_kept :
        (q r : ClusterIpPool) → q.spec.cidr ≡ cidr → Later version q r → r.spec.cidr ≡ cidr
    network_kept q r at (inl same) = ap (λ (x : ClusterIpPool). x.spec.cidr) same ∙ at
    network_kept q r at (inr (_, spec, _, _)) = ap (λ x. x.cidr) spec ∙ at

    -- What an access of a call keeps, for the call and for another one with the result `d`.
    kept :
        (p : Phase) (d : Option ClusterIp) (w : W) (s : Phase × W)
        → Moved env version current lawful cidr p w s
        → Given cidr (served p) (current w)
        → Given cidr d (current w)
        → Apart cidr (served p) d × Apart cidr d (served p)
        → Given cidr (served s.0) (current s.1)
          × Apart cidr (served s.0) d
          × Apart cidr d (served s.0)
    kept p d w s (later, _, inl same) g h (l, r) = (
      subst (λ (x : Option ClusterIp). Given cidr x (current s.1)) (sym same)
          (Given-Later version cidr (served p) (current w) (current s.1) g later),
      subst (λ (x : Option ClusterIp). Apart cidr x d) (sym same) l,
      subst (λ (x : Option ClusterIp). Apart cidr d x) (sym same) r,
    )
    kept p d w s (later, _, inr (cip, a, got, at, passed, more)) g h _ =
        let (l, r) = fresh_apart (current w) a cip d at more h in
        (
          subst (λ (x : Option ClusterIp). Given cidr x (current s.1)) (sym got)
              (next_of env version current lawful cidr w, a, at, passed),
          subst (λ (x : Option ClusterIp). Apart cidr x d) (sym got) l,
          subst (λ (x : Option ClusterIp). Apart cidr d x) (sym got) r,
        )

    apart_sym : (d e : Option ClusterIp) → Apart cidr d e → Apart cidr e d
    apart_sym none none h = tt
    apart_sym none (some y) h = tt
    apart_sym (some x) none h = tt
    apart_sym (some x) (some y) (i, j, a, b, at, at', differ) =
        (j, i, b, a, at', at, λ same. differ (sym same))

    Turn-Inv : {s t : System W} → Inv s → Turn env Onward s t → Inv t
    Turn-Inv {s} v turn_one =
        let m = step-Moved env version current lawful cidr s.one s.world v.network v.knows_one in
        let (given, l, _) =
          kept s.one (served s.two) s.world (step env s.one s.world) m v.given_one v.given_two
            (v.apart, apart_sym (served s.one) (served s.two) v.apart) in
        record {
          network =
              network_kept (current s.world) (current (step env s.one s.world).1) v.network m.0;
          knows_one = m.1;
          knows_two =
              Knows-Later version cidr s.two (current s.world) (current (step env s.one s.world).1)
                v.knows_two m.0;
          given_one = given;
          given_two =
              Given-Later version cidr (served s.two) (current s.world)
                (current (step env s.one s.world).1) v.given_two m.0;
          apart = l;
        }
    Turn-Inv {s} v turn_two =
        let m = step-Moved env version current lawful cidr s.two s.world v.network v.knows_two in
        let (given, _, r) =
          kept s.two (served s.one) s.world (step env s.two s.world) m v.given_two v.given_one
            (apart_sym (served s.one) (served s.two) v.apart, v.apart) in
        record {
          network =
              network_kept (current s.world) (current (step env s.two s.world).1) v.network m.0;
          knows_one =
              Knows-Later version cidr s.one (current s.world) (current (step env s.two s.world).1)
                v.knows_one m.0;
          knows_two = m.1;
          given_one =
              Given-Later version cidr (served s.one) (current s.world)
                (current (step env s.two s.world).1) v.given_one m.0;
          given_two = given;
          apart = r;
        }
    Turn-Inv {s} v (meanwhile w later) = record {
      network = network_kept (current s.world) (current w) v.network later;
      knows_one = Knows-Later version cidr s.one (current s.world) (current w) v.knows_one later;
      knows_two = Knows-Later version cidr s.two (current s.world) (current w) v.knows_two later;
      given_one =
          Given-Later version cidr (served s.one) (current s.world) (current w) v.given_one later;
      given_two =
          Given-Later version cidr (served s.two) (current s.world) (current w) v.given_two later;
      apart = v.apart;
    }

    Reach-Inv : {s t : System W} → Inv s → Reach env Onward s t → Inv t
    Reach-Inv v here = v
    Reach-Inv v (after r turn) = Turn-Inv (Reach-Inv v r) turn

  -- Two calls that were started at the same time and are both served a new address are served the
  -- addresses of two indices of the pool's network, and different ones, in whatever order their
  -- accesses and such changes by others fall.
  pub race-distinct :
      (lawful : Versioned env version current) (c c' : Claim) (w : W) (t : System W)
      (cip cip' : ClusterIp) (p p' : ClusterIpPool)
      → Reach env Onward (record { one = start c; two = start c'; world = w }) t
      → t.one ≡ ended (ok (cip, some p))
      → t.two ≡ ended (ok (cip', some p'))
      → (i : ℤ) × (j : ℤ) × (a : ℕ) × (b : ℕ) × IsAddressOf
          (current w).spec.cidr
          i
          a
          cip.spec.address
        × IsAddressOf (current w).spec.cidr j b cip'.spec.address
        × (a ≢ b)
  race-distinct lawful c c' w t cip cip' p p' r one two =
      let v =
        Reach-Inv lawful (current w).spec.cidr
          (record {
            network = refl;
            knows_one = tt;
            knows_two = tt;
            given_one = tt;
            given_two = tt;
            apart = tt;
          })
          r in
      subst₂ (λ (x y : Phase). Apart (current w).spec.cidr (served x) (served y)) one two v.apart
