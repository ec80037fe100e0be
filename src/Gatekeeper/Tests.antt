-- ===== src/Gatekeeper/Tests.antt =====
-- Reviews over a cluster whose namespaces are a list of names.
use kloudstack.Base.{◌≡◌, refl, true, Option, some, List, [], ◌∷◌, any, if◌then◌else◌}
use kloudstack.Base.Text.{Text, lit, text_eq}
use kloudstack.Base.Result.{not_found, ok, err, failure}
use kloudstack.Api.Core.{Namespace, named}
use kloudstack.Api.Kube.{Kube}
use kloudstack.Gatekeeper.{Review, reviewed, is_numeric, first_segment, in_groups, authorize}
use kloudstack.Gatekeeper.Laws.{HasGroup, authorize-allowed}

abbrev cluster : Kube (List Text) Namespace
cluster = record {
  get = λ namespace name w.
      if any (text_eq name) w
      then ok (record { meta = named [] name })
      else err (record { reason = not_found; message = lit "not found" });
  list = λ sel limit w. err (failure (lit "not used"));
  create = λ o w. (ok o, o.meta.name ∷ w);
  update = λ o w. (err (failure (lit "not used")), w);
  update_status = λ o w. (err (failure (lit "not used")), w);
  patch = λ o w. (err (failure (lit "not used")), w);
  delete = λ namespace name w. (err (failure (lit "not used")), w);
  delete_all_of = λ namespace sel w. (err (failure (lit "not used")), w);
}

abbrev member : Review
member = record { resource_namespace = some (lit "12"); groups = lit "7" ∷ lit "12/admin" ∷ [] }

allowed :
    authorize cluster (ok member) (lit "12" ∷ [])
    ≡ (ok (reviewed true (lit "User is authenticated.")), lit "12" ∷ [])
unfolding authorize is_numeric in_groups text_eq first_segment
allowed = refl

authorize-allowed_example :
    (namespace : Text) × (◌≡◌ {A = Option Text} (some (lit "12")) (some namespace))
    × (is_numeric namespace ≡ true)
    × HasGroup namespace (lit "7" ∷ lit "12/admin" ∷ [])
authorize-allowed_example =
    authorize-allowed cluster member (lit "12" ∷ []) (lit "User is authenticated.") (lit "12" ∷ [])
      allowed
