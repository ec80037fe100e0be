-- ===== src/Gatekeeper.antt =====
-- `authorize` of pkg/webhooks/gatekeeper/gatekeeper.go.
pub mod Laws
pub mod Start
mod Tests
use kloudstack.Base.{
  ℕ, Bool, true, false, not, ◌&&◌, Option, none, some, List, [], ◌∷◌, ◌++◌, any, leb, ◌==◌,
  if◌then◌else◌,
}
use kloudstack.Base.Text.{Text, lit, text_eq}
use kloudstack.Base.Result.{
  Reason, not_found, already_exists, other, Error, Result, ok, err, panic, Action, pure, crash,
  reads, ◌>>=◌, attempt, logged,
}
use kloudstack.Api.Core.{Namespace, named}
use kloudstack.Api.Kube.{Kube}

-- authv1.SubjectAccessReview: the namespace of the resource attributes, if there are any, and the
-- user's groups.
pub record Review : Type 0 where
  pub resource_namespace : Option Text
  pub groups : List Text

-- The response: status 400 with a message, or a review with its status.
pub data Response : Type 0 where
  bad_request : Text → Response
  reviewed : Bool → Text → Response

abbrev pub is_digit : ℕ → Bool
is_digit b = leb b'0' b && leb b b'9'

pub all_digits : Text → Bool
all_digits [] = true
all_digits (b ∷ s) = is_digit b && all_digits s

-- The pattern `^\d+$`.
unfoldable pub is_numeric : Text → Bool
unfolding all_digits
is_numeric [] = false
is_numeric (b ∷ s) = all_digits (b ∷ s)

-- What the pattern `^[^/]+` finds: the empty text if there is no match.
unfoldable pub first_segment : Text → Text
first_segment [] = []
first_segment (b ∷ s) = let rest = first_segment s in if b == b'/' then [] else b ∷ rest

-- The loop over the groups.
unfoldable pub in_groups : Text → List Text → Bool
unfolding first_segment
in_groups namespace groups = any (λ g. text_eq namespace (first_segment g)) groups

abbrev pub granted : Bool → Text
granted allowed = if allowed then lit "User is authenticated." else []

module _ {W : Type 0} (namespaces : Kube W Namespace) where
  -- A namespace that is missing is created, an error of which is logged; any other error refuses.
  pub without_namespace : Text → Bool → Reason → Action W Response
  without_namespace namespace allowed not_found =
      logged (namespaces.create (record { meta = named [] namespace })) >>= λ _.
      pure (reviewed allowed (granted allowed))
  without_namespace namespace allowed already_exists =
      pure (reviewed false (lit "error on retrieving namespace."))
  without_namespace namespace allowed other =
      pure (reviewed false (lit "error on retrieving namespace."))

  -- After the namespace was asked for.
  pub with_namespace : Text → Bool → Result Namespace → Action W Response
  unfolding without_namespace
  with_namespace namespace allowed (ok ns) = pure (reviewed allowed (granted allowed))
  with_namespace namespace allowed (err e) = without_namespace namespace allowed e.reason
  with_namespace namespace allowed panic = crash

  pub authorize_in : Text → List Text → Action W Response
  unfolding with_namespace in_groups
  authorize_in namespace groups =
      if is_numeric namespace
      then attempt (reads (namespaces.get [] namespace))
        >>= with_namespace namespace (in_groups namespace groups)
      else pure (
          reviewed false
            (lit "Namespace " ++ (namespace ++ lit " does not flow a number string pattern.")))

  pub authorize_for : Option Text → List Text → Action W Response
  unfolding authorize_in
  authorize_for none groups = crash
  authorize_for (some namespace) groups = authorize_in namespace groups

  -- `authorize`, on the decoded body; a review without resource attributes is a nil pointer.
  unfoldable pub authorize : Result Review → Action W Response
  unfolding authorize_for
  authorize (err e) = pure (bad_request e.message)
  authorize panic = crash
  authorize (ok review) = authorize_for review.resource_namespace review.groups
