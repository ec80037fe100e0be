-- ===== src/Controllers/Vm/Credentials.antt =====
-- A machine whose credentials are made again (`createVMPasswordCredetialSecret` of
-- pkg/controllers/vm/kubevirtvm.go).
use kloudstack.Base.{
  true, none, inl, inr, ◌⊎◌, Bool-cases, Option-cases, List, ◌≡◌, refl, ◌∙◌, false, Option, some,
  [], ◌∷◌,
}
use kloudstack.Base.Text.{Text, lit, text_eq}
use kloudstack.Base.Result.{already_exists, Error, Result, ok, err, panic, pure, bind}
use kloudstack.Api.Core.{Secret, VirtualMachine}
use kloudstack.Controllers.Vm.{
  Env, os_category, credentials, credentials_secret, unless_exists, point_at,
  create_vm_password_credential_secret,
}

-- What is relied on of the server: a secret that is there is refused as one that exists, and a change
-- of a machine leaves the secrets alone.
pub record Stored {W : Type 0} (env : Env W) (secret_at : Text → Text → W → Option Secret)
    : Type 0 where
  pub exists :
      (o : Secret) (w : W) {s : Secret}
      → secret_at o.meta.namespace o.meta.name w ≡ some s
      → (e : Error) × (env.secrets.create o w ≡ (err e, w)) × (e.reason ≡ already_exists)
  pub patches :
      (vm : VirtualMachine) (namespace name : Text) (w : W)
      → secret_at namespace name (env.vms.patch vm w).1 ≡ secret_at namespace name w

-- The machine with its credentials named.
abbrev pub pointed : VirtualMachine → VirtualMachine
pointed vm = record vm { access_credentials = some (credentials vm.meta.name ∷ []) }

module _ {W : Type 0} (env : Env W) (secret_at : Text → Text → W → Option Secret) where
  bind-world : {A : Type 0} (m : Result A × W) → (bind m (λ _. pure tt)).1 ≡ m.1
  bind-world (ok a, w) = refl
  bind-world (err e, w) = refl
  bind-world (panic, w) = refl

  passes :
      (e : Error) (w : W) → e.reason ≡ already_exists → unless_exists env (err e) w ≡ (ok tt, w)
  unfolding unless_exists
  passes e w h = rw h refl

  -- What making the credentials of a machine comes to whose secret is there: nothing for the category
  -- mikrotik, a panic without a template, and the patch of the machine otherwise.
  abbrev pub Remade : VirtualMachine → W → Type 0
  Remade vm w =
      let made = create_vm_password_credential_secret env vm w in
      let mikrotik = text_eq (os_category vm) (lit "mikrotik") in
      ((mikrotik ≡ true) × (made ≡ (ok tt, w)))
      ⊎ ((mikrotik ≡ false) × (vm.access_credentials ≡ none) × (made ≡ (panic, w)))
      ⊎ ((mikrotik ≡ false)
          × ((old : List Text) × (vm.access_credentials ≡ some old)
              × (made ≡ bind (env.vms.patch (pointed vm) w) (λ _. pure tt))))

  again :
      Stored env secret_at
      → (vm : VirtualMachine) (w : W) {s : Secret}
      → secret_at vm.meta.namespace (credentials vm.meta.name) w ≡ some s
      → Remade vm w
  unfolding create_vm_password_credential_secret credentials_secret point_at
  again stored vm w there =
      let (e, refused, why) = stored.exists (credentials_secret vm (env.password w)) w there in
      let pass = passes e w why in
      elim (Bool-cases (text_eq (os_category vm) (lit "mikrotik"))) [
        | inl is ↦ inl (is, rw is refl)
        | inr other ↦ elim (Option-cases vm.access_credentials) [
          | inl nil ↦ inr (inl (other, nil, rw (other, refused, pass, nil) refl))
          | inr (old, has) ↦ inr (inr (other, (old, has, rw (other, refused, pass, has) refl)))
        ]
      ]

  kept :
      Stored env secret_at
      → (vm : VirtualMachine) (w : W) {s : Secret}
      → secret_at vm.meta.namespace (credentials vm.meta.name) w ≡ some s
      → Remade vm w
      → secret_at vm.meta.namespace
          (credentials vm.meta.name)
          (create_vm_password_credential_secret env vm w).1
        ≡ some s
  kept stored vm w there (inl (_, made)) = rw made there
  kept stored vm w there (inr (inl (_, _, made))) = rw made there
  kept stored vm w there (inr (inr (_, (_, _, made)))) =
      rw (made, bind-world (env.vms.patch (pointed vm) w))
        (stored.patches (pointed vm) vm.meta.namespace (credentials vm.meta.name) w ∙ there)

  -- When the secret of a machine is there, it stays as it is, with its password, when the credentials
  -- are made again: this does nothing for a machine of the category mikrotik, panics for one without a
  -- template, and is the patch of the machine alone for any other, whether that fails or not.
  pub create_vm_password_credential_secret-again :
      Stored env secret_at
      → (vm : VirtualMachine) (w : W) (s : Secret)
      → secret_at vm.meta.namespace (credentials vm.meta.name) w ≡ some s
      → Remade vm w
        × (secret_at vm.meta.namespace
              (credentials vm.meta.name)
              (create_vm_password_credential_secret env vm w).1
            ≡ some s)
  create_vm_password_credential_secret-again stored vm w s there =
      let done = again stored vm w there in (done, kept stored vm w there done)
