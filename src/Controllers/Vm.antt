-- ===== src/Controllers/Vm.antt =====
-- pkg/controllers/vm: kubevirtvm.go and kubevirtvmi.go.
pub mod Laws
pub mod Credentials
mod Tests
use kloudstack.Base.{
  ℕ, Bool, true, false, Option, none, some, List, [], ◌∷◌, ◌++◌, any, if◌then◌else◌,
}
use kloudstack.Base.Int.{ℤ, pos, negsuc}
use kloudstack.Base.Text.{Text, lit, text_eq, to_lower}
use kloudstack.Base.Result.{
  Reason, not_found, already_exists, other, Error, Result, ok, err, panic, Action, pure, fail,
  crash, reads, ◌>>=◌, attempt, logged,
}
use kloudstack.Api.Core.{
  Meta, Secret, VirtualMachine, VirtualMachineInstance, lookup_or_empty, named,
}
use kloudstack.Api.Network.{ClusterIp, ClusterIpHistory}
use kloudstack.Api.Kube.{Kube, Selector}

-- The client, the clock, and `Faker.Internet().Password()`.
pub record Env (W : Type 0) : Type 0 where
  pub vms : Kube W VirtualMachine
  pub vmis : Kube W VirtualMachineInstance
  pub secrets : Kube W Secret
  pub cluster_ips : Kube W ClusterIp
  pub now : W → ℕ
  pub password : W → Text

abbrev pub os_category : VirtualMachine → Text
os_category vm = to_lower (lookup_or_empty (lit "kloudstack/vm/oscategory") vm.meta.labels)

abbrev pub credentials : Text → Text
credentials name = name ++ lit "-credentials"

-- The secret with the password, under the user that the machine's category has.
unfoldable pub credentials_secret : VirtualMachine → Text → Secret
credentials_secret vm password = record {
  meta = named vm.meta.namespace (credentials vm.meta.name);
  contents =
      (
        if text_eq (os_category vm) (lit "windows") then lit "administrator" else lit "root",
        password,
      )
      ∷ [];
}

-- `*clusterIP.Status.History[len-1].AllocatedAt`, an index out of range on an empty history.
pub last_allocated : List ClusterIpHistory → Option ℕ
last_allocated [] = none
last_allocated (h ∷ []) = some h.allocated_at
last_allocated (h ∷ g ∷ hs) = last_allocated (g ∷ hs)

-- The cluster IP of a machine that is gone.
unfoldable pub let_go : ClusterIp → Text → ℕ → ℕ → ClusterIp
let_go cip resource allocated now = record cip {
  spec = record (cip.spec) { mac = []; interface = []; resource = [] };
  status = record (cip.status) {
    history =
        cip.status.history
        ++ (record {
          mac = cip.spec.mac;
          interface = cip.spec.interface;
          resource = resource;
          allocated_at = allocated;
          released_at = now;
        }
            ∷ []);
  };
}

-- A cluster IP whose interface is gone from its running machine; it keeps its resource.
unfoldable pub released : ClusterIp → ℕ → ClusterIp
released cip now = record cip {
  spec = record (cip.spec) { mac = []; interface = [] };
  status = record (cip.status) {
    history =
        cip.status.history
        ++ (record {
          mac = cip.spec.mac;
          interface = cip.spec.interface;
          resource = cip.spec.resource;
          allocated_at = 0;
          released_at = now;
        }
            ∷ []);
  };
}

-- `lo.Reduce`: the cluster IPs whose MAC no interface has, released.
unfoldable pub release_list : List Text → List ClusterIp → ℕ → List ClusterIp
release_list macs [] now = []
release_list macs (cip ∷ cips) now =
    let rest = release_list macs cips now in
    if any (λ mac. text_eq mac cip.spec.mac) macs then rest else released cip now ∷ rest

module _ {W : Type 0} (env : Env W) where
  -- An error of the secret's creation that is not "already exists" is returned.
  pub unless_exists : Result Secret → Action W (Unit {0})
  unless_exists (ok _) = pure tt
  unless_exists (err e) = by_reason e.reason
    where
      by_reason : Reason → Action W (Unit {0})
      by_reason already_exists = pure tt
      by_reason not_found = fail e
      by_reason other = fail e
  unless_exists panic = crash

  -- The patch of the template, through a pointer that is not tested.
  pub point_at : VirtualMachine → Option (List Text) → Action W (Unit {0})
  point_at vm none = crash
  point_at vm (some _) =
      env.vms.patch (record vm { access_credentials = some (credentials vm.meta.name ∷ []) })
      >>= λ _. pure tt

  -- `createVMPasswordCredetialSecret`
  unfoldable pub create_vm_password_credential_secret : VirtualMachine → Action W (Unit {0})
  unfolding credentials_secret unless_exists point_at
  create_vm_password_credential_secret vm w =
      (if text_eq (os_category vm) (lit "mikrotik")
          then pure tt
          else attempt (env.secrets.create (credentials_secret vm (env.password w)))
            >>= unless_exists
            >>= λ _. point_at vm vm.access_credentials)
        w

  -- `OnAddKubevirtVM`
  unfoldable pub on_add_kubevirt_vm : Text → Text → Action W (Unit {0})
  unfolding create_vm_password_credential_secret
  on_add_kubevirt_vm namespace name =
      logged (reads (env.vms.get namespace name) >>= create_vm_password_credential_secret)

  -- `removePasswordCredentials`
  unfoldable pub remove_password_credentials : Text → Text → Action W (Unit {0})
  remove_password_credentials namespace name = env.secrets.delete namespace (credentials name)

  pub let_go_at : ClusterIp → Text → Option ℕ → Action W (Unit {0})
  let_go_at cip resource none w = crash w
  let_go_at cip resource (some allocated) w =
      (env.cluster_ips.update_status (let_go cip resource allocated (env.now w)) >>= λ _. pure tt) w

  -- The loop over the machine's cluster IPs.
  pub let_go_all : Text → List ClusterIp → Action W (Unit {0})
  unfolding let_go_at last_allocated
  let_go_all resource [] = pure tt
  let_go_all resource (cip ∷ cips) =
      let_go_at cip resource (last_allocated cip.status.history) >>= λ _. let_go_all resource cips

  abbrev pub resource_selector : Text → Selector
  resource_selector resource = (lit "spec.resource", resource) ∷ []

  -- `updateClusterIP`
  unfoldable pub update_cluster_ip : Text → Text → Action W (Unit {0})
  unfolding let_go_all
  update_cluster_ip namespace name =
      reads (env.cluster_ips.list (resource_selector (namespace ++ (b'/' ∷ name))) (pos 1000))
      >>= let_go_all (namespace ++ (b'/' ∷ name))

  -- `OnDeleteKubevirtVM`
  unfoldable pub on_delete_kubevirt_vm : Text → Text → Action W (Unit {0})
  unfolding remove_password_credentials update_cluster_ip
  on_delete_kubevirt_vm namespace name =
      logged (remove_password_credentials namespace name) >>= λ _.
      logged (update_cluster_ip namespace name)

  -- The loop over what is released.
  pub update_all : List ClusterIp → Action W (Unit {0})
  update_all [] = pure tt
  update_all (cip ∷ cips) = logged (env.cluster_ips.update cip) >>= λ _. update_all cips

  -- After the list, or its error, which is logged with no items left.
  pub release_from : List Text → Result (List ClusterIp) → Action W (Unit {0})
  unfolding update_all
  release_from macs (ok items) w = update_all (release_list macs items (env.now w)) w
  release_from macs (err e) w = (ok tt, w)
  release_from macs panic w = crash w

  pub release_unused : VirtualMachineInstance → List Text → Action W (Unit {0})
  unfolding release_from
  release_unused vmi [] = pure tt
  release_unused vmi (mac ∷ macs) =
      attempt (
        reads (
          env.cluster_ips.list (resource_selector (vmi.meta.namespace ++ (b'/' ∷ vmi.meta.name)))
            (negsuc 0)))
      >>= release_from (mac ∷ macs)

  pub release_for : VirtualMachineInstance → Action W (Unit {0})
  unfolding release_unused
  release_for vmi =
      if text_eq vmi.phase (lit "Running") then release_unused vmi vmi.interfaces else pure tt

  -- `OnUpdateVMI`
  unfoldable pub on_update_vmi : Text → Text → Action W (Unit {0})
  unfolding release_for
  on_update_vmi namespace name = logged (reads (env.vmis.get namespace name) >>= release_for)
