-- ===== src/Controllers/Vm/Tests.antt =====
-- A machine with two cluster IPs, one of which its interfaces still have.
use kloudstack.Base.{◌≡◌, refl, Option, none, some, List, [], ◌∷◌, if◌then◌else◌}
use kloudstack.Base.Text.{Text, lit, text_eq}
use kloudstack.Base.Result.{Result, ok, err, failure, already_exists}
use kloudstack.Api.Core.{Secret, VirtualMachine, named}
use kloudstack.Api.Network.{ClusterIp, ClusterIpHistory}
use kloudstack.Api.Kube.{Kube}
use kloudstack.Controllers.Vm.{Env, release_list, credentials, create_vm_password_credential_secret}
use kloudstack.Controllers.Vm.Credentials.{
  Stored, Remade, create_vm_password_credential_secret-again,
}
use kloudstack.Controllers.Vm.Laws.{IsReleaseList, release_list-IsReleaseList}

unused : {A : Type 0} → Result A
unused = err (failure (lit "not used"))

abbrev idle : {W Obj : Type 0} → Kube W Obj
idle = record {
  get = λ namespace name w. unused;
  list = λ sel limit w. unused;
  create = λ o w. (unused, w);
  update = λ o w. (unused, w);
  update_status = λ o w. (unused, w);
  patch = λ o w. (unused, w);
  delete = λ namespace name w. (unused, w);
  delete_all_of = λ namespace sel w. (unused, w);
}

-- Every list call gives these; what is stored is written down.
abbrev listing : List ClusterIp → Env (List ClusterIp)
listing cips = record {
  vms = idle;
  vmis = idle;
  secrets = idle;
  cluster_ips = record {
    get = λ namespace name w. unused;
    list = λ sel limit w. ok cips;
    create = λ o w. (unused, w);
    update = λ o w. (ok o, o ∷ w);
    update_status = λ o w. (ok o, o ∷ w);
    patch = λ o w. (unused, w);
    delete = λ namespace name w. (unused, w);
    delete_all_of = λ namespace sel w. (unused, w);
  };
  now = λ w. 1700000000;
  password = λ w. lit "secret";
}

abbrev allocated : ClusterIpHistory
allocated = record { mac = []; interface = []; resource = []; allocated_at = 1; released_at = 0 }

abbrev cip_with : Text → List ClusterIpHistory → ClusterIp
cip_with mac history = record {
  meta = named [] (lit "12-web-eth0");
  spec = record {
    cluster_ip_pool = lit "public";
    interface = lit "eth0";
    address = lit "10.0.0.1";
    mac = mac;
    family = lit "v4";
    resource = lit "12/web";
  };
  status = record { conditions = []; history = history };
}

abbrev two : List ClusterIp
two = cip_with (lit "02:01") (allocated ∷ []) ∷ cip_with (lit "02:02") (allocated ∷ []) ∷ []

release_list-IsReleaseList_example :
    IsReleaseList (lit "02:01" ∷ []) two (release_list (lit "02:01" ∷ []) two 5)
release_list-IsReleaseList_example = release_list-IsReleaseList (lit "02:01" ∷ []) two 5

-- A server with one secret.
abbrev one_secret : Env Secret
one_secret = record {
  vms = record (idle) { patch = λ o w. (ok o, w) };
  vmis = idle;
  secrets = record (idle) {
    create = λ o w. (err (record { reason = already_exists; message = [] }), w);
  };
  cluster_ips = idle;
  now = λ w. 1700000000;
  password = λ w. lit "another";
}

abbrev secret_at : Text → Text → Secret → Option Secret
secret_at namespace name s = if text_eq s.meta.name name then some s else none

one_secret-Stored : Stored one_secret secret_at
one_secret-Stored = record {
  exists = λ o w there. (record { reason = already_exists; message = [] }, refl, refl);
  patches = λ vm namespace name w. refl;
}

abbrev web : VirtualMachine
web = record { meta = named (lit "12") (lit "web"); access_credentials = some [] }

abbrev web_secret : Secret
web_secret = record {
  meta = named (lit "12") (lit "web-credentials");
  contents = (lit "root", lit "secret") ∷ [];
}

web_there : secret_at (lit "12") (credentials (lit "web")) web_secret ≡ some web_secret
unfolding text_eq
web_there = refl

create_vm_password_credential_secret-again_example :
    Remade one_secret secret_at web web_secret
    × (secret_at
          (lit "12")
          (credentials (lit "web"))
          (create_vm_password_credential_secret one_secret web web_secret).1
        ≡ some web_secret)
create_vm_password_credential_secret-again_example =
    create_vm_password_credential_secret-again one_secret secret_at one_secret-Stored web web_secret
      web_secret web_there
