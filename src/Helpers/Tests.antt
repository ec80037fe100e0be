-- ===== src/Helpers/Tests.antt =====
-- Names of launcher pods and counts.
use kloudstack.Base.{◌++◌, ◌∷◌, ◌≡◌, arith}
use kloudstack.Base.Text.{lit}
use kloudstack.Base.Text.Laws.{Lacks}
use kloudstack.Helpers.{launcher, extract_vm_name}
use kloudstack.Helpers.Laws.{extract_vm_name-launcher}

suffix-Lacks : Lacks b'-' (lit "x7")
suffix-Lacks = ((λ e. ground arith), ((λ e. ground arith), tt))

extract_vm_name-launcher_example :
    extract_vm_name (launcher ++ (lit "my-vm" ++ (b'-' ∷ lit "x7"))) ≡ lit "my-vm"
extract_vm_name-launcher_example = extract_vm_name-launcher (lit "my-vm") (lit "x7") suffix-Lacks

named : extract_vm_name (lit "virt-launcher-my-vm-x7") ≡ lit "my-vm"
named = extract_vm_name-launcher (lit "my-vm") (lit "x7") suffix-Lacks
