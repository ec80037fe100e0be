-- ===== src/Helpers.antt =====
-- pkg/helpers/convert.go
pub mod Laws
mod Tests
use kloudstack.Base.{ℕ, Option, none, some, List, [], ◌∷◌, take, if◌then◌else◌}
use kloudstack.Base.Int.{ℤ, pos}
use kloudstack.Base.Text.{Text, lit, has_prefix, trim_prefix, last_index, text_eq}
use kloudstack.Base.Decimal.{set_string}

-- `StringToBigInt`
unfoldable pub string_to_big_int : Text → ℤ
string_to_big_int s =
    if text_eq s [] then pos 0 else elim (set_string s) [ none ↦ pos 0 | some n ↦ n ]

abbrev pub launcher : Text
launcher = lit "virt-launcher-"

-- The name before the last dash, if there is one.
unfoldable pub before_dash : Text → Text
before_dash name = elim (last_index b'-' name) [ none ↦ [] | some i ↦ take i name ]

-- `ExtractVMName`; its last test returns the empty name for the empty name.
unfoldable pub extract_vm_name : Text → Text
extract_vm_name pod_name =
    if has_prefix pod_name launcher then before_dash (trim_prefix pod_name launcher) else []
