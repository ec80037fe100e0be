-- ===== src/Ovn.antt =====
-- pkg/ovn/ovnnb.go over the client of libovsdb, which is a parameter: its operations are values of
-- an unknown type `Op`. Only the columns that the program uses are fields.
pub mod Laws
pub mod Agent
mod Tests
use kloudstack.Base.{ℕ, Bool, Option, none, some, List, [], ◌∷◌, ◌++◌, length, leb, if◌then◌else◌}
use kloudstack.Base.Text.{Text, lit, text_eq, quoted}
use kloudstack.Base.Result.{
  Result, ok, err, panic, failure, wrapped, Action, pure, fail, reads, ◌>>=◌, wrap,
}
use kloudstack.Api.Core.{StringMap}

-- `models.LogicalSwitch`
pub record NbLogicalSwitch : Type 0 where
  pub uuid : Text
  pub name : Text
  pub ports : List Text

-- `models.LogicalSwitchPort`
pub record NbLogicalSwitchPort : Type 0 where
  pub uuid : Text
  pub name : Text
  pub addresses : List Text
  pub external_ids : StringMap

pub data Mutator : Type 0 where
  mutate_insert mutate_delete : Mutator

pub record NbClient (W Op : Type 0) : Type 0 where
  -- `uuid.New`
  pub new_uuid : W → Text
  -- `WhereCache(test).List`
  pub where_cache_switches : (NbLogicalSwitch → Bool) → W → Result (List NbLogicalSwitch)
  pub where_cache_ports : (NbLogicalSwitchPort → Bool) → W → Result (List NbLogicalSwitchPort)
  -- `List`, and `Where(test).List`
  pub list_switches : W → Result (List NbLogicalSwitch)
  pub where_switches : (NbLogicalSwitch → Bool) → W → Result (List NbLogicalSwitch)
  pub create_switch : NbLogicalSwitch → W → Result (List Op)
  pub create_port : NbLogicalSwitchPort → W → Result (List Op)
  -- `Where(ls).Mutate(ls, ...)` on its column of ports.
  pub mutate_ports : NbLogicalSwitch → Mutator → List Text → W → Result (List Op)
  pub delete_port : NbLogicalSwitchPort → W → Result (List Op)
  -- The errors of the replies, which are only logged.
  pub transact : List Op → Action W (List Text)

abbrev pub is_switch : Text → NbLogicalSwitch → Bool
is_switch name ls = text_eq ls.name name

abbrev pub is_port : Text → NbLogicalSwitchPort → Bool
is_port name lsp = text_eq lsp.name name

-- The lookup before a port is created: the error is printed, also when there is none.
pub must_exist : Text → Result (List NbLogicalSwitch) → Result NbLogicalSwitch
must_exist name (ok []) =
    err (failure (lit "failed to find logical switch " ++ (name ++ lit ": <nil>")))
must_exist name (ok (ls ∷ _)) = ok ls
must_exist name (err e) =
    err (failure (lit "failed to find logical switch " ++ (name ++ (lit ": " ++ e.message))))
must_exist name panic = panic

-- The lookup before a port is deleted.
unfoldable pub first_switch : Text → Result (List NbLogicalSwitch) → Result NbLogicalSwitch
first_switch name (ok []) =
    err (failure (lit "logical switch " ++ (quoted name ++ lit " not found")))
first_switch name (ok (ls ∷ _)) = ok ls
first_switch name (err e) =
    err (failure (lit "failed to query logical switch cache: " ++ e.message))
first_switch name panic = panic

-- The ports of the first switch.
pub ports_of_first : Text → Result (List NbLogicalSwitch) → Result (List Text)
ports_of_first name (ok []) = err (failure (lit "logical switch " ++ (name ++ lit " not found")))
ports_of_first name (ok (ls ∷ _)) = ok ls.ports
ports_of_first name (err e) = err (failure (lit "failed to list logical switch: " ++ e.message))
ports_of_first name panic = panic

-- The variadic options: the first map, or an empty one.
pub first_options : List StringMap → StringMap
first_options [] = []
first_options (opts ∷ _) = opts

module _ {W Op : Type 0} (client : NbClient W Op) where
  pub transacted : List Op → Action W (Unit {0})
  transacted ops = wrap (lit "transaction failed: ") (client.transact ops) >>= λ _. pure tt

  pub create_row : NbLogicalSwitch → Action W (Unit {0})
  create_row ls = reads (client.create_switch ls) >>= λ ops. (client.transact ops >>= λ _. pure tt)

  -- The length of what was found is compared with 0 by `>=`.
  pub unless_found : NbLogicalSwitch → List NbLogicalSwitch → Action W (Unit {0})
  unfolding create_row
  unless_found ls results =
      if leb 0 (length results)
      then fail (failure (lit "The logical switch " ++ (ls.name ++ lit " already exists")))
      else create_row ls

  -- `CreateLogicalSwitch`
  unfoldable pub create_logical_switch : Text → Text → Action W (Unit {0})
  unfolding unless_found
  create_logical_switch namespace name =
      let ls_name = namespace ++ (b'/' ∷ name) in
      reads (client.where_cache_switches (is_switch ls_name))
      >>= unless_found (record { uuid = []; name = ls_name; ports = [] })

  abbrev pub transact_both : List Op → List Op → Action W (Unit {0})
  transact_both ops more = transacted (ops ++ more)

  pub insert_into : NbLogicalSwitch → Text → List Op → Action W (Unit {0})
  unfolding transacted
  insert_into ls uuid lsp_op =
      reads (λ w.
        wrapped (lit "failed to prepare mutation: ")
          (client.mutate_ports ls mutate_insert (uuid ∷ []) w))
      >>= transact_both lsp_op

  -- The operations for a port: it is created and inserted into its switch in one transaction.
  pub add_to_switch : NbLogicalSwitch → NbLogicalSwitchPort → NbLogicalSwitch → Action W (Unit {0})
  unfolding insert_into
  add_to_switch ls lsp found =
      reads (λ w.
        wrapped (lit "failed to create logical port " ++ (lsp.name ++ lit ": "))
          (client.create_port lsp w))
      >>= insert_into ls lsp.uuid

  abbrev pub new_port : W → Text → Text → List StringMap → NbLogicalSwitchPort
  new_port w lsp_name peer_mac options = record {
    uuid = client.new_uuid w;
    name = lsp_name;
    addresses = peer_mac ∷ [];
    external_ids = first_options options;
  }

  -- `CreateLogicalPort`
  unfoldable pub create_logical_port : Text → Text → Text → List StringMap → Action W (Unit {0})
  unfolding add_to_switch must_exist
  create_logical_port ls_name lsp_name peer_mac options w =
      (reads (λ v. must_exist ls_name (client.where_cache_switches (is_switch ls_name) v))
          >>= add_to_switch (record { uuid = []; name = ls_name; ports = [] })
              (new_port w lsp_name peer_mac options))
        w

  pub delete_after : NbLogicalSwitchPort → List Op → Action W (Unit {0})
  unfolding transacted
  delete_after lsp mutate_ops =
      reads (λ w.
        wrapped (lit "failed to prepare logical switch port delete: ") (client.delete_port lsp w))
      >>= transact_both mutate_ops

  pub remove_from_switch : NbLogicalSwitch → NbLogicalSwitchPort → Action W (Unit {0})
  unfolding delete_after
  remove_from_switch ls lsp =
      reads (λ w.
        wrapped (lit "failed to prepare logical switch mutation: ")
          (client.mutate_ports ls mutate_delete (lsp.uuid ∷ []) w))
      >>= delete_after lsp

  -- A port that is not in the cache is skipped.
  pub remove_first : NbLogicalSwitch → List NbLogicalSwitchPort → Action W (Unit {0})
  unfolding remove_from_switch
  remove_first ls [] = pure tt
  remove_first ls (lsp ∷ _) = remove_from_switch ls lsp

  pub remove_named : Text → NbLogicalSwitch → Action W (Unit {0})
  unfolding remove_first
  remove_named lsp_name ls =
      reads (λ w.
        wrapped (lit "failed to query logical switch port cache: ")
          (client.where_cache_ports (is_port lsp_name) w))
      >>= remove_first ls

  -- `DeleteLogicalPort`
  unfoldable pub delete_logical_port : Text → Text → Action W (Unit {0})
  unfolding remove_named first_switch
  delete_logical_port ls_name lsp_name =
      reads (λ w. first_switch ls_name (client.where_cache_switches (is_switch ls_name) w))
      >>= remove_named lsp_name

  -- `ListLogicalSwitches`
  unfoldable pub list_logical_switches : Action W (List NbLogicalSwitch)
  list_logical_switches = reads client.list_switches

  -- `ListLogicalPorts`
  unfoldable pub list_logical_ports : Text → Action W (List Text)
  unfolding ports_of_first
  list_logical_ports ls_name =
      reads (λ w. ports_of_first ls_name (client.where_switches (is_switch ls_name) w))
