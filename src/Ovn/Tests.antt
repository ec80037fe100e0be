-- ===== src/Ovn/Tests.antt =====
-- A client whose transactions are written down, and whose cache lists one switch with one port.
use kloudstack.Base.{◌≡◌, refl, List, [], ◌∷◌, ◌++◌, filter}
use kloudstack.Base.Text.{Text, lit, text_eq}
use kloudstack.Base.Result.{ok}
use kloudstack.Ovn.{
  NbLogicalSwitch, NbLogicalSwitchPort, Mutator, mutate_insert, mutate_delete, NbClient, is_switch,
  is_port, new_port, create_logical_port, delete_logical_port,
}
use kloudstack.Ovn.Laws.{create_logical_port-ok, delete_logical_port-ok, Removed}

data Op : Type 0 where
  switch_created port_created port_deleted : Text → Op
  ports_mutated : Text → Mutator → List Text → Op

abbrev public : NbLogicalSwitch
public = record { uuid = lit "s1"; name = lit "public"; ports = lit "p1" ∷ [] }

abbrev port_one : NbLogicalSwitchPort
port_one = record { uuid = lit "p1"; name = lit "12_web_eth0"; addresses = []; external_ids = [] }

abbrev cached : NbClient (List Op) Op
cached = record {
  new_uuid = λ w. lit "u";
  where_cache_switches = λ test w. ok (filter test (public ∷ []));
  where_cache_ports = λ test w. ok (filter test (port_one ∷ []));
  list_switches = λ w. ok (public ∷ []);
  where_switches = λ test w. ok (filter test (public ∷ []));
  create_switch = λ ls w. ok (switch_created ls.name ∷ []);
  create_port = λ lsp w. ok (port_created lsp.name ∷ []);
  mutate_ports = λ ls how uuids w. ok (ports_mutated ls.name how uuids ∷ []);
  delete_port = λ lsp w. ok (port_deleted lsp.name ∷ []);
  transact = λ ops w. (ok [], w ++ ops);
}

added : create_logical_port cached (lit "public") (lit "12_db_eth0") (lit "02:00") [] [] ≡ (
  ok tt,
  port_created (lit "12_db_eth0") ∷ ports_mutated (lit "public") mutate_insert (lit "u" ∷ []) ∷ [],
)
unfolding create_logical_port text_eq
added = refl

create_logical_port-ok_example :
    (ls : NbLogicalSwitch) × (rest : List NbLogicalSwitch) × (lsp_op : List Op) × (mutate_ops : List
      Op)
    × (replies : List Text) × (cached.where_cache_switches (is_switch (lit "public")) []
        ≡ ok (ls ∷ rest))
    × (cached.create_port (new_port cached [] (lit "12_db_eth0") (lit "02:00") []) [] ≡ ok lsp_op)
    × (cached.mutate_ports
          (record { uuid = []; name = lit "public"; ports = [] })
          mutate_insert
          (cached.new_uuid [] ∷ [])
          []
        ≡ ok mutate_ops)
    × (cached.transact (lsp_op ++ mutate_ops) [] ≡ (
      ok replies,
      port_created (lit "12_db_eth0")
          ∷ ports_mutated (lit "public") mutate_insert (lit "u" ∷ [])
          ∷ [],
    ))
create_logical_port-ok_example =
    create_logical_port-ok cached (lit "public") (lit "12_db_eth0") (lit "02:00") [] [] _ added

removed : delete_logical_port cached (lit "public") (lit "12_web_eth0") [] ≡ (
  ok tt,
  ports_mutated (lit "public") mutate_delete (lit "p1" ∷ [])
      ∷ port_deleted (lit "12_web_eth0")
      ∷ [],
)
unfolding delete_logical_port text_eq
removed = refl

delete_logical_port-ok_example :
    (ls : NbLogicalSwitch) × (rest : List NbLogicalSwitch) × (lsps : List NbLogicalSwitchPort)
    × (cached.where_cache_switches (is_switch (lit "public")) [] ≡ ok (ls ∷ rest))
    × (cached.where_cache_ports (is_port (lit "12_web_eth0")) [] ≡ ok lsps)
    × Removed cached ls lsps [] (
        ports_mutated (lit "public") mutate_delete (lit "p1" ∷ [])
        ∷ port_deleted (lit "12_web_eth0")
        ∷ [])
delete_logical_port-ok_example =
    delete_logical_port-ok cached (lit "public") (lit "12_web_eth0") [] _ removed
