-- ===== src/Ovn/Laws.antt =====
-- What the calls on logical switches and their ports transact.
use kloudstack.Base.{ℕ, ◌≡◌, true, List, [], ◌∷◌, ◌++◌, arith, length, leb}
use kloudstack.Base.Text.{Text, lit, quoted}
use kloudstack.Base.Result.{Result, ok, err, panic, failure, wrapped, pure, bind}
use kloudstack.Base.Result.Laws.{reads-ok, wrapped-ok}
use kloudstack.Api.Core.{StringMap}
use kloudstack.Ovn.{
  NbLogicalSwitch, NbLogicalSwitchPort, mutate_insert, mutate_delete, NbClient, is_switch, is_port,
  must_exist, first_switch, unless_found, new_port, transacted, add_to_switch, remove_from_switch,
  insert_into, transact_both, delete_after, remove_named, remove_first, create_logical_switch,
  create_logical_port, delete_logical_port,
}

must_exist-ok :
    (name : Text) (r : Result (List NbLogicalSwitch)) {ls : NbLogicalSwitch}
    → must_exist name r ≡ ok ls
    → (rest : List NbLogicalSwitch) × (r ≡ ok (ls ∷ rest))
unfolding must_exist
must_exist-ok name (ok []) e = absurd (cc)
must_exist-ok name (ok (x ∷ rest)) e = (rest, ground arith)
must_exist-ok name (err x) e = absurd (cc)
must_exist-ok name panic e = absurd (cc)

first_switch-ok :
    (name : Text) (r : Result (List NbLogicalSwitch)) {ls : NbLogicalSwitch}
    → first_switch name r ≡ ok ls
    → (rest : List NbLogicalSwitch) × (r ≡ ok (ls ∷ rest))
unfolding first_switch
first_switch-ok name (ok []) e = absurd (cc)
first_switch-ok name (ok (x ∷ rest)) e = (rest, ground arith)
first_switch-ok name (err x) e = absurd (cc)
first_switch-ok name panic e = absurd (cc)

leb_zero : (n : ℕ) → leb 0 n ≡ true
leb_zero n = ground arith

module _ {W Op : Type 0} (client : NbClient W Op) where
  -- Whatever the cache lists, an empty list included, a logical switch is refused as one that
  -- exists already, and nothing is transacted.
  pub create_logical_switch-refuses :
      (namespace name : Text) (w : W) {found : List NbLogicalSwitch}
      → client.where_cache_switches (is_switch (namespace ++ (b'/' ∷ name))) w ≡ ok found
      → create_logical_switch client namespace name w ≡ (
        err (
            failure
              (lit "The logical switch " ++ (namespace ++ (b'/' ∷ name) ++ lit " already exists"))),
        w,
      )
  unfolding create_logical_switch unless_found
  create_logical_switch-refuses namespace name w {found} listed =
      rw (listed, leb_zero (length found))

  transacted_ok :
      (m : Result (List Text) × W) {w' : W}
      → bind (wrapped (lit "transaction failed: ") m.0, m.1) (λ _. pure tt) ≡ (ok tt, w')
      → (replies : List Text) × (m ≡ (ok replies, w'))
  transacted_ok (ok r, v) e = (r, ground arith)
  transacted_ok (err x, v) e = absurd (cc)
  transacted_ok (panic, v) e = absurd (cc)

  transacted-ok :
      (ops : List Op) (w : W) {w' : W}
      → transacted client ops w ≡ (ok tt, w')
      → (replies : List Text) × (client.transact ops w ≡ (ok replies, w'))
  unfolding transacted
  transacted-ok ops w e = transacted_ok (client.transact ops w) e

  -- A port that is added without an error was added to a switch that the cache lists, by one
  -- transaction: the port's creation, and behind it its insertion into the switch of that name.
  pub create_logical_port-ok :
      (ls_name lsp_name peer_mac : Text) (options : List StringMap) (w w' : W)
      → create_logical_port client ls_name lsp_name peer_mac options w ≡ (ok tt, w')
      → (ls : NbLogicalSwitch) × (rest : List NbLogicalSwitch) × (lsp_op : List Op)
        × (mutate_ops : List Op) × (replies : List Text) × (client.where_cache_switches
              (is_switch ls_name)
              w
            ≡ ok (ls ∷ rest))
        × (client.create_port (new_port client w lsp_name peer_mac options) w ≡ ok lsp_op)
        × (client.mutate_ports
              (record { uuid = []; name = ls_name; ports = [] })
              mutate_insert
              (client.new_uuid w ∷ [])
              w
            ≡ ok mutate_ops)
        × (client.transact (lsp_op ++ mutate_ops) w ≡ (ok replies, w'))
  unfolding create_logical_port add_to_switch insert_into
  create_logical_port-ok ls_name lsp_name peer_mac options w w' e =
      let own : NbLogicalSwitch = record { uuid = []; name = ls_name; ports = [] } in
      let lsp = new_port client w lsp_name peer_mac options in
      let (ls, found, e1) =
        reads-ok (must_exist ls_name (client.where_cache_switches (is_switch ls_name) w)) w
          (add_to_switch client own lsp) e in
      let (rest, listed) =
        must_exist-ok ls_name (client.where_cache_switches (is_switch ls_name) w) found in
      let before = lit "failed to create logical port " ++ (lsp_name ++ lit ": ") in
      let (lsp_op, created, e2) =
        reads-ok (wrapped before (client.create_port lsp w)) w (insert_into client own lsp.uuid)
          e1 in
      let changed = client.mutate_ports own mutate_insert (client.new_uuid w ∷ []) w in
      let (mutate_ops, mutated, e3) =
        reads-ok (wrapped (lit "failed to prepare mutation: ") changed) w
          (transact_both client lsp_op) e2 in
      let (replies, done) = transacted-ok (lsp_op ++ mutate_ops) w e3 in
      (
        ls,
        rest,
        lsp_op,
        mutate_ops,
        replies,
        listed,
        wrapped-ok before _ created,
        wrapped-ok (lit "failed to prepare mutation: ") changed mutated,
        done,
      )

  remove_ok :
      (ls : NbLogicalSwitch) (lsp : NbLogicalSwitchPort) (w w' : W)
      → remove_from_switch client ls lsp w ≡ (ok tt, w')
      → (mutate_ops : List Op) × (del_ops : List Op) × (replies : List Text) × (client.mutate_ports
            ls mutate_delete
            (lsp.uuid ∷ [])
            w
          ≡ ok mutate_ops)
        × (client.delete_port lsp w ≡ ok del_ops)
        × (client.transact (mutate_ops ++ del_ops) w ≡ (ok replies, w'))
  unfolding remove_from_switch delete_after
  remove_ok ls lsp w w' e =
      let changed = client.mutate_ports ls mutate_delete (lsp.uuid ∷ []) w in
      let (mutate_ops, mutated, e1) =
        reads-ok (wrapped (lit "failed to prepare logical switch mutation: ") changed) w
          (delete_after client lsp) e in
      let (del_ops, deleted, e2) =
        reads-ok
          (wrapped (lit "failed to prepare logical switch port delete: ")
            (client.delete_port lsp w))
          w (transact_both client mutate_ops) e1 in
      let (replies, done) = transacted-ok (mutate_ops ++ del_ops) w e2 in
      (
        mutate_ops,
        del_ops,
        replies,
        wrapped-ok (lit "failed to prepare logical switch mutation: ") changed mutated,
        wrapped-ok (lit "failed to prepare logical switch port delete: ") _ deleted,
        done,
      )

  -- A port is not deleted from a switch that the cache does not list.
  pub delete_logical_port-missing :
      (ls_name lsp_name : Text) (w : W)
      → client.where_cache_switches (is_switch ls_name) w ≡ ok []
      → delete_logical_port client ls_name lsp_name w
        ≡ (err (failure (lit "logical switch " ++ (quoted ls_name ++ lit " not found"))), w)
  unfolding delete_logical_port first_switch
  delete_logical_port-missing ls_name lsp_name w none_listed = rw none_listed

  -- What was done about the first port that was found: nothing if there was none; otherwise it was
  -- taken out of the switch and deleted, in one transaction.
  abbrev pub Removed : NbLogicalSwitch → List NbLogicalSwitchPort → W → W → Type 0
  Removed ls [] w w' = w' ≡ w
  Removed ls (lsp ∷ _) w w' =
      (mutate_ops : List Op) × (del_ops : List Op) × (replies : List Text) × (client.mutate_ports ls
          mutate_delete (lsp.uuid ∷ []) w
        ≡ ok mutate_ops)
      × (client.delete_port lsp w ≡ ok del_ops)
      × (client.transact (mutate_ops ++ del_ops) w ≡ (ok replies, w'))

  Removed-ok :
      (ls : NbLogicalSwitch) (lsps : List NbLogicalSwitchPort) (w w' : W)
      → remove_first client ls lsps w ≡ (ok tt, w')
      → Removed ls lsps w w'
  unfolding remove_first
  Removed-ok ls [] w w' e = ground arith
  Removed-ok ls (lsp ∷ lsps) w w' e = remove_ok ls lsp w w' e

  -- A port is deleted without an error only from a switch that the cache lists: a port that the
  -- cache does not list is skipped, and otherwise one transaction takes the first one of that name
  -- out of the switch and deletes it.
  pub delete_logical_port-ok :
      (ls_name lsp_name : Text) (w w' : W)
      → delete_logical_port client ls_name lsp_name w ≡ (ok tt, w')
      → (ls : NbLogicalSwitch) × (rest : List NbLogicalSwitch) × (lsps : List NbLogicalSwitchPort)
        × (client.where_cache_switches (is_switch ls_name) w ≡ ok (ls ∷ rest))
        × (client.where_cache_ports (is_port lsp_name) w ≡ ok lsps)
        × Removed ls lsps w w'
  unfolding delete_logical_port remove_named
  delete_logical_port-ok ls_name lsp_name w w' e =
      let switches = client.where_cache_switches (is_switch ls_name) w in
      let ports = client.where_cache_ports (is_port lsp_name) w in
      let (ls, found, e1) =
        reads-ok (first_switch ls_name switches) w (remove_named client lsp_name) e in
      let (rest, listed) = first_switch-ok ls_name switches found in
      let (lsps, e0, e2) =
        reads-ok (wrapped (lit "failed to query logical switch port cache: ") ports) w
          (remove_first client ls) e1 in
      (
        ls,
        rest,
        lsps,
        listed,
        wrapped-ok (lit "failed to query logical switch port cache: ") ports e0,
        Removed-ok ls lsps w w' e2,
      )
