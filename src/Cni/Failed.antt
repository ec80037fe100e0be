-- ===== src/Cni/Failed.antt =====
-- What a pod that cannot be attached leaves behind (`handleAdd` of
-- pkg/daemons/ovn-cni-server/server.go).
use kloudstack.Base.{◌≡◌, refl, ◌≢◌, ◌⊎◌, inl, inr, arith}
use kloudstack.Base.Text.{Text, lit}
use kloudstack.Base.Result.{Error, Result, ok, err, panic, pure, fail, bind, attempted}
use kloudstack.NetUtils.Veth.{CniInterface}
use kloudstack.Ovs.{add_port, del_port}
use kloudstack.Ovn.{create_logical_port}
use kloudstack.Cni.Types.{CniKubeArgs}
use kloudstack.Cni.{Server, Attachment, iface_id_of, undo_unless, plug, add_result, plug_both}
use kloudstack.Cni.Laws.{port_options}

-- A chain of two calls fails in the first or in the second.
bind-err :
    {W A B : Type 0} (m : Result A × W) (k : A → W → Result B × W) {e : Error} {w' : W}
    → bind m k ≡ (err e, w')
    → (m ≡ (err e, w')) ⊎ ((a : A) × (v : W) × (m ≡ (ok a, v)) × (k a v ≡ (err e, w')))
bind-err (ok a, v) k h = inr (a, v, refl, h)
bind-err (err x, v) k h = inl (ground arith)
bind-err (panic, v) k h = absurd (cc)

module _ {W OvsOp NbOp : Type 0} (s : Server W OvsOp NbOp) where
  -- A logical port that fails, and the call that takes the port off the bridge again, which returns
  -- or fails.
  abbrev pub Undone : CniKubeArgs → Text → Text → Text → W → Error → W → Type 0
  Undone k id switch mac v e w' =
      (u : W) × (r : Result (Unit {0})) × (create_logical_port s.ovn_agent switch id mac
          (port_options k) v
        ≡ (err e, u))
      × (del_port s.ovs_agent (lit "br-int") id u ≡ (r, w'))
      × (r ≢ panic)

  undo_err :
      (id : Text) (e : Error) (m : Result (Unit {0}) × W) {x : Error} {w' : W}
      → bind (bind (attempted m) (λ _. pure tt)) (λ _. fail {A = Unit {0}} e) ≡ (err x, w')
      → (x ≡ e) × (m.1 ≡ w') × (m.0 ≢ panic)
  undo_err id e (ok a, v) h = (ground arith, ground arith, λ no. cc)
  undo_err id e (err y, v) h = (ground arith, ground arith, λ no. cc)
  undo_err id e (panic, v) h = absurd (cc)

  undo_unless-err :
      (id : Text) (m : Result (Unit {0}) × W) {e : Error} {w' : W}
      → bind (attempted m) (undo_unless s id) ≡ (err e, w')
      → (u : W) × (r : Result (Unit {0})) × (m ≡ (err e, u))
        × (del_port s.ovs_agent (lit "br-int") id u ≡ (r, w'))
        × (r ≢ panic)
  unfolding undo_unless
  undo_unless-err id (ok a, v) h = absurd (cc)
  undo_unless-err id (err x, v) {e} {w'} h =
      let (same, world, no_panic) = undo_err id x (del_port s.ovs_agent (lit "br-int") id v) h in
      (
        v,
        (del_port s.ovs_agent (lit "br-int") id v).0,
        ground arith,
        (λ i. ((del_port s.ovs_agent (lit "br-int") id v).0, world i)),
        no_panic,
      )
  undo_unless-err id (panic, v) h = absurd (cc)

  -- If plugging a pod into the bridge and into its switch fails with an error, this is the error of
  -- the bridge, and no logical port was asked for, or it is that of the logical port: then the port
  -- was taken off the bridge again, by a call that returned or failed.
  pub plug_both-failed :
      (k : CniKubeArgs) (if_name : Text) (att : Attachment) (host cont : CniInterface) (v w' : W)
      (e : Error)
      → plug_both s k if_name att (host, cont) v ≡ (err e, w')
      → (add_port s.ovs_agent (lit "br-int") host.name (lit "system") (iface_id_of k if_name) v
          ≡ (err e, w'))
        ⊎ ((v' : W) × (add_port s.ovs_agent
                (lit "br-int")
                host.name
                (lit "system")
                (iface_id_of k if_name)
                v
              ≡ (ok tt, v'))
            × Undone k (iface_id_of k if_name) att.switch cont.mac v' e w')
  unfolding plug_both plug
  plug_both-failed k if_name att host cont v w' e h =
      let id = iface_id_of k if_name in
      let done = λ (_ : Unit {0}). pure (add_result s if_name att.address cont) in
      elim (bind-err (add_port s.ovs_agent (lit "br-int") host.name (lit "system") id v)
        (λ _ u. bind (plug s k id att.switch cont u) done) h) [
          | inl bridge ↦ inl bridge
          | inr (_, v', ported, h1) ↦ elim (bind-err (plug s k id att.switch cont v') done h1) [
            | inl h2 ↦ inr (
              v',
              ported,
              undo_unless-err id
                  (create_logical_port s.ovn_agent att.switch id cont.mac (port_options k) v') h2,
            )
            | inr (_, u, _, ended) ↦ absurd (cc)
          ]
        ]
