-- ===== src/Cni/Plugin/Laws.antt =====
-- The plugin with the daemon at the other end of the socket.
use kloudstack.Base.{◌≡◌, refl, ◌≢◌, ◌⊎◌, inl, inr, [], ◌∷◌}
use kloudstack.Base.Text.{Text, lit, text_eq}
use kloudstack.Base.Result.{Result, ok, err, failure, Action}
use kloudstack.Cni.Types.{CmdArgs, CniRequest, CniResponse, CniResult}
use kloudstack.Cni.{Server, handle_add, handle_del, handle_connection, run_on_daemon}
use kloudstack.Cni.Daemon.{Codec, serve_bytes}
use kloudstack.Cni.Plugin.{
  Sockets, PluginCodec, socket_path, exchange, exchange_on, call_cni_daemon, cmd_add, cmd_del,
}

-- What is relied on of JSON, at one request and one response: their bytes are decoded to them.
pub record Decodes {W : Type 0} (codec : PluginCodec W) (daemon : Codec) (req : CniRequest)
    (r : CniResponse) : Type 0 where
  pub decode-request : daemon.decode_request (codec.marshal_request req) ≡ ok req
  pub decode-response : codec.unmarshal_response (daemon.encode_response r) ≡ ok r

-- What is relied on of the socket: a connection to the daemon's is read to the end with what the daemon
-- has answered to the bytes that were written, after what that has done to the world.
pub record Connected {W Conn OvsOp NbOp : Type 0} (net : Sockets W Conn) (codec : PluginCodec W)
    (daemon : Codec) (s : Server W OvsOp NbOp) : Type 0 where
  pub dials : (w : W) → (conn : Conn) × (net.dial (lit "unix") socket_path w ≡ (ok conn, w))
  pub exchanges :
      (conn : Conn) (bytes : Text) (w : W) {answer : Text} {w' : W}
      → serve_bytes daemon s bytes w ≡ (ok answer, w')
      → exchange net codec conn bytes w ≡ (ok answer, w')
  pub closes : (conn : Conn) (w : W) → net.close conn w ≡ w

module _ {W Conn OvsOp NbOp : Type 0} (net : Sockets W Conn) (codec : PluginCodec W)
    (daemon : Codec) (s : Server W OvsOp NbOp) (c : Connected net codec daemon s) where
  -- A request that the daemon answers comes back as its response.
  call_daemon :
      (req : CniRequest) (w : W) {r : CniResponse} {w' : W}
      → codec.unmarshal_response (daemon.encode_response r) ≡ ok r
      → serve_bytes daemon s (codec.marshal_request req) w ≡ (ok (daemon.encode_response r), w')
      → call_cni_daemon net codec socket_path req w ≡ (ok r, w')
  unfolding call_cni_daemon exchange_on
  call_daemon req w {r} {w'} decoded served =
      let (conn, dialed) = c.dials w in
      rw dialed (
        rw (c.exchanges conn (codec.marshal_request req) w served)
          (rw decoded (rw (c.closes conn w') refl)))

  serve_add :
      (args : CmdArgs) (w : W) {r : CniResponse} {w' : W}
      → daemon.decode_request (codec.marshal_request (record { cmd = lit "Add"; cmd_args = args }))
        ≡ ok (record { cmd = lit "Add"; cmd_args = args })
      → handle_add s args w ≡ (ok r, w')
      → serve_bytes daemon s (codec.marshal_request (record { cmd = lit "Add"; cmd_args = args })) w
        ≡ (ok (daemon.encode_response r), w')
  unfolding serve_bytes handle_connection text_eq
  serve_add args w d h = rw d (rw h refl)

  serve_del :
      (args : CmdArgs) (w : W) {r : CniResponse} {w' : W}
      → daemon.decode_request (codec.marshal_request (record { cmd = lit "Del"; cmd_args = args }))
        ≡ ok (record { cmd = lit "Del"; cmd_args = args })
      → handle_del s args w ≡ (ok r, w')
      → serve_bytes daemon s (codec.marshal_request (record { cmd = lit "Del"; cmd_args = args })) w
        ≡ (ok (daemon.encode_response r), w')
  unfolding serve_bytes handle_connection text_eq
  serve_del args w d h = rw d (rw h refl)

  -- A command that is answered without an error, and one that is not.
  abbrev pub Answered : Action W (Unit {0}) → W → CniResponse → Result (Unit {0}) × W → W → Type 0
  Answered command w r done w' =
      ((r.error ≡ []) × (command w ≡ done))
      ⊎ ((r.error ≢ []) × (command w ≡ (err (failure r.error), w')))

  added :
      (args : CmdArgs) (w : W) (result : CniResult) (error : Text) (w' : W)
      → call_cni_daemon net codec socket_path (record { cmd = lit "Add"; cmd_args = args }) w
        ≡ (ok (record { result = result; error = error }), w')
      → Answered
          (cmd_add net codec args)
          w
          (record { result = result; error = error })
          (codec.print_result result w')
          w'
  unfolding cmd_add run_on_daemon text_eq
  added args w result [] w' h = inl (refl, rw h refl)
  added args w result (b ∷ error) w' h = inr (λ e. cc, rw h refl)

  deleted :
      (args : CmdArgs) (w : W) (result : CniResult) (error : Text) (w' : W)
      → call_cni_daemon net codec socket_path (record { cmd = lit "Del"; cmd_args = args }) w
        ≡ (ok (record { result = result; error = error }), w')
      → Answered
          (cmd_del net codec args)
          w
          (record { result = result; error = error })
          (ok tt, w')
          w'
  unfolding cmd_del run_on_daemon text_eq
  deleted args w result [] w' h = inl (refl, rw h refl)
  deleted args w result (b ∷ error) w' h = inr (λ e. cc, rw h refl)

  -- The plugin's commands are the daemon's handlers: with a response of `handleAdd` that has no error
  -- its result is printed, and a `handleDel` that has none ends well; an error is the plugin's own, with
  -- the same text. What was done to the world is what the handler did.
  pub cmd-served :
      (args args' : CmdArgs) (w w' v v' : W) (r r' : CniResponse)
      → Decodes codec daemon (record { cmd = lit "Add"; cmd_args = args }) r
      → Decodes codec daemon (record { cmd = lit "Del"; cmd_args = args' }) r'
      → handle_add s args w ≡ (ok r, w')
      → handle_del s args' v ≡ (ok r', v')
      → Answered (cmd_add net codec args) w r (codec.print_result r.result w') w'
        × Answered (cmd_del net codec args') v r' (ok tt, v') v'
  cmd-served args args' w w' v v' r r' d d' add del = (
    added args w r.result r.error w' (
        call_daemon (record { cmd = lit "Add"; cmd_args = args }) w d.decode-response
          (serve_add args w d.decode-request add)),
    deleted args' v r'.result r'.error v' (
        call_daemon (record { cmd = lit "Del"; cmd_args = args' }) v d'.decode-response
          (serve_del args' v d'.decode-request del)),
  )
