-- ===== src/Cni/Tests/Plugin.antt =====
-- The plugin and the daemon of the runs above, over a socket that keeps the answer in the world.
use kloudstack.Base.{◌≡◌, refl, zero, suc, false, List, [], ◌∷◌, length}
use kloudstack.Base.Text.{Text, lit, text_eq}
use kloudstack.Base.Result.{Result, ok, err, panic, failure}
use kloudstack.Ovs.{del_port}
use kloudstack.Ovn.{delete_logical_port}
use kloudstack.Cni.Types.{CniResponse, no_result}
use kloudstack.Cni.{parse_config, handle_del, del_switch}
use kloudstack.Cni.Daemon.{Codec, serve_bytes}
use kloudstack.Cni.Plugin.{Sockets, PluginCodec, cmd_add, cmd_del}
use kloudstack.Cni.Plugin.Laws.{Connected, Answered, cmd-served}
use kloudstack.Cni.Tests.{server, on_switch, added, all_done, handled}

-- A request is the text of its command, and a response the count of its interfaces.
abbrev daemon_codec : Codec
daemon_codec = record {
  decode_request = λ bytes. ok (record { cmd = bytes; cmd_args = on_switch (lit "blue") });
  encode_response = λ r. length r.result.interfaces ∷ [];
}

abbrev nothing : CniResponse
nothing = record { result = no_result; error = [] }

abbrev counted_response : Text → Result CniResponse
counted_response [] = err (failure (lit "unexpected end of JSON input"))
counted_response (zero ∷ _) = ok nothing
counted_response (suc n ∷ _) = ok added

abbrev plugin_codec : PluginCodec (List Text)
plugin_codec = record {
  marshal_request = λ req. req.cmd;
  unmarshal_response = counted_response;
  print_result = λ result w. (ok tt, lit "printed" ∷ w);
}

abbrev kept_answer : Result Text × List Text → Result (Unit {0}) × List Text
kept_answer (ok a, w) = (ok tt, a ∷ w)
kept_answer (err e, w) = (err e, w)
kept_answer (panic, w) = (panic, w)

abbrev taken_answer : List Text → Result Text × List Text
taken_answer [] = (ok [], [])
taken_answer (a ∷ w) = (ok a, w)

abbrev sockets : Sockets (List Text) (Unit {0})
sockets = record {
  dial = λ network path w. (ok tt, w);
  write = λ conn bytes w. kept_answer (serve_bytes daemon_codec (server false) bytes w);
  read_all = λ conn w. taken_answer w;
  close = λ conn w. w;
}

sockets-Connected : Connected sockets plugin_codec daemon_codec (server false)
sockets-Connected = record {
  dials = λ w. (tt, refl);
  exchanges = λ conn bytes w e. rw e;
  closes = λ conn w. refl;
}

undone :
    handle_del (server false) (on_switch (lit "blue")) all_done
    ≡ (ok nothing, lit "no port" ∷ all_done)
unfolding handle_del parse_config text_eq del_switch delete_logical_port del_port
undone = refl

cmd-served_example :
    Answered sockets plugin_codec daemon_codec
      (server false)
      sockets-Connected
      (cmd_add sockets plugin_codec (on_switch (lit "blue")))
      []
      added
      (ok tt, lit "printed" ∷ all_done)
      all_done
    × Answered sockets plugin_codec daemon_codec
        (server false)
        sockets-Connected
        (cmd_del sockets plugin_codec (on_switch (lit "blue")))
        all_done
        nothing
        (ok tt, lit "no port" ∷ all_done)
        (lit "no port" ∷ all_done)
cmd-served_example =
    cmd-served sockets plugin_codec daemon_codec (server false) sockets-Connected
      (on_switch (lit "blue")) (on_switch (lit "blue")) [] all_done all_done
      (lit "no port" ∷ all_done) added nothing
      (record { decode-request = refl; decode-response = refl })
      (record { decode-request = refl; decode-response = refl }) handled undone
