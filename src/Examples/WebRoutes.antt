-- ===== src/Examples/WebRoutes.antt =====
-- From the bytes of the clients to the servers and back, at concrete inputs.
use mathlib.Core.List.{reverse}
use dserver_framework.Prelude.{
  ◌≡◌, refl, false, none, some, List, [], ◌∷◌, ◌++◌, map, flatten, arith, take, update,
}
use dserver_framework.BinPacket.Sample.{bin_sample, bin_sample-BinLaws}
use dserver_framework.WsConnectionServer.{WsWorld, reply}
use dserver_framework.WsConnectionServer.Cellnet.{cellnet_on_msg, new_sender}
use dserver_framework.WsConnectionServer.Cellnet.Stream.{packet_of}
use dserver_framework.WsConnectionServer.Logic.{cellnet_downstream}
use dserver_framework.WsConnectionServer.Downstream.{present}
use dserver_framework.WsConnectionServer.Downlink.{
  Down, IsDown, packets_of, serve_logic, downlink_in_order,
}
use dserver_framework.WsConnectionServer.WebFrame.{web_on_msg}
use dserver_framework.WsConnectionServer.WebFrame.Row.{bytes_of, shaken}
use dserver_framework.WsConnectionServer.WebFrame.Packets.{Carried, frames_of}
use dserver_framework.WsConnectionServer.Uplink.{
  serve, IsServed, forwarded, message_of, messages_to, uplink_in_order,
}
use dserver_framework.WsConnectionServer.Sending.{PbLib, do_calls}
use dserver_framework.Examples.WebServers.{messages, world}
use dserver_framework.Examples.WebFrames.{greeting, web, carried, carried-IsCarried}

abbrev row : List Carried
row = carried ∷ carried ∷ []

-- An upstream message is the id of the client and the body.
abbrev plain : PbLib
plain = record {
  upstream_bytes = λ id op body. id ∷ body;
  close_bytes = λ id. id ∷ [];
  login_bytes = λ success id. id ∷ [];
}

uplink_in_order_example :
    let bytes = bytes_of (frames_of row) ++ (129 ∷ 16 ∷ []) in
    let got = web_on_msg web (bytes ++ []) 38 (shaken []) in
    ((v : WsWorld) × (serve 10 0 got.calls world ≡ some v)
      × IsServed 10 20 900 none (greeting ∷ greeting ∷ []) world v)
    × (do_calls web.bin plain false 20
          (map (forwarded 20 none 900) (greeting ∷ greeting ∷ []))
          new_sender
        ≡ record new_sender {
          waiting = message_of plain 900 greeting ∷ message_of plain 900 greeting ∷ [];
        })
unfolding flatten update messages_to
uplink_in_order_example =
    uplink_in_order web bin_sample-BinLaws plain row (129 ∷ 16 ∷ []) [] 10 0 20 world false 20
      new_sender (carried-IsCarried, (carried-IsCarried, tt)) refl (omega arith)
      ((λ e. omega arith, λ e. omega arith), ((λ e. omega arith, λ e. omega arith), tt))
      ((λ e. omega arith, omega arith), ((λ e. omega arith, omega arith), tt)) refl

-- The message 5 for the client 901, for one that is not registered, and for the client 900.
abbrev down : Down
down = record {
  packet = (1, record { op = cellnet_downstream; body = 5 ∷ 901 ∷ 902 ∷ 900 ∷ [] });
  ack = record { msg_id = 5; bytes = 7 ∷ []; client_id = 901 ∷ 902 ∷ 900 ∷ [] };
}

down-IsDown : IsDown messages down
down-IsDown = record {
  fits = (omega arith, omega arith, omega arith);
  downstream = refl;
  parsed = refl;
}

downlink_in_order_example :
    let bytes =
      flatten (map (packet_of bin_sample) (packets_of (down ∷ [])))
      ++ take 4 (packet_of bin_sample down.packet) in
    serve_logic messages 20 (cellnet_on_msg bin_sample bytes).0 world
    ≡ record world { effects = reverse (reply 11 5 (7 ∷ []) ∷ reply 10 5 (7 ∷ []) ∷ []) ++ [] }
unfolding present bin_sample flatten
downlink_in_order_example =
    downlink_in_order bin_sample bin_sample-BinLaws messages 20 4 (down ∷ []) down.packet world
      (down-IsDown, tt) (omega arith, omega arith, omega arith) (omega arith)
