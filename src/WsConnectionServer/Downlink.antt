-- ===== src/WsConnectionServer/Downlink.antt =====
-- From the bytes of a logic server to the web socket clients.
use mathlib.Core.List.{reverse, reverse-append}
use dserver_framework.Prelude.{
  ℕ, ◌<◌, ◌≡◌, refl, sym, ap, ◌∙◌, some, List, [], ◌∷◌, ◌++◌, map, flatten, append_assoc, arith,
  length, take, All,
}
use dserver_framework.BinPacket.{BinLib, BinLaws}
use dserver_framework.Framing.{Frame}
use dserver_framework.WsConnectionServer.{WsEffect, WsWorld}
use dserver_framework.WsConnectionServer.Messages.{DownstreamAck, PbLib}
use dserver_framework.WsConnectionServer.Logic.{cellnet_downstream, proc_packet}
use dserver_framework.WsConnectionServer.Downstream.{present, replies, on_packet2client-replies}
use dserver_framework.WsConnectionServer.Cellnet.{cellnet_on_msg}
use dserver_framework.WsConnectionServer.Cellnet.Stream.{
  Numbered, packet_of, Fits, cellnet_on_msg-packets,
}

-- The calls of procPacket that onMsg makes, one after the other.
unfoldable pub serve_logic : PbLib → ℕ → List Frame → WsWorld → WsWorld
serve_logic pb p [] w = w
serve_logic pb p (f ∷ fs) w = serve_logic pb p fs (proc_packet pb p f.op f.body w)

-- A numbered packet of a logic server, and the message for clients in it.
pub record Down : Type 0 where
  pub packet : Numbered
  pub ack : DownstreamAck

pub record IsDown (pb : PbLib) (d : Down) : Type 0 where
  pub fits : Fits d.packet
  pub downstream : d.packet.1.op ≡ cellnet_downstream
  pub parsed : pb.parse_downstream d.packet.1.body ≡ some d.ack

abbrev pub packets_of : List Down → List Numbered
packets_of ds = map (λ (d : Down). d.packet) ds

-- The replies to the clients of a table, message for message.
abbrev pub all_replies : List Down → List (ℕ × ℕ) → List WsEffect
all_replies [] table = []
all_replies (d ∷ ds) table =
    replies d.ack.msg_id d.ack.bytes (present d.ack.client_id table) ++ all_replies ds table

one_message :
    (pb : PbLib) (p : ℕ) (d : Down) (w : WsWorld)
    → IsDown pb d
    → proc_packet pb p d.packet.1.op d.packet.1.body w ≡ record w {
      effects =
          reverse (replies d.ack.msg_id d.ack.bytes (present d.ack.client_id w.all_clients))
          ++ w.effects;
    }
unfolding proc_packet
one_message pb p d w h =
    ground (arith, h.downstream, on_packet2client-replies pb d.packet.1.body d.ack w h.parsed)

serve_logic_lem :
    (pb : PbLib) (p : ℕ) (ds : List Down) (w : WsWorld)
    → All (IsDown pb) ds
    → serve_logic pb p (map (λ (m : Numbered). m.1) (packets_of ds)) w
      ≡ record w { effects = reverse (all_replies ds w.all_clients) ++ w.effects }
unfolding serve_logic
serve_logic_lem pb p [] w h = refl
serve_logic_lem pb p (d ∷ ds) w h =
    let now = replies d.ack.msg_id d.ack.bytes (present d.ack.client_id w.all_clients) in
    let later = all_replies ds w.all_clients in
    let u = record w { effects = reverse now ++ w.effects } in
    ap (serve_logic pb p (map (λ (m : Numbered). m.1) (packets_of ds))) (one_message pb p d w h.0)
    ∙ serve_logic_lem pb p ds u h.1
    ∙ ap (λ l. record w { effects = l })
        (sym (append_assoc (reverse later) (reverse now) w.effects)
          ∙ ap (λ l. l ++ w.effects) (sym (reverse-append now later)))

packets_of-Fits : (pb : PbLib) (ds : List Down) → All (IsDown pb) ds → All Fits (packets_of ds)
packets_of-Fits pb [] h = tt
packets_of-Fits pb (d ∷ ds) h = (h.0.fits, packets_of-Fits pb ds h.1)

-- A row of packets that a logic server writes, each with a message for clients, with a part of one more
-- packet behind it, leads to the replies of each message to exactly the registered clients that it
-- lists, message for message and in the order of the lists, and changes nothing else. The ops and the
-- serial numbers fit their fields, and a body has less than 2 ^ 16 - 8 bytes.
pub downlink_in_order :
    (lib : BinLib) (laws : BinLaws lib) (pb : PbLib) (p n : ℕ) (ds : List Down) (last : Numbered)
    (w : WsWorld)
    → All (IsDown pb) ds
    → Fits last
    → n < length (packet_of lib last)
    → let bytes = flatten (map (packet_of lib) (packets_of ds)) ++ take n (packet_of lib last) in
      serve_logic pb p (cellnet_on_msg lib bytes).0 w
      ≡ record w { effects = reverse (all_replies ds w.all_clients) ++ w.effects }
downlink_in_order lib laws pb p n ds last w h fits short =
    ap (λ (r : List Frame × ℕ). serve_logic pb p r.0 w)
      (cellnet_on_msg-packets lib laws (packets_of ds) last n (packets_of-Fits pb ds h) fits short)
    ∙ serve_logic_lem pb p ds w h
