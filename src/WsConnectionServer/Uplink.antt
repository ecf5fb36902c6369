-- ===== src/WsConnectionServer/Uplink.antt =====
-- From the bytes of a web socket client to its servers, and from the bytes of a logic server to the
-- clients.
use mathlib.Core.List.{reverse, reverse-cons}
use dserver_framework.Prelude.{
  ℕ, ◌<◌, ◌≡◌, ◌≢◌, refl, sym, ap, ◌∙◌, Option, none, some, List, [], ◌∷◌, ◌++◌, map, append_assoc,
  arith, length, All, Bool, Bool-cases, inl, inr, ◌==◌, if◌then◌else◌, update,
}
use dserver_framework.BinPacket.{BinLib, BinLaws}
use dserver_framework.Framing.{Frame}
use dserver_framework.WsConnectionServer.{WsEffect, WsWorld, send_pb_upstream, emit}
use dserver_framework.WsConnectionServer.Cellnet.{Waiting, Sender, send_pb}
use dserver_framework.WsConnectionServer.Sending.{
  PbLib, upstream_ack_op, do_calls, IsSendable, handed, handed-nil, handed-send_pb,
}
use dserver_framework.WsConnectionServer.Client.{is_primary_op, route, proc_packet}
use dserver_framework.WsConnectionServer.Routing.{counted, claimed, routed}
use dserver_framework.WsConnectionServer.WebFrame.{WebLib, web_on_msg}
use dserver_framework.WsConnectionServer.WebFrame.Row.{IsWaiting, bytes_of, shaken}
use dserver_framework.WsConnectionServer.WebFrame.Packets.{
  Carried, IsCarried, frames_of, web_on_msg-packets,
}

-- The calls of procPacket that onMsg makes, one after the other.
unfoldable pub serve : ℕ → ℕ → List Frame → WsWorld → Option WsWorld
serve c rand [] w = some w
serve c rand (f ∷ fs) w = elim (proc_packet c rand f.op f.body w) [
  | none ↦ none
  | some v ↦ serve c rand fs v
]

-- Which server gets a packet of a client that has a primary server.
abbrev pub server_for : ℕ → Option ℕ → ℕ → ℕ
server_for primary none op = primary
server_for primary (some slave) op = if is_primary_op op then primary else slave

abbrev pub forwarded : ℕ → Option ℕ → ℕ → Frame → WsEffect
forwarded primary slave id f = send_pb_upstream (server_for primary slave f.op) id f.op f.body

-- A packet for the servers, and not one that the connection server answers.
abbrev pub IsForServers : Frame → Type 0
IsForServers f = (f.op ≢ 10000) × (f.op ≢ 91)

one_packet :
    (c rand primary : ℕ) (slave : Option ℕ) (f : Frame) (w : WsWorld)
    → IsForServers f
    → (w.clients c).primary_server ≡ some primary
    → (w.clients c).slave_server ≡ slave
    → proc_packet c rand f.op f.body w
      ≡ some (emit (counted c w) (forwarded primary slave (w.clients c).runtime_id f))
unfolding claimed route
one_packet c rand primary none f w for_servers served with_slave =
    routed c rand f.op f.body w for_servers.0 for_servers.1 ∙ ground arith
one_packet c rand primary (some slave) f w for_servers served with_slave =
    routed c rand f.op f.body w for_servers.0 for_servers.1 ∙ ground arith

push_all : {A : Type 0} (x : A) (xs ys : List A) → reverse xs ++ (x ∷ ys) ≡ reverse (x ∷ xs) ++ ys
push_all x xs ys =
    sym (append_assoc (reverse xs) (x ∷ []) ys) ∙ ap (λ l. l ++ ys) (sym (reverse-cons x xs))

-- What a client has been served, without the number of its packets.
pub record IsServed (c primary id : ℕ) (slave : Option ℕ) (fs : List Frame) (w v : WsWorld)
    : Type 0 where
  pub sent : v.effects ≡ reverse (map (forwarded primary slave id) fs) ++ w.effects
  primary_kept : (v.clients c).primary_server ≡ some primary
  slave_kept : (v.clients c).slave_server ≡ slave
  table_kept : v.all_clients ≡ w.all_clients

serve_lem :
    (c rand primary id : ℕ) (slave : Option ℕ) (fs : List Frame) (w : WsWorld)
    → All IsForServers fs
    → (w.clients c).runtime_id ≡ id
    → (w.clients c).primary_server ≡ some primary
    → (w.clients c).slave_server ≡ slave
    → (v : WsWorld) × (serve c rand fs w ≡ some v) × IsServed c primary id slave fs w v
unfolding serve update
serve_lem c rand primary id slave [] w h named served with_slave = (
  w,
  refl,
  record { sent = refl; primary_kept = served; slave_kept = with_slave; table_kept = refl },
)
serve_lem c rand primary id slave (f ∷ fs) w h named served with_slave =
    let u = emit (counted c w) (forwarded primary slave id f) in
    let first : proc_packet c rand f.op f.body w ≡ some u =
      one_packet c rand primary slave f w h.0 served with_slave
      ∙ ap (λ i. some (emit (counted c w) (forwarded primary slave i f))) named in
    let (v, e, k) =
      serve_lem c rand primary id slave fs u h.1 (ground arith) (ground arith) (ground arith) in
    (
      v,
      rw (first, serve) e,
      record {
        sent =
            k.sent
            ∙ push_all (forwarded primary slave id f) (map (forwarded primary slave id) fs)
                w.effects;
        primary_kept = k.primary_kept;
        slave_kept = k.slave_kept;
        table_kept = k.table_kept;
      },
    )

-- The message of a packet, as the server's session is asked to send it.
abbrev pub message_of : PbLib → ℕ → Frame → Waiting
message_of pb id f = (upstream_ack_op, pb.upstream_bytes id f.op f.body)

-- The messages of the packets that go to the server at `p`.
unfoldable pub messages_to : PbLib → ℕ → ℕ → Option ℕ → ℕ → List Frame → List Waiting
messages_to pb p primary slave id [] = []
messages_to pb p primary slave id (f ∷ fs) =
    let rest = messages_to pb p primary slave id fs in
    if server_for primary slave f.op == p then message_of pb id f ∷ rest else rest

do_calls-forwarded :
    (lib : BinLib) (pb : PbLib) (in_loop : Bool) (p primary id : ℕ) (slave : Option ℕ)
    (fs : List Frame) (s : Sender)
    → All (λ (f : Frame). IsSendable (pb.upstream_bytes id f.op f.body)) fs
    → do_calls lib pb in_loop p (map (forwarded primary slave id) fs) s
      ≡ handed lib in_loop (messages_to pb p primary slave id fs) s
unfolding do_calls messages_to
do_calls-forwarded lib pb in_loop p primary id slave [] s h = sym (handed-nil lib in_loop s)
do_calls-forwarded lib pb in_loop p primary id slave (f ∷ fs) s h =
    let bytes = pb.upstream_bytes id f.op f.body in
    let rest = messages_to pb p primary slave id fs in
    elim (Bool-cases (server_for primary slave f.op == p)) [
      | inl here ↦
          rw (here, do_calls, messages_to)
            (do_calls-forwarded lib pb in_loop p primary id slave fs
                (send_pb lib in_loop upstream_ack_op bytes s) h.1
              ∙ handed-send_pb lib in_loop upstream_ack_op bytes rest s h.0)
      | inr elsewhere ↦
          rw (elsewhere, do_calls, messages_to)
            (do_calls-forwarded lib pb in_loop p primary id slave fs s h.1)
    ]

-- The packets that a web socket client writes into a row of frames, each into one, lead, in that order
-- and each once, to a call of sendPB of the client's server, with an upstream message of the client's
-- id and the op and body that were written: the primary server, or the slave server if the client has
-- one and the op is not one of the primary server's. Those calls hand each session of a logic server
-- exactly the messages of its packets, in that order: they are sent if the calls are made in the
-- thread of the session's loop, and wait for the loop if they are made in another. The client has a
-- primary server, the session has shaken hands and has no part of a message, the ops are neither 10000
-- nor 91, no whole frame is behind the row, PACKET_LEN_TYPE can hold the length, and no upstream
-- message is empty or longer than 8192 bytes.
pub uplink_in_order :
    (lib : WebLib) (laws : BinLaws lib.bin) (pb : PbLib) (cs : List Carried) (tail more : List ℕ)
    (c rand primary : ℕ) (w : WsWorld) (in_loop : Bool) (p : ℕ) (s : Sender)
    → All (IsCarried lib) cs
    → IsWaiting lib tail
    → length (bytes_of (frames_of cs) ++ tail) < lib.len_mod
    → All IsForServers (map (λ (m : Carried). m.packet) cs)
    → All
        (λ (f : Frame). IsSendable (pb.upstream_bytes (w.clients c).runtime_id f.op f.body))
        (map (λ (m : Carried). m.packet) cs)
    → (w.clients c).primary_server ≡ some primary
    → let bytes = bytes_of (frames_of cs) ++ tail in
      let got = web_on_msg lib (bytes ++ more) (length bytes) (shaken []) in
      let fs = map (λ (m : Carried). m.packet) cs in
      let id = (w.clients c).runtime_id in
      let slave = (w.clients c).slave_server in
      ((v : WsWorld) × (serve c rand got.calls w ≡ some v) × IsServed c primary id slave fs w v)
      × (do_calls lib.bin pb in_loop p (map (forwarded primary slave id) fs) s
          ≡ handed lib.bin in_loop (messages_to pb p primary slave id fs) s)
uplink_in_order lib laws pb cs tail more c rand primary w in_loop p s carried waits small
      for_servers sendable served =
    let fs = map (λ (m : Carried). m.packet) cs in
    let id = (w.clients c).runtime_id in
    let slave = (w.clients c).slave_server in
    (
      rw (web_on_msg-packets lib laws cs tail more carried waits small)
          (serve_lem c rand primary id slave fs w for_servers refl served refl),
      do_calls-forwarded lib.bin pb in_loop p primary id slave fs s sendable,
    )
