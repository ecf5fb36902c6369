-- ===== src/Protocol/Downlink.antt =====
-- What a logic server sends to clients through a connection server.
use dserver_framework.Prelude.{
  ℕ, ◌^◌, ◌<◌, ◌≤◌, ◌≡◌, ap, ◌∙◌, true, some, List, ◌++◌, arith, length, ◌==◌, if◌then◌else◌,
}
use dserver_framework.Wire.{PacketLib, PacketLaws}
use dserver_framework.Wire.Reading.{int64_last, open_packet}
use dserver_framework.Ops.{packet2client_by_sock_info}
use dserver_framework.ConnectionServer.{World, to_socket, emit}
use dserver_framework.ConnectionServer.Logic
use dserver_framework.LogicServer.{ClientMirror, Host, sends, raise}
use dserver_framework.LogicServer.Mirror.{mirror_packet, send_packet, send_to_connection_server}
use dserver_framework.Protocol.{deliver}

module _ (lib : PacketLib) (max_body : ℕ) (laws : PacketLaws lib max_body) where
  downlink_read :
      (id socket_id : ℕ) (packet : List ℕ) (w : World)
      → id < 2 ^ 32
      → socket_id < 2 ^ 64
      → length packet ≤ max_body
      → Logic.on_packet2client_by_socket_info lib
          (lib.write_binary packet
            ++ (lib.write_int16 1 ++ (lib.write_int32 id ++ lib.write_int64 socket_id)))
          w
        ≡ (if id == w.config_id then emit w (to_socket socket_id packet) else w)
  unfolding Logic.on_packet2client_by_socket_info Logic.by_sock_info_loop
  downlink_read id socket_id packet w hc hs hp =
      let ids = lib.write_int32 id ++ lib.write_int64 socket_id in
      let b = laws.binary_back packet (lib.write_int16 1 ++ ids) hp in
      let n = laws.int16_back 1 ids (omega arith) in
      let i = laws.int32_back id (lib.write_int64 socket_id) hc in
      let l = int64_last lib max_body laws socket_id hs in ground (arith, b, n, i, l)

  -- A packet sent through a mirror whose connection exists is one packet to that connection; handled by
  -- a connection server, it becomes one send of the same bytes to the mirror's socket if the server is
  -- the one that the client came from, and nothing otherwise.
  -- The numbers fit their fields, and the bytes fit a packet.
  pub downlink :
      (m : ClientMirror) (k p : ℕ) (taken wrong packet : List ℕ) (h : Host) (w : World)
      → m.connection_server ≡ some k
      → h.alive k ≡ true
      → m.connection_server_id < 2 ^ 32
      → m.socket_id_on_connection_server < 2 ^ 64
      → length packet ≤ max_body
      → (send_packet lib m packet h ≡ raise h (sends k (mirror_packet lib m packet)))
        × (deliver lib p taken wrong (mirror_packet lib m packet) w
            ≡ some (
                if m.connection_server_id == w.config_id
                then emit w (to_socket m.socket_id_on_connection_server packet)
                else w))
  unfolding send_packet send_to_connection_server Logic.proc_packet
  downlink m k p taken wrong packet h w linked alive hc hs hp =
      let last = lib.write_int64 m.socket_id_on_connection_server in
      let ids = lib.write_int32 m.connection_server_id ++ last in
      let body = lib.write_binary packet ++ (lib.write_int16 1 ++ ids) in
      (
        ground arith,
        open_packet lib max_body laws (λ op b. Logic.proc_packet lib p taken wrong op b w)
              packet2client_by_sock_info body (omega arith)
            ∙ ap some (
                downlink_read m.connection_server_id m.socket_id_on_connection_server packet w hc hs
                  hp),
      )
