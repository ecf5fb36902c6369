-- ===== src/Protocol/ByRuntimeId.antt =====
-- What a logic server sends to clients that it names by their runtime ids.
use dserver_framework.Prelude.{
  ℕ, ◌+◌, ◌^◌, ◌<◌, ◌≤◌, ◌≡◌, ◌∙◌, Option, none, some, List, ◌++◌, arith, length, take, take-length,
  ◌==◌, leb, if◌then◌else◌, lookup, minus_one64,
}
use dserver_framework.Wire.{PacketLib, PacketLaws}
use dserver_framework.Wire.Reading.{int64_last, open_packet}
use dserver_framework.Ops.{packet2client_by_runtime_id}
use dserver_framework.ConnectionServer.{World, to_socket, emit}
use dserver_framework.ConnectionServer.Logic
use dserver_framework.Protocol.{deliver}

-- The packet that sends `bytes` to the client of one id.
abbrev pub by_id_packet : PacketLib → List ℕ → ℕ → List ℕ
by_id_packet lib bytes id =
    lib.make_packet packet2client_by_runtime_id
      (lib.write_binary bytes ++ (lib.write_int16 1 ++ lib.write_int64 id))

-- The bytes sent to a client, if it is there and has a socket.
abbrev pub sent_to : Option ℕ → List ℕ → World → World
sent_to none bytes w = w
sent_to (some c) bytes w =
    if (w.clients c).socket_id == minus_one64
    then w
    else emit w (to_socket (w.clients c).socket_id bytes)

module _ (lib : PacketLib) (max_body : ℕ) (laws : PacketLaws lib max_body) where
  by_id_read :
      (bytes : List ℕ) (id p : ℕ) (taken wrong : List ℕ) (w : World)
      → length bytes ≤ max_body
      → id < 2 ^ 64
      → deliver lib p taken wrong (by_id_packet lib bytes id) w ≡ (
          if leb (lib.read_packet_len bytes) (length bytes)
          then some (sent_to (lookup id w.all_clients) (take (lib.read_packet_len bytes) bytes) w)
          else none)
  unfolding Logic.proc_packet Logic.on_packet2client_by_runtime_id Logic.copy_announced
      Logic.by_runtime_id_loop
  by_id_read bytes id p taken wrong w hb hi =
      open_packet lib max_body laws (λ op b. Logic.proc_packet lib p taken wrong op b w)
        packet2client_by_runtime_id
        (lib.write_binary bytes ++ (lib.write_int16 1 ++ lib.write_int64 id)) (omega arith)
      ∙ ground (
        arith,
        laws.binary_back bytes (lib.write_int16 1 ++ lib.write_int64 id) hb,
        laws.int16_back 1 (lib.write_int64 id) (omega arith),
        int64_last lib max_body laws id hi,
      )

  -- A whole packet sent to a runtime id reaches the socket of the registered client as it is; an id
  -- that is not registered, and a client without a socket, change nothing. The numbers fit their
  -- fields, and the bytes fit a packet.
  pub by_id_whole :
      (op : ℕ) (body : List ℕ) (id p : ℕ) (taken wrong : List ℕ) (w : World)
      → op < 2 ^ 16
      → length body ≤ max_body
      → lib.head_len + length body ≤ max_body
      → id < 2 ^ 64
      → let packet = lib.make_packet op body in
        deliver lib p taken wrong (by_id_packet lib packet id) w
        ≡ some (sent_to (lookup id w.all_clients) packet w)
  by_id_whole op body id p taken wrong w ho hb hh hi =
      let packet = lib.make_packet op body in
      by_id_read packet id p taken wrong w (omega (arith, laws.length_packet op body)) hi
      ∙ rw (laws.len_packet op body ho hb) (
          ground (
            arith,
            laws.length_packet op body,
            take-length (lib.head_len + length body) packet
                (omega (arith, laws.length_packet op body)),
          ))

  -- Bytes whose head announces more than their number are read past their end, whether the client is
  -- registered or not.
  -- The numbers fit their fields, and the bytes fit a packet.
  by_id_over_read :
      (bytes : List ℕ) (id p : ℕ) (taken wrong : List ℕ) (w : World)
      → length bytes ≤ max_body
      → id < 2 ^ 64
      → length bytes < lib.read_packet_len bytes
      → deliver lib p taken wrong (by_id_packet lib bytes id) w ≡ none
  by_id_over_read bytes id p taken wrong w hb hi long =
      by_id_read bytes id p taken wrong w hb hi ∙ ground arith
