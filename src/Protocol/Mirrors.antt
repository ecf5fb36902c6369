-- ===== src/Protocol/Mirrors.antt =====
-- What a connection server tells a logic server about a client: that it came, that it went, and what
-- it sent.
use dserver_framework.Prelude.{
  ℕ, ◌^◌, ◌<◌, ◌≤◌, ◌≡◌, ◌∙◌, Option, none, some, List, ◌∷◌, ◌++◌, arith, length, drop, ◌==◌,
  if◌then◌else◌, lookup, lookup-insert, lookup-erase, subscript,
}
use dserver_framework.Wire.{PacketLib, PacketLaws}
use dserver_framework.Wire.Reading.{int64_last, binary_last, open_packet}
use dserver_framework.Ops.{init_client_mirror, destroy_client, from_client}
use dserver_framework.ConnectionServer.Client.{init_packet, destroy_packet, from_client_packet}
use dserver_framework.LogicServer.{
  ClientMirror, Host, Event, enter_callback, disconnect_callback, user_message, raise,
}
use dserver_framework.LogicServer.Mirror.{add_mirror, del_mirror, new_mirror, proc_data}
use dserver_framework.LogicServer.Connection.{on_msg}

-- The mirror that a logic server makes for a client that came over the connection `k`.
abbrev pub mirror_for : ℕ → ℕ → ℕ → Host → ClientMirror
mirror_for k socket_id runtime_id h =
    let cs_id = (h.connections k).connection_server_id in
    record {
      runtime_id = runtime_id;
      connection_server_id = cs_id;
      socket_id_on_connection_server = socket_id;
      connection_server = (subscript cs_id h.logic_connections).0;
    }

-- An event for each callback that is set.
abbrev pub called : Option ℕ → (ℕ → Event) → List Event → List Event
called none event es = es
called (some handle) event es = event handle ∷ es

module _ (lib : PacketLib) (max_body : ℕ) (laws : PacketLaws lib max_body) where
  -- The packet that announces a client makes one mirror, with the client's id and socket and with the
  -- connection that the table has for the connection server, enters it under the id, leaves the other
  -- mirrors alone, and calls the enter callback once if it is set.
  -- The numbers fit their fields, and the bytes fit a packet.
  pub client_announced :
      (k socket_id runtime_id j : ℕ) (h : Host)
      → socket_id < 2 ^ 64
      → runtime_id < 2 ^ 64
      → let v = on_msg lib k (init_packet lib socket_id runtime_id) h in
        let m = mirror_for k socket_id runtime_id h in
        (lookup j v.mirrors ≡ (if runtime_id == j then some m else lookup j h.mirrors))
        × (v.events ≡ called h.enter_handle (λ handle. enter_callback handle m) h.events)
  unfolding on_msg new_mirror add_mirror
  client_announced k socket_id runtime_id j h hs hr =
      let body = lib.write_int64 socket_id ++ lib.write_int64 runtime_id in
      let m = mirror_for k socket_id runtime_id h in
      rw
        (
          laws.body_packet init_client_mirror body,
          laws.op_packet init_client_mirror body (omega arith),
          laws.int64_back socket_id (lib.write_int64 runtime_id) hs,
          int64_last lib max_body laws runtime_id hr,
        )
        (ground (arith, lookup-insert runtime_id j m h.mirrors), ground arith)

  -- The packet that a client has gone takes its mirror out of the table and no other, and calls the
  -- disconnect callback, if it is set, with the mirror that was there, or with null if there was none.
  -- The numbers fit their fields, and the bytes fit a packet.
  pub client_gone :
      (k runtime_id j : ℕ) (h : Host)
      → runtime_id < 2 ^ 64
      → let v = on_msg lib k (destroy_packet lib runtime_id) h in
        (lookup j v.mirrors ≡ (if runtime_id == j then none else lookup j h.mirrors))
        × (v.events
            ≡ called h.disconnect_handle
                (λ handle. disconnect_callback handle (lookup runtime_id h.mirrors))
                h.events)
  unfolding on_msg del_mirror
  client_gone k runtime_id j h hr =
      rw
        (
          laws.body_packet destroy_client (lib.write_int64 runtime_id),
          laws.op_packet destroy_client (lib.write_int64 runtime_id) (omega arith),
          int64_last lib max_body laws runtime_id hr,
        )
        (ground (arith, lookup-erase runtime_id j h.mirrors), ground arith)

  -- A whole packet given to a mirror runs the handler that is registered for its op, on its body.
  proc_data-make_packet :
      (m : ClientMirror) (op : ℕ) (body : List ℕ) (h : Host)
      → op < 2 ^ 16
      → proc_data lib m (lib.make_packet op body) h ≡ (elim (lookup op h.user_handlers) [
        | none ↦ h
        | some handle ↦ raise h (user_message handle m body)
      ])
  unfolding proc_data
  proc_data-make_packet m op body h hop =
      open_packet lib max_body laws
        (λ o b. elim (lookup o h.user_handlers) [
          | none ↦ h
          | some handle ↦ raise h (user_message handle m b)
        ])
        op body hop

  uplink :
      (k runtime_id : ℕ) (s : List ℕ) (m : ClientMirror) (h : Host)
      → runtime_id < 2 ^ 64
      → length s ≤ max_body
      → lookup runtime_id h.mirrors ≡ some m
      → on_msg lib k (from_client_packet lib runtime_id s) h ≡ proc_data lib m s h
  unfolding on_msg
  uplink k runtime_id s m h hr hs known =
      let body = lib.write_int64 runtime_id ++ lib.write_binary s in
      rw (
        laws.body_packet from_client body,
        laws.op_packet from_client body (omega arith),
        laws.int64_back runtime_id (lib.write_binary s) hr,
        binary_last lib max_body laws s hs,
        known,
      )

  -- What a connection server forwards of a client's packet is the body, without the head. The logic
  -- server takes it for a whole packet: the handler is chosen by the op that the body's own first bytes
  -- spell, and gets the body without as many bytes as a head has. A whole packet in the body's place
  -- would run the handler of its op on its body.
  -- The numbers fit their fields, and the bytes fit a packet.
  uplink_without_head :
      (k runtime_id op : ℕ) (body : List ℕ) (m : ClientMirror) (h : Host)
      → runtime_id < 2 ^ 64
      → op < 2 ^ 16
      → length body ≤ max_body
      → length (lib.make_packet op body) ≤ max_body
      → lookup runtime_id h.mirrors ≡ some m
      → (on_msg lib k (from_client_packet lib runtime_id body) h
          ≡ (elim (lookup (lib.read_op body) h.user_handlers) [
            | none ↦ h
            | some handle ↦ raise h (user_message handle m (drop lib.head_len body))
          ]))
        × (on_msg lib k (from_client_packet lib runtime_id (lib.make_packet op body)) h
            ≡ (elim (lookup op h.user_handlers) [
              | none ↦ h
              | some handle ↦ raise h (user_message handle m body)
            ]))
  unfolding proc_data
  uplink_without_head k runtime_id op body m h hr hop hb hp known = (
    uplink k runtime_id body m h hr hb known,
    uplink k runtime_id (lib.make_packet op body) m h hr hp known
        ∙ proc_data-make_packet m op body h hop,
  )
