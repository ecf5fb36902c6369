-- ===== src/LogicServer/Mirror.antt =====
-- LogicServer/ClientMirror.cpp: the mirrors of the clients, and their table.
use dserver_framework.Prelude.{
  ℕ, Bool, ◌++◌, Option, none, some, List, drop, lookup, insert, erase, subscript, if◌then◌else◌,
}
use dserver_framework.Wire.{PacketLib}
use dserver_framework.Ops.{packet2client_by_sock_info, is_set_client_slave_id}
use dserver_framework.LogicServer.{ClientMirror, Host, sends, user_message, raise}

-- ClientMirrorMgr::FindClientByRuntimeID
abbrev pub find_mirror : ℕ → Host → Option ClientMirror
find_mirror id h = lookup id h.mirrors

-- ClientMirrorMgr::AddClientOnRuntimeID
unfoldable pub add_mirror : ClientMirror → ℕ → Host → Host
add_mirror p id h = record h { mirrors = insert id p h.mirrors }

-- ClientMirrorMgr::DelClientByRuntimeID
unfoldable pub del_mirror : ℕ → Host → Host
del_mirror id h = record h { mirrors = erase id h.mirrors }

-- ClientMirror::ClientMirror reads the connection's pointer by operator[].
unfoldable pub new_mirror : ℕ → ℕ → ℕ → Host → ClientMirror × Host
new_mirror runtime_id cs_id socket_id h =
    let (p, m) = subscript cs_id h.logic_connections in
    (
      record {
        runtime_id = runtime_id;
        connection_server_id = cs_id;
        socket_id_on_connection_server = socket_id;
        connection_server = p;
      },
      record h { logic_connections = m },
    )

-- registerUserMsgHandle, setClientEnterCallback, setClientDisConnectCallback
unfoldable pub register_user_msg_handle : ℕ → ℕ → Host → Host
register_user_msg_handle op handle h = record h { user_handlers = insert op handle h.user_handlers }

unfoldable pub set_client_enter_callback : Option ℕ → Host → Host
set_client_enter_callback handle h = record h { enter_handle = handle }

unfoldable pub set_client_disconnect_callback : Option ℕ → Host → Host
set_client_disconnect_callback handle h = record h { disconnect_handle = handle }

-- lock() of the weak pointer, and the packet to it
unfoldable pub send_to : Option ℕ → List ℕ → Host → Host
send_to none packet h = h
send_to (some k) packet h = if h.alive k then raise h (sends k packet) else h

-- sendToConnectionServer
unfoldable pub send_to_connection_server : ClientMirror → List ℕ → Host → Host
unfolding send_to
send_to_connection_server m packet h = send_to m.connection_server packet h

module _ (lib : PacketLib) where
  abbrev pub mirror_packet : ClientMirror → List ℕ → List ℕ
  mirror_packet m packet = lib.make_packet packet2client_by_sock_info (
      lib.write_binary packet
      ++ (lib.write_int16 1
          ++ (lib.write_int32 m.connection_server_id
              ++ lib.write_int64 m.socket_id_on_connection_server)))

  -- sendPacket
  unfoldable pub send_packet : ClientMirror → List ℕ → Host → Host
  send_packet m packet h = send_to_connection_server m (mirror_packet m packet) h

  abbrev pub slave_packet : ClientMirror → Bool → List ℕ
  slave_packet m is_set =
      lib.make_packet is_set_client_slave_id (lib.write_int64 m.runtime_id ++ lib.write_bool is_set)

  -- requestConnectionServerSlave
  unfoldable pub request_connection_server_slave : ClientMirror → Bool → Host → Host
  request_connection_server_slave m is_set h = send_to_connection_server m (slave_packet m is_set) h

  -- procData, with the bytes that are left behind the head
  unfoldable pub proc_data : ClientMirror → List ℕ → Host → Host
  proc_data m buffer h = elim (lookup (lib.read_op buffer) h.user_handlers) [
    | none ↦ h
    | some handle ↦ raise h (user_message handle m (drop lib.head_len buffer))
  ]
