-- ===== src/LogicServer/Connection.antt =====
-- LogicServer/ConnectionServerConnection.cpp: the connection to a connection server. `k` is its
-- address. A message comes whole, its head included.
use dserver_framework.Prelude.{
  ℕ, Bool, true, ◌++◌, Option, none, some, List, [], ◌∷◌, drop, lookup, insert, erase, update,
  is_some, ◌==◌, if◌then◌else◌,
}
use dserver_framework.Wire.{PacketLib}
use dserver_framework.Ops.{
  logic_server_login, cs_ping, cs_pong, recv_csid, init_client_mirror, destroy_client, from_client,
}
use dserver_framework.LogicServer.{
  ClientMirror, ServerConnection, Address, Host, sends, ping_timer, enter_callback,
  disconnect_callback, starts_connect, raise,
}
use dserver_framework.LogicServer.Mirror.{
  find_mirror, add_mirror, del_mirror, new_mirror, proc_data,
}

-- isAlreadyConnecting
abbrev pub is_already_connecting : ℕ → Host → Bool
is_already_connecting id h = is_some (lookup id h.connecting)

-- eraseConnectingServer
unfoldable pub erase_connecting_server : ℕ → Host → Host
erase_connecting_server id h = record h { connecting = erase id h.connecting }

-- addConnectingServer
unfoldable pub add_connecting_server : ℕ → List ℕ → ℕ → Host → Host
add_connecting_server id ip port h = record h { connecting = insert id (ip, port) h.connecting }

-- tryCompareConnect: a thread for each server of the list that is not connected.
unfoldable pub try_compare_connect : List (ℕ × Address) → Host → Host
try_compare_connect [] h = h
try_compare_connect ((id, a) ∷ servers) h =
    try_compare_connect servers
      (if is_already_connecting id h then h else raise h (starts_connect id a))

abbrev pub put_connection : ℕ → ServerConnection → Host → Host
put_connection k c h = record h { connections = update h.connections k c }

-- onClose
unfoldable pub on_close : ℕ → Host → Host
on_close k h =
    let c = h.connections k in
    let h' = record h { logic_connections = erase c.connection_server_id h.logic_connections } in
    if c.is_success then erase_connecting_server c.id_in_etcd h' else h'

module _ (lib : PacketLib) where
  abbrev pub login_packet : List ℕ → ℕ → Bool → List ℕ
  login_packet password id is_primary =
      lib.make_packet logic_server_login
        (lib.write_binary password ++ (lib.write_int32 id ++ lib.write_bool is_primary))

  abbrev pub ping_packet : List ℕ
  ping_packet = lib.make_packet cs_ping []

  -- ping
  unfoldable pub ping : ℕ → Host → Host
  ping k h = raise (raise h (sends k ping_packet)) (ping_timer k)

  -- onEnter
  unfoldable pub on_enter : ℕ → Host → Host
  on_enter k h =
      let c = h.connections k in
      let h' =
        add_connecting_server c.id_in_etcd c.ip c.port
          (put_connection k (record c { is_success = true }) h) in
      if is_already_connecting c.id_in_etcd h
      then h
      else ping k (raise h' (sends k (login_packet c.password h.config_id h.config_is_primary)))

  -- The answer to the login.
  on_recv_csid : ℕ → List ℕ → Host → Host
  on_recv_csid k rp h =
      let (cs_id, rp') = lib.read_int32 rp in
      let (is_success, _) = lib.read_bool rp' in
      let h' = put_connection k (record (h.connections k) { connection_server_id = cs_id }) h in
      if is_success
      then record h' { logic_connections = insert cs_id (some k) h'.logic_connections }
      else h'

  call_enter : Option ℕ → ClientMirror → Host → Host
  call_enter none m h = h
  call_enter (some handle) m h = raise h (enter_callback handle m)

  on_init_client_mirror : ℕ → List ℕ → Host → Host
  on_init_client_mirror k rp h =
      let (socket_id, rp') = lib.read_int64 rp in
      let (runtime_id, _) = lib.read_int64 rp' in
      let (m, h') = new_mirror runtime_id (h.connections k).connection_server_id socket_id h in
      call_enter h.enter_handle m (add_mirror m runtime_id h')

  call_disconnect : Option ℕ → Option ClientMirror → Host → Host
  call_disconnect none m h = h
  call_disconnect (some handle) m h = raise h (disconnect_callback handle m)

  on_destroy_client : List ℕ → Host → Host
  on_destroy_client rp h =
      let (runtime_id, _) = lib.read_int64 rp in
      call_disconnect h.disconnect_handle (find_mirror runtime_id h) (del_mirror runtime_id h)

  hand_to : Option (List ℕ) → Option ClientMirror → Host → Host
  hand_to none m h = h
  hand_to (some s) none h = h
  hand_to (some s) (some m) h = proc_data lib m s h

  on_from_client : List ℕ → Host → Host
  on_from_client rp h =
      let (runtime_id, rp') = lib.read_int64 rp in
      hand_to (lib.read_binary rp').0 (find_mirror runtime_id h) h

  -- onMsg; in a release build an unknown op is ignored.
  unfoldable pub on_msg : ℕ → List ℕ → Host → Host
  unfolding on_recv_csid call_enter on_init_client_mirror call_disconnect on_destroy_client hand_to
      on_from_client
  on_msg k message h =
      let rp = drop lib.head_len message in
      let op = lib.read_op message in
      if op == cs_pong
      then h
      else if op == recv_csid
      then on_recv_csid k rp h
      else if op == init_client_mirror
      then on_init_client_mirror k rp h
      else if op == destroy_client
      then on_destroy_client rp h
      else if op == from_client
      then on_from_client rp h
      else h
