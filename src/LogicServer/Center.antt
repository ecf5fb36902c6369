-- ===== src/LogicServer/Center.antt =====
-- LogicServer/CenterServerConnection.cpp: the connection to the center server. `k` is its address.
use dserver_framework.Prelude.{
  ℕ, zero, suc, ◌++◌, Option, none, some, List, [], length, drop, lookup, insert, update, rounds16,
  ◌==◌, if◌then◌else◌,
}
use dserver_framework.Wire.{PacketLib}
use dserver_framework.Ops.{
  center_login, center_ping, center_recv_user, center_pong, center_send_rpc, packet2client_mirror,
  logic_server_self_id, center_send_user,
}
use dserver_framework.LogicServer.{
  ClientMirror, Host, sends_to_center, center_ping_timer, center_message, handles_rpc, raise,
}
use dserver_framework.LogicServer.Mirror.{find_mirror, send_packet}

-- registerUserMsgHandle
unfoldable pub register_center_handle : ℕ → ℕ → Host → Host
register_center_handle op handle h = record h {
  center_handlers = insert op handle h.center_handlers;
}

-- onClose
unfoldable pub on_close : ℕ → Host → Host
on_close k h = record h { center_client = none }

module _ (lib : PacketLib) where
  abbrev pub center_login_packet : List ℕ → ℕ → List ℕ
  center_login_packet password id =
      lib.make_packet center_login (lib.write_binary password ++ lib.write_int32 id)

  -- sendv, for the bytes that writev makes of the arguments
  abbrev pub sendv : ℕ → ℕ → List ℕ → Host → Host
  sendv k op body h = raise h (sends_to_center k (lib.make_packet op body))

  -- ping
  unfoldable pub ping : ℕ → Host → Host
  ping k h =
      raise (raise h (sends_to_center k (lib.make_packet center_ping []))) (center_ping_timer k)

  -- onEnter
  unfoldable pub on_enter : ℕ → Host → Host
  on_enter k h =
      let h' = raise h (sends_to_center k (center_login_packet h.center_password h.config_id)) in
      ping k (record h' { center_client = some k })

  -- sendUserPacket
  unfoldable pub send_user_packet : ℕ → List ℕ → Host → Host
  send_user_packet k sub_packet h =
      raise h (sends_to_center k (lib.make_packet center_recv_user (lib.write_binary sub_packet)))

  unfoldable pub send_to_mirror : Option ClientMirror → List ℕ → Host → Host
  send_to_mirror none packet h = h
  send_to_mirror (some m) packet h = send_packet lib m packet h

  -- The loop of onCenterServerSendPacket2Client.
  unfoldable pub to_mirrors_loop : ℕ → List ℕ → List ℕ → Host → Host
  unfolding send_to_mirror
  to_mirrors_loop zero packet rp h = h
  to_mirrors_loop (suc n) packet rp h =
      let (runtime_id, rest) = lib.read_int64 rp in
      to_mirrors_loop n packet rest (send_to_mirror (find_mirror runtime_id h) packet h)

  -- onCenterServerSendPacket2Client
  unfoldable pub on_center_server_send_packet2client : List ℕ → Host → Host
  on_center_server_send_packet2client rp h =
      let (packet, rp') = lib.read_binary rp in
      let (dest_num, rest) = lib.read_int16 rp' in
      elim packet [ none ↦ h | some s ↦ to_mirrors_loop (rounds16 dest_num) s rest h ]

  unfoldable pub call_handler : ℕ → Option ℕ → List ℕ → Host → Host
  call_handler k none rest h = h
  call_handler k (some handle) rest h = raise h (center_message handle k rest)

  -- onUserMsg: the inner packet must be as long as its head says.
  unfoldable pub on_user_msg : ℕ → List ℕ → Host → Host
  unfolding call_handler
  on_user_msg k rp h = elim (lib.read_binary rp).0 [
    | none ↦ h
    | some s ↦
        if lib.read_packet_len s == length s
        then call_handler k (lookup (lib.read_op s) h.center_handlers) (drop lib.head_len s) h
        else h
  ]

  unfoldable pub on_rpc : List ℕ → Host → Host
  on_rpc rp h = elim (lib.read_binary rp).0 [ none ↦ h | some s ↦ raise h (handles_rpc s) ]

  -- onMsg
  unfoldable pub on_msg : ℕ → List ℕ → Host → Host
  unfolding on_rpc
  on_msg k message h =
      let rp = drop lib.head_len message in
      let op = lib.read_op message in
      if op == center_pong
      then h
      else if op == center_send_rpc
      then on_rpc rp h
      else if op == packet2client_mirror
      then on_center_server_send_packet2client rp h
      else if op == logic_server_self_id
      then record h { self_id = update h.self_id k (lib.read_int32 rp).0 }
      else if op == center_send_user
      then on_user_msg k rp h
      else h
