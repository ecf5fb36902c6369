-- ===== src/CenterServer/Session.antt =====
-- CenterServer/CenterServerSession.cpp: the session of a logic server at the center server. `p` is its
-- address, and `rp` the bytes that its ReadPacket has not read.
use dserver_framework.Prelude.{
  ℕ, Option, none, some, List, [], ◌++◌, drop, lookup, insert, erase, update, is_some, bytes_eq,
  ◌==◌, if◌then◌else◌, minus_one32,
}
use dserver_framework.Wire.{PacketLib}
use dserver_framework.Ops.{
  center_login, center_ping, center_recv_user, center_recv_rpc, center_pong, packet2client_mirror,
  logic_server_self_id, center_send_user,
}
use dserver_framework.CenterServer.{Center, to_logic, user_message, handles_rpc, emit}

-- CenterServerSessionGlobalData::registerUserMsgHandle. (The assertion that the op is new is compiled
-- out of a release build.)
unfoldable pub register_user_handle : ℕ → ℕ → Center → Center
register_user_handle op handle c = record c { user_handles = insert op handle c.user_handles }

-- CenterServerSessionGlobalData::findUserMsgHandle
abbrev pub find_user_handle : ℕ → Center → Option ℕ
find_user_handle op c = lookup op c.user_handles

-- CenterServerSessionGlobalData::destroy
unfoldable pub destroy : Center → Center
destroy c = record c { all_logic_server = []; user_handles = []; rpc_fromer = none }

-- CenterServerSessionGlobalData::findLogicServer
abbrev pub find_logic_server : ℕ → Center → Option ℕ
find_logic_server id c = lookup id c.all_logic_server

-- CenterServerSessionGlobalData::removeLogicServer
unfoldable pub remove_logic_server : ℕ → Center → Center
remove_logic_server id c = record c { all_logic_server = erase id c.all_logic_server }

-- CenterServerSessionGlobalData::insertLogicServer
unfoldable pub insert_logic_server : ℕ → ℕ → Center → Center
insert_logic_server p id c = record c { all_logic_server = insert id p c.all_logic_server }

-- onClose
unfoldable pub on_close : ℕ → Center → Center
on_close p c = if c.session_id p == minus_one32 then c else remove_logic_server (c.session_id p) c

module _ (lib : PacketLib) where
  abbrev pub self_id_packet : ℕ → List ℕ
  self_id_packet id = lib.make_packet logic_server_self_id (lib.write_int32 id)

  -- sendv, for the bytes that writev makes of the arguments
  abbrev pub sendv : ℕ → ℕ → List ℕ → Center → Center
  sendv p op body c = emit c (to_logic p (lib.make_packet op body))

  -- sendUserPacket
  unfoldable pub send_user_packet : ℕ → List ℕ → Center → Center
  send_user_packet p sub_packet c =
      emit c (to_logic p (lib.make_packet center_send_user (lib.write_binary sub_packet)))

  -- sendUserMsgV
  abbrev pub send_user_msg_v : ℕ → ℕ → List ℕ → Center → Center
  send_user_msg_v p op body c = send_user_packet p (lib.make_packet op body) c

  -- onPing
  unfoldable pub on_ping : ℕ → Center → Center
  on_ping p c = emit c (to_logic p (lib.make_packet center_pong []))

  -- onLogicServerRpc
  unfoldable pub on_logic_server_rpc : ℕ → List ℕ → Center → Center
  on_logic_server_rpc p rp c = elim (lib.read_binary rp).0 [
    | none ↦ c
    | some msg ↦ emit (record c { rpc_fromer = some p }) (handles_rpc p msg)
  ]

  -- onLogicServerLogin
  unfoldable pub on_logic_server_login : ℕ → List ℕ → Center → Center
  on_logic_server_login p rp c =
      let (password, rp') = lib.read_string rp in
      let (id, _) = lib.read_int32 rp' in
      let c' =
        emit (record c { session_id = update c.session_id p id })
          (to_logic p (self_id_packet id)) in
      if c.session_id p == minus_one32
      then if bytes_eq password c.password
        then if is_some (find_logic_server id c) then c else insert_logic_server p id c'
        else c
      else c

  abbrev pub to_mirror_packet : ℕ → List ℕ → List ℕ
  to_mirror_packet runtime_id real_packet =
      lib.make_packet packet2client_mirror
        (lib.write_binary real_packet ++ (lib.write_int16 1 ++ lib.write_int64 runtime_id))

  -- sendPacket2Client
  unfoldable pub send_packet2client : ℕ → ℕ → List ℕ → Center → Center
  send_packet2client p runtime_id real_packet c =
      emit c (to_logic p (to_mirror_packet runtime_id real_packet))

  unfoldable pub call_handle : ℕ → Option ℕ → List ℕ → Center → Center
  call_handle p none rest c = c
  call_handle p (some handle) rest c = emit c (user_message handle p rest)

  -- onUserMsg
  unfoldable pub on_user_msg : ℕ → List ℕ → Center → Center
  unfolding call_handle
  on_user_msg p rp c = elim (lib.read_binary rp).0 [
    | none ↦ c
    | some sub ↦ call_handle p (find_user_handle (lib.read_op sub) c) (drop lib.head_len sub) c
  ]

  -- onMsg
  unfoldable pub on_msg : ℕ → List ℕ → Center → Center
  on_msg p message c =
      let rp = drop lib.head_len message in
      let op = lib.read_op message in
      if op == center_ping
      then on_ping p c
      else if op == center_recv_rpc
      then on_logic_server_rpc p rp c
      else if op == center_login
      then on_logic_server_login p rp c
      else if op == center_recv_user
      then on_user_msg p rp c
      else c
