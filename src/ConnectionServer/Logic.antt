-- ===== src/ConnectionServer/Logic.antt =====
-- ConnectionServer/LogicServerSession.cpp: the session of a logic server. `p` is its address, and
-- `rp` the bytes that its ReadPacket has not read. A result `none` is a read past the end of a buffer.
use mathlib.Core.Option
use dserver_framework.Prelude.{
  ℕ, zero, suc, Bool, true, false, ◌++◌, Option, none, some, List, [], length, take, leb, ◌==◌,
  if◌then◌else◌, rounds16, bytes_eq, minus_one32, minus_one64, update,
}
use dserver_framework.Wire.{PacketLib}
use dserver_framework.Ops.{
  cs_pong, recv_csid, logic_server_login, cs_ping, packet2client_by_sock_info,
  packet2client_by_runtime_id, is_set_client_slave_id, kick_client_by_runtime_id,
}
use dserver_framework.ConnectionServer.{LogicSession, World, to_server, to_socket, emit}
use dserver_framework.ConnectionServer.Servers.{
  find_primary_logic_server, add_primary_logic_server, remove_primary_logic_server,
  find_slave_logic_server, add_slave_logic_server, remove_slave_logic_server,
}
use dserver_framework.ConnectionServer.Clients.{find_client, kick_client, kick_client_of_primary}
use dserver_framework.ConnectionServer.Client.{set_slave_server_id}

abbrev pub put_server : ℕ → LogicSession → World → World
put_server p s w = record w { servers = update w.servers p s }

-- onClose
unfoldable pub on_close : ℕ → World → World
on_close p w =
    let s = w.servers p in
    let closed : LogicSession = record { is_primary = false; id = minus_one32 } in
    if s.id == minus_one32
    then w
    else if s.is_primary
    then put_server p closed (remove_primary_logic_server s.id (kick_client_of_primary s.id w))
    else put_server p closed (remove_slave_logic_server s.id w)

-- `if (Find...(id) == nullptr) Add...(id, this)`: the world, and isSuccess.
register_primary : ℕ → ℕ → Option ℕ × World → World × Bool
register_primary p id (none, w) = (add_primary_logic_server id p w, true)
register_primary p id (some q, w) = (w, false)

register_slave : ℕ → ℕ → Option ℕ × World → World × Bool
register_slave p id (none, w) = (add_slave_logic_server id p w, true)
register_slave p id (some q, w) = (w, false)

unfoldable pub register : ℕ → ℕ → Bool → World → World × Bool
unfolding register_primary register_slave
register p id is_primary w =
    if is_primary
    then register_primary p id (find_primary_logic_server id w)
    else register_slave p id (find_slave_logic_server id w)

module _ (lib : PacketLib) where
  abbrev pub login_result_packet : ℕ → Bool → List ℕ → List ℕ
  login_result_packet config_id success reason =
      lib.make_packet recv_csid
        (lib.write_int32 config_id ++ (lib.write_bool success ++ lib.write_binary reason))

  abbrev pub pong_packet : List ℕ
  pong_packet = lib.make_packet cs_pong []

  -- sendLogicServerLoginResult
  unfoldable pub send_login_result : ℕ → Bool → List ℕ → World → World
  send_login_result p success reason w =
      emit w (to_server p (login_result_packet w.config_id success reason))

  unfoldable pub log_in : ℕ → ℕ → Bool → List ℕ → World × Bool → World
  unfolding send_login_result
  log_in p id is_primary id_taken (w, true) =
      send_login_result p true [] (put_server p (record { is_primary = is_primary; id = id }) w)
  log_in p id is_primary id_taken (w, false) = send_login_result p false id_taken w

  -- onLogicServerLogin; the two texts of a refusal are arguments.
  unfoldable pub on_logic_server_login : ℕ → List ℕ → List ℕ → List ℕ → World → World
  unfolding send_login_result log_in
  on_logic_server_login p id_taken wrong_password rp w =
      let (password, rp') = lib.read_string rp in
      let (id, rp'') = lib.read_int32 rp' in
      let (is_primary, _) = lib.read_bool rp'' in
      if bytes_eq password w.password
      then log_in p id is_primary id_taken (register p id is_primary w)
      else send_login_result p false wrong_password w

  -- The loop of onPacket2ClientBySocketInfo.
  unfoldable pub by_sock_info_loop : ℕ → List ℕ → List ℕ → World → World
  by_sock_info_loop zero packet rp w = w
  by_sock_info_loop (suc n) packet rp w =
      let (cs_id, rp') = lib.read_int32 rp in
      let (client_socket_id, rest) = lib.read_int64 rp' in
      by_sock_info_loop n packet rest
        (if cs_id == w.config_id then emit w (to_socket client_socket_id packet) else w)

  -- onPacket2ClientBySocketInfo: makePacket copies the binary.
  unfoldable pub on_packet2client_by_socket_info : List ℕ → World → World
  on_packet2client_by_socket_info rp w =
      let (packet, rp') = lib.read_binary rp in
      let (dest_num, rest) = lib.read_int16 rp' in
      elim packet [ none ↦ w | some bytes ↦ by_sock_info_loop (rounds16 dest_num) bytes rest w ]

  -- The client of the id, if there is one and it has a socket, is sent the packet.
  send_to_client : List ℕ → Option ℕ → World → World
  send_to_client packet none w = w
  send_to_client packet (some c) w =
      let socket_id = (w.clients c).socket_id in
      if socket_id == minus_one64 then w else emit w (to_socket socket_id packet)

  -- The loop of onPacket2ClientByRuntimeID.
  unfoldable pub by_runtime_id_loop : ℕ → List ℕ → List ℕ → World → World
  unfolding send_to_client
  by_runtime_id_loop zero packet rp w = w
  by_runtime_id_loop (suc n) packet rp w =
      let (runtime_id, rest) = lib.read_int64 rp in
      by_runtime_id_loop n packet rest (send_to_client packet (find_client runtime_id w) w)

  -- makePacket(realPacketBuff, realPacketLen), where realPacketLen is the length that the packet's own
  -- head announces: the inner variable hides the binary's length.
  unfoldable pub copy_announced : List ℕ → Option (List ℕ)
  copy_announced bytes =
      let n = lib.read_packet_len bytes in
      if leb n (length bytes) then some (take n bytes) else none

  -- onPacket2ClientByRuntimeID
  unfoldable pub on_packet2client_by_runtime_id : List ℕ → World → Option World
  on_packet2client_by_runtime_id rp w =
      let (packet, rp') = lib.read_binary rp in
      let (dest_num, rest) = lib.read_int16 rp' in
      elim packet [
        | none ↦ some w
        | some bytes ↦
            Option.map (λ p. by_runtime_id_loop (rounds16 dest_num) p rest w) (copy_announced bytes)
      ]

  -- onSlaveServerIsSetClient
  unfoldable pub on_slave_server_is_set_client : ℕ → List ℕ → World → World
  on_slave_server_is_set_client p rp w =
      let (runtime_id, rp') = lib.read_int64 rp in
      let (is_set, _) = lib.read_bool rp' in
      elim (find_client runtime_id w) [
        | none ↦ w
        | some c ↦ set_slave_server_id c (if is_set then (w.servers p).id else minus_one32) w
      ]

  -- onKickClientByRuntimeID
  unfoldable pub on_kick_client_by_runtime_id : List ℕ → World → World
  on_kick_client_by_runtime_id rp w =
      let (runtime_id, _) = lib.read_int64 rp in kick_client runtime_id w

  -- onPing
  unfoldable pub on_ping : ℕ → World → World
  on_ping p w = emit w (to_server p pong_packet)

  -- procPacket; in a release build an unknown op is ignored.
  unfoldable pub proc_packet : ℕ → List ℕ → List ℕ → ℕ → List ℕ → World → Option World
  proc_packet p id_taken wrong_password op rp w =
      if op == cs_ping
      then some (on_ping p w)
      else if op == logic_server_login
      then some (on_logic_server_login p id_taken wrong_password rp w)
      else if op == packet2client_by_sock_info
      then some (on_packet2client_by_socket_info rp w)
      else if op == packet2client_by_runtime_id
      then on_packet2client_by_runtime_id rp w
      else if op == is_set_client_slave_id
      then some (on_slave_server_is_set_client p rp w)
      else if op == kick_client_by_runtime_id
      then some (on_kick_client_by_runtime_id rp w)
      else some w
