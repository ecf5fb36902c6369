-- ===== src/WsConnectionServer/Logic.antt =====
-- WSConnectionServer/LogicServerSession.cpp: the handlers of a logic server's session. `p` is its
-- address, and `rp` the bytes of a message. A packet to a client is one effect, whichever thread the
-- client belongs to.
use dserver_framework.Prelude.{
  ℕ, Bool, true, false, Option, none, some, List, [], ◌∷◌, ◌==◌, if◌then◌else◌, minus_one32, update,
}
use dserver_framework.WsConnectionServer.{WsLogic, WsWorld, login_reply, reply, emit}
use dserver_framework.WsConnectionServer.Messages.{LogicServerLogin, PbLib}
use dserver_framework.WsConnectionServer.Tables.{
  find_primary_logic_server, add_primary_logic_server, remove_primary_logic_server,
  find_slave_logic_server, add_slave_logic_server, remove_slave_logic_server, find_client,
  kick_client, kick_client_of_primary,
}
use dserver_framework.WsConnectionServer.Client.{set_primary_server_id, set_slave_server_id}

-- CELLNET_OP
abbrev pub cellnet_login : ℕ
cellnet_login = 3280140517

abbrev pub cellnet_downstream : ℕ
cellnet_downstream = 1648565662

abbrev pub cellnet_kick_player : ℕ
cellnet_kick_player = 2806502720

abbrev pub cellnet_set_player_slave : ℕ
cellnet_set_player_slave = 1999458104

abbrev pub cellnet_set_player_primary : ℕ
cellnet_set_player_primary = 2933402823

abbrev pub put_server : ℕ → WsLogic → WsWorld → WsWorld
put_server p s w = record w { servers = update w.servers p s }

-- onClose
unfoldable pub on_close : ℕ → WsWorld → WsWorld
on_close p w =
    let s = w.servers p in
    let closed : WsLogic = record { is_primary = false; id = minus_one32 } in
    if s.id == minus_one32
    then w
    else if s.is_primary
    then put_server p closed (remove_primary_logic_server s.id (kick_client_of_primary s.id w))
    else put_server p closed (remove_slave_logic_server s.id w)

-- sendLogicServerLoginResult; the reason is not sent.
unfoldable pub send_login_result : ℕ → Bool → WsWorld → WsWorld
send_login_result p success w = emit w (login_reply p success w.config_id)

-- `if (Find...(id) == nullptr) Add...(id, this)`: the world, and isSuccess.
register_primary : ℕ → ℕ → Option ℕ × WsWorld → WsWorld × Bool
register_primary p id (none, w) = (add_primary_logic_server id p w, true)
register_primary p id (some q, w) = (w, false)

register_slave : ℕ → ℕ → Option ℕ × WsWorld → WsWorld × Bool
register_slave p id (none, w) = (add_slave_logic_server id p w, true)
register_slave p id (some q, w) = (w, false)

unfoldable pub register : ℕ → LogicServerLogin → WsWorld → WsWorld × Bool
unfolding register_primary register_slave
register p m w =
    if m.is_primary
    then register_primary p m.id (find_primary_logic_server m.id w)
    else register_slave p m.id (find_slave_logic_server m.id w)

unfoldable pub log_in : ℕ → LogicServerLogin → WsWorld × Bool → WsWorld
unfolding send_login_result
log_in p m (w, true) =
    send_login_result p true (put_server p (record { is_primary = m.is_primary; id = m.id }) w)
log_in p m (w, false) = send_login_result p false w

-- The loop of onPacket2ClientByRuntimeID.
unfoldable pub downstream_loop : ℕ → List ℕ → List ℕ → WsWorld → WsWorld
downstream_loop op bytes [] w = w
downstream_loop op bytes (v ∷ vs) w =
    downstream_loop op bytes vs
      (elim (find_client v w) [ none ↦ w | some c ↦ emit w (reply c op bytes) ])

module _ (pb : PbLib) where
  -- onLogicServerLogin: `true || checkPassword("")` asks for no password.
  unfoldable pub on_logic_server_login : ℕ → List ℕ → WsWorld → WsWorld
  unfolding log_in
  on_logic_server_login p rp w = elim (pb.parse_login rp) [
    | none ↦ w
    | some m ↦ log_in p m (register p m w)
  ]

  -- onPacket2ClientByRuntimeID
  unfoldable pub on_packet2client_by_runtime_id : List ℕ → WsWorld → WsWorld
  on_packet2client_by_runtime_id rp w = elim (pb.parse_downstream rp) [
    | none ↦ w
    | some m ↦ downstream_loop m.msg_id m.bytes m.client_id w
  ]

  -- onIsSetPlayerSlaveServer
  unfoldable pub on_is_set_player_slave_server : ℕ → List ℕ → WsWorld → WsWorld
  on_is_set_player_slave_server p rp w = elim (pb.parse_set_slave rp) [
    | none ↦ w
    | some m ↦ elim (find_client m.role_runtime_id w) [
      | none ↦ w
      | some c ↦ set_slave_server_id c (if m.will_set then (w.servers p).id else minus_one32) w
    ]
  ]

  -- onSetPlayerPrimaryServer
  unfoldable pub on_set_player_primary_server : ℕ → List ℕ → WsWorld → WsWorld
  on_set_player_primary_server p rp w = elim (pb.parse_set_primary rp) [
    | none ↦ w
    | some id ↦ elim (find_client id w) [
      | none ↦ w
      | some c ↦ set_primary_server_id c (w.servers p).id w
    ]
  ]

  -- onKickClientByRuntimeID
  unfoldable pub on_kick_client_by_runtime_id : List ℕ → WsWorld → WsWorld
  on_kick_client_by_runtime_id rp w = elim (pb.parse_kick_player rp) [
    | none ↦ w
    | some id ↦ kick_client id w
  ]

  -- procPacket; in a release build an unknown op is ignored.
  unfoldable pub proc_packet : ℕ → ℕ → List ℕ → WsWorld → WsWorld
  proc_packet p op rp w =
      if op == cellnet_login
      then on_logic_server_login p rp w
      else if op == cellnet_downstream
      then on_packet2client_by_runtime_id rp w
      else if op == cellnet_kick_player
      then on_kick_client_by_runtime_id rp w
      else if op == cellnet_set_player_slave
      then on_is_set_player_slave_server p rp w
      else if op == cellnet_set_player_primary
      then on_set_player_primary_server p rp w
      else w
