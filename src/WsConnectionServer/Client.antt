-- ===== src/WsConnectionServer/Client.antt =====
-- WSConnectionServer/ClientSession.cpp: a client's session. `c` is its address, `now` the value of
-- time(nullptr), `rand` that of rand(). A result `none` is a call through a null pointer. The claim of
-- a primary server and the runtime id are the code of ConnectionServer.
use dserver_framework.Prelude.{
  ℕ, ◌+◌, ◌%◌, ◌^◌, Bool, true, false, not, ◌&&◌, ◌||◌, Option, none, some, List, [], ◌∷◌, ◌==◌,
  if◌then◌else◌, is_some, update, minus_one32, minus_one64,
}
use dserver_framework.ConnectionServer.Ids.{make_runtime_id, next_inc}
use dserver_framework.ConnectionServer.Servers.{ServerTable, claim_primary_logic_server}
use dserver_framework.WsConnectionServer.{
  WsClient, WsEffect, WsWorld, send_pb_upstream, close_ack, reply, close_timer, emit,
}
use dserver_framework.WsConnectionServer.Tables.{
  find_primary_logic_server, get_all_primary_logic_server, find_slave_logic_server,
  get_all_slave_logic_server, add_client, erase_client,
}

abbrev pub put_client : ℕ → WsClient → WsWorld → WsWorld
put_client c s w = record w { clients = update w.clients c s }

-- claimPrimaryServer
unfoldable pub claim_primary_server : ℕ → ℕ → WsWorld → WsWorld
claim_primary_server c rand w =
    let s = w.clients c in
    let id = claim_primary_logic_server rand w.primary_servers in
    let (p, w') = find_primary_logic_server id w in
    if not (s.runtime_id == minus_one64) && not (is_some s.primary_server)
    then if id == minus_one32 then w else put_client c (record s { primary_server = p }) w'
    else w

-- setPrimaryServerID
unfoldable pub set_primary_server_id : ℕ → ℕ → WsWorld → WsWorld
set_primary_server_id c id w =
    let s = w.clients c in
    let (p, w') = find_primary_logic_server id w in
    if id == minus_one32
    then put_client c (record s { primary_server = none }) w
    else put_client c (record s { primary_server = p; reconnecting = false }) w'

-- setSlaveServerID
unfoldable pub set_slave_server_id : ℕ → ℕ → WsWorld → WsWorld
set_slave_server_id c id w =
    let s = w.clients c in
    let (p, w') = find_slave_logic_server id w in
    if id == minus_one32
    then put_client c (record s { slave_server = none }) w
    else put_client c (record s { slave_server = p }) w'

-- for (auto& v : servers) v.second->sendPB(...), over a copy of a table
unfoldable pub send_to_all : (ℕ → WsEffect) → ServerTable → WsWorld → Option WsWorld
send_to_all message [] w = some w
send_to_all message ((id, p) ∷ m) w = elim p [
  | none ↦ none
  | some q ↦ send_to_all message m (emit w (message q))
]

-- To the server if there is one, and otherwise to all of the table if the client is reconnecting.
unfoldable pub notify_one : ℕ → Option ℕ → Bool → ServerTable → WsWorld → Option WsWorld
notify_one runtime_id server reconnecting m w = elim server [
  | some p ↦ some (emit w (close_ack p runtime_id))
  | none ↦ if reconnecting then send_to_all (λ q. close_ack q runtime_id) m w else some w
]

-- notifyServerPlayerExist
unfoldable pub notify_server_player_exist : ℕ → WsWorld → Option WsWorld
notify_server_player_exist c w =
    let s = w.clients c in
    elim (notify_one s.runtime_id s.primary_server s.reconnecting (get_all_primary_logic_server w)
      w) [
        | none ↦ none
        | some v ↦
            notify_one s.runtime_id s.slave_server s.reconnecting (get_all_slave_logic_server w) v
      ]

-- PRIMARY_OPS
abbrev pub is_primary_op : ℕ → Bool
is_primary_op op = (op == 24) || ((op == 52) || ((op == 74) || (op == 75)))

-- The call server->sendPB(UPSTREAM_ACK_OP, upstream), if there is a server; Sending has what it sends.
abbrev pub send_upstream : Option ℕ → ℕ → ℕ → List ℕ → WsWorld → WsWorld
send_upstream none runtime_id op body w = w
send_upstream (some p) runtime_id op body w = emit w (send_pb_upstream p runtime_id op body)

-- The last part of procPacket, with the two pointers that it loaded before.
unfoldable pub route : Option ℕ → Option ℕ → ℕ → ℕ → List ℕ → WsWorld → WsWorld
route primary slave runtime_id op body w =
    if is_primary_op op
    then send_upstream primary runtime_id op body w
    else if is_some slave
    then send_upstream slave runtime_id op body w
    else send_upstream primary runtime_id op body w

-- The message of a client that reconnects, op 91.
unfoldable pub reconnect : ℕ → List ℕ → WsWorld → Option WsWorld
reconnect c body w =
    let s = w.clients c in
    elim (if s.recv_serial_id == 1
      then send_to_all (λ q. send_pb_upstream q s.runtime_id 91 body)
          (get_all_primary_logic_server w) w
      else some w) [
        | none ↦ none
        | some v ↦ some (put_client c (record (v.clients c) { reconnecting = true }) v)
      ]

-- procPacket
unfoldable pub proc_packet : ℕ → ℕ → ℕ → List ℕ → WsWorld → Option WsWorld
proc_packet c rand op body w =
    let s = w.clients c in
    let w' = put_client c (record s { recv_serial_id = (s.recv_serial_id + 1) % 2 ^ 32 }) w in
    let w'' =
      if not (is_some s.primary_server) && not s.reconnecting
      then claim_primary_server c rand w'
      else w' in
    if op == 10000
    then some (emit w' (reply c 10000 []))
    else if op == 91
    then reconnect c body w'
    else some (route s.primary_server s.slave_server s.runtime_id op body w'')

-- onEnter
unfoldable pub on_enter : ℕ → ℕ → WsWorld → WsWorld
on_enter c now w =
    let id = make_runtime_id w.config_id w.inc_runtime_id now in
    let w' = put_client c (record (w.clients c) { runtime_id = id }) w in
    add_client c id (record w' { inc_runtime_id = next_inc w.inc_runtime_id })

-- onClose
unfoldable pub on_close : ℕ → WsWorld → WsWorld
on_close c w = if (w.clients c).runtime_id == minus_one64 then w else emit w (close_timer c)

-- What the timer of onClose runs.
unfoldable pub on_close_timer : ℕ → WsWorld → Option WsWorld
on_close_timer c w = elim (notify_server_player_exist c w) [
  | none ↦ none
  | some v ↦ some (erase_client (v.clients c).runtime_id v)
]
