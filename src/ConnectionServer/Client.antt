-- ===== src/ConnectionServer/Client.antt =====
-- ConnectionServer/ClientSession.cpp: a client's session. `c` is its address, `now` the value of
-- time(nullptr), `rand` that of rand(). A result `none` is a call through a null pointer.
use dserver_framework.Prelude.{
  ℕ, not, ◌&&◌, ◌++◌, Option, none, some, List, ◌==◌, if◌then◌else◌, is_some, minus_one32,
  minus_one64, update,
}
use dserver_framework.Wire.{PacketLib}
use dserver_framework.Ops.{init_client_mirror, destroy_client, from_client}
use dserver_framework.ConnectionServer.{ClientSession, World, to_server, emit}
use dserver_framework.ConnectionServer.Ids.{make_runtime_id, next_inc}
use dserver_framework.ConnectionServer.Servers.{
  find_primary_logic_server, find_slave_logic_server, claim_primary_logic_server,
}
use dserver_framework.ConnectionServer.Clients.{add_client, erase_client}

-- Assignment to the session's members.
abbrev pub put_client : ℕ → ClientSession → World → World
put_client c s w = record w { clients = update w.clients c s }

-- `if (server != nullptr) server->sendPacket(...)`
abbrev pub send_if : Option ℕ → List ℕ → World → World
send_if none packet w = w
send_if (some p) packet w = emit w (to_server p packet)

-- `server->sendPacket(...)` with no test
abbrev pub send_through : Option ℕ → List ℕ → World → Option World
send_through none packet w = none
send_through (some p) packet w = some (emit w (to_server p packet))

-- setSlaveServerID
unfoldable pub set_slave_server_id : ℕ → ℕ → World → World
set_slave_server_id c id w = put_client c (record (w.clients c) { slave_server_id = id }) w

unfoldable pub set_primary : ℕ → ℕ → World → World
set_primary c id w =
    let (p, w') = find_primary_logic_server id w in
    let s = w'.clients c in
    if id == minus_one32
    then put_client c (record (w.clients c) { primary_server_id = id }) w
    else put_client c (record s { primary_server_id = id; primary_server = p }) w'

-- claimPrimaryServer
unfoldable pub claim_primary_server : ℕ → ℕ → World → World
claim_primary_server c rand w =
    if not ((w.clients c).runtime_id == minus_one64) && not (is_some (w.clients c).primary_server)
    then set_primary c (claim_primary_logic_server rand w.primary_servers) w
    else w

-- The session's slave pointer, looked up when the id is set and the pointer is not.
unfoldable pub refresh_slave : ℕ → World → World
refresh_slave c w =
    let s = w.clients c in
    let (p, w') = find_slave_logic_server s.slave_server_id w in
    if s.slave_server_id == minus_one32
    then put_client c (record s { slave_server = none }) w
    else if is_some s.slave_server
    then w
    else put_client c (record (w'.clients c) { slave_server = p }) w'

abbrev pub claim_if_none : ℕ → ℕ → World → World
claim_if_none c rand w =
    if (w.clients c).primary_server_id == minus_one32 then claim_primary_server c rand w else w

-- The id is drawn and registered.
unfoldable pub draw_runtime_id : ℕ → ℕ → World → World
draw_runtime_id c now w =
    let id = make_runtime_id w.config_id w.inc_runtime_id now in
    add_client c id (
      put_client c (record (w.clients c) { runtime_id = id })
        (record w { inc_runtime_id = next_inc w.inc_runtime_id }))

module _ (lib : PacketLib) where
  abbrev pub init_packet : ℕ → ℕ → List ℕ
  init_packet socket_id runtime_id =
      lib.make_packet init_client_mirror (lib.write_int64 socket_id ++ lib.write_int64 runtime_id)

  abbrev pub destroy_packet : ℕ → List ℕ
  destroy_packet runtime_id = lib.make_packet destroy_client (lib.write_int64 runtime_id)

  abbrev pub from_client_packet : ℕ → List ℕ → List ℕ
  from_client_packet runtime_id body =
      lib.make_packet from_client (lib.write_int64 runtime_id ++ lib.write_binary body)

  -- mPrimaryServer = FindPrimaryLogicServer(mPrimaryServerID), and the packet to it
  unfoldable pub announce : ℕ → World → World
  announce c w =
      let (p, w') = find_primary_logic_server (w.clients c).primary_server_id w in
      send_if p (init_packet (w.clients c).socket_id (w.clients c).runtime_id)
        (put_client c (record (w'.clients c) { primary_server = p }) w')

  -- claimRuntimeID
  unfoldable pub claim_runtime_id : ℕ → ℕ → World → World
  claim_runtime_id c now w =
      if (w.clients c).runtime_id == minus_one64 then announce c (draw_runtime_id c now w) else w

  -- if (mSlaveServer != nullptr) mPrimaryServer->... else if (mPrimaryServer != nullptr)
  -- mSlaveServer->...
  unfoldable pub forward : ℕ → List ℕ → World → Option World
  forward c body w =
      let s = w.clients c in
      let packet = from_client_packet s.runtime_id body in
      if s.primary_server_id == minus_one32
      then some w
      else if is_some s.slave_server
      then send_through s.primary_server packet w
      else if is_some s.primary_server
      then send_through s.slave_server packet w
      else some w

  -- The claims that procPacket makes before it forwards.
  unfoldable pub prepare : ℕ → ℕ → ℕ → World → World
  prepare c now rand w = refresh_slave c (claim_if_none c rand (claim_runtime_id c now w))

  -- procPacket (the op is not used)
  unfoldable pub proc_packet : ℕ → ℕ → ℕ → List ℕ → World → Option World
  proc_packet c now rand body w = forward c body (prepare c now rand w)

  -- onClose
  unfoldable pub on_close : ℕ → World → World
  on_close c w =
      let s = w.clients c in
      let packet = destroy_packet s.runtime_id in
      if s.runtime_id == minus_one64
      then w
      else let w' =
          send_if s.slave_server packet
            (send_if s.primary_server packet (erase_client s.runtime_id w)) in
        put_client c (record s { runtime_id = minus_one64 }) w'
