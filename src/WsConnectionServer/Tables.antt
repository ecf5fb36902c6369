-- ===== src/WsConnectionServer/Tables.antt =====
-- WSConnectionServer/LogicServerSessionMgr.cpp and WSConnectionServer/ClientSessionMgr.cpp: the tables
-- of the logic servers' sessions and of the clients. Each method runs under a mutex and is one step.
-- The loop of ClaimPrimaryLogicServer is that of ConnectionServer.
use dserver_framework.Prelude.{
  ℕ, Option, none, some, List, [], ◌∷◌, lookup, insert, erase, subscript, ◌==◌, if◌then◌else◌,
  minus_one32,
}
use dserver_framework.ConnectionServer.Servers.{ServerTable}
use dserver_framework.WsConnectionServer.{WsWorld, post_close, notify_later, emit}

-- FindPrimaryLogicServer
unfoldable pub find_primary_logic_server : ℕ → WsWorld → Option ℕ × WsWorld
find_primary_logic_server id w =
    let (p, m) = subscript id w.primary_servers in (p, record w { primary_servers = m })

-- AddPrimaryLogicServer
unfoldable pub add_primary_logic_server : ℕ → ℕ → WsWorld → WsWorld
add_primary_logic_server id p w = record w {
  primary_servers = insert id (some p) w.primary_servers;
}

-- RemovePrimaryLogicServer
unfoldable pub remove_primary_logic_server : ℕ → WsWorld → WsWorld
remove_primary_logic_server id w = record w { primary_servers = erase id w.primary_servers }

-- GetAllPrimaryLogicServer
abbrev pub get_all_primary_logic_server : WsWorld → ServerTable
get_all_primary_logic_server w = w.primary_servers

-- FindSlaveLogicServer
unfoldable pub find_slave_logic_server : ℕ → WsWorld → Option ℕ × WsWorld
find_slave_logic_server id w =
    let (p, m) = subscript id w.slave_servers in (p, record w { slave_servers = m })

-- AddSlaveLogicServer
unfoldable pub add_slave_logic_server : ℕ → ℕ → WsWorld → WsWorld
add_slave_logic_server id p w = record w { slave_servers = insert id (some p) w.slave_servers }

-- RemoveSlaveLogicServer
unfoldable pub remove_slave_logic_server : ℕ → WsWorld → WsWorld
remove_slave_logic_server id w = record w { slave_servers = erase id w.slave_servers }

-- GetAllSlaveLogicServer
abbrev pub get_all_slave_logic_server : WsWorld → ServerTable
get_all_slave_logic_server w = w.slave_servers

-- getPrimaryServerID of a client's session
abbrev pub get_primary_server_id : ℕ → WsWorld → ℕ
get_primary_server_id c w = elim (w.clients c).primary_server [
  | none ↦ minus_one32
  | some p ↦ (w.servers p).id
]

-- FindClientByRuntimeID
abbrev pub find_client : ℕ → WsWorld → Option ℕ
find_client runtime_id w = lookup runtime_id w.all_clients

-- AddClientByRuntimeID
unfoldable pub add_client : ℕ → ℕ → WsWorld → WsWorld
add_client client runtime_id w = record w { all_clients = insert runtime_id client w.all_clients }

-- EraseClientByRuntimeID
unfoldable pub erase_client : ℕ → WsWorld → WsWorld
erase_client runtime_id w = record w { all_clients = erase runtime_id w.all_clients }

-- KickClientByRuntimeID
unfoldable pub kick_client : ℕ → WsWorld → WsWorld
kick_client runtime_id w = elim (find_client runtime_id w) [
  | none ↦ w
  | some c ↦ emit (emit w (post_close c)) (notify_later c)
]

-- The loop of KickClientOfPrimary over its copy of the table.
unfoldable pub kick_loop : ℕ → List (ℕ × ℕ) → WsWorld → WsWorld
kick_loop primary_server_id [] w = w
kick_loop primary_server_id ((k, c) ∷ rest) w = kick_loop primary_server_id rest (
    if get_primary_server_id c w == primary_server_id
    then kick_client (w.clients c).runtime_id w
    else w)

-- KickClientOfPrimary
unfoldable pub kick_client_of_primary : ℕ → WsWorld → WsWorld
kick_client_of_primary primary_server_id w = kick_loop primary_server_id w.all_clients w
