-- ===== src/ConnectionServer/Clients.antt =====
-- ConnectionServer/ClientSessionMgr.cpp: the table of the clients by runtime id. Each access runs
-- under the table's mutex and is one step.
use dserver_framework.Prelude.{
  ℕ, Option, none, some, List, [], ◌∷◌, lookup, insert, erase, ◌==◌, if◌then◌else◌, minus_one64,
}
use dserver_framework.ConnectionServer.{World, disconnect, emit}

-- FindClientByRuntimeID
abbrev pub find_client : ℕ → World → Option ℕ
find_client runtime_id w = lookup runtime_id w.all_clients

-- AddClientByRuntimeID. (The assertion that the id is new is compiled out of a release build.)
unfoldable pub add_client : ℕ → ℕ → World → World
add_client client runtime_id w = record w { all_clients = insert runtime_id client w.all_clients }

-- EraseClientByRuntimeID
unfoldable pub erase_client : ℕ → World → World
erase_client runtime_id w = record w { all_clients = erase runtime_id w.all_clients }

disconnect_socket : ℕ → World → World
disconnect_socket socket_id w =
    if socket_id == minus_one64 then w else emit w (disconnect socket_id)

-- KickClientByRuntimeID
unfoldable pub kick_client : ℕ → World → World
unfolding disconnect_socket
kick_client runtime_id w = elim (find_client runtime_id w) [
  | none ↦ w
  | some p ↦ disconnect_socket (w.clients p).socket_id w
]

-- The loop of KickClientOfPrimary over its copy of the table.
unfoldable pub kick_loop : ℕ → List (ℕ × ℕ) → World → World
kick_loop primary_server_id [] w = w
kick_loop primary_server_id ((k, p) ∷ rest) w = kick_loop primary_server_id rest (
    if (w.clients p).primary_server_id == primary_server_id
    then kick_client (w.clients p).runtime_id w
    else w)

-- KickClientOfPrimary
unfoldable pub kick_client_of_primary : ℕ → World → World
kick_client_of_primary primary_server_id w = kick_loop primary_server_id w.all_clients w
