-- ===== src/Examples/Connection.antt =====
-- The connection server at concrete inputs.
use dserver_framework.Prelude.{
  ℕ, ◌≡◌, ◌≢◌, refl, true, false, none, some, [], ◌∷◌, arith, is_some, same, lookup, update,
  minus_one32, ◌↔◌, ◌+◌, ◌%◌, ◌^◌,
}
use dserver_framework.Wire.Sample.{sample}
use dserver_framework.ConnectionServer.{ClientSession, World, new_client, new_logic}
use dserver_framework.ConnectionServer.Clients.{kick_client_of_primary}
use dserver_framework.ConnectionServer.Client
use dserver_framework.ConnectionServer.Ids.{make_runtime_id, make_runtime_id_fields}
use dserver_framework.ConnectionServer.Client.{destroy_packet, send_if}
use dserver_framework.ConnectionServer.Registry.{IsRegistry}
use dserver_framework.ConnectionServer.Reach.{client_close, here, next, Reach-IsRegistry}
use dserver_framework.ConnectionServer.Forwarding.{forward_faults}
use dserver_framework.ConnectionServer.Closing.{on_close-unreachable}
use dserver_framework.ConnectionServer.Kick.{
  sockets_of, with_disconnects, kick_client_of_primary_lem,
}

-- A client with the id 900, the primary server 1 at 20 and no slave server.
abbrev client : ClientSession
client = record {
  runtime_id = 900;
  primary_server_id = 1;
  slave_server_id = minus_one32;
  recv_serial_id = 0;
  send_serial_id = 0;
  primary_server = some 20;
  slave_server = none;
  socket_id = 55;
}

-- A connection server with that client at 10, and a new client at every other address.
abbrev world : World
world = record {
  config_id = 4;
  password = [];
  clients = update (λ c. new_client 56) 10 client;
  servers = λ p. new_logic;
  all_clients = (900, 10) ∷ [];
  primary_servers = (1, some 20) ∷ (2, some 21) ∷ [];
  slave_servers = [];
  inc_runtime_id = 0;
  effects = [];
}

world-IsRegistry : IsRegistry world
unfolding update
world-IsRegistry = record { ids = λ r c e. ground arith; keys = (refl, tt); real = refl }

abbrev closed : World
closed = Client.on_close sample 10 world

Reach-IsRegistry_example : IsRegistry closed
Reach-IsRegistry_example =
    Reach-IsRegistry {lib = sample} {w = world} {v = closed} world-IsRegistry
      (next here (client_close 10 {w = world}))

on_close-unreachable_example :
    let packet = destroy_packet sample 900 in
    ((r : ℕ) → lookup r closed.all_clients ≢ some 10)
    × (closed.effects ≡ (send_if none packet (send_if (some 20) packet world)).effects)
    × (Client.on_close sample 10 closed ≡ closed)
unfolding update
on_close-unreachable_example =
    on_close-unreachable sample 10 world world-IsRegistry (λ e. omega arith)

kick_client_of_primary_lem_example :
    kick_client_of_primary 1 world ≡ with_disconnects (55 ∷ []) world
unfolding update sockets_of
kick_client_of_primary_lem_example = kick_client_of_primary_lem 1 world world-IsRegistry

forward_faults_example : is_some (Client.forward sample 10 (3 ∷ []) world) ≡ same true false
unfolding update
forward_faults_example = forward_faults sample 10 (3 ∷ []) world (λ e. omega arith)

make_runtime_id_fields_example : (make_runtime_id 4 (7 + 65536) 1000 ≡ make_runtime_id 4 7 1000) ↔ (
    (4 % 2 ^ 16 ≡ 4 % 2 ^ 16)
    × ((7 + 65536) % 2 ^ 16 ≡ 7 % 2 ^ 16)
    × (1000 % 2 ^ 32 ≡ 1000 % 2 ^ 32))
make_runtime_id_fields_example = make_runtime_id_fields 4 (7 + 65536) 1000 4 7 1000
