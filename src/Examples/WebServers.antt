-- ===== src/Examples/WebServers.antt =====
-- The logic servers of the connection server for web sockets at concrete inputs.
use dserver_framework.Prelude.{
  ℕ, ◌≡◌, ◌≢◌, refl, true, false, Option, none, some, List, [], ◌∷◌, arith, ◌==◌, lookup, update,
  erase, minus_one32,
}
use dserver_framework.WsConnectionServer.{WsClient, WsWorld, new_ws_client, new_ws_logic}
use dserver_framework.WsConnectionServer.Messages.{LogicServerLogin, DownstreamAck, PbLib}
use dserver_framework.WsConnectionServer.Client.{on_enter, put_client}
use dserver_framework.WsConnectionServer.Logic
use dserver_framework.WsConnectionServer.Logic.{
  put_server, on_logic_server_login, on_packet2client_by_runtime_id,
}
use dserver_framework.WsConnectionServer.Registry.{IsWsRegistry}
use dserver_framework.WsConnectionServer.Reach.{
  ws_enter, ws_server_close, ws_here, ws_next, WsReach-IsWsRegistry,
}
use dserver_framework.WsConnectionServer.Kick.{served_by, with_kicks, on_close-with_kicks}

-- A kind and an id; an op and the clients' ids, with one byte for them.
abbrev parse_login : List ℕ → Option LogicServerLogin
parse_login (kind ∷ id ∷ []) = some (record { id = id; is_primary = kind == 1 })
parse_login _ = none

abbrev parse_downstream : List ℕ → Option DownstreamAck
parse_downstream [] = none
parse_downstream (op ∷ ids) = some (record { msg_id = op; bytes = 7 ∷ []; client_id = ids })

abbrev pub messages : PbLib
messages = record {
  parse_login = parse_login;
  parse_downstream = parse_downstream;
  parse_set_slave = λ bs. none;
  parse_set_primary = λ bs. none;
  parse_kick_player = λ bs. none;
}

abbrev client : ℕ → Option ℕ → WsClient
client id primary = record new_ws_client { runtime_id = id; primary_server = primary }

-- The client 900 at 10 has the primary server 1 at 20, the client 901 at 11 has none.
abbrev pub world : WsWorld
world = record {
  config_id = 4;
  clients = update (update (λ c. new_ws_client) 10 (client 900 (some 20))) 11 (client 901 none);
  servers = update (λ p. new_ws_logic) 20 (record { is_primary = true; id = 1 });
  all_clients = (900, 10) ∷ (901, 11) ∷ [];
  primary_servers = (1, some 20) ∷ [];
  slave_servers = [];
  inc_runtime_id = 0;
  effects = [];
}

world-IsWsRegistry : IsWsRegistry world
unfolding update
world-IsWsRegistry = record { ids = λ r c e. ground arith; keys = (refl, (refl, tt)); real = refl }

new_here : (r : ℕ) → lookup r world.all_clients ≢ some 12
new_here r e = ground arith

abbrev entered : WsWorld
entered = on_enter 12 1000 (put_client 12 new_ws_client world)

WsReach-IsWsRegistry_example : IsWsRegistry (Logic.on_close 20 entered)
WsReach-IsWsRegistry_example =
    WsReach-IsWsRegistry {pb = messages} {w = world} {v = Logic.on_close 20 entered}
      world-IsWsRegistry
      (ws_next (ws_next ws_here (ws_enter 12 1000 {w = world} (omega arith) new_here))
        (ws_server_close 20 {w = entered}))

on_close-with_kicks_example :
    Logic.on_close 20 world
    ≡ put_server 20
        (record { is_primary = false; id = minus_one32 })
        (record (with_kicks (10 ∷ []) world) { primary_servers = [] })
unfolding update served_by erase
on_close-with_kicks_example =
    on_close-with_kicks 20 world world-IsWsRegistry (λ e. omega arith) refl
