-- ===== src/Examples/WebSocket.antt =====
-- The connection server for web sockets at concrete inputs.
use dserver_framework.Prelude.{Bool, true, false, none, some, [], ◌∷◌, update}
use dserver_framework.WsConnectionServer.{WsClient, WsWorld}

abbrev client : Bool → WsClient
client reconnecting = record {
  runtime_id = 900;
  recv_serial_id = 0;
  send_serial_id = 0;
  primary_server = none;
  slave_server = none;
  reconnecting = reconnecting;
}

-- The client at 10 is new, and every other one is reconnecting.
abbrev world : WsWorld
world = record {
  config_id = 4;
  clients = update (λ c. client true) 10 (client false);
  servers = λ p. record { is_primary = true; id = 1 };
  all_clients = (900, 10) ∷ [];
  primary_servers = (1, some 20) ∷ [];
  slave_servers = [];
  inc_runtime_id = 0;
  effects = [];
}
