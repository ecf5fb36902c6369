-- ===== src/Examples/Protocol.antt =====
-- A connection server and a logic server at concrete inputs.
use mathlib.Core.List.{reverse}
use dserver_framework.Prelude.{
  ◌++◌, update, ℕ, ◌≡◌, refl, true, false, none, some, List, [], ◌∷◌, arith, lookup, subscript,
}
use dserver_framework.Wire.Sample.{sample, sample-PacketLaws}
use dserver_framework.ConnectionServer.{World, new_client, new_logic, to_server, to_socket, emit}
use dserver_framework.ConnectionServer.Client.{init_packet, destroy_packet}
use dserver_framework.ConnectionServer.Logic.{login_result_packet}
use dserver_framework.LogicServer.{
  ClientMirror, Host, Address, new_connection, enter_callback, disconnect_callback, sends, raise,
}
use dserver_framework.LogicServer.Mirror.{mirror_packet, send_packet}
use dserver_framework.LogicServer.Connection
use dserver_framework.LogicServer.Connection.{login_packet, try_compare_connect}
use dserver_framework.LogicServer.Discovery.{unconnected, connects}
use dserver_framework.Protocol.{deliver}
use dserver_framework.Protocol.Login.{logged_in, login_accepted, login_answered}
use dserver_framework.Protocol.Mirrors.{mirror_for, client_announced, client_gone}
use dserver_framework.Protocol.Downlink.{downlink}
use dserver_framework.Protocol.ByRuntimeId.{by_id_packet, by_id_whole}
use dserver_framework.Protocol.Refused.{
  Later, stays, goes, constructed, enters, compares, closes_outside, refused_not_retried,
}

abbrev secret : List ℕ
secret = 115 ∷ 51 ∷ []

abbrev taken : List ℕ
taken = 84 ∷ []

abbrev wrong : List ℕ
wrong = 87 ∷ []

-- A connection server where the logic server 1 is logged in as a primary at 20.
abbrev world : World
world = record {
  config_id = 4;
  password = secret;
  clients = λ c. new_client 56;
  servers = λ p. new_logic;
  all_clients = (900, 10) ∷ [];
  primary_servers = (1, some 20) ∷ [];
  slave_servers = [];
  inc_runtime_id = 0;
  effects = [];
}

abbrev mirror : ClientMirror
mirror = record {
  runtime_id = 900;
  connection_server_id = 4;
  socket_id_on_connection_server = 56;
  connection_server = some 0;
}

abbrev host : Host
host = record {
  config_id = 2;
  config_is_primary = true;
  center_password = [];
  connections = λ k. new_connection 6 (1 ∷ []) 5003 secret;
  alive = λ k. true;
  logic_connections = (4, some 0) ∷ [];
  connecting = [];
  mirrors = (900, mirror) ∷ [];
  user_handlers = (7, 30) ∷ [];
  enter_handle = some 31;
  disconnect_handle = some 32;
  center_client = none;
  self_id = λ k. 0;
  center_handlers = [];
  events = [];
}

login_accepted_example :
    let v = logged_in sample 21 2 true taken world in
    (deliver sample 21 taken wrong (login_packet sample secret 2 true) world ≡ some v)
    × (lookup 2 v.primary_servers ≡ some (some 21))
    × (v.slave_servers ≡ [])
    × (v.servers 21 ≡ record { is_primary = true; id = 2 })
    × (v.effects ≡ to_server 21 (login_result_packet sample 4 true []) ∷ [])
unfolding subscript
login_accepted_example =
    login_accepted sample 60000 sample-PacketLaws 21 taken wrong secret 2 true world (omega arith)
      (omega arith) refl refl

login_answered_example :
    let v = Connection.on_msg sample 3 (login_result_packet sample 9 true []) host in
    (lookup 9 v.logic_connections ≡ some (some 3))
    × ((v.connections 3).connection_server_id ≡ 9)
    × (v.events ≡ [])
login_answered_example =
    login_answered sample 60000 sample-PacketLaws 3 9 9 true [] host (omega arith)

client_announced_example :
    let v = Connection.on_msg sample 0 (init_packet sample 57 901) host in
    let m = mirror_for 0 57 901 host in
    (lookup 901 v.mirrors ≡ some m) × (v.events ≡ enter_callback 31 m ∷ [])
client_announced_example =
    client_announced sample 60000 sample-PacketLaws 0 57 901 901 host (omega arith) (omega arith)

client_gone_example :
    let v = Connection.on_msg sample 0 (destroy_packet sample 900) host in
    (lookup 900 v.mirrors ≡ none) × (v.events ≡ disconnect_callback 32 (some mirror) ∷ [])
client_gone_example = client_gone sample 60000 sample-PacketLaws 0 900 900 host (omega arith)

downlink_example :
    (send_packet sample mirror (1 ∷ 2 ∷ []) host
      ≡ raise host (sends 0 (mirror_packet sample mirror (1 ∷ 2 ∷ []))))
    × (deliver sample 20 taken wrong (mirror_packet sample mirror (1 ∷ 2 ∷ [])) world
        ≡ some (emit world (to_socket 56 (1 ∷ 2 ∷ []))))
downlink_example =
    downlink sample 60000 sample-PacketLaws mirror 0 20 taken wrong (1 ∷ 2 ∷ []) host world refl
      refl (omega arith) (omega arith) (omega arith)

by_id_whole_example :
    let packet = sample.make_packet 7 (5 ∷ []) in
    deliver sample 20 taken wrong (by_id_packet sample packet 900) world
    ≡ some (emit world (to_socket 56 packet))
unfolding sample
by_id_whole_example =
    by_id_whole sample 60000 sample-PacketLaws 7 (5 ∷ []) 900 20 taken wrong world (omega arith)
      (omega arith) (omega arith) (omega arith)

abbrev address : Address
address = record { ip = 1 ∷ []; port = 5003; password = secret }

-- Behind the refusal, the connection 5 to the same server is made, closes before it enters, and then a
-- list is compared and the connection 3 enters again.
abbrev refused : Host
refused =
    Connection.on_msg sample 3 (login_result_packet sample 9 false [])
      (Connection.on_enter sample 3 host)

abbrev other_made : Host
other_made = Connection.put_connection 5 (new_connection 6 (1 ∷ []) 5003 secret) refused

abbrev servers : List (ℕ × Address)
servers = (8, address) ∷ (6, address) ∷ []

abbrev compared : Host
compared = try_compare_connect servers (Connection.on_close 5 other_made)

abbrev entered_again : Host
entered_again = Connection.on_enter sample 3 compared

entered_again-Later : Later sample 6 3 refused entered_again
unfolding update
entered_again-Later =
    goes refused compared _
      (goes refused (Connection.on_close 5 other_made) _
        (goes refused other_made _
          (goes refused refused _ (stays refused)
            (constructed 5 6 5003 (1 ∷ []) secret refused (λ e. omega (arith, e))))
          (closes_outside 5 other_made refl))
        (compares servers (Connection.on_close 5 other_made)))
      (enters 3 compared)

refused_not_retried_example :
    let closed = Connection.on_close 3 entered_again in
    (lookup 6 (unconnected servers entered_again) ≡ none)
    × (try_compare_connect servers entered_again ≡ record entered_again {
      events = reverse (connects (unconnected servers entered_again)) ++ entered_again.events;
    })
    × (lookup 6 (unconnected servers closed) ≡ some address)
    × (try_compare_connect servers closed ≡ record closed {
      events = reverse (connects (unconnected servers closed)) ++ closed.events;
    })
refused_not_retried_example =
    refused_not_retried sample 60000 sample-PacketLaws 3 9 [] host entered_again servers
      (omega arith) refl entered_again-Later
