-- ===== src/Examples/Center.antt =====
-- The center server and the logic servers' connections to it, at concrete inputs.
use dserver_framework.Prelude.{
  ℕ, ◌≡◌, ◌↔◌, refl, true, none, some, List, [], ◌∷◌, ◌++◌, arith, lookup, update, minus_one32,
}
use dserver_framework.Wire.Sample.{sample, sample-PacketLaws}
use dserver_framework.CenterServer.{Center, to_logic, emit}
use dserver_framework.CenterServer
use dserver_framework.CenterServer.Rpc.{RpcLib, call_center, run_with_result}
use dserver_framework.Protocol.Rpc.{request_packet, answer_packet, call_answered}
use dserver_framework.LogicServer
use dserver_framework.CenterServer.Session.{self_id_packet, to_mirror_packet}
use dserver_framework.CenterServer.Session
use dserver_framework.CenterServer.Table.{start, starts, steps, step_msg, Reach-IsTable}
use dserver_framework.LogicServer.{
  ClientMirror, Host, new_connection, sends_to_center, center_message, raise,
}
use dserver_framework.LogicServer.Center.{center_login_packet}
use dserver_framework.LogicServer.Center
use dserver_framework.Protocol.Center.{center_login_accepted}

abbrev pub secret : List ℕ
secret = 115 ∷ 51 ∷ []

-- A center server where the session at 5 is the logic server 2, and the handler 40 is registered.
abbrev pub center : Center
center = record {
  password = secret;
  session_id = update (λ p. minus_one32) 5 2;
  all_logic_server = (2, 5) ∷ [];
  user_handles = (9, 40) ∷ [];
  rpc_fromer = none;
  effects = [];
}

abbrev pub mirror : ClientMirror
mirror = record {
  runtime_id = 77;
  connection_server_id = 1;
  socket_id_on_connection_server = 12;
  connection_server = some 0;
}

abbrev pub host : Host
host = record {
  config_id = 3;
  config_is_primary = true;
  center_password = secret;
  connections = λ k. new_connection 0 [] 0 [];
  alive = λ k. true;
  logic_connections = [];
  connecting = [];
  mirrors = (77, mirror) ∷ [];
  user_handlers = [];
  enter_handle = none;
  disconnect_handle = none;
  center_client = some 1;
  self_id = λ k. 0;
  center_handlers = (9, 40) ∷ [];
  events = [];
}

center_login_accepted_example :
    let v = Session.on_msg sample 6 (center_login_packet sample secret 3) center in
    (v.session_id 6 ≡ 3)
    × (lookup 3 v.all_logic_server ≡ some 6)
    × (v.effects ≡ to_logic 6 (self_id_packet sample 3) ∷ [])
    × ((Center.on_msg sample 1 (self_id_packet sample 3) host).self_id 1 ≡ 3)
unfolding update
center_login_accepted_example =
    center_login_accepted sample 60000 sample-PacketLaws 6 3 1 secret center host (omega arith)
      (omega arith) refl refl refl

abbrev one_login : Center
one_login = Session.on_msg sample 6 (center_login_packet sample secret 3) (start secret)

Reach-IsTable_example :
    (lookup 3 one_login.all_logic_server ≡ some 6) ↔ (one_login.session_id 6 ≡ 3)
Reach-IsTable_example =
    Reach-IsTable sample secret one_login
      (steps (start secret) one_login starts
        (step_msg 6 (center_login_packet sample secret 3) (start secret)))
      3 6 (λ e. omega arith)

abbrev rpc : RpcLib
rpc = record {
  call_message = λ name args. 99 ∷ (name ++ args);
  reply_message = λ id results. 114 ∷ id ∷ results;
}

call_answered_example :
    let v = Session.on_msg sample 5 (request_packet sample rpc (1 ∷ []) (2 ∷ [])) center in
    let u = emit v (to_logic 5 (answer_packet sample rpc 8 (2 ∷ 2 ∷ []))) in
    (call_center sample rpc 1 (1 ∷ []) (2 ∷ []) host
      ≡ raise host (sends_to_center 1 (request_packet sample rpc (1 ∷ []) (2 ∷ []))))
    × (v.effects ≡ CenterServer.handles_rpc 5 (99 ∷ 1 ∷ 2 ∷ []) ∷ [])
    × (run_with_result sample rpc (λ x. x ++ x) (2 ∷ []) 8 v ≡ some (minus_one32, u))
    × (Center.on_msg sample 1 (answer_packet sample rpc 8 (2 ∷ 2 ∷ [])) host
        ≡ raise host (LogicServer.handles_rpc (114 ∷ 8 ∷ 2 ∷ 2 ∷ [])))
    × (run_with_result sample rpc (λ x. x ++ x) (2 ∷ []) minus_one32 u ≡ some (minus_one32, u))
call_answered_example =
    call_answered sample rpc 60000 sample-PacketLaws 1 5 8 (1 ∷ []) (2 ∷ []) (λ x. x ++ x) center
      host (λ e. omega arith) (omega arith) (omega arith)
