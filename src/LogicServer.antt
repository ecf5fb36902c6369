-- ===== src/LogicServer.antt =====
-- LogicServer/*.h and *.cpp: the server that runs the game's logic. It connects to the connection
-- servers and to the center server, and has a mirror of each client. This module has the state of the
-- logic thread, which runs all the handlers here, and what they ask of the rest, newest first.
pub mod Mirror
pub mod Connection
pub mod Center
pub mod Discovery
pub mod Link
use dserver_framework.Prelude.{ℕ, Bool, false, Option, none, List, ◌∷◌, minus_one32}

-- ClientMirror. `connection_server` is its weak pointer, `none` for one that was never set.
pub record ClientMirror : Type 0 where
  pub runtime_id : ℕ
  pub connection_server_id : ℕ
  pub socket_id_on_connection_server : ℕ
  pub connection_server : Option ℕ

-- ConnectionServerConnection, with the address that getIP() gives
pub record ServerConnection : Type 0 where
  pub is_success : Bool
  pub ip : List ℕ
  pub port : ℕ
  pub id_in_etcd : ℕ
  pub connection_server_id : ℕ
  pub password : List ℕ

-- ConnectionServerConnection::ConnectionServerConnection
abbrev pub new_connection : ℕ → List ℕ → ℕ → List ℕ → ServerConnection
new_connection id_in_etcd ip port password = record {
  is_success = false;
  ip = ip;
  port = port;
  id_in_etcd = id_in_etcd;
  connection_server_id = minus_one32;
  password = password;
}

-- An address of tryCompareConnect: ip, port and password.
pub record Address : Type 0 where
  pub ip : List ℕ
  pub port : ℕ
  pub password : List ℕ

-- A callback or a message handler that the application registered is named by a number.
pub data Event : Type 0 where
  -- send of the connection to a connection server, and of the one to the center server
  sends : ℕ → List ℕ → Event
  sends_to_center : ℕ → List ℕ → Event
  -- addTimer(5000, ping) of either connection
  ping_timer : ℕ → Event
  center_ping_timer : ℕ → Event
  enter_callback : ℕ → ClientMirror → Event
  disconnect_callback : ℕ → Option ClientMirror → Event
  user_message : ℕ → ClientMirror → List ℕ → Event
  center_message : ℕ → ℕ → List ℕ → Event
  handles_rpc : List ℕ → Event
  starts_connect : ℕ → Address → Event

pub record Host : Type 0 where
  -- logicServerConfig, and the password of centerServerConfig
  pub config_id : ℕ
  pub config_is_primary : Bool
  pub center_password : List ℕ
  pub connections : ℕ → ServerConnection
  -- which connections still exist, for the weak pointers
  pub alive : ℕ → Bool
  -- gAllLogicConnectionServerClient and alreadyConnectingServers
  pub logic_connections : List (ℕ × Option ℕ)
  pub connecting : List (ℕ × (List ℕ × ℕ))
  -- mAllClientMirrorOnRuntimeID and the static members of ClientMirror
  pub mirrors : List (ℕ × ClientMirror)
  pub user_handlers : List (ℕ × ℕ)
  pub enter_handle : Option ℕ
  pub disconnect_handle : Option ℕ
  -- gLogicCenterServerClient, mSelfID and sUserMsgHandlers of CenterServerConnection
  pub center_client : Option ℕ
  pub self_id : ℕ → ℕ
  pub center_handlers : List (ℕ × ℕ)
  pub events : List Event

abbrev pub raise : Host → Event → Host
raise h e = record h { events = e ∷ h.events }
