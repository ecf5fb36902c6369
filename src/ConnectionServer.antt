-- ===== src/ConnectionServer.antt =====
-- ConnectionServer/*.h and *.cpp: the server that the clients connect to. It forwards between the
-- clients and the logic servers. This module has the state: the sessions by address, the tables of
-- the two managers, and what the network library was asked to do, newest first.
pub mod Publishing
pub mod Ids
pub mod Servers
pub mod Clients
pub mod Client
pub mod Logic
pub mod Registry
pub mod Reach
pub mod Forwarding
pub mod Closing
pub mod Kick
use dserver_framework.Prelude.{
  ℕ, Bool, false, Option, none, List, [], ◌∷◌, minus_one32, minus_one64,
}

-- ConnectionClientSession. A server session is named by its address; `none` is a null pointer.
pub record ClientSession : Type 0 where
  pub runtime_id : ℕ
  pub primary_server_id : ℕ
  pub slave_server_id : ℕ
  pub recv_serial_id : ℕ
  pub send_serial_id : ℕ
  pub primary_server : Option ℕ
  pub slave_server : Option ℕ
  -- getSocketID() of the network library's session
  pub socket_id : ℕ

-- ConnectionClientSession::ConnectionClientSession
abbrev pub new_client : ℕ → ClientSession
new_client socket_id = record {
  runtime_id = minus_one64;
  primary_server_id = minus_one32;
  slave_server_id = minus_one32;
  recv_serial_id = 0;
  send_serial_id = 0;
  primary_server = none;
  slave_server = none;
  socket_id = socket_id;
}

-- LogicServerSession
pub record LogicSession : Type 0 where
  pub is_primary : Bool
  pub id : ℕ

-- LogicServerSession::LogicServerSession
abbrev pub new_logic : LogicSession
new_logic = record { is_primary = false; id = minus_one32 }

-- sendPacket on the session of a logic server; send and disConnect of the TCP service on a socket.
pub data Effect : Type 0 where
  to_server : ℕ → List ℕ → Effect
  to_socket : ℕ → List ℕ → Effect
  disconnect : ℕ → Effect

pub record World : Type 0 where
  -- connectionServerConfig
  pub config_id : ℕ
  pub password : List ℕ
  pub clients : ℕ → ClientSession
  pub servers : ℕ → LogicSession
  -- gAllClientObject, gAllPrimaryServers, gAllSlaveServers, incRuntimeID
  pub all_clients : List (ℕ × ℕ)
  pub primary_servers : List (ℕ × Option ℕ)
  pub slave_servers : List (ℕ × Option ℕ)
  pub inc_runtime_id : ℕ
  pub effects : List Effect

abbrev pub emit : World → Effect → World
emit w e = record w { effects = e ∷ w.effects }
