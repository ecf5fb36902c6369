-- ===== src/WsConnectionServer/Messages.antt =====
-- WSConnectionServer/proto: the messages of the logic servers. The code that protobuf generates from
-- it is a parameter: ParseFromArray of each message, `none` for false.
use dserver_framework.Prelude.{ℕ, Bool, Option, List}

pub record LogicServerLogin : Type 0 where
  pub id : ℕ
  pub is_primary : Bool

pub record DownstreamAck : Type 0 where
  pub msg_id : ℕ
  pub bytes : List ℕ
  pub client_id : List ℕ

pub record SetRoleSlave : Type 0 where
  pub role_runtime_id : ℕ
  pub will_set : Bool

pub record PbLib : Type 0 where
  pub parse_login : List ℕ → Option LogicServerLogin
  pub parse_downstream : List ℕ → Option DownstreamAck
  pub parse_set_slave : List ℕ → Option SetRoleSlave
  -- RoleRuntimeID of LogicServerSetRolePrimary and of LogicServerKickPlayer
  pub parse_set_primary : List ℕ → Option ℕ
  pub parse_kick_player : List ℕ → Option ℕ
