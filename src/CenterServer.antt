-- ===== src/CenterServer.antt =====
-- CenterServer/CenterServerSession.h and .cpp: the server that the logic servers meet at. One loop runs
-- all the handlers. This module has the state, and what the handlers ask of the rest, newest first.
pub mod Session
pub mod Table
pub mod Rpc
pub mod Functions
pub mod Serving
use dserver_framework.Prelude.{ℕ, Option, List, ◌∷◌}

-- A session is named by its address, a message handler by a number.
pub data Effect : Type 0 where
  -- sendPacket of a session
  to_logic : ℕ → List ℕ → Effect
  -- handle(shared_from_this(), subRP), with the bytes that are left to read
  user_message : ℕ → ℕ → List ℕ → Effect
  -- setRpcFrommer(shared_from_this()), and handleRpc
  handles_rpc : ℕ → List ℕ → Effect

pub record Center : Type 0 where
  -- centerServerConfig.logicserverloginpassword()
  pub password : List ℕ
  -- mID of each session
  pub session_id : ℕ → ℕ
  -- sAllLogicServer, sUserMsgHandles, sCenterServerSessionRpcFromer
  pub all_logic_server : List (ℕ × ℕ)
  pub user_handles : List (ℕ × ℕ)
  pub rpc_fromer : Option ℕ
  pub effects : List Effect

abbrev pub emit : Center → Effect → Center
emit c e = record c { effects = e ∷ c.effects }
