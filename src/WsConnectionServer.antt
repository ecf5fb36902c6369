-- ===== src/WsConnectionServer.antt =====
-- WSConnectionServer/*.h and *.cpp: the connection server for clients that connect by web socket. This
-- module has the state of the sessions and tables, and what the handlers ask of the network, newest
-- first. A session is named by its address.
pub mod Tables
pub mod Client
pub mod Messages
pub mod Logic
pub mod Registry
pub mod Reach
pub mod Kick
pub mod Downstream
pub mod Cellnet
pub mod Routing
pub mod WebFrame
pub mod Uplink
pub mod Downlink
pub mod Sending
use dserver_framework.Prelude.{ℕ, Bool, false, Option, none, List, ◌∷◌, minus_one32, minus_one64}

-- ConnectionClientSession; `none` is a null pointer.
pub record WsClient : Type 0 where
  pub runtime_id : ℕ
  pub recv_serial_id : ℕ
  pub send_serial_id : ℕ
  pub primary_server : Option ℕ
  pub slave_server : Option ℕ
  pub reconnecting : Bool

-- ConnectionClientSession::ConnectionClientSession
abbrev pub new_ws_client : WsClient
new_ws_client = record {
  runtime_id = minus_one64;
  recv_serial_id = 0;
  send_serial_id = 0;
  primary_server = none;
  slave_server = none;
  reconnecting = false;
}

-- LogicServerSession, without its sending side
pub record WsLogic : Type 0 where
  pub is_primary : Bool
  pub id : ℕ

-- LogicServerSession::LogicServerSession
abbrev pub new_ws_logic : WsLogic
new_ws_logic = record { is_primary = false; id = minus_one32 }

pub data WsEffect : Type 0 where
  -- The first three are calls of sendPB of a logic server's session, which is Cellnet.send_pb and drops
  -- some messages: UpstreamACK of a client, an op and a body;
  send_pb_upstream : ℕ → ℕ → ℕ → List ℕ → WsEffect
  -- CloseClientACK of a client;
  close_ack : ℕ → ℕ → WsEffect
  -- LogicServerLoginReply, whether it succeeded and the server's id.
  login_reply : ℕ → Bool → ℕ → WsEffect
  -- sendPBBinary of a client's session
  reply : ℕ → ℕ → List ℕ → WsEffect
  -- addTimer(2 * 60 * 1000) of a client's session
  close_timer : ℕ → WsEffect
  -- postClose, and pushAsyncProc of notifyServerPlayerExist, of a client's session
  post_close : ℕ → WsEffect
  notify_later : ℕ → WsEffect

pub record WsWorld : Type 0 where
  pub config_id : ℕ
  pub clients : ℕ → WsClient
  pub servers : ℕ → WsLogic
  pub all_clients : List (ℕ × ℕ)
  pub primary_servers : List (ℕ × Option ℕ)
  pub slave_servers : List (ℕ × Option ℕ)
  pub inc_runtime_id : ℕ
  pub effects : List WsEffect

abbrev pub emit : WsWorld → WsEffect → WsWorld
emit w e = record w { effects = e ∷ w.effects }
