-- ===== src/CenterServer/Rpc.antt =====
-- CenterServer/CenterServerSession.h and LogicServer/CenterServerConnection.h: the calls of functions
-- between the center server and the logic servers. The RPC library dodo::rpc is a parameter. Arguments
-- and results are the bytes that it makes of them.
use dserver_framework.Prelude.{ℕ, Option, none, some, List, ◌==◌, if◌then◌else◌, minus_one32}
use dserver_framework.Wire.{PacketLib}
use dserver_framework.Ops.{center_recv_rpc, center_send_rpc}
use dserver_framework.CenterServer.{Center}
use dserver_framework.CenterServer.Session
use dserver_framework.LogicServer.{Host}
use dserver_framework.LogicServer.Center

-- RpcService: the message of a call, by the function's name and the arguments, and that of a reply, by
-- the number of the request and the results.
pub record RpcLib : Type 0 where
  pub call_message : List ℕ → List ℕ → List ℕ
  pub reply_message : ℕ → List ℕ → List ℕ

module _ (lib : PacketLib) (rpc : RpcLib) where
  -- CenterServerConnection::call
  unfoldable pub call_center : ℕ → List ℕ → List ℕ → Host → Host
  call_center k name args h =
      Center.sendv lib k center_recv_rpc (lib.write_binary (rpc.call_message name args)) h

  -- CenterServerConnection::reply: the number that the request keeps, and the state.
  unfoldable pub reply_center : ℕ → ℕ → List ℕ → Host → ℕ × Host
  reply_center k request_id results h = if request_id == minus_one32 then (request_id, h) else (
    minus_one32,
    Center.sendv lib k center_recv_rpc (lib.write_binary (rpc.reply_message request_id results)) h,
  )

  -- CenterServerSession::reply
  unfoldable pub reply : ℕ → ℕ → List ℕ → Center → ℕ × Center
  reply p request_id results c = if request_id == minus_one32 then (request_id, c) else (
    minus_one32,
    Session.sendv lib p center_send_rpc (lib.write_binary (rpc.reply_message request_id results)) c,
  )

  -- What def registers for a function with a result: `none` is a call through a null pointer. For one
  -- without a result, what it registers sends nothing.
  unfoldable pub run_with_result : (List ℕ → List ℕ) → List ℕ → ℕ → Center → Option (ℕ × Center)
  run_with_result func args request_id c = elim c.rpc_fromer [
    | none ↦ none
    | some p ↦ some (reply p request_id (func args) c)
  ]
