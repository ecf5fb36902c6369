-- ===== src/Protocol/Rpc.antt =====
-- A call of a function at the center server, and its answer.
use dserver_framework.Prelude.{ℕ, ◌≤◌, ◌≡◌, ◌≢◌, refl, some, List, ◌∷◌, arith, length, minus_one32}
use dserver_framework.Wire.{PacketLib, PacketLaws}
use dserver_framework.Wire.Reading.{binary_last}
use dserver_framework.Ops.{center_recv_rpc, center_send_rpc}
use dserver_framework.CenterServer
use dserver_framework.CenterServer.{Center, to_logic, emit}
use dserver_framework.CenterServer.Session
use dserver_framework.CenterServer.Rpc.{RpcLib, call_center, reply, run_with_result}
use dserver_framework.LogicServer
use dserver_framework.LogicServer.{Host, sends_to_center, raise}
use dserver_framework.LogicServer.Center

module _ (lib : PacketLib) (rpc : RpcLib) where
  abbrev pub request_packet : List ℕ → List ℕ → List ℕ
  request_packet name args =
      lib.make_packet center_recv_rpc (lib.write_binary (rpc.call_message name args))

  abbrev pub answer_packet : ℕ → List ℕ → List ℕ
  answer_packet request_id results =
      lib.make_packet center_send_rpc (lib.write_binary (rpc.reply_message request_id results))

module _ (lib : PacketLib) (rpc : RpcLib) (max_body : ℕ) (laws : PacketLaws lib max_body) where
  pub request_read :
      (p : ℕ) (name args : List ℕ) (c : Center)
      → length (rpc.call_message name args) ≤ max_body
      → Session.on_msg lib p (request_packet lib rpc name args) c
        ≡ emit
            (record c { rpc_fromer = some p })
            (CenterServer.handles_rpc p (rpc.call_message name args))
  unfolding Session.on_msg Session.on_logic_server_rpc
  request_read p name args c fits =
      let message = lib.write_binary (rpc.call_message name args) in
      ground (
        arith,
        laws.body_packet center_recv_rpc message,
        laws.op_packet center_recv_rpc message (omega arith),
        binary_last lib max_body laws (rpc.call_message name args) fits,
      )

  -- A call that a logic server makes reaches the RPC library of the center server as it was made; the
  -- registered function's result goes to the calling session and to no other, in one packet, and
  -- reaches the RPC library of the logic server as the answer to that request; a second answer to it
  -- is not sent. The request has a number other than -1, and the messages fit a packet.
  pub call_answered :
      (k p id : ℕ) (name args : List ℕ) (func : List ℕ → List ℕ) (c : Center) (h : Host)
      → id ≢ minus_one32
      → length (rpc.call_message name args) ≤ max_body
      → length (rpc.reply_message id (func args)) ≤ max_body
      → let v = Session.on_msg lib p (request_packet lib rpc name args) c in
        let u = emit v (to_logic p (answer_packet lib rpc id (func args))) in
        (call_center lib rpc k name args h
          ≡ raise h (sends_to_center k (request_packet lib rpc name args)))
        × (v.effects ≡ CenterServer.handles_rpc p (rpc.call_message name args) ∷ c.effects)
        × (run_with_result lib rpc func args id v ≡ some (minus_one32, u))
        × (Center.on_msg lib k (answer_packet lib rpc id (func args)) h
            ≡ raise h (LogicServer.handles_rpc (rpc.reply_message id (func args))))
        × (run_with_result lib rpc func args minus_one32 u ≡ some (minus_one32, u))
  unfolding call_center run_with_result reply Center.on_msg
  call_answered k p id name args func c h real fits fits' =
      let read = request_read p name args c fits in
      let message = lib.write_binary (rpc.reply_message id (func args)) in
      (
        refl,
        rw read refl,
        rw read (ground arith),
        ground (
          arith,
          laws.body_packet center_send_rpc message,
          laws.op_packet center_send_rpc message (omega arith),
          binary_last lib max_body laws (rpc.reply_message id (func args)) fits',
        ),
        rw read refl,
      )
