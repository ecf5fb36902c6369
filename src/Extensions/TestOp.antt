-- ===== src/Extensions/TestOp.antt =====
-- A client's test message, from the logic server's application to that of the center server.
use dserver_framework.Prelude.{
  ℕ, ◌+◌, ◌≤◌, ◌≡◌, refl, sym, ◌∙◌, ap, some, List, [], ◌∷◌, ◌++◌, arith, length, insert,
  lookup-insert, append-nil,
}
use dserver_framework.Wire.{PacketLib, PacketLaws}
use dserver_framework.Ops.{center_recv_user}
use dserver_framework.SimulatePlayer.{client_op_test}
use dserver_framework.CenterServer.{emit, user_message, handles_rpc}
use dserver_framework.CenterServer.Session.{on_msg, register_user_handle}
use dserver_framework.CenterServer.Functions.{Served, RpcService, RpcServiceLaws, rpc_of}
use dserver_framework.CenterServer.Rpc.{call_center}
use dserver_framework.LogicServer.{ClientMirror, sends_to_center, raise}
use dserver_framework.LogicServer.Mirror.{send_packet}
use dserver_framework.LogicServer.Center.{send_user_packet, send_to_mirror}
use dserver_framework.LogicServer.Link.Messages.{send_to_mirror-client}
use dserver_framework.Protocol.Rpc.{request_packet, request_read}
use dserver_framework.Protocol.Center.{center_user_message}
use dserver_framework.Extensions.{
  Line, rpc_handle, test_op, MsgpackLib, MsgpackLaws, WritevLib, WritevLaws, LogicApp,
  client_test_handler, mirror_sendv, send_user_v, client_test_to_center, init_center_server_ext,
  test_op_handler, center_server_ext_recv_op_test, haha, heihei, testrpc_name,
}
use dserver_framework.Extensions.Calls.{calls_testrpc}

-- The body of the packet to the center server's application, and what the center server receives.
abbrev pub haha_body : WritevLib → List ℕ
haha_body writev = writev.write_text haha ++ writev.write_int 2

abbrev pub haha_packet : PacketLib → WritevLib → List ℕ
haha_packet lib writev =
    lib.make_packet center_recv_user
      (lib.write_binary (lib.make_packet center_server_ext_recv_op_test (haha_body writev)))

client_test_handler-host :
    {R : Type 0} (lib : PacketLib) (service : RpcService Line R) (pack : MsgpackLib)
    (writev : WritevLib) (id k : ℕ) (m : ClientMirror) (rp : List ℕ) (w : LogicApp)
    → w.host.center_client ≡ some k
    → (client_test_handler lib (rpc_of service id) pack writev m rp w).host
      ≡ raise
          (raise
            (send_packet lib m (lib.make_packet client_op_test (writev.write_int 1)) w.host)
            (sends_to_center k (haha_packet lib writev)))
          (sends_to_center k
            (request_packet lib (rpc_of service id) testrpc_name (pack.pack_text_int heihei 3)))
unfolding client_test_handler client_test_to_center mirror_sendv send_user_v send_user_packet
    call_center send_to_mirror
client_test_handler-host lib service pack writev id k m rp w there =
    let packet = lib.make_packet client_op_test (writev.write_int 1) in
    let h = send_packet lib m packet w.host in
    ap
      (λ o.
        (client_test_to_center lib (rpc_of service id) pack writev o rp
          (record w { host = h })).host)
      (send_to_mirror-client lib (some m) packet w.host ∙ there)

logs_haha :
    (lib : PacketLib) (writev : WritevLib) (read : WritevLaws lib writev) (s : Served Line)
    → test_op_handler lib (haha_body writev) s ≡ record s { logged = test_op haha 2 ∷ s.logged }
unfolding test_op_handler
logs_haha lib writev read s =
    let two : lib.read_int32 (writev.write_int 2) ≡ (2, []) =
      ap lib.read_int32 (sym (append-nil (writev.write_int 2)))
      ∙ read.int_back 2 [] (omega arith) in
    rw (read.text_back haha (writev.write_int 2) (omega arith), two) refl

module _ (lib : PacketLib) (max_body : ℕ) (laws : PacketLaws lib max_body) where
  -- A client's test message at a logic server with a connection to the center server is answered
  -- through the client's mirror, and the two packets to the center server make it run its handler,
  -- which logs "haha" and 2, and its function "testrpc", which logs "heihei" and 3 and answers
  -- nothing. The messages fit a packet.
  pub test_op_across :
      {R : Type 0} (service : RpcService Line R) (calls : RpcServiceLaws Line R service)
      (pack : MsgpackLib) (back : MsgpackLaws pack) (writev : WritevLib)
      (read : WritevLaws lib writev) (r : R) (handle id k p : ℕ) (m : ClientMirror) (rp : List ℕ)
      (w : LogicApp) (s : Served Line)
      → w.host.center_client ≡ some k
      → lib.head_len + length (haha_body writev) ≤ max_body
      → length (service.request id testrpc_name (pack.pack_text_int heihei 3)) ≤ max_body
      → let (table, c) = init_center_server_ext lib service pack handle r s.center in
        let message = service.request id testrpc_name (pack.pack_text_int heihei 3) in
        let call =
          request_packet lib (rpc_of service id) testrpc_name (pack.pack_text_int heihei 3) in
        ((client_test_handler lib (rpc_of service id) pack writev m rp w).host
          ≡ raise
              (raise
                (send_packet lib m (lib.make_packet client_op_test (writev.write_int 1)) w.host)
                (sends_to_center k (haha_packet lib writev)))
              (sends_to_center k call))
        × (on_msg lib p (haha_packet lib writev) c
            ≡ emit c (user_message handle p (haha_body writev)))
        × (test_op_handler lib (haha_body writev) s
            ≡ record s { logged = test_op haha 2 ∷ s.logged })
        × (on_msg lib p call c ≡ emit (record c { rpc_fromer = some p }) (handles_rpc p message))
        × (service.handle_rpc message table s
            ≡ some (record s { logged = rpc_handle heihei 3 ∷ s.logged }))
  unfolding init_center_server_ext test_op_handler register_user_handle insert
  test_op_across service calls pack back writev read r handle id k p m rp w s there fits fits' =
      let op = center_server_ext_recv_op_test in
      let c = (init_center_server_ext lib service pack handle r s.center).1 in
      let h = record w.host { center_handlers = insert op handle [] } in
      (
        client_test_handler-host lib service pack writev id k m rp w there,
        (center_user_message lib max_body laws p 0 op handle (haha_body writev) c h (omega arith)
            fits (lookup-insert op op handle [])
            (lookup-insert op op handle s.center.user_handles)).1,
        logs_haha lib writev read s,
        request_read lib (rpc_of service id) max_body laws p testrpc_name
            (pack.pack_text_int heihei 3) c fits',
        calls_testrpc lib service calls pack back r s.center handle id heihei 3 s (omega arith),
      )
