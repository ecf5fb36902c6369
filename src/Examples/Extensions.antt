-- ===== src/Examples/Extensions.antt =====
-- The applications of the servers, at concrete inputs, with a small RPC service.
use dserver_framework.Prelude.{
  ℕ, ◌≡◌, refl, Option, none, some, List, [], ◌∷◌, ◌++◌, arith, length, take, drop, bytes_eq,
  bytes_eq_refl, take-length-append, drop-length-append, if◌then◌else◌,
}
use dserver_framework.Wire.Sample.{sample, sample-PacketLaws}
use dserver_framework.CenterServer.{emit, user_message, handles_rpc}
use dserver_framework.CenterServer.Session.{on_msg}
use dserver_framework.CenterServer.Functions.{Served, Handler, RpcService, RpcServiceLaws, rpc_of}
use dserver_framework.Protocol.Rpc.{request_packet}
use dserver_framework.LogicServer.{raise, sends_to_center}
use dserver_framework.LogicServer.Mirror.{send_packet}
use dserver_framework.SimulatePlayer.{client_op_test}
use dserver_framework.Extensions.{
  Line, rpc_handle, test_op, MsgpackLib, MsgpackLaws, WritevLib, WritevLaws, testrpc_name, heihei,
  haha, init_center_server_ext, client_test_handler, test_op_handler,
}
use dserver_framework.Extensions.TestOp.{haha_body, haha_packet, test_op_across}
use dserver_framework.Examples.Center.{center, host, mirror}

-- A table is a function from names. A call is its number, the length of the name, the name and the
-- arguments.
abbrev Table : Type 0
Table = List ℕ → Option (Handler Line)

abbrev ran : Option (ℕ × Served Line) → Option (Served Line)
ran none = none
ran (some done) = some done.1

abbrev run : Option (Handler Line) → List ℕ → ℕ → Served Line → Option (Served Line)
run none args id s = some s
run (some f) args id s = ran (f args id s)

abbrev handle_message : List ℕ → Table → Served Line → Option (Served Line)
handle_message [] r s = some s
handle_message (id ∷ []) r s = some s
handle_message (id ∷ n ∷ rest) r s = run (r (take n rest)) (drop n rest) id s

abbrev service : RpcService Line Table
service = record {
  def = λ name f r. λ other. if bytes_eq other name then some f else r other;
  handle_rpc = handle_message;
  request = λ id name args. id ∷ length name ∷ (name ++ args);
  answer = λ id results. id ∷ results;
}

runs_last :
    (id : ℕ) (name args : List ℕ) (f : Handler Line) (r : Table) (s : Served Line)
    → service.handle_rpc (service.request id name args) (service.def name f r) s
      ≡ elim (f args id s) [ none ↦ none | some done ↦ some done.1 ]
runs_last id name args f r s =
    rw (take-length-append name args, drop-length-append name args, bytes_eq_refl name) refl

service-RpcServiceLaws : RpcServiceLaws Line Table service
service-RpcServiceLaws = record {
  runs = runs_last;
  others = λ id name other args f r s differs.
      rw (take-length-append name args, drop-length-append name args, differs) refl;
}

abbrev pack : MsgpackLib
pack = record {
  pack_ints = λ a b. a ∷ b ∷ [];
  unpack_ints =
      λ args. elim args [ [] ↦ (0, 0) | a ∷ rest ↦ (a, elim rest [ [] ↦ 0 | b ∷ more ↦ b ]) ];
  pack_int = λ a. a ∷ [];
  pack_text_int = λ text n. n ∷ text;
  unpack_text_int = λ args. elim args [ [] ↦ ([], 0) | n ∷ text ↦ (text, n) ];
}

pack-MsgpackLaws : MsgpackLaws pack
pack-MsgpackLaws = record { ints_back = λ a b ha hb. refl; text_int_back = λ text n h. refl }

abbrev writev : WritevLib
writev = record { write_text = sample.write_binary; write_int = sample.write_int32 }

writev-WritevLaws : WritevLaws sample writev
writev-WritevLaws = record {
  text_back = λ s rest h. sample-PacketLaws.string_back s rest (omega (arith, h));
  int_back = λ n rest h. sample-PacketLaws.int32_back n rest h;
}

-- A call came over the session 5, and nothing was registered before.
abbrev served : Served Line
served = record { center = record center { rpc_fromer = some 5 }; logged = [] }

abbrev empty_table : Table
empty_table name = none

-- The client of `mirror` has sent a test message, and the connection to the center server is at 1.
test_op_across_example :
    let (table, c) = init_center_server_ext sample service pack 40 empty_table served.center in
    let message = service.request 9 testrpc_name (pack.pack_text_int heihei 3) in
    let call =
      request_packet sample (rpc_of service 9) testrpc_name (pack.pack_text_int heihei 3) in
    ((client_test_handler sample
        (rpc_of service 9)
        pack
        writev
        mirror
        (0 ∷ 0 ∷ [])
        (record { host = host; printed = [] })).host
      ≡ raise
          (raise
            (send_packet sample mirror
              (sample.make_packet client_op_test (writev.write_int 1))
              host)
            (sends_to_center 1 (haha_packet sample writev)))
          (sends_to_center 1 call))
    × (on_msg sample 5 (haha_packet sample writev) c
        ≡ emit c (user_message 40 5 (haha_body writev)))
    × (test_op_handler sample (haha_body writev) served
        ≡ record served { logged = test_op haha 2 ∷ [] })
    × (on_msg sample 5 call c ≡ emit (record c { rpc_fromer = some 5 }) (handles_rpc 5 message))
    × (service.handle_rpc message table served
        ≡ some (record served { logged = rpc_handle heihei 3 ∷ [] }))
unfolding sample
test_op_across_example =
    test_op_across sample 60000 sample-PacketLaws service service-RpcServiceLaws pack
      pack-MsgpackLaws writev writev-WritevLaws empty_table 40 9 1 5 mirror (0 ∷ 0 ∷ [])
      (record { host = host; printed = [] }) served refl (omega arith) (omega arith)
