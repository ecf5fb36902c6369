-- ===== src/Extensions.antt =====
-- test/CenterServerExt.cpp and test/LogicServerExt.cpp: the applications of the center server and of a
-- logic server. The arguments of a call are the bytes that msgpack makes of them.
pub mod Calls
pub mod TestOp
use dserver_framework.Prelude.{
  ℕ, ◌+◌, ◌%◌, ◌^◌, ◌<◌, ◌≡◌, Option, none, some, List, [], ◌∷◌, ◌++◌, length,
}
use dserver_framework.Wire.{PacketLib}
use dserver_framework.SimulatePlayer.{client_op_test}
use dserver_framework.CenterServer.{Center}
use dserver_framework.CenterServer.Rpc.{RpcLib, call_center}
use dserver_framework.CenterServer.Session.{register_user_handle}
use dserver_framework.CenterServer.Functions.{
  Served, Handler, RpcService, Functor, with_result, void, register,
}
use dserver_framework.LogicServer.{ClientMirror, Host}
use dserver_framework.LogicServer.Mirror.{send_packet, register_user_msg_handle}
use dserver_framework.LogicServer.Center.{send_user_packet}

-- CENTER_SERVER_EXT_RECV_OP of test/CenterServerExtRecvOP.h
abbrev pub center_server_ext_recv_op_test : ℕ
center_server_ext_recv_op_test = 0

-- The names "test", "testNoneRet", "add", "addNoneRet" and "testrpc", and the texts "haha" and
-- "heihei".
abbrev pub test_name : List ℕ
test_name = 116 ∷ 101 ∷ 115 ∷ 116 ∷ []

abbrev pub test_none_ret_name : List ℕ
test_none_ret_name = 116 ∷ 101 ∷ 115 ∷ 116 ∷ 78 ∷ 111 ∷ 110 ∷ 101 ∷ 82 ∷ 101 ∷ 116 ∷ []

abbrev pub add_name : List ℕ
add_name = 97 ∷ 100 ∷ 100 ∷ []

abbrev pub add_none_ret_name : List ℕ
add_none_ret_name = 97 ∷ 100 ∷ 100 ∷ 78 ∷ 111 ∷ 110 ∷ 101 ∷ 82 ∷ 101 ∷ 116 ∷ []

abbrev pub testrpc_name : List ℕ
testrpc_name = 116 ∷ 101 ∷ 115 ∷ 116 ∷ 114 ∷ 112 ∷ 99 ∷ []

abbrev pub haha : List ℕ
haha = 104 ∷ 97 ∷ 104 ∷ 97 ∷ []

abbrev pub heihei : List ℕ
heihei = 104 ∷ 101 ∷ 105 ∷ 104 ∷ 101 ∷ 105 ∷ []

-- msgpack, for two ints, an int, and a text with an int.
pub record MsgpackLib : Type 0 where
  pub pack_ints : ℕ → ℕ → List ℕ
  pub unpack_ints : List ℕ → ℕ × ℕ
  pub pack_int : ℕ → List ℕ
  pub pack_text_int : List ℕ → ℕ → List ℕ
  pub unpack_text_int : List ℕ → List ℕ × ℕ

pub record MsgpackLaws (pack : MsgpackLib) : Type 0 where
  pub ints_back :
      (a b : ℕ) → a < 2 ^ 32 → b < 2 ^ 32 → pack.unpack_ints (pack.pack_ints a b) ≡ (a, b)
  pub text_int_back :
      (s : List ℕ) (n : ℕ) → n < 2 ^ 32 → pack.unpack_text_int (pack.pack_text_int s n) ≡ (s, n)

-- What the application of the center server logs: "rpc handle: {} : {}" and "test op : {} : {}".
pub data Line : Type 0 where
  rpc_handle : List ℕ → ℕ → Line
  test_op : List ℕ → ℕ → Line

-- add. (The sum of two ints that overflows is undefined; it wraps here.)
unfoldable pub add : ℕ → ℕ → ℕ
add a b = (a + b) % 2 ^ 32

-- The two functions without a result do nothing.
unfoldable pub none_functor : Functor Line
none_functor = void (λ args id lines. lines)

module _ (pack : MsgpackLib) where
  -- What is registered under the names.
  unfoldable pub add_functor : Functor Line
  unfolding add
  add_functor = with_result (λ args. let (a, b) = pack.unpack_ints args in pack.pack_int (add a b))

  -- The handler of "testrpc", which is given to the library itself.
  unfoldable pub testrpc_handler : Handler Line
  testrpc_handler args id s =
      let (a, b) = pack.unpack_text_int args in
      some (id, record s { logged = rpc_handle a b ∷ s.logged })

-- The handler of CENTER_SERVER_EXT_RECV_OP_TEST.
unfoldable pub test_op_handler : PacketLib → List ℕ → Served Line → Served Line
test_op_handler lib rp s =
    let (a, rest) = lib.read_string rp in
    let (b, _) = lib.read_int32 rest in record s { logged = test_op a b ∷ s.logged }

-- initCenterServerExt: the functions, and the handler, which is named by a number.
module _ {R : Type 0} (lib : PacketLib) (service : RpcService Line R) (pack : MsgpackLib) where
  unfoldable pub init_center_server_ext : ℕ → R → Center → R × Center
  unfolding register add_functor none_functor testrpc_handler
  init_center_server_ext handle r c =
      let r = register lib service test_name (add_functor pack) r in
      let r = register lib service test_none_ret_name none_functor r in
      let r = register lib service add_name (add_functor pack) r in
      let r = register lib service add_none_ret_name none_functor r in
      let r = service.def testrpc_name (testrpc_handler pack) r in
      (r, register_user_handle center_server_ext_recv_op_test handle c)

-- writev of the networking library, for a text and for an int.
pub record WritevLib : Type 0 where
  pub write_text : List ℕ → List ℕ
  pub write_int : ℕ → List ℕ

-- What was written is what readBinary and readINT32 read. A text here is a short one.
pub record WritevLaws (lib : PacketLib) (writev : WritevLib) : Type 0 where
  pub text_back :
      (s rest : List ℕ)
      → length s < 2 ^ 15
      → lib.read_string (writev.write_text s ++ rest) ≡ (s, rest)
  pub int_back :
      (n : ℕ) (rest : List ℕ) → n < 2 ^ 32 → lib.read_int32 (writev.write_int n ++ rest) ≡ (n, rest)

-- A logic server, with the texts that its application has printed, newest first.
pub record LogicApp : Type 0 where
  pub host : Host
  pub printed : List (List ℕ)

module _ (lib : PacketLib) where
  -- ClientMirror::sendv and CenterServerConnection::sendUserV
  unfoldable pub mirror_sendv : ClientMirror → ℕ → List ℕ → Host → Host
  mirror_sendv m op body h = send_packet lib m (lib.make_packet op body) h

  unfoldable pub send_user_v : ℕ → ℕ → List ℕ → Host → Host
  send_user_v k op body h = send_user_packet lib k (lib.make_packet op body) h

module _ (lib : PacketLib) (rpc : RpcLib) (pack : MsgpackLib) (writev : WritevLib) where
  -- What the handler of CLIENT_OP_TEST does with gLogicCenterServerClient.
  unfoldable pub client_test_to_center : Option ℕ → List ℕ → LogicApp → LogicApp
  unfolding send_user_v
  client_test_to_center none rp w = w
  client_test_to_center (some k) rp w =
      let body = writev.write_text haha ++ writev.write_int 2 in
      record {
        host =
            call_center lib rpc k testrpc_name (pack.pack_text_int heihei 3)
              (send_user_v lib k center_server_ext_recv_op_test body w.host);
        printed = (lib.read_string rp).0 ∷ w.printed;
      }

  -- The handler of CLIENT_OP_TEST that initLogicServerExt registers.
  unfoldable pub client_test_handler : ClientMirror → List ℕ → LogicApp → LogicApp
  unfolding mirror_sendv client_test_to_center
  client_test_handler m rp w =
      let h = mirror_sendv lib m client_op_test (writev.write_int 1) w.host in
      client_test_to_center h.center_client rp (record w { host = h })

-- initLogicServerExt
unfoldable pub init_logic_server_ext : ℕ → Host → Host
init_logic_server_ext handle h = register_user_msg_handle client_op_test handle h
