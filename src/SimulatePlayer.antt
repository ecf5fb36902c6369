-- ===== src/SimulatePlayer.antt =====
-- SimulatePlayer/SimulateClient.cpp: a client that answers a test packet with a test packet and counts
-- what it receives. GetTickCount is an argument: what its calls in a handler return, in their order.
pub mod Counting
use dserver_framework.Prelude.{
  ℕ, suc, ◌+◌, ◌-◌, ◌%◌, ◌^◌, Option, none, some, List, [], ◌∷◌, ◌&&◌, ltb, leb, ◌==◌,
  if◌then◌else◌,
}
use dserver_framework.Wire.{PacketLib, head_of}
use dserver_framework.Framing.{Frame, single_on_msg}
use dserver_framework.CenterServer.Rpc.{RpcLib}

-- CLIENT_OP of test/ClientExtOP.h
abbrev pub client_op_test : ℕ
client_op_test = 0

-- "test", "ping" and "hello"
abbrev pub test_text : List ℕ
test_text = 116 ∷ 101 ∷ 115 ∷ 116 ∷ []

abbrev pub ping_text : List ℕ
ping_text = 112 ∷ 105 ∷ 110 ∷ 103 ∷ []

abbrev pub hello_text : List ℕ
hello_text = 104 ∷ 101 ∷ 108 ∷ 108 ∷ 111 ∷ []

-- The calls of GetTickCount in procPacket and onPingReply: the one that sets the static variable, made
-- the first time only, and the two behind it.
pub record Ticks : Type 0 where
  pub at_first : ℕ
  pub at_test : ℕ
  pub at_reset : ℕ

pub record Player : Type 0 where
  -- what was sent, newest first
  pub sent : List (List ℕ)
  -- the static variables of procPacket; a start time that is not set yet is `none`
  pub num : ℕ
  pub num_start : Option ℕ
  -- those of onPingReply
  pub count : ℕ
  pub count_start : Option ℕ
  -- the numbers that were printed, of packets and of replies, newest first
  pub packets_printed : List ℕ
  pub replies_printed : List ℕ

abbrev pub new_player : Player
new_player = record {
  sent = [];
  num = 0;
  num_start = none;
  count = 0;
  count_start = none;
  packets_printed = [];
  replies_printed = [];
}

-- The difference of two tick counts, in 32 bits.
abbrev pub elapsed : ℕ → ℕ → ℕ
elapsed now start = (now + 2 ^ 32 - start) % 2 ^ 32

abbrev pub start_of : Option ℕ → ℕ → ℕ
start_of none now = now
start_of (some t) now = t

abbrev pub send : List ℕ → Player → Player
send bytes w = record w { sent = bytes ∷ w.sent }

module _ (lib : PacketLib) where
  abbrev pub test_packet : List ℕ
  test_packet = lib.make_packet client_op_test (lib.write_binary test_text)

  -- onEnter
  unfoldable pub on_enter : Player → Player
  on_enter w = send test_packet w

  -- sendLogicRpcString
  unfoldable pub send_logic_rpc_string : List ℕ → Player → Player
  send_logic_rpc_string value w = send (lib.make_packet 1 (lib.write_binary value)) w

  -- sendGameServerRpcString
  unfoldable pub send_game_server_rpc_string : List ℕ → Player → Player
  send_game_server_rpc_string value w = send (lib.make_packet 1 (lib.write_binary value)) w

  -- onPingReply. The difference is that of two ints.
  unfoldable pub on_ping_reply : RpcLib → Ticks → Player → Player
  unfolding send_logic_rpc_string
  on_ping_reply rpc ticks w =
      let start = start_of w.count_start ticks.at_first in
      let counted = record w { count = (w.count + 1) % 2 ^ 32; count_start = some start } in
      let d = elapsed ticks.at_test start in
      let printed = record counted {
        replies_printed = counted.count ∷ w.replies_printed;
        count = 0;
        count_start = some ticks.at_test;
      } in
      send_logic_rpc_string (rpc.call_message ping_text hello_text)
        (if leb 1000 d && ltb d (2 ^ 31) then printed else counted)

  -- procPacket
  unfoldable pub proc_packet : Frame → Ticks → Player → Player
  proc_packet f ticks w =
      let start = start_of w.num_start ticks.at_first in
      let counted = record w { num = (w.num + 1) % 2 ^ 32; num_start = some start } in
      let answered = if f.op == client_op_test then send test_packet counted else counted in
      let printed = record answered {
        packets_printed = answered.num ∷ answered.packets_printed;
        num = 0;
        num_start = some ticks.at_reset;
      } in
      if leb 1000 (elapsed ticks.at_test start) then printed else answered

  -- procPacket for each packet, the i-th at the ticks of i.
  unfoldable pub proc_packets : (ℕ → Ticks) → ℕ → List Frame → Player → Player
  proc_packets ticks i [] w = w
  proc_packets ticks i (f ∷ fs) w = proc_packets ticks (suc i) fs (proc_packet f (ticks i) w)

  -- UsePacketSingleNetSession::onMsg of the bytes that were received.
  unfoldable pub receive : (ℕ → Ticks) → List ℕ → Player → Player
  receive ticks buffer w = proc_packets ticks 0 (single_on_msg (head_of lib) buffer).0 w
