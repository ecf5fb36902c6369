-- ===== src/WsConnectionServer/Cellnet.antt =====
-- WSConnectionServer/UseCellnetSingleNetSession.cpp, and the sending side of
-- WSConnectionServer/LogicServerSession.cpp: the packets between this connection server and the logic
-- servers. In a release build the assertion on a packet's serial number is not evaluated.
pub mod Stream
pub mod Serials
use dserver_framework.Prelude.{
  ℕ, ◌+◌, ◌%◌, ◌^◌, Bool, true, false, List, [], ◌∷◌, ◌++◌, length, leb, ◌==◌, if◌then◌else◌,
}
use dserver_framework.BinPacket.{BinLib, uint16, uint32, buffer}
use dserver_framework.Wire.{Head}
use dserver_framework.Framing.{Frame, packet_loop, split_packet}

-- A packet that waits for the event loop: the arguments of helpSendPacketInLoop.
abbrev pub Waiting : Type 0
Waiting = ℕ × List ℕ

-- The sending side of a LogicServerSession: mSendSerialID, what sendPacket was given, the oldest first,
-- and what pushAsyncProc was given, the oldest first.
pub record Sender : Type 0 where
  pub send_serial_id : ℕ
  pub sent : List (List ℕ)
  pub waiting : List Waiting

-- LogicServerSession::LogicServerSession
abbrev pub new_sender : Sender
new_sender = record { send_serial_id = 1; sent = []; waiting = [] }

module _ (lib : BinLib) where
  -- CELLNET_PACKET_HEAD_LEN, and readUINT32, readUINT16, readUINT16 on the head
  abbrev pub cellnet_head : Head
  cellnet_head = record {
    head_len = 8;
    len_mod = 2 ^ 64;
    read_packet_len =
        λ bs. (lib.read_uint16 false (lib.read_uint16 false (lib.read_uint32 false bs).1).1).0;
    read_op = λ bs. (lib.read_uint32 false bs).0;
  }

  -- seralID
  abbrev pub serial_of : List ℕ → ℕ
  serial_of bs = (lib.read_uint16 false (lib.read_uint32 false bs).1).0

  -- UseCellnetPacketSingleNetSession::onMsg. A round takes a byte at least, so `len` rounds are enough.
  unfoldable pub cellnet_on_msg : List ℕ → List Frame × ℕ
  cellnet_on_msg bytes =
      packet_loop cellnet_head (split_packet cellnet_head) (length bytes + 1) bytes 0 (length bytes)

  -- The packet that helpSendPacketInLoop writes.
  abbrev pub cellnet_packet : ℕ → ℕ → List ℕ → List ℕ
  cellnet_packet cmd ser bytes =
      lib.written 8192 false true
        (uint32 cmd ∷ uint16 ser ∷ uint16 ((length bytes + 8) % 2 ^ 16) ∷ buffer bytes ∷ [])

  -- helpSendPacketInLoop
  unfoldable pub help_send_packet_in_loop : ℕ → List ℕ → Sender → Sender
  help_send_packet_in_loop cmd bytes s = record s {
    send_serial_id = (s.send_serial_id + 1) % 2 ^ 16;
    sent = s.sent ++ (cellnet_packet cmd s.send_serial_id bytes ∷ []);
  }

  -- sendPBData, in the loop's thread or in another
  unfoldable pub send_pb_data : Bool → ℕ → List ℕ → Sender → Sender
  send_pb_data in_loop cmd bytes s =
      if in_loop
      then help_send_packet_in_loop cmd bytes s
      else record s { waiting = s.waiting ++ ((cmd, bytes) ∷ []) }

  -- sendPB, for a message of these bytes: SerializePartialToArray fails where they do not fit buff.
  unfoldable pub send_pb : Bool → ℕ → List ℕ → Sender → Sender
  send_pb in_loop cmd bytes s =
      if in_loop
      then if leb (length bytes) 8192 then send_pb_data true cmd bytes s else s
      else if length bytes == 0
      then s
      else send_pb_data false cmd bytes s

  -- The event loop runs what waits.
  unfoldable pub run_waiting : List Waiting → Sender → Sender
  run_waiting [] s = s
  run_waiting ((cmd, bytes) ∷ rest) s = run_waiting rest (help_send_packet_in_loop cmd bytes s)

  unfoldable pub run_async : Sender → Sender
  run_async s = run_waiting s.waiting (record s { waiting = [] })
