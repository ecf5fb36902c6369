-- ===== src/WsConnectionServer/WebFrame.antt =====
-- WSConnectionServer/UseWebPacketSingleNetSession.cpp, and ConnectionClientSession::helpSendPacket of
-- WSConnectionServer/ClientSession.cpp: the packets of web socket clients. WebSocketFormat and the
-- classes of packet.h belong to the networking library and are parameters. In a release build the
-- assertions are not evaluated.
pub mod Row
pub mod Packets
pub mod Sender
use dserver_framework.Prelude.{
  ℕ, zero, suc, ◌+◌, ◌-◌, ◌%◌, ◌^◌, Bool, true, false, ◌&&◌, ◌||◌, Option, none, some, List, [],
  ◌∷◌, ◌++◌, length, take, drop, leb, ltb, bytes_eq, ◌==◌, if◌then◌else◌,
}
use dserver_framework.BinPacket.{BinLib, Field, int8, uint32, buffer}
use dserver_framework.Framing.{Frame}

-- WebSocketFrameType, as far as the code names its values
pub data FrameType : Type 0 where
  error_frame : FrameType
  continuation_frame : FrameType
  text_frame : FrameType
  binary_frame : FrameType
  ping_frame : FrameType
  pong_frame : FrameType
  other_frame : FrameType

-- What wsFrameExtractBuffer hands back.
pub record Extracted : Type 0 where
  pub payload : List ℕ
  pub opcode : FrameType
  pub frame_size : ℕ
  pub is_fin : Bool

pub record WebLib : Type 0 where
  pub bin : BinLib
  -- the byte order of a reader, and whether a writer may allocate, where the code does not say
  pub reader_order : Bool
  pub writer_grows : Bool
  -- the values of PACKET_LEN_TYPE
  pub len_mod : ℕ
  -- wsHandshake of the key; wsFrameExtractBuffer, `none` for false; wsFrameBuild of a text frame
  pub ws_handshake : List ℕ → List ℕ
  pub ws_frame_extract : List ℕ → Option Extracted
  pub ws_frame_build : List ℕ → Option (List ℕ)

-- UseWebPacketSingleNetSession; mParsePayload is a local variable of onMsg's loop.
pub record WebSession : Type 0 where
  pub shakehanded : Bool
  pub cache_frame : List ℕ

-- UseWebPacketSingleNetSession::UseWebPacketSingleNetSession
abbrev pub new_web_session : WebSession
new_web_session = record { shakehanded = false; cache_frame = [] }

-- What a call of onMsg did: its calls of procPacket, what it returned, the session, what it sent.
pub record Received : Type 0 where
  pub calls : List Frame
  pub proc_len : ℕ
  pub session : WebSession
  pub sent : List (List ℕ)

-- The text that a char pointer leads to, up to its NUL.
abbrev pub c_string : List ℕ → List ℕ
c_string [] = []
c_string (b ∷ bs) = if b == 0 then [] else b ∷ c_string bs

-- strstr: what is left of the text from the place on where the other one begins.
abbrev pub strstr : List ℕ → List ℕ → Option (List ℕ)
strstr [] flag = if bytes_eq flag [] then some [] else none
strstr (b ∷ bs) flag =
    if bytes_eq (take (length flag) (b ∷ bs)) flag then some (b ∷ bs) else strstr bs flag

-- SEC_FLAG: "Sec-WebSocket-Key: "
abbrev pub sec_flag : List ℕ
sec_flag =
    83 ∷ 101 ∷ 99 ∷ 45 ∷ 87 ∷ 101 ∷ 98 ∷ 83 ∷ 111 ∷ 99 ∷ 107 ∷ 101 ∷ 116 ∷ 45 ∷ 75 ∷ 101 ∷ 121 ∷ 58
    ∷ 32 ∷ []

-- The key: the text between SEC_FLAG and the next "\r\n".
unfoldable pub sec_key : List ℕ → Option (List ℕ)
sec_key text = elim (strstr text sec_flag) [
  | none ↦ none
  | some f ↦
      let start = drop (length sec_flag) f in
      elim (strstr start (13 ∷ 10 ∷ [])) [
        | none ↦ none
        | some fend ↦ some (take (length start - length fend) start)
      ]
]

abbrev pub is_data : FrameType → Bool
is_data text_frame = true
is_data binary_frame = true
is_data _ = false

abbrev pub is_continuation : FrameType → Bool
is_continuation continuation_frame = true
is_continuation _ = false

-- What onMsg did when its loop has ended.
abbrev pub after_frames : WebSession → List Frame × ℕ × List ℕ → Received
after_frames s (calls, total, cache) = record {
  calls = calls;
  proc_len = total;
  session = record s { cache_frame = cache };
  sent = [];
}

module _ (lib : WebLib) where
  -- The call of procPacket for a whole payload: an int8, the length, the op, the serial id, the body.
  unfoldable pub packet_call : List ℕ → List Frame
  packet_call payload =
      let (packet_len, behind_len) =
        lib.bin.read_uint32 lib.reader_order (lib.bin.read_int8 payload).1 in
      let (cmd, behind_cmd) = lib.bin.read_uint32 lib.reader_order behind_len in
      let body = (lib.bin.read_uint32 lib.reader_order behind_cmd).1 in
      if leb 14 packet_len && packet_len == length payload
      then record { op = cmd; body = take (packet_len - 14) body } ∷ []
      else []

  -- One extracted frame: the calls, and mCacheFrame. If that is empty, the payload is not longer.
  unfoldable pub proc_frame : Extracted → List ℕ → List Frame × List ℕ
  proc_frame f cache =
      if f.is_fin && is_data f.opcode
      then (packet_call (cache ++ f.payload), [])
      else if is_continuation f.opcode
      then ([], cache ++ f.payload)
      else ([], cache)

  -- The two tests that set `flag`.
  abbrev pub next_frame : ℕ → List ℕ → Option Extracted
  next_frame left parse_str =
      if leb 14 left then lib.ws_frame_extract (take left parse_str) else none

  -- left_len -= static_cast<PACKET_LEN_TYPE>(frameSize)
  abbrev pub less : ℕ → ℕ → ℕ
  less left frame_size = (left + lib.len_mod - frame_size % lib.len_mod) % lib.len_mod

  -- while (true): the calls, total_proc_len, mCacheFrame.
  unfoldable pub frame_loop : ℕ → List ℕ → ℕ → ℕ → List ℕ → List Frame × ℕ × List ℕ
  frame_loop zero parse_str total left cache = ([], total, cache)
  frame_loop (suc fuel) parse_str total left cache = elim (next_frame left parse_str) [
    | none ↦ ([], total, cache)
    | some f ↦
        let (calls, cache') = proc_frame f cache in
        let (calls', total', cache'') =
          frame_loop fuel (drop f.frame_size parse_str) (total + f.frame_size)
            (less left f.frame_size) cache' in
        (calls ++ calls', total', cache'')
  ]

  -- UseWebPacketSingleNetSession::onMsg. `memory` is what stands from `buffer` on, `len` bytes of which
  -- were received. A frame has a byte at least, so `len` rounds are enough.
  unfoldable pub web_on_msg : List ℕ → ℕ → WebSession → Received
  web_on_msg memory len s =
      if s.shakehanded
      then after_frames s (frame_loop (len + 1) memory 0 (len % lib.len_mod) s.cache_frame)
      else elim (sec_key (c_string memory)) [
        | none ↦ record { calls = []; proc_len = 0; session = s; sent = [] }
        | some key ↦ record {
          calls = [];
          proc_len = len;
          session = record s { shakehanded = true };
          sent = lib.ws_handshake key ∷ [];
        }
      ]

  -- What helpSendPacket gives to its BasePacketWriter.
  abbrev pub client_fields : ℕ → ℕ → List ℕ → List Field
  client_fields op serial bytes =
      int8 123
      ∷ uint32 ((length bytes + 14) % 2 ^ 32)
      ∷ uint32 op
      ∷ uint32 serial
      ∷ buffer bytes
      ∷ int8 125
      ∷ []

  -- helpSendPacket: mSendSerialID afterwards, and what is sent, if it is.
  unfoldable pub help_send_packet : ℕ → List ℕ → ℕ → ℕ × Option (List ℕ)
  help_send_packet op bytes serial = (
    (serial + 1) % 2 ^ 32,
    lib.ws_frame_build (lib.bin.written 8192 true lib.writer_grows (client_fields op serial bytes)),
  )
