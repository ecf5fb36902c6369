-- ===== src/Examples/WebFrames.antt =====
-- The packets of the connection server for web sockets at concrete inputs. The frames are the short
-- ones of RFC 6455 without a mask: a byte with FIN and the opcode, a byte with the length, and the
-- payload.
use dserver_framework.Prelude.{
  ℕ, ◌+◌, ◌%◌, ◌≡◌, refl, Bool, true, false, Option, none, some, List, [], ◌∷◌, ◌++◌, map, flatten,
  arith, length, take, leb, ◌==◌, if◌then◌else◌,
}
use dserver_framework.BinPacket.Sample.{bin_sample, bin_sample-BinLaws}
use dserver_framework.Framing.{Frame}
use dserver_framework.WsConnectionServer.Cellnet.{new_sender, cellnet_on_msg}
use dserver_framework.WsConnectionServer.Cellnet.Stream.{
  Numbered, packet_of, cellnet_on_msg-packets,
}
use dserver_framework.WsConnectionServer.Cellnet.Serials.{sends, loops, Row, run, run-Row}
use dserver_framework.WsConnectionServer.WebFrame.{
  FrameType, continuation_frame, text_frame, binary_frame, ping_frame, pong_frame, other_frame,
  Extracted, WebLib, web_on_msg,
}
use dserver_framework.WsConnectionServer.WebFrame.Row.{
  Sent, IsFrame, bytes_of, shaken, continued, unfinished_silent,
}
use dserver_framework.WsConnectionServer.WebFrame.Packets.{
  Carried, IsCarried, frames_of, web_on_msg-packets,
}

abbrev pub greeting : Frame
greeting = record { op = 7; body = 104 ∷ 105 ∷ [] }

abbrev two_messages : List Numbered
two_messages = (1, greeting) ∷ (2, record { op = 300; body = [] }) ∷ []

cellnet_on_msg-packets_example :
    cellnet_on_msg bin_sample (
      flatten (map (packet_of bin_sample) two_messages)
      ++ take 3 (packet_of bin_sample (3, greeting)))
    ≡ (
      map (λ (m : Numbered). m.1) two_messages,
      length (flatten (map (packet_of bin_sample) two_messages)),
    )
unfolding bin_sample flatten
cellnet_on_msg-packets_example =
    cellnet_on_msg-packets bin_sample bin_sample-BinLaws two_messages (3, greeting) 3
      ((omega arith, omega arith, omega arith), ((omega arith, omega arith, omega arith), tt))
      (omega arith, omega arith, omega arith) (omega arith)

run-Row_example :
    Row bin_sample
      (run bin_sample (sends false 7 (1 ∷ []) ∷ sends true 8 (2 ∷ []) ∷ loops ∷ []) new_sender)
run-Row_example = run-Row bin_sample (sends false 7 (1 ∷ []) ∷ sends true 8 (2 ∷ []) ∷ loops ∷ [])

frame_type : ℕ → FrameType
frame_type n =
    if n == 0
    then continuation_frame
    else if n == 1
    then text_frame
    else if n == 2
    then binary_frame
    else if n == 9
    then ping_frame
    else if n == 10
    then pong_frame
    else other_frame

pub extract : List ℕ → Option Extracted
unfolding frame_type
extract (a ∷ n ∷ bs) =
    if leb n (length bs)
    then some (record {
      payload = take n bs;
      opcode = frame_type (a % 16);
      frame_size = n + 2;
      is_fin = leb 128 a;
    })
    else none
extract _ = none

abbrev pub web : WebLib
web = record {
  bin = bin_sample;
  reader_order = true;
  writer_grows = false;
  len_mod = 65536;
  ws_handshake = λ key. key;
  ws_frame_extract = extract;
  ws_frame_build = λ bs. some (129 ∷ length bs ∷ bs);
}

abbrev greeting_bytes : List ℕ
greeting_bytes = 123 ∷ 16 ∷ 0 ∷ 0 ∷ 0 ∷ 7 ∷ 0 ∷ 0 ∷ 0 ∷ 1 ∷ 0 ∷ 0 ∷ 0 ∷ 104 ∷ 105 ∷ 125 ∷ []

abbrev greeting_frame : Sent
greeting_frame = (
  129 ∷ 16 ∷ greeting_bytes,
  record { payload = greeting_bytes; opcode = text_frame; frame_size = 18; is_fin = true },
)

abbrev pub carried : Carried
carried = record { sent = greeting_frame; packet = greeting; serial = 1 }

pub carried-IsCarried : IsCarried web carried
unfolding extract frame_type flatten bin_sample
carried-IsCarried = record {
  frame = record { extracted = λ rest. ground arith; sized = refl; long = omega arith };
  final = refl;
  of_data = refl;
  packed = refl;
  op_fits = omega arith;
  body_fits = omega arith;
}

web_on_msg-packets_example :
    let row = frames_of (carried ∷ carried ∷ []) in
    web_on_msg web ((bytes_of row ++ (129 ∷ 16 ∷ [])) ++ (1 ∷ [])) 38 (shaken [])
    ≡ record { calls = greeting ∷ greeting ∷ []; proc_len = 36; session = shaken []; sent = [] }
unfolding flatten
web_on_msg-packets_example =
    web_on_msg-packets web bin_sample-BinLaws (carried ∷ carried ∷ []) (129 ∷ 16 ∷ []) (1 ∷ [])
      (carried-IsCarried, (carried-IsCarried, tt)) refl (omega arith)

-- The two frames of one packet that is sent in two pieces.
abbrev piece : ℕ → FrameType → Bool → Sent
piece head opcode is_fin = (
  head ∷ 12 ∷ take 12 greeting_bytes,
  record { payload = take 12 greeting_bytes; opcode = opcode; frame_size = 14; is_fin = is_fin },
)

abbrev pieces : List Sent
pieces = piece 1 text_frame false ∷ piece 128 continuation_frame true ∷ []

first-IsFrame : IsFrame web (piece 1 text_frame false)
unfolding extract frame_type
first-IsFrame = record { extracted = λ rest. ground arith; sized = refl; long = omega arith }

last-IsFrame : IsFrame web (piece 128 continuation_frame true)
unfolding extract frame_type
last-IsFrame = record { extracted = λ rest. ground arith; sized = refl; long = omega arith }

unfinished_silent_example :
    web_on_msg web ((bytes_of pieces ++ []) ++ []) 28 (shaken [])
    ≡ record { calls = []; proc_len = 28; session = shaken (take 12 greeting_bytes); sent = [] }
unfolding flatten continued
unfinished_silent_example =
    unfinished_silent web pieces [] [] [] (first-IsFrame, (last-IsFrame, tt)) (refl, (refl, tt))
      refl (omega arith)
