-- ===== src/WsConnectionServer/WebFrame/Packets.antt =====
-- The packets of web socket clients, each in one frame.
use dserver_framework.Prelude.{
  ℕ, ◌+◌, ◌%◌, ◌^◌, ◌≤◌, ◌<◌, ◌≡◌, refl, ap, ◌∙◌, true, List, [], ◌∷◌, ◌++◌, map, flatten, arith,
  length, All, length-append, take-length-append, drop_field,
}
use native.Mathlib.Nat.{mod-eq_of_lt}
use dserver_framework.BinPacket.{BinLaws, int8, uint32, buffer, encoded}
use dserver_framework.Framing.{Frame}
use dserver_framework.WsConnectionServer.WebFrame.{
  WebLib, is_data, packet_call, proc_frame, web_on_msg, client_fields, help_send_packet,
}
use dserver_framework.WsConnectionServer.WebFrame.Row.{
  Sent, IsFrame, IsWaiting, bytes_of, proc_frames, shaken, web_on_msg_row,
}

-- A frame, and the packet in it: its op, body and serial id.
pub record Carried : Type 0 where
  pub sent : Sent
  pub packet : Frame
  pub serial : ℕ

abbrev pub frames_of : List Carried → List Sent
frames_of cs = map (λ (c : Carried). c.sent) cs

abbrev pub packet_bytes : WebLib → Frame → ℕ → List ℕ
packet_bytes lib f serial = encoded lib.bin lib.reader_order (client_fields lib f.op serial f.body)

-- One final frame of text or bytes has the whole packet, and the op and the length fit their fields.
pub record IsCarried (lib : WebLib) (c : Carried) : Type 0 where
  pub frame : IsFrame lib c.sent
  pub final : c.sent.1.is_fin ≡ true
  pub of_data : is_data c.sent.1.opcode ≡ true
  pub packed : c.sent.1.payload ≡ packet_bytes lib c.packet c.serial
  pub op_fits : c.packet.op < 2 ^ 32
  pub body_fits : length c.packet.body + 14 < 2 ^ 32

module _ (lib : WebLib) (laws : BinLaws lib.bin) where
  -- A number's bytes in front of the rest: what is behind them.
  behind32 :
      (v : ℕ) (rest : List ℕ)
      → (lib.bin.read_uint32 lib.reader_order
          (lib.bin.encode lib.reader_order (uint32 v) ++ rest)).1
        ≡ rest
  behind32 v rest =
      laws.uint32_rest lib.reader_order (lib.bin.encode lib.reader_order (uint32 v) ++ rest)
      ∙ drop_field (lib.bin.encode lib.reader_order (uint32 v)) rest
          (laws.length_uint32 lib.reader_order v)

  behind8 :
      (v : ℕ) (rest : List ℕ)
      → (lib.bin.read_int8 (lib.bin.encode lib.reader_order (int8 v) ++ rest)).1 ≡ rest
  behind8 v rest =
      laws.int8_rest (lib.bin.encode lib.reader_order (int8 v) ++ rest)
      ∙ drop_field (lib.bin.encode lib.reader_order (int8 v)) rest
          (laws.length_int8 lib.reader_order v)

  length-packet_bytes :
      (f : Frame) (serial : ℕ) → length (packet_bytes lib f serial) ≡ length f.body + 14
  unfolding flatten
  length-packet_bytes f serial =
      let enc = lib.bin.encode lib.reader_order in
      let z = enc (int8 125) ++ [] in
      let e = enc (buffer f.body) ++ z in
      let d = enc (uint32 serial) ++ e in
      let c = enc (uint32 f.op) ++ d in
      let len = uint32 ((length f.body + 14) % 2 ^ 32) in
      omega (
        arith,
        length-append (enc (int8 123)) (enc len ++ c),
        length-append (enc len) c,
        length-append (enc (uint32 f.op)) d,
        length-append (enc (uint32 serial)) e,
        length-append (enc (buffer f.body)) z,
        length-append (enc (int8 125)) [],
        laws.length_int8 lib.reader_order 123,
        laws.length_uint32 lib.reader_order ((length f.body + 14) % 2 ^ 32),
        laws.length_uint32 lib.reader_order f.op,
        laws.length_uint32 lib.reader_order serial,
        ap length (laws.encode_buffer lib.reader_order f.body),
        laws.length_int8 lib.reader_order 125,
      )

  -- The call, by what each of the reads leaves behind.
  packet_call_lem :
      (f : Frame) (payload b c d z : List ℕ)
      → let read = lib.bin.read_uint32 lib.reader_order in
        (lib.bin.read_int8 payload).1 ≡ b
        → (read b).0 ≡ length f.body + 14
        → (read b).1 ≡ c
        → (read c).0 ≡ f.op
        → (read c).1 ≡ d
        → (read d).1 ≡ f.body ++ z
        → length payload ≡ length f.body + 14
        → packet_call lib payload ≡ f ∷ []
  unfolding packet_call
  packet_call_lem f payload b c d z r8 len rb op rc rd sized =
      rw (r8, len, rb, op, rc, rd, sized) (ground (arith, take-length-append f.body z))

  packet_call-packet_bytes :
      (f : Frame) (serial : ℕ)
      → f.op < 2 ^ 32
      → length f.body + 14 < 2 ^ 32
      → packet_call lib (packet_bytes lib f serial) ≡ f ∷ []
  unfolding flatten
  packet_call-packet_bytes f serial small short =
      let order = lib.reader_order in
      let enc = lib.bin.encode order in
      let z = enc (int8 125) ++ [] in
      let d = enc (uint32 serial) ++ (enc (buffer f.body) ++ z) in
      let c = enc (uint32 f.op) ++ d in
      let n = (length f.body + 14) % 2 ^ 32 in
      packet_call_lem f (packet_bytes lib f serial) (enc (uint32 n) ++ c) c d z
        (behind8 123 (enc (uint32 n) ++ c))
        (laws.uint32_back order n c (omega arith) ∙ mod-eq_of_lt short) (behind32 n c)
        (laws.uint32_back order f.op d small) (behind32 f.op d)
        (behind32 serial (enc (buffer f.body) ++ z)
          ∙ ap (λ bs. bs ++ z) (laws.encode_buffer order f.body))
        (length-packet_bytes f serial)

  proc_frames-IsCarried :
      (cs : List Carried)
      → All (IsCarried lib) cs
      → proc_frames lib (frames_of cs) [] ≡ (map (λ (c : Carried). c.packet) cs, [])
  unfolding proc_frames proc_frame
  proc_frames-IsCarried [] h = refl
  proc_frames-IsCarried (c ∷ cs) h =
      let one = packet_call-packet_bytes c.packet c.serial h.0.op_fits h.0.body_fits in
      rw (h.0.final, h.0.of_data, h.0.packed, one, proc_frames-IsCarried cs h.1)

  frames : (cs : List Carried) → All (IsCarried lib) cs → All (IsFrame lib) (frames_of cs)
  frames [] h = tt
  frames (c ∷ cs) h = (h.0.frame, frames cs h.1)

  -- Any row of frames each of which has one whole packet of a client leads to one call of procPacket
  -- for each, in order, with the op and the body that the packet was written with; a part of one more
  -- frame stays in the buffer. The session has shaken hands and has no part of a message, and
  -- PACKET_LEN_TYPE can hold the length.
  pub web_on_msg-packets :
      (cs : List Carried) (tail more : List ℕ)
      → All (IsCarried lib) cs
      → IsWaiting lib tail
      → length (bytes_of (frames_of cs) ++ tail) < lib.len_mod
      → let row = frames_of cs in
        web_on_msg lib ((bytes_of row ++ tail) ++ more) (length (bytes_of row ++ tail)) (shaken [])
        ≡ record {
          calls = map (λ (c : Carried). c.packet) cs;
          proc_len = length (bytes_of row);
          session = shaken [];
          sent = [];
        }
  web_on_msg-packets cs tail more h w small =
      web_on_msg_row lib (frames_of cs) tail more [] (frames cs h) w small
      ∙ rw (proc_frames-IsCarried cs h) refl

  -- A packet to a client is one text frame with bytes that a reader in the same order takes for one
  -- packet with the op and the body. They fit the writer's 8192 bytes.
  sent_is_read :
      (f : Frame) (serial : ℕ)
      → lib.reader_order ≡ true
      → f.op < 2 ^ 32
      → length f.body + 14 ≤ 8192
      → (help_send_packet lib f.op f.body serial
          ≡ ((serial + 1) % 2 ^ 32, lib.ws_frame_build (packet_bytes lib f serial)))
        × (packet_call lib (packet_bytes lib f serial) ≡ f ∷ [])
  unfolding help_send_packet
  sent_is_read f serial big small short =
      let fields = client_fields lib f.op serial f.body in
      let same : encoded lib.bin true fields ≡ packet_bytes lib f serial = rw big refl in
      let fits : length (encoded lib.bin true fields) ≤ 8192 =
        omega (arith, ap length same, length-packet_bytes f serial) in
      (
        ap (λ bs. ((serial + 1) % 2 ^ 32, lib.ws_frame_build bs))
            (laws.written_fits 8192 lib.writer_grows true fields fits ∙ same),
        packet_call-packet_bytes f serial small (omega arith),
      )
