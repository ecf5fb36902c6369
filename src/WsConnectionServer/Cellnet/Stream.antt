-- ===== src/WsConnectionServer/Cellnet/Stream.antt =====
-- The packets to the logic servers, as the other side's onMsg would cut them out of its stream.
use dserver_framework.Prelude.{
  ℕ, ◌+◌, ◌%◌, ◌^◌, ◌≤◌, ◌<◌, ◌≡◌, refl, sym, ap, ◌∙◌, false, List, [], ◌∷◌, ◌++◌, map, flatten,
  append-nil, append_assoc, arith, length, take, drop, All, length-append, length-drop, length-take,
  take-append-drop, drop-append, drop_field,
}
use dserver_framework.BinPacket.{BinLib, BinLaws, uint16, uint32, buffer}
use dserver_framework.Wire.{HeadLaws}
use dserver_framework.Framing.{Frame}
use dserver_framework.Framing.Loop.{IsPacket, IsStuck}
use dserver_framework.Framing.Stream.{frame_of, split_row}
use dserver_framework.WsConnectionServer.Cellnet.{
  cellnet_head, cellnet_packet, cellnet_on_msg, serial_of,
}

-- A packet's serial number, op and body.
abbrev pub Numbered : Type 0
Numbered = ℕ × Frame

abbrev pub packet_of : BinLib → Numbered → List ℕ
packet_of lib m = cellnet_packet lib m.1.op m.0 m.1.body

abbrev pub Fits : Numbered → Type 0
Fits m = (m.0 < 2 ^ 16) × (m.1.op < 2 ^ 32) × (length m.1.body + 8 < 2 ^ 16)

module _ (lib : BinLib) (laws : BinLaws lib) where
  cellnet-HeadLaws : HeadLaws (cellnet_head lib)
  cellnet-HeadLaws = record {
    head_pos = omega arith;
    len_local = λ front more h. len_local front more h;
    op_local = λ front more h. laws.uint32_local false front more (omega arith);
  }
    where
      len_local :
          (front more : List ℕ)
          → 8 ≤ length front
          → (cellnet_head lib).read_packet_len (front ++ more)
            ≡ (cellnet_head lib).read_packet_len front
      len_local front more h =
          rw
            (
              laws.uint32_rest false (front ++ more),
              laws.uint32_rest false front,
              drop-append 4 front more (omega arith),
              laws.uint16_rest false (drop 4 front ++ more),
              laws.uint16_rest false (drop 4 front),
              drop-append 2 (drop 4 front) more (omega (arith, length-drop 4 front)),
            )
            (laws.uint16_local false (drop 2 (drop 4 front)) more
              (omega (arith, length-drop 2 (drop 4 front), length-drop 4 front)))

  -- The head's fields and the body, as they are written.
  as_written :
      (cmd ser : ℕ) (bytes : List ℕ)
      → cellnet_packet lib cmd ser bytes
        ≡ lib.encode false (uint32 cmd)
          ++ (lib.encode false (uint16 ser)
              ++ (lib.encode false (uint16 ((length bytes + 8) % 2 ^ 16)) ++ bytes))
  unfolding flatten
  as_written cmd ser bytes =
      laws.written_grows 8192 false
        (uint32 cmd ∷ uint16 ser ∷ uint16 ((length bytes + 8) % 2 ^ 16) ∷ buffer bytes ∷ [])
      ∙ rw (append-nil, laws.encode_buffer false bytes)

  length-cellnet_packet :
      (cmd ser : ℕ) (bytes : List ℕ) → length (cellnet_packet lib cmd ser bytes) ≡ length bytes + 8
  length-cellnet_packet cmd ser bytes =
      let a = lib.encode false (uint32 cmd) in
      let b = lib.encode false (uint16 ser) in
      let c = lib.encode false (uint16 ((length bytes + 8) % 2 ^ 16)) in
      rw (as_written cmd ser bytes) (
        omega (
          arith,
          length-append a (b ++ (c ++ bytes)),
          length-append b (c ++ bytes),
          length-append c bytes,
          laws.length_uint32 false cmd,
          laws.length_uint16 false ser,
          laws.length_uint16 false ((length bytes + 8) % 2 ^ 16),
        ))

  body_back : (cmd ser : ℕ) (bytes : List ℕ) → drop 8 (cellnet_packet lib cmd ser bytes) ≡ bytes
  body_back cmd ser bytes =
      let a = lib.encode false (uint32 cmd) in
      let b = lib.encode false (uint16 ser) in
      let c = lib.encode false (uint16 ((length bytes + 8) % 2 ^ 16)) in
      let size : length (a ++ (b ++ c)) ≡ 8 = omega (
        arith,
        length-append a (b ++ c),
        length-append b c,
        laws.length_uint32 false cmd,
        laws.length_uint16 false ser,
        laws.length_uint16 false ((length bytes + 8) % 2 ^ 16),
      ) in
      ap (drop 8) (
        as_written cmd ser bytes
        ∙ ap (◌++◌ a) (sym (append_assoc b c bytes))
        ∙ sym (append_assoc a (b ++ c) bytes))
      ∙ drop_field (a ++ (b ++ c)) bytes size

  op_back :
      (cmd ser : ℕ) (bytes : List ℕ)
      → cmd < 2 ^ 32
      → (cellnet_head lib).read_op (cellnet_packet lib cmd ser bytes) ≡ cmd
  op_back cmd ser bytes h = rw (as_written cmd ser bytes) (laws.uint32_back false cmd _ h)

  -- What is left behind the op.
  behind_op :
      (cmd ser : ℕ) (bytes : List ℕ)
      → (lib.read_uint32 false (cellnet_packet lib cmd ser bytes)).1
        ≡ lib.encode false (uint16 ser)
          ++ (lib.encode false (uint16 ((length bytes + 8) % 2 ^ 16)) ++ bytes)
  behind_op cmd ser bytes =
      laws.uint32_rest false (cellnet_packet lib cmd ser bytes)
      ∙ ap (drop 4) (as_written cmd ser bytes)
      ∙ drop_field (lib.encode false (uint32 cmd)) _ (laws.length_uint32 false cmd)

  serial_back :
      (cmd ser : ℕ) (bytes : List ℕ)
      → ser < 2 ^ 16
      → serial_of lib (cellnet_packet lib cmd ser bytes) ≡ ser
  serial_back cmd ser bytes h =
      ap (λ bs. (lib.read_uint16 false bs).0) (behind_op cmd ser bytes)
      ∙ laws.uint16_back false ser _ h

  len_back :
      (cmd ser : ℕ) (bytes : List ℕ)
      → length bytes + 8 < 2 ^ 16
      → (cellnet_head lib).read_packet_len (cellnet_packet lib cmd ser bytes) ≡ length bytes + 8
  len_back cmd ser bytes h =
      let b = lib.encode false (uint16 ser) in
      let rest = lib.encode false (uint16 ((length bytes + 8) % 2 ^ 16)) ++ bytes in
      ap (λ bs. (lib.read_uint16 false (lib.read_uint16 false bs).1).0) (behind_op cmd ser bytes)
      ∙ ap (λ bs. (lib.read_uint16 false bs).0)
          (laws.uint16_rest false (b ++ rest) ∙ drop_field b rest (laws.length_uint16 false ser))
      ∙ laws.uint16_back false ((length bytes + 8) % 2 ^ 16) bytes (omega arith)
      ∙ omega arith

  packet_of-IsPacket : (m : Numbered) → Fits m → IsPacket (cellnet_head lib) (packet_of lib m)
  packet_of-IsPacket (ser, f) h = record {
    headed = omega (arith, length-cellnet_packet f.op ser f.body);
    announced = len_back f.op ser f.body h.2 ∙ sym (length-cellnet_packet f.op ser f.body);
  }

  packets-IsPacket :
      (ms : List Numbered)
      → All Fits ms
      → All (IsPacket (cellnet_head lib)) (map (packet_of lib) ms)
  packets-IsPacket [] h = tt
  packets-IsPacket (m ∷ ms) h = (packet_of-IsPacket m h.0, packets-IsPacket ms h.1)

  frames-packets :
      (ms : List Numbered)
      → All Fits ms
      → map (frame_of (cellnet_head lib)) (map (packet_of lib) ms) ≡ map (λ (m : Numbered). m.1) ms
  frames-packets [] h = refl
  frames-packets ((ser, f) ∷ ms) h =
      rw (op_back f.op ser f.body h.0.1, body_back f.op ser f.body, frames-packets ms h.1)

  part-IsStuck :
      (m : Numbered) (n : ℕ)
      → Fits m
      → n < length (packet_of lib m)
      → IsStuck (cellnet_head lib) (take n (packet_of lib m))
  part-IsStuck m n h short = ground (
    arith,
    length-take n (packet_of lib m),
    cellnet-HeadLaws.len_local (take n (packet_of lib m)) (drop n (packet_of lib m)),
    take-append-drop n (packet_of lib m),
    packet_of-IsPacket m h,
  )

  -- Any row of packets as helpSendPacketInLoop writes them, with a part of one more behind it, leads
  -- to one call of procPacket for each whole packet, in order, with the op and the body that were
  -- sent; the part stays in the buffer. The ops and the serial numbers fit their fields, and a body
  -- has less than 2 ^ 16 - 8 bytes.
  pub cellnet_on_msg-packets :
      (ms : List Numbered) (last : Numbered) (n : ℕ)
      → All Fits ms
      → Fits last
      → n < length (packet_of lib last)
      → cellnet_on_msg lib (flatten (map (packet_of lib) ms) ++ take n (packet_of lib last))
        ≡ (map (λ (m : Numbered). m.1) ms, length (flatten (map (packet_of lib) ms)))
  unfolding cellnet_on_msg
  cellnet_on_msg-packets ms last n h hl short =
      split_row (cellnet_head lib) cellnet-HeadLaws (map (packet_of lib) ms)
        (take n (packet_of lib last)) (packets-IsPacket ms h) (part-IsStuck last n hl short)
      ∙ ap (λ fs. (fs, length (flatten (map (packet_of lib) ms)))) (frames-packets ms h)
