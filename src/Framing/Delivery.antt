-- ===== src/Framing/Delivery.antt =====
-- Packets that one side wrote, cut out of the stream by the other side.
use dserver_framework.Prelude.{
  ℕ, ◌≤◌, ◌<◌, ◌^◌, ◌≡◌, refl, sym, ap, ◌∙◌, List, [], ◌∷◌, ◌++◌, map, flatten, arith, length, take,
  drop, All, length-take, take-append-drop,
}
use dserver_framework.Wire.{PacketLib, PacketLaws, head_of}
use dserver_framework.Framing.{Frame, single_on_msg}
use dserver_framework.Framing.Loop.{IsPacket, IsStuck}
use dserver_framework.Framing.Stream.{frame_of, single_on_msg_row}

-- The packet that a sender makes of an op and a body.
abbrev pub packet_of : PacketLib → Frame → List ℕ
packet_of lib f = lib.make_packet f.op f.body

abbrev pub Fits : ℕ → Frame → Type 0
Fits max_body f = (f.op < 2 ^ 16) × (length f.body ≤ max_body)

module _ (lib : PacketLib) (max_body : ℕ) (laws : PacketLaws lib max_body) where
  pub packet_of-IsPacket : (f : Frame) → Fits max_body f → IsPacket (head_of lib) (packet_of lib f)
  packet_of-IsPacket f h = record {
    headed = omega (arith, laws.length_packet f.op f.body);
    announced = laws.len_packet f.op f.body h.0 h.1 ∙ sym (laws.length_packet f.op f.body);
  }

  frame_of-packet_of : (f : Frame) → Fits max_body f → frame_of (head_of lib) (packet_of lib f) ≡ f
  frame_of-packet_of f h = rw (laws.op_packet f.op f.body h.0, laws.body_packet f.op f.body)

  packets-IsPacket :
      (fs : List Frame)
      → All (Fits max_body) fs
      → All (IsPacket (head_of lib)) (map (packet_of lib) fs)
  packets-IsPacket [] h = tt
  packets-IsPacket (f ∷ fs) h = (packet_of-IsPacket f h.0, packets-IsPacket fs h.1)

  frames-packets :
      (fs : List Frame)
      → All (Fits max_body) fs
      → map (frame_of (head_of lib)) (map (packet_of lib) fs) ≡ fs
  frames-packets [] h = refl
  frames-packets (f ∷ fs) h = rw (frame_of-packet_of f h.0, frames-packets fs h.1)

  -- A packet that has not arrived whole is left alone.
  part-IsStuck :
      (f : Frame) (n : ℕ)
      → Fits max_body f
      → n < length (packet_of lib f)
      → IsStuck (head_of lib) (take n (packet_of lib f))
  part-IsStuck f n h short = ground (
    arith,
    length-take n (packet_of lib f),
    laws.head.len_local (take n (packet_of lib f)) (drop n (packet_of lib f)),
    take-append-drop n (packet_of lib f),
    packet_of-IsPacket f h,
  )

  -- Any row of packets that a sender wrote, with a part of one more behind it, leads to one call of
  -- procPacket for each whole packet, in order, with the op and the body that were written; the part
  -- is left in the buffer. The packets fit their library, and the buffer's length the counter.
  pub single_on_msg-packets :
      (fs : List Frame) (last : Frame) (n : ℕ)
      → All (Fits max_body) fs
      → Fits max_body last
      → n < length (packet_of lib last)
      → length (flatten (map (packet_of lib) fs) ++ take n (packet_of lib last)) < lib.len_mod
      → single_on_msg
          (head_of lib)
          (flatten (map (packet_of lib) fs) ++ take n (packet_of lib last))
        ≡ (fs, length (flatten (map (packet_of lib) fs)))
  single_on_msg-packets fs last n h hl short room =
      single_on_msg_row (head_of lib) laws.head (map (packet_of lib) fs)
        (take n (packet_of lib last)) (packets-IsPacket fs h) (part-IsStuck last n hl short) room
      ∙ ap (λ gs. (gs, length (flatten (map (packet_of lib) fs)))) (frames-packets fs h)
