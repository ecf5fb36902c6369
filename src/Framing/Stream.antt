-- ===== src/Framing/Stream.antt =====
-- What the two onMsg functions make of a stream of bytes, however it is cut into deliveries.
use dserver_framework.Prelude.{
  ℕ, ◌+◌, ◌-◌, ◌≤◌, ◌<◌, ◌≡◌, sym, ap, ◌∙◌, List, [], ◌++◌, map, flatten, append_assoc, arith,
  length, take, drop, All, length-append, length-drop, take-length-append, drop-length-append,
  drop-append, flatten-append, All-append,
}
use native.Mathlib.Nat.{mod-eq_of_lt}
use mathlib.Core.List.{map-append, map-id}
use dserver_framework.Wire.{Head, HeadLaws}
use dserver_framework.Framing.{Frame, split_packet, packet_loop, single_on_msg, ext_on_msg}
use dserver_framework.Framing.Loop.{IsPacket, IsStuck, Cut, cut_bytes, packet_loop_lem}

-- The call that one whole packet leads to.
abbrev pub frame_of : Head → List ℕ → Frame
frame_of head p = record { op = head.read_op p; body = drop head.head_len p }

length-flatten-append :
    (xs ys : List (List ℕ))
    → length (flatten (xs ++ ys)) ≡ length (flatten xs) + length (flatten ys)
length-flatten-append xs ys = rw flatten-append (length-append (flatten xs) (flatten ys))

-- What is left of a buffer after its packets.
drop-Cut :
    {head : Head} (a : List ℕ) (c : Cut head a) → drop (length (flatten c.packets)) a ≡ c.tail
drop-Cut a c =
    ap (drop (length (flatten c.packets))) c.joined ∙ drop-length-append (flatten c.packets) c.tail

append-Cut :
    {head : Head} (a b : List ℕ) (c : Cut head a)
    → Cut head (drop (length (flatten c.packets)) a ++ b)
    → Cut head (a ++ b)
append-Cut {head} a b c d = record {
  packets = c.packets ++ d.packets;
  tail = d.tail;
  joined =
      ap (λ x. x ++ b) c.joined
      ∙ append_assoc (flatten c.packets) c.tail b
      ∙ ap (λ x. flatten c.packets ++ (x ++ b)) (sym (drop-Cut a c))
      ∙ ap (◌++◌ (flatten c.packets)) d.joined
      ∙ sym (append_assoc (flatten c.packets) (flatten d.packets) d.tail)
      ∙ ap (λ x. x ++ d.tail) (sym (flatten-append c.packets d.packets));
  whole = All-append (IsPacket head) c.packets d.packets c.whole d.whole;
  stuck = d.stuck;
}

module _ (head : Head) (laws : HeadLaws head) where
  split_packet-local :
      (p rest : List ℕ)
      → IsPacket head p
      → split_packet head (p ++ rest) (length p) ≡ frame_of head p
  split_packet-local p rest w =
      let n : length (drop head.head_len p) ≡ length p - head.head_len =
        length-drop head.head_len p in
      rw (
        laws.op_local p rest w.headed,
        drop-append head.head_len p rest w.headed,
        ← n,
        take-length-append (drop head.head_len p) rest,
      )

  pub split_row :
      (ps : List (List ℕ)) (tail : List ℕ)
      → All (IsPacket head) ps
      → IsStuck head tail
      → let bytes = flatten ps ++ tail in
        packet_loop head (split_packet head) (length bytes + 1) bytes 0 (length bytes)
        ≡ (map (frame_of head) ps, length (flatten ps))
  split_row ps tail w s =
      packet_loop_lem head laws (split_packet head) (frame_of head) split_packet-local ps tail
        (length (flatten ps ++ tail) + 1) 0 w s (omega arith)
      ∙ ap (λ n. (map (frame_of head) ps, n)) (omega arith)

  pub single_on_msg_row :
      (ps : List (List ℕ)) (tail : List ℕ)
      → All (IsPacket head) ps
      → IsStuck head tail
      → length (flatten ps ++ tail) < head.len_mod
      → single_on_msg head (flatten ps ++ tail) ≡ (map (frame_of head) ps, length (flatten ps))
  unfolding single_on_msg
  single_on_msg_row ps tail w s h = rw (mod-eq_of_lt h) (split_row ps tail w s)

  ext_on_msg_row :
      (ps : List (List ℕ)) (tail : List ℕ)
      → All (IsPacket head) ps
      → IsStuck head tail
      → ext_on_msg head (flatten ps ++ tail) ≡ (ps, length (flatten ps))
  unfolding ext_on_msg
  ext_on_msg_row ps tail w s =
      packet_loop_lem head laws (λ bytes n. take n bytes) (λ p. p)
        (λ p rest _. take-length-append p rest) ps tail (length (flatten ps ++ tail) + 1) 0 w s
        (omega arith)
      ∙ rw map-id (ap (λ n. (ps, n)) (omega arith))

  single_on_msg_on :
      (buffer : List ℕ) (c : Cut head buffer)
      → length buffer < head.len_mod
      → single_on_msg head buffer ≡ (map (frame_of head) c.packets, length (flatten c.packets))
  single_on_msg_on buffer c h =
      ap (single_on_msg head) c.joined
      ∙ single_on_msg_row c.packets c.tail c.whole c.stuck (rw c.joined at h)

  ext_on_msg_on :
      (buffer : List ℕ) (c : Cut head buffer)
      → ext_on_msg head buffer ≡ (c.packets, length (flatten c.packets))
  ext_on_msg_on buffer c =
      ap (ext_on_msg head) c.joined ∙ ext_on_msg_row c.packets c.tail c.whole c.stuck

  -- Every buffer whose length fits the counter is a row of whole packets and an unusable tail, such
  -- that onMsg calls procPacket for each packet in order, with its op and its body, and consumes
  -- exactly the packets' bytes.
  single_on_msg-Cut :
      (buffer : List ℕ)
      → length buffer < head.len_mod
      → (c : Cut head buffer) × (single_on_msg head buffer
          ≡ (map (frame_of head) c.packets, length (flatten c.packets)))
  single_on_msg-Cut buffer h =
      let c = cut_bytes head laws (length buffer + 1) buffer (omega arith) in
      (c, single_on_msg_on buffer c h)

  -- Every buffer is a row of whole packets and an unusable tail, such that onMsg hands over those
  -- packets in order and consumes exactly their bytes.
  pub ext_on_msg-Cut :
      (buffer : List ℕ)
      → (c : Cut head buffer) × (ext_on_msg head buffer ≡ (c.packets, length (flatten c.packets)))
  ext_on_msg-Cut buffer =
      let c = cut_bytes head laws (length buffer + 1) buffer (omega arith) in
      (c, ext_on_msg_on buffer c)

  ext_on_msg_pieces :
      (a b : List ℕ) (c : Cut head a) (d : Cut head (drop (length (flatten c.packets)) a ++ b))
      → ext_on_msg head (a ++ b)
        ≡ (c.packets ++ d.packets, length (flatten c.packets) + length (flatten d.packets))
  unfolding append-Cut
  ext_on_msg_pieces a b c d =
      ext_on_msg_on (a ++ b) (append-Cut a b c d)
      ∙ ap (λ n. (c.packets ++ d.packets, n)) (length-flatten-append c.packets d.packets)

  single_on_msg_pieces :
      (a b : List ℕ) (c : Cut head a) (d : Cut head (drop (length (flatten c.packets)) a ++ b))
      → length (a ++ b) < head.len_mod
      → single_on_msg head (a ++ b) ≡ (
        map (frame_of head) c.packets ++ map (frame_of head) d.packets,
        length (flatten c.packets) + length (flatten d.packets),
      )
  unfolding append-Cut
  single_on_msg_pieces a b c d h =
      single_on_msg_on (a ++ b) (append-Cut a b c d) h
      ∙ rw (map-append, length-flatten-append c.packets d.packets)

  -- A stream may be delivered in any two pieces, the rest of the first being kept for the second:
  -- the packets handed over and the bytes consumed are those of the stream in one piece.
  ext_on_msg-append :
      (a b : List ℕ)
      → let first = ext_on_msg head a in
        let second = ext_on_msg head (drop first.1 a ++ b) in
        ext_on_msg head (a ++ b) ≡ (first.0 ++ second.0, first.1 + second.1)
  ext_on_msg-append a b =
      let (c, e) = ext_on_msg-Cut a in
      let (d, f) = ext_on_msg-Cut (drop (length (flatten c.packets)) a ++ b) in
      rw (e, f) (ext_on_msg_pieces a b c d)

  -- The same for procPacket, where the lengths fit the counter.
  pub single_on_msg-append :
      (a b : List ℕ)
      → length (a ++ b) < head.len_mod
      → let first = single_on_msg head a in
        let second = single_on_msg head (drop first.1 a ++ b) in
        single_on_msg head (a ++ b) ≡ (first.0 ++ second.0, first.1 + second.1)
  single_on_msg-append a b h =
      let (c, e) = single_on_msg-Cut a (omega (arith, length-append a b)) in
      let size : length (drop (length (flatten c.packets)) a ++ b) < head.len_mod = omega (
        arith,
        length-append (drop (length (flatten c.packets)) a) b,
        length-drop (length (flatten c.packets)) a,
        length-append a b,
      ) in
      let (d, f) = single_on_msg-Cut (drop (length (flatten c.packets)) a ++ b) size in
      rw (e, f) (single_on_msg_pieces a b c d h)

  -- Where the length fits the counter, the two functions make the same packets of a buffer.
  single-ext_on_msg :
      (buffer : List ℕ)
      → length buffer < head.len_mod
      → single_on_msg head buffer
        ≡ (map (frame_of head) (ext_on_msg head buffer).0, (ext_on_msg head buffer).1)
  single-ext_on_msg buffer h =
      let (c, e) = ext_on_msg-Cut buffer in rw e (single_on_msg_on buffer c h)

  -- A head that announces less than a head blocks the connection for good: whatever else arrives,
  -- nothing is handed over and nothing is consumed.
  ext_on_msg_blocked :
      (front more : List ℕ)
      → head.head_len ≤ length front
      → head.read_packet_len front < head.head_len
      → ext_on_msg head (front ++ more) ≡ ([], 0)
  unfolding flatten
  ext_on_msg_blocked front more h short =
      ext_on_msg_row [] (front ++ more) tt (ground (arith, laws.len_local front more h))
