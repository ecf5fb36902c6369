-- ===== src/Framing.antt =====
-- Common/UsePacketSingleNetSession.cpp and Common/UsePacketExtNetSession.cpp: cutting the bytes that
-- a connection has received into packets. The bytes stand in a list, `parse_str` is the list from
-- that place on, and the calls that the loop makes are listed in their order.
pub mod Loop
pub mod Stream
pub mod Delivery
use dserver_framework.Prelude.{
  ℕ, zero, suc, ◌+◌, ◌-◌, ◌%◌, Bool, ◌&&◌, List, [], ◌∷◌, length, take, drop, leb, if◌then◌else◌,
}
use dserver_framework.Wire.{Head}

-- A call procPacket(op, body, bodyLen).
pub record Frame : Type 0 where
  pub op : ℕ
  pub body : List ℕ

module _ (head : Head) where
  -- `flag`: the head is there, and so is the packet that it announces.
  abbrev pub has_packet : ℕ → ℕ → Bool
  has_packet left packet_len =
      leb head.head_len left && (leb packet_len left && leb head.head_len packet_len)

  -- while (true). `call` is what the loop calls on the bytes that are left and the packet's length;
  -- the result is the list of calls, and total_proc_len.
  unfoldable pub packet_loop {ℓ} : {A : Type ℓ} → (List ℕ → ℕ → A) → ℕ → List ℕ → ℕ → ℕ → List A × ℕ
  packet_loop call zero parse_str total left = ([], total)
  packet_loop call (suc fuel) parse_str total left =
      let packet_len = head.read_packet_len (take left parse_str) in
      let rest =
        packet_loop call fuel (drop packet_len parse_str) (total + packet_len)
          (left - packet_len) in
      if has_packet left packet_len
      then (call (take left parse_str) packet_len ∷ rest.0, rest.1)
      else ([], total)

  -- procPacket(op, parse_str + PACKET_HEAD_LEN, packet_len - PACKET_HEAD_LEN)
  abbrev pub split_packet : List ℕ → ℕ → Frame
  split_packet bytes packet_len = record {
    op = head.read_op bytes;
    body = take (packet_len - head.head_len) (drop head.head_len bytes);
  }

  -- UsePacketSingleNetSession::onMsg. Each round takes a byte at least, so `len` rounds are enough.
  unfoldable pub single_on_msg : List ℕ → List Frame × ℕ
  single_on_msg buffer =
      packet_loop split_packet (length buffer + 1) buffer 0 (length buffer % head.len_mod)

  -- UsePacketExtNetSession::onMsg. It hands over whole packets, and does not cut `len` down.
  unfoldable pub ext_on_msg : List ℕ → List (List ℕ) × ℕ
  ext_on_msg buffer =
      packet_loop (λ bytes packet_len. take packet_len bytes) (length buffer + 1) buffer 0
        (length buffer)
