-- ===== src/Wire.antt =====
-- The packet library that the servers call (packet.h of the networking library, which the repository
-- does not contain): writers and readers over bytes, as a parameter of the model, and what the
-- servers rely on. A `Packet` is its bytes; a `ReadPacket` is the bytes that it has not read yet.
pub mod Sample
pub mod Reading
use dserver_framework.Prelude.{
  ℕ, ◌+◌, ◌≤◌, ◌<◌, ◌^◌, ◌≡◌, Bool, Option, some, List, ◌++◌, length, drop,
}

pub record PacketLib : Type 0 where
  -- PACKET_HEAD_LEN, and 2 to the width of PACKET_LEN_TYPE
  pub head_len : ℕ
  pub len_mod : ℕ
  -- the two fields of the head, read from the start of a packet: readPacketLen(), then readOP()
  pub read_packet_len : List ℕ → ℕ
  pub read_op : List ℕ → ℕ
  -- a packet of an op and of the bytes that were written to it
  pub make_packet : ℕ → List ℕ → List ℕ
  pub write_int16 : ℕ → List ℕ
  pub write_int32 : ℕ → List ℕ
  pub write_int64 : ℕ → List ℕ
  pub write_bool : Bool → List ℕ
  pub write_binary : List ℕ → List ℕ
  pub read_int16 : List ℕ → ℕ × List ℕ
  pub read_int32 : List ℕ → ℕ × List ℕ
  pub read_int64 : List ℕ → ℕ × List ℕ
  pub read_bool : List ℕ → Bool × List ℕ
  -- std::string readBinary(), and bool readBinary(const char*&, size_t&): `none` for false
  pub read_string : List ℕ → List ℕ × List ℕ
  pub read_binary : List ℕ → Option (List ℕ) × List ℕ

-- What onMsg reads of a packet: the length of the head, 2 to the width of the counter of the bytes
-- that are left, and the two fields of the head.
pub record Head : Type 0 where
  pub head_len : ℕ
  pub len_mod : ℕ
  pub read_packet_len : List ℕ → ℕ
  pub read_op : List ℕ → ℕ

abbrev pub head_of : PacketLib → Head
head_of lib = record {
  head_len = lib.head_len;
  len_mod = lib.len_mod;
  read_packet_len = lib.read_packet_len;
  read_op = lib.read_op;
}

-- The head is read from the first `head_len` bytes alone.
pub record HeadLaws (head : Head) : Type 0 where
  pub head_pos : 0 < head.head_len
  pub len_local :
      (front more : List ℕ)
      → head.head_len ≤ length front
      → head.read_packet_len (front ++ more) ≡ head.read_packet_len front
  pub op_local :
      (front more : List ℕ)
      → head.head_len ≤ length front
      → head.read_op (front ++ more) ≡ head.read_op front

-- What was written is read back, in the same order. `max_body` bounds what fits a packet.
pub record PacketLaws (lib : PacketLib) (max_body : ℕ) : Type 0 where
  pub head : HeadLaws (head_of lib)
  pub length_packet :
      (op : ℕ) (body : List ℕ) → length (lib.make_packet op body) ≡ lib.head_len + length body
  pub body_packet : (op : ℕ) (body : List ℕ) → drop lib.head_len (lib.make_packet op body) ≡ body
  pub len_packet :
      (op : ℕ) (body : List ℕ)
      → op < 2 ^ 16
      → length body ≤ max_body
      → lib.read_packet_len (lib.make_packet op body) ≡ lib.head_len + length body
  pub op_packet :
      (op : ℕ) (body : List ℕ) → op < 2 ^ 16 → lib.read_op (lib.make_packet op body) ≡ op
  pub int16_back :
      (v : ℕ) (rest : List ℕ) → v < 2 ^ 16 → lib.read_int16 (lib.write_int16 v ++ rest) ≡ (v, rest)
  pub int32_back :
      (v : ℕ) (rest : List ℕ) → v < 2 ^ 32 → lib.read_int32 (lib.write_int32 v ++ rest) ≡ (v, rest)
  pub int64_back :
      (v : ℕ) (rest : List ℕ) → v < 2 ^ 64 → lib.read_int64 (lib.write_int64 v ++ rest) ≡ (v, rest)
  pub bool_back : (b : Bool) (rest : List ℕ) → lib.read_bool (lib.write_bool b ++ rest) ≡ (b, rest)
  pub string_back :
      (s rest : List ℕ)
      → length s ≤ max_body
      → lib.read_string (lib.write_binary s ++ rest) ≡ (s, rest)
  pub binary_back :
      (s rest : List ℕ)
      → length s ≤ max_body
      → lib.read_binary (lib.write_binary s ++ rest) ≡ (some s, rest)
