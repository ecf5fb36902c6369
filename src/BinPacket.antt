-- ===== src/BinPacket.antt =====
-- BasePacketWriter and BasePacketReader of packet.h of the networking library, which the repository
-- does not contain: what WSConnectionServer writes and reads with them, as a parameter of the model.
pub mod Sample
use dserver_framework.Prelude.{
  ℕ, ◌≤◌, ◌<◌, ◌^◌, ◌≡◌, Bool, true, List, ◌++◌, map, flatten, length, drop,
}

-- writeINT8, writeUINT16, writeUINT32, writeBuffer
pub data Field : Type 0 where
  int8 : ℕ → Field
  uint16 : ℕ → Field
  uint32 : ℕ → Field
  buffer : List ℕ → Field

pub record BinLib : Type 0 where
  -- the bytes of one field, in the byte order that the constructor's third argument chooses
  pub encode : Bool → Field → List ℕ
  -- getData() up to getPos() of a writer on a buffer of so many bytes, with the third and the fourth
  -- argument of its constructor, after it was given the fields
  pub written : ℕ → Bool → Bool → List Field → List ℕ
  pub read_int8 : List ℕ → ℕ × List ℕ
  pub read_uint16 : Bool → List ℕ → ℕ × List ℕ
  pub read_uint32 : Bool → List ℕ → ℕ × List ℕ

abbrev pub encoded : BinLib → Bool → List Field → List ℕ
encoded lib order fs = flatten (map (lib.encode order) fs)

pub record BinLaws (lib : BinLib) : Type 0 where
  -- what fits the buffer is written as it is, and all is if the writer may allocate
  pub written_fits :
      (cap : ℕ) (grows order : Bool) (fs : List Field)
      → length (encoded lib order fs) ≤ cap
      → lib.written cap order grows fs ≡ encoded lib order fs
  pub written_grows :
      (cap : ℕ) (order : Bool) (fs : List Field)
      → lib.written cap order true fs ≡ encoded lib order fs
  pub encode_buffer : (order : Bool) (bs : List ℕ) → lib.encode order (buffer bs) ≡ bs
  pub length_int8 : (order : Bool) (v : ℕ) → length (lib.encode order (int8 v)) ≡ 1
  pub length_uint16 : (order : Bool) (v : ℕ) → length (lib.encode order (uint16 v)) ≡ 2
  pub length_uint32 : (order : Bool) (v : ℕ) → length (lib.encode order (uint32 v)) ≡ 4
  pub int8_rest : (bs : List ℕ) → (lib.read_int8 bs).1 ≡ drop 1 bs
  pub uint16_rest : (order : Bool) (bs : List ℕ) → (lib.read_uint16 order bs).1 ≡ drop 2 bs
  pub uint32_rest : (order : Bool) (bs : List ℕ) → (lib.read_uint32 order bs).1 ≡ drop 4 bs
  pub uint16_back :
      (order : Bool) (v : ℕ) (rest : List ℕ)
      → v < 2 ^ 16
      → (lib.read_uint16 order (lib.encode order (uint16 v) ++ rest)).0 ≡ v
  pub uint32_back :
      (order : Bool) (v : ℕ) (rest : List ℕ)
      → v < 2 ^ 32
      → (lib.read_uint32 order (lib.encode order (uint32 v) ++ rest)).0 ≡ v
  -- a number is read from its own bytes alone
  pub uint16_local :
      (order : Bool) (front more : List ℕ)
      → 2 ≤ length front
      → (lib.read_uint16 order (front ++ more)).0 ≡ (lib.read_uint16 order front).0
  pub uint32_local :
      (order : Bool) (front more : List ℕ)
      → 4 ≤ length front
      → (lib.read_uint32 order (front ++ more)).0 ≡ (lib.read_uint32 order front).0
