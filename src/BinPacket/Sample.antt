-- ===== src/BinPacket/Sample.antt =====
-- A writer and a reader that meet the laws of BinPacket, for the theorems' examples: little-endian in
-- both orders, and a buffer that always grows.
use dserver_framework.Prelude.{ℕ, ◌%◌, refl, List, [], ◌∷◌, map, flatten, arith, drop}
use dserver_framework.Wire.Sample.{to_bytes, from_bytes, from_bytes-to_bytes, from_bytes-local}
use dserver_framework.BinPacket.{Field, int8, uint16, uint32, buffer, BinLib, BinLaws}

field_bytes : Field → List ℕ
field_bytes (int8 v) = v % 256 ∷ []
field_bytes (uint16 v) = to_bytes 2 v
field_bytes (uint32 v) = to_bytes 4 v
field_bytes (buffer bs) = bs

unfoldable pub bin_sample : BinLib
unfolding field_bytes to_bytes from_bytes
bin_sample = record {
  encode = λ order f. field_bytes f;
  written = λ cap order grows fs. flatten (map field_bytes fs);
  read_int8 = λ bs. (from_bytes 1 bs, drop 1 bs);
  read_uint16 = λ order bs. (from_bytes 2 bs, drop 2 bs);
  read_uint32 = λ order bs. (from_bytes 4 bs, drop 4 bs);
}

pub bin_sample-BinLaws : BinLaws bin_sample
unfolding bin_sample
bin_sample-BinLaws = record {
  written_fits = λ cap grows order fs h. refl;
  written_grows = λ cap order fs. refl;
  encode_buffer = λ order bs. refl;
  length_int8 = λ order v. refl;
  length_uint16 = λ order v. refl;
  length_uint32 = λ order v. refl;
  int8_rest = λ bs. refl;
  uint16_rest = λ order bs. refl;
  uint32_rest = λ order bs. refl;
  uint16_back = λ order v rest h. from_bytes-to_bytes 2 v rest (omega arith);
  uint32_back = λ order v rest h. from_bytes-to_bytes 4 v rest (omega arith);
  uint16_local = λ order front more h. from_bytes-local 2 front more h;
  uint32_local = λ order front more h. from_bytes-local 4 front more h;
}
