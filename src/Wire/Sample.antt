-- ===== src/Wire/Sample.antt =====
-- A packet library that meets the laws of Wire, for the theorems' examples: all numbers little-endian,
-- a head of two bytes of length and two of op, and binaries behind two bytes of length.
use dserver_framework.Prelude.{
  ℕ, zero, suc, ◌+◌, ◌*◌, ◌/◌, ◌%◌, ◌^◌, ◌≤◌, ◌<◌, ◌≡◌, refl, ap, Bool, true, false, Option, some,
  none, List, [], ◌∷◌, ◌++◌, arith, length, length-append, take, drop, drop-append, length-drop,
  take-length-append, drop-length-append, leb, ◌==◌, if◌then◌else◌, append_assoc,
}
use dserver_framework.Wire.{PacketLib, HeadLaws, PacketLaws, head_of}

unfoldable pub to_bytes : ℕ → ℕ → List ℕ
to_bytes zero v = []
to_bytes (suc n) v = v % 256 ∷ to_bytes n (v / 256)

unfoldable pub from_bytes : ℕ → List ℕ → ℕ
from_bytes zero bs = 0
from_bytes (suc n) [] = 0
from_bytes (suc n) (b ∷ bs) = b + 256 * from_bytes n bs

pub from_bytes-to_bytes :
    (n v : ℕ) (rest : List ℕ) → v < 256 ^ n → from_bytes n (to_bytes n v ++ rest) ≡ v
unfolding to_bytes from_bytes
from_bytes-to_bytes zero v rest h = omega arith
from_bytes-to_bytes (suc n) v rest h =
    omega (arith, from_bytes-to_bytes n (v / 256) rest (omega arith))

length-to_bytes : (n v : ℕ) → length (to_bytes n v) ≡ n
unfolding to_bytes
length-to_bytes zero v = refl
length-to_bytes (suc n) v = ap suc (length-to_bytes n (v / 256))

pub from_bytes-local :
    (n : ℕ) (front more : List ℕ)
    → n ≤ length front
    → from_bytes n (front ++ more) ≡ from_bytes n front
unfolding from_bytes
from_bytes-local zero front more h = refl
from_bytes-local (suc n) [] more h = absurd (omega arith)
from_bytes-local (suc n) (b ∷ bs) more h = rw (from_bytes-local n bs more (omega arith))

drop-to_bytes : (n v : ℕ) (rest : List ℕ) → drop n (to_bytes n v ++ rest) ≡ rest
unfolding to_bytes
drop-to_bytes zero v rest = refl
drop-to_bytes (suc n) v rest = drop-to_bytes n (v / 256) rest

read_number : ℕ → List ℕ → ℕ × List ℕ
read_number n bs = (from_bytes n bs, drop n bs)

read_number_back :
    (n v : ℕ) (rest : List ℕ) → v < 256 ^ n → read_number n (to_bytes n v ++ rest) ≡ (v, rest)
unfolding read_number
read_number_back n v rest h = rw (from_bytes-to_bytes n v rest h, drop-to_bytes n v rest)

flag_byte : Bool → List ℕ
flag_byte true = 1 ∷ []
flag_byte false = 0 ∷ []

read_flag : List ℕ → Bool × List ℕ
read_flag [] = (false, [])
read_flag (b ∷ bs) = (b == 1, bs)

read_flag_back : (b : Bool) (rest : List ℕ) → read_flag (flag_byte b ++ rest) ≡ (b, rest)
unfolding read_flag flag_byte
read_flag_back true rest = refl
read_flag_back false rest = refl

to_binary : List ℕ → List ℕ
to_binary s = to_bytes 2 (length s) ++ s

from_binary : ℕ → List ℕ → Option (List ℕ) × List ℕ
from_binary n bs = if leb n (length bs) then (some (take n bs), drop n bs) else (none, [])

read_block : List ℕ → Option (List ℕ) × List ℕ
unfolding from_binary
read_block bs = from_binary (from_bytes 2 bs) (drop 2 bs)

or_empty : Option (List ℕ) × List ℕ → List ℕ × List ℕ
or_empty (none, bs) = ([], bs)
or_empty (some s, bs) = (s, bs)

from_binary_back : (s rest : List ℕ) → from_binary (length s) (s ++ rest) ≡ (some s, rest)
unfolding from_binary
from_binary_back s rest =
    rw (take-length-append s rest, drop-length-append s rest) (ground (arith, length-append s rest))

read_block_back :
    (s rest : List ℕ) → length s ≤ 60000 → read_block (to_binary s ++ rest) ≡ (some s, rest)
read_block_back s rest h = rw (to_binary_append s rest) (
    unfold read_block in
    rw
      (
        from_bytes-to_bytes 2 (length s) (s ++ rest) (omega arith),
        drop-to_bytes 2 (length s) (s ++ rest),
      )
      (from_binary_back s rest))
  where
    to_binary_append :
        (s rest : List ℕ) → to_binary s ++ rest ≡ to_bytes 2 (length s) ++ (s ++ rest)
    to_binary_append s rest = unfold to_binary in append_assoc (to_bytes 2 (length s)) s rest

packet_bytes : ℕ → List ℕ → List ℕ
packet_bytes op body = to_bytes 2 (4 + length body) ++ (to_bytes 2 op ++ body)

unfoldable pub sample : PacketLib
unfolding to_bytes from_bytes read_number flag_byte read_flag to_binary read_block or_empty
    packet_bytes from_binary
sample = record {
  head_len = 4;
  len_mod = 65536;
  read_packet_len = from_bytes 2;
  read_op = λ bs. from_bytes 2 (drop 2 bs);
  make_packet = packet_bytes;
  write_int16 = to_bytes 2;
  write_int32 = to_bytes 4;
  write_int64 = to_bytes 8;
  write_bool = flag_byte;
  write_binary = to_binary;
  read_int16 = read_number 2;
  read_int32 = read_number 4;
  read_int64 = read_number 8;
  read_bool = read_flag;
  read_string = λ bs. or_empty (read_block bs);
  read_binary = read_block;
}

pub sample-HeadLaws : HeadLaws (head_of sample)
unfolding sample
sample-HeadLaws = record {
  head_pos = omega arith;
  len_local = λ front more h. from_bytes-local 2 front more (omega arith);
  op_local = λ front more h.
      rw (drop-append 2 front more (omega arith))
        (from_bytes-local 2 (drop 2 front) more (omega (arith, length-drop 2 front)));
}

pub sample-PacketLaws : PacketLaws sample 60000
unfolding sample
sample-PacketLaws = record {
  head = sample-HeadLaws;
  length_packet = λ op body. omega arith;
  body_packet = λ op body. refl;
  len_packet =
      λ op body h k. from_bytes-to_bytes 2 (4 + length body) (to_bytes 2 op ++ body) (omega arith);
  op_packet = λ op body h. from_bytes-to_bytes 2 op body (omega arith);
  int16_back = λ v rest h. read_number_back 2 v rest (omega arith);
  int32_back = λ v rest h. read_number_back 4 v rest (omega arith);
  int64_back = λ v rest h. read_number_back 8 v rest (omega arith);
  bool_back = read_flag_back;
  string_back = λ s rest h. ap or_empty (read_block_back s rest h);
  binary_back = read_block_back;
}
