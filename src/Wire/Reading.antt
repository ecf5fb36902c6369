-- ===== src/Wire/Reading.antt =====
-- Reading the last field of a packet, and a packet as the receiving handler sees it.
use dserver_framework.Prelude.{
  ℕ, ◌<◌, ◌≤◌, ◌^◌, ◌≡◌, sym, ap, ◌∙◌, Bool, some, List, [], length, drop, append-nil,
}
use dserver_framework.Wire.{PacketLib, PacketLaws}

module _ (lib : PacketLib) (max_body : ℕ) (laws : PacketLaws lib max_body) where
  pub bool_last : (b : Bool) → lib.read_bool (lib.write_bool b) ≡ (b, [])
  bool_last b = ap lib.read_bool (sym (append-nil _)) ∙ laws.bool_back b []

  int16_last : (v : ℕ) → v < 2 ^ 16 → lib.read_int16 (lib.write_int16 v) ≡ (v, [])
  int16_last v h = ap lib.read_int16 (sym (append-nil _)) ∙ laws.int16_back v [] h

  pub int32_last : (v : ℕ) → v < 2 ^ 32 → lib.read_int32 (lib.write_int32 v) ≡ (v, [])
  int32_last v h = ap lib.read_int32 (sym (append-nil _)) ∙ laws.int32_back v [] h

  pub int64_last : (v : ℕ) → v < 2 ^ 64 → lib.read_int64 (lib.write_int64 v) ≡ (v, [])
  int64_last v h = ap lib.read_int64 (sym (append-nil _)) ∙ laws.int64_back v [] h

  string_last : (s : List ℕ) → length s ≤ max_body → lib.read_string (lib.write_binary s) ≡ (s, [])
  string_last s h = ap lib.read_string (sym (append-nil _)) ∙ laws.string_back s [] h

  pub binary_last :
      (s : List ℕ) → length s ≤ max_body → lib.read_binary (lib.write_binary s) ≡ (some s, [])
  binary_last s h = ap lib.read_binary (sym (append-nil _)) ∙ laws.binary_back s [] h

  -- Code that is given the op and the body of a packet.
  pub open_packet :
      {B : Type 0} (f : ℕ → List ℕ → B) (op : ℕ) (body : List ℕ)
      → op < 2 ^ 16
      → f (lib.read_op (lib.make_packet op body)) (drop lib.head_len (lib.make_packet op body))
        ≡ f op body
  open_packet f op body h = rw (laws.op_packet op body h, laws.body_packet op body)
