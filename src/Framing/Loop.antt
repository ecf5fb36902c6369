-- ===== src/Framing/Loop.antt =====
-- The loop of Framing over a buffer that is a row of whole packets and a tail with none.
use dserver_framework.Prelude.{
  ℕ, zero, suc, ◌+◌, ◌-◌, ◌≤◌, ◌<◌, ◌≡◌, refl, sym, ap, ◌∙◌, false, true, ◌⊎◌, inl, inr, List, [],
  ◌∷◌, ◌++◌, map, flatten, append_assoc, arith, length, take, drop, All, length-append, length-take,
  length-drop, take-append-drop, take-length, drop-length-append, Bool-cases,
}
use dserver_framework.Wire.{Head, HeadLaws}
use dserver_framework.Framing.{has_packet, packet_loop}

module _ (head : Head) where
  -- One whole packet: the length in its head is its length.
  pub record IsPacket (p : List ℕ) : Type 0 where
    pub headed : head.head_len ≤ length p
    pub announced : head.read_packet_len p ≡ length p

  -- No whole packet at the front: no head, not all of the packet that it announces, or a head that
  -- announces less than a head.
  abbrev pub IsStuck : List ℕ → Type 0
  IsStuck bytes =
      (length bytes < head.head_len)
      ⊎ ((length bytes < head.read_packet_len bytes) ⊎ (head.read_packet_len bytes < head.head_len))

  unusable :
      (bytes : List ℕ)
      → has_packet head (length bytes) (head.read_packet_len bytes) ≡ false
      → IsStuck bytes
  unusable bytes h = ground arith

  IsStuck-flag :
      (bytes : List ℕ)
      → IsStuck bytes
      → has_packet head (length bytes) (head.read_packet_len bytes) ≡ false
  IsStuck-flag bytes (inl h) = ground arith
  IsStuck-flag bytes (inr (inl h)) = ground arith
  IsStuck-flag bytes (inr (inr h)) = ground arith

  -- A buffer is a row of packets and a tail that the loop cannot use.
  pub record Cut (bytes : List ℕ) : Type 0 where
    pub packets : List (List ℕ)
    pub tail : List ℕ
    pub joined : bytes ≡ flatten packets ++ tail
    pub whole : All IsPacket packets
    pub stuck : IsStuck tail

module _ (head : Head) (laws : HeadLaws head) where
  front-IsPacket :
      (bytes : List ℕ)
      → has_packet head (length bytes) (head.read_packet_len bytes) ≡ true
      → IsPacket head (take (head.read_packet_len bytes) bytes)
  front-IsPacket bytes h =
      let n = head.read_packet_len bytes in
      let size : length (take n bytes) ≡ n = ground (arith, length-take n bytes) in
      let headed : head.head_len ≤ length (take n bytes) = ground (arith, length-take n bytes) in
      record {
        headed = headed;
        announced =
            ground (
              arith,
              laws.len_local (take n bytes) (drop n bytes) headed,
              take-append-drop n bytes,
            );
      }

  shorter :
      (bytes : List ℕ) (fuel : ℕ)
      → has_packet head (length bytes) (head.read_packet_len bytes) ≡ true
      → length bytes < suc fuel
      → length (drop (head.read_packet_len bytes) bytes) < fuel
  shorter bytes fuel more h =
      ground (arith, length-drop (head.read_packet_len bytes) bytes, laws.head_pos)

  cut_more :
      (bytes : List ℕ)
      → has_packet head (length bytes) (head.read_packet_len bytes) ≡ true
      → Cut head (drop (head.read_packet_len bytes) bytes)
      → Cut head bytes
  unfolding flatten
  cut_more bytes h c =
      let n = head.read_packet_len bytes in
      record {
        packets = take n bytes ∷ c.packets;
        tail = c.tail;
        joined =
            sym (take-append-drop n bytes)
            ∙ ap (◌++◌ (take n bytes)) c.joined
            ∙ sym (append_assoc (take n bytes) (flatten c.packets) c.tail);
        whole = (front-IsPacket bytes h, c.whole);
        stuck = c.stuck;
      }

  -- Every buffer has such a form.
  pub cut_bytes : (fuel : ℕ) (bytes : List ℕ) → length bytes < fuel → Cut head bytes
  unfolding flatten
  cut_bytes zero bytes h = absurd (omega arith)
  cut_bytes (suc fuel) bytes h =
      elim (Bool-cases (has_packet head (length bytes) (head.read_packet_len bytes))) [
        | inl more ↦
            cut_more bytes more
              (cut_bytes fuel (drop (head.read_packet_len bytes) bytes) (shorter bytes fuel more h))
        | inr done ↦ record {
          packets = [];
          tail = bytes;
          joined = refl;
          whole = tt;
          stuck = unusable head bytes done;
        }
      ]

  IsPacket-front : (p rest : List ℕ) → IsPacket head p → head.read_packet_len (p ++ rest) ≡ length p
  IsPacket-front p rest w = laws.len_local p rest w.headed ∙ w.announced

  -- One round on a whole packet.
  round_on_packet {ℓ} :
      {A : Type ℓ} (call : List ℕ → ℕ → A) (fuel : ℕ) (p rest : List ℕ) (total : ℕ)
      → IsPacket head p
      → packet_loop head call (suc fuel) (p ++ rest) total (length (p ++ rest)) ≡ (
          let r = packet_loop head call fuel rest (total + length p) (length rest) in
          (call (p ++ rest) (length p) ∷ r.0, r.1))
  unfolding packet_loop
  round_on_packet call fuel p rest total w =
      let left : length (p ++ rest) - length p ≡ length rest =
        omega (arith, length-append p rest) in
      let flag : has_packet head (length (p ++ rest)) (length p) ≡ true =
        ground (arith, length-append p rest, w.headed) in
      rw (
        take-length (length (p ++ rest)) (p ++ rest) (omega arith),
        IsPacket-front p rest w,
        left,
        drop-length-append p rest,
        flag,
      )

  round_on_stuck {ℓ} :
      {A : Type ℓ} (call : List ℕ → ℕ → A) (fuel : ℕ) (tail : List ℕ) (total : ℕ)
      → IsStuck head tail
      → packet_loop head call (suc fuel) tail total (length tail) ≡ ([], total)
  unfolding packet_loop
  round_on_stuck call fuel tail total s =
      rw (take-length (length tail) tail (omega arith), IsStuck-flag head tail s)

  rest_shorter :
      (p rest : List ℕ) (fuel : ℕ)
      → IsPacket head p
      → length (p ++ rest) < suc fuel
      → length rest < fuel
  rest_shorter p rest fuel w h = omega (arith, length-append p rest, w.headed, laws.head_pos)

  module _ {ℓ} {A : Type ℓ} (call : List ℕ → ℕ → A) (result : List ℕ → A)
      (local : (p rest : List ℕ) → IsPacket head p → call (p ++ rest) (length p) ≡ result p) where
    -- The loop calls once for each packet, in order, and counts their bytes.
    pub packet_loop_lem :
        (ps : List (List ℕ)) (tail : List ℕ) (fuel total : ℕ)
        → All (IsPacket head) ps
        → IsStuck head tail
        → length (flatten ps ++ tail) < fuel
        → packet_loop head call fuel (flatten ps ++ tail) total (length (flatten ps ++ tail))
          ≡ (map result ps, total + length (flatten ps))
    unfolding flatten
    packet_loop_lem ps tail zero total w s h = absurd (omega arith)
    packet_loop_lem [] tail (suc fuel) total w s h =
        round_on_stuck call fuel tail total s ∙ ap (λ n. ([], n)) (omega arith)
    packet_loop_lem (p ∷ ps) tail (suc fuel) total w s h =
        rw
          (
            append_assoc p (flatten ps) tail,
            round_on_packet call fuel p (flatten ps ++ tail) total w.0,
            packet_loop_lem ps tail fuel (total + length p) w.1 s (
                rest_shorter p (flatten ps ++ tail) fuel w.0
                  (rw (append_assoc p (flatten ps) tail) at h)),
            local p (flatten ps ++ tail) w.0,
          )
          (ap (λ n. (result p ∷ map result ps, n)) (omega (arith, length-append p (flatten ps))))
