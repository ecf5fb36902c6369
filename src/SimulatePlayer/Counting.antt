-- ===== src/SimulatePlayer/Counting.antt =====
-- The simulated client counts each packet once, and answers each test packet once.
use dserver_framework.Prelude.{
  ℕ, suc, zero, ◌+◌, ◌^◌, ◌<◌, ◌≡◌, refl, ap, ◌∙◌, List, [], ◌∷◌, ◌++◌, arith, length, All, flatten,
  map, take, ◌==◌, if◌then◌else◌,
}
use dserver_framework.Wire.{PacketLib, PacketLaws}
use dserver_framework.Framing.{Frame}
use dserver_framework.Framing.Delivery.{packet_of, Fits, single_on_msg-packets}
use dserver_framework.SimulatePlayer.{
  client_op_test, Ticks, Player, new_player, on_enter, test_packet, proc_packet, proc_packets,
  receive,
}

unfoldable pub sum : List ℕ → ℕ
sum [] = 0
sum (n ∷ ns) = n + sum ns

-- How many of the packets are test packets.
unfoldable pub tests : List Frame → ℕ
tests [] = 0
tests (f ∷ fs) = let more = tests fs in if f.op == client_op_test then suc more else more

unfoldable pub copies {ℓ} : {A : Type ℓ} → ℕ → A → List A → List A
copies zero a xs = xs
copies (suc n) a xs = copies n a (a ∷ xs)

module _ (lib : PacketLib) where
  proc_packet-num :
      (f : Frame) (ticks : Ticks) (w : Player)
      → w.num + 1 < 2 ^ 32
      → let u = proc_packet lib f ticks w in
        sum u.packets_printed + u.num ≡ sum w.packets_printed + w.num + 1
  unfolding proc_packet sum
  proc_packet-num f ticks w small = ground (arith, small)

  proc_packets-num :
      (ticks : ℕ → Ticks) (i : ℕ) (fs : List Frame) (w : Player)
      → sum w.packets_printed + w.num + length fs < 2 ^ 32
      → let u = proc_packets lib ticks i fs w in
        sum u.packets_printed + u.num ≡ sum w.packets_printed + w.num + length fs
  unfolding proc_packets
  proc_packets-num ticks i [] w small = omega arith
  proc_packets-num ticks i (f ∷ fs) w small =
      let one = proc_packet-num f (ticks i) w (omega (arith, small)) in
      let v = proc_packet lib f (ticks i) w in
      let l = proc_packets-num ticks (suc i) fs v (omega (arith, one, small)) in
      omega (arith, one, l)

  proc_packet-sent :
      (f : Frame) (ticks : Ticks) (w : Player)
      → (proc_packet lib f ticks w).sent
        ≡ (if f.op == client_op_test then test_packet lib ∷ w.sent else w.sent)
  unfolding proc_packet
  proc_packet-sent f ticks w = ground arith

  proc_packets-sent :
      (ticks : ℕ → Ticks) (i : ℕ) (fs : List Frame) (w : Player)
      → (proc_packets lib ticks i fs w).sent ≡ copies (tests fs) (test_packet lib) w.sent
  unfolding proc_packets tests copies
  proc_packets-sent ticks i [] w = refl
  proc_packets-sent ticks i (f ∷ fs) w =
      proc_packets-sent ticks (suc i) fs (proc_packet lib f (ticks i) w)
      ∙ ap (copies (tests fs) (test_packet lib)) (proc_packet-sent f (ticks i) w)
      ∙ ground arith

module _ (lib : PacketLib) (max_body : ℕ) (laws : PacketLaws lib max_body) where
  -- A simulated client that has entered and receives a row of packets, with a part of one more behind
  -- it, has sent one test packet and then one more for each test packet of the row, and nothing else;
  -- and the numbers that it printed, with the one that it has not printed yet, count each packet once,
  -- whatever the clock says. The packets fit their library, their number 32 bits and the length the
  -- counter of the buffer.
  pub receive_lem :
      (ticks : ℕ → Ticks) (fs : List Frame) (last : Frame) (n : ℕ)
      → All (Fits max_body) fs
      → Fits max_body last
      → n < length (packet_of lib last)
      → length (flatten (map (packet_of lib) fs) ++ take n (packet_of lib last)) < lib.len_mod
      → length fs < 2 ^ 32
      → let bytes = flatten (map (packet_of lib) fs) ++ take n (packet_of lib last) in
        let w = receive lib ticks bytes (on_enter lib new_player) in
        (w.sent ≡ copies (tests fs) (test_packet lib) (test_packet lib ∷ []))
        × (sum w.packets_printed + w.num ≡ length fs)
  unfolding receive on_enter sum
  receive_lem ticks fs last n fit last_fits short room few =
      let start = on_enter lib new_player in
      let l : sum (proc_packets lib ticks 0 fs start).packets_printed
            + (proc_packets lib ticks 0 fs start).num
          ≡ length fs =
        omega (arith, proc_packets-num lib ticks 0 fs start (omega (arith, few))) in
      rw (single_on_msg-packets lib max_body laws fs last n fit last_fits short room)
        (proc_packets-sent lib ticks 0 fs (on_enter lib new_player), l)
