-- ===== src/Examples/Player.antt =====
-- The simulated client, at concrete inputs.
use dserver_framework.Prelude.{ℕ, ◌+◌, ◌*◌, ◌≡◌, [], ◌∷◌, ◌++◌, map, flatten, arith, length, take}
use dserver_framework.Wire.Sample.{sample, sample-PacketLaws}
use dserver_framework.Framing.{Frame}
use dserver_framework.Framing.Delivery.{packet_of}
use dserver_framework.SimulatePlayer.{Ticks, new_player, on_enter, test_packet, receive}
use dserver_framework.SimulatePlayer.Counting.{sum, tests, copies, receive_lem}

abbrev test : Frame
test = record { op = 0; body = 4 ∷ 0 ∷ [] }

abbrev other : Frame
other = record { op = 1; body = [] }

-- The second packet comes more than a second after the first.
abbrev ticks : ℕ → Ticks
ticks i = record { at_first = 500; at_test = 500 + 1200 * i; at_reset = 500 + 1200 * i }

receive_lem_example :
    let fs = test ∷ other ∷ test ∷ [] in
    let bytes = flatten (map (packet_of sample) fs) ++ take 2 (packet_of sample other) in
    let w = receive sample ticks bytes (on_enter sample new_player) in
    (w.sent ≡ copies (tests fs) (test_packet sample) (test_packet sample ∷ []))
    × (sum w.packets_printed + w.num ≡ length fs)
unfolding sample flatten
receive_lem_example =
    receive_lem sample 60000 sample-PacketLaws ticks (test ∷ other ∷ test ∷ []) other 2
      ((omega arith, omega arith), ((omega arith, omega arith), ((omega arith, omega arith), tt)))
      (omega arith, omega arith) (omega arith) (omega arith) (omega arith)
