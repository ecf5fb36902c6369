-- ===== src/Examples/Framing.antt =====
-- Framing at concrete inputs.
use dserver_framework.Prelude.{
  ℕ, ◌+◌, ◌≡◌, refl, List, [], ◌∷◌, ◌++◌, map, flatten, arith, length, take, drop,
}
use dserver_framework.Wire.{head_of}
use dserver_framework.Wire.Sample.{sample, sample-HeadLaws, sample-PacketLaws}
use dserver_framework.Framing.{Frame, packet_loop, single_on_msg, ext_on_msg}
use dserver_framework.Framing.Loop.{Cut}
use dserver_framework.Framing.Stream.{ext_on_msg-Cut, single_on_msg-append}
use dserver_framework.Framing.Delivery.{packet_of, single_on_msg-packets}

abbrev greeting : Frame
greeting = record { op = 7; body = 104 ∷ 105 ∷ [] }

abbrev empty_frame : Frame
empty_frame = record { op = 300; body = [] }

-- The bytes of `greeting`, of `empty_frame`, and of three bytes of another head.
abbrev stream : List ℕ
stream = 6 ∷ 0 ∷ 7 ∷ 0 ∷ 104 ∷ 105 ∷ 4 ∷ 0 ∷ 44 ∷ 1 ∷ 9 ∷ 0 ∷ 7 ∷ []

run_single : single_on_msg (head_of sample) stream ≡ (greeting ∷ empty_frame ∷ [], 10)
unfolding single_on_msg packet_loop sample
run_single = refl

single_on_msg-packets_example :
    single_on_msg (head_of sample) (
      flatten (map (packet_of sample) (greeting ∷ empty_frame ∷ []))
      ++ take 3 (packet_of sample greeting))
    ≡ (
      greeting ∷ empty_frame ∷ [],
      length (flatten (map (packet_of sample) (greeting ∷ empty_frame ∷ []))),
    )
unfolding sample flatten
single_on_msg-packets_example =
    single_on_msg-packets sample 60000 sample-PacketLaws (greeting ∷ empty_frame ∷ []) greeting 3
      ((omega arith, omega arith), ((omega arith, omega arith), tt)) (omega arith, omega arith)
      (omega arith) (omega arith)

ext_on_msg-Cut_example :
    (c : Cut (head_of sample) stream) × (ext_on_msg (head_of sample) stream
      ≡ (c.packets, length (flatten c.packets)))
ext_on_msg-Cut_example = ext_on_msg-Cut (head_of sample) sample-HeadLaws stream

single_on_msg-append_example :
    let first = single_on_msg (head_of sample) (take 8 stream) in
    let second = single_on_msg (head_of sample) (drop first.1 (take 8 stream) ++ drop 8 stream) in
    single_on_msg (head_of sample) (take 8 stream ++ drop 8 stream)
    ≡ (first.0 ++ second.0, first.1 + second.1)
unfolding sample
single_on_msg-append_example =
    single_on_msg-append (head_of sample) sample-HeadLaws (take 8 stream) (drop 8 stream)
      (omega arith)
