-- ===== src/WsConnectionServer/Cellnet/Serials.antt =====
-- What a session sends to a logic server, whichever threads send, and how it is numbered.
use mathlib.Core.List.{map-append}
use dserver_framework.Prelude.{
  ℕ, ◌+◌, ◌%◌, ◌^◌, ◌<◌, ◌≡◌, refl, ap, inl, inr, Bool-cases, Bool, true, false, List, [], ◌∷◌,
  ◌++◌, map, arith, length, length-append, leb, ◌==◌,
}
use dserver_framework.BinPacket.{BinLib}
use dserver_framework.Framing.{Frame}
use dserver_framework.WsConnectionServer.Cellnet.{
  Waiting, Sender, new_sender, cellnet_packet, help_send_packet_in_loop, send_pb_data, send_pb,
  run_waiting, run_async,
}
use dserver_framework.WsConnectionServer.Cellnet.Stream.{Numbered, packet_of}

-- What the threads do with a session: sendPB of a message of these bytes, in the loop's thread or in
-- another, and the loop, which runs what waits.
pub data Action : Type 0 where
  sends : Bool → ℕ → List ℕ → Action
  loops : Action

-- Messages numbered upwards, on 16 bits.
abbrev pub numbered : ℕ → List Frame → List Numbered
numbered k [] = []
numbered k (f ∷ fs) = (k % 2 ^ 16, f) ∷ numbered (k + 1) fs

numbered-append :
    (k : ℕ) (fs : List Frame) (f : Frame)
    → numbered k (fs ++ (f ∷ [])) ≡ numbered k fs ++ (((k + length fs) % 2 ^ 16, f) ∷ [])
numbered-append k [] f = ap (λ n. (n % 2 ^ 16, f) ∷ []) (omega arith)
numbered-append k (g ∷ fs) f =
    rw (numbered-append (k + 1) fs f)
      (ap (λ n. (k % 2 ^ 16, g) ∷ (numbered (k + 1) fs ++ ((n % 2 ^ 16, f) ∷ []))) (omega arith))

module _ (lib : BinLib) where
  -- What was sent is a row of messages numbered from 1, and the next number is the next one.
  pub record Row (s : Sender) : Type 0 where
    pub messages : List Frame
    pub in_order : s.sent ≡ map (packet_of lib) (numbered 1 messages)
    pub next_serial : s.send_serial_id ≡ (1 + length messages) % 2 ^ 16

  abbrev pub act : Action → Sender → Sender
  act (sends in_loop cmd bytes) s = send_pb lib in_loop cmd bytes s
  act loops s = run_async lib s

  abbrev pub run : List Action → Sender → Sender
  run [] s = s
  run (a ∷ actions) s = run actions (act a s)

  help-Row :
      (cmd : ℕ) (bytes : List ℕ) (s : Sender)
      → Row s
      → Row (help_send_packet_in_loop lib cmd bytes s)
  unfolding help_send_packet_in_loop
  help-Row cmd bytes s r =
      let f : Frame = record { op = cmd; body = bytes } in
      record {
        messages = r.messages ++ (f ∷ []);
        in_order = rw (numbered-append 1 r.messages f, map-append, r.in_order, r.next_serial) refl;
        next_serial = rw r.next_serial (omega (arith, length-append r.messages (f ∷ [])));
      }

  waiting-Row : (m : List Waiting) (s : Sender) → Row s → Row (run_waiting lib m s)
  unfolding run_waiting
  waiting-Row [] s r = r
  waiting-Row ((cmd, bytes) ∷ m) s r =
      waiting-Row m (help_send_packet_in_loop lib cmd bytes s) (help-Row cmd bytes s r)

  idle-Row : (m : List Waiting) (s : Sender) → Row s → Row (record s { waiting = m })
  idle-Row m s r = record {
    messages = r.messages;
    in_order = r.in_order;
    next_serial = r.next_serial;
  }

  act-Row : (a : Action) (s : Sender) → Row s → Row (act a s)
  unfolding send_pb send_pb_data run_async
  act-Row (sends true cmd bytes) s r = elim (Bool-cases (leb (length bytes) 8192)) [
    | inl fits ↦ rw fits (help-Row cmd bytes s r)
    | inr large ↦ rw large r
  ]
  act-Row (sends false cmd bytes) s r = elim (Bool-cases (length bytes == 0)) [
    | inl empty ↦ rw empty r
    | inr some_bytes ↦ rw some_bytes (idle-Row (s.waiting ++ ((cmd, bytes) ∷ [])) s r)
  ]
  act-Row loops s r = waiting-Row s.waiting (record s { waiting = [] }) (idle-Row [] s r)

  run_from-Row : (actions : List Action) (s : Sender) → Row s → Row (run actions s)
  run_from-Row [] s r = r
  run_from-Row (a ∷ actions) s r = run_from-Row actions (act a s) (act-Row a s r)

  -- Whatever the threads send on a new session, and whenever the loop runs: what was sent is a row of
  -- packets of messages, numbered from 1 upwards on 16 bits without a gap.
  pub run-Row : (actions : List Action) → Row (run actions new_sender)
  run-Row actions =
      run_from-Row actions new_sender
        (record { messages = []; in_order = refl; next_serial = refl })

  -- A message of more than 8192 bytes is dropped if it is sent in the loop's thread, and sent if it is
  -- sent in another, once the loop runs.
  pub large_message :
      (cmd : ℕ) (bytes : List ℕ) (s : Sender)
      → 8192 < length bytes
      → s.waiting ≡ []
      → (run_async lib (send_pb lib true cmd bytes s) ≡ s)
        × ((run_async lib (send_pb lib false cmd bytes s)).sent
            ≡ s.sent ++ (cellnet_packet lib cmd s.send_serial_id bytes ∷ []))
  unfolding send_pb send_pb_data run_async run_waiting help_send_packet_in_loop
  large_message cmd bytes s large idle = (ground arith, ground arith)
