-- ===== src/WsConnectionServer/WebFrame/Sender.antt =====
-- WSConnectionServer/ClientSession.cpp: sendPBBinary, which sends a packet to a client in the thread of
-- its loop, or leaves it to the loop.
use dserver_framework.Prelude.{
  ℕ, ◌+◌, ◌%◌, ◌^◌, ◌≡◌, sym, ◌∙◌, Bool, true, false, Option, none, some, List, [], ◌∷◌, ◌++◌,
  append-nil, append_assoc, if◌then◌else◌,
}
use dserver_framework.WsConnectionServer.WebFrame.{WebLib, help_send_packet}

-- The arguments of helpSendPacket.
abbrev pub Packet : Type 0
Packet = ℕ × List ℕ

-- mSendSerialID, what sendPacket was given and what pushAsyncProc was given, the oldest first.
pub record ClientSender : Type 0 where
  pub send_serial_id : ℕ
  pub sent : List (List ℕ)
  pub waiting : List Packet

-- ConnectionClientSession::ConnectionClientSession
abbrev pub new_client_sender : ClientSender
new_client_sender = record { send_serial_id = 0; sent = []; waiting = [] }

abbrev pub built : Option (List ℕ) → List (List ℕ)
built none = []
built (some frame) = frame ∷ []

module _ (lib : WebLib) where
  -- helpSendPacket, on the session
  unfoldable pub send_in_loop : ℕ → List ℕ → ClientSender → ClientSender
  send_in_loop op bytes s =
      let (serial, frame) = help_send_packet lib op bytes s.send_serial_id in
      record s { send_serial_id = serial; sent = s.sent ++ built frame }

  -- sendPBBinary
  unfoldable pub send_pb_binary : Bool → ℕ → List ℕ → ClientSender → ClientSender
  send_pb_binary in_loop cmd bytes s =
      if in_loop
      then send_in_loop cmd bytes s
      else record s { waiting = s.waiting ++ ((cmd, bytes) ∷ []) }

  -- The event loop runs what waits.
  unfoldable pub run_packets : List Packet → ClientSender → ClientSender
  run_packets [] s = s
  run_packets ((op, bytes) ∷ ps) s = run_packets ps (send_in_loop op bytes s)

  unfoldable pub run_client_async : ClientSender → ClientSender
  run_client_async s = run_packets s.waiting (record s { waiting = [] })

  -- The frames of some packets, numbered on 32 bits from a number on.
  unfoldable pub frames_from : ℕ → List Packet → List (List ℕ)
  frames_from serial [] = []
  frames_from serial ((op, bytes) ∷ ps) =
      built (help_send_packet lib op bytes serial).1 ++ frames_from ((serial + 1) % 2 ^ 32) ps

  sent-run_packets :
      (ps : List Packet) (s : ClientSender)
      → (run_packets ps s).sent ≡ s.sent ++ frames_from s.send_serial_id ps
  unfolding run_packets frames_from send_in_loop help_send_packet
  sent-run_packets [] s = sym (append-nil s.sent)
  sent-run_packets ((op, bytes) ∷ ps) s =
      sent-run_packets ps (send_in_loop op bytes s) ∙ append_assoc s.sent _ _

  -- A packet that another thread sends is sent behind those that already wait, once the loop runs, and
  -- behind what the loop's own thread sends in the meantime, whenever that was asked for.
  overtaken :
      (cmd cmd' : ℕ) (bytes bytes' : List ℕ) (s : ClientSender)
      → (run_client_async (send_pb_binary true cmd' bytes' (send_pb_binary false cmd bytes s))).sent
        ≡ s.sent
          ++ frames_from s.send_serial_id ((cmd', bytes') ∷ (s.waiting ++ ((cmd, bytes) ∷ [])))
  unfolding run_client_async send_pb_binary frames_from send_in_loop help_send_packet
  overtaken cmd cmd' bytes bytes' s =
      sent-run_packets (s.waiting ++ ((cmd, bytes) ∷ []))
        (record (send_in_loop cmd' bytes' s) { waiting = [] })
      ∙ append_assoc s.sent _ _
