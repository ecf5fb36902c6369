-- ===== src/WsConnectionServer/Sending.antt =====
-- WSConnectionServer/LogicServerSession.h and ClientSession.cpp: the calls of sendPB that the sessions
-- make, as one session to a logic server does them. The bytes of a protobuf message are a parameter.
use dserver_framework.Prelude.{
  ℕ, Bool, true, false, ◌≤◌, ◌≡◌, ◌≢◌, refl, ap, ◌∙◌, List, [], ◌∷◌, ◌++◌, append-nil, append_assoc,
  arith, length, ◌==◌, if◌then◌else◌,
}
use dserver_framework.BinPacket.{BinLib}
use dserver_framework.WsConnectionServer.{
  WsEffect, send_pb_upstream, close_ack, login_reply, reply, close_timer, post_close, notify_later,
}
use dserver_framework.WsConnectionServer.Cellnet.{
  Waiting, Sender, send_pb_data, send_pb, run_waiting,
}

-- The bytes of UpstreamACK, CloseClientACK and LogicServerLoginReply, of their fields.
pub record PbLib : Type 0 where
  pub upstream_bytes : ℕ → ℕ → List ℕ → List ℕ
  pub close_bytes : ℕ → List ℕ
  pub login_bytes : Bool → ℕ → List ℕ

-- UPSTREAM_ACK_OP, CLOSE_CLIENT_ACK_OP, and the op of sendLogicServerLoginResult
abbrev pub upstream_ack_op : ℕ
upstream_ack_op = 2210821449

abbrev pub close_client_ack_op : ℕ
close_client_ack_op = 1513370829

abbrev pub login_reply_op : ℕ
login_reply_op = 966232901

module _ (lib : BinLib) (pb : PbLib) (in_loop : Bool) (p : ℕ) where
  -- What a call does to the session at `p`, made in the thread of its event loop or in another.
  abbrev pub do_call : WsEffect → Sender → Sender
  do_call (send_pb_upstream q id op body) s =
      if q == p then send_pb lib in_loop upstream_ack_op (pb.upstream_bytes id op body) s else s
  do_call (close_ack q id) s =
      if q == p then send_pb lib in_loop close_client_ack_op (pb.close_bytes id) s else s
  do_call (login_reply q success id) s =
      if q == p then send_pb lib in_loop login_reply_op (pb.login_bytes success id) s else s
  do_call (reply c op body) s = s
  do_call (close_timer c) s = s
  do_call (post_close c) s = s
  do_call (notify_later c) s = s

  unfoldable pub do_calls : List WsEffect → Sender → Sender
  do_calls [] s = s
  do_calls (e ∷ es) s = do_calls es (do_call e s)

-- A message that sendPB does not drop, in whichever thread it is called.
abbrev pub IsSendable : List ℕ → Type 0
IsSendable bytes = (length bytes ≢ 0) × (length bytes ≤ 8192)

-- What the messages do to a session: in the thread of its loop they are sent, and in another they wait.
abbrev pub handed : BinLib → Bool → List Waiting → Sender → Sender
handed lib true ms s = run_waiting lib ms s
handed lib false ms s = record s { waiting = s.waiting ++ ms }

pub handed-nil : (lib : BinLib) (in_loop : Bool) (s : Sender) → handed lib in_loop [] s ≡ s
unfolding run_waiting
handed-nil lib true s = refl
handed-nil lib false s = ap (λ (l : List Waiting). record s { waiting = l }) (append-nil s.waiting)

send_pb-IsSendable :
    (lib : BinLib) (in_loop : Bool) (op : ℕ) (bytes : List ℕ) (s : Sender)
    → IsSendable bytes
    → send_pb lib in_loop op bytes s ≡ send_pb_data lib in_loop op bytes s
unfolding send_pb
send_pb-IsSendable lib true op bytes s h = ground (arith, h.1)
send_pb-IsSendable lib false op bytes s h = ground (arith, h.0)

handed-send_pb_data :
    (lib : BinLib) (in_loop : Bool) (op : ℕ) (bytes : List ℕ) (ms : List Waiting) (s : Sender)
    → handed lib in_loop ms (send_pb_data lib in_loop op bytes s)
      ≡ handed lib in_loop ((op, bytes) ∷ ms) s
unfolding run_waiting send_pb_data
handed-send_pb_data lib true op bytes ms s = refl
handed-send_pb_data lib false op bytes ms s =
    ap (λ (l : List Waiting). record s { waiting = l })
      (append_assoc s.waiting ((op, bytes) ∷ []) ms)

pub handed-send_pb :
    (lib : BinLib) (in_loop : Bool) (op : ℕ) (bytes : List ℕ) (ms : List Waiting) (s : Sender)
    → IsSendable bytes
    → handed lib in_loop ms (send_pb lib in_loop op bytes s)
      ≡ handed lib in_loop ((op, bytes) ∷ ms) s
handed-send_pb lib in_loop op bytes ms s h =
    ap (handed lib in_loop ms) (send_pb-IsSendable lib in_loop op bytes s h)
    ∙ handed-send_pb_data lib in_loop op bytes ms s
