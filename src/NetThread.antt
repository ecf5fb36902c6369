-- ===== src/NetThread.antt =====
-- Common/NetThreadSession.h and .cpp, with BaseLogicSession of Common/LogicNetSession.h: what happens
-- to a socket on the network's threads is a message, and the logic thread works the messages off. A
-- logic session is named by its address. The queue is a parameter: dodo::MsgQueue is not in the
-- repository.
pub mod Order
use dserver_framework.MsgQueue.{MsgQueue}
use dserver_framework.Prelude.{
  ℕ, suc, zero, ◌+◌, ◌≡◌, Option, none, some, List, [], ◌∷◌, ◌++◌, length, update,
}

-- Net2LogicMsgType
pub data MsgType : Type 0 where
  type_none : MsgType
  type_enter : MsgType
  type_data : MsgType
  type_close : MsgType
  type_complete_callback : MsgType

-- Net2LogicMsg; `none` is a null pointer, and a function that is not set.
pub record Msg : Type 0 where
  pub session : Option ℕ
  pub msg_type : MsgType
  pub packet : List ℕ
  pub callback : Option ℕ

-- Net2LogicMsg::Net2LogicMsg(session, msgType)
abbrev pub new_msg : Option ℕ → MsgType → Msg
new_msg session msg_type = record {
  session = session;
  msg_type = msg_type;
  packet = [];
  callback = none;
}

-- setData appends.
abbrev pub set_data : List ℕ → Msg → Msg
set_data bytes m = record m { packet = m.packet ++ bytes }

-- The calls that the logic thread makes: onEnter, onMsg and onClose of a session, and a callback.
pub data Call : Type 0 where
  calls_enter : ℕ → Call
  calls_msg : ℕ → List ℕ → Call
  calls_close : ℕ → Call
  calls_callback : ℕ → Call

-- The switch of procNet2LogicMsgList; `none` is a call through a null pointer.
unfoldable pub dispatch : Msg → Option (List Call)
dispatch m = elim m.msg_type [
  | type_none ↦ some []
  | type_enter ↦ elim m.session [ none ↦ none | some s ↦ some (calls_enter s ∷ []) ]
  | type_data ↦ elim m.session [ none ↦ none | some s ↦ some (calls_msg s m.packet ∷ []) ]
  | type_close ↦ elim m.session [ none ↦ none | some s ↦ some (calls_close s ∷ []) ]
  | type_complete_callback ↦ elim m.callback [ none ↦ none | some f ↦ some (calls_callback f ∷ []) ]
]

-- The members that setSession sets: mSocketID and mIP.
pub record Attached : Type 0 where
  pub socket_id : ℕ
  pub ip : List ℕ

-- The calls that were made stand in their order.
pub record Threads (Q : Type 0) : Type 0 where
  pub messages : Q
  pub attached : ℕ → Option Attached
  pub calls : List Call

module _ {Q : Type 0} (queue : MsgQueue Msg Q) where
  abbrev pub push_msg : Msg → Threads Q → Threads Q
  push_msg m t = record t { messages = queue.push m t.messages }

  -- ExtNetSession::onEnter
  unfoldable pub on_enter : ℕ → Attached → Threads Q → Threads Q
  on_enter s a t =
      push_msg (new_msg (some s) type_enter) (record t { attached = update t.attached s (some a) })

  -- ExtNetSession::onClose
  unfoldable pub on_close : ℕ → Threads Q → Threads Q
  on_close s t = push_msg (new_msg (some s) type_close) t

  -- pushDataMsg2LogicMsgList
  unfoldable pub push_data_msg : ℕ → List ℕ → Threads Q → Threads Q
  push_data_msg s bytes t = push_msg (set_data bytes (new_msg (some s) type_data)) t

  -- pushCompleteCallback2LogicMsgList
  unfoldable pub push_complete_callback : ℕ → Threads Q → Threads Q
  push_complete_callback f t =
      push_msg (record (new_msg none type_complete_callback) { callback = some f }) t

  -- syncNet2LogicMsgList, without the wakeup of the event loop
  unfoldable pub sync_list : Threads Q → Threads Q
  sync_list t = record t { messages = queue.force_sync_write t.messages }

  -- while (popFront(msg)): `none` at the end of the fuel, and for a call through a null pointer.
  unfoldable pub proc_loop : ℕ → Threads Q → Option (Threads Q)
  proc_loop zero t = none
  proc_loop (suc fuel) t = elim (queue.pop_front t.messages) [
    | none ↦ some t
    | some popped ↦ elim (dispatch popped.0) [
      | none ↦ none
      | some made ↦ proc_loop fuel (record t { messages = popped.1; calls = t.calls ++ made })
    ]
  ]

  -- procNet2LogicMsgList. The loop pops each message once, so a round more than messages is enough.
  unfoldable pub proc_list : Threads Q → Option (Threads Q)
  proc_list t =
      let read = queue.sync_read t.messages in
      proc_loop (length (queue.contents read) + 1) (record t { messages = read })
