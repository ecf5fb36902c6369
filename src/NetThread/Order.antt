-- ===== src/NetThread/Order.antt =====
-- What the logic thread is told of the sockets: whatever the network's threads push, and whenever the
-- lists are synced and worked off.
use mathlib.Core.Path.{subst}
use dserver_framework.Prelude.{
  ℕ, zero, suc, ◌+◌, ◌<◌, ◌≡◌, refl, sym, ap, ◌∙◌, inl, inr, Option, none, some, List, [], ◌∷◌,
  ◌++◌, append-nil, append_assoc, update, arith, length, Option-cases,
}
use dserver_framework.MsgQueue.{MsgQueue, QueueLaws}
use dserver_framework.NetThread.{
  Msg, type_enter, type_data, type_close, type_complete_callback, Call, calls_enter, calls_msg,
  calls_close, calls_callback, dispatch, Attached, Threads, push_msg, on_enter, on_close,
  push_data_msg, push_complete_callback, sync_list, proc_loop, proc_list,
}

-- What the threads do: the first four on a thread of the network, then the sync, and the logic thread.
pub data Action : Type 0 where
  enters : ℕ → Attached → Action
  receives : ℕ → List ℕ → Action
  closes : ℕ → Action
  completes : ℕ → Action
  syncs : Action
  works_off : Action

-- The call that an action owes the logic thread.
abbrev pub call_of : Action → List Call
call_of (enters s a) = calls_enter s ∷ []
call_of (receives s bytes) = calls_msg s bytes ∷ []
call_of (closes s) = calls_close s ∷ []
call_of (completes f) = calls_callback f ∷ []
call_of syncs = []
call_of works_off = []

abbrev pub expected : List Action → List Call
expected [] = []
expected (a ∷ actions) = call_of a ++ expected actions

abbrev pub joined : Option (List Call) → Option (List Call) → Option (List Call)
joined none y = none
joined (some a) none = none
joined (some a) (some b) = some (a ++ b)

-- The calls that a list of messages leads to, or `none` if one of them has a null pointer.
abbrev pub owed : List Msg → Option (List Call)
owed [] = some []
owed (m ∷ ms) = joined (dispatch m) (owed ms)

joined_assoc : (x y z : Option (List Call)) → joined (joined x y) z ≡ joined x (joined y z)
joined_assoc none y z = refl
joined_assoc (some a) none z = refl
joined_assoc (some a) (some b) none = refl
joined_assoc (some a) (some b) (some c) = ap some (append_assoc a b c)

joined-nil : (x : Option (List Call)) → joined x (some []) ≡ x
joined-nil none = refl
joined-nil (some a) = ap some (append-nil a)

nil-joined : (x : Option (List Call)) → joined (some []) x ≡ x
nil-joined none = refl
nil-joined (some a) = refl

owed-push : (ms : List Msg) (m : Msg) → owed (ms ++ (m ∷ [])) ≡ joined (owed ms) (dispatch m)
owed-push [] m = joined-nil (dispatch m) ∙ sym (nil-joined (dispatch m))
owed-push (n ∷ ms) m =
    ap (joined (dispatch n)) (owed-push ms m)
    ∙ sym (joined_assoc (dispatch n) (owed ms) (dispatch m))

joined_parts :
    (x y : Option (List Call)) (r : List Call)
    → joined x y ≡ some r
    → (a : List Call) × (b : List Call) × (x ≡ some a) × (y ≡ some b) × (a ++ b ≡ r)
joined_parts none y r e = absurd (ground arith)
joined_parts (some a) none r e = absurd (ground arith)
joined_parts (some a) (some b) r e = (a, b, refl, refl, ground arith)

module _ {Q : Type 0} (queue : MsgQueue Msg Q) where
  -- A result that has made some of the calls that are due, in order, and still owes the others.
  pub record Keeps (due : List Call) (r : Option (Threads Q)) : Type 0 where
    pub after : Threads Q
    pub returned : r ≡ some after
    pub later : List Call
    pub owes : owed (queue.contents after.messages) ≡ some later
    pub all_due : after.calls ++ later ≡ due

  -- One action of the threads.
  abbrev pub act : Action → Threads Q → Option (Threads Q)
  act (enters s a) t = some (on_enter queue s a t)
  act (receives s bytes) t = some (push_data_msg queue s bytes t)
  act (closes s) t = some (on_close queue s t)
  act (completes f) t = some (push_complete_callback queue f t)
  act syncs t = some (sync_list queue t)
  act works_off t = proc_list queue t

  abbrev pub run : List Action → Threads Q → Option (Threads Q)
  run [] t = some t
  run (a ∷ actions) t = elim (act a t) [ none ↦ none | some u ↦ run actions u ]

module _ {Q : Type 0} (queue : MsgQueue Msg Q) (laws : QueueLaws queue) where
  proc_loop-Keeps :
      (fuel : ℕ) (t : Threads Q) (rest : List Call)
      → length (queue.contents t.messages) < fuel
      → owed (queue.contents t.messages) ≡ some rest
      → Keeps queue (t.calls ++ rest) (proc_loop queue fuel t)
  unfolding proc_loop
  proc_loop-Keeps zero t rest h o = absurd (omega arith)
  proc_loop-Keeps (suc fuel) t rest h o = elim (Option-cases (queue.pop_front t.messages)) [
    | inl e ↦
        rw (e, proc_loop)
          (record { after = t; returned = refl; later = rest; owes = o; all_due = refl })
    | inr (popped, e) ↦
        let front = laws.contents-pop_front t.messages popped.1 popped.0 e in
        let (a, b, made, left, all) =
          joined_parts (dispatch popped.0) (owed (queue.contents popped.1)) rest
            (ap owed (sym front) ∙ o) in
        let rounds =
          proc_loop queue fuel (record t { messages = popped.1; calls = t.calls ++ a }) in
        rw (e, proc_loop, made)
          (subst (λ due. Keeps queue due rounds)
            (append_assoc t.calls a b ∙ ap (λ l. t.calls ++ l) all)
            (proc_loop-Keeps fuel (record t { messages = popped.1; calls = t.calls ++ a }) b
              (omega (arith, ap length front)) left))
  ]

  push-Keeps :
      (m : Msg) (made : List Call) (t : Threads Q) (rest : List Call)
      → dispatch m ≡ some made
      → owed (queue.contents t.messages) ≡ some rest
      → Keeps queue (t.calls ++ (rest ++ made)) (some (push_msg queue m t))
  push-Keeps m made t rest d o = record {
    after = push_msg queue m t;
    returned = refl;
    later = rest ++ made;
    owes =
        ap owed (laws.contents-push m t.messages)
        ∙ owed-push (queue.contents t.messages) m
        ∙ rw (o, d) refl;
    all_due = refl;
  }

  pub act-Keeps :
      (a : Action) (t : Threads Q) (rest : List Call)
      → owed (queue.contents t.messages) ≡ some rest
      → Keeps queue (t.calls ++ (rest ++ call_of a)) (act queue a t)
  unfolding on_enter on_close push_data_msg push_complete_callback sync_list proc_list dispatch
  act-Keeps (enters s a) t rest o =
      push-Keeps (record { session = some s; msg_type = type_enter; packet = []; callback = none })
        (calls_enter s ∷ []) (record t { attached = update t.attached s (some a) }) rest refl o
  act-Keeps (receives s bytes) t rest o =
      push-Keeps
        (record { session = some s; msg_type = type_data; packet = bytes; callback = none })
        (calls_msg s bytes ∷ []) t rest refl o
  act-Keeps (closes s) t rest o =
      push-Keeps (record { session = some s; msg_type = type_close; packet = []; callback = none })
        (calls_close s ∷ []) t rest refl o
  act-Keeps (completes f) t rest o =
      push-Keeps
        (record {
          session = none;
          msg_type = type_complete_callback;
          packet = [];
          callback = some f;
        })
        (calls_callback f ∷ []) t rest refl o
  act-Keeps syncs t rest o = record {
    after = sync_list queue t;
    returned = refl;
    later = rest;
    owes = ap owed (laws.contents-force_sync_write t.messages) ∙ o;
    all_due = ap (λ l. t.calls ++ l) (sym (append-nil rest));
  }
  act-Keeps works_off t rest o =
      let read = queue.sync_read t.messages in
      rw append-nil (
        proc_loop-Keeps (length (queue.contents read) + 1) (record t { messages = read }) rest
          (omega arith) (ap owed (laws.contents-sync_read t.messages) ∙ o))

  pub run_from :
      (actions : List Action) (t : Threads Q) (rest : List Call)
      → owed (queue.contents t.messages) ≡ some rest
      → Keeps queue (t.calls ++ (rest ++ expected actions)) (run queue actions t)
  run_from [] t rest o =
      rw append-nil (record { after = t; returned = refl; later = rest; owes = o; all_due = refl })
  run_from (a ∷ actions) t rest o =
      let k = act-Keeps a t rest o in
      let r = run_from actions k.after k.later k.owes in
      record {
        after = r.after;
        returned =
            ap (λ o. elim o [ none ↦ none | some u ↦ run queue actions u ]) k.returned ∙ r.returned;
        later = r.later;
        owes = r.owes;
        all_due =
            r.all_due
            ∙ sym (append_assoc k.after.calls k.later (expected actions))
            ∙ ap (λ l. l ++ expected actions) k.all_due
            ∙ append_assoc t.calls (rest ++ call_of a) (expected actions)
            ∙ ap (λ l. t.calls ++ l) (append_assoc rest (call_of a) (expected actions));
      }

  -- From an empty queue, every run of the threads returns, calls through no null pointer, and has made
  -- the calls for what happened to the sockets, each once and in the order in which it was pushed, but
  -- for those of the messages that are still in the queue, which are the last ones.
  pub run-Keeps :
      (actions : List Action) (t : Threads Q)
      → queue.contents t.messages ≡ []
      → Keeps queue (t.calls ++ expected actions) (run queue actions t)
  run-Keeps actions t empty = run_from actions t [] (ap owed empty)
