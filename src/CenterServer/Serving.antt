-- ===== src/CenterServer/Serving.antt =====
-- CenterServer/CenterServer.cpp: the center server as a whole, the loop of main with the sessions of
-- the logic servers. The calls that the loop makes are those of CenterServerSession.
use dserver_framework.MsgQueue.{MsgQueue, QueueLaws}
use dserver_framework.Wire.{PacketLib}
use dserver_framework.NetThread.{Msg, Call, calls_enter, calls_msg, calls_close, calls_callback}
use dserver_framework.NetThread.Order.{expected, owed}
use dserver_framework.MainLoop.{TimerLib, Round, MainState, main_loop}
use dserver_framework.MainLoop.Rounds.{before_quit, is_left, network_of, main_loop_lem}
use dserver_framework.CenterServer.{Center}
use dserver_framework.CenterServer.Session.{on_msg, on_close}
use dserver_framework.CenterServer.Table.{
  start, construct, IsTable, Reach, starts, steps, step_msg, step_close, Reach-IsTable,
}
use dserver_framework.Prelude.{ℕ, ◌≡◌, refl, sym, ap, ◌∙◌, some, List, [], ◌∷◌, ◌++◌}

-- What a call does: onEnter is empty, a closed session is destroyed and its address used again, and a
-- completed callback is the application's.
unfoldable pub serve_call : PacketLib → Call → Center → Center
serve_call lib (calls_enter p) c = c
serve_call lib (calls_msg p message) c = on_msg lib p message c
serve_call lib (calls_close p) c = construct p (on_close p c)
serve_call lib (calls_callback f) c = c

unfoldable pub serve_calls : PacketLib → List Call → Center → Center
serve_calls lib [] c = c
serve_calls lib (call ∷ calls) c = serve_calls lib calls (serve_call lib call c)

serve_calls-append :
    (lib : PacketLib) (made later : List Call) (c : Center)
    → serve_calls lib (made ++ later) c ≡ serve_calls lib later (serve_calls lib made c)
unfolding serve_calls
serve_calls-append lib [] later c = refl
serve_calls-append lib (call ∷ made) later c =
    serve_calls-append lib made later (serve_call lib call c)

serve_call-Reach :
    (lib : PacketLib) (password : List ℕ) (call : Call) (c : Center)
    → Reach lib password c
    → Reach lib password (serve_call lib call c)
unfolding serve_call
serve_call-Reach lib password (calls_enter p) c r = r
serve_call-Reach lib password (calls_msg p message) c r = steps c _ r (step_msg p message c)
serve_call-Reach lib password (calls_close p) c r = steps c _ r (step_close p c)
serve_call-Reach lib password (calls_callback f) c r = r

serve_calls-Reach :
    (lib : PacketLib) (password : List ℕ) (calls : List Call) (c : Center)
    → Reach lib password c
    → Reach lib password (serve_calls lib calls c)
unfolding serve_calls
serve_calls-Reach lib password [] c r = r
serve_calls-Reach lib password (call ∷ calls) c r =
    serve_calls-Reach lib password calls (serve_call lib call c)
      (serve_call-Reach lib password call c r)

-- The center server's loop returns, whatever happens to the sockets and on the console. The state that
-- its sessions are in, once the calls of the messages that are still in the queue have been made too,
-- is the one that handling what happened before "quit", each event once and in order, leads to; none
-- of those messages has a null pointer; and both states have a right table of logic servers. The queue
-- is empty at the start, and no call has been made.
pub serve_calls-main_loop :
    {Q T : Type 0} (queue : MsgQueue Msg Q) (laws : QueueLaws queue) (timer_lib : TimerLib T)
    (lib : PacketLib) (password : List ℕ) (rounds : List Round) (w : MainState Q T)
    → queue.contents w.threads.messages ≡ []
    → w.threads.calls ≡ []
    → (v : MainState Q T) × (later : List Call) × (main_loop queue timer_lib rounds w
        ≡ some (v, is_left rounds))
      × (owed (queue.contents v.threads.messages) ≡ some later)
      × (serve_calls lib later (serve_calls lib v.threads.calls (start password))
          ≡ serve_calls lib (expected (network_of (before_quit rounds))) (start password))
      × IsTable (serve_calls lib v.threads.calls (start password))
      × IsTable (serve_calls lib (expected (network_of (before_quit rounds))) (start password))
serve_calls-main_loop queue laws timer_lib lib password rounds w empty no_calls =
    let works = main_loop_lem queue laws timer_lib rounds w empty in
    let due = expected (network_of (before_quit rounds)) in
    let table : (calls : List Call) → IsTable (serve_calls lib calls (start password)) = λ calls.
      Reach-IsTable lib password (serve_calls lib calls (start password))
        (serve_calls-Reach lib password calls (start password) starts) in
    (
      works.after,
      works.later,
      works.returned,
      works.owes,
      sym (serve_calls-append lib works.after.threads.calls works.later (start password))
          ∙ ap (λ calls. serve_calls lib calls (start password))
              (works.all_due ∙ ap (λ calls. calls ++ due) no_calls),
      table works.after.threads.calls,
      table due,
    )
