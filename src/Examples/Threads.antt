-- ===== src/Examples/Threads.antt =====
-- The message queue between the threads, at a concrete queue and run.
use dserver_framework.Prelude.{
  ℕ, ◌+◌, ◌-◌, leb, true, refl, none, some, List, [], ◌∷◌, ◌==◌, if◌then◌else◌,
}
use dserver_framework.ConnectionServer.Publishing.{quit}
use dserver_framework.MainLoop.{TimerLib, Round, MainState, main_loop}
use dserver_framework.MainLoop.Rounds.{Works, before_quit, is_left, network_of, main_loop_lem}
use dserver_framework.MsgQueue.Sample.{plain_queue, plain_queue-QueueLaws}
use dserver_framework.NetThread.{Msg, calls_enter, calls_msg, calls_close, Threads}
use dserver_framework.NetThread.Order.{
  Action, enters, receives, closes, syncs, works_off, Keeps, run, run-Keeps,
}

abbrev pub idle : Threads (List Msg)
idle = record { messages = []; attached = λ s. none; calls = [] }

abbrev actions : List Action
actions =
    enters 4 (record { socket_id = 11; ip = 1 ∷ [] })
    ∷ receives 4 (7 ∷ [])
    ∷ syncs
    ∷ works_off
    ∷ closes 4
    ∷ []

run-Keeps_example :
    Keeps
      (plain_queue Msg)
      (calls_enter 4 ∷ calls_msg 4 (7 ∷ []) ∷ calls_close 4 ∷ [])
      (run (plain_queue Msg) actions idle)
unfolding plain_queue
run-Keeps_example = run-Keeps (plain_queue Msg) (plain_queue-QueueLaws Msg) actions idle refl

-- One timer, due at 5000.
abbrev pub one_timer : TimerLib ℕ
one_timer = record {
  is_empty = λ t. t == 0;
  near_end_ms = λ now t. t - now;
  schedule = λ now t. if leb t now then (3 ∷ [], t + 5000) else ([], t);
}

abbrev main_rounds : List Round
main_rounds =
    record {
      console = none;
      now = 100;
      network =
          enters 4 (record { socket_id = 11; ip = 1 ∷ [] }) ∷ receives 4 (7 ∷ []) ∷ syncs ∷ [];
    }
    ∷ record { console = some (104 ∷ []); now = 6000; network = closes 4 ∷ [] }
    ∷ record { console = some quit; now = 6100; network = [] }
    ∷ []

abbrev pub main_start : MainState (List Msg) ℕ
main_start = record { threads = idle; timers = 5000; fired = []; waits = []; logged = [] }

main_loop_lem_example :
    Works
      (plain_queue Msg)
      (calls_enter 4 ∷ calls_msg 4 (7 ∷ []) ∷ calls_close 4 ∷ [])
      2
      true
      (main_loop (plain_queue Msg) one_timer main_rounds main_start)
unfolding plain_queue before_quit is_left network_of
main_loop_lem_example =
    main_loop_lem (plain_queue Msg) (plain_queue-QueueLaws Msg) one_timer main_rounds main_start
      refl
