-- ===== src/Examples/Serving.antt =====
-- The center server as a whole, at a concrete row of rounds.
use dserver_framework.Prelude.{ℕ, ◌≡◌, refl, none, some, List, [], ◌∷◌}
use dserver_framework.MsgQueue.Sample.{plain_queue, plain_queue-QueueLaws}
use dserver_framework.Wire.Sample.{sample}
use dserver_framework.NetThread.{Msg, Call}
use dserver_framework.NetThread.Order.{enters, receives, closes, syncs, expected, owed}
use dserver_framework.LogicServer.Center.{center_login_packet}
use dserver_framework.ConnectionServer.Publishing.{quit}
use dserver_framework.MainLoop.{Round, MainState, main_loop}
use dserver_framework.MainLoop.Rounds.{before_quit, is_left, network_of}
use dserver_framework.CenterServer.Table.{start, IsTable}
use dserver_framework.CenterServer.Serving.{serve_calls, serve_calls-main_loop}
use dserver_framework.Examples.Center.{secret}
use dserver_framework.Examples.Threads.{one_timer, main_start}

-- The logic servers 2 and 3 log in, and the second closes.
abbrev login_rounds : List Round
login_rounds =
    record {
      console = none;
      now = 100;
      network =
          enters 5 (record { socket_id = 11; ip = 1 ∷ [] })
          ∷ receives 5 (center_login_packet sample secret 2)
          ∷ receives 6 (center_login_packet sample secret 3)
          ∷ syncs
          ∷ [];
    }
    ∷ record { console = none; now = 200; network = closes 6 ∷ [] }
    ∷ record { console = some quit; now = 300; network = [] }
    ∷ []

serve_calls-main_loop_example :
    (v : MainState (List Msg) ℕ) × (later : List Call) × (main_loop
        (plain_queue Msg)
        one_timer
        login_rounds
        main_start
      ≡ some (v, is_left login_rounds))
    × (owed ((plain_queue Msg).contents v.threads.messages) ≡ some later)
    × (serve_calls sample later (serve_calls sample v.threads.calls (start secret))
        ≡ serve_calls sample (expected (network_of (before_quit login_rounds))) (start secret))
    × IsTable (serve_calls sample v.threads.calls (start secret))
    × IsTable (serve_calls sample (expected (network_of (before_quit login_rounds))) (start secret))
unfolding plain_queue
serve_calls-main_loop_example =
    serve_calls-main_loop (plain_queue Msg) (plain_queue-QueueLaws Msg) one_timer sample secret
      login_rounds main_start refl refl
