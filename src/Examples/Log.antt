-- ===== src/Examples/Log.antt =====
-- The log at concrete inputs.
use dserver_framework.Prelude.{◌≡◌, refl, false, List, [], ◌∷◌, ◌++◌}
use dserver_framework.MsgQueue.Sample.{plain_queue, plain_queue-QueueLaws}
use dserver_framework.Log.{ThreadLog, c_str, text, format_error, Loggers, WrapLog}
use dserver_framework.Log.Round.{IsQuiet}
use dserver_framework.Log.Console.{Levels}
use dserver_framework.Log.Order.{
  LogAction, logs, levels, turns, stops, logged, run_log, kept, run_log-kept,
}

abbrev quiet : Loggers
quiet = record { err = 5; console_throws = λ m. false; disk_throws = λ m. false; what = [] }

quiet-IsQuiet : IsQuiet quiet
quiet-IsQuiet = record { console = λ m. refl; disk = λ m. refl }

abbrev line : ThreadLog
line = record { level = 2; msg = 104 ∷ 105 ∷ [] }

-- One line waits.
abbrev log : WrapLog (List ThreadLog)
log = record { min_level = 1; is_close = false; log_queue = line ∷ []; console = []; disk = [] }

-- A line below the level, one that cannot be formatted, and one behind stop.
abbrev log_actions : List LogAction
log_actions =
    levels 3
    ∷ logs 2 (1 ∷ []) (text (1 ∷ []))
    ∷ logs 4 (2 ∷ []) (format_error (3 ∷ []))
    ∷ turns
    ∷ stops
    ∷ logs 4 (7 ∷ []) (text (7 ∷ 0 ∷ 8 ∷ []))
    ∷ []

run_log-kept_example :
    kept (plain_queue ThreadLog) quiet (run_log (plain_queue ThreadLog) quiet log_actions log)
    ≡ (line ∷ []) ++ logged quiet 1 log_actions
unfolding plain_queue c_str
run_log-kept_example =
    run_log-kept (plain_queue ThreadLog) (plain_queue-QueueLaws ThreadLog) quiet log_actions log
      quiet-IsQuiet

-- The console is gray and intense; a line of an unknown level keeps the colour of the one before it.
abbrev levels_of : Levels
levels_of = record { debug = 1; info = 2; warn = 4; err = 5 }

abbrev shown_lines : List ThreadLog
shown_lines =
    line
    ∷ record { level = 5; msg = [] }
    ∷ record { level = 3; msg = [] }
    ∷ record { level = 4; msg = [] }
    ∷ []
