-- ===== src/Log.antt =====
-- Common/WrapLog.h: the log, which other threads write into a queue, and its thread into the console
-- and a file. The queue, the formatting and the loggers are parameters. On a system other than
-- Windows setColor does nothing.
pub mod Round
pub mod Order
pub mod Console
use dserver_framework.MsgQueue.{MsgQueue}
use dserver_framework.Prelude.{
  ℕ, zero, suc, ◌+◌, Bool, true, false, Option, none, some, List, [], ◌∷◌, ◌++◌, length, leb, ltb,
  ◌==◌, if◌then◌else◌,
}

-- ThreadLog, with a level of spdlog as its number
pub record ThreadLog : Type 0 where
  pub level : ℕ
  pub msg : List ℕ

-- What fmt::format does with a format and its arguments: a text, or a FormatError with its what().
pub data Formatted : Type 0 where
  text : List ℕ → Formatted
  format_error : List ℕ → Formatted

-- spdlog::level::err, and for each logger whether its force_log of a line throws, and the what() of
-- that.
pub record Loggers : Type 0 where
  pub err : ℕ
  pub console_throws : ThreadLog → Bool
  pub disk_throws : ThreadLog → Bool
  pub what : List ℕ

-- `console` and `disk` are the lines that the loggers took, the oldest first.
pub record WrapLog (Q : Type 0) : Type 0 where
  pub min_level : ℕ
  pub is_close : Bool
  pub log_queue : Q
  pub console : List ThreadLog
  pub disk : List ThreadLog

-- " format error:"
abbrev pub format_error_text : List ℕ
format_error_text =
    32 ∷ 102 ∷ 111 ∷ 114 ∷ 109 ∷ 97 ∷ 116 ∷ 32 ∷ 101 ∷ 114 ∷ 114 ∷ 111 ∷ 114 ∷ 58 ∷ []

-- The line of a log call: in place of a text that cannot be formatted, the format and the reason.
abbrev pub line_of : Loggers → ℕ → List ℕ → Formatted → ThreadLog
line_of loggers level fmt (text s) = record { level = level; msg = s }
line_of loggers level fmt (format_error e) = record {
  level = loggers.err;
  msg = fmt ++ (format_error_text ++ e);
}

-- log.msg->c_str() as force_log reads it: the text up to its first NUL.
unfoldable pub c_str : List ℕ → List ℕ
c_str [] = []
c_str (x ∷ xs) = if x == 0 then [] else x ∷ c_str xs

-- The line that a logger is given.
abbrev pub cut : ThreadLog → ThreadLog
cut m = record m { msg = c_str m.msg }

-- maxConsole
abbrev pub max_console : ℕ
max_console = 100

module _ {Q : Type 0} (queue : MsgQueue ThreadLog Q) (loggers : Loggers) where
  -- pushLog, under the queue's mutex
  unfoldable pub push_log : ℕ → List ℕ → Formatted → WrapLog Q → WrapLog Q
  push_log level fmt formatted w =
      if leb w.min_level level
      then record w {
        log_queue =
            queue.force_sync_write (queue.push (line_of loggers level fmt formatted) w.log_queue);
      }
      else w

  -- outputConcole, outputDisk: the log, and whether the logger threw.
  abbrev pub output_console : ThreadLog → WrapLog Q → WrapLog Q × Bool
  output_console m w =
      if loggers.console_throws m
      then (w, true)
      else (record w { console = w.console ++ (cut m ∷ []) }, false)

  abbrev pub output_disk : ThreadLog → WrapLog Q → WrapLog Q × Bool
  output_disk m w =
      if loggers.disk_throws m
      then (w, true)
      else (record w { disk = w.disk ++ (cut m ∷ []) }, false)

  -- The body of while (mLogQueue.popFront(tmp)).
  unfoldable pub output_line : ThreadLog → WrapLog Q → WrapLog Q × Bool
  output_line m w =
      let (w', thrown) = output_disk m w in
      if thrown
      then (w', true)
      else if ltb (queue.read_list_size w'.log_queue) max_console
      then output_console m w'
      else (w', false)

  -- That loop, up to the end of the queue or an exception; true for an exception.
  unfoldable pub output_lines : ℕ → WrapLog Q → WrapLog Q × Bool
  output_lines zero w = (w, false)
  output_lines (suc fuel) w = elim (queue.pop_front w.log_queue) [
    | none ↦ (w, false)
    | some (m, q) ↦
        let (w', thrown) = output_line m (record w { log_queue = q }) in
        elim thrown [ true ↦ (w', true) | false ↦ output_lines fuel w' ]
  ]

  -- _error
  unfoldable pub report : List ℕ → WrapLog Q → WrapLog Q
  report what w =
      let m : ThreadLog = record { level = loggers.err; msg = what } in
      let (w', thrown) = output_console m w in if thrown then w' else (output_disk m w').0

  -- One round of the log's thread. Each round of its loop pops a line, so one more is enough.
  unfoldable pub log_round : WrapLog Q → WrapLog Q
  log_round w =
      let w' = record w { log_queue = queue.sync_read w.log_queue } in
      let (v, thrown) = output_lines (length (queue.read_list w'.log_queue) + 1) w' in
      if thrown then report loggers.what v else v

  -- while (!mIsClose)
  unfoldable pub log_thread : WrapLog Q → WrapLog Q
  log_thread w = if w.is_close then w else log_round w

  -- stop
  abbrev pub stop : WrapLog Q → WrapLog Q
  stop w = record w { is_close = true }

  -- setLevel
  abbrev pub set_level : ℕ → WrapLog Q → WrapLog Q
  set_level level w = record w { min_level = level }
