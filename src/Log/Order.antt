-- ===== src/Log/Order.antt =====
-- What the log's thread writes, whatever the other threads log and whenever it runs.
use mathlib.Core.List.{map-append}
use dserver_framework.Prelude.{
  ℕ, ◌≡◌, refl, sym, ap, ◌∙◌, inl, inr, true, List, [], ◌∷◌, ◌++◌, append-nil, append_assoc, map,
  arith, leb, if◌then◌else◌, Bool-cases,
}
use dserver_framework.MsgQueue.{MsgQueue, QueueLaws}
use dserver_framework.Log.{
  ThreadLog, cut, Formatted, Loggers, WrapLog, line_of, push_log, log_round, log_thread, stop,
  set_level,
}
use dserver_framework.Log.Round.{IsQuiet, log_round_lem}

-- What the threads do with a log: a log call, with what the formatting does; setLevel; a turn of the
-- log's thread; stop.
pub data LogAction : Type 0 where
  logs : ℕ → List ℕ → Formatted → LogAction
  levels : ℕ → LogAction
  turns : LogAction
  stops : LogAction

-- The lines of the calls, each cut at its first NUL, by the level that is set when they are made.
abbrev pub logged : Loggers → ℕ → List LogAction → List ThreadLog
logged loggers level [] = []
logged loggers level (logs l fmt formatted ∷ actions) =
    if leb level l
    then cut (line_of loggers l fmt formatted) ∷ logged loggers level actions
    else logged loggers level actions
logged loggers level (levels l ∷ actions) = logged loggers l actions
logged loggers level (turns ∷ actions) = logged loggers level actions
logged loggers level (stops ∷ actions) = logged loggers level actions

module _ {Q : Type 0} (queue : MsgQueue ThreadLog Q) (loggers : Loggers) where
  abbrev pub act_log : LogAction → WrapLog Q → WrapLog Q
  act_log (logs level fmt formatted) w = push_log queue loggers level fmt formatted w
  act_log (levels level) w = set_level queue loggers level w
  act_log turns w = log_thread queue loggers w
  act_log stops w = stop queue loggers w

  abbrev pub run_log : List LogAction → WrapLog Q → WrapLog Q
  run_log [] w = w
  run_log (a ∷ actions) w = run_log actions (act_log a w)

  -- The file, and behind it the lines of the queue as they get into a file.
  abbrev pub kept : WrapLog Q → List ThreadLog
  kept w = w.disk ++ map cut (queue.contents w.log_queue)

module _ {Q : Type 0} (queue : MsgQueue ThreadLog Q) (laws : QueueLaws queue)
    (loggers : Loggers) where
  kept-log_thread :
      (w : WrapLog Q)
      → IsQuiet loggers
      → (kept queue loggers (log_thread queue loggers w) ≡ kept queue loggers w)
        × ((log_thread queue loggers w).min_level ≡ w.min_level)
  unfolding log_thread
  kept-log_thread w h = elim (Bool-cases w.is_close) [
    | inl closed ↦ rw (closed, log_thread) (refl, refl)
    | inr running ↦
        let (disk, console, split, level) = log_round_lem queue laws loggers w h in
        let read = queue.read_list (queue.sync_read w.log_queue) in
        let v = log_round queue loggers w in
        let turn : log_thread queue loggers w ≡ v = ground arith in
        rw turn (
          ap (λ l. l ++ map cut (queue.contents v.log_queue)) disk
              ∙ append_assoc w.disk (map cut read) (map cut (queue.contents v.log_queue))
              ∙ ap (λ l. w.disk ++ l) (sym (map-append cut read (queue.contents v.log_queue)))
              ∙ ap (λ l. w.disk ++ map cut l) (sym split),
          level,
        )
  ]

  kept-push_log :
      (level : ℕ) (fmt : List ℕ) (formatted : Formatted) (w : WrapLog Q)
      → kept queue loggers (push_log queue loggers level fmt formatted w) ≡ (
          if leb w.min_level level
          then kept queue loggers w ++ (cut (line_of loggers level fmt formatted) ∷ [])
          else kept queue loggers w)
  unfolding push_log
  kept-push_log level fmt formatted w = elim (Bool-cases (leb w.min_level level)) [
    | inl high ↦
        let m = line_of loggers level fmt formatted in
        let pushed = queue.push m w.log_queue in
        rw (high, push_log)
          (ap (λ l. w.disk ++ map cut l)
              (laws.contents-force_sync_write pushed ∙ laws.contents-push m w.log_queue)
            ∙ ap (λ l. w.disk ++ l) (map-append cut (queue.contents w.log_queue) (m ∷ []))
            ∙ sym (append_assoc w.disk (map cut (queue.contents w.log_queue)) (cut m ∷ [])))
    | inr low ↦ rw (low, push_log) refl
  ]

  min_level-push_log :
      (level : ℕ) (fmt : List ℕ) (formatted : Formatted) (w : WrapLog Q)
      → (push_log queue loggers level fmt formatted w).min_level ≡ w.min_level
  unfolding push_log
  min_level-push_log level fmt formatted w = ground arith

  -- Whatever the threads log and whenever the log's thread runs, where neither logger throws: the file,
  -- and behind it the queue, have the lines of the log calls of the level that was set or a higher one,
  -- each once and in the order of the calls, behind what they had before; each line is cut at its first
  -- NUL, those of the queue when they get into the file.
  pub run_log-kept :
      (actions : List LogAction) (w : WrapLog Q)
      → IsQuiet loggers
      → kept queue loggers (run_log queue loggers actions w)
        ≡ kept queue loggers w ++ logged loggers w.min_level actions
  run_log-kept [] w h = sym (append-nil (kept queue loggers w))
  run_log-kept (logs l fmt formatted ∷ actions) w h =
      let m = line_of loggers l fmt formatted in
      let v = push_log queue loggers l fmt formatted w in
      let more = logged loggers w.min_level actions in
      let rest : kept queue loggers (run_log queue loggers actions v)
          ≡ kept queue loggers v ++ more =
        run_log-kept actions v h
        ∙ ap (λ n. kept queue loggers v ++ logged loggers n actions)
            (min_level-push_log l fmt formatted w) in
      rest ∙ elim (Bool-cases (leb w.min_level l)) [
        | inl high ↦
            rw (kept-push_log l fmt formatted w, high)
              (append_assoc (kept queue loggers w) (cut m ∷ []) more)
        | inr low ↦ rw (kept-push_log l fmt formatted w, low) refl
      ]
  run_log-kept (levels l ∷ actions) w h = run_log-kept actions (set_level queue loggers l w) h
  run_log-kept (turns ∷ actions) w h =
      let (same, level) = kept-log_thread w h in
      run_log-kept actions (log_thread queue loggers w) h ∙ rw (same, level) refl
  run_log-kept (stops ∷ actions) w h = run_log-kept actions (stop queue loggers w) h

module _ {Q : Type 0} (queue : MsgQueue ThreadLog Q) (loggers : Loggers) where
  closed-run_log :
      (actions : List LogAction) (w : WrapLog Q)
      → w.is_close ≡ true
      → let v = run_log queue loggers actions w in (v.disk ≡ w.disk) × (v.console ≡ w.console)
  unfolding push_log log_thread
  closed-run_log [] w h = (refl, refl)
  closed-run_log (logs l fmt formatted ∷ actions) w h =
      let v = push_log queue loggers l fmt formatted w in
      let (disk, console) = closed-run_log actions v (ground arith) in
      (disk ∙ ground arith, console ∙ ground arith)
  closed-run_log (levels l ∷ actions) w h = closed-run_log actions (set_level queue loggers l w) h
  closed-run_log (turns ∷ actions) w h =
      let v = log_thread queue loggers w in
      let (disk, console) = closed-run_log actions v (ground arith) in
      (disk ∙ ground arith, console ∙ ground arith)
  closed-run_log (stops ∷ actions) w h = closed-run_log actions (stop queue loggers w) refl

  -- What is still in the queue when the log is stopped never gets into the file or onto the console,
  -- and neither does what is logged afterwards.
  run_log_stopped :
      (actions : List LogAction) (w : WrapLog Q)
      → let v = run_log queue loggers (stops ∷ actions) w in
        (v.disk ≡ w.disk) × (v.console ≡ w.console)
  run_log_stopped actions w = closed-run_log actions (stop queue loggers w) refl
