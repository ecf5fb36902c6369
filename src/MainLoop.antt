-- ===== src/MainLoop.antt =====
-- CenterServer/CenterServer.cpp and LogicServer/LogicServer.cpp: the loop of the two mains, which is
-- the same but for a name. The event loop, the timers and the console are parameters.
pub mod Rounds
use dserver_framework.MsgQueue.{MsgQueue}
use dserver_framework.NetThread.{Msg, Threads, proc_list}
use dserver_framework.NetThread.Order.{Action, run}
use dserver_framework.ConnectionServer.Publishing.{quit}
use dserver_framework.Prelude.{
  ℕ, Bool, true, false, Option, none, some, List, [], ◌∷◌, ◌++◌, bytes_eq, if◌then◌else◌,
}

-- dodo::TimerMgr: isEmpty, nearEndMs at a time, and schedule at a time, which runs the timers that are
-- due; they are named by numbers, and T is what they leave.
pub record TimerLib (T : Type 0) : Type 0 where
  pub is_empty : T → Bool
  pub near_end_ms : ℕ → T → ℕ
  pub schedule : ℕ → T → List ℕ × T

-- A round: the line of the console if a key was hit, the time, and what the threads of the network do
-- until the event loop's wait is over.
pub record Round : Type 0 where
  pub console : Option (List ℕ)
  pub now : ℕ
  pub network : List Action

-- The timers that ran stand in their order; the waits and the logged lines are newest first.
pub record MainState (Q T : Type 0) : Type 0 where
  pub threads : Threads Q
  pub timers : T
  pub fired : List ℕ
  pub waits : List ℕ
  pub logged : List (List ℕ)

-- The console: the line is logged, and "quit" ends the loop.
abbrev pub lines_of : Option (List ℕ) → List (List ℕ)
lines_of none = []
lines_of (some line) = line ∷ []

abbrev pub log_console : {Q T : Type 0} → Option (List ℕ) → MainState Q T → MainState Q T
log_console console w = record w { logged = lines_of console ++ w.logged }

abbrev pub is_quit : Option (List ℕ) → Bool
is_quit none = false
is_quit (some line) = bytes_eq line quit

module _ {Q T : Type 0} (queue : MsgQueue Msg Q) (lib : TimerLib T) where
  abbrev pub timeout : ℕ → T → ℕ
  timeout now timers = if lib.is_empty timers then 1 else lib.near_end_ms now timers

  -- The end of a round: what schedule and procNet2LogicMsgList leave.
  abbrev pub worked : List ℕ → T → MainState Q T → Option (Threads Q) → Option (MainState Q T)
  worked fired timers w none = none
  worked fired timers w (some t) =
      some (record w { threads = t; timers = timers; fired = w.fired ++ fired })

  -- schedule and procNet2LogicMsgList, after the wait
  abbrev pub after_wait : Round → MainState Q T → Option (Threads Q) → Option (MainState Q T)
  after_wait r w none = none
  after_wait r w (some t) =
      let (fired, timers) = lib.schedule r.now w.timers in worked fired timers w (proc_list queue t)

  -- The rest of a round, after the console; `none` is a call through a null pointer.
  unfoldable pub main_round : Round → MainState Q T → Option (MainState Q T)
  main_round r w =
      let w' = record w { waits = timeout r.now w.timers ∷ w.waits } in
      after_wait r w' (run queue r.network w.threads)

  -- while (true), with whether it was left. Where the list ends, it goes on.
  unfoldable pub main_loop : List Round → MainState Q T → Option (MainState Q T × Bool)
  unfolding main_round
  main_loop [] w = some (w, false)
  main_loop (r ∷ rounds) w =
      let w' = log_console r.console w in
      let rest : Option (MainState Q T × Bool) = elim (main_round r w') [
        | none ↦ none
        | some v ↦ main_loop rounds v
      ] in
      if is_quit r.console then some (w', true) else rest
