-- ===== src/MainLoop/Rounds.antt =====
-- The mains' loop works the messages off in each round up to the one with "quit".
use dserver_framework.MsgQueue.{MsgQueue, QueueLaws}
use dserver_framework.NetThread.{Msg, Call}
use dserver_framework.NetThread.Order.{
  Action, works_off, call_of, owed, expected, act-Keeps, run_from,
}
use dserver_framework.MainLoop.{
  TimerLib, Round, MainState, timeout, after_wait, main_round, main_loop, is_quit, log_console,
  worked,
}
use dserver_framework.Prelude.{
  ℕ, ◌+◌, ◌≡◌, refl, sym, ap, ◌∙◌, inl, inr, Bool-cases, Bool, true, false, Option, none, some,
  List, [], ◌∷◌, ◌++◌, append-nil, append_assoc, arith, length, if◌then◌else◌,
}

-- Whether the console says "quit" in one of the rounds, the rounds before that, and what the threads
-- of the network do in a row of rounds.
unfoldable pub before_quit : List Round → List Round
before_quit [] = []
before_quit (r ∷ rounds) =
    let rest = before_quit rounds in if is_quit r.console then [] else r ∷ rest

unfoldable pub is_left : List Round → Bool
is_left [] = false
is_left (r ∷ rounds) = let rest = is_left rounds in if is_quit r.console then true else rest

unfoldable pub network_of : List Round → List Action
network_of [] = []
network_of (r ∷ rounds) = r.network ++ network_of rounds

expected-append : (a b : List Action) → expected (a ++ b) ≡ expected a ++ expected b
expected-append [] b = refl
expected-append (x ∷ a) b =
    ap (λ l. call_of x ++ l) (expected-append a b)
    ∙ sym (append_assoc (call_of x) (expected a) (expected b))

more_due :
    (made later calls rest now more : List Call)
    → made ++ later ≡ calls ++ (rest ++ now)
    → made ++ (later ++ more) ≡ calls ++ (rest ++ (now ++ more))
more_due made later calls rest now more e =
    sym (append_assoc made later more)
    ∙ ap (λ l. l ++ more) e
    ∙ append_assoc calls (rest ++ now) more
    ∙ ap (λ l. calls ++ l) (append_assoc rest now more)

-- What is known of the loop's state after a row of rounds.
pub record Works {Q T : Type 0} (queue : MsgQueue Msg Q) (due : List Call) (worked : ℕ)
    (left : Bool) (r : Option (MainState Q T × Bool)) : Type 0 where
  pub after : MainState Q T
  pub returned : r ≡ some (after, left)
  pub later : List Call
  pub owes : owed (queue.contents after.threads.messages) ≡ some later
  pub all_due : after.threads.calls ++ later ≡ due
  pub waited : length after.waits ≡ worked

module _ {Q T : Type 0} (queue : MsgQueue Msg Q) (laws : QueueLaws queue) (lib : TimerLib T) where
  abbrev RoundWorks : List Call → ℕ → Option (MainState Q T) → Type 0
  RoundWorks due worked r =
      (v : MainState Q T) × (later : List Call) × (r ≡ some v)
      × (owed (queue.contents v.threads.messages) ≡ some later)
      × (v.threads.calls ++ later ≡ due)
      × (length v.waits ≡ worked)

  main_round-RoundWorks :
      (r : Round) (w : MainState Q T) (rest : List Call)
      → owed (queue.contents w.threads.messages) ≡ some rest
      → RoundWorks
          (w.threads.calls ++ (rest ++ expected r.network))
          (length w.waits + 1)
          (main_round queue lib r w)
  unfolding main_round
  main_round-RoundWorks r w rest o =
      let k = run_from queue laws r.network w.threads rest o in
      let l = act-Keeps queue laws works_off k.after k.later k.owes in
      let (fired, timers) = lib.schedule r.now w.timers in
      let w' : MainState Q T = record w { waits = timeout queue lib r.now w.timers ∷ w.waits } in
      let v : MainState Q T = record w' {
        threads = l.after;
        timers = timers;
        fired = w.fired ++ fired;
      } in
      (
        v,
        l.later,
        ap (after_wait queue lib r w') k.returned
            ∙ ap (worked queue lib fired timers w') l.returned,
        l.owes,
        l.all_due ∙ ap (λ x. k.after.calls ++ x) (append-nil k.later) ∙ k.all_due,
        omega arith,
      )

  main_loop-Works :
      (rounds : List Round) (w : MainState Q T) (rest : List Call)
      → owed (queue.contents w.threads.messages) ≡ some rest
      → Works queue
          (w.threads.calls ++ (rest ++ expected (network_of (before_quit rounds))))
          (length w.waits + length (before_quit rounds))
          (is_left rounds)
          (main_loop queue lib rounds w)
  unfolding main_loop before_quit is_left network_of
  main_loop-Works [] w rest o = record {
    after = w;
    returned = refl;
    later = rest;
    owes = o;
    all_due = ap (λ l. w.threads.calls ++ l) (sym (append-nil rest));
    waited = omega arith;
  }
  main_loop-Works (r ∷ rounds) w rest o =
      let w' : MainState Q T = log_console r.console w in
      let (v, later, returned, owes, due, waited) = main_round-RoundWorks r w' rest o in
      let l = main_loop-Works rounds v later owes in
      elim (Bool-cases (is_quit r.console)) [
        | inl e ↦
            rw (e, main_loop, before_quit, is_left)
              (record {
                after = w';
                returned = refl;
                later = rest;
                owes = o;
                all_due = ap (λ l. w.threads.calls ++ l) (sym (append-nil rest));
                waited = omega arith;
              })
        | inr e ↦
            rw (e, main_loop, before_quit, is_left)
              (record {
                after = l.after;
                returned =
                    ap (λ o. elim o [ none ↦ none | some u ↦ main_loop queue lib rounds u ])
                      returned
                    ∙ l.returned;
                later = l.later;
                owes = l.owes;
                all_due =
                    l.all_due
                    ∙ more_due v.threads.calls later w.threads.calls rest (expected r.network)
                        (expected (network_of (before_quit rounds))) due
                    ∙ ap (λ x. w.threads.calls ++ (rest ++ x))
                        (sym (expected-append r.network (network_of (before_quit rounds))));
                waited = omega (arith, l.waited, waited);
              })
      ]

  -- From an empty queue, the loop of main returns whatever happens on the threads of the network and
  -- whatever the timers do. It is left if the console says "quit", and at the first time that it does.
  -- It has waited once in each round before that, and has made the calls for what happened to the
  -- sockets in those rounds, each once and in order, but for those of the messages that are still in
  -- the queue, which are the last ones.
  pub main_loop_lem :
      (rounds : List Round) (w : MainState Q T)
      → queue.contents w.threads.messages ≡ []
      → Works queue
          (w.threads.calls ++ expected (network_of (before_quit rounds)))
          (length w.waits + length (before_quit rounds))
          (is_left rounds)
          (main_loop queue lib rounds w)
  main_loop_lem rounds w empty = main_loop-Works rounds w [] (ap owed empty)
