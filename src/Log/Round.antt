-- ===== src/Log/Round.antt =====
-- What one round of the log's thread writes.
use dserver_framework.Prelude.{
  ℕ, zero, suc, ◌+◌, ◌-◌, ◌<◌, ◌≡◌, refl, sym, ap, ◌∙◌, inl, inr, Bool, false, none, some, List, [],
  ◌∷◌, ◌++◌, append-nil, append_assoc, arith, length, drop, map, ltb, if◌then◌else◌, Option-cases,
  Bool-cases,
}
use dserver_framework.MsgQueue.{MsgQueue, QueueLaws}
use dserver_framework.Log.{ThreadLog, Loggers, WrapLog, output_line, output_lines, log_round, cut}

-- Neither logger throws.
pub record IsQuiet (loggers : Loggers) : Type 0 where
  pub console : (m : ThreadLog) → loggers.console_throws m ≡ false
  pub disk : (m : ThreadLog) → loggers.disk_throws m ≡ false

-- The last 100 of the lines.
abbrev pub latest : List ThreadLog → List ThreadLog
latest lines = drop (length lines - 100) lines

module _ {Q : Type 0} (queue : MsgQueue ThreadLog Q) (laws : QueueLaws queue)
    (loggers : Loggers) where
  output_line_lem :
      (m : ThreadLog) (w : WrapLog Q)
      → IsQuiet loggers
      → output_line queue loggers m w ≡ (
        record w {
          disk = w.disk ++ (cut m ∷ []);
          console =
              if ltb (queue.read_list_size w.log_queue) 100
              then w.console ++ (cut m ∷ [])
              else w.console;
        },
        false,
      )
  unfolding output_line
  output_line_lem m w h = ground (arith, h.console m, h.disk m)

  latest-cons :
      (m : ThreadLog) (rest before : List ThreadLog)
      → (if ltb (length rest) 100 then before ++ (cut m ∷ []) else before) ++ map cut (latest rest)
        ≡ before ++ map cut (latest (m ∷ rest))
  latest-cons m rest before = elim (Bool-cases (ltb (length rest) 100)) [
    | inl few ↦
        let none_cut : length rest - 100 ≡ 0 = ground arith in
        let none_cut' : suc (length rest) - 100 ≡ 0 = ground arith in
        rw (few, none_cut, none_cut') (append_assoc before (cut m ∷ []) (map cut rest))
    | inr many ↦
        let one_more : suc (length rest) - 100 ≡ suc (length rest - 100) = ground arith in
        rw (many, one_more) refl
  ]

  -- The lines of a batch, and what is left of the queue.
  pub record Written (w : WrapLog Q) (r : WrapLog Q × Bool) : Type 0 where
    pub left : Q
    pub wrote : r ≡ (
      record w {
        log_queue = left;
        disk = w.disk ++ map cut (queue.read_list w.log_queue);
        console = w.console ++ map cut (latest (queue.read_list w.log_queue));
      },
      false,
    )
    pub split : queue.contents w.log_queue ≡ queue.read_list w.log_queue ++ queue.contents left

  -- The log behind a line that was taken from the queue.
  behind : ThreadLog → Q → WrapLog Q → WrapLog Q
  behind m q w = record w {
    log_queue = q;
    disk = w.disk ++ (cut m ∷ []);
    console = if ltb (queue.read_list_size q) 100 then w.console ++ (cut m ∷ []) else w.console;
  }

  one_line :
      (fuel : ℕ) (w : WrapLog Q) (m : ThreadLog) (q : Q)
      → IsQuiet loggers
      → queue.pop_front w.log_queue ≡ some (m, q)
      → output_lines queue loggers (suc fuel) w ≡ output_lines queue loggers fuel (behind m q w)
  unfolding output_lines behind
  one_line fuel w m q h e =
      let line = output_line_lem m (record w { log_queue = q }) h in
      rw (e, output_lines, line)
        (ap (λ (r : WrapLog Q × Bool). output_lines queue loggers fuel r.0) line)

  last_line :
      (fuel : ℕ) (w : WrapLog Q)
      → queue.pop_front w.log_queue ≡ none
      → output_lines queue loggers (suc fuel) w ≡ (w, false)
  unfolding output_lines
  last_line fuel w e = rw (e, output_lines) refl

  output_lines-Written :
      (fuel : ℕ) (w : WrapLog Q)
      → IsQuiet loggers
      → length (queue.read_list w.log_queue) < fuel
      → Written w (output_lines queue loggers fuel w)
  unfolding behind
  output_lines-Written zero w h enough = absurd (omega arith)
  output_lines-Written (suc fuel) w h enough = elim (Option-cases (queue.pop_front w.log_queue)) [
    | inl e ↦
        let nothing = laws.read_list-empty w.log_queue e in
        record {
          left = w.log_queue;
          wrote = last_line fuel w e ∙ rw (nothing, append-nil w.disk, append-nil w.console) refl;
          split = rw nothing refl;
        }
    | inr ((m, q), e) ↦
        let listed = laws.read_list-pop_front w.log_queue q m e in
        let sized = laws.read_list_size_lem q in
        let rest = output_lines-Written fuel (behind m q w) h (omega (arith, ap length listed)) in
        record {
          left = rest.left;
          wrote =
              one_line fuel w m q h e
              ∙ rest.wrote
              ∙ rw (listed, sized, append_assoc, latest-cons m (queue.read_list q) w.console) refl;
          split =
              laws.contents-pop_front w.log_queue q m e ∙ rw listed (ap (λ l. m ∷ l) rest.split);
        }
  ]

  -- Where neither logger throws: a round writes the lines of the read list, each cut at its first NUL,
  -- into the file, all of them and in order, and the last 100 of them on the console, takes them from
  -- the queue, which keeps the others, and leaves the level as it is.
  pub log_round_lem :
      (w : WrapLog Q)
      → IsQuiet loggers
      → let read = queue.sync_read w.log_queue in
        let v = log_round queue loggers w in
        (v.disk ≡ w.disk ++ map cut (queue.read_list read))
        × (v.console ≡ w.console ++ map cut (latest (queue.read_list read)))
        × (queue.contents w.log_queue ≡ queue.read_list read ++ queue.contents v.log_queue)
        × (v.min_level ≡ w.min_level)
  unfolding log_round
  log_round_lem w h =
      let read = queue.sync_read w.log_queue in
      let w' = record w { log_queue = read } in
      let r = output_lines-Written (length (queue.read_list read) + 1) w' h (omega arith) in
      (
        rw (r.wrote, log_round) refl,
        rw (r.wrote, log_round) refl,
        sym (laws.contents-sync_read w.log_queue) ∙ r.split ∙ rw (r.wrote, log_round) refl,
        rw (r.wrote, log_round) refl,
      )
