-- ===== src/ConnectionServer/Publishing/Lease.antt =====
-- The entry of a connection server in etcd is set again before it has run out.
use dserver_framework.Prelude.{
  ℕ, zero, suc, ◌+◌, ◌*◌, ◌≤◌, ◌<◌, ◌≡◌, ◌≢◌, ◌⊎◌, inl, inr, List, [], ◌∷◌, arith, length,
  if◌then◌else◌, Bool-cases, All,
}
use dserver_framework.ConnectionServer.Publishing.{
  Entry, EtcdSetLib, EtcdSetLaws, Publisher, publish, publish_round, publish_loop, is_quit, console,
  Round, entry_of, new_publisher,
}

-- Of the etcd servers, asked in order from a time on, one answers within `quick`, behind at most
-- `silent` ones that do not answer.
abbrev pub AnswersBehind : EtcdSetLib → Entry → ℕ → ℕ → List ℕ → ℕ → Type 0
AnswersBehind lib entry quick silent [] now = ⊥
AnswersBehind lib entry quick zero (etcd ∷ etcds) now =
    let a = lib.etcd_set etcd now 5000 entry in (length a.body ≢ 0) × (a.took ≤ quick)
AnswersBehind lib entry quick (suc silent) (etcd ∷ etcds) now =
    let a = lib.etcd_set etcd now 5000 entry in
    ((length a.body ≢ 0) × (a.took ≤ quick))
    ⊎ ((length a.body ≡ 0) × AnswersBehind lib entry quick silent etcds (now + a.took))

-- The console takes at most `late`, and the sleep is at most that much longer than 5 s.
abbrev pub IsPrompt : ℕ → Round → Type 0
IsPrompt late r = (r.console_took ≤ late) × (r.slept ≤ 5000 + late)

-- Times, newest first, each less than `gap` after the one before.
abbrev pub IsWithin : ℕ → List ℕ → Type 0
IsWithin gap [] = Unit
IsWithin gap (t ∷ []) = Unit
IsWithin gap (t ∷ s ∷ times) = (t < s + gap) × IsWithin gap (s ∷ times)

-- The rounds that are worked: those before the first line "quit".
unfoldable pub rounds_before_quit : List Round → ℕ
rounds_before_quit [] = 0
rounds_before_quit (r ∷ rounds) =
    let rest = rounds_before_quit rounds in if is_quit r.line then 0 else suc rest

abbrev Recent : ℕ → ℕ → List ℕ → Type 0
Recent bound now [] = Unit
Recent bound now (t ∷ times) = now ≤ t + bound

cons-IsWithin :
    (gap bound now t : ℕ) (times : List ℕ)
    → Recent bound now times
    → t + bound < now + gap
    → IsWithin gap times
    → IsWithin gap (t ∷ times)
cons-IsWithin gap bound now t [] recent h within = tt
cons-IsWithin gap bound now t (s ∷ times) recent h within = (omega (arith, recent, h), within)

later-Recent :
    (bound late more now : ℕ) (times : List ℕ)
    → more ≤ late
    → Recent bound now times
    → Recent (bound + late) (now + more) times
later-Recent bound late more now [] h recent = tt
later-Recent bound late more now (t ∷ times) h recent = omega (arith, recent, h)

module _ (lib : EtcdSetLib) (entry : Entry) (laws : EtcdSetLaws lib) (quick late : ℕ) where
  -- The entry is set once, `quick` before the call ends at the most.
  publish_lem :
      (silent : ℕ) (etcds : List ℕ) (w : Publisher)
      → AnswersBehind lib entry quick silent etcds w.now
      → let w' = publish lib entry etcds w in
        (t : ℕ) × (w'.sets ≡ t ∷ w.sets)
        × (w'.now ≤ t + quick)
        × (t ≤ w.now + (5000 * silent + quick))
  unfolding publish
  publish_lem silent [] w h = absurd h
  publish_lem zero (etcd ∷ etcds) w h =
      let a = lib.etcd_set etcd w.now 5000 entry in
      let set = laws.set_in_time etcd w.now 5000 entry in
      (w.now + a.set_after, ground (arith, h.0), ground (arith, h.0, h.1), omega (arith, h.1, set))
  publish_lem (suc silent) (etcd ∷ etcds) w h =
      let a = lib.etcd_set etcd w.now 5000 entry in
      let fast = laws.in_time etcd w.now 5000 entry in
      let set = laws.set_in_time etcd w.now 5000 entry in
      elim h [
        | inl answers ↦ (
          w.now + a.set_after,
          ground (arith, answers.0),
          ground (arith, answers.0, answers.1),
          omega (arith, answers.1, set),
        )
        | inr behind ↦
            let later : Publisher = record w { now = w.now + a.took } in
            let (t, added, ended, soon) = publish_lem silent etcds later behind.1 in
            (
              t,
              ground (arith, behind.0, added),
              ground (arith, behind.0, ended),
              omega (arith, soon, fast),
            )
      ]

  abbrev IsFresh : Publisher → Type 0
  IsFresh w = IsWithin 15000 w.sets × Recent (quick + (5000 + late)) w.now w.sets

  round-IsFresh :
      (etcds : List ℕ) (r : Round) (w : Publisher)
      → AnswersBehind lib entry quick 1 etcds (w.now + r.console_took)
      → IsPrompt late r
      → 2 * quick + 2 * late < 5000
      → IsFresh w
      → let w' = publish_round lib entry etcds r (console r w) in
        IsFresh w' × (length w'.sets ≡ length w.sets + 1)
  unfolding publish_round console
  round-IsFresh etcds r w h prompt short fresh =
      let started = console r w in
      let (t, added, ended, soon) = publish_lem 1 etcds started h in
      let bound = (quick + (5000 + late)) + late in
      let recent : Recent bound started.now w.sets =
        later-Recent (quick + (5000 + late)) late r.console_took w.now w.sets prompt.0 fresh.1 in
      let within : IsWithin 15000 (t ∷ w.sets) =
        cons-IsWithin 15000 bound started.now t w.sets recent (omega (arith, soon, short))
          fresh.0 in
      rw added ((within, omega (arith, ended, prompt.1)), omega arith)

  loop-IsFresh :
      (etcds : List ℕ) (rounds : List Round) (w : Publisher)
      → ((now : ℕ) → AnswersBehind lib entry quick 1 etcds now)
      → All (IsPrompt late) rounds
      → 2 * quick + 2 * late < 5000
      → IsFresh w
      → let w' = publish_loop lib entry etcds rounds w in
        IsWithin 15000 w'.sets × (length w'.sets ≡ length w.sets + rounds_before_quit rounds)
  unfolding publish_loop rounds_before_quit console
  loop-IsFresh etcds [] w h prompt short fresh = (fresh.0, omega arith)
  loop-IsFresh etcds (r ∷ rounds) w h prompt short fresh =
      let w' = publish_round lib entry etcds r (console r w) in
      let round = round-IsFresh etcds r w (h (w.now + r.console_took)) prompt.0 short fresh in
      let l = loop-IsFresh etcds rounds w' h prompt.1 short round.0 in
      elim (Bool-cases (is_quit r.line)) [
        | inl e ↦ rw (e, publish_loop, rounds_before_quit) (fresh.0, omega arith)
        | inr e ↦ rw (e, publish_loop, rounds_before_quit) (l.0, omega (arith, l.1, round.1))
      ]

-- In each round before the console says "quit", an etcd server answers once that it has set the
-- connection server's entry, and each time, after the first, the entry is set less than 15 s, the
-- seconds that it lives, after the time before, if, at every time, one of the first two etcd servers
-- answers within `quick`, the second one after the first has taken its time without an answer, if the
-- console takes at most `late` in a round and sleep_for(5 s) is at most `late` too long, and if twice
-- `quick` and twice `late` are less than 5 s together. A call ends by its timeout, and an etcd server
-- that answers has set the entry in the time of the call.
pub publish_loop-IsLeased :
    (lib : EtcdSetLib) (laws : EtcdSetLaws lib) (id : ℕ) (text etcds : List ℕ) (quick late : ℕ)
    (rounds : List Round) (now : ℕ)
    → ((t : ℕ) → AnswersBehind lib (entry_of id text) quick 1 etcds t)
    → All (IsPrompt late) rounds
    → 2 * quick + 2 * late < 5000
    → let w = publish_loop lib (entry_of id text) etcds rounds (new_publisher now) in
      IsWithin (1000 * (entry_of id text).ttl) w.sets × (length w.sets ≡ rounds_before_quit rounds)
publish_loop-IsLeased lib laws id text etcds quick late rounds now h prompt short =
    let l =
      loop-IsFresh lib (entry_of id text) laws quick late etcds rounds (new_publisher now) h prompt
        short (tt, tt) in
    (l.0, omega (arith, l.1))
