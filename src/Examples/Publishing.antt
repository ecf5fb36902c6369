-- ===== src/Examples/Publishing.antt =====
-- A connection server that keeps its entry in etcd, at concrete inputs.
use dserver_framework.Prelude.{
  ℕ, ◌*◌, ◌≡◌, inr, none, some, List, [], ◌∷◌, arith, length, ◌==◌, if◌then◌else◌,
}
use dserver_framework.ConnectionServer.Publishing.{
  EtcdSetLib, EtcdSetLaws, Round, quit, entry_of, new_publisher, publish_loop,
}
use dserver_framework.ConnectionServer.Publishing.Lease.{
  AnswersBehind, IsWithin, rounds_before_quit, publish_loop-IsLeased,
}

-- The etcd server 0 is never heard of, and the others answer in 40 ms at most and have set the entry in
-- half that time.
abbrev lib : EtcdSetLib
lib = record {
  etcd_set = λ etcd now timeout e.
      if etcd == 0
      then record { body = []; took = timeout; set_after = 0 }
      else if timeout == 5000
      then record { body = 123 ∷ []; took = 40; set_after = 20 }
      else record { body = []; took = 0; set_after = 0 };
}

lib-EtcdSetLaws : EtcdSetLaws lib
lib-EtcdSetLaws = record {
  in_time = λ etcd now timeout e. ground arith;
  set_in_time = λ etcd now timeout e. ground arith;
}

-- The console takes 2 s for a line, and the sleep is longer at times.
abbrev rounds : List Round
rounds =
    record { line = none; console_took = 0; slept = 5000 }
    ∷ record { line = some (104 ∷ []); console_took = 2000; slept = 5010 }
    ∷ record { line = none; console_took = 1; slept = 6000 }
    ∷ record { line = some quit; console_took = 1500; slept = 5000 }
    ∷ record { line = none; console_took = 0; slept = 5000 }
    ∷ []

second_answers : (t : ℕ) → AnswersBehind lib (entry_of 7 (123 ∷ 125 ∷ [])) 40 1 (0 ∷ 1 ∷ []) t
second_answers t = inr (ground arith)

-- Three rounds before "quit", each of which waits for the etcd server 0.
publish_loop-IsLeased_example :
    let w =
      publish_loop lib (entry_of 7 (123 ∷ 125 ∷ [])) (0 ∷ 1 ∷ []) rounds (new_publisher 1000) in
    IsWithin (1000 * (entry_of 7 (123 ∷ 125 ∷ [])).ttl) w.sets
    × (length w.sets ≡ rounds_before_quit rounds)
publish_loop-IsLeased_example =
    publish_loop-IsLeased lib lib-EtcdSetLaws 7 (123 ∷ 125 ∷ []) (0 ∷ 1 ∷ []) 40 2000 rounds 1000
      second_answers (ground arith) (omega arith)
