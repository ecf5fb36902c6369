-- ===== src/Examples/Link.antt =====
-- The logic server's connection to the center server, at concrete inputs.
use dserver_framework.Prelude.{
  ℕ, ◌+◌, ◌≡◌, ◌≢◌, ◌↔◌, refl, none, some, [], ◌∷◌, arith, length, lookup, insert,
}
use dserver_framework.Wire.Sample.{sample}
use dserver_framework.LogicServer.Link.{
  Link, entered, closed, start_connect_thread, auto_connect_server, after_sleep, enter, ping_fires,
  message, close, destroy, make_connection,
}
use dserver_framework.LogicServer.Link.Steps.{
  step_fails, step_connects, step_wakes, step_enters, step_pings, step_message, step_closes,
  step_destroys, LinkReach, stays, goes, before,
}
use dserver_framework.LogicServer.Link.Once.{LinkReach-one}
use dserver_framework.LogicServer.Link.Reconnect.{LinkReach-Connected}
use dserver_framework.Examples.Center.{host}

-- The first connect fails, the second makes the connection 5, which enters, pings and has a pong,
-- closes and is destroyed.
abbrev begin : Link
begin = start_connect_thread (before host)

abbrev awake : Link
awake = after_sleep (auto_connect_server none begin)

abbrev connected : Link
connected = ping_fires sample 0 5 (enter sample 5 (auto_connect_server (some 5) awake))

abbrev lost : Link
lost = close 5 (message sample 5 (6 ∷ 0 ∷ 0 ∷ 0 ∷ 93 ∷ 0 ∷ []) connected)

awake-LinkReach : LinkReach sample begin awake
unfolding start_connect_thread auto_connect_server
awake-LinkReach = goes (goes stays (step_fails _ (omega arith))) (step_wakes _ (omega arith))

connected-LinkReach : LinkReach sample begin connected
unfolding start_connect_thread auto_connect_server after_sleep make_connection enter
connected-LinkReach =
    goes (goes (goes awake-LinkReach (step_connects 5 _ (omega arith) refl)) (step_enters 5 _ refl))
      (step_pings 0 5 _ refl)

lost-LinkReach : LinkReach sample begin (destroy 5 lost)
unfolding start_connect_thread auto_connect_server after_sleep make_connection enter ping_fires
    message insert close
lost-LinkReach =
    goes (goes (goes connected-LinkReach (step_message 5 _ _ refl)) (step_closes 5 _ refl))
      (step_destroys 5 closed _ refl (λ e. absurd (ground (arith, e))))

-- The theorem about one process, while the connection is in use.
LinkReach-one_example :
    (connected.connecting + connected.sleeping + connected.restarts + length connected.objects ≡ 1)
    × ((k : ℕ)
        → (connected.host.center_client ≡ some k) ↔ (lookup k connected.objects ≡ some entered))
    × ((t k : ℕ) → lookup t connected.pings ≡ some k → lookup k connected.objects ≢ none)
LinkReach-one_example = LinkReach-one sample host connected connected-LinkReach

-- The connection is destroyed, and one at 6 is made.
LinkReach-Connected_example :
    (u : Link) × LinkReach sample (destroy 5 lost) u × (u.host.center_client ≡ some 6)
LinkReach-Connected_example = LinkReach-Connected sample host (destroy 5 lost) 6 lost-LinkReach
