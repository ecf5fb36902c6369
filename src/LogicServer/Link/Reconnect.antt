-- ===== src/LogicServer/Link/Reconnect.antt =====
-- The connection to the center server can be made again from every state.
use dserver_framework.Prelude.{ℕ, ◌≡◌, ◌≢◌, refl, ap, ◌∙◌, some, arith, lookup}
use dserver_framework.Wire.{PacketLib}
use dserver_framework.LogicServer.{Host}
use dserver_framework.LogicServer.Center.{on_enter, ping}
use dserver_framework.LogicServer.Link.{
  Phase, made, entered, closed, Link, start_connect_thread, auto_connect_server, after_sleep,
  restart, enter, close, destroy,
}
use dserver_framework.LogicServer.Link.Steps.{
  LinkStep, step_connects, step_wakes, step_restarts, step_enters, step_closes, step_destroys,
  LinkReach, stays, goes, before,
}
use dserver_framework.LogicServer.Link.Place.{
  Place, at_connect, at_sleep, at_timer, at_object, IsAt,
}
use dserver_framework.LogicServer.Link.Once.{
  connects-IsAt, wakes-IsAt, restarts-IsAt, closes-IsAt, destroys-IsAt, LinkReach-IsAt,
}

module _ (lib : PacketLib) where
  Connected : Link → ℕ → Type 0
  Connected s k = (u : Link) × LinkReach lib s u × (u.host.center_client ≡ some k)

  first_step : (s t u : Link) → LinkStep lib s t → LinkReach lib t u → LinkReach lib s u
  first_step s t u step stays = goes stays step
  first_step s t u step (goes r last) = goes (first_step s t _ step r) last

  after_step : (s t : Link) (k : ℕ) → LinkStep lib s t → Connected t k → Connected s k
  unfolding Connected
  after_step s t k step (u, r, e) = (u, first_step s t u step r, e)

  connect-Connected : (s : Link) (k : ℕ) → IsAt s at_connect → Connected s k
  unfolding Connected enter on_enter ping
  connect-Connected s k at =
      let connects = step_connects k s (omega (arith, at.0.0)) (ap (lookup k) at.1.0) in
      let t = auto_connect_server (some k) s in
      let there = ap (lookup k) (connects-IsAt k s at).1.0 in
      (enter lib k t, goes (goes stays connects) (step_enters k t (there ∙ ground arith)), refl)

  timer-Connected : (s : Link) (k : ℕ) → IsAt s at_timer → Connected s k
  timer-Connected s k at =
      after_step s (restart s) k (step_restarts s (omega (arith, at.0.2)))
        (connect-Connected (restart s) k (restarts-IsAt s at))

  found :
      (s : Link) (k : ℕ) (phase : Phase)
      → IsAt s (at_object k phase)
      → lookup k s.objects ≡ some phase
  found s k phase at = ap (lookup k) at.1.0 ∙ ground arith

  gone-Connected :
      (s : Link) (j k : ℕ) (phase : Phase)
      → phase ≢ entered
      → IsAt s (at_object j phase)
      → Connected s k
  gone-Connected s j k phase not_entered at =
      after_step s (destroy j s) k (step_destroys j phase s (found s j phase at) not_entered)
        (timer-Connected (destroy j s) k (destroys-IsAt j phase s not_entered at))

  place-Connected : (s : Link) (w : Place) (k : ℕ) → IsAt s w → Connected s k
  place-Connected s at_connect k at = connect-Connected s k at
  place-Connected s at_sleep k at =
      after_step s (after_sleep s) k (step_wakes s (omega (arith, at.0.1)))
        (connect-Connected (after_sleep s) k (wakes-IsAt s at))
  place-Connected s at_timer k at = timer-Connected s k at
  place-Connected s (at_object j made) k at =
      gone-Connected s j k made (λ e. absurd (ground (arith, e))) at
  place-Connected s (at_object j entered) k at =
      after_step s (close j s) k (step_closes j s (found s j entered at)) (
        gone-Connected (close j s) j k closed (λ e. absurd (ground (arith, e)))
          (closes-IsAt j s at))
  place-Connected s (at_object j closed) k at =
      gone-Connected s j k closed (λ e. absurd (ground (arith, e))) at

  -- However the connection was lost or failed to be made before, steps lead on to one that has entered,
  -- at whatever address its object is made.
  pub LinkReach-Connected :
      (h : Host) (s : Link) (k : ℕ)
      → LinkReach lib (start_connect_thread (before h)) s
      → (u : Link) × LinkReach lib s u × (u.host.center_client ≡ some k)
  unfolding Connected
  LinkReach-Connected h s k r = let at = LinkReach-IsAt lib h s r in place-Connected s at.0 k at.1
