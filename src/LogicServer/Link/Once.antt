-- ===== src/LogicServer/Link/Once.antt =====
-- One process at a time keeps the connection to the center server.
use dserver_framework.Prelude.{
  [], List, ℕ, ◌+◌, ◌≡◌, ◌≢◌, ◌↔◌, refl, ap, ◌∙◌, none, some, arith, length, lookup, update, insert,
  erase,
}
use dserver_framework.Wire.{PacketLib}
use dserver_framework.LogicServer.{Host}
use dserver_framework.LogicServer.Center.{on_enter, on_close, ping}
use dserver_framework.LogicServer.Link.{
  Phase, made, entered, closed, Link, start_connect_thread, make_connection, auto_connect_server,
  after_sleep, restart, enter, ping_fires, message, close, destroy,
}
use dserver_framework.LogicServer.Link.Steps.{
  LinkStep, step_fails, step_connects, step_wakes, step_restarts, step_enters, step_pings,
  step_message, step_closes, step_destroys, LinkReach, stays, goes, before,
}
use dserver_framework.LogicServer.Link.Place.{
  Place, at_connect, at_sleep, at_timer, at_object, IsAt, connecting-place, sleeping-place,
  restarts-place, insert-one, erase-one, object-place, ping-place, client-gone, added-IsTimed,
  cancelled, place-one, place-client, place-pings,
}
use dserver_framework.LogicServer.Link.Messages.{on_msg-client}

starts-IsAt : (h : Host) → IsAt (start_connect_thread (before h)) at_connect
unfolding start_connect_thread
starts-IsAt h = ((refl, refl, refl), (refl, refl, refl))

-- Each step moves the one process.
fails-IsAt : (s : Link) → IsAt s at_connect → IsAt (auto_connect_server none s) at_sleep
unfolding auto_connect_server
fails-IsAt s at = ground (arith, at)

pub connects-IsAt :
    (k : ℕ) (s : Link)
    → IsAt s at_connect
    → IsAt (auto_connect_server (some k) s) (at_object k made)
unfolding auto_connect_server make_connection update
connects-IsAt k s at = ground (arith, at)

pub wakes-IsAt : (s : Link) → IsAt s at_sleep → IsAt (after_sleep s) at_connect
unfolding after_sleep start_connect_thread
wakes-IsAt s at = ground (arith, at)

pub restarts-IsAt : (s : Link) → IsAt s at_timer → IsAt (restart s) at_connect
unfolding restart start_connect_thread
restarts-IsAt s at = ground (arith, at)

enters-IsAt :
    (lib : PacketLib) (k : ℕ) (s : Link)
    → IsAt s (at_object k made)
    → IsAt (enter lib k s) (at_object k entered)
unfolding enter on_enter ping
enters-IsAt lib k s (counts, (objects, client, timed)) =
    let s' = record s { host = on_enter lib k s.host; objects = insert k entered s.objects } in
    (
      counts,
      (
        ap (insert k entered) objects ∙ insert-one k made entered,
        refl,
        added-IsTimed s' k entered (λ e. absurd (ground (arith, e))) timed.0,
      ),
    )

pings-IsAt :
    (lib : PacketLib) (t k : ℕ) (phase : Phase) (s : Link)
    → phase ≢ made
    → erase t s.pings ≡ []
    → IsAt s (at_object k phase)
    → IsAt (ping_fires lib t k s) (at_object k phase)
unfolding ping_fires ping
pings-IsAt lib t k phase s not_made no_pings (counts, (objects, client, timed)) =
    let s' = record s { host = ping lib k s.host; pings = erase t s.pings } in
    (counts, (objects, client, added-IsTimed s' k phase not_made no_pings))

message-IsAt :
    (lib : PacketLib) (k : ℕ) (bytes : List ℕ) (s : Link)
    → IsAt s (at_object k entered)
    → IsAt (message lib k bytes s) (at_object k entered)
unfolding message
message-IsAt lib k bytes s (counts, (objects, client, timed)) =
    (counts, (objects, on_msg-client lib k bytes s.host ∙ client, timed))

pub closes-IsAt :
    (k : ℕ) (s : Link) → IsAt s (at_object k entered) → IsAt (close k s) (at_object k closed)
unfolding close on_close
closes-IsAt k s (counts, (objects, client, timed)) =
    (counts, (ap (insert k closed) objects ∙ insert-one k entered closed, refl, timed))

pub destroys-IsAt :
    (k : ℕ) (phase : Phase) (s : Link)
    → phase ≢ entered
    → IsAt s (at_object k phase)
    → IsAt (destroy k s) at_timer
unfolding destroy
destroys-IsAt k phase s not_entered (counts, (objects, client, timed)) = (
  (counts.0, counts.1, omega (arith, counts.2)),
  (
    ap (erase k) objects ∙ erase-one k phase,
    client ∙ client-gone k phase not_entered,
    cancelled s k phase timed,
  ),
)

LinkStep-IsAt :
    (lib : PacketLib) (s u : Link) (w : Place)
    → IsAt s w
    → LinkStep lib s u
    → (w' : Place) × IsAt u w'
LinkStep-IsAt lib s u w at (step_fails t found) =
    (at_sleep, fails-IsAt s (connecting-place s w at found))
LinkStep-IsAt lib s u w at (step_connects k t found new) =
    (at_object k made, connects-IsAt k s (connecting-place s w at found))
LinkStep-IsAt lib s u w at (step_wakes t found) =
    (at_connect, wakes-IsAt s (sleeping-place s w at found))
LinkStep-IsAt lib s u w at (step_restarts t found) =
    (at_connect, restarts-IsAt s (restarts-place s w at found))
LinkStep-IsAt lib s u w at (step_enters k t found) =
    (at_object k entered, enters-IsAt lib k s (object-place s w k made at found))
LinkStep-IsAt lib s u w at (step_pings i k t found) =
    let (phase, not_made, no_pings, there) = ping-place s w i k at found in
    (at_object k phase, pings-IsAt lib i k phase s not_made no_pings there)
LinkStep-IsAt lib s u w at (step_message k bytes t found) =
    (at_object k entered, message-IsAt lib k bytes s (object-place s w k entered at found))
LinkStep-IsAt lib s u w at (step_closes k t found) =
    (at_object k closed, closes-IsAt k s (object-place s w k entered at found))
LinkStep-IsAt lib s u w at (step_destroys k phase t found not_entered) =
    (at_timer, destroys-IsAt k phase s not_entered (object-place s w k phase at found))

pub LinkReach-IsAt :
    (lib : PacketLib) (h : Host) (s : Link)
    → LinkReach lib (start_connect_thread (before h)) s
    → (w : Place) × IsAt s w
LinkReach-IsAt lib h s stays = (at_connect, starts-IsAt h)
LinkReach-IsAt lib h s (goes r step) =
    let at = LinkReach-IsAt lib h _ r in LinkStep-IsAt lib _ s at.0 at.1 step

-- The logic server has exactly one of a thread that connects, a thread that sleeps, a timer that starts
-- the next thread and a connection object, whatever happens after main starts the first thread; its
-- global pointer leads to a connection exactly if the connection has entered and not closed; and a
-- pending timer of ping has a connection that exists.
pub LinkReach-one :
    (lib : PacketLib) (h : Host) (s : Link)
    → LinkReach lib (start_connect_thread (before h)) s
    → (s.connecting + s.sleeping + s.restarts + length s.objects ≡ 1)
      × ((k : ℕ) → (s.host.center_client ≡ some k) ↔ (lookup k s.objects ≡ some entered))
      × ((t k : ℕ) → lookup t s.pings ≡ some k → lookup k s.objects ≢ none)
LinkReach-one lib h s r =
    let at = LinkReach-IsAt lib h s r in
    (place-one s at.0 at.1, λ k. place-client s at.0 k at.1, λ t k. place-pings s at.0 t k at.1)
