-- ===== src/LogicServer/Link/Steps.antt =====
-- The logic server's connection to the center server: what happens to it, in any order.
use dserver_framework.Prelude.{ℕ, ◌≤◌, ◌≡◌, ◌≢◌, none, some, List, [], lookup}
use dserver_framework.Wire.{PacketLib}
use dserver_framework.LogicServer.{Host}
use dserver_framework.LogicServer.Link.{
  Phase, made, entered, Link, auto_connect_server, after_sleep, restart, enter, ping_fires, message,
  close, destroy,
}

-- What happens, in any order: a connect ends, a thread has slept, a timer fires, and a connection
-- enters, has a message, closes and is destroyed. The network enters a connection at most once and
-- closes only one that it entered; it lets go of one that it never entered, and of one that it closed.
pub data LinkStep (lib : PacketLib) : Link → Link → Type 0 where
  step_fails : (s : Link) → 1 ≤ s.connecting → LinkStep lib s (auto_connect_server none s)
  step_connects :
      (k : ℕ) (s : Link)
      → 1 ≤ s.connecting
      → lookup k s.objects ≡ none
      → LinkStep lib s (auto_connect_server (some k) s)
  step_wakes : (s : Link) → 1 ≤ s.sleeping → LinkStep lib s (after_sleep s)
  step_restarts : (s : Link) → 1 ≤ s.restarts → LinkStep lib s (restart s)
  step_enters : (k : ℕ) (s : Link) → lookup k s.objects ≡ some made → LinkStep lib s (enter lib k s)
  step_pings :
      (t k : ℕ) (s : Link) → lookup t s.pings ≡ some k → LinkStep lib s (ping_fires lib t k s)
  step_message :
      (k : ℕ) (bytes : List ℕ) (s : Link)
      → lookup k s.objects ≡ some entered
      → LinkStep lib s (message lib k bytes s)
  step_closes : (k : ℕ) (s : Link) → lookup k s.objects ≡ some entered → LinkStep lib s (close k s)
  step_destroys :
      (k : ℕ) (phase : Phase) (s : Link)
      → lookup k s.objects ≡ some phase
      → phase ≢ entered
      → LinkStep lib s (destroy k s)

pub data LinkReach (lib : PacketLib) (s : Link) : Link → Type 0 where
  stays : LinkReach lib s s
  goes : {t u : Link} → LinkReach lib s t → LinkStep lib t u → LinkReach lib s u

-- The logic server before main starts the first thread, for a host with no center server.
abbrev pub before : Host → Link
before h = record {
  host = record h { center_client = none };
  connecting = 0;
  sleeping = 0;
  restarts = 0;
  objects = [];
  pings = [];
  next_timer = 0;
  ping_timer = λ k. none;
}
