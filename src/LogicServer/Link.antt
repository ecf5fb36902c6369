-- ===== src/LogicServer/Link.antt =====
-- Common/AutoConnectionServer.h and LogicServer/CenterServerConnection.cpp: how the logic server keeps
-- its connection to the center server. A connection is an object at an address, made by the thread
-- that connected and destroyed when the network and the messages have let it go. The thread that
-- connects, the objects and the pending timers are counted, so that there could be several.
pub mod Steps
mod Place
pub mod Messages
pub mod Once
pub mod Reconnect
use dserver_framework.Prelude.{
  ℕ, suc, ◌+◌, ◌-◌, ◌≡◌, Option, none, some, List, [], ◌∷◌, update, lookup, insert, erase, ◌==◌,
  if◌then◌else◌,
}
use dserver_framework.Wire.{PacketLib}
use dserver_framework.LogicServer.{Host}
use dserver_framework.LogicServer.Center.{on_enter, on_close, on_msg, ping}

-- How far a connection is: made, entered, closed.
pub data Phase : Type 0 where
  made : Phase
  entered : Phase
  closed : Phase

pub record Link : Type 0 where
  pub host : Host
  -- threads of autoConnectServer that connect, and that sleep after a failure
  pub connecting : ℕ
  pub sleeping : ℕ
  -- timers of a destroyed connection, which start the next thread
  pub restarts : ℕ
  -- the connections that exist
  pub objects : List (ℕ × Phase)
  -- the pending timers of ping, with the connection that each has for `this`, and the next number
  pub pings : List (ℕ × ℕ)
  pub next_timer : ℕ
  -- mPingTimer, a weak pointer, `none` for one that was never set
  pub ping_timer : ℕ → Option ℕ

-- startConnectThread
unfoldable pub start_connect_thread : Link → Link
start_connect_thread s = record s { connecting = s.connecting + 1 }

-- MyFuck::foo makes the connection; mPingTimer is empty.
unfoldable pub make_connection : ℕ → Link → Link
make_connection k s = record s {
  objects = (k, made) ∷ s.objects;
  ping_timer = update s.ping_timer k none;
}

-- autoConnectServer, up to the sleep: `result` is the address of the connection that is made of the
-- socket, or `none` for SOCKET_ERROR.
unfoldable pub auto_connect_server : Option ℕ → Link → Link
unfolding make_connection
auto_connect_server result s =
    let s' = record s { connecting = s.connecting - 1 } in
    elim result [ none ↦ record s' { sleeping = s'.sleeping + 1 } | some k ↦ make_connection k s' ]

-- autoConnectServer, after the sleep of AUTO_CONNECT_DELAY
unfoldable pub after_sleep : Link → Link
unfolding start_connect_thread
after_sleep s = start_connect_thread (record s { sleeping = s.sleeping - 1 })

-- The timer that a destructor added.
unfoldable pub restart : Link → Link
unfolding start_connect_thread
restart s = start_connect_thread (record s { restarts = s.restarts - 1 })

-- What addTimer and the assignment to mPingTimer at the end of ping do.
abbrev pub add_ping_timer : ℕ → Link → Link
add_ping_timer k s = record s {
  pings = (s.next_timer, k) ∷ s.pings;
  next_timer = s.next_timer + 1;
  ping_timer = update s.ping_timer k (some s.next_timer);
}

module _ (lib : PacketLib) where
  -- onEnter of the connection at k
  unfoldable pub enter : ℕ → Link → Link
  enter k s =
      add_ping_timer k
        (record s { host = on_enter lib k s.host; objects = insert k entered s.objects })

  -- A pending timer runs ping on the connection that it was made by.
  unfoldable pub ping_fires : ℕ → ℕ → Link → Link
  ping_fires t k s =
      add_ping_timer k (record s { host = ping lib k s.host; pings = erase t s.pings })

  unfoldable pub message : ℕ → List ℕ → Link → Link
  message k bytes s = record s { host = on_msg lib k bytes s.host }

-- onClose of the connection at k
unfoldable pub close : ℕ → Link → Link
close k s = record s { host = on_close k s.host; objects = insert k closed s.objects }

-- CenterServerConnection::~CenterServerConnection: what the weak pointer leads to is cancelled, if it
-- is still pending.
unfoldable pub destroy : ℕ → Link → Link
destroy k s = record s {
  objects = erase k s.objects;
  pings = elim (s.ping_timer k) [ none ↦ s.pings | some t ↦ erase t s.pings ];
  restarts = s.restarts + 1;
}
