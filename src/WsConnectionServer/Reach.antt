-- ===== src/WsConnectionServer/Reach.antt =====
-- What can happen to a connection server of web socket clients, one handler at a time, in any order.
use dserver_framework.Prelude.{
  ℕ, ◌-◌, ◌<◌, ◌^◌, ◌≡◌, ◌≢◌, inl, inr, some, List, [], ◌∷◌, arith, ◌==◌, if◌then◌else◌, Bool-cases,
  Option-cases, lookup, update, minus_one32,
}
use dserver_framework.WsConnectionServer.{WsWorld, new_ws_client, new_ws_logic}
use dserver_framework.WsConnectionServer.Tables.{
  find_primary_logic_server, find_slave_logic_server, add_primary_logic_server,
  add_slave_logic_server, remove_primary_logic_server, remove_slave_logic_server,
  get_primary_server_id, find_client, kick_client, kick_loop, kick_client_of_primary,
}
use dserver_framework.WsConnectionServer.Messages.{LogicServerLogin, PbLib}
use dserver_framework.WsConnectionServer.Client
use dserver_framework.WsConnectionServer.Client.{
  put_client, notify_server_player_exist, on_enter, on_close_timer,
}
use dserver_framework.WsConnectionServer.Logic
use dserver_framework.WsConnectionServer.Logic.{put_server}
use dserver_framework.WsConnectionServer.Registry.{
  IsWsRegistry, SameWs, SameWs-refl, SameWs-trans, SameWs-IsWsRegistry, set_primary-SameWs,
  set_slave-SameWs, notify-SameWs, client_packet-SameWs, on_enter-IsWsRegistry,
  on_close_timer-IsWsRegistry,
}

kick_client-SameWs : (r : ℕ) (w : WsWorld) → SameWs w (kick_client r w)
unfolding kick_client
kick_client-SameWs r w = record { table = ground arith; ids = λ c. ground arith }

kick_loop-SameWs : (id : ℕ) (rest : List (ℕ × ℕ)) (w : WsWorld) → SameWs w (kick_loop id rest w)
unfolding kick_loop
kick_loop-SameWs id [] w = SameWs-refl w
kick_loop-SameWs id ((k, c) ∷ rest) w = elim (Bool-cases (get_primary_server_id c w == id)) [
  | inl hit ↦ rw hit (
      SameWs-trans (kick_client-SameWs (w.clients c).runtime_id w)
        (kick_loop-SameWs id rest (kick_client (w.clients c).runtime_id w)))
  | inr miss ↦ rw miss (kick_loop-SameWs id rest w)
]

server_close-SameWs : (p : ℕ) (w : WsWorld) → SameWs w (Logic.on_close p w)
unfolding Logic.on_close kick_client_of_primary remove_primary_logic_server
    remove_slave_logic_server
server_close-SameWs p w =
    let s = kick_loop-SameWs (w.servers p).id w.all_clients w in
    record { table = ground (arith, s.table); ids = λ c. ground (arith, s.ids c) }

log_in-SameWs :
    (p : ℕ) (m : LogicServerLogin) (w : WsWorld)
    → SameWs w (Logic.log_in p m (Logic.register p m w))
unfolding Logic.log_in Logic.register find_primary_logic_server find_slave_logic_server
    add_primary_logic_server add_slave_logic_server
log_in-SameWs p m w = record { table = ground arith; ids = λ c. ground arith }

downstream-SameWs :
    (op : ℕ) (bytes vs : List ℕ) (w : WsWorld) → SameWs w (Logic.downstream_loop op bytes vs w)
unfolding Logic.downstream_loop
downstream-SameWs op bytes [] w = SameWs-refl w
downstream-SameWs op bytes (v ∷ vs) w =
    SameWs-trans (record { table = ground arith; ids = λ c. ground arith })
      (downstream-SameWs op bytes vs _)

module _ (pb : PbLib) where
  login-SameWs :
      (p : ℕ) (rp : List ℕ) (w : WsWorld) → SameWs w (Logic.on_logic_server_login pb p rp w)
  unfolding Logic.on_logic_server_login
  login-SameWs p rp w = elim (Option-cases (pb.parse_login rp)) [
    | inl e ↦ rw (e, Logic.on_logic_server_login) (SameWs-refl w)
    | inr (m, e) ↦ rw (e, Logic.on_logic_server_login) (log_in-SameWs p m w)
  ]

  packet2client-SameWs :
      (rp : List ℕ) (w : WsWorld) → SameWs w (Logic.on_packet2client_by_runtime_id pb rp w)
  unfolding Logic.on_packet2client_by_runtime_id
  packet2client-SameWs rp w = elim (Option-cases (pb.parse_downstream rp)) [
    | inl e ↦ rw (e, Logic.on_packet2client_by_runtime_id) (SameWs-refl w)
    | inr (m, e) ↦
        rw (e, Logic.on_packet2client_by_runtime_id)
          (downstream-SameWs m.msg_id m.bytes m.client_id w)
  ]

  kick-SameWs : (rp : List ℕ) (w : WsWorld) → SameWs w (Logic.on_kick_client_by_runtime_id pb rp w)
  unfolding Logic.on_kick_client_by_runtime_id
  kick-SameWs rp w = elim (Option-cases (pb.parse_kick_player rp)) [
    | inl e ↦ rw (e, Logic.on_kick_client_by_runtime_id) (SameWs-refl w)
    | inr (id, e) ↦ rw (e, Logic.on_kick_client_by_runtime_id) (kick_client-SameWs id w)
  ]

  slave-SameWs :
      (p : ℕ) (rp : List ℕ) (w : WsWorld) → SameWs w (Logic.on_is_set_player_slave_server pb p rp w)
  unfolding Logic.on_is_set_player_slave_server
  slave-SameWs p rp w = elim (Option-cases (pb.parse_set_slave rp)) [
    | inl e ↦ rw (e, Logic.on_is_set_player_slave_server) (SameWs-refl w)
    | inr (m, e) ↦ elim (Option-cases (find_client m.role_runtime_id w)) [
      | inl f ↦ rw (e, f, Logic.on_is_set_player_slave_server) (SameWs-refl w)
      | inr (c, f) ↦
          rw (e, f, Logic.on_is_set_player_slave_server)
            (set_slave-SameWs c (if m.will_set then (w.servers p).id else minus_one32) w)
    ]
  ]

  primary-SameWs :
      (p : ℕ) (rp : List ℕ) (w : WsWorld) → SameWs w (Logic.on_set_player_primary_server pb p rp w)
  unfolding Logic.on_set_player_primary_server
  primary-SameWs p rp w = elim (Option-cases (pb.parse_set_primary rp)) [
    | inl e ↦ rw (e, Logic.on_set_player_primary_server) (SameWs-refl w)
    | inr (id, e) ↦ elim (Option-cases (find_client id w)) [
      | inl f ↦ rw (e, f, Logic.on_set_player_primary_server) (SameWs-refl w)
      | inr (c, f) ↦
          rw (e, f, Logic.on_set_player_primary_server) (set_primary-SameWs c (w.servers p).id w)
    ]
  ]

  server_packet-SameWs :
      (p op : ℕ) (rp : List ℕ) (w : WsWorld) → SameWs w (Logic.proc_packet pb p op rp w)
  unfolding Logic.proc_packet
  server_packet-SameWs p op rp w = ground (
    arith,
    SameWs-refl w,
    login-SameWs p rp w,
    packet2client-SameWs rp w,
    kick-SameWs rp w,
    slave-SameWs p rp w,
    primary-SameWs p rp w,
  )

  -- One handler of one session. The clock is before the second 2 ^ 32 - 1, and a new session stands
  -- at an address that no registered client has.
  pub data WsStep : WsWorld → WsWorld → Type 0 where
    ws_enter :
        (c now : ℕ) {w : WsWorld}
        → now < 2 ^ 32 - 1
        → ((r : ℕ) → lookup r w.all_clients ≢ some c)
        → WsStep w (on_enter c now (put_client c new_ws_client w))
    ws_packet :
        (c rand op : ℕ) (body : List ℕ) {w v : WsWorld}
        → Client.proc_packet c rand op body w ≡ some v
        → WsStep w v
    ws_close : (c : ℕ) {w : WsWorld} → WsStep w (Client.on_close c w)
    ws_timer : (c : ℕ) {w v : WsWorld} → on_close_timer c w ≡ some v → WsStep w v
    -- the function that KickClientByRuntimeID leaves to the client's thread
    ws_notify : (c : ℕ) {w v : WsWorld} → notify_server_player_exist c w ≡ some v → WsStep w v
    ws_accept_server : (p : ℕ) {w : WsWorld} → WsStep w (put_server p new_ws_logic w)
    ws_server_packet :
        (p op : ℕ) (rp : List ℕ) {w : WsWorld} → WsStep w (Logic.proc_packet pb p op rp w)
    ws_server_close : (p : ℕ) {w : WsWorld} → WsStep w (Logic.on_close p w)

  pub data WsReach (w : WsWorld) : WsWorld → Type 0 where
    ws_here : WsReach w w
    ws_next : {u v : WsWorld} → WsReach w u → WsStep u v → WsReach w v

new_client-IsWsRegistry :
    (c : ℕ) (w : WsWorld)
    → ((r : ℕ) → lookup r w.all_clients ≢ some c)
    → IsWsRegistry w
    → IsWsRegistry (put_client c new_ws_client w)
unfolding update
new_client-IsWsRegistry c w free h = record {
  ids = λ r d e. ground (arith, h.ids r d e, free r);
  keys = h.keys;
  real = h.real;
}

close-SameWs : (c : ℕ) (w : WsWorld) → SameWs w (Client.on_close c w)
unfolding Client.on_close
close-SameWs c w = record { table = ground arith; ids = λ d. ground arith }

WsStep-IsWsRegistry : {pb : PbLib} {w v : WsWorld} → WsStep pb w v → IsWsRegistry w → IsWsRegistry v
WsStep-IsWsRegistry (ws_enter c now {w} t free) h =
    on_enter-IsWsRegistry c now (put_client c new_ws_client w) t free
      (new_client-IsWsRegistry c w free h)
WsStep-IsWsRegistry (ws_packet c rand op body {w} {v} e) h =
    SameWs-IsWsRegistry (client_packet-SameWs c rand op body w v e) h
WsStep-IsWsRegistry (ws_close c {w}) h = SameWs-IsWsRegistry (close-SameWs c w) h
WsStep-IsWsRegistry (ws_timer c {w} {v} e) h = on_close_timer-IsWsRegistry c w v e h
WsStep-IsWsRegistry (ws_notify c {w} {v} e) h = SameWs-IsWsRegistry (notify-SameWs c w v e) h
WsStep-IsWsRegistry (ws_accept_server p) h = record { ids = h.ids; keys = h.keys; real = h.real }
WsStep-IsWsRegistry {pb} (ws_server_packet p op rp {w}) h =
    SameWs-IsWsRegistry (server_packet-SameWs pb p op rp w) h
WsStep-IsWsRegistry (ws_server_close p {w}) h = SameWs-IsWsRegistry (server_close-SameWs p w) h

-- In every state that is reached from one with a right table, each registered id is the id of the
-- client that it leads to, and -1 is not registered: whatever the handlers, in whatever order. The
-- clock is before the second 2 ^ 32 - 1.
pub WsReach-IsWsRegistry :
    {pb : PbLib} {w v : WsWorld} → IsWsRegistry w → WsReach pb w v → IsWsRegistry v
WsReach-IsWsRegistry h ws_here = h
WsReach-IsWsRegistry h (ws_next r s) = WsStep-IsWsRegistry s (WsReach-IsWsRegistry h r)
