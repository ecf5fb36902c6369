-- ===== src/ConnectionServer/Reach.antt =====
-- What can happen to a connection server, one handler at a time: the network threads run the handlers
-- of the sessions in any order. The table of the clients is right in every state that is reached.
use dserver_framework.Prelude.{
  ℕ, zero, suc, ◌-◌, ◌<◌, ◌^◌, ◌≡◌, ◌≢◌, some, List, [], ◌∷◌, arith, ◌==◌, rounds16, Bool-cases,
  Option-cases, inl, inr, lookup, update,
}
use dserver_framework.Wire.{PacketLib}
use dserver_framework.ConnectionServer.{World, new_client, new_logic}
use dserver_framework.ConnectionServer.Servers.{
  find_primary_logic_server, find_slave_logic_server, add_primary_logic_server,
  add_slave_logic_server, remove_primary_logic_server, remove_slave_logic_server,
}
use dserver_framework.ConnectionServer.Clients.{
  find_client, kick_client, kick_loop, kick_client_of_primary,
}
use dserver_framework.ConnectionServer.Client
use dserver_framework.ConnectionServer.Client.{put_client}
use dserver_framework.ConnectionServer.Logic
use dserver_framework.ConnectionServer.Logic.{put_server}
use dserver_framework.ConnectionServer.Registry.{
  IsRegistry, SameRegistry, SameRegistry-refl, SameRegistry-trans, SameRegistry-IsRegistry,
  set_slave_server_id-SameRegistry, proc_packet-IsRegistry, on_close-IsRegistry,
}

abbrev Same : World → World → Type 0
Same = SameRegistry

kick_client-SameRegistry : (r : ℕ) (w : World) → SameRegistry w (kick_client r w)
unfolding kick_client
kick_client-SameRegistry r w = record { table = ground arith; ids = λ c. ground arith }

kick_loop-SameRegistry :
    (id : ℕ) (rest : List (ℕ × ℕ)) (w : World) → SameRegistry w (kick_loop id rest w)
unfolding kick_loop
kick_loop-SameRegistry id [] w = SameRegistry-refl w
kick_loop-SameRegistry id ((k, p) ∷ rest) w =
    elim (Bool-cases ((w.clients p).primary_server_id == id)) [
      | inl hit ↦ rw hit (
          SameRegistry-trans (kick_client-SameRegistry (w.clients p).runtime_id w)
            (kick_loop-SameRegistry id rest (kick_client (w.clients p).runtime_id w)))
      | inr miss ↦ rw miss (kick_loop-SameRegistry id rest w)
    ]

logic_close-SameRegistry : (p : ℕ) (w : World) → SameRegistry w (Logic.on_close p w)
unfolding Logic.on_close kick_client_of_primary remove_primary_logic_server
    remove_slave_logic_server
logic_close-SameRegistry p w =
    let s = kick_loop-SameRegistry (w.servers p).id w.all_clients w in
    record { table = ground (arith, s.table); ids = λ c. ground (arith, s.ids c) }

login-SameRegistry :
    (lib : PacketLib) (p : ℕ) (taken wrong rp : List ℕ) (w : World)
    → SameRegistry w (Logic.on_logic_server_login lib p taken wrong rp w)
unfolding Logic.on_logic_server_login Logic.register find_primary_logic_server
    find_slave_logic_server add_primary_logic_server add_slave_logic_server
login-SameRegistry lib p taken wrong rp w = record { table = ground arith; ids = λ c. ground arith }

by_sock_info-SameRegistry :
    (lib : PacketLib) (n : ℕ) (packet rp : List ℕ) (w : World)
    → SameRegistry w (Logic.by_sock_info_loop lib n packet rp w)
unfolding Logic.by_sock_info_loop
by_sock_info-SameRegistry lib zero packet rp w = SameRegistry-refl w
by_sock_info-SameRegistry lib (suc n) packet rp w =
    SameRegistry-trans (record { table = ground arith; ids = λ c. ground arith })
      (by_sock_info-SameRegistry lib n packet _ _)

by_runtime_id-SameRegistry :
    (lib : PacketLib) (n : ℕ) (packet rp : List ℕ) (w : World)
    → SameRegistry w (Logic.by_runtime_id_loop lib n packet rp w)
unfolding Logic.by_runtime_id_loop
by_runtime_id-SameRegistry lib zero packet rp w = SameRegistry-refl w
by_runtime_id-SameRegistry lib (suc n) packet rp w =
    SameRegistry-trans (record { table = ground arith; ids = λ c. ground arith })
      (by_runtime_id-SameRegistry lib n packet _ _)

by_socket_info-SameRegistry :
    (lib : PacketLib) (rp : List ℕ) (w : World)
    → SameRegistry w (Logic.on_packet2client_by_socket_info lib rp w)
unfolding Logic.on_packet2client_by_socket_info
by_socket_info-SameRegistry lib rp w = elim (Option-cases (lib.read_binary rp).0) [
  | inl e ↦ rw (e, Logic.on_packet2client_by_socket_info) (SameRegistry-refl w)
  | inr (bytes, e) ↦
      rw (e, Logic.on_packet2client_by_socket_info) (by_sock_info-SameRegistry lib _ bytes _ w)
]

by_runtime-SameRegistry :
    (lib : PacketLib) (rp : List ℕ) (w v : World)
    → Logic.on_packet2client_by_runtime_id lib rp w ≡ some v
    → SameRegistry w v
unfolding Logic.on_packet2client_by_runtime_id
by_runtime-SameRegistry lib rp w v h =
    let dest = lib.read_int16 (lib.read_binary rp).1 in
    let loop = λ (p : List ℕ). by_runtime_id-SameRegistry lib (rounds16 dest.0) p dest.1 w in
    elim (Option-cases (lib.read_binary rp).0) [
      | inl e ↦ let same : w ≡ v = ground arith in rw (← same) (SameRegistry-refl w)
      | inr (bytes, e) ↦ elim (Option-cases (Logic.copy_announced lib bytes)) [
        | inl f ↦ absurd (ground arith)
        | inr (p, f) ↦
            let same : Logic.by_runtime_id_loop lib (rounds16 dest.0) p dest.1 w ≡ v =
              ground arith in
            rw (← same) (loop p)
      ]
    ]

set_slave-SameRegistry :
    (lib : PacketLib) (p : ℕ) (rp : List ℕ) (w : World)
    → SameRegistry w (Logic.on_slave_server_is_set_client lib p rp w)
unfolding Logic.on_slave_server_is_set_client
set_slave-SameRegistry lib p rp w = elim (Option-cases (find_client (lib.read_int64 rp).0 w)) [
  | inl e ↦ rw (e, Logic.on_slave_server_is_set_client) (SameRegistry-refl w)
  | inr (c, e) ↦
      rw (e, Logic.on_slave_server_is_set_client) (set_slave_server_id-SameRegistry c _ w)
]

server_packet-SameRegistry :
    (lib : PacketLib) (p : ℕ) (taken wrong : List ℕ) (op : ℕ) (rp : List ℕ) (w v : World)
    → Logic.proc_packet lib p taken wrong op rp w ≡ some v
    → SameRegistry w v
unfolding Logic.proc_packet Logic.on_ping Logic.on_kick_client_by_runtime_id
server_packet-SameRegistry lib p taken wrong op rp w v h = ground (
  arith,
  SameRegistry-refl w,
  login-SameRegistry lib p taken wrong rp w,
  by_socket_info-SameRegistry lib rp w,
  by_runtime-SameRegistry lib rp w v,
  set_slave-SameRegistry lib p rp w,
  kick_client-SameRegistry (lib.read_int64 rp).0 w,
)

module _ (lib : PacketLib) where
  -- One handler of one session. The clock is before the second 2 ^ 32 - 1, and a new session stands
  -- at an address that no registered client has.
  pub data Step : World → World → Type 0 where
    accept_client :
        (c socket_id : ℕ) {w : World}
        → ((r : ℕ) → lookup r w.all_clients ≢ some c)
        → Step w (put_client c (new_client socket_id) w)
    accept_server : (p : ℕ) {w : World} → Step w (put_server p new_logic w)
    client_packet :
        (c now rand : ℕ) (body : List ℕ) {w v : World}
        → now < 2 ^ 32 - 1
        → Client.proc_packet lib c now rand body w ≡ some v
        → Step w v
    client_close : (c : ℕ) {w : World} → Step w (Client.on_close lib c w)
    server_packet :
        (p : ℕ) (taken wrong : List ℕ) (op : ℕ) (rp : List ℕ) {w v : World}
        → Logic.proc_packet lib p taken wrong op rp w ≡ some v
        → Step w v
    server_close : (p : ℕ) {w : World} → Step w (Logic.on_close p w)

  pub data Reach (w : World) : World → Type 0 where
    here : Reach w w
    next : {u v : World} → Reach w u → Step u v → Reach w v

accept_client-IsRegistry :
    (c socket_id : ℕ) (w : World)
    → ((r : ℕ) → lookup r w.all_clients ≢ some c)
    → IsRegistry w
    → IsRegistry (put_client c (new_client socket_id) w)
unfolding update
accept_client-IsRegistry c socket_id w free h = record {
  ids = λ r d e. ground (arith, h.ids r d e, free r);
  keys = h.keys;
  real = h.real;
}

Step-IsRegistry : {lib : PacketLib} {w v : World} → Step lib w v → IsRegistry w → IsRegistry v
Step-IsRegistry (accept_client c socket_id {w} free) h =
    accept_client-IsRegistry c socket_id w free h
Step-IsRegistry (accept_server p) h = record { ids = h.ids; keys = h.keys; real = h.real }
Step-IsRegistry {lib} (client_packet c now rand body {w} {v} t e) h =
    proc_packet-IsRegistry lib c now rand body w v t e h
Step-IsRegistry {lib} (client_close c {w}) h = on_close-IsRegistry lib c w h
Step-IsRegistry {lib} (server_packet p taken wrong op rp {w} {v} e) h =
    SameRegistry-IsRegistry (server_packet-SameRegistry lib p taken wrong op rp w v e) h
Step-IsRegistry (server_close p {w}) h = SameRegistry-IsRegistry (logic_close-SameRegistry p w) h

-- In every state that is reached from one with a right table, each registered id is the id of the
-- client that it leads to, and -1 is not registered: whatever the handlers, in whatever order. The
-- clock is before the second 2 ^ 32 - 1 whenever a client's packet is handled.
pub Reach-IsRegistry : {lib : PacketLib} {w v : World} → IsRegistry w → Reach lib w v → IsRegistry v
Reach-IsRegistry h here = h
Reach-IsRegistry h (next r s) = Step-IsRegistry s (Reach-IsRegistry h r)
