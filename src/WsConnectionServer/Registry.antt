-- ===== src/WsConnectionServer/Registry.antt =====
-- The table of the web socket clients by runtime id, under every handler of the server.
use dserver_framework.Prelude.{
  ℕ, is_some, not, ◌&&◌, ◌+◌, ◌%◌, if◌then◌else◌, ◌-◌, ◌<◌, ◌^◌, ◌≡◌, ◌≢◌, refl, sym, ap, ◌∙◌, true,
  false, inl, inr, none, some, List, [], ◌∷◌, Option, Bool, arith, ◌==◌, Option-cases, lookup,
  lookup-insert, lookup-erase, IsMap, insert-IsMap, erase-IsMap, update, minus_one64,
}
use dserver_framework.ConnectionServer.Ids.{make_runtime_id, make_runtime_id-ne-minus_one}
use dserver_framework.ConnectionServer.Servers.{ServerTable}
use dserver_framework.WsConnectionServer.{
  WsClient, WsEffect, WsWorld, send_pb_upstream, reply, emit,
}
use dserver_framework.WsConnectionServer.Tables.{
  find_primary_logic_server, find_slave_logic_server, add_client, erase_client,
}
use dserver_framework.WsConnectionServer.Client
use dserver_framework.WsConnectionServer.Client.{
  put_client, claim_primary_server, set_primary_server_id, set_slave_server_id, send_to_all,
  notify_one, notify_server_player_exist, route, reconnect, on_enter, on_close_timer,
}

-- The table has one entry for an id, each id of it is the id of the client that it leads to, and -1
-- leads nowhere.
pub record IsWsRegistry (w : WsWorld) : Type 0 where
  pub ids : (r c : ℕ) → lookup r w.all_clients ≡ some c → (w.clients c).runtime_id ≡ r
  pub keys : IsMap w.all_clients
  pub real : lookup minus_one64 w.all_clients ≡ none

-- The table and the clients' ids are untouched.
pub record SameWs (w v : WsWorld) : Type 0 where
  pub table : v.all_clients ≡ w.all_clients
  pub ids : (c : ℕ) → (v.clients c).runtime_id ≡ (w.clients c).runtime_id

pub SameWs-refl : (w : WsWorld) → SameWs w w
SameWs-refl w = record { table = refl; ids = λ c. refl }

pub SameWs-trans : {u v w : WsWorld} → SameWs u v → SameWs v w → SameWs u w
SameWs-trans p q = record { table = q.table ∙ p.table; ids = λ c. q.ids c ∙ p.ids c }

pub SameWs-IsWsRegistry : {w v : WsWorld} → SameWs w v → IsWsRegistry w → IsWsRegistry v
SameWs-IsWsRegistry s h = record {
  ids = λ r c e. s.ids c ∙ h.ids r c (ap (lookup r) (sym s.table) ∙ e);
  keys = rw s.table h.keys;
  real = ap (lookup minus_one64) s.table ∙ h.real;
}

pub set_primary-SameWs : (c id : ℕ) (w : WsWorld) → SameWs w (set_primary_server_id c id w)
unfolding set_primary_server_id find_primary_logic_server update
set_primary-SameWs c id w = record { table = ground arith; ids = λ d. ground arith }

pub set_slave-SameWs : (c id : ℕ) (w : WsWorld) → SameWs w (set_slave_server_id c id w)
unfolding set_slave_server_id find_slave_logic_server update
set_slave-SameWs c id w = record { table = ground arith; ids = λ d. ground arith }

claim-SameWs : (c rand : ℕ) (w : WsWorld) → SameWs w (claim_primary_server c rand w)
unfolding claim_primary_server find_primary_logic_server update
claim-SameWs c rand w = record { table = ground arith; ids = λ d. ground arith }

route-SameWs :
    (p s : Option ℕ) (r op : ℕ) (body : List ℕ) (w : WsWorld) → SameWs w (route p s r op body w)
unfolding route
route-SameWs p s r op body w = record { table = ground arith; ids = λ d. ground arith }

send_to_all-SameWs :
    (message : ℕ → WsEffect) (m : ServerTable) (w v : WsWorld)
    → send_to_all message m w ≡ some v
    → SameWs w v
unfolding send_to_all
send_to_all-SameWs message [] w v e = record { table = ground arith; ids = λ d. ground arith }
send_to_all-SameWs message ((id, none) ∷ m) w v e = absurd (ground arith)
send_to_all-SameWs message ((id, some q) ∷ m) w v e =
    let s = send_to_all-SameWs message m (emit w (message q)) v e in
    record { table = s.table; ids = s.ids }

notify_one-SameWs :
    (r : ℕ) (p : Option ℕ) (b : Bool) (m : ServerTable) (w v : WsWorld)
    → notify_one r p b m w ≡ some v
    → SameWs w v
unfolding notify_one
notify_one-SameWs r (some p) b m w v e = record { table = ground arith; ids = λ d. ground arith }
notify_one-SameWs r none true m w v e = send_to_all-SameWs _ m w v e
notify_one-SameWs r none false m w v e = record { table = ground arith; ids = λ d. ground arith }

pub notify-SameWs : (c : ℕ) (w v : WsWorld) → notify_server_player_exist c w ≡ some v → SameWs w v
unfolding notify_server_player_exist
notify-SameWs c w v e =
    let s = w.clients c in
    elim (Option-cases
      (notify_one s.runtime_id s.primary_server s.reconnecting w.primary_servers w)) [
        | inl a ↦ absurd (ground arith)
        | inr (u, a) ↦
            SameWs-trans
              (notify_one-SameWs s.runtime_id s.primary_server s.reconnecting w.primary_servers w u
                a)
              (notify_one-SameWs s.runtime_id s.slave_server s.reconnecting w.slave_servers u v
                (ground arith))
      ]

put_client-SameWs :
    (c : ℕ) (s : WsClient) (w : WsWorld)
    → s.runtime_id ≡ (w.clients c).runtime_id
    → SameWs w (put_client c s w)
unfolding update
put_client-SameWs c s w e = record { table = refl; ids = λ d. ground arith }

reconnect-SameWs :
    (c : ℕ) (body : List ℕ) (w v : WsWorld) → reconnect c body w ≡ some v → SameWs w v
unfolding reconnect
reconnect-SameWs c body w v e =
    let s = w.clients c in
    let sent =
      if s.recv_serial_id == 1
      then send_to_all (λ q. send_pb_upstream q s.runtime_id 91 body) w.primary_servers w
      else some w in
    elim (Option-cases sent) [
      | inl a ↦ absurd (ground arith)
      | inr (u, a) ↦
          let same : put_client c (record (u.clients c) { reconnecting = true }) u ≡ v =
            ground arith in
          rw (← same) (
            SameWs-trans
              (ground (
                arith,
                SameWs-refl w,
                send_to_all-SameWs (λ q. send_pb_upstream q s.runtime_id 91 body) w.primary_servers
                    w u,
              ))
              (put_client-SameWs c (record (u.clients c) { reconnecting = true }) u refl))
    ]

reply-SameWs : (c : ℕ) (w : WsWorld) → SameWs w (emit w (reply c 10000 []))
reply-SameWs c w = record { table = refl; ids = λ d. refl }

pub client_packet-SameWs :
    (c rand op : ℕ) (body : List ℕ) (w v : WsWorld)
    → Client.proc_packet c rand op body w ≡ some v
    → SameWs w v
unfolding Client.proc_packet
client_packet-SameWs c rand op body w v e =
    let s = w.clients c in
    let w' = put_client c (record s { recv_serial_id = (s.recv_serial_id + 1) % 2 ^ 32 }) w in
    let counted : SameWs w w' = put_client-SameWs c _ w refl in
    let claimed = claim-SameWs c rand w' in
    let w'' =
      if not (is_some s.primary_server) && not s.reconnecting
      then claim_primary_server c rand w'
      else w' in
    let chosen : SameWs w' w'' = ground (arith, SameWs-refl w', claimed) in
    let routed = route-SameWs s.primary_server s.slave_server s.runtime_id op body w'' in
    SameWs-trans counted (
      ground (
        arith,
        reconnect-SameWs c body w' v,
        SameWs-trans chosen routed,
        SameWs-refl w',
        reply-SameWs c w',
      ))

-- A new client is registered under the id that it draws.
pub on_enter-IsWsRegistry :
    (c now : ℕ) (w : WsWorld)
    → now < 2 ^ 32 - 1
    → ((r : ℕ) → lookup r w.all_clients ≢ some c)
    → IsWsRegistry w
    → IsWsRegistry (on_enter c now w)
unfolding on_enter add_client update
on_enter-IsWsRegistry c now w t free h =
    let id = make_runtime_id w.config_id w.inc_runtime_id now in
    record {
      ids = λ r d e. ground (arith, lookup-insert id r c w.all_clients, h.ids r d, free r);
      keys = insert-IsMap id c w.all_clients h.keys;
      real = ground (
        arith,
        lookup-insert id minus_one64 c w.all_clients,
        make_runtime_id-ne-minus_one w.config_id w.inc_runtime_id now t,
        h.real,
      );
    }

erase_client-IsWsRegistry :
    (id : ℕ) (w : WsWorld) → IsWsRegistry w → IsWsRegistry (erase_client id w)
unfolding erase_client
erase_client-IsWsRegistry id w h = record {
  ids = λ r d e. ground (arith, lookup-erase id r w.all_clients, h.ids r d);
  keys = erase-IsMap id w.all_clients h.keys;
  real = ground (arith, lookup-erase id minus_one64 w.all_clients, h.real);
}

-- A client whose two minutes are over takes its entry along.
pub on_close_timer-IsWsRegistry :
    (c : ℕ) (w v : WsWorld) → on_close_timer c w ≡ some v → IsWsRegistry w → IsWsRegistry v
unfolding on_close_timer
on_close_timer-IsWsRegistry c w v e h = elim (Option-cases (notify_server_player_exist c w)) [
  | inl a ↦ absurd (ground arith)
  | inr (u, a) ↦
      let same : erase_client (u.clients c).runtime_id u ≡ v = ground arith in
      rw (← same) (
        erase_client-IsWsRegistry (u.clients c).runtime_id u
          (SameWs-IsWsRegistry (notify-SameWs c w u a) h))
]
