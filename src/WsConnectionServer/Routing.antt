-- ===== src/WsConnectionServer/Routing.antt =====
-- Where a web socket client's packets go.
use dserver_framework.Prelude.{
  ℕ, ◌+◌, ◌%◌, ◌^◌, ◌≡◌, ◌≢◌, refl, inl, inr, Option-cases, true, not, ◌&&◌, none, some, List, [],
  ◌∷◌, arith, if◌then◌else◌, is_some, lookup, lookup-insert, subscript, update, minus_one32,
}
use dserver_framework.ConnectionServer.Servers.{ServerTable}
use dserver_framework.WsConnectionServer.{WsEffect, WsWorld, close_ack, emit}
use dserver_framework.WsConnectionServer.Tables.{find_slave_logic_server}
use dserver_framework.WsConnectionServer.Client.{
  put_client, claim_primary_server, route, proc_packet, send_to_all, notify_one,
  notify_server_player_exist, set_slave_server_id,
}

-- A client that counts one more packet, and claims a primary server if it needs one.
abbrev pub counted : ℕ → WsWorld → WsWorld
counted c w =
    put_client c
      (record (w.clients c) { recv_serial_id = ((w.clients c).recv_serial_id + 1) % 2 ^ 32 }) w

unfoldable pub claimed : ℕ → ℕ → WsWorld → WsWorld
claimed c rand w =
    if not (is_some (w.clients c).primary_server) && not (w.clients c).reconnecting
    then claim_primary_server c rand (counted c w)
    else counted c w

pub routed :
    (c rand op : ℕ) (body : List ℕ) (w : WsWorld)
    → op ≢ 10000
    → op ≢ 91
    → proc_packet c rand op body w
      ≡ some (
          route
            (w.clients c).primary_server
            (w.clients c).slave_server
            (w.clients c).runtime_id
            op
            body
            (claimed c rand w))
unfolding proc_packet claimed
routed c rand op body w a b = ground arith

null-send_to_all :
    (id : ℕ) (message : ℕ → WsEffect) (m : ServerTable) (w : WsWorld)
    → lookup id m ≡ some none
    → send_to_all message m w ≡ none
unfolding send_to_all
null-send_to_all id message [] w h = absurd (ground arith)
null-send_to_all id message ((j, none) ∷ m) w h = refl
null-send_to_all id message ((j, some q) ∷ m) w h =
    null-send_to_all id message m (emit w (message q)) (ground arith)

notify-null :
    (c : ℕ) (w : WsWorld) (id : ℕ)
    → (w.clients c).slave_server ≡ none
    → (w.clients c).reconnecting ≡ true
    → lookup id w.slave_servers ≡ some none
    → notify_server_player_exist c w ≡ none
unfolding notify_server_player_exist notify_one
notify-null c w id single again null =
    let s = w.clients c in
    elim (Option-cases
      (notify_one s.runtime_id s.primary_server s.reconnecting w.primary_servers w)) [
        | inl e ↦ ground arith
        | inr (v, e) ↦
            ground
              (arith, null-send_to_all id (λ q. close_ack q s.runtime_id) w.slave_servers v null)
      ]

-- When a client's slave server is set to an id other than -1 that the table does not have, the
-- notification that any reconnecting client without a slave server has gone calls through a null
-- pointer.
null_entry_faults :
    (c d id : ℕ) (w : WsWorld)
    → id ≢ minus_one32
    → lookup id w.slave_servers ≡ none
    → (w.clients d).slave_server ≡ none
    → (w.clients d).reconnecting ≡ true
    → notify_server_player_exist d (set_slave_server_id c id w) ≡ none
unfolding set_slave_server_id find_slave_logic_server subscript update
null_entry_faults c d id w real absent single again =
    notify-null d (set_slave_server_id c id w) id (ground arith) (ground arith)
      (ground (arith, lookup-insert id id none w.slave_servers))
