-- ===== src/ConnectionServer/Closing.antt =====
-- What setting a slave server and closing a client do to the client's later packets and to the table.
use dserver_framework.Prelude.{
  ℕ, ◌≡◌, ◌≢◌, none, some, arith, ◌==◌, if◌then◌else◌, is_some, lookup, lookup-erase, update,
  subscript, minus_one32, minus_one64,
}
use dserver_framework.Wire.{PacketLib}
use dserver_framework.ConnectionServer.{World}
use dserver_framework.ConnectionServer.Servers.{find_primary_logic_server, find_slave_logic_server}
use dserver_framework.ConnectionServer.Clients.{add_client, erase_client}
use dserver_framework.ConnectionServer.Client.{
  destroy_packet, send_if, draw_runtime_id, announce, claim_runtime_id, set_primary,
  claim_primary_server, claim_if_none, refresh_slave, prepare, on_close,
}
use dserver_framework.ConnectionServer.Registry.{IsRegistry}

module _ (lib : PacketLib) where
  -- The claims leave the slave server alone.
  claim-slave :
      (c now rand : ℕ) (w : World)
      → let v = claim_if_none c rand (claim_runtime_id lib c now w) in
        ((v.clients c).slave_server ≡ (w.clients c).slave_server)
        × ((v.clients c).slave_server_id ≡ (w.clients c).slave_server_id)
        × (v.slave_servers ≡ w.slave_servers)
  unfolding claim_runtime_id draw_runtime_id announce find_primary_logic_server add_client update
      claim_primary_server set_primary
  claim-slave c now rand w = (ground arith, ground arith, ground arith)

  -- Which slave server a packet finds: none if the client's slave id is -1; otherwise the one that an
  -- earlier packet found, even if the id has been set to another server's since then; and only if
  -- there is none, the one that the table has for the id.
  prepare-slave_server :
      (c now rand : ℕ) (w : World)
      → ((prepare lib c now rand w).clients c).slave_server ≡ (
          let s = w.clients c in
          if s.slave_server_id == minus_one32
          then none
          else if is_some s.slave_server
          then s.slave_server
          else (subscript s.slave_server_id w.slave_servers).0)
  unfolding prepare refresh_slave find_slave_logic_server update
  prepare-slave_server c now rand w = ground (arith, claim-slave c now rand w)

  -- Where the table of the clients is right: a client with an id that closes is found under no id, its
  -- servers have been told once, the slave server last, and closing it again does nothing.
  pub on_close-unreachable :
      (c : ℕ) (w : World)
      → IsRegistry w
      → (w.clients c).runtime_id ≢ minus_one64
      → let s = w.clients c in
        let v = on_close lib c w in
        let packet = destroy_packet lib s.runtime_id in
        ((r : ℕ) → lookup r v.all_clients ≢ some c)
        × (v.effects ≡ (send_if s.slave_server packet (send_if s.primary_server packet w)).effects)
        × (on_close lib c v ≡ v)
  unfolding on_close erase_client update
  on_close-unreachable c w h has = (
    λ r e. ground (arith, lookup-erase (w.clients c).runtime_id r w.all_clients, h.ids r c),
    ground arith,
    ground arith,
  )
