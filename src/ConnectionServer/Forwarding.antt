-- ===== src/ConnectionServer/Forwarding.antt =====
-- What becomes of a client's packet: the claim of an id and of a primary server, and the forwarding.
use dserver_framework.Prelude.{
  ℕ, zero, suc, ◌+◌, ◌-◌, ◌%◌, ◌<◌, ◌^◌, ◌≡◌, ◌≢◌, Option, none, some, List, [], ◌∷◌, map, arith,
  length, get_elem?, is_some, same, lookup, lookup-insert, update, subscript, minus_one32,
  minus_one64,
}
use dserver_framework.Wire.{PacketLib}
use dserver_framework.ConnectionServer.{World, to_server, emit}
use dserver_framework.ConnectionServer.Ids.{make_runtime_id, make_runtime_id-ne-minus_one}
use dserver_framework.ConnectionServer.Servers.{
  ServerTable, find_primary_logic_server, claim_loop, claim_primary_logic_server,
}
use dserver_framework.ConnectionServer.Clients.{add_client}
use dserver_framework.ConnectionServer.Client.{
  from_client_packet, draw_runtime_id, announce, claim_runtime_id, set_primary,
  claim_primary_server, claim_if_none, refresh_slave, prepare, forward, proc_packet,
}

abbrev pub ids_of : ServerTable → List ℕ
ids_of = map λ (e : ℕ × Option ℕ). e.0

claim_loop_lem :
    (i k : ℕ) (m : ServerTable)
    → k < length m
    → get_elem? (ids_of m) k ≡ some (claim_loop i (i + k) m)
unfolding claim_loop
claim_loop_lem i k [] h = absurd (omega arith)
claim_loop_lem i zero ((id, p) ∷ m) h = ground arith
claim_loop_lem i (suc k) ((id, p) ∷ m) h =
    let e : i + suc k ≡ (i + 1) + k = omega arith in
    rw e (ground (arith, claim_loop_lem (i + 1) k m (omega arith)))

-- A claim on a table that is not empty takes the id at the place `rand() % size` in its order.
claim-get_elem? :
    (rand : ℕ) (e : ℕ × Option ℕ) (m : ServerTable)
    → get_elem? (ids_of (e ∷ m)) (rand % length (e ∷ m))
      ≡ some (claim_primary_logic_server rand (e ∷ m))
unfolding claim_primary_logic_server
claim-get_elem? rand e m = ground (arith, claim_loop_lem 0 (rand % length (e ∷ m)) (e ∷ m))

module _ (lib : PacketLib) where
  -- Once a client has a primary server's id, forwarding its packet calls through a null pointer exactly
  -- when one of its two server pointers is null and the other is not.
  pub forward_faults :
      (c : ℕ) (body : List ℕ) (w : World)
      → (w.clients c).primary_server_id ≢ minus_one32
      → is_some (forward lib c body w)
        ≡ same (is_some (w.clients c).primary_server) (is_some (w.clients c).slave_server)
  unfolding forward
  forward_faults c body w h = ground arith

  -- With both servers, the packet goes to the primary server, behind the client's id, and only there.
  forward_both :
      (c p q : ℕ) (body : List ℕ) (w : World)
      → (w.clients c).primary_server_id ≢ minus_one32
      → (w.clients c).primary_server ≡ some p
      → (w.clients c).slave_server ≡ some q
      → forward lib c body w
        ≡ some (emit w (to_server p (from_client_packet lib (w.clients c).runtime_id body)))
  unfolding forward
  forward_both c p q body w h hp hq = ground arith

  -- The first packet of a client is not announced: the primary server is looked up before there is
  -- one, under the id -1. With no server under -1, the client gets its id and its entry in the table,
  -- no packet is sent, and the table of the primary servers has a null pointer under -1 from then on.
  claim_runtime_id_silent :
      (c now : ℕ) (w : World)
      → (w.clients c).runtime_id ≡ minus_one64
      → (w.clients c).primary_server_id ≡ minus_one32
      → (subscript minus_one32 w.primary_servers).0 ≡ none
      → let id = make_runtime_id w.config_id w.inc_runtime_id now in
        let v = claim_runtime_id lib c now w in
        (v.effects ≡ w.effects)
        × ((v.clients c).runtime_id ≡ id)
        × (lookup id v.all_clients ≡ some c)
        × (lookup minus_one32 v.primary_servers ≡ some none)
  unfolding claim_runtime_id draw_runtime_id announce find_primary_logic_server subscript add_client
      update
  claim_runtime_id_silent c now w fresh first free =
      let id = make_runtime_id w.config_id w.inc_runtime_id now in
      ground (
        arith,
        lookup-insert id id c w.all_clients,
        lookup-insert minus_one32 minus_one32 none w.primary_servers,
      )

  fresh_claim :
      (c now : ℕ) (w : World)
      → (w.clients c).runtime_id ≡ minus_one64
      → (w.clients c).primary_server_id ≡ minus_one32
      → (subscript minus_one32 w.primary_servers).0 ≡ none
      → let id = make_runtime_id w.config_id w.inc_runtime_id now in
        let v = claim_runtime_id lib c now w in
        (v.clients c ≡ record (w.clients c) { runtime_id = id; primary_server = none })
        × (v.primary_servers ≡ (subscript minus_one32 w.primary_servers).1)
  unfolding claim_runtime_id draw_runtime_id announce find_primary_logic_server add_client update
  fresh_claim c now w fresh first free = ground arith

  claim_found :
      (c rand p : ℕ) (w : World)
      → (w.clients c).runtime_id ≢ minus_one64
      → (w.clients c).primary_server_id ≡ minus_one32
      → (w.clients c).primary_server ≡ none
      → claim_primary_logic_server rand w.primary_servers ≢ minus_one32
      → lookup (claim_primary_logic_server rand w.primary_servers) w.primary_servers ≡ some (some p)
      → (claim_if_none c rand w).clients c ≡ record (w.clients c) {
        primary_server_id = claim_primary_logic_server rand w.primary_servers;
        primary_server = some p;
      }
  unfolding claim_primary_server set_primary find_primary_logic_server subscript update
  claim_found c rand p w has first free real found = ground arith

  refresh_none :
      (c : ℕ) (w : World)
      → (w.clients c).slave_server_id ≡ minus_one32
      → (refresh_slave c w).clients c ≡ record (w.clients c) { slave_server = none }
  unfolding refresh_slave update
  refresh_none c w h = ground arith

  -- The first packet of a client, which has no id and no servers yet, before the second 2 ^ 32 - 1 and
  -- with no server registered under -1: whenever the claim takes a server that is registered under
  -- another id, the packet is forwarded through the null pointer of the slave server that the client
  -- does not have.
  proc_packet_first :
      (c now rand p : ℕ) (body : List ℕ) (w : World)
      → now < 2 ^ 32 - 1
      → (w.clients c).runtime_id ≡ minus_one64
      → (w.clients c).primary_server_id ≡ minus_one32
      → (w.clients c).slave_server_id ≡ minus_one32
      → (subscript minus_one32 w.primary_servers).0 ≡ none
      → claim_primary_logic_server rand (subscript minus_one32 w.primary_servers).1 ≢ minus_one32
      → lookup
          (claim_primary_logic_server rand (subscript minus_one32 w.primary_servers).1)
          (subscript minus_one32 w.primary_servers).1
        ≡ some (some p)
      → proc_packet lib c now rand body w ≡ none
  unfolding proc_packet prepare forward
  proc_packet_first c now rand p body w t fresh first alone free real found =
      let v = claim_runtime_id lib c now w in
      let u = claim_if_none c rand v in
      ground (
        arith,
        fresh_claim c now w fresh first free,
        make_runtime_id-ne-minus_one w.config_id w.inc_runtime_id now t,
        claim_found c rand p v,
        refresh_none c u,
      )
